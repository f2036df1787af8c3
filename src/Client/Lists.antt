-- ===== src/Client/Lists.antt =====
-- src/client_process.c: how a command list is run, and what is left behind it.
use mathlib.Core.List.{append-nil}
use mathlib.Core.Path.{subst}
use mpd.Base.{
  ℕ, ◌+◌, ◌≤◌, ◌<◌, ◌≡◌, ◌≢◌, ◌⊎◌, ◌%◌, refl, sym, ap, ◌∙◌, Bool, true, false, not, ◌||◌, none,
  some, List, [], ◌∷◌, ◌++◌, if◌then◌else◌, Bool-cases, if-true, if-false, inl, inr, size_mod,
  add_uint, uint_mod,
}
use mpd.Tokenizer.{Bytes}
use mpd.Client.{
  success, list_success, Client, Process, Return, error, ok, kill, close, list_end, run_list,
  process_command_list, finish, end_list, process_line, is_ok, is_close, puts,
}
use mpd.Client.Feed.{
  AllPlain, total_size, reverse_onto-reverse_onto, feed, feed-append, feed-collects, feed_one,
}

module _ {ℓ} {World : Type ℓ} where
  -- the client with the list `lines` about to be run
  abbrev pub with_list : Client World → List Bytes → Client World
  with_list c lines = record c {
    cmd_list = lines;
    cmd_list_size = c.cmd_list_size + total_size lines;
  }

  -- What the end of a list leaves behind commands that left `ret` and `c`: a client to be closed; or "OK"
  -- unless a command failed, no list, and list mode over.
  pub data Over (ret : Return) (c : Client World) : Return → Client World → Type ℓ where
    closed : (ret ≡ close) ⊎ (c.expired ≡ true) → Over ret c close c
    answered :
        ret ≡ ok
        → c.expired ≡ false
        → Over ret c ok (record c { output = success ∷ c.output; cmd_list = []; mode = none })
    unanswered :
        (ret ≡ error) ⊎ (ret ≡ kill)
        → c.expired ≡ false
        → Over ret c ret (record c { cmd_list = []; mode = none })

module _ {ℓ} {World : Type ℓ} (process : Process World) where
  -- How commands run one after another, the first one with the number `n`: until there are no more, or one
  -- does not return COMMAND_RETURN_OK, or the client expires; and behind each of the others "list_OK" is
  -- written if that was asked for.
  pub data Ran (list_ok : Bool)
      : ℕ → List Bytes → Client World → Return → Client World → Type ℓ where
    at_end : {n : ℕ} {c : Client World} → Ran list_ok n [] c ok c
    stopped :
        {n : ℕ} {cmd : Bytes} {cmds : List Bytes} {c c' : Client World} {ret : Return}
        → process c n cmd ≡ (ret, c')
        → (ret ≢ ok) ⊎ (c'.expired ≡ true)
        → Ran list_ok n (cmd ∷ cmds) c ret c'
    silently :
        {n : ℕ} {cmd : Bytes} {cmds : List Bytes} {c c1 c' : Client World} {ret : Return}
        → process c n cmd ≡ (ok, c1)
        → c1.expired ≡ false
        → list_ok ≡ false
        → Ran list_ok ((n + 1) % uint_mod) cmds c1 ret c'
        → Ran list_ok n (cmd ∷ cmds) c ret c'
    answering :
        {n : ℕ} {cmd : Bytes} {cmds : List Bytes} {c c1 c' : Client World} {ret : Return}
        → process c n cmd ≡ (ok, c1)
        → c1.expired ≡ false
        → list_ok ≡ true
        → Ran list_ok
            ((n + 1) % uint_mod)
            cmds
            (record c1 { output = list_success ∷ c1.output })
            ret
            c'
        → Ran list_ok n (cmd ∷ cmds) c ret c'

  -- the loop behind a command that left `ret` and `c`, and whether it stops there
  abbrev after_command :
      Bool → List Bytes → ℕ → Return → Client World → Bool → Return × Client World
  after_command b ls n ret c stops = elim stops [
    | true ↦ (ret, c)
    | false ↦ run_list process b ls (add_uint n 1) ret (if b then puts list_success c else c)
  ]

  after_command-Ran :
      (b : Bool) (l : Bytes) (ls : List Bytes) (n : ℕ) (c : Client World) (ret : Return)
      (c1 : Client World)
      → process c n l ≡ (ret, c1)
      → ((c2 : Client World)
          → Ran b
              (add_uint n 1)
              ls
              c2
              (run_list process b ls (add_uint n 1) ok c2).0
              (run_list process b ls (add_uint n 1) ok c2).1)
      → Ran b n
          (l ∷ ls)
          c
          (after_command b ls n ret c1 (not (is_ok ret) || c1.expired)).0
          (after_command b ls n ret c1 (not (is_ok ret) || c1.expired)).1
  after_command-Ran b l ls n c error c1 e rest = stopped e (inl λ h. cc h)
  after_command-Ran b l ls n c kill c1 e rest = stopped e (inl λ h. cc h)
  after_command-Ran b l ls n c close c1 e rest = stopped e (inl λ h. cc h)
  after_command-Ran true l ls n c ok c1 e rest = elim (Bool-cases c1.expired) [
    | inl t ↦
        subst (λ (r : Return × Client World). Ran true n (l ∷ ls) c r.0 r.1)
          (sym (ap (after_command true ls n ok c1) t)) (stopped e (inr t))
    | inr f ↦
        subst (λ (r : Return × Client World). Ran true n (l ∷ ls) c r.0 r.1)
          (sym (ap (after_command true ls n ok c1) f))
          (answering e f refl (rest (puts list_success c1)))
  ]
  after_command-Ran false l ls n c ok c1 e rest = elim (Bool-cases c1.expired) [
    | inl t ↦
        subst (λ (r : Return × Client World). Ran false n (l ∷ ls) c r.0 r.1)
          (sym (ap (after_command false ls n ok c1) t)) (stopped e (inr t))
    | inr f ↦
        subst (λ (r : Return × Client World). Ran false n (l ∷ ls) c r.0 r.1)
          (sym (ap (after_command false ls n ok c1) f)) (silently e f refl (rest c1))
  ]

  run_list-Ran :
      (b : Bool) (lines : List Bytes) (n : ℕ) (c : Client World)
      → Ran b n lines c (run_list process b lines n ok c).0 (run_list process b lines n ok c).1
  unfolding run_list
  run_list-Ran b [] n c = at_end
  run_list-Ran b (l ∷ ls) n c =
      after_command-Ran b l ls n c (process c n l).0 (process c n l).1 refl
        λ c2. run_list-Ran b ls (add_uint n 1) c2

  -- the end of a list behind commands that left `ret` and `c`
  abbrev pub leave_list : Return → Client World → Return × Client World
  leave_list ret c =
      if is_close ret || c.expired
      then (close, c)
      else (ret, record (finish process ret c) { cmd_list = []; mode = none })

  -- where the client is not to be closed for its result
  unclosed-Over :
      (ret : Return) (c : Client World) (r : Return × Client World)
      → (c.expired ≡ false → Over ret c r.0 r.1)
      → Over ret c (if c.expired then (close, c) else r).0 (if c.expired then (close, c) else r).1
  unclosed-Over ret c r left = elim (Bool-cases c.expired) [
    | inl t ↦
        subst (λ (r : Return × Client World). Over ret c r.0 r.1) (sym (if-true _ _ t))
          (closed (inr t))
    | inr f ↦
        subst (λ (r : Return × Client World). Over ret c r.0 r.1) (sym (if-false _ _ f)) (left f)
  ]

  leave_list-Over :
      (ret : Return) (c : Client World) → Over ret c (leave_list ret c).0 (leave_list ret c).1
  unfolding finish
  leave_list-Over close c = closed (inl refl)
  leave_list-Over ok c = unclosed-Over ok c _ λ f. answered refl f
  leave_list-Over error c = unclosed-Over error c _ λ f. unanswered (inl refl) f
  leave_list-Over kill c = unclosed-Over kill c _ λ f. unanswered (inr refl) f

  -- What the lines of a list that fits and its end give.
  pub list_result :
      (lines : List Bytes) (c : Client World) (b : Bool)
      → c.mode ≡ some b
      → c.idle_waiting ≡ false
      → c.cmd_list ≡ []
      → AllPlain lines
      → c.max_command_list_size < size_mod
      → c.cmd_list_size + total_size lines ≤ c.max_command_list_size
      → feed process c (lines ++ (list_end ∷ []))
        ≡ leave_list
            (process_command_list process (with_list c lines) b lines).0
            (process_command_list process (with_list c lines) b lines).1
  unfolding process_line end_list
  list_result lines c b m i e p max fits =
      feed-append process lines (list_end ∷ []) c _ (feed-collects process lines c b m i p max fits)
      ∙ (feed_one process _ list_end
          ∙ (simp (i, m, e) (rw (reverse_onto-reverse_onto lines [] [], append-nil) refl)))

  -- From a client in a command list without lines that does not wait for events, lines that fit, none of
  -- them "noidle" or the end, and then the end of the list, run these lines in the order in which
  -- they were sent, with the numbers 0, 1, ... (an `unsigned`), up to the first one that does not return
  -- COMMAND_RETURN_OK or expires the client, with "list_OK" behind each of the others if that was asked for.
  -- If then a command asked to close the client, or it expired, the client is closed; otherwise
  -- "OK" is written if no command failed, the list is dropped, and list mode is over.
  pub list_in_order :
      (lines : List Bytes) (c : Client World) (b : Bool)
      → c.mode ≡ some b
      → c.idle_waiting ≡ false
      → c.cmd_list ≡ []
      → AllPlain lines
      → c.max_command_list_size < size_mod
      → c.cmd_list_size + total_size lines ≤ c.max_command_list_size
      → (ret : Return) × (c' : Client World) × Ran b 0 lines (with_list c lines) ret c'
        × Over ret c'
            (feed process c (lines ++ (list_end ∷ []))).0
            (feed process c (lines ++ (list_end ∷ []))).1
  unfolding process_command_list
  list_in_order lines c b m i e p max fits =
      let r = run_list process b lines 0 ok (with_list c lines) in
      (
        r.0,
        r.1,
        run_list-Ran b lines 0 (with_list c lines),
        subst (λ (t : Return × Client World). Over r.0 r.1 t.0 t.1)
            (sym (list_result lines c b m i e p max fits)) (leave_list-Over r.0 r.1),
      )
