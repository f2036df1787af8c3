-- ===== src/Client/Sizes.antt =====
-- src/client_process.c: what `cmd_list_size` counts from one command list to the next.

use mpd.Base.{
  ℕ, ◌+◌, ◌≤◌, ◌<◌, ◌≡◌, ◌≢◌, refl, sym, ap, ◌∙◌, Bool, true, false, ◌||◌, none, some, List, [],
  ◌∷◌, ◌++◌, ltb, arith, Bool-cases, if-true, if-false, inl, inr, add_size, size_mod, add_uint,
}
use mpd.Tokenizer.{Bytes}
use mpd.Client.{
  list_success, Client, Process, Return, ok, close, same, strlen, list_end, list_begin, run_list,
  process_command_list, finish, add_to_list, single_line, process_line, is_close, puts,
}
use mpd.Client.Feed.{
  IsPlain, AllPlain, total_size, feed, feed-ok, feed-append, feed-collects, feed_one,
}
use mpd.Client.Lists.{leave_list, with_list, list_result}

module _ {ℓ} {World : Type ℓ} (process : Process World) where
  -- No command touches the count of the sizes, or its limit.
  abbrev pub KeepsCount : Type ℓ
  KeepsCount =
      (c : Client World) (n : ℕ) (l : Bytes)
      → ((process c n l).1.cmd_list_size ≡ c.cmd_list_size)
        × ((process c n l).1.max_command_list_size ≡ c.max_command_list_size)

  -- The second client has the size and the limit of the first.
  abbrev SameCount : Client World → Client World → Type 0
  SameCount c c' =
      (c'.cmd_list_size ≡ c.cmd_list_size) × (c'.max_command_list_size ≡ c.max_command_list_size)

  run_list-keeps :
      KeepsCount
      → (b : Bool) (list : List Bytes) (n : ℕ) (ret : Return) (c : Client World)
      → SameCount c (run_list process b list n ret c).1
  unfolding run_list
  run_list-keeps keeps b [] n ret c = (refl, refl)
  run_list-keeps keeps true (l ∷ ls) n ret c =
      let (ret', c') = process c n l in
      ground (
        arith,
        keeps c n l,
        run_list-keeps keeps true ls (add_uint n 1) ret' (puts list_success c'),
      )
  run_list-keeps keeps false (l ∷ ls) n ret c =
      let (ret', c') = process c n l in
      ground (arith, keeps c n l, run_list-keeps keeps false ls (add_uint n 1) ret' c')

  leave_list-keeps : (ret : Return) (c : Client World) → SameCount c (leave_list process ret c).1
  unfolding finish
  leave_list-keeps ret c = ground arith

  leave_list-mode :
      (ret : Return) (c : Client World)
      → (leave_list process ret c).0 ≢ close
      → (leave_list process ret c).1.mode ≡ none
  leave_list-mode ret c stays = elim (Bool-cases (is_close ret || c.expired)) [
    | inl t ↦ absurd (stays (ap (λ (r : Return × Client World). r.0) (if-true _ _ t)))
    | inr f ↦ ap (λ (r : Return × Client World). r.1.mode) (if-false _ _ f)
  ]

  refuse_line :
      (c : Client World) (b : Bool) (line : Bytes)
      → c.mode ≡ some b
      → c.idle_waiting ≡ false
      → IsPlain line
      → c.max_command_list_size < c.cmd_list_size + (strlen line + 1)
      → c.cmd_list_size + (strlen line + 1) < size_mod
      → (process_line process c line).0 ≡ close
  unfolding process_line add_to_list
  refuse_line c b line m i p over small =
      let size : add_size c.cmd_list_size (add_size (strlen line) 1)
          ≡ c.cmd_list_size + (strlen line + 1) =
        omega arith in
      let full : ltb c.max_command_list_size (c.cmd_list_size + (strlen line + 1)) ≡ true =
        ground arith in
      simp (p.0, i, m, p.1, size, full)

  begin_line :
      (c : Client World)
      → c.mode ≡ none
      → c.idle_waiting ≡ false
      → process_line process c list_begin ≡ (ok, record c { mode = some false })
  unfolding process_line single_line same
  begin_line c m i = simp (i, m)

  -- In a list, lines that fit and then one that does not.
  refuse_list :
      (lines : List Bytes) (line : Bytes) (c : Client World) (b : Bool)
      → c.mode ≡ some b
      → c.idle_waiting ≡ false
      → AllPlain lines
      → IsPlain line
      → c.max_command_list_size < size_mod
      → c.cmd_list_size + total_size lines ≤ c.max_command_list_size
      → c.max_command_list_size < c.cmd_list_size + total_size lines + (strlen line + 1)
      → c.cmd_list_size + total_size lines + (strlen line + 1) < size_mod
      → (feed process c (lines ++ (line ∷ []))).0 ≡ close
  refuse_list lines line c b m i ps p max fits over small =
      ap (λ (r : Return × Client World). r.0)
        (feed-append process lines (line ∷ []) c _ (feed-collects process lines c b m i ps max fits)
          ∙ feed_one process _ line)
      ∙ refuse_line _ b line m i p over small

  -- Where no command touches the count, a list that fits and does not close the client leaves its size in
  -- the count: the limit is one on all the lists of a connection together. In the list that the line
  -- "command_list_begin" opens next, lines are taken as long as the sizes of both lists do not pass the
  -- limit, and the client is closed at the first line with which they do, as long as it does not wait for
  -- events, no line is "noidle" or the end of a list, and the sizes fit a `size_t`.
  pub sizes_accumulate :
      (first next : List Bytes) (line : Bytes) (c c' : Client World) (b : Bool) (ret : Return)
      → KeepsCount
      → c.mode ≡ some b
      → c.idle_waiting ≡ false
      → c.cmd_list ≡ []
      → AllPlain first
      → AllPlain next
      → IsPlain line
      → c.cmd_list_size + total_size first + total_size next ≤ c.max_command_list_size
      → c.max_command_list_size
        < c.cmd_list_size + total_size first + total_size next + (strlen line + 1)
      → c.cmd_list_size + total_size first + total_size next + (strlen line + 1) < size_mod
      → feed process c (first ++ (list_end ∷ [])) ≡ (ret, c')
      → ret ≢ close
      → c'.idle_waiting ≡ false
      → (c'.cmd_list_size ≡ c.cmd_list_size + total_size first)
        × ((feed process c' (list_begin ∷ next)).0 ≡ ok)
        × ((feed process c' (list_begin ∷ (next ++ (line ∷ [])))).0 ≡ close)
  unfolding process_command_list
  sizes_accumulate first next line c c' b ret keeps m i e ps qs p fits over small done stays idle =
      let c1 = with_list c first in
      let r = run_list process b first 0 ok c1 in
      let same_end : (ret, c') ≡ leave_list process r.0 r.1 =
        sym done ∙ list_result process first c b m i e ps (omega arith) (omega arith) in
      let ran = run_list-keeps keeps b first 0 ok c1 in
      let left = leave_list-keeps r.0 r.1 in
      let size : c'.cmd_list_size ≡ c.cmd_list_size + total_size first =
        ap (λ (r : Return × Client World). r.1.cmd_list_size) same_end ∙ left.0 ∙ ran.0 in
      let limit : c'.max_command_list_size ≡ c.max_command_list_size =
        ap (λ (r : Return × Client World). r.1.max_command_list_size) same_end ∙ left.1 ∙ ran.1 in
      let over_mode : c'.mode ≡ none =
        ap (λ (r : Return × Client World). r.1.mode) same_end
        ∙ leave_list-mode r.0 r.1
            (λ h. stays (ap (λ (r : Return × Client World). r.0) same_end ∙ h)) in
      let begun = begin_line c' over_mode idle in
      (
        size,
        ap (λ (r : Return × Client World). r.0)
            (feed-ok process c' _ list_begin next begun
              ∙ feed-collects process next _ false refl idle qs (omega arith) (omega arith)),
        ap (λ (r : Return × Client World). r.0)
              (feed-ok process c' _ list_begin (next ++ (line ∷ [])) begun)
            ∙ refuse_list next line (record c' { mode = some false }) false refl idle qs p
                (omega arith) (omega arith) (omega arith) (omega arith),
      )
