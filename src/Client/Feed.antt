-- ===== src/Client/Feed.antt =====
-- src/client_process.c: the lines of a client one after another, and the lines that go into a list.

use mpd.Base.{
  ℕ, ◌+◌, ◌≤◌, ◌<◌, ◌≡◌, refl, ap, ◌∙◌, Bool, true, false, some, List, [], ◌∷◌, ◌++◌, ltb, arith,
  Bool-cases, inl, inr, add_size, size_mod,
}
use mpd.Tokenizer.{Bytes}
use mpd.Client.{
  Client, Process, Return, error, ok, kill, close, same, strlen, bytes, list_end, reverse_onto,
  add_to_list, process_line, is_ok,
}

-- A line that is taken into a list.
abbrev pub IsPlain : Bytes → Type 0
IsPlain line = (same line (bytes "noidle") ≡ false) × (same line list_end ≡ false)

abbrev pub AllPlain : List Bytes → Type 0
AllPlain [] = Unit {0}
AllPlain (l ∷ ls) = IsPlain l × AllPlain ls

-- What the lines take, each with its terminating NUL.
abbrev pub total_size : List Bytes → ℕ
total_size [] = 0
total_size (l ∷ ls) = (strlen l + 1) + total_size ls

pub reverse_onto-reverse_onto :
    (xs ys zs : List Bytes) → reverse_onto (reverse_onto xs ys) zs ≡ reverse_onto ys (xs ++ zs)
unfolding reverse_onto
reverse_onto-reverse_onto [] ys zs = refl
reverse_onto-reverse_onto (x ∷ xs) ys zs = reverse_onto-reverse_onto xs (x ∷ ys) zs

module _ {ℓ} {World : Type ℓ} (process : Process World) where
  -- The lines of a client one after another, as long as they are answered with COMMAND_RETURN_OK.
  unfoldable pub feed : Client World → List Bytes → Return × Client World
  feed c [] = (ok, c)
  feed c (l ∷ ls) =
      let (ret, c') = process_line process c l in
      elim (is_ok ret) [ true ↦ feed c' ls | false ↦ (ret, c') ]

  pub take_line :
      (c : Client World) (b : Bool) (line : Bytes)
      → c.mode ≡ some b
      → c.idle_waiting ≡ false
      → IsPlain line
      → c.max_command_list_size < size_mod
      → c.cmd_list_size + (strlen line + 1) ≤ c.max_command_list_size
      → process_line process c line ≡ (
        ok,
        record c {
          cmd_list = line ∷ c.cmd_list;
          cmd_list_size = c.cmd_list_size + (strlen line + 1);
        },
      )
  unfolding process_line add_to_list
  take_line c b line m i p max fits =
      let size : add_size c.cmd_list_size (add_size (strlen line) 1)
          ≡ c.cmd_list_size + (strlen line + 1) =
        omega arith in
      let room : ltb c.max_command_list_size (c.cmd_list_size + (strlen line + 1)) ≡ false =
        ground arith in
      simp (p.0, i, m, p.1, size, room)

  pub feed-ok :
      (c c' : Client World) (l : Bytes) (ls : List Bytes)
      → process_line process c l ≡ (ok, c')
      → feed c (l ∷ ls) ≡ feed c' ls
  unfolding feed
  feed-ok c c' l ls e =
      ap
        (λ (r : Return × Client World). elim (is_ok r.0) [
          | true ↦ feed r.1 ls
          | false ↦ (r.0, r.1)
        ])
        e

  pub feed-append :
      (xs ys : List Bytes) (c c' : Client World)
      → feed c xs ≡ (ok, c')
      → feed c (xs ++ ys) ≡ feed c' ys
  unfolding feed
  feed-append [] ys c c' e = ap (λ t. feed t ys) (ap (λ (r : Return × Client World). r.1) e)
  feed-append (x ∷ xs) ys c c' e = elim (Bool-cases (is_ok (process_line process c x).0)) [
    | inl good ↦
        rw (good, feed) (feed-append xs ys (process_line process c x).1 c' (rw (good, feed) at e))
    | inr bad ↦ absurd (cc (ap (λ (r : Return × Client World). is_ok r.0) (rw (bad, feed) at e)))
  ]

  -- In a command list, lines that fit are kept, the last one first, and nothing else happens.
  pub feed-collects :
      (lines : List Bytes) (c : Client World) (b : Bool)
      → c.mode ≡ some b
      → c.idle_waiting ≡ false
      → AllPlain lines
      → c.max_command_list_size < size_mod
      → c.cmd_list_size + total_size lines ≤ c.max_command_list_size
      → feed c lines ≡ (
        ok,
        record c {
          cmd_list = reverse_onto lines c.cmd_list;
          cmd_list_size = c.cmd_list_size + total_size lines;
        },
      )
  unfolding feed reverse_onto
  feed-collects [] c b m i p max fits = ap (λ n. (ok, record c { cmd_list_size = n })) (omega arith)
  feed-collects (l ∷ ls) c b m i p max fits =
      feed-ok c _ l ls (take_line c b l m i p.0 max (omega arith))
      ∙ (feed-collects ls _ b m i p.1 max (omega arith)
          ∙ ap
              (λ n.
                (ok, record c { cmd_list = reverse_onto ls (l ∷ c.cmd_list); cmd_list_size = n }))
              (omega arith))

  last_result :
      (r : Return × Client World) → (elim (is_ok r.0) [ true ↦ (ok, r.1) | false ↦ (r.0, r.1) ]) ≡ r
  last_result (ok, c) = refl
  last_result (error, c) = refl
  last_result (kill, c) = refl
  last_result (close, c) = refl

  pub feed_one : (c : Client World) (x : Bytes) → feed c (x ∷ []) ≡ process_line process c x
  unfolding feed
  feed_one c x = last_result (process_line process c x)
