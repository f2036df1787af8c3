-- ===== src/Commands/Lookup.antt =====
-- src/command.c: the binary search of `command_lookup` beside a search from one end to the other.
use mathlib.Core.Path.{subst}
use mpd.Base.{
  ℕ, zero, suc, ◌+◌, ◌/◌, ◌≤◌, ◌<◌, Bool, true, false, ◌≡◌, ◌≢◌, refl, sym, ap, ◌∙◌, Option, none,
  some, List, [], ◌∷◌, ltb, ◌==◌, if◌then◌else◌, length, arith, inl, inr, Bool-cases, if-true,
  if-false, ◌&&◌,
}
use mpd.Tokenizer.{Bytes}
use mpd.Client.{same}
use mpd.Commands.{Sign, less, equal, greater, strcmp, Command, lookup_loop, command_lookup}
use mpd.Commands.Table.{row, commands}
use mpd.Commands.Order.{
  Less, Less-trans, Less-irrefl, strcmp-cases, strcmp-Less, same-true, same-equal,
}

-- The first row of a table with a name.
unfoldable pub find : List Command → Bytes → Option Command
unfolding same
find [] name = none
find (c ∷ cs) name = if same c.cmd name then some c else find cs name

-- What `command_init` asserts of the first `n` commands.
pub record IsSorted (cs : ℕ → Command) (n : ℕ) : Type 0 where
  pub step : (i : ℕ) → suc i < n → strcmp (cs i).cmd (cs (suc i)).cmd ≡ less

sorted-Less :
    (cs : ℕ → Command) (n i j : ℕ) → IsSorted cs n → i < j → j < n → Less (cs i).cmd (cs j).cmd
sorted-Less cs n i zero s lt below = absurd (omega arith)
sorted-Less cs n i (suc j) s lt below =
    let last = strcmp-Less _ _ (s.step j below) in
    elim (Bool-cases (i == j)) [
      | inl e ↦ subst (λ k. Less (cs k).cmd (cs (suc j)).cmd) (ground (arith, e)) last
      | inr n' ↦ Less-trans _ _ _ (sorted-Less cs n i j s (ground (arith, n')) (omega arith)) last
    ]

-- What a search among the first `n` commands answers.
data Found (cs : ℕ → Command) (n : ℕ) (name : Bytes) (r : Option Command) : Type 0 where
  there : (i : ℕ) → i < n → (cs i).cmd ≡ name → r ≡ some (cs i) → Found cs n name r
  nowhere : ((i : ℕ) → i < n → (cs i).cmd ≢ name) → r ≡ none → Found cs n name r

-- no command between 0 and `a` or between `b` and `n` has the name
record IsAround (cs : ℕ → Command) (n : ℕ) (name : Bytes) (a b : ℕ) : Type 0 where
  low : (i : ℕ) → i < a → (cs i).cmd ≢ name
  high : (i : ℕ) → b ≤ i → i < n → (cs i).cmd ≢ name

not_from :
    (cs : ℕ → Command) (n k : ℕ) (name : Bytes)
    → IsSorted cs n
    → Less name (cs k).cmd
    → (i : ℕ) → k ≤ i
    → i < n
    → (cs i).cmd ≢ name
not_from cs n k name s l i le lt e = elim (Bool-cases (k == i)) [
  | inl k_is ↦
      Less-irrefl name
        (subst (λ t. Less name t) (ap (λ j. (cs j).cmd) (ground (arith, k_is)) ∙ e) l)
  | inr k_not ↦ Less-irrefl name (
      subst (λ t. Less name t) e
        (Less-trans _ _ _ l (sorted-Less cs n k i s (ground (arith, k_not)) lt)))
]

not_until :
    (cs : ℕ → Command) (n k : ℕ) (name : Bytes)
    → IsSorted cs n
    → k < n
    → Less (cs k).cmd name
    → (i : ℕ) → i < suc k
    → (cs i).cmd ≢ name
not_until cs n k name s lt l i le e = elim (Bool-cases (k == i)) [
  | inl k_is ↦
      Less-irrefl name
        (subst (λ t. Less t name) (ap (λ j. (cs j).cmd) (ground (arith, k_is)) ∙ e) l)
  | inr k_not ↦ Less-irrefl name (
      subst (λ t. Less t name) e
        (Less-trans _ _ _ (sorted-Less cs n i k s (ground (arith, k_not)) lt) l))
]

empty-Found :
    (cs : ℕ → Command) (n : ℕ) (name : Bytes) (a b : ℕ)
    → IsAround cs n name a b
    → b ≤ a
    → Found cs n name none
empty-Found cs n name a b h le =
    nowhere
      (λ i lt. elim (Bool-cases (ltb i a)) [
        | inl l ↦ h.low i (ground (arith, l))
        | inr g ↦ h.high i (ground (arith, g)) lt
      ])
      refl

lookup_loop-Found :
    (cs : ℕ → Command) (n : ℕ) (name : Bytes) (rounds a b : ℕ)
    → IsSorted cs n
    → IsAround cs n name a b
    → a < b
    → b ≤ n
    → b ≤ a + rounds
    → Found cs n name (lookup_loop cs name rounds a b)
unfolding lookup_loop
lookup_loop-Found cs n name zero a b s h lt le enough = absurd (omega arith)
lookup_loop-Found cs n name (suc rounds) a b s h lt le enough =
    let i = (a + b) / 2 in
    let i_ge : a ≤ i = omega arith in
    let i_lt : i < b = omega arith in
    elim (strcmp-cases name (cs i).cmd) [
      | inr (inl (e, is)) ↦ rw (e, lookup_loop) (there i (omega (arith, i_lt)) (sym is) refl)
      | inl (e, l) ↦
          let h' : IsAround cs n name a i = record {
            low = h.low;
            high = not_from cs n i name s l;
          } in
          rw (e, lookup_loop)
            (elim (Bool-cases (ltb a i)) [
              | inl more ↦ subst (Found cs n name) (sym (if-true _ _ more)) (
                  lookup_loop-Found cs n name rounds a i s h' (ground (arith, more))
                    (omega (arith, i_lt)) (omega (arith, i_lt)))
              | inr end ↦
                  subst (Found cs n name) (sym (if-false _ _ end))
                    (empty-Found cs n name a i h' (ground (arith, end)))
            ])
      | inr (inr (e, g)) ↦
          let h' : IsAround cs n name (i + 1) b = record {
            low = λ j l. not_until cs n i name s (omega (arith, i_lt)) g j (omega arith);
            high = h.high;
          } in
          rw (e, lookup_loop)
            (elim (Bool-cases (ltb (i + 1) b)) [
              | inl more ↦ subst (Found cs n name) (sym (if-true _ _ more)) (
                  lookup_loop-Found cs n name rounds (i + 1) b s h' (ground (arith, more)) le
                    (omega (arith, i_ge)))
              | inr end ↦
                  subst (Found cs n name) (sym (if-false _ _ end))
                    (empty-Found cs n name (i + 1) b h' (ground (arith, end)))
            ])
    ]

tail-IsSorted :
    (c : Command) (cs : List Command)
    → IsSorted (row (c ∷ cs)) (suc (length cs))
    → IsSorted (row cs) (length cs)
unfolding row
tail-IsSorted c cs s = record { step = λ i lt. s.step (suc i) (omega arith) }

find-there :
    (cs : List Command) (name : Bytes) (i : ℕ)
    → IsSorted (row cs) (length cs)
    → i < length cs
    → (row cs i).cmd ≡ name
    → find cs name ≡ some (row cs i)
unfolding find row
find-there [] name i s lt e = absurd (omega arith)
find-there (c ∷ cs) name zero s lt e = if-true _ _ (same-true c.cmd name e)
find-there (c ∷ cs) name (suc i) s lt e = elim (Bool-cases (same c.cmd name)) [
  | inl is ↦ absurd (
      Less-irrefl name (
        subst (λ t. Less t name) (same-equal c.cmd name is)
          (subst (λ t. Less c.cmd t) e
            (sorted-Less (row (c ∷ cs)) (suc (length cs)) 0 (suc i) s (omega arith) lt))))
  | inr n ↦ if-false _ _ n ∙ find-there cs name i (tail-IsSorted c cs s) (omega arith) e
]

find-nowhere :
    (cs : List Command) (name : Bytes)
    → ((i : ℕ) → i < length cs → (row cs i).cmd ≢ name)
    → find cs name ≡ none
unfolding find row
find-nowhere [] name miss = refl
find-nowhere (c ∷ cs) name miss = elim (Bool-cases (same c.cmd name)) [
  | inl is ↦ absurd (miss 0 (omega arith) (same-equal c.cmd name is))
  | inr n ↦ if-false _ _ n ∙ find-nowhere cs name (λ i lt. miss (suc i) (omega arith))
]

Found-find :
    (cs : List Command) (name : Bytes) (r : Option Command)
    → IsSorted (row cs) (length cs)
    → Found (row cs) (length cs) name r
    → r ≡ find cs name
Found-find cs name r s (there i lt e is) = is ∙ sym (find-there cs name i s lt e)
Found-find cs name r s (nowhere miss is) = is ∙ sym (find-nowhere cs name miss)

-- In every table that is not empty and in the order that `command_init` asserts, the binary search finds
-- the first command of the name, or nothing when no command has it.
pub command_lookup-find :
    (cs : List Command) (name : Bytes)
    → IsSorted (row cs) (length cs)
    → 0 < length cs
    → command_lookup (row cs) (length cs) name ≡ find cs name
unfolding command_lookup
command_lookup-find cs name s pos = Found-find cs name _ s (
    lookup_loop-Found (row cs) (length cs) name (suc (length cs)) 0 (length cs) s
      (record { low = λ i lt. absurd (omega arith); high = λ i le lt. absurd (omega arith) }) pos
      (omega arith) (omega arith))

unfoldable is_less : Sign → Bool
is_less less = true
is_less equal = false
is_less greater = false

-- the loop of `command_init`
unfoldable check_sorted : List Command → Bool
check_sorted [] = true
check_sorted (c ∷ []) = true
check_sorted (c ∷ (d ∷ cs)) = is_less (strcmp c.cmd d.cmd) && check_sorted (d ∷ cs)

is_less-less : (s : Sign) → is_less s ≡ true → s ≡ less
unfolding is_less
is_less-less less e = refl
is_less-less equal e = absurd (ground (arith, e))
is_less-less greater e = absurd (ground (arith, e))

check_sorted-step :
    (cs : List Command) (i : ℕ)
    → check_sorted cs ≡ true
    → suc i < length cs
    → strcmp (row cs i).cmd (row cs (suc i)).cmd ≡ less
unfolding check_sorted row
check_sorted-step [] i e lt = absurd (omega arith)
check_sorted-step (c ∷ []) i e lt = absurd (omega arith)
check_sorted-step (c ∷ (d ∷ cs)) zero e lt = is_less-less _ (ground (arith, e))
check_sorted-step (c ∷ (d ∷ cs)) (suc i) e lt =
    check_sorted-step (d ∷ cs) i (ground (arith, e)) (omega arith)

commands-check_sorted : (sqlite : Bool) → check_sorted (commands sqlite) ≡ true
unfolding commands check_sorted is_less strcmp
commands-check_sorted false = refl
commands-check_sorted true = refl

commands-pos : (sqlite : Bool) → 0 < length (commands sqlite)
unfolding commands
commands-pos false = omega arith
commands-pos true = omega arith

-- In the table of the commands, with and without the one for stickers, `command_lookup` finds the
-- first command of the name, and nothing when no command has it.
pub commands-lookup :
    (sqlite : Bool) (name : Bytes)
    → command_lookup (row (commands sqlite)) (length (commands sqlite)) name
      ≡ find (commands sqlite) name
commands-lookup sqlite name =
    command_lookup-find (commands sqlite) name
      (record {
        step = λ i lt. check_sorted-step (commands sqlite) i (commands-check_sorted sqlite) lt;
      })
      (commands-pos sqlite)
