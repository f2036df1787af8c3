-- ===== src/Queue/Ids.antt =====
-- src/queue.c: the search of `queue_generate_id`.
use mpd.Base.{
  ℕ, zero, suc, ◌+◌, ◌-◌, ◌<◌, ◌≡◌, ◌≢◌, inl, inr, Bool, true, false, Option, none, some, leb,
  if◌then◌else◌, arith, Option-cases,
}
use mpd.Base.Pigeonhole.{Injects, find_below, pigeonhole}
use mpd.Queue.{Queue, ids}
use mpd.Queue.Edit.{next_cur, search_id, generate_id}
use mpd.Queue.Inv.{IsValid}

abbrev or_zero : Option ℕ → ℕ
or_zero none = 0
or_zero (some p) = p

abbrev is_none : Option ℕ → Bool
is_none none = true
is_none (some p) = false

-- A queue that is not full has an id without a position.
free_id :
    {q : Queue}
    → IsValid q
    → q.length < q.max_length
    → (i : ℕ) × (i < ids q) × (q.id_to_position i ≡ none)
free_id {q} v room = elim (find_below (λ i. is_none (q.id_to_position i)) (ids q)) [
  | inl (i, lt, hit) ↦ (i, lt, ground arith)
  | inr used ↦
      absurd (
        omega (arith, pigeonhole q.length (ids q) (λ i. or_zero (q.id_to_position i)) (taken used)))
]
  where
    at :
        ((i : ℕ) → i < ids q → is_none (q.id_to_position i) ≡ false)
        → (i : ℕ) → i < ids q
        → q.id_to_position i ≡ some (or_zero (q.id_to_position i))
    at used i lt = ground (arith, used i lt)

    taken :
        ((i : ℕ) → i < ids q → is_none (q.id_to_position i) ≡ false)
        → Injects (ids q) q.length (λ i. or_zero (q.id_to_position i))
    taken used = record {
      below = λ i lt. v.position_lt i _ (at used i lt);
      injective =
          λ i j li lj e. ground (arith, v.id_of i _ (at used i li), v.id_of j _ (at used j lj));
    }

-- How many rounds bring the candidate `c` to the id `i`.
abbrev distance : Queue → ℕ → ℕ → ℕ
distance q i c = if leb c i then i - c else i + ids q - c

next_cur-lt : (q : Queue) (cur : ℕ) → 0 < ids q → next_cur q cur < ids q
unfolding next_cur
next_cur-lt q cur h = ground arith

distance-next_cur :
    {q : Queue}
    → IsValid q
    → (i c : ℕ) → i < ids q
    → c < ids q
    → c ≢ i
    → distance q i (next_cur q c) < distance q i c
unfolding next_cur
distance-next_cur v i c li lc ne = ground arith

-- What the search returns: an id in range that is free.
abbrev pub IsFree : Queue → ℕ → Type 0
IsFree q j = (j < ids q) × (q.id_to_position j ≡ none)

search_id-finds :
    {q : Queue}
    → IsValid q
    → (i : ℕ) → i < ids q
    → q.id_to_position i ≡ none
    → (fuel cur : ℕ) → distance q i (next_cur q cur) < fuel
    → (j : ℕ) × (search_id q fuel cur ≡ some j) × IsFree q j
unfolding search_id
search_id-finds v i lt e zero cur r = elim r [ ]
search_id-finds {q} v i lt e (suc fuel) cur r =
    elim (Option-cases (q.id_to_position (next_cur q cur))) [
      | inl free ↦ (next_cur q cur, ground arith, (next_cur-lt q cur (omega arith), free))
      | inr (p, used) ↦
          let closer : distance q i (next_cur q (next_cur q cur)) < distance q i (next_cur q cur) =
            distance-next_cur v i (next_cur q cur) lt (next_cur-lt q cur (omega arith))
              (λ same. ground arith) in
          let (j, found, free) = search_id-finds v i lt e fuel (next_cur q cur) (omega arith) in
          (j, ground arith, free)
    ]

-- On a valid queue with room the loop of `queue_generate_id` ends within as many rounds as there
-- are ids, whatever the static `cur` was left at, and returns an id in range that no song has.
pub generate_id-IsFree :
    {q : Queue}
    → IsValid q
    → q.length < q.max_length
    → (j : ℕ) × (generate_id q ≡ some j) × IsFree q j
unfolding generate_id
generate_id-IsFree {q} v room =
    let (i, lt, e) = free_id v room in
    search_id-finds v i lt e (ids q) q.cur (ground (arith, next_cur-lt q q.cur))
