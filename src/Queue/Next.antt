-- ===== src/Queue/Next.antt =====
-- src/queue.c: `queue_next_order`, the order in which songs are played.
use mpd.Base.{
  ℕ, ◌+◌, ◌%◌, ◌<◌, ◌≡◌, ◌↔◌, none, some, true, false, arith, ltb, if◌then◌else◌, Bool-cases, inl,
  inr,
}
use native.Mathlib.Nat.{mod-eq_of_lt}
use mpd.Queue.{Queue, next_order}

-- For an order number of the queue, the number that `queue_next_order` returns is one of the queue, so that no song is looked up
-- outside it.
pub next_order-lt :
    (q : Queue) (order next : ℕ)
    → order < q.length
    → next_order q order ≡ some next
    → next < q.length
unfolding next_order
next_order-lt q order next lt e = ground arith

-- Without "repeat", from an order number of the queue, the songs are played one after another, and playback ends behind the last one and
-- only there, whatever the other modes.
pub next_order-once :
    (q : Queue) (order : ℕ)
    → order < q.length
    → q.repeat_mode ≡ false
    → ((order + 1 < q.length) → next_order q order ≡ some (order + 1))
      × ((next_order q order ≡ none) ↔ (order + 1 ≡ q.length))
unfolding next_order
next_order-once q order lt r = (λ h. ground arith, (λ e. ground arith, λ e. ground arith))

next_mod : (o n : ℕ) → o < n → (o + 1) % n ≡ (if ltb (o + 1) n then o + 1 else 0)
next_mod o n lt = elim (Bool-cases (ltb (o + 1) n)) [
  | inl e ↦ rw e (mod-eq_of_lt (ground arith))
  | inr e ↦ let last : o + 1 ≡ n = ground arith in rw (e, last) (grind arith)
]

-- With "repeat", and neither "single" nor "consume", playback goes round the queue for ever.
pub next_order-cycle :
    (q : Queue) (order : ℕ)
    → order < q.length
    → q.repeat_mode ≡ true
    → q.single ≡ false
    → q.consume ≡ false
    → next_order q order ≡ some ((order + 1) % q.length)
unfolding next_order
next_order-cycle q order lt r s c = ground (arith, next_mod order q.length lt)

-- With "repeat" playback ends only on a queue of one song that is consumed.
pub next_order-none :
    (q : Queue) (order : ℕ)
    → order < q.length
    → q.repeat_mode ≡ true
    → (next_order q order ≡ none) ↔ ((q.length ≡ 1) × (q.consume ≡ true))
unfolding next_order
next_order-none q order lt r = ground arith
