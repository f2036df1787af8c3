-- ===== src/Queue/Find.antt =====
-- src/queue.h: the search of `queue_position_to_order`.
use mpd.Base.{ℕ, zero, suc, ◌+◌, ◌<◌, ◌≤◌, ◌≡◌, ◌≢◌, some, inl, inr, ◌==◌, arith, Bool-cases}
use mpd.Base.Pigeonhole.{onto}
use mpd.Queue.{Queue, scan_order, position_to_order}
use mpd.Queue.Inv.{IsValid}

scan_order-finds :
    (q : Queue) (p left i o : ℕ)
    → i ≤ o
    → o < i + left
    → q.order o ≡ p
    → (r : ℕ) × (scan_order q p left i ≡ some r) × (r < i + left) × (q.order r ≡ p)
unfolding scan_order
scan_order-finds q p zero i o le lt e = absurd (omega arith)
scan_order-finds q p (suc left) i o le lt e = elim (Bool-cases (q.order i == p)) [
  | inl hit ↦ (i, ground arith, omega arith, ground arith)
  | inr miss ↦
      let ne : i ≢ o = λ same. ground arith in
      let (r, found, below, at) =
        scan_order-finds q p left (i + 1) o (omega arith) (omega arith) e in
      (r, ground arith, omega arith, at)
]

-- On a valid queue `queue_position_to_order` finds, for every position in use, an order number of the
-- queue that `order` maps to that position.
pub position_to_order-finds :
    {q : Queue}
    → IsValid q
    → (p : ℕ) → p < q.length
    → (o : ℕ) × (position_to_order q p ≡ some o) × (o < q.length) × (q.order o ≡ p)
unfolding position_to_order
position_to_order-finds {q} v p lt =
    let (o, lo, e) = onto q.length q.order v.permutes p lt in
    let (r, found, below, at) = scan_order-finds q p q.length 0 o (omega arith) (omega arith) e in
    (r, found, omega arith, at)
