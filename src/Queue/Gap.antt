-- ===== src/Queue/Gap.antt =====
-- src/queue.c: the three loops of `queue_delete`.
use mpd.Base.{
  ℕ, suc, ◌+◌, ◌-◌, ◌<◌, ◌≤◌, ◌≡◌, refl, none, some, ltb, leb, ◌&&◌, if◌then◌else◌, for_up,
  for_up_inv, arith, update,
}
use mpd.Queue.{Queue}
use mpd.Queue.Edit.{move_song_to, map_order, close_gap}
use mpd.Queue.Shift.{MovedDown, Points, shift_down}
use mpd.Queue.Relocate.{Reordered, order_loop}

-- `order` from `o` on has moved down by one, up to `stop`.
record OrderClosed (q0 : Queue) (start stop : ℕ) (q : Queue) : Type 0 where
  rest : q ≡ record q0 { order = q.order }
  order_at :
      (o : ℕ) → q.order o ≡ (if leb start o && ltb o stop then q0.order (o + 1) else q0.order o)

order_closed :
    (q : Queue) (start rounds : ℕ)
    → OrderClosed q start
        (start + rounds)
        (for_up rounds start (λ i s. record s { order = update s.order i (s.order (i + 1)) }) q)
order_closed q start rounds =
    (for_up_inv (λ i s. (start ≤ i) × OrderClosed q start i s) _ (start + rounds) step rounds start
      q refl (omega arith, record { rest = refl; order_at = λ o. ground arith })).1
  where
    step :
        (i : ℕ) (s : Queue)
        → suc i ≤ start + rounds
        → (start ≤ i) × OrderClosed q start i s
        → (start ≤ suc i)
          × OrderClosed q start (suc i) (record s { order = update s.order i (s.order (i + 1)) })
    step i s lt m = (
      omega (arith, m.0),
      record {
        rest = ground (arith, m.1.rest);
        order_at = λ o. ground (arith, m.0, m.1.order_at o, m.1.order_at (i + 1));
      },
    )

-- A position or an order number, once the one at `gone` is deleted.
abbrev pub lowered : ℕ → ℕ → ℕ
lowered gone p = if ltb gone p then p - 1 else p

-- The one that comes to stand at `p`.
abbrev pub raised : ℕ → ℕ → ℕ
raised gone p = if ltb p gone then p else p + 1

-- What `close_gap` does to the queue `q0`, whose length is the new one.
pub record GapClosed (q0 : Queue) (position order : ℕ) (q : Queue) : Type 0 where
  pub rest : q ≡ record q0 { items = q.items; id_to_position = q.id_to_position; order = q.order }
  pub song_at : (p : ℕ) → p < q0.length → (q.items p).song ≡ (q0.items (raised position p)).song
  pub id_at : (p : ℕ) → p < q0.length → (q.items p).id ≡ (q0.items (raised position p)).id
  pub to_position :
      (i r : ℕ)
      → r ≤ q0.length
      → q0.id_to_position i ≡ some r
      → q.id_to_position i ≡ some (lowered position r)
  pub unplaced : (i : ℕ) → q0.id_to_position i ≡ none → q.id_to_position i ≡ none
  pub order_at : (o : ℕ) → o < q0.length → q.order o ≡ lowered position (q0.order (raised order o))

module _ {q0 : Queue} (position order : ℕ) (points : Points q0 (position + 1) (q0.length + 1))
    (lp : position ≤ q0.length) (lo : order ≤ q0.length) where
  pub close_gap-GapClosed : GapClosed q0 position order (close_gap q0 position order)
  unfolding close_gap
  close_gap-GapClosed = record {
    rest = ground (arith, m1.rest, same_length, m2.rest, m3.rest);
    song_at = λ p lt. ground (arith, m1.item_at p, m2.rest, m3.rest);
    id_at = λ p lt. ground (arith, m1.item_at p, m2.rest, m3.rest);
    to_position = λ i r le e. ground (arith, m1.position i, m2.rest, m3.rest);
    unplaced = λ i e. ground (arith, m1.position i, m2.rest, m3.rest);
    order_at = λ o lt. ground (arith, m1.rest, m2.rest, m2.order_at o, m3.order_at o);
  }
    where
      e1 : position + (q0.length - position) ≡ q0.length
      e1 = omega arith

      q1 : Queue
      q1 = for_up (q0.length - position) position (λ i s. move_song_to s (i + 1) i) q0

      m1 : MovedDown q0 1 position q0.length q1
      m1 = rw e1 at (
          shift_down points 1 (omega arith) position (q0.length - position) (omega arith)
            (omega arith))

      same_length : q1.length ≡ q0.length
      same_length = ground (arith, m1.rest)

      q2 : Queue
      q2 =
          for_up (q1.length - order) order
            (λ i s. record s { order = update s.order i (s.order (i + 1)) }) q1

      e2 : order + (q1.length - order) ≡ q0.length
      e2 = omega (arith, same_length)

      m2 : OrderClosed q1 order q0.length q2
      m2 = rw e2 at (order_closed q1 order (q1.length - order))

      m3 :
          Reordered
            (lowered position)
            q2
            q2.length
            (for_up q2.length 0 (map_order (lowered position)) q2)
      m3 = order_loop (lowered position) q2
