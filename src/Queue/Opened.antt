-- ===== src/Queue/Opened.antt =====
-- src/queue.c: the loops of `queue_move` and `queue_move_range` together.
use mpd.Base.{
  ℕ, ◌+◌, ◌-◌, ◌^◌, ◌<◌, ◌≤◌, ◌≡◌, refl, none, some, true, ◌⊎◌, inl, inr, ltb, leb, if◌then◌else◌,
  for_up, for_down, arith, Option-cases, Bool-cases,
}
use mpd.Queue.{Queue, get}
use mpd.Queue.Edit.{moved_range, move_song_to, map_order}
use mpd.Queue.Inv.{HasIds}
use mpd.Queue.Shift.{MovedDown, MovedUp, move_down, move_up, move_range_down, move_range_up}
use mpd.Queue.Place.{Placed}
use mpd.Queue.Relocate.{Relocated, Moved, order_loop}

-- The two loops before the block is put back: at most one of them runs.
pub record Opened (q0 : Queue) (start w to : ℕ) (q : Queue) : Type 0 where
  pub rest : q ≡ record q0 { items = q.items; id_to_position = q.id_to_position }
  pub song_at :
      (p : ℕ)
      → p < q0.length
      → (ltb p to ≡ true) ⊎ (leb (to + w) p ≡ true)
      → ((q.items p).song ≡ (q0.items (moved_range to (to + w) start p)).song)
        × ((q.items p).id ≡ (q0.items (moved_range to (to + w) start p)).id)
  pub position :
      (i r : ℕ)
      → q0.id_to_position i ≡ some r
      → (ltb r start ≡ true) ⊎ (leb (start + w) r ≡ true)
      → q.id_to_position i ≡ some (moved_range start (start + w) to r)
  pub unplaced : (i : ℕ) → q0.id_to_position i ≡ none → q.id_to_position i ≡ none

down-Opened :
    {q0 : Queue} (start w to : ℕ) (q : Queue)
    → start ≤ to
    → 0 < w
    → MovedDown q0 w start to q
    → Opened q0 start w to q
unfolding moved_range
down-Opened start w to q le pos m = record {
  rest = m.rest;
  song_at = λ p lt o. (ground (arith, m.item_at p), ground (arith, m.item_at p));
  position = λ i r e o. ground (arith, m.position i);
  unplaced = λ i e. ground (arith, m.position i);
}

up-Opened :
    {q0 : Queue} (start w to : ℕ) (q : Queue)
    → to ≤ start
    → 0 < w
    → MovedUp q0 w to start q
    → Opened q0 start w to q
unfolding moved_range
up-Opened start w to q le pos m = record {
  rest = m.rest;
  song_at = λ p lt o. (ground (arith, m.item_at p), ground (arith, m.item_at p));
  position = λ i r e o. ground (arith, m.position i);
  unplaced = λ i e. ground (arith, m.position i);
}

-- With the block put back the songs are relocated.
pub Placed-Relocated :
    {q0 q2 : Queue} (start w to : ℕ) (q : Queue)
    → q0.length < 2 ^ 31
    → HasIds q0
    → 0 < w
    → start + w ≤ q0.length
    → to + w ≤ q0.length
    → Opened q0 start w to q2
    → Placed q0 q2 start to (start + w) q
    → Relocated (moved_range start (start + w) to) (moved_range to (to + w) start) q0 q
unfolding moved_range get
Placed-Relocated {q0} {q2} start w to q small h pos fits room o m = record {
  rest = ground (arith, o.rest, m.rest);
  song_at = λ p lt. ground (arith, m.item_at p, o.song_at p lt);
  id_at = λ p lt. ground (arith, m.item_at p, o.song_at p lt);
  position = λ i. elim (Option-cases (q0.id_to_position i)) [
    | inl e ↦ ground (arith, m.position i, o.unplaced i e)
    | inr (r, e) ↦ ground (arith, m.position i, o.position i r e, h.position_lt i r e)
  ];
}

-- The order loop, which runs in random mode only.
abbrev pub reorder : (ℕ → ℕ) → Queue → Queue
reorder f q = if q.random then for_up q.length 0 (map_order f) q else q

pub reorder-Moved :
    {f g : ℕ → ℕ} {q0 q : Queue}
    → Relocated f g q0 q
    → ((o : ℕ) → q.order o ≡ q0.order o)
    → Moved f g q0 (reorder f q)
unfolding get
reorder-Moved {f} {g} {q0} {q} r same = elim (Bool-cases q.random) [
  | inl e ↦ simp e (
      let m = order_loop f q in
      record {
        relocated = record {
          rest = ground (arith, m.rest, r.rest);
          song_at = λ p lt. ground (arith, m.rest, r.song_at p);
          id_at = λ p lt. ground (arith, m.rest, r.id_at p);
          position = λ i. ground (arith, m.rest, r.position i);
        };
        order_kept = λ e' o. ground (arith, r.rest);
        order_moved = λ e' o lt. ground (arith, r.rest, m.order_at o, same o);
      })
  | inr e ↦ simp e (record {
    relocated = r;
    order_kept = λ e' o. same o;
    order_moved = λ e' o lt. ground (arith, r.rest);
  })
]

-- The first two loops of `queue_move_range`, the block ending before `start + w`.
pub range_loops :
    {q : Queue}
    → HasIds q
    → (start w to : ℕ) → 0 < w
    → start + w ≤ q.length
    → to + w ≤ q.length
    → Opened q start w to (
        for_down
          (start - to)
          (start - 1)
          (λ i s. move_song_to s i (i + (start + w) - start))
          (for_up (to - start) (start + w) (λ i s. move_song_to s i (start + i - (start + w))) q))
unfolding for_up for_down
range_loops {q} h start w to pos fits room = elim (Bool-cases (leb start to)) [
  | inl e ↦
      let none_up : start - to ≡ 0 = ground arith in
      let stop : start + (to - start) ≡ to = ground arith in
      rw none_up (
        down-Opened start w to _ (ground arith) pos
          (rw stop at (move_range_down h w pos start (to - start) (ground arith))))
  | inr e ↦
      let none_down : to - start ≡ 0 = ground arith in
      let top : to + (start - to) ≡ start = ground arith in
      rw none_down (
        up-Opened start w to _ (ground arith) pos
          (rw top at (move_range_up h w pos to (start - to) (ground arith))))
]

-- The first two loops of `queue_move`.
pub move_loops :
    {q : Queue}
    → HasIds q
    → (from to : ℕ) → from < q.length
    → to < q.length
    → Opened q from 1 to (
        for_down
          (from - to)
          from
          (λ i s. move_song_to s (i - 1) i)
          (for_up (to - from) from (λ i s. move_song_to s (i + 1) i) q))
unfolding for_up for_down
move_loops {q} h from to fits room = elim (Bool-cases (leb from to)) [
  | inl e ↦
      let none_up : from - to ≡ 0 = ground arith in
      let stop : from + (to - from) ≡ to = ground arith in
      rw none_up (
        down-Opened from 1 to _ (ground arith) (omega arith)
          (rw stop at (move_down h 1 (omega arith) from (to - from) (ground arith))))
  | inr e ↦
      let none_down : to - from ≡ 0 = ground arith in
      let top : to + (from - to) ≡ from = ground arith in
      rw none_down (
        up-Opened from 1 to _ (ground arith) (omega arith)
          (rw top at (move_up h 1 (omega arith) to (from - to) refl (ground arith))))
]

-- `order` is as it was.
pub Placed-order :
    {q0 q2 : Queue} (start w to : ℕ) (q : Queue)
    → Opened q0 start w to q2
    → Placed q0 q2 start to (start + w) q
    → (o : ℕ) → q.order o ≡ q0.order o
Placed-order start w to q op m o = ground (arith, m.rest, op.rest)
