-- ===== src/Queue/Shift.antt =====
-- src/queue.c: the loops of `queue_move`, `queue_move_range` and `queue_delete` that move songs by a
-- fixed distance, described by the queue before the loop.
use mpd.Base.{
  ℕ, suc, ◌+◌, ◌-◌, ◌<◌, ◌≤◌, ◌≡◌, refl, Option, none, some, ◌&&◌, ltb, leb, if◌then◌else◌, for_up,
  for_down, for_up_inv, for_down_inv, arith,
}
use mpd.Queue.{Queue, Item}
use mpd.Queue.Edit.{move_song_to}
use mpd.Queue.Inv.{HasIds}

abbrev pub map_position : (ℕ → ℕ) → Option ℕ → Option ℕ
map_position f none = none
map_position f (some p) = some (f p)

-- the item with the queue's version
abbrev pub touch : Queue → Item → Item
touch q item = record item { version = q.version }

-- Only these two arrays differ.
abbrev pub SameRest : Queue → Queue → Type 0
SameRest q0 q = q ≡ record q0 { items = q.items; id_to_position = q.id_to_position }

-- The songs from `start + w` up to `stop + w` have moved down by `w`.
pub record MovedDown (q0 : Queue) (w start stop : ℕ) (q : Queue) : Type 0 where
  pub rest : SameRest q0 q
  pub item_at :
      (p : ℕ)
      → q.items p ≡ (if leb start p && ltb p stop then touch q0 (q0.items (p + w)) else q0.items p)
  pub position :
      (i : ℕ)
      → q.id_to_position i
        ≡ map_position
            (λ p. if leb (start + w) p && ltb p (stop + w) then p - w else p)
            (q0.id_to_position i)

-- The songs from `low` up to `start` have moved up by `w`.
pub record MovedUp (q0 : Queue) (w low start : ℕ) (q : Queue) : Type 0 where
  pub rest : SameRest q0 q
  pub item_at :
      (p : ℕ)
      → q.items p
        ≡ (if leb (low + w) p && ltb p (start + w) then touch q0 (q0.items (p - w)) else q0.items p)
  pub position :
      (i : ℕ)
      → q.id_to_position i
        ≡ map_position (λ p. if leb low p && ltb p start then p + w else p) (q0.id_to_position i)

-- The ids and the positions from `lo` up to `hi` correspond.
pub record Points (q : Queue) (lo hi : ℕ) : Type 0 where
  pub id_at : (p : ℕ) → lo ≤ p → p < hi → q.id_to_position (q.items p).id ≡ some p
  pub id_of : (i p : ℕ) → q.id_to_position i ≡ some p → (q.items p).id ≡ i

HasIds-Points : {q : Queue} → HasIds q → Points q 0 q.length
HasIds-Points h = record { id_at = λ p _ lt. h.id_at p lt; id_of = h.id_of }

module _ {q0 : Queue} {lo hi : ℕ} (h : Points q0 lo hi) (w : ℕ) (w_pos : 0 < w) where
  MovedDown-refl : (start : ℕ) → MovedDown q0 w start start q0
  MovedDown-refl start = record {
    rest = refl;
    item_at = λ p. ground arith;
    position = λ i. ground arith;
  }

  MovedDown-step :
      (start stop : ℕ) (q : Queue)
      → lo ≤ start + w
      → start ≤ stop
      → stop + w < hi
      → MovedDown q0 w start stop q
      → MovedDown q0 w start (suc stop) (move_song_to q (stop + w) stop)
  unfolding move_song_to
  MovedDown-step start stop q lo_le le lt m = record {
    rest = ground (arith, m.rest);
    item_at = λ p. ground (arith, m.rest, m.item_at p, m.item_at (stop + w));
    position = λ i. ground (
      arith,
      m.rest,
      m.position i,
      m.item_at (stop + w),
      h.id_at (stop + w),
      h.id_of i (stop + w),
    );
  }

  -- The loop of `queue_move` and `queue_delete` that moves down (at distance 1).
  pub shift_down :
      (start rounds : ℕ)
      → lo ≤ start + w
      → start + rounds + w ≤ hi
      → MovedDown q0 w start
          (start + rounds)
          (for_up rounds start (λ i s. move_song_to s (i + w) i) q0)
  shift_down start rounds lo_le room =
      (for_up_inv (λ i s. (start ≤ i) × MovedDown q0 w start i s) _ (start + rounds)
        (λ i s lt m. (omega arith, MovedDown-step start i s lo_le m.0 (omega arith) m.1)) rounds
        start q0 refl (omega arith, MovedDown-refl start)).1

module _ {q0 : Queue} (h : HasIds q0) (w : ℕ) (w_pos : 0 < w) where
  -- The first loop of `queue_move` (at distance 1).
  pub move_down :
      (start rounds : ℕ)
      → start + rounds + w ≤ q0.length
      → MovedDown q0 w start
          (start + rounds)
          (for_up rounds start (λ i s. move_song_to s (i + w) i) q0)
  move_down start rounds room = shift_down (HasIds-Points h) w w_pos start rounds (omega arith) room

  MovedUp-step :
      (low start : ℕ) (q : Queue)
      → low < start
      → start ≤ q0.length
      → MovedUp q0 w (suc low) start q
      → MovedUp q0 w low start (move_song_to q low (low + w))
  unfolding move_song_to
  MovedUp-step low start q le lt m = record {
    rest = ground (arith, m.rest);
    item_at = λ p. ground (arith, m.rest, m.item_at p, m.item_at low);
    position = λ i. ground (arith, m.rest, m.position i, m.item_at low, h.id_at low, h.id_of i low);
  }

  -- The first loop of `queue_move_range`, whose index is that of the source.
  pub move_range_down :
      (start rounds : ℕ)
      → start + rounds + w ≤ q0.length
      → MovedDown q0 w start
          (start + rounds)
          (for_up rounds (start + w) (λ i s. move_song_to s i (start + i - (start + w))) q0)
  move_range_down start rounds room =
      let e : start + w + rounds - w ≡ start + rounds = omega arith in
      rw e at (
        (for_up_inv (λ i s. (start + w ≤ i) × MovedDown q0 w start (i - w) s) _ (start + w + rounds)
          step rounds (start + w) q0 refl
          (omega arith, rw at_start (MovedDown-refl (HasIds-Points h) w w_pos start))).1)
    where
      at_start : start + w - w ≡ start
      at_start = omega arith

      step :
          (i : ℕ) (s : Queue)
          → suc i ≤ start + w + rounds
          → (start + w ≤ i) × MovedDown q0 w start (i - w) s
          → (start + w ≤ suc i)
            × MovedDown q0 w start (suc i - w) (move_song_to s i (start + i - (start + w)))
      step i s lt m =
          let source : i - w + w ≡ i = omega (arith, m.0) in
          let target : i - w ≡ start + i - (start + w) = omega (arith, m.0) in
          let next : suc (i - w) ≡ suc i - w = omega (arith, m.0) in
          (
            omega (arith, m.0),
            rw (← next, ← target)
                (rw source at (
                  MovedDown-step (HasIds-Points h) w w_pos start (i - w) s (omega arith)
                    (omega (arith, m.0)) (omega (arith, m.0)) m.1)),
          )

  -- The second loop of `queue_move` (at distance 1).
  pub move_up :
      (low rounds : ℕ)
      → w ≡ 1
      → low + rounds ≤ q0.length
      → MovedUp q0 w low
          (low + rounds)
          (for_down rounds (low + rounds) (λ i s. move_song_to s (i - 1) i) q0)
  move_up low rounds one room =
      let e : suc (low + rounds) - 1 ≡ low + rounds = omega arith in
      let e' : suc low - 1 ≡ low = omega arith in
      rw e at (
        rw e' at (
          (for_down_inv (λ i s. (i ≤ suc (low + rounds)) × MovedUp q0 w (i - 1) (low + rounds) s) _
            (suc low) step rounds (suc (low + rounds)) q0 (omega arith)
            (omega arith, rw e MovedUp-refl)).1))
    where
      MovedUp-refl : MovedUp q0 w (low + rounds) (low + rounds) q0
      MovedUp-refl = record {
        rest = refl;
        item_at = λ p. ground arith;
        position = λ i. ground arith;
      }

      step :
          (i : ℕ) (s : Queue)
          → suc low ≤ i
          → (suc i ≤ suc (low + rounds)) × MovedUp q0 w (suc i - 1) (low + rounds) s
          → (i ≤ suc (low + rounds))
            × MovedUp q0 w (i - 1) (low + rounds) (move_song_to s (i - 1) i)
      step i s le m =
          let next : suc i - 1 ≡ suc (i - 1) = omega arith in
          let target : i - 1 + w ≡ i = omega arith in
          (
            omega (arith, m.0),
            rw target at
                (MovedUp-step (i - 1) (low + rounds) s (omega (arith, m.0)) room (rw next at m.1)),
          )

  -- The second loop of `queue_move_range`.
  pub move_range_up :
      (low rounds : ℕ)
      → low + rounds ≤ q0.length
      → MovedUp q0 w low (low + rounds) (
          for_down rounds
            (low + rounds - 1)
            (λ i s. move_song_to s i (i + (low + rounds + w) - (low + rounds)))
            q0)
  move_range_up low rounds room =
      (for_down_inv (λ i s. (i ≤ low + rounds) × MovedUp q0 w i (low + rounds) s) _ low step rounds
        (low + rounds) q0 refl (omega arith, MovedUp-refl)).1
    where
      MovedUp-refl : MovedUp q0 w (low + rounds) (low + rounds) q0
      MovedUp-refl = record {
        rest = refl;
        item_at = λ p. ground arith;
        position = λ i. ground arith;
      }

      step :
          (i : ℕ) (s : Queue)
          → low ≤ i
          → (suc i ≤ low + rounds) × MovedUp q0 w (suc i) (low + rounds) s
          → (i ≤ low + rounds)
            × MovedUp q0 w i
                (low + rounds)
                (move_song_to s i (i + (low + rounds + w) - (low + rounds)))
      step i s le m =
          let target : i + (low + rounds + w) - (low + rounds) ≡ i + w = omega arith in
          (omega (arith, m.0), rw target (MovedUp-step i (low + rounds) s m.0 room m.1))
