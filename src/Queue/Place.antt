-- ===== src/Queue/Place.antt =====
-- src/queue.c: the last loop of `queue_move_range`, which puts the saved block at its new place.
use mpd.Base.{
  ℕ, suc, ◌+◌, ◌-◌, ◌<◌, ◌≤◌, ◌≡◌, refl, Option, none, some, ◌&&◌, ltb, leb, if◌then◌else◌, for_up,
  for_up_inv, arith,
}
use mpd.Queue.{Queue}
use mpd.Queue.Edit.{put_item}
use mpd.Queue.Inv.{HasIds}
use mpd.Queue.Shift.{touch, SameRest}

-- where the song that was at the position `o` is now, if its place is `other` outside the block
abbrev pub placed : ℕ → ℕ → ℕ → Option ℕ → Option ℕ → Option ℕ
placed start to stop none other = other
placed start to stop (some r) other =
    if leb start r && ltb r stop then some (to + r - start) else other

-- The songs of `q0` from `start` up to `stop` are put into `q2`, the first of them at `to`.
pub record Placed (q0 q2 : Queue) (start to stop : ℕ) (q : Queue) : Type 0 where
  pub rest : SameRest q2 q
  pub item_at :
      (p : ℕ)
      → q.items p ≡ (
          if leb to p && ltb p (to + stop - start)
          then touch q2 (q0.items (start + (p - to)))
          else q2.items p)
  pub position :
      (i : ℕ)
      → q.id_to_position i ≡ placed start to stop (q0.id_to_position i) (q2.id_to_position i)

module _ {q0 q2 : Queue} (h : HasIds q0) (start to : ℕ) where
  Placed-refl : Placed q0 q2 start to start q2
  Placed-refl = record { rest = refl; item_at = λ p. ground arith; position = λ i. ground arith }

  pub Placed-step :
      (stop : ℕ) (q : Queue)
      → start ≤ stop
      → stop < q0.length
      → Placed q0 q2 start to stop q
      → Placed q0 q2 start to
          (suc stop)
          (put_item q (q0.items (start + (stop - start))) (to + stop - start))
  unfolding put_item
  Placed-step stop q le lt m =
      let e : start + (stop - start) ≡ stop = omega arith in
      rw e (record {
        rest = ground (arith, m.rest);
        item_at = λ p. item p (rw e);
        position = λ i. ground (arith, m.rest, m.position i, h.id_at stop, h.id_of i stop);
      })
    where
      item :
          (p : ℕ)
          → start + (stop - start) ≡ stop
          → (put_item q (q0.items stop) (to + stop - start)).items p ≡ (
              if leb to p && ltb p (to + suc stop - start)
              then touch q2 (q0.items (start + (p - to)))
              else q2.items p)
      item p e = ground (arith, m.rest, m.item_at p)

  pub put_block :
      (w : ℕ)
      → start + w ≤ q0.length
      → Placed q0 q2 start to
          (start + w)
          (for_up w start (λ i s. put_item s (q0.items (start + (i - start))) (to + i - start)) q2)
  put_block w room =
      (for_up_inv (λ i s. (start ≤ i) × Placed q0 q2 start to i s) _ (start + w)
        (λ i s lt m. (omega (arith, m.0), Placed-step i s m.0 (omega arith) m.1)) w start q2 refl
        (omega arith, Placed-refl)).1

  -- The same for one song, as `queue_move` does it.
  pub put_one :
      start < q0.length → Placed q0 q2 start to (start + 1) (put_item q2 (q0.items start) to)
  put_one lt =
      let same : start + (start - start) ≡ start = omega arith in
      let target : to + start - start ≡ to = omega arith in
      let next : suc start ≡ start + 1 = omega arith in
      rw next at (rw (target) at (rw same at (Placed-step start q2 (omega arith) lt Placed-refl)))
