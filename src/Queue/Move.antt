-- ===== src/Queue/Move.antt =====
-- src/queue.c: `queue_move` and `queue_move_range` as relocations of the songs.
use mpd.Base.{ℕ, ◌+◌, ◌∙◌, ◌-◌, ◌^◌, ◌<◌, ◌≤◌, ◌≡◌, inl, inr, arith, Option-cases}
use mpd.Queue.{Queue, get}
use mpd.Queue.Edit.{move, moved, move_range, moved_range}
use mpd.Queue.Inv.{IsValid}
use mpd.Queue.Place.{put_block, put_one}
use mpd.Queue.Relocate.{Bijects, Relocated, Moved, Moved-IsValid}
use mpd.Queue.Opened.{Placed-Relocated, reorder-Moved, range_loops, move_loops, Placed-order}
use mpd.Queue.Range.{shifted, moved_range-eq-shifted, moved_range-Bijects}

shifted_one : (from to p : ℕ) → shifted from 1 to p ≡ moved from to p
unfolding shifted moved
shifted_one from to p = ground arith

module _ {q : Queue} (v : IsValid q) where
  length-small : q.length < 2 ^ 31
  length-small = omega (arith, v.fits, v.small)

  range-Moved :
      (start w to : ℕ)
      → 0 < w
      → start + w ≤ q.length
      → to + w ≤ q.length
      → Moved
          (moved_range start (start + w) to)
          (moved_range to (to + w) start)
          q
          (move_range q start (start + w) to)
  unfolding move_range
  range-Moved start w to pos fits room =
      let o = range_loops v.has_ids start w to pos fits room in
      let e : start + w - start ≡ w = omega arith in
      rw e (
        reorder-Moved
          (Placed-Relocated start w to _ length-small v.has_ids pos fits room o
            (put_block v.has_ids start to w fits))
          (Placed-order start w to _ o (put_block v.has_ids start to w fits)))

  -- `moved` is `moved_range` for one song.
  moved-eq :
      (from to p : ℕ)
      → from < q.length
      → to < q.length
      → p < q.length
      → moved_range from (from + 1) to p ≡ moved from to p
  moved-eq from to p lf lt lp =
      moved_range-eq-shifted q.length from 1 to p length-small (omega arith) (omega arith) lp
      ∙ shifted_one from to p

  move-Relocated :
      (from to : ℕ)
      → from < q.length
      → to < q.length
      → (q' : Queue)
      → Relocated (moved_range from (from + 1) to) (moved_range to (to + 1) from) q q'
      → Relocated (moved from to) (moved to from) q q'
  unfolding get
  move-Relocated from to lf lt q' r = record {
    rest = r.rest;
    song_at = λ p lp. rw (← moved-eq to from p lt lf lp) (r.song_at p lp);
    id_at = λ p lp. rw (← moved-eq to from p lt lf lp) (r.id_at p lp);
    position = λ i. elim (Option-cases (q.id_to_position i)) [
      | inl e ↦ ground (arith, r.position i)
      | inr (s, e) ↦ ground (arith, r.position i, moved-eq from to s lf lt (v.position_lt i s e))
    ];
  }

  one-Moved :
      (from to : ℕ)
      → from < q.length
      → to < q.length
      → Moved (moved from to) (moved to from) q (move q from to)
  unfolding move
  one-Moved from to lf lt =
      let o = move_loops v.has_ids from to lf lt in
      reorder-Moved
        (move-Relocated from to lf lt _ (
          Placed-Relocated from 1 to _ length-small v.has_ids (omega arith) (omega arith)
            (omega arith) o (put_one v.has_ids from to lf)))
        (Placed-order from 1 to _ o (put_one v.has_ids from to lf))

  -- On a valid queue `queue_move_range` of the songs from `start` up to `end` to the position `to`, at
  -- which they fit, moves them as one block: the songs, found by position or by id, are permuted as
  -- `moved_range` says, with an inverse that moves the block back; in random mode the play order still
  -- names the same songs, and outside it stays the order of the positions; and the queue is valid.
  pub move_range-Moved :
      (start end to : ℕ)
      → start < end
      → end ≤ q.length
      → to + (end - start) ≤ q.length
      → Bijects q.length (moved_range start end to) (moved_range to (to + (end - start)) start)
        × Moved
            (moved_range start end to)
            (moved_range to (to + (end - start)) start)
            q
            (move_range q start end to)
        × IsValid (move_range q start end to)
  move_range-Moved start end to lt le room =
      let e : start + (end - start) ≡ end = omega arith in
      let b = rw e at (
        moved_range-Bijects q.length start (end - start) to length-small (omega arith) (omega arith)
          room) in
      let m = rw e at (range-Moved start (end - start) to (omega arith) (omega arith) room) in
      (b, m, Moved-IsValid b m v)

  moved-Bijects :
      (from to : ℕ)
      → from < q.length
      → to < q.length
      → Bijects q.length (moved from to) (moved to from)
  unfolding moved
  moved-Bijects from to lf lt = record {
    f_lt = λ p lp. ground arith;
    g_lt = λ p lp. ground arith;
    f_g = λ p lp. ground arith;
    g_f = λ p lp. ground arith;
  }

  -- On a valid queue `queue_move` of the song at `from` to the position `to` puts it there and the songs
  -- between one place further, by position and by id; in random mode the play order still names the
  -- same songs, and outside it stays the order of the positions; and the queue is valid.
  pub move-Moved :
      (from to : ℕ)
      → from < q.length
      → to < q.length
      → Bijects q.length (moved from to) (moved to from)
        × Moved (moved from to) (moved to from) q (move q from to)
        × IsValid (move q from to)
  move-Moved from to lf lt =
      let b = moved-Bijects from to lf lt in
      let m = one-Moved from to lf lt in (b, m, Moved-IsValid b m v)
