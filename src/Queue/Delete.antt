-- ===== src/Queue/Delete.antt =====
-- src/queue.c: `queue_delete` on a valid queue.
use mpd.Base.{
  ℕ, ◌+◌, ◌-◌, ◌<◌, ◌≡◌, ◌≢◌, ◌∷◌, none, some, false, inl, inr, if◌then◌else◌, arith, Option-cases,
  update,
}
use mpd.Queue.{Queue, get, get_order, position_to_order, song_in_database}
use mpd.Queue.Edit.{close_gap, delete, free_song}
use mpd.Queue.Inv.{HasIds, HasOrder, IsValid}
use mpd.Queue.Shift.{Points}
use mpd.Queue.Find.{position_to_order-finds}
use mpd.Queue.Gap.{lowered, raised, GapClosed, close_gap-GapClosed}

-- What `queue_delete` has done: the song at `position` is gone, with its id and its order number
-- `order`, and is freed if it is not in the database; the songs behind it are one place further up,
-- under their ids, and the rest of the play order is as it was; and the queue is valid.
pub record Deleted (q : Queue) (position order : ℕ) (q' : Queue) : Type 0 where
  pub valid : IsValid q'
  pub order_lt : order < q.length
  pub order_is : q.order order ≡ position
  pub shorter : q'.length + 1 ≡ q.length
  pub song_at : (p : ℕ) → p < q'.length → get q' p ≡ get q (raised position p)
  pub id_at : (p : ℕ) → p < q'.length → (q'.items p).id ≡ (q.items (raised position p)).id
  pub forgotten : q'.id_to_position (q.items position).id ≡ none
  pub position_of :
      (i r : ℕ)
      → q.id_to_position i ≡ some r
      → r ≢ position
      → q'.id_to_position i ≡ some (lowered position r)
  pub played : (o : ℕ) → o < q'.length → get_order q' o ≡ get_order q (raised order o)
  pub freed_if :
      q'.freed ≡ (if song_in_database (get q position) then q.freed else get q position ∷ q.freed)
  pub modes : (q'.random ≡ q.random) × (q'.version ≡ q.version) × (q'.max_length ≡ q.max_length)

-- the queue that the three loops start from
abbrev opened : Queue → ℕ → Queue
opened q position = record q {
  length = q.length - 1;
  id_to_position = update q.id_to_position (q.items position).id none;
  freed = free_song (q.items position).song q.freed;
}

module _ {q : Queue} (v : IsValid q) (position order : ℕ) (lp : position < q.length)
    (lo : order < q.length) (at : q.order order ≡ position) where
  opened-Points : Points (opened q position) (position + 1) (q.length - 1 + 1)
  opened-Points = record {
    id_at = λ p le lt. ground (arith, v.id_at p, v.id_at position);
    id_of = λ i p e. ground (arith, v.id_of i p);
  }

  module _ (q' : Queue) (g : GapClosed (opened q position) position order q') where
    new_position :
        (i r : ℕ)
        → q.id_to_position i ≡ some r
        → r ≢ position
        → q'.id_to_position i ≡ some (lowered position r)
    new_position i r e ne =
        ground (arith, g.to_position i r, v.position_lt i r e, v.id_of i r e, v.id_at position lp)

    gone : q'.id_to_position (q.items position).id ≡ none
    gone = ground (arith, g.unplaced (q.items position).id)

    -- An id that still has a position is that of another song.
    kept_id :
        (i p : ℕ)
        → q'.id_to_position i ≡ some p
        → (r : ℕ) × (q.id_to_position i ≡ some r) × (r ≢ position) × (p ≡ lowered position r)
    kept_id i p e = elim (Option-cases (q.id_to_position i)) [
      | inl n ↦ absurd (ground (arith, g.unplaced i))
      | inr (r, s) ↦
          let ne : r ≢ position = λ same. ground (arith, v.id_of i r s, gone) in
          (r, s, ne, ground (arith, new_position i r s ne))
    ]

    gap-HasIds : HasIds q'
    gap-HasIds = record {
      in_range = λ p lt. ground (arith, g.rest, g.id_at p, v.in_range (raised position p));
      id_at = λ p lt. ground (
        arith,
        g.rest,
        g.id_at p,
        v.id_at (raised position p),
        new_position (q.items (raised position p)).id (raised position p),
      );
      position_lt = λ i p e.
          let (r, s, ne, to) = kept_id i p e in ground (arith, g.rest, v.position_lt i r s);
      id_of = λ i p e.
          let (r, s, ne, to) = kept_id i p e in
          ground (arith, g.rest, g.id_at p, v.position_lt i r s, v.id_of i r s);
    }

    other_order : (o : ℕ) → o < q.length - 1 → q.order (raised order o) ≢ position
    other_order o lt e = absurd (ground (arith, v.permutes.injective (raised order o) order))

    gap-HasOrder : HasOrder q'
    gap-HasOrder = record {
      permutes = record {
        below = λ o lt.
            ground (arith, g.rest, g.order_at o, v.permutes.below (raised order o), other_order o);
        injective = λ i j li lj e. ground (
          arith,
          g.rest,
          g.order_at i,
          g.order_at j,
          other_order i,
          other_order j,
          v.permutes.injective (raised order i) (raised order j),
        );
      };
      in_place = λ r o lt.
          let r' : q.random ≡ false = ground (arith, g.rest) in
          ground (arith, g.rest, g.order_at o, v.in_place r' (raised order o), v.in_place r' order);
    }

    gap-Deleted : Deleted q position order q'
    unfolding get get_order song_in_database free_song
    gap-Deleted = record {
      valid = record {
        fits = ground (arith, g.rest, v.fits);
        small = ground (arith, g.rest, v.small);
        version_lt = ground (arith, g.rest, v.version_lt);
        version_pos = ground (arith, g.rest, v.version_pos);
        has_ids = gap-HasIds;
        has_order = gap-HasOrder;
      };
      order_lt = lo;
      order_is = at;
      shorter = ground (arith, g.rest);
      song_at = λ p lt. ground (arith, g.rest, g.song_at p);
      id_at = λ p lt. ground (arith, g.rest, g.id_at p);
      forgotten = gone;
      position_of = new_position;
      played = λ o lt. ground (
        arith,
        g.rest,
        g.order_at o,
        other_order o,
        g.song_at (lowered position (q.order (raised order o))),
        v.permutes.below (raised order o),
      );
      freed_if = ground (arith, g.rest);
      modes = (ground (arith, g.rest), ground (arith, g.rest), ground (arith, g.rest));
    }

-- On a valid queue `queue_delete` of a position in use succeeds and leaves a valid queue: the songs and
-- ids behind the position move up by one, every other id keeps its song, the id of the song has no
-- position any more, the play order is that of before without the song, and the song is freed exactly
-- if it does not belong to the database.
pub delete-Deleted :
    {q : Queue}
    → IsValid q
    → (position : ℕ) → position < q.length
    → (order : ℕ) × (q' : Queue) × (position_to_order q position ≡ some order)
      × (delete q position ≡ some q')
      × Deleted q position order q'
unfolding delete
delete-Deleted {q} v position lp =
    let (order, found, lo, at) = position_to_order-finds v position lp in
    let q' = close_gap (opened q position) position order in
    (
      order,
      q',
      found,
      ground arith,
      gap-Deleted v position order lp lo at q' (
          close_gap-GapClosed position order (opened-Points v position order lp lo at) (omega arith)
            (omega arith)),
    )
