-- ===== src/Queue/Inv.antt =====
-- What holds of a queue between two calls of src/queue.c.
use mpd.Base.{ℕ, Bool, ◌≤◌, ◌<◌, ◌≡◌, some, false, uint_mod}
use mpd.Base.Pigeonhole.{Injects}
use mpd.Queue.{Queue, ids, version_max}

-- The ids and the positions of the songs correspond.
pub record HasIds (q : Queue) : Type 0 where
  pub in_range : (p : ℕ) → p < q.length → (q.items p).id < ids q
  pub id_at : (p : ℕ) → p < q.length → q.id_to_position (q.items p).id ≡ some p
  pub position_lt : (i p : ℕ) → q.id_to_position i ≡ some p → p < q.length
  pub id_of : (i p : ℕ) → q.id_to_position i ≡ some p → (q.items p).id ≡ i

-- `order` permutes the positions, and outside random mode it is the identity.
pub record HasOrder (q : Queue) : Type 0 where
  pub permutes : Injects q.length q.length q.order
  pub in_place : q.random ≡ false → (o : ℕ) → o < q.length → q.order o ≡ o

pub record IsValid (q : Queue) : Type 0 where
  pub fits : q.length ≤ q.max_length
  pub small : ids q < uint_mod
  pub version_lt : q.version < version_max
  pub version_pos : 0 < q.version
  pub has_ids : HasIds q
  pub open has_ids use *
  pub has_order : HasOrder q
  pub open has_order use *

-- "repeat", "single" and "consume" do not matter to it.
pub modes-IsValid :
    {q : Queue} (repeat_mode single consume : Bool)
    → IsValid q
    → IsValid (record q { repeat_mode = repeat_mode; single = single; consume = consume })
modes-IsValid repeat_mode single consume v = record {
  fits = v.fits;
  small = v.small;
  version_lt = v.version_lt;
  version_pos = v.version_pos;
  has_ids = record {
    in_range = v.has_ids.in_range;
    id_at = v.has_ids.id_at;
    position_lt = v.has_ids.position_lt;
    id_of = v.has_ids.id_of;
  };
  has_order = record {
    permutes = record {
      below = v.has_order.permutes.below;
      injective = v.has_order.permutes.injective;
    };
    in_place = v.has_order.in_place;
  };
}
