-- ===== src/Queue/Append.antt =====
-- src/queue.c: `queue_append` on a valid queue with room.
use mpd.Base.{ℕ, ◌+◌, ◌<◌, ◌≡◌, ◌≢◌, some, arith}
use mpd.Queue.{Song, Queue, get, to_position}
use mpd.Queue.Edit.{append, append_at}
use mpd.Queue.Inv.{HasIds, HasOrder, IsValid}
use mpd.Queue.Ids.{IsFree, generate_id-IsFree}

module _ {q : Queue} (song : Song) (id : ℕ) (v : IsValid q) (room : q.length < q.max_length)
    (free : IsFree q id) where
  append_at-HasIds : HasIds (append_at q song id)
  unfolding append_at
  append_at-HasIds = record {
    in_range = λ p h. ground (arith, v.in_range p);
    id_at = λ p h. ground (arith, v.id_at p);
    position_lt = λ i p h. ground (arith, v.position_lt i p);
    id_of = λ i p h. ground (arith, v.id_of i p, v.position_lt i p);
  }

  append_at-HasOrder : HasOrder (append_at q song id)
  unfolding append_at
  append_at-HasOrder = record {
    permutes = record {
      below = λ o h. ground (arith, v.permutes.below o);
      injective = λ i j li lj e.
          ground (arith, v.permutes.injective i j, v.permutes.below i, v.permutes.below j);
    };
    in_place = λ r o h. ground (arith, v.in_place r o);
  }

  append_at-IsValid : IsValid (append_at q song id)
  unfolding append_at
  append_at-IsValid = record {
    fits = omega arith;
    small = v.small;
    version_lt = v.version_lt;
    version_pos = v.version_pos;
    has_ids = append_at-HasIds;
    has_order = append_at-HasOrder;
  }

-- What `queue_append` has done, returning `id`: the song stands at the end under the new id, which
-- no song had; the songs before it are as they were; and the queue is valid.
pub record Appended (q : Queue) (song : Song) (id : ℕ) (r : Queue) : Type 0 where
  pub valid : IsValid r
  pub longer : r.length ≡ q.length + 1
  pub at_end : get r q.length ≡ song
  pub found : to_position r id ≡ some q.length
  pub was_free : (p : ℕ) → p < q.length → (q.items p).id ≢ id
  pub kept : (p : ℕ) → p < q.length → r.items p ≡ q.items p
  pub version_at : (r.items q.length).version ≡ q.version
  pub random_same : r.random ≡ q.random
  pub last : r.order q.length ≡ q.length
  pub order_kept : (o : ℕ) → o < q.length → r.order o ≡ q.order o
  pub position_kept : (i : ℕ) → i ≢ id → to_position r i ≡ to_position q i

append_at-Appended :
    {q : Queue} (song : Song) (id : ℕ)
    → IsValid q
    → q.length < q.max_length
    → IsFree q id
    → Appended q song id (append_at q song id)
unfolding append_at get to_position
append_at-Appended {q} song id v room free = record {
  valid = append_at-IsValid song id v room free;
  longer = ground arith;
  version_at = ground arith;
  last = ground arith;
  random_same = ground arith;
  order_kept = λ o lt. ground arith;
  position_kept = λ i ne. ground arith;
  at_end = ground arith;
  found = ground (arith, free);
  was_free = λ p h e. ground (arith, v.id_at p h, free);
  kept = λ p h. ground arith;
}

pub append-Appended :
    {q : Queue} (song : Song)
    → IsValid q
    → q.length < q.max_length
    → (id : ℕ) × (r : Queue) × (append q song ≡ some (id, r)) × Appended q song id r
unfolding append
append-Appended {q} song v room =
    let (id, found, free) = generate_id-IsFree v room in
    (id, append_at q song id, ground arith, append_at-Appended song id v room free)
