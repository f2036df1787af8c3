-- ===== src/Queue/Relocate.antt =====
-- Moving the songs of a queue by a permutation of the positions, the specification of the
-- operations of src/queue.c that reorder songs.
use mpd.Base.{
  ℕ, suc, ◌<◌, ◌≤◌, ◌≡◌, refl, some, ltb, if◌then◌else◌, for_up, for_up_inv, arith, Option-cases,
  inl, inr, Bool, true, false,
}
use mpd.Queue.{Queue, get}
use mpd.Queue.Edit.{map_order}
use mpd.Queue.Inv.{HasIds, HasOrder, IsValid}
use mpd.Queue.Shift.{map_position}

-- `f` permutes the numbers below `n`, and `g` is its inverse.
pub record Bijects (n : ℕ) (f g : ℕ → ℕ) : Type 0 where
  pub f_lt : (p : ℕ) → p < n → f p < n
  pub g_lt : (p : ℕ) → p < n → g p < n
  pub f_g : (p : ℕ) → p < n → f (g p) ≡ p
  pub g_f : (p : ℕ) → p < n → g (f p) ≡ p

-- The song that stood at `p` stands at `f p`, under its id; the song at `p` comes from `g p`.
pub record Relocated (f g : ℕ → ℕ) (q q' : Queue) : Type 0 where
  pub rest :
      q' ≡ record q { items = q'.items; id_to_position = q'.id_to_position; order = q'.order }
  pub song_at : (p : ℕ) → p < q.length → get q' p ≡ get q (g p)
  pub id_at : (p : ℕ) → p < q.length → (q'.items p).id ≡ (q.items (g p)).id
  pub position : (i : ℕ) → q'.id_to_position i ≡ map_position f (q.id_to_position i)

module _ {f g : ℕ → ℕ} {q q' : Queue} (b : Bijects q.length f g) (r : Relocated f g q q') where
  -- An id that has a position had one before.
  old_position :
      (i p : ℕ) → q'.id_to_position i ≡ some p → (s : ℕ) × (q.id_to_position i ≡ some s) × (p ≡ f s)
  old_position i p e = elim (Option-cases (q.id_to_position i)) [
    | inl e' ↦ absurd (ground (arith, r.position i))
    | inr (s, e') ↦ (s, e', ground (arith, r.position i))
  ]

  pub Relocated-HasIds : HasIds q → HasIds q'
  Relocated-HasIds h = record {
    in_range = λ p lt. ground (arith, r.rest, r.id_at p, h.in_range (g p), b.g_lt p);
    id_at = λ p lt.
        ground (
          arith,
          r.rest,
          r.id_at p,
          b.g_lt p,
          h.id_at (g p),
          b.f_g p,
          r.position (q.items (g p)).id,
        );
    position_lt = λ i p e.
        let (s, e', at) = old_position i p e in ground (arith, r.rest, h.position_lt i s, b.f_lt s);
    id_of = λ i p e.
        let (s, e', at) = old_position i p e in
        ground (arith, r.rest, r.id_at p, h.position_lt i s, h.id_of i s, b.f_lt s, b.g_f s);
  }

-- What the loop over `order` does: it applies `f` to every element in use.
pub record Reordered (f : ℕ → ℕ) (q : Queue) (stop : ℕ) (q' : Queue) : Type 0 where
  pub rest : q' ≡ record q { order = q'.order }
  pub order_at : (o : ℕ) → q'.order o ≡ (if ltb o stop then f (q.order o) else q.order o)

pub order_loop :
    (f : ℕ → ℕ) (q : Queue) → Reordered f q q.length (for_up q.length 0 (map_order f) q)
order_loop f q =
    for_up_inv (Reordered f q) (map_order f) q.length step q.length 0 q (omega arith)
      (record { rest = refl; order_at = λ o. ground arith })
  where
    step :
        (i : ℕ) (s : Queue)
        → suc i ≤ q.length
        → Reordered f q i s
        → Reordered f q (suc i) (map_order f i s)
    step i s lt m = record {
      rest = ground (arith, m.rest);
      order_at = λ o. ground (arith, m.order_at o, m.order_at i);
    }

-- The songs are relocated by `f`; in random mode the order numbers follow them, and outside it they
-- stay the positions.
pub record Moved (f g : ℕ → ℕ) (q q' : Queue) : Type 0 where
  pub relocated : Relocated f g q q'
  pub open relocated use *
  pub order_kept : q.random ≡ false → (o : ℕ) → q'.order o ≡ q.order o
  pub order_moved : q.random ≡ true → (o : ℕ) → o < q.length → q'.order o ≡ f (q.order o)

module _ {f g : ℕ → ℕ} {q q' : Queue} (b : Bijects q.length f g) (m : Moved f g q q') where
  -- With the conditions one by one for either mode.
  order_lt : HasOrder q → (r : Bool) → q.random ≡ r → (o : ℕ) → o < q.length → q'.order o < q.length
  order_lt h true e o lt =
      ground (arith, m.order_moved e o lt, h.permutes.below o lt, b.f_lt (q.order o))
  order_lt h false e o lt = ground (arith, m.order_kept e o, h.permutes.below o lt)

  order_injective :
      HasOrder q
      → (r : Bool) → q.random ≡ r
      → (i j : ℕ) → i < q.length
      → j < q.length
      → q'.order i ≡ q'.order j
      → i ≡ j
  order_injective h true e i j li lj eq = h.permutes.injective i j li lj (
      ground (
        arith,
        m.order_moved e i li,
        m.order_moved e j lj,
        h.permutes.below i li,
        h.permutes.below j lj,
        b.g_f (q.order i),
        b.g_f (q.order j),
      ))
  order_injective h false e i j li lj eq =
      h.permutes.injective i j li lj (ground (arith, m.order_kept e i, m.order_kept e j))

  Moved-HasOrder : HasOrder q → HasOrder q'
  Moved-HasOrder h = record {
    permutes = record {
      below = λ o lt. ground (arith, m.rest, order_lt h q.random refl o);
      injective = λ i j li lj e. ground (arith, m.rest, order_injective h q.random refl i j);
    };
    in_place = λ r o lt. ground (
      arith,
      m.rest,
      m.order_kept,
      m.order_kept (ground (arith, m.rest)) o,
      h.in_place (ground (arith, m.rest)) o,
    );
  }

  pub Moved-IsValid : IsValid q → IsValid q'
  Moved-IsValid v = record {
    fits = ground (arith, m.rest, v.fits);
    small = ground (arith, m.rest, v.small);
    version_lt = ground (arith, m.rest, v.version_lt);
    version_pos = ground (arith, m.rest, v.version_pos);
    has_ids = Relocated-HasIds b m.relocated v.has_ids;
    has_order = Moved-HasOrder v.has_order;
  }
