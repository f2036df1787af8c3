-- ===== src/Queue/Reset.antt =====
-- src/queue.c: `queue_restore_order`, `queue_clear` and `queue_init`.
use mpd.Base.{
  ℕ, Bool, ◌*◌, ◌<◌, ◌≤◌, ◌≡◌, refl, none, some, ltb, inl, inr, if◌then◌else◌, for_up, for_up_inv,
  arith, Option-cases, update, Array, uint_mod,
}
use mpd.Queue.{Queue, Item, hash_mult, to_position}
use mpd.Queue.Edit.{restore_order, clear, clear_item, init}
use mpd.Queue.Inv.{IsValid}

-- What the loop of `queue_restore_order` has done before round `stop`.
record Restored (q : Queue) (stop : ℕ) (q' : Queue) : Type 0 where
  rest : q' ≡ record q { order = q'.order }
  order_at : (o : ℕ) → q'.order o ≡ (if ltb o stop then o else q.order o)

restored : (q : Queue) → Restored q q.length (restore_order q)
unfolding restore_order
restored q =
    for_up_inv (Restored q) (λ i s. record s { order = update s.order i i }) q.length
      (λ i s lt m. record {
        rest = ground (arith, m.rest);
        order_at = λ o. ground (arith, m.order_at o);
      })
      q.length 0 q (omega arith) (record { rest = refl; order_at = λ o. ground arith })

-- Of a valid queue, whose "random" flag may have been changed just before, `queue_restore_order` makes a
-- valid one in which the order numbers are the positions; no song, id or version changes.
pub restore_order-IsValid :
    {q : Queue} (random : Bool)
    → IsValid q
    → IsValid (restore_order (record q { random = random }))
      × ((o : ℕ) → o < q.length → (restore_order (record q { random = random })).order o ≡ o)
      × (restore_order (record q { random = random }) ≡ record q {
        random = random;
        order = (restore_order (record q { random = random })).order;
      })
restore_order-IsValid {q} random v = (
  record {
    fits = ground (arith, m.rest, v.fits);
    small = ground (arith, m.rest, v.small);
    version_lt = ground (arith, m.rest, v.version_lt);
    version_pos = ground (arith, m.rest, v.version_pos);
    has_ids = record {
      in_range = λ p lt. ground (arith, m.rest, v.in_range p);
      id_at = λ p lt. ground (arith, m.rest, v.id_at p);
      position_lt = λ i p e. ground (arith, m.rest, v.position_lt i p);
      id_of = λ i p e. ground (arith, m.rest, v.id_of i p);
    };
    has_order = record {
      permutes = record {
        below = λ o lt. ground (arith, m.rest, m.order_at o);
        injective = λ i j li lj e. ground (arith, m.rest, m.order_at i, m.order_at j);
      };
      in_place = λ r o lt. ground (arith, m.rest, m.order_at o);
    };
  },
  (λ o lt. ground (arith, m.order_at o)),
  m.rest,
)
  where
    m :
        Restored
          (record q { random = random })
          q.length
          (restore_order (record q { random = random }))
    m = restored (record q { random = random })

-- What the loop of `queue_clear` has done before round `stop`.
record Cleared (q : Queue) (stop : ℕ) (q' : Queue) : Type 0 where
  rest : q' ≡ record q { freed = q'.freed; id_to_position = q'.id_to_position }
  left : (i p : ℕ) → q'.id_to_position i ≡ some p → (q.id_to_position i ≡ some p) × (stop ≤ p)

cleared : {q : Queue} → IsValid q → Cleared q q.length (for_up q.length 0 clear_item q)
unfolding clear_item
cleared {q} v =
    for_up_inv (Cleared q) clear_item q.length
      (λ i s lt m. record {
        rest = ground (arith, m.rest);
        left = λ j p e.
            (ground (arith, m.rest, m.left j p), ground (arith, m.rest, m.left j p, v.id_of j p));
      })
      q.length 0 q (omega arith) (record { rest = refl; left = λ i p e. (e, omega arith) })

-- `queue_clear` leaves a valid empty queue in which no id has a position.
pub clear-IsValid :
    {q : Queue}
    → IsValid q
    → IsValid (clear q) × ((clear q).length ≡ 0) × ((i : ℕ) → to_position (clear q) i ≡ none)
unfolding clear to_position
clear-IsValid {q} v = (
  record {
    fits = omega arith;
    small = ground (arith, m.rest, v.small);
    version_lt = ground (arith, m.rest, v.version_lt);
    version_pos = ground (arith, m.rest, v.version_pos);
    has_ids = record {
      in_range = λ p lt. elim lt [ ];
      id_at = λ p lt. elim lt [ ];
      position_lt = λ i p e. absurd (nothing i p e);
      id_of = λ i p e. absurd (nothing i p e);
    };
    has_order = record {
      permutes = record { below = λ o lt. elim lt [ ]; injective = λ i j li lj e. elim li [ ] };
      in_place = λ r o lt. elim lt [ ];
    };
  },
  refl,
  λ i. elim (Option-cases (after.id_to_position i)) [
    | inl e ↦ ground arith
    | inr (p, e) ↦ absurd (nothing i p e)
  ],
)
  where
    after : Queue
    after = for_up q.length 0 clear_item q

    m : Cleared q q.length after
    m = cleared v

    nothing : (i p : ℕ) → after.id_to_position i ≡ some p → ⊥
    nothing i p e = ground (arith, m.left i p e, v.position_lt i p)

-- `queue_init` makes a valid queue, of any length for which the ids fit an `unsigned`.
pub init-IsValid :
    (max_length : ℕ) (items : Array Item) (order : Array ℕ) (cur : ℕ)
    → max_length * hash_mult < uint_mod
    → IsValid (init max_length items order cur)
unfolding init
init-IsValid max_length items order cur small = record {
  fits = omega arith;
  small = small;
  version_lt = omega arith;
  version_pos = omega arith;
  has_ids = record {
    in_range = λ p lt. elim lt [ ];
    id_at = λ p lt. elim lt [ ];
    position_lt = λ i p e. ground arith;
    id_of = λ i p e. ground arith;
  };
  has_order = record {
    permutes = record { below = λ o lt. elim lt [ ]; injective = λ i j li lj e. elim li [ ] };
    in_place = λ r o lt. elim lt [ ];
  };
}
