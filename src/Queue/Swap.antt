-- ===== src/Queue/Swap.antt =====
-- src/queue.c: `queue_swap` and `queue_swap_order` on a valid queue.
use mpd.Base.{ℕ, ◌<◌, ◌≡◌, refl, true, ◌==◌, inl, inr, if◌then◌else◌, arith, Option-cases}
use mpd.Queue.{Queue, get}
use mpd.Queue.Edit.{swap, swap_order}
use mpd.Queue.Inv.{IsValid}
use mpd.Queue.Relocate.{Bijects, Relocated, Relocated-HasIds}

abbrev pub transposed : ℕ → ℕ → ℕ → ℕ
transposed a b p = if p == a then b else if p == b then a else p

pub transposed-Bijects : (n a b : ℕ) → a < n → b < n → Bijects n (transposed a b) (transposed a b)
transposed-Bijects n a b la lb = record {
  f_lt = λ p lt. ground arith;
  g_lt = λ p lt. ground arith;
  f_g = λ p lt. ground arith;
  g_f = λ p lt. ground arith;
}

-- A relocation that leaves `order` alone keeps the queue valid.
pub Relocated-IsValid :
    {f g : ℕ → ℕ} {q q' : Queue}
    → Bijects q.length f g
    → Relocated f g q q'
    → ((o : ℕ) → q'.order o ≡ q.order o)
    → IsValid q
    → IsValid q'
Relocated-IsValid b r same v = record {
  fits = ground (arith, r.rest, v.fits);
  small = ground (arith, r.rest, v.small);
  version_lt = ground (arith, r.rest, v.version_lt);
  version_pos = ground (arith, r.rest, v.version_pos);
  has_ids = Relocated-HasIds b r v.has_ids;
  has_order = record {
    permutes = record {
      below = λ o lt. ground (arith, r.rest, same o, v.permutes.below o);
      injective = λ i j li lj e. ground (arith, r.rest, same i, same j, v.permutes.injective i j);
    };
    in_place = λ m o lt. ground (arith, r.rest, same o, v.in_place (ground (arith, r.rest)) o);
  };
}

module _ {q : Queue} (v : IsValid q) (a b : ℕ) (la : a < q.length) (lb : b < q.length) where
  -- On a valid queue `queue_swap` of two positions in use exchanges the songs at them, by position and by
  -- id, and moves no other.
  pub swap-Relocated : Relocated (transposed a b) (transposed a b) q (swap q a b)
  unfolding swap get
  swap-Relocated = record {
    rest = refl;
    song_at = λ p lt. ground arith;
    id_at = λ p lt. ground arith;
    position = λ i. elim (Option-cases (q.id_to_position i)) [
      | inl e ↦ ground (arith, v.id_at a, v.id_at b)
      | inr (r, e) ↦ ground (arith, v.id_at a, v.id_at b, v.id_of i r)
    ];
  }

  pub swap-IsValid : IsValid (swap q a b)
  unfolding swap
  swap-IsValid =
      Relocated-IsValid (transposed-Bijects q.length a b la lb) swap-Relocated (λ o. refl) v

  -- In random mode `queue_swap_order` keeps a valid queue valid.
  pub swap_order-IsValid : q.random ≡ true → IsValid (swap_order q a b)
  unfolding swap_order
  swap_order-IsValid m = record {
    fits = v.fits;
    small = v.small;
    version_lt = v.version_lt;
    version_pos = v.version_pos;
    has_ids = record {
      in_range = v.in_range;
      id_at = v.id_at;
      position_lt = v.position_lt;
      id_of = v.id_of;
    };
    has_order = record {
      permutes = record {
        below = λ o lt. ground (arith, v.permutes.below o, v.permutes.below a, v.permutes.below b);
        injective = λ i j li lj e. ground (
          arith,
          v.permutes.injective i j,
          v.permutes.injective a j,
          v.permutes.injective b j,
          v.permutes.injective i a,
          v.permutes.injective i b,
          v.permutes.injective a b,
        );
      };
      in_place = λ m' o lt. ground arith;
    };
  }

pub order-swap : (q : Queue) (a b o : ℕ) → (swap q a b).order o ≡ q.order o
unfolding swap
order-swap q a b o = refl

pub swap_order_rest :
    (q : Queue) (x y : ℕ) → swap_order q x y ≡ record q { order = (swap_order q x y).order }
unfolding swap_order
swap_order_rest q x y = refl
