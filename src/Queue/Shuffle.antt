-- ===== src/Queue/Shuffle.antt =====
-- src/queue.c: shuffling a valid queue.
use mpd.Base.{
  ℕ, suc, ◌-◌, ◌<◌, ◌≤◌, ◌≡◌, refl, ◌∙◌, ap, true, ◌⊎◌, inl, inr, for_up_inv, arith, Option-cases,
}
use mpd.Queue.{Queue, get}
use mpd.Queue.Edit.{swap}
use mpd.Queue.Inv.{IsValid}
use mpd.Queue.Relocate.{Bijects, Relocated}
use mpd.Queue.Random.{
  GRand, shuffle_order_step, shuffle_order, shuffle_order_last, shuffle_range_step, shuffle_range,
}
use mpd.Queue.Swap.{
  transposed, transposed-Bijects, swap-Relocated, swap-IsValid, swap_order-IsValid, order-swap,
}

-- Only `order` may differ.
pub record OnlyOrder (q q' : Queue) : Type 0 where
  pub valid : IsValid q'
  pub rest : q' ≡ record q { order = q'.order }

-- The songs have been permuted within [start, end).
pub record Shuffled (start end : ℕ) (q q' : Queue) : Type 0 where
  pub valid : IsValid q'
  pub f : ℕ → ℕ
  pub g : ℕ → ℕ
  pub bijects : Bijects q.length f g
  pub relocated : Relocated f g q q'
  pub outside : (p : ℕ) → (p < start) ⊎ (end ≤ p) → (f p ≡ p) × (g p ≡ p)
  pub order_same : (o : ℕ) → q'.order o ≡ q.order o

module _ (r : GRand) where
  -- `queue_shuffle_order` keeps a valid queue in random mode valid: the new `order` is again a
  -- permutation of the positions. Nothing but `order` changes.
  pub shuffle_order-OnlyOrder :
      (q : Queue) (s : r.State) → IsValid q → q.random ≡ true → OnlyOrder q (shuffle_order r q s).0
  unfolding shuffle_order
  shuffle_order-OnlyOrder q s v m =
      for_up_inv (λ i (t : Queue × r.State). OnlyOrder q t.0) (shuffle_order_step r q.length)
        q.length step q.length 0 (q, s) (omega arith) (record { valid = v; rest = refl })
    where
      step :
          (i : ℕ) (t : Queue × r.State)
          → suc i ≤ q.length
          → OnlyOrder q t.0
          → OnlyOrder q (shuffle_order_step r q.length i t).0
      step i t lt o =
          let drawn = r.in_range t.1 i q.length lt in
          let same : t.0.length ≡ q.length = ground (arith, o.rest) in
          record {
            valid =
                swap_order-IsValid o.valid i _ (omega arith) (omega (arith, drawn))
                  (ground (arith, o.rest));
            rest = ground (arith, o.rest);
          }

  -- `queue_shuffle_order_last` on a range in use keeps a valid queue in random mode valid, and changes
  -- nothing but `order`.
  pub shuffle_order_last-OnlyOrder :
      (q : Queue) (s : r.State) (start end : ℕ)
      → IsValid q
      → q.random ≡ true
      → start < end
      → end ≤ q.length
      → OnlyOrder q (shuffle_order_last r q s start end).0
  unfolding shuffle_order_last
  shuffle_order_last-OnlyOrder q s start end v m lt le = record {
    valid =
        swap_order-IsValid v (end - 1) _ (omega arith) (omega (arith, r.in_range s start end lt)) m;
    rest = refl;
  }

  swap-Shuffled :
      (start end : ℕ) {q t : Queue} (a b : ℕ)
      → end ≤ q.length
      → start ≤ a
      → a < end
      → start ≤ b
      → b < end
      → Shuffled start end q t
      → Shuffled start end q (swap t a b)
  unfolding get
  swap-Shuffled start end {q} {t} a b le sa la sb lb m =
      let same : t.length ≡ q.length = ground (arith, m.relocated.rest) in
      let w = swap-Relocated m.valid a b (omega arith) (omega arith) in
      let tb = transposed-Bijects q.length a b (omega arith) (omega arith) in
      record {
        valid = swap-IsValid m.valid a b (omega arith) (omega arith);
        f = λ p. transposed a b (m.f p);
        g = λ p. m.g (transposed a b p);
        bijects = record {
          f_lt = λ p lp. tb.f_lt (m.f p) (m.bijects.f_lt p lp);
          g_lt = λ p lp. m.bijects.g_lt _ (tb.g_lt p lp);
          f_g = λ p lp. ap (transposed a b) (m.bijects.f_g _ (tb.g_lt p lp)) ∙ tb.f_g p lp;
          g_f = λ p lp. ap m.g (tb.g_f (m.f p) (m.bijects.f_lt p lp)) ∙ m.bijects.g_f p lp;
        };
        relocated = record {
          rest = ground (arith, w.rest, m.relocated.rest);
          song_at = λ p lp. w.song_at p (omega arith) ∙ m.relocated.song_at _ (tb.g_lt p lp);
          id_at = λ p lp. w.id_at p (omega arith) ∙ m.relocated.id_at _ (tb.g_lt p lp);
          position = λ i. ground (arith, w.position i, m.relocated.position i);
        };
        outside = λ p out. (ground (arith, m.outside p out), ground (arith, m.outside p out));
        order_same = λ o. order-swap t a b o ∙ m.order_same o;
      }

  -- `queue_shuffle_range` of a range in use keeps a valid queue valid and permutes the songs, with
  -- their ids, within the range: the songs outside keep their positions, and `order` is as it was.
  pub shuffle_range-Shuffled :
      (q : Queue) (s : r.State) (start end : ℕ)
      → IsValid q
      → start ≤ end
      → end ≤ q.length
      → Shuffled start end q (shuffle_range r q s start end).0
  unfolding shuffle_range get
  shuffle_range-Shuffled q s start end v le fits =
      (for_up_inv (λ i (t : Queue × r.State). (start ≤ i) × Shuffled start end q t.0)
        (shuffle_range_step r end) end step (end - start) start (q, s) (omega arith)
        (omega arith, same)).1
    where
      same : Shuffled start end q q
      same = record {
        valid = v;
        f = λ p. p;
        g = λ p. p;
        bijects = record {
          f_lt = λ p lt. lt;
          g_lt = λ p lt. lt;
          f_g = λ p lt. refl;
          g_f = λ p lt. refl;
        };
        relocated = record {
          rest = refl;
          song_at = λ p lt. refl;
          id_at = λ p lt. refl;
          position = λ i. elim (Option-cases (q.id_to_position i)) [
            | inl e ↦ ground arith
            | inr (p, e) ↦ ground arith
          ];
        };
        outside = λ p out. (refl, refl);
        order_same = λ o. refl;
      }

      step :
          (i : ℕ) (t : Queue × r.State)
          → suc i ≤ end
          → (start ≤ i) × Shuffled start end q t.0
          → (start ≤ suc i) × Shuffled start end q (shuffle_range_step r end i t).0
      step i t lt m =
          let drawn = r.in_range t.1 i end lt in
          (
            omega (arith, m.0),
            swap-Shuffled start end i _ fits m.0 lt (omega (arith, m.0, drawn)) (drawn.1) m.1,
          )
