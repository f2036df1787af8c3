-- ===== src/Queue/Random.antt =====
-- src/queue.c: shuffling. The generator `GRand` is GLib's.
use mpd.Base.{ℕ, ◌-◌, ◌<◌, ◌≤◌, for_up}
use mpd.Queue.{Queue}
use mpd.Queue.Edit.{swap, swap_order}

-- `g_rand_int_range (rand, begin, end)` returns a number of [begin, end).
pub record GRand : Type 1 where
  pub State : Type 0
  pub int_range : State → ℕ → ℕ → ℕ × State
  pub in_range :
      (s : State) (begin end : ℕ)
      → begin < end
      → (begin ≤ (int_range s begin end).0) × ((int_range s begin end).0 < end)

module _ (g : GRand) where
  -- one round of `queue_shuffle_order`
  unfoldable pub shuffle_order_step : ℕ → ℕ → Queue × g.State → Queue × g.State
  shuffle_order_step end i (q, s) = let (r, s') = g.int_range s i end in (swap_order q i r, s')

  -- `queue_shuffle_order`
  unfoldable pub shuffle_order : Queue → g.State → Queue × g.State
  unfolding shuffle_order_step swap_order
  shuffle_order q s = for_up q.length 0 (shuffle_order_step q.length) (q, s)

  -- `queue_shuffle_order_last`
  unfoldable pub shuffle_order_last : Queue → g.State → ℕ → ℕ → Queue × g.State
  unfolding swap_order
  shuffle_order_last q s start end =
      let (r, s') = g.int_range s start end in (swap_order q (end - 1) r, s')

  -- one round of `queue_shuffle_range`
  unfoldable pub shuffle_range_step : ℕ → ℕ → Queue × g.State → Queue × g.State
  shuffle_range_step end i (q, s) = let (r, s') = g.int_range s i end in (swap q i r, s')

  -- `queue_shuffle_range`
  unfoldable pub shuffle_range : Queue → g.State → ℕ → ℕ → Queue × g.State
  unfolding shuffle_range_step swap
  shuffle_range q s start end = for_up (end - start) start (shuffle_range_step end) (q, s)
