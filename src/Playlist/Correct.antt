-- ===== src/Playlist/Correct.antt =====
-- src/playlist_edit.c: the correction of the order and of `current` in `playlist_swap_songs`.

use mpd.Base.{
  ℕ, ◌<◌, ◌≡◌, refl, sym, ap, ◌∙◌, true, false, Option, none, some, arith, Bool-cases, Option-cases,
  inl, inr,
}
use mpd.Queue.{Queue, Song, position_to_order}
use mpd.Queue.Edit.{swap, swap_order}
use mpd.Queue.Inv.{IsValid}
use mpd.Queue.Find.{position_to_order-finds}
use mpd.Queue.Random.{GRand}
use mpd.Queue.Swap.{transposed, swap-IsValid, swap_order-IsValid, swap_order_rest, order-swap}
use mpd.Playlist.{Playlist, is_some}
use mpd.Playlist.Edit.{fix_swapped}
use mpd.Playlist.Inv.{IsOk, IsReady}

module _ (g : GRand) where
  -- What the correction of the order or of `current` has done, `p` being the playlist before the swap.
  pub record Corrected (p : Playlist g.State) (a b : ℕ) (p' : Playlist g.State) : Type 0 where
    pub valid : IsValid p'.queue
    pub rest : p' ≡ record p {
      queue = record (swap p.queue a b) { order = p'.queue.order };
      current = p'.current;
    }
    pub current_lt : (c : ℕ) → p'.current ≡ some c → c < p.queue.length
    pub some_same : is_some p'.current ≡ is_some p.current
    pub current_song :
        (c : ℕ)
        → p.current ≡ some c
        → (o : ℕ) × (p'.current ≡ some o) × (p'.queue.order o ≡ transposed a b (p.queue.order c))

  swap_current : ℕ → ℕ → Option ℕ → Option ℕ
  swap_current a b none = none
  swap_current a b (some c) = some (transposed a b c)

  swap_rest :
      (q : Queue) (a b : ℕ) → (swap q a b).length ≡ q.length × (swap q a b).random ≡ q.random
  unfolding swap
  swap_rest q a b = (refl, refl)

  order-swap_order :
      (q : Queue) (x y o : ℕ) → (swap_order q x y).order o ≡ q.order (transposed x y o)
  unfolding swap_order
  order-swap_order q x y o = ground arith

  -- outside random mode
  correct_current :
      (p : Playlist g.State) (a b : ℕ)
      → p.queue.random ≡ false
      → fix_swapped g p a b ≡ some (record p { current = swap_current a b p.current })
  unfolding fix_swapped swap_current
  correct_current p a b m = elim (Option-cases p.current) [
    | inl n ↦ ground (arith, n, m)
    | inr (c, e) ↦ ground (arith, e, m)
  ]

  swap_current-some : (a b : ℕ) (c : Option ℕ) → is_some (swap_current a b c) ≡ is_some c
  unfolding swap_current
  swap_current-some a b none = refl
  swap_current-some a b (some c) = refl

  swap_current-lt :
      (a b n : ℕ) (c : Option ℕ)
      → a < n
      → b < n
      → ((k : ℕ) → c ≡ some k → k < n)
      → (k : ℕ) → swap_current a b c ≡ some k
      → k < n
  unfolding swap_current
  swap_current-lt a b n none la lb h k e = absurd (ground arith)
  swap_current-lt a b n (some c) la lb h k e = ground (arith, h c refl)

  swap_current-is :
      (a b k : ℕ) (c : Option ℕ) → c ≡ some k → swap_current a b c ≡ some (transposed a b k)
  unfolding swap_current
  swap_current-is a b k c e = ap (swap_current a b) e

  module _ (p : Playlist g.State) (a b : ℕ) (ok : IsOk p) (la : a < p.queue.length)
      (lb : b < p.queue.length) where
    -- the queue with the two songs exchanged
    abbrev pub exchanged : Playlist g.State
    exchanged = record p { queue = swap p.queue a b }

    exchanged-IsValid : IsValid (swap p.queue a b)
    exchanged-IsValid = swap-IsValid ok.valid a b la lb

    fix_in_order :
        p.queue.random ≡ false
        → (p' : Playlist g.State) × (fix_swapped g exchanged a b ≡ some p') × Corrected p a b p'
    fix_in_order m =
        let (len, mode) = swap_rest p.queue a b in
        (
          record exchanged { current = swap_current a b p.current },
          correct_current exchanged a b (mode ∙ m),
          record {
            valid = exchanged-IsValid;
            rest = refl;
            current_lt = swap_current-lt a b p.queue.length p.current la lb ok.current_lt;
            some_same = swap_current-some a b p.current;
            current_song = λ c e.
                let lc : c < p.queue.length = ok.current_lt c e in
                (
                  transposed a b c,
                  swap_current-is a b c p.current e,
                  exchanged-IsValid.in_place (mode ∙ m) (transposed a b c) (ground (arith, len))
                      ∙ ap (transposed a b) (sym (ok.valid.in_place m c lc)),
                );
          },
        )

    fix_at_random :
        p.queue.random ≡ true
        → (p' : Playlist g.State) × (fix_swapped g exchanged a b ≡ some p') × Corrected p a b p'
    unfolding fix_swapped position_to_order swap_order
    fix_at_random m =
        let (len, mode) = swap_rest p.queue a b in
        let v = exchanged-IsValid in
        let (o1, found1, l1, at1) = position_to_order-finds v a (ground (arith, len)) in
        let (o2, found2, l2, at2) = position_to_order-finds v b (ground (arith, len)) in
        let q : Queue = swap p.queue a b in
        (
          record p { queue = swap_order q o1 o2 },
          rw (mode ∙ m) (rw found1 (rw found2 refl)),
          record {
            valid = swap_order-IsValid v o1 o2 l1 l2 (mode ∙ m);
            rest = ap (λ (t : Queue). record p { queue = t }) (swap_order_rest q o1 o2);
            current_lt = ok.current_lt;
            some_same = refl;
            current_song = λ c e.
                let lc : c < q.length = ground (arith, len, ok.current_lt c e) in
                (
                  c,
                  e,
                  order-swap_order q o1 o2 c
                      ∙ ground (
                        arith,
                        at1,
                        at2,
                        order-swap p.queue a b c,
                        v.permutes.injective c o1 lc l1,
                        v.permutes.injective c o2 lc l2,
                      ),
                );
          },
        )

    pub fix_swapped-Corrected :
        (p' : Playlist g.State) × (fix_swapped g exchanged a b ≡ some p') × Corrected p a b p'
    fix_swapped-Corrected = elim (Bool-cases p.queue.random) [
      | inl m ↦ fix_at_random m
      | inr m ↦ fix_in_order m
    ]

  pub Corrected-IsReady :
      (p p' : Playlist g.State) (a b : ℕ) (prev : Option Song)
      → Corrected p a b p'
      → IsReady p prev
      → IsReady p' prev
  Corrected-IsReady p p' a b prev k ready =
      let (len, mode) = swap_rest p.queue a b in
      record {
        valid = k.valid;
        current_lt = λ c e. ground (arith, k.rest, len, k.current_lt c e);
        has_current = λ pl. ground (arith, k.rest, k.some_same, ready.has_current);
        agree = λ pl. ground (arith, k.rest, ready.agree);
      }
