-- ===== src/Playlist/Reshuffle.antt =====
-- src/playlist.c: the shuffling that keeps the current song, in `playlist_update_queued_song`.
use mpd.Base.{ℕ, ◌<◌, ◌≡◌, refl, ap, true, some, arith}
use mpd.Queue.{Queue, order_to_position}
use mpd.Queue.Inv.{IsValid}
use mpd.Queue.Find.{position_to_order-finds}
use mpd.Queue.Random.{GRand, shuffle_order}
use mpd.Queue.Shuffle.{shuffle_order-OnlyOrder}
use mpd.Playlist.{Playlist, shuffle_queue, shuffle_keeping_current}

module _ (g : GRand) where
  -- What `shuffle_keeping_current` has done: only the play order may be another one, and `current` is
  -- the order number of the same song.
  pub record Reshuffled (p : Playlist g.State) (c : ℕ) (p' : Playlist g.State) : Type 0 where
    pub rest : p' ≡ record p {
      queue = record p.queue { order = p'.queue.order };
      rand = p'.rand;
      current = p'.current;
    }
    pub valid : IsValid p'.queue
    pub o : ℕ
    pub current : p'.current ≡ some o
    pub o_lt : o < p.queue.length
    pub same : p'.queue.order o ≡ p.queue.order c

  -- On a valid queue in random mode with a current song, shuffling the whole order and looking the
  -- current song up again returns, keeps the queue valid, changes nothing but the play order, the
  -- generator and `current`, and `current` is then the order number of the same position.
  pub shuffle_keeping_current-Reshuffled :
      (p : Playlist g.State) (c : ℕ)
      → IsValid p.queue
      → p.queue.random ≡ true
      → p.current ≡ some c
      → c < p.queue.length
      → (p' : Playlist g.State) × (shuffle_keeping_current g p ≡ some p') × Reshuffled p c p'
  unfolding shuffle_keeping_current shuffle_queue order_to_position
  shuffle_keeping_current-Reshuffled p c v m e lt =
      let only = shuffle_order-OnlyOrder g p.queue p.rand v m in
      let q = (shuffle_order g p.queue p.rand).0 in
      let (o, found, lo, at) =
        position_to_order-finds only.valid (p.queue.order c)
          (ground (arith, only.rest, v.permutes.below c)) in
      (
        record p { queue = q; rand = (shuffle_order g p.queue p.rand).1; current = some o },
        simp (e, found),
        record {
          rest =
              ap
                (λ (t : Queue). record p {
                  queue = t;
                  rand = (shuffle_order g p.queue p.rand).1;
                  current = some o;
                })
                only.rest;
          valid = only.valid;
          o = o;
          current = refl;
          o_lt = ground (arith, only.rest);
          same = at;
        },
      )
