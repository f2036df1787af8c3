-- ===== src/Playlist/Random.antt =====
-- src/playlist.c: `playlist_set_random`.
use mpd.Base.{
  ℕ, ◌<◌, ◌≡◌, refl, ap, ◌∙◌, Bool, true, false, Option, none, some, if◌then◌else◌, arith,
  Bool-cases, Option-cases, inl, inr,
}
use mpd.Queue.{Queue, order_to_position}
use mpd.Queue.Edit.{swap_order}
use mpd.Queue.Inv.{IsValid}
use mpd.Queue.Find.{position_to_order-finds}
use mpd.Queue.Random.{GRand, shuffle_order}
use mpd.Queue.Shuffle.{shuffle_order-OnlyOrder}
use mpd.Queue.Swap.{swap_order-IsValid, swap_order_rest}
use mpd.Queue.Reset.{restore_order-IsValid}
use mpd.Playlist.{
  Playlist, ◌>>=◌, emit, options, same_flag, shuffle_queue, order_playlist, start_random,
  set_random, get_queued_song, update_queued_song,
}
use mpd.Playlist.Inv.{IsOk, IsReady}
use mpd.Playlist.Modes.{emit-IsOk}
use mpd.Playlist.Update.{update_queued_song-Updated, get_queued_song-IsReady}

random_on-IsValid : {q : Queue} → IsValid q → IsValid (record q { random = true })
random_on-IsValid v = record {
  fits = v.fits;
  small = v.small;
  version_lt = v.version_lt;
  version_pos = v.version_pos;
  has_ids = record {
    in_range = v.in_range;
    id_at = v.id_at;
    position_lt = v.position_lt;
    id_of = v.id_of;
  };
  has_order = record {
    permutes = record { below = v.permutes.below; injective = v.permutes.injective };
    in_place = λ m o lt. absurd (ground (arith, m));
  };
}

swap_first : (q : Queue) (o : ℕ) → (swap_order q 0 o).order 0 ≡ q.order o
unfolding swap_order
swap_first q o = ground arith

module _ (g : GRand) where
  -- What has been done before `playlist_update_queued_song`: the order and the order number of the
  -- current song are other ones, for the new mode.
  pub record Turned (p : Playlist g.State) (status : Bool) (p' : Playlist g.State) : Type 0 where
    pub valid : IsValid p'.queue
    pub rest : p' ≡ record p {
      queue = record p.queue { random = status; order = p'.queue.order };
      rand = p'.rand;
      current = p'.current;
    }
    pub current_lt : (c : ℕ) → p'.current ≡ some c → c < p.queue.length
    pub current_song :
        p.playing ≡ true
        → (c : ℕ) → p.current ≡ some c
        → (o : ℕ) × (p'.current ≡ some o) × (p'.queue.order o ≡ p.queue.order c)

  turn_off :
      (p : Playlist g.State)
      → IsOk p
      → Turned p false (order_playlist g (record p { queue = record p.queue { random = false } }))
  unfolding order_playlist order_to_position
  turn_off p ok =
      let (v, in_order, rest) = restore_order-IsValid false ok.valid in
      elim (Option-cases p.current) [
        | inl n ↦ record {
          valid = ground (arith, n, v);
          rest = ground (arith, n, rest);
          current_lt = λ c e. absurd (ground (arith, n));
          current_song = λ pl c e. absurd (ground (arith, n));
        }
        | inr (c, s) ↦ record {
          valid = ground (arith, s, v);
          rest = ground (arith, s, rest);
          current_lt = λ o e. ground (arith, s, ok.valid.permutes.below c, ok.current_lt c s);
          current_song = λ pl o e.
              let lt : p.queue.order c < p.queue.length =
                ok.valid.permutes.below c (ok.current_lt c s) in
              (
                p.queue.order c,
                ground (arith, s, e),
                ground (arith, s, e, in_order (p.queue.order c) lt),
              );
        }
      ]

  turn_on :
      (p : Playlist g.State)
      → IsOk p
      → (p' : Playlist g.State) × (start_random g
            (record p { queue = record p.queue { random = true } })
          ≡ some p')
        × Turned p true p'
  unfolding start_random shuffle_queue order_to_position
  turn_on p ok =
      let q : Queue = record p.queue { random = true } in
      let only = shuffle_order-OnlyOrder g q p.rand (random_on-IsValid ok.valid) refl in
      let (q', s) = shuffle_order g q p.rand in
      let len : q'.length ≡ p.queue.length = ap (λ (t : Queue). t.length) only.rest in
      elim (Bool-cases p.playing) [
        | inr stop ↦ (
          record p { queue = q'; rand = s; current = none },
          ground (arith, stop),
          record {
            valid = only.valid;
            rest = ap (λ (t : Queue). record p { queue = t; rand = s; current = none }) only.rest;
            current_lt = λ c e. absurd (ground arith);
            current_song = λ pl c e. absurd (ground (arith, pl, stop));
          },
        )
        | inl pl ↦ elim (Option-cases p.current) [
          | inl n ↦ (
            record p { queue = q'; rand = s; current = none },
            ground (arith, pl, n),
            record {
              valid = only.valid;
              rest = ap (λ (t : Queue). record p { queue = t; rand = s; current = none }) only.rest;
              current_lt = λ c e. absurd (ground arith);
              current_song = λ pl c e. absurd (ground (arith, n));
            },
          )
          | inr (c, e) ↦
              let lc : c < p.queue.length = ok.current_lt c e in
              let (o, found, lo, at) =
                position_to_order-finds only.valid (p.queue.order c)
                  (ground (arith, len, ok.valid.permutes.below c lc)) in
              let mode : q'.random ≡ true = ap (λ (t : Queue). t.random) only.rest in
              (
                record p { queue = swap_order q' 0 o; rand = s; current = some 0 },
                simp pl (simp e (simp found refl)),
                record {
                  valid = swap_order-IsValid only.valid 0 o (ground (arith, lo)) lo mode;
                  rest =
                      ap (λ (t : Queue). record p { queue = t; rand = s; current = some 0 })
                        (swap_order_rest q' 0 o
                          ∙ ap (λ (t : Queue). record t { order = (swap_order q' 0 o).order })
                              only.rest);
                  current_lt = λ c e. ground (arith, lc);
                  current_song =
                      λ pl c' e'. (0, refl, swap_first q' o ∙ at ∙ ground (arith, e, e'));
                },
              )
        ]
      ]

  Turned-IsReady :
      (p p' : Playlist g.State) (status : Bool)
      → IsOk p
      → Turned p status p'
      → IsReady p' (get_queued_song g p)
  Turned-IsReady p p' status ok t =
      let before = get_queued_song-IsReady g p ok in
      record {
        valid = t.valid;
        current_lt = λ c e. ground (arith, t.rest, t.current_lt c e);
        has_current = λ pl. elim (Option-cases p.current) [
          | inl n ↦ absurd (ground (arith, n, t.rest, ok.has_current))
          | inr (c, e) ↦
              let (o, found, at) = t.current_song (ground (arith, t.rest)) c e in
              ground (arith, found)
        ];
        agree = λ pl. ground (arith, t.rest, before.agree);
      }

  -- What a change of "random" leaves: a playlist in order in the new mode, with every song at its
  -- position, and, while playing, the same current song.
  pub record Randomized (p : Playlist g.State) (status : Bool) (p' : Playlist g.State)
      : Type 0 where
    pub ok : IsOk p'
    pub queue_same : p'.queue ≡ record p.queue { random = status; order = p'.queue.order }
    pub still_playing : p'.playing ≡ p.playing
    pub current_song :
        p.playing ≡ true
        → (c : ℕ) → p.current ≡ some c
        → (o : ℕ) × (p'.current ≡ some o) × (p'.queue.order o ≡ p.queue.order c)

  finish_random :
      (p p1 : Playlist g.State) (status : Bool)
      → IsOk p
      → Turned p status p1
      → (p' : Playlist g.State) × (update_queued_song g p1 (get_queued_song g p) ≡ some p')
        × Randomized p status (emit options p')
  finish_random p p1 status ok t =
      let prev = get_queued_song g p in
      let (p', updated, u) =
        update_queued_song-Updated g p1 prev (Turned-IsReady p p1 status ok t) in
      (
        p',
        updated,
        record {
          ok = emit-IsOk g p' u.ok;
          queue_same = ground (arith, u.same_rest, t.rest);
          still_playing = ground (arith, u.same_rest, t.rest);
          current_song = λ pl c e.
              let (o1, found1, at1) = t.current_song pl c e in
              let (o, found, at) = u.current_song o1 found1 in (o, found, at ∙ at1);
        },
      )

  -- the chain of `playlist_set_random`, from its steps
  set_random-chain :
      (p p1 p' : Playlist g.State) (status : Bool)
      → same_flag status p.queue.random ≡ false
      → (if status
          then start_random g (record p { queue = record p.queue { random = status } })
          else some (order_playlist g (record p { queue = record p.queue { random = status } })))
        ≡ some p1
      → update_queued_song g p1 (get_queued_song g p) ≡ some p'
      → set_random g p status ≡ some (emit options p')
  unfolding set_random
  set_random-chain p p1 p' status changed turned updated =
      let p0 : Playlist g.State = record p { queue = record p.queue { random = status } } in
      let first : Option (Playlist g.State) =
        if status then start_random g p0 else some (order_playlist g p0) in
      let after = λ (r : Playlist g.State).
        update_queued_song g r (get_queued_song g p) >>= λ r'. some (emit options r') in
      ap (λ (b : Bool). if b then some p else (first >>= after)) changed
      ∙ ap (λ (r : Option (Playlist g.State)). r >>= after) turned
      ∙ ap (λ (r : Option (Playlist g.State)). r >>= λ r'. some (emit options r')) updated

  -- On a playlist in order `playlist_set_random` with another value than the present one returns, and
  -- leaves a playlist in order in that mode, with every song and id at its position and, while playing,
  -- the same current song.
  pub set_random-Randomized :
      (p : Playlist g.State) (status : Bool)
      → IsOk p
      → same_flag status p.queue.random ≡ false
      → (p' : Playlist g.State) × (set_random g p status ≡ some p') × Randomized p status p'
  set_random-Randomized p true ok changed =
      let (p1, started, t) = turn_on p ok in
      let (p', updated, r) = finish_random p p1 true ok t in
      (emit options p', set_random-chain p p1 p' true changed started updated, r)
  set_random-Randomized p false ok changed =
      let p1 = order_playlist g (record p { queue = record p.queue { random = false } }) in
      let (p', updated, r) = finish_random p p1 false ok (turn_off p ok) in
      (emit options p', set_random-chain p p1 p' false changed refl updated, r)
