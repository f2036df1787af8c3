-- ===== src/Playlist/Playing.antt =====
-- src/playlist_control.c and the player's events of src/playlist.c, on a playlist in order.
use mathlib.Core.Path.{subst}
use mpd.Base.{
  if-true, if-false, ℕ, ◌-◌, ◌<◌, ◌≡◌, refl, sym, ap, ◌∙◌, true, false, not, ◌&&◌, Option, none,
  some, ltb, ◌==◌, arith, Bool-cases, Option-cases, inl, inr,
}
use mpd.Queue.{Queue, order_to_position, next_order}
use mpd.Queue.Inv.{IsValid}
use mpd.Queue.Next.{next_order-lt}
use mpd.Queue.Random.{GRand}
use mpd.Queue.Shuffle.{shuffle_order-OnlyOrder}
use mpd.Playlist.{>>=-some, Playlist, Player, tell, stop, shuffle_queue, play_order}
use mpd.Playlist.Edit.{Result, stop_playlist}
use mpd.Playlist.Control.{play_next, next, previous}
use mpd.Playlist.Inv.{IsOk}
use mpd.Playlist.Reshuffle.{shuffle_keeping_current-Reshuffled}
use mpd.Playlist.Delete.{delete_song_at-Left}

-- It returns a playlist in order.
abbrev pub Keeps {ℓ} : {R : Type ℓ} → Option (Playlist R) → Type ℓ
Keeps {R = R} o = (p' : Playlist R) × (o ≡ some p') × IsOk p'

-- The same with a result.
abbrev pub Answers {ℓ} : {R : Type ℓ} → Option (Result × Playlist R) → Type ℓ
Answers {R = R} o = (r : Result) × (p' : Playlist R) × (o ≡ some (r, p')) × IsOk p'

-- Calls, events and counters do not matter.
pub same-IsOk {ℓ} :
    {R : Type ℓ} (p p' : Playlist R)
    → IsOk p
    → p' ≡ record p {
      rand = p'.rand;
      stop_on_error = p'.stop_on_error;
      error_count = p'.error_count;
      calls = p'.calls;
      events = p'.events;
    }
    → IsOk p'
same-IsOk p p' ok e = subst IsOk (sym e) (record {
  valid = ok.valid;
  current_lt = ok.current_lt;
  queued_lt = ok.queued_lt;
  has_current = ok.has_current;
})

module _ (g : GRand) where
  pub stop_playlist-IsOk :
      (p : Playlist g.State)
      → IsOk p
      → (p' : Playlist g.State) × (stop_playlist g p ≡ some p')
        × IsOk p'
        × (p'.playing ≡ false)
        × (p'.queue.length ≡ p.queue.length)
  unfolding stop_playlist
  stop_playlist-IsOk p ok = elim (Bool-cases p.playing) [
    | inr f ↦ (p, simp f refl, ok, f, refl)
    | inl t ↦
        let p1 : Playlist g.State = record (tell stop p) { queued = none; playing = false } in
        elim (Bool-cases p.queue.random) [
          | inr f ↦ (
            p1,
            simp t (simp f refl),
            record {
              valid = ok.valid;
              current_lt = ok.current_lt;
              queued_lt = λ pl. absurd (ground (arith, pl));
              has_current = λ pl. absurd (ground (arith, pl));
            },
            refl,
            refl,
          )
          | inl r ↦ elim (Option-cases p.current) [
            | inl n ↦ absurd (ground (arith, n, t, ok.has_current))
            | inr (c, e) ↦
                let (p', found, s) =
                  shuffle_keeping_current-Reshuffled g p1 c ok.valid r e (ok.current_lt c e) in
                (
                  p',
                  simp t (simp r found),
                  record {
                    valid = s.valid;
                    current_lt = λ o h. ground (arith, s.rest, s.current, s.o_lt);
                    queued_lt = λ pl. absurd (ground (arith, s.rest, pl));
                    has_current = λ pl. absurd (ground (arith, s.rest, pl));
                  },
                  ap (λ (t' : Playlist g.State). t'.playing) s.rest,
                  ap (λ (t' : Playlist g.State). t'.queue.length) s.rest,
                )
          ]
        ]
  ]

  pub play_order-IsOk :
      (p : Playlist g.State) (o : ℕ)
      → IsValid p.queue
      → o < p.queue.length
      → IsOk (play_order g p o)
  unfolding play_order
  play_order-IsOk p o v lt = record {
    valid = v;
    current_lt = λ c e. ground arith;
    queued_lt = λ pl c e. absurd (ground arith);
    has_current = λ pl. refl;
  }

  shuffled-IsOk :
      (p : Playlist g.State) (o : ℕ)
      → IsValid p.queue
      → p.queue.random ≡ true
      → o < p.queue.length
      → IsOk (play_order g (shuffle_queue g p) o)
  unfolding shuffle_queue
  shuffled-IsOk p o v r lt =
      let only = shuffle_order-OnlyOrder g p.queue p.rand v r in
      play_order-IsOk (shuffle_queue g p) o only.valid (ground (arith, only.rest))

  no_current-IsOk :
      (p : Playlist g.State) → IsOk p → p.playing ≡ false → IsOk (record p { current = none })
  no_current-IsOk p ok still = record {
    valid = ok.valid;
    current_lt = λ c e. absurd (ground arith);
    queued_lt = λ pl. absurd (ground (arith, pl, still));
    has_current = λ pl. absurd (ground (arith, pl, still));
  }

  length-play_order :
      (p : Playlist g.State) (o : ℕ) → (play_order g p o).queue.length ≡ p.queue.length
  unfolding play_order
  length-play_order p o = refl

  length-shuffled :
      (p : Playlist g.State) (o : ℕ)
      → IsValid p.queue
      → p.queue.random ≡ true
      → (play_order g (shuffle_queue g p) o).queue.length ≡ p.queue.length
  unfolding play_order shuffle_queue
  length-shuffled p o v r =
      ap (λ (t : Queue). t.length) (shuffle_order-OnlyOrder g p.queue p.rand v r).rest

  -- The length stays.
  pub play_next-Keeps :
      (p : Playlist g.State) (c : ℕ)
      → IsOk p
      → p.playing ≡ true
      → c < p.queue.length
      → (p' : Playlist g.State) × (play_next g p c ≡ some p')
        × IsOk p'
        × (p'.queue.length ≡ p.queue.length)
  unfolding play_next
  play_next-Keeps p c ok pl lt = elim (Option-cases (next_order p.queue c)) [
    | inl n ↦
        let (p1, stopped, ok1, still, len) = stop_playlist-IsOk p ok in
        (
          record p1 { current = none },
          rw (n, play_next) (>>=-some _ stopped),
          no_current-IsOk p1 ok1 still,
          len,
        )
    | inr (o, e) ↦
        let lo : o < p.queue.length = next_order-lt p.queue c o lt e in
        elim (Bool-cases ((o == 0) && p.queue.random)) [
          | inl t ↦ (
            play_order g (shuffle_queue g p) o,
            rw (e, play_next) (simp t refl),
            shuffled-IsOk p o ok.valid (ground (arith, t)) lo,
            length-shuffled p o ok.valid (ground (arith, t)),
          )
          | inr f ↦ (
            play_order g p o,
            rw (e, play_next) (simp f refl),
            play_order-IsOk p o ok.valid lo,
            length-play_order p o,
          )
        ]
  ]

  pub next-Keeps : (pc : Player) (p : Playlist g.State) → IsOk p → Keeps (next g pc p)
  unfolding next order_to_position
  next-Keeps pc p ok = elim (Bool-cases p.playing) [
    | inr f ↦ (p, simp f refl, ok)
    | inl t ↦ elim (Option-cases p.current) [
      | inl n ↦ absurd (ground (arith, n, t, ok.has_current))
      | inr (c, e) ↦
          let p0 : Playlist g.State = record p { stop_on_error = false } in
          let lt : c < p.queue.length = ok.current_lt c e in
          let (p1, played, ok1, len) = play_next-Keeps p0 c (same-IsOk p p0 ok refl) t lt in
          elim (Bool-cases p1.queue.consume) [
            | inr f ↦ (
              p1,
              if-false _ _ (ap not t) ∙ >>=-some _ e ∙ >>=-some _ played ∙ if-false _ _ f,
              ok1,
            )
            | inl k ↦
                let (p2, deleted, left) =
                  delete_song_at-Left g pc p1 (p1.queue.order c) ok1
                    (ok1.valid.permutes.below c (ground (arith, len))) in
                (
                  p2,
                  if-false _ _ (ap not t)
                      ∙ >>=-some _ e
                      ∙ >>=-some _ played
                      ∙ if-true _ _ k
                      ∙ >>=-some _ deleted,
                  left.ok,
                )
          ]
    ]
  ]

  pub previous-Keeps : (p : Playlist g.State) → IsOk p → Keeps (previous g p)
  unfolding previous
  previous-Keeps p ok = elim (Bool-cases p.playing) [
    | inr f ↦ (p, simp f refl, ok)
    | inl t ↦ elim (Option-cases p.current) [
      | inl n ↦ absurd (ground (arith, n, t, ok.has_current))
      | inr (c, e) ↦
          let lt : c < p.queue.length = ok.current_lt c e in
          elim (Bool-cases (ltb 0 c)) [
            | inl l ↦ (
              play_order g p (c - 1),
              simp t (simp e (simp l refl)),
              play_order-IsOk p (c - 1) ok.valid (omega arith),
            )
            | inr z ↦ elim (Bool-cases p.queue.repeat_mode) [
              | inl r ↦ (
                play_order g p (p.queue.length - 1),
                simp t (simp e (simp z (simp r refl))),
                play_order-IsOk p (p.queue.length - 1) ok.valid (omega arith),
              )
              | inr r ↦ (
                play_order g p c,
                simp t (simp e (simp z (simp r refl))),
                play_order-IsOk p c ok.valid lt,
              )
            ]
          ]
    ]
  ]
