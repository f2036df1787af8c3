-- ===== src/Playlist/Keeping.antt =====
-- src/playlist.c and src/playlist_edit.c: clearing, shuffling, moving and the flags, on a playlist in order.
use mathlib.Core.Path.{subst}
use mpd.Base.{
  if-true, if-false, ℕ, zero, suc, ◌+◌, ◌≡◌, refl, sym, ap, ◌∙◌, Bool, false, not, none, some,
  for_up, arith, Bool-cases, Option-cases, inl, inr,
}
use mpd.Queue.{Queue, modify, modify_all}
use mpd.Queue.Edit.{clear}
use mpd.Queue.Inv.{IsValid, modes-IsValid}
use mpd.Queue.Random.{GRand}
use mpd.Queue.Reset.{clear-IsValid}
use mpd.Queue.Version.{modify_lem, modify_all_lem, length-modify, length-modify_all}
use mpd.Playlist.{
  >>=-some, Playlist, emit, playlist, same_flag, set_consume, tag_changed, increment_version_all,
}
use mpd.Playlist.Edit.{forget_song, clear_playlist, increment_version}
use mpd.Playlist.Inv.{IsOk}
use mpd.Playlist.Delete.{increment_version-IsReady}
use mpd.Playlist.Playing.{Keeps, stop_playlist-IsOk}

module _ (g : GRand) where
  pub set_consume-IsOk :
      (p : Playlist g.State) (status : Bool) → IsOk p → IsOk (set_consume g p status)
  unfolding set_consume
  set_consume-IsOk p status ok = elim (Bool-cases (same_flag status p.queue.consume)) [
    | inl t ↦ subst IsOk (sym (if-true _ _ t)) ok
    | inr f ↦ subst IsOk (sym (if-false _ _ f)) (record {
      valid = modes-IsValid p.queue.repeat_mode p.queue.single status ok.valid;
      current_lt = ok.current_lt;
      queued_lt = ok.queued_lt;
      has_current = ok.has_current;
    })
  ]

  -- another queue of the same length
  other_queue-IsOk :
      (p : Playlist g.State) (q : Queue)
      → IsOk p
      → IsValid q
      → q.length ≡ p.queue.length
      → IsOk (emit playlist (record p { queue = q }))
  other_queue-IsOk p q ok v len = record {
    valid = v;
    current_lt = λ c e. ground (arith, len, ok.current_lt c e);
    queued_lt = λ pl o e. ground (arith, len, ok.queued_lt pl o e);
    has_current = ok.has_current;
  }

  pub increment_version_all-IsOk :
      (p : Playlist g.State) → IsOk p → IsOk (increment_version_all g p)
  unfolding increment_version_all
  increment_version_all-IsOk p ok =
      other_queue-IsOk p (modify_all p.queue) ok (modify_all_lem ok.valid).0
        (length-modify_all p.queue ok.valid.version_lt)

  pub tag_changed-Keeps : (p : Playlist g.State) → IsOk p → Keeps (tag_changed g p)
  unfolding tag_changed
  tag_changed-Keeps p ok = elim (Bool-cases p.playing) [
    | inr f ↦ (p, if-true _ _ (ap not f), ok)
    | inl t ↦ elim (Option-cases p.current) [
      | inl n ↦ absurd (ground (arith, n, t, ok.has_current))
      | inr (c, e) ↦ (
        emit playlist (record p { queue = modify p.queue c }),
        if-false _ _ (ap not t) ∙ >>=-some _ e,
        other_queue-IsOk p (modify p.queue c) ok (modify_lem ok.valid c (ok.current_lt c e)).0
            (length-modify p.queue c ok.valid.version_lt),
      )
    ]
  ]

  -- The songs that are forgotten are those of the queue, one after another.
  forget_songs-rest :
      (p : Playlist g.State) (n i : ℕ)
      → for_up n i (forget_song g) p ≡ record p { calls = (for_up n i (forget_song g) p).calls }
  unfolding forget_song for_up
  forget_songs-rest p zero i = refl
  forget_songs-rest p (suc n) i =
      let p1 = forget_song g i p in
      let calls = (for_up n (i + 1) (forget_song g) p1).calls in
      let step : p1 ≡ record p { calls = p1.calls } = ground arith in
      forget_songs-rest p1 n (i + 1)
      ∙ ap (λ (t : Playlist g.State). record t { calls = calls }) step

  -- `playlist_clear` leaves an empty playlist in order, which does not play.
  pub clear_playlist-Keeps :
      (p : Playlist g.State)
      → IsOk p
      → (p' : Playlist g.State) × (clear_playlist g p ≡ some p')
        × IsOk p'
        × (p'.queue.length ≡ 0)
        × (p'.playing ≡ false)
        × (p'.current ≡ none)
  unfolding clear_playlist
  clear_playlist-Keeps p ok =
      let (p1, stopped, ok1, still, len) = stop_playlist-IsOk g p ok in
      let p2 = for_up p1.queue.length 0 (forget_song g) p1 in
      let p3 : Playlist g.State = record p2 { queue = clear p2.queue; current = none } in
      let rest : p2 ≡ record p1 { calls = p2.calls } = forget_songs-rest p1 p1.queue.length 0 in
      let (v, empty, gone) =
        clear-IsValid (subst (λ (t : Playlist g.State). IsValid t.queue) (sym rest) ok1.valid) in
      let (ready, kept, ver) = increment_version-IsReady g p3 none (record {
        valid = v;
        current_lt = λ c e. absurd (ground arith);
        has_current = λ pl. absurd (ground (arith, pl, rest, still));
        agree = λ pl. absurd (ground (arith, pl, rest, still));
      }) in
      let off : (increment_version g p3).playing ≡ false =
        ap (λ (t : Playlist g.State). t.playing) kept
        ∙ ap (λ (t : Playlist g.State). t.playing) rest
        ∙ still in
      (
        increment_version g p3,
        >>=-some _ stopped,
        record {
          valid = ready.valid;
          current_lt = ready.current_lt;
          queued_lt = λ pl. absurd (ground (arith, pl, off));
          has_current = ready.has_current;
        },
        ap (λ (t : Queue). t.length) ver.rest ∙ empty,
        off,
        ap (λ (t : Playlist g.State). t.current) kept,
      )
