-- ===== src/Playlist/Syncing.antt =====
-- src/playlist.c: the events of the player, on a playlist in order.
use mathlib.Core.Path.{subst}
use mpd.Base.{
  if-true, if-false, ℕ, ◌+◌, ◌<◌, ◌≡◌, refl, sym, ap, ◌∙◌, true, not, ◌&&◌, ◌||◌, none, some, leb,
  if◌then◌else◌, arith, Bool-cases, Option-cases, inl, inr,
}
use mpd.Queue.{order_to_position}
use mpd.Queue.Inv.{IsValid}
use mpd.Queue.Random.{GRand}
use mpd.Playlist.{
  >>=-some, Playlist, Player, is_some, is_stopped, tell, emit, set_pause, player,
  update_queued_song,
}
use mpd.Playlist.Control.{resume_playback, song_started, sync}
use mpd.Playlist.Inv.{IsOk}
use mpd.Playlist.Update.{update_queued_song-Updated}
use mpd.Playlist.Delete.{delete_song_at-Left}
use mpd.Playlist.Playing.{next-Keeps, stop_playlist-IsOk, Keeps, same-IsOk}

module _ (g : GRand) where
  pub resume_playback-Keeps :
      (pc : Player) (p : Playlist g.State) → IsOk p → Keeps (resume_playback g pc p)
  unfolding resume_playback
  resume_playback-Keeps pc p ok =
      let p1 : Playlist g.State = record p {
        error_count = if pc.has_error then p.error_count + 1 else 0;
      } in
      let ok1 : IsOk p1 = same-IsOk p p1 ok refl in
      elim (Bool-cases (
        (p1.stop_on_error && pc.has_error)
        || (pc.error_is_fatal || leb p1.queue.length p1.error_count))) [
          | inl t ↦
              let (p2, stopped, ok2, _, _) = stop_playlist-IsOk g p1 ok1 in
              (p2, if-true _ _ t ∙ stopped, ok2)
          | inr f ↦ let (p2, went, ok2) = next-Keeps g pc p1 ok1 in (p2, if-false _ _ f ∙ went, ok2)
        ]

  -- a song is queued, which the player has started
  pub song_started-Keeps :
      (pc : Player) (p : Playlist g.State) (o : ℕ)
      → IsOk p
      → p.playing ≡ true
      → p.queued ≡ some o
      → Keeps (song_started g pc p)
  unfolding song_started order_to_position
  song_started-Keeps pc p o ok pl e =
      let p1 : Playlist g.State = record p { current = p.queued; queued = none } in
      let p2 : Playlist g.State =
        if p1.queue.single && not p1.queue.repeat_mode then tell (set_pause true) p1 else p1 in
      let rest : p2 ≡ record p1 { calls = p2.calls } = ground arith in
      let lo : o < p.queue.length = ok.queued_lt pl o e in
      let ok1 : IsOk p1 = record {
        valid = ok.valid;
        current_lt = λ c h. ground (arith, e, lo);
        queued_lt = λ t c h. absurd (ground arith);
        has_current = λ t. ground (arith, e);
      } in
      let ok2 : IsOk p2 = subst IsOk (sym rest) (record {
        valid = ok1.valid;
        current_lt = ok1.current_lt;
        queued_lt = ok1.queued_lt;
        has_current = ok1.has_current;
      }) in
      elim (Option-cases p.current) [
        | inl n ↦ absurd (ground (arith, n, pl, ok.has_current))
        | inr (c, s) ↦ elim (Bool-cases p2.queue.consume) [
          | inr f ↦
              (emit player p2, >>=-some _ (if-false _ _ f), same-IsOk p2 (emit player p2) ok2 refl)
          | inl k ↦
              let same : p2.queue ≡ p.queue = ap (λ (t : Playlist g.State). t.queue) rest in
              let lt : p2.queue.order c < p2.queue.length =
                ok2.valid.permutes.below c (ground (arith, same, ok.current_lt c s)) in
              let (p3, deleted, left) = delete_song_at-Left g pc p2 (p2.queue.order c) ok2 lt in
              (
                emit player p3,
                >>=-some _ (if-true _ _ k ∙ >>=-some _ s ∙ >>=-some _ deleted),
                same-IsOk p3 (emit player p3) left.ok refl,
              )
        ]
      ]

  -- While playing with no song queued, `playlist_update_queued_song` may be told so.
  nothing_queued-Keeps :
      (p : Playlist g.State)
      → IsValid p.queue
      → ((c : ℕ) → p.current ≡ some c → c < p.queue.length)
      → (p.playing ≡ true → is_some p.current ≡ true)
      → p.queued ≡ none
      → Keeps (update_queued_song g p none)
  nothing_queued-Keeps p v lt has n =
      let (p', updated, u) = update_queued_song-Updated g p none (record {
        valid = v;
        current_lt = lt;
        has_current = has;
        agree = λ pl. ground (arith, n);
      }) in
      (p', updated, u.ok)

  sync_queued-Keeps :
      (later : Player) (p : Playlist g.State)
      → IsOk p
      → Keeps (
          if not later.has_next_song && not (is_some p.queued)
          then update_queued_song g p none
          else some p)
  sync_queued-Keeps later p ok =
      elim (Bool-cases (not later.has_next_song && not (is_some p.queued))) [
        | inr f ↦ (p, if-false _ _ f, ok)
        | inl t ↦
            let (p', updated, ok') =
              nothing_queued-Keeps p ok.valid ok.current_lt ok.has_current (ground (arith, t)) in
            (p', if-true _ _ t ∙ updated, ok')
      ]

  pub sync-Keeps : (pc later : Player) (p : Playlist g.State) → IsOk p → Keeps (sync g pc later p)
  unfolding sync
  sync-Keeps pc later p ok = elim (Bool-cases p.playing) [
    | inr f ↦ (p, if-true _ _ (ap not f), ok)
    | inl t ↦ elim (Bool-cases (is_stopped pc.state)) [
      | inl s ↦
          let (p1, resumed, ok1) = resume_playback-Keeps pc p ok in
          (p1, if-false _ _ (ap not t) ∙ if-true _ _ s ∙ resumed, ok1)
      | inr s ↦ elim (Bool-cases (not pc.has_next_song && is_some p.queued)) [
        | inr f ↦
            let (p2, synced, ok2) = sync_queued-Keeps later p ok in
            (
              p2,
              if-false _ _ (ap not t) ∙ if-false _ _ s ∙ >>=-some _ (if-false _ _ f) ∙ synced,
              ok2,
            )
        | inl q ↦ elim (Option-cases p.queued) [
          | inl n ↦ absurd (ground (arith, n, q))
          | inr (o, e) ↦
              let (p1, started, ok1) = song_started-Keeps pc p o ok t e in
              let (p2, synced, ok2) = sync_queued-Keeps later p1 ok1 in
              (
                p2,
                if-false _ _ (ap not t)
                    ∙ if-false _ _ s
                    ∙ >>=-some _ (if-true _ _ q ∙ started)
                    ∙ synced,
                ok2,
              )
        ]
      ]
    ]
  ]
