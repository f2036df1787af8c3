-- ===== src/Playlist/Reached.antt =====
-- The playlists that are reached by sound requests: src/playlist.c, src/playlist_edit.c and
-- src/playlist_control.c together.
use mathlib.Core.Path.{subst}
use mpd.Base.{
  if-true, uint_mod, Array, ℕ, ◌*◌, ◌<◌, ◌≡◌, refl, sym, ◌∙◌, Bool, true, false, Option, some,
  arith, Bool-cases, inl, inr,
}
use mpd.Queue.{Item, hash_mult}
use mpd.Queue.Random.{GRand}
use mpd.Queue.Reset.{init-IsValid}
use mpd.Playlist.{Playlist, same_flag, set_repeat, set_single, set_random}
use mpd.Playlist.Edit.{position, swap_songs, delete_song_at, delete_range}
use mpd.Playlist.Move.{move_songs, move_id}
use mpd.Playlist.Shuffle.{delete_id, swap_songs_id}
use mpd.Playlist.Control.{play_song, play_id, seek_song}
use mpd.Playlist.Inv.{IsOk}
use mpd.Playlist.Modes.{set_repeat-Switched, set_single-Switched}
use mpd.Playlist.Random.{set_random-Randomized}
use mpd.Playlist.Playing.{Keeps, stop_playlist-IsOk, next-Keeps, previous-Keeps}
use mpd.Playlist.Syncing.{sync-Keeps}
use mpd.Playlist.Starting.{play_song-Answers, play_id-Answers, seek_song-Answers}
use mpd.Playlist.Keeping.{
  set_consume-IsOk, increment_version_all-IsOk, tag_changed-Keeps, clear_playlist-Keeps,
}
use mpd.Playlist.Shuffling.{shuffle-Keeps}
use mpd.Playlist.Requests.{
  Request, play, play_by_id, stop_playing, go_back, clear_all, touch_current, touch_all, go_on,
  sought, synced, add, swap_two, swap_ids, shuffle_songs, remove, remove_id, remove_range,
  move_block, move_one, repeat_mode, single, consume, random, IsSound, perform, init_playlist,
  Reached, here, next_to,
}
use mpd.Playlist.Answering.{
  add-Keeps, delete_song_at-Answers, move_id-Answers, swap_songs_id-Answers, Answers-Keeps,
  delete_id-Answers, delete_range-Answers, swap_songs-Answers, move_block-Answers,
}

same_state {ℓ} : {A : Type ℓ} {a b : A} → some a ≡ some b → a ≡ b
same_state e = cc

module _ (g : GRand) where
  same_repeat :
      (p : Playlist g.State) (status : Bool)
      → same_flag status p.queue.repeat_mode ≡ true
      → set_repeat g p status ≡ some p
  unfolding set_repeat
  same_repeat p status t = if-true _ _ t

  same_single :
      (p : Playlist g.State) (status : Bool)
      → same_flag status p.queue.single ≡ true
      → set_single g p status ≡ some p
  unfolding set_single
  same_single p status t = if-true _ _ t

  same_random :
      (p : Playlist g.State) (status : Bool)
      → same_flag status p.queue.random ≡ true
      → set_random g p status ≡ some p
  unfolding set_random
  same_random p status t = if-true _ _ t

  flag-Keeps :
      (p : Playlist g.State) (f : Bool → Option (Playlist g.State)) (old status : Bool)
      → IsOk p
      → (same_flag status old ≡ true → f status ≡ some p)
      → (same_flag status old ≡ false → Keeps (f status))
      → Keeps (f status)
  flag-Keeps p f old status ok same other = elim (Bool-cases (same_flag status old)) [
    | inl t ↦ (p, same t, ok)
    | inr d ↦ other d
  ]

  -- On a playlist in order every sound request returns and leaves a playlist in order.
  pub perform-Keeps :
      (r : Request) (p : Playlist g.State) → IsOk p → IsSound p r → Keeps (perform g r p)
  unfolding perform
  perform-Keeps (play song) p ok s =
      Answers-Keeps g (play_song g p song) (play_song-Answers g p song ok)
  perform-Keeps (play_by_id id) p ok s =
      Answers-Keeps g (play_id g p id) (play_id-Answers g p id ok)
  perform-Keeps stop_playing p ok s =
      let (p', e, ok', _, _) = stop_playlist-IsOk g p ok in (p', e, ok')
  perform-Keeps go_back p ok s = previous-Keeps g p ok
  perform-Keeps clear_all p ok s =
      let (p', e, ok', _, _, _) = clear_playlist-Keeps g p ok in (p', e, ok')
  perform-Keeps touch_current p ok s = tag_changed-Keeps g p ok
  perform-Keeps touch_all p ok s = (_, refl, increment_version_all-IsOk g p ok)
  perform-Keeps (go_on pc) p ok s = next-Keeps g pc p ok
  perform-Keeps (sought song seek_time) p ok s =
      Answers-Keeps g (seek_song g true p song seek_time) (seek_song-Answers g p song seek_time ok)
  perform-Keeps (synced pc later) p ok s = sync-Keeps g pc later p ok
  perform-Keeps (add song) p ok s = add-Keeps g p song ok
  perform-Keeps (swap_two a b) p ok s =
      Answers-Keeps g (swap_songs g p a b) (swap_songs-Answers g p a b ok)
  perform-Keeps (swap_ids a b) p ok s =
      Answers-Keeps g (swap_songs_id g p a b) (swap_songs_id-Answers g p a b ok)
  perform-Keeps (shuffle_songs start end) p ok s = shuffle-Keeps g p start end ok s
  perform-Keeps (remove pc song) p ok s =
      Answers-Keeps g (delete_song_at g pc p song) (delete_song_at-Answers g pc p song ok)
  perform-Keeps (remove_id pc id) p ok s =
      Answers-Keeps g (delete_id g pc p id) (delete_id-Answers g pc p id ok)
  perform-Keeps (remove_range pc start end) p ok s =
      Answers-Keeps g (delete_range g pc p start end) (delete_range-Answers g pc p start end ok)
  perform-Keeps (move_block start end to) p ok (lt, le, small) =
      Answers-Keeps g (move_songs g p start end (position to))
        (move_block-Answers g p start end to ok lt le small)
  perform-Keeps (move_one id to) p ok s =
      Answers-Keeps g (move_id g p id to) (move_id-Answers g p id to ok s)
  perform-Keeps (repeat_mode status) p ok s =
      flag-Keeps p (set_repeat g p) p.queue.repeat_mode status ok (same_repeat p status)
        λ d. let (p', e, w) = set_repeat-Switched g p status ok d in (p', e, w.ok)
  perform-Keeps (single status) p ok s =
      flag-Keeps p (set_single g p) p.queue.single status ok (same_single p status)
        λ d. let (p', e, w) = set_single-Switched g p status ok d in (p', e, w.ok)
  perform-Keeps (consume status) p ok s = (_, refl, set_consume-IsOk g p status ok)
  perform-Keeps (random status) p ok s =
      flag-Keeps p (set_random g p) p.queue.random status ok (same_random p status)
        λ d. let (p', e, w) = set_random-Randomized g p status ok d in (p', e, w.ok)

  init_playlist-IsOk :
      (max_length : ℕ) (items : Array Item) (order : Array ℕ) (cur : ℕ) (s : g.State)
      → max_length * hash_mult < uint_mod
      → IsOk (init_playlist g max_length items order cur s)
  unfolding init_playlist
  init_playlist-IsOk max_length items order cur s small = record {
    valid = init-IsValid max_length items order cur small;
    current_lt = λ c e. absurd (ground arith);
    queued_lt = λ pl. absurd (ground (arith, pl));
    has_current = λ pl. absurd (ground (arith, pl));
  }

  Reached-IsOk : {p p' : Playlist g.State} → IsOk p → Reached g p p' → IsOk p'
  Reached-IsOk ok here = ok
  Reached-IsOk ok (next_to {p1} {p2} r before sound done) =
      let (p3, e, ok1) = perform-Keeps r p1 (Reached-IsOk ok before) sound in
      subst IsOk (same_state (sym e ∙ done)) ok1

  -- Every playlist that sound requests reach from the one that `playlist_init` makes is in order, if the ids
  -- fit an `unsigned`; and there every sound request returns, and leaves a playlist in order.
  pub Reached-Keeps :
      (max_length : ℕ) (items : Array Item) (order : Array ℕ) (cur : ℕ) (s : g.State)
      (p : Playlist g.State) (r : Request)
      → max_length * hash_mult < uint_mod
      → Reached g (init_playlist g max_length items order cur s) p
      → IsSound p r
      → IsOk p × Keeps (perform g r p)
  Reached-Keeps max_length items order cur s p r small reached sound =
      let ok = Reached-IsOk (init_playlist-IsOk max_length items order cur s small) reached in
      (ok, perform-Keeps r p ok sound)
