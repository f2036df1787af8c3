-- ===== src/Playlist/Control.antt =====
-- src/playlist_control.c, and the player's events of src/playlist.c.
use mpd.Base.{
  ℕ, ◌+◌, ◌-◌, Bool, true, false, not, ◌&&◌, ◌||◌, Option, none, some, ltb, leb, ◌==◌,
  if◌then◌else◌,
}
use mpd.Queue.{
  get_order, order_to_position, position_to_order, next_order, valid_position, is_empty,
  to_position,
}
use mpd.Queue.Edit.{swap_order}
use mpd.Queue.Random.{GRand}
use mpd.Playlist.{
  Playlist, Player, clear_error, set_pause, seek, tell, emit, player, is_stopped, ◌>>=◌, is_some,
  shuffle_queue, get_queued_song, update_queued_song, play_order,
}
use mpd.Playlist.Edit.{
  Result, success, no_such_song, bad_range, not_playing, stop_playlist, delete_song_at, is_order,
}

module _ (g : GRand) where
  abbrev pub Returns : Type 0
  Returns = Option (Result × Playlist g.State)

  -- The order number that `playlist_play` goes on with, `song` being a position or `none` for -1.
  unfoldable pub order_to_play : Playlist g.State → Option ℕ → Option ℕ
  order_to_play p none = elim p.current [ some c ↦ some c | none ↦ some 0 ]
  order_to_play p (some song) = if p.queue.random then position_to_order p.queue song else some song

  -- in random mode, the song at the order number `i` is swapped with the current one
  unfoldable pub swap_current : Playlist g.State → ℕ → Option (Playlist g.State × ℕ)
  swap_current p i = p.current >>= λ c. some (record p { queue = swap_order p.queue i c }, c)

  -- the last part of `playlist_play`
  unfoldable pub start_playing : Playlist g.State → ℕ → Option (Playlist g.State)
  start_playing p i =
      (if p.queue.random
        then swap_current (if p.playing then p else record p { current = some 0 }) i
        else some (p, i))
      >>= λ (r : Playlist g.State × ℕ).
          some (play_order g (record r.0 { stop_on_error = false; error_count = 0 }) r.1)

  -- `playlist_play`
  unfoldable pub play_song : Playlist g.State → Option ℕ → Returns
  play_song p none =
      let p' = tell clear_error p in
      if is_empty p'.queue
      then some (success, p')
      else if p'.playing
      then some (success, tell (set_pause false) p')
      else (order_to_play p' none >>= λ i. start_playing p' i >>= λ r. some (success, r))
  play_song p (some song) =
      let p' = tell clear_error p in
      if not (valid_position p'.queue song)
      then some (bad_range, p')
      else (order_to_play p' (some song) >>= λ i. start_playing p' i >>= λ r. some (success, r))

  -- `playlist_play_id`, `id` being `none` for -1
  unfoldable pub play_id : Playlist g.State → Option ℕ → Returns
  play_id p none = play_song p none
  play_id p (some id) = elim (to_position p.queue id) [
    | none ↦ some (no_such_song, p)
    | some song ↦ play_song p (some song)
  ]

  -- `playlist_next`, up to consuming the song
  unfoldable pub play_next : Playlist g.State → ℕ → Option (Playlist g.State)
  play_next p current =
      let next = next_order p.queue current in
      elim next [
        | none ↦ stop_playlist g p >>= λ p'. some (record p' { current = none })
        | some o ↦
            let p' = if (o == 0) && p.queue.random then shuffle_queue g p else p in
            some (play_order g p' o)
      ]

  -- `playlist_next`
  unfoldable pub next : Player → Playlist g.State → Option (Playlist g.State)
  next pc p =
      if not p.playing
      then some p
      else (p.current >>= λ current.
          play_next (record p { stop_on_error = false }) current >>= λ p'.
          if p'.queue.consume
          then (delete_song_at g pc p' (order_to_position p'.queue current)
              >>= λ (r : Result × Playlist g.State). some r.1)
          else some p')

  -- `playlist_previous`
  unfoldable pub previous : Playlist g.State → Option (Playlist g.State)
  previous p =
      if not p.playing
      then some p
      else (p.current >>= λ current. some (
          if ltb 0 current
          then play_order g p (current - 1)
          else if p.queue.repeat_mode
          then play_order g p (p.queue.length - 1)
          else play_order g p current))

  -- `playlist_resume_playback`
  unfoldable pub resume_playback : Player → Playlist g.State → Option (Playlist g.State)
  resume_playback pc p =
      let p' : Playlist g.State = record p {
        error_count = if pc.has_error then p.error_count + 1 else 0;
      } in
      if (p'.stop_on_error && pc.has_error)
        || (pc.error_is_fatal || leb p'.queue.length p'.error_count)
      then stop_playlist g p'
      else next pc p'

  -- `playlist_song_started`
  unfoldable pub song_started : Player → Playlist g.State → Option (Playlist g.State)
  song_started pc p =
      let p1 : Playlist g.State = record p { current = p.queued; queued = none } in
      let p2 : Playlist g.State =
        if p1.queue.single && not p1.queue.repeat_mode then tell (set_pause true) p1 else p1 in
      (if p2.queue.consume
        then (p.current >>= λ current.
            delete_song_at g pc p2 (order_to_position p2.queue current)
            >>= λ (r : Result × Playlist g.State). some r.1)
        else some p2)
      >>= λ r. some (emit player r)

  -- `playlist_sync`: `later` is the player when `pc.next_song` is read again.
  unfoldable pub sync : Player → Player → Playlist g.State → Option (Playlist g.State)
  sync pc later p =
      if not p.playing
      then some p
      else if is_stopped pc.state
      then resume_playback pc p
      else ((if not pc.has_next_song && is_some p.queued then song_started pc p else some p)
          >>= λ p'.
              if not later.has_next_song && not (is_some p'.queued)
              then update_queued_song g p' none
              else some p')

  -- `playlist_seek_song`; `seeks` is the result of `pc_seek`.
  unfoldable pub seek_song : Bool → Playlist g.State → ℕ → ℕ → Returns
  seek_song seeks p song seek_time =
      if not (valid_position p.queue song)
      then some (bad_range, p)
      else (order_to_play p (some song) >>= λ i.
          let p1 : Playlist g.State = record (tell clear_error p) {
            stop_on_error = true;
            error_count = 0;
          } in
          let here = p1.playing && is_order p1.current i in
          let queued = if here then get_queued_song g p else none in
          let p2 : Playlist g.State =
            if here then p1 else record p1 { playing = true; current = some i } in
          let p3 = tell (seek (get_order p2.queue i) seek_time) p2 in
          if seeks
          then (update_queued_song g (record p3 { queued = none }) none >>= λ r. some (success, r))
          else (update_queued_song g p3 queued >>= λ r. some (not_playing, r)))
