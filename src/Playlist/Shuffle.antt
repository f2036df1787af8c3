-- ===== src/Playlist/Shuffle.antt =====
-- src/playlist_edit.c: `playlist_shuffle`, and the operations that name songs by their ids.
use mpd.Base.{add_uint, ℕ, ◌+◌, ◌&&◌, Option, none, some, ltb, leb, if◌then◌else◌}
use mpd.Queue.{order_to_position, position_to_order, to_position}
use mpd.Queue.Edit.{swap}
use mpd.Queue.Random.{GRand, shuffle_range}
use mpd.Playlist.{Playlist, Player, ◌>>=◌, is_some, get_queued_song, update_queued_song}
use mpd.Playlist.Edit.{no_such_song, Returns, increment_version, swap_songs, delete_song_at}

module _ (g : GRand) where
  -- `playlist_delete_id`
  unfoldable pub delete_id : Player → Playlist g.State → ℕ → Returns g
  delete_id player p id = elim (to_position p.queue id) [
    | none ↦ some (no_such_song, p)
    | some song ↦ delete_song_at g player p song
  ]

  -- `playlist_swap_songs_id`
  unfoldable pub swap_songs_id : Playlist g.State → ℕ → ℕ → Returns g
  swap_songs_id p id1 id2 = elim (to_position p.queue id1) [
    | none ↦ some (no_such_song, p)
    | some song1 ↦ elim (to_position p.queue id2) [
      | none ↦ some (no_such_song, p)
      | some song2 ↦ swap_songs g p song1 song2
    ]
  ]

  -- the current song at the position `at` goes to the front of the range: the playlist, and where the
  -- range that is shuffled starts
  unfoldable pub put_first : Playlist g.State → ℕ → ℕ → Option (Playlist g.State × ℕ)
  put_first p start at =
      let p' : Playlist g.State = record p { queue = swap p.queue start at } in
      if p'.queue.random
      then (position_to_order p'.queue start >>= λ o.
          some (record p' { current = some o }, start + 1))
      else some (record p' { current = some start }, start + 1)

  -- the same, if there is a current song that plays and is in the range
  unfoldable pub keep_playing : Playlist g.State → ℕ → ℕ → Option (Playlist g.State × ℕ)
  keep_playing p start end =
      if p.playing && is_some p.current
      then (p.current >>= λ c.
          let at = order_to_position p.queue c in
          if leb start at && ltb at end then put_first p start at else some (p, start))
      else some (record p { current = none }, start)

  -- `playlist_shuffle`
  unfoldable pub shuffle : Playlist g.State → ℕ → ℕ → Option (Playlist g.State)
  shuffle p start end =
      let end' = if ltb p.queue.length end then p.queue.length else end in
      if leb end' (add_uint start 1)
      then some p
      else let queued = get_queued_song g p in
        keep_playing p start end' >>= λ (r : Playlist g.State × ℕ).
        let (q, s) = shuffle_range g r.0.queue r.0.rand r.1 end' in
        update_queued_song g (increment_version g (record r.0 { queue = q; rand = s })) queued
