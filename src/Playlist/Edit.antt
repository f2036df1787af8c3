-- ===== src/Playlist/Edit.antt =====
-- src/playlist_edit.c and src/playlist_control.c (stop): the operations that change which songs are
-- in the playlist, and where.
use mpd.Base.{
  ℕ, zero, suc, ◌+◌, ◌-◌, Bool, false, not, ◌&&◌, ◌||◌, Option, none, some, ltb, leb, ◌==◌,
  if◌then◌else◌, for_up,
}
use mpd.Queue.{
  Song, get, position_to_order, next_order, increment_version as queue_increment_version,
  valid_position, is_full, song_in_database,
}
use mpd.Queue.Edit.{append, swap, swap_order, delete, clear}
use mpd.Queue.Random.{GRand, shuffle_order_last}
use mpd.Playlist.{
  Playlist, Player, stop, song_deleted, playlist, tell, emit, is_paused, ◌>>=◌,
  shuffle_keeping_current, get_queued_song, update_queued_song, play_order,
}

-- `enum playlist_result`, as far as these functions return it
pub data Result : Type 0 where
  success no_such_song bad_range too_large not_playing : Result

abbrev pub is_order : Option ℕ → ℕ → Bool
is_order none o = false
is_order (some c) o = c == o

-- `current > order`, and then `current--`
abbrev pub lower_current : Option ℕ → ℕ → Option ℕ
lower_current none o = none
lower_current (some c) o = some (if ltb o c then c - 1 else c)

module _ (g : GRand) where
  abbrev pub Returns : Type 0
  Returns = Option (Result × Playlist g.State)

  unfoldable pub increment_version : Playlist g.State → Playlist g.State
  increment_version p = emit playlist (record p { queue = queue_increment_version p.queue })

  -- `playlist_stop`
  unfoldable pub stop_playlist : Playlist g.State → Option (Playlist g.State)
  stop_playlist p =
      if not p.playing
      then some p
      else let p' : Playlist g.State = record (tell stop p) { queued = none; playing = false } in
        if p'.queue.random then shuffle_keeping_current g p' else some p'

  -- the loop of `playlist_clear` over the songs
  unfoldable pub forget_song : ℕ → Playlist g.State → Playlist g.State
  forget_song i p =
      let song = get p.queue i in if song_in_database song then p else tell (song_deleted song) p

  -- `playlist_clear`
  unfoldable pub clear_playlist : Playlist g.State → Option (Playlist g.State)
  clear_playlist p = do
    p1 ← stop_playlist p
    let p2 = for_up p1.queue.length 0 forget_song p1
    some (increment_version (record p2 { queue = clear p2.queue; current = none }))

  -- the position in `order` behind the songs that are fixed, in `playlist_append_song`
  unfoldable pub shuffle_start : Playlist g.State → ℕ
  shuffle_start p = elim p.queued [
    | some o ↦ o + 1
    | none ↦ elim p.current [ some c ↦ c + 1 | none ↦ 0 ]
  ]

  -- its `queue_shuffle_order_last`
  unfoldable pub shuffle_last : Playlist g.State → Playlist g.State
  shuffle_last p =
      if p.queue.random && ltb (shuffle_start p) p.queue.length
      then (let (q, s) = shuffle_order_last g p.queue p.rand (shuffle_start p) p.queue.length in
          record p { queue = q; rand = s })
      else p

  -- `playlist_append_song`, with the new id
  unfoldable pub append_song :
      Playlist g.State → Song → Option (Result × Option ℕ × Playlist g.State)
  append_song p song =
      if is_full p.queue
      then some (too_large, none, p)
      else let queued = get_queued_song g p in
        append p.queue song >>= λ appended.
        update_queued_song g (increment_version (shuffle_last (record p { queue = appended.1 })))
          queued
        >>= λ r. some (success, some appended.0, r)

  -- `playlist_swap_songs`: the correction of the order, or of `current`
  unfoldable pub fix_swapped : Playlist g.State → ℕ → ℕ → Option (Playlist g.State)
  fix_swapped p song1 song2 =
      if p.queue.random
      then (position_to_order p.queue song1 >>= λ o1. position_to_order p.queue song2 >>= λ o2.
          some (record p { queue = swap_order p.queue o1 o2 }))
      else if is_order p.current song1
      then some (record p { current = some song2 })
      else if is_order p.current song2
      then some (record p { current = some song1 })
      else some p

  unfoldable pub swap_songs : Playlist g.State → ℕ → ℕ → Returns
  swap_songs p song1 song2 =
      if not (valid_position p.queue song1) || not (valid_position p.queue song2)
      then some (bad_range, p)
      else let queued = get_queued_song g p in
        fix_swapped (record p { queue = swap p.queue song1 song2 }) song1 song2 >>= λ p'.
        update_queued_song g (increment_version p') queued >>= λ r. some (success, r)

  -- `playlist_delete_internal`, the part for the current song of a playing playlist
  unfoldable pub skip_deleted : Player → Playlist g.State → ℕ → Option (Playlist g.State)
  skip_deleted player p order =
      let next = next_order p.queue order in
      let p' : Playlist g.State = record (tell stop p) {
        playing = false;
        current = if is_order next order then none else next;
      } in
      elim p'.current [
        | none ↦ stop_playlist p'
        | some c ↦ if is_paused player.state then stop_playlist p' else some (play_order g p' c)
      ]

  -- its first half: the playlist, and the song that counts as queued
  unfoldable pub skip_if_current :
      Player → Playlist g.State → ℕ → Option Song → Option (Playlist g.State × Option Song)
  skip_if_current pc p order queued =
      if p.playing && is_order p.current order
      then (skip_deleted pc p order >>= λ r. some (r, none))
      else some (if is_order p.current order then record p { current = none } else p, queued)

  -- `pc_song_deleted`, if the song is not in the database
  unfoldable pub forget : ℕ → Playlist g.State → Playlist g.State
  forget song p =
      if song_in_database (get p.queue song) then p else tell (song_deleted (get p.queue song)) p

  -- its second half
  unfoldable pub remove_song :
      ℕ → ℕ → Playlist g.State × Option Song → Option (Playlist g.State × Option Song)
  remove_song song order r =
      let p = forget song r.0 in
      delete p.queue song >>= λ q.
      some (record p { queue = q; current = lower_current p.current order }, r.1)

  -- `playlist_delete_internal`
  unfoldable pub delete_internal :
      Player → Playlist g.State → ℕ → Option Song → Option (Playlist g.State × Option Song)
  delete_internal pc p song queued = position_to_order p.queue song >>= λ order.
      skip_if_current pc p order queued >>= λ r. remove_song song order r

  -- `playlist_delete`
  unfoldable pub delete_song_at : Player → Playlist g.State → ℕ → Returns
  delete_song_at player p song =
      if leb p.queue.length song
      then some (bad_range, p)
      else delete_internal player p song (get_queued_song g p)
        >>= λ (r : Playlist g.State × Option Song).
            update_queued_song g (increment_version r.0) r.1 >>= λ r'. some (success, r')

  -- the loop of `playlist_delete_range`, from `start + rounds` down to `start`
  unfoldable pub delete_each :
      Player → ℕ → ℕ → Playlist g.State × Option Song → Option (Playlist g.State × Option Song)
  delete_each player start zero r = some r
  delete_each player start (suc rounds) r =
      delete_internal player r.0 (start + rounds) r.1 >>= λ r'. delete_each player start rounds r'

  -- `playlist_delete_range`
  unfoldable pub delete_range : Player → Playlist g.State → ℕ → ℕ → Returns
  delete_range player p start end =
      if leb p.queue.length start
      then some (bad_range, p)
      else let end' = if ltb p.queue.length end then p.queue.length else end in
        if leb end' start
        then some (success, p)
        else delete_each player start (end' - start) (p, get_queued_song g p)
          >>= λ (r : Playlist g.State × Option Song).
              update_queued_song g (increment_version r.0) r.1 >>= λ r'. some (success, r')

-- `to` of `playlist_move_range`: a position, or so many songs behind the current one.
pub data Target : Type 0 where
  position : ℕ → Target
  behind_current : ℕ → Target
