-- ===== src/Playlist/Move.antt =====
-- src/playlist_edit.c: `playlist_move_range` and `playlist_shuffle`.
use mpd.Base.{
  ℕ, ◌+◌, ◌-◌, ◌%◌, not, ◌&&◌, ◌||◌, Option, none, some, ltb, leb, ◌==◌, if◌then◌else◌, add_uint,
  sub_uint,
}
use mpd.Queue.{order_to_position, valid_position, to_position}
use mpd.Queue.Edit.{move_range}
use mpd.Queue.Random.{GRand}
use mpd.Playlist.{Playlist, ◌>>=◌, get_queued_song, update_queued_song}
use mpd.Playlist.Edit.{
  Result, success, no_such_song, bad_range, Target, position, behind_current, increment_version,
}

-- The new `current`, outside random mode.
unfoldable pub moved_current : ℕ → ℕ → ℕ → ℕ → ℕ
moved_current start end to c =
    if leb start c && ltb c end
    then c + to - start
    else if leb end c && leb c to
    then c - (end - start)
    else if leb to c && ltb c start
    then c + (end - start)
    else c

module _ (g : GRand) where
  abbrev pub Returns : Type 0
  Returns = Option (Result × Playlist g.State)

  unfoldable pub fix_current : Playlist g.State → ℕ → ℕ → ℕ → Playlist g.State
  fix_current p start end to = elim p.current [
    | none ↦ p
    | some c ↦
        if p.queue.random then p else record p { current = some (moved_current start end to c) }
  ]

  -- the move to the position `to`, once that is known
  unfoldable pub move_to : Playlist g.State → ℕ → ℕ → ℕ → Returns
  move_to p start end to =
      let p' = fix_current (record p { queue = move_range p.queue start end to }) start end to in
      update_queued_song g (increment_version g p') (get_queued_song g p) >>= λ r. some (success, r)

  -- `abs(to)` songs behind the current one, or the position before it
  unfoldable pub relative_target : Playlist g.State → ℕ → ℕ → ℕ → ℕ
  relative_target p start current n =
      let to = (current + n) % p.queue.length in if ltb start to then to - 1 else to

  -- `playlist_move_range`. With no current song, a negative `to` is passed on to `queue_move_range` as
  -- it is: `none`.
  unfoldable pub move_songs : Playlist g.State → ℕ → ℕ → Target → Returns
  move_songs p start end (position to) =
      if not (valid_position p.queue start) || not (valid_position p.queue (sub_uint end 1))
      then some (bad_range, p)
      else if leb p.queue.length (sub_uint (sub_uint (add_uint to end) start) 1)
      then some (bad_range, p)
      else if start == to
      then some (success, p)
      else move_to p start end to
  move_songs p start end (behind_current n) =
      if not (valid_position p.queue start) || not (valid_position p.queue (sub_uint end 1))
      then some (bad_range, p)
      else if ltb p.queue.length n
      then some (bad_range, p)
      else (p.current >>= λ c.
          let song = order_to_position p.queue c in
          if leb start song && ltb song end
          then some (success, p)
          else move_to p start end (relative_target p start song n))

  -- `playlist_move_id`
  unfoldable pub move_id : Playlist g.State → ℕ → Target → Returns
  move_id p id to = elim (to_position p.queue id) [
    | none ↦ some (no_such_song, p)
    | some song ↦ move_songs p song (song + 1) to
  ]
