-- ===== src/Playlist/Requests.antt =====
-- The operations on a playlist that clients and the player ask for, and any sequence of them:
-- src/playlist.c, src/playlist_edit.c and src/playlist_control.c together.
use native.Mathlib.Nat.{mod-lt}
use mpd.Base.{
  Array, if-true, if-false, sub_uint, uint_mod, ℕ, ◌+◌, ◌-◌, ◌^◌, ◌<◌, ◌≤◌, ◌≡◌, ◌∙◌, Bool, true,
  false, not, ◌&&◌, ◌||◌, Option, none, some, [], ltb, leb, arith, Bool-cases, inl, inr,
}
use mpd.Queue.Edit.{init}
use mpd.Queue.{Item, Song, order_to_position, valid_position}
use mpd.Queue.Random.{GRand}
use mpd.Playlist.{
  >>=-some, Playlist, Player, ◌>>=◌, set_repeat, set_single, set_consume, set_random, tag_changed,
  increment_version_all, get_queued_song,
}
use mpd.Playlist.Edit.{
  Result, success, bad_range, Target, position, behind_current, stop_playlist, clear_playlist,
  append_song, swap_songs, delete_song_at, delete_range, increment_version,
}
use mpd.Playlist.Move.{move_to, move_songs, relative_target, move_id}
use mpd.Playlist.Shuffle.{shuffle, delete_id, swap_songs_id}
use mpd.Playlist.Control.{play_song, play_id, next, previous, sync, seek_song}
use mpd.Playlist.Inv.{IsOk}
use mpd.Playlist.Update.{update_queued_song-Updated}
use mpd.Playlist.Delete.{increment_version-IsReady}
use mpd.Playlist.Moves.{block_moved, block_moved-IsReady}
use mpd.Playlist.Playing.{Answers}

-- An operation, with its arguments. `sync` has the player before and when it is read again; the operations
-- that may start another song have the player too.
pub data Request : Type 0 where
  play play_by_id : Option ℕ → Request
  stop_playing go_back clear_all touch_current touch_all : Request
  go_on : Player → Request
  sought : ℕ → ℕ → Request
  synced : Player → Player → Request
  add : Song → Request
  swap_two swap_ids shuffle_songs : ℕ → ℕ → Request
  remove remove_id : Player → ℕ → Request
  remove_range : Player → ℕ → ℕ → Request
  move_block : ℕ → ℕ → ℕ → Request
  move_one : ℕ → Target → Request
  repeat_mode single consume random : Bool → Request

-- What a request needs: a block that is moved is not empty and goes to an `int`, and only a song
-- that is current can be the reference of a move. The command handlers do not check all of this.
abbrev pub IsSound {ℓ} : {R : Type ℓ} → Playlist R → Request → Type 0
IsSound p (shuffle_songs start end) = start + 1 < uint_mod
IsSound p (move_block start end to) = (start < end) × (end < uint_mod) × (to < 2 ^ 31)
IsSound p (move_one id (position to)) = to < 2 ^ 31
IsSound p (move_one id (behind_current n)) = (c : ℕ) × (p.current ≡ some c)
IsSound p _ = Unit

module _ (g : GRand) where
  move_to-Answers :
      (p : Playlist g.State) (start end to : ℕ)
      → IsOk p
      → start < end
      → end ≤ p.queue.length
      → to + (end - start) ≤ p.queue.length
      → Answers (move_to g p start end to)
  unfolding move_to
  move_to-Answers p start end to ok lt le fits =
      let p1 = block_moved g p start end to in
      let prev = get_queued_song g p in
      let (ready, rest, ver) =
        increment_version-IsReady g p1 prev (block_moved-IsReady g p start end to ok lt le fits) in
      let (p', updated, u) = update_queued_song-Updated g (increment_version g p1) prev ready in
      (success, p', >>=-some _ updated, u.ok)

  -- a block to a place relative to the current song, where it fits there
  pub move_relative-Answers :
      (p : Playlist g.State) (start end c n : ℕ)
      → IsOk p
      → start < end
      → end < uint_mod
      → p.current ≡ some c
      → relative_target g p start (p.queue.order c) n + (end - start) ≤ p.queue.length
      → Answers (move_songs g p start end (behind_current n))
  unfolding move_songs valid_position order_to_position
  move_relative-Answers p start end c n ok lt small e fits =
      elim (Bool-cases
        (not (valid_position p.queue start) || not (valid_position p.queue (sub_uint end 1)))) [
          | inl t ↦ (bad_range, p, if-true _ _ t, ok)
          | inr f ↦ elim (Bool-cases (ltb p.queue.length n)) [
            | inl t ↦ (bad_range, p, if-false _ _ f ∙ if-true _ _ t, ok)
            | inr k ↦
                let at = p.queue.order c in
                elim (Bool-cases (leb start at && ltb at end)) [
                  | inl t ↦ (
                    success,
                    p,
                    if-false _ _ f ∙ if-false _ _ k ∙ >>=-some _ e ∙ if-true _ _ t,
                    ok,
                  )
                  | inr o ↦
                      let to = relative_target g p start at n in
                      let width : sub_uint end 1 ≡ end - 1 = ground arith in
                      let (r, p', moved, ok') =
                        move_to-Answers p start end to ok lt (ground arith) fits in
                      (
                        r,
                        p',
                        if-false _ _ f ∙ if-false _ _ k ∙ >>=-some _ e ∙ if-false _ _ o ∙ moved,
                        ok',
                      )
                ]
          ]
        ]

  -- one song relative to the current song
  pub move_song-Answers :
      (p : Playlist g.State) (song c n : ℕ)
      → IsOk p
      → song < p.queue.length
      → p.current ≡ some c
      → Answers (move_songs g p song (song + 1) (behind_current n))
  unfolding relative_target
  move_song-Answers p song c n ok lt e =
      move_relative-Answers p song (song + 1) c n ok (omega arith)
        (ground (arith, ok.valid.fits, ok.valid.small)) e
        (ground (arith, mod-lt (p.queue.order c + n) {m = p.queue.length} (omega arith)))

  abbrev pub state_of : Option (Result × Playlist g.State) → Option (Playlist g.State)
  state_of o = o >>= λ r. some r.1

  -- `sought` is `playlist_seek_song` where the player can seek.
  unfoldable pub perform : Request → Playlist g.State → Option (Playlist g.State)
  perform (play song) p = state_of (play_song g p song)
  perform (play_by_id id) p = state_of (play_id g p id)
  perform stop_playing p = stop_playlist g p
  perform go_back p = previous g p
  perform clear_all p = clear_playlist g p
  perform touch_current p = tag_changed g p
  perform touch_all p = some (increment_version_all g p)
  perform (go_on pc) p = next g pc p
  perform (sought song seek_time) p = state_of (seek_song g true p song seek_time)
  perform (synced pc later) p = sync g pc later p
  perform (add song) p = append_song g p song >>= λ r. some r.2
  perform (swap_two song1 song2) p = state_of (swap_songs g p song1 song2)
  perform (swap_ids id1 id2) p = state_of (swap_songs_id g p id1 id2)
  perform (shuffle_songs start end) p = shuffle g p start end
  perform (remove pc song) p = state_of (delete_song_at g pc p song)
  perform (remove_id pc id) p = state_of (delete_id g pc p id)
  perform (remove_range pc start end) p = state_of (delete_range g pc p start end)
  perform (move_block start end to) p = state_of (move_songs g p start end (position to))
  perform (move_one id to) p = state_of (move_id g p id to)
  perform (repeat_mode status) p = set_repeat g p status
  perform (single status) p = set_single g p status
  perform (consume status) p = some (set_consume g p status)
  perform (random status) p = set_random g p status

  -- `playlist_init`, the playlist being a static variable; `max_length` is the configured one
  unfoldable pub init_playlist : ℕ → Array Item → Array ℕ → ℕ → g.State → Playlist g.State
  init_playlist max_length items order cur s = record {
    queue = init max_length items order cur;
    rand = s;
    playing = false;
    stop_on_error = false;
    error_count = 0;
    current = none;
    queued = none;
    calls = [];
    events = [];
  }

  -- The second playlist comes from the first by performing sound requests.
  pub data Reached (p : Playlist g.State) : Playlist g.State → Type 0 where
    here : Reached p p
    next_to :
        {p1 p2 : Playlist g.State} (r : Request)
        → Reached p p1
        → IsSound p1 r
        → perform r p1 ≡ some p2
        → Reached p p2
