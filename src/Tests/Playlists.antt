-- ===== src/Tests/Playlists.antt =====
-- src/playlist.c and src/playlist_edit.c on a playlist of three songs that plays the last of its order.
use mpd.Base.{
  none, if◌then◌else◌, ltb, ◌↔◌, ◌⊎◌, ◌-◌, ℕ, ◌+◌, ◌<◌, ◌≤◌, ◌≡◌, refl, Option, some, [], arith,
  true, false,
}
use mpd.Queue.{Song}
use mpd.Queue.Inv.{IsValid, modes-IsValid}
use mpd.Playlist.{Playlist, Player, playing_state, get_queued_song, update_queued_song}
use mpd.Playlist.Inv.{IsOk, IsReady}
use mpd.Playlist.Edit.{
  success, bad_range, too_large, position, append_song, delete_range, swap_songs, delete_song_at,
}
use mpd.Playlist.Update.{Updated, update_queued_song-Updated, get_queued_song-IsReady}
use mpd.Queue.Edit.{moved_range, init}
use mpd.Playlist.Append.{Added, append_song-Added}
use mpd.Playlist.DeleteRange.{Cut, delete_range-Cut}
use mpd.Playlist.Swap.{Swapped, swap_songs-Swapped}
use mpd.Playlist.Random.{Randomized, set_random-Randomized}
use mpd.Playlist.Next.{position_of, get_next_song-next_order}
use mpd.Queue.{next_order}
use mpd.Playlist.{set_random, get_next_song}
use mpd.Playlist.Requests.{here, next_to, consume, add, perform, init_playlist}
use mpd.Playlist.Reached.{Reached-Keeps}
use mpd.Playlist.Playing.{Keeps}
use mpd.Playlist.{set_consume}
use mpd.Playlist.Move.{moved_current, move_songs}
use mpd.Playlist.Moved.{moved_current-moved_range}
use mpd.Playlist.Moves.{Rearranged, move_songs-Rearranged}
use mpd.Playlist.Delete.{Left, delete_song_at-Left}
use mpd.Tests.Queues.{three, song, drawing, three-IsValid, round}

round-IsValid : IsValid round
round-IsValid = modes-IsValid true false false three-IsValid

abbrev pub playing_last : Playlist ℕ
playing_last = record {
  queue = round;
  rand = 0;
  playing = true;
  stop_on_error = false;
  error_count = 0;
  current = some 2;
  queued = some 0;
  calls = [];
  events = [];
}

pub playing_last-IsOk : IsOk playing_last
playing_last-IsOk = record {
  valid = round-IsValid;
  current_lt = λ c e. ground arith;
  queued_lt = λ t o e. ground arith;
  has_current = λ t. refl;
}

abbrev before : Option Song
before = get_queued_song drawing playing_last

playing_last-IsReady : IsReady playing_last before
playing_last-IsReady = get_queued_song-IsReady drawing playing_last playing_last-IsOk

update_queued_song-Updated_example :
    (p' : Playlist ℕ) × (update_queued_song drawing playing_last before ≡ some p')
    × Updated drawing playing_last p'
update_queued_song-Updated_example =
    update_queued_song-Updated drawing playing_last before playing_last-IsReady

abbrev pub player : Player
player = record {
  state = playing_state;
  has_error = false;
  error_is_fatal = false;
  has_next_song = true;
}

delete_song_at-Left_example :
    (p' : Playlist ℕ) × (delete_song_at drawing player playing_last 1 ≡ some (success, p'))
    × Left drawing playing_last 1 p'
delete_song_at-Left_example =
    delete_song_at-Left drawing player playing_last 1 playing_last-IsOk (omega arith)

moved_current-moved_range_example :
    (moved_current 0 2 1 2 ≡ moved_range 0 2 1 2) ↔ (¬ ((1 + 1 ≤ 2) × (1 < 2) × (2 < 1 + (2 - 0))))
moved_current-moved_range_example =
    moved_current-moved_range 5 0 2 1 2 (omega arith) (omega arith) (omega arith) (omega arith)
      (omega arith) (λ e. absurd (omega arith))

move_songs-Rearranged_example :
    ((¬ ((2 ≤ round.length) × (1 + (2 - 0) ≤ round.length)))
      × (move_songs drawing playing_last 0 2 (position 1) ≡ some (bad_range, playing_last)))
    ⊎ ((2 ≤ round.length)
        × (1 + (2 - 0) ≤ round.length)
        × (p' : Playlist ℕ) × (move_songs drawing playing_last 0 2 (position 1)
            ≡ some (success, p'))
        × (((0 + 0 ≡ 1) × (p' ≡ playing_last)) ⊎ Rearranged drawing playing_last 0 2 1 p'))
move_songs-Rearranged_example =
    move_songs-Rearranged drawing playing_last 0 2 1 playing_last-IsOk (omega arith) (omega arith)
      (omega arith)

append_song-Added_example :
    ((round.max_length ≡ round.length)
      × (append_song drawing playing_last (song 42) ≡ some (too_large, none, playing_last)))
    ⊎ ((id : ℕ) × (p' : Playlist ℕ) × (append_song drawing playing_last (song 42)
          ≡ some (success, some id, p'))
        × Added drawing playing_last (song 42) id p')
append_song-Added_example = append_song-Added drawing playing_last (song 42) playing_last-IsOk

abbrev two_songs : ℕ
two_songs = 2

delete_range-Cut_example :
    ((round.length ≤ 0)
      × (delete_range drawing player playing_last 0 2 ≡ some (bad_range, playing_last)))
    ⊎ ((0 < round.length)
        × (two_songs ≤ 0)
        × (delete_range drawing player playing_last 0 2 ≡ some (success, playing_last)))
    ⊎ ((0 < round.length)
        × (0 < two_songs)
        × (p' : Playlist ℕ) × (delete_range drawing player playing_last 0 2 ≡ some (success, p'))
        × Cut drawing playing_last 0 ((if ltb round.length 2 then round.length else 2) - 0) p')
delete_range-Cut_example = delete_range-Cut drawing player playing_last 0 2 playing_last-IsOk

swap_songs-Swapped_example :
    (((round.length ≤ 0) ⊎ (round.length ≤ 2))
      × (swap_songs drawing playing_last 0 2 ≡ some (bad_range, playing_last)))
    ⊎ ((0 < round.length)
        × (2 < round.length)
        × (p' : Playlist ℕ) × (swap_songs drawing playing_last 0 2 ≡ some (success, p'))
        × Swapped drawing playing_last 0 2 p')
swap_songs-Swapped_example = swap_songs-Swapped drawing playing_last 0 2 playing_last-IsOk

set_random-Randomized_example :
    (p' : Playlist ℕ) × (set_random drawing playing_last false ≡ some p')
    × Randomized drawing playing_last false p'
set_random-Randomized_example =
    set_random-Randomized drawing playing_last false playing_last-IsOk refl

get_next_song-next_order_example :
    get_next_song drawing playing_last ≡ position_of playing_last (next_order round 2)
get_next_song-next_order_example =
    get_next_song-next_order drawing playing_last 2 refl (omega arith) refl

abbrev fresh : Playlist ℕ
unfolding init_playlist init
fresh = init_playlist drawing 10 three.items three.order 0 7

abbrev consuming : Playlist ℕ
consuming = set_consume drawing fresh true

Reached-Keeps_example : IsOk consuming × Keeps (perform drawing (add (song 3)) consuming)
unfolding perform init_playlist fresh
Reached-Keeps_example =
    Reached-Keeps drawing 10 three.items three.order 0 7 consuming (add (song 3)) (omega arith)
      (next_to (consume true) here tt refl) tt
