-- ===== src/Commands/Handlers.antt =====
-- src/command.c: the handlers of the commands that change the playlist, with `print_playlist_result`. The
-- world is the playlist; `pc` is the player as the operations read it.
use mpd.Base.{ℕ, ◌+◌, Bool, true, false, Option, none, some, ◌==◌, if◌then◌else◌}
use mpd.Tokenizer.{Bytes}
use mpd.Client.{Return, error, ok}
use mpd.Queue.Random.{GRand}
use mpd.Playlist.{Playlist, Player, set_repeat, set_single, set_consume, set_random}
use mpd.Playlist.Edit.{
  Result, success, no_such_song, bad_range, too_large, not_playing, Target, position,
  behind_current, stop_playlist, clear_playlist, swap_songs, delete_range,
}
use mpd.Playlist.Move.{move_songs, move_id}
use mpd.Playlist.Shuffle.{shuffle, delete_id, swap_songs_id}
use mpd.Playlist.Control.{play_song, play_id, next, previous}
use mpd.Commands.{
  State, command_error, Ack, arg, no_exist, player_sync, playlist_max, Message, bad_argument,
  bad_song_index, playlist_is_full, need_positive, check_integer, need_integer, not_0_or_1,
}
use mpd.Commands.Numbers.{
  ℤ, pos, negsuc, Libc, Checked, value, bad, to_uint, check_int, check_range,
}

-- A call of a handler, with its arguments.
pub data Call : Type 0 where
  play playid shuffle_range : Option Bytes → Call
  stop clear next_song previous_song : Call
  delete deleteid set_repeat_mode set_single_mode set_consume_mode set_random_mode : Bytes → Call
  move moveid swap swapid : Bytes → Bytes → Call

module _ (g : GRand) where
  abbrev pub Answer : Type 0
  Answer = Option (Return × State (Playlist g.State))

  -- an error, and `return COMMAND_RETURN_ERROR`
  unfoldable pub refuse : State (Playlist g.State) → Ack → Message → Answer
  unfolding command_error
  refuse s e text = elim (command_error s e text) [ none ↦ none | some s' ↦ some (error, s') ]

  unfoldable pub print_playlist_result : State (Playlist g.State) → Result → Answer
  unfolding refuse
  print_playlist_result s success = some (ok, s)
  print_playlist_result s no_such_song = refuse s no_exist Message.no_such_song
  print_playlist_result s bad_range = refuse s arg bad_song_index
  print_playlist_result s too_large = refuse s playlist_max playlist_is_full
  print_playlist_result s not_playing = refuse s player_sync Message.not_playing

  -- an operation with a result, and the printing of it
  unfoldable pub print_result :
      State (Playlist g.State) → Option (Result × Playlist g.State) → Answer
  unfolding print_playlist_result
  print_result s none = none
  print_result s (some (r, p)) = print_playlist_result (record s { world = p }) r

  -- an operation without a result, and `return COMMAND_RETURN_OK`
  unfoldable pub return_ok : State (Playlist g.State) → Option (Playlist g.State) → Answer
  return_ok s none = none
  return_ok s (some p) = some (ok, record s { world = p })

  -- an argument, and what is done with it
  unfoldable pub with_arg {ℓ} :
      {A : Type ℓ} → State (Playlist g.State) → Checked A → (A → Answer) → Answer
  unfolding refuse
  with_arg s (value a) f = f a
  with_arg s (bad e) f = refuse s arg (bad_argument e)

  -- a song or an id where -1 stands for none
  abbrev pub song_arg : ℤ → Option ℕ
  song_arg (pos n) = some n
  song_arg (negsuc n) = if n == 0 then none else some (to_uint (negsuc n))

  -- where a song goes
  abbrev pub target_arg : ℤ → Target
  target_arg (pos n) = position n
  target_arg (negsuc n) = behind_current (n + 1)

  -- a status, 0 or 1
  abbrev pub status_arg : ℤ → Checked Bool
  status_arg (pos n) = if n == 0 then value false else if n == 1 then value true else bad not_0_or_1
  status_arg (negsuc n) = bad not_0_or_1

  module _ (c : Libc) (pc : Player) (s : State (Playlist g.State)) where
    unfoldable pub handle_play : Option Bytes → Answer
    unfolding with_arg print_result
    handle_play none = print_result s (play_song g s.world none)
    handle_play (some a) =
        with_arg s (check_int c a need_positive)
          λ n. print_result s (play_song g s.world (song_arg n))

    unfoldable pub handle_playid : Option Bytes → Answer
    unfolding with_arg print_result
    handle_playid none = print_result s (play_id g s.world none)
    handle_playid (some a) =
        with_arg s (check_int c a need_positive)
          λ n. print_result s (play_id g s.world (song_arg n))

    unfoldable pub handle_stop : Answer
    unfolding return_ok
    handle_stop = return_ok s (stop_playlist g s.world)

    unfoldable pub handle_delete : Bytes → Answer
    unfolding with_arg print_result
    handle_delete a =
        with_arg s (check_range c a) λ r. print_result s (delete_range g pc s.world r.0 r.1)

    unfoldable pub handle_deleteid : Bytes → Answer
    unfolding with_arg print_result
    handle_deleteid a =
        with_arg s (check_int c a need_positive)
          λ id. print_result s (delete_id g pc s.world (to_uint id))

    unfoldable pub handle_shuffle : Option Bytes → Answer
    unfolding with_arg return_ok
    handle_shuffle none = return_ok s (shuffle g s.world 0 s.world.queue.length)
    handle_shuffle (some a) =
        with_arg s (check_range c a) λ r. return_ok s (shuffle g s.world r.0 r.1)

    unfoldable pub handle_clear : Answer
    unfolding return_ok
    handle_clear = return_ok s (clear_playlist g s.world)

    -- `queue.single`
    abbrev pub with_single : Bool → Playlist g.State → Playlist g.State
    with_single b p = record p { queue = record p.queue { single = b } }

    unfoldable pub handle_next : Answer
    unfolding return_ok
    handle_next = return_ok s (elim (next g pc (with_single false s.world)) [
      | none ↦ none
      | some p ↦ some (with_single s.world.queue.single p)
    ])

    unfoldable pub handle_previous : Answer
    unfolding return_ok
    handle_previous = return_ok s (previous g s.world)

    -- the common part of the handlers of a status
    unfoldable pub set_status : (Bool → Option (Playlist g.State)) → Bytes → Answer
    unfolding with_arg return_ok
    set_status set a =
        with_arg s (check_int c a need_integer)
          λ n. with_arg s (status_arg n) λ status. return_ok s (set status)

    unfoldable pub handle_repeat : Bytes → Answer
    unfolding set_status
    handle_repeat a = set_status (set_repeat g s.world) a

    unfoldable pub handle_single : Bytes → Answer
    unfolding set_status
    handle_single a = set_status (set_single g s.world) a

    unfoldable pub handle_consume : Bytes → Answer
    unfolding set_status
    handle_consume a = set_status (λ status. some (set_consume g s.world status)) a

    unfoldable pub handle_random : Bytes → Answer
    unfolding set_status
    handle_random a = set_status (set_random g s.world) a

    unfoldable pub handle_move : Bytes → Bytes → Answer
    unfolding with_arg print_result
    handle_move a b = with_arg s (check_range c a) λ r.
        with_arg s (check_int c b check_integer)
          λ to. print_result s (move_songs g s.world r.0 r.1 (target_arg to))

    unfoldable pub handle_moveid : Bytes → Bytes → Answer
    unfolding with_arg print_result
    handle_moveid a b = with_arg s (check_int c a check_integer) λ id.
        with_arg s (check_int c b check_integer)
          λ to. print_result s (move_id g s.world (to_uint id) (target_arg to))

    unfoldable pub handle_swap : Bytes → Bytes → Answer
    unfolding with_arg print_result
    handle_swap a b = with_arg s (check_int c a check_integer) λ song1.
        with_arg s (check_int c b check_integer)
          λ song2. print_result s (swap_songs g s.world (to_uint song1) (to_uint song2))

    unfoldable pub handle_swapid : Bytes → Bytes → Answer
    unfolding with_arg print_result
    handle_swapid a b = with_arg s (check_int c a check_integer) λ id1.
        with_arg s (check_int c b check_integer)
          λ id2. print_result s (swap_songs_id g s.world (to_uint id1) (to_uint id2))

  -- the handler that is called
  unfoldable pub handle : Libc → Player → State (Playlist g.State) → Call → Answer
  unfolding handle_play handle_playid handle_shuffle handle_stop handle_clear handle_next
      handle_previous handle_delete handle_deleteid handle_repeat handle_single handle_consume
      handle_random handle_move handle_moveid handle_swap handle_swapid
  handle c pc s (play a) = handle_play c pc s a
  handle c pc s (playid a) = handle_playid c pc s a
  handle c pc s (shuffle_range a) = handle_shuffle c pc s a
  handle c pc s stop = handle_stop c pc s
  handle c pc s clear = handle_clear c pc s
  handle c pc s next_song = handle_next c pc s
  handle c pc s previous_song = handle_previous c pc s
  handle c pc s (delete a) = handle_delete c pc s a
  handle c pc s (deleteid a) = handle_deleteid c pc s a
  handle c pc s (set_repeat_mode a) = handle_repeat c pc s a
  handle c pc s (set_single_mode a) = handle_single c pc s a
  handle c pc s (set_consume_mode a) = handle_consume c pc s a
  handle c pc s (set_random_mode a) = handle_random c pc s a
  handle c pc s (move a b) = handle_move c pc s a b
  handle c pc s (moveid a b) = handle_moveid c pc s a b
  handle c pc s (swap a b) = handle_swap c pc s a b
  handle c pc s (swapid a b) = handle_swapid c pc s a b
