-- ===== src/Commands/Keeping.antt =====
-- src/command.c: the handlers do what a call asks of the playlist, or reject its arguments.
use mathlib.Core.Path.{subst}
use mpd.Base.{
  ◌-◌, ◌≤◌, Option, inl, inr, ℕ, ◌+◌, ◌<◌, uint_mod, ◌≡◌, refl, Bool, true, false, none, some,
  arith,
}
use mpd.Tokenizer.{Bytes}
use mpd.Queue.Inv.{modes-IsValid}
use mpd.Queue.Random.{GRand}
use mpd.Playlist.{Playlist, Player, set_repeat, set_single, set_consume, set_random}
use mpd.Playlist.Inv.{IsOk}
use mpd.Playlist.Playing.{Answers, Keeps, next-Keeps}
use mpd.Playlist.Move.{move_songs, relative_target}
use mpd.Playlist.Starting.{play_song-Answers, play_id-Answers}
use mpd.Playlist.Answering.{
  delete_range-Answers, delete_id-Answers, swap_songs-Answers, swap_songs_id-Answers,
  move_block-Answers, move_id-Answers,
}
use mpd.Playlist.Requests.{
  stop_playing, go_back, clear_all, shuffle_songs, repeat_mode, single, consume, random, move_one,
  IsSound, perform, move_relative-Answers,
}
use mpd.Playlist.Reached.{perform-Keeps}
use mpd.Commands.{State, check_integer, need_positive, need_integer}
use mpd.Commands.Numbers.{
  ℤ, pos, negsuc, is_int, Libc, Checked, value, bad, to_uint, check_int, check_range,
}
use mpd.Commands.Handlers.{
  Answer, Call, play, playid, shuffle_range, stop, clear, next_song, previous_song, delete,
  deleteid, status_arg, set_status, set_repeat_mode, set_single_mode, set_consume_mode,
  set_random_mode, move, moveid, swap, swapid, handle, song_arg, target_arg, handle_play,
  handle_playid, handle_stop, handle_delete, handle_deleteid, handle_shuffle, handle_clear,
  handle_next, handle_previous, handle_repeat, handle_single, handle_consume, handle_random,
  handle_move, handle_moveid, handle_swap, handle_swapid, with_single,
}
use mpd.Commands.Asked.{Switches, Asks, RejectsFlag, Rejects}
use mpd.Commands.Arguments.{
  check_int-is_int, check_range-small, song_arg-Given, target_arg-Place, status_arg-Flag,
  status_arg-bad,
}
use mpd.Commands.Handled.{Handled, print_result-Handled, return_ok-Handled, with_arg-Handled}

-- What holds of an argument, if it can be read.
abbrev pub IfRead {ℓ} : {A : Type ℓ} → Checked A → (A → Type 0) → Type 0
IfRead (value a) P = P a
IfRead (bad e) P = Unit {0}

module _ (g : GRand) where
  if_read {ℓ} :
      {A : Type ℓ} (a : Checked A) (P : A → Type 0) (x : A) → a ≡ value x → IfRead a P → P x
  if_read a P x e h = subst (λ y. IfRead y P) e h

  -- a place for a block, whose end is UINT_MAX in an open range
  abbrev MoveOk : Playlist g.State → ℕ × ℕ → ℤ → Type 0
  MoveOk p r (pos n) = r.0 < r.1
  MoveOk p r (negsuc n) =
      (r.0 < r.1)
      × (c : ℕ) × (p.current ≡ some c)
      × (relative_target g p r.0 (p.queue.order c) (n + 1) + (r.1 - r.0) ≤ p.queue.length)

  abbrev TargetOk : Playlist g.State → ℤ → Type 0
  TargetOk p (pos n) = Unit
  TargetOk p (negsuc n) = (c : ℕ) × (p.current ≡ some c)

  -- What the handlers need of a call and do not check: a range to shuffle does not start at
  -- UINT_MAX; a range to move is not empty, and goes to a position, or behind a current song to where
  -- it fits; a song moves to a position, or there is a current song.
  abbrev pub IsSane : Libc → Playlist g.State → Call → Type 0
  IsSane c p (shuffle_range (some a)) = IfRead (check_range c a) λ r. r.0 + 1 < uint_mod
  IsSane c p (move a b) =
      IfRead (check_range c a) λ r. IfRead (check_int c b check_integer) λ to. MoveOk p r to
  IsSane c p (moveid a b) = IfRead (check_int c b check_integer) λ to. TargetOk p to
  IsSane c p _ = Unit

  with_single-IsOk :
      (c : Libc) (pc : Player) (s : State (Playlist g.State)) (b : Bool) (p : Playlist g.State)
      → IsOk p
      → IsOk (with_single g c pc s b p)
  with_single-IsOk c pc s b p fine = record {
    valid = modes-IsValid p.queue.repeat_mode b p.queue.consume fine.valid;
    current_lt = fine.current_lt;
    queued_lt = fine.queued_lt;
    has_current = fine.has_current;
  }

  target-IsSound :
      (p : Playlist g.State) (id : ℕ) (n : ℤ)
      → is_int n ≡ true
      → TargetOk p n
      → IsSound p (move_one id (target_arg g n))
  unfolding is_int
  target-IsSound p id (pos n) int okay = ground (arith, int)
  target-IsSound p id (negsuc n) int okay = okay

  move_to-Answers :
      (p : Playlist g.State) (r : ℕ × ℕ) (n : ℤ)
      → IsOk p
      → is_int n ≡ true
      → r.1 < uint_mod
      → MoveOk p r n
      → Answers (move_songs g p r.0 r.1 (target_arg g n))
  unfolding is_int
  move_to-Answers p r (pos n) fine int small lt =
      move_block-Answers g p r.0 r.1 n fine lt small (ground (arith, int))
  move_to-Answers p r (negsuc n) fine int small (lt, c, e, fits) =
      move_relative-Answers g p r.0 r.1 c (n + 1) fine lt small e fits

  module _ (c : Libc) (pc : Player) (s : State (Playlist g.State)) (name : Bytes)
      (set : s.current_command ≡ some name) (fine : IsOk s.world) where
    -- What the handler of the call `k` leaves.
    abbrev Leaves : Call → Answer g → Type 0
    Leaves k = Handled g s name (Asks g c pc s.world k) (Rejects c k)

    set_status-Leaves :
        (set_flag : Bool → Option (Playlist g.State)) (a : Bytes)
        → ((b : Bool) → Keeps (set_flag b))
        → Handled g s name
            (Switches g c pc s.world a set_flag)
            (RejectsFlag c a)
            (set_status g c pc s set_flag a)
    unfolding set_status
    set_status-Leaves set_flag a keeps =
        with_arg-Handled g s name set _ _ (check_int c a need_integer) _ (λ e h. inl h)
          λ n e.
            with_arg-Handled g s name set _ _ (status_arg g n) _
              (λ wrong h.
                let (zero_no, one_no, is) = status_arg-bad g n wrong h in
                inr (n, e, zero_no, one_no, is))
              λ b h.
                return_ok-Handled g s name set _ _ (set_flag b) (keeps b)
                  (n, b, e, status_arg-Flag g n b h, refl)

    handle_next-Leaves : Leaves next_song (handle_next g c pc s)
    unfolding handle_next
    handle_next-Leaves =
        let (p, e, fine') =
          next-Keeps g pc (with_single g c pc s false s.world)
            (with_single-IsOk c pc s false s.world fine) in
        return_ok-Handled g s name set _ _ _
          (
            with_single g c pc s s.world.queue.single p,
            rw (e) refl,
            with_single-IsOk c pc s s.world.queue.single p fine',
          )
          (p, e, rw (e) refl)

    handle_move-Leaves :
        (a b : Bytes) → IsSane c s.world (move a b) → Leaves (move a b) (handle_move g c pc s a b)
    unfolding handle_move
    handle_move-Leaves a b sane =
        with_arg-Handled g s name set _ _ (check_range c a) _ (λ e h. inl h)
          λ r e.
            with_arg-Handled g s name set _ _ (check_int c b check_integer) _ (λ e h. inr h)
              λ to e'.
                print_result-Handled g s name set _ _ _
                  (move_to-Answers s.world r to fine (check_int-is_int g c b check_integer to e')
                    (check_range-small g c a r e)
                    (if_read _ (MoveOk s.world r) to e' (
                      if_read _ (λ x. IfRead (check_int c b check_integer) λ t. MoveOk s.world x t)
                        r e sane)))
                  (r.0, r.1, to, _, e, e', target_arg-Place g to, refl)

    handle_moveid-Leaves :
        (a b : Bytes)
        → IsSane c s.world (moveid a b)
        → Leaves (moveid a b) (handle_moveid g c pc s a b)
    unfolding handle_moveid
    handle_moveid-Leaves a b sane =
        with_arg-Handled g s name set _ _ (check_int c a check_integer) _ (λ e h. inl h)
          λ id e.
            with_arg-Handled g s name set _ _ (check_int c b check_integer) _ (λ e h. inr h)
              λ to e'.
                print_result-Handled g s name set _ _ _
                  (move_id-Answers g s.world (to_uint id) (target_arg g to) fine (
                    target-IsSound s.world (to_uint id) to
                      (check_int-is_int g c b check_integer to e')
                      (if_read _ (TargetOk s.world) to e' sane)))
                  (id, to, _, e, e', target_arg-Place g to, refl)

  -- On a playlist in order, with a command set and sane arguments, every call of a handler of the playlist
  -- returns, and the playlist that it leaves is in order. If an argument cannot be read, that playlist is
  -- the old one, and the answer COMMAND_RETURN_ERROR and the error of the argument. Else it is the
  -- one that the operation that the call asks for leaves, and the answer COMMAND_RETURN_OK and no
  -- error if this succeeds, and COMMAND_RETURN_ERROR and the error of its result if not.
  pub handle-Handled :
      (c : Libc) (pc : Player) (s : State (Playlist g.State)) (name : Bytes) (k : Call)
      → s.current_command ≡ some name
      → IsOk s.world
      → IsSane c s.world k
      → Handled g s name (Asks g c pc s.world k) (Rejects c k) (handle g c pc s k)
  unfolding handle handle_play handle_playid handle_shuffle handle_stop handle_clear handle_previous
      handle_delete handle_deleteid handle_repeat handle_single handle_consume handle_random
      handle_swap handle_swapid perform
  handle-Handled c pc s name (play none) set fine sane =
      print_result-Handled g s name set _ _ _ (play_song-Answers g s.world none fine) refl
  handle-Handled c pc s name (play (some a)) set fine sane =
      with_arg-Handled g s name set _ _ (check_int c a need_positive) _ (λ e h. h)
        λ n e.
          print_result-Handled g s name set _ _ _ (play_song-Answers g s.world (song_arg g n) fine)
            (n, _, e, song_arg-Given g n, refl)
  handle-Handled c pc s name (playid none) set fine sane =
      print_result-Handled g s name set _ _ _ (play_id-Answers g s.world none fine) refl
  handle-Handled c pc s name (playid (some a)) set fine sane =
      with_arg-Handled g s name set _ _ (check_int c a need_positive) _ (λ e h. h)
        λ n e.
          print_result-Handled g s name set _ _ _ (play_id-Answers g s.world (song_arg g n) fine)
            (n, _, e, song_arg-Given g n, refl)
  handle-Handled c pc s name (shuffle_range none) set fine sane =
      return_ok-Handled g s name set _ _ _
        (perform-Keeps g (shuffle_songs 0 s.world.queue.length) s.world fine (omega arith)) refl
  handle-Handled c pc s name (shuffle_range (some a)) set fine sane =
      with_arg-Handled g s name set _ _ (check_range c a) _ (λ e h. h)
        λ r e.
          return_ok-Handled g s name set _ _ _
            (perform-Keeps g (shuffle_songs r.0 r.1) s.world fine (if_read _ _ r e sane))
            (r.0, r.1, e, refl)
  handle-Handled c pc s name stop set fine sane =
      return_ok-Handled g s name set _ _ _ (perform-Keeps g stop_playing s.world fine tt) refl
  handle-Handled c pc s name clear set fine sane =
      return_ok-Handled g s name set _ _ _ (perform-Keeps g clear_all s.world fine tt) refl
  handle-Handled c pc s name next_song set fine sane = handle_next-Leaves c pc s name set fine
  handle-Handled c pc s name previous_song set fine sane =
      return_ok-Handled g s name set _ _ _ (perform-Keeps g go_back s.world fine tt) refl
  handle-Handled c pc s name (delete a) set fine sane =
      with_arg-Handled g s name set _ _ (check_range c a) _ (λ e h. h)
        λ r e.
          print_result-Handled g s name set _ _ _ (delete_range-Answers g pc s.world r.0 r.1 fine)
            (r.0, r.1, e, refl)
  handle-Handled c pc s name (deleteid a) set fine sane =
      with_arg-Handled g s name set _ _ (check_int c a need_positive) _ (λ e h. h)
        λ id e.
          print_result-Handled g s name set _ _ _ (delete_id-Answers g pc s.world (to_uint id) fine)
            (id, e, refl)
  handle-Handled c pc s name (set_repeat_mode a) set fine sane =
      set_status-Leaves c pc s name set fine (set_repeat g s.world) a
        λ b. perform-Keeps g (repeat_mode b) s.world fine tt
  handle-Handled c pc s name (set_single_mode a) set fine sane =
      set_status-Leaves c pc s name set fine (set_single g s.world) a
        λ b. perform-Keeps g (single b) s.world fine tt
  handle-Handled c pc s name (set_consume_mode a) set fine sane =
      set_status-Leaves c pc s name set fine (λ b. some (set_consume g s.world b)) a
        λ b. perform-Keeps g (consume b) s.world fine tt
  handle-Handled c pc s name (set_random_mode a) set fine sane =
      set_status-Leaves c pc s name set fine (set_random g s.world) a
        λ b. perform-Keeps g (random b) s.world fine tt
  handle-Handled c pc s name (move a b) set fine sane =
      handle_move-Leaves c pc s name set fine a b sane
  handle-Handled c pc s name (moveid a b) set fine sane =
      handle_moveid-Leaves c pc s name set fine a b sane
  handle-Handled c pc s name (swap a b) set fine sane =
      with_arg-Handled g s name set _ _ (check_int c a check_integer) _ (λ e h. inl h)
        λ song1 e.
          with_arg-Handled g s name set _ _ (check_int c b check_integer) _ (λ e h. inr h)
            λ song2 e'.
              print_result-Handled g s name set _ _ _
                (swap_songs-Answers g s.world (to_uint song1) (to_uint song2) fine)
                (song1, song2, e, e', refl)
  handle-Handled c pc s name (swapid a b) set fine sane =
      with_arg-Handled g s name set _ _ (check_int c a check_integer) _ (λ e h. inl h)
        λ id1 e.
          with_arg-Handled g s name set _ _ (check_int c b check_integer) _ (λ e h. inr h)
            λ id2 e'.
              print_result-Handled g s name set _ _ _
                (swap_songs_id-Answers g s.world (to_uint id1) (to_uint id2) fine)
                (id1, id2, e, e', refl)
