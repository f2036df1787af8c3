-- ===== src/Commands/Asked.antt =====
-- src/command.c: what each call of a handler asks of the playlist, and what it rejects of its arguments.
use mpd.Base.{ℕ, suc, ◌+◌, ◌≡◌, ◌≢◌, ◌⊎◌, Bool, true, false, Option, none, some}
use mpd.Tokenizer.{Bytes}
use mpd.Queue.Random.{GRand}
use mpd.Playlist.{Playlist, Player, ◌>>=◌, set_repeat, set_single, set_consume, set_random}
use mpd.Playlist.Edit.{
  success, Target, position, behind_current, stop_playlist, clear_playlist, swap_songs,
  delete_range,
}
use mpd.Playlist.Move.{move_songs, move_id}
use mpd.Playlist.Shuffle.{shuffle, delete_id, swap_songs_id}
use mpd.Playlist.Control.{play_song, play_id, next, previous}
use mpd.Commands.{BadArg, need_positive, check_integer, need_integer, not_0_or_1}
use mpd.Commands.Numbers.{ℤ, pos, negsuc, Libc, value, bad, to_uint, check_int, check_range}
use mpd.Commands.Handlers.{
  Call, play, playid, shuffle_range, stop, clear, next_song, previous_song, delete, deleteid,
  set_repeat_mode, set_single_mode, set_consume_mode, set_random_mode, move, moveid, swap, swapid,
}
use mpd.Commands.Handled.{Outcome}

-- The song or id that a number stands for, -1 being none.
pub data Given : ℤ → Option ℕ → Type 0 where
  none_given : Given (negsuc 0) none
  number : {n : ℕ} → Given (pos n) (some n)
  wrapped : {n : ℕ} → Given (negsuc (suc n)) (some (to_uint (negsuc (suc n))))

-- The place that a number stands for.
pub data Place : ℤ → Target → Type 0 where
  at_position : {n : ℕ} → Place (pos n) (position n)
  from_current : {n : ℕ} → Place (negsuc n) (behind_current (n + 1))

-- The flag that a number stands for.
pub data Flag : ℤ → Bool → Type 0 where
  off : Flag (pos 0) false
  on : Flag (pos 1) true

module _ (g : GRand) (c : Libc) (pc : Player) (p : Playlist g.State) where
  -- the outcome of an operation that has no result
  abbrev pub completes : Option (Playlist g.State) → Outcome g
  completes o = o >>= λ p'. some (success, p')

  abbrev pub with_mode : Bool → Playlist g.State → Playlist g.State
  with_mode b p' = record p' { queue = record p'.queue { single = b } }

  -- A mode that is switched to what the argument says.
  abbrev pub Switches : Bytes → (Bool → Option (Playlist g.State)) → Outcome g → Type 0
  Switches a set o =
      (n : ℤ) × (b : Bool) × (check_int c a need_integer ≡ value n)
      × Flag n b
      × (o ≡ completes (set b))

  -- A call, and what the operation that it asks for returns. "next" asks for the next song outside single
  -- mode, and puts this mode back.
  abbrev pub Asks : Call → Outcome g → Type 0
  Asks (play none) o = o ≡ play_song g p none
  Asks (play (some a)) o =
      (n : ℤ) × (song : Option ℕ) × (check_int c a need_positive ≡ value n)
      × Given n song
      × (o ≡ play_song g p song)
  Asks (playid none) o = o ≡ play_id g p none
  Asks (playid (some a)) o =
      (n : ℤ) × (id : Option ℕ) × (check_int c a need_positive ≡ value n)
      × Given n id
      × (o ≡ play_id g p id)
  Asks (shuffle_range none) o = o ≡ completes (shuffle g p 0 p.queue.length)
  Asks (shuffle_range (some a)) o =
      (start end : ℕ) × (check_range c a ≡ value (start, end))
      × (o ≡ completes (shuffle g p start end))
  Asks stop o = o ≡ completes (stop_playlist g p)
  Asks clear o = o ≡ completes (clear_playlist g p)
  Asks next_song o =
      (p' : Playlist g.State) × (next g pc (with_mode false p) ≡ some p')
      × (o ≡ some (success, with_mode p.queue.single p'))
  Asks previous_song o = o ≡ completes (previous g p)
  Asks (delete a) o =
      (start end : ℕ) × (check_range c a ≡ value (start, end)) × (o ≡ delete_range g pc p start end)
  Asks (deleteid a) o =
      (id : ℤ) × (check_int c a need_positive ≡ value id) × (o ≡ delete_id g pc p (to_uint id))
  Asks (set_repeat_mode a) o = Switches a (set_repeat g p) o
  Asks (set_single_mode a) o = Switches a (set_single g p) o
  Asks (set_consume_mode a) o = Switches a (λ b. some (set_consume g p b)) o
  Asks (set_random_mode a) o = Switches a (set_random g p) o
  Asks (move a b) o =
      (start end : ℕ) × (n : ℤ) × (to : Target) × (check_range c a ≡ value (start, end))
      × (check_int c b check_integer ≡ value n)
      × Place n to
      × (o ≡ move_songs g p start end to)
  Asks (moveid a b) o =
      (id n : ℤ) × (to : Target) × (check_int c a check_integer ≡ value id)
      × (check_int c b check_integer ≡ value n)
      × Place n to
      × (o ≡ move_id g p (to_uint id) to)
  Asks (swap a b) o =
      (song1 song2 : ℤ) × (check_int c a check_integer ≡ value song1)
      × (check_int c b check_integer ≡ value song2)
      × (o ≡ swap_songs g p (to_uint song1) (to_uint song2))
  Asks (swapid a b) o =
      (id1 id2 : ℤ) × (check_int c a check_integer ≡ value id1)
      × (check_int c b check_integer ≡ value id2)
      × (o ≡ swap_songs_id g p (to_uint id1) (to_uint id2))

-- The argument of a mode is no number, or neither 0 nor 1.
abbrev pub RejectsFlag : Libc → Bytes → BadArg → Type 0
RejectsFlag c a e =
    (check_int c a need_integer ≡ bad e)
    ⊎ ((n : ℤ) × (check_int c a need_integer ≡ value n)
        × (n ≢ pos 0)
        × (n ≢ pos 1)
        × (e ≡ not_0_or_1))

-- A call, and what is wrong with an argument of it.
abbrev pub Rejects : Libc → Call → BadArg → Type 0
Rejects c (play (some a)) e = check_int c a need_positive ≡ bad e
Rejects c (playid (some a)) e = check_int c a need_positive ≡ bad e
Rejects c (shuffle_range (some a)) e = check_range c a ≡ bad e
Rejects c (delete a) e = check_range c a ≡ bad e
Rejects c (deleteid a) e = check_int c a need_positive ≡ bad e
Rejects c (set_repeat_mode a) e = RejectsFlag c a e
Rejects c (set_single_mode a) e = RejectsFlag c a e
Rejects c (set_consume_mode a) e = RejectsFlag c a e
Rejects c (set_random_mode a) e = RejectsFlag c a e
Rejects c (move a b) e = (check_range c a ≡ bad e) ⊎ (check_int c b check_integer ≡ bad e)
Rejects c (moveid a b) e =
    (check_int c a check_integer ≡ bad e) ⊎ (check_int c b check_integer ≡ bad e)
Rejects c (swap a b) e =
    (check_int c a check_integer ≡ bad e) ⊎ (check_int c b check_integer ≡ bad e)
Rejects c (swapid a b) e =
    (check_int c a check_integer ≡ bad e) ⊎ (check_int c b check_integer ≡ bad e)
Rejects c _ e = ⊥
