-- ===== src/Commands.antt =====
-- src/command.c: finding a command, checking a request against it, and running a line of a client. What a
-- handler does is an argument, `handle`. The table is src/command.c's `commands`.
pub mod Table
pub mod Run
mod Order
pub mod Lookup
pub mod Requests
mod Checked
pub mod Process
pub mod Numbers
pub mod Handlers
pub mod Handled
pub mod Asked
mod Arguments
pub mod Keeping
use Prim.Native.String.{String}
use mpd.Base.{
  ℕ, zero, suc, ◌+◌, ◌-◌, ◌/◌, Bool, true, false, not, ◌&&◌, ◌||◌, Option, none, some, List, [],
  ◌∷◌, ltb, leb, ◌==◌, if◌then◌else◌, Array, length,
}
use mpd.Tokenizer.{Bytes, Glib, Token, TokenError, word, end_of_line, failed, next_word, next_param}
use mpd.Client.{Return, error, ok, bytes}

-- the sign of what `strcmp` returns
pub data Sign : Type 0 where
  less equal greater : Sign

unfoldable pub strcmp : Bytes → Bytes → Sign
strcmp [] [] = equal
strcmp [] (d ∷ b) = less
strcmp (c ∷ a) [] = greater
strcmp (c ∷ a) (d ∷ b) = if c == d then strcmp a b else if ltb c d then less else greater

-- A set of the bits PERMISSION_READ, _ADD, _CONTROL and _ADMIN of src/permission.h.
pub record Permission : Type 0 where
  pub read : Bool
  pub add : Bool
  pub control : Bool
  pub admin : Bool

-- a bit that is needed is there
abbrev pub has : Bool → Bool → Bool
has there needed = not needed || there

-- `needed == (permission & needed)`
unfoldable pub permits : Permission → Permission → Bool
permits permission needed =
    has permission.read needed.read
    && has permission.add needed.add
    && has permission.control needed.control
    && has permission.admin needed.admin

-- A row of the table; `min` and `max` are `none` for -1.
pub record Command : Type 0 where
  pub cmd : Bytes
  pub permission : Permission
  pub min : Option ℕ
  pub max : Option ℕ

-- `limit + 1`
abbrev pub after : Option ℕ → ℕ
after none = 0
after (some n) = n + 1

-- `enum ack`, the errors of this part
pub data Ack : Type 0 where
  arg permission_denied unknown no_exist player_sync playlist_max : Ack

-- what is wrong with an argument
pub data BadArg : Type 0 where
  need_positive need_range check_integer need_integer : BadArg
  number_is_negative number_too_large integer_expected boolean_expected not_0_or_1 : BadArg

-- the texts of its errors
pub data Message : Type 0 where
  no_command_given too_many_words : Message
  bad_argument : BadArg → Message
  no_such_song bad_song_index not_playing playlist_is_full : Message
  bad_word : Option TokenError → Message
  unknown_command no_permission wrong_number too_few too_many : Bytes → Message

-- A line "ACK [error@num] {command} text"
pub record Failure : Type 0 where
  pub ack : Ack
  pub num : ℕ
  pub command : Bytes
  pub text : Message

-- The variables `current_command` and `command_list_num`, the errors written, the last one first,
-- and the rest of the world.
pub record State {ℓ} (World : Type ℓ) : Type ℓ where
  pub world : World
  pub current_command : Option Bytes
  pub command_list_num : ℕ
  pub failures : List Failure

module _ {ℓ} {World : Type ℓ} where
  -- `command_error`; `none` when the assertion that a command is set fails.
  unfoldable pub command_error : State World → Ack → Message → Option (State World)
  command_error s e text = elim s.current_command [
    | none ↦ none
    | some c ↦ some (record s {
      current_command = none;
      failures =
          record { ack = e; num = s.command_list_num; command = c; text = text } ∷ s.failures;
    })
  ]

  abbrev pub set_command : State World → Bytes → State World
  set_command s c = record s { current_command = some c }

  abbrev pub unset_command : State World → State World
  unset_command s = record s { current_command = none }

-- The loop of `command_lookup`, between `a` and `b`, for at most `rounds` rounds.
unfoldable pub lookup_loop : (ℕ → Command) → Bytes → ℕ → ℕ → ℕ → Option Command
unfolding strcmp
lookup_loop commands name zero a b = none
lookup_loop commands name (suc rounds) a b =
    let i = (a + b) / 2 in
    elim (strcmp name (commands i).cmd) [
      | equal ↦ some (commands i)
      | less ↦ if ltb a i then lookup_loop commands name rounds a i else none
      | greater ↦ if ltb (i + 1) b then lookup_loop commands name rounds (i + 1) b else none
    ]

-- The binary search in the first `num_commands` commands; every round makes the segment shorter.
unfoldable pub command_lookup : (ℕ → Command) → ℕ → Bytes → Option Command
unfolding lookup_loop
command_lookup commands num_commands name =
    lookup_loop commands name (suc num_commands) 0 num_commands

-- What is wrong with a request; `none` when nothing is.
unfoldable pub request_error : Command → Permission → ℕ → Bytes → Option (Ack × Message)
unfolding permits
request_error cmd permission argc name =
    let min = after cmd.min in
    let max = after cmd.max in
    if not (permits permission cmd.permission)
    then some (permission_denied, no_permission cmd.cmd)
    else if min == 0
    then none
    else if (min == max) && not (max == argc)
    then some (arg, wrong_number name)
    else if ltb argc min
    then some (arg, too_few name)
    else if ltb max argc && not (max == 0)
    then some (arg, too_many name)
    else none

module _ {ℓ} {World : Type ℓ} where
  -- `command_check_request` for a client: the result, and the state.
  unfoldable pub command_check_request :
      Command → State World → Permission → ℕ → Bytes → Option (Bool × State World)
  unfolding request_error command_error
  command_check_request cmd s permission argc name = elim (request_error cmd permission argc name) [
    | none ↦ some (true, s)
    | some (e, text) ↦ elim (command_error s e text) [ none ↦ none | some s' ↦ some (false, s') ]
  ]

  -- `command_checked_lookup`, of a command with the word `name` and `argc` words in all
  unfoldable pub command_checked_lookup :
      (ℕ → Command)
      → ℕ
      → State World
      → Permission
      → ℕ
      → Bytes
      → Option (Option Command × State World)
  unfolding command_lookup command_check_request command_error
  command_checked_lookup commands num_commands s permission argc name =
      elim (command_lookup commands num_commands name) [
        | none ↦ elim (command_error (set_command s []) unknown (unknown_command name)) [
          | none ↦ none
          | some s' ↦ some (none, s')
        ]
        | some cmd ↦ elim (command_check_request cmd (set_command s cmd.cmd) permission argc name) [
          | none ↦ none
          | some (false, s') ↦ some (none, s')
          | some (true, s') ↦ some (some cmd, s')
        ]
      ]
