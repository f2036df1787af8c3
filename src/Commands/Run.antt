-- ===== src/Commands/Run.antt =====
-- src/command.c: `command_process`, which splits a line and runs its command.

use mpd.Base.{ℕ, zero, suc, ◌-◌, Option, none, some, List, [], ◌∷◌, leb, if◌then◌else◌, length}
use mpd.Tokenizer.{Bytes, Glib, TokenError, word, end_of_line, failed, next_word, next_param}
use mpd.Client.{Return, error}
use mpd.Commands.{
  Command, Permission, State, arg, unknown, no_command_given, too_many_words, bad_word,
  command_error, set_command, unset_command, command_checked_lookup,
}

-- `COMMAND_ARGV_MAX`, with TAG_NUM_OF_ITEM_TYPES = 18
abbrev pub command_argv_max : ℕ
command_argv_max = 38

-- What the loop over the parameters leaves: the parameters, the rest of the line, the error.
pub record Args : Type 0 where
  pub argv : List Bytes
  pub rest : Bytes
  pub failure : Option TokenError

module _ (g : Glib) where
  abbrev pub more_args : Bytes → Args → Args
  more_args w a = record a { argv = w ∷ a.argv }

  -- The loop of `command_process` over the parameters, with `slots` elements of `argv` left.
  unfoldable pub parse_args : ℕ → Bytes → Args
  unfolding next_param
  parse_args zero line = record { argv = []; rest = line; failure = none }
  parse_args (suc slots) line = elim (next_param g line) [
    | word w rest ↦ more_args w (parse_args slots rest)
    | end_of_line ↦ record { argv = []; rest = []; failure = none }
    | failed e rest ↦ record { argv = []; rest = rest; failure = some e }
  ]

module _ {ℓ} {World : Type ℓ} (g : Glib) (commands : ℕ → Command) (num_commands : ℕ)
    (permission : World → Permission)
    (handle : Command → State World → List Bytes → Option (Return × State World)) where
  abbrev ends : Option (State World) → Option (Return × State World)
  ends none = none
  ends (some s) = some (error, unset_command s)

  -- the first word cannot be read
  unfoldable pub refuse_line :
      State World → Bytes → Option TokenError → Option (Return × State World)
  unfolding command_error
  refuse_line s [] e = ends (command_error (set_command s []) unknown no_command_given)
  refuse_line s (c ∷ rest) e = ends (command_error (set_command s []) unknown (bad_word e))

  -- the end of `command_process`
  abbrev pub leave : Option (Return × State World) → Option (Return × State World)
  leave none = none
  leave (some (ret, s)) = some (ret, record (unset_command s) { command_list_num = 0 })

  -- the handler is called when the command was found and the request is right
  unfoldable pub invoke :
      List Bytes → Option (Option Command × State World) → Option (Return × State World)
  invoke argv none = none
  invoke argv (some (none, s)) = leave (some (error, s))
  invoke argv (some (some cmd, s)) = leave (handle cmd s argv)

  -- the rest of the line is read
  unfoldable pub run_command : State World → Bytes → Args → Option (Return × State World)
  unfolding command_error command_checked_lookup invoke
  run_command s name args =
      let argc = suc (length args.argv) in
      let s' = set_command s name in
      if leb command_argv_max argc
      then ends (command_error s' arg too_many_words)
      else elim args.rest [
        | c ∷ rest ↦ ends (command_error s' arg (bad_word args.failure))
        | [] ↦
            invoke (name ∷ args.argv)
              (command_checked_lookup commands num_commands s' (permission s.world) argc name)
      ]

  unfoldable pub command_process : State World → ℕ → Bytes → Option (Return × State World)
  unfolding next_word refuse_line parse_args run_command
  command_process s num line =
      let s' : State World = record s { command_list_num = num } in
      elim (next_word g line) [
        | end_of_line ↦ refuse_line s' [] none
        | failed e rest ↦ refuse_line s' rest (some e)
        | word name rest ↦ run_command s' name (parse_args g (command_argv_max - 1) rest)
      ]
