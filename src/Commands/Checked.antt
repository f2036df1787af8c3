-- ===== src/Commands/Checked.antt =====
-- src/command.c: what `command_checked_lookup` returns, on each of its ways.
use mpd.Base.{ℕ, true, false, ◌≡◌, refl, ◌∙◌, none, some, [], ◌∷◌}
use mpd.Tokenizer.{Bytes}
use mpd.Commands.{
  Permission, Command, Ack, unknown, Message, unknown_command, State, command_error, set_command,
  command_lookup, request_error, command_check_request, command_checked_lookup,
}

module _ {ℓ} {World : Type ℓ} where
  -- One more error for the command `name`; `num` is the number that is left in `command_list_num`.
  unfoldable pub refusal : State World → ℕ → ℕ → Bytes → Ack → Message → State World
  refusal s line_num num name e text = record s {
    current_command = none;
    command_list_num = num;
    failures = record { ack = e; num = line_num; command = name; text = text } ∷ s.failures;
  }

module _ {ℓ} {World : Type ℓ} (commands : ℕ → Command) (num_commands : ℕ) where
  -- `command_checked_lookup` when the command is found
  checked_with :
      (s : State World) (p : Permission) (argc : ℕ) (name : Bytes) (cmd : Command)
      → command_lookup commands num_commands name ≡ some cmd
      → command_checked_lookup commands num_commands s p argc name
        ≡ elim (command_check_request cmd (set_command s cmd.cmd) p argc name) [
          | none ↦ none
          | some (false, s') ↦ some (none, s')
          | some (true, s') ↦ some (some cmd, s')
        ]
  unfolding command_checked_lookup
  checked_with s p argc name cmd l = rw (l, command_checked_lookup)

  check_none :
      (s : State World) (p : Permission) (argc : ℕ) (name : Bytes) (cmd : Command)
      → request_error cmd p argc name ≡ none
      → command_check_request cmd s p argc name ≡ some (true, s)
  unfolding command_check_request
  check_none s p argc name cmd e = rw (e, command_check_request)

  check_some :
      (s : State World) (p : Permission) (argc : ℕ) (name : Bytes) (cmd : Command) (k : Ack)
      (text : Message)
      → request_error cmd p argc name ≡ some (k, text)
      → command_check_request cmd (set_command s cmd.cmd) p argc name
        ≡ some (false, refusal s s.command_list_num s.command_list_num cmd.cmd k text)
  unfolding command_check_request command_error refusal
  check_some s p argc name cmd k text e = rw (e, command_check_request)

  pub checked_unknown :
      (s : State World) (p : Permission) (argc : ℕ) (name : Bytes)
      → command_lookup commands num_commands name ≡ none
      → command_checked_lookup commands num_commands s p argc name
        ≡ some (
          none,
          refusal s s.command_list_num s.command_list_num [] unknown (unknown_command name),
        )
  unfolding command_checked_lookup command_error refusal
  checked_unknown s p argc name l = rw (l, command_checked_lookup)

  pub checked_right :
      (s : State World) (p : Permission) (argc : ℕ) (name : Bytes) (cmd : Command)
      → command_lookup commands num_commands name ≡ some cmd
      → request_error cmd p argc name ≡ none
      → command_checked_lookup commands num_commands s p argc name
        ≡ some (some cmd, set_command s cmd.cmd)
  checked_right s p argc name cmd l e =
      checked_with s p argc name cmd l
      ∙ rw (check_none (set_command s cmd.cmd) p argc name cmd e) refl

  pub checked_wrong :
      (s : State World) (p : Permission) (argc : ℕ) (name : Bytes) (cmd : Command) (k : Ack)
      (text : Message)
      → command_lookup commands num_commands name ≡ some cmd
      → request_error cmd p argc name ≡ some (k, text)
      → command_checked_lookup commands num_commands s p argc name
        ≡ some (none, refusal s s.command_list_num s.command_list_num cmd.cmd k text)
  checked_wrong s p argc name cmd k text l e =
      checked_with s p argc name cmd l ∙ rw (check_some s p argc name cmd k text e) refl
