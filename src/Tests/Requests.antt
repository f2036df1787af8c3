-- ===== src/Tests/Requests.antt =====
-- The theorems on src/command.c at small requests.
use mpd.Base.{ℕ, suc, ◌%◌, ◌≡◌, ◌↔◌, refl, true, Option, none, some, List, [], ◌∷◌, length}
use mpd.Tokenizer.{Bytes}
use mpd.Client.{Return, ok, bytes}
use mpd.Playlist.{Playlist}
use mpd.Commands.{Command, Permission, State, command_lookup, request_error, permits}
use mpd.Commands.Run.{command_process}
use mpd.Commands.Table.{commands, row, admin, read}
use mpd.Commands.Lookup.{find, commands-lookup}
use mpd.Commands.Requests.{Allows, request_error-none}
use mpd.Commands.Process.{Processed, command_process-Processed}
use mpd.Commands.Numbers.{Libc, ℤ, pos}
use mpd.Commands.Handlers.{delete, handle}
use mpd.Commands.Handled.{Handled}
use mpd.Commands.Asked.{Asks, Rejects}
use mpd.Commands.Keeping.{handle-Handled}
use mpd.Tests.Tokens.{ascii}
use mpd.Tests.Queues.{drawing}
use mpd.Tests.Playlists.{player, playing_last, playing_last-IsOk}

commands-lookup_example :
    command_lookup (row (commands true)) (length (commands true)) (bytes "ping")
    ≡ find (commands true) (bytes "ping")
commands-lookup_example = commands-lookup true (bytes "ping")

abbrev kill_row : Command
kill_row = record { cmd = bytes "kill"; permission = admin; min = none; max = none }

request_error-none_example :
    (request_error kill_row read 1 (bytes "kill") ≡ none)
    ↔ ((permits read admin ≡ true) × Allows none none 1)
request_error-none_example = request_error-none kill_row read 1 (bytes "kill")

abbrev counting_all : Command → State ℕ → List Bytes → Option (Return × State ℕ)
counting_all cmd s argv = some (ok, record s { world = suc s.world })

abbrev everything : ℕ → Permission
everything w = record { read = true; add = true; control = true; admin = true }

abbrev idle_state : State ℕ
idle_state = record { world = 0; current_command = none; command_list_num = 0; failures = [] }

command_process-Processed_example :
    Processed ascii (row (commands true)) 74 everything counting_all idle_state 2 (bytes "ping") (
      command_process ascii
        (row (commands true))
        74
        everything
        counting_all
        idle_state
        2
        (bytes "ping"))
command_process-Processed_example =
    command_process-Processed ascii (row (commands true)) 74 everything counting_all idle_state 2
      (bytes "ping")

-- A library for one digit.
abbrev digit : Bytes → ℤ × Bytes
digit [] = (pos 0, [])
digit (c ∷ s) = (pos (c % 16), s)

abbrev one_digit : Libc
one_digit = record { strtol = digit; strtoul = λ s. (0, s) }

abbrev deleting : State (Playlist ℕ)
deleting = record {
  world = playing_last;
  current_command = some (bytes "delete");
  command_list_num = 0;
  failures = [];
}

handle-Handled_example :
    Handled drawing deleting
      (bytes "delete")
      (Asks drawing one_digit player playing_last (delete (bytes "2")))
      (Rejects one_digit (delete (bytes "2")))
      (handle drawing one_digit player deleting (delete (bytes "2")))
handle-Handled_example =
    handle-Handled drawing one_digit player deleting (bytes "delete") (delete (bytes "2")) refl
      playing_last-IsOk tt
