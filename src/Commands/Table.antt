-- ===== src/Commands/Table.antt =====
-- src/command.c: the table of the commands.
use Prim.Native.String.{String}
use mpd.Base.{ℕ, zero, suc, Bool, true, false, Option, none, some, List, [], ◌∷◌, ◌++◌}
use mpd.Client.{bytes}
use mpd.Commands.{Command, Permission}

abbrev pub nothing : Permission
nothing = record { read = false; add = false; control = false; admin = false }

abbrev pub read : Permission
read = record nothing { read = true }

abbrev pub add : Permission
add = record nothing { add = true }

abbrev pub control : Permission
control = record nothing { control = true }

abbrev pub admin : Permission
admin = record nothing { admin = true }

abbrev command : String → Permission → Option ℕ → Option ℕ → Command
command name permission min max = record {
  cmd = bytes name;
  permission = permission;
  min = min;
  max = max;
}

-- the commands before and after "sticker", which ENABLE_SQLITE adds
abbrev first_commands : List Command
first_commands =
    command "add" add (some 1) (some 1)
    ∷ command "addid" add (some 1) (some 2)
    ∷ command "clear" control (some 0) (some 0)
    ∷ command "clearerror" control (some 0) (some 0)
    ∷ command "close" nothing none none
    ∷ command "commands" nothing (some 0) (some 0)
    ∷ command "consume" control (some 1) (some 1)
    ∷ command "count" read (some 2) none
    ∷ command "crossfade" control (some 1) (some 1)
    ∷ command "currentsong" read (some 0) (some 0)
    ∷ command "decoders" read (some 0) (some 0)
    ∷ command "delete" control (some 1) (some 1)
    ∷ command "deleteid" control (some 1) (some 1)
    ∷ command "disableoutput" admin (some 1) (some 1)
    ∷ command "enableoutput" admin (some 1) (some 1)
    ∷ command "find" read (some 2) none
    ∷ command "findadd" read (some 2) none
    ∷ command "idle" read (some 0) none
    ∷ command "kill" admin none none
    ∷ command "list" read (some 1) none
    ∷ command "listall" read (some 0) (some 1)
    ∷ command "listallinfo" read (some 0) (some 1)
    ∷ command "listplaylist" read (some 1) (some 1)
    ∷ command "listplaylistinfo" read (some 1) (some 1)
    ∷ command "listplaylists" read (some 0) (some 0)
    ∷ command "load" add (some 1) (some 1)
    ∷ command "lsinfo" read (some 0) (some 1)
    ∷ command "mixrampdb" control (some 1) (some 1)
    ∷ command "mixrampdelay" control (some 1) (some 1)
    ∷ command "move" control (some 2) (some 2)
    ∷ command "moveid" control (some 2) (some 2)
    ∷ command "next" control (some 0) (some 0)
    ∷ command "notcommands" nothing (some 0) (some 0)
    ∷ command "outputs" read (some 0) (some 0)
    ∷ command "password" nothing (some 1) (some 1)
    ∷ command "pause" control (some 0) (some 1)
    ∷ command "ping" nothing (some 0) (some 0)
    ∷ command "play" control (some 0) (some 1)
    ∷ command "playid" control (some 0) (some 1)
    ∷ command "playlist" read (some 0) (some 0)
    ∷ command "playlistadd" control (some 2) (some 2)
    ∷ command "playlistclear" control (some 1) (some 1)
    ∷ command "playlistdelete" control (some 2) (some 2)
    ∷ command "playlistfind" read (some 2) none
    ∷ command "playlistid" read (some 0) (some 1)
    ∷ command "playlistinfo" read (some 0) (some 1)
    ∷ command "playlistmove" control (some 3) (some 3)
    ∷ command "playlistsearch" read (some 2) none
    ∷ command "plchanges" read (some 1) (some 1)
    ∷ command "plchangesposid" read (some 1) (some 1)
    ∷ command "previous" control (some 0) (some 0)
    ∷ command "random" control (some 1) (some 1)
    ∷ command "rename" control (some 2) (some 2)
    ∷ command "repeat" control (some 1) (some 1)
    ∷ command "replay_gain_mode" control (some 1) (some 1)
    ∷ command "replay_gain_status" read (some 0) (some 0)
    ∷ command "rescan" admin (some 0) (some 1)
    ∷ command "rm" control (some 1) (some 1)
    ∷ command "save" control (some 1) (some 1)
    ∷ command "search" read (some 2) none
    ∷ command "seek" control (some 2) (some 2)
    ∷ command "seekid" control (some 2) (some 2)
    ∷ command "setvol" control (some 1) (some 1)
    ∷ command "shuffle" control (some 0) (some 1)
    ∷ command "single" control (some 1) (some 1)
    ∷ command "stats" read (some 0) (some 0)
    ∷ command "status" read (some 0) (some 0)
    ∷ []

abbrev last_commands : List Command
last_commands =
    command "stop" control (some 0) (some 0)
    ∷ command "swap" control (some 2) (some 2)
    ∷ command "swapid" control (some 2) (some 2)
    ∷ command "tagtypes" read (some 0) (some 0)
    ∷ command "update" admin (some 0) (some 1)
    ∷ command "urlhandlers" read (some 0) (some 0)
    ∷ []

-- `commands`; `sqlite` tells whether ENABLE_SQLITE is defined.
unfoldable pub commands : Bool → List Command
commands false = first_commands ++ last_commands
commands true = first_commands ++ (command "sticker" admin (some 3) none ∷ last_commands)

-- `commands[i]`; behind the end, where the code does not read, the row `command "" ...`
unfoldable pub row : List Command → ℕ → Command
row [] i = command "" nothing none none
row (c ∷ cs) zero = c
row (c ∷ cs) (suc i) = row cs i
