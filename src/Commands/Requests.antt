-- ===== src/Commands/Requests.antt =====
-- src/command.c: what `command_check_request` lets through.
use mpd.Base.{ℕ, ◌+◌, ◌≤◌, ◌<◌, true, ◌≡◌, ◌↔◌, Option, none, some, arith}
use mpd.Tokenizer.{Bytes}
use mpd.Commands.{Permission, permits, Command, request_error}

-- The number of words, the command's among them, that the limits of a command allow.
unfoldable pub Allows : Option ℕ → Option ℕ → ℕ → Type 0
Allows none max argc = Unit {0}
Allows (some m) none argc = m < argc
Allows (some m) (some n) argc = (m < argc) × (argc ≤ n + 1)

to_Allows :
    (min max : Option ℕ) (p : Permission) (c : Permission) (cmd name : Bytes) (argc : ℕ)
    → request_error (record { cmd = cmd; permission = c; min = min; max = max }) p argc name ≡ none
    → (permits p c ≡ true) × Allows min max argc
unfolding request_error Allows
to_Allows none max p c cmd name argc e = (ground (arith, e), tt)
to_Allows (some m) none p c cmd name argc e = (ground (arith, e), ground (arith, e))
to_Allows (some m) (some n) p c cmd name argc e =
    (ground (arith, e), (ground (arith, e), ground (arith, e)))

from_Allows :
    (min max : Option ℕ) (p : Permission) (c : Permission) (cmd name : Bytes) (argc : ℕ)
    → permits p c ≡ true
    → Allows min max argc
    → request_error (record { cmd = cmd; permission = c; min = min; max = max }) p argc name ≡ none
unfolding request_error Allows
from_Allows none none p c cmd name argc e w = ground (arith, e)
from_Allows none (some n) p c cmd name argc e w = ground (arith, e)
from_Allows (some m) none p c cmd name argc e w = ground (arith, e, w)
from_Allows (some m) (some n) p c cmd name argc e w = ground (arith, e, w.0, w.1)

-- A request passes the check exactly when the client has the permissions of the command and the
-- number of words is within the command's limits.
pub request_error-none :
    (cmd : Command) (permission : Permission) (argc : ℕ) (name : Bytes)
    → (request_error cmd permission argc name ≡ none)
      ↔ ((permits permission cmd.permission ≡ true) × Allows cmd.min cmd.max argc)
request_error-none cmd permission argc name = (
  to_Allows cmd.min cmd.max permission cmd.permission cmd.cmd name argc,
  λ (e, w). from_Allows cmd.min cmd.max permission cmd.permission cmd.cmd name argc e w,
)
