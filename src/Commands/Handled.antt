-- ===== src/Commands/Handled.antt =====
-- src/command.c: the common parts of the handlers: an argument is read, an operation done, its result printed.
use mathlib.Core.Path.{subst}
use mpd.Base.{◌≡◌, refl, sym, Option, none, some, ◌∷◌}
use mpd.Tokenizer.{Bytes}
use mpd.Client.{Return, error}
use mpd.Queue.Random.{GRand}
use mpd.Playlist.{Playlist, ◌>>=◌, >>=-some}
use mpd.Playlist.Edit.{Result, success, no_such_song, bad_range, too_large, not_playing}
use mpd.Playlist.Inv.{IsOk}
use mpd.Playlist.Playing.{Keeps, Answers}
use mpd.Commands.{
  State, command_error, Ack, arg, no_exist, player_sync, playlist_max, Message, bad_argument,
  bad_song_index, playlist_is_full, Failure, BadArg,
}
use mpd.Commands.Numbers.{Checked, value, bad}
use mpd.Commands.Handlers.{Answer, refuse, print_playlist_result, print_result, return_ok, with_arg}

-- The error that a client is told of for the result of an operation, and its text.
abbrev pub told : Result → Option (Ack × Message)
told success = none
told no_such_song = some (no_exist, Message.no_such_song)
told bad_range = some (arg, bad_song_index)
told too_large = some (playlist_max, playlist_is_full)
told not_playing = some (player_sync, Message.not_playing)

module _ (g : GRand) where
  -- The state where one error of the command `name` is written.
  abbrev pub with_failure :
      State (Playlist g.State) → Bytes → Ack × Message → State (Playlist g.State)
  with_failure s name (e, text) =
      let f : Failure = record { ack = e; num = s.command_list_num; command = name; text = text } in
      record s { current_command = none; failures = f ∷ s.failures }

  abbrev pub Outcome : Type 0
  Outcome = Option (Result × Playlist g.State)

  -- What the handler of the command `name` leaves, where `Asks` holds of what the operation asked for
  -- returns, and `Rejects` of what is wrong with an argument: the playlist that the operation leaves,
  -- in order, with COMMAND_RETURN_OK and no error on success, or else COMMAND_RETURN_ERROR and the error of
  -- its result; or the old playlist and the error of the argument.
  pub data Handled (s : State (Playlist g.State)) (name : Bytes) (Asks : Outcome → Type 0)
      (Rejects : BadArg → Type 0) (r : Answer g) : Type 0 where
    done :
        (p : Playlist g.State)
        → Asks (some (success, p))
        → r ≡ some (Return.ok, record s { world = p })
        → IsOk p
        → Handled s name Asks Rejects r
    failed :
        (p : Playlist g.State) (result : Result) (why : Ack × Message)
        → Asks (some (result, p))
        → told result ≡ some why
        → r ≡ some (error, with_failure (record s { world = p }) name why)
        → IsOk p
        → Handled s name Asks Rejects r
    rejected :
        (e : BadArg)
        → Rejects e
        → r ≡ some (error, with_failure s name (arg, bad_argument e))
        → Handled s name Asks Rejects r

  -- `current_command` is the command `name`, as `command_process` leaves it to the handler.
  module _ (s : State (Playlist g.State)) (name : Bytes) (set : s.current_command ≡ some name)
      (Asks : Outcome → Type 0) (Rejects : BadArg → Type 0) where
    refuse-failure :
        (p : Playlist g.State) (e : Ack) (text : Message)
        → refuse g (record s { world = p }) e text
          ≡ some (error, with_failure (record s { world = p }) name (e, text))
    unfolding refuse command_error
    refuse-failure p e text = rw (set, refuse) refl

    print_playlist_result-Handled :
        (p : Playlist g.State) (r : Result)
        → Asks (some (r, p))
        → IsOk p
        → Handled s name Asks Rejects (print_playlist_result g (record s { world = p }) r)
    unfolding print_playlist_result
    print_playlist_result-Handled p success a ok = done p a refl ok
    print_playlist_result-Handled p no_such_song a ok =
        failed p no_such_song _ a refl (refuse-failure p _ _) ok
    print_playlist_result-Handled p bad_range a ok =
        failed p bad_range _ a refl (refuse-failure p _ _) ok
    print_playlist_result-Handled p too_large a ok =
        failed p too_large _ a refl (refuse-failure p _ _) ok
    print_playlist_result-Handled p not_playing a ok =
        failed p not_playing _ a refl (refuse-failure p _ _) ok

    pub print_result-Handled :
        (o : Outcome) → Answers o → Asks o → Handled s name Asks Rejects (print_result g s o)
    unfolding print_result
    print_result-Handled o (r, p, e, ok) a =
        subst (λ x. Handled s name Asks Rejects (print_result g s x)) (sym e)
          (print_playlist_result-Handled p r (subst Asks e a) ok)

    pub return_ok-Handled :
        (o : Option (Playlist g.State))
        → Keeps o
        → Asks (o >>= λ p. some (success, p))
        → Handled s name Asks Rejects (return_ok g s o)
    unfolding return_ok
    return_ok-Handled o (p, e, ok) a =
        subst (λ x. Handled s name Asks Rejects (return_ok g s x)) (sym e)
          (done p (subst Asks (>>=-some _ e) a) refl ok)

    pub with_arg-Handled {ℓ} :
        {A : Type ℓ} (a : Checked A) (f : A → Answer g)
        → ((e : BadArg) → a ≡ bad e → Rejects e)
        → ((x : A) → a ≡ value x → Handled s name Asks Rejects (f x))
        → Handled s name Asks Rejects (with_arg g s a f)
    unfolding with_arg
    with_arg-Handled (value x) f wrong h = h x refl
    with_arg-Handled (bad e) f wrong h =
        rejected e (wrong e refl) (refuse-failure s.world arg (bad_argument e))
