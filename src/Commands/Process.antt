-- ===== src/Commands/Process.antt =====
-- src/command.c: what `command_process` does with a line of a client.
use mpd.Base.{
  ℕ, suc, ◌-◌, ◌<◌, true, false, ◌≡◌, refl, ap, ◌∙◌, Option, none, some, List, [], ◌∷◌, leb, length,
  arith, ◌⊎◌, inl, inr, Bool-cases, Option-cases, if-true, if-false,
}
use mpd.Tokenizer.{Bytes, Glib, Token, TokenError, word, end_of_line, failed, next_word}
use mpd.Client.{Return, error}
use mpd.Commands.{
  Permission, permits, Command, Ack, arg, unknown, Message, no_command_given, too_many_words,
  bad_word, unknown_command, State, command_error, set_command, command_lookup, request_error,
  command_checked_lookup,
}
use mpd.Commands.Run.{
  command_argv_max, Args, parse_args, refuse_line, run_command, command_process, invoke, leave,
}
use mpd.Commands.Requests.{Allows, request_error-none}
use mpd.Commands.Checked.{refusal, checked_unknown, checked_right, checked_wrong}

List-cases {ℓ} : {A : Type ℓ} (xs : List A) → (xs ≡ []) ⊎ ((x : A) × (ys : List A) × (xs ≡ x ∷ ys))
List-cases [] = inl refl
List-cases (x ∷ xs) = inr (x, xs, refl)

module _ {ℓ} {World : Type ℓ} (g : Glib) (commands : ℕ → Command) (num_commands : ℕ)
    (permission : World → Permission)
    (handle : Command → State World → List Bytes → Option (Return × State World)) where
  -- What `command_process` makes of a line: an error, with one message and no other change, or a
  -- call of the handler of the command that the first word names, which the client may run.
  pub data Processed (s : State World) (num : ℕ) (line : Bytes) (r : Option (Return × State World))
      : Type ℓ where
    refused :
        (name : Bytes) (left : ℕ) (e : Ack) (text : Message)
        → r ≡ some (error, refusal s num left name e text)
        → Processed s num line r
    handled :
        (name rest : Bytes) (args : List Bytes) (cmd : Command)
        → next_word g line ≡ word name rest
        → (parse_args g (command_argv_max - 1) rest).argv ≡ args
        → (parse_args g (command_argv_max - 1) rest).rest ≡ []
        → suc (length args) < command_argv_max
        → command_lookup commands num_commands name ≡ some cmd
        → permits (permission s.world) cmd.permission ≡ true
        → Allows cmd.min cmd.max (suc (length args))
        → r
          ≡ leave g commands num_commands permission handle (
              handle cmd
                (record s { command_list_num = num; current_command = some cmd.cmd })
                (name ∷ args))
        → Processed s num line r

  refuse_line-Processed :
      (s : State World) (num : ℕ) (line rest : Bytes) (e : Option TokenError)
      → Processed s num line (
          refuse_line g commands num_commands permission handle
            (record s { command_list_num = num })
            rest
            e)
  unfolding refuse_line command_error refusal
  refuse_line-Processed s num line [] e = refused [] num unknown no_command_given refl
  refuse_line-Processed s num line (c ∷ rest) e = refused [] num unknown (bad_word e) refl

  run_checked :
      (s : State World) (name : Bytes) (args : Args)
      → leb command_argv_max (suc (length args.argv)) ≡ false
      → args.rest ≡ []
      → run_command g commands num_commands permission handle s name args
        ≡ invoke g commands num_commands permission handle (name ∷ args.argv) (
            command_checked_lookup commands num_commands
              (set_command s name)
              (permission s.world)
              (suc (length args.argv))
              name)
  unfolding run_command
  run_checked s name args small z = if-false _ _ small ∙ rw (z) refl

  -- the line is read, and has a command
  found-Processed :
      (s : State World) (num : ℕ) (line name rest : Bytes) (cmd : Command)
      (o : Option (Ack × Message))
      → next_word g line ≡ word name rest
      → (parse_args g (command_argv_max - 1) rest).rest ≡ []
      → leb command_argv_max (suc (length (parse_args g (command_argv_max - 1) rest).argv)) ≡ false
      → command_lookup commands num_commands name ≡ some cmd
      → request_error cmd
          (permission s.world)
          (suc (length (parse_args g (command_argv_max - 1) rest).argv))
          name
        ≡ o
      → Processed s num line (
          run_command g commands num_commands permission handle
            (record s { command_list_num = num })
            name
            (parse_args g (command_argv_max - 1) rest))
  unfolding invoke refusal
  found-Processed s num line name rest cmd none w z small l e =
      let args = parse_args g (command_argv_max - 1) rest in
      let s' : State World = record s { command_list_num = num } in
      let argc = suc (length args.argv) in
      let fit = (request_error-none cmd (permission s.world) argc name).0 e in
      handled name rest args.argv cmd w refl z (ground (arith, small)) l fit.0 fit.1 (
        run_checked s' name args small z
        ∙ ap (invoke g commands num_commands permission handle (name ∷ args.argv)) (
            checked_right commands num_commands (set_command s' name) (permission s.world) argc name
              cmd l e))
  found-Processed s num line name rest cmd (some (k, text)) w z small l e =
      let args = parse_args g (command_argv_max - 1) rest in
      let s' : State World = record s { command_list_num = num } in
      let argc = suc (length args.argv) in
      refused cmd.cmd 0 k text (
        run_checked s' name args small z
        ∙ ap (invoke g commands num_commands permission handle (name ∷ args.argv)) (
            checked_wrong commands num_commands (set_command s' name) (permission s.world) argc name
              cmd k text l e))

  -- the line is read
  named-Processed :
      (s : State World) (num : ℕ) (line name rest : Bytes)
      → next_word g line ≡ word name rest
      → (parse_args g (command_argv_max - 1) rest).rest ≡ []
      → leb command_argv_max (suc (length (parse_args g (command_argv_max - 1) rest).argv)) ≡ false
      → Processed s num line (
          run_command g commands num_commands permission handle
            (record s { command_list_num = num })
            name
            (parse_args g (command_argv_max - 1) rest))
  unfolding invoke refusal
  named-Processed s num line name rest w z small =
      let args = parse_args g (command_argv_max - 1) rest in
      let s' : State World = record s { command_list_num = num } in
      let argc = suc (length args.argv) in
      elim (Option-cases (command_lookup commands num_commands name)) [
        | inr (cmd, l) ↦
            found-Processed s num line name rest cmd
              (request_error cmd (permission s.world) argc name) w z small l refl
        | inl l ↦ refused [] 0 unknown (unknown_command name) (
            run_checked s' name args small z
            ∙ ap (invoke g commands num_commands permission handle (name ∷ args.argv)) (
                checked_unknown commands num_commands (set_command s' name) (permission s.world)
                  argc name l))
      ]

  too_many-Processed :
      (s : State World) (num : ℕ) (line name : Bytes) (args : Args)
      → leb command_argv_max (suc (length args.argv)) ≡ true
      → Processed s num line (
          run_command g commands num_commands permission handle
            (record s { command_list_num = num })
            name
            args)
  unfolding run_command command_error refusal
  too_many-Processed s num line name args big =
      refused name num arg too_many_words (if-true _ _ big)

  bad_args-Processed :
      (s : State World) (num : ℕ) (line name : Bytes) (args : Args) (c : ℕ) (rest : Bytes)
      → leb command_argv_max (suc (length args.argv)) ≡ false
      → args.rest ≡ c ∷ rest
      → Processed s num line (
          run_command g commands num_commands permission handle
            (record s { command_list_num = num })
            name
            args)
  unfolding run_command command_error refusal
  bad_args-Processed s num line name args c rest small e =
      refused name num arg (bad_word args.failure) (if-false _ _ small ∙ rw (e) refl)

  run_command-Processed :
      (s : State World) (num : ℕ) (line name rest : Bytes)
      → next_word g line ≡ word name rest
      → Processed s num line (
          run_command g commands num_commands permission handle
            (record s { command_list_num = num })
            name
            (parse_args g (command_argv_max - 1) rest))
  run_command-Processed s num line name rest w =
      let args = parse_args g (command_argv_max - 1) rest in
      elim (Bool-cases (leb command_argv_max (suc (length args.argv)))) [
        | inl big ↦ too_many-Processed s num line name args big
        | inr small ↦ elim (List-cases args.rest) [
          | inl z ↦ named-Processed s num line name rest w z small
          | inr (c, cs, e) ↦ bad_args-Processed s num line name args c cs small e
        ]
      ]

  token-Processed :
      (s : State World) (num : ℕ) (line : Bytes) (t : Token)
      → next_word g line ≡ t
      → Processed s num line (elim t [
        | end_of_line ↦
            refuse_line g commands num_commands permission handle
              (record s { command_list_num = num })
              []
              none
        | failed e rest ↦
            refuse_line g commands num_commands permission handle
              (record s { command_list_num = num })
              rest
              (some e)
        | word name rest ↦
            run_command g commands num_commands permission handle
              (record s { command_list_num = num })
              name
              (parse_args g (command_argv_max - 1) rest)
      ])
  token-Processed s num line end_of_line w = refuse_line-Processed s num line [] none
  token-Processed s num line (failed e rest) w = refuse_line-Processed s num line rest (some e)
  token-Processed s num line (word name rest) w = run_command-Processed s num line name rest w

  -- Every line either is refused with exactly one error and no other change than to the
  -- variables of the command, or calls the handler of the command that its first word names: with at most
  -- 36 parameters, their number within the limits of the command, by a client that has its
  -- permissions, and with `current_command` set. No assertion of the errors fails outside the handler.
  pub command_process-Processed :
      (s : State World) (num : ℕ) (line : Bytes)
      → Processed s num line (command_process g commands num_commands permission handle s num line)
  unfolding command_process
  command_process-Processed s num line = token-Processed s num line (next_word g line) refl
