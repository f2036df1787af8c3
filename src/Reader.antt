-- ===== src/Reader.antt =====
-- src/client_read.c: the lines that a client sends. The channel and `g_strndup` and `g_strchomp` are GLib's; what a line does,
-- `client_process_line`, is an argument.
mod Serve
mod Lines
pub mod Reading
use mpd.Base.{
  ℕ, zero, suc, ◌+◌, ◌≤◌, Bool, true, false, ◌≡◌, Option, none, some, List, [], ◌∷◌, ◌==◌,
  if◌then◌else◌, length, take,
}
use mpd.Tokenizer.{Bytes}
use mpd.Client.{Return, ok, kill, close}
use mpd.Output.{Status, normal, again, eof, error}
use mpd.Fifo.{Fifo, available, read, consume, write, fill, append}

abbrev pub newline : ℕ
newline = b'\n'

-- `memchr`: the offset of the first `b`
unfoldable pub memchr : ℕ → Bytes → Option ℕ
memchr b [] = none
memchr b (c ∷ s) =
    if c == b then some 0 else elim (memchr b s) [ none ↦ none | some n ↦ some (n + 1) ]

-- COMMAND_RETURN_KILL or COMMAND_RETURN_CLOSE
abbrev pub stops : Return → Bool
stops kill = true
stops close = true
stops _ = false

-- `g_io_channel_read_chars`: it puts at most the given number of bytes into the buffer.
pub record Input : Type 1 where
  pub State : Type 0
  pub read_chars : State → ℕ → Status × Bytes × State
  pub read_le : (s : State) (max : ℕ) → length (read_chars s max).1 ≤ max

-- `chomp` is the line that `g_strndup` and `g_strchomp` make of some bytes.
module _ {ℓ} {World : Type ℓ} (chomp : Bytes → Bytes) (expired : World → Bool)
    (process_line : World → Bytes → Return × World) where
  unfoldable pub read_line : Fifo → Option (Bytes × Fifo)
  unfolding read memchr consume
  read_line f = elim (read f) [
    | none ↦ none
    | some p ↦ elim (memchr newline p) [
      | none ↦ none
      | some n ↦ some (chomp (take n p), consume f (n + 1))
    ]
  ]

  -- The loop of `client_input_received`, for at most `rounds` lines.
  unfoldable pub process_lines : ℕ → Fifo → World → Return × Fifo × World
  unfolding read_line
  process_lines zero f w = (ok, f, w)
  process_lines (suc rounds) f w = elim (read_line f) [
    | none ↦ (ok, f, w)
    | some (line, f') ↦
        let (ret, w') = process_line w line in
        elim (stops ret) [
          | true ↦ (ret, f', w')
          | false ↦ elim (expired w') [
            | true ↦ (close, f', w')
            | false ↦ process_lines rounds f' w'
          ]
        ]
  ]

  -- `client_input_received`; every line takes a byte.
  unfoldable pub input_received : Fifo → World → ℕ → Return × Fifo × World
  unfolding process_lines append available
  input_received f w bytes_read = let f' = append f bytes_read in process_lines (available f') f' w

  module _ (ch : Input) where
    -- `client_read`, on what the channel read into the buffer `f`
    abbrev pub received :
        Fifo → World → Status × Bytes × ch.State → Return × Fifo × World × ch.State
    received f w (normal, bytes, s) =
        let (ret, f', w') = input_received (fill f bytes) w (length bytes) in (ret, f', w', s)
    received f w (again, bytes, s) = (ok, f, w, s)
    received f w (eof, bytes, s) = (close, f, w, s)
    received f w (error, bytes, s) = (close, f, w, s)

    unfoldable pub client_read : Fifo → World → ch.State → Return × Fifo × World × ch.State
    unfolding input_received write fill
    client_read f w s =
        let (room, f') = write f in
        elim room [
          | none ↦ (close, f', w, s)
          | some max_length ↦ received f' w (ch.read_chars s max_length)
        ]
