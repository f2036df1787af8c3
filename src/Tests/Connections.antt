-- ===== src/Tests/Connections.antt =====
-- The theorems on src/client_write.c, src/client_read.c, src/fifo_buffer.c and src/client_idle.c at small inputs.
use mpd.Base.{
  ℕ, suc, ◌+◌, ◌≡◌, ◌≤◌, refl, true, false, Bool, [], ◌∷◌, ◌++◌, arith, length, take, drop, ltb,
  ◌==◌, if◌then◌else◌,
}
use mpd.Tokenizer.{Bytes}
use mpd.Client.{Return, ok, bytes}
use mpd.Output.{normal, Channel, Client}
use mpd.Fifo.{Fifo, write, fill, append, consume}
use mpd.Fifo.Refine.{contents, IsValid, Writable, write-Writable, append-contents, consume-contents}
use mpd.Reader.{Input}
use mpd.Idle.{Flags, Line, changed, idle_names, callback, idle_wait, no_flags}
use mpd.Idle.Events.{IsTold, IsQuiet, name_of, events, callback-IsTold, events-IsTold, idle-IsQuiet}

-- A channel that takes at most four bytes at a time.
abbrev at_most_four : Bytes → ℕ
at_most_four chars = if ltb 4 (length chars) then 4 else length chars

slow_le : (chars : Bytes) → at_most_four chars ≤ length chars
slow_le chars = ground arith

abbrev slow : Channel
slow = record {
  State = Bytes;
  write = λ s chars. (normal, at_most_four chars, s ++ take (at_most_four chars) chars);
  sent = λ s. s;
  written_le = λ s chars. slow_le chars;
  sent-write = λ s chars. refl;
}

abbrev waiting_bytes : Client slow
waiting_bytes = record {
  channel = bytes "OK";
  expired = false;
  send_buf = bytes "pong";
  deferred_send = bytes "hello" ∷ [];
  deferred_bytes = 13;
  max_output_buffer_size = 8192;
}

-- A buffer of 8 bytes with the bytes 3 to 5.
abbrev small : Fifo
small = record { size = 8; start = 3; end = 5; buffer = λ i. i + 1 }

small-IsValid : IsValid small
small-IsValid = record { start_le = omega arith; end_le = omega arith }

write-Writable_example : Writable small (write small).1 (write small).0
write-Writable_example = write-Writable small small-IsValid (omega arith)

append-contents_example :
    (contents (append (fill small (bytes "ab")) (length (bytes "ab")))
      ≡ contents small ++ bytes "ab")
    × IsValid (append (fill small (bytes "ab")) (length (bytes "ab")))
append-contents_example = append-contents small (bytes "ab") small-IsValid (omega arith)

consume-contents_example :
    (contents (consume small 2) ≡ drop 2 (contents small)) × IsValid (consume small 2)
consume-contents_example = consume-contents small 2 small-IsValid (omega arith)

-- A channel with a line ready, or a part of it.
abbrev offered : ℕ → Bytes
offered max = if ltb max 5 then [] else bytes "ping" ++ (b'\n' ∷ [])

line_le : (max : ℕ) → length (offered max) ≤ max
line_le max = ground arith

abbrev one_line : Input
one_line = record {
  State = ℕ;
  read_chars = λ s max. (normal, offered max, s);
  read_le = λ s max. line_le max;
}

abbrev count_line : ℕ → Bytes → Return × ℕ
count_line w line = (ok, suc w)

abbrev nobody : ℕ → Bool
nobody w = false

abbrev player_event : Flags
player_event i = i == 3

abbrev idler : Bool → mpd.Idle.Client
idler waiting = record {
  expired = false;
  idle_waiting = waiting;
  idle_flags = no_flags;
  idle_subscriptions = player_event;
  output = [];
}

callback-IsTold_example :
    IsTold (changed (name_of idle_names 3)) (callback player_event (idler true)).output
    × ((callback player_event (idler true)).idle_waiting ≡ false)
callback-IsTold_example =
    callback-IsTold (idler true) player_event 3 refl refl (omega arith) refl refl

events-IsTold_example :
    ((events ([] ++ (player_event ∷ [])) (idler false)).output ≡ [])
    × ((idle_wait (events ([] ++ (player_event ∷ [])) (idler false)) player_event).0 ≡ true)
    × IsTold
        (changed (name_of idle_names 3))
        (idle_wait (events ([] ++ (player_event ∷ [])) (idler false)) player_event).1.output
events-IsTold_example =
    events-IsTold [] [] player_event player_event (idler false) 3 refl refl (omega arith) refl refl

idle-IsQuiet_example : IsQuiet (events (player_event ∷ []) (idle_wait (idler false) player_event).1)
idle-IsQuiet_example = idle-IsQuiet (idler false) player_event (player_event ∷ [])
