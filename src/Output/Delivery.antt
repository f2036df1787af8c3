-- ===== src/Output/Delivery.antt =====
-- src/client_write.c: what a client is sent of what is written to it, and the memory of its deferred
-- buffers.
use mpd.Base.{ℕ, ◌-◌, ◌++◌, length, take, ltb, if◌then◌else◌}
use mpd.Tokenizer.{Bytes}
use mpd.Output.{Channel, Client, send_buf_size}

module _ (ch : Channel) (start : ch.State) where
  -- the bytes that a round takes
  abbrev copied : Client ch → Bytes → ℕ
  copied c buffer =
      if ltb (length buffer) (send_buf_size - length c.send_buf)
      then length buffer
      else send_buf_size - length c.send_buf

  abbrev filled_up : Client ch → Bytes → Client ch
  filled_up c buffer = record c { send_buf = c.send_buf ++ take (copied c buffer) buffer }
