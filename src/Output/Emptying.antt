-- ===== src/Output/Emptying.antt =====
-- src/client_write.c: emptying the buffer of a client sends or defers what it holds.
use mpd.Base.{◌<◌, true, ◌≡◌, [], ◌++◌, length}
use mpd.Tokenizer.{Bytes}
use mpd.Output.{Channel, Client, send_buf_size}
use mpd.Output.Buffers.{gather}
use mpd.Output.Writes.{sent_to, Repeat}
use mpd.Output.Direct.{Direct, IsBooked}

module _ (ch : Channel) where
  -- the bytes sent, those deferred and those not yet sent
  unfoldable pub total : Client ch → Bytes
  unfolding gather
  total c = sent_to ch c ++ (gather c.deferred_send ++ c.send_buf)

module _ (ch : Channel) (start : ch.State) where
  -- A client that the bytes `all` were written to: it is connected and has them all, sent or
  -- waiting; or it has expired and was sent a beginning of them; or the channel took, on its way from `start`, some bytes of a
  -- deferred buffer with the status `again`, and these will be sent twice.
  pub data Delivered (c : Client ch) (all : Bytes) : Type 0 where
    held :
        IsBooked ch start c → length c.send_buf < send_buf_size → total ch c ≡ all → Delivered c all
    lost : c.expired ≡ true → (rest : Bytes) → sent_to ch c ++ rest ≡ all → Delivered c all
    repeated : Repeat ch start all → Delivered c all

  -- the client with its buffer emptied
  abbrev emptied : Client ch → Client ch
  emptied c = record c { send_buf = [] }
