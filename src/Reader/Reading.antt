-- ===== src/Reader/Reading.antt =====
-- src/client_read.c: what a read does, on every answer of the channel.
use mpd.Base.{◌⊎◌, ℕ, ◌+◌, ◌≤◌, ◌<◌, Bool, ◌≡◌, [], ◌++◌, length}
use mpd.Tokenizer.{Bytes}
use mpd.Client.{Return, ok, close}
use mpd.Output.{normal, again, eof, error}
use mpd.Fifo.{Fifo}
use mpd.Fifo.Refine.{contents, IsValid}
use mpd.Reader.{Input}
use mpd.Reader.Serve.{serve}

module _ {ℓ} {World : Type ℓ} (chomp : Bytes → Bytes) (expired : World → Bool)
    (process_line : World → Bytes → Return × World) (ch : Input) where
  -- What `client_read` does with the buffer `f` in the world `w` and the channel `s`.
  pub data Read (f : Fifo) (w : World) (s : ch.State) (r : Return × Fifo × World × ch.State)
      : Type ℓ where
    -- the buffer is full: nothing is read, and the client is closed
    overflown :
        (f' : Fifo)
        → length (contents f) ≡ f.size
        → r ≡ (close, f', w, s)
        → contents f' ≡ contents f
        → Read f w s r
    -- nothing to read
    waiting :
        (f' : Fifo) (s' : ch.State) (max : ℕ) (bs : Bytes)
        → 0 < max
        → length (contents f) + max ≤ f.size
        → ch.read_chars s max ≡ (again, bs, s')
        → r ≡ (ok, f', w, s')
        → contents f' ≡ contents f
        → IsValid f'
        → f'.size ≡ f.size
        → Read f w s r
    -- the end, or an error
    ended :
        (f' : Fifo) (s' : ch.State) (max : ℕ) (bs : Bytes)
        → 0 < max
        → length (contents f) + max ≤ f.size
        → (ch.read_chars s max ≡ (eof, bs, s')) ⊎ (ch.read_chars s max ≡ (error, bs, s'))
        → r ≡ (close, f', w, s')
        → contents f' ≡ contents f
        → Read f w s r
    -- bytes were read: the lines of all bytes are processed, the rest is kept
    lines :
        (ret : Return) (f' : Fifo) (w' : World) (s' : ch.State) (max : ℕ) (bs : Bytes)
        → 0 < max
        → length (contents f) + max ≤ f.size
        → ch.read_chars s max ≡ (normal, bs, s')
        → r ≡ (ret, f', w', s')
        → serve chomp expired process_line [] (contents f ++ bs) w ≡ (ret, contents f', w')
        → IsValid f'
        → f'.size ≡ f.size
        → Read f w s r
