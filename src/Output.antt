-- ===== src/Output.antt =====
-- src/client_write.c, with client_set_expired of src/client_expire.c: what a client is sent. The channel is
-- GLib's. `send_buf` holds the `send_buf_used` bytes in use. The timer `last_activity` and the
-- log messages are left out, and with them the idle source that deletes an expired client.
pub mod Writes
pub mod Buffers
pub mod Direct
pub mod Emptying
pub mod Delivery
use mpd.Base.{
  is_empty, is_empty-nil, is_empty-cons, ℕ, zero, suc, ◌+◌, ◌-◌, ◌≤◌, Bool, true, false, not, ◌||◌,
  ◌≡◌, List, [], ◌∷◌, ◌++◌, length, take, drop, ltb, leb, ◌==◌, if◌then◌else◌, add_size, sub_size,
}
use mpd.Tokenizer.{Bytes}

-- `GIOStatus`
pub data Status : Type 0 where
  normal again eof error : Status

-- A channel without a buffer: `g_io_channel_write_chars` writes a beginning of what it is given and
-- returns a status and `bytes_written`, which need not be 0 when the status is not normal.
pub record Channel : Type 1 where
  pub State : Type 0
  pub write : State → Bytes → Status × ℕ × State
  -- the bytes that the peer was sent
  pub sent : State → Bytes
  pub written_le : (s : State) (chars : Bytes) → (write s chars).1 ≤ length chars
  pub sent-write :
      (s : State) (chars : Bytes) → sent (write s chars).2 ≡ sent s ++ take (write s chars).1 chars

-- `sizeof(client->send_buf)`
abbrev pub send_buf_size : ℕ
send_buf_size = 16384

-- `sizeof(*buf) - sizeof(buf->data)` of a `struct deferred_buffer`
abbrev pub header_size : ℕ
header_size = 8

module _ (ch : Channel) where
  -- `expired` is `channel == NULL`.
  pub record Client : Type 0 where
    pub channel : ch.State
    pub expired : Bool
    pub send_buf : Bytes
    pub deferred_send : List Bytes
    pub deferred_bytes : ℕ
    pub max_output_buffer_size : ℕ

  abbrev pub set_expired : Client → Client
  set_expired c = record c { expired = true }

  -- `client_write_deferred_buffer`, on the status of the write
  abbrev pub flushed : Client → Status × ℕ × ch.State → ℕ × Client
  flushed c (normal, n, s) = (n, record c { channel = s })
  flushed c (again, n, s) = (0, record c { channel = s })
  flushed c (eof, n, s) = (0, set_expired (record c { channel = s }))
  flushed c (error, n, s) = (0, set_expired (record c { channel = s }))

  unfoldable pub write_deferred_buffer : Client → Bytes → ℕ × Client
  write_deferred_buffer c chars = flushed c (ch.write c.channel chars)

  -- The loop of `client_write_deferred`, over the buffers of `deferred_send`.
  unfoldable pub flush : List Bytes → Client → Client
  unfolding write_deferred_buffer
  flush [] c = record c { deferred_send = [] }
  flush (chars ∷ rest) c =
      let (n, c') = write_deferred_buffer c chars in
      elim (n == 0) [
        | true ↦ record c' { deferred_send = chars ∷ rest }
        | false ↦ elim (ltb n (length chars)) [
          | true ↦ record c' {
            deferred_send = drop n chars ∷ rest;
            deferred_bytes = sub_size c'.deferred_bytes n;
          }
          | false ↦ flush rest (record c' {
            deferred_bytes = sub_size c'.deferred_bytes (header_size + length chars);
          })
        ]
      ]

  unfoldable pub write_deferred : Client → Client
  unfolding flush
  write_deferred c = flush c.deferred_send c

  unfoldable pub defer_output : Client → Bytes → Client
  defer_output c chars =
      let c' : Client = record c {
        deferred_bytes = add_size c.deferred_bytes (header_size + length chars);
      } in
      if ltb c'.max_output_buffer_size c'.deferred_bytes
      then set_expired c'
      else record c' { deferred_send = c'.deferred_send ++ (chars ∷ []) }

  -- `client_write_direct`, on the status of the write
  unfoldable pub written : Client → Bytes → Status × ℕ × ch.State → Client
  unfolding defer_output
  written c chars (eof, n, s) = set_expired (record c { channel = s })
  written c chars (error, n, s) = set_expired (record c { channel = s })
  written c chars (_, n, s) =
      let c' : Client = record c { channel = s } in
      if ltb n (length chars) then defer_output c' (drop n chars) else c'

  unfoldable pub write_direct : Client → Bytes → Client
  unfolding written
  write_direct c chars = written c chars (ch.write c.channel chars)

  unfoldable pub write_output : Client → Client
  unfolding defer_output write_deferred write_direct
  write_output c =
      if c.expired || is_empty c.send_buf
      then c
      else if is_empty c.deferred_send
      then record (write_direct c c.send_buf) { send_buf = [] }
      else let c' = defer_output c c.send_buf in
        if c'.expired then c' else record (write_deferred c') { send_buf = [] }

  -- One round of the loop of `client_write`: the client, and the part of the buffer that is left.
  unfoldable pub write_block : Client → Bytes → Client × Bytes
  unfolding write_output
  write_block c buffer =
      let room = send_buf_size - length c.send_buf in
      let copylen = if ltb (length buffer) room then length buffer else room in
      let c' : Client = record c { send_buf = c.send_buf ++ take copylen buffer } in
      (if leb send_buf_size (length c'.send_buf) then write_output c' else c', drop copylen buffer)

  -- The loop of `client_write`, for at most `rounds` rounds.
  unfoldable pub write_loop : ℕ → Client → Bytes → Client
  unfolding write_block
  write_loop zero c buffer = c
  write_loop (suc rounds) c buffer = elim (is_empty buffer || c.expired) [
    | true ↦ c
    | false ↦ let (c', rest) = write_block c buffer in write_loop rounds c' rest
  ]

  -- `client_write`; every round takes a byte.
  unfoldable pub client_write : Client → Bytes → Client
  unfolding write_loop
  client_write c buffer = write_loop (length buffer) c buffer
