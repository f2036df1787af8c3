-- ===== src/Fifo.antt =====
-- src/fifo_buffer.c. The area that `fifo_buffer_write` returns is written by the caller: `fill`.
pub mod Refine
use mpd.Base.{
  ℕ, zero, suc, ◌+◌, ◌-◌, ◌≤◌, Bool, ◌&&◌, Option, none, some, List, [], ◌∷◌, Array, ltb, ◌==◌,
  if◌then◌else◌,
}
use mpd.Tokenizer.{Bytes}

pub record Fifo : Type 0 where
  pub size : ℕ
  pub start : ℕ
  pub end : ℕ
  pub buffer : Array ℕ

-- `n` elements from `i` on
unfoldable pub slice : Array ℕ → ℕ → ℕ → Bytes
slice a i zero = []
slice a i (suc n) = a i ∷ slice a (i + 1) n

-- `fifo_buffer_new`; the memory is not initialised
abbrev pub new : ℕ → Array ℕ → Fifo
new size memory = record { size = size; start = 0; end = 0; buffer = memory }

unfoldable pub available : Fifo → ℕ
available f = f.end - f.start

unfoldable pub clear : Fifo → Fifo
clear f = record f { start = 0; end = 0 }

-- `fifo_buffer_read`: the bytes from the returned pointer on, `none` for NULL
unfoldable pub read : Fifo → Option Bytes
unfolding slice
read f = if f.start == f.end then none else some (slice f.buffer f.start (f.end - f.start))

unfoldable pub consume : Fifo → ℕ → Fifo
consume f length = record f { start = f.start + length }

-- `memmove (a, a + from, n)`
abbrev pub memmove : Array ℕ → ℕ → ℕ → Array ℕ
memmove a from n i = if ltb i n then a (from + i) else a i

-- `fifo_buffer_move`
unfoldable pub move : Fifo → Fifo
move f = if f.start == 0 then f else record f {
  buffer = if ltb f.start f.end then memmove f.buffer f.start (f.end - f.start) else f.buffer;
  end = f.end - f.start;
  start = 0;
}

-- `fifo_buffer_write`: the length of the area that may be written, `none` for NULL
unfoldable pub write : Fifo → Option ℕ × Fifo
unfolding move
write f =
    if f.end == f.size
    then (let f' = move f in
        if f'.end == f'.size then (none, f') else (some (f'.size - f'.end), f'))
    else if ltb 0 f.start && (f.start == f.end)
    then (some f.size, record f { start = 0; end = 0 })
    else (some (f.size - f.end), f)

-- `bytes` written from `i` on
unfoldable pub write_at : Array ℕ → ℕ → Bytes → Array ℕ
write_at a i [] = a
write_at a i (b ∷ bs) = write_at (λ j. if i == j then b else a j) (i + 1) bs

-- the bytes that the caller writes to the area
unfoldable pub fill : Fifo → Bytes → Fifo
unfolding write_at
fill f bytes = record f { buffer = write_at f.buffer f.end bytes }

unfoldable pub append : Fifo → ℕ → Fifo
append f length = record f { end = f.end + length }

unfoldable pub is_empty_buffer : Fifo → Bool
is_empty_buffer f = f.start == f.end

unfoldable pub is_full : Fifo → Bool
is_full f = (f.start == 0) && (f.end == f.size)

-- `fifo_buffer_realloc` of a buffer to a size that is not 0; the memory behind the old size is not
-- initialised
unfoldable pub realloc : Fifo → ℕ → Fifo
unfolding move
realloc f new_size =
    let f' = if ltb new_size f.end then move f else f in record f' { size = new_size }
