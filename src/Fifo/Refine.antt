-- ===== src/Fifo/Refine.antt =====
-- src/fifo_buffer.c as a queue of bytes.
use mathlib.Core.Path.{subst}
use mpd.Base.{
  ℕ, zero, suc, ◌+◌, ◌-◌, ◌≤◌, ◌<◌, true, false, ◌&&◌, ◌≡◌, refl, sym, ap, ◌∙◌, inl, inr, Option,
  none, some, [], ◌∷◌, ◌++◌, Array, ltb, ◌==◌, if◌then◌else◌, length, drop, arith, Bool-cases,
  if-true, if-false,
}
use mpd.Tokenizer.{Bytes}
use mpd.Fifo.{Fifo, slice, available, consume, move, memmove, write, fill, append, write_at}

-- The bytes of a buffer.
unfoldable pub contents : Fifo → Bytes
unfolding slice available
contents f = slice f.buffer f.start (available f)

pub record IsValid (f : Fifo) : Type 0 where
  pub start_le : f.start ≤ f.end
  pub end_le : f.end ≤ f.size

same_slice :
    (a b : Array ℕ) (i j n : ℕ)
    → ((k x y : ℕ) → k < n → x ≡ i + k → y ≡ j + k → a x ≡ b y)
    → slice a i n ≡ slice b j n
unfolding slice
same_slice a b i j zero h = refl
same_slice a b i j (suc n) h =
    let first : a i ≡ b j = h 0 i j (omega arith) (omega arith) (omega arith) in
    let rest : slice a (i + 1) n ≡ slice b (j + 1) n =
      same_slice a b (i + 1) (j + 1) n
        (λ k x y lt ex ey. h (suc k) x y (omega arith) (omega arith) (omega arith)) in
    rw (first, rest) refl

length-slice : (a : Array ℕ) (i n : ℕ) → length (slice a i n) ≡ n
unfolding slice
length-slice a i zero = refl
length-slice a i (suc n) = ap suc (length-slice a (i + 1) n)

-- The first `m` of `l = m + n` elements, and the others.
slice-append :
    (a : Array ℕ) (i m n l p : ℕ) → l ≡ m + n → p ≡ i + m → slice a i l ≡ slice a i m ++ slice a p n
unfolding slice
slice-append a i zero n l p el ep =
    let l_is : l ≡ n = omega arith in let p_is : p ≡ i = omega arith in rw (l_is, p_is) refl
slice-append a i (suc m) n zero p el ep = absurd (omega arith)
slice-append a i (suc m) n (suc l) p el ep =
    ap (λ t. a i ∷ t) (slice-append a (i + 1) m n l p (omega arith) (omega arith))

drop-slice :
    (a : Array ℕ) (i n k p r : ℕ)
    → k ≤ n
    → p ≡ i + k
    → r ≡ n - k
    → drop k (slice a i n) ≡ slice a p r
unfolding slice
drop-slice a i n zero p r le ep er =
    let p_is : p ≡ i = omega arith in let r_is : r ≡ n = omega arith in rw (p_is, r_is) refl
drop-slice a i zero (suc k) p r le ep er = absurd (omega arith)
drop-slice a i (suc n) (suc k) p r le ep er =
    drop-slice a (i + 1) n k p r (omega arith) (omega arith) (omega arith)

abbrev moved_down : Fifo → Fifo
moved_down f = record f {
  buffer = if ltb f.start f.end then memmove f.buffer f.start (f.end - f.start) else f.buffer;
  end = f.end - f.start;
  start = 0;
}

move-start : (f : Fifo) → (f.start == 0) ≡ true → move f ≡ f
unfolding move
move-start f t = if-true _ _ t

move-moved_down : (f : Fifo) → (f.start == 0) ≡ false → move f ≡ moved_down f
unfolding move
move-moved_down f t = if-false _ _ t

moved_cell :
    (f : Fifo) (x y : ℕ)
    → x < f.end - f.start
    → y ≡ f.start + x
    → (moved_down f).buffer x ≡ f.buffer y
moved_cell f x y lt e = ground (arith, e)

less_zero : (n : ℕ) → n - 0 ≡ n
less_zero n = omega arith

-- A move to the beginning of the buffer keeps its bytes.
move-contents :
    (f : Fifo)
    → IsValid f
    → (contents (move f) ≡ contents f) × IsValid (move f) × ((move f).start ≡ 0)
unfolding contents available
move-contents f v = elim (Bool-cases (f.start == 0)) [
  | inl t ↦
      subst (λ m. (contents m ≡ contents f) × IsValid m × (m.start ≡ 0)) (sym (move-start f t))
        (refl, v, ground (arith, t))
  | inr n ↦
      subst (λ m. (contents m ≡ contents f) × IsValid m × (m.start ≡ 0)) (sym (move-moved_down f n))
        (
          ap (slice (moved_down f).buffer 0) (less_zero (f.end - f.start))
              ∙ same_slice _ _ 0 f.start (f.end - f.start)
                  (λ k x y lt ex ey. moved_cell f x y (omega (arith, v.start_le)) (omega arith)),
          (record { start_le = omega arith; end_le = omega (arith, v.end_le) }),
          refl,
        )
]

-- Writing after some other cells leaves them.
write_at-below : (bs : Bytes) (a : Array ℕ) (i j : ℕ) → j < i → write_at a i bs j ≡ a j
unfolding write_at
write_at-below [] a i j lt = refl
write_at-below (b ∷ bs) a i j lt =
    let other : (i == j) ≡ false = ground arith in
    write_at-below bs (λ k. if i == k then b else a k) (i + 1) j (omega arith) ∙ if-false _ _ other

slice-write_at : (bs : Bytes) (a : Array ℕ) (i : ℕ) → slice (write_at a i bs) i (length bs) ≡ bs
unfolding write_at slice
slice-write_at [] a i = refl
slice-write_at (b ∷ bs) a i =
    let here : (i == i) ≡ true = ground arith in
    let a' : Array ℕ = λ k. if i == k then b else a k in
    let first : write_at a' (i + 1) bs i ≡ b =
      write_at-below bs a' (i + 1) i (omega arith) ∙ if-true _ _ here in
    rw (first, slice-write_at bs a' (i + 1)) refl

-- What `fifo_buffer_write` does to the buffer `f`: `f'` has the same bytes, and an area of `room` cells behind
-- them; or NULL is returned, and the bytes take the whole buffer.
pub data Writable (f f' : Fifo) (room : Option ℕ) : Type 0 where
  space :
      (n : ℕ)
      → room ≡ some n
      → 0 < n
      → f'.end + n ≡ f.size
      → f'.size ≡ f.size
      → IsValid f'
      → contents f' ≡ contents f
      → Writable f f' room
  full :
      room ≡ none
      → length (contents f) ≡ f.size
      → f'.size ≡ f.size
      → IsValid f'
      → contents f' ≡ contents f
      → Writable f f' room

pub length-contents : (f : Fifo) → length (contents f) ≡ f.end - f.start
unfolding contents available
length-contents f = length-slice f.buffer f.start (f.end - f.start)

move-size : (f : Fifo) → (move f).size ≡ f.size
unfolding move
move-size f = ground arith

abbrev room_left : Fifo → Option ℕ × Fifo
room_left f = if f.end == f.size then (none, f) else (some (f.size - f.end), f)

-- after a move
moved-Writable :
    (f f' : Fifo)
    → f'.size ≡ f.size
    → IsValid f'
    → f'.start ≡ 0
    → contents f' ≡ contents f
    → Writable f (room_left f').1 (room_left f').0
moved-Writable f f' same v z e = elim (Bool-cases (f'.end == f'.size)) [
  | inl t ↦
      subst (λ (r : Option ℕ × Fifo). Writable f r.1 r.0) (sym (if-true _ _ t))
        (full refl (ap length (sym e) ∙ length-contents f' ∙ ground (arith, t, z, same)) same v e)
  | inr n ↦
      subst (λ (r : Option ℕ × Fifo). Writable f r.1 r.0) (sym (if-false _ _ n))
        (space (f'.size - f'.end) refl (ground (arith, n, v.end_le))
          (ground (arith, same, v.end_le)) same v e)
]

cleared-Writable :
    (f : Fifo)
    → 0 < f.size
    → f.start ≡ f.end
    → Writable f (record f { start = 0; end = 0 }) (some f.size)
unfolding contents available slice
cleared-Writable f pos e =
    let none_left : f.end - f.start ≡ 0 = omega arith in
    space f.size refl pos (omega arith) refl
      (record { start_le = omega arith; end_le = omega arith })
      (ap (slice f.buffer 0) (less_zero 0) ∙ sym (ap (slice f.buffer f.start) none_left))

-- `fifo_buffer_write` on a valid buffer of some size keeps its bytes. It returns an area
-- that is not empty, up to the end of the buffer, or NULL if the bytes take the whole buffer.
pub write-Writable : (f : Fifo) → IsValid f → 0 < f.size → Writable f (write f).1 (write f).0
unfolding write
write-Writable f v pos = elim (Bool-cases (f.end == f.size)) [
  | inl t ↦
      let (e, v', z) = move-contents f v in
      subst (λ (r : Option ℕ × Fifo). Writable f r.1 r.0) (sym (if-true _ _ t))
        (moved-Writable f (move f) (move-size f) v' z e)
  | inr n ↦
      subst (λ (r : Option ℕ × Fifo). Writable f r.1 r.0) (sym (if-false _ _ n))
        (elim (Bool-cases (ltb 0 f.start && (f.start == f.end))) [
          | inl t ↦
              subst (λ (r : Option ℕ × Fifo). Writable f r.1 r.0) (sym (if-true _ _ t))
                (cleared-Writable f pos (ground (arith, t)))
          | inr k ↦
              subst (λ (r : Option ℕ × Fifo). Writable f r.1 r.0) (sym (if-false _ _ k))
                (space (f.size - f.end) refl (ground (arith, n, v.end_le)) (omega (arith, v.end_le))
                  refl v refl)
        ])
]

both : {a b c d : Bytes} → a ≡ b → c ≡ d → a ++ c ≡ b ++ d
both e f = rw (e, f) refl

same_cell :
    (f : Fifo) (bs : Bytes) (x y : ℕ)
    → x ≡ y
    → x < f.end
    → write_at f.buffer f.end bs x ≡ f.buffer y
same_cell f bs x y e lt = write_at-below bs f.buffer f.end x lt ∙ ap f.buffer e

-- Bytes that fit behind the end of a valid buffer, and are appended, stand behind its bytes.
pub append-contents :
    (f : Fifo) (bs : Bytes)
    → IsValid f
    → f.end + length bs ≤ f.size
    → (contents (append (fill f bs) (length bs)) ≡ contents f ++ bs)
      × IsValid (append (fill f bs) (length bs))
unfolding append fill contents available
append-contents f bs v le = (
  slice-append (write_at f.buffer f.end bs) f.start (f.end - f.start) (length bs)
        (f.end + length bs - f.start) f.end (omega (arith, v.start_le)) (omega (arith, v.start_le))
      ∙ both
          (same_slice _ _ f.start f.start (f.end - f.start)
            (λ k x y lt ex ey. same_cell f bs x y (omega arith) (omega arith)))
          (slice-write_at bs f.buffer f.end),
  record { start_le = omega (arith, v.start_le); end_le = omega arith },
)

-- Consuming at most the bytes that are there drops them from the front.
pub consume-contents :
    (f : Fifo) (n : ℕ)
    → IsValid f
    → f.start + n ≤ f.end
    → (contents (consume f n) ≡ drop n (contents f)) × IsValid (consume f n)
unfolding consume contents available
consume-contents f n v le = (
  sym (
      drop-slice f.buffer f.start (f.end - f.start) n (f.start + n) (f.end - (f.start + n))
        (omega arith) refl (omega arith)),
  record { start_le = le; end_le = v.end_le },
)
