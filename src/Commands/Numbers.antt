-- ===== src/Commands/Numbers.antt =====
-- src/command.c: reading the arguments of a command. `strtol` and `strtoul` are the C library's; a `long` has
-- 64 bits, an `int` and an `unsigned` 32.
use mpd.Base.{
  add_uint, ℕ, ◌-◌, ◌^◌, Bool, true, false, not, ◌&&◌, [], ◌∷◌, ltb, leb, ◌==◌, is_empty,
  if◌then◌else◌,
}
use mpd.Tokenizer.{Bytes}
use mpd.Commands.{
  BadArg, need_range, number_is_negative, number_too_large, integer_expected, boolean_expected,
}

-- the values of a `long`
pub data ℤ : Type 0 where
  pos negsuc : ℕ → ℤ

-- The value and `*endptr`.
pub record Libc : Type 0 where
  pub strtol : Bytes → ℤ × Bytes
  pub strtoul : Bytes → ℕ × Bytes

-- an argument that is read, or what is wrong with it
pub data Checked {ℓ} (A : Type ℓ) : Type ℓ where
  value : A → Checked A
  bad : BadArg → Checked A

-- `G_MAXINT` and `G_MAXUINT`
abbrev pub max_int : ℕ
max_int = 2 ^ 31 - 1

abbrev pub max_uint : ℕ
max_uint = 2 ^ 32 - 1

unfoldable pub is_int : ℤ → Bool
is_int (pos n) = leb n max_int
is_int (negsuc n) = leb n max_int

-- an `int` where an `unsigned` is asked for
unfoldable pub to_uint : ℤ → ℕ
to_uint (pos n) = n
to_uint (negsuc n) = max_uint - n

-- a `long` that is to be an `unsigned`
unfoldable pub in_uint : ℤ → Checked ℕ
in_uint (pos n) = if ltb max_uint n then bad number_too_large else value n
in_uint (negsuc n) = bad number_is_negative

module _ (c : Libc) where
  unfoldable pub check_int : Bytes → BadArg → Checked ℤ
  unfolding is_int
  check_int s e =
      let (n, test) = c.strtol s in
      if not (is_empty test)
      then bad e
      else if not (is_int n)
      then bad number_too_large
      else value n

  unfoldable pub check_unsigned : Bytes → Checked ℕ
  check_unsigned s =
      let (n, test) = c.strtoul s in
      if not (is_empty test)
      then bad integer_expected
      else if ltb max_uint n
      then bad number_too_large
      else value n

  abbrev pub as_bool : ℤ → Checked Bool
  as_bool (pos n) =
      if n == 0 then value false else if n == 1 then value true else bad boolean_expected
  as_bool (negsuc n) = bad boolean_expected

  unfoldable pub check_bool : Bytes → Checked Bool
  check_bool s =
      let (n, test) = c.strtol s in if not (is_empty test) then bad boolean_expected else as_bool n

  -- the end of a range, behind the colon
  unfoldable pub range_end : Bytes → Checked ℕ
  unfolding in_uint
  range_end test =
      let (n, test2) = c.strtol test in
      if not (is_empty test2)
      then bad need_range
      else if is_empty test
      then value max_uint
      else in_uint n

  abbrev pub pair_with : ℕ → Checked ℕ → Checked (ℕ × ℕ)
  pair_with start (value end) = value (start, end)
  pair_with start (bad e) = bad e

  -- behind the first number
  abbrev pub range_from : Checked ℕ → Bytes → Checked (ℕ × ℕ)
  range_from (bad e) test = bad e
  range_from (value start) [] = value (start, add_uint start 1)
  range_from (value start) (b ∷ test) = pair_with start (range_end test)

  abbrev pub is_minus_one : ℤ → Bool
  is_minus_one (pos n) = false
  is_minus_one (negsuc n) = n == 0

  abbrev pub at_colon : Bytes → Bool
  at_colon [] = false
  at_colon (b ∷ test) = b == b':'

  -- `check_range`: the start and the end of a range
  unfoldable pub check_range : Bytes → Checked (ℕ × ℕ)
  unfolding range_end in_uint
  check_range s =
      let (n, test) = c.strtol s in
      if not (is_empty test) && not (at_colon test)
      then bad need_range
      else if is_minus_one n && is_empty test
      then value (0, max_uint)
      else range_from (in_uint n) test
