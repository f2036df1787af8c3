-- ===== src/Tokenizer.antt =====
-- src/tokenizer.c: splitting a request line into words.
-- A string is the list of the bytes before its terminating NUL. `*input_p` is the returned `rest`.
-- `tokenizer_next_string` copies the word over the line behind its reading position, so no byte is
-- overwritten before it is read: the copy is the result `word`. The character classes and
-- `g_strchug` are GLib's.
pub mod Words
pub mod Quoted
use mpd.Base.{
  ℕ, Bool, true, false, not, ◌&&◌, ◌||◌, ◌≡◌, Option, none, some, List, [], ◌∷◌, ltb, ◌==◌,
  if◌then◌else◌,
}

abbrev pub Bytes : Type 0
Bytes = List ℕ

-- `g_ascii_isspace`, `g_ascii_isalpha`, `g_ascii_isalnum` and `g_strchug` (which removes leading
-- white space).
pub record Glib : Type 0 where
  pub is_space : ℕ → Bool
  pub is_alpha : ℕ → Bool
  pub is_alnum : ℕ → Bool
  pub strchug : Bytes → Bytes
  pub space_is_space : is_space 0x20 ≡ true
  pub quote_is_no_space : is_space b'"' ≡ false
  pub strchug-nil : strchug [] ≡ []
  pub strchug-cons :
      (c : ℕ) (s : Bytes) → strchug (c ∷ s) ≡ (if is_space c then strchug s else c ∷ s)

-- The texts of the errors.
pub data TokenError : Type 0 where
  letter_expected invalid_word_character invalid_unquoted_character quote_expected : TokenError
  missing_closing_quote space_expected : TokenError

-- What a tokenizer returns: a word, NULL at the end of the line, or NULL with an error; and what it
-- leaves in `*input_p`.
pub data Token : Type 0 where
  word : Bytes → Bytes → Token
  end_of_line : Token
  failed : TokenError → Bytes → Token

abbrev pub backslash : ℕ
backslash = 0x5c

abbrev pub quote : ℕ
quote = b'"'

-- One more byte at the front of the word.
unfoldable pub prepend : ℕ → Token → Token
prepend c (word w rest) = word (c ∷ w) rest
prepend c end_of_line = end_of_line
prepend c (failed e rest) = failed e rest

unfoldable pub valid_unquoted_char : ℕ → Bool
valid_unquoted_char ch = ltb 0x20 ch && (not (ch == quote) && not (ch == b'\''))

module _ (g : Glib) where
  unfoldable pub valid_word_first_char : ℕ → Bool
  valid_word_first_char ch = g.is_alpha ch

  unfoldable pub valid_word_char : ℕ → Bool
  valid_word_char ch = g.is_alnum ch || (ch == b'_')

  -- The loop that `tokenizer_next_word` and `tokenizer_next_unquoted` have in common.
  unfoldable pub scan : (ℕ → Bool) → TokenError → Bytes → Token
  unfolding prepend
  scan valid error [] = word [] []
  scan valid error (c ∷ input) =
      if g.is_space c
      then word [] (g.strchug input)
      else if not (valid c)
      then failed error (c ∷ input)
      else prepend c (scan valid error input)

  unfoldable pub next_word : Bytes → Token
  unfolding scan valid_word_char valid_word_first_char
  next_word [] = end_of_line
  next_word (c ∷ input) =
      if not (valid_word_first_char c)
      then failed letter_expected (c ∷ input)
      else prepend c (scan valid_word_char invalid_word_character input)

  unfoldable pub next_unquoted : Bytes → Token
  unfolding scan valid_unquoted_char
  next_unquoted [] = end_of_line
  next_unquoted (c ∷ input) =
      if not (valid_unquoted_char c)
      then failed invalid_unquoted_character (c ∷ input)
      else prepend c (scan valid_unquoted_char invalid_unquoted_character input)

  -- `tokenizer_next_string` behind the closing quote
  unfoldable pub close_string : Bytes → Token
  close_string [] = word [] (g.strchug [])
  close_string (c ∷ input) =
      if g.is_space c then word [] (g.strchug (c ∷ input)) else failed space_expected (c ∷ input)

  -- The loop of `tokenizer_next_string`: `last` is the byte at `input - 1`.
  unfoldable mutual
    unfolding prepend close_string

    pub copy_string : ℕ → Bytes → Token
    copy_string last [] = failed missing_closing_quote (last ∷ [])
    copy_string last (c ∷ input) = elim (c == quote) [
      | true ↦ close_string input
      | false ↦ elim (c == backslash) [
        | true ↦ copy_escaped input
        | false ↦ prepend c (copy_string c input)
      ]
    ]

    -- behind a backslash
    pub copy_escaped : Bytes → Token
    copy_escaped [] = failed missing_closing_quote (backslash ∷ [])
    copy_escaped (c ∷ input) = prepend c (copy_string c input)

  unfoldable pub next_string : Bytes → Token
  unfolding copy_string copy_escaped
  next_string [] = end_of_line
  next_string (c ∷ input) =
      if not (c == quote) then failed quote_expected (c ∷ input) else copy_string c input

  unfoldable pub next_param : Bytes → Token
  unfolding next_string next_unquoted
  next_param [] = next_unquoted []
  next_param (c ∷ input) = if c == quote then next_string (c ∷ input) else next_unquoted (c ∷ input)
