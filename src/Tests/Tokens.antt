-- ===== src/Tests/Tokens.antt =====
-- src/tokenizer.c with ASCII as the character classes: the theorems at small lines.
use mpd.Base.{ℕ, Bool, true, ◌&&◌, ◌||◌, ◌≡◌, refl, [], ◌∷◌, ◌++◌, leb, ◌==◌, if◌then◌else◌}
use mpd.Tokenizer.{
  Bytes, Glib, word, next_word, next_unquoted, next_param, valid_word_first_char, valid_word_char,
  valid_unquoted_char,
}
use mpd.Tokenizer.Words.{
  AllValid, Ends, at_space, next_word_accepts, next_word_sound, next_unquoted_accepts,
}
use mpd.Tokenizer.Quoted.{quoted, space, next_param-quoted}
use mpd.Client.{bytes}

abbrev space_or_tab : ℕ → Bool
space_or_tab c = (c == 0x20) || (c == 9)

abbrev skip : Bytes → Bytes
skip [] = []
skip (c ∷ s) = if space_or_tab c then skip s else c ∷ s

abbrev letter : ℕ → Bool
letter c = leb b'a' c && leb c b'z'

abbrev pub ascii : Glib
ascii = record {
  is_space = space_or_tab;
  is_alpha = letter;
  is_alnum = λ c. letter c || (leb b'0' c && leb c b'9');
  strchug = skip;
  space_is_space = refl;
  quote_is_no_space = refl;
  strchug-nil = refl;
  strchug-cons = λ c s. refl;
}

next_param-quoted_example :
    next_param ascii (quoted (bytes "a\"b") (bytes " x")) ≡ word (bytes "a\"b") (bytes "x")
next_param-quoted_example =
    next_param-quoted ascii (bytes "a\"b") (bytes " x") (space 0x20 (bytes "x") refl)

next_word_accepts_example : next_word ascii (bytes "add  x") ≡ word (bytes "add") (bytes "x")
unfolding valid_word_first_char valid_word_char
next_word_accepts_example =
    next_word_accepts ascii b'a' (bytes "dd") (bytes "  x") (bytes "x") refl
      (refl, refl, (refl, refl, tt)) (at_space 0x20 (bytes " x") refl)

next_word_sound_example :
    (c : ℕ) × (v : Bytes) × (bytes "add" ≡ c ∷ v)
    × (valid_word_first_char ascii c ≡ true)
    × (tail : Bytes) × AllValid ascii (valid_word_char ascii) v
    × (bytes "add x" ≡ c ∷ (v ++ tail))
    × Ends ascii tail (bytes "x")
unfolding next_word
next_word_sound_example = next_word_sound ascii (bytes "add x") (bytes "add") (bytes "x") refl

next_unquoted_accepts_example : next_unquoted ascii (bytes "10 x") ≡ word (bytes "10") (bytes "x")
unfolding valid_unquoted_char
next_unquoted_accepts_example =
    next_unquoted_accepts ascii b'1' (bytes "0") (bytes " x") (bytes "x")
      (refl, refl, (refl, refl, tt)) (at_space 0x20 (bytes "x") refl)
