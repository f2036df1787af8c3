-- ===== src/Tokenizer/Words.antt =====
-- src/tokenizer.c: what `tokenizer_next_word` and `tokenizer_next_unquoted` accept.
use mpd.Base.{ℕ, Bool, true, false, ◌≡◌, refl, ap, sym, [], ◌∷◌, ◌++◌, arith, Bool-cases, inl, inr}
use mathlib.Core.Path.{subst, subst₂}
use mpd.Tokenizer.{
  Bytes, Glib, TokenError, Token, word, end_of_line, failed, prepend, scan, valid_word_first_char,
  valid_word_char, valid_unquoted_char, next_word, next_unquoted, invalid_word_character,
  invalid_unquoted_character,
}

-- Every byte is valid and none is white space.
abbrev pub AllValid : Glib → (ℕ → Bool) → Bytes → Type 0
AllValid g valid [] = Unit {0}
AllValid g valid (c ∷ w) = (valid c ≡ true) × (g.is_space c ≡ false) × AllValid g valid w

-- How a word ends: at the end of the line, or at white space, of which all that follows is skipped.
pub data Ends (g : Glib) : Bytes → Bytes → Type 0 where
  at_end : Ends g [] []
  at_space : (c : ℕ) (input : Bytes) → g.is_space c ≡ true → Ends g (c ∷ input) (g.strchug input)

pub prepend-eq-word :
    (c : ℕ) (t : Token) {w rest : Bytes}
    → prepend c t ≡ word w rest
    → (v : Bytes) × (t ≡ word v rest) × (c ∷ v ≡ w)
unfolding prepend
prepend-eq-word c (word v r) e = (v, ground arith, ground arith)
prepend-eq-word c end_of_line e = absurd (ground arith)
prepend-eq-word c (failed x r) e = absurd (ground arith)

-- The word `w` at the front of `input`, and what follows it.
pub record Splits (g : Glib) (valid : ℕ → Bool) (input w rest : Bytes) : Type 0 where
  pub tail : Bytes
  pub all_valid : AllValid g valid w
  pub joined : input ≡ w ++ tail
  pub ends : Ends g tail rest

module _ (g : Glib) (valid : ℕ → Bool) (error : TokenError) where
  scan_word :
      (w : Bytes) {tail rest : Bytes}
      → AllValid g valid w
      → Ends g tail rest
      → scan g valid error (w ++ tail) ≡ word w rest
  unfolding scan
  scan_word [] a at_end = refl
  scan_word [] a (at_space c input e) = ground arith
  scan_word (c ∷ w) {tail} {rest} a e = ground (arith, scan_word w a.2 e)

  -- A word that the loop returns is one that it was meant to accept.
  scan_sound :
      (input : Bytes) {w rest : Bytes}
      → scan g valid error input ≡ word w rest
      → Splits g valid input w rest
  unfolding scan
  scan_sound [] {w} {rest} e =
      let no_word : ◌≡◌ {A = Bytes} [] w = ground arith in
      let no_rest : ◌≡◌ {A = Bytes} [] rest = ground arith in
      subst₂ (λ v r. Splits g valid [] v r) no_word no_rest
        (record { tail = []; all_valid = tt; joined = refl; ends = at_end })
  scan_sound (c ∷ input) {w} {rest} e = elim (Bool-cases (g.is_space c)) [
    | inl space ↦
        let no_word : ◌≡◌ {A = Bytes} [] w = ground arith in
        let skipped : g.strchug input ≡ rest = ground arith in
        subst₂ (λ v r. Splits g valid (c ∷ input) v r) no_word skipped
          (record {
            tail = c ∷ input;
            all_valid = tt;
            joined = refl;
            ends = at_space c input space;
          })
    | inr no_space ↦ elim (Bool-cases (valid c)) [
      | inr bad ↦ absurd (ground arith)
      | inl good ↦
          let (v, e', same) = prepend-eq-word c (scan g valid error input) (ground arith) in
          let r = scan_sound input e' in
          subst (λ v. Splits g valid (c ∷ input) v rest) same
            (record {
              tail = r.tail;
              all_valid = (good, no_space, r.all_valid);
              joined = ap (λ t. c ∷ t) r.joined;
              ends = r.ends;
            })
    ]
  ]

module _ (g : Glib) where
  -- A line that begins with a letter, then bytes that may stand in a word and are no white space, and
  -- then ends or goes on with white space, is split there: `tokenizer_next_word` returns that word,
  -- and skips the white space.
  pub next_word_accepts :
      (c : ℕ) (w tail rest : Bytes)
      → valid_word_first_char g c ≡ true
      → AllValid g (valid_word_char g) w
      → Ends g tail rest
      → next_word g (c ∷ (w ++ tail)) ≡ word (c ∷ w) rest
  unfolding next_word
  next_word_accepts c w tail rest first a e =
      ground (arith, scan_word g (valid_word_char g) invalid_word_character w a e)

  -- Conversely, what `tokenizer_next_word` returns begins with a letter, is made of such bytes, stood
  -- at the front of the line, and was followed by the end of the line or by white space, which it
  -- skipped.
  pub next_word_sound :
      (input w rest : Bytes)
      → next_word g input ≡ word w rest
      → (c : ℕ) × (v : Bytes) × (w ≡ c ∷ v)
        × (valid_word_first_char g c ≡ true)
        × (tail : Bytes) × AllValid g (valid_word_char g) v
        × (input ≡ c ∷ (v ++ tail))
        × Ends g tail rest
  unfolding next_word
  next_word_sound [] w rest e = absurd (ground arith)
  next_word_sound (c ∷ input) w rest e = elim (Bool-cases (valid_word_first_char g c)) [
    | inr bad ↦ absurd (ground arith)
    | inl good ↦
        let (v, e', same) =
          prepend-eq-word c (scan g (valid_word_char g) invalid_word_character input)
            (ground arith) in
        let r = scan_sound g (valid_word_char g) invalid_word_character input e' in
        (c, v, sym same, good, r.tail, r.all_valid, ap (λ t. c ∷ t) r.joined, r.ends)
  ]

  -- A line that begins with bytes that may stand in an unquoted argument and are no white space, one at
  -- least, and then ends or goes on with white space, is split there: `tokenizer_next_unquoted` returns
  -- them, and skips the white space.
  pub next_unquoted_accepts :
      (c : ℕ) (w tail rest : Bytes)
      → AllValid g valid_unquoted_char (c ∷ w)
      → Ends g tail rest
      → next_unquoted g (c ∷ (w ++ tail)) ≡ word (c ∷ w) rest
  unfolding next_unquoted
  next_unquoted_accepts c w tail rest a e =
      ground (arith, scan_word g valid_unquoted_char invalid_unquoted_character w a.2 e)
