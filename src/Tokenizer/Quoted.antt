-- ===== src/Tokenizer/Quoted.antt =====
-- src/tokenizer.c: `tokenizer_next_string` on quoted arguments.
use mpd.Base.{
  ℕ, true, ◌||◌, ◌≡◌, refl, [], ◌∷◌, ◌++◌, ◌==◌, if◌then◌else◌, arith, Bool-cases, inl, inr,
}
use mpd.Tokenizer.{
  Bytes, Glib, word, close_string, copy_string, copy_escaped, next_param, quote, backslash,
}

-- How a client writes an argument: a backslash in front of each quote and backslash.
unfoldable pub escape : Bytes → Bytes
escape [] = []
escape (c ∷ s) =
    let rest = escape s in
    if (c == quote) || (c == backslash) then backslash ∷ (c ∷ rest) else c ∷ rest

unfoldable pub quoted : Bytes → Bytes → Bytes
unfolding escape
quoted s tail = quote ∷ (escape s ++ (quote ∷ tail))

-- What may follow a closing quote.
pub data Follows (g : Glib) : Bytes → Type 0 where
  nothing : Follows g []
  space : (c : ℕ) (input : Bytes) → g.is_space c ≡ true → Follows g (c ∷ input)

module _ (g : Glib) where
  close_string-Follows :
      (tail : Bytes) → Follows g tail → close_string g tail ≡ word [] (g.strchug tail)
  unfolding close_string
  close_string-Follows [] nothing = refl
  close_string-Follows (c ∷ input) (space _ _ e) = ground arith

  copy-escape :
      (last : ℕ) (s tail : Bytes)
      → Follows g tail
      → copy_string g last (escape s ++ (quote ∷ tail)) ≡ word s (g.strchug tail)
  unfolding copy_string copy_escaped escape
  copy-escape last [] tail f = close_string-Follows tail f
  copy-escape last (c ∷ s) tail f = elim (Bool-cases (c == quote)) [
    | inl e ↦ ground (arith, copy-escape c s tail f)
    | inr e ↦ elim (Bool-cases (c == backslash)) [
      | inl e' ↦ ground (arith, copy-escape c s tail f)
      | inr e' ↦ ground (arith, copy-escape c s tail f)
    ]
  ]

  -- Whatever bytes a client quotes, `tokenizer_next_param` reads the same bytes back, if the closing
  -- quote is followed by white space or the end of the line, and it skips the white space.
  pub next_param-quoted :
      (s tail : Bytes) → Follows g tail → next_param g (quoted s tail) ≡ word s (g.strchug tail)
  unfolding next_param quoted
  next_param-quoted s tail f = copy-escape quote s tail f
