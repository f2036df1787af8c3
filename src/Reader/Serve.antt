-- ===== src/Reader/Serve.antt =====
-- src/client_read.c: the lines of a stream, processed one after the other.

use mpd.Base.{
  ℕ, suc, ◌+◌, ◌<◌, Bool, true, false, ◌≡◌, refl, sym, ap, ◌∙◌, none, some, [], ◌∷◌, ◌++◌, ◌==◌,
  length, take, drop, arith, append-nil, append_assoc, Bool-cases, if-true, if-false, inl, inr, ◌⊎◌,
}
use mpd.Tokenizer.{Bytes}
use mpd.Client.{Return, ok, close}
use mpd.Reader.{newline, memchr, stops}

memchr-here : (b c : ℕ) (s : Bytes) → (c == b) ≡ true → memchr b (c ∷ s) ≡ some 0
unfolding memchr
memchr-here b c s e = if-true _ _ e

memchr-none : (b c : ℕ) (s : Bytes) → (c == b) ≡ false → memchr b s ≡ none → memchr b (c ∷ s) ≡ none
unfolding memchr
memchr-none b c s e m = if-false _ _ e ∙ rw (m) refl

memchr-later :
    (b c : ℕ) (s : Bytes) (n : ℕ)
    → (c == b) ≡ false
    → memchr b s ≡ some n
    → memchr b (c ∷ s) ≡ some (suc n)
unfolding memchr
memchr-later b c s n e m =
    let next : n + 1 ≡ suc n = omega arith in if-false _ _ e ∙ rw (m, next) refl

module _ {ℓ} {World : Type ℓ} (chomp : Bytes → Bytes) (expired : World → Bool)
    (process_line : World → Bytes → Return × World) where
  -- The lines of a stream, processed one after the other; `acc` is the line so far. What is left
  -- is an unfinished line, or all that follows the line that ended the connection.
  unfoldable pub serve : Bytes → Bytes → World → Return × Bytes × World
  serve acc [] w = (ok, acc, w)
  serve acc (c ∷ s) w = elim (c == newline) [
    | false ↦ serve (acc ++ (c ∷ [])) s w
    | true ↦
        let (ret, w') = process_line w (chomp acc) in
        elim (stops ret) [
          | true ↦ (ret, s, w')
          | false ↦ elim (expired w') [ true ↦ (close, s, w') | false ↦ serve [] s w' ]
        ]
  ]

  -- after a line that was processed
  unfoldable pub served : Return × World → Bytes → Return × Bytes × World
  unfolding serve
  served (ret, w) s = elim (stops ret) [
    | true ↦ (ret, s, w)
    | false ↦ elim (expired w) [ true ↦ (close, s, w) | false ↦ serve [] s w ]
  ]

  serve-newline :
      (acc : Bytes) (c : ℕ) (s : Bytes) (w : World)
      → (c == newline) ≡ true
      → serve acc (c ∷ s) w ≡ served (process_line w (chomp acc)) s
  unfolding serve served
  serve-newline acc c s w e = rw (e, serve)

  serve-other :
      (acc : Bytes) (c : ℕ) (s : Bytes) (w : World)
      → (c == newline) ≡ false
      → serve acc (c ∷ s) w ≡ serve (acc ++ (c ∷ [])) s w
  unfolding serve
  serve-other acc c s w e = rw (e, serve)

  -- no line ends in `p`: all of it is left, behind `acc`
  abbrev pub Unfinished : Bytes → Bytes → World → Type ℓ
  Unfinished acc p w = (memchr newline p ≡ none) × (serve acc p w ≡ (ok, acc ++ p, w))

  -- the first line ends at the offset `n`
  abbrev pub Finished : Bytes → Bytes → World → Type ℓ
  Finished acc p w =
      (n : ℕ) × (memchr newline p ≡ some n)
      × (n < length p)
      × (serve acc p w ≡ served (process_line w (chomp (acc ++ take n p))) (drop (suc n) p))

  pub first_line : (p acc : Bytes) (w : World) → Unfinished acc p w ⊎ Finished acc p w
  unfolding serve memchr
  first_line [] acc w = inl (refl, ap (λ t. (ok, t, w)) (sym (append-nil acc)))
  first_line (c ∷ p) acc w = elim (Bool-cases (c == newline)) [
    | inl t ↦ inr (
      0,
      memchr-here newline c p t,
      omega arith,
      serve-newline acc c p w t
          ∙ ap (λ l. served (process_line w (chomp l)) p) (sym (append-nil acc)),
    )
    | inr n ↦ elim (first_line p (acc ++ (c ∷ [])) w) [
      | inl (m, e) ↦ inl (
        memchr-none newline c p n m,
        serve-other acc c p w n ∙ e ∙ ap (λ t. (ok, t, w)) (append_assoc acc (c ∷ []) p),
      )
      | inr (k, m, lt, e) ↦ inr (
        suc k,
        memchr-later newline c p k n m,
        omega arith,
        serve-other acc c p w n
            ∙ e
            ∙ ap (λ l. served (process_line w (chomp l)) (drop (suc k) p))
                (append_assoc acc (c ∷ []) (take k p)),
      )
    ]
  ]
