-- ===== src/Commands/Order.antt =====
-- src/command.c: the order of strings that `strcmp` gives.
use mathlib.Core.Path.{subst}
use mpd.Base.{
  ℕ, ◌<◌, true, ◌≡◌, refl, sym, ◌∙◌, [], ◌∷◌, ltb, ◌==◌, arith, ◌⊎◌, inl, inr, Bool-cases, if-true,
  if-false,
}
use mpd.Tokenizer.{Bytes}
use mpd.Client.{same}
use mpd.Commands.{Sign, less, equal, greater, strcmp}

-- The order of strings that `strcmp` decides.
unfoldable pub Less : Bytes → Bytes → Type 0
Less [] [] = ⊥
Less [] (d ∷ b) = Unit {0}
Less (c ∷ a) [] = ⊥
Less (c ∷ a) (d ∷ b) = (c < d) ⊎ ((c ≡ d) × Less a b)

pub Less-trans : (a b c : Bytes) → Less a b → Less b c → Less a c
unfolding Less
Less-trans [] [] c p q = absurd p
Less-trans [] (y ∷ b) [] p q = absurd q
Less-trans [] (y ∷ b) (z ∷ c) p q = tt
Less-trans (x ∷ a) [] c p q = absurd p
Less-trans (x ∷ a) (y ∷ b) [] p q = absurd q
Less-trans (x ∷ a) (y ∷ b) (z ∷ c) (inl p) (inl q) = inl (omega arith)
Less-trans (x ∷ a) (y ∷ b) (z ∷ c) (inl p) (inr (e, q)) = inl (omega arith)
Less-trans (x ∷ a) (y ∷ b) (z ∷ c) (inr (e, p)) (inl q) = inl (omega arith)
Less-trans (x ∷ a) (y ∷ b) (z ∷ c) (inr (e, p)) (inr (f, q)) = inr (e ∙ f, Less-trans a b c p q)

pub Less-irrefl : (a : Bytes) → Less a a → ⊥
unfolding Less
Less-irrefl [] p = p
Less-irrefl (x ∷ a) (inl p) = omega arith
Less-irrefl (x ∷ a) (inr (e, p)) = Less-irrefl a p

-- What each sign of `strcmp` tells.
data Compared (a b : Bytes) : Sign → Type 0 where
  below : Less a b → Compared a b less
  alike : a ≡ b → Compared a b equal
  above : Less b a → Compared a b greater

push : (c d : ℕ) (a b : Bytes) (s : Sign) → c ≡ d → Compared a b s → Compared (c ∷ a) (d ∷ b) s
unfolding Less
push c d a b less e (below p) = below (inr (e, p))
push c d a b equal e (alike p) = alike (rw (e, p) refl)
push c d a b greater e (above p) = above (inr (sym e, p))

strcmp-Compared : (a b : Bytes) → Compared a b (strcmp a b)
unfolding strcmp Less
strcmp-Compared [] [] = alike refl
strcmp-Compared [] (d ∷ b) = below tt
strcmp-Compared (c ∷ a) [] = above tt
strcmp-Compared (c ∷ a) (d ∷ b) = elim (Bool-cases (c == d)) [
  | inl e ↦
      subst (Compared (c ∷ a) (d ∷ b)) (sym (if-true _ _ e))
        (push c d a b (strcmp a b) (ground arith) (strcmp-Compared a b))
  | inr n ↦ subst (Compared (c ∷ a) (d ∷ b)) (sym (if-false _ _ n)) (elim (Bool-cases (ltb c d)) [
    | inl l ↦ subst (Compared (c ∷ a) (d ∷ b)) (sym (if-true _ _ l)) (below (inl (ground arith)))
    | inr m ↦ subst (Compared (c ∷ a) (d ∷ b)) (sym (if-false _ _ m)) (above (inl (ground arith)))
  ])
]

cases_of :
    (a b : Bytes) (s : Sign)
    → strcmp a b ≡ s
    → Compared a b s
    → ((strcmp a b ≡ less) × Less a b)
      ⊎ (((strcmp a b ≡ equal) × (a ≡ b)) ⊎ ((strcmp a b ≡ greater) × Less b a))
cases_of a b less e (below p) = inl (e, p)
cases_of a b equal e (alike p) = inr (inl (e, p))
cases_of a b greater e (above p) = inr (inr (e, p))

-- the three answers of `strcmp`
pub strcmp-cases :
    (a b : Bytes)
    → ((strcmp a b ≡ less) × Less a b)
      ⊎ (((strcmp a b ≡ equal) × (a ≡ b)) ⊎ ((strcmp a b ≡ greater) × Less b a))
strcmp-cases a b = cases_of a b (strcmp a b) refl (strcmp-Compared a b)

from_less : (a b : Bytes) → Compared a b less → Less a b
from_less a b (below p) = p

pub strcmp-Less : (a b : Bytes) → strcmp a b ≡ less → Less a b
strcmp-Less a b e = from_less a b (subst (Compared a b) e (strcmp-Compared a b))

same_refl : (a : Bytes) → same a a ≡ true
unfolding same
same_refl [] = refl
same_refl (c ∷ a) = ground (arith, same_refl a)

pub same-true : (a b : Bytes) → a ≡ b → same a b ≡ true
same-true a b e = subst (λ t. same a t ≡ true) e (same_refl a)

pub same-equal : (a b : Bytes) → same a b ≡ true → a ≡ b
unfolding same
same-equal [] [] e = refl
same-equal [] (d ∷ b) e = absurd (ground (arith, e))
same-equal (c ∷ a) [] e = absurd (ground (arith, e))
same-equal (c ∷ a) (d ∷ b) e =
    let h : c ≡ d = ground (arith, e) in
    let t : same a b ≡ true = ground (arith, e) in rw (h, same-equal a b t) refl
