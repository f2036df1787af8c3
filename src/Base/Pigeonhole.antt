-- ===== src/Base/Pigeonhole.antt =====
-- Injective maps between initial segments of the numbers.
use mpd.Base.Tests.{ltb, ◌==◌, if◌then◌else◌, Bool-cases}
use Prim.Native.Nat.{ℕ, zero, suc, ◌≤◌, ◌<◌}
use mathlib.Core.Path.{◌≡◌}
use mathlib.Core.Logic.{◌≢◌, ◌⊎◌, inl, inr}
use mathlib.Core.Bool.{Bool, true, false}
use native.Mathlib.Omega.{arith}

-- A bounded search decides.
pub find_below :
    (p : ℕ → Bool) (n : ℕ) → ((i : ℕ) × (i < n) × (p i ≡ true)) ⊎ ((i : ℕ) → i < n → p i ≡ false)
find_below p zero = inr (λ i h. elim h [ ])
find_below p (suc n) = elim (find_below p n) [
  | inl (i, lt, hit) ↦ inl (i, omega arith, hit)
  | inr miss ↦ elim (Bool-cases (p n)) [
    | inl hit ↦ inl (n, omega arith, hit)
    | inr no_hit ↦ inr (λ i lt. last i lt miss no_hit)
  ]
]
  where
    last : (i : ℕ) → i < suc n → ((i : ℕ) → i < n → p i ≡ false) → p n ≡ false → p i ≡ false
    last i lt miss no_hit = elim (Bool-cases (ltb i n)) [
      | inl below ↦ miss i (ground arith)
      | inr at ↦ let e : i ≡ n = ground arith in rw e no_hit
    ]

-- `f` is injective on the numbers below `n`, with values below `m`.
pub record Injects (n m : ℕ) (f : ℕ → ℕ) : Type 0 where
  pub below : (i : ℕ) → i < n → f i < m
  pub injective : (i j : ℕ) → i < n → j < n → f i ≡ f j → i ≡ j

-- Putting the value `v`, which is not hit, in place of the largest one.
lower :
    (n m v : ℕ) (f : ℕ → ℕ)
    → v ≤ m
    → Injects n (suc m) f
    → ((i : ℕ) → i < n → f i ≢ v)
    → Injects n m (λ i. if f i == m then v else f i)
lower n m v f hv h miss = record {
  below = λ i lt. ground (arith, h.below i lt, miss i lt);
  injective = λ i j li lj e. ground (arith, h.injective i j li lj, miss i li, miss j lj);
}

pub pigeonhole : (m n : ℕ) (f : ℕ → ℕ) → Injects n m f → n ≤ m
pigeonhole m zero f h = omega arith
pigeonhole zero (suc n) f h = absurd (omega (arith, h.below 0 (omega arith)))
pigeonhole (suc m) (suc n) f h =
    omega (
      arith,
      pigeonhole m n _ (lower n m (f n) f (omega (arith, h.below n (omega arith))) sub miss),
    )
  where
    sub : Injects n (suc m) f
    sub = record {
      below = λ i lt. h.below i (omega arith);
      injective = λ i j li lj. h.injective i j (omega arith) (omega arith);
    }

    miss : (i : ℕ) → i < n → f i ≢ f n
    miss i lt e = absurd (omega (arith, h.injective i n (omega arith) (omega arith) e))

-- An injective map of a segment into itself hits every value.
pub onto : (n : ℕ) (f : ℕ → ℕ) → Injects n n f → (p : ℕ) → p < n → (i : ℕ) × (i < n) × (f i ≡ p)
onto zero f h p lt = elim lt [ ]
onto (suc m) f h p lt = elim (find_below (λ i. f i == p) (suc m)) [
  | inl (i, li, hit) ↦ (i, li, ground arith)
  | inr miss ↦ absurd (
      omega (
        arith,
        pigeonhole m (suc m) _
            (lower (suc m) m p f (omega arith) h (λ i li e. ground (arith, miss i li))),
      ))
]
