-- ===== src/Base/Loops.antt =====
-- Counted `for` loops, by the number of rounds left.
use Prim.Native.Nat.{ℕ, zero, suc, ◌+◌, ◌-◌, ◌≤◌}
use mathlib.Core.Path.{◌≡◌}
use native.Mathlib.Omega.{arith}

-- `for (i = first; ...; i++)`, for `rounds` rounds
unfoldable pub for_up {ℓ} : {S : Type ℓ} → ℕ → ℕ → (ℕ → S → S) → S → S
for_up zero first body s = s
for_up (suc rounds) first body s = for_up rounds (first + 1) body (body first s)

-- `for (i = first; ...; i--)`, for `rounds` rounds
unfoldable pub for_down {ℓ} : {S : Type ℓ} → ℕ → ℕ → (ℕ → S → S) → S → S
for_down zero first body s = s
for_down (suc rounds) first body s = for_down rounds (first - 1) body (body first s)

-- The invariant rule: `P k` holds after `k` rounds, `first + k` being the index of the next.
pub for_up_inv {ℓ κ} :
    {S : Type ℓ} (P : ℕ → S → Type κ) (body : ℕ → S → S) (stop : ℕ)
    → ((i : ℕ) (s : S) → suc i ≤ stop → P i s → P (suc i) (body i s))
    → (rounds i : ℕ) (s : S) → i + rounds ≡ stop
    → P i s
    → P stop (for_up rounds i body s)
unfolding for_up
for_up_inv P body stop keep zero i s e h = let e' : i ≡ stop = omega arith in rw (← e') h
for_up_inv P body stop keep (suc n) i s e h =
    let e' : i + 1 ≡ suc i = omega arith in
    rw e'
      (for_up_inv P body stop keep n (suc i) (body i s) (omega arith) (keep i s (omega arith) h))

-- The same downwards: `low` is one more than the index of the next round.
pub for_down_inv {ℓ κ} :
    {S : Type ℓ} (P : ℕ → S → Type κ) (body : ℕ → S → S) (stop : ℕ)
    → ((i : ℕ) (s : S) → stop ≤ i → P (suc i) s → P i (body i s))
    → (rounds low : ℕ) (s : S) → low ≡ stop + rounds
    → P low s
    → P stop (for_down rounds (low - 1) body s)
unfolding for_down
for_down_inv P body stop keep zero low s e h = let e' : low ≡ stop = omega arith in rw (← e') h
for_down_inv P body stop keep (suc n) zero s e h = absurd (omega arith)
for_down_inv P body stop keep (suc n) (suc low) s e h =
    let e' : suc low - 1 ≡ low = omega arith in
    rw e'
      (for_down_inv P body stop keep n low (body low s) (omega arith) (keep low s (omega arith) h))
