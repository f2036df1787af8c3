-- ===== src/Base/Arrays.antt =====
-- A C array as a function of its index; its size is a bound in the owner's invariant.
use Prim.Native.Nat.{ℕ}
use mpd.Base.Tests.{◌==◌, if◌then◌else◌}

abbrev pub Array {ℓ} : Type ℓ → Type ℓ
Array A = ℕ → A

-- `a[i] = v`
abbrev pub update {ℓ} : {A : Type ℓ} → Array A → ℕ → A → Array A
update a i v j = if i == j then v else a j
