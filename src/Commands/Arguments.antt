-- ===== src/Commands/Arguments.antt =====
-- src/command.c: what the reading of an argument gives.
use mathlib.Core.Path.{subst}
use mpd.Base.{
  not, is_empty, zero, suc, [], ◌∷◌, ◌≢◌, Bool-cases, if-true, if-false, inl, inr, ℕ, ◌<◌, uint_mod,
  ◌≡◌, refl, sym, ap, ◌∙◌, Bool, true, some, arith,
}
use mpd.Tokenizer.{Bytes}
use mpd.Queue.Random.{GRand}
use mpd.Commands.{BadArg, not_0_or_1}
use mpd.Commands.Numbers.{
  in_uint, range_end, range_from, pair_with, ℤ, pos, negsuc, is_int, Libc, Checked, value, bad,
  to_uint, check_int, check_range,
}
use mpd.Commands.Handlers.{status_arg, song_arg, target_arg}
use mpd.Commands.Asked.{
  Given, none_given, number, wrapped, Place, at_position, from_current, Flag, off, on,
}

bad_is_no_value {ℓ} : {A : Type ℓ} {e : BadArg} {a : A} → ◌≡◌ {A = Checked A} (bad e) (value a) → ⊥
bad_is_no_value e = cc

same_value {ℓ} : {A : Type ℓ} {a b : A} → value a ≡ value b → a ≡ b
same_value e = cc

module _ (g : GRand) where
  -- a number that `check_int` lets through
  pub check_int-is_int :
      (c : Libc) (a : Bytes) (e : BadArg) (n : ℤ) → check_int c a e ≡ value n → is_int n ≡ true
  unfolding check_int
  check_int-is_int c a e n h = elim (Bool-cases (not (is_empty (c.strtol a).1))) [
    | inl t ↦ absurd (bad_is_no_value (sym (if-true _ _ t) ∙ h))
    | inr f ↦ elim (Bool-cases (is_int (c.strtol a).0)) [
      | inr beyond ↦
          absurd (bad_is_no_value (sym (if-true _ _ (ap not beyond)) ∙ sym (if-false _ _ f) ∙ h))
      | inl int ↦
          subst (λ x. is_int x ≡ true)
            (same_value (sym (if-false _ _ (ap not int)) ∙ sym (if-false _ _ f) ∙ h)) int
    ]
  ]

  in_uint-small : (n : ℤ) (x : ℕ) → in_uint n ≡ value x → x < uint_mod
  unfolding in_uint
  in_uint-small (pos n) x e = ground (arith, e)
  in_uint-small (negsuc n) x e = absurd (bad_is_no_value e)

  range_end-small : (c : Libc) (test : Bytes) (x : ℕ) → range_end c test ≡ value x → x < uint_mod
  unfolding range_end
  range_end-small c test x e = ground (arith, e, in_uint-small (c.strtol test).0 x)

  pair_with-small :
      (c : Libc) (start : ℕ) (end : Checked ℕ) (r : ℕ × ℕ)
      → ((x : ℕ) → end ≡ value x → x < uint_mod)
      → pair_with c start end ≡ value r
      → r.1 < uint_mod
  pair_with-small c start (value end) r small h =
      subst (λ (t : ℕ × ℕ). t.1 < uint_mod) (same_value h) (small end refl)
  pair_with-small c start (bad e) r small h = absurd (bad_is_no_value h)

  range_from-small :
      (c : Libc) (start : Checked ℕ) (test : Bytes) (r : ℕ × ℕ)
      → range_from c start test ≡ value r
      → r.1 < uint_mod
  range_from-small c (bad e) test r h = absurd (bad_is_no_value h)
  range_from-small c (value start) [] r h = ground (arith, h)
  range_from-small c (value start) (b ∷ test) r h =
      pair_with-small c start (range_end c test) r (range_end-small c test) h

  pub check_range-small :
      (c : Libc) (a : Bytes) (r : ℕ × ℕ) → check_range c a ≡ value r → r.1 < uint_mod
  unfolding check_range
  check_range-small c a r e =
      ground (arith, e, range_from-small c (in_uint (c.strtol a).0) (c.strtol a).1 r)

  pub song_arg-Given : (n : ℤ) → Given n (song_arg g n)
  song_arg-Given (pos n) = number
  song_arg-Given (negsuc zero) = none_given
  song_arg-Given (negsuc (suc n)) =
      let e : song_arg g (negsuc (suc n)) ≡ some (to_uint (negsuc (suc n))) = ground arith in
      subst (Given (negsuc (suc n))) (sym e) wrapped

  pub target_arg-Place : (n : ℤ) → Place n (target_arg g n)
  target_arg-Place (pos n) = at_position
  target_arg-Place (negsuc n) = from_current

  status_arg-beyond : (n : ℕ) → status_arg g (pos (suc (suc n))) ≡ bad not_0_or_1
  status_arg-beyond n = ground arith

  pub status_arg-Flag : (n : ℤ) (b : Bool) → status_arg g n ≡ value b → Flag n b
  status_arg-Flag (pos zero) b e = subst (Flag (pos zero)) (same_value e) off
  status_arg-Flag (pos (suc zero)) b e = subst (Flag (pos (suc zero))) (same_value e) on
  status_arg-Flag (pos (suc (suc n))) b e = absurd (bad_is_no_value (sym (status_arg-beyond n) ∙ e))
  status_arg-Flag (negsuc n) b e = absurd (bad_is_no_value e)

  pub status_arg-bad :
      (n : ℤ) (e : BadArg) → status_arg g n ≡ bad e → (n ≢ pos 0) × (n ≢ pos 1) × (e ≡ not_0_or_1)
  status_arg-bad (pos zero) b e = absurd (bad_is_no_value (sym e))
  status_arg-bad (pos (suc zero)) b e = absurd (bad_is_no_value (sym e))
  status_arg-bad (pos (suc (suc n))) b e =
      (λ h. cc h, λ h. cc h, cc (sym (status_arg-beyond n) ∙ e))
  status_arg-bad (negsuc n) b e = (λ h. cc h, λ h. cc h, cc e)
