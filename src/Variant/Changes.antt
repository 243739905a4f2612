-- ===== src/Variant/Changes.antt =====
-- VariantChangeType of bcap_core/src/dn_common.c between the integer types.
use denso_robot_ros.Prelude.{
  ℕ, ◌≡◌, refl, ap, sym, ◌∙◌, ◌↔◌, Bool, true, false, ◌==◌, ◌||◌, Bool-cases, inl, inr,
}
use denso_robot_ros.Hresult.{Outcome, ok, failed, fault, out_of_fuel, ◌>>=◌}
use denso_robot_ros.Variant.{Variant, plain, vt_of}
use denso_robot_ros.Variant.Change.{FloatOps, change_number}
use denso_robot_ros.Variant.Change.Exact.{
  IntType, i2, i4, i8, cy, ui1, ui2, ui4, ui8, vt_number, value_of, converted, is_exact, lossy_bits,
  change_number-is_exact, change_number-lossy,
}
use denso_robot_ros.Variant.ChangeType.{TextOps, bits_of, variant_change_type, change_from}
use denso_robot_ros.Variant.Vt

-- The VARIANT of the new type that holds the value, or an overflow.
abbrev pub as_type : IntType → Outcome ℕ → Outcome Variant
as_type t b = b >>= λ bits. ok (plain (vt_number t) bits)

-- A conversion into another VARIANT that keeps the value, or fails with DISP_E_OVERFLOW where the
-- new type does not have it.
abbrev pub KeepsValue : FloatOps → TextOps → (ℕ → Bool) → IntType → IntType → ℕ → Type 0
KeepsValue fl tx malloc s t bits =
    variant_change_type fl tx malloc false (plain (vt_number s) bits) (vt_number t)
    ≡ as_type t (converted t (value_of s bits))

-- An integer type is none of those that VariantChangeType treats apart.
apart :
    (t : IntType)
    → ((vt_number t == 0) ≡ false)
      × ((vt_number t == 1 || vt_number t == Vt.error) ≡ false)
      × ((vt_number t == Vt.bstr) ≡ false)
apart i2 = (refl, refl, refl)
apart i4 = (refl, refl, refl)
apart i8 = (refl, refl, refl)
apart cy = (refl, refl, refl)
apart ui1 = (refl, refl, refl)
apart ui2 = (refl, refl, refl)
apart ui4 = (refl, refl, refl)
apart ui8 = (refl, refl, refl)

bits_out : Outcome Variant → Outcome ℕ
bits_out (ok v) = ok (bits_of v)
bits_out (failed hr) = failed hr
bits_out fault = fault
bits_out out_of_fuel = out_of_fuel

bits_out-as_type : (t : IntType) (b : Outcome ℕ) → bits_out (as_type t b) ≡ b
unfolding bits_out
bits_out-as_type t (ok b) = refl
bits_out-as_type t (failed hr) = refl
bits_out-as_type t fault = refl
bits_out-as_type t out_of_fuel = refl

module _ (fl : FloatOps) (tx : TextOps) (malloc : ℕ → Bool) where
  change_type-number :
      (s t : IntType) (bits : ℕ)
      → (vt_number t == vt_number s) ≡ false
      → variant_change_type fl tx malloc false (plain (vt_number s) bits) (vt_number t)
        ≡ as_type t (change_number fl (vt_number s) bits (vt_number t) 0)
  unfolding variant_change_type change_from vt_of
  change_type-number s t bits differ =
      let (s0, s1, s2) = apart s in let (t0, t1, t2) = apart t in rw (differ, s0, s1, t2) refl

  -- VariantChangeType between two different integer types, into another VARIANT, keeps every value
  -- that the new type has and fails with DISP_E_OVERFLOW for every other value, exactly for the
  -- pairs of types in the table `is_exact`: for all but those to VT_UI1, from VT_UI2 to VT_I2, from
  -- VT_I2 to VT_UI2, from VT_UI8 to VT_I8 and VT_CY, from VT_I8 to VT_UI8, and from VT_I8, VT_CY,
  -- VT_UI8 and the other type of four bytes to VT_I4 and VT_UI4.
  pub variant_change_type-is_exact :
      (s t : IntType)
      → (vt_number t == vt_number s) ≡ false
      → (is_exact s t ≡ true) ↔ ((bits : ℕ) → KeepsValue fl tx malloc s t bits)
  variant_change_type-is_exact s t differ = (
    λ e bits.
        change_type-number s t bits differ ∙ ap (as_type t) (change_number-is_exact fl s t bits e),
    λ keeps. elim (Bool-cases (is_exact s t)) [
      | inl e ↦ e
      | inr e ↦
          let bits = lossy_bits s t in
          let number = change_number fl (vt_number s) bits (vt_number t) 0 in
          let spec = converted t (value_of s bits) in
          let same : as_type t number ≡ as_type t spec =
            sym (change_type-number s t bits differ) ∙ keeps bits in
          let equal : number ≡ spec =
            sym (bits_out-as_type t number) ∙ ap bits_out same ∙ bits_out-as_type t spec in
          absurd (change_number-lossy fl s t e equal)
    ],
  )
