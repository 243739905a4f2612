-- ===== src/Hresult.antt =====
-- HRESULT codes (bcap_core/include/bcap_core/dn_common.h, dn_device.h, bcap_common.h) and the
-- outcome of a C function that may fail.
use denso_robot_ros.Prelude.{ℕ, ◌≡◌, refl, Bool, leb}

-- An `HRESULT` is an `int32_t`; it is kept as its 32-bit pattern.
abbrev pub Hresult : Type 0
Hresult = ℕ

-- FAILED(hr): the sign bit is set.
abbrev pub is_failed : Hresult → Bool
is_failed hr = leb 0x80000000 hr

abbrev pub s_ok : Hresult
s_ok = 0

abbrev pub s_false : Hresult
s_false = 1

abbrev pub s_executing : Hresult
s_executing = 0x900

abbrev pub e_notimpl : Hresult
e_notimpl = 0x80004001

abbrev pub e_fail : Hresult
e_fail = 0x80004005

abbrev pub e_handle : Hresult
e_handle = 0x80070006

abbrev pub e_outofmemory : Hresult
e_outofmemory = 0x8007000e

abbrev pub e_invalidarg : Hresult
e_invalidarg = 0x80070057

abbrev pub e_invalidpacket : Hresult
e_invalidpacket = 0x80010000

abbrev pub e_timeout : Hresult
e_timeout = 0x80000900

abbrev pub e_max_object : Hresult
e_max_object = 0x80000905

abbrev pub e_too_much_data : Hresult
e_too_much_data = 0x80000909

abbrev pub disp_e_badindex : Hresult
disp_e_badindex = 0x8002000b

abbrev pub disp_e_overflow : Hresult
disp_e_overflow = 0x8002000a

-- `failed hr` is a return with a failing code. `fault` is an access outside an object, which C
-- leaves undefined. `out_of_fuel` has no counterpart in the program.
pub data Outcome {ℓ} (A : Type ℓ) : Type ℓ where
  ok : A → Outcome A
  failed : Hresult → Outcome A
  fault : Outcome A
  out_of_fuel : Outcome A

infixl 5 ◌>>=◌ ◌>>◌
abbrev pub ◌>>=◌ {ℓ κ} : {A : Type ℓ} {B : Type κ} → Outcome A → (A → Outcome B) → Outcome B
ok a >>= f = f a
failed hr >>= f = failed hr
fault >>= f = fault
out_of_fuel >>= f = out_of_fuel

abbrev pub ◌>>◌ {ℓ} : {B : Type ℓ} → Outcome (Unit {0}) → Outcome B → Outcome B
m >> k = m >>= λ _. k

pub >>=_assoc {ℓ κ μ} :
    {A : Type ℓ} {B : Type κ} {C : Type μ} (m : Outcome A) (f : A → Outcome B) (g : B → Outcome C)
    → ((m >>= f) >>= g) ≡ (m >>= λ a. f a >>= g)
>>=_assoc (ok a) f g = refl
>>=_assoc (failed hr) f g = refl
>>=_assoc fault f g = refl
>>=_assoc out_of_fuel f g = refl
