-- ===== src/Base/Result.antt =====
-- The C++ exceptions as values.
use Prim.Native.String.{String}
use mathlib.Core.Path.{◌≡◌, refl}
use mathlib.Core.Logic.{◌⊎◌, inl, inr}
use mathlib.Core.Bool.{Bool, true, false}

-- What std::invalid_argument, std::logic_error and nav2_core::ControllerException are thrown with, and
-- std::map::at's std::out_of_range.
pub data Error : Type 0 where
  invalid_argument : String → Error
  logic_error : String → Error
  controller_exception : String → Error
  out_of_range : Error

-- What a call gives back, or the exception that left it.
pub data Result {κ} (A : Type κ) : Type κ where
  thrown : Error → Result A
  ok : A → Result A

-- if (test) {throw e;}
abbrev pub throw_if : Bool → Error → Result (Unit {0})
throw_if false e = ok tt
throw_if true e = thrown e

infixl 5 ◌>>=◌ ◌>>◌
abbrev pub ◌>>=◌ {κ μ} : {A : Type κ} {B : Type μ} → Result A → (A → Result B) → Result B
thrown e >>= next = thrown e
ok a >>= next = next a

abbrev pub ◌>>◌ {κ} : {B : Type κ} → Result (Unit {0}) → Result B → Result B
first >> rest = first >>= λ done. rest

pub ok-injective {κ} : {A : Type κ} {a b : A} → ok a ≡ ok b → a ≡ b
ok-injective h = cc

-- A sequence that returned: its first call returned, and so did the rest from there.
pub >>=-eq-ok {κ μ} :
    {A : Type κ} {B : Type μ} (first : Result A) (next : A → Result B) {last : B}
    → first >>= next ≡ ok last
    → (a : A) × (first ≡ ok a) × (next a ≡ ok last)
>>=-eq-ok (thrown e) next h = cc
>>=-eq-ok (ok a) next h = (a, refl, h)

pub throw_if-eq-ok {ℓ} :
    {B : Type ℓ} (t : Bool) (e : Error) (k : Result B) {b : B}
    → (throw_if t e >> k) ≡ ok b
    → (t ≡ false) × (k ≡ ok b)
throw_if-eq-ok true e k h = cc
throw_if-eq-ok false e k h = (refl, h)

pub Result-cases {ℓ} :
    {A : Type ℓ} (m : Result A) → ((a : A) × (m ≡ ok a)) ⊎ ((e : Error) × (m ≡ thrown e))
Result-cases (ok a) = inl (a, refl)
Result-cases (thrown e) = inr (e, refl)
