-- ===== src/Base/Double.antt =====
-- What the code does with a `double`: constants, arithmetic, the functions of <cmath>, comparisons.
use Prim.Native.Nat.{ℕ}
use mathlib.Core.Bool.{Bool}
use prox_mpc.Base.Tests.{if◌then◌else◌}

-- `lt a b` is `a < b`, `le a b` is `a <= b`, `eq a b` is `a == b`: each false at NaN. `of_nat` is the
-- conversion from `size_t`; the source's decimal literals are constants of their own.
pub record Double {ℓ} (W : Type ℓ) : Type ℓ where
  pub of_nat : ℕ → W
  pub add : W → W → W
  pub sub : W → W → W
  pub mul : W → W → W
  pub div : W → W → W
  pub neg : W → W
  pub sqrt : W → W
  pub sin : W → W
  pub cos : W → W
  pub tan : W → W
  pub lt : W → W → Bool
  pub le : W → W → Bool
  pub eq : W → W → Bool
  pub is_finite : W → Bool
  pub is_nan : W → Bool
  pub infinity : W
  pub nan : W
  -- 0.5, 1e-9, 1e-8, 1e6
  pub half : W
  pub nano : W
  pub weight_tol : W
  pub far : W

infixl 65 ◌⊕◌ ◌⊖◌
infixl 70 ◌⊗◌ ◌⊘◌
module _ {ℓ} {W : Type ℓ} ⦃d : Double W⦄ where
  abbrev pub ◌⊕◌ : W → W → W
  ◌⊕◌ = d.add

  abbrev pub ◌⊖◌ : W → W → W
  ◌⊖◌ = d.sub

  abbrev pub ◌⊗◌ : W → W → W
  ◌⊗◌ = d.mul

  abbrev pub ◌⊘◌ : W → W → W
  ◌⊘◌ = d.div

  abbrev pub nought : W
  nought = d.of_nat 0

  abbrev pub one : W
  one = d.of_nat 1

  abbrev pub two : W
  two = d.of_nat 2

  -- std::abs and std::max, of which the latter keeps its first argument at NaN.
  abbrev pub abs : W → W
  abs a = if d.lt a nought then d.neg a else a

  abbrev pub fmax : W → W → W
  fmax a b = if d.lt a b then b else a

  abbrev pub fmin : W → W → W
  fmin a b = if d.lt b a then b else a
