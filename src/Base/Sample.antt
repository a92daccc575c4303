-- ===== src/Base/Sample.antt =====
-- Values at which the models run in the tests: a number in tenths, +infinity or NaN.
-- Products and quotients are cut to a tenth, and the trigonometric functions are not imitated.
use Prim.Native.Nat.{ℕ, zero, suc, ◌+◌, ◌*◌, ◌/◌}
use mathlib.Core.Bool.{Bool, true, false, ◌&&◌}
use prox_mpc.Base.Tests.{leb, ◌==◌, if◌then◌else◌}
use prox_mpc.Base.Int.{ℤ, pos, negsuc, pos_part, neg_part, ◌+ℤ◌, ◌-ℤ◌, ◌*ℤ◌, ◌/ℤ◌, leb_ℤ, ltb_ℤ}
use prox_mpc.Base.Double.{Double}
use prox_mpc.Base.Cmath.{Cmath}

pub data Sample : Type 0 where
  num : ℤ → Sample
  top : Sample
  undefined : Sample

-- Digit by digit in base 4: `2 ^ fuel` bounds the root.
unfoldable pub isqrt : ℕ → ℕ → ℕ
isqrt zero n = 0
isqrt (suc fuel) n =
    let r = 2 * isqrt fuel (n / 4) in if leb ((r + 1) * (r + 1)) n then r + 1 else r

abbrev pub Sample_add : Sample → Sample → Sample
Sample_add (num a) (num b) = num (a +ℤ b)
Sample_add undefined b = undefined
Sample_add a undefined = undefined
Sample_add a b = top

abbrev pub Sample_sub : Sample → Sample → Sample
Sample_sub (num a) (num b) = num (a -ℤ b)
Sample_sub top (num b) = top
Sample_sub a b = undefined

abbrev pub on_num : (ℤ → ℤ → ℤ) → Sample → Sample → Sample
on_num f (num a) (num b) = num (f a b)
on_num f a b = undefined

abbrev pub test_num : (ℤ → ℤ → Bool) → Bool → Sample → Sample → Bool
test_num f t (num a) (num b) = f a b
test_num f t (num a) top = true
test_num f t top top = t
test_num f t a b = false

abbrev pub Sample_eq : Sample → Sample → Bool
Sample_eq (num a) (num b) = (pos_part a == pos_part b) && (neg_part a == neg_part b)
Sample_eq top top = true
Sample_eq a b = false

abbrev pub Sample_neg : Sample → Sample
Sample_neg (num a) = num (pos 0 -ℤ a)
Sample_neg a = undefined

abbrev pub Sample_sqrt : Sample → Sample
Sample_sqrt (num (pos n)) = num (pos (isqrt 40 (10 * n)))
Sample_sqrt (num (negsuc n)) = undefined
Sample_sqrt a = a

abbrev pub Sample_is_finite : Sample → Bool
Sample_is_finite (num a) = true
Sample_is_finite a = false

abbrev pub Sample_is_nan : Sample → Bool
Sample_is_nan undefined = true
Sample_is_nan a = false

instance abbrev pub sample_double : Double Sample
sample_double = record {
  of_nat = λ n. num (pos (10 * n));
  add = Sample_add;
  sub = Sample_sub;
  mul = on_num (λ a b. ◌/ℤ◌ (a *ℤ b) (pos 10));
  div = on_num (λ a b. ◌/ℤ◌ (a *ℤ pos 10) b);
  neg = Sample_neg;
  sqrt = Sample_sqrt;
  sin = λ a. num (pos 0);
  cos = λ a. num (pos 10);
  tan = λ a. a;
  lt = test_num ltb_ℤ false;
  le = test_num leb_ℤ true;
  eq = Sample_eq;
  is_finite = Sample_is_finite;
  is_nan = Sample_is_nan;
  infinity = top;
  nan = undefined;
  half = num (pos 5);
  nano = num (pos 1);
  weight_tol = num (pos 0);
  far = num (pos 10_000_000);
}

-- `hypot` adds the two legs, and the other functions are constant.
instance abbrev pub sample_cmath : Cmath Sample
sample_cmath = record {
  fmod = λ a b. a;
  hypot = Sample_add;
  atan2 = λ a b. num (pos 0);
  exp = λ a. num (pos 10);
  pi = num (pos 31);
  hundredth = num (pos 0);
  stay = num (pos 9);
  thousandth = num (pos 1);
  omega_eps = num (pos 1);
  likelihood_floor = num (pos 1);
  length_floor = num (pos 0);
  largest = num (pos 1_000_000_000);
}
