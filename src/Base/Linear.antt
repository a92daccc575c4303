-- ===== src/Base/Linear.antt =====
-- Eigen's products and sums of matrices and vectors, entry by entry. An entry of a product adds its
-- terms in the order of the index; what Eigen's inverse and determinant compute is left open.
use Prim.Native.Nat.{ℕ, zero, suc}
use mathlib.Core.Bool.{◌&&◌}
use prox_mpc.Base.Tests.{◌==◌, if◌then◌else◌}
use prox_mpc.Base.Double.{Double, ◌⊕◌, ◌⊖◌, ◌⊗◌, nought, one}
use prox_mpc.Base.Matrix.{Matrix, Vector}

module _ {ℓ} {W : Type ℓ} ⦃d : Double W⦄ where
  abbrev pub sum_below : ℕ → (ℕ → W) → W
  sum_below zero f = nought
  sum_below (suc zero) f = f 0
  sum_below (suc (suc n)) f = sum_below (suc n) f ⊕ f (suc n)

  abbrev pub identity : ℕ → Matrix W
  identity n = record { rows = n; cols = n; at = λ i j. if i == j then one else nought }

  abbrev pub product : Matrix W → Matrix W → Matrix W
  product a b = record {
    rows = a.rows;
    cols = b.cols;
    at = λ i j. sum_below a.cols (λ k. a.at i k ⊗ b.at k j);
  }

  abbrev pub product_vec : Matrix W → Vector W → Vector W
  product_vec a v = record { size = a.rows; get = λ i. sum_below a.cols (λ k. a.at i k ⊗ v.get k) }

  abbrev pub transpose : Matrix W → Matrix W
  transpose a = record { rows = a.cols; cols = a.rows; at = λ i j. a.at j i }

  abbrev pub sum : Matrix W → Matrix W → Matrix W
  sum a b = record { rows = a.rows; cols = a.cols; at = λ i j. a.at i j ⊕ b.at i j }

  abbrev pub difference : Matrix W → Matrix W → Matrix W
  difference a b = record { rows = a.rows; cols = a.cols; at = λ i j. a.at i j ⊖ b.at i j }

  abbrev pub scaled : W → Matrix W → Matrix W
  scaled s a = record { rows = a.rows; cols = a.cols; at = λ i j. s ⊗ a.at i j }

  abbrev pub sum_vec : Vector W → Vector W → Vector W
  sum_vec a b = record { size = a.size; get = λ i. a.get i ⊕ b.get i }

  abbrev pub difference_vec : Vector W → Vector W → Vector W
  difference_vec a b = record { size = a.size; get = λ i. a.get i ⊖ b.get i }

  abbrev pub scaled_vec : W → Vector W → Vector W
  scaled_vec s a = record { size = a.size; get = λ i. s ⊗ a.get i }

  -- v * v.transpose()
  abbrev pub outer : Vector W → Matrix W
  outer v = record { rows = v.size; cols = v.size; at = λ i j. v.get i ⊗ v.get j }

  -- a * p * a.transpose()
  abbrev pub congruence : Matrix W → Matrix W → Matrix W
  congruence a p = product (product a p) (transpose a)

module _ {ℓ} {W : Type ℓ} where
  -- m(r, c) = v
  abbrev pub with_entry : ℕ → ℕ → W → Matrix W → Matrix W
  with_entry r c v a = record a { at = λ i j. if (i == r) && (j == c) then v else a.at i j }

  -- v(i) = e
  abbrev pub with_component : ℕ → W → Vector W → Vector W
  with_component i e v = record v { get = λ j. if j == i then e else v.get j }
