-- ===== src/ProxQp/Sparsity.antt =====
-- The sparse backend sees every entry: the structure that `declarePattern` fixes at `init` covers what
-- each later cycle writes.
use prox_mpc.Base.{
  ℕ, ◌≡◌, refl, sym, ap, ◌∙◌, subst, Bool, true, false, ◌&&◌, inl, inr, List, map, if◌then◌else◌,
  Bool-cases, All,
}
use prox_mpc.Base.Double.{Double, nought}
use prox_mpc.Base.Matrix.{Matrix, Write, constant, place, hits, apply, apply-missed, apply-hit}
use prox_mpc.ProxQp.State.{ProxQp, Sparse}
use prox_mpc.ProxQp.Solver.{Solver}
use prox_mpc.ProxQp.Dynamics.{equality_writes, set_e}
use prox_mpc.ProxQp.Constraints.{constraint_writes, set_c_mat}
use prox_mpc.ProxQp.Init.{declare_pattern, probe, x_probe, u_probe, written_pattern}
use prox_mpc.ProxQp.Solve.{write_into, run_sparse, run_dense, run_qp}
use prox_mpc.ProxQp.Pattern.{place-constraint_writes, place-equality_writes}

module _ {ℓ} {W : Type ℓ} ⦃d : Double W⦄ where
  -- The matrix that a sparse matrix stands for.
  unfoldable pub dense_of : Sparse W → ℕ → ℕ → W
  dense_of s r c = if s.pattern r c then s.value r c else nought

  -- The entries of `ws` are the pattern of `s`, and outside of it `m` is zero.
  pub record Covers (s : Sparse W) (m : ℕ → ℕ → W) (ws : List (Write W)) : Type ℓ where
    pub owned : (r c : ℕ) → s.pattern r c ≡ hits (map place ws) r c
    pub zero_outside : (r c : ℕ) → s.pattern r c ≡ false → m r c ≡ nought

  -- What is filled in over zeros and written into the structure is all seen.
  pub write_into-lossless :
      (s : Sparse W) (m : ℕ → ℕ → W) (ws : List (Write W))
      → Covers s m ws
      → (r c : ℕ) → dense_of (write_into s m) r c ≡ m r c
  unfolding dense_of write_into
  write_into-lossless s m ws cov r c = elim (Bool-cases (s.pattern r c)) [
    | inl on ↦ simp on
    | inr off ↦ simp (off, cov.zero_outside r c off)
  ]

  -- Filling by writes at the same places keeps the cover.
  pub apply-Covers :
      (s : Sparse W) (m : ℕ → ℕ → W) (ws ws' : List (Write W))
      → map place ws' ≡ map place ws
      → Covers s m ws
      → Covers s (apply ws' m) ws'
  apply-Covers s m ws ws' same cov = record {
    owned = λ r c. cov.owned r c ∙ ap (λ ps. hits ps r c) (sym same);
    zero_outside = λ r c off.
        apply-missed ws' m r c (ap (λ ps. hits ps r c) same ∙ (sym (cov.owned r c) ∙ off))
        ∙ cov.zero_outside r c off;
  }

  -- Writes of numbers over the marker show where they went.
  written_pattern-Covers :
      (ws : List (Write W))
      → d.is_nan d.nan ≡ true
      → All (λ w. d.is_nan w.value ≡ false) ws
      → Covers (written_pattern (apply ws (λ _ _. d.nan))) (λ _ _. nought) ws
  unfolding written_pattern
  written_pattern-Covers ws nan numbers = record {
    owned = λ r c. elim (Bool-cases (hits (map place ws) r c)) [
      | inl hit ↦
          rw (hit, apply-hit (λ v. d.is_nan v ≡ false) ws (λ _ _. d.nan) r c numbers hit) refl
      | inr miss ↦ rw (miss, apply-missed ws (λ _ _. d.nan) r c miss, nan) refl
    ];
    zero_outside = λ r c off. refl;
  }

  pub Covers-same :
      (s : Sparse W) (m : ℕ → ℕ → W) (ws ws' : List (Write W))
      → map place ws ≡ map place ws'
      → Covers s m ws
      → Covers s m ws'
  Covers-same s m ws ws' same cov = record {
    owned = λ r c. cov.owned r c ∙ ap (λ ps. hits ps r c) same;
    zero_outside = cov.zero_outside;
  }

  Covers-write_into :
      (s : Sparse W) (m m' : ℕ → ℕ → W) (ws : List (Write W))
      → Covers s m ws
      → Covers (write_into s m') m ws
  unfolding write_into
  Covers-write_into s m m' ws cov = record { owned = cov.owned; zero_outside = cov.zero_outside }

  abbrev pub nowhere : Matrix W
  nowhere = constant 0 0 nought

module _ {ℓ} {W S : Type ℓ} ⦃d : Double W⦄ where
  -- The structures own what the fillers write, and the dense blocks are zero elsewhere.
  pub record HasPattern (p : ProxQp W S) : Type ℓ where
    pub e_covers : Covers p.e_sparse p.mat_e (equality_writes nowhere nowhere p)
    pub c_covers : Covers p.c_sparse p.mat_c (constraint_writes nowhere p)

  -- If NaN is the marker that it looks for, and no value filled in at the probe is NaN, what
  -- `declarePattern` leaves has the pattern.
  pub declare_pattern-HasPattern :
      (p : ProxQp W S)
      → d.is_nan d.nan ≡ true
      → All (λ w. d.is_nan w.value ≡ false) (equality_writes (x_probe p) (u_probe p) (probe p))
      → All
          (λ w. d.is_nan w.value ≡ false)
          (constraint_writes (x_probe p) (set_e (x_probe p) (u_probe p) (probe p)))
      → HasPattern (declare_pattern p)
  unfolding declare_pattern set_e set_c_mat
  declare_pattern-HasPattern p nan e_numbers c_numbers =
      let q = set_e (x_probe p) (u_probe p) (probe p) in
      record {
        e_covers =
            Covers-same _ _ (equality_writes (x_probe p) (u_probe p) (probe p))
              (equality_writes nowhere nowhere (declare_pattern p))
              (place-equality_writes (declare_pattern p) (probe p) refl (x_probe p) (u_probe p)
                nowhere nowhere)
              (written_pattern-Covers _ nan e_numbers);
        c_covers =
            Covers-same _ _ (constraint_writes (x_probe p) q)
              (constraint_writes nowhere (declare_pattern p))
              (place-constraint_writes (declare_pattern p) q refl (x_probe p) nowhere refl)
              (written_pattern-Covers _ nan c_numbers);
      }

  -- The structures stand for the whole of the dense blocks.
  abbrev pub Lossless : ProxQp W S → Type ℓ
  Lossless q =
      HasPattern q
      × ((r c : ℕ) → dense_of q.e_sparse r c ≡ q.mat_e r c)
      × ((r c : ℕ) → dense_of q.c_sparse r c ≡ q.mat_c r c)

  unfoldable pub written : ProxQp W S → ProxQp W S
  written p = record p {
    e_sparse = write_into p.e_sparse p.mat_e;
    c_sparse = write_into p.c_sparse p.mat_c;
  }

  -- Neither the workspace nor the flag that it is ready matters for the pattern.
  written-Lossless :
      (p : ProxQp W S) (k : S) (b : Bool)
      → HasPattern p
      → Lossless (record (written p) { workspace = k; qp_ready = b })
  unfolding written
  written-Lossless p k b h =
      let q = record (written p) { workspace = k; qp_ready = b } in
      (
        record {
          e_covers =
              Covers-same q.e_sparse q.mat_e (equality_writes nowhere nowhere p)
                (equality_writes nowhere nowhere q)
                (place-equality_writes q p refl nowhere nowhere nowhere nowhere)
                (Covers-write_into p.e_sparse p.mat_e p.mat_e _ h.e_covers);
          c_covers =
              Covers-same q.c_sparse q.mat_c (constraint_writes nowhere p)
                (constraint_writes nowhere q)
                (place-constraint_writes q p refl nowhere nowhere refl)
                (Covers-write_into p.c_sparse p.mat_c p.mat_c _ h.c_covers);
        },
        write_into-lossless p.e_sparse p.mat_e _ h.e_covers,
        write_into-lossless p.c_sparse p.mat_c _ h.c_covers,
      )

  run_sparse-Lossless :
      (solver : Solver W S) (p : ProxQp W S) → HasPattern p → Lossless (run_sparse solver p)
  unfolding run_sparse written
  run_sparse-Lossless solver p h = elim (Bool-cases (p.warm_start && p.qp_ready)) [
    | inl on ↦ rw (on, run_sparse) (written-Lossless p _ p.qp_ready h)
    | inr off ↦ rw (off, run_sparse) (written-Lossless p _ true h)
  ]

  pub run_qp-Lossless :
      (solver : Solver W S) (p : ProxQp W S)
      → p.qp_type ≡ false
      → HasPattern p
      → Lossless (run_qp solver p)
  unfolding run_qp
  run_qp-Lossless solver p sparse h =
      subst (λ k. Lossless k)
        (sym (ap (λ b. if b then run_dense solver p else run_sparse solver p) sparse))
        (run_sparse-Lossless solver p h)
