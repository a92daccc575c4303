-- ===== src/ProxQp/Init.antt =====
-- `ProxQP::init`: the layout of the decision variables and of the constraint rows, the sparsity
-- structure, and the workspace.
use prox_mpc.Base.{
  ℕ, zero, suc, ◌+◌, ◌-◌, ◌*◌, ◌^◌, false, not, ◌&&◌, ◌||◌, List, [], ◌∷◌, ◌++◌, ◌==◌, ltb, leb,
  if◌then◌else◌, length, set, replicate, back_or,
}
use prox_mpc.Base.Double.{Double, nought, one}
use prox_mpc.Base.Matrix.{Matrix, constant}
use prox_mpc.Base.Result.{Result, ok, invalid_argument, throw_if, ◌>>◌, ◌>>=◌}
use prox_mpc.ProxQp.State.{ProxQp, Layout, Plant, Sparse}
use prox_mpc.ProxQp.Solver.{Solver}
use prox_mpc.ProxQp.Objective.{set_h}
use prox_mpc.ProxQp.Dynamics.{set_e}
use prox_mpc.ProxQp.Constraints.{set_c_mat}

-- k - 1 on a `size_t`.
abbrev pub size_pred : ℕ → ℕ
size_pred zero = 2 ^ 64 - 1
size_pred (suc k) = k

-- idx[i] = idx[i - 1] + size, from the last index written on.
abbrev pub accumulate : ℕ → List ℕ → List ℕ
accumulate last [] = []
accumulate last (size ∷ sizes) = (last + size) ∷ accumulate (last + size) sizes

-- idx[i] = v; i++; for each value
abbrev pub fill : List ℕ → ℕ → List ℕ → List ℕ
fill idx i [] = idx
fill idx i (v ∷ vs) = fill (set idx i v) (suc i) vs

module _ {ℓ} {W : Type ℓ} where
  -- The rows of each block after the first control-rate rows.
  abbrev pub block_sizes : Layout W → List ℕ
  block_sizes p =
      replicate (length p.model.ineq_x) (p.np + 1)
      ++ (replicate (length p.model.ineq_u) p.nc
          ++ (replicate (length p.model.ineq_du) (size_pred p.nc)
              ++ (if p.obstacle_active then p.np * p.max_obs ∷ p.np * p.max_obs ∷ [] else [])))

  -- The equality indices; two blocks are counted on top of n_eq.
  unfoldable pub index_equalities : Layout W → Layout W
  index_equalities p =
      let count = p.n_eq + 2 in
      let idx = fill (replicate count 0) 0 (p.n ∷ accumulate p.n (p.np * p.n ∷ [])) in
      record p { n_eq = count; eq_idx = idx; eq_tot = back_or idx 0 }

  -- The inequality indices; n_ineq counts one block more, and two with obstacles.
  unfoldable pub index_inequalities : Layout W → Layout W
  index_inequalities p =
      let count = p.n_ineq + 1 + (if p.obstacle_active then 2 else 0) in
      let first = length p.model.ineq_du in
      let idx = fill (replicate count 0) 0 (first ∷ accumulate first (block_sizes p)) in
      record p { n_ineq = count; ineq_idx = idx; ineq_tot = back_or idx 0 }

  unfoldable pub place_variables : Layout W → Layout W
  place_variables p =
      let u_start = 0 + (p.np + 1) * p.n in
      let w_start = u_start + p.nc * p.m in
      record p {
        x_start = 0;
        u_start = u_start;
        w_start = w_start;
        n_dvars = w_start + (if p.obstacle_active then p.np * p.max_obs else 0);
      }

  -- The position's state indices are validated only if the obstacle rows will use them.
  unfoldable pub read_mapping : Plant W → Layout W → Result (Layout W)
  read_mapping model p =
      if p.obstacle_active
      then throw_if (leb p.n model.idx_x)
          (invalid_argument "ProxQP::init: x position outside the states")
        >> (throw_if (leb p.n model.idx_y)
              (invalid_argument "ProxQP::init: y position outside the states")
            >> (throw_if (model.idx_x == model.idx_y)
                  (invalid_argument "ProxQP::init: both positions at one state index")
                >> ok (record p { idx_pos_x = model.idx_x; idx_pos_y = model.idx_y })))
      else ok p

  -- The model's sizes, the equality tables, and whether obstacle avoidance is active.
  unfoldable pub read_model : Plant W → Layout W → Layout W
  unfolding index_equalities
  read_model new_model l =
      record (index_equalities (record l { model = new_model; n = new_model.n; m = new_model.m })) {
        obstacle_active = new_model.obs_flag && ltb 0 l.max_obs;
      }

  -- The part of `init` that computes sizes and places.
  unfoldable pub lay_out : Plant W → Layout W → Result (Layout W)
  unfolding read_model index_inequalities place_variables read_mapping
  lay_out new_model l = read_mapping new_model (read_model new_model l) >>= λ q.
      ok (place_variables (index_inequalities q))

module _ {ℓ} {W : Type ℓ} ⦃d : Double W⦄ where
  -- The structural pattern: every entry that is not the marker.
  unfoldable pub written_pattern : (ℕ → ℕ → W) → Sparse W
  written_pattern m = record { pattern = λ i j. not (d.is_nan (m i j)); value = λ _ _. one }

  -- H.sparseView()
  unfoldable pub sparse_view : (ℕ → ℕ → W) → Sparse W
  sparse_view m = record { pattern = λ i j. not (d.eq (m i j) nought); value = m }

  abbrev pub zeros : ℕ → ℕ → W
  zeros _ _ = nought

module _ {ℓ} {W S : Type ℓ} ⦃d : Double W⦄ where
  abbrev pub marked : ProxQp W S → ProxQp W S
  marked p = record p { mat_e = λ _ _. d.nan; mat_c = λ _ _. d.nan }

  -- The obstacles that the probe runs on: those set, or a far placeholder if their shape is wrong.
  abbrev pub probe_obs : ProxQp W S → Matrix W
  probe_obs p =
      if p.obstacle_active && (not (p.obs.rows == p.np * p.max_obs) || not (p.obs.cols == 3))
      then constant (p.np * p.max_obs) 3 d.far
      else p.obs

  -- What the fillers run over to show their entries.
  abbrev pub probe : ProxQp W S → ProxQp W S
  probe p = marked (record p { obs = probe_obs p })

  abbrev pub x_probe : ProxQp W S → Matrix W
  x_probe p = constant (p.np + 1) p.n nought

  abbrev pub u_probe : ProxQp W S → Matrix W
  u_probe p = constant p.nc p.m nought

  -- setE and setC run once over NaN and show which entries they own.
  unfoldable pub declare_pattern : ProxQp W S → ProxQp W S
  unfolding set_e set_c_mat written_pattern sparse_view
  declare_pattern p =
      let q = set_c_mat (x_probe p) (set_e (x_probe p) (u_probe p) (probe p)) in
      record q {
        e_sparse = written_pattern q.mat_e;
        c_sparse = written_pattern q.mat_c;
        mat_e = zeros;
        mat_c = zeros;
        obs = p.obs;
        h_sparse = sparse_view q.mat_h;
      }

  unfoldable pub clear_buffers : ProxQp W S → ProxQp W S
  clear_buffers p = record p {
    obs_h = λ _. nought;
    obs_h_prev = λ _. nought;
    mat_h = zeros;
    mat_e = zeros;
    mat_c = zeros;
    vec_c = zeros;
    vec_b = zeros;
    upp = zeros;
    low = zeros;
  }

  module _ (solver : Solver W S) where
    unfoldable pub build_workspace : ProxQp W S → ProxQp W S
    unfolding declare_pattern
    build_workspace p =
        if p.qp_type
        then record p {
          workspace = solver.dense_qp p.n_dvars p.eq_tot p.ineq_tot p.max_out_iter p.max_inn_iter;
        }
        else (let q = declare_pattern p in
            record q {
              workspace =
                  solver.sparse_qp q.h_sparse q.e_sparse q.c_sparse q.max_out_iter q.max_inn_iter;
              qp_ready = false;
            })

    -- Everything is sized and placed from the layout.
    unfoldable pub set_up : ProxQp W S → ProxQp W S
    unfolding clear_buffers set_h build_workspace
    set_up p = build_workspace (set_h (clear_buffers p))

    unfoldable pub init : Plant W → ProxQp W S → Result (ProxQp W S)
    unfolding lay_out set_up
    init new_model p = lay_out new_model p.layout >>= λ l. ok (set_up (record p { layout = l }))
