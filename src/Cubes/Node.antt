-- ===== src/Cubes/Node.antt =====
-- The ways a node of the search tree ends, and what each of them covers.
use cube_conquer_pb.Base.{
  ℕ, suc, ◌+◌, ◌≡◌, refl, sym, subst, true, false, ◌&&◌, List, [], ◌∷◌, ◌++◌, arith, if◌then◌else◌,
  Bool-cases, Option, some, inl, inr, length, length-append, ltb, ◌≤◌, ◌<◌,
}
use cube_conquer_pb.Constraint.{Lit}
use cube_conquer_pb.Constraint.Semantics.{Assignment, holds}
use cube_conquer_pb.Cubes.{
  Backend, Heuristic, Params, Best, Gen, push_cube, explore, explore_both, generate_cubes_rec,
}
use cube_conquer_pb.Cubes.Laws.{AllHold, Laws}
use cube_conquer_pb.Cubes.Branch.{
  Covers, Done, Done-weaken, explore-Done, explore_both-Done, push_cube-Covers, push_cube-keeps,
}

module _ (b : Backend) (h : Heuristic) (p : Params) (Solves : Assignment → Type 0)
    (laws : Laws b Solves) where
  open b use {State, assigned_vars, assume_and_propagate, backtrack}
  open h use {grow, exceeds}
  open laws use {decisions}

  -- The worker has its subtree for itself.
  abbrev pub Alone : ℕ → Type 0
  Alone nw = (p.distributed_split && ltb 1 nw) ≡ false

  -- What a call has to cover: everything below its cube, when the worker is alone on it.
  abbrev pub Share : ℕ → List Lit → Assignment → Type 0
  Share nw current σ = AllHold σ current × Alone nw

  abbrev pub Finished : ℕ → List Lit → Gen b h p → Option (Gen b h p) → Type 0
  Finished nw current g r = Done b h p Solves laws (Share nw current) g r

  pub stay :
      (P : Assignment → Type 0) (g g' : Gen b h p)
      → decisions g'.solver ≡ decisions g.solver
      → ((σ : Assignment) → Covers p σ g → Covers p σ g')
      → ((σ : Assignment) → Solves σ → AllHold σ (decisions g.solver) → P σ → Covers p σ g')
      → Done b h p Solves laws P g (some g')
  stay P g g' r k c = record { restored = r; keeps = k; covers = c }

  -- A node whose probe leaves no variable: the decisions satisfy the formula, or become a cube.
  abbrev pub full_gen : List Lit → Gen b h p → Gen b h p
  full_gen current g2 =
      if p.optimizing then push_cube b h p current g2 else record g2 { cube_sat_found = true }

  pub full_gen-Covers :
      (σ : Assignment) (current : List Lit) (g2 : Gen b h p)
      → AllHold σ current
      → Covers p σ (full_gen current g2)
  full_gen-Covers σ current g2 on = elim (Bool-cases p.optimizing) [
    | inl e ↦
        let eq : full_gen current g2 ≡ push_cube b h p current g2 = rw (e, if◌then◌else◌) refl in
        subst (Covers p σ) (sym eq) (push_cube-Covers b h p Solves laws σ current g2 on)
    | inr e ↦
        let eq : full_gen current g2 ≡ record g2 { cube_sat_found = true } =
          rw (e, if◌then◌else◌) refl in
        subst (Covers p σ) (sym eq) (inl (e, refl))
  ]

  pub full_gen-Finished :
      (nw : ℕ) (current : List Lit) (g2 : Gen b h p)
      → Finished nw current g2 (some (full_gen current g2))
  unfolding push_cube
  full_gen-Finished nw current g2 = elim (Bool-cases p.optimizing) [
    | inl e ↦ rw e (
        stay (Share nw current) g2 (push_cube b h p current g2) refl
          (λ σ x. push_cube-keeps b h p Solves laws σ current g2 x)
          (λ σ m d on. push_cube-Covers b h p Solves laws σ current g2 on.0))
    | inr e ↦ rw e (
        stay (Share nw current) g2 (record g2 { cube_sat_found = true }) refl (λ σ x. inl (e, refl))
          (λ σ m d on. inl (e, refl)))
  ]

  pub push_cube-Finished :
      (nw : ℕ) (current : List Lit) (g : Gen b h p)
      → Finished nw current g (some (push_cube b h p current (record g { theta = grow g.theta })))
  unfolding push_cube
  push_cube-Finished nw current g =
      let g1 : Gen b h p = record g { theta = grow g.theta } in
      stay (Share nw current) g (push_cube b h p current g1) refl
        (λ σ x. push_cube-keeps b h p Solves laws σ current g1 x)
        (λ σ m d on. push_cube-Covers b h p Solves laws σ current g1 on.0)

  module _ (fuel : ℕ)
      (next : (wid nw : ℕ) (current : List Lit) (g : Gen b h p)
        → 0 < nw
        → length current ≤ 11
        → 12 ≤ length current + fuel
        → Finished nw current g (generate_cubes_rec b h p fuel wid nw current g)) where
    -- The call below a node, on a literal more.
    pub child :
        (wid nw : ℕ) (current : List Lit) (l : Lit) (g : Gen b h p)
        → 0 < nw
        → length current < 11
        → 12 ≤ length current + suc fuel
        → Finished nw
            (current ++ l ∷ [])
            g
            (generate_cubes_rec b h p fuel wid nw (current ++ l ∷ []) g)
    child wid nw current l g some_worker small enough =
        let len = length-append current (l ∷ []) in
        next wid nw (current ++ l ∷ []) g some_worker (omega (arith, len)) (omega (arith, len))

    -- A worker with others on its subtree follows one branch, and need not cover the node.
    pub one_branch :
        (wid nw nw' : ℕ) (current : List Lit) (l : Lit) (g : Gen b h p)
        → (p.distributed_split && ltb 1 nw) ≡ true
        → 0 < nw'
        → length current < 11
        → 12 ≤ length current + suc fuel
        → Finished nw current g (explore b h p (generate_cubes_rec b h p fuel wid nw') current l g)
    one_branch wid nw nw' current l g shared some_worker small enough =
        Done-weaken b h p Solves laws (λ σ. Share nw' (current ++ l ∷ []) σ × (holds σ l ≡ true))
          (Share nw current) g _ (λ σ on. absurd (cc))
          (explore-Done b h p Solves laws (Share nw' (current ++ l ∷ []))
            (generate_cubes_rec b h p fuel wid nw') current l g
            (λ g1. child wid nw' current l g1 some_worker small enough))

    pub two_branches :
        (wid nw : ℕ) (current : List Lit) (best : Best) (g : Gen b h p)
        → Alone nw
        → 0 < nw
        → length current < 11
        → 12 ≤ length current + suc fuel
        → Finished nw current g
            (explore_both b h p (generate_cubes_rec b h p fuel wid nw) current best g)
    two_branches wid nw current best g alone some_worker small enough =
        Done-weaken b h p Solves laws (λ σ. AllHold σ current) (Share nw current) g _ (λ σ on. on.0)
          (explore_both-Done b h p Solves laws (generate_cubes_rec b h p fuel wid nw) current best g
            (λ l g1.
              Done-weaken b h p Solves laws (Share nw (current ++ l ∷ []))
                (λ σ. AllHold σ (current ++ l ∷ [])) g1 _ (λ σ on. (on, alone))
                (child wid nw current l g1 some_worker small enough)))
