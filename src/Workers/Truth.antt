-- ===== src/Workers/Truth.antt =====
-- A cube worker tells the master the truth when its solver does: solve_cube, the answer and run_master
-- together (src/cubePB.cpp).
use cube_conquer_pb.Base.{
  ℕ, ◌≡◌, Bool, true, List, Option, none, some, All, ℤ, ◌≤ℤ◌, ◌<ℤ◌, get_or, get_elem?, length, ◌<◌,
}
use cube_conquer_pb.Constraint.{Lit, WConstraint}
use cube_conquer_pb.Constraint.Semantics.{Assignment, Satisfies}
use cube_conquer_pb.Incumbent.{no_upper_bound}
use cube_conquer_pb.Tasks.{CubeTask}
use cube_conquer_pb.Master.{Config, Master, idle, busy}
use cube_conquer_pb.Workers.{is_solved, CubeSolveResult}
use cube_conquer_pb.Workers.Solve.{SolverBackend, Laws, solve_cube}

-- The other half of what a solver promises: what is added is kept, and a solution that it finds is one.
pub record Finds (api : SolverBackend) (Problem : Assignment → Type 0) (cost : Assignment → ℤ)
    (Allows : api.Solver → Assignment → Type 0) : Type 1 where
  pub base_back : (s : api.Solver) (σ : Assignment) → Allows (api.add_base_problem s) σ → Problem σ
  pub learned_back :
      (cs : List WConstraint) (s : api.Solver) (σ : Assignment)
      → Allows (api.add_learned_constraints cs s) σ
      → Allows s σ
  pub cube_back :
      (ls : List Lit) (s : api.Solver) (σ : Assignment) → Allows (api.add_cube ls s) σ → Allows s σ
  pub objective_back :
      (s : api.Solver) (σ : Assignment) → Allows (api.add_objective s) σ → Allows s σ
  pub bound_back :
      (c : ℤ) (s : api.Solver) (σ : Assignment)
      → Allows (api.add_objective_bound c s) σ
      → Allows s σ × (cost σ <ℤ c)
  pub lower_back :
      (c : ℤ) (s : api.Solver) (σ : Assignment)
      → Allows (api.add_objective_lower_bound c s) σ
      → Allows s σ
  pub found :
      (b : Bool) (s : api.Solver)
      → is_solved (api.solve b s).0.status ≡ true
      → (σ : Assignment) × Allows s σ
        × (b ≡ true → (cost σ ≡ (api.solve b s).0.best_cost) × (cost σ ≤ℤ no_upper_bound))

-- A best cost that was sent is not below the one that the master has now.
abbrev pub IsFrom : ℤ → Option ℤ → Type 0
IsFrom now none = Unit
IsFrom now (some c) = now ≤ℤ c

module _ (cfg : Config) (api : SolverBackend) (Problem : Assignment → Type 0)
    (cost : Assignment → ℤ) (laws : Laws api Problem cost)
    (finds : Finds api Problem cost laws.Allows) where
  open laws use {Allows}

  -- The cube `t` was sent with constraints, a best cost and a lower bound.
  pub record IsSent (k : ℕ) (m : Master) (t : CubeTask) (cs : List WConstraint) (best : Option ℤ)
      (lb : ℤ) : Type 0 where
    pub slot : k < length m.slots
    pub index : ℕ
    pub depth : ℕ
    pub at : get_or m.slots k idle ≡ busy index depth
    pub task : get_elem? m.cubes index ≡ some t
    pub implied : (σ : Assignment) → Problem σ → All (Satisfies σ) cs
    pub bounded : cfg.optimizing ≡ true → (σ : Assignment) → Problem σ → lb ≤ℤ cost σ
    pub known : IsFrom m.incumbent.best_cost best

  module _ (k : ℕ) (m : Master) (t : CubeTask) (cs : List WConstraint) (best : Option ℤ) (lb : ℤ)
      (split_requested : Bool) (s : api.Solver) (sent : IsSent k m t cs best lb)
      (fresh : (σ : Assignment) → Problem σ → Allows s σ) where
    abbrev pub solved : CubeSolveResult
    solved = solve_cube api cfg.optimizing t.lits cs best lb split_requested s
