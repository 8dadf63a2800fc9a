-- ===== src/Workers/Solve.antt =====
-- solve_cube (src/cubePB.cpp) over the interface of the solvers, and what the adapters make of an answer
-- (src/NativeBackend.cpp, src/RoundingSatBackend.cpp, src/CadicalBackend.cpp).
use cube_conquer_pb.Base.{
  ◌≡◌, Bool, true, List, if◌then◌else◌, Option, none, some, All, ℤ, ◌≤ℤ◌, ◌<ℤ◌, Bool-cases, inl,
  inr,
}
use cube_conquer_pb.Constraint.{Lit, WConstraint}
use cube_conquer_pb.Constraint.Semantics.{Assignment, Satisfies}
use cube_conquer_pb.Cubes.Laws.{AllHold}
use cube_conquer_pb.Incumbent.{Solution}
use cube_conquer_pb.Tasks.{int_eq, no_lower_bound}
use cube_conquer_pb.Workers.{infeasible, optimum_found, CubeSolveResult}

-- ISolverBackend, the part for solving.
pub record SolverBackend : Type 1 where
  pub Solver : Type 0
  pub add_base_problem : Solver → Solver
  pub add_learned_constraints : List WConstraint → Solver → Solver
  pub add_cube : List Lit → Solver → Solver
  pub add_objective : Solver → Solver
  pub add_objective_bound : ℤ → Solver → Solver
  pub add_objective_lower_bound : ℤ → Solver → Solver
  pub solve : Bool → Solver → CubeSolveResult × Solver
  pub good_clauses : Solver → List WConstraint
  pub get_solution : Solver → Solution

module _ (api : SolverBackend) where
  open api use {
    Solver, add_base_problem, add_learned_constraints, add_cube, add_objective, add_objective_bound,
    add_objective_lower_bound, solve, good_clauses, get_solution,
  }

  unfoldable pub with_objective : Option ℤ → ℤ → Solver → Solver
  with_objective best lower_bound s =
      let s1 = add_objective s in
      let s2 : Solver = elim best [ none ↦ s1 | some c ↦ add_objective_bound c s1 ] in
      if int_eq lower_bound no_lower_bound then s2 else add_objective_lower_bound lower_bound s2

  -- The solver of a cube, also that of split_cube.
  unfoldable pub prepare : Bool → List Lit → List WConstraint → Option ℤ → ℤ → Solver → Solver
  unfolding with_objective
  prepare optimizing cube learned best lower_bound s =
      let s1 = add_cube cube (add_learned_constraints learned (add_base_problem s)) in
      if optimizing then with_objective best lower_bound s1 else s1

  -- `split_requested` is what split_requested_flag says when the solver returns.
  unfoldable pub solve_cube :
      Bool → List Lit → List WConstraint → Option ℤ → ℤ → Bool → Solver → CubeSolveResult
  unfolding prepare
  solve_cube optimizing cube learned best lower_bound split_requested s =
      let (res, s') = solve optimizing (prepare optimizing cube learned best lower_bound s) in
      record res {
        learned_constraints = if split_requested then good_clauses s' else res.learned_constraints;
        solution = if res.has_solution then get_solution s' else res.solution;
      }

  -- What solve_cube relies on: nothing that is added excludes more than it says, and an answer of the
  -- solver is about what was added.
  pub record Laws (Problem : Assignment → Type 0) (cost : Assignment → ℤ) : Type 1 where
    pub Allows : Solver → Assignment → Type 0
    pub base :
        (s : Solver) (σ : Assignment) → Allows s σ → Problem σ → Allows (add_base_problem s) σ
    pub learned :
        (cs : List WConstraint) (s : Solver) (σ : Assignment)
        → Allows s σ
        → All (Satisfies σ) cs
        → Allows (add_learned_constraints cs s) σ
    pub cube :
        (ls : List Lit) (s : Solver) (σ : Assignment)
        → Allows s σ
        → AllHold σ ls
        → Allows (add_cube ls s) σ
    pub objective : (s : Solver) (σ : Assignment) → Allows s σ → Allows (add_objective s) σ
    pub bound :
        (c : ℤ) (s : Solver) (σ : Assignment)
        → Allows s σ
        → cost σ <ℤ c
        → Allows (add_objective_bound c s) σ
    pub lower :
        (c : ℤ) (s : Solver) (σ : Assignment)
        → Allows s σ
        → c ≤ℤ cost σ
        → Allows (add_objective_lower_bound c s) σ
    pub refutes :
        (b : Bool) (s : Solver) (σ : Assignment)
        → (solve b s).0.status ≡ infeasible
        → Allows s σ
        → ⊥
    pub optimal :
        (s : Solver) (σ : Assignment)
        → (solve true s).0.status ≡ optimum_found
        → Allows s σ
        → (solve true s).0.best_cost ≤ℤ cost σ

-- A cost below the best one, if one is known.
abbrev pub Improves : (Assignment → ℤ) → Option ℤ → Assignment → Type 0
Improves cost none σ = Unit
Improves cost (some c) σ = cost σ <ℤ c

module _ (api : SolverBackend) (Problem : Assignment → Type 0) (cost : Assignment → ℤ)
    (laws : Laws api Problem cost) where
  open laws use {Allows}

  with_objective-Allows :
      (best : Option ℤ) (lower_bound : ℤ) (s : api.Solver) (σ : Assignment)
      → Allows s σ
      → Improves cost best σ
      → lower_bound ≤ℤ cost σ
      → Allows (with_objective api best lower_bound s) σ
  unfolding with_objective
  with_objective-Allows none lower_bound s σ a i l =
      elim (Bool-cases (int_eq lower_bound no_lower_bound)) [
        | inl e ↦ rw (e, with_objective) (laws.objective s σ a)
        | inr e ↦
            rw (e, with_objective)
              (laws.lower lower_bound (api.add_objective s) σ (laws.objective s σ a) l)
      ]
  with_objective-Allows (some c) lower_bound s σ a i l =
      let b = laws.bound c (api.add_objective s) σ (laws.objective s σ a) i in
      elim (Bool-cases (int_eq lower_bound no_lower_bound)) [
        | inl e ↦ rw (e, with_objective) b
        | inr e ↦
            rw (e, with_objective)
              (laws.lower lower_bound (api.add_objective_bound c (api.add_objective s)) σ b l)
      ]

  pub prepare-Allows :
      (optimizing : Bool) (ls : List Lit) (cs : List WConstraint) (best : Option ℤ)
      (lower_bound : ℤ) (s : api.Solver) (σ : Assignment)
      → Allows s σ
      → Problem σ
      → All (Satisfies σ) cs
      → AllHold σ ls
      → (optimizing ≡ true → Improves cost best σ × (lower_bound ≤ℤ cost σ))
      → Allows (prepare api optimizing ls cs best lower_bound s) σ
  unfolding prepare
  prepare-Allows optimizing ls cs best lower_bound s σ a p c h o =
      let s1 = api.add_base_problem s in
      let s2 = api.add_learned_constraints cs s1 in
      let a3 = laws.cube ls s2 σ (laws.learned cs s1 σ (laws.base s σ a p) c) h in
      elim (Bool-cases optimizing) [
        | inr e ↦ rw (e, prepare) a3
        | inl e ↦
            let (i, l) = o e in
            rw (e, prepare) (with_objective-Allows best lower_bound (api.add_cube ls s2) σ a3 i l)
      ]

  -- With a solver that allows everything at first and obeys the laws: when solve_cube finds its cube
  -- infeasible, no model of the problem is in the cube that satisfies the learned constraints and, with an
  -- objective, improves on the best cost and costs at least the lower bound; and when it finds an optimum
  -- with an objective, each such model costs at least the best cost of the result.
  pub solve_cube-searches :
      (optimizing : Bool) (ls : List Lit) (cs : List WConstraint) (best : Option ℤ)
      (lower_bound : ℤ) (split_requested : Bool) (s : api.Solver) (σ : Assignment)
      → Allows s σ
      → Problem σ
      → All (Satisfies σ) cs
      → AllHold σ ls
      → (optimizing ≡ true → Improves cost best σ × (lower_bound ≤ℤ cost σ))
      → ((solve_cube api optimizing ls cs best lower_bound split_requested s).status ≡ infeasible
          → ⊥)
        × (optimizing ≡ true
            → (solve_cube api optimizing ls cs best lower_bound split_requested s).status
              ≡ optimum_found
            → (solve_cube api optimizing ls cs best lower_bound split_requested s).best_cost
              ≤ℤ cost σ)
  unfolding solve_cube
  solve_cube-searches optimizing ls cs best lower_bound split_requested s σ a p c h o =
      let s' = prepare api optimizing ls cs best lower_bound s in
      let allowed = prepare-Allows optimizing ls cs best lower_bound s σ a p c h o in
      (λ e. laws.refutes optimizing s' σ e allowed, λ q e. least q s' allowed e)
    where
      least :
          optimizing ≡ true
          → (t : api.Solver) → Allows t σ
          → (api.solve optimizing t).0.status ≡ optimum_found
          → (api.solve optimizing t).0.best_cost ≤ℤ cost σ
      least q t a e = rw q (laws.optimal t σ (rw q at e) a)
