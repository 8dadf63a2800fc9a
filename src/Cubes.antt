-- ===== src/Cubes.antt =====
-- Cube generation: `generate_cubes_rec`, `generate_cubes` and `split_cube` (src/cubePB.cpp).
--
-- The backend is the abstract class `ISolverBackend` (src/ISolverBackend.h), a record of its operations.
-- The globals `theta`, `cube_sat_found` and the arguments `solver` and `cubes` are the state `Gen`;
-- `current` is an argument, since every `push_back` on it is undone by a `pop_back`.
-- Floating point enters through `Heuristic`: `theta` and the objective bonus.
pub mod Laws
pub mod Probe
pub mod Branch
pub mod Node
pub mod Cover
pub mod Split
pub mod Subcubes
use cube_conquer_pb.Base.{
  ℕ, zero, suc, ◌+◌, ◌-◌, ◌*◌, ◌/◌, Bool, true, false, not, ◌&&◌, ◌||◌, List, [], ◌∷◌, ◌++◌, map,
  length, if◌then◌else◌, ltb, leb, ◌==◌, Option, none, some,
}
use cube_conquer_pb.Constraint.{Lit, plus, minus, neg}

pub record Backend : Type 1 where
  pub State : Type 0
  pub assigned_vars : State → ℕ
  pub is_undef_lit : State → Lit → Bool
  pub assume_and_propagate : Lit → State → Bool × State
  pub backtrack : ℕ → State → State

pub record Heuristic : Type 1 where
  pub Theta : Type 0
  -- 1000.0, theta *= 1.05 and theta *= 0.7
  pub initial : Theta
  pub grow : Theta → Theta
  pub shrink : Theta → Theta
  -- numDec * assigned > theta * nVars
  pub exceeds : ℕ → Theta → ℕ → Bool
  -- (eval_pos + eval_neg) * 20.0 * pct
  pub bonus : ℕ → ℕ → ℕ
  pub use_objective_priority : Bool
  pub is_objective_var : ℕ → Bool
  pub total_objective_weight : ℕ

-- The arguments that no call changes.
pub record Params : Type 0 where
  pub vars : List ℕ
  pub n_vars : ℕ
  pub distributed_split : Bool
  pub optimizing : Bool

abbrev pub max_cube_generation_depth : ℕ
max_cube_generation_depth = 11

abbrev pub objective_priority_depth : ℕ
objective_priority_depth = 8

-- bestVar with bestScore, bestTie, bestEvalPos and bestEvalNeg; `none` stands for bestVar == 0.
pub record Best : Type 0 where
  pub var : ℕ
  pub score : ℕ
  pub tie : ℕ
  pub eval_pos : ℕ
  pub eval_neg : ℕ

module _ (b : Backend) (h : Heuristic) (p : Params) where
  open b use {State, assigned_vars, is_undef_lit, assume_and_propagate, backtrack}
  open h use {Theta, grow, shrink, exceeds}

  -- The end of the `for` loop over the variables.
  pub data Lookahead : Type 0 where
    refuted : State → Lookahead
    failed_literal : State → Lookahead
    ranked : Option Best → State → Lookahead

  unfoldable pub score_of : ℕ → ℕ → ℕ → ℕ → ℕ
  score_of num_dec v eval_pos eval_neg =
      if h.use_objective_priority
        && (ltb num_dec objective_priority_depth
            && (h.is_objective_var v && ltb 0 h.total_objective_weight))
      then eval_pos * eval_neg + h.bonus v (eval_pos + eval_neg)
      else eval_pos * eval_neg

  -- if (score > bestScore || (score == bestScore && tie > bestTie))
  unfoldable pub better : Option Best → Best → Option Best
  better none new = some new
  better (some old) new =
      if ltb old.score new.score || (old.score == new.score && ltb old.tie new.tie)
      then some new
      else some old

  -- eval_pos or eval_neg: the assignments that the literal brought, or a large value on a conflict.
  unfoldable pub eval_of : ℕ → Bool × State → ℕ
  eval_of base (ok, s) = if ok then assigned_vars s - base else p.n_vars + 10

  unfoldable pub look_ahead : ℕ → ℕ → List ℕ → Option Best → State → Lookahead
  unfolding eval_of score_of better
  look_ahead num_dec base [] best s = ranked best s
  look_ahead num_dec base (v ∷ vs) best s =
      let pos_try = assume_and_propagate (plus v) s in
      let neg_try = assume_and_propagate (minus v) (backtrack 1 pos_try.1) in
      let s' = backtrack 1 neg_try.1 in
      let eval_pos = eval_of base pos_try in
      let eval_neg = eval_of base neg_try in
      let new : Best = record {
        var = v;
        score = score_of num_dec v eval_pos eval_neg;
        tie = eval_pos + eval_neg;
        eval_pos = eval_pos;
        eval_neg = eval_neg;
      } in
      let skip = look_ahead num_dec base vs best s in
      let go_on = look_ahead num_dec base vs (better best new) s' in
      if not (is_undef_lit s (plus v))
      then skip
      else if not pos_try.0 && not neg_try.0
      then refuted s'
      else if not pos_try.0 || not neg_try.0
      then failed_literal (assume_and_propagate (if pos_try.0 then plus v else minus v) s').1
      else go_on

  -- while (failedLitFound): what the loop leaves, with the count of failed literals.
  pub data Probed : Type 0 where
    dead : State → Probed
    ready : Option Best → ℕ → State → Probed
    out_of_fuel : Probed

  -- Every failed literal assigns a variable of `vars`, so their number bounds the rounds.
  unfoldable pub probe : ℕ → ℕ → ℕ → State → Probed
  unfolding look_ahead
  probe zero num_dec failed_lits s = out_of_fuel
  probe (suc fuel) num_dec failed_lits s =
      elim (look_ahead num_dec (assigned_vars s) p.vars none s) [
        | refuted s' ↦ dead (backtrack failed_lits s')
        | failed_literal s' ↦ probe fuel num_dec (failed_lits + 1) s'
        | ranked best s' ↦ ready best failed_lits s'
      ]

  pub record Gen : Type 0 where
    pub solver : State
    pub theta : Theta
    pub cube_sat_found : Bool
    pub cubes : List (List Lit)

  unfoldable pub push_cube : List Lit → Gen → Gen
  push_cube current g = record g { cubes = g.cubes ++ current ∷ [] }

  -- Follow one branch: assume the literal, go on below it or lower the threshold, and come back.
  unfoldable pub explore : (List Lit → Gen → Option Gen) → List Lit → Lit → Gen → Option Gen
  explore below current l g =
      let try = assume_and_propagate l g.solver in
      let child =
        if try.0
        then below (current ++ l ∷ []) (record g { solver = try.1 })
        else some (record g { solver = try.1; theta = shrink g.theta }) in
      elim child [ none ↦ none | some g' ↦ some (record g' { solver = backtrack 1 g'.solver }) ]

  -- The direction heuristic: the literal that is explored first.
  unfoldable pub first_lit : Best → Lit
  first_lit best = if ltb best.eval_pos best.eval_neg then plus best.var else minus best.var

  -- Both branches of a node, the second unless the first one has found a solution.
  unfoldable pub explore_both : (List Lit → Gen → Option Gen) → List Lit → Best → Gen → Option Gen
  unfolding explore first_lit
  explore_both below current best g = elim (explore below current (first_lit best) g) [
    | none ↦ none
    | some g' ↦ elim (g'.cube_sat_found && not p.optimizing) [
      | true ↦ some g'
      | false ↦ explore below current (neg (first_lit best)) g'
    ]
  ]

  -- solver.backtrack(failedLits) at the end of a node.
  abbrev pub leave : ℕ → Option Gen → Option Gen
  leave failed_lits none = none
  leave failed_lits (some g) = some (record g { solver = backtrack failed_lits g.solver })

  -- Out of fuel is `none`. `elim` keeps a branch that is not taken from being computed.
  unfoldable pub generate_cubes_rec : ℕ → ℕ → ℕ → List Lit → Gen → Option Gen
  unfolding probe push_cube explore first_lit explore_both
  generate_cubes_rec zero wid nw current g = none
  generate_cubes_rec (suc fuel) wid nw current g =
      let num_dec = length current in
      let assigned = assigned_vars g.solver in
      let g1 : Gen = record g { theta = grow g.theta } in
      elim (g.cube_sat_found && not p.optimizing) [
        | true ↦ some g
        | false ↦ elim (leb max_cube_generation_depth num_dec) [
          | true ↦ some (
              if not p.distributed_split || ((nw == 1) || (wid == 0))
              then push_cube current g1
              else g1)
          | false ↦ elim (exceeds (num_dec * assigned) g1.theta p.n_vars) [
            | true ↦ some (push_cube current g1)
            | false ↦ elim (probe (suc (length p.vars)) num_dec 0 g.solver) [
              | out_of_fuel ↦ none
              | dead s ↦ some (record g1 { solver = s })
              | ready none failed_lits s ↦ leave failed_lits (
                  some (
                    if p.optimizing
                    then push_cube current (record g1 { solver = s })
                    else record g1 { solver = s; cube_sat_found = true }))
              | ready (some best) failed_lits s ↦
                  let g2 : Gen = record g1 { solver = s } in
                  let left_workers = nw / 2 in
                  elim (p.distributed_split && ltb 1 nw) [
                    | true ↦ leave failed_lits (elim (ltb wid left_workers) [
                      | true ↦
                          explore (generate_cubes_rec fuel wid left_workers) current
                            (first_lit best) g2
                      | false ↦
                          explore (generate_cubes_rec fuel (wid - left_workers) (nw - left_workers))
                            current (neg (first_lit best)) g2
                    ])
                    | false ↦
                        leave failed_lits
                          (explore_both (generate_cubes_rec fuel wid nw) current best g2)
                  ]
            ]
          ]
        ]
      ]

  -- One more than the depth of the hard cap is enough fuel.
  unfoldable pub generate_cubes : ℕ → ℕ → State → Option Gen
  unfolding generate_cubes_rec
  generate_cubes wid nw s =
      let g : Gen = record { solver = s; theta = h.initial; cube_sat_found = false; cubes = [] } in
      generate_cubes_rec (suc max_cube_generation_depth) wid nw [] g

  -- split_cube, from the solver that holds the problem and the cube: the cubes below `cube`, and the flag
  -- that the caller reads.
  unfoldable pub split_cube : List Lit → State → Option (List (List Lit) × Bool)
  unfolding generate_cubes
  split_cube cube s = elim (generate_cubes 0 1 s) [
    | none ↦ none
    | some g ↦ some (map (λ sub. cube ++ sub) g.cubes, g.cube_sat_found)
  ]
