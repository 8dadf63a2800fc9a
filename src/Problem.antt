-- ===== src/Problem.antt =====
-- From the input to constraints: `PBProblem::addConstraint` (src/Parser.cpp), the linear constraints and
-- clauses of src/cubePB.cpp, and the clause writer of src/CnfToOpb.cc.
--
-- The parallel vectors `coeffs` and `varNums` are one list of pairs.
pub mod Linear
pub mod Clauses
pub mod Post
use cube_conquer_pb.Base.{
  ℕ, ◌+◌, ◌≡◌, Bool, true, false, not, List, [], ◌∷◌, ◌++◌, map, if◌then◌else◌, ltb, ◌==◌, Option,
  none, some, ℤ, pos, negsuc, ◌+ℤ◌, ◌-ℤ◌, pos_part, neg_part, sort_by,
}
use cube_conquer_pb.Constraint.{Lit, plus, minus, neg, Term, WConstraint}
use cube_conquer_pb.Constraint.Normal.{normalize}
use cube_conquer_pb.Constraint.Simplify.{simplify}

-- coeffs[i] with varNums[i]
abbrev pub LinearTerm : Type 0
LinearTerm = ℤ × ℕ

-- abs of an int
abbrev pub abs : ℤ → ℕ
abs a = pos_part a + neg_part a

abbrev pub is_negative : ℤ → Bool
is_negative (pos n) = false
is_negative (negsuc n) = true

abbrev pub negate : ℤ → ℤ
negate a = pos 0 -ℤ a

-- The vectors `coefficients` and `literals`, and `rhs`, as the loop leaves them.
pub record GeqParts : Type 0 where
  pub terms : List Term
  pub rhs : ℤ

-- One round of the loop: `lit = -lit` and `rhs += finalCoef` for a negative coefficient, and no term
-- for the coefficient 0.
unfoldable pub geq_loop : Bool → ℤ → List LinearTerm → GeqParts
unfolding ◌+ℤ◌ ◌-ℤ◌
geq_loop is_geq r [] = record { terms = []; rhs = r }
geq_loop is_geq r ((a, v) ∷ ts) =
    let coef = if is_geq then a else negate a in
    let final_coef = abs coef in
    let rest = geq_loop is_geq (if is_negative coef then r +ℤ pos final_coef else r) ts in
    if final_coef == 0 then rest else record rest {
      terms = (final_coef, if is_negative coef then minus v else plus v) ∷ rest.terms;
    }

-- build_linear_geq_parts: `none` is the result `false`, for a constraint that is trivially true.
unfoldable pub build_linear_geq_parts : List LinearTerm → ℤ → Bool → Option GeqParts
unfolding geq_loop
build_linear_geq_parts ts r is_geq =
    let p = geq_loop is_geq (if is_geq then r else negate r) ts in
    elim p.rhs [ negsuc _ ↦ none | pos n ↦ if n == 0 then none else some p ]

pub record PbProblem : Type 0 where
  pub constraints : List WConstraint
  pub minimizing : Bool
  pub objective : List LinearTerm

-- PBProblem::addConstraint
unfoldable pub add_constraint : List LinearTerm → ℤ → Bool → PbProblem → PbProblem
unfolding build_linear_geq_parts
add_constraint ts r is_geq p = elim (build_linear_geq_parts ts r is_geq) [
  | none ↦ p
  | some g ↦ record p { constraints = p.constraints ++ record { lhs = g.terms; rhs = g.rhs } ∷ [] }
]

-- One clause of cnf_to_pb_problem.
unfoldable pub clause_constraint : List Lit → WConstraint
unfolding normalize
clause_constraint clause = normalize (record { lhs = map (λ l. (1, l)) clause; rhs = pos 1 })

unfoldable pub cnf_to_pb_problem : List (List Lit) → PbProblem
unfolding clause_constraint
cnf_to_pb_problem clauses = record {
  constraints = map clause_constraint clauses;
  minimizing = true;
  objective = [];
}

-- NativeBackend::addConstraint up to the constraint that `addAndPropagatePBConstraint` stores; `none`
-- is the division by zero of `simplify`.
unfoldable pub post_constraint : WConstraint → Option WConstraint
unfolding normalize simplify
post_constraint c = simplify (normalize c)

-- add_linear_constraint_to_solver: nothing to add, a fault, or the constraint that is stored.
pub data Posted : Type 0 where
  skipped : Posted
  faulted : Posted
  posted : WConstraint → Posted

abbrev pub posted_of : Option WConstraint → Posted
posted_of none = faulted
posted_of (some c) = posted c

unfoldable pub add_linear_constraint_to_solver : List LinearTerm → ℤ → Bool → Posted
unfolding build_linear_geq_parts post_constraint
add_linear_constraint_to_solver ts r is_geq = elim (build_linear_geq_parts ts r is_geq) [
  | none ↦ skipped
  | some g ↦ posted_of (post_constraint (record { lhs = g.terms; rhs = g.rhs }))
]

-- add_objective_bound_constraint: obj <= best - 1 to minimise, obj >= best + 1 to maximise.
unfoldable pub objective_bound : Bool → List LinearTerm → ℤ → Posted
unfolding add_linear_constraint_to_solver ◌+ℤ◌ ◌-ℤ◌
objective_bound minimizing [] best = skipped
objective_bound true (t ∷ ts) best = add_linear_constraint_to_solver (t ∷ ts) (best -ℤ pos 1) false
objective_bound false (t ∷ ts) best = add_linear_constraint_to_solver (t ∷ ts) (best +ℤ pos 1) true

unfoldable pub add_objective_bound_constraint : PbProblem → ℤ → Posted
unfolding objective_bound
add_objective_bound_constraint p best = objective_bound p.minimizing p.objective best

-- One line of writePB (src/CnfToOpb.cc): +1 or -1 for each literal, and the bound 1 - count.
unfoldable pub write_pb_count : List Lit → ℕ
write_pb_count [] = 0
write_pb_count (plus v ∷ ls) = write_pb_count ls
write_pb_count (minus v ∷ ls) = write_pb_count ls + 1

unfoldable pub write_pb_terms : List Lit → List LinearTerm
write_pb_terms [] = []
write_pb_terms (plus v ∷ ls) = (pos 1, v) ∷ write_pb_terms ls
write_pb_terms (minus v ∷ ls) = (negsuc 0, v) ∷ write_pb_terms ls

unfoldable pub write_pb : List Lit → List LinearTerm × ℤ
unfolding write_pb_terms write_pb_count ◌-ℤ◌
write_pb ls = (write_pb_terms ls, pos 1 -ℤ pos (write_pb_count ls))
