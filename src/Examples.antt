-- ===== src/Examples.antt =====
-- The theorems on constraints at concrete inputs.
use cube_conquer_pb.Base.{
  ◌≡◌, refl, here, there, ◌↔◌, Bool, true, false, List, [], ◌∷◌, arith, All, Ordered, none, some,
  pos, negsuc, ◌+ℤ◌, ◌-ℤ◌, ◌*ℤ◌, gcd, ◌≤ℤ◌, leb, ◌==◌, ◌⊎◌,
}
use cube_conquer_pb.Constraint.{Lit, plus, minus, var, WConstraint}
use cube_conquer_pb.Constraint.Semantics.{Assignment, Satisfies, IsPositive}
use cube_conquer_pb.Constraint.Normal.{CoefGe, normalize, normalize_lem}
use cube_conquer_pb.Constraint.Simplify.{SomeLit, simplify, simplify-Satisfies, simplify-eq-none}
use cube_conquer_pb.Constraint.Lookup.{get_coefficient_binary_search}
use cube_conquer_pb.Constraint.Cut.{apply_cut, apply_cut_with, merge, limit, undefined}
use cube_conquer_pb.Constraint.Cut.Sound.{apply_cut-Satisfies}
use cube_conquer_pb.Constraint.Cut.Range.{k_of, apply_cut-fits}
use cube_conquer_pb.Problem.{
  LinearTerm, PbProblem, build_linear_geq_parts, clause_constraint, write_pb, post_constraint,
  add_linear_constraint_to_solver, add_objective_bound_constraint,
}
use cube_conquer_pb.Problem.Linear.{LinearHolds, PartsAgree, build_linear_geq_parts-PartsAgree}
use cube_conquer_pb.Problem.Clauses.{
  ClauseHolds, unit_terms, clause_constraint-Satisfies, build_linear_geq_parts-write_pb,
}
use cube_conquer_pb.Problem.Post.{
  Posts, Improves, post_constraint-Satisfies, post_constraint-tautology,
  add_linear_constraint_to_solver-Posts, add_objective_bound_constraint-Posts,
}
use cube_conquer_pb.Constraint.Returns.{IsClauseOf, fix_rounding_problem_sat-returns}
use cube_conquer_pb.Constraint.Rounding.{coeff_of_var, fix_rounding_problem_sat}

abbrev all_true : Assignment
all_true v = true

-- x1 + 2 x1 + 3 ~x2 + x3 >= 3
abbrev repeated : WConstraint
repeated = record { lhs = (1, plus 1) ∷ (2, plus 1) ∷ (3, minus 2) ∷ (1, plus 3) ∷ []; rhs = pos 3 }

-- 2 x1 + 2 x2 + 5 ~x3 >= 4
abbrev distinct : WConstraint
distinct = record { lhs = (2, plus 1) ∷ (2, plus 2) ∷ (5, minus 3) ∷ []; rhs = pos 4 }

-- 2 x1 + 2 ~x1 + x2 >= 1, whose normal form is x2 >= -1
abbrev tautology : WConstraint
tautology = record { lhs = (2, plus 1) ∷ (2, minus 1) ∷ (1, plus 2) ∷ []; rhs = pos 1 }

normalize_lem_example :
    ((σ : Assignment) → Satisfies σ (normalize repeated) ↔ Satisfies σ repeated)
    × All IsPositive (normalize repeated).lhs
    × Ordered CoefGe (normalize repeated).lhs
normalize_lem_example = normalize_lem repeated

simplify-Satisfies_example :
    (d : WConstraint) × (simplify distinct ≡ some d)
    × ((σ : Assignment) → Satisfies σ d ↔ Satisfies σ distinct)
simplify-Satisfies_example =
    simplify-Satisfies distinct 4 (λ e. cc) refl (omega arith) (ground arith)

simplify-eq-none_example : simplify (record { lhs = (1, plus 1) ∷ []; rhs = pos 0 }) ≡ none
simplify-eq-none_example = simplify-eq-none (record { lhs = (1, plus 1) ∷ []; rhs = pos 0 }) refl

-- 2 x1 + ~x2 + 3 x3 >= 3
abbrev other : WConstraint
other = record { lhs = (2, plus 1) ∷ (1, minus 2) ∷ (3, plus 3) ∷ []; rhs = pos 3 }

-- 16 x1 + x2 >= 7, shaved to the constant.
abbrev cut_of_both : WConstraint
cut_of_both = record { lhs = (7, plus 1) ∷ (1, plus 2) ∷ []; rhs = pos 7 }

apply_cut-Satisfies_example : Satisfies all_true cut_of_both
unfolding apply_cut get_coefficient_binary_search
apply_cut-Satisfies_example =
    apply_cut-Satisfies all_true 3 distinct other cut_of_both (ground arith) (ground arith)
      (omega arith) (omega arith) refl (omega arith) (omega arith)

-- 2 x1 + 2 x2 + 4 ~x3 >= 4
abbrev shaved : WConstraint
shaved = record { lhs = (2, plus 1) ∷ (2, plus 2) ∷ (4, minus 3) ∷ []; rhs = pos 4 }

apply_cut-fits_example :
    apply_cut 3 shaved other
    ≡ apply_cut_with 3 (k_of 3 shaved other) (k_of 3 other shaved) shaved other
unfolding get_coefficient_binary_search merge gcd limit ◌*ℤ◌
apply_cut-fits_example =
    apply_cut-fits 3 4 3 shaved other
      (record {
        constant = refl;
        positive = omega arith;
        small = omega arith;
        shaved = (omega arith, (omega arith, (omega arith, tt)));
      })
      (record {
        constant = refl;
        positive = omega arith;
        small = omega arith;
        shaved = (omega arith, (omega arith, (omega arith, tt)));
      })
      (omega arith) (omega arith) (omega arith)

-- Two saturated constraints, the product of their constants below 2^30: the int of the loops falls below
-- its range with the third variable that cancels.
abbrev falling : WConstraint
falling = record { lhs = (30000, plus 1) ∷ (29999, plus 2) ∷ (29998, plus 3) ∷ []; rhs = pos 30000 }

abbrev falling_too : WConstraint
falling_too = record {
  lhs = (29999, minus 1) ∷ (30000, minus 2) ∷ (29998, minus 3) ∷ [];
  rhs = pos 30000;
}

falling_out : (apply_cut 1 falling falling_too).1 ≡ undefined
unfolding apply_cut
falling_out = refl

-- 2 x1 + 3 x2 + 4 x3 >= 5 with x1 and x2 false propagates x3.
abbrev propagating : WConstraint
propagating = record { lhs = (2, plus 1) ∷ (3, plus 2) ∷ (4, plus 3) ∷ []; rhs = pos 5 }

abbrev first_two_false : Lit → Bool
first_two_false l = leb (var l) 2

fix_rounding_problem_sat-returns_example :
    (d : WConstraint) × (fix_rounding_problem_sat first_two_false (plus 3) propagating ≡ some d)
    × IsClauseOf first_two_false 3 propagating d
    × ((σ : Assignment) → Satisfies σ propagating → Satisfies σ d)
unfolding coeff_of_var
fix_rounding_problem_sat-returns_example =
    fix_rounding_problem_sat-returns first_two_false (plus 3) propagating 5 (ground arith)
      (there (there (here refl))) refl (ground arith)

-- 3 x1 - 2 x2
abbrev three_minus_two : List LinearTerm
three_minus_two = (pos 3, 1) ∷ (negsuc 1, 2) ∷ []

abbrev minimise : PbProblem
minimise = record { constraints = []; minimizing = true; objective = three_minus_two }

build_linear_geq_parts-PartsAgree_example :
    PartsAgree three_minus_two (pos 2) false (build_linear_geq_parts three_minus_two (pos 2) false)
build_linear_geq_parts-PartsAgree_example =
    build_linear_geq_parts-PartsAgree three_minus_two (pos 2) false

clause_constraint-Satisfies_example :
    Satisfies all_true (clause_constraint (plus 1 ∷ minus 2 ∷ plus 1 ∷ []))
    ↔ ClauseHolds all_true (plus 1 ∷ minus 2 ∷ plus 1 ∷ [])
clause_constraint-Satisfies_example =
    clause_constraint-Satisfies all_true (plus 1 ∷ minus 2 ∷ plus 1 ∷ [])

build_linear_geq_parts-write_pb_example :
    build_linear_geq_parts
      (write_pb (plus 1 ∷ minus 2 ∷ [])).0
      (write_pb (plus 1 ∷ minus 2 ∷ [])).1
      true
    ≡ some (record { terms = unit_terms (plus 1 ∷ minus 2 ∷ []); rhs = pos 1 })
build_linear_geq_parts-write_pb_example = build_linear_geq_parts-write_pb (plus 1 ∷ minus 2 ∷ [])

post_constraint-Satisfies_example :
    (d : WConstraint) × (post_constraint repeated ≡ some d)
    × ((σ : Assignment) → Satisfies σ d ↔ Satisfies σ repeated)
unfolding normalize ◌-ℤ◌
post_constraint-Satisfies_example =
    post_constraint-Satisfies repeated 3 (λ e. cc) refl (omega arith)

post_constraint-tautology_example :
    ((σ : Assignment) → Satisfies σ tautology)
    × (((normalize tautology).rhs ≡ pos 0) × (post_constraint tautology ≡ none)
        ⊎ (normalize tautology).rhs ≤ℤ negsuc 0
          × ((d : WConstraint) × (post_constraint tautology ≡ some d)
              × ((σ : Assignment) → Satisfies σ d ↔ SomeLit σ (normalize tautology).lhs)))
unfolding normalize ◌-ℤ◌
post_constraint-tautology_example = post_constraint-tautology tautology (omega arith)

-- x2 >= 1 is stored.
tautology-stored : post_constraint tautology ≡ some (record { lhs = (1, plus 2) ∷ []; rhs = pos 1 })
unfolding post_constraint ◌-ℤ◌
tautology-stored = refl

abbrev only_first : Assignment
only_first v = v == 1

add_linear_constraint_to_solver-Posts_example :
    Posts
      (add_linear_constraint_to_solver three_minus_two (pos 2) false)
      (λ σ. LinearHolds σ three_minus_two (pos 2) false)
unfolding ◌+ℤ◌
add_linear_constraint_to_solver-Posts_example =
    add_linear_constraint_to_solver-Posts three_minus_two (pos 2) false only_first
      (λ h. omega (arith, h))

add_objective_bound_constraint-Posts_example :
    Posts (add_objective_bound_constraint minimise (pos 2)) (Improves true three_minus_two (pos 2))
unfolding ◌+ℤ◌
add_objective_bound_constraint-Posts_example =
    add_objective_bound_constraint-Posts minimise (pos 2) only_first (λ e. cc)
      (λ h. omega (arith, h))
