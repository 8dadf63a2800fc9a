-- ===== src/Problem/Post.antt =====
-- The constraint that is stored for a linear constraint, and what happens to one that is always true.
use cube_conquer_pb.Base.{
  ℕ, zero, suc, ◌⊎◌, negsuc, ◌≡◌, ◌≢◌, ◌↔◌, Bool, true, false, List, [], ◌∷◌, none, some, ℤ, pos,
  ◌+ℤ◌, ◌-ℤ◌, ◌≤ℤ◌, +ℤ_parts, -ℤ_parts, arith, inl, inr, refl, Option-cases, ◌<◌,
}
use cube_conquer_pb.Constraint.{WConstraint}
use cube_conquer_pb.Constraint.Semantics.{Assignment, Satisfies}
use cube_conquer_pb.Constraint.Normal.{normalize, normalize_lem}
use cube_conquer_pb.Constraint.Simplify.{
  SomeLit, simplify-Satisfies, simplify-positive, simplify-negative, simplify-eq-none,
}
use cube_conquer_pb.Problem.{
  LinearTerm, PbProblem, build_linear_geq_parts, post_constraint, Posted, posted,
  add_linear_constraint_to_solver, objective_bound, add_objective_bound_constraint,
}
use cube_conquer_pb.Problem.Linear.{linear_value, LinearHolds, build_linear_geq_parts-PartsAgree}

-- A constraint whose normal form keeps a term and a constant of at least 1 is stored, with the same
-- meaning under every assignment.
pub post_constraint-Satisfies :
    (c : WConstraint) (r : ℕ)
    → (normalize c).lhs ≢ []
    → (normalize c).rhs ≡ pos r
    → 0 < r
    → (d : WConstraint) × (post_constraint c ≡ some d)
      × ((σ : Assignment) → Satisfies σ d ↔ Satisfies σ c)
unfolding post_constraint
post_constraint-Satisfies c r ne e h =
    let (same, positive, _) = normalize_lem c in
    let (d, f, g) = simplify-Satisfies (normalize c) r ne e h positive in
    (d, f, λ σ. (λ s. (same σ).0 ((g σ).0 s), λ s. (g σ).1 ((same σ).1 s)))

-- A constraint whose normal form has a constant of 0 or less holds under every assignment. Posting it
-- faults when the constant is 0; when it is negative, the constraint that is stored asks for one of
-- the literals of the normal form.
pub post_constraint-tautology :
    (c : WConstraint)
    → (normalize c).rhs ≤ℤ pos 0
    → ((σ : Assignment) → Satisfies σ c)
      × (((normalize c).rhs ≡ pos 0) × (post_constraint c ≡ none)
          ⊎ (normalize c).rhs ≤ℤ negsuc 0
            × ((d : WConstraint) × (post_constraint c ≡ some d)
                × ((σ : Assignment) → Satisfies σ d ↔ SomeLit σ (normalize c).lhs)))
unfolding post_constraint
post_constraint-tautology c h =
    let (same, _, _) = normalize_lem c in
    (
      λ σ. (same σ).0 (omega arith),
      elim (non_positive (normalize c).rhs h) [
        | inl e ↦ inl (e, simplify-eq-none (normalize c) e)
        | inr (n, e) ↦ inr (rw e (omega arith), simplify-negative (normalize c) n e)
      ],
    )
  where
    non_positive : (z : ℤ) → z ≤ℤ pos 0 → (z ≡ pos 0) ⊎ ((n : ℕ) × (z ≡ negsuc n))
    non_positive (pos zero) k = inl refl
    non_positive (pos (suc n)) k = absurd (omega arith)
    non_positive (negsuc n) k = inr (n, refl)

-- A constraint that some assignment violates is stored with its meaning.
post_constraint-violated :
    (c : WConstraint) (τ : Assignment)
    → ¬ Satisfies τ c
    → (d : WConstraint) × (post_constraint c ≡ some d)
      × ((σ : Assignment) → Satisfies σ d ↔ Satisfies σ c)
unfolding post_constraint
post_constraint-violated c τ v =
    let (same, positive, _) = normalize_lem c in
    let (r, e, h) = above (normalize c).rhs (λ k. v ((same τ).0 (omega (arith, k)))) in
    let (d, f, g) = simplify-positive (normalize c) r e h positive in
    (d, f, λ σ. (λ s. (same σ).0 ((g σ).0 s), λ s. (g σ).1 ((same σ).1 s)))
  where
    above : (z : ℤ) → ¬ (z ≤ℤ pos 0) → (r : ℕ) × (z ≡ pos r) × (0 < r)
    above (pos zero) k = absurd (k (omega arith))
    above (pos (suc n)) k = (suc n, refl, omega arith)
    above (negsuc n) k = absurd (k (omega arith))

-- A constraint is posted that holds exactly where `P` does.
abbrev pub Posts : Posted → (Assignment → Type 0) → Type 0
Posts r P = (d : WConstraint) × (r ≡ posted d) × ((σ : Assignment) → Satisfies σ d ↔ P σ)

-- A linear constraint, >= or <=, that some assignment violates is posted, as a constraint with exactly
-- its solutions.
pub add_linear_constraint_to_solver-Posts :
    (ts : List LinearTerm) (r : ℤ) (is_geq : Bool) (τ : Assignment)
    → ¬ LinearHolds τ ts r is_geq
    → Posts (add_linear_constraint_to_solver ts r is_geq) (λ σ. LinearHolds σ ts r is_geq)
unfolding add_linear_constraint_to_solver
add_linear_constraint_to_solver-Posts ts r g τ v =
    let agree = build_linear_geq_parts-PartsAgree ts r g in
    elim (Option-cases (build_linear_geq_parts ts r g)) [
      | inl e ↦ let all = rw e at agree in absurd (v (all τ))
      | inr (p, e) ↦
          let (_, _, same) = rw e at agree in
          let c : WConstraint = record { lhs = p.terms; rhs = p.rhs } in
          let (d, f, m) = post_constraint-violated c τ (λ s. v ((same τ).0 s)) in
          (
            d,
            rw (e, f, add_linear_constraint_to_solver) refl,
            λ σ. (λ s. (same σ).0 ((m σ).0 s), λ s. (m σ).1 ((same σ).1 s)),
          )
    ]

-- The value of the objective is strictly better than the incumbent.
abbrev pub Improves : Bool → List LinearTerm → ℤ → Assignment → Type 0
Improves true ts best σ = linear_value σ ts +ℤ pos 1 ≤ℤ best
Improves false ts best σ = best +ℤ pos 1 ≤ℤ linear_value σ ts

objective_bound-Posts :
    (minimizing : Bool) (ts : List LinearTerm) (best : ℤ) (τ : Assignment)
    → ts ≢ []
    → ¬ Improves minimizing ts best τ
    → Posts (objective_bound minimizing ts best) (Improves minimizing ts best)
unfolding objective_bound
objective_bound-Posts m [] best τ ne v = absurd (ne refl)
objective_bound-Posts true (t ∷ ts) best τ ne v =
    let parts = -ℤ_parts best (pos 1) in
    let more = λ (σ : Assignment). +ℤ_parts (linear_value σ (t ∷ ts)) (pos 1) in
    let (d, e, m) =
      add_linear_constraint_to_solver-Posts (t ∷ ts) (best -ℤ pos 1) false τ
        (λ k. v (omega (arith, parts, more τ, k))) in
    (
      d,
      e,
      λ σ. (
        (λ s. (let k = (m σ).0 s in omega (arith, parts, more σ, k))),
        λ s. (m σ).1 (omega (arith, parts, more σ, s)),
      ),
    )
objective_bound-Posts false (t ∷ ts) best τ ne v =
    add_linear_constraint_to_solver-Posts (t ∷ ts) (best +ℤ pos 1) true τ v

-- When there is an objective and some assignment, such as the incumbent, does not improve on the best
-- cost, the objective bound is posted, as a constraint that holds exactly for the assignments that
-- improve on it.
pub add_objective_bound_constraint-Posts :
    (p : PbProblem) (best : ℤ) (τ : Assignment)
    → p.objective ≢ []
    → ¬ Improves p.minimizing p.objective best τ
    → Posts (add_objective_bound_constraint p best) (Improves p.minimizing p.objective best)
unfolding add_objective_bound_constraint
add_objective_bound_constraint-Posts p best τ ne v =
    objective_bound-Posts p.minimizing p.objective best τ ne v
