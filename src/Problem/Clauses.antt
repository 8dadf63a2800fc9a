-- ===== src/Problem/Clauses.antt =====
-- Clauses as constraints, and the text form of src/CnfToOpb.cc read back.
use cube_conquer_pb.Base.{
  ℕ, ◌+◌, ◌≡◌, ◌↔◌, true, false, List, [], ◌∷◌, map, some, ℤ, pos, ◌+ℤ◌, ◌-ℤ◌, arith, inl, inr,
  Bool-cases, ◌≤◌, Any, here, there,
}
use cube_conquer_pb.Constraint.{Lit, plus, minus, Term, WConstraint}
use cube_conquer_pb.Constraint.Semantics.{Assignment, holds, lhs_value, Satisfies}
use cube_conquer_pb.Constraint.Normal.{normalize_lem}
use cube_conquer_pb.Problem.{
  geq_loop, build_linear_geq_parts, clause_constraint, write_pb, write_pb_terms, write_pb_count,
}

abbrev pub unit_terms : List Lit → List Term
unit_terms = map (λ l. (1, l))

-- An assignment makes a literal of the clause true.
abbrev pub ClauseHolds : Assignment → List Lit → Type 0
ClauseHolds σ ls = Any (λ l. holds σ l ≡ true) ls

unit_terms-value :
    (σ : Assignment) (ls : List Lit) → (1 ≤ lhs_value σ (unit_terms ls)) ↔ ClauseHolds σ ls
unit_terms-value σ [] = (λ h. absurd (omega arith), λ h. elim h [ ])
unit_terms-value σ (l ∷ ls) = elim (Bool-cases (holds σ l)) [
  | inl e ↦ (λ h. here e, λ h. rw e (omega arith))
  | inr e ↦ (
    λ h. there (
        (unit_terms-value σ ls).0
          (let h' : 1 ≤ 0 + lhs_value σ (unit_terms ls) = rw e at h in omega arith)),
    λ h. rw e (later σ l ls e h (unit_terms-value σ ls).1),
  )
]
  where
    later :
        (σ : Assignment) (l : Lit) (ls : List Lit)
        → holds σ l ≡ false
        → ClauseHolds σ (l ∷ ls)
        → (ClauseHolds σ ls → 1 ≤ lhs_value σ (unit_terms ls))
        → 1 ≤ 0 + lhs_value σ (unit_terms ls)
    later σ l ls e (here h) f = cc
    later σ l ls e (there h) f = omega (arith, f h)

-- The constraint of a clause holds exactly where a literal of the clause is true, for every clause:
-- repeated and complementary literals included.
pub clause_constraint-Satisfies :
    (σ : Assignment) (clause : List Lit)
    → Satisfies σ (clause_constraint clause) ↔ ClauseHolds σ clause
unfolding clause_constraint
clause_constraint-Satisfies σ clause =
    let c : WConstraint = record { lhs = unit_terms clause; rhs = pos 1 } in
    let (same, _, _) = normalize_lem c in
    let u = unit_terms-value σ clause in
    (λ h. u.0 (omega (arith, (same σ).0 h)), λ h. (same σ).1 (omega (arith, u.1 h)))

add_zero : (r : ℤ) → r +ℤ pos 0 ≡ r
unfolding ◌+ℤ◌
add_zero r = ground arith

add_one : (r : ℤ) (n : ℕ) → r +ℤ pos 1 +ℤ pos n ≡ r +ℤ pos (n + 1)
unfolding ◌+ℤ◌
add_one r n = ground arith

sub_add : (n : ℕ) → pos 1 -ℤ pos n +ℤ pos n ≡ pos 1
unfolding ◌+ℤ◌ ◌-ℤ◌
sub_add n = ground arith

write_pb-geq_loop :
    (r : ℤ) (ls : List Lit)
    → geq_loop true r (write_pb_terms ls)
      ≡ record { terms = unit_terms ls; rhs = r +ℤ pos (write_pb_count ls) }
unfolding geq_loop write_pb_terms write_pb_count
write_pb-geq_loop r [] = ground (arith, add_zero r)
write_pb-geq_loop r (plus v ∷ ls) = ground (arith, write_pb-geq_loop r ls)
write_pb-geq_loop r (minus v ∷ ls) =
    ground (arith, write_pb-geq_loop (r +ℤ pos 1) ls, add_one r (write_pb_count ls))

-- `build_linear_geq_parts` on the terms and the bound that `writePB` prints for a clause gives each of
-- its literals with the coefficient 1, in order, and the constant 1.
pub build_linear_geq_parts-write_pb :
    (ls : List Lit)
    → build_linear_geq_parts (write_pb ls).0 (write_pb ls).1 true
      ≡ some (record { terms = unit_terms ls; rhs = pos 1 })
unfolding build_linear_geq_parts write_pb
build_linear_geq_parts-write_pb ls =
    ground
      (arith, write_pb-geq_loop (pos 1 -ℤ pos (write_pb_count ls)) ls, sub_add (write_pb_count ls))
