-- ===== src/ConstraintValue.antt =====
-- The value of a constraint or a clause under the trail (src/ConstraintValue.cpp).
--
-- A clause is its list of literals. The long long sums are integers without a bound.
pub mod Slack
pub mod Entailed
pub mod Tests
use cube_conquer_pb.Base.{
  ℕ, suc, ◌+◌, ◌-◌, Bool, true, false, not, ◌&&◌, ◌||◌, List, [], ◌∷◌, if◌then◌else◌, ltb, ◌==◌, ℤ,
  pos, ◌+ℤ◌, ◌-ℤ◌, ltb_ℤ, Option, none, some, get_elem?,
}
use cube_conquer_pb.Constraint.{Lit, Term, WConstraint}
use cube_conquer_pb.Trail.{
  Model, is_true_lit, is_false_lit, is_undef_lit, is_lit_propagated, get_dl_of_lit,
}

-- for (i …) if (keep(lit)) sum += coef
unfoldable pub add_where : (Lit → Bool) → List Term → ℤ → ℤ
add_where keep [] sum = sum
add_where keep (t ∷ ts) sum = add_where keep ts (if keep t.1 then sum +ℤ pos t.0 else sum)

-- getDLOfLit(lit) > 0
abbrev pub is_above_zero : Option ℕ → Bool
is_above_zero none = false
is_above_zero (some d) = ltb 0 d

unfoldable pub constraint_is_contradiction : WConstraint → Model → Bool
unfolding add_where
constraint_is_contradiction c m =
    ltb_ℤ
      (add_where (λ l. not (is_false_lit l m) || is_above_zero (get_dl_of_lit l m)) c.lhs (pos 0))
      c.rhs

-- for (int i = 0; minSum < 0 && i < c.getSize(); ++i)
unfoldable pub add_true : List Term → Model → ℤ → ℤ
add_true [] m sum = sum
add_true (t ∷ ts) m sum =
    let rest = add_true ts m (if is_true_lit t.1 m then sum +ℤ pos t.0 else sum) in
    if ltb_ℤ sum (pos 0) then rest else sum

unfoldable pub constraint_is_true : WConstraint → Model → Bool
unfolding add_true
constraint_is_true c m = not (ltb_ℤ (add_true c.lhs m (pos 0 -ℤ c.rhs)) (pos 0))

unfoldable pub slack : WConstraint → Model → ℤ
unfolding add_where
slack c m = add_where (λ l. not (is_false_lit l m)) c.lhs (pos 0 -ℤ c.rhs)

unfoldable pub constraint_is_false : WConstraint → Model → Bool
unfolding slack
constraint_is_false c m = ltb_ℤ (slack c m) (pos 0)

-- not isFalseLit(lit) or not isLitPropagated(lit)
unfoldable pub is_counted : Model → Lit → Bool
is_counted m l = not (is_false_lit l m) || not (is_lit_propagated l m)

unfoldable pub max_sum_of_constraint_minus_rhs_propagated : WConstraint → Model → ℤ
unfolding add_where is_counted
max_sum_of_constraint_minus_rhs_propagated c m = add_where (is_counted m) c.lhs (pos 0 -ℤ c.rhs)

unfoldable pub clause_is_false : List Lit → Model → Bool
clause_is_false [] m = true
clause_is_false (l ∷ ls) m = if not (is_false_lit l m) then false else clause_is_false ls m

unfoldable pub clause_is_true : List Lit → Model → Bool
clause_is_true [] m = false
clause_is_true (l ∷ ls) m = if is_true_lit l m then true else clause_is_true ls m

-- `none` where the clause has no such literal.
unfoldable pub clause_has_two_unassigned_watches : List Lit → Model → Option Bool
clause_has_two_unassigned_watches ls m = elim (get_elem? ls 0) [
  | none ↦ none
  | some l0 ↦ elim (get_elem? ls 1) [
    | none ↦ none
    | some l1 ↦ some (is_undef_lit l0 m && is_undef_lit l1 m)
  ]
]

-- The loop of `clausePropagates` with the number of unassigned literals.
unfoldable pub count_unassigned : List Lit → Model → ℕ → Bool
count_unassigned [] m n = n == 1
count_unassigned (l ∷ ls) m n =
    let rest = count_unassigned ls m (if is_undef_lit l m then suc n else n) in
    if is_true_lit l m then false else rest

unfoldable pub clause_propagates : List Lit → Model → Bool
unfolding count_unassigned
clause_propagates ls m = count_unassigned ls m 0

-- The loop of `constraintIsConflictingOrPropagating` with `maxUndef` and `maxSum`.
unfoldable pub scan_undef : List Term → Model → ℕ → ℤ → Bool
scan_undef [] m max_undef max_sum = ltb_ℤ (max_sum -ℤ pos max_undef) (pos 0)
scan_undef (t ∷ ts) m max_undef max_sum =
    scan_undef ts m (if is_undef_lit t.1 m && ltb max_undef t.0 then t.0 else max_undef)
      (if not (is_false_lit t.1 m) then max_sum +ℤ pos t.0 else max_sum)

unfoldable pub constraint_is_conflicting_or_propagating : WConstraint → Model → Bool
unfolding scan_undef
constraint_is_conflicting_or_propagating c m = scan_undef c.lhs m 0 (pos 0 -ℤ c.rhs)
