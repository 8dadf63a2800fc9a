-- ===== src/ConstraintValue/Entailed.antt =====
-- The tests of src/ConstraintValue.cpp are exact: a constraint is false exactly when no assignment that
-- agrees with the trail satisfies it.
use cube_conquer_pb.Base.{
  ℕ, ◌≡◌, ◌≢◌, refl, sym, ◌∙◌, ap, Bool, true, false, not, List, [], ◌∷◌, if◌then◌else◌, ◌==◌, pos,
  ◌+ℤ◌, ◌-ℤ◌, ◌≤ℤ◌, ◌<ℤ◌, ltb_ℤ, total, Any, All, Ordered, Any-witness, Bool-cases, inl, inr, arith,
  ◌↔◌, int_laws, get_or,
}
use cube_conquer_pb.Constraint.{Lit, plus, minus, Term, WConstraint, var_of, is_positive}
use cube_conquer_pb.Constraint.Semantics.{Assignment, holds, weight, lhs_value, Satisfies}
use cube_conquer_pb.Trail.{
  Truth, Model, is_true, is_false, unassigned, is_true_lit, is_false_lit, value_of_lit,
}
use cube_conquer_pb.ConstraintValue.{slack, constraint_is_false}
use cube_conquer_pb.ConstraintValue.Slack.{
  Agrees, kept, not_false, not_false-Misses, slack-value, kept-entails, kept-refutes,
}

-- No variable occurs twice.
abbrev pub Apart : Term → Term → Type 0
Apart t u = var_of t ≢ var_of u

-- The sign with which the variable occurs.
abbrev wish : List Term → ℕ → Bool
wish [] v = false
wish (t ∷ ts) v = if var_of t == v then is_positive t.1 else wish ts v

abbrev decided : Truth → Bool → Bool
decided is_true b = true
decided is_false b = false
decided unassigned b = b

-- The trail, and each other variable as the constraint wants it.
abbrev best : Model → List Term → Assignment
best m ts v = decided (get_or m.truth_value_of_var v unassigned) (wish ts v)

best-Agrees : (m : Model) (ts : List Term) → Agrees m (best m ts)
unfolding is_true_lit value_of_lit
best-Agrees m ts (plus v) e = ground (arith, e)
best-Agrees m ts (minus v) e = ground (arith, e)

abbrev Wished : List Term → Term → Type 0
Wished ts t = wish ts (var_of t) ≡ is_positive t.1

wish-Wished : (ts : List Term) → Ordered Apart ts → All (Wished ts) ts
wish-Wished [] o = tt
wish-Wished (t ∷ ts) (apart, o) = (
  (let same : (var_of t == var_of t) ≡ true = ground arith in rw same refl),
  later ts apart (wish-Wished ts o),
)
  where
    later : (us : List Term) → All (Apart t) us → All (Wished ts) us → All (Wished (t ∷ ts)) us
    later [] a h = tt
    later (u ∷ us) (a, rest) (h, hs) = (
      (let other : (var_of t == var_of u) ≡ false = ground (arith, a) in rw other h),
      later us rest hs,
    )

kept-best :
    (m : Model) (ts : List Term) (t : Term)
    → Wished ts t
    → kept (not_false m) t ≡ weight (best m ts) t
unfolding is_false_lit value_of_lit
kept-best m ts (a, plus v) e = ground (arith, e)
kept-best m ts (a, minus v) e = ground (arith, e)

lhs_value-best :
    (m : Model) (ts us : List Term)
    → All (Wished ts) us
    → total (kept (not_false m)) us ≡ lhs_value (best m ts) us
lhs_value-best m ts [] h = refl
lhs_value-best m ts (u ∷ us) (h, hs) = omega (arith, kept-best m ts u h, lhs_value-best m ts us hs)

-- For a constraint in which no variable occurs twice: `constraintIsFalse` is true exactly when no
-- assignment that agrees with the trail satisfies it.
pub constraint_is_false_iff :
    (c : WConstraint) (m : Model)
    → Ordered Apart c.lhs
    → (constraint_is_false c m ≡ true) ↔ ((σ : Assignment) → Agrees m σ → ¬ Satisfies σ c)
unfolding constraint_is_false
constraint_is_false_iff c m o = (
  λ e σ a s.
      let exact = rw (slack-value c m) at e in
      let less : pos 0 -ℤ c.rhs +ℤ pos (total (kept (not_false m)) c.lhs) <ℤ pos 0 =
        ground (arith, exact) in
      kept-refutes (not_false m) σ (not_false-Misses m σ a) c _ (omega arith) less s,
  λ none_is. elim (Bool-cases (ltb_ℤ (slack c m) (pos 0))) [
    | inl e ↦ e
    | inr e ↦
        let value = lhs_value-best m c.lhs c.lhs (wish-Wished c.lhs o) in
        let exact = rw (slack-value c m) at e in
        absurd (
          none_is (best m c.lhs) (best-Agrees m c.lhs) (
            let up : pos 0 ≤ℤ pos 0 -ℤ c.rhs +ℤ pos (total (kept (not_false m)) c.lhs) =
              ground (arith, exact) in
            omega (int_laws, value, up)))
  ],
)

-- A literal of the constraint that has no value, with a coefficient above the slack, is true in every
-- assignment that agrees with the trail and satisfies the constraint.
pub slack-entails :
    (c : WConstraint) (m : Model) (l : Lit) (σ : Assignment)
    → Any (λ t. (t.1 ≡ l) × (slack c m <ℤ pos t.0)) c.lhs
    → is_false_lit l m ≡ false
    → Agrees m σ
    → Satisfies σ c
    → holds σ l ≡ true
slack-entails c m l σ h u a s =
    let (t, (same, less), at) = Any-witness (λ x. (x.1 ≡ l) × (slack c m <ℤ pos x.0)) c.lhs h in
    let sum = slack-value c m in
    ap (holds σ) (sym same)
    ∙ kept-entails (not_false m) σ (not_false-Misses m σ a) c (slack c m) t (rw sum (omega arith)) s
        at (ap (not_false m) same ∙ ap not u) less
