-- ===== src/ConstraintValue/Slack.antt =====
-- What the sums over the literals that are not false say of the assignments that agree with the trail.
use cube_conquer_pb.Base.{
  ℕ, ◌+◌, ◌≡◌, refl, sym, ◌∙◌, ap, Bool, true, false, not, List, [], ◌∷◌, if◌then◌else◌, ◌≤◌, ℤ,
  pos, ◌+ℤ◌, ◌-ℤ◌, ◌≤ℤ◌, ◌<ℤ◌, total, Any, Any-map_le, here, there, Bool-cases, inl, inr, arith,
  int_laws,
}
use cube_conquer_pb.Constraint.{Lit, plus, minus, Term, WConstraint, neg}
use cube_conquer_pb.Constraint.Semantics.{Assignment, holds, weight, lhs_value, Satisfies}
use cube_conquer_pb.Trail.{Model, is_true_lit, is_false_lit, value_of_lit}
use cube_conquer_pb.ConstraintValue.{add_where, slack}

-- The coefficient where the literal is kept, else 0.
abbrev pub kept : (Lit → Bool) → Term → ℕ
kept keep t = if keep t.1 then t.0 else 0

pub add_where-value :
    (keep : Lit → Bool) (ts : List Term) (sum : ℤ)
    → add_where keep ts sum ≡ sum +ℤ pos (total (kept keep) ts)
unfolding add_where
add_where-value keep [] sum = omega int_laws
add_where-value keep (t ∷ ts) sum = elim (Bool-cases (keep t.1)) [
  | inl e ↦ rw e (add_where-value keep ts (sum +ℤ pos t.0) ∙ omega int_laws)
  | inr e ↦ rw e (add_where-value keep ts sum ∙ omega int_laws)
]

-- An assignment that gives each true literal of the trail the value true.
abbrev pub Agrees : Model → Assignment → Type 0
Agrees m σ = (l : Lit) → is_true_lit l m ≡ true → holds σ l ≡ true

pub holds-neg : (σ : Assignment) (l : Lit) → holds σ (neg l) ≡ not (holds σ l)
holds-neg σ (plus v) = refl
holds-neg σ (minus v) = ground arith

pub is_true_lit-neg : (l : Lit) (m : Model) → is_true_lit (neg l) m ≡ is_false_lit l m
unfolding is_true_lit is_false_lit value_of_lit
is_true_lit-neg (plus v) m = ground arith
is_true_lit-neg (minus v) m = ground arith

pub Agrees-false :
    (m : Model) (σ : Assignment) (l : Lit)
    → Agrees m σ
    → is_false_lit l m ≡ true
    → holds σ l ≡ false
Agrees-false m σ l a e =
    let up : not (holds σ l) ≡ true = sym (holds-neg σ l) ∙ a (neg l) (is_true_lit-neg l m ∙ e) in
    ground (arith, up)

abbrev pub not_false : Model → Lit → Bool
not_false m l = not (is_false_lit l m)

-- The assignment makes each literal false that is not kept.
abbrev pub Misses : (Lit → Bool) → Assignment → Type 0
Misses keep σ = (l : Lit) → keep l ≡ false → holds σ l ≡ false

pub not_false-Misses : (m : Model) (σ : Assignment) → Agrees m σ → Misses (not_false m) σ
not_false-Misses m σ a l e = Agrees-false m σ l a (ground (arith, e))

module _ (keep : Lit → Bool) (σ : Assignment) (misses : Misses keep σ) where
  weight-le : (t : Term) → weight σ t ≤ kept keep t
  weight-le t = elim (Bool-cases (keep t.1)) [
    | inl e ↦ rw e (ground arith)
    | inr e ↦ (let f = misses t.1 e in rw (e, f) (omega arith))
  ]

  pub lhs_value-le : (ts : List Term) → lhs_value σ ts ≤ total (kept keep) ts
  lhs_value-le [] = omega arith
  lhs_value-le (t ∷ ts) = omega (arith, weight-le t, lhs_value-le ts)

  -- A kept literal of the constraint that the assignment makes false costs its coefficient.
  pub lhs_value-le_without :
      (ts : List Term) (n : ℕ)
      → Any (λ t. (holds σ t.1 ≡ false) × (keep t.1 ≡ true) × (n ≤ t.0)) ts
      → lhs_value σ ts + n ≤ total (kept keep) ts
  lhs_value-le_without [] n h = elim h [ ]
  lhs_value-le_without (t ∷ ts) n (here (f, u, le)) = rw (f, u) (omega (arith, le, lhs_value-le ts))
  lhs_value-le_without (t ∷ ts) n (there h) =
      omega (arith, weight-le t, lhs_value-le_without ts n h)

  -- A kept literal whose coefficient is above what the kept sum leaves is true.
  pub kept-entails :
      (c : WConstraint) (w : ℤ) (t : Term)
      → pos 0 -ℤ c.rhs +ℤ pos (total (kept keep) c.lhs) ≤ℤ w
      → Satisfies σ c
      → Any (λ u. u ≡ t) c.lhs
      → keep t.1 ≡ true
      → w <ℤ pos t.0
      → holds σ t.1 ≡ true
  kept-entails c w t bound s at k less = elim (Bool-cases (holds σ t.1)) [
    | inl e ↦ e
    | inr e ↦
        let le = lhs_value-le_without c.lhs t.0 (
          Any-map_le (λ x. x ≡ t) (λ x. (holds σ x.1 ≡ false) × (keep x.1 ≡ true) × (t.0 ≤ x.0))
            c.lhs
            (λ x q. (
              ap (λ y. holds σ y.1) q ∙ e,
              ap (λ y. keep y.1) q ∙ k,
              (let r : t.0 ≡ x.0 = ap (λ y. y.0) (sym q) in omega arith),
            ))
            at) in
        absurd (omega (int_laws, le, s, bound, less))
  ]

  pub kept-refutes :
      (c : WConstraint) (w : ℤ)
      → pos 0 -ℤ c.rhs +ℤ pos (total (kept keep) c.lhs) ≤ℤ w
      → w <ℤ pos 0
      → ¬ Satisfies σ c
  kept-refutes c w bound less s =
      let le = lhs_value-le c.lhs in omega (int_laws, le, s, bound, less)

pub slack-value :
    (c : WConstraint) (m : Model)
    → slack c m ≡ (pos 0 -ℤ c.rhs) +ℤ pos (total (kept (not_false m)) c.lhs)
unfolding slack
slack-value c m = add_where-value (not_false m) c.lhs (pos 0 -ℤ c.rhs)
