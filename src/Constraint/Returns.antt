-- ===== src/Constraint/Returns.antt =====
-- `fixRoundingProblemSAT` returns on a constraint that propagates its literal.
use cube_conquer_pb.Base.{
  ℕ, ◌+◌, ◌≡◌, refl, ◌⊎◌, inl, inr, Bool, true, false, ◌&&◌, not, List, [], ◌∷◌, if◌then◌else◌,
  ◌==◌, Option, some, ℤ, pos, negsuc, ◌-ℤ◌, -ℤ_parts, pos_part, neg_part, arith, Bool-cases, total,
  ◌<◌, Any, here, there, Ordered, All, All-map_le,
}
use cube_conquer_pb.Constraint.{Lit, Term, WConstraint, var_of}
use cube_conquer_pb.Constraint.Semantics.{Assignment, Satisfies, coef_of, VarLt}
use cube_conquer_pb.Constraint.Rounding.{
  nonneg, coeff_of_var, keep_lit, fix_loop, fix_rounding_problem_sat,
  fix_rounding_problem_sat-Satisfies,
}

-- The coefficient of a false literal of another variable.
abbrev pub false_coef : (Lit → Bool) → ℕ → Term → ℕ
false_coef is_false x t = if is_false t.1 && not (var_of t == x) then t.0 else 0

-- A term with coefficient 1 whose literal occurs among `ts` and is false or over the variable `x`.
abbrev pub IsReason : (Lit → Bool) → ℕ → List Term → Term → Type 0
IsReason is_false x ts t =
    (t.0 ≡ 1) × Any (λ u. u.1 ≡ t.1) ts × ((is_false t.1 ≡ true) ⊎ (var_of t ≡ x))

-- The loop returns such terms; unless one is `added` before, one of them is over the variable.
Found : (Lit → Bool) → ℕ → Bool → List Term → Option (List Term) → Type 0
Found is_false x added ts r =
    (us : List Term) × (r ≡ some us)
    × All (IsReason is_false x ts) us
    × ((added ≡ true) ⊎ Any (λ t. var_of t ≡ x) us)

module _ (is_false : Lit → Bool) (x : ℕ) (t : Term) (ts : List Term) where
  more_terms :
      (us : List Term) → All (IsReason is_false x ts) us → All (IsReason is_false x (t ∷ ts)) us
  more_terms us h =
      All-map_le (IsReason is_false x ts) (IsReason is_false x (t ∷ ts)) us
        (λ u (one, at, why). (one, there at, why)) h

  Found-skip :
      (added : Bool) (r : Option (List Term))
      → Found is_false x added ts r
      → Found is_false x added (t ∷ ts) r
  unfolding Found
  Found-skip added r (us, e, all, one) = (us, e, more_terms us all, one)

  Found-false :
      (added : Bool) (r : Option (List Term))
      → is_false t.1 ≡ true
      → Found is_false x added ts r
      → Found is_false x added (t ∷ ts) (keep_lit t.1 r)
  unfolding Found
  Found-false added r f (us, e, all, one) = (
    (1, t.1) ∷ us,
    rw e refl,
    ((refl, here refl, inl f), more_terms us all),
    elim one [ inl a ↦ inl a | inr i ↦ inr (there i) ],
  )

  Found-var :
      (added : Bool) (r : Option (List Term))
      → var_of t ≡ x
      → Found is_false x true ts r
      → Found is_false x added (t ∷ ts) (keep_lit t.1 r)
  unfolding Found
  Found-var added r f (us, e, all, _) =
      ((1, t.1) ∷ us, rw e refl, ((refl, here refl, inr f), more_terms us all), inr (here f))

nonneg-false : (s : ℤ) → pos_part s < neg_part s → nonneg s ≡ false
nonneg-false (pos n) h = absurd (omega arith)
nonneg-false (negsuc n) h = refl

negative : (s : ℤ) → nonneg s ≡ false → pos_part s < neg_part s
negative (pos n) e = cc
negative (negsuc n) e = omega arith

-- The variable occurs behind a term of another variable.
later :
    (x : ℕ) (added : Bool) (t : Term) (ts : List Term)
    → (var_of t == x) ≡ false
    → (added ≡ true) ⊎ Any (λ u. var_of u ≡ x) (t ∷ ts)
    → (added ≡ true) ⊎ Any (λ u. var_of u ≡ x) ts
later x added t ts e (inl a) = inl a
later x added t ts e (inr (here q)) = absurd (ground arith)
later x added t ts e (inr (there i)) = inr i

fix_loop-Found :
    (is_false : Lit → Bool) (x : ℕ) (s : ℤ) (added : Bool) (ts : List Term)
    → pos_part s < neg_part s + total (false_coef is_false x) ts
    → (added ≡ true) ⊎ Any (λ t. var_of t ≡ x) ts
    → Found is_false x added ts (fix_loop is_false x s added ts)
unfolding fix_loop Found
fix_loop-Found is_false x s added [] h (inl a) =
    ([], rw (nonneg-false s (omega arith), a, fix_loop) refl, tt, inl a)
fix_loop-Found is_false x s added [] h (inr i) = elim i [ ]
fix_loop-Found is_false x s added (t ∷ ts) h k = elim (Bool-cases (not (nonneg s) && added)) [
  | inl e ↦ ([], rw (e, fix_loop) refl, tt, inl (grind (arith, e)))
  | inr e ↦ elim (Bool-cases (is_false t.1 && (not (var_of t == x) && nonneg s))) [
    | inl f ↦
        let r = fix_loop is_false x (s -ℤ pos t.0) added ts in
        rw (e, f, fix_loop)
          (Found-false is_false x t ts added r (grind (arith, f)) (
            let other : (var_of t == x) ≡ false = grind (arith, f) in
            fix_loop-Found is_false x (s -ℤ pos t.0) added ts
              (ground (arith, f, -ℤ_parts s (pos t.0))) (later x added t ts other k)))
    | inr f ↦ elim (Bool-cases (var_of t == x)) [
      | inl g ↦
          rw (e, f, g, fix_loop)
            (Found-var is_false x t ts added (fix_loop is_false x s true ts) (ground (arith, g))
              (fix_loop-Found is_false x s true ts (ground (arith, g)) (inl refl)))
      | inr g ↦
          rw (e, f, g, fix_loop)
            (Found-skip is_false x t ts added (fix_loop is_false x s added ts) (
              fix_loop-Found is_false x s added ts
                (elim (Bool-cases (nonneg s)) [
                  | inl q ↦ ground (arith, f, g, q)
                  | inr q ↦ (let n = negative s q in omega arith)
                ])
                (later x added t ts g k)))
    ]
  ]
]

-- A clause of terms of `c` that are false or over the variable `x`, with one over the variable.
abbrev pub IsClauseOf : (Lit → Bool) → ℕ → WConstraint → WConstraint → Type 0
IsClauseOf is_false x c d =
    (d.rhs ≡ pos 1) × All (IsReason is_false x c.lhs) d.lhs × Any (λ t. var_of t ≡ x) d.lhs

-- When the variables of a constraint are in increasing order, the variable of the literal occurs in it,
-- and the coefficients of the other terms whose literals are not false stay below the constant,
-- `fix_rounding_problem_sat` returns a clause: its constant and its coefficients are 1, each of its
-- literals is one of the constraint that is false or over the variable, one of them is over the
-- variable, and it holds in each assignment that satisfies the constraint.
pub fix_rounding_problem_sat-returns :
    (is_false : Lit → Bool) (l : Lit) (c : WConstraint) (r : ℕ)
    → Ordered VarLt c.lhs
    → Any (λ t. var_of t ≡ var_of (1, l)) c.lhs
    → c.rhs ≡ pos r
    → total coef_of c.lhs
      < r + coeff_of_var (var_of (1, l)) 0 c.lhs + total (false_coef is_false (var_of (1, l))) c.lhs
    → (d : WConstraint) × (fix_rounding_problem_sat is_false l c ≡ some d)
      × IsClauseOf is_false (var_of (1, l)) c d
      × ((σ : Assignment) → Satisfies σ c → Satisfies σ d)
unfolding fix_rounding_problem_sat Found
fix_rounding_problem_sat-returns is_false l c r o i e h =
    let x = var_of (1, l) in
    let s1 = -ℤ_parts (pos (total coef_of c.lhs)) c.rhs in
    let s2 = -ℤ_parts (pos (total coef_of c.lhs) -ℤ c.rhs) (pos (coeff_of_var x 0 c.lhs)) in
    let s = pos (total coef_of c.lhs) -ℤ c.rhs -ℤ pos (coeff_of_var x 0 c.lhs) in
    let (us, q, all, one) =
      fix_loop-Found is_false x s false c.lhs (ground (arith, s1, s2, e)) (inr i) in
    let d : WConstraint = record { lhs = us; rhs = pos 1 } in
    let eq : fix_rounding_problem_sat is_false l c ≡ some d =
      rw (q, fix_rounding_problem_sat) refl in
    let over : Any (λ t. var_of t ≡ x) us = elim one [ inl a ↦ cc | inr j ↦ j ] in
    (d, eq, (refl, all, over), λ σ. fix_rounding_problem_sat-Satisfies σ is_false l c d o eq)
