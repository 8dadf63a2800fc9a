-- ===== src/Constraint/Rounding.antt =====
-- `fixRoundingProblemSAT` (src/ConflictAnalysis.cpp): a clause of false literals and of the literal of
-- one variable, for the cut that did not conflict.
use cube_conquer_pb.Base.{
  ℕ, ◌+◌, ◌≡◌, refl, ◌⊎◌, inl, inr, Bool, true, false, ◌&&◌, not, List, [], ◌∷◌, if◌then◌else◌,
  ◌==◌, Option, none, some, ℤ, pos, negsuc, ◌-ℤ◌, -ℤ_parts, pos_part, neg_part, arith, Bool-cases,
  Option-cases, total, ◌≤◌, All, All-map_le, Ordered, ◌≢◌, ==_iff, subst,
}
use cube_conquer_pb.Constraint.{Lit, Term, WConstraint, var_of}
use cube_conquer_pb.Constraint.Semantics.{
  Assignment, lhs_value, Satisfies, coef_of, lhs_value-le-total, VarLt,
}

abbrev pub nonneg : ℤ → Bool
nonneg (pos n) = true
nonneg (negsuc n) = false

-- sumTotalMinusRhs after the first loop, and coeffL: the coefficient of the last term of `x`.
unfoldable pub coeff_of_var : ℕ → ℕ → List Term → ℕ
coeff_of_var x a [] = a
coeff_of_var x a (t ∷ ts) = coeff_of_var x (if var_of t == x then t.0 else a) ts

-- w2.addMonomial(1, lit)
abbrev pub keep_lit : Lit → Option (List Term) → Option (List Term)
keep_lit l none = none
keep_lit l (some us) = some ((1, l) ∷ us)

-- while (sumTotalMinusRhs >= 0 or not added): `none` is a read behind the last term.
unfoldable pub fix_loop : (Lit → Bool) → ℕ → ℤ → Bool → List Term → Option (List Term)
unfolding ◌-ℤ◌
fix_loop is_false x s added [] = elim (nonneg s) [
  | true ↦ none
  | false ↦ elim added [ true ↦ some [] | false ↦ none ]
]
fix_loop is_false x s added (t ∷ ts) =
    let take_false = fix_loop is_false x (s -ℤ pos t.0) added ts in
    let take_var = fix_loop is_false x s true ts in
    let skip = fix_loop is_false x s added ts in
    if not (nonneg s) && added
    then some []
    else if is_false t.1 && (not (var_of t == x) && nonneg s)
    then keep_lit t.1 take_false
    else if var_of t == x
    then keep_lit t.1 take_var
    else skip

-- fixRoundingProblemSAT, with the model's `isFalseLit`.
unfoldable pub fix_rounding_problem_sat : (Lit → Bool) → Lit → WConstraint → Option WConstraint
unfolding fix_loop coeff_of_var ◌-ℤ◌
fix_rounding_problem_sat is_false l c =
    let x = var_of (1, l) in
    let s = pos (total coef_of c.lhs) -ℤ c.rhs -ℤ pos (coeff_of_var x 0 c.lhs) in
    elim (fix_loop is_false x s false c.lhs) [
      | none ↦ none
      | some us ↦ some (record { lhs = us; rhs = pos 1 })
    ]

-- The coefficients of the other variables.
abbrev other_coef : ℕ → Term → ℕ
other_coef x t = if var_of t == x then 0 else t.0

abbrev Lacks : ℕ → List Term → Type 0
Lacks x ts = All (λ t. var_of t ≢ x) ts

total_other : (x : ℕ) (ts : List Term) → Lacks x ts → total (other_coef x) ts ≡ total coef_of ts
total_other x [] h = refl
total_other x (t ∷ ts) h = ground (arith, total_other x ts h.1, h.0)

coeff_of_var-Lacks : (x a : ℕ) (ts : List Term) → Lacks x ts → coeff_of_var x a ts ≡ a
unfolding coeff_of_var
coeff_of_var-Lacks x a [] h = refl
coeff_of_var-Lacks x a (t ∷ ts) h = ground (arith, coeff_of_var-Lacks x a ts h.1, h.0)

Ordered-Lacks : (t : Term) (ts : List Term) → All (VarLt t) ts → Lacks (var_of t) ts
Ordered-Lacks t ts h = All-map_le (VarLt t) (λ u. var_of u ≢ var_of t) ts (λ u k. omega arith) h

-- With distinct variables the coefficient found is all that the variable has.
coeff_of_var-total :
    (x : ℕ) (ts : List Term)
    → Ordered VarLt ts
    → coeff_of_var x 0 ts + total (other_coef x) ts ≡ total coef_of ts
unfolding coeff_of_var
coeff_of_var-total x [] o = refl
coeff_of_var-total x (t ∷ ts) o = elim (Bool-cases (var_of t == x)) [
  | inl e ↦
      let q : var_of t ≡ x = (==_iff _ x).0 e in
      let lacks : Lacks x ts = subst (λ y. Lacks y ts) q (Ordered-Lacks t ts o.0) in
      rw e (omega (arith, coeff_of_var-Lacks x t.0 ts lacks, total_other x ts lacks))
  | inr e ↦ rw e (omega (arith, coeff_of_var-total x ts o.1))
]

-- The terms that the loop leaves out cannot reach the constant.
abbrev Explains : Assignment → ℕ → ℤ → List Term → List Term → Type 0
Explains σ x s ts us =
    (1 ≤ lhs_value σ us) ⊎ (pos_part s + lhs_value σ ts + 1 ≤ total (other_coef x) ts + neg_part s)

keep_lit-some :
    (l : Lit) (o : Option (List Term)) (us : List Term)
    → keep_lit l o ≡ some us
    → (vs : List Term) × (o ≡ some vs) × (us ≡ (1, l) ∷ vs)
keep_lit-some l none us e = cc
keep_lit-some l (some vs) us e = (vs, refl, cc)

stop :
    (σ : Assignment) (x : ℕ) (s : ℤ) (added : Bool) (ts us : List Term)
    → (added ≡ true → Lacks x ts)
    → (not (nonneg s) && added) ≡ true
    → Explains σ x s ts us
stop σ x s added ts us a p =
    let yes_added : added ≡ true = ground arith in
    let full = total_other x ts (a yes_added) in ground (arith, full, lhs_value-le-total σ ts)

fix_loop-Explains :
    (σ : Assignment) (is_false : Lit → Bool) (x : ℕ) (s : ℤ) (added : Bool) (ts us : List Term)
    → Ordered VarLt ts
    → (added ≡ true → Lacks x ts)
    → fix_loop is_false x s added ts ≡ some us
    → Explains σ x s ts us
unfolding fix_loop
fix_loop-Explains σ is_false x s added [] us o a e = ground arith
fix_loop-Explains σ is_false x s added (t ∷ ts) us o a e =
    elim (Bool-cases (not (nonneg s) && added)) [
      | inl p ↦ stop σ x s added (t ∷ ts) us a p
      | inr p ↦ elim (Bool-cases (is_false t.1 && (not (var_of t == x) && nonneg s))) [
        | inl q ↦
            let (vs, f, g) = keep_lit-some t.1 _ us (rw (p, q, fix_loop) at e) in
            let ih =
              fix_loop-Explains σ is_false x (s -ℤ pos t.0) added ts vs o.1 (λ b. (a b).1) f in
            let other : (var_of t == x) ≡ false = ground arith in
            rw g (ground (arith, ih, -ℤ_parts s (pos t.0)))
        | inr q ↦ elim (Bool-cases (var_of t == x)) [
          | inl r ↦
              let (vs, f, g) = keep_lit-some t.1 _ us (rw (p, q, r, fix_loop) at e) in
              let same : var_of t ≡ x = (==_iff _ x).0 r in
              let lacks : Lacks x ts = subst (λ y. Lacks y ts) same (Ordered-Lacks t ts o.0) in
              let ih = fix_loop-Explains σ is_false x s true ts vs o.1 (λ _. lacks) f in
              rw g (ground (arith, ih))
          | inr r ↦
              let ih =
                fix_loop-Explains σ is_false x s added ts us o.1 (λ b. (a b).1)
                  (rw (p, q, r, fix_loop) at e) in
              ground (arith, ih)
        ]
      ]
    ]

-- Every assignment that satisfies the constraint satisfies the clause, when the variables of the
-- constraint are in increasing order: replacing the constraint by the clause is sound.
pub fix_rounding_problem_sat-Satisfies :
    (σ : Assignment) (is_false : Lit → Bool) (l : Lit) (c d : WConstraint)
    → Ordered VarLt c.lhs
    → fix_rounding_problem_sat is_false l c ≡ some d
    → Satisfies σ c
    → Satisfies σ d
unfolding fix_rounding_problem_sat
fix_rounding_problem_sat-Satisfies σ is_false l c d o e h =
    let x = var_of (1, l) in
    let s = pos (total coef_of c.lhs) -ℤ c.rhs -ℤ pos (coeff_of_var x 0 c.lhs) in
    elim (Option-cases (fix_loop is_false x s false c.lhs)) [
      | inl f ↦ let e' : none ≡ some d = rw (f, fix_rounding_problem_sat) at e in cc
      | inr (us, f) ↦
          let e' : some (record { lhs = us; rhs = pos 1 }) ≡ some d =
            rw (f, fix_rounding_problem_sat) at e in
          let q : record { lhs = us; rhs = pos 1 } ≡ d = cc in
          let out = fix_loop-Explains σ is_false x s false c.lhs us o (λ b. cc) f in
          subst (Satisfies σ) q (
            ground (
              arith,
              out,
              coeff_of_var-total x c.lhs o,
              -ℤ_parts (pos (total coef_of c.lhs)) c.rhs,
              -ℤ_parts (pos (total coef_of c.lhs) -ℤ c.rhs) (pos (coeff_of_var x 0 c.lhs)),
            ))
    ]
