-- ===== src/Problem/Linear.antt =====
-- The normalised form of a linear constraint says what the linear constraint says.
use cube_conquer_pb.Base.{
  ℕ, zero, suc, ◌+◌, inl, inr, ◌≡◌, ◌↔◌, refl, Bool, true, false, List, [], ◌∷◌, if◌then◌else◌,
  ◌==◌, Option, none, some, ℤ, pos, negsuc, ◌+ℤ◌, ◌-ℤ◌, ◌≤ℤ◌, pos_part, neg_part, +ℤ_parts,
  -ℤ_parts, arith, Bool-cases, All,
}
use cube_conquer_pb.Constraint.Semantics.{Assignment, lhs_value, Satisfies, IsPositive}
use cube_conquer_pb.Problem.{
  LinearTerm, abs, is_negative, negate, GeqParts, geq_loop, build_linear_geq_parts,
}

-- The value of a linear expression over 0-1 variables.
abbrev pub linear_value : Assignment → List LinearTerm → ℤ
linear_value σ [] = pos 0
linear_value σ ((a, v) ∷ ts) = (if σ v then a else pos 0) +ℤ linear_value σ ts

-- coeffs * vars >= rhs, or <= rhs.
abbrev pub LinearHolds : Assignment → List LinearTerm → ℤ → Bool → Type 0
LinearHolds σ ts r true = r ≤ℤ linear_value σ ts
LinearHolds σ ts r false = linear_value σ ts ≤ℤ r

negate-zero : negate (pos zero) ≡ pos 0
unfolding ◌-ℤ◌
negate-zero = refl

negate-suc : (n : ℕ) → negate (pos (suc n)) ≡ negsuc n
unfolding ◌-ℤ◌
negate-suc n = ground arith

negate-negsuc : (n : ℕ) → negate (negsuc n) ≡ pos (suc n)
unfolding ◌-ℤ◌
negate-negsuc n = ground arith

-- The constant less the value moves by the same amount on both sides.
geq_loop-value :
    (σ : Assignment) (is_geq : Bool) (r : ℤ) (ts : List LinearTerm)
    → let p = geq_loop is_geq r ts in
      let w = linear_value σ ts in
      pos_part p.rhs + neg_part r + (if is_geq then pos_part w else neg_part w)
      ≡ neg_part p.rhs
        + pos_part r
        + lhs_value σ p.terms
        + (if is_geq then neg_part w else pos_part w)
unfolding geq_loop
geq_loop-value σ true r [] = omega arith
geq_loop-value σ false r [] = omega arith
geq_loop-value σ true r ((pos n, v) ∷ ts) =
    let w = linear_value σ ts in
    ground (arith, geq_loop-value σ true r ts, +ℤ_parts (pos n) w, +ℤ_parts (pos 0) w)
geq_loop-value σ true r ((negsuc n, v) ∷ ts) =
    let w = linear_value σ ts in
    ground (
      arith,
      geq_loop-value σ true (r +ℤ pos (0 + suc n)) ts,
      +ℤ_parts (negsuc n) w,
      +ℤ_parts (pos 0) w,
      +ℤ_parts r (pos (0 + suc n)),
    )
geq_loop-value σ false r ((pos zero, v) ∷ ts) =
    let w = linear_value σ ts in
    rw negate-zero (ground (arith, geq_loop-value σ false r ts, +ℤ_parts (pos 0) w))
geq_loop-value σ false r ((pos (suc n), v) ∷ ts) =
    let w = linear_value σ ts in
    rw (negate-suc n) (
      ground (
        arith,
        geq_loop-value σ false (r +ℤ pos (0 + suc n)) ts,
        +ℤ_parts (pos (suc n)) w,
        +ℤ_parts (pos 0) w,
        +ℤ_parts r (pos (0 + suc n)),
      ))
geq_loop-value σ false r ((negsuc n, v) ∷ ts) =
    let w = linear_value σ ts in
    rw (negate-negsuc n)
      (ground (arith, geq_loop-value σ false r ts, +ℤ_parts (negsuc n) w, +ℤ_parts (pos 0) w))

geq_loop-IsPositive :
    (is_geq : Bool) (r : ℤ) (ts : List LinearTerm) → All IsPositive (geq_loop is_geq r ts).terms
unfolding geq_loop
geq_loop-IsPositive g r [] = tt
geq_loop-IsPositive g r ((a, v) ∷ ts) =
    let coef = if g then a else negate a in
    let r' = if is_negative coef then r +ℤ pos (abs coef) else r in
    elim (Bool-cases (abs coef == 0)) [
      | inl e ↦ rw e (geq_loop-IsPositive g r' ts)
      | inr e ↦ rw e (ground arith, geq_loop-IsPositive g r' ts)
    ]

parts_of : Bool → ℤ → List LinearTerm → GeqParts
parts_of is_geq r ts = geq_loop is_geq (if is_geq then r else negate r) ts

parts_of-Satisfies :
    (σ : Assignment) (ts : List LinearTerm) (r : ℤ) (is_geq : Bool)
    → ((parts_of is_geq r ts).rhs ≤ℤ pos (lhs_value σ (parts_of is_geq r ts).terms))
      ↔ LinearHolds σ ts r is_geq
unfolding parts_of
parts_of-Satisfies σ ts r true =
    (λ h. omega (arith, geq_loop-value σ true r ts), λ h. omega (arith, geq_loop-value σ true r ts))
parts_of-Satisfies σ ts r false =
    let e = geq_loop-value σ false (negate r) ts in
    (λ h. omega (arith, e, -ℤ_parts (pos 0) r), λ h. omega (arith, e, -ℤ_parts (pos 0) r))

-- What a result of `build_linear_geq_parts` has to say about the linear constraint.
abbrev pub PartsAgree : List LinearTerm → ℤ → Bool → Option GeqParts → Type 0
PartsAgree ts r is_geq none = (σ : Assignment) → LinearHolds σ ts r is_geq
PartsAgree ts r is_geq (some p) =
    (pos 1 ≤ℤ p.rhs)
    × All IsPositive p.terms
    × ((σ : Assignment)
        → Satisfies σ (record { lhs = p.terms; rhs = p.rhs }) ↔ LinearHolds σ ts r is_geq)

-- For >= and for <=: when `build_linear_geq_parts` drops a constraint every assignment satisfies it, and
-- otherwise the parts have a constant of at least 1 and positive coefficients and hold in the same
-- assignments as the input.
pub build_linear_geq_parts-PartsAgree :
    (ts : List LinearTerm) (r : ℤ) (is_geq : Bool)
    → PartsAgree ts r is_geq (build_linear_geq_parts ts r is_geq)
unfolding build_linear_geq_parts parts_of
build_linear_geq_parts-PartsAgree ts r g = by_constant (parts_of g r ts).rhs refl
  where
    by_constant :
        (n : ℤ) → (parts_of g r ts).rhs ≡ n → PartsAgree ts r g (build_linear_geq_parts ts r g)
    by_constant (negsuc n) e =
        rw (e, build_linear_geq_parts) λ σ. (parts_of-Satisfies σ ts r g).0 (rw e (omega arith))
    by_constant (pos n) e = elim (Bool-cases (n == 0)) [
      | inl f ↦
          rw (e, f, build_linear_geq_parts)
            λ σ. (parts_of-Satisfies σ ts r g).0 (rw e (ground arith))
      | inr f ↦
          rw (e, f, build_linear_geq_parts)
            (
              rw e (ground arith),
              geq_loop-IsPositive g (if g then r else negate r) ts,
              λ σ. parts_of-Satisfies σ ts r g,
            )
    ]
