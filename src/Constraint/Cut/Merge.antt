-- ===== src/Constraint/Cut/Merge.antt =====
-- The loops of `applyCut` add the two constraints, times their multipliers, exactly.
use native.Mathlib.Nat.{mul-pos}
use cube_conquer_pb.Base.{
  ℕ, ◌+◌, ◌*◌, ◌≡◌, refl, ap, ◌||◌, inl, inr, not, List, [], ◌∷◌, ltb, ◌==◌, arith, Bool-cases, All,
  ◌<◌,
}
use cube_conquer_pb.Constraint.{Lit, plus, minus, Term, var_of}
use cube_conquer_pb.Constraint.Semantics.{Assignment, holds, weight, lhs_value, IsPositive}
use cube_conquer_pb.Constraint.Cut.{Merged, combine, scale, merge}

abbrev pub value : Assignment → Merged → ℕ
value σ m = lhs_value σ m.terms + m.cancelled

scale-value :
    (σ : Assignment) (k : ℕ) (ts : List Term) → lhs_value σ (scale k ts) ≡ k * lhs_value σ ts
unfolding scale
scale-value σ k [] = omega arith
scale-value σ k ((a, l) ∷ ts) = elim (Bool-cases (holds σ l)) [
  | inl e ↦ rw e (omega (arith, scale-value σ k ts))
  | inr e ↦ rw e (omega (arith, scale-value σ k ts))
]

combine-value :
    (σ : Assignment) (a b : ℕ) (l1 l2 : Lit) (m : Merged)
    → var_of (a, l1) ≡ var_of (b, l2)
    → value σ (combine a l1 b l2 m) ≡ weight σ (a, l1) + weight σ (b, l2) + value σ m
unfolding combine
combine-value σ a b (plus v) (plus w) m e = ground arith
combine-value σ a b (plus v) (minus w) m e = ground (arith, ap σ e)
combine-value σ a b (minus v) (plus w) m e = ground (arith, ap σ e)
combine-value σ a b (minus v) (minus w) m e = ground arith

weight-scale : (σ : Assignment) (k a : ℕ) (l : Lit) → weight σ (k * a, l) ≡ k * weight σ (a, l)
weight-scale σ k a l = elim (Bool-cases (holds σ l)) [
  | inl e ↦ rw e refl
  | inr e ↦ rw e (omega arith)
]

-- What the new terms and the cancelled amount of the loops are worth is the sum of the two left sides,
-- each times its multiplier, under every assignment.
pub merge-value :
    (σ : Assignment) (v k1 k2 : ℕ) (ts1 ts2 : List Term)
    → value σ (merge v k1 k2 ts1 ts2) ≡ k1 * lhs_value σ ts1 + k2 * lhs_value σ ts2
unfolding merge
merge-value σ v k1 k2 [] ts2 = omega (arith, scale-value σ k2 ts2)
merge-value σ v k1 k2 (t1 ∷ ts1) [] = omega (arith, scale-value σ k1 (t1 ∷ ts1))
merge-value σ v k1 k2 ((a1, l1) ∷ ts1) ((a2, l2) ∷ ts2) =
    let w1 = weight-scale σ k1 a1 l1 in
    let w2 = weight-scale σ k2 a2 l2 in
    elim (Bool-cases (ltb (var_of (a1, l1)) (var_of (a2, l2)))) [
      | inl e ↦ rw (e, merge) (omega (arith, w1, merge-value σ v k1 k2 ts1 ((a2, l2) ∷ ts2)))
      | inr e ↦ elim (Bool-cases (ltb (var_of (a2, l2)) (var_of (a1, l1)))) [
        | inl f ↦ rw (e, f, merge) (omega (arith, w2, merge-value σ v k1 k2 ((a1, l1) ∷ ts1) ts2))
        | inr f ↦
            let m = merge v k1 k2 ts1 ts2 in
            let m' = record m { clash = m.clash || not (var_of (a1, l1) == v) } in
            let same : var_of (a1, l1) ≡ var_of (a2, l2) = ground arith in
            rw (e, f, merge)
              (omega (
                arith,
                w1,
                w2,
                combine-value σ (k1 * a1) (k2 * a2) l1 l2 m' same,
                merge-value σ v k1 k2 ts1 ts2,
              ))
      ]
    ]

scale-IsPositive :
    (k : ℕ) (ts : List Term) → 0 < k → All IsPositive ts → All IsPositive (scale k ts)
unfolding scale
scale-IsPositive k [] h p = tt
scale-IsPositive k ((a, l) ∷ ts) h p = (mul-pos h p.0, scale-IsPositive k ts h p.1)

combine-IsPositive :
    (a b : ℕ) (l1 l2 : Lit) (m : Merged)
    → 0 < a
    → All IsPositive m.terms
    → All IsPositive (combine a l1 b l2 m).terms
unfolding combine
combine-IsPositive a b l1 l2 m h p = ground arith

pub merge-IsPositive :
    (v k1 k2 : ℕ) (ts1 ts2 : List Term)
    → 0 < k1
    → 0 < k2
    → All IsPositive ts1
    → All IsPositive ts2
    → All IsPositive (merge v k1 k2 ts1 ts2).terms
unfolding merge
merge-IsPositive v k1 k2 [] ts2 h1 h2 p1 p2 = scale-IsPositive k2 ts2 h2 p2
merge-IsPositive v k1 k2 (t1 ∷ ts1) [] h1 h2 p1 p2 = scale-IsPositive k1 (t1 ∷ ts1) h1 p1
merge-IsPositive v k1 k2 ((a1, l1) ∷ ts1) ((a2, l2) ∷ ts2) h1 h2 p1 p2 =
    elim (Bool-cases (ltb (var_of (a1, l1)) (var_of (a2, l2)))) [
      | inl e ↦
          rw (e, merge)
            (mul-pos h1 p1.0, merge-IsPositive v k1 k2 ts1 ((a2, l2) ∷ ts2) h1 h2 p1.1 p2)
      | inr e ↦ elim (Bool-cases (ltb (var_of (a2, l2)) (var_of (a1, l1)))) [
        | inl f ↦
            rw (e, f, merge)
              (mul-pos h2 p2.0, merge-IsPositive v k1 k2 ((a1, l1) ∷ ts1) ts2 h1 h2 p1 p2.1)
        | inr f ↦
            let m = merge v k1 k2 ts1 ts2 in
            let m' = record m { clash = m.clash || not (var_of (a1, l1) == v) } in
            rw (e, f, merge)
              (combine-IsPositive (k1 * a1) (k2 * a2) l1 l2 m' (mul-pos h1 p1.0)
                (merge-IsPositive v k1 k2 ts1 ts2 h1 h2 p1.1 p2.1))
      ]
    ]
