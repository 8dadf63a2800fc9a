-- ===== src/Constraint/Cut/Sound.antt =====
-- A cut follows from the two constraints that it is made of.
use native.Mathlib.Nat.{mul-le-mul_left, mul-div_cancel_left}
use cube_conquer_pb.Base.{
  ℕ, suc, ◌+◌, ◌*◌, ◌/◌, ◌≡◌, ◌≤ℤ◌, subst, ◌∙◌, ap, inl, inr, false, List, [], ◌∷◌, ltb, ◌==◌, ℤ,
  pos, negsuc, ◌+ℤ◌, ◌*ℤ◌, +ℤ_parts, -ℤ_parts, pos_part, neg_part, gcd, division_rounded_up, length,
  arith, Bool-cases, All, ◌≤◌, ◌<◌, gcd-Divides,
}
use cube_conquer_pb.Constraint.{Term, WConstraint}
use cube_conquer_pb.Constraint.Semantics.{Assignment, lhs_value, Satisfies, IsPositive}
use cube_conquer_pb.Constraint.Cut.Merge.{merge-value, merge-IsPositive}
use cube_conquer_pb.Constraint.Cut.Division.{normalize_cut-value}
use cube_conquer_pb.Constraint.Lookup.{get_coefficient_binary_search}
use cube_conquer_pb.Constraint.Cut.{
  merge, cut_divisor, normalize_cut, CutResult, undefined, overflow, inconsistent, cut, finish_cut,
  multiplier, two_to_the_30th, new_constant, apply_cut_with, in_range, limit, apply_cut_in,
  apply_cut,
}

-- The constraint of a result, if it holds one.
abbrev pub CutIs : CutResult → WConstraint → Type 0
CutIs undefined d = ⊥
CutIs overflow d = ⊥
CutIs (inconsistent c) d = c ≡ d
CutIs (cut c) d = c ≡ d

normalize_cut-Satisfies :
    (σ : Assignment) (r : ℕ) (ts : List Term) (d : WConstraint)
    → 0 < r
    → All IsPositive ts
    → CutIs (normalize_cut r ts) d
    → r ≤ lhs_value σ ts
    → Satisfies σ d
unfolding normalize_cut
normalize_cut-Satisfies σ r [] d h p e s = absurd (omega arith)
normalize_cut-Satisfies σ r (t ∷ ts) d h p e s =
    let c' = division_rounded_up r (cut_divisor r (t ∷ ts)) in
    let full : (suc (length ts) == 0) ≡ false = ground arith in
    elim (Bool-cases (ltb two_to_the_30th c')) [
      | inl f ↦ absurd (rw (full, f) at e)
      | inr f ↦
          let e' : CutIs (cut _) d = rw (full, f) at e in
          let k = (normalize_cut-value σ r (t ∷ ts) h p).1 s in subst (Satisfies σ) e' (omega arith)
    ]

finish_cut-Satisfies :
    (σ : Assignment) (n : ℤ) (ts : List Term) (d : WConstraint)
    → All IsPositive ts
    → CutIs (finish_cut n ts) d
    → n ≤ℤ pos (lhs_value σ ts)
    → Satisfies σ d
unfolding finish_cut
finish_cut-Satisfies σ (negsuc n) ts d p e s = absurd e
finish_cut-Satisfies σ (pos n) ts d p e s = elim (Bool-cases (n == 0)) [
  | inl f ↦ absurd (rw f at e)
  | inr f ↦ normalize_cut-Satisfies σ n ts d (ground arith) p (rw f at e) (omega arith)
]

scaled_parts :
    (k : ℕ) (a : ℤ)
    → pos_part (pos k *ℤ a) + k * neg_part a ≡ neg_part (pos k *ℤ a) + k * pos_part a
unfolding ◌*ℤ◌
scaled_parts k a = ground arith

-- The new constant is at most what the new terms are worth.
new_constant-le :
    (σ : Assignment) (v k1 k2 : ℕ) (c1 c2 : WConstraint)
    → Satisfies σ c1
    → Satisfies σ c2
    → new_constant k1 k2 c1 c2 (merge v k1 k2 c1.lhs c2.lhs).cancelled
      ≤ℤ pos (lhs_value σ (merge v k1 k2 c1.lhs c2.lhs).terms)
unfolding new_constant
new_constant-le σ v k1 k2 c1 c2 s1 s2 =
    let m = merge v k1 k2 c1.lhs c2.lhs in
    omega (
      arith,
      merge-value σ v k1 k2 c1.lhs c2.lhs,
      scaled_parts k1 c1.rhs,
      scaled_parts k2 c2.rhs,
      mul-le-mul_left k1 s1,
      mul-le-mul_left k2 s2,
      +ℤ_parts (pos k1 *ℤ c1.rhs) (pos k2 *ℤ c2.rhs),
      -ℤ_parts (pos k1 *ℤ c1.rhs +ℤ pos k2 *ℤ c2.rhs) (pos m.cancelled),
    )

apply_cut_with-Satisfies :
    (σ : Assignment) (v k1 k2 : ℕ) (c1 c2 d : WConstraint)
    → 0 < k1
    → 0 < k2
    → All IsPositive c1.lhs
    → All IsPositive c2.lhs
    → CutIs (apply_cut_with v k1 k2 c1 c2).1 d
    → Satisfies σ c1
    → Satisfies σ c2
    → Satisfies σ d
unfolding apply_cut_with
apply_cut_with-Satisfies σ v k1 k2 c1 c2 d h1 h2 p1 p2 e s1 s2 =
    let m = merge v k1 k2 c1.lhs c2.lhs in
    let n = new_constant k1 k2 c1 c2 m.cancelled in
    let reach : n ≤ℤ pos (lhs_value σ m.terms) = new_constant-le σ v k1 k2 c1 c2 s1 s2 in
    finish_cut-Satisfies σ n m.terms d (merge-IsPositive v k1 k2 c1.lhs c2.lhs h1 h2 p1 p2) e reach

multiplier_pos : (a b : ℕ) → 0 < a → 0 < b → 0 < multiplier a b
multiplier_pos a b h k =
    let (q, f) = (gcd-Divides a b).1 in
    let g : 0 < gcd a b = ground arith in
    let same : multiplier a b ≡ q = ap (λ (t : ℕ). t / gcd a b) f ∙ mul-div_cancel_left q g in
    rw same (ground arith)

apply_cut_in-with :
    (lim v k1 k2 : ℕ) (c1 c2 d : WConstraint)
    → CutIs (apply_cut_in lim v k1 k2 c1 c2).1 d
    → CutIs (apply_cut_with v k1 k2 c1 c2).1 d
unfolding apply_cut_in
apply_cut_in-with lim v k1 k2 c1 c2 d e =
    elim (Bool-cases (in_range lim k1 k2 c1 c2 (merge v k1 k2 c1.lhs c2.lhs))) [
      | inl f ↦ rw f at e
      | inr f ↦ absurd (rw f at e)
    ]

-- Every constraint that `apply_cut` returns without an overflow of its integer type, a cut or the
-- inconsistency 0 >= 1, holds in each assignment that satisfies both of its arguments, when their
-- coefficients are positive and the variable occurs in both.
pub apply_cut-Satisfies :
    (σ : Assignment) (v : ℕ) (c1 c2 d : WConstraint)
    → All IsPositive c1.lhs
    → All IsPositive c2.lhs
    → 0 < get_coefficient_binary_search c1.lhs v
    → 0 < get_coefficient_binary_search c2.lhs v
    → CutIs (apply_cut v c1 c2).1 d
    → Satisfies σ c1
    → Satisfies σ c2
    → Satisfies σ d
unfolding apply_cut
apply_cut-Satisfies σ v c1 c2 d p1 p2 a1 a2 e s1 s2 =
    apply_cut_with-Satisfies σ v _ _ c1 c2 d (multiplier_pos _ _ a1 a2) (multiplier_pos _ _ a2 a1)
      p1 p2 (apply_cut_in-with (limit c1.rhs c2.rhs) v _ _ c1 c2 d e) s1 s2
