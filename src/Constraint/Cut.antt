-- ===== src/Constraint/Cut.antt =====
-- `applyCut` (src/ConflictAnalysis.cpp): the cut of two constraints that removes a variable. The
-- integer type `T` of the template is int or long long; a value that it does not hold is a result.
pub mod Merge
pub mod Division
pub mod Sound
pub mod Range
use cube_conquer_pb.Base.{
  ℕ, ◌+◌, ◌-◌, ◌*◌, ◌/◌, ◌^◌, Bool, true, false, not, ◌&&◌, ◌||◌, List, [], ◌∷◌, if◌then◌else◌, ltb,
  leb, ◌==◌, Option, none, some, ℤ, pos, negsuc, ◌+ℤ◌, ◌-ℤ◌, ◌*ℤ◌, ltb_ℤ, gcd, division_rounded_up,
  length,
}
use cube_conquer_pb.Constraint.{Lit, Term, WConstraint, var_of, lit_eq, constant_constraint}
use cube_conquer_pb.Constraint.Lookup.{get_coefficient_binary_search}

-- newCoeffs with newLits, minus newConstant as it stands after the loops, and `clash`.
pub record Merged : Type 0 where
  pub terms : List Term
  pub cancelled : ℕ
  pub clash : Bool

abbrev pub push : Term → Merged → Merged
push t m = record m { terms = t ∷ m.terms }

-- Two terms of one variable: `k1 * coef1` of `lit1` and `k2 * coef2` of `lit2`.
unfoldable pub combine : ℕ → Lit → ℕ → Lit → Merged → Merged
combine a lit1 b lit2 m =
    if lit_eq lit1 lit2
    then push (b + a, lit1) m
    else if leb b a
    then (let m' = record m { cancelled = m.cancelled + b } in
        if a - b == 0 then m' else push (a - b, lit1) m')
    else (let m' = record m { cancelled = m.cancelled + a } in
        if b - a == 0 then m' else push (b - a, lit2) m')

unfoldable pub scale : ℕ → List Term → List Term
scale k [] = []
scale k ((a, l) ∷ ts) = (k * a, l) ∷ scale k ts

-- The three loops of `applyCut`: both lists by increasing variable, then what is left of either.
unfoldable pub merge : ℕ → ℕ → ℕ → List Term → List Term → Merged
unfolding combine scale
merge v k1 k2 [] ts2 = record { terms = scale k2 ts2; cancelled = 0; clash = false }
merge v k1 k2 (t1 ∷ ts1) [] = record { terms = scale k1 (t1 ∷ ts1); cancelled = 0; clash = false }
merge v k1 k2 ((a1, l1) ∷ ts1) ((a2, l2) ∷ ts2) = elim (ltb (var_of (a1, l1)) (var_of (a2, l2))) [
  | true ↦ push (k1 * a1, l1) (merge v k1 k2 ts1 ((a2, l2) ∷ ts2))
  | false ↦ elim (ltb (var_of (a2, l2)) (var_of (a1, l1))) [
    | true ↦ push (k2 * a2, l2) (merge v k1 k2 ((a1, l1) ∷ ts1) ts2)
    | false ↦
        let m = merge v k1 k2 ts1 ts2 in
        combine (k1 * a1) l1 (k2 * a2) l2
          (record m { clash = m.clash || not (var_of (a1, l1) == v) })
  ]
]

-- gcdV: the gcd of the coefficients that are at most the constant; `none` is the source's -1.
unfoldable pub gcd_upto : ℕ → Option ℕ → List Term → Option ℕ
unfolding gcd
gcd_upto c g [] = g
gcd_upto c g ((a, l) ∷ ts) =
    gcd_upto c (if leb a c then (elim g [ none ↦ some a | some d ↦ some (gcd d a) ]) else g) ts

-- Divide each coefficient and shave it to the new constant.
unfoldable pub divide_and_shave : ℕ → ℕ → List Term → List Term
unfolding division_rounded_up
divide_and_shave g c [] = []
divide_and_shave g c ((a, l) ∷ ts) =
    let d = division_rounded_up a g in (if ltb c d then c else d, l) ∷ divide_and_shave g c ts

abbrev pub two_to_the_30th : ℕ
two_to_the_30th = 2 ^ 30

-- `overflow` is the result `true` of the source: a tautology, or a constant that no int holds. With
-- `undefined`, a value was computed that `T` does not hold.
pub data CutResult : Type 0 where
  undefined : CutResult
  overflow : CutResult
  inconsistent : WConstraint → CutResult
  cut : WConstraint → CutResult

unfoldable pub cut_divisor : ℕ → List Term → ℕ
unfolding gcd_upto
cut_divisor c ts = elim (gcd_upto c none ts) [ none ↦ c | some g ↦ g ]

-- The part of `applyCut` behind the loops, for a positive `newConstant`.
unfoldable pub normalize_cut : ℕ → List Term → CutResult
unfolding cut_divisor divide_and_shave division_rounded_up constant_constraint
normalize_cut c ts =
    if length ts == 0
    then inconsistent (constant_constraint false)
    else (let g = cut_divisor c ts in
        let c' = division_rounded_up c g in
        if ltb two_to_the_30th c'
        then overflow
        else cut (record { lhs = divide_and_shave g c' ts; rhs = pos c' }))

unfoldable pub new_constant : ℕ → ℕ → WConstraint → WConstraint → ℕ → ℤ
unfolding ◌+ℤ◌ ◌-ℤ◌ ◌*ℤ◌
new_constant k1 k2 c1 c2 cancelled = pos k1 *ℤ c1.rhs +ℤ pos k2 *ℤ c2.rhs -ℤ pos cancelled

-- if (newConstant<=0) return true
unfoldable pub finish_cut : ℤ → List Term → CutResult
unfolding normalize_cut
finish_cut (negsuc _) ts = overflow
finish_cut (pos n) ts = if n == 0 then overflow else normalize_cut n ts

-- The multipliers k1 = a2 / g and k2 = a1 / g.
abbrev pub multiplier : ℕ → ℕ → ℕ
multiplier a b = b / gcd a b

unfoldable pub apply_cut_with : ℕ → ℕ → ℕ → WConstraint → WConstraint → Bool × CutResult
unfolding merge new_constant finish_cut
apply_cut_with v k1 k2 c1 c2 =
    let m = merge v k1 k2 c1.lhs c2.lhs in
    (m.clash, finish_cut (new_constant k1 k2 c1 c2 m.cancelled) m.terms)

-- The range of T is [-limit, limit): an int when the product of the constants is below 2^30, or a long
-- long.
unfoldable pub limit : ℤ → ℤ → ℕ
unfolding ◌*ℤ◌
limit r1 r2 = if ltb_ℤ (r1 *ℤ r2) (pos two_to_the_30th) then 2 ^ 31 else 2 ^ 63

abbrev pub fits : ℕ → ℤ → Bool
fits lim (pos n) = ltb n lim
fits lim (negsuc n) = ltb n lim

unfoldable pub all_below : ℕ → List Term → Bool
all_below lim [] = true
all_below lim ((a, l) ∷ ts) = ltb a lim && all_below lim ts

-- T holds the products, the new coefficients, the cancelled amount that newConstant falls to in the
-- loops, and the sums behind them.
unfoldable pub in_range : ℕ → ℕ → ℕ → WConstraint → WConstraint → Merged → Bool
unfolding scale all_below new_constant ◌+ℤ◌ ◌*ℤ◌
in_range lim k1 k2 c1 c2 m =
    all_below lim (scale k1 c1.lhs)
    && (all_below lim (scale k2 c2.lhs)
        && (all_below lim m.terms
            && (leb m.cancelled lim
                && (fits lim (pos k1 *ℤ c1.rhs)
                    && (fits lim (pos k2 *ℤ c2.rhs)
                        && (fits lim (pos k1 *ℤ c1.rhs +ℤ pos k2 *ℤ c2.rhs)
                            && fits lim (new_constant k1 k2 c1 c2 m.cancelled)))))))

-- applyCut<T>
unfoldable pub apply_cut_in : ℕ → ℕ → ℕ → ℕ → WConstraint → WConstraint → Bool × CutResult
unfolding apply_cut_with merge in_range
apply_cut_in lim v k1 k2 c1 c2 =
    let m = merge v k1 k2 c1.lhs c2.lhs in
    if in_range lim k1 k2 c1 c2 m then apply_cut_with v k1 k2 c1 c2 else (m.clash, undefined)

-- applyCut: `clash` and the cut.
unfoldable pub apply_cut : ℕ → WConstraint → WConstraint → Bool × CutResult
unfolding apply_cut_in get_coefficient_binary_search gcd limit
apply_cut v c1 c2 =
    let a1 = get_coefficient_binary_search c1.lhs v in
    let a2 = get_coefficient_binary_search c2.lhs v in
    apply_cut_in (limit c1.rhs c2.rhs) v (multiplier a1 a2) (multiplier a2 a1) c1 c2
