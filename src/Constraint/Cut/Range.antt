-- ===== src/Constraint/Cut/Range.antt =====
-- The integer type that `applyCut` chooses (src/ConflictAnalysis.cpp) holds what it computes for
-- saturated constraints, as long as it holds what the loops cancel.
use native.Mathlib.Nat.{mul-le-mul_left, mul-div_cancel_left, mul-le-mul}
use cube_conquer_pb.Base.{
  ℕ, zero, suc, ◌+◌, ◌-◌, ◌*◌, ◌/◌, ◌^◌, ◌≡◌, refl, ◌∙◌, ap, inl, inr, true, ◌||◌, not, List, [],
  ◌∷◌, ltb, ◌==◌, some, get_elem?, pos, ltb_ℤ, ◌+ℤ◌, ◌-ℤ◌, ◌*ℤ◌, gcd, gcd-Divides, arith,
  Bool-cases, Option-cases, All, All-get, All-map_le, ◌≤◌, ◌<◌, length,
}
use cube_conquer_pb.Constraint.{Lit, Term, WConstraint, var_of}
use cube_conquer_pb.Constraint.Lookup.{
  binary_search, get_coefficient_literal_binary_search, get_coefficient_binary_search,
}
use cube_conquer_pb.Constraint.Cut.{
  Merged, combine, scale, merge, multiplier, two_to_the_30th, new_constant, limit, fits, all_below,
  in_range, apply_cut_with, apply_cut_in, apply_cut,
}

abbrev AtMost : ℕ → Term → Type 0
AtMost n t = t.0 ≤ n

-- No coefficient is above the constant, which is an int of at least 1.
pub record IsSaturated (c : WConstraint) (r : ℕ) : Type 0 where
  pub constant : c.rhs ≡ pos r
  pub positive : 0 < r
  pub small : r < 2 ^ 31
  pub shaved : All (λ t. t.0 ≤ r) c.lhs

binary_search-All :
    (P : Term → Type 0) (fuel : ℕ) (lhs : List Term) (v l r : ℕ) (t : Term)
    → All P lhs
    → binary_search fuel lhs v l r ≡ some t
    → P t
unfolding binary_search
binary_search-All P zero lhs v l r t h e = cc
binary_search-All P (suc fuel) lhs v l r t h e = elim (Bool-cases (ltb l r)) [
  | inr f ↦ absurd (cc (rw (f, binary_search) at e))
  | inl f ↦ elim (Option-cases (get_elem? lhs ((l + r - 1) / 2))) [
    | inl g ↦ absurd (cc (rw (f, g, binary_search) at e))
    | inr (u, g) ↦ elim (Bool-cases (ltb (var_of u) v)) [
      | inl a ↦
          binary_search-All P fuel lhs v ((l + r - 1) / 2 + 1) r t h
            (rw (f, g, a, binary_search) at e)
      | inr a ↦ elim (Bool-cases (ltb v (var_of u))) [
        | inl b ↦
            binary_search-All P fuel lhs v l ((l + r - 1) / 2) t h
              (rw (f, g, a, b, binary_search) at e)
        | inr b ↦
            let same : some u ≡ some t = rw (f, g, a, b, binary_search) at e in
            All-get P lhs ((l + r - 1) / 2) t h (g ∙ same)
      ]
    ]
  ]
]

coefficient-AtMost :
    (n : ℕ) (lhs : List Term) (v : ℕ) → All (AtMost n) lhs → get_coefficient_binary_search lhs v ≤ n
unfolding get_coefficient_binary_search get_coefficient_literal_binary_search
coefficient-AtMost n lhs v h = elim (Option-cases (get_coefficient_literal_binary_search lhs v)) [
  | inl e ↦ rw (e, get_coefficient_binary_search) (omega arith)
  | inr (t, e) ↦
      rw (e, get_coefficient_binary_search)
        (binary_search-All (AtMost n) (suc (length lhs)) lhs v 0 (length lhs) t h e)
]

multiplier-AtMost : (a b : ℕ) → 0 < a → 0 < b → multiplier a b ≤ b
multiplier-AtMost a b h k =
    let (q, f) = (gcd-Divides a b).1 in
    let g : 0 < gcd a b = ground arith in
    let same : multiplier a b ≡ q = ap (λ (t : ℕ). t / gcd a b) f ∙ mul-div_cancel_left q g in
    rw same (grind (arith, f, g))

scale-AtMost :
    (k n m : ℕ) (ts : List Term) → k * n ≤ m → All (AtMost n) ts → All (AtMost m) (scale k ts)
unfolding scale
scale-AtMost k n m [] h p = tt
scale-AtMost k n m ((a, l) ∷ ts) h p =
    (let le = mul-le-mul_left k p.0 in omega (arith, le, h), scale-AtMost k n m ts h p.1)

combine-AtMost :
    (n a b : ℕ) (l1 l2 : Lit) (m : Merged)
    → a ≤ n
    → b ≤ n
    → All (AtMost (2 * n)) m.terms
    → All (AtMost (2 * n)) (combine a l1 b l2 m).terms
unfolding combine
combine-AtMost n a b l1 l2 m h k p = ground arith

all_below-AtMost :
    (n lim : ℕ) (ts : List Term) → n < lim → All (AtMost n) ts → all_below lim ts ≡ true
unfolding all_below
all_below-AtMost n lim [] h p = refl
all_below-AtMost n lim ((a, l) ∷ ts) h p = ground (arith, all_below-AtMost n lim ts h p.1, p.0)

twice : (n : ℕ) (ts : List Term) → All (AtMost n) ts → All (AtMost (2 * n)) ts
twice n ts h = All-map_le (AtMost n) (AtMost (2 * n)) ts (λ t k. omega (arith, k)) h

-- The new coefficients are at most twice the products.
merge-AtMost :
    (n v k1 k2 : ℕ) (ts1 ts2 : List Term)
    → All (AtMost n) (scale k1 ts1)
    → All (AtMost n) (scale k2 ts2)
    → All (AtMost (2 * n)) (merge v k1 k2 ts1 ts2).terms
unfolding merge scale
merge-AtMost n v k1 k2 [] ts2 p1 p2 = twice n (scale k2 ts2) p2
merge-AtMost n v k1 k2 (t1 ∷ ts1) [] p1 p2 = twice n (scale k1 (t1 ∷ ts1)) p1
merge-AtMost n v k1 k2 ((a1, l1) ∷ ts1) ((a2, l2) ∷ ts2) p1 p2 =
    elim (Bool-cases (ltb (var_of (a1, l1)) (var_of (a2, l2)))) [
      | inl e ↦
          let first = p1.0 in
          rw (e, merge) (omega (arith, first), merge-AtMost n v k1 k2 ts1 ((a2, l2) ∷ ts2) p1.1 p2)
      | inr e ↦ elim (Bool-cases (ltb (var_of (a2, l2)) (var_of (a1, l1)))) [
        | inl f ↦
            let first = p2.0 in
            rw (e, f, merge)
              (omega (arith, first), merge-AtMost n v k1 k2 ((a1, l1) ∷ ts1) ts2 p1 p2.1)
        | inr f ↦
            let m = merge v k1 k2 ts1 ts2 in
            let m' = record m { clash = m.clash || not (var_of (a1, l1) == v) } in
            rw (e, f, merge)
              (combine-AtMost n (k1 * a1) (k2 * a2) l1 l2 m' p1.0 p2.0
                (merge-AtMost n v k1 k2 ts1 ts2 p1.1 p2.1))
      ]
    ]

fits-sub : (lim x n : ℕ) → x < lim → n ≤ lim → fits lim (pos x -ℤ pos n) ≡ true
unfolding ◌-ℤ◌
fits-sub lim x n h k = ground arith

-- The limit of the type leaves room for the sum of two products.
limit-double : (r1 r2 : ℕ) → r1 < 2 ^ 31 → r2 < 2 ^ 31 → 2 * (r1 * r2) < limit (pos r1) (pos r2)
unfolding limit ◌*ℤ◌
limit-double r1 r2 h1 h2 =
    let most : r1 * r2 ≤ (2 ^ 31 - 1) * (2 ^ 31 - 1) =
      mul-le-mul {n₂ = 2 ^ 31 - 1} {m₂ = 2 ^ 31 - 1} (omega arith) (omega arith) in
    elim (Bool-cases (ltb_ℤ (pos r1 *ℤ pos r2) (pos two_to_the_30th))) [
      | inl e ↦ rw (e, limit) (ground (arith, e))
      | inr e ↦ rw (e, limit) (omega (arith, most))
    ]

pos-mul : (k r : ℕ) → pos k *ℤ pos r ≡ pos (k * r)
unfolding ◌*ℤ◌
pos-mul k r = ground arith

pos-add : (a b : ℕ) → pos a +ℤ pos b ≡ pos (a + b)
unfolding ◌+ℤ◌
pos-add a b = ground arith

-- For two saturated constraints, and multipliers that are at most the constant of the other one, the type
-- holds every value but the amount that the loops cancel, which is a condition.
in_range-saturated :
    (v k1 k2 r1 r2 : ℕ) (c1 c2 : WConstraint)
    → IsSaturated c1 r1
    → IsSaturated c2 r2
    → k1 ≤ r2
    → k2 ≤ r1
    → (merge v k1 k2 c1.lhs c2.lhs).cancelled ≤ limit c1.rhs c2.rhs
    → in_range (limit c1.rhs c2.rhs) k1 k2 c1 c2 (merge v k1 k2 c1.lhs c2.lhs) ≡ true
unfolding in_range new_constant
in_range-saturated v k1 k2 r1 r2 c1 c2 s1 s2 h1 h2 few =
    let n = r1 * r2 in
    let m = merge v k1 k2 c1.lhs c2.lhs in
    let lim = limit (pos r1) (pos r2) in
    let room = limit-double r1 r2 s1.small s2.small in
    let le1 : k1 * r1 ≤ n = grind (arith, mul-le-mul_left r1 h1) in
    let le2 : k2 * r2 ≤ n = grind (arith, mul-le-mul_left r2 h2) in
    let few' : m.cancelled ≤ lim = rw (s1.constant, s2.constant) at few in
    let p1 = scale-AtMost k1 r1 n c1.lhs le1 s1.shaved in
    let p2 = scale-AtMost k2 r2 n c2.lhs le2 s2.shaved in
    let b1 = all_below-AtMost n lim (scale k1 c1.lhs) (omega (arith, room)) p1 in
    let b2 = all_below-AtMost n lim (scale k2 c2.lhs) (omega (arith, room)) p2 in
    let b3 =
      all_below-AtMost (2 * n) lim m.terms room (merge-AtMost n v k1 k2 c1.lhs c2.lhs p1 p2) in
    let b4 = fits-sub lim (k1 * r1 + k2 * r2) m.cancelled (omega (arith, le1, le2, room)) few' in
    rw
      (
        s1.constant,
        s2.constant,
        b1,
        b2,
        b3,
        pos-mul k1 r1,
        pos-mul k2 r2,
        pos-add (k1 * r1) (k2 * r2),
        b4,
      )
      (ground (arith, le1, le2, room, few'))

-- The multipliers of `applyCut` and the amount that its loops cancel.
abbrev pub k_of : ℕ → WConstraint → WConstraint → ℕ
k_of v c1 c2 =
    multiplier (get_coefficient_binary_search c1.lhs v) (get_coefficient_binary_search c2.lhs v)

abbrev pub cancelled_of : ℕ → WConstraint → WConstraint → ℕ
cancelled_of v c1 c2 = (merge v (k_of v c1 c2) (k_of v c2 c1) c1.lhs c2.lhs).cancelled

-- For two saturated constraints with constants that are ints of at least 1, in which the variable occurs,
-- and when the amount that the loops cancel is at most 2^31 where the product of the constants is below
-- 2^30 and at most 2^63 else, the integer type that `applyCut` chooses holds every value that it
-- computes: the result is the cut over numbers without a bound.
pub apply_cut-fits :
    (v r1 r2 : ℕ) (c1 c2 : WConstraint)
    → IsSaturated c1 r1
    → IsSaturated c2 r2
    → 0 < get_coefficient_binary_search c1.lhs v
    → 0 < get_coefficient_binary_search c2.lhs v
    → cancelled_of v c1 c2 ≤ limit c1.rhs c2.rhs
    → apply_cut v c1 c2 ≡ apply_cut_with v (k_of v c1 c2) (k_of v c2 c1) c1 c2
unfolding apply_cut apply_cut_in
apply_cut-fits v r1 r2 c1 c2 s1 s2 a1 a2 few =
    let k1 = k_of v c1 c2 in
    let k2 = k_of v c2 c1 in
    let up1 = coefficient-AtMost r1 c1.lhs v s1.shaved in
    let up2 = coefficient-AtMost r2 c2.lhs v s2.shaved in
    let h1 = multiplier-AtMost _ _ a1 a2 in
    let h2 = multiplier-AtMost _ _ a2 a1 in
    let le1 : k1 ≤ r2 = omega (arith, h1, up2) in
    let le2 : k2 ≤ r1 = omega (arith, h2, up1) in
    rw (in_range-saturated v k1 k2 r1 r2 c1 c2 s1 s2 le1 le2 few) refl
