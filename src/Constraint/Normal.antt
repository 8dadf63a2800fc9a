-- ===== src/Constraint/Normal.antt =====
-- The order and the signs that `removeDuplicates` leaves, and the normalisation
-- `sortByIncreasingVariable; removeDuplicates; sortByDecreasingCoefficient` that precedes every
-- `addAndPropagatePBConstraint` (src/NativeBackend.cpp, src/cubePB.cpp).
use mathlib.Core.Path.{ap₂}
use mathlib.Core.List.{append-nil, append_assoc}
use cube_conquer_pb.Base.{
  ℕ, zero, suc, ◌+◌, ◌-◌, ◌∙◌, ℤ, ◌≡◌, refl, ◌↔◌, ◌⊎◌, inl, inr, List, [], ◌∷◌, ◌++◌, arith, ltb,
  Bool-cases, All, All-append, All-map_le, Ordered, Ordered-last, ◌≤◌, ◌<◌, length, ◌==◌, pos,
  All-sort_by, Ordered-sort_by, total-sort_by, ◌-ℤ◌,
}
use cube_conquer_pb.Constraint.{
  plus, minus, Term, WConstraint, var_of, Block, scan_block, close_block, remove_loop,
  remove_duplicates, sort_by_increasing_variable, sort_by_decreasing_coefficient,
}
use cube_conquer_pb.Constraint.Semantics.{Assignment, weight, Satisfies, IsPositive, VarLt, VarLe}
use cube_conquer_pb.Constraint.Duplicates.{scan_block-length-lt, remove_duplicates-Satisfies}

All-scan_block {κ} :
    (P : Term → Type κ) (v p n : ℕ) (ts : List Term) → All P ts → All P (scan_block v p n ts).rest
unfolding scan_block
All-scan_block P v p n [] h = tt
All-scan_block P v p n ((c, plus w) ∷ ts) h = elim (Bool-cases (w == v)) [
  | inl e ↦ rw (e, scan_block) (All-scan_block P v (p + c) n ts h.1)
  | inr e ↦ rw (e, scan_block) h
]
All-scan_block P v p n ((c, minus w) ∷ ts) h = elim (Bool-cases (w == v)) [
  | inl e ↦ rw (e, scan_block) (All-scan_block P v p (n + c) ts h.1)
  | inr e ↦ rw (e, scan_block) h
]

-- Behind a block of `v` in an ordered list every variable is above `v`.
abbrev Behind : ℕ → List Term → Type 0
Behind v ts = All (λ u. v < var_of u) ts × Ordered VarLe ts

scan_block-Behind :
    (v p n : ℕ) (ts : List Term)
    → All (λ u. v ≤ var_of u) ts
    → Ordered VarLe ts
    → Behind v (scan_block v p n ts).rest
unfolding scan_block
scan_block-Behind v p n [] h o = (tt, tt)
scan_block-Behind v p n ((c, plus w) ∷ ts) h o = elim (Bool-cases (w == v)) [
  | inl e ↦ rw (e, scan_block) (scan_block-Behind v (p + c) n ts h.1 o.1)
  | inr e ↦
      let above : v < w = ground (arith, h.0) in
      rw (e, scan_block)
        ((above, All-map_le (VarLe (c, plus w)) (λ u. v < var_of u) ts (λ u k. omega arith) o.0), o)
]
scan_block-Behind v p n ((c, minus w) ∷ ts) h o = elim (Bool-cases (w == v)) [
  | inl e ↦ rw (e, scan_block) (scan_block-Behind v p (n + c) ts h.1 o.1)
  | inr e ↦
      let above : v < w = ground (arith, h.0) in
      rw (e, scan_block)
        (
          (above, All-map_le (VarLe (c, minus w)) (λ u. v < var_of u) ts (λ u k. omega arith) o.0),
          o,
        )
]

-- A block adds one term of its variable with a positive coefficient, or none.
close_block-cases :
    (v : ℕ) (b : Block) (out : WConstraint)
    → ((close_block v b out).lhs ≡ out.lhs)
      ⊎ ((x : Term) × ((close_block v b out).lhs ≡ out.lhs ++ x ∷ [])
          × (var_of x ≡ v)
          × IsPositive x)
unfolding close_block
close_block-cases v b out = elim (Bool-cases (ltb b.neg_coeffs b.pos_coeffs)) [
  | inl e ↦ inr ((b.pos_coeffs - b.neg_coeffs, plus v), rw e refl, refl, ground arith)
  | inr e ↦ elim (Bool-cases (ltb b.pos_coeffs b.neg_coeffs)) [
    | inl f ↦ inr ((b.neg_coeffs - b.pos_coeffs, minus v), rw (e, f) refl, refl, ground arith)
    | inr f ↦ inl (rw (e, f) refl)
  ]
]

-- The terms written so far are in order and stand before the terms that are left.
record Ready (out ts : List Term) : Type 0 where
  ordered : Ordered VarLt out
  positive : All IsPositive out
  below : All (λ t. All (VarLt t) ts) out

Ready-add :
    (out ts rest : List Term) (t x : Term)
    → Ready out (t ∷ ts)
    → ((P : Term → Type 0) → All P (t ∷ ts) → All P rest)
    → Behind (var_of t) rest
    → var_of x ≡ var_of t
    → IsPositive x
    → Ready (out ++ x ∷ []) rest
Ready-add out ts rest t x r keep behind e h = record {
  ordered =
      Ordered-last VarLt out x r.ordered (
        All-map_le (λ y. All (VarLt y) (t ∷ ts)) (λ y. VarLt y x) out (λ y k. omega arith) r.below);
  positive = All-append IsPositive out (x ∷ []) r.positive (h, tt);
  below =
      All-append (λ y. All (VarLt y) rest) out (x ∷ [])
        (All-map_le (λ y. All (VarLt y) (t ∷ ts)) (λ y. All (VarLt y) rest) out
          (λ y. keep (VarLt y)) r.below)
        (All-map_le (λ u. var_of t < var_of u) (VarLt x) rest (λ u k. omega arith) behind.0, tt);
}

Ready-skip :
    (out ts rest : List Term)
    → Ready out ts
    → ((P : Term → Type 0) → All P ts → All P rest)
    → Ready out rest
Ready-skip out ts rest r keep = record {
  ordered = r.ordered;
  positive = r.positive;
  below =
      All-map_le (λ y. All (VarLt y) ts) (λ y. All (VarLt y) rest) out (λ y. keep (VarLt y))
        r.below;
}

remove_loop-Ready :
    (fuel : ℕ) (ts : List Term) (out : WConstraint)
    → length ts ≤ fuel
    → Ordered VarLe ts
    → Ready out.lhs ts
    → Ready (remove_loop fuel ts out).lhs []
unfolding remove_loop
remove_loop-Ready fuel [] out h o r = r
remove_loop-Ready zero (t ∷ ts) out h o r = absurd (omega arith)
remove_loop-Ready (suc fuel) (t ∷ ts) out h o r =
    let v = var_of t in
    let b = scan_block v 0 0 (t ∷ ts) in
    let keep = λ (P : Term → Type 0) (k : All P (t ∷ ts)). All-scan_block P v 0 0 (t ∷ ts) k in
    let behind : Behind v b.rest = scan_block-Behind v 0 0 (t ∷ ts) (omega arith, o.0) o in
    let ready : Ready (close_block v b out).lhs b.rest = elim (close_block-cases v b out) [
      | inl e ↦ rw e (Ready-skip out.lhs (t ∷ ts) b.rest r keep)
      | inr (x, e, f, k) ↦ rw e (Ready-add out.lhs ts b.rest t x r keep behind f k)
    ] in
    remove_loop-Ready fuel b.rest (close_block v b out) (omega (arith, scan_block-length-lt t ts))
      behind.1 ready

-- On terms that are ordered by variable, repeated variables allowed, `remove_duplicates` leaves
-- strictly increasing variables and positive coefficients.
pub remove_duplicates-Ordered :
    (c : WConstraint)
    → Ordered VarLe c.lhs
    → Ordered VarLt (remove_duplicates c).lhs × All IsPositive (remove_duplicates c).lhs
unfolding remove_duplicates
remove_duplicates-Ordered c o =
    let start : Ready [] c.lhs = record { ordered = tt; positive = tt; below = tt } in
    let r =
      remove_loop-Ready (length c.lhs) c.lhs (record { lhs = []; rhs = c.rhs }) (omega arith) o
        start in
    (r.ordered, r.positive)

-- c.sortByIncreasingVariable(); c.removeDuplicates(); c.sortByDecreasingCoefficient();
unfoldable pub normalize : WConstraint → WConstraint
unfolding sort_by_increasing_variable remove_duplicates sort_by_decreasing_coefficient
normalize c = sort_by_decreasing_coefficient (remove_duplicates (sort_by_increasing_variable c))

-- The larger coefficient first.
abbrev pub CoefGe : Term → Term → Type 0
CoefGe t u = u.0 ≤ t.0

sort_by_increasing_variable-Ordered :
    (c : WConstraint) → Ordered VarLe (sort_by_increasing_variable c).lhs
unfolding sort_by_increasing_variable
sort_by_increasing_variable-Ordered c =
    Ordered-sort_by _ VarLe (λ x y z h k. omega arith) (λ x y h. ground arith)
      (λ x y h. ground arith) c.lhs

-- Normalisation keeps the meaning of a constraint under every assignment, and leaves positive
-- coefficients that do not increase.
pub normalize_lem :
    (c : WConstraint)
    → ((σ : Assignment) → Satisfies σ (normalize c) ↔ Satisfies σ c)
      × All IsPositive (normalize c).lhs
      × Ordered CoefGe (normalize c).lhs
unfolding normalize sort_by_increasing_variable sort_by_decreasing_coefficient
normalize_lem c =
    let s = sort_by_increasing_variable c in
    let d = remove_duplicates s in
    let o = remove_duplicates-Ordered s (sort_by_increasing_variable-Ordered c) in
    (
      λ σ.
          let same = remove_duplicates-Satisfies σ s in
          let up = total-sort_by (λ m1 m2. ltb (var_of m1) (var_of m2)) (weight σ) c.lhs in
          let down = total-sort_by (λ m1 m2. ltb m2.0 m1.0) (weight σ) d.lhs in
          (λ h. ground (arith, same, up, down), λ h. ground (arith, same, up, down)),
      All-sort_by (λ m1 m2. ltb m2.0 m1.0) IsPositive d.lhs o.1,
      Ordered-sort_by (λ m1 m2. ltb m2.0 m1.0) CoefGe (λ x y z h k. omega arith)
          (λ x y h. ground arith) (λ x y h. ground arith) d.lhs,
    )

scan_block-stops :
    (v p n : ℕ) (ts : List Term)
    → All (λ u. v < var_of u) ts
    → scan_block v p n ts ≡ record { pos_coeffs = p; neg_coeffs = n; rest = ts }
unfolding scan_block
scan_block-stops v p n [] h = refl
scan_block-stops v p n (t ∷ ts) h = ground (arith, h.0)

-ℤ_zero : (a : ℤ) → a -ℤ pos 0 ≡ a
unfolding ◌-ℤ◌
-ℤ_zero a = ground arith

-- A term whose variable does not come back is written as it was.
round_distinct :
    (t : Term) (ts : List Term) (out : WConstraint)
    → All (VarLt t) ts
    → IsPositive t
    → ((scan_block (var_of t) 0 0 (t ∷ ts)).rest ≡ ts)
      × (close_block (var_of t) (scan_block (var_of t) 0 0 (t ∷ ts)) out
          ≡ record { lhs = out.lhs ++ t ∷ []; rhs = out.rhs })
unfolding close_block scan_block
round_distinct (c, plus w) ts out o k = (
  ground (arith, scan_block-stops w (0 + c) 0 ts o),
  ground (arith, scan_block-stops w (0 + c) 0 ts o, -ℤ_zero out.rhs),
)
round_distinct (c, minus w) ts out o k = (
  ground (arith, scan_block-stops w 0 (0 + c) ts o),
  ground (arith, scan_block-stops w 0 (0 + c) ts o, -ℤ_zero out.rhs),
)

remove_loop-distinct :
    (fuel : ℕ) (ts : List Term) (out : WConstraint)
    → length ts ≤ fuel
    → Ordered VarLt ts
    → All IsPositive ts
    → remove_loop fuel ts out ≡ record { lhs = out.lhs ++ ts; rhs = out.rhs }
unfolding remove_loop
remove_loop-distinct fuel [] out h o k = ground (arith, append-nil out.lhs)
remove_loop-distinct zero (t ∷ ts) out h o k = absurd (omega arith)
remove_loop-distinct (suc fuel) (t ∷ ts) out h o k =
    let (e, f) = round_distinct t ts out o.0 k.0 in
    ap₂ (remove_loop fuel) e f
    ∙ (remove_loop-distinct fuel ts (record { lhs = out.lhs ++ t ∷ []; rhs = out.rhs })
          (omega arith) o.1 k.1
        ∙ rw append_assoc refl)

-- On a constraint with strictly increasing variables, as the assertion that opens `removeDuplicates`
-- asks, and positive coefficients, `remove_duplicates` changes nothing.
pub remove_duplicates-eq_self :
    (c : WConstraint) → Ordered VarLt c.lhs → All IsPositive c.lhs → remove_duplicates c ≡ c
unfolding remove_duplicates
remove_duplicates-eq_self c o k =
    remove_loop-distinct (length c.lhs) c.lhs (record { lhs = []; rhs = c.rhs }) (omega arith) o k
