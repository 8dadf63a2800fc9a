-- ===== src/Constraint.antt =====
-- Literals, terms and `WConstraint` (src/WConstraint.h, src/Constraint.h, src/Functions.h).
--
-- A literal is the C++ int `v` or `-v` with `v > 0`: its sign is the constructor, `abs` is `var` and
-- unary minus is `neg`. The int 0, which stands for "no literal", is `none` where a function returns it.
-- A coefficient is a ℕ (the class keeps `coeff > 0`), and the constant `rhs` is an integer, since
-- `removeDuplicates` and `addConstraint` subtract from it.
pub mod Semantics
pub mod Duplicates
pub mod Normal
pub mod Simplify
pub mod Lookup
pub mod Cut
pub mod Rounding
pub mod Returns
use cube_conquer_pb.Base.{
  ℕ, zero, suc, ◌+◌, ◌-◌, Bool, true, false, ◌&&◌, List, [], ◌∷◌, ◌++◌, ltb, leb, ◌==◌,
  if◌then◌else◌, ℤ, pos, negsuc, ◌-ℤ◌, sort_by, length,
}

pub data Lit : Type 0 where
  plus : ℕ → Lit
  minus : ℕ → Lit

-- abs(lit)
abbrev pub var : Lit → ℕ
var (plus v) = v
var (minus v) = v

-- lit > 0
abbrev pub is_positive : Lit → Bool
is_positive (plus v) = true
is_positive (minus v) = false

-- -lit
abbrev pub neg : Lit → Lit
neg (plus v) = minus v
neg (minus v) = plus v

abbrev pub lit_eq : Lit → Lit → Bool
lit_eq (plus v) (plus w) = v == w
lit_eq (minus v) (minus w) = v == w
lit_eq (plus v) (minus w) = false
lit_eq (minus v) (plus w) = false

-- pair<int,int>: <coeff,lit>
abbrev pub Term : Type 0
Term = ℕ × Lit

abbrev pub var_of : Term → ℕ
var_of t = var t.1

-- lhs >= rhs
pub record WConstraint : Type 0 where
  pub lhs : List Term
  pub rhs : ℤ

-- WConstraint(bool b): 0 >= 0, or the contradiction 0 >= 1.
unfoldable pub constant_constraint : Bool → WConstraint
constant_constraint b = record { lhs = []; rhs = if b then pos 0 else pos 1 }

-- isOrderedByIncreasingVariable: the variables strictly increase.
unfoldable pub is_ordered_by_increasing_variable : List Term → Bool
is_ordered_by_increasing_variable [] = true
is_ordered_by_increasing_variable (t ∷ []) = true
is_ordered_by_increasing_variable (t ∷ u ∷ ts) =
    ltb (var_of t) (var_of u) && is_ordered_by_increasing_variable (u ∷ ts)

-- isOrderedByDecreasingCoefficient
unfoldable pub is_ordered_by_decreasing_coefficient : List Term → Bool
is_ordered_by_decreasing_coefficient [] = true
is_ordered_by_decreasing_coefficient (t ∷ []) = true
is_ordered_by_decreasing_coefficient (t ∷ u ∷ ts) =
    leb u.0 t.0 && is_ordered_by_decreasing_coefficient (u ∷ ts)

unfoldable pub sort_by_increasing_variable : WConstraint → WConstraint
unfolding sort_by
sort_by_increasing_variable c = record c {
  lhs = sort_by (λ m1 m2. ltb (var_of m1) (var_of m2)) c.lhs;
}

unfoldable pub sort_by_decreasing_coefficient : WConstraint → WConstraint
unfolding sort_by
sort_by_decreasing_coefficient c = record c { lhs = sort_by (λ m1 m2. ltb m2.0 m1.0) c.lhs }

-- One block of `removeDuplicates`: the sums of the coefficients of `v` and of `-v`, and the rest.
pub record Block : Type 0 where
  pub pos_coeffs : ℕ
  pub neg_coeffs : ℕ
  pub rest : List Term

-- while (i < lhs.size() and abs(lhs[i].second) == v) …
unfoldable pub scan_block : ℕ → ℕ → ℕ → List Term → Block
scan_block v p n [] = record { pos_coeffs = p; neg_coeffs = n; rest = [] }
scan_block v p n (t ∷ ts) = elim (var_of t == v) [
  | true ↦ elim (is_positive t.1) [
    | true ↦ scan_block v (p + t.0) n ts
    | false ↦ scan_block v p (n + t.0) ts
  ]
  | false ↦ record { pos_coeffs = p; neg_coeffs = n; rest = t ∷ ts }
]

-- What the end of a block appends to `newLhs` and takes from `newRhs`.
unfoldable pub close_block : ℕ → Block → WConstraint → WConstraint
close_block v b out =
    if ltb b.neg_coeffs b.pos_coeffs
    then record {
      lhs = out.lhs ++ (b.pos_coeffs - b.neg_coeffs, plus v) ∷ [];
      rhs = out.rhs -ℤ pos b.neg_coeffs;
    }
    else if ltb b.pos_coeffs b.neg_coeffs
    then record {
      lhs = out.lhs ++ (b.neg_coeffs - b.pos_coeffs, minus v) ∷ [];
      rhs = out.rhs -ℤ pos b.pos_coeffs;
    }
    else record out { rhs = out.rhs -ℤ pos b.pos_coeffs }

-- The outer loop of `removeDuplicates`; every round consumes a term, so the size is fuel enough.
unfoldable pub remove_loop : ℕ → List Term → WConstraint → WConstraint
unfolding scan_block close_block
remove_loop fuel [] out = out
remove_loop zero (t ∷ ts) out = out
remove_loop (suc fuel) (t ∷ ts) out =
    let b = scan_block (var_of t) 0 0 (t ∷ ts) in
    remove_loop fuel b.rest (close_block (var_of t) b out)

unfoldable pub remove_duplicates : WConstraint → WConstraint
unfolding remove_loop
remove_duplicates c = remove_loop (length c.lhs) c.lhs (record { lhs = []; rhs = c.rhs })

-- isClause
unfoldable pub all_coefs_one : List Term → Bool
all_coefs_one [] = true
all_coefs_one (t ∷ ts) = t.0 == 1 && all_coefs_one ts

unfoldable pub is_clause : WConstraint → Bool
unfolding all_coefs_one
is_clause c = elim c.rhs [ pos r ↦ r == 1 && all_coefs_one c.lhs | negsuc _ ↦ false ]

-- isInconsistent: rhs > 0 and lhs.size() == 0
unfoldable pub is_inconsistent : WConstraint → Bool
is_inconsistent c = elim c.rhs [ pos r ↦ ltb 0 r && length c.lhs == 0 | negsuc _ ↦ false ]

-- coeffsStrictlyPositive
abbrev pub coeffs_strictly_positive : List Term → Bool
coeffs_strictly_positive [] = true
coeffs_strictly_positive (t ∷ ts) = ltb 0 t.0 && coeffs_strictly_positive ts
