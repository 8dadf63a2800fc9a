-- ===== src/Constraint/Semantics.antt =====
-- What a constraint says: an assignment satisfies it when the coefficients of its true literals reach
-- the constant. The theorems on the constraint routines are stated against this.
use cube_conquer_pb.Base.{
  ℕ, Bool, not, List, [], ◌∷◌, arith, if◌then◌else◌, pos, ◌≤ℤ◌, total, ◌≤◌, ◌<◌,
}
use cube_conquer_pb.Constraint.{Lit, plus, minus, Term, WConstraint, var_of}

-- The value of each variable.
abbrev pub Assignment : Type 0
Assignment = ℕ → Bool

abbrev pub holds : Assignment → Lit → Bool
holds σ (plus v) = σ v
holds σ (minus v) = not (σ v)

abbrev pub weight : Assignment → Term → ℕ
weight σ t = if holds σ t.1 then t.0 else 0

abbrev pub lhs_value : Assignment → List Term → ℕ
lhs_value σ ts = total (weight σ) ts

abbrev pub Satisfies : Assignment → WConstraint → Type 0
Satisfies σ c = c.rhs ≤ℤ pos (lhs_value σ c.lhs)

abbrev pub coef_of : Term → ℕ
coef_of t = t.0

abbrev pub IsPositive : Term → Type 0
IsPositive t = 0 < t.0

-- The variables strictly increase along the list.
abbrev pub VarLt : Term → Term → Type 0
VarLt t u = var_of t < var_of u

abbrev pub VarLe : Term → Term → Type 0
VarLe t u = var_of t ≤ var_of u

pub lhs_value-le-total : (σ : Assignment) (ts : List Term) → lhs_value σ ts ≤ total coef_of ts
lhs_value-le-total σ [] = omega arith
lhs_value-le-total σ (t ∷ ts) = ground (arith, lhs_value-le-total σ ts)
