-- ===== src/Cubes/Laws.antt =====
-- What cube generation relies on in a backend: its decisions form a stack, a failed propagation is a
-- refutation, and a literal that is assumed is no longer undefined.
use cube_conquer_pb.Base.{ℕ, ◌≡◌, true, false, List, ◌∷◌, drop, All, total, if◌then◌else◌}
use cube_conquer_pb.Constraint.{Lit, plus, var}
use cube_conquer_pb.Constraint.Semantics.{Assignment, holds}
use cube_conquer_pb.Cubes.{Backend}

-- The assignment makes each literal true.
abbrev pub AllHold : Assignment → List Lit → Type 0
AllHold σ ls = All (λ l. holds σ l ≡ true) ls

-- `Solves` tells the assignments that satisfy the constraints of the solver.
pub record Laws (b : Backend) (Solves : Assignment → Type 0) : Type 0 where
  -- the last decision first
  pub decisions : b.State → List Lit
  pub decisions-assume :
      (l : Lit) (s : b.State) → decisions (b.assume_and_propagate l s).1 ≡ l ∷ decisions s
  pub decisions-backtrack :
      (n : ℕ) (s : b.State) → decisions (b.backtrack n s) ≡ drop n (decisions s)
  pub refutes :
      (σ : Assignment) (l : Lit) (s : b.State)
      → (b.assume_and_propagate l s).0 ≡ false
      → Solves σ
      → AllHold σ (decisions s)
      → holds σ l ≡ false
  pub undef-assume :
      (l m : Lit) (s : b.State)
      → b.is_undef_lit (b.assume_and_propagate l s).1 m ≡ true
      → b.is_undef_lit s m ≡ true
  pub undef-backtrack :
      (l m : Lit) (s : b.State)
      → b.is_undef_lit (b.backtrack 1 (b.assume_and_propagate l s).1) m ≡ b.is_undef_lit s m
  pub defined-assume :
      (l : Lit) (s : b.State) → b.is_undef_lit (b.assume_and_propagate l s).1 (plus (var l)) ≡ false

-- The number of variables that are undefined.
abbrev pub undefs : (b : Backend) → b.State → List ℕ → ℕ
undefs b s vs = total (λ v. if b.is_undef_lit s (plus v) then 1 else 0) vs
