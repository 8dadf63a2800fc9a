-- ===== src/CubeExamples.antt =====
-- The theorems on cube generation for a small backend: one clause, x1 or x2, over three variables.
use cube_conquer_pb.Base.{
  ◌⊎◌, Any, ℕ, ◌+◌, ◌-◌, ◌*◌, ◌≡◌, refl, Bool, true, false, not, ◌&&◌, ◌||◌, List, [], ◌∷◌, arith,
  length, drop, ltb, ◌==◌, some, Bool-cases, inl, inr,
}
use cube_conquer_pb.Constraint.{Lit, plus, minus, var, lit_eq}
use cube_conquer_pb.Constraint.Semantics.{Assignment, holds}
use cube_conquer_pb.Cubes.{Backend, Heuristic, Params, Gen, generate_cubes, split_cube}
use cube_conquer_pb.Cubes.Laws.{AllHold, Laws}
use cube_conquer_pb.Cubes.Branch.{Covers}
use cube_conquer_pb.Cubes.Cover.{generate_cubes-decisions, generate_cubes-Covers}
use cube_conquer_pb.Cubes.Subcubes.{split_cube-covers}
use cube_conquer_pb.Cubes.Split.{SomeWorker, generate_cubes-SomeWorker}

abbrev decided : Lit → List Lit → Bool
decided l [] = false
decided l (m ∷ ms) = lit_eq l m || decided l ms

abbrev mentions : ℕ → List Lit → Bool
mentions v [] = false
mentions v (m ∷ ms) = (v == var m) || mentions v ms

abbrev backend : Backend
backend = record {
  State = List Lit;
  assigned_vars = length;
  is_undef_lit = λ s l. not (mentions (var l) s);
  assume_and_propagate =
      λ l s. (not (decided (minus 1) (l ∷ s) && decided (minus 2) (l ∷ s)), l ∷ s);
  backtrack = drop;
}

abbrev heuristic : Heuristic
heuristic = record {
  Theta = ℕ;
  initial = 1000;
  grow = λ θ. θ + 50;
  shrink = λ θ. θ - 300;
  exceeds = λ work θ n. ltb (θ * n) (1000 * work);
  bonus = λ v e. 0;
  use_objective_priority = false;
  is_objective_var = λ v. false;
  total_objective_weight = 0;
}

abbrev Solves : Assignment → Type 0
Solves σ = (σ 1 || σ 2) ≡ true

abbrev params : Bool → Params
params split = record {
  vars = 1 ∷ 2 ∷ 3 ∷ [];
  n_vars = 3;
  distributed_split = split;
  optimizing = false;
}

negated : (x : Bool) → not x ≡ true → x ≡ false
negated true e = cc
negated false e = refl

decided-holds :
    (σ : Assignment) (v : ℕ) (s : List Lit) → AllHold σ s → decided (minus v) s ≡ true → σ v ≡ false
decided-holds σ v [] a e = cc
decided-holds σ v (plus w ∷ s) a e = decided-holds σ v s a.1 e
decided-holds σ v (minus w ∷ s) a e = elim (Bool-cases (v == w)) [
  | inl q ↦ let same : v ≡ w = ground (arith, q) in rw same (negated (σ w) a.0)
  | inr q ↦ decided-holds σ v s a.1 (rw (q) at e)
]

refutes :
    (σ : Assignment) (l : Lit) (s : List Lit)
    → (backend.assume_and_propagate l s).0 ≡ false
    → Solves σ
    → AllHold σ s
    → holds σ l ≡ false
refutes σ l s e m d = elim (Bool-cases (holds σ l)) [
  | inr y ↦ y
  | inl y ↦
      let one = decided-holds σ 1 (l ∷ s) (y, d) in
      let two = decided-holds σ 2 (l ∷ s) (y, d) in absurd (grind (arith, one, two, e, m))
]

abbrev laws : Laws backend Solves
laws = record {
  decisions = λ s. s;
  decisions-assume = λ l s. refl;
  decisions-backtrack = λ n s. refl;
  refutes = refutes;
  undef-assume = λ l m s e. ground (arith, e);
  undef-backtrack = λ l m s. refl;
  defined-assume = λ l s. ground arith;
}

abbrev only_two : Assignment
only_two v = v == 2

generate_cubes-decisions_example :
    (g : Gen backend heuristic (params true)) × (generate_cubes backend heuristic
        (params true)
        1
        2
        []
      ≡ some g)
    × (laws.decisions g.solver ≡ laws.decisions [])
generate_cubes-decisions_example =
    generate_cubes-decisions backend heuristic (params true) Solves laws 1 2 [] (omega arith)

generate_cubes-Covers_example :
    (g : Gen backend heuristic (params false)) × (generate_cubes backend heuristic
        (params false)
        0
        1
        []
      ≡ some g)
    × Covers (params false) only_two g
generate_cubes-Covers_example =
    generate_cubes-Covers backend heuristic (params false) Solves laws 0 1 [] only_two (omega arith)
      refl refl tt

generate_cubes-SomeWorker_example :
    SomeWorker backend heuristic
      (params true)
      Solves
      laws
      3
      (λ wid. generate_cubes backend heuristic (params true) wid 3 [])
      only_two
generate_cubes-SomeWorker_example =
    generate_cubes-SomeWorker backend heuristic (params true) Solves laws 3 [] only_two
      (omega arith) refl tt

split_cube-covers_example :
    (full : List (List Lit)) × (sat : Bool) × (split_cube backend heuristic
        (params false)
        (plus 2 ∷ [])
        []
      ≡ some (full, sat))
    × (((params false).optimizing ≡ false × (sat ≡ true)) ⊎ Any (λ c. AllHold only_two c) full)
split_cube-covers_example =
    split_cube-covers backend heuristic (params false) Solves laws (plus 2 ∷ []) [] only_two refl
      (refl, tt) tt
