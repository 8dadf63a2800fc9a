-- ===== src/Constraint/Cut/Division.antt =====
-- The division of a cut by the gcd of its coefficients, and its shaving, keep its meaning.
use native.Mathlib.Nat.{zero-add, mul_assoc}
use cube_conquer_pb.Base.{
  ℕ, ◌+◌, ◌*◌, ◌≡◌, ◌↔◌, refl, ◌⊎◌, inl, inr, List, [], ◌∷◌, if◌then◌else◌, ltb, leb, Option, none,
  some, gcd, division_rounded_up, arith, Bool-cases, Option-cases, All, ◌≤◌, ◌<◌, Divides,
  gcd-Divides, division_rounded_up-le, division_rounded_up-mul,
}
use cube_conquer_pb.Constraint.{plus, Term}
use cube_conquer_pb.Constraint.Semantics.{Assignment, holds, lhs_value, IsPositive}
use cube_conquer_pb.Constraint.Cut.{gcd_upto, divide_and_shave, cut_divisor}

-- The divisor divides every coefficient that is at most the constant.
abbrev FitsCut : ℕ → ℕ → Term → Type 0
FitsCut c g t = Divides g t.0 ⊎ (c < t.0)

abbrev DividesOpt : ℕ → Option ℕ → Type 0
DividesOpt d none = Unit {0}
DividesOpt d (some g) = Divides d g

Divides-trans : (a b c : ℕ) → Divides a b → Divides b c → Divides a c
Divides-trans a b c (q, e) (r, f) = (q * r, rw (f, e) (mul_assoc a q r))

gcd_upto-Divides :
    (c d : ℕ) (g : Option ℕ) (ts : List Term)
    → gcd_upto c g ts ≡ some d
    → DividesOpt d g × All (FitsCut c d) ts
unfolding gcd_upto
gcd_upto-Divides c d none [] e = (tt, tt)
gcd_upto-Divides c d (some g) [] e = ((1, ground arith), tt)
gcd_upto-Divides c d none ((a, l) ∷ ts) e = elim (Bool-cases (leb a c)) [
  | inl f ↦ let (x, y) = gcd_upto-Divides c d (some a) ts (rw f at e) in (tt, (inl x, y))
  | inr f ↦ let (x, y) = gcd_upto-Divides c d none ts (rw f at e) in (tt, (inr (ground arith), y))
]
gcd_upto-Divides c d (some g) ((a, l) ∷ ts) e = elim (Bool-cases (leb a c)) [
  | inl f ↦
      let (x, y) = gcd_upto-Divides c d (some (gcd g a)) ts (rw f at e) in
      let (p, q) = gcd-Divides g a in
      (Divides-trans d (gcd g a) g x p, (inl (Divides-trans d (gcd g a) a x q), y))
  | inr f ↦
      let (x, y) = gcd_upto-Divides c d (some g) ts (rw f at e) in (x, (inr (ground arith), y))
]

gcd_upto-some : (c g : ℕ) (ts : List Term) → (d : ℕ) × (gcd_upto c (some g) ts ≡ some d)
unfolding gcd_upto
gcd_upto-some c g [] = (g, refl)
gcd_upto-some c g ((a, l) ∷ ts) = elim (Bool-cases (leb a c)) [
  | inl f ↦ rw f (gcd_upto-some c (gcd g a) ts)
  | inr f ↦ rw f (gcd_upto-some c g ts)
]

gcd_upto-none : (c : ℕ) (ts : List Term) → gcd_upto c none ts ≡ none → All (FitsCut c c) ts
unfolding gcd_upto
gcd_upto-none c [] e = tt
gcd_upto-none c ((a, l) ∷ ts) e = elim (Bool-cases (leb a c)) [
  | inl f ↦
      let (d, q) = gcd_upto-some c a ts in let e' : gcd_upto c (some a) ts ≡ none = rw f at e in cc
  | inr f ↦ (inr (ground arith), gcd_upto-none c ts (rw f at e))
]

abbrev PositiveOpt : Option ℕ → Type 0
PositiveOpt none = Unit {0}
PositiveOpt (some g) = 0 < g

gcd_pos : (g a : ℕ) → 0 < g → 0 < gcd g a
gcd_pos g a h = let (q, e) = (gcd-Divides g a).0 in ground arith

gcd_upto-pos :
    (c d : ℕ) (g : Option ℕ) (ts : List Term)
    → PositiveOpt g
    → All IsPositive ts
    → gcd_upto c g ts ≡ some d
    → 0 < d
unfolding gcd_upto
gcd_upto-pos c d none [] h p e = cc
gcd_upto-pos c d (some g) [] h p e = let q : g ≡ d = cc in omega arith
gcd_upto-pos c d none ((a, l) ∷ ts) h p e = elim (Bool-cases (leb a c)) [
  | inl f ↦ gcd_upto-pos c d (some a) ts p.0 p.1 (rw f at e)
  | inr f ↦ gcd_upto-pos c d none ts tt p.1 (rw f at e)
]
gcd_upto-pos c d (some g) ((a, l) ∷ ts) h p e = elim (Bool-cases (leb a c)) [
  | inl f ↦ gcd_upto-pos c d (some (gcd g a)) ts (gcd_pos g a h) p.1 (rw f at e)
  | inr f ↦ gcd_upto-pos c d (some g) ts h p.1 (rw f at e)
]

cut_divisor_lem :
    (c : ℕ) (ts : List Term)
    → 0 < c
    → All IsPositive ts
    → (0 < cut_divisor c ts) × All (FitsCut c (cut_divisor c ts)) ts
unfolding cut_divisor
cut_divisor_lem c ts h p = elim (Option-cases (gcd_upto c none ts)) [
  | inl e ↦ rw (e, cut_divisor) (h, gcd_upto-none c ts e)
  | inr (d, e) ↦
      rw (e, cut_divisor) (gcd_upto-pos c d none ts tt p e, (gcd_upto-Divides c d none ts e).1)
]

-- What division and shaving do to a left side: it stays in proportion, or both reach the constants.
abbrev Shaved : ℕ → ℕ → ℕ → ℕ → Type 0
Shaved r g v w = (r ≤ v) × (division_rounded_up r g ≤ w) ⊎ (v ≡ g * w)

Shaved-add :
    (r g a v w : ℕ)
    → 0 < g
    → FitsCut r g (a, plus 0)
    → Shaved r g v w
    → Shaved r g (a + v) (
        (if ltb (division_rounded_up r g) (division_rounded_up a g)
          then division_rounded_up r g
          else division_rounded_up a g)
        + w)
Shaved-add r g a v w h (inr big) s =
    let d = division_rounded_up a g in
    let below = (division_rounded_up-le a g d h).0 (omega arith) in
    inl (omega arith, ground (arith, (division_rounded_up-le r g d h).1))
Shaved-add r g a v w h (inl (q, e)) s =
    let same : division_rounded_up a g ≡ q = rw e (division_rounded_up-mul g q h) in
    elim (Bool-cases (ltb (division_rounded_up r g) q)) [
      | inl f ↦
          let reach = (division_rounded_up-le r g q h).0 (ground arith) in
          rw (same, f) (inl (omega arith, omega arith))
      | inr f ↦
          rw (same, f)
            (elim s [ inl (x, y) ↦ inl (omega arith, omega arith) | inr x ↦ inr (omega arith) ])
    ]

divide_and_shave-Shaved :
    (σ : Assignment) (r g : ℕ) (ts : List Term)
    → 0 < g
    → All (FitsCut r g) ts
    → Shaved r g (lhs_value σ ts) (lhs_value σ (divide_and_shave g (division_rounded_up r g) ts))
unfolding divide_and_shave
divide_and_shave-Shaved σ r g [] h f = inr (omega arith)
divide_and_shave-Shaved σ r g ((a, l) ∷ ts) h f =
    let ih = divide_and_shave-Shaved σ r g ts h f.1 in
    elim (Bool-cases (holds σ l)) [
      | inl e ↦ rw e (Shaved-add r g a _ _ h f.0 ih)
      | inr e ↦ rw e (simp zero-add ih)
    ]

-- For a positive constant and positive coefficients, the last part of `applyCut` changes no meaning: the
-- divided and shaved terms reach the divided constant where the terms reach the constant.
pub normalize_cut-value :
    (σ : Assignment) (r : ℕ) (ts : List Term)
    → 0 < r
    → All IsPositive ts
    → (division_rounded_up r (cut_divisor r ts)
        ≤ lhs_value σ
            (divide_and_shave (cut_divisor r ts) (division_rounded_up r (cut_divisor r ts)) ts))
      ↔ (r ≤ lhs_value σ ts)
normalize_cut-value σ r ts h p =
    let g = cut_divisor r ts in
    let (k, f) = cut_divisor_lem r ts h p in
    let s = divide_and_shave-Shaved σ r g ts k f in
    let up =
      division_rounded_up-le r g (lhs_value σ (divide_and_shave g (division_rounded_up r g) ts))
        k in
    (λ q. ground (arith, s, up), λ q. ground (arith, s, up))
