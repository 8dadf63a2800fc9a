-- ===== src/Constraint/Simplify.antt =====
-- `simplify` (src/Constraint.h): saturation at the constant, then division by the gcd.
use native.Mathlib.Nat.{mul_assoc, zero-add}
use cube_conquer_pb.Base.{
  ℕ, ◌+◌, ◌*◌, ◌≡◌, ◌≢◌, refl, ◌∙◌, ◌↔◌, ◌⊎◌, inl, inr, false, List, [], ◌∷◌, arith, if◌then◌else◌,
  Bool-cases, ltb, ◌==◌, All, ◌≤◌, ◌<◌, Option, none, some, pos, negsuc, Any, here, there, true,
  gcd, Divides, gcd-Divides, division_rounded_up, division_rounded_up-le, division_rounded_up-mul,
}
use cube_conquer_pb.Constraint.{Lit, Term, WConstraint}
use cube_conquer_pb.Constraint.Semantics.{Assignment, holds, lhs_value, Satisfies, IsPositive}

-- The first loop: the gcd of the coefficients below `c`, and the others cut down to `c`.
unfoldable pub gcd_below : ℕ → ℕ → List Term → ℕ
unfolding gcd
gcd_below c g [] = g
gcd_below c g ((a, l) ∷ ts) = gcd_below c (if ltb a c then gcd g a else g) ts

unfoldable pub saturate : ℕ → List Term → List Term
saturate c [] = []
saturate c ((a, l) ∷ ts) = (if ltb c a then c else a, l) ∷ saturate c ts

-- The second loop.
unfoldable pub divide_all : ℕ → List Term → List Term
unfolding division_rounded_up
divide_all g [] = []
divide_all g ((a, l) ∷ ts) = (division_rounded_up a g, l) ∷ divide_all g ts

unfoldable pub divisor : ℕ → List Term → ℕ
unfolding gcd_below
divisor c ts = let g = gcd_below c 0 ts in if g == 0 then c else g

-- A negative constant: every coefficient is above it and set to it, no gcd is found, so the constant
-- divides itself and every coefficient.
unfoldable pub units : List Term → List Term
units [] = []
units ((a, l) ∷ ts) = (1, l) ∷ units ts

-- The build is one without assertions (-DNDEBUG). `none` is the division of the constant 0 by itself.
unfoldable pub simplify : WConstraint → Option WConstraint
unfolding saturate divide_all divisor division_rounded_up units
simplify c = elim c.rhs [
  | pos r ↦
      if r == 0
      then none
      else some (record {
        lhs = divide_all (divisor r c.lhs) (saturate r c.lhs);
        rhs = pos (division_rounded_up r (divisor r c.lhs));
      })
  | negsuc _ ↦ some (record { lhs = units c.lhs; rhs = pos 1 })
]

saturate-cases :
    (σ : Assignment) (r : ℕ) (ts : List Term)
    → (lhs_value σ (saturate r ts) ≤ lhs_value σ ts)
      × ((r ≤ lhs_value σ (saturate r ts)) ⊎ (lhs_value σ (saturate r ts) ≡ lhs_value σ ts))
unfolding saturate
saturate-cases σ r [] = (omega arith, inr refl)
saturate-cases σ r ((a, l) ∷ ts) =
    let ih = saturate-cases σ r ts in
    elim (Bool-cases (holds σ l)) [
      | inl e ↦ rw e (ground (arith, ih))
      | inr e ↦ rw e (simp zero-add ih)
    ]

-- A coefficient that the division handles without loss: a multiple of `g`, or the constant.
abbrev Fits : ℕ → ℕ → Term → Type 0
Fits r g t = Divides g t.0 ⊎ (t.0 ≡ r)

-- The values before and after the division: both reach their constants, or they are in proportion.
abbrev Scaled : ℕ → ℕ → ℕ → ℕ → Type 0
Scaled r g v w = (r ≤ v) × (division_rounded_up r g ≤ w) ⊎ (v ≡ g * w)

Scaled-add :
    (r g a v w : ℕ)
    → 0 < g
    → Fits r g (a, Lit.plus 0)
    → Scaled r g v w
    → Scaled r g (a + v) (division_rounded_up a g + w)
Scaled-add r g a v w h (inr e) s = inl (omega arith, rw e (omega arith))
Scaled-add r g a v w h (inl (q, e)) (inl (x, y)) = inl (omega arith, omega arith)
Scaled-add r g a v w h (inl (q, e)) (inr x) =
    inr (rw (e, division_rounded_up-mul g q h) (omega arith))

divide_all-Scaled :
    (σ : Assignment) (r g : ℕ) (ts : List Term)
    → 0 < g
    → All (Fits r g) ts
    → Scaled r g (lhs_value σ ts) (lhs_value σ (divide_all g ts))
unfolding divide_all
divide_all-Scaled σ r g [] h f = inr (omega arith)
divide_all-Scaled σ r g ((a, l) ∷ ts) h f =
    let ih = divide_all-Scaled σ r g ts h f.1 in
    elim (Bool-cases (holds σ l)) [
      | inl e ↦ rw e (Scaled-add r g a _ _ h f.0 ih)
      | inr e ↦ rw e (simp zero-add ih)
    ]

Divides-trans : (a b c : ℕ) → Divides a b → Divides b c → Divides a c
Divides-trans a b c (q, e) (r, f) = (q * r, rw (f, e) (mul_assoc a q r))

gcd_below-Divides : (c g : ℕ) (ts : List Term) → Divides (gcd_below c g ts) g
unfolding gcd_below
gcd_below-Divides c g [] = (1, omega arith)
gcd_below-Divides c g ((a, l) ∷ ts) = elim (Bool-cases (ltb a c)) [
  | inl e ↦
      rw e (Divides-trans _ (gcd g a) g (gcd_below-Divides c (gcd g a) ts) (gcd-Divides g a).0)
  | inr e ↦ rw e (gcd_below-Divides c g ts)
]

gcd_below-Fits :
    (c g d : ℕ) (ts : List Term) → d ≡ gcd_below c g ts → All (Fits c d) (saturate c ts)
unfolding gcd_below saturate
gcd_below-Fits c g d [] eq = tt
gcd_below-Fits c g d ((a, l) ∷ ts) eq = elim (Bool-cases (ltb a c)) [
  | inl e ↦
      let low : ltb c a ≡ false = ground arith in
      let eq' : d ≡ gcd_below c (gcd g a) ts = eq ∙ rw e refl in
      let div : Divides d (gcd g a) = rw eq' (gcd_below-Divides c (gcd g a) ts) in
      rw low (
        inl (Divides-trans d (gcd g a) a div (gcd-Divides g a).1),
        gcd_below-Fits c (gcd g a) d ts eq',
      )
  | inr e ↦
      let eq' : d ≡ gcd_below c g ts = eq ∙ rw e refl in
      (inr (ground arith), gcd_below-Fits c g d ts eq')
]

-- When no coefficient is below the constant, all of them are cut down to it.
All-constant :
    (c : ℕ) (ts : List Term)
    → 0 < c
    → All IsPositive ts
    → All (Fits c 0) (saturate c ts)
    → All (Fits c c) (saturate c ts)
unfolding saturate
All-constant c [] k p h = tt
All-constant c ((a, l) ∷ ts) k p h =
    (elim h.0 [ inl (q, e) ↦ absurd (ground arith) | inr e ↦ inr e ], All-constant c ts k p.1 h.1)

divisor-Fits :
    (r : ℕ) (ts : List Term)
    → 0 < r
    → All IsPositive ts
    → (0 < divisor r ts) × All (Fits r (divisor r ts)) (saturate r ts)
unfolding divisor
divisor-Fits r ts h p = elim (Bool-cases (gcd_below r 0 ts == 0)) [
  | inl e ↦ rw e (h, All-constant r ts h p (gcd_below-Fits r 0 0 ts (ground arith)))
  | inr e ↦ rw e (ground arith, gcd_below-Fits r 0 _ ts refl)
]

simplified : (c : WConstraint) (r : ℕ) → WConstraint
simplified c r = record {
  lhs = divide_all (divisor r c.lhs) (saturate r c.lhs);
  rhs = pos (division_rounded_up r (divisor r c.lhs));
}

simplified-Satisfies :
    (σ : Assignment) (c : WConstraint) (r : ℕ)
    → c.rhs ≡ pos r
    → 0 < r
    → All IsPositive c.lhs
    → Satisfies σ (simplified c r) ↔ Satisfies σ c
unfolding simplified
simplified-Satisfies σ c r e h p =
    let g = divisor r c.lhs in
    let (k, fits) = divisor-Fits r c.lhs h p in
    let s = divide_all-Scaled σ r g (saturate r c.lhs) k fits in
    let t = saturate-cases σ r c.lhs in
    let up = division_rounded_up-le r g (lhs_value σ (divide_all g (saturate r c.lhs))) k in
    rw e (λ q. ground (arith, s, t, up), λ q. ground (arith, s, t, up))

simplify-eq-simplified :
    (c : WConstraint) (r : ℕ) → c.rhs ≡ pos r → 0 < r → simplify c ≡ some (simplified c r)
unfolding simplify simplified
simplify-eq-simplified c r e h = rw (e, simplify) (ground arith)

-- `simplify` returns on every constraint with positive coefficients and a constant of at least 1, and
-- what it returns means the same under every assignment.
pub simplify-positive :
    (c : WConstraint) (r : ℕ)
    → c.rhs ≡ pos r
    → 0 < r
    → All IsPositive c.lhs
    → (d : WConstraint) × (simplify c ≡ some d) × ((σ : Assignment) → Satisfies σ d ↔ Satisfies σ c)
simplify-positive c r e h p =
    (simplified c r, simplify-eq-simplified c r e h, λ σ. simplified-Satisfies σ c r e h p)

-- `simplify` returns on every constraint that has a term, positive coefficients and a constant of at
-- least 1, and what it returns means the same under every assignment.
pub simplify-Satisfies :
    (c : WConstraint) (r : ℕ)
    → c.lhs ≢ []
    → c.rhs ≡ pos r
    → 0 < r
    → All IsPositive c.lhs
    → (d : WConstraint) × (simplify c ≡ some d) × ((σ : Assignment) → Satisfies σ d ↔ Satisfies σ c)
simplify-Satisfies c r ne e h p = simplify-positive c r e h p

-- The constant 0 is divided by itself.
pub simplify-eq-none : (c : WConstraint) → c.rhs ≡ pos 0 → simplify c ≡ none
unfolding simplify
simplify-eq-none c h = rw (h, simplify) refl

-- A literal of the constraint holds.
abbrev pub SomeLit : Assignment → List Term → Type 0
SomeLit σ ts = Any (λ t. holds σ t.1 ≡ true) ts

units-SomeLit : (σ : Assignment) (ts : List Term) → (1 ≤ lhs_value σ (units ts)) ↔ SomeLit σ ts
unfolding units
units-SomeLit σ [] = (λ h. absurd (omega arith), λ i. elim i [ ])
units-SomeLit σ ((a, l) ∷ ts) =
    let (f, g) = units-SomeLit σ ts in
    elim (Bool-cases (holds σ l)) [
      | inl e ↦ rw e (λ _. here e, λ _. omega arith)
      | inr e ↦ rw e (
        λ h. there (f (omega (arith, h))),
        λ i. elim i [
          | here k ↦ absurd (cc (k, e))
          | there k ↦ (let below = g k in omega (arith, below))
        ],
      )
    ]

-- From a negative constant the clause of the literals is made.
pub simplify-negative :
    (c : WConstraint) (n : ℕ)
    → c.rhs ≡ negsuc n
    → (d : WConstraint) × (simplify c ≡ some d)
      × ((σ : Assignment) → Satisfies σ d ↔ SomeLit σ c.lhs)
unfolding simplify
simplify-negative c n e = (
  record { lhs = units c.lhs; rhs = pos 1 },
  rw (e, simplify) refl,
  λ σ. (
    (λ s. (units-SomeLit σ c.lhs).0 (omega (arith, s))),
    (λ i. let h = (units-SomeLit σ c.lhs).1 i in omega (arith, h)),
  ),
)
