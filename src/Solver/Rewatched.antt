-- ===== src/Solver/Rewatched.antt =====
-- The search for another literal to watch, and what the change of the watched literals does to a clause.
use cube_conquer_pb.Base.{
  ℕ, zero, suc, ◌+◌, ◌≡◌, refl, sym, ◌∙◌, ap, subst, true, false, List, [], ◌∷◌, ◌≤◌, ◌<◌, ◌⊎◌, inl,
  inr, length, length-set, get_or, get_elem?, set, drop, take, All, Any, here, there, Any-set,
  Any-set_new, Option, none, some, Bool-cases, arith,
}
use cube_conquer_pb.Constraint.{Lit, lit_eq}
use cube_conquer_pb.Constraint.Semantics.{Assignment, holds}
use cube_conquer_pb.Trail.{Model, is_false_lit}
use cube_conquer_pb.Solver.{Clause, no_clause}
use cube_conquer_pb.Solver.ClauseWatches.{other_lit, find_non_false, find_replacement, rewatch}
use cube_conquer_pb.Solver.Counted.{lit_eq-true}
use cube_conquer_pb.Solver.Invariant.{lits_at, ClauseOk, ClausesInRange, Covers}

abbrev pub AllFalse : Model → List Lit → Type 0
AllFalse m ls = All (λ l. is_false_lit l m ≡ true) ls

find_non_false-none :
    (ls : List Lit) (m : Model) (k : ℕ) → find_non_false ls m k ≡ none → AllFalse m ls
unfolding find_non_false
find_non_false-none [] m k e = tt
find_non_false-none (r ∷ rs) m k e = elim (Bool-cases (is_false_lit r m)) [
  | inl f ↦ (f, find_non_false-none rs m (suc k) (rw f at e))
  | inr f ↦ absurd (cc (rw f at e))
]

pair_of : (p q : ℕ × Lit) → some p ≡ some q → p ≡ q
pair_of p q e = cc

-- The literal that is found stands at the index and is not false.
find_non_false-some :
    (ls : List Lit) (m : Model) (k j : ℕ) (r : Lit)
    → find_non_false ls m k ≡ some (j, r)
    → (i : ℕ) × (j ≡ k + i) × (get_elem? ls i ≡ some r) × (is_false_lit r m ≡ false)
unfolding find_non_false
find_non_false-some [] m k j r e = absurd (cc e)
find_non_false-some (x ∷ xs) m k j r e = elim (Bool-cases (is_false_lit x m)) [
  | inl f ↦
      let (i, at, stands, up) = find_non_false-some xs m (suc k) j r (rw f at e) in
      (suc i, omega (arith, at), stands, up)
  | inr f ↦
      let q = pair_of (k, x) (j, r) (rw f at e) in
      let same : x ≡ r = ap (λ p. p.1) q in
      (
        0,
        (let at = ap (λ p. p.0) q in omega (arith, at)),
        ap some same,
        sym (ap (λ y. is_false_lit y m) same) ∙ f,
      )
]

get_elem?-drop : (n i : ℕ) (ls : List Lit) → get_elem? (drop n ls) i ≡ get_elem? ls (n + i)
get_elem?-drop zero i ls = let e : 0 + i ≡ i = omega arith in rw e refl
get_elem?-drop (suc n) i [] = refl
get_elem?-drop (suc n) i (x ∷ xs) =
    let e : suc n + i ≡ suc (n + i) = omega arith in rw e (get_elem?-drop n i xs)

get_elem?-take :
    (n i : ℕ) (ls : List Lit) (r : Lit) → get_elem? (take n ls) i ≡ some r → get_elem? ls i ≡ some r
get_elem?-take zero i ls r e = absurd (cc e)
get_elem?-take (suc n) i [] r e = absurd (cc e)
get_elem?-take (suc n) zero (x ∷ xs) r e = e
get_elem?-take (suc n) (suc i) (x ∷ xs) r e = get_elem?-take n i xs r e

AllFalse-parts :
    (m : Model) (n : ℕ) (ls : List Lit)
    → AllFalse m (take n ls)
    → AllFalse m (drop n ls)
    → AllFalse m ls
AllFalse-parts m zero ls h k = k
AllFalse-parts m (suc n) [] h k = tt
AllFalse-parts m (suc n) (x ∷ xs) h k = (h.0, AllFalse-parts m n xs h.1 k)

-- Where nothing replaces a watch, all literals but the two watches are false.
pub find_replacement-none :
    (m : Model) (l0 l1 : Lit) (rest : List Lit) (n : ℕ)
    → 2 ≤ n
    → find_replacement (record { lits = l0 ∷ l1 ∷ rest; watch_idx = n }) m ≡ none
    → AllFalse m rest
unfolding find_replacement
find_replacement-none m l0 l1 rest zero w e = absurd (omega arith)
find_replacement-none m l0 l1 rest (suc zero) w e = absurd (omega arith)
find_replacement-none m l0 l1 rest (suc (suc n)) w e =
    from (find_non_false (drop n rest) m (suc (suc n))) refl e
  where
    from :
        (o : Option (ℕ × Lit))
        → find_non_false (drop n rest) m (suc (suc n)) ≡ o
        → (elim o [ some found ↦ some found | none ↦ find_non_false (take n rest) m 2 ]) ≡ none
        → AllFalse m rest
    from (some p) f g = absurd (cc g)
    from none f g =
        AllFalse-parts m n rest (find_non_false-none (take n rest) m 2 g)
          (find_non_false-none (drop n rest) m (suc (suc n)) f)

-- What replaces a watch is a literal past the two watches that is not false.
pub find_replacement-some :
    (m : Model) (l0 l1 : Lit) (rest : List Lit) (n k : ℕ) (r : Lit)
    → 2 ≤ n
    → find_replacement (record { lits = l0 ∷ l1 ∷ rest; watch_idx = n }) m ≡ some (k, r)
    → (j : ℕ) × (k ≡ suc (suc j)) × (get_elem? rest j ≡ some r) × (is_false_lit r m ≡ false)
unfolding find_replacement
find_replacement-some m l0 l1 rest zero k r w e = absurd (omega arith)
find_replacement-some m l0 l1 rest (suc zero) k r w e = absurd (omega arith)
find_replacement-some m l0 l1 rest (suc (suc n)) k r w e =
    from (find_non_false (drop n rest) m (suc (suc n))) refl e
  where
    from :
        (o : Option (ℕ × Lit))
        → find_non_false (drop n rest) m (suc (suc n)) ≡ o
        → (elim o [ some found ↦ some found | none ↦ find_non_false (take n rest) m 2 ])
          ≡ some (k, r)
        → (j : ℕ) × (k ≡ suc (suc j)) × (get_elem? rest j ≡ some r) × (is_false_lit r m ≡ false)
    from (some p) f g =
        let q = pair_of p (k, r) g in
        let (i, at, stands, up) =
          find_non_false-some (drop n rest) m (suc (suc n)) k r (f ∙ ap some q) in
        (n + i, omega (arith, at), sym (get_elem?-drop n i rest) ∙ stands, up)
    from none f g =
        let (i, at, stands, up) = find_non_false-some (take n rest) m 2 k r g in
        (i, omega (arith, at), get_elem?-take n i rest r stands, up)

-- The two watches are the literal and the other one.
pub other_lit-cases :
    (l0 l1 l other : Lit)
    → other_lit l0 l1 l ≡ some other
    → ((l0 ≡ l) × (l1 ≡ other)) ⊎ ((l1 ≡ l) × (l0 ≡ other))
unfolding other_lit
other_lit-cases l0 l1 l other e = elim (Bool-cases (lit_eq l0 l)) [
  | inl f ↦ inl (lit_eq-true l0 l f, cc (rw f at e))
  | inr f ↦ elim (Bool-cases (lit_eq l1 l)) [
    | inl g ↦ inr (lit_eq-true l1 l g, cc (rw (f, g) at e))
    | inr g ↦ absurd (cc (rw (f, g) at e))
  ]
]

get_elem?-lt {ℓ} :
    {A : Type ℓ} (xs : List A) (i : ℕ) (x d : A)
    → get_elem? xs i ≡ some x
    → (i < length xs) × (get_or xs i d ≡ x)
get_elem?-lt [] i x d e = absurd (cc e)
get_elem?-lt (y ∷ ys) zero x d e = (omega arith, cc)
get_elem?-lt (y ∷ ys) (suc i) x d e =
    let (w, same) = get_elem?-lt ys i x d e in (omega (arith, w), same)

-- The literals after the change hold where the literals before it did.
pub rewatch-Any :
    (P : Lit → Type 0) (cl : Clause) (l0 l1 : Lit) (rest : List Lit) (j : ℕ) (l other r : Lit)
    → cl.lits ≡ l0 ∷ l1 ∷ rest
    → ((l0 ≡ l) × (l1 ≡ other)) ⊎ ((l1 ≡ l) × (l0 ≡ other))
    → get_elem? rest j ≡ some r
    → Any P cl.lits
    → Any P (rewatch cl (suc (suc j)) other r l).lits
rewatch-Any P cl l0 l1 rest j l other r q watches stands h =
    subst (λ ls. Any P (set (set (set ls 0 other) 1 r) (suc (suc j)) l)) (sym q)
      (from (subst (Any P) q h))
  where
    of_watch : (x : Lit) → (x ≡ l) ⊎ (x ≡ other) → P x → Any P (other ∷ r ∷ set rest j l)
    of_watch x (inl e) p =
        there (there (Any-set_new P rest j l (get_elem?-lt rest j r r stands).0 (subst P e p)))
    of_watch x (inr e) p = here (subst P e p)

    first : (l0 ≡ l) ⊎ (l0 ≡ other)
    first = elim watches [ inl (a, b) ↦ inl a | inr (a, b) ↦ inr b ]

    second : (l1 ≡ l) ⊎ (l1 ≡ other)
    second = elim watches [ inl (a, b) ↦ inr b | inr (a, b) ↦ inl a ]

    from : Any P (l0 ∷ l1 ∷ rest) → Any P (other ∷ r ∷ set rest j l)
    from (here p) = of_watch l0 first p
    from (there (here p)) = of_watch l1 second p
    from (there (there k)) = elim (Any-set P rest j l r k) [
      | inl p ↦ there (here (subst P (get_elem?-lt rest j r r stands).1 p))
      | inr k' ↦ there (there k')
    ]

All-set {ℓ κ} :
    {A : Type ℓ} (P : A → Type κ) (xs : List A) (i : ℕ) (y : A)
    → P y
    → All P xs
    → All P (set xs i y)
All-set P [] i y p h = tt
All-set P (x ∷ xs) zero y p h = (p, h.1)
All-set P (x ∷ xs) (suc i) y p h = (h.0, All-set P xs i y p h.1)

pub rewatch-All :
    (P : Lit → Type 0) (cl : Clause) (k : ℕ) (l other r : Lit)
    → P l
    → P other
    → P r
    → All P cl.lits
    → All P (rewatch cl k other r l).lits
rewatch-All P cl k l other r p q s h =
    All-set P _ k l p (All-set P _ 1 r s (All-set P cl.lits 0 other q h))

-- Writing a clause: a read gives the new one at its index, or what was there.
pub get_or-set_either :
    (cls : List Clause) (i j : ℕ) (y : Clause)
    → ((i ≡ j) × (get_or (set cls i y) j no_clause ≡ y))
      ⊎ (get_or (set cls i y) j no_clause ≡ get_or cls j no_clause)
get_or-set_either [] i j y = inr refl
get_or-set_either (x ∷ xs) zero zero y = inl (refl, refl)
get_or-set_either (x ∷ xs) zero (suc j) y = inr refl
get_or-set_either (x ∷ xs) (suc i) zero y = inr refl
get_or-set_either (x ∷ xs) (suc i) (suc j) y = elim (get_or-set_either xs i j y) [
  | inl (e, f) ↦ inl (ap suc e, f)
  | inr f ↦ inr f
]

pub set-Covers :
    (σ : Assignment) (cls : List Clause) (i : ℕ) (y : Clause)
    → (Any (λ l. holds σ l ≡ true) (lits_at cls i) → Any (λ l. holds σ l ≡ true) y.lits)
    → Covers σ cls
    → Covers σ (set cls i y)
set-Covers σ cls i y f c j w =
    let size = length-set cls i y in
    let old = c j (omega (arith, size, w)) in
    elim (get_or-set_either cls i j y) [
      | inl (at, e) ↦
          subst (λ (x : Clause). Any (λ l. holds σ l ≡ true) x.lits) (sym e)
            (f (subst (λ k. Any (λ l. holds σ l ≡ true) (lits_at cls k)) (sym at) old))
      | inr e ↦ subst (λ (x : Clause). Any (λ l. holds σ l ≡ true) x.lits) (sym e) old
    ]

pub set-ClausesInRange :
    (n : ℕ) (cls : List Clause) (i : ℕ) (y : Clause)
    → ClauseOk n y
    → ClausesInRange n cls
    → ClausesInRange n (set cls i y)
set-ClausesInRange n cls i y k c j = elim (get_or-set_either cls i j y) [
  | inl (at, e) ↦ subst (ClauseOk n) (sym e) k
  | inr e ↦ subst (ClauseOk n) (sym e) (c j)
]
