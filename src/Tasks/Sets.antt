-- ===== src/Tasks/Sets.antt =====
-- Deduplication by keys loses no constraint.
use cube_conquer_pb.Base.{
  ◌≡◌, refl, sym, ◌∙◌, ap, ◌↔◌, true, false, List, [], ◌∷◌, ◌++◌, map, Bool-cases, inl, inr, ℤ, pos,
  negsuc, arith, All, All-append, Ordered, Ordered-last, total-sort_by, sort_by,
}
use cube_conquer_pb.Constraint.{Lit, plus, minus, lit_eq, Term, WConstraint}
use cube_conquer_pb.Constraint.Semantics.{Assignment, lhs_value, weight, Satisfies}
use cube_conquer_pb.Tasks.{
  term_less, Key, int_eq, terms_eq, key_eq, constraint_key, ConstraintSet, has_key, insert_one,
  insert_all,
}

int_eq-eq : (a b : ℤ) → int_eq a b ≡ true → a ≡ b
int_eq-eq (pos a) (pos b) h = ground arith
int_eq-eq (negsuc a) (negsuc b) h = ground arith
int_eq-eq (pos a) (negsuc b) h = cc
int_eq-eq (negsuc a) (pos b) h = cc

lit_eq-eq : (l m : Lit) → lit_eq l m ≡ true → l ≡ m
lit_eq-eq (plus v) (plus w) h = ground arith
lit_eq-eq (minus v) (minus w) h = ground arith
lit_eq-eq (plus v) (minus w) h = cc
lit_eq-eq (minus v) (plus w) h = cc

terms_eq-eq : (ts us : List Term) → terms_eq ts us ≡ true → ts ≡ us
unfolding terms_eq
terms_eq-eq [] [] h = refl
terms_eq-eq [] (u ∷ us) h = cc
terms_eq-eq (t ∷ ts) [] h = cc
terms_eq-eq ((a, l) ∷ ts) ((b, m) ∷ us) h = ground (arith, lit_eq-eq l m, terms_eq-eq ts us)

int_eq_refl : (a : ℤ) → int_eq a a ≡ true
int_eq_refl (pos a) = ground arith
int_eq_refl (negsuc a) = ground arith

lit_eq_refl : (l : Lit) → lit_eq l l ≡ true
lit_eq_refl (plus v) = ground arith
lit_eq_refl (minus v) = ground arith

terms_eq_refl : (ts : List Term) → terms_eq ts ts ≡ true
unfolding terms_eq
terms_eq_refl [] = refl
terms_eq_refl ((a, l) ∷ ts) = ground (arith, lit_eq_refl l, terms_eq_refl ts)

key_eq-sym : (j k : Key) → key_eq j k ≡ true → key_eq k j ≡ true
unfolding key_eq
key_eq-sym (ts, r) (us, q) h =
    let terms : ts ≡ us = terms_eq-eq ts us (grind (arith, h)) in
    let constant : r ≡ q = int_eq-eq r q (grind (arith, h)) in
    rw (← terms, ← constant) (ground (arith, terms_eq_refl ts, int_eq_refl r))

-- Constraints with one key hold in the same assignments.
constraint_key-Satisfies :
    (σ : Assignment) (c d : WConstraint)
    → key_eq (constraint_key c) (constraint_key d) ≡ true
    → Satisfies σ c
    → Satisfies σ d
unfolding key_eq constraint_key
constraint_key-Satisfies σ c d h s =
    let same = terms_eq-eq (sort_by term_less c.lhs) (sort_by term_less d.lhs) in
    let rhs = int_eq-eq c.rhs d.rhs in
    let terms : sort_by term_less c.lhs ≡ sort_by term_less d.lhs = same (grind (arith, h)) in
    let constant : c.rhs ≡ d.rhs = rhs (grind (arith, h)) in
    let value : lhs_value σ (sort_by term_less c.lhs) ≡ lhs_value σ (sort_by term_less d.lhs) =
      ap (lhs_value σ) terms in
    let left = total-sort_by term_less (weight σ) c.lhs in
    let right = total-sort_by term_less (weight σ) d.lhs in rw (← constant) (omega arith)

-- What the keys of a set have to be.
pub record IsKeyed (s : ConstraintSet) : Type 0 where
  pub keyed : s.keys ≡ map constraint_key s.constraints
  pub distinct : Ordered (λ j k. key_eq k j ≡ false) s.keys

has_key-none : (k : Key) (js : List Key) → has_key k js ≡ false → All (λ j. key_eq k j ≡ false) js
unfolding has_key
has_key-none k [] h = tt
has_key-none k (j ∷ js) h =
    let head : key_eq k j ≡ false = grind (arith, h) in
    let tail : has_key k js ≡ false = grind (arith, h) in (head, has_key-none k js tail)

-- A key that is there is that of a constraint with the same meaning.
has_key-Satisfies :
    (σ : Assignment) (c : WConstraint) (cs : List WConstraint)
    → has_key (constraint_key c) (map constraint_key cs) ≡ true
    → All (Satisfies σ) cs
    → Satisfies σ c
unfolding has_key
has_key-Satisfies σ c [] h all = cc
has_key-Satisfies σ c (d ∷ ds) h all =
    elim (Bool-cases (key_eq (constraint_key c) (constraint_key d))) [
      | inl e ↦
          constraint_key-Satisfies σ d c (key_eq-sym (constraint_key c) (constraint_key d) e) all.0
      | inr e ↦
          let later : has_key (constraint_key c) (map constraint_key ds) ≡ true =
            grind (arith, h, e) in
          has_key-Satisfies σ c ds later all.1
    ]

map-last :
    (cs : List WConstraint) (c : WConstraint)
    → map constraint_key (cs ++ c ∷ []) ≡ map constraint_key cs ++ constraint_key c ∷ []
map-last [] c = refl
map-last (d ∷ ds) c = ap (λ ks. constraint_key d ∷ ks) (map-last ds c)

insert_one-IsKeyed : (c : WConstraint) (s : ConstraintSet) → IsKeyed s → IsKeyed (insert_one c s)
unfolding insert_one
insert_one-IsKeyed c s k = elim (Bool-cases (has_key (constraint_key c) s.keys)) [
  | inl e ↦ rw (e, insert_one) k
  | inr e ↦
      rw (e, insert_one)
        (record {
          keyed = ap (λ ks. ks ++ constraint_key c ∷ []) k.keyed ∙ sym (map-last s.constraints c);
          distinct =
              Ordered-last (λ j k. key_eq k j ≡ false) s.keys (constraint_key c) k.distinct
                (has_key-none (constraint_key c) s.keys e);
        })
]

All-left {ℓ} : {A : Type 0} (P : A → Type ℓ) (xs ys : List A) → All P (xs ++ ys) → All P xs
All-left P [] ys h = tt
All-left P (x ∷ xs) ys h = (h.0, All-left P xs ys h.1)

All-end {ℓ} : {A : Type 0} (P : A → Type ℓ) (xs : List A) (y : A) → All P (xs ++ y ∷ []) → P y
All-end P [] y h = h.0
All-end P (x ∷ xs) y h = All-end P xs y h.1

insert_one-Satisfies :
    (σ : Assignment) (c : WConstraint) (s : ConstraintSet)
    → IsKeyed s
    → All (Satisfies σ) (insert_one c s).constraints
      ↔ (Satisfies σ c × All (Satisfies σ) s.constraints)
unfolding insert_one
insert_one-Satisfies σ c s k = elim (Bool-cases (has_key (constraint_key c) s.keys)) [
  | inl e ↦
      let e' = rw k.keyed at e in
      rw (e, insert_one) (λ h. (has_key-Satisfies σ c s.constraints e' h, h), λ h. h.1)
  | inr e ↦
      rw (e, insert_one)
        (
          λ h. (
            All-end (Satisfies σ) s.constraints c h,
            All-left (Satisfies σ) s.constraints (c ∷ []) h,
          ),
          λ h. All-append (Satisfies σ) s.constraints (c ∷ []) h.1 (h.0, tt),
        )
]

-- From a set whose keys are those of its constraints and pairwise different, `insert_all` gives such a
-- set, and its constraints together say what the constraints of the set and the new ones say.
pub insert_all-Satisfies :
    (cs : List WConstraint) (s : ConstraintSet)
    → IsKeyed s
    → IsKeyed (insert_all cs s)
      × ((σ : Assignment)
          → All (Satisfies σ) (insert_all cs s).constraints
            ↔ (All (Satisfies σ) cs × All (Satisfies σ) s.constraints))
unfolding insert_all
insert_all-Satisfies [] s k = (k, λ σ. (λ h. (tt, h), λ h. h.1))
insert_all-Satisfies (c ∷ cs) s k =
    let (keyed, same) = insert_all-Satisfies cs (insert_one c s) (insert_one-IsKeyed c s k) in
    (
      keyed,
      λ σ.
          let (f, g) = same σ in
          let (p, q) = insert_one-Satisfies σ c s k in
          (
            λ h. (let (hc, hs) = f h in let (h1, h2) = p hs in ((h1, hc), h2)),
            λ h. (let ((h1, hc), h2) = h in g (hc, q (h1, h2))),
          ),
    )
