-- ===== src/Constraint/Lookup.antt =====
-- The lookups of `WConstraint` by variable: the linear scan and the binary search (src/WConstraint.h).
-- `none` is the pair {0, 0} that the source returns for a variable that does not occur.
use cube_conquer_pb.Base.{
  ℕ, zero, suc, ◌+◌, ◌-◌, ◌/◌, ◌≡◌, refl, ◌≢◌, true, false, List, [], ◌∷◌, arith, if◌then◌else◌,
  ltb, ◌==◌, Ordered, ◌≤◌, ◌<◌, length, Option, none, some, get_elem?, inl, inr, All-get,
  Ordered-get, get_elem?-some, Bool-cases, ltb→lt, ==_iff, sym, ap, ◌∙◌,
}
use cube_conquer_pb.Constraint.{Term, var_of}
use cube_conquer_pb.Constraint.Semantics.{VarLt}

-- getCoefficientLiteral
unfoldable pub get_coefficient_literal : List Term → ℕ → Option Term
get_coefficient_literal [] v = none
get_coefficient_literal (t ∷ ts) v = if var_of t == v then some t else get_coefficient_literal ts v

-- while (l <= r): `r` here is the source's `r + 1`, so that the empty range needs no -1.
unfoldable pub binary_search : ℕ → List Term → ℕ → ℕ → ℕ → Option Term
binary_search zero lhs v l r = none
binary_search (suc fuel) lhs v l r =
    let m = (l + r - 1) / 2 in
    elim (ltb l r) [
      | false ↦ none
      | true ↦ elim (get_elem? lhs m) [
        | none ↦ none
        | some t ↦ elim (ltb (var_of t) v) [
          | true ↦ binary_search fuel lhs v (m + 1) r
          | false ↦ elim (ltb v (var_of t)) [ true ↦ binary_search fuel lhs v l m | false ↦ some t ]
        ]
      ]
    ]

-- getCoefficientLiteralBinarySearch(var); the range halves, so the size and one round are fuel enough.
unfoldable pub get_coefficient_literal_binary_search : List Term → ℕ → Option Term
unfolding binary_search
get_coefficient_literal_binary_search lhs v = binary_search (suc (length lhs)) lhs v 0 (length lhs)

-- getCoefficientBinarySearch: 0 where the variable does not occur.
unfoldable pub get_coefficient_binary_search : List Term → ℕ → ℕ
unfolding get_coefficient_literal_binary_search
get_coefficient_binary_search lhs v = elim (get_coefficient_literal_binary_search lhs v) [
  | none ↦ 0
  | some t ↦ t.0
]

-- The linear scan finds the term at an index when the variables before it are others.
get_coefficient_literal-at :
    (ts : List Term) (i : ℕ) (t : Term)
    → Ordered VarLt ts
    → get_elem? ts i ≡ some t
    → get_coefficient_literal ts (var_of t) ≡ some t
unfolding get_coefficient_literal
get_coefficient_literal-at [] i t o e = cc
get_coefficient_literal-at (u ∷ us) zero t o e = ground arith
get_coefficient_literal-at (u ∷ us) (suc i) t o e =
    ground (arith, get_coefficient_literal-at us i t o.1 e, All-get (VarLt u) us i t o.0 e)

past : (ts : List Term) (i : ℕ) (t : Term) → length ts ≤ i → get_elem? ts i ≡ some t → ⊥
past [] i t h e = cc
past (u ∷ us) zero t h e = omega arith
past (u ∷ us) (suc i) t h e = past us i t (omega arith) e

-- Outside the range lie no terms of the variable.
record Excluded (lhs : List Term) (v l r : ℕ) : Type 0 where
  low : (i : ℕ) (t : Term) → i < l → get_elem? lhs i ≡ some t → var_of t < v
  high : (i : ℕ) (t : Term) → r ≤ i → get_elem? lhs i ≡ some t → v < var_of t

get_coefficient_literal-none :
    (ts : List Term) (v : ℕ)
    → ((i : ℕ) (t : Term) → get_elem? ts i ≡ some t → var_of t ≢ v)
    → get_coefficient_literal ts v ≡ none
unfolding get_coefficient_literal
get_coefficient_literal-none [] v h = refl
get_coefficient_literal-none (t ∷ ts) v h =
    ground (arith, h zero t refl, get_coefficient_literal-none ts v (λ i. h (suc i)))

not_in_range :
    (lhs : List Term) (v l r : ℕ)
    → r ≤ l
    → Excluded lhs v l r
    → get_coefficient_literal lhs v ≡ none
not_in_range lhs v l r h x = get_coefficient_literal-none lhs v λ i t g q.
    elim (Bool-cases (ltb i l)) [
      | inl a ↦ omega (arith, x.low i t (ltb→lt i l a) g)
      | inr a ↦ let le : r ≤ i = ground arith in omega (arith, x.high i t le g)
    ]

raise :
    (lhs : List Term) (v l r m : ℕ) (t : Term)
    → Ordered VarLt lhs
    → get_elem? lhs m ≡ some t
    → var_of t < v
    → Excluded lhs v l r
    → Excluded lhs v (m + 1) r
raise lhs v l r m t o g a x = record {
  low = λ i u h e. elim (Bool-cases (i == m)) [
    | inl q ↦
        let q' : i ≡ m = (==_iff i m).0 q in
        let same : some u ≡ some t = sym e ∙ (ap (get_elem? lhs) q' ∙ g) in
        let q'' : u ≡ t = cc in rw q'' a
    | inr q ↦ let lt : i < m = ground arith in omega (arith, Ordered-get VarLt lhs i m u t o lt e g)
  ];
  high = x.high;
}

lower :
    (lhs : List Term) (v l r m : ℕ) (t : Term)
    → Ordered VarLt lhs
    → get_elem? lhs m ≡ some t
    → v < var_of t
    → Excluded lhs v l r
    → Excluded lhs v l m
lower lhs v l r m t o g a x = record {
  low = x.low;
  high = λ i u h e. elim (Bool-cases (i == m)) [
    | inl q ↦
        let q' : i ≡ m = (==_iff i m).0 q in
        let same : some u ≡ some t = sym e ∙ (ap (get_elem? lhs) q' ∙ g) in
        let q'' : u ≡ t = cc in rw q'' a
    | inr q ↦ let lt : m < i = ground arith in omega (arith, Ordered-get VarLt lhs m i t u o lt g e)
  ];
}

binary_search-eq :
    (fuel : ℕ) (lhs : List Term) (v l r : ℕ)
    → Ordered VarLt lhs
    → r ≤ length lhs
    → r < l + fuel
    → Excluded lhs v l r
    → binary_search fuel lhs v l r ≡ get_coefficient_literal lhs v
unfolding binary_search
binary_search-eq zero lhs v l r o h f x = sym (not_in_range lhs v l r (omega arith) x)
binary_search-eq (suc fuel) lhs v l r o h f x = elim (Bool-cases (ltb l r)) [
  | inr e ↦ rw (e, binary_search) (sym (not_in_range lhs v l r (ground arith) x))
  | inl e ↦
      let m = (l + r - 1) / 2 in
      let lt : l < r = ltb→lt l r e in
      let (t, g) = get_elem?-some lhs m (omega arith) in
      elim (Bool-cases (ltb (var_of t) v)) [
        | inl a ↦
            rw (e, g, a, binary_search)
              (binary_search-eq fuel lhs v (m + 1) r o h (omega arith)
                (raise lhs v l r m t o g (ltb→lt _ _ a) x))
        | inr a ↦ elim (Bool-cases (ltb v (var_of t))) [
          | inl b ↦
              rw (e, g, a, b, binary_search)
                (binary_search-eq fuel lhs v l m o (omega arith) (omega arith)
                  (lower lhs v l r m t o g (ltb→lt _ _ b) x))
          | inr b ↦
              let q : var_of t ≡ v = ground arith in
              rw (e, g, a, b, binary_search, ← q) (sym (get_coefficient_literal-at lhs m t o g))
        ]
      ]
]

-- On terms with strictly increasing variables the binary search for a variable finds what the linear
-- scan finds: its term, or nothing.
pub binary_search-eq-linear :
    (lhs : List Term) (v : ℕ)
    → Ordered VarLt lhs
    → get_coefficient_literal_binary_search lhs v ≡ get_coefficient_literal lhs v
unfolding get_coefficient_literal_binary_search
binary_search-eq-linear lhs v o =
    binary_search-eq (suc (length lhs)) lhs v 0 (length lhs) o (omega arith) (omega arith)
      (record { low = λ i t h. absurd (omega arith); high = λ i t h e. absurd (past lhs i t h e) })
