-- ===== src/Solver/Watching.antt =====
-- Each element of a watch list stands for a clause that watches the literal, and a list has no clause
-- twice. The change of a watch keeps that.
use cube_conquer_pb.Base.{
  ℕ, zero, suc, ◌≡◌, ◌≢◌, refl, sym, ◌∙◌, ap, subst, false, List, [], ◌∷◌, ◌++◌, ◌==◌, ◌⊎◌, inl,
  inr, get_elem?, set, All, All-map_le, All-append, All-get, Ordered, Ordered-last, some,
  Bool-cases, arith,
}
use cube_conquer_pb.Constraint.{Lit, lit_eq}
use cube_conquer_pb.Solver.{WatchListElem, Clause, push_back_at}
use cube_conquer_pb.Solver.Counted.{lit_eq-true, lit_eq_refl}
use cube_conquer_pb.Solver.Invariant.{lits_at}

abbrev pub Differs {ℓ} : {A : Type ℓ} → A → A → Type ℓ
Differs a b = a ≢ b

abbrev pub ids : List WatchListElem → List ℕ
ids [] = []
ids (e ∷ es) = e.clause_id ∷ ids es

-- The clause has the literal as one of its two watches.
pub record Watching (cls : List Clause) (l : Lit) (id : ℕ) : Type 0 where
  pub first : Lit
  pub second : Lit
  pub others : List Lit
  pub shape : lits_at cls id ≡ first ∷ second ∷ others
  pub one_of : (first ≡ l) ⊎ (second ≡ l)

abbrev pub IsWatchList : List Clause → Lit → List ℕ → Type 0
IsWatchList cls l is = All (Watching cls l) is × Ordered Differs is

pub record IsWatched (cls : List Clause) (wl : Lit → List WatchListElem) : Type 0 where
  pub lists : (l : Lit) → IsWatchList cls l (ids (wl l))
  pub distinct : (id : ℕ) → Ordered Differs (lits_at cls id)

-- While the list of `l` is visited: the other lists, and the part of it that is kept or to come.
pub record IsVisiting (cls : List Clause) (wl : Lit → List WatchListElem) (l : Lit) (is : List ℕ)
    : Type 0 where
  pub elsewhere : (k : Lit) → lit_eq k l ≡ false → IsWatchList cls k (ids (wl k))
  pub here_too : IsWatchList cls l is
  pub distinct : (id : ℕ) → Ordered Differs (lits_at cls id)

pub same-Watching :
    (cls new : List Clause) (l : Lit) (id : ℕ)
    → lits_at new id ≡ lits_at cls id
    → Watching cls l id
    → Watching new l id
same-Watching cls new l id e w = record {
  first = w.first;
  second = w.second;
  others = w.others;
  shape = e ∙ w.shape;
  one_of = w.one_of;
}

-- Clauses with the same literals.
pub same-IsVisiting :
    (cls new : List Clause) (wl : Lit → List WatchListElem) (l : Lit) (is : List ℕ)
    → ((id : ℕ) → lits_at new id ≡ lits_at cls id)
    → IsVisiting cls wl l is
    → IsVisiting new wl l is
same-IsVisiting cls new wl l is e v = record {
  elsewhere = λ k apart. (
    All-map_le (Watching cls k) (Watching new k) (ids (wl k))
        (λ id. same-Watching cls new k id (e id)) (v.elsewhere k apart).0,
    (v.elsewhere k apart).1,
  );
  here_too = (
    All-map_le (Watching cls l) (Watching new l) is (λ id. same-Watching cls new l id (e id))
        v.here_too.0,
    v.here_too.1,
  );
  distinct = λ id. subst (Ordered Differs) (sym (e id)) (v.distinct id);
}

-- A literal that is new to a list without repetition takes the place of one of its literals.
set-distinct :
    (ls : List Lit) (j : ℕ) (x l : Lit)
    → get_elem? ls j ≡ some x
    → l ≢ x
    → All (Differs l) ls
    → Ordered Differs ls
    → All (Differs x) (set ls j l) × Ordered Differs (set ls j l)
set-distinct [] j x l e d a o = absurd (cc e)
set-distinct (y ∷ ys) zero x l e d a o =
    let same : y ≡ x = cc in
    (((λ q. d (sym q)), subst (λ z. All (Differs z) ys) same o.0), (a.1, o.1))
set-distinct (y ∷ ys) (suc j) x l e d a o =
    let (p, q) = set-distinct ys j x l e d a.1 o.1 in
    let far : y ≢ x = All-get (Differs y) ys j x o.0 e in
    (((λ r. far (sym r)), p), (All-put ys j y o.0 (λ r. a.0 (sym r)), q))
  where
    All-put :
        (zs : List Lit) (i : ℕ) (z : Lit)
        → All (Differs z) zs
        → z ≢ l
        → All (Differs z) (set zs i l)
    All-put [] i z h n = tt
    All-put (w ∷ ws) zero z h n = (n, h.1)
    All-put (w ∷ ws) (suc i) z h n = (h.0, All-put ws i z h.1 n)

All-without {κ} :
    (P : ℕ → Type κ) (ks es : List ℕ) (i : ℕ) → All P (ks ++ i ∷ es) → All P (ks ++ es)
All-without P [] es i h = h.1
All-without P (k ∷ ks) es i h = (h.0, All-without P ks es i h.1)

pub All-middle {κ} : (P : ℕ → Type κ) (ks es : List ℕ) (i : ℕ) → All P (ks ++ i ∷ es) → P i
All-middle P [] es i h = h.0
All-middle P (k ∷ ks) es i h = All-middle P ks es i h.1

-- Without one element a list without repetition does not have it.
without-distinct :
    (ks es : List ℕ) (i : ℕ)
    → Ordered Differs (ks ++ i ∷ es)
    → Ordered Differs (ks ++ es) × All (λ k. k ≢ i) (ks ++ es)
without-distinct [] es i o = (o.1, All-map_le (Differs i) (λ k. k ≢ i) es (λ k d q. d (sym q)) o.0)
without-distinct (k ∷ ks) es i o =
    let (p, q) = without-distinct ks es i o.1 in
    ((All-without (Differs k) ks es i o.0, p), (All-middle (Differs k) ks es i o.0, q))

All-both_le {κ} :
    (P Q : ℕ → Type κ) (R : ℕ → Type κ) (xs : List ℕ)
    → ((x : ℕ) → P x → Q x → R x)
    → All P xs
    → All Q xs
    → All R xs
All-both_le P Q R [] f h k = tt
All-both_le P Q R (x ∷ xs) f h k = (f x h.0 k.0, All-both_le P Q R xs f h.1 k.1)

pub ids-append : (es fs : List WatchListElem) → ids (es ++ fs) ≡ ids es ++ ids fs
ids-append [] fs = refl
ids-append (e ∷ es) fs = ap (λ is. e.clause_id ∷ is) (ids-append es fs)

-- A clause that watches `l` and the other literal is written to watch the other literal and `x`.
module _ (cls : List Clause) (wl : Lit → List WatchListElem) (l : Lit) (ks es : List ℕ) (id : ℕ)
    (y : Clause) (l0 l1 other x : Lit) (rest : List Lit) (j : ℕ)
    (lits : lits_at cls id ≡ l0 ∷ l1 ∷ rest)
    (watches : ((l0 ≡ l) × (l1 ≡ other)) ⊎ ((l1 ≡ l) × (l0 ≡ other)))
    (stands : get_elem? rest j ≡ some x) (written : y.lits ≡ other ∷ x ∷ set rest j l)
    (now : lits_at (set cls id y) id ≡ y.lits)
    (still : (i : ℕ) → i ≢ id → lits_at (set cls id y) i ≡ lits_at cls i)
    (v : IsVisiting cls wl l (ks ++ id ∷ es)) where
  abbrev new : List Clause
  new = set cls id y

  shape_new : lits_at new id ≡ other ∷ x ∷ set rest j l
  shape_new = now ∙ written

  -- The two watches differ, and the rest has neither.
  parts : (l ≢ other) × All (Differs l) rest × All (Differs other) rest × Ordered Differs rest
  parts =
      let (a, (b, o)) = subst (Ordered Differs) lits (v.distinct id) in
      elim watches [
        | inl (p, q) ↦ (
          (λ e. a.0 (p ∙ e ∙ sym q)),
          subst (λ z. All (Differs z) rest) p a.1,
          subst (λ z. All (Differs z) rest) q b,
          o,
        )
        | inr (p, q) ↦ (
          (λ e. a.0 (q ∙ sym e ∙ sym p)),
          subst (λ z. All (Differs z) rest) p b,
          subst (λ z. All (Differs z) rest) q a.1,
          o,
        )
      ]

  distinct_new : Ordered Differs (other ∷ x ∷ set rest j l)
  distinct_new =
      let (apart, fresh, clear, o) = parts in
      let far : l ≢ x = All-get (Differs l) rest j x fresh stands in
      let (p, q) = set-distinct rest j x l stands far fresh o in
      ((All-get (Differs other) rest j x clear stands, put rest j clear), (p, q))
    where
      put : (zs : List Lit) (i : ℕ) → All (Differs other) zs → All (Differs other) (set zs i l)
      put [] i h = tt
      put (w ∷ ws) zero h = ((λ e. parts.0 (sym e)), h.1)
      put (w ∷ ws) (suc i) h = (h.0, put ws i h.1)

  -- The clause is on the lists of its two watches only.
  watched_by : (k : Lit) → Watching cls k id → (k ≡ l) ⊎ (k ≡ other)
  watched_by k w =
      let e = sym lits ∙ w.shape in
      let a : l0 ≡ w.first = cc in
      let b : l1 ≡ w.second = cc in
      elim w.one_of [
        | inl q ↦ elim watches [
          | inl (p, r) ↦ inl (sym (a ∙ q) ∙ p)
          | inr (p, r) ↦ inr (sym (a ∙ q) ∙ r)
        ]
        | inr q ↦ elim watches [
          | inl (p, r) ↦ inr (sym (b ∙ q) ∙ r)
          | inr (p, r) ↦ inl (sym (b ∙ q) ∙ p)
        ]
      ]

  Watching-new : (k : Lit) (i : ℕ) → lit_eq k l ≡ false → Watching cls k i → Watching new k i
  Watching-new k i apart w = elim (Bool-cases (i == id)) [
    | inr other_id ↦ same-Watching cls new k i (still i (λ q. ground (arith, q, other_id))) w
    | inl same ↦
        let q : i ≡ id = ground (arith, same) in
        subst (Watching new k) (sym q) (record {
          first = other;
          second = x;
          others = set rest j l;
          shape = shape_new;
          one_of = elim (watched_by k (subst (Watching cls k) q w)) [
            | inl e ↦ absurd (cc (sym (ap (λ z. lit_eq z l) e ∙ lit_eq_refl l), apart))
            | inr e ↦ inl (sym e)
          ];
        })
  ]

  -- The list of `x` does not have the clause yet.
  not_yet : (i : ℕ) → Watching cls x i → i ≢ id
  not_yet i w q = elim (watched_by x (subst (Watching cls x) q w)) [
    | inl e ↦ All-get (Differs l) rest j x parts.1 stands (sym e)
    | inr e ↦ All-get (Differs other) rest j x parts.2 stands (sym e)
  ]

  pub rewatch-IsVisiting :
      (e : WatchListElem) → e.clause_id ≡ id → IsVisiting new (push_back_at x e wl) l (ks ++ es)
  rewatch-IsVisiting e at = record {
    elsewhere = λ k apart. elim (Bool-cases (lit_eq k x)) [
      | inr off ↦ rw off (
        All-map_le (Watching cls k) (Watching new k) (ids (wl k)) (λ i. Watching-new k i apart)
            (v.elsewhere k apart).0,
        (v.elsewhere k apart).1,
      )
      | inl on ↦
          let q = lit_eq-true k x on in
          let (a, o) = v.elsewhere k apart in
          rw (on, ids-append (wl k) (e ∷ []), at)
            (
              All-append (Watching new k) (ids (wl k)) (id ∷ [])
                  (All-map_le (Watching cls k) (Watching new k) (ids (wl k))
                    (λ i. Watching-new k i apart) a)
                  (
                    record {
                      first = other;
                      second = x;
                      others = set rest j l;
                      shape = shape_new;
                      one_of = inr (sym q);
                    },
                    tt,
                  ),
              Ordered-last Differs (ids (wl k)) id o (
                  All-map_le (Watching cls k) (λ i. i ≢ id) (ids (wl k))
                    (λ i w. not_yet i (subst (λ z. Watching cls z i) q w)) a),
            )
    ];
    here_too =
        (let (o, off) = without-distinct ks es id v.here_too.1 in
          (
            All-both_le (Watching cls l) (λ i. i ≢ id) (Watching new l) (ks ++ es)
                (λ i w d. same-Watching cls new l i (still i d) w)
                (All-without (Watching cls l) ks es id v.here_too.0) off,
            o,
          ));
    distinct = λ i. elim (Bool-cases (i == id)) [
      | inl same ↦
          let q : i ≡ id = ground (arith, same) in
          subst (λ z. Ordered Differs (lits_at new z)) (sym q)
            (subst (Ordered Differs) (sym shape_new) distinct_new)
      | inr off ↦
          subst (Ordered Differs) (sym (still i (λ q. ground (arith, q, off)))) (v.distinct i)
    ];
  }
