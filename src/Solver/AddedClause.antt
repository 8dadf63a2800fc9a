-- ===== src/Solver/AddedClause.antt =====
-- A clause that is added is watched by its first two literals (`addClause` of src/DBAddition.cpp).
use cube_conquer_pb.Base.{
  ℕ, zero, suc, ◌-◌, ◌≡◌, ◌≢◌, refl, sym, ◌∙◌, ap, subst, false, List, [], ◌∷◌, ◌++◌, ◌⊎◌, inl, inr,
  length, get_or, get_elem?, get_elem?-some, All, All-append, All-map_le, Ordered, Ordered-last,
  Option, some, Bool-cases, arith,
}
use cube_conquer_pb.Constraint.{Lit, lit_eq}
use cube_conquer_pb.Solver.{
  GeneralWatchListElem, clause_elem, WatchListElem, Clause, Solver, no_clause, push_back_at,
  add_clause,
}
use cube_conquer_pb.Solver.Counted.{lit_eq-true, lit_eq_refl}
use cube_conquer_pb.Solver.Invariant.{pending, counter_of, variables, InRange, IsSolver, ClauseOk}
use cube_conquer_pb.Solver.Watched.{in_clauses}
use cube_conquer_pb.Solver.Watching.{
  Differs, ids, ids-append, Watching, IsWatchList, IsWatched, same-Watching,
}
use cube_conquer_pb.Solver.Occurrences.{get_or-append_left, get_or-append_last, push-total}

-- A list of one literal with an element pushed to it by both of two literals.
abbrev pub Pushed {ℓ} : {A : Type ℓ} → Lit → Lit → A → (Lit → List A) → (Lit → List A) → Type ℓ
Pushed l0 l1 e before after =
    (after l0 ≡ before l0 ++ e ∷ [])
    × (after l1 ≡ before l1 ++ e ∷ [])
    × ((l : Lit) → l ≢ l0 → l ≢ l1 → after l ≡ before l)

-- What adding a clause with the first two literals `l0` and `l1` leaves.
abbrev pub IsAdded : Clause → Lit → Lit → Solver → Option Solver → Type 0
IsAdded c l0 l1 s r =
    (t : Solver) × (r ≡ some t)
    × (t.clauses ≡ s.clauses ++ c ∷ [])
    × ((cached : Lit) × (get_elem? c.lits (length c.lits - 1) ≡ some cached)
        × Pushed l0 l1 (record { clause_id = length s.clauses; cached_lit = cached }) s.watch_lists
            t.watch_lists
        × Pushed l0 l1 (clause_elem cached (length s.clauses)) s.gen_watch_list t.gen_watch_list)
    × IsSolver t
    × IsWatched t.clauses t.watch_lists

-- Reading the clauses after one is added.
at-append {κ} :
    (P : Clause → Type κ) (cls : List Clause) (c : Clause) (i : ℕ)
    → P (get_or cls i no_clause)
    → P c
    → P (get_or (cls ++ c ∷ []) i no_clause)
at-append P [] c zero h k = k
at-append P [] c (suc i) h k = h
at-append P (x ∷ xs) c zero h k = h
at-append P (x ∷ xs) c (suc i) h k = at-append P xs c i h k

module _ (c : Clause) (s : Solver) (k : IsSolver s) (w : IsWatched s.clauses s.watch_lists)
    (l0 l1 : Lit) (rest : List Lit) (shape : c.lits ≡ l0 ∷ l1 ∷ rest)
    (ok : ClauseOk (variables s) c) (apart : Ordered Differs c.lits) where
  abbrev id : ℕ
  id = length s.clauses

  abbrev new : List Clause
  new = s.clauses ++ c ∷ []

  keep-Watching : (l : Lit) (i : ℕ) → Watching s.clauses l i → Watching new l i × (i ≢ id)
  keep-Watching l i h =
      let below = in_clauses s.clauses i h.first (h.second ∷ h.others) h.shape in
      (
        same-Watching s.clauses new l i
            (ap (λ (x : Clause). x.lits) (get_or-append_left s.clauses (c ∷ []) i no_clause below))
            h,
        λ e. omega (arith, e, below),
      )

  own-Watching : (l : Lit) → (l0 ≡ l) ⊎ (l1 ≡ l) → Watching new l id
  own-Watching l h = record {
    first = l0;
    second = l1;
    others = rest;
    shape = ap (λ (x : Clause). x.lits) (get_or-append_last s.clauses c no_clause) ∙ shape;
    one_of = h;
  }

  kept-list : (l : Lit) → IsWatchList new l (ids (s.watch_lists l))
  kept-list l = (
    All-map_le (Watching s.clauses l) (Watching new l) (ids (s.watch_lists l))
        (λ i h. (keep-Watching l i h).0) (w.lists l).0,
    (w.lists l).1,
  )

  longer-list :
      (l : Lit) (e : WatchListElem)
      → e.clause_id ≡ id
      → (l0 ≡ l) ⊎ (l1 ≡ l)
      → IsWatchList new l (ids (s.watch_lists l ++ e ∷ []))
  longer-list l e at h =
      let old = kept-list l in
      rw (ids-append (s.watch_lists l) (e ∷ []), at)
        (
          All-append (Watching new l) (ids (s.watch_lists l)) (id ∷ []) old.0
              (own-Watching l h, tt),
          Ordered-last Differs (ids (s.watch_lists l)) id old.1 (
              All-map_le (Watching s.clauses l) (λ i. i ≢ id) (ids (s.watch_lists l))
                (λ i h'. (keep-Watching l i h').1) (w.lists l).0),
        )

  abbrev lists : WatchListElem → Lit → List WatchListElem
  lists e = push_back_at l1 e (push_back_at l0 e s.watch_lists)

  first_apart : l0 ≢ l1
  first_apart = (subst (Ordered Differs) shape apart).0.0

  push_back_at-Pushed {ℓ} :
      {A : Type ℓ} (e : A) (f : Lit → List A)
      → Pushed l0 l1 e f (push_back_at l1 e (push_back_at l0 e f))
  push_back_at-Pushed e f =
      let off : lit_eq l0 l1 ≡ false = elim (Bool-cases (lit_eq l0 l1)) [
        | inl same ↦ absurd (first_apart (lit_eq-true l0 l1 same))
        | inr other ↦ other
      ] in
      let off' : lit_eq l1 l0 ≡ false = elim (Bool-cases (lit_eq l1 l0)) [
        | inl same ↦ absurd (first_apart (sym (lit_eq-true l1 l0 same)))
        | inr other ↦ other
      ] in
      (
        rw (off, lit_eq_refl l0) refl,
        rw (lit_eq_refl l1, off') refl,
        λ l ne ne'. elim (Bool-cases (lit_eq l l1)) [
          | inl same ↦ absurd (ne' (lit_eq-true l l1 same))
          | inr f1 ↦ elim (Bool-cases (lit_eq l l0)) [
            | inl same ↦ absurd (ne (lit_eq-true l l0 same))
            | inr f0 ↦ rw (f1, f0) refl
          ]
        ],
      )

  new-IsWatched : (e : WatchListElem) → e.clause_id ≡ id → IsWatched new (lists e)
  new-IsWatched e at = record {
    lists = λ l. elim (Bool-cases (lit_eq l l1)) [
      | inl second ↦
          let q = lit_eq-true l l1 second in
          let off : lit_eq l l0 ≡ false = elim (Bool-cases (lit_eq l l0)) [
            | inl first ↦ absurd (first_apart (sym (lit_eq-true l l0 first) ∙ q))
            | inr f ↦ f
          ] in
          rw (second, off) (longer-list l e at (inr (sym q)))
      | inr not_second ↦ elim (Bool-cases (lit_eq l l0)) [
        | inl first ↦
            rw (not_second, first) (longer-list l e at (inl (sym (lit_eq-true l l0 first))))
        | inr not_first ↦ rw (not_second, not_first) (kept-list l)
      ]
    ];
    distinct =
        λ i. at-append (λ (x : Clause). Ordered Differs x.lits) s.clauses c i (w.distinct i) apart;
  }

  abbrev gens : Lit → Lit → List GeneralWatchListElem
  gens cached =
      push_back_at l1 (clause_elem cached id)
        (push_back_at l0 (clause_elem cached id) s.gen_watch_list)

  gens-pending :
      (cached l : Lit) (i : ℕ) → pending i (gens cached l) ≡ pending i (s.gen_watch_list l)
  gens-pending cached l i =
      let a =
        push-total (counter_of i) (push_back_at l0 (clause_elem cached id) s.gen_watch_list) l1 l
          (clause_elem cached id) in
      let b = push-total (counter_of i) s.gen_watch_list l0 l (clause_elem cached id) in
      ground (arith, a, b)

  push-InRange :
      (x l : Lit) (cached : Lit) (f : Lit → List GeneralWatchListElem)
      → ((z : Lit) → All (InRange (variables s) (length s.constraints_pb)) (f z))
      → All
          (InRange (variables s) (length s.constraints_pb))
          (push_back_at x (clause_elem cached id) f l)
  push-InRange x l cached f h = elim (Bool-cases (lit_eq l x)) [
    | inl e ↦ rw e (
        All-append (InRange (variables s) (length s.constraints_pb)) (f l)
          (clause_elem cached id ∷ []) (h l) (tt, tt))
    | inr e ↦ rw e (h l)
  ]

  abbrev added : Lit → Solver
  added cached = record s {
    clauses = new;
    watch_lists = lists (record { clause_id = id; cached_lit = cached });
    gen_watch_list = gens cached;
  }

  added-IsSolver : (cached : Lit) → IsSolver (added cached)
  added-IsSolver cached = record {
    trail = k.trail;
    listed = record {
      linked = λ l i. gens-pending cached l i ∙ k.listed.linked l i;
      occurs = k.listed.occurs;
      terms_in_range = k.listed.terms_in_range;
      elems_in_range = λ l.
          push-InRange l1 l cached (push_back_at l0 (clause_elem cached id) s.gen_watch_list)
            (λ z. push-InRange l0 z cached s.gen_watch_list k.listed.elems_in_range);
    };
    sized = k.sized;
    counted = k.counted;
    clauses_in_range =
        λ i. at-append (ClauseOk (variables s)) s.clauses c i (k.clauses_in_range i) ok;
  }

  -- From a state that satisfies the invariant with consistent watch lists, a clause of at least two
  -- literals, no literal twice, whose variables are there and whose saved index is past the watches is
  -- added: it is the last clause, its element, with the last literal cached, is pushed to both lists
  -- of its first two literals and to no other list, and the invariant and the watch lists hold again.
  pub add_clause-IsAdded : IsAdded c l0 l1 s (add_clause c s)
  unfolding add_clause
  add_clause-IsAdded =
      let a : get_elem? c.lits 0 ≡ some l0 = ap (λ ls. get_elem? ls 0) shape in
      let b : get_elem? c.lits 1 ≡ some l1 = ap (λ ls. get_elem? ls 1) shape in
      let size : length c.lits ≡ suc (suc (length rest)) = ap length shape in
      let (cached, last) = get_elem?-some c.lits (length c.lits - 1) (omega (arith, size)) in
      let at : add_clause c s ≡ some (added cached) = rw (add_clause, a, b, last) refl in
      (
        added cached,
        at,
        refl,
        (
          cached,
          last,
          push_back_at-Pushed (record { clause_id = id; cached_lit = cached }) s.watch_lists,
          push_back_at-Pushed (clause_elem cached id) s.gen_watch_list,
        ),
        added-IsSolver cached,
        new-IsWatched (record { clause_id = id; cached_lit = cached }) refl,
      )
