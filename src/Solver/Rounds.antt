-- ===== src/Solver/Rounds.antt =====
-- The visit of a watch list does not fail, and keeps the watch lists consistent.
use cube_conquer_pb.Base.{
  ℕ, zero, suc, ◌≡◌, ◌≢◌, refl, sym, ◌∙◌, ap, subst, true, false, List, [], ◌∷◌, ◌++◌, ◌≤◌, ◌<◌,
  ◌⊎◌, inl, inr, length, get_or, get_elem?, set, Option, none, some, Bool-cases, arith,
}
use cube_conquer_pb.Constraint.{Lit, var, lit_eq}
use cube_conquer_pb.Constraint.Semantics.{Assignment, holds}
use cube_conquer_pb.Trail.{is_true_lit, is_undef_lit}
use cube_conquer_pb.ConstraintValue.Slack.{Agrees}
use cube_conquer_pb.Solver.{GeneralWatchListElem, WatchListElem, Clause, Solver, no_clause}
use cube_conquer_pb.Solver.ClauseWatches.{
  other_lit, find_replacement, rewatch, Visit, force_other, watch_another, visit_clause,
  visit_watch, visit_watches, put_at, visit_clause_watch_list,
}
use cube_conquer_pb.Solver.Counted.{lit_eq-true, lit_eq_refl}
use cube_conquer_pb.Solver.Invariant.{lits_at, variables, Reached}
use cube_conquer_pb.Solver.Rewatched.{find_replacement-some, other_lit-cases, get_or-set_either}
use cube_conquer_pb.Solver.Watched.{in_clauses}
use cube_conquer_pb.Solver.Round.{visit_watch-IsStep}
use cube_conquer_pb.Solver.Watching.{
  ids, ids-append, Watching, IsWatchList, IsVisiting, IsWatched, same-IsVisiting,
  rewatch-IsVisiting, All-middle,
}

-- Only the saved index of a clause is written.
set-lits :
    (cls : List Clause) (i : ℕ) (y : Clause)
    → y.lits ≡ lits_at cls i
    → (j : ℕ) → lits_at (set cls i y) j ≡ lits_at cls j
set-lits cls i y e j = elim (get_or-set_either cls i j y) [
  | inl (at, q) ↦ ap (λ (c : Clause). c.lits) q ∙ e ∙ ap (lits_at cls) at
  | inr q ↦ ap (λ (c : Clause). c.lits) q
]

set-own :
    (cls : List Clause) (i : ℕ) (y : Clause) → i < length cls → lits_at (set cls i y) i ≡ y.lits
set-own [] i y w = absurd (omega arith)
set-own (c ∷ cs) zero y w = refl
set-own (c ∷ cs) (suc i) y w = set-own cs i y (omega arith)

other_lit-some :
    (l0 l1 l : Lit) → (l0 ≡ l) ⊎ (l1 ≡ l) → (other : Lit) × (other_lit l0 l1 l ≡ some other)
unfolding other_lit
other_lit-some l0 l1 l h = elim (Bool-cases (lit_eq l0 l)) [
  | inl e ↦ rw e (l1, refl)
  | inr e ↦ elim h [
    | inl q ↦ absurd (cc (sym (ap (λ z. lit_eq z l) q ∙ lit_eq_refl l), e))
    | inr q ↦
        let f : lit_eq l1 l ≡ true = ap (λ z. lit_eq z l) q ∙ lit_eq_refl l in rw (e, f) (l0, refl)
  ]
]

-- What a visit leaves: the elements before, those that it keeps, and those to come.
abbrev Keeps : Lit → List ℕ → List ℕ → Visit → Type 0
Keeps l ks es v = IsVisiting v.after.clauses v.after.watch_lists l (ks ++ (ids v.kept ++ es))

module _ (l : Lit) (e : WatchListElem) (ks es : List ℕ) (s : Solver)
    (v : IsVisiting s.clauses s.watch_lists l (ks ++ e.clause_id ∷ es))
    (past : 2 ≤ (get_or s.clauses e.clause_id no_clause).watch_idx) where
  abbrev cl : Clause
  cl = get_or s.clauses e.clause_id no_clause

  module _ (l0 l1 other : Lit) (rest : List Lit)
      (lits : lits_at s.clauses e.clause_id ≡ l0 ∷ l1 ∷ rest)
      (watches : ((l0 ≡ l) × (l1 ≡ other)) ⊎ ((l1 ≡ l) × (l0 ≡ other))) where
    indexed :
        (k : ℕ)
        → IsVisiting
            (set s.clauses e.clause_id (record cl { watch_idx = k }))
            s.watch_lists
            l
            (ks ++ e.clause_id ∷ es)
    indexed k =
        same-IsVisiting s.clauses (set s.clauses e.clause_id (record cl { watch_idx = k }))
          s.watch_lists l (ks ++ e.clause_id ∷ es)
          (set-lits s.clauses e.clause_id (record cl { watch_idx = k }) refl) v

    force_other-Keeps : Keeps l ks es (
        force_other e other (record s {
          clauses = set s.clauses e.clause_id (record cl { watch_idx = cl.watch_idx });
        }))
    unfolding force_other
    force_other-Keeps = elim (Bool-cases (is_undef_lit other s.model)) [
      | inl u ↦ rw u (indexed cl.watch_idx)
      | inr u ↦ rw u (indexed cl.watch_idx)
    ]

    watch_another-Keeps :
        (j : ℕ) (x : Lit)
        → get_elem? rest j ≡ some x
        → Keeps l ks es (watch_another l e cl other (suc (suc j)) x s)
    unfolding watch_another
    watch_another-Keeps j x stands = elim (Bool-cases (is_true_lit x s.model)) [
      | inl u ↦ rw u (indexed (suc (suc j)))
      | inr u ↦
          let y = rewatch cl (suc (suc j)) other x l in
          let w = in_clauses s.clauses e.clause_id l0 (l1 ∷ rest) lits in
          let now : lits_at (set s.clauses e.clause_id y) e.clause_id ≡ y.lits =
            set-own s.clauses e.clause_id y w in
          let still : (i : ℕ)
              → i ≢ e.clause_id
              → lits_at (set s.clauses e.clause_id y) i ≡ lits_at s.clauses i =
            λ i off. elim (get_or-set_either s.clauses e.clause_id i y) [
              | inl (at, q) ↦ absurd (off (sym at))
              | inr q ↦ ap (λ (c : Clause). c.lits) q
            ] in
          rw u (
            rewatch-IsVisiting s.clauses s.watch_lists l ks es e.clause_id y l0 l1 other x rest j
              lits watches stands (ap (λ ls. set (set (set ls 0 other) 1 x) (suc (suc j)) l) lits)
              now still v (record { clause_id = e.clause_id; cached_lit = l }) refl)
    ]

    visit_clause-Keeps : Keeps l ks es (visit_clause l e cl other s)
    unfolding visit_clause
    visit_clause-Keeps = elim (Bool-cases (is_true_lit other s.model)) [
      | inl up ↦ rw up v
      | inr off ↦ rw off (from (find_replacement cl s.model) refl)
    ]
      where
        from :
            (f : Option (ℕ × Lit))
            → find_replacement cl s.model ≡ f
            → Keeps l ks es (elim f [
              | some (k, x) ↦ watch_another l e cl other k x s
              | none ↦ force_other e other (record s {
                clauses = set s.clauses e.clause_id (record cl { watch_idx = cl.watch_idx });
              })
            ])
        from none q = force_other-Keeps
        from (some (k, x)) q =
            let (j, at, stands, up) =
              find_replacement-some s.model l0 l1 rest cl.watch_idx k x past (
                subst
                  (λ ls.
                    find_replacement (record { lits = ls; watch_idx = cl.watch_idx }) s.model
                    ≡ some (k, x))
                  lits q) in
            subst (λ i. Keeps l ks es (watch_another l e cl other i x s)) (sym at)
              (watch_another-Keeps j x stands)

  -- The visit of an element ends.
  pub visit_watch-Keeps : (u : Visit) × (visit_watch l e s ≡ some u) × Keeps l ks es u
  unfolding visit_watch
  visit_watch-Keeps = elim (Bool-cases (is_true_lit e.cached_lit s.model)) [
    | inl up ↦ rw up (_, refl, v)
    | inr off ↦
        let w = All-middle (Watching s.clauses l) ks es e.clause_id v.here_too.0 in
        let (other, found) = other_lit-some w.first w.second l w.one_of in
        let a : get_elem? (lits_at s.clauses e.clause_id) 0 ≡ some w.first =
          ap (λ ls. get_elem? ls 0) w.shape in
        let b : get_elem? (lits_at s.clauses e.clause_id) 1 ≡ some w.second =
          ap (λ ls. get_elem? ls 1) w.shape in
        rw (off, a, b, found)
          (
            visit_clause l e cl other s,
            refl,
            visit_clause-Keeps w.first w.second other w.others w.shape
                (other_lit-cases w.first w.second l other found),
          )
  ]

append_ids : (xs ys zs : List ℕ) → (xs ++ ys) ++ zs ≡ xs ++ (ys ++ zs)
append_ids [] ys zs = refl
append_ids (x ∷ xs) ys zs = ap (λ us. x ∷ us) (append_ids xs ys zs)

stop_ids : (ks fs es : List WatchListElem) → ids (ks ++ fs ++ es) ≡ ids ks ++ (ids fs ++ ids es)
stop_ids ks fs es =
    ids-append (ks ++ fs) es
    ∙ ap (λ is. is ++ ids es) (ids-append ks fs)
    ∙ append_ids (ids ks) (ids fs) (ids es)

append_none : (es : List WatchListElem) → es ++ [] ≡ es
append_none [] = refl
append_none (e ∷ es) = ap (λ xs. e ∷ xs) (append_none es)

-- What the loop reaches.
abbrev pub Loops : Lit → Option (List WatchListElem × Solver) → Type 0
Loops l r =
    (out : List WatchListElem) × (t : Solver) × (r ≡ some (out, t))
    × IsVisiting t.clauses t.watch_lists l (ids out)

module _ (o : Solver) (ws : List GeneralWatchListElem) (l : Lit) (in_range : var l < variables o)
    (down : (σ : Assignment) → Agrees o.model σ → holds σ l ≡ false) where
  visit_watches-Loops :
      (es kept : List WatchListElem) (s : Solver)
      → Reached o ws s
      → s.conflict ≡ none
      → IsVisiting s.clauses s.watch_lists l (ids kept ++ ids es)
      → Loops l (visit_watches l es kept s)
  unfolding visit_watches
  visit_watches-Loops [] kept s r c v = (
    kept,
    s,
    refl,
    subst (IsVisiting s.clauses s.watch_lists l)
        (sym (ids-append kept []) ∙ ap ids (append_none kept)) v,
  )
  visit_watches-Loops (e ∷ es) kept s r c v =
      let past = (r.clauses_in_range e.clause_id).0 in
      let (u, at, keeps) = visit_watch-Keeps l e (ids kept) (ids es) s v past in
      let (reached, ends) = visit_watch-IsStep o ws l in_range down e s u r c at in
      elim ends [
        | inl (goes, quiet) ↦
            rw (visit_watches, at, goes)
              (visit_watches-Loops es (kept ++ u.kept) u.after reached quiet (
                subst (IsVisiting u.after.clauses u.after.watch_lists l)
                  (sym (
                    ap (λ is. is ++ ids es) (ids-append kept u.kept)
                    ∙ append_ids (ids kept) (ids u.kept) (ids es)))
                  keeps))
        | inr (stops, k, refuted) ↦
            rw (visit_watches, at, stops)
              (
                kept ++ u.kept ++ es,
                u.after,
                refl,
                subst (IsVisiting u.after.clauses u.after.watch_lists l)
                    (sym (stop_ids kept u.kept es)) keeps,
              )
      ]

  -- The visit of the list ends, and the lists are consistent again.
  pub visit_clause_watch_list-IsWatched :
      (s : Solver)
      → Reached o ws s
      → s.conflict ≡ none
      → IsWatched s.clauses s.watch_lists
      → (t : Solver) × (visit_clause_watch_list l s ≡ some t) × IsWatched t.clauses t.watch_lists
  unfolding visit_clause_watch_list
  visit_clause_watch_list-IsWatched s r c w =
      let (out, t, at, v) = visit_watches-Loops (s.watch_lists l) [] s r c (record {
        elsewhere = λ k apart. w.lists k;
        here_too = w.lists l;
        distinct = w.distinct;
      }) in
      rw (visit_clause_watch_list, at)
        (
          record t { watch_lists = put_at l out t.watch_lists },
          refl,
          record {
            lists = λ k. elim (Bool-cases (lit_eq k l)) [
              | inl same ↦
                  let q = lit_eq-true k l same in
                  rw same (subst (λ z. IsWatchList t.clauses z (ids out)) (sym q) v.here_too)
              | inr apart ↦ rw apart (v.elsewhere k apart)
            ];
            distinct = v.distinct;
          },
        )
