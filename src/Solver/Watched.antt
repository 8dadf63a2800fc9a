-- ===== src/Solver/Watched.antt =====
-- The clauses that watch a literal that has become false force literals that each solution makes true,
-- and the clauses keep their solutions when their watches change.
use cube_conquer_pb.Base.{
  ℕ, zero, suc, ◌≡◌, refl, sym, ◌∙◌, ap, subst, true, false, List, [], ◌∷◌, ◌≤◌, ◌<◌, ◌⊎◌, inl, inr,
  length, get_or, get_elem?, set, All, Any, here, there, Option, none, some, Bool-cases, All-get,
  arith,
}
use cube_conquer_pb.Constraint.{Lit, plus, minus, var}
use cube_conquer_pb.Constraint.Semantics.{Assignment, holds}
use cube_conquer_pb.Reasons.{clause}
use cube_conquer_pb.Trail.{Model, is_true_lit, is_false_lit, is_undef_lit, value_of_lit}
use cube_conquer_pb.ConstraintValue.Slack.{Agrees, Agrees-false}
use cube_conquer_pb.Solver.{
  GeneralWatchListElem, WatchListElem, Clause, Solver, conflict_clause, no_clause,
}
use cube_conquer_pb.Solver.ClauseWatches.{
  find_replacement, rewatch, set_watch_idx, Visit, force_other, watch_another, visit_clause,
}
use cube_conquer_pb.Solver.Invariant.{
  lits_at, variables, ClauseOk, Entailed, IsRefuted, Reached, Reached-update, Reached-conflict,
  Reached-Agrees, HasConflict,
}
use cube_conquer_pb.Solver.Forced.{Reached-force}
use cube_conquer_pb.Solver.Rewatched.{
  AllFalse, find_replacement-none, find_replacement-some, rewatch-Any, rewatch-All, set-Covers,
  set-ClausesInRange,
}

-- One element is visited: the loop goes on without a conflict, or stops at one that refutes the trail.
abbrev pub IsStep : Solver → List GeneralWatchListElem → Visit → Type 0
IsStep o ws v =
    Reached o ws v.after
    × (((v.goes_on ≡ true) × (v.after.conflict ≡ none))
        ⊎ ((v.goes_on ≡ false) × HasConflict v.after × IsRefuted o))

pub in_clauses :
    (cls : List Clause) (id : ℕ) (l : Lit) (ls : List Lit)
    → lits_at cls id ≡ l ∷ ls
    → id < length cls
in_clauses [] id l ls e = absurd (cc e)
in_clauses (c ∷ cs) zero l ls e = omega arith
in_clauses (c ∷ cs) (suc id) l ls e = omega (arith, in_clauses cs id l ls e)

neither_is_false :
    (l : Lit) (m : Model)
    → is_true_lit l m ≡ false
    → is_undef_lit l m ≡ false
    → is_false_lit l m ≡ true
unfolding is_true_lit is_undef_lit is_false_lit value_of_lit
neither_is_false (plus v) m e f = ground (arith, e, f)
neither_is_false (minus v) m e f = ground (arith, e, f)

AllFalse-Any :
    (m : Model) (σ : Assignment) (ls : List Lit)
    → Agrees m σ
    → AllFalse m ls
    → ¬ Any (λ l. holds σ l ≡ true) ls
AllFalse-Any m σ [] a f h = elim h [ ]
AllFalse-Any m σ (l ∷ ls) a f (here h) = let off = Agrees-false m σ l a f.0 in cc
AllFalse-Any m σ (l ∷ ls) a f (there h) = AllFalse-Any m σ ls a f.1 h

module _ (o : Solver) (ws : List GeneralWatchListElem) (l : Lit) (in_range : var l < variables o)
    (down : (σ : Assignment) → Agrees o.model σ → holds σ l ≡ false) where
  -- The clause that an element watches.
  module _ (s : Solver) (r : Reached o ws s) (e : WatchListElem) (l0 l1 other : Lit)
      (rest : List Lit) (lits : lits_at s.clauses e.clause_id ≡ l0 ∷ l1 ∷ rest)
      (watches : ((l0 ≡ l) × (l1 ≡ other)) ⊎ ((l1 ≡ l) × (l0 ≡ other))) where
    abbrev cl : Clause
    cl = get_or s.clauses e.clause_id no_clause

    cl_ok : ClauseOk (variables o) cl
    cl_ok = r.clauses_in_range e.clause_id

    parts_in_range : (var other < variables o) × All (λ k. var k < variables o) rest
    parts_in_range =
        let (a, (b, c)) = subst (All (λ k. var k < variables o)) lits cl_ok.1 in
        elim watches [
          | inl (p, q) ↦ (subst (λ k. var k < variables o) q b, c)
          | inr (p, q) ↦ (subst (λ k. var k < variables o) q a, c)
        ]

    -- With the rest false the clause leaves the other watch.
    other-Entailed : AllFalse s.model rest → Entailed o other
    other-Entailed f σ all a = from (subst (Any (λ k. holds σ k ≡ true)) lits some_lit)
      where
        some_lit : Any (λ k. holds σ k ≡ true) (lits_at s.clauses e.clause_id)
        some_lit =
            r.covers σ all.clauses e.clause_id
              (in_clauses s.clauses e.clause_id l0 (l1 ∷ rest) lits)

        of_watch : (x : Lit) → (x ≡ l) ⊎ (x ≡ other) → holds σ x ≡ true → holds σ other ≡ true
        of_watch x (inl q) h =
            let off = down σ a in let on = ap (holds σ) (sym q) ∙ h in absurd (cc (off, on))
        of_watch x (inr q) h = ap (holds σ) (sym q) ∙ h

        from : Any (λ k. holds σ k ≡ true) (l0 ∷ l1 ∷ rest) → holds σ other ≡ true
        from (here h) = of_watch l0 (elim watches [ inl (p, q) ↦ inl p | inr (p, q) ↦ inr q ]) h
        from (there (here h)) =
            of_watch l1 (elim watches [ inl (p, q) ↦ inr q | inr (p, q) ↦ inl p ]) h
        from (there (there h)) =
            absurd (AllFalse-Any s.model σ rest (Reached-Agrees o s ws σ r all a) f h)

    Reached-set_watch_idx : (k : ℕ) → 2 ≤ k → Reached o ws (set_watch_idx e.clause_id cl k s)
    Reached-set_watch_idx k w =
        Reached-update o s ws s.model (set s.clauses e.clause_id (record cl { watch_idx = k }))
          s.watch_lists s.conflict r r.grows
          (λ σ c.
            set-Covers σ s.clauses e.clause_id (record cl { watch_idx = k }) (λ h. h)
              (r.covers σ c))
          (set-ClausesInRange (variables o) s.clauses e.clause_id (record cl { watch_idx = k })
            (w, cl_ok.1) r.clauses_in_range)

    force_other-IsStep :
        AllFalse s.model rest
        → is_true_lit other s.model ≡ false
        → s.conflict ≡ none
        → IsStep o ws (force_other e other (set_watch_idx e.clause_id cl cl.watch_idx s))
    unfolding force_other
    force_other-IsStep f up c =
        let kept_watch = Reached-set_watch_idx cl.watch_idx cl_ok.0 in
        let entailed = other-Entailed f in
        elim (Bool-cases (is_undef_lit other s.model)) [
          | inl undef ↦ rw undef (
            Reached-force o _ ws other (clause e.clause_id) kept_watch parts_in_range.0 undef
                entailed,
            inl (refl, c),
          )
          | inr set_already ↦
              let off = neither_is_false other s.model up set_already in
              rw set_already (
                Reached-conflict o _ ws (some (conflict_clause e.clause_id)) kept_watch,
                inr (
                  refl,
                  (conflict_clause e.clause_id, refl),
                  λ σ all a.
                      let lost =
                        Agrees-false s.model σ other (Reached-Agrees o s ws σ r all a) off in
                      let won = entailed σ all a in cc,
                ),
              )
        ]

    watch_another-IsStep :
        (j : ℕ) (x : Lit)
        → get_elem? rest j ≡ some x
        → s.conflict ≡ none
        → IsStep o ws (watch_another l e cl other (suc (suc j)) x s)
    unfolding watch_another
    watch_another-IsStep j x stands c = elim (Bool-cases (is_true_lit x s.model)) [
      | inl up ↦ rw up (Reached-set_watch_idx (suc (suc j)) (omega arith), inl (refl, c))
      | inr unknown ↦
          let y = rewatch cl (suc (suc j)) other x l in
          let x_in_range = All-get (λ k. var k < variables o) rest j x parts_in_range.1 stands in
          rw unknown (
            Reached-update o s ws s.model (set s.clauses e.clause_id y) _ s.conflict r r.grows
                (λ σ c'.
                  set-Covers σ s.clauses e.clause_id y
                    (rewatch-Any (λ k. holds σ k ≡ true) cl l0 l1 rest j l other x lits watches
                      stands)
                    (r.covers σ c'))
                (set-ClausesInRange (variables o) s.clauses e.clause_id y
                  (
                    omega arith,
                    rewatch-All (λ k. var k < variables o) cl (suc (suc j)) l other x in_range
                        parts_in_range.0 x_in_range cl_ok.1,
                  )
                  r.clauses_in_range),
            inl (refl, c),
          )
    ]

    search_again :
        (f : Option (ℕ × Lit))
        → find_replacement cl s.model ≡ f
        → find_replacement (record { lits = l0 ∷ l1 ∷ rest; watch_idx = cl.watch_idx }) s.model ≡ f
    search_again f q =
        subst (λ ls. find_replacement (record { lits = ls; watch_idx = cl.watch_idx }) s.model ≡ f)
          lits q

    pub visit_clause-IsStep : s.conflict ≡ none → IsStep o ws (visit_clause l e cl other s)
    unfolding visit_clause
    visit_clause-IsStep c = elim (Bool-cases (is_true_lit other s.model)) [
      | inl up ↦ rw up (r, inl (refl, c))
      | inr off ↦ rw off (from (find_replacement cl s.model) refl off)
    ]
      where
        from :
            (f : Option (ℕ × Lit))
            → find_replacement cl s.model ≡ f
            → is_true_lit other s.model ≡ false
            → IsStep o ws (elim f [
              | some (k, x) ↦ watch_another l e cl other k x s
              | none ↦ force_other e other (set_watch_idx e.clause_id cl cl.watch_idx s)
            ])
        from none q off =
            force_other-IsStep
              (find_replacement-none s.model l0 l1 rest cl.watch_idx cl_ok.0 (search_again none q))
              off c
        from (some (k, x)) q off =
            let (j, at, stands, up) =
              find_replacement-some s.model l0 l1 rest cl.watch_idx k x cl_ok.0
                (search_again (some (k, x)) q) in
            subst (λ i. IsStep o ws (watch_another l e cl other i x s)) (sym at)
              (watch_another-IsStep j x stands c)
