-- ===== src/Solver/Round.antt =====
-- A round of propagation: the visits of one literal keep the invariant, force only literals that are true
-- in each solution, and report a conflict only where the trail has no solution.
use cube_conquer_pb.Base.{
  ℕ, suc, ◌≡◌, refl, sym, ◌∙◌, ap, subst, true, false, List, [], ◌∷◌, ◌++◌, ◌<◌, ◌⊎◌, inl, inr,
  length, get_or, get_elem?, All, Option, none, some, Bool-cases, Option-cases, arith,
}
use cube_conquer_pb.Constraint.{Lit, var}
use cube_conquer_pb.Constraint.Semantics.{Assignment, holds}
use cube_conquer_pb.Trail.{is_true_lit}
use cube_conquer_pb.Trail.Undo.{IsTrail}
use cube_conquer_pb.ConstraintValue.Slack.{Agrees}
use cube_conquer_pb.Solver.{GeneralWatchListElem, WatchListElem, Solver, no_clause}
use cube_conquer_pb.Solver.Propagate.{
  visit_counters, visit_pb_counter_lists, restore_counters, visit_bin_clause,
}
use cube_conquer_pb.Solver.ClauseWatches.{
  other_lit, Visit, visit_clause, visit_watch, visit_watches, put_at, visit_clause_watch_list,
}
use cube_conquer_pb.Solver.Loop.{visit_all, has_conflict}
use cube_conquer_pb.Solver.Invariant.{
  lits_at, variables, InRange, IsListed, IsRefuted, Reached, Reached-update, HasConflict, IsVisited,
}
use cube_conquer_pb.Solver.Forced.{visit_binclauses-IsVisited}
use cube_conquer_pb.Solver.Rewatched.{other_lit-cases}
use cube_conquer_pb.Solver.Watched.{IsStep, visit_clause-IsStep}
use cube_conquer_pb.Solver.Restored.{
  Ends, visit_counters-Ends, restore_counters-Counted, length-restore_counters,
}

get_elem?-two :
    (ls : List Lit) (l0 l1 : Lit)
    → get_elem? ls 0 ≡ some l0
    → get_elem? ls 1 ≡ some l1
    → (rest : List Lit) × (ls ≡ l0 ∷ l1 ∷ rest)
get_elem?-two [] l0 l1 e f = absurd (cc e)
get_elem?-two (x ∷ []) l0 l1 e f = absurd (cc f)
get_elem?-two (x ∷ y ∷ rest) l0 l1 e f =
    let p : x ≡ l0 = cc in
    let q : y ≡ l1 = cc in (rest, ap (λ z. z ∷ y ∷ rest) p ∙ ap (λ z. l0 ∷ z ∷ rest) q)

visit_eq : (v w : Visit) → some v ≡ some w → v ≡ w
visit_eq v w e = cc

abbrev with_other : Lit → WatchListElem → Solver → Option Lit → Option Visit
with_other l e s none = none
with_other l e s (some other) =
    some (visit_clause l e (get_or s.clauses e.clause_id no_clause) other s)

module _ (o : Solver) (ws : List GeneralWatchListElem) (l : Lit) (in_range : var l < variables o)
    (down : (σ : Assignment) → Agrees o.model σ → holds σ l ≡ false) where
  pub visit_watch-IsStep :
      (e : WatchListElem) (s : Solver) (v : Visit)
      → Reached o ws s
      → s.conflict ≡ none
      → visit_watch l e s ≡ some v
      → IsStep o ws v
  unfolding visit_watch
  visit_watch-IsStep e s v r c q = elim (Bool-cases (is_true_lit e.cached_lit s.model)) [
    | inl up ↦ subst (IsStep o ws) (visit_eq _ v (rw up at q)) (r, inl (refl, c))
    | inr off ↦ first (get_elem? (lits_at s.clauses e.clause_id) 0) refl (rw off at q)
  ]
    where
      third :
          (l0 l1 : Lit) (f : Option Lit)
          → get_elem? (lits_at s.clauses e.clause_id) 0 ≡ some l0
          → get_elem? (lits_at s.clauses e.clause_id) 1 ≡ some l1
          → other_lit l0 l1 l ≡ f
          → with_other l e s f ≡ some v
          → IsStep o ws v
      third l0 l1 none a b d g = absurd (cc g)
      third l0 l1 (some other) a b d g =
          let (rest, shape) = get_elem?-two (lits_at s.clauses e.clause_id) l0 l1 a b in
          subst (IsStep o ws) (visit_eq _ v g) (
            visit_clause-IsStep o ws l in_range down s r e l0 l1 other rest shape
              (other_lit-cases l0 l1 l other d) c)

      second :
          (l0 : Lit) (f : Option Lit)
          → get_elem? (lits_at s.clauses e.clause_id) 0 ≡ some l0
          → get_elem? (lits_at s.clauses e.clause_id) 1 ≡ f
          → (elim f [ none ↦ none | some l1 ↦ with_other l e s (other_lit l0 l1 l) ]) ≡ some v
          → IsStep o ws v
      second l0 none a b g = absurd (cc g)
      second l0 (some l1) a b g = third l0 l1 (other_lit l0 l1 l) a b refl g

      first :
          (f : Option Lit)
          → get_elem? (lits_at s.clauses e.clause_id) 0 ≡ f
          → (elim f [
            | none ↦ none
            | some l0 ↦ elim (get_elem? (lits_at s.clauses e.clause_id) 1) [
              | none ↦ none
              | some l1 ↦ with_other l e s (other_lit l0 l1 l)
            ]
          ])
            ≡ some v
          → IsStep o ws v
      first none a g = absurd (cc g)
      first (some l0) a g = second l0 (get_elem? (lits_at s.clauses e.clause_id) 1) a refl g

  visit_watches-IsVisited :
      (es kept out : List WatchListElem) (s t : Solver)
      → Reached o ws s
      → s.conflict ≡ none
      → visit_watches l es kept s ≡ some (out, t)
      → IsVisited o ws t
  unfolding visit_watches
  visit_watches-IsVisited [] kept out s t r c q =
      let same : s ≡ t = cc in subst (IsVisited o ws) same (r, inl c)
  visit_watches-IsVisited (e ∷ es) kept out s t r c q = elim (Option-cases (visit_watch l e s)) [
    | inl none_is ↦ absurd (cc (rw (none_is, visit_watches) at q))
    | inr (v, a) ↦
        let g = rw (a, visit_watches) at q in
        let (reached, ends) = visit_watch-IsStep e s v r c a in
        elim ends [
          | inl (goes, quiet) ↦
              visit_watches-IsVisited es (kept ++ v.kept) out v.after t reached quiet (rw goes at g)
          | inr (stops, k, refuted) ↦
              let g' = rw stops at g in
              let same : v.after ≡ t = cc in subst (IsVisited o ws) same (reached, inr (k, refuted))
        ]
  ]

  visit_clause_watch_list-IsVisited :
      (s t : Solver)
      → Reached o ws s
      → s.conflict ≡ none
      → visit_clause_watch_list l s ≡ some t
      → IsVisited o ws t
  unfolding visit_clause_watch_list
  visit_clause_watch_list-IsVisited s t r c q =
      elim (Option-cases (visit_watches l (s.watch_lists l) [] s)) [
        | inl none_is ↦ absurd (cc (rw (none_is, visit_clause_watch_list) at q))
        | inr ((kept, u), a) ↦
            let g = rw (a, visit_clause_watch_list) at q in
            let (reached, ends) = visit_watches-IsVisited (s.watch_lists l) [] kept s u r c a in
            let same : record u { watch_lists = put_at l kept u.watch_lists } ≡ t = cc in
            subst (IsVisited o ws) same (
              Reached-update o u ws u.model u.clauses (put_at l kept u.watch_lists) u.conflict
                  reached reached.grows reached.covers reached.clauses_in_range,
              ends,
            )
      ]

  -- The end of a round: the list is visited, or a conflict refutes the trail and the counters are restored.
  abbrev pub EndsRound : Solver → Type 0
  EndsRound t =
      ((t.conflict ≡ none) × Reached o [] t) ⊎ (HasConflict t × IsRefuted o × Reached o ws t)

  restored-EndsRound :
      (r : Solver × ℕ)
      → ws ≡ o.gen_watch_list l
      → Ends o ws 0 r
      → EndsRound (elim r.0.conflict [
        | none ↦ r.0
        | some k ↦ record r.0 {
          sum_of_watches = restore_counters (r.0.gen_watch_list l) r.1 r.0.sum_of_watches;
        }
      ])
  restored-EndsRound r w (inl (c, reached)) = rw c (inl (c, reached))
  restored-EndsRound r w (inr (j, at, q, (k, e), refuted)) =
      let list : r.0.gen_watch_list l ≡ ws = ap (λ f. f l) q.same_gen ∙ sym w in
      let number : r.1 ≡ suc j = omega (arith, at) in
      let same = q.sized in
      let long = q.same_len in
      rw (e, list, number)
        (inr (
          (k, e),
          refuted,
          record {
            grows = q.grows;
            same_ctrs = q.same_ctrs;
            same_len = q.same_len;
            sized = length-restore_counters ws (suc j) r.0.sum_of_watches ∙ q.sized;
            counted =
                restore_counters-Counted o ws (suc j) r.0.sum_of_watches (omega (arith, same, long))
                  q.counted;
            same_gen = q.same_gen;
            same_occ = q.same_occ;
            covers = q.covers;
            clauses_in_range = q.clauses_in_range;
          },
        ))

  module _ (trail : IsTrail o.model) (listed : IsListed o) (w : ws ≡ o.gen_watch_list l) where
    in_list : All (InRange (variables o) (length o.constraints_pb)) ws
    in_list =
        subst (All (InRange (variables o) (length o.constraints_pb))) (sym w)
          (listed.elems_in_range l)

    visit_pb_counter_lists-EndsRound :
        (s : Solver) → Reached o ws s → s.conflict ≡ none → EndsRound (visit_pb_counter_lists l s)
    unfolding visit_pb_counter_lists
    visit_pb_counter_lists-EndsRound s r c =
        restored-EndsRound (visit_counters (s.gen_watch_list l) s 0) w (
          subst (λ es. Ends o ws 0 (visit_counters es s 0)) (w ∙ ap (λ f. f l) (sym r.same_gen))
            (visit_counters-Ends o trail listed ws s 0 in_list r c))

    pub visit_bin_clause-IsVisited :
        Reached o ws o → o.conflict ≡ none → IsVisited o ws (visit_bin_clause l o)
    unfolding visit_bin_clause
    visit_bin_clause-IsVisited r c =
        visit_binclauses-IsVisited o ws l down (o.gen_watch_list l) o (listed.elems_in_range l)
          (λ σ all. all.bins l) r c

    of_conflict : (s : Solver) → IsVisited o ws s → has_conflict s ≡ true → EndsRound s
    of_conflict s (r, inl c) e = absurd (cc (rw c at e))
    of_conflict s (r, inr (k, refuted)) e = inr (k, refuted, r)

    pub of_quiet : (s : Solver) → IsVisited o ws s → has_conflict s ≡ false → s.conflict ≡ none
    of_quiet s (r, inl c) e = c
    of_quiet s (r, inr ((k, q), refuted)) e = absurd (cc (rw q at e))

    pub visit_all-EndsRound :
        (t : Solver) → Reached o ws o → o.conflict ≡ none → visit_all l o ≡ some t → EndsRound t
    unfolding visit_all
    visit_all-EndsRound t r c q =
        let first = visit_bin_clause-IsVisited r c in
        let s1 = visit_bin_clause l o in
        elim (Bool-cases (has_conflict s1)) [
          | inl e ↦
              (let same : s1 ≡ t = (cc (rw (visit_all, e) at q)) in
                subst EndsRound same (of_conflict s1 first e))
          | inr e ↦ elim (Option-cases (visit_clause_watch_list l s1)) [
            | inl none_is ↦ absurd (cc (rw (visit_all, e, none_is) at q))
            | inr (s2, a) ↦
                let second =
                  visit_clause_watch_list-IsVisited s1 s2 first.0 (of_quiet s1 first e) a in
                elim (Bool-cases (has_conflict s2)) [
                  | inl f ↦
                      let g = rw (visit_all, e, a, f) at q in
                      let same : s2 ≡ t = cc in subst EndsRound same (of_conflict s2 second f)
                  | inr f ↦
                      let g = rw (visit_all, e, a, f) at q in
                      let same : visit_pb_counter_lists l s2 ≡ t = cc in
                      subst EndsRound same
                        (visit_pb_counter_lists-EndsRound s2 second.0 (of_quiet s2 second f))
                ]
          ]
        ]
