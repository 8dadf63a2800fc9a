-- ===== src/Solver/Propagate.antt =====
-- Propagation of the literals of the trail (src/Propagate.cpp) and taking them back (src/Solver.cpp).
use cube_conquer_pb.Base.{
  ℕ, zero, suc, List, [], ◌∷◌, if◌then◌else◌, ltb, ℤ, pos, ◌+ℤ◌, ◌-ℤ◌, ltb_ℤ, none, some, get_or,
  set, drop,
}
use cube_conquer_pb.Constraint.{Lit, Term}
use cube_conquer_pb.Reasons.{pb_constraint, bin_clause}
use cube_conquer_pb.Trail.{Model, is_false_lit, is_undef_lit, set_true_due_to_reason}
use cube_conquer_pb.Solver.{
  GeneralWatchListElem, binclause, clause_elem, counterpb, conflict_bin_clause, conflict_pb, Solver,
  no_constraint, first_coefficient,
}

-- while (idx < size and c.getIthCoefficient(idx) > wslk): the model and `idx`.
unfoldable pub propagate_terms : ℕ → List Term → ℤ → Model → ℕ → Model × ℕ
propagate_terms id [] wslk m idx = (m, idx)
propagate_terms id (t ∷ ts) wslk m idx =
    let rest =
      propagate_terms id ts wslk
        (if is_undef_lit t.1 m then set_true_due_to_reason t.1 (pb_constraint id) m else m)
        (suc idx) in
    if ltb_ℤ wslk (pos t.0) then rest else (m, idx)

unfoldable pub propagate_pb_ctr_counter : ℕ → ℤ → Solver → Solver
unfolding propagate_terms
propagate_pb_ctr_counter id wslk s =
    let c = get_or s.constraints_pb id no_constraint in
    let fresh = ltb c.num_backjump s.num_of_backjump in
    let idx = if fresh then 0 else c.max_w_idx in
    let (m, stop) = propagate_terms id (drop idx c.ctr.lhs) wslk s.model idx in
    record s {
      model = m;
      constraints_pb = set s.constraints_pb id (record c {
        num_backjump = if fresh then s.num_of_backjump else c.num_backjump;
        max_w_idx = stop;
      });
    }

-- propagateInitialConstraintCounter, and checkObjectiveIsConflictingOrPropagating, which is the same code:
-- the coefficients are positive, so that `abs` changes none.
unfoldable pub propagate_initial_constraint_counter : ℕ → Solver → Solver
unfolding propagate_terms
propagate_initial_constraint_counter id s =
    let c = get_or s.constraints_pb id no_constraint in
    let watched = get_or s.sum_of_watches id (pos 0) in
    let wslk = watched +ℤ pos (first_coefficient c.ctr.lhs) in
    let (m, stop) = propagate_terms id c.ctr.lhs wslk s.model 0 in
    if ltb_ℤ watched (pos 0)
    then (if ltb_ℤ wslk (pos 0) then record s { conflict = some (conflict_pb id) } else record s {
      model = m;
      constraints_pb =
          set s.constraints_pb id (record c { num_backjump = s.num_of_backjump; max_w_idx = stop });
    })
    else s

-- The first loop of `visitPBCounterLists`, with `nVisited`.
unfoldable pub visit_counters : List GeneralWatchListElem → Solver → ℕ → Solver × ℕ
unfolding propagate_pb_ctr_counter
visit_counters [] s n = (s, n)
visit_counters (counterpb coef id ∷ es) s n =
    let snf = get_or s.sum_of_watches id (pos 0) -ℤ pos coef in
    let lowered : Solver = record s { sum_of_watches = set s.sum_of_watches id snf } in
    let wslk = snf +ℤ pos (first_coefficient (get_or s.constraints_pb id no_constraint).ctr.lhs) in
    let quiet = visit_counters es lowered (suc n) in
    let forced = visit_counters es (propagate_pb_ctr_counter id wslk lowered) (suc n) in
    if ltb_ℤ snf (pos 0)
    then (if ltb_ℤ wslk (pos 0)
        then (record lowered { conflict = some (conflict_pb id) }, suc n)
        else forced)
    else quiet
visit_counters (binclause other ∷ es) s n = visit_counters es s n
visit_counters (clause_elem cached id ∷ es) s n = visit_counters es s n

-- The second loop: the first `n` counters of the list get their coefficients back. Its test follows a
-- counter that is restored, so that it would run on for n = 0; a conflict has visited one.
unfoldable pub restore_counters : List GeneralWatchListElem → ℕ → List ℤ → List ℤ
restore_counters es zero sums = sums
restore_counters [] (suc n) sums = sums
restore_counters (counterpb coef id ∷ es) (suc n) sums =
    restore_counters es n (set sums id (get_or sums id (pos 0) +ℤ pos coef))
restore_counters (binclause other ∷ es) (suc n) sums = restore_counters es (suc n) sums
restore_counters (clause_elem cached id ∷ es) (suc n) sums = restore_counters es (suc n) sums

-- lit has just become false
unfoldable pub visit_pb_counter_lists : Lit → Solver → Solver
unfolding visit_counters restore_counters
visit_pb_counter_lists l s =
    let (t, n) = visit_counters (s.gen_watch_list l) s 0 in
    elim t.conflict [
      | none ↦ t
      | some k ↦ record t {
        sum_of_watches = restore_counters (t.gen_watch_list l) n t.sum_of_watches;
      }
    ]

unfoldable pub visit_binclauses : Lit → List GeneralWatchListElem → Solver → Solver
visit_binclauses l [] s = s
visit_binclauses l (binclause other ∷ es) s =
    let forced : Solver = record s {
      model = set_true_due_to_reason other (bin_clause l) s.model;
    } in
    let rest = visit_binclauses l es (if is_undef_lit other s.model then forced else s) in
    if is_false_lit other s.model
    then record s { conflict = some (conflict_bin_clause l other) }
    else rest
visit_binclauses l (counterpb coef id ∷ es) s = visit_binclauses l es s
visit_binclauses l (clause_elem cached id ∷ es) s = visit_binclauses l es s

unfoldable pub visit_bin_clause : Lit → Solver → Solver
unfolding visit_binclauses
visit_bin_clause l s = visit_binclauses l (s.gen_watch_list l) s
