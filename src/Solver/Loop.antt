-- ===== src/Solver/Loop.antt =====
-- The loop of `propagate` (src/Propagate.cpp), and `popAndUnassign` and `backjumpToDL` (src/Solver.cpp).
use cube_conquer_pb.Base.{
  ℕ, zero, suc, ◌+◌, ◌-◌, Bool, true, false, List, [], ◌∷◌, if◌then◌else◌, ltb, ◌==◌, ℤ, pos, ◌+ℤ◌,
  Option, none, some, length, get_or, set,
}
use cube_conquer_pb.Constraint.{Lit, neg}
use cube_conquer_pb.Trail.{
  Model, current_decision_level, is_lit_propagated, get_next_lit_to_propagate_pb, pop_and_unassign,
}
use cube_conquer_pb.Solver.{OccurListElem, Solver}
use cube_conquer_pb.Solver.Propagate.{visit_bin_clause, visit_pb_counter_lists}
use cube_conquer_pb.Solver.ClauseWatches.{visit_clause_watch_list}

-- --model.lastPropagated
abbrev pub step_back : Solver → Solver
step_back s = record s { model = record s.model { propagated = s.model.propagated - 1 } }

abbrev pub has_conflict : Solver → Bool
has_conflict s = elim s.conflict [ none ↦ false | some k ↦ true ]

-- The three visits for a literal `l` that has become false; a conflict skips the later ones.
unfoldable pub visit_all : Lit → Solver → Option Solver
unfolding visit_bin_clause visit_clause_watch_list visit_pb_counter_lists
visit_all l s =
    let s1 = visit_bin_clause l s in
    if has_conflict s1 then some s1 else elim (visit_clause_watch_list l s1) [
      | none ↦ none
      | some s2 ↦ some (if has_conflict s2 then s2 else visit_pb_counter_lists l s2)
    ]

-- The literal 0, which `getNextLitToPropagatePB` gives when there is none, fails an assertion.
unfoldable pub visit_next : Option Lit × Model → Solver → Option Solver
unfolding visit_all
visit_next (none, m) s = none
visit_next (some l, m) s = visit_all (neg l) (record s { model = m })

-- while (true), for at most `fuel` rounds. A round propagates one literal of the trail, which has a place
-- for each variable, so that one round more than there are variables is enough. `none` is the end of the
-- fuel or an assertion that fails.
unfoldable pub propagate : ℕ → Solver → Option Solver
unfolding visit_next get_next_lit_to_propagate_pb
propagate zero s = none
propagate (suc fuel) s =
    if s.model.propagated == length s.model.model_stack
    then some s
    else elim (visit_next (get_next_lit_to_propagate_pb s.model) s) [
      | none ↦ none
      | some t ↦ elim (has_conflict t) [ true ↦ some (step_back t) | false ↦ propagate fuel t ]
    ]

unfoldable pub add_back : List OccurListElem → List ℤ → List ℤ
add_back [] sums = sums
add_back (e ∷ es) sums =
    add_back es (set sums e.ctr_id (get_or sums e.ctr_id (pos 0) +ℤ pos e.coefficient))

-- `popAndUnassign` on the databases and the model; `none` on an empty trail.
unfoldable pub undo_top : Solver → Option (Lit × Solver)
unfolding add_back
undo_top s = elim (pop_and_unassign s.model) [
  | none ↦ none
  | some (l, m) ↦ some (
    l,
    record s {
      sum_of_watches =
          if is_lit_propagated l s.model
          then add_back (s.occur_lists (neg l)) s.sum_of_watches
          else s.sum_of_watches;
      model = m;
    },
  )
]

-- while (model.currentDecisionLevel() > dl) popAndUnassign(): one round for each literal of the trail.
unfoldable pub undo_to : ℕ → ℕ → Solver → Option Solver
unfolding undo_top
undo_to zero dl s = if ltb dl (current_decision_level s.model.model_stack) then none else some s
undo_to (suc fuel) dl s =
    if ltb dl (current_decision_level s.model.model_stack)
    then elim (undo_top s) [ none ↦ none | some (l, t) ↦ undo_to fuel dl t ]
    else some s

-- backjumpToDL
unfoldable pub backjump_to_dl : ℕ → Solver → Option Solver
unfolding undo_to
backjump_to_dl dl s =
    undo_to (length s.model.model_stack) dl (record s { num_of_backjump = s.num_of_backjump + 1 })
