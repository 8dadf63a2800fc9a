-- ===== src/SolverExamples.antt =====
-- The theorems on propagation at a trail of one decision that is not propagated, not x1, and the
-- constraint x1 + x2 >= 1, which then forces x2.
use cube_conquer_pb.Base.{
  ℕ, zero, suc, ◌+◌, ◌≡◌, ◌<◌, ◌⊎◌, refl, sym, [], ◌∷◌, none, some, get_or, true, inl, pos, ◌<ℤ◌,
  ◌↔◌, Any, length, Ordered, ◌==◌, arith,
}
use cube_conquer_pb.Constraint.{plus, minus, WConstraint}
use cube_conquer_pb.Constraint.Semantics.{Assignment, Satisfies}
use cube_conquer_pb.Reasons.{no_reason}
use cube_conquer_pb.Trail.{unassigned, is_false, Model}
use cube_conquer_pb.Trail.Undo.{IsTrail, At, some_eq}
use cube_conquer_pb.ConstraintValue.{
  slack, constraint_is_false, constraint_is_true, constraint_is_contradiction,
  constraint_is_conflicting_or_propagating,
}
use cube_conquer_pb.ConstraintValue.Slack.{Agrees}
use cube_conquer_pb.ConstraintValue.Entailed.{Apart, constraint_is_false_iff}
use cube_conquer_pb.ConstraintValue.Tests.{
  Unforced, AgreesAtZero, constraint_is_conflicting_or_propagating_iff, constraint_tests_sound,
}
use cube_conquer_pb.Solver.{
  Clause, add_clause, Solver, PbConstraint, add_pb_constraint_counter, add_occurrences,
}
use cube_conquer_pb.Solver.Loop.{propagate, backjump_to_dl}
use cube_conquer_pb.Solver.Propagate.{propagate_initial_constraint_counter}
use cube_conquer_pb.Solver.Settled.{Falls}
use cube_conquer_pb.Solver.Initial.{IsPropagatedOnce, propagate_initial_constraint_counter_lem}
use cube_conquer_pb.Solver.Invariant.{IsSolver, ctr_at}
use cube_conquer_pb.Solver.Watching.{IsWatched}
use cube_conquer_pb.Solver.Sound.{Promises}
use cube_conquer_pb.Solver.Added.{add_pb_constraint_counter-IsSolver}
use cube_conquer_pb.Solver.AddedClause.{IsAdded, add_clause-IsAdded}
use cube_conquer_pb.Solver.Backjump.{IsBack, backjump_to_dl-IsBack}
use cube_conquer_pb.Solver.Finish.{propagate_lem}

abbrev waiting : Model
waiting = record {
  model_stack = record { lit = minus 1; dl = 1; reason = no_reason } ∷ [];
  truth_value_of_var = unassigned ∷ is_false ∷ unassigned ∷ [];
  last_phase_of_var = none ∷ none ∷ none ∷ [];
  stack_height_of_var = none ∷ some 0 ∷ none ∷ [];
  propagated = 0;
  decision_level = 1;
}

waiting-IsTrail : IsTrail waiting
waiting-IsTrail = record {
  recorded = (omega arith, refl, refl, tt);
  heights = refl;
  unplaced = unplaced;
  placed = placed;
  level = refl;
  behind = omega arith;
}
  where
    unplaced :
        (v : ℕ)
        → get_or waiting.truth_value_of_var v unassigned ≡ unassigned
        → get_or waiting.stack_height_of_var v none ≡ none
    unplaced zero e = refl
    unplaced (suc zero) e = cc
    unplaced (suc (suc zero)) e = refl
    unplaced (suc (suc (suc v))) e = refl

    placed :
        (v h : ℕ) → get_or waiting.stack_height_of_var v none ≡ some h → At v h waiting.model_stack
    placed zero h e = absurd (cc e)
    placed (suc zero) h e = inl (refl, some_eq h 0 (sym e))
    placed (suc (suc zero)) h e = absurd (cc e)
    placed (suc (suc (suc v))) h e = absurd (cc e)

abbrev empty_solver : Solver
empty_solver = record {
  model = waiting;
  constraints_pb = [];
  sum_of_watches = [];
  clauses = [];
  gen_watch_list = λ l. [];
  watch_lists = λ l. [];
  bin_clauses = λ l. [];
  occur_lists = λ l. [];
  conflict = none;
  num_of_backjump = 0;
}

empty_solver-IsSolver : IsSolver empty_solver
empty_solver-IsSolver = record {
  trail = waiting-IsTrail;
  listed = record {
    linked = λ l id. refl;
    occurs = λ l id. refl;
    terms_in_range = λ id. tt;
    elems_in_range = λ l. tt;
  };
  sized = refl;
  counted = λ id w. absurd (omega arith);
  clauses_in_range = λ id. (omega arith, tt);
}

empty_solver-IsWatched : IsWatched empty_solver.clauses empty_solver.watch_lists
empty_solver-IsWatched = record { lists = λ l. (tt, tt); distinct = λ id. tt }

abbrev one_of_two : PbConstraint
one_of_two = record {
  ctr = record { lhs = (1, plus 1) ∷ (1, plus 2) ∷ []; rhs = pos 1 };
  num_backjump = 0;
  max_w_idx = 0;
}

abbrev one_constraint : Solver
one_constraint = add_pb_constraint_counter one_of_two empty_solver

add_pb_constraint_counter-IsSolver_example : IsSolver one_constraint
add_pb_constraint_counter-IsSolver_example =
    add_pb_constraint_counter-IsSolver one_of_two empty_solver empty_solver-IsSolver
      (omega arith, (omega arith, tt))

one_constraint-IsSolver : IsSolver one_constraint
one_constraint-IsSolver =
    add_pb_constraint_counter-IsSolver one_of_two empty_solver empty_solver-IsSolver
      (omega arith, (omega arith, tt))

one_constraint-IsWatched : IsWatched one_constraint.clauses one_constraint.watch_lists
unfolding add_pb_constraint_counter add_occurrences
one_constraint-IsWatched = record { lists = λ l. (tt, tt); distinct = λ id. tt }

one_constraint-quiet : one_constraint.conflict ≡ none
unfolding add_pb_constraint_counter add_occurrences
one_constraint-quiet = refl

one_constraint-size :
    length one_constraint.model.truth_value_of_var < 4 + one_constraint.model.propagated
unfolding add_pb_constraint_counter add_occurrences
one_constraint-size = omega arith

propagate_lem_example :
    (t : Solver) × (propagate 4 one_constraint ≡ some t)
    × IsWatched t.clauses t.watch_lists
    × Promises one_constraint t
propagate_lem_example =
    propagate_lem 4 one_constraint one_constraint-IsSolver one_constraint-IsWatched
      one_constraint-quiet one_constraint-size

one_constraint-Falls : Ordered Falls (ctr_at one_constraint 0).lhs
unfolding add_pb_constraint_counter add_occurrences
one_constraint-Falls = ((omega arith, tt), (tt, tt))

one_constraint-there : 0 < length one_constraint.constraints_pb
unfolding add_pb_constraint_counter add_occurrences
one_constraint-there = omega arith

propagate_initial_constraint_counter_lem_example :
    IsPropagatedOnce one_constraint 0 (propagate_initial_constraint_counter 0 one_constraint)
propagate_initial_constraint_counter_lem_example =
    propagate_initial_constraint_counter_lem one_constraint one_constraint-IsSolver
      one_constraint-quiet 0 one_constraint-there one_constraint-Falls

backjump_to_dl-IsBack_example : IsBack 0 (backjump_to_dl 0 one_constraint)
backjump_to_dl-IsBack_example = backjump_to_dl-IsBack 0 one_constraint one_constraint-IsSolver

abbrev wanted : WConstraint
wanted = record { lhs = (2, plus 1) ∷ (1, plus 2) ∷ []; rhs = pos 1 }

wanted-Apart : Ordered Apart wanted.lhs
wanted-Apart = (((λ e. omega (arith, e)), tt), (tt, tt))

constraint_is_false_iff_example :
    (constraint_is_false wanted waiting ≡ true)
    ↔ ((σ : Assignment) → Agrees waiting σ → ¬ Satisfies σ wanted)
constraint_is_false_iff_example = constraint_is_false_iff wanted waiting wanted-Apart

-- Not x1, x2.
abbrev second_only : Assignment
second_only v = v == 2

constraint_is_conflicting_or_propagating_iff_example :
    (constraint_is_conflicting_or_propagating wanted waiting ≡ true)
    ↔ ((slack wanted waiting <ℤ pos 0) ⊎ Any (Unforced waiting (slack wanted waiting)) wanted.lhs)
constraint_is_conflicting_or_propagating_iff_example =
    constraint_is_conflicting_or_propagating_iff wanted waiting

constraint_tests_sound_example :
    (constraint_is_true wanted waiting ≡ true
      → Agrees waiting second_only
      → Satisfies second_only wanted)
    × (constraint_is_contradiction wanted waiting ≡ true
        → AgreesAtZero waiting second_only
        → ¬ Satisfies second_only wanted)
constraint_tests_sound_example = constraint_tests_sound wanted waiting second_only

abbrev first_or_not_second : Clause
first_or_not_second = record { lits = plus 1 ∷ minus 2 ∷ []; watch_idx = 2 }

add_clause-IsAdded_example :
    IsAdded first_or_not_second
      (plus 1)
      (minus 2)
      empty_solver
      (add_clause first_or_not_second empty_solver)
add_clause-IsAdded_example =
    add_clause-IsAdded first_or_not_second empty_solver empty_solver-IsSolver empty_solver-IsWatched
      (plus 1) (minus 2) [] refl (omega arith, (omega arith, (omega arith, tt)))
      (((λ e. cc), tt), (tt, tt))
