-- ===== src/TrailExamples.antt =====
-- The theorems on the trail at a model with two variables, of which x1 is decided.
use cube_conquer_pb.Base.{
  ℕ, zero, suc, ◌≡◌, refl, sym, inl, [], ◌∷◌, none, some, get_or, true, false, arith,
}
use cube_conquer_pb.Constraint.{plus, minus}
use cube_conquer_pb.Reasons.{no_reason}
use cube_conquer_pb.Trail.{unassigned, is_true, Model, set_true_due_to_decision, pop_and_unassign}
use cube_conquer_pb.Trail.Undo.{At, some_eq, IsTrail, pop_and_unassign-set_true_due_to_decision}

abbrev one_decided : Model
one_decided = record {
  model_stack = record { lit = plus 1; dl = 1; reason = no_reason } ∷ [];
  truth_value_of_var = unassigned ∷ is_true ∷ unassigned ∷ [];
  last_phase_of_var = none ∷ none ∷ some true ∷ [];
  stack_height_of_var = none ∷ some 0 ∷ none ∷ [];
  propagated = 1;
  decision_level = 1;
}

one_decided-IsTrail : IsTrail one_decided
one_decided-IsTrail = record {
  recorded = (omega arith, refl, refl, tt);
  heights = refl;
  unplaced = unplaced;
  placed = placed;
  level = refl;
  behind = omega arith;
}
  where
    unplaced :
        (v : ℕ)
        → get_or one_decided.truth_value_of_var v unassigned ≡ unassigned
        → get_or one_decided.stack_height_of_var v none ≡ none
    unplaced zero e = refl
    unplaced (suc zero) e = cc
    unplaced (suc (suc zero)) e = refl
    unplaced (suc (suc (suc v))) e = refl

    placed :
        (v h : ℕ)
        → get_or one_decided.stack_height_of_var v none ≡ some h
        → At v h one_decided.model_stack
    placed zero h e = absurd (cc e)
    placed (suc zero) h e = inl (refl, some_eq h 0 (sym e))
    placed (suc (suc zero)) h e = absurd (cc e)
    placed (suc (suc (suc v))) h e = absurd (cc e)

pop_and_unassign-set_true_due_to_decision_example :
    pop_and_unassign (set_true_due_to_decision (minus 2) one_decided)
    ≡ some (minus 2, record one_decided { last_phase_of_var = none ∷ none ∷ some false ∷ [] })
pop_and_unassign-set_true_due_to_decision_example =
    pop_and_unassign-set_true_due_to_decision one_decided (minus 2) one_decided-IsTrail
      (omega arith, refl)
