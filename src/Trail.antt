-- ===== src/Trail.antt =====
-- The model of the solver (src/Model.cpp, src/Model.h): the trail of literals and what it knows by variable.
--
-- The stack has its top first. A height is counted from the bottom; -1 is `none`, and lastPropagated is
-- stored with 1 added. An assertion of the source that fails is `none` where a result is optional.
pub mod Undo
use cube_conquer_pb.Base.{
  ℕ, suc, ◌+◌, Bool, true, false, List, [], ◌∷◌, if◌then◌else◌, ltb, ◌==◌, length, get_or,
  get_elem?, ◌-◌, set, Option, none, some,
}
use cube_conquer_pb.Constraint.{Lit, plus, minus, var, is_positive}
use cube_conquer_pb.Reasons.{Content, no_reason}

-- The chars 0, 1 and -1.
pub data Truth : Type 0 where
  unassigned : Truth
  is_true : Truth
  is_false : Truth

pub record StackElement : Type 0 where
  pub lit : Lit
  pub dl : ℕ
  pub reason : Content

pub record Model : Type 0 where
  pub model_stack : List StackElement
  pub truth_value_of_var : List Truth
  pub last_phase_of_var : List (Option Bool)
  pub stack_height_of_var : List (Option ℕ)
  pub propagated : ℕ
  pub decision_level : ℕ

abbrev pub truth_of : Lit → Truth
truth_of (plus v) = is_true
truth_of (minus v) = is_false

-- The decision level of the top.
abbrev pub current_decision_level : List StackElement → ℕ
current_decision_level [] = 0
current_decision_level (e ∷ es) = e.dl

abbrev pub is_undef_var : ℕ → Model → Bool
is_undef_var v m = elim (get_or m.truth_value_of_var v unassigned) [ unassigned ↦ true | _ ↦ false ]

-- The value of a literal: the sign times the value of the variable.
abbrev pub under : Lit → Truth → Truth
under (plus v) t = t
under (minus v) is_true = is_false
under (minus v) is_false = is_true
under (minus v) unassigned = unassigned

unfoldable pub value_of_lit : Lit → Model → Truth
value_of_lit l m = under l (get_or m.truth_value_of_var (var l) unassigned)

unfoldable pub is_true_lit : Lit → Model → Bool
unfolding value_of_lit
is_true_lit l m = elim (value_of_lit l m) [ is_true ↦ true | _ ↦ false ]

unfoldable pub is_false_lit : Lit → Model → Bool
unfolding value_of_lit
is_false_lit l m = elim (value_of_lit l m) [ is_false ↦ true | _ ↦ false ]

unfoldable pub is_undef_lit : Lit → Model → Bool
unfolding value_of_lit
is_undef_lit l m = elim (value_of_lit l m) [ unassigned ↦ true | _ ↦ false ]

-- lastPropagated >= height, where the height -1 is below every other.
unfoldable pub is_lit_propagated : Lit → Model → Bool
is_lit_propagated l m = elim (get_or m.stack_height_of_var (var l) none) [
  | none ↦ true
  | some h ↦ ltb h m.propagated
]

-- The decision level of a literal that has a value; a height is counted from the bottom.
unfoldable pub get_dl_of_lit : Lit → Model → Option ℕ
get_dl_of_lit l m = elim (get_or m.stack_height_of_var (var l) none) [
  | none ↦ none
  | some h ↦ elim (get_elem? m.model_stack (length m.model_stack - (h + 1))) [
    | none ↦ none
    | some e ↦ some e.dl
  ]
]

unfoldable pub push_lit : ℕ → Lit → Content → Model → Model
push_lit level l r m = record m {
  model_stack = record { lit = l; dl = level; reason = r } ∷ m.model_stack;
  truth_value_of_var = set m.truth_value_of_var (var l) (truth_of l);
  stack_height_of_var = set m.stack_height_of_var (var l) (some (length m.model_stack));
  decision_level = level;
}

unfoldable pub set_true_due_to_decision : Lit → Model → Model
unfolding push_lit
set_true_due_to_decision l m = push_lit (m.decision_level + 1) l no_reason m

unfoldable pub set_true_due_to_reason : Lit → Content → Model → Model
unfolding push_lit
set_true_due_to_reason l r m = push_lit m.decision_level l r m

abbrev pub phase : Truth → Option Bool
phase is_true = some true
phase is_false = some false
phase unassigned = some false

-- The top element `e` goes, the others stay.
unfoldable pub drop_top : StackElement → List StackElement → Model → Model
drop_top e es m =
    let v = var e.lit in
    record m {
      model_stack = es;
      truth_value_of_var = set m.truth_value_of_var v unassigned;
      last_phase_of_var =
          set m.last_phase_of_var v (phase (get_or m.truth_value_of_var v unassigned));
      stack_height_of_var = set m.stack_height_of_var v none;
      propagated = if ltb (length es) m.propagated then length es else m.propagated;
      decision_level = current_decision_level es;
    }

unfoldable pub pop_and_unassign : Model → Option (Lit × Model)
unfolding drop_top
pop_and_unassign m = elim m.model_stack [ [] ↦ none | e ∷ es ↦ some (e.lit, drop_top e es m) ]

-- A literal of the queue of propagation; 0 is `none`.
unfoldable pub get_next_lit_to_propagate_pb : Model → Option Lit × Model
get_next_lit_to_propagate_pb m = if m.propagated == length m.model_stack then (none, m) else (
  elim (get_elem? m.model_stack (length m.model_stack - (m.propagated + 1))) [
    | none ↦ none
    | some e ↦ some e.lit
  ],
  record m { propagated = m.propagated + 1 },
)
