-- ===== src/Trail/Undo.antt =====
-- The trail stays consistent, and taking a literal back undoes its assignment.
use cube_conquer_pb.Base.{
  ℕ, zero, suc, ◌+◌, ◌≡◌, ◌≢◌, refl, sym, ◌∙◌, ap, subst, true, false, List, [], ◌∷◌, ltb, ◌==◌,
  length, length-set, get_or, get_or-set, set, ◌<◌, ◌≤◌, Option, none, some, arith, Bool-cases, inl,
  inr, ◌⊎◌,
}
use cube_conquer_pb.Constraint.{Lit, plus, minus, var}
use cube_conquer_pb.Reasons.{Content, no_reason}
use cube_conquer_pb.Trail.{
  Truth, unassigned, StackElement, Model, truth_of, current_decision_level, push_lit, phase,
  set_true_due_to_decision, set_true_due_to_reason, drop_top, pop_and_unassign,
}

-- Each literal of the stack is true, at its height.
abbrev pub Recorded : List StackElement → List Truth → List (Option ℕ) → Type 0
Recorded [] ts hs = Unit
Recorded (e ∷ es) ts hs =
    (var e.lit < length ts)
    × (get_or ts (var e.lit) unassigned ≡ truth_of e.lit)
    × (get_or hs (var e.lit) none ≡ some (length es))
    × Recorded es ts hs

-- The variable is on the stack at the height.
abbrev pub At : ℕ → ℕ → List StackElement → Type 0
At v h [] = ⊥
At v h (e ∷ es) = ((v ≡ var e.lit) × (h ≡ length es)) ⊎ At v h es

pub record IsTrail (m : Model) : Type 0 where
  pub recorded : Recorded m.model_stack m.truth_value_of_var m.stack_height_of_var
  pub heights : length m.stack_height_of_var ≡ length m.truth_value_of_var
  pub unplaced :
      (v : ℕ)
      → get_or m.truth_value_of_var v unassigned ≡ unassigned
      → get_or m.stack_height_of_var v none ≡ none
  pub placed : (v h : ℕ) → get_or m.stack_height_of_var v none ≡ some h → At v h m.model_stack
  pub level : m.decision_level ≡ current_decision_level m.model_stack
  pub behind : m.propagated ≤ length m.model_stack

-- A variable is there and has no value.
abbrev pub IsUndef : Lit → Model → Type 0
IsUndef l m =
    (var l < length m.truth_value_of_var)
    × (get_or m.truth_value_of_var (var l) unassigned ≡ unassigned)

set-back {ℓ} :
    {A : Type ℓ} (xs : List A) (i : ℕ) (y z d : A)
    → i < length xs
    → get_or xs i d ≡ z
    → set (set xs i y) i z ≡ xs
set-back [] i y z d w e = absurd (omega arith)
set-back (x ∷ xs) zero y z d w e = ap (λ u. u ∷ xs) (sym e)
set-back (x ∷ xs) (suc i) y z d w e = ap (λ us. x ∷ us) (set-back xs i y z d (omega arith) e)

pub assigned-ne : (l : Lit) → truth_of l ≢ unassigned
assigned-ne (plus v) e = cc
assigned-ne (minus v) e = cc

abbrev Missing : ℕ → List StackElement → Type 0
Missing v [] = Unit
Missing v (e ∷ es) = (v ≢ var e.lit) × Missing v es

-- Writing a variable that the stack does not have.
pub Recorded-set :
    (es : List StackElement) (ts : List Truth) (hs : List (Option ℕ)) (v : ℕ) (t : Truth)
    (h : Option ℕ)
    → v < length ts
    → length hs ≡ length ts
    → Missing v es
    → Recorded es ts hs
    → Recorded es (set ts v t) (set hs v h)
Recorded-set [] ts hs v t h w s gone r = tt
Recorded-set (e ∷ es) ts hs v t h w s (apart_here, later) (in_range, value, height, rest) =
    let apart : (v == var e.lit) ≡ false = ground (arith, apart_here) in
    (
      rw (length-set ts v t) in_range,
      rw (get_or-set ts v (var e.lit) t unassigned w, apart) value,
      rw (get_or-set hs v (var e.lit) h none (omega arith), apart) height,
      Recorded-set es ts hs v t h w s later rest,
    )

undef-Missing :
    (v : ℕ) (es : List StackElement) (ts : List Truth) (hs : List (Option ℕ))
    → get_or ts v unassigned ≡ unassigned
    → Recorded es ts hs
    → Missing v es
undef-Missing v [] ts hs u r = tt
undef-Missing v (e ∷ es) ts hs u (in_range, value, height, rest) = (
  λ same. assigned-ne e.lit (sym value ∙ subst (λ w. get_or ts w unassigned ≡ unassigned) same u),
  undef-Missing v es ts hs u rest,
)

pub some_eq : (a b : ℕ) → some a ≡ some b → a ≡ b
some_eq a b e = cc

pub higher-Missing :
    (v n : ℕ) (es : List StackElement) (ts : List Truth) (hs : List (Option ℕ))
    → get_or hs v none ≡ some n
    → length es ≤ n
    → Recorded es ts hs
    → Missing v es
higher-Missing v n [] ts hs u le r = tt
higher-Missing v n (e ∷ es) ts hs u le (in_range, value, height, rest) = (
  λ same.
      let at : get_or hs (var e.lit) none ≡ some n =
        subst (λ w. get_or hs w none ≡ some n) same u in
      let same_height = some_eq (length es) n (sym height ∙ at) in absurd (omega arith),
  higher-Missing v n es ts hs u (omega arith) rest,
)

pub push_lit-IsTrail :
    (level : ℕ) (l : Lit) (r : Content) (m : Model)
    → IsTrail m
    → IsUndef l m
    → IsTrail (push_lit level l r m)
unfolding push_lit
push_lit-IsTrail level l r m k (w, u) =
    let ts = m.truth_value_of_var in
    let hs = m.stack_height_of_var in
    let n = some (length m.model_stack) in
    let tall = k.heights in
    let in_heights : var l < length hs = omega arith in
    let here : (var l == var l) ≡ true = ground arith in
    record {
      recorded = (
        rw (length-set ts (var l) (truth_of l)) w,
        rw (get_or-set ts (var l) (var l) (truth_of l) unassigned w, here) refl,
        rw (get_or-set hs (var l) (var l) n none in_heights, here) refl,
        Recorded-set m.model_stack ts hs (var l) (truth_of l) n w tall
            (undef-Missing (var l) m.model_stack ts hs u k.recorded) k.recorded,
      );
      heights = length-set hs (var l) n ∙ tall ∙ sym (length-set ts (var l) (truth_of l));
      unplaced = λ v e. elim (Bool-cases (var l == v)) [
        | inl same ↦
            absurd
              (assigned-ne l (rw (get_or-set ts (var l) v (truth_of l) unassigned w, same) at e))
        | inr apart ↦
            rw (get_or-set hs (var l) v n none in_heights, apart)
              (k.unplaced v (rw (get_or-set ts (var l) v (truth_of l) unassigned w, apart) at e))
      ];
      placed = λ v h e. elim (Bool-cases (var l == v)) [
        | inl same ↦
            let at = rw (get_or-set hs (var l) v n none in_heights, same) at e in
            inl (ground (arith, same), some_eq h (length m.model_stack) (sym at))
        | inr apart ↦
            inr (k.placed v h (rw (get_or-set hs (var l) v n none in_heights, apart) at e))
      ];
      level = refl;
      behind = (let before = k.behind in omega arith);
    }

pub drop_top-IsTrail :
    (x : StackElement) (es : List StackElement) (m : Model)
    → m.model_stack ≡ x ∷ es
    → IsTrail m
    → IsTrail (drop_top x es m)
unfolding drop_top
drop_top-IsTrail x es m q k =
    let v = var x.lit in
    let ts = m.truth_value_of_var in
    let hs = m.stack_height_of_var in
    let tall = k.heights in
    let (in_range, value, height, rest) = subst (λ st. Recorded st ts hs) q k.recorded in
    let in_heights : v < length hs = omega arith in
    record {
      recorded =
          Recorded-set es ts hs v unassigned none in_range tall
            (higher-Missing v (length es) es ts hs height (omega arith) rest) rest;
      heights = length-set hs v none ∙ tall ∙ sym (length-set ts v unassigned);
      unplaced = λ w e. elim (Bool-cases (v == w)) [
        | inl same ↦ rw (get_or-set hs v w none none in_heights, same) refl
        | inr apart ↦
            rw (get_or-set hs v w none none in_heights, apart)
              (k.unplaced w (rw (get_or-set ts v w unassigned unassigned in_range, apart) at e))
      ];
      placed = λ w h e. elim (Bool-cases (v == w)) [
        | inl same ↦ absurd (cc (rw (get_or-set hs v w none none in_heights, same) at e))
        | inr apart ↦
            let e' = rw (get_or-set hs v w none none in_heights, apart) at e in
            elim (subst (At w h) q (k.placed w h e')) [
              | inl (here, _) ↦ absurd (ground (arith, here, apart))
              | inr later ↦ later
            ]
      ];
      level = refl;
      behind = elim (Bool-cases (ltb (length es) m.propagated)) [
        | inl less ↦ rw less (omega arith)
        | inr more ↦ rw more (ground (arith, more))
      ];
    }

pair_in_some : (p q : Lit × Model) → some p ≡ some q → p ≡ q
pair_in_some p q e = cc

pop-IsTrail : (l : Lit) (m m' : Model) → IsTrail m → pop_and_unassign m ≡ some (l, m') → IsTrail m'
unfolding pop_and_unassign
pop-IsTrail l m m' k e = from m.model_stack refl
  where
    from : (es : List StackElement) → m.model_stack ≡ es → IsTrail m'
    from [] q = absurd (cc (rw q at e))
    from (x ∷ es) q =
        subst IsTrail (ap (λ p. p.1) (pair_in_some (x.lit, drop_top x es m) (l, m') (rw q at e)))
          (drop_top-IsTrail x es m q k)

-- From a consistent trail, in which each literal of the stack is true at its height and no other variable
-- has a height: a decision and a literal with a reason, whose variable is there and has no value, and taking
-- back the top literal leave a consistent trail.
pub assignments-IsTrail :
    (m : Model)
    → IsTrail m
    → ((l : Lit) → IsUndef l m → IsTrail (set_true_due_to_decision l m))
      × ((l : Lit) (r : Content) → IsUndef l m → IsTrail (set_true_due_to_reason l r m))
      × ((l : Lit) (m' : Model) → pop_and_unassign m ≡ some (l, m') → IsTrail m')
unfolding set_true_due_to_decision set_true_due_to_reason
assignments-IsTrail m k = (
  λ l u. push_lit-IsTrail (m.decision_level + 1) l no_reason m k u,
  λ l r u. push_lit-IsTrail m.decision_level l r m k u,
  λ l m' e. pop-IsTrail l m m' k e,
)

-- On a consistent trail, popAndUnassign after a decision on a literal whose variable is there and has no
-- value gives the literal and the model of before, but for the phase of the variable, which is the sign.
pub pop_and_unassign-set_true_due_to_decision :
    (m : Model) (l : Lit)
    → IsTrail m
    → IsUndef l m
    → pop_and_unassign (set_true_due_to_decision l m)
      ≡ some
          (l, record m { last_phase_of_var = set m.last_phase_of_var (var l) (phase (truth_of l)) })
unfolding pop_and_unassign set_true_due_to_decision push_lit drop_top
pop_and_unassign-set_true_due_to_decision m l k (w, u) =
    let ts = m.truth_value_of_var in
    let hs = m.stack_height_of_var in
    let tall = k.heights in
    let behind = k.behind in
    let here : (var l == var l) ≡ true = ground arith in
    let kept : ltb (length m.model_stack) m.propagated ≡ false = ground (arith, behind) in
    let back = set-back ts (var l) (truth_of l) unassigned unassigned w u in
    let back_height =
      set-back hs (var l) (some (length m.model_stack)) none none (omega arith)
        (k.unplaced (var l) u) in
    rw
      (
        get_or-set ts (var l) (var l) (truth_of l) unassigned w,
        here,
        kept,
        back,
        back_height,
        ← k.level,
      )
      refl
