-- ===== src/Solver/Counted/Undone.antt =====
-- The literals that are counted after the top of the trail is taken back.
use cube_conquer_pb.Base.{
  ℕ, suc, ◌+◌, ◌≡◌, refl, sym, ◌∙◌, ap, subst, true, false, not, List, ◌∷◌, if◌then◌else◌, ltb,
  ◌==◌, ◌≤◌, ◌<◌, Option, none, some, get_or, get_or-set, length, total, Bool-cases, inl, inr,
  arith,
}
use cube_conquer_pb.Constraint.{Lit, Term, var, lit_eq, neg}
use cube_conquer_pb.Trail.{Model, unassigned, truth_of, StackElement, is_lit_propagated, drop_top}
use cube_conquer_pb.Trail.Undo.{IsTrail, At, Recorded}
use cube_conquer_pb.ConstraintValue.{is_counted}
use cube_conquer_pb.ConstraintValue.Slack.{kept}
use cube_conquer_pb.Solver.Counted.{
  lit_eq-true, coefficient, total-kept_without, total-kept_same, is_counted-value, At-lt,
  counts-true, counts-neg, counts-step, counts-unassigned, same_var, var-neg,
}

module _ (m : Model) (t : IsTrail m) (x : StackElement) (es : List StackElement)
    (top : m.model_stack ≡ x ∷ es) where
  abbrev undone : Model
  undone = drop_top x es m

  -- What the trail says of its top.
  pub top-value :
      (var x.lit < length m.truth_value_of_var)
      × (get_or m.truth_value_of_var (var x.lit) unassigned ≡ truth_of x.lit)
      × (get_or m.stack_height_of_var (var x.lit) none ≡ some (length es))
  top-value =
      let (w, value, height, rest) =
        subst (λ st. Recorded st m.truth_value_of_var m.stack_height_of_var) top t.recorded in
      (w, value, height)

  pub propagated_top : is_lit_propagated x.lit m ≡ ltb (length es) m.propagated
  unfolding is_lit_propagated
  propagated_top = rw (is_lit_propagated, top-value.2) refl

  behind : m.propagated ≤ suc (length es)
  behind = subst (λ st. m.propagated ≤ length st) top t.behind

  undone-value :
      (k : Lit)
      → get_or undone.truth_value_of_var (var k) unassigned ≡ (
          if var x.lit == var k then unassigned else get_or m.truth_value_of_var (var k) unassigned)
  unfolding drop_top
  undone-value k =
      get_or-set m.truth_value_of_var (var x.lit) (var k) unassigned unassigned top-value.0

  undone-height :
      (k : Lit)
      → get_or undone.stack_height_of_var (var k) none
        ≡ (if var x.lit == var k then none else get_or m.stack_height_of_var (var k) none)
  unfolding drop_top
  undone-height k =
      let tall = t.heights in
      let w = top-value.0 in
      get_or-set m.stack_height_of_var (var x.lit) (var k) none none (omega arith)

  undone-propagated :
      undone.propagated ≡ (if ltb (length es) m.propagated then length es else m.propagated)
  unfolding drop_top
  undone-propagated = refl

  of_top : (k : Lit) → (var x.lit == var k) ≡ true → is_counted undone k ≡ true
  of_top k same =
      is_counted-value undone k unassigned none (undone-value k ∙ rw same refl)
        (undone-height k ∙ rw same refl)
      ∙ counts-unassigned k undone.propagated

  undone-same : (k : Lit) → (var x.lit == var k) ≡ false → is_counted undone k ≡ is_counted m k
  undone-same k apart = at_height (get_or m.stack_height_of_var (var k) none) refl
    where
      value :
          get_or undone.truth_value_of_var (var k) unassigned
          ≡ get_or m.truth_value_of_var (var k) unassigned
      value = undone-value k ∙ rw apart refl

      height :
          get_or undone.stack_height_of_var (var k) none ≡ get_or m.stack_height_of_var (var k) none
      height = undone-height k ∙ rw apart refl

      at_height :
          (h : Option ℕ)
          → get_or m.stack_height_of_var (var k) none ≡ h
          → is_counted undone k ≡ is_counted m k
      at_height none f =
          is_counted-value undone k _ none value (height ∙ f)
          ∙ sym (is_counted-value m k _ none refl f)
      at_height (some h) f =
          let less : h < length es = elim (subst (At (var k) h) top (t.placed (var k) h f)) [
            | inl (own, at) ↦ absurd (ground (arith, own, apart))
            | inr later ↦ At-lt (var k) h es later
          ] in
          let p = undone-propagated in
          let same : ltb h undone.propagated ≡ ltb h m.propagated = rw p (ground (arith, less)) in
          is_counted-value undone k _ (some h) value (height ∙ f)
          ∙ counts-step k _ h undone.propagated m.propagated same
          ∙ sym (is_counted-value m k _ (some h) refl f)

  counted_neg : is_counted m (neg x.lit) ≡ not (ltb (length es) m.propagated)
  counted_neg =
      is_counted-value m (neg x.lit) (truth_of x.lit) (some (length es))
        (rw (var-neg x.lit) top-value.1) (rw (var-neg x.lit) top-value.2)
      ∙ counts-neg x.lit (length es) m.propagated

  undone-other : (k : Lit) → lit_eq k (neg x.lit) ≡ false → is_counted m k ≡ is_counted undone k
  undone-other k apart = elim (Bool-cases (var x.lit == var k)) [
    | inl same ↦
        let q = same_var k x.lit (ground (arith, same)) apart in
        let up : is_counted m x.lit ≡ true =
          is_counted-value m x.lit (truth_of x.lit) (some (length es)) top-value.1 top-value.2
          ∙ counts-true x.lit (length es) m.propagated in
        ap (is_counted m) q ∙ up ∙ sym (of_top k same)
    | inr other ↦ sym (undone-same k other)
  ]

  -- A propagated top gives its negation back to the counted literals.
  pub total-counted_propagated :
      (ts : List Term)
      → ltb (length es) m.propagated ≡ true
      → total (kept (is_counted undone)) ts
        ≡ total (kept (is_counted m)) ts + coefficient (neg x.lit) ts
  total-counted_propagated ts p =
      total-kept_without (is_counted undone) (is_counted m) (neg x.lit) ts
        (of_top (neg x.lit) (rw (var-neg x.lit) (ground arith))) (counted_neg ∙ ap not p)
        undone-other

  pub total-counted_waiting :
      (ts : List Term)
      → ltb (length es) m.propagated ≡ false
      → total (kept (is_counted undone)) ts ≡ total (kept (is_counted m)) ts
  total-counted_waiting ts p = total-kept_same (is_counted undone) (is_counted m) ts (λ k.
      elim (Bool-cases (lit_eq k (neg x.lit))) [
        | inl e ↦
            let q = lit_eq-true k (neg x.lit) e in
            ap (is_counted m) q
            ∙ counted_neg
            ∙ ap not p
            ∙ sym (of_top k (rw (ap var q, var-neg x.lit) (ground arith)))
        | inr e ↦ undone-other k e
      ])
