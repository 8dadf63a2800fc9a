-- ===== src/Solver/Counted/Next.antt =====
-- The literals that are counted after the next literal of the trail is propagated.
use cube_conquer_pb.Base.{
  ℕ, ◌+◌, ◌-◌, ◌≡◌, ◌≢◌, refl, sym, ◌∙◌, ap, true, false, not, List, ltb, ◌==◌, ◌<◌, Option, none,
  some, get_or, get_elem?, length, total, Bool-cases, inl, inr, arith,
}
use cube_conquer_pb.Constraint.{Lit, Term, var, lit_eq, neg}
use cube_conquer_pb.Trail.{Model, unassigned, truth_of, StackElement}
use cube_conquer_pb.Trail.Undo.{IsTrail}
use cube_conquer_pb.ConstraintValue.{is_counted}
use cube_conquer_pb.ConstraintValue.Slack.{kept}
use cube_conquer_pb.Solver.Counted.{
  coefficient, total-kept_without, is_counted-value, At-get, Recorded-get, counts-true, counts-neg,
  counts-step, same_var, var-neg,
}

-- Propagating the literal at a height stops its negation from being counted, and nothing else.
module _ (m : Model) (t : IsTrail m) (e : StackElement)
    (here : get_elem? m.model_stack (length m.model_stack - (m.propagated + 1)) ≡ some e)
    (more : m.propagated < length m.model_stack) where
  abbrev next : Model
  next = record m { propagated = m.propagated + 1 }

  pub next-value :
      (get_or m.truth_value_of_var (var e.lit) unassigned ≡ truth_of e.lit)
      × (get_or m.stack_height_of_var (var e.lit) none ≡ some m.propagated)
  next-value =
      let (w, value, height) =
        Recorded-get m.model_stack m.truth_value_of_var m.stack_height_of_var m.propagated e
          t.recorded more here in
      (value, height)

  pub next-range : var e.lit < length m.truth_value_of_var
  next-range =
      (Recorded-get m.model_stack m.truth_value_of_var m.stack_height_of_var m.propagated e
        t.recorded more here).0

  at_neg :
      (n : Model)
      → n.truth_value_of_var ≡ m.truth_value_of_var
      → n.stack_height_of_var ≡ m.stack_height_of_var
      → is_counted n (neg e.lit) ≡ not (ltb m.propagated n.propagated)
  at_neg n qt qh =
      is_counted-value n (neg e.lit) (truth_of e.lit) (some m.propagated)
        (rw (var-neg e.lit, qt) next-value.0) (rw (var-neg e.lit, qh) next-value.1)
      ∙ counts-neg e.lit m.propagated n.propagated

  counted-before : is_counted m (neg e.lit) ≡ true
  counted-before = at_neg m refl refl ∙ ground arith

  counted-after : is_counted next (neg e.lit) ≡ false
  counted-after = at_neg next refl refl ∙ ground arith

  counted-other : (k : Lit) → lit_eq k (neg e.lit) ≡ false → is_counted next k ≡ is_counted m k
  counted-other k apart = elim (Bool-cases (var e.lit == var k)) [
    | inl same ↦
        let q = same_var k e.lit (ground (arith, same)) apart in
        let (value, height) = next-value in
        let up =
          λ (n : Model) (qt : n.truth_value_of_var ≡ m.truth_value_of_var)
              (qh : n.stack_height_of_var ≡ m.stack_height_of_var).
            is_counted-value n e.lit (truth_of e.lit) (some m.propagated) (rw qt value)
              (rw qh height)
            ∙ counts-true e.lit m.propagated n.propagated in
        rw q (up next refl refl ∙ sym (up m refl refl))
    | inr other ↦ at_height (get_or m.stack_height_of_var (var k) none) refl other
  ]
    where
      at_height :
          (h : Option ℕ)
          → get_or m.stack_height_of_var (var k) none ≡ h
          → (var e.lit == var k) ≡ false
          → is_counted next k ≡ is_counted m k
      at_height none f other =
          is_counted-value next k _ none refl f ∙ sym (is_counted-value m k _ none refl f)
      at_height (some h) f other =
          let not_here : h ≢ m.propagated = λ q.
            let own =
              At-get (var k) m.propagated m.model_stack e
                (t.placed (var k) m.propagated (f ∙ ap some q)) here in
            ground (arith, own, other) in
          let same : ltb h (m.propagated + 1) ≡ ltb h m.propagated = ground (arith, not_here) in
          is_counted-value next k _ (some h) refl f
          ∙ counts-step k _ h (m.propagated + 1) m.propagated same
          ∙ sym (is_counted-value m k _ (some h) refl f)

  pub total-counted_next :
      (ts : List Term)
      → total (kept (is_counted m)) ts
        ≡ total (kept (is_counted next)) ts + coefficient (neg e.lit) ts
  total-counted_next ts =
      total-kept_without (is_counted m) (is_counted next) (neg e.lit) ts counted-before
        counted-after counted-other
