-- ===== src/Solver/Propagated.antt =====
-- The loop of `propagate` from a state that satisfies the invariant.
use cube_conquer_pb.Base.{
  ℕ, zero, suc, ◌+◌, ◌-◌, ◌≡◌, refl, sym, ◌∙◌, subst, true, false, [], ◌==◌, ◌<◌, inl, inr, length,
  get_elem?, Option, none, some, Bool-cases, Option-cases, get_elem?-some, arith,
}
use cube_conquer_pb.Constraint.{neg}
use cube_conquer_pb.Trail.{StackElement, get_next_lit_to_propagate_pb}
use cube_conquer_pb.Solver.{Solver}
use cube_conquer_pb.Solver.Loop.{visit_all, visit_next, has_conflict, step_back, propagate}
use cube_conquer_pb.Solver.Grows.{at_propagated}
use cube_conquer_pb.Solver.Invariant.{IsSolver, IsRefuted, Reached, Reached-Agrees, HasConflict}
use cube_conquer_pb.Solver.Round.{EndsRound, visit_all-EndsRound}
use cube_conquer_pb.Solver.Sound.{
  Promises, Reached-Solves, begun, begun-IsTrail, begun-IsListed, begun-Reached, begun-down,
  begun-in_range, begun-solves, begun-Agrees, quiet-IsSolver, step_back-IsSolver,
}

module _ (s : Solver) (k : IsSolver s) (c : s.conflict ≡ none) (e : StackElement)
    (here : get_elem? s.model.model_stack (length s.model.model_stack - (s.model.propagated + 1))
      ≡ some e)
    (more : s.model.propagated < length s.model.model_stack) where
  abbrev o : Solver
  o = begun s k e here more

  pub round :
      (t : Solver)
      → visit_all (neg e.lit) o ≡ some t
      → EndsRound o
          (s.gen_watch_list (neg e.lit))
          (neg e.lit)
          (begun-in_range s k e here more)
          (begun-down s k e here more)
          t
  round t q =
      visit_all-EndsRound o (s.gen_watch_list (neg e.lit)) (neg e.lit)
        (begun-in_range s k e here more) (begun-down s k e here more)
        (begun-IsTrail s k e here more) (begun-IsListed s k e here more) refl t
        (begun-Reached s k e here more) c q

  -- What a round leaves to the rest of the loop.
  IsRefuted-begun : IsRefuted o → IsRefuted s
  IsRefuted-begun r σ all a =
      r σ (begun-solves s k e here more σ all) (begun-Agrees s k e here more σ a)

  continue_with : (t u : Solver) → Reached o [] t → Promises t u → Promises s u
  continue_with t u r (inv, inl (quiet, done, solves)) = (
    inv,
    inl (
      quiet,
      done,
      λ σ all a.
          let all' = begun-solves s k e here more σ all in
          let a' = begun-Agrees s k e here more σ a in
          solves σ (Reached-Solves o t [] σ r all') (Reached-Agrees o t [] σ r all' a'),
    ),
  )
  continue_with t u r (inv, inr (conflicting, refuted)) = (
    inv,
    inr (
      conflicting,
      λ σ all a.
          let all' = begun-solves s k e here more σ all in
          let a' = begun-Agrees s k e here more σ a in
          refuted σ (Reached-Solves o t [] σ r all') (Reached-Agrees o t [] σ r all' a'),
    ),
  )

  next_lit :
      get_next_lit_to_propagate_pb s.model
      ≡ (some e.lit, at_propagated (s.model.propagated + 1) s.model)
  unfolding get_next_lit_to_propagate_pb
  next_lit =
      let left : (s.model.propagated == length s.model.model_stack) ≡ false =
        ground (arith, more) in
      rw (get_next_lit_to_propagate_pb, left, here) refl

  unfoldable pub after_round : ℕ → Option Solver → Option Solver
  after_round fuel none = none
  after_round fuel (some t) =
      let rest = propagate fuel t in
      elim (has_conflict t) [ true ↦ some (step_back t) | false ↦ rest ]

  pub propagate_step :
      (fuel : ℕ) → propagate (suc fuel) s ≡ after_round fuel (visit_all (neg e.lit) o)
  unfolding propagate after_round visit_next
  propagate_step fuel =
      let left : (s.model.propagated == length s.model.model_stack) ≡ false =
        ground (arith, more) in
      rw (propagate, left, here) (opened (visit_all (neg e.lit) o))
    where
      opened :
          (f : Option Solver)
          → (elim f [
            | none ↦ none
            | some t ↦ elim (has_conflict t) [
              | true ↦ some (step_back t)
              | false ↦ propagate fuel t
            ]
          ])
            ≡ after_round fuel f
      opened none = refl
      opened (some t) = refl

pub has_conflict-none : (s : Solver) → s.conflict ≡ none → has_conflict s ≡ false
has_conflict-none s e = rw e refl

pub has_conflict-some : (s : Solver) → HasConflict s → has_conflict s ≡ true
has_conflict-some s (k, e) = rw e refl

module _ (s : Solver) (k : IsSolver s) (c : s.conflict ≡ none) (e : StackElement)
    (here : get_elem? s.model.model_stack (length s.model.model_stack - (s.model.propagated + 1))
      ≡ some e)
    (more : s.model.propagated < length s.model.model_stack) where
  round-Promises :
      (fuel : ℕ) (t : Solver)
      → ((u : Solver) → IsSolver u → u.conflict ≡ none → propagate fuel u ≡ some t → Promises u t)
      → propagate (suc fuel) s ≡ some t
      → Promises s t
  unfolding after_round
  round-Promises fuel t rest q =
      let step = sym (propagate_step s k c e here more fuel) ∙ q in
      elim (Option-cases (visit_all (neg e.lit) (o s k c e here more))) [
        | inl none_is ↦ absurd (cc (rw (none_is, after_round) at step))
        | inr (u, a) ↦
            let g = rw (a, after_round) at step in
            elim (round s k c e here more u a) [
              | inl (quiet, r) ↦ continue_with s k c e here more u t r (
                  rest u (quiet-IsSolver s k e here more u r) quiet
                    (rw (has_conflict-none u quiet) at g))
              | inr (conflicting, refuted, r) ↦
                  let h = rw (has_conflict-some u conflicting) at g in
                  let same : step_back u ≡ t = cc in
                  subst (Promises s) same (
                    step_back-IsSolver s k e here more u r,
                    inr (conflicting, IsRefuted-begun s k c e here more refuted),
                  )
            ]
      ]

-- From a state that satisfies the invariant and has no conflict: if `propagate` returns, the invariant holds
-- and either there is no conflict, each literal of the trail is propagated, and each solution of the
-- constraints and clauses that agrees with the trail is a solution that agrees with the new trail, or there
-- is a conflict and no solution agrees with the trail.
pub propagate-Promises :
    (fuel : ℕ) (s t : Solver)
    → IsSolver s
    → s.conflict ≡ none
    → propagate fuel s ≡ some t
    → Promises s t
unfolding propagate
propagate-Promises zero s t k c q = absurd (cc q)
propagate-Promises (suc fuel) s t k c q =
    let behind = k.trail.behind in
    elim (Bool-cases (s.model.propagated == length s.model.model_stack)) [
      | inl all ↦
          let same : s ≡ t = (let g = rw (propagate, all) at q in cc) in
          let done : s.model.propagated ≡ length s.model.model_stack = ground (arith, all) in
          subst (Promises s) same (k, inl (c, done, λ σ x a. (x, a)))
      | inr some_left ↦
          let more : s.model.propagated < length s.model.model_stack =
            ground (arith, some_left, behind) in
          let (e, stands) =
            get_elem?-some s.model.model_stack
              (length s.model.model_stack - (s.model.propagated + 1)) (omega (arith, more)) in
          round-Promises s k c e stands more fuel t (λ u. propagate-Promises fuel u t) q
    ]
