-- ===== src/Solver/Finish.antt =====
-- `propagate` ends: with one round more than there are variables, from a state that satisfies the invariant
-- and whose watch lists are consistent.
use cube_conquer_pb.Base.{
  ℕ, zero, suc, ◌+◌, ◌-◌, ◌≡◌, refl, ◌∙◌, ap, ◌==◌, ◌<◌, inl, inr, length, get_elem?, none, some,
  Bool-cases, get_elem?-some, arith,
}
use cube_conquer_pb.Constraint.{Lit, neg}
use cube_conquer_pb.Trail.{StackElement}
use cube_conquer_pb.Solver.{Solver}
use cube_conquer_pb.Solver.Propagate.{visit_bin_clause, visit_pb_counter_lists}
use cube_conquer_pb.Solver.Loop.{visit_all, has_conflict, step_back, propagate}
use cube_conquer_pb.Solver.Grows.{Grows-same}
use cube_conquer_pb.Solver.Invariant.{variables, IsSolver, Entailed}
use cube_conquer_pb.Solver.Watching.{IsWatched}
use cube_conquer_pb.Solver.Rounds.{visit_clause_watch_list-IsWatched}
use cube_conquer_pb.Solver.Round.{visit_bin_clause-IsVisited, of_quiet}
use cube_conquer_pb.Solver.Measure.{
  trail-le, same-IsWatched, visit_pb_counter_lists-SameWatches, visit_binclauses-SameWatches,
}
use cube_conquer_pb.Solver.Sound.{
  Promises, begun, begun-IsTrail, begun-IsListed, begun-Reached, begun-down, begun-in_range,
  quiet-IsSolver,
}
use cube_conquer_pb.Solver.Propagated.{
  round, propagate_step, after_round, has_conflict-none, has_conflict-some, propagate-Promises,
}

visit_bin_clause-IsWatched :
    (l : Lit) (s : Solver)
    → IsWatched s.clauses s.watch_lists
    → IsWatched (visit_bin_clause l s).clauses (visit_bin_clause l s).watch_lists
unfolding visit_bin_clause
visit_bin_clause-IsWatched l s w =
    same-IsWatched s (visit_bin_clause l s) (visit_binclauses-SameWatches l (s.gen_watch_list l) s)
      w

-- The round that propagates an element of the trail ends.
module _ (s : Solver) (k : IsSolver s) (c : s.conflict ≡ none)
    (watched : IsWatched s.clauses s.watch_lists) (e : StackElement)
    (here : get_elem? s.model.model_stack (length s.model.model_stack - (s.model.propagated + 1))
      ≡ some e)
    (more : s.model.propagated < length s.model.model_stack) where
  visit_all-IsWatched :
      (t : Solver) × (visit_all (neg e.lit) (begun s k e here more) ≡ some t)
      × IsWatched t.clauses t.watch_lists
  unfolding visit_all
  visit_all-IsWatched =
      let o = begun s k e here more in
      let l = neg e.lit in
      let ws = s.gen_watch_list l in
      let range = begun-in_range s k e here more in
      let down = begun-down s k e here more in
      let first =
        visit_bin_clause-IsVisited o ws l range down (begun-IsTrail s k e here more)
          (begun-IsListed s k e here more) refl (begun-Reached s k e here more) c in
      let s1 = visit_bin_clause l o in
      let w1 = visit_bin_clause-IsWatched l o watched in
      elim (Bool-cases (has_conflict s1)) [
        | inl f ↦ rw f (s1, refl, w1)
        | inr f ↦
            let quiet =
              of_quiet o ws l range down (begun-IsTrail s k e here more)
                (begun-IsListed s k e here more) refl s1 first f in
            let (s2, at, w2) =
              visit_clause_watch_list-IsWatched o ws l range down s1 first.0 quiet w1 in
            elim (Bool-cases (has_conflict s2)) [
              | inl g ↦ rw (f, at, g) (s2, refl, w2)
              | inr g ↦
                  rw (f, at, g)
                    (
                      visit_pb_counter_lists l s2,
                      refl,
                      same-IsWatched s2 (visit_pb_counter_lists l s2)
                          (visit_pb_counter_lists-SameWatches l s2) w2,
                    )
            ]
      ]

  propagate-round :
      (fuel : ℕ)
      → ((u : Solver)
          → IsSolver u
          → IsWatched u.clauses u.watch_lists
          → u.conflict ≡ none
          → (variables u ≡ variables s)
          → (u.model.propagated ≡ s.model.propagated + 1)
          → (t : Solver) × (propagate fuel u ≡ some t) × IsWatched t.clauses t.watch_lists)
      → (t : Solver) × (propagate (suc fuel) s ≡ some t) × IsWatched t.clauses t.watch_lists
  unfolding after_round
  propagate-round fuel rest =
      let (u, at, w) = visit_all-IsWatched in
      let step =
        propagate_step s k c e here more fuel ∙ ap (after_round s k c e here more fuel) at in
      elim (round s k c e here more u at) [
        | inl (quiet, r) ↦
            let o = begun s k e here more in
            let (same_prop, same_size, longer) = Grows-same (Entailed o) o.model u.model r.grows in
            let (t, ends, w') =
              rest u (quiet-IsSolver s k e here more u r) w quiet same_size same_prop in
            (t, step ∙ rw (after_round, has_conflict-none u quiet) ends, w')
        | inr (conflicting, refuted, r) ↦
            (step_back u, step ∙ rw (after_round, has_conflict-some u conflicting) refl, w)
      ]

propagate-IsWatched :
    (fuel : ℕ) (s : Solver)
    → IsSolver s
    → IsWatched s.clauses s.watch_lists
    → s.conflict ≡ none
    → variables s < fuel + s.model.propagated
    → (t : Solver) × (propagate fuel s ≡ some t) × IsWatched t.clauses t.watch_lists
unfolding propagate
propagate-IsWatched zero s k w c enough =
    let a = trail-le s.model k.trail in
    let b = k.trail.behind in absurd (omega (arith, a, b, enough))
propagate-IsWatched (suc fuel) s k w c enough =
    let behind = k.trail.behind in
    elim (Bool-cases (s.model.propagated == length s.model.model_stack)) [
      | inl all ↦ rw (propagate, all) (s, refl, w)
      | inr left ↦
          let more : s.model.propagated < length s.model.model_stack =
            ground (arith, left, behind) in
          let (e, stands) =
            get_elem?-some s.model.model_stack
              (length s.model.model_stack - (s.model.propagated + 1)) (omega (arith, more)) in
          propagate-round s k c w e stands more fuel (λ u k' w' c' size prop.
            propagate-IsWatched fuel u k' w' c' (omega (arith, size, prop, enough)))
    ]

-- From a state that satisfies the invariant, whose watch lists are consistent and which has no conflict,
-- and with fuel for one round more than there are variables without a propagated literal: `propagate`
-- returns. Then the invariant holds and the watch lists are consistent, and either there is no conflict,
-- each literal of the trail is propagated, and each solution of the constraints and clauses that agrees
-- with the trail is a solution that agrees with the new trail, or there is a conflict and no solution
-- agrees with the trail.
pub propagate_lem :
    (fuel : ℕ) (s : Solver)
    → IsSolver s
    → IsWatched s.clauses s.watch_lists
    → s.conflict ≡ none
    → variables s < fuel + s.model.propagated
    → (t : Solver) × (propagate fuel s ≡ some t) × IsWatched t.clauses t.watch_lists × Promises s t
propagate_lem fuel s k w c enough =
    let (t, at, watched) = propagate-IsWatched fuel s k w c enough in
    (t, at, watched, propagate-Promises fuel s t k c at)
