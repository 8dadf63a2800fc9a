-- ===== src/Solver/Initial.antt =====
-- `propagateInitialConstraintCounter` and `checkObjectiveIsConflictingOrPropagating` (src/Propagate.cpp):
-- the first propagation of a constraint is sound, and it leaves no literal to force.
use cube_conquer_pb.Base.{
  ℕ, ◌≡◌, refl, sym, ◌∙◌, ap, subst, List, [], ◌∷◌, ◌<◌, ◌⊎◌, inl, inr, ℤ, pos, ◌+ℤ◌, ◌-ℤ◌, ◌≤ℤ◌,
  ◌<ℤ◌, ltb_ℤ, length, length-set, get_or, set, total, All, All-map_le, Ordered, none, some,
  Bool-cases, arith, int_laws, pos_part, neg_part,
}
use cube_conquer_pb.Constraint.{Term}
use cube_conquer_pb.Constraint.Semantics.{Assignment}
use cube_conquer_pb.Trail.{Model}
use cube_conquer_pb.ConstraintValue.{is_counted, max_sum_of_constraint_minus_rhs_propagated}
use cube_conquer_pb.ConstraintValue.Slack.{Agrees, kept, kept-refutes, add_where-value}
use cube_conquer_pb.Solver.{Solver, conflict_pb, no_constraint, first_coefficient}
use cube_conquer_pb.Solver.Propagate.{propagate_terms, propagate_initial_constraint_counter}
use cube_conquer_pb.Solver.Grows.{stay, Grows-IsTrail, Grows-same, Grows-is_counted}
use cube_conquer_pb.Solver.Counted.{total-kept_same}
use cube_conquer_pb.Solver.Invariant.{
  ctr_at, Entailed, IsSolver, IsRefuted, Solves, Reached, Reached-Agrees, is_counted-Misses,
}
use cube_conquer_pb.Solver.Visits.{propagate_terms-Grows, terms-Forces, set-ctr}
use cube_conquer_pb.Solver.Sound.{close-IsSolver, Reached-Solves}
use cube_conquer_pb.Solver.Settled.{Falls, Settled, propagate_terms-Settled}

-- What the first propagation of a constraint promises: a conflict that refutes the trail, or the invariant
-- with each solution, and no open literal above the counted slack.
abbrev pub IsPropagatedOnce : Solver → ℕ → Solver → Type 0
IsPropagatedOnce s id t =
    ((t.conflict ≡ some (conflict_pb id)) × (t.model ≡ s.model) × IsRefuted s)
    ⊎ ((t.conflict ≡ none)
        × IsSolver t
        × ((σ : Assignment) → Solves σ s → Agrees s.model σ → Solves σ t × Agrees t.model σ)
        × All (Settled t.model (max_sum_of_constraint_minus_rhs_propagated (ctr_at s id) s.model))
            (ctr_at s id).lhs)

module _ (s : Solver) (k : IsSolver s) (c : s.conflict ≡ none) (id : ℕ)
    (range : id < length s.constraints_pb) (falls : Ordered Falls (ctr_at s id).lhs) where
  abbrev w : ℤ
  w = get_or s.sum_of_watches id (pos 0) +ℤ pos (first_coefficient (ctr_at s id).lhs)

  own-Reached : Reached s [] s
  own-Reached = record {
    grows = stay;
    same_ctrs = λ i. refl;
    same_len = refl;
    sized = k.sized;
    counted = k.counted;
    same_gen = refl;
    same_occ = refl;
    covers = λ σ x. x;
    clauses_in_range = k.clauses_in_range;
  }

  -- The counter and the first coefficient are the counted slack.
  w-value : max_sum_of_constraint_minus_rhs_propagated (ctr_at s id) s.model ≡ w
  unfolding max_sum_of_constraint_minus_rhs_propagated
  w-value =
      add_where-value (is_counted s.model) (ctr_at s id).lhs (pos 0 -ℤ (ctr_at s id).rhs)
      ∙ ap (λ n. pos 0 -ℤ (ctr_at s id).rhs +ℤ pos n) (omega arith)
      ∙ sym (k.counted id range)

  w-bound :
      pos 0 -ℤ (ctr_at s id).rhs +ℤ pos (total (kept (is_counted s.model)) (ctr_at s id).lhs) ≤ℤ w
  w-bound =
      let e = k.counted id range in
      let a = ap pos_part e in let b = ap neg_part e in omega (int_laws, a, b)

  abbrev forced : Model
  forced = (propagate_terms id (ctr_at s id).lhs w s.model 0).0

  abbrev after : ℕ → Solver
  after stop = record s {
    model = forced;
    constraints_pb = set s.constraints_pb id (record (get_or s.constraints_pb id no_constraint) {
      num_backjump = s.num_of_backjump;
      max_w_idx = stop;
    });
  }

  after-Reached : (stop : ℕ) → Reached s [] (after stop)
  after-Reached stop = record {
    grows =
        propagate_terms-Grows (Entailed s) s.model s.model id (ctr_at s id).lhs w 0 k.trail stay
          (terms-Forces s id w k.listed w-bound);
    same_ctrs = λ j. set-ctr s id j _ refl;
    same_len = length-set s.constraints_pb id _;
    sized = k.sized ∙ sym (length-set s.constraints_pb id _);
    counted = k.counted;
    same_gen = refl;
    same_occ = refl;
    covers = λ σ x. x;
    clauses_in_range = k.clauses_in_range;
  }

  after-IsSolver : (stop : ℕ) → IsSolver (after stop)
  after-IsSolver stop =
      let r = after-Reached stop in
      close-IsSolver s (after stop) [] forced k.listed r
        (Grows-IsTrail (Entailed s) s.model forced r.grows k.trail)
        (Grows-same (Entailed s) s.model forced r.grows).1
        (λ j.
          let q =
            total-kept_same (is_counted forced) (is_counted s.model) (ctr_at s j).lhs
              (λ l. sym (Grows-is_counted (Entailed s) s.model forced l r.grows k.trail)) in
          omega (arith, q))

  -- Below the first coefficient are all.
  below_first :
      (ts : List Term) (m : Model) (x : ℤ)
      → Ordered Falls ts
      → pos (first_coefficient ts) ≤ℤ x
      → All (Settled m x) ts
  below_first [] m x o le = tt
  below_first (t ∷ ts) m x o le =
      ((λ e. le), All-map_le (Falls t) (Settled m x) ts (λ u f e. omega (arith, f, le)) o.0)

  w-Settled :
      (m : Model)
      → All (Settled m w) (ctr_at s id).lhs
      → All
          (Settled m (max_sum_of_constraint_minus_rhs_propagated (ctr_at s id) s.model))
          (ctr_at s id).lhs
  w-Settled m h = subst (λ x. All (Settled m x) (ctr_at s id).lhs) (sym w-value) h

  -- From a state that satisfies the invariant and has no conflict, for a constraint that is there and whose
  -- coefficients fall: the first propagation of the constraint reports a conflict only where no solution
  -- agrees with the trail, and else the invariant holds, each solution that agrees with the trail agrees
  -- with the new one, and no literal of the constraint without a value has a coefficient above the slack
  -- that the propagated literals leave.
  pub propagate_initial_constraint_counter_lem :
      IsPropagatedOnce s id (propagate_initial_constraint_counter id s)
  unfolding propagate_initial_constraint_counter
  propagate_initial_constraint_counter_lem =
      let watched = get_or s.sum_of_watches id (pos 0) in
      let stop = (propagate_terms id (ctr_at s id).lhs w s.model 0).1 in
      elim (Bool-cases (ltb_ℤ watched (pos 0))) [
        | inr quiet ↦
            let enough : pos 0 ≤ℤ watched = ground (arith, quiet) in
            let le : pos (first_coefficient (ctr_at s id).lhs) ≤ℤ w = omega (int_laws, enough) in
            rw quiet (
              inr (
                c,
                k,
                (λ σ all a. (all, a)),
                w-Settled s.model (below_first (ctr_at s id).lhs s.model w falls le),
              ))
        | inl low ↦ elim (Bool-cases (ltb_ℤ w (pos 0))) [
          | inl conflicting ↦
              let less : w <ℤ pos 0 = ground (arith, conflicting) in
              rw (low, conflicting)
                (inl (
                  refl,
                  refl,
                  λ σ all a.
                      kept-refutes (is_counted s.model) σ (is_counted-Misses s.model σ a)
                        (ctr_at s id) w w-bound less (all.constraints id),
                ))
          | inr some_slack ↦
              let r = after-Reached stop in
              rw (low, some_slack)
                (inr (
                  c,
                  after-IsSolver stop,
                  (λ σ all a. (
                    Reached-Solves s (after stop) [] σ r all,
                    Reached-Agrees s (after stop) [] σ r all a,
                  )),
                  w-Settled forced (
                      propagate_terms-Settled id (ctr_at s id).lhs w s.model 0 falls
                        (k.listed.terms_in_range id)),
                ))
        ]
      ]
