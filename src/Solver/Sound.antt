-- ===== src/Solver/Sound.antt =====
-- `propagate` keeps the invariant; it forces only what each solution makes true and reports a conflict only
-- where the trail has no solution.
use cube_conquer_pb.Base.{
  ℕ, ◌+◌, ◌-◌, ◌≡◌, refl, sym, ◌∙◌, ap, subst, false, not, List, [], ◌<◌, ◌⊎◌, pos, ◌+ℤ◌, ◌-ℤ◌,
  length, get_or, get_elem?, total, All, none, some, arith,
}
use cube_conquer_pb.Constraint.{WConstraint, var, neg}
use cube_conquer_pb.Constraint.Semantics.{Assignment, holds, Satisfies}
use cube_conquer_pb.Trail.{Model, StackElement, truth_of, is_true_lit, value_of_lit}
use cube_conquer_pb.Trail.Undo.{IsTrail}
use cube_conquer_pb.ConstraintValue.{is_counted}
use cube_conquer_pb.ConstraintValue.Slack.{Agrees, holds-neg, kept}
use cube_conquer_pb.Solver.{GeneralWatchListElem, Solver, first_coefficient}
use cube_conquer_pb.Solver.Loop.{step_back}
use cube_conquer_pb.Solver.Counted.{total-kept_same, coefficient, var-neg}
use cube_conquer_pb.Solver.Counted.Next.{next-value, next-range, total-counted_next}
use cube_conquer_pb.Solver.Grows.{
  stay, at_propagated, is_true_lit-value, reads_own, Grows-IsTrail, Grows-at, Grows-same,
  Grows-counted, Grows-is_counted,
}
use cube_conquer_pb.Solver.Invariant.{
  ctr_at, pending, occurrence_of, variables, InRange, IsListed, IsSolver, ClausesInRange, BinHolds,
  Solves, Entailed, IsRefuted, Reached, HasConflict,
}

-- The state reached, with a model that counts what the counters count.
pub close-IsSolver :
    (o t : Solver) (ws : List GeneralWatchListElem) (m : Model)
    → IsListed o
    → Reached o ws t
    → IsTrail m
    → length m.truth_value_of_var ≡ variables o
    → ((id : ℕ)
        → total (kept (is_counted m)) (ctr_at o id).lhs
          ≡ total (kept (is_counted o.model)) (ctr_at o id).lhs + pending id ws)
    → IsSolver (record t { model = m })
close-IsSolver o t ws m k r trail size sum =
    let long = r.same_len in
    record {
      trail = trail;
      listed = record {
        linked = λ l id.
            ap (λ f. pending id (f l)) r.same_gen
            ∙ k.linked l id
            ∙ ap (λ (c : WConstraint). coefficient l c.lhs) (sym (r.same_ctrs id));
        occurs = λ l id.
            ap (λ f. total (occurrence_of id) (f l)) r.same_occ
            ∙ k.occurs l id
            ∙ ap (λ (c : WConstraint). coefficient l c.lhs) (sym (r.same_ctrs id));
        terms_in_range = λ id.
            subst (λ (c : WConstraint). All (λ x. var x.1 < length m.truth_value_of_var) c.lhs)
              (sym (r.same_ctrs id))
              (subst (λ n. All (λ x. var x.1 < n) (ctr_at o id).lhs) (sym size)
                (k.terms_in_range id));
        elems_in_range = λ l.
            subst (λ n. All (InRange n (length t.constraints_pb)) (t.gen_watch_list l)) (sym size)
              (subst (λ n. All (InRange (variables o) n) (t.gen_watch_list l)) (sym long)
                (subst (λ f. All (InRange (variables o) (length o.constraints_pb)) (f l))
                  (sym r.same_gen) (k.elems_in_range l)));
      };
      sized = r.sized;
      counted = λ id w.
          subst
            (λ (c : WConstraint).
              get_or t.sum_of_watches id (pos 0) +ℤ pos (first_coefficient c.lhs)
              ≡ pos 0 -ℤ c.rhs +ℤ pos (total (kept (is_counted m)) c.lhs + 0))
            (sym (r.same_ctrs id))
            (r.counted id (omega (arith, w, long))
              ∙ ap (λ n. pos 0 -ℤ (ctr_at o id).rhs +ℤ pos n) (let e = sum id in omega (arith, e)));
      clauses_in_range = subst (λ n. ClausesInRange n t.clauses) (sym size) r.clauses_in_range;
    }

-- What `propagate` promises of a state without a conflict.
abbrev pub Promises : Solver → Solver → Type 0
Promises s t =
    IsSolver t
    × (((t.conflict ≡ none)
          × (t.model.propagated ≡ length t.model.model_stack)
          × ((σ : Assignment) → Solves σ s → Agrees s.model σ → Solves σ t × Agrees t.model σ))
        ⊎ (HasConflict t × IsRefuted s))

pub Reached-Solves :
    (o t : Solver) (ws : List GeneralWatchListElem) (σ : Assignment)
    → Reached o ws t
    → Solves σ o
    → Solves σ t
Reached-Solves o t ws σ r all = record {
  constraints = λ id. subst (Satisfies σ) (sym (r.same_ctrs id)) (all.constraints id);
  clauses = r.covers σ all.clauses;
  bins = λ l. subst (λ f. All (BinHolds σ l) (f l)) (sym r.same_gen) (all.bins l);
}

-- The next literal of the trail, at the height of the number of propagated literals.
module _ (s : Solver) (k : IsSolver s) (e : StackElement)
    (here : get_elem? s.model.model_stack (length s.model.model_stack - (s.model.propagated + 1))
      ≡ some e)
    (more : s.model.propagated < length s.model.model_stack) where
  abbrev pub begun : Solver
  begun = record s { model = at_propagated (s.model.propagated + 1) s.model }

  pub begun-IsTrail : IsTrail begun.model
  begun-IsTrail =
      let t = k.trail in
      record {
        recorded = t.recorded;
        heights = t.heights;
        unplaced = t.unplaced;
        placed = t.placed;
        level = t.level;
        behind = omega (arith, more);
      }

  pub begun-IsListed : IsListed begun
  begun-IsListed =
      let a = k.listed in
      record {
        linked = a.linked;
        occurs = a.occurs;
        terms_in_range = a.terms_in_range;
        elems_in_range = a.elems_in_range;
      }

  sums-next :
      (id : ℕ)
      → total (kept (is_counted s.model)) (ctr_at s id).lhs
        ≡ total (kept (is_counted begun.model)) (ctr_at s id).lhs
          + pending id (s.gen_watch_list (neg e.lit))
  sums-next id =
      total-counted_next s.model k.trail e here more (ctr_at s id).lhs
      ∙ ap (λ n. total (kept (is_counted begun.model)) (ctr_at s id).lhs + n)
          (sym (k.listed.linked (neg e.lit) id))

  pub begun-Reached : Reached begun (s.gen_watch_list (neg e.lit)) begun
  begun-Reached = record {
    grows = stay;
    same_ctrs = λ id. refl;
    same_len = refl;
    sized = k.sized;
    counted = λ id w.
        k.counted id w
        ∙ ap (λ n. pos 0 -ℤ (ctr_at s id).rhs +ℤ pos n) (let q = sums-next id in omega (arith, q));
    same_gen = refl;
    same_occ = refl;
    covers = λ σ c. c;
    clauses_in_range = k.clauses_in_range;
  }

  -- The negation is false in each assignment that agrees with the trail.
  pub begun-down : (σ : Assignment) → Agrees begun.model σ → holds σ (neg e.lit) ≡ false
  begun-down σ a =
      holds-neg σ e.lit
      ∙ ap not (
          a e.lit (
            is_true_lit-value begun.model e.lit (truth_of e.lit)
              (next-value s.model k.trail e here more).0
            ∙ reads_own e.lit))

  pub begun-in_range : var (neg e.lit) < variables begun
  begun-in_range =
      subst (λ v. v < variables s) (sym (var-neg e.lit)) (next-range s.model k.trail e here more)

  pub begun-solves : (σ : Assignment) → Solves σ s → Solves σ begun
  begun-solves σ all = record {
    constraints = all.constraints;
    clauses = all.clauses;
    bins = all.bins;
  }

  pub begun-Agrees : (σ : Assignment) → Agrees s.model σ → Agrees begun.model σ
  unfolding is_true_lit value_of_lit
  begun-Agrees σ a = a

  -- A round that ends without a conflict.
  pub quiet-IsSolver : (t : Solver) → Reached begun [] t → IsSolver t
  quiet-IsSolver t r =
      close-IsSolver begun t [] t.model begun-IsListed r
        (Grows-IsTrail (Entailed begun) begun.model t.model r.grows begun-IsTrail)
        (Grows-same (Entailed begun) begun.model t.model r.grows).1
        (λ id.
          let q =
            total-kept_same (is_counted t.model) (is_counted begun.model) (ctr_at s id).lhs (λ l.
              sym
                (Grows-is_counted (Entailed begun) begun.model t.model l r.grows begun-IsTrail)) in
          omega (arith, q))

  -- A round that ends in a conflict: the literal is again to be propagated.
  pub step_back-IsSolver :
      (t : Solver) → Reached begun (s.gen_watch_list (neg e.lit)) t → IsSolver (step_back t)
  step_back-IsSolver t r =
      let same = Grows-same (Entailed begun) begun.model t.model r.grows in
      let back : t.model.propagated - 1 ≡ s.model.propagated =
        (let q = same.0 in omega (arith, q)) in
      close-IsSolver begun t (s.gen_watch_list (neg e.lit))
        (at_propagated (t.model.propagated - 1) t.model) begun-IsListed r
        (subst (λ p. IsTrail (at_propagated p t.model)) (sym back)
          (Grows-at (Entailed begun) begun.model t.model s.model.propagated r.grows k.trail))
        same.1
        (λ id.
          total-kept_same (is_counted (at_propagated (t.model.propagated - 1) t.model))
            (is_counted s.model) (ctr_at s id).lhs
            (λ l. sym (
              ap (λ p. is_counted (at_propagated p t.model) l) back
              ∙ Grows-counted (Entailed begun) begun.model t.model s.model.propagated l r.grows
                  k.trail))
          ∙ sums-next id)
