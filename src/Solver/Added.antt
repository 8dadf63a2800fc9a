-- ===== src/Solver/Added.antt =====
-- A constraint that is added gets a counter that the invariant describes (src/DBAddition.cpp).
use cube_conquer_pb.Base.{
  ℕ, suc, ◌+◌, ◌≡◌, sym, ◌∙◌, ap, subst, false, [], ◌∷◌, ◌++◌, ◌==◌, if◌then◌else◌, ltb, ◌≤◌, ◌<◌,
  inl, inr, ℤ, pos, ◌+ℤ◌, ◌-ℤ◌, length, length-append, get_or, total, All, All-map_le, Bool-cases,
  arith, int_laws,
}
use cube_conquer_pb.Constraint.{Lit, WConstraint, var}
use cube_conquer_pb.Trail.{Model}
use cube_conquer_pb.Trail.Undo.{IsTrail}
use cube_conquer_pb.ConstraintValue.{is_counted, add_where}
use cube_conquer_pb.ConstraintValue.Slack.{add_where-value, kept}
use cube_conquer_pb.Solver.{
  GeneralWatchListElem, binclause, clause_elem, counterpb, PbConstraint, Solver, no_clause,
  no_constraint, first_coefficient, add_pb_constraint_counter,
}
use cube_conquer_pb.Solver.Counted.{coefficient}
use cube_conquer_pb.Solver.Invariant.{ClauseOk, ctr_at, variables, InRange, IsListed, IsSolver}
use cube_conquer_pb.Solver.Occurrences.{
  get_or-append_left, get_or-append_last, get_or-out, occurrences-other, occurrences-pending,
  occurrences-occurs, occurrences-InRange,
}

new_counter : (r : ℤ) (f n : ℕ) → pos 0 -ℤ r -ℤ pos f +ℤ pos n +ℤ pos f ≡ pos 0 -ℤ r +ℤ pos (n + 0)
new_counter r f n = omega int_laws

module _ (c : PbConstraint) (s : Solver) (k : IsSolver s)
    (terms : All (λ t. var t.1 < variables s) c.ctr.lhs) where
  abbrev id : ℕ
  id = length s.constraints_pb

  abbrev more : Solver
  more = add_pb_constraint_counter c s

  same_model : more.model ≡ s.model
  unfolding add_pb_constraint_counter
  same_model = (occurrences-other id c.ctr.lhs s).0

  ctr-new : ctr_at more id ≡ c.ctr
  unfolding add_pb_constraint_counter
  ctr-new = ap (λ (x : PbConstraint). x.ctr) (get_or-append_last s.constraints_pb c no_constraint)

  ctr-old : (j : ℕ) → (id == j) ≡ false → ctr_at more j ≡ ctr_at s j
  unfolding add_pb_constraint_counter
  ctr-old j apart = elim (Bool-cases (ltb j id)) [
    | inl below ↦
        ap (λ (x : PbConstraint). x.ctr)
          (get_or-append_left s.constraints_pb (c ∷ []) j no_constraint (ground (arith, below)))
    | inr above ↦
        let size = length-append s.constraints_pb (c ∷ []) in
        let past : suc id ≤ j = ground (arith, above, apart) in
        ap (λ (x : PbConstraint). x.ctr)
          (get_or-out (s.constraints_pb ++ c ∷ []) j no_constraint (omega (arith, size, past))
            ∙ sym (get_or-out s.constraints_pb j no_constraint (omega (arith, past))))
  ]

  -- No list has an element of the constraint yet.
  coefficient-new : (l : Lit) → coefficient l (ctr_at s id).lhs ≡ 0
  coefficient-new l =
      ap (λ (x : PbConstraint). coefficient l x.ctr.lhs)
        (get_or-out s.constraints_pb id no_constraint (omega arith))

  coefficient-more :
      (l : Lit) (j n : ℕ)
      → n ≡ coefficient l (ctr_at s j).lhs
      → n + (if id == j then coefficient l c.ctr.lhs else 0) ≡ coefficient l (ctr_at more j).lhs
  coefficient-more l j n e = elim (Bool-cases (id == j)) [
    | inl same ↦
        let q : id ≡ j = ground (arith, same) in
        let nothing = coefficient-new l in
        let at : coefficient l (ctr_at s j).lhs ≡ 0 =
          subst (λ i. coefficient l (ctr_at s i).lhs ≡ 0) q nothing in
        let here : ctr_at more j ≡ c.ctr = subst (λ i. ctr_at more i ≡ c.ctr) q ctr-new in
        rw (same, here) (omega (arith, e, at))
    | inr apart ↦ rw (apart, ctr-old j apart) (omega (arith, e))
  ]

  more-IsListed : IsListed more
  unfolding add_pb_constraint_counter
  more-IsListed = record {
    linked = λ l j.
        occurrences-pending id c.ctr.lhs s l j ∙ coefficient-more l j _ (k.listed.linked l j);
    occurs =
        λ l j. occurrences-occurs id c.ctr.lhs s l j ∙ coefficient-more l j _ (k.listed.occurs l j);
    terms_in_range = λ j.
        subst (λ (m : Model). All (λ t. var t.1 < length m.truth_value_of_var) (ctr_at more j).lhs)
          (sym same_model)
          (elim (Bool-cases (id == j)) [
            | inl same ↦
                let q : id ≡ j = ground (arith, same) in
                let here : ctr_at more j ≡ c.ctr = subst (λ i. ctr_at more i ≡ c.ctr) q ctr-new in
                subst (λ (x : WConstraint). All (λ t. var t.1 < variables s) x.lhs) (sym here) terms
            | inr apart ↦
                subst (λ (x : WConstraint). All (λ t. var t.1 < variables s) x.lhs)
                  (sym (ctr-old j apart)) (k.listed.terms_in_range j)
          ]);
    elems_in_range = λ l.
        subst
          (λ (m : Model).
            All (InRange (length m.truth_value_of_var) (length more.constraints_pb))
              (more.gen_watch_list l))
          (sym same_model)
          (occurrences-InRange id (variables s) (length more.constraints_pb) c.ctr.lhs s l
            (let size = length-append s.constraints_pb (c ∷ []) in omega (arith, size))
            (λ l'.
              All-map_le (InRange (variables s) id)
                (InRange (variables s) (length more.constraints_pb)) (s.gen_watch_list l') widen
                (k.listed.elems_in_range l')));
  }
    where
      widen :
          (e : GeneralWatchListElem)
          → InRange (variables s) id e
          → InRange (variables s) (length more.constraints_pb) e
      widen (binclause other) h = h
      widen (clause_elem cached i) h = h
      widen (counterpb coef i) h =
          let size = length-append s.constraints_pb (c ∷ []) in omega (arith, size, h)

  more-counted :
      (j : ℕ)
      → j < length more.constraints_pb
      → get_or more.sum_of_watches j (pos 0) +ℤ pos (first_coefficient (ctr_at more j).lhs)
        ≡ pos 0
          -ℤ (ctr_at more j).rhs
          +ℤ pos (total (kept (is_counted s.model)) (ctr_at more j).lhs + 0)
  unfolding add_pb_constraint_counter
  more-counted j w =
      let sized = k.sized in
      let size = length-append s.constraints_pb (c ∷ []) in
      elim (Bool-cases (id == j)) [
        | inl same ↦
            let q : length s.sum_of_watches ≡ j = ground (arith, same, sized) in
            let here : ctr_at more j ≡ c.ctr =
              subst (λ i. ctr_at more i ≡ c.ctr) (sym sized ∙ q) ctr-new in
            let first = pos 0 -ℤ c.ctr.rhs -ℤ pos (first_coefficient c.ctr.lhs) in
            let sum = add_where (is_counted s.model) c.ctr.lhs first in
            let last = get_or-append_last s.sum_of_watches sum (pos 0) in
            let at : get_or (s.sum_of_watches ++ sum ∷ []) j (pos 0) ≡ sum =
              subst (λ i. get_or (s.sum_of_watches ++ sum ∷ []) i (pos 0) ≡ sum) q last in
            rw (here, at, add_where-value (is_counted s.model) c.ctr.lhs first)
              (new_counter c.ctr.rhs (first_coefficient c.ctr.lhs) _)
        | inr apart ↦
            let below : j < id = ground (arith, w, size, apart) in
            rw
              (
                ctr-old j apart,
                get_or-append_left s.sum_of_watches
                    (add_where (is_counted s.model) c.ctr.lhs
                        (pos 0 -ℤ c.ctr.rhs -ℤ pos (first_coefficient c.ctr.lhs))
                      ∷ [])
                    j (pos 0) (omega (arith, sized, below)),
              )
              (k.counted j below)
      ]

  -- From a state that satisfies the invariant, a constraint whose variables are there is added with its
  -- counter, and the invariant holds again.
  pub add_pb_constraint_counter-IsSolver : IsSolver (add_pb_constraint_counter c s)
  unfolding add_pb_constraint_counter
  add_pb_constraint_counter-IsSolver = record {
    trail = subst IsTrail (sym same_model) k.trail;
    listed = more-IsListed;
    sized =
        length-append s.sum_of_watches _
        ∙ ap (λ n. n + 1) k.sized
        ∙ sym (length-append s.constraints_pb (c ∷ []));
    counted = λ j w.
        subst
          (λ (m : Model).
            get_or more.sum_of_watches j (pos 0) +ℤ pos (first_coefficient (ctr_at more j).lhs)
            ≡ pos 0
              -ℤ (ctr_at more j).rhs
              +ℤ pos (total (kept (is_counted m)) (ctr_at more j).lhs + 0))
          (sym same_model) (more-counted j w);
    clauses_in_range = λ j.
        subst
          (λ (m : Model). ClauseOk (length m.truth_value_of_var) (get_or more.clauses j no_clause))
          (sym same_model)
          (subst (λ cls. ClauseOk (variables s) (get_or cls j no_clause))
            (sym (occurrences-other id c.ctr.lhs s).1) (k.clauses_in_range j));
  }
