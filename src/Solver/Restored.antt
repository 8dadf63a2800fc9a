-- ===== src/Solver/Restored.antt =====
-- The loop over the counters of a literal, and the loop that restores them after a conflict.
use cube_conquer_pb.Base.{
  ℕ, zero, suc, ◌+◌, ◌≡◌, refl, sym, ◌∙◌, ap, subst, true, List, [], ◌∷◌, ◌==◌, if◌then◌else◌, ◌<◌,
  ◌⊎◌, inl, inr, ℤ, pos, ◌+ℤ◌, ◌-ℤ◌, ◌≤ℤ◌, ◌<ℤ◌, ltb_ℤ, length, length-set, get_or, get_or-set, set,
  total, All, none, some, Bool-cases, arith, int_laws, pos_part, neg_part,
}
use cube_conquer_pb.Constraint.{WConstraint}
use cube_conquer_pb.Trail.Undo.{IsTrail}
use cube_conquer_pb.ConstraintValue.{is_counted}
use cube_conquer_pb.ConstraintValue.Slack.{kept, kept-refutes}
use cube_conquer_pb.Solver.{
  GeneralWatchListElem, binclause, clause_elem, counterpb, Solver, conflict_pb, first_coefficient,
}
use cube_conquer_pb.Solver.Propagate.{propagate_pb_ctr_counter, visit_counters, restore_counters}
use cube_conquer_pb.Solver.Invariant.{
  ctr_at, pending, InRange, variables, IsListed, Counted, IsRefuted, Reached, is_counted-Misses,
  HasConflict, Reached-conflict,
}
use cube_conquer_pb.Solver.Visits.{
  propagate_pb_ctr_counter-Reached, lower-Counted, get_or-set_other,
}

-- The list after its first `n` counters.
abbrev pub drop_counters : ℕ → List GeneralWatchListElem → List GeneralWatchListElem
drop_counters zero es = es
drop_counters (suc n) [] = []
drop_counters (suc n) (counterpb coef id ∷ es) = drop_counters n es
drop_counters (suc n) (binclause other ∷ es) = drop_counters (suc n) es
drop_counters (suc n) (clause_elem cached id ∷ es) = drop_counters (suc n) es

-- The list is visited to its end, or up to a counter that refutes the trail.
abbrev pub Ends : Solver → List GeneralWatchListElem → ℕ → Solver × ℕ → Type 0
Ends o es n r =
    ((r.0.conflict ≡ none) × Reached o [] r.0)
    ⊎ ((j : ℕ) × (r.1 ≡ n + suc j)
        × Reached o (drop_counters (suc j) es) r.0
        × HasConflict r.0
        × IsRefuted o)

skip-Reached :
    (o s : Solver) (es fs : List GeneralWatchListElem)
    → ((id : ℕ) → pending id es ≡ pending id fs)
    → Reached o es s
    → Reached o fs s
skip-Reached o s es fs e r = record {
  grows = r.grows;
  same_ctrs = r.same_ctrs;
  same_len = r.same_len;
  sized = r.sized;
  counted = λ id w.
      subst
        (λ n.
          get_or s.sum_of_watches id (pos 0) +ℤ pos (first_coefficient (ctr_at o id).lhs)
          ≡ pos 0
            -ℤ (ctr_at o id).rhs
            +ℤ pos (total (kept (is_counted o.model)) (ctr_at o id).lhs + n))
        (e id) (r.counted id w);
  same_gen = r.same_gen;
  same_occ = r.same_occ;
  covers = r.covers;
  clauses_in_range = r.clauses_in_range;
}

lower-Reached :
    (o s : Solver) (es : List GeneralWatchListElem) (coef id : ℕ)
    → id < length o.constraints_pb
    → Reached o (counterpb coef id ∷ es) s
    → Reached o es (record s {
      sum_of_watches = set s.sum_of_watches id (get_or s.sum_of_watches id (pos 0) -ℤ pos coef);
    })
lower-Reached o s es coef id w r =
    let same = r.sized in
    let long = r.same_len in
    record {
      grows = r.grows;
      same_ctrs = r.same_ctrs;
      same_len = r.same_len;
      sized = length-set s.sum_of_watches id _ ∙ r.sized;
      counted =
          lower-Counted o s.sum_of_watches coef id es r.counted (omega (arith, same, long, w));
      same_gen = r.same_gen;
      same_occ = r.same_occ;
      covers = r.covers;
      clauses_in_range = r.clauses_in_range;
    }

-- The slack that the visit computes is at least the counted slack.
visit-bound :
    (o s : Solver) (es : List GeneralWatchListElem) (coef id : ℕ)
    → id < length o.constraints_pb
    → Reached o (counterpb coef id ∷ es) s
    → pos 0 -ℤ (ctr_at o id).rhs +ℤ pos (total (kept (is_counted o.model)) (ctr_at o id).lhs)
      ≤ℤ get_or s.sum_of_watches id (pos 0) -ℤ pos coef +ℤ pos (first_coefficient (ctr_at s id).lhs)
visit-bound o s es coef id w r =
    let same = r.sized in
    let long = r.same_len in
    let snf = get_or s.sum_of_watches id (pos 0) -ℤ pos coef in
    let here = get_or-set s.sum_of_watches id id snf (pos 0) (omega (arith, same, long, w)) in
    let self : (id == id) ≡ true = ground arith in
    let exact = rw (here, self) at ((lower-Reached o s es coef id w r).counted id w) in
    let a = ap pos_part exact in
    let b = ap neg_part exact in
    let bound : pos 0
          -ℤ (ctr_at o id).rhs
          +ℤ pos (total (kept (is_counted o.model)) (ctr_at o id).lhs)
        ≤ℤ snf +ℤ pos (first_coefficient (ctr_at o id).lhs) =
      omega (int_laws, a, b) in
    subst
      (λ (x : WConstraint).
        pos 0 -ℤ (ctr_at o id).rhs +ℤ pos (total (kept (is_counted o.model)) (ctr_at o id).lhs)
        ≤ℤ snf +ℤ pos (first_coefficient x.lhs))
      (sym (r.same_ctrs id)) bound

Ends-further :
    (o : Solver) (e : GeneralWatchListElem) (es : List GeneralWatchListElem) (n m : ℕ)
    (r : Solver × ℕ)
    → ((j : ℕ)
        → (i : ℕ) × (m + suc j ≡ n + suc i)
          × (drop_counters (suc j) es ≡ drop_counters (suc i) (e ∷ es)))
    → Ends o es m r
    → Ends o (e ∷ es) n r
Ends-further o e es n m r f (inl h) = inl h
Ends-further o e es n m r f (inr (j, at, reached, some_conflict, refuted)) =
    let (i, same, rest) = f j in
    inr (i, at ∙ same, subst (λ x. Reached o x r.0) rest reached, some_conflict, refuted)

module _ (o : Solver) (t : IsTrail o.model) (k : IsListed o) where
  pub visit_counters-Ends :
      (es : List GeneralWatchListElem) (s : Solver) (n : ℕ)
      → All (InRange (variables o) (length o.constraints_pb)) es
      → Reached o es s
      → s.conflict ≡ none
      → Ends o es n (visit_counters es s n)
  unfolding visit_counters propagate_pb_ctr_counter
  visit_counters-Ends [] s n w r c = inl (c, r)
  visit_counters-Ends (binclause other ∷ es) s n w r c =
      Ends-further o (binclause other) es n n _ (λ j. (j, refl, refl))
        (visit_counters-Ends es s n w.1
          (skip-Reached o s (binclause other ∷ es) es (λ id. omega arith) r) c)
  visit_counters-Ends (clause_elem cached i ∷ es) s n w r c =
      Ends-further o (clause_elem cached i) es n n _ (λ j. (j, refl, refl))
        (visit_counters-Ends es s n w.1
          (skip-Reached o s (clause_elem cached i ∷ es) es (λ id. omega arith) r) c)
  visit_counters-Ends (counterpb coef id ∷ es) s n (range, w) r c =
      let snf = get_or s.sum_of_watches id (pos 0) -ℤ pos coef in
      let wslk = snf +ℤ pos (first_coefficient (ctr_at s id).lhs) in
      let lowered = lower-Reached o s es coef id range r in
      let bound = visit-bound o s es coef id range r in
      let further = λ (q : Solver × ℕ).
        Ends-further o (counterpb coef id) es n (suc n) q (λ j. (suc j, omega arith, refl)) in
      elim (Bool-cases (ltb_ℤ snf (pos 0))) [
        | inr quiet ↦ rw quiet (further _ (visit_counters-Ends es _ (suc n) w lowered c))
        | inl low ↦ elim (Bool-cases (ltb_ℤ wslk (pos 0))) [
          | inr forced ↦
              rw (low, forced)
                (further _ (
                  visit_counters-Ends es (propagate_pb_ctr_counter id wslk _) (suc n) w
                    (propagate_pb_ctr_counter-Reached o _ es id wslk t k lowered bound) c))
          | inl conflicting ↦
              let less : wslk <ℤ pos 0 = ground (arith, conflicting) in
              rw (low, conflicting)
                (inr (
                  0,
                  omega arith,
                  Reached-conflict o _ es (some (conflict_pb id)) lowered,
                  (conflict_pb id, refl),
                  λ σ all a.
                      kept-refutes (is_counted o.model) σ (is_counted-Misses o.model σ a)
                        (ctr_at o id) wslk bound less (all.constraints id),
                ))
        ]
      ]

-- What the first `n` counters of the list take from a counter.
abbrev taken : ℕ → ℕ → List GeneralWatchListElem → ℕ
taken id zero es = 0
taken id (suc n) [] = 0
taken id (suc n) (counterpb coef i ∷ es) = (if i == id then coef else 0) + taken id n es
taken id (suc n) (binclause other ∷ es) = taken id (suc n) es
taken id (suc n) (clause_elem cached i ∷ es) = taken id (suc n) es

taken-pending :
    (id n : ℕ) (es : List GeneralWatchListElem)
    → taken id n es + pending id (drop_counters n es) ≡ pending id es
taken-pending id zero es = omega arith
taken-pending id (suc n) [] = omega arith
taken-pending id (suc n) (counterpb coef i ∷ es) = omega (arith, taken-pending id n es)
taken-pending id (suc n) (binclause other ∷ es) = omega (arith, taken-pending id (suc n) es)
taken-pending id (suc n) (clause_elem cached i ∷ es) = omega (arith, taken-pending id (suc n) es)

pub add_twice : (s : ℤ) (a b : ℕ) → s +ℤ pos a +ℤ pos b ≡ s +ℤ pos (a + b)
add_twice s a b = omega int_laws

pub add_none : (s : ℤ) → s ≡ s +ℤ pos 0
add_none s = omega int_laws

restore_counters-value :
    (es : List GeneralWatchListElem) (n id : ℕ) (sums : List ℤ)
    → id < length sums
    → get_or (restore_counters es n sums) id (pos 0) ≡ get_or sums id (pos 0) +ℤ pos (taken id n es)
unfolding restore_counters
restore_counters-value es zero id sums w = add_none _
restore_counters-value [] (suc n) id sums w = add_none _
restore_counters-value (binclause other ∷ es) (suc n) id sums w =
    restore_counters-value es (suc n) id sums w
restore_counters-value (clause_elem cached i ∷ es) (suc n) id sums w =
    restore_counters-value es (suc n) id sums w
restore_counters-value (counterpb coef i ∷ es) (suc n) id sums w =
    let up = get_or sums i (pos 0) +ℤ pos coef in
    let size = length-set sums i up in
    restore_counters-value es n id (set sums i up) (omega (arith, size, w))
    ∙ elim (Bool-cases (i == id)) [
      | inl same ↦
          let q : i ≡ id = ground (arith, same) in
          let at : get_or sums i (pos 0) ≡ get_or sums id (pos 0) =
            ap (λ x. get_or sums x (pos 0)) q in
          let here = get_or-set sums i id up (pos 0) (omega (arith, q, w)) in
          rw (here, same, at) (add_twice (get_or sums id (pos 0)) coef (taken id n es))
      | inr apart ↦
          let other = get_or-set_other sums i id up (pos 0) (λ q. ground (arith, q, apart)) in
          let none_taken : taken id n es ≡ 0 + taken id n es = omega arith in
          rw (other, apart) (ap (λ x. get_or sums id (pos 0) +ℤ pos x) none_taken)
    ]

pub length-restore_counters :
    (es : List GeneralWatchListElem) (n : ℕ) (sums : List ℤ)
    → length (restore_counters es n sums) ≡ length sums
unfolding restore_counters
length-restore_counters es zero sums = refl
length-restore_counters [] (suc n) sums = refl
length-restore_counters (binclause other ∷ es) (suc n) sums =
    length-restore_counters es (suc n) sums
length-restore_counters (clause_elem cached i ∷ es) (suc n) sums =
    length-restore_counters es (suc n) sums
length-restore_counters (counterpb coef i ∷ es) (suc n) sums =
    length-restore_counters es n _ ∙ length-set sums i _

put_back :
    (s r : ℤ) (f total_kept a b p : ℕ)
    → s +ℤ pos f ≡ r +ℤ pos (total_kept + b)
    → a + b ≡ p
    → s +ℤ pos a +ℤ pos f ≡ r +ℤ pos (total_kept + p)
put_back s r f n a b p e q =
    let x = ap pos_part e in let y = ap neg_part e in omega (int_laws, x, y, q)

-- The second loop gives back what the first has taken.
pub restore_counters-Counted :
    (o : Solver) (es : List GeneralWatchListElem) (n : ℕ) (sums : List ℤ)
    → length sums ≡ length o.constraints_pb
    → Counted o sums (drop_counters n es)
    → Counted o (restore_counters es n sums) es
restore_counters-Counted o es n sums size h id w =
    let value = restore_counters-value es n id sums (omega (arith, size, w)) in
    rw value (
      put_back _ _ _ _ (taken id n es) (pending id (drop_counters n es)) (pending id es) (h id w)
        (taken-pending id n es))
