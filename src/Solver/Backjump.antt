-- ===== src/Solver/Backjump.antt =====
-- Taking literals back keeps the invariant, and `backjumpToDL` reaches the level that it is given.
use cube_conquer_pb.Base.{
  ℕ, zero, suc, ◌+◌, ◌≡◌, refl, sym, ◌∙◌, ap, subst, false, List, [], ◌∷◌, ◌==◌, if◌then◌else◌, ltb,
  ◌≤◌, ◌<◌, inl, inr, ℤ, pos, ◌+ℤ◌, ◌-ℤ◌, length, length-set, get_or, get_or-set, set, total, All,
  Option, some, Bool-cases, List-cases, arith, int_laws, pos_part, neg_part,
}
use cube_conquer_pb.Constraint.{var, neg}
use cube_conquer_pb.Trail.{
  StackElement, current_decision_level, is_lit_propagated, drop_top, pop_and_unassign,
}
use cube_conquer_pb.Trail.Undo.{drop_top-IsTrail}
use cube_conquer_pb.ConstraintValue.{is_counted}
use cube_conquer_pb.ConstraintValue.Slack.{kept}
use cube_conquer_pb.Solver.{OccurListElem, Solver, first_coefficient}
use cube_conquer_pb.Solver.Loop.{add_back, undo_top, undo_to, backjump_to_dl}
use cube_conquer_pb.Solver.Counted.Undone.{
  propagated_top, total-counted_propagated, total-counted_waiting,
}
use cube_conquer_pb.Solver.Invariant.{
  ctr_at, occurrence_of, variables, InRange, IsSolver, ClausesInRange,
}
use cube_conquer_pb.Solver.Visits.{get_or-set_other}
use cube_conquer_pb.Solver.Restored.{add_twice, add_none}

length-add_back :
    (es : List OccurListElem) (sums : List ℤ) → length (add_back es sums) ≡ length sums
unfolding add_back
length-add_back [] sums = refl
length-add_back (e ∷ es) sums = length-add_back es _ ∙ length-set sums e.ctr_id _

add_back-value :
    (es : List OccurListElem) (sums : List ℤ) (id : ℕ)
    → id < length sums
    → get_or (add_back es sums) id (pos 0)
      ≡ get_or sums id (pos 0) +ℤ pos (total (occurrence_of id) es)
unfolding add_back
add_back-value [] sums id w = add_none _
add_back-value (e ∷ es) sums id w =
    let up = get_or sums e.ctr_id (pos 0) +ℤ pos e.coefficient in
    let size = length-set sums e.ctr_id up in
    add_back-value es (set sums e.ctr_id up) id (omega (arith, size, w))
    ∙ elim (Bool-cases (e.ctr_id == id)) [
      | inl same ↦
          let q : e.ctr_id ≡ id = ground (arith, same) in
          let at : get_or sums e.ctr_id (pos 0) ≡ get_or sums id (pos 0) =
            ap (λ x. get_or sums x (pos 0)) q in
          let here = get_or-set sums e.ctr_id id up (pos 0) (omega (arith, q, w)) in
          rw (here, same, at) (add_twice _ e.coefficient (total (occurrence_of id) es))
      | inr apart ↦
          let other =
            get_or-set_other sums e.ctr_id id up (pos 0) (λ q. ground (arith, q, apart)) in
          let nothing : total (occurrence_of id) es ≡ 0 + total (occurrence_of id) es =
            omega arith in
          rw (other, apart) (ap (λ x. get_or sums id (pos 0) +ℤ pos x) nothing)
    ]

give_back :
    (s r : ℤ) (f n c : ℕ)
    → s +ℤ pos f ≡ r +ℤ pos (n + 0)
    → s +ℤ pos c +ℤ pos f ≡ r +ℤ pos (n + c + 0)
give_back s r f n c e = let x = ap pos_part e in let y = ap neg_part e in omega (int_laws, x, y)

module _ (s : Solver) (k : IsSolver s) (x : StackElement) (es : List StackElement)
    (top : s.model.model_stack ≡ x ∷ es) where
  abbrev sums : List ℤ
  sums =
      if is_lit_propagated x.lit s.model
      then add_back (s.occur_lists (neg x.lit)) s.sum_of_watches
      else s.sum_of_watches

  abbrev less : Solver
  less = record s { sum_of_watches = sums; model = drop_top x es s.model }

  same_size : length (drop_top x es s.model).truth_value_of_var ≡ variables s
  unfolding drop_top
  same_size = length-set s.model.truth_value_of_var (var x.lit) _

  length-sums : length sums ≡ length s.sum_of_watches
  length-sums = elim (Bool-cases (is_lit_propagated x.lit s.model)) [
    | inl e ↦ rw e (length-add_back (s.occur_lists (neg x.lit)) s.sum_of_watches)
    | inr e ↦ rw e refl
  ]

  less-counted :
      (id : ℕ)
      → id < length s.constraints_pb
      → get_or sums id (pos 0) +ℤ pos (first_coefficient (ctr_at s id).lhs)
        ≡ pos 0
          -ℤ (ctr_at s id).rhs
          +ℤ pos (total (kept (is_counted (drop_top x es s.model))) (ctr_at s id).lhs + 0)
  less-counted id w =
      let sized = k.sized in
      let prop = propagated_top s.model k.trail x es top in
      elim (Bool-cases (is_lit_propagated x.lit s.model)) [
        | inr e ↦
            rw (e, total-counted_waiting s.model k.trail x es top (ctr_at s id).lhs (sym prop ∙ e))
              (k.counted id w)
        | inl e ↦
            rw
              (
                e,
                add_back-value (s.occur_lists (neg x.lit)) s.sum_of_watches id
                    (omega (arith, sized, w)),
                k.listed.occurs (neg x.lit) id,
                total-counted_propagated s.model k.trail x es top (ctr_at s id).lhs (sym prop ∙ e),
              )
              (give_back _ _ _ _ _ (k.counted id w))
      ]

  pub less-IsSolver : IsSolver less
  less-IsSolver = record {
    trail = drop_top-IsTrail x es s.model top k.trail;
    listed = record {
      linked = k.listed.linked;
      occurs = k.listed.occurs;
      terms_in_range = λ id.
          subst (λ n. All (λ u. var u.1 < n) (ctr_at s id).lhs) (sym same_size)
            (k.listed.terms_in_range id);
      elems_in_range = λ l.
          subst (λ n. All (InRange n (length s.constraints_pb)) (s.gen_watch_list l))
            (sym same_size) (k.listed.elems_in_range l);
    };
    sized = length-sums ∙ k.sized;
    counted = less-counted;
    clauses_in_range = subst (λ n. ClausesInRange n s.clauses) (sym same_size) k.clauses_in_range;
  }

  pub undo_top-less : undo_top s ≡ some (x.lit, less)
  unfolding undo_top pop_and_unassign is_lit_propagated
  undo_top-less = rw (undo_top, pop_and_unassign, top) refl

  pub less-stack : less.model.model_stack ≡ es
  unfolding drop_top
  less-stack = refl

-- What taking literals back down to a level reaches.
abbrev pub IsBack : ℕ → Option Solver → Type 0
IsBack dl r =
    (t : Solver) × (r ≡ some t) × IsSolver t × (current_decision_level t.model.model_stack ≤ dl)

undo_to-IsBack :
    (fuel dl : ℕ) (s : Solver)
    → IsSolver s
    → length s.model.model_stack ≤ fuel
    → IsBack dl (undo_to fuel dl s)
unfolding undo_to
undo_to-IsBack zero dl s k w = elim (List-cases s.model.model_stack) [
  | inr (x, es, top) ↦
      let size : length s.model.model_stack ≡ suc (length es) = ap length top in
      absurd (omega (arith, size, w))
  | inl top ↦
      let low : ltb dl (current_decision_level s.model.model_stack) ≡ false =
        rw top (ground arith) in
      rw low (s, refl, k, ground (arith, low))
]
undo_to-IsBack (suc fuel) dl s k w =
    elim (Bool-cases (ltb dl (current_decision_level s.model.model_stack))) [
      | inr low ↦ rw low (s, refl, k, ground (arith, low))
      | inl high ↦ elim (List-cases s.model.model_stack) [
        | inl top ↦ absurd (ground (arith, rw top at high))
        | inr (x, es, top) ↦
            let size : length s.model.model_stack ≡ suc (length es) = ap length top in
            let after = ap length (less-stack s k x es top) in
            rw (high, undo_top-less s k x es top)
              (undo_to-IsBack fuel dl (less s k x es top) (less-IsSolver s k x es top)
                (omega (arith, size, after, w)))
      ]
    ]

-- From a state that satisfies the invariant `backjumpToDL` ends: it takes back the literals above the
-- level, and the invariant holds again.
pub backjump_to_dl-IsBack : (dl : ℕ) (s : Solver) → IsSolver s → IsBack dl (backjump_to_dl dl s)
unfolding backjump_to_dl
backjump_to_dl-IsBack dl s k =
    undo_to-IsBack (length s.model.model_stack) dl
      (record s { num_of_backjump = s.num_of_backjump + 1 })
      (record {
        trail = k.trail;
        listed = record {
          linked = k.listed.linked;
          occurs = k.listed.occurs;
          terms_in_range = k.listed.terms_in_range;
          elems_in_range = k.listed.elems_in_range;
        };
        sized = k.sized;
        counted = k.counted;
        clauses_in_range = k.clauses_in_range;
      })
      (omega arith)
