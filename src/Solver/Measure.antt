-- ===== src/Solver/Measure.antt =====
-- The trail has a place for each variable, which bounds the rounds of `propagate`; the visits of binary
-- clauses and counters leave the watch lists as they are.
use cube_conquer_pb.Base.{
  ℕ, suc, ◌≡◌, refl, sym, ◌∙◌, ap, subst, List, [], ◌∷◌, ◌≤◌, inl, inr, length, length-set, get_or,
  set, total, total-set, Option, none, some, Bool-cases, Option-cases, arith, pos, ◌+ℤ◌, ◌-ℤ◌,
  ltb_ℤ,
}
use cube_conquer_pb.Constraint.{Lit, plus, minus, var}
use cube_conquer_pb.Reasons.{bin_clause}
use cube_conquer_pb.Trail.{
  Model, Truth, unassigned, is_true, is_false, truth_of, StackElement, is_false_lit, is_undef_lit,
  set_true_due_to_reason,
}
use cube_conquer_pb.Trail.Undo.{IsTrail, Recorded, Recorded-set, higher-Missing}
use cube_conquer_pb.Solver.{
  GeneralWatchListElem, binclause, clause_elem, counterpb, Solver, no_constraint, first_coefficient,
}
use cube_conquer_pb.Solver.Propagate.{
  propagate_pb_ctr_counter, visit_counters, visit_pb_counter_lists, visit_binclauses,
  restore_counters,
}
use cube_conquer_pb.Solver.Watching.{IsWatched}

-- The number of variables with a value.
abbrev valued : Truth → ℕ
valued unassigned = 0
valued is_true = 1
valued is_false = 1

valued-truth_of : (l : Lit) → valued (truth_of l) ≡ 1
valued-truth_of (plus v) = refl
valued-truth_of (minus v) = refl

total-valued_le : (ts : List Truth) → total valued ts ≤ length ts
total-valued_le [] = omega arith
total-valued_le (unassigned ∷ ts) = omega (arith, total-valued_le ts)
total-valued_le (is_true ∷ ts) = omega (arith, total-valued_le ts)
total-valued_le (is_false ∷ ts) = omega (arith, total-valued_le ts)

Recorded-le :
    (es : List StackElement) (ts : List Truth) (hs : List (Option ℕ))
    → length hs ≡ length ts
    → Recorded es ts hs
    → length es ≤ total valued ts
Recorded-le [] ts hs size r = omega arith
Recorded-le (e ∷ es) ts hs size (in_range, value, height, rest) =
    let less =
      Recorded-set es ts hs (var e.lit) unassigned none in_range size
        (higher-Missing (var e.lit) (length es) es ts hs height (omega arith) rest) rest in
    let a = length-set ts (var e.lit) unassigned in
    let b = length-set hs (var e.lit) none in
    let ih =
      Recorded-le es (set ts (var e.lit) unassigned) (set hs (var e.lit) none)
        (omega (arith, a, b, size)) less in
    let sum = total-set valued ts (var e.lit) unassigned unassigned in_range in
    let one : valued (get_or ts (var e.lit) unassigned) ≡ 1 =
      ap valued value ∙ valued-truth_of e.lit in
    omega (arith, ih, sum, one)

-- The trail has a place for each variable.
pub trail-le : (m : Model) → IsTrail m → length m.model_stack ≤ length m.truth_value_of_var
trail-le m t =
    let a =
      Recorded-le m.model_stack m.truth_value_of_var m.stack_height_of_var t.heights t.recorded in
    let b = total-valued_le m.truth_value_of_var in omega (arith, a, b)

abbrev SameWatches : Solver → Solver → Type 0
SameWatches s t = (t.clauses ≡ s.clauses) × (t.watch_lists ≡ s.watch_lists)

pub visit_binclauses-SameWatches :
    (l : Lit) (es : List GeneralWatchListElem) (s : Solver)
    → SameWatches s (visit_binclauses l es s)
unfolding visit_binclauses
visit_binclauses-SameWatches l [] s = (refl, refl)
visit_binclauses-SameWatches l (counterpb coef id ∷ es) s = visit_binclauses-SameWatches l es s
visit_binclauses-SameWatches l (clause_elem cached id ∷ es) s = visit_binclauses-SameWatches l es s
visit_binclauses-SameWatches l (binclause other ∷ es) s =
    elim (Bool-cases (is_false_lit other s.model)) [
      | inl e ↦ rw e (refl, refl)
      | inr e ↦ elim (Bool-cases (is_undef_lit other s.model)) [
        | inl f ↦
            rw (e, f)
              (visit_binclauses-SameWatches l es
                (record s { model = set_true_due_to_reason other (bin_clause l) s.model }))
        | inr f ↦ rw (e, f) (visit_binclauses-SameWatches l es s)
      ]
    ]

visit_counters-SameWatches :
    (es : List GeneralWatchListElem) (s : Solver) (n : ℕ) → SameWatches s (visit_counters es s n).0
unfolding visit_counters propagate_pb_ctr_counter
visit_counters-SameWatches [] s n = (refl, refl)
visit_counters-SameWatches (binclause other ∷ es) s n = visit_counters-SameWatches es s n
visit_counters-SameWatches (clause_elem cached id ∷ es) s n = visit_counters-SameWatches es s n
visit_counters-SameWatches (counterpb coef id ∷ es) s n =
    let snf = get_or s.sum_of_watches id (pos 0) -ℤ pos coef in
    let wslk = snf +ℤ pos (first_coefficient (get_or s.constraints_pb id no_constraint).ctr.lhs) in
    elim (Bool-cases (ltb_ℤ snf (pos 0))) [
      | inr quiet ↦ rw quiet (visit_counters-SameWatches es _ (suc n))
      | inl low ↦ elim (Bool-cases (ltb_ℤ wslk (pos 0))) [
        | inl conflicting ↦ rw (low, conflicting) (refl, refl)
        | inr forced ↦ rw (low, forced) (visit_counters-SameWatches es _ (suc n))
      ]
    ]

restored-SameWatches :
    (l : Lit) (s : Solver) (r : Solver × ℕ)
    → SameWatches s r.0
    → SameWatches s (elim r.0.conflict [
      | none ↦ r.0
      | some k ↦ record r.0 {
        sum_of_watches = restore_counters (r.0.gen_watch_list l) r.1 r.0.sum_of_watches;
      }
    ])
restored-SameWatches l s r h = elim (Option-cases r.0.conflict) [
  | inl e ↦ rw e h
  | inr (k, e) ↦ rw e h
]

pub visit_pb_counter_lists-SameWatches :
    (l : Lit) (s : Solver) → SameWatches s (visit_pb_counter_lists l s)
unfolding visit_pb_counter_lists
visit_pb_counter_lists-SameWatches l s =
    restored-SameWatches l s (visit_counters (s.gen_watch_list l) s 0)
      (visit_counters-SameWatches (s.gen_watch_list l) s 0)

pub same-IsWatched :
    (s t : Solver)
    → SameWatches s t
    → IsWatched s.clauses s.watch_lists
    → IsWatched t.clauses t.watch_lists
same-IsWatched s t (p, q) w =
    subst (λ cls. IsWatched cls t.watch_lists) (sym p) (subst (IsWatched s.clauses) (sym q) w)
