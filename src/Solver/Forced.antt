-- ===== src/Solver/Forced.antt =====
-- The binary clauses of a literal that has become false force literals that each solution makes true.
use cube_conquer_pb.Base.{
  ◌≡◌, refl, true, false, List, [], ◌∷◌, ◌<◌, inl, inr, length, All, none, some, Bool-cases, arith,
}
use cube_conquer_pb.Constraint.{Lit, var}
use cube_conquer_pb.Constraint.Semantics.{Assignment, holds}
use cube_conquer_pb.Reasons.{Content, bin_clause}
use cube_conquer_pb.Trail.{is_false_lit, is_undef_lit, set_true_due_to_reason}
use cube_conquer_pb.ConstraintValue.Slack.{Agrees, Agrees-false}
use cube_conquer_pb.Solver.{
  GeneralWatchListElem, binclause, clause_elem, counterpb, Solver, conflict_bin_clause,
}
use cube_conquer_pb.Solver.Propagate.{visit_binclauses}
use cube_conquer_pb.Solver.Grows.{grow, in_range-IsUndef, Grows-same}
use cube_conquer_pb.Solver.Invariant.{
  variables, InRange, BinHolds, Solves, Entailed, Reached, Reached-update, Reached-conflict,
  Reached-Agrees, IsVisited,
}

-- A literal without a value that each solution makes true may become true.
pub Reached-force :
    (o s : Solver) (es : List GeneralWatchListElem) (l : Lit) (r : Content)
    → Reached o es s
    → var l < variables o
    → is_undef_lit l s.model ≡ true
    → Entailed o l
    → Reached o es (record s { model = set_true_due_to_reason l r s.model })
Reached-force o s es l r k w u e =
    let (same_prop, same_size, longer) = Grows-same (Entailed o) o.model s.model k.grows in
    Reached-update o s es (set_true_due_to_reason l r s.model) s.clauses s.watch_lists s.conflict k
      (grow o.model s.model l r k.grows (in_range-IsUndef l s.model (omega (arith, w, same_size)) u)
        e)
      k.covers k.clauses_in_range

module _ (o : Solver) (ws : List GeneralWatchListElem) (l : Lit)
    (down : (σ : Assignment) → Agrees o.model σ → holds σ l ≡ false) where
  other_holds :
      (σ : Assignment) (other : Lit)
      → Agrees o.model σ
      → BinHolds σ l (binclause other)
      → holds σ other ≡ true
  other_holds σ other a (inl h) = absurd (cc (down σ a, h))
  other_holds σ other a (inr h) = h

  pub visit_binclauses-IsVisited :
      (es : List GeneralWatchListElem) (s : Solver)
      → All (InRange (variables o) (length o.constraints_pb)) es
      → ((σ : Assignment) → Solves σ o → All (BinHolds σ l) es)
      → Reached o ws s
      → s.conflict ≡ none
      → IsVisited o ws (visit_binclauses l es s)
  unfolding visit_binclauses
  visit_binclauses-IsVisited [] s w h r c = (r, inl c)
  visit_binclauses-IsVisited (counterpb coef id ∷ es) s w h r c =
      visit_binclauses-IsVisited es s w.1 (λ σ all. (h σ all).1) r c
  visit_binclauses-IsVisited (clause_elem cached id ∷ es) s w h r c =
      visit_binclauses-IsVisited es s w.1 (λ σ all. (h σ all).1) r c
  visit_binclauses-IsVisited (binclause other ∷ es) s (range, w) h r c =
      let entailed : Entailed o other = λ σ all a. other_holds σ other a (h σ all).0 in
      elim (Bool-cases (is_false_lit other s.model)) [
        | inl down_too ↦ rw down_too (
          Reached-conflict o s ws (some (conflict_bin_clause l other)) r,
          inr (
            (conflict_bin_clause l other, refl),
            λ σ all a.
                let off = Agrees-false s.model σ other (Reached-Agrees o s ws σ r all a) down_too in
                let on = entailed σ all a in cc,
          ),
        )
        | inr up ↦ elim (Bool-cases (is_undef_lit other s.model)) [
          | inl undef ↦
              rw (up, undef)
                (visit_binclauses-IsVisited es _ w (λ σ all. (h σ all).1)
                  (Reached-force o s ws other (bin_clause l) r range undef entailed) c)
          | inr set_already ↦
              rw (up, set_already) (visit_binclauses-IsVisited es s w (λ σ all. (h σ all).1) r c)
        ]
      ]
