-- ===== src/Solver/Invariant.antt =====
-- The invariant of the databases: the watch lists and the occurrence lists hold each term of each
-- constraint, and each counter is the sum of the coefficients that it counts, less the constant and the
-- first coefficient.
use cube_conquer_pb.Base.{
  ℕ, ◌+◌, ◌≡◌, true, List, [], ◌==◌, if◌then◌else◌, ◌≤◌, ◌<◌, ◌⊎◌, ℤ, pos, ◌+ℤ◌, ◌-ℤ◌, length,
  get_or, total, All, Any, arith, Option, none, some,
}
use cube_conquer_pb.Constraint.{Lit, WConstraint, var}
use cube_conquer_pb.Constraint.Semantics.{Assignment, holds, Satisfies}
use cube_conquer_pb.Trail.{Model}
use cube_conquer_pb.Trail.Undo.{IsTrail}
use cube_conquer_pb.ConstraintValue.{is_counted}
use cube_conquer_pb.ConstraintValue.Slack.{Agrees, Agrees-false, Misses, kept}
use cube_conquer_pb.Solver.{
  GeneralWatchListElem, binclause, clause_elem, counterpb, OccurListElem, WatchListElem, Clause,
  Conflict, Solver, no_constraint, no_clause, first_coefficient,
}
use cube_conquer_pb.Solver.Counted.{coefficient}
use cube_conquer_pb.Solver.Grows.{Grows, Grows-Agrees}

abbrev pub ctr_at : Solver → ℕ → WConstraint
ctr_at s id = (get_or s.constraints_pb id no_constraint).ctr

abbrev pub lits_at : List Clause → ℕ → List Lit
lits_at cls id = (get_or cls id no_clause).lits

-- What a list still takes from the counter of a constraint.
abbrev pub counter_of : ℕ → GeneralWatchListElem → ℕ
counter_of id (counterpb coef i) = if i == id then coef else 0
counter_of id (binclause other) = 0
counter_of id (clause_elem cached i) = 0

abbrev pub pending : ℕ → List GeneralWatchListElem → ℕ
pending id es = total (counter_of id) es

abbrev pub occurrence_of : ℕ → OccurListElem → ℕ
occurrence_of id e = if e.ctr_id == id then e.coefficient else 0

abbrev pub InRange : ℕ → ℕ → GeneralWatchListElem → Type 0
InRange n len (counterpb coef id) = id < len
InRange n len (binclause other) = var other < n
InRange n len (clause_elem cached id) = Unit

abbrev pub variables : Solver → ℕ
variables s = length s.model.truth_value_of_var

pub record IsListed (s : Solver) : Type 0 where
  pub linked :
      (l : Lit) (id : ℕ) → pending id (s.gen_watch_list l) ≡ coefficient l (ctr_at s id).lhs
  pub occurs :
      (l : Lit) (id : ℕ)
      → total (occurrence_of id) (s.occur_lists l) ≡ coefficient l (ctr_at s id).lhs
  pub terms_in_range : (id : ℕ) → All (λ t. var t.1 < variables s) (ctr_at s id).lhs
  pub elems_in_range :
      (l : Lit) → All (InRange (variables s) (length s.constraints_pb)) (s.gen_watch_list l)

-- The counters of the constraints of `o` under its model, while `es` is still to be visited.
abbrev pub Counted : Solver → List ℤ → List GeneralWatchListElem → Type 0
Counted o sums es =
    (id : ℕ)
    → id < length o.constraints_pb
    → get_or sums id (pos 0) +ℤ pos (first_coefficient (ctr_at o id).lhs)
      ≡ pos 0
        -ℤ (ctr_at o id).rhs
        +ℤ pos (total (kept (is_counted o.model)) (ctr_at o id).lhs + pending id es)

-- The saved index is past the two watches.
abbrev pub ClauseOk : ℕ → Clause → Type 0
ClauseOk n cl = (2 ≤ cl.watch_idx) × All (λ l. var l < n) cl.lits

abbrev pub ClausesInRange : ℕ → List Clause → Type 0
ClausesInRange n cls = (id : ℕ) → ClauseOk n (get_or cls id no_clause)

pub record IsSolver (s : Solver) : Type 0 where
  pub trail : IsTrail s.model
  pub listed : IsListed s
  pub sized : length s.sum_of_watches ≡ length s.constraints_pb
  pub counted : Counted s s.sum_of_watches []
  pub clauses_in_range : ClausesInRange (variables s) s.clauses

abbrev pub Covers : Assignment → List Clause → Type 0
Covers σ cls = (id : ℕ) → id < length cls → Any (λ l. holds σ l ≡ true) (lits_at cls id)

-- The binary clause of `l` and the other literal.
abbrev pub BinHolds : Assignment → Lit → GeneralWatchListElem → Type 0
BinHolds σ l (binclause other) = (holds σ l ≡ true) ⊎ (holds σ other ≡ true)
BinHolds σ l (counterpb coef id) = Unit
BinHolds σ l (clause_elem cached id) = Unit

-- The assignment satisfies the constraints, the clauses and the binary clauses.
pub record Solves (σ : Assignment) (s : Solver) : Type 0 where
  pub constraints : (id : ℕ) → Satisfies σ (ctr_at s id)
  pub clauses : Covers σ s.clauses
  pub bins : (l : Lit) → All (BinHolds σ l) (s.gen_watch_list l)

-- True in each solution that agrees with the trail.
abbrev pub Entailed : Solver → Lit → Type 0
Entailed o l = (σ : Assignment) → Solves σ o → Agrees o.model σ → holds σ l ≡ true

abbrev pub IsRefuted : Solver → Type 0
IsRefuted o = (σ : Assignment) → Solves σ o → ¬ Agrees o.model σ

-- What propagation reaches from `o` while it visits a list of which `es` is left.
pub record Reached (o : Solver) (es : List GeneralWatchListElem) (s : Solver) : Type 0 where
  pub grows : Grows (Entailed o) o.model s.model
  pub same_ctrs : (id : ℕ) → ctr_at s id ≡ ctr_at o id
  pub same_len : length s.constraints_pb ≡ length o.constraints_pb
  pub sized : length s.sum_of_watches ≡ length s.constraints_pb
  pub counted : Counted o s.sum_of_watches es
  pub same_gen : s.gen_watch_list ≡ o.gen_watch_list
  pub same_occ : s.occur_lists ≡ o.occur_lists
  pub covers : (σ : Assignment) → Covers σ o.clauses → Covers σ s.clauses
  pub clauses_in_range : ClausesInRange (variables o) s.clauses

-- A literal that is not counted is false in each assignment that agrees with the trail.
pub is_counted-Misses : (m : Model) (σ : Assignment) → Agrees m σ → Misses (is_counted m) σ
unfolding is_counted
is_counted-Misses m σ a l e = Agrees-false m σ l a (ground (arith, e))

-- The parts of the state that the visits change beside the counters and the headers.
pub Reached-update :
    (o s : Solver) (es : List GeneralWatchListElem) (m : Model) (cls : List Clause)
    (wl : Lit → List WatchListElem) (k : Option Conflict)
    → Reached o es s
    → Grows (Entailed o) o.model m
    → ((σ : Assignment) → Covers σ o.clauses → Covers σ cls)
    → ClausesInRange (variables o) cls
    → Reached o es (record s { model = m; clauses = cls; watch_lists = wl; conflict = k })
Reached-update o s es m cls wl k r g c w = record {
  grows = g;
  same_ctrs = r.same_ctrs;
  same_len = r.same_len;
  sized = r.sized;
  counted = r.counted;
  same_gen = r.same_gen;
  same_occ = r.same_occ;
  covers = c;
  clauses_in_range = w;
}

pub Reached-conflict :
    (o s : Solver) (es : List GeneralWatchListElem) (k : Option Conflict)
    → Reached o es s
    → Reached o es (record s { conflict = k })
Reached-conflict o s es k r =
    Reached-update o s es s.model s.clauses s.watch_lists k r r.grows r.covers r.clauses_in_range

abbrev pub HasConflict : Solver → Type 0
HasConflict s = (k : Conflict) × (s.conflict ≡ some k)

-- A visit that ends has no conflict, or its conflict refutes the trail.
abbrev pub IsVisited : Solver → List GeneralWatchListElem → Solver → Type 0
IsVisited o es t = Reached o es t × ((t.conflict ≡ none) ⊎ (HasConflict t × IsRefuted o))

-- Each solution that agrees with the trail of the start agrees with the one that is reached.
pub Reached-Agrees :
    (o s : Solver) (es : List GeneralWatchListElem) (σ : Assignment)
    → Reached o es s
    → Solves σ o
    → Agrees o.model σ
    → Agrees s.model σ
Reached-Agrees o s es σ r all a =
    Grows-Agrees (Entailed o) o.model s.model σ r.grows (λ l e. e σ all a) a
