-- ===== src/Solver.antt =====
-- The constraint databases of the solver and the structures of propagation (src/Solver.h,
-- src/DBAddition.cpp, src/OccurListVector.h).
--
-- A pair of vectors for the positive and the negative literals is one function of the literal. An index
-- outside a vector, which the source never uses, reads an empty constraint or clause. Statistics, activities
-- and the strategy's reports are left out; a long long counter is an integer without a bound.
pub mod Propagate
pub mod ClauseWatches
pub mod Loop
pub mod Counted
pub mod Grows
pub mod Invariant
pub mod Visits
pub mod Restored
pub mod Forced
pub mod Rewatched
pub mod Watched
pub mod Round
pub mod Sound
pub mod Propagated
pub mod Backjump
pub mod Occurrences
pub mod Added
pub mod AddedClause
pub mod Watching
pub mod Rounds
pub mod Measure
pub mod Finish
pub mod Settled
pub mod Initial
use cube_conquer_pb.Base.{
  ℕ, ◌+◌, Bool, true, false, not, ◌||◌, List, [], ◌∷◌, ◌++◌, if◌then◌else◌, ℤ, pos, ◌+ℤ◌, ◌-ℤ◌,
  Option, none, some, length, get_elem?, ◌-◌,
}
use cube_conquer_pb.Constraint.{Lit, Term, WConstraint, lit_eq}
use cube_conquer_pb.Trail.{Model}
use cube_conquer_pb.ConstraintValue.{is_counted, add_where}

-- GeneralWatchListElem: the kinds that the solver stores.
pub data GeneralWatchListElem : Type 0 where
  binclause : Lit → GeneralWatchListElem
  clause_elem : Lit → ℕ → GeneralWatchListElem
  counterpb : ℕ → ℕ → GeneralWatchListElem

pub record WatchListElem : Type 0 where
  pub clause_id : ℕ
  pub cached_lit : Lit

pub record OccurListElem : Type 0 where
  pub ctr_id : ℕ
  pub coefficient : ℕ

-- PBConstraint: the constraint and the two numbers of its header that propagation writes.
pub record PbConstraint : Type 0 where
  pub ctr : WConstraint
  pub num_backjump : ℕ
  pub max_w_idx : ℕ

pub record Clause : Type 0 where
  pub lits : List Lit
  pub watch_idx : ℕ

-- typeConflict with clauseConflictNum, binClauseConflict or constraintConflictNum.
pub data Conflict : Type 0 where
  conflict_clause : ℕ → Conflict
  conflict_bin_clause : Lit → Lit → Conflict
  conflict_pb : ℕ → Conflict

pub record Solver : Type 0 where
  pub model : Model
  pub constraints_pb : List PbConstraint
  pub sum_of_watches : List ℤ
  pub clauses : List Clause
  pub gen_watch_list : Lit → List GeneralWatchListElem
  pub watch_lists : Lit → List WatchListElem
  pub bin_clauses : Lit → List Lit
  pub occur_lists : Lit → List OccurListElem
  pub conflict : Option Conflict
  pub num_of_backjump : ℕ

abbrev pub no_constraint : PbConstraint
no_constraint = record { ctr = record { lhs = []; rhs = pos 0 }; num_backjump = 0; max_w_idx = 0 }

abbrev pub no_clause : Clause
no_clause = record { lits = []; watch_idx = 2 }

-- getIthCoefficient(0). The source reads past the array of a constraint without terms, whose first
-- coefficient is 0 here: what the counters of such a constraint hold is not modelled.
abbrev pub first_coefficient : List Term → ℕ
first_coefficient [] = 0
first_coefficient (t ∷ ts) = t.0

-- lists[l].push_back(x)
abbrev pub push_back_at {ℓ} : {A : Type ℓ} → Lit → A → (Lit → List A) → Lit → List A
push_back_at l x lists k = if lit_eq k l then lists k ++ x ∷ [] else lists k

unfoldable pub add_binary_clause : Lit → Lit → Solver → Solver
add_binary_clause lit1 lit2 s = record s {
  bin_clauses = push_back_at lit2 lit1 (push_back_at lit1 lit2 s.bin_clauses);
  gen_watch_list =
      push_back_at lit2 (binclause lit1) (push_back_at lit1 (binclause lit2) s.gen_watch_list);
}

-- A clause has a first, a second and a last literal; `none` where it has not.
unfoldable pub add_clause : Clause → Solver → Option Solver
add_clause c s = elim (get_elem? c.lits 0) [
  | none ↦ none
  | some first ↦ elim (get_elem? c.lits 1) [
    | none ↦ none
    | some second ↦ elim (get_elem? c.lits (length c.lits - 1)) [
      | none ↦ none
      | some cached ↦
          let id = length s.clauses in
          let e : WatchListElem = record { clause_id = id; cached_lit = cached } in
          some (record s {
            clauses = s.clauses ++ c ∷ [];
            watch_lists = push_back_at second e (push_back_at first e s.watch_lists);
            gen_watch_list =
                push_back_at second (clause_elem cached id)
                  (push_back_at first (clause_elem cached id) s.gen_watch_list);
          })
    ]
  ]
]

-- The loop over the terms: one element in the occurrence list and one in the watch list of each literal.
unfoldable pub add_occurrences : ℕ → List Term → Solver → Solver
add_occurrences id [] s = s
add_occurrences id (t ∷ ts) s = add_occurrences id ts (record s {
  occur_lists = push_back_at t.1 (record { ctr_id = id; coefficient = t.0 }) s.occur_lists;
  gen_watch_list = push_back_at t.1 (counterpb t.0 id) s.gen_watch_list;
})

unfoldable pub add_pb_constraint_counter : PbConstraint → Solver → Solver
unfolding add_occurrences add_where
add_pb_constraint_counter c s =
    let id = length s.constraints_pb in
    let start = pos 0 -ℤ c.ctr.rhs -ℤ pos (first_coefficient c.ctr.lhs) in
    let listed = add_occurrences id c.ctr.lhs s in
    record listed {
      sum_of_watches = s.sum_of_watches ++ add_where (is_counted s.model) c.ctr.lhs start ∷ [];
      constraints_pb = s.constraints_pb ++ c ∷ [];
    }
