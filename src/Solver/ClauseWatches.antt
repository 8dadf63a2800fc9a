-- ===== src/Solver/ClauseWatches.antt =====
-- The clauses that watch a literal that has just become false (`visitClauseWatchList` of
-- src/Propagate.cpp).
use cube_conquer_pb.Base.{
  ℕ, suc, Bool, true, false, List, [], ◌∷◌, ◌++◌, if◌then◌else◌, Option, none, some, get_or,
  get_elem?, set, drop, take,
}
use cube_conquer_pb.Constraint.{Lit, lit_eq}
use cube_conquer_pb.Reasons.{clause}
use cube_conquer_pb.Trail.{Model, is_true_lit, is_false_lit, is_undef_lit, set_true_due_to_reason}
use cube_conquer_pb.Solver.{WatchListElem, Clause, conflict_clause, Solver, no_clause, push_back_at}

-- l0 ^ l1 ^ lit, where `lit` is one of the two; on another literal the source reads a word without
-- meaning, here `none`.
unfoldable pub other_lit : Lit → Lit → Lit → Option Lit
other_lit l0 l1 l = if lit_eq l0 l then some l1 else if lit_eq l1 l then some l0 else none

-- while (k != end && (isFalse = model.isFalseLit(r = *k))) k++;
unfoldable pub find_non_false : List Lit → Model → ℕ → Option (ℕ × Lit)
find_non_false [] m k = none
find_non_false (r ∷ rs) m k =
    let rest = find_non_false rs m (suc k) in if is_false_lit r m then rest else some (k, r)

-- From the saved index to the end, then from the third literal to the saved index.
unfoldable pub find_replacement : Clause → Model → Option (ℕ × Lit)
unfolding find_non_false
find_replacement cl m = elim (find_non_false (drop cl.watch_idx cl.lits) m cl.watch_idx) [
  | some found ↦ some found
  | none ↦ find_non_false (drop 2 (take cl.watch_idx cl.lits)) m 2
]

-- cl.setWatchIdx(k - cl.begin()), then the three writes to the literals.
abbrev pub rewatch : Clause → ℕ → Lit → Lit → Lit → Clause
rewatch cl k other r l = record { lits = set (set (set cl.lits 0 other) 1 r) k l; watch_idx = k }

abbrev pub set_watch_idx : ℕ → Clause → ℕ → Solver → Solver
set_watch_idx id cl k s = record s { clauses = set s.clauses id (record cl { watch_idx = k }) }

-- What one element of the list does: the element that is kept, if any, the state, and whether to go on.
pub record Visit : Type 0 where
  pub kept : List WatchListElem
  pub after : Solver
  pub goes_on : Bool

-- No literal of the rest replaces `l`: the other watch is forced, or all literals are false.
unfoldable pub force_other : WatchListElem → Lit → Solver → Visit
force_other e other s =
    if is_undef_lit other s.model
    then record {
      kept = e ∷ [];
      after = record s { model = set_true_due_to_reason other (clause e.clause_id) s.model };
      goes_on = true;
    }
    else record {
      kept = e ∷ [];
      after = record s { conflict = some (conflict_clause e.clause_id) };
      goes_on = false;
    }

unfoldable pub watch_another : Lit → WatchListElem → Clause → Lit → ℕ → Lit → Solver → Visit
watch_another l e cl other k r s =
    if is_true_lit r s.model
    then record {
      kept = record e { cached_lit = r } ∷ [];
      after = set_watch_idx e.clause_id cl k s;
      goes_on = true;
    }
    else record {
      kept = [];
      after = record s {
        clauses = set s.clauses e.clause_id (rewatch cl k other r l);
        watch_lists =
            push_back_at r (record { clause_id = e.clause_id; cached_lit = l }) s.watch_lists;
      };
      goes_on = true;
    }

unfoldable pub visit_clause : Lit → WatchListElem → Clause → Lit → Solver → Visit
unfolding find_replacement force_other watch_another
visit_clause l e cl other s =
    if is_true_lit other s.model
    then record { kept = record e { cached_lit = other } ∷ []; after = s; goes_on = true }
    else elim (find_replacement cl s.model) [
      | some (k, r) ↦ watch_another l e cl other k r s
      | none ↦ force_other e other (set_watch_idx e.clause_id cl cl.watch_idx s)
    ]

-- The body of the loop; an element that does not watch `l` is `none`.
unfoldable pub visit_watch : Lit → WatchListElem → Solver → Option Visit
unfolding other_lit visit_clause
visit_watch l e s =
    let cl = get_or s.clauses e.clause_id no_clause in
    if is_true_lit e.cached_lit s.model
    then some (record { kept = e ∷ []; after = s; goes_on = true })
    else elim (get_elem? cl.lits 0) [
      | none ↦ none
      | some l0 ↦ elim (get_elem? cl.lits 1) [
        | none ↦ none
        | some l1 ↦ elim (other_lit l0 l1 l) [
          | none ↦ none
          | some other ↦ some (visit_clause l e cl other s)
        ]
      ]
    ]

-- The loop, with the elements kept so far; a conflict keeps the rest.
unfoldable pub visit_watches :
    Lit → List WatchListElem → List WatchListElem → Solver → Option (List WatchListElem × Solver)
unfolding visit_watch
visit_watches l [] kept s = some (kept, s)
visit_watches l (e ∷ es) kept s = elim (visit_watch l e s) [
  | none ↦ none
  | some v ↦ elim v.goes_on [
    | true ↦ visit_watches l es (kept ++ v.kept) v.after
    | false ↦ some (kept ++ v.kept ++ es, v.after)
  ]
]

-- wl[lit] = x
abbrev pub put_at {ℓ} : {A : Type ℓ} → Lit → A → (Lit → A) → Lit → A
put_at l x f k = if lit_eq k l then x else f k

unfoldable pub visit_clause_watch_list : Lit → Solver → Option Solver
unfolding visit_watches
visit_clause_watch_list l s = elim (visit_watches l (s.watch_lists l) [] s) [
  | none ↦ none
  | some (kept, t) ↦ some (record t { watch_lists = put_at l kept t.watch_lists })
]
