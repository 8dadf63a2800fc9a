-- ===== src/Tasks.antt =====
-- The tasks of the master (src/cubePB.cpp): constraint sets, cube tasks and the queue of open cubes.
--
-- `constraint_key` is a text of the sorted terms and the constant. Separators keep the numbers apart, so
-- the text is equal exactly where the terms and the constant are; the key here is that pair.
pub mod Sets
pub mod Queue
use cube_conquer_pb.Base.{
  ℕ, ◌+◌, Bool, true, false, ◌&&◌, ◌||◌, List, [], ◌∷◌, ◌++◌, if◌then◌else◌, ltb, ◌==◌, Option,
  none, some, ℤ, pos, negsuc, ltb_ℤ, sort_by, get_elem?,
}
use cube_conquer_pb.Constraint.{Lit, plus, minus, lit_eq, Term, WConstraint}

-- The order of the ints that literals are.
abbrev pub lit_less : Lit → Lit → Bool
lit_less (minus v) (minus w) = ltb w v
lit_less (minus v) (plus w) = ltb 0 v || ltb 0 w
lit_less (plus v) (minus w) = false
lit_less (plus v) (plus w) = ltb v w

-- The order of pairs.
abbrev pub term_less : Term → Term → Bool
term_less (a, l) (b, m) = ltb a b || (a == b && lit_less l m)

abbrev pub Key : Type 0
Key = List Term × ℤ

abbrev pub int_eq : ℤ → ℤ → Bool
int_eq (pos a) (pos b) = a == b
int_eq (negsuc a) (negsuc b) = a == b
int_eq (pos a) (negsuc b) = false
int_eq (negsuc a) (pos b) = false

unfoldable pub terms_eq : List Term → List Term → Bool
terms_eq [] [] = true
terms_eq [] (u ∷ us) = false
terms_eq (t ∷ ts) [] = false
terms_eq ((a, l) ∷ ts) ((b, m) ∷ us) = (a == b && lit_eq l m) && terms_eq ts us

unfoldable pub key_eq : Key → Key → Bool
unfolding terms_eq
key_eq (ts, r) (us, q) = terms_eq ts us && int_eq r q

unfoldable pub constraint_key : WConstraint → Key
unfolding sort_by
constraint_key c = (sort_by term_less c.lhs, c.rhs)

pub record ConstraintSet : Type 0 where
  pub constraints : List WConstraint
  pub keys : List Key

abbrev pub empty_set : ConstraintSet
empty_set = record { constraints = []; keys = [] }

unfoldable pub has_key : Key → List Key → Bool
unfolding key_eq
has_key k [] = false
has_key k (j ∷ js) = key_eq k j || has_key k js

-- if (keys.insert(constraint_key(c)).second) constraints.push_back(c)
unfoldable pub insert_one : WConstraint → ConstraintSet → ConstraintSet
unfolding has_key constraint_key
insert_one c s =
    if has_key (constraint_key c) s.keys
    then s
    else record { constraints = s.constraints ++ c ∷ []; keys = s.keys ++ constraint_key c ∷ [] }

unfoldable pub insert_all : List WConstraint → ConstraintSet → ConstraintSet
unfolding insert_one
insert_all [] s = s
insert_all (c ∷ cs) s = insert_all cs (insert_one c s)

pub record CubeTask : Type 0 where
  pub lits : List Lit
  pub split_depth : ℕ
  pub learned_constraints : ConstraintSet
  pub lower_bound : ℤ

-- INT_MIN: no bound
abbrev pub no_lower_bound : ℤ
no_lower_bound = negsuc 2147483647

-- cube_cmp: the lower bound of the cube at an index
unfoldable pub bound_at : List CubeTask → ℕ → ℤ
bound_at cubes i = elim (get_elem? cubes i) [ none ↦ no_lower_bound | some t ↦ t.lower_bound ]

-- cube_queue.top() and pop(): an index of greatest lower bound, and the others. The C++ library leaves
-- the order of equal bounds open.
unfoldable pub pop_queue : List CubeTask → List ℕ → Option (ℕ × List ℕ)
unfolding bound_at
pop_queue cubes [] = none
pop_queue cubes (i ∷ is) = elim (pop_queue cubes is) [
  | none ↦ some (i, [])
  | some (j, rest) ↦
      if ltb_ℤ (bound_at cubes i) (bound_at cubes j) then some (j, i ∷ rest) else some (i, is)
]
