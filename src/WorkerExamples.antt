-- ===== src/WorkerExamples.antt =====
-- The theorems on the workers, over a channel that is the list of its messages.
use cube_conquer_pb.Base.{
  ◌≡◌, refl, subst, Bool, true, false, not, ◌&&◌, List, [], ◌∷◌, Option, none, some, ℤ, pos, ltb_ℤ,
  ◌≤ℤ◌, ◌<ℤ◌, ◌==◌, if◌then◌else◌, arith, Bool-cases, inl, inr,
}
use cube_conquer_pb.Constraint.{Lit, plus, minus}
use cube_conquer_pb.Constraint.Semantics.{Assignment, holds}
use cube_conquer_pb.Cubes.Laws.{AllHold}
use cube_conquer_pb.Tasks.{CubeTask, no_lower_bound, insert_all, empty_set}
use cube_conquer_pb.Master.{Work}
use cube_conquer_pb.MessageExamples.{queue, queue_delivers, two_constraints}
use cube_conquer_pb.Workers.{
  infeasible, some_solution_found, optimum_found, CubeSolveResult, answer_split, recv_result,
}
use cube_conquer_pb.Workers.Protocol.{IsRead, answer_split-IsRead, answer_split-model}
use cube_conquer_pb.Workers.Work.{send_work, recv_work, recv_work-send_work}
use cube_conquer_pb.MasterExamples.{HasFirst, second_costs}
use cube_conquer_pb.Workers.Solve.{SolverBackend, Laws}

abbrev solved : CubeSolveResult
solved = record {
  status = some_solution_found;
  has_solution = true;
  best_cost = pos 4;
  learned_constraints = two_constraints;
  solution = 0 ∷ 1 ∷ 1 ∷ [];
}

abbrev two_subcubes : List (List Lit)
two_subcubes = (plus 1 ∷ minus 2 ∷ []) ∷ (minus 1 ∷ []) ∷ []

answer_split-IsRead_example :
    IsRead queue queue_delivers true 2
      (record {
        result = 30;
        extra = pos 2;
        sol = [];
        new_constraints = two_constraints;
        subcubes = two_subcubes;
      })
      (answer_split queue true 2 solved false two_subcubes [])
answer_split-IsRead_example =
    answer_split-IsRead queue queue_delivers true 2 solved false two_subcubes [] refl refl
      (ground arith) (ground arith) refl

answer_split-model_example :
    recv_result queue false (answer_split queue false 2 solved true two_subcubes []) ≡ none
answer_split-model_example =
    answer_split-model queue queue_delivers 2 solved two_subcubes [] (λ n e. silent n e) refl
  where
    silent : (n : List (List ℤ)) → n ≡ [] → queue.recv n ≡ none
    silent [] e = refl
    silent (m ∷ ms) e = cc

abbrev some_work : Work
some_work = record {
  lits = plus 1 ∷ minus 3 ∷ [];
  split_depth = 2;
  constraints = two_constraints;
  best = some (pos 9);
  lower_bound = pos 1;
}

recv_work-send_work_example :
    (net' : List (List ℤ)) × (recv_work queue true (send_work queue true some_work [])
      ≡ some (
        record some_work { constraints = (insert_all two_constraints empty_set).constraints },
        net',
      ))
    × (net' ≡ [])
recv_work-send_work_example =
    recv_work-send_work queue queue_delivers true some_work [] refl (ground arith) (ground arith)

-- A solver of two variables, x1 and x2, that keeps the values that are allowed. x2 costs 1.
abbrev lit_allows : Lit → Bool → Bool → Bool
lit_allows (plus v) a b = if v == 1 then a else if v == 2 then b else true
lit_allows (minus v) a b = if v == 1 then not a else if v == 2 then not b else true

abbrev all_allow : List Lit → Bool → Bool → Bool
all_allow [] a b = true
all_allow (l ∷ ls) a b = lit_allows l a b && all_allow ls a b

abbrev cost_of_second : Bool → ℤ
cost_of_second b = pos (if b then 1 else 0)

-- The values of least cost.
abbrev first_allowed : (Bool → Bool → Bool) → Option (Bool × Bool)
first_allowed s =
    if s true false
    then some (true, false)
    else if s false false
    then some (false, false)
    else if s true true
    then some (true, true)
    else if s false true
    then some (false, true)
    else none

abbrev table_result : Option (Bool × Bool) → CubeSolveResult
table_result none = record {
  status = infeasible;
  has_solution = false;
  best_cost = pos 0;
  learned_constraints = [];
  solution = [];
}
table_result (some (a, b)) = record {
  status = optimum_found;
  has_solution = true;
  best_cost = cost_of_second b;
  learned_constraints = [];
  solution = 0 ∷ (if a then 1 else 0) ∷ (if b then 1 else 0) ∷ [];
}

abbrev table_solver : SolverBackend
table_solver = record {
  Solver = Bool → Bool → Bool;
  add_base_problem = λ s a b. s a b && a;
  add_learned_constraints = λ cs s. s;
  add_cube = λ ls s a b. s a b && all_allow ls a b;
  add_objective = λ s. s;
  add_objective_bound = λ c s a b. s a b && ltb_ℤ (cost_of_second b) c;
  add_objective_lower_bound = λ c s. s;
  solve = λ optimizing s. (table_result (first_allowed s), s);
  good_clauses = λ s. [];
  get_solution = λ s. (table_result (first_allowed s)).solution;
}

nothing_allowed :
    (s : Bool → Bool → Bool) (a b : Bool)
    → (table_result (first_allowed s)).status ≡ infeasible
    → s a b ≡ true
    → ⊥
nothing_allowed s true false e h = ground (arith, e, h)
nothing_allowed s false false e h = ground (arith, e, h)
nothing_allowed s true true e h = ground (arith, e, h)
nothing_allowed s false true e h = ground (arith, e, h)

least_cost :
    (s : Bool → Bool → Bool) (a b : Bool)
    → (table_result (first_allowed s)).status ≡ optimum_found
    → s a b ≡ true
    → (table_result (first_allowed s)).best_cost ≤ℤ cost_of_second b
least_cost s true false e h = ground (arith, e, h)
least_cost s false false e h = ground (arith, e, h)
least_cost s true true e h = ground (arith, e, h)
least_cost s false true e h = ground (arith, e, h)

holds-lit_allows : (σ : Assignment) (l : Lit) → holds σ l ≡ true → lit_allows l (σ 1) (σ 2) ≡ true
holds-lit_allows σ (plus v) h = elim (Bool-cases (v == 1)) [
  | inl e ↦ (let one : v ≡ 1 = ground (arith, e) in rw e (subst (λ w. σ w ≡ true) one h))
  | inr e ↦ elim (Bool-cases (v == 2)) [
    | inl f ↦ (let two : v ≡ 2 = ground (arith, f) in rw (e, f) (subst (λ w. σ w ≡ true) two h))
    | inr f ↦ rw (e, f) refl
  ]
]
holds-lit_allows σ (minus v) h = elim (Bool-cases (v == 1)) [
  | inl e ↦ (let one : v ≡ 1 = ground (arith, e) in rw e (subst (λ w. not (σ w) ≡ true) one h))
  | inr e ↦ elim (Bool-cases (v == 2)) [
    | inl f ↦
        (let two : v ≡ 2 = ground (arith, f) in rw (e, f) (subst (λ w. not (σ w) ≡ true) two h))
    | inr f ↦ rw (e, f) refl
  ]
]

AllHold-all_allow :
    (σ : Assignment) (ls : List Lit) → AllHold σ ls → all_allow ls (σ 1) (σ 2) ≡ true
AllHold-all_allow σ [] h = refl
AllHold-all_allow σ (l ∷ ls) h = rw (holds-lit_allows σ l h.0) (AllHold-all_allow σ ls h.1)

both : (a b : Bool) → a ≡ true → b ≡ true → (a && b) ≡ true
both a b p q = rw (p, q) refl

is_less : (x c : ℤ) → x <ℤ c → ltb_ℤ x c ≡ true
is_less x c h = ground (arith, h)

abbrev table_solver-Laws : Laws table_solver HasFirst second_costs
table_solver-Laws = record {
  Allows = λ s σ. s (σ 1) (σ 2) ≡ true;
  base = λ s σ a p. both (s (σ 1) (σ 2)) (σ 1) a p;
  learned = λ cs s σ a h. a;
  cube = λ ls s σ a h. both (s (σ 1) (σ 2)) (all_allow ls (σ 1) (σ 2)) a (AllHold-all_allow σ ls h);
  objective = λ s σ a. a;
  bound =
      λ c s σ a l. both (s (σ 1) (σ 2)) (ltb_ℤ (second_costs σ) c) a (is_less (second_costs σ) c l);
  lower = λ c s σ a l. a;
  refutes = λ b s σ e a. nothing_allowed s (σ 1) (σ 2) e a;
  optimal = λ s σ e a. least_cost s (σ 1) (σ 2) e a;
}

two_values : Bool → Bool → Assignment
two_values a b v = if v == 1 then a else if v == 2 then b else false

abbrev first_only : Assignment
first_only v = v == 1

-- The first cube that the master sends.
abbrev first_task : CubeTask
first_task = record {
  lits = minus 2 ∷ [];
  split_depth = 0;
  learned_constraints = empty_set;
  lower_bound = no_lower_bound;
}
