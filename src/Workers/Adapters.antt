-- ===== src/Workers/Adapters.antt =====
-- What the adapters make of the answer of their solver (src/NativeBackend.cpp, src/RoundingSatBackend.cpp,
-- src/CadicalBackend.cpp). The solution is fetched later, by solve_cube.
use cube_conquer_pb.Base.{
  ℕ, ◌-◌, ◌^◌, ◌%◌, ◌≡◌, refl, Bool, true, false, [], if◌then◌else◌, ◌==◌, ltb, Option, none, some,
  ℤ, pos, negsuc, ◌≤ℤ◌, arith,
}
use cube_conquer_pb.Workers.{
  Status, infeasible, no_solution_found, some_solution_found, optimum_found, CubeSolveResult,
}

abbrev pub outcome : Status → Bool → ℤ → CubeSolveResult
outcome st has cost = record {
  status = st;
  has_solution = has;
  best_cost = cost;
  learned_constraints = [];
  solution = [];
}

-- NativeBackend::solve, from currentStatus and cost_best_solution
unfoldable pub native_solve : Status → ℤ → CubeSolveResult
native_solve some_solution_found cost = outcome some_solution_found true cost
native_solve optimum_found cost = outcome optimum_found true cost
native_solve infeasible cost = outcome infeasible false (pos 0)
native_solve no_solution_found cost = outcome no_solution_found false (pos 0)

-- ipasirpb_return
pub data Answer : Type 0 where
  answer_opt : Answer
  answer_sat : Answer
  answer_unsat : Answer
  answer_other : Answer

-- The int of 32 bits with a given pattern.
abbrev signed_int : ℕ → ℤ
signed_int w = if ltb w (2 ^ 31) then pos w else negsuc (2 ^ 32 - w - 1)

-- (int) of an int64_t: its low 32 bits.
unfoldable pub narrow_int : ℤ → ℤ
narrow_int (pos n) = signed_int (n % 2 ^ 32)
narrow_int (negsuc n) = signed_int (2 ^ 32 - 1 - n % 2 ^ 32)

-- RoundingSatBackend::solve, from the answer and primalBound, an int64_t
unfoldable pub roundingsat_solve : Bool → Answer → ℤ → CubeSolveResult
unfolding narrow_int
roundingsat_solve true answer_opt primal = outcome optimum_found true (narrow_int primal)
roundingsat_solve true answer_sat primal = outcome some_solution_found true (narrow_int primal)
roundingsat_solve true answer_unsat primal = outcome infeasible false (pos 0)
roundingsat_solve true answer_other primal = outcome no_solution_found false (pos 0)
roundingsat_solve false answer_opt primal = outcome no_solution_found false (pos 0)
roundingsat_solve false answer_sat primal = outcome some_solution_found true (pos 0)
roundingsat_solve false answer_unsat primal = outcome infeasible false (pos 0)
roundingsat_solve false answer_other primal = outcome no_solution_found false (pos 0)

-- CadicalBackend::solve, from root_conflict and the answer; with an objective it throws.
unfoldable pub cadical_solve : Bool → Bool → ℕ → Option CubeSolveResult
cadical_solve optimizing root_conflict ans =
    if optimizing
    then none
    else some (
        if root_conflict
        then outcome infeasible false (pos 0)
        else if ans == 10
        then outcome some_solution_found true (pos 0)
        else if ans == 20
        then outcome infeasible false (pos 0)
        else outcome no_solution_found false (pos 0))

-- A bound that is an int is reported as it is, whatever the answer that reports it.
narrow_int-fits : (z : ℤ) → negsuc (2 ^ 31 - 1) ≤ℤ z → z ≤ℤ pos (2 ^ 31 - 1) → narrow_int z ≡ z
unfolding narrow_int
narrow_int-fits (pos n) low high = ground arith
narrow_int-fits (negsuc n) low high = ground arith

-- One past INT_MAX is reported as INT_MIN.
narrow_int-over : narrow_int (pos (2 ^ 31)) ≡ negsuc (2 ^ 31 - 1)
unfolding narrow_int
narrow_int-over = refl
