-- ===== src/Incumbent.antt =====
-- The incumbent that the master keeps (src/cubePB.cpp): the best cost and the solution that it prints.
--
-- The globals `global_best_cost`, `global_has_best_cost`, `global_best_solution` and the flag
-- `feasible_seen` are one record. A cost is an int; INT_MAX and INT_MIN stand for "no information".
pub mod Best
use cube_conquer_pb.Base.{
  ℕ, ◌-◌, ◌^◌, Bool, true, false, not, ◌&&◌, ◌||◌, List, [], ◌∷◌, if◌then◌else◌, ltb, ◌==◌, length,
  ℤ, pos, ltb_ℤ,
}

-- solution[v] = 1 if variable v is true
abbrev pub Solution : Type 0
Solution = List ℕ

pub record Incumbent : Type 0 where
  pub best_cost : ℤ
  pub has_best_cost : Bool
  pub best_solution : Solution
  pub feasible_seen : Bool

-- What the master is told of an incumbent: a result 26, which brings a cost alone, a result 25, 10 or 15
-- (when optimizing), which brings its solution too, and the upper bound of a report of bounds.
pub data Report : Type 0 where
  cost_only : ℤ → Report
  with_solution : ℤ → Solution → Report
  upper_bound : ℤ → Report

abbrev pub is_better : Bool → ℤ → ℤ → Bool
is_better minimizing cost best = if minimizing then ltb_ℤ cost best else ltb_ℤ best cost

-- bestSolution
unfoldable pub best_solution_found : Bool → ℤ → Incumbent → Bool × Incumbent
best_solution_found minimizing cost m =
    if is_better minimizing cost m.best_cost
    then (true, record m { best_cost = cost })
    else (false, m)

abbrev pub no_upper_bound : ℤ
no_upper_bound = pos (2 ^ 31 - 1)

-- The cases of run_master, and the second half of handle_bounds_report.
unfoldable pub step : Bool → Report → Incumbent → Incumbent
unfolding best_solution_found
step minimizing (cost_only cost) m = record (best_solution_found minimizing cost m).1 {
  has_best_cost = true;
  feasible_seen = true;
}
step minimizing (with_solution cost sol) m =
    let found = best_solution_found minimizing cost m in
    record found.1 {
      has_best_cost = true;
      feasible_seen = true;
      best_solution = if found.0 || length m.best_solution == 0 then sol else m.best_solution;
    }
step minimizing (upper_bound cost) m =
    if not (ltb_ℤ cost no_upper_bound)
    then m
    else if m.has_best_cost
    then record (best_solution_found minimizing cost m).1 { feasible_seen = true }
    else record m { best_cost = cost; has_best_cost = true; feasible_seen = true }

-- The incumbent after a sequence of reports: the steps between the messages of the loop.
unfoldable pub run : Bool → List Report → Incumbent → Incumbent
unfolding step
run minimizing [] m = m
run minimizing (r ∷ rs) m = run minimizing rs (step minimizing r m)
