-- ===== src/IncumbentExamples.antt =====
-- The theorems on the incumbent at concrete reports.
use cube_conquer_pb.Base.{◌≡◌, refl, List, [], ◌∷◌, All, total, true, ℤ, pos, negsuc, ◌≤ℤ◌, arith}
use cube_conquer_pb.Incumbent.{
  Incumbent, Report, cost_only, with_solution, upper_bound, no_upper_bound, Solution, run,
}
use cube_conquer_pb.Incumbent.Best.{
  cost_of, Reported, initial, run-Reported, Matches, run-Matches, run-old_solution,
}

abbrev three_reports : List Report
three_reports = cost_only (pos 7) ∷ with_solution (pos 3) (1 ∷ 0 ∷ []) ∷ upper_bound (negsuc 4) ∷ []

run-Reported_example :
    All (λ r. (run true three_reports initial).best_cost ≤ℤ cost_of r) three_reports
    × Reported no_upper_bound three_reports (run true three_reports initial).best_cost
run-Reported_example = run-Reported three_reports (ground arith)

-- The number of true variables.
abbrev count_true : Solution → ℤ
count_true s = pos (total (λ v. v) s)

abbrev two_solutions : List Report
two_solutions = with_solution (pos 2) (1 ∷ 1 ∷ []) ∷ with_solution (pos 1) (1 ∷ 0 ∷ []) ∷ []

run-Matches_example : Matches count_true (run true two_solutions initial)
run-Matches_example =
    run-Matches count_true two_solutions
      ((refl, omega arith, omega arith), ((refl, omega arith, omega arith), tt))

abbrev found_two : Incumbent
found_two = record {
  best_cost = pos 2;
  has_best_cost = true;
  best_solution = 1 ∷ 1 ∷ [];
  feasible_seen = true;
}

run-old_solution_example :
    ((run true (cost_only (pos 1) ∷ with_solution (pos 1) (1 ∷ 0 ∷ []) ∷ []) found_two).best_cost
      ≡ pos 1)
    × ((run true
          (cost_only (pos 1) ∷ with_solution (pos 1) (1 ∷ 0 ∷ []) ∷ [])
          found_two).best_solution
        ≡ found_two.best_solution)
run-old_solution_example = run-old_solution found_two (pos 1) (1 ∷ 0 ∷ []) (omega arith) refl
