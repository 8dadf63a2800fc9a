-- ===== src/Workers/Codes.antt =====
-- The result codes of the workers, by status.
use cube_conquer_pb.Base.{
  ◌≡◌, refl, Bool, true, false, [], ◌∷◌, Any, here, there, inl, inr, ◌⊎◌, ◌<◌, arith,
}
use cube_conquer_pb.Master.{res_split}
use cube_conquer_pb.Workers.{
  Status, infeasible, no_solution_found, some_solution_found, optimum_found, is_solved,
  CubeSolveResult, result_code, result_cost,
}

pub code_known :
    (o : Bool) (s : Status)
    → Any (λ c. result_code o s ≡ c) (0 ∷ 10 ∷ 15 ∷ 20 ∷ 25 ∷ 26 ∷ res_split ∷ [])
unfolding result_code
code_known o infeasible = there (there (there (here refl)))
code_known o no_solution_found = here refl
code_known true some_solution_found = there (there (here refl))
code_known false some_solution_found = there (here refl)
code_known o optimum_found = there (here refl)

pub code_small : (o : Bool) (s : Status) → result_code o s < 25
unfolding result_code
code_small o infeasible = omega arith
code_small o no_solution_found = omega arith
code_small true some_solution_found = omega arith
code_small false some_solution_found = omega arith
code_small o optimum_found = omega arith

pub code_fifteen : (o : Bool) (s : Status) → result_code o s ≡ 15 → o ≡ true
unfolding result_code
code_fifteen true s e = refl
code_fifteen false infeasible e = absurd (omega arith)
code_fifteen false no_solution_found e = absurd (omega arith)
code_fifteen false some_solution_found e = absurd (omega arith)
code_fifteen false optimum_found e = absurd (omega arith)

pub code_twenty : (o : Bool) (s : Status) → result_code o s ≡ 20 → s ≡ infeasible
unfolding result_code
code_twenty o infeasible e = refl
code_twenty o no_solution_found e = absurd (omega arith)
code_twenty true some_solution_found e = absurd (omega arith)
code_twenty false some_solution_found e = absurd (omega arith)
code_twenty o optimum_found e = absurd (omega arith)

pub code_found :
    (o : Bool) (s : Status) → (result_code o s ≡ 10) ⊎ (result_code o s ≡ 15) → is_solved s ≡ true
unfolding result_code
code_found o infeasible (inl e) = absurd (omega arith)
code_found o infeasible (inr e) = absurd (omega arith)
code_found o no_solution_found (inl e) = absurd (omega arith)
code_found o no_solution_found (inr e) = absurd (omega arith)
code_found o some_solution_found c = refl
code_found o optimum_found c = refl

pub code_ten : (s : Status) → result_code true s ≡ 10 → s ≡ optimum_found
unfolding result_code
code_ten infeasible e = absurd (omega arith)
code_ten no_solution_found e = absurd (omega arith)
code_ten some_solution_found e = absurd (omega arith)
code_ten optimum_found e = refl

pub code_fifteen_status : (o : Bool) (s : Status) → result_code o s ≡ 15 → s ≡ some_solution_found
unfolding result_code
code_fifteen_status o infeasible e = absurd (omega arith)
code_fifteen_status o no_solution_found e = absurd (omega arith)
code_fifteen_status o some_solution_found e = refl
code_fifteen_status o optimum_found e = absurd (omega arith)

pub result_cost-best :
    (o : Bool) (res : CubeSolveResult)
    → o ≡ true
    → is_solved res.status ≡ true
    → result_cost o res ≡ res.best_cost
unfolding result_cost
result_cost-best o res q e = rw (q, e, result_cost) refl
