-- ===== src/Workers.antt =====
-- The workers (src/cubePB.cpp, src/ISolverBackend.h): what they answer with, and how the answers are read.
--
-- The channel is that of Messages: the messages of one worker and the master are sent and received in the
-- same order of tags. MPI_Finalize, timers and printing are left out.
pub mod Values
pub mod Protocol
pub mod Work
pub mod Solve
pub mod Adapters
pub mod Codes
pub mod Truth
use cube_conquer_pb.Base.{
  ℕ, zero, suc, Bool, true, false, not, ◌&&◌, ◌||◌, List, [], ◌∷◌, map, if◌then◌else◌, ltb, ◌==◌,
  length, Option, none, some, ◌>>=◌, ℤ, pos, negsuc,
}
use cube_conquer_pb.Constraint.{Lit, WConstraint}
use cube_conquer_pb.Messages.{
  Channel, lit_to_int, int_to_lit, send_constraints, recv_constraints, recv_int,
}
use cube_conquer_pb.Incumbent.{Solution}
use cube_conquer_pb.Master.{Message, Result, result_of, original_worker, res_split}

-- Solver::StatusSolver
pub data Status : Type 0 where
  infeasible : Status
  no_solution_found : Status
  some_solution_found : Status
  optimum_found : Status

pub record CubeSolveResult : Type 0 where
  pub status : Status
  pub has_solution : Bool
  pub best_cost : ℤ
  pub learned_constraints : List WConstraint
  pub solution : Solution

abbrev pub is_solved : Status → Bool
is_solved infeasible = false
is_solved no_solution_found = false
is_solved some_solution_found = true
is_solved optimum_found = true

-- msg[0] and msg[2]
unfoldable pub result_code : Bool → Status → ℕ
result_code optimizing infeasible = 20
result_code optimizing no_solution_found = 0
result_code optimizing some_solution_found = if optimizing then 15 else 10
result_code optimizing optimum_found = 10

unfoldable pub result_cost : Bool → CubeSolveResult → ℤ
result_cost optimizing res =
    if optimizing then (if is_solved res.status then res.best_cost else pos 0) else pos 0

-- The values of a message, which are not negative.
unfoldable pub read_values : List ℤ → Option Solution
read_values [] = some []
read_values (negsuc n ∷ xs) = none
read_values (pos n ∷ xs) = elim (read_values xs) [ none ↦ none | some vs ↦ some (n ∷ vs) ]

-- Whether the master receives a solution for a result.
abbrev pub brings_solution : Bool → ℕ → ℕ → Bool
brings_solution optimizing worker result =
    if worker == original_worker
    then result == 10 || (optimizing && result == 15)
    else result == 25 || (result == 10 || result == 15)

module _ (ch : Channel) where
  open ch use {Net, send, recv}

  -- if (len > 0)
  unfoldable pub send_data : List ℤ → Net → Net
  send_data [] net = net
  send_data (x ∷ xs) net = send (x ∷ xs) net

  unfoldable pub recv_data : ℕ → Net → Option (List ℤ × Net)
  recv_data zero net = some ([], net)
  recv_data (suc n) net = elim (recv net) [
    | none ↦ none
    | some (xs, net') ↦ if length xs == suc n then some (xs, net') else none
  ]

  -- A length and as many values.
  unfoldable pub send_values : List ℤ → Net → Net
  unfolding send_data
  send_values xs net = send_data xs (send (pos (length xs) ∷ []) net)

  unfoldable pub recv_values : Net → Option (List ℤ × Net)
  unfolding recv_data
  recv_values net = elim (recv_int ch net) [ some (pos n, net') ↦ recv_data n net' | _ ↦ none ]

  unfoldable pub send_solution : Solution → Net → Net
  unfolding send_values
  send_solution sol net = send_values (map pos sol) net

  unfoldable pub recv_solution : Net → Option (Solution × Net)
  unfolding recv_values read_values
  recv_solution net = do (xs, net') ← recv_values net; sol ← read_values xs; some (sol, net')

  unfoldable pub send_subcubes : List (List Lit) → Net → Net
  unfolding send_values
  send_subcubes [] net = net
  send_subcubes (c ∷ cs) net = send_subcubes cs (send_values (map lit_to_int c) net)

  unfoldable pub recv_subcubes : ℕ → Net → Option (List (List Lit) × Net)
  unfolding recv_values
  recv_subcubes zero net = some ([], net)
  recv_subcubes (suc n) net = do
    (xs, net') ← recv_values net
    (cs, net'') ← recv_subcubes n net'
    some (map int_to_lit xs ∷ cs, net'')

  unfoldable pub send_header : ℕ → ℕ → ℤ → Net → Net
  send_header code rank extra net = send (pos code ∷ pos rank ∷ extra ∷ []) net

  -- The end of run_cube_worker's round, when nothing was asked of the worker.
  unfoldable pub answer_cube : Bool → ℕ → CubeSolveResult → Net → Net
  unfolding result_code result_cost send_header send_solution
  answer_cube optimizing rank res net =
      let net1 =
        send_header (result_code optimizing res.status) rank (result_cost optimizing res) net in
      if is_solved res.status then send_solution res.solution net1 else net1

  -- The end of run_original_worker.
  unfoldable pub answer_original : Bool → ℕ → CubeSolveResult → Net → Net
  unfolding result_code result_cost send_header send_solution
  answer_original optimizing rank res net =
      let net1 =
        send_header (result_code optimizing res.status) rank (result_cost optimizing res) net in
      if res.has_solution then send_solution res.solution net1 else net1

  -- A solution that is known before the split: result 25.
  unfoldable pub answer_incumbent : ℕ → CubeSolveResult → Net → Net
  unfolding send_header send_solution
  answer_incumbent rank res net = send_solution res.solution (send_header 25 rank res.best_cost net)

  -- The split, from cube_sat_found and the subcubes that split_cube left.
  unfoldable pub answer_split : Bool → ℕ → CubeSolveResult → Bool → List (List Lit) → Net → Net
  unfolding send_header send_subcubes
  answer_split optimizing rank res cube_sat_found subcubes net =
      if cube_sat_found && not optimizing
      then send_header 10 rank (pos 0) net
      else send_subcubes subcubes (
          send_constraints ch res.learned_constraints
            (send_header res_split rank (pos (length subcubes)) net))

  -- What run_master receives for a TAG_RESULT message.
  unfoldable pub recv_result : Bool → Net → Option (Message × Net)
  unfolding recv_solution recv_subcubes
  recv_result optimizing net = elim (recv net) [
    | some (pos result ∷ pos worker ∷ extra ∷ [], net1) ↦
        let plain : Result = record {
          result = result;
          extra = extra;
          sol = [];
          new_constraints = [];
          subcubes = [];
        } in
        if brings_solution optimizing worker result
        then (do
          (sol, net2) ← recv_solution net1
          some (result_of worker (record plain { sol = sol }), net2))
        else if not (worker == original_worker) && result == res_split
        then elim extra [
          | pos n ↦ do
            (cs, net2) ← recv_constraints ch net1
            (subs, net3) ← recv_subcubes n net2
            some (result_of worker (record plain { new_constraints = cs; subcubes = subs }), net3)
          | negsuc n ↦ none
        ]
        else some (result_of worker plain, net1)
    | _ ↦ none
  ]

  -- One round of run_cube_worker once its cube is solved: `split` is what split_cube leaves for the
  -- incumbent that it is given, and `reply` the cost with which the master answers a result 25.
  unfoldable pub answer_round :
      Bool
      → ℕ
      → Bool
      → Bool
      → CubeSolveResult
      → Option ℤ
      → ℤ
      → (Option ℤ → Bool × List (List Lit))
      → Net
      → Net
  unfolding answer_cube answer_incumbent answer_split
  answer_round optimizing rank stop split_requested res best reply split net =
      if stop
      then net
      else if split_requested
      then (let told = optimizing && res.has_solution in
          let (found, subcubes) = split (if told then some reply else best) in
          answer_split optimizing rank res found subcubes
            (if told then answer_incumbent rank res net else net))
      else answer_cube optimizing rank res net
