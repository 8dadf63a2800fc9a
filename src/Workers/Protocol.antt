-- ===== src/Workers/Protocol.antt =====
-- The master reads what a worker answered.
use cube_conquer_pb.Base.{
  ℕ, ◌≡◌, refl, sym, ◌∙◌, ap, Bool, true, false, not, ◌&&◌, List, [], ◌∷◌, ◌++◌, map, length, All,
  none, some, ℤ, pos, arith, ◌==◌, if◌then◌else◌,
}
use cube_conquer_pb.Constraint.{Lit, WConstraint}
use cube_conquer_pb.Messages.{Channel, send_constraints, recv_int}
use cube_conquer_pb.Messages.RoundTrip.{
  Delivers, Numbered, append_nil, constraint_messages, send_constraints-pending,
  recv_constraints-next,
}
use cube_conquer_pb.Incumbent.{Solution}
use cube_conquer_pb.Master.{Result, result_of, original_worker, res_split}
use cube_conquer_pb.Workers.{
  Status, infeasible, no_solution_found, some_solution_found, optimum_found, CubeSolveResult,
  is_solved, result_code, result_cost, send_solution, recv_solution, send_subcubes, send_header,
  answer_cube, answer_original, answer_incumbent, answer_split, recv_values, brings_solution,
  recv_result,
}
use cube_conquer_pb.Workers.Values.{
  AreNumbered, value_messages, subcube_messages, send_values-pending, recv_solution-next,
  send_subcubes-pending, recv_subcubes-next,
}

-- What the master makes of a solved cube, or of the original problem.
abbrev pub result_from : Bool → CubeSolveResult → Result
result_from optimizing res = record {
  result = result_code optimizing res.status;
  extra = result_cost optimizing res;
  sol = if is_solved res.status then res.solution else [];
  new_constraints = [];
  subcubes = [];
}

code_brings :
    (optimizing : Bool) (s : Status) (rank : ℕ)
    → brings_solution optimizing rank (result_code optimizing s) ≡ is_solved s
unfolding result_code
code_brings optimizing infeasible rank = ground arith
code_brings optimizing no_solution_found rank = ground arith
code_brings true some_solution_found rank = ground arith
code_brings false some_solution_found rank = ground arith
code_brings optimizing optimum_found rank = ground arith

code_splits : (optimizing : Bool) (s : Status) → (result_code optimizing s == res_split) ≡ false
unfolding result_code
code_splits optimizing infeasible = refl
code_splits optimizing no_solution_found = refl
code_splits true some_solution_found = refl
code_splits false some_solution_found = refl
code_splits optimizing optimum_found = refl

module _ (ch : Channel) (del : Delivers ch) where
  open ch use {Net, send, recv}
  open del use {pending, pending-send, recv-next}

  -- The master reads this result of a worker, and nothing is left.
  abbrev pub IsRead : Bool → ℕ → Result → Net → Type 0
  IsRead optimizing rank r net =
      (net' : Net) × (recv_result ch optimizing net ≡ some (result_of rank r, net'))
      × (pending net' ≡ [])

  with_solution-IsRead :
      (optimizing : Bool) (rank code : ℕ) (extra : ℤ) (sol : Solution) (net : Net)
      → brings_solution optimizing rank code ≡ true
      → pending net ≡ (pos code ∷ pos rank ∷ extra ∷ []) ∷ value_messages (map pos sol)
      → IsRead optimizing rank
          (record { result = code; extra = extra; sol = sol; new_constraints = []; subcubes = [] })
          net
  unfolding recv_result
  with_solution-IsRead optimizing rank code extra sol net b e =
      let (net1, q, e1) =
        recv-next (pos code ∷ pos rank ∷ extra ∷ []) (value_messages (map pos sol)) net e in
      let (net2, q2, e2) =
        recv_solution-next ch del sol [] net1
          (e1 ∙ sym (append_nil (value_messages (map pos sol)))) in
      (net2, rw (q, recv_result) (rw b (rw q2 refl)), e2)

  alone-IsRead :
      (optimizing : Bool) (rank code : ℕ) (extra : ℤ) (net : Net)
      → brings_solution optimizing rank code ≡ false
      → (code == res_split) ≡ false
      → pending net ≡ (pos code ∷ pos rank ∷ extra ∷ []) ∷ []
      → IsRead optimizing rank
          (record { result = code; extra = extra; sol = []; new_constraints = []; subcubes = [] })
          net
  unfolding recv_result
  alone-IsRead optimizing rank code extra net b s e =
      let (net1, q, e1) = recv-next (pos code ∷ pos rank ∷ extra ∷ []) [] net e in
      let plain : (not (rank == original_worker) && (code == res_split)) ≡ false =
        ground (arith, s) in
      (net1, rw (q, recv_result) (rw (b, plain) refl), e1)

  sent_header-pending :
      (code rank : ℕ) (extra : ℤ) (net : Net)
      → pending net ≡ []
      → pending (send_header ch code rank extra net) ≡ (pos code ∷ pos rank ∷ extra ∷ []) ∷ []
  unfolding send_header
  sent_header-pending code rank extra net e =
      pending-send (pos code ∷ pos rank ∷ extra ∷ []) net
      ∙ ap (λ ms. ms ++ (pos code ∷ pos rank ∷ extra ∷ []) ∷ []) e

  sent_solution-pending :
      (code rank : ℕ) (extra : ℤ) (sol : Solution) (net : Net)
      → pending net ≡ []
      → pending (send_solution ch sol (send_header ch code rank extra net))
        ≡ (pos code ∷ pos rank ∷ extra ∷ []) ∷ value_messages (map pos sol)
  unfolding send_solution
  sent_solution-pending code rank extra sol net e =
      send_values-pending ch del (map pos sol) (send_header ch code rank extra net)
      ∙ ap (λ ms. ms ++ value_messages (map pos sol)) (sent_header-pending code rank extra net e)

  answered-IsRead :
      (optimizing : Bool) (rank code : ℕ) (extra : ℤ) (sol : Solution) (b : Bool) (net : Net)
      → brings_solution optimizing rank code ≡ b
      → (code == res_split) ≡ false
      → pending net ≡ []
      → IsRead optimizing rank
          (record {
            result = code;
            extra = extra;
            sol = if b then sol else [];
            new_constraints = [];
            subcubes = [];
          })
          (if b
            then send_solution ch sol (send_header ch code rank extra net)
            else send_header ch code rank extra net)
  answered-IsRead optimizing rank code extra sol true net b s e =
      with_solution-IsRead optimizing rank code extra sol
        (send_solution ch sol (send_header ch code rank extra net)) b
        (sent_solution-pending code rank extra sol net e)
  answered-IsRead optimizing rank code extra sol false net b s e =
      alone-IsRead optimizing rank code extra (send_header ch code rank extra net) b s
        (sent_header-pending code rank extra net e)

  -- Over a channel that delivers in order and is empty, the master reads the result of the solver's status
  -- that a cube worker answers with, its cost, and its solution when the solver has one.
  pub answer_cube-IsRead :
      (optimizing : Bool) (rank : ℕ) (res : CubeSolveResult) (net : Net)
      → pending net ≡ []
      → IsRead optimizing rank (result_from optimizing res) (answer_cube ch optimizing rank res net)
  unfolding answer_cube
  answer_cube-IsRead optimizing rank res net e =
      answered-IsRead optimizing rank (result_code optimizing res.status)
        (result_cost optimizing res) res.solution (is_solved res.status) net
        (code_brings optimizing res.status rank) (code_splits optimizing res.status) e

  -- Over a channel that delivers in order and is empty, the master reads the result of the solver status
  -- that the original worker answers with, its cost, and its solution when the solver has one, when the
  -- solver has a solution exactly for the statuses that promise one.
  pub answer_original-IsRead :
      (optimizing : Bool) (rank : ℕ) (res : CubeSolveResult) (net : Net)
      → pending net ≡ []
      → res.has_solution ≡ is_solved res.status
      → IsRead optimizing rank
          (result_from optimizing res)
          (answer_original ch optimizing rank res net)
  unfolding answer_original answer_cube
  answer_original-IsRead optimizing rank res net e has =
      rw has (answer_cube-IsRead optimizing rank res net e)

  answer_incumbent-IsRead :
      (optimizing : Bool) (rank : ℕ) (res : CubeSolveResult) (net : Net)
      → (rank == original_worker) ≡ false
      → pending net ≡ []
      → IsRead optimizing rank
          (record {
            result = 25;
            extra = res.best_cost;
            sol = res.solution;
            new_constraints = [];
            subcubes = [];
          })
          (answer_incumbent ch rank res net)
  unfolding answer_incumbent
  answer_incumbent-IsRead optimizing rank res net o e =
      with_solution-IsRead optimizing rank 25 res.best_cost res.solution
        (answer_incumbent ch rank res net) (rw o refl)
        (sent_solution-pending 25 rank res.best_cost res.solution net e)

  sent_split-pending :
      (rank : ℕ) (cs : List WConstraint) (subs : List (List Lit)) (net : Net)
      → pending net ≡ []
      → pending (
          send_subcubes ch subs
            (send_constraints ch cs (send_header ch res_split rank (pos (length subs)) net)))
        ≡ (pos res_split ∷ pos rank ∷ pos (length subs) ∷ [])
          ∷ (constraint_messages cs ++ subcube_messages subs)
  sent_split-pending rank cs subs net e =
      let header = send_header ch res_split rank (pos (length subs)) net in
      send_subcubes-pending ch del subs (send_constraints ch cs header)
      ∙ ap (λ ms. ms ++ subcube_messages subs) (send_constraints-pending ch del cs header)
      ∙ ap (λ ms. (ms ++ constraint_messages cs) ++ subcube_messages subs)
          (sent_header-pending res_split rank (pos (length subs)) net e)

  -- Over a channel that delivers in order and is empty, the master reads the split of a cube worker with the
  -- learned constraints and the subcubes, in order, when their variables are numbered from 1; the worker
  -- has not found a model, or is optimizing.
  pub answer_split-IsRead :
      (optimizing : Bool) (rank : ℕ) (res : CubeSolveResult) (found : Bool) (subs : List (List Lit))
      (net : Net)
      → (rank == original_worker) ≡ false
      → (found && not optimizing) ≡ false
      → All Numbered res.learned_constraints
      → All AreNumbered subs
      → pending net ≡ []
      → IsRead optimizing rank
          (record {
            result = res_split;
            extra = pos (length subs);
            sol = [];
            new_constraints = res.learned_constraints;
            subcubes = subs;
          })
          (answer_split ch optimizing rank res found subs net)
  unfolding answer_split recv_result
  answer_split-IsRead optimizing rank res found subs net o f num nums e =
      let cs = res.learned_constraints in
      let sent =
        send_subcubes ch subs
          (send_constraints ch cs (send_header ch res_split rank (pos (length subs)) net)) in
      let (net1, q, e1) =
        recv-next (pos res_split ∷ pos rank ∷ pos (length subs) ∷ [])
          (constraint_messages cs ++ subcube_messages subs) sent
          (sent_split-pending rank cs subs net e) in
      let (net2, q2, e2) = recv_constraints-next ch del cs (subcube_messages subs) net1 num e1 in
      let (net3, q3, e3) =
        recv_subcubes-next ch del subs [] net2 nums
          (e2 ∙ sym (append_nil (subcube_messages subs))) in
      (net3, rw (f, answer_split) (rw (q, recv_result) (rw (o, q2, q3) refl)), e3)

  no_solution_there : (net : Net) → recv net ≡ none → recv_solution ch net ≡ none
  unfolding recv_solution recv_values recv_int
  no_solution_there net e = rw (e, recv_int, recv_values, recv_solution) refl

  -- Over a channel that delivers in order, is empty, and gives nothing while it is empty: when a split has
  -- found a model and the run is not optimizing, the master that reads the answer finds no solution to
  -- receive.
  pub answer_split-model :
      (rank : ℕ) (res : CubeSolveResult) (subs : List (List Lit)) (net : Net)
      → ((n : Net) → pending n ≡ [] → recv n ≡ none)
      → pending net ≡ []
      → recv_result ch false (answer_split ch false rank res true subs net) ≡ none
  unfolding answer_split recv_result
  answer_split-model rank res subs net silent e =
      let (net1, q, e1) =
        recv-next (pos 10 ∷ pos rank ∷ pos 0 ∷ []) [] (send_header ch 10 rank (pos 0) net)
          (sent_header-pending 10 rank (pos 0) net e) in
      let nothing = no_solution_there net1 (silent net1 e1) in
      let brought : brings_solution false rank 10 ≡ true = ground arith in
      rw (q, recv_result) (rw brought (rw nothing refl))
