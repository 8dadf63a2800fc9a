-- ===== src/Workers/Work.antt =====
-- The work that the master sends is what the worker receives (src/cubePB.cpp).
use cube_conquer_pb.Base.{
  ℕ, zero, ◌≡◌, refl, sym, ◌∙◌, ap, subst, Bool, true, false, List, [], ◌∷◌, ◌++◌, map, length, All,
  Option, none, some, ◌>>=◌, ℤ, pos, if◌then◌else◌,
}
use cube_conquer_pb.Constraint.{WConstraint}
use cube_conquer_pb.Messages.{
  Channel, lit_to_int, int_to_lit, send_constraints, recv_constraints, recv_int,
}
use cube_conquer_pb.Messages.RoundTrip.{
  Delivers, Numbered, append_assoc, append_nil, constraint_messages, send_constraints-pending,
  recv_constraints-next,
}
use cube_conquer_pb.Tasks.{insert_all, empty_set, no_lower_bound}
use cube_conquer_pb.Master.{Work}
use cube_conquer_pb.Workers.{send_data, recv_data}
use cube_conquer_pb.Workers.Values.{
  AreNumbered, map-int_to_lit-lit_to_int, length-map, data_messages, send_data-pending,
  recv_data-next,
}

abbrev pub received : List ℤ → ℕ → List WConstraint → Option ℤ → ℤ → Work
received xs depth cs best lower_bound = record {
  lits = map int_to_lit xs;
  split_depth = depth;
  constraints = (insert_all cs empty_set).constraints;
  best = best;
  lower_bound = lower_bound;
}

module _ (ch : Channel) where
  open ch use {Net, send, recv}

  -- The messages of send_work_to_worker.
  unfoldable pub send_best : Option ℤ → Net → Net
  send_best none net = send (pos 0 ∷ []) net
  send_best (some best) net = send (best ∷ []) (send (pos 1 ∷ []) net)

  unfoldable pub send_work : Bool → Work → Net → Net
  unfolding send_best send_data
  send_work optimizing w net =
      let header = pos (length w.lits) ∷ pos w.split_depth ∷ pos (length w.constraints) ∷ [] in
      let net1 = send_data ch (map lit_to_int w.lits) (send header net) in
      let net2 = send_constraints ch w.constraints net1 in
      if optimizing then send (w.lower_bound ∷ []) (send_best w.best net2) else net2

  unfoldable pub recv_best : Net → Option (Option ℤ × Net)
  recv_best net = do
    (has, net1) ← recv_int ch net
    elim has [
      | pos zero ↦ some (none, net1)
      | _ ↦ do (best, net2) ← recv_int ch net1; some (some best, net2)
    ]

  -- What run_cube_worker receives before it solves: a set is made of the constraints.
  unfoldable pub recv_work : Bool → Net → Option (Work × Net)
  unfolding recv_best recv_data
  recv_work optimizing net = elim (recv net) [
    | some (pos len ∷ pos depth ∷ count ∷ [], net1) ↦ do
      (xs, net2) ← recv_data ch len net1
      (cs, net3) ← recv_constraints ch net2
      if optimizing
          then (do
            (best, net4) ← recv_best net3
            (lower_bound, net5) ← recv_int ch net4
            some (received xs depth cs best lower_bound, net5))
          else some (received xs depth cs none no_lower_bound, net3)
    | _ ↦ none
  ]

best_messages : Option ℤ → List (List ℤ)
best_messages none = (pos 0 ∷ []) ∷ []
best_messages (some best) = (pos 1 ∷ []) ∷ (best ∷ []) ∷ []

module _ (ch : Channel) (del : Delivers ch) where
  open ch use {Net, send, recv}
  open del use {pending, pending-send, recv-next}

  send_best-pending :
      (b : Option ℤ) (net : Net) → pending (send_best ch b net) ≡ pending net ++ best_messages b
  unfolding send_best best_messages
  send_best-pending none net = pending-send (pos 0 ∷ []) net
  send_best-pending (some best) net =
      pending-send (best ∷ []) (send (pos 1 ∷ []) net)
      ∙ ap (λ ms. ms ++ (best ∷ []) ∷ []) (pending-send (pos 1 ∷ []) net)
      ∙ append_assoc (pending net) ((pos 1 ∷ []) ∷ []) ((best ∷ []) ∷ [])

  one_int :
      (net net' : Net) (x : ℤ) → recv net ≡ some (x ∷ [], net') → recv_int ch net ≡ some (x, net')
  unfolding recv_int
  one_int net net' x q = rw (q, recv_int) refl

  recv_best-next :
      (b : Option ℤ) (ms : List (List ℤ)) (net : Net)
      → pending net ≡ best_messages b ++ ms
      → (net' : Net) × (recv_best ch net ≡ some (b, net')) × (pending net' ≡ ms)
  unfolding recv_best recv_int best_messages
  recv_best-next none ms net e =
      let (net1, q, e1) = recv-next (pos 0 ∷ []) ms net e in
      (net1, rw (q, recv_int, recv_best) refl, e1)
  recv_best-next (some best) ms net e =
      let (net1, q, e1) = recv-next (pos 1 ∷ []) ((best ∷ []) ∷ ms) net e in
      let (net2, q2, e2) = recv-next (best ∷ []) ms net1 e1 in
      (net2, rw (q, q2, recv_int, recv_best) refl, e2)

  -- What is sent before the part for optimizing.
  task_messages : Work → List (List ℤ)
  task_messages w =
      (pos (length w.lits) ∷ pos w.split_depth ∷ pos (length w.constraints) ∷ [])
      ∷ (data_messages (map lit_to_int w.lits) ++ constraint_messages w.constraints)

  task-pending :
      (w : Work) (net : Net)
      → pending net ≡ []
      → pending (
          send_constraints ch w.constraints (
            send_data ch (map lit_to_int w.lits) (
              send
                (pos (length w.lits) ∷ pos w.split_depth ∷ pos (length w.constraints) ∷ [])
                net)))
        ≡ task_messages w
  unfolding task_messages
  task-pending w net e =
      let header = pos (length w.lits) ∷ pos w.split_depth ∷ pos (length w.constraints) ∷ [] in
      let xs = map lit_to_int w.lits in
      send_constraints-pending ch del w.constraints (send_data ch xs (send header net))
      ∙ ap (λ ms. ms ++ constraint_messages w.constraints)
          (send_data-pending ch del xs (send header net)
            ∙ ap (λ ms. ms ++ data_messages xs)
                (pending-send header net ∙ ap (λ ms. ms ++ header ∷ []) e))

  bound-pending :
      (w : Work) (net : Net)
      → pending (send (w.lower_bound ∷ []) (send_best ch w.best net))
        ≡ pending net ++ (best_messages w.best ++ (w.lower_bound ∷ []) ∷ [])
  bound-pending w net =
      pending-send (w.lower_bound ∷ []) (send_best ch w.best net)
      ∙ ap (λ ms. ms ++ (w.lower_bound ∷ []) ∷ []) (send_best-pending w.best net)
      ∙ append_assoc (pending net) (best_messages w.best) ((w.lower_bound ∷ []) ∷ [])

  -- What a worker reads of the task, from the messages that are there.
  task-next :
      (w : Work) (ms : List (List ℤ)) (net : Net)
      → AreNumbered w.lits
      → All Numbered w.constraints
      → pending net ≡ task_messages w ++ ms
      → (net1 : Net) × (net2 : Net) × (net3 : Net) × (recv net
          ≡ some (pos (length w.lits) ∷ pos w.split_depth ∷ pos (length w.constraints) ∷ [], net1))
        × (recv_data ch (length w.lits) net1 ≡ some (map lit_to_int w.lits, net2))
        × (recv_constraints ch net2 ≡ some (w.constraints, net3))
        × (pending net3 ≡ ms)
  unfolding task_messages
  task-next w ms net num nums e =
      let header = pos (length w.lits) ∷ pos w.split_depth ∷ pos (length w.constraints) ∷ [] in
      let xs = map lit_to_int w.lits in
      let cs = constraint_messages w.constraints in
      let (net1, q1, e1) = recv-next header ((data_messages xs ++ cs) ++ ms) net e in
      let (net2, q2, e2) =
        recv_data-next ch del xs (cs ++ ms) net1 (e1 ∙ append_assoc (data_messages xs) cs ms) in
      let (net3, q3, e3) = recv_constraints-next ch del w.constraints ms net2 nums e2 in
      (
        net1,
        net2,
        net3,
        q1,
        subst (λ n. recv_data ch n net1 ≡ some (xs, net2)) (length-map lit_to_int w.lits) q2,
        q3,
        e3,
      )

  -- Over a channel that delivers in order and is empty, a worker receives the cube, the depth, the best cost
  -- and the lower bound that the master sent, without the last two when not optimizing, and the set of the
  -- constraints sent, when all variables are numbered from 1.
  pub recv_work-send_work :
      (optimizing : Bool) (w : Work) (net : Net)
      → pending net ≡ []
      → AreNumbered w.lits
      → All Numbered w.constraints
      → (net' : Net) × (recv_work ch optimizing (send_work ch optimizing w net)
          ≡ some (
            record w {
              constraints = (insert_all w.constraints empty_set).constraints;
              best = if optimizing then w.best else none;
              lower_bound = if optimizing then w.lower_bound else no_lower_bound;
            },
            net',
          ))
        × (pending net' ≡ [])
  unfolding recv_work send_work
  recv_work-send_work false w net e num nums =
      let (net1, net2, net3, q1, q2, q3, e3) =
        task-next w [] (send_work ch false w net) num nums
          (task-pending w net e ∙ sym (append_nil (task_messages w))) in
      (net3, rw (q1, recv_work) (rw (q2, q3, map-int_to_lit-lit_to_int w.lits num) refl), e3)
  recv_work-send_work true w net e num nums =
      let header = pos (length w.lits) ∷ pos w.split_depth ∷ pos (length w.constraints) ∷ [] in
      let task =
        send_constraints ch w.constraints
          (send_data ch (map lit_to_int w.lits) (send header net)) in
      let tail = best_messages w.best ++ (w.lower_bound ∷ []) ∷ [] in
      let (net1, net2, net3, q1, q2, q3, e3) =
        task-next w tail (send_work ch true w net) num nums
          (bound-pending w task ∙ ap (λ ms. ms ++ tail) (task-pending w net e)) in
      let (net4, q4, e4) = recv_best-next w.best ((w.lower_bound ∷ []) ∷ []) net3 e3 in
      let (net5, q5, e5) = recv-next (w.lower_bound ∷ []) [] net4 e4 in
      let bound : recv_int ch net4 ≡ some (w.lower_bound, net5) =
        one_int net4 net5 w.lower_bound q5 in
      (
        net5,
        rw (q1, recv_work) (rw (q2, q3, q4, bound, map-int_to_lit-lit_to_int w.lits num) refl),
        e5,
      )
