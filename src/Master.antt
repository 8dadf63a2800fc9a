-- ===== src/Master.antt =====
-- The master (run_master of src/cubePB.cpp): its state, the messages it receives and the work it sends.
--
-- The locals of `run_master` and the globals that it writes are the record `Master`; `cube_of_worker` and
-- `cube_depth_of_worker` are the slots of the cube workers, counted from `first_cube_worker`. A message is
-- one value with all that the master receives for it. Timers and printing are left out.
pub mod Assign
pub mod Dispatch
pub mod Next
pub mod Split
pub mod Honest
pub mod Handle
pub mod Run
pub mod Outcome
pub mod Init
pub mod Original
pub mod Start
pub mod Whole
use cube_conquer_pb.Base.{
  ℕ, zero, suc, ◌+◌, ◌-◌, Bool, true, false, not, ◌&&◌, ◌||◌, List, [], ◌∷◌, ◌++◌, map,
  if◌then◌else◌, ltb, ◌==◌, Option, none, some, ℤ, ltb_ℤ, get_elem?, get_or, set, length,
}
use cube_conquer_pb.Constraint.{Lit, WConstraint}
use cube_conquer_pb.Tasks.{ConstraintSet, insert_all, CubeTask, int_eq, no_lower_bound, pop_queue}
use cube_conquer_pb.Incumbent.{
  Incumbent, Solution, Report, cost_only, with_solution, upper_bound, no_upper_bound, step,
}

pub record Config : Type 0 where
  pub size : ℕ
  pub first_cube_worker : ℕ
  pub num_cube_workers : ℕ
  pub optimizing : Bool
  pub minimizing : Bool

abbrev pub original_worker : ℕ
original_worker = 1

abbrev pub res_split : ℕ
res_split = 30

-- The messages of send_work_to_worker.
pub record Work : Type 0 where
  pub lits : List Lit
  pub split_depth : ℕ
  pub constraints : List WConstraint
  pub best : Option ℤ
  pub lower_bound : ℤ

pub data Sent : Type 0 where
  work : ℕ → Work → Sent
  stop : ℕ → Sent
  best_reply : ℕ → ℤ → Sent
  incumbent_reply : ℕ → ℤ → Sent

-- cube_of_worker is -1, or an index with its cube_depth_of_worker.
pub data Slot : Type 0 where
  idle : Slot
  busy : ℕ → ℕ → Slot

pub record Master : Type 0 where
  pub cubes : List CubeTask
  pub queue : List ℕ
  pub slots : List Slot
  pub active_workers : ℕ
  pub lb_of_worker : List ℤ
  pub ub_of_worker : List ℤ
  pub global_lower_bound : ℤ
  pub learned_from_original : List WConstraint
  pub incumbent : Incumbent
  pub sat_found : Bool
  pub unknown_seen : Bool
  pub original_worker_active : Bool
  pub original_proved_unsat : Bool
  pub original_proved_optimum : Bool
  pub cubes_processed : ℕ
  pub stop_sent : Bool
  pub sent : List Sent

-- The ints of a TAG_RESULT message, and what comes after them.
pub record Result : Type 0 where
  pub result : ℕ
  pub extra : ℤ
  pub sol : Solution
  pub new_constraints : List WConstraint
  pub subcubes : List (List Lit)

pub data Message : Type 0 where
  best_request : ℕ → Message
  bounds : ℕ → ℤ → ℤ → Message
  learned_update : List WConstraint → Message
  result_of : ℕ → Result → Message

abbrev pub max_ℤ : ℤ → ℤ → ℤ
max_ℤ a b = if ltb_ℤ a b then b else a

abbrev pub is_idle : Slot → Bool
is_idle idle = true
is_idle (busy i d) = false

abbrev pub is_empty {ℓ} : {A : Type ℓ} → List A → Bool
is_empty [] = true
is_empty (x ∷ xs) = false

-- The tasks of the subcubes, and their indices.
abbrev pub child_tasks : List (List Lit) → ℕ → ConstraintSet → ℤ → List CubeTask
child_tasks [] depth cs lb = []
child_tasks (l ∷ ls) depth cs lb =
    record { lits = l; split_depth = depth; learned_constraints = cs; lower_bound = lb }
    ∷ child_tasks ls depth cs lb

abbrev pub indices : ℕ → ℕ → List ℕ
indices from zero = []
indices from (suc n) = from ∷ indices (from + 1) n

abbrev pub best_known : Master → ℤ
best_known m = if m.incumbent.has_best_cost then m.incumbent.best_cost else no_upper_bound

-- The stop messages to the workers from rank `p` on, but for one of them.
unfoldable pub stops : ℕ → ℕ → Option ℕ → List Sent
stops zero p except = []
stops (suc n) p none = stop p ∷ stops n (p + 1) none
stops (suc n) p (some w) =
    if p == w then stops n (p + 1) (some w) else stop p ∷ stops n (p + 1) (some w)

-- global_best_solution = recv_solution(worker)
abbrev pub keep_solution : Solution → Master → Master
keep_solution sol m =
    let inc = m.incumbent in record m { incumbent = record inc { best_solution = sol } }

-- The condition of the loop; `stop_sent` is set where the loop breaks.
unfoldable pub goes_on : Master → Bool
goes_on m =
    not m.sat_found
    && (not m.original_proved_unsat
        && (not m.original_proved_optimum
            && ((ltb 0 m.active_workers || m.original_worker_active) && not m.stop_sent)))

-- The global result that is printed.
pub data Verdict : Type 0 where
  sat : Verdict
  unsat : Verdict
  unknown : Verdict
  best : ℤ → Verdict
  optimum : ℤ → Verdict

-- The first half of handle_bounds_report: INT_MIN and INT_MAX stand for no information.
unfoldable pub keep_bounds : ℕ → ℤ → ℤ → Master → Master
keep_bounds src lb ub m =
    let has_lb = not (int_eq lb no_lower_bound) in
    record m {
      lb_of_worker = if has_lb then set m.lb_of_worker src lb else m.lb_of_worker;
      ub_of_worker =
          if not (int_eq ub no_upper_bound) then set m.ub_of_worker src ub else m.ub_of_worker;
      global_lower_bound =
          if src == original_worker && (has_lb && ltb_ℤ m.global_lower_bound lb)
          then lb
          else m.global_lower_bound;
    }

module _ (cfg : Config) where
  -- What send_work_to_worker sends.
  unfoldable pub work_of : CubeTask → Master → Work
  unfolding insert_all
  work_of t m = record {
    lits = t.lits;
    split_depth = t.split_depth;
    constraints = (insert_all m.learned_from_original t.learned_constraints).constraints;
    best = if cfg.optimizing && m.incumbent.has_best_cost then some m.incumbent.best_cost else none;
    lower_bound =
        if cfg.optimizing then max_ℤ t.lower_bound m.global_lower_bound else no_lower_bound;
  }

  unfoldable pub send_work_to_worker : ℕ → CubeTask → Master → Master
  unfolding work_of
  send_work_to_worker p t m =
      let lb = max_ℤ t.lower_bound m.global_lower_bound in
      record m {
        sent = m.sent ++ work p (work_of t m) ∷ [];
        lb_of_worker = if cfg.optimizing then set m.lb_of_worker p lb else m.lb_of_worker;
        ub_of_worker =
            if cfg.optimizing then set m.ub_of_worker p (best_known m) else m.ub_of_worker;
      }

  -- Take the top of the queue for the worker of a slot. The queue holds indices of cubes.
  unfoldable pub assign_cube : ℕ → Master → Master
  unfolding pop_queue send_work_to_worker
  assign_cube k m = elim (pop_queue m.cubes m.queue) [
    | none ↦ m
    | some (i, rest) ↦ elim (get_elem? m.cubes i) [
      | none ↦ m
      | some t ↦
          send_work_to_worker (cfg.first_cube_worker + k) t
            (record m { queue = rest; slots = set m.slots k (busy i t.split_depth) })
    ]
  ]

  -- for (int p = first_cube_worker; p < size; ++p): work for the idle workers, while there is some.
  unfoldable pub dispatch : ℕ → ℕ → Master → Master
  unfolding assign_cube
  dispatch zero k m = m
  dispatch (suc n) k m = elim (is_empty m.queue) [
    | true ↦ m
    | false ↦ elim (is_idle (get_or m.slots k (busy 0 0))) [
      | true ↦
          dispatch n (k + 1) (record (assign_cube k m) { active_workers = m.active_workers + 1 })
      | false ↦ dispatch n (k + 1) m
    ]
  ]

  unfoldable pub stop_all : Option ℕ → Master → Master
  unfolding stops
  stop_all except m = record m { sent = m.sent ++ stops (cfg.size - 1) 1 except }

  unfoldable pub report : Report → Master → Master
  unfolding step
  report r m = record m { incumbent = step cfg.minimizing r m.incumbent }

  unfoldable pub handle_bounds_report : ℕ → ℤ → ℤ → Master → Master
  unfolding report keep_bounds
  handle_bounds_report src lb ub m = report (upper_bound ub) (keep_bounds src lb ub m)

  unfoldable pub original_result : Result → Master → Master
  unfolding report
  original_result r m =
      let m1 = record m { original_worker_active = false } in
      let solved = report (with_solution r.extra r.sol) m1 in
      if r.result == 26
      then report (cost_only r.extra) m
      else if not cfg.optimizing
      then (if r.result == 10
          then record (keep_solution r.sol m1) { sat_found = true }
          else if r.result == 20
          then record m1 { original_proved_unsat = true }
          else record m1 { unknown_seen = true })
      else if r.result == 10
      then record solved { original_proved_optimum = true }
      else if r.result == 15
      then solved
      else if r.result == 20
      then (if m.incumbent.feasible_seen
          then record m1 { original_proved_optimum = true }
          else record m1 { original_proved_unsat = true })
      else record m1 { unknown_seen = true }

  -- What the master keeps of a split: the worker is free and the subcubes are open.
  unfoldable pub split_cubes : ℕ → Result → Master → Master
  unfolding insert_all
  split_cubes k r m = elim (get_or m.slots k idle) [
    | idle ↦ m
    | busy parent depth ↦ elim (get_elem? m.cubes parent) [
      | none ↦ m
      | some t ↦
          let lb = get_or m.lb_of_worker (cfg.first_cube_worker + k) no_lower_bound in
          let tasks =
            child_tasks r.subcubes (depth + 1) (insert_all r.new_constraints t.learned_constraints)
              (max_ℤ lb m.global_lower_bound) in
          record m {
            slots = set m.slots k idle;
            active_workers = m.active_workers - 1;
            cubes = m.cubes ++ tasks;
            queue = m.queue ++ indices (length m.cubes) (length r.subcubes);
          }
    ]
  ]

  unfoldable pub split_result : ℕ → Result → Master → Master
  unfolding split_cubes dispatch
  split_result k r m = let m1 = split_cubes k r m in dispatch (length m1.slots) 0 m1

  -- A cube is done: the next one for the worker, or one worker less.
  unfoldable pub next_cube : ℕ → Master → Master
  unfolding assign_cube stop_all
  next_cube k m =
      let m1 = record m { cubes_processed = m.cubes_processed + 1 } in
      let freed = record m1 {
        slots = set m1.slots k idle;
        active_workers = m1.active_workers - 1;
      } in
      if not (is_empty m1.queue)
      then assign_cube k m1
      else if freed.active_workers == 0
      then record (stop_all none freed) { stop_sent = true }
      else freed

  unfoldable pub worker_result : ℕ → Result → Master → Master
  unfolding report split_result next_cube stop_all
  worker_result k r m =
      let p = cfg.first_cube_worker + k in
      let solved = report (with_solution r.extra r.sol) m in
      if r.result == 25
      then record solved { sent = solved.sent ++ incumbent_reply p solved.incumbent.best_cost ∷ [] }
      else if r.result == 26
      then report (cost_only r.extra) m
      else if r.result == res_split
      then split_result k r m
      else if r.result == 10 && not cfg.optimizing
      then stop_all (some p) (record (keep_solution r.sol m) { sat_found = true })
      else next_cube k (
          if r.result == 0
          then record m { unknown_seen = true }
          else if r.result == 10 || r.result == 15
          then solved
          else m)

  unfoldable pub handle_message : Message → Master → Master
  unfolding handle_bounds_report original_result worker_result
  handle_message (best_request p) m = record m { sent = m.sent ++ best_reply p (best_known m) ∷ [] }
  handle_message (bounds src lb ub) m = handle_bounds_report src lb ub m
  handle_message (learned_update cs) m = record m {
    learned_from_original = m.learned_from_original ++ cs;
  }
  handle_message (result_of worker r) m =
      if worker == original_worker
      then original_result r m
      else worker_result (worker - cfg.first_cube_worker) r m

  unfoldable pub main_loop : List Message → Master → Master
  unfolding handle_message goes_on
  main_loop [] m = m
  main_loop (msg ∷ msgs) m = elim (goes_on m) [
    | true ↦ main_loop msgs (handle_message msg m)
    | false ↦ m
  ]

  unfoldable pub verdict : Master → Verdict
  verdict m =
      if not cfg.optimizing
      then (if m.sat_found then sat else if m.unknown_seen then unknown else unsat)
      else if not m.incumbent.feasible_seen
      then (if m.unknown_seen then unknown else unsat)
      else if m.unknown_seen
      then best m.incumbent.best_cost
      else optimum m.incumbent.best_cost
