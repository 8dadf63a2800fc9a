-- ===== src/Master/Init.antt =====
-- The first phase of run_master (src/cubePB.cpp): the initial cubes arrive while the original worker already
-- runs, and the master may end before any cube is sent.
use cube_conquer_pb.Base.{
  ℕ, zero, suc, ◌-◌, Bool, true, false, not, ◌&&◌, ◌||◌, List, [], ◌∷◌, ◌++◌, if◌then◌else◌, ltb,
  ◌==◌, Option, none, some, ℤ, length,
}
use cube_conquer_pb.Constraint.{Lit}
use cube_conquer_pb.Tasks.{empty_set, no_lower_bound}
use cube_conquer_pb.Incumbent.{Incumbent, no_upper_bound}
use cube_conquer_pb.Master.{
  Config, Master, Slot, idle, Message, best_request, bounds, learned_update, result_of,
  original_worker, is_empty, child_tasks, indices, dispatch, original_result, handle_message,
  main_loop, Verdict, verdict, sat, unsat, optimum,
}

-- What the master receives before it has all initial cubes.
pub data InitMessage : Type 0 where
  message : Message → InitMessage
  init_result : ℕ → List (List Lit) → InitMessage

pub record Init : Type 0 where
  pub master : Master
  pub pending_init_workers : ℕ
  pub sat_found_during_generation : Bool

abbrev pub idle_slots : ℕ → List Slot
idle_slots zero = []
idle_slots (suc n) = idle ∷ idle_slots n

abbrev pub copies : ℕ → ℤ → List ℤ
copies zero x = []
copies (suc n) x = x ∷ copies n x

module _ (cfg : Config) where
  -- The incumbent of main: INT_MAX and no solution.
  abbrev pub no_incumbent : Incumbent
  no_incumbent = record {
    best_cost = no_upper_bound;
    has_best_cost = false;
    best_solution = [];
    feasible_seen = false;
  }

  -- The slots are made here, where the source makes them after this phase, which does not use them.
  abbrev pub initial : Init
  initial = record {
    master = record {
      cubes = [];
      queue = [];
      slots = idle_slots cfg.num_cube_workers;
      active_workers = 0;
      lb_of_worker = copies cfg.size no_lower_bound;
      ub_of_worker = copies cfg.size no_upper_bound;
      global_lower_bound = no_lower_bound;
      learned_from_original = [];
      incumbent = no_incumbent;
      sat_found = false;
      unknown_seen = false;
      original_worker_active = true;
      original_proved_unsat = false;
      original_proved_optimum = false;
      cubes_processed = 0;
      stop_sent = false;
      sent = [];
    };
    pending_init_workers = cfg.num_cube_workers;
    sat_found_during_generation = false;
  }

  -- Of the results only those of the original worker count.
  unfoldable pub init_message : Message → Master → Master
  unfolding original_result handle_message
  init_message (result_of worker r) m =
      if worker == original_worker then original_result cfg r m else m
  init_message (best_request p) m = handle_message cfg (best_request p) m
  init_message (bounds src lb ub) m = handle_message cfg (bounds src lb ub) m
  init_message (learned_update cs) m = handle_message cfg (learned_update cs) m

  unfoldable pub init_step : InitMessage → Init → Init
  unfolding init_message
  init_step (message msg) i = record i { master = init_message msg i.master }
  init_step (init_result status cubes) i =
      let m = i.master in
      record {
        master = record m { cubes = m.cubes ++ child_tasks cubes 0 empty_set no_lower_bound };
        pending_init_workers = i.pending_init_workers - 1;
        sat_found_during_generation = status == 10 || i.sat_found_during_generation;
      }

  -- while (pending_init_workers > 0)
  unfoldable pub init_loop : List InitMessage → Init → Init
  unfolding init_step
  init_loop [] i = i
  init_loop (msg ∷ msgs) i = elim (ltb 0 i.pending_init_workers) [
    | true ↦ init_loop msgs (init_step msg i)
    | false ↦ i
  ]

  -- The results that are printed before the cubes are sent.
  unfoldable pub early_verdict : Init → Option Verdict
  early_verdict i =
      let m = i.master in
      if m.sat_found || (m.original_proved_unsat || m.original_proved_optimum)
      then some (
          if not cfg.optimizing
          then (if m.sat_found then sat else unsat)
          else if m.original_proved_optimum
          then optimum m.incumbent.best_cost
          else unsat)
      else if i.sat_found_during_generation && not cfg.optimizing
      then some sat
      else if is_empty m.cubes && ltb 0 cfg.num_cube_workers
      then some unsat
      else none

  -- All cubes are queued, and the workers get their first cubes.
  unfoldable pub start : Master → Master
  unfolding dispatch
  start m =
      let m1 = record m { queue = indices 0 (length m.cubes) } in dispatch cfg (length m.slots) 0 m1

  unfoldable pub run_master : List InitMessage → List Message → Verdict
  unfolding init_loop early_verdict start main_loop verdict
  run_master inits msgs =
      let i = init_loop inits initial in
      elim (early_verdict i) [
        | some v ↦ v
        | none ↦ verdict cfg (main_loop cfg msgs (start i.master))
      ]
