-- ===== src/Master/Start.antt =====
-- The first phase keeps what the master claims.
use cube_conquer_pb.Base.{
  ℕ, zero, suc, ◌≡◌, refl, sym, ◌∙◌, subst, true, false, List, [], ◌∷◌, ◌++◌, Bool-cases, inl, inr,
  arith, ℤ, ◌==◌, ltb, length, ◌<◌,
}
use cube_conquer_pb.Constraint.Semantics.{Assignment}
use cube_conquer_pb.Tasks.{empty_set, no_lower_bound}
use cube_conquer_pb.Incumbent.{upper_bound, no_upper_bound}
use cube_conquer_pb.Master.{
  Config, Master, Result, Message, best_request, bounds, learned_update, result_of, report,
  child_tasks, original_worker, original_result, handle_message, handle_bounds_report, keep_bounds,
}
use cube_conquer_pb.Master.Assign.{busy_count}
use cube_conquer_pb.Master.Honest.{IsTrue, OriginalTells}
use cube_conquer_pb.Master.Handle.{Good, Remains, flags, original_result-Good}
use cube_conquer_pb.Master.Run.{handle_message-Good}
use cube_conquer_pb.Master.Original.{original_result-Changed, step-seen}
use cube_conquer_pb.Master.Init.{
  Init, InitMessage, message, init_result, idle_slots, initial, init_message, init_step, init_loop,
}

count-idle_slots : (n : ℕ) → busy_count (idle_slots n) ≡ 0
count-idle_slots zero = refl
count-idle_slots (suc n) = omega (arith, count-idle_slots n)

length-idle_slots : (n : ℕ) → length (idle_slots n) ≡ n
length-idle_slots zero = refl
length-idle_slots (suc n) = omega (arith, length-idle_slots n)

module _ (cfg : Config) (Model Lost : Assignment → Type 0) (cost : Assignment → ℤ) where
  -- Before the cubes are sent a message has to tell the truth only when the master does not drop it.
  abbrev pub InitTells : InitMessage → Init → Type 0
  InitTells (message (result_of worker r)) i =
      (worker == original_worker) ≡ true → OriginalTells cfg.optimizing Model Lost cost r i.master
  InitTells (message (best_request p)) i = Unit
  InitTells (message (learned_update cs)) i = Unit
  InitTells (message (bounds src lb ub)) i = IsTrue cfg.optimizing Model Lost cost (upper_bound ub)
  InitTells (init_result status cubes) i = Unit

  abbrev pub IsHonestInit : List InitMessage → Init → Type 0
  IsHonestInit [] i = Unit
  IsHonestInit (msg ∷ msgs) i =
      ltb 0 i.pending_init_workers ≡ true
      → InitTells msg i × IsHonestInit msgs (init_step cfg msg i)

  module _ (minimizing : cfg.minimizing ≡ true) where
    abbrev pub Doubted : Master → Master
    Doubted m = record m { unknown_seen = true }

    -- Nothing is sent yet, and what is claimed is true. The cubes are not all there, hence `Doubted`.
    pub record Early (m : Master) : Type 0 where
      pub good : Good cfg Model Lost cost minimizing (Doubted m)
      pub queue : m.queue ≡ []
      pub slots : m.slots ≡ idle_slots cfg.num_cube_workers
      pub active : m.active_workers ≡ 0
      pub running : m.stop_sent ≡ false
      pub optimum_seen : m.original_proved_optimum ≡ true → m.incumbent.feasible_seen ≡ true
      pub none :
          m.original_proved_unsat ≡ true
          → (σ : Assignment) → Remains cfg Model Lost cost minimizing no_upper_bound σ
          → ⊥

    initial-Early : 0 < cfg.num_cube_workers → Early (initial cfg).master
    initial-Early w = record {
      good = record {
        inv = record {
          open_cubes = λ σ l. inl (inr refl);
          proved = λ p. elim p [ inl e ↦ cc | inr e ↦ cc ];
          counted = sym (count-idle_slots cfg.num_cube_workers);
          valid = tt;
          working = inl refl;
          stopped = λ e. cc;
          staffed = omega (arith, length-idle_slots cfg.num_cube_workers);
        };
        sound = record {
          fresh = inr refl;
          small = omega arith;
          reached = λ e. cc;
          unseen = λ e. refl;
        };
        satisfied = λ e. cc;
      };
      queue = refl;
      slots = refl;
      active = refl;
      running = refl;
      optimum_seen = λ e. cc;
      none = λ e. cc;
    }

    original-Early :
        (r : Result) (m : Master)
        → Early m
        → OriginalTells cfg.optimizing Model Lost cost r m
        → Early (original_result cfg r m)
    original-Early r m e t =
        let c = original_result-Changed cfg r m in
        let m' : Master = record m {
          incumbent = c.inc;
          sat_found = c.found;
          unknown_seen = c.unknown m.unknown_seen;
          original_worker_active = c.active;
          original_proved_unsat = c.unsat;
          original_proved_optimum = c.optimum;
        } in
        let told : OriginalTells cfg.optimizing Model Lost cost r (Doubted m) = record {
          improved = t.improved;
          found = t.found;
          optimal = t.optimal;
          satisfied = t.satisfied;
          refuted = t.refuted;
        } in
        let after : Good cfg Model Lost cost minimizing
            (record m' { unknown_seen = c.unknown true }) =
          subst (Good cfg Model Lost cost minimizing) (c.result true)
            (original_result-Good cfg Model Lost cost minimizing r (Doubted m) e.good told) in
        subst Early (sym (c.result m.unknown_seen)) (record {
          good =
              flags cfg Model Lost cost minimizing (record m' { unknown_seen = c.unknown true })
                c.active true c.unsat c.optimum after (λ u. refl) after.inv.proved;
          queue = e.queue;
          slots = e.slots;
          active = e.active;
          running = e.running;
          optimum_seen = λ o. elim (c.optimum_seen o) [
            | inl before ↦ c.seen (e.optimum_seen before)
            | inr now ↦ now
          ];
          none = λ u. elim (c.unsat_unseen u) [
            | inl before ↦ e.none before
            | inr (twenty, unseen) ↦ λ σ l.
                t.refuted twenty σ
                  (l.0, λ o. (let most = e.good.sound.unseen (unseen o) in rw most (l.1 o)))
          ];
        })

    -- Updates of fields that the claims do not read, but for the incumbent.
    informed :
        (m m' : Master)
        → Early m
        → Good cfg Model Lost cost minimizing (Doubted m')
        → m'.queue ≡ m.queue
        → m'.slots ≡ m.slots
        → m'.active_workers ≡ m.active_workers
        → m'.stop_sent ≡ m.stop_sent
        → m'.original_proved_optimum ≡ m.original_proved_optimum
        → m'.original_proved_unsat ≡ m.original_proved_unsat
        → (m.incumbent.feasible_seen ≡ true → m'.incumbent.feasible_seen ≡ true)
        → Early m'
    informed m m' e g q s a h o u f = record {
      good = g;
      queue = q ∙ e.queue;
      slots = s ∙ e.slots;
      active = a ∙ e.active;
      running = h ∙ e.running;
      optimum_seen = λ p. f (e.optimum_seen (sym o ∙ p));
      none = λ p. e.none (sym u ∙ p);
    }

    told_message :
        (msg : Message) (m : Master)
        → Early m
        → InitTells
            (message msg)
            (record { master = m; pending_init_workers = 0; sat_found_during_generation = false })
        → Early (init_message cfg msg m)
    unfolding init_message handle_message handle_bounds_report report keep_bounds
    told_message (result_of worker r) m e t = elim (Bool-cases (worker == original_worker)) [
      | inl o ↦ rw (o, init_message) (original-Early r m e (t o))
      | inr o ↦ rw (o, init_message) e
    ]
    told_message (best_request p) m e t =
        informed m (handle_message cfg (best_request p) m) e
          (handle_message-Good cfg Model Lost cost minimizing (best_request p) (Doubted m) e.good
            tt)
          refl refl refl refl refl refl (λ f. f)
    told_message (learned_update cs) m e t =
        informed m (handle_message cfg (learned_update cs) m) e
          (handle_message-Good cfg Model Lost cost minimizing (learned_update cs) (Doubted m) e.good
            tt)
          refl refl refl refl refl refl (λ f. f)
    told_message (bounds src lb ub) m e t =
        informed m (handle_message cfg (bounds src lb ub) m) e
          (handle_message-Good cfg Model Lost cost minimizing (bounds src lb ub) (Doubted m) e.good
            t)
          refl refl refl refl refl refl (step-seen cfg.minimizing (upper_bound ub) m.incumbent)

    init_step-Early :
        (msg : InitMessage) (i : Init)
        → Early i.master
        → InitTells msg i
        → Early (init_step cfg msg i).master
    unfolding init_step
    init_step-Early (message (result_of w r)) i e t = told_message (result_of w r) i.master e t
    init_step-Early (message (best_request p)) i e t = told_message (best_request p) i.master e t
    init_step-Early (message (learned_update cs)) i e t =
        told_message (learned_update cs) i.master e t
    init_step-Early (message (bounds src lb ub)) i e t =
        told_message (bounds src lb ub) i.master e t
    init_step-Early (init_result status cubes) i e t =
        let m = i.master in
        let m' : Master = record m {
          cubes = m.cubes ++ child_tasks cubes 0 empty_set no_lower_bound;
        } in
        informed m m' e
          (record {
            inv = record {
              open_cubes = λ σ l. inl (inr refl);
              proved = e.good.inv.proved;
              counted = e.good.inv.counted;
              valid = rw (e.queue) tt;
              working = e.good.inv.working;
              stopped = e.good.inv.stopped;
              staffed = e.good.inv.staffed;
            };
            sound = e.good.sound;
            satisfied = e.good.satisfied;
          })
          refl refl refl refl refl refl (λ f. f)

    pub init_loop-Early :
        (msgs : List InitMessage) (i : Init)
        → Early i.master
        → IsHonestInit msgs i
        → Early (init_loop cfg msgs i).master
    unfolding init_loop
    init_loop-Early [] i e h = e
    init_loop-Early (msg ∷ msgs) i e h = elim (Bool-cases (ltb 0 i.pending_init_workers)) [
      | inr p ↦ simp (p, init_loop) e
      | inl p ↦
          let (now, later) = h p in
          simp (p, init_loop)
            (init_loop-Early msgs (init_step cfg msg i) (init_step-Early msg i e now) later)
    ]

    pub initial_loop-Early :
        (msgs : List InitMessage)
        → 0 < cfg.num_cube_workers
        → IsHonestInit msgs (initial cfg)
        → Early (init_loop cfg msgs (initial cfg)).master
    initial_loop-Early msgs w h = init_loop-Early msgs (initial cfg) (initial-Early w) h
