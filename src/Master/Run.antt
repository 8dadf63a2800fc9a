-- ===== src/Master/Run.antt =====
-- The results of the cube workers, and the loop of the master over its messages.
use cube_conquer_pb.Base.{
  ℕ, ◌+◌, ◌-◌, ◌≡◌, ◌≢◌, refl, true, false, [], ◌∷◌, ◌++◌, Bool-cases, inl, inr, some, arith, Any,
  here, there, ℤ, ◌==◌, ltb_ℤ, get_or, ◌≤ℤ◌,
}
use cube_conquer_pb.Constraint.Semantics.{Assignment}
use cube_conquer_pb.Incumbent.{cost_only, with_solution, upper_bound}
use cube_conquer_pb.Master.Assign.{InSlot}
use cube_conquer_pb.Master.{
  Config, Master, idle, Result, Message, best_request, bounds, learned_update, result_of,
  original_worker, res_split, report, keep_solution, keep_bounds, handle_bounds_report,
  worker_result, handle_message, next_cube, stop_all, stops, incumbent_reply, best_reply,
  best_known,
}
use cube_conquer_pb.Master.Honest.{Found, WorkerTells, Tells}
use cube_conquer_pb.Master.Handle.{
  Good, other_fields, flags, with_model, report-Good, report-reached, original_result-Good,
  next_cube-Good, split_result-Good,
}

-- Of the codes of a cube worker, 20 is the last.
code_twenty :
    (n : ℕ)
    → Any (λ c. n ≡ c) (0 ∷ 10 ∷ 15 ∷ 20 ∷ 25 ∷ 26 ∷ res_split ∷ [])
    → n ≢ 0
    → n ≢ 10
    → n ≢ 15
    → n ≢ 25
    → n ≢ 26
    → n ≢ res_split
    → n ≡ 20
code_twenty n (here e) a b c d f g = absurd (a e)
code_twenty n (there (here e)) a b c d f g = absurd (b e)
code_twenty n (there (there (here e))) a b c d f g = absurd (c e)
code_twenty n (there (there (there (here e)))) a b c d f g = e
code_twenty n (there (there (there (there (here e))))) a b c d f g = absurd (d e)
code_twenty n (there (there (there (there (there (here e)))))) a b c d f g = absurd (f e)
code_twenty n (there (there (there (there (there (there (here e))))))) a b c d f g = absurd (g e)
code_twenty n (there (there (there (there (there (there (there e))))))) a b c d f g = elim e [ ]

not_equal : (n k : ℕ) → (n == k) ≡ false → n ≢ k
not_equal n k h e = ground (arith, h, e)

module _ (cfg : Config) (Model Lost : Assignment → Type 0) (cost : Assignment → ℤ)
    (minimizing : cfg.minimizing ≡ true) where
  module _ (k : ℕ) (r : Result) (m : Master) (g : Good cfg Model Lost cost minimizing m)
      (t : WorkerTells cfg.optimizing Model Lost cost k r m) where
    -- What is left of the cube after a 10 or a 15 with an objective costs no less.
    at_least :
        cfg.optimizing ≡ true
        → Found cfg.optimizing Model Lost cost r
        → (σ : Assignment) → Model σ
        → (Lost σ → ⊥)
        → InSlot σ m.cubes (get_or m.slots k idle)
        → r.extra ≤ℤ cost σ
    at_least o (inl ten) σ h kept inside = t.optimal o ten σ h inside
    at_least o (inr fifteen) σ h kept inside = elim (Bool-cases (ltb_ℤ (cost σ) r.extra)) [
      | inl e ↦ absurd (kept (t.feasible o fifteen σ h inside (ground (arith, e))))
      | inr e ↦ ground (arith, e)
    ]

    -- A 10 or a 15 with an objective.
    brings :
        cfg.optimizing ≡ true
        → Found cfg.optimizing Model Lost cost r
        → Good cfg Model Lost cost minimizing
            (next_cube cfg k (report cfg (with_solution r.extra r.sol) m))
    unfolding report
    brings o f =
        let true_cost = t.found o f in
        let m' = report cfg (with_solution r.extra r.sol) m in
        next_cube-Good cfg Model Lost cost minimizing k m'
          (report-Good cfg Model Lost cost minimizing (with_solution r.extra r.sol) m g true_cost)
          t.held
          (λ σ l. inr (λ inside.
            report-reached cfg Model Lost cost minimizing r.extra r.sol m g true_cost o σ l
              (at_least o f σ l.0 (l.1 o).1 inside)))

    refutes : r.result ≡ 20 → Good cfg Model Lost cost minimizing (next_cube cfg k m)
    refutes e =
        next_cube-Good cfg Model Lost cost minimizing k m g t.held (λ σ l. inr (t.refuted e σ l))

    gives_up :
        Good cfg Model Lost cost minimizing (next_cube cfg k (record m { unknown_seen = true }))
    gives_up =
        next_cube-Good cfg Model Lost cost minimizing k (record m { unknown_seen = true })
          (flags cfg Model Lost cost minimizing m m.original_worker_active true
            m.original_proved_unsat m.original_proved_optimum g (λ u. refl) g.inv.proved)
          t.held (λ σ l. inl (inr refl))

    finds :
        cfg.optimizing ≡ false
        → r.result ≡ 10
        → Good cfg Model Lost cost minimizing (
            stop_all cfg
              (some (cfg.first_cube_worker + k))
              (record (keep_solution r.sol m) { sat_found = true }))
    unfolding stop_all
    finds o e =
        let m' : Master = record (keep_solution r.sol m) { sat_found = true } in
        other_fields cfg Model Lost cost minimizing m' m.lb_of_worker m.ub_of_worker
          m.global_lower_bound m.learned_from_original
          (m.sent ++ stops (cfg.size - 1) 1 (some (cfg.first_cube_worker + k)))
          (with_model cfg Model Lost cost minimizing m r.sol m.original_worker_active g o
            (t.satisfied o e))

    -- The codes that close the cube of the worker, 25, 26 and 30 being done.
    closing :
        (r.result == 25) ≡ false
        → (r.result == 26) ≡ false
        → (r.result == res_split) ≡ false
        → Good cfg Model Lost cost minimizing (worker_result cfg k r m)
    unfolding worker_result report
    closing e25 e26 e30 = elim (Bool-cases (r.result == 10)) [
      | inl e10 ↦ elim (Bool-cases cfg.optimizing) [
        | inl o ↦
            let zero : (r.result == 0) ≡ false = ground (arith, e10) in
            simp (e25, e26, e30, e10, o, zero, worker_result) (brings o (inl (ground (arith, e10))))
        | inr o ↦ simp (e25, e26, e30, e10, o, worker_result) (finds o (ground (arith, e10)))
      ]
      | inr e10 ↦ elim (Bool-cases (r.result == 0)) [
        | inl e0 ↦ simp (e25, e26, e30, e10, e0, worker_result) gives_up
        | inr e0 ↦ elim (Bool-cases (r.result == 15)) [
          | inl e15 ↦
              let fifteen : r.result ≡ 15 = ground (arith, e15) in
              simp (e25, e26, e30, e10, e0, e15, worker_result)
                (brings (t.partly fifteen) (inr fifteen))
          | inr e15 ↦
              simp (e25, e26, e30, e10, e0, e15, worker_result)
                (refutes (
                  code_twenty r.result t.code (not_equal r.result 0 e0) (not_equal r.result 10 e10)
                    (not_equal r.result 15 e15) (not_equal r.result 25 e25)
                    (not_equal r.result 26 e26) (not_equal r.result res_split e30)))
        ]
      ]
    ]

    worker_result-Good : Good cfg Model Lost cost minimizing (worker_result cfg k r m)
    unfolding worker_result
    worker_result-Good = elim (Bool-cases (r.result == 25)) [
      | inl e25 ↦
          let solved = report cfg (with_solution r.extra r.sol) m in
          let g' =
            report-Good cfg Model Lost cost minimizing (with_solution r.extra r.sol) m g
              (t.improved (inl (ground (arith, e25)))) in
          rw (e25, worker_result)
            (other_fields cfg Model Lost cost minimizing solved solved.lb_of_worker
              solved.ub_of_worker solved.global_lower_bound solved.learned_from_original
              (solved.sent
                ++ incumbent_reply (cfg.first_cube_worker + k) solved.incumbent.best_cost ∷ [])
              g')
      | inr e25 ↦ elim (Bool-cases (r.result == 26)) [
        | inl e26 ↦
            rw (e25, e26, worker_result)
              (report-Good cfg Model Lost cost minimizing (cost_only r.extra) m g
                (t.improved (inr (ground (arith, e26)))))
        | inr e26 ↦ elim (Bool-cases (r.result == res_split)) [
          | inl e30 ↦
              rw (e25, e26, e30, worker_result)
                (split_result-Good cfg Model Lost cost minimizing k r m g t.held
                  (t.splits (ground (arith, e30))))
          | inr e30 ↦ closing e25 e26 e30
        ]
      ]
    ]

  keep_bounds-Good :
      (src : ℕ) (lb ub : ℤ) (m : Master)
      → Good cfg Model Lost cost minimizing m
      → Good cfg Model Lost cost minimizing (keep_bounds src lb ub m)
  unfolding keep_bounds
  keep_bounds-Good src lb ub m g =
      let m' = keep_bounds src lb ub m in
      other_fields cfg Model Lost cost minimizing m m'.lb_of_worker m'.ub_of_worker
        m'.global_lower_bound m.learned_from_original m.sent g

  -- When minimising or without an objective, a message that tells the truth keeps the invariant of the
  -- master: every model that improves on the incumbent is in a cube of the queue or of a worker, unless a
  -- model or an unknown answer was seen or the model is lost; the count of active workers is right; no
  -- worker is idle while a cube waits; and the incumbent is the cost of a model, or INT_MAX before the
  -- first. Of a 15 the truth is only that it brings the cost of a model, as the source documents it: the
  -- models of the cube that cost less count as lost.
  pub handle_message-Good :
      (msg : Message) (m : Master)
      → Good cfg Model Lost cost minimizing m
      → Tells cfg.optimizing Model Lost cost cfg.first_cube_worker msg m
      → Good cfg Model Lost cost minimizing (handle_message cfg msg m)
  unfolding handle_message handle_bounds_report
  handle_message-Good (best_request p) m g t =
      other_fields cfg Model Lost cost minimizing m m.lb_of_worker m.ub_of_worker
        m.global_lower_bound m.learned_from_original (m.sent ++ best_reply p (best_known m) ∷ []) g
  handle_message-Good (learned_update cs) m g t =
      other_fields cfg Model Lost cost minimizing m m.lb_of_worker m.ub_of_worker
        m.global_lower_bound (m.learned_from_original ++ cs) m.sent g
  handle_message-Good (bounds src lb ub) m g t =
      report-Good cfg Model Lost cost minimizing (upper_bound ub) (keep_bounds src lb ub m)
        (keep_bounds-Good src lb ub m g) t
  handle_message-Good (result_of worker r) m g t = elim (Bool-cases (worker == original_worker)) [
    | inl e ↦
        rw (e, handle_message) (original_result-Good cfg Model Lost cost minimizing r m g (t.0 e))
    | inr e ↦
        rw (e, handle_message) (worker_result-Good (worker - cfg.first_cube_worker) r m g (t.1 e))
  ]
