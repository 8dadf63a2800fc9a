-- ===== src/Master/Original.antt =====
-- What a result of the original worker changes in the master, as one record.
use cube_conquer_pb.Base.{
  ◌≡◌, refl, ◌⊎◌, inl, inr, Bool, true, false, Bool-cases, arith, ◌==◌, ltb_ℤ,
}
use cube_conquer_pb.Incumbent.{
  Incumbent, Report, cost_only, with_solution, upper_bound, no_upper_bound, step,
}
use cube_conquer_pb.Master.{Config, Master, Result, report, original_result}

-- A report never makes the master forget that it has seen a model.
pub step-seen :
    (minimizing : Bool) (r : Report) (i : Incumbent)
    → i.feasible_seen ≡ true
    → (step minimizing r i).feasible_seen ≡ true
unfolding step
step-seen minimizing (cost_only c) i e = refl
step-seen minimizing (with_solution c s) i e = refl
step-seen minimizing (upper_bound c) i e = elim (Bool-cases (ltb_ℤ c no_upper_bound)) [
  | inr h ↦ simp (h, step) e
  | inl h ↦ elim (Bool-cases i.has_best_cost) [
    | inl b ↦ simp (h, b, step) refl
    | inr b ↦ simp (h, b, step) refl
  ]
]

-- The changes, whatever `unknown_seen` was.
pub record Changed (cfg : Config) (r : Result) (m : Master) : Type 0 where
  pub inc : Incumbent
  pub found : Bool
  pub unknown : Bool → Bool
  pub active : Bool
  pub unsat : Bool
  pub optimum : Bool
  pub result :
      (b : Bool)
      → original_result cfg r (record m { unknown_seen = b }) ≡ record m {
        incumbent = inc;
        sat_found = found;
        unknown_seen = unknown b;
        original_worker_active = active;
        original_proved_unsat = unsat;
        original_proved_optimum = optimum;
      }
  pub seen : m.incumbent.feasible_seen ≡ true → inc.feasible_seen ≡ true
  pub optimum_seen :
      optimum ≡ true → (m.original_proved_optimum ≡ true) ⊎ (inc.feasible_seen ≡ true)
  pub unsat_unseen :
      unsat ≡ true
      → (m.original_proved_unsat ≡ true)
        ⊎ ((r.result ≡ 20) × (cfg.optimizing ≡ true → m.incumbent.feasible_seen ≡ false))

module _ (cfg : Config) (r : Result) (m : Master) where
  -- The solver has answered; the incumbent stays.
  answered :
      (unknown : Bool → Bool) (unsat optimum : Bool)
      → ((b : Bool)
          → original_result cfg r (record m { unknown_seen = b }) ≡ record m {
            unknown_seen = unknown b;
            original_worker_active = false;
            original_proved_unsat = unsat;
            original_proved_optimum = optimum;
          })
      → (optimum ≡ true → (m.original_proved_optimum ≡ true) ⊎ (m.incumbent.feasible_seen ≡ true))
      → (unsat ≡ true
          → (m.original_proved_unsat ≡ true)
            ⊎ ((r.result ≡ 20) × (cfg.optimizing ≡ true → m.incumbent.feasible_seen ≡ false)))
      → Changed cfg r m
  answered unknown unsat optimum e h k = record {
    inc = m.incumbent;
    found = m.sat_found;
    unknown = unknown;
    active = false;
    unsat = unsat;
    optimum = optimum;
    result = e;
    seen = λ s. s;
    optimum_seen = h;
    unsat_unseen = k;
  }

  -- It brings a solution.
  brought :
      (optimum : Bool)
      → ((b : Bool)
          → original_result cfg r (record m { unknown_seen = b }) ≡ record m {
            incumbent = step cfg.minimizing (with_solution r.extra r.sol) m.incumbent;
            unknown_seen = b;
            original_worker_active = false;
            original_proved_optimum = optimum;
          })
      → Changed cfg r m
  unfolding step
  brought optimum e = record {
    inc = step cfg.minimizing (with_solution r.extra r.sol) m.incumbent;
    found = m.sat_found;
    unknown = λ b. b;
    active = false;
    unsat = m.original_proved_unsat;
    optimum = optimum;
    result = e;
    seen = λ s. refl;
    optimum_seen = λ q. inr refl;
    unsat_unseen = λ q. inl q;
  }

  decided : (r.result == 26) ≡ false → cfg.optimizing ≡ false → Changed cfg r m
  unfolding original_result
  decided e26 o = elim (Bool-cases (r.result == 10)) [
    | inl e10 ↦ record {
      inc = (let i = m.incumbent in record i { best_solution = r.sol });
      found = true;
      unknown = λ b. b;
      active = false;
      unsat = m.original_proved_unsat;
      optimum = m.original_proved_optimum;
      result = λ b. simp (e26, o, e10, original_result) refl;
      seen = λ s. s;
      optimum_seen = λ q. inl q;
      unsat_unseen = λ q. inl q;
    }
    | inr e10 ↦ elim (Bool-cases (r.result == 20)) [
      | inl e20 ↦
          answered (λ b. b) true m.original_proved_optimum
            (λ b. simp (e26, o, e10, e20, original_result) refl) (λ q. inl q)
            (λ q. inr (ground (arith, e20), λ p. absurd (cc)))
      | inr e20 ↦
          answered (λ b. true) m.original_proved_unsat m.original_proved_optimum
            (λ b. simp (e26, o, e10, e20, original_result) refl) (λ q. inl q) (λ q. inl q)
    ]
  ]

  optimized : (r.result == 26) ≡ false → cfg.optimizing ≡ true → Changed cfg r m
  unfolding original_result report
  optimized e26 o = elim (Bool-cases (r.result == 10)) [
    | inl e10 ↦ brought true (λ b. simp (e26, o, e10, original_result) refl)
    | inr e10 ↦ elim (Bool-cases (r.result == 15)) [
      | inl e15 ↦
          brought m.original_proved_optimum (λ b. simp (e26, o, e10, e15, original_result) refl)
      | inr e15 ↦ elim (Bool-cases (r.result == 20)) [
        | inr e20 ↦
            answered (λ b. true) m.original_proved_unsat m.original_proved_optimum
              (λ b. simp (e26, o, e10, e15, e20, original_result) refl) (λ q. inl q) (λ q. inl q)
        | inl e20 ↦ elim (Bool-cases m.incumbent.feasible_seen) [
          | inl f ↦
              answered (λ b. b) m.original_proved_unsat true
                (λ b. simp (e26, o, e10, e15, e20, f, original_result) refl) (λ q. inr f)
                (λ q. inl q)
          | inr f ↦
              answered (λ b. b) true m.original_proved_optimum
                (λ b. simp (e26, o, e10, e15, e20, f, original_result) refl) (λ q. inl q)
                (λ q. inr (ground (arith, e20), λ _. f))
        ]
      ]
    ]
  ]

  pub original_result-Changed : Changed cfg r m
  unfolding original_result report
  original_result-Changed = elim (Bool-cases (r.result == 26)) [
    | inl e26 ↦ record {
      inc = step cfg.minimizing (cost_only r.extra) m.incumbent;
      found = m.sat_found;
      unknown = λ b. b;
      active = m.original_worker_active;
      unsat = m.original_proved_unsat;
      optimum = m.original_proved_optimum;
      result = λ b. simp (e26, original_result) refl;
      seen = step-seen cfg.minimizing (cost_only r.extra) m.incumbent;
      optimum_seen = λ q. inl q;
      unsat_unseen = λ q. inl q;
    }
    | inr e26 ↦ elim (Bool-cases cfg.optimizing) [ inl o ↦ optimized e26 o | inr o ↦ decided e26 o ]
  ]
