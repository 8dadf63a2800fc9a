-- ===== src/Master/Handle.antt =====
-- Each message keeps the invariant of the master, when the worker that sent it tells the truth.
use cube_conquer_pb.Base.{
  ℕ, ◌≡◌, refl, sym, ◌∙◌, subst, Bool, true, false, List, Bool-cases, inl, inr, ◌⊎◌, arith, ℤ, ◌≤ℤ◌,
  ◌==◌,
}
use cube_conquer_pb.Constraint.{WConstraint}
use cube_conquer_pb.Constraint.Semantics.{Assignment}
use cube_conquer_pb.Incumbent.{Solution, Report, cost_only, with_solution, step}
use cube_conquer_pb.Incumbent.Best.{step-Stepped}
use cube_conquer_pb.Master.{
  Config, Master, Sent, Result, report, keep_solution, original_result, next_cube, split_result,
}
use cube_conquer_pb.Master.Next.{Inv, IsBusy, Closes, next_cube-Inv, next_cube-same}
use cube_conquer_pb.Master.Split.{Splits, split_result-Inv, split_result-same}
use cube_conquer_pb.Master.Honest.{Left, IsTrue, IsSound, step-IsSound, Found, OriginalTells}

module _ (cfg : Config) (Model Lost : Assignment → Type 0) (cost : Assignment → ℤ)
    (minimizing : cfg.minimizing ≡ true) where
  abbrev pub Remains : ℤ → Assignment → Type 0
  Remains = Left cfg.optimizing Model Lost cost

  -- The invariant of the master with the meaning of its incumbent and of `sat_found`.
  pub record Good (m : Master) : Type 0 where
    pub inv : Inv Remains m
    pub sound : IsSound cfg.optimizing Model Lost cost m.incumbent
    pub satisfied : m.sat_found ≡ true → (cfg.optimizing ≡ false) × (σ : Assignment) × Model σ

  Remains-le : (a b : ℤ) (σ : Assignment) → a ≤ℤ b → Remains a σ → Remains b σ
  Remains-le a b σ le (h, lt) = (h, λ o. (let below = lt o in omega arith))

  -- The other fields do not matter.
  pub other_fields :
      (m : Master) (lbs ubs : List ℤ) (lb : ℤ) (learned : List WConstraint) (sent : List Sent)
      → Good m
      → Good (record m {
        lb_of_worker = lbs;
        ub_of_worker = ubs;
        global_lower_bound = lb;
        learned_from_original = learned;
        sent = sent;
      })
  other_fields m lbs ubs lb learned sent g = record {
    inv = record {
      open_cubes = g.inv.open_cubes;
      proved = g.inv.proved;
      counted = g.inv.counted;
      valid = g.inv.valid;
      working = g.inv.working;
      stopped = g.inv.stopped;
      staffed = g.inv.staffed;
    };
    sound = g.sound;
    satisfied = g.satisfied;
  }

  pub flags :
      (m : Master) (active unknown unsat optimum : Bool)
      → Good m
      → (m.unknown_seen ≡ true → unknown ≡ true)
      → ((unsat ≡ true) ⊎ (optimum ≡ true) → (σ : Assignment) → Remains m.incumbent.best_cost σ → ⊥)
      → Good (record m {
        original_worker_active = active;
        unknown_seen = unknown;
        original_proved_unsat = unsat;
        original_proved_optimum = optimum;
      })
  flags m active unknown unsat optimum g up shut = record {
    inv = record {
      open_cubes = λ σ l. elim (g.inv.open_cubes σ l) [
        | inl (inl s) ↦ inl (inl s)
        | inl (inr s) ↦ inl (inr (up s))
        | inr c ↦ inr c
      ];
      proved = shut;
      counted = g.inv.counted;
      valid = g.inv.valid;
      working = g.inv.working;
      stopped = g.inv.stopped;
      staffed = g.inv.staffed;
    };
    sound = g.sound;
    satisfied = g.satisfied;
  }

  pub with_model :
      (m : Master) (sol : Solution) (active : Bool)
      → Good m
      → cfg.optimizing ≡ false
      → (σ : Assignment) × Model σ
      → Good (record (keep_solution sol (record m { original_worker_active = active })) {
        sat_found = true;
      })
  with_model m sol active g o w = record {
    inv = record {
      open_cubes = λ σ l. inl (inl refl);
      proved = g.inv.proved;
      counted = g.inv.counted;
      valid = g.inv.valid;
      working = g.inv.working;
      stopped = g.inv.stopped;
      staffed = g.inv.staffed;
    };
    sound = record {
      fresh = g.sound.fresh;
      small = g.sound.small;
      reached = g.sound.reached;
      unseen = g.sound.unseen;
    };
    satisfied = λ _. (o, w.0, w.1);
  }

  report-falls :
      (r : Report) (m : Master)
      → Good m
      → IsTrue cfg.optimizing Model Lost cost r
      → (report cfg r m).incumbent.best_cost ≤ℤ m.incumbent.best_cost
  unfolding report
  report-falls r m g t =
      rw (report, minimizing)
        ((step-IsSound cfg.optimizing Model Lost cost r m.incumbent t g.sound).1)

  pub report-Good :
      (r : Report) (m : Master)
      → Good m
      → IsTrue cfg.optimizing Model Lost cost r
      → Good (report cfg r m)
  unfolding report
  report-Good r m g t =
      let less : (σ : Assignment)
          → Remains (step cfg.minimizing r m.incumbent).best_cost σ
          → Remains m.incumbent.best_cost σ =
        λ σ.
          Remains-le (step cfg.minimizing r m.incumbent).best_cost m.incumbent.best_cost σ
            (report-falls r m g t) in
      record {
        inv = record {
          open_cubes = λ σ l. g.inv.open_cubes σ (less σ l);
          proved = λ p σ l. g.inv.proved p σ (less σ l);
          counted = g.inv.counted;
          valid = g.inv.valid;
          working = g.inv.working;
          stopped = g.inv.stopped;
          staffed = g.inv.staffed;
        };
        sound =
            rw minimizing ((step-IsSound cfg.optimizing Model Lost cost r m.incumbent t g.sound).0);
        satisfied = g.satisfied;
      }

  -- Nothing is left below a cost that was reported.
  pub report-reached :
      (c : ℤ) (sol : Solution) (m : Master)
      → Good m
      → IsTrue cfg.optimizing Model Lost cost (with_solution c sol)
      → cfg.optimizing ≡ true
      → (σ : Assignment) → Remains (report cfg (with_solution c sol) m).incumbent.best_cost σ
      → c ≤ℤ cost σ
      → ⊥
  unfolding report
  report-reached c sol m g (small, at) o σ (h, lt) over =
      let st = step-Stepped (with_solution c sol) m.incumbent g.sound.fresh small g.sound.small in
      let under : (step cfg.minimizing (with_solution c sol) m.incumbent).best_cost ≤ℤ c =
        rw minimizing (st.reached) in
      let below = lt o in omega arith

  module _ (r : Result) (m : Master) (g : Good m)
      (t : OriginalTells cfg.optimizing Model Lost cost r m) (e26 : (r.result == 26) ≡ false) where
    -- Without an objective.
    original_decides : cfg.optimizing ≡ false → Good (original_result cfg r m)
    unfolding original_result
    original_decides o = elim (Bool-cases (r.result == 10)) [
      | inl e10 ↦
          simp (e26, o, e10, original_result)
            (with_model m r.sol false g o (t.satisfied o (ground (arith, e10))))
      | inr e10 ↦ elim (Bool-cases (r.result == 20)) [
        | inl e20 ↦
            simp (e26, o, e10, e20, original_result)
              (flags m false m.unknown_seen true m.original_proved_optimum g (λ u. u)
                (λ _. t.refuted (ground (arith, e20))))
        | inr e20 ↦
            simp (e26, o, e10, e20, original_result)
              (flags m false true m.original_proved_unsat m.original_proved_optimum g (λ u. refl)
                g.inv.proved)
      ]
    ]

    original_brings :
        (optimum : Bool)
        → cfg.optimizing ≡ true
        → Found cfg.optimizing Model Lost cost r
        → (optimum ≡ true → (m.original_proved_optimum ≡ true) ⊎ (r.result ≡ 10))
        → Good (record (report cfg (with_solution r.extra r.sol) m) {
          original_worker_active = false;
          original_proved_optimum = optimum;
        })
    unfolding report
    original_brings optimum o f why =
        let true_cost = t.found o f in
        let m' = report cfg (with_solution r.extra r.sol) m in
        let g' = report-Good (with_solution r.extra r.sol) m g true_cost in
        flags m' false m.unknown_seen m.original_proved_unsat optimum g' (λ u. u)
          (λ p. elim p [
            | inl q ↦ g'.inv.proved (inl q)
            | inr q ↦ elim (why q) [
              | inl before ↦ g'.inv.proved (inr before)
              | inr ten ↦
                  λ σ l. report-reached r.extra r.sol m g true_cost o σ l (t.optimal o ten σ l.0)
            ]
          ])

    -- With an objective.
    original_optimizes : cfg.optimizing ≡ true → Good (original_result cfg r m)
    unfolding original_result report
    original_optimizes o = elim (Bool-cases (r.result == 10)) [
      | inl e10 ↦
          let ten : r.result ≡ 10 = ground (arith, e10) in
          simp (e26, o, e10, original_result) (original_brings true o (inl ten) (λ _. inr ten))
      | inr e10 ↦ elim (Bool-cases (r.result == 15)) [
        | inl e15 ↦
            simp (e26, o, e10, e15, original_result)
              (original_brings m.original_proved_optimum o (inr (ground (arith, e15))) (λ q. inl q))
        | inr e15 ↦ elim (Bool-cases (r.result == 20)) [
          | inl e20 ↦
              let shut = t.refuted (ground (arith, e20)) in
              elim (Bool-cases m.incumbent.feasible_seen) [
                | inl f ↦
                    simp (e26, o, e10, e15, e20, f, original_result)
                      (flags m false m.unknown_seen m.original_proved_unsat true g (λ u. u)
                        (λ _. shut))
                | inr f ↦
                    simp (e26, o, e10, e15, e20, f, original_result)
                      (flags m false m.unknown_seen true m.original_proved_optimum g (λ u. u)
                        (λ _. shut))
              ]
          | inr e20 ↦
              simp (e26, o, e10, e15, e20, original_result)
                (flags m false true m.original_proved_unsat m.original_proved_optimum g (λ u. refl)
                  g.inv.proved)
        ]
      ]
    ]

  pub original_result-Good :
      (r : Result) (m : Master)
      → Good m
      → OriginalTells cfg.optimizing Model Lost cost r m
      → Good (original_result cfg r m)
  unfolding original_result
  original_result-Good r m g t = elim (Bool-cases (r.result == 26)) [
    | inl e26 ↦
        rw (e26, original_result)
          (report-Good (cost_only r.extra) m g (t.improved (ground (arith, e26))))
    | inr e26 ↦ elim (Bool-cases cfg.optimizing) [
      | inl o ↦ original_optimizes r m g t e26 o
      | inr o ↦ original_decides r m g t e26 o
    ]
  ]

  pub next_cube-Good :
      (k : ℕ) (m : Master) → Good m → IsBusy k m → Closes Remains k m → Good (next_cube cfg k m)
  next_cube-Good k m g held closes =
      let (inc, found) = next_cube-same Remains cfg k m g.inv held closes in
      record {
        inv = next_cube-Inv Remains cfg k m g.inv held closes;
        sound = subst (IsSound cfg.optimizing Model Lost cost) (sym inc) g.sound;
        satisfied = λ e. g.satisfied (sym found ∙ e);
      }

  pub split_result-Good :
      (k : ℕ) (r : Result) (m : Master)
      → Good m
      → IsBusy k m
      → Splits Remains k r.subcubes m
      → Good (split_result cfg k r m)
  split_result-Good k r m g held splits =
      let (inc, found) = split_result-same Remains cfg k r m g.inv held splits in
      record {
        inv = split_result-Inv Remains cfg k r m g.inv held splits;
        sound = subst (IsSound cfg.optimizing Model Lost cost) (sym inc) g.sound;
        satisfied = λ e. g.satisfied (sym found ∙ e);
      }
