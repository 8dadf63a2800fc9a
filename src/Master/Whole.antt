-- ===== src/Master/Whole.antt =====
-- The whole run of the master: what it prints is true of the problem.
use cube_conquer_pb.Base.{
  ℕ, suc, ◌+◌, ◌≡◌, refl, sym, ◌∙◌, subst, Bool, true, false, not, List, [], ◌∷◌, Bool-cases, inl,
  inr, ◌⊎◌, arith, All-map_le, Any, Any-map_le, here, there, ℤ, ◌≤ℤ◌, ◌<ℤ◌, ◌&&◌, ltb, length,
  if◌then◌else◌, ◌<◌, Option, none, some,
}
use cube_conquer_pb.Constraint.Semantics.{Assignment}
use cube_conquer_pb.Cubes.Laws.{AllHold}
use cube_conquer_pb.Tasks.{CubeTask}
use cube_conquer_pb.Master.{
  Config, Master, Message, is_empty, indices, main_loop, goes_on, verdict, Verdict, unsat, optimum,
}
use cube_conquer_pb.Master.Assign.{HoldsAt}
use cube_conquer_pb.Master.Dispatch.{dispatch-all}
use cube_conquer_pb.Master.Split.{indices-lt}
use cube_conquer_pb.Master.Honest.{IsSound}
use cube_conquer_pb.Master.Handle.{Good}
use cube_conquer_pb.Master.Outcome.{Says, IsHonest, main_loop-Good, verdict-Says}
use cube_conquer_pb.Master.Init.{
  Init, InitMessage, initial, init_loop, early_verdict, start, run_master,
}
use cube_conquer_pb.Master.Start.{Early, IsHonestInit, initial_loop-Early}

-- Each cube has its index in the queue of all indices.
index_of :
    (σ : Assignment) (from : ℕ) (cubes : List CubeTask)
    → Any (λ t. AllHold σ t.lits) cubes
    → Any (λ i. (j : ℕ) × (i ≡ from + j) × HoldsAt σ cubes j) (indices from (length cubes))
index_of σ from [] h = elim h [ ]
index_of σ from (t ∷ ts) (here h) = here (0, omega arith, (t, refl, h))
index_of σ from (t ∷ ts) (there h) = there (
    Any-map_le (λ i. (j : ℕ) × (i ≡ from + 1 + j) × HoldsAt σ ts j)
      (λ i. (j : ℕ) × (i ≡ from + j) × HoldsAt σ (t ∷ ts) j) (indices (from + 1) (length ts))
      (λ i x. (let (j, e, at) = x in (suc j, omega arith, at))) (index_of σ (from + 1) ts h))

all_queued :
    (σ : Assignment) (cubes : List CubeTask)
    → Any (λ t. AllHold σ t.lits) cubes
    → Any (HoldsAt σ cubes) (indices 0 (length cubes))
all_queued σ cubes h =
    Any-map_le (λ i. (j : ℕ) × (i ≡ 0 + j) × HoldsAt σ cubes j) (HoldsAt σ cubes)
      (indices 0 (length cubes))
      (λ i x. (let (j, e, at) = x in let eq : j ≡ i = omega arith in subst (HoldsAt σ cubes) eq at))
      (index_of σ 0 cubes h)

module _ (cfg : Config) (Model Lost : Assignment → Type 0) (cost : Assignment → ℤ) where
  -- The initial cubes cover the models, unless one was found that ends the search.
  pub record IsGenerated (i : Init) : Type 0 where
    pub found :
        cfg.optimizing ≡ false → i.sat_found_during_generation ≡ true → (σ : Assignment) × Model σ
    pub covers :
        (σ : Assignment)
        → Model σ
        → ((cfg.optimizing ≡ false) × (i.sat_found_during_generation ≡ true))
          ⊎ Any (λ t. AllHold σ t.lits) i.master.cubes

  module _ (minimizing : cfg.minimizing ≡ true) where
    pub start-Good :
        (m : Master)
        → Early cfg Model Lost cost minimizing m
        → m.original_proved_unsat ≡ false
        → m.original_proved_optimum ≡ false
        → ((σ : Assignment) → Model σ → Any (λ t. AllHold σ t.lits) m.cubes)
        → Good cfg Model Lost cost minimizing (start cfg m)
    unfolding start
    start-Good m e u o covers =
        let m1 : Master = record m { queue = indices 0 (length m.cubes) } in
        let d = dispatch-all cfg m1 (
          All-map_le (λ i. i < 0 + length m.cubes) (λ i. i < length m.cubes)
            (indices 0 (length m.cubes)) (λ i h. omega arith) (indices-lt 0 (length m.cubes))) in
        record {
          inv = record {
            open_cubes = λ σ l. inr (d.covered σ (inl (all_queued σ m.cubes (covers σ l.0))));
            proved = λ p. elim p [
              | inl q ↦ absurd (cc (d.same.original_proved_unsat))
              | inr q ↦ absurd (cc (d.same.original_proved_optimum))
            ];
            counted = d.counted e.good.inv.counted;
            valid = d.valid;
            working = d.working;
            stopped = λ q. absurd (cc (d.same.stop_sent, e.running));
            staffed = rw (d.same.width) (e.good.inv.staffed);
          };
          sound =
              subst (IsSound cfg.optimizing Model Lost cost) (sym d.same.incumbent) e.good.sound;
          satisfied = λ q. e.good.satisfied (sym d.same.sat_found ∙ q);
        }

    -- One of the results that end the run before a cube is sent.
    early_proved :
        (m : Master) (proved_optimum : Bool)
        → Early cfg Model Lost cost minimizing m
        → m.original_proved_optimum ≡ proved_optimum
        → (m.original_proved_unsat ≡ true) ⊎ (m.original_proved_optimum ≡ true)
        → Says cfg Model Lost cost (
            if not cfg.optimizing
            then unsat
            else if proved_optimum
            then optimum m.incumbent.best_cost
            else unsat)
    early_proved m proved_optimum e q p = elim (Bool-cases cfg.optimizing) [
      | inr o ↦ simp (o) (λ σ h _. e.good.inv.proved p σ (h, λ q. absurd (cc)))
      | inl o ↦ elim (Bool-cases proved_optimum) [
        | inl po ↦
            simp (o, po)
              (
                e.good.sound.reached (e.optimum_seen (q ∙ po)),
                λ σ h kept. at_most σ (λ lt. e.good.inv.proved p σ (h, λ _. (lt, kept))),
              )
        | inr po ↦
            simp (o, po)
              (λ σ h lt. e.none (elim p [ inl u ↦ u | inr w ↦ absurd (cc) ]) σ (h, λ _. lt refl))
      ]
    ]
      where
        at_most :
            (σ : Assignment)
            → (cost σ <ℤ m.incumbent.best_cost → ⊥)
            → m.incumbent.best_cost ≤ℤ cost σ
        at_most σ h = ground (arith, h)

    module _ (i : Init) (e : Early cfg Model Lost cost minimizing i.master)
        (made : IsGenerated i) where
      -- What the early end, or its absence, tells.
      Told : Option Verdict → Type 0
      Told (some v) = Says cfg Model Lost cost v
      Told none =
          (i.master.original_proved_unsat ≡ false)
          × (i.master.original_proved_optimum ≡ false)
          × ((σ : Assignment) → Model σ → Any (λ t. AllHold σ t.lits) i.master.cubes)

      no_cubes :
          (cubes : List CubeTask) (σ : Assignment)
          → is_empty cubes ≡ true
          → Any (λ t. AllHold σ t.lits) cubes
          → ⊥
      no_cubes [] σ h c = elim c [ ]
      no_cubes (t ∷ ts) σ h c = cc

      all_covered :
          (i.sat_found_during_generation && not cfg.optimizing) ≡ false
          → (σ : Assignment) → Model σ
          → Any (λ t. AllHold σ t.lits) i.master.cubes
      all_covered g σ h = elim (made.covers σ h) [ inl (o, f) ↦ cc | inr c ↦ c ]

      unproved-Told :
          i.master.sat_found ≡ false
          → i.master.original_proved_unsat ≡ false
          → i.master.original_proved_optimum ≡ false
          → Told (early_verdict cfg i)
      unfolding early_verdict Told
      unproved-Told s u o =
          elim (Bool-cases (i.sat_found_during_generation && not cfg.optimizing)) [
            | inl g ↦
                simp (s, u, o, g, early_verdict)
                  (made.found (ground (arith, g)) (ground (arith, g)))
            | inr g ↦ elim (Bool-cases (is_empty i.master.cubes && ltb 0 cfg.num_cube_workers)) [
              | inl z ↦
                  simp (s, u, o, g, z, early_verdict)
                    (λ σ h _. no_cubes i.master.cubes σ (ground (arith, z)) (all_covered g σ h))
              | inr z ↦ simp (s, u, o, g, z, early_verdict) (refl, refl, all_covered g)
            ]
          ]

      early_verdict-Told : Told (early_verdict cfg i)
      unfolding early_verdict Told
      early_verdict-Told = elim (Bool-cases i.master.sat_found) [
        | inl s ↦ (let (o, σ, h) = e.good.satisfied s in simp (s, o, early_verdict) (σ, h))
        | inr s ↦ elim (Bool-cases i.master.original_proved_unsat) [
          | inl u ↦
              simp (u, s, early_verdict)
                (early_proved i.master i.master.original_proved_optimum e refl (inl u))
          | inr u ↦ elim (Bool-cases i.master.original_proved_optimum) [
            | inl o ↦ simp (o, u, s, early_verdict) (early_proved i.master true e o (inr o))
            | inr o ↦ unproved-Told s u o
          ]
        ]
      ]

      decided :
          (o : Option Verdict) (msgs : List Message)
          → Told o
          → (o ≡ none
              → IsHonest cfg Model Lost cost msgs (start cfg i.master)
                × (goes_on (main_loop cfg msgs (start cfg i.master)) ≡ false))
          → Says cfg Model Lost cost
              (elim o [ some v ↦ v | none ↦ verdict cfg (main_loop cfg msgs (start cfg i.master)) ])
      unfolding Told
      decided (some v) msgs t h = t
      decided none msgs (u, o, c) h =
          let (honest, ended) = h refl in
          let good = start-Good i.master e u o c in
          verdict-Says cfg Model Lost cost minimizing (main_loop cfg msgs (start cfg i.master))
            (main_loop-Good cfg Model Lost cost minimizing msgs (start cfg i.master) good honest)
            ended

  -- With at least one cube worker, and when minimising or without an objective: if every message that the
  -- master uses tells the truth, if the initial cubes cover the models unless one was found that ends the
  -- search, and if the loop has ended, then the result that run_master prints is true up to the lost
  -- models: SAT has a model, UNSAT has none (with an objective: none of a cost below INT_MAX that is not
  -- lost), BEST KNOWN is the cost of a model, and OPTIMUM is the cost of a model and no model that is not
  -- lost costs less. With an objective, the lost models are any set that holds, for each 15 of a cube
  -- worker, the models of its cube that cost less than it reports: the truth of a 15 is only that it
  -- brings the cost of a model, as the source documents it. When every 15 is the least cost of its cube,
  -- no model need be lost.
  pub run_master-Says :
      (inits : List InitMessage) (msgs : List Message)
      → cfg.minimizing ≡ true
      → 0 < cfg.num_cube_workers
      → IsHonestInit cfg Model Lost cost inits (initial cfg)
      → IsGenerated (init_loop cfg inits (initial cfg))
      → (early_verdict cfg (init_loop cfg inits (initial cfg)) ≡ none
          → IsHonest cfg Model Lost cost msgs (start cfg (init_loop cfg inits (initial cfg)).master)
            × (goes_on (main_loop cfg msgs (start cfg (init_loop cfg inits (initial cfg)).master))
                ≡ false))
      → Says cfg Model Lost cost (run_master cfg inits msgs)
  unfolding run_master
  run_master-Says inits msgs minimizing w honest made h =
      let i = init_loop cfg inits (initial cfg) in
      let e = initial_loop-Early cfg Model Lost cost minimizing inits w honest in
      decided minimizing i e made (early_verdict cfg i) msgs
        (early_verdict-Told minimizing i e made) h
