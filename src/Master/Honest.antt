-- ===== src/Master/Honest.antt =====
-- What the answers of the workers promise, and what the incumbent promises then.
use cube_conquer_pb.Base.{
  ℕ, ◌-◌, ◌≡◌, refl, sym, subst, Bool, true, false, [], ◌∷◌, Bool-cases, inl, inr, ◌⊎◌, arith, Any,
  ℤ, ltb_ℤ, ◌≤ℤ◌, ◌<ℤ◌, eq_of_parts, get_or, ◌==◌,
}
use cube_conquer_pb.Constraint.Semantics.{Assignment}
use cube_conquer_pb.Incumbent.{
  Incumbent, Report, cost_only, with_solution, upper_bound, no_upper_bound, step,
}
use cube_conquer_pb.Incumbent.Best.{cost_of, Fresh, Stepped, step-Stepped}
use cube_conquer_pb.Master.{
  Master, idle, Result, Message, best_request, bounds, learned_update, result_of, original_worker,
  res_split,
}
use cube_conquer_pb.Master.Assign.{InSlot}
use cube_conquer_pb.Master.Next.{IsBusy}
use cube_conquer_pb.Master.Split.{Splits}

module _ (optimizing : Bool) (Model Lost : Assignment → Type 0) (cost : Assignment → ℤ) where
  -- A model that would improve on the best cost `c` and is not lost. `Lost` are the models that a 15
  -- leaves behind: the source means it as a feasible solution for the cube (src/cubePB.cpp, 1850), and
  -- the master closes the cube with it, whatever is cheaper in the cube.
  abbrev pub Left : ℤ → Assignment → Type 0
  Left c σ = Model σ × (optimizing ≡ true → (cost σ <ℤ c) × (Lost σ → ⊥))

  abbrev pub IsCost : ℤ → Type 0
  IsCost c = (σ : Assignment) × Model σ × (cost σ ≡ c)

  -- A cost that is reported is the cost of a model, and an int.
  abbrev pub IsTrue : Report → Type 0
  IsTrue (cost_only c) = (c ≤ℤ no_upper_bound) × IsCost c
  IsTrue (with_solution c s) = (c ≤ℤ no_upper_bound) × IsCost c
  IsTrue (upper_bound c) = (c ≤ℤ no_upper_bound) × (c <ℤ no_upper_bound → IsCost c)

  -- The best cost is the cost of a model once one is known, and INT_MAX before.
  pub record IsSound (inc : Incumbent) : Type 0 where
    pub fresh : Fresh inc
    pub small : inc.best_cost ≤ℤ no_upper_bound
    pub reached : inc.feasible_seen ≡ true → IsCost inc.best_cost
    pub unseen : inc.feasible_seen ≡ false → inc.best_cost ≡ no_upper_bound

  IsSound-after :
      (r : Report) (m m' : Incumbent)
      → Stepped r m m'
      → IsCost (cost_of r)
      → cost_of r ≤ℤ no_upper_bound
      → IsSound m
      → m'.feasible_seen ≡ true
      → IsSound m'
  IsSound-after r m m' st at small snd seen =
      let low = st.falls in
      let top = snd.small in
      record {
        fresh = st.fresh;
        small = omega arith;
        reached = λ _. elim st.origin [
          | inr e ↦ subst IsCost (sym e) at
          | inl e ↦ elim (Bool-cases m.feasible_seen) [
            | inl old ↦ subst IsCost (sym e) (snd.reached old)
            | inr new ↦
                let first = snd.unseen new in
                let under = st.reached in
                let same : cost_of r ≡ m'.best_cost =
                  eq_of_parts (cost_of r) m'.best_cost (ground (arith, e, first, under)) in
                subst IsCost same at
          ]
        ];
        unseen = λ q. absurd (cc);
      }

  pub step-IsSound :
      (r : Report) (m : Incumbent)
      → IsTrue r
      → IsSound m
      → IsSound (step true r m) × ((step true r m).best_cost ≤ℤ m.best_cost)
  unfolding step
  step-IsSound (cost_only c) m (small, at) snd =
      let st = step-Stepped (cost_only c) m snd.fresh small snd.small in
      (IsSound-after (cost_only c) m (step true (cost_only c) m) st at small snd refl, st.falls)
  step-IsSound (with_solution c s) m (small, at) snd =
      let st = step-Stepped (with_solution c s) m snd.fresh small snd.small in
      (
        IsSound-after (with_solution c s) m (step true (with_solution c s) m) st at small snd refl,
        st.falls,
      )
  step-IsSound (upper_bound c) m (small, at) snd =
      let st = step-Stepped (upper_bound c) m snd.fresh small snd.small in
      elim (Bool-cases (ltb_ℤ c no_upper_bound)) [
        | inr e ↦ (rw (e, step) snd, st.falls)
        | inl e ↦ (
          IsSound-after (upper_bound c) m (step true (upper_bound c) m) st (at (ground (arith, e)))
              small snd
              (elim (Bool-cases m.has_best_cost) [
                | inl b ↦ rw (e, b, step) refl
                | inr b ↦ rw (e, b, step) refl
              ]),
          st.falls,
        )
      ]

  abbrev pub Found : Result → Type 0
  Found r = (r.result ≡ 10) ⊎ (r.result ≡ 15)

  -- What a result of the original worker promises.
  pub record OriginalTells (r : Result) (m : Master) : Type 0 where
    pub improved : r.result ≡ 26 → IsTrue (cost_only r.extra)
    pub found : optimizing ≡ true → Found r → IsTrue (with_solution r.extra r.sol)
    pub optimal : optimizing ≡ true → r.result ≡ 10 → (σ : Assignment) → Model σ → r.extra ≤ℤ cost σ
    pub satisfied : optimizing ≡ false → r.result ≡ 10 → (σ : Assignment) × Model σ
    pub refuted : r.result ≡ 20 → (σ : Assignment) → Left m.incumbent.best_cost σ → ⊥

  -- What a result of a cube worker promises: it has a cube, it sends one of seven codes (15 only with an
  -- objective), the costs are those of models, the subcubes of a split cover what is left of the cube, a
  -- 10 is the least cost of a model of the cube, and a 20 leaves nothing in it. A 15 is the cost of a
  -- model: what is cheaper in the cube counts as lost.
  pub record WorkerTells (k : ℕ) (r : Result) (m : Master) : Type 0 where
    pub held : IsBusy k m
    pub code : Any (λ c. r.result ≡ c) (0 ∷ 10 ∷ 15 ∷ 20 ∷ 25 ∷ 26 ∷ res_split ∷ [])
    pub partly : r.result ≡ 15 → optimizing ≡ true
    pub improved : (r.result ≡ 25) ⊎ (r.result ≡ 26) → IsTrue (cost_only r.extra)
    pub found : optimizing ≡ true → Found r → IsTrue (with_solution r.extra r.sol)
    pub satisfied : optimizing ≡ false → r.result ≡ 10 → (σ : Assignment) × Model σ
    pub splits : r.result ≡ res_split → Splits Left k r.subcubes m
    pub optimal :
        optimizing ≡ true
        → r.result ≡ 10
        → (σ : Assignment) → Model σ
        → InSlot σ m.cubes (get_or m.slots k idle)
        → r.extra ≤ℤ cost σ
    pub feasible :
        optimizing ≡ true
        → r.result ≡ 15
        → (σ : Assignment) → Model σ
        → InSlot σ m.cubes (get_or m.slots k idle)
        → cost σ <ℤ r.extra
        → Lost σ
    pub refuted :
        r.result ≡ 20
        → (σ : Assignment) → Left m.incumbent.best_cost σ
        → InSlot σ m.cubes (get_or m.slots k idle)
        → ⊥

  -- What a message promises to a master. The first cube worker has the rank `first`.
  abbrev pub Tells : ℕ → Message → Master → Type 0
  Tells first (best_request p) m = Unit
  Tells first (bounds src lb ub) m = IsTrue (upper_bound ub)
  Tells first (learned_update cs) m = Unit
  Tells first (result_of worker r) m =
      ((worker == original_worker) ≡ true → OriginalTells r m)
      × ((worker == original_worker) ≡ false → WorkerTells (worker - first) r m)
