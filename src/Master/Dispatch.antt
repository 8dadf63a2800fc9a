-- ===== src/Master/Dispatch.antt =====
-- The loop that gives work to the idle workers.
use cube_conquer_pb.Base.{
  ℕ, zero, suc, ◌+◌, ◌≡◌, ◌≢◌, refl, ◌∙◌, ap, subst, true, false, List, [], ◌∷◌, Bool-cases, inl,
  inr, ◌⊎◌, arith, total-set, length, get_or, get_or-set, get_or-default, set, ◌==◌, ◌<◌,
}
use cube_conquer_pb.Constraint.Semantics.{Assignment}
use cube_conquer_pb.Master.{
  Config, Master, Slot, idle, busy, is_idle, is_empty, assign_cube, dispatch,
}
use cube_conquer_pb.Master.Assign.{
  InSlot, Covered, one_if_busy, busy_count, QueueIsValid, Same, assign_cube-Assigned,
}

-- No worker is idle while a cube waits.
abbrev pub Working : Master → Type 0
Working m =
    (m.queue ≡ []) ⊎ ((i : ℕ) → i < length m.slots → is_idle (get_or m.slots i (busy 0 0)) ≡ false)

pub record Dispatched (m m' : Master) : Type 0 where
  pub same : Same m m'
  pub valid : QueueIsValid m'
  pub covered : (σ : Assignment) → Covered σ m → Covered σ m'
  pub counted : m.active_workers ≡ busy_count m.slots → m'.active_workers ≡ busy_count m'.slots
  pub working : Working m'

abbrev pub BusyBelow : ℕ → Master → Type 0
BusyBelow k m = (i : ℕ) → i < k → is_idle (get_or m.slots i (busy 0 0)) ≡ false

idle_at : (s : Slot) → is_idle s ≡ true → s ≡ idle
idle_at idle h = refl
idle_at (busy i d) h = cc

pub is_empty-eq : (q : List ℕ) → is_empty q ≡ true → q ≡ []
is_empty-eq [] h = refl
is_empty-eq (x ∷ xs) h = cc

pub is_empty-ne : (q : List ℕ) → is_empty q ≡ false → q ≢ []
is_empty-ne [] h = cc
is_empty-ne (x ∷ xs) h = λ e. cc

Same-refl : (m : Master) → Same m m
Same-refl m = record {
  cubes = refl;
  width = refl;
  incumbent = refl;
  sat_found = refl;
  unknown_seen = refl;
  original_worker_active = refl;
  original_proved_unsat = refl;
  original_proved_optimum = refl;
  stop_sent = refl;
}

Same-trans : (l m n : Master) → Same l m → Same m n → Same l n
Same-trans l m n p q = record {
  cubes = q.cubes ∙ p.cubes;
  width = q.width ∙ p.width;
  incumbent = q.incumbent ∙ p.incumbent;
  sat_found = q.sat_found ∙ p.sat_found;
  unknown_seen = q.unknown_seen ∙ p.unknown_seen;
  original_worker_active = q.original_worker_active ∙ p.original_worker_active;
  original_proved_unsat = q.original_proved_unsat ∙ p.original_proved_unsat;
  original_proved_optimum = q.original_proved_optimum ∙ p.original_proved_optimum;
  stop_sent = q.stop_sent ∙ p.stop_sent;
}

module _ (cfg : Config) where
  -- One round for an idle worker.
  abbrev pub give : ℕ → Master → Master
  give k m = record (assign_cube cfg k m) { active_workers = m.active_workers + 1 }

  pub record Given (k : ℕ) (m m' : Master) : Type 0 where
    same : Same m m'
    valid : QueueIsValid m'
    covered : (σ : Assignment) → Covered σ m → Covered σ m'
    counted : m.active_workers ≡ busy_count m.slots → m'.active_workers ≡ busy_count m'.slots
    below : BusyBelow k m → BusyBelow (k + 1) m'

  give-Given :
      (k : ℕ) (m : Master)
      → k < length m.slots
      → QueueIsValid m
      → m.queue ≢ []
      → is_idle (get_or m.slots k (busy 0 0)) ≡ true
      → Given k m (give k m)
  give-Given k m w v ne free =
      let a = assign_cube-Assigned cfg k m w v ne in
      let (i, d, t) = a.taken in
      let old : get_or m.slots k idle ≡ idle =
        get_or-default m.slots k idle (busy 0 0) w ∙ idle_at (get_or m.slots k (busy 0 0)) free in
      record {
        same = record {
          cubes = a.same.cubes;
          width = a.same.width;
          incumbent = a.same.incumbent;
          sat_found = a.same.sat_found;
          unknown_seen = a.same.unknown_seen;
          original_worker_active = a.same.original_worker_active;
          original_proved_unsat = a.same.original_proved_unsat;
          original_proved_optimum = a.same.original_proved_optimum;
          stop_sent = a.same.stop_sent;
        };
        valid = a.valid;
        covered = λ σ c. elim (a.covered σ c) [
          | inl h ↦ absurd (subst (InSlot σ m.cubes) old h)
          | inr h ↦ h
        ];
        counted = λ e.
            let sum = total-set one_if_busy m.slots k (busy i d) idle w in
            let none_there : one_if_busy (get_or m.slots k idle) ≡ 0 = rw old refl in
            let now : busy_count (assign_cube cfg k m).slots
                ≡ busy_count (set m.slots k (busy i d)) =
              ap busy_count t in
            omega arith;
        below = λ before j lt.
            let at = get_or-set m.slots k j (busy i d) (busy 0 0) w in
            let now : get_or (assign_cube cfg k m).slots j (busy 0 0)
                ≡ get_or (set m.slots k (busy i d)) j (busy 0 0) =
              ap (λ ss. get_or ss j (busy 0 0)) t in
            rw (now ∙ at) (elim (Bool-cases (k == j)) [
              | inl e ↦ rw e refl
              | inr e ↦ rw e (before j (ground (arith, e)))
            ]);
      }

  Given-Dispatched : (k : ℕ) (m m1 m2 : Master) → Given k m m1 → Dispatched m1 m2 → Dispatched m m2
  Given-Dispatched k m m1 m2 g d = record {
    same = Same-trans m m1 m2 g.same d.same;
    valid = d.valid;
    covered = λ σ c. d.covered σ (g.covered σ c);
    counted = λ e. d.counted (g.counted e);
    working = d.working;
  }

  dispatch-Dispatched :
      (n k : ℕ) (m : Master)
      → k + n ≡ length m.slots
      → QueueIsValid m
      → BusyBelow k m
      → Dispatched m (dispatch cfg n k m)
  unfolding dispatch
  dispatch-Dispatched zero k m w v before = record {
    same = Same-refl m;
    valid = v;
    covered = λ σ c. c;
    counted = λ e. e;
    working = inr (λ i lt. before i (omega arith));
  }
  dispatch-Dispatched (suc n) k m w v before = elim (Bool-cases (is_empty m.queue)) [
    | inl e ↦
        rw (e, dispatch)
          (record {
            same = Same-refl m;
            valid = v;
            covered = λ σ c. c;
            counted = λ c. c;
            working = inl (is_empty-eq m.queue e);
          })
    | inr e ↦ elim (Bool-cases (is_idle (get_or m.slots k (busy 0 0)))) [
      | inl free ↦
          let g = give-Given k m (omega arith) v (is_empty-ne m.queue e) free in
          let wide = g.same.width in
          rw (e, free, dispatch)
            (Given-Dispatched k m (give k m) (dispatch cfg n (k + 1) (give k m)) g
              (dispatch-Dispatched n (k + 1) (give k m) (omega arith) g.valid (g.below before)))
      | inr held ↦
          rw (e, held, dispatch)
            (dispatch-Dispatched n (k + 1) m (omega arith) v (λ i lt. elim (Bool-cases (i == k)) [
              | inl q ↦ let eq : i ≡ k = ground (arith, q) in rw eq held
              | inr q ↦ before i (ground (arith, q))
            ]))
    ]
  ]

  -- From a queue of indices of cubes, the loop that gives out work leaves no worker idle while a cube
  -- waits, loses no open cube, and keeps the count of active workers right; cubes, incumbent and flags stay
  -- as they were.
  pub dispatch-all :
      (m : Master) → QueueIsValid m → Dispatched m (dispatch cfg (length m.slots) 0 m)
  dispatch-all m v =
      dispatch-Dispatched (length m.slots) 0 m (omega arith) v (λ i lt. absurd (omega arith))
