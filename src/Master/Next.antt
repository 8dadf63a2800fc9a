-- ===== src/Master/Next.antt =====
-- What the master keeps true between two messages, and a worker that takes its next cube.
use cube_conquer_pb.Base.{
  ℕ, ◌+◌, ◌-◌, ◌≡◌, ◌≢◌, refl, sym, ◌∙◌, ap, subst, true, false, [], Bool-cases, inl, inr, ◌⊎◌,
  arith, Any-set, total-set, length, length-set, ℤ, get_or, get_or-set, set, ◌==◌, ◌<◌,
}
use cube_conquer_pb.Constraint.Semantics.{Assignment}
use cube_conquer_pb.Master.{
  Config, Master, Slot, idle, busy, is_idle, is_empty, assign_cube, next_cube, stop_all,
}
use cube_conquer_pb.Master.Assign.{
  InSlot, Covered, one_if_busy, busy_count, QueueIsValid, Same, assign_cube-Assigned,
}
use cube_conquer_pb.Master.Dispatch.{Working, is_empty-eq, is_empty-ne}

-- The global result is known to be open.
abbrev pub Settled : Master → Type 0
Settled m = (m.sat_found ≡ true) ⊎ (m.unknown_seen ≡ true)

pub Settled-Same : (m m' : Master) → Same m m' → Settled m → Settled m'
Settled-Same m m' s (inl e) = inl (s.sat_found ∙ e)
Settled-Same m m' s (inr e) = inr (s.unknown_seen ∙ e)

abbrev pub Proved : Master → Type 0
Proved m = (m.original_proved_unsat ≡ true) ⊎ (m.original_proved_optimum ≡ true)

pub Proved-Same : (m m' : Master) → Same m m' → Proved m' → Proved m
Proved-Same m m' s (inl e) = inl (sym s.original_proved_unsat ∙ e)
Proved-Same m m' s (inr e) = inr (sym s.original_proved_optimum ∙ e)

stays_busy :
    (m m' : Master) (k i d : ℕ)
    → m'.slots ≡ set m.slots k (busy i d)
    → k < length m.slots
    → ((j : ℕ) → j < length m.slots → is_idle (get_or m.slots j (busy 0 0)) ≡ false)
    → (j : ℕ) → j < length m.slots
    → is_idle (get_or m'.slots j (busy 0 0)) ≡ false
stays_busy m m' k i d t w all j lt =
    let at = get_or-set m.slots k j (busy i d) (busy 0 0) w in
    let now : get_or m'.slots j (busy 0 0) ≡ get_or (set m.slots k (busy i d)) j (busy 0 0) =
      ap (λ ss. get_or ss j (busy 0 0)) t in
    rw (now ∙ at) (elim (Bool-cases (k == j)) [ inl e ↦ rw e refl | inr e ↦ rw e (all j lt) ])

-- A slot is busy.
abbrev pub IsBusy : ℕ → Master → Type 0
IsBusy k m = (k < length m.slots) × (is_idle (get_or m.slots k idle) ≡ false)

pub one_if_busy-not_idle : (s : Slot) → is_idle s ≡ false → one_if_busy s ≡ 1
one_if_busy-not_idle idle h = cc
one_if_busy-not_idle (busy i d) h = refl

-- `Left c σ`: while the best cost is `c`, the assignment `σ` is still to be found. Without an objective
-- it says that `σ` satisfies the formula, with one that it is also better than `c`.
module _ (Left : ℤ → Assignment → Type 0) where
  abbrev pub IsLeft : Master → Assignment → Type 0
  IsLeft m σ = Left m.incumbent.best_cost σ

  abbrev pub Open : Master → Type 0
  Open m = (σ : Assignment) → IsLeft m σ → Settled m ⊎ Covered σ m

  pub record Inv (m : Master) : Type 0 where
    pub open_cubes : Open m
    pub proved : Proved m → (σ : Assignment) → IsLeft m σ → ⊥
    pub counted : m.active_workers ≡ busy_count m.slots
    pub valid : QueueIsValid m
    pub working : Working m
    pub stopped : m.stop_sent ≡ true → m.active_workers ≡ 0
    pub staffed : 0 < length m.slots

  -- The cube of a slot is closed.
  abbrev pub Closes : ℕ → Master → Type 0
  Closes k m =
      (σ : Assignment) → IsLeft m σ → Settled m ⊎ (InSlot σ m.cubes (get_or m.slots k idle) → ⊥)

  module _ (cfg : Config) (k : ℕ) (m : Master) (inv : Inv m) (held : IsBusy k m)
      (closes : Closes k m) where
    -- There is a next cube.
    next_given :
        m.queue ≢ []
        → Inv (assign_cube cfg k (record m { cubes_processed = m.cubes_processed + 1 }))
    next_given ne =
        let m1 : Master = record m { cubes_processed = m.cubes_processed + 1 } in
        let a = assign_cube-Assigned cfg k m1 held.0 inv.valid ne in
        let (i, d, t) = a.taken in
        record {
          open_cubes = λ σ l0.
              let l : IsLeft m σ = subst (λ inc. Left inc.best_cost σ) a.same.incumbent l0 in
              elim (inv.open_cubes σ l) [
                | inl s ↦ inl (Settled-Same m1 (assign_cube cfg k m1) a.same s)
                | inr c ↦ elim (a.covered σ c) [
                  | inr c' ↦ inr c'
                  | inl h ↦ elim (closes σ l) [
                    | inl s ↦ inl (Settled-Same m1 (assign_cube cfg k m1) a.same s)
                    | inr shut ↦ absurd (shut h)
                  ]
                ]
              ];
          proved = λ q σ l0.
              inv.proved (Proved-Same m1 (assign_cube cfg k m1) a.same q) σ
                (subst (λ inc. Left inc.best_cost σ) a.same.incumbent l0);
          counted =
              let sum = total-set one_if_busy m.slots k (busy i d) idle held.0 in
              let one = one_if_busy-not_idle (get_or m.slots k idle) held.1 in
              let now = ap busy_count t in
              let act = a.active in let old = inv.counted in omega arith;
          valid = a.valid;
          working = elim inv.working [
            | inl q ↦ absurd (ne q)
            | inr all ↦ inr (λ j lt.
                (let wide = a.same.width in
                  stays_busy m (assign_cube cfg k m1) k i d t held.0 all j (omega arith)))
          ];
          stopped = λ e. a.active ∙ inv.stopped (sym a.same.stop_sent ∙ e);
          staffed = rw (a.same.width) (inv.staffed);
        }

    -- There is none: the worker is free.
    next_freed :
        m.queue ≡ []
        → Inv (record m {
          slots = set m.slots k idle;
          active_workers = m.active_workers - 1;
          cubes_processed = m.cubes_processed + 1;
        })
    next_freed e = record {
      open_cubes = λ σ l. elim (inv.open_cubes σ l) [
        | inl s ↦ inl s
        | inr (inl q) ↦ inr (inl q)
        | inr (inr s) ↦ elim (Any-set (InSlot σ m.cubes) m.slots k idle idle s) [
          | inr h ↦ inr (inr h)
          | inl h ↦ elim (closes σ l) [ inl z ↦ inl z | inr shut ↦ absurd (shut h) ]
        ]
      ];
      proved = inv.proved;
      counted =
          let sum = total-set one_if_busy m.slots k idle idle held.0 in
          let one = one_if_busy-not_idle (get_or m.slots k idle) held.1 in
          let old = inv.counted in omega arith;
      valid = inv.valid;
      working = inl e;
      stopped = λ q. (let none_left = inv.stopped q in omega arith);
      staffed = rw (length-set m.slots k idle) (inv.staffed);
    }

    -- Whether or not there is a next cube.
    pub next_cube-Inv : Inv (next_cube cfg k m)
    unfolding next_cube stop_all
    next_cube-Inv = elim (Bool-cases (is_empty m.queue)) [
      | inr e ↦ rw (e, next_cube) (next_given (is_empty-ne m.queue e))
      | inl e ↦
          let freed = next_freed (is_empty-eq m.queue e) in
          elim (Bool-cases (m.active_workers - 1 == 0)) [
            | inl z ↦
                rw (e, z, next_cube)
                  (record {
                    open_cubes = freed.open_cubes;
                    proved = freed.proved;
                    counted = freed.counted;
                    valid = freed.valid;
                    working = freed.working;
                    stopped = λ q. ground (arith, z);
                    staffed = freed.staffed;
                  })
            | inr z ↦ rw (e, z, next_cube) freed
          ]
    ]

    pub next_cube-same :
        ((next_cube cfg k m).incumbent ≡ m.incumbent)
        × ((next_cube cfg k m).sat_found ≡ m.sat_found)
    unfolding next_cube stop_all
    next_cube-same = elim (Bool-cases (is_empty m.queue)) [
      | inr e ↦
          let m1 : Master = record m { cubes_processed = m.cubes_processed + 1 } in
          let a = assign_cube-Assigned cfg k m1 held.0 inv.valid (is_empty-ne m.queue e) in
          rw (e, next_cube) (a.same.incumbent, a.same.sat_found)
      | inl e ↦ elim (Bool-cases (m.active_workers - 1 == 0)) [
        | inl z ↦ rw (e, z, next_cube) (refl, refl)
        | inr z ↦ rw (e, z, next_cube) (refl, refl)
      ]
    ]
