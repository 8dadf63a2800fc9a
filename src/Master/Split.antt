-- ===== src/Master/Split.antt =====
-- A split: the subcubes take the place of the cube that the worker had.
use cube_conquer_pb.Base.{
  ℕ, zero, suc, ◌+◌, ◌-◌, ◌≡◌, ◌≢◌, refl, sym, ◌∙◌, subst, false, List, [], ◌∷◌, ◌++◌, Option-cases,
  inl, inr, ◌⊎◌, arith, All, All-append, All-map_le, Any, here, there, Any-set, Any-map_le,
  Any-append_left, Any-append_right, total-set, length, length-append, length-set, ℤ, get_elem?,
  get_elem?-append, get_elem?-append_right, get_or, set, ◌<◌,
}
use cube_conquer_pb.Constraint.{Lit}
use cube_conquer_pb.Constraint.Semantics.{Assignment}
use cube_conquer_pb.Cubes.Laws.{AllHold}
use cube_conquer_pb.Tasks.{CubeTask, ConstraintSet, insert_all, no_lower_bound}
use cube_conquer_pb.Master.{
  Config, Master, Slot, idle, busy, is_idle, Result, max_ℤ, child_tasks, indices, split_cubes,
  split_result, dispatch,
}
use cube_conquer_pb.Master.Assign.{InSlot, HoldsAt, one_if_busy, busy_count, QueueIsValid}
use cube_conquer_pb.Master.Dispatch.{dispatch-all}
use cube_conquer_pb.Master.Next.{
  Settled, IsLeft, Open, Inv, IsBusy, Proved, Settled-Same, Proved-Same, one_if_busy-not_idle,
}

-- The tasks of the subcubes stand at their indices.
children-HoldsAt :
    (σ : Assignment) (from depth : ℕ) (cs : ConstraintSet) (lb : ℤ) (ls : List (List Lit))
    → Any (λ l. AllHold σ l) ls
    → Any
        (λ i. (j : ℕ) × (i ≡ from + j) × HoldsAt σ (child_tasks ls depth cs lb) j)
        (indices from (length ls))
children-HoldsAt σ from depth cs lb [] h = elim h [ ]
children-HoldsAt σ from depth cs lb (l ∷ ls) (here h) = here (
  0,
  omega arith,
  (record { lits = l; split_depth = depth; learned_constraints = cs; lower_bound = lb }, refl, h),
)
children-HoldsAt σ from depth cs lb (l ∷ ls) (there h) = there (
    Any-map_le (λ i. (j : ℕ) × (i ≡ from + 1 + j) × HoldsAt σ (child_tasks ls depth cs lb) j)
      (λ i. (j : ℕ) × (i ≡ from + j) × HoldsAt σ (child_tasks (l ∷ ls) depth cs lb) j)
      (indices (from + 1) (length ls)) (λ i x. (let (j, e, at) = x in (suc j, omega arith, at)))
      (children-HoldsAt σ (from + 1) depth cs lb ls h))

length-child_tasks :
    (ls : List (List Lit)) (depth : ℕ) (cs : ConstraintSet) (lb : ℤ)
    → length (child_tasks ls depth cs lb) ≡ length ls
length-child_tasks [] depth cs lb = refl
length-child_tasks (l ∷ ls) depth cs lb = omega (arith, length-child_tasks ls depth cs lb)

pub indices-lt : (from n : ℕ) → All (λ i. i < from + n) (indices from n)
indices-lt from zero = tt
indices-lt from (suc n) = (
  omega arith,
  All-map_le (λ i. i < from + 1 + n) (λ i. i < from + suc n) (indices (from + 1) n)
      (λ i h. omega arith) (indices-lt (from + 1) n),
)

HoldsAt-append :
    (σ : Assignment) (cubes more : List CubeTask) (i : ℕ)
    → HoldsAt σ cubes i
    → HoldsAt σ (cubes ++ more) i
HoldsAt-append σ cubes more i (t, e, h) = (t, get_elem?-append cubes more i t e, h)

InSlot-append :
    (σ : Assignment) (cubes more : List CubeTask) (s : Slot)
    → InSlot σ cubes s
    → InSlot σ (cubes ++ more) s
InSlot-append σ cubes more idle h = h
InSlot-append σ cubes more (busy i d) h = HoldsAt-append σ cubes more i h

children-append :
    (σ : Assignment) (cubes : List CubeTask) (depth : ℕ) (cs : ConstraintSet) (lb : ℤ)
    (ls : List (List Lit))
    → Any (λ l. AllHold σ l) ls
    → Any (HoldsAt σ (cubes ++ child_tasks ls depth cs lb)) (indices (length cubes) (length ls))
children-append σ cubes depth cs lb ls h =
    let tasks = child_tasks ls depth cs lb in
    Any-map_le (λ i. (j : ℕ) × (i ≡ length cubes + j) × HoldsAt σ tasks j)
      (HoldsAt σ (cubes ++ tasks)) (indices (length cubes) (length ls))
      (λ i x.
        (let (j, e, (t, at, holds)) = x in
          (t, rw e (get_elem?-append_right cubes tasks j ∙ at), holds)))
      (children-HoldsAt σ (length cubes) depth cs lb ls h)

slot_busy : (s : Slot) → is_idle s ≡ false → (i : ℕ) × (d : ℕ) × (s ≡ busy i d)
slot_busy idle h = cc
slot_busy (busy i d) h = (i, d, refl)

module _ (Left : ℤ → Assignment → Type 0) where
  -- The subcubes cover what is left of the cube of the slot.
  abbrev pub Splits : ℕ → List (List Lit) → Master → Type 0
  Splits k subs m =
      (σ : Assignment)
      → IsLeft Left m σ
      → InSlot σ m.cubes (get_or m.slots k idle)
      → Settled m ⊎ Any (λ l. AllHold σ l) subs

  module _ (cfg : Config) (k : ℕ) (r : Result) (m : Master) (inv : Inv Left m) (held : IsBusy k m)
      (splits : Splits k r.subcubes m) where
    -- What `split_cubes` leaves, but for the idle worker.
    record Ready (m' : Master) : Type 0 where
      best : m'.incumbent ≡ m.incumbent
      found : m'.sat_found ≡ m.sat_found
      open_cubes : Open Left m'
      proved : Proved m' → Proved m
      counted : m'.active_workers ≡ busy_count m'.slots
      valid : QueueIsValid m'
      flag : m'.stop_sent ≡ m.stop_sent
      width : length m'.slots ≡ length m.slots

    with_children :
        (depth : ℕ) (cs : ConstraintSet) (lb : ℤ)
        → Ready (record m {
          slots = set m.slots k idle;
          active_workers = m.active_workers - 1;
          cubes = m.cubes ++ child_tasks r.subcubes depth cs lb;
          queue = m.queue ++ indices (length m.cubes) (length r.subcubes);
        })
    with_children depth cs lb =
        let tasks = child_tasks r.subcubes depth cs lb in
        let new = indices (length m.cubes) (length r.subcubes) in
        let cubes = m.cubes ++ tasks in
        record {
          best = refl;
          found = refl;
          open_cubes = λ σ l. elim (inv.open_cubes σ l) [
            | inl s ↦ inl s
            | inr (inl q) ↦ inr (
                inl (
                  Any-append_left (HoldsAt σ cubes) m.queue new (
                    Any-map_le (HoldsAt σ m.cubes) (HoldsAt σ cubes) m.queue
                      (HoldsAt-append σ m.cubes tasks) q)))
            | inr (inr s) ↦ elim (Any-set (InSlot σ m.cubes) m.slots k idle idle s) [
              | inr h ↦ inr (
                  inr (
                    Any-map_le (InSlot σ m.cubes) (InSlot σ cubes) (set m.slots k idle)
                      (InSlot-append σ m.cubes tasks) h))
              | inl h ↦ elim (splits σ l h) [
                | inl z ↦ inl z
                | inr subs ↦ inr (
                    inl (
                      Any-append_right (HoldsAt σ cubes) m.queue new
                        (children-append σ m.cubes depth cs lb r.subcubes subs)))
              ]
            ]
          ];
          proved = λ q. q;
          counted =
              let sum = total-set one_if_busy m.slots k idle idle held.0 in
              let one = one_if_busy-not_idle (get_or m.slots k idle) held.1 in
              let old = inv.counted in omega arith;
          valid =
              let grown : length cubes ≡ length m.cubes + length r.subcubes =
                omega
                  (arith, length-append m.cubes tasks, length-child_tasks r.subcubes depth cs lb) in
              rw grown (
                All-append (λ i. i < length m.cubes + length r.subcubes) m.queue new
                  (All-map_le (λ i. i < length m.cubes)
                    (λ i. i < length m.cubes + length r.subcubes) m.queue (λ i h. omega arith)
                    inv.valid)
                  (indices-lt (length m.cubes) (length r.subcubes)));
          flag = refl;
          width = length-set m.slots k idle;
        }

    still_busy : m.active_workers ≢ 0
    still_busy e =
        let sum = total-set one_if_busy m.slots k idle idle held.0 in
        let one = one_if_busy-not_idle (get_or m.slots k idle) held.1 in
        let old = inv.counted in omega arith

    unchanged : Ready m
    unchanged = record {
      best = refl;
      found = refl;
      open_cubes = inv.open_cubes;
      proved = λ q. q;
      counted = inv.counted;
      valid = inv.valid;
      flag = refl;
      width = refl;
    }

    split_cubes-Ready : Ready (split_cubes cfg k r m)
    unfolding split_cubes
    split_cubes-Ready =
        let (i, d, e) = slot_busy (get_or m.slots k idle) held.1 in
        elim (Option-cases (get_elem? m.cubes i)) [
          | inl none_there ↦ rw (e, none_there, split_cubes) unchanged
          | inr (t, f) ↦
              rw (e, f, split_cubes)
                (with_children (d + 1) (insert_all r.new_constraints t.learned_constraints) (
                  max_ℤ (get_or m.lb_of_worker (cfg.first_cube_worker + k) no_lower_bound)
                    m.global_lower_bound))
        ]

    -- The split as a whole, with the work for the idle workers.
    pub split_result-Inv : Inv Left (split_result cfg k r m)
    unfolding split_result
    split_result-Inv =
        let m1 = split_cubes cfg k r m in
        let ready = split_cubes-Ready in
        let d = dispatch-all cfg m1 ready.valid in
        let m2 = dispatch cfg (length m1.slots) 0 m1 in
        let back : (σ : Assignment) → IsLeft Left m2 σ → IsLeft Left m1 σ =
          λ σ. subst (λ inc. Left inc.best_cost σ) d.same.incumbent in
        record {
          open_cubes = λ σ l. elim (ready.open_cubes σ (back σ l)) [
            | inl s ↦ inl (Settled-Same m1 m2 d.same s)
            | inr c ↦ inr (d.covered σ c)
          ];
          proved = λ q σ l.
              inv.proved (ready.proved (Proved-Same m1 m2 d.same q)) σ
                (subst (λ inc. Left inc.best_cost σ) ready.best (back σ l));
          counted = d.counted ready.counted;
          valid = d.valid;
          working = d.working;
          staffed = rw (d.same.width ∙ ready.width) (inv.staffed);
          stopped =
              λ q. absurd (still_busy (inv.stopped (sym ready.flag ∙ sym d.same.stop_sent ∙ q)));
        }

    pub split_result-same :
        ((split_result cfg k r m).incumbent ≡ m.incumbent)
        × ((split_result cfg k r m).sat_found ≡ m.sat_found)
    unfolding split_result
    split_result-same =
        let ready = split_cubes-Ready in
        let d = dispatch-all cfg (split_cubes cfg k r m) ready.valid in
        (d.same.incumbent ∙ ready.best, d.same.sat_found ∙ ready.found)
