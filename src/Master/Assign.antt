-- ===== src/Master/Assign.antt =====
-- Handing cubes to workers keeps every open cube open.
use cube_conquer_pb.Base.{
  ℕ, ◌≡◌, ◌≢◌, refl, List, [], some, inl, inr, ◌⊎◌, All, Any, Any-set, Any-set_new, total, length,
  length-set, get_elem?, get_elem?-some, get_or, set, ◌<◌,
}
use cube_conquer_pb.Constraint.Semantics.{Assignment}
use cube_conquer_pb.Cubes.Laws.{AllHold}
use cube_conquer_pb.Tasks.{CubeTask}
use cube_conquer_pb.Tasks.Queue.{pop_queue-Popped}
use cube_conquer_pb.Master.{Config, Master, Slot, idle, busy, send_work_to_worker, assign_cube}

-- The assignment satisfies the cube at an index.
abbrev pub HoldsAt : Assignment → List CubeTask → ℕ → Type 0
HoldsAt σ cubes i = (t : CubeTask) × (get_elem? cubes i ≡ some t) × AllHold σ t.lits

abbrev pub InSlot : Assignment → List CubeTask → Slot → Type 0
InSlot σ cubes idle = ⊥
InSlot σ cubes (busy i d) = HoldsAt σ cubes i

-- A cube of the queue, or of a worker, holds in the assignment.
abbrev pub Covered : Assignment → Master → Type 0
Covered σ m = Any (HoldsAt σ m.cubes) m.queue ⊎ Any (InSlot σ m.cubes) m.slots

abbrev pub one_if_busy : Slot → ℕ
one_if_busy idle = 0
one_if_busy (busy i d) = 1

abbrev pub busy_count : List Slot → ℕ
busy_count slots = total one_if_busy slots

abbrev pub QueueIsValid : Master → Type 0
QueueIsValid m = All (λ i. i < length m.cubes) m.queue

-- What handing out cubes leaves as it was.
pub record Same (m m' : Master) : Type 0 where
  pub cubes : m'.cubes ≡ m.cubes
  pub width : length m'.slots ≡ length m.slots
  pub incumbent : m'.incumbent ≡ m.incumbent
  pub sat_found : m'.sat_found ≡ m.sat_found
  pub unknown_seen : m'.unknown_seen ≡ m.unknown_seen
  pub original_worker_active : m'.original_worker_active ≡ m.original_worker_active
  pub original_proved_unsat : m'.original_proved_unsat ≡ m.original_proved_unsat
  pub original_proved_optimum : m'.original_proved_optimum ≡ m.original_proved_optimum
  pub stop_sent : m'.stop_sent ≡ m.stop_sent

-- The slot `k` takes a cube of the queue.
pub record Assigned (k : ℕ) (m m' : Master) : Type 0 where
  pub same : Same m m'
  pub active : m'.active_workers ≡ m.active_workers
  pub valid : QueueIsValid m'
  pub covered :
      (σ : Assignment) → Covered σ m → InSlot σ m.cubes (get_or m.slots k idle) ⊎ Covered σ m'
  pub taken : (i : ℕ) × (d : ℕ) × (m'.slots ≡ set m.slots k (busy i d))

module _ (cfg : Config) where
  pub assign_cube-Assigned :
      (k : ℕ) (m : Master)
      → k < length m.slots
      → QueueIsValid m
      → m.queue ≢ []
      → Assigned k m (assign_cube cfg k m)
  unfolding assign_cube send_work_to_worker
  assign_cube-Assigned k m w v ne =
      let (j, rest, e, pop) = pop_queue-Popped m.cubes m.queue ne in
      let (inside, v') = pop.all (λ i. i < length m.cubes) v in
      let (t, f) = get_elem?-some m.cubes j inside in
      rw (e, f, assign_cube)
        (record {
          same = record {
            cubes = refl;
            width = length-set m.slots k (busy j t.split_depth);
            incumbent = refl;
            sat_found = refl;
            unknown_seen = refl;
            original_worker_active = refl;
            original_proved_unsat = refl;
            original_proved_optimum = refl;
            stop_sent = refl;
          };
          active = refl;
          valid = v';
          covered = λ σ c. elim c [
            | inl q ↦ elim (pop.any (HoldsAt σ m.cubes) q) [
              | inl h ↦
                  inr (inr (Any-set_new (InSlot σ m.cubes) m.slots k (busy j t.split_depth) w h))
              | inr h ↦ inr (inl h)
            ]
            | inr s ↦ elim (Any-set (InSlot σ m.cubes) m.slots k (busy j t.split_depth) idle s) [
              | inl h ↦ inl h
              | inr h ↦ inr (inr h)
            ]
          ];
          taken = (j, t.split_depth, refl);
        })
