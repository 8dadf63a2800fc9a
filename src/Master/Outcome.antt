-- ===== src/Master/Outcome.antt =====
-- What the result that the master prints says of the problem.
use cube_conquer_pb.Base.{
  ℕ, suc, ◌≡◌, refl, true, false, List, [], ◌∷◌, Bool-cases, inl, inr, ◌⊎◌, arith, Any, here, there,
  ℤ, ◌≤ℤ◌, ◌<ℤ◌, get_or, length, ◌<◌,
}
use cube_conquer_pb.Constraint.Semantics.{Assignment}
use cube_conquer_pb.Incumbent.{no_upper_bound}
use cube_conquer_pb.Tasks.{CubeTask}
use cube_conquer_pb.Master.{
  Config, Master, Slot, idle, busy, is_idle, Message, handle_message, main_loop, goes_on, Verdict,
  verdict, sat, unsat, unknown, best, optimum,
}
use cube_conquer_pb.Master.Assign.{HoldsAt, InSlot, Covered, busy_count}
use cube_conquer_pb.Master.Next.{Inv, IsBusy}
use cube_conquer_pb.Master.Honest.{IsCost, Tells}
use cube_conquer_pb.Master.Handle.{Remains, Good}
use cube_conquer_pb.Master.Run.{handle_message-Good}

InSlot-counted :
    (σ : Assignment) (cubes : List CubeTask) (slots : List Slot)
    → Any (InSlot σ cubes) slots
    → 0 < busy_count slots
InSlot-counted σ cubes [] h = elim h [ ]
InSlot-counted σ cubes (idle ∷ slots) (here h) = absurd h
InSlot-counted σ cubes (busy i d ∷ slots) (here h) = omega arith
InSlot-counted σ cubes (s ∷ slots) (there h) = omega (arith, InSlot-counted σ cubes slots h)

all_idle :
    (slots : List Slot)
    → busy_count slots ≡ 0
    → 0 < length slots
    → is_idle (get_or slots 0 (busy 0 0)) ≡ true
all_idle [] e w = absurd (omega arith)
all_idle (idle ∷ slots) e w = refl
all_idle (busy i d ∷ slots) e w = absurd (omega arith)

module _ (Left : ℤ → Assignment → Type 0) where
  -- Once no worker is active, no cube is open.
  nothing_open :
      (m : Master) → Inv Left m → m.active_workers ≡ 0 → (σ : Assignment) → Covered σ m → ⊥
  nothing_open m inv none_left σ c =
      let count = inv.counted in
      let free : busy_count m.slots ≡ 0 = omega arith in
      elim c [
        | inr s ↦ (let some_busy = InSlot-counted σ m.cubes m.slots s in omega arith)
        | inl q ↦ elim inv.working [
          | inl e ↦ no_queue m.queue e q
          | inr all ↦
              let first = all_idle m.slots free inv.staffed in absurd (cc (all 0 inv.staffed))
        ]
      ]
    where
      no_queue : (queue : List ℕ) → queue ≡ [] → Any (HoldsAt σ m.cubes) queue → ⊥
      no_queue [] e h = elim h [ ]
      no_queue (i ∷ is) e h = cc

  -- When the loop has ended without a model or an unknown answer, nothing is left to be found.
  nothing-Left :
      (m : Master)
      → Inv Left m
      → goes_on m ≡ false
      → m.sat_found ≡ false
      → m.unknown_seen ≡ false
      → (σ : Assignment) → Left m.incumbent.best_cost σ
      → ⊥
  unfolding goes_on
  nothing-Left m inv e s u σ l = elim (inv.open_cubes σ l) [
    | inl (inl q) ↦ cc
    | inl (inr q) ↦ cc
    | inr c ↦ elim (Bool-cases m.original_proved_unsat) [
      | inl p ↦ inv.proved (inl p) σ l
      | inr p ↦ elim (Bool-cases m.original_proved_optimum) [
        | inl q ↦ inv.proved (inr q) σ l
        | inr q ↦ elim (Bool-cases m.stop_sent) [
          | inl h ↦ nothing_open m inv (inv.stopped h) σ c
          | inr h ↦ nothing_open m inv (ground (arith, e, s, p, q, h)) σ c
        ]
      ]
    ]
  ]

some_busy :
    (slots : List Slot)
    → 0 < busy_count slots
    → (k : ℕ) × ((k < length slots) × (is_idle (get_or slots k idle) ≡ false))
some_busy [] h = absurd (omega arith)
some_busy (busy i d ∷ slots) h = (0, (omega arith, refl))
some_busy (idle ∷ slots) h =
    let (k, (w, e)) = some_busy slots (omega arith) in (suc k, (omega arith, e))

module _ (cfg : Config) (Model Lost : Assignment → Type 0) (cost : Assignment → ℤ) where
  -- What a printed result claims. A cost of INT_MAX or more is not seen, nor is a lost model.
  abbrev pub Says : Verdict → Type 0
  Says sat = (σ : Assignment) × Model σ
  Says unsat =
      (σ : Assignment)
      → Model σ
      → (cfg.optimizing ≡ true → (cost σ <ℤ no_upper_bound) × (Lost σ → ⊥))
      → ⊥
  Says unknown = Unit
  Says (best c) = IsCost cfg.optimizing Model Lost cost c
  Says (optimum c) =
      IsCost cfg.optimizing Model Lost cost c
      × ((σ : Assignment) → Model σ → (Lost σ → ⊥) → c ≤ℤ cost σ)

  -- Every message that the loop takes tells the truth to the master of that moment.
  abbrev pub IsHonest : List Message → Master → Type 0
  IsHonest [] m = Unit
  IsHonest (msg ∷ msgs) m =
      goes_on m ≡ true
      → Tells cfg.optimizing Model Lost cost cfg.first_cube_worker msg m
        × IsHonest msgs (handle_message cfg msg m)

  module _ (minimizing : cfg.minimizing ≡ true) where
    pub main_loop-Good :
        (msgs : List Message) (m : Master)
        → Good cfg Model Lost cost minimizing m
        → IsHonest msgs m
        → Good cfg Model Lost cost minimizing (main_loop cfg msgs m)
    unfolding main_loop
    main_loop-Good [] m g h = g
    main_loop-Good (msg ∷ msgs) m g h = elim (Bool-cases (goes_on m)) [
      | inr e ↦ simp (e, main_loop) g
      | inl e ↦
          let (now, later) = h e in
          simp (e, main_loop)
            (main_loop-Good msgs (handle_message cfg msg m)
              (handle_message-Good cfg Model Lost cost minimizing msg m g now) later)
    ]

    verdict_decides :
        (m : Master)
        → Good cfg Model Lost cost minimizing m
        → goes_on m ≡ false
        → cfg.optimizing ≡ false
        → Says (verdict cfg m)
    unfolding verdict
    verdict_decides m g e o = elim (Bool-cases m.sat_found) [
      | inl s ↦ let (_, σ, h) = g.satisfied s in simp (o, s, verdict) (σ, h)
      | inr s ↦ elim (Bool-cases m.unknown_seen) [
        | inl u ↦ simp (o, s, u, verdict) tt
        | inr u ↦
            simp (o, s, u, verdict)
              (λ σ h _.
                nothing-Left (Remains cfg Model Lost cost minimizing) m g.inv e s u σ
                  (h, λ p. absurd (cc)))
      ]
    ]

    verdict_optimizes :
        (m : Master)
        → Good cfg Model Lost cost minimizing m
        → goes_on m ≡ false
        → cfg.optimizing ≡ true
        → Says (verdict cfg m)
    unfolding verdict
    verdict_optimizes m g e o =
        let s : m.sat_found ≡ false = elim (Bool-cases m.sat_found) [
          | inl s ↦ let (p, _, _) = g.satisfied s in absurd (cc)
          | inr s ↦ s
        ] in
        elim (Bool-cases m.incumbent.feasible_seen) [
          | inl f ↦ elim (Bool-cases m.unknown_seen) [
            | inl u ↦ simp (o, f, u, verdict) (g.sound.reached f)
            | inr u ↦
                simp (o, f, u, verdict)
                  (
                    g.sound.reached f,
                    λ σ h kept. at_most σ (λ lt.
                        nothing-Left (Remains cfg Model Lost cost minimizing) m g.inv e s u σ
                          (h, λ _. (lt, kept))),
                  )
          ]
          | inr f ↦ elim (Bool-cases m.unknown_seen) [
            | inl u ↦ simp (o, f, u, verdict) tt
            | inr u ↦
                let most = g.sound.unseen f in
                simp (o, f, u, verdict)
                  (λ σ h lt.
                    nothing-Left (Remains cfg Model Lost cost minimizing) m g.inv e s u σ
                      (h, λ _. rw most (lt refl)))
          ]
        ]
      where
        at_most :
            (σ : Assignment)
            → (cost σ <ℤ m.incumbent.best_cost → ⊥)
            → m.incumbent.best_cost ≤ℤ cost σ
        at_most σ h = ground (arith, h)

    pub verdict-Says :
        (m : Master)
        → Good cfg Model Lost cost minimizing m
        → goes_on m ≡ false
        → Says (verdict cfg m)
    verdict-Says m g e = elim (Bool-cases cfg.optimizing) [
      | inl o ↦ verdict_optimizes m g e o
      | inr o ↦ verdict_decides m g e o
    ]

    -- When minimising or without an objective, and when the invariant holds at the start and every message
    -- taken tells the truth: wherever the loop waits for a message, the original worker is active or some
    -- cube worker has a cube.
    pub main_loop-SomeWorker :
        (msgs : List Message) (m : Master)
        → Good cfg Model Lost cost minimizing m
        → IsHonest msgs m
        → goes_on (main_loop cfg msgs m) ≡ true
        → ((main_loop cfg msgs m).original_worker_active ≡ true)
          ⊎ ((k : ℕ) × IsBusy k (main_loop cfg msgs m))
    unfolding goes_on
    main_loop-SomeWorker msgs m g h e =
        let m' = main_loop cfg msgs m in
        let g' = main_loop-Good msgs m g h in
        elim (Bool-cases m'.original_worker_active) [
          | inl o ↦ inl o
          | inr o ↦
              let count = g'.inv.counted in
              let some_active : 0 < m'.active_workers = ground (arith, e, o) in
              inr (some_busy m'.slots (omega arith))
        ]
