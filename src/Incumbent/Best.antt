-- ===== src/Incumbent/Best.antt =====
-- The incumbent is the best of the costs reported, and when its solution belongs to it.
use cube_conquer_pb.Base.{
  ◌≡◌, refl, ◌<◌, true, false, List, [], ◌∷◌, All, Any, here, there, length, ◌==◌, ℤ, ltb_ℤ,
  eq_of_parts, ◌≤ℤ◌, Bool-cases, inl, inr, ◌⊎◌, arith, sym, ◌∙◌, ap,
}
use cube_conquer_pb.Incumbent.{
  Incumbent, Solution, Report, cost_only, with_solution, upper_bound, best_solution_found,
  no_upper_bound, step, run,
}

abbrev pub cost_of : Report → ℤ
cost_of (cost_only c) = c
cost_of (with_solution c s) = c
cost_of (upper_bound c) = c

-- Before the first report the cost is INT_MAX, when minimising.
abbrev pub Fresh : Incumbent → Type 0
Fresh m = (m.has_best_cost ≡ true) ⊎ (m.best_cost ≡ no_upper_bound)

pub record Stepped (r : Report) (m m' : Incumbent) : Type 0 where
  pub fresh : Fresh m'
  pub falls : m'.best_cost ≤ℤ m.best_cost
  pub reached : m'.best_cost ≤ℤ cost_of r
  pub origin : (m'.best_cost ≡ m.best_cost) ⊎ (m'.best_cost ≡ cost_of r)

pub step-Stepped :
    (r : Report) (m : Incumbent)
    → Fresh m
    → cost_of r ≤ℤ no_upper_bound
    → m.best_cost ≤ℤ no_upper_bound
    → Stepped r m (step true r m)
unfolding step best_solution_found
step-Stepped (cost_only c) m f h k = elim (Bool-cases (ltb_ℤ c m.best_cost)) [
  | inl e ↦
      rw (e, step)
        (record {
          fresh = inl refl;
          falls = ground (arith, e);
          reached = omega arith;
          origin = inr refl;
        })
  | inr e ↦
      rw (e, step)
        (record {
          fresh = inl refl;
          falls = omega arith;
          reached = ground (arith, e);
          origin = inl refl;
        })
]
step-Stepped (with_solution c s) m f h k = elim (Bool-cases (ltb_ℤ c m.best_cost)) [
  | inl e ↦
      rw (e, step)
        (record {
          fresh = inl refl;
          falls = ground (arith, e);
          reached = omega arith;
          origin = inr refl;
        })
  | inr e ↦
      rw (e, step)
        (record {
          fresh = inl refl;
          falls = omega arith;
          reached = ground (arith, e);
          origin = inl refl;
        })
]
step-Stepped (upper_bound c) m f h k = elim (Bool-cases (ltb_ℤ c no_upper_bound)) [
  | inr e ↦
      rw (e, step)
        (record { fresh = f; falls = omega arith; reached = ground (arith, e); origin = inl refl })
  | inl e ↦ elim (Bool-cases m.has_best_cost) [
    | inl b ↦ elim (Bool-cases (ltb_ℤ c m.best_cost)) [
      | inl g ↦
          rw (e, b, g, step)
            (record {
              fresh = inl refl;
              falls = ground (arith, g);
              reached = omega arith;
              origin = inr refl;
            })
      | inr g ↦
          rw (e, b, g, step)
            (record {
              fresh = inl refl;
              falls = omega arith;
              reached = ground (arith, g);
              origin = inl refl;
            })
    ]
    | inr b ↦
        let most : m.best_cost ≡ no_upper_bound = elim f [ inl t ↦ absurd (cc) | inr t ↦ t ] in
        rw (e, b, step)
          (record { fresh = inl refl; falls = rw most h; reached = omega arith; origin = inr refl })
  ]
]

-- The cost of one of the reports, or the cost from before them.
abbrev pub Reported : ℤ → List Report → ℤ → Type 0
Reported start rs c = (c ≡ start) ⊎ Any (λ r. c ≡ cost_of r) rs

run-Best :
    (rs : List Report) (m : Incumbent)
    → Fresh m
    → m.best_cost ≤ℤ no_upper_bound
    → All (λ r. cost_of r ≤ℤ no_upper_bound) rs
    → ((run true rs m).best_cost ≤ℤ m.best_cost)
      × All (λ r. (run true rs m).best_cost ≤ℤ cost_of r) rs
      × Reported m.best_cost rs (run true rs m).best_cost
unfolding run
run-Best [] m f k h = (omega arith, tt, inl refl)
run-Best (r ∷ rs) m f k h =
    let st = step-Stepped r m f h.0 k in
    let fall = st.falls in
    let reach = st.reached in
    let (low, all, from) = run-Best rs (step true r m) st.fresh (omega arith) h.1 in
    (
      omega arith,
      (omega arith, all),
      elim from [
        | inr i ↦ inr (there i)
        | inl e ↦ elim st.origin [ inl o ↦ inl (e ∙ o) | inr o ↦ inr (here (e ∙ o)) ]
      ],
    )

abbrev pub initial : Incumbent
initial = record {
  best_cost = no_upper_bound;
  has_best_cost = false;
  best_solution = [];
  feasible_seen = false;
}

-- When minimising, after any sequence of reports whose costs are ints the best cost is at most each cost
-- reported, and it is one of them or INT_MAX, with which the master starts.
pub run-Reported :
    (rs : List Report)
    → All (λ r. cost_of r ≤ℤ no_upper_bound) rs
    → All (λ r. (run true rs initial).best_cost ≤ℤ cost_of r) rs
      × Reported no_upper_bound rs (run true rs initial).best_cost
run-Reported rs h =
    let (_, all, from) = run-Best rs initial (inr refl) (omega arith) h in (all, from)

-- A report that brings a solution, not empty, of its cost.
abbrev pub Backed : (Solution → ℤ) → Report → Type 0
Backed value (with_solution c s) = (c ≡ value s) × (c ≤ℤ no_upper_bound) × (0 < length s)
Backed value (cost_only c) = ⊥
Backed value (upper_bound c) = ⊥

-- Either there is no solution yet and the cost is INT_MAX, or the best cost is that of the solution.
abbrev pub Matches : (Solution → ℤ) → Incumbent → Type 0
Matches value m =
    ((m.best_solution ≡ []) × (m.best_cost ≡ no_upper_bound))
    ⊎ ((0 < length m.best_solution) × (m.best_cost ≡ value m.best_solution))

step-Matches :
    (value : Solution → ℤ) (c : ℤ) (s : Solution) (m : Incumbent)
    → Matches value m
    → c ≡ value s
    → c ≤ℤ no_upper_bound
    → 0 < length s
    → Matches value (step true (with_solution c s) m)
unfolding step best_solution_found
step-Matches value c s m k e h n = elim (Bool-cases (ltb_ℤ c m.best_cost)) [
  | inl b ↦ rw (b, step) (inr (n, e))
  | inr b ↦ elim (Bool-cases (length m.best_solution == 0)) [
    | inl z ↦
        rw (b, z, step)
          (elim k [
            | inl (q, most) ↦
                let last : c ≡ no_upper_bound =
                  eq_of_parts c no_upper_bound (ground (arith, b, most)) in
                inr (n, most ∙ sym last ∙ e)
            | inr (q, r) ↦ absurd (ground (arith, z))
          ])
    | inr z ↦
        rw (b, z, step)
          (elim k [ inl q ↦ absurd (ground (arith, z, ap length q.0)) | inr q ↦ inr q ])
  ]
]

run-Matches-from :
    (value : Solution → ℤ) (rs : List Report) (m : Incumbent)
    → Matches value m
    → All (Backed value) rs
    → Matches value (run true rs m)
unfolding run
run-Matches-from value [] m k h = k
run-Matches-from value (with_solution c s ∷ rs) m k h =
    let ((e, small, filled), later) = h in
    run-Matches-from value rs (step true (with_solution c s) m)
      (step-Matches value c s m k e small filled) later
run-Matches-from value (cost_only c ∷ rs) m k h = absurd h.0
run-Matches-from value (upper_bound c ∷ rs) m k h = absurd h.0

-- When minimising, and when every report brings a solution, not empty, of its cost, the solution that is
-- kept in the end has the best cost, or no solution is kept and the cost is INT_MAX.
pub run-Matches :
    (value : Solution → ℤ) (rs : List Report)
    → All (Backed value) rs
    → Matches value (run true rs initial)
run-Matches value rs h = run-Matches-from value rs initial (inl (refl, refl)) h

-- When minimising, a cost that is reported alone hides the solution that comes for it: once a solution is
-- kept, a better cost `k` by itself and then a solution of cost `k` leave the cost `k` with the old solution.
pub run-old_solution :
    (m : Incumbent) (k : ℤ) (sol : Solution)
    → 0 < length m.best_solution
    → ltb_ℤ k m.best_cost ≡ true
    → ((run true (cost_only k ∷ with_solution k sol ∷ []) m).best_cost ≡ k)
      × ((run true (cost_only k ∷ with_solution k sol ∷ []) m).best_solution ≡ m.best_solution)
unfolding run step best_solution_found
run-old_solution m k sol n e =
    let same : ltb_ℤ k k ≡ false = ground arith in
    let kept : (length m.best_solution == 0) ≡ false = ground arith in
    rw (e, same, kept, step, run) (refl, refl)
