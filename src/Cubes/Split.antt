-- ===== src/Cubes/Split.antt =====
-- The initial split: the workers of a group together cover every model of the formula.
use cube_conquer_pb.Base.{
  ℕ, zero, suc, ◌+◌, ◌-◌, ◌*◌, ◌/◌, ◌≡◌, refl, sym, subst, true, false, not, ◌&&◌, ◌||◌, List, [],
  ◌∷◌, ◌++◌, arith, Bool-cases, Option, none, some, inl, inr, length, length-append, leb, ltb, ◌==◌,
  ◌≤◌, ◌<◌,
}
use cube_conquer_pb.Constraint.{Lit, neg}
use cube_conquer_pb.Constraint.Semantics.{Assignment, holds}
use cube_conquer_pb.Cubes.{
  Backend, Heuristic, Params, Gen, push_cube, explore, first_lit, leave, probe, Probed, dead, ready,
  out_of_fuel, generate_cubes_rec, generate_cubes, max_cube_generation_depth,
}
use cube_conquer_pb.Cubes.Laws.{AllHold, Laws}
use cube_conquer_pb.Cubes.Probe.{ProbeSound, node_probe-Sound}
use cube_conquer_pb.Cubes.Branch.{Covers, found, AllHold-snoc, either_sign, push_cube-Covers}
use cube_conquer_pb.Cubes.Node.{full_gen, full_gen-Covers}
use cube_conquer_pb.Cubes.Cover.{generate_cubes_rec-Covers, start}

module _ (b : Backend) (h : Heuristic) (p : Params) (Solves : Assignment → Type 0)
    (laws : Laws b Solves) where
  open b use {State, assigned_vars, assume_and_propagate, backtrack}
  open h use {grow, exceeds}
  open laws use {decisions}

  -- Some worker of the group returns and covers the assignment.
  abbrev pub SomeWorker : ℕ → (ℕ → Option (Gen b h p)) → Assignment → Type 0
  SomeWorker nw run σ =
      (wid : ℕ) × (wid < nw) × (g' : Gen b h p) × (run wid ≡ some g') × Covers p σ g'

  explore-some :
      (below : List Lit → Gen b h p → Option (Gen b h p)) (current : List Lit) (l : Lit)
      (g g' : Gen b h p)
      → (assume_and_propagate l g.solver).0 ≡ true
      → below (current ++ l ∷ []) (record g { solver = (assume_and_propagate l g.solver).1 })
        ≡ some g'
      → explore b h p below current l g ≡ some (record g' { solver = backtrack 1 g'.solver })
  unfolding explore
  explore-some below current l g g' e f = rw (e, f, explore) refl

  -- A branch whose literal holds in a model does not fail.
  opens :
      (σ : Assignment) (l : Lit) (s : State)
      → Solves σ
      → AllHold σ (decisions s)
      → holds σ l ≡ true
      → (assume_and_propagate l s).0 ≡ true
  opens σ l s m d y = elim (Bool-cases (assume_and_propagate l s).0) [
    | inl e ↦ e
    | inr e ↦ let no = laws.refutes σ l s e m d in absurd cc
  ]

  abbrev Group : ℕ → ℕ → List Lit → Gen b h p → Assignment → Type 0
  Group fuel nw current g σ =
      SomeWorker nw (λ wid. generate_cubes_rec b h p fuel wid nw current g) σ

  -- The group below a branch that a model takes.
  below_branch :
      (fuel nw : ℕ) (current : List Lit) (l : Lit) (g : Gen b h p) (σ : Assignment)
      → ((current : List Lit) (g : Gen b h p) (σ : Assignment)
          → length current ≤ 11
          → 12 ≤ length current + fuel
          → Solves σ
          → AllHold σ (decisions g.solver)
          → AllHold σ current
          → Group fuel nw current g σ)
      → length current < 11
      → 12 ≤ length current + suc fuel
      → Solves σ
      → AllHold σ (decisions g.solver)
      → AllHold σ current
      → holds σ l ≡ true
      → SomeWorker nw (λ wid. explore b h p (generate_cubes_rec b h p fuel wid nw) current l g) σ
  below_branch fuel nw current l g σ next small enough m d on y =
      let len = length-append current (l ∷ []) in
      let t = (assume_and_propagate l g.solver).1 in
      let (wid, w, g', e, c) =
        next (current ++ l ∷ []) (record g { solver = t }) σ (omega (arith, len))
          (omega (arith, len)) m (subst (AllHold σ) (sym (laws.decisions-assume l g.solver)) (y, d))
          (AllHold-snoc b h p Solves laws σ current l on y) in
      (
        wid,
        w,
        record g' { solver = backtrack 1 g'.solver },
        explore-some (generate_cubes_rec b h p fuel wid nw) current l g g'
            (opens σ l g.solver m d y) e,
        c,
      )

  abbrev Next : ℕ → Type 0
  Next fuel =
      (nw : ℕ) (current : List Lit) (g : Gen b h p) (σ : Assignment)
      → 0 < nw
      → length current ≤ 11
      → 12 ≤ length current + fuel
      → Solves σ
      → AllHold σ (decisions g.solver)
      → AllHold σ current
      → Group fuel nw current g σ

  -- Both groups of a split, each on its branch: the model decides which one finds it.
  split_node :
      (fuel nw k : ℕ) (current : List Lit) (l : Lit) (g : Gen b h p) (σ : Assignment)
      → Next fuel
      → 1 < nw
      → length current < 11
      → 12 ≤ length current + suc fuel
      → Solves σ
      → AllHold σ (decisions g.solver)
      → AllHold σ current
      → SomeWorker nw
          (λ wid. leave b h p k (elim (ltb wid (nw / 2)) [
            | true ↦ explore b h p (generate_cubes_rec b h p fuel wid (nw / 2)) current l g
            | false ↦
                explore b h p
                  (generate_cubes_rec b h p fuel (wid - nw / 2) (nw - nw / 2))
                  current
                  (neg l)
                  g
          ]))
          σ
  split_node fuel nw k current l g σ next two small enough m d on =
      elim (either_sign b h p Solves laws σ l) [
        | inl y ↦
            let (wid, w, g', e, c) =
              below_branch fuel (nw / 2) current l g σ
                (λ cs g1 σ1 s1 e1. next (nw / 2) cs g1 σ1 (omega arith) s1 e1) small enough m d on
                y in
            let left : ltb wid (nw / 2) ≡ true = ground arith in
            (wid, omega arith, record g' { solver = backtrack k g'.solver }, rw (left, e) refl, c)
        | inr y ↦
            let (wid, w, g', e, c) =
              below_branch fuel (nw - nw / 2) current (neg l) g σ
                (λ cs g1 σ1 s1 e1. next (nw - nw / 2) cs g1 σ1 (omega arith) s1 e1) small enough m d
                on y in
            let right : ltb (wid + nw / 2) (nw / 2) ≡ false = ground arith in
            let same : wid + nw / 2 - nw / 2 ≡ wid = omega arith in
            (
              wid + nw / 2,
              omega arith,
              record g' { solver = backtrack k g'.solver },
              rw (right, same, e) refl,
              c,
            )
      ]

  -- A node of the search with a group of workers on it, given what its calls do.
  module _ (fuel : ℕ) (next : Next fuel) (nw : ℕ) (current : List Lit) (g : Gen b h p)
      (σ : Assignment) (w : 0 < nw) (small : length current ≤ 11)
      (enough : 12 ≤ length current + suc fuel) (m : Solves σ) (d : AllHold σ (decisions g.solver))
      (on : AllHold σ current) where
    abbrev g1 : Gen b h p
    g1 = record g { theta = grow g.theta }

    by_probe :
        (r : Probed b h p)
        → probe b h p (suc (length p.vars)) (length current) 0 g.solver ≡ r
        → ProbeSound b h p Solves laws
            (decisions g.solver)
            (probe b h p (suc (length p.vars)) (length current) 0 g.solver)
        → (p.distributed_split && ltb 1 nw) ≡ true
        → (g.cube_sat_found && not p.optimizing) ≡ false
        → leb max_cube_generation_depth (length current) ≡ false
        → exceeds (length current * assigned_vars g.solver) (grow g.theta) p.n_vars ≡ false
        → Group (suc fuel) nw current g σ
    unfolding generate_cubes_rec
    by_probe out_of_fuel q sound shared e f k = absurd (rw q at sound)
    by_probe (dead s) q sound shared e f k = let (r, c) = rw q at sound in absurd (c σ m d)
    by_probe (ready none n s) q sound shared e f k =
        let above = rw q at sound in
        let g2 : Gen b h p = record g { solver = s; theta = grow g.theta } in
        let g3 = full_gen b h p Solves laws current g2 in
        (
          0,
          w,
          record g3 { solver = backtrack n g3.solver },
          rw (e, f, k, q, generate_cubes_rec) refl,
          full_gen-Covers b h p Solves laws σ current g2 on,
        )
    by_probe (ready (some best) n s) q sound shared e f k =
        let above = rw q at sound in
        let g2 : Gen b h p = record g { solver = s; theta = grow g.theta } in
        rw (e, f, k, q, shared, generate_cubes_rec)
          (split_node fuel nw n current (first_lit b h p best) g2 σ next (ground (arith, shared))
            (ground (arith, f)) enough m (above.follow σ m d) on)

    shared_node : Group (suc fuel) nw current g σ
    unfolding generate_cubes_rec
    shared_node = elim (Bool-cases (p.distributed_split && ltb 1 nw)) [
      | inr alone ↦
          let (g', e, c) =
            generate_cubes_rec-Covers b h p Solves laws (suc fuel) 0 nw current g w alone small
              enough σ m d on in
          (0, w, g', e, c)
      | inl shared ↦ elim (Bool-cases (g.cube_sat_found && not p.optimizing)) [
        | inl e ↦ (0, w, g, rw (e, generate_cubes_rec) refl, found b h p Solves laws g e σ)
        | inr e ↦ elim (Bool-cases (leb max_cube_generation_depth (length current))) [
          | inl f ↦
              let first : (not p.distributed_split || ((nw == 1) || (0 == 0))) ≡ true =
                grind arith in
              (
                0,
                w,
                push_cube b h p current g1,
                rw (e, f, first, generate_cubes_rec) refl,
                push_cube-Covers b h p Solves laws σ current g1 on,
              )
          | inr f ↦
              elim (Bool-cases
                (exceeds (length current * assigned_vars g.solver) (grow g.theta) p.n_vars)) [
                  | inl k ↦ (
                    0,
                    w,
                    push_cube b h p current g1,
                    rw (e, f, k, generate_cubes_rec) refl,
                    push_cube-Covers b h p Solves laws σ current g1 on,
                  )
                  | inr k ↦
                      by_probe (probe b h p (suc (length p.vars)) (length current) 0 g.solver) refl
                        (node_probe-Sound b h p Solves laws (length current) g.solver) shared e f k
                ]
        ]
      ]
    ]

  group_rec : (fuel : ℕ) → Next fuel
  group_rec zero nw current g σ w small enough m d on = absurd (omega arith)
  group_rec (suc fuel) nw current g σ w small enough m d on =
      shared_node fuel
        (λ nw' cs g' σ' w' s' e' m' d' o'. group_rec fuel nw' cs g' σ' w' s' e' m' d' o') nw current
        g σ w small enough m d on

  -- The workers of a group, each with its number and the same solver state, miss no model together: for
  -- every model that agrees with the decisions there is a worker whose cube generation returns with a
  -- cube that the model satisfies, or that is not optimizing and returns with `cube_sat_found` set.
  pub generate_cubes-SomeWorker :
      (nw : ℕ) (s : State) (σ : Assignment)
      → 0 < nw
      → Solves σ
      → AllHold σ (decisions s)
      → SomeWorker nw (λ wid. generate_cubes b h p wid nw s) σ
  unfolding generate_cubes
  generate_cubes-SomeWorker nw s σ w m d =
      group_rec 12 nw [] (start b h p Solves laws s) σ w (omega arith) (omega arith) m d tt
