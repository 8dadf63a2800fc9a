-- ===== src/Cubes/Cover.antt =====
-- Cube generation covers every model of the formula, for a worker that is alone on its subtree.
use cube_conquer_pb.Base.{
  ℕ, zero, suc, ◌+◌, ◌-◌, ◌*◌, ◌/◌, ◌≡◌, refl, false, not, ◌&&◌, ◌||◌, List, [], arith, Bool-cases,
  Option, none, some, Option-cases, inl, inr, length, leb, ltb, ◌==◌, ◌≤◌, ◌<◌,
}
use cube_conquer_pb.Constraint.{Lit, neg}
use cube_conquer_pb.Constraint.Semantics.{Assignment}
use cube_conquer_pb.Cubes.{
  Backend, Heuristic, Params, Gen, explore, first_lit, explore_both, probe, Probed, dead, ready,
  out_of_fuel, generate_cubes_rec, generate_cubes, max_cube_generation_depth,
}
use cube_conquer_pb.Cubes.Laws.{AllHold, Laws}
use cube_conquer_pb.Cubes.Probe.{ProbeSound, node_probe-Sound}
use cube_conquer_pb.Cubes.Branch.{Covers, found, leave-Done}
use cube_conquer_pb.Cubes.Node.{
  Alone, Share, Finished, stay, full_gen, full_gen-Finished, push_cube-Finished, one_branch,
  two_branches,
}

module _ (b : Backend) (h : Heuristic) (p : Params) (Solves : Assignment → Type 0)
    (laws : Laws b Solves) where
  open b use {State, assigned_vars}
  open h use {grow, exceeds}
  open laws use {decisions}

  abbrev pub FinishedAt : ℕ → List Lit → Gen b h p → Option (Gen b h p) → Type 0
  FinishedAt nw current g r = Finished b h p Solves laws nw current g r

  -- A node of the search, given what its calls do.
  module _ (fuel wid nw : ℕ) (current : List Lit) (g : Gen b h p)
      (next : (wid nw : ℕ) (current : List Lit) (g : Gen b h p)
        → 0 < nw
        → length current ≤ 11
        → 12 ≤ length current + fuel
        → FinishedAt nw current g (generate_cubes_rec b h p fuel wid nw current g))
      (some_worker : 0 < nw) (enough : 12 ≤ length current + suc fuel) where
    by_probe :
        (r : Probed b h p)
        → probe b h p (suc (length p.vars)) (length current) 0 g.solver ≡ r
        → ProbeSound b h p Solves laws
            (decisions g.solver)
            (probe b h p (suc (length p.vars)) (length current) 0 g.solver)
        → (g.cube_sat_found && not p.optimizing) ≡ false
        → leb max_cube_generation_depth (length current) ≡ false
        → exceeds (length current * assigned_vars g.solver) (grow g.theta) p.n_vars ≡ false
        → FinishedAt nw current g (generate_cubes_rec b h p (suc fuel) wid nw current g)
    unfolding generate_cubes_rec
    by_probe out_of_fuel q sound e f k = absurd (rw q at sound)
    by_probe (dead s) q sound e f k =
        let (r, c) = rw q at sound in
        let g2 : Gen b h p = record g { solver = s; theta = grow g.theta } in
        rw (e, f, k, q, generate_cubes_rec)
          (stay b h p Solves laws (Share b h p Solves laws nw current) g g2 r (λ σ x. x)
            (λ σ m d on. absurd (c σ m d)))
    by_probe (ready none n s) q sound e f k =
        let above = rw q at sound in
        let g2 : Gen b h p = record g { solver = s; theta = grow g.theta } in
        rw (e, f, k, q, generate_cubes_rec)
          (leave-Done b h p Solves laws (Share b h p Solves laws nw current) g g2 n
            (some (full_gen b h p Solves laws current g2)) above (λ σ x. x)
            (full_gen-Finished b h p Solves laws nw current g2))
    by_probe (ready (some best) n s) q sound e f k =
        let above = rw q at sound in
        let g2 : Gen b h p = record g { solver = s; theta = grow g.theta } in
        elim (Bool-cases (p.distributed_split && ltb 1 nw)) [
          | inr alone ↦
              rw (e, f, k, q, alone, generate_cubes_rec)
                (leave-Done b h p Solves laws (Share b h p Solves laws nw current) g g2 n
                  (explore_both b h p (generate_cubes_rec b h p fuel wid nw) current best g2) above
                  (λ σ x. x)
                  (two_branches b h p Solves laws fuel next wid nw current best g2 alone some_worker
                    (ground (arith, f)) enough))
          | inl shared ↦ elim (Bool-cases (ltb wid (nw / 2))) [
            | inl left ↦
                rw (e, f, k, q, shared, left, generate_cubes_rec)
                  (leave-Done b h p Solves laws (Share b h p Solves laws nw current) g g2 n
                    (explore b h p (generate_cubes_rec b h p fuel wid (nw / 2)) current
                      (first_lit b h p best) g2)
                    above (λ σ x. x)
                    (one_branch b h p Solves laws fuel next wid nw (nw / 2) current
                      (first_lit b h p best) g2 shared (ground arith) (ground (arith, f)) enough))
            | inr right ↦
                rw (e, f, k, q, shared, right, generate_cubes_rec)
                  (leave-Done b h p Solves laws (Share b h p Solves laws nw current) g g2 n
                    (explore b h p (generate_cubes_rec b h p fuel (wid - nw / 2) (nw - nw / 2))
                      current (neg (first_lit b h p best)) g2)
                    above (λ σ x. x)
                    (one_branch b h p Solves laws fuel next (wid - nw / 2) nw (nw - nw / 2) current
                      (neg (first_lit b h p best)) g2 shared (ground arith) (ground (arith, f))
                      enough))
          ]
        ]

    node-Done : FinishedAt nw current g (generate_cubes_rec b h p (suc fuel) wid nw current g)
    unfolding generate_cubes_rec
    node-Done =
        let g1 : Gen b h p = record g { theta = grow g.theta } in
        elim (Bool-cases (g.cube_sat_found && not p.optimizing)) [
          | inl e ↦
              rw (e, generate_cubes_rec)
                (stay b h p Solves laws (Share b h p Solves laws nw current) g g refl (λ σ x. x)
                  (λ σ m d on. found b h p Solves laws g e σ))
          | inr e ↦ elim (Bool-cases (leb max_cube_generation_depth (length current))) [
            | inl f ↦
                rw (e, f, generate_cubes_rec)
                  (elim (Bool-cases (not p.distributed_split || ((nw == 1) || (wid == 0)))) [
                    | inl c ↦ rw c (push_cube-Finished b h p Solves laws nw current g)
                    | inr c ↦ rw c (
                        stay b h p Solves laws (Share b h p Solves laws nw current) g g1 refl
                          (λ σ x. x) (λ σ m d on. (let alone = on.1 in absurd (grind arith))))
                  ])
            | inr f ↦
                elim (Bool-cases
                  (exceeds (length current * assigned_vars g.solver) (grow g.theta) p.n_vars)) [
                    | inl k ↦
                        rw (e, f, k, generate_cubes_rec)
                          (push_cube-Finished b h p Solves laws nw current g)
                    | inr k ↦
                        by_probe (probe b h p (suc (length p.vars)) (length current) 0 g.solver)
                          refl (node_probe-Sound b h p Solves laws (length current) g.solver) e f k
                  ]
          ]
        ]

  generate_cubes_rec-Done :
      (fuel wid nw : ℕ) (current : List Lit) (g : Gen b h p)
      → 0 < nw
      → length current ≤ 11
      → 12 ≤ length current + fuel
      → FinishedAt nw current g (generate_cubes_rec b h p fuel wid nw current g)
  generate_cubes_rec-Done zero wid nw current g w small enough = absurd (omega arith)
  generate_cubes_rec-Done (suc fuel) wid nw current g w small enough =
      node-Done fuel wid nw current g
        (λ wid' nw' current' g'. generate_cubes_rec-Done fuel wid' nw' current' g') w enough

  abbrev pub start : State → Gen b h p
  start s = record { solver = s; theta = h.initial; cube_sat_found = false; cubes = [] }

  -- Cube generation returns for every worker of a group, and leaves the decisions of its solver as they
  -- were.
  pub generate_cubes-decisions :
      (wid nw : ℕ) (s : State)
      → 0 < nw
      → (g : Gen b h p) × (generate_cubes b h p wid nw s ≡ some g)
        × (decisions g.solver ≡ decisions s)
  unfolding generate_cubes
  generate_cubes-decisions wid nw s w =
      let done = generate_cubes_rec-Done 12 wid nw [] (start s) w (omega arith) (omega arith) in
      elim (Option-cases (generate_cubes_rec b h p 12 wid nw [] (start s))) [
        | inl e ↦ absurd (rw e at done)
        | inr (g, e) ↦ let r = rw e at done in (g, e, r.restored)
      ]

  pub generate_cubes_rec-Covers :
      (fuel wid nw : ℕ) (current : List Lit) (g : Gen b h p)
      → 0 < nw
      → Alone b h p Solves laws nw
      → length current ≤ 11
      → 12 ≤ length current + fuel
      → (σ : Assignment) → Solves σ
      → AllHold σ (decisions g.solver)
      → AllHold σ current
      → (g' : Gen b h p) × (generate_cubes_rec b h p fuel wid nw current g ≡ some g')
        × Covers p σ g'
  generate_cubes_rec-Covers fuel wid nw current g w alone small enough σ m d on =
      let done = generate_cubes_rec-Done fuel wid nw current g w small enough in
      elim (Option-cases (generate_cubes_rec b h p fuel wid nw current g)) [
        | inl e ↦ absurd (rw e at done)
        | inr (g', e) ↦ let r = rw e at done in (g', e, r.covers σ m d (on, alone))
      ]

  -- Cube generation by a worker that is alone, or does not split, returns, and a model that agrees with
  -- the decisions of the solver satisfies one of the cubes, unless the worker is not optimizing and
  -- `cube_sat_found` is set.
  pub generate_cubes-Covers :
      (wid nw : ℕ) (s : State) (σ : Assignment)
      → 0 < nw
      → Alone b h p Solves laws nw
      → Solves σ
      → AllHold σ (decisions s)
      → (g : Gen b h p) × (generate_cubes b h p wid nw s ≡ some g) × Covers p σ g
  unfolding generate_cubes
  generate_cubes-Covers wid nw s σ w alone m d =
      generate_cubes_rec-Covers 12 wid nw [] (start s) w alone (omega arith) (omega arith) σ m d tt
