-- ===== src/Cubes/Branch.antt =====
-- What a call on a branch leaves: the decisions as they were, what was covered before, and the models
-- of the branch covered.
use cube_conquer_pb.Base.{
  ℕ, ◌≡◌, refl, sym, ◌∙◌, ap, subst, true, false, not, ◌&&◌, List, [], ◌∷◌, ◌++◌, arith, Bool-cases,
  Option, none, some, Option-cases, inl, inr, ◌⊎◌, drop, All-append, Any, Any-append_left, Any-last,
}
use cube_conquer_pb.Constraint.{Lit, plus, minus, neg}
use cube_conquer_pb.Constraint.Semantics.{Assignment, holds}
use cube_conquer_pb.Cubes.{
  Backend, Heuristic, Params, Best, Gen, push_cube, explore, first_lit, explore_both, leave,
}
use cube_conquer_pb.Cubes.Laws.{AllHold, Laws}
use cube_conquer_pb.Cubes.Probe.{Above}

-- A worker that is not optimizing has set `cube_sat_found`, or one of its cubes holds in the assignment.
abbrev pub Covers : {b : Backend} {h : Heuristic} (p : Params) → Assignment → Gen b h p → Type 0
Covers p σ g =
    ((p.optimizing ≡ false) × (g.cube_sat_found ≡ true)) ⊎ Any (λ cube. AllHold σ cube) g.cubes

module _ (b : Backend) (h : Heuristic) (p : Params) (Solves : Assignment → Type 0)
    (laws : Laws b Solves) where
  open b use {State, assume_and_propagate, backtrack}
  open laws use {decisions}

  pub record Outcome (P : Assignment → Type 0) (g g' : Gen b h p) : Type 0 where
    pub restored : decisions g'.solver ≡ decisions g.solver
    pub keeps : (σ : Assignment) → Covers p σ g → Covers p σ g'
    pub covers : (σ : Assignment) → Solves σ → AllHold σ (decisions g.solver) → P σ → Covers p σ g'

  -- The call returns, with such an outcome.
  abbrev pub Done : (Assignment → Type 0) → Gen b h p → Option (Gen b h p) → Type 0
  Done P g none = ⊥
  Done P g (some g') = Outcome P g g'

  pub Done-weaken :
      (P Q : Assignment → Type 0) (g : Gen b h p) (r : Option (Gen b h p))
      → ((σ : Assignment) → Q σ → P σ)
      → Done P g r
      → Done Q g r
  Done-weaken P Q g none f d = d
  Done-weaken P Q g (some g') f d = record {
    restored = d.restored;
    keeps = d.keeps;
    covers = λ σ m x q. d.covers σ m x (f σ q);
  }

  pub found :
      (g : Gen b h p)
      → (g.cube_sat_found && not p.optimizing) ≡ true
      → (σ : Assignment) → Covers p σ g
  found g e σ = inl (grind arith)

  back :
      (l : Lit) (g : Gen b h p) (t : State)
      → decisions t ≡ l ∷ decisions g.solver
      → decisions (backtrack 1 t) ≡ decisions g.solver
  back l g t e = laws.decisions-backtrack 1 t ∙ ap (drop 1) e

  -- A branch covers its models, and one that fails at once has none.
  pub explore-Done :
      (Q : Assignment → Type 0) (below : List Lit → Gen b h p → Option (Gen b h p))
      (current : List Lit) (l : Lit) (g : Gen b h p)
      → ((g1 : Gen b h p) → Done Q g1 (below (current ++ l ∷ []) g1))
      → Done (λ σ. Q σ × (holds σ l ≡ true)) g (explore b h p below current l g)
  unfolding explore
  explore-Done Q below current l g next =
      let t = (assume_and_propagate l g.solver).1 in
      let opened = laws.decisions-assume l g.solver in
      elim (Bool-cases (assume_and_propagate l g.solver).0) [
        | inr e ↦
            rw (e, explore)
              (record {
                restored = back l g t opened;
                keeps = λ σ c. c;
                covers = λ σ m d on. (let no = laws.refutes σ l g.solver e m d in absurd (cc));
              })
        | inl e ↦
            let g1 : Gen b h p = record g { solver = t } in
            let child = next g1 in
            elim (Option-cases (below (current ++ l ∷ []) g1)) [
              | inl f ↦ absurd (rw f at child)
              | inr (g', f) ↦
                  let r = rw f at child in
                  rw (e, f, explore)
                    (record {
                      restored = back l g g'.solver (r.restored ∙ opened);
                      keeps = λ σ c. r.keeps σ c;
                      covers =
                          λ σ m d on. r.covers σ m (subst (AllHold σ) (sym opened) (on.1, d)) on.0;
                    })
            ]
      ]

  -- The cube of a branch.
  pub AllHold-snoc :
      (σ : Assignment) (current : List Lit) (l : Lit)
      → AllHold σ current
      → holds σ l ≡ true
      → AllHold σ (current ++ l ∷ [])
  AllHold-snoc σ current l x y = All-append (λ m. holds σ m ≡ true) current (l ∷ []) x (y, tt)

  pub either_sign : (σ : Assignment) (l : Lit) → (holds σ l ≡ true) ⊎ (holds σ (neg l) ≡ true)
  either_sign σ (plus v) = elim (Bool-cases (σ v)) [ inl e ↦ inl e | inr e ↦ inr (rw e refl) ]
  either_sign σ (minus v) = elim (Bool-cases (σ v)) [ inl e ↦ inr e | inr e ↦ inl (rw e refl) ]

  -- Both branches together cover what the node has to.
  pub explore_both-Done :
      (below : List Lit → Gen b h p → Option (Gen b h p)) (current : List Lit) (best : Best)
      (g : Gen b h p)
      → ((l : Lit) (g1 : Gen b h p)
          → Done (λ σ. AllHold σ (current ++ l ∷ [])) g1 (below (current ++ l ∷ []) g1))
      → Done (λ σ. AllHold σ current) g (explore_both b h p below current best g)
  unfolding explore_both
  explore_both-Done below current best g next =
      let l = first_lit b h p best in
      let cube = λ (m : Lit) (σ : Assignment). AllHold σ (current ++ m ∷ []) in
      let first = explore-Done (cube l) below current l g (next l) in
      elim (Option-cases (explore b h p below current l g)) [
        | inl e ↦ absurd (rw e at first)
        | inr (g3, e) ↦
            let r = rw e at first in
            elim (Bool-cases (g3.cube_sat_found && not p.optimizing)) [
              | inl f ↦
                  rw (e, f, explore_both)
                    (record {
                      restored = r.restored;
                      keeps = r.keeps;
                      covers = λ σ m d on. found g3 f σ;
                    })
              | inr f ↦
                  let second =
                    explore-Done (cube (neg l)) below current (neg l) g3 (next (neg l)) in
                  elim (Option-cases (explore b h p below current (neg l) g3)) [
                    | inl k ↦ absurd (rw k at second)
                    | inr (g4, k) ↦
                        let q = rw k at second in
                        rw (e, f, k, explore_both)
                          (record {
                            restored = q.restored ∙ r.restored;
                            keeps = λ σ c. q.keeps σ (r.keeps σ c);
                            covers = λ σ m d on. elim (either_sign σ l) [
                              | inl y ↦
                                  q.keeps σ (r.covers σ m d (AllHold-snoc σ current l on y, y))
                              | inr y ↦
                                  q.covers σ m (subst (AllHold σ) (sym r.restored) d)
                                    (AllHold-snoc σ current (neg l) on y, y)
                            ];
                          })
                  ]
            ]
      ]

  -- The end of a node, from what its branches leave.
  pub leave-Done :
      (P : Assignment → Type 0) (g g2 : Gen b h p) (k : ℕ) (r : Option (Gen b h p))
      → Above b h p Solves laws (decisions g.solver) k g2.solver
      → ((σ : Assignment) → Covers p σ g → Covers p σ g2)
      → Done P g2 r
      → Done P g (leave b h p k r)
  leave-Done P g g2 k none a c d = d
  leave-Done P g g2 k (some g') a c d = record {
    restored = laws.decisions-backtrack k g'.solver ∙ ap (drop k) d.restored ∙ a.below;
    keeps = λ σ x. d.keeps σ (c σ x);
    covers = λ σ m x on. d.covers σ m (a.follow σ m x) on;
  }

  -- A cube that is pushed covers itself.
  pub push_cube-Covers :
      (σ : Assignment) (current : List Lit) (g : Gen b h p)
      → AllHold σ current
      → Covers p σ (push_cube b h p current g)
  unfolding push_cube
  push_cube-Covers σ current g on = inr (Any-last (λ c. AllHold σ c) g.cubes current on)

  pub push_cube-keeps :
      (σ : Assignment) (current : List Lit) (g : Gen b h p)
      → Covers p σ g
      → Covers p σ (push_cube b h p current g)
  unfolding push_cube
  push_cube-keeps σ current g (inl e) = inl e
  push_cube-keeps σ current g (inr i) =
      inr (Any-append_left (λ c. AllHold σ c) g.cubes (current ∷ []) i)
