-- ===== src/Cubes/Subcubes.antt =====
-- Splitting a cube: its subcubes cover the models of the cube.
use cube_conquer_pb.Base.{
  ◌≡◌, refl, Bool, true, false, List, [], ◌∷◌, ◌++◌, map, some, inl, inr, ◌⊎◌, All-append, Any,
  here, there, arith,
}
use cube_conquer_pb.Constraint.{Lit}
use cube_conquer_pb.Constraint.Semantics.{Assignment, holds}
use cube_conquer_pb.Cubes.{Backend, Heuristic, Params, split_cube}
use cube_conquer_pb.Cubes.Laws.{AllHold, Laws}
use cube_conquer_pb.Cubes.Cover.{generate_cubes-Covers}

Any-below :
    (σ : Assignment) (cube : List Lit) (subs : List (List Lit))
    → AllHold σ cube
    → Any (λ c. AllHold σ c) subs
    → Any (λ c. AllHold σ c) (map (λ sub. cube ++ sub) subs)
Any-below σ cube [] h i = elim i [ ]
Any-below σ cube (s ∷ ss) h (here k) = here (All-append (λ l. holds σ l ≡ true) cube s h k)
Any-below σ cube (s ∷ ss) h (there i) = there (Any-below σ cube ss h i)

module _ (b : Backend) (h : Heuristic) (p : Params) (Solves : Assignment → Type 0)
    (laws : Laws b Solves) where
  open laws use {decisions}

  -- Splitting a cube returns, and a model of the cube that agrees with the decisions of the solver
  -- satisfies one of its subcubes, unless the worker is not optimizing and `cube_sat_found` is set.
  pub split_cube-covers :
      (cube : List Lit) (s : b.State) (σ : Assignment)
      → Solves σ
      → AllHold σ cube
      → AllHold σ (decisions s)
      → (full : List (List Lit)) × (sat : Bool) × (split_cube b h p cube s ≡ some (full, sat))
        × (((p.optimizing ≡ false) × (sat ≡ true)) ⊎ Any (λ c. AllHold σ c) full)
  unfolding split_cube
  split_cube-covers cube s σ m c d =
      let (g, e, covers) =
        generate_cubes-Covers b h p Solves laws 0 1 s σ (omega arith) (ground arith) m d in
      (
        map (λ sub. cube ++ sub) g.cubes,
        g.cube_sat_found,
        rw (e, split_cube) refl,
        elim covers [ inl f ↦ inl f | inr i ↦ inr (Any-below σ cube g.cubes c i) ],
      )
