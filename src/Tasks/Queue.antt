-- ===== src/Tasks/Queue.antt =====
-- The queue hands out an index of greatest bound and keeps the others.
use cube_conquer_pb.Base.{
  ℕ, ◌≡◌, ◌≢◌, refl, false, List, [], ◌∷◌, Bool-cases, inl, inr, ◌⊎◌, some, ltb_ℤ, ◌≤ℤ◌, arith, All,
  Any, here, there,
}
use cube_conquer_pb.Tasks.{CubeTask, bound_at, pop_queue}

-- The index and the others are the queue, and none of them has a greater bound.
pub record Popped (cubes : List CubeTask) (q : List ℕ) (j : ℕ) (rest : List ℕ) : Type 1 where
  pub greatest : All (λ i. bound_at cubes i ≤ℤ bound_at cubes j) q
  pub any : (P : ℕ → Type 0) → Any P q → P j ⊎ Any P rest
  pub all : (P : ℕ → Type 0) → All P q → P j × All P rest

split_head : (i : ℕ) (is : List ℕ) (P : ℕ → Type 0) → Any P (i ∷ is) → P i ⊎ Any P is
split_head i is P (here h) = inl h
split_head i is P (there h) = inr h

keep_other :
    (i : ℕ) (is : List ℕ) (j : ℕ) (rest : List ℕ) (P : ℕ → Type 0)
    → (Any P is → P j ⊎ Any P rest)
    → Any P (i ∷ is)
    → P j ⊎ Any P (i ∷ rest)
keep_other i is j rest P f (here h) = inr (here h)
keep_other i is j rest P f (there h) = elim (f h) [ inl x ↦ inl x | inr y ↦ inr (there y) ]

raise :
    (cubes : List CubeTask) (i j : ℕ) (is : List ℕ)
    → All (λ k. bound_at cubes k ≤ℤ bound_at cubes j) is
    → ltb_ℤ (bound_at cubes i) (bound_at cubes j) ≡ false
    → All (λ k. bound_at cubes k ≤ℤ bound_at cubes i) is
raise cubes i j [] h e = tt
raise cubes i j (k ∷ ks) h e = let head = h.0 in (ground (arith, e), raise cubes i j ks h.1 e)

-- From a queue that is not empty, `pop_queue` takes an index of greatest lower bound and leaves the
-- other entries.
pub pop_queue-Popped :
    (cubes : List CubeTask) (q : List ℕ)
    → q ≢ []
    → (j : ℕ) × (rest : List ℕ) × (pop_queue cubes q ≡ some (j, rest)) × Popped cubes q j rest
unfolding pop_queue
pop_queue-Popped cubes [] ne = absurd (ne refl)
pop_queue-Popped cubes (i ∷ []) ne = (
  i,
  [],
  refl,
  record { greatest = (omega arith, tt); any = λ P. split_head i [] P; all = λ P h. h },
)
pop_queue-Popped cubes (i ∷ k ∷ is) ne =
    let (j, rest, e, p) = pop_queue-Popped cubes (k ∷ is) (λ q. cc) in
    elim (Bool-cases (ltb_ℤ (bound_at cubes i) (bound_at cubes j))) [
      | inl less ↦ (
        j,
        i ∷ rest,
        rw (e, less, pop_queue) refl,
        record {
          greatest = (ground (arith, less), p.greatest);
          any = λ P. keep_other i (k ∷ is) j rest P (p.any P);
          all = λ P h. (let (x, y) = p.all P h.1 in (x, (h.0, y)));
        },
      )
      | inr more ↦ (
        i,
        k ∷ is,
        rw (e, more, pop_queue) refl,
        record {
          greatest = (omega arith, raise cubes i j (k ∷ is) p.greatest more);
          any = λ P. split_head i (k ∷ is) P;
          all = λ P h. h;
        },
      )
    ]
