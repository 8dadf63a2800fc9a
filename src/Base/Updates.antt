-- ===== src/Base/Updates.antt =====
-- Lists that are written at an index or extended at the end.
use Prim.Native.Nat.{ℕ, zero, suc, ◌+◌, ◌<◌}
use mathlib.Core.Path.{◌≡◌, refl}
use mathlib.Core.Logic.{inl, inr, ◌⊎◌}
use mathlib.Core.Option.{some}
use mathlib.Core.List.{List, [], ◌∷◌, ◌++◌}
use native.Mathlib.Omega.{arith}
use cube_conquer_pb.Base.Tests.{◌==◌, if◌then◌else◌}
use cube_conquer_pb.Base.Lists.{length, get_elem?, get_or, set, total, Any, here, there}

module _ {ℓ} {A : Type ℓ} where
  pub length-set : (xs : List A) (i : ℕ) (y : A) → length (set xs i y) ≡ length xs
  length-set [] i y = refl
  length-set (x ∷ xs) zero y = refl
  length-set (x ∷ xs) (suc i) y = omega (arith, length-set xs i y)

  pub get_or-set :
      (xs : List A) (i j : ℕ) (y d : A)
      → i < length xs
      → get_or (set xs i y) j d ≡ (if i == j then y else get_or xs j d)
  get_or-set [] i j y d h = absurd (omega arith)
  get_or-set (x ∷ xs) zero zero y d h = refl
  get_or-set (x ∷ xs) zero (suc j) y d h = ground arith
  get_or-set (x ∷ xs) (suc i) zero y d h = ground arith
  get_or-set (x ∷ xs) (suc i) (suc j) y d h = ground (arith, get_or-set xs i j y d)

  -- Inside the list the default does not matter.
  pub get_or-default :
      (xs : List A) (i : ℕ) (d e : A) → i < length xs → get_or xs i d ≡ get_or xs i e
  get_or-default [] i d e h = absurd (omega arith)
  get_or-default (x ∷ xs) zero d e h = refl
  get_or-default (x ∷ xs) (suc i) d e h = get_or-default xs i d e (omega arith)

  -- A write loses at most the element that it replaces.
  pub Any-set {κ} :
      (P : A → Type κ) (xs : List A) (i : ℕ) (y d : A)
      → Any P xs
      → P (get_or xs i d) ⊎ Any P (set xs i y)
  Any-set P [] i y d h = elim h [ ]
  Any-set P (x ∷ xs) zero y d (here h) = inl h
  Any-set P (x ∷ xs) zero y d (there h) = inr (there h)
  Any-set P (x ∷ xs) (suc i) y d (here h) = inr (here h)
  Any-set P (x ∷ xs) (suc i) y d (there h) = elim (Any-set P xs i y d h) [
    | inl k ↦ inl k
    | inr k ↦ inr (there k)
  ]

  pub Any-set_new {κ} :
      (P : A → Type κ) (xs : List A) (i : ℕ) (y : A) → i < length xs → P y → Any P (set xs i y)
  Any-set_new P [] i y h p = absurd (omega arith)
  Any-set_new P (x ∷ xs) zero y h p = here p
  Any-set_new P (x ∷ xs) (suc i) y h p = there (Any-set_new P xs i y (omega arith) p)

  pub total-set :
      (f : A → ℕ) (xs : List A) (i : ℕ) (y d : A)
      → i < length xs
      → total f (set xs i y) + f (get_or xs i d) ≡ total f xs + f y
  total-set f [] i y d h = absurd (omega arith)
  total-set f (x ∷ xs) zero y d h = omega arith
  total-set f (x ∷ xs) (suc i) y d h = omega (arith, total-set f xs i y d (omega arith))

  pub get_elem?-append :
      (xs ys : List A) (i : ℕ) (x : A) → get_elem? xs i ≡ some x → get_elem? (xs ++ ys) i ≡ some x
  get_elem?-append [] ys i x e = cc
  get_elem?-append (z ∷ zs) ys zero x e = e
  get_elem?-append (z ∷ zs) ys (suc i) x e = get_elem?-append zs ys i x e

  pub get_elem?-append_right :
      (xs ys : List A) (i : ℕ) → get_elem? (xs ++ ys) (length xs + i) ≡ get_elem? ys i
  get_elem?-append_right [] ys i = let e : 0 + i ≡ i = omega arith in rw e refl
  get_elem?-append_right (z ∷ zs) ys i =
      let e : length (z ∷ zs) + i ≡ suc (length zs + i) = omega arith in
      rw e (get_elem?-append_right zs ys i)

  pub Any-map_le {κ ι} :
      (P : A → Type κ) (Q : A → Type ι) (xs : List A) → ((x : A) → P x → Q x) → Any P xs → Any Q xs
  Any-map_le P Q [] f h = elim h [ ]
  Any-map_le P Q (x ∷ xs) f (here h) = here (f x h)
  Any-map_le P Q (x ∷ xs) f (there h) = there (Any-map_le P Q xs f h)

  pub Any-witness {κ} :
      (P : A → Type κ) (xs : List A) → Any P xs → (x : A) × P x × Any (λ y. y ≡ x) xs
  Any-witness P [] h = elim h [ ]
  Any-witness P (x ∷ xs) (here h) = (x, h, here refl)
  Any-witness P (x ∷ xs) (there h) = let (y, p, at) = Any-witness P xs h in (y, p, there at)
