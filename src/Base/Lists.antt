-- ===== src/Base/Lists.antt =====
-- Lists measured by native numbers, predicates on lists, and insertion sort for `std::sort`.
use Prim.Native.Nat.{ℕ, zero, suc, ◌+◌, ◌<◌}
use mathlib.Core.Path.{◌≡◌, refl, subst}
use mathlib.Core.Logic.{inl, inr}
use mathlib.Core.Bool.{Bool, true, false}
use mathlib.Core.Option.{Option, none, some}
use mathlib.Core.List.{List, [], ◌∷◌, ◌++◌}
use native.Mathlib.Omega.{arith}
use cube_conquer_pb.Base.Tests.{if◌then◌else◌, Bool-cases}

module _ {ℓ} {A : Type ℓ} where
  abbrev pub length : List A → ℕ
  length [] = 0
  length (x ∷ xs) = suc (length xs)

  abbrev pub get_elem? : List A → ℕ → Option A
  get_elem? [] i = none
  get_elem? (x ∷ xs) zero = some x
  get_elem? (x ∷ xs) (suc i) = get_elem? xs i

  abbrev pub get_or : List A → ℕ → A → A
  get_or [] i d = d
  get_or (x ∷ xs) zero d = x
  get_or (x ∷ xs) (suc i) d = get_or xs i d

  -- A write out of bounds changes nothing.
  abbrev pub set : List A → ℕ → A → List A
  set [] i v = []
  set (x ∷ xs) zero v = v ∷ xs
  set (x ∷ xs) (suc i) v = x ∷ set xs i v

  pub length-append : (xs ys : List A) → length (xs ++ ys) ≡ length xs + length ys
  length-append [] ys = omega arith
  length-append (x ∷ xs) ys = omega (arith, length-append xs ys)

  abbrev pub All {κ} : (A → Type κ) → List A → Type κ
  All P [] = Unit
  All P (x ∷ xs) = P x × All P xs

  pub All-append {κ} : (P : A → Type κ) (xs ys : List A) → All P xs → All P ys → All P (xs ++ ys)
  All-append P [] ys hx hy = hy
  All-append P (x ∷ xs) ys hx hy = (hx.0, All-append P xs ys hx.1 hy)

  pub All-map_le {κ ι} :
      (P : A → Type κ) (Q : A → Type ι) (xs : List A) → ((x : A) → P x → Q x) → All P xs → All Q xs
  All-map_le P Q [] f h = tt
  All-map_le P Q (x ∷ xs) f h = (f x h.0, All-map_le P Q xs f h.1)

  abbrev pub drop : ℕ → List A → List A
  drop zero xs = xs
  drop (suc n) [] = []
  drop (suc n) (x ∷ xs) = drop n xs

  abbrev pub take : ℕ → List A → List A
  take zero xs = []
  take (suc n) [] = []
  take (suc n) (x ∷ xs) = x ∷ take n xs

  pub drop-append : (xs ys : List A) → drop (length xs) (xs ++ ys) ≡ ys
  drop-append [] ys = refl
  drop-append (x ∷ xs) ys = drop-append xs ys

  abbrev pub total : (A → ℕ) → List A → ℕ
  total f [] = 0
  total f (x ∷ xs) = f x + total f xs

  pub total-append : (f : A → ℕ) (xs ys : List A) → total f (xs ++ ys) ≡ total f xs + total f ys
  total-append f [] ys = omega arith
  total-append f (x ∷ xs) ys = omega (arith, total-append f xs ys)

  -- Some element of the list has the property.
  pub data Any {κ} (P : A → Type κ) : List A → Type (ℓ ⊔ κ) where
    here : {x : A} {xs : List A} → P x → Any P (x ∷ xs)
    there : {x : A} {xs : List A} → Any P xs → Any P (x ∷ xs)

  pub Any-append_left {κ} : (P : A → Type κ) (xs ys : List A) → Any P xs → Any P (xs ++ ys)
  Any-append_left P [] ys h = elim h [ ]
  Any-append_left P (x ∷ xs) ys (here h) = here h
  Any-append_left P (x ∷ xs) ys (there h) = there (Any-append_left P xs ys h)

  pub Any-append_right {κ} : (P : A → Type κ) (xs ys : List A) → Any P ys → Any P (xs ++ ys)
  Any-append_right P [] ys h = h
  Any-append_right P (x ∷ xs) ys h = there (Any-append_right P xs ys h)

  pub Any-last {κ} : (P : A → Type κ) (xs : List A) (x : A) → P x → Any P (xs ++ x ∷ [])
  Any-last P xs x h = Any-append_right P xs (x ∷ []) (here h)

  -- Every element bears the relation to all that follow it.
  abbrev pub Ordered {κ} : (A → A → Type κ) → List A → Type κ
  Ordered R [] = Unit
  Ordered R (x ∷ xs) = All (R x) xs × Ordered R xs

  pub Ordered-last {κ} :
      (R : A → A → Type κ) (xs : List A) (y : A)
      → Ordered R xs
      → All (λ x. R x y) xs
      → Ordered R (xs ++ y ∷ [])
  Ordered-last R [] y h k = (tt, tt)
  Ordered-last R (x ∷ xs) y h k =
      (All-append (R x) xs (y ∷ []) h.0 (k.0, tt), Ordered-last R xs y h.1 k.1)

  pub All-get {κ} :
      (P : A → Type κ) (xs : List A) (i : ℕ) (x : A) → All P xs → get_elem? xs i ≡ some x → P x
  All-get P [] i x h e = cc
  All-get P (y ∷ ys) zero x h e = let q : y ≡ x = cc in subst P q h.0
  All-get P (y ∷ ys) (suc i) x h e = All-get P ys i x h.1 e

  pub Ordered-get {κ} :
      (R : A → A → Type κ) (xs : List A) (i j : ℕ) (x y : A)
      → Ordered R xs
      → i < j
      → get_elem? xs i ≡ some x
      → get_elem? xs j ≡ some y
      → R x y
  Ordered-get R [] i j x y o h e f = cc
  Ordered-get R (z ∷ zs) i zero x y o h e f = absurd (omega arith)
  Ordered-get R (z ∷ zs) zero (suc j) x y o h e f =
      let q : z ≡ x = cc in subst (λ w. R w y) q (All-get (R z) zs j y o.0 f)
  Ordered-get R (z ∷ zs) (suc i) (suc j) x y o h e f =
      Ordered-get R zs i j x y o.1 (omega arith) e f

  pub get_elem?-some : (xs : List A) (i : ℕ) → i < length xs → (x : A) × (get_elem? xs i ≡ some x)
  get_elem?-some [] i h = absurd (omega arith)
  get_elem?-some (x ∷ xs) zero h = (x, refl)
  get_elem?-some (x ∷ xs) (suc i) h = get_elem?-some xs i (omega arith)

-- `std::sort` with the comparison `less`: an insertion sort, which keeps the order of equal elements.
-- The C++ library leaves that order open; the theorems use only what `sort_by` shares with it.
module _ {ℓ} {A : Type ℓ} (less : A → A → Bool) where
  pub insert_by : A → List A → List A
  insert_by x [] = x ∷ []
  insert_by x (y ∷ ys) = if less y x then y ∷ insert_by x ys else x ∷ y ∷ ys

  unfoldable pub sort_by : List A → List A
  unfolding insert_by
  sort_by [] = []
  sort_by (x ∷ xs) = insert_by x (sort_by xs)

  total-insert_by : (f : A → ℕ) (x : A) (ys : List A) → total f (insert_by x ys) ≡ f x + total f ys
  unfolding insert_by
  total-insert_by f x [] = refl
  total-insert_by f x (y ∷ ys) = ground (arith, total-insert_by f x ys)

  pub total-sort_by : (f : A → ℕ) (xs : List A) → total f (sort_by xs) ≡ total f xs
  unfolding sort_by
  total-sort_by f [] = refl
  total-sort_by f (x ∷ xs) = omega (arith, total-insert_by f x (sort_by xs), total-sort_by f xs)

  All-insert_by {κ} :
      (P : A → Type κ) (x : A) (ys : List A) → P x → All P ys → All P (insert_by x ys)
  unfolding insert_by
  All-insert_by P x [] h hs = (h, tt)
  All-insert_by P x (y ∷ ys) h hs = elim (Bool-cases (less y x)) [
    | inl e ↦ rw (e, if◌then◌else◌) (hs.0, All-insert_by P x ys h hs.1)
    | inr e ↦ rw (e, if◌then◌else◌) (h, hs)
  ]

  pub All-sort_by {κ} : (P : A → Type κ) (xs : List A) → All P xs → All P (sort_by xs)
  unfolding sort_by
  All-sort_by P [] h = tt
  All-sort_by P (x ∷ xs) h = All-insert_by P x (sort_by xs) h.0 (All-sort_by P xs h.1)

  -- `R x y` says that `x` may stand before `y`.
  module _ {κ} (R : A → A → Type κ) (trans : (x y z : A) → R x y → R y z → R x z)
      (less_R : (x y : A) → less x y ≡ true → R x y)
      (not_less_R : (x y : A) → less x y ≡ false → R y x) where
    Ordered-insert_by : (x : A) (ys : List A) → Ordered R ys → Ordered R (insert_by x ys)
    unfolding insert_by
    Ordered-insert_by x [] h = (tt, tt)
    Ordered-insert_by x (y ∷ ys) h = elim (Bool-cases (less y x)) [
      | inl e ↦
          rw (e, if◌then◌else◌)
            (All-insert_by (R y) x ys (less_R y x e) h.0, Ordered-insert_by x ys h.1)
      | inr e ↦
          let r = not_less_R y x e in
          rw (e, if◌then◌else◌) ((r, All-map_le (R y) (R x) ys (λ z. trans x y z r) h.0), h)
    ]

    pub Ordered-sort_by : (xs : List A) → Ordered R (sort_by xs)
    unfolding sort_by
    Ordered-sort_by [] = tt
    Ordered-sort_by (x ∷ xs) = Ordered-insert_by x (sort_by xs) (Ordered-sort_by xs)
