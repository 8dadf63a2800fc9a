-- ===== src/Solver/Occurrences.antt =====
-- The elements that the loop over the terms of a constraint adds to the lists of its literals.
use cube_conquer_pb.Base.{
  ℕ, zero, suc, ◌+◌, ◌≡◌, refl, ◌∙◌, ap, List, [], ◌∷◌, ◌++◌, ◌==◌, if◌then◌else◌, ◌≤◌, ◌<◌, inl,
  inr, length, get_or, total, total-append, All, All-append, Bool-cases, arith,
}
use cube_conquer_pb.Constraint.{Lit, plus, minus, Term, lit_eq}
use cube_conquer_pb.Solver.{counterpb, Solver, push_back_at, add_occurrences}
use cube_conquer_pb.Solver.Counted.{coefficient}
use cube_conquer_pb.Solver.Invariant.{pending, counter_of, occurrence_of, InRange}

pub get_or-append_left {ℓ} :
    {A : Type ℓ} (xs ys : List A) (i : ℕ) (d : A)
    → i < length xs
    → get_or (xs ++ ys) i d ≡ get_or xs i d
get_or-append_left [] ys i d w = absurd (omega arith)
get_or-append_left (x ∷ xs) ys zero d w = refl
get_or-append_left (x ∷ xs) ys (suc i) d w = get_or-append_left xs ys i d (omega arith)

pub get_or-append_last {ℓ} :
    {A : Type ℓ} (xs : List A) (y d : A) → get_or (xs ++ y ∷ []) (length xs) d ≡ y
get_or-append_last [] y d = refl
get_or-append_last (x ∷ xs) y d = get_or-append_last xs y d

pub get_or-out {ℓ} : {A : Type ℓ} (xs : List A) (i : ℕ) (d : A) → length xs ≤ i → get_or xs i d ≡ d
get_or-out [] i d w = refl
get_or-out (x ∷ xs) zero d w = absurd (omega arith)
get_or-out (x ∷ xs) (suc i) d w = get_or-out xs i d (omega arith)

lit_eq_comm : (a b : Lit) → lit_eq a b ≡ lit_eq b a
lit_eq_comm (plus v) (plus w) = ground arith
lit_eq_comm (minus v) (minus w) = ground arith
lit_eq_comm (plus v) (minus w) = refl
lit_eq_comm (minus v) (plus w) = refl

-- A sum over the list of a literal, after an element is added to the list of another.
pub push-total {ℓ} :
    {A : Type ℓ} (f : A → ℕ) (lists : Lit → List A) (k l : Lit) (x : A)
    → total f (push_back_at k x lists l) ≡ total f (lists l) + (if lit_eq k l then f x else 0)
push-total f lists k l x = elim (Bool-cases (lit_eq l k)) [
  | inl e ↦
      let back = lit_eq_comm k l ∙ e in
      rw (e, back)
        (total-append f (lists l) (x ∷ [])
          ∙ (let q : f x + 0 ≡ f x = omega arith in ap (λ n. total f (lists l) + n) q))
  | inr e ↦ let back = lit_eq_comm k l ∙ e in rw (e, back) (omega arith)
]

module _ (id : ℕ) where
  pub occurrences-other :
      (ts : List Term) (s : Solver)
      → ((add_occurrences id ts s).model ≡ s.model)
        × ((add_occurrences id ts s).clauses ≡ s.clauses)
  unfolding add_occurrences
  occurrences-other [] s = (refl, refl)
  occurrences-other (t ∷ ts) s = occurrences-other ts _

  pub occurrences-pending :
      (ts : List Term) (s : Solver) (l : Lit) (j : ℕ)
      → pending j ((add_occurrences id ts s).gen_watch_list l)
        ≡ pending j (s.gen_watch_list l) + (if id == j then coefficient l ts else 0)
  unfolding add_occurrences
  occurrences-pending [] s l j = ground arith
  occurrences-pending (t ∷ ts) s l j =
      occurrences-pending ts _ l j
      ∙ ap (λ n. n + (if id == j then coefficient l ts else 0))
          (push-total (counter_of j) s.gen_watch_list t.1 l (counterpb t.0 id))
      ∙ ground arith

  pub occurrences-occurs :
      (ts : List Term) (s : Solver) (l : Lit) (j : ℕ)
      → total (occurrence_of j) ((add_occurrences id ts s).occur_lists l)
        ≡ total (occurrence_of j) (s.occur_lists l) + (if id == j then coefficient l ts else 0)
  unfolding add_occurrences
  occurrences-occurs [] s l j = ground arith
  occurrences-occurs (t ∷ ts) s l j =
      occurrences-occurs ts _ l j
      ∙ ap (λ n. n + (if id == j then coefficient l ts else 0))
          (push-total (occurrence_of j) s.occur_lists t.1 l
            (record { ctr_id = id; coefficient = t.0 }))
      ∙ ground arith

  pub occurrences-InRange :
      (n len : ℕ) (ts : List Term) (s : Solver) (l : Lit)
      → id < len
      → ((k : Lit) → All (InRange n len) (s.gen_watch_list k))
      → All (InRange n len) ((add_occurrences id ts s).gen_watch_list l)
  unfolding add_occurrences
  occurrences-InRange n len [] s l w h = h l
  occurrences-InRange n len (t ∷ ts) s l w h = occurrences-InRange n len ts _ l w (λ k.
      elim (Bool-cases (lit_eq k t.1)) [
        | inl e ↦ rw e (All-append (InRange n len) (s.gen_watch_list k) _ (h k) (w, tt))
        | inr e ↦ rw e (h k)
      ])
