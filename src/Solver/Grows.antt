-- ===== src/Solver/Grows.antt =====
-- Models that a propagation reaches: literals without a value become true, one after the other, each of
-- which a property allows.
use cube_conquer_pb.Base.{
  ℕ, ◌≡◌, refl, sym, ◌∙◌, ap, Bool, true, false, ◌==◌, ◌≤◌, ◌<◌, length, length-set, get_or,
  get_or-set, Bool-cases, inl, inr, arith,
}
use cube_conquer_pb.Constraint.{Lit, plus, minus, var}
use cube_conquer_pb.Constraint.Semantics.{Assignment, holds}
use cube_conquer_pb.Reasons.{Content}
use cube_conquer_pb.Trail.{
  Model, Truth, under, unassigned, is_true, truth_of, push_lit, set_true_due_to_reason, is_true_lit,
  is_undef_lit, value_of_lit,
}
use cube_conquer_pb.Trail.Undo.{IsTrail, IsUndef, push_lit-IsTrail}
use cube_conquer_pb.ConstraintValue.{is_counted}
use cube_conquer_pb.ConstraintValue.Slack.{Agrees}
use cube_conquer_pb.Solver.Counted.{is_counted-push}

pub data Grows (P : Lit → Type 0) : Model → Model → Type 0 where
  stay : {m : Model} → Grows P m m
  grow :
      (m n : Model) (l : Lit) (r : Content)
      → Grows P m n
      → IsUndef l n
      → P l
      → Grows P m (set_true_due_to_reason l r n)

pub in_range-IsUndef :
    (l : Lit) (m : Model)
    → var l < length m.truth_value_of_var
    → is_undef_lit l m ≡ true
    → IsUndef l m
unfolding is_undef_lit value_of_lit
in_range-IsUndef (plus v) m w e = (w, ground (arith, e))
in_range-IsUndef (minus v) m w e = (w, ground (arith, e))

-- The model with another number of propagated literals.
abbrev pub at_propagated : ℕ → Model → Model
at_propagated p m = record m { propagated = p }

abbrev pub reads_true : Lit → Truth → Bool
reads_true k t = elim (under k t) [ is_true ↦ true | _ ↦ false ]

pub is_true_lit-value :
    (m : Model) (k : Lit) (t : Truth)
    → get_or m.truth_value_of_var (var k) unassigned ≡ t
    → is_true_lit k m ≡ reads_true k t
unfolding is_true_lit value_of_lit
is_true_lit-value m k t e = rw (is_true_lit, value_of_lit, e) refl

pub reads_own : (l : Lit) → reads_true l (truth_of l) ≡ true
reads_own (plus v) = refl
reads_own (minus v) = refl

reads_true-same : (l k : Lit) → var l ≡ var k → reads_true k (truth_of l) ≡ true → l ≡ k
reads_true-same (plus v) (plus w) q e = ap plus q
reads_true-same (minus v) (minus w) q e = ap minus q
reads_true-same (plus v) (minus w) q e = cc
reads_true-same (minus v) (plus w) q e = cc

Agrees-push :
    (m : Model) (dl : ℕ) (l : Lit) (r : Content) (σ : Assignment)
    → IsUndef l m
    → Agrees m σ
    → holds σ l ≡ true
    → Agrees (push_lit dl l r m) σ
unfolding push_lit
Agrees-push m dl l r σ (w, u) a h k e =
    let value = get_or-set m.truth_value_of_var (var l) (var k) (truth_of l) unassigned w in
    elim (Bool-cases (var l == var k)) [
      | inr apart ↦ a k (
          is_true_lit-value m k _ refl
          ∙ sym (is_true_lit-value (push_lit dl l r m) k _ (rw apart at value))
          ∙ e)
      | inl same ↦
          let up = is_true_lit-value (push_lit dl l r m) k _ (rw same at value) in
          ap (holds σ) (sym (reads_true-same l k (ground (arith, same)) (sym up ∙ e))) ∙ h
    ]

module _ (P : Lit → Type 0) where
  pub Grows-IsTrail : (m n : Model) → Grows P m n → IsTrail m → IsTrail n
  unfolding set_true_due_to_reason
  Grows-IsTrail m n stay k = k
  Grows-IsTrail m n (grow _ x l r g u p) k =
      push_lit-IsTrail x.decision_level l r x (Grows-IsTrail m x g k) u

  pub Grows-same :
      (m n : Model)
      → Grows P m n
      → (n.propagated ≡ m.propagated)
        × (length n.truth_value_of_var ≡ length m.truth_value_of_var)
        × (length m.model_stack ≤ length n.model_stack)
  unfolding set_true_due_to_reason push_lit
  Grows-same m n stay = (refl, refl, omega arith)
  Grows-same m n (grow _ x l r g u p) =
      let (a, b, c) = Grows-same m x g in
      (a, length-set x.truth_value_of_var (var l) (truth_of l) ∙ b, omega (arith, c))

  pub Grows-at :
      (m n : Model) (p : ℕ)
      → Grows P m n
      → IsTrail (at_propagated p m)
      → IsTrail (at_propagated p n)
  unfolding set_true_due_to_reason push_lit
  Grows-at m n p stay t = t
  Grows-at m n p (grow _ x l r g u q) t =
      push_lit-IsTrail x.decision_level l r (at_propagated p x) (Grows-at m x p g t) u

  pub Grows-counted :
      (m n : Model) (p : ℕ) (k : Lit)
      → Grows P m n
      → IsTrail (at_propagated p m)
      → is_counted (at_propagated p n) k ≡ is_counted (at_propagated p m) k
  unfolding set_true_due_to_reason push_lit
  Grows-counted m n p k stay t = refl
  Grows-counted m n p k (grow _ x l r g u q) t =
      is_counted-push (at_propagated p x) x.decision_level l r k (Grows-at m x p g t) u
      ∙ Grows-counted m x p k g t

  pub Grows-Agrees :
      (m n : Model) (σ : Assignment)
      → Grows P m n
      → ((l : Lit) → P l → holds σ l ≡ true)
      → Agrees m σ
      → Agrees n σ
  unfolding set_true_due_to_reason
  Grows-Agrees m n σ stay h a = a
  Grows-Agrees m n σ (grow _ x l r g u p) h a =
      Agrees-push x x.decision_level l r σ u (Grows-Agrees m x σ g h a) (h l p)

  pub Grows-is_counted :
      (m n : Model) (k : Lit) → Grows P m n → IsTrail m → is_counted n k ≡ is_counted m k
  Grows-is_counted m n k g t =
      ap (λ p. is_counted (at_propagated p n) k) (Grows-same m n g).0
      ∙ Grows-counted m n m.propagated k g t
