-- ===== src/Solver/Settled.antt =====
-- The loop over the terms of a constraint leaves no literal above the slack without a value.
use cube_conquer_pb.Base.{
  ℕ, zero, suc, ◌≡◌, refl, sym, subst, true, List, [], ◌∷◌, ◌≤◌, ◌<◌, inl, inr, ℤ, pos, ◌≤ℤ◌, ltb_ℤ,
  length, length-set, get_or, set, All, All-map_le, Ordered, Bool-cases, arith,
}
use cube_conquer_pb.Constraint.{Lit, plus, minus, Term, var}
use cube_conquer_pb.Reasons.{Content, pb_constraint}
use cube_conquer_pb.Trail.{
  Model, Truth, unassigned, truth_of, is_undef_lit, value_of_lit, set_true_due_to_reason, push_lit,
}
use cube_conquer_pb.Trail.Undo.{assigned-ne}
use cube_conquer_pb.Solver.Propagate.{propagate_terms}

-- A term whose coefficient is not above another.
abbrev pub Falls : Term → Term → Type 0
Falls t u = u.0 ≤ t.0

-- A literal that the constraint still leaves open has at most the coefficient.
abbrev pub Settled : Model → ℤ → Term → Type 0
Settled m w t = is_undef_lit t.1 m ≡ true → pos t.0 ≤ℤ w

set-valued :
    (ts : List Truth) (v w : ℕ) (l : Lit)
    → get_or (set ts v (truth_of l)) w unassigned ≡ unassigned
    → get_or ts w unassigned ≡ unassigned
set-valued [] v w l e = e
set-valued (t ∷ ts) zero zero l e = absurd (assigned-ne l e)
set-valued (t ∷ ts) zero (suc w) l e = e
set-valued (t ∷ ts) (suc v) zero l e = e
set-valued (t ∷ ts) (suc v) (suc w) l e = set-valued ts v w l e

set-own_value :
    (ts : List Truth) (v : ℕ) (l : Lit)
    → v < length ts
    → get_or (set ts v (truth_of l)) v unassigned ≡ unassigned
    → ⊥
set-own_value [] v l w e = omega arith
set-own_value (t ∷ ts) zero l w e = assigned-ne l e
set-own_value (t ∷ ts) (suc v) l w e = set-own_value ts v l (omega arith) e

is_undef_lit-value :
    (k : Lit) (m : Model)
    → is_undef_lit k m ≡ true
    → get_or m.truth_value_of_var (var k) unassigned ≡ unassigned
unfolding is_undef_lit value_of_lit
is_undef_lit-value (plus v) m e = ground (arith, e)
is_undef_lit-value (minus v) m e = ground (arith, e)

value-is_undef_lit :
    (k : Lit) (m : Model)
    → get_or m.truth_value_of_var (var k) unassigned ≡ unassigned
    → is_undef_lit k m ≡ true
unfolding is_undef_lit value_of_lit
value-is_undef_lit (plus v) m e = rw (is_undef_lit, value_of_lit, e) refl
value-is_undef_lit (minus v) m e = rw (is_undef_lit, value_of_lit, e) refl

undef-before :
    (n : Model) (l : Lit) (r : Content) (j : Lit)
    → is_undef_lit j (set_true_due_to_reason l r n) ≡ true
    → is_undef_lit j n ≡ true
unfolding set_true_due_to_reason push_lit
undef-before n l r j f = value-is_undef_lit j n (
    set-valued n.truth_value_of_var (var l) (var j) l
      (is_undef_lit-value j (set_true_due_to_reason l r n) f))

-- A literal that is made true has a value.
forced-valued :
    (n : Model) (l : Lit) (r : Content)
    → var l < length n.truth_value_of_var
    → is_undef_lit l (set_true_due_to_reason l r n) ≡ true
    → ⊥
unfolding set_true_due_to_reason push_lit
forced-valued n l r w e =
    set-own_value n.truth_value_of_var (var l) l w
      (is_undef_lit-value l (set_true_due_to_reason l r n) e)

-- A literal without a value after the loop had none before.
propagate_terms-undef :
    (id : ℕ) (ts : List Term) (w : ℤ) (m : Model) (idx : ℕ) (k : Lit)
    → is_undef_lit k (propagate_terms id ts w m idx).0 ≡ true
    → is_undef_lit k m ≡ true
unfolding propagate_terms
propagate_terms-undef id [] w m idx k e = e
propagate_terms-undef id (t ∷ ts) w m idx k e = elim (Bool-cases (ltb_ℤ w (pos t.0))) [
  | inr stop ↦ rw stop at e
  | inl more ↦ elim (Bool-cases (is_undef_lit t.1 m)) [
    | inr set_already ↦ propagate_terms-undef id ts w m (suc idx) k (rw (more, set_already) at e)
    | inl undef ↦ undef-before m t.1 (pb_constraint id) k (
        propagate_terms-undef id ts w (set_true_due_to_reason t.1 (pb_constraint id) m) (suc idx) k
          (rw (more, undef) at e))
  ]
]

length-forced :
    (n : Model) (l : Lit) (r : Content)
    → length (set_true_due_to_reason l r n).truth_value_of_var ≡ length n.truth_value_of_var
unfolding set_true_due_to_reason push_lit
length-forced n l r = length-set n.truth_value_of_var (var l) (truth_of l)

-- On terms whose coefficients fall, the loop stops only where no later term is above the slack.
pub propagate_terms-Settled :
    (id : ℕ) (ts : List Term) (w : ℤ) (m : Model) (idx : ℕ)
    → Ordered Falls ts
    → All (λ t. var t.1 < length m.truth_value_of_var) ts
    → All (Settled (propagate_terms id ts w m idx).0 w) ts
unfolding propagate_terms
propagate_terms-Settled id [] w m idx o r = tt
propagate_terms-Settled id (t ∷ ts) w m idx (falls, o) (range, r) =
    elim (Bool-cases (ltb_ℤ w (pos t.0))) [
      | inr stop ↦
          let low : pos t.0 ≤ℤ w = ground (arith, stop) in
          let same : propagate_terms id (t ∷ ts) w m idx ≡ (m, idx) =
            rw (propagate_terms, stop) refl in
          subst (λ (p : Model × ℕ). All (Settled p.0 w) (t ∷ ts)) (sym same)
            (
              (λ e. low),
              All-map_le (Falls t) (Settled m w) ts (λ u le e. omega (arith, le, low)) falls,
            )
      | inl more ↦ elim (Bool-cases (is_undef_lit t.1 m)) [
        | inr set_already ↦
            let same : propagate_terms id (t ∷ ts) w m idx ≡ propagate_terms id ts w m (suc idx) =
              rw (propagate_terms, more, set_already) refl in
            subst (λ (p : Model × ℕ). All (Settled p.0 w) (t ∷ ts)) (sym same)
              (
                (λ e.
                    let open_before = propagate_terms-undef id ts w m (suc idx) t.1 e in
                    absurd (cc (open_before, set_already))),
                propagate_terms-Settled id ts w m (suc idx) o r,
              )
        | inl undef ↦
            let n = set_true_due_to_reason t.1 (pb_constraint id) m in
            let same : propagate_terms id (t ∷ ts) w m idx ≡ propagate_terms id ts w n (suc idx) =
              rw (propagate_terms, more, undef) refl in
            subst (λ (p : Model × ℕ). All (Settled p.0 w) (t ∷ ts)) (sym same)
              (
                (λ e. absurd (
                    forced-valued m t.1 (pb_constraint id) range
                      (propagate_terms-undef id ts w n (suc idx) t.1 e))),
                propagate_terms-Settled id ts w n (suc idx) o (
                    subst (λ k. All (λ u. var u.1 < k) ts)
                      (sym (length-forced m t.1 (pb_constraint id))) r),
              )
      ]
    ]
