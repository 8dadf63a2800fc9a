-- ===== src/ConstraintValue/Tests.antt =====
-- The loops of src/ConstraintValue.cpp that stop early or keep a maximum, against the sums.
use cube_conquer_pb.Base.{
  ℕ, ◌≡◌, ◌∙◌, true, false, not, ◌&&◌, ◌||◌, List, [], ◌∷◌, if◌then◌else◌, ◌≤◌, ltb, ℤ, pos, ◌+ℤ◌,
  ◌-ℤ◌, ◌≤ℤ◌, ◌<ℤ◌, ltb_ℤ, total, Any, here, there, Bool-cases, inl, inr, arith, ◌↔◌, ◌⊎◌, int_laws,
  +ℤ_parts,
}
use cube_conquer_pb.Constraint.{Lit, Term, WConstraint}
use cube_conquer_pb.Constraint.Semantics.{Assignment, holds, lhs_value, Satisfies}
use cube_conquer_pb.Trail.{Model, is_true_lit, is_false_lit, is_undef_lit, get_dl_of_lit}
use cube_conquer_pb.ConstraintValue.{
  slack, constraint_is_true, add_true, constraint_is_contradiction, is_above_zero,
  constraint_is_conflicting_or_propagating, scan_undef,
}
use cube_conquer_pb.ConstraintValue.Slack.{Agrees, kept, not_false, slack-value, add_where-value}

-- A literal without a value whose coefficient is above `n`.
abbrev pub Unforced : Model → ℤ → Term → Type 0
Unforced m n t = (is_undef_lit t.1 m ≡ true) × (n <ℤ pos t.0)

abbrev Forcing : ℤ → ℕ → Model → List Term → Type 0
Forcing s n m ts = (s <ℤ pos n) ⊎ Any (Unforced m s) ts

Forcing-skip :
    (s : ℤ) (n : ℕ) (m : Model) (t : Term) (ts : List Term)
    → (is_undef_lit t.1 m && ltb n t.0) ≡ false
    → Forcing s n m ts ↔ Forcing s n m (t ∷ ts)
Forcing-skip s n m t ts e = (
  λ h. elim h [ inl less ↦ inl less | inr h ↦ inr (there h) ],
  λ h. elim h [
    | inl less ↦ inl less
    | inr (here (u, less)) ↦ inl (let small = rw u at e in ground (arith, small, less))
    | inr (there h) ↦ inr h
  ],
)

Forcing-take :
    (s : ℤ) (n : ℕ) (m : Model) (t : Term) (ts : List Term)
    → is_undef_lit t.1 m ≡ true
    → ltb n t.0 ≡ true
    → Forcing s t.0 m ts ↔ Forcing s n m (t ∷ ts)
Forcing-take s n m t ts u g = (
  λ h. elim h [ inl less ↦ inr (here (u, less)) | inr h ↦ inr (there h) ],
  λ h. elim h [
    | inl less ↦ inl (ground (arith, g, less))
    | inr (here (u, less)) ↦ inl less
    | inr (there h) ↦ inr h
  ],
)

scan_undef_iff :
    (ts : List Term) (m : Model) (n : ℕ) (x s : ℤ)
    → s ≡ x +ℤ pos (total (kept (not_false m)) ts)
    → (scan_undef ts m n x ≡ true) ↔ Forcing s n m ts
unfolding scan_undef
scan_undef_iff [] m n x s e = (
  λ h. inl (let f : x -ℤ pos n <ℤ pos 0 = ground (arith, h) in rw e (omega (int_laws, f))),
  λ h. elim h [
    | inl less ↦
        let f = rw e at less in
        let g : x -ℤ pos n <ℤ pos 0 = omega (int_laws, f) in ground (arith, g)
    | inr h ↦ elim h [ ]
  ],
)
scan_undef_iff (t ∷ ts) m n x s e =
    let here_sum : s
        ≡ (if not (is_false_lit t.1 m) then x +ℤ pos t.0 else x)
          +ℤ pos (total (kept (not_false m)) ts) =
      elim (Bool-cases (is_false_lit t.1 m)) [
        | inl f ↦ rw f (let g = rw f at e in g ∙ omega int_laws)
        | inr f ↦ rw f (let g = rw f at e in g ∙ omega int_laws)
      ] in
    elim (Bool-cases (is_undef_lit t.1 m && ltb n t.0)) [
      | inl f ↦
          let u : is_undef_lit t.1 m ≡ true = ground (arith, f) in
          let g : ltb n t.0 ≡ true = ground (arith, f) in
          let ih = scan_undef_iff ts m t.0 _ s here_sum in
          let iff = Forcing-take s n m t ts u g in rw f (λ h. iff.0 (ih.0 h), λ h. ih.1 (iff.1 h))
      | inr f ↦
          let ih = scan_undef_iff ts m n _ s here_sum in
          let iff = Forcing-skip s n m t ts f in rw f (λ h. iff.0 (ih.0 h), λ h. ih.1 (iff.1 h))
    ]

-- `constraintIsConflictingOrPropagating` is true exactly when the slack is negative or below the
-- coefficient of a literal that has no value.
pub constraint_is_conflicting_or_propagating_iff :
    (c : WConstraint) (m : Model)
    → (constraint_is_conflicting_or_propagating c m ≡ true)
      ↔ ((slack c m <ℤ pos 0) ⊎ Any (Unforced m (slack c m)) c.lhs)
unfolding constraint_is_conflicting_or_propagating
constraint_is_conflicting_or_propagating_iff c m =
    scan_undef_iff c.lhs m 0 (pos 0 -ℤ c.rhs) (slack c m) (slack-value c m)

add_true-le :
    (ts : List Term) (m : Model) (x : ℤ)
    → add_true ts m x ≤ℤ x +ℤ pos (total (kept (λ l. is_true_lit l m)) ts)
unfolding add_true
add_true-le [] m x = omega int_laws
add_true-le (t ∷ ts) m x =
    let ih = add_true-le ts m (if is_true_lit t.1 m then x +ℤ pos t.0 else x) in
    elim (Bool-cases (ltb_ℤ x (pos 0))) [
      | inl e ↦ elim (Bool-cases (is_true_lit t.1 m)) [
        | inl f ↦ rw (e, f) (let g = rw f at ih in omega (int_laws, g))
        | inr f ↦ rw (e, f) (let g = rw f at ih in omega (int_laws, g))
      ]
      | inr e ↦ rw e (omega int_laws)
    ]

true_sum-le :
    (m : Model) (σ : Assignment) (ts : List Term)
    → Agrees m σ
    → total (kept (λ l. is_true_lit l m)) ts ≤ lhs_value σ ts
true_sum-le m σ [] a = omega arith
true_sum-le m σ (t ∷ ts) a =
    let ih = true_sum-le m σ ts a in
    elim (Bool-cases (is_true_lit t.1 m)) [
      | inl e ↦ (let h = a t.1 e in rw (e, h) (omega (arith, ih)))
      | inr e ↦ rw e (omega (arith, ih))
    ]

-- An assignment that agrees with the literals of decision level zero.
abbrev pub AgreesAtZero : Model → Assignment → Type 0
AgreesAtZero m σ =
    (l : Lit)
    → is_false_lit l m ≡ true
    → is_above_zero (get_dl_of_lit l m) ≡ false
    → holds σ l ≡ false

above_zero_sum-le :
    (m : Model) (σ : Assignment) (ts : List Term)
    → AgreesAtZero m σ
    → lhs_value σ ts
      ≤ total (kept (λ l. not (is_false_lit l m) || is_above_zero (get_dl_of_lit l m))) ts
above_zero_sum-le m σ [] a = omega arith
above_zero_sum-le m σ (t ∷ ts) a =
    let ih = above_zero_sum-le m σ ts a in
    elim (Bool-cases (is_false_lit t.1 m)) [
      | inr f ↦ rw f (ground (arith, ih))
      | inl f ↦ elim (Bool-cases (is_above_zero (get_dl_of_lit t.1 m))) [
        | inl g ↦ rw (f, g) (ground (arith, ih))
        | inr g ↦ (let h = a t.1 f g in rw (f, g, h) (omega (arith, ih)))
      ]
    ]

-- When `constraintIsTrue` is true each assignment that agrees with the trail satisfies the constraint.
-- When `constraintIsContradiction` is true no assignment that agrees with the literals of decision level
-- zero satisfies it.
pub constraint_tests_sound :
    (c : WConstraint) (m : Model) (σ : Assignment)
    → (constraint_is_true c m ≡ true → Agrees m σ → Satisfies σ c)
      × (constraint_is_contradiction c m ≡ true → AgreesAtZero m σ → ¬ Satisfies σ c)
unfolding constraint_is_true constraint_is_contradiction
constraint_tests_sound c m σ = (
  λ e a.
      let le = add_true-le c.lhs m (pos 0 -ℤ c.rhs) in
      let sum = true_sum-le m σ c.lhs a in
      let up : pos 0 ≤ℤ add_true c.lhs m (pos 0 -ℤ c.rhs) = ground (arith, e) in
      omega (int_laws, le, sum, up),
  λ e a s.
      let sum = above_zero_sum-le m σ c.lhs a in
      let above = λ (l : Lit). not (is_false_lit l m) || is_above_zero (get_dl_of_lit l m) in
      let exact = rw (add_where-value above c.lhs (pos 0)) at e in
      let p = +ℤ_parts (pos 0) (pos (total (kept above) c.lhs)) in ground (arith, exact, sum, s, p),
)
