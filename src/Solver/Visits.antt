-- ===== src/Solver/Visits.antt =====
-- Visiting the counters of a literal that has become false keeps the counters and forces only literals
-- that are true in each solution.
use cube_conquer_pb.Base.{
  ℕ, zero, suc, ◌+◌, ◌≡◌, ◌≢◌, refl, sym, ◌∙◌, ap, subst, true, List, [], ◌∷◌, ◌==◌, if◌then◌else◌,
  ltb, ◌<◌, inl, inr, ℤ, pos, ◌+ℤ◌, ◌-ℤ◌, ◌≤ℤ◌, ◌<ℤ◌, ltb_ℤ, length, length-set, get_or, get_or-set,
  set, drop, total, All, All-map_le, Any, here, there, Bool-cases, arith, int_laws, pos_part,
  neg_part,
}
use cube_conquer_pb.Constraint.{Lit, Term, WConstraint, var}
use cube_conquer_pb.Reasons.{pb_constraint}
use cube_conquer_pb.Trail.{Model, is_undef_lit, set_true_due_to_reason}
use cube_conquer_pb.Trail.Undo.{IsTrail}
use cube_conquer_pb.ConstraintValue.{is_counted}
use cube_conquer_pb.ConstraintValue.Slack.{kept, kept-entails}
use cube_conquer_pb.Solver.{GeneralWatchListElem, counterpb, Solver, PbConstraint, no_constraint}
use cube_conquer_pb.Solver.Propagate.{propagate_terms, propagate_pb_ctr_counter}
use cube_conquer_pb.Solver.Counted.{undef-is_counted}
use cube_conquer_pb.Solver.Grows.{Grows, grow, in_range-IsUndef, Grows-same, Grows-is_counted}
use cube_conquer_pb.Solver.Invariant.{
  ctr_at, pending, variables, IsListed, Counted, Entailed, Reached, is_counted-Misses,
}

All-drop {ℓ κ} : {A : Type ℓ} (P : A → Type κ) (n : ℕ) (xs : List A) → All P xs → All P (drop n xs)
All-drop P zero xs h = h
All-drop P (suc n) [] h = tt
All-drop P (suc n) (x ∷ xs) h = All-drop P n xs h.1

All-self {ℓ} : {A : Type ℓ} (xs : List A) → All (λ x. Any (λ y. y ≡ x) xs) xs
All-self [] = tt
All-self (x ∷ xs) = (
  here refl,
  All-map_le (λ z. Any (λ y. y ≡ z) xs) (λ z. Any (λ y. y ≡ z) (x ∷ xs)) xs (λ z h. there h)
      (All-self xs),
)

All-both {ℓ κ ι} :
    {A : Type ℓ} (P : A → Type κ) (Q : A → Type ι) (xs : List A)
    → All P xs
    → All Q xs
    → All (λ x. P x × Q x) xs
All-both P Q [] h k = tt
All-both P Q (x ∷ xs) h k = ((h.0, k.0), All-both P Q xs h.1 k.1)

pub get_or-set_other {ℓ} :
    {A : Type ℓ} (xs : List A) (i j : ℕ) (y d : A) → i ≢ j → get_or (set xs i y) j d ≡ get_or xs j d
get_or-set_other [] i j y d h = refl
get_or-set_other (x ∷ xs) zero zero y d h = absurd (h refl)
get_or-set_other (x ∷ xs) zero (suc j) y d h = refl
get_or-set_other (x ∷ xs) (suc i) zero y d h = refl
get_or-set_other (x ∷ xs) (suc i) (suc j) y d h =
    get_or-set_other xs i j y d (λ e. h (omega (arith, e)))

-- A term that the loop may force: its variable is there, and if it is counted and above the slack, the
-- literal is allowed.
abbrev Forces : (Lit → Type 0) → Model → ℤ → Term → Type 0
Forces P m w t =
    (var t.1 < length m.truth_value_of_var) × (is_counted m t.1 ≡ true → w <ℤ pos t.0 → P t.1)

pub propagate_terms-Grows :
    (P : Lit → Type 0) (m n : Model) (id : ℕ) (ts : List Term) (w : ℤ) (idx : ℕ)
    → IsTrail m
    → Grows P m n
    → All (Forces P m w) ts
    → Grows P m (propagate_terms id ts w n idx).0
unfolding propagate_terms
propagate_terms-Grows P m n id [] w idx t g h = g
propagate_terms-Grows P m n id (x ∷ xs) w idx t g ((range, allowed), h) =
    elim (Bool-cases (ltb_ℤ w (pos x.0))) [
      | inr stop ↦ rw stop g
      | inl more ↦ elim (Bool-cases (is_undef_lit x.1 n)) [
        | inr set_already ↦
            rw (more, set_already) (propagate_terms-Grows P m n id xs w (suc idx) t g h)
        | inl undef ↦
            let (same_prop, same_size, longer) = Grows-same P m n g in
            let counted_now : is_counted m x.1 ≡ true =
              sym (Grows-is_counted P m n x.1 g t) ∙ undef-is_counted n x.1 undef in
            let less : w <ℤ pos x.0 = ground (arith, more) in
            rw (more, undef)
              (propagate_terms-Grows P m (set_true_due_to_reason x.1 (pb_constraint id) n) id xs w
                (suc idx) t
                (grow m n x.1 (pb_constraint id) g
                  (in_range-IsUndef x.1 n (omega (arith, same_size, range)) undef)
                  (allowed counted_now less))
                h)
      ]
    ]

-- The terms of a constraint whose counter leaves at most `w`.
pub terms-Forces :
    (o : Solver) (id : ℕ) (w : ℤ)
    → IsListed o
    → pos 0 -ℤ (ctr_at o id).rhs +ℤ pos (total (kept (is_counted o.model)) (ctr_at o id).lhs) ≤ℤ w
    → All (Forces (Entailed o) o.model w) (ctr_at o id).lhs
terms-Forces o id w k bound =
    All-map_le (λ t. (var t.1 < variables o) × Any (λ y. y ≡ t) (ctr_at o id).lhs) _
      (ctr_at o id).lhs
      (λ t h. (
        h.0,
        λ counted less σ all a.
            kept-entails (is_counted o.model) σ (is_counted-Misses o.model σ a) (ctr_at o id) w t
              bound (all.constraints id) h.1 counted less,
      ))
      (All-both _ _ (ctr_at o id).lhs (k.terms_in_range id) (All-self (ctr_at o id).lhs))

pub set-ctr :
    (s : Solver) (id j : ℕ) (c : PbConstraint)
    → c.ctr ≡ ctr_at s id
    → (get_or (set s.constraints_pb id c) j no_constraint).ctr ≡ ctr_at s j
set-ctr s id j c e = at s.constraints_pb id j e
  where
    at :
        (cs : List PbConstraint) (i k : ℕ)
        → c.ctr ≡ (get_or cs i no_constraint).ctr
        → (get_or (set cs i c) k no_constraint).ctr ≡ (get_or cs k no_constraint).ctr
    at [] i k f = refl
    at (x ∷ xs) zero zero f = f
    at (x ∷ xs) zero (suc k) f = refl
    at (x ∷ xs) (suc i) zero f = refl
    at (x ∷ xs) (suc i) (suc k) f = at xs i k f

pub propagate_pb_ctr_counter-Reached :
    (o s : Solver) (es : List GeneralWatchListElem) (id : ℕ) (w : ℤ)
    → IsTrail o.model
    → IsListed o
    → Reached o es s
    → pos 0 -ℤ (ctr_at o id).rhs +ℤ pos (total (kept (is_counted o.model)) (ctr_at o id).lhs) ≤ℤ w
    → Reached o es (propagate_pb_ctr_counter id w s)
unfolding propagate_pb_ctr_counter
propagate_pb_ctr_counter-Reached o s es id w t k r bound =
    let c = get_or s.constraints_pb id no_constraint in
    let fresh = ltb c.num_backjump s.num_of_backjump in
    let idx = if fresh then 0 else c.max_w_idx in
    let forces =
      subst (λ (x : WConstraint). All (Forces (Entailed o) o.model w) x.lhs) (sym (r.same_ctrs id))
        (terms-Forces o id w k bound) in
    record {
      grows =
          propagate_terms-Grows (Entailed o) o.model s.model id (drop idx c.ctr.lhs) w idx t r.grows
            (All-drop (Forces (Entailed o) o.model w) idx c.ctr.lhs forces);
      same_ctrs = λ j. set-ctr s id j _ refl ∙ r.same_ctrs j;
      same_len = length-set s.constraints_pb id _ ∙ r.same_len;
      sized = r.sized ∙ sym (length-set s.constraints_pb id _);
      counted = r.counted;
      same_gen = r.same_gen;
      same_occ = r.same_occ;
      covers = r.covers;
      clauses_in_range = r.clauses_in_range;
    }

shift_sum :
    (s r : ℤ) (f n c p : ℕ)
    → s +ℤ pos f ≡ r +ℤ pos (n + (c + p))
    → s -ℤ pos c +ℤ pos f ≡ r +ℤ pos (n + p)
shift_sum s r f n c p e = let a = ap pos_part e in let b = ap neg_part e in omega (int_laws, a, b)

pub lower-Counted :
    (o : Solver) (sums : List ℤ) (coef id : ℕ) (es : List GeneralWatchListElem)
    → Counted o sums (counterpb coef id ∷ es)
    → id < length sums
    → Counted o (set sums id (get_or sums id (pos 0) -ℤ pos coef)) es
lower-Counted o sums coef id es h w j range = elim (Bool-cases (id == j)) [
  | inl same ↦
      let q : id ≡ j = ground (arith, same) in
      let before = rw same at (h j range) in
      let here = get_or-set sums id j (get_or sums id (pos 0) -ℤ pos coef) (pos 0) w in
      let at : get_or sums id (pos 0) ≡ get_or sums j (pos 0) = ap (λ i. get_or sums i (pos 0)) q in
      rw (here, same, at) (shift_sum _ _ _ _ coef (pending j es) before)
  | inr apart ↦
      let before = rw apart at (h j range) in
      let other =
        get_or-set_other sums id j (get_or sums id (pos 0) -ℤ pos coef) (pos 0)
          (λ q. ground (arith, q, apart)) in
      let total_eq : total (kept (is_counted o.model)) (ctr_at o j).lhs + (0 + pending j es)
          ≡ total (kept (is_counted o.model)) (ctr_at o j).lhs + pending j es =
        omega arith in
      rw other (before ∙ ap (λ n. pos 0 -ℤ (ctr_at o j).rhs +ℤ pos n) total_eq)
]
