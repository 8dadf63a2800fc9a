-- ===== src/Solver/Counted.antt =====
-- Which literals a counter counts: all but those that are false and propagated. Assignments do not change
-- that; propagating a literal removes its negation, and taking a propagated literal back restores it.
pub mod Next
pub mod Undone
use cube_conquer_pb.Base.{
  ℕ, suc, ◌+◌, ◌-◌, ◌≡◌, ◌≢◌, refl, sym, ◌∙◌, ap, subst, Bool, true, false, not, ◌&&◌, ◌||◌, List,
  [], ◌∷◌, if◌then◌else◌, ltb, ◌==◌, ◌≤◌, ◌<◌, ◌⊎◌, Option, none, some, get_or, get_or-set,
  get_elem?, set, length, total, Bool-cases, inl, inr, arith,
}
use cube_conquer_pb.Constraint.{Lit, plus, minus, Term, var, lit_eq, neg}
use cube_conquer_pb.Reasons.{Content}
use cube_conquer_pb.Trail.{
  Model, Truth, under, unassigned, is_true, is_false, truth_of, StackElement, value_of_lit,
  is_true_lit, is_false_lit, is_undef_lit, is_lit_propagated, set_true_due_to_reason, push_lit,
  drop_top,
}
use cube_conquer_pb.Trail.Undo.{IsTrail, IsUndef, At, some_eq, Recorded}
use cube_conquer_pb.ConstraintValue.{is_counted}
use cube_conquer_pb.ConstraintValue.Slack.{kept}

pub lit_eq-true : (a b : Lit) → lit_eq a b ≡ true → a ≡ b
lit_eq-true (plus v) (plus w) e = ap plus (ground (arith, e))
lit_eq-true (minus v) (minus w) e = ap minus (ground (arith, e))
lit_eq-true (plus v) (minus w) e = cc
lit_eq-true (minus v) (plus w) e = cc

pub lit_eq_refl : (a : Lit) → lit_eq a a ≡ true
lit_eq_refl (plus v) = ground arith
lit_eq_refl (minus v) = ground arith

-- The coefficient of a literal.
abbrev pub coef_of_lit : Lit → Term → ℕ
coef_of_lit l t = if lit_eq t.1 l then t.0 else 0

abbrev pub coefficient : Lit → List Term → ℕ
coefficient l ts = total (coef_of_lit l) ts

-- The second test keeps what the first keeps but for one literal.
pub total-kept_without :
    (keep less : Lit → Bool) (l : Lit) (ts : List Term)
    → keep l ≡ true
    → less l ≡ false
    → ((k : Lit) → lit_eq k l ≡ false → less k ≡ keep k)
    → total (kept keep) ts ≡ total (kept less) ts + coefficient l ts
total-kept_without keep less l [] h d same = refl
total-kept_without keep less l (t ∷ ts) h d same =
    let ih = total-kept_without keep less l ts h d same in
    elim (Bool-cases (lit_eq t.1 l)) [
      | inl e ↦
          let q = lit_eq-true t.1 l e in
          let a : keep t.1 ≡ true = ap keep q ∙ h in
          let b : less t.1 ≡ false = ap less q ∙ d in rw (e, a, b) (omega (arith, ih))
      | inr e ↦ (let a = same t.1 e in rw (e, a) (omega (arith, ih)))
    ]

pub total-kept_same :
    (keep less : Lit → Bool) (ts : List Term)
    → ((k : Lit) → less k ≡ keep k)
    → total (kept keep) ts ≡ total (kept less) ts
total-kept_same keep less [] same = refl
total-kept_same keep less (t ∷ ts) same =
    let a = same t.1 in let ih = total-kept_same keep less ts same in rw a (omega (arith, ih))

-- A literal without a value is counted.
pub undef-is_counted : (m : Model) (l : Lit) → is_undef_lit l m ≡ true → is_counted m l ≡ true
unfolding is_counted is_undef_lit is_false_lit value_of_lit
undef-is_counted m (plus v) e = ground (arith, e)
undef-is_counted m (minus v) e = ground (arith, e)

-- Counting depends on the value and the height of the variable.
abbrev pub counts : Lit → Truth → Option ℕ → ℕ → Bool
counts l t none p = not (elim (under l t) [ is_false ↦ true | _ ↦ false ]) || not true
counts l t (some h) p = not (elim (under l t) [ is_false ↦ true | _ ↦ false ]) || not (ltb h p)

pub is_counted-value :
    (m : Model) (k : Lit) (t : Truth) (h : Option ℕ)
    → get_or m.truth_value_of_var (var k) unassigned ≡ t
    → get_or m.stack_height_of_var (var k) none ≡ h
    → is_counted m k ≡ counts k t h m.propagated
unfolding is_counted is_false_lit is_lit_propagated value_of_lit
is_counted-value m k t none e f =
    rw (is_counted, is_false_lit, is_lit_propagated, value_of_lit, e, f) refl
is_counted-value m k t (some h) e f =
    rw (is_counted, is_false_lit, is_lit_propagated, value_of_lit, e, f) refl

counts-fresh :
    (l k : Lit) (n p : ℕ) → p ≤ n → counts k (truth_of l) (some n) p ≡ counts k unassigned none p
counts-fresh l (plus v) n p le = ground (arith, le)
counts-fresh l (minus v) n p le = ground (arith, le)

pub is_counted-push :
    (m : Model) (dl : ℕ) (l : Lit) (r : Content) (k : Lit)
    → IsTrail m
    → IsUndef l m
    → is_counted (push_lit dl l r m) k ≡ is_counted m k
unfolding push_lit
is_counted-push m dl l r k t (w, u) =
    let ts = m.truth_value_of_var in
    let hs = m.stack_height_of_var in
    let tall = t.heights in
    let in_heights : var l < length hs = omega arith in
    let value = get_or-set ts (var l) (var k) (truth_of l) unassigned w in
    let height = get_or-set hs (var l) (var k) (some (length m.model_stack)) none in_heights in
    elim (Bool-cases (var l == var k)) [
      | inr apart ↦
          is_counted-value (push_lit dl l r m) k (get_or ts (var k) unassigned)
            (get_or hs (var k) none) (rw apart at value) (rw apart at height)
          ∙ sym (is_counted-value m k _ _ refl refl)
      | inl same ↦
          let q : var l ≡ var k = ground (arith, same) in
          let old = subst (λ v. get_or ts v unassigned ≡ unassigned) q u in
          is_counted-value (push_lit dl l r m) k (truth_of l) (some (length m.model_stack))
            (rw same at value) (rw same at height)
          ∙ counts-fresh l k (length m.model_stack) m.propagated t.behind
          ∙ sym (
              is_counted-value m k unassigned none old
                (subst (λ v. get_or hs v none ≡ none) q (t.unplaced (var l) u)))
    ]

pub At-lt : (v h : ℕ) (es : List StackElement) → At v h es → h < length es
At-lt v h [] a = absurd a
At-lt v h (e ∷ es) (inl (q, at)) = omega (arith, at)
At-lt v h (e ∷ es) (inr a) = omega (arith, At-lt v h es a)

-- The element at the height of a variable is its own.
pub At-get :
    (v h : ℕ) (es : List StackElement) (e : StackElement)
    → At v h es
    → get_elem? es (length es - (h + 1)) ≡ some e
    → v ≡ var e.lit
At-get v h [] e a f = absurd a
At-get v h (x ∷ es) e (inl (q, at)) f =
    let i : suc (length es) - (h + 1) ≡ 0 = omega (arith, at) in
    let g = rw i at f in let same : x ≡ e = cc in q ∙ ap (λ y. var y.lit) same
At-get v h (x ∷ es) e (inr a) f =
    let less = At-lt v h es a in
    let i : suc (length es) - (h + 1) ≡ suc (length es - (h + 1)) = omega (arith, less) in
    At-get v h es e a (rw i at f)

pub Recorded-get :
    (es : List StackElement) (ts : List Truth) (hs : List (Option ℕ)) (h : ℕ) (e : StackElement)
    → Recorded es ts hs
    → h < length es
    → get_elem? es (length es - (h + 1)) ≡ some e
    → (var e.lit < length ts)
      × (get_or ts (var e.lit) unassigned ≡ truth_of e.lit)
      × (get_or hs (var e.lit) none ≡ some h)
Recorded-get [] ts hs h e r w f = absurd (omega arith)
Recorded-get (x ∷ es) ts hs h e (in_range, value, height, rest) w f =
    elim (Bool-cases (h == length es)) [
      | inl top ↦
          let at : h ≡ length es = ground (arith, top) in
          let i : suc (length es) - (h + 1) ≡ 0 = omega (arith, at) in
          let g = rw i at f in
          let same : x ≡ e = cc in
          subst
            (λ y.
              (var y.lit < length ts)
              × (get_or ts (var y.lit) unassigned ≡ truth_of y.lit)
              × (get_or hs (var y.lit) none ≡ some h))
            same (in_range, value, height ∙ ap some (sym at))
      | inr below ↦
          let less : h < length es = ground (arith, below, w) in
          let i : suc (length es) - (h + 1) ≡ suc (length es - (h + 1)) = omega (arith, less) in
          Recorded-get es ts hs h e rest less (rw i at f)
    ]

pub counts-true : (l : Lit) (h p : ℕ) → counts l (truth_of l) (some h) p ≡ true
counts-true (plus v) h p = refl
counts-true (minus v) h p = refl

pub counts-neg : (l : Lit) (h p : ℕ) → counts (neg l) (truth_of l) (some h) p ≡ not (ltb h p)
counts-neg (plus v) h p = refl
counts-neg (minus v) h p = refl

pub counts-step :
    (k : Lit) (t : Truth) (h p q : ℕ)
    → ltb h p ≡ ltb h q
    → counts k t (some h) p ≡ counts k t (some h) q
counts-step k t h p q e = rw e refl

pub counts-unassigned : (k : Lit) (p : ℕ) → counts k unassigned none p ≡ true
counts-unassigned (plus v) p = refl
counts-unassigned (minus v) p = refl

-- A literal over the variable of another is that literal or its negation.
pub same_var : (k l : Lit) → var l ≡ var k → lit_eq k (neg l) ≡ false → k ≡ l
same_var (plus v) (plus w) q e = ap plus (sym q)
same_var (minus v) (minus w) q e = ap minus (sym q)
same_var (plus v) (minus w) q e = absurd (ground (arith, q, e))
same_var (minus v) (plus w) q e = absurd (ground (arith, q, e))

pub var-neg : (l : Lit) → var (neg l) ≡ var l
var-neg (plus v) = refl
var-neg (minus v) = refl
