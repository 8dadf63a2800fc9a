-- ===== src/Cubes/Probe.antt =====
-- The lookahead over the variables and the rounds of failed literals.
use cube_conquer_pb.Base.{
  ℕ, zero, suc, ◌+◌, ◌≡◌, refl, sym, ◌∙◌, ap, subst, true, false, List, [], ◌∷◌, length, arith,
  Bool-cases, Option, none, inl, inr, drop, Any, here, there, ◌≤◌, ◌<◌,
}
use cube_conquer_pb.Constraint.{Lit, plus, minus, var}
use cube_conquer_pb.Constraint.Semantics.{Assignment, holds}
use cube_conquer_pb.Cubes.{
  Backend, Heuristic, Params, Best, Lookahead, refuted, failed_literal, ranked, look_ahead, Probed,
  dead, ready, out_of_fuel, probe,
}
use cube_conquer_pb.Cubes.Laws.{AllHold, Laws, undefs}

module _ (b : Backend) (h : Heuristic) (p : Params) (Solves : Assignment → Type 0)
    (laws : Laws b Solves) where
  open b use {State, assigned_vars, is_undef_lit, assume_and_propagate, backtrack}
  open laws use {decisions}

  -- A step that takes back what it did.
  pub record Kept (s t : State) : Type 0 where
    same_decisions : decisions t ≡ decisions s
    same_undefs : (m : Lit) → is_undef_lit t m ≡ is_undef_lit s m

  assume_backtrack : (l : Lit) (s : State) → Kept s (backtrack 1 (assume_and_propagate l s).1)
  assume_backtrack l s = record {
    same_decisions =
        laws.decisions-backtrack 1 (assume_and_propagate l s).1
        ∙ ap (drop 1) (laws.decisions-assume l s);
    same_undefs = λ m. laws.undef-backtrack l m s;
  }

  Kept-trans : (s t u : State) → Kept s t → Kept t u → Kept s u
  Kept-trans s t u k l = record {
    same_decisions = l.same_decisions ∙ k.same_decisions;
    same_undefs = λ m. l.same_undefs m ∙ k.same_undefs m;
  }

  -- No assignment is left below the decisions.
  abbrev pub Closed : List Lit → Type 0
  Closed ls = (σ : Assignment) → Solves σ → AllHold σ ls → ⊥

  -- The literal follows from the decisions.
  abbrev pub Forced : List Lit → Lit → Type 0
  Forced ls l = (σ : Assignment) → Solves σ → AllHold σ ls → holds σ l ≡ true

  -- A variable of the list loses its undefined state, and no variable gains it.
  pub record Falls (vs : List ℕ) (s t : State) : Type 0 where
    which : ℕ
    listed : Any (λ w. w ≡ which) vs
    before : is_undef_lit s (plus which) ≡ true
    after : is_undef_lit t (plus which) ≡ false
    others : (m : Lit) → is_undef_lit t m ≡ true → is_undef_lit s m ≡ true

  abbrev pub LookSound : List ℕ → State → Lookahead b h p → Type 0
  LookSound vs s (refuted t) = (decisions t ≡ decisions s) × Closed (decisions s)
  LookSound vs s (failed_literal t) =
      (l : Lit) × (decisions t ≡ l ∷ decisions s) × Forced (decisions s) l × Falls vs s t
  LookSound vs s (ranked best t) = decisions t ≡ decisions s

  LookSound-weaken :
      (v : ℕ) (vs : List ℕ) (s t : State) (r : Lookahead b h p)
      → Kept s t
      → LookSound vs t r
      → LookSound (v ∷ vs) s r
  LookSound-weaken v vs s t (refuted u) k (e, c) =
      (e ∙ k.same_decisions, subst Closed k.same_decisions c)
  LookSound-weaken v vs s t (failed_literal u) k (l, e, c, f) = (
    l,
    e ∙ ap (λ ls. l ∷ ls) k.same_decisions,
    subst (λ ls. Forced ls l) k.same_decisions c,
    record {
      which = f.which;
      listed = there f.listed;
      before = sym (k.same_undefs (plus f.which)) ∙ f.before;
      after = f.after;
      others = λ m q. sym (k.same_undefs m) ∙ f.others m q;
    },
  )
  LookSound-weaken v vs s t (ranked best u) k e = e ∙ k.same_decisions

  -- Where one sign of a variable fails, the other one follows.
  minus-Forced :
      (v : ℕ) (s : State)
      → (assume_and_propagate (plus v) s).0 ≡ false
      → Forced (decisions s) (minus v)
  minus-Forced v s e σ m d = rw (laws.refutes σ (plus v) s e m d) refl

  plus-Forced :
      (v : ℕ) (s : State)
      → (assume_and_propagate (minus v) s).0 ≡ false
      → Forced (decisions s) (plus v)
  plus-Forced v s e σ m d = elim (Bool-cases (σ v)) [
    | inl q ↦ q
    | inr q ↦ let r = laws.refutes σ (minus v) s e m d in cc
  ]

  assume-Sound :
      (v : ℕ) (vs : List ℕ) (l : Lit) (s t : State)
      → var l ≡ v
      → Kept s t
      → is_undef_lit s (plus v) ≡ true
      → Forced (decisions s) l
      → LookSound (v ∷ vs) s (failed_literal (assume_and_propagate l t).1)
  assume-Sound v vs l s t q k u f = (
    l,
    laws.decisions-assume l t ∙ ap (λ ls. l ∷ ls) k.same_decisions,
    f,
    record {
      which = v;
      listed = here refl;
      before = u;
      after =
          subst (λ w. is_undef_lit (assume_and_propagate l t).1 (plus w) ≡ false) q
            (laws.defined-assume l t);
      others = λ m e. sym (k.same_undefs m) ∙ laws.undef-assume l m t e;
    },
  )

  look_ahead-Sound :
      (num_dec base : ℕ) (vs : List ℕ) (best : Option Best) (s : State)
      → LookSound vs s (look_ahead b h p num_dec base vs best s)
  unfolding look_ahead
  look_ahead-Sound num_dec base [] best s = refl
  look_ahead-Sound num_dec base (v ∷ vs) best s =
      let pos_try = assume_and_propagate (plus v) s in
      let s1 = backtrack 1 pos_try.1 in
      let neg_try = assume_and_propagate (minus v) s1 in
      let s2 = backtrack 1 neg_try.1 in
      let k1 = assume_backtrack (plus v) s in
      let k2 = Kept-trans s s1 s2 k1 (assume_backtrack (minus v) s1) in
      elim (Bool-cases (is_undef_lit s (plus v))) [
        | inr u ↦
            rw (u, look_ahead)
              (LookSound-weaken v vs s s _
                (record { same_decisions = refl; same_undefs = λ m. refl })
                (look_ahead-Sound num_dec base vs best s))
        | inl u ↦ elim (Bool-cases pos_try.0) [
          | inl e ↦ elim (Bool-cases neg_try.0) [
            | inl f ↦
                rw (u, e, f, look_ahead)
                  (LookSound-weaken v vs s s2 _ k2 (look_ahead-Sound num_dec base vs _ s2))
            | inr f ↦
                let c = subst (λ ls. Forced ls (plus v)) k1.same_decisions (plus-Forced v s1 f) in
                rw (u, e, f, look_ahead) (assume-Sound v vs (plus v) s s2 refl k2 u c)
          ]
          | inr e ↦ elim (Bool-cases neg_try.0) [
            | inl f ↦
                rw (u, e, f, look_ahead)
                  (assume-Sound v vs (minus v) s s2 refl k2 u (minus-Forced v s e))
            | inr f ↦
                let c = subst (λ ls. Forced ls (plus v)) k1.same_decisions (plus-Forced v s1 f) in
                rw (u, e, f, look_ahead)
                  (
                    k2.same_decisions,
                    λ σ m d. (let x = c σ m d in let y = minus-Forced v s e σ m d in cc),
                  )
          ]
        ]
      ]

  Fewer : State → State → Type 0
  Fewer s t = (m : Lit) → is_undef_lit t m ≡ true → is_undef_lit s m ≡ true

  undefs-le : (vs : List ℕ) (s t : State) → Fewer s t → undefs b t vs ≤ undefs b s vs
  unfolding Fewer
  undefs-le [] s t f = omega arith
  undefs-le (v ∷ vs) s t f = ground (arith, undefs-le vs s t f, f (plus v))

  undefs-lt :
      (vs : List ℕ) (x : ℕ) (s t : State)
      → Any (λ w. w ≡ x) vs
      → is_undef_lit s (plus x) ≡ true
      → is_undef_lit t (plus x) ≡ false
      → Fewer s t
      → undefs b t vs < undefs b s vs
  unfolding Fewer
  undefs-lt [] x s t i e g f = elim i [ ]
  undefs-lt (v ∷ vs) x s t (here q) e g f =
      let e' : is_undef_lit s (plus v) ≡ true = rw q e in
      let g' : is_undef_lit t (plus v) ≡ false = rw q g in ground (arith, undefs-le vs s t f)
  undefs-lt (v ∷ vs) x s t (there i) e g f = ground (arith, undefs-lt vs x s t i e g f, f (plus v))

  undefs-le-length : (s : State) (vs : List ℕ) → undefs b s vs ≤ length vs
  undefs-le-length s [] = omega arith
  undefs-le-length s (v ∷ vs) = ground (arith, undefs-le-length s vs)

  -- What the node decided, and the failed literals on top of it, which follow.
  pub record Above (ds : List Lit) (k : ℕ) (s : State) : Type 0 where
    pub below : drop k (decisions s) ≡ ds
    pub follow : (σ : Assignment) → Solves σ → AllHold σ ds → AllHold σ (decisions s)

  abbrev pub ProbeSound : List Lit → Probed b h p → Type 0
  ProbeSound ds (dead t) = (decisions t ≡ ds) × Closed ds
  ProbeSound ds (ready best k t) = Above ds k t
  ProbeSound ds out_of_fuel = ⊥

  dead-Sound :
      (ds : List Lit) (k : ℕ) (s t : State)
      → Above ds k s
      → decisions t ≡ decisions s
      → Closed (decisions s)
      → ProbeSound ds (dead (backtrack k t))
  dead-Sound ds k s t a e c =
      (laws.decisions-backtrack k t ∙ ap (drop k) e ∙ a.below, λ σ m d. c σ m (a.follow σ m d))

  Above-push :
      (ds : List Lit) (k : ℕ) (l : Lit) (s t : State)
      → Above ds k s
      → decisions t ≡ l ∷ decisions s
      → Forced (decisions s) l
      → Above ds (k + 1) t
  Above-push ds k l s t a e f =
      let one : k + 1 ≡ suc k = omega arith in
      record {
        below = rw one (ap (drop (suc k)) e ∙ a.below);
        follow = λ σ m d. let all = a.follow σ m d in subst (AllHold σ) (sym e) (f σ m all, all);
      }

  probe-Sound :
      (fuel num_dec k : ℕ) (s : State) (ds : List Lit)
      → undefs b s p.vars < fuel
      → Above ds k s
      → ProbeSound ds (probe b h p fuel num_dec k s)
  unfolding probe Fewer
  probe-Sound zero num_dec k s ds u a = absurd (omega arith)
  probe-Sound (suc fuel) num_dec k s ds u a =
      by_look (λ k' t u' a'. probe-Sound fuel num_dec k' t ds u' a')
        (look_ahead b h p num_dec (assigned_vars s) p.vars none s) refl
    where
      by_look :
          ((k' : ℕ) (t : State)
            → undefs b t p.vars < fuel
            → Above ds k' t
            → ProbeSound ds (probe b h p fuel num_dec k' t))
          → (r : Lookahead b h p) → look_ahead b h p num_dec (assigned_vars s) p.vars none s ≡ r
          → ProbeSound ds (probe b h p (suc fuel) num_dec k s)
      by_look next (refuted t) e =
          let sound = look_ahead-Sound num_dec (assigned_vars s) p.vars none s in
          let (d, c) = rw e at sound in rw (e, probe) (dead-Sound ds k s t a d c)
      by_look next (failed_literal t) e =
          let sound = look_ahead-Sound num_dec (assigned_vars s) p.vars none s in
          let (l, d, c, f) = rw e at sound in
          let less = undefs-lt p.vars f.which s t f.listed f.before f.after f.others in
          rw (e, probe) (next (k + 1) t (omega arith) (Above-push ds k l s t a d c))
      by_look next (ranked best t) e =
          let sound = look_ahead-Sound num_dec (assigned_vars s) p.vars none s in
          let d = rw e at sound in
          rw (e, probe)
            (record {
              below = ap (drop k) d ∙ a.below;
              follow = λ σ m x. subst (AllHold σ) (sym d) (a.follow σ m x);
            })

  -- The rounds of a node end, with as much fuel as it has variables and one.
  pub node_probe-Sound :
      (num_dec : ℕ) (s : State)
      → ProbeSound (decisions s) (probe b h p (suc (length p.vars)) num_dec 0 s)
  node_probe-Sound num_dec s =
      let u = undefs-le-length s p.vars in
      probe-Sound (suc (length p.vars)) num_dec 0 s (decisions s) (omega arith)
        (record { below = refl; follow = λ σ m d. d })
