-- ===== src/Constraint/Duplicates.antt =====
-- `removeDuplicates` keeps the meaning of a constraint.
use cube_conquer_pb.Base.{
  ℕ, zero, suc, ◌+◌, ◌-◌, ◌≡◌, refl, ◌↔◌, List, [], ◌∷◌, arith, if◌then◌else◌, pos, -ℤ_parts,
  total-append, pos_part, neg_part, ◌≤◌, length,
}
use cube_conquer_pb.Constraint.{
  plus, minus, Term, WConstraint, var_of, Block, scan_block, close_block, remove_loop,
  remove_duplicates,
}
use cube_conquer_pb.Constraint.Semantics.{Assignment, weight, lhs_value, Satisfies}

abbrev block_value : Assignment → ℕ → Block → ℕ
block_value σ v b = (if σ v then b.pos_coeffs else b.neg_coeffs) + lhs_value σ b.rest

scan_block-value :
    (σ : Assignment) (v p n : ℕ) (ts : List Term)
    → block_value σ v (scan_block v p n ts) ≡ (if σ v then p else n) + lhs_value σ ts
unfolding scan_block
scan_block-value σ v p n [] = refl
scan_block-value σ v p n ((c, plus w) ∷ ts) = ground (arith, scan_block-value σ v (p + c) n ts)
scan_block-value σ v p n ((c, minus w) ∷ ts) = ground (arith, scan_block-value σ v p (n + c) ts)

-- A block moves its value from the terms that are left into `out`.
close_block-value :
    (σ : Assignment) (v : ℕ) (b : Block) (out : WConstraint)
    → lhs_value σ (close_block v b out).lhs + pos_part out.rhs + neg_part (close_block v b out).rhs
      ≡ lhs_value σ out.lhs
        + neg_part out.rhs
        + pos_part (close_block v b out).rhs
        + (if σ v then b.pos_coeffs else b.neg_coeffs)
unfolding close_block
close_block-value σ v b out = ground (
  arith,
  total-append (weight σ) out.lhs ((b.pos_coeffs - b.neg_coeffs, plus v) ∷ []),
  total-append (weight σ) out.lhs ((b.neg_coeffs - b.pos_coeffs, minus v) ∷ []),
  -ℤ_parts out.rhs (pos b.neg_coeffs),
  -ℤ_parts out.rhs (pos b.pos_coeffs),
)

scan_block-length-le : (v p n : ℕ) (ts : List Term) → length (scan_block v p n ts).rest ≤ length ts
unfolding scan_block
scan_block-length-le v p n [] = omega arith
scan_block-length-le v p n ((c, plus w) ∷ ts) = ground (arith, scan_block-length-le v (p + c) n ts)
scan_block-length-le v p n ((c, minus w) ∷ ts) = ground (arith, scan_block-length-le v p (n + c) ts)

pub scan_block-length-lt :
    (t : Term) (ts : List Term) → length (scan_block (var_of t) 0 0 (t ∷ ts)).rest ≤ length ts
unfolding scan_block
scan_block-length-lt (c, plus w) ts = ground (arith, scan_block-length-le w (0 + c) 0 ts)
scan_block-length-lt (c, minus w) ts = ground (arith, scan_block-length-le w 0 (0 + c) ts)

-- The slack, value less constant, as an equation without subtraction.
abbrev pub SameSlack : Assignment → WConstraint → ℕ → WConstraint → Type 0
SameSlack σ c left d =
    lhs_value σ c.lhs + neg_part c.rhs + pos_part d.rhs
    ≡ lhs_value σ d.lhs + left + neg_part d.rhs + pos_part c.rhs

remove_loop-value :
    (σ : Assignment) (fuel : ℕ) (ts : List Term) (out : WConstraint)
    → length ts ≤ fuel
    → SameSlack σ (remove_loop fuel ts out) (lhs_value σ ts) out
unfolding remove_loop
remove_loop-value σ fuel [] out h = omega arith
remove_loop-value σ zero (t ∷ ts) out h = absurd (omega arith)
remove_loop-value σ (suc fuel) (t ∷ ts) out h =
    let v = var_of t in
    let b = scan_block v 0 0 (t ∷ ts) in
    ground (
      arith,
      remove_loop-value σ fuel b.rest (close_block v b out),
      scan_block-length-lt t ts,
      scan_block-value σ v 0 0 (t ∷ ts),
      close_block-value σ v b out,
    )

-- The value less the constant is the same before and after `remove_duplicates`, under every assignment,
-- on ordered and unordered terms.
pub remove_duplicates-SameSlack :
    (σ : Assignment) (c : WConstraint) → SameSlack σ (remove_duplicates c) 0 c
unfolding remove_duplicates
remove_duplicates-SameSlack σ c = omega (
  arith,
  remove_loop-value σ (length c.lhs) c.lhs (record { lhs = []; rhs = c.rhs }) (omega arith),
)

pub remove_duplicates-Satisfies :
    (σ : Assignment) (c : WConstraint) → Satisfies σ (remove_duplicates c) ↔ Satisfies σ c
remove_duplicates-Satisfies σ c = (
  λ h. omega (arith, remove_duplicates-SameSlack σ c),
  λ h. omega (arith, remove_duplicates-SameSlack σ c),
)
