-- ===== src/Messages/TimeLimit.antt =====
-- The time limit of a task doubles with its depth and never passes the largest int.
use native.Mathlib.Nat.{pow-succ', mul-le-mul_left, mul_assoc}
use cube_conquer_pb.Base.{
  ℕ, zero, suc, ◌*◌, ◌^◌, ◌≡◌, sym, ap, ◌∙◌, ◌≤◌, min, Bool-cases, ltb, inl, inr, arith,
}
use cube_conquer_pb.Messages.{int_max, double_limit, compute_split_time_limit}

two_pow-pos : (n : ℕ) → 1 ≤ 2 ^ n
two_pow-pos zero = omega arith
two_pow-pos (suc n) = omega (arith, pow-succ' 2 n, two_pow-pos n)

double_limit-min :
    (rounds limit : ℕ)
    → limit ≤ int_max
    → double_limit rounds limit ≡ min (limit * 2 ^ rounds) int_max
unfolding double_limit
double_limit-min zero limit h = omega arith
double_limit-min (suc rounds) limit h =
    let grown = mul-le-mul_left (limit * 2) (two_pow-pos rounds) in
    let doubled : limit * 2 * 2 ^ rounds ≡ limit * 2 ^ suc rounds =
      mul_assoc limit 2 (2 ^ rounds) ∙ ap (λ x. limit * x) (sym (pow-succ' 2 rounds)) in
    elim (Bool-cases (ltb 1073741823 limit)) [
      | inl e ↦ rw (e, double_limit) (ground (arith, e, grown, doubled))
      | inr e ↦
          rw (e, double_limit) (ground (arith, e, doubled, double_limit-min rounds (limit * 2)))
    ]

-- From a base limit that is an int, the limit of a task at depth `d` is the base doubled `d` times, or
-- the largest int where that is less.
pub compute_split_time_limit-min :
    (base split_depth : ℕ)
    → base ≤ int_max
    → compute_split_time_limit base split_depth ≡ min (base * 2 ^ split_depth) int_max
unfolding compute_split_time_limit
compute_split_time_limit-min base split_depth h = double_limit-min split_depth base h
