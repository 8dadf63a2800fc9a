-- ===== src/Base/Arith.antt =====
-- `std::gcd` and `divisionRoundedUp` of src/Functions.h, on native numbers.
use Prim.Native.Nat.{ℕ, zero, suc, ◌+◌, ◌*◌, ◌/◌, ◌%◌, ◌≤◌, ◌<◌}
use mathlib.Core.Path.{◌≡◌, ap}
use mathlib.Core.Logic.{inl, inr, ◌↔◌}
use mathlib.Core.Bool.{true, false}
use native.Mathlib.Nat.{
  div-add-mod, lt-mul-div-succ, mul-le-mul_left, div-lt_iff_lt-mul, mul-div_cancel_left,
}
use native.Mathlib.Omega.{arith}
use cube_conquer_pb.Base.Tests.{◌==◌, if◌then◌else◌, Bool-cases}

-- `std::gcd`: Euclid's algorithm. The second number falls in each round, so it bounds the rounds.
unfoldable pub euclid : ℕ → ℕ → ℕ → ℕ
euclid zero a b = a
euclid (suc rounds) a b = elim (b == 0) [ true ↦ a | false ↦ euclid rounds b (a % b) ]

unfoldable pub gcd : ℕ → ℕ → ℕ
unfolding euclid
gcd a b = euclid b a b

abbrev pub Divides : ℕ → ℕ → Type 0
Divides d n = (q : ℕ) × (n ≡ d * q)

Divides-step : (d a b : ℕ) → Divides d b → Divides d (a % b) → Divides d a
Divides-step d a b (q, e) (r, f) =
    (q * (a / b) + r, omega (arith, div-add-mod a b, ap (λ (t : ℕ). t * (a / b)) e))

Divides-self_zero : (a b : ℕ) → b ≡ 0 → Divides a a × Divides a b
Divides-self_zero a b e = ((1, omega arith), (0, omega arith))

euclid-Divides :
    (rounds a b : ℕ) → b ≤ rounds → Divides (euclid rounds a b) a × Divides (euclid rounds a b) b
unfolding euclid
euclid-Divides zero a b h = Divides-self_zero a b (omega arith)
euclid-Divides (suc rounds) a b h = elim (Bool-cases (b == 0)) [
  | inl e ↦ rw (e, euclid) (Divides-self_zero a b (ground (arith, e)))
  | inr e ↦
      let ih = euclid-Divides rounds b (a % b) (ground (arith, e)) in
      rw (e, euclid) (Divides-step _ a b ih.0 ih.1, ih.0)
]

pub gcd-Divides : (a b : ℕ) → Divides (gcd a b) a × Divides (gcd a b) b
unfolding gcd
gcd-Divides a b = euclid-Divides b a b (omega arith)

-- `divisionRoundedUp`: d = n / c; if (d * c != n) d = d + 1.
unfoldable pub division_rounded_up : ℕ → ℕ → ℕ
division_rounded_up n c = if n / c * c == n then n / c else n / c + 1

-- It is the least number whose multiple by `c` reaches `n`.
pub division_rounded_up-le : (n c q : ℕ) → 0 < c → (division_rounded_up n c ≤ q) ↔ (n ≤ c * q)
unfolding division_rounded_up
division_rounded_up-le n c q h = (
  λ p. ground (arith, lt-mul-div-succ n h, mul-le-mul_left c p),
  λ p. ground (arith, div-lt_iff_lt-mul {k = c} {x = n} {y = q + 1} h),
)

pub division_rounded_up-mul : (c q : ℕ) → 0 < c → division_rounded_up (c * q) c ≡ q
unfolding division_rounded_up
division_rounded_up-mul c q h = ground (arith, mul-div_cancel_left q h)
