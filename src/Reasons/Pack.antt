-- ===== src/Reasons/Pack.antt =====
-- A packed reason reads back as what was packed, while its number is below 2^28.
use cube_conquer_pb.Base.{
  ℕ, ◌+◌, ◌*◌, ◌/◌, ◌%◌, ◌^◌, ◌≡◌, refl, ◌<◌, true, false, ◌==◌, some, arith,
}
use cube_conquer_pb.Constraint.{Lit, plus, minus}
use cube_conquer_pb.Reasons.{
  Content, no_reason, pb_constraint, clause, bin_clause, cardinality, store_int, code_of_lit,
  reason_of, get_other_bin_lit, read_reason,
}

abbrev pub Packs : Content → Type 0
Packs no_reason = Unit {0}
Packs (pb_constraint r) = r < 2 ^ 28
Packs (clause r) = r < 2 ^ 28
Packs (bin_clause l) = code_of_lit l < 2 ^ 28
Packs (cardinality r) = r < 2 ^ 28

store_int-small : (n : ℕ) → n < 2 ^ 31 → store_int n ≡ n
unfolding store_int
store_int-small n h = ground arith

-- The tests of `read_reason`, from the number and the type that make up a word.
tests :
    (n r tag : ℕ)
    → n ≡ 8 * r + tag
    → 0 < tag
    → tag < 8
    → ((n == 0) ≡ false) × (n % 8 ≡ tag) × (n / 8 ≡ r)
tests n r tag e h k = (ground arith, omega arith, omega arith)

get_other_bin_lit-code : (n : ℕ) (l : Lit) → n ≡ 8 * code_of_lit l + 3 → get_other_bin_lit n ≡ l
unfolding get_other_bin_lit code_of_lit
get_other_bin_lit-code n (plus v) e =
    let even : ((n / 8) % 2 == 0) ≡ true = ground arith in
    let value : n / 16 ≡ v = omega arith in rw (even, value, get_other_bin_lit) refl
get_other_bin_lit-code n (minus v) e =
    let odd : ((n / 8) % 2 == 0) ≡ false = ground arith in
    let value : n / 16 ≡ v = omega arith in rw (odd, value, get_other_bin_lit) refl

-- Every reason whose number, or whose code of a literal, is below 2^28 reads back as it was packed.
pub read_reason-reason_of : (c : Content) → Packs c → read_reason (reason_of c) ≡ some c
unfolding reason_of read_reason
read_reason-reason_of no_reason h = refl
read_reason-reason_of (pb_constraint r) h =
    let (nonzero, tag, number) = tests (8 * r + 1) r 1 refl (omega arith) (omega arith) in
    rw (store_int-small (8 * r + 1) (omega arith), nonzero, tag, number, read_reason) refl
read_reason-reason_of (clause r) h =
    let (nonzero, tag, number) = tests (8 * r + 2) r 2 refl (omega arith) (omega arith) in
    rw (store_int-small (8 * r + 2) (omega arith), nonzero, tag, number, read_reason) refl
read_reason-reason_of (bin_clause l) h =
    let (nonzero, tag, number) =
      tests (8 * code_of_lit l + 3) (code_of_lit l) 3 refl (omega arith) (omega arith) in
    let lit = get_other_bin_lit-code (8 * code_of_lit l + 3) l refl in
    rw (store_int-small (8 * code_of_lit l + 3) (omega arith), nonzero, tag, lit, read_reason) refl
read_reason-reason_of (cardinality r) h =
    let (nonzero, tag, number) = tests (8 * r + 4) r 4 refl (omega arith) (omega arith) in
    rw (store_int-small (8 * r + 4) (omega arith), nonzero, tag, number, read_reason) refl
