-- ===== src/Reasons.antt =====
-- The reason of an assignment, packed into one word (src/Reason.h): a type in the last three bits and a
-- number or a literal above them.
pub mod Pack
use cube_conquer_pb.Base.{
  ℕ, ◌+◌, ◌*◌, ◌/◌, ◌%◌, ◌^◌, ◌-◌, Bool, true, false, if◌then◌else◌, ltb, ◌==◌, Option, none, some,
}
use cube_conquer_pb.Constraint.{Lit, plus, minus}

-- ReasonType with the number `r` that goes with it; a clause, constraint or cardinality has a number that
-- is not negative, and a binary clause has its other literal.
pub data Content : Type 0 where
  no_reason : Content
  pb_constraint : ℕ → Content
  clause : ℕ → Content
  bin_clause : Lit → Content
  cardinality : ℕ → Content

-- An int expression that is stored in the uint64_t: the sum wraps at 32 bits and is sign extended.
unfoldable pub store_int : ℕ → ℕ
store_int n = let w = n % 2 ^ 32 in if ltb w (2 ^ 31) then w else w + (2 ^ 64 - 2 ^ 32)

-- 2*abs(r)+(r>0?0:1)
unfoldable pub code_of_lit : Lit → ℕ
code_of_lit (plus v) = 2 * v
code_of_lit (minus v) = 2 * v + 1

-- Reason(int r, ReasonType type)
unfoldable pub reason_of : Content → ℕ
unfolding store_int code_of_lit
reason_of no_reason = 0
reason_of (pb_constraint r) = store_int (8 * r + 1)
reason_of (clause r) = store_int (8 * r + 2)
reason_of (bin_clause l) = store_int (8 * code_of_lit l + 3)
reason_of (cardinality r) = store_int (8 * r + 4)

abbrev pub is_unit_or_decision : ℕ → Bool
is_unit_or_decision reason = reason == 0

abbrev pub is_constraint : ℕ → Bool
is_constraint reason = reason % 8 == 1

abbrev pub is_clause_reason : ℕ → Bool
is_clause_reason reason = reason % 8 == 2

abbrev pub is_bin_clause : ℕ → Bool
is_bin_clause reason = reason % 8 == 3

abbrev pub is_cardinality : ℕ → Bool
is_cardinality reason = reason % 8 == 4

-- int(reason >> 3), for numbers that an int holds
abbrev pub get_number : ℕ → ℕ
get_number reason = reason / 8

unfoldable pub get_other_bin_lit : ℕ → Lit
get_other_bin_lit reason = if (reason / 8) % 2 == 0 then plus (reason / 16) else minus (reason / 16)

-- The tests of operator<<, in its order.
unfoldable pub read_reason : ℕ → Option Content
unfolding get_other_bin_lit
read_reason reason =
    if is_unit_or_decision reason
    then some no_reason
    else if is_constraint reason
    then some (pb_constraint (get_number reason))
    else if is_cardinality reason
    then some (cardinality (get_number reason))
    else if is_clause_reason reason
    then some (clause (get_number reason))
    else if is_bin_clause reason
    then some (bin_clause (get_other_bin_lit reason))
    else none
