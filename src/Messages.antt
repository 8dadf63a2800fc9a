-- ===== src/Messages.antt =====
-- The messages between the master and its workers (src/cubePB.cpp): constraints, solutions, and the time
-- limit of a task.
--
-- MPI is the record `Channel`: one sender, one receiver and one tag, with whole messages of ints. A
-- receive of a count that the message does not have is an error of MPI, here `none`.
pub mod RoundTrip
pub mod TimeLimit
use cube_conquer_pb.Base.{
  ℕ, zero, suc, ◌+◌, ◌*◌, ◌/◌, ◌^◌, ◌-◌, ◌≡◌, Bool, true, false, List, [], ◌∷◌, ◌++◌, if◌then◌else◌,
  ltb, ◌==◌, length, Option, none, some, ℤ, pos, negsuc,
}
use cube_conquer_pb.Constraint.{Lit, plus, minus, Term, WConstraint}

pub record Channel : Type 1 where
  pub Net : Type 0
  pub send : List ℤ → Net → Net
  pub recv : Net → Option (List ℤ × Net)

-- The int of a literal, and the literal of an int.
unfoldable pub lit_to_int : Lit → ℤ
lit_to_int (plus v) = pos v
lit_to_int (minus zero) = pos 0
lit_to_int (minus (suc n)) = negsuc n

unfoldable pub int_to_lit : ℤ → Lit
int_to_lit (pos v) = plus v
int_to_lit (negsuc n) = minus (suc n)

-- for (int i = 0; i < c.getSize(); ++i): the coefficient and the literal of each term
unfoldable pub flatten_terms : List Term → List ℤ
unfolding lit_to_int
flatten_terms [] = []
flatten_terms ((a, l) ∷ ts) = pos a ∷ lit_to_int l ∷ flatten_terms ts

-- coeffs[j] = terms[2 * j] and lits[j] = terms[2 * j + 1], for `size` terms; the constructor of
-- `WConstraint` asserts that coefficients are positive, and a negative one is `none`.
unfoldable pub read_terms : ℕ → List ℤ → Option (List Term)
unfolding int_to_lit
read_terms zero [] = some []
read_terms zero (x ∷ xs) = none
read_terms (suc n) [] = none
read_terms (suc n) (x ∷ []) = none
read_terms (suc n) (negsuc a ∷ l ∷ xs) = none
read_terms (suc n) (pos a ∷ l ∷ xs) = elim (read_terms n xs) [
  | none ↦ none
  | some ts ↦ some ((a, int_to_lit l) ∷ ts)
]

module _ (ch : Channel) where
  open ch use {Net, send, recv}

  -- if (!terms.empty())
  unfoldable pub send_terms : List Term → Net → Net
  unfolding flatten_terms
  send_terms [] net = net
  send_terms (t ∷ ts) net = send (flatten_terms (t ∷ ts)) net

  unfoldable pub send_constraint : WConstraint → Net → Net
  unfolding send_terms
  send_constraint c net = send_terms c.lhs (send (pos (length c.lhs) ∷ c.rhs ∷ []) net)

  unfoldable pub send_each : List WConstraint → Net → Net
  unfolding send_constraint
  send_each [] net = net
  send_each (c ∷ cs) net = send_each cs (send_constraint c net)

  unfoldable pub send_constraints : List WConstraint → Net → Net
  unfolding send_each
  send_constraints cs net = send_each cs (send (pos (length cs) ∷ []) net)

  -- A receive of one int, and of the two ints of a header.
  unfoldable pub recv_int : Net → Option (ℤ × Net)
  recv_int net = elim (recv net) [ some (x ∷ [], net') ↦ some (x, net') | _ ↦ none ]

  unfoldable pub recv_header : Net → Option ((ℤ × ℤ) × Net)
  recv_header net = elim (recv net) [ some (x ∷ y ∷ [], net') ↦ some ((x, y), net') | _ ↦ none ]

  unfoldable pub recv_terms : ℕ → Net → Option (List Term × Net)
  unfolding read_terms
  recv_terms zero net = some ([], net)
  recv_terms (suc n) net = elim (recv net) [
    | some (xs, net') ↦ elim (read_terms (suc n) xs) [ none ↦ none | some ts ↦ some (ts, net') ]
    | none ↦ none
  ]

  unfoldable pub recv_constraint : Net → Option (WConstraint × Net)
  unfolding recv_header recv_terms
  recv_constraint net = elim (recv_header net) [
    | some ((pos size, rhs), net') ↦ elim (recv_terms size net') [
      | some (ts, net'') ↦ some (record { lhs = ts; rhs = rhs }, net'')
      | none ↦ none
    ]
    | _ ↦ none
  ]

  unfoldable pub recv_each : ℕ → Net → Option (List WConstraint × Net)
  unfolding recv_constraint
  recv_each zero net = some ([], net)
  recv_each (suc n) net = elim (recv_constraint net) [
    | none ↦ none
    | some (c, net') ↦ elim (recv_each n net') [
      | none ↦ none
      | some (cs, net'') ↦ some (c ∷ cs, net'')
    ]
  ]

  unfoldable pub recv_constraints : Net → Option (List WConstraint × Net)
  unfolding recv_int recv_each
  recv_constraints net = elim (recv_int net) [ some (pos n, net') ↦ recv_each n net' | _ ↦ none ]

abbrev pub int_max : ℕ
int_max = 2 ^ 31 - 1

-- The loop of compute_split_time_limit; `break` leaves INT_MAX.
unfoldable pub double_limit : ℕ → ℕ → ℕ
double_limit zero limit = limit
double_limit (suc rounds) limit =
    let rest = double_limit rounds (limit * 2) in if ltb (int_max / 2) limit then int_max else rest

-- compute_split_time_limit, with base_split_time_limit as an argument
unfoldable pub compute_split_time_limit : ℕ → ℕ → ℕ
unfolding double_limit
compute_split_time_limit base split_depth = double_limit split_depth base
