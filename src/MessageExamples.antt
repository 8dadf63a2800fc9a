-- ===== src/MessageExamples.antt =====
-- The theorems on messages, over a channel that is the list of its messages, and on packed reasons.
use cube_conquer_pb.Base.{
  ◌≡◌, refl, ◌*◌, ◌^◌, List, [], ◌∷◌, ◌++◌, Option, none, some, ℤ, pos, min, arith, ap,
}
use cube_conquer_pb.Constraint.{plus, minus, WConstraint}
use cube_conquer_pb.Messages.{
  Channel, send_constraints, recv_constraints, int_max, compute_split_time_limit,
}
use cube_conquer_pb.Messages.RoundTrip.{Delivers, recv_constraints-send_constraints}
use cube_conquer_pb.Messages.TimeLimit.{compute_split_time_limit-min}
use cube_conquer_pb.Reasons.{bin_clause, code_of_lit, reason_of, read_reason}
use cube_conquer_pb.Reasons.Pack.{read_reason-reason_of}

abbrev pub take_first : List (List ℤ) → Option (List ℤ × List (List ℤ))
take_first [] = none
take_first (m ∷ ms) = some (m, ms)

abbrev pub queue : Channel
queue = record { Net = List (List ℤ); send = λ m net. net ++ m ∷ []; recv = take_first }

abbrev pub queue_delivers : Delivers queue
queue_delivers = record {
  pending = λ net. net;
  pending-send = λ m net. refl;
  recv-next = λ m ms net e. (ms, ap take_first e, refl);
}

-- 2 x1 + 3 ~x2 >= 3 and 0 >= 1
abbrev pub two_constraints : List WConstraint
two_constraints =
    record { lhs = (2, plus 1) ∷ (3, minus 2) ∷ []; rhs = pos 3 }
    ∷ record { lhs = []; rhs = pos 1 }
    ∷ []

recv_constraints-send_constraints_example :
    (net' : List (List ℤ)) × (recv_constraints queue (send_constraints queue two_constraints [])
      ≡ some (two_constraints, net'))
    × (net' ≡ [])
recv_constraints-send_constraints_example =
    recv_constraints-send_constraints queue queue_delivers two_constraints [] refl (ground arith)

compute_split_time_limit-min_example : compute_split_time_limit 10 40 ≡ min (10 * 2 ^ 40) int_max
compute_split_time_limit-min_example = compute_split_time_limit-min 10 40 (omega arith)

read_reason-reason_of_example :
    read_reason (reason_of (bin_clause (minus 1000))) ≡ some (bin_clause (minus 1000))
unfolding code_of_lit
read_reason-reason_of_example = read_reason-reason_of (bin_clause (minus 1000)) (omega arith)
