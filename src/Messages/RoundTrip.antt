-- ===== src/Messages/RoundTrip.antt =====
-- Constraints arrive as they were sent, over a channel that delivers in order.
use cube_conquer_pb.Base.{
  zero, suc, ◌≡◌, refl, sym, ◌∙◌, ap, List, [], ◌∷◌, ◌++◌, length, ◌<◌, All, some, ℤ, pos, arith,
}
use cube_conquer_pb.Constraint.{Lit, plus, minus, Term, WConstraint, var_of}
use cube_conquer_pb.Messages.{
  Channel, lit_to_int, int_to_lit, flatten_terms, read_terms, send_terms, send_constraint,
  send_each, send_constraints, recv_int, recv_header, recv_terms, recv_constraint, recv_each,
  recv_constraints,
}

-- What MPI promises for one sender, one receiver and one tag: messages do not overtake each other.
pub record Delivers (ch : Channel) : Type 0 where
  pub pending : ch.Net → List (List ℤ)
  pub pending-send : (m : List ℤ) (net : ch.Net) → pending (ch.send m net) ≡ pending net ++ m ∷ []
  pub recv-next :
      (m : List ℤ) (ms : List (List ℤ)) (net : ch.Net)
      → pending net ≡ m ∷ ms
      → (net' : ch.Net) × (ch.recv net ≡ some (m, net')) × (pending net' ≡ ms)

-- Variables are numbered from 1, so that the sign survives.
abbrev pub Numbered : WConstraint → Type 0
Numbered c = All (λ t. 0 < var_of t) c.lhs

pub int_to_lit-lit_to_int : (l : Lit) → 0 < var_of (1, l) → int_to_lit (lit_to_int l) ≡ l
unfolding int_to_lit lit_to_int
int_to_lit-lit_to_int (plus v) h = refl
int_to_lit-lit_to_int (minus zero) h = absurd (omega arith)
int_to_lit-lit_to_int (minus (suc n)) h = refl

read_terms-flatten_terms :
    (ts : List Term)
    → All (λ t. 0 < var_of t) ts
    → read_terms (length ts) (flatten_terms ts) ≡ some ts
unfolding read_terms flatten_terms
read_terms-flatten_terms [] h = refl
read_terms-flatten_terms ((a, l) ∷ ts) h =
    rw (read_terms-flatten_terms ts h.1, read_terms, int_to_lit-lit_to_int l h.0) refl

-- The messages of a constraint.
messages : List Term → ℤ → List (List ℤ)
messages [] r = (pos 0 ∷ r ∷ []) ∷ []
messages (t ∷ ts) r = (pos (length (t ∷ ts)) ∷ r ∷ []) ∷ flatten_terms (t ∷ ts) ∷ []

all_messages : List WConstraint → List (List ℤ)
all_messages [] = []
all_messages (c ∷ cs) = messages c.lhs c.rhs ++ all_messages cs

pub constraint_messages : List WConstraint → List (List ℤ)
constraint_messages cs = (pos (length cs) ∷ []) ∷ all_messages cs

pub append_assoc : (xs ys zs : List (List ℤ)) → (xs ++ ys) ++ zs ≡ xs ++ (ys ++ zs)
append_assoc [] ys zs = refl
append_assoc (x ∷ xs) ys zs = ap (λ ws. x ∷ ws) (append_assoc xs ys zs)

pub append_nil : (xs : List (List ℤ)) → xs ++ [] ≡ xs
append_nil [] = refl
append_nil (x ∷ xs) = ap (λ ws. x ∷ ws) (append_nil xs)

module _ (ch : Channel) (del : Delivers ch) where
  open ch use {Net, send, recv}
  open del use {pending, pending-send, recv-next}

  send_constraint-pending :
      (ts : List Term) (r : ℤ) (net : Net)
      → pending (send_constraint ch (record { lhs = ts; rhs = r }) net)
        ≡ pending net ++ messages ts r
  unfolding send_constraint send_terms messages
  send_constraint-pending [] r net = pending-send (pos 0 ∷ r ∷ []) net
  send_constraint-pending (t ∷ ts) r net =
      let n = pos (length (t ∷ ts)) ∷ r ∷ [] in
      pending-send (flatten_terms (t ∷ ts)) (send n net)
      ∙ ap (λ ms. ms ++ flatten_terms (t ∷ ts) ∷ []) (pending-send n net)
      ∙ append_assoc (pending net) (n ∷ []) (flatten_terms (t ∷ ts) ∷ [])

  send_each-pending :
      (cs : List WConstraint) (net : Net)
      → pending (send_each ch cs net) ≡ pending net ++ all_messages cs
  unfolding send_each all_messages
  send_each-pending [] net = sym (append_nil (pending net))
  send_each-pending (c ∷ cs) net =
      send_each-pending cs (send_constraint ch c net)
      ∙ ap (λ ms. ms ++ all_messages cs) (send_constraint-pending c.lhs c.rhs net)
      ∙ append_assoc (pending net) (messages c.lhs c.rhs) (all_messages cs)

  recv_constraint-next :
      (ts : List Term) (r : ℤ) (ms : List (List ℤ)) (net : Net)
      → All (λ t. 0 < var_of t) ts
      → pending net ≡ messages ts r ++ ms
      → (net' : Net) × (recv_constraint ch net ≡ some (record { lhs = ts; rhs = r }, net'))
        × (pending net' ≡ ms)
  unfolding recv_constraint recv_header recv_terms messages
  recv_constraint-next [] r ms net num e =
      let (net1, q, e1) = recv-next (pos 0 ∷ r ∷ []) ms net e in
      (net1, rw (q, recv_constraint) refl, e1)
  recv_constraint-next (t ∷ ts) r ms net num e =
      let (net1, q, e1) =
        recv-next (pos (length (t ∷ ts)) ∷ r ∷ []) (flatten_terms (t ∷ ts) ∷ ms) net e in
      let (net2, q2, e2) = recv-next (flatten_terms (t ∷ ts)) ms net1 e1 in
      (net2, rw (q, q2, read_terms-flatten_terms (t ∷ ts) num, recv_constraint) refl, e2)

  recv_each-next :
      (cs : List WConstraint) (ms : List (List ℤ)) (net : Net)
      → All Numbered cs
      → pending net ≡ all_messages cs ++ ms
      → (net' : Net) × (recv_each ch (length cs) net ≡ some (cs, net')) × (pending net' ≡ ms)
  unfolding recv_each all_messages
  recv_each-next [] ms net num e = (net, refl, e)
  recv_each-next (c ∷ cs) ms net num e =
      let (net1, q, e1) =
        recv_constraint-next c.lhs c.rhs (all_messages cs ++ ms) net num.0
          (e ∙ append_assoc (messages c.lhs c.rhs) (all_messages cs) ms) in
      let (net2, q2, e2) = recv_each-next cs ms net1 num.1 e1 in
      (net2, rw (q, q2, recv_each) refl, e2)

  pub send_constraints-pending :
      (cs : List WConstraint) (net : Net)
      → pending (send_constraints ch cs net) ≡ pending net ++ constraint_messages cs
  unfolding send_constraints constraint_messages
  send_constraints-pending cs net =
      let n = pos (length cs) ∷ [] in
      send_each-pending cs (send n net)
      ∙ ap (λ ms. ms ++ all_messages cs) (pending-send n net)
      ∙ append_assoc (pending net) (n ∷ []) (all_messages cs)

  pub recv_constraints-next :
      (cs : List WConstraint) (ms : List (List ℤ)) (net : Net)
      → All Numbered cs
      → pending net ≡ constraint_messages cs ++ ms
      → (net' : Net) × (recv_constraints ch net ≡ some (cs, net')) × (pending net' ≡ ms)
  unfolding recv_constraints recv_int constraint_messages
  recv_constraints-next cs ms net num e =
      let (net1, q, e1) = recv-next (pos (length cs) ∷ []) (all_messages cs ++ ms) net e in
      let (net2, q2, e2) = recv_each-next cs ms net1 num e1 in
      (net2, rw (q, q2, recv_constraints) refl, e2)

  -- What `recv_constraints` reads after `send_constraints` on an empty channel is the constraints that
  -- were sent, in order, and nothing is left in the channel. Their variables are numbered from 1.
  pub recv_constraints-send_constraints :
      (cs : List WConstraint) (net : Net)
      → pending net ≡ []
      → All Numbered cs
      → (net' : Net) × (recv_constraints ch (send_constraints ch cs net) ≡ some (cs, net'))
        × (pending net' ≡ [])
  recv_constraints-send_constraints cs net empty num =
      recv_constraints-next cs [] (send_constraints ch cs net) num (
        send_constraints-pending cs net
        ∙ ap (λ ms. ms ++ constraint_messages cs) empty
        ∙ sym (append_nil (constraint_messages cs)))
