-- ===== src/Workers/Values.antt =====
-- Values, solutions and subcubes arrive as they were sent.
use cube_conquer_pb.Base.{
  ◌≡◌, refl, sym, ◌∙◌, ap, true, List, [], ◌∷◌, ◌++◌, map, length, ◌<◌, All, some, ℤ, pos, arith,
  ◌==◌,
}
use cube_conquer_pb.Constraint.{Lit, var}
use cube_conquer_pb.Messages.{Channel, lit_to_int, int_to_lit, recv_int}
use cube_conquer_pb.Messages.RoundTrip.{Delivers, append_assoc, append_nil, int_to_lit-lit_to_int}
use cube_conquer_pb.Incumbent.{Solution}
use cube_conquer_pb.Workers.{
  read_values, send_data, recv_data, send_values, recv_values, recv_solution, send_subcubes,
  recv_subcubes,
}

read_values-map : (sol : Solution) → read_values (map pos sol) ≡ some sol
unfolding read_values
read_values-map [] = refl
read_values-map (v ∷ vs) = rw (read_values-map vs, read_values) refl

-- Variables are numbered from 1.
abbrev pub AreNumbered : List Lit → Type 0
AreNumbered c = All (λ l. 0 < var l) c

pub map-int_to_lit-lit_to_int :
    (c : List Lit) → AreNumbered c → map int_to_lit (map lit_to_int c) ≡ c
map-int_to_lit-lit_to_int [] h = refl
map-int_to_lit-lit_to_int (l ∷ ls) h =
    rw (int_to_lit-lit_to_int l h.0, map-int_to_lit-lit_to_int ls h.1) refl

pub length-map {ℓ κ} :
    {A : Type ℓ} {B : Type κ} (f : A → B) (xs : List A) → length (map f xs) ≡ length xs
length-map f [] = refl
length-map f (x ∷ xs) = omega (arith, length-map f xs)

pub data_messages : List ℤ → List (List ℤ)
data_messages [] = []
data_messages (x ∷ xs) = (x ∷ xs) ∷ []

pub value_messages : List ℤ → List (List ℤ)
value_messages xs = (pos (length xs) ∷ []) ∷ data_messages xs

pub subcube_messages : List (List Lit) → List (List ℤ)
subcube_messages [] = []
subcube_messages (c ∷ cs) = value_messages (map lit_to_int c) ++ subcube_messages cs

module _ (ch : Channel) (del : Delivers ch) where
  open ch use {Net, send, recv}
  open del use {pending, pending-send, recv-next}

  pub send_data-pending :
      (xs : List ℤ) (net : Net) → pending (send_data ch xs net) ≡ pending net ++ data_messages xs
  unfolding send_data data_messages
  send_data-pending [] net = sym (append_nil (pending net))
  send_data-pending (x ∷ xs) net = pending-send (x ∷ xs) net

  pub recv_data-next :
      (xs : List ℤ) (ms : List (List ℤ)) (net : Net)
      → pending net ≡ data_messages xs ++ ms
      → (net' : Net) × (recv_data ch (length xs) net ≡ some (xs, net')) × (pending net' ≡ ms)
  unfolding recv_data data_messages
  recv_data-next [] ms net e = (net, refl, e)
  recv_data-next (x ∷ xs) ms net e =
      let (net1, q, e1) = recv-next (x ∷ xs) ms net e in
      let same : (length (x ∷ xs) == length (x ∷ xs)) ≡ true = ground arith in
      (net1, rw (q, same, recv_data) refl, e1)

  pub send_values-pending :
      (xs : List ℤ) (net : Net) → pending (send_values ch xs net) ≡ pending net ++ value_messages xs
  unfolding send_values value_messages
  send_values-pending xs net =
      let n = pos (length xs) ∷ [] in
      send_data-pending xs (send n net)
      ∙ ap (λ ms. ms ++ data_messages xs) (pending-send n net)
      ∙ append_assoc (pending net) (n ∷ []) (data_messages xs)

  recv_values-next :
      (xs : List ℤ) (ms : List (List ℤ)) (net : Net)
      → pending net ≡ value_messages xs ++ ms
      → (net' : Net) × (recv_values ch net ≡ some (xs, net')) × (pending net' ≡ ms)
  unfolding recv_values recv_int value_messages
  recv_values-next xs ms net e =
      let (net1, q, e1) = recv-next (pos (length xs) ∷ []) (data_messages xs ++ ms) net e in
      let (net2, q2, e2) = recv_data-next xs ms net1 e1 in (net2, rw (q, q2, recv_values) refl, e2)

  pub recv_solution-next :
      (sol : Solution) (ms : List (List ℤ)) (net : Net)
      → pending net ≡ value_messages (map pos sol) ++ ms
      → (net' : Net) × (recv_solution ch net ≡ some (sol, net')) × (pending net' ≡ ms)
  unfolding recv_solution
  recv_solution-next sol ms net e =
      let (net1, q, e1) = recv_values-next (map pos sol) ms net e in
      (net1, rw (q, read_values-map sol, recv_solution) refl, e1)

  pub send_subcubes-pending :
      (cs : List (List Lit)) (net : Net)
      → pending (send_subcubes ch cs net) ≡ pending net ++ subcube_messages cs
  unfolding send_subcubes subcube_messages
  send_subcubes-pending [] net = sym (append_nil (pending net))
  send_subcubes-pending (c ∷ cs) net =
      send_subcubes-pending cs (send_values ch (map lit_to_int c) net)
      ∙ ap (λ ms. ms ++ subcube_messages cs) (send_values-pending (map lit_to_int c) net)
      ∙ append_assoc (pending net) (value_messages (map lit_to_int c)) (subcube_messages cs)

  pub recv_subcubes-next :
      (cs : List (List Lit)) (ms : List (List ℤ)) (net : Net)
      → All AreNumbered cs
      → pending net ≡ subcube_messages cs ++ ms
      → (net' : Net) × (recv_subcubes ch (length cs) net ≡ some (cs, net')) × (pending net' ≡ ms)
  unfolding recv_subcubes subcube_messages
  recv_subcubes-next [] ms net num e = (net, refl, e)
  recv_subcubes-next (c ∷ cs) ms net num e =
      let (net1, q, e1) =
        recv_values-next (map lit_to_int c) (subcube_messages cs ++ ms) net
          (e ∙ append_assoc (value_messages (map lit_to_int c)) (subcube_messages cs) ms) in
      let (net2, q2, e2) = recv_subcubes-next cs ms net1 num.1 e1 in
      (net2, rw (q, q2, map-int_to_lit-lit_to_int c num.0, recv_subcubes) refl, e2)
