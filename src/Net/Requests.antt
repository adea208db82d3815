-- ===== src/Net/Requests.antt =====
-- Which message CoreNet::request_message_from_node asks for.
use distadm.Prelude.{
  Option, ℕ, zero, suc, ◌<◌, ◌≡◌, true, false, not, none, some, List, [], ◌∷◌, length, ltb, ◌&&◌,
  sym, ap, get_elem?, get_or, arith, Bool-cases, Option-cases, inl, inr, lt→ltb,
}
use distadm.Matrix.{Node, ids, find}
use distadm.Core.{my_row}
use distadm.Net.{CoreNet, downloading, first_request, request_message_from_node}

-- The message `number` of `id` is the next one that this node lacks of `id`; the node `n` has it, and
-- it is not being downloaded.
pub record IsMissing (c : CoreNet) (n : Node) (id number : ℕ) : Type 0 where
  pub column : ℕ
  pub of_id : get_elem? (ids c.core.nodes) column ≡ some id
  pub next : get_or (my_row c.core) column 0 ≡ number
  pub theirs : number < get_or n.matrix_row column 0
  pub idle : downloading id number c.downloading_msgs ≡ false

abbrev Found : List (ℕ × ℕ) → List ℕ → List ℕ → List ℕ → ℕ → ℕ → ℕ → Type 0
Found busy uuids row mine j id k =
    (get_elem? uuids j ≡ some id)
    × (get_or mine j 0 ≡ k)
    × (k < get_or row j 0)
    × (downloading id k busy ≡ false)

abbrev request : ℕ → ℕ → Option (ℕ × ℕ)
request id number = some (id, number)

request_injective : (x m id k : ℕ) → request x m ≡ request id k → (x ≡ id) × (m ≡ k)
request_injective x m id k h = (cc, cc)

first_request-Found :
    (busy : List (ℕ × ℕ)) (uuids row mine : List ℕ) (id k : ℕ)
    → first_request busy uuids row mine ≡ some (id, k)
    → (j : ℕ) × Found busy uuids row mine j id k
unfolding first_request
first_request-Found busy [] row mine id k h = absurd cc
first_request-Found busy (x ∷ uuids) [] mine id k h = absurd cc
first_request-Found busy (x ∷ uuids) (t ∷ row) [] id k h = absurd cc
first_request-Found busy (x ∷ uuids) (t ∷ row) (m ∷ mine) id k h =
    elim (Bool-cases (ltb m t && not (downloading x m busy))) [
      | inl hit ↦
          let (who, what) = request_injective x m id k (rw hit at h) in
          (zero, (ap some who, what, ground (arith, what), ground (arith, who, what)))
      | inr miss ↦
          let (j, found) = first_request-Found busy uuids row mine id k (rw miss at h) in
          (suc j, found)
    ]

-- What `request_message_from_node` asks of a node is a message that the node has and that this node
-- lacks, the next one of its author, and that is not being downloaded already.
pub request_message_from_node-IsMissing :
    (c : CoreNet) (remote_node id number : ℕ)
    → request_message_from_node c remote_node ≡ some (id, number)
    → (n : Node) × (find remote_node c.core.nodes ≡ some n) × IsMissing c n id number
unfolding request_message_from_node
request_message_from_node-IsMissing c remote_node id number h =
    elim (Option-cases (find remote_node c.core.nodes)) [
      | inl absent ↦ absurd (ground (arith, rw (absent, request_message_from_node) at h))
      | inr (n, found) ↦
          let taken = rw (found, request_message_from_node) at h in
          elim (Bool-cases c.core.has_my_node) [
            | inr no_node ↦ absurd (ground (arith, rw no_node at taken))
            | inl node ↦
                let (j, (at_j, next, theirs, idle)) =
                  first_request-Found c.downloading_msgs (ids c.core.nodes) n.matrix_row
                    (my_row c.core) id number (ground (arith, node, taken)) in
                (
                  n,
                  found,
                  record { column = j; of_id = at_j; next = next; theirs = theirs; idle = idle },
                )
          ]
    ]

first_request-none :
    (busy : List (ℕ × ℕ)) (uuids row mine : List ℕ) (j id : ℕ)
    → first_request busy uuids row mine ≡ none
    → get_elem? uuids j ≡ some id
    → get_or mine j 0 < get_or row j 0
    → j < length mine
    → downloading id (get_or mine j 0) busy ≡ true
unfolding first_request
first_request-none busy [] row mine j id h at_j lacks inside = absurd cc
first_request-none busy (x ∷ uuids) [] mine j id h at_j lacks inside = absurd (omega arith)
first_request-none busy (x ∷ uuids) (t ∷ row) [] j id h at_j lacks inside = absurd (omega arith)
first_request-none busy (x ∷ uuids) (t ∷ row) (m ∷ mine) zero id h at_j lacks inside =
    let who : x ≡ id = cc in rw (sym who) (ground (arith, lt→ltb m t lacks))
first_request-none busy (x ∷ uuids) (t ∷ row) (m ∷ mine) (suc j) id h at_j lacks inside =
    elim (Bool-cases (ltb m t && not (downloading x m busy))) [
      | inl hit ↦ absurd (ground (arith, rw hit at h))
      | inr miss ↦
          first_request-none busy uuids row mine j id (rw miss at h) at_j lacks (omega arith)
    ]

-- When `request_message_from_node` asks for nothing, every message that the node has and that
-- this node lacks next, in the columns of its own row, is being downloaded. The node and this
-- node are known.
pub request_message_from_node-none :
    (c : CoreNet) (remote_node : ℕ) (n : Node) (j id : ℕ)
    → c.core.has_my_node ≡ true
    → find remote_node c.core.nodes ≡ some n
    → request_message_from_node c remote_node ≡ none
    → get_elem? (ids c.core.nodes) j ≡ some id
    → get_or (my_row c.core) j 0 < get_or n.matrix_row j 0
    → j < length (my_row c.core)
    → downloading id (get_or (my_row c.core) j 0) c.downloading_msgs ≡ true
unfolding request_message_from_node
request_message_from_node-none c remote_node n j id node found h at_j lacks inside =
    first_request-none c.downloading_msgs (ids c.core.nodes) n.matrix_row (my_row c.core) j id
      (ground (arith, node, rw (found, request_message_from_node) at h)) at_j lacks inside
