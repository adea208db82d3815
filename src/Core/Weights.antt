-- ===== src/Core/Weights.antt =====
-- How many rounds of Core::execute_pending_commands the messages of a node can still take.
use distadm.Prelude.{
  ℕ, ◌+◌, ◌≤◌, ◌≡◌, ap, Bool, true, false, List, [], ◌∷◌, All, leb, if◌then◌else◌, arith,
  Bool-cases, ◌⊎◌, inl, inr,
}
use distadm.Matrix.{Matrix, find}
use distadm.Messages.{Body, Msg, less, is_id, insert_msg}
use distadm.Core.{exec_of}

-- A shell command leaves one message more, with its output.
abbrev pub extra : Body → ℕ
extra (Body.exec params) = 1
extra value = 0

pub extra-le : (b : Body) → extra b ≤ 1
extra-le (Body.exec params) = omega arith
extra-le b = omega arith

abbrev pub is_record : Body → Bool
is_record (Body.delnoderecord id) = true
is_record value = false

-- No message takes the record of a node away, which would start the numbers of its commands anew.
abbrev pub NoRecords : List Msg → Type 0
NoRecords ms = All (λ m. is_record m.value ≡ false) ms

abbrev pub weight_of : Matrix → Msg → ℕ
weight_of nodes m =
    if leb (exec_of (find m.node_id nodes)) m.msg_number then 1 + extra m.value else 0

abbrev pub weight : Matrix → List Msg → ℕ
weight nodes [] = 0
weight nodes (m ∷ ms) = weight_of nodes m + weight nodes ms

abbrev pub Holds : Msg → List Msg → Type 0
Holds m [] = ⊥
Holds m (x ∷ ms) = (x ≡ m) ⊎ Holds m ms

pub weight-le :
    (nodes nodes' : Matrix) (ms : List Msg)
    → ((a : ℕ) → exec_of (find a nodes) ≤ exec_of (find a nodes'))
    → weight nodes' ms ≤ weight nodes ms
weight-le nodes nodes' [] h = omega arith
weight-le nodes nodes' (m ∷ ms) h = ground (arith, h m.node_id, weight-le nodes nodes' ms h)

pub weight-insert_msg :
    (nodes : Matrix) (m : Msg) (ms : List Msg)
    → weight nodes (insert_msg m ms) ≤ weight nodes ms + (1 + extra m.value)
unfolding insert_msg
weight-insert_msg nodes m [] = ground arith
weight-insert_msg nodes m (x ∷ ms) = elim (Bool-cases (is_id m.node_id m.msg_number x)) [
  | inl same ↦ rw same (omega arith)
  | inr other ↦ rw other (elim (Bool-cases (less m x)) [
    | inl before ↦ rw before (ground arith)
    | inr after ↦ rw after (omega (arith, weight-insert_msg nodes m ms))
  ])
]

pub NoRecords-insert_msg :
    (m : Msg) (ms : List Msg)
    → is_record m.value ≡ false
    → NoRecords ms
    → NoRecords (insert_msg m ms)
unfolding insert_msg
NoRecords-insert_msg m [] h r = (h, tt)
NoRecords-insert_msg m (x ∷ ms) h r = elim (Bool-cases (is_id m.node_id m.msg_number x)) [
  | inl same ↦ rw same r
  | inr other ↦ rw other (elim (Bool-cases (less m x)) [
    | inl before ↦ rw before (h, r)
    | inr after ↦ rw after (r.0, NoRecords-insert_msg m ms h r.1)
  ])
]

pub Holds-insert_msg : (y m : Msg) (ms : List Msg) → Holds y ms → Holds y (insert_msg m ms)
unfolding insert_msg
Holds-insert_msg y m [] h = absurd h
Holds-insert_msg y m (x ∷ ms) h = elim (Bool-cases (is_id m.node_id m.msg_number x)) [
  | inl same ↦ rw same h
  | inr other ↦ rw other (elim (Bool-cases (less m x)) [
    | inl before ↦ rw before (inr h)
    | inr after ↦
        rw after (elim h [ inl here ↦ inl here | inr there ↦ inr (Holds-insert_msg y m ms there) ])
  ])
]

-- The weight of a command is gone when its number is passed.
pub weight-passed :
    (nodes nodes' : Matrix) (m : Msg) (ms : List Msg)
    → Holds m ms
    → ((a : ℕ) → exec_of (find a nodes) ≤ exec_of (find a nodes'))
    → exec_of (find m.node_id nodes) ≤ m.msg_number
    → m.msg_number + 1 ≤ exec_of (find m.node_id nodes')
    → weight nodes' ms + (1 + extra m.value) ≤ weight nodes ms
weight-passed nodes nodes' m [] held h before after = absurd held
weight-passed nodes nodes' m (x ∷ ms) held h before after = elim held [
  | inr later ↦ ground (arith, h x.node_id, weight-passed nodes nodes' m ms later h before after)
  | inl here ↦
      let rest = weight-le nodes nodes' ms h in
      let mine : weight_of nodes' m + (1 + extra m.value) ≤ weight_of nodes m =
        ground (arith, before, after) in
      omega (arith, rest, mine, ap (weight_of nodes) here, ap (weight_of nodes') here)
]
