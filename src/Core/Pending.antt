-- ===== src/Core/Pending.antt =====
-- The invariant of a node: a command that its row claims to know and that it has not executed is
-- among its messages. Creating a command and receiving one keep it.
use distadm.Prelude.{
  ℕ, ◌+◌, ◌≤◌, ◌<◌, ◌≡◌, Bool, true, some, List, [], ◌∷◌, length, ltb, ◌==◌, if◌then◌else◌, arith,
  Bool-cases, Option-cases, ==→eq, inl, inr, get_or, ltb→lt, ltb-false,
}
use distadm.Matrix.{Node, find, node_offset}
use distadm.Matrix.Shape.{IsSquare}
use distadm.Matrix.Cells.{get_elem?-row}
use distadm.Messages.{Body, Msg, less, u64, inc64, is_id, has_msg, insert_msg}
use distadm.Messages.Members.{has_msg-insert_msg}
use distadm.Core.{Core, is_active, my_row, set_my_cell, exec_of, my_cell}
use distadm.Core.Create.{new_msg, add_own, create_command}
use distadm.Core.Receive.{add_cmd}
use distadm.Core.Counting.{InRange, next_unknown_lem}
use distadm.Core.Rows.{my_cell-set_my_cell, exec_of-set_my_cell, set_my_cell-IsSquare}

abbrev pub HoldsPending : Core → Type 0
HoldsPending c =
    (a k : ℕ) → exec_of (find a c.nodes) ≤ k → k < my_cell c a → has_msg a k c.messages ≡ true

pub record IsSound (c : Core) : Type 0 where
  pub square : IsSquare c.nodes
  pub in_range : InRange c.messages
  pub pending : HoldsPending c

pub InRange-insert_msg :
    (m : Msg) (ms : List Msg) → m.msg_number + 1 < u64 → InRange ms → InRange (insert_msg m ms)
unfolding insert_msg
InRange-insert_msg m [] h r = (h, tt)
InRange-insert_msg m (x ∷ ms) h r = elim (Bool-cases (is_id m.node_id m.msg_number x)) [
  | inl same ↦ rw same r
  | inr other ↦ rw other (elim (Bool-cases (less m x)) [
    | inl before ↦ rw before (h, r)
    | inr after ↦ rw after (r.0, InRange-insert_msg m ms h r.1)
  ])
]

pub my_row-width :
    (c : Core) (a i : ℕ) (n : Node)
    → IsSquare c.nodes
    → find c.my_id c.nodes ≡ some n
    → node_offset c.nodes a ≡ some i
    → i < length (my_row c)
unfolding my_row
my_row-width c a i n sq found at_i = rw found (get_elem?-row c.nodes c.my_id a i n sq found at_i)

-- A message that is in the set stays in it when another is inserted.
pub has_msg-grows :
    (a k : ℕ) (m : Msg) (ms : List Msg)
    → has_msg a k ms ≡ true
    → has_msg a k (insert_msg m ms) ≡ true
has_msg-grows a k m ms h = ground (arith, has_msg-insert_msg a k m ms)

-- My cell may move on over messages that are there.
module _ (c : Core) (a x next : ℕ) (n : Node) (found : find c.my_id c.nodes ≡ some n)
    (at_x : node_offset c.nodes a ≡ some x) (sound : IsSound c)
    (there : (k : ℕ) → my_cell c a ≤ k → k < next → has_msg a k c.messages ≡ true) where
  raised-pending :
      (b k : ℕ)
      → exec_of (find b c.nodes) ≤ k
      → k < (if b == a then next else my_cell c b)
      → has_msg b k c.messages ≡ true
  raised-pending b k h l = elim (Bool-cases (b == a)) [
    | inl same ↦ elim (Bool-cases (ltb k (my_cell c b))) [
      | inl old ↦ sound.pending b k h (ltb→lt _ _ old)
      | inr new ↦
          let same' = ==→eq b a same in
          rw same' (there k (rw same' at (ltb-false _ _ new)) (rw same at l))
    ]
    | inr other ↦ sound.pending b k h (rw other at l)
  ]

  raised-IsSound : IsSound (set_my_cell x next c)
  unfolding set_my_cell
  raised-IsSound = record {
    square = set_my_cell-IsSquare c a x next at_x sound.square;
    in_range = sound.in_range;
    pending = λ b k h l. raised-pending b k (rw (exec_of-set_my_cell c a x next at_x b) at h) (
        rw (my_cell-set_my_cell c a x next at_x b (my_row-width c a x n sound.square found at_x)) at
          l);
  }

module _ (c : Core) (cmd : Msg) (sound : IsSound c) (room : cmd.msg_number + 1 < u64) where
  abbrev received : Core
  received = record c { messages = insert_msg cmd c.messages; need_save = true }

  received-IsSound : IsSound received
  unfolding my_cell my_row
  received-IsSound = record {
    square = sound.square;
    in_range = InRange-insert_msg cmd c.messages room sound.in_range;
    pending = λ a k h l. has_msg-grows a k cmd c.messages (sound.pending a k h l);
  }

pub my_cell-at :
    (c : Core) (a x : ℕ) → node_offset c.nodes a ≡ some x → my_cell c a ≡ get_or (my_row c) x 0
unfolding my_cell
my_cell-at c a x at_x = rw (at_x, my_cell)

-- A message that arrives, of any author and with any content, keeps the invariant: `add_cmd` moves my
-- cell for its author exactly over messages that are there. Where `my_node` is set the node has its
-- entry, and the number of the message leaves room for an increment.
pub add_cmd-IsSound :
    (c : Core) (cmd : Msg)
    → IsSound c
    → (c.has_my_node ≡ true → (n : Node) × (find c.my_id c.nodes ≡ some n))
    → cmd.msg_number + 1 < u64
    → IsSound (add_cmd c cmd)
unfolding add_cmd
add_cmd-IsSound c cmd sound mine room = elim (Option-cases (node_offset c.nodes cmd.node_id)) [
  | inl unknown ↦ rw (unknown, add_cmd) sound
  | inr (x, at_x) ↦
      rw (at_x, add_cmd)
        (elim (Bool-cases c.has_my_node) [
          | inl node ↦
              let (n, found) = mine node in
              let run =
                next_unknown_lem cmd.node_id (get_or (my_row c) x 0) (insert_msg cmd c.messages)
                  (InRange-insert_msg cmd c.messages room sound.in_range) in
              let start : my_cell (received c cmd sound room) cmd.node_id ≡ get_or (my_row c) x 0 =
                unfold my_row in my_cell-at (received c cmd sound room) cmd.node_id x at_x in
              rw node (
                raised-IsSound (received c cmd sound room) cmd.node_id x _ n found at_x
                  (received-IsSound c cmd sound room) (λ k h l. run.between k (rw start at h) l))
          | inr no_node ↦ rw no_node (received-IsSound c cmd sound room)
        ])
]

inserted :
    (k : ℕ) (m : Msg) (ms : List Msg)
    → m.msg_number ≤ k
    → k < inc64 m.msg_number
    → m.msg_number + 1 < u64
    → has_msg m.node_id k (insert_msg m ms) ≡ true
unfolding inc64 is_id
inserted k m ms h l room =
    let same : k ≡ m.msg_number = omega arith in
    rw same (ground (arith, has_msg-insert_msg m.node_id m.msg_number m ms))

-- A command that the node creates itself keeps the invariant, in every status. An active node has its
-- entry, and the number of the command leaves room for an increment.
pub create_command-IsSound :
    (c : Core) (body : Body) (add_depends : Bool)
    → IsSound c
    → (is_active c.status ≡ true → (n : Node) × (find c.my_id c.nodes ≡ some n))
    → my_cell c c.my_id + 1 < u64
    → IsSound (create_command c body add_depends)
unfolding create_command add_own
create_command-IsSound c body add_depends sound mine room = elim (Bool-cases (is_active c.status)) [
  | inr passive ↦ rw passive sound
  | inl active ↦ rw active (elim (Option-cases (node_offset c.nodes c.my_id)) [
    | inl absent ↦ rw (absent, add_own) sound
    | inr (i, at_i) ↦
        let (n, found) = mine active in
        let number = my_cell-at c c.my_id i at_i in
        let cmd = new_msg c i body add_depends in
        let room' : cmd.msg_number + 1 < u64 = rw number at room in
        let start : my_cell (received c cmd sound room') c.my_id ≡ get_or (my_row c) i 0 =
          unfold my_row in my_cell-at (received c cmd sound room') c.my_id i at_i in
        rw (at_i, add_own)
          (raised-IsSound (received c cmd sound room') c.my_id i (inc64 cmd.msg_number) n found at_i
            (received-IsSound c cmd sound room')
            (λ k h l. inserted k cmd c.messages (rw start at h) l room'))
  ])
]
