-- ===== src/Core/Removed.antt =====
-- What Core::remove_old_commands removes.
use distadm.Prelude.{
  ℕ, ◌-◌, ◌<◌, ◌≡◌, Bool, true, false, some, List, [], ◌∷◌, length, ltb, ◌==◌, ◌&&◌, ◌||◌, arith,
  Bool-cases, Option-cases, inl, inr, get_or, replicate, filterb, ltb→lt,
}
use distadm.Matrix.{Node, Matrix, find, node_offset}
use distadm.Matrix.Shape.{IsSquare}
use distadm.Matrix.Cells.{get_elem?-row}
use distadm.Messages.{Body, Msg, u64, is_id, has_msg}
use distadm.Messages.Members.{has_msg-insert_msg}
use distadm.Core.{Core, NodeStatus, exec_of, is_active, set_my_cell}
use distadm.Core.Create.{new_msg, create_command, add_own}
use distadm.Core.Remove.{
  ign_nodes, levels, level_of, is_old, bdm_delnode, before_delete, before_delete_message, drop_old,
  is_inviter, sweep, delete_flag, bdm_delfile, bdm_deldir, remove_old_commands,
}
use distadm.Core.Levels.{levels-exec, levels-row}

pub has_msg-filterb :
    (a k : ℕ) (test : Msg → Bool) (ms : List Msg)
    → has_msg a k ms ≡ true
    → has_msg a k (filterb test ms) ≡ false
    → (m : Msg) × (is_id a k m ≡ true) × (test m ≡ false)
unfolding has_msg
has_msg-filterb a k test [] h h' = cc
has_msg-filterb a k test (m ∷ ms) h h' = elim (Bool-cases (is_id a k m)) [
  | inl hit ↦ elim (Bool-cases (test m)) [
    | inl kept ↦ absurd (ground arith)
    | inr gone ↦ (m, hit, gone)
  ]
  | inr miss ↦ has_msg-filterb a k test ms (rw miss at h) (ground arith)
]

has_msg-add_own :
    (a k : ℕ) (c : Core) (body : Body) (deps : Bool)
    → has_msg a k c.messages ≡ true
    → has_msg a k (add_own c body deps).messages ≡ true
unfolding add_own set_my_cell
has_msg-add_own a k c body deps h = elim (Option-cases (node_offset c.nodes c.my_id)) [
  | inl absent ↦ rw (absent, add_own) h
  | inr (i, at_i) ↦
      rw (at_i, add_own) (ground (arith, has_msg-insert_msg a k (new_msg c i body deps) c.messages))
]

has_msg-create_command :
    (a k : ℕ) (c : Core) (body : Body) (deps : Bool)
    → has_msg a k c.messages ≡ true
    → has_msg a k (create_command c body deps).messages ≡ true
unfolding create_command
has_msg-create_command a k c body deps h = elim (Bool-cases (is_active c.status)) [
  | inl active ↦ rw active (has_msg-add_own a k c body deps h)
  | inr passive ↦ rw passive h
]

has_msg-bdm_delnode :
    (a k id : ℕ) (c : Core)
    → has_msg a k c.messages ≡ true
    → has_msg a k (bdm_delnode c id).messages ≡ true
unfolding bdm_delnode
has_msg-bdm_delnode a k id c h =
    let made =
      has_msg-create_command a k (record c { status = NodeStatus.work }) (Body.delnoderecord id)
        true h in
    elim (Bool-cases (id == 0 || (id == c.my_id && ltb 1 (length c.nodes)))) [
      | inl skip ↦ rw skip h
      | inr create ↦ rw create made
    ]

has_msg-before_delete :
    (a k : ℕ) (c : Core) (value : Body)
    → has_msg a k c.messages ≡ true
    → has_msg a k (before_delete c value).messages ≡ true
unfolding before_delete bdm_delfile bdm_deldir
has_msg-before_delete a k c (Body.delnode val force) h = has_msg-bdm_delnode a k val c h
has_msg-before_delete a k c (Body.delfile filename) h = h
has_msg-before_delete a k c (Body.deldir dirname) h = h
has_msg-before_delete a k c value h = h

-- The loop takes no message away.
has_msg-sweep :
    (a k : ℕ) (old : Msg → Bool) (ms : List Msg) (c : Core)
    → has_msg a k c.messages ≡ true
    → has_msg a k (sweep old ms c).0.messages ≡ true
unfolding sweep before_delete_message
has_msg-sweep a k old [] c h = h
has_msg-sweep a k old (m ∷ ms) c h = elim (Bool-cases (old m)) [
  | inl goes ↦ rw (goes, sweep) (has_msg-sweep a k old ms _ (has_msg-before_delete a k c m.value h))
  | inr stays ↦ rw (stays, sweep) (has_msg-sweep a k old ms c h)
]

-- The message `number` of `author` is executed here, and every node is known to know it.
pub record IsSpread (nodes : Matrix) (author number : ℕ) : Type 0 where
  pub executed : number < exec_of (find author nodes)
  pub known :
      (b i : ℕ) (n : Node)
      → find b nodes ≡ some n
      → node_offset nodes author ≡ some i
      → number < get_or n.matrix_row i 0

pub is_id-eq : (a k : ℕ) (m : Msg) → is_id a k m ≡ true → (m.node_id ≡ a) × (m.msg_number ≡ k)
unfolding is_id
is_id-eq a k m h = (ground arith, ground arith)

is_old-below :
    (nodes : Matrix) (level : List ℕ) (m : Msg) (i : ℕ)
    → node_offset nodes m.node_id ≡ some i
    → is_old nodes level m ≡ true
    → m.msg_number < get_or level i 0
unfolding is_old
is_old-below nodes level m i at_i h = ltb→lt _ _ (rw (at_i, is_old) at h)

pub is_old-IsSpread :
    (c : Core) (i : ℕ) (m : Msg)
    → IsSquare c.nodes
    → ign_nodes c.messages ≡ []
    → node_offset c.nodes m.node_id ≡ some i
    → is_old c.nodes (level_of c) m ≡ true
    → IsSpread c.nodes m.node_id m.msg_number
unfolding level_of
is_old-IsSpread c i m sq none_ignored at_i old =
    let start = replicate (length c.nodes) (u64 - 1) in
    let below : m.msg_number < get_or (levels [] c.nodes 0 start) i 0 =
      rw none_ignored at (is_old-below c.nodes (level_of c) m i at_i old) in
    record {
      executed =
          unfold node_offset in levels-exec m.node_id c.nodes 0 i start m.msg_number at_i below;
      known = λ b j n found at_j.
          let same : i ≡ j = ground arith in
          let below' : m.msg_number < get_or (levels [] c.nodes 0 start) j 0 = rw same at below in
          levels-row b c.nodes 0 j start n m.msg_number found
            (get_elem?-row c.nodes b m.node_id j n sq found at_j) below';
    }

-- A message that `remove_old_commands` removes, whose author is a node, is executed here, and the
-- row of every node says that it knows it: this holds when no forced "delnode" waits.
pub removed-IsSpread :
    (c : Core) (a i k : ℕ)
    → IsSquare c.nodes
    → ign_nodes c.messages ≡ []
    → node_offset c.nodes a ≡ some i
    → has_msg a k c.messages ≡ true
    → has_msg a k (remove_old_commands c).messages ≡ false
    → IsSpread c.nodes a k
unfolding remove_old_commands drop_old delete_flag
removed-IsSpread c a i k sq none_ignored at_i here gone = elim (Bool-cases (is_inviter c.status)) [
  | inl inviter ↦ absurd (ground (arith, rw inviter at gone))
  | inr other ↦
      let old = is_old c.nodes (level_of c) in
      let (m, same, flagged) =
        has_msg-filterb a k _ (sweep old c.messages c).0.messages
          (has_msg-sweep a k old c.messages c here) (rw other at gone) in
      let (author, number) = is_id-eq a k m same in
      let spread = is_old-IsSpread c i m sq none_ignored (rw author at_i) (ground arith) in
      rw number at (rw author at spread)
]
