-- ===== src/Core/Remove.antt =====
-- Core::remove_old_commands of core.cpp, and what bdmsg.cpp does before a command is removed.
use text.Mathlib.Text.{◌==◌ as str_eq}
use distadm.Prelude.{
  ℕ, suc, ◌-◌, ◌++◌, String, Bool, true, false, not, none, some, List, [], ◌∷◌, min, length, get_or,
  set, replicate, filterb, ltb, ◌==◌, ◌&&◌, ◌||◌, if◌then◌else◌,
}
use distadm.Matrix.{Matrix, node_offset}
use distadm.Usernames.{Effect}
use distadm.Messages.{Body, Msg, u64, less, has_msg}
use distadm.Core.{Core, NodeStatus}
use distadm.Core.Create.{create_command}

-- `ign_nodes`
unfoldable pub ign_nodes : List Msg → List ℕ
ign_nodes [] = []
ign_nodes (cmd ∷ ms) =
    let rest = ign_nodes ms in
    elim cmd.value [ Body.delnode val force ↦ if force then val ∷ rest else rest | _ ↦ rest ]

unfoldable pub contains : ℕ → List ℕ → Bool
contains id [] = false
contains id (x ∷ xs) = x == id || contains id xs

-- `level[j] = min(level[j], matrix_row[j])` for all j
unfoldable pub lower_row : List ℕ → List ℕ → List ℕ
lower_row [] row = []
lower_row (l ∷ level) [] = l ∷ level
lower_row (l ∷ level) (x ∷ row) = min l x ∷ lower_row level row

-- The loop over the nodes: `i` does not move on over a node that is ignored.
unfoldable pub levels : List ℕ → Matrix → ℕ → List ℕ → List ℕ
unfolding lower_row contains
levels ign [] i level = level
levels ign ((id, n) ∷ m) i level = elim (contains id ign) [
  | true ↦ levels ign m i level
  | false ↦
      let lowered = lower_row level n.matrix_row in
      levels ign m (suc i) (set lowered i (min (get_or lowered i 0) n.command_to_exec))
]

-- `level`, which starts with -1UL everywhere
unfoldable pub level_of : Core → List ℕ
unfolding ign_nodes levels
level_of c = levels (ign_nodes c.messages) c.nodes 0 (replicate (length c.nodes) (u64 - 1))

-- `nodes.find(m.node_id) == nodes.end() || m.msg_number < b[m.node_id]`
unfoldable pub is_old : Matrix → List ℕ → Msg → Bool
is_old nodes level m = elim (node_offset nodes m.node_id) [
  | none ↦ true
  | some i ↦ ltb m.msg_number (get_or level i 0)
]

-- std::remove of the first name that is equal
unfoldable erase_name : String → List String → List String
erase_name fn [] = []
erase_name fn (x ∷ xs) = let rest = erase_name fn xs in if str_eq x fn then xs else x ∷ rest

-- Core::bdm_delfile; the file is named without its directory
unfoldable pub bdm_delfile : Core → String → Core
unfolding erase_name
bdm_delfile c fn = record c {
  effects = c.effects ++ Effect.removes fn ∷ [];
  filenames = erase_name fn c.filenames;
}

-- Core::bdm_deldir
unfoldable pub bdm_deldir : Core → String → Core
bdm_deldir c dn = record c { effects = c.effects ++ Effect.removes_all dn ∷ [] }

-- Core::bdm_delnode
unfoldable pub bdm_delnode : Core → ℕ → Core
bdm_delnode c id =
    let created =
      create_command (record c { status = NodeStatus.work }) (Body.delnoderecord id) true in
    if id == 0 || (id == c.my_id && ltb 1 (length c.nodes))
    then c
    else record created { status = c.status }

-- The table `bdm_list`
unfoldable pub before_delete : Core → Body → Core
unfolding bdm_delfile bdm_deldir bdm_delnode
before_delete c (Body.delnode val force) = bdm_delnode c val
before_delete c (Body.delfile filename) = bdm_delfile c filename
before_delete c (Body.deldir dirname) = bdm_deldir c dirname
before_delete c value = c

-- Core::before_delete_message
unfoldable pub before_delete_message : Core → Msg → Core
unfolding before_delete
before_delete_message c m = before_delete c m.value

-- What `after` has and `before` has not, and the iterator, which stands at `m`, has passed: the
-- `delete_flag` of such a message stays false.
unfoldable missed : Msg → List Msg → List Msg → List Msg
unfolding less has_msg
missed m before [] = []
missed m before (x ∷ after) =
    let rest = missed m before after in
    if less x m && not (has_msg x.node_id x.msg_number before) then x ∷ rest else rest

-- The loop over the messages that were there before it, and the messages that it creates behind the
-- iterator. The iterator comes to those that it creates ahead, but they are "delnoderecord", for
-- which before_delete_message does nothing.
unfoldable pub sweep : (Msg → Bool) → List Msg → Core → Core × List Msg
unfolding before_delete_message missed
sweep old [] c = (c, [])
sweep old (m ∷ ms) c = elim (old m) [
  | true ↦
      let c' = before_delete_message c m in
      let (swept, behind) = sweep old ms (record c' { need_save = true }) in
      (swept, missed m c.messages c'.messages ++ behind)
  | false ↦ sweep old ms c
]

unfoldable pub delete_flag : (Msg → Bool) → List Msg → Msg → Bool
unfolding has_msg
delete_flag old behind m = old m && not (has_msg m.node_id m.msg_number behind)

-- Core::remove_old_commands behind its return
unfoldable pub drop_old : Core → Core
unfolding level_of is_old sweep delete_flag
drop_old c =
    let old = is_old c.nodes (level_of c) in
    let (swept, behind) = sweep old c.messages c in
    record swept { messages = filterb (λ m. not (delete_flag old behind m)) swept.messages }

abbrev pub is_inviter : NodeStatus → Bool
is_inviter NodeStatus.inviter = true
is_inviter status = false

unfoldable pub remove_old_commands : Core → Core
unfolding drop_old
remove_old_commands c = if is_inviter c.status then c else drop_old c
