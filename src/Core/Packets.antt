-- ===== src/Core/Packets.antt =====
-- What core.cpp does with the matrix and the commands of a packet, of a file or from the net. The file
-- contents that follow a command, and the facts of the machine that Core::update_info announces, are
-- not modelled: the latter is a parameter.
use text.Mathlib.Text.{◌==◌ as str_eq}
use distadm.Prelude.{
  ℕ, zero, suc, String, Bool, true, false, Option, none, some, List, [], ◌∷◌, get_or, filterb, ltb,
  leb, ◌||◌, if◌then◌else◌,
}
use distadm.Matrix.{Matrix, find, node_offset, modify, del}
use distadm.Matrix.Update.{update}
use distadm.Messages.{Body, Msg, read_msg}
use distadm.Core.{Core, NodeStatus, NodeInfo, my_row}
use distadm.Core.Commands.{Env}
use distadm.Core.Create.{create_command}
use distadm.Core.Receive.{add_cmd}
use distadm.Core.Execute.{execute_pending_commands}
use distadm.Core.Remove.{lower_row, remove_old_commands}
use distadm.Core.Check.{check_matrix}

-- Core::pending_commands: `rolls` has the draws of each call of execute_pending_commands, which runs
-- on the second fuel; the first is that of the loop. `none` means that a fuel ran out.
unfoldable pending_rounds : ℕ → ℕ → Env → (ℕ → ℕ → ℕ) → ℕ → Core → Option Core
unfolding execute_pending_commands remove_old_commands
pending_rounds zero fuel env rolls r c = none
pending_rounds (suc rounds) fuel env rolls r c =
    elim (execute_pending_commands fuel env (rolls r) 0 c) [
      | none ↦ none
      | some (c', ret) ↦ elim ret [
        | false ↦ some c'
        | true ↦ pending_rounds rounds fuel env rolls (suc r) (remove_old_commands c')
      ]
    ]

unfoldable pub pending_commands : ℕ → ℕ → Env → (ℕ → ℕ → ℕ) → Core → Option Core
unfolding pending_rounds
pending_commands rounds fuel env rolls c = elim (execute_pending_commands fuel env (rolls 0) 0 c) [
  | none ↦ none
  | some (c', ret) ↦ pending_rounds rounds fuel env rolls 1 (remove_old_commands c')
]

-- Core::check_msg_cnt
unfoldable pub check_msg_cnt : Core → ℕ → ℕ → Core × Bool
check_msg_cnt c id netmsgcnt = elim (find id c.nodes) [
  | none ↦ (c, false)
  | some n ↦
      if leb netmsgcnt n.netmsgcnt
      then (c, false)
      else (record c { nodes = modify id (λ p. record p { netmsgcnt = netmsgcnt }) c.nodes }, true)
]

-- Core::update_node_hash
unfoldable pub update_node_hash : Core → ℕ → ℕ → Core
update_node_hash c id hash = record c { nodes = modify id (λ n. record n { hash = hash }) c.nodes }

-- Core::node_known
unfoldable pub node_known : Core → ℕ → Bool
node_known c id = elim (find id c.nodes) [ none ↦ false | some n ↦ true ]

-- Core::update_matrix
unfoldable pub update_matrix : Core → Matrix → Core
update_matrix c m =
    let (nodes', changed) = update c.nodes m in
    record c { nodes = nodes'; need_save = c.need_save || changed }

-- Core::delnoderecord
unfoldable pub delnoderecord : Core → ℕ → Core
delnoderecord c id = record c { nodes = del c.nodes id }

-- `min_nums` of Core::commands_to_write; a node that is not known is passed over.
unfoldable min_nums : Matrix → List ℕ → List ℕ → List ℕ
unfolding lower_row
min_nums nodes [] row = row
min_nums nodes (id ∷ dest_nodes) row = elim (find id nodes) [
  | none ↦ min_nums nodes dest_nodes row
  | some n ↦ min_nums nodes dest_nodes (lower_row row n.matrix_row)
]

unfoldable below_min : Matrix → List ℕ → Msg → Bool
below_min nodes nums m = elim (node_offset nodes m.node_id) [
  | none ↦ false
  | some i ↦ ltb m.msg_number (get_or nums i 0)
]

-- Core::commands_to_write
unfoldable commands_to_write : Core → List ℕ → List Msg
unfolding my_row min_nums below_min
commands_to_write c dest_nodes =
    filterb (below_min c.nodes (min_nums c.nodes dest_nodes (my_row c))) c.messages

-- The loop of Core::read_packet_v1 over the commands
unfoldable add_cmds : List Msg → Core → Core
unfolding add_cmd read_msg
add_cmds [] c = c
add_cmds (m ∷ ms) c = add_cmds ms (add_cmd c (read_msg m))

unfoldable merge_packet : Matrix → List Msg → Core → Core
unfolding update_matrix check_matrix add_cmds
merge_packet mtx ms c = add_cmds ms (check_matrix (update_matrix c mtx))

abbrev is_part_init : NodeStatus → Bool
is_part_init NodeStatus.part_init = true
is_part_init status = false

-- Core::read_packet_v1; `none` is the exception "Node is not initialized".
unfoldable read_packet_v1 : (Core → Core) → Matrix → List Msg → Core → Option Core
unfolding merge_packet
read_packet_v1 update_info mtx ms c =
    let joined = merge_packet mtx ms (update_info (record c { status = NodeStatus.work })) in
    if is_part_init c.status
    then elim (find c.my_id mtx) [ none ↦ none | some n ↦ some joined ]
    else some (merge_packet mtx ms c)

-- The loop of Core::nodebyname over `state_nodes`
unfoldable pub named : String → List (ℕ × NodeInfo) → Matrix → ℕ
named str [] nodes = 0
named str ((id, v) ∷ l) nodes =
    let further = named str l nodes in
    if str_eq v.hostname str then elim (find id nodes) [ none ↦ further | some n ↦ id ] else further

-- Core::nodebyname; `parse` is the constructor of a UUID from a text.
unfoldable pub nodebyname : (String → ℕ) → Core → String → ℕ
unfolding named
nodebyname parse c str = elim (find (parse str) c.nodes) [
  | some n ↦ parse str
  | none ↦ named str c.state_nodes c.nodes
]

-- The end of Core::write_net_initializer: the node that asks has the first id that is free.
unfoldable first_free : List ℕ → Matrix → Option ℕ
first_free [] nodes = none
first_free (new_id ∷ tries) nodes =
    let later = first_free tries nodes in
    elim (find new_id nodes) [ none ↦ some new_id | some n ↦ later ]

unfoldable write_net_initializer : ℕ → ℕ → Env → (ℕ → ℕ → ℕ) → List ℕ → Core → Option Core
unfolding first_free pending_commands create_command
write_net_initializer rounds fuel env rolls tries c = elim (first_free tries c.nodes) [
  | none ↦ none
  | some new_id ↦
      pending_commands rounds fuel env rolls (create_command c (Body.addnode new_id) false)
]
