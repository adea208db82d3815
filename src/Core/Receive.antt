-- ===== src/Core/Receive.antt =====
-- Core::add_cmd and Core::find_command of core.cpp: a message arrives.
use distadm.Prelude.{ℕ, zero, suc, true, false, Option, none, some, List, length, get_or}
use distadm.Matrix.{node_offset}
use distadm.Messages.{Msg, inc64, has_msg, find_msg, insert_msg}
use distadm.Core.{Core, my_row, set_my_cell}

-- `while (messages.find(Msg(id, c)) != messages.end()) c++;` on fuel
unfoldable pub next_unknown : ℕ → ℕ → ℕ → List Msg → ℕ
unfolding has_msg inc64
next_unknown zero id number ms = number
next_unknown (suc fuel) id number ms = elim (has_msg id number ms) [
  | true ↦ next_unknown fuel id (inc64 number) ms
  | false ↦ number
]

unfoldable pub add_cmd : Core → Msg → Core
unfolding my_row set_my_cell next_unknown insert_msg
add_cmd c cmd = elim (node_offset c.nodes cmd.node_id) [
  | none ↦ c
  | some x ↦
      let messages' = insert_msg cmd c.messages in
      let c' = record c { messages = messages'; need_save = true } in
      let known = get_or (my_row c) x 0 in
      elim c.has_my_node [
        | true ↦
            set_my_cell x (next_unknown (suc (length messages')) cmd.node_id known messages') c'
        | false ↦ c'
      ]
]

-- Core::find_command
unfoldable pub find_command : Core → ℕ → ℕ → Option Msg
unfolding find_msg
find_command c id number = find_msg id number c.messages
