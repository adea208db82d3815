-- ===== src/Core/Create.antt =====
-- Core::create_command of core.cpp.
use distadm.Prelude.{ℕ, Bool, true, none, some, List, [], ◌∷◌, get_or, if◌then◌else◌}
use distadm.Matrix.{Matrix, node_offset}
use distadm.Messages.{Body, Msg, inc64, insert_msg}
use distadm.Core.{Core, is_active, my_row, set_my_cell}

-- `cmd.depends[n.first] = n.second.command_to_exec` for all nodes
unfoldable pub all_depends : Matrix → List (ℕ × ℕ)
all_depends [] = []
all_depends ((id, n) ∷ m) = (id, n.command_to_exec) ∷ all_depends m

abbrev pub new_msg : Core → ℕ → Body → Bool → Msg
new_msg c i body add_depends = record {
  node_id = c.my_id;
  msg_number = get_or (my_row c) i 0;
  value = body;
  depends = if add_depends then all_depends c.nodes else [];
}

-- The method for an active node; `my_node` is not null then, and without it nothing is done here.
unfoldable pub add_own : Core → Body → Bool → Core
unfolding my_row set_my_cell all_depends insert_msg
add_own c body add_depends = elim (node_offset c.nodes c.my_id) [
  | none ↦ c
  | some i ↦
      let cmd = new_msg c i body add_depends in
      let c' = set_my_cell i (inc64 cmd.msg_number) c in
      record c' { messages = insert_msg cmd c.messages; need_save = true }
]

unfoldable pub create_command : Core → Body → Bool → Core
unfolding add_own
create_command c body add_depends = if is_active c.status then add_own c body add_depends else c
