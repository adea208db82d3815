-- ===== src/Core/Check.antt =====
-- Core::check_matrix of core.cpp: my row, as it was loaded or merged, is brought down to what the
-- messages bear out.
use distadm.Prelude.{
  ℕ, zero, suc, ◌-◌, true, false, not, List, [], ◌∷◌, get_or, leb, ◌==◌, ◌&&◌, if◌then◌else◌,
}
use distadm.Matrix.{Matrix}
use distadm.Messages.{Body, Msg, has_msg, insert_msg}
use distadm.Core.{Core, my_row, set_my_cell}
use distadm.Core.Remove.{lower_row}

-- `minrow`
unfoldable pub min_rows : Matrix → List ℕ → List ℕ
unfolding lower_row
min_rows [] row = row
min_rows ((id, n) ∷ m) row = min_rows m (lower_row row n.matrix_row)

abbrev pub bad_msg : ℕ → ℕ → Msg
bad_msg id j = record { node_id = id; msg_number = j; value = Body.bad_message; depends = [] }

abbrev pub with_bad : ℕ → ℕ → Core → Core
with_bad id j c = record c { messages = insert_msg (bad_msg id j) c.messages; need_save = true }

-- The loop over j for the node `id` of column `i`; the first number is how many rounds are left.
unfoldable pub fill_gap : ℕ → ℕ → ℕ → ℕ → ℕ → Core → Core
unfolding has_msg insert_msg set_my_cell
fill_gap zero id i low j c = c
fill_gap (suc rounds) id i low j c = elim (has_msg id j c.messages) [
  | true ↦ fill_gap rounds id i low (suc j) c
  | false ↦ elim (leb low j && not (c.my_id == id)) [
    | true ↦ set_my_cell i j c
    | false ↦ fill_gap rounds id i low (suc j) (with_bad id j c)
  ]
]

-- The loop over the nodes, from column `i` on
unfoldable pub check_nodes : Matrix → ℕ → List ℕ → Core → Core
unfolding fill_gap my_row
check_nodes [] i minrow c = c
check_nodes ((id, n) ∷ m) i minrow c =
    let rounds = get_or (my_row c) i 0 - n.command_to_exec in
    check_nodes m (suc i) minrow (fill_gap rounds id i (get_or minrow i 0) n.command_to_exec c)

unfoldable pub check_matrix : Core → Core
unfolding check_nodes min_rows my_row
check_matrix c = if c.has_my_node then check_nodes c.nodes 0 (min_rows c.nodes (my_row c)) c else c
