-- ===== src/Examples/Cores.antt =====
-- The theorems on the state of a node at node 1 of the pair.
use distadm.Prelude.{true, false, some, List, [], ◌∷◌, ◌≡◌, refl, arith}
use distadm.Matrix.{Node, find, node_offset, index_from}
use distadm.Messages.{Body, Msg, is_id, has_msg}
use distadm.Core.{my_cell, my_row}
use distadm.Core.Receive.{add_cmd}
use distadm.Core.Pending.{HoldsPending, IsSound, add_cmd-IsSound}
use distadm.Core.Remove.{ign_nodes, remove_old_commands}
use distadm.Core.Removed.{IsSpread, removed-IsSpread}
use distadm.Core.Check.{check_matrix}
use distadm.Core.Repair.{check_matrix-HoldsPending}
use distadm.Examples.{node, pair, pair-IsSquare, msg, core, waiting}

core-HoldsPending : HoldsPending (core waiting)
unfolding my_cell my_row find node_offset index_from has_msg is_id
core-HoldsPending a k h l = ground arith

pub core-IsSound : IsSound (core waiting)
core-IsSound = record {
  square = pair-IsSquare;
  in_range = (omega arith, tt);
  pending = core-HoldsPending;
}

pub mine : (n : Node) × (find 1 pair ≡ some n)
unfolding find
mine = (node (3 ∷ 1 ∷ []) 2, refl)

add_cmd-IsSound_example : IsSound (add_cmd (core waiting) (msg 2 1 Body.dellog))
add_cmd-IsSound_example =
    add_cmd-IsSound (core waiting) (msg 2 1 Body.dellog) core-IsSound (λ h. mine) (omega arith)

check_matrix-HoldsPending_example : HoldsPending (check_matrix (core []))
check_matrix-HoldsPending_example = check_matrix-HoldsPending (core []) pair-IsSquare refl mine

-- The message 0 of node 2 is executed and known to both nodes.
abbrev spread : List Msg
spread = msg 1 2 Body.dellog ∷ msg 2 0 Body.dellog ∷ []

none_ignored : ign_nodes spread ≡ []
unfolding ign_nodes
none_ignored = refl

second_column : node_offset pair 2 ≡ some 1
unfolding node_offset index_from
second_column = refl

holds_it : has_msg 2 0 spread ≡ true
unfolding has_msg is_id
holds_it = refl

drops_it : has_msg 2 0 (remove_old_commands (core spread)).messages ≡ false
unfolding remove_old_commands has_msg node_offset
drops_it = refl

removed-IsSpread_example : IsSpread pair 2 0
removed-IsSpread_example =
    removed-IsSpread (core spread) 2 1 0 pair-IsSquare none_ignored second_column holds_it drops_it
