-- ===== src/Core/Run.antt =====
-- The runs of a node: what CoreBase::exec_packet, Core::daemon_work and the interactive commands make of
-- the state, one operation of core.cpp after the other, in any order.
use distadm.Prelude.{
  ℕ, zero, suc, ◌+◌, ◌<◌, ◌≡◌, Bool, true, some, List, [], ◌∷◌, length, get_elem?, Bool-cases,
  Option-cases, inl, inr,
}
use distadm.Matrix.{Matrix, ids, node_offset}
use distadm.Matrix.Shape.{Ascends}
use distadm.Messages.{Body, Msg, u64}
use distadm.Core.{Core, set_my_cell, my_cell}
use distadm.Core.Create.{create_command}
use distadm.Core.Receive.{add_cmd}
use distadm.Core.Commands.{Env}
use distadm.Core.Execute.{can_exec, candidates, command_to_exec, execute}
use distadm.Core.Remove.{ign_nodes, remove_old_commands}
use distadm.Core.Counting.{InRange}
use distadm.Core.Pending.{add_cmd-IsSound}
use distadm.Core.Gaps.{HasMine}
use distadm.Core.Changes.{HasNode-modify}
use distadm.Core.Check.{check_matrix}
use distadm.Core.Packets.{update_matrix}
use distadm.Core.Running.{IsRunning}
use distadm.Core.Own.{Room, own-IsRunning}
use distadm.Core.Executing.{execute-IsRunning}
use distadm.Core.Cleaning.{filterb-InRange, remove_old_commands-IsRunning}
use distadm.Core.Merging.{Fits, merge-IsRunning}

-- One operation. The numbers that it counts on with stay below the end of a size_t; a packet's matrix
-- is in the order of a std::map.
pub data Step (env : Env) : Core → Core → Type 0 where
  creates :
      (c : Core) (body : Body) (add_depends : Bool)
      → Room c
      → Step env c (create_command c body add_depends)
  receives : (c : Core) (cmd : Msg) → cmd.msg_number + 1 < u64 → Step env c (add_cmd c cmd)
  executes :
      (c : Core) (roll : ℕ) (cmd : Msg)
      → command_to_exec c roll ≡ some cmd
      → Room c
      → Step env c (execute env c cmd)
  merges :
      (c : Core) (mtx : Matrix)
      → Ascends 0 (ids mtx)
      → Fits (update_matrix c mtx)
      → c.has_my_node ≡ true
      → Step env c (check_matrix (update_matrix c mtx))
  removes :
      (c : Core)
      → ign_nodes c.messages ≡ []
      → my_cell c c.my_id + length c.messages + 1 < u64
      → Step env c (remove_old_commands c)

pub data Reach (env : Env) : Core → Core → Type 0 where
  stays : (c : Core) → Reach env c c
  moves : (c c' c'' : Core) → Step env c c' → Reach env c' c'' → Reach env c c''

pub add_cmd-HasMine : (c : Core) (cmd : Msg) → HasMine c → HasMine (add_cmd c cmd)
unfolding add_cmd set_my_cell
add_cmd-HasMine c cmd mine = elim (Option-cases (node_offset c.nodes cmd.node_id)) [
  | inl unknown ↦ rw (unknown, add_cmd) mine
  | inr (x, at_x) ↦
      rw (at_x, add_cmd)
        (elim (Bool-cases c.has_my_node) [
          | inl node ↦ rw node (HasNode-modify c.my_id c.my_id _ c.nodes mine)
          | inr no_node ↦ rw no_node mine
        ])
]

pub get_elem?-InRange :
    (ms : List Msg) (i : ℕ) (m : Msg)
    → InRange ms
    → get_elem? ms i ≡ some m
    → m.msg_number + 1 < u64
get_elem?-InRange [] i m r h = cc
get_elem?-InRange (x ∷ ms) zero m r h = let same : x ≡ m = cc in rw same at r.0
get_elem?-InRange (x ∷ ms) (suc i) m r h = get_elem?-InRange ms i m r.1 h

Step-IsRunning : (env : Env) (c c' : Core) → Step env c c' → IsRunning c → IsRunning c'
unfolding command_to_exec candidates
Step-IsRunning env c _ (creates _ body add_depends room) r = own-IsRunning c body add_depends room r
Step-IsRunning env c _ (receives _ cmd small) r = record {
  sound = add_cmd-IsSound c cmd r.sound (λ node. r.mine) small;
  mine = add_cmd-HasMine c cmd r.mine;
}
Step-IsRunning env c _ (executes _ roll cmd chosen room) r =
    execute-IsRunning env c cmd
      (get_elem?-InRange (candidates c) _ cmd
        (filterb-InRange (can_exec c.nodes) c.messages r.sound.in_range) chosen)
      room r
Step-IsRunning env c _ (merges _ mtx ordered fits node) r =
    merge-IsRunning c mtx ordered fits node r
Step-IsRunning env c _ (removes _ none_ignored room) r =
    remove_old_commands-IsRunning c none_ignored room r

-- A node that runs goes on running: after any sequence of operations (a command of its own, a message
-- that arrives, a command that is executed, the matrix of a packet that is merged and checked, the
-- removal of old commands) its matrix is square, it has its own entry, and every command that its row
-- claims to know and that it has not executed is among its messages. The counters stay below the end
-- of a size_t, and old commands are removed while no forced "delnode" waits.
pub Reach-IsRunning : (env : Env) (c c' : Core) → Reach env c c' → IsRunning c → IsRunning c'
Reach-IsRunning env c _ (stays _) r = r
Reach-IsRunning env c c' (moves _ c₁ _ step further) r =
    Reach-IsRunning env c₁ c' further (Step-IsRunning env c c₁ step r)
