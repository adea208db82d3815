-- ===== src/Core/Execute.antt =====
-- The loop of core.cpp that executes commands: Core::command_to_exec, Core::mark_as_executed and
-- Core::execute_pending_commands. The random draws are a parameter, one number for each round.
use distadm.Prelude.{
  ℕ, zero, suc, ◌%◌, Bool, true, false, Option, none, some, List, [], ◌∷◌, length, get_elem?,
  filterb, ltb, ◌==◌, ◌&&◌, if◌then◌else◌,
}
use distadm.Matrix.{Node, Matrix, find, modify}
use distadm.Messages.{Msg, inc64}
use distadm.Core.{Core}
use distadm.Core.Commands.{Env, exec}

-- The loop over `m.depends`: an unknown node holds nothing up.
unfoldable pub depends_met : Matrix → List (ℕ × ℕ) → Bool
depends_met nodes [] = true
depends_met nodes ((id, number) ∷ ds) =
    let rest = depends_met nodes ds in
    elim (find id nodes) [
      | none ↦ rest
      | some p ↦ if ltb p.command_to_exec number then false else rest
    ]

unfoldable pub can_exec : Matrix → Msg → Bool
unfolding depends_met
can_exec nodes m = elim (find m.node_id nodes) [
  | none ↦ false
  | some n ↦ n.command_to_exec == m.msg_number && depends_met nodes m.depends
]

-- `vres`
unfoldable pub candidates : Core → List Msg
unfolding can_exec
candidates c = filterb (can_exec c.nodes) c.messages

-- Core::command_to_exec with the draw `roll`, which the distribution keeps below the size
unfoldable pub command_to_exec : Core → ℕ → Option Msg
unfolding candidates
command_to_exec c roll = let vres = candidates c in get_elem? vres (roll % length vres)

abbrev pub with_next : Node → Node
with_next n = record n { command_to_exec = inc64 n.command_to_exec }

-- Core::mark_as_executed
unfoldable pub mark_as_executed : Core → Msg → Core
unfolding inc64
mark_as_executed c cmd = elim (find cmd.node_id c.nodes) [
  | none ↦ c
  | some n ↦
      if n.command_to_exec == cmd.msg_number
      then record c { nodes = modify cmd.node_id with_next c.nodes }
      else c
]

-- One round of the loop: the command is executed and marked.
unfoldable pub execute : Env → Core → Msg → Core
unfolding mark_as_executed
execute env c cmd = record (mark_as_executed (exec env c cmd) cmd) { need_save = true }

-- Core::execute_pending_commands on fuel: the state, and whether a command was executed; `none` means
-- that the fuel ran out.
unfoldable pub execute_pending_commands : ℕ → Env → (ℕ → ℕ) → ℕ → Core → Option (Core × Bool)
unfolding command_to_exec execute
execute_pending_commands zero env rolls i c = none
execute_pending_commands (suc fuel) env rolls i c = elim (command_to_exec c (rolls i)) [
  | none ↦ some (c, false)
  | some cmd ↦ elim (execute_pending_commands fuel env rolls (suc i) (execute env c cmd)) [
    | none ↦ none
    | some (c', again) ↦ some (c', true)
  ]
]
