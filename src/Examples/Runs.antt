-- ===== src/Examples/Runs.antt =====
-- A run of node 1 of the pair: it gets a command of node 2, executes its own and makes another.
use distadm.Prelude.{true, none, some, ◌≡◌, Bool, refl, arith}
use distadm.Matrix.{find, modify, node_offset, index_from}
use distadm.Messages.{Body}
use distadm.Core.{Core, my_cell, my_row}
use distadm.Core.Receive.{add_cmd, next_unknown}
use distadm.Core.Create.{create_command}
use distadm.Core.Commands.{Env, exec}
use distadm.Core.Execute.{execute, command_to_exec, can_exec, execute_pending_commands}
use distadm.Core.Running.{IsRunning}
use distadm.Core.Own.{Room}
use distadm.Core.Run.{Step, Reach, Reach-IsRunning}
use distadm.Core.Weights.{weight}
use distadm.Core.Ends.{Idle, execute_pending_commands-Idle}
use distadm.Examples.{pair, msg, core, waiting}
use distadm.Examples.Cores.{core-IsSound, mine}

abbrev pub env : Env
env = record { run_shell = λ cmd. none; now = "2024-05-01"; uuid_text = λ id. "" }

pub core-IsRunning : IsRunning (core waiting)
core-IsRunning = record { sound = core-IsSound; mine = mine }

abbrev got : Core
got = add_cmd (core waiting) (msg 2 4 Body.dellog)

chosen : command_to_exec got 0 ≡ some (msg 1 2 Body.dellog)
unfolding command_to_exec can_exec add_cmd find node_offset modify
chosen = refl

own_cell : my_cell got got.my_id ≡ 3
unfolding my_cell my_row add_cmd find node_offset index_from next_unknown modify
own_cell = refl

room : Room got
room = omega (arith, own_cell)

abbrev done : Core
done = execute env got (msg 1 2 Body.dellog)

done_cell : my_cell done done.my_id ≡ 3
unfolding my_cell my_row add_cmd find node_offset index_from execute exec modify
done_cell = refl

abbrev made : Core
made = create_command done (Body.delfile "notes") true

Reach-IsRunning_example : IsRunning made
Reach-IsRunning_example =
    Reach-IsRunning env (core waiting) made
      (Reach.moves _ got _ (Step.receives _ (msg 2 4 Body.dellog) (omega arith)) (
        Reach.moves _ done _ (Step.executes _ 0 (msg 1 2 Body.dellog) chosen room) (
          Reach.moves _ made _
            (Step.creates _ (Body.delfile "notes") true (omega (arith, done_cell)))
            (Reach.stays made))))
      core-IsRunning

weight-waiting : weight pair waiting ≡ 1
unfolding find
weight-waiting = refl

waiting_cell : my_cell (core waiting) 1 ≡ 3
unfolding my_cell my_row find node_offset index_from
waiting_cell = refl

execute_pending_commands-Idle_example :
    (c' : Core) × (again : Bool) × (execute_pending_commands 2 env (λ i. 0) 0 (core waiting)
      ≡ some (c', again))
    × Idle c'
    × IsRunning c'
execute_pending_commands-Idle_example =
    execute_pending_commands-Idle 2 env (λ i. 0) 0 (core waiting) core-IsRunning (refl, tt)
      (omega (arith, weight-waiting)) (omega (arith, weight-waiting, waiting_cell))
