-- ===== src/Core/Executing.antt =====
-- What Core::exec and Core::mark_as_executed keep of the invariant of a node that runs.
use text.Mathlib.Text.{◌==◌ as str_eq}
use distadm.Prelude.{
  ℕ, ◌+◌, ◌≤◌, ◌<◌, ◌≡◌, refl, String, true, false, not, some, List, ◌==◌, ◌||◌, if◌then◌else◌,
  arith, Bool-cases, Option-cases, ==→eq, ==_refl, inl, inr,
}
use distadm.Matrix.{Node, find, del, modify}
use distadm.Messages.{Body, Msg, u64, inc64}
use distadm.Core.{Core, my_row, exec_of, my_cell}
use distadm.Core.Commands.{
  Env, save, del_self, node_alive, exec_addnode, exec_delnode, exec_delnoderecord, exec_exec,
  exec_value, exec, exec_executed, exec_delexec, exec_adduser, exec_deluser, join_params,
}
use distadm.Core.Execute.{mark_as_executed, with_next, execute}
use distadm.Core.Rows.{find-modify, modify-IsSquare, offset-modify}
use distadm.Core.Changes.{HasNode-modify}
use distadm.Core.Own.{Room, own-IsRunning}
use distadm.Core.Running.{
  IsRunning, Carries-IsSound, same-IsRunning, resize-IsRunning, del-IsRunning,
}

del_self-IsRunning : (c : Core) → IsRunning c → IsRunning (del_self c)
unfolding del_self save
del_self-IsRunning c r = elim (Bool-cases (c.need_save || false)) [
  | inl saved ↦ rw (saved, save, del_self) (same-IsRunning c _ refl refl refl r)
  | inr kept ↦ rw (kept, save, del_self) (same-IsRunning c _ refl refl refl r)
]

exec_addnode-IsRunning : (c : Core) (id : ℕ) → IsRunning c → IsRunning (exec_addnode c id)
unfolding exec_addnode
exec_addnode-IsRunning c id r = elim (Option-cases (find id c.nodes)) [
  | inl fresh ↦ rw (fresh, exec_addnode) (resize-IsRunning c id _ fresh r)
  | inr (n, known) ↦
      rw (known, exec_addnode)
        (elim (Bool-cases (id == c.my_id)) [
          | inr other ↦ rw other r
          | inl mine ↦ rw mine (elim (Bool-cases c.valid_node) [
            | inl valid ↦ rw valid (same-IsRunning c _ refl refl refl r)
            | inr lost ↦ rw lost (same-IsRunning c _ refl refl refl r)
          ])
        ])
]

module _ (env : Env) (c : Core) (id : ℕ) (r : IsRunning c) where
  gone-IsRunning :
      IsRunning (if id == c.my_id then del_self c else record c { nodes = del c.nodes id })
  gone-IsRunning = elim (Bool-cases (id == c.my_id)) [
    | inl mine ↦ rw mine (del_self-IsRunning c r)
    | inr other ↦ rw other (del-IsRunning c id (λ e. ground (arith, ==_refl id, rw e at other)) r)
  ]

  exec_delnoderecord-IsRunning : IsRunning (exec_delnoderecord env c id)
  unfolding exec_delnoderecord
  exec_delnoderecord-IsRunning =
      let c' = if id == c.my_id then del_self c else record c { nodes = del c.nodes id } in
      elim (Bool-cases (id == 0)) [
        | inl nil ↦ rw nil r
        | inr some_node ↦ rw some_node (elim (Bool-cases (node_alive c' id)) [
          | inl alive ↦ rw alive (same-IsRunning c' _ refl refl refl gone-IsRunning)
          | inr dead ↦ rw dead gone-IsRunning
        ])
      ]

exec_exec-IsRunning :
    (env : Env) (c : Core) (params : List String)
    → Room c
    → IsRunning c
    → IsRunning (exec_exec env c params)
unfolding exec_exec my_cell my_row
exec_exec-IsRunning env c params room r =
    elim (Option-cases (env.run_shell (join_params "" params))) [
      | inl failed ↦ rw (failed, exec_exec) (same-IsRunning c _ refl refl refl r)
      | inr (out, ran) ↦
          rw (ran, exec_exec) (own-IsRunning _ _ true room (same-IsRunning c _ refl refl refl r))
    ]

-- Any command, of any author.
pub exec_value-IsRunning :
    (env : Env) (c : Core) (author : ℕ) (value : Body)
    → Room c
    → IsRunning c
    → IsRunning (exec_value env c author value)
unfolding exec_value exec_delnode exec_delexec exec_adduser exec_deluser exec_executed
exec_value-IsRunning env c author Body.bad_message room r = r
exec_value-IsRunning env c author (Body.addnode id) room r = exec_addnode-IsRunning c id r
exec_value-IsRunning env c author (Body.sethostname name) room r =
    same-IsRunning c _ refl refl refl r
exec_value-IsRunning env c author (Body.delnode id force) room r =
    elim (Bool-cases (id == 0 || not (id == c.my_id))) [
      | inl other ↦ rw other r
      | inr me ↦ rw me (same-IsRunning c _ refl refl refl r)
    ]
exec_value-IsRunning env c author (Body.delnoderecord id) room r =
    exec_delnoderecord-IsRunning env c id r
exec_value-IsRunning env c author (Body.addfile filename range) room r =
    same-IsRunning c _ refl refl refl r
exec_value-IsRunning env c author (Body.delfile filename) room r = r
exec_value-IsRunning env c author (Body.deldir dirname) room r = r
exec_value-IsRunning env c author (Body.online date) room r = same-IsRunning c _ refl refl refl r
exec_value-IsRunning env c author (Body.exec params) room r =
    exec_exec-IsRunning env c params room r
exec_value-IsRunning env c author (Body.executed str date output) room r =
    same-IsRunning c _ refl refl refl r
exec_value-IsRunning env c author (Body.delexec filter) room r =
    elim (Bool-cases (str_eq filter "")) [
      | inl all ↦ rw all (same-IsRunning c _ refl refl refl r)
      | inr one ↦ rw one (same-IsRunning c _ refl refl refl r)
    ]
exec_value-IsRunning env c author Body.dellog room r = same-IsRunning c _ refl refl refl r
exec_value-IsRunning env c author (Body.antivirus updated scanned found) room r =
    same-IsRunning c _ refl refl refl r
exec_value-IsRunning env c author (Body.adduser line) room r = same-IsRunning c _ refl refl refl r
exec_value-IsRunning env c author (Body.deluser nick) room r = same-IsRunning c _ refl refl refl r
exec_value-IsRunning env c author (Body.smart ok) room r = same-IsRunning c _ refl refl refl r
exec_value-IsRunning env c author (Body.unknown name) room r = r

module _ (c : Core) (cmd : Msg) (n : Node) (small : cmd.msg_number + 1 < u64)
    (found : find cmd.node_id c.nodes ≡ some n)
    (next : (n.command_to_exec == cmd.msg_number) ≡ true) where
  abbrev pub marked : Core
  marked = record c { nodes = modify cmd.node_id with_next c.nodes }

  pub exec_of-marked : (a : ℕ) → exec_of (find a c.nodes) ≤ exec_of (find a marked.nodes)
  unfolding inc64
  exec_of-marked a = rw find-modify (elim (Bool-cases (a == cmd.node_id)) [
    | inr other ↦ rw other (omega arith)
    | inl author ↦ rw author (rw (==→eq a cmd.node_id author) (rw found (ground arith)))
  ])

  pub my_cell-marked : (a : ℕ) → my_cell marked a ≡ my_cell c a
  unfolding my_cell my_row
  my_cell-marked a = rw offset-modify (
      rw find-modify (elim (Bool-cases (c.my_id == cmd.node_id)) [
        | inr other ↦ rw other refl
        | inl author ↦ rw author (rw (==→eq c.my_id cmd.node_id author) (rw found refl))
      ]))

  marked-IsRunning : IsRunning c → IsRunning marked
  marked-IsRunning r = record {
    sound =
        Carries-IsSound c marked
          (record {
            square = modify-IsSquare cmd.node_id with_next c.nodes (λ n. refl) r.sound.square;
            in_range = r.sound.in_range;
            grows = λ b k h. h;
            cells = λ a. omega (arith, my_cell-marked a);
            execs = λ a. inr (exec_of-marked a);
          })
          r.sound;
    mine = HasNode-modify cmd.node_id c.my_id with_next c.nodes r.mine;
  }

-- The number of the command that is marked leaves room for an increment.
mark_as_executed-IsRunning :
    (c : Core) (cmd : Msg)
    → cmd.msg_number + 1 < u64
    → IsRunning c
    → IsRunning (mark_as_executed c cmd)
unfolding mark_as_executed
mark_as_executed-IsRunning c cmd room r = elim (Option-cases (find cmd.node_id c.nodes)) [
  | inl unknown ↦ rw (unknown, mark_as_executed) r
  | inr (n, found) ↦
      rw (found, mark_as_executed)
        (elim (Bool-cases (n.command_to_exec == cmd.msg_number)) [
          | inr other ↦ rw other r
          | inl next ↦ rw next (marked-IsRunning c cmd n room found next r)
        ])
]

-- One round of the loop
pub execute-IsRunning :
    (env : Env) (c : Core) (cmd : Msg)
    → cmd.msg_number + 1 < u64
    → Room c
    → IsRunning c
    → IsRunning (execute env c cmd)
unfolding execute exec
execute-IsRunning env c cmd small room r = same-IsRunning _ _ refl refl refl (
    mark_as_executed-IsRunning (exec env c cmd) cmd small
      (exec_value-IsRunning env c cmd.node_id cmd.value room r))
