-- ===== src/Core/Ends.antt =====
-- Core::execute_pending_commands ends.
use distadm.Prelude.{
  ℕ, zero, suc, ◌+◌, ◌≤◌, ◌<◌, ◌≡◌, refl, sym, subst, ap, ◌∙◌, Bool, true, false, some, List, [],
  ◌∷◌, All, get_elem?, filterb, ◌==◌, arith, Bool-cases, Option-cases, ==_refl, inl, inr,
}
use distadm.Matrix.{Node, find}
use distadm.Messages.{Msg, u64, inc64}
use distadm.Core.{Core, exec_of, my_cell}
use distadm.Core.Commands.{Env, exec}
use distadm.Core.Execute.{
  can_exec, candidates, command_to_exec, mark_as_executed, execute, execute_pending_commands,
}
use distadm.Core.Ready.{IsReady, command_to_exec-IsReady, command_to_exec-none}
use distadm.Core.Rows.{find-modify}
use distadm.Core.Running.{IsRunning}
use distadm.Core.Own.{same_cell}
use distadm.Core.Executing.{marked, exec_of-marked, my_cell-marked, execute-IsRunning}
use distadm.Core.Cleaning.{filterb-InRange}
use distadm.Core.Run.{get_elem?-InRange}
use distadm.Core.Weights.{extra, extra-le, is_record, NoRecords, weight, Holds, weight-passed}
use distadm.Core.Rounds.{Leaves, exec_value-Leaves}

first_or_later :
    (test : Msg → Bool) (x : Msg) (ms : List Msg) (i : ℕ) (m : Msg)
    → ((j : ℕ) → get_elem? (filterb test ms) j ≡ some m → Holds m ms)
    → get_elem? (x ∷ filterb test ms) i ≡ some m
    → Holds m (x ∷ ms)
first_or_later test x ms zero m ih h = inl cc
first_or_later test x ms (suc i) m ih h = inr (ih i h)

get_elem?-Holds :
    (test : Msg → Bool) (ms : List Msg) (i : ℕ) (m : Msg)
    → get_elem? (filterb test ms) i ≡ some m
    → Holds m ms
get_elem?-Holds test [] i m h = absurd cc
get_elem?-Holds test (x ∷ ms) i m h = elim (Bool-cases (test x)) [
  | inr goes ↦ inr (get_elem?-Holds test ms i m (rw (goes, filterb) at h))
  | inl stays ↦
      first_or_later test x ms i m (λ j. get_elem?-Holds test ms j m) (rw (stays, filterb) at h)
]

Holds-NoRecords : (m : Msg) (ms : List Msg) → Holds m ms → NoRecords ms → is_record m.value ≡ false
Holds-NoRecords m [] h r = absurd h
Holds-NoRecords m (x ∷ ms) h r = elim h [
  | inl here ↦ ap (λ y. is_record y.value) (sym here) ∙ r.0
  | inr there ↦ Holds-NoRecords m ms there r.1
]

-- A round takes weight away, and gives no more of it to my own numbers.
record Round (c c' : Core) : Type 0 where
  pub lighter : weight c'.nodes c'.messages + 1 ≤ weight c.nodes c.messages
  pub records : NoRecords c'.messages
  pub cell :
      my_cell c' c'.my_id + weight c'.nodes c'.messages
      ≤ my_cell c c.my_id + weight c.nodes c.messages

module _ (c : Core) (cmd : Msg) (n : Node) (small : cmd.msg_number + 1 < u64)
    (found : find cmd.node_id c.nodes ≡ some n)
    (next : (n.command_to_exec == cmd.msg_number) ≡ true) where
  mark-marked : mark_as_executed c cmd ≡ marked c cmd n small found next
  unfolding mark_as_executed
  mark-marked = rw (found, mark_as_executed) (rw next refl)

  exec_of-author :
      cmd.msg_number + 1 ≤ exec_of (find cmd.node_id (marked c cmd n small found next).nodes)
  unfolding inc64
  exec_of-author = rw find-modify (rw (==_refl cmd.node_id) (rw found (ground arith)))

module _ (env : Env) (c : Core) (cmd : Msg) (r : IsRunning c) (plain : NoRecords c.messages)
    (held : Holds cmd c.messages) (ready : IsReady c.nodes cmd)
    (small : cmd.msg_number + 1 < u64) where
  abbrev ran : Core
  ran = exec env c cmd

  ran-Leaves : Leaves (extra cmd.value) c ran
  unfolding exec
  ran-Leaves =
      exec_value-Leaves env c cmd.node_id cmd.value (Holds-NoRecords cmd c.messages held plain) r

  author_known : (n : Node) × (find cmd.node_id ran.nodes ≡ some n)
  author_known = ran-Leaves.known cmd.node_id (ready.author.0, ready.author.1)

  author_next : (author_known.0.command_to_exec == cmd.msg_number) ≡ true
  author_next =
      let same : author_known.0.command_to_exec ≡ cmd.msg_number =
        sym (ap exec_of author_known.1)
        ∙ ran-Leaves.execs cmd.node_id
        ∙ ap exec_of ready.author.1
        ∙ ready.author.2 in
      rw same (==_refl cmd.msg_number)

  abbrev done : Core
  done = record (marked ran cmd author_known.0 small author_known.1 author_next) {
    need_save = true;
  }

  done-Round : Round c done
  done-Round =
      let x = ran-Leaves in
      let m = marked ran cmd author_known.0 small author_known.1 author_next in
      let before : exec_of (find cmd.node_id ran.nodes) ≤ cmd.msg_number =
        omega (arith, x.execs cmd.node_id, ap exec_of ready.author.1, ready.author.2) in
      let passed =
        weight-passed ran.nodes m.nodes cmd ran.messages (x.holds cmd held)
          (exec_of-marked ran cmd author_known.0 small author_known.1 author_next) before
          (exec_of-author ran cmd author_known.0 small author_known.1 author_next) in
      let moved : my_cell done ran.my_id ≡ my_cell ran ran.my_id =
        same_cell m done refl refl
        ∙ my_cell-marked ran cmd author_known.0 small author_known.1 author_next ran.my_id in
      let mine : my_cell ran ran.my_id ≤ my_cell c c.my_id + extra cmd.value =
        subst (λ id. my_cell ran id ≤ my_cell c c.my_id + extra cmd.value) (sym x.same_id) x.cell in
      record {
        lighter = omega (arith, passed, x.weighs);
        records = x.records plain;
        cell = omega (arith, passed, x.weighs, moved, mine, extra-le cmd.value);
      }

  abbrev flagged : Core → Core
  flagged y = record y { need_save = true }

  execute-Round : Round c (execute env c cmd)
  unfolding execute
  execute-Round =
      subst (Round c)
        (ap (λ (y : Core). flagged y)
          (sym (mark-marked ran cmd author_known.0 small author_known.1 author_next)))
        done-Round

chosen_held :
    (c : Core) (roll : ℕ) (cmd : Msg) → command_to_exec c roll ≡ some cmd → Holds cmd c.messages
unfolding command_to_exec candidates
chosen_held c roll cmd h = get_elem?-Holds (can_exec c.nodes) c.messages _ cmd h

chosen_small :
    (c : Core) (roll : ℕ) (cmd : Msg)
    → IsRunning c
    → command_to_exec c roll ≡ some cmd
    → cmd.msg_number + 1 < u64
unfolding command_to_exec candidates
chosen_small c roll cmd r h =
    get_elem?-InRange (candidates c) _ cmd
      (filterb-InRange (can_exec c.nodes) c.messages r.sound.in_range) h

-- Nothing is left that can be executed.
abbrev pub Idle : Core → Type 0
Idle c = All (λ m. can_exec c.nodes m ≡ false) c.messages

-- The loop over the pending commands ends, on any draws: with more fuel than the weight of the
-- messages (two for each shell command that is not executed, one for each other command) it returns,
-- then no message is left that can be executed, and the node is still running. No message removes a
-- node's record, and my numbers leave room for the weight.
pub execute_pending_commands-Idle :
    (fuel : ℕ) (env : Env) (rolls : ℕ → ℕ) (i : ℕ) (c : Core)
    → IsRunning c
    → NoRecords c.messages
    → weight c.nodes c.messages < fuel
    → my_cell c c.my_id + weight c.nodes c.messages + 1 < u64
    → (c' : Core) × (again : Bool) × (execute_pending_commands fuel env rolls i c
        ≡ some (c', again))
      × Idle c'
      × IsRunning c'
unfolding execute_pending_commands
execute_pending_commands-Idle zero env rolls i c r plain f room = absurd (omega (arith, f))
execute_pending_commands-Idle (suc fuel) env rolls i c r plain f room =
    elim (Option-cases (command_to_exec c (rolls i))) [
      | inl nothing ↦ (
        c,
        false,
        rw (nothing, execute_pending_commands) refl,
        command_to_exec-none c (rolls i) nothing,
        r,
      )
      | inr (cmd, chosen) ↦
          let ready = (command_to_exec-IsReady c (rolls i) cmd chosen).0 in
          let held = chosen_held c (rolls i) cmd chosen in
          let small = chosen_small c (rolls i) cmd r chosen in
          let round = execute-Round env c cmd r plain held ready small in
          let (c', again, same, idle, running) =
            execute_pending_commands-Idle fuel env rolls (suc i) (execute env c cmd)
              (execute-IsRunning env c cmd small (omega (arith, room)) r) round.records
              (omega (arith, round.lighter, f)) (omega (arith, round.cell, room)) in
          (c', true, rw (chosen, execute_pending_commands) (rw same refl), idle, running)
    ]
