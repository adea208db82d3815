-- ===== src/Core/Rounds.antt =====
-- What one round of Core::execute_pending_commands leaves to do.
use text.Mathlib.Text.{◌==◌ as str_eq}
use distadm.Prelude.{
  ℕ, ◌+◌, ◌≤◌, ◌≡◌, refl, subst, ap, ◌∙◌, String, Bool, true, false, not, none, some, List, [], ◌∷◌,
  ◌++◌, ◌==◌, ◌||◌, if◌then◌else◌, arith, Bool-cases, Option-cases, inl, inr,
}
use distadm.Matrix.{Node, find, node_offset}
use distadm.Matrix.Resize.{resize}
use distadm.Messages.{Body, Msg, inc64, insert_msg}
use distadm.Usernames.{Effect}
use distadm.Core.{Core, is_active, my_row, set_my_cell, exec_of, my_cell}
use distadm.Core.Create.{new_msg, add_own, create_command}
use distadm.Core.Commands.{
  Env, exec_addnode, exec_delnode, exec_exec, exec_value, exec_executed, exec_delexec, exec_adduser,
  exec_deluser, join_params,
}
use distadm.Core.Changes.{exec_of-resize, HasNode-resize, HasNode-modify}
use distadm.Core.Gaps.{Kept}
use distadm.Core.Own.{create_command-Kept, create_command-cell, same_cell}
use distadm.Core.Running.{IsRunning, same-IsRunning, resize-cell}
use distadm.Core.Weights.{
  extra, is_record, NoRecords, weight, Holds, weight-le, weight-insert_msg, NoRecords-insert_msg,
  Holds-insert_msg,
}

-- What the execution of a command leaves, where `more` is the weight that it adds
pub record Leaves (more : ℕ) (c c' : Core) : Type 0 where
  pub same_id : c'.my_id ≡ c.my_id
  pub execs : (a : ℕ) → exec_of (find a c'.nodes) ≡ exec_of (find a c.nodes)
  pub known :
      (a : ℕ) → (n : Node) × (find a c.nodes ≡ some n) → (n : Node) × (find a c'.nodes ≡ some n)
  pub weighs : weight c'.nodes c'.messages ≤ weight c.nodes c.messages + more
  pub records : NoRecords c.messages → NoRecords c'.messages
  pub holds : (m : Msg) → Holds m c.messages → Holds m c'.messages
  pub cell : my_cell c' c.my_id ≤ my_cell c c.my_id + more

same-Leaves :
    (c c' : Core)
    → c'.nodes ≡ c.nodes
    → c'.messages ≡ c.messages
    → c'.my_id ≡ c.my_id
    → Leaves 0 c c'
same-Leaves c c' same_nodes same_messages same_id = record {
  same_id = same_id;
  execs = λ a. rw same_nodes refl;
  known = λ a h. rw same_nodes h;
  weighs = rw same_nodes (rw same_messages (omega arith));
  records = λ h. rw same_messages h;
  holds = λ m h. rw same_messages h;
  cell = omega (arith, same_cell c c' same_nodes same_id);
}

resize-Leaves :
    (c : Core) (id pv : ℕ)
    → find id c.nodes ≡ none
    → IsRunning c
    → Leaves 0 c (record c { nodes = resize c.nodes id none pv })
resize-Leaves c id pv fresh r =
    let execs = λ (a : ℕ). exec_of-resize c.nodes id none pv a r.sound.square fresh in
    record {
      same_id = refl;
      execs = execs;
      known = λ a h. HasNode-resize c.nodes id none pv a r.sound.square h;
      weighs = omega (
        arith,
        weight-le c.nodes (resize c.nodes id none pv) c.messages (λ a. omega (arith, execs a)),
      );
      records = λ h. h;
      holds = λ m h. h;
      cell = omega (arith, resize-cell c id pv c.my_id fresh r);
    }

if-Leaves :
    (n : ℕ) (b : Bool) (c x y : Core)
    → Leaves n c x
    → Leaves n c y
    → Leaves n c (if b then x else y)
if-Leaves n true c x y p q = p
if-Leaves n false c x y p q = q

exec_addnode-Leaves : (c : Core) (id : ℕ) → IsRunning c → Leaves 0 c (exec_addnode c id)
unfolding exec_addnode
exec_addnode-Leaves c id r = elim (Option-cases (find id c.nodes)) [
  | inl fresh ↦ rw (fresh, exec_addnode) (resize-Leaves c id _ fresh r)
  | inr (n, known) ↦
      rw (known, exec_addnode)
        (if-Leaves 0 (not (id == c.my_id)) c _ _ (same-Leaves c c refl refl refl) (
          if-Leaves 0 (not c.valid_node) c _ _ (same-Leaves c _ refl refl refl)
            (same-Leaves c _ refl refl refl)))
]

-- A message is added, and nothing that counts as executed changes.
added-Leaves :
    (c c' : Core) (body : Body) (m : Msg)
    → Kept c c'
    → ((a : ℕ) → (n : Node) × (find a c.nodes ≡ some n) → (n : Node) × (find a c'.nodes ≡ some n))
    → c'.messages ≡ insert_msg m c.messages
    → m.value ≡ body
    → extra body ≡ 0
    → is_record body ≡ false
    → my_cell c' c.my_id ≤ my_cell c c.my_id + 1
    → Leaves 1 c c'
added-Leaves c c' body m k known added value light plain cell =
    let fewer =
      weight-le c.nodes c'.nodes (insert_msg m c.messages) (λ a. omega (arith, k.execs a)) in
    let more = weight-insert_msg c.nodes m c.messages in
    let one : extra m.value ≡ 0 = ap extra value ∙ light in
    record {
      same_id = k.same_id;
      execs = k.execs;
      known = known;
      weighs = rw added (omega (arith, fewer, more, one));
      records = λ h. rw added (NoRecords-insert_msg m c.messages (ap is_record value ∙ plain) h);
      holds = λ y h. rw added (Holds-insert_msg y m c.messages h);
      cell = cell;
    }

weak-Leaves : (c c' : Core) → Leaves 0 c c' → Leaves 1 c c'
weak-Leaves c c' x = record {
  same_id = x.same_id;
  execs = x.execs;
  known = x.known;
  weighs = omega (arith, x.weighs);
  records = x.records;
  holds = x.holds;
  cell = omega (arith, x.cell);
}

abbrev own_added : Core → ℕ → Body → Core
own_added c i body =
    let cmd = new_msg c i body true in
    record (set_my_cell i (inc64 cmd.msg_number) c) {
      messages = insert_msg cmd c.messages;
      need_save = true;
    }

create_command-Leaves :
    (c : Core) (body : Body)
    → extra body ≡ 0
    → is_record body ≡ false
    → IsRunning c
    → Leaves 1 c (create_command c body true)
unfolding create_command add_own set_my_cell
create_command-Leaves c body light plain r =
    let k = create_command-Kept c body true in
    let cell = create_command-cell c body true r in
    elim (Bool-cases (is_active c.status)) [
      | inr passive ↦ rw passive (weak-Leaves c c (same-Leaves c c refl refl refl))
      | inl active ↦ rw active (elim (Option-cases (node_offset c.nodes c.my_id)) [
        | inl absent ↦ rw (absent, add_own) (weak-Leaves c c (same-Leaves c c refl refl refl))
        | inr (i, at_i) ↦
            let here : create_command c body true ≡ own_added c i body =
              rw active (rw (at_i, add_own) refl) in
            rw (at_i, add_own)
              (added-Leaves c (own_added c i body) body (new_msg c i body true)
                (subst (Kept c) here k) (λ a h. HasNode-modify c.my_id a _ c.nodes h) refl refl
                light plain (subst (λ x. my_cell x c.my_id ≤ my_cell c c.my_id + 1) here cell))
      ])
    ]

exec_exec-Leaves :
    (env : Env) (c : Core) (params : List String)
    → IsRunning c
    → Leaves 1 c (exec_exec env c params)
unfolding exec_exec my_cell my_row
exec_exec-Leaves env c params r =
    let str = join_params "" params in
    let ran : Core = record c {
      effects = c.effects ++ Effect.runs ("sh" ∷ "-c" ∷ str ∷ []) ∷ [];
    } in
    elim (Option-cases (env.run_shell str)) [
      | inl failed ↦ rw (failed, exec_exec) (weak-Leaves c ran (same-Leaves c ran refl refl refl))
      | inr (out, done) ↦
          let x =
            create_command-Leaves ran (Body.executed str env.now out) refl refl
              (same-IsRunning c ran refl refl refl r) in
          rw (done, exec_exec)
            (record {
              same_id = x.same_id;
              execs = x.execs;
              known = x.known;
              weighs = x.weighs;
              records = x.records;
              holds = x.holds;
              cell = x.cell;
            })
    ]

pub exec_value-Leaves :
    (env : Env) (c : Core) (author : ℕ) (value : Body)
    → is_record value ≡ false
    → IsRunning c
    → Leaves (extra value) c (exec_value env c author value)
unfolding exec_value exec_delnode exec_delexec exec_adduser exec_deluser exec_executed
exec_value-Leaves env c author Body.bad_message h r = same-Leaves c c refl refl refl
exec_value-Leaves env c author (Body.addnode id) h r = exec_addnode-Leaves c id r
exec_value-Leaves env c author (Body.sethostname name) h r = same-Leaves c _ refl refl refl
exec_value-Leaves env c author (Body.delnode id force) h r =
    if-Leaves 0 (id == 0 || not (id == c.my_id)) c _ _ (same-Leaves c c refl refl refl)
      (same-Leaves c _ refl refl refl)
exec_value-Leaves env c author (Body.delnoderecord id) h r = absurd cc
exec_value-Leaves env c author (Body.addfile filename range) h r = same-Leaves c _ refl refl refl
exec_value-Leaves env c author (Body.delfile filename) h r = same-Leaves c c refl refl refl
exec_value-Leaves env c author (Body.deldir dirname) h r = same-Leaves c c refl refl refl
exec_value-Leaves env c author (Body.online date) h r = same-Leaves c _ refl refl refl
exec_value-Leaves env c author (Body.exec params) h r = exec_exec-Leaves env c params r
exec_value-Leaves env c author (Body.executed str date output) h r = same-Leaves c _ refl refl refl
exec_value-Leaves env c author (Body.delexec filter) h r =
    if-Leaves 0 (str_eq filter "") c _ _ (same-Leaves c _ refl refl refl)
      (same-Leaves c _ refl refl refl)
exec_value-Leaves env c author Body.dellog h r = same-Leaves c _ refl refl refl
exec_value-Leaves env c author (Body.antivirus updated scanned found) h r =
    same-Leaves c _ refl refl refl
exec_value-Leaves env c author (Body.adduser line) h r = same-Leaves c _ refl refl refl
exec_value-Leaves env c author (Body.deluser nick) h r = same-Leaves c _ refl refl refl
exec_value-Leaves env c author (Body.smart ok) h r = same-Leaves c _ refl refl refl
exec_value-Leaves env c author (Body.unknown name) h r = same-Leaves c c refl refl refl
