-- ===== src/Core/Commands.antt =====
-- commands.cpp: what a command does when it is executed. What the program takes from outside is a
-- parameter: the output of a shell command if it succeeds, the time as text and the text of a UUID.
use Prim.Native.String.{◌++◌ as str_append}
use text.Mathlib.Text.{◌==◌ as str_eq}
use distadm.Prelude.{
  ℕ, String, Bool, true, false, not, Option, none, some, List, [], ◌∷◌, ◌++◌, ◌==◌, ◌||◌,
  if◌then◌else◌,
}
use distadm.Matrix.{find, del}
use distadm.Matrix.Resize.{resize}
use distadm.Messages.{Body, Msg}
use distadm.Usernames
use distadm.Usernames.{Effect}
use distadm.Core.{Core, NodeStatus, NodeInfo, Antivirus, no_info, DeadNode, Executed, max_proto_ver}
use distadm.Core.Create.{create_command}

pub record Env : Type 0 where
  pub run_shell : String → Option String
  pub now : String
  pub uuid_text : ℕ → String

-- state_nodes[string(id)], and an assignment to it
unfoldable pub info : ℕ → List (ℕ × NodeInfo) → NodeInfo
info id [] = no_info
info id ((j, i) ∷ l) = if j == id then i else info id l

unfoldable pub set_info : ℕ → (NodeInfo → NodeInfo) → List (ℕ × NodeInfo) → List (ℕ × NodeInfo)
set_info id f [] = (id, f no_info) ∷ []
set_info id f ((j, i) ∷ l) =
    let rest = set_info id f l in if j == id then (j, f i) ∷ l else (j, i) ∷ rest

abbrev pub with_info : ℕ → (NodeInfo → NodeInfo) → Core → Core
with_info id f c = record c { state_nodes = set_info id f c.state_nodes }

-- Core::nodename
unfoldable pub nodename : Env → Core → ℕ → String
unfolding info
nodename env c id =
    let name = (info id c.state_nodes).hostname in if str_eq name "" then env.uuid_text id else name

-- Core::node_alive
unfoldable is_dead : ℕ → List DeadNode → Bool
is_dead id [] = false
is_dead id (r ∷ log) = r.deaduuid == id || is_dead id log

unfoldable pub node_alive : Core → ℕ → Bool
unfolding is_dead
node_alive c id = not (is_dead id c.log)

-- Core::save; the file system is not modelled
unfoldable pub save : Bool → Core → Core
save force c =
    if c.need_save || force
    then record c { need_save = false; effects = c.effects ++ Effect.saves ∷ [] }
    else c

-- Core::del_self; `notify` wakes the daemon
unfoldable pub del_self : Core → Core
unfolding save
del_self c = save false (record c { status = NodeStatus.deleted; exits = true })

unfoldable pub exec_addnode : Core → ℕ → Core
exec_addnode c id = elim (find id c.nodes) [
  | none ↦ record c { nodes = resize c.nodes id none (max_proto_ver c.nodes) }
  | some n ↦
      if not (id == c.my_id)
      then c
      else if not c.valid_node
      then record c { valid_node = true }
      else record c { status = NodeStatus.uninitialized }
]

unfoldable pub exec_delnode : Core → ℕ → Core
exec_delnode c id =
    if id == 0 || not (id == c.my_id) then c else record c { status = NodeStatus.deleting }

unfoldable pub exec_delnoderecord : Env → Core → ℕ → Core
unfolding nodename node_alive del_self
exec_delnoderecord env c id =
    let name = nodename env c id in
    let c' = if id == c.my_id then del_self c else record c { nodes = del c.nodes id } in
    let logged = record c' { log = c'.log ++ record { name = name; deaduuid = id } ∷ [] } in
    if id == 0 then c else if node_alive c' id then logged else c'

-- std::set<string>::insert; the order of the names is not modelled
unfoldable insert_name : String → List String → List String
insert_name name [] = name ∷ []
insert_name name (x ∷ xs) = if str_eq x name then x ∷ xs else x ∷ insert_name name xs

-- The parts of a shell command, joined by spaces
unfoldable pub join_params : String → List String → String
join_params str [] = str
join_params str (p ∷ ps) =
    join_params (str_append (if str_eq str "" then str else str_append str " ") p) ps

unfoldable pub exec_exec : Env → Core → List String → Core
unfolding join_params
exec_exec env c params =
    let str = join_params "" params in
    let ran = record c { effects = c.effects ++ Effect.runs ("sh" ∷ "-c" ∷ str ∷ []) ∷ [] } in
    elim (env.run_shell str) [
      | none ↦ ran
      | some out ↦ create_command ran (Body.executed str env.now out) true
    ]

unfoldable pub exec_executed : Core → ℕ → String → String → String → Core
exec_executed c author cmd date output = record c {
  execs = c.execs ++ record { cmd = cmd; uuid = author; date = date; output = output } ∷ [];
}

-- The loop of exec_delexec that removes what the filter names
unfoldable remove_execs : String → List Executed → List Executed
remove_execs filter [] = []
remove_execs filter (e ∷ es) =
    let rest = remove_execs filter es in if str_eq e.cmd filter then rest else e ∷ rest

unfoldable pub exec_delexec : Core → String → Core
unfolding remove_execs
exec_delexec c filter =
    if str_eq filter ""
    then record c { execs = [] }
    else record c { execs = remove_execs filter c.execs }

unfoldable pub exec_adduser : Core → String → Core
exec_adduser c line =
    let (users', run) = Usernames.add c.users line in
    record c { users = users'; effects = c.effects ++ run }

unfoldable pub exec_deluser : Core → String → Core
exec_deluser c nick =
    let (users', run) = Usernames.del c.users nick in
    record c { users = users'; effects = c.effects ++ run }

-- The table `cmd_ints`, and the assignments to `state_nodes` of the short executors
unfoldable pub exec_value : Env → Core → ℕ → Body → Core
unfolding exec_addnode exec_delnode exec_delnoderecord exec_exec exec_executed exec_delexec
    exec_adduser exec_deluser insert_name set_info
exec_value env c author Body.bad_message = c
exec_value env c author (Body.addnode id) = exec_addnode c id
exec_value env c author (Body.sethostname name) =
    with_info author (λ i. record i { hostname = name }) c
exec_value env c author (Body.delnode id force) = exec_delnode c id
exec_value env c author (Body.delnoderecord id) = exec_delnoderecord env c id
exec_value env c author (Body.addfile filename range) = record c {
  filenames = insert_name filename c.filenames;
}
exec_value env c author (Body.delfile filename) = c
exec_value env c author (Body.deldir dirname) = c
exec_value env c author (Body.online date) = with_info author (λ i. record i { online = date }) c
exec_value env c author (Body.exec params) = exec_exec env c params
exec_value env c author (Body.executed str date output) = exec_executed c author str date output
exec_value env c author (Body.delexec filter) = exec_delexec c filter
exec_value env c author Body.dellog = record c { log = [] }
exec_value env c author (Body.antivirus updated scanned found) =
    let av : Antivirus = record { updated = updated; scanned = scanned; found = found } in
    with_info author (λ i. record i { antivirus = some av }) c
exec_value env c author (Body.adduser line) = exec_adduser c line
exec_value env c author (Body.deluser nick) = exec_deluser c nick
exec_value env c author (Body.smart ok) = with_info author (λ i. record i { smart = some ok }) c
exec_value env c author (Body.unknown name) = c

-- Core::exec
unfoldable pub exec : Env → Core → Msg → Core
unfolding exec_value
exec env c cmd = exec_value env c cmd.node_id cmd.value
