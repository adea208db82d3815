-- ===== src/Interactive.antt =====
-- incm.cpp: the interactive commands, one function for each. What they write to the stream is a list of
-- pieces; a translation, the text of a UUID, the file system and /etc/shadow are parameters.
pub mod Segments
pub mod Pieces
pub mod Queue
pub mod Behind
pub mod Queued
pub mod Listings
pub mod Table
pub mod Dispatch
pub mod Members
pub mod Keeps
pub mod Completion
use text.Mathlib.Text.{◌==◌ as str_eq}
use distadm.Prelude.{
  ℕ, String, Bool, true, false, not, Option, none, some, List, [], ◌∷◌, ◌++◌, ◌==◌, ◌&&◌,
  if◌then◌else◌,
}
use distadm.Matrix.{Node, Matrix}
use distadm.Messages.{Body}
use distadm.Core.{Core, NodeStatus, NodeInfo, Antivirus, DeadNode, Executed}
use distadm.Core.Create.{create_command}
use distadm.Core.Commands.{Env, info, nodename}
use distadm.Core.Packets.{nodebyname}

-- One `os << x`
pub data Piece : Type 0 where
  written : String → Piece
  numeral : ℕ → Piece

pub record Shell : Type 0 where
  pub env : Env
  -- gettext
  pub translate : String → String
  -- UUID::UUID(const string&)
  pub parse : String → ℕ
  -- `cfg.files_granularity`; -1UL is `none`.
  pub files_granularity : Option ℕ
  -- The path of the words of "addfile", relative to the directory of files
  pub rel_fn : List String → String
  -- std::filesystem::file_size, which throws for `none`
  pub file_size : String → Option ℕ
  -- What find_pwd_line finds in /etc/shadow
  pub find_pwd_line : String → String

-- What a command leaves: the state, its output, and what it throws.
pub record Outcome : Type 0 where
  pub core : Core
  pub out : List Piece
  pub thrown : Option String

abbrev pub says : Core → List Piece → Outcome
says c out = record { core = c; out = out; thrown = none }

abbrev pub translated : Shell → String → List Piece
translated sh s = written (sh.translate s) ∷ []

-- The keys of `distadm_statuses_str`
unfoldable pub status_string : NodeStatus → String
status_string NodeStatus.uninitialized = "uninitialized"
status_string NodeStatus.part_init = "partially initialized"
status_string NodeStatus.work = "work"
status_string NodeStatus.inviter = "inviter"
status_string NodeStatus.deleting = "deleting"
status_string NodeStatus.deleted = "deleted"

-- `distadm_statuses`, by the loop of std::map::find
unfoldable pub status_of : String → Option NodeStatus
status_of s =
    if str_eq s "uninitialized"
    then some NodeStatus.uninitialized
    else if str_eq s "partially initialized"
    then some NodeStatus.part_init
    else if str_eq s "work"
    then some NodeStatus.work
    else if str_eq s "inviter"
    then some NodeStatus.inviter
    else if str_eq s "deleting"
    then some NodeStatus.deleting
    else if str_eq s "deleted"
    then some NodeStatus.deleted
    else none

unfoldable pub incm_status : Core → Outcome
unfolding status_string
incm_status c = says c (written (status_string c.status) ∷ [])

abbrev pub is_force : List String → Bool
is_force [] = false
is_force (word ∷ words) = str_eq word "force"

-- Core::incm_delnode behind its first guard: the words after the name of the command
unfoldable pub delnode_by : Shell → Core → String → List String → Outcome
unfolding nodebyname create_command
delnode_by sh c name rest =
    let id = nodebyname sh.parse c name in
    let c' = create_command c (Body.delnode id false) true in
    let c'' = create_command c' (Body.delnoderecord id) true in
    let queued =
      translated sh "Node queued to delete" ++ written ": " ∷ written (sh.env.uuid_text id) ∷ [] in
    if id == 0
    then says c (translated sh "Node not found")
    else if is_force rest && not (id == c.my_id)
    then says c'' queued
    else says c' queued

unfoldable pub incm_delnode : Shell → Core → List String → Outcome
unfolding delnode_by
incm_delnode sh c (cmd ∷ name ∷ rest) = delnode_by sh c name rest
incm_delnode sh c param = says c (translated sh "Node not specified")

unfoldable pub incm_delfile : Shell → Core → List String → Outcome
unfolding create_command
incm_delfile sh c (cmd ∷ name ∷ rest) =
    says (create_command c (Body.delfile name) true) (translated sh "File queued to delete")
incm_delfile sh c param = says c []

unfoldable pub incm_deldir : Shell → Core → List String → Outcome
unfolding create_command
incm_deldir sh c (cmd ∷ name ∷ rest) =
    says (create_command c (Body.deldir name) true) (translated sh "Directory queued to delete")
incm_deldir sh c param = says c []

abbrev words_after : List String → List String
words_after [] = []
words_after (cmd ∷ words) = words

unfoldable pub incm_exec : Shell → Core → List String → Outcome
unfolding create_command
incm_exec sh c param =
    says (create_command c (Body.exec (words_after param)) true)
      (translated sh "Command queued to execute" ++ written "\n" ∷ [])

-- A filter that is not there reads as "".
unfoldable pub incm_delexec : Shell → Core → List String → Outcome
unfolding create_command
incm_delexec sh c (cmd ∷ filter ∷ rest) =
    says (create_command c (Body.delexec filter) true) (translated sh "Results are cleared")
incm_delexec sh c param =
    says (create_command c (Body.delexec "") true) (translated sh "Results are cleared")

unfoldable pub incm_dellog : Shell → Core → Outcome
unfolding create_command
incm_dellog sh c = says (create_command c Body.dellog true) (translated sh "Log is cleared")

unfoldable pub incm_adduser : Shell → Core → List String → Outcome
unfolding create_command
incm_adduser sh c (cmd ∷ name ∷ rest) =
    let pwd = sh.find_pwd_line name in
    if str_eq pwd ""
    then says c []
    else says (create_command c (Body.adduser pwd) true) (translated sh "User added")
incm_adduser sh c param = says c []

unfoldable pub incm_deluser : Shell → Core → List String → Outcome
unfolding create_command
incm_deluser sh c (cmd ∷ name ∷ rest) =
    says (create_command c (Body.deluser name) true) (translated sh "User queued to delete")
incm_deluser sh c param = says c []
