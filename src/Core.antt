-- ===== src/Core.antt =====
-- class Core of core.h: the state of a node. The methods are in the modules below.
pub mod Create
pub mod Receive
pub mod Counting
pub mod Rows
pub mod Pending
pub mod Commands
pub mod Execute
pub mod Ready
pub mod Remove
pub mod Levels
pub mod Removed
pub mod Check
pub mod Gaps
pub mod Repair
pub mod Changes
pub mod Running
pub mod Own
pub mod Executing
pub mod Cleaning
pub mod Merging
pub mod Run
pub mod Weights
pub mod Rounds
pub mod Ends
pub mod Trailer
pub mod Invite
pub mod Joining
pub mod Initialized
pub mod Finalizing
pub mod Packets
pub mod Info
pub mod Once
pub mod Replies
use distadm.Prelude.{
  ℕ, String, Bool, true, false, Option, none, some, List, [], ◌∷◌, min, get_or, set, ltb, ◌==◌,
  ◌||◌, if◌then◌else◌,
}
use distadm.Matrix.{Node, Matrix, find, node_offset, modify}
use distadm.Messages.{Msg}
use distadm.Usernames.{Usernames, Effect}

pub data NodeStatus : Type 0 where
  uninitialized part_init work inviter deleting deleted : NodeStatus

-- The value under "antivirus"
pub record Antivirus : Type 0 where
  pub updated : String
  pub scanned : String
  pub found : Bool

-- What `state_nodes` holds of a node; a JSON value that is null is `none`, or "" for a text.
pub record NodeInfo : Type 0 where
  pub hostname : String
  pub online : String
  pub antivirus : Option Antivirus
  pub smart : Option Bool

abbrev pub no_info : NodeInfo
no_info = record { hostname = ""; online = ""; antivirus = none; smart = none }

-- An element of `state["log"]` of type "deadnode": the name and the id
pub record DeadNode : Type 0 where
  pub name : String
  pub deaduuid : ℕ

-- An element of `state["exec"]`
pub record Executed : Type 0 where
  pub cmd : String
  pub uuid : ℕ
  pub date : String
  pub output : String

pub record Core : Type 0 where
  pub my_id : ℕ
  -- `my_node` points to the entry of `my_id`, or is null.
  pub has_my_node : Bool
  pub status : NodeStatus
  pub valid_node : Bool
  pub need_save : Bool
  -- `prog_status == ProgramStatus::exit`
  pub exits : Bool
  pub nodes : Matrix
  pub messages : List Msg
  pub state_nodes : List (ℕ × NodeInfo)
  pub log : List DeadNode
  pub execs : List Executed
  pub filenames : List String
  pub users : Usernames
  pub effects : List Effect

-- `protocol_version`
abbrev pub protocol_version : ℕ
protocol_version = 1

-- Core::max_proto_ver
unfoldable pub max_proto_ver : Matrix → ℕ
max_proto_ver [] = protocol_version
max_proto_ver ((id, n) ∷ m) = min n.proto_ver (max_proto_ver m)

-- `status != NodeStatus::work && status != NodeStatus::inviter` is the negation of this.
abbrev pub is_active : NodeStatus → Bool
is_active NodeStatus.work = true
is_active NodeStatus.inviter = true
is_active status = false

-- CoreBase::need_initialize
unfoldable pub need_initialize : Core → Bool
need_initialize c = elim c.status [
  | NodeStatus.uninitialized ↦ true
  | NodeStatus.part_init ↦ true
  | _ ↦ false
]

-- The row that `my_node` points to
abbrev row_of : Option Node → List ℕ
row_of none = []
row_of (some n) = n.matrix_row

unfoldable pub my_row : Core → List ℕ
my_row c = row_of (find c.my_id c.nodes)

-- An assignment to `my_node->matrix_row[i]`
unfoldable pub set_my_cell : ℕ → ℕ → Core → Core
set_my_cell i x c = record c {
  nodes = modify c.my_id (λ n. record n { matrix_row = set n.matrix_row i x }) c.nodes;
}

-- `command_to_exec` of an author, where the author is known
abbrev pub exec_of : Option Node → ℕ
exec_of none = 0
exec_of (some n) = n.command_to_exec

-- `my_node->matrix_row[nodes.node_offset(a)]`
abbrev pub cell_or : List ℕ → Option ℕ → ℕ
cell_or row none = 0
cell_or row (some i) = get_or row i 0

unfoldable pub my_cell : Core → ℕ → ℕ
unfolding my_row
my_cell c a = cell_or (my_row c) (node_offset c.nodes a)
