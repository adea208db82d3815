-- ===== src/Examples.antt =====
-- The theorems at concrete inputs: a group of two nodes, 1 and 2, that a third one joins.
mod Matrices
mod Cores
mod Commands
mod Runs
mod Joins
mod Meets
mod Daemons
mod Typed
mod Streams
mod Ciphers
mod Configs
mod Lines
mod Accounts
mod Nets
use distadm.Prelude.{ℕ, String, true, false, none, List, [], ◌∷◌, ◌≡◌, refl, ◌≤◌, arith}
use distadm.Matrix.{Node, Matrix, Intersting}
use distadm.Matrix.Shape.{Ascends, IsSquare}
use distadm.Messages.{Body, Msg}
use distadm.Usernames.{Usernames}
use distadm.Core.{Core, NodeStatus}

abbrev pub node : List ℕ → ℕ → Node
node row next = record {
  matrix_row = row;
  hash = 0;
  netmsgcnt = 5;
  command_to_exec = next;
  proto_ver = 1;
  initialized = true;
  interesting = Intersting.yes;
}

abbrev pub pair : Matrix
pair = (1, node (3 ∷ 1 ∷ []) 2) ∷ (2, node (2 ∷ 4 ∷ []) 1) ∷ []

-- What another pair, of which node 2 is no member, knows
abbrev pub other_pair : Matrix
other_pair = (1, node (6 ∷ 2 ∷ []) 0) ∷ (3, node (5 ∷ 9 ∷ []) 0) ∷ []

pub pair-IsSquare : IsSquare pair
pair-IsSquare = record { ordered = (omega arith, (omega arith, tt)); rows = (refl, (refl, tt)) }

pub other_pair-IsSquare : IsSquare other_pair
other_pair-IsSquare = record {
  ordered = (omega arith, (omega arith, tt));
  rows = (refl, (refl, tt));
}

abbrev pub msg : ℕ → ℕ → Body → Msg
msg author number body = record {
  node_id = author;
  msg_number = number;
  value = body;
  depends = [];
}

-- Node 1 has not executed its own last command, which it holds.
abbrev pub core : List Msg → Core
core messages = record {
  my_id = 1;
  has_my_node = true;
  status = NodeStatus.work;
  valid_node = true;
  need_save = false;
  exits = false;
  nodes = pair;
  messages = messages;
  state_nodes = [];
  log = [];
  execs = [];
  filenames = [];
  users = record { users = []; nicks_filled = true };
  effects = [];
}

abbrev pub waiting : List Msg
waiting = msg 1 2 Body.dellog ∷ []
