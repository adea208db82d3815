-- ===== src/Core/Invite.antt =====
-- How a node becomes a member of a group: Core::create_group, the invitations and the initializers
-- of core.cpp. The matrix of an initializer is the words that are sent, its JSON values are as they are
-- parsed. Random ids are a list of draws, and `none` for an id means that the draws ran out or that the
-- other side broke off. The files that an initializer brings are skipped as tokens of Stream; what a
-- new node stores of them is not modelled.
use distadm.Prelude.{
  map, ℕ, zero, suc, length, String, Bool, true, false, not, Option, none, some, List, [], ◌∷◌,
  ◌++◌, ◌==◌, if◌then◌else◌,
}
use distadm.Matrix.{Node, Matrix, find, create, modify}
use distadm.Matrix.Keys.{has}
use distadm.Matrix.Wire.{Word, read_vld, write_vld, ◌>>=◌}
use distadm.Matrix.Resize.{resize}
use distadm.Messages.{Body, Msg, read_msg}
use distadm.Stream.{Token, skip_file}
use distadm.Usernames.{Usernames, replace, clear}
use distadm.Core.{Core, NodeStatus, NodeInfo, DeadNode, Executed, protocol_version, max_proto_ver}
use distadm.Core.Commands.{Env}
use distadm.Core.Create.{create_command}
use distadm.Core.Packets.{pending_commands}
use distadm.Core.Remove.{is_inviter}
use distadm.Core.Trailer.{read_trailer_uuids}

abbrev pub first_row : ℕ → Node → Node
first_row hash n = record n {
  matrix_row = n.matrix_row ++ 0 ∷ [];
  hash = hash;
  proto_ver = protocol_version;
}

-- Core::create_group with the drawn id, its hash, and what check_no_file answers
unfoldable pub create_group : ℕ → ℕ → Bool → Core → Core × Bool
unfolding create modify
create_group draw hash no_file c =
    let member : Core = record c {
      my_id = draw;
      nodes = modify draw (first_row hash) (create draw c.nodes);
      has_my_node = true;
    } in
    if no_file
    then (record member { status = NodeStatus.work; valid_node = true }, true)
    else (member, false)

-- What write_initializer_v1 sends
pub record Initializer : Type 0 where
  pub from_id : ℕ
  pub mtx : List Word
  pub state_nodes : List (ℕ × NodeInfo)
  pub log : List DeadNode
  pub execs : List Executed
  pub messages : List Msg
  pub users : Usernames
  pub filenames : List String

-- Core::write_initializer_v1
unfoldable pub write_initializer_v1 : Core → Initializer
unfolding write_vld
write_initializer_v1 c = record {
  from_id = c.my_id;
  mtx = write_vld c.nodes;
  state_nodes = c.state_nodes;
  log = c.log;
  execs = c.execs;
  messages = c.messages;
  users = c.users;
  filenames = c.filenames;
}

-- The end of Core::read_initializer_v1, with the messages as Core::read_messages builds them
unfoldable pub take_over : Initializer → Matrix → Core → Core
unfolding replace read_msg
take_over sent mtx c =
    let (users', done) = replace c.users sent.users in
    record c {
      state_nodes = sent.state_nodes;
      log = sent.log;
      execs = sent.execs;
      nodes = mtx;
      messages = map read_msg sent.messages;
      users = users';
      filenames = sent.filenames;
      effects = c.effects ++ done;
    }

-- Core::read_initializer_v1, whose result is `from_id`; `none` is the exception on a bad stream.
unfoldable pub read_initializer_v1 : Initializer → Core → Option Core
unfolding read_vld take_over
read_initializer_v1 sent c = elim (read_vld sent.mtx) [
  | none ↦ none
  | some (mtx, rest) ↦ some (take_over sent mtx c)
]

-- `while (nodes.find(my_id) != nodes.end()) my_id.random(rnd)`: the id, and the draws that are left
unfoldable pub unused_id : List ℕ → ℕ → Matrix → Option (ℕ × List ℕ)
unused_id [] id m = elim (find id m) [ none ↦ some (id, []) | some n ↦ none ]
unused_id (draw ∷ draws) id m =
    let redrawn = unused_id draws draw m in
    elim (find id m) [ none ↦ some (id, draw ∷ draws) | some n ↦ redrawn ]

-- The loop of Core::read_net_initializer: the other side says to each id whether it is free there.
unfoldable pub agree_id : List Bool → List ℕ → ℕ → Matrix → Option ℕ
unfolding unused_id
agree_id [] draws id m = none
agree_id (ok ∷ oks) draws id m = elim (unused_id draws id m) [
  | none ↦ none
  | some (id', draws') ↦ let later = agree_id oks draws' id' m in if ok then some id' else later
]

-- `if (!my_id) my_id.random(rnd)`
unfoldable pub first_id : List ℕ → ℕ → ℕ × List ℕ
first_id [] id = (id, [])
first_id (draw ∷ draws) id = if id == 0 then (draw, draws) else (id, draw ∷ draws)

-- Both initializations end so; `none` is the exception "Bad invite".
unfoldable pub join_as : ℕ → ℕ → Core → Option Core
join_as id from_id c = elim (find from_id c.nodes) [
  | none ↦ none
  | some p ↦
      some (record c { my_id = id; nodes = resize c.nodes id (some p) (max_proto_ver c.nodes) })
]

abbrev pub as_member : Core → Core
as_member c = record c { status = NodeStatus.work; has_my_node = true }

-- Core::read_net_initializer after the initializer is read
unfoldable pub join_net : List Bool → List ℕ → ℕ → ℕ → Core → Option Core
unfolding agree_id join_as
join_net oks draws id from_id c = elim (agree_id oks draws id c.nodes) [
  | none ↦ none
  | some id' ↦ elim (join_as id' from_id c) [ none ↦ none | some c' ↦ some (as_member c') ]
]

-- Core::read_net_initializer
unfoldable pub read_net_initializer : List Bool → List ℕ → Initializer → Core → Option Core
unfolding read_initializer_v1 first_id join_net
read_net_initializer oks draws sent c =
    let (id, draws') = first_id draws c.my_id in
    elim (read_initializer_v1 sent c) [
      | none ↦ none
      | some c' ↦ join_net oks draws' id sent.from_id c'
    ]

-- The loop of Core::read_offline_invite: an id that neither the group nor the trailer has
unfoldable pub offline_id : List ℕ → List ℕ → Matrix → Option ℕ
offline_id [] uuids m = none
offline_id (draw ∷ draws) uuids m =
    let later = offline_id draws uuids m in
    elim (find draw m) [ some n ↦ later | none ↦ if has draw uuids then later else some draw ]

-- Core::read_offline_invite after the initializer is read: the state, and the ids of the trailer that is
-- written back
unfoldable pub join_offline : List ℕ → ℕ → List ℕ → Core → Option (Core × List ℕ)
unfolding offline_id join_as
join_offline draws from_id uuids c = elim (offline_id draws uuids c.nodes) [
  | none ↦ none
  | some id ↦ elim (join_as id from_id (record c { status = NodeStatus.part_init })) [
    | none ↦ none
    | some c' ↦ some (c', uuids ++ id ∷ [])
  ]
]

-- `trl`: nothing follows the initializer when no node was initialized yet.
unfoldable pub trailer_of : ℕ → List Word → Option (List ℕ × List ℕ)
unfolding read_trailer_uuids
trailer_of size s = if size == 0 then some ([], []) else read_trailer_uuids size s

-- Core::read_offline_invite, where `size` bytes with the words `s` follow the initializer
unfoldable pub read_offline_invite :
    List ℕ → Initializer → ℕ → List Word → Core → Option (Core × List ℕ)
unfolding read_initializer_v1 trailer_of join_offline
read_offline_invite draws sent size s c = do
  c' ← read_initializer_v1 sent c
  (nonce, uuids) ← trailer_of size s
  join_offline draws sent.from_id uuids c'

-- Core::read_online_invite, but for the keys and the directory of the files
unfoldable pub read_online_invite : Core → Core
unfolding clear
read_online_invite c =
    let (users', done) = clear c.users in
    record c {
      my_id = 0;
      status = NodeStatus.uninitialized;
      state_nodes = [];
      log = [];
      execs = [];
      nodes = [];
      messages = [];
      users = users';
      filenames = [];
      effects = c.effects ++ done;
    }

-- How Core::finalize_offline_invitation ends
pub data Finalized : Type 0 where
  returns : Core → Finalized
  throws : String → Finalized
  out_of_fuel : Finalized

-- `nodes.find(id) != nodes.end()` for one of the ids
unfoldable pub any_known : List ℕ → Matrix → Bool
any_known [] m = false
any_known (id ∷ uuids) m =
    let rest = any_known uuids m in elim (find id m) [ none ↦ rest | some n ↦ true ]

-- The loop that makes a command for each new node
unfoldable pub add_invited : List ℕ → Core → Core
unfolding create_command
add_invited [] c = c
add_invited (id ∷ uuids) c = add_invited uuids (create_command c (Body.addnode id) false)

-- The end of Core::finalize_offline_invitation
unfoldable pub invited : Option Core → Finalized
invited none = Finalized.out_of_fuel
invited (some c) = Finalized.returns (record c { status = NodeStatus.work })

-- The ids of the trailer become commands, unless one of them is in use.
unfoldable pub add_trailer : ℕ → ℕ → Env → (ℕ → ℕ → ℕ) → Option (List ℕ × List ℕ) → Core → Finalized
unfolding any_known add_invited invited pending_commands
add_trailer rounds fuel env rolls none c = Finalized.throws "Damaged file"
add_trailer rounds fuel env rolls (some (nonce, uuids)) c =
    if any_known uuids c.nodes
    then Finalized.throws "UUID collision"
    else invited (pending_commands rounds fuel env rolls (add_invited uuids c))

-- The loop of `f.skip_file()`, where `skips` is the fuel of each call
unfoldable pub skip_files : ℕ → ℕ → List Token → Option (List Token)
unfolding skip_file
skip_files skips zero files = some files
skip_files skips (suc n) files = do rest ← skip_file skips files; skip_files skips n rest

-- What Core::finalize_offline_invitation reads and skips of the initializer: the matrix and the files
unfoldable pub skip_initializer : ℕ → Initializer → List Token → Option (List Token)
unfolding read_vld skip_files
skip_initializer skips sent files = do
  (mtx, rest) ← read_vld sent.mtx
  skip_files skips (length sent.filenames) files

-- Core::finalize_offline_invitation: whether the file is that of this invitation, the initializer and the
-- files in it, and the `size` bytes with the words `s` that follow. An exception of the stream counts
-- as "Damaged file".
unfoldable pub finalize_offline_invitation :
    ℕ
    → ℕ
    → ℕ
    → Env
    → (ℕ → ℕ → ℕ)
    → Bool
    → Initializer
    → List Token
    → ℕ
    → List Word
    → Core
    → Finalized
unfolding read_trailer_uuids add_trailer skip_initializer
finalize_offline_invitation skips rounds fuel env rolls same_invite sent files size s c =
    if not (is_inviter c.status)
    then Finalized.returns c
    else if not same_invite
    then Finalized.throws "Wrong file"
    else elim (skip_initializer skips sent files) [
      | none ↦ Finalized.throws "Damaged file"
      | some rest ↦
          if size == 0
          then Finalized.returns (record c { status = NodeStatus.work })
          else add_trailer rounds fuel env rolls (read_trailer_uuids size s) c
    ]
