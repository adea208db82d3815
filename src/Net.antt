-- ===== src/Net.antt =====
-- class CoreNet of corenet.h and corenet.cpp: which node has which address, which address to call, and
-- which message to ask for. A pointer to a node is the id of the node; sockets are not modelled.
pub mod Requests
pub mod Addresses
use distadm.Prelude.{
  ℕ, zero, suc, ◌+◌, ◌%◌, Bool, true, false, not, Option, none, some, List, [], ◌∷◌, length,
  get_elem?, ltb, ◌==◌, ◌&&◌, ◌||◌, if◌then◌else◌,
}
use distadm.Matrix.{Node, Intersting, Matrix, ids, find, modify}
use distadm.Messages.{inc64}
use distadm.Core.{Core, my_row, max_proto_ver, need_initialize}
use distadm.Core.Packets as Packets

pub record CoreNet : Type 0 where
  pub core : Core
  -- The address of a node, and the node if it is known
  pub ips : List (ℕ × Option ℕ)
  pub downloading_msgs : List (ℕ × ℕ)

-- `ips[ad] = p`; the order of the addresses is that of their numbers.
unfoldable pub set_ip : ℕ → Option ℕ → List (ℕ × Option ℕ) → List (ℕ × Option ℕ)
set_ip ad p [] = (ad, p) ∷ []
set_ip ad p ((x, q) ∷ l) =
    let rest = set_ip ad p l in
    if x == ad then (x, p) ∷ l else if ltb ad x then (ad, p) ∷ (x, q) ∷ l else (x, q) ∷ rest

abbrev told : ℕ → Bool → Node → Node
told hash initialized n = record n { hash = hash; initialized = initialized }

-- CoreNet::add_node
unfoldable pub add_node : CoreNet → ℕ → ℕ → ℕ → Bool → CoreNet
unfolding set_ip
add_node c id ad hash initialized = elim (find id c.core.nodes) [
  | some n ↦
      let nodes' = modify id (told hash initialized) c.core.nodes in
      record c { core = record c.core { nodes = nodes' }; ips = set_ip ad (some id) c.ips }
  | none ↦ record c { ips = set_ip ad none c.ips }
]

unfoldable pub erase_ip : ℕ → List (ℕ × Option ℕ) → List (ℕ × Option ℕ)
erase_ip ad [] = []
erase_ip ad ((x, q) ∷ l) = let rest = erase_ip ad l in if x == ad then l else (x, q) ∷ rest

-- CoreNet::del_addr
unfoldable pub del_addr : CoreNet → ℕ → CoreNet
unfolding erase_ip
del_addr c ad = record c { ips = erase_ip ad c.ips }

-- `==` of two rows
unfoldable same_row : List ℕ → List ℕ → Bool
same_row [] [] = true
same_row [] (y ∷ ys) = false
same_row (x ∷ xs) [] = false
same_row (x ∷ xs) (y ∷ ys) = x == y && same_row xs ys

abbrev hash_of : Option Node → ℕ
hash_of none = 0
hash_of (some n) = n.hash

-- CoreNet::need_communicate
unfoldable need_communicate : Core → Node → Bool
unfolding same_row my_row
need_communicate c n =
    let my_hash = hash_of (find c.my_id c.nodes) in
    c.has_my_node
    && (not (same_row n.matrix_row (my_row c)) || (not (n.hash == 0) && not (n.hash == my_hash)))

-- The first loop of CoreNet::addr_to_connect
unfoldable reset_interesting : Bool → ℕ → Matrix → Matrix
reset_interesting server_busy conn_id [] = []
reset_interesting server_busy conn_id ((id, n) ∷ m) =
    (
      id,
      record n {
        interesting = if server_busy && id == conn_id then Intersting.no else Intersting.unknown;
      },
    )
    ∷ reset_interesting server_busy conn_id m

abbrev is_unknown : Intersting → Bool
is_unknown Intersting.unknown = true
is_unknown interesting = false

abbrev is_yes : Intersting → Bool
is_yes Intersting.yes = true
is_yes interesting = false

-- `interesting` of a node behind the tests of the second loop
unfoldable judge : Core → Node → Intersting
unfolding need_communicate need_initialize
judge c n =
    if not (is_unknown n.interesting)
    then n.interesting
    else if need_initialize c && not n.initialized
    then Intersting.no
    else if need_communicate c n
    then Intersting.yes
    else Intersting.no

-- The second loop: the addresses, and the matrix with what is decided of each node. An address of a
-- node that is gone is passed over.
unfoldable collect : Core → List (ℕ × Option ℕ) → Matrix → List ℕ × Matrix
unfolding judge
collect c [] nodes = ([], nodes)
collect c ((ad, none) ∷ l) nodes = let (addrs, nodes') = collect c l nodes in (ad ∷ addrs, nodes')
collect c ((ad, some id) ∷ l) nodes = elim (find id nodes) [
  | none ↦ collect c l nodes
  | some n ↦
      let verdict = judge (record c { nodes = nodes }) n in
      let (addrs, nodes') =
        collect c l (modify id (λ x. record x { interesting = verdict }) nodes) in
      (if is_yes verdict then ad ∷ addrs else addrs, nodes')
]

-- CoreNet::addr_to_connect with the draw `roll`; `none` is IN6ad::none().
unfoldable addr_to_connect : CoreNet → Bool → ℕ → ℕ → CoreNet × Option ℕ
unfolding reset_interesting collect
addr_to_connect c server_busy conn_id roll =
    let (addrs, nodes') =
      collect c.core c.ips (reset_interesting server_busy conn_id c.core.nodes) in
    (record c { core = record c.core { nodes = nodes' } }, get_elem? addrs (roll % length addrs))

pub record TcpHeloMsg : Type 0 where
  pub node_id : ℕ
  pub node_hash : ℕ
  pub msg_cnt : ℕ
  pub version : ℕ
  pub helo_initialized : Bool

abbrev count_of : Option Node → ℕ
count_of none = 0
count_of (some n) = n.netmsgcnt

-- CoreNet::get_tcp_helo: the message, and the state with the counter moved on
unfoldable get_tcp_helo : CoreNet → TcpHeloMsg × CoreNet
unfolding max_proto_ver need_initialize inc64
get_tcp_helo c =
    let mine = find c.core.my_id c.core.nodes in
    let nodes' =
      modify c.core.my_id (λ n. record n { netmsgcnt = inc64 n.netmsgcnt }) c.core.nodes in
    (
      record {
        node_id = c.core.my_id;
        node_hash = hash_of mine;
        msg_cnt = count_of mine;
        version = max_proto_ver c.core.nodes;
        helo_initialized = not (need_initialize c.core);
      },
      record c { core = record c.core { nodes = nodes' } },
    )

-- `downloading_msgs.contains`
unfoldable pub downloading : ℕ → ℕ → List (ℕ × ℕ) → Bool
downloading id number [] = false
downloading id number ((x, k) ∷ l) = (x == id && k == number) || downloading id number l

-- The loop over j of CoreNet::request_message_from_node: `uuids`, the row of the node and mine
unfoldable pub first_request : List (ℕ × ℕ) → List ℕ → List ℕ → List ℕ → Option (ℕ × ℕ)
unfolding downloading
first_request busy (id ∷ uuids) (theirs ∷ row) (mine ∷ my_row) =
    let further = first_request busy uuids row my_row in
    if ltb mine theirs && not (downloading id mine busy) then some (id, mine) else further
first_request busy uuids row my_row = none

-- CoreNet::request_message_from_node; an empty MsgRequest is `none`.
unfoldable pub request_message_from_node : CoreNet → ℕ → Option (ℕ × ℕ)
unfolding first_request my_row
request_message_from_node c remote_node = elim (find remote_node c.core.nodes) [
  | none ↦ none
  | some n ↦
      if c.core.has_my_node
      then first_request c.downloading_msgs (ids c.core.nodes) n.matrix_row (my_row c.core)
      else none
]

unfoldable pub points_to : ℕ → Option ℕ → Bool
points_to id none = false
points_to id (some x) = x == id

unfoldable pub erase_pointers : ℕ → List (ℕ × Option ℕ) → List (ℕ × Option ℕ)
unfolding points_to
erase_pointers id [] = []
erase_pointers id ((ad, p) ∷ l) =
    let rest = erase_pointers id l in if points_to id p then rest else (ad, p) ∷ rest

-- CoreNet::delnoderecord
unfoldable pub delnoderecord : CoreNet → ℕ → CoreNet
unfolding erase_pointers Packets.delnoderecord
delnoderecord c id = elim (find id c.core.nodes) [
  | some n ↦ record c { ips = erase_pointers id c.ips; core = Packets.delnoderecord c.core id }
  | none ↦ record c { core = Packets.delnoderecord c.core id }
]
