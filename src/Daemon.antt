-- ===== src/Daemon.antt =====
-- class Daemon of daemon.h and daemon.cpp: what arrives by UDP, which connection the server thread
-- gets, and how the two sides of a connection begin. Sockets, the polling loop and the threads are
-- not modelled but for where the server thread stands when it is notified; TCPheloNB is in Helo, the
-- sessions are in Session.
pub mod Serving
pub mod Roles
use distadm.Prelude.{
  ℕ, ◌+◌, Bool, true, false, not, Option, none, some, List, [], ◌∷◌, ◌++◌, ◌==◌, ◌&&◌, ◌||◌, ◌≡◌,
  if◌then◌else◌,
}
use distadm.Core.{Core, NodeStatus, need_initialize}
use distadm.Core.Commands.{node_alive, del_self}
use distadm.Core.Packets.{check_msg_cnt, node_known, update_node_hash}
use distadm.Net.{CoreNet, TcpHeloMsg, add_node, del_addr}

-- Where the thread of Daemon::server_main_loop stands: in `wait`, in server_act, or behind server_act
-- and not yet in `wait`
pub data Phase : Type 0 where
  waiting acting returning : Phase

pub record Daemon : Type 0 where
  pub net : CoreNet
  pub server_busy : Bool
  pub pass_server_fd : ℕ
  pub pass_server_fname : ℕ
  pub serv_helo : TcpHeloMsg
  pub server : Phase
  -- `closefile`, the last one first
  pub closed : List ℕ
  -- How often the client thread was notified
  pub client_notified : ℕ

-- UDPmessage_v1::Command, and a value that is none of them
pub data Command : Type 0 where
  helo bye not_initialized other : Command

pub record UdpMessage : Type 0 where
  pub message : Command
  pub counter : ℕ
  -- `group_id` is that of this node.
  pub same_group : Bool
  pub node_id : ℕ
  pub node_hash : ℕ

abbrev pub with_net : (CoreNet → CoreNet) → Daemon → Daemon
with_net f d = record d { net = f d.net }

abbrev counted : ℕ → ℕ → CoreNet → CoreNet
counted id counter n = record n { core = (check_msg_cnt n.core id counter).0 }

-- `client.cv.notify_one()`
abbrev notify_client : Daemon → Daemon
notify_client d = record d { client_notified = d.client_notified + 1 }

abbrev announced : UdpMessage → ℕ → Bool → Daemon → Daemon
announced msg ad initialized d =
    notify_client (with_net (λ n. add_node n msg.node_id ad msg.node_hash initialized) d)

-- The switch of Daemon::recv_udp_v1, where "not_initialized" goes on into "helo"
unfoldable pub on_command : Command → UdpMessage → ℕ → Daemon → Daemon
unfolding need_initialize add_node del_addr
on_command Command.not_initialized msg ad d =
    if need_initialize d.net.core then d else announced msg ad false d
on_command Command.helo msg ad d = announced msg ad true d
on_command Command.bye msg ad d = with_net (λ n. del_addr n ad) d
on_command Command.other msg ad d = d

-- Daemon::recv_udp_v1
unfoldable pub recv_udp_v1 : UdpMessage → ℕ → Daemon → Daemon
unfolding check_msg_cnt on_command
recv_udp_v1 msg ad d =
    if not msg.same_group || msg.node_id == d.net.core.my_id
    then d
    else on_command msg.message msg ad (with_net (counted msg.node_id msg.counter) d)

-- `server.cv.notify_one()`: a thread that does not wait misses it.
abbrev pub notified : Phase → Phase
notified Phase.waiting = Phase.acting
notified phase = phase

abbrev accepted : TcpHeloMsg → ℕ → ℕ → Daemon → Daemon
accepted p_in ad fd d = record (with_net (counted p_in.node_id p_in.msg_cnt) d) {
  server_busy = true;
  pass_server_fd = fd;
  pass_server_fname = ad;
  serv_helo = p_in;
  server = notified d.server;
}

-- Daemon::serve: the state, and whether the connection is taken. `weak` says that the exchange of
-- server_busy fails although it is free, which compare_exchange_weak may do.
unfoldable pub serve : Bool → TcpHeloMsg → ℕ → ℕ → Daemon → Daemon × Bool
unfolding add_node check_msg_cnt
serve weak p_in ad fd d =
    let told = with_net (λ n. add_node n p_in.node_id ad p_in.node_hash p_in.helo_initialized) d in
    if d.server_busy || weak
    then (notify_client (record told { closed = fd ∷ d.closed }), false)
    else (accepted p_in ad fd told, true)

-- The end of Daemon::server_act, where `working` says that `prog_status` is still "work"
unfoldable pub end_act : Bool → Daemon → Daemon
end_act working d = record d {
  server_busy = if working then false else d.server_busy;
  server = Phase.returning;
}

-- The way back into `wait` in Daemon::server_main_loop
unfoldable pub wait : Daemon → Daemon
wait d = record d { server = Phase.waiting }

-- What happens to the server side, in any order: a connection is there, server_act ends, the thread
-- waits again. A wait does not end by itself, and the daemon is not started anew.
pub data Turn : Daemon → Daemon → Type 0 where
  connects :
      (d : Daemon) (weak : Bool) (p_in : TcpHeloMsg) (ad fd : ℕ)
      → Turn d (serve weak p_in ad fd d).0
  ends : (d : Daemon) (working : Bool) → d.server ≡ Phase.acting → Turn d (end_act working d)
  waits_again : (d : Daemon) → d.server ≡ Phase.returning → Turn d (wait d)

pub data Turns : Daemon → Daemon → Type 0 where
  stays : (d : Daemon) → Turns d d
  moves : (d d' d'' : Daemon) → Turn d d' → Turns d' d'' → Turns d d''

-- How a connection goes on behind the hello
pub data Next : Type 0 where
  fails reads_initializer writes_initializer deletes_self unknown_node talks : Next

abbrev pub is_deleting : NodeStatus → Bool
is_deleting NodeStatus.deleting = true
is_deleting status = false

-- Daemon::client_act and Daemon::server_act behind the hello, with TCPsession_v1::initialize: what the
-- node does next. `they_say` is the answer of xchg_bool, whether the other node has this one alive.
unfoldable pub begin_session : Core → ℕ → ℕ → Bool → Bool → Next
unfolding need_initialize node_known
begin_session c remote_id version remote_initialized they_say =
    if not (version == 1)
    then Next.fails
    else if need_initialize c
    then (if remote_initialized then Next.reads_initializer else Next.fails)
    else if not remote_initialized
    then Next.writes_initializer
    else if not they_say && is_deleting c.status
    then Next.deletes_self
    else if not (node_known c remote_id)
    then Next.unknown_node
    else Next.talks
