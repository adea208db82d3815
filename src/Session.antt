-- ===== src/Session.antt =====
-- struct TCPsession_v1 of daemon.h and daemon.cpp: two nodes that are connected ask each other for the
-- messages that they lack. The connection carries the words of a matrix and parsed messages; the
-- contents of a file that follow a message are read by Core::after_read, which leaves the state as it
-- is, and whether that succeeds is a parameter. No other thread changes the two nodes meanwhile.
pub mod Taking
pub mod Merged
pub mod Pull
pub mod Learns
pub mod Knows
pub mod Agrees
use distadm.Prelude.{
  ℕ, zero, suc, Bool, true, false, not, Option, none, some, List, ◌==◌, ◌&&◌, if◌then◌else◌,
}
use distadm.Matrix.{Matrix, find}
use distadm.Matrix.Wire.{Word, read, write}
use distadm.Messages.{Msg, read_msg}
use distadm.Core.{Core}
use distadm.Core.Receive.{add_cmd, find_command}
use distadm.Core.Packets.{update_matrix}
use distadm.Net.{CoreNet, request_message_from_node}

-- How a part of a session ends: as it should, by an exception, or not within the fuel. What the node
-- has by then stays.
pub data Ended : Type 0 where
  finished broken : CoreNet → Ended
  out_of_fuel : Ended

abbrev pub with_core : (Core → Core) → CoreNet → CoreNet
with_core f c = record c { core = f c.core }

-- The answer of TCPsession_v1::server_main to one request; `none` is the exception "Requested command
-- not found".
unfoldable pub answer : CoreNet → ℕ → ℕ → Option Msg
unfolding find_command
answer server id number = find_command server.core id number

-- TCPsession_v1::client_main behind a request, from the answer on: `none` is an exception.
unfoldable pub take_answer : (Msg → Bool) → ℕ → ℕ → Msg → CoreNet → Option CoreNet
unfolding read_msg add_cmd
take_answer file_arrives id number sent c =
    let m = read_msg sent in
    if m.node_id == id && m.msg_number == number && file_arrives m
    then some (with_core (λ d. add_cmd d m) c)
    else none

-- The loop of TCPsession_v1::client_main against that of server_main
unfoldable pub client_rounds : ℕ → (Msg → Bool) → CoreNet → ℕ → CoreNet → Ended
unfolding request_message_from_node answer take_answer
client_rounds zero file_arrives server remote_id c = Ended.out_of_fuel
client_rounds (suc fuel) file_arrives server remote_id c = elim c.core.exits [
  | true ↦ Ended.finished c
  | false ↦ elim (request_message_from_node c remote_id) [
    | none ↦ Ended.finished c
    | some (id, number) ↦ elim (answer server id number) [
      | none ↦ Ended.broken c
      | some m ↦ elim (take_answer file_arrives id number m c) [
        | none ↦ Ended.broken c
        | some c' ↦ client_rounds fuel file_arrives server remote_id c'
      ]
    ]
  ]
]

-- TCPsession_v1::client_main against server_main, which sends its matrix first
unfoldable pub client_main : ℕ → (Msg → Bool) → CoreNet → ℕ → CoreNet → Ended
unfolding read write update_matrix client_rounds
client_main fuel file_arrives server remote_id c = elim (read (write server.core.nodes)) [
  | none ↦ Ended.broken c
  | some (m, rest) ↦
      client_rounds fuel file_arrives server remote_id (with_core (λ d. update_matrix d m) c)
]

-- How a session of two nodes ends
pub data Meeting : Type 0 where
  agreed parted : CoreNet → CoreNet → Meeting
  unfinished : Meeting

-- The last part: the node that connected asks once more.
unfoldable pub ask_again : ℕ → (Msg → Bool) → CoreNet → CoreNet → Meeting
unfolding client_main
ask_again fuel file_arrives c s = elim (client_main fuel file_arrives s s.core.my_id c) [
  | Ended.finished c' ↦ Meeting.agreed c' s
  | Ended.broken c' ↦ Meeting.parted c' s
  | Ended.out_of_fuel ↦ Meeting.unfinished
]

-- The part before it: the other node asks.
unfoldable pub ask_back : ℕ → ℕ → (Msg → Bool) → CoreNet → CoreNet → Meeting
unfolding client_main ask_again
ask_back fuel further file_arrives c s = elim (client_main fuel file_arrives c c.core.my_id s) [
  | Ended.finished s' ↦ ask_again further file_arrives c s'
  | Ended.broken s' ↦ Meeting.parted c s'
  | Ended.out_of_fuel ↦ Meeting.unfinished
]

-- A session of two nodes that know each other, as Daemon::client_act and Daemon::server_act hold it:
-- client_main, server_main, client_main on the side of `c`, which has connected, and server_main,
-- client_main, server_main on the side of `s`. When one side fails, the connection ends.
unfoldable pub session : ℕ → ℕ → ℕ → (Msg → Bool) → CoreNet → CoreNet → Meeting
unfolding client_main ask_back
session first second third file_arrives c s =
    elim (client_main first file_arrives s s.core.my_id c) [
      | Ended.finished c' ↦ ask_back second third file_arrives c' s
      | Ended.broken c' ↦ Meeting.parted c' s
      | Ended.out_of_fuel ↦ Meeting.unfinished
    ]
