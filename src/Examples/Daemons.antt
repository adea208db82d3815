-- ===== src/Examples/Daemons.antt =====
-- The daemon of node 1 of the pair: connections that come while it serves, and behind that.
use distadm.Prelude.{◌&&◌, ◌==◌, refl, ℕ, ◌≡◌, refl, true, false, not, [], ◌∷◌}
use distadm.Core.{Core, NodeStatus, need_initialize}
use distadm.Core.Commands.{node_alive}
use distadm.Net.{TcpHeloMsg}
use distadm.Daemon.{Next, Phase, Daemon, Turn, Turns, serve, wait, begin_session}
use distadm.Matrix.{find}
use distadm.Core.Packets.{node_known}
use distadm.Daemon.Roles.{
  is_writing, is_reading, is_talking, is_leaving, side, is_at_home, begin_session-side,
}
use distadm.Daemon.Serving.{serve-acting, serve-returning}
use distadm.Examples.{core, waiting}
use distadm.Examples.Meets.{net, second_core}

abbrev newcomer : Core
newcomer = record (core []) { my_id = 3; status = NodeStatus.uninitialized }

begin_session-side_example :
    (is_writing (side 1 (core waiting) second_core)
      ≡ is_reading (side 1 second_core (core waiting)))
    × ((is_talking (side 1 (core waiting) second_core)
          && is_talking (side 1 second_core (core waiting)))
        ≡ (1 == 1
            && (not (need_initialize (core waiting)) && not (need_initialize second_core))
            && (node_known (core waiting) second_core.my_id
                && node_known second_core (core waiting).my_id)
            && (is_at_home (core waiting) second_core && is_at_home second_core (core waiting))))
    × (is_leaving (side 1 (core waiting) second_core) ≡ (
        1 == 1
        && (not (need_initialize (core waiting)) && not (need_initialize second_core))
        && not (is_at_home (core waiting) second_core)))
begin_session-side_example = begin_session-side 1 (core waiting) second_core

-- Two nodes of the group talk, and a new one is sent the initializer.
test_talks : side 1 (core waiting) second_core ≡ Next.talks
unfolding begin_session need_initialize node_alive node_known find
test_talks = refl

test_writes : side 1 second_core newcomer ≡ Next.writes_initializer
unfolding begin_session need_initialize
test_writes = refl

abbrev hello : ℕ → TcpHeloMsg
hello id = record { node_id = id; node_hash = 0; msg_cnt = 9; version = 1; helo_initialized = true }

abbrev server : Phase → Daemon
server phase = record {
  net = net (core waiting);
  server_busy = false;
  pass_server_fd = 0;
  pass_server_fname = 0;
  serv_helo = hello 0;
  server = phase;
  closed = [];
  client_notified = 0;
}

abbrev serving : Daemon
serving = (serve false (hello 2) 20 7 (server Phase.waiting)).0

serving_acts : serving.server ≡ Phase.acting
unfolding serve
serving_acts = refl

serve-acting_example :
    ((serve false (hello 5) 21 8 serving).1 ≡ false)
    × ((serve false (hello 5) 21 8 serving).0.pass_server_fd ≡ serving.pass_server_fd)
    × ((serve false (hello 5) 21 8 serving).0.serv_helo ≡ serving.serv_helo)
    × ((serve false (hello 5) 21 8 serving).0.server ≡ Phase.acting)
    × ((serve false (hello 5) 21 8 serving).0.closed ≡ 8 ∷ serving.closed)
serve-acting_example =
    serve-acting (server Phase.waiting) serving false (hello 5) 21 8 refl
      (Turns.moves _ serving _ (Turn.connects _ false (hello 2) 20 7) (Turns.stays serving))
      serving_acts

abbrev lost : Daemon
lost = (serve false (hello 2) 20 7 (server Phase.returning)).0

lost_returns : lost.server ≡ Phase.returning
unfolding serve
lost_returns = refl

serve-returning_example :
    ((serve false (hello 2) 20 7 (server Phase.returning)).1 ≡ true)
    × ((serve false (hello 5) 21 8 (wait lost)).1 ≡ false)
serve-returning_example =
    serve-returning (server Phase.returning) (wait lost) (hello 2) 20 7 false (hello 5) 21 8 refl
      refl
      (Turns.moves _ (wait lost) _ (Turn.waits_again lost lost_returns) (Turns.stays (wait lost)))
