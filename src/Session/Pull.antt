-- ===== src/Session/Pull.antt =====
-- The loop of TCPsession_v1::client_main: each answer brings the node nearer to what the other has.
use distadm.Prelude.{
  ℕ, zero, suc, ◌+◌, ◌≤◌, ◌<◌, ◌≡◌, ◌≢◌, refl, sym, ap, ◌∙◌, subst, Bool, true, false, none, some,
  [], get_elem?, get_or, ltb, ◌==◌, ◌&&◌, arith, Bool-cases, Option-cases, ==_refl, inl, inr,
  ltb→lt, ltb-false, ==→eq,
}
use distadm.Matrix.{Node, ids, find, node_offset}
use distadm.Messages.{Msg, u64, has_msg, read_msg}
use distadm.Core.{Core, my_row, set_my_cell}
use distadm.Core.Receive.{add_cmd, find_command}
use distadm.Core.Rows.{get_or-set}
use distadm.Core.Pending.{add_cmd-IsSound, my_row-width, has_msg-grows}
use distadm.Core.Run.{add_cmd-HasMine}
use distadm.Core.Running.{IsRunning}
use distadm.Net.{CoreNet, request_message_from_node}
use distadm.Net.Requests.{request_message_from_node-IsMissing}
use distadm.Session.{Ended, with_core, answer, take_answer, client_rounds}
use distadm.Messages.Members.{read_msg-id}
use distadm.Session.Taking.{
  find_msg-has_msg, node_offset-at, lack, lack-set, next, taken, add_cmd-taken, my_row-taken,
  ids-taken, find-taken, next-above, next-Consecutive, taken_set, get_elem?-offset,
}

-- The client `c` runs, knows the server as `n`, and the server holds each message that `n` has ahead
-- of the client.
pub record Pulls (server : CoreNet) (n : Node) (c : CoreNet) : Type 0 where
  pub running : IsRunning c.core
  pub node : c.core.has_my_node ≡ true
  pub works : c.core.exits ≡ false
  pub idle : c.downloading_msgs ≡ []
  pub apart : server.core.my_id ≢ c.core.my_id
  pub remote : find server.core.my_id c.core.nodes ≡ some n
  pub offered :
      (j id k : ℕ)
      → get_elem? (ids c.core.nodes) j ≡ some id
      → get_or (my_row c.core) j 0 ≤ k
      → k < get_or n.matrix_row j 0
      → has_msg id k server.core.messages ≡ true
  -- What the client claims ahead of the server it holds.
  pub holds :
      (j id k : ℕ)
      → get_elem? (ids c.core.nodes) j ≡ some id
      → get_or n.matrix_row j 0 ≤ k
      → k < get_or (my_row c.core) j 0
      → has_msg id k c.core.messages ≡ true

some_injective : {a b : Node} → some a ≡ some b → a ≡ b
some_injective h = cc

module _ (server : CoreNet) (n : Node) (c : CoreNet) (p : Pulls server n c) (cmd : Msg) (x : ℕ)
    (at_x : node_offset c.core.nodes cmd.node_id ≡ some x) (small : cmd.msg_number + 1 < u64)
    (asked : get_or (my_row c.core) x 0 ≡ cmd.msg_number) where
  abbrev after : CoreNet
  after = record c { core = taken c.core cmd x at_x p.node }

  row-grows : (i : ℕ) → get_or (my_row c.core) i 0 ≤ get_or (my_row after.core) i 0
  row-grows i = rw (my_row-taken c.core cmd x at_x p.node) (
      ground (
        arith,
        get_or-set (my_row c.core) x i (next c.core cmd x at_x p.node),
        next-above c.core cmd x at_x p.node p.running.sound.in_range small asked,
        asked,
      ))

  after-holds :
      (j id k : ℕ)
      → get_elem? (ids c.core.nodes) j ≡ some id
      → get_or n.matrix_row j 0 ≤ k
      → k < get_or (my_row after.core) j 0
      → has_msg id k (taken_set c.core cmd x at_x p.node) ≡ true
  after-holds j id k at_j low high = elim (Bool-cases (ltb k (get_or (my_row c.core) j 0))) [
    | inl old ↦ has_msg-grows id k cmd c.core.messages (p.holds j id k at_j low (ltb→lt _ _ old))
    | inr new ↦
        let run = next-Consecutive c.core cmd x at_x p.node p.running.sound.in_range small in
        let write = get_or-set (my_row c.core) x j (next c.core cmd x at_x p.node) in
        let here = rw (my_row-taken c.core cmd x at_x p.node, write) at high in
        let there = ltb-false _ _ new in
        let same : x ≡ j = ground (arith, ==→eq x j) in
        let who : cmd.node_id ≡ id =
          ground (arith, get_elem?-offset c.core.nodes cmd.node_id x at_x) in
        rw (sym who) (run.between k (ground (arith)) (ground (arith)))
  ]

  after-Pulls : Pulls server n after
  unfolding set_my_cell
  after-Pulls = record {
    running = subst IsRunning (add_cmd-taken c.core cmd x at_x p.node) (record {
      sound = add_cmd-IsSound c.core cmd p.running.sound (λ node. p.running.mine) small;
      mine = add_cmd-HasMine c.core cmd p.running.mine;
    });
    node = p.node;
    works = p.works;
    idle = p.idle;
    apart = p.apart;
    remote = find-taken c.core cmd x at_x p.node server.core.my_id p.apart ∙ p.remote;
    offered = λ j id k here low high.
        p.offered j id k
          (ap (λ ks. get_elem? ks j) (sym (ids-taken c.core cmd x at_x p.node)) ∙ here)
          (omega (arith, row-grows j, low)) high;
    holds = λ j id k here low high.
        after-holds j id k
          (ap (λ ks. get_elem? ks j) (sym (ids-taken c.core cmd x at_x p.node)) ∙ here) low high;
  }

  lack-after :
      cmd.msg_number < get_or n.matrix_row x 0
      → lack n.matrix_row (my_row after.core) < lack n.matrix_row (my_row c.core)
  lack-after behind =
      let (mine, found) = p.running.mine in
      rw (my_row-taken c.core cmd x at_x p.node) (
        lack-set n.matrix_row (my_row c.core) x (next c.core cmd x at_x p.node)
          (my_row-width c.core cmd.node_id x mine p.running.sound.square found at_x)
          (omega (arith, asked, behind))
          (omega (
            arith,
            asked,
            next-above c.core cmd x at_x p.node p.running.sound.in_range small asked,
          )))

  with_core-after : with_core (λ d. add_cmd d cmd) c ≡ after
  with_core-after =
      ap (λ (d : Core). record c { core = d }) (add_cmd-taken c.core cmd x at_x p.node)

-- One round: the server has what is asked for, and the client lacks less then.
record Round (server : CoreNet) (n : Node) (arrives : Msg → Bool) (c : CoreNet) (id number : ℕ)
    : Type 0 where
  pub reply : Msg
  pub after_reply : CoreNet
  pub answered : answer server id number ≡ some reply
  pub received : take_answer arrives id number reply c ≡ some after_reply
  pub pulls : Pulls server n after_reply
  pub fewer : lack n.matrix_row (my_row after_reply.core) < lack n.matrix_row (my_row c.core)
  pub same_id : after_reply.core.my_id ≡ c.core.my_id
  pub same_ids : ids after_reply.core.nodes ≡ ids c.core.nodes
  pub grows : (i : ℕ) → get_or (my_row c.core) i 0 ≤ get_or (my_row after_reply.core) i 0

request-Round :
    (server : CoreNet) (n : Node) (arrives : Msg → Bool) (c : CoreNet) (id number : ℕ)
    → IsRunning server.core
    → ((m : Msg) → arrives m ≡ true)
    → Pulls server n c
    → request_message_from_node c server.core.my_id ≡ some (id, number)
    → Round server n arrives c id number
unfolding answer find_command take_answer
request-Round server n arrives c id number s all p h =
    let (n', found, missing) =
      request_message_from_node-IsMissing c server.core.my_id id number h in
    let same : n' ≡ n = some_injective (sym found ∙ p.remote) in
    let j = missing.column in
    let behind : number < get_or n.matrix_row j 0 =
      subst (λ (y : Node). number < get_or y.matrix_row j 0) same missing.theirs in
    let held = p.offered j id number missing.of_id (omega (arith, missing.next)) behind in
    let (m, at_m, who, which, small) =
      find_msg-has_msg id number server.core.messages held s.sound.in_range in
    let (same_who, same_which) = read_msg-id m in
    let cmd = read_msg m in
    let at_j : node_offset c.core.nodes cmd.node_id ≡ some j =
      ap (node_offset c.core.nodes) (same_who ∙ who)
      ∙ node_offset-at c.core j id p.running.sound.square missing.of_id in
    let small' : cmd.msg_number + 1 < u64 = omega (arith, same_which, small) in
    let asked : get_or (my_row c.core) j 0 ≡ cmd.msg_number =
      missing.next ∙ sym (same_which ∙ which) in
    let fits : (cmd.node_id == id && cmd.msg_number == number && arrives cmd) ≡ true =
      rw (same_who ∙ who)
        (rw (same_which ∙ which) (rw (all cmd) (rw (==_refl id) (rw (==_refl number) refl)))) in
    record {
      reply = m;
      after_reply = after server n c p cmd j at_j small' asked;
      answered = at_m;
      received = rw fits (ap some (with_core-after server n c p cmd j at_j small' asked));
      pulls = after-Pulls server n c p cmd j at_j small' asked;
      fewer =
          lack-after server n c p cmd j at_j small' asked
            (omega (arith, same_which, which, behind));
      same_id = refl;
      same_ids = ids-taken c.core cmd j at_j p.node;
      grows = row-grows server n c p cmd j at_j small' asked;
    }

-- A round goes on with the state that the answer leaves.
client_rounds-step :
    (fuel : ℕ) (arrives : Msg → Bool) (server : CoreNet) (remote_id : ℕ) (c c' : CoreNet)
    (id number : ℕ) (m : Msg)
    → c.core.exits ≡ false
    → request_message_from_node c remote_id ≡ some (id, number)
    → answer server id number ≡ some m
    → take_answer arrives id number m c ≡ some c'
    → client_rounds (suc fuel) arrives server remote_id c
      ≡ client_rounds fuel arrives server remote_id c'
unfolding client_rounds
client_rounds-step fuel arrives server remote_id c c' id number m works asks answered received =
    ground (arith, works, asks, answered, received)

-- The rounds end: nothing is left to ask for.
pub client_rounds-Pulls :
    (fuel : ℕ) (arrives : Msg → Bool) (server : CoreNet) (n : Node) (c : CoreNet)
    → IsRunning server.core
    → ((m : Msg) → arrives m ≡ true)
    → Pulls server n c
    → lack n.matrix_row (my_row c.core) < fuel
    → (c' : CoreNet) × (client_rounds fuel arrives server server.core.my_id c ≡ Ended.finished c')
      × Pulls server n c'
      × (request_message_from_node c' server.core.my_id ≡ none)
      × (c'.core.my_id ≡ c.core.my_id)
      × (ids c'.core.nodes ≡ ids c.core.nodes)
      × ((i : ℕ) → get_or (my_row c.core) i 0 ≤ get_or (my_row c'.core) i 0)
unfolding client_rounds
client_rounds-Pulls zero arrives server n c s all p f = absurd (omega (arith, f))
client_rounds-Pulls (suc fuel) arrives server n c s all p f =
    elim (Option-cases (request_message_from_node c server.core.my_id)) [
      | inl nothing ↦ (c, ground (arith, p.works), p, nothing, refl, refl, λ i. omega arith)
      | inr ((id, number), asks) ↦
          let round = request-Round server n arrives c id number s all p asks in
          let (c', ends, p', nothing, same, same_ids, grows) =
            client_rounds-Pulls fuel arrives server n round.after_reply s all round.pulls
              (omega (arith, round.fewer, f)) in
          (
            c',
            client_rounds-step fuel arrives server server.core.my_id c round.after_reply id number
                  round.reply p.works asks round.answered round.received
                ∙ ends,
            p',
            nothing,
            same ∙ round.same_id,
            same_ids ∙ round.same_ids,
            λ i. omega (arith, grows i, round.grows i),
          )
    ]
