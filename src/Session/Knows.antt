-- ===== src/Session/Knows.antt =====
-- TCPsession_v1::client_main ends, and the node knows what the other knew.
use distadm.Prelude.{
  Option, ℕ, ◌≤◌, ◌<◌, ◌≡◌, refl, sym, ap, ◌∙◌, true, false, none, some, List, [], ◌∷◌, length,
  get_elem?, get_or, ltb, arith, Bool-cases, Option-cases, inl, inr, ltb→lt, ltb-false, append-nil,
  Bool,
}
use distadm.Matrix.{Node, find, index_from, ids, node_offset}
use distadm.Matrix.Lookup.{index_from-lt}
use distadm.Matrix.Wire.{read, write}
use distadm.Matrix.Sent.{sent, read-write}
use distadm.Matrix.Cells.{cell, cell_at, cell-present}
use distadm.Core.Changes.{or_zero}
use distadm.Messages.{Msg, has_msg}
use distadm.Core.{my_row, my_cell}
use distadm.Core.Repair.{my_cell-nowhere}
use distadm.Core.Running.{IsRunning}
use distadm.Net.{CoreNet, downloading, request_message_from_node}
use distadm.Net.Requests.{request_message_from_node-none}
use distadm.Session.{Ended, client_main}
use distadm.Session.Taking.{lack, get_elem?-offset}
use distadm.Session.Pull.{Pulls, client_rounds-Pulls}
use distadm.Session.Learns.{
  Faces, my_cell-column, my_row-length, start, start-ids, start-row, entry, entry-row, start-Pulls,
}

nothing_downloads : (id k : ℕ) (busy : List (ℕ × ℕ)) → busy ≡ [] → downloading id k busy ≡ false
unfolding downloading
nothing_downloads id k [] h = refl
nothing_downloads id k (x ∷ busy) h = absurd cc

cell_at-nowhere : (n : Option Node) → cell_at n none ≡ none
cell_at-nowhere none = refl
cell_at-nowhere (some n) = refl

-- What is not asked for is known.
Pulls-knows :
    (server : CoreNet) (n : Node) (c : CoreNet) (j id : ℕ)
    → Pulls server n c
    → request_message_from_node c server.core.my_id ≡ none
    → get_elem? (ids c.core.nodes) j ≡ some id
    → j < length (my_row c.core)
    → get_or n.matrix_row j 0 ≤ get_or (my_row c.core) j 0
Pulls-knows server n c j id p nothing at_j inside =
    elim (Bool-cases (ltb (get_or (my_row c.core) j 0) (get_or n.matrix_row j 0))) [
      | inr known ↦ ltb-false _ _ known
      | inl lacks ↦
          let busy =
            request_message_from_node-none c server.core.my_id n j id p.node p.remote nothing at_j
              (ltb→lt _ _ lacks) inside in
          absurd (
            ground (
              arith,
              busy,
              nothing_downloads id (get_or (my_row c.core) j 0) c.downloading_msgs p.idle,
            ))
    ]

-- A node that can take part in a session, as client or as server
pub record Ready (c : CoreNet) : Type 0 where
  pub running : IsRunning c.core
  pub node : c.core.has_my_node ≡ true
  pub works : c.core.exits ≡ false
  pub idle : c.downloading_msgs ≡ []

-- What the client `c` has become in `c'`, against the server
pub record Met (server c c' : CoreNet) : Type 0 where
  pub ready : Ready c'
  pub same_id : c'.core.my_id ≡ c.core.my_id
  pub faces : Faces c'.core server.core
  pub faced : Faces server.core c'.core
  pub knows : (a : ℕ) → my_cell server.core a ≤ my_cell c'.core a
  pub grows : (a : ℕ) → my_cell c.core a ≤ my_cell c'.core a

module _ (server c c' : CoreNet) (n : Node) (s : IsRunning server.core) (r : IsRunning c.core)
    (f : Faces c.core server.core) (g : Faces server.core c.core) (p : Pulls server n c')
    (row : n.matrix_row ≡ my_row server.core)
    (nothing : request_message_from_node c' server.core.my_id ≡ none)
    (same_id : c'.core.my_id ≡ c.core.my_id) (keys : ids c'.core.nodes ≡ ids c.core.nodes)
    (grows : (i : ℕ) → get_or (my_row c.core) i 0 ≤ get_or (my_row c'.core) i 0) where
  both : ids c'.core.nodes ≡ ids server.core.nodes
  both = keys ∙ f.same_ids

  server_column :
      (a j : ℕ)
      → node_offset server.core.nodes a ≡ some j
      → get_elem? (ids c'.core.nodes) j ≡ some a
  server_column a j at_j =
      ap (λ ks. get_elem? ks j) both ∙ get_elem?-offset server.core.nodes a j at_j

  knows-server : (a : ℕ) → my_cell server.core a ≤ my_cell c'.core a
  knows-server a = elim (Option-cases (node_offset server.core.nodes a)) [
    | inl absent ↦ omega (arith, my_cell-nowhere server.core a absent)
    | inr (j, at_j) ↦
        let here = server_column a j at_j in
        let inside = index_from-lt 0 a j (ids server.core.nodes) (unfold node_offset in at_j) in
        let known =
          Pulls-knows server n c' j a p nothing here
            (omega (arith, my_row-length c'.core p.running, ap length both, inside)) in
        omega (
          arith,
          known,
          ap (λ xs. get_or xs j 0) row,
          my_cell-column server.core j a s (get_elem?-offset server.core.nodes a j at_j),
          my_cell-column c'.core j a p.running here,
        )
  ]

  grows-client : (a : ℕ) → my_cell c.core a ≤ my_cell c'.core a
  grows-client a = elim (Option-cases (node_offset c.core.nodes a)) [
    | inl absent ↦ omega (arith, my_cell-nowhere c.core a absent)
    | inr (j, at_j) ↦
        let there = get_elem?-offset c.core.nodes a j at_j in
        omega (
          arith,
          grows j,
          my_cell-column c.core j a r there,
          my_cell-column c'.core j a p.running (ap (λ ks. get_elem? ks j) keys ∙ there),
        )
  ]

  -- The client has the row of the server right.
  remote-cell : (a : ℕ) → or_zero (cell c'.core.nodes server.core.my_id a) ≡ my_cell server.core a
  unfolding node_offset cell
  remote-cell a = elim (Option-cases (node_offset server.core.nodes a)) [
    | inl absent ↦
        let absent' : node_offset c'.core.nodes a ≡ none = ap (index_from 0 a) both ∙ absent in
        ap or_zero (
          ap (cell_at (find server.core.my_id c'.core.nodes)) absent'
          ∙ cell_at-nowhere (find server.core.my_id c'.core.nodes))
        ∙ sym (my_cell-nowhere server.core a absent)
    | inr (j, at_j) ↦
        let at' : node_offset c'.core.nodes a ≡ some j = ap (index_from 0 a) both ∙ at_j in
        ap or_zero
          (cell-present c'.core.nodes server.core.my_id a j n p.running.sound.square p.remote at')
        ∙ ap (λ xs. get_or xs j 0) row
        ∙ sym (my_cell-column server.core j a s (get_elem?-offset server.core.nodes a j at_j))
  ]

  held :
      (a k : ℕ)
      → or_zero (cell c'.core.nodes server.core.my_id a) ≤ k
      → k < my_cell c'.core a
      → has_msg a k c'.core.messages ≡ true
  held a k low high = elim (Option-cases (node_offset c'.core.nodes a)) [
    | inl absent ↦ absurd (omega (arith, my_cell-nowhere c'.core a absent, high))
    | inr (j, at_j) ↦
        let here = get_elem?-offset c'.core.nodes a j at_j in
        let there = ap (λ ks. get_elem? ks j) (sym both) ∙ here in
        p.holds j a k here
          (omega (
            arith,
            low,
            remote-cell a,
            ap (λ xs. get_or xs j 0) row,
            my_cell-column server.core j a s there,
          ))
          (omega (arith, high, my_cell-column c'.core j a p.running here))
  ]

  pulled-Met : Met server c c'
  pulled-Met = record {
    ready = record { running = p.running; node = p.node; works = p.works; idle = p.idle };
    same_id = same_id;
    faces = record {
      same_ids = both;
      apart = λ e. f.apart (e ∙ same_id);
      view = λ a. omega (arith, remote-cell a);
      seen = λ a. omega (
        arith,
        f.seen a,
        grows-client a,
        ap (λ id. or_zero (cell server.core.nodes id a)) same_id,
      );
      offers = λ a k low high. f.offers a k (rw same_id at low) high;
    };
    faced = record {
      same_ids = sym both;
      apart = λ e. g.apart (sym same_id ∙ e);
      view = λ a. omega (
        arith,
        g.view a,
        grows-client a,
        ap (λ id. or_zero (cell server.core.nodes id a)) same_id,
      );
      seen = λ a. omega (arith, remote-cell a);
      offers = held;
    };
    knows = knows-server;
    grows = grows-client;
  }

-- A node that talks to another of its group gets, with fuel for each message that it lacks and one
-- round more, all that the other has: the part of the session ends, and then each of its numbers is
-- at least that of the other and at least what it was, it is still running, and the two are as
-- honest as before. This is stated where the two are honest both ways (`Faces`), both run, no other
-- download is under way, the program is not to end and every file arrives.
pub client_main-Met :
    (fuel : ℕ) (arrives : Msg → Bool) (server c : CoreNet)
    → IsRunning server.core
    → Ready c
    → Faces c.core server.core
    → Faces server.core c.core
    → ((m : Msg) → arrives m ≡ true)
    → lack (my_row server.core) (my_row c.core) < fuel
    → (c' : CoreNet) × (client_main fuel arrives server server.core.my_id c ≡ Ended.finished c')
      × Met server c c'
unfolding client_main
client_main-Met fuel arrives server c s r f g all enough =
    let first = start-Pulls server c s r.running f g r.node r.works r.idle in
    let n = entry server c s r.running f g in
    let row = entry-row server c s r.running f g in
    let mine = start-row server c s r.running f g in
    let less : lack n.matrix_row (my_row (start server c s r.running f g)) < fuel =
      rw row (rw mine enough) in
    let (c', ends, p, nothing, same_id, same_ids, grows) =
      client_rounds-Pulls fuel arrives server n (record c { core = start server c s r.running f g })
        s all first less in
    let arrives_whole : read (write server.core.nodes) ≡ some (sent server.core.nodes, []) =
      ap read (sym (append-nil (write server.core.nodes)))
      ∙ read-write server.core.nodes [] s.sound.square in
    let grew : (i : ℕ) → get_or (my_row c.core) i 0 ≤ get_or (my_row c'.core) i 0 =
      λ i. omega (arith, grows i, ap (λ xs. get_or xs i 0) mine) in
    (
      c',
      rw (arrives_whole, client_main) ends,
      pulled-Met server c c' n s r.running f g p row nothing same_id
          (same_ids ∙ start-ids server c s r.running f g) grew,
    )
