-- ===== src/Session/Learns.antt =====
-- What a node has after TCPsession_v1::client_main.
use distadm.Prelude.{
  ℕ, zero, suc, ◌≤◌, ◌<◌, ◌≡◌, ◌≢◌, refl, sym, ap, ◌∙◌, true, false, Option, none, some, List, [],
  ◌∷◌, length, get_elem?, get_or, arith, Option-cases, inl, inr,
}
use distadm.Matrix.{Node, Matrix, ids, find}
use distadm.Matrix.Shape.{IsSquare}
use distadm.Matrix.Keys.{has, has-find}
use distadm.Matrix.Cells.{cell, find-Rows, length-ids, cell-present, cell-update, join_cell}
use distadm.Matrix.Sent.{sent}
use distadm.Matrix.Arrived.{cell-sent, sent-IsSquare}
use distadm.Messages.{has_msg}
use distadm.Core.{Core, my_row, my_cell}
use distadm.Core.Changes.{or_zero, my_cell-cell}
use distadm.Core.Packets.{update_matrix}
use distadm.Core.Pending.{my_cell-at}
use distadm.Core.Running.{IsRunning}
use distadm.Net.{CoreNet}
use distadm.Session.Taking.{node_offset-at}
use distadm.Session.Merged.{merged, my_cell-merged, ids-merged, merged-IsRunning}
use distadm.Session.Pull.{Pulls}

-- Two nodes of one group that can talk: the client believes no more of the server than the server
-- has, nor the other way round, and the server holds each message that, as far as it knows, the
-- client lacks.
pub record Faces (c s : Core) : Type 0 where
  pub same_ids : ids c.nodes ≡ ids s.nodes
  pub apart : s.my_id ≢ c.my_id
  pub view : (a : ℕ) → or_zero (cell c.nodes s.my_id a) ≤ my_cell s a
  pub seen : (a : ℕ) → or_zero (cell s.nodes c.my_id a) ≤ my_cell c a
  pub offers :
      (a k : ℕ)
      → or_zero (cell s.nodes c.my_id a) ≤ k
      → k < my_cell s a
      → has_msg a k s.messages ≡ true

get_elem?-inside : (xs : List ℕ) (j : ℕ) → j < length xs → (x : ℕ) × (get_elem? xs j ≡ some x)
get_elem?-inside [] j h = absurd (omega (arith, h))
get_elem?-inside (x ∷ xs) zero h = (x, refl)
get_elem?-inside (x ∷ xs) (suc j) h = get_elem?-inside xs j (omega (arith, h))

same_list :
    (xs ys : List ℕ)
    → length xs ≡ length ys
    → ((j : ℕ) → j < length xs → get_or xs j 0 ≡ get_or ys j 0)
    → xs ≡ ys
same_list [] [] h e = refl
same_list [] (y ∷ ys) h e = absurd (omega (arith, h))
same_list (x ∷ xs) [] h e = absurd (omega (arith, h))
same_list (x ∷ xs) (y ∷ ys) h e =
    let rest = same_list xs ys (omega (arith, h)) (λ j l. e (suc j) (omega (arith, l))) in
    ap (λ z. z ∷ xs) (e zero (omega arith)) ∙ ap (◌∷◌ y) rest

pub my_row-length : (c : Core) → IsRunning c → length (my_row c) ≡ length (ids c.nodes)
unfolding my_row
my_row-length c r =
    let (n, found) = r.mine in
    rw found (
      omega (
        arith,
        find-Rows (length c.nodes) c.my_id c.nodes n r.sound.square.rows found,
        length-ids c.nodes,
      ))

-- My cell stands in the column of its author.
pub my_cell-column :
    (c : Core) (j a : ℕ)
    → IsRunning c
    → get_elem? (ids c.nodes) j ≡ some a
    → my_cell c a ≡ get_or (my_row c) j 0
my_cell-column c j a r h = my_cell-at c a j (node_offset-at c j a r.sound.square h)

some_injective : {x y : ℕ} → some x ≡ some y → x ≡ y
some_injective h = cc

join_cell-behind :
    (x : ℕ) (o p : Option ℕ) → join_cell o p ≡ some x → or_zero o ≤ or_zero p → x ≡ or_zero p
join_cell-behind x none p h l = absurd cc
join_cell-behind x (some y) none h l = omega (arith, some_injective h, l)
join_cell-behind x (some y) (some z) h l = omega (arith, some_injective h, l)

module _ (server c : CoreNet) (s : IsRunning server.core) (r : IsRunning c.core)
    (f : Faces c.core server.core) (g : Faces server.core c.core) where
  abbrev pub src : Matrix
  src = sent server.core.nodes

  pub src-IsSquare : IsSquare src
  src-IsSquare = sent-IsSquare server.core.nodes s.sound.square

  pub src-seen : (a : ℕ) → or_zero (cell src c.core.my_id a) ≤ my_cell c.core a
  src-seen a = rw (cell-sent server.core.nodes c.core.my_id a) (f.seen a)

  abbrev pub start : Core
  start = merged c.core src r src-IsSquare src-seen

  start-IsRunning : IsRunning start
  start-IsRunning = merged-IsRunning c.core src r src-IsSquare src-seen

  pub start-ids : ids start.nodes ≡ ids c.core.nodes
  start-ids = ids-merged c.core src r src-IsSquare src-seen

  pub start-cell : (a : ℕ) → my_cell start a ≡ my_cell c.core a
  start-cell = my_cell-merged c.core src r src-IsSquare src-seen

  pub start-row : my_row start ≡ my_row c.core
  start-row =
      let same : length (my_row start) ≡ length (my_row c.core) =
        my_row-length start start-IsRunning ∙ ap length start-ids ∙ sym (my_row-length c.core r) in
      same_list (my_row start) (my_row c.core) same (λ j l.
        let (a, at_j) =
          get_elem?-inside (ids start.nodes) j
            (omega (arith, l, my_row-length start start-IsRunning)) in
        sym (my_cell-column start j a start-IsRunning at_j)
        ∙ start-cell a
        ∙ my_cell-column c.core j a r (ap (λ ks. get_elem? ks j) (sym start-ids) ∙ at_j))

  pub server_known : (n : Node) × (find server.core.my_id start.nodes ≡ some n)
  server_known = elim (Option-cases (find server.core.my_id start.nodes)) [
    | inr known ↦ known
    | inl absent ↦ absurd (
        let (n, found) = s.mine in
        let keys : ids start.nodes ≡ ids server.core.nodes = start-ids ∙ f.same_ids in
        ground (
          arith,
          absent,
          found,
          has-find server.core.my_id start.nodes,
          has-find server.core.my_id server.core.nodes,
          ap (has server.core.my_id) keys,
        ))
  ]

  abbrev pub entry : Node
  entry = server_known.0

  -- After the matrix is merged, my entry of the server has the row of the server.
  entry-cell :
      (j a : ℕ)
      → get_elem? (ids start.nodes) j ≡ some a
      → get_or entry.matrix_row j 0 ≡ get_or (my_row server.core) j 0
  unfolding update_matrix
  entry-cell j a at_j =
      let at = node_offset-at start j a start-IsRunning.sound.square at_j in
      let id = server.core.my_id in
      let present =
        cell-present start.nodes id a j entry start-IsRunning.sound.square server_known.1 at in
      let joined = sym (cell-update c.core.nodes src id a r.sound.square src-IsSquare) ∙ present in
      let theirs : or_zero (cell src id a) ≡ my_cell server.core a =
        ap or_zero (cell-sent server.core.nodes id a) ∙ sym (my_cell-cell server.core a) in
      let value =
        join_cell-behind (get_or entry.matrix_row j 0) (cell c.core.nodes id a) (cell src id a)
          joined (omega (arith, f.view a, theirs)) in
      value
      ∙ theirs
      ∙ my_cell-column server.core j a s
          (ap (λ ks. get_elem? ks j) (sym (start-ids ∙ f.same_ids)) ∙ at_j)

  entry-length : length entry.matrix_row ≡ length (ids start.nodes)
  entry-length =
      find-Rows (length start.nodes) server.core.my_id start.nodes entry
        start-IsRunning.sound.square.rows server_known.1
      ∙ sym (length-ids start.nodes)

  pub entry-row : entry.matrix_row ≡ my_row server.core
  entry-row =
      let same : length entry.matrix_row ≡ length (my_row server.core) =
        entry-length ∙ ap length (start-ids ∙ f.same_ids) ∙ sym (my_row-length server.core s) in
      same_list entry.matrix_row (my_row server.core) same (λ j l.
        let (a, at_j) = get_elem?-inside (ids start.nodes) j (omega (arith, l, entry-length)) in
        entry-cell j a at_j)

  pub start-Pulls :
      c.core.has_my_node ≡ true
      → c.core.exits ≡ false
      → c.downloading_msgs ≡ []
      → Pulls server entry (record c { core = start })
  unfolding update_matrix
  start-Pulls node works idle = record {
    running = start-IsRunning;
    node = node;
    works = works;
    idle = idle;
    apart = f.apart;
    remote = server_known.1;
    offered = λ j id k at_j low high.
        let theirs = entry-cell j id at_j in
        let mine = my_cell-column start j id start-IsRunning at_j in
        let column =
          my_cell-column server.core j id s
            (ap (λ ks. get_elem? ks j) (sym (start-ids ∙ f.same_ids)) ∙ at_j) in
        f.offers id k (omega (arith, f.seen id, start-cell id, mine, low))
          (omega (arith, theirs, column, high));
    holds = λ j id k at_j low high.
        let theirs = entry-cell j id at_j in
        let mine = my_cell-column start j id start-IsRunning at_j in
        let column =
          my_cell-column server.core j id s
            (ap (λ ks. get_elem? ks j) (sym (start-ids ∙ f.same_ids)) ∙ at_j) in
        g.offers id k (omega (arith, f.view id, theirs, column, low))
          (omega (arith, start-cell id, mine, high));
  }
