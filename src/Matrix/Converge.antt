-- ===== src/Matrix/Converge.antt =====
-- Consequences of the meaning of Matrix::update: it keeps the shape, its answer is exact, and the
-- order in which packets arrive does not matter.
use distadm.Prelude.{
  ℕ, ◌≡◌, ◌↔◌, refl, sym, ap, false, Option, none, some, List, [], ◌∷◌, length, arith, map, inl,
  inr, Option-cases, ◌∙◌,
}
use distadm.Matrix.{Node, Matrix, ids, find, node_offset}
use distadm.Matrix.Shape.{Ascends, Rows, IsSquare}
use distadm.Matrix.Update.{merge_row, merge_node, row_grew, node_grew, update}
use distadm.Matrix.Merge.{join_nodes, join, update-join}
use distadm.Matrix.Cells.{
  cell, merged_entry, find-join_nodes, join_cell, cell-update, length-merge_row, ids-join_nodes,
}

length-join_nodes :
    (ks : List (Option ℕ)) (src m : Matrix) → length (join_nodes ks src m).0 ≡ length m
unfolding join_nodes
length-join_nodes ks src [] = refl
length-join_nodes ks src ((id, n) ∷ m) = ground (arith, length-join_nodes ks src m)

Rows-join_nodes :
    (ks : List (Option ℕ)) (src m : Matrix) (w : ℕ) → Rows w m → Rows w (join_nodes ks src m).0
unfolding join_nodes merge_node
Rows-join_nodes ks src [] w h = tt
Rows-join_nodes ks src ((id, n) ∷ m) w h = elim (Option-cases (find id src)) [
  | inl absent ↦ rw (absent, join_nodes) (h.0, Rows-join_nodes ks src m w h.1)
  | inr (rn, found) ↦
      rw (found, join_nodes)
        (length-merge_row ks n.matrix_row rn.matrix_row ∙ h.0, Rows-join_nodes ks src m w h.1)
]

-- `update` by an ordered source keeps a square matrix square: its keys stay in order and every row
-- keeps one cell for each node.
pub update-IsSquare :
    (m src : Matrix) → IsSquare m → Ascends 0 (ids src) → IsSquare (update m src).0
unfolding join
update-IsSquare m src sq a =
    let ks = map (node_offset src) (ids m) in
    rw (update-join m src sq.ordered a) (record {
      ordered = rw (ids-join_nodes ks src m) sq.ordered;
      rows = rw (length-join_nodes ks src m) (Rows-join_nodes ks src m (length m) sq.rows);
    })

join_cell_comm : (x y z : Option ℕ) → join_cell (join_cell x y) z ≡ join_cell (join_cell x z) y
join_cell_comm none y z = refl
join_cell_comm (some x) none none = refl
join_cell_comm (some x) none (some z) = refl
join_cell_comm (some x) (some y) none = refl
join_cell_comm (some x) (some y) (some z) = ap some (omega arith)

-- Two matrices that arrive one after the other leave the same cells in either order. All three
-- matrices are square and in order.
pub update_comm :
    (m s t : Matrix) (a b : ℕ)
    → IsSquare m
    → IsSquare s
    → IsSquare t
    → cell (update (update m s).0 t).0 a b ≡ cell (update (update m t).0 s).0 a b
update_comm m s t a b hm hs ht =
    cell-update (update m s).0 t a b (update-IsSquare m s hm hs.ordered) ht
    ∙ rw (cell-update m s a b hm hs) (
        join_cell_comm (cell m a b) (cell s a b) (cell t a b)
        ∙ sym (
            cell-update (update m t).0 s a b (update-IsSquare m t hm ht.ordered) hs
            ∙ rw (cell-update m t a b hm ht)))

join_cell_twice : (x y : Option ℕ) → join_cell (join_cell x y) y ≡ join_cell x y
join_cell_twice none y = refl
join_cell_twice (some x) none = refl
join_cell_twice (some x) (some y) = ap some (omega arith)

-- A matrix that arrives a second time changes no cell. Both matrices are square and in order.
pub update_twice :
    (m s : Matrix) (a b : ℕ)
    → IsSquare m
    → IsSquare s
    → cell (update (update m s).0 s).0 a b ≡ cell (update m s).0 a b
update_twice m s a b hm hs =
    cell-update (update m s).0 s a b (update-IsSquare m s hm hs.ordered) hs
    ∙ rw (cell-update m s a b hm hs) (join_cell_twice (cell m a b) (cell s a b))

-- A matrix without the protocol versions, of which the answer of `update` says nothing.
abbrev pub versionless : Matrix → Matrix
versionless [] = []
versionless ((id, n) ∷ m) = (id, record n { proto_ver = 0 }) ∷ versionless m

row_grew-merge_row :
    (ks : List (Option ℕ)) (xs ys : List ℕ)
    → (row_grew ks xs ys ≡ false) ↔ (merge_row ks xs ys ≡ xs)
unfolding row_grew merge_row
row_grew-merge_row [] xs ys = ground arith
row_grew-merge_row (k ∷ ks) [] ys = ground arith
row_grew-merge_row (none ∷ ks) (x ∷ xs) ys = ground (arith, row_grew-merge_row ks xs ys)
row_grew-merge_row (some k ∷ ks) (x ∷ xs) ys = ground (arith, row_grew-merge_row ks xs ys)

join_nodes-changed :
    (ks : List (Option ℕ)) (src m : Matrix)
    → ((join_nodes ks src m).1 ≡ false) ↔ (versionless (join_nodes ks src m).0 ≡ versionless m)
unfolding join_nodes node_grew merge_node
join_nodes-changed ks src [] = ground arith
join_nodes-changed ks src ((id, n) ∷ m) = elim (Option-cases (find id src)) [
  | inl absent ↦ ground (arith, join_nodes-changed ks src m)
  | inr (rn, found) ↦
      ground (arith, join_nodes-changed ks src m, row_grew-merge_row ks n.matrix_row rn.matrix_row)
]

-- `update` answers that nothing changed exactly when it left every node as it was, the protocol
-- versions apart, which it may raise without saying so. The keys of both matrices are in order.
pub update-changed :
    (m src : Matrix)
    → Ascends 0 (ids m)
    → Ascends 0 (ids src)
    → ((update m src).1 ≡ false) ↔ (versionless (update m src).0 ≡ versionless m)
unfolding join
update-changed m src a b =
    rw (update-join m src a b) (join_nodes-changed (map (node_offset src) (ids m)) src m)

HasNode-merged_entry :
    (ks : List (Option ℕ)) (n : Node) (theirs : Option Node)
    → (n' : Node) × (merged_entry ks (some n) theirs ≡ some n')
HasNode-merged_entry ks n none = (n, refl)
HasNode-merged_entry ks n (some rn) = (merge_node ks n rn, refl)

-- `update` leaves no node out.
pub HasNode-update :
    (m src : Matrix) (a : ℕ)
    → IsSquare m
    → Ascends 0 (ids src)
    → (n : Node) × (find a m ≡ some n)
    → (n : Node) × (find a (update m src).0 ≡ some n)
unfolding join
HasNode-update m src a sq asc h = rw (update-join m src sq.ordered asc) (
    rw (find-join_nodes (map (node_offset src) (ids m)) src m a)
      (rw h.1 (HasNode-merged_entry (map (node_offset src) (ids m)) h.0 (find a src))))
