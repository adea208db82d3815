-- ===== src/Matrix/Grow.antt =====
-- A new node joins: what Matrix::resize does for one id that the matrix does not have.
use distadm.Prelude.{
  ℕ, ◌≡◌, refl, sym, ap, Bool, true, false, Option, none, some, [], ◌∷◌, ◌==◌, ◌||◌, if◌then◌else◌,
  arith, ◌⊎◌, inl, inr, Bool-cases, Option-cases, ==→eq, ◌∙◌,
}
use distadm.Matrix.{Node, Matrix, ids, find, index_from, node_offset}
use distadm.Matrix.Shape.{IsSquare}
use distadm.Matrix.Lookup.{get_or-index}
use distadm.Matrix.Keys.{has, is_some, has-find, index_from-has}
use distadm.Matrix.Cells.{cell, cell-present}
use distadm.Matrix.Resize.{source_row, source_cell, resize}
use distadm.Matrix.Widen.{has-set_union}
use distadm.Matrix.Resized.{resized, united, new_cell, find-resized, ids-resized, cell-resized}

pub resize-resized :
    (m : Matrix) (id : ℕ) (from_node : Option Node) (pv : ℕ)
    → resize m id from_node pv ≡ resized m (id ∷ []) from_node pv
unfolding resize resized
resize-resized m id from_node pv = refl

-- What a row that is copied from `from_node` holds for `y`; no node, no commands known.
abbrev inherited : Matrix → Option Node → ℕ → ℕ
inherited m none y = 0
inherited m (some n) y = source_cell (some n.matrix_row) (node_offset m y)

abbrev pub known : Matrix → ℕ → Bool
known m x = is_some (find x m)

-- The cells after `id` has joined as a copy of `from_node`.
abbrev pub widened : Matrix → ℕ → Option Node → ℕ → ℕ → Option ℕ
widened m id from_node x y =
    if y == id
    then (if x == id || known m x then some 0 else none)
    else if x == id
    then (if known m y then some (inherited m from_node y) else none)
    else cell m x y

-- A node that the matrix has stands in its keys, and the other way round.
offset-find : (x : ℕ) (m : Matrix) → is_some (node_offset m x) ≡ known m x
unfolding node_offset
offset-find x m = index_from-has 0 x (ids m) ∙ has-find x m

source_row-known :
    (m : Matrix) (from_node : Option Node) (x : ℕ) (n : Node)
    → find x m ≡ some n
    → source_row m from_node (node_offset m x) ≡ some n.matrix_row
unfolding source_row
source_row-known m from_node x n e = elim (Option-cases (node_offset m x)) [
  | inl absent ↦ ground (arith, offset-find x m)
  | inr (k, at_k) ↦ rw (at_k, source_row) (rw (get_or-index x k m at_k) (rw e))
]

cell-absent_column : (m : Matrix) (x y : ℕ) → node_offset m y ≡ none → cell m x y ≡ none
unfolding cell
cell-absent_column m x y e = elim (Option-cases (find x m)) [
  | inl absent ↦ rw (absent, cell)
  | inr (n, found) ↦ rw (found, cell) (rw e)
]

cell-unknown : (m : Matrix) (x y : ℕ) → known m y ≡ false → cell m x y ≡ none
cell-unknown m x y h = elim (Option-cases (node_offset m y)) [
  | inl absent ↦ cell-absent_column m x y absent
  | inr (j, at_j) ↦ ground (arith, offset-find y m)
]

module _ (m : Matrix) (id : ℕ) (from_node : Option Node) (sq : IsSquare m)
    (fresh : find id m ≡ none) where
  id_offset : node_offset m id ≡ none
  id_offset = elim (Option-cases (node_offset m id)) [
    | inl absent ↦ absent
    | inr (k, at_k) ↦ ground (arith, offset-find id m)
  ]

  new_cell-column : (x : ℕ) → new_cell m from_node x id ≡ 0
  new_cell-column x = rw id_offset (elim (Option-cases (source_row m from_node (node_offset m x))) [
    | inl e ↦ rw e
    | inr (row, e) ↦ rw e
  ])

  new_cell-row : (y : ℕ) → new_cell m from_node id y ≡ inherited m from_node y
  unfolding source_row
  new_cell-row y = rw id_offset (elim (Option-cases from_node) [ inl e ↦ rw e | inr (n, e) ↦ rw e ])

  new_cell-known :
      (x y : ℕ) → known m x ≡ true → known m y ≡ true → some (new_cell m from_node x y) ≡ cell m x y
  new_cell-known x y hx hy = elim (Option-cases (find x m)) [
    | inl absent ↦ ground arith
    | inr (n, e) ↦ elim (Option-cases (node_offset m y)) [
      | inl absent ↦ ground (arith, offset-find y m)
      | inr (j, at_j) ↦
          rw (source_row-known m from_node x n e) (rw at_j (sym (cell-present m x y j n sq e at_j)))
    ]
  ]

  abbrev joined : ℕ → Matrix
  joined pv = resized m (id ∷ []) from_node pv

  has-joined : (x : ℕ) → has x (united m (id ∷ [])) ≡ (known m x || (id == x))
  has-joined x = ground (arith, has-set_union x (ids m) (id ∷ []), has-find x m)

  cell-no_row : (pv x y : ℕ) → has x (united m (id ∷ [])) ≡ false → cell (joined pv) x y ≡ none
  unfolding cell
  cell-no_row pv x y h =
      let absent : find x (joined pv) ≡ none = ground (
        arith,
        find-resized m (id ∷ []) from_node pv sq.ordered (omega arith) x,
        has-joined x,
        has-find x m,
      ) in
      rw absent

  cell-no_column : (pv x y : ℕ) → has y (united m (id ∷ [])) ≡ false → cell (joined pv) x y ≡ none
  unfolding cell node_offset
  cell-no_column pv x y h = elim (Option-cases (find x (joined pv))) [
    | inl absent ↦ rw absent
    | inr (n, found) ↦ rw found (
        rw (ids-resized m (id ∷ []) from_node pv sq.ordered (omega arith), node_offset)
          (elim (Option-cases (index_from 0 y (united m (id ∷ [])))) [
            | inl absent ↦ rw absent
            | inr (j, at_j) ↦ ground (arith, index_from-has 0 y (united m (id ∷ [])))
          ]))
  ]

  new_cell-widened :
      (x y : ℕ)
      → (known m x || (id == x)) ≡ true
      → (known m y || (id == y)) ≡ true
      → some (new_cell m from_node x y) ≡ widened m id from_node x y
  new_cell-widened x y hx hy = elim (Bool-cases (y == id)) [
    | inl column ↦
        let zero_cell : new_cell m from_node x y ≡ 0 = rw (==→eq y id column) (new_cell-column x) in
        let inside : (x == id || known m x) ≡ true = ground arith in rw (column, zero_cell, inside)
    | inr other_column ↦ elim (Bool-cases (x == id)) [
      | inl row ↦
          let copied : new_cell m from_node x y ≡ inherited m from_node y =
            rw (==→eq x id row) (new_cell-row y) in
          let inside : known m y ≡ true = ground arith in
          rw (other_column, row, inside) (ap some copied)
      | inr other_row ↦
          rw (other_column, other_row) (new_cell-known x y (ground arith) (ground arith))
    ]
  ]

  widened-outside :
      (x y : ℕ)
      → (((known m x || (id == x)) ≡ false) ⊎ ((known m y || (id == y)) ≡ false))
      → widened m id from_node x y ≡ none
  unfolding cell
  widened-outside x y (inl h) = ground arith
  widened-outside x y (inr h) =
      let unknown : known m y ≡ false = ground arith in
      let other : (y == id) ≡ false = ground arith in
      rw (other, unknown, cell-unknown m x y unknown) (ground arith)

-- When a node that the matrix does not have joins by `resize`, every cell of known nodes stays, the
-- new row is a copy of the row of `from_node` (all zeros without one), the new column is zero in
-- every row, and there are no other cells. The matrix is square and in order.
pub resize_cells :
    (m : Matrix) (id : ℕ) (from_node : Option Node) (pv x y : ℕ)
    → IsSquare m
    → find id m ≡ none
    → cell (resize m id from_node pv) x y ≡ widened m id from_node x y
resize_cells m id from_node pv x y sq fresh =
    let row = has-joined m id from_node sq fresh x in
    let column = has-joined m id from_node sq fresh y in
    rw resize-resized (elim (Bool-cases (known m x || (id == x))) [
      | inl hx ↦ elim (Bool-cases (known m y || (id == y))) [
        | inl hy ↦
            cell-resized m (id ∷ []) from_node pv sq.ordered (omega arith) x y (row ∙ hx)
              (column ∙ hy)
            ∙ new_cell-widened m id from_node sq fresh x y hx hy
        | inr hy ↦
            cell-no_column m id from_node sq fresh pv x y (column ∙ hy)
            ∙ sym (widened-outside m id from_node sq fresh x y (inr hy))
      ]
      | inr hx ↦
          cell-no_row m id from_node sq fresh pv x y (row ∙ hx)
          ∙ sym (widened-outside m id from_node sq fresh x y (inl hx))
    ])
