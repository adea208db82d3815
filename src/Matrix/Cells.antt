-- ===== src/Matrix/Cells.antt =====
-- What Matrix::update does to the cell of a row and a column, each named by its node.
use distadm.Prelude.{
  ℕ, zero, suc, ◌-◌, ◌<◌, ◌≡◌, refl, sym, ap, Option, none, some, List, [], ◌∷◌, length, ◌==◌,
  arith, get_or, get_elem?, get_or-get_elem?, max, map, inl, inr, Bool-cases, Option-cases, ==→eq,
}
use distadm.Matrix.{Node, Matrix, ids, find, index_from, node_offset}
use distadm.Matrix.Shape.{Rows, IsSquare}
use distadm.Matrix.Lookup.{index_from-ge, index_from-lt}
use distadm.Matrix.Update.{merge_row, merge_node, update}
use distadm.Matrix.Merge.{join_nodes, join, update-join}

abbrev pub cell_at : Option Node → Option ℕ → Option ℕ
cell_at none j = none
cell_at (some n) none = none
cell_at (some n) (some j) = get_elem? n.matrix_row j

-- What the matrix says that node `a` knows of the commands of node `b`.
unfoldable pub cell : Matrix → ℕ → ℕ → Option ℕ
cell m a b = cell_at (find a m) (node_offset m b)

-- My cell after an update, from mine and the source's.
abbrev pub join_cell : Option ℕ → Option ℕ → Option ℕ
join_cell none theirs = none
join_cell (some x) none = some x
join_cell (some x) (some y) = some (max x y)

pub length-ids : (m : Matrix) → length (ids m) ≡ length m
length-ids [] = refl
length-ids ((id, n) ∷ m) = ap suc (length-ids m)

pub get_elem?-index {ℓ} :
    {B : Type ℓ} (f : ℕ → B) (r x k : ℕ) (ys : List ℕ)
    → index_from r x ys ≡ some k
    → get_elem? (map f ys) (k - r) ≡ some (f x)
unfolding index_from
get_elem?-index f r x k [] h = cc
get_elem?-index f r x k (y ∷ ys) h = elim (Bool-cases (y == x)) [
  | inl hit ↦ let here : k - r ≡ 0 = ground arith in rw here (ap (λ t. some (f t)) (==→eq y x hit))
  | inr miss ↦
      let later : index_from (suc r) x ys ≡ some k = rw miss at h in
      let step : k - r ≡ suc (k - suc r) = omega (arith, index_from-ge (suc r) x k ys later) in
      rw step (get_elem?-index f (suc r) x k ys later)
]

pub find-Rows :
    (w a : ℕ) (m : Matrix) (n : Node) → Rows w m → find a m ≡ some n → length n.matrix_row ≡ w
unfolding find
find-Rows w a [] n h e = cc
find-Rows w a ((j, n') ∷ m) n h e = elim (Bool-cases (j == a)) [
  | inl hit ↦ let same : some n' ≡ some n = rw hit at e in ground arith
  | inr miss ↦ find-Rows w a m n h.1 (rw miss at e)
]

pub ids-join_nodes : (ks : List (Option ℕ)) (src m : Matrix) → ids (join_nodes ks src m).0 ≡ ids m
unfolding join_nodes
ids-join_nodes ks src [] = refl
ids-join_nodes ks src ((id, n) ∷ m) = ground (arith, ids-join_nodes ks src m)

pub length-merge_row :
    (ks : List (Option ℕ)) (xs ys : List ℕ) → length (merge_row ks xs ys) ≡ length xs
unfolding merge_row
length-merge_row [] xs ys = refl
length-merge_row (k ∷ ks) [] ys = refl
length-merge_row (none ∷ ks) (x ∷ xs) ys = ap suc (length-merge_row ks xs ys)
length-merge_row (some k ∷ ks) (x ∷ xs) ys = ap suc (length-merge_row ks xs ys)

-- What one cell of a merged row is.
abbrev merged : Option ℕ → List ℕ → ℕ → ℕ
merged none remote x = x
merged (some k) remote x = max x (get_or remote k 0)

get_elem?-merge_row :
    (ks : List (Option ℕ)) (xs ys : List ℕ) (j : ℕ) (k : Option ℕ)
    → get_elem? ks j ≡ some k
    → j < length xs
    → get_elem? (merge_row ks xs ys) j ≡ some (merged k ys (get_or xs j 0))
unfolding merge_row
get_elem?-merge_row [] xs ys j k h l = cc
get_elem?-merge_row (k' ∷ ks) [] ys j k h l = absurd (omega arith)
get_elem?-merge_row (none ∷ ks) (x ∷ xs) ys zero k h l = ground arith
get_elem?-merge_row (some k' ∷ ks) (x ∷ xs) ys zero k h l = ground arith
get_elem?-merge_row (none ∷ ks) (x ∷ xs) ys (suc j) k h l =
    get_elem?-merge_row ks xs ys j k h (omega arith)
get_elem?-merge_row (some k' ∷ ks) (x ∷ xs) ys (suc j) k h l =
    get_elem?-merge_row ks xs ys j k h (omega arith)

-- My entry for `a` after the update.
abbrev pub merged_entry : List (Option ℕ) → Option Node → Option Node → Option Node
merged_entry ks none theirs = none
merged_entry ks (some n) none = some n
merged_entry ks (some n) (some rn) = some (merge_node ks n rn)

pub find-join_nodes :
    (ks : List (Option ℕ)) (src m : Matrix) (a : ℕ)
    → find a (join_nodes ks src m).0 ≡ merged_entry ks (find a m) (find a src)
unfolding join_nodes find
find-join_nodes ks src [] a = refl
find-join_nodes ks src ((id, n) ∷ m) a = elim (Bool-cases (id == a)) [
  | inl hit ↦ elim (Option-cases (find id src)) [
    | inl absent ↦
        let absent' : find a src ≡ none = rw (==→eq id a hit) at absent in
        rw (absent, join_nodes) (rw (hit, find) (rw absent'))
    | inr (rn, found) ↦
        let found' : find a src ≡ some rn = rw (==→eq id a hit) at found in
        rw (found, join_nodes) (rw (hit, find) (rw found'))
  ]
  | inr miss ↦ elim (Option-cases (find id src)) [
    | inl absent ↦ rw (absent, join_nodes) (rw (miss, find) (find-join_nodes ks src m a))
    | inr (rn, found) ↦ rw (found, join_nodes) (rw (miss, find) (find-join_nodes ks src m a))
  ]
]

join_cell-none : (x : Option ℕ) → join_cell x none ≡ x
join_cell-none none = refl
join_cell-none (some x) = refl

-- The column of `b` has a cell in every row.
pub get_elem?-row :
    (m : Matrix) (a b j : ℕ) (n : Node)
    → IsSquare m
    → find a m ≡ some n
    → node_offset m b ≡ some j
    → j < length n.matrix_row
unfolding node_offset
get_elem?-row m a b j n sq e at =
    omega
      (arith, find-Rows (length m) a m n sq.rows e, index_from-lt 0 b j (ids m) at, length-ids m)

offsets-at :
    (m src : Matrix) (b j : ℕ)
    → node_offset m b ≡ some j
    → get_elem? (map (node_offset src) (ids m)) j ≡ some (node_offset src b)
unfolding node_offset
offsets-at m src b j at =
    let first : j - 0 ≡ j = omega arith in
    rw first at (get_elem?-index (node_offset src) 0 b j (ids m) at)

-- A square matrix has a cell where it has the row and the column.
pub cell-present :
    (m : Matrix) (a b j : ℕ) (n : Node)
    → IsSquare m
    → find a m ≡ some n
    → node_offset m b ≡ some j
    → cell m a b ≡ some (get_or n.matrix_row j 0)
unfolding cell
cell-present m a b j n sq e at =
    rw (e, cell) (rw at (get_or-get_elem? n.matrix_row j 0 (get_elem?-row m a b j n sq e at)))

module _ (m src : Matrix) (a b : ℕ) (sq : IsSquare m) (sq' : IsSquare src) where
  cell_at-merge_node :
      (n rn : Node) (j : ℕ)
      → find a m ≡ some n
      → find a src ≡ some rn
      → node_offset m b ≡ some j
      → cell_at (some (merge_node (map (node_offset src) (ids m)) n rn)) (some j)
        ≡ join_cell (cell_at (some n) (some j)) (cell_at (some rn) (node_offset src b))
  unfolding merge_node
  cell_at-merge_node n rn j e e' at =
      let inside = get_elem?-row m a b j n sq e at in
      rw (get_elem?-merge_row _ n.matrix_row rn.matrix_row j _ (offsets-at m src b j at) inside) (
        rw (get_or-get_elem? n.matrix_row j 0 inside) (elim (Option-cases (node_offset src b)) [
          | inl absent ↦ rw absent
          | inr (k, at_k) ↦
              rw at_k
                (rw (get_or-get_elem? rn.matrix_row k 0 (get_elem?-row src a b k rn sq' e' at_k)))
        ]))

  cell_at-merged_entry :
      cell_at
        (merged_entry (map (node_offset src) (ids m)) (find a m) (find a src))
        (node_offset m b)
      ≡ join_cell (cell m a b) (cell src a b)
  unfolding cell
  cell_at-merged_entry = elim (Option-cases (find a m)) [
    | inl absent ↦ rw (absent, cell)
    | inr (n, e) ↦ elim (Option-cases (find a src)) [
      | inl absent ↦ rw (e, cell) (rw absent (sym (join_cell-none _)))
      | inr (rn, e') ↦ elim (Option-cases (node_offset m b)) [
        | inl nowhere ↦ rw (e, cell) (rw e' (rw nowhere))
        | inr (j, at) ↦ rw e (rw e' (rw at (cell_at-merge_node n rn j e e' at)))
      ]
    ]
  ]

  -- After `update`, the cell of every row and column is the larger of mine and the source's where
  -- the source has both nodes, and is mine where it has not; no cell is added. This needs the two
  -- matrices to be square and in order.
  pub cell-update : cell (update m src).0 a b ≡ join_cell (cell m a b) (cell src a b)
  unfolding join node_offset cell
  cell-update = rw (update-join m src sq.ordered sq'.ordered) (
      rw (find-join_nodes _ src m a)
        (rw (ids-join_nodes (map (node_offset src) (ids m)) src m) cell_at-merged_entry))
