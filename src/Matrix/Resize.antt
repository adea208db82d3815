-- ===== src/Matrix/Resize.antt =====
-- Matrix::resize of core.cpp, loop by loop.
use distadm.Prelude.{
  ℕ, suc, true, false, Option, none, some, List, [], ◌∷◌, map, get_or, ltb, ◌==◌, if◌then◌else◌,
}
use distadm.Matrix.{Node, Matrix, ids, find, upsert}

-- std::sort
unfoldable insert_sorted : ℕ → List ℕ → List ℕ
insert_sorted x [] = x ∷ []
insert_sorted x (y ∷ ys) = let rest = insert_sorted x ys in if ltb y x then y ∷ rest else x ∷ y ∷ ys

unfoldable sort : List ℕ → List ℕ
unfolding insert_sorted
sort [] = []
sort (x ∷ xs) = insert_sorted x (sort xs)

-- std::set_union
unfoldable pub set_union : List ℕ → List ℕ → List ℕ
set_union [] ys = ys
set_union (x ∷ xs) [] = x ∷ xs
set_union (x ∷ xs) (y ∷ ys) = elim (ltb x y) [
  | true ↦ x ∷ set_union xs (y ∷ ys)
  | false ↦ elim (ltb y x) [ true ↦ y ∷ set_union (x ∷ xs) ys | false ↦ x ∷ set_union xs ys ]
]

-- The loop that fills `m_idx`: my ids from the m-th on, and the united ids. -1 is `none`.
unfoldable pub fill_m_idx : List ℕ → ℕ → List ℕ → List (Option ℕ)
fill_m_idx my m [] = []
fill_m_idx [] m (a ∷ all) = none ∷ fill_m_idx [] m all
fill_m_idx (x ∷ my) m (a ∷ all) = elim (x == a) [
  | true ↦ some m ∷ fill_m_idx my (suc m) all
  | false ↦ none ∷ fill_m_idx (x ∷ my) m all
]

-- `my_row`: the row of my node, or that of `from_node`, or a null pointer
unfoldable pub source_row : Matrix → Option Node → Option ℕ → Option (List ℕ)
source_row m from_node (some k) = elim (find (get_or (ids m) k 0) m) [
  | none ↦ some []
  | some n ↦ some n.matrix_row
]
source_row m none none = none
source_row m (some n) none = some n.matrix_row

abbrev pub source_cell : Option (List ℕ) → Option ℕ → ℕ
source_cell none j = 0
source_cell (some row) none = 0
source_cell (some row) (some j) = get_or row j 0

-- The rows of the united matrix `uni`
unfoldable pub united_rows :
    Matrix → Option Node → List (Option ℕ) → List (Option ℕ) → List (List ℕ)
unfolding source_row
united_rows m from_node m_idx [] = []
united_rows m from_node m_idx (i ∷ is') =
    map (source_cell (source_row m from_node i)) m_idx ∷ united_rows m from_node m_idx is'

abbrev pub with_row : List ℕ → Node → Node
with_row row n = record n { matrix_row = row }

abbrev pub with_version : ℕ → Node → Node
with_version proto_ver n = record n { proto_ver = proto_ver }

-- `(map<UUID, Node>::operator[])(all_ids[i]).matrix_row = ...` for each i
unfoldable pub save_rows : List ℕ → List (List ℕ) → Matrix → Matrix
unfolding upsert
save_rows [] rows m = m
save_rows (a ∷ all) [] m = m
save_rows (a ∷ all) (row ∷ rows) m = save_rows all rows (upsert a (with_row row) m)

unfoldable pub save_versions : List ℕ → ℕ → Matrix → Matrix
unfolding upsert
save_versions [] proto_ver m = m
save_versions (id ∷ ids') proto_ver m =
    save_versions ids' proto_ver (upsert id (with_version proto_ver) m)

-- Matrix::resize for a vector of nodes
unfoldable resize_all : Matrix → List ℕ → Option Node → ℕ → Matrix
unfolding sort set_union fill_m_idx united_rows save_rows save_versions
resize_all m remote_ids from_node proto_ver =
    let sorted = sort remote_ids in
    let all_ids = set_union (ids m) sorted in
    let m_idx = fill_m_idx (ids m) 0 all_ids in
    save_versions sorted proto_ver (save_rows all_ids (united_rows m from_node m_idx m_idx) m)

-- Matrix::resize for one node
unfoldable pub resize : Matrix → ℕ → Option Node → ℕ → Matrix
unfolding resize_all
resize m remote_id from_node proto_ver = resize_all m (remote_id ∷ []) from_node proto_ver
