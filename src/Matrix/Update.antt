-- ===== src/Matrix/Update.antt =====
-- Matrix::update of core.cpp, loop by loop.
use distadm.Prelude.{
  ℕ, suc, ◌+◌, ◌-◌, Bool, true, false, Option, none, some, List, [], ◌∷◌, ltb, ◌==◌, ◌||◌,
  if◌then◌else◌, get_or, drop, max,
}
use distadm.Matrix.{Node, Matrix, ids}

-- `while (r < R && remote_ids[r] < my_ids[m]) r++;`
unfoldable pub skip_less : ℕ → List ℕ → ℕ → List ℕ × ℕ
skip_less x [] r = ([], r)
skip_less x (y ∷ ys) r =
    let further = skip_less x ys (suc r) in if ltb y x then further else (y ∷ ys, r)

-- The loops that fill `r_idx`: my ids from the m-th on, the remote ids from the r-th on. -1UL is
-- `none`; what the last loop pads with -1UL is the case of no remote id left.
unfoldable pub fill_r_idx : List ℕ → List ℕ → ℕ → List (Option ℕ)
unfolding skip_less
fill_r_idx [] rs r = []
fill_r_idx (m ∷ ms) rs r =
    let (rs', r') = skip_less m rs r in
    elim rs' [
      | [] ↦ none ∷ fill_r_idx ms [] r'
      | y ∷ ys ↦ elim (y == m) [
        | true ↦ some r' ∷ fill_r_idx ms ys (suc r')
        | false ↦ none ∷ fill_r_idx ms (y ∷ ys) r'
      ]
    ]

-- The loop over i: my row, and whether a cell of it grew.
unfoldable pub merge_row : List (Option ℕ) → List ℕ → List ℕ → List ℕ
merge_row [] row remote = row
merge_row (k ∷ ks) [] remote = []
merge_row (none ∷ ks) (x ∷ xs) remote = x ∷ merge_row ks xs remote
merge_row (some k ∷ ks) (x ∷ xs) remote = max x (get_or remote k 0) ∷ merge_row ks xs remote

unfoldable pub row_grew : List (Option ℕ) → List ℕ → List ℕ → Bool
row_grew [] row remote = false
row_grew (k ∷ ks) [] remote = false
row_grew (none ∷ ks) (x ∷ xs) remote = row_grew ks xs remote
row_grew (some k ∷ ks) (x ∷ xs) remote = ltb x (get_or remote k 0) || row_grew ks xs remote

-- What one round of the last loop does to my node `n`, for the remote node `rn`.
unfoldable pub merge_node : List (Option ℕ) → Node → Node → Node
merge_node r_idx n rn = record n {
  matrix_row = merge_row r_idx n.matrix_row rn.matrix_row;
  netmsgcnt = max n.netmsgcnt rn.netmsgcnt;
  proto_ver = max n.proto_ver rn.proto_ver;
}

unfoldable pub node_grew : List (Option ℕ) → Node → Node → Bool
node_grew r_idx n rn = row_grew r_idx n.matrix_row rn.matrix_row || ltb n.netmsgcnt rn.netmsgcnt

-- The last loop: `js` are the entries of `r_idx` from the m-th on, `rptr` is the iterator into the
-- source and `r` its index. A read past the end of the source, which the shape of `r_idx` excludes,
-- changes nothing.
unfoldable pub merge_nodes : List (Option ℕ) → List (Option ℕ) → Matrix → Matrix → ℕ → Matrix × Bool
merge_nodes r_idx js [] rptr r = ([], false)
merge_nodes r_idx [] (e ∷ m) rptr r = (e ∷ m, false)
merge_nodes r_idx (none ∷ js) (e ∷ m) rptr r =
    let (m', updated) = merge_nodes r_idx js m rptr r in (e ∷ m', updated)
merge_nodes r_idx (some k ∷ js) ((id, n) ∷ m) rptr r =
    let rptr' = drop (k - r) rptr in
    let (m', updated) = merge_nodes r_idx js m rptr' (r + (k - r)) in
    elim rptr' [
      | [] ↦ ((id, n) ∷ m', updated)
      | (rid, rn) ∷ further ↦ ((id, merge_node r_idx n rn) ∷ m', node_grew r_idx n rn || updated)
    ]

-- Matrix::update: the matrix, and whether it changed
unfoldable pub update : Matrix → Matrix → Matrix × Bool
unfolding fill_r_idx merge_nodes
update m src = let r_idx = fill_r_idx (ids m) (ids src) 0 in merge_nodes r_idx r_idx m src 0
