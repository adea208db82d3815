-- ===== src/Matrix/Square.antt =====
-- Matrix::resize and Matrix::del keep the matrix square and in order.
use distadm.Prelude.{
  ℕ, suc, ◌<◌, ◌≡◌, refl, sym, ap, true, Option, some, [], ◌∷◌, length, ◌==◌, arith, length-map,
  length-erase_at, inl, inr, Bool-cases, Option-cases, ==_refl, ◌∙◌,
}
use distadm.Matrix.{Node, Matrix, ids, find, index_from, node_offset, erase, erase_column, del}
use distadm.Matrix.Shape.{Ascends, Rows, IsSquare}
use distadm.Matrix.Lookup.{index_from-lt}
use distadm.Matrix.Keys.{has, has-find, find-above}
use distadm.Matrix.Merge.{Ascends-weaken}
use distadm.Matrix.Cells.{length-ids}
use distadm.Matrix.Resize.{resize}
use distadm.Matrix.Resized.{resized, united, new_cell, ids-resized, row-resized, resized-Ascends}
use distadm.Matrix.Shrink.{ids-erase_column}
use distadm.Matrix.Grow.{resize-resized}

erase-Ascends : (lo id : ℕ) (m : Matrix) → Ascends lo (ids m) → Ascends lo (ids (erase id m))
unfolding erase
erase-Ascends lo id [] a = tt
erase-Ascends lo id ((j, n) ∷ m) a = elim (Bool-cases (j == id)) [
  | inl hit ↦ rw hit (Ascends-weaken lo (suc j) (ids m) (omega arith) a.1)
  | inr miss ↦ rw miss (a.0, erase-Ascends (suc j) id m a.1)
]

length-erase_column : (d : ℕ) (m : Matrix) → length (erase_column d m) ≡ length m
unfolding erase_column
length-erase_column d [] = refl
length-erase_column d ((j, n) ∷ m) = ap suc (length-erase_column d m)

length-erase :
    (r id d : ℕ) (m : Matrix)
    → index_from r id (ids m) ≡ some d
    → suc (length (erase id m)) ≡ length m
unfolding erase index_from
length-erase r id d [] h = cc
length-erase r id d ((j, n) ∷ m) h = ground (arith, length-erase (suc r) id d m)

Rows-erase : (w id : ℕ) (m : Matrix) → Rows w m → Rows w (erase id m)
unfolding erase
Rows-erase w id [] h = tt
Rows-erase w id ((j, n) ∷ m) h = elim (Bool-cases (j == id)) [
  | inl hit ↦ rw hit h.1
  | inr miss ↦ rw miss (h.0, Rows-erase w id m h.1)
]

Rows-erase_column : (w d : ℕ) (m : Matrix) → d < suc w → Rows (suc w) m → Rows w (erase_column d m)
unfolding erase_column
Rows-erase_column w d [] l h = tt
Rows-erase_column w d ((j, n) ∷ m) l h =
    (omega (arith, length-erase_at d n.matrix_row (rw h.0 l), h.0), Rows-erase_column w d m l h.1)

-- `del` of any node, known or not, keeps a square matrix square.
pub del-IsSquare : (m : Matrix) (id : ℕ) → IsSquare m → IsSquare (del m id)
unfolding del node_offset
del-IsSquare m id sq = elim (Option-cases (index_from 0 id (ids m))) [
  | inl absent ↦ rw (absent, del, node_offset) sq
  | inr (d, at_d) ↦
      let one_less = length-erase 0 id d m at_d in
      let inside = index_from-lt 0 id d (ids m) at_d in
      rw (at_d, del, node_offset)
        (record {
          ordered = rw (ids-erase_column d (erase id m)) (erase-Ascends 0 id m sq.ordered);
          rows = rw (length-erase_column d (erase id m)) (
              Rows-erase_column (length (erase id m)) d (erase id m) (omega (arith, length-ids m))
                (rw one_less (Rows-erase (length m) id m sq.rows)));
        })
]

-- Rows of one width, if every entry that a lookup finds has it.
Rows-found :
    (lo w : ℕ) (m : Matrix)
    → Ascends lo (ids m)
    → ((x : ℕ) (n : Node) → find x m ≡ some n → length n.matrix_row ≡ w)
    → Rows w m
unfolding find
Rows-found lo w [] a h = tt
Rows-found lo w ((j, n) ∷ m) a h = (
  h j n (rw (==_refl j)),
  Rows-found (suc j) w m a.1 λ x n' e. h x n' (ground (arith, find-above j (suc j) m)),
)

module _ (m : Matrix) (id : ℕ) (from_node : Option Node) (pv : ℕ) (sq : IsSquare m) where
  abbrev joined : Matrix
  joined = resized m (id ∷ []) from_node pv

  joined-width : (x : ℕ) (n : Node) → find x joined ≡ some n → length n.matrix_row ≡ length joined
  joined-width x n e =
      let keys = ids-resized m (id ∷ []) from_node pv sq.ordered (omega arith) in
      let member : has x (united m (id ∷ [])) ≡ true = rw (← keys) (has-find x joined ∙ rw e) in
      let (n', found, row) =
        row-resized m (id ∷ []) from_node pv sq.ordered (omega arith) x member in
      let same : n'.matrix_row ≡ n.matrix_row = cc in
      omega (
        arith,
        ap length (sym same ∙ row),
        length-map (new_cell m from_node x) (united m (id ∷ [])),
        ap length keys,
        length-ids joined,
      )

-- `resize` by one node keeps a square matrix square, whether it has the node or not.
pub resize-IsSquare :
    (m : Matrix) (id : ℕ) (from_node : Option Node) (pv : ℕ)
    → IsSquare m
    → IsSquare (resize m id from_node pv)
resize-IsSquare m id from_node pv sq =
    let ordered = resized-Ascends m (id ∷ []) from_node pv sq.ordered (omega arith) in
    rw resize-resized (record {
      ordered = ordered;
      rows = Rows-found 0 _ _ ordered (joined-width m id from_node pv sq);
    })
