-- ===== src/Core/Changes.antt =====
-- How a change of the node set reads in my cells and in the numbers of the next commands.
use distadm.Prelude.{
  ℕ, zero, suc, ◌≡◌, ◌≢◌, refl, sym, ap, ◌∙◌, true, Option, none, some, List, [], ◌∷◌, ◌==◌, arith,
  Bool-cases, Option-cases, ==→eq, inl, inr, get_or, get_elem?, erase_at,
}
use distadm.Matrix.{Node, Matrix, ids, find, node_offset, del, erase, modify}
use distadm.Matrix.Shape.{IsSquare}
use distadm.Matrix.Keys.{has, has-find}
use distadm.Matrix.Cells.{cell, cell_at}
use distadm.Matrix.Resize.{resize}
use distadm.Matrix.Resized.{find-resized, row-resized}
use distadm.Matrix.Widen.{has-set_union}
use distadm.Matrix.Grow.{resize-resized}
use distadm.Matrix.Shrink.{find-erase_column, narrow}
use distadm.Core.{Core, row_of, my_row, exec_of, cell_or, my_cell}
use distadm.Core.Rows.{find-modify}

abbrev pub or_zero : Option ℕ → ℕ
or_zero none = 0
or_zero (some x) = x

get_or-zero : (xs : List ℕ) (j : ℕ) → get_or xs j 0 ≡ or_zero (get_elem? xs j)
get_or-zero [] j = refl
get_or-zero (x ∷ xs) zero = refl
get_or-zero (x ∷ xs) (suc j) = get_or-zero xs j

cell_or-cell_at : (n : Option Node) (j : Option ℕ) → cell_or (row_of n) j ≡ or_zero (cell_at n j)
cell_or-cell_at none none = refl
cell_or-cell_at none (some j) = refl
cell_or-cell_at (some n) none = refl
cell_or-cell_at (some n) (some j) = get_or-zero n.matrix_row j

-- My cell, in the terms of the matrix
pub my_cell-cell : (c : Core) (a : ℕ) → my_cell c a ≡ or_zero (cell c.nodes c.my_id a)
unfolding my_cell my_row cell
my_cell-cell c a = cell_or-cell_at (find c.my_id c.nodes) (node_offset c.nodes a)

pub find-erase_other : (id x : ℕ) (m : Matrix) → x ≢ id → find x (erase id m) ≡ find x m
unfolding erase find
find-erase_other id x [] h = refl
find-erase_other id x ((j, n) ∷ m) h = ground (arith, find-erase_other id x m h)

exec_of-narrow : (d : ℕ) (n : Option Node) → exec_of (narrow d n) ≡ exec_of n
exec_of-narrow d none = refl
exec_of-narrow d (some n) = refl

pub exec_of-del :
    (m : Matrix) (id a : ℕ) → a ≢ id → exec_of (find a (del m id)) ≡ exec_of (find a m)
unfolding del
exec_of-del m id a apart = elim (Option-cases (node_offset m id)) [
  | inl absent ↦ rw (absent, del) refl
  | inr (d, at_d) ↦
      rw (at_d, del)
        (ap exec_of (find-erase_column d a (erase id m))
          ∙ exec_of-narrow d (find a (erase id m))
          ∙ ap exec_of (find-erase_other id a m apart))
]

-- A node that joins starts with no command executed, the others go on where they were.
pub exec_of-resize :
    (m : Matrix) (id : ℕ) (from_node : Option Node) (pv a : ℕ)
    → IsSquare m
    → find id m ≡ none
    → exec_of (find a (resize m id from_node pv)) ≡ exec_of (find a m)
exec_of-resize m id from_node pv a sq fresh = rw resize-resized (
    rw (find-resized m (id ∷ []) from_node pv sq.ordered (omega arith) a)
      (elim (Bool-cases (has a (id ∷ []))) [
        | inl new ↦
            let same : id ≡ a = ground (arith, ==→eq id a) in rw new (rw (sym same) (rw fresh refl))
        | inr old ↦ rw old (elim (Option-cases (find a m)) [
          | inl absent ↦ rw absent (rw (has-find a m) (rw absent refl))
          | inr (n, found) ↦ rw found (rw (has-find a m) (rw found refl))
        ])
      ]))

-- A node that leaves takes no other entry with it.
pub HasNode-del :
    (m : Matrix) (id a : ℕ)
    → a ≢ id
    → (n : Node) × (find a m ≡ some n)
    → (n : Node) × (find a (del m id) ≡ some n)
unfolding del
HasNode-del m id a apart h = elim (Option-cases (node_offset m id)) [
  | inl absent ↦ rw (absent, del) h
  | inr (d, at_d) ↦
      rw (at_d, del)
        (
          record h.0 { matrix_row = erase_at d h.0.matrix_row },
          find-erase_column d a (erase id m) ∙ rw (find-erase_other id a m apart) (rw h.1 refl),
        )
]

-- A node that joins leaves the other entries in place.
pub HasNode-resize :
    (m : Matrix) (id : ℕ) (from_node : Option Node) (pv a : ℕ)
    → IsSquare m
    → (n : Node) × (find a m ≡ some n)
    → (n : Node) × (find a (resize m id from_node pv) ≡ some n)
HasNode-resize m id from_node pv a sq h =
    let there : has a (ids m) ≡ true = has-find a m ∙ rw h.1 in
    let (n, found, row) =
      row-resized m (id ∷ []) from_node pv sq.ordered (omega arith) a
        (ground (arith, has-set_union a (ids m) (id ∷ []))) in
    rw resize-resized (n, found)

pub HasNode-modify :
    (id a : ℕ) (f : Node → Node) (m : Matrix)
    → (n : Node) × (find a m ≡ some n)
    → (n : Node) × (find a (modify id f m) ≡ some n)
HasNode-modify id a f m h = elim (Bool-cases (a == id)) [
  | inl same ↦ (f h.0, find-modify id a f m ∙ rw same (rw h.1 refl))
  | inr other ↦ (h.0, find-modify id a f m ∙ rw other h.1)
]
