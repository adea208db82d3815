-- ===== src/Matrix/Resized.antt =====
-- The matrix that Matrix::resize leaves: its keys, its rows and its cells.
use distadm.Prelude.{
  ℕ, ◌-◌, ◌≡◌, refl, ap, true, Option, none, some, List, [], ◌∷◌, map, if◌then◌else◌, arith, inl,
  inr, Bool-cases, Option-cases, ◌∙◌,
}
use distadm.Matrix.{Node, Matrix, ids, find, index_from, node_offset}
use distadm.Matrix.Shape.{Ascends}
use distadm.Matrix.Keys.{or_default, has, has-find, index_from-has, Ascends-ext}
use distadm.Matrix.Cells.{cell, get_elem?-index}
use distadm.Matrix.Resize.{
  set_union, fill_m_idx, source_row, source_cell, united_rows, save_rows, save_versions, with_row,
  with_version,
}
use distadm.Matrix.Widen.{
  set_union-Ascends, has-set_union, fill_m_idx-index, united_rows-map, save_rows-Ascends,
  find-save_rows, save_versions-Ascends, find-save_versions,
}

map-map {ℓ κ} :
    {B : Type ℓ} {C : Type κ} (f : B → C) (g : ℕ → B) (xs : List ℕ)
    → map f (map g xs) ≡ map (λ x. f (g x)) xs
map-map f g [] = refl
map-map f g (x ∷ xs) = ap (◌∷◌ (f (g x))) (map-map f g xs)

abbrev pub united : Matrix → List ℕ → List ℕ
united m rs = set_union (ids m) rs

-- The cell that the united matrix has for `a` and `b`.
abbrev pub new_cell : Matrix → Option Node → ℕ → ℕ → ℕ
new_cell m from_node a b = source_cell (source_row m from_node (node_offset m a)) (node_offset m b)

abbrev new_row : Matrix → Option Node → List ℕ → ℕ → List ℕ
new_row m from_node rs a = map (new_cell m from_node a) (united m rs)

-- `resize_all` after it has sorted the ids
unfoldable pub resized : Matrix → List ℕ → Option Node → ℕ → Matrix
resized m rs from_node pv =
    let m_idx = fill_m_idx (ids m) 0 (united m rs) in
    save_versions rs pv (save_rows (united m rs) (united_rows m from_node m_idx m_idx) m)

module _ (m : Matrix) (rs : List ℕ) (from_node : Option Node) (pv : ℕ) (a : Ascends 0 (ids m))
    (b : Ascends 0 rs) where
  resized-rows :
      resized m rs from_node pv
      ≡ save_versions rs pv (save_rows (united m rs) (map (new_row m from_node rs) (united m rs)) m)
  unfolding resized node_offset
  resized-rows =
      rw (fill_m_idx-index 0 0 (ids m) rs a b) (rw (united_rows-map m from_node) (simp map-map))

  pub find-resized :
      (z : ℕ)
      → find z (resized m rs from_node pv) ≡ (
          if has z rs
          then some (with_version pv (with_row (new_row m from_node rs z) (or_default (find z m))))
          else if has z (ids m)
          then some (with_row (new_row m from_node rs z) (or_default (find z m)))
          else none)
  find-resized z =
      let g = new_row m from_node rs in
      let saved = save_rows (united m rs) (map g (united m rs)) m in
      rw resized-rows (
        ground (
          arith,
          find-save_versions pv 0 z rs saved b (save_rows-Ascends g (united m rs) m a),
          find-save_rows g 0 z (united m rs) m (set_union-Ascends 0 (ids m) rs a b) a,
          has-set_union z (ids m) rs,
          has-find z m,
        ))

  pub resized-Ascends : Ascends 0 (ids (resized m rs from_node pv))
  resized-Ascends =
      rw resized-rows (
        save_versions-Ascends pv rs _
          (save_rows-Ascends (new_row m from_node rs) (united m rs) m a))

  -- The keys are the union.
  pub ids-resized : ids (resized m rs from_node pv) ≡ set_union (ids m) rs
  ids-resized = Ascends-ext 0 0 _ _ resized-Ascends (set_union-Ascends 0 (ids m) rs a b) λ z.
      ground
        (arith, has-find z (resized m rs from_node pv), find-resized z, has-set_union z (ids m) rs)

  -- The row of a known or new node.
  pub row-resized :
      (x : ℕ)
      → has x (united m rs) ≡ true
      → (n : Node) × (find x (resized m rs from_node pv) ≡ some n)
        × (n.matrix_row ≡ new_row m from_node rs x)
  row-resized x h = elim (Bool-cases (has x rs)) [
    | inl fresh ↦
        let n = with_row (new_row m from_node rs x) (or_default (find x m)) in
        (with_version pv n, find-resized x ∙ rw fresh, refl)
    | inr old ↦
        let mine : has x (ids m) ≡ true = ground (arith, has-set_union x (ids m) rs) in
        let n = with_row (new_row m from_node rs x) (or_default (find x m)) in
        (n, find-resized x ∙ rw (old, mine), refl)
  ]

  pub cell-resized :
      (x y : ℕ)
      → has x (united m rs) ≡ true
      → has y (united m rs) ≡ true
      → cell (resized m rs from_node pv) x y ≡ some (new_cell m from_node x y)
  unfolding cell node_offset
  cell-resized x y hx hy =
      let (n, found, row) = row-resized x hx in
      rw found (
        rw (ids-resized, node_offset)
          (elim (Option-cases (index_from 0 y (united m rs))) [
            | inl absent ↦ ground (arith, index_from-has 0 y (united m rs))
            | inr (j, at_j) ↦
                let first : j - 0 ≡ j = omega arith in
                rw at_j (
                  rw row (
                    rw first at
                      (get_elem?-index (new_cell m from_node x) 0 y j (united m rs) at_j)))
          ]))
