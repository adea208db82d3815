-- ===== src/Matrix/Widen.antt =====
-- What Matrix::resize does to the cells.
use distadm.Prelude.{
  ℕ, suc, ◌<◌, ◌≡◌, refl, sym, ap, ap₂, Option, none, some, List, [], ◌∷◌, ltb, map, ◌||◌,
  if◌then◌else◌, arith, inl, inr, Bool-cases, ==_refl, ==_ne, ltb→lt, ◌∙◌,
}
use distadm.Matrix.{Node, Matrix, ids, find, index_from}
use distadm.Matrix.Shape.{Ascends}
use distadm.Matrix.Lookup.{index_from-above}
use distadm.Matrix.Merge.{map-cong}
use distadm.Matrix.Keys.{or_default, has, has-above, find-upsert, upsert-Ascends}
use distadm.Matrix.Resize.{
  set_union, fill_m_idx, source_row, source_cell, united_rows, save_rows, save_versions, with_row,
  with_version,
}

pub set_union-Ascends :
    (lo : ℕ) (xs ys : List ℕ) → Ascends lo xs → Ascends lo ys → Ascends lo (set_union xs ys)
unfolding set_union
set_union-Ascends lo [] ys a b = b
set_union-Ascends lo (x ∷ xs) [] a b = a
set_union-Ascends lo (x ∷ xs) (y ∷ ys) a b = elim (Bool-cases (ltb x y)) [
  | inl lt ↦
      rw (lt, set_union) (a.0, set_union-Ascends (suc x) xs (y ∷ ys) a.1 (ltb→lt x y lt, b.1))
  | inr ge ↦ elim (Bool-cases (ltb y x)) [
    | inl gt ↦
        rw (ge, set_union)
          (rw gt (b.0, set_union-Ascends (suc y) (x ∷ xs) ys (ltb→lt y x gt, a.1) b.1))
    | inr le ↦
        let same : x ≡ y = ground arith in
        rw (ge, set_union) (rw le (a.0, set_union-Ascends (suc x) xs ys a.1 (rw same b.1)))
  ]
]

pub has-set_union : (z : ℕ) (xs ys : List ℕ) → has z (set_union xs ys) ≡ (has z xs || has z ys)
unfolding set_union
has-set_union z [] ys = refl
has-set_union z (x ∷ xs) [] = ground arith
has-set_union z (x ∷ xs) (y ∷ ys) =
    ground (arith, has-set_union z xs (y ∷ ys), has-set_union z (x ∷ xs) ys, has-set_union z xs ys)

fill_m_idx-nil : (k : ℕ) (all : List ℕ) → fill_m_idx [] k all ≡ map (λ x. index_from k x []) all
unfolding fill_m_idx index_from
fill_m_idx-nil k [] = refl
fill_m_idx-nil k (a ∷ all) = ap (◌∷◌ none) (fill_m_idx-nil k all)

module _ (k x : ℕ) (xs all : List ℕ) where
  fill_m_idx-hit :
      Ascends (suc x) all
      → fill_m_idx xs (suc k) all ≡ map (λ z. index_from (suc k) z xs) all
      → fill_m_idx (x ∷ xs) k (x ∷ all) ≡ map (λ z. index_from k z (x ∷ xs)) (x ∷ all)
  unfolding fill_m_idx index_from
  fill_m_idx-hit a ih =
      rw (==_refl x, fill_m_idx)
        (ap (◌∷◌ (some k)) (ih ∙ map-cong _ _ (suc x) all a (λ z h. rw (==_ne x z (omega arith)))))

  fill_m_idx-miss :
      (y : ℕ)
      → y < x
      → Ascends x (x ∷ xs)
      → fill_m_idx (x ∷ xs) k all ≡ map (λ z. index_from k z (x ∷ xs)) all
      → fill_m_idx (x ∷ xs) k (y ∷ all) ≡ map (λ z. index_from k z (x ∷ xs)) (y ∷ all)
  unfolding fill_m_idx
  fill_m_idx-miss y h a ih =
      rw (==_ne x y (omega arith), fill_m_idx)
        (ap₂ ◌∷◌ (sym (index_from-above k y x (x ∷ xs) h a)) ih)

set_union-nil : (xs : List ℕ) → set_union xs [] ≡ xs
unfolding set_union
set_union-nil [] = refl
set_union-nil (x ∷ xs) = refl

-- The loop finds the index of each united id among mine.
pub fill_m_idx-index :
    (lo k : ℕ) (xs ys : List ℕ)
    → Ascends lo xs
    → Ascends lo ys
    → fill_m_idx xs k (set_union xs ys) ≡ map (λ z. index_from k z xs) (set_union xs ys)
unfolding set_union
fill_m_idx-index lo k [] ys a b = fill_m_idx-nil k ys
fill_m_idx-index lo k (x ∷ xs) [] a b =
    fill_m_idx-hit k x xs xs a.1
      (rw (set_union-nil xs) at (fill_m_idx-index (suc x) (suc k) xs [] a.1 tt))
fill_m_idx-index lo k (x ∷ xs) (y ∷ ys) a b = elim (Bool-cases (ltb x y)) [
  | inl lt ↦
      let b' : Ascends (suc x) (y ∷ ys) = (ltb→lt x y lt, b.1) in
      rw (lt, set_union)
        (fill_m_idx-hit k x xs _ (set_union-Ascends (suc x) xs (y ∷ ys) a.1 b')
          (fill_m_idx-index (suc x) (suc k) xs (y ∷ ys) a.1 b'))
  | inr ge ↦ elim (Bool-cases (ltb y x)) [
    | inl gt ↦
        rw (ge, set_union)
          (rw gt (
            fill_m_idx-miss k x xs _ y (ltb→lt y x gt) (omega arith, a.1)
              (fill_m_idx-index (suc y) k (x ∷ xs) ys (ltb→lt y x gt, a.1) b.1)))
    | inr le ↦
        let same : x ≡ y = ground arith in
        let b' : Ascends (suc x) ys = rw same b.1 in
        rw (ge, set_union)
          (rw le (
            fill_m_idx-hit k x xs _ (set_union-Ascends (suc x) xs ys a.1 b')
              (fill_m_idx-index (suc x) (suc k) xs ys a.1 b')))
  ]
]

pub united_rows-map :
    (m : Matrix) (from_node : Option Node) (m_idx is' : List (Option ℕ))
    → united_rows m from_node m_idx is'
      ≡ map (λ i. map (source_cell (source_row m from_node i)) m_idx) is'
unfolding united_rows
united_rows-map m from_node m_idx [] = refl
united_rows-map m from_node m_idx (i ∷ is') =
    ap (◌∷◌ (map (source_cell (source_row m from_node i)) m_idx))
      (united_rows-map m from_node m_idx is')

module _ (g : ℕ → List ℕ) where
  pub save_rows-Ascends :
      (all : List ℕ) (m : Matrix)
      → Ascends 0 (ids m)
      → Ascends 0 (ids (save_rows all (map g all) m))
  unfolding save_rows
  save_rows-Ascends [] m a = a
  save_rows-Ascends (x ∷ all) m a =
      save_rows-Ascends all _ (upsert-Ascends x 0 (with_row (g x)) m (omega arith) a)

  -- Each id of the list gets its row, and other entries stay.
  pub find-save_rows :
      (lo z : ℕ) (all : List ℕ) (m : Matrix)
      → Ascends lo all
      → Ascends 0 (ids m)
      → find z (save_rows all (map g all) m)
        ≡ (if has z all then some (with_row (g z) (or_default (find z m))) else find z m)
  unfolding save_rows
  find-save_rows lo z [] m a b = refl
  find-save_rows lo z (x ∷ all) m a b =
      find-save_rows (suc x) z all _ a.1 (upsert-Ascends x 0 (with_row (g x)) m (omega arith) b)
      ∙ rw (find-upsert x z 0 (with_row (g x)) m b) (ground (arith, has-above x (suc x) all))

pub save_versions-Ascends :
    (pv : ℕ) (all : List ℕ) (m : Matrix)
    → Ascends 0 (ids m)
    → Ascends 0 (ids (save_versions all pv m))
unfolding save_versions
save_versions-Ascends pv [] m a = a
save_versions-Ascends pv (x ∷ all) m a =
    save_versions-Ascends pv all _ (upsert-Ascends x 0 (with_version pv) m (omega arith) a)

pub find-save_versions :
    (pv lo z : ℕ) (all : List ℕ) (m : Matrix)
    → Ascends lo all
    → Ascends 0 (ids m)
    → find z (save_versions all pv m)
      ≡ (if has z all then some (with_version pv (or_default (find z m))) else find z m)
unfolding save_versions
find-save_versions pv lo z [] m a b = refl
find-save_versions pv lo z (x ∷ all) m a b =
    find-save_versions pv (suc x) z all _ a.1
      (upsert-Ascends x 0 (with_version pv) m (omega arith) b)
    ∙ rw (find-upsert x z 0 (with_version pv) m b) (ground (arith, has-above x (suc x) all))
