-- ===== src/Matrix/Merge.antt =====
-- Matrix::update finds the cells by one merge of the two key lists and one pass of an iterator. Here
-- it is proved equal to the plain definition, which looks each key up.
use distadm.Prelude.{
  ℕ, suc, ◌+◌, ◌-◌, ◌≤◌, ◌≡◌, ◌≢◌, refl, sym, ap, ap₂, Bool, false, Option, none, some, List, [],
  ◌∷◌, ltb, ◌==◌, ◌||◌, arith, drop, map, inl, inr, Bool-cases, Option-cases, ==→eq, ==_ne,
  ltb-false, ◌∙◌,
}
use distadm.Matrix.{Matrix, ids, find, index_from, node_offset}
use distadm.Matrix.Shape.{Ascends}
use distadm.Matrix.Lookup.{index_from-above, index_from_mono, find-none, find-at, drop-drop}
use distadm.Matrix.Update.{skip_less, fill_r_idx, merge_node, node_grew, merge_nodes, update}

pub Ascends-weaken : (lo hi : ℕ) (xs : List ℕ) → lo ≤ hi → Ascends hi xs → Ascends lo xs
Ascends-weaken lo hi [] h a = tt
Ascends-weaken lo hi (x ∷ xs) h a = (omega arith, a.1)

-- What the inner loop skips has none of the keys from `x` on.
skip_less-index :
    (x z : ℕ) (ys : List ℕ) (r : ℕ)
    → x ≤ z
    → index_from r z ys ≡ index_from (skip_less x ys r).1 z (skip_less x ys r).0
unfolding skip_less index_from
skip_less-index x z [] r h = refl
skip_less-index x z (y ∷ ys) r h = ground (arith, skip_less-index x z ys (suc r) h)

skip_less-Ascends :
    (x lo : ℕ) (ys : List ℕ) (r : ℕ) → Ascends lo ys → Ascends x (skip_less x ys r).0
unfolding skip_less
skip_less-Ascends x lo [] r a = tt
skip_less-Ascends x lo (y ∷ ys) r a = elim (Bool-cases (ltb y x)) [
  | inl below ↦ rw below (skip_less-Ascends x (suc y) ys (suc r) a.1)
  | inr stop ↦ rw stop (ltb-false y x stop, a.1)
]

abbrev lookups : ℕ → List ℕ → List ℕ → List (Option ℕ)
lookups r rs = map (λ x. index_from r x rs)

pub map-cong {ℓ} :
    {B : Type ℓ} (f g : ℕ → B) (lo : ℕ) (xs : List ℕ)
    → Ascends lo xs
    → ((z : ℕ) → lo ≤ z → f z ≡ g z)
    → map f xs ≡ map g xs
map-cong f g lo [] a h = refl
map-cong f g lo (x ∷ xs) a h =
    ap₂ ◌∷◌ (h x a.0) (map-cong f g (suc x) xs a.1 (λ z b. h z (omega arith)))

module _ (m : ℕ) (ms rs : List ℕ) (r : ℕ) (a : Ascends (suc m) ms)
    (ih : (lo : ℕ) (rs' : List ℕ) (r' : ℕ)
      → Ascends lo rs'
      → fill_r_idx ms rs' r' ≡ lookups r' rs' ms) where
  fill_r_idx_round :
      (rs' : List ℕ)
      → (skip_less m rs r).0 ≡ rs'
      → Ascends m rs'
      → fill_r_idx (m ∷ ms) rs r ≡ lookups (skip_less m rs r).1 rs' (m ∷ ms)
  unfolding fill_r_idx index_from
  fill_r_idx_round [] e b = rw (e, fill_r_idx) (ap (◌∷◌ none) (ih 0 [] _ tt))
  fill_r_idx_round (y ∷ ys) e b = elim (Bool-cases (y == m)) [
    | inl hit ↦
        rw (e, fill_r_idx)
          (rw hit (
            ap (◌∷◌ (some (skip_less m rs r).1)) (
              ih (suc y) ys _ b.1
              ∙ map-cong _ _ (suc m) ms a (λ z h. rw (==_ne y z (omega (arith, ==→eq y m hit)))))))
    | inr miss ↦
        let away : y ≢ m = λ q. ground (arith, ==_ne y m) in
        rw (e, fill_r_idx)
          (rw miss (
            ap₂ ◌∷◌ (sym (index_from-above _ m (suc y) ys (omega arith) b.1))
              (ih y (y ∷ ys) _ (omega arith, b.1))))
  ]

-- The merge of the two ascending key lists finds the index of each key.
fill_r_idx-lookups :
    (ms : List ℕ) (lo lo' : ℕ) (rs : List ℕ) (r : ℕ)
    → Ascends lo ms
    → Ascends lo' rs
    → fill_r_idx ms rs r ≡ lookups r rs ms
unfolding fill_r_idx
fill_r_idx-lookups [] lo lo' rs r a b = refl
fill_r_idx-lookups (m ∷ ms) lo lo' rs r a b =
    fill_r_idx_round m ms rs r a.1
      (λ lo₁ rs₁ r₁ b₁. fill_r_idx-lookups ms (suc m) lo₁ rs₁ r₁ a.1 b₁) (skip_less m rs r).0 refl
      (skip_less-Ascends m lo' rs r b)
    ∙ map-cong _ _ m (m ∷ ms) (omega arith, a.1) (λ z h. sym (skip_less-index m z rs r h))

-- The plain definition of an update: each of my nodes looks itself up in the source.
unfoldable pub join_nodes : List (Option ℕ) → Matrix → Matrix → Matrix × Bool
join_nodes r_idx src [] = ([], false)
join_nodes r_idx src ((id, n) ∷ m) =
    let (m', updated) = join_nodes r_idx src m in
    elim (find id src) [
      | none ↦ ((id, n) ∷ m', updated)
      | some rn ↦ ((id, merge_node r_idx n rn) ∷ m', node_grew r_idx n rn || updated)
    ]

unfoldable pub join : Matrix → Matrix → Matrix × Bool
join m src = join_nodes (map (node_offset src) (ids m)) src m

module _ (r_idx : List (Option ℕ)) (src : Matrix) (ordered : Ascends 0 (ids src)) where
  -- The iterator stands no further than any key that is still to come.
  abbrev Behind : ℕ → ℕ → Type 0
  Behind lo r = (z k : ℕ) → lo ≤ z → index_from 0 z (ids src) ≡ some k → r ≤ k

  merge_nodes-join_nodes :
      (m : Matrix) (lo r : ℕ)
      → Ascends lo (ids m)
      → Behind lo r
      → merge_nodes r_idx (lookups 0 (ids src) (ids m)) m (drop r src) r ≡ join_nodes r_idx src m
  unfolding merge_nodes join_nodes
  merge_nodes-join_nodes [] lo r a b = refl
  merge_nodes-join_nodes ((id, n) ∷ m) lo r a b = elim (Option-cases (index_from 0 id (ids src))) [
    | inl absent ↦
        let ih = merge_nodes-join_nodes m (suc id) r a.1 (λ z k h. b z k (omega arith)) in
        rw absent (rw (find-none 0 id src absent, join_nodes) (ap (λ t. ((id, n) ∷ t.0, t.1)) ih))
    | inr (k, at_k) ↦
        let (rn, found, there) = find-at id k src at_k in
        let near : r ≤ k = b id k a.0 at_k in
        let reached : drop (k - r) (drop r src) ≡ drop k src =
          drop-drop r (k - r) k src (omega arith) in
        let count : r + (k - r) ≡ k = omega arith in
        let ih =
          merge_nodes-join_nodes m (suc id) k a.1
            (λ z j h q. omega (arith, index_from_mono 0 id z k j 0 (ids src) ordered h at_k q)) in
        rw at_k (
          rw (found, join_nodes)
            (rw (reached ∙ there, merge_nodes)
              (rw (reached, count)
                (ap (λ t. ((id, merge_node r_idx n rn) ∷ t.0, node_grew r_idx n rn || t.1)) ih))))
  ]

-- On matrices whose keys ascend, as those of a `std::map` do, `Matrix::update` with its merged index
-- array and its single pass over the source gives the matrix and the changed-flag of the plain
-- definition, in which every node and every column looks its own key up in the source.
pub update-join :
    (m src : Matrix) → Ascends 0 (ids m) → Ascends 0 (ids src) → update m src ≡ join m src
unfolding update join node_offset
update-join m src a b =
    rw (fill_r_idx-lookups (ids m) 0 0 (ids src) 0 a b)
      (merge_nodes-join_nodes (lookups 0 (ids src) (ids m)) src b m 0 0 a (λ z k h q. omega arith))
