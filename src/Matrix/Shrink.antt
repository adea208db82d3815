-- ===== src/Matrix/Shrink.antt =====
-- A node leaves: what Matrix::del does to the cells.
use distadm.Prelude.{
  ℕ, zero, suc, ◌-◌, ◌≡◌, ◌≢◌, refl, sym, ap, true, false, Option, none, some, List, [], ◌∷◌, ltb,
  ◌==◌, ◌||◌, if◌then◌else◌, arith, get_elem?, erase_at, inl, inr, Bool-cases, Option-cases, ==→eq,
  ==_refl, ==_ne, ◌∙◌,
}
use distadm.Matrix.{Node, Matrix, ids, find, index_from, node_offset, erase, erase_column, del}
use distadm.Matrix.Shape.{Ascends, IsSquare}
use distadm.Matrix.Lookup.{find-none, index_from-ge, get_or-index}
use distadm.Matrix.Keys.{has-find, index_from-has, find-above}
use distadm.Matrix.Cells.{cell}

abbrev pub narrow : ℕ → Option Node → Option Node
narrow d none = none
narrow d (some n) = some (record n { matrix_row = erase_at d n.matrix_row })

-- The index of another key after the key at `d` is gone.
abbrev shift : ℕ → Option ℕ → Option ℕ
shift d none = none
shift d (some k) = some (if ltb k d then k else k - 1)

pub ids-erase_column : (d : ℕ) (m : Matrix) → ids (erase_column d m) ≡ ids m
unfolding erase_column
ids-erase_column d [] = refl
ids-erase_column d ((j, n) ∷ m) = ap (◌∷◌ j) (ids-erase_column d m)

pub find-erase_column : (d x : ℕ) (m : Matrix) → find x (erase_column d m) ≡ narrow d (find x m)
unfolding erase_column find
find-erase_column d x [] = refl
find-erase_column d x ((j, n) ∷ m) = elim (Bool-cases (j == x)) [
  | inl hit ↦ rw hit
  | inr miss ↦ rw miss (find-erase_column d x m)
]

find-erase :
    (lo id x : ℕ) (m : Matrix)
    → Ascends lo (ids m)
    → find x (erase id m) ≡ (if x == id then none else find x m)
unfolding erase find
find-erase lo id x [] a = ground arith
find-erase lo id x ((j, n) ∷ m) a =
    ground (arith, find-erase (suc j) id x m a.1, find-above id (suc j) m)

abbrev later : Option ℕ → Option ℕ
later none = none
later (some k) = some (suc k)

index_from-suc : (r x : ℕ) (ys : List ℕ) → index_from (suc r) x ys ≡ later (index_from r x ys)
unfolding index_from
index_from-suc r x [] = refl
index_from-suc r x (y ∷ ys) = ground (arith, index_from-suc (suc r) x ys)

shift-index_from : (r x : ℕ) (ys : List ℕ) → index_from r x ys ≡ shift r (index_from (suc r) x ys)
shift-index_from r x ys = elim (Option-cases (index_from r x ys)) [
  | inl absent ↦ ground (arith, index_from-suc r x ys)
  | inr (k, at_k) ↦ ground (arith, index_from-suc r x ys, index_from-ge r x k ys at_k)
]

index_from-erase :
    (r lo id x d : ℕ) (m : Matrix)
    → Ascends lo (ids m)
    → x ≢ id
    → index_from r id (ids m) ≡ some d
    → index_from r x (ids (erase id m)) ≡ shift d (index_from r x (ids m))
unfolding erase index_from
index_from-erase r lo id x d [] a h e = cc
index_from-erase r lo id x d ((j, n) ∷ m) a h e = elim (Bool-cases (j == id)) [
  | inl hit ↦
      let here : d ≡ r = ground arith in
      let apart : (j == x) ≡ false = ground arith in
      rw (hit, erase) (rw apart (rw here (shift-index_from r x (ids m))))
  | inr miss ↦
      let e' : index_from (suc r) id (ids m) ≡ some d = rw miss at e in
      rw (miss, erase)
        (ground (
          arith,
          index_from-ge (suc r) id d (ids m) e',
          index_from-erase (suc r) (suc j) id x d m a.1 h e',
        ))
]

get_elem?-erase_at {ℓ} :
    {A : Type ℓ} (d k : ℕ) (xs : List A)
    → k ≢ d
    → get_elem? (erase_at d xs) (if ltb k d then k else k - 1) ≡ get_elem? xs k
get_elem?-erase_at d k [] h = refl
get_elem?-erase_at zero zero (x ∷ xs) h = absurd (h refl)
get_elem?-erase_at zero (suc k) (x ∷ xs) h =
    let no_less : ltb (suc k) 0 ≡ false = ground arith in
    let prev : suc k - 1 ≡ k = omega arith in rw (no_less, prev)
get_elem?-erase_at (suc d) zero (x ∷ xs) h =
    let less : ltb 0 (suc d) ≡ true = ground arith in rw less
get_elem?-erase_at (suc d) (suc k) (x ∷ xs) h =
    let ih = get_elem?-erase_at d k xs (λ e. h (ap suc e)) in
    elim (Bool-cases (ltb k d)) [
      | inl lt ↦ let lt' : ltb (suc k) (suc d) ≡ true = ground arith in rw lt' (rw lt at ih)
      | inr ge ↦
          let ge' : ltb (suc k) (suc d) ≡ false = ground arith in
          let prev : suc k - 1 ≡ suc (k - 1) = ground arith in rw (ge', prev) (rw ge at ih)
    ]

no_offset : (x : ℕ) (m : Matrix) → find x m ≡ none → node_offset m x ≡ none
unfolding node_offset
no_offset x m h = elim (Option-cases (index_from 0 x (ids m))) [
  | inl absent ↦ absent
  | inr (k, at_k) ↦ ground (arith, index_from-has 0 x (ids m), has-find x m)
]

-- A node that the matrix does not have has no cells.
cell-unknown :
    (m : Matrix) (id x y : ℕ)
    → node_offset m id ≡ none
    → cell m x y ≡ (if x == id || y == id then none else cell m x y)
unfolding cell node_offset
cell-unknown m id x y h =
    let absent : find id m ≡ none = find-none 0 id m h in
    elim (Bool-cases (x == id)) [
      | inl row ↦ let absent' : find x m ≡ none = rw (==→eq x id row) absent in rw row (rw absent')
      | inr other_row ↦ elim (Bool-cases (y == id)) [
        | inl column ↦
            let nowhere : node_offset m y ≡ none = rw (==→eq y id column) h in
            rw (other_row, column)
              (elim (Option-cases (find x m)) [
                | inl gone ↦ rw gone
                | inr (n, found) ↦ rw found (rw nowhere)
              ])
        | inr other_column ↦ rw (other_row, other_column)
      ]
    ]

module _ (m : Matrix) (id d : ℕ) (sq : IsSquare m) (at_d : node_offset m id ≡ some d) where
  abbrev shrunk : Matrix
  shrunk = erase_column d (erase id m)

  cell-shrunk : (x y : ℕ) → x ≢ id → y ≢ id → cell shrunk x y ≡ cell m x y
  unfolding cell node_offset
  cell-shrunk x y hx hy =
      let row : find x shrunk ≡ narrow d (find x m) =
        find-erase_column d x (erase id m)
        ∙ rw (find-erase 0 id x m sq.ordered) (rw (==_ne x id hx)) in
      let column : index_from 0 y (ids shrunk) ≡ shift d (index_from 0 y (ids m)) =
        ap (index_from 0 y) (ids-erase_column d (erase id m))
        ∙ index_from-erase 0 0 id y d m sq.ordered hy at_d in
      rw (row, cell)
        (rw (column, node_offset)
          (elim (Option-cases (find x m)) [
            | inl absent ↦ rw absent
            | inr (n, found) ↦ elim (Option-cases (index_from 0 y (ids m))) [
              | inl absent ↦ rw (found, absent)
              | inr (k, at_k) ↦
                  rw (found, at_k)
                    (get_elem?-erase_at d k n.matrix_row
                      (λ e. hy (sym (get_or-index y k m at_k) ∙ rw e (get_or-index id d m at_d))))
            ]
          ]))

  cell-shrunk_row : (y : ℕ) → cell shrunk id y ≡ none
  unfolding cell
  cell-shrunk_row y =
      let gone : find id shrunk ≡ none =
        find-erase_column d id (erase id m)
        ∙ rw (find-erase 0 id id m sq.ordered) (rw (==_refl id)) in
      rw gone

  cell-shrunk_column : (x : ℕ) → cell shrunk x id ≡ none
  unfolding cell
  cell-shrunk_column x =
      let gone : find id shrunk ≡ none =
        find-erase_column d id (erase id m)
        ∙ rw (find-erase 0 id id m sq.ordered) (rw (==_refl id)) in
      let nowhere : node_offset shrunk id ≡ none = no_offset id shrunk gone in
      rw nowhere
        (elim (Option-cases (find x shrunk)) [ inl absent ↦ rw absent | inr (n, found) ↦ rw found ])

-- `del` removes the row and the column of its node and leaves every other cell; of a node that the
-- matrix does not have it removes nothing. The matrix is square and in order.
pub cell-del :
    (m : Matrix) (id x y : ℕ)
    → IsSquare m
    → cell (del m id) x y ≡ (if x == id || y == id then none else cell m x y)
unfolding del
cell-del m id x y sq = elim (Option-cases (node_offset m id)) [
  | inl absent ↦ rw (absent, del) (cell-unknown m id x y absent)
  | inr (d, at_d) ↦
      rw (at_d, del)
        (elim (Bool-cases (x == id)) [
          | inl row ↦ rw row (rw (==→eq x id row) (cell-shrunk_row m id d sq at_d y))
          | inr other_row ↦ elim (Bool-cases (y == id)) [
            | inl column ↦
                rw (other_row, column)
                  (rw (==→eq y id column) (cell-shrunk_column m id d sq at_d x))
            | inr other_column ↦
                rw (other_row, other_column)
                  (cell-shrunk m id d sq at_d x y (λ e. ground (arith, ==_refl id))
                    (λ e. ground (arith, ==_refl id)))
          ]
        ])
]
