-- ===== src/Core/Rows.antt =====
-- What an assignment to a cell of my row changes, and what it leaves.
use distadm.Prelude.{
  ℕ, zero, suc, ◌<◌, ◌≡◌, ◌≢◌, refl, sym, ap, ◌∙◌, Option, none, some, List, [], ◌∷◌, length, ltb,
  ◌==◌, ◌&&◌, if◌then◌else◌, arith, Bool-cases, Option-cases, ==→eq, ==_refl, ==_ne, inl, inr,
  get_or, set, length-set,
}
use distadm.Matrix.{Node, Matrix, ids, find, node_offset, modify, index_from}
use distadm.Matrix.Shape.{Rows, IsSquare}
use distadm.Matrix.Lookup.{get_or-index}
use distadm.Core.{Core, my_row, set_my_cell, exec_of, my_cell}

abbrev pub map_node : (Node → Node) → Option Node → Option Node
map_node f none = none
map_node f (some n) = some (f n)

pub ids-modify : (id : ℕ) (f : Node → Node) (m : Matrix) → ids (modify id f m) ≡ ids m
unfolding modify
ids-modify id f [] = refl
ids-modify id f ((j, n) ∷ m) = ground (arith, ids-modify id f m)

pub find-modify :
    (id a : ℕ) (f : Node → Node) (m : Matrix)
    → find a (modify id f m) ≡ (if a == id then map_node f (find a m) else find a m)
unfolding modify find
find-modify id a f [] = ground arith
find-modify id a f ((j, n) ∷ m) = ground (arith, find-modify id a f m)

length-modify : (id : ℕ) (f : Node → Node) (m : Matrix) → length (modify id f m) ≡ length m
unfolding modify
length-modify id f [] = refl
length-modify id f ((j, n) ∷ m) = ground (arith, length-modify id f m)

Rows-modify :
    (w id : ℕ) (f : Node → Node) (m : Matrix)
    → ((n : Node) → length (f n).matrix_row ≡ length n.matrix_row)
    → Rows w m
    → Rows w (modify id f m)
unfolding modify
Rows-modify w id f [] h r = tt
Rows-modify w id f ((j, n) ∷ m) h r = elim (Bool-cases (j == id)) [
  | inl hit ↦ rw hit (h n ∙ r.0, r.1)
  | inr miss ↦ rw miss (r.0, Rows-modify w id f m h r.1)
]

pub modify-IsSquare :
    (id : ℕ) (f : Node → Node) (m : Matrix)
    → ((n : Node) → length (f n).matrix_row ≡ length n.matrix_row)
    → IsSquare m
    → IsSquare (modify id f m)
modify-IsSquare id f m h sq = record {
  ordered = rw (ids-modify id f m) sq.ordered;
  rows = rw (length-modify id f m) (Rows-modify (length m) id f m h sq.rows);
}

pub offset-modify :
    (id a : ℕ) (f : Node → Node) (m : Matrix) → node_offset (modify id f m) a ≡ node_offset m a
unfolding node_offset
offset-modify id a f m = ap (index_from 0 a) (ids-modify id f m)

pub get_or-set :
    (xs : List ℕ) (i j x : ℕ)
    → get_or (set xs i x) j 0 ≡ (if i == j && ltb i (length xs) then x else get_or xs j 0)
get_or-set [] i j x = ground arith
get_or-set (y ∷ ys) zero zero x = ground arith
get_or-set (y ∷ ys) zero (suc j) x = ground arith
get_or-set (y ∷ ys) (suc i) zero x = ground arith
get_or-set (y ∷ ys) (suc i) (suc j) x = ground (arith, get_or-set ys i j x)

-- Two nodes do not share a column.
offset-injective :
    (m : Matrix) (a b i : ℕ) → node_offset m a ≡ some i → node_offset m b ≡ some i → a ≡ b
offset-injective m a b i p q = sym (get_or-index a i m p) ∙ get_or-index b i m q

pub my_row-set_my_cell : (c : Core) (i x : ℕ) → my_row (set_my_cell i x c) ≡ set (my_row c) i x
unfolding my_row set_my_cell
my_row-set_my_cell c i x = rw find-modify (
    rw (==_refl c.my_id) (elim (Option-cases (find c.my_id c.nodes)) [
      | inl absent ↦ rw absent
      | inr (n, found) ↦ rw found
    ]))

module _ (c : Core) (a i x : ℕ) (at_i : node_offset c.nodes a ≡ some i) where
  pub offset-set_my_cell : (b : ℕ) → node_offset (set_my_cell i x c).nodes b ≡ node_offset c.nodes b
  unfolding set_my_cell
  offset-set_my_cell b = offset-modify c.my_id b _ c.nodes

  -- The cell of `a` is written, the others stay.
  pub my_cell-set_my_cell :
      (b : ℕ)
      → i < length (my_row c)
      → my_cell (set_my_cell i x c) b ≡ (if b == a then x else my_cell c b)
  unfolding my_cell
  my_cell-set_my_cell b inside =
      rw (my_row-set_my_cell c i x, my_cell)
        (rw (offset-set_my_cell b) (elim (Bool-cases (b == a)) [
          | inl same ↦
              let here : node_offset c.nodes b ≡ some i = rw (==→eq b a same) at_i in
              rw (here, same) (ground (arith, get_or-set (my_row c) i i x, ==_refl i))
          | inr other ↦ elim (Option-cases (node_offset c.nodes b)) [
            | inl absent ↦ rw (other, absent)
            | inr (j, at_j) ↦
                let apart : i ≢ j =
                  λ e. ground (arith, offset-injective c.nodes b a i (rw e at_j) at_i) in
                rw (other, at_j) (ground (arith, get_or-set (my_row c) i j x, ==_ne i j apart))
          ]
        ]))

  -- What is executed stays.
  pub exec_of-set_my_cell :
      (b : ℕ) → exec_of (find b (set_my_cell i x c).nodes) ≡ exec_of (find b c.nodes)
  unfolding set_my_cell
  exec_of-set_my_cell b = rw find-modify (elim (Bool-cases (b == c.my_id)) [
    | inl mine ↦ rw mine (elim (Option-cases (find b c.nodes)) [
      | inl absent ↦ rw absent
      | inr (n, found) ↦ rw found
    ])
    | inr other ↦ rw other
  ])

  pub set_my_cell-IsSquare : IsSquare c.nodes → IsSquare (set_my_cell i x c).nodes
  unfolding set_my_cell
  set_my_cell-IsSquare sq = modify-IsSquare c.my_id _ c.nodes (λ n. length-set n.matrix_row i x) sq
