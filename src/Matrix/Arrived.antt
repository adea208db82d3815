-- ===== src/Matrix/Arrived.antt =====
-- What a matrix that is sent and read has in common with the original: its keys, its cells and the
-- numbers of the next commands.
use distadm.Prelude.{
  ℕ, suc, ◌≡◌, ◌∙◌, refl, ap, Option, none, some, [], ◌∷◌, length, get_elem?, ◌==◌, Bool-cases, inl,
  inr,
}
use distadm.Matrix.{Node, Matrix, ids, find, node_offset}
use distadm.Matrix.Shape.{Rows, IsSquare}
use distadm.Matrix.Cells.{cell, cell_at}
use distadm.Matrix.Sent.{sent_node, sent, sent_vld}
use distadm.Core.Rows.{map_node}

abbrev pub each : (Node → Node) → Matrix → Matrix
each f [] = []
each f ((id, n) ∷ m) = (id, f n) ∷ each f m

abbrev pub received_node : Node → Node
received_node n = record (sent_node n) { command_to_exec = n.command_to_exec }

sent-each : (m : Matrix) → sent m ≡ each sent_node m
sent-each [] = refl
sent-each ((id, n) ∷ m) = ap (◌∷◌ (id, sent_node n)) (sent-each m)

sent_vld-each : (m : Matrix) → sent_vld m ≡ each received_node m
sent_vld-each [] = refl
sent_vld-each ((id, n) ∷ m) = ap (◌∷◌ (id, received_node n)) (sent_vld-each m)

ids-each : (f : Node → Node) (m : Matrix) → ids (each f m) ≡ ids m
ids-each f [] = refl
ids-each f ((id, n) ∷ m) = ap (◌∷◌ id) (ids-each f m)

length-each : (f : Node → Node) (m : Matrix) → length (each f m) ≡ length m
length-each f [] = refl
length-each f ((id, n) ∷ m) = ap suc (length-each f m)

find-each : (f : Node → Node) (x : ℕ) (m : Matrix) → find x (each f m) ≡ map_node f (find x m)
unfolding find
find-each f x [] = refl
find-each f x ((id, n) ∷ m) = elim (Bool-cases (id == x)) [
  | inl same ↦ rw same refl
  | inr other ↦ rw other (find-each f x m)
]

-- The rows are those of the original.
abbrev SameRows : (Node → Node) → Type 0
SameRows f = (n : Node) → (f n).matrix_row ≡ n.matrix_row

Rows-each : (f : Node → Node) (w : ℕ) (m : Matrix) → SameRows f → Rows w m → Rows w (each f m)
Rows-each f w [] same h = tt
Rows-each f w ((id, n) ∷ m) same h = (ap length (same n) ∙ h.0, Rows-each f w m same h.1)

each-IsSquare : (f : Node → Node) (m : Matrix) → SameRows f → IsSquare m → IsSquare (each f m)
each-IsSquare f m same sq = record {
  ordered = rw ids-each sq.ordered;
  rows = rw length-each (Rows-each f (length m) m same sq.rows);
}

cell_at-map_node :
    (f : Node → Node) (n : Option Node) (j : Option ℕ)
    → SameRows f
    → cell_at (map_node f n) j ≡ cell_at n j
cell_at-map_node f none j same = refl
cell_at-map_node f (some n) none same = refl
cell_at-map_node f (some n) (some j) same = ap (λ xs. get_elem? xs j) (same n)

cell-each : (f : Node → Node) (m : Matrix) (a b : ℕ) → SameRows f → cell (each f m) a b ≡ cell m a b
unfolding cell node_offset
cell-each f m a b same =
    rw (ids-each f m) (rw (find-each f a m) (cell_at-map_node f (find a m) (node_offset m b) same))

-- What arrives through Matrix::read has the cells of what was written.
pub cell-sent : (m : Matrix) (a b : ℕ) → cell (sent m) a b ≡ cell m a b
cell-sent m a b = ap (λ x. cell x a b) (sent-each m) ∙ cell-each sent_node m a b (λ n. refl)

pub sent-IsSquare : (m : Matrix) → IsSquare m → IsSquare (sent m)
sent-IsSquare m sq = rw sent-each (each-IsSquare sent_node m (λ n. refl) sq)

abbrev pub received : Option Node → Option Node
received n = map_node received_node n

pub find-sent_vld : (x : ℕ) (m : Matrix) → find x (sent_vld m) ≡ received (find x m)
find-sent_vld x m = ap (find x) (sent_vld-each m) ∙ find-each received_node x m

pub node_offset-sent_vld : (m : Matrix) (x : ℕ) → node_offset (sent_vld m) x ≡ node_offset m x
unfolding node_offset
node_offset-sent_vld m x = ap (λ y. node_offset y x) (sent_vld-each m) ∙ rw ids-each refl

pub sent_vld-IsSquare : (m : Matrix) → IsSquare m → IsSquare (sent_vld m)
sent_vld-IsSquare m sq = rw sent_vld-each (each-IsSquare received_node m (λ n. refl) sq)
