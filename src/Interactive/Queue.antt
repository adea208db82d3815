-- ===== src/Interactive/Queue.antt =====
-- Core::incm_queue and Core::incm_nodesinfo of incm.cpp: what the nodes have still to get. std::sort,
-- which leaves the order of equal counts open, is a parameter.
use distadm.Prelude.{
  ℕ, ◌+◌, ◌-◌, ◌%◌, Bool, true, false, List, [], ◌∷◌, ◌++◌, length, replicate, max, ltb, ◌==◌,
  if◌then◌else◌,
}
use distadm.Matrix.{Matrix}
use distadm.Messages.{u64}
use distadm.Core.{Core}
use distadm.Core.Commands.{info, nodename}
use distadm.Interactive.{Shell, Piece, Outcome, says}

-- `maxrow[i] = max(maxrow[i], matrix_row[i])` for all i
unfoldable pub raise_row : List ℕ → List ℕ → List ℕ
raise_row [] row = []
raise_row (m ∷ maxrow) [] = m ∷ maxrow
raise_row (m ∷ maxrow) (x ∷ row) = max m x ∷ raise_row maxrow row

-- `maxrow` after the loop over the nodes
unfoldable pub max_rows : Matrix → List ℕ → List ℕ
unfolding raise_row
max_rows [] maxrow = maxrow
max_rows ((id, n) ∷ m) maxrow = max_rows m (raise_row maxrow n.matrix_row)

-- `x - y` on values of a size_t
unfoldable pub sub64 : ℕ → ℕ → ℕ
sub64 x y = if ltb x y then u64 + x - y else x - y

-- `d += maxrow[i] - matrix_row[i]` for all i
unfoldable pub missing : ℕ → List ℕ → List ℕ → ℕ
unfolding sub64
missing d [] row = d
missing d (m ∷ maxrow) [] = d
missing d (m ∷ maxrow) (x ∷ row) = missing ((d + sub64 m x) % u64) maxrow row

-- `res`, before it is sorted
unfoldable pub waits : List ℕ → Matrix → List (ℕ × ℕ)
unfolding missing
waits maxrow [] = []
waits maxrow ((id, n) ∷ m) =
    let rest = waits maxrow m in
    let d = missing 0 maxrow n.matrix_row in if d == 0 then rest else (id, d) ∷ rest

unfoldable pub queue : Matrix → List (ℕ × ℕ)
unfolding waits max_rows
queue nodes = waits (max_rows nodes (replicate (length nodes) 0)) nodes

-- The last loop
unfoldable print_queue : Shell → Core → Bool → List (ℕ × ℕ) → List Piece
unfolding nodename
print_queue sh c first [] = []
print_queue sh c first ((id, d) ∷ res) =
    let rest = print_queue sh c false res in
    let line = Piece.written (nodename sh.env c id) ∷ Piece.written " " ∷ Piece.numeral d ∷ rest in
    if first then line else Piece.written "\n" ∷ line

-- What is printed of `res`, which std::sort takes
unfoldable pub show_queue : (List (ℕ × ℕ) → List (ℕ × ℕ)) → Shell → Core → List (ℕ × ℕ) → Outcome
unfolding print_queue
show_queue sort sh c [] = says c []
show_queue sort sh c (x ∷ res) = says c (print_queue sh c true (sort (x ∷ res)))

unfoldable pub incm_queue : (List (ℕ × ℕ) → List (ℕ × ℕ)) → Shell → Core → Outcome
unfolding queue show_queue
incm_queue sort sh c = show_queue sort sh c (queue c.nodes)

abbrev numbers_to_exec : Matrix → List ℕ
numbers_to_exec [] = []
numbers_to_exec ((id, n) ∷ m) = n.command_to_exec ∷ numbers_to_exec m

-- The cells of a row
unfoldable print_row : List ℕ → List Piece
print_row [] = []
print_row (x ∷ row) = Piece.numeral x ∷ Piece.written "\t" ∷ print_row row

-- The cells of my row, each behind what is executed; the loop ends with the shorter list.
unfoldable print_my_row : List ℕ → List ℕ → List Piece
print_my_row [] row = []
print_my_row (e ∷ exec) [] = []
print_my_row (e ∷ exec) (x ∷ row) =
    Piece.numeral e
    ∷ Piece.written "/"
    ∷ Piece.numeral x
    ∷ Piece.written "\t"
    ∷ print_my_row exec row

unfoldable print_nodes : Shell → Core → List ℕ → Matrix → List Piece
unfolding info print_row print_my_row
print_nodes sh c exec [] = []
print_nodes sh c exec ((id, n) ∷ m) =
    let i = info id c.state_nodes in
    let row = if id == c.my_id then print_my_row exec n.matrix_row else print_row n.matrix_row in
    Piece.written (sh.env.uuid_text id)
      ∷ Piece.written "\t"
      ∷ Piece.written i.hostname
      ∷ Piece.written "\t"
      ∷ Piece.written i.online
      ∷ Piece.written "\t"
      ∷ row
    ++ Piece.numeral n.netmsgcnt ∷ Piece.written "\n" ∷ print_nodes sh c exec m

unfoldable pub incm_nodesinfo : Shell → Core → Outcome
unfolding print_nodes
incm_nodesinfo sh c = says c (print_nodes sh c (numbers_to_exec c.nodes) c.nodes)
