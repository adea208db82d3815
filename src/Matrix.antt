-- ===== src/Matrix.antt =====
-- struct Node and struct Matrix of core.h and core.cpp. `std::map<UUID, Node>` is the list of its
-- entries in the order of iteration; a row of `size_t` is a list of numbers.
pub mod Shape
pub mod Lookup
pub mod Update
pub mod Merge
pub mod Cells
pub mod Converge
pub mod Keys
pub mod Resize
pub mod Widen
pub mod Resized
pub mod Grow
pub mod Shrink
pub mod Square
pub mod Wire
pub mod Sent
pub mod Arrived
use distadm.Prelude.{
  ℕ, zero, suc, ◌+◌, ◌-◌, ◌%◌, ◌^◌, Bool, true, false, Option, none, some, List, [], ◌∷◌, ◌++◌, map,
  max, length, get_or, drop, erase_at, ltb, ◌==◌, ◌||◌, if◌then◌else◌,
}

-- Node::Intersting
pub data Intersting : Type 0 where
  unknown yes no : Intersting

pub record Node : Type 0 where
  pub matrix_row : List ℕ
  pub hash : ℕ
  pub netmsgcnt : ℕ
  pub command_to_exec : ℕ
  pub proto_ver : ℕ
  pub initialized : Bool
  pub interesting : Intersting

-- Node() = default
abbrev pub default_node : Node
default_node = record {
  matrix_row = [];
  hash = 0;
  netmsgcnt = 0;
  command_to_exec = 0;
  proto_ver = 0;
  initialized = true;
  interesting = no;
}

abbrev pub Matrix : Type 0
Matrix = List (ℕ × Node)

abbrev pub ids : Matrix → List ℕ
ids [] = []
ids ((id, n) ∷ m) = id ∷ ids m

-- std::map::find
unfoldable pub find : ℕ → Matrix → Option Node
find id [] = none
find id ((j, n) ∷ m) = if j == id then some n else find id m

-- std::distance from the first of `xs`, which has index `r`, to `x`
unfoldable pub index_from : ℕ → ℕ → List ℕ → Option ℕ
index_from r x [] = none
index_from r x (y ∷ ys) = if y == x then some r else index_from (suc r) x ys

-- Matrix::node_offset; -1 is `none`
unfoldable pub node_offset : Matrix → ℕ → Option ℕ
unfolding index_from
node_offset m id = index_from 0 id (ids m)

-- std::map::operator[], and an assignment through the reference that it returns
unfoldable pub upsert : ℕ → (Node → Node) → Matrix → Matrix
upsert id f [] = (id, f default_node) ∷ []
upsert id f ((j, n) ∷ m) =
    let rest = upsert id f m in
    if j == id
    then (j, f n) ∷ m
    else if ltb id j
    then (id, f default_node) ∷ (j, n) ∷ m
    else (j, n) ∷ rest

-- Matrix::create
unfoldable pub create : ℕ → Matrix → Matrix
create id = upsert id (λ n. n)

-- A change of the entry that an iterator points to; no entry, no change.
unfoldable pub modify : ℕ → (Node → Node) → Matrix → Matrix
modify id f [] = []
modify id f ((j, n) ∷ m) =
    let rest = modify id f m in if j == id then (j, f n) ∷ m else (j, n) ∷ rest

-- std::map::erase
unfoldable pub erase : ℕ → Matrix → Matrix
erase id [] = []
erase id ((j, n) ∷ m) = let rest = erase id m in if j == id then m else (j, n) ∷ rest

-- The loop of Matrix::del over the rows that are left
unfoldable pub erase_column : ℕ → Matrix → Matrix
erase_column d [] = []
erase_column d ((j, n) ∷ m) =
    (j, record n { matrix_row = erase_at d n.matrix_row }) ∷ erase_column d m

-- Matrix::del
unfoldable pub del : Matrix → ℕ → Matrix
unfolding node_offset erase erase_column
del m id = elim (node_offset m id) [ none ↦ m | some d ↦ erase_column d (erase id m) ]
