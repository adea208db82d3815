-- ===== src/Matrix/Wire.antt =====
-- How a matrix is sent: Matrix::read, read_vld, write and write_vld of core.cpp. The stream is the list of
-- the words that are written; a hash is right or is not, which the digest and the encryption below decide.
use distadm.Prelude.{
  ℕ, zero, suc, ◌*◌, Bool, true, Option, none, some, List, [], ◌∷◌, ◌++◌, map, length, take, drop,
}
use distadm.Matrix.{Matrix, ids, upsert}

-- One element that is written: a size_t, a UUID, a short, or the hash, which is right or not
pub data Word : Type 0 where
  size uuid short : ℕ → Word
  hash : Bool → Word

-- `mtx`, `netmsgcnt`, `proto_ver` and `cmd_to_exec` of the writers
unfoldable pub mtx_cells : Matrix → List ℕ
mtx_cells [] = []
mtx_cells ((id, n) ∷ m) = n.matrix_row ++ mtx_cells m

unfoldable pub netmsgcnts : Matrix → List ℕ
netmsgcnts [] = []
netmsgcnts ((id, n) ∷ m) = n.netmsgcnt ∷ netmsgcnts m

unfoldable pub proto_vers : Matrix → List ℕ
proto_vers [] = []
proto_vers ((id, n) ∷ m) = n.proto_ver ∷ proto_vers m

unfoldable pub cmds_to_exec : Matrix → List ℕ
cmds_to_exec [] = []
cmds_to_exec ((id, n) ∷ m) = n.command_to_exec ∷ cmds_to_exec m

-- Matrix::write, where the rows have `size() * size()` cells in all
unfoldable pub write : Matrix → List Word
unfolding mtx_cells netmsgcnts proto_vers
write m =
    size (length m) ∷ hash true ∷ map uuid (ids m)
    ++ map size (mtx_cells m)
    ++ map size (netmsgcnts m)
    ++ map short (proto_vers m)
    ++ hash true ∷ []

-- Matrix::write_vld
unfoldable pub write_vld : Matrix → List Word
unfolding write cmds_to_exec
write_vld m = write m ++ map size (cmds_to_exec m) ++ hash true ∷ []

infixl 5 ◌>>=◌
-- An exception ends what follows.
abbrev pub ◌>>=◌ {ℓ κ} : {A : Type ℓ} {B : Type κ} → Option A → (A → Option B) → Option B
none >>= f = none
some a >>= f = f a

-- ICCstream::read of so many elements; `none` is the exception on what does not fit.
abbrev pub Read : Type 0
Read = Option (List ℕ × List Word)

abbrev pub with_first : ℕ → Read → Read
with_first x none = none
with_first x (some (xs, s)) = some (x ∷ xs, s)

unfoldable pub read_sizes : ℕ → List Word → Read
read_sizes zero s = some ([], s)
read_sizes (suc n) (size x ∷ s) = with_first x (read_sizes n s)
read_sizes (suc n) s = none

unfoldable pub read_count : List Word → Option (ℕ × List Word)
read_count (size x ∷ s) = some (x, s)
read_count s = none

unfoldable pub read_uuids : ℕ → List Word → Read
read_uuids zero s = some ([], s)
read_uuids (suc n) (uuid x ∷ s) = with_first x (read_uuids n s)
read_uuids (suc n) s = none

unfoldable pub read_shorts : ℕ → List Word → Read
read_shorts zero s = some ([], s)
read_shorts (suc n) (short x ∷ s) = with_first x (read_shorts n s)
read_shorts (suc n) s = none

-- ICCstream::check_hash, which throws on a hash that is not right
unfoldable pub check_hash : List Word → Option (List Word)
check_hash (hash true ∷ s) = some s
check_hash s = none

-- The loop over i: the row is the i-th piece of `mtx`.
unfoldable pub fill : ℕ → List ℕ → List ℕ → List ℕ → List ℕ → Matrix → Matrix
unfolding upsert
fill r (id ∷ uuids) mtx (cnt ∷ cnts) (ver ∷ vers) res =
    fill r uuids (drop r mtx) cnts vers
      (upsert id (λ n. record n { matrix_row = take r mtx; netmsgcnt = cnt; proto_ver = ver }) res)
fill r uuids mtx cnts vers res = res

-- Matrix::read
unfoldable pub read : List Word → Option (Matrix × List Word)
unfolding read_count read_sizes read_uuids read_shorts check_hash fill
read s = do
  (r, s₁) ← read_count s
  s₂ ← check_hash s₁
  (uuids, s₃) ← read_uuids r s₂
  (mtx, s₄) ← read_sizes (r * r) s₃
  (cnts, s₅) ← read_sizes r s₄
  (vers, s₆) ← read_shorts r s₅
  s₇ ← check_hash s₆
  some (fill r uuids mtx cnts vers [], s₇)

-- `n->second.command_to_exec = cmd_to_exec[i]` for all nodes
unfoldable pub set_cmds : Matrix → List ℕ → Matrix
set_cmds ((id, n) ∷ m) (x ∷ xs) = (id, record n { command_to_exec = x }) ∷ set_cmds m xs
set_cmds m xs = m

-- Matrix::read_vld
unfoldable pub read_vld : List Word → Option (Matrix × List Word)
unfolding read set_cmds
read_vld s = do
  (res, s₁) ← read s
  (cmds, s₂) ← read_sizes (length res) s₁
  s₃ ← check_hash s₂
  some (set_cmds res cmds, s₃)
