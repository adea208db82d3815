-- ===== src/Matrix/Shape.antt =====
-- What holds of every matrix that the program builds: the keys ascend, as `std::map` keeps them, and
-- each row has one cell for each node.
use distadm.Prelude.{ℕ, suc, ◌≤◌, ◌≡◌, List, [], ◌∷◌, length}
use distadm.Matrix.{Matrix, ids}

-- Every key is at least `lo`, and each is above the one before.
abbrev pub Ascends : ℕ → List ℕ → Type 0
Ascends lo [] = Unit {0}
Ascends lo (x ∷ xs) = (lo ≤ x) × Ascends (suc x) xs

abbrev pub Rows : ℕ → Matrix → Type 0
Rows w [] = Unit {0}
Rows w ((id, n) ∷ m) = (length n.matrix_row ≡ w) × Rows w m

pub record IsSquare (m : Matrix) : Type 0 where
  pub ordered : Ascends 0 (ids m)
  pub rows : Rows (length m) m
