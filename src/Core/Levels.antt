-- ===== src/Core/Levels.antt =====
-- What the levels of Core::remove_old_commands bound, when no node is ignored.
use distadm.Prelude.{
  ℕ, zero, suc, ◌≤◌, ◌<◌, ◌≡◌, refl, sym, some, List, [], ◌∷◌, length, ◌==◌, arith, Bool-cases, inl,
  inr, get_or, set, min,
}
use distadm.Matrix.{Node, Matrix, ids, find, index_from}
use distadm.Core.{exec_of}
use distadm.Core.Remove.{contains, lower_row, levels}
use distadm.Core.Rows.{get_or-set}

get_or-lower_row :
    (level row : List ℕ) (j : ℕ) → get_or (lower_row level row) j 0 ≤ get_or level j 0
unfolding lower_row
get_or-lower_row [] row j = omega arith
get_or-lower_row (l ∷ level) [] j = omega arith
get_or-lower_row (l ∷ level) (x ∷ row) zero = omega arith
get_or-lower_row (l ∷ level) (x ∷ row) (suc j) = get_or-lower_row level row j

lower_row-le :
    (level row : List ℕ) (j : ℕ)
    → j < length row
    → get_or (lower_row level row) j 0 ≤ get_or row j 0
unfolding lower_row
lower_row-le [] row j h = omega arith
lower_row-le (l ∷ level) [] j h = absurd (omega arith)
lower_row-le (l ∷ level) (x ∷ row) zero h = omega arith
lower_row-le (l ∷ level) (x ∷ row) (suc j) h = lower_row-le level row j (omega arith)

pub get_or-past : (xs : List ℕ) (i : ℕ) → length xs ≤ i → get_or xs i 0 ≡ 0
get_or-past [] i h = refl
get_or-past (x ∷ xs) zero h = absurd (omega arith)
get_or-past (x ∷ xs) (suc i) h = get_or-past xs i (omega arith)

-- What one node that is not ignored makes of the levels
abbrev lowered_by : Node → ℕ → List ℕ → List ℕ
lowered_by n i level =
    let lowered = lower_row level n.matrix_row in
    set lowered i (min (get_or lowered i 0) n.command_to_exec)

lowered_by-le :
    (n : Node) (i j : ℕ) (level : List ℕ) → get_or (lowered_by n i level) j 0 ≤ get_or level j 0
lowered_by-le n i j level =
    let lowered = lower_row level n.matrix_row in
    ground (
      arith,
      get_or-set lowered i j (min (get_or lowered i 0) n.command_to_exec),
      get_or-lower_row level n.matrix_row j,
    )

lowered_by-row :
    (n : Node) (i j : ℕ) (level : List ℕ)
    → j < length n.matrix_row
    → get_or (lowered_by n i level) j 0 ≤ get_or n.matrix_row j 0
lowered_by-row n i j level h =
    let lowered = lower_row level n.matrix_row in
    ground (
      arith,
      get_or-set lowered i j (min (get_or lowered i 0) n.command_to_exec),
      lower_row-le level n.matrix_row j h,
    )

lowered_by-exec :
    (n : Node) (i : ℕ) (level : List ℕ) → get_or (lowered_by n i level) i 0 ≤ n.command_to_exec
lowered_by-exec n i level =
    let lowered = lower_row level n.matrix_row in
    ground (
      arith,
      get_or-set lowered i i (min (get_or lowered i 0) n.command_to_exec),
      get_or-past lowered i,
    )

levels-le :
    (m : Matrix) (i j : ℕ) (level : List ℕ) → get_or (levels [] m i level) j 0 ≤ get_or level j 0
unfolding levels contains
levels-le [] i j level = omega arith
levels-le ((id, n) ∷ m) i j level =
    let below = levels-le m (suc i) j (lowered_by n i level) in
    omega (arith, below, lowered_by-le n i j level)

pub levels-exec :
    (a : ℕ) (m : Matrix) (i j : ℕ) (level : List ℕ) (k : ℕ)
    → index_from i a (ids m) ≡ some j
    → k < get_or (levels [] m i level) j 0
    → k < exec_of (find a m)
unfolding levels contains find index_from
levels-exec a [] i j level k e h = cc
levels-exec a ((id, n) ∷ m) i j level k e h = elim (Bool-cases (id == a)) [
  | inl same ↦
      let here : i ≡ j = ground arith in
      let below = levels-le m (suc i) i (lowered_by n i level) in
      rw same (omega (arith, below, lowered_by-exec n i level, rw (sym here) at h))
  | inr other ↦ rw other (levels-exec a m (suc i) j (lowered_by n i level) k (rw other at e) h)
]

pub levels-row :
    (b : ℕ) (m : Matrix) (i j : ℕ) (level : List ℕ) (n : Node) (k : ℕ)
    → find b m ≡ some n
    → j < length n.matrix_row
    → k < get_or (levels [] m i level) j 0
    → k < get_or n.matrix_row j 0
unfolding levels contains find
levels-row b [] i j level n k e w h = cc
levels-row b ((id, n') ∷ m) i j level n k e w h = elim (Bool-cases (id == b)) [
  | inl same ↦
      let here : some n' ≡ some n = rw same at e in
      let below = levels-le m (suc i) j (lowered_by n' i level) in
      let mine : n' ≡ n = cc in
      let w' : j < length n'.matrix_row = rw mine w in
      let bound : k < get_or n'.matrix_row j 0 =
        omega (arith, below, lowered_by-row n' i j level w', h) in
      rw mine at bound
  | inr other ↦ levels-row b m (suc i) j (lowered_by n' i level) n k (rw other at e) w h
]
