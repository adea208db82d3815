-- ===== src/Examples/Matrices.antt =====
-- The theorems on the matrix at the pairs.
use distadm.Prelude.{false, none, some, [], ◌∷◌, ◌≡◌, refl, ◌↔◌, arith}
use distadm.Matrix.{find, del}
use distadm.Matrix.Update.{update}
use distadm.Matrix.Merge.{join, update-join}
use distadm.Matrix.Cells.{cell, join_cell, cell-update}
use distadm.Matrix.Converge.{versionless, update_comm, update-changed}
use distadm.Matrix.Resize.{resize}
use distadm.Matrix.Grow.{widened, resize_cells}
use distadm.Matrix.Shrink.{cell-del}
use distadm.Examples.{node, pair, other_pair, pair-IsSquare, other_pair-IsSquare}

cell-update_example :
    cell (update pair other_pair).0 1 1 ≡ join_cell (cell pair 1 1) (cell other_pair 1 1)
cell-update_example = cell-update pair other_pair 1 1 pair-IsSquare other_pair-IsSquare

update-join_example : update pair other_pair ≡ join pair other_pair
update-join_example =
    update-join pair other_pair (omega arith, (omega arith, tt)) (omega arith, (omega arith, tt))

update_comm_example :
    cell (update (update pair other_pair).0 pair).0 1 1
    ≡ cell (update (update pair pair).0 other_pair).0 1 1
update_comm_example =
    update_comm pair other_pair pair 1 1 pair-IsSquare other_pair-IsSquare pair-IsSquare

update-changed_example :
    ((update pair other_pair).1 ≡ false)
    ↔ (versionless (update pair other_pair).0 ≡ versionless pair)
update-changed_example =
    update-changed pair other_pair (omega arith, (omega arith, tt)) (omega arith, (omega arith, tt))

unknown_three : find 3 pair ≡ none
unfolding find
unknown_three = refl

resize_cells_example :
    cell (resize pair 3 (some (node (3 ∷ 1 ∷ []) 2)) 1) 3 2
    ≡ widened pair 3 (some (node (3 ∷ 1 ∷ []) 2)) 3 2
resize_cells_example =
    resize_cells pair 3 (some (node (3 ∷ 1 ∷ []) 2)) 1 3 2 pair-IsSquare unknown_three

cell-del_example : cell (del pair 2) 1 1 ≡ cell pair 1 1
cell-del_example = cell-del pair 2 1 1 pair-IsSquare
