-- ===== src/Session/Merged.antt =====
-- The matrix that opens a session: what Matrix::update leaves of the state of the node that reads it.
use distadm.Prelude.{ℕ, ◌≤◌, ◌≡◌, refl, sym, ap, ◌∙◌, Option, none, some, List, map, arith, inr}
use distadm.Matrix.{Node, Matrix, ids, find, node_offset}
use distadm.Matrix.Shape.{IsSquare}
use distadm.Matrix.Cells.{
  cell, join_cell, cell-update, merged_entry, find-join_nodes, ids-join_nodes,
}
use distadm.Matrix.Merge.{join, update-join}
use distadm.Matrix.Update.{merge_node, update}
use distadm.Matrix.Converge.{update-IsSquare, HasNode-update}
use distadm.Core.{Core, exec_of, my_cell}
use distadm.Core.Changes.{or_zero, my_cell-cell}
use distadm.Core.Packets.{update_matrix}
use distadm.Core.Running.{IsRunning, Carries-IsSound}

exec_of-merged_entry :
    (ks : List (Option ℕ)) (mine theirs : Option Node)
    → exec_of (merged_entry ks mine theirs) ≡ exec_of mine
unfolding merge_node
exec_of-merged_entry ks none theirs = refl
exec_of-merged_entry ks (some n) none = refl
exec_of-merged_entry ks (some n) (some rn) = refl

exec_of-update :
    (m src : Matrix) (a : ℕ)
    → IsSquare m
    → IsSquare src
    → exec_of (find a (update m src).0) ≡ exec_of (find a m)
unfolding join
exec_of-update m src a sq sq' = rw (update-join m src sq.ordered sq'.ordered) (
    rw (find-join_nodes (map (node_offset src) (ids m)) src m a)
      (exec_of-merged_entry (map (node_offset src) (ids m)) (find a m) (find a src)))

ids-update : (m src : Matrix) → IsSquare m → IsSquare src → ids (update m src).0 ≡ ids m
unfolding join
ids-update m src sq sq' =
    rw (update-join m src sq.ordered sq'.ordered)
      (ids-join_nodes (map (node_offset src) (ids m)) src m)

join_cell-ahead : (x y : Option ℕ) → or_zero y ≤ or_zero x → or_zero (join_cell x y) ≡ or_zero x
join_cell-ahead none y h = refl
join_cell-ahead (some x) none h = refl
join_cell-ahead (some x) (some y) h = omega arith

-- Where the source does not know more of me than I do, my cells stay.
module _ (c : Core) (src : Matrix) (r : IsRunning c) (sq : IsSquare src)
    (seen : (a : ℕ) → or_zero (cell src c.my_id a) ≤ my_cell c a) where
  abbrev pub merged : Core
  merged = update_matrix c src

  pub my_cell-merged : (a : ℕ) → my_cell merged a ≡ my_cell c a
  unfolding update_matrix
  my_cell-merged a =
      my_cell-cell merged a
      ∙ ap or_zero (cell-update c.nodes src c.my_id a r.sound.square sq)
      ∙ join_cell-ahead (cell c.nodes c.my_id a) (cell src c.my_id a)
          (omega (arith, seen a, my_cell-cell c a))
      ∙ sym (my_cell-cell c a)

  pub ids-merged : ids merged.nodes ≡ ids c.nodes
  unfolding update_matrix
  ids-merged = ids-update c.nodes src r.sound.square sq

  pub merged-IsRunning : IsRunning merged
  unfolding update_matrix
  merged-IsRunning = record {
    sound =
        Carries-IsSound c merged
          (record {
            square = update-IsSquare c.nodes src r.sound.square sq.ordered;
            in_range = r.sound.in_range;
            grows = λ b k h. h;
            cells = λ a. omega (arith, my_cell-merged a);
            execs = λ a. inr (omega (arith, exec_of-update c.nodes src a r.sound.square sq));
          })
          r.sound;
    mine = HasNode-update c.nodes src c.my_id r.sound.square sq.ordered r.mine;
  }
