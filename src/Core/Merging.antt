-- ===== src/Core/Merging.antt =====
-- Core::update_matrix and Core::check_matrix keep the invariant of a node that runs.
use distadm.Prelude.{
  ℕ, zero, suc, ◌+◌, ◌-◌, ◌<◌, ◌≡◌, refl, true, not, List, [], ◌∷◌, get_or, leb, ◌==◌, ◌&&◌, arith,
  Bool-cases, inl, inr, subst, sym,
}
use distadm.Matrix.{Matrix, ids, node_offset}
use distadm.Matrix.Shape.{Ascends, IsSquare}
use distadm.Matrix.Converge.{update-IsSquare, HasNode-update}
use distadm.Messages.{u64, has_msg}
use distadm.Core.{Core, my_row, set_my_cell}
use distadm.Core.Counting.{InRange}
use distadm.Core.Rows.{get_or-set, my_row-set_my_cell}
use distadm.Core.Pending.{HoldsPending, InRange-insert_msg}
use distadm.Core.Check.{with_bad, bad_msg, fill_gap, check_nodes, check_matrix, min_rows}
use distadm.Core.Gaps.{HasMine}
use distadm.Core.Repair.{check_nodes-Checked, check_matrix-HoldsPending, if_true}
use distadm.Core.Packets.{update_matrix}
use distadm.Core.Running.{IsRunning}

-- The cells of my row are values of a size_t.
abbrev pub Fits : Core → Type 0
Fits c = (i : ℕ) → get_or (my_row c) i 0 < u64

record Bounded (c : Core) : Type 0 where
  pub fits : Fits c
  pub in_range : InRange c.messages

Bounded-bad : (c : Core) (id j : ℕ) → j + 1 < u64 → Bounded c → Bounded (with_bad id j c)
unfolding my_row
Bounded-bad c id j small b = record {
  fits = b.fits;
  in_range = InRange-insert_msg (bad_msg id j) c.messages small b.in_range;
}

Bounded-cut : (c : Core) (i j : ℕ) → j < u64 → Bounded c → Bounded (set_my_cell i j c)
unfolding set_my_cell
Bounded-cut c i j small b = record {
  fits = λ k. rw (my_row-set_my_cell c i j) (ground (arith, get_or-set (my_row c) i k j, b.fits k));
  in_range = b.in_range;
}

fill_gap-Bounded :
    (rounds id i low j : ℕ) (c : Core)
    → (zero < rounds → j + rounds < u64)
    → Bounded c
    → Bounded (fill_gap rounds id i low j c)
unfolding fill_gap
fill_gap-Bounded zero id i low j c h b = b
fill_gap-Bounded (suc rounds) id i low j c h b =
    let small = h (omega arith) in
    elim (Bool-cases (has_msg id j c.messages)) [
      | inl there ↦
          rw (there, fill_gap)
            (fill_gap-Bounded rounds id i low (suc j) c (λ more. omega (arith, small)) b)
      | inr missing ↦
          rw (missing, fill_gap)
            (elim (Bool-cases (leb low j && not (c.my_id == id))) [
              | inl cut ↦ rw cut (Bounded-cut c i j (omega (arith, small)) b)
              | inr bad ↦ rw bad (
                  fill_gap-Bounded rounds id i low (suc j) (with_bad id j c)
                    (λ more. omega (arith, small)) (Bounded-bad c id j (omega (arith, small)) b))
            ])
    ]

check_nodes-Bounded :
    (m : Matrix) (i : ℕ) (minrow : List ℕ) (c : Core)
    → Bounded c
    → Bounded (check_nodes m i minrow c)
unfolding check_nodes
check_nodes-Bounded [] i minrow c b = b
check_nodes-Bounded ((id, n) ∷ m) i minrow c b = check_nodes-Bounded m (suc i) minrow _ (
    fill_gap-Bounded (get_or (my_row c) i 0 - n.command_to_exec) id i (get_or minrow i 0)
      n.command_to_exec c (λ more. omega (arith, more, b.fits i)) b)

-- The state after `check_matrix`, whatever was pending before
pub check_matrix-IsRunning :
    (c : Core)
    → IsSquare c.nodes
    → InRange c.messages
    → Fits c
    → c.has_my_node ≡ true
    → HasMine c
    → IsRunning (check_matrix c)
unfolding check_matrix node_offset
check_matrix-IsRunning c sq in_range fits node mine =
    let minrow = min_rows c.nodes (my_row c) in
    let run = check_nodes-Checked c.nodes 0 0 minrow c sq.ordered (λ b k e. (e, refl)) sq mine in
    let result = check_nodes c.nodes 0 minrow c in
    let bounded =
      check_nodes-Bounded c.nodes 0 minrow c (record { fits = fits; in_range = in_range }) in
    let checked : check_matrix c ≡ result = if_true c.has_my_node result c node in
    let pending = check_matrix-HoldsPending c sq node mine in
    subst IsRunning (sym checked) (record {
      sound = record {
        square = run.kept.square sq;
        in_range = bounded.in_range;
        pending = subst HoldsPending checked pending;
      };
      mine = run.kept.mine mine;
    })

-- A matrix that comes in a packet is merged, and what it promises is checked.
pub merge-IsRunning :
    (c : Core) (mtx : Matrix)
    → Ascends 0 (ids mtx)
    → Fits (update_matrix c mtx)
    → c.has_my_node ≡ true
    → IsRunning c
    → IsRunning (check_matrix (update_matrix c mtx))
unfolding update_matrix
merge-IsRunning c mtx ordered fits node r =
    check_matrix-IsRunning (update_matrix c mtx)
      (update-IsSquare c.nodes mtx r.sound.square ordered) r.sound.in_range fits node
      (HasNode-update c.nodes mtx c.my_id r.sound.square ordered r.mine)
