-- ===== src/Core/Running.antt =====
-- A node that runs: its state is sound and has its own entry. What keeps that.
use distadm.Prelude.{
  ℕ, ◌≤◌, ◌≡◌, ◌≢◌, refl, sym, ◌∙◌, true, none, ◌==◌, if◌then◌else◌, arith, Bool-cases, ==_refl,
  ==_ne, ◌⊎◌, inl, inr,
}
use distadm.Matrix.{Matrix, find, del}
use distadm.Matrix.Shape.{IsSquare}
use distadm.Matrix.Cells.{cell}
use distadm.Matrix.Resize.{resize}
use distadm.Matrix.Grow.{resize_cells, widened, known}
use distadm.Matrix.Shrink.{cell-del}
use distadm.Matrix.Square.{del-IsSquare, resize-IsSquare}
use distadm.Messages.{has_msg}
use distadm.Core.{Core, my_row, exec_of, my_cell}
use distadm.Core.Counting.{InRange}
use distadm.Core.Pending.{IsSound}
use distadm.Core.Gaps.{HasMine}
use distadm.Core.Changes.{
  or_zero, my_cell-cell, exec_of-del, exec_of-resize, HasNode-del, HasNode-resize,
}

pub record IsRunning (c : Core) : Type 0 where
  pub sound : IsSound c
  pub mine : HasMine c

-- What keeps the commands that are held: my cells do not rise, what is executed stays so where my
-- cell is not zero, and messages only come.
pub record Carries (c c' : Core) : Type 0 where
  pub square : IsSquare c'.nodes
  pub in_range : InRange c'.messages
  pub grows : (b k : ℕ) → has_msg b k c.messages ≡ true → has_msg b k c'.messages ≡ true
  pub cells : (a : ℕ) → my_cell c' a ≤ my_cell c a
  pub execs : (a : ℕ) → (my_cell c' a ≡ 0) ⊎ (exec_of (find a c.nodes) ≤ exec_of (find a c'.nodes))

pub Carries-IsSound : (c c' : Core) → Carries c c' → IsSound c → IsSound c'
Carries-IsSound c c' t s = record {
  square = t.square;
  in_range = t.in_range;
  pending = λ a k h l. elim (t.execs a) [
    | inl nothing ↦ absurd (omega (arith, nothing))
    | inr done ↦ t.grows a k (s.pending a k (omega (arith, done)) (omega (arith, t.cells a)))
  ];
}

-- Nothing that the invariant reads has changed.
pub same-IsRunning :
    (c c' : Core)
    → c'.nodes ≡ c.nodes
    → c'.messages ≡ c.messages
    → c'.my_id ≡ c.my_id
    → IsRunning c
    → IsRunning c'
unfolding my_cell my_row
same-IsRunning c c' same_nodes same_messages same_id r = record {
  sound = record {
    square = rw same_nodes r.sound.square;
    in_range = rw same_messages r.sound.in_range;
    pending = λ a k h l. rw same_messages (
        r.sound.pending a k (rw same_nodes at h)
          (unfold my_cell my_row in rw same_id at (rw same_nodes at l)));
  };
  mine = rw same_nodes (rw same_id r.mine);
}

widened-le :
    (m : Matrix) (id x a : ℕ) → x ≢ id → or_zero (widened m id none x a) ≤ or_zero (cell m x a)
widened-le m id x a apart = elim (Bool-cases (a == id)) [
  | inl new ↦ rw new (
      rw (==_ne x id apart) (elim (Bool-cases (known m x)) [
        | inl there ↦ rw there (omega arith)
        | inr gone ↦ rw gone (omega arith)
      ]))
  | inr old ↦ rw old (rw (==_ne x id apart) (omega arith))
]

-- A node joins, and no cell of mine rises.
pub resize-cell :
    (c : Core) (id pv a : ℕ)
    → find id c.nodes ≡ none
    → IsRunning c
    → my_cell (record c { nodes = resize c.nodes id none pv }) a ≤ my_cell c a
resize-cell c id pv a fresh r =
    rw (my_cell-cell (record c { nodes = resize c.nodes id none pv }) a) (
      rw (my_cell-cell c a) (
        rw (resize_cells c.nodes id none pv c.my_id a r.sound.square fresh)
          (widened-le c.nodes id c.my_id a (ground (arith, r.mine.1, fresh)))))

pub resize-IsRunning :
    (c : Core) (id pv : ℕ)
    → find id c.nodes ≡ none
    → IsRunning c
    → IsRunning (record c { nodes = resize c.nodes id none pv })
resize-IsRunning c id pv fresh r =
    let c' : Core = record c { nodes = resize c.nodes id none pv } in
    record {
      sound =
          Carries-IsSound c c'
            (record {
              square = resize-IsSquare c.nodes id none pv r.sound.square;
              in_range = r.sound.in_range;
              grows = λ b k h. h;
              cells = λ a. resize-cell c id pv a fresh r;
              execs = λ a.
                  inr (omega (arith, exec_of-resize c.nodes id none pv a r.sound.square fresh));
            })
            r.sound;
      mine = HasNode-resize c.nodes id none pv c.my_id r.sound.square r.mine;
    }

-- Another node leaves.
pub del-IsRunning :
    (c : Core) (id : ℕ)
    → c.my_id ≢ id
    → IsRunning c
    → IsRunning (record c { nodes = del c.nodes id })
del-IsRunning c id apart r =
    let c' : Core = record c { nodes = del c.nodes id } in
    let cells : (a : ℕ) → my_cell c' a ≡ (if a == id then 0 else my_cell c a) = λ a.
      my_cell-cell c' a
      ∙ rw (cell-del c.nodes id c.my_id a r.sound.square) (
          rw (==_ne c.my_id id apart) (elim (Bool-cases (a == id)) [
            | inl gone ↦ rw gone refl
            | inr other ↦ rw other (sym (my_cell-cell c a))
          ])) in
    record {
      sound =
          Carries-IsSound c c'
            (record {
              square = del-IsSquare c.nodes id r.sound.square;
              in_range = r.sound.in_range;
              grows = λ b k h. h;
              cells = λ a. ground (arith, cells a);
              execs = λ a. elim (Bool-cases (a == id)) [
                | inl gone ↦ inl (cells a ∙ rw gone refl)
                | inr other ↦ inr (
                    omega (
                      arith,
                      exec_of-del c.nodes id a (λ e. ground (arith, ==_refl id, rw e at other)),
                    ))
              ];
            })
            r.sound;
      mine = HasNode-del c.nodes id c.my_id apart r.mine;
    }
