-- ===== src/Core/Own.antt =====
-- A command that a node makes itself, in the invariant of a node that runs.
use distadm.Prelude.{
  ℕ, ◌+◌, ◌≤◌, ◌<◌, ◌≡◌, refl, ◌∙◌, Bool, true, arith, Bool-cases, Option-cases, ==_refl, inl, inr,
  get_or,
}
use distadm.Matrix.{node_offset}
use distadm.Messages.{Body, Msg, u64, inc64, insert_msg}
use distadm.Core.{Core, is_active, my_row, set_my_cell, my_cell}
use distadm.Core.Create.{new_msg, add_own, create_command}
use distadm.Core.Rows.{my_cell-set_my_cell}
use distadm.Core.Pending.{has_msg-grows, my_row-width, my_cell-at, create_command-IsSound}
use distadm.Core.Gaps.{Kept, Kept-refl, Kept-set_my_cell}
use distadm.Core.Running.{IsRunning}

-- The number of a command that the node makes itself leaves room for an increment.
abbrev pub Room : Core → Type 0
Room c = my_cell c c.my_id + 1 < u64

-- A message comes to the set.
pub Kept-message :
    (c c' : Core) (m : Msg)
    → Kept c c'
    → c'.messages ≡ c.messages
    → Kept c (record c' { messages = insert_msg m c.messages; need_save = true })
Kept-message c c' m k same = record {
  same_id = k.same_id;
  offsets = k.offsets;
  execs = k.execs;
  grows = λ b j h. has_msg-grows b j m c.messages h;
  square = k.square;
  mine = k.mine;
}

pub create_command-Kept :
    (c : Core) (body : Body) (add_depends : Bool) → Kept c (create_command c body add_depends)
unfolding create_command add_own set_my_cell
create_command-Kept c body add_depends = elim (Bool-cases (is_active c.status)) [
  | inr passive ↦ rw passive (Kept-refl c)
  | inl active ↦ rw active (elim (Option-cases (node_offset c.nodes c.my_id)) [
    | inl absent ↦ rw (absent, add_own) (Kept-refl c)
    | inr (i, at_i) ↦
        let cmd = new_msg c i body add_depends in
        let k = Kept-set_my_cell c c.my_id i (inc64 cmd.msg_number) at_i in
        rw (at_i, add_own) (Kept-message c (set_my_cell i (inc64 cmd.msg_number) c) cmd k refl)
  ])
]

pub own-IsRunning :
    (c : Core) (body : Body) (add_depends : Bool)
    → Room c
    → IsRunning c
    → IsRunning (create_command c body add_depends)
own-IsRunning c body add_depends room r = record {
  sound = create_command-IsSound c body add_depends r.sound (λ active. r.mine) room;
  mine = (create_command-Kept c body add_depends).mine r.mine;
}

pub same_cell :
    (c c' : Core) → c'.nodes ≡ c.nodes → c'.my_id ≡ c.my_id → my_cell c' c.my_id ≡ my_cell c c.my_id
unfolding my_cell my_row
same_cell c c' same_nodes same_id = rw same_nodes (rw same_id refl)

inc64-le : (x : ℕ) → inc64 x ≤ x + 1
unfolding inc64
inc64-le x = ground arith

-- One command moves my own cell on by one at most.
pub create_command-cell :
    (c : Core) (body : Body) (add_depends : Bool)
    → IsRunning c
    → my_cell (create_command c body add_depends) c.my_id ≤ my_cell c c.my_id + 1
unfolding create_command add_own
create_command-cell c body add_depends r = elim (Bool-cases (is_active c.status)) [
  | inr passive ↦ rw passive (omega arith)
  | inl active ↦ rw active (elim (Option-cases (node_offset c.nodes c.my_id)) [
    | inl absent ↦ rw (absent, add_own) (omega arith)
    | inr (i, at_i) ↦
        let next = inc64 (get_or (my_row c) i 0) in
        let width = my_row-width c c.my_id i r.mine.0 r.sound.square r.mine.1 at_i in
        let cell : my_cell (set_my_cell i next c) c.my_id ≡ next =
          my_cell-set_my_cell c c.my_id i next at_i c.my_id width ∙ rw (==_refl c.my_id) refl in
        rw (at_i, add_own)
          (omega (
            arith,
            same_cell (set_my_cell i next c) _ refl refl,
            cell,
            my_cell-at c c.my_id i at_i,
            inc64-le (get_or (my_row c) i 0),
          ))
  ])
]
