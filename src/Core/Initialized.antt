-- ===== src/Core/Initialized.antt =====
-- A node that is initialized through the net, and one that creates a group, run.
use distadm.Prelude.{
  map, ℕ, ◌≡◌, refl, sym, ap, ◌∙◌, Bool, true, false, Option, none, some, List, [], ◌∷◌, ◌==◌,
  if◌then◌else◌, arith, ==_refl, append-nil,
}
use distadm.Matrix.{
  Node, Matrix, default_node, index_from, find, node_offset, create, modify, upsert,
}
use distadm.Matrix.Wire.{read_vld, write_vld}
use distadm.Matrix.Sent.{sent_vld, read_vld-write_vld}
use distadm.Matrix.Arrived.{
  received_node, received, find-sent_vld, node_offset-sent_vld, sent_vld-IsSquare,
}
use distadm.Messages.{Msg, read_msg}
use distadm.Messages.Members.{read_msg-id, has_msg-read_msg}
use distadm.Core.Counting.{InRange}
use distadm.Core.{Core, NodeStatus, row_of, exec_of, cell_or, my_row, my_cell}
use distadm.Core.Running.{IsRunning}
use distadm.Core.Invite.{
  first_row, create_group, write_initializer_v1, take_over, read_initializer_v1, first_id,
  read_net_initializer,
}
use distadm.Core.Joining.{HasUnused, Agrees, join_net-IsRunning}

row_of-received : (n : Option Node) → row_of (received n) ≡ row_of n
row_of-received none = refl
row_of-received (some n) = refl

exec_of-received : (n : Option Node) → exec_of (received n) ≡ exec_of n
exec_of-received none = refl
exec_of-received (some n) = refl

exec_of-sent_vld : (m : Matrix) (a : ℕ) → exec_of (find a (sent_vld m)) ≡ exec_of (find a m)
exec_of-sent_vld m a = ap exec_of (find-sent_vld a m) ∙ exec_of-received (find a m)

InRange-read_msg : (ms : List Msg) → InRange ms → InRange (map read_msg ms)
InRange-read_msg [] h = tt
InRange-read_msg (m ∷ ms) h = (omega (arith, (read_msg-id m).1, h.0), InRange-read_msg ms h.1)

module _ (s c : Core) where
  abbrev taken : Core
  taken = take_over (write_initializer_v1 s) (sent_vld s.nodes) c

  abbrev as_sender : Core
  as_sender = record taken { my_id = s.my_id }

  taken-cell : (a : ℕ) → my_cell as_sender a ≡ my_cell s a
  unfolding my_cell my_row take_over write_initializer_v1
  taken-cell a = rw (node_offset-sent_vld s.nodes a) (
      ap (λ row. cell_or row (node_offset s.nodes a))
        (ap row_of (find-sent_vld s.my_id s.nodes) ∙ row_of-received (find s.my_id s.nodes)))

  as_sender-IsRunning : IsRunning s → IsRunning as_sender
  unfolding take_over write_initializer_v1
  as_sender-IsRunning r = record {
    sound = record {
      square = sent_vld-IsSquare s.nodes r.sound.square;
      in_range = InRange-read_msg s.messages r.sound.in_range;
      pending = λ a k h l.
          has_msg-read_msg a k s.messages
          ∙ r.sound.pending a k (omega (arith, exec_of-sent_vld s.nodes a, h))
              (omega (arith, taken-cell a, l));
    };
    mine = (received_node r.mine.0, find-sent_vld s.my_id s.nodes ∙ ap received r.mine.1);
  }

  -- What is written is read.
  read-taken : IsRunning s → read_initializer_v1 (write_initializer_v1 s) c ≡ some taken
  unfolding write_initializer_v1 read_initializer_v1 take_over
  read-taken r =
      let back : read_vld (write_vld s.nodes) ≡ some (sent_vld s.nodes, []) =
        ap read_vld (sym (append-nil (write_vld s.nodes)))
        ∙ read_vld-write_vld s.nodes [] r.sound.square in
      rw (back, read_initializer_v1) refl

-- A node that reads the initializer of a running node through the net becomes a running node of the
-- group, at work and with the messages of the other, each as it is read, when one of the ids that it tries (its own, or a
-- new one where it has none, then further draws) is not in use there and the other side agrees in the end.
pub read_net_initializer-IsRunning :
    (oks : List Bool) (draws : List ℕ) (s c : Core)
    → IsRunning s
    → Agrees oks
    → HasUnused (sent_vld s.nodes) (first_id draws c.my_id).0 (first_id draws c.my_id).1
    → (c' : Core) × (read_net_initializer oks draws (write_initializer_v1 s) c ≡ some c')
      × IsRunning c'
      × (c'.status ≡ NodeStatus.work)
      × (c'.messages ≡ map read_msg s.messages)
unfolding read_net_initializer take_over write_initializer_v1
read_net_initializer-IsRunning oks draws s c r a h =
    rw (read-taken s c r, read_net_initializer)
      (join_net-IsRunning oks (first_id draws c.my_id).1 (first_id draws c.my_id).0 s.my_id
        (taken s c) a h (as_sender-IsRunning s c r))

single-row : (g : Core) (n : Node) → g.nodes ≡ (g.my_id, n) ∷ [] → my_row g ≡ n.matrix_row
unfolding my_row find
single-row g n nodes = rw nodes (rw (==_refl g.my_id) refl)

at_zero : (b : Bool) → cell_or (0 ∷ []) (if b then some 0 else none) ≡ 0
at_zero true = refl
at_zero false = refl

single-cell :
    (g : Core) (n : Node) (a : ℕ)
    → g.nodes ≡ (g.my_id, n) ∷ []
    → n.matrix_row ≡ 0 ∷ []
    → my_cell g a ≡ 0
unfolding my_cell node_offset index_from
single-cell g n a nodes row =
    ap (λ xs. cell_or xs (node_offset g.nodes a)) (single-row g n nodes ∙ row)
    ∙ ap (λ m. cell_or (0 ∷ []) (node_offset m a)) nodes
    ∙ at_zero (g.my_id == a)

single-IsRunning :
    (g : Core) (n : Node)
    → g.nodes ≡ (g.my_id, n) ∷ []
    → n.matrix_row ≡ 0 ∷ []
    → g.messages ≡ []
    → IsRunning g
unfolding find
single-IsRunning g n nodes row messages = record {
  sound = record {
    square = rw nodes (record { ordered = (omega arith, tt); rows = (rw row refl, tt) });
    in_range = rw messages tt;
    pending = λ a k h l. absurd (omega (arith, single-cell g n a nodes row, l));
  };
  mine = (n, rw nodes (rw (==_refl g.my_id) refl));
}

founded :
    (draw hash : ℕ)
    → modify draw (first_row hash) (create draw []) ≡ (draw, first_row hash default_node) ∷ []
unfolding modify create upsert
founded draw hash = rw (==_refl draw) refl

-- A node without a group that creates one, with any id, is a running node of it whatever becomes of the file;
-- it is at work if the file is created.
pub create_group-IsRunning :
    (draw hash : ℕ) (no_file : Bool) (c : Core)
    → c.nodes ≡ []
    → c.messages ≡ []
    → IsRunning (create_group draw hash no_file c).0
      × (no_file ≡ true → (create_group draw hash no_file c).0.status ≡ NodeStatus.work)
unfolding create_group
create_group-IsRunning draw hash true c nodes messages = (
  single-IsRunning (create_group draw hash true c).0 (first_row hash default_node)
      (rw nodes (founded draw hash)) refl messages,
  λ h. refl,
)
create_group-IsRunning draw hash false c nodes messages = (
  single-IsRunning (create_group draw hash false c).0 (first_row hash default_node)
      (rw nodes (founded draw hash)) refl messages,
  λ h. absurd cc,
)
