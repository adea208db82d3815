-- ===== src/Examples/Joins.antt =====
-- Node 3 creates a group of its own, or joins the pair through node 1.
use distadm.Prelude.{map, false, true, some, [], ◌∷◌, ◌≡◌, refl, inl, inr}
use distadm.Matrix.{find}
use distadm.Matrix.Sent.{sent_vld}
use distadm.Messages.{read_msg}
use distadm.Core.{Core, NodeStatus}
use distadm.Core.Invite.{create_group, first_id, write_initializer_v1, read_net_initializer}
use distadm.Core.Running.{IsRunning}
use distadm.Core.Joining.{HasUnused}
use distadm.Core.Initialized.{create_group-IsRunning, read_net_initializer-IsRunning}
use distadm.Examples.{pair, core, waiting}
use distadm.Examples.Runs.{core-IsRunning}

abbrev newcomer : Core
newcomer = record (core []) {
  my_id = 3;
  has_my_node = false;
  status = NodeStatus.uninitialized;
  nodes = [];
}

unused : HasUnused (sent_vld pair) (first_id (5 ∷ []) 3).0 (first_id (5 ∷ []) 3).1
unfolding first_id find
unused = inl refl

read_net_initializer-IsRunning_example :
    (c' : Core) × (read_net_initializer
        (false ∷ true ∷ [])
        (5 ∷ [])
        (write_initializer_v1 (core waiting))
        newcomer
      ≡ some c')
    × IsRunning c'
    × (c'.status ≡ NodeStatus.work)
    × (c'.messages ≡ map read_msg waiting)
read_net_initializer-IsRunning_example =
    read_net_initializer-IsRunning (false ∷ true ∷ []) (5 ∷ []) (core waiting) newcomer
      core-IsRunning (inr (inl refl)) unused

create_group-IsRunning_example :
    IsRunning (create_group 3 0 true newcomer).0
    × (true ≡ true → (create_group 3 0 true newcomer).0.status ≡ NodeStatus.work)
create_group-IsRunning_example = create_group-IsRunning 3 0 true newcomer refl refl

abbrev inviting : Core
inviting = record (core waiting) { status = NodeStatus.inviter }
