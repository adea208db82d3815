-- ===== src/Daemon/Roles.antt =====
-- The two sides of a connection begin in ways that belong together.
use distadm.Prelude.{ℕ, ◌≡◌, Bool, true, false, not, ◌&&◌, ◌||◌, ◌==◌, arith}
use distadm.Core.{Core, need_initialize}
use distadm.Core.Commands.{node_alive}
use distadm.Core.Packets.{node_known}
use distadm.Daemon.{Next, is_deleting, begin_session}

abbrev pub is_writing : Next → Bool
is_writing Next.writes_initializer = true
is_writing next = false

abbrev pub is_reading : Next → Bool
is_reading Next.reads_initializer = true
is_reading next = false

abbrev pub is_talking : Next → Bool
is_talking Next.talks = true
is_talking next = false

abbrev pub is_leaving : Next → Bool
is_leaving Next.deletes_self = true
is_leaving next = false

-- How `c` goes on with `s`, when each side has told the other the truth
abbrev pub side : ℕ → Core → Core → Next
side version c s = begin_session c s.my_id version (not (need_initialize s)) (node_alive s c.my_id)

-- Whether `c` and `s` are of one group, and `c` is at home in it: `s` has it alive, or it is not to be
-- deleted
abbrev pub is_at_home : Core → Core → Bool
is_at_home c s = node_alive s c.my_id || not (is_deleting c.status)

-- Two nodes that have told each other truly whether they are initialized and whom they have alive: one
-- writes an initializer exactly where the other one reads it. Both talk exactly where the version is 1,
-- both are initialized, each knows the other, and neither is a node to be deleted that the other has no
-- longer alive. Such a node deletes itself, whether the other one knows it or not.
pub begin_session-side :
    (version : ℕ) (c s : Core)
    → (is_writing (side version c s) ≡ is_reading (side version s c))
      × ((is_talking (side version c s) && is_talking (side version s c)) ≡ (
          version == 1
          && (not (need_initialize c) && not (need_initialize s))
          && (node_known c s.my_id && node_known s c.my_id)
          && (is_at_home c s && is_at_home s c)))
      × (is_leaving (side version c s) ≡ (
          version == 1
          && (not (need_initialize c) && not (need_initialize s))
          && not (is_at_home c s)))
unfolding begin_session
begin_session-side version c s = (ground arith, ground arith, ground arith)
