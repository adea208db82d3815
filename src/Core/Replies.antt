-- ===== src/Core/Replies.antt =====
-- What the queries of Packets answer.
use distadm.Prelude.{
  ℕ, ◌≤◌, ◌≡◌, false, leb, arith, Bool-cases, Option-cases, inl, inr, refl, ==_refl,
}
use distadm.Matrix.{find}
use distadm.Core.{Core}
use distadm.Core.Rows.{find-modify}
use distadm.Core.Packets.{check_msg_cnt}

-- A network message is taken at most once: after `check_msg_cnt` was asked for a number,
-- whatever it answered, it accepts neither that number nor a lower one from the same node.
pub check_msg_cnt_once :
    (c : Core) (id number lower : ℕ)
    → lower ≤ number
    → (check_msg_cnt (check_msg_cnt c id number).0 id lower).1 ≡ false
unfolding check_msg_cnt
check_msg_cnt_once c id number lower h = elim (Option-cases (find id c.nodes)) [
  | inl absent ↦ rw (absent, check_msg_cnt) (rw (absent, check_msg_cnt) refl)
  | inr (n, found) ↦ elim (Bool-cases (leb number n.netmsgcnt)) [
    | inl stale ↦ rw (found, check_msg_cnt) (rw stale (rw (found, check_msg_cnt) (ground arith)))
    | inr fresh ↦
        rw (found, check_msg_cnt)
          (rw fresh (rw find-modify (rw (==_refl id) (rw found (ground arith)))))
  ]
]
