-- ===== src/Session/Agrees.antt =====
-- A whole session: both nodes have what either had.
use distadm.Prelude.{ℕ, suc, ◌≤◌, ◌≡◌, refl, Bool, true, max, arith}
use distadm.Messages.{Msg}
use distadm.Core.{my_row, my_cell}
use distadm.Net.{CoreNet}
use distadm.Session.{Meeting, ask_again, ask_back, session}
use distadm.Session.Taking.{lack}
use distadm.Session.Learns.{Faces}
use distadm.Session.Knows.{Ready, client_main-Met}

-- A session of two nodes of a group ends, with as much fuel as the messages need, and then both know
-- every command that either knew, the one that connected all that the other knows, and both are still
-- running. This is stated where the two are honest both ways (`Faces`), both run with no other
-- download under way, neither program is to end and every file arrives.
pub session-agreed :
    (arrives : Msg → Bool) (c s : CoreNet)
    → Ready c
    → Ready s
    → Faces c.core s.core
    → Faces s.core c.core
    → ((m : Msg) → arrives m ≡ true)
    → (first : ℕ) × (second : ℕ) × (third : ℕ) × (c' : CoreNet) × (s' : CoreNet) × (session first
          second third arrives c s
        ≡ Meeting.agreed c' s')
      × Ready c'
      × Ready s'
      × ((a : ℕ) → max (my_cell c.core a) (my_cell s.core a) ≤ my_cell s'.core a)
      × ((a : ℕ) → my_cell s'.core a ≤ my_cell c'.core a)
unfolding session ask_back ask_again
session-agreed arrives c s r t f g all =
    let first = suc (lack (my_row s.core) (my_row c.core)) in
    let (c₁, ends₁, m₁) = client_main-Met first arrives s c t.running r f g all (omega arith) in
    let second = suc (lack (my_row c₁.core) (my_row s.core)) in
    let (s₁, ends₂, m₂) =
      client_main-Met second arrives c₁ s m₁.ready.running t m₁.faced m₁.faces all (omega arith) in
    let third = suc (lack (my_row s₁.core) (my_row c₁.core)) in
    let (c₂, ends₃, m₃) =
      client_main-Met third arrives s₁ c₁ m₂.ready.running m₁.ready m₂.faced m₂.faces all
        (omega arith) in
    (
      first,
      second,
      third,
      c₂,
      s₁,
      rw (ends₁, session) (rw (ends₂, ask_back) (rw (ends₃, ask_again) refl)),
      m₃.ready,
      m₂.ready,
      λ a. omega (arith, m₁.knows a, m₁.grows a, m₂.knows a, m₂.grows a),
      m₃.knows,
    )
