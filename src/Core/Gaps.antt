-- ===== src/Core/Gaps.antt =====
-- What the inner loop of Core::check_matrix does for the column of one node.
use distadm.Prelude.{
  ℕ, zero, suc, ◌+◌, ◌≤◌, ◌<◌, ◌≡◌, ◌≢◌, refl, ◌∙◌, true, not, some, leb, ◌==◌, ◌&&◌, arith,
  Bool-cases, ==→eq, ==_ne, ==_refl, inl, inr,
}
use distadm.Matrix.{Node, find, node_offset}
use distadm.Matrix.Shape.{IsSquare}
use distadm.Messages.{is_id, has_msg}
use distadm.Messages.Members.{has_msg-insert_msg}
use distadm.Core.{Core, exec_of, my_row, my_cell, set_my_cell}
use distadm.Core.Rows.{
  my_cell-set_my_cell, exec_of-set_my_cell, set_my_cell-IsSquare, offset-set_my_cell, find-modify,
}
use distadm.Core.Pending.{my_row-width, has_msg-grows}
use distadm.Core.Check.{bad_msg, with_bad, fill_gap}

-- What no round changes, and what only grows
pub record Kept (c c' : Core) : Type 0 where
  pub same_id : c'.my_id ≡ c.my_id
  pub offsets : (b : ℕ) → node_offset c'.nodes b ≡ node_offset c.nodes b
  pub execs : (b : ℕ) → exec_of (find b c'.nodes) ≡ exec_of (find b c.nodes)
  pub grows : (b k : ℕ) → has_msg b k c.messages ≡ true → has_msg b k c'.messages ≡ true
  pub square : IsSquare c.nodes → IsSquare c'.nodes
  pub mine :
      (n : Node) × (find c.my_id c.nodes ≡ some n) → (n : Node) × (find c'.my_id c'.nodes ≡ some n)

pub Kept-refl : (c : Core) → Kept c c
Kept-refl c = record {
  same_id = refl;
  offsets = λ b. refl;
  execs = λ b. refl;
  grows = λ b k h. h;
  square = λ h. h;
  mine = λ h. h;
}

pub Kept-trans : (a b c : Core) → Kept a b → Kept b c → Kept a c
Kept-trans a b c p q = record {
  same_id = q.same_id ∙ p.same_id;
  offsets = λ x. q.offsets x ∙ p.offsets x;
  execs = λ x. q.execs x ∙ p.execs x;
  grows = λ x k h. q.grows x k (p.grows x k h);
  square = λ h. q.square (p.square h);
  mine = λ h. q.mine (p.mine h);
}

pub Kept-set_my_cell :
    (c : Core) (a i x : ℕ) → node_offset c.nodes a ≡ some i → Kept c (set_my_cell i x c)
unfolding set_my_cell
Kept-set_my_cell c a i x at_i = record {
  same_id = refl;
  offsets = offset-set_my_cell c a i x at_i;
  execs = exec_of-set_my_cell c a i x at_i;
  grows = λ b k h. h;
  square = set_my_cell-IsSquare c a i x at_i;
  mine = λ h. rw find-modify (rw (==_refl c.my_id) (rw h.1 (_, refl)));
}

Kept-with_bad : (c : Core) (id j : ℕ) → Kept c (with_bad id j c)
Kept-with_bad c id j = record {
  same_id = refl;
  offsets = λ b. refl;
  execs = λ b. refl;
  grows = λ b k h. has_msg-grows b k (bad_msg id j) c.messages h;
  square = λ h. h;
  mine = λ h. h;
}

abbrev pub Filled : Core → ℕ → Type 0
Filled c a =
    (k : ℕ) → exec_of (find a c.nodes) ≤ k → k < my_cell c a → has_msg a k c.messages ≡ true

abbrev pub HasMine : Core → Type 0
HasMine c = (n : Node) × (find c.my_id c.nodes ≡ some n)

-- What the loop over j does for the column of `id`
pub record Gap (id : ℕ) (c c' : Core) : Type 0 where
  pub kept : Kept c c'
  pub others : (b : ℕ) → b ≢ id → my_cell c' b ≡ my_cell c b
  pub filled : Filled c' id

abbrev pub UpTo : Core → ℕ → ℕ → Type 0
UpTo c id j = (k : ℕ) → exec_of (find id c.nodes) ≤ k → k < j → has_msg id k c.messages ≡ true

UpTo-suc : (c : Core) (id j : ℕ) → UpTo c id j → has_msg id j c.messages ≡ true → UpTo c id (suc j)
UpTo-suc c id j h last = λ k e l. elim (Bool-cases (k == j)) [
  | inl at_j ↦ rw (==→eq k j at_j) last
  | inr before ↦ h k e (ground arith)
]

Gap-cut :
    (c : Core) (id i j : ℕ)
    → node_offset c.nodes id ≡ some i
    → IsSquare c.nodes
    → HasMine c
    → UpTo c id j
    → Gap id c (set_my_cell i j c)
unfolding set_my_cell
Gap-cut c id i j at_i sq mine upto =
    let width = my_row-width c id i mine.0 sq mine.1 at_i in
    let cells = λ (b : ℕ). my_cell-set_my_cell c id i j at_i b width in
    record {
      kept = Kept-set_my_cell c id i j at_i;
      others = λ b h. cells b ∙ rw (==_ne b id h) refl;
      filled = λ k h l.
          upto k (rw (exec_of-set_my_cell c id i j at_i id) at h)
            (rw (==_refl id) at (rw (cells id) at l));
    }

Gap-bad : (c c' : Core) (id j : ℕ) → Gap id (with_bad id j c) c' → Gap id c c'
unfolding my_cell my_row
Gap-bad c c' id j g = record {
  kept = Kept-trans c (with_bad id j c) c' (Kept-with_bad c id j) g.kept;
  others = g.others;
  filled = g.filled;
}

UpTo-bad : (c : Core) (id j : ℕ) → UpTo c id j → UpTo (with_bad id j c) id (suc j)
unfolding is_id
UpTo-bad c id j h =
    UpTo-suc (with_bad id j c) id j
      (λ k e l. has_msg-grows id k (bad_msg id j) c.messages (h k e l))
      (ground (arith, has_msg-insert_msg id j (bad_msg id j) c.messages))

pub fill_gap-Gap :
    (rounds id i low j : ℕ) (c : Core)
    → node_offset c.nodes id ≡ some i
    → IsSquare c.nodes
    → HasMine c
    → my_cell c id ≤ j + rounds
    → UpTo c id j
    → Gap id c (fill_gap rounds id i low j c)
unfolding fill_gap
fill_gap-Gap zero id i low j c at_i sq mine enough upto = record {
  kept = Kept-refl c;
  others = λ b h. refl;
  filled = λ k h l. upto k h (omega arith);
}
fill_gap-Gap (suc rounds) id i low j c at_i sq mine enough upto =
    elim (Bool-cases (has_msg id j c.messages)) [
      | inl there ↦
          rw (there, fill_gap)
            (fill_gap-Gap rounds id i low (suc j) c at_i sq mine (omega arith)
              (UpTo-suc c id j upto there))
      | inr missing ↦
          rw (missing, fill_gap)
            (elim (Bool-cases (leb low j && not (c.my_id == id))) [
              | inl cut ↦ rw cut (Gap-cut c id i j at_i sq mine upto)
              | inr bad ↦
                  let enough' : my_cell (with_bad id j c) id ≤ suc j + rounds =
                    unfold my_cell my_row in omega (arith, enough) in
                  rw bad (
                    Gap-bad c _ id j (
                      fill_gap-Gap rounds id i low (suc j) (with_bad id j c) at_i sq mine enough'
                        (UpTo-bad c id j upto)))
            ])
    ]
