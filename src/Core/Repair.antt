-- ===== src/Core/Repair.antt =====
-- Core::check_matrix makes the invariant of Pending hold of any square matrix.
use distadm.Prelude.{
  ℕ, suc, ◌-◌, ◌≡◌, refl, sym, subst, ◌∙◌, Bool, true, false, none, some, List, [], ◌∷◌, ◌==◌,
  if◌then◌else◌, arith, Bool-cases, Option-cases, ==→eq, ==_refl, inl, inr, get_or,
}
use distadm.Matrix.{Node, Matrix, ids, find, node_offset, index_from}
use distadm.Matrix.Lookup.{index_from-above}
use distadm.Matrix.Shape.{Ascends, IsSquare}
use distadm.Core.{Core, exec_of, my_row, my_cell}
use distadm.Core.Pending.{HoldsPending, my_cell-at}
use distadm.Core.Check.{fill_gap, check_nodes, check_matrix, min_rows}
use distadm.Core.Gaps.{Kept, Kept-refl, Kept-trans, Filled, HasMine, Gap, fill_gap-Gap}

-- A column that is filled stays so while others are.
Filled-Kept :
    (c c' : Core) (b : ℕ) → Kept c c' → my_cell c' b ≡ my_cell c b → Filled c b → Filled c' b
Filled-Kept c c' b kept same h =
    λ k e l. kept.grows b k (h k (rw (kept.execs b) at e) (rw same at l))

-- What the loop over the nodes from column `i` on does
pub record Checked (m : Matrix) (i : ℕ) (c c' : Core) : Type 0 where
  pub kept : Kept c c'
  pub others : (b : ℕ) → index_from i b (ids m) ≡ none → my_cell c' b ≡ my_cell c b
  pub filled : (b k : ℕ) → index_from i b (ids m) ≡ some k → Filled c' b

abbrev Agrees : Matrix → ℕ → Core → Type 0
Agrees m i c =
    (b k : ℕ)
    → index_from i b (ids m) ≡ some k
    → (node_offset c.nodes b ≡ some k) × (exec_of (find b c.nodes) ≡ exec_of (find b m))

tail_apart :
    (id r b k : ℕ) (ys : List ℕ)
    → Ascends (suc id) ys
    → index_from r b ys ≡ some k
    → (id == b) ≡ false
tail_apart id r b k ys asc e = elim (Bool-cases (id == b)) [
  | inl same ↦
      let gone = index_from-above r b (suc id) ys (ground (arith, ==→eq id b)) asc in absurd cc
  | inr other ↦ other
]

Agrees-tail :
    (id lo i : ℕ) (n : Node) (m : Matrix) (c : Core)
    → Ascends lo (ids ((id, n) ∷ m))
    → Agrees ((id, n) ∷ m) i c
    → Agrees m (suc i) c
unfolding index_from find
Agrees-tail id lo i n m c asc h = λ b k e.
    let apart = tail_apart id (suc i) b k (ids m) asc.1 e in
    let both = h b k (rw apart e) in rw apart at both

Agrees-Kept : (m : Matrix) (i : ℕ) (c c' : Core) → Kept c c' → Agrees m i c → Agrees m i c'
Agrees-Kept m i c c' kept h =
    λ b k e. let both = h b k e in (kept.offsets b ∙ both.0, kept.execs b ∙ both.1)

-- The columns that are none of `m`'s nodes are the columns of nodes above or none.
Checked-step :
    (id lo i : ℕ) (n : Node) (m : Matrix) (c c₁ c₂ : Core)
    → Ascends lo (ids ((id, n) ∷ m))
    → Gap id c c₁
    → Checked m (suc i) c₁ c₂
    → Checked ((id, n) ∷ m) i c c₂
unfolding index_from
Checked-step id lo i n m c c₁ c₂ asc gap rest = record {
  kept = Kept-trans c c₁ c₂ gap.kept rest.kept;
  others = λ b h. elim (Bool-cases (id == b)) [
    | inl same ↦ absurd (ground (arith, rw same at h))
    | inr other ↦
        rest.others b (rw other at h) ∙ gap.others b (λ e. ground (arith, ==_refl id, e, other))
  ];
  filled = λ b k h. elim (Bool-cases (id == b)) [
    | inl same ↦
        let same' = ==→eq id b same in
        let gone = index_from-above (suc i) id (suc id) (ids m) (omega arith) asc.1 in
        let mine = Filled-Kept c₁ c₂ id rest.kept (rest.others id gone) gap.filled in
        rw same' at mine
    | inr other ↦ rest.filled b k (rw other at h)
  ];
}

pub check_nodes-Checked :
    (m : Matrix) (i lo : ℕ) (minrow : List ℕ) (c : Core)
    → Ascends lo (ids m)
    → Agrees m i c
    → IsSquare c.nodes
    → HasMine c
    → Checked m i c (check_nodes m i minrow c)
unfolding check_nodes index_from find
check_nodes-Checked [] i lo minrow c asc agrees sq mine = record {
  kept = Kept-refl c;
  others = λ b h. refl;
  filled = λ b k h. absurd cc;
}
check_nodes-Checked ((id, n) ∷ m) i lo minrow c asc agrees sq mine =
    let here = agrees id i (rw (==_refl id) refl) in
    let exec : exec_of (find id c.nodes) ≡ n.command_to_exec = rw (==_refl id) at here.1 in
    let cell = my_cell-at c id i here.0 in
    let c₁ =
      fill_gap (get_or (my_row c) i 0 - n.command_to_exec) id i (get_or minrow i 0)
        n.command_to_exec c in
    let gap : Gap id c c₁ =
      fill_gap-Gap (get_or (my_row c) i 0 - n.command_to_exec) id i (get_or minrow i 0)
        n.command_to_exec c here.0 sq mine (omega (arith, cell))
        (λ k e l. absurd (omega (arith, exec))) in
    Checked-step id lo i n m c c₁ _ asc gap (
      check_nodes-Checked m (suc i) (suc id) minrow c₁ asc.1
        (Agrees-Kept m (suc i) c c₁ gap.kept (Agrees-tail id lo i n m c asc agrees))
        (gap.kept.square sq) (gap.kept.mine mine))

pub if_true : (t : Bool) (x y : Core) → t ≡ true → (if t then x else y) ≡ x
if_true t x y h = rw h refl

pub my_cell-nowhere : (c : Core) (a : ℕ) → node_offset c.nodes a ≡ none → my_cell c a ≡ 0
unfolding my_cell
my_cell-nowhere c a h = rw (h, my_cell) refl

-- After `check_matrix` the invariant of pending commands holds, whatever the matrix and the messages
-- were before: of each author, the commands that my row claims and that are not executed are among
-- the messages. It is stated where the node has its entry, in a square matrix.
pub check_matrix-HoldsPending :
    (c : Core)
    → IsSquare c.nodes
    → c.has_my_node ≡ true
    → (n : Node) × (find c.my_id c.nodes ≡ some n)
    → HoldsPending (check_matrix c)
unfolding check_matrix node_offset
check_matrix-HoldsPending c sq node mine =
    let run =
      check_nodes-Checked c.nodes 0 0 (min_rows c.nodes (my_row c)) c sq.ordered
        (λ b k e. (e, refl)) sq mine in
    let result = check_nodes c.nodes 0 (min_rows c.nodes (my_row c)) c in
    let holds : HoldsPending result = λ a k e l. elim (Option-cases (node_offset result.nodes a)) [
      | inl absent ↦ absurd (omega (arith, l, my_cell-nowhere result a absent))
      | inr (i, at_i) ↦ run.filled a i (sym (run.kept.offsets a) ∙ at_i) k e l
    ] in
    subst HoldsPending (sym (if_true c.has_my_node result c node)) holds
