-- ===== src/Core/Joining.antt =====
-- A node that joins a group starts in a state that keeps the invariant of a running node.
use distadm.Prelude.{
  ℕ, ◌≤◌, ◌≡◌, refl, ap, ◌∙◌, Bool, true, false, Option, none, some, List, [], ◌∷◌, ◌==◌, ◌⊎◌,
  arith, Bool-cases, Option-cases, ==_refl, inl, inr,
}
use distadm.Matrix.{Node, Matrix, ids, find, node_offset}
use distadm.Matrix.Resize.{source_cell, resize}
use distadm.Matrix.Resized.{row-resized}
use distadm.Matrix.Widen.{has-set_union}
use distadm.Matrix.Grow.{resize-resized, resize_cells, widened, known}
use distadm.Matrix.Square.{resize-IsSquare}
use distadm.Core.{Core, NodeStatus, cell_or, my_row, my_cell, max_proto_ver}
use distadm.Core.Changes.{or_zero, my_cell-cell, exec_of-resize}
use distadm.Core.Running.{IsRunning, same-IsRunning}
use distadm.Core.Invite.{unused_id, agree_id, join_as, as_member, join_net}

source_cell-cell_or : (row : List ℕ) (j : Option ℕ) → source_cell (some row) j ≡ cell_or row j
source_cell-cell_or row none = refl
source_cell-cell_or row (some j) = refl

-- The row of a node that joins claims no more than the row that it is copied from.
copied-le :
    (m : Matrix) (id a : ℕ) (n : Node)
    → or_zero (widened m id (some n) id a) ≤ cell_or n.matrix_row (node_offset m a)
copied-le m id a n =
    let same = source_cell-cell_or n.matrix_row (node_offset m a) in
    elim (Bool-cases (a == id)) [
      | inl new ↦ rw new (rw (==_refl id) (omega arith))
      | inr old ↦ rw old (
          rw (==_refl id) (elim (Bool-cases (known m a)) [
            | inl there ↦ rw there (omega (arith, same))
            | inr gone ↦ rw gone (omega arith)
          ]))
    ]

module _ (c : Core) (id from_id : ℕ) (r : IsRunning (record c { my_id = from_id }))
    (fresh : find id c.nodes ≡ none) where
  abbrev sender : Core
  sender = record c { my_id = from_id }

  abbrev joined : Core
  joined = record c {
    my_id = id;
    nodes = resize c.nodes id (some r.mine.0) (max_proto_ver c.nodes);
  }

  joined-cell : (a : ℕ) → my_cell joined a ≤ my_cell sender a
  unfolding my_cell my_row
  joined-cell a =
      let pv = max_proto_ver c.nodes in
      let mine : my_cell joined a ≡ or_zero (widened c.nodes id (some r.mine.0) id a) =
        my_cell-cell joined a
        ∙ ap or_zero (resize_cells c.nodes id (some r.mine.0) pv id a r.sound.square fresh) in
      let theirs : my_cell sender a ≡ cell_or r.mine.0.matrix_row (node_offset c.nodes a) =
        rw r.mine.1 refl in
      omega (arith, mine, theirs, copied-le c.nodes id a r.mine.0)

  joined-mine : (n : Node) × (find id joined.nodes ≡ some n)
  joined-mine =
      let (n, found, row) =
        row-resized c.nodes (id ∷ []) (some r.mine.0) (max_proto_ver c.nodes) r.sound.square.ordered
          (omega arith) id (ground (arith, has-set_union id (ids c.nodes) (id ∷ []), ==_refl id)) in
      rw resize-resized (n, found)

  joined-IsRunning : IsRunning joined
  joined-IsRunning = record {
    sound = record {
      square = resize-IsSquare c.nodes id (some r.mine.0) (max_proto_ver c.nodes) r.sound.square;
      in_range = r.sound.in_range;
      pending = λ a k h l.
          let same =
            exec_of-resize c.nodes id (some r.mine.0) (max_proto_ver c.nodes) a r.sound.square
              fresh in
          r.sound.pending a k (omega (arith, same, h)) (omega (arith, joined-cell a, l));
    };
    mine = joined-mine;
  }

  join_as-joined : join_as id from_id c ≡ some joined
  unfolding join_as
  join_as-joined = rw (r.mine.1, join_as) refl

-- One of the ids that are tried is not in use.
abbrev pub HasUnused : Matrix → ℕ → List ℕ → Type 0
HasUnused m id [] = find id m ≡ none
HasUnused m id (draw ∷ draws) = (find id m ≡ none) ⊎ HasUnused m draw draws

-- The other side agrees in the end.
abbrev pub Agrees : List Bool → Type 0
Agrees [] = ⊥
Agrees (ok ∷ oks) = (ok ≡ true) ⊎ Agrees oks

HasUnused-first : (m : Matrix) (id : ℕ) (draws : List ℕ) → find id m ≡ none → HasUnused m id draws
HasUnused-first m id [] h = h
HasUnused-first m id (draw ∷ draws) h = inl h

unused_id-none :
    (m : Matrix) (id : ℕ) (draws : List ℕ)
    → find id m ≡ none
    → unused_id draws id m ≡ some (id, draws)
unfolding unused_id
unused_id-none m id [] h = rw (h, unused_id) refl
unused_id-none m id (draw ∷ draws) h = rw (h, unused_id) refl

unused_id-found :
    (m : Matrix) (id : ℕ) (draws : List ℕ)
    → HasUnused m id draws
    → (id' : ℕ) × (left : List ℕ) × (unused_id draws id m ≡ some (id', left)) × (find id' m ≡ none)
unfolding unused_id
unused_id-found m id [] h = (id, [], unused_id-none m id [] h, h)
unused_id-found m id (draw ∷ draws) h = elim (Option-cases (find id m)) [
  | inl unused ↦ (id, draw ∷ draws, unused_id-none m id (draw ∷ draws) unused, unused)
  | inr (n, used) ↦
      let later : HasUnused m draw draws = elim h [
        | inl unused ↦ ground arith
        | inr there ↦ there
      ] in
      rw (used, unused_id) (unused_id-found m draw draws later)
]

agree_id-found :
    (m : Matrix) (oks : List Bool) (draws : List ℕ) (id : ℕ)
    → Agrees oks
    → HasUnused m id draws
    → (id' : ℕ) × (agree_id oks draws id m ≡ some id') × (find id' m ≡ none)
unfolding agree_id
agree_id-found m [] draws id a h = absurd a
agree_id-found m (true ∷ oks) draws id a h =
    let (id', left, found, unused) = unused_id-found m id draws h in
    (id', rw (found, agree_id) refl, unused)
agree_id-found m (false ∷ oks) draws id a h =
    let (id', left, found, unused) = unused_id-found m id draws h in
    let later : Agrees oks = elim a [ inl refused ↦ absurd cc | inr there ↦ there ] in
    rw (found, agree_id) (agree_id-found m oks left id' later (HasUnused-first m id' left unused))

-- A node that takes the state of a running node over joins as a running node.
pub join_net-IsRunning :
    (oks : List Bool) (draws : List ℕ) (id from_id : ℕ) (c : Core)
    → Agrees oks
    → HasUnused c.nodes id draws
    → IsRunning (record c { my_id = from_id })
    → (c' : Core) × (join_net oks draws id from_id c ≡ some c')
      × IsRunning c'
      × (c'.status ≡ NodeStatus.work)
      × (c'.messages ≡ c.messages)
unfolding join_net
join_net-IsRunning oks draws id from_id c a h r =
    let (id', agreed, fresh) = agree_id-found c.nodes oks draws id a h in
    let start = joined-IsRunning c id' from_id r fresh in
    let c' = joined c id' from_id r fresh in
    (
      as_member c',
      rw (agreed, join_net) (rw (join_as-joined c id' from_id r fresh) refl),
      same-IsRunning c' (as_member c') refl refl refl start,
      refl,
      refl,
    )
