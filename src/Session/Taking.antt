-- ===== src/Session/Taking.antt =====
-- What one answer of a session does to the row of the node that asked.
use distadm.Prelude.{
  ℕ, zero, suc, ◌+◌, ◌-◌, ◌≤◌, ◌<◌, ◌≡◌, ◌≢◌, refl, sym, ap, ◌∙◌, true, false, some, List, [], ◌∷◌,
  length, get_elem?, get_or, set, ◌==◌, arith, Bool-cases, ==_refl, ==_ne, get_or-get_elem?, inl,
  inr,
}
use distadm.Matrix.Lookup.{get_or-index, index_from-lt}
use distadm.Matrix.{Matrix, ids, find, node_offset, index_from}
use distadm.Matrix.Shape.{Ascends, IsSquare}
use distadm.Messages.{Msg, u64, is_id, has_msg, find_msg, insert_msg}
use distadm.Messages.Members.{has_msg-insert_msg}
use distadm.Core.{Core, my_row, set_my_cell}
use distadm.Core.Receive.{next_unknown, add_cmd}
use distadm.Core.Counting.{InRange, Consecutive, next_unknown_lem}
use distadm.Core.Rows.{ids-modify, find-modify, my_row-set_my_cell}
use distadm.Core.Pending.{InRange-insert_msg}

-- What is in the set is found, and has the number that was asked for.
pub find_msg-has_msg :
    (id number : ℕ) (ms : List Msg)
    → has_msg id number ms ≡ true
    → InRange ms
    → (m : Msg) × (find_msg id number ms ≡ some m)
      × (m.node_id ≡ id)
      × (m.msg_number ≡ number)
      × (m.msg_number + 1 < u64)
unfolding find_msg has_msg is_id
find_msg-has_msg id number [] h r = absurd cc
find_msg-has_msg id number (x ∷ ms) h r = elim (Bool-cases (is_id id number x)) [
  | inl here ↦ (x, rw here refl, ground arith, ground arith, r.0)
  | inr later ↦ rw later (find_msg-has_msg id number ms (rw later at h) r.1)
]

index_from-get_elem? :
    (r lo j x : ℕ) (ys : List ℕ)
    → Ascends lo ys
    → get_elem? ys j ≡ some x
    → (lo ≤ x) × (index_from r x ys ≡ some (r + j))
unfolding index_from
index_from-get_elem? r lo j x [] a h = absurd cc
index_from-get_elem? r lo zero x (y ∷ ys) a h =
    let same : y ≡ x = cc in
    let sum : r ≡ r + 0 = omega arith in
    (omega (arith, same, a.0), rw same (rw (==_refl x) (ap some sum)))
index_from-get_elem? r lo (suc j) x (y ∷ ys) a h =
    let (above, at) = index_from-get_elem? (suc r) (suc y) j x ys a.1 h in
    let sum : suc r + j ≡ r + suc j = omega arith in
    let apart : (y == x) ≡ false = ==_ne y x (λ e. omega (arith, e, above)) in
    (omega (arith, a.0, above), rw apart (at ∙ ap some sum))

-- The index of a key that stands at `j`
pub node_offset-at :
    (c : Core) (j x : ℕ)
    → IsSquare c.nodes
    → get_elem? (ids c.nodes) j ≡ some x
    → node_offset c.nodes x ≡ some j
unfolding node_offset
node_offset-at c j x sq h =
    (index_from-get_elem? 0 0 j x (ids c.nodes) sq.ordered h).1 ∙ ap some (omega arith)

pub get_elem?-offset :
    (m : Matrix) (a j : ℕ) → node_offset m a ≡ some j → get_elem? (ids m) j ≡ some a
unfolding node_offset
get_elem?-offset m a j at_j =
    get_or-get_elem? (ids m) j 0 (omega (arith, index_from-lt 0 a j (ids m) at_j))
    ∙ ap some (get_or-index a j m at_j)

-- The cells that `row` is ahead of `mine`, in all
unfoldable pub lack : List ℕ → List ℕ → ℕ
lack [] mine = 0
lack (t ∷ row) [] = 0
lack (t ∷ row) (m ∷ mine) = (t - m) + lack row mine

pub lack-set :
    (row mine : List ℕ) (j x : ℕ)
    → j < length mine
    → get_or mine j 0 < get_or row j 0
    → get_or mine j 0 < x
    → lack row (set mine j x) < lack row mine
unfolding lack
lack-set [] mine j x h l g = absurd (omega arith)
lack-set (t ∷ row) [] j x h l g = absurd (omega arith)
lack-set (t ∷ row) (m ∷ mine) zero x h l g = omega arith
lack-set (t ∷ row) (m ∷ mine) (suc j) x h l g =
    omega (arith, lack-set row mine j x (omega arith) l g)

module _ (c : Core) (cmd : Msg) (x : ℕ) (at_x : node_offset c.nodes cmd.node_id ≡ some x)
    (node : c.has_my_node ≡ true) where
  abbrev pub taken_set : List Msg
  taken_set = insert_msg cmd c.messages

  abbrev pub next : ℕ
  next = next_unknown (suc (length taken_set)) cmd.node_id (get_or (my_row c) x 0) taken_set

  abbrev pub taken : Core
  taken = set_my_cell x next (record c { messages = taken_set; need_save = true })

  pub add_cmd-taken : add_cmd c cmd ≡ taken
  unfolding add_cmd
  add_cmd-taken = rw (at_x, add_cmd) (ground arith)

  pub my_row-taken : my_row taken ≡ set (my_row c) x next
  unfolding my_row
  my_row-taken = my_row-set_my_cell (record c { messages = taken_set; need_save = true }) x next

  pub ids-taken : ids taken.nodes ≡ ids c.nodes
  unfolding set_my_cell
  ids-taken = ids-modify c.my_id _ c.nodes

  pub find-taken : (a : ℕ) → a ≢ c.my_id → find a taken.nodes ≡ find a c.nodes
  unfolding set_my_cell
  find-taken a apart = find-modify c.my_id a _ c.nodes ∙ rw (==_ne a c.my_id apart) refl

  -- The numbers up to `next` are there.
  pub next-Consecutive :
      InRange c.messages
      → cmd.msg_number + 1 < u64
      → Consecutive cmd.node_id (get_or (my_row c) x 0) next taken_set
  next-Consecutive r small =
      next_unknown_lem cmd.node_id (get_or (my_row c) x 0) taken_set
        (InRange-insert_msg cmd c.messages small r)

  -- The message that is taken is the next one of its author: its cell moves on.
  pub next-above :
      InRange c.messages
      → cmd.msg_number + 1 < u64
      → get_or (my_row c) x 0 ≡ cmd.msg_number
      → cmd.msg_number < next
  unfolding is_id
  next-above r small asked =
      let run = next-Consecutive r small in
      let there : has_msg cmd.node_id cmd.msg_number taken_set ≡ true =
        has_msg-insert_msg cmd.node_id cmd.msg_number cmd c.messages
        ∙ ground (arith, ==_refl cmd.node_id, ==_refl cmd.msg_number) in
      let moved : next ≢ cmd.msg_number =
        λ same. cc (sym there ∙ ap (λ k. has_msg cmd.node_id k taken_set) (sym same) ∙ run.stops) in
      ground (arith, run.after, asked, moved)
