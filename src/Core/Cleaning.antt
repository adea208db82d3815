-- ===== src/Core/Cleaning.antt =====
-- Core::remove_old_commands keeps the invariant of a node that runs.
use distadm.Prelude.{
  ℕ, suc, ◌+◌, ◌≤◌, ◌<◌, ◌≡◌, refl, sym, ◌∙◌, Bool, true, false, not, some, List, [], ◌∷◌, length,
  ltb, ◌==◌, ◌&&◌, ◌||◌, arith, Bool-cases, Option-cases, inl, inr, filterb, subst,
}
use distadm.Matrix.{find, node_offset}
use distadm.Messages.{Body, Msg, u64, is_id, has_msg}
use distadm.Core.{Core, NodeStatus, my_row, my_cell, exec_of}
use distadm.Core.Create.{create_command}
use distadm.Core.Remove.{
  ign_nodes, level_of, is_old, bdm_delnode, bdm_delfile, bdm_deldir, before_delete,
  before_delete_message, sweep, delete_flag, drop_old, is_inviter, remove_old_commands,
}
use distadm.Core.Removed.{has_msg-filterb, is_id-eq, is_old-IsSpread}
use distadm.Core.Counting.{InRange}
use distadm.Core.Pending.{HoldsPending}
use distadm.Core.Repair.{my_cell-nowhere}
use distadm.Core.Gaps.{Kept, Kept-refl, Kept-trans}
use distadm.Core.Running.{IsRunning, same-IsRunning}
use distadm.Core.Own.{Room, create_command-Kept, own-IsRunning, create_command-cell, same_cell}

-- What a step of the loop leaves: the node runs, and its own cell has moved on by `more` at most.
pub record Cleans (more : ℕ) (c c' : Core) : Type 0 where
  pub kept : Kept c c'
  pub running : IsRunning c'
  pub cell : my_cell c' c.my_id ≤ my_cell c c.my_id + more

pub same-Cleans :
    (c c' : Core)
    → c'.nodes ≡ c.nodes
    → c'.messages ≡ c.messages
    → c'.my_id ≡ c.my_id
    → IsRunning c
    → Cleans 0 c c'
same-Cleans c c' same_nodes same_messages same_id r = record {
  kept = record {
    same_id = same_id;
    offsets = λ b. rw same_nodes refl;
    execs = λ b. rw same_nodes refl;
    grows = λ b k h. rw same_messages h;
    square = λ h. rw same_nodes h;
    mine = λ h. rw same_nodes (rw same_id h);
  };
  running = same-IsRunning c c' same_nodes same_messages same_id r;
  cell = omega (arith, same_cell c c' same_nodes same_id);
}

pub Cleans-trans :
    (m n p : ℕ) (a b c : Core) → m + n ≤ p → Cleans m a b → Cleans n b c → Cleans p a c
Cleans-trans m n p a b c h x y =
    let cell : my_cell c a.my_id ≤ my_cell b a.my_id + n =
      subst (λ id. my_cell c id ≤ my_cell b id + n) x.kept.same_id y.cell in
    record {
      kept = Kept-trans a b c x.kept y.kept;
      running = y.running;
      cell = omega (arith, x.cell, cell, h);
    }

pub weak-Cleans : (a b : Core) → Cleans 0 a b → Cleans 1 a b
weak-Cleans a b x = record { kept = x.kept; running = x.running; cell = omega (arith, x.cell) }

Room-same : (c c' : Core) → c'.nodes ≡ c.nodes → c'.my_id ≡ c.my_id → Room c → Room c'
Room-same c c' same_nodes same_id room =
    subst (λ id. my_cell c' id + 1 < u64) (sym same_id)
      (omega (arith, same_cell c c' same_nodes same_id, room))

pub Room-Cleans :
    (m n : ℕ) (a b : Core)
    → Cleans m a b
    → my_cell a a.my_id + (m + n) + 1 < u64
    → my_cell b b.my_id + n + 1 < u64
Room-Cleans m n a b x h =
    subst (λ id. my_cell b id + n + 1 < u64) (sym x.kept.same_id) (omega (arith, x.cell, h))

pub own-Cleans :
    (c : Core) (body : Body) (add_depends : Bool)
    → Room c
    → IsRunning c
    → Cleans 1 c (create_command c body add_depends)
own-Cleans c body add_depends room r = record {
  kept = create_command-Kept c body add_depends;
  running = own-IsRunning c body add_depends room r;
  cell = create_command-cell c body add_depends r;
}

bdm_delnode-Cleans : (c : Core) (id : ℕ) → Room c → IsRunning c → Cleans 1 c (bdm_delnode c id)
unfolding bdm_delnode
bdm_delnode-Cleans c id room r =
    let c₀ : Core = record c { status = NodeStatus.work } in
    let created = create_command c₀ (Body.delnoderecord id) true in
    let started : Cleans 0 c c₀ = same-Cleans c c₀ refl refl refl r in
    let made : Cleans 1 c created = Cleans-trans 0 1 1 c c₀ created (omega arith) started (
      own-Cleans c₀ (Body.delnoderecord id) true (Room-same c c₀ refl refl room) started.running) in
    let back : Cleans 0 created (record created { status = c.status }) =
      same-Cleans created _ refl refl refl made.running in
    elim (Bool-cases (id == 0 || (id == c.my_id && ltb 1 (length c.nodes)))) [
      | inl skip ↦ rw skip (weak-Cleans c c (same-Cleans c c refl refl refl r))
      | inr create ↦ rw create (Cleans-trans 1 0 1 c created _ (omega arith) made back)
    ]

before_delete-Cleans :
    (c : Core) (value : Body) → Room c → IsRunning c → Cleans 1 c (before_delete c value)
unfolding before_delete bdm_delfile bdm_deldir
before_delete-Cleans c (Body.delnode val force) room r = bdm_delnode-Cleans c val room r
before_delete-Cleans c (Body.delfile filename) room r =
    weak-Cleans c _ (same-Cleans c _ refl refl refl r)
before_delete-Cleans c (Body.deldir dirname) room r =
    weak-Cleans c _ (same-Cleans c _ refl refl refl r)
before_delete-Cleans c value room r = weak-Cleans c c (same-Cleans c c refl refl refl r)

sweep-Cleans :
    (old : Msg → Bool) (ms : List Msg) (c : Core)
    → my_cell c c.my_id + length ms + 1 < u64
    → IsRunning c
    → Cleans (length ms) c (sweep old ms c).0
unfolding sweep before_delete_message
sweep-Cleans old [] c room r = record { kept = Kept-refl c; running = r; cell = omega arith }
sweep-Cleans old (m ∷ ms) c room r = elim (Bool-cases (old m)) [
  | inl goes ↦
      let c₁ = before_delete c m.value in
      let c₂ : Core = record c₁ { need_save = true } in
      let before = before_delete-Cleans c m.value (omega (arith, room)) r in
      let flagged : Cleans 1 c c₂ =
        Cleans-trans 1 0 1 c c₁ c₂ (omega arith) before
          (same-Cleans c₁ c₂ refl refl refl before.running) in
      rw (goes, sweep)
        (Cleans-trans 1 (length ms) (suc (length ms)) c c₂ _ (omega arith) flagged (
          sweep-Cleans old ms c₂ (Room-Cleans 1 (length ms) c c₂ flagged (omega (arith, room)))
            flagged.running))
  | inr stays ↦
      rw (stays, sweep)
        (let rest = sweep-Cleans old ms c (omega (arith, room)) r in
          record { kept = rest.kept; running = rest.running; cell = omega (arith, rest.cell) })
]

-- What is left of the messages when those that are flagged go
pub filterb-InRange : (test : Msg → Bool) (ms : List Msg) → InRange ms → InRange (filterb test ms)
filterb-InRange test [] h = tt
filterb-InRange test (m ∷ ms) h = elim (Bool-cases (test m)) [
  | inl stays ↦ rw (stays, filterb) (h.0, filterb-InRange test ms h.1)
  | inr goes ↦ rw (goes, filterb) (filterb-InRange test ms h.1)
]

module _ (c : Core) (sq : IsRunning c) (none_ignored : ign_nodes c.messages ≡ []) where
  abbrev old : Msg → Bool
  old = is_old c.nodes (level_of c)

  -- A message that is flagged and whose author is a node is executed here.
  flagged-executed :
      (behind : List Msg) (a i k : ℕ) (m : Msg)
      → node_offset c.nodes a ≡ some i
      → is_id a k m ≡ true
      → not (delete_flag old behind m) ≡ false
      → k < exec_of (find a c.nodes)
  unfolding delete_flag
  flagged-executed behind a i k m at_i same flagged =
      let (author, number) = is_id-eq a k m same in
      let spread =
        is_old-IsSpread c i m sq.sound.square none_ignored (rw author at_i) (ground arith) in
      rw number at (rw author at spread.executed)

  module _ (swept : Core) (behind : List Msg) (clean : Cleans (length c.messages) c swept) where
    abbrev dropped : Core
    dropped = record swept {
      messages = filterb (λ m. not (delete_flag old behind m)) swept.messages;
    }

    dropped-pending : HoldsPending dropped
    unfolding my_cell my_row
    dropped-pending a k h l = elim (Bool-cases (has_msg a k dropped.messages)) [
      | inl there ↦ there
      | inr gone ↦ elim (Option-cases (node_offset swept.nodes a)) [
        | inl absent ↦ absurd (omega (arith, l, my_cell-nowhere swept a absent))
        | inr (i, at_i) ↦
            let (m, same, flagged) =
              has_msg-filterb a k _ swept.messages (clean.running.sound.pending a k h l) gone in
            let done =
              flagged-executed behind a i k m (sym (clean.kept.offsets a) ∙ at_i) same flagged in
            absurd (omega (arith, done, clean.kept.execs a, h))
      ]
    ]

    dropped-IsRunning : IsRunning dropped
    dropped-IsRunning = record {
      sound = record {
        square = clean.running.sound.square;
        in_range = filterb-InRange _ swept.messages clean.running.sound.in_range;
        pending = dropped-pending;
      };
      mine = clean.running.mine;
    }

-- What each command that goes may create has room, and no forced "delnode" waits.
pub remove_old_commands-IsRunning :
    (c : Core)
    → ign_nodes c.messages ≡ []
    → my_cell c c.my_id + length c.messages + 1 < u64
    → IsRunning c
    → IsRunning (remove_old_commands c)
unfolding remove_old_commands drop_old
remove_old_commands-IsRunning c none_ignored room r = elim (Bool-cases (is_inviter c.status)) [
  | inl inviter ↦ rw inviter r
  | inr other ↦
      let old = is_old c.nodes (level_of c) in
      rw other (dropped-IsRunning c r none_ignored _ _ (sweep-Cleans old c.messages c room r))
]
