-- ===== src/Core/Ready.antt =====
-- Which command Core::command_to_exec chooses.
use native.Mathlib.Nat.{mod-lt, zero-lt-suc}
use distadm.Prelude.{
  ℕ, zero, suc, ◌%◌, ◌≤◌, ◌≡◌, refl, sym, ap, ◌∙◌, Bool, true, false, none, some, List, [], ◌∷◌,
  length, get_elem?, All, filterb, ltb, ◌==◌, if◌then◌else◌, arith, Bool-cases, Option-cases, inl,
  inr, ==→eq, ==_refl, ltb-false,
}
use distadm.Matrix.{Node, Matrix, find}
use distadm.Messages.{Msg, inc64, is_id, has_msg}
use distadm.Core.{Core, exec_of}
use distadm.Core.Rows.{find-modify}
use distadm.Core.Execute.{depends_met, can_exec, candidates, command_to_exec, mark_as_executed}

-- Every command that `m` depends on is executed, of the authors that are known.
abbrev pub IsMet : Matrix → List (ℕ × ℕ) → Type 0
IsMet nodes = All (λ d. (p : Node) → find d.0 nodes ≡ some p → d.1 ≤ p.command_to_exec)

-- `m` is the next command of a known author, and what it depends on is executed.
pub record IsReady (nodes : Matrix) (m : Msg) : Type 0 where
  pub author : (n : Node) × (find m.node_id nodes ≡ some n) × (n.command_to_exec ≡ m.msg_number)
  pub met : IsMet nodes m.depends

some_injective : (q p : Node) → some q ≡ some p → q ≡ p
some_injective q p h = cc

depends_met-IsMet :
    (nodes : Matrix) (ds : List (ℕ × ℕ)) → depends_met nodes ds ≡ true → IsMet nodes ds
unfolding depends_met
depends_met-IsMet nodes [] h = tt
depends_met-IsMet nodes ((id, number) ∷ ds) h = elim (Option-cases (find id nodes)) [
  | inl absent ↦
      (λ p e. absurd (ground arith), depends_met-IsMet nodes ds (rw (absent, depends_met) at h))
  | inr (p, found) ↦
      let h' = rw (found, depends_met) at h in
      elim (Bool-cases (ltb p.command_to_exec number)) [
        | inl behind ↦ absurd (ground (arith, rw behind at h'))
        | inr fine ↦ (
          λ q e. rw (some_injective q p (sym e ∙ found)) (ltb-false p.command_to_exec number fine),
          depends_met-IsMet nodes ds (rw fine at h'),
        )
      ]
]

can_exec-IsReady : (nodes : Matrix) (m : Msg) → can_exec nodes m ≡ true → IsReady nodes m
unfolding can_exec
can_exec-IsReady nodes m h = elim (Option-cases (find m.node_id nodes)) [
  | inl absent ↦ absurd (ground (arith, rw (absent, can_exec) at h))
  | inr (n, found) ↦
      let h' = rw (found, can_exec) at h in
      record {
        author = (n, found, ground (arith, ==→eq n.command_to_exec m.msg_number));
        met = depends_met-IsMet nodes m.depends (ground arith);
      }
]

Passes : (Msg → Bool) → List Msg → Msg → Type 0
Passes test ms m = (test m ≡ true) × (has_msg m.node_id m.msg_number ms ≡ true)

filterb_kept :
    (test : Msg → Bool) (x : Msg) (ms : List Msg)
    → test x ≡ true
    → filterb test (x ∷ ms) ≡ x ∷ filterb test ms
filterb_kept test x ms h = rw (h, filterb) refl

filterb_left :
    (test : Msg → Bool) (x : Msg) (ms : List Msg)
    → test x ≡ false
    → filterb test (x ∷ ms) ≡ filterb test ms
filterb_left test x ms h = rw (h, filterb) refl

Passes-tail :
    (test : Msg → Bool) (x : Msg) (ms : List Msg) (m : Msg)
    → Passes test ms m
    → Passes test (x ∷ ms) m
unfolding Passes has_msg
Passes-tail test x ms m h = (h.0, ground arith)

Passes-head : (test : Msg → Bool) (ms : List Msg) (m : Msg) → test m ≡ true → Passes test (m ∷ ms) m
unfolding Passes has_msg is_id
Passes-head test ms m h = (h, ground (arith, ==_refl m.node_id, ==_refl m.msg_number))

head_is : (x m : Msg) → some x ≡ some m → x ≡ m
head_is x m h = cc

filterb_at :
    (test : Msg → Bool) (x : Msg) (ms : List Msg) (i : ℕ) (m : Msg)
    → test x ≡ true
    → ((j : ℕ) → get_elem? (filterb test ms) j ≡ some m → Passes test ms m)
    → get_elem? (x ∷ filterb test ms) i ≡ some m
    → Passes test (x ∷ ms) m
filterb_at test x ms zero m kept ih h =
    let same = head_is x m h in rw same (Passes-head test ms m (rw same at kept))
filterb_at test x ms (suc i) m kept ih h = Passes-tail test x ms m (ih i h)

filterb-Passes :
    (test : Msg → Bool) (ms : List Msg) (i : ℕ) (m : Msg)
    → get_elem? (filterb test ms) i ≡ some m
    → Passes test ms m
filterb-Passes test [] i m h = absurd cc
filterb-Passes test (x ∷ ms) i m h = elim (Bool-cases (test x)) [
  | inr out ↦
      Passes-tail test x ms m (
        filterb-Passes test ms i m (ap (λ l. get_elem? l i) (sym (filterb_left test x ms out)) ∙ h))
  | inl kept ↦
      filterb_at test x ms i m kept (λ j. filterb-Passes test ms j m)
        (ap (λ l. get_elem? l i) (sym (filterb_kept test x ms kept)) ∙ h)
]

pub command_to_exec-IsReady :
    (c : Core) (roll : ℕ) (m : Msg)
    → command_to_exec c roll ≡ some m
    → IsReady c.nodes m × (has_msg m.node_id m.msg_number c.messages ≡ true)
unfolding command_to_exec candidates Passes
command_to_exec-IsReady c roll m h =
    let both = filterb-Passes (can_exec c.nodes) c.messages (roll % length (candidates c)) m h in
    (can_exec-IsReady c.nodes m both.0, both.1)

length_past : (xs : List Msg) (i : ℕ) → get_elem? xs i ≡ none → length xs ≤ i
length_past [] i h = omega arith
length_past (x ∷ xs) zero h = absurd cc
length_past (x ∷ xs) (suc i) h = omega (arith, length_past xs i h)

filterb-none :
    (test : Msg → Bool) (ms : List Msg) → filterb test ms ≡ [] → All (λ m. test m ≡ false) ms
filterb-none test [] h = tt
filterb-none test (x ∷ ms) h = elim (Bool-cases (test x)) [
  | inl kept ↦ absurd (ground (arith, sym (filterb_kept test x ms kept) ∙ h))
  | inr out ↦ (out, filterb-none test ms (sym (filterb_left test x ms out) ∙ h))
]

no_length : (xs : List Msg) (roll : ℕ) → length xs ≤ roll % length xs → xs ≡ []
no_length [] roll h = refl
no_length (x ∷ xs) roll h = absurd (omega (arith, mod-lt roll (zero-lt-suc (length xs))))

-- When no command is chosen, whatever was drawn, no message can be executed.
pub command_to_exec-none :
    (c : Core) (roll : ℕ)
    → command_to_exec c roll ≡ none
    → All (λ m. can_exec c.nodes m ≡ false) c.messages
unfolding command_to_exec candidates
command_to_exec-none c roll h =
    filterb-none (can_exec c.nodes) c.messages
      (no_length (candidates c) roll (length_past (candidates c) (roll % length (candidates c)) h))

-- Marking a command as executed moves its author on by one, from the number of the command, and no
-- other node. The command is the next of its author.
pub mark_as_executed_lem :
    (c : Core) (m : Msg) (n : Node) (a : ℕ)
    → find m.node_id c.nodes ≡ some n
    → n.command_to_exec ≡ m.msg_number
    → exec_of (find a (mark_as_executed c m).nodes)
      ≡ (if a == m.node_id then inc64 m.msg_number else exec_of (find a c.nodes))
unfolding mark_as_executed
mark_as_executed_lem c m n a found next =
    let matches : (n.command_to_exec == m.msg_number) ≡ true = rw next (==_refl m.msg_number) in
    rw (found, mark_as_executed)
      (rw matches (
        rw find-modify (elim (Bool-cases (a == m.node_id)) [
          | inl author ↦ rw author (rw (==→eq a m.node_id author) (rw found (rw next refl)))
          | inr other ↦ rw other refl
        ])))
