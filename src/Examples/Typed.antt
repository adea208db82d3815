-- ===== src/Examples/Typed.antt =====
-- Lines that are typed at node 1 of the pair.
use distadm.Prelude.{ℕ, Bool, true, none, some, List, [], ◌∷◌, ◌≡◌, ◌↔◌, refl, not, arith}
use distadm.Matrix.{find, node_offset, index_from}
use distadm.Matrix.Keys.{has}
use distadm.Core.{my_cell, my_row}
use distadm.Core.Running.{IsRunning}
use distadm.Interactive.{Shell, Outcome, says}
use distadm.Interactive.Segments.{add_file, last_segment}
use distadm.Interactive.Pieces.{announce, Covers, add_file-Covers}
use distadm.Interactive.Queue.{queue, max_rows}
use distadm.Interactive.Behind.{Behind}
use distadm.Interactive.Queued.{keys, queue-Behind}
use distadm.Interactive.Dispatch.{Members, is_exit, interactive_exec, interactive_exec-answer}
use distadm.Interactive.Table.{lookup}
use distadm.Interactive.Members.{member, is_modelled_line}
use distadm.Core.Invite.{read_online_invite}
use distadm.Interactive.Keeps.{interactive_exec-IsRunning}
use distadm.Examples.{node, pair, pair-IsSquare, core, waiting}
use distadm.Examples.Runs.{env, core-IsRunning}

abbrev shell : Shell
shell = record {
  env = env;
  translate = λ s. s;
  parse = λ s. 2;
  files_granularity = some 4;
  rel_fn = λ cmd. "notes";
  file_size = λ fn. some 10;
  find_pwd_line = λ name. "";
}

-- Functions that do nothing
abbrev idle : Members
idle f c cmd = says c []

abbrev as_is : List (ℕ × ℕ) → List (ℕ × ℕ)
as_is res = res

add_file-Covers_example :
    (l : List (ℕ × ℕ)) × (add_file 10 4 "notes" (core waiting) ≡ announce "notes" l (core waiting))
    × Covers 4 0 10 l
add_file-Covers_example =
    add_file-Covers 10 4 "notes" (core waiting) (omega arith) (omega arith) (omega arith)

queue-Behind_example : (has 2 (keys (queue pair)) ≡ true) ↔ Behind pair (node (2 ∷ 4 ∷ []) 1)
unfolding find max_rows
queue-Behind_example = queue-Behind pair 2 (node (2 ∷ 4 ∷ []) 1) pair-IsSquare refl (omega arith)

interactive_exec-answer_example :
    (o : Outcome) × (interactive_exec shell idle (core waiting) ("delfile" ∷ "notes" ∷ [])
      ≡ some (o, not (is_exit ("delfile" ∷ "notes" ∷ []))))
    × (o.thrown ≡ none)
interactive_exec-answer_example =
    interactive_exec-answer shell idle (core waiting) ("delfile" ∷ "notes" ∷ [])

own_cell : my_cell (core waiting) 1 ≡ 3
unfolding my_cell my_row find node_offset index_from
own_cell = refl

-- A function that is not modelled may leave anything, as the one of "join-group" does.
abbrev forgetful : Members
forgetful = λ f c cmd. says (read_online_invite c) []

delnode_modelled : is_modelled_line ("delnode" ∷ "beta" ∷ "force" ∷ []) ≡ true
unfolding lookup
delnode_modelled = refl

interactive_exec-IsRunning_example :
    (o : Outcome) × (answer : Bool) × (interactive_exec shell
        (member shell as_is forgetful)
        (core waiting)
        ("delnode" ∷ "beta" ∷ "force" ∷ [])
      ≡ some (o, answer))
    × IsRunning o.core
unfolding last_segment
interactive_exec-IsRunning_example =
    interactive_exec-IsRunning shell as_is forgetful (core waiting) core-IsRunning
      ("delnode" ∷ "beta" ∷ "force" ∷ []) delnode_modelled (omega (arith, own_cell))

abbrev line : List ℕ
line = b'a' ∷ b' ' ∷ b'c' ∷ b' ' ∷ b'd' ∷ []
