-- ===== src/Interactive/Keeps.antt =====
-- A typed line keeps the invariant of a node that runs.
use text.Mathlib.Text.{◌==◌ as str_eq}
use distadm.Prelude.{
  ℕ, zero, suc, ◌+◌, ◌*◌, ◌%◌, ◌≤◌, ◌<◌, ◌≡◌, refl, sym, ap, ◌∙◌, subst, String, Bool, true, false,
  not, Option, none, some, List, [], ◌∷◌, ◌==◌, ◌&&◌, arith, Bool-cases, Option-cases, inl, inr,
}
use distadm.Messages.{Body, u64}
use distadm.Core.{Core, my_cell}
use distadm.Core.Create.{create_command}
use distadm.Core.Packets.{nodebyname}
use distadm.Core.Running.{IsRunning}
use distadm.Core.Cleaning.{Cleans, same-Cleans, Cleans-trans, Room-Cleans, own-Cleans}
use distadm.Interactive.{
  Shell, Outcome, is_force, incm_status, delnode_by, incm_delnode, incm_delfile, incm_deldir,
  incm_exec, incm_delexec, incm_dellog, incm_adduser, incm_deluser,
}
use distadm.Interactive.Segments.{last_segment, add_segments, add_file, addfile_by, incm_addfile}
use distadm.Interactive.Queue.{queue, show_queue, incm_queue, incm_nodesinfo}
use distadm.Interactive.Listings.{incm_showexec}
use distadm.Interactive.Table.{Incm, incm_list, lookup, incm_help}
use distadm.Interactive.Dispatch.{Members, call, lookup-exit, interactive_exec}
use distadm.Interactive.Members.{member, is_modelled, found_modelled, is_modelled_line}

-- How many commands a line may create
abbrev segments : Option ℕ → Option ℕ → ℕ
segments none size = 1
segments (some granularity) none = 0
segments (some granularity) (some fsize) = last_segment fsize granularity + 1

abbrev pub cost : Shell → List String → ℕ
cost sh cmd = segments sh.files_granularity (sh.file_size (sh.rel_fn cmd)) + 2

-- One more command
then_own :
    (m n : ℕ) (c c' : Core) (body : Body)
    → m + 1 ≤ n
    → my_cell c c.my_id + n + 1 < u64
    → Cleans m c c'
    → Cleans n c (create_command c' body true)
then_own m n c c' body h room x = Cleans-trans m 1 n c c' _ h x (
    own-Cleans c' body true (omega (arith, Room-Cleans m 1 c c' x (omega (arith, room, h))))
      x.running)

stays : (n : ℕ) (c : Core) → IsRunning c → Cleans n c c
stays n c r =
    let same = same-Cleans c c refl refl refl r in Cleans-trans 0 0 n c c c (omega arith) same same

add_segments-Cleans :
    (rounds i g : ℕ) (fn : String) (c : Core)
    → my_cell c c.my_id + rounds + 1 < u64
    → IsRunning c
    → Cleans rounds c (add_segments rounds i g fn c)
unfolding add_segments
add_segments-Cleans zero i g fn c room r = same-Cleans c c refl refl refl r
add_segments-Cleans (suc rounds) i g fn c room r =
    let body = Body.addfile fn (some (i * g % u64, (i + 1) * g % u64)) in
    let made = own-Cleans c body true (omega (arith, room)) r in
    Cleans-trans 1 rounds (suc rounds) c _ _ (omega arith) made (
      add_segments-Cleans rounds (i + 1) g fn (create_command c body true)
        (Room-Cleans 1 rounds c _ made (omega (arith, room))) made.running)

module _ (sh : Shell) (c : Core) (n : ℕ) (room : my_cell c c.my_id + n + 1 < u64)
    (r : IsRunning c) where
  one : (body : Body) → 1 ≤ n → Cleans n c (create_command c body true)
  one body h = then_own 0 n c c body h room (stays 0 c r)

  add_file-Cleans :
      (fsize g : ℕ) (fn : String)
      → last_segment fsize g + 1 ≤ n
      → Cleans n c (add_file fsize g fn c)
  unfolding add_file
  add_file-Cleans fsize g fn h =
      then_own (last_segment fsize g) n c _ _ h room
        (add_segments-Cleans (last_segment fsize g) 0 g fn c (omega (arith, room, h)) r)

  addfile_by-Cleans :
      (cmd : List String)
      → segments sh.files_granularity (sh.file_size (sh.rel_fn cmd)) + 1 ≤ n
      → Cleans n c (addfile_by sh c cmd).core
  unfolding addfile_by
  addfile_by-Cleans cmd h = elim (Option-cases sh.files_granularity) [
    | inl whole ↦ rw (whole, addfile_by) (one _ (omega (arith, h)))
    | inr (g, split) ↦ elim (Option-cases (sh.file_size (sh.rel_fn cmd))) [
      | inl unread ↦ rw (split, addfile_by) (rw unread (stays n c r))
      | inr (fsize, read) ↦
          rw (split, addfile_by)
            (rw read (add_file-Cleans fsize g _ (omega (arith, rw read at (rw split at h)))))
    ]
  ]

  delnode_by-Cleans :
      (name : String) (rest : List String) → 2 ≤ n → Cleans n c (delnode_by sh c name rest).core
  unfolding delnode_by
  delnode_by-Cleans name rest h =
      let id = nodebyname sh.parse c name in
      let first =
        then_own 0 1 c c (Body.delnode id false) (omega arith) (omega (arith, room, h))
          (stays 0 c r) in
      elim (Bool-cases (id == 0)) [
        | inl unknown ↦ rw unknown (stays n c r)
        | inr known ↦ rw known (elim (Bool-cases (is_force rest && not (id == c.my_id))) [
          | inl forced ↦ rw forced (then_own 1 n c _ _ h room first)
          | inr plain ↦ rw plain (one _ (omega (arith, h)))
        ])
      ]

  incm_adduser-Cleans : (param : List String) → 1 ≤ n → Cleans n c (incm_adduser sh c param).core
  unfolding incm_adduser
  incm_adduser-Cleans (cmd ∷ name ∷ rest) h =
      elim (Bool-cases (str_eq (sh.find_pwd_line name) "")) [
        | inl nobody ↦ rw nobody (stays n c r)
        | inr line ↦ rw line (one _ h)
      ]
  incm_adduser-Cleans param h = stays n c r

module _ (sh : Shell) (sort : List (ℕ × ℕ) → List (ℕ × ℕ)) (others : Members) (c : Core)
    (r : IsRunning c) where
  show_queue-core : (res : List (ℕ × ℕ)) → (show_queue sort sh c res).core ≡ c
  unfolding show_queue
  show_queue-core [] = refl
  show_queue-core (x ∷ res) = refl

  member-IsRunning :
      (f : Incm) (cmd : List String)
      → is_modelled f ≡ true
      → my_cell c c.my_id + cost sh cmd + 1 < u64
      → IsRunning (member sh sort others f c cmd).core
  unfolding member incm_queue incm_status incm_delnode incm_delfile incm_deldir incm_exec
      incm_delexec incm_dellog incm_deluser incm_addfile incm_nodesinfo incm_showexec incm_help
  member-IsRunning Incm.help cmd known room = r
  member-IsRunning Incm.status cmd known room = r
  member-IsRunning Incm.nodesinfo cmd known room = r
  member-IsRunning Incm.showexec (w ∷ filter ∷ rest) known room = r
  member-IsRunning Incm.showexec cmd known room = r
  member-IsRunning Incm.queue cmd known room =
      subst IsRunning (sym (show_queue-core (queue c.nodes))) r
  member-IsRunning Incm.delnode (w ∷ name ∷ rest) known room =
      (delnode_by-Cleans sh c _ room r name rest (omega arith)).running
  member-IsRunning Incm.delnode cmd known room = r
  member-IsRunning Incm.addfile (w ∷ name ∷ rest) known room =
      (addfile_by-Cleans sh c _ room r (w ∷ name ∷ rest) (omega arith)).running
  member-IsRunning Incm.addfile cmd known room = r
  member-IsRunning Incm.delfile (w ∷ name ∷ rest) known room =
      (one sh c _ room r _ (omega arith)).running
  member-IsRunning Incm.delfile cmd known room = r
  member-IsRunning Incm.deldir (w ∷ name ∷ rest) known room =
      (one sh c _ room r _ (omega arith)).running
  member-IsRunning Incm.deldir cmd known room = r
  member-IsRunning Incm.dellog cmd known room = (one sh c _ room r _ (omega arith)).running
  member-IsRunning Incm.exec cmd known room = (one sh c _ room r _ (omega arith)).running
  member-IsRunning Incm.delexec (w ∷ filter ∷ rest) known room =
      (one sh c _ room r _ (omega arith)).running
  member-IsRunning Incm.delexec cmd known room = (one sh c _ room r _ (omega arith)).running
  member-IsRunning Incm.adduser cmd known room =
      (incm_adduser-Cleans sh c _ room r cmd (omega arith)).running
  member-IsRunning Incm.deluser (w ∷ name ∷ rest) known room =
      (one sh c _ room r _ (omega arith)).running
  member-IsRunning Incm.deluser cmd known room = r
  member-IsRunning f cmd known room = absurd cc

  -- A typed line that calls no member function but the modelled ones keeps a node running: its outcome is
  -- there, and in the state that it leaves, the matrix is square, the node has its entry, and every
  -- command that its row claims to know and that it has not executed is among its messages. There is
  -- room for the numbers of the commands that the line creates.
  pub interactive_exec-IsRunning :
      (cmd : List String)
      → is_modelled_line cmd ≡ true
      → my_cell c c.my_id + cost sh cmd + 1 < u64
      → (o : Outcome) × (answer : Bool) × (interactive_exec sh (member sh sort others) c cmd
          ≡ some (o, answer))
        × IsRunning o.core
  unfolding interactive_exec call
  interactive_exec-IsRunning [] known room = (_, true, refl, r)
  interactive_exec-IsRunning (word ∷ words) known room = elim (Bool-cases (str_eq word "exit")) [
    | inl leaves ↦ rw leaves (_, false, refl, r)
    | inr stays ↦ rw stays (elim (Option-cases (lookup word incm_list)) [
      | inl unknown ↦ rw unknown (_, true, refl, r)
      | inr (none, null) ↦ absurd (ground (arith, lookup-exit word null))
      | inr (some f, found) ↦
          let own : is_modelled f ≡ true = sym (ap found_modelled found) ∙ known in
          rw found (_, true, refl, member-IsRunning f (word ∷ words) own room)
    ])
  ]
