-- ===== src/Unix.antt =====
-- The two ends of the Unix socket: UnixSession of daemon.cpp, and getline and unix_getline of utils.cpp.
-- What the reads give is a parameter, one after another.
pub mod Lines
use distadm.Prelude.{
  zero, suc, ℕ, Bool, true, false, not, Option, none, some, List, [], ◌∷◌, ◌++◌, ◌==◌,
  if◌then◌else◌,
}
use distadm.Text.{is_empty}

-- What a read gives: `got` some bytes, of which the last one stands apart. `closed` is the end of the
-- stream, `failed` an error other than EINTR. `stopped` means that `stop` is set before the read.
pub data Arrival : Type 0 where
  got : List ℕ → ℕ → Arrival
  closed interrupted failed stopped : Arrival

-- What UnixSession::getline returns, the line, and the reads that are left, with `eintr` saying whether
-- errno is EINTR; `starves` means that the reads have run out.
pub data Line : Type 0 where
  line : Bool → List ℕ → Bool → List Arrival → Line
  starves : Line

-- The loop of UnixSession::getline on an open descriptor. A read that gives bytes, or none at the end,
-- leaves errno as it is.
unfoldable pub getline : Bool → List ℕ → List Arrival → Line
getline eintr res [] = starves
getline eintr res (stopped ∷ more) = line true res eintr more
getline eintr res (interrupted ∷ more) = getline true res more
getline eintr res (failed ∷ more) = line (not (is_empty res)) res false more
getline eintr res (closed ∷ more) =
    let again = getline eintr res more in
    if eintr then again else line (not (is_empty res)) res eintr more
getline eintr res (got bytes last ∷ more) =
    let again = getline eintr res more in
    let further = getline eintr (res ++ (bytes ++ last ∷ [])) more in
    if eintr then again else if last == 10 then line true (res ++ bytes) eintr more else further

-- What the commands of one session leave: the answers, and whether the session waits for a read
pub record Served : Type 0 where
  pub answers : List (List ℕ)
  pub waiting : Bool

abbrev pub with_answer : List ℕ → Served → Served
with_answer reply s = record { answers = reply ∷ s.answers; waiting = s.waiting }

-- The loop of UnixSession::run while the program works, on fuel of one for each read. `exec` is what
-- interactive_exec makes of a line: the answer, whether the session goes on, and whether errno is EINTR
-- behind it and pending_commands.
unfoldable pub run : ℕ → (Bool → List ℕ → List ℕ × Bool × Bool) → Bool → List Arrival → Served
unfolding getline
run zero exec eintr reads = record { answers = []; waiting = true }
run (suc fuel) exec eintr reads = elim (getline eintr [] reads) [
  | line true text eintr' more ↦
      let (reply, ok, eintr'') = exec eintr' text in
      let rest = run fuel exec eintr'' more in
      with_answer reply (if ok then rest else record { answers = []; waiting = false })
  | line false text eintr' more ↦ record { answers = []; waiting = false }
  | starves ↦ record { answers = []; waiting = true }
]

-- What getline of utils.cpp gives the interface: the answer up to EOT; an error ends the program.
pub data Back : Type 0 where
  reply : Bool → List ℕ → List Arrival → Back
  exits blocked : Back

unfoldable pub getline_reply : List ℕ → List Arrival → Back
getline_reply res [] = blocked
getline_reply res (got bytes last ∷ more) =
    let further = getline_reply (res ++ (bytes ++ last ∷ [])) more in
    if last == 4 then reply true (res ++ bytes) more else further
getline_reply res (closed ∷ more) = reply (not (is_empty res)) res more
getline_reply res (r ∷ more) = exits
