-- ===== src/Config/Load.antt =====
-- Config::load_common, load_home, load and set_packet_file of config.cpp, and split2 of utils.cpp. A file
-- is its bytes, `none` where it is not opened.
use distadm.Prelude.{
  ℕ, Bool, true, false, Option, none, some, List, [], ◌∷◌, ◌++◌, bytes, same_bytes, ◌==◌,
  if◌then◌else◌,
}
use distadm.Text.{isspace}
use distadm.Config.{Config, process_line}
use distadm.Config.Numbers.{skip_space}
use distadm.Config.Names.{ifname, add_name}

-- The characters up to the next space, and what follows
abbrev pub word : List ℕ → List ℕ × List ℕ
word [] = ([], [])
word (ch ∷ s) = let (w, rest) = word s in if isspace ch then ([], ch ∷ s) else (ch ∷ w, rest)

-- split2: the first word of a line, and the text behind it
unfoldable pub split2 : List ℕ → List ℕ × List ℕ
split2 str = let (w, rest) = word (skip_space str) in (w, skip_space rest)

abbrev pub in_front : ℕ → List (List ℕ) → List (List ℕ)
in_front ch [] = (ch ∷ []) ∷ []
in_front ch (line ∷ more) = (ch ∷ line) ∷ more

-- What `getline` gives, one after another
unfoldable pub lines : List ℕ → List (List ℕ)
lines [] = []
lines (ch ∷ s) = if ch == 10 then [] ∷ lines s else in_front ch (lines s)

pub data Warning : Type 0 where
  cannot_open : Warning
  unrecognized : List ℕ → Warning

-- `item.first.empty() || item.first[0] == '#'`
abbrev pub is_skipped : List ℕ → Bool
is_skipped [] = true
is_skipped (ch ∷ s) = ch == b'#'

abbrev pub warned : List ℕ → List Warning → Bool × Config → Config × List Warning
warned line warnings (ok, c) =
    if ok then (c, warnings) else (c, warnings ++ Warning.unrecognized line ∷ [])

-- One round of the loop in Config::load_common
unfoldable pub load_line : List ℕ → Config → List Warning → Config × List Warning
unfolding split2 process_line
load_line line c warnings =
    let (s1, s2) = split2 line in
    if is_skipped s1 then (c, warnings) else warned line warnings (process_line s1 s2 c)

abbrev pub load_lines : List (List ℕ) → Config → List Warning → Config × List Warning
load_lines [] c warnings = (c, warnings)
load_lines (line ∷ more) c warnings =
    let (c', warnings') = load_line line c warnings in load_lines more c' warnings'

-- Config::load_common, but for the directory that it makes
unfoldable pub load_common : Option (List ℕ) → Config → Config × List Warning
unfolding load_line lines
load_common none c = (c, Warning.cannot_open ∷ [])
load_common (some file) c = load_lines (lines file) c []

-- The loop of Config::load_home, which ends at the first line that names the packet file
unfoldable pub load_packet_file : List (List ℕ) → Config → Config
unfolding split2
load_packet_file [] c = c
load_packet_file (line ∷ more) c =
    let (s1, s2) = split2 line in
    if same_bytes s1 (bytes "packet-file")
    then record c { packet_file = s2 }
    else load_packet_file more c

-- Config::load_home, where HOME is set
unfoldable pub load_home : Option (List ℕ) → Config → Config
unfolding load_packet_file lines
load_home none c = c
load_home (some file) c = load_packet_file (lines file) c

abbrev pub put_defaults : List (List ℕ) → Config → Config
put_defaults [] c = c
put_defaults (name ∷ names) c =
    put_defaults names (record c { listen = add_name (ifname name) c.listen })

-- Config::load with the names of default_iface_names
unfoldable pub load :
    Option (List ℕ) → Option (List ℕ) → List (List ℕ) → Config → Config × List Warning
unfolding load_common load_home
load file home default_names c =
    let (c1, warnings) = load_common file c in
    let c2 = load_home home c1 in
    let c3 : Config = elim c2.listen [
      | [] ↦ record (put_defaults default_names c2) { listen_specified = false }
      | name ∷ names ↦ record c2 { listen_specified = true }
    ] in
    (c3, warnings)

-- Config::set_packet_file: the members, and the file of the user after it; `opened` says whether it can
-- be written.
unfoldable pub set_packet_file : Bool → List ℕ → Config → Option (List ℕ) → Config × Option (List ℕ)
set_packet_file opened fn c home =
    if same_bytes c.packet_file fn
    then (c, home)
    else (record c { packet_file = fn }, if opened then some (bytes "packet-file " ++ fn) else home)
