-- ===== src/Config.antt =====
-- Config of config.h and config.cpp: the options in the file of the machine and in the file of the user.
-- The names of the interfaces that are up are a parameter.
pub mod Numbers
pub mod Load
pub mod Names
pub mod Keys
pub mod Last
pub mod Saved
use distadm.Prelude.{
  ℕ, zero, suc, ◌*◌, ◌%◌, ◌^◌, Bool, true, false, not, Option, none, some, List, [], ◌∷◌, ◌++◌,
  length, bytes, same_bytes, ltb, ◌==◌, ◌||◌, if◌then◌else◌,
}
use distadm.Text.{isspace, split}
use distadm.Messages.{u64}
use distadm.Config.Numbers.{extract_int, extract_size, next_char}
use distadm.Config.Names.{views, ifname, add_name}

pub record Config : Type 0 where
  pub listen : List (List ℕ)
  pub listen_specified : Bool
  pub port : ℕ
  pub files_granularity : ℕ
  pub chk_free_space : Bool
  pub av_scan_date_file_date : List ℕ
  pub av_scan_date_file : List ℕ
  pub av_scan_date_exec : List ℕ
  pub av_update_date_file_date : List ℕ
  pub av_update_date_file : List ℕ
  pub av_update_date_exec : List ℕ
  pub av_results_file : List ℕ
  pub packet_file : List ℕ
  pub workdir_str : List ℕ
  pub filesdir_str : List ℕ
  pub tmpfilesdir_str : List ℕ

-- The options whose value is the text as it stands
pub data TextKey : Type 0 where
  scan_date_file scan_date_file_date scan_date_exec : TextKey
  update_date_file update_date_file_date update_date_exec results_file : TextKey

pub data Key : Type 0 where
  workdir check_free_space port_number granularity interfaces : Key
  text : TextKey → Key

-- The names that Config::process_line compares with, in its order
abbrev pub key_names : List (List ℕ × Key)
key_names =
    (bytes "workdir", Key.workdir)
    ∷ (bytes "check-free-space", Key.check_free_space)
    ∷ (bytes "port", Key.port_number)
    ∷ (bytes "files-granularity", Key.granularity)
    ∷ (bytes "listen", Key.interfaces)
    ∷ (bytes "antivirus-scan-date-file", Key.text TextKey.scan_date_file)
    ∷ (bytes "antivirus-scan-date-file-date", Key.text TextKey.scan_date_file_date)
    ∷ (bytes "antivirus-scan-date-exec", Key.text TextKey.scan_date_exec)
    ∷ (bytes "antivirus-update-date-file", Key.text TextKey.update_date_file)
    ∷ (bytes "antivirus-update-date-file-date", Key.text TextKey.update_date_file_date)
    ∷ (bytes "antivirus-update-date-exec", Key.text TextKey.update_date_exec)
    ∷ (bytes "antivirus-results-file", Key.text TextKey.results_file)
    ∷ []

abbrev pub first_key : List (List ℕ × Key) → List ℕ → Option Key
first_key [] s1 = none
first_key ((name, key) ∷ names) s1 = if same_bytes s1 name then some key else first_key names s1

-- The chain of `s1 == ...`
unfoldable pub key_of : List ℕ → Option Key
key_of s1 = first_key key_names s1

-- The assignment to the member that `key` names
abbrev pub put_text : TextKey → List ℕ → Config → Config
put_text TextKey.scan_date_file s2 c = record c { av_scan_date_file = s2 }
put_text TextKey.scan_date_file_date s2 c = record c { av_scan_date_file_date = s2 }
put_text TextKey.scan_date_exec s2 c = record c { av_scan_date_exec = s2 }
put_text TextKey.update_date_file s2 c = record c { av_update_date_file = s2 }
put_text TextKey.update_date_file_date s2 c = record c { av_update_date_file_date = s2 }
put_text TextKey.update_date_exec s2 c = record c { av_update_date_exec = s2 }
put_text TextKey.results_file s2 c = record c { av_results_file = s2 }

-- The switch over the letter behind the size: the factor, `none` for another letter
abbrev pub factor : ℕ → Option ℕ
factor ch =
    if ch == 0
    then some 1
    else if ch == b'K' || ch == b'k'
    then some (1024 ^ 1)
    else if ch == b'M' || ch == b'm'
    then some (1024 ^ 2)
    else if ch == b'G' || ch == b'g'
    then some (1024 ^ 3)
    else if ch == b'T' || ch == b't'
    then some (1024 ^ 4)
    else if ch == b'P' || ch == b'p'
    then some (1024 ^ 5)
    else none

-- `if (x) files_granularity = x;`
abbrev pub put_granularity : ℕ → Config → Config
put_granularity zero c = c
put_granularity (suc x) c = record c { files_granularity = suc x }

abbrev pub put_port : ℕ → Config → Config
put_port zero c = c
put_port (suc x) c = record c { port = suc x }

-- The loop over `split(s2)`
abbrev pub put_names : List (List ℕ × List ℕ) → Config → Config
put_names [] c = c
put_names ((field, behind) ∷ more) c =
    put_names more (record c { listen = add_name (ifname behind) c.listen })

abbrev truth : List ℕ → Bool
truth s2 =
    same_bytes s2 (bytes "true")
    || same_bytes s2 (bytes "True")
    || same_bytes s2 (bytes "on")
    || same_bytes s2 (bytes "1")

-- What is done for a name; false says that the line is reported.
unfoldable pub process_key : Key → List ℕ → Config → Bool × Config
unfolding extract_int extract_size next_char
process_key Key.workdir s2 c = (
  true,
  record c {
    workdir_str = s2;
    filesdir_str = s2 ++ bytes "/files";
    tmpfilesdir_str = s2 ++ bytes "/tmp";
  },
)
process_key Key.check_free_space s2 c = (false, record c { chk_free_space = truth s2 })
process_key Key.port_number s2 c = (true, put_port (extract_int s2) c)
process_key Key.granularity s2 c =
    let (x, rest) = extract_size s2 in
    elim (factor (next_char rest)) [
      | some f ↦ (true, put_granularity ((x * f) % u64) c)
      | none ↦ (false, c)
    ]
process_key Key.interfaces s2 c = (true, put_names (views (length s2) s2) c)
process_key (Key.text key) s2 c = (true, put_text key s2 c)

-- Config::process_line
unfoldable pub process_line : List ℕ → List ℕ → Config → Bool × Config
unfolding key_of process_key
process_line s1 s2 c = elim (key_of s1) [ some key ↦ process_key key s2 c | none ↦ (false, c) ]
