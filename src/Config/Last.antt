-- ===== src/Config/Last.antt =====
-- The text options of the file of the machine: the last line that names one decides.
use distadm.Prelude.{
  ◌≢◌, ℕ, ◌≡◌, refl, sym, ap, ◌∙◌, Bool, true, false, Bool-cases, Option-cases, inl, inr, some,
  List, [], ◌∷◌, bytes, same_bytes, same_bytes→eq, same_bytes_refl, if◌then◌else◌,
}
use distadm.Config.Keys.{name_of, text_of, text_of-process_key, text_of-put_text}
use distadm.Config.{Config, TextKey, Key, key_names, first_key, key_of, process_key, process_line}
use distadm.Config.Load.{
  split2, lines, Warning, is_skipped, warned, load_line, load_lines, load_common,
}

-- The text behind `name` in the last of the lines that begin with it, `old` where none does
abbrev pub last_value : List ℕ → List (List ℕ) → List ℕ → List ℕ
last_value name [] old = old
last_value name (line ∷ more) old =
    let (s1, s2) = split2 line in last_value name more (if same_bytes s1 name then s2 else old)

key_of_name : (key : TextKey) → key_of (name_of key) ≡ some (Key.text key)
unfolding key_of
key_of_name TextKey.scan_date_file = refl
key_of_name TextKey.scan_date_file_date = refl
key_of_name TextKey.scan_date_exec = refl
key_of_name TextKey.update_date_file = refl
key_of_name TextKey.update_date_file_date = refl
key_of_name TextKey.update_date_exec = refl
key_of_name TextKey.results_file = refl

abbrev key_name : Key → List ℕ
key_name Key.workdir = bytes "workdir"
key_name Key.check_free_space = bytes "check-free-space"
key_name Key.port_number = bytes "port"
key_name Key.granularity = bytes "files-granularity"
key_name Key.interfaces = bytes "listen"
key_name (Key.text key) = name_of key

abbrev IsNamed : List (List ℕ × Key) → Type 0
IsNamed [] = Unit
IsNamed ((name, key) ∷ more) = (name ≡ key_name key) × IsNamed more

first_key-name :
    (names : List (List ℕ × Key)) (s1 : List ℕ) (key : Key)
    → IsNamed names
    → first_key names s1 ≡ some key
    → s1 ≡ key_name key
first_key-name [] s1 key all e = absurd cc
first_key-name ((name, k) ∷ more) s1 key (here, all) e = elim (Bool-cases (same_bytes s1 name)) [
  | inl same ↦
      let hit : some k ≡ some key = sym (rw same refl) ∙ e in
      same_bytes→eq s1 name same ∙ here ∙ ap key_name cc
  | inr other ↦ first_key-name more s1 key all (sym (rw other refl) ∙ e)
]

key_of-name : (s1 : List ℕ) (key : Key) → key_of s1 ≡ some key → s1 ≡ key_name key
unfolding key_of
key_of-name s1 key e =
    first_key-name key_names s1 key
      (
        refl,
        (refl, (refl, (refl, (refl, (refl, (refl, (refl, (refl, (refl, (refl, (refl, tt))))))))))),
      )
      e

is_skipped_name : (key : TextKey) → is_skipped (name_of key) ≡ false
is_skipped_name TextKey.scan_date_file = refl
is_skipped_name TextKey.scan_date_file_date = refl
is_skipped_name TextKey.scan_date_exec = refl
is_skipped_name TextKey.update_date_file = refl
is_skipped_name TextKey.update_date_file_date = refl
is_skipped_name TextKey.update_date_exec = refl
is_skipped_name TextKey.results_file = refl

text_of-process_line :
    (key : TextKey) (s1 s2 : List ℕ) (c : Config)
    → text_of key (process_line s1 s2 c).1
      ≡ (if same_bytes s1 (name_of key) then s2 else text_of key c)
unfolding process_line process_key
text_of-process_line key s1 s2 c = elim (Bool-cases (same_bytes s1 (name_of key))) [
  | inl same ↦
      let hit : key_of s1 ≡ some (Key.text key) =
        ap key_of (same_bytes→eq s1 (name_of key) same) ∙ key_of_name key in
      rw (same, hit, process_line) (text_of-put_text key s2 c)
  | inr other ↦ elim (Option-cases (key_of s1)) [
    | inl absent ↦ rw (other, absent, process_line) refl
    | inr (k, found) ↦
        let apart : k ≢ Key.text key = λ e.
          let name : s1 ≡ name_of key = key_of-name s1 (Key.text key) (found ∙ ap some e) in
          let equal : true ≡ false =
            sym (same_bytes_refl (name_of key))
            ∙ ap (λ x. same_bytes x (name_of key)) (sym name)
            ∙ other in
          absurd cc in
        rw (other, found, process_line) (text_of-process_key key k s2 c apart)
  ]
]

warned_config :
    (line : List ℕ) (warnings : List Warning) (p : Bool × Config) → (warned line warnings p).0 ≡ p.1
warned_config line warnings (true, c) = refl
warned_config line warnings (false, c) = refl

text_of-load_line :
    (key : TextKey) (line : List ℕ) (c : Config) (warnings : List Warning)
    → text_of key (load_line line c warnings).0
      ≡ (if same_bytes (split2 line).0 (name_of key) then (split2 line).1 else text_of key c)
unfolding load_line
text_of-load_line key line c warnings =
    let s1 = (split2 line).0 in
    let s2 = (split2 line).1 in
    elim (Bool-cases (is_skipped s1)) [
      | inl comment ↦ elim (Bool-cases (same_bytes s1 (name_of key))) [
        | inl same ↦
            let skipped : true ≡ false =
              sym comment
              ∙ ap is_skipped (same_bytes→eq s1 (name_of key) same)
              ∙ is_skipped_name key in
            absurd cc
        | inr other ↦ rw (comment, other, load_line) refl
      ]
      | inr line_counts ↦
          let done : (load_line line c warnings).0 ≡ (process_line s1 s2 c).1 =
            rw (line_counts, load_line) (warned_config line warnings (process_line s1 s2 c)) in
          ap (text_of key) done ∙ text_of-process_line key s1 s2 c
    ]

text_of-load_lines :
    (key : TextKey) (ls : List (List ℕ)) (c : Config) (warnings : List Warning)
    → text_of key (load_lines ls c warnings).0 ≡ last_value (name_of key) ls (text_of key c)
text_of-load_lines key [] c warnings = refl
text_of-load_lines key (line ∷ more) c warnings =
    text_of-load_lines key more (load_line line c warnings).0 (load_line line c warnings).1
    ∙ ap (last_value (name_of key) more) (text_of-load_line key line c warnings)

-- Behind the file of the machine, an option for the antivirus has the text behind its name in the last line
-- that begins with that name, and the value from before where no line does. Comments, other options and
-- lines that are not understood do not touch it.
pub text_of-load_common :
    (key : TextKey) (file : List ℕ) (c : Config)
    → text_of key (load_common (some file) c).0
      ≡ last_value (name_of key) (lines file) (text_of key c)
unfolding load_common
text_of-load_common key file c = text_of-load_lines key (lines file) c []
