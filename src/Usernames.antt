-- ===== src/Usernames.antt =====
-- usernames.cpp: the lines of /etc/shadow that are spread between the nodes. A method gives back the
-- programs that it runs beside the new state.
pub mod Shadow
use Prim.Native.Char.{Char, char, code}
use Prim.Native.String.{◌++◌ as str_append}
use text.Mathlib.Text.{◌==◌ as str_eq}
use text.Mathlib.TextEquality.{eq_iff}
use distadm.Prelude.{
  String, ◌≡◌, refl, ap, ap₂, Option-cases, Bool, true, false, Option, none, some, List, [], ◌∷◌,
  ◌++◌, map, ◌==◌, if◌then◌else◌, arith, Bool-cases, inl, inr, All,
}

pub record User : Type 0 where
  pub line : String
  pub nick : String

pub record Usernames : Type 0 where
  pub users : List User
  pub nicks_filled : Bool

-- What a method does to the machine, in order
pub data Effect : Type 0 where
  removes removes_all : String → Effect
  runs : List String → Effect
  updates_shadow saves : Effect

-- The text before the first colon, if there is one
abbrev before_colon : String → Option String
before_colon String.[] = none
before_colon (String.◌∷◌ ch rest) =
    let further = before_colon rest in
    if code ch == b':'
    then some ""
    else elim further [ none ↦ none | some nick ↦ some (String.◌∷◌ ch nick) ]

-- Usernames::get_nick
unfoldable pub get_nick : String → String
get_nick line = elim (before_colon line) [ none ↦ "" | some nick ↦ nick ]

-- Usernames::fill_nicks
unfoldable fill_nicks : Usernames → Usernames
unfolding get_nick
fill_nicks u = if u.nicks_filled then u else record {
  users = map (λ (x : User). record x { nick = get_nick x.line }) u.users;
  nicks_filled = true;
}

-- Usernames::find
unfoldable pub find_line : String → List User → Option String
find_line nick [] = none
find_line nick (x ∷ xs) = if str_eq x.nick nick then some x.line else find_line nick xs

-- Usernames::add_ns: the users, and whether the nick is new
unfoldable pub add_ns : String → List User → List User × Bool
unfolding get_nick
add_ns line [] = (record { line = line; nick = get_nick line } ∷ [], true)
add_ns line (x ∷ xs) =
    let (xs', fresh) = add_ns line xs in
    if str_eq x.nick (get_nick line)
    then (record { line = line; nick = get_nick line } ∷ xs, false)
    else (x ∷ xs', fresh)

-- Usernames::add
unfoldable pub add : Usernames → String → Usernames × List Effect
unfolding fill_nicks add_ns
add u line =
    let filled = fill_nicks u in
    let (users', fresh) = add_ns line filled.users in
    (
      record filled { users = users' },
      (if fresh then runs ("adduser" ∷ get_nick line ∷ []) ∷ [] else []) ++ updates_shadow ∷ [],
    )

-- `users.erase` of the first user with the nick
unfoldable erase_nick : String → List User → List User
erase_nick nick [] = []
erase_nick nick (x ∷ xs) = if str_eq x.nick nick then xs else x ∷ erase_nick nick xs

-- Usernames::del
unfoldable pub del : Usernames → String → Usernames × List Effect
unfolding fill_nicks erase_nick
del u nick =
    let filled = fill_nicks u in
    (
      record filled { users = erase_nick nick filled.users },
      runs ("deluser" ∷ "--remove-home" ∷ nick ∷ []) ∷ updates_shadow ∷ [],
    )

abbrev is_none : Option String → Bool
is_none none = true
is_none (some line) = false

-- The first loop of Usernames::replace and the loop of Usernames::clear
unfoldable run_deluser : (String → Bool) → List User → List Effect
run_deluser test [] = []
run_deluser test (x ∷ xs) =
    let rest = run_deluser test xs in
    if test x.nick then runs ("deluser" ∷ "--remove-home" ∷ x.nick ∷ []) ∷ rest else rest

-- The second loop of Usernames::replace
unfoldable run_adduser : (String → Bool) → List User → List Effect
run_adduser test [] = []
run_adduser test (x ∷ xs) =
    let rest = run_adduser test xs in
    if test x.nick then runs ("adduser" ∷ x.nick ∷ []) ∷ rest else rest

-- Usernames::replace
unfoldable pub replace : Usernames → Usernames → Usernames × List Effect
unfolding fill_nicks find_line run_deluser run_adduser
replace u src =
    let old = fill_nicks u in
    let new = fill_nicks src in
    (
      record old { users = new.users },
      run_deluser (λ nick. is_none (find_line nick new.users)) old.users
          ++ (run_adduser (λ nick. is_none (find_line nick old.users)) new.users
              ++ updates_shadow ∷ []),
    )

-- Usernames::clear
unfoldable pub clear : Usernames → Usernames × List Effect
unfolding run_deluser
clear u = (record u { users = [] }, run_deluser (λ nick. true) u.users)

-- What `getline` gives of a file, one after another
abbrev pub put_in_front : Char → List String → List String
put_in_front ch [] = String.◌∷◌ ch "" ∷ []
put_in_front ch (line ∷ more) = String.◌∷◌ ch line ∷ more

unfoldable pub file_lines : String → List String
file_lines String.[] = []
file_lines (String.◌∷◌ ch s) =
    let more = file_lines s in if code ch == 10 then "" ∷ more else put_in_front ch more

abbrev pub line_end : Char
line_end = char 10 tt

-- `nline ? *nline : line`
abbrev pub new_line : List User → String → String
new_line users line = elim (find_line (get_nick line) users) [ none ↦ line | some nline ↦ nline ]

-- The loop of Usernames::updpwd: what is written for the lines
unfoldable pub write_lines : List User → List String → String
unfolding find_line get_nick
write_lines users [] = ""
write_lines users (line ∷ more) =
    str_append (new_line users line) (String.◌∷◌ line_end (write_lines users more))

-- Usernames::updpwd: the text of /etc/shadow behind it
unfoldable pub updpwd : List User → String → String
unfolding file_lines write_lines
updpwd users shadow = write_lines users (file_lines shadow)

-- Every nick is that of its line.
abbrev pub NicksMatch : List User → Type 0
NicksMatch = All (λ (x : User). x.nick ≡ get_nick x.line)

add_ns-NicksMatch : (line : String) (xs : List User) → NicksMatch xs → NicksMatch (add_ns line xs).0
unfolding add_ns
add_ns-NicksMatch line [] h = (refl, tt)
add_ns-NicksMatch line (x ∷ xs) h = elim (Bool-cases (str_eq x.nick (get_nick line))) [
  | inl same ↦ rw same (refl, h.1)
  | inr other ↦ rw other (h.0, add_ns-NicksMatch line xs h.1)
]

-- After `add_ns` the line is the one that is found under its nick, and every other nick keeps the
-- line that it had.
pub find_line-add_ns :
    (line nick : String) (xs : List User)
    → find_line nick (add_ns line xs).0
      ≡ (if str_eq (get_nick line) nick then some line else find_line nick xs)
unfolding find_line add_ns
find_line-add_ns line nick [] = refl
find_line-add_ns line nick (x ∷ xs) = ground (
  arith,
  find_line-add_ns line nick xs,
  eq_iff x.nick (get_nick line),
  eq_iff x.nick nick,
  eq_iff (get_nick line) nick,
)
