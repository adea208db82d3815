-- ===== src/Usernames/Shadow.antt =====
-- Usernames::updpwd keeps the accounts of /etc/shadow.
use Prim.Native.Char.{Char, code}
use Prim.Native.String.{◌++◌ as str_append}
use Prim.Native.String.append
use text.Mathlib.Text.{◌==◌ as str_eq}
use text.Mathlib.TextEquality.{eq_iff}
use distadm.Prelude.{
  String, ◌≡◌, refl, sym, ap, ap₂, subst, ◌∙◌, Option-cases, false, some, List, [], ◌∷◌, map, ◌==◌,
  arith, Bool-cases, inl, inr, All,
}
use distadm.Usernames.{
  User, get_nick, find_line, put_in_front, file_lines, line_end, new_line, write_lines, updpwd,
  NicksMatch,
}

-- No line ends in the text.
abbrev pub IsOneLine : String → Type 0
IsOneLine String.[] = Unit
IsOneLine (String.◌∷◌ ch s) = ((code ch == 10) ≡ false) × IsOneLine s

abbrev pub AreLines : List User → Type 0
AreLines = All (λ (x : User). IsOneLine x.line)

find_line-nick :
    (nick line : String) (xs : List User)
    → NicksMatch xs
    → find_line nick xs ≡ some line
    → get_nick line ≡ nick
unfolding find_line
find_line-nick nick line [] h e = cc
find_line-nick nick line (x ∷ xs) h e =
    ground (arith, find_line-nick nick line xs h.1, eq_iff x.nick nick)

file_lines-append :
    (line rest : String)
    → IsOneLine line
    → file_lines (str_append line (String.◌∷◌ line_end rest)) ≡ line ∷ file_lines rest
unfolding file_lines
file_lines-append String.[] rest h = rw (append.nil (String.◌∷◌ line_end rest)) refl
file_lines-append (String.◌∷◌ ch s) rest (e, h) =
    rw (append.cons ch s (String.◌∷◌ line_end rest))
      (rw e (ap (put_in_front ch) (file_lines-append s rest h)))

IsOneLine-put_in_front :
    (ch : Char) (ls : List String)
    → (code ch == 10) ≡ false
    → All IsOneLine ls
    → All IsOneLine (put_in_front ch ls)
IsOneLine-put_in_front ch [] e h = ((e, tt), tt)
IsOneLine-put_in_front ch (line ∷ more) e h = ((e, h.0), h.1)

IsOneLine-file_lines : (s : String) → All IsOneLine (file_lines s)
unfolding file_lines
IsOneLine-file_lines String.[] = tt
IsOneLine-file_lines (String.◌∷◌ ch s) = elim (Bool-cases (code ch == 10)) [
  | inl end ↦ rw end (tt, IsOneLine-file_lines s)
  | inr inside ↦
      rw inside (IsOneLine-put_in_front ch (file_lines s) inside (IsOneLine-file_lines s))
]

find_line-IsOneLine :
    (nick line : String) (xs : List User)
    → AreLines xs
    → find_line nick xs ≡ some line
    → IsOneLine line
unfolding find_line
find_line-IsOneLine nick line [] h e = absurd cc
find_line-IsOneLine nick line (x ∷ xs) h e = elim (Bool-cases (str_eq x.nick nick)) [
  | inl same ↦
      let found : some x.line ≡ some line = sym (rw same refl) ∙ e in
      let equal : x.line ≡ line = cc in subst IsOneLine equal h.0
  | inr other ↦ find_line-IsOneLine nick line xs h.1 (sym (rw other refl) ∙ e)
]

-- The line that is written is one line, with the nick of the line that was read.
new_line_lem :
    (users : List User) (line : String)
    → NicksMatch users
    → AreLines users
    → IsOneLine line
    → IsOneLine (new_line users line) × (get_nick (new_line users line) ≡ get_nick line)
new_line_lem users line match all h = elim (Option-cases (find_line (get_nick line) users)) [
  | inl absent ↦
      let same : new_line users line ≡ line = rw (absent, new_line) refl in
      (subst IsOneLine (sym same) h, ap get_nick same)
  | inr (nline, found) ↦
      let same : new_line users line ≡ nline = rw (found, new_line) refl in
      (
        subst IsOneLine (sym same) (find_line-IsOneLine (get_nick line) nline users all found),
        ap get_nick same ∙ find_line-nick (get_nick line) nline users match found,
      )
]

nicks-write_lines :
    (users : List User) (ls : List String)
    → NicksMatch users
    → AreLines users
    → All IsOneLine ls
    → map get_nick (file_lines (write_lines users ls)) ≡ map get_nick ls
unfolding write_lines file_lines
nicks-write_lines users [] match all h = refl
nicks-write_lines users (line ∷ more) match all h =
    let written = new_line_lem users line match all h.0 in
    ap (map get_nick) (file_lines-append (new_line users line) (write_lines users more) written.0)
    ∙ ap₂ ◌∷◌ written.1 (nicks-write_lines users more match all h.1)

-- Rewriting /etc/shadow changes no account: the lines of the new file have the nicks of the old one, in
-- its order, and there are no further lines. The nicks of the users are those of their lines, and no
-- line end stands in the line of a user.
pub nicks-updpwd :
    (users : List User) (shadow : String)
    → NicksMatch users
    → AreLines users
    → map get_nick (file_lines (updpwd users shadow)) ≡ map get_nick (file_lines shadow)
unfolding updpwd
nicks-updpwd users shadow match all =
    nicks-write_lines users (file_lines shadow) match all (IsOneLine-file_lines shadow)
