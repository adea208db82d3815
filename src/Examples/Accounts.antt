-- ===== src/Examples/Accounts.antt =====
-- The theorems on the accounts, the texts and the identifiers.
use distadm.Prelude.{
  none, take, drop, ◌-◌, ◌++◌, ℕ, false, some, List, [], ◌∷◌, map, ◌≡◌, refl, arith,
}
use distadm.Usernames.{User, get_nick, file_lines, updpwd, NicksMatch}
use distadm.Usernames.Shadow.{AreLines, nicks-updpwd}
use distadm.Stream.{Token, size, byte, hash, write_file, read_to_file, skip_file}
use distadm.Stream.Files.{read_to_file-write_file, skip_file-none}
use distadm.Text.{print_list, splitq}
use distadm.Text.Quoting.{splitq-print_list}

abbrev accounts : List User
accounts =
    record { line = "ann:x:1"; nick = "ann" } ∷ record { line = "bob:y:2"; nick = "bob" } ∷ []

accounts-NicksMatch : NicksMatch accounts
unfolding get_nick
accounts-NicksMatch = (refl, (refl, tt))

accounts-AreLines : AreLines accounts
accounts-AreLines = (
  (refl, (refl, (refl, (refl, (refl, (refl, (refl, tt))))))),
  ((refl, (refl, (refl, (refl, (refl, (refl, (refl, tt))))))), tt),
)

nicks-updpwd_example :
    map get_nick (file_lines (updpwd accounts "root:z:0\nbob:old:1\n"))
    ≡ map get_nick (file_lines "root:z:0\nbob:old:1\n")
nicks-updpwd_example =
    nicks-updpwd accounts "root:z:0\nbob:old:1\n" accounts-NicksMatch accounts-AreLines

-- A line end in the line of a user gives a further account.
test_two_accounts :
    file_lines (updpwd (record { line = "bob:y\neve:z"; nick = "bob" } ∷ []) "bob:old\n")
    ≡ "bob:y" ∷ "eve:z" ∷ []
unfolding updpwd
test_two_accounts = refl

-- A word, a text with a space and a quote, and a backslash
abbrev words : List (List ℕ)
words = (b'a' ∷ b'b' ∷ []) ∷ (b'c' ∷ b' ' ∷ 34 ∷ []) ∷ (92 ∷ []) ∷ []

splitq-print_list_example : splitq (print_list words b' ') false 0 ≡ some words
splitq-print_list_example = splitq-print_list words (refl, (refl, (refl, tt)))

-- A file of five bytes, of which the segment from 1 to 4 is sent
abbrev file : List ℕ
file = 7 ∷ 8 ∷ 9 ∷ 10 ∷ 11 ∷ []

read_to_file-write_file_example :
    (sent : List Token) × (write_file file 1 4 ≡ some sent)
    × ((s : List Token) → read_to_file (sent ++ s) ≡ some (take (4 - 1) (drop 1 file), s))
read_to_file-write_file_example = read_to_file-write_file file 1 4 (omega arith) (omega arith)

skip_file-none_example : skip_file 9 (size 2 ∷ hash ∷ byte 7 ∷ byte 8 ∷ hash ∷ []) ≡ none
skip_file-none_example = skip_file-none 9 2 (byte 7 ∷ byte 8 ∷ hash ∷ []) (omega arith)
