-- ===== src/Text.antt =====
-- The string routines of utils.cpp on bytes: split, quote_string, dequote_string, splitq, print_list.
-- dequote_string appends a run of plain characters at once, the function here one by one.
pub mod Quoting
use distadm.Prelude.{
  ℕ, zero, suc, ◌+◌, ◌*◌, ◌-◌, Bool, true, false, not, Option, none, some, List, [], ◌∷◌, ◌++◌,
  length, leb, ◌==◌, ◌&&◌, ◌||◌, if◌then◌else◌,
}

-- isspace in the C locale
abbrev pub isspace : ℕ → Bool
isspace ch = ch == b' ' || leb 9 ch && leb ch 13

abbrev pub isdigit : ℕ → Bool
isdigit ch = leb b'0' ch && leb ch b'9'

abbrev isdelimiter : ℕ → ℕ → Bool
isdelimiter ch delimiter = if delimiter == 0 then isspace ch else ch == delimiter

-- The text up to the next single quote, and what follows that quote
unfoldable until_quote : List ℕ → List ℕ × List ℕ
until_quote [] = ([], [])
until_quote (ch ∷ s) =
    let (text, rest) = until_quote s in if ch == 39 then ([], s) else (ch ∷ text, rest)

-- The digits after `\0`: at most two are read.
unfoldable octet : List ℕ → ℕ × List ℕ
octet [] = (0, [])
octet (x ∷ []) = if isdigit x then (x - b'0', []) else (0, x ∷ [])
octet (x ∷ y ∷ s) =
    if isdigit x
    then if isdigit y then ((x - b'0') * 10 + (y - b'0'), s) else (x - b'0', y ∷ s)
    else (0, x ∷ y ∷ s)

-- The switch over the character after a backslash
abbrev escape_code : ℕ → Option ℕ
escape_code ch =
    if ch == 92
    then some 92
    else if ch == b'b'
    then some 8
    else if ch == b'e'
    then some 27
    else if ch == b'f'
    then some 12
    else if ch == b'n'
    then some 10
    else if ch == b'r'
    then some 13
    else if ch == b't'
    then some 9
    else if ch == b'v'
    then some 11
    else if ch == b' '
    then some 32
    else if ch == 34
    then some 34
    else none

unfoldable pub escape : List ℕ → List ℕ × List ℕ
unfolding octet
escape [] = ([], [])
escape (ch ∷ s) = elim (escape_code ch) [
  | some x ↦ (x ∷ [], s)
  | none ↦ let (x, rest) = octet s in if ch == b'0' then (x ∷ [], rest) else (92 ∷ ch ∷ [], s)
]

abbrev pub prepend : List ℕ → List ℕ × List ℕ → List ℕ × List ℕ
prepend text (res, rest) = (text ++ res, rest)

-- dequote_string on fuel, of which one for each character is enough: the text, and what is left
unfoldable pub dequote_string : ℕ → Bool → ℕ → List ℕ → List ℕ × List ℕ
unfolding until_quote escape
dequote_string zero inq delimiter s = ([], s)
dequote_string (suc fuel) inq delimiter [] = ([], [])
dequote_string (suc fuel) inq delimiter (ch ∷ s) = elim (ch == 39 && not inq) [
  | true ↦ let (text, rest) = until_quote s in prepend text (dequote_string fuel inq delimiter rest)
  | false ↦ elim (ch == 34) [
    | true ↦ dequote_string fuel (not inq) delimiter s
    | false ↦ elim (not inq && isdelimiter ch delimiter) [
      | true ↦ ([], ch ∷ s)
      | false ↦ elim (ch == 92) [
        | true ↦
            let (text, rest) = escape s in prepend text (dequote_string fuel inq delimiter rest)
        | false ↦ prepend (ch ∷ []) (dequote_string fuel inq delimiter s)
      ]
    ]
  ]
]

unfoldable pub skip_spaces : List ℕ → List ℕ
skip_spaces [] = []
skip_spaces (ch ∷ s) = let rest = skip_spaces s in if isspace ch then rest else ch ∷ s

abbrev pub is_empty : List ℕ → Bool
is_empty [] = true
is_empty (ch ∷ s) = false

-- The second loop of splitq; `none` means that the fuel ran out.
unfoldable pub splitq_loop : ℕ → Bool → ℕ → List ℕ → Option (List (List ℕ))
unfolding dequote_string skip_spaces
splitq_loop zero keep_empty delimiter s = none
splitq_loop (suc fuel) keep_empty delimiter [] = some []
splitq_loop (suc fuel) keep_empty delimiter (ch ∷ s) =
    let (str, rest) = dequote_string (suc (suc (length s))) false delimiter (ch ∷ s) in
    elim (splitq_loop fuel keep_empty delimiter (skip_spaces rest)) [
      | none ↦ none
      | some res ↦ some (if keep_empty || not (is_empty str) then str ∷ res else res)
    ]

unfoldable pub splitq : List ℕ → Bool → ℕ → Option (List (List ℕ))
unfolding splitq_loop
splitq src keep_empty delimiter =
    splitq_loop (suc (length src)) keep_empty delimiter (skip_spaces src)

abbrev is_special : ℕ → Bool
is_special ch = isspace ch || ch == 39 || ch == 34 || ch == 92

-- `need_quote`
unfoldable pub need_quote : List ℕ → Bool
need_quote [] = false
need_quote (ch ∷ s) = is_special ch || need_quote s

unfoldable pub escaped : List ℕ → List ℕ
escaped [] = []
escaped (ch ∷ s) =
    let rest = escaped s in if ch == 92 || ch == 34 then 92 ∷ ch ∷ rest else ch ∷ rest

unfoldable pub quote_string : List ℕ → List ℕ
unfolding need_quote escaped
quote_string src = if need_quote src then 34 ∷ escaped src ++ 34 ∷ [] else src

-- print_list behind its first element
unfoldable pub print_more : List (List ℕ) → ℕ → List ℕ
unfolding quote_string
print_more [] delim = []
print_more (n ∷ list) delim = delim ∷ quote_string n ++ print_more list delim

unfoldable pub print_list : List (List ℕ) → ℕ → List ℕ
unfolding print_more
print_list [] delim = []
print_list (n ∷ list) delim = quote_string n ++ print_more list delim

-- The text before the first delimiter, and what follows it if there is one
unfoldable pub find_first_of : ℕ → List ℕ → List ℕ × Option (List ℕ)
find_first_of delim [] = ([], none)
find_first_of delim (ch ∷ s) =
    let (field, rest) = find_first_of delim s in
    if ch == delim then ([], some s) else (ch ∷ field, rest)

-- split on fuel, of which one for each byte is enough
unfoldable pub split : ℕ → List ℕ → Bool → ℕ → List (List ℕ)
unfolding find_first_of
split zero strv keep_empty delim = []
split (suc fuel) [] keep_empty delim = []
split (suc fuel) (ch ∷ s) keep_empty delim =
    let (field, rest) = find_first_of delim (ch ∷ s) in
    let more : List (List ℕ) = elim rest [ none ↦ [] | some s' ↦ split fuel s' keep_empty delim ] in
    if keep_empty || not (is_empty field) then field ∷ more else more
