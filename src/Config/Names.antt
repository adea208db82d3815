-- ===== src/Config/Names.antt =====
-- The option `listen` of config.cpp, and IFName of network.cpp.
use distadm.Prelude.{
  ℕ, zero, suc, Bool, true, false, none, some, List, [], ◌∷◌, take, ltb, ◌==◌, ◌||◌, ◌&&◌,
  if◌then◌else◌,
}
use distadm.Text.{find_first_of}

-- split(s2) with a blank as the delimiter, on fuel of one for each byte: each view as its text and the
-- bytes from its begin to the end of the line, which is what `data` points to. No view is empty.
unfoldable pub views : ℕ → List ℕ → List (List ℕ × List ℕ)
unfolding find_first_of
views zero s = []
views (suc fuel) [] = []
views (suc fuel) (ch ∷ s) =
    let (field, rest) = find_first_of b' ' (ch ∷ s) in
    let more : List (List ℕ × List ℕ) = elim rest [ none ↦ [] | some s' ↦ views fuel s' ] in
    if ch == b' ' then more else (field, ch ∷ s) ∷ more

abbrev until_nul : List ℕ → List ℕ
until_nul [] = []
until_nul (ch ∷ s) = if ch == 0 then [] else ch ∷ until_nul s

-- IFName::init_from: strlcpy into 16 bytes
unfoldable pub ifname : List ℕ → List ℕ
ifname str = take 15 (until_nul str)

-- IFName::operator<
abbrev pub before : List ℕ → List ℕ → Bool
before xs [] = false
before [] (y ∷ ys) = true
before (x ∷ xs) (y ∷ ys) = ltb x y || x == y && before xs ys

-- std::set::insert
abbrev pub add_name : List ℕ → List (List ℕ) → List (List ℕ)
add_name name [] = name ∷ []
add_name name (n ∷ names) =
    if before name n
    then name ∷ n ∷ names
    else if before n name
    then n ∷ add_name name names
    else n ∷ names
