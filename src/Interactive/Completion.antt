-- ===== src/Interactive/Completion.antt =====
-- The completion of a typed line in interactive.cpp: word_number, complt, and the choice of
-- my_readline_cf. readline, strncmp and the names to offer are of elsewhere.
use text.Mathlib.Text.{◌==◌ as str_eq}
use distadm.Prelude.{
  ℕ, zero, suc, ◌+◌, ◌≤◌, ◌<◌, ◌≡◌, refl, sym, ap, ◌∙◌, ◌⊎◌, length-take, String, Bool, true, false,
  not, Option, none, some, List, [], ◌∷◌, length, take, ◌==◌, ◌&&◌, ◌||◌, if◌then◌else◌, arith,
  Bool-cases, inl, inr,
}
use distadm.Text.{isspace}

pub data Complt : Type 0 where
  no_words node user loc_file my_file : Complt

unfoldable pub complt : String → Complt
complt str =
    if str_eq str "delnode"
    then Complt.node
    else if str_eq str "deluser"
    then Complt.user
    else if str_eq str "delfile" || str_eq str "deldir"
    then Complt.my_file
    else if str_eq str "addfile"
        || str_eq str "join-group"
        || str_eq str "finalize-invite"
        || str_eq str "read-packet"
        || str_eq str "write-packet"
        || str_eq str "write-online-invite"
        || str_eq str "write-offline-invite"
    then Complt.loc_file
    else Complt.no_words

-- What readline is told to offer
pub data Offer : Type 0 where
  cmdnames nodenames usernames force : Offer
  -- File names: whether of the directory of files
  files : Bool → Offer
  nothing : Offer

abbrev offer_of : Complt → Offer
offer_of Complt.node = Offer.nodenames
offer_of Complt.user = Offer.usernames
offer_of Complt.my_file = Offer.files true
offer_of Complt.loc_file = Offer.files false
offer_of Complt.no_words = Offer.nothing

-- my_readline_cf for the word number `deep` of a line with the first word `cmd`
unfoldable my_readline_cf : ℕ → String → Offer
unfolding complt
my_readline_cf deep cmd =
    if deep == 0
    then Offer.cmdnames
    else if deep == 1
    then offer_of (complt cmd)
    else if deep == 2 && str_eq cmd "delnode"
    then Offer.force
    else Offer.nothing

-- `while (i < ptr && isspace(str[i])) i++;` on what is left of the first `ptr` bytes
unfoldable skip_blanks : List ℕ → List ℕ
skip_blanks [] = []
skip_blanks (ch ∷ s) = let rest = skip_blanks s in if isspace ch then rest else ch ∷ s

-- `while (i < ptr && !isspace(str[i])) i++;`
unfoldable skip_word : List ℕ → List ℕ
skip_word [] = []
skip_word (ch ∷ s) = let rest = skip_word s in if isspace ch then ch ∷ s else rest

-- The endless loop, on fuel
unfoldable pub words_from : ℕ → ℕ → List ℕ → Option ℕ
unfolding skip_blanks skip_word
words_from zero res s = none
words_from (suc fuel) res s = elim (skip_blanks s) [
  | [] ↦ some res
  | ch ∷ s' ↦ elim (skip_word (ch ∷ s')) [
    | [] ↦ some res
    | ch' ∷ s'' ↦ words_from fuel (suc res) (ch' ∷ s'')
  ]
]

unfoldable pub word_number : List ℕ → ℕ → Option ℕ
unfolding words_from
word_number str ptr = words_from (suc ptr) 0 (take ptr str)

-- How many words end before the end of a text: bytes of a word in front of a space
abbrev pub ends : List ℕ → ℕ
ends [] = 0
ends (x ∷ []) = 0
ends (x ∷ y ∷ s) =
    let rest = ends (y ∷ s) in if not (isspace x) && isspace y then suc rest else rest

skip_blanks-plain : (x : ℕ) (s : List ℕ) → isspace x ≡ false → skip_blanks (x ∷ s) ≡ x ∷ s
unfolding skip_blanks
skip_blanks-plain x s plain = rw plain refl

ends-skip_blanks : (s : List ℕ) → ends (skip_blanks s) ≡ ends s
unfolding skip_blanks
ends-skip_blanks [] = refl
ends-skip_blanks (x ∷ []) = elim (Bool-cases (isspace x)) [
  | inl space ↦ rw space refl
  | inr plain ↦ rw plain refl
]
ends-skip_blanks (x ∷ y ∷ s) = elim (Bool-cases (isspace x)) [
  | inl space ↦ rw space (ends-skip_blanks (y ∷ s))
  | inr plain ↦ ap ends (skip_blanks-plain x (y ∷ s) plain)
]

skip_blanks-length : (s : List ℕ) → length (skip_blanks s) ≤ length s
unfolding skip_blanks
skip_blanks-length [] = omega arith
skip_blanks-length (x ∷ s) = elim (Bool-cases (isspace x)) [
  | inl space ↦ rw space (omega (arith, skip_blanks-length s))
  | inr plain ↦ rw plain (omega arith)
]

skip_blanks-starts : (s : List ℕ) (x : ℕ) (r : List ℕ) → skip_blanks s ≡ x ∷ r → isspace x ≡ false
unfolding skip_blanks
skip_blanks-starts [] x r e = cc
skip_blanks-starts (y ∷ s) x r e = elim (Bool-cases (isspace y)) [
  | inl space ↦ skip_blanks-starts s x r (rw space at e)
  | inr plain ↦
      let same : y ∷ s ≡ x ∷ r = rw plain at e in let here : y ≡ x = cc in rw here at plain
]

-- The words that end from the end of the first word on
abbrev after_word : List ℕ → ℕ
after_word [] = 0
after_word (x ∷ r) = suc (ends (x ∷ r))

ends-skip_word : (x : ℕ) (s : List ℕ) → isspace x ≡ false → ends (x ∷ s) ≡ after_word (skip_word s)
unfolding skip_word
ends-skip_word x [] plain = refl
ends-skip_word x (y ∷ s) plain = elim (Bool-cases (isspace y)) [
  | inl space ↦ rw (plain, space) refl
  | inr word ↦ rw (plain, word) (ends-skip_word y s word)
]

skip_word-length : (s : List ℕ) → length (skip_word s) ≤ length s
unfolding skip_word
skip_word-length [] = omega arith
skip_word-length (x ∷ s) = elim (Bool-cases (isspace x)) [
  | inl space ↦ rw space (omega arith)
  | inr plain ↦ rw plain (omega (arith, skip_word-length s))
]

List-cases : (s : List ℕ) → (s ≡ []) ⊎ ((x : ℕ) × (r : List ℕ) × (s ≡ x ∷ r))
List-cases [] = inl refl
List-cases (x ∷ r) = inr (x, r, refl)

words_from-ends :
    (fuel res : ℕ) (s : List ℕ) → length s < fuel → words_from fuel res s ≡ some (res + ends s)
unfolding words_from skip_word
words_from-ends zero res s h = absurd (omega arith)
words_from-ends (suc fuel) res s h = elim (List-cases (skip_blanks s)) [
  | inl empty ↦
      let none_ends : ends s ≡ 0 = sym (ends-skip_blanks s) ∙ rw empty refl in
      rw (empty, words_from) (ap some (omega (arith, none_ends)))
  | inr (x, r, found) ↦
      let plain = skip_blanks-starts s x r found in
      let counted : ends s ≡ after_word (skip_word r) =
        sym (ends-skip_blanks s) ∙ rw found (ends-skip_word x r plain) in
      let shorter : suc (length r) ≤ length s = rw found at (skip_blanks-length s) in
      rw (found, words_from)
        (rw plain (elim (List-cases (skip_word r)) [
          | inl last ↦ rw last (ap some (omega (arith, counted, ap after_word last)))
          | inr (y, t, more) ↦
              let small : length (y ∷ t) ≤ length r = rw more at (skip_word-length r) in
              rw more (
                words_from-ends fuel (suc res) (y ∷ t) (omega (arith, small, shorter, h))
                ∙ ap some (omega (arith, counted, ap after_word more)))
        ]))
]

-- The endless loop of `word_number` ends, and counts the words that end before the place in the line.
pub word_number-ends : (str : List ℕ) (ptr : ℕ) → word_number str ptr ≡ some (ends (take ptr str))
unfolding word_number
word_number-ends str ptr =
    let counted = words_from-ends (suc ptr) 0 (take ptr str) (omega (arith, length-take ptr str)) in
    counted ∙ ap some (omega arith)
