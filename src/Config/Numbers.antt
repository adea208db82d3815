-- ===== src/Config/Numbers.antt =====
-- What `istringstream(s) >> x` gives in config.cpp, for an int and for a size_t.
use distadm.Prelude.{
  ℕ, suc, ◌+◌, ◌-◌, ◌*◌, ◌%◌, ◌^◌, min, Bool, true, false, Option, none, some, List, [], ◌∷◌, ltb,
  ◌==◌, if◌then◌else◌,
}
use distadm.Text.{isspace, isdigit}
use distadm.Messages.{u64}

abbrev pub skip_space : List ℕ → List ℕ
skip_space [] = []
skip_space (ch ∷ s) = if isspace ch then skip_space s else ch ∷ s

-- A sign, if there is one
abbrev pub sign : List ℕ → Bool × List ℕ
sign [] = (false, [])
sign (ch ∷ s) = if ch == b'-' then (true, s) else if ch == b'+' then (false, s) else (false, ch ∷ s)

-- The number of digits, their value behind `acc`, and what follows them
abbrev pub digits : ℕ → List ℕ → ℕ × ℕ × List ℕ
digits acc [] = (0, acc, [])
digits acc (ch ∷ s) =
    let (n, v, rest) = digits (acc * 10 + (ch - b'0')) s in
    if isdigit ch then (suc n, v, rest) else (0, acc, ch ∷ s)

-- `>> x` of a size_t: 0 where there is no digit and the largest value where it is too large, and the
-- stream has then failed. A negative number wraps.
unfoldable pub extract_size : List ℕ → ℕ × Option (List ℕ)
extract_size s =
    let (negative, s') = sign (skip_space s) in
    let (n, v, rest) = digits 0 s' in
    if n == 0
    then (0, none)
    else if ltb v u64
    then ((if negative then (u64 - v) % u64 else v), some rest)
    else (u64 - 1, none)

-- `>> ch` behind it: 0, the value before, where the stream has failed or is at its end
unfoldable pub next_char : Option (List ℕ) → ℕ
next_char none = 0
next_char (some s) = elim (skip_space s) [ [] ↦ 0 | ch ∷ s' ↦ ch ]

-- `>> x` of an int, as its 32 bits: the nearest value where it is out of range
unfoldable pub extract_int : List ℕ → ℕ
extract_int s =
    let (negative, s') = sign (skip_space s) in
    let (n, v, rest) = digits 0 s' in
    if negative then (2 ^ 32 - min v (2 ^ 31)) % 2 ^ 32 else min v (2 ^ 31 - 1)
