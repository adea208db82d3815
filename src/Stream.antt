-- ===== src/Stream.antt =====
-- How ccstream.cpp sends a file within a packet: OCCstream::write_file, ICCstream::read_to_file,
-- read_to_tempfile and skip_file. Below them stand compression and encryption, which are of other
-- libraries: a stream is the list of what was written, a size and a hash being one element each, and
-- the hash of a stream that is not damaged is right.
pub mod Files
use distadm.Prelude.{
  ℕ, zero, suc, ◌-◌, Bool, true, false, Option, none, some, List, [], ◌∷◌, ◌++◌, min, length, take,
  drop, map, ltb, ◌==◌, if◌then◌else◌,
}

pub data Token : Type 0 where
  size byte : ℕ → Token
  hash : Token

-- The size of `buf`
abbrev pub buf_size : ℕ
buf_size = 65536

-- The loop of write_file at the rest of the file; `none` is the exception, or the end of the fuel,
-- of which one for each byte is enough.
unfoldable pub write_chunks : ℕ → List ℕ → ℕ → Option (List Token)
write_chunks fuel file zero = some []
write_chunks zero file (suc w) = none
write_chunks (suc fuel) file (suc w) =
    let rsize = min buf_size (suc w) in
    if ltb (length (take rsize file)) rsize
    then none
    else elim (write_chunks fuel (drop rsize file) (suc w - rsize)) [
      | none ↦ none
      | some rest ↦ some (map byte (take rsize file) ++ rest)
    ]

-- OCCstream::write_file, for a segment that does not end before it begins
unfoldable pub write_file : List ℕ → ℕ → ℕ → Option (List Token)
unfolding write_chunks
write_file file from to =
    let wsize = to - from in
    elim (write_chunks wsize (drop from file) wsize) [
      | none ↦ none
      | some rest ↦ some (size wsize ∷ hash ∷ (rest ++ hash ∷ []))
    ]

-- ICCstream::read of so many bytes
unfoldable pub read_bytes : ℕ → List Token → Option (List ℕ × List Token)
read_bytes zero s = some ([], s)
read_bytes (suc n) [] = none
read_bytes (suc n) (size x ∷ s) = none
read_bytes (suc n) (hash ∷ s) = none
read_bytes (suc n) (byte b ∷ s) = elim (read_bytes n s) [
  | none ↦ none
  | some (bs, rest) ↦ some (b ∷ bs, rest)
]

-- ICCstream::check_hash
unfoldable pub check_hash : List Token → Option (List Token)
check_hash (hash ∷ s) = some s
check_hash s = none

-- The loop of read_to_file and read_to_tempfile: what is written, and the rest of the stream
unfoldable pub read_chunks : ℕ → ℕ → List Token → Option (List ℕ × List Token)
unfolding read_bytes
read_chunks fuel zero s = some ([], s)
read_chunks zero (suc w) s = none
read_chunks (suc fuel) (suc w) s =
    let rsize = min buf_size (suc w) in
    elim (read_bytes rsize s) [
      | none ↦ none
      | some (bs, s') ↦ elim (read_chunks fuel (suc w - rsize) s') [
        | none ↦ none
        | some (more, rest) ↦ some (bs ++ more, rest)
      ]
    ]

-- The end of a read: the hash behind the bytes
unfoldable pub close_read : Option (List ℕ × List Token) → Option (List ℕ × List Token)
unfolding check_hash
close_read none = none
close_read (some (bs, s)) = elim (check_hash s) [ none ↦ none | some rest ↦ some (bs, rest) ]

-- ICCstream::read_to_file and read_to_tempfile
unfoldable pub read_to_file : List Token → Option (List ℕ × List Token)
unfolding read_chunks close_read check_hash
read_to_file (size wsize ∷ s) = elim (check_hash s) [
  | none ↦ none
  | some s' ↦ close_read (read_chunks wsize wsize s')
]
read_to_file s = none

-- The loop of skip_file, on fuel: `wsize` is what it was in every round.
unfoldable pub skip_chunks : ℕ → ℕ → List Token → Option (List Token)
unfolding read_bytes
skip_chunks fuel zero s = some s
skip_chunks zero (suc w) s = none
skip_chunks (suc fuel) (suc w) s = elim (read_bytes (min buf_size (suc w)) s) [
  | none ↦ none
  | some (bs, s') ↦ skip_chunks fuel (suc w) s'
]

-- ICCstream::skip_file on fuel
unfoldable pub skip_file : ℕ → List Token → Option (List Token)
unfolding skip_chunks check_hash
skip_file fuel (size wsize ∷ s) = elim (check_hash s) [
  | none ↦ none
  | some s' ↦ elim (skip_chunks fuel wsize s') [ none ↦ none | some rest ↦ check_hash rest ]
]
skip_file fuel s = none
