-- ===== src/Stream/Files.antt =====
-- What write_file writes is what read_to_file reads, and skip_file does not come past it.
use distadm.Prelude.{
  ℕ, zero, suc, ◌+◌, ◌-◌, ◌≤◌, ◌<◌, ◌≡◌, refl, sym, ap, ◌∙◌, false, none, some, List, [], ◌∷◌, ◌++◌,
  append_assoc, min, length, take, drop, map, ltb, arith, Option-cases, inl, inr, length-take,
  length-drop, ltb-ge,
}
use distadm.Matrix.Lookup.{drop-drop}
use distadm.Stream.{
  Token, size, byte, hash, buf_size, write_chunks, write_file, read_bytes, check_hash, read_chunks,
  close_read, read_to_file, skip_chunks, skip_file,
}

take_split : (r d w : ℕ) (xs : List ℕ) → r + d ≡ w → take r xs ++ take d (drop r xs) ≡ take w xs
take_split zero d w xs e = let same : d ≡ w = omega arith in rw same refl
take_split (suc r) d zero xs e = absurd (omega arith)
take_split (suc r) zero (suc w) [] e = refl
take_split (suc r) (suc d) (suc w) [] e = refl
take_split (suc r) d (suc w) (x ∷ xs) e = ap (◌∷◌ x) (take_split r d w xs (omega arith))

take_full : (n : ℕ) (xs : List ℕ) → length xs ≤ n → take n xs ≡ xs
take_full zero [] h = refl
take_full zero (x ∷ xs) h = absurd (omega arith)
take_full (suc n) [] h = refl
take_full (suc n) (x ∷ xs) h = ap (◌∷◌ x) (take_full n xs (omega arith))

drop_full : (n : ℕ) (xs : List ℕ) → length xs ≤ n → drop n xs ≡ []
drop_full zero [] h = refl
drop_full zero (x ∷ xs) h = absurd (omega arith)
drop_full (suc n) [] h = refl
drop_full (suc n) (x ∷ xs) h = drop_full n xs (omega arith)

map_append : (xs ys : List ℕ) → map byte (xs ++ ys) ≡ map byte xs ++ map byte ys
map_append [] ys = refl
map_append (x ∷ xs) ys = ap (◌∷◌ (byte x)) (map_append xs ys)

write_chunks-take :
    (fuel : ℕ) (file : List ℕ) (w : ℕ)
    → w ≤ fuel
    → w ≤ length file
    → write_chunks fuel file w ≡ some (map byte (take w file))
unfolding write_chunks
write_chunks-take zero file zero h l = refl
write_chunks-take (suc fuel) file zero h l = refl
write_chunks-take zero file (suc w) h l = absurd (omega arith)
write_chunks-take (suc fuel) file (suc w) h l =
    let r = min buf_size (suc w) in
    let full : ltb (length (take r file)) r ≡ false =
      ltb-ge (length (take r file)) r (omega (arith, length-take r file)) in
    let ih =
      write_chunks-take fuel (drop r file) (suc w - r) (omega arith)
        (omega (arith, length-drop r file)) in
    rw full (
      rw (ih, write_chunks)
        (ap some (
          sym (map_append (take r file) _)
          ∙ ap (map byte) (take_split r (suc w - r) (suc w) file (omega arith)))))

read_bytes-take :
    (n : ℕ) (ys : List ℕ) (s : List Token)
    → n ≤ length ys
    → read_bytes n (map byte ys ++ s) ≡ some (take n ys, map byte (drop n ys) ++ s)
unfolding read_bytes
read_bytes-take zero ys s h = refl
read_bytes-take (suc n) [] s h = absurd (omega arith)
read_bytes-take (suc n) (y ∷ ys) s h = rw (read_bytes-take n ys s (omega arith), read_bytes) refl

read_chunks-take :
    (fuel w : ℕ) (ys : List ℕ) (s : List Token)
    → w ≤ fuel
    → w ≤ length ys
    → read_chunks fuel w (map byte ys ++ s) ≡ some (take w ys, map byte (drop w ys) ++ s)
unfolding read_chunks
read_chunks-take zero zero ys s h l = refl
read_chunks-take (suc fuel) zero ys s h l = refl
read_chunks-take zero (suc w) ys s h l = absurd (omega arith)
read_chunks-take (suc fuel) (suc w) ys s h l =
    let r = min buf_size (suc w) in
    let ih =
      read_chunks-take fuel (suc w - r) (drop r ys) s (omega arith)
        (omega (arith, length-drop r ys)) in
    rw (read_bytes-take r ys s (omega arith), read_chunks)
      (rw (ih, read_chunks)
        (rw (take_split r (suc w - r) (suc w) ys (omega arith))
          (rw (drop-drop r (suc w - r) (suc w) ys (omega arith)) refl)))

-- What `write_file` writes, `read_to_file` reads back, in front of anything: the segment of the file,
-- chunk by chunk, with the bounds on rounds that the two have. The segment lies within the file.
pub read_to_file-write_file :
    (file : List ℕ) (from to : ℕ)
    → from ≤ to
    → to ≤ length file
    → (sent : List Token) × (write_file file from to ≡ some sent)
      × ((s : List Token) → read_to_file (sent ++ s) ≡ some (take (to - from) (drop from file), s))
unfolding write_file read_to_file check_hash close_read
read_to_file-write_file file from to h l =
    let w = to - from in
    let rest = drop from file in
    let long : w ≤ length rest = omega (arith, length-drop from file) in
    let segment = take w rest in
    let exact : length segment ≡ w = omega (arith, length-take w rest) in
    let back = λ (s : List Token).
      rw (take_full w segment (omega arith), drop_full w segment (omega arith)) at
        (read_chunks-take w w segment (hash ∷ s) (omega arith) (omega arith)) in
    (
      size w ∷ hash ∷ (map byte segment ++ hash ∷ []),
      rw (write_chunks-take w rest w (omega arith) long, write_file) refl,
      λ s. rw (append_assoc (map byte segment) (hash ∷ []) s) (rw (back s, read_to_file) refl),
    )

skip_chunks-none : (fuel w : ℕ) (s : List Token) → 0 < w → skip_chunks fuel w s ≡ none
unfolding skip_chunks
skip_chunks-none fuel zero s h = absurd (omega arith)
skip_chunks-none zero (suc w) s h = refl
skip_chunks-none (suc fuel) (suc w) s h =
    elim (Option-cases (read_bytes (min buf_size (suc w)) s)) [
      | inl ends ↦ rw (ends, skip_chunks) refl
      | inr (p, more) ↦ rw (more, skip_chunks) (skip_chunks-none fuel (suc w) p.1 h)
    ]

-- A file of more than no bytes is not skipped: however many rounds the loop of `skip_file` has, it
-- does not come to the end of the file, or it finds the stream at its end.
pub skip_file-none :
    (fuel wsize : ℕ) (s : List Token) → 0 < wsize → skip_file fuel (size wsize ∷ hash ∷ s) ≡ none
unfolding skip_file check_hash
skip_file-none fuel wsize s h = rw (skip_chunks-none fuel wsize s h, skip_file) refl
