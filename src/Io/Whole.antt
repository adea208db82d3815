-- ===== src/Io/Whole.antt =====
-- However the kernel cuts up a file, readfile and writefile move all of it.
use distadm.Prelude.{
  ℕ, zero, suc, ◌+◌, ◌-◌, ◌≤◌, ◌≡◌, refl, sym, ap, ap₂, ◌∙◌, List, [], ◌∷◌, ◌++◌, append_assoc,
  append-nil, length, take, drop, min, length-take, length-drop, arith,
}
use distadm.Io.{Reply, Done, with_chunk, readfile, writefile}

-- No call fails and nothing stops the program.
abbrev pub Calm : List Reply → Type 0
Calm [] = Unit {0}
Calm (Reply.moves k ∷ more) = Calm more
Calm (Reply.interrupted ∷ more) = Calm more
Calm (r ∷ more) = ⊥

-- How many calls move something
abbrev pub moving : List Reply → ℕ
moving [] = 0
moving (Reply.moves k ∷ more) = suc (moving more)
moving (r ∷ more) = moving more

abbrev no_bytes : List ℕ
no_bytes = []

take-nil : (n : ℕ) → take n no_bytes ≡ []
take-nil zero = refl
take-nil (suc n) = refl

drop-nil : (n : ℕ) → drop n no_bytes ≡ []
drop-nil zero = refl
drop-nil (suc n) = refl

pub take-take : (c n : ℕ) (xs : List ℕ) → c ≤ n → take c xs ++ take (n - c) (drop c xs) ≡ take n xs
take-take zero n xs h = let same : n - 0 ≡ n = omega arith in rw same refl
take-take (suc c) n [] h = take-nil (n - suc c) ∙ sym (take-nil n)
take-take (suc c) zero (x ∷ xs) h = absurd (omega (arith, h))
take-take (suc c) (suc n) (x ∷ xs) h =
    let same : suc n - suc c ≡ n - c = omega arith in
    rw same (ap (◌∷◌ x) (take-take c n xs (omega (arith, h))))

pub drop-drop : (c n : ℕ) (xs : List ℕ) → c ≤ n → drop (n - c) (drop c xs) ≡ drop n xs
drop-drop zero n xs h = let same : n - 0 ≡ n = omega arith in rw same refl
drop-drop (suc c) n [] h = drop-nil (n - suc c) ∙ sym (drop-nil n)
drop-drop (suc c) zero (x ∷ xs) h = absurd (omega (arith, h))
drop-drop (suc c) (suc n) (x ∷ xs) h =
    let same : suc n - suc c ≡ n - c = omega arith in rw same (drop-drop c n xs (omega (arith, h)))

pub take-drop : (c : ℕ) (xs : List ℕ) → take c xs ++ drop c xs ≡ xs
take-drop zero xs = refl
take-drop (suc c) [] = refl
take-drop (suc c) (x ∷ xs) = ap (◌∷◌ x) (take-drop c xs)

-- What a loop leaves of the replies
pub record Ends (n : ℕ) (before after : List Reply) : Type 0 where
  pub calm : Calm after
  pub left : moving before ≤ moving after + n

Ends-weaken : (m n : ℕ) (a b : List Reply) → m ≤ n → Ends m a b → Ends n a b
Ends-weaken m n a b h e = record { calm = e.calm; left = omega (arith, e.left, h) }

readfile-moves :
    (more : List Reply) (k n b : ℕ) (src : List ℕ)
    → n ≤ length src
    → readfile (Reply.moves k ∷ more) (suc n) (b ∷ src)
      ≡ with_chunk (b ∷ take (min k n) src) (readfile more (n - min k n) (drop (min k n) src))
unfolding readfile
readfile-moves more k n b src h =
    let size : length (take (min k n) src) ≡ min k n =
      omega (arith, length-take (min k n) src, h) in
    rw size refl

-- Where `n` bytes are in the file and the kernel replies without an error, readfile reads just these
-- bytes, whatever the pieces are in which they come: it ends when so many calls have moved something.
pub readfile_whole :
    (more : List Reply) (n : ℕ) (src : List ℕ)
    → Calm more
    → n ≤ length src
    → n ≤ moving more
    → (after : List Reply) × (readfile more n src ≡ Done.ok (take n src, drop n src) after)
      × Ends n more after
unfolding readfile
readfile_whole more zero src calm h e = (more, refl, record { calm = calm; left = omega arith })
readfile_whole [] (suc n) src calm h e = absurd (omega (arith, e))
readfile_whole (Reply.moves k ∷ more) (suc n) [] calm h e = absurd (omega (arith, h))
readfile_whole (Reply.moves k ∷ more) (suc n) (b ∷ src) calm h e =
    let c = min k n in
    let (after, same, ends) =
      readfile_whole more (n - c) (drop c src) calm (omega (arith, length-drop c src, h))
        (omega (arith, e)) in
    let bytes = take-take c n src (omega arith) in
    let rest = drop-drop c n src (omega arith) in
    (
      after,
      readfile-moves more k n b src (omega (arith, h))
          ∙ ap (with_chunk (b ∷ take c src)) same
          ∙ ap₂ (λ x u. Done.ok (b ∷ x, u) after) bytes rest,
      record { calm = ends.calm; left = omega (arith, ends.left) },
    )
readfile_whole (Reply.interrupted ∷ more) (suc n) src calm h e =
    let (after, same, ends) = readfile_whole more (suc n) src calm h e in
    (after, same, record { calm = ends.calm; left = ends.left })
readfile_whole (Reply.again ∷ more) (suc n) src calm h e = absurd calm
readfile_whole (Reply.failed ∷ more) (suc n) src calm h e = absurd calm
readfile_whole (Reply.stops ∷ more) (suc n) src calm h e = absurd calm

-- Where the kernel replies without an error, writefile writes all bytes behind what is there, in order,
-- whatever the pieces are in which they go: it ends when so many calls have moved something.
pub writefile_whole :
    (more : List Reply) (src sink : List ℕ)
    → Calm more
    → length src ≤ moving more
    → (after : List Reply) × (writefile more src sink ≡ Done.ok (sink ++ src) after)
      × Ends (length src) more after
unfolding writefile
writefile_whole more [] sink calm e = (
  more,
  ap (λ x. Done.ok x more) (sym (append-nil sink)),
  record { calm = calm; left = omega arith },
)
writefile_whole [] (b ∷ src) sink calm e = absurd (omega (arith, e))
writefile_whole (Reply.moves k ∷ more) (b ∷ src) sink calm e =
    let (after, same, ends) =
      writefile_whole more (drop k src) (sink ++ b ∷ take k src) calm
        (omega (arith, length-drop k src, e)) in
    let whole : (sink ++ b ∷ take k src) ++ drop k src ≡ sink ++ b ∷ src =
      append_assoc sink (b ∷ take k src) (drop k src) ∙ ap (λ x. sink ++ b ∷ x) (take-drop k src) in
    (
      after,
      same ∙ ap (λ x. Done.ok x after) whole,
      record { calm = ends.calm; left = omega (arith, ends.left, length-drop k src) },
    )
writefile_whole (Reply.interrupted ∷ more) (b ∷ src) sink calm e =
    let (after, same, ends) = writefile_whole more (b ∷ src) sink calm e in
    (after, same, record { calm = ends.calm; left = ends.left })
writefile_whole (Reply.again ∷ more) (b ∷ src) sink calm e = absurd calm
writefile_whole (Reply.failed ∷ more) (b ∷ src) sink calm e = absurd calm
writefile_whole (Reply.stops ∷ more) (b ∷ src) sink calm e = absurd calm
