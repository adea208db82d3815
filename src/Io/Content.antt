-- ===== src/Io/Content.antt =====
-- The cache of an Istream is not seen: what is read is what the file has.
use distadm.Prelude.{
  ℕ, zero, suc, ◌-◌, ◌≤◌, ◌<◌, ◌≡◌, refl, sym, ap, ap₂, ◌∙◌, Bool, false, ltb-ge, ltb-false, List,
  [], ◌∷◌, ◌++◌, length, length-append, length-take, length-drop, take, drop, min, ltb, arith,
  Bool-cases, inl, inr, if◌then◌else◌,
}
use distadm.Io.{Reply, Done, readfile, readsome}
use distadm.Io.Whole.{Calm, moving, Ends, readfile_whole, take-take, drop-drop, take-drop}
use distadm.Io.Buffer.{
  cache_size, Istream, Taken, behind, fill_with, fillcache, refill, read_small, read_rest, read,
}

-- What is still to read
abbrev pub content : Istream → List ℕ
content s = s.cache ++ s.rest

take-short : (c : ℕ) (xs ys : List ℕ) → c ≤ length xs → take c (xs ++ ys) ≡ take c xs
take-short zero xs ys h = refl
take-short (suc c) [] ys h = absurd (omega (arith, h))
take-short (suc c) (x ∷ xs) ys h = ap (◌∷◌ x) (take-short c xs ys (omega (arith, h)))

drop-short : (c : ℕ) (xs ys : List ℕ) → c ≤ length xs → drop c (xs ++ ys) ≡ drop c xs ++ ys
drop-short zero xs ys h = refl
drop-short (suc c) [] ys h = absurd (omega (arith, h))
drop-short (suc c) (x ∷ xs) ys h = drop-short c xs ys (omega (arith, h))

readsome_some :
    (more : List Reply) (n : ℕ) (src : List ℕ)
    → Calm more
    → 0 < n
    → 0 < moving more
    → (m : ℕ) × (after : List Reply) × (suc m ≤ n)
      × (readsome more n src ≡ Done.ok (take (suc m) src, drop (suc m) src) after)
      × Ends 1 more after
unfolding readsome
readsome_some [] n src calm h e = absurd (omega (arith, e))
readsome_some (Reply.moves k ∷ more) n src calm h e =
    let same : min (suc k) n ≡ suc (min k (n - 1)) = omega (arith, h) in
    (
      min k (n - 1),
      more,
      omega (arith, h),
      ap (λ c. Done.ok (take c src, drop c src) more) same,
      record { calm = calm; left = omega arith },
    )
readsome_some (Reply.interrupted ∷ more) n src calm h e =
    let (m, after, size, same, ends) = readsome_some more n src calm h (omega (arith, e)) in
    (m, after, size, same, record { calm = ends.calm; left = ends.left })
readsome_some (Reply.again ∷ more) n src calm h e = absurd calm
readsome_some (Reply.failed ∷ more) n src calm h e = absurd calm
readsome_some (Reply.stops ∷ more) n src calm h e = absurd calm

take-past :
    (xs ys : List ℕ) (n : ℕ) → length xs ≤ n → xs ++ take (n - length xs) ys ≡ take n (xs ++ ys)
take-past [] ys n h = let same : n - 0 ≡ n = omega arith in rw same refl
take-past (x ∷ xs) ys zero h = absurd (omega (arith, h))
take-past (x ∷ xs) ys (suc n) h =
    let same : suc n - suc (length xs) ≡ n - length xs = omega arith in
    rw same (ap (◌∷◌ x) (take-past xs ys n (omega (arith, h))))

drop-past : (xs ys : List ℕ) (n : ℕ) → length xs ≤ n → drop n (xs ++ ys) ≡ drop (n - length xs) ys
drop-past [] ys n h = let same : n - 0 ≡ n = omega arith in rw same refl
drop-past (x ∷ xs) ys zero h = absurd (omega (arith, h))
drop-past (x ∷ xs) ys (suc n) h =
    let same : suc n - suc (length xs) ≡ n - length xs = omega arith in
    rw same (drop-past xs ys n (omega (arith, h)))

if_false : (b : Bool) (x y : Done Taken) → b ≡ false → (if b then x else y) ≡ y
if_false b x y h = rw h refl

-- After the cache is fill_with where it was empty
record Refilled (more : List Reply) (s : Istream) : Type 0 where
  pub stream : Istream
  pub after : List Reply
  pub done : refill more s ≡ Done.ok stream after
  pub same : content stream ≡ content s
  pub some_bytes : 0 < length stream.cache
  pub bounded : length stream.cache ≤ cache_size
  pub ends : Ends 1 more after

refill_lem :
    (more : List Reply) (cache rest : List ℕ)
    → Calm more
    → length cache ≤ cache_size
    → 0 < length (cache ++ rest)
    → 0 < moving more
    → Refilled more (record { cache = cache; rest = rest })
unfolding refill fillcache fill_with
refill_lem more (x ∷ cache) rest calm fits h e = record {
  stream = record { cache = x ∷ cache; rest = rest };
  after = more;
  done = refl;
  same = refl;
  some_bytes = omega arith;
  bounded = fits;
  ends = record { calm = calm; left = omega arith };
}
refill_lem more [] [] calm fits h e = absurd (omega (arith, h))
refill_lem more [] (x ∷ rest) calm fits h e =
    let (m, after, size, got, ends) =
      readsome_some more (cache_size - 0) (x ∷ rest) calm (omega arith) e in
    record {
      stream = record { cache = x ∷ take m rest; rest = drop m rest };
      after = after;
      done = ap (fill_with []) got;
      same = ap (◌∷◌ x) (take-drop m rest);
      some_bytes = omega arith;
      bounded = omega (arith, size, length-take m rest);
      ends = ends;
    }

-- What a read of `n` bytes leaves
pub record Reads (n : ℕ) (more : List Reply) (s : Istream) (d : Done Taken) : Type 0 where
  pub stream : Istream
  pub after : List Reply
  pub done : d ≡ Done.ok (take n (content s), stream) after
  pub remains : content stream ≡ drop n (content s)
  pub bounded : length stream.cache ≤ cache_size
  pub ends : Ends n more after

pub read_small-step :
    (fuel n : ℕ) (more after : List Reply) (s t : Istream) (c : ℕ)
    → refill more s ≡ Done.ok t after
    → min (suc n) (length t.cache) ≡ c
    → read_small (suc fuel) more (suc n) s
      ≡ behind
          (take c t.cache)
          (read_small fuel after (suc n - c) (record { cache = drop c t.cache; rest = t.rest }))
unfolding read_small
read_small-step fuel n more after s t c h size = rw (h, read_small) (rw size refl)

pub read_small_whole :
    (fuel : ℕ) (more : List Reply) (n : ℕ) (s : Istream)
    → Calm more
    → length s.cache ≤ cache_size
    → n ≤ fuel
    → n ≤ length (content s)
    → n ≤ moving more
    → Reads n more s (read_small fuel more n s)
unfolding read_small
read_small_whole fuel more zero s calm fits f h e = record {
  stream = s;
  after = more;
  done = refl;
  remains = refl;
  bounded = fits;
  ends = record { calm = calm; left = omega arith };
}
read_small_whole zero more (suc n) s calm fits f h e = absurd (omega (arith, f))
read_small_whole (suc fuel) more (suc n) s calm fits f h e =
    let full = refill_lem more s.cache s.rest calm fits (omega (arith, h)) (omega (arith, e)) in
    let t = full.stream in
    let c = min (suc n) (length t.cache) in
    let below : c ≤ length t.cache = omega arith in
    let some_bytes = full.some_bytes in
    let t' : Istream = record { cache = drop c t.cache; rest = t.rest } in
    let left : content t' ≡ drop c (content s) =
      sym (drop-short c t.cache t.rest below) ∙ ap (drop c) full.same in
    let further : Reads (suc n - c) full.after t' (read_small fuel full.after (suc n - c) t') =
      read_small_whole fuel full.after (suc n - c) t' full.ends.calm
        (omega (arith, full.bounded, length-drop c t.cache)) (omega (arith, f, some_bytes))
        (omega (arith, ap length left, length-drop c (content s), h))
        (omega (arith, full.ends.left, e, some_bytes)) in
    let chunk : take c t.cache ≡ take c (content s) =
      sym (take-short c t.cache t.rest below) ∙ ap (take c) full.same in
    let bytes : take c t.cache ++ take (suc n - c) (content t') ≡ take (suc n) (content s) =
      ap₂ (λ x y. x ++ take (suc n - c) y) chunk left
      ∙ take-take c (suc n) (content s) (omega arith) in
    record {
      stream = further.stream;
      after = further.after;
      done =
          read_small-step fuel n more full.after s t c full.done refl
          ∙ ap (behind (take c t.cache)) further.done
          ∙ ap (λ x. Done.ok (x, further.stream) further.after) bytes;
      remains =
          further.remains
          ∙ ap (drop (suc n - c)) left
          ∙ drop-drop c (suc n) (content s) (omega arith);
      bounded = further.bounded;
      ends = record {
        calm = further.ends.calm;
        left = omega (arith, further.ends.left, full.ends.left, some_bytes);
      };
    }

read_large_whole :
    (more : List Reply) (n : ℕ) (s : Istream)
    → Calm more
    → length s.cache ≤ n
    → n ≤ length (content s)
    → n ≤ moving more
    → Reads n more s
        (read_rest s.cache (n - length s.cache) (readfile more (n - length s.cache) s.rest))
unfolding read_rest
read_large_whole more n s calm above h e =
    let k = length s.cache in
    let size = length-append s.cache s.rest in
    let (after, got, ends) =
      readfile_whole more (n - k) s.rest calm (omega (arith, size, h)) (omega (arith, e)) in
    let enough : ltb (length (take (n - k) s.rest)) (n - k) ≡ false =
      ltb-ge _ _ (omega (arith, length-take (n - k) s.rest, size, h)) in
    let bytes : s.cache ++ take (n - k) s.rest ≡ take n (content s) =
      take-past s.cache s.rest n above in
    record {
      stream = record { cache = []; rest = drop (n - k) s.rest };
      after = after;
      done =
          ap (read_rest s.cache (n - k)) got
          ∙ if_false _ _ _ enough
          ∙ ap (λ x. Done.ok (x, record { cache = []; rest = drop (n - k) s.rest }) after) bytes;
      remains = sym (drop-past s.cache s.rest n above);
      bounded = omega arith;
      ends = record { calm = ends.calm; left = omega (arith, ends.left) };
    }

-- A read of `n` bytes gives the first `n` bytes of what is still to read, in the cache and behind it, and
-- leaves the rest: the cache is not seen, for a size below that of the cache and for a larger one. So many
-- bytes are there, and the kernel replies without an error, at least so often with bytes.
pub read-Reads :
    (more : List Reply) (n : ℕ) (s : Istream)
    → Calm more
    → length s.cache ≤ cache_size
    → n ≤ length (content s)
    → n ≤ moving more
    → Reads n more s (read more n s)
unfolding read
read-Reads more n s calm fits h e = elim (Bool-cases (ltb n cache_size)) [
  | inl small ↦ rw small (read_small_whole n more n s calm fits (omega arith) h e)
  | inr large ↦
      rw large (read_large_whole more n s calm (omega (arith, ltb-false _ _ large, fits)) h e)
]
