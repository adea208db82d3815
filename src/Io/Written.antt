-- ===== src/Io/Written.antt =====
-- The cache of an Ostream is not seen: what is written is what the file gets.
use distadm.Prelude.{
  ℕ, zero, suc, ◌+◌, ◌-◌, ◌≤◌, ◌<◌, ◌≡◌, refl, sym, ap, ◌∙◌, List, [], ◌∷◌, ◌++◌, append_assoc,
  append-nil, length, length-append, length-take, length-drop, take, drop, min, ltb, ◌==◌, arith,
  Bool-cases, inl, inr,
}
use distadm.Io.{Reply, Done, writefile}
use distadm.Io.Whole.{Calm, moving, writefile_whole, take-drop}
use distadm.Io.Content.{read-Reads}
use distadm.Io.Buffer.{
  Istream, read, cache_size, Ostream, flush_cache, free_cache, write_small, write_large, write,
}

-- What the file has when the stream is closed
abbrev pub written : Ostream → List ℕ
written s = s.sink ++ s.cache

-- How a write of `src` ends
pub record Writes (src : List ℕ) (more : List Reply) (s : Ostream) (d : Done Ostream) : Type 0 where
  pub stream : Ostream
  pub after : List Reply
  pub done : d ≡ Done.ok stream after
  pub gets : written stream ≡ written s ++ src
  pub bounded : length stream.cache ≤ cache_size
  pub calm : Calm after
  pub left : moving more + length s.sink ≤ moving after + length stream.sink

record Room (more : List Reply) (s : Ostream) : Type 0 where
  pub stream : Ostream
  pub after : List Reply
  pub done : free_cache more s ≡ Done.ok stream after
  pub gets : written stream ≡ written s
  pub room : length stream.cache < cache_size
  pub calm : Calm after
  pub left : moving more + length s.sink ≤ moving after + length stream.sink

free_cache-Room :
    (more : List Reply) (s : Ostream)
    → Calm more
    → length s.cache ≤ cache_size
    → length s.cache ≤ moving more
    → Room more s
unfolding free_cache
free_cache-Room more s calm fits e = elim (Bool-cases (length s.cache == cache_size)) [
  | inl full ↦
      let (after, same, ends) = writefile_whole more s.cache s.sink calm e in
      record {
        stream = record { cache = []; sink = s.sink ++ s.cache };
        after = after;
        done = rw full (rw (same, flush_cache) refl);
        gets = append-nil (s.sink ++ s.cache);
        room = omega arith;
        calm = ends.calm;
        left = omega (arith, ends.left, length-append s.sink s.cache);
      }
  | inr space ↦ record {
    stream = s;
    after = more;
    done = rw space refl;
    gets = refl;
    room = ground (arith, fits);
    calm = calm;
    left = omega arith;
  }
]

regroup :
    (sink cache src : List ℕ) (c : ℕ)
    → (sink ++ (cache ++ take c src)) ++ drop c src ≡ (sink ++ cache) ++ src
regroup sink cache src c =
    append_assoc sink (cache ++ take c src) (drop c src)
    ∙ ap (λ x. sink ++ x)
        (append_assoc cache (take c src) (drop c src) ∙ ap (λ x. cache ++ x) (take-drop c src))
    ∙ sym (append_assoc sink cache src)

take-all : (xs : List ℕ) → take (length xs) xs ≡ xs
take-all [] = refl
take-all (x ∷ xs) = ap (◌∷◌ x) (take-all xs)

pub write_small-step :
    (fuel b : ℕ) (src : List ℕ) (more after : List Reply) (s t : Ostream) (c : ℕ)
    → free_cache more s ≡ Done.ok t after
    → min (length (b ∷ src)) (cache_size - length t.cache) ≡ c
    → write_small (suc fuel) more (b ∷ src) s
      ≡ write_small fuel after
          (drop c (b ∷ src))
          (record { cache = t.cache ++ take c (b ∷ src); sink = t.sink })
unfolding write_small
write_small-step fuel b src more after s t c h size = rw (h, write_small) (rw size refl)

pub write_small-Writes :
    (fuel : ℕ) (more : List Reply) (src : List ℕ) (s : Ostream)
    → Calm more
    → length s.cache ≤ cache_size
    → length src ≤ fuel
    → length s.cache + length src ≤ moving more
    → Writes src more s (write_small fuel more src s)
unfolding write_small
write_small-Writes fuel more [] s calm fits f e = record {
  stream = s;
  after = more;
  done = refl;
  gets = sym (append-nil (written s));
  bounded = fits;
  calm = calm;
  left = omega arith;
}
write_small-Writes zero more (b ∷ src) s calm fits f e = absurd (omega (arith, f))
write_small-Writes (suc fuel) more (b ∷ src) s calm fits f e =
    let r = free_cache-Room more s calm fits (omega (arith, e)) in
    let t = r.stream in
    let c = min (length (b ∷ src)) (cache_size - length t.cache) in
    let t' : Ostream = record { cache = t.cache ++ take c (b ∷ src); sink = t.sink } in
    let put = length-append t.cache (take c (b ∷ src)) in
    let part = length-take c (b ∷ src) in
    let left = length-drop c (b ∷ src) in
    let space = r.room in
    let total : length t.sink + length t.cache ≡ length s.sink + length s.cache =
      sym (length-append t.sink t.cache) ∙ ap length r.gets ∙ length-append s.sink s.cache in
    let further : Writes (drop c (b ∷ src)) r.after t'
        (write_small fuel r.after (drop c (b ∷ src)) t') =
      write_small-Writes fuel r.after (drop c (b ∷ src)) t' r.calm (omega (arith, put, part, space))
        (omega (arith, left, f, space)) (omega (arith, put, part, left, total, r.left, e)) in
    record {
      stream = further.stream;
      after = further.after;
      done = write_small-step fuel b src more r.after s t c r.done refl ∙ further.done;
      gets = further.gets ∙ regroup t.sink t.cache (b ∷ src) c ∙ ap (λ x. x ++ b ∷ src) r.gets;
      bounded = further.bounded;
      calm = further.calm;
      left = omega (arith, further.left, r.left);
    }

pub flush_cache-step :
    (more after : List Reply) (s : Ostream) (x : List ℕ)
    → writefile more s.cache s.sink ≡ Done.ok x after
    → flush_cache more s ≡ Done.ok (record { cache = []; sink = x }) after
unfolding flush_cache
flush_cache-step more after s x h = rw (h, flush_cache) refl

write_large-step :
    (more after : List Reply) (s : Ostream) (src y : List ℕ)
    → writefile more src s.sink ≡ Done.ok y after
    → write_large src (Done.ok s more) ≡ Done.ok (record s { sink = y }) after
unfolding write_large
write_large-step more after s src y h = rw (h, write_large) refl

write_large-Writes :
    (more : List Reply) (src : List ℕ) (s : Ostream)
    → Calm more
    → length s.cache + length src ≤ moving more
    → Writes src more s (write_large src (flush_cache more s))
write_large-Writes more src s calm e =
    let (flushed, first, ends) = writefile_whole more s.cache s.sink calm (omega (arith, e)) in
    let sink = s.sink ++ s.cache in
    let (after, second, ends') =
      writefile_whole flushed src sink ends.calm (omega (arith, e, ends.left)) in
    record {
      stream = record { cache = []; sink = sink ++ src };
      after = after;
      done =
          ap (write_large src) (flush_cache-step more flushed s sink first)
          ∙ write_large-step flushed after (record { cache = []; sink = sink }) src (sink ++ src)
              second;
      gets = append-nil (sink ++ src);
      bounded = omega arith;
      calm = ends'.calm;
      left =
          omega
            (arith, ends.left, ends'.left, length-append sink src, length-append s.sink s.cache);
    }

-- A write puts its bytes, in order and once each, behind what the file has and what the cache holds back,
-- for a size below that of the cache and for a larger one. The kernel replies without an error, at least
-- so often with progress as bytes are held back or written.
pub write-Writes :
    (more : List Reply) (src : List ℕ) (s : Ostream)
    → Calm more
    → length s.cache ≤ cache_size
    → length s.cache + length src ≤ moving more
    → Writes src more s (write more src s)
unfolding write
write-Writes more src s calm fits e = elim (Bool-cases (ltb (length src) cache_size)) [
  | inl small ↦ rw small (write_small-Writes (length src) more src s calm fits (omega arith) e)
  | inr large ↦ rw large (write_large-Writes more src s calm e)
]

abbrev pub fresh : Ostream
fresh = record { cache = []; sink = [] }

-- What is written into a new file and flushed comes out of the file again: for any bytes, however the
-- kernel cuts them up on either way. It replies without an error, and often enough.
pub write-read :
    (out back : List Reply) (data_bytes : List ℕ)
    → Calm out
    → Calm back
    → length data_bytes + length data_bytes ≤ moving out
    → length data_bytes ≤ moving back
    → (file : List ℕ) × (s : Ostream) × (more more' : List Reply) × (write out data_bytes fresh
        ≡ Done.ok s more)
      × (flush_cache more s ≡ Done.ok (record { cache = []; sink = file }) more')
      × (t : Istream) × (after : List Reply) × (read back
            (length data_bytes)
            (record { cache = []; rest = file })
          ≡ Done.ok (data_bytes, t) after)
write-read out back data_bytes calm calm' e e' =
    let w = write-Writes out data_bytes fresh calm (omega arith) (omega (arith, e)) in
    let s = w.stream in
    let total : length s.sink + length s.cache ≡ length data_bytes =
      sym (length-append s.sink s.cache) ∙ ap length w.gets in
    let (more', flushed, ends) =
      writefile_whole w.after s.cache s.sink w.calm (omega (arith, w.left, total, e)) in
    let t : Istream = record { cache = []; rest = data_bytes } in
    let r = read-Reads back (length data_bytes) t calm' (omega arith) (omega arith) e' in
    (
      data_bytes,
      s,
      w.after,
      more',
      w.done,
      flush_cache-step w.after more' s (s.sink ++ s.cache) flushed
          ∙ ap (λ x. Done.ok (record { cache = []; sink = x }) more') w.gets,
      r.stream,
      r.after,
      r.done ∙ ap (λ x. Done.ok (x, r.stream) r.after) (take-all data_bytes),
    )
