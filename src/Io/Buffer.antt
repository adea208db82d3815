-- ===== src/Io/Buffer.antt =====
-- Istream and Ostream of ccstream.cpp: the cache in front of a file descriptor.
use distadm.Prelude.{
  ℕ, zero, suc, ◌-◌, List, [], ◌∷◌, ◌++◌, length, take, drop, min, ltb, ◌==◌, if◌then◌else◌,
}
use distadm.Io.{Reply, Done, Got, readfile, readsome, writefile}

-- sizeof(cache)
abbrev pub cache_size : ℕ
cache_size = 65536

-- `cache` has the bytes from `ptr` to `cache_end`, `rest` those that the descriptor has not read.
pub record Istream : Type 0 where
  pub cache : List ℕ
  pub rest : List ℕ

-- `cache` has the bytes before `ptr`, `sink` those that the descriptor has written.
pub record Ostream : Type 0 where
  pub cache : List ℕ
  pub sink : List ℕ

-- Istream::fillcache behind the call of readsome
unfoldable pub fill_with : List ℕ → Done Got → Done Istream
fill_with cache (Done.ok ([], rest) more) = Done.thrown
fill_with cache (Done.ok (x ∷ bytes, rest) more) =
    Done.ok (record { cache = cache ++ x ∷ bytes; rest = rest }) more
fill_with cache Done.thrown = Done.thrown
fill_with cache Done.blocked = Done.blocked

unfoldable pub fillcache : List Reply → Istream → Done Istream
unfolding readsome fill_with
fillcache more s = fill_with s.cache (readsome more (cache_size - length s.cache) s.rest)

abbrev pub Taken : Type 0
Taken = List ℕ × Istream

abbrev pub behind : List ℕ → Done Taken → Done Taken
behind chunk (Done.ok (bytes, s) more) = Done.ok (chunk ++ bytes, s) more
behind chunk Done.thrown = Done.thrown
behind chunk Done.blocked = Done.blocked

-- `if (ptr == cache_end) fillcache();`
unfoldable pub refill : List Reply → Istream → Done Istream
unfolding fillcache
refill more s = elim s.cache [ [] ↦ fillcache more s | x ∷ cache ↦ Done.ok s more ]

-- The loop of Istream::read for a size below that of the cache, on fuel: one round for each byte is
-- enough.
unfoldable pub read_small : ℕ → List Reply → ℕ → Istream → Done Taken
unfolding refill
read_small fuel more zero s = Done.ok ([], s) more
read_small zero more (suc n) s = Done.blocked
read_small (suc fuel) more (suc n) s = elim (refill more s) [
  | Done.ok s' more' ↦
      let msize = min (suc n) (length s'.cache) in
      behind (take msize s'.cache)
        (read_small fuel more' (suc n - msize) (record s' { cache = drop msize s'.cache }))
  | Done.thrown ↦ Done.thrown
  | Done.blocked ↦ Done.blocked
]

-- Istream::read for a larger size, behind the call of readfile
unfoldable pub read_rest : List ℕ → ℕ → Done Got → Done Taken
read_rest cache size (Done.ok (bytes, rest) more) =
    if ltb (length bytes) size
    then Done.thrown
    else Done.ok (cache ++ bytes, record { cache = []; rest = rest }) more
read_rest cache size Done.thrown = Done.thrown
read_rest cache size Done.blocked = Done.blocked

-- Istream::read
unfoldable pub read : List Reply → ℕ → Istream → Done Taken
unfolding read_small read_rest readfile
read more n s =
    let size = n - length s.cache in
    if ltb n cache_size
    then read_small n more n s
    else read_rest s.cache size (readfile more size s.rest)

-- Ostream::flush_cache
unfoldable pub flush_cache : List Reply → Ostream → Done Ostream
unfolding writefile
flush_cache more s = elim (writefile more s.cache s.sink) [
  | Done.ok sink more' ↦ Done.ok (record { cache = []; sink = sink }) more'
  | Done.thrown ↦ Done.thrown
  | Done.blocked ↦ Done.blocked
]

-- `if (ptr == dst_end) flush_cache();`
unfoldable pub free_cache : List Reply → Ostream → Done Ostream
unfolding flush_cache
free_cache more s = if length s.cache == cache_size then flush_cache more s else Done.ok s more

-- The loop of Ostream::write for a size below that of the cache, on fuel like that of `read_small`
unfoldable pub write_small : ℕ → List Reply → List ℕ → Ostream → Done Ostream
unfolding free_cache
write_small fuel more [] s = Done.ok s more
write_small zero more (b ∷ src) s = Done.blocked
write_small (suc fuel) more (b ∷ src) s = elim (free_cache more s) [
  | Done.ok s' more' ↦
      let msize = min (length (b ∷ src)) (cache_size - length s'.cache) in
      write_small fuel more' (drop msize (b ∷ src))
        (record s' { cache = s'.cache ++ take msize (b ∷ src) })
  | Done.thrown ↦ Done.thrown
  | Done.blocked ↦ Done.blocked
]

-- Ostream::write for a larger size, behind the call of flush_cache
unfoldable pub write_large : List ℕ → Done Ostream → Done Ostream
unfolding writefile
write_large src (Done.ok s more) = elim (writefile more src s.sink) [
  | Done.ok sink more' ↦ Done.ok (record s { sink = sink }) more'
  | Done.thrown ↦ Done.thrown
  | Done.blocked ↦ Done.blocked
]
write_large src Done.thrown = Done.thrown
write_large src Done.blocked = Done.blocked

-- Ostream::write
unfoldable pub write : List Reply → List ℕ → Ostream → Done Ostream
unfolding write_small write_large flush_cache
write more src s =
    if ltb (length src) cache_size
    then write_small (length src) more src s
    else write_large src (flush_cache more s)
