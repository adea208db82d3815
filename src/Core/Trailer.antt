-- ===== src/Core/Trailer.antt =====
-- The trailer of an invitation file, which lists the nodes that were initialized from it:
-- Core::write_trailer_uuids and Core::read_trailer_uuids of core.cpp. The stream is the list of the
-- words that are written; a hash is found where it was written and nowhere else, since that another
-- piece of the stream is read as the right digest has a chance of 1 in 2 ^ 160.
use distadm.Prelude.{
  ℕ, ◌+◌, ◌-◌, ◌*◌, ◌/◌, ◌%◌, ◌<◌, ◌≡◌, refl, true, Option, some, List, [], ◌∷◌, ◌++◌, map, length,
  arith,
}
use distadm.Messages.{u64}
use distadm.Matrix.Wire.{Word, read_uuids, check_hash, ◌>>=◌}

-- sizeof(UUID), which is that of a Nonce too, and SHA1_DIGEST_LENGTH
abbrev pub uuid_size : ℕ
uuid_size = 16

abbrev pub digest_length : ℕ
digest_length = 20

-- Core::write_trailer_uuids: behind the nonce, OCstream::init writes a random identifier.
unfoldable pub write_trailer_uuids : ℕ → ℕ → List ℕ → List Word
write_trailer_uuids nonce rndid uuids =
    Word.uuid nonce ∷ Word.uuid rndid ∷ map Word.uuid uuids ++ Word.hash true ∷ []

-- `cnt`; the difference of the sizes wraps.
unfoldable pub trailer_count : ℕ → ℕ
trailer_count size = (size + u64 - uuid_size - uuid_size - digest_length) % u64 / uuid_size

-- Core::read_trailer_uuids: the nonce and the ids; `none` is an exception of the stream. ICstream::init
-- reads the random identifier.
unfoldable pub read_trailer_uuids : ℕ → List Word → Option (List ℕ × List ℕ)
unfolding read_uuids trailer_count check_hash
read_trailer_uuids size s = do
  (nonce, s₁) ← read_uuids 1 s
  (rndid, s₂) ← read_uuids 1 s₁
  (uuids, s₃) ← read_uuids (trailer_count size) s₂
  s₄ ← check_hash s₃
  some (nonce, uuids)

-- The bytes of a trailer
abbrev pub trailer_size : List ℕ → ℕ
trailer_size uuids = uuid_size + uuid_size + uuid_size * length uuids + digest_length

trailer_count_lem : (k : ℕ) → 16 * k + 52 < u64 → trailer_count (16 + 16 + 16 * k + 20) ≡ k
unfolding trailer_count
trailer_count_lem k h = omega (arith, h)

read_uuids-map :
    (xs : List ℕ) (s : List Word) → read_uuids (length xs) (map Word.uuid xs ++ s) ≡ some (xs, s)
unfolding read_uuids
read_uuids-map [] s = refl
read_uuids-map (x ∷ xs) s = rw (read_uuids-map xs s) refl

-- A trailer is read back with its nonce and all its ids: their number, which is computed from the size,
-- is right. The size fits in a size_t.
pub read_trailer_uuids-write_trailer_uuids :
    (nonce rndid : ℕ) (uuids : List ℕ)
    → 16 * length uuids + 52 < u64
    → read_trailer_uuids (trailer_size uuids) (write_trailer_uuids nonce rndid uuids)
      ≡ some (nonce ∷ [], uuids)
unfolding read_trailer_uuids write_trailer_uuids read_uuids check_hash
read_trailer_uuids-write_trailer_uuids nonce rndid uuids h =
    rw (trailer_count_lem (length uuids) h) (rw (read_uuids-map uuids (Word.hash true ∷ [])) refl)
