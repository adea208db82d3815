-- ===== src/Crypt.antt =====
-- ICstream and OCstream of ccstream.h and ccstream.cpp: a stream that is encrypted, with a chain of
-- hashes over what went through. The cipher of GnuTLS and SHA1 are parameters.
pub mod Pieces
pub mod Layers
pub mod Blocks
pub mod Exchange
pub mod Opening
use distadm.Prelude.{
  same_bytes, ℕ, zero, suc, ◌-◌, ◌≡◌, Bool, true, false, List, [], ◌∷◌, ◌++◌, length, take, drop,
  min, ◌==◌, ◌&&◌, if◌then◌else◌,
}
use distadm.Io.{Reply, Done}
use distadm.Io.Buffer.{cache_size, Istream, Ostream, refill, free_cache, flush_cache}
use distadm.Io.Buffer

-- AES_256_CFB8 in GnuTLS: the handle has a state, and byte by byte is encrypted and decrypted from
-- it. What is decrypted is what was encrypted, and leaves the same state.
pub record Cipher : Type 1 where
  pub State : Type 0
  -- gnutls_cipher_init, with the key that the group has, at a nonce
  pub cipher_init : List ℕ → State
  pub encrypt : State → ℕ → State × ℕ
  pub decrypt : State → ℕ → State × ℕ
  pub decrypt-encrypt : (s : State) (b : ℕ) → decrypt s (encrypt s b).1 ≡ ((encrypt s b).0, b)

-- SHA1_CTX; the digest has SHA1_DIGEST_LENGTH bytes.
pub record Sha : Type 1 where
  pub Ctx : Type 0
  pub sha_init : Ctx
  pub sha_update : Ctx → List ℕ → Ctx
  pub sha_final : Ctx → List ℕ
  pub length-sha_final : (c : Ctx) → length (sha_final c) ≡ 20

-- gnutls_cipher_encrypt2 and gnutls_cipher_decrypt2, of a number of bytes
abbrev pub through : {S : Type 0} → (S → ℕ → S × ℕ) → S → List ℕ → S × List ℕ
through f s [] = (s, [])
through f s (b ∷ bytes) = ((through f (f s b).0 bytes).0, (f s b).1 ∷ (through f (f s b).0 bytes).1)

pub record ICstream (k : Cipher) (h : Sha) : Type 0 where
  pub base : Istream
  pub cctx : k.State
  pub sctx : h.Ctx

pub record OCstream (k : Cipher) (h : Sha) : Type 0 where
  pub base : Ostream
  pub cctx : k.State
  pub sctx : h.Ctx

module _ (k : Cipher) (h : Sha) where
  abbrev pub Plain : Type 0
  Plain = List ℕ × ICstream k h

  abbrev pub plain_behind : List ℕ → Done Plain → Done Plain
  plain_behind chunk (Done.ok (bytes, s) more) = Done.ok (chunk ++ bytes, s) more
  plain_behind chunk Done.thrown = Done.thrown
  plain_behind chunk Done.blocked = Done.blocked

  -- ICstream::read_nh on fuel: one round for each byte is enough.
  unfoldable pub read_nh : ℕ → List Reply → ℕ → ICstream k h → Done Plain
  unfolding refill
  read_nh fuel more zero s = Done.ok ([], s) more
  read_nh zero more (suc n) s = Done.blocked
  read_nh (suc fuel) more (suc n) s = elim (refill more s.base) [
    | Done.ok t more' ↦
        let csize = min (suc n) (length t.cache) in
        let (cctx', dst) = through k.decrypt s.cctx (take csize t.cache) in
        plain_behind dst (
          read_nh fuel more' (suc n - csize)
            (record s { base = record t { cache = drop csize t.cache }; cctx = cctx' }))
    | Done.thrown ↦ Done.thrown
    | Done.blocked ↦ Done.blocked
  ]

  -- `SHA1Update` behind a read
  abbrev pub hashed_in : Done Plain → Done Plain
  hashed_in (Done.ok (bytes, s) more) =
      Done.ok (bytes, record s { sctx = h.sha_update s.sctx bytes }) more
  hashed_in Done.thrown = Done.thrown
  hashed_in Done.blocked = Done.blocked

  -- ICstream::read
  unfoldable pub read : List Reply → ℕ → ICstream k h → Done Plain
  unfolding read_nh
  read more size s = hashed_in (read_nh size more size s)

  -- `SHA1Final`, and the context that starts anew with the digest
  abbrev pub next_ctx : h.Ctx → h.Ctx
  next_ctx c = h.sha_update h.sha_init (h.sha_final c)

  abbrev pub compared : List ℕ → Done Plain → Done (ICstream k h)
  compared digest (Done.ok (bytes, s) more) =
      if same_bytes digest bytes then Done.ok s more else Done.thrown
  compared digest Done.thrown = Done.thrown
  compared digest Done.blocked = Done.blocked

  -- ICstream::check_hash
  unfoldable pub check_hash : List Reply → ICstream k h → Done (ICstream k h)
  unfolding read_nh
  check_hash more s =
      compared (h.sha_final s.sctx) (read_nh 20 more 20 (record s { sctx = next_ctx s.sctx }))

  -- OCstream::write_nc on fuel like that of `read_nh`
  unfoldable pub write_nc : ℕ → List Reply → List ℕ → OCstream k h → Done (OCstream k h)
  unfolding free_cache
  write_nc fuel more [] s = Done.ok s more
  write_nc zero more (b ∷ src) s = Done.blocked
  write_nc (suc fuel) more (b ∷ src) s = elim (free_cache more s.base) [
    | Done.ok t more' ↦
        let csize = min (length (b ∷ src)) (cache_size - length t.cache) in
        let (cctx', out) = through k.encrypt s.cctx (take csize (b ∷ src)) in
        write_nc fuel more' (drop csize (b ∷ src))
          (record s { base = record t { cache = t.cache ++ out }; cctx = cctx' })
    | Done.thrown ↦ Done.thrown
    | Done.blocked ↦ Done.blocked
  ]

  abbrev pub hashed_out : List ℕ → Done (OCstream k h) → Done (OCstream k h)
  hashed_out src (Done.ok s more) = Done.ok (record s { sctx = h.sha_update s.sctx src }) more
  hashed_out src Done.thrown = Done.thrown
  hashed_out src Done.blocked = Done.blocked

  -- OCstream::write
  unfoldable pub write : List Reply → List ℕ → OCstream k h → Done (OCstream k h)
  unfolding write_nc
  write more src s = hashed_out src (write_nc (length src) more src s)

  -- OCstream::write_hash
  unfoldable pub write_hash : List Reply → OCstream k h → Done (OCstream k h)
  unfolding write_nc
  write_hash more s =
      let digest = h.sha_final s.sctx in
      write_nc (length digest) more digest (record s { sctx = next_ctx s.sctx })

  abbrev pub identified : Done Plain → Done (ICstream k h)
  identified (Done.ok (bytes, s) more) = Done.ok s more
  identified Done.thrown = Done.thrown
  identified Done.blocked = Done.blocked

  -- ICstream::init: the random identifier in front is hashed and not looked at.
  unfoldable pub init_in : List Reply → List ℕ → Istream → Done (ICstream k h)
  unfolding read
  init_in more nonce base = identified (
      read more 16
        (record { base = base; cctx = k.cipher_init nonce; sctx = h.sha_update h.sha_init nonce }))

  -- ICstream::ICstream with no nonce, which is then read from the stream
  unfoldable pub open_in : List Reply → Istream → Done (ICstream k h)
  unfolding init_in Buffer.read
  open_in more base = elim (Buffer.read more 16 base) [
    | Done.ok p more' ↦ init_in more' p.0 p.1
    | Done.thrown ↦ Done.thrown
    | Done.blocked ↦ Done.blocked
  ]

  -- OCstream::init with the random identifier
  unfoldable pub init_out : List Reply → List ℕ → List ℕ → Ostream → Done (OCstream k h)
  unfolding write
  init_out more nonce rndid base =
      write more rndid
        (record { base = base; cctx = k.cipher_init nonce; sctx = h.sha_update h.sha_init nonce })

  -- `base.flush_net()`, where `net` says that the descriptor is a connection
  abbrev pub flush_net : Bool → Done (OCstream k h) → Done (OCstream k h)
  flush_net net (Done.ok s more) =
      if net
      then elim (flush_cache more s.base) [
        | Done.ok t more' ↦ Done.ok (record s { base = t }) more'
        | Done.thrown ↦ Done.thrown
        | Done.blocked ↦ Done.blocked
      ]
      else Done.ok s more
  flush_net net Done.thrown = Done.thrown
  flush_net net Done.blocked = Done.blocked

  -- OCstream::OCstream with no nonce: the random nonce goes in front, in plain.
  unfoldable pub open_out : Bool → List Reply → List ℕ → List ℕ → Ostream → Done (OCstream k h)
  unfolding init_out flush_cache Buffer.write
  open_out net more nonce rndid base = elim (Buffer.write more nonce base) [
    | Done.ok t more' ↦ flush_net net (init_out more' nonce rndid t)
    | Done.thrown ↦ Done.thrown
    | Done.blocked ↦ Done.blocked
  ]
