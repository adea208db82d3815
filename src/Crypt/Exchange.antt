-- ===== src/Crypt/Exchange.antt =====
-- Two nodes exchange data over an encrypted stream, block by block, each with its hash.
use distadm.Prelude.{
  same_bytes, same_bytes_refl, ℕ, ◌+◌, ◌≤◌, ◌≡◌, refl, sym, ap, ap₂, ◌∙◌, Bool, true, List, ◌++◌,
  append_assoc, length, length-append, arith, if◌then◌else◌,
}
use distadm.Io.{Reply, Done}
use distadm.Io.Whole.{Calm, moving, Ends}
use distadm.Io.Buffer.{cache_size}
use distadm.Io.Content.{content}
use distadm.Io.Written.{written}
use distadm.Crypt.{
  Cipher, Sha, through, ICstream, OCstream, read_nh, read, next_ctx, compared, check_hash, write,
  write_hash,
}
use distadm.Crypt.Pieces.{length-through, through-append}
use distadm.Crypt.Blocks.{Received, write-Sent, write_hash-Sent, read_nh-Received, read-Received}

if_true : {A : Type 0} (b : Bool) (x y : A) → b ≡ true → (if b then x else y) ≡ x
if_true b x y e = rw e refl

module _ (k : Cipher) (h : Sha) where
  -- What both ends hold: the same state of the cipher and the same hash
  pub record Synced (w : OCstream k h) (r : ICstream k h) : Type 0 where
    pub cipher : r.cctx ≡ w.cctx
    pub hashed : r.sctx ≡ w.sctx

  -- A block as the stream below gets it: the data, then the hash of it and of all before it
  abbrev pub sealed : OCstream k h → List ℕ → List ℕ
  sealed w src = (through k.encrypt w.cctx (src ++ h.sha_final (h.sha_update w.sctx src))).1

  -- How a hash is checked that is the one expected
  record Accepted (rest : List ℕ) (cctx : k.State) (sctx : h.Ctx) (more : List Reply)
      (d : Done (ICstream k h)) : Type 0 where
    pub stream : ICstream k h
    pub after : List Reply
    pub done : d ≡ Done.ok stream after
    pub remains : content stream.base ≡ rest
    pub cipher : stream.cctx ≡ cctx
    pub hashed : stream.sctx ≡ sctx
    pub bounded : length stream.base.cache ≤ cache_size
    pub ends : Ends 20 more after

  check_hash-Accepted :
      (more : List Reply) (rest : List ℕ) (r : ICstream k h)
      → Calm more
      → length r.base.cache ≤ cache_size
      → content r.base ≡ (through k.encrypt r.cctx (h.sha_final r.sctx)).1 ++ rest
      → 20 ≤ moving more
      → Accepted rest
          (through k.encrypt r.cctx (h.sha_final r.sctx)).0
          (next_ctx k h r.sctx)
          more
          (check_hash k h more r)
  unfolding check_hash
  check_hash-Accepted more rest r calm fits same e =
      let digest = h.sha_final r.sctx in
      let size : length digest ≡ 20 = h.length-sha_final r.sctx in
      let r' : ICstream k h = record r { sctx = next_ctx k h r.sctx } in
      let s : Received k h digest rest (through k.encrypt r.cctx digest).0 (next_ctx k h r.sctx)
          more (read_nh k h 20 more (length digest) r') =
        read_nh-Received k h 20 more digest rest r' calm fits (omega (arith, size)) same
          (omega (arith, size, e)) in
      record {
        stream = s.stream;
        after = s.after;
        done =
            ap (λ n. compared k h digest (read_nh k h 20 more n r')) (sym size)
            ∙ ap (compared k h digest) s.done
            ∙ if_true (same_bytes digest digest) _ _ (same_bytes_refl digest);
        remains = s.remains;
        cipher = s.cipher;
        hashed = s.hashed;
        bounded = s.bounded;
        ends = record { calm = s.ends.calm; left = omega (arith, s.ends.left, size) };
      }

  -- A block has gone over: the writer is now `closed`, the reader `checked`.
  pub record Exchanged (out back : List Reply) (src rest : List ℕ) (w : OCstream k h)
      (r : ICstream k h) : Type 0 where
    pub put : OCstream k h
    pub closed : OCstream k h
    pub out' : List Reply
    pub out'' : List Reply
    pub puts : write k h out src w ≡ Done.ok put out'
    pub closes : write_hash k h out' put ≡ Done.ok closed out''
    pub sent : written closed.base ≡ written w.base ++ sealed w src
    pub got : ICstream k h
    pub checked : ICstream k h
    pub back' : List Reply
    pub back'' : List Reply
    pub gets : read k h back (length src) r ≡ Done.ok (src, got) back'
    pub checks : check_hash k h back' got ≡ Done.ok checked back''
    pub remains : content checked.base ≡ rest
    pub synced : Synced closed checked
    pub calm : Calm out'' × Calm back''
    pub bounded : (length closed.base.cache ≤ cache_size) × (length checked.base.cache ≤ cache_size)

  sealed-parts :
      (w : OCstream k h) (src : List ℕ)
      → sealed w src
        ≡ (through k.encrypt w.cctx src).1
          ++ (through k.encrypt
              (through k.encrypt w.cctx src).0
              (h.sha_final (h.sha_update w.sctx src))).1
  sealed-parts w src = ap (λ p. p.1) (through-append k.encrypt w.cctx src _)

  -- A block that one node writes and closes with write_hash is what the other node reads, and its
  -- check_hash accepts the hash. Both ends begin with the same cipher state and hash context and end
  -- so, and nothing of what follows is read, thus blocks follow one another. The kernel replies on both
  -- sides without an error and often enough, and cuts up the bytes as it likes.
  pub check_hash-write_hash :
      (out back : List Reply) (src rest : List ℕ) (w : OCstream k h) (r : ICstream k h)
      → Calm out
      → Calm back
      → length w.base.cache ≤ cache_size
      → length r.base.cache ≤ cache_size
      → length w.base.cache + (length src + 20) ≤ moving out
      → length src + 20 ≤ moving back
      → Synced w r
      → content r.base ≡ sealed w src ++ rest
      → Exchanged out back src rest w r
  check_hash-write_hash out back src rest w r calm calm' fits fits' e e' synced same =
      let first = (through k.encrypt w.cctx src).1 in
      let next = (through k.encrypt w.cctx src).0 in
      let digest = h.sha_final (h.sha_update w.sctx src) in
      let a = write-Sent k h out src w calm fits (omega (arith, e)) in
      let total : length a.stream.base.sink + length a.stream.base.cache
          ≡ length w.base.sink + length w.base.cache + length src =
        sym (length-append a.stream.base.sink a.stream.base.cache)
        ∙ ap length a.gets
        ∙ length-append (written w.base) first
        ∙ ap₂ (λ x y. x + y) (length-append w.base.sink w.base.cache)
            (length-through k.encrypt w.cctx src) in
      let b =
        write_hash-Sent k h a.after a.stream a.calm a.bounded (omega (arith, a.left, total, e)) in
      let tail = (through k.encrypt next digest).1 in
      let parts : content r.base ≡ first ++ (tail ++ rest) =
        same ∙ ap (λ x. x ++ rest) (sealed-parts w src) ∙ append_assoc first tail rest in
      let c : Received k h src (tail ++ rest) (through k.encrypt r.cctx src).0
          (h.sha_update r.sctx src) back (read k h back (length src) r) =
        read-Received k h back src (tail ++ rest) r calm' fits'
          (parts ∙ ap (λ s. (through k.encrypt s src).1 ++ (tail ++ rest)) (sym synced.cipher))
          (omega (arith, e')) in
      let in_cipher : c.stream.cctx ≡ next =
        c.cipher ∙ ap (λ s. (through k.encrypt s src).0) synced.cipher in
      let in_hash : c.stream.sctx ≡ h.sha_update w.sctx src =
        c.hashed ∙ ap (λ s. h.sha_update s src) synced.hashed in
      let out_digest : h.sha_final a.stream.sctx ≡ digest = ap h.sha_final a.hashed in
      let d =
        check_hash-Accepted c.after rest c.stream c.ends.calm c.bounded
          (c.remains
            ∙ ap₂ (λ s x. (through k.encrypt s x).1 ++ rest) (sym in_cipher)
                (sym (ap h.sha_final in_hash)))
          (omega (arith, c.ends.left, e')) in
      let ends : (through k.encrypt a.stream.cctx (h.sha_final a.stream.sctx))
          ≡ through k.encrypt next digest =
        ap₂ (through k.encrypt) a.cipher out_digest in
      record {
        put = a.stream;
        closed = b.stream;
        out' = a.after;
        out'' = b.after;
        puts = a.done;
        closes = b.done;
        sent =
            b.gets
            ∙ ap₂ (λ x y. x ++ y) a.gets (ap (λ p. p.1) ends)
            ∙ append_assoc (written w.base) first tail
            ∙ ap (λ x. written w.base ++ x) (sym (sealed-parts w src));
        got = c.stream;
        checked = d.stream;
        back' = c.after;
        back'' = d.after;
        gets = c.done;
        checks = d.done;
        remains = d.remains;
        synced = record {
          cipher =
              d.cipher
              ∙ ap₂ (λ s x. (through k.encrypt s x).0) in_cipher (ap h.sha_final in_hash)
              ∙ sym (b.cipher ∙ ap (λ p. p.0) ends);
          hashed = d.hashed ∙ ap (next_ctx k h) (in_hash ∙ sym a.hashed) ∙ sym b.hashed;
        };
        calm = (b.calm, d.ends.calm);
        bounded = (b.bounded, d.bounded);
      }
