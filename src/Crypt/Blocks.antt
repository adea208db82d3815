-- ===== src/Crypt/Blocks.antt =====
-- What one node writes to an encrypted stream, the other one reads from it.
use distadm.Prelude.{
  ℕ, ◌+◌, ◌≤◌, ◌≡◌, refl, sym, ap, ap₂, ◌∙◌, List, [], ◌∷◌, ◌++◌, length, length-append, take, drop,
  arith,
}
use distadm.Io.{Reply, Done}
use distadm.Io.Whole.{Calm, moving, Ends}
use distadm.Io.Buffer.{cache_size, write_small, read_small}
use distadm.Io.Content.{content, Reads, read_small_whole}
use distadm.Io.Written.{written, Writes, write_small-Writes}
use distadm.Crypt.{
  Cipher, Sha, through, ICstream, OCstream, Plain, read_nh, hashed_in, read, next_ctx, write_nc,
  hashed_out, write, write_hash,
}
use distadm.Crypt.Pieces.{length-through, decrypt-encrypt_all}
use distadm.Crypt.Layers.{coded, plain, write_nc-write_small, read_nh-read_small}

pub take-front : (xs ys : List ℕ) → take (length xs) (xs ++ ys) ≡ xs
take-front [] ys = refl
take-front (x ∷ xs) ys = ap (◌∷◌ x) (take-front xs ys)

pub drop-front : (xs ys : List ℕ) → drop (length xs) (xs ++ ys) ≡ ys
drop-front [] ys = refl
drop-front (x ∷ xs) ys = drop-front xs ys

module _ (k : Cipher) (h : Sha) where
  -- How a stream ends that has written `src`: the bytes below are `src` encrypted.
  pub record Sent (src : List ℕ) (sctx : h.Ctx) (more : List Reply) (w : OCstream k h)
      (d : Done (OCstream k h)) : Type 0 where
    pub stream : OCstream k h
    pub after : List Reply
    pub done : d ≡ Done.ok stream after
    pub gets : written stream.base ≡ written w.base ++ (through k.encrypt w.cctx src).1
    pub cipher : stream.cctx ≡ (through k.encrypt w.cctx src).0
    pub hashed : stream.sctx ≡ sctx
    pub bounded : length stream.base.cache ≤ cache_size
    pub calm : Calm after
    pub left : moving more + length w.base.sink ≤ moving after + length stream.base.sink

  -- How a stream ends that has read what was encrypted from the state `cctx` of the cipher.
  pub record Received (src rest : List ℕ) (cctx : k.State) (sctx : h.Ctx) (more : List Reply)
      (d : Done (Plain k h)) : Type 0 where
    pub stream : ICstream k h
    pub after : List Reply
    pub done : d ≡ Done.ok (src, stream) after
    pub remains : content stream.base ≡ rest
    pub cipher : stream.cctx ≡ cctx
    pub hashed : stream.sctx ≡ sctx
    pub bounded : length stream.base.cache ≤ cache_size
    pub ends : Ends (length src) more after

  pub write_nc-Sent :
      (fuel : ℕ) (more : List Reply) (src : List ℕ) (w : OCstream k h)
      → Calm more
      → length w.base.cache ≤ cache_size
      → length src ≤ fuel
      → length w.base.cache + length src ≤ moving more
      → Sent src w.sctx more w (write_nc k h fuel more src w)
  write_nc-Sent fuel more src w calm fits f e =
      let out = (through k.encrypt w.cctx src).1 in
      let size = length-through k.encrypt w.cctx src in
      let below : Writes out more w.base (write_small fuel more out w.base) =
        write_small-Writes fuel more out w.base calm fits (omega (arith, f, size))
          (omega (arith, e, size)) in
      let cctx' = (through k.encrypt w.cctx src).0 in
      record {
        stream = record { base = below.stream; cctx = cctx'; sctx = w.sctx };
        after = below.after;
        done = write_nc-write_small k h fuel more src w ∙ ap (coded k h cctx' w.sctx) below.done;
        gets = below.gets;
        cipher = refl;
        hashed = refl;
        bounded = below.bounded;
        calm = below.calm;
        left = below.left;
      }

  pub write-Sent :
      (more : List Reply) (src : List ℕ) (w : OCstream k h)
      → Calm more
      → length w.base.cache ≤ cache_size
      → length w.base.cache + length src ≤ moving more
      → Sent src (h.sha_update w.sctx src) more w (write k h more src w)
  unfolding write
  write-Sent more src w calm fits e =
      let s = write_nc-Sent (length src) more src w calm fits (omega arith) e in
      record {
        stream = record s.stream { sctx = h.sha_update s.stream.sctx src };
        after = s.after;
        done = ap (hashed_out k h src) s.done;
        gets = s.gets;
        cipher = s.cipher;
        hashed = ap (λ c. h.sha_update c src) s.hashed;
        bounded = s.bounded;
        calm = s.calm;
        left = s.left;
      }

  pub write_hash-Sent :
      (more : List Reply) (w : OCstream k h)
      → Calm more
      → length w.base.cache ≤ cache_size
      → length w.base.cache + 20 ≤ moving more
      → Sent (h.sha_final w.sctx) (next_ctx k h w.sctx) more w (write_hash k h more w)
  unfolding write_hash
  write_hash-Sent more w calm fits e =
      let digest = h.sha_final w.sctx in
      let w' : OCstream k h = record w { sctx = next_ctx k h w.sctx } in
      let s : Sent digest (next_ctx k h w.sctx) more w'
          (write_nc k h (length digest) more digest w') =
        write_nc-Sent (length digest) more digest w' calm fits (omega arith)
          (omega (arith, e, h.length-sha_final w.sctx)) in
      record {
        stream = s.stream;
        after = s.after;
        done = s.done;
        gets = s.gets;
        cipher = s.cipher;
        hashed = s.hashed;
        bounded = s.bounded;
        calm = s.calm;
        left = s.left;
      }

  pub read_nh-Received :
      (fuel : ℕ) (more : List Reply) (src rest : List ℕ) (r : ICstream k h)
      → Calm more
      → length r.base.cache ≤ cache_size
      → length src ≤ fuel
      → content r.base ≡ (through k.encrypt r.cctx src).1 ++ rest
      → length src ≤ moving more
      → Received src rest
          (through k.encrypt r.cctx src).0
          r.sctx
          more
          (read_nh k h fuel more (length src) r)
  read_nh-Received fuel more src rest r calm fits f same e =
      let n = length src in
      let out = (through k.encrypt r.cctx src).1 in
      let size = length-through k.encrypt r.cctx src in
      let below : Reads n more r.base (read_small fuel more n r.base) =
        read_small_whole fuel more n r.base calm fits f
          (omega (arith, size, ap length same, length-append out rest)) e in
      let bytes : take n (content r.base) ≡ out = ap₂ take (sym size) same ∙ take-front out rest in
      let back : through k.decrypt r.cctx (take n (content r.base)) ≡ (_, src) =
        ap (through k.decrypt r.cctx) bytes ∙ decrypt-encrypt_all k r.cctx src in
      let cctx' = (through k.encrypt r.cctx src).0 in
      record {
        stream = record { base = below.stream; cctx = cctx'; sctx = r.sctx };
        after = below.after;
        done =
            read_nh-read_small k h fuel more n r
            ∙ ap (plain k h r.cctx r.sctx) below.done
            ∙ ap
                (λ p.
                  Done.ok (p.1, record { base = below.stream; cctx = p.0; sctx = r.sctx })
                    below.after)
                back;
        remains = below.remains ∙ ap₂ drop (sym size) same ∙ drop-front out rest;
        cipher = refl;
        hashed = refl;
        bounded = below.bounded;
        ends = below.ends;
      }

  pub read-Received :
      (more : List Reply) (src rest : List ℕ) (r : ICstream k h)
      → Calm more
      → length r.base.cache ≤ cache_size
      → content r.base ≡ (through k.encrypt r.cctx src).1 ++ rest
      → length src ≤ moving more
      → Received src rest
          (through k.encrypt r.cctx src).0
          (h.sha_update r.sctx src)
          more
          (read k h more (length src) r)
  unfolding read
  read-Received more src rest r calm fits same e =
      let s = read_nh-Received (length src) more src rest r calm fits (omega arith) same e in
      record {
        stream = record s.stream { sctx = h.sha_update s.stream.sctx src };
        after = s.after;
        done = ap (hashed_in k h) s.done;
        remains = s.remains;
        cipher = s.cipher;
        hashed = ap (λ c. h.sha_update c src) s.hashed;
        bounded = s.bounded;
        ends = s.ends;
      }
