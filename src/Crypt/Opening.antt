-- ===== src/Crypt/Opening.antt =====
-- Two nodes open an encrypted stream: the nonce in plain, then a random identifier.
use distadm.Prelude.{
  ℕ, ◌+◌, ◌≤◌, ◌≡◌, refl, sym, ap, ap₂, ◌∙◌, Bool, true, false, List, [], ◌++◌, append_assoc,
  append-nil, length, length-append, take, drop, arith, if◌then◌else◌,
}
use distadm.Io.{Reply, Done}
use distadm.Io.Whole.{Calm, moving, writefile_whole}
use distadm.Io.Buffer.{cache_size, Istream, Ostream}
use distadm.Io.Buffer
use distadm.Io.Content.{content, read-Reads}
use distadm.Io.Written.{written, write-Writes, flush_cache-step}
use distadm.Crypt.{
  Cipher, Sha, through, ICstream, OCstream, read, identified, init_in, open_in, init_out, flush_net,
  open_out, write,
}
use distadm.Crypt.Pieces.{length-through}
use distadm.Crypt.Blocks.{take-front, drop-front, Sent, Received, write-Sent, read-Received}
use distadm.Crypt.Exchange.{Synced}

-- What a connection holds back
abbrev pub held_back : Bool → Ostream → List ℕ
held_back net s = if net then s.cache else []

module _ (k : Cipher) (h : Sha) where
  open_out-step :
      (net : Bool) (more after : List Reply) (nonce rndid : List ℕ) (base t : Ostream)
      → Buffer.write more nonce base ≡ Done.ok t after
      → open_out k h net more nonce rndid base
        ≡ flush_net k h net (init_out k h after nonce rndid t)
  unfolding open_out
  open_out-step net more after nonce rndid base t e = rw (e, open_out) refl

  open_in-step :
      (more after : List Reply) (base t : Istream) (nonce : List ℕ)
      → Buffer.read more 16 base ≡ Done.ok (nonce, t) after
      → open_in k h more base ≡ init_in k h after nonce t
  unfolding open_in
  open_in-step more after base t nonce e = rw (e, open_in) refl

  -- What `flush_net` leaves
  record Flushed (net : Bool) (more : List Reply) (w : OCstream k h) : Type 0 where
    pub base : Ostream
    pub after : List Reply
    pub done : flush_net k h net (Done.ok w more) ≡ Done.ok (record w { base = base }) after
    pub gets : written base ≡ written w.base
    pub pushed : held_back net base ≡ []
    pub bounded : length base.cache ≤ cache_size
    pub calm : Calm after

  flush_net-Flushed :
      (net : Bool) (more : List Reply) (w : OCstream k h)
      → Calm more
      → length w.base.cache ≤ cache_size
      → length w.base.cache ≤ moving more
      → Flushed net more w
  flush_net-Flushed false more w calm fits e = record {
    base = w.base;
    after = more;
    done = refl;
    gets = refl;
    pushed = refl;
    bounded = fits;
    calm = calm;
  }
  flush_net-Flushed true more w calm fits e =
      let (after, same, ends) = writefile_whole more w.base.cache w.base.sink calm e in
      let flushed = flush_cache-step more after w.base (w.base.sink ++ w.base.cache) same in
      record {
        base = record { cache = []; sink = w.base.sink ++ w.base.cache };
        after = after;
        done = rw flushed refl;
        gets = append-nil _;
        pushed = refl;
        bounded = omega arith;
        calm = ends.calm;
      }

  -- What the stream below gets when one opens the stream
  abbrev pub greeting : List ℕ → List ℕ → List ℕ
  greeting nonce rndid = nonce ++ (through k.encrypt (k.cipher_init nonce) rndid).1

  record Greets (net : Bool) (out : List Reply) (nonce rndid : List ℕ) (base : Ostream)
      : Type 0 where
    pub writer : OCstream k h
    pub after : List Reply
    pub opens : open_out k h net out nonce rndid base ≡ Done.ok writer after
    pub sent : written writer.base ≡ written base ++ greeting nonce rndid
    pub pushed : held_back net writer.base ≡ []
    pub cipher : writer.cctx ≡ (through k.encrypt (k.cipher_init nonce) rndid).0
    pub hashed : writer.sctx ≡ h.sha_update (h.sha_update h.sha_init nonce) rndid
    pub bounded : length writer.base.cache ≤ cache_size
    pub calm : Calm after

  open_out-Greets :
      (net : Bool) (out : List Reply) (nonce rndid : List ℕ) (base : Ostream)
      → Calm out
      → length base.cache ≤ cache_size
      → length base.cache + (length nonce + length rndid) ≤ moving out
      → Greets net out nonce rndid base
  unfolding init_out
  open_out-Greets net out nonce rndid base calm fits e =
      let a = write-Writes out nonce base calm fits (omega (arith, e)) in
      let sum : length a.stream.sink + length a.stream.cache
          ≡ length base.sink + length base.cache + length nonce =
        sym (length-append a.stream.sink a.stream.cache)
        ∙ ap length a.gets
        ∙ length-append (written base) nonce
        ∙ ap (λ x. x + length nonce) (length-append base.sink base.cache) in
      let w0 : OCstream k h = record {
        base = a.stream;
        cctx = k.cipher_init nonce;
        sctx = h.sha_update h.sha_init nonce;
      } in
      let hello = (through k.encrypt (k.cipher_init nonce) rndid).1 in
      let b : Sent k h rndid (h.sha_update (h.sha_update h.sha_init nonce) rndid) a.after w0
          (write k h a.after rndid w0) =
        write-Sent k h a.after rndid w0 a.calm a.bounded (omega (arith, e, a.left, sum)) in
      let sum' : length b.stream.base.sink + length b.stream.base.cache
          ≡ length a.stream.sink + length a.stream.cache + length rndid =
        sym (length-append b.stream.base.sink b.stream.base.cache)
        ∙ ap length b.gets
        ∙ length-append (written a.stream) hello
        ∙ ap₂ (λ x y. x + y) (length-append a.stream.sink a.stream.cache)
            (length-through k.encrypt (k.cipher_init nonce) rndid) in
      let c =
        flush_net-Flushed net b.after b.stream b.calm b.bounded
          (omega (arith, e, a.left, b.left, sum, sum')) in
      record {
        writer = record b.stream { base = c.base };
        after = c.after;
        opens =
            open_out-step net out a.after nonce rndid base a.stream a.done
            ∙ ap (flush_net k h net) b.done
            ∙ c.done;
        sent =
            c.gets ∙ b.gets ∙ ap (λ x. x ++ hello) a.gets ∙ append_assoc (written base) nonce hello;
        pushed = c.pushed;
        cipher = b.cipher;
        hashed = b.hashed;
        bounded = c.bounded;
        calm = c.calm;
      }

  -- Both ends have opened the stream.
  pub record Opened (net : Bool) (out back : List Reply) (nonce rndid rest : List ℕ)
      (base : Ostream) (from : Istream) : Type 0 where
    pub writer : OCstream k h
    pub out' : List Reply
    pub opens : open_out k h net out nonce rndid base ≡ Done.ok writer out'
    pub sent : written writer.base ≡ written base ++ greeting nonce rndid
    pub pushed : held_back net writer.base ≡ []
    pub reader : ICstream k h
    pub back' : List Reply
    pub opens_in : open_in k h back from ≡ Done.ok reader back'
    pub remains : content reader.base ≡ rest
    pub synced : Synced k h writer reader
    pub calm : Calm out' × Calm back'
    pub bounded : (length writer.base.cache ≤ cache_size) × (length reader.base.cache ≤ cache_size)

  -- A node that opens an encrypted stream, over a connection or into a file, sends a nonce in plain and
  -- an encrypted random identifier, of which a connection holds nothing back. Another node that opens the
  -- stream at these bytes, with the same key, ends behind them, with the same state of the cipher and the
  -- same hash. Both random values have 16 bytes, and the kernel replies without an error and often
  -- enough.
  pub open_in-open_out :
      (net : Bool) (out back : List Reply) (nonce rndid rest : List ℕ) (base : Ostream)
      (from : Istream)
      → length nonce ≡ 16
      → length rndid ≡ 16
      → Calm out
      → Calm back
      → length base.cache ≤ cache_size
      → length from.cache ≤ cache_size
      → length base.cache + 32 ≤ moving out
      → 32 ≤ moving back
      → content from ≡ greeting nonce rndid ++ rest
      → Opened net out back nonce rndid rest base from
  unfolding init_in
  open_in-open_out net out back nonce rndid rest base from ln lr calm calm' fits fits' e e' same =
      let a = open_out-Greets net out nonce rndid base calm fits (omega (arith, e, ln, lr)) in
      let hello = (through k.encrypt (k.cipher_init nonce) rndid).1 in
      let parts : content from ≡ nonce ++ (hello ++ rest) = same ∙ append_assoc nonce hello rest in
      let b =
        read-Reads back 16 from calm' fits'
          (omega (arith, ap length parts, length-append nonce (hello ++ rest), ln))
          (omega (arith, e')) in
      let front : take 16 (content from) ≡ nonce =
        ap₂ take (sym ln) parts ∙ take-front nonce (hello ++ rest) in
      let behind_nonce : content b.stream ≡ hello ++ rest =
        b.remains ∙ ap₂ drop (sym ln) parts ∙ drop-front nonce (hello ++ rest) in
      let r0 : ICstream k h = record {
        base = b.stream;
        cctx = k.cipher_init nonce;
        sctx = h.sha_update h.sha_init nonce;
      } in
      let c : Received k h rndid rest (through k.encrypt (k.cipher_init nonce) rndid).0
          (h.sha_update (h.sha_update h.sha_init nonce) rndid) b.after
          (read k h b.after (length rndid) r0) =
        read-Received k h b.after rndid rest r0 b.ends.calm b.bounded behind_nonce
          (omega (arith, b.ends.left, e', lr)) in
      record {
        writer = a.writer;
        out' = a.after;
        opens = a.opens;
        sent = a.sent;
        pushed = a.pushed;
        reader = c.stream;
        back' = c.after;
        opens_in =
            open_in-step back b.after from b.stream nonce
              (b.done ∙ ap (λ x. Done.ok (x, b.stream) b.after) front)
            ∙ ap (λ n. identified k h (read k h b.after n r0)) (sym lr)
            ∙ ap (identified k h) c.done;
        remains = c.remains;
        synced = record { cipher = c.cipher ∙ sym a.cipher; hashed = c.hashed ∙ sym a.hashed };
        calm = (a.calm, c.ends.calm);
        bounded = (a.bounded, c.bounded);
      }
