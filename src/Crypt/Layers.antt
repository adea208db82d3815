-- ===== src/Crypt/Layers.antt =====
-- The encrypted streams are the streams below them, with a cipher between.
use distadm.Prelude.{
  ℕ, zero, suc, ◌-◌, ◌≡◌, refl, sym, ap, ap₂, ◌∙◌, List, [], ◌∷◌, ◌++◌, length, take, drop, min,
  inl, inr, ◌⊎◌,
}
use distadm.Io.{Reply, Done}
use distadm.Io.Buffer.{
  cache_size, Istream, Ostream, Taken, behind, refill, free_cache, read_small, write_small,
}
use distadm.Io.Content.{read_small-step}
use distadm.Io.Written.{write_small-step}
use distadm.Crypt.{Cipher, Sha, through, ICstream, OCstream, Plain, plain_behind, read_nh, write_nc}
use distadm.Crypt.Pieces.{length-through, through-append, through-take, through-drop}

Done-cases :
    {A : Type 0} (d : Done A)
    → ((x : A) × (more : List Reply) × (d ≡ Done.ok x more))
      ⊎ ((d ≡ Done.thrown) ⊎ (d ≡ Done.blocked))
Done-cases (Done.ok x more) = inl (x, more, refl)
Done-cases Done.thrown = inr (inl refl)
Done-cases Done.blocked = inr (inr refl)

module _ (k : Cipher) (h : Sha) where
  -- The cipher behind the write of what is encrypted
  abbrev pub coded : k.State → h.Ctx → Done Ostream → Done (OCstream k h)
  coded cctx sctx (Done.ok t more) = Done.ok (record { base = t; cctx = cctx; sctx = sctx }) more
  coded cctx sctx Done.thrown = Done.thrown
  coded cctx sctx Done.blocked = Done.blocked

  -- The cipher behind the read of what is encrypted
  abbrev pub plain : k.State → h.Ctx → Done Taken → Done (Plain k h)
  plain cctx sctx (Done.ok (bytes, t) more) =
      let (cctx', dst) = through k.decrypt cctx bytes in
      Done.ok (dst, record { base = t; cctx = cctx'; sctx = sctx }) more
  plain cctx sctx Done.thrown = Done.thrown
  plain cctx sctx Done.blocked = Done.blocked

  write_nc-step :
      (fuel b : ℕ) (src : List ℕ) (more after : List Reply) (s : OCstream k h) (t : Ostream) (c : ℕ)
      → free_cache more s.base ≡ Done.ok t after
      → min (length (b ∷ src)) (cache_size - length t.cache) ≡ c
      → write_nc k h (suc fuel) more (b ∷ src) s
        ≡ write_nc k h fuel after (drop c (b ∷ src)) (record {
          base = record {
            cache = t.cache ++ (through k.encrypt s.cctx (take c (b ∷ src))).1;
            sink = t.sink;
          };
          cctx = (through k.encrypt s.cctx (take c (b ∷ src))).0;
          sctx = s.sctx;
        })
  unfolding write_nc
  write_nc-step fuel b src more after s t c e size = rw (e, write_nc) (rw size refl)

  read_nh-step :
      (fuel n : ℕ) (more after : List Reply) (s : ICstream k h) (t : Istream) (c : ℕ)
      → refill more s.base ≡ Done.ok t after
      → min (suc n) (length t.cache) ≡ c
      → read_nh k h (suc fuel) more (suc n) s
        ≡ plain_behind k h (through k.decrypt s.cctx (take c t.cache)).1 (
            read_nh k h fuel after (suc n - c) (record {
              base = record { cache = drop c t.cache; rest = t.rest };
              cctx = (through k.decrypt s.cctx (take c t.cache)).0;
              sctx = s.sctx;
            }))
  unfolding read_nh
  read_nh-step fuel n more after s t c e size = rw (e, read_nh) (rw size refl)

  plain-behind :
      (cctx : k.State) (sctx : h.Ctx) (chunk : List ℕ) (d : Done Taken)
      → plain_behind k h
          (through k.decrypt cctx chunk).1
          (plain (through k.decrypt cctx chunk).0 sctx d)
        ≡ plain cctx sctx (behind chunk d)
  plain-behind cctx sctx chunk (Done.ok (bytes, t) more) =
      let joined = through-append k.decrypt cctx chunk bytes in
      ap (λ p. Done.ok (p.1, record { base = t; cctx = p.0; sctx = sctx }) more) (sym joined)
  plain-behind cctx sctx chunk Done.thrown = refl
  plain-behind cctx sctx chunk Done.blocked = refl

  -- A write to the encrypted stream is a write of the encrypted bytes to the stream below, in the
  -- same pieces and with the same error, and leaves the cipher behind those bytes.
  pub write_nc-write_small :
      (fuel : ℕ) (more : List Reply) (src : List ℕ) (s : OCstream k h)
      → write_nc k h fuel more src s
        ≡ coded
            (through k.encrypt s.cctx src).0
            s.sctx
            (write_small fuel more (through k.encrypt s.cctx src).1 s.base)
  unfolding write_nc write_small
  write_nc-write_small fuel more [] s = refl
  write_nc-write_small zero more (b ∷ src) s = refl
  write_nc-write_small (suc fuel) more (b ∷ src) s = elim (Done-cases (free_cache more s.base)) [
    | inl (t, after, e) ↦
        let c = min (length (b ∷ src)) (cache_size - length t.cache) in
        let f = k.encrypt in
        let out = (through f (f s.cctx b).0 src).1 in
        let next = through f s.cctx (take c (b ∷ src)) in
        let s' : OCstream k h = record {
          base = record { cache = t.cache ++ next.1; sink = t.sink };
          cctx = next.0;
          sctx = s.sctx;
        } in
        let size : min (length ((f s.cctx b).1 ∷ out)) (cache_size - length t.cache) ≡ c =
          ap (λ n. min (suc n) (cache_size - length t.cache))
            (length-through f (f s.cctx b).0 src) in
        write_nc-step fuel b src more after s t c e refl
        ∙ write_nc-write_small fuel after (drop c (b ∷ src)) s'
        ∙ ap₂
            (λ p x.
              coded p.0 s.sctx
                (write_small fuel after p.1 (record { cache = t.cache ++ x; sink = t.sink })))
            (through-drop f s.cctx c (b ∷ src)) (through-take f s.cctx c (b ∷ src))
        ∙ ap (coded (through f s.cctx (b ∷ src)).0 s.sctx)
            (sym (write_small-step fuel (f s.cctx b).1 out more after s.base t c e size))
    | inr (inl e) ↦ rw (e, write_nc, write_small) refl
    | inr (inr e) ↦ rw (e, write_nc, write_small) refl
  ]

  -- A read of the encrypted stream is a read of the stream below, in the same pieces and with the
  -- same error, with what it gives decrypted.
  pub read_nh-read_small :
      (fuel : ℕ) (more : List Reply) (n : ℕ) (s : ICstream k h)
      → read_nh k h fuel more n s ≡ plain s.cctx s.sctx (read_small fuel more n s.base)
  unfolding read_nh read_small
  read_nh-read_small fuel more zero s = refl
  read_nh-read_small zero more (suc n) s = refl
  read_nh-read_small (suc fuel) more (suc n) s = elim (Done-cases (refill more s.base)) [
    | inl (t, after, e) ↦
        let c = min (suc n) (length t.cache) in
        let next = through k.decrypt s.cctx (take c t.cache) in
        let t' : Istream = record { cache = drop c t.cache; rest = t.rest } in
        let s' : ICstream k h = record { base = t'; cctx = next.0; sctx = s.sctx } in
        read_nh-step fuel n more after s t c e refl
        ∙ ap (plain_behind k h next.1) (read_nh-read_small fuel after (suc n - c) s')
        ∙ plain-behind s.cctx s.sctx (take c t.cache) (read_small fuel after (suc n - c) t')
        ∙ ap (plain s.cctx s.sctx) (sym (read_small-step fuel n more after s.base t c e refl))
    | inr (inl e) ↦ rw (e, read_nh, read_small) refl
    | inr (inr e) ↦ rw (e, read_nh, read_small) refl
  ]
