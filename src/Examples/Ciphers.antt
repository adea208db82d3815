-- ===== src/Examples/Ciphers.antt =====
-- Encrypted streams with a small cipher, which adds the byte before, and a sum as the hash.
use distadm.Prelude.{ℕ, zero, suc, ◌+◌, ◌-◌, refl, ap, true, List, [], ◌∷◌, ◌++◌, length, arith}
use distadm.Io.{Reply}
use distadm.Io.Buffer.{Istream, Ostream}
use distadm.Crypt.{Cipher, Sha, ICstream, OCstream}
use distadm.Crypt.Exchange.{Exchanged, check_hash-write_hash}
use distadm.Crypt.Opening.{Opened, open_in-open_out}

abbrev shift : Cipher
shift = record {
  State = ℕ;
  cipher_init = λ nonce. length nonce;
  encrypt = λ s b. (b + s, b + s);
  decrypt = λ s c. (c, c - s);
  decrypt-encrypt = λ s b. ap (λ x. (b + s, x)) (omega arith);
}

abbrev total : List ℕ → ℕ
total [] = 0
total (x ∷ xs) = x + total xs

abbrev repeated : ℕ → ℕ → List ℕ
repeated x zero = []
repeated x (suc n) = x ∷ repeated x n

abbrev sums : Sha
sums = record {
  Ctx = ℕ;
  sha_init = 7;
  sha_update = λ c bytes. c + total bytes;
  sha_final = λ c. c ∷ repeated 0 19;
  length-sha_final = λ c. refl;
}

abbrev calls : ℕ → List Reply
calls zero = []
calls (suc n) = Reply.interrupted ∷ Reply.moves n ∷ calls n

abbrev writer : OCstream shift sums
writer = record { base = record { cache = 9 ∷ []; sink = 8 ∷ [] }; cctx = 3; sctx = 4 }

-- The bytes 5 and 6 with the hash of them, behind them a byte 1
abbrev reader : ICstream shift sums
reader = record {
  base = record { cache = 8 ∷ 14 ∷ 29 ∷ []; rest = repeated 29 19 ++ 1 ∷ [] };
  cctx = 3;
  sctx = 4;
}

check_hash-write_hash_example :
    Exchanged shift sums (calls 30) (calls 25) (5 ∷ 6 ∷ []) (1 ∷ []) writer reader
check_hash-write_hash_example =
    check_hash-write_hash shift sums (calls 30) (calls 25) (5 ∷ 6 ∷ []) (1 ∷ []) writer reader tt tt
      (omega arith) (omega arith) (omega arith) (omega arith)
      (record { cipher = refl; hashed = refl }) refl

abbrev nonce : List ℕ
nonce = 1 ∷ 2 ∷ 3 ∷ 4 ∷ repeated 0 12

abbrev rndid : List ℕ
rndid = repeated 0 15 ++ 5 ∷ []

abbrev fresh : Ostream
fresh = record { cache = []; sink = [] }

abbrev opened : Istream
opened = record { cache = []; rest = nonce ++ (repeated 16 15 ++ 21 ∷ 4 ∷ []) }

open_in-open_out_example :
    Opened shift sums true (calls 40) (calls 40) nonce rndid (4 ∷ []) fresh opened
open_in-open_out_example =
    open_in-open_out shift sums true (calls 40) (calls 40) nonce rndid (4 ∷ []) fresh opened refl
      refl tt tt (omega arith) (omega arith) (omega arith) (omega arith) refl
