-- ===== src/Crypt/Pieces.antt =====
-- A cipher works byte by byte: pieces may be cut anywhere.
use distadm.Prelude.{ℕ, zero, suc, ◌≡◌, refl, ap, ◌∙◌, List, [], ◌∷◌, ◌++◌, length, take, drop}
use distadm.Crypt.{Cipher, through}

pub length-through :
    {S : Type 0} (f : S → ℕ → S × ℕ) (s : S) (xs : List ℕ) → length (through f s xs).1 ≡ length xs
length-through f s [] = refl
length-through f s (x ∷ xs) = ap suc (length-through f (f s x).0 xs)

pub through-append :
    {S : Type 0} (f : S → ℕ → S × ℕ) (s : S) (xs ys : List ℕ)
    → through f s (xs ++ ys) ≡ (
      (through f (through f s xs).0 ys).0,
      (through f s xs).1 ++ (through f (through f s xs).0 ys).1,
    )
through-append f s [] ys = refl
through-append f s (x ∷ xs) ys = ap (λ p. (p.0, (f s x).1 ∷ p.1)) (through-append f (f s x).0 xs ys)

pub through-take :
    {S : Type 0} (f : S → ℕ → S × ℕ) (s : S) (n : ℕ) (xs : List ℕ)
    → (through f s (take n xs)).1 ≡ take n (through f s xs).1
through-take f s zero xs = refl
through-take f s (suc n) [] = refl
through-take f s (suc n) (x ∷ xs) = ap (◌∷◌ (f s x).1) (through-take f (f s x).0 n xs)

pub through-drop :
    {S : Type 0} (f : S → ℕ → S × ℕ) (s : S) (n : ℕ) (xs : List ℕ)
    → through f (through f s (take n xs)).0 (drop n xs)
      ≡ ((through f s xs).0, drop n (through f s xs).1)
through-drop f s zero xs = refl
through-drop f s (suc n) [] = refl
through-drop f s (suc n) (x ∷ xs) = through-drop f (f s x).0 n xs

-- What is encrypted is decrypted.
pub decrypt-encrypt_all :
    (k : Cipher) (s : k.State) (xs : List ℕ)
    → through k.decrypt s (through k.encrypt s xs).1 ≡ ((through k.encrypt s xs).0, xs)
decrypt-encrypt_all k s [] = refl
decrypt-encrypt_all k s (x ∷ xs) =
    let first = k.decrypt-encrypt s x in
    let rest = decrypt-encrypt_all k (k.encrypt s x).0 xs in
    ap
      (λ p. (
        (through k.decrypt p.0 (through k.encrypt (k.encrypt s x).0 xs).1).0,
        p.1 ∷ (through k.decrypt p.0 (through k.encrypt (k.encrypt s x).0 xs).1).1,
      ))
      first
    ∙ ap (λ p. (p.0, x ∷ p.1)) rest
