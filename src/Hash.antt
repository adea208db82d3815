-- ===== src/Hash.antt =====
-- The text of a SHA256 in sha.cpp. A hash is a list of bytes, a text one of character codes; the
-- digest is of GnuTLS. A `char` that is taken from is counted modulo 256.
use Prim.Native.Nat.{◌/◌}
use distadm.Prelude.{
  ℕ, zero, suc, max, ◌+◌, ◌*◌, ◌-◌, ◌%◌, ◌<◌, ◌≡◌, refl, ap₂, ◌∙◌, Bool, true, false, List, [], ◌∷◌,
  map, replicate, length, ltb, ◌==◌, if◌then◌else◌, All, arith, take,
}

-- A digit of operator string
unfoldable hex : ℕ → ℕ
hex x = if ltb x 10 then x + b'0' else x + (b'A' - 10)

-- SHA256::operator string and, for its first eight bytes, SHA256::partial: the low half comes first.
unfoldable pub to_string : List ℕ → List ℕ
unfolding hex
to_string [] = []
to_string (b ∷ bs) = hex (b % 16) ∷ hex (b / 16 % 16) ∷ to_string bs

unfoldable partial : List ℕ → List ℕ
unfolding to_string
partial hash = to_string (take 8 hash)

-- `ch -= ch < 'A' ? '0' : 'A' + 10`
unfoldable unhex : ℕ → ℕ
unhex ch = if ltb ch b'A' then (ch + 256 - b'0') % 256 else (ch + 256 - (b'A' + 10)) % 256

-- `a | b` on so many bits
unfoldable bit_or : ℕ → ℕ → ℕ → ℕ
bit_or zero a b = 0
bit_or (suc bits) a b = max (a % 2) (b % 2) + 2 * bit_or bits (a / 2) (b / 2)

-- `(ch1 << 4) | ch2` as a byte
unfoldable byte_of : ℕ → ℕ → ℕ
unfolding unhex bit_or
byte_of ch1 ch2 = bit_or 8 (unhex ch1 * 16) (unhex ch2)

-- SHA256::from_string: the bytes that the text gives, up to `size` of them, and zeros behind
unfoldable pub from_string : ℕ → List ℕ → List ℕ
unfolding byte_of
from_string zero src = []
from_string (suc size) [] = 0 ∷ replicate size 0
from_string (suc size) (ch ∷ []) = byte_of ch b'0' ∷ replicate size 0
from_string (suc size) (ch1 ∷ ch2 ∷ src) = byte_of ch1 ch2 ∷ from_string size src

-- SHA256::operator bool
unfoldable pub is_set : List ℕ → Bool
is_set [] = false
is_set (b ∷ bs) = let rest = is_set bs in if b == 0 then rest else true

-- Both halves of a byte are decimal digits.
abbrev IsDecimal : ℕ → Type 0
IsDecimal b = (b % 16 < 10) × (b / 16 % 16 < 10)

abbrev pub swap_halves : ℕ → ℕ
swap_halves b = b % 16 * 16 + b / 16 % 16

unhex-hex : (x : ℕ) → x < 10 → unhex (hex x) ≡ x
unfolding unhex hex
unhex-hex x h = ground arith

-- The lowest bit of an even number leaves that of the other.
bit_or-even : (bits a b : ℕ) → bit_or (suc bits) (2 * a) b ≡ b % 2 + 2 * bit_or bits a (b / 2)
unfolding bit_or
bit_or-even bits a b =
    let low : max (2 * a % 2) (b % 2) ≡ b % 2 = omega arith in
    let high : 2 * a / 2 ≡ a = omega arith in rw low (rw high refl)

bit_or-zero : (x : ℕ) → x < 16 → bit_or 4 x 0 ≡ x
unfolding bit_or
bit_or-zero x h = omega arith

bit_or-shifted : (x y : ℕ) → x < 10 → y < 10 → bit_or 8 (x * 16) y ≡ x * 16 + y
bit_or-shifted x y h k =
    let e : x * 16 ≡ 2 * (2 * (2 * (2 * x))) = omega arith in
    let gone : y / 2 / 2 / 2 / 2 ≡ 0 = omega arith in
    rw e (
      bit_or-even 7 (2 * (2 * (2 * x))) y
      ∙ rw (bit_or-even 6 (2 * (2 * x)) (y / 2)) (
          rw (bit_or-even 5 (2 * x) (y / 2 / 2)) (
            rw (bit_or-even 4 x (y / 2 / 2 / 2))
              (rw gone (rw (bit_or-zero x (omega arith)) (omega arith))))))

-- When all digits of the text of a hash are decimal, reading it back gives each byte with its
-- halves swapped, as they are written in one order and read in the other.
pub from_string-to_string :
    (hash : List ℕ)
    → All IsDecimal hash
    → from_string (length hash) (to_string hash) ≡ map swap_halves hash
unfolding from_string to_string byte_of
from_string-to_string [] h = refl
from_string-to_string (b ∷ bs) h =
    ap₂ ◌∷◌
      (rw (unhex-hex (b % 16) h.0.0)
        (rw (unhex-hex (b / 16 % 16) h.0.1) (bit_or-shifted (b % 16) (b / 16 % 16) h.0.0 h.0.1)))
      (from_string-to_string bs h.1)
