-- ===== src/Uuid.antt =====
-- uuid.cpp: a UUID is sixteen bytes, compared by `memcmp`. The other modules carry a UUID as the
-- number that its bytes write in base 256; the first theorem says that this keeps the order.
use Prim.Native.Nat.{compare, Ordering}
use native.Mathlib.Nat.{le_antisymm}
use distadm.Prelude.{
  ℕ, zero, suc, ◌+◌, ◌*◌, ◌<◌, ◌≡◌, refl, Bool, true, false, Option, none, some, List, [], ◌∷◌, All,
  sym, ltb→lt, ltb-false, length, ltb, ◌==◌, if◌then◌else◌, not, arith, Bool-cases, inl, inr,
}

-- UUID::none() and UUID::clear()
abbrev none_id : ℕ
none_id = 0

-- UUID::operator bool, on the number
abbrev pub is_set : ℕ → Bool
is_set id = not (id == none_id)

-- `memcmp` on two arrays of one size
unfoldable pub memcmp : List ℕ → List ℕ → Ordering
memcmp [] bs = Ordering.eq
memcmp (a ∷ as') [] = Ordering.eq
memcmp (a ∷ as') (b ∷ bs) =
    let rest = memcmp as' bs in
    if ltb a b then Ordering.lt else if ltb b a then Ordering.gt else rest

-- UUID::operator bool, on the bytes
any_byte : List ℕ → Bool
any_byte [] = false
any_byte (b ∷ bs) = let rest = any_byte bs in if b == 0 then rest else true

pow256 : ℕ → ℕ
pow256 zero = 1
pow256 (suc n) = 256 * pow256 n

unfoldable pub value : List ℕ → ℕ
unfolding pow256
value [] = 0
value (b ∷ bs) = b * pow256 (length bs) + value bs

-- UUID::random: blocks are read until one is not all zeros. `none`: the source ran dry.
unfoldable pub random : List ℕ → Option (ℕ × List ℕ)
random [] = none
random (x ∷ rest) = let again = random rest in if is_set x then some (x, rest) else again

pow256_pos : (n : ℕ) → 0 < pow256 n
unfolding pow256
pow256_pos zero = omega arith
pow256_pos (suc n) = omega (arith, pow256_pos n)

value-lt-pow256 : (bs : List ℕ) → All (λ b. b < 256) bs → value bs < pow256 (length bs)
unfolding value
value-lt-pow256 [] h = omega arith
value-lt-pow256 (b ∷ bs) h = grind (arith, value-lt-pow256 bs h.1)

lead_lt : (a b p v w : ℕ) → a < b → v < p → w < p → a * p + v < b * p + w
lead_lt a b p v w h hv hw = grind arith

compare_add : (k v w : ℕ) → compare (k + v) (k + w) ≡ compare v w
compare_add k v w = ground arith

compare_lt : (v w : ℕ) → v < w → compare v w ≡ Ordering.lt
compare_lt v w h = ground arith

compare_gt : (v w : ℕ) → w < v → compare v w ≡ Ordering.gt
compare_gt v w h = ground arith

-- The first byte decides, unless the two are equal.
compare_lead :
    (x y p v w : ℕ)
    → v < p
    → w < p
    → (if ltb x y then Ordering.lt else if ltb y x then Ordering.gt else compare v w)
      ≡ compare (x * p + v) (y * p + w)
compare_lead x y p v w hv hw = elim (Bool-cases (ltb x y)) [
  | inl below ↦ rw below (sym (compare_lt _ _ (lead_lt x y p v w (ltb→lt x y below) hv hw)))
  | inr not_below ↦ elim (Bool-cases (ltb y x)) [
    | inl above ↦
        rw (not_below, above) (sym (compare_gt _ _ (lead_lt y x p w v (ltb→lt y x above) hw hv)))
    | inr not_above ↦
        rw (not_below, not_above)
          (rw (le_antisymm (ltb-false y x not_above) (ltb-false x y not_below))
            (sym (compare_add (y * p) v w)))
  ]
]

-- On two arrays of bytes of one length `memcmp` answers as the comparison of the numbers that the
-- arrays write in base 256.
pub memcmp-value :
    (xs ys : List ℕ)
    → length xs ≡ length ys
    → All (λ b. b < 256) xs
    → All (λ b. b < 256) ys
    → memcmp xs ys ≡ compare (value xs) (value ys)
unfolding memcmp value
memcmp-value [] [] l hx hy = refl
memcmp-value [] (y ∷ ys) l hx hy = absurd (omega arith)
memcmp-value (x ∷ xs) [] l hx hy = absurd (omega arith)
memcmp-value (x ∷ xs) (y ∷ ys) l hx hy =
    let same : length xs ≡ length ys = omega arith in
    rw (memcmp-value xs ys same hx.1 hy.1) (
      rw same (
        compare_lead x y (pow256 (length ys)) (value xs) (value ys)
          (rw same at (value-lt-pow256 xs hx.1)) (value-lt-pow256 ys hy.1)))
