-- ===== src/Matrix/Lookup.antt =====
-- The index of a key, the entry there, and what the iterator reaches.
use distadm.Prelude.{
  ℕ, zero, suc, ◌+◌, ◌-◌, ◌≤◌, ◌<◌, ◌≡◌, refl, sym, ap, none, some, List, [], ◌∷◌, length, ◌==◌,
  arith, get_or, drop, inl, inr, Bool-cases, ==→eq, ◌∙◌,
}
use distadm.Matrix.{Node, Matrix, ids, find, index_from, node_offset}
use distadm.Matrix.Shape.{Ascends}

-- A key that a suffix above it cannot hold has no index.
pub index_from-above :
    (r x lo : ℕ) (ys : List ℕ) → x < lo → Ascends lo ys → index_from r x ys ≡ none
unfolding index_from
index_from-above r x lo [] h a = refl
index_from-above r x lo (y ∷ ys) h a =
    ground (arith, index_from-above (suc r) x (suc y) ys (omega arith) a.1)

pub index_from-ge : (r x k : ℕ) (ys : List ℕ) → index_from r x ys ≡ some k → r ≤ k
unfolding index_from
index_from-ge r x k [] h = cc
index_from-ge r x k (y ∷ ys) h = ground (arith, index_from-ge (suc r) x k ys)

pub index_from-lt : (r x k : ℕ) (ys : List ℕ) → index_from r x ys ≡ some k → k < r + length ys
unfolding index_from
index_from-lt r x k [] h = cc
index_from-lt r x k (y ∷ ys) h = ground (arith, index_from-lt (suc r) x k ys)

-- In an ascending list the index grows with the key.
pub index_from_mono :
    (r x z j k lo : ℕ) (ys : List ℕ)
    → Ascends lo ys
    → x < z
    → index_from r x ys ≡ some j
    → index_from r z ys ≡ some k
    → j < k
unfolding index_from
index_from_mono r x z j k lo [] a h p q = cc
index_from_mono r x z j k lo (y ∷ ys) a h p q = ground (
  arith,
  index_from-ge (suc r) z k ys,
  index_from-above (suc r) z (suc y) ys,
  index_from-above (suc r) x (suc y) ys,
  index_from_mono (suc r) x z j k (suc y) ys a.1 h,
)

-- A key with no index has no entry.
pub find-none : (r x : ℕ) (m : Matrix) → index_from r x (ids m) ≡ none → find x m ≡ none
unfolding index_from find
find-none r x [] h = refl
find-none r x ((y, n) ∷ m) h = ground (arith, find-none (suc r) x m)

-- A key with an index has the entry that the iterator reaches there.
find-some :
    (r x k : ℕ) (m : Matrix)
    → index_from r x (ids m) ≡ some k
    → (n : Node) × (find x m ≡ some n) × (drop (k - r) m ≡ (x, n) ∷ drop (suc (k - r)) m)
unfolding index_from find
find-some r x k [] h = cc
find-some r x k ((y, n) ∷ m) h = elim (Bool-cases (y == x)) [
  | inl hit ↦
      let here : k - r ≡ 0 = ground arith in
      (n, rw hit, rw here (ap (λ t. (t, n) ∷ m) (==→eq y x hit)))
  | inr miss ↦
      let later : index_from (suc r) x (ids m) ≡ some k = rw miss at h in
      let (n', found, there) = find-some (suc r) x k m later in
      let step : k - r ≡ suc (k - suc r) = omega (arith, index_from-ge (suc r) x k (ids m) later) in
      (n', rw miss found, rw step there)
]

pub find-at :
    (x k : ℕ) (m : Matrix)
    → index_from 0 x (ids m) ≡ some k
    → (n : Node) × (find x m ≡ some n) × (drop k m ≡ (x, n) ∷ drop (suc k) m)
find-at x k m h =
    let (n, found, there) = find-some 0 x k m h in
    let first : k - 0 ≡ k = omega arith in (n, found, rw first at there)

drop-nil {ℓ} : {A : Type ℓ} (d : ℕ) → ◌≡◌ {A = List A} (drop d []) []
drop-nil zero = refl
drop-nil (suc d) = refl

pub drop-drop {ℓ} :
    {A : Type ℓ} (r d k : ℕ) (xs : List A) → r + d ≡ k → drop d (drop r xs) ≡ drop k xs
drop-drop zero d k xs e = let same : d ≡ k = omega arith in rw same
drop-drop (suc r) d k [] e = drop-nil d ∙ sym (drop-nil k)
drop-drop (suc r) d zero (x ∷ xs) e = absurd (omega arith)
drop-drop (suc r) d (suc k) (x ∷ xs) e = drop-drop r d k xs (omega arith)

get_or-index_from : (r x k : ℕ) (ys : List ℕ) → index_from r x ys ≡ some k → get_or ys (k - r) 0 ≡ x
unfolding index_from
get_or-index_from r x k [] h = cc
get_or-index_from r x k (y ∷ ys) h = elim (Bool-cases (y == x)) [
  | inl hit ↦ let here : k - r ≡ 0 = ground arith in rw here (==→eq y x hit)
  | inr miss ↦
      let later : index_from (suc r) x ys ≡ some k = rw miss at h in
      let step : k - r ≡ suc (k - suc r) = omega (arith, index_from-ge (suc r) x k ys later) in
      rw step (get_or-index_from (suc r) x k ys later)
]

-- The key at the index of a key is that key.
pub get_or-index : (x k : ℕ) (m : Matrix) → node_offset m x ≡ some k → get_or (ids m) k 0 ≡ x
unfolding node_offset
get_or-index x k m h =
    let first : k - 0 ≡ k = omega arith in rw first at (get_or-index_from 0 x k (ids m) h)
