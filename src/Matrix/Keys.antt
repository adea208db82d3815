-- ===== src/Matrix/Keys.antt =====
-- Keys of a matrix: an assignment through `operator[]`, and key lists with the same members.
use distadm.Prelude.{
  ℕ, suc, ◌≤◌, ◌<◌, ◌≡◌, refl, ap₂, Bool, true, false, Option, none, some, List, [], ◌∷◌, ltb, ◌==◌,
  ◌||◌, if◌then◌else◌, arith, inl, inr, Bool-cases, ltb→lt,
}
use distadm.Matrix.{Node, Matrix, default_node, ids, find, index_from, upsert}
use distadm.Matrix.Shape.{Ascends}

abbrev pub or_default : Option Node → Node
or_default none = default_node
or_default (some n) = n

abbrev pub has : ℕ → List ℕ → Bool
has x [] = false
has x (y ∷ ys) = y == x || has x ys

abbrev pub is_some {ℓ} : {A : Type ℓ} → Option A → Bool
is_some none = false
is_some (some a) = true

pub has-above : (x lo : ℕ) (ys : List ℕ) → x < lo → Ascends lo ys → has x ys ≡ false
has-above x lo [] h a = refl
has-above x lo (y ∷ ys) h a = ground (arith, has-above x (suc y) ys (omega arith) a.1)

pub find-above : (x lo : ℕ) (m : Matrix) → x < lo → Ascends lo (ids m) → find x m ≡ none
unfolding find
find-above x lo [] h a = refl
find-above x lo ((y, n) ∷ m) h a = ground (arith, find-above x (suc y) m (omega arith) a.1)

-- An assignment through `operator[]` changes the entry of its key, and makes it if there is none.
pub find-upsert :
    (k j lo : ℕ) (f : Node → Node) (m : Matrix)
    → Ascends lo (ids m)
    → find j (upsert k f m) ≡ (if k == j then some (f (or_default (find k m))) else find j m)
unfolding find upsert
find-upsert k j lo f [] a = refl
find-upsert k j lo f ((i, n) ∷ m) a = elim (Bool-cases (i == k)) [
  | inl hit ↦ ground arith
  | inr miss ↦ elim (Bool-cases (ltb k i)) [
    | inl below ↦ rw (find-above k (suc i) m (omega (arith, ltb→lt k i below)) a.1) (ground arith)
    | inr above ↦ ground (arith, find-upsert k j (suc i) f m a.1)
  ]
]

pub upsert-Ascends :
    (k lo : ℕ) (f : Node → Node) (m : Matrix)
    → lo ≤ k
    → Ascends lo (ids m)
    → Ascends lo (ids (upsert k f m))
unfolding upsert
upsert-Ascends k lo f [] h a = (h, tt)
upsert-Ascends k lo f ((i, n) ∷ m) h a = elim (Bool-cases (i == k)) [
  | inl hit ↦ rw hit a
  | inr miss ↦ elim (Bool-cases (ltb k i)) [
    | inl below ↦ rw miss (rw below (h, (ltb→lt k i below, a.1)))
    | inr above ↦ rw miss (rw above (a.0, upsert-Ascends k (suc i) f m (ground arith) a.1))
  ]
]

pub has-find : (x : ℕ) (m : Matrix) → has x (ids m) ≡ is_some (find x m)
unfolding find
has-find x [] = refl
has-find x ((y, n) ∷ m) = ground (arith, has-find x m)

pub index_from-has : (r x : ℕ) (ys : List ℕ) → is_some (index_from r x ys) ≡ has x ys
unfolding index_from
index_from-has r x [] = refl
index_from-has r x (y ∷ ys) = ground (arith, index_from-has (suc r) x ys)

-- Two ascending lists with the same members are equal.
pub Ascends-ext :
    (lo lo' : ℕ) (xs ys : List ℕ)
    → Ascends lo xs
    → Ascends lo' ys
    → ((z : ℕ) → has z xs ≡ has z ys)
    → xs ≡ ys
Ascends-ext lo lo' [] [] a b h = refl
Ascends-ext lo lo' [] (y ∷ ys) a b h = ground (arith, h y)
Ascends-ext lo lo' (x ∷ xs) [] a b h = ground (arith, h x)
Ascends-ext lo lo' (x ∷ xs) (y ∷ ys) a b h =
    ap₂ ◌∷◌ same (Ascends-ext (suc x) (suc y) xs ys a.1 b.1 tails)
  where
    same : x ≡ y
    same = ground (arith, h x, h y, has-above x (suc y) ys, has-above y (suc x) xs)

    tails : (z : ℕ) → has z xs ≡ has z ys
    tails z = ground (arith, same, h z, has-above x (suc x) xs, has-above x (suc y) ys)
