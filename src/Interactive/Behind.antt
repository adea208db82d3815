-- ===== src/Interactive/Behind.antt =====
-- Which nodes Core::incm_queue lists.
use native.Mathlib.Nat.{mod-eq_of_lt}
use distadm.Prelude.{
  ℕ, zero, suc, ◌+◌, ◌-◌, ◌%◌, ◌≤◌, ◌<◌, ◌≡◌, refl, ap, false, some, List, [], ◌∷◌, length, max,
  ltb, ◌==◌, arith, get_or, Bool-cases, ◌⊎◌, inl, inr, ==_refl,
}
use distadm.Matrix.{Node, Matrix, ids, find}
use distadm.Matrix.Shape.{Ascends}
use distadm.Matrix.Keys.{find-above}
use distadm.Messages.{u64}
use distadm.Interactive.Queue.{raise_row, max_rows, sub64, missing}

-- Some node knows a command that `n` does not know.
abbrev pub Behind : Matrix → Node → Type 0
Behind nodes n =
    (b i : ℕ) × (n' : Node) × (find b nodes ≡ some n')
    × (get_or n.matrix_row i 0 < get_or n'.matrix_row i 0)

get_or-raise_row :
    (maxrow row : List ℕ) (i : ℕ)
    → i < length maxrow
    → get_or (raise_row maxrow row) i 0 ≡ max (get_or maxrow i 0) (get_or row i 0)
unfolding raise_row
get_or-raise_row [] row i h = absurd (omega arith)
get_or-raise_row (m ∷ maxrow) [] i h = omega arith
get_or-raise_row (m ∷ maxrow) (x ∷ row) zero h = refl
get_or-raise_row (m ∷ maxrow) (x ∷ row) (suc i) h = get_or-raise_row maxrow row i (omega arith)

length-raise_row : (maxrow row : List ℕ) → length (raise_row maxrow row) ≡ length maxrow
unfolding raise_row
length-raise_row [] row = refl
length-raise_row (m ∷ maxrow) [] = refl
length-raise_row (m ∷ maxrow) (x ∷ row) = omega (arith, length-raise_row maxrow row)

pub length-max_rows : (m : Matrix) (maxrow : List ℕ) → length (max_rows m maxrow) ≡ length maxrow
unfolding max_rows
length-max_rows [] maxrow = refl
length-max_rows ((id, n) ∷ m) maxrow =
    omega (
      arith,
      length-max_rows m (raise_row maxrow n.matrix_row),
      length-raise_row maxrow n.matrix_row,
    )

max_rows-start :
    (m : Matrix) (maxrow : List ℕ) (i : ℕ)
    → i < length maxrow
    → get_or maxrow i 0 ≤ get_or (max_rows m maxrow) i 0
unfolding max_rows
max_rows-start [] maxrow i h = omega arith
max_rows-start ((id, n) ∷ m) maxrow i h =
    let further =
      max_rows-start m (raise_row maxrow n.matrix_row) i
        (omega (arith, length-raise_row maxrow n.matrix_row)) in
    omega (arith, further, get_or-raise_row maxrow n.matrix_row i h)

-- No node knows more than `maxrow`.
pub max_rows-le :
    (b : ℕ) (m : Matrix) (maxrow : List ℕ) (i : ℕ) (n : Node)
    → i < length maxrow
    → find b m ≡ some n
    → get_or n.matrix_row i 0 ≤ get_or (max_rows m maxrow) i 0
unfolding max_rows find
max_rows-le b [] maxrow i n h e = cc
max_rows-le b ((id, n') ∷ m) maxrow i n h e =
    let inside : i < length (raise_row maxrow n'.matrix_row) =
      omega (arith, length-raise_row maxrow n'.matrix_row) in
    elim (Bool-cases (id == b)) [
      | inl here ↦
          let same : some n' ≡ some n = rw here at e in
          let mine : n' ≡ n = cc in
          let start = max_rows-start m (raise_row maxrow n'.matrix_row) i inside in
          omega (
            arith,
            start,
            get_or-raise_row maxrow n'.matrix_row i h,
            ap (λ t. get_or t.matrix_row i 0) mine,
          )
      | inr other ↦ max_rows-le b m (raise_row maxrow n'.matrix_row) i n inside (rw other at e)
    ]

-- What `maxrow` has beyond its start, some node knows.
pub max_rows-known :
    (lo : ℕ) (m : Matrix) (maxrow : List ℕ) (i : ℕ)
    → Ascends lo (ids m)
    → i < length maxrow
    → (get_or (max_rows m maxrow) i 0 ≡ get_or maxrow i 0)
      ⊎ ((b : ℕ) × (n : Node) × (find b m ≡ some n)
          × (get_or (max_rows m maxrow) i 0 ≡ get_or n.matrix_row i 0))
unfolding max_rows find
max_rows-known lo [] maxrow i a h = inl refl
max_rows-known lo ((id, n) ∷ m) maxrow i a h =
    let raised = raise_row maxrow n.matrix_row in
    let inside : i < length raised = omega (arith, length-raise_row maxrow n.matrix_row) in
    let cell = get_or-raise_row maxrow n.matrix_row i h in
    elim (max_rows-known (suc id) m raised i a.1 inside) [
      | inr (b, n', found, known) ↦
          let apart : (id == b) ≡ false = ground (arith, find-above id (suc id) m) in
          inr (b, n', rw apart found, known)
      | inl start ↦ elim (Bool-cases (ltb (get_or maxrow i 0) (get_or n.matrix_row i 0))) [
        | inl more ↦ inr (id, n, rw (==_refl id) refl, ground (arith, start, cell))
        | inr less ↦ inl (ground (arith, start, cell))
      ]
    ]

-- `d`, as a number that does not wrap
abbrev pub lacks : List ℕ → List ℕ → ℕ
lacks [] row = 0
lacks (m ∷ maxrow) [] = 0
lacks (m ∷ maxrow) (x ∷ row) = (m - x) + lacks maxrow row

pub missing-lacks :
    (d : ℕ) (maxrow row : List ℕ)
    → ((i : ℕ) → i < length maxrow → get_or row i 0 ≤ get_or maxrow i 0)
    → d + lacks maxrow row < u64
    → missing d maxrow row ≡ d + lacks maxrow row
unfolding missing sub64
missing-lacks d [] row below h = omega arith
missing-lacks d (m ∷ maxrow) [] below h = omega arith
missing-lacks d (m ∷ maxrow) (x ∷ row) below h =
    let le : x ≤ m = below 0 (omega arith) in
    let no_wrap : ltb m x ≡ false = ground arith in
    let kept : (d + (m - x)) % u64 ≡ d + (m - x) = mod-eq_of_lt (omega (arith, h)) in
    rw no_wrap (
      rw kept (
        omega (
          arith,
          missing-lacks (d + (m - x)) maxrow row (λ i l. below (suc i) (omega (arith, l)))
              (omega (arith, h)),
        )))

pub lacks-some :
    (maxrow row : List ℕ)
    → 0 < lacks maxrow row
    → (i : ℕ) × (i < length maxrow) × (get_or row i 0 < get_or maxrow i 0)
lacks-some [] row h = absurd (omega (arith, h))
lacks-some (m ∷ maxrow) [] h = absurd (omega (arith, h))
lacks-some (m ∷ maxrow) (x ∷ row) h = elim (Bool-cases (ltb x m)) [
  | inl less ↦ (0, omega arith, ground arith)
  | inr more ↦
      let (i, inside, further) = lacks-some maxrow row (ground arith) in
      (suc i, omega (arith, inside), further)
]

pub lacks-pos :
    (maxrow row : List ℕ) (i : ℕ)
    → i < length maxrow
    → i < length row
    → get_or row i 0 < get_or maxrow i 0
    → 0 < lacks maxrow row
lacks-pos [] row i h w l = absurd (omega arith)
lacks-pos (m ∷ maxrow) [] i h w l = absurd (omega arith)
lacks-pos (m ∷ maxrow) (x ∷ row) zero h w l = omega (arith, l)
lacks-pos (m ∷ maxrow) (x ∷ row) (suc i) h w l =
    omega (arith, lacks-pos maxrow row i (omega arith) (omega arith) l)
