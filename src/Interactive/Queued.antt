-- ===== src/Interactive/Queued.antt =====
-- Core::incm_queue lists the nodes that are behind, and no others.
use distadm.Prelude.{
  ℕ, zero, suc, ◌≤◌, ◌<◌, ◌≡◌, ◌↔◌, refl, ◌∙◌, Bool, true, false, not, Option, none, some, List, [],
  ◌∷◌, length, length-replicate, replicate, ◌==◌, arith, get_or, Bool-cases, ltb, ltb→lt, ltb-false,
  inl, inr,
}
use distadm.Matrix.{Node, Matrix, ids, find}
use distadm.Matrix.Shape.{Ascends, IsSquare}
use distadm.Matrix.Keys.{has, find-above}
use distadm.Matrix.Cells.{find-Rows}
use distadm.Messages.{u64}
use distadm.Core.Levels.{get_or-past}
use distadm.Interactive.Queue.{max_rows, missing, waits, queue}
use distadm.Interactive.Behind.{
  Behind, lacks, length-max_rows, max_rows-le, max_rows-known, missing-lacks, lacks-some, lacks-pos,
}

abbrev pub keys : List (ℕ × ℕ) → List ℕ
keys [] = []
keys ((id, d) ∷ l) = id ∷ keys l

abbrev listed : List ℕ → Option Node → Bool
listed maxrow none = false
listed maxrow (some n) = not (missing 0 maxrow n.matrix_row == 0)

has-waits :
    (maxrow : List ℕ) (lo id : ℕ) (m : Matrix)
    → Ascends lo (ids m)
    → has id (keys (waits maxrow m)) ≡ listed maxrow (find id m)
unfolding waits find
has-waits maxrow lo id [] a = refl
has-waits maxrow lo id ((j, n) ∷ m) a =
    let ih = has-waits maxrow (suc j) id m a.1 in
    elim (Bool-cases (missing 0 maxrow n.matrix_row == 0)) [
      | inl done ↦
          rw (done, waits)
            (elim (Bool-cases (j == id)) [
              | inl here ↦ rw here (rw done (ground (arith, ih, find-above id (suc j) m)))
              | inr other ↦ rw other ih
            ])
      | inr late ↦
          rw (late, waits)
            (elim (Bool-cases (j == id)) [
              | inl here ↦ rw here (rw late refl)
              | inr other ↦ rw other ih
            ])
    ]

abbrev zeros : ℕ → List ℕ
zeros s = replicate s 0

length-zeros : (s : ℕ) → length (zeros s) ≡ s
length-zeros s = length-replicate {A = ℕ} s 0

get_or-zeros : (s i : ℕ) → get_or (zeros s) i 0 ≡ zero
get_or-zeros zero i = refl
get_or-zeros (suc s) zero = refl
get_or-zeros (suc s) (suc i) = get_or-zeros s i

abbrev best : Matrix → List ℕ
best nodes = max_rows nodes (zeros (length nodes))

module _ (nodes : Matrix) (id : ℕ) (n : Node) (sq : IsSquare nodes) (found : find id nodes ≡ some n)
    (fits : lacks (best nodes) n.matrix_row < u64) where
  width : length (best nodes) ≡ length nodes
  width = length-max_rows nodes (zeros (length nodes)) ∙ length-zeros (length nodes)

  le_best :
      (b i : ℕ) (n' : Node)
      → i < length nodes
      → find b nodes ≡ some n'
      → get_or n'.matrix_row i 0 ≤ get_or (best nodes) i 0
  le_best b i n' h e =
      max_rows-le b nodes (zeros (length nodes)) i n'
        (omega (arith, h, length-zeros (length nodes))) e

  count : missing 0 (best nodes) n.matrix_row ≡ lacks (best nodes) n.matrix_row
  count = omega (
    arith,
    missing-lacks 0 (best nodes) n.matrix_row
        (λ i h. le_best id i n (omega (arith, h, width)) found) (omega (arith, fits)),
  )

  lacks-Behind : 0 < lacks (best nodes) n.matrix_row → Behind nodes n
  lacks-Behind h =
      let (i, inside, less) = lacks-some (best nodes) n.matrix_row h in
      elim (max_rows-known 0 nodes (zeros (length nodes)) i sq.ordered
        (omega (arith, inside, width, length-zeros (length nodes)))) [
          | inl start ↦ absurd (omega (arith, start, less, get_or-zeros (length nodes) i))
          | inr (b, n', e, known) ↦ (b, i, n', e, omega (arith, known, less))
        ]

  Behind-lacks : Behind nodes n → 0 < lacks (best nodes) n.matrix_row
  Behind-lacks (b, i, n', e, less) =
      let mine = find-Rows (length nodes) id nodes n sq.rows found in
      let theirs = find-Rows (length nodes) b nodes n' sq.rows e in
      let inside : i < length nodes = elim (Bool-cases (ltb i (length nodes))) [
        | inl in_range ↦ ltb→lt _ _ in_range
        | inr past ↦ absurd (
            omega (
              arith,
              less,
              get_or-past n'.matrix_row i (omega (arith, theirs, ltb-false _ _ past)),
            ))
      ] in
      lacks-pos (best nodes) n.matrix_row i (omega (arith, inside, width))
        (omega (arith, inside, mine)) (omega (arith, less, le_best b i n' inside e))

-- The queue names exactly the nodes that are behind: a node is in it if, and only if, some node knows a
-- command that it does not know. The matrix is square, and the number of commands that the node
-- lacks fits a size_t.
pub queue-Behind :
    (nodes : Matrix) (id : ℕ) (n : Node)
    → IsSquare nodes
    → find id nodes ≡ some n
    → lacks (best nodes) n.matrix_row < u64
    → (has id (keys (queue nodes)) ≡ true) ↔ Behind nodes n
unfolding queue
queue-Behind nodes id n sq found fits =
    let entry : has id (keys (waits (best nodes) nodes))
        ≡ not (missing 0 (best nodes) n.matrix_row == 0) =
      has-waits (best nodes) 0 id nodes sq.ordered ∙ rw found refl in
    let same = count nodes id n sq found fits in
    (
      λ h. lacks-Behind nodes id n sq found fits (ground (arith, entry, same)),
      λ h. ground (arith, entry, same, Behind-lacks nodes id n sq found fits h),
    )
