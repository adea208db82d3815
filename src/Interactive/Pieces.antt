-- ===== src/Interactive/Pieces.antt =====
-- The segments in which "addfile" announces a file cover it without a gap or an overlap.
use native.Mathlib.Nat.{div-add-mod, mod-lt, mod-eq_of_lt}
use distadm.Prelude.{
  ℕ, zero, suc, ◌+◌, ◌-◌, ◌*◌, ◌/◌, ◌%◌, ◌≤◌, ◌<◌, ◌≡◌, refl, sym, ap, ◌∙◌, String, true, false,
  some, List, [], ◌∷◌, ◌==◌, arith,
}
use distadm.Messages.{Body, u64}
use distadm.Core.{Core}
use distadm.Core.Create.{create_command}
use distadm.Interactive.Segments.{last_segment, add_segments, add_file}

-- One "addfile" command for each segment, in order
unfoldable pub announce : String → List (ℕ × ℕ) → Core → Core
unfolding create_command
announce fn [] c = c
announce fn ((from, to) ∷ l) c =
    announce fn l (create_command c (Body.addfile fn (some (from, to))) true)

-- The segments follow each other from `a` to `b`; none is empty or longer than the granularity.
abbrev pub Covers : ℕ → ℕ → ℕ → List (ℕ × ℕ) → Type 0
Covers g a b [] = a ≡ b
Covers g a b ((from, to) ∷ l) = (from ≡ a) × (from < to) × (to ≤ from + g) × Covers g to b l

mul_add : (a b g : ℕ) → (a + b) * g ≡ a * g + b * g
mul_add a b g = grind arith

module _ (fsize g : ℕ) (fn : String) (small : fsize < u64) (positive : 0 < g) where
  segments_from :
      (rounds i j a : ℕ) (c : Core)
      → i + rounds ≡ j
      → a ≡ i * g
      → j * g < fsize
      → fsize ≤ j * g + g
      → (l : List (ℕ × ℕ)) × (create_command
            (add_segments rounds i g fn c)
            (Body.addfile fn (some (j * g % u64, fsize)))
            true
          ≡ announce fn l c)
        × Covers g a fsize l
  unfolding add_segments announce
  segments_from zero i j a c e start low high =
      let same : j ≡ i = omega (arith, e) in
      let at : j * g % u64 ≡ j * g = mod-eq_of_lt (omega (arith, low, small)) in
      let here : j * g ≡ i * g = ap (λ x. x * g) same in
      (
        (j * g % u64, fsize) ∷ [],
        refl,
        (omega (arith, at, here, start), omega (arith, at, low), omega (arith, at, high), refl),
      )
  segments_from (suc rounds) i j a c e start low high =
      let below : (i + 1) * g + rounds * g ≡ j * g =
        sym (mul_add (i + 1) rounds g) ∙ ap (λ x. x * g) (omega (arith, e)) in
      let step : (i + 1) * g ≡ i * g + g = grind arith in
      let from : i * g % u64 ≡ i * g = mod-eq_of_lt (omega (arith, below, step, low, small)) in
      let to : (i + 1) * g % u64 ≡ (i + 1) * g = mod-eq_of_lt (omega (arith, below, low, small)) in
      let body = Body.addfile fn (some (i * g % u64, (i + 1) * g % u64)) in
      let (l, same, chain) =
        segments_from rounds (i + 1) j ((i + 1) * g % u64) (create_command c body true)
          (omega (arith, e)) to low high in
      (
        (i * g % u64, (i + 1) * g % u64) ∷ l,
        same,
        (
          omega (arith, from, start),
          omega (arith, from, to, step, positive),
          omega (arith, from, to, step),
          chain,
        ),
      )

-- A file that is not empty is announced in segments that follow each other from its first byte to its
-- end, none of them empty or longer than the granularity: no byte is left out and none is in two
-- segments. The granularity is not 0 and the size is below 2^64.
pub add_file-Covers :
    (fsize g : ℕ) (fn : String) (c : Core)
    → 0 < fsize
    → fsize < u64
    → 0 < g
    → (l : List (ℕ × ℕ)) × (add_file fsize g fn c ≡ announce fn l c) × Covers g 0 fsize l
unfolding add_file last_segment
add_file-Covers fsize g fn c some_bytes small positive =
    let j = (fsize - 1) / g in
    let split : g * j + (fsize - 1) % g ≡ fsize - 1 = div-add-mod (fsize - 1) g in
    let rest : (fsize - 1) % g < g = mod-lt (fsize - 1) positive in
    let turned : g * j ≡ j * g = grind arith in
    let nonempty : (fsize == 0) ≡ false = ground arith in
    rw nonempty (
      segments_from fsize g fn small positive j 0 j 0 c (omega arith) (omega arith)
        (omega (arith, split, turned)) (omega (arith, split, turned, rest)))
