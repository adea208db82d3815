-- ===== src/Config/Saved.antt =====
-- The packet file that a user chooses is there at the next start.
use distadm.Prelude.{
  ℕ, ◌≡◌, refl, ap, ◌∙◌, true, false, Bool-cases, inl, inr, Option, some, List, [], ◌∷◌, ◌++◌,
  bytes, same_bytes, same_bytes→eq, ◌==◌, if◌then◌else◌,
}
use distadm.Text.{isspace}
use distadm.Config.{Config}
use distadm.Config.Numbers.{skip_space}
use distadm.Config.Load.{split2, lines, in_front, load_packet_file, load_home, set_packet_file}

-- No line ends in the text.
abbrev pub IsLine : List ℕ → Type 0
IsLine [] = Unit
IsLine (ch ∷ s) = ((ch == 10) ≡ false) × IsLine s

-- The text does not begin with a space.
abbrev pub IsFlush : List ℕ → Type 0
IsFlush [] = Unit
IsFlush (ch ∷ s) = isspace ch ≡ false

lines_one : (ch : ℕ) (s : List ℕ) → IsLine (ch ∷ s) → lines (ch ∷ s) ≡ (ch ∷ s) ∷ []
unfolding lines
lines_one ch [] (e, h) = rw e refl
lines_one ch (x ∷ s) (e, h) = rw e (ap (in_front ch) (lines_one x s h))

skip_space_flush : (s : List ℕ) → IsFlush s → skip_space s ≡ s
skip_space_flush [] h = refl
skip_space_flush (ch ∷ s) h = rw h refl

saved : List ℕ → List ℕ
saved fn = bytes "packet-file " ++ fn

split2-saved : (fn : List ℕ) → IsFlush fn → split2 (saved fn) ≡ (bytes "packet-file", fn)
unfolding split2 saved
split2-saved fn h = ap (λ s. (bytes "packet-file", s)) (skip_space_flush fn h)

lines-saved : (fn : List ℕ) → IsLine fn → lines (saved fn) ≡ saved fn ∷ []
unfolding saved
lines-saved fn h = lines_one b'p' (bytes "acket-file " ++ fn) (
  refl,
  (refl, (refl, (refl, (refl, (refl, (refl, (refl, (refl, (refl, (refl, (refl, h))))))))))),
)

load_home-saved :
    (fn : List ℕ) (d : Config)
    → IsLine fn
    → IsFlush fn
    → (load_home (some (saved fn)) d).packet_file ≡ fn
unfolding load_home load_packet_file
load_home-saved fn d line flush =
    ap (λ ls. (load_packet_file ls d).packet_file) (lines-saved fn line)
    ∙ ap
        (λ p.
          (if same_bytes p.0 (bytes "packet-file")
            then record d { packet_file = p.1 }
            else d).packet_file)
        (split2-saved fn flush)

-- Where the file of the user names the packet file in use, it does so behind a choice of another one: what
-- is loaded at the next start is the file chosen, also where it was in use already and nothing is
-- written. The file of the user can be written, and the name does not begin with a space and has no line
-- end in it.
pub load_home-set_packet_file :
    (fn : List ℕ) (c d : Config) (home : Option (List ℕ))
    → IsLine fn
    → IsFlush fn
    → (load_home home d).packet_file ≡ c.packet_file
    → ((load_home (set_packet_file true fn c home).1 d).packet_file ≡ fn)
      × ((set_packet_file true fn c home).0.packet_file ≡ fn)
unfolding set_packet_file saved
load_home-set_packet_file fn c d home line flush in_use =
    elim (Bool-cases (same_bytes c.packet_file fn)) [
      | inl same ↦
          let equal = same_bytes→eq c.packet_file fn same in rw same (in_use ∙ equal, equal)
      | inr other ↦ rw other (load_home-saved fn d line flush, refl)
    ]
