-- ===== src/Interactive/Segments.antt =====
-- Core::incm_addfile of incm.cpp: a file is announced in segments.
use distadm.Prelude.{
  ℕ, zero, suc, ◌+◌, ◌-◌, ◌*◌, ◌/◌, ◌%◌, String, true, none, some, List, [], ◌∷◌, ◌==◌,
  if◌then◌else◌,
}
use distadm.Messages.{Body, u64}
use distadm.Core.{Core}
use distadm.Core.Create.{create_command}
use distadm.Interactive.{Shell, Outcome, says, translated}

-- `(fsize - 1) / cfg.files_granularity`: the difference is an off_t, which the division takes for a size_t.
unfoldable pub last_segment : ℕ → ℕ → ℕ
last_segment fsize granularity = (if fsize == 0 then u64 - 1 else fsize - 1) / granularity

-- The loop from `i` on, with `rounds` rounds left
unfoldable pub add_segments : ℕ → ℕ → ℕ → String → Core → Core
unfolding create_command
add_segments zero i granularity fn c = c
add_segments (suc rounds) i granularity fn c =
    let segment = some (i * granularity % u64, (i + 1) * granularity % u64) in
    add_segments rounds (i + 1) granularity fn (create_command c (Body.addfile fn segment) true)

unfoldable pub add_file : ℕ → ℕ → String → Core → Core
unfolding last_segment add_segments
add_file fsize granularity fn c =
    let j = last_segment fsize granularity in
    create_command (add_segments j 0 granularity fn c)
      (Body.addfile fn (some (j * granularity % u64, fsize))) true

-- Core::incm_addfile for the words after the first two guards
unfoldable pub addfile_by : Shell → Core → List String → Outcome
unfolding add_file
addfile_by sh c param =
    let rel_fn = sh.rel_fn param in
    elim sh.files_granularity [
      | none ↦ says (create_command c (Body.addfile rel_fn none) true) (translated sh "File added")
      | some granularity ↦ elim (sh.file_size rel_fn) [
        | none ↦ record { core = c; out = []; thrown = some "file_size" }
        | some fsize ↦ says (add_file fsize granularity rel_fn c) (translated sh "File added")
      ]
    ]

unfoldable pub incm_addfile : Shell → Core → List String → Outcome
unfolding addfile_by
incm_addfile sh c (cmd ∷ name ∷ rest) = addfile_by sh c (cmd ∷ name ∷ rest)
incm_addfile sh c param = says c []
