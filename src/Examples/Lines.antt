-- ===== src/Examples/Lines.antt =====
-- A command that comes over the Unix socket in two pieces.
use distadm.Prelude.{ℕ, ◌≡◌, refl, true, false, List, [], ◌∷◌, bytes}
use distadm.Unix.{Arrival, Line, getline, run}
use distadm.Unix.Lines.{reads, joined, getline-arrives}

abbrev pieces : List (List ℕ × ℕ)
pieces = (bytes "sta", b't') ∷ []

getline-arrives_example :
    (getline false [] (reads pieces (Arrival.got (bytes "us") 10 ∷ Arrival.closed ∷ []))
      ≡ Line.line true (joined pieces (bytes "us")) false (Arrival.closed ∷ []))
    × (getline true [] (reads pieces (Arrival.got (bytes "us") 10 ∷ Arrival.closed ∷ []))
        ≡ Line.starves)
    × (getline false []
          (Arrival.interrupted ∷ reads pieces (Arrival.got (bytes "us") 10 ∷ Arrival.closed ∷ []))
        ≡ Line.starves)
getline-arrives_example = getline-arrives pieces (bytes "us") (Arrival.closed ∷ []) (refl, tt) tt

-- The session answers the command and ends with the connection.
test_run :
    (run 5
      (λ e text. (text, true, false))
      false
      (reads pieces (Arrival.got (bytes "us") 10 ∷ Arrival.closed ∷ []))).answers
    ≡ bytes "status" ∷ []
unfolding run getline
test_run = refl
