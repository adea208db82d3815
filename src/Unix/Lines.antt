-- ===== src/Unix/Lines.antt =====
-- A line over the Unix socket that comes in pieces.
use distadm.Prelude.{ℕ, ◌≡◌, refl, ap, ◌∙◌, true, false, List, [], ◌∷◌, ◌++◌, append_assoc, ◌==◌}
use distadm.Unix.{Arrival, Line, getline, Back, getline_reply}

-- The pieces of a text, each with its last byte apart
abbrev pub Pieces : Type 0
Pieces = List (List ℕ × ℕ)

abbrev pub reads : Pieces → List Arrival → List Arrival
reads [] more = more
reads ((bytes, last) ∷ pieces) more = Arrival.got bytes last ∷ reads pieces more

abbrev pub joined : Pieces → List ℕ → List ℕ
joined [] end = end
joined ((bytes, last) ∷ pieces) end = (bytes ++ last ∷ []) ++ joined pieces end

-- No piece ends with the byte `ch`.
abbrev pub Avoids : ℕ → Pieces → Type 0
Avoids ch [] = Unit
Avoids ch ((bytes, last) ∷ pieces) = ((last == ch) ≡ false) × Avoids ch pieces

-- No read fails, and the session is not stopped.
abbrev pub IsQuiet : List Arrival → Type 0
IsQuiet [] = Unit
IsQuiet (Arrival.failed ∷ more) = ⊥
IsQuiet (Arrival.stopped ∷ more) = ⊥
IsQuiet (r ∷ more) = IsQuiet more

getline-reads :
    (pieces : Pieces) (res end : List ℕ) (more : List Arrival)
    → Avoids 10 pieces
    → getline false res (reads pieces (Arrival.got end 10 ∷ more))
      ≡ Line.line true (res ++ joined pieces end) false more
unfolding getline
getline-reads [] res end more h = refl
getline-reads ((bytes, last) ∷ pieces) res end more (e, h) = rw e (
    getline-reads pieces (res ++ (bytes ++ last ∷ [])) end more h
    ∙ ap (λ x. Line.line true x false more)
        (append_assoc res (bytes ++ last ∷ []) (joined pieces end)))

getline_reply-reads :
    (pieces : Pieces) (res end : List ℕ) (more : List Arrival)
    → Avoids 4 pieces
    → getline_reply res (reads pieces (Arrival.got end 4 ∷ more))
      ≡ Back.reply true (res ++ joined pieces end) more
unfolding getline_reply
getline_reply-reads [] res end more h = refl
getline_reply-reads ((bytes, last) ∷ pieces) res end more (e, h) = rw e (
    getline_reply-reads pieces (res ++ (bytes ++ last ∷ [])) end more h
    ∙ ap (λ x. Back.reply true x more) (append_assoc res (bytes ++ last ∷ []) (joined pieces end)))

-- Once errno is EINTR, no read ends the loop.
getline_deaf : (res : List ℕ) (rs : List Arrival) → IsQuiet rs → getline true res rs ≡ Line.starves
unfolding getline
getline_deaf res [] h = refl
getline_deaf res (Arrival.got bytes last ∷ more) h = getline_deaf res more h
getline_deaf res (Arrival.closed ∷ more) h = getline_deaf res more h
getline_deaf res (Arrival.interrupted ∷ more) h = getline_deaf res more h
getline_deaf res (Arrival.failed ∷ more) h = absurd h
getline_deaf res (Arrival.stopped ∷ more) h = absurd h

IsQuiet-reads : (pieces : Pieces) (more : List Arrival) → IsQuiet more → IsQuiet (reads pieces more)
IsQuiet-reads [] more h = h
IsQuiet-reads ((bytes, last) ∷ pieces) more h = IsQuiet-reads pieces more h

-- A line that comes in any pieces, of which only the last one ends with a line end, is what a session of the
-- daemon gets, and the reads behind it are left. But where errno is EINTR from before, or the first
-- read is interrupted, the same reads give nothing: the session waits on, also when the peer has
-- closed, until a read fails or the session is stopped.
pub getline-arrives :
    (pieces : Pieces) (end : List ℕ) (more : List Arrival)
    → Avoids 10 pieces
    → IsQuiet more
    → (getline false [] (reads pieces (Arrival.got end 10 ∷ more))
        ≡ Line.line true (joined pieces end) false more)
      × (getline true [] (reads pieces (Arrival.got end 10 ∷ more)) ≡ Line.starves)
      × (getline false [] (Arrival.interrupted ∷ reads pieces (Arrival.got end 10 ∷ more))
          ≡ Line.starves)
unfolding getline
getline-arrives pieces end more h quiet =
    let all_quiet = IsQuiet-reads pieces (Arrival.got end 10 ∷ more) quiet in
    let deaf = getline_deaf [] (reads pieces (Arrival.got end 10 ∷ more)) all_quiet in
    (getline-reads pieces [] end more h, deaf, deaf)
