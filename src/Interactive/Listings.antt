-- ===== src/Interactive/Listings.antt =====
-- Core::incm_showexec and Core::incm_help of incm.cpp. What follows the names in the help is the table.
use Prim.Native.String.{◌++◌ as str_append, slice, len}
use text.Mathlib.Text.{◌==◌ as str_eq}
use distadm.Prelude.{String, not, List, [], ◌∷◌, ◌++◌, ◌-◌, ◌&&◌, if◌then◌else◌}
use distadm.Core.{Core, Executed}
use distadm.Core.Commands.{nodename}
use distadm.Interactive.{Shell, Piece, Outcome, says}

-- `if (out.empty() || out.back() != '\n') out += '\n';`
unfoldable end_line : String → String
end_line out = if str_eq (slice out (len out - 1) (len out)) "\n" then out else str_append out "\n"

unfoldable show_exec : Shell → Core → Executed → List Piece
unfolding nodename end_line
show_exec sh c rec =
    Piece.written "=========================\n"
    ∷ Piece.written (sh.translate "Command")
    ∷ Piece.written ": "
    ∷ Piece.written rec.cmd
    ∷ Piece.written "\n"
    ∷ Piece.written (sh.translate "Node")
    ∷ Piece.written ": "
    ∷ Piece.written (nodename sh.env c rec.uuid)
    ∷ Piece.written "\n"
    ∷ Piece.written (sh.translate "Date")
    ∷ Piece.written ": "
    ∷ Piece.written rec.date
    ∷ Piece.written "\n-------------------------\n"
    ∷ Piece.written (end_line rec.output)
    ∷ []

-- The loop over `state["exec"]`
unfoldable show_execs : Shell → Core → String → List Executed → List Piece
unfolding show_exec
show_execs sh c filter [] = []
show_execs sh c filter (rec ∷ execs) =
    let rest = show_execs sh c filter execs in
    if not (str_eq filter "") && not (str_eq rec.cmd filter)
    then rest
    else show_exec sh c rec ++ rest

unfoldable pub incm_showexec : Shell → Core → List String → Outcome
unfolding show_execs
incm_showexec sh c (cmd ∷ filter ∷ rest) = says c (show_execs sh c filter c.execs)
incm_showexec sh c param = says c (show_execs sh c "" c.execs)
