-- ===== src/Interactive/Table.antt =====
-- `incm_list` of incm.cpp, and Core::incm_help, which prints its keys.
use text.Mathlib.Text.{◌==◌ as str_eq}
use distadm.Prelude.{String, Option, none, some, List, [], ◌∷◌, ◌++◌, if◌then◌else◌}
use distadm.Core.{Core}
use distadm.Interactive.{Shell, Piece, Outcome, says, translated}

-- The member functions of the table
pub data Incm : Type 0 where
  help status local_id delnode listnodes nodesinfo listonline addfile delfile deldir : Incm
  dellog exec showexec showlog delexec antivirus adduser deluser listusers : Incm
  listfiles write_off_invite write_on_invite join fin_invite cancel_invite : Incm
  read_packet write_packet queue stored_commands : Incm

-- The entries in the order of iteration; nullptr is `none`.
abbrev pub incm_list : List (String × Option Incm)
incm_list =
    ("addfile", some Incm.addfile)
    ∷ ("adduser", some Incm.adduser)
    ∷ ("antivirus", some Incm.antivirus)
    ∷ ("cancel-invite", some Incm.cancel_invite)
    ∷ ("deldir", some Incm.deldir)
    ∷ ("delexec", some Incm.delexec)
    ∷ ("delfile", some Incm.delfile)
    ∷ ("dellog", some Incm.dellog)
    ∷ ("delnode", some Incm.delnode)
    ∷ ("deluser", some Incm.deluser)
    ∷ ("exec", some Incm.exec)
    ∷ ("exit", none)
    ∷ ("finalize-invite", some Incm.fin_invite)
    ∷ ("help", some Incm.help)
    ∷ ("join-group", some Incm.join)
    ∷ ("listfiles", some Incm.listfiles)
    ∷ ("listnodes", some Incm.listnodes)
    ∷ ("listonline", some Incm.listonline)
    ∷ ("listusers", some Incm.listusers)
    ∷ ("local-id", some Incm.local_id)
    ∷ ("nodesinfo", some Incm.nodesinfo)
    ∷ ("queue", some Incm.queue)
    ∷ ("read-packet", some Incm.read_packet)
    ∷ ("showexec", some Incm.showexec)
    ∷ ("showlog", some Incm.showlog)
    ∷ ("status", some Incm.status)
    ∷ ("stored-commands", some Incm.stored_commands)
    ∷ ("write-offline-invite", some Incm.write_off_invite)
    ∷ ("write-online-invite", some Incm.write_on_invite)
    ∷ ("write-packet", some Incm.write_packet)
    ∷ []

-- std::map::find: `none` is the end of the map.
unfoldable pub lookup : String → List (String × Option Incm) → Option (Option Incm)
lookup name [] = none
lookup name ((key, value) ∷ list) = if str_eq key name then some value else lookup name list

unfoldable print_keys : List (String × Option Incm) → List Piece
print_keys [] = []
print_keys ((key, value) ∷ list) = Piece.written key ∷ Piece.written "\n" ∷ print_keys list

unfoldable pub incm_help : Shell → Core → Outcome
unfolding print_keys
incm_help sh c =
    says c (translated sh "Available commands" ++ Piece.written ":\n" ∷ print_keys incm_list)
