-- ===== src/Interactive/Members.antt =====
-- The member functions that are modelled, as `incm_list` calls them. The others, and std::sort, are
-- arguments.
use distadm.Prelude.{ℕ, String, Bool, true, false, Option, some, List, [], ◌∷◌}
use distadm.Interactive.{
  Shell, incm_status, incm_delnode, incm_delfile, incm_deldir, incm_exec, incm_delexec, incm_dellog,
  incm_adduser, incm_deluser,
}
use distadm.Interactive.Segments.{incm_addfile}
use distadm.Interactive.Queue.{incm_queue, incm_nodesinfo}
use distadm.Interactive.Listings.{incm_showexec}
use distadm.Interactive.Table.{Incm, incm_list, lookup, incm_help}
use distadm.Interactive.Dispatch.{Members}

unfoldable pub member : Shell → (List (ℕ × ℕ) → List (ℕ × ℕ)) → Members → Members
unfolding incm_status incm_delnode incm_delfile incm_deldir incm_exec incm_delexec incm_dellog
    incm_adduser incm_deluser incm_addfile incm_queue incm_nodesinfo incm_showexec incm_help
member sh sort others Incm.help c param = incm_help sh c
member sh sort others Incm.status c param = incm_status c
member sh sort others Incm.delnode c param = incm_delnode sh c param
member sh sort others Incm.nodesinfo c param = incm_nodesinfo sh c
member sh sort others Incm.addfile c param = incm_addfile sh c param
member sh sort others Incm.delfile c param = incm_delfile sh c param
member sh sort others Incm.deldir c param = incm_deldir sh c param
member sh sort others Incm.dellog c param = incm_dellog sh c
member sh sort others Incm.exec c param = incm_exec sh c param
member sh sort others Incm.showexec c param = incm_showexec sh c param
member sh sort others Incm.delexec c param = incm_delexec sh c param
member sh sort others Incm.adduser c param = incm_adduser sh c param
member sh sort others Incm.deluser c param = incm_deluser sh c param
member sh sort others Incm.queue c param = incm_queue sort sh c
member sh sort others f c param = others f c param

-- Which member functions are modelled
abbrev pub is_modelled : Incm → Bool
is_modelled Incm.help = true
is_modelled Incm.status = true
is_modelled Incm.delnode = true
is_modelled Incm.nodesinfo = true
is_modelled Incm.addfile = true
is_modelled Incm.delfile = true
is_modelled Incm.deldir = true
is_modelled Incm.dellog = true
is_modelled Incm.exec = true
is_modelled Incm.showexec = true
is_modelled Incm.delexec = true
is_modelled Incm.adduser = true
is_modelled Incm.deluser = true
is_modelled Incm.queue = true
is_modelled f = false

abbrev pub found_modelled : Option (Option Incm) → Bool
found_modelled (some (some f)) = is_modelled f
found_modelled other = true

-- Whether a line calls no other member function
abbrev pub is_modelled_line : List String → Bool
is_modelled_line [] = true
is_modelled_line (word ∷ words) = found_modelled (lookup word incm_list)
