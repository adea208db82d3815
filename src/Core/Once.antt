-- ===== src/Core/Once.antt =====
-- A node tells the group of a change once.
use text.Mathlib.Text.{◌==◌ as str_eq}
use text.Mathlib.TextEquality.{eq_iff}
use distadm.Prelude.{
  ℕ, ◌≡◌, refl, ap, Bool, true, false, List, [], ◌∷◌, ◌==◌, arith, Bool-cases, Option-cases, inl,
  inr, ==_refl,
}
use distadm.Matrix.{node_offset}
use distadm.Messages.{Body}
use distadm.Core.{Core, NodeInfo, is_active, set_my_cell}
use distadm.Core.Create.{add_own, create_command}
use distadm.Core.Commands.{info, set_info, with_info}
use distadm.Core.Info.{Facts, update_hostname}

info-set_info :
    (id : ℕ) (f : NodeInfo → NodeInfo) (l : List (ℕ × NodeInfo))
    → info id (set_info id f l) ≡ f (info id l)
unfolding info set_info
info-set_info id f [] = rw (==_refl id) refl
info-set_info id f ((j, i) ∷ l) = elim (Bool-cases (j == id)) [
  | inl same ↦ rw same (rw same refl)
  | inr other ↦ rw other (rw other (info-set_info id f l))
]

-- What a created command leaves of the state
pub record Untouched (c c' : Core) : Type 0 where
  pub same_id : c'.my_id ≡ c.my_id
  same_info : c'.state_nodes ≡ c.state_nodes
  same_status : c'.status ≡ c.status

create_command-Untouched :
    (c : Core) (body : Body) (deps : Bool) → Untouched c (create_command c body deps)
unfolding create_command add_own set_my_cell
create_command-Untouched c body deps = elim (Bool-cases (is_active c.status)) [
  | inr passive ↦ rw passive (record { same_id = refl; same_info = refl; same_status = refl })
  | inl active ↦ rw active (elim (Option-cases (node_offset c.nodes c.my_id)) [
    | inl absent ↦
        rw (absent, add_own) (record { same_id = refl; same_info = refl; same_status = refl })
    | inr (i, at_i) ↦
        rw (at_i, add_own) (record { same_id = refl; same_info = refl; same_status = refl })
  ])
]

-- A state whose record has the name already is left as it is.
update_hostname_known :
    (facts : Facts) (c : Core)
    → str_eq (info c.my_id c.state_nodes).hostname facts.new_hostname ≡ true
    → update_hostname facts c ≡ c
unfolding update_hostname
update_hostname_known facts c h = elim (Bool-cases (is_active c.status)) [
  | inl active ↦ rw active (rw h refl)
  | inr passive ↦ rw passive refl
]

update_hostname_passive :
    (facts : Facts) (c : Core) → is_active c.status ≡ false → update_hostname facts c ≡ c
unfolding update_hostname
update_hostname_passive facts c h = rw h refl

abbrev renamed : Facts → Core → Core
renamed facts c = with_info c.my_id (λ i. record i { hostname = facts.new_hostname }) c

abbrev Tells : Facts → Core → Type 0
Tells facts c = str_eq (info c.my_id c.state_nodes).hostname facts.new_hostname ≡ true

update_hostname_new :
    (facts : Facts) (c : Core)
    → is_active c.status ≡ true
    → str_eq (info c.my_id c.state_nodes).hostname facts.new_hostname ≡ false
    → update_hostname facts c
      ≡ create_command (renamed facts c) (Body.sethostname facts.new_hostname) false
unfolding update_hostname
update_hostname_new facts c active other = rw active (rw other refl)

Tells-create_command :
    (facts : Facts) (c : Core) (body : Body) (deps : Bool)
    → Tells facts c
    → Tells facts (create_command c body deps)
Tells-create_command facts c body deps h =
    let u = create_command-Untouched c body deps in rw u.same_id (rw u.same_info h)

Tells-renamed : (facts : Facts) (c : Core) → Tells facts (renamed facts c)
unfolding set_info
Tells-renamed facts c =
    rw info-set_info (ground (arith, eq_iff facts.new_hostname facts.new_hostname))

-- An active node has the name on record afterwards.
update_hostname_told :
    (facts : Facts) (c : Core) → is_active c.status ≡ true → Tells facts (update_hostname facts c)
update_hostname_told facts c active =
    elim (Bool-cases (str_eq (info c.my_id c.state_nodes).hostname facts.new_hostname)) [
      | inl same ↦ rw (update_hostname_known facts c same) same
      | inr other ↦ rw (update_hostname_new facts c active other) (
          Tells-create_command facts (renamed facts c) (Body.sethostname facts.new_hostname) false
            (Tells-renamed facts c))
    ]

-- The name of the machine is told once: after `update_hostname` another call with the same name
-- changes nothing, and creates no command.
pub update_hostname_once :
    (facts : Facts) (c : Core)
    → update_hostname facts (update_hostname facts c) ≡ update_hostname facts c
update_hostname_once facts c = elim (Bool-cases (is_active c.status)) [
  | inl active ↦
      update_hostname_known facts (update_hostname facts c) (update_hostname_told facts c active)
  | inr passive ↦ ap (update_hostname facts) (update_hostname_passive facts c passive)
]
