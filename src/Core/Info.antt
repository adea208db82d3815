-- ===== src/Core/Info.antt =====
-- Core::update_info of core.cpp and what it calls: a node tells the group what has changed on its
-- machine. What the machine says, and that a minute has passed, is a parameter.
use text.Mathlib.Text.{◌==◌ as str_eq}
use distadm.Prelude.{
  ℕ, String, ◌/◌, ◌%◌, Bool, true, false, not, Option, none, some, List, [], ◌∷◌, ◌==◌, ◌&&◌, ◌||◌,
  if◌then◌else◌,
}
use distadm.Messages.{Body}
use distadm.Core.{Core, Antivirus, is_active}
use distadm.Core.Create.{create_command}
use distadm.Core.Commands.{info, set_info, with_info}

pub record Facts : Type 0 where
  pub minute_passed : Bool
  -- gethostname, and the date of today
  pub new_hostname : String
  pub today : String
  -- What get_av_string gives, and whether the file of results has a size
  pub av_scanned : String
  pub av_updated : String
  pub av_found : Bool
  -- For each line of `smartctl --scan`: whether `smartctl -H` ran well, and its status
  pub disks : Option (List (Bool × ℕ))

-- Core::update_hostname
unfoldable pub update_hostname : Facts → Core → Core
unfolding info set_info create_command
update_hostname facts c =
    let name = facts.new_hostname in
    let told = with_info c.my_id (λ i. record i { hostname = name }) c in
    if not (is_active c.status)
    then c
    else if str_eq (info c.my_id c.state_nodes).hostname name
    then c
    else create_command told (Body.sethostname name) false

-- Core::update_online
unfoldable update_online : Facts → Core → Core
unfolding info set_info create_command
update_online facts c =
    let dt = facts.today in
    let told = with_info c.my_id (λ i. record i { online = dt }) c in
    if not (is_active c.status)
    then c
    else if str_eq (info c.my_id c.state_nodes).online dt
    then c
    else create_command told (Body.online dt) false

-- `asString(state_nodes[s_my_id]["antivirus"], "updated")`
abbrev updated_of : Option Antivirus → String
updated_of none = ""
updated_of (some rec) = rec.updated

abbrev same_bool : Bool → Bool → Bool
same_bool true b = b
same_bool false b = not b

abbrev same_antivirus : Option Antivirus → String → String → Bool → Bool
same_antivirus none updated scanned found = false
same_antivirus (some rec) updated scanned found =
    str_eq rec.updated updated && str_eq rec.scanned scanned && same_bool rec.found found

-- Core::update_antivirus
unfoldable update_antivirus : Facts → Core → Core
unfolding info set_info create_command
update_antivirus facts c =
    let old = (info c.my_id c.state_nodes).antivirus in
    let updated = if str_eq facts.av_updated "" then updated_of old else facts.av_updated in
    let scanned = facts.av_scanned in
    let found = facts.av_found in
    let rec' : Antivirus = record { updated = updated; scanned = scanned; found = found } in
    let told = with_info c.my_id (λ i. record i { antivirus = some rec' }) c in
    if same_antivirus old updated scanned found
    then c
    else create_command told (Body.antivirus updated scanned found) false

-- A disk fails: the loop of Core::update_smart stops there.
unfoldable any_fails : List (Bool × ℕ) → Bool
any_fails [] = false
any_fails ((ok, status) ∷ l) =
    let rest = any_fails l in if ok || not (status / 16 % 2 == 1) then rest else true

abbrev is_smart : Option Bool → Bool → Bool
is_smart none b = false
is_smart (some a) b = same_bool a b

-- Core::update_smart; the record is written when the command is executed.
unfoldable update_smart : Facts → Core → Core
unfolding info any_fails create_command
update_smart facts c =
    let known = (info c.my_id c.state_nodes).smart in
    elim facts.disks [
      | none ↦ c
      | some l ↦
          let fine = not (any_fails l) in
          if is_smart known fine then c else create_command c (Body.smart fine) false
    ]

-- Core::update_info
unfoldable pub update_info : Facts → Core → Core
unfolding update_hostname update_online update_antivirus update_smart
update_info facts c =
    if is_active c.status && facts.minute_passed
    then update_smart facts (update_antivirus facts (update_online facts (update_hostname facts c)))
    else c
