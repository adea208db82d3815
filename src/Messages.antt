-- ===== src/Messages.antt =====
-- struct MsgId and struct Msg of core.h, and `std::set<Msg>`, which is the list of its elements in
-- their order. The JSON value of a command is the fields that the program reads of it: one
-- constructor for each name in the table of commands.cpp, a UUID text that does not parse is 0.
pub mod Members
use distadm.Prelude.{
  ℕ, ◌+◌, ◌%◌, ◌^◌, String, Bool, true, false, Option, none, some, List, [], ◌∷◌, ltb, leb, ◌==◌,
  ◌||◌, ◌&&◌, not, if◌then◌else◌,
}

-- `x++` on a size_t
abbrev pub u64 : ℕ
u64 = 2 ^ 64

unfoldable pub inc64 : ℕ → ℕ
inc64 x = (x + 1) % u64

pub data Body : Type 0 where
  bad_message dellog : Body
  addnode delnoderecord : ℕ → Body
  -- `val`, and `force == true`
  delnode : ℕ → Bool → Body
  sethostname online delfile deldir delexec adduser deluser unknown : String → Body
  -- `filename`, and `from` and `to` if both are there
  addfile : String → Option (ℕ × ℕ) → Body
  exec : List String → Body
  -- `cmd`, `date`, `output`
  executed : String → String → String → Body
  -- `updated`, `scanned`, `found`
  antivirus : String → String → Bool → Body
  smart : Bool → Body

pub record Msg : Type 0 where
  pub node_id : ℕ
  pub msg_number : ℕ
  pub value : Body
  pub depends : List (ℕ × ℕ)

-- MsgId::operator<
unfoldable pub less : Msg → Msg → Bool
less a b = ltb a.node_id b.node_id || (a.node_id == b.node_id && ltb a.msg_number b.msg_number)

unfoldable pub is_id : ℕ → ℕ → Msg → Bool
is_id id number m = m.node_id == id && m.msg_number == number

-- std::set::find, by the id of the message
unfoldable pub find_msg : ℕ → ℕ → List Msg → Option Msg
unfolding is_id
find_msg id number [] = none
find_msg id number (m ∷ ms) = if is_id id number m then some m else find_msg id number ms

unfoldable pub has_msg : ℕ → ℕ → List Msg → Bool
unfolding is_id
has_msg id number [] = false
has_msg id number (m ∷ ms) = is_id id number m || has_msg id number ms

-- std::set::insert: an element that is there stays.
unfoldable pub insert_msg : Msg → List Msg → List Msg
unfolding is_id less
insert_msg m [] = m ∷ []
insert_msg m (x ∷ ms) =
    let rest = insert_msg m ms in
    if is_id m.node_id m.msg_number x then x ∷ ms else if less m x then m ∷ x ∷ ms else x ∷ rest

-- Msg::valid, on the fields that it tests: a segment does not end before it begins
unfoldable pub valid : Body → Bool
valid (addfile filename (some (from, to))) = leb from to
valid value = true

-- Msg::Msg(const Json::Value&): an invalid value becomes a bad message, with no dependencies.
unfoldable pub read_msg : Msg → Msg
unfolding valid
read_msg m = if valid m.value then m else record m { value = bad_message; depends = [] }
