-- ===== src/Messages/Members.antt =====
-- Which messages a set has after an insertion.
use distadm.Prelude.{
  map, Bool-cases, inl, inr, ap₂, ℕ, ◌≡◌, refl, Bool, true, false, List, [], ◌∷◌, ◌||◌, arith,
  Option, none, some,
}
use distadm.Messages.{valid, read_msg, Msg, is_id, find_msg, has_msg, insert_msg}

-- After an insertion the set has what it had, and the new message.
pub has_msg-insert_msg :
    (id number : ℕ) (m : Msg) (ms : List Msg)
    → has_msg id number (insert_msg m ms) ≡ (is_id id number m || has_msg id number ms)
unfolding has_msg insert_msg
has_msg-insert_msg id number m [] = refl
has_msg-insert_msg id number m (x ∷ ms) = ground (arith, has_msg-insert_msg id number m ms)

abbrev is_some : Option Msg → Bool
is_some none = false
is_some (some m) = true

has_msg-find_msg :
    (id number : ℕ) (ms : List Msg) → has_msg id number ms ≡ is_some (find_msg id number ms)
unfolding has_msg find_msg
has_msg-find_msg id number [] = refl
has_msg-find_msg id number (m ∷ ms) = ground (arith, has_msg-find_msg id number ms)

-- What is read keeps its id.
pub read_msg-id :
    (m : Msg) → ((read_msg m).node_id ≡ m.node_id) × ((read_msg m).msg_number ≡ m.msg_number)
unfolding read_msg
read_msg-id m = elim (Bool-cases (valid m.value)) [
  | inl fine ↦ rw fine (refl, refl)
  | inr bad ↦ rw bad (refl, refl)
]

is_id-read_msg : (a k : ℕ) (m : Msg) → is_id a k (read_msg m) ≡ is_id a k m
unfolding is_id read_msg
is_id-read_msg a k m = elim (Bool-cases (valid m.value)) [
  | inl fine ↦ rw fine refl
  | inr bad ↦ rw bad refl
]

pub has_msg-read_msg : (a k : ℕ) (ms : List Msg) → has_msg a k (map read_msg ms) ≡ has_msg a k ms
unfolding has_msg
has_msg-read_msg a k [] = refl
has_msg-read_msg a k (m ∷ ms) = ap₂ (λ x y. x || y) (is_id-read_msg a k m) (has_msg-read_msg a k ms)
