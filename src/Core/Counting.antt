-- ===== src/Core/Counting.antt =====
-- The loop of Core::add_cmd over consecutive numbers ends, and finds the first unknown one.
use distadm.Prelude.{
  ℕ, zero, suc, ◌+◌, ◌≤◌, ◌<◌, ◌≡◌, true, false, List, [], ◌∷◌, length, All, leb, ◌==◌, ◌&&◌,
  if◌then◌else◌, arith, Bool-cases, ==→eq, inl, inr,
}
use distadm.Messages.{Msg, u64, inc64, has_msg}
use distadm.Core.Receive.{next_unknown}

-- The numbers of the messages leave room for one more increment of a size_t.
abbrev pub InRange : List Msg → Type 0
InRange ms = All (λ m. m.msg_number + 1 < u64) ms

count_from : ℕ → ℕ → List Msg → ℕ
count_from id number [] = 0
count_from id number (m ∷ ms) =
    let rest = count_from id number ms in
    if m.node_id == id && leb number m.msg_number then suc rest else rest

count_from-le : (id number : ℕ) (ms : List Msg) → count_from id number ms ≤ length ms
unfolding count_from
count_from-le id number [] = omega arith
count_from-le id number (m ∷ ms) = ground (arith, count_from-le id number ms)

count_from_mono :
    (id number : ℕ) (ms : List Msg) → count_from id (suc number) ms ≤ count_from id number ms
unfolding count_from
count_from_mono id number [] = omega arith
count_from_mono id number (m ∷ ms) = ground (arith, count_from_mono id number ms)

count_from-lt :
    (id number : ℕ) (ms : List Msg)
    → has_msg id number ms ≡ true
    → count_from id (suc number) ms < count_from id number ms
unfolding count_from has_msg
count_from-lt id number [] h = cc
count_from-lt id number (m ∷ ms) h =
    ground (arith, count_from_mono id number ms, count_from-lt id number ms)

has_msg-InRange :
    (id number : ℕ) (ms : List Msg)
    → InRange ms
    → has_msg id number ms ≡ true
    → inc64 number ≡ suc number
unfolding has_msg inc64
has_msg-InRange id number [] r h = cc
has_msg-InRange id number (m ∷ ms) r h = ground (arith, has_msg-InRange id number ms r.1)

-- `next` is the first number from `number` on that no message of `id` has.
pub record Consecutive (id number next : ℕ) (ms : List Msg) : Type 0 where
  pub after : number ≤ next
  pub stops : has_msg id next ms ≡ false
  pub between : (k : ℕ) → number ≤ k → k < next → has_msg id k ms ≡ true

next_unknown-fuel :
    (fuel id number : ℕ) (ms : List Msg)
    → InRange ms
    → count_from id number ms < fuel
    → Consecutive id number (next_unknown fuel id number ms) ms
unfolding next_unknown
next_unknown-fuel zero id number ms r h = absurd (omega arith)
next_unknown-fuel (suc fuel) id number ms r h = elim (Bool-cases (has_msg id number ms)) [
  | inl found ↦
      let ih =
        next_unknown-fuel fuel id (suc number) ms r
          (omega (arith, count_from-lt id number ms found)) in
      rw (found, next_unknown)
        (rw (has_msg-InRange id number ms r found) (record {
          after = omega (arith, ih.after);
          stops = ih.stops;
          between = λ k h₁ h₂. elim (Bool-cases (k == number)) [
            | inl first ↦ rw (==→eq k number first) found
            | inr later ↦ ih.between k (ground arith) h₂
          ];
        }))
  | inr unknown ↦
      rw (unknown, next_unknown)
        (record { after = omega arith; stops = unknown; between = λ k h₁ h₂. absurd (omega arith) })
]

-- With one round for each message and one more, the loop of `add_cmd` stops at the first number,
-- from the one it starts with, that no message of the author has: every number before it has
-- one. The numbers of the messages leave room for an increment.
pub next_unknown_lem :
    (id number : ℕ) (ms : List Msg)
    → InRange ms
    → Consecutive id number (next_unknown (suc (length ms)) id number ms) ms
next_unknown_lem id number ms r =
    next_unknown-fuel (suc (length ms)) id number ms r (omega (arith, count_from-le id number ms))
