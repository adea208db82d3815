-- ===== src/Dates/Reading.antt =====
-- The text of a time says which time it is.
use distadm.Prelude.{
  ℕ, ◌+◌, ◌-◌, ◌*◌, ◌/◌, ◌%◌, ◌<◌, ◌≡◌, refl, Option, none, some, List, [], ◌∷◌, arith,
}
use distadm.Dates.{Tm, char_of, datetime_add}

-- A time of the calendar, in years of four digits
pub record IsTime (st : Tm) : Type 0 where
  pub year : st.tm_year + 1900 < 10000
  pub mon : st.tm_mon < 12
  pub mday : st.tm_mday < 32
  pub hour : st.tm_hour < 24
  pub min : st.tm_min < 60
  pub sec : st.tm_sec < 61

abbrev digit : ℕ → ℕ
digit ch = ch - b'0'

-- The time that a text of 19 bytes names, by its digits
abbrev pub time_of : List ℕ → Option Tm
time_of
      (y3 ∷ y2 ∷ y1 ∷ y0 ∷ p ∷ m1 ∷ m0 ∷ q ∷ d1 ∷ d0 ∷ s ∷ h1 ∷ h0 ∷ c ∷ n1 ∷ n0 ∷ e ∷ s1 ∷ s0
        ∷ []) =
    some (record {
      tm_year = digit y3 * 1000 + digit y2 * 100 + digit y1 * 10 + digit y0 - 1900;
      tm_mon = digit m1 * 10 + digit m0 - 1;
      tm_mday = digit d1 * 10 + digit d0;
      tm_hour = digit h1 * 10 + digit h0;
      tm_min = digit n1 * 10 + digit n0;
      tm_sec = digit s1 * 10 + digit s0;
    })
time_of text = none

two_digits : (x : ℕ) → x < 100 → digit (char_of (x / 10)) * 10 + digit (char_of (x % 10)) ≡ x
two_digits x h = omega (arith, h)

four_digits :
    (y : ℕ)
    → y < 10000
    → digit (char_of (y / 10 / 10 / 10)) * 1000
        + digit (char_of (y / 10 / 10 % 10)) * 100
        + digit (char_of (y / 10 % 10)) * 10
        + digit (char_of (y % 10))
      ≡ y
four_digits y h = omega (arith, h)

-- The text of a time, read by its digits, is the time: no field is cut off, so that the texts of two times
-- are equal only if the times are. The time is of the calendar and its year has four digits.
pub datetime_add-time_of : (st : Tm) → IsTime st → time_of (datetime_add st) ≡ some st
unfolding datetime_add
datetime_add-time_of st t =
    let year : st.tm_year + 1900 - 1900 ≡ st.tm_year = omega arith in
    let mon : st.tm_mon + 1 - 1 ≡ st.tm_mon = omega arith in
    rw
      (
        four_digits (st.tm_year + 1900) t.year,
        two_digits (st.tm_mon + 1) (omega (arith, t.mon)),
        two_digits st.tm_mday (omega (arith, t.mday)),
        two_digits st.tm_hour (omega (arith, t.hour)),
        two_digits st.tm_min (omega (arith, t.min)),
        two_digits st.tm_sec (omega (arith, t.sec)),
      )
      (rw (year, mon) refl)
