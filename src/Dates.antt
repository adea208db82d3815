-- ===== src/Dates.antt =====
-- locdatetime.cpp: the text of a time. localtime_r, which makes the fields of a time, is a parameter: the
-- functions are of the fields.
pub mod Reading
use distadm.Prelude.{ℕ, ◌+◌, ◌/◌, ◌%◌, List, [], ◌∷◌, ◌++◌}

-- struct tm, as far as it is used
pub record Tm : Type 0 where
  pub tm_year : ℕ
  pub tm_mon : ℕ
  pub tm_mday : ℕ
  pub tm_hour : ℕ
  pub tm_min : ℕ
  pub tm_sec : ℕ

-- `x + '0'`, which a char holds
abbrev pub char_of : ℕ → ℕ
char_of x = (x + b'0') % 256

-- `x / 10 + '0'` and `x % 10 + '0'`
abbrev pub two : ℕ → List ℕ → List ℕ
two x rest = char_of (x / 10) ∷ char_of (x % 10) ∷ rest

-- The four chars that the divisions of `st.tm_year` fill from the last one on
abbrev pub four : ℕ → List ℕ → List ℕ
four y rest =
    let y' = y / 10 in
    let y'' = y' / 10 in
    char_of (y'' / 10) ∷ char_of (y'' % 10) ∷ char_of (y' % 10) ∷ char_of (y % 10) ∷ rest

-- `buf` of date_add
unfoldable pub date_add : Tm → List ℕ
date_add st =
    let mon = st.tm_mon + 1 in
    let year = st.tm_year + 1900 in four year (b'.' ∷ two mon (b'.' ∷ two st.tm_mday []))

-- `buf` of datetime_add
unfoldable pub datetime_add : Tm → List ℕ
datetime_add st =
    let mon = st.tm_mon + 1 in
    let year = st.tm_year + 1900 in
    let time = two st.tm_hour (b':' ∷ two st.tm_min (b':' ∷ two st.tm_sec [])) in
    four year (b'.' ∷ two mon (b'.' ∷ two st.tm_mday (b' ' ∷ time)))

-- `s + h` and `s += h` for a locdate and for a loctime
unfoldable append_date : List ℕ → Tm → List ℕ
unfolding date_add
append_date s st = s ++ date_add st

unfoldable append_datetime : List ℕ → Tm → List ℕ
unfolding datetime_add
append_datetime s st = s ++ datetime_add st
