-- ===== src/Examples/Streams.antt =====
-- Bytes, times and matrices on their way.
use distadm.Prelude.{◌≡◌, some, List, [], ◌∷◌, ◌++◌, arith}
use distadm.Matrix.Wire.{Word, read_vld, write_vld}
use distadm.Matrix.Sent.{sent_vld, read_vld-write_vld}
use distadm.Io.{Reply}
use distadm.Io.Buffer.{Istream, Ostream, read, write}
use distadm.Io.Content.{Reads, read-Reads}
use distadm.Io.Written.{Writes, write-Writes}
use distadm.Dates.{Tm, datetime_add}
use distadm.Dates.Reading.{IsTime, time_of, datetime_add-time_of}
use distadm.Examples.{pair, pair-IsSquare}

abbrev replies : List Reply
replies = Reply.moves 1 ∷ Reply.interrupted ∷ Reply.moves 0 ∷ Reply.moves 9 ∷ Reply.moves 9 ∷ []

abbrev halfway : Istream
halfway = record { cache = 5 ∷ []; rest = 6 ∷ 7 ∷ 8 ∷ [] }

read-Reads_example : Reads 3 replies halfway (read replies 3 halfway)
read-Reads_example = read-Reads replies 3 halfway tt (omega arith) (omega arith) (omega arith)

abbrev held : Ostream
held = record { cache = 5 ∷ []; sink = 4 ∷ [] }

write-Writes_example : Writes (6 ∷ 7 ∷ []) replies held (write replies (6 ∷ 7 ∷ []) held)
write-Writes_example = write-Writes replies (6 ∷ 7 ∷ []) held tt (omega arith) (omega arith)

read_vld-write_vld_example :
    read_vld (write_vld pair ++ Word.size 7 ∷ []) ≡ some (sent_vld pair, Word.size 7 ∷ [])
read_vld-write_vld_example = read_vld-write_vld pair (Word.size 7 ∷ []) pair-IsSquare

abbrev leap_day : Tm
leap_day = record { tm_year = 124; tm_mon = 1; tm_mday = 29; tm_hour = 23; tm_min = 5; tm_sec = 0 }

leap_day-IsTime : IsTime leap_day
leap_day-IsTime = record {
  year = omega arith;
  mon = omega arith;
  mday = omega arith;
  hour = omega arith;
  min = omega arith;
  sec = omega arith;
}

datetime_add-time_of_example : time_of (datetime_add leap_day) ≡ some leap_day
datetime_add-time_of_example = datetime_add-time_of leap_day leap_day-IsTime
