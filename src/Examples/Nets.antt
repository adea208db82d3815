-- ===== src/Examples/Nets.antt =====
-- The theorems on the addresses, the requests and the text of a hash.
use distadm.Prelude.{
  some, not, ◌==◌, ◌+◌, false, ℕ, ◌≡◌, true, none, some, List, [], ◌∷◌, map, length, arith,
}
use distadm.Net.{CoreNet}
use distadm.Helo.{bytes, again, Peer, on_write, polled}
use distadm.Helo.Arrives.{fresh, read_so_far, polled-read_so_far, on_write_parts}
use distadm.Hash.{to_string, from_string, swap_halves, from_string-to_string}
use distadm.Examples.{core, waiting}

-- Node 2 is at address 40, an unknown one at 41; nothing, or the message 1 of node 2, is on its way.
abbrev net : List (ℕ × ℕ) → CoreNet
net busy = record {
  core = core waiting;
  ips = (40, some 2) ∷ (41, none) ∷ [];
  downloading_msgs = busy;
}

abbrev digest : List ℕ
digest = 18 ∷ 57 ∷ []

from_string-to_string_example :
    from_string (length digest) (to_string digest) ≡ map swap_halves digest
from_string-to_string_example =
    from_string-to_string digest ((omega arith, omega arith), ((omega arith, omega arith), tt))

-- The peer's hello has a header of 80 and 7 bytes behind it.
abbrev peer : Peer
peer = record { header = 80; max_trash = 1000; trash_size = 7; hash_right = true }

polled-read_so_far_example :
    polled peer (bytes 30 ∷ again ∷ bytes 50 ∷ bytes 7 ∷ []) (some (fresh 100))
    ≡ read_so_far peer 87 (fresh 100)
polled-read_so_far_example =
    polled-read_so_far peer 100 (bytes 30 ∷ again ∷ bytes 50 ∷ bytes 7 ∷ []) (omega arith)
      (omega arith, omega arith, (omega arith, omega arith, (omega arith, omega arith, tt)))

-- 40 and 20 of 100 bytes: the hello counts as written though 40 bytes are left.
on_write_parts_example :
    ((on_write (fresh 100) (bytes 100)).pollout ≡ false)
    × ((on_write (fresh 100) (bytes 40)).pollout ≡ true)
    × ((on_write (on_write (fresh 100) (bytes 40)) (bytes 20)).written_size ≡ 60)
    × ((on_write (on_write (fresh 100) (bytes 40)) (bytes 20)).pollout ≡ not (40 + 40 + 20 == 100))
on_write_parts_example =
    on_write_parts 100 40 20 (omega arith) (omega arith) (omega arith) (omega arith)
