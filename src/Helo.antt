-- ===== src/Helo.antt =====
-- TCPheloNB of daemon.cpp: the hello that two nodes exchange without blocking, a header of a fixed
-- size and behind it up to `max_trash` random bytes. What the sockets answer is an argument; the
-- length that the peer's header says and whether its hash is right are parameters. The polling loop drops
-- a connection that has POLLERR or POLLHUP in `revents`.
pub mod Arrives
use distadm.Prelude.{
  ℕ, ◌+◌, ◌-◌, ◌≡◌, Bool, true, false, Option, none, some, List, [], ◌∷◌, ltb, leb, ◌==◌, ◌||◌,
  if◌then◌else◌,
}

-- What `read` or `write` answers: so many bytes, none, "not now", or an error
pub data Answer : Type 0 where
  bytes : ℕ → Answer
  closed again fails : Answer

pub record Helo : Type 0 where
  pub size_to_write : ℕ
  pub written_size : ℕ
  pub read_size : ℕ
  pub decrypted_read : Bool
  pub complete : Bool
  -- POLLIN and POLLOUT in `events`
  pub pollin : Bool
  pub pollout : Bool
  -- POLLHUP and POLLERR in `revents`
  pub hup : Bool
  pub err : Bool

pub record Peer : Type 0 where
  pub header : ℕ
  pub max_trash : ℕ
  pub trash_size : ℕ
  pub hash_right : Bool

-- The end of on_read: the hash is checked.
unfoldable pub finish : Peer → Helo → Helo
finish p h =
    if p.hash_right then record h { pollin = false; complete = true } else record h { err = true }

-- on_read after bytes have come and all that was waited for is there
unfoldable pub arrived : Peer → Helo → Helo
unfolding finish
arrived p h =
    let h' = record h {
      decrypted_read = true;
      err = if ltb p.max_trash p.trash_size then true else h.err;
    } in
    if h.decrypted_read then finish p h else if p.trash_size == 0 then finish p h' else h'

-- TCPheloNB::on_read
unfoldable pub on_read : Peer → Helo → Answer → Helo
unfolding arrived
on_read p h (bytes x) =
    let to_read = if leb p.header h.read_size then p.header + p.trash_size else p.header in
    let h' = record h { read_size = h.read_size + x } in
    if ltb (h.read_size + x) to_read then h' else arrived p h'
on_read p h closed = record h { hup = true }
on_read p h again = h
on_read p h fails = record h { err = true }

-- TCPheloNB::on_write
unfoldable pub on_write : Helo → Answer → Helo
on_write h (bytes x) =
    let to_write = h.size_to_write - h.written_size in
    let h' = record h { written_size = h.written_size + x } in
    if h.written_size + x == to_write then record h' { pollout = false; complete = true } else h'
on_write h closed = record h { hup = true }
on_write h again = h
on_write h fails = record h { err = true }

-- The polling loop at one connection behind on_read or on_write: `none` where it is dropped
abbrev pub not_dropped : Helo → Option Helo
not_dropped h = if h.err || h.hup then none else some h

-- The rounds of the polling loop in which the connection can be read, until it is dropped
abbrev pub polled : Peer → List Answer → Option Helo → Option Helo
polled p [] h = h
polled p (a ∷ answers) none = none
polled p (a ∷ answers) (some h) = polled p answers (not_dropped (on_read p h a))
