-- ===== src/Helo/Arrives.antt =====
-- A hello that comes or goes in pieces.
use distadm.Prelude.{
  ℕ, ◌+◌, ◌≤◌, ◌<◌, ◌≡◌, refl, sym, ap, ◌∙◌, true, false, not, Option, none, some, List, [], ◌∷◌,
  ltb, ◌==◌, if◌then◌else◌, arith,
}
use distadm.Helo.{Helo, Peer, Answer, finish, arrived, on_read, on_write, polled}

abbrev pub fresh : ℕ → Helo
fresh size = record {
  size_to_write = size;
  written_size = 0;
  read_size = 0;
  decrypted_read = false;
  complete = false;
  pollin = true;
  pollout = true;
  hup = false;
  err = false;
}

-- Where a hello stands of which `n` bytes are there: `none` when the connection is dropped
abbrev pub read_so_far : Peer → ℕ → Helo → Option Helo
read_so_far p n h =
    if ltb n p.header
    then some (record h { read_size = n })
    else if ltb p.max_trash p.trash_size
    then none
    else if ltb n (p.header + p.trash_size)
    then some (record h { read_size = n; decrypted_read = true })
    else if p.hash_right
    then some (record h { read_size = n; decrypted_read = true; pollin = false; complete = true })
    else none

-- The reads give at most what was asked for: they do not go over the end of the header or of the whole.
abbrev pub IsAsked : Peer → ℕ → List Answer → Type 0
IsAsked p n [] = Unit
IsAsked p n (Answer.bytes x ∷ answers) =
    (0 < x)
    × (n + x ≤ (if ltb n p.header then p.header else p.header + p.trash_size))
    × IsAsked p (n + x) answers
IsAsked p n (Answer.again ∷ answers) = IsAsked p n answers
IsAsked p n (a ∷ answers) = ⊥

abbrev pub total : List Answer → ℕ
total [] = 0
total (Answer.bytes x ∷ answers) = x + total answers
total (a ∷ answers) = total answers

polled-none : (p : Peer) (answers : List Answer) → polled p answers none ≡ none
polled-none p [] = refl
polled-none p (a ∷ answers) = refl

step :
    (p : Peer) (n x size : ℕ)
    → 0 < p.header
    → 0 < x
    → n + x ≤ (if ltb n p.header then p.header else p.header + p.trash_size)
    → polled p (Answer.bytes x ∷ []) (read_so_far p n (fresh size))
      ≡ read_so_far p (n + x) (fresh size)
unfolding on_read arrived finish
step p n x size head some_bytes asked = ground arith

again_step :
    (p : Peer) (n size : ℕ)
    → polled p (Answer.again ∷ []) (read_so_far p n (fresh size)) ≡ read_so_far p n (fresh size)
unfolding on_read
again_step p n size = ground arith

polled-cons :
    (p : Peer) (a : Answer) (answers : List Answer) (h : Option Helo)
    → polled p (a ∷ answers) h ≡ polled p answers (polled p (a ∷ []) h)
polled-cons p a answers none = sym (polled-none p answers)
polled-cons p a answers (some h) = refl

polled-more :
    (p : Peer) (n size : ℕ) (answers : List Answer)
    → 0 < p.header
    → IsAsked p n answers
    → polled p answers (read_so_far p n (fresh size))
      ≡ read_so_far p (n + total answers) (fresh size)
polled-more p n size [] head asked = ap (λ m. read_so_far p m (fresh size)) (omega arith)
polled-more p n size (Answer.bytes x ∷ answers) head (some_bytes, fits, asked) =
    polled-cons p (Answer.bytes x) answers (read_so_far p n (fresh size))
    ∙ ap (polled p answers) (step p n x size head some_bytes fits)
    ∙ polled-more p (n + x) size answers head asked
    ∙ ap (λ m. read_so_far p m (fresh size)) (omega arith)
polled-more p n size (Answer.again ∷ answers) head asked =
    polled-cons p Answer.again answers (read_so_far p n (fresh size))
    ∙ ap (polled p answers) (again_step p n size)
    ∙ polled-more p n size answers head asked
polled-more p n size (Answer.closed ∷ answers) head asked = absurd asked
polled-more p n size (Answer.fails ∷ answers) head asked = absurd asked

-- A hello that is read in any pieces, with any number of calls that give nothing between them, stands
-- where the number of its bytes says: it is not complete before the header and the random bytes are
-- all there, then it is complete and no longer polled if its hash is right and the connection is dropped
-- if not. A header that says more random bytes than there is room for drops it at once. The header is not
-- empty, and no read fails, finds the end or gives more than it was asked for.
pub polled-read_so_far :
    (p : Peer) (size : ℕ) (answers : List Answer)
    → 0 < p.header
    → IsAsked p 0 answers
    → polled p answers (some (fresh size)) ≡ read_so_far p (total answers) (fresh size)
polled-read_so_far p size answers head asked =
    let start : some (fresh size) ≡ read_so_far p 0 (fresh size) = ground arith in
    ap (polled p answers) start
    ∙ polled-more p 0 size answers head asked
    ∙ ap (λ m. read_so_far p m (fresh size)) (omega arith)

-- A hello that one write takes whole is no longer polled for writing. In two writes that take `x` and
-- `y` bytes, of which the first leaves some, it is still polled behind the first, and behind the second
-- unless just `x + x + y` is its size: the test compares what is written in all with what was left.
pub on_write_parts :
    (size x y : ℕ)
    → 0 < x
    → x < size
    → 0 < y
    → x + y ≤ size
    → ((on_write (fresh size) (Answer.bytes size)).pollout ≡ false)
      × ((on_write (fresh size) (Answer.bytes x)).pollout ≡ true)
      × ((on_write (on_write (fresh size) (Answer.bytes x)) (Answer.bytes y)).written_size ≡ x + y)
      × ((on_write (on_write (fresh size) (Answer.bytes x)) (Answer.bytes y)).pollout
          ≡ not (x + x + y == size))
unfolding on_write
on_write_parts size x y some_bytes part more fits =
    (ground arith, ground arith, ground arith, ground arith)
