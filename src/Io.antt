-- ===== src/Io.antt =====
-- The loops of utils.cpp over read(2) and write(2): readfile, readsome, writefile, read_nb,
-- write_nb. What the kernel replies is a parameter: one reply for each call, in the order of the calls.
pub mod Whole
pub mod Buffer
pub mod Content
pub mod Written
use distadm.Prelude.{
  ℕ, zero, suc, ◌-◌, Bool, true, false, List, [], ◌∷◌, ◌++◌, length, take, drop, min,
}

-- The reply to one call. `moves k` moves k + 1 bytes where so many are wanted and there; `stops` is
-- EINTR with `prog_status` set to something else than ProgramStatus::work.
pub data Reply : Type 0 where
  moves : ℕ → Reply
  interrupted again failed stops : Reply

-- How a loop ends; `blocked` means that the replies have run out and the call is still blocked.
pub data Done (A : Type 0) : Type 0 where
  ok : A → List Reply → Done A
  thrown : Done A
  blocked : Done A

-- What is read, and what is left of the file
abbrev pub Got : Type 0
Got = List ℕ × List ℕ

abbrev pub with_chunk : List ℕ → Done Got → Done Got
with_chunk chunk (ok (bytes, rest) more) = ok (chunk ++ bytes, rest) more
with_chunk chunk thrown = thrown
with_chunk chunk blocked = blocked

-- readfile of `n` bytes: the loop at the rest of the file
unfoldable pub readfile : List Reply → ℕ → List ℕ → Done Got
readfile more zero src = ok ([], src) more
readfile [] (suc n) src = blocked
readfile (moves k ∷ more) (suc n) [] = ok ([], []) more
readfile (moves k ∷ more) (suc n) (b ∷ src) =
    let chunk = take (min k n) src in
    with_chunk (b ∷ chunk) (readfile more (n - length chunk) (drop (min k n) src))
readfile (interrupted ∷ more) (suc n) src = readfile more (suc n) src
readfile (again ∷ more) (suc n) src = thrown
readfile (failed ∷ more) (suc n) src = thrown
readfile (stops ∷ more) (suc n) src = thrown

-- readsome: the first reply that is no interruption
unfoldable pub readsome : List Reply → ℕ → List ℕ → Done Got
readsome [] n src = blocked
readsome (moves k ∷ more) n src = ok (take (min (suc k) n) src, drop (min (suc k) n) src) more
readsome (interrupted ∷ more) n src = readsome more n src
readsome (again ∷ more) n src = thrown
readsome (failed ∷ more) n src = thrown
readsome (stops ∷ more) n src = thrown

-- writefile: what the file has after it
unfoldable pub writefile : List Reply → List ℕ → List ℕ → Done (List ℕ)
writefile more [] sink = ok sink more
writefile [] (b ∷ src) sink = blocked
writefile (moves k ∷ more) (b ∷ src) sink = writefile more (drop k src) (sink ++ b ∷ take k src)
writefile (interrupted ∷ more) (b ∷ src) sink = writefile more (b ∷ src) sink
writefile (again ∷ more) (b ∷ src) sink = thrown
writefile (failed ∷ more) (b ∷ src) sink = thrown
writefile (stops ∷ more) (b ∷ src) sink = thrown

-- read_nb, with the test on EAGAIN as it is written: any other error ends the loop, and EAGAIN throws.
unfoldable pub read_nb : List Reply → ℕ → List ℕ → Done Got
read_nb more zero src = ok ([], src) more
read_nb [] (suc n) src = blocked
read_nb (moves k ∷ more) (suc n) [] = ok ([], []) more
read_nb (moves k ∷ more) (suc n) (b ∷ src) =
    let chunk = take (min k n) src in
    with_chunk (b ∷ chunk) (read_nb more (n - length chunk) (drop (min k n) src))
read_nb (interrupted ∷ more) (suc n) src = ok ([], src) more
read_nb (failed ∷ more) (suc n) src = ok ([], src) more
read_nb (again ∷ more) (suc n) src = thrown
read_nb (stops ∷ more) (suc n) src = thrown

-- write_nb: how much is written, and what the file has after it
unfoldable pub write_nb : List Reply → List ℕ → List ℕ → Done (List ℕ)
write_nb more [] sink = ok sink more
write_nb [] (b ∷ src) sink = blocked
write_nb (moves k ∷ more) (b ∷ src) sink = write_nb more (drop k src) (sink ++ b ∷ take k src)
write_nb (interrupted ∷ more) (b ∷ src) sink = ok sink more
write_nb (failed ∷ more) (b ∷ src) sink = ok sink more
write_nb (again ∷ more) (b ∷ src) sink = thrown
write_nb (stops ∷ more) (b ∷ src) sink = thrown
