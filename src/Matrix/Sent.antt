-- ===== src/Matrix/Sent.antt =====
-- A matrix that is sent arrives.
use distadm.Prelude.{
  ℕ, zero, suc, ◌+◌, ◌*◌, ◌≤◌, ◌<◌, ◌≡◌, refl, sym, subst, ap, ◌∙◌, true, false, some, List, [],
  ◌∷◌, ◌++◌, append_assoc, append-nil, map, length, length-append, take, drop, take-append,
  drop-append, All, arith, ltb, ◌==◌,
}
use distadm.Matrix.{Node, Matrix, default_node, ids, upsert}
use distadm.Matrix.Shape.{Ascends, Rows, IsSquare}
use distadm.Matrix.Cells.{length-ids}
use distadm.Matrix.Wire.{
  Word, mtx_cells, netmsgcnts, proto_vers, cmds_to_exec, write, write_vld, with_first, read_sizes,
  read_uuids, read_shorts, check_hash, fill, read, set_cmds, read_vld,
}

read_sizes-map :
    (xs : List ℕ) (s : List Word) (r : ℕ)
    → length xs ≡ r
    → read_sizes r (map Word.size xs ++ s) ≡ some (xs, s)
unfolding read_sizes
read_sizes-map [] s zero h = refl
read_sizes-map [] s (suc r) h = absurd (omega (arith, h))
read_sizes-map (x ∷ xs) s zero h = absurd (omega (arith, h))
read_sizes-map (x ∷ xs) s (suc r) h = ap (with_first x) (read_sizes-map xs s r (omega (arith, h)))

read_uuids-map :
    (xs : List ℕ) (s : List Word) (r : ℕ)
    → length xs ≡ r
    → read_uuids r (map Word.uuid xs ++ s) ≡ some (xs, s)
unfolding read_uuids
read_uuids-map [] s zero h = refl
read_uuids-map [] s (suc r) h = absurd (omega (arith, h))
read_uuids-map (x ∷ xs) s zero h = absurd (omega (arith, h))
read_uuids-map (x ∷ xs) s (suc r) h = ap (with_first x) (read_uuids-map xs s r (omega (arith, h)))

read_shorts-map :
    (xs : List ℕ) (s : List Word) (r : ℕ)
    → length xs ≡ r
    → read_shorts r (map Word.short xs ++ s) ≡ some (xs, s)
unfolding read_shorts
read_shorts-map [] s zero h = refl
read_shorts-map [] s (suc r) h = absurd (omega (arith, h))
read_shorts-map (x ∷ xs) s zero h = absurd (omega (arith, h))
read_shorts-map (x ∷ xs) s (suc r) h = ap (with_first x) (read_shorts-map xs s r (omega (arith, h)))

length-mtx_cells : (w : ℕ) (m : Matrix) → Rows w m → length (mtx_cells m) ≡ length m * w
unfolding mtx_cells
length-mtx_cells w [] h = omega arith
length-mtx_cells w ((id, n) ∷ m) h =
    let more : suc (length m) * w ≡ w + length m * w = grind arith in
    omega (arith, length-append n.matrix_row (mtx_cells m), h.0, length-mtx_cells w m h.1, more)

length-netmsgcnts : (m : Matrix) → length (netmsgcnts m) ≡ length m
unfolding netmsgcnts
length-netmsgcnts [] = refl
length-netmsgcnts ((id, n) ∷ m) = ap suc (length-netmsgcnts m)

length-proto_vers : (m : Matrix) → length (proto_vers m) ≡ length m
unfolding proto_vers
length-proto_vers [] = refl
length-proto_vers ((id, n) ∷ m) = ap suc (length-proto_vers m)

length-cmds_to_exec : (m : Matrix) → length (cmds_to_exec m) ≡ length m
unfolding cmds_to_exec
length-cmds_to_exec [] = refl
length-cmds_to_exec ((id, n) ∷ m) = ap suc (length-cmds_to_exec m)

-- What arrives of a node: its row and its counters, and the rest as of a new node
abbrev pub sent_node : Node → Node
sent_node n = record default_node {
  matrix_row = n.matrix_row;
  netmsgcnt = n.netmsgcnt;
  proto_ver = n.proto_ver;
}

abbrev pub sent : Matrix → Matrix
sent [] = []
sent ((id, n) ∷ m) = (id, sent_node n) ∷ sent m

-- A key above all others goes to the end.
upsert-last :
    (id : ℕ) (f : Node → Node) (m : Matrix)
    → All (λ k. k < id) (ids m)
    → upsert id f m ≡ m ++ (id, f default_node) ∷ []
unfolding upsert
upsert-last id f [] h = refl
upsert-last id f ((j, n) ∷ m) h =
    let apart : (j == id) ≡ false = ground (arith, h.0) in
    let above : ltb id j ≡ false = ground (arith, h.0) in
    rw (apart, above) (ap (◌∷◌ (j, n)) (upsert-last id f m h.1))

below-append :
    (lo id : ℕ) (n : Node) (m : Matrix)
    → All (λ k. k < lo) (ids m)
    → lo ≤ id
    → All (λ k. k < suc id) (ids (m ++ (id, n) ∷ []))
below-append lo id n [] h l = (omega arith, tt)
below-append lo id n ((j, n') ∷ m) h l = (omega (arith, h.0, l), below-append lo id n m h.1 l)

below-le : (lo id : ℕ) (ks : List ℕ) → lo ≤ id → All (λ k. k < lo) ks → All (λ k. k < id) ks
below-le lo id [] l h = tt
below-le lo id (k ∷ ks) l h = (omega (arith, h.0, l), below-le lo id ks l h.1)

fill-sent :
    (w lo : ℕ) (m acc : Matrix)
    → Rows w m
    → Ascends lo (ids m)
    → All (λ k. k < lo) (ids acc)
    → fill w (ids m) (mtx_cells m) (netmsgcnts m) (proto_vers m) acc ≡ acc ++ sent m
unfolding fill mtx_cells netmsgcnts proto_vers
fill-sent w lo [] acc h a b = sym (append-nil acc)
fill-sent w lo ((id, n) ∷ m) acc h a b =
    let row = n.matrix_row in
    let taken : take w (row ++ mtx_cells m) ≡ row =
      subst (λ k. take k (row ++ mtx_cells m) ≡ row) h.0 (take-append row (mtx_cells m)) in
    let dropped : drop w (row ++ mtx_cells m) ≡ mtx_cells m =
      subst (λ k. drop k (row ++ mtx_cells m) ≡ mtx_cells m) h.0 (drop-append row (mtx_cells m)) in
    let put : Node → Node =
      λ x. record x { matrix_row = row; netmsgcnt = n.netmsgcnt; proto_ver = n.proto_ver } in
    let last : upsert id put acc ≡ acc ++ (id, put default_node) ∷ [] =
      upsert-last id put acc (below-le lo id (ids acc) a.0 b) in
    let further =
      fill-sent w (suc id) m (acc ++ (id, sent_node n) ∷ []) h.1 a.1
        (below-append lo id (sent_node n) acc b a.0) in
    rw (taken, dropped)
      (ap (fill w (ids m) (mtx_cells m) (netmsgcnts m) (proto_vers m)) last
        ∙ further
        ∙ append_assoc acc ((id, sent_node n) ∷ []) (sent m))

-- The stream in the order in which it is read
write-append :
    (m : Matrix) (s : List Word)
    → write m ++ s
      ≡ Word.size (length m)
        ∷ Word.hash true
        ∷ (map Word.uuid (ids m)
            ++ (map Word.size (mtx_cells m)
                ++ (map Word.size (netmsgcnts m)
                    ++ (map Word.short (proto_vers m) ++ (Word.hash true ∷ s)))))
unfolding write
write-append m s = simp append_assoc

-- A square matrix that is sent is read as it was, with its rows and its counters, and what follows it in
-- the stream is left; the fields that are not sent are those of a new node.
pub read-write : (m : Matrix) (s : List Word) → IsSquare m → read (write m ++ s) ≡ some (sent m, s)
unfolding read check_hash
read-write m s sq =
    let r = length m in
    let cells_size = length-mtx_cells r m sq.rows in
    rw (write-append m s) (
      rw (read_uuids-map (ids m) _ r (length-ids m)) (
        rw (read_sizes-map (mtx_cells m) _ (r * r) cells_size) (
          rw (read_sizes-map (netmsgcnts m) _ r (length-netmsgcnts m)) (
            rw (read_shorts-map (proto_vers m) _ r (length-proto_vers m))
              (ap (λ x. some (x, s)) (fill-sent r 0 m [] sq.rows sq.ordered tt))))))

-- What arrives of a matrix that is sent with the numbers of the next commands
abbrev pub sent_vld : Matrix → Matrix
sent_vld [] = []
sent_vld ((id, n) ∷ m) =
    (id, record (sent_node n) { command_to_exec = n.command_to_exec }) ∷ sent_vld m

set_cmds-sent : (m : Matrix) → set_cmds (sent m) (cmds_to_exec m) ≡ sent_vld m
unfolding set_cmds cmds_to_exec
set_cmds-sent [] = refl
set_cmds-sent ((id, n) ∷ m) =
    ap (◌∷◌ (id, record (sent_node n) { command_to_exec = n.command_to_exec })) (set_cmds-sent m)

length-sent : (m : Matrix) → length (sent m) ≡ length m
length-sent [] = refl
length-sent ((id, n) ∷ m) = ap suc (length-sent m)

write_vld-append :
    (m : Matrix) (s : List Word)
    → write_vld m ++ s ≡ write m ++ (map Word.size (cmds_to_exec m) ++ (Word.hash true ∷ s))
unfolding write_vld
write_vld-append m s = simp append_assoc

read_vld-sent :
    (m : Matrix) (s : List Word)
    → IsSquare m
    → read_vld (write m ++ (map Word.size (cmds_to_exec m) ++ (Word.hash true ∷ s)))
      ≡ some (sent_vld m, s)
unfolding read_vld check_hash
read_vld-sent m s sq =
    let counted = length-cmds_to_exec m ∙ sym (length-sent m) in
    rw (read-write m (map Word.size (cmds_to_exec m) ++ (Word.hash true ∷ s)) sq) (
      rw (read_sizes-map (cmds_to_exec m) (Word.hash true ∷ s) (length (sent m)) counted)
        (ap (λ x. some (x, s)) (set_cmds-sent m)))

-- A square matrix that is sent with the numbers of the next commands is read with them: its rows, its
-- counters and these numbers are as they were, and what follows it in the stream is left.
pub read_vld-write_vld :
    (m : Matrix) (s : List Word) → IsSquare m → read_vld (write_vld m ++ s) ≡ some (sent_vld m, s)
read_vld-write_vld m s sq = ap read_vld (write_vld-append m s) ∙ read_vld-sent m s sq
