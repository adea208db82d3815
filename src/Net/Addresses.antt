-- ===== src/Net/Addresses.antt =====
-- The addresses of CoreNet point to nodes that are there.
use distadm.Prelude.{
  ℕ, ◌≡◌, ◌≢◌, refl, ◌∙◌, Bool, Option, none, some, List, [], ◌∷◌, All, ltb, ◌==◌, arith,
  Bool-cases, Option-cases, inl, inr, ==_refl,
}
use distadm.Matrix.{Node, Matrix, find, modify, node_offset, del, erase, erase_column}
use distadm.Core.Rows.{find-modify}
use distadm.Core.Packets as Packets
use distadm.Net.{
  CoreNet, set_ip, add_node, erase_ip, del_addr, points_to, erase_pointers, delnoderecord,
}

-- A pointer is null, or the node that it points to is there.
abbrev PointsToNode : Matrix → Option ℕ → Type 0
PointsToNode nodes none = Unit {0}
PointsToNode nodes (some id) = (n : Node) × (find id nodes ≡ some n)

abbrev pub HasNodes : CoreNet → Type 0
HasNodes c = All (λ e. PointsToNode c.core.nodes e.1) c.ips

module _ (nodes : Matrix) where
  abbrev Sane : List (ℕ × Option ℕ) → Type 0
  Sane l = All (λ e. PointsToNode nodes e.1) l

  set_ip-Sane :
      (ad : ℕ) (p : Option ℕ) (l : List (ℕ × Option ℕ))
      → PointsToNode nodes p
      → Sane l
      → Sane (set_ip ad p l)
  unfolding set_ip
  set_ip-Sane ad p [] h s = (h, tt)
  set_ip-Sane ad p ((x, q) ∷ l) h s = elim (Bool-cases (x == ad)) [
    | inl same ↦ rw same (h, s.1)
    | inr other ↦ rw other (elim (Bool-cases (ltb ad x)) [
      | inl before ↦ rw before (h, s)
      | inr after ↦ rw after (s.0, set_ip-Sane ad p l h s.1)
    ])
  ]

  erase_ip-Sane : (ad : ℕ) (l : List (ℕ × Option ℕ)) → Sane l → Sane (erase_ip ad l)
  unfolding erase_ip
  erase_ip-Sane ad [] s = tt
  erase_ip-Sane ad ((x, q) ∷ l) s = elim (Bool-cases (x == ad)) [
    | inl same ↦ rw same s.1
    | inr other ↦ rw other (s.0, erase_ip-Sane ad l s.1)
  ]

PointsToNode-modify :
    (id : ℕ) (f : Node → Node) (nodes : Matrix) (p : Option ℕ)
    → PointsToNode nodes p
    → PointsToNode (modify id f nodes) p
PointsToNode-modify id f nodes none h = tt
PointsToNode-modify id f nodes (some x) h = elim (Bool-cases (x == id)) [
  | inl same ↦ (f h.0, find-modify id x f nodes ∙ rw same (rw h.1 refl))
  | inr other ↦ (h.0, find-modify id x f nodes ∙ rw other h.1)
]

Sane-modify :
    (id : ℕ) (f : Node → Node) (nodes : Matrix) (l : List (ℕ × Option ℕ))
    → Sane nodes l
    → Sane (modify id f nodes) l
Sane-modify id f nodes [] s = tt
Sane-modify id f nodes ((x, q) ∷ l) s =
    (PointsToNode-modify id f nodes q s.0, Sane-modify id f nodes l s.1)

-- When every pointer is null or to a node that is there, it is so after `add_node`, whatever it
-- is told.
pub add_node-HasNodes :
    (c : CoreNet) (id ad hash : ℕ) (initialized : Bool)
    → HasNodes c
    → HasNodes (add_node c id ad hash initialized)
unfolding add_node
add_node-HasNodes c id ad hash initialized h = elim (Option-cases (find id c.core.nodes)) [
  | inl absent ↦ rw (absent, add_node) (set_ip-Sane c.core.nodes ad none c.ips tt h)
  | inr (n, found) ↦
      rw (found, add_node)
        (set_ip-Sane _ ad (some id) c.ips
          (PointsToNode-modify id _ c.core.nodes (some id) (n, found))
          (Sane-modify id _ c.core.nodes c.ips h))
]

find-erase_other : (id x : ℕ) (m : Matrix) → x ≢ id → find x (erase id m) ≡ find x m
unfolding erase find
find-erase_other id x [] h = refl
find-erase_other id x ((j, n) ∷ m) h = ground (arith, find-erase_other id x m h)

PointsToNode-erase_column :
    (d : ℕ) (nodes : Matrix) (x : ℕ)
    → PointsToNode nodes (some x)
    → PointsToNode (erase_column d nodes) (some x)
unfolding erase_column find
PointsToNode-erase_column d [] x h = absurd (ground (arith, h.1))
PointsToNode-erase_column d ((j, n) ∷ m) x h = elim (Bool-cases (j == x)) [
  | inl same ↦ rw same (_, refl)
  | inr other ↦
      let rest : PointsToNode m (some x) = (h.0, rw other at h.1) in
      let kept = PointsToNode-erase_column d m x rest in (kept.0, rw other kept.1)
]

PointsToNode-del :
    (id x : ℕ) (nodes : Matrix)
    → x ≢ id
    → PointsToNode nodes (some x)
    → PointsToNode (del nodes id) (some x)
unfolding del
PointsToNode-del id x nodes apart h = elim (Option-cases (node_offset nodes id)) [
  | inl absent ↦ rw (absent, del) h
  | inr (d, at_d) ↦
      rw (at_d, del)
        (PointsToNode-erase_column d (erase id nodes) x
          (h.0, find-erase_other id x nodes apart ∙ h.1))
]

erase_pointers-Sane :
    (nodes : Matrix) (id : ℕ) (l : List (ℕ × Option ℕ))
    → Sane nodes l
    → Sane (del nodes id) (erase_pointers id l)
unfolding erase_pointers points_to
erase_pointers-Sane nodes id [] s = tt
erase_pointers-Sane nodes id ((ad, none) ∷ l) s = (tt, erase_pointers-Sane nodes id l s.1)
erase_pointers-Sane nodes id ((ad, some x) ∷ l) s = elim (Bool-cases (x == id)) [
  | inl same ↦ rw same (erase_pointers-Sane nodes id l s.1)
  | inr other ↦ rw other (
    PointsToNode-del id x nodes (λ e. ground (arith, ==_refl id, e, other)) s.0,
    erase_pointers-Sane nodes id l s.1,
  )
]

no_pointer_gone :
    (nodes : Matrix) (id : ℕ) (l : List (ℕ × Option ℕ))
    → find id nodes ≡ none
    → Sane nodes l
    → Sane (del nodes id) l
no_pointer_gone nodes id [] gone s = tt
no_pointer_gone nodes id ((ad, none) ∷ l) gone s = (tt, no_pointer_gone nodes id l gone s.1)
no_pointer_gone nodes id ((ad, some x) ∷ l) gone s = (
  PointsToNode-del id x nodes (λ e. ground (arith, rw e at s.0.1)) s.0,
  no_pointer_gone nodes id l gone s.1,
)

-- When every pointer is null or to a node that is there, it is so after CoreNet's
-- `delnoderecord`: no pointer to the node that it removes is left.
pub delnoderecord-HasNodes : (c : CoreNet) (id : ℕ) → HasNodes c → HasNodes (delnoderecord c id)
unfolding delnoderecord Packets.delnoderecord
delnoderecord-HasNodes c id h = elim (Option-cases (find id c.core.nodes)) [
  | inl absent ↦ rw (absent, delnoderecord) (no_pointer_gone c.core.nodes id c.ips absent h)
  | inr (n, found) ↦ rw (found, delnoderecord) (erase_pointers-Sane c.core.nodes id c.ips h)
]

-- When every pointer is null or to a node that is there, it is so after `del_addr`.
pub del_addr-HasNodes : (c : CoreNet) (ad : ℕ) → HasNodes c → HasNodes (del_addr c ad)
unfolding del_addr
del_addr-HasNodes c ad h = erase_ip-Sane c.core.nodes ad c.ips h
