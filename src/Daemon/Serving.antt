-- ===== src/Daemon/Serving.antt =====
-- What becomes of the connection that is passed to the server thread.
use distadm.Prelude.{ℕ, ◌≡◌, ◌≢◌, refl, Bool, true, false, ◌∷◌, ◌||◌, Bool-cases, arith, inl, inr}
use distadm.Net.{TcpHeloMsg}
use distadm.Daemon.{Phase, Daemon, notified, Turn, Turns, serve, end_act, wait}

-- While server_act runs, the server is marked as busy.
abbrev Marked : Daemon → Type 0
Marked d = d.server ≡ Phase.acting → d.server_busy ≡ true

Turn-Marked : (d d' : Daemon) → Turn d d' → Marked d → Marked d'
unfolding serve end_act wait
Turn-Marked d _ (Turn.connects _ weak p_in ad fd) m = elim (Bool-cases (d.server_busy || weak)) [
  | inl refused ↦ rw (refused, serve) m
  | inr taken ↦ rw (taken, serve) (λ h. refl)
]
Turn-Marked d _ (Turn.ends _ working acting) m = λ h. absurd cc
Turn-Marked d _ (Turn.waits_again _ returning) m = λ h. absurd cc

Turns-Marked : (d d' : Daemon) → Turns d d' → Marked d → Marked d'
Turns-Marked d _ (Turns.stays _) m = m
Turns-Marked d d' (Turns.moves _ d₁ _ turn further) m =
    Turns-Marked d₁ d' further (Turn-Marked d d₁ turn m)

-- A connection that comes while another is served does not disturb it: whatever has happened since
-- the server thread waited, while server_act runs a new connection is refused and closed, and the
-- connection that is served and its hello stay the ones that were passed.
pub serve-acting :
    (start d : Daemon) (weak : Bool) (p_in : TcpHeloMsg) (ad fd : ℕ)
    → start.server ≡ Phase.waiting
    → Turns start d
    → d.server ≡ Phase.acting
    → ((serve weak p_in ad fd d).1 ≡ false)
      × ((serve weak p_in ad fd d).0.pass_server_fd ≡ d.pass_server_fd)
      × ((serve weak p_in ad fd d).0.serv_helo ≡ d.serv_helo)
      × ((serve weak p_in ad fd d).0.server ≡ Phase.acting)
      × ((serve weak p_in ad fd d).0.closed ≡ fd ∷ d.closed)
unfolding serve
serve-acting start d weak p_in ad fd waits turns acting =
    let busy = Turns-Marked start d turns (λ h. absurd (cc)) acting in
    let refused : (d.server_busy || weak) ≡ true = ground (arith, busy) in
    rw (refused, serve) (refl, refl, refl, acting, refl)

-- Busy, and no thread is at work.
record Stuck (d : Daemon) : Type 0 where
  pub busy : d.server_busy ≡ true
  pub idle : d.server ≢ Phase.acting

Turn-Stuck : (d d' : Daemon) → Turn d d' → Stuck d → Stuck d'
unfolding serve wait
Turn-Stuck d _ (Turn.connects _ weak p_in ad fd) k =
    let refused : (d.server_busy || weak) ≡ true = ground (arith, k.busy) in
    rw (refused, serve) (record { busy = k.busy; idle = k.idle })
Turn-Stuck d _ (Turn.ends _ working acting) k = absurd (k.idle acting)
Turn-Stuck d _ (Turn.waits_again _ returning) k = record { busy = k.busy; idle = λ h. cc }

Turns-Stuck : (d d' : Daemon) → Turns d d' → Stuck d → Stuck d'
Turns-Stuck d _ (Turns.stays _) k = k
Turns-Stuck d d' (Turns.moves _ d₁ _ turn further) k =
    Turns-Stuck d₁ d' further (Turn-Stuck d d₁ turn k)

unanswered : (p : Phase) → p ≡ Phase.returning → notified p ≢ Phase.acting
unanswered Phase.waiting h a = cc
unanswered Phase.acting h a = cc
unanswered Phase.returning h a = cc

taken-Stuck :
    (d : Daemon) (p_in : TcpHeloMsg) (ad fd : ℕ)
    → d.server ≡ Phase.returning
    → d.server_busy ≡ false
    → ((serve false p_in ad fd d).1 ≡ true) × Stuck (serve false p_in ad fd d).0
unfolding serve
taken-Stuck d p_in ad fd returning free =
    let taken : (d.server_busy || false) ≡ false = ground (arith, free) in
    rw (taken, serve) (refl, record { busy = refl; idle = unanswered d.server returning })

-- A connection that is taken while the server thread is on its way back into `wait` is lost, and the
-- server with it: its notification wakes nobody, and every connection after that is refused, whatever
-- happens, as long as a wait does not end by itself and the daemon is not started anew.
pub serve-returning :
    (d d' : Daemon) (p_in : TcpHeloMsg) (ad fd : ℕ) (weak : Bool) (p_in' : TcpHeloMsg) (ad' fd' : ℕ)
    → d.server ≡ Phase.returning
    → d.server_busy ≡ false
    → Turns (serve false p_in ad fd d).0 d'
    → ((serve false p_in ad fd d).1 ≡ true) × ((serve weak p_in' ad' fd' d').1 ≡ false)
unfolding serve
serve-returning d d' p_in ad fd weak p_in' ad' fd' returning free turns =
    let (taken, k) = taken-Stuck d p_in ad fd returning free in
    let later = Turns-Stuck _ d' turns k in
    let refused : (d'.server_busy || weak) ≡ true = ground (arith, later.busy) in
    (taken, rw (refused, serve) refl)
