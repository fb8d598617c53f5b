-- ===== src/Session/ReplayIds.antt =====
-- The replay ids of the control envelope, from `next_tls_auth_pid` to the peer's replay window.
use just_another_vpn_server.Prelude.{
  ℕ, zero, suc, ◌+◌, ◌^◌, ◌<◌, ◌≡◌, refl, ap, ap₂, ◌∙◌, true, false, List, [], ◌∷◌, arith, ◌==◌,
  replicate, lt→ltb,
}
use just_another_vpn_server.Replay.{ReplayWindow, check_and_set, verdicts}
use just_another_vpn_server.Session.{Session}
use just_another_vpn_server.Session.Control.{next_tls_auth_pid}

-- The first `n` ids that a session hands out.
abbrev pub handed_out : {Conn : Type 0} → ℕ → Session Conn → List ℕ
handed_out zero s = []
handed_out (suc n) s = (next_tls_auth_pid s).1 ∷ handed_out n (next_tls_auth_pid s).0

abbrev pub count_up : ℕ → ℕ → List ℕ
count_up p zero = []
count_up p (suc n) = p ∷ count_up (p + 1) n

next_pid :
    {Conn : Type 0} (s : Session Conn)
    → s.tls_auth_pid_out + 1 < 2 ^ 32
    → next_tls_auth_pid s
      ≡ (record s { tls_auth_pid_out = s.tls_auth_pid_out + 1 }, s.tls_auth_pid_out)
unfolding next_tls_auth_pid
next_pid s h = rw (lt→ltb _ _ h) refl

pub handed_out-count_up :
    {Conn : Type 0} (n : ℕ) (s : Session Conn)
    → s.tls_auth_pid_out + n < 2 ^ 32
    → handed_out n s ≡ count_up s.tls_auth_pid_out n
handed_out-count_up zero s h = refl
handed_out-count_up {Conn} (suc n) s h =
    let s1 : Session Conn = record s { tls_auth_pid_out = s.tls_auth_pid_out + 1 } in
    ap (λ r. r.1 ∷ handed_out n r.0) (next_pid s (omega arith))
    ∙ ap (◌∷◌ s.tls_auth_pid_out) (handed_out-count_up n s1 (omega arith))

-- A window accepts an id above all it has seen, which then is the highest.
pub check_and_set-above :
    (w : ReplayWindow) (p : ℕ)
    → w.highest < p
    → ((check_and_set w p).1 ≡ true) × ((check_and_set w p).0.highest ≡ p)
unfolding check_and_set
check_and_set-above w p h =
    let nz : (p == 0) ≡ false = ground arith in rw (nz, lt→ltb w.highest p h) (refl, refl)

pub verdicts-count_up :
    (w : ReplayWindow) (p n : ℕ) → w.highest < p → verdicts w (count_up p n) ≡ replicate n true
unfolding verdicts
verdicts-count_up w p zero h = refl
verdicts-count_up w p (suc n) h =
    let (good, top) = check_and_set-above w p h in
    ap₂ (◌∷◌) good (verdicts-count_up (check_and_set w p).0 (p + 1) n (omega arith))

-- A peer whose window has seen no id as high as the session's next one accepts all ids that the
-- session hands out, retransmissions included, up to the wrap-around of the 32-bit counter.
pub handed_out-accepted :
    {Conn : Type 0} (w : ReplayWindow) (n : ℕ) (s : Session Conn)
    → w.highest < s.tls_auth_pid_out
    → s.tls_auth_pid_out + n < 2 ^ 32
    → verdicts w (handed_out n s) ≡ replicate n true
handed_out-accepted w n s h bound =
    ap (verdicts w) (handed_out-count_up n s bound) ∙ verdicts-count_up w s.tls_auth_pid_out n h
