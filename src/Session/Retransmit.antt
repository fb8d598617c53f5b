-- ===== src/Session/Retransmit.antt =====
-- The retransmission timer: when a packet is sent again, and how often at most.
use just_another_vpn_server.Prelude.{
  ℕ, ◌+◌, ◌-◌, ◌*◌, ◌^◌, ◌≤◌, ◌<◌, min, ◌≡◌, refl, ap, Bool, false, List, [], ◌∷◌, ◌++◌, map, arith,
  ltb, leb, if◌then◌else◌, retain, length, All, Bool-cases, inl, inr, length-append,
}
use just_another_vpn_server.Session.{Session, Unacked, control_max_attempts}
use just_another_vpn_server.Session.Control.{bump, stale_unacked}

-- The wait before the next attempt: it doubles with each one, up to 32 times the base.
abbrev pub backoff : ℕ → Unacked → ℕ
backoff base_rto u = base_rto * 2 ^ min (u.attempts - 1) 5

-- An entry is sent again if it has attempts left and has waited.
abbrev pub is_due : ℕ → ℕ → Unacked → Bool
is_due now base_rto u =
    if ltb u.attempts control_max_attempts
    then leb (backoff base_rto u) (now - u.sent_at)
    else false

due-bump :
    (now base_rto : ℕ) (us : List Unacked)
    → (bump now base_rto (retain (λ u. ltb u.attempts control_max_attempts) us)).1
      ≡ map (λ u. u.encoded) (retain (is_due now base_rto) us)
unfolding bump
due-bump now base_rto [] = refl
due-bump now base_rto (u ∷ us) = elim (Bool-cases (ltb u.attempts 6)) [
  | inr spent ↦ rw spent (due-bump now base_rto us)
  | inl left ↦ elim (Bool-cases (leb (backoff base_rto u) (now - u.sent_at))) [
    | inl t ↦ rw (left, t) (ap (◌∷◌ u.encoded) (due-bump now base_rto us))
    | inr t ↦ rw (left, t) (due-bump now base_rto us)
  ]
]

-- The attempts that the entries have left.
abbrev pub budget : List Unacked → ℕ
budget [] = 0
budget (u ∷ us) = 6 - u.attempts + budget us

budget-bump :
    (now base_rto : ℕ) (us : List Unacked)
    → let r = bump now base_rto (retain (λ u. ltb u.attempts control_max_attempts) us) in
      length r.1 + budget r.0 ≤ budget us
unfolding bump
budget-bump now base_rto [] = omega arith
budget-bump now base_rto (u ∷ us) = elim (Bool-cases (ltb u.attempts 6)) [
  | inr spent ↦ rw spent (omega (arith, budget-bump now base_rto us))
  | inl left ↦ elim (Bool-cases (leb (backoff base_rto u) (now - u.sent_at))) [
    | inl t ↦
        let few : u.attempts < 6 = ground arith in
        rw (left, t) (omega (arith, budget-bump now base_rto us))
    | inr t ↦ rw (left, t) (omega (arith, budget-bump now base_rto us))
  ]
]

module _ {Conn : Type 0} where
  -- The packets that are sent again are, in their order, exactly those with fewer than six attempts
  -- that have waited for their backoff.
  pub stale_unacked-is_due :
      (s : Session Conn) (now base_rto : ℕ)
      → (stale_unacked s now base_rto).1
        ≡ map (λ u. u.encoded) (retain (is_due now base_rto) s.unacked)
  unfolding stale_unacked
  stale_unacked-is_due s now base_rto = due-bump now base_rto s.unacked

  -- The packets sent again at a sequence of times.
  abbrev pub resent : Session Conn → ℕ → List ℕ → List (List ℕ)
  resent s base_rto [] = []
  resent s base_rto (now ∷ times) =
      let r = stale_unacked s now base_rto in r.1 ++ resent r.0 base_rto times

  resent-budget :
      (s : Session Conn) (base_rto : ℕ) (times : List ℕ)
      → length (resent s base_rto times) ≤ budget s.unacked
  unfolding stale_unacked
  resent-budget s base_rto [] = omega arith
  resent-budget s base_rto (now ∷ times) =
      let r : Session Conn × List (List ℕ) = stale_unacked s now base_rto in
      omega (
        arith,
        length-append r.1 (resent r.0 base_rto times),
        budget-bump now base_rto s.unacked,
        resent-budget r.0 base_rto times,
      )

abbrev pub IsSent : Unacked → Type 0
IsSent u = 1 ≤ u.attempts

budget_bound : (us : List Unacked) → All IsSent us → budget us ≤ length us * 5
budget_bound [] h = omega arith
budget_bound (u ∷ us) h = omega (arith, h.0, budget_bound us h.1)

-- However often and whenever the timer fires, the number of packets that it sends again is in total
-- at most five times the number of packets in the queue, each of them sent at least once before:
-- one less than `CONTROL_MAX_ATTEMPTS`, because the first sending counts as an attempt.
pub resent_bounded :
    {Conn : Type 0} (s : Session Conn) (base_rto : ℕ) (times : List ℕ)
    → All IsSent s.unacked
    → length (resent s base_rto times) ≤ length s.unacked * (control_max_attempts - 1)
resent_bounded s base_rto times h =
    omega (arith, resent-budget s base_rto times, budget_bound s.unacked h)
