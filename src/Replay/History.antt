-- ===== src/Replay/History.antt =====
-- src/replay.rs: the verdicts on sequences of packet ids, and the history of accepted ids.
use just_another_vpn_server.Prelude.{
  ℕ, ◌≡◌, refl, sym, ap₂, ◌∙◌, Bool, true, false, List, [], ◌∷◌, arith, contains,
}
use just_another_vpn_server.Replay.{ReplayWindow, new, check_and_set, after, verdicts}
use just_another_vpn_server.Replay.Window.{
  Represents, accepts, record_id, new-Represents, check_and_set-Represents,
}

-- The specification: the ids accepted so far in full, with no window.
abbrev pub history : List ℕ → List ℕ → List ℕ
history seen [] = seen
history seen (p ∷ ps) = history (record_id seen p) ps

abbrev pub history_verdicts : List ℕ → List ℕ → List Bool
history_verdicts seen [] = []
history_verdicts seen (p ∷ ps) = accepts seen p ∷ history_verdicts (record_id seen p) ps

after-Represents :
    (w : ReplayWindow) (seen ps : List ℕ)
    → Represents w seen
    → Represents (after w ps) (history seen ps)
unfolding after
after-Represents w seen [] rep = rep
after-Represents w seen (p ∷ ps) rep =
    after-Represents (check_and_set w p).0 (record_id seen p) ps
      (check_and_set-Represents w seen p rep).1

verdicts-history_verdicts :
    (w : ReplayWindow) (seen ps : List ℕ)
    → Represents w seen
    → verdicts w ps ≡ history_verdicts seen ps
unfolding verdicts
verdicts-history_verdicts w seen [] rep = refl
verdicts-history_verdicts w seen (p ∷ ps) rep =
    let (e, next) = check_and_set-Represents w seen p rep in
    let rest : verdicts (check_and_set w p).0 ps ≡ history_verdicts (record_id seen p) ps =
      verdicts-history_verdicts (check_and_set w p).0 (record_id seen p) ps next in
    ap₂ (◌∷◌) e rest

-- On every sequence of packet ids the window gives the verdicts of the full history: an id is
-- accepted exactly when it is not 0, was not accepted before and is less than 64 behind the
-- highest id accepted.
pub verdicts-new : (ps : List ℕ) → verdicts new ps ≡ history_verdicts [] ps
verdicts-new ps = verdicts-history_verdicts new [] ps new-Represents

pub contains-record_id :
    (seen : List ℕ) (p q : ℕ) → contains seen p ≡ true → contains (record_id seen q) p ≡ true
contains-record_id seen p q h = ground arith

contains-history :
    (seen : List ℕ) (p : ℕ) (qs : List ℕ)
    → contains seen p ≡ true
    → contains (history seen qs) p ≡ true
contains-history seen p [] h = h
contains-history seen p (q ∷ qs) h =
    contains-history (record_id seen q) p qs (contains-record_id seen p q h)

pub accepts-contains :
    (seen : List ℕ) (p : ℕ) → accepts seen p ≡ true → contains (record_id seen p) p ≡ true
accepts-contains seen p h = ground arith

pub contains-accepts : (seen : List ℕ) (p : ℕ) → contains seen p ≡ true → accepts seen p ≡ false
contains-accepts seen p h = ground arith

-- A packet id that the window accepts at any point of a run is rejected at every later point of it.
pub accepted_once :
    (ps : List ℕ) (p : ℕ) (qs : List ℕ)
    → (check_and_set (after new ps) p).1 ≡ true
    → (check_and_set (after (check_and_set (after new ps) p).0 qs) p).1 ≡ false
accepted_once ps p qs ok =
    let seen : List ℕ = history [] ps in
    let rep : Represents (after new ps) seen = after-Represents new [] ps new-Represents in
    let (e, rep') = check_and_set-Represents (after new ps) seen p rep in
    let known : contains (record_id seen p) p ≡ true = accepts-contains seen p (sym e ∙ ok) in
    let rep'' : Represents (after (check_and_set (after new ps) p).0 qs)
        (history (record_id seen p) qs) =
      after-Represents _ _ qs rep' in
    (check_and_set-Represents _ _ p rep'').0 ∙ contains-accepts _ p (contains-history _ p qs known)
