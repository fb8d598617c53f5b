-- ===== src/Replay/Tests.antt =====
-- The runs of the source's tests, and the theorems at concrete inputs.
use just_another_vpn_server.Prelude.{ℕ, ◌≡◌, refl, true, false, List, [], ◌∷◌}
use just_another_vpn_server.Replay.{new, check_and_set, after, verdicts}
use just_another_vpn_server.Replay.History.{history_verdicts, verdicts-new, accepted_once}

abbrev out_of_order : List ℕ
out_of_order = 10 ∷ 8 ∷ 9 ∷ 8 ∷ 100 ∷ 36 ∷ 37 ∷ 0 ∷ []

out_of_order_run :
    verdicts new out_of_order ≡ true ∷ true ∷ true ∷ false ∷ true ∷ false ∷ true ∷ false ∷ []
unfolding verdicts check_and_set
out_of_order_run = refl

large_jump : verdicts new (1 ∷ 1000 ∷ 1 ∷ 1000 ∷ []) ≡ true ∷ true ∷ false ∷ false ∷ []
unfolding verdicts check_and_set
large_jump = refl

verdicts-new_example : verdicts new out_of_order ≡ history_verdicts [] out_of_order
verdicts-new_example = verdicts-new out_of_order

accepts_nine : (check_and_set (after new (10 ∷ 8 ∷ [])) 9).1 ≡ true
unfolding check_and_set after
accepts_nine = refl

nine_is_accepted_once :
    (check_and_set (after (check_and_set (after new (10 ∷ 8 ∷ [])) 9).0 (100 ∷ 50 ∷ 70 ∷ [])) 9).1
    ≡ false
nine_is_accepted_once = accepted_once (10 ∷ 8 ∷ []) 9 (100 ∷ 50 ∷ 70 ∷ []) accepts_nine
