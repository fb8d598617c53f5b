-- ===== src/Replay.antt =====
-- src/replay.rs: the sliding window that rejects replayed packet ids. A `u64` bitmap is a number
-- below 2 ^ 64, and bit `k` of it stands for the id `highest - k`.
pub mod Window
pub mod History
mod Tests
use just_another_vpn_server.Prelude.{
  ℕ, ◌+◌, ◌-◌, ◌*◌, ◌%◌, ◌^◌, bit_and, bit_or, Bool, true, false, not, List, [], ◌∷◌, ltb, leb,
  ◌==◌, if◌then◌else◌,
}

abbrev pub window_size : ℕ
window_size = 64

pub record ReplayWindow : Type 0 where
  pub highest : ℕ
  pub bitmap : ℕ

abbrev pub new : ReplayWindow
new = record { highest = 0; bitmap = 0 }

-- The window after the call, and whether the id is accepted.
unfoldable pub check_and_set : ReplayWindow → ℕ → ReplayWindow × Bool
check_and_set w packet_id =
    if packet_id == 0
    then (w, false)
    else if ltb w.highest packet_id
    then (let shift = packet_id - w.highest in
        let bitmap : ℕ = if leb 64 shift then 1 else bit_or (w.bitmap * 2 ^ shift % 2 ^ 64) 1 in
        (record { highest = packet_id; bitmap = bitmap }, true))
    else (let diff = w.highest - packet_id in
        if leb window_size diff
        then (w, false)
        else (let bit = 2 ^ diff in
            if not (bit_and w.bitmap bit == 0)
            then (w, false)
            else (record w { bitmap = bit_or w.bitmap bit }, true)))

-- The window after a sequence of ids, and the verdict on each.
unfoldable pub after : ReplayWindow → List ℕ → ReplayWindow
after w [] = w
after w (p ∷ ps) = after (check_and_set w p).0 ps

unfoldable pub verdicts : ReplayWindow → List ℕ → List Bool
verdicts w [] = []
verdicts w (p ∷ ps) = (check_and_set w p).1 ∷ verdicts (check_and_set w p).0 ps
