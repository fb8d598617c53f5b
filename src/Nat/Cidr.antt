-- ===== src/Nat/Cidr.antt =====
-- src/nat.rs: the subnet of an address and a netmask, in CIDR notation.
use just_another_vpn_server.Prelude.{ℕ, zero, suc, List, ◌∷◌, ◌++◌, if◌then◌else◌, bit_and}
use just_another_vpn_server.Prelude.Bits.{test_bit}
use just_another_vpn_server.ControlChannel.Announce.{decimal}
use just_another_vpn_server.Server.Push.{show_v4}

-- `leading_ones` of the low `w` bits.
unfoldable pub leading_ones : ℕ → ℕ → ℕ
leading_ones zero n = 0
leading_ones (suc w) n = let rest = leading_ones w n in if test_bit n w then suc rest else 0

unfoldable pub subnet_to_cidr : ℕ → ℕ → List ℕ
unfolding leading_ones
subnet_to_cidr ip mask =
    let prefix = leading_ones 32 mask in
    let network = bit_and ip mask in show_v4 network ++ 47 ∷ decimal prefix
