-- ===== src/Nat/Words.antt =====
-- src/nat.rs: the words of the iptables commands, as lists of characters.
use just_another_vpn_server.Prelude.{ℕ, List, [], ◌∷◌}

-- "-t"
abbrev pub t_flag : List ℕ
t_flag = 45 ∷ 116 ∷ []

-- "nat"
abbrev pub nat_word : List ℕ
nat_word = 110 ∷ 97 ∷ 116 ∷ []

-- "-A"
abbrev pub append_flag : List ℕ
append_flag = 45 ∷ 65 ∷ []

-- "-D"
abbrev pub delete_flag : List ℕ
delete_flag = 45 ∷ 68 ∷ []

-- "POSTROUTING"
abbrev pub postrouting : List ℕ
postrouting = 80 ∷ 79 ∷ 83 ∷ 84 ∷ 82 ∷ 79 ∷ 85 ∷ 84 ∷ 73 ∷ 78 ∷ 71 ∷ []

-- "FORWARD"
abbrev pub forward_word : List ℕ
forward_word = 70 ∷ 79 ∷ 82 ∷ 87 ∷ 65 ∷ 82 ∷ 68 ∷ []

-- "-s"
abbrev pub s_flag : List ℕ
s_flag = 45 ∷ 115 ∷ []

-- "-i"
abbrev pub i_flag : List ℕ
i_flag = 45 ∷ 105 ∷ []

-- "-o"
abbrev pub o_flag : List ℕ
o_flag = 45 ∷ 111 ∷ []

-- "-j"
abbrev pub j_flag : List ℕ
j_flag = 45 ∷ 106 ∷ []

-- "-m"
abbrev pub m_flag : List ℕ
m_flag = 45 ∷ 109 ∷ []

-- "MASQUERADE"
abbrev pub masquerade : List ℕ
masquerade = 77 ∷ 65 ∷ 83 ∷ 81 ∷ 85 ∷ 69 ∷ 82 ∷ 65 ∷ 68 ∷ 69 ∷ []

-- "ACCEPT"
abbrev pub accept : List ℕ
accept = 65 ∷ 67 ∷ 67 ∷ 69 ∷ 80 ∷ 84 ∷ []

-- "state"
abbrev pub state_word : List ℕ
state_word = 115 ∷ 116 ∷ 97 ∷ 116 ∷ 101 ∷ []

-- "--state"
abbrev pub state_flag : List ℕ
state_flag = 45 ∷ 45 ∷ 115 ∷ 116 ∷ 97 ∷ 116 ∷ 101 ∷ []

-- "RELATED,ESTABLISHED"
abbrev pub related : List ℕ
related =
    82 ∷ 69 ∷ 76 ∷ 65 ∷ 84 ∷ 69 ∷ 68 ∷ 44 ∷ 69 ∷ 83 ∷ 84 ∷ 65 ∷ 66 ∷ 76 ∷ 73 ∷ 83 ∷ 72 ∷ 69 ∷ 68
    ∷ []

-- "00000000"
abbrev pub default_destination : List ℕ
default_destination = 48 ∷ 48 ∷ 48 ∷ 48 ∷ 48 ∷ 48 ∷ 48 ∷ 48 ∷ []
