-- ===== src/Nat/Routes.antt =====
-- src/nat.rs: the interface of the default route, read from the text of `/proc/net/route`.
use just_another_vpn_server.Prelude.{
  ℕ, List, [], ◌∷◌, Option, none, some, length, ltb, if◌then◌else◌, list_beq, Result, ok, err,
  Error, ◌>>=◌, or_fail,
}
use just_another_vpn_server.Prelude.Text.{lines, split_whitespace}
use just_another_vpn_server.Nat.Words.{default_destination}
use Error.{read_failed, no_default_route}

-- The first two columns of a line that has at least eight.
abbrev route_columns : List (List ℕ) → Option (List ℕ × List ℕ)
route_columns [] = none
route_columns (iface ∷ []) = none
route_columns (iface ∷ destination ∷ more) =
    if ltb (length more) 6 then none else some (iface, destination)

-- Whether the columns are those of the default route, and else the later lines.
abbrev route_or : Option (List ℕ × List ℕ) → Result (List ℕ) → Result (List ℕ)
route_or none later = later
route_or (some cols) later = if list_beq cols.1 default_destination then ok cols.0 else later

unfoldable pub find_route : List (List ℕ) → Result (List ℕ)
unfolding split_whitespace
find_route [] = err no_default_route
find_route (line ∷ rest) = route_or (route_columns (split_whitespace line)) (find_route rest)

-- The first line is the header.
abbrev skip_header : List (List ℕ) → List (List ℕ)
skip_header [] = []
skip_header (header ∷ rest) = rest

unfoldable pub detect_default_route_iface : Option (List ℕ) → Result (List ℕ)
unfolding find_route lines
detect_default_route_iface file =
    or_fail file read_failed >>= (λ text. find_route (skip_header (lines text)))
