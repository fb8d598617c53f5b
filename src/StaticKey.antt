-- ===== src/StaticKey.antt =====
-- src/static_key.rs: static-key files. Strings are lists of characters; `hex::decode` is a parameter.
pub mod Render
pub mod Scanning
mod Tests
use just_another_vpn_server.Prelude.{
  ℕ, ◌*◌, Bool, true, false, not, ◌&&◌, List, [], ◌∷◌, ◌++◌, Option, if◌then◌else◌, ◌==◌, Result,
  ok, Error, ◌>>=◌, ◌>>◌, bail_if, or_fail,
}
use just_another_vpn_server.Prelude.Text.{lines, trim, starts_with, is_empty, str_len}
use Error.{bad_key_length, bad_hex, read_failed}

abbrev pub static_key_len : ℕ
static_key_len = 256

-- "-----BEGIN"
abbrev pub begin_mark : List ℕ
begin_mark = 45 ∷ 45 ∷ 45 ∷ 45 ∷ 45 ∷ 66 ∷ 69 ∷ 71 ∷ 73 ∷ 78 ∷ []

-- "-----END"
abbrev pub end_mark : List ℕ
end_mark = 45 ∷ 45 ∷ 45 ∷ 45 ∷ 45 ∷ 69 ∷ 78 ∷ 68 ∷ []

-- The two variables of the loop over the lines.
pub record Scan : Type 0 where
  pub hex_buf : List ℕ
  pub inside : Bool

-- The body of the loop, on the trimmed line. A `#` starts a comment.
unfoldable pub scan_trimmed : Scan → List ℕ → Scan
scan_trimmed at line =
    if starts_with line begin_mark
    then record { hex_buf = at.hex_buf; inside = true }
    else if starts_with line end_mark
    then record { hex_buf = at.hex_buf; inside = false }
    else if at.inside && (not (is_empty line) && not (starts_with line (35 ∷ [])))
    then record { hex_buf = at.hex_buf ++ line; inside = at.inside }
    else at

unfoldable pub scan_line : Scan → List ℕ → Scan
scan_line at raw = scan_trimmed at (trim raw)

unfoldable pub scan_lines : Scan → List (List ℕ) → Scan
scan_lines at [] = at
scan_lines at (raw ∷ rest) = scan_lines (scan_line at raw) rest

abbrev pub outside : Scan
outside = record { hex_buf = []; inside = false }

module _ (hex_decode : List ℕ → Option (List ℕ)) where
  unfoldable pub parse_static_key_text : List ℕ → Result (List ℕ)
  parse_static_key_text text = do
    let hex_buf = (scan_lines outside (lines text)).hex_buf
    bail_if (not (str_len hex_buf == static_key_len * 2)) bad_key_length
    or_fail (hex_decode hex_buf) bad_hex

  -- The file's text, if it can be read.
  unfoldable pub parse_static_key_file : Option (List ℕ) → Result (List ℕ)
  unfolding parse_static_key_text
  parse_static_key_file file = or_fail file read_failed >>= parse_static_key_text
