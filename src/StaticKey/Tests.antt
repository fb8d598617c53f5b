-- ===== src/StaticKey/Tests.antt =====
-- A key file with comments, read back, and files that are refused.
use just_another_vpn_server.Prelude.{
  ℕ, zero, suc, ◌+◌, ◌-◌, ◌*◌, ◌/◌, ◌%◌, ◌<◌, ◌≡◌, refl, ap, Bool, true, ◌&&◌, ◌||◌, List, [], ◌∷◌,
  ◌++◌, Option, none, some, replicate, if◌then◌else◌, leb, ltb, arith, All, All-append, ok, err,
  Error, inl, inr, Bool-cases,
}
use just_another_vpn_server.Prelude.Bytes.{IsByte}
use just_another_vpn_server.Prelude.Text.{is_whitespace, lines, trim, trim_start, trim_end, str_len}
use just_another_vpn_server.StaticKey.{
  scan_line, scan_lines, scan_trimmed, parse_static_key_text, parse_static_key_file,
}
use just_another_vpn_server.StaticKey.Render.{
  Row, digits, remark, blank, rows_digits, IsRow, IsOutside, key_file, hex_text, nibble,
  hex_text-IsHexDigit,
}
use just_another_vpn_server.StaticKey.Scanning.{IsHex, parse_static_key_text-key_file}

-- A decoder of hexadecimal digits.
unfoldable value : ℕ → ℕ
value c = if leb 97 c then c - 87 else if leb 65 c then c - 55 else c - 48

unfoldable is_digit : ℕ → Bool
is_digit c = leb 48 c && leb c 57 || leb 65 c && leb c 70 || leb 97 c && leb c 102

abbrev put_byte : ℕ → Option (List ℕ) → Option (List ℕ)
put_byte b none = none
put_byte b (some bs) = some (b ∷ bs)

unfoldable decode : List ℕ → Option (List ℕ)
decode [] = some []
decode (a ∷ []) = none
decode (a ∷ b ∷ cs) =
    let rest = put_byte (value a * 16 + value b) (decode cs) in
    if is_digit a && is_digit b then rest else none

value-nibble : (n : ℕ) → n < 16 → (value (nibble n) ≡ n) × (is_digit (nibble n) ≡ true)
unfolding value nibble is_digit
value-nibble n h = elim (Bool-cases (ltb n 10)) [
  | inl t ↦ let small : n < 10 = ground arith in rw t (ground arith, ground arith)
  | inr t ↦ let large : 10 < suc n = ground arith in rw t (ground arith, ground arith)
]

decode-hex_text : (bs : List ℕ) → All IsByte bs → decode (hex_text bs) ≡ some bs
unfolding decode hex_text
decode-hex_text [] h = refl
decode-hex_text (b ∷ bs) h =
    let (high, is_high) = value-nibble (b / 16) (omega (arith, h.0)) in
    let (low, is_low) = value-nibble (b % 16) (omega arith) in
    let same : b / 16 * 16 + b % 16 ≡ b = omega arith in
    rw (is_high, is_low, high, low, same) (ap (put_byte b) (decode-hex_text bs h.1))

decode-IsHex : IsHex decode
decode-IsHex = record { hex_decode-hex_text = decode-hex_text }

-- Sixteen bytes, and a key of sixteen such pieces.
abbrev piece : List ℕ
piece = 0x12 ∷ 0xab ∷ 0xff ∷ replicate 13 7

abbrev times : ℕ → List ℕ → List ℕ
times zero bs = []
times (suc n) bs = bs ++ times n bs

abbrev key : List ℕ
key = times 16 piece

piece-IsByte : All IsByte piece
piece-IsByte = (omega arith, (omega arith, (omega arith, sevens 13)))
  where
    sevens : (n : ℕ) → All IsByte (replicate n 7)
    sevens zero = tt
    sevens (suc n) = (omega arith, sevens n)

times-IsByte : (n : ℕ) → All IsByte (times n piece)
times-IsByte zero = tt
times-IsByte (suc n) = All-append IsByte piece (times n piece) piece-IsByte (times-IsByte n)

-- One row of the file: a space, the digits of the piece ("1", then the others), a carriage return.
abbrev row : Row
row = digits (32 ∷ []) 49 (50 ∷ 97 ∷ 98 ∷ 102 ∷ 102 ∷ sevens 13) (13 ∷ [])
  where
    sevens : ℕ → List ℕ
    sevens zero = []
    sevens (suc n) = 48 ∷ 55 ∷ sevens n

row-IsRow : IsRow row
unfolding is_whitespace hex_text nibble
row-IsRow =
    let (one, rest) = hex_text-IsHexDigit piece piece-IsByte in
    (((refl, tt), (omega arith, tt)), one, rest, ((refl, tt), (omega arith, tt)))

abbrev sixteen : ℕ → List Row
sixteen zero = []
sixteen (suc n) = row ∷ sixteen n

sixteen-IsRow : (n : ℕ) → All IsRow (sixteen n)
sixteen-IsRow zero = tt
sixteen-IsRow (suc n) = (row-IsRow, sixteen-IsRow n)

-- "#", a comment and a blank line before the digits.
abbrev rows : List Row
rows = remark [] (32 ∷ 104 ∷ 105 ∷ []) ∷ blank (9 ∷ []) ∷ sixteen 16

rows-IsRow : All IsRow rows
unfolding is_whitespace
rows-IsRow =
    ((
      ((tt, tt), (omega arith, (omega arith, (omega arith, tt)))),
      (((refl, tt), (omega arith, tt)), sixteen-IsRow 16),
    ))

rows_digits-key : rows_digits rows ≡ hex_text key
unfolding rows_digits hex_text nibble
rows_digits-key = refl

-- "#" before the block.
hash-IsOutside : IsOutside (35 ∷ [])
unfolding trim trim_start trim_end is_whitespace
hash-IsOutside = ((omega arith, tt), refl)

parse_static_key_text-key_file_example :
    parse_static_key_text decode (key_file ((35 ∷ []) ∷ []) (32 ∷ []) rows [] []) ≡ ok key
parse_static_key_text-key_file_example =
    parse_static_key_text-key_file decode key ((35 ∷ []) ∷ []) (32 ∷ []) rows [] [] decode-IsHex
      (times-IsByte 16) refl rows_digits-key (hash-IsOutside, tt) (omega arith, tt) rows-IsRow tt tt

-- Without a block there is no key, and an unreadable file is an error of its own.
no_block : parse_static_key_text decode (35 ∷ 10 ∷ []) ≡ err Error.bad_key_length
unfolding parse_static_key_text scan_lines scan_line scan_trimmed lines trim trim_start trim_end
    is_whitespace str_len
no_block = refl

no_file : parse_static_key_file decode none ≡ err Error.read_failed
unfolding parse_static_key_file
no_file = refl
