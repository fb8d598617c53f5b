-- ===== src/StaticKey/Render.antt =====
-- Key files as `openvpn --genkey` and editors leave them, as a description of their texts.
use just_another_vpn_server.Prelude.{
  ℕ, ◌+◌, ◌*◌, ◌/◌, ◌%◌, ◌≤◌, ◌<◌, ◌≡◌, refl, ◌⊎◌, inl, inr, false, List, [], ◌∷◌, ◌++◌,
  if◌then◌else◌, ltb, arith, All, length, Bool-cases,
}
use just_another_vpn_server.Prelude.Text.{
  trim, starts_with, is_whitespace, str_len, len_utf8, IsSpace, IsVisible, IsInLine,
}
use just_another_vpn_server.Prelude.Bytes.{IsByte}
use just_another_vpn_server.StaticKey.{begin_mark, end_mark}

-- `{:02x}`
unfoldable pub nibble : ℕ → ℕ
nibble n = if ltb n 10 then 48 + n else 87 + n

unfoldable pub hex_text : List ℕ → List ℕ
hex_text [] = []
hex_text (b ∷ bs) = nibble (b / 16) ∷ nibble (b % 16) ∷ hex_text bs

-- The digits that `hex::decode` knows, in both cases.
abbrev pub IsHexDigit : ℕ → Type 0
IsHexDigit c = ((48 ≤ c) × (c ≤ 57)) ⊎ (((65 ≤ c) × (c ≤ 70)) ⊎ ((97 ≤ c) × (c ≤ 102)))

-- A line between the marks.
pub data Row : Type 0 where
  digits : List ℕ → ℕ → List ℕ → List ℕ → Row
  remark : List ℕ → List ℕ → Row
  blank : List ℕ → Row

abbrev pub row_text : Row → List ℕ
row_text (digits left c text right) = left ++ c ∷ (text ++ right)
row_text (remark left text) = left ++ 35 ∷ text
row_text (blank pad) = pad

abbrev pub row_digits : Row → List ℕ
row_digits (digits left c text right) = c ∷ text
row_digits (remark left text) = []
row_digits (blank pad) = []

abbrev pub IsPad : List ℕ → Type 0
IsPad pad = All IsSpace pad × All IsInLine pad

abbrev pub IsRow : Row → Type 0
IsRow (digits left c text right) = IsPad left × IsHexDigit c × All IsHexDigit text × IsPad right
IsRow (remark left text) = IsPad left × All IsInLine text
IsRow (blank pad) = IsPad pad

-- Lines, each with its line feed, in front of a text.
unfoldable pub put_lines : List (List ℕ) → List ℕ → List ℕ
put_lines [] rest = rest
put_lines (l ∷ ls) rest = l ++ 10 ∷ put_lines ls rest

unfoldable pub put_rows : List Row → List ℕ → List ℕ
put_rows [] rest = rest
put_rows (r ∷ rows) rest = row_text r ++ 10 ∷ put_rows rows rest

unfoldable pub rows_digits : List Row → List ℕ
rows_digits [] = []
rows_digits (r ∷ rows) = row_digits r ++ rows_digits rows

-- Lines that are not the mark of a block's begin.
abbrev pub IsOutside : List ℕ → Type 0
IsOutside l = All IsInLine l × (starts_with (trim l) begin_mark ≡ false)

-- A block between other lines; what follows a mark on its line does not matter.
unfoldable pub key_file : List (List ℕ) → List ℕ → List Row → List ℕ → List (List ℕ) → List ℕ
key_file before title rows title_end after = put_lines before (
    (begin_mark ++ title)
    ++ 10 ∷ put_rows rows ((end_mark ++ title_end) ++ 10 ∷ put_lines after []))

pub hex-IsInLine : (c : ℕ) → IsHexDigit c → IsInLine c
hex-IsInLine c h = ground arith

pub hex-IsVisible : (c : ℕ) → IsHexDigit c → IsVisible c
unfolding is_whitespace
hex-IsVisible c h = ground arith

len_utf8-hex : (c : ℕ) → IsHexDigit c → len_utf8 c ≡ 1
unfolding len_utf8
len_utf8-hex c h = ground arith

nibble-IsHexDigit : (n : ℕ) → n < 16 → IsHexDigit (nibble n)
unfolding nibble
nibble-IsHexDigit n h = elim (Bool-cases (ltb n 10)) [
  | inl t ↦ let small : n < 10 = ground arith in rw t (inl (omega arith, omega arith))
  | inr t ↦ let large : 10 ≤ n = ground arith in rw t (inr (inr (omega arith, omega arith)))
]

pub hex_text-IsHexDigit : (bs : List ℕ) → All IsByte bs → All IsHexDigit (hex_text bs)
unfolding hex_text
hex_text-IsHexDigit [] h = tt
hex_text-IsHexDigit (b ∷ bs) h = (
  nibble-IsHexDigit (b / 16) (omega (arith, h.0)),
  (nibble-IsHexDigit (b % 16) (omega arith), hex_text-IsHexDigit bs h.1),
)

pub str_len-hex_text : (bs : List ℕ) → All IsByte bs → str_len (hex_text bs) ≡ length bs * 2
unfolding hex_text str_len
str_len-hex_text [] h = refl
str_len-hex_text (b ∷ bs) h = omega (
  arith,
  str_len-hex_text bs h.1,
  len_utf8-hex (nibble (b / 16)) (nibble-IsHexDigit (b / 16) (omega (arith, h.0))),
  len_utf8-hex (nibble (b % 16)) (nibble-IsHexDigit (b % 16) (omega arith)),
)
