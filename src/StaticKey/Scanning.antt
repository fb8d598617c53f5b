-- ===== src/StaticKey/Scanning.antt =====
-- src/static_key.rs: the loop over the lines of a key file.
use just_another_vpn_server.Prelude.{
  ℕ, ◌≡◌, refl, ap, sym, ◌∙◌, inl, inr, Bool, true, false, not, List, [], ◌∷◌, ◌++◌, Option, some,
  ◌==◌, arith, All, All-append, length, ok, Error, ==_self, or_fail, Bool-cases, ◌>>◌, bail_if,
}
use mathlib.Core.List.{append_assoc, append-nil}
use just_another_vpn_server.Prelude.Text.{
  lines, trim, trim_end, starts_with, is_whitespace, str_len, IsSpace, IsVisible, IsInLine,
}
use just_another_vpn_server.Prelude.Trim.{
  lines-trim, trim-behind, trim-spaces, trim-visible, trim_end-visible, trim_end-spaces,
}
use just_another_vpn_server.Prelude.Bytes.{IsByte}
use just_another_vpn_server.StaticKey.{
  static_key_len, begin_mark, end_mark, Scan, outside, scan_trimmed, scan_line, scan_lines,
  parse_static_key_text,
}
use just_another_vpn_server.StaticKey.Render.{
  Row, digits, remark, blank, row_text, row_digits, rows_digits, IsRow, IsHexDigit, IsOutside,
  put_lines, put_rows, key_file, hex_text, hex-IsVisible, hex-IsInLine, str_len-hex_text,
}

abbrev state : List ℕ → Bool → Scan
state h b = record { hex_buf = h; inside = b }

-- One line, up to its line feed.
scan_lines-line :
    (at : Scan) (l s : List ℕ)
    → All IsInLine l
    → scan_lines at (lines (l ++ 10 ∷ s)) ≡ scan_lines (scan_trimmed at (trim l)) (lines s)
unfolding scan_lines scan_line
scan_lines-line at l s h =
    let (first, e, same) = lines-trim l s h in
    ap (scan_lines at) e ∙ ap (λ t. scan_lines (scan_trimmed at t) (lines s)) same

-- Outside a block, a line that does not begin one is passed over.
scan_trimmed-outside :
    (h line : List ℕ)
    → starts_with line begin_mark ≡ false
    → scan_trimmed (state h false) line ≡ state h false
unfolding scan_trimmed
scan_trimmed-outside h line e = elim (Bool-cases (starts_with line end_mark)) [
  | inl t ↦ rw (e, t) refl
  | inr t ↦ rw (e, t) refl
]

scan_lines-put_lines :
    (h : List ℕ) (ls : List (List ℕ)) (s : List ℕ)
    → All IsOutside ls
    → scan_lines (state h false) (lines (put_lines ls s)) ≡ scan_lines (state h false) (lines s)
unfolding put_lines
scan_lines-put_lines h [] s hs = refl
scan_lines-put_lines h (l ∷ ls) s hs =
    scan_lines-line (state h false) l (put_lines ls s) hs.0.0
    ∙ ap (λ at. scan_lines at (lines (put_lines ls s))) (scan_trimmed-outside h (trim l) hs.0.1)
    ∙ scan_lines-put_lines h ls s hs.1

digits-IsVisible : (cs : List ℕ) → All IsHexDigit cs → All IsVisible cs
digits-IsVisible [] h = tt
digits-IsVisible (c ∷ cs) h = (hex-IsVisible c h.0, digits-IsVisible cs h.1)

digits-IsInLine : (cs : List ℕ) → All IsHexDigit cs → All IsInLine cs
digits-IsInLine [] h = tt
digits-IsInLine (c ∷ cs) h = (hex-IsInLine c h.0, digits-IsInLine cs h.1)

-- What is left of a text after white space behind visible characters.
trim_end-visible_pad : (v q : List ℕ) → All IsVisible v → All IsSpace q → trim_end (v ++ q) ≡ v
trim_end-visible_pad v q hv hq =
    trim_end-visible v q hv ∙ ap (λ t. v ++ t) (trim_end-spaces q hq) ∙ append-nil v

-- Inside a block, a line adds its digits.
scan_trimmed-row :
    (h : List ℕ) (r : Row)
    → IsRow r
    → scan_trimmed (state h true) (trim (row_text r)) ≡ state (h ++ row_digits r) true
unfolding scan_trimmed is_whitespace
scan_trimmed-row h (digits left c text right) hr =
    let (pad_left, digit, more, pad_right) = hr in
    let visible : All IsVisible text = digits-IsVisible text more in
    let e : trim (left ++ c ∷ (text ++ right)) ≡ c ∷ text =
      trim-behind left c (text ++ right) pad_left.0 (hex-IsVisible c digit)
      ∙ ap (◌∷◌ c) (trim_end-visible_pad text right visible pad_right.0) in
    let dash : (c == 45) ≡ false = ground (arith, digit) in
    let hash : (c == 35) ≡ false = ground (arith, digit) in
    ap (scan_trimmed (state h true)) e ∙ rw (dash, hash) refl
scan_trimmed-row h (remark left text) hr =
    let e : trim (left ++ 35 ∷ text) ≡ 35 ∷ trim_end text = trim-behind left 35 text hr.0.0 refl in
    ap (scan_trimmed (state h true)) e ∙ sym (ap (λ t. state t true) (append-nil h))
scan_trimmed-row h (blank pad) hr =
    ap (scan_trimmed (state h true)) (trim-spaces pad hr.0)
    ∙ sym (ap (λ t. state t true) (append-nil h))

row_text-IsInLine : (r : Row) → IsRow r → All IsInLine (row_text r)
row_text-IsInLine (digits left c text right) hr =
    let (pad_left, digit, more, pad_right) = hr in
    All-append IsInLine left (c ∷ (text ++ right)) pad_left.1
      (hex-IsInLine c digit, All-append IsInLine text right (digits-IsInLine text more) pad_right.1)
row_text-IsInLine (remark left text) hr =
    All-append IsInLine left (35 ∷ text) hr.0.1 (omega arith, hr.1)
row_text-IsInLine (blank pad) hr = hr.1

scan_lines-put_rows :
    (h : List ℕ) (rows : List Row) (s : List ℕ)
    → All IsRow rows
    → scan_lines (state h true) (lines (put_rows rows s))
      ≡ scan_lines (state (h ++ rows_digits rows) true) (lines s)
unfolding put_rows rows_digits
scan_lines-put_rows h [] s hr = ap (λ t. scan_lines (state t true) (lines s)) (sym (append-nil h))
scan_lines-put_rows h (r ∷ rows) s hr =
    scan_lines-line (state h true) (row_text r) (put_rows rows s) (row_text-IsInLine r hr.0)
    ∙ ap (λ at. scan_lines at (lines (put_rows rows s))) (scan_trimmed-row h r hr.0)
    ∙ scan_lines-put_rows (h ++ row_digits r) rows s hr.1
    ∙ ap (λ t. scan_lines (state t true) (lines s))
        (append_assoc h (row_digits r) (rows_digits rows))

-- A mark at the start of a line is seen, whatever follows it.
starts_with-append : (p s : List ℕ) → starts_with (p ++ s) p ≡ true
starts_with-append [] [] = refl
starts_with-append [] (c ∷ s) = refl
starts_with-append (c ∷ p) s = rw (==_self c) (starts_with-append p s)

begin-IsVisible : All IsVisible begin_mark
unfolding is_whitespace
begin-IsVisible = (refl, (refl, (refl, (refl, (refl, (refl, (refl, (refl, (refl, (refl, tt))))))))))

end-IsVisible : All IsVisible end_mark
unfolding is_whitespace
end-IsVisible = (refl, (refl, (refl, (refl, (refl, (refl, (refl, (refl, tt))))))))

visible-IsInLine : (v : List ℕ) → All IsVisible v → All IsInLine v
unfolding is_whitespace
visible-IsInLine [] h = tt
visible-IsInLine (c ∷ v) h = (ground (arith, h.0), visible-IsInLine v h.1)

scan_trimmed-begin :
    (at : Scan) (title : List ℕ)
    → scan_trimmed at (trim (begin_mark ++ title)) ≡ state at.hex_buf true
unfolding scan_trimmed
scan_trimmed-begin at title =
    ap (scan_trimmed at)
      (trim-visible 45 (45 ∷ 45 ∷ 45 ∷ 45 ∷ 66 ∷ 69 ∷ 71 ∷ 73 ∷ 78 ∷ []) title begin-IsVisible)
    ∙ rw (starts_with-append begin_mark (trim_end title)) refl

scan_trimmed-end :
    (at : Scan) (title : List ℕ)
    → scan_trimmed at (trim (end_mark ++ title)) ≡ state at.hex_buf false
unfolding scan_trimmed
scan_trimmed-end at title =
    ap (scan_trimmed at)
      (trim-visible 45 (45 ∷ 45 ∷ 45 ∷ 45 ∷ 69 ∷ 78 ∷ 68 ∷ []) title end-IsVisible)

-- The digits that the loop collects from a key file are those of the rows.
pub scan_lines-key_file :
    (before : List (List ℕ)) (title : List ℕ) (rows : List Row) (title_end : List ℕ)
    (after : List (List ℕ))
    → All IsOutside before
    → All IsInLine title
    → All IsRow rows
    → All IsInLine title_end
    → All IsOutside after
    → scan_lines outside (lines (key_file before title rows title_end after))
      ≡ state (rows_digits rows) false
unfolding key_file scan_lines lines
scan_lines-key_file before title rows title_end after hb ht hr he ha =
    let tail : List ℕ = put_lines after [] in
    let block : List ℕ = put_rows rows ((end_mark ++ title_end) ++ 10 ∷ tail) in
    scan_lines-put_lines [] before ((begin_mark ++ title) ++ 10 ∷ block) hb
    ∙ scan_lines-line outside (begin_mark ++ title) block
        (All-append IsInLine begin_mark title (visible-IsInLine begin_mark begin-IsVisible) ht)
    ∙ ap (λ at. scan_lines at (lines block)) (scan_trimmed-begin outside title)
    ∙ scan_lines-put_rows [] rows ((end_mark ++ title_end) ++ 10 ∷ tail) hr
    ∙ scan_lines-line (state (rows_digits rows) true) (end_mark ++ title_end) tail
        (All-append IsInLine end_mark title_end (visible-IsInLine end_mark end-IsVisible) he)
    ∙ ap (λ at. scan_lines at (lines tail))
        (scan_trimmed-end (state (rows_digits rows) true) title_end)
    ∙ scan_lines-put_lines (rows_digits rows) after [] ha

-- What the parser relies on of `hex::decode`: that it reads back what `{:02x}` prints.
pub record IsHex (hex_decode : List ℕ → Option (List ℕ)) : Type 0 where
  pub hex_decode-hex_text : (bs : List ℕ) → All IsByte bs → hex_decode (hex_text bs) ≡ some bs

-- Round trip: take 256 bytes, print them in hexadecimal with two digits to a byte, and cut the
-- digits into rows anyhow. Where the rows stand between a line that begins with `-----BEGIN` and
-- one that begins with `-----END`, with white space around them, `#` comments and blank lines among
-- them, and lines before and after the block that do not begin another one, the parser returns the
-- bytes, given that `hex::decode` reads back what `{:02x}` prints.
pub parse_static_key_text-key_file :
    (hex_decode : List ℕ → Option (List ℕ)) (key : List ℕ) (before : List (List ℕ)) (title : List ℕ)
    (rows : List Row) (title_end : List ℕ) (after : List (List ℕ))
    → IsHex hex_decode
    → All IsByte key
    → length key ≡ static_key_len
    → rows_digits rows ≡ hex_text key
    → All IsOutside before
    → All IsInLine title
    → All IsRow rows
    → All IsInLine title_end
    → All IsOutside after
    → parse_static_key_text hex_decode (key_file before title rows title_end after) ≡ ok key
unfolding parse_static_key_text
parse_static_key_text-key_file hex_decode key before title rows title_end after hex bytes len same
      hb ht hr he ha =
    let read : (scan_lines outside (lines (key_file before title rows title_end after))).hex_buf
        ≡ hex_text key =
      ap (λ at. at.hex_buf) (scan_lines-key_file before title rows title_end after hb ht hr he ha)
      ∙ same in
    let enough : (str_len (hex_text key) == 512) ≡ true =
      ground (arith, str_len-hex_text key bytes, len) in
    ap
      (λ t.
        bail_if (not (str_len t == 512)) Error.bad_key_length
        >> or_fail (hex_decode t) Error.bad_hex)
      read
    ∙ rw (enough, hex.hex_decode-hex_text key bytes) refl
