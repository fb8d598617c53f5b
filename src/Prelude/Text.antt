-- ===== src/Prelude/Text.antt =====
-- What the program calls of `str`. A string is the list of its characters' code points.
use Prim.Native.Nat.{ℕ, ◌+◌}
use mathlib.Core.Path.{◌≡◌}
use mathlib.Core.Logic.{◌≢◌}
use mathlib.Core.Bool.{Bool, true, false, ◌&&◌, ◌||◌}
use mathlib.Core.List.{List, [], ◌∷◌, ◌++◌}
use just_another_vpn_server.Prelude.Tests.{◌==◌, ltb, leb, if◌then◌else◌}

-- `char::is_whitespace`
unfoldable pub is_whitespace : ℕ → Bool
is_whitespace c =
    leb 9 c && leb c 13
    || c == 32
    || c == 0x85
    || c == 0xa0
    || c == 0x1680
    || leb 0x2000 c && leb c 0x200a
    || c == 0x2028
    || c == 0x2029
    || c == 0x202f
    || c == 0x205f
    || c == 0x3000

-- `char::len_utf8`, and `str::len`, which counts bytes.
unfoldable pub len_utf8 : ℕ → ℕ
len_utf8 c = if ltb c 0x80 then 1 else if ltb c 0x800 then 2 else if ltb c 0x10000 then 3 else 4

unfoldable pub str_len : List ℕ → ℕ
str_len [] = 0
str_len (c ∷ cs) = len_utf8 c + str_len cs

abbrev pub is_empty : List ℕ → Bool
is_empty [] = true
is_empty (c ∷ cs) = false

abbrev pub starts_with : List ℕ → List ℕ → Bool
starts_with s [] = true
starts_with [] (p ∷ ps) = false
starts_with (c ∷ cs) (p ∷ ps) = c == p && starts_with cs ps

unfoldable pub trim_start : List ℕ → List ℕ
trim_start [] = []
trim_start (c ∷ cs) = let rest = trim_start cs in if is_whitespace c then rest else c ∷ cs

unfoldable pub trim_end : List ℕ → List ℕ
trim_end [] = []
trim_end (c ∷ cs) =
    let rest = trim_end cs in if is_whitespace c && is_empty rest then [] else c ∷ rest

unfoldable pub trim : List ℕ → List ℕ
unfolding trim_start trim_end
trim s = trim_start (trim_end s)

-- A character in front of the first line.
abbrev pub push_char : ℕ → List (List ℕ) → List (List ℕ)
push_char c [] = (c ∷ []) ∷ []
push_char c (l ∷ ls) = (c ∷ l) ∷ ls

-- `str::lines`: a line ends at a line feed, with the carriage return before it or not.
unfoldable pub lines : List ℕ → List (List ℕ)
lines [] = []
lines (c ∷ cs) =
    let rest = lines cs in
    if c == 10
    then [] ∷ rest
    else if c == 13 && starts_with cs (10 ∷ [])
    then rest
    else push_char c rest

-- `str::split_whitespace`: the words, with the one that is being read.
unfoldable pub words : List ℕ → List ℕ → List (List ℕ)
words word [] = if is_empty word then [] else word ∷ []
words word (c ∷ cs) =
    let next = words [] cs in
    let more = words (word ++ c ∷ []) cs in
    if is_whitespace c then if is_empty word then next else word ∷ next else more

unfoldable pub split_whitespace : List ℕ → List (List ℕ)
unfolding words
split_whitespace = words []

-- `u8::eq_ignore_ascii_case` and `str::eq_ignore_ascii_case`
unfoldable pub to_ascii_lowercase : ℕ → ℕ
to_ascii_lowercase c = if leb 65 c && leb c 90 then c + 32 else c

unfoldable pub eq_ignore_ascii_case : List ℕ → List ℕ → Bool
eq_ignore_ascii_case [] [] = true
eq_ignore_ascii_case [] (d ∷ ds) = false
eq_ignore_ascii_case (c ∷ cs) [] = false
eq_ignore_ascii_case (c ∷ cs) (d ∷ ds) =
    to_ascii_lowercase c == to_ascii_lowercase d && eq_ignore_ascii_case cs ds

abbrev pub IsSpace : ℕ → Type 0
IsSpace c = is_whitespace c ≡ true

abbrev pub IsVisible : ℕ → Type 0
IsVisible c = is_whitespace c ≡ false

abbrev pub IsInLine : ℕ → Type 0
IsInLine c = c ≢ 10
