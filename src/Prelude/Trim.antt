-- ===== src/Prelude/Trim.antt =====
-- What trimming and cutting into lines do to a text that is put together from parts.
use just_another_vpn_server.Prelude.Tests.{◌==◌, if◌then◌else◌, Bool-cases}
use just_another_vpn_server.Prelude.Lists.{All}
use just_another_vpn_server.Prelude.Text.{
  is_whitespace, is_empty, trim_start, trim_end, trim, push_char, lines, IsSpace, IsVisible,
  IsInLine,
}
use Prim.Native.Nat.{ℕ}
use mathlib.Core.Path.{◌≡◌, refl, ap, ◌∙◌, sym}
use mathlib.Core.Logic.{◌⊎◌, inl, inr}
use mathlib.Core.Bool.{true, false, ◌&&◌}
use mathlib.Core.List.{List, [], ◌∷◌, ◌++◌}
use native.Mathlib.Omega.{arith}

pub trim_end-spaces : (q : List ℕ) → All IsSpace q → trim_end q ≡ []
unfolding trim_end
trim_end-spaces [] h = refl
trim_end-spaces (c ∷ q) h = rw (h.0, trim_end-spaces q h.1) refl

-- Trailing white space is dropped.
pub trim_end-append : (s q : List ℕ) → All IsSpace q → trim_end (s ++ q) ≡ trim_end s
unfolding trim_end
trim_end-append [] q h = trim_end-spaces q h
trim_end-append (c ∷ s) q h =
    ap (λ r. if is_whitespace c && is_empty r then [] else c ∷ r) (trim_end-append s q h)

-- Visible text is kept, whatever is behind it.
pub trim_end-visible : (v s : List ℕ) → All IsVisible v → trim_end (v ++ s) ≡ v ++ trim_end s
unfolding trim_end
trim_end-visible [] s h = refl
trim_end-visible (c ∷ v) s h = rw h.0 (ap (◌∷◌ c) (trim_end-visible v s h.1))

-- A text with something left after trimming is kept behind white space.
pub trim_end-behind :
    (p s : List ℕ) → is_empty (trim_end s) ≡ false → trim_end (p ++ s) ≡ p ++ trim_end s
unfolding trim_end
trim_end-behind [] s h = refl
trim_end-behind (c ∷ p) s h = rw (trim_end-behind p s h) (keep c p)
  where
    left : (p : List ℕ) → is_empty (p ++ trim_end s) ≡ false
    left [] = h
    left (d ∷ p) = refl

    keep :
        (c : ℕ) (p : List ℕ)
        → (if is_whitespace c && is_empty (p ++ trim_end s) then [] else c ∷ (p ++ trim_end s))
          ≡ c ∷ (p ++ trim_end s)
    keep c p =
        rw (left p) (elim (Bool-cases (is_whitespace c)) [ inl t ↦ rw t refl | inr t ↦ rw t refl ])

pub trim_start-spaces : (p s : List ℕ) → All IsSpace p → trim_start (p ++ s) ≡ trim_start s
unfolding trim_start
trim_start-spaces [] s h = refl
trim_start-spaces (c ∷ p) s h = rw h.0 (trim_start-spaces p s h.1)

pub trim_start-visible : (c : ℕ) (s : List ℕ) → IsVisible c → trim_start (c ∷ s) ≡ c ∷ s
unfolding trim_start
trim_start-visible c s h = rw h refl

pub trim-spaces : (q : List ℕ) → All IsSpace q → trim q ≡ []
unfolding trim
trim-spaces q h = ap trim_start (trim_end-spaces q h)

pub trim-append : (s q : List ℕ) → All IsSpace q → trim (s ++ q) ≡ trim s
unfolding trim
trim-append s q h = ap trim_start (trim_end-append s q h)

-- A text that starts visibly, behind white space: only its end is trimmed.
pub trim-behind :
    (p : List ℕ) (c : ℕ) (s : List ℕ)
    → All IsSpace p
    → IsVisible c
    → trim (p ++ c ∷ s) ≡ c ∷ trim_end s
unfolding trim
trim-behind p c s hp hc =
    let e : trim_end (c ∷ s) ≡ c ∷ trim_end s = trim_end-visible (c ∷ []) s (hc, tt) in
    ap trim_start (trim_end-behind p (c ∷ s) (ap is_empty e))
    ∙ trim_start-spaces p (trim_end (c ∷ s)) hp
    ∙ ap trim_start e
    ∙ trim_start-visible c (trim_end s) hc

-- A visible word at the start of a text is kept.
pub trim-visible :
    (c : ℕ) (v s : List ℕ) → All IsVisible (c ∷ v) → trim ((c ∷ v) ++ s) ≡ (c ∷ v) ++ trim_end s
trim-visible c v s h = trim-behind [] c (v ++ s) tt h.0 ∙ ap (◌∷◌ c) (trim_end-visible v s h.1)

-- The first line of a text: the characters up to the line feed, or without the carriage return
-- that they end with.
pub lines-cons :
    (l s : List ℕ)
    → All IsInLine l
    → (first : List ℕ) × (lines (l ++ 10 ∷ s) ≡ first ∷ lines s)
      × ((first ≡ l) ⊎ (l ≡ first ++ 13 ∷ []))
unfolding lines
lines-cons [] s h = ([], refl, inl refl)
lines-cons (c ∷ []) s h =
    let n : (c == 10) ≡ false = ground (arith, h.0) in
    elim (Bool-cases (c == 13)) [
      | inl t ↦ let e : c ≡ 13 = ground arith in ([], rw (n, t) refl, inr (ap (λ x. x ∷ []) e))
      | inr t ↦ (c ∷ [], rw (n, t) refl, inl refl)
    ]
lines-cons (c ∷ d ∷ l) s h =
    let (first, e, shape) = lines-cons (d ∷ l) s h.1 in
    let n : (c == 10) ≡ false = ground (arith, h.0) in
    let m : (d == 10) ≡ false = ground (arith, h.1.0) in
    let step : lines (c ∷ d ∷ (l ++ 10 ∷ s)) ≡ push_char c (lines (d ∷ (l ++ 10 ∷ s))) =
      whole c d (lines (d ∷ (l ++ 10 ∷ s))) n m in
    (
      c ∷ first,
      step ∙ ap (push_char c) e,
      elim shape [ inl same ↦ inl (ap (◌∷◌ c) same) | inr cut ↦ inr (ap (◌∷◌ c) cut) ],
    )
  where
    whole :
        (c d : ℕ) (rest : List (List ℕ))
        → (c == 10) ≡ false
        → (d == 10) ≡ false
        → (if c == 10
            then [] ∷ rest
            else if c == 13 && (d == 10 && true)
            then rest
            else push_char c rest)
          ≡ push_char c rest
    whole c d rest n m =
        rw (n, m) (elim (Bool-cases (c == 13)) [ inl t ↦ rw t refl | inr t ↦ rw t refl ])

-- Whichever of the two it is, trimming returns the same.
pub lines-trim :
    (l s : List ℕ)
    → All IsInLine l
    → (first : List ℕ) × (lines (l ++ 10 ∷ s) ≡ first ∷ lines s) × (trim first ≡ trim l)
unfolding is_whitespace
lines-trim l s h =
    let (first, e, shape) = lines-cons l s h in
    (
      first,
      e,
      elim shape [
        | inl same ↦ ap trim same
        | inr cut ↦ sym (ap trim cut ∙ trim-append first (13 ∷ []) (refl, tt))
      ],
    )
