-- ===== src/ControlChannel/Stream.antt =====
-- The stream parsers on a buffer that is still growing: what they return and how much they consume.
use just_another_vpn_server.Prelude.{
  Option-cases, ℕ, zero, suc, ◌+◌, ◌≤◌, ◌<◌, ◌≡◌, refl, ap, false, not, List, [], ◌∷◌, ◌++◌, Option,
  none, some, length, get_or, take, ltb, ◌==◌, list_beq, Result, ok, err, arith, length-append,
  take-append_left, take-append, le→ltb_false, ltb_false→le, Bool-cases, bail_if-eq-ok, inl, inr,
  ◌≢◌, All,
}
use mathlib.Core.Option.{some-injective}
use just_another_vpn_server.Primitives.{Primitives}
use just_another_vpn_server.ControlChannel.{
  read_lp_string, parse_strings, try_parse, position_nul, pop_before, try_pop_ascii, Pop, ready,
  need_more, or_more, ClientKeyMethod2, key_method_2,
}
use just_another_vpn_server.ControlChannel.Strings.{slice-append, read_lp_string-append}

-- A run of `or_more` that is ready had a value.
or_more-ready :
    {A B : Type 0} (o : Option A) (k : A → Result (Pop B)) (b : B) (n : ℕ)
    → or_more o k ≡ ok (ready b n)
    → (a : A) × (o ≡ some a) × (k a ≡ ok (ready b n))
or_more-ready none k b n h = cc
or_more-ready (some a) k b n h = (a, refl, h)

abbrev consumed {ℓ} : {A : Type ℓ} → Result (Pop A) → ℕ
consumed (ok (ready a n)) = n
consumed (ok need_more) = 0
consumed (err e) = 0

get_or-append :
    (i : ℕ) (xs ys : List ℕ) (d : ℕ) → i < length xs → get_or (xs ++ ys) i d ≡ get_or xs i d
get_or-append i [] ys d h = absurd (omega arith)
get_or-append zero (x ∷ xs) ys d h = refl
get_or-append (suc i) (x ∷ xs) ys d h = get_or-append i xs ys d (omega arith)

module _ (lib : Primitives) where
  parse_strings-append :
      (buf more pre r1 r2 : List ℕ) (km : ClientKeyMethod2) (n : ℕ)
      → parse_strings lib buf pre r1 r2 ≡ ok (ready km n)
      → (parse_strings lib (buf ++ more) pre r1 r2 ≡ ok (ready km n)) × (n ≤ length buf) × (117 < n)
  unfolding parse_strings
  parse_strings-append buf more pre r1 r2 km n h =
      let (a, ea, ha) = or_more-ready (read_lp_string lib buf 117) _ km n h in
      let (b, eb, hb) = or_more-ready (read_lp_string lib buf a.1) _ km n ha in
      let (c, ec, hc) = or_more-ready (read_lp_string lib buf b.1) _ km n hb in
      let (d, ed, hd) = or_more-ready (read_lp_string lib buf c.1) _ km n hc in
      let (fa, la, ga) = read_lp_string-append lib buf more 117 a.0 a.1 ea in
      let (fb, lb, gb) = read_lp_string-append lib buf more a.1 b.0 b.1 eb in
      let (fc, lc, gc) = read_lp_string-append lib buf more b.1 c.0 c.1 ec in
      let (fd, ld, gd) = read_lp_string-append lib buf more c.1 d.0 d.1 ed in
      let size : d.1 ≡ n = ap consumed hd in (rw (fa, fb, fc, fd) hd, omega arith, omega arith)

  -- Where the parser of the client's key-method-2 message is ready, it consumed bytes of the buffer
  -- only, more than the 117 of the fixed part; and bytes that arrive behind them change neither the
  -- message nor the number consumed.
  pub try_parse-append :
      (buf more : List ℕ) (km : ClientKeyMethod2) (n : ℕ)
      → try_parse lib buf ≡ ok (ready km n)
      → (try_parse lib (buf ++ more) ≡ ok (ready km n)) × (n ≤ length buf) × (117 < n)
  unfolding try_parse
  try_parse-append buf more km n h = elim (Bool-cases (ltb (length buf) 117)) [
    | inl short ↦ let bad : ok need_more ≡ ok (ready km n) = rw short at h in cc
    | inr room ↦
        let long : 117 ≤ length buf = ltb_false→le _ _ room in
        let (zeros, h1) =
          bail_if-eq-ok (not (list_beq (take 4 buf) (0 ∷ 0 ∷ 0 ∷ 0 ∷ []))) _ _ (rw room at h) in
        let (method, h2) = bail_if-eq-ok (not (get_or buf 4 0 == key_method_2)) _ _ h1 in
        let (again, fits, some_bytes) = parse_strings-append buf more _ _ _ km n h2 in
        (
          rw
              (
                le→ltb_false (length (buf ++ more)) 117 (omega (arith, length-append buf more)),
                take-append_left 4 buf more (omega arith),
                get_or-append 4 buf more 0 (omega arith),
                zeros,
                method,
                slice-append 5 48 buf more (omega arith),
                slice-append 53 32 buf more (omega arith),
                slice-append 85 32 buf more (omega arith),
              )
              again,
          fits,
          some_bytes,
        )
  ]

All-nonzero-position_nul :
    (s rest : List ℕ) → All (λ b. b ≢ 0) s → position_nul (s ++ 0 ∷ rest) ≡ some (length s)
unfolding position_nul
All-nonzero-position_nul [] rest h = refl
All-nonzero-position_nul (b ∷ s) rest h =
    let nz : (b == 0) ≡ false = ground (arith, h.0) in rw (nz, All-nonzero-position_nul s rest h.1)

All-nonzero-no_position : (s : List ℕ) → All (λ b. b ≢ 0) s → position_nul s ≡ none
unfolding position_nul
All-nonzero-no_position [] h = refl
All-nonzero-no_position (b ∷ s) h =
    let nz : (b == 0) ≡ false = ground (arith, h.0) in rw (nz, All-nonzero-no_position s h.1)

-- A message without a NUL in it is popped once its NUL has arrived, with the number of bytes up to
-- and including the NUL, whatever follows; before that the parser asks for more.
pub try_pop_ascii-nul :
    (lib : Primitives) (s rest : List ℕ)
    → All (λ b. b ≢ 0) s
    → (try_pop_ascii lib (s ++ 0 ∷ rest) ≡ ready (lib.from_utf8_lossy s) (length s + 1))
      × (try_pop_ascii lib s ≡ need_more)
unfolding try_pop_ascii pop_before
try_pop_ascii-nul lib s rest h = (
  rw (All-nonzero-position_nul s rest h, take-append (length s) s (0 ∷ rest) refl),
  rw (All-nonzero-no_position s h),
)

pub position_nul_bound : (buf : List ℕ) (i : ℕ) → position_nul buf ≡ some i → i < length buf
unfolding position_nul
position_nul_bound [] i h = cc
position_nul_bound (b ∷ bs) i h = elim (Bool-cases (b == 0)) [
  | inl t ↦ let e : some 0 ≡ some i = rw t at h in omega (arith, some-injective _ _ e)
  | inr t ↦ elim (Option-cases (position_nul bs)) [
    | inl n ↦ let e : none ≡ some i = rw (t, n) at h in cc
    | inr (j, n) ↦
        let e : some (suc j) ≡ some i = rw (t, n) at h in
        omega (arith, some-injective _ _ e, position_nul_bound bs j n)
  ]
]
