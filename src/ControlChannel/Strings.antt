-- ===== src/ControlChannel/Strings.antt =====
-- One string of the stream: bounds, more input behind it, and reading back what was written.
use just_another_vpn_server.Prelude.{
  ℕ, ◌+◌, ◌%◌, ◌^◌, ◌≤◌, ◌<◌, ◌≡◌, refl, ap, ◌∙◌, false, List, [], ◌∷◌, ◌++◌, none, some, length,
  take, drop, ltb, ◌==◌, if◌then◌else◌, arith, length-append, length-drop, take-append, drop-append,
  take-append_left, drop-append_left, drop-append_past, le→ltb_false, ltb_false→le, Bool-cases, inl,
  inr,
}
use native.Mathlib.Nat.{mod-eq_of_lt}
use mathlib.Core.List.{append_assoc}
use just_another_vpn_server.Prelude.Bytes.{to_be, from_be, from_be-to_be, length-to_be}
use just_another_vpn_server.Primitives.{Primitives}
use just_another_vpn_server.ControlChannel.{strip_nul, write_lp_string, read_lp_string}

-- A slice inside the buffer is the same slice of a longer buffer.
pub slice-append :
    (off n : ℕ) (buf more : List ℕ)
    → off + n ≤ length buf
    → take n (drop off (buf ++ more)) ≡ take n (drop off buf)
slice-append off n buf more h =
    ap (take n) (drop-append_left off buf more (omega arith))
    ∙ take-append_left n (drop off buf) more (omega (arith, length-drop off buf))

module _ (lib : Primitives) where
  -- A string that is read ends inside the buffer, behind its offset, and is read from every longer
  -- buffer too.
  pub read_lp_string-append :
      (buf more : List ℕ) (off : ℕ) (s : List ℕ) (end : ℕ)
      → read_lp_string lib buf off ≡ some (s, end)
      → (read_lp_string lib (buf ++ more) off ≡ some (s, end)) × (end ≤ length buf) × (off < end)
  unfolding read_lp_string
  read_lp_string-append buf more off s end h =
      let len : ℕ = from_be (take 2 (drop off buf)) in
      let len' : length (buf ++ more) ≡ length buf + length more = length-append buf more in
      elim (Bool-cases (ltb (length buf) (off + 2))) [
        | inl short ↦ let bad : none ≡ some (s, end) = rw short at h in cc
        | inr room ↦ elim (Bool-cases (ltb (length buf) (off + 2 + len))) [
          | inl cut ↦ let bad : none ≡ some (s, end) = rw (room, cut) at h in cc
          | inr whole ↦
              let fits : off + 2 + len ≤ length buf = ltb_false→le _ _ whole in
              let h2 : (if len == 0
                    then some ([], off + 2 + len)
                    else some (
                      lib.from_utf8_lossy (strip_nul (take len (drop (off + 2) buf))),
                      off + 2 + len,
                    ))
                  ≡ some (s, end) =
                rw (room, whole) at h in
              let e : end ≡ off + 2 + len = ground arith in
              (
                rw
                    (
                      slice-append off 2 buf more (omega arith),
                      le→ltb_false (length (buf ++ more)) (off + 2) (omega arith),
                      le→ltb_false (length (buf ++ more)) (off + 2 + len) (omega arith),
                      slice-append (off + 2) len buf more fits,
                    )
                    h2,
                omega arith,
                omega arith,
              )
        ]
      ]

strip_nul-snoc : (s : List ℕ) → strip_nul (s ++ 0 ∷ []) ≡ s
unfolding strip_nul
strip_nul-snoc [] = refl
strip_nul-snoc (a ∷ []) = refl
strip_nul-snoc (a ∷ b ∷ s) = ap (◌∷◌ a) (strip_nul-snoc (b ∷ s))

-- A string as `write_lp_string` lays it out.
pub lp_bytes : List ℕ → List ℕ
lp_bytes s = to_be 2 (length s + 1) ++ (s ++ 0 ∷ [])

pub length-lp_bytes : (s : List ℕ) → length (lp_bytes s) ≡ length s + 3
unfolding lp_bytes
length-lp_bytes s = omega (
  arith,
  length-append (to_be 2 (length s + 1)) (s ++ 0 ∷ []),
  length-to_be 2 (length s + 1),
  length-append s (0 ∷ []),
)

pub write_lp_string-lp_bytes :
    (out s : List ℕ) → length s < 65535 → write_lp_string out s ≡ out ++ lp_bytes s
unfolding write_lp_string lp_bytes
write_lp_string-lp_bytes out s h =
    let e : (length s + 1) % 2 ^ 16 ≡ length s + 1 = mod-eq_of_lt (omega arith) in
    rw e (append_assoc out (to_be 2 (length s + 1)) (s ++ 0 ∷ []))

-- Reading at the offset where a written string begins returns it, and the offset behind it.
pub read_lp_string-lp_bytes :
    (lib : Primitives) (front s rest : List ℕ)
    → length s < 65535
    → lib.from_utf8_lossy s ≡ s
    → read_lp_string lib (front ++ (lp_bytes s ++ rest)) (length front)
      ≡ some (s, length front + 2 + (length s + 1))
unfolding read_lp_string lp_bytes
read_lp_string-lp_bytes lib front s rest h utf8 =
    let n : ℕ = length s + 1 in
    let text : List ℕ = s ++ 0 ∷ [] in
    let field : List ℕ = (to_be 2 n ++ text) ++ rest in
    let l2 : length (to_be 2 n) ≡ 2 = length-to_be 2 n in
    let lt : length text ≡ n = omega (arith, length-append s (0 ∷ [])) in
    let assoc : field ≡ to_be 2 n ++ (text ++ rest) = append_assoc (to_be 2 n) text rest in
    let total : length (front ++ field) ≡ length front + (2 + (n + length rest)) = rw assoc (
      omega (
        arith,
        length-append front (to_be 2 n ++ (text ++ rest)),
        length-append (to_be 2 n) (text ++ rest),
        length-append text rest,
        l2,
        lt,
      )) in
    let here : drop (length front) (front ++ field) ≡ to_be 2 n ++ (text ++ rest) =
      drop-append (length front) front field refl ∙ assoc in
    let behind : drop (length front + 2) (front ++ field) ≡ text ++ rest =
      drop-append_past (length front + 2) (length front) 2 front field refl refl
      ∙ ap (drop 2) assoc
      ∙ drop-append 2 (to_be 2 n) (text ++ rest) l2 in
    let size : from_be (take 2 (drop (length front) (front ++ field))) ≡ n =
      ap (λ t. from_be (take 2 t)) here
      ∙ ap from_be (take-append 2 (to_be 2 n) (text ++ rest) l2)
      ∙ from_be-to_be 2 n (omega arith) in
    let nz : (n == 0) ≡ false = ground arith in
    rw (
      size,
      le→ltb_false (length (front ++ field)) (length front + 2) (omega (arith, total)),
      le→ltb_false (length (front ++ field)) (length front + 2 + n) (omega (arith, total)),
      nz,
      behind,
      take-append n text rest lt,
      strip_nul-snoc s,
      utf8,
    )
