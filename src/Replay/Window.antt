-- ===== src/Replay/Window.antt =====
-- The bitmap against the list of all ids accepted so far.
use just_another_vpn_server.Prelude.{
  ℕ, ◌+◌, ◌-◌, ◌*◌, ◌%◌, ◌^◌, ◌≤◌, ◌<◌, max, bit_and, bit_or, ◌≡◌, refl, ◌∙◌, ◌≢◌, Bool, true,
  false, not, ◌&&◌, List, [], ◌∷◌, ltb, leb, ◌==◌, if◌then◌else◌, arith, contains, inl, inr,
  Bool-cases,
}
use just_another_vpn_server.Prelude.Bits.{
  test_bit, test_bit-zero, test_bit-bit_or, test_bit-shift, test_bit-mod, bit_and-pow,
}
use just_another_vpn_server.Replay.{ReplayWindow, new, check_and_set, window_size}

abbrev pub max_of : List ℕ → ℕ
max_of [] = 0
max_of (x ∷ xs) = max x (max_of xs)

-- What the window promises, with no bound on what it remembers: an id is good once, unless it is 0
-- or 64 or more behind the highest one.
abbrev pub accepts : List ℕ → ℕ → Bool
accepts seen p = not (p == 0) && (not (contains seen p) && ltb (max_of seen) (p + window_size))

abbrev pub record_id : List ℕ → ℕ → List ℕ
record_id seen p = if accepts seen p then p ∷ seen else seen

pub record Represents (w : ReplayWindow) (seen : List ℕ) : Type 0 where
  pub top : max_of seen ≡ w.highest
  pub bits :
      (k : ℕ)
      → test_bit w.bitmap k ≡ (ltb k 64 && (ltb k w.highest && contains seen (w.highest - k)))

contains-above : (seen : List ℕ) (p : ℕ) → max_of seen < p → contains seen p ≡ false
contains-above [] p h = refl
contains-above (x ∷ xs) p h = ground (arith, contains-above xs p)

pub new-Represents : Represents new []
new-Represents = record { top = refl; bits = λ k. test_bit-zero k ∙ ground arith }

test_bit-one : (k : ℕ) → test_bit 1 k ≡ (k == 0)
test_bit-one k = test_bit-bit_or 0 0 k ∙ rw (test_bit-zero k) (ground arith)

module _ (w : ReplayWindow) (seen : List ℕ) (p : ℕ) (rep : Represents w seen) where
  jump_bits :
      (k : ℕ)
      → w.highest + 64 ≤ p
      → test_bit 1 k ≡ (ltb k 64 && (ltb k p && contains (p ∷ seen) (p - k)))
  jump_bits k h = ground (arith, test_bit-one k, contains-above seen (p - k), rep.top)

  slide_bits :
      (k : ℕ)
      → w.highest < p
      → test_bit (bit_or (w.bitmap * 2 ^ (p - w.highest) % 2 ^ 64) 1) k
        ≡ (ltb k 64 && (ltb k p && contains (p ∷ seen) (p - k)))
  slide_bits k h =
      let s : ℕ = p - w.highest in
      test_bit-bit_or (w.bitmap * 2 ^ s % 2 ^ 64) 0 k
      ∙ rw (test_bit-mod (w.bitmap * 2 ^ s) 64 k, test_bit-shift w.bitmap s k, rep.bits (k - s))
          (ground (arith, contains-above seen (p - k), rep.top))

  set_bits :
      (k : ℕ)
      → p ≤ w.highest
      → p ≢ 0
      → w.highest < p + 64
      → test_bit (bit_or w.bitmap (2 ^ (w.highest - p))) k
        ≡ (ltb k 64 && (ltb k w.highest && contains (p ∷ seen) (w.highest - k)))
  set_bits k h nz near = test_bit-bit_or w.bitmap (w.highest - p) k ∙ rw (rep.bits k) (ground arith)

  jump_Represents : w.highest + 64 ≤ p → Represents (record { highest = p; bitmap = 1 }) (p ∷ seen)
  jump_Represents h = record { top = omega (arith, rep.top); bits = λ k. jump_bits k h }

  slide_Represents :
      w.highest < p
      → Represents
          (record { highest = p; bitmap = bit_or (w.bitmap * 2 ^ (p - w.highest) % 2 ^ 64) 1 })
          (p ∷ seen)
  slide_Represents h = record { top = omega (arith, rep.top); bits = λ k. slide_bits k h }

  set_Represents :
      p ≤ w.highest
      → p ≢ 0
      → w.highest < p + 64
      → Represents (record w { bitmap = bit_or w.bitmap (2 ^ (w.highest - p)) }) (p ∷ seen)
  set_Represents h nz near = record {
    top = omega (arith, rep.top);
    bits = λ k. set_bits k h nz near;
  }

  -- The bit that is tested tells whether the id was accepted before.
  seen_bit :
      p ≤ w.highest
      → p ≢ 0
      → w.highest < p + 64
      → (bit_and w.bitmap (2 ^ (w.highest - p)) == 0) ≡ not (contains seen p)
  seen_bit h nz near =
      let e : w.highest - (w.highest - p) ≡ p = omega arith in
      bit_and-pow w.bitmap (w.highest - p) ∙ rw (rep.bits (w.highest - p), e) (ground arith)

  -- The verdict of `check_and_set` is the promised one, and the new window again represents the
  -- ids accepted so far.
  pub check_and_set-Represents :
      ((check_and_set w p).1 ≡ accepts seen p) × Represents (check_and_set w p).0 (record_id seen p)
  unfolding check_and_set
  check_and_set-Represents = elim (Bool-cases (p == 0)) [
    | inl z ↦ rw z (refl, rep)
    | inr nz ↦ elim (Bool-cases (ltb w.highest p)) [
      | inl up ↦
          let unseen : contains seen p ≡ false = contains-above seen p (ground (arith, rep.top)) in
          let late : ltb (max_of seen) (p + 64) ≡ true = ground (arith, rep.top) in
          elim (Bool-cases (leb 64 (p - w.highest))) [
            | inl far ↦ rw (nz, up, far, unseen, late) (refl, jump_Represents (ground arith))
            | inr near ↦ rw (nz, up, near, unseen, late) (refl, slide_Represents (ground arith))
          ]
      | inr down ↦ elim (Bool-cases (leb 64 (w.highest - p))) [
        | inl old ↦
            let late : ltb (max_of seen) (p + 64) ≡ false = ground (arith, rep.top) in
            elim (Bool-cases (contains seen p)) [
              | inl c ↦ rw (nz, down, old, c) (refl, rep)
              | inr c ↦ rw (nz, down, old, c, late) (refl, rep)
            ]
        | inr near ↦
            let late : ltb (max_of seen) (p + 64) ≡ true = ground (arith, rep.top) in
            let bit : (bit_and w.bitmap (2 ^ (w.highest - p)) == 0) ≡ not (contains seen p) =
              seen_bit (ground arith) (ground arith) (ground arith) in
            elim (Bool-cases (contains seen p)) [
              | inl c ↦ rw (nz, down, near, bit, c) (refl, rep)
              | inr c ↦
                  rw (nz, down, near, bit, c, late)
                    (refl, set_Represents (ground arith) (ground arith) (ground arith))
            ]
      ]
    ]
  ]
