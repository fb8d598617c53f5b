-- ===== src/Prelude/Lists.antt =====
-- Lists measured, cut and compared by native numbers, under the library's names.
use Prim.Native.Nat.{ℕ, zero, suc, ◌+◌, ◌-◌, ◌≤◌, min}
use mathlib.Core.Path.{sym, ◌≡◌, refl, ap}
use mathlib.Core.Bool.{Bool, true, false, ◌&&◌, ◌||◌}
use mathlib.Core.List.{List, [], ◌∷◌, ◌++◌}
use native.Mathlib.Omega.{arith}
use just_another_vpn_server.Prelude.Tests.{◌==◌, if◌then◌else◌}

module _ {ℓ} {A : Type ℓ} where
  abbrev pub length : List A → ℕ
  length [] = 0
  length (x ∷ xs) = suc (length xs)

  abbrev pub get_or : List A → ℕ → A → A
  get_or [] i d = d
  get_or (x ∷ xs) zero d = x
  get_or (x ∷ xs) (suc i) d = get_or xs i d

  abbrev pub take : ℕ → List A → List A
  take zero xs = []
  take (suc n) [] = []
  take (suc n) (x ∷ xs) = x ∷ take n xs

  abbrev pub drop : ℕ → List A → List A
  drop zero xs = xs
  drop (suc n) [] = []
  drop (suc n) (x ∷ xs) = drop n xs

  abbrev pub replicate : ℕ → A → List A
  replicate zero a = []
  replicate (suc n) a = a ∷ replicate n a

  abbrev pub is_empty : List A → Bool
  is_empty [] = true
  is_empty (x ∷ xs) = false

  -- `retain`, and `filter` by a Boolean test.
  abbrev pub retain : (A → Bool) → List A → List A
  retain p [] = []
  retain p (x ∷ xs) = if p x then x ∷ retain p xs else retain p xs

module _ {ℓ} {A : Type ℓ} where
  pub length-append : (xs ys : List A) → length (xs ++ ys) ≡ length xs + length ys
  length-append [] ys = omega arith
  length-append (x ∷ xs) ys = omega (arith, length-append xs ys)

  pub length-take : (n : ℕ) (xs : List A) → length (take n xs) ≡ min n (length xs)
  length-take zero xs = omega arith
  length-take (suc n) [] = omega arith
  length-take (suc n) (x ∷ xs) = omega (arith, length-take n xs)

  pub length-drop : (n : ℕ) (xs : List A) → length (drop n xs) ≡ length xs - n
  length-drop zero xs = omega arith
  length-drop (suc n) [] = omega arith
  length-drop (suc n) (x ∷ xs) = omega (arith, length-drop n xs)

  pub take-append-drop : (n : ℕ) (xs : List A) → take n xs ++ drop n xs ≡ xs
  take-append-drop zero xs = refl
  take-append-drop (suc n) [] = refl
  take-append-drop (suc n) (x ∷ xs) = ap (◌∷◌ x) (take-append-drop n xs)

  -- Cutting an append where the first part ends.
  pub take-append : (n : ℕ) (xs ys : List A) → length xs ≡ n → take n (xs ++ ys) ≡ xs
  take-append zero [] ys e = refl
  take-append zero (x ∷ xs) ys e = absurd (omega arith)
  take-append (suc n) [] ys e = absurd (omega arith)
  take-append (suc n) (x ∷ xs) ys e = ap (◌∷◌ x) (take-append n xs ys (omega arith))

  pub drop-append : (n : ℕ) (xs ys : List A) → length xs ≡ n → drop n (xs ++ ys) ≡ ys
  drop-append zero [] ys e = refl
  drop-append zero (x ∷ xs) ys e = absurd (omega arith)
  drop-append (suc n) [] ys e = absurd (omega arith)
  drop-append (suc n) (x ∷ xs) ys e = drop-append n xs ys (omega arith)

  -- Cutting inside the first part of an append.
  pub take-append_left : (n : ℕ) (xs ys : List A) → n ≤ length xs → take n (xs ++ ys) ≡ take n xs
  take-append_left zero xs ys h = refl
  take-append_left (suc n) [] ys h = absurd (omega arith)
  take-append_left (suc n) (x ∷ xs) ys h = ap (◌∷◌ x) (take-append_left n xs ys (omega arith))

  pub drop-append_left :
      (n : ℕ) (xs ys : List A) → n ≤ length xs → drop n (xs ++ ys) ≡ drop n xs ++ ys
  drop-append_left zero xs ys h = refl
  drop-append_left (suc n) [] ys h = absurd (omega arith)
  drop-append_left (suc n) (x ∷ xs) ys h = drop-append_left n xs ys (omega arith)

  -- Cutting behind the first part of an append.
  pub drop-append_past :
      (k m n : ℕ) (xs ys : List A) → length xs ≡ m → k ≡ m + n → drop k (xs ++ ys) ≡ drop n ys
  drop-append_past k m n [] ys e h = let p : k ≡ n = omega arith in rw p
  drop-append_past zero m n (x ∷ xs) ys e h = absurd (omega arith)
  drop-append_past (suc k) m n (x ∷ xs) ys e h =
      drop-append_past k (length xs) n xs ys refl (omega arith)

  pub drop-drop : (k m n : ℕ) (xs : List A) → k ≡ m + n → drop n (drop m xs) ≡ drop k xs
  drop-drop k zero n xs h = let p : k ≡ n = omega arith in rw p
  drop-drop zero (suc m) n xs h = absurd (omega arith)
  drop-drop (suc k) (suc m) zero [] h = refl
  drop-drop (suc k) (suc m) (suc n) [] h = refl
  drop-drop (suc k) (suc m) n (x ∷ xs) h = drop-drop k m n xs (omega arith)

  -- One more field of a record that is laid out in a byte string.
  pub drop_field :
      (k m n : ℕ) (xs : List A) → k ≡ m + n → drop m xs ≡ take n (drop m xs) ++ drop k xs
  drop_field k m n xs h = rw (← drop-drop k m n xs h) (sym (take-append-drop n (drop m xs)))

  pub cons_field : (d : A) (xs : List A) → 1 ≤ length xs → xs ≡ get_or xs 0 d ∷ drop 1 xs
  cons_field d [] h = absurd (omega arith)
  cons_field d (x ∷ xs) h = refl

  -- Cutting an append anywhere.
  pub take-append_min :
      (k : ℕ) (xs ys : List A)
      → take k (xs ++ ys) ≡ take (min (length xs) k) xs ++ take (k - min (length xs) k) ys
  take-append_min zero [] ys = refl
  take-append_min (suc k) [] ys =
      let e : min 0 (suc k) ≡ 0 = omega arith in
      let f : suc k - 0 ≡ suc k = omega arith in rw (e, f) refl
  take-append_min zero (x ∷ xs) ys = let e : min (suc (length xs)) 0 ≡ 0 = omega arith in rw e refl
  take-append_min (suc k) (x ∷ xs) ys =
      let e : min (suc (length xs)) (suc k) ≡ suc (min (length xs) k) = omega arith in
      let f : suc k - suc (min (length xs) k) ≡ k - min (length xs) k = omega arith in
      rw (e, f) (ap (◌∷◌ x) (take-append_min k xs ys))

  pub take_all : (n : ℕ) (xs : List A) → length xs ≤ n → take n xs ≡ xs
  take_all zero [] h = refl
  take_all zero (x ∷ xs) h = absurd (omega arith)
  take_all (suc n) [] h = refl
  take_all (suc n) (x ∷ xs) h = ap (◌∷◌ x) (take_all n xs (omega arith))

  pub drop_all : (n : ℕ) (xs : List A) → length xs ≤ n → drop n xs ≡ []
  drop_all zero [] h = refl
  drop_all zero (x ∷ xs) h = absurd (omega arith)
  drop_all (suc n) [] h = refl
  drop_all (suc n) (x ∷ xs) h = drop_all n xs (omega arith)

module _ {ℓ κ} {A : Type ℓ} (P : A → Type κ) where
  abbrev pub All : List A → Type κ
  All [] = Unit
  All (x ∷ xs) = P x × All xs

module _ {ℓ κ} {A : Type ℓ} (P : A → Type κ) where
  pub All-append : (xs ys : List A) → All P xs → All P ys → All P (xs ++ ys)
  All-append [] ys hx hy = hy
  All-append (x ∷ xs) ys hx hy = (hx.0, All-append xs ys hx.1 hy)

  pub All-take : (n : ℕ) (xs : List A) → All P xs → All P (take n xs)
  All-take zero xs h = tt
  All-take (suc n) [] h = tt
  All-take (suc n) (x ∷ xs) h = (h.0, All-take n xs h.1)

  pub All-drop : (n : ℕ) (xs : List A) → All P xs → All P (drop n xs)
  All-drop zero xs h = h
  All-drop (suc n) [] h = tt
  All-drop (suc n) (x ∷ xs) h = All-drop n xs h.1

-- `slice.contains`, and equality of byte slices.
abbrev pub contains : List ℕ → ℕ → Bool
contains [] a = false
contains (x ∷ xs) a = x == a || contains xs a

abbrev pub list_beq : List ℕ → List ℕ → Bool
list_beq [] [] = true
list_beq [] (y ∷ ys) = false
list_beq (x ∷ xs) [] = false
list_beq (x ∷ xs) (y ∷ ys) = x == y && list_beq xs ys

pub list_beq→eq : (xs ys : List ℕ) → list_beq xs ys ≡ true → xs ≡ ys
list_beq→eq [] [] h = refl
list_beq→eq [] (y ∷ ys) h = cc
list_beq→eq (x ∷ xs) [] h = cc
list_beq→eq (x ∷ xs) (y ∷ ys) h = ground (arith, list_beq→eq xs ys)

pub list_beq_self : (xs : List ℕ) → list_beq xs xs ≡ true
list_beq_self [] = refl
list_beq_self (x ∷ xs) = ground (arith, list_beq_self xs)
