-- ===== src/Prelude/Bytes.antt =====
-- Byte strings: big-endian numbers, and the `Buf` and `BufMut` calls of the `bytes` crate that the
-- packet codecs make, as an interface with the behaviour its documentation gives.
use just_another_vpn_server.Prelude.Lists.{
  length, take, drop, All, length-append, take-append, drop-append, All-append, length-take,
  take-append-drop, All-take, All-drop, get_or,
}
use Prim.Native.Nat.{ℕ, zero, suc, ◌+◌, ◌*◌, ◌/◌, ◌%◌, ◌^◌, ◌≤◌, ◌<◌}
use mathlib.Core.Path.{sym, ap, ◌≡◌, refl, ◌∙◌}
use mathlib.Core.List.{List, [], ◌∷◌, ◌++◌}
use native.Mathlib.Omega.{arith}
use native.Mathlib.Nat.{pow-suc}

abbrev pub IsByte : ℕ → Type 0
IsByte b = b < 256

abbrev pub IsU16 : ℕ → Type 0
IsU16 n = n < 2 ^ 16

abbrev pub IsU32 : ℕ → Type 0
IsU32 n = n < 2 ^ 32

abbrev pub IsU64 : ℕ → Type 0
IsU64 n = n < 2 ^ 64

-- `to_be_bytes` at a width of `w` bytes.
unfoldable pub to_be : ℕ → ℕ → List ℕ
to_be zero n = []
to_be (suc w) n = to_be w (n / 256) ++ n % 256 ∷ []

unfoldable pub from_be_acc : ℕ → List ℕ → ℕ
from_be_acc acc [] = acc
from_be_acc acc (b ∷ bs) = from_be_acc (acc * 256 + b) bs

-- `from_be_bytes`
unfoldable pub from_be : List ℕ → ℕ
unfolding from_be_acc
from_be = from_be_acc 0

pub length-to_be : (w n : ℕ) → length (to_be w n) ≡ w
unfolding to_be
length-to_be zero n = refl
length-to_be (suc w) n =
    omega (arith, length-append (to_be w (n / 256)) (n % 256 ∷ []), length-to_be w (n / 256))

pub to_be-IsByte : (w n : ℕ) → All IsByte (to_be w n)
unfolding to_be
to_be-IsByte zero n = tt
to_be-IsByte (suc w) n =
    All-append IsByte (to_be w (n / 256)) (n % 256 ∷ []) (to_be-IsByte w (n / 256)) (omega arith)

from_be_acc-snoc :
    (acc : ℕ) (bs : List ℕ) (b : ℕ) → from_be_acc acc (bs ++ b ∷ []) ≡ from_be_acc acc bs * 256 + b
unfolding from_be_acc
from_be_acc-snoc acc [] b = refl
from_be_acc-snoc acc (c ∷ bs) b = from_be_acc-snoc (acc * 256 + c) bs b

pub from_be-to_be : (w n : ℕ) → n < 256 ^ w → from_be (to_be w n) ≡ n
unfolding to_be from_be
from_be-to_be zero n h = omega arith
from_be-to_be (suc w) n h =
    let small : n / 256 < 256 ^ w = omega (arith, pow-suc 256 w) in
    omega (arith, from_be_acc-snoc 0 (to_be w (n / 256)) (n % 256), from_be-to_be w (n / 256) small)

snoc_view :
    (n : ℕ) (bs : List ℕ)
    → length bs ≡ suc n
    → All IsByte bs
    → (front : List ℕ) × (b : ℕ) × (bs ≡ front ++ b ∷ [])
      × (length front ≡ n)
      × All IsByte front
      × IsByte b
snoc_view n [] e h = absurd (omega arith)
snoc_view zero (b ∷ []) e h = ([], b, refl, refl, tt, h.0)
snoc_view zero (b ∷ c ∷ bs) e h = absurd (omega arith)
snoc_view (suc n) (b ∷ bs) e h =
    let (front, c, split, len, ok, byte) = snoc_view n bs (omega arith) h.1 in
    (b ∷ front, c, ap (◌∷◌ b) split, ap suc len, (h.0, ok), byte)

-- A number read from `w` bytes is below `256 ^ w` and is written as those bytes.
pub to_be-from_be :
    (w : ℕ) (bs : List ℕ)
    → length bs ≡ w
    → All IsByte bs
    → (to_be w (from_be bs) ≡ bs) × (from_be bs < 256 ^ w)
unfolding to_be from_be
to_be-from_be zero [] e h = (refl, omega arith)
to_be-from_be zero (b ∷ bs) e h = absurd (omega arith)
to_be-from_be (suc w) bs e h =
    let (front, b, split, len, fs, byte) = snoc_view w bs e h in
    let (same, small) = to_be-from_be w front len fs in
    let n : from_be_acc 0 (front ++ b ∷ []) ≡ from_be_acc 0 front * 256 + b =
      from_be_acc-snoc 0 front b in
    let hi : from_be_acc 0 (front ++ b ∷ []) / 256 ≡ from_be_acc 0 front = omega (arith, n, byte) in
    let lo : from_be_acc 0 (front ++ b ∷ []) % 256 ≡ b = omega (arith, n, byte) in
    rw split (rw (hi, lo, same), omega (arith, n, small, byte, pow-suc 256 w))

-- What the codecs use of the `bytes` crate. A `get` returns the number and the rest of the slice.
pub record Buf : Type 0 where
  pub get_u8 : List ℕ → ℕ × List ℕ
  pub get_u32 : List ℕ → ℕ × List ℕ
  pub get_u64 : List ℕ → ℕ × List ℕ
  pub put_u8 : List ℕ → ℕ → List ℕ
  pub put_u32 : List ℕ → ℕ → List ℕ
  pub put_u64 : List ℕ → ℕ → List ℕ

-- Its documented behaviour: big-endian order, the cursor moves by the width, and a `get` panics
-- (here: anything goes) where the slice is too short.
pub record IsBuf (lib : Buf) : Type 0 where
  pub get_u8_eq : (b : ℕ) (rest : List ℕ) → lib.get_u8 (b ∷ rest) ≡ (b, rest)
  pub get_u32_eq : (bs : List ℕ) → 4 ≤ length bs → lib.get_u32 bs ≡ (from_be (take 4 bs), drop 4 bs)
  pub get_u64_eq : (bs : List ℕ) → 8 ≤ length bs → lib.get_u64 bs ≡ (from_be (take 8 bs), drop 8 bs)
  pub put_u8_eq : (out : List ℕ) (n : ℕ) → lib.put_u8 out n ≡ out ++ n ∷ []
  pub put_u32_eq : (out : List ℕ) (n : ℕ) → lib.put_u32 out n ≡ out ++ to_be 4 n
  pub put_u64_eq : (out : List ℕ) (n : ℕ) → lib.put_u64 out n ≡ out ++ to_be 8 n

module _ {lib : Buf} (laws : IsBuf lib) where
  pub get_u32-to_be :
      (n : ℕ) (rest : List ℕ) → IsU32 n → lib.get_u32 (to_be 4 n ++ rest) ≡ (n, rest)
  get_u32-to_be n rest h =
      laws.get_u32_eq _ (omega (arith, length-append (to_be 4 n) rest, length-to_be 4 n))
      ∙ rw (
        take-append 4 (to_be 4 n) rest (length-to_be 4 n),
        drop-append 4 (to_be 4 n) rest (length-to_be 4 n),
        from_be-to_be 4 n h,
      )

  pub get_u64-to_be :
      (n : ℕ) (rest : List ℕ) → IsU64 n → lib.get_u64 (to_be 8 n ++ rest) ≡ (n, rest)
  get_u64-to_be n rest h =
      laws.get_u64_eq _ (omega (arith, length-append (to_be 8 n) rest, length-to_be 8 n))
      ∙ rw (
        take-append 8 (to_be 8 n) rest (length-to_be 8 n),
        drop-append 8 (to_be 8 n) rest (length-to_be 8 n),
        from_be-to_be 8 n h,
      )

  pub get_u32_split :
      (bs : List ℕ)
      → 4 ≤ length bs
      → All IsByte bs
      → (bs ≡ to_be 4 (lib.get_u32 bs).0 ++ (lib.get_u32 bs).1)
        × IsU32 (lib.get_u32 bs).0
        × All IsByte (lib.get_u32 bs).1
  get_u32_split bs h bytes =
      let len : length (take 4 bs) ≡ 4 = omega (arith, length-take 4 bs) in
      let (same, small) = to_be-from_be 4 (take 4 bs) len (All-take IsByte 4 bs bytes) in
      rw (laws.get_u32_eq bs h, same)
        (sym (take-append-drop 4 bs), small, All-drop IsByte 4 bs bytes)

  pub get_u64_split :
      (bs : List ℕ)
      → 8 ≤ length bs
      → All IsByte bs
      → (bs ≡ to_be 8 (lib.get_u64 bs).0 ++ (lib.get_u64 bs).1)
        × IsU64 (lib.get_u64 bs).0
        × All IsByte (lib.get_u64 bs).1
  get_u64_split bs h bytes =
      let len : length (take 8 bs) ≡ 8 = omega (arith, length-take 8 bs) in
      let (same, small) = to_be-from_be 8 (take 8 bs) len (All-take IsByte 8 bs bytes) in
      rw (laws.get_u64_eq bs h, same)
        (sym (take-append-drop 8 bs), small, All-drop IsByte 8 bs bytes)

-- An implementation with that behaviour.
abbrev pub buf : Buf
buf = record {
  get_u8 = λ bs. (get_or bs 0 0, drop 1 bs);
  get_u32 = λ bs. (from_be (take 4 bs), drop 4 bs);
  get_u64 = λ bs. (from_be (take 8 bs), drop 8 bs);
  put_u8 = λ out n. out ++ n ∷ [];
  put_u32 = λ out n. out ++ to_be 4 n;
  put_u64 = λ out n. out ++ to_be 8 n;
}

pub buf-IsBuf : IsBuf buf
buf-IsBuf = record {
  get_u8_eq = λ b rest. refl;
  get_u32_eq = λ bs h. refl;
  get_u64_eq = λ bs h. refl;
  put_u8_eq = λ out n. refl;
  put_u32_eq = λ out n. refl;
  put_u64_eq = λ out n. refl;
}
