-- ===== src/Prelude/Bits.antt =====
-- The bits of a machine word, and what `|`, `&`, `<<` and truncation do to each of them.
use Prim.Native.Nat.{
  ℕ, zero, suc, ◌+◌, ◌-◌, ◌*◌, ◌/◌, ◌%◌, ◌^◌, ◌≤◌, ◌<◌, min, max, bit_and, bit_or, digits, bitwise,
  bit_and-bitwise, bit_or-bitwise,
}
use mathlib.Core.Path.{◌≡◌, refl, sym, ap, ◌∙◌}
use mathlib.Core.Bool.{Bool, false, not, ◌&&◌, ◌||◌}
use native.Mathlib.Omega.{arith}
use native.Mathlib.Nat.{le_refl, pow-suc, one-le-pow, mod-lt, div-add-mod}
use native.Mathlib.Nat.{mul-add-mod_self_left, mod-eq_of_lt}
use just_another_vpn_server.Prelude.Tests.{◌==◌, ltb}

-- `|` and `&` on the lowest bit and on the others. The library defines both with fuel; a number is
-- fuel enough for itself, and fuel beyond that changes nothing.
module _ (rest : ℕ → ℕ) (op : ℕ → ℕ → ℕ) where
  one_more : (x y k : ℕ) → x ≤ k → digits rest op (suc k) x y ≡ digits rest op k x y
  one_more zero y zero h = refl
  one_more zero y (suc k) h = refl
  one_more (suc x) y zero h = absurd (omega arith)
  one_more (suc x) y (suc k) h =
      ap (λ t. t * 2 + op (suc x % 2) (y % 2)) (one_more (suc x / 2) (y / 2) k (omega arith))

  any_more :
      (extra x y k total : ℕ)
      → total ≡ k + extra
      → x ≤ k
      → digits rest op total x y ≡ digits rest op k x y
  any_more zero x y k total e h = let same : total ≡ k = omega arith in rw same refl
  any_more (suc extra) x y k zero e h = absurd (omega arith)
  any_more (suc extra) x y k (suc total) e h =
      one_more x y total (omega arith) ∙ any_more extra x y k total (omega arith) h

  lowest_bit :
      (x y : ℕ)
      → rest y ≡ rest (y / 2) * 2 + op 0 (y % 2)
      → bitwise rest op x y ≡ bitwise rest op (x / 2) (y / 2) * 2 + op (x % 2) (y % 2)
  lowest_bit zero y base = base
  lowest_bit (suc x) y base =
      let half : ℕ = suc x / 2 in
      ap (λ t. t * 2 + op (suc x % 2) (y % 2))
        (any_more (x - half) half (y / 2) half x (omega arith) (omega arith))

pub bit_or_step : (x y : ℕ) → bit_or x y ≡ bit_or (x / 2) (y / 2) * 2 + max (x % 2) (y % 2)
bit_or_step x y = simp bit_or-bitwise (lowest_bit (λ n. n) max x y (omega arith))

pub bit_and_step : (x y : ℕ) → bit_and x y ≡ bit_and (x / 2) (y / 2) * 2 + min (x % 2) (y % 2)
bit_and_step x y = simp bit_and-bitwise (lowest_bit (λ n. 0) min x y (omega arith))

-- `| 0` and `& 0`, together, by halving.
against_zero : (limit x : ℕ) → x ≤ limit → (bit_or x 0 ≡ x) × (bit_and x 0 ≡ 0)
against_zero limit zero h = (refl, refl)
against_zero zero (suc x) h = absurd (omega arith)
against_zero (suc limit) (suc x) h =
    let (same, none) = against_zero limit (suc x / 2) (omega arith) in
    (omega (arith, bit_or_step (suc x) 0), omega (arith, bit_and_step (suc x) 0))

pub bit_or-zero : (x : ℕ) → bit_or x 0 ≡ x
bit_or-zero x = (against_zero x x (le_refl x)).0

pub bit_and-zero : (x : ℕ) → bit_and x 0 ≡ 0
bit_and-zero x = (against_zero x x (le_refl x)).1

-- Bit `k` of `a`.
unfoldable pub test_bit : ℕ → ℕ → Bool
test_bit a zero = a % 2 == 1
test_bit a (suc k) = test_bit (a / 2) k

double_pow : (d : ℕ) → 2 ^ suc d ≡ 2 ^ d * 2
double_pow d = pow-suc 2 d

pub test_bit-zero : (k : ℕ) → test_bit 0 k ≡ false
unfolding test_bit
test_bit-zero zero = refl
test_bit-zero (suc k) = test_bit-zero k

-- `a | (1 << d)` sets bit `d` and no other.
pub test_bit-bit_or : (a d k : ℕ) → test_bit (bit_or a (2 ^ d)) k ≡ (k == d || test_bit a k)
unfolding test_bit
test_bit-bit_or a zero zero = ground (arith, bit_or_step a 1, bit_or-zero (a / 2))
test_bit-bit_or a zero (suc k) =
    let e : bit_or a 1 / 2 ≡ a / 2 = omega (arith, bit_or_step a 1, bit_or-zero (a / 2)) in
    rw e (ground arith)
test_bit-bit_or a (suc d) zero = ground (arith, bit_or_step a (2 ^ suc d), double_pow d)
test_bit-bit_or a (suc d) (suc k) =
    let h : 2 ^ suc d / 2 ≡ 2 ^ d = omega (arith, double_pow d) in
    let m : 2 ^ suc d % 2 ≡ 0 = omega (arith, double_pow d) in
    let s : bit_or a (2 ^ suc d) ≡ bit_or (a / 2) (2 ^ d) * 2 + max (a % 2) 0 =
      rw (bit_or_step a (2 ^ suc d), h, m) refl in
    let e : bit_or a (2 ^ suc d) / 2 ≡ bit_or (a / 2) (2 ^ d) = omega (arith, s) in
    rw e (test_bit-bit_or (a / 2) d k ∙ ground arith)

-- `a & (1 << d)` is zero exactly where bit `d` of `a` is clear.
pub bit_and-pow : (a d : ℕ) → (bit_and a (2 ^ d) == 0) ≡ not (test_bit a d)
unfolding test_bit
bit_and-pow a zero = ground (arith, bit_and_step a 1, bit_and-zero (a / 2))
bit_and-pow a (suc d) =
    let h : 2 ^ suc d / 2 ≡ 2 ^ d = omega (arith, double_pow d) in
    let m : 2 ^ suc d % 2 ≡ 0 = omega (arith, double_pow d) in
    let s : bit_and a (2 ^ suc d) ≡ bit_and (a / 2) (2 ^ d) * 2 + min (a % 2) 0 =
      rw (bit_and_step a (2 ^ suc d), h, m) refl in
    ground (arith, s, bit_and-pow (a / 2) d)

shift_step : (a s : ℕ) → a * 2 ^ suc s ≡ a * 2 ^ s * 2
shift_step a s = omega (arith, ap (λ (t : ℕ). a * t) (double_pow s))

-- `a << s` moves every bit up by `s`.
pub test_bit-shift : (a s k : ℕ) → test_bit (a * 2 ^ s) k ≡ (not (ltb k s) && test_bit a (k - s))
unfolding test_bit
test_bit-shift a zero k =
    let e : a * 2 ^ 0 ≡ a = omega arith in
    let f : k - 0 ≡ k = omega arith in rw (e, f) (ground arith)
test_bit-shift a (suc s) zero = ground (arith, shift_step a s)
test_bit-shift a (suc s) (suc k) =
    let e : a * 2 ^ suc s / 2 ≡ a * 2 ^ s = omega (arith, shift_step a s) in
    let f : suc k - suc s ≡ k - s = omega arith in rw (e, f) (test_bit-shift a s k ∙ ground arith)

mod_split :
    (a w : ℕ) → (a ≡ 2 * (2 ^ w * (a / 2 ^ suc w)) + a % 2 ^ suc w) × (a % 2 ^ suc w < 2 * 2 ^ w)
mod_split a w =
    let p : 0 < 2 ^ w = one-le-pow w 2 (omega arith) in
    let d : 2 ^ suc w * (a / 2 ^ suc w) ≡ 2 * (2 ^ w * (a / 2 ^ suc w)) =
      rw double_pow (omega arith) in
    let l : a % 2 ^ suc w < 2 ^ suc w = mod-lt a (omega (arith, double_pow w, p)) in
    (omega (arith, div-add-mod a (2 ^ suc w), d), omega (arith, l, double_pow w))

half_mod : (a w : ℕ) → a % 2 ^ suc w / 2 ≡ a / 2 % 2 ^ w
half_mod a w =
    let m : ℕ = 2 ^ w in
    let r : ℕ = a % 2 ^ suc w in
    let q : ℕ = a / 2 ^ suc w in
    let e : a / 2 ≡ m * q + r / 2 = omega (arith, mod_split a w) in
    let small : r / 2 < m = omega (arith, mod_split a w) in
    sym (rw e (mul-add-mod_self_left m q (r / 2) ∙ mod-eq_of_lt small))

-- Truncation to `w` bits clears the bits from `w` on.
pub test_bit-mod : (a w k : ℕ) → test_bit (a % 2 ^ w) k ≡ (ltb k w && test_bit a k)
unfolding test_bit
test_bit-mod a zero k = let e : a % 2 ^ 0 ≡ 0 = omega arith in rw e (test_bit-zero k ∙ ground arith)
test_bit-mod a (suc w) zero =
    let e : a % 2 ^ suc w % 2 ≡ a % 2 = omega (arith, mod_split a w) in rw e (ground arith)
test_bit-mod a (suc w) (suc k) = rw half_mod (test_bit-mod (a / 2) w k ∙ ground arith)

-- `(q << w) | r` is a sum where `r` fits the low `w` bits.
pub bit_or-fields : (w q r : ℕ) → r < 2 ^ w → bit_or (q * 2 ^ w) r ≡ q * 2 ^ w + r
bit_or-fields zero q r h = ground (arith, bit_or-zero q)
bit_or-fields (suc w) q r h =
    let half : r / 2 < 2 ^ w = omega (arith, h, double_pow w) in
    let e : q * 2 ^ suc w / 2 ≡ q * 2 ^ w = omega (arith, shift_step q w) in
    let m : q * 2 ^ suc w % 2 ≡ 0 = omega (arith, shift_step q w) in
    let s : bit_or (q * 2 ^ suc w) r ≡ bit_or (q * 2 ^ w) (r / 2) * 2 + max 0 (r % 2) =
      rw (bit_or_step (q * 2 ^ suc w) r, e, m) refl in
    omega (arith, s, bit_or-fields w q (r / 2) half, shift_step q w)

-- `a & 0x07`
bit_and-one : (a : ℕ) → bit_and a 1 ≡ a % 2
bit_and-one a = omega (arith, bit_and_step a 1, bit_and-zero (a / 2))

pub bit_and_seven : (a : ℕ) → bit_and a 0x07 ≡ a % 8
bit_and_seven a = omega (arith, bit_and_step a 7, bit_and_step (a / 2) 3, bit_and-one (a / 2 / 2))

bit_and_odd : (a m : ℕ) → bit_and a (m * 2 + 1) ≡ bit_and (a / 2) m * 2 + a % 2
bit_and_odd a m =
    let e : (m * 2 + 1) / 2 ≡ m = omega arith in bit_and_step a (m * 2 + 1) ∙ rw e (omega arith)

bit_and_fifteen : (a : ℕ) → bit_and a 15 ≡ a % 16
bit_and_fifteen a =
    let e : bit_and a 15 ≡ bit_and (a / 2) 7 * 2 + a % 2 = bit_and_odd a 7 in
    omega (arith, bit_and_seven (a / 2))

-- The low byte.
pub bit_and_byte : (a : ℕ) → bit_and a 0xff ≡ a % 256
bit_and_byte a =
    let e1 : bit_and a 255 ≡ bit_and (a / 2) 127 * 2 + a % 2 = bit_and_odd a 127 in
    let e2 : bit_and (a / 2) 127 ≡ bit_and (a / 2 / 2) 63 * 2 + a / 2 % 2 =
      bit_and_odd (a / 2) 63 in
    let e3 : bit_and (a / 2 / 2) 63 ≡ bit_and (a / 2 / 2 / 2) 31 * 2 + a / 2 / 2 % 2 =
      bit_and_odd (a / 2 / 2) 31 in
    let e4 : bit_and (a / 2 / 2 / 2) 31 ≡ bit_and (a / 2 / 2 / 2 / 2) 15 * 2 + a / 2 / 2 / 2 % 2 =
      bit_and_odd (a / 2 / 2 / 2) 15 in
    omega (arith, bit_and_fifteen (a / 2 / 2 / 2 / 2))
