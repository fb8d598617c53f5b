-- ===== src/Prelude/Maps.antt =====
-- `DashMap` and `HashMap` with number keys, as association lists: the first entry counts.
use Prim.Native.Nat.{ℕ}
use mathlib.Core.Path.{◌≡◌, refl}
use mathlib.Core.Logic.{◌≢◌, inl, inr}
use mathlib.Core.Bool.{Bool, true, false}
use mathlib.Core.List.{List, [], ◌∷◌}
use mathlib.Core.Option.{Option, none, some}
use native.Mathlib.Omega.{arith}
use just_another_vpn_server.Prelude.Tests.{◌==◌, if◌then◌else◌, ==_self, Bool-cases}

abbrev pub Map : Type 0 → Type 0
Map A = List (ℕ × A)

abbrev pub lookup : {A : Type 0} → Map A → ℕ → Option A
lookup [] k = none
lookup (e ∷ m) k = if e.0 == k then some e.1 else lookup m k

abbrev pub remove : {A : Type 0} → Map A → ℕ → Map A
remove [] k = []
remove (e ∷ m) k = let rest = remove m k in if e.0 == k then rest else e ∷ rest

abbrev pub insert : {A : Type 0} → Map A → ℕ → A → Map A
insert m k a = (k, a) ∷ remove m k

abbrev pub has_key : {A : Type 0} → Map A → ℕ → Bool
has_key [] k = false
has_key (e ∷ m) k = if e.0 == k then true else has_key m k

abbrev pub keys : {A : Type 0} → Map A → List ℕ
keys [] = []
keys (e ∷ m) = e.0 ∷ keys m

pub lookup-insert : {A : Type 0} (m : Map A) (k : ℕ) (a : A) → lookup (insert m k a) k ≡ some a
lookup-insert m k a = rw (==_self k) refl

pub lookup-remove : {A : Type 0} (m : Map A) (k : ℕ) → lookup (remove m k) k ≡ none
lookup-remove [] k = refl
lookup-remove (e ∷ m) k = elim (Bool-cases (e.0 == k)) [
  | inl t ↦ rw t (lookup-remove m k)
  | inr t ↦ rw (t, t) (lookup-remove m k)
]

pub lookup-remove_other :
    {A : Type 0} (m : Map A) (k j : ℕ) → k ≢ j → lookup (remove m k) j ≡ lookup m j
lookup-remove_other [] k j h = refl
lookup-remove_other (e ∷ m) k j h = elim (Bool-cases (e.0 == k)) [
  | inl t ↦
      let other : (e.0 == j) ≡ false = ground (arith, h) in
      rw (t, other) (lookup-remove_other m k j h)
  | inr t ↦ elim (Bool-cases (e.0 == j)) [
    | inl u ↦ rw (t, u) refl
    | inr u ↦ rw (t, u) (lookup-remove_other m k j h)
  ]
]

pub lookup-insert_other :
    {A : Type 0} (m : Map A) (k j : ℕ) (a : A) → k ≢ j → lookup (insert m k a) j ≡ lookup m j
lookup-insert_other m k j a h =
    let other : (k == j) ≡ false = ground (arith, h) in rw other (lookup-remove_other m k j h)
