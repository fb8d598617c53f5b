-- ===== src/Prelude/Steps.antt =====
-- Code that changes a state and may fail: what was changed before a failure stays changed.
use mathlib.Core.Path.{◌≡◌, refl, ap}
use mathlib.Core.Bool.{Bool, true, false}
use mathlib.Core.List.{List, [], ◌∷◌}
use just_another_vpn_server.Prelude.Results.{Result, ok, err, Error}

abbrev pub Step : Type 0 → Type 0 → Type 0
Step S A = S → Result A × S

abbrev pub continue_with : {S A B : Type 0} → Result A × S → (A → Step S B) → Result B × S
continue_with (ok a, s) f = f a s
continue_with (err e, s) f = (err e, s)

infixl 5 ◌>>=◌ ◌>>◌
abbrev pub ◌>>=◌ : {S A B : Type 0} → Step S A → (A → Step S B) → Step S B
m >>= f = λ s. continue_with (m s) f

abbrev pub ◌>>◌ : {S B : Type 0} → Step S (Unit {0}) → Step S B → Step S B
m >> k = m >>= λ _. k

abbrev pub pure : {S A : Type 0} → A → Step S A
pure a s = (ok a, s)

abbrev pub fail : {S A : Type 0} → Error → Step S A
fail e s = (err e, s)

abbrev pub done : {S : Type 0} → Step S (Unit {0})
done s = (ok tt, s)

abbrev pub get : {S : Type 0} → Step S S
get s = (ok s, s)

abbrev pub modify : {S : Type 0} → (S → S) → Step S (Unit {0})
modify f s = (ok tt, f s)

-- `?` on a result that changes nothing.
abbrev pub lift : {S A : Type 0} → Result A → Step S A
lift r s = (r, s)

abbrev pub bail_when : {S : Type 0} → Bool → Error → Step S (Unit {0})
bail_when true e s = (err e, s)
bail_when false e s = (ok tt, s)

-- `if test { .. }`, and `for x in xs { .. }`
abbrev pub when : {S : Type 0} → Bool → Step S (Unit {0}) → Step S (Unit {0})
when true m = m
when false m = done

abbrev pub for_each : {S A : Type 0} → List A → (A → Step S (Unit {0})) → Step S (Unit {0})
for_each [] f = done
for_each (x ∷ xs) f = f x >> for_each xs f

-- A step whose failure is looked at, or not, in place of ending the function.
abbrev pub kept : {S A : Type 0} → Result A × S → Result (Result A) × S
kept (outcome, s) = (ok outcome, s)

abbrev pub attempt : {S A : Type 0} → Step S A → Step S (Result A)
attempt m = λ s. kept (m s)

abbrev pub ignore : {S A : Type 0} → Step S A → Step S (Unit {0})
ignore m = attempt m >>= λ _. done

-- A chain that succeeds: what its first step returned, the state behind it, and that the rest
-- succeeds from there.
pub continue_with-ok :
    {S A B : Type 0} (r : Result A × S) (f : A → Step S B) {b : B} {end : S}
    → continue_with r f ≡ (ok b, end)
    → (a : A) × (s : S) × (r ≡ (ok a, s)) × (f a s ≡ (ok b, end))
continue_with-ok (ok a, s) f h = (a, s, refl, h)
continue_with-ok (err e, s) f h = let bad : err e ≡ ok _ = ap (λ r. r.0) h in cc

-- The same for a result that changes nothing.
pub continue_with-lift :
    {S A B : Type 0} (r : Result A) (s : S) (f : A → Step S B) {b : B} {end : S}
    → continue_with (r, s) f ≡ (ok b, end)
    → (a : A) × (r ≡ ok a) × (f a s ≡ (ok b, end))
continue_with-lift (ok a) s f h = (a, refl, h)
continue_with-lift (err e) s f h = let bad : err e ≡ ok _ = ap (λ r. r.0) h in cc

pub bail_when-ok :
    {S B : Type 0} (test : Bool) (e : Error) (s : S) (f : Unit {0} → Step S B) {b : B} {end : S}
    → continue_with (bail_when test e s) f ≡ (ok b, end)
    → (test ≡ false) × (f tt s ≡ (ok b, end))
bail_when-ok true e s f h = let bad : err e ≡ ok _ = ap (λ r. r.0) h in cc
bail_when-ok false e s f h = (refl, h)

module _ {S A B : Type 0} (P : S → Type 0) where
  -- A predicate on states: what holds of the state after the first step and is kept by the rest holds at the end.
  pub continue-keeps :
      (r : Result A × S) (f : A → Step S B)
      → P r.1
      → ((a : A) (s : S) → P s → P (f a s).1)
      → P (continue_with r f).1
  continue-keeps (ok a, s) f h go = go a s h
  continue-keeps (err e, s) f h go = h

  pub continue-given :
      (x : Result A) (s : S) (f : A → Step S B)
      → P s
      → ((a : A) → x ≡ ok a → P (f a s).1)
      → P (continue_with (x, s) f).1
  continue-given (ok a) s f h go = go a refl
  continue-given (err e) s f h go = h
