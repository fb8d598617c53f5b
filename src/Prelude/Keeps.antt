-- ===== src/Prelude/Keeps.antt =====
-- Steps that keep a predicate on states, whether or not they fail, and how they are composed.
use mathlib.Core.Bool.{Bool, true, false}
use mathlib.Core.List.{List, [], ◌∷◌}
use just_another_vpn_server.Prelude.Tests.{if◌then◌else◌}
use just_another_vpn_server.Prelude.Results.{Result, ok, err, Error}
use just_another_vpn_server.Prelude.Steps.{
  Step, continue_with, continue-keeps, ◌>>=◌, ◌>>◌, done, lift, get, when, bail_when, for_each,
}

pub record Keeps {S A : Type 0} (P : S → Type 0) (m : Step S A) : Type 0 where
  pub kept_at : (s : S) → P s → P (m s).1

module _ {S : Type 0} (P : S → Type 0) where
  pub bind-Keeps :
      {A B : Type 0} (m : Step S A) (f : A → Step S B)
      → Keeps P m
      → ((a : A) → Keeps P (f a))
      → Keeps P (m >>= f)
  bind-Keeps m f hm hf = record {
    kept_at = λ s h. continue-keeps P (m s) f (hm.kept_at s h) (λ a s' h'. (hf a).kept_at s' h');
  }

  pub then-Keeps :
      {B : Type 0} (m : Step S (Unit {0})) (k : Step S B) → Keeps P m → Keeps P k → Keeps P (m >> k)
  then-Keeps m k hm hk = bind-Keeps m (λ _. k) hm λ _. hk

  -- The rest of a step may use the state that it has read.
  pub get-Keeps : {B : Type 0} (f : S → Step S B) → ((s : S) → Keeps P (f s)) → Keeps P (get >>= f)
  get-Keeps f hf = bind-Keeps get f (record { kept_at = λ s h. h }) hf

  pub lift-Keeps : {A : Type 0} (r : Result A) → Keeps P (lift r)
  lift-Keeps r = record { kept_at = λ s h. h }

  pub done-Keeps : Keeps P done
  done-Keeps = record { kept_at = λ s h. h }

  pub if-Keeps :
      {A : Type 0} (test : Bool) (m k : Step S A)
      → Keeps P m
      → Keeps P k
      → Keeps P (if test then m else k)
  if-Keeps true m k hm hk = hm
  if-Keeps false m k hm hk = hk

  pub when-Keeps : (test : Bool) (m : Step S (Unit {0})) → Keeps P m → Keeps P (when test m)
  when-Keeps true m hm = hm
  when-Keeps false m hm = done-Keeps

  pub bail_when-Keeps : (test : Bool) (e : Error) → Keeps P (bail_when test e)
  bail_when-Keeps true e = record { kept_at = λ s h. h }
  bail_when-Keeps false e = record { kept_at = λ s h. h }

  pub for_each-Keeps :
      {A : Type 0} (xs : List A) (f : A → Step S (Unit {0}))
      → ((a : A) → Keeps P (f a))
      → Keeps P (for_each xs f)
  for_each-Keeps [] f h = done-Keeps
  for_each-Keeps (x ∷ xs) f h = then-Keeps (f x) (for_each xs f) (h x) (for_each-Keeps xs f h)

-- A first step after which a stronger predicate holds, on which the rest depends.
pub stage :
    {S A B : Type 0} (P Q : S → Type 0) (r : Result A × S) (f : A → Step S B)
    → ((s : S) → Q s → P s)
    → Q r.1
    → ((a : A) (s : S) → Q s → P (f a s).1)
    → P (continue_with r f).1
stage P Q (ok a, s) f weaken h go = go a s h
stage P Q (err e, s) f weaken h go = weaken s h
