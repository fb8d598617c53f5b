-- ===== src/Nat/Host.antt =====
-- What src/nat.rs relies on of a host where the program may change iptables and /proc.
use just_another_vpn_server.Prelude.{
  ℕ, ◌+◌, ◌-◌, ◌≡◌, refl, ◌⊎◌, ◌∙◌, Bool, true, false, ◌&&◌, List, [], ◌∷◌, Option, none, some,
  if◌then◌else◌, list_beq, list_beq_self,
}
use just_another_vpn_server.Prelude.Steps.{Step, ◌>>◌, ignore, kept, continue_with, done}
use just_another_vpn_server.Nat.{Kernel, Rule, append_args, delete_args, run_outcome, iptables_run}
use just_another_vpn_server.Nat.Words.{t_flag, nat_word}

abbrev pub words_beq : List (List ℕ) → List (List ℕ) → Bool
words_beq [] [] = true
words_beq [] (y ∷ ys) = false
words_beq (x ∷ xs) [] = false
words_beq (x ∷ xs) (y ∷ ys) = list_beq x y && words_beq xs ys

pub words_beq_self : (xs : List (List ℕ)) → words_beq xs xs ≡ true
words_beq_self [] = refl
words_beq_self (x ∷ xs) = rw (list_beq_self x) (words_beq_self xs)

abbrev pub rule_beq : Rule → Rule → Bool
rule_beq x r = words_beq x.table r.table && words_beq x.spec r.spec

-- 1 for the rule itself, and 0 for another one.
unfoldable pub hit : Rule → Rule → ℕ
hit x r = if rule_beq x r then 1 else 0

pub hit_self : (r : Rule) → hit r r ≡ 1
unfolding hit
hit_self r = rw (words_beq_self r.table, words_beq_self r.spec) refl

-- A rule of the filter table, which is the default, or of the table `nat`.
abbrev pub IsTable : Rule → Type 0
IsTable r = (r.table ≡ []) ⊎ (r.table ≡ t_flag ∷ nat_word ∷ [])

abbrev pub switch_word : Bool → List ℕ
switch_word on = if on then 49 ∷ 10 ∷ [] else 48 ∷ 10 ∷ []

-- `count x h` is how often the rule `x` is installed, and `forwards h` whether IPv4 is forwarded.
-- `Takes` has the rules whose words `iptables` takes. For such a rule `-A` adds it and succeeds, `-D`
-- takes it away if it is there, and neither touches another rule or the switch; the switch holds
-- what is written to it.
pub record IsHost {H : Type 0} (host : Kernel H) (count : Rule → H → ℕ) (forwards : H → Bool)
    (Takes : Rule → Type 0) : Type 0 where
  pub append_runs : (r : Rule) (h : H) → Takes r → (host.output (append_args r) h).0 ≡ some true
  pub append_count :
      (x r : Rule) (h : H)
      → Takes r
      → count x (host.output (append_args r) h).1 ≡ count x h + hit x r
  pub append_switch :
      (r : Rule) (h : H) → Takes r → forwards (host.output (append_args r) h).1 ≡ forwards h
  pub delete_count :
      (x r : Rule) (h : H)
      → Takes r
      → count x (host.output (delete_args r) h).1 ≡ count x h - hit x r
  pub delete_switch :
      (r : Rule) (h : H) → Takes r → forwards (host.output (delete_args r) h).1 ≡ forwards h
  pub read_eq : (h : H) → host.read_switch h ≡ some (switch_word (forwards h))
  pub write_runs : (on : Bool) (h : H) → (host.write_switch (switch_word on) h).0 ≡ true
  pub write_switch_eq : (on : Bool) (h : H) → forwards (host.write_switch (switch_word on) h).1 ≡ on
  pub write_count :
      (x : Rule) (on : Bool) (h : H) → count x (host.write_switch (switch_word on) h).1 ≡ count x h

-- The host after three runs.
abbrev pub after : {H : Type 0} → Kernel H → (a b c : List (List ℕ)) → H → H
after host a b c h = (host.output c (host.output b (host.output a h).1).1).1

-- Runs of iptables whose outcome is not looked at, and runs that succeed, in front of other steps.
module _ {H B : Type 0} (host : Kernel H) where
  run_ignored :
      (o : Option Bool × H) (k : Step H B)
      → continue_with (continue_with (kept (run_outcome o)) (λ _. done)) (λ _. k) ≡ k o.1
  run_ignored (none, h) k = refl
  run_ignored (some false, h) k = refl
  run_ignored (some true, h) k = refl

  ignore-iptables_run :
      (args : List (List ℕ)) (k : Step H B) (h : H)
      → (ignore (iptables_run host args) >> k) h ≡ k (host.output args h).1
  unfolding iptables_run
  ignore-iptables_run args k h = run_ignored (host.output args h) k

  run_succeeded :
      (o : Option Bool × H) (k : Step H B)
      → o.0 ≡ some true
      → continue_with (run_outcome o) (λ _. k) ≡ k o.1
  run_succeeded (none, h) k e = cc
  run_succeeded (some false, h) k e = cc
  run_succeeded (some true, h) k e = refl

  iptables_run-success :
      (args : List (List ℕ)) (k : Step H B) (h : H)
      → (host.output args h).0 ≡ some true
      → (iptables_run host args >> k) h ≡ k (host.output args h).1
  unfolding iptables_run
  iptables_run-success args k h e = run_succeeded (host.output args h) k e

  pub three_ignored :
      (a b c : List (List ℕ)) (k : Step H B) (h : H)
      → (ignore (iptables_run host a)
            >> (ignore (iptables_run host b) >> (ignore (iptables_run host c) >> k)))
          h
        ≡ k (after host a b c h)
  three_ignored a b c k h =
      ignore-iptables_run a (ignore (iptables_run host b) >> (ignore (iptables_run host c) >> k)) h
      ∙ ignore-iptables_run b (ignore (iptables_run host c) >> k) _
      ∙ ignore-iptables_run c k _

  pub three_succeed :
      (a b c : List (List ℕ)) (k : Step H B) (h : H)
      → (host.output a h).0 ≡ some true
      → (host.output b (host.output a h).1).0 ≡ some true
      → (host.output c (host.output b (host.output a h).1).1).0 ≡ some true
      → (iptables_run host a >> (iptables_run host b >> (iptables_run host c >> k))) h
        ≡ k (after host a b c h)
  three_succeed a b c k h ea eb ec =
      iptables_run-success a (iptables_run host b >> (iptables_run host c >> k)) h ea
      ∙ iptables_run-success b (iptables_run host c >> k) _ eb
      ∙ iptables_run-success c k _ ec
