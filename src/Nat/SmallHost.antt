-- ===== src/Nat/SmallHost.antt =====
-- A host that is a list of rules and a switch, with the behaviour that src/nat.rs relies on.
use just_another_vpn_server.Prelude.{
  ℕ, ◌+◌, ◌-◌, ◌≡◌, refl, sym, ap, ap₂, ◌∙◌, subst, inl, inr, Bool, true, false, List, [], ◌∷◌,
  ◌++◌, Option, none, some, if◌then◌else◌, arith, list_beq, list_beq→eq, Bool-cases,
}
use just_another_vpn_server.Nat.{Kernel, Rule, append_args, delete_args}
use just_another_vpn_server.Nat.Words.{t_flag, append_flag, delete_flag}
use just_another_vpn_server.Nat.Host.{IsHost, IsTable, hit, rule_beq, words_beq, switch_word}

pub record State : Type 0 where
  pub rules : List Rule
  pub on : Bool

abbrev count_in : Rule → List Rule → ℕ
count_in x [] = 0
count_in x (r ∷ rs) = hit x r + count_in x rs

abbrev remove_first : Rule → List Rule → List Rule
remove_first r [] = []
remove_first r (q ∷ qs) = let rest = remove_first r qs in if rule_beq r q then qs else q ∷ rest

abbrev has_rule : Rule → List Rule → Bool
has_rule r [] = false
has_rule r (q ∷ qs) = if rule_beq r q then true else has_rule r qs

-- The command of a table, a flag and a rule's words.
abbrev run_flag : List (List ℕ) → List (List ℕ) → State → Option Bool × State
run_flag table [] h = (some false, h)
run_flag table (flag ∷ spec) h =
    let r : Rule = record { table = table; spec = spec } in
    if list_beq flag append_flag
    then (some true, record { rules = h.rules ++ r ∷ []; on = h.on })
    else if list_beq flag delete_flag
    then (some (has_rule r h.rules), record { rules = remove_first r h.rules; on = h.on })
    else (some false, h)

abbrev run_table : List (List ℕ) → State → Option Bool × State
run_table [] h = (some false, h)
run_table (name ∷ more) h = run_flag (t_flag ∷ name ∷ []) more h

abbrev run : List (List ℕ) → State → Option Bool × State
run [] h = (some false, h)
run (a ∷ more) h = if list_beq a t_flag then run_table more h else run_flag [] (a ∷ more) h

abbrev pub small_host : Kernel State
small_host = record {
  output = run;
  read_switch = λ h. some (switch_word h.on);
  write_switch =
      λ text h. (true, record { rules = h.rules; on = list_beq text (switch_word true) });
  read_routes = λ h. none;
}

abbrev pub count : Rule → State → ℕ
count x h = count_in x h.rules

abbrev pub forwards : State → Bool
forwards h = h.on

words_beq→eq : (xs ys : List (List ℕ)) → words_beq xs ys ≡ true → xs ≡ ys
words_beq→eq [] [] h = refl
words_beq→eq [] (y ∷ ys) h = cc
words_beq→eq (x ∷ xs) [] h = cc
words_beq→eq (x ∷ xs) (y ∷ ys) h = elim (Bool-cases (list_beq x y)) [
  | inl t ↦
      let h' : words_beq xs ys ≡ true = rw t at h in
      ap₂ ◌∷◌ (list_beq→eq x y t) (words_beq→eq xs ys h')
  | inr t ↦ let bad : false ≡ true = rw t at h in cc
]

rule_beq→eq : (x r : Rule) → rule_beq x r ≡ true → x ≡ r
rule_beq→eq x r h = elim (Bool-cases (words_beq x.table r.table)) [
  | inl t ↦
      let h' : words_beq x.spec r.spec ≡ true = rw t at h in
      ap₂ (λ a b. record { table = a; spec = b }) (words_beq→eq x.table r.table t)
        (words_beq→eq x.spec r.spec h')
  | inr t ↦ let bad : false ≡ true = rw t at h in cc
]

count_in-snoc : (x r : Rule) (rs : List Rule) → count_in x (rs ++ r ∷ []) ≡ count_in x rs + hit x r
count_in-snoc x r [] = omega arith
count_in-snoc x r (q ∷ rs) = omega (arith, count_in-snoc x r rs)

count_in-remove_first :
    (x r : Rule) (rs : List Rule) → count_in x (remove_first r rs) ≡ count_in x rs - hit x r
unfolding hit
count_in-remove_first x r [] = omega arith
count_in-remove_first x r (q ∷ rs) = elim (Bool-cases (rule_beq r q)) [
  | inl t ↦
      let e : r ≡ q = rule_beq→eq r q t in
      let same : hit x r ≡ hit x q = ap (hit x) e in rw t (omega (arith, same))
  | inr t ↦
      let ih : count_in x (remove_first r rs) ≡ count_in x rs - hit x r =
        count_in-remove_first x r rs in
      rw t (elim (Bool-cases (rule_beq x r)) [
        | inl u ↦
            let miss : rule_beq x q ≡ false = ap (λ y. rule_beq y q) (rule_beq→eq x r u) ∙ t in
            let zero_hit : hit x q ≡ 0 = rw miss refl in omega (arith, ih, zero_hit)
        | inr u ↦ let zero_hit : hit x r ≡ 0 = rw u refl in omega (arith, ih, zero_hit)
      ])
]

-- What the host does with the commands of a rule.
abbrev Runs : Rule → Type 0
Runs r =
    (h : State)
    → (run (append_args r) h ≡ (some true, record { rules = h.rules ++ r ∷ []; on = h.on }))
      × (run (delete_args r) h
          ≡ (some (has_rule r h.rules), record { rules = remove_first r h.rules; on = h.on }))

run-Runs : (r : Rule) → IsTable r → Runs r
run-Runs r (inl e) =
    subst (λ t. Runs (record { table = t; spec = r.spec })) (sym e) (λ h. (refl, refl))
run-Runs r (inr e) =
    subst (λ t. Runs (record { table = t; spec = r.spec })) (sym e) (λ h. (refl, refl))

pub small_host-IsHost : IsHost small_host count forwards IsTable
small_host-IsHost = record {
  append_runs = λ r h t. ap (λ o. o.0) (run-Runs r t h).0;
  append_count = λ x r h t. ap (λ o. count x o.1) (run-Runs r t h).0 ∙ count_in-snoc x r h.rules;
  append_switch = λ r h t. ap (λ o. forwards o.1) (run-Runs r t h).0;
  delete_count =
      λ x r h t. ap (λ o. count x o.1) (run-Runs r t h).1 ∙ count_in-remove_first x r h.rules;
  delete_switch = λ r h t. ap (λ o. forwards o.1) (run-Runs r t h).1;
  read_eq = λ h. refl;
  write_runs = λ on h. refl;
  write_switch_eq = switches;
  write_count = λ x on h. refl;
}
  where
    switches : (on : Bool) (h : State) → list_beq (switch_word on) (switch_word true) ≡ on
    switches true h = refl
    switches false h = refl
