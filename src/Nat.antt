-- ===== src/Nat.antt =====
-- src/nat.rs, the Linux build: the iptables rules and the forwarding switch of the host. What the
-- program sees of the host is a parameter: the outcome of an `iptables` run and the files of /proc.
pub mod Words
pub mod Cidr
pub mod Routes
pub mod Host
pub mod Undo
pub mod SmallHost
mod Tests
use just_another_vpn_server.Prelude.{
  ℕ, Bool, true, false, not, List, [], ◌∷◌, ◌++◌, Option, none, some, if◌then◌else◌, list_beq,
  Result, ok, err, Error,
}
use just_another_vpn_server.Prelude.Steps.{Step, ◌>>=◌, ◌>>◌, attempt, ignore, when, done, pure}
use just_another_vpn_server.Prelude.Text.{trim}
use Words.{
  t_flag, nat_word, append_flag, delete_flag, postrouting, forward_word, s_flag, i_flag, o_flag,
  j_flag, m_flag, masquerade, accept, state_word, state_flag, related,
}
use Cidr.{subnet_to_cidr}
use Error.{spawn_failed, iptables_failed, read_failed, write_failed}

pub record NatGuard : Type 0 where
  pub tun_iface : List ℕ
  pub wan_iface : List ℕ
  pub cidr : List ℕ
  pub prior_ip_forward : Option Bool

-- The host, with states of a type `H`.
pub record Kernel (H : Type 0) : Type 0 where
  -- `Command::new("iptables").args(args).output()`: `none` where the command does not run, and
  -- else whether its exit status is success.
  pub output : List (List ℕ) → H → Option Bool × H
  -- `/proc/sys/net/ipv4/ip_forward`
  pub read_switch : H → Option (List ℕ)
  pub write_switch : List ℕ → H → Bool × H
  -- `/proc/net/route`
  pub read_routes : H → Option (List ℕ)

abbrev pub run_outcome : {H : Type 0} → Option Bool × H → Result (Unit {0}) × H
run_outcome (none, h) = (err spawn_failed, h)
run_outcome (some false, h) = (err iptables_failed, h)
run_outcome (some true, h) = (ok tt, h)

abbrev pub write_outcome : {H : Type 0} → Bool × H → Result (Unit {0}) × H
write_outcome (true, h) = (ok tt, h)
write_outcome (false, h) = (err write_failed, h)

abbrev pub switch_text : Option (List ℕ) → Result Bool
switch_text none = err read_failed
switch_text (some s) = ok (list_beq (trim s) (49 ∷ []))

-- The three rules: the words before `-A` or `-D`, and those behind it.
pub record Rule : Type 0 where
  pub table : List (List ℕ)
  pub spec : List (List ℕ)

abbrev pub masquerade_rule : List ℕ → List ℕ → Rule
masquerade_rule cidr wan_iface = record {
  table = t_flag ∷ nat_word ∷ [];
  spec = postrouting ∷ s_flag ∷ cidr ∷ o_flag ∷ wan_iface ∷ j_flag ∷ masquerade ∷ [];
}

abbrev pub forward_rule : List ℕ → List ℕ → Rule
forward_rule tun_iface wan_iface = record {
  table = [];
  spec = forward_word ∷ i_flag ∷ tun_iface ∷ o_flag ∷ wan_iface ∷ j_flag ∷ accept ∷ [];
}

abbrev pub reverse_rule : List ℕ → List ℕ → Rule
reverse_rule tun_iface wan_iface = record {
  table = [];
  spec =
      forward_word ∷ i_flag ∷ wan_iface ∷ o_flag ∷ tun_iface ∷ m_flag ∷ state_word ∷ state_flag
      ∷ related ∷ j_flag ∷ accept ∷ [];
}

-- The words of the command that appends a rule, and of the one that deletes it.
abbrev pub append_args : Rule → List (List ℕ)
append_args r = r.table ++ append_flag ∷ r.spec

abbrev pub delete_args : Rule → List (List ℕ)
delete_args r = r.table ++ delete_flag ∷ r.spec

-- `prior != Some(true)`
abbrev pub is_on : Option Bool → Bool
is_on none = false
is_on (some b) = b

-- `.ok()`
abbrev pub to_option : {A : Type 0} → Result A → Option A
to_option (ok a) = some a
to_option (err e) = none

module _ {H : Type 0} (host : Kernel H) where
  unfoldable pub iptables_run : List (List ℕ) → Step H (Unit {0})
  iptables_run args h = run_outcome (host.output args h)

  unfoldable pub read_ip_forward : Step H Bool
  read_ip_forward h = (switch_text (host.read_switch h), h)

  unfoldable pub set_ip_forward : Bool → Step H (Unit {0})
  set_ip_forward on h =
      write_outcome (host.write_switch (if on then 49 ∷ 10 ∷ [] else 48 ∷ 10 ∷ []) h)

  -- The rules of a previous run are removed, then fresh ones are added.
  unfoldable pub replace_rules : List ℕ → List ℕ → List ℕ → Step H (Unit {0})
  unfolding iptables_run
  replace_rules tun_iface wan_iface cidr = do
    ignore (iptables_run (delete_args (masquerade_rule cidr wan_iface)))
    ignore (iptables_run (delete_args (forward_rule tun_iface wan_iface)))
    ignore (iptables_run (delete_args (reverse_rule tun_iface wan_iface)))
    iptables_run (append_args (masquerade_rule cidr wan_iface))
    iptables_run (append_args (forward_rule tun_iface wan_iface))
    iptables_run (append_args (reverse_rule tun_iface wan_iface))
    done

  unfoldable pub enable_masquerade : List ℕ → List ℕ → ℕ → ℕ → Step H NatGuard
  unfolding read_ip_forward set_ip_forward replace_rules
  enable_masquerade tun_iface wan_iface tun_ip tun_netmask = do
    let cidr = subnet_to_cidr tun_ip tun_netmask
    found ← attempt read_ip_forward
    let prior = to_option found
    when (not (is_on prior)) (set_ip_forward true)
    replace_rules tun_iface wan_iface cidr
    pure (record {
      tun_iface = tun_iface;
      wan_iface = wan_iface;
      cidr = cidr;
      prior_ip_forward = prior;
    })

  abbrev put_back : Option Bool → Step H (Unit {0})
  put_back none = done
  put_back (some prev) = ignore (set_ip_forward prev)

  -- `Drop`: a failure of a step is logged, and the next one is made.
  unfoldable pub drop_guard : NatGuard → Step H (Unit {0})
  unfolding iptables_run set_ip_forward
  drop_guard self = do
    ignore (iptables_run (delete_args (reverse_rule self.tun_iface self.wan_iface)))
    ignore (iptables_run (delete_args (forward_rule self.tun_iface self.wan_iface)))
    ignore (iptables_run (delete_args (masquerade_rule self.cidr self.wan_iface)))
    put_back self.prior_ip_forward
