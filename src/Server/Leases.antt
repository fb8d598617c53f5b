-- ===== src/Server/Leases.antt =====
-- src/server.rs: the address pool, and the tables behind an eviction.
use just_another_vpn_server.Prelude.{
  ℕ, suc, ◌+◌, ◌%◌, ◌^◌, ◌≤◌, ◌<◌, ◌≡◌, refl, sym, ap, subst, Bool, true, false, Option, ◌==◌,
  Bool-cases, inl, inr, List, [], ◌∷◌, none, some, arith, Result, ok, err, Error, map, le→ltb_false,
  lt→ltb,
}
use native.Mathlib.Nat.{mod-eq_of_lt}
use just_another_vpn_server.Prelude.Maps.{Map, lookup, remove, lookup-remove, lookup-remove_other}
use just_another_vpn_server.Session.{Session}
use just_another_vpn_server.Session.ReplayIds.{count_up}
use just_another_vpn_server.Server.{VpnServer}
use just_another_vpn_server.Server.Pool.{allocate_ip}
use just_another_vpn_server.Server.Timers.{evict, remove_known}
use Error.{pool_exhausted}

-- A request for an address, or the eviction of a session with its address.
pub data PoolUse (Conn : Type 0) : Type 0 where
  request : PoolUse Conn
  evicted : ℕ → Session Conn → PoolUse Conn

-- What is left of a table's entry: nothing where its key is the one that is removed.
abbrev pub except : {A : Type 0} → Bool → Option A → Option A
except true o = none
except false o = o

abbrev pub is_key : Option ℕ → ℕ → Bool
is_key none k = false
is_key (some key) k = key == k

lookup-remove_at :
    {A : Type 0} (m : Map A) (key k : ℕ) → lookup (remove m key) k ≡ except (key == k) (lookup m k)
lookup-remove_at m key k = elim (Bool-cases (key == k)) [
  | inl t ↦
      let e : key ≡ k = ground (arith, t) in
      rw t (subst (λ j. lookup (remove m key) j ≡ none) e (lookup-remove m key))
  | inr t ↦ rw t (lookup-remove_other m key k (ground (arith, t)))
]

lookup-remove_known :
    (m : Map ℕ) (o : Option ℕ) (k : ℕ)
    → lookup (remove_known m o) k ≡ except (is_key o k) (lookup m k)
lookup-remove_known m none k = refl
lookup-remove_known m (some key) k = lookup-remove_at m key k

module _ {Conn : Type 0} where
  -- The results of the requests, and the server after all.
  abbrev pub allocate_all : List (PoolUse Conn) → VpnServer Conn → List (Result ℕ) × VpnServer Conn
  allocate_all [] self = ([], self)
  allocate_all (request ∷ uses) self =
      let r = allocate_ip self in let rest = allocate_all uses r.1 in (r.0 ∷ rest.0, rest.1)
  allocate_all (evicted addr sess ∷ uses) self = allocate_all uses (evict addr sess self)

  abbrev pub requests : List (PoolUse Conn) → ℕ
  requests [] = 0
  requests (request ∷ uses) = suc (requests uses)
  requests (evicted addr sess ∷ uses) = requests uses

  allocate_one :
      (self : VpnServer Conn)
      → self.next_pool_ip ≤ self.pool_end
      → self.pool_end + 1 < 2 ^ 32
      → allocate_ip self
        ≡ (ok self.next_pool_ip, record self { next_pool_ip = self.next_pool_ip + 1 })
  unfolding allocate_ip
  allocate_one self h bound =
      let e : (self.next_pool_ip + 1) % 2 ^ 32 ≡ self.next_pool_ip + 1 =
        mod-eq_of_lt (omega arith) in
      rw (le→ltb_false self.pool_end self.next_pool_ip h)
        (ap (λ next. (ok self.next_pool_ip, record self { next_pool_ip = next })) e)

  allocate_empty :
      (self : VpnServer Conn)
      → self.pool_end < self.next_pool_ip
      → allocate_ip self ≡ (err pool_exhausted, self)
  unfolding allocate_ip
  allocate_empty self h = rw (lt→ltb self.pool_end self.next_pool_ip h) refl

  -- As many requests as the pool has addresses get the addresses from its start on, each once and
  -- in ascending order up to the end of the pool; the next request fails and changes nothing. This
  -- holds whatever sessions are evicted between the requests: an address that was handed out is not
  -- handed out again. The end of the pool is below the last IPv4 address.
  pub allocate_all-count_up :
      (uses : List (PoolUse Conn)) (self : VpnServer Conn)
      → self.next_pool_ip + requests uses ≡ self.pool_end + 1
      → self.pool_end + 1 < 2 ^ 32
      → ((allocate_all uses self).0 ≡ map ok (count_up self.next_pool_ip (requests uses)))
        × (allocate_ip (allocate_all uses self).1
            ≡ (err pool_exhausted, (allocate_all uses self).1))
  unfolding evict
  allocate_all-count_up [] self h bound = (refl, allocate_empty self (omega arith))
  allocate_all-count_up (evicted addr sess ∷ uses) self h bound =
      allocate_all-count_up uses (evict addr sess self) h bound
  allocate_all-count_up (request ∷ uses) self h bound =
      let next : VpnServer Conn = record self { next_pool_ip = self.next_pool_ip + 1 } in
      let (rest, empty) = allocate_all-count_up uses next (omega arith) bound in
      subst
        (λ (r : Result ℕ × VpnServer Conn).
          (r.0 ∷ (allocate_all uses r.1).0
            ≡ map ok (count_up self.next_pool_ip (suc (requests uses))))
          × (allocate_ip (allocate_all uses r.1).1
              ≡ (err pool_exhausted, (allocate_all uses r.1).1)))
        (sym (allocate_one self (omega arith) bound)) (ap (◌∷◌ (ok self.next_pool_ip)) rest, empty)

  -- Eviction removes from the five tables exactly the entries of the session: the one of its
  -- address, those of its tunnel addresses, where it has them, and those of its peer id. Every other
  -- entry stays as it is.
  pub evict-forgets :
      (addr : ℕ) (sess : Session Conn) (self : VpnServer Conn) (k : ℕ)
      → let after = evict addr sess self in
        (lookup after.sessions k ≡ except (addr == k) (lookup self.sessions k))
        × (lookup after.routes k ≡ except (is_key sess.assigned_ip k) (lookup self.routes k))
        × (lookup after.routes_v6 k
            ≡ except (is_key sess.assigned_ip_v6 k) (lookup self.routes_v6 k))
        × (lookup after.data_routes k ≡ except (sess.peer_id == k) (lookup self.data_routes k))
        × (lookup after.peers k ≡ except (sess.peer_id == k) (lookup self.peers k))
  unfolding evict
  evict-forgets addr sess self k = (
    lookup-remove_at self.sessions addr k,
    lookup-remove_known self.routes sess.assigned_ip k,
    lookup-remove_known self.routes_v6 sess.assigned_ip_v6 k,
    lookup-remove_at self.data_routes sess.peer_id k,
    lookup-remove_at self.peers sess.peer_id k,
  )
