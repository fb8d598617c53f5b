-- ===== src/Server/Invariant/Tables.antt =====
-- src/server.rs: tables of sessions that are all keyed, and the eviction of a session.
use just_another_vpn_server.Prelude.{
  ℕ, ◌≡◌, ◌≢◌, sym, ap, ◌∙◌, subst, Bool, true, false, Option, none, some, if◌then◌else◌,
  Bool-cases, inl, inr, ◌==◌, leb, arith, ◌-◌,
}
use mathlib.Core.Option.{some-injective}
use just_another_vpn_server.Prelude.Steps.{Step}
use just_another_vpn_server.Prelude.Keeps.{Keeps}
use just_another_vpn_server.Prelude.Maps.{
  Map, lookup, insert, remove, lookup-insert, lookup-insert_other, lookup-remove,
  lookup-remove_other,
}
use just_another_vpn_server.Session.{Session}
use just_another_vpn_server.Server.{VpnServer, Locked}
use just_another_vpn_server.Server.Dispatch.{with_locked}
use just_another_vpn_server.Server.Timers.{evict, evict_idle, evict_if}
use just_another_vpn_server.Server.Stream.{close_session}
use just_another_vpn_server.Server.Invariant.{IsKeyed, AllKeyed, LockedKeyed}
use just_another_vpn_server.Server.Invariant.Sends.{ServerKeyed}

module _ {Conn : Type 0} where
  -- A table with one more session, and with one less.
  pub insert-AllKeyed :
      (m : Map (Session Conn)) (addr : ℕ) (sess : Session Conn)
      → AllKeyed m
      → IsKeyed sess
      → AllKeyed (insert m addr sess)
  insert-AllKeyed m addr sess all keyed k s e = elim (Bool-cases (addr == k)) [
    | inl t ↦
        let same : addr ≡ k = ground (arith, t) in
        let found : some sess ≡ some s =
          sym (lookup-insert m addr sess) ∙ ap (lookup (insert m addr sess)) same ∙ e in
        subst (λ (x : Session Conn). IsKeyed x) (some-injective _ _ found) keyed
    | inr t ↦
        let other : addr ≢ k = λ same. ground (arith, t, same) in
        all k s (sym (lookup-insert_other m addr k sess other) ∙ e)
  ]

  pub remove-AllKeyed : (m : Map (Session Conn)) (addr : ℕ) → AllKeyed m → AllKeyed (remove m addr)
  remove-AllKeyed m addr all k s e = elim (Bool-cases (addr == k)) [
    | inl t ↦
        let same : addr ≡ k = ground (arith, t) in
        let gone : none ≡ some s =
          sym (lookup-remove m addr) ∙ ap (lookup (remove m addr)) same ∙ e in
        cc
    | inr t ↦
        let other : addr ≢ k = λ same. ground (arith, t, same) in
        all k s (sym (lookup-remove_other m addr k other) ∙ e)
  ]

  pub with_locked-keyed :
      {A : Type 0} (addr : ℕ) (sess : Session Conn) (m : Step (Locked Conn) A) (v : VpnServer Conn)
      → Keeps LockedKeyed m
      → IsKeyed sess
      → ServerKeyed v
      → ServerKeyed (with_locked addr sess m v).1
  unfolding with_locked
  with_locked-keyed addr sess m v hm keyed all =
      let after : LockedKeyed (m (record { sess = sess; server = v })).1 =
        hm.kept_at (record { sess = sess; server = v }) (keyed, all) in
      insert-AllKeyed (m (record { sess = sess; server = v })).1.server.sessions addr
        (m (record { sess = sess; server = v })).1.sess after.1 after.0

  evict-keyed :
      (addr : ℕ) (sess : Session Conn) (v : VpnServer Conn)
      → ServerKeyed v
      → ServerKeyed (evict addr sess v)
  unfolding evict
  evict-keyed addr sess v h = remove-AllKeyed v.sessions addr h

  pub evict_idle-keyed :
      (idle_timeout now addr : ℕ) (v : VpnServer Conn)
      → ServerKeyed v
      → ServerKeyed (evict_idle idle_timeout now addr v)
  unfolding evict_idle
  evict_idle-keyed idle_timeout now addr v h = decided (lookup v.sessions addr)
    where
      evicted :
          (test : Bool) (sess : Session Conn) → ServerKeyed (if test then evict addr sess v else v)
      evicted true sess = evict-keyed addr sess v h
      evicted false sess = h

      decided : (sess : Option (Session Conn)) → ServerKeyed (evict_if idle_timeout now addr sess v)
      decided none = h
      decided (some sess) = evicted (leb idle_timeout (now - sess.last_seen)) sess

  pub close_session-keyed :
      (peer : ℕ) (sess : Option (Session Conn)) (v : VpnServer Conn)
      → ServerKeyed v
      → ServerKeyed (close_session peer sess v)
  close_session-keyed peer none v h = h
  close_session-keyed peer (some sess) v h = evict-keyed peer sess v h
