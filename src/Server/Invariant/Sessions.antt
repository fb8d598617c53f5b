-- ===== src/Server/Invariant/Sessions.antt =====
-- src/session.rs: the operations of a session and the predicate that it is keyed.
use just_another_vpn_server.Prelude.{
  ℕ, zero, suc, ◌-◌, ◌≡◌, refl, subst, true, Option, none, some, Result, ok, err, Bool-cases, inl,
  inr, List, Error, >>=-eq-ok, ok-injective, is_empty, contains, or_fail,
}
use just_another_vpn_server.Primitives.{Primitives}
use just_another_vpn_server.Session.{
  Session, State, KeySlot, waiting_hard_reset, handshaking, key_exchange, push_pending, established,
  closed,
}
use just_another_vpn_server.Session.Slots.{
  active_slot, slot_at, set_slot, has_key_id, promote_slot, install_slot, place_slot,
  install_prf_slot, finalize_keys, build_data_packet, build_with,
}
use just_another_vpn_server.Session.Control.{process_acks, note_received}
use just_another_vpn_server.Server.Invariant.{HasValue, KeyedAt, IsKeyed}
use Error.{missing_pre_master, missing_random1, missing_random2}

-- A session that is at the same state with the same address and still has an active key.
pub KeyedAt-slot :
    (state : State) (slot slot' : Option KeySlot) (ip : Option ℕ)
    → (HasValue slot → HasValue slot')
    → KeyedAt state slot ip
    → KeyedAt state slot' ip
KeyedAt-slot waiting_hard_reset slot slot' ip f h = tt
KeyedAt-slot handshaking slot slot' ip f h = tt
KeyedAt-slot key_exchange slot slot' ip f h = tt
KeyedAt-slot push_pending slot slot' ip f h = f h
KeyedAt-slot established slot slot' ip f h = (f h.0, h.1)
KeyedAt-slot closed slot slot' ip f h = (f h.0, h.1)

-- An address that is noted is one more thing that the session has.
pub KeyedAt-ip :
    (state : State) (slot : Option KeySlot) (old : Option ℕ) (ip : ℕ)
    → KeyedAt state slot old
    → KeyedAt state slot (some ip)
KeyedAt-ip waiting_hard_reset slot old ip h = tt
KeyedAt-ip handshaking slot old ip h = tt
KeyedAt-ip key_exchange slot old ip h = tt
KeyedAt-ip push_pending slot old ip h = h
KeyedAt-ip established slot old ip h = (h.0, (ip, refl))
KeyedAt-ip closed slot old ip h = (h.0, (ip, refl))

has_key_id-HasValue :
    (slot : Option KeySlot) (key_id : ℕ) → has_key_id slot key_id ≡ true → HasValue slot
has_key_id-HasValue none key_id h = cc
has_key_id-HasValue (some s) key_id h = (s, refl)

module _ {Conn : Type 0} where
  slot_at-set_slot :
      (sess : Session Conn) (idx k : ℕ) (slot : KeySlot)
      → HasValue (slot_at sess k)
      → HasValue (slot_at (set_slot sess idx (some slot)) k)
  slot_at-set_slot sess zero zero slot h = (slot, refl)
  slot_at-set_slot sess zero (suc k) slot h = h
  slot_at-set_slot sess (suc idx) zero slot h = h
  slot_at-set_slot sess (suc idx) (suc k) slot h = (slot, refl)

  pub set_slot-IsKeyed :
      (sess : Session Conn) (idx : ℕ) (slot : KeySlot)
      → IsKeyed sess
      → IsKeyed (set_slot sess idx (some slot))
  set_slot-IsKeyed sess zero slot h =
      KeyedAt-slot sess.state _ _ sess.assigned_ip
        (slot_at-set_slot sess 0 sess.active_slot_idx slot) h
  set_slot-IsKeyed sess (suc idx) slot h =
      KeyedAt-slot sess.state _ _ sess.assigned_ip
        (slot_at-set_slot sess 1 sess.active_slot_idx slot) h

  pub install_slot-IsKeyed :
      (sess : Session Conn) (slot : KeySlot) → IsKeyed sess → IsKeyed (install_slot sess slot)
  unfolding install_slot
  install_slot-IsKeyed sess slot h = set_slot-IsKeyed sess (1 - sess.active_slot_idx) slot h

  pub promote_slot-IsKeyed :
      (sess : Session Conn) (key_id : ℕ) → IsKeyed sess → IsKeyed (promote_slot sess key_id).0
  unfolding promote_slot
  promote_slot-IsKeyed sess key_id h = elim (Bool-cases (has_key_id sess.slot0 key_id)) [
    | inl t ↦ rw t (
        KeyedAt-slot sess.state _ _ sess.assigned_ip (λ _. has_key_id-HasValue sess.slot0 key_id t)
          h)
    | inr t ↦ elim (Bool-cases (has_key_id sess.slot1 key_id)) [
      | inl u ↦
          rw (t, u)
            (KeyedAt-slot sess.state _ _ sess.assigned_ip
              (λ _. has_key_id-HasValue sess.slot1 key_id u) h)
      | inr u ↦ rw (t, u) h
    ]
  ]

  pub finalize_keys-IsKeyed :
      (cn : Option (Result (Option (List ℕ)))) (sess : Session Conn)
      → IsKeyed (finalize_keys cn sess)
  unfolding finalize_keys
  finalize_keys-IsKeyed none sess = tt
  finalize_keys-IsKeyed (some (ok name)) sess = tt
  finalize_keys-IsKeyed (some (err e)) sess = tt

  pub process_acks-IsKeyed :
      (sess : Session Conn) (acks : List ℕ) → IsKeyed sess → IsKeyed (process_acks sess acks)
  unfolding process_acks
  process_acks-IsKeyed sess acks h = elim (Bool-cases (is_empty acks)) [
    | inl t ↦ rw t h
    | inr t ↦ rw t h
  ]

  pub note_received-IsKeyed :
      (sess : Session Conn) (pid now : ℕ) → IsKeyed sess → IsKeyed (note_received sess pid now)
  unfolding note_received
  note_received-IsKeyed sess pid now h = elim (Bool-cases (contains sess.received_pids pid)) [
    | inl t ↦ rw t h
    | inr t ↦ rw t h
  ]

  -- A fresh key stands in a slot, and the active slot has a key then.
  place_slot-HasValue :
      (sess : Session Conn) (slot : KeySlot) (active : Option KeySlot)
      → active_slot sess ≡ active
      → HasValue (active_slot (place_slot sess slot active))
  unfolding install_slot
  place_slot-HasValue sess slot none e = (slot, refl)
  place_slot-HasValue sess slot (some s) e = stays (1 - sess.active_slot_idx)
    where
      stays : (idx : ℕ) → HasValue (active_slot (set_slot sess idx (some slot)))
      stays zero = slot_at-set_slot sess 0 sess.active_slot_idx slot (s, e)
      stays (suc idx) = slot_at-set_slot sess 1 sess.active_slot_idx slot (s, e)

  place_slot-IsKeyed :
      (sess : Session Conn) (slot : KeySlot) (active : Option KeySlot)
      → active_slot sess ≡ active
      → IsKeyed sess
      → IsKeyed (place_slot sess slot active)
  place_slot-IsKeyed sess slot none e h =
      KeyedAt-slot sess.state _ _ sess.assigned_ip (λ _. (slot, refl)) h
  place_slot-IsKeyed sess slot (some s) e h = install_slot-IsKeyed sess slot h

  -- The key exchange: the session is still keyed, and now it has an active key.
  pub install_prf_slot-IsKeyed :
      (lib : Primitives) (sess : Session Conn) (key_id : ℕ) (s : Session Conn)
      → install_prf_slot lib sess key_id ≡ ok s
      → IsKeyed sess
      → HasValue (active_slot s) × IsKeyed s
  unfolding install_prf_slot
  install_prf_slot-IsKeyed lib sess key_id s e h =
      let (a, ea, ra) = >>=-eq-ok (or_fail sess.client_pre_master missing_pre_master) _ e in
      let (b, eb, rb) = >>=-eq-ok (or_fail sess.client_random1 missing_random1) _ ra in
      let (c, ec, rc) = >>=-eq-ok (or_fail sess.client_random2 missing_random2) _ rb in
      let made : place_slot sess _ (active_slot sess) ≡ s = ok-injective rc in
      (
        subst (λ (t : Session Conn). HasValue (active_slot t)) made
            (place_slot-HasValue sess _ (active_slot sess) refl),
        subst (λ (t : Session Conn). IsKeyed t) made
            (place_slot-IsKeyed sess _ (active_slot sess) refl h),
      )

  pub build_data_packet-IsKeyed :
      (lib : Primitives) (sess : Session Conn) (ip_pkt : List ℕ)
      → IsKeyed sess
      → IsKeyed (build_data_packet lib sess ip_pkt).0
  unfolding build_data_packet
  build_data_packet-IsKeyed lib sess ip_pkt h = built (active_slot sess)
    where
      built : (slot : Option KeySlot) → IsKeyed (build_with lib sess slot ip_pkt).0
      built none = h
      built (some slot) = set_slot-IsKeyed sess sess.active_slot_idx _ h
