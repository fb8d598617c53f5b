-- ===== src/Session/Rekey.antt =====
-- Two key generations in the two slots: installing, looking up by key id, promoting.
use just_another_vpn_server.Prelude.{
  ℕ, ◌-◌, ◌≤◌, ◌≡◌, ◌≢◌, ◌⊎◌, refl, sym, ap, ◌∙◌, subst, Bool, true, false, List, Option, none,
  some, arith, ◌==◌, ==_self, if◌then◌else◌, ok, Error, inl, inr, Bool-cases, ap₂, or_fail-some,
}
use Error.{missing_pre_master, missing_random1, missing_random2}
use just_another_vpn_server.Prelude.Bytes.{to_be}
use just_another_vpn_server.Primitives.{Primitives}
use just_another_vpn_server.Crypto.{from_keymat_server}
use just_another_vpn_server.Prf.{derive_openvpn_key_data}
use just_another_vpn_server.Session.{Session, KeySlot}
use just_another_vpn_server.Session.Slots.{
  slot_at, set_slot, has_key_id, active_slot, promote_slot, slot_by_key_id, install_slot,
  install_prf_slot, new_slot, place_slot,
}

abbrev pick : Option KeySlot → Option KeySlot → ℕ → Option KeySlot
pick a b key_id = if has_key_id a key_id then a else if has_key_id b key_id then b else none

pick_first : (s : KeySlot) (b : Option KeySlot) → pick (some s) b s.key_id ≡ some s
pick_first s b = rw (==_self s.key_id) refl

pick_second : (a b : KeySlot) → a.key_id ≢ b.key_id → pick (some a) (some b) b.key_id ≡ some b
pick_second a b h =
    let e : (a.key_id == b.key_id) ≡ false = ground (arith, h) in rw (e, ==_self b.key_id) refl

zero_or_one : (n : ℕ) → n ≤ 1 → (n ≡ 0) ⊎ (n ≡ 1)
zero_or_one n h = ground arith

-- A slot with the keys in this key data, that has neither sent nor received a packet.
abbrev pub IsFresh : KeySlot → ℕ → List ℕ → Type 0
IsFresh slot key_id key_data =
    (slot.key_id ≡ key_id)
    × (slot.cipher ≡ from_keymat_server key_data)
    × (slot.data_pid_out ≡ 1)
    × (slot.replay.highest ≡ 0)
    × (slot.replay.bitmap ≡ 0)

module _ {Conn : Type 0} where
  -- `self.slots[idx]` at an index that `slot_by_key_id` returns.
  abbrev pub slot_behind : Session Conn → Option ℕ → Option KeySlot
  slot_behind s none = none
  slot_behind s (some idx) = slot_at s idx

  -- The slot that inbound packets with a key id are decrypted with.
  abbrev pub found : Session Conn → ℕ → Option KeySlot
  found s key_id = slot_behind s (slot_by_key_id s key_id)

  found-pick : (s : Session Conn) (key_id : ℕ) → found s key_id ≡ pick s.slot0 s.slot1 key_id
  unfolding slot_by_key_id
  found-pick s key_id = elim (Bool-cases (has_key_id s.slot0 key_id)) [
    | inl a ↦ rw a refl
    | inr a ↦ elim (Bool-cases (has_key_id s.slot1 key_id)) [
      | inl b ↦ rw (a, b) refl
      | inr b ↦ rw (a, b) refl
    ]
  ]

  promote_first :
      (s : Session Conn) (key_id : ℕ)
      → has_key_id s.slot0 key_id ≡ true
      → promote_slot s key_id ≡ (record s { active_slot_idx = 0 }, true)
  unfolding promote_slot
  promote_first s key_id h = rw h refl

  promote_second :
      (s : Session Conn) (key_id : ℕ)
      → has_key_id s.slot0 key_id ≡ false
      → has_key_id s.slot1 key_id ≡ true
      → promote_slot s key_id ≡ (record s { active_slot_idx = 1 }, true)
  unfolding promote_slot
  promote_second s key_id h0 h1 = rw (h0, h1) refl

  -- The session sends with `active`, and finds the slots of both generations by their key ids.
  pub record Serves (s : Session Conn) (active first second : KeySlot) : Type 0 where
    pub sends_with : active_slot s ≡ some active
    pub finds_first : found s first.key_id ≡ some first
    pub finds_second : found s second.key_id ≡ some second

  module _ (s : Session Conn) (active a b : KeySlot) (distinct : a.key_id ≢ b.key_id) where
    both_found :
        s.slot0 ≡ some a → s.slot1 ≡ some b → active_slot s ≡ some active → Serves s active a b
    both_found e0 e1 e = record {
      sends_with = e;
      finds_first =
          found-pick s a.key_id ∙ ap₂ (λ x y. pick x y a.key_id) e0 e1 ∙ pick_first a (some b);
      finds_second =
          found-pick s b.key_id ∙ ap₂ (λ x y. pick x y b.key_id) e0 e1 ∙ pick_second a b distinct;
    }

  swap : {s : Session Conn} {active a b : KeySlot} → Serves s active a b → Serves s active b a
  swap v = record {
    sends_with = v.sends_with;
    finds_first = v.finds_second;
    finds_second = v.finds_first;
  }

  -- What a rekey does to the slots of a session that sends with `old`.
  pub record Rekeys (s s1 : Session Conn) (s2 : Session Conn × Bool) (old new : KeySlot)
      : Type 0 where
    pub during : Serves s1 old old new
    pub promoted : s2.1 ≡ true
    pub later : Serves s2.0 new old new

  module _ (s : Session Conn) (old new : KeySlot) (distinct : old.key_id ≢ new.key_id) where
    flipped : new.key_id ≢ old.key_id
    flipped e = distinct (sym e)

    rekey_zero :
        s.active_slot_idx ≡ 0
        → s.slot0 ≡ some old
        → let s1 = record s { slot1 = some new } in Rekeys s s1 (promote_slot s1 new.key_id) old new
    rekey_zero i e =
        let s1 : Session Conn = record s { slot1 = some new } in
        let s2 : Session Conn = record s1 { active_slot_idx = 1 } in
        let other : has_key_id s.slot0 new.key_id ≡ false =
          ap (λ o. has_key_id o new.key_id) e ∙ ground (arith, distinct) in
        let p : promote_slot s1 new.key_id ≡ (s2, true) =
          promote_second s1 new.key_id other (==_self new.key_id) in
        record {
          during = both_found s1 old old new distinct e refl (ap (slot_at s1) i ∙ e);
          promoted = ap (λ r. r.1) p;
          later =
              subst (λ (r : Session Conn × Bool). Serves r.0 new old new) (sym p)
                (both_found s2 new old new distinct e refl refl);
        }

    rekey_one :
        s.active_slot_idx ≡ 1
        → s.slot1 ≡ some old
        → let s1 = record s { slot0 = some new } in Rekeys s s1 (promote_slot s1 new.key_id) old new
    rekey_one i e =
        let s1 : Session Conn = record s { slot0 = some new } in
        let s2 : Session Conn = record s1 { active_slot_idx = 0 } in
        let p : promote_slot s1 new.key_id ≡ (s2, true) =
          promote_first s1 new.key_id (==_self new.key_id) in
        record {
          during = swap (both_found s1 old new old flipped refl e (ap (slot_at s1) i ∙ e));
          promoted = ap (λ r. r.1) p;
          later =
              subst (λ (r : Session Conn × Bool). Serves r.0 new old new) (sym p)
                (swap (both_found s2 new new old flipped refl e refl));
        }

    -- In a rekey under a key id other than the active one, while the new slot is
    -- installed the session still sends with the old one and decrypts with both; promoting the new
    -- key id succeeds, after which it sends with the new slot and still decrypts with both. The
    -- active index is 0 or 1.
    pub install_slot-promote_slot :
        s.active_slot_idx ≤ 1
        → active_slot s ≡ some old
        → let s1 = install_slot s new in Rekeys s s1 (promote_slot s1 new.key_id) old new
    unfolding install_slot
    install_slot-promote_slot bound e = elim (zero_or_one s.active_slot_idx bound) [
      | inl i ↦
          subst (λ s1. Rekeys s s1 (promote_slot s1 new.key_id) old new)
            (ap (λ k. set_slot s (1 - k) (some new)) (sym i))
            (rekey_zero i (ap (slot_at s) (sym i) ∙ e))
      | inr i ↦
          subst (λ s1. Rekeys s s1 (promote_slot s1 new.key_id) old new)
            (ap (λ k. set_slot s (1 - k) (some new)) (sym i))
            (rekey_one i (ap (slot_at s) (sym i) ∙ e))
    ]

  -- Without an active slot before, the new one is slot 0 and the active one; with one, that one
  -- stays active, and both are found by their key ids.
  abbrev pub IsInstalled : Option KeySlot → Session Conn → KeySlot → Type 0
  IsInstalled none s slot =
      (s.slot0 ≡ some slot) × (active_slot s ≡ some slot) × (found s slot.key_id ≡ some slot)
  IsInstalled (some old) s slot = Serves s old old slot

  placed :
      (s : Session Conn) (slot : KeySlot) (o : Option KeySlot)
      → active_slot s ≡ o
      → s.active_slot_idx ≤ 1
      → ((old : KeySlot) → o ≡ some old → old.key_id ≢ slot.key_id)
      → IsInstalled o (place_slot s slot o) slot
  placed s slot none e bound distinct =
      let s1 : Session Conn = record s { slot0 = some slot; active_slot_idx = 0 } in
      (refl, refl, found-pick s1 slot.key_id ∙ pick_first slot s.slot1)
  placed s slot (some old) e bound distinct =
      (install_slot-promote_slot s old slot (distinct old refl) bound e).during

  module _ (lib : Primitives) where
    -- With the client's three random values at hand, the derivation of keys succeeds under any key
    -- id but the active slot's. The new slot has the derived keys, starts at packet id 1 and with an
    -- empty replay window. In the first negotiation it is slot 0 and the active one; later the
    -- active slot stays the active one, and both are found by their key ids. The active index is 0
    -- or 1.
    pub install_prf_slot-IsInstalled :
        (s : Session Conn) (key_id : ℕ) (pre r1 r2 : List ℕ)
        → s.client_pre_master ≡ some pre
        → s.client_random1 ≡ some r1
        → s.client_random2 ≡ some r2
        → s.active_slot_idx ≤ 1
        → ((old : KeySlot) → active_slot s ≡ some old → old.key_id ≢ key_id)
        → (s1 : Session Conn) × (slot : KeySlot) × (install_prf_slot lib s key_id ≡ ok s1)
          × IsFresh slot key_id (
              derive_openvpn_key_data lib pre r1 s.server_random1 r2 s.server_random2
                (to_be 8 s.client_session_id)
                (to_be 8 s.server_session_id))
          × IsInstalled (active_slot s) s1 slot
    unfolding install_prf_slot new_slot
    install_prf_slot-IsInstalled s key_id pre r1 r2 e0 e1 e2 bound distinct =
        let slot : KeySlot = new_slot key_id (
          derive_openvpn_key_data lib pre r1 s.server_random1 r2 s.server_random2
            (to_be 8 s.client_session_id) (to_be 8 s.server_session_id)) in
        (
          place_slot s slot (active_slot s),
          slot,
          or_fail-some missing_pre_master _ e0
              ∙ or_fail-some missing_random1 _ e1
              ∙ or_fail-some missing_random2 _ e2,
          (refl, refl, refl, refl, refl),
          placed s slot (active_slot s) refl bound distinct,
        )
