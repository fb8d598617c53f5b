-- ===== src/Server/Gate.antt =====
-- src/server.rs: the gate of the data plane, which is authentication and the replay window.
use just_another_vpn_server.Prelude.{
  ℕ, zero, suc, ◌≡◌, refl, sym, ap, ap₂, ◌∙◌, subst, Bool, true, List, [], ◌∷◌, Option, none, some,
  take, if◌then◌else◌, contains, Result, ok, err, Error, Result-cases, inl, inr, ◌==◌,
}
use just_another_vpn_server.Prelude.Steps.{Step, ◌>>=◌, ◌>>◌, continue_with, pure, modify}
use just_another_vpn_server.Primitives.{Primitives}
use just_another_vpn_server.Replay.{ReplayWindow, check_and_set}
use just_another_vpn_server.Replay.Window.{Represents, record_id, check_and_set-Represents}
use just_another_vpn_server.Replay.History.{contains-record_id}
use just_another_vpn_server.Protocol.{DataPacketV2, parse_data}
use just_another_vpn_server.Crypto.{open_wire}
use just_another_vpn_server.Session.{Session, KeySlot}
use just_another_vpn_server.Session.Slots.{slot_by_key_id, slot_at, set_slot, has_key_id}
use just_another_vpn_server.Server.Traffic.{checked, open_with, open_slot, open_at, decrypt}
use Error.{replay_rejected}

module _ (lib : Primitives) (slot : KeySlot) (aad : List ℕ) (dp : DataPacketV2) where
  pub open_with_forged :
      (e : Error)
      → open_wire lib slot.cipher dp.packet_id aad dp.ciphertext ≡ err e
      → open_with lib slot aad dp ≡ (err e, slot)
  unfolding open_with
  open_with_forged e h = ap (checked slot dp.packet_id) h

  pub open_with_good :
      (p : List ℕ)
      → open_wire lib slot.cipher dp.packet_id aad dp.ciphertext ≡ ok p
      → let r = check_and_set slot.replay dp.packet_id in
        open_with lib slot aad dp
        ≡ (if r.1 then ok p else err replay_rejected, record slot { replay = r.0 })
  unfolding open_with
  open_with_good p h = ap (checked slot dp.packet_id) h

-- A window that has seen at least what another has.
abbrev pub LaterWindow : ReplayWindow → ReplayWindow → Type 0
LaterWindow w w' =
    (seen : List ℕ)
    → Represents w seen
    → (seen' : List ℕ) × Represents w' seen'
      × ((pid : ℕ) → contains seen pid ≡ true → contains seen' pid ≡ true)

-- A slot after some packets were received with it.
pub record Later (a b : KeySlot) : Type 0 where
  pub same_key_id : b.key_id ≡ a.key_id
  pub same_cipher : b.cipher ≡ a.cipher
  pub window : LaterWindow a.replay b.replay

abbrev pub LaterSlot : Option KeySlot → Option KeySlot → Type 0
LaterSlot none none = Unit
LaterSlot none (some b) = ⊥
LaterSlot (some a) none = ⊥
LaterSlot (some a) (some b) = Later a b

same_slot : (a : KeySlot) → Later a a
same_slot a = record {
  same_key_id = refl;
  same_cipher = refl;
  window = λ seen rep. (seen, rep, λ pid h. h);
}

same : (o : Option KeySlot) → LaterSlot o o
same none = tt
same (some a) = same_slot a

then_later : (a b c : Option KeySlot) → LaterSlot a b → LaterSlot b c → LaterSlot a c
then_later none none none h k = tt
then_later none none (some c) h k = k
then_later none (some b) c h k = absurd h
then_later (some a) none c h k = absurd h
then_later (some a) (some b) none h k = k
then_later (some a) (some b) (some c) h k = record {
  same_key_id = k.same_key_id ∙ h.same_key_id;
  same_cipher = k.same_cipher ∙ h.same_cipher;
  window = λ seen rep.
      let (seen1, rep1, keep1) = h.window seen rep in
      let (seen2, rep2, keep2) = k.window seen1 rep1 in
      (seen2, rep2, λ pid m. keep2 pid (keep1 pid m));
}

checked-Later :
    (slot : KeySlot) (p : ℕ) → Later slot (record slot { replay = (check_and_set slot.replay p).0 })
checked-Later slot p = record {
  same_key_id = refl;
  same_cipher = refl;
  window = λ seen rep. (
    record_id seen p,
    (check_and_set-Represents slot.replay seen p rep).1,
    λ pid h. contains-record_id seen pid p h,
  );
}

open_with-Later :
    (lib : Primitives) (slot : KeySlot) (aad : List ℕ) (dp : DataPacketV2)
    → Later slot (open_with lib slot aad dp).1
open_with-Later lib slot aad dp =
    elim (Result-cases (open_wire lib slot.cipher dp.packet_id aad dp.ciphertext)) [
      | inl (p, h) ↦
          subst (λ (r : Result (List ℕ) × KeySlot). Later slot r.1)
            (sym (open_with_good lib slot aad dp p h)) (checked-Later slot dp.packet_id)
      | inr (e, h) ↦
          subst (λ (r : Result (List ℕ) × KeySlot). Later slot r.1)
            (sym (open_with_forged lib slot aad dp e h)) (same_slot slot)
    ]

has_key_id-Later :
    (a b : Option KeySlot) (key_id : ℕ) → LaterSlot a b → has_key_id b key_id ≡ has_key_id a key_id
has_key_id-Later none none key_id h = refl
has_key_id-Later none (some b) key_id h = absurd h
has_key_id-Later (some a) none key_id h = absurd h
has_key_id-Later (some a) (some b) key_id h = ap (λ k. k == key_id) h.same_key_id

later_slot :
    (a b : Option KeySlot) (slot : KeySlot)
    → LaterSlot a b
    → a ≡ some slot
    → (slot' : KeySlot) × (b ≡ some slot') × Later slot slot'
later_slot none b slot h e = cc
later_slot (some a) none slot h e = absurd h
later_slot (some a) (some b) slot h e = (b, refl, subst (λ o. LaterSlot o (some b)) e h)

module _ {Conn : Type 0} where
  abbrev pub LaterSession : Session Conn → Session Conn → Type 0
  LaterSession s s' = LaterSlot s.slot0 s'.slot0 × LaterSlot s.slot1 s'.slot1

  unchanged : (s : Session Conn) → LaterSession s s
  unchanged s = (same s.slot0, same s.slot1)

  set_slot-Later :
      (s : Session Conn) (idx : ℕ) (a b : KeySlot)
      → slot_at s idx ≡ some a
      → Later a b
      → LaterSession s (set_slot s idx (some b))
  set_slot-Later s zero a b e h = (subst (λ o. LaterSlot o (some b)) (sym e) h, same s.slot1)
  set_slot-Later s (suc idx) a b e h = (same s.slot0, subst (λ o. LaterSlot o (some b)) (sym e) h)

  module _ (lib : Primitives) where
    open_slot-Later :
        (idx : ℕ) (aad : List ℕ) (dp : DataPacketV2) (o : Option KeySlot) (s : Session Conn)
        → slot_at s idx ≡ o
        → LaterSession s (open_slot lib idx aad dp o s).1
    open_slot-Later idx aad dp none s e = unchanged s
    open_slot-Later idx aad dp (some slot) s e =
        set_slot-Later s idx slot (open_with lib slot aad dp).1 e (open_with-Later lib slot aad dp)

    open_at-Later :
        (aad : List ℕ) (dp : DataPacketV2) (o : Option ℕ) (s : Session Conn)
        → LaterSession s (open_at lib aad dp o s).1
    open_at-Later aad dp none s = unchanged s
    open_at-Later aad dp (some idx) s = open_slot-Later idx aad dp (slot_at s idx) s refl

    -- The end of `decrypt`, behind the slot.
    abbrev pub finish : ℕ → Result (List ℕ) × Session Conn → Result (List ℕ) × Session Conn
    finish now (ok p, s) = (ok p, record s { last_seen = now })
    finish now (err e, s) = (err e, s)

    finish-Later :
        (now : ℕ) (s : Session Conn) (r : Result (List ℕ)) (s1 : Session Conn)
        → LaterSession s s1
        → LaterSession s (finish now (r, s1)).1
    finish-Later now s (ok p) s1 h = h
    finish-Later now s (err e) s1 h = h

    abbrev tail : ℕ → List ℕ → Step (Session Conn) (List ℕ)
    tail now p = modify (λ s. record s { last_seen = now }) >> pure p

    abbrev behind : ℕ → List ℕ → DataPacketV2 → Step (Session Conn) (List ℕ)
    behind now pkt d = (λ t. open_at lib (take 8 pkt) d (slot_by_key_id t d.key_id) t) >>= tail now

    continue-finish :
        (now : ℕ) (r : Result (List ℕ)) (s : Session Conn)
        → continue_with (r, s) (tail now) ≡ finish now (r, s)
    continue-finish now (ok p) s = refl
    continue-finish now (err e) s = refl

    pub decrypt-finish :
        (now : ℕ) (pkt : List ℕ) (dp : DataPacketV2) (s : Session Conn)
        → parse_data pkt ≡ ok dp
        → decrypt lib now pkt s
          ≡ finish now (open_at lib (take 8 pkt) dp (slot_by_key_id s dp.key_id) s)
    unfolding decrypt
    decrypt-finish now pkt dp s h =
        let r : Result (List ℕ) × Session Conn =
          open_at lib (take 8 pkt) dp (slot_by_key_id s dp.key_id) s in
        ap (λ d. continue_with (d, s) (behind now pkt)) h ∙ continue-finish now r.0 r.1

    pub decrypt_malformed :
        (now : ℕ) (pkt : List ℕ) (e : Error) (s : Session Conn)
        → parse_data pkt ≡ err e
        → decrypt lib now pkt s ≡ (err e, s)
    unfolding decrypt
    decrypt_malformed now pkt e s h = ap (λ d. continue_with (d, s) (behind now pkt)) h

    pub decrypt-Later :
        (now : ℕ) (pkt : List ℕ) (s : Session Conn) → LaterSession s (decrypt lib now pkt s).1
    decrypt-Later now pkt s = elim (Result-cases (parse_data pkt)) [
      | inr (e, h) ↦
          subst (λ (r : Result (List ℕ) × Session Conn). LaterSession s r.1)
            (sym (decrypt_malformed now pkt e s h)) (unchanged s)
      | inl (dp, h) ↦
          let r : Result (List ℕ) × Session Conn =
            open_at lib (take 8 pkt) dp (slot_by_key_id s dp.key_id) s in
          subst (λ (r : Result (List ℕ) × Session Conn). LaterSession s r.1)
            (sym (decrypt-finish now pkt dp s h))
            (finish-Later now s r.0 r.1
              (open_at-Later (take 8 pkt) dp (slot_by_key_id s dp.key_id) s))
    ]

    -- The session after a sequence of packets, each with its time.
    abbrev pub decrypt_all : Session Conn → List (ℕ × List ℕ) → Session Conn
    decrypt_all s [] = s
    decrypt_all s (e ∷ es) = decrypt_all (decrypt lib e.0 e.1 s).1 es

    pub decrypt_all-Later :
        (s : Session Conn) (es : List (ℕ × List ℕ)) → LaterSession s (decrypt_all s es)
    decrypt_all-Later s [] = unchanged s
    decrypt_all-Later s (e ∷ es) =
        let s1 : Session Conn = (decrypt lib e.0 e.1 s).1 in
        let (a0, a1) = decrypt-Later e.0 e.1 s in
        let (b0, b1) = decrypt_all-Later s1 es in
        let s2 : Session Conn = decrypt_all s1 es in
        (then_later s.slot0 s1.slot0 s2.slot0 a0 b0, then_later s.slot1 s1.slot1 s2.slot1 a1 b1)

  pub slot_by_key_id-Later :
      (s s' : Session Conn) (key_id : ℕ)
      → LaterSession s s'
      → slot_by_key_id s' key_id ≡ slot_by_key_id s key_id
  unfolding slot_by_key_id
  slot_by_key_id-Later s s' key_id (h0, h1) =
      ap₂ (λ (p q : Bool). if p then some 0 else if q then some 1 else none)
        (has_key_id-Later s.slot0 s'.slot0 key_id h0) (has_key_id-Later s.slot1 s'.slot1 key_id h1)

  pub slot_at-Later :
      (s s' : Session Conn) (idx : ℕ) (slot : KeySlot)
      → LaterSession s s'
      → slot_at s idx ≡ some slot
      → (slot' : KeySlot) × (slot_at s' idx ≡ some slot') × Later slot slot'
  slot_at-Later s s' zero slot h e = later_slot s.slot0 s'.slot0 slot h.0 e
  slot_at-Later s s' (suc idx) slot h e = later_slot s.slot1 s'.slot1 slot h.1 e
