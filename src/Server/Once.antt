-- ===== src/Server/Once.antt =====
-- src/server.rs: inbound data packets, forged ones and replays among them.
use just_another_vpn_server.Prelude.{
  ℕ, zero, suc, ◌≡◌, refl, sym, ap, ◌∙◌, Bool, true, false, List, ◌∷◌, Option, some, take,
  if◌then◌else◌, contains, Result, ok, err, Error, Bool-cases, Result-cases, inl, inr,
}
use just_another_vpn_server.Primitives.{Primitives}
use just_another_vpn_server.Replay.{ReplayWindow, check_and_set}
use just_another_vpn_server.Replay.Window.{Represents, record_id, check_and_set-Represents}
use just_another_vpn_server.Replay.History.{accepts-contains, contains-accepts}
use just_another_vpn_server.Protocol.{DataPacketV2, parse_data}
use just_another_vpn_server.Crypto.{open_wire}
use just_another_vpn_server.Session.{Session, KeySlot}
use just_another_vpn_server.Session.Slots.{slot_by_key_id, slot_at, set_slot}
use just_another_vpn_server.Server.Traffic.{open_with, open_slot, open_at, decrypt}
use just_another_vpn_server.Server.Gate.{
  open_with_forged, open_with_good, decrypt-finish, finish, decrypt_all, decrypt_all-Later,
  slot_by_key_id-Later, slot_at-Later,
}
use Error.{replay_rejected}

module _ {Conn : Type 0} (lib : Primitives) where
  set_slot_same :
      (s : Session Conn) (idx : ℕ) (o : Option KeySlot) → slot_at s idx ≡ o → set_slot s idx o ≡ s
  set_slot_same s zero o e = ap (λ x. record s { slot0 = x }) (sym e)
  set_slot_same s (suc idx) o e = ap (λ x. record s { slot1 = x }) (sym e)

  pub slot_at-set_slot :
      (s : Session Conn) (idx : ℕ) (o : Option KeySlot) → slot_at (set_slot s idx o) idx ≡ o
  slot_at-set_slot s zero o = refl
  slot_at-set_slot s (suc idx) o = refl

  -- The packet is for the slot `slot`, which stands at `idx`.
  pub record IsFor (s : Session Conn) (pkt : List ℕ) (dp : DataPacketV2) (idx : ℕ) (slot : KeySlot)
      : Type 0 where
    pub parsed : parse_data pkt ≡ ok dp
    pub found : slot_by_key_id s dp.key_id ≡ some idx
    pub stands : slot_at s idx ≡ some slot

  pub decrypt-open_with :
      (now : ℕ) (s : Session Conn) (pkt : List ℕ) (dp : DataPacketV2) (idx : ℕ) (slot : KeySlot)
      → IsFor s pkt dp idx slot
      → let r = open_with lib slot (take 8 pkt) dp in
        decrypt lib now pkt s ≡ finish lib now (r.0, set_slot s idx (some r.1))
  decrypt-open_with now s pkt dp idx slot v =
      decrypt-finish lib now pkt dp s v.parsed
      ∙ ap (λ o. finish lib now (open_at lib (take 8 pkt) dp o s)) v.found
      ∙ ap (λ o. finish lib now (open_slot lib idx (take 8 pkt) dp o s)) v.stands

  -- A data packet that fails authentication under the key of its slot is refused with that failure
  -- and leaves the session exactly as it was, its replay windows and its clock included.
  pub decrypt_forged :
      (now : ℕ) (s : Session Conn) (pkt : List ℕ) (dp : DataPacketV2) (idx : ℕ) (slot : KeySlot)
      (e : Error)
      → IsFor s pkt dp idx slot
      → open_wire lib slot.cipher dp.packet_id (take 8 pkt) dp.ciphertext ≡ err e
      → decrypt lib now pkt s ≡ (err e, s)
  decrypt_forged now s pkt dp idx slot e v h =
      decrypt-open_with now s pkt dp idx slot v
      ∙ ap (λ r. finish lib now (r.0, set_slot s idx (some r.1)))
          (open_with_forged lib slot (take 8 pkt) dp e h)
      ∙ ap (λ t. (err e, t)) (set_slot_same s idx (some slot) v.stands)

  -- What an accepted packet leaves behind.
  record Accepted (now : ℕ) (s : Session Conn) (pkt : List ℕ) (dp : DataPacketV2) (idx : ℕ)
      (slot : KeySlot) : Type 0 where
    plaintext : List ℕ
    opens : open_wire lib slot.cipher dp.packet_id (take 8 pkt) dp.ciphertext ≡ ok plaintext
    fresh : (check_and_set slot.replay dp.packet_id).1 ≡ true
    leaves :
        slot_at (decrypt lib now pkt s).1 idx
        ≡ some (record slot { replay = (check_and_set slot.replay dp.packet_id).0 })

  module _ (now : ℕ) (s : Session Conn) (pkt : List ℕ) (dp : DataPacketV2) (idx : ℕ)
      (slot : KeySlot) (v : IsFor s pkt dp idx slot) where
    decrypt_good :
        (p : List ℕ)
        → open_wire lib slot.cipher dp.packet_id (take 8 pkt) dp.ciphertext ≡ ok p
        → let c = check_and_set slot.replay dp.packet_id in
          decrypt lib now pkt s
          ≡ finish lib now (
            if c.1 then ok p else err replay_rejected,
            set_slot s idx (some (record slot { replay = c.0 })),
          )
    decrypt_good p h =
        decrypt-open_with now s pkt dp idx slot v
        ∙ ap (λ r. finish lib now (r.0, set_slot s idx (some r.1)))
            (open_with_good lib slot (take 8 pkt) dp p h)

    slot_at-finish :
        (r : Result (List ℕ)) (s1 : Session Conn) (i : ℕ)
        → slot_at (finish lib now (r, s1)).1 i ≡ slot_at s1 i
    slot_at-finish (ok p) s1 zero = refl
    slot_at-finish (ok p) s1 (suc i) = refl
    slot_at-finish (err e) s1 i = refl

    decrypt-Accepted :
        (p : List ℕ) → (decrypt lib now pkt s).0 ≡ ok p → Accepted now s pkt dp idx slot
    decrypt-Accepted p h =
        elim (Result-cases (open_wire lib slot.cipher dp.packet_id (take 8 pkt) dp.ciphertext)) [
          | inr (e, bad) ↦
              let no : err e ≡ ok p =
                sym (ap (λ r. r.0) (decrypt_forged now s pkt dp idx slot e v bad)) ∙ h in
              cc
          | inl (p0, good) ↦
              let c : ReplayWindow × Bool = check_and_set slot.replay dp.packet_id in
              let after : KeySlot = record slot { replay = c.0 } in
              elim (Bool-cases c.1) [
                | inr old ↦
                    let no : err replay_rejected ≡ ok p =
                      sym (
                        ap (λ r. r.0)
                          (decrypt_good p0 good
                            ∙ ap
                                (λ (b : Bool). finish lib now (
                                  if b then ok p0 else err replay_rejected,
                                  set_slot s idx (some after),
                                ))
                                old))
                      ∙ h in
                    cc
                | inl new ↦ record {
                  plaintext = p0;
                  opens = good;
                  fresh = new;
                  leaves =
                      ap (λ r. slot_at r.1 idx) (decrypt_good p0 good)
                      ∙ slot_at-finish (if c.1 then ok p0 else err replay_rejected)
                          (set_slot s idx (some after)) idx
                      ∙ slot_at-set_slot s idx (some after);
                }
              ]
        ]

  -- A data packet that was accepted is refused as a replay whenever it comes again, whatever
  -- data packets, forged or not, the session receives in between. The window of its slot stands
  -- for some list of accepted ids, as that of a new slot does.
  pub decrypt_once :
      (now : ℕ) (s : Session Conn) (pkt : List ℕ) (dp : DataPacketV2) (idx : ℕ) (slot : KeySlot)
      (seen p : List ℕ) (later : ℕ) (es : List (ℕ × List ℕ))
      → IsFor s pkt dp idx slot
      → Represents slot.replay seen
      → (decrypt lib now pkt s).0 ≡ ok p
      → (decrypt lib later pkt (decrypt_all lib (decrypt lib now pkt s).1 es)).0
        ≡ err replay_rejected
  decrypt_once now s pkt dp idx slot seen p later es v rep h =
      let a : Accepted now s pkt dp idx slot = decrypt-Accepted now s pkt dp idx slot v p h in
      let pid : ℕ = dp.packet_id in
      let s1 : Session Conn = (decrypt lib now pkt s).1 in
      let s2 : Session Conn = decrypt_all lib s1 es in
      let (verdict, rep1) = check_and_set-Represents slot.replay seen pid rep in
      let known : contains (record_id seen pid) pid ≡ true =
        accepts-contains seen pid (sym verdict ∙ a.fresh) in
      let (slot2, at2, kept) = slot_at-Later s1 s2 idx _ (decrypt_all-Later lib s1 es) a.leaves in
      let (seen2, rep2, keep) = kept.window (record_id seen pid) rep1 in
      let stale : (check_and_set slot2.replay pid).1 ≡ false =
        (check_and_set-Represents slot2.replay seen2 pid rep2).0
        ∙ contains-accepts seen2 pid (keep pid known) in
      let found2 : slot_by_key_id s2 dp.key_id ≡ some idx =
        slot_by_key_id-Later s s2 dp.key_id (decrypt_all-Later lib s ((now, pkt) ∷ es)) ∙ v.found in
      let opens2 : open_wire lib slot2.cipher pid (take 8 pkt) dp.ciphertext ≡ ok a.plaintext =
        ap (λ c. open_wire lib c pid (take 8 pkt) dp.ciphertext) kept.same_cipher ∙ a.opens in
      let v2 : IsFor s2 pkt dp idx slot2 = record {
        parsed = v.parsed;
        found = found2;
        stands = at2;
      } in
      let after2 : KeySlot = record slot2 { replay = (check_and_set slot2.replay pid).0 } in
      ap (λ r. r.0)
        (decrypt_good later s2 pkt dp idx slot2 v2 a.plaintext opens2
          ∙ ap
              (λ (b : Bool).
                finish lib later (
                  if b then ok a.plaintext else err replay_rejected,
                  set_slot s2 idx (some after2),
                ))
              stale)
