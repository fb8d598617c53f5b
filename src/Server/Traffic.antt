-- ===== src/Server/Traffic.antt =====
-- src/server.rs: the data plane in both directions.
use just_another_vpn_server.Prelude.{
  ℕ, ◌/◌, ◌^◌, List, [], ◌∷◌, ◌++◌, Option, none, some, take, drop, length, ltb, ◌==◌,
  if◌then◌else◌, list_beq, Result, ok, err, Error,
}
use just_another_vpn_server.Prelude.Bytes.{from_be}
use just_another_vpn_server.Prelude.Steps.{Step, ◌>>=◌, ◌>>◌, pure, done, modify, lift}
use just_another_vpn_server.Prelude.Maps.{lookup, insert}
use just_another_vpn_server.Primitives.{Primitives}
use just_another_vpn_server.Replay.{check_and_set}
use just_another_vpn_server.Protocol.{DataPacketV2, parse_data, ping_payload}
use just_another_vpn_server.Crypto.{open_wire}
use just_another_vpn_server.Session.{Session, KeySlot}
use just_another_vpn_server.Session.Slots.{
  slot_by_key_id, slot_at, set_slot, active_slot, build_data_packet,
}
use just_another_vpn_server.Server.{Env, VpnServer}
use just_another_vpn_server.Server.Wire.{send}
use Error.{no_key_slot, replay_rejected}

module _ {Conn : Type 0} where
  abbrev pub queue_for : List ℕ → Option ℕ → VpnServer Conn → VpnServer Conn
  queue_for pkt none self = self
  queue_for pkt (some addr) self = record self { queued = self.queued ++ (addr, pkt) ∷ [] }

  abbrev pub route_parsed : List ℕ → Result DataPacketV2 → VpnServer Conn → VpnServer Conn
  route_parsed pkt (err e) self = self
  route_parsed pkt (ok dp) self = queue_for pkt (lookup self.data_routes dp.peer_id) self

  unfoldable pub route_data : List ℕ → VpnServer Conn → VpnServer Conn
  route_data pkt self = route_parsed pkt (parse_data pkt) self

-- The part of `decrypt_and_forward` that borrows the slot: the plaintext, and the slot after it.
abbrev pub checked : KeySlot → ℕ → Result (List ℕ) → Result (List ℕ) × KeySlot
checked slot packet_id (err e) = (err e, slot)
checked slot packet_id (ok plaintext) =
    let r = check_and_set slot.replay packet_id in
    (if r.1 then ok plaintext else err replay_rejected, record slot { replay = r.0 })

unfoldable pub open_with : Primitives → KeySlot → List ℕ → DataPacketV2 → Result (List ℕ) × KeySlot
open_with lib slot aad dp =
    checked slot dp.packet_id (open_wire lib slot.cipher dp.packet_id aad dp.ciphertext)

module _ {Conn : Type 0} (lib : Primitives) where
  abbrev pub open_slot :
      ℕ → List ℕ → DataPacketV2 → Option KeySlot → Session Conn → Result (List ℕ) × Session Conn
  open_slot idx aad dp none sess = (err no_key_slot, sess)
  open_slot idx aad dp (some slot) sess =
      let r = open_with lib slot aad dp in (r.0, set_slot sess idx (some r.1))

  abbrev pub open_at :
      List ℕ → DataPacketV2 → Option ℕ → Session Conn → Result (List ℕ) × Session Conn
  open_at aad dp none sess = (err no_key_slot, sess)
  open_at aad dp (some idx) sess = open_slot idx aad dp (slot_at sess idx) sess

  -- `decrypt_and_forward` up to the check for pings.
  unfoldable pub decrypt : ℕ → List ℕ → Step (Session Conn) (List ℕ)
  decrypt now pkt = do
    dp ← lift (parse_data pkt)
    plaintext ← (λ s. open_at (take 8 pkt) dp (slot_by_key_id s dp.key_id) s)
    modify (λ s. record s { last_seen = now })
    pure plaintext

  -- The packets for the TUN writer.
  unfoldable pub decrypt_and_forward : ℕ → List ℕ → Step (Session Conn) (List (List ℕ))
  decrypt_and_forward now pkt = decrypt now pkt >>= λ plaintext.
      pure (if list_beq plaintext ping_payload then [] else plaintext ∷ [])

module _ {Conn : Type 0} (env : Env Conn) where
  abbrev pub forwarded : ℕ → Result (List (List ℕ)) × Session Conn → VpnServer Conn → VpnServer Conn
  forwarded addr (ok out, sess) self = record self {
    sessions = insert self.sessions addr sess;
    tun_out = self.tun_out ++ out;
  }
  forwarded addr (err e, sess) self = record self { sessions = insert self.sessions addr sess }

  abbrev pub work_with : ℕ → List ℕ → Option (Session Conn) → VpnServer Conn → VpnServer Conn
  work_with addr pkt none self = self
  work_with addr pkt (some sess) self =
      forwarded addr (decrypt_and_forward env.crypto env.now pkt sess) self

  -- A turn of the data worker: it takes the oldest packet that is queued.
  abbrev pub work : VpnServer Conn → List (ℕ × List ℕ) → VpnServer Conn
  work self [] = self
  work self (q ∷ rest) =
      work_with q.0 q.1 (lookup self.sessions q.0) (record self { queued = rest })

  -- The workers of all sessions. A worker of the source owns its session, also behind an eviction;
  -- here it is looked up by its address, so that what is queued for an evicted session is dropped.
  unfoldable pub run_worker : VpnServer Conn → VpnServer Conn
  run_worker self = work self self.queued

  -- The address that an IP packet from the TUN is for.
  unfoldable pub destination : VpnServer Conn → List ℕ → Option ℕ
  destination self [] = none
  destination self (first ∷ more) =
      let ip_pkt = first ∷ more in
      if first / 2 ^ 4 == 4
      then (if ltb (length ip_pkt) 20
          then none
          else lookup self.routes (from_be (take 4 (drop 16 ip_pkt))))
      else if first / 2 ^ 4 == 6
      then (if ltb (length ip_pkt) 40
          then none
          else lookup self.routes_v6 (from_be (take 16 (drop 24 ip_pkt))))
      else none

  unfoldable pub forward_with :
      ℕ → Session Conn → Option KeySlot → List ℕ → Step (VpnServer Conn) (Unit {0})
  forward_with addr sess none ip_pkt = done
  forward_with addr sess (some slot) ip_pkt =
      let r = build_data_packet env.crypto sess ip_pkt in
      modify (λ v. record v { sessions = insert v.sessions addr r.0 })
      >> (lift r.1 >>= send env sess.transport)

  abbrev pub forward_at : ℕ → Option (Session Conn) → List ℕ → Step (VpnServer Conn) (Unit {0})
  forward_at addr none ip_pkt = done
  forward_at addr (some sess) ip_pkt = forward_with addr sess (active_slot sess) ip_pkt

  abbrev pub forward_to : Option ℕ → List ℕ → Step (VpnServer Conn) (Unit {0})
  forward_to none ip_pkt self = (ok tt, self)
  forward_to (some addr) ip_pkt self = forward_at addr (lookup self.sessions addr) ip_pkt self

  unfoldable pub forward_tun_to_client : List ℕ → Step (VpnServer Conn) (Unit {0})
  forward_tun_to_client ip_pkt self = forward_to (destination self ip_pkt) ip_pkt self
