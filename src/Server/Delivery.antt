-- ===== src/Server/Delivery.antt =====
-- A tunnel from end to end, between a session and one with the mirrored keys.
use just_another_vpn_server.Prelude.{
  ℕ, zero, suc, ◌+◌, ◌%◌, ◌^◌, ◌<◌, ◌≡◌, refl, sym, ap, ◌∙◌, subst, Bool, true, List, [], ◌∷◌,
  Option, some, take, length, map, if◌then◌else◌, arith, Result, ok, err, Error,
}
use native.Mathlib.Nat.{mod-eq_of_lt}
use just_another_vpn_server.Primitives.{Primitives, IsPrimitives}
use just_another_vpn_server.Replay.{check_and_set}
use just_another_vpn_server.Crypto.{open_wire}
use just_another_vpn_server.Crypto.Seal.{mirror}
use just_another_vpn_server.Session.{Session, KeySlot}
use just_another_vpn_server.Session.ReplayIds.{check_and_set-above}
use just_another_vpn_server.Session.Data.{IsSlot, seal_packet-opens, seal_packet_total}
use just_another_vpn_server.Session.Slots.{
  slot_by_key_id, slot_at, set_slot, active_slot, build_with, build_data_packet, seal_packet,
}
use just_another_vpn_server.Server.Traffic.{decrypt}
use just_another_vpn_server.Server.Gate.{
  open_with_good, finish, decrypt-Later, slot_by_key_id-Later,
}
use just_another_vpn_server.Server.Once.{IsFor, decrypt-open_with, slot_at-set_slot}
use Error.{replay_rejected}

module _ {Conn : Type 0} where
  -- The session `c` can read what `s` sends: it finds a slot with the mirrored keys, whose window has
  -- seen no id as high as the next one of `s`.
  pub record Paired (s c : Session Conn) : Type 0 where
    pub slot : KeySlot
    pub peer : KeySlot
    pub idx : ℕ
    pub sends : active_slot s ≡ some slot
    pub fits : IsSlot slot
    pub peer_fits : s.peer_id < 2 ^ 24
    pub found : slot_by_key_id c slot.key_id ≡ some idx
    pub stands : slot_at c idx ≡ some peer
    pub mirrored : peer.cipher ≡ mirror slot.cipher
    pub behind : peer.replay.highest < slot.data_pid_out

  active_slot-set_slot :
      (s : Session Conn) (i : ℕ) (o : Option KeySlot)
      → s.active_slot_idx ≡ i
      → active_slot (set_slot s i o) ≡ o
  active_slot-set_slot s zero o e = ap (slot_at (set_slot s zero o)) e
  active_slot-set_slot s (suc i) o e = ap (slot_at (set_slot s (suc i) o)) e

  slot_at_clock :
      (now : ℕ) (s : Session Conn) (i : ℕ) → slot_at (record s { last_seen = now }) i ≡ slot_at s i
  slot_at_clock now s zero = refl
  slot_at_clock now s (suc i) = refl

  peer_id-set_slot :
      (s : Session Conn) (i : ℕ) (o : Option KeySlot) → (set_slot s i o).peer_id ≡ s.peer_id
  peer_id-set_slot s zero o = refl
  peer_id-set_slot s (suc i) o = refl

module _ {Conn : Type 0} (lib : Primitives) where
  -- What the receiver makes of the outcome of `build_data_packet`.
  abbrev pub receive_built : ℕ → Session Conn → Result (List ℕ) → Result (List ℕ) × Session Conn
  receive_built now c (err e) = (err e, c)
  receive_built now c (ok pkt) = decrypt lib now pkt c

  -- The receiver's answers to the packets that the sender builds from `plaintexts`, in order.
  abbrev pub transfer : ℕ → Session Conn → Session Conn → List (List ℕ) → List (Result (List ℕ))
  transfer now s c [] = []
  transfer now s c (plaintext ∷ more) =
      let b = build_data_packet lib s plaintext in
      let r = receive_built now c b.1 in r.0 ∷ transfer now b.0 r.1 more

module _ {Conn : Type 0} {lib : Primitives} (laws : IsPrimitives lib) where
  abbrev sender_after : Session Conn → KeySlot → Session Conn
  sender_after s slot =
      set_slot s s.active_slot_idx
        (some (record slot { data_pid_out = (slot.data_pid_out + 1) % 2 ^ 32 }))

  build_lem :
      (s : Session Conn) (slot : KeySlot) (plaintext : List ℕ)
      → active_slot s ≡ some slot
      → build_data_packet lib s plaintext
        ≡ (sender_after s slot, seal_packet lib slot s.peer_id plaintext)
  unfolding build_data_packet
  build_lem s slot plaintext h = ap (λ o. build_with lib s o plaintext) h

  abbrev receiver_after : ℕ → Session Conn → ℕ → KeySlot → ℕ → Session Conn
  receiver_after now c idx peer pid =
      let after = record peer { replay = (check_and_set peer.replay pid).0 } in
      record (set_slot c idx (some after)) { last_seen = now }

  -- The receiving end of one packet.
  decrypt-sealed :
      (now : ℕ) (s c : Session Conn) (v : Paired s c) (plaintext pkt : List ℕ)
      → seal_packet lib v.slot s.peer_id plaintext ≡ ok pkt
      → decrypt lib now pkt c
        ≡ (ok plaintext, receiver_after now c v.idx v.peer v.slot.data_pid_out)
  decrypt-sealed now s c v plaintext pkt h =
      let (dp, parsed, key, peer, pid, opened, len) =
        seal_packet-opens laws v.slot s.peer_id plaintext pkt v.fits v.peer_fits h in
      let here : IsFor lib c pkt dp v.idx v.peer = record {
        parsed = parsed;
        found = ap (slot_by_key_id c) key ∙ v.found;
        stands = v.stands;
      } in
      let opens : open_wire lib v.peer.cipher dp.packet_id (take 8 pkt) dp.ciphertext
          ≡ ok plaintext =
        ap (λ k. open_wire lib k dp.packet_id (take 8 pkt) dp.ciphertext) v.mirrored ∙ opened in
      let fresh : (check_and_set v.peer.replay v.slot.data_pid_out).1 ≡ true =
        (check_and_set-above v.peer.replay v.slot.data_pid_out v.behind).0 in
      decrypt-open_with lib now c pkt dp v.idx v.peer here
      ∙ ap (λ r. finish lib now (r.0, set_slot c v.idx (some r.1)))
          (open_with_good lib v.peer (take 8 pkt) dp plaintext opens)
      ∙ ap
          (λ p. finish lib now (
            if (check_and_set v.peer.replay p).1 then ok plaintext else err replay_rejected,
            set_slot c v.idx (some (record v.peer { replay = (check_and_set v.peer.replay p).0 })),
          ))
          pid
      ∙ ap
          (λ (b : Bool). finish lib now (
            if b then ok plaintext else err replay_rejected,
            set_slot c v.idx (
                some
                  (record v.peer { replay = (check_and_set v.peer.replay v.slot.data_pid_out).0 })),
          ))
          fresh

  -- The pair after one packet.
  paired_after :
      (now : ℕ) (s c : Session Conn) (v : Paired s c)
      → v.slot.data_pid_out + 1 < 2 ^ 32
      → (decrypt_later : (key_id : ℕ)
          → slot_by_key_id (receiver_after now c v.idx v.peer v.slot.data_pid_out) key_id
            ≡ slot_by_key_id c key_id)
      → Paired (sender_after s v.slot) (receiver_after now c v.idx v.peer v.slot.data_pid_out)
  paired_after now s c v bound same =
      let pid : ℕ = v.slot.data_pid_out in
      let w : (pid + 1) % 2 ^ 32 ≡ pid + 1 = mod-eq_of_lt bound in
      let next : KeySlot = record v.slot { data_pid_out = (pid + 1) % 2 ^ 32 } in
      let after : KeySlot = record v.peer { replay = (check_and_set v.peer.replay pid).0 } in
      let top : (check_and_set v.peer.replay pid).0.highest ≡ pid =
        (check_and_set-above v.peer.replay pid v.behind).1 in
      record {
        slot = next;
        peer = after;
        idx = v.idx;
        sends = active_slot-set_slot s s.active_slot_idx (some next) refl;
        fits = (v.fits.0, omega arith);
        peer_fits =
            subst (λ n. n < 2 ^ 24) (sym (peer_id-set_slot s s.active_slot_idx (some next)))
              v.peer_fits;
        found = same v.slot.key_id ∙ v.found;
        stands =
            slot_at_clock now (set_slot c v.idx (some after)) v.idx
            ∙ slot_at-set_slot lib c v.idx (some after);
        mirrored = v.mirrored;
        behind = omega (arith, w, top);
      }

  transfer_step :
      (now : ℕ) (s c : Session Conn) (v : Paired s c) (plaintext pkt : List ℕ)
      (more : List (List ℕ))
      → seal_packet lib v.slot s.peer_id plaintext ≡ ok pkt
      → transfer lib now s c (plaintext ∷ more)
        ≡ ok plaintext
          ∷ transfer lib now
              (sender_after s v.slot)
              (receiver_after now c v.idx v.peer v.slot.data_pid_out)
              more
  transfer_step now s c v plaintext pkt more h =
      ap
        (λ (b : Session Conn × Result (List ℕ)).
          (receive_built lib now c b.1).0
          ∷ transfer lib now b.0 (receive_built lib now c b.1).1 more)
        (build_lem s v.slot plaintext v.sends ∙ ap (λ r. (sender_after s v.slot, r)) h)
      ∙ ap
          (λ (r : Result (List ℕ) × Session Conn).
            r.0 ∷ transfer lib now (sender_after s v.slot) r.1 more)
          (decrypt-sealed now s c v plaintext pkt h)

  -- Between paired sessions every packet arrives: the plaintexts that one end builds packets from,
  -- sent in order, are delivered by the other end unchanged and in that order, none refused as a
  -- replay, up to the wrap-around of the 32-bit packet id. The cipher seals every message.
  pub transfer-ok :
      (now : ℕ) (s c : Session Conn) (plaintexts : List (List ℕ)) (v : Paired s c)
      → ((key nonce aad msg : List ℕ)
          → (ct : List ℕ) × (lib.gcm_encrypt key nonce aad msg ≡ some ct))
      → v.slot.data_pid_out + length plaintexts < 2 ^ 32
      → transfer lib now s c plaintexts ≡ map ok plaintexts
  unfolding paired_after
  transfer-ok now s c [] v total bound = refl
  transfer-ok now s c (plaintext ∷ more) v total bound =
      let (pkt, built) = seal_packet_total lib v.slot s.peer_id plaintext total in
      let c1 : Session Conn = receiver_after now c v.idx v.peer v.slot.data_pid_out in
      let same : (key_id : ℕ) → slot_by_key_id c1 key_id ≡ slot_by_key_id c key_id = λ key_id.
        sym (ap (λ r. slot_by_key_id r.1 key_id) (decrypt-sealed now s c v plaintext pkt built))
        ∙ slot_by_key_id-Later c (decrypt lib now pkt c).1 key_id (decrypt-Later lib now pkt c) in
      let w : (v.slot.data_pid_out + 1) % 2 ^ 32 ≡ v.slot.data_pid_out + 1 =
        mod-eq_of_lt (omega arith) in
      transfer_step now s c v plaintext pkt more built
      ∙ ap (◌∷◌ (ok plaintext)) (
          transfer-ok now (sender_after s v.slot) c1 more
            (paired_after now s c v (omega arith) same) total (omega (arith, w)))
