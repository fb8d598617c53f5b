-- ===== src/Server/Envelope.antt =====
-- src/server.rs: the control envelope in front of the handlers.
use just_another_vpn_server.Prelude.{
  ℕ, get_or, [], ◌/◌, ◌^◌, ◌≡◌, ◌⊎◌, refl, ap, ◌∙◌, false, List, ◌∷◌, Option, none, some, All, ok,
  err, Error, Result-cases, inl, inr,
}
use just_another_vpn_server.Prelude.Bytes.{IsByte}
use just_another_vpn_server.Primitives.{Primitives, IsPrimitives}
use just_another_vpn_server.Protocol.{OpCode, from_u8, is_data}
use just_another_vpn_server.TlsAuth
use just_another_vpn_server.TlsAuth.{TlsAuthKey}
use just_another_vpn_server.TlsAuth.Envelope.{wrap-unwrap_auth}
use just_another_vpn_server.TlsCrypt
use just_another_vpn_server.TlsCrypt.{TlsCryptKey}
use just_another_vpn_server.TlsCrypt.Envelope.{wrap-unwrap_crypt}
use just_another_vpn_server.Session.{Transport, udp}
use just_another_vpn_server.Server.{Env, VpnServer}
use just_another_vpn_server.Server.Wire.{in_envelope, unwrap_with, unwrap_control}
use just_another_vpn_server.Server.Dispatch.{receive, receive_over, handle_packet, handle_unwrapped}

-- The packet is what a holder of the pre-shared key makes of some control packet.
abbrev pub IsEnveloped : Primitives → Option TlsCryptKey → Option TlsAuthKey → List ℕ → Type 0
IsEnveloped lib (some tc) tls_auth pkt =
    (inner : List ℕ) × (pid : ℕ) × (ts : ℕ) × (TlsCrypt.wrap lib (TlsCrypt.Envelope.mirror tc) inner
        pid ts
      ≡ ok pkt)
IsEnveloped lib none (some ta) pkt =
    (inner : List ℕ) × (pid : ℕ) × (ts : ℕ) × (TlsAuth.wrap lib (TlsAuth.Envelope.mirror ta) inner
        pid ts
      ≡ ok pkt)
IsEnveloped lib none none pkt = Unit

-- The first byte has no opcode of a data packet. An empty packet counts as one with opcode 0, which
-- there is not.
abbrev pub IsNoData : List ℕ → Type 0
IsNoData pkt = (op : OpCode) → from_u8 (get_or pkt 0 0 / 2 ^ 3) ≡ ok op → is_data op ≡ false

module _ {Conn : Type 0} (env : Env Conn) (laws : IsPrimitives env.crypto) where
  -- Either the envelope is refused or it is one that the key's holder made.
  unwrap_with-IsEnveloped :
      (tc : Option TlsCryptKey) (ta : Option TlsAuthKey) (pkt : List ℕ)
      → All IsByte pkt
      → ((e : Error) × (unwrap_with env tc ta pkt ≡ err e)) ⊎ IsEnveloped env.crypto tc ta pkt
  unfolding unwrap_with
  unwrap_with-IsEnveloped (some tc) ta pkt bytes =
      elim (Result-cases (TlsCrypt.unwrap env.crypto tc pkt)) [
        | inr (e, h) ↦ inl (e, ap in_envelope h)
        | inl (r, h) ↦
            let (small, (ts, fits, same)) = wrap-unwrap_crypt laws tc pkt r.0 r.1 bytes h in
            inr (r.0, r.1, ts, same)
      ]
  unwrap_with-IsEnveloped none (some ta) pkt bytes =
      elim (Result-cases (TlsAuth.unwrap env.crypto ta pkt)) [
        | inr (e, h) ↦ inl (e, ap in_envelope h)
        | inl (r, h) ↦
            let (small, (ts, fits, same)) = wrap-unwrap_auth laws ta pkt r.0 r.1 bytes h in
            inr (r.0, r.1, ts, same)
      ]
  unwrap_with-IsEnveloped none none pkt bytes = inr tt

  -- Behind a known opcode that is not one of data packets.
  behind_op :
      (addr : ℕ) (transport : Transport) (pkt : List ℕ) (self : VpnServer Conn) (op : OpCode)
      → All IsByte pkt
      → is_data op ≡ false
      → (handle_packet env addr transport pkt (ok op) self ≡ self)
        ⊎ IsEnveloped env.crypto self.tls_crypt self.tls_auth pkt
  unfolding unwrap_control
  behind_op addr transport pkt self op bytes control =
      let step : handle_packet env addr transport pkt (ok op) self
          ≡ handle_unwrapped env addr transport pkt (unwrap_control env self pkt) self =
        rw control refl in
      elim (unwrap_with-IsEnveloped self.tls_crypt self.tls_auth pkt bytes) [
        | inr good ↦ inr good
        | inl (err_why, h) ↦ inl (step ∙ ap (λ r. handle_unwrapped env addr transport pkt r self) h)
      ]

  -- A packet that is not a data packet changes nothing in the server unless it is, byte for byte,
  -- what a holder of the key makes of some inner packet, over whichever transport it comes.
  pub receive_over-IsEnveloped :
      (addr : ℕ) (transport : Transport) (pkt : List ℕ) (self : VpnServer Conn)
      → All IsByte pkt
      → IsNoData pkt
      → (receive_over env addr transport pkt self ≡ self)
        ⊎ IsEnveloped env.crypto self.tls_crypt self.tls_auth pkt
  unfolding receive_over
  receive_over-IsEnveloped addr transport [] self bytes control = inl refl
  receive_over-IsEnveloped addr transport (first ∷ more) self bytes control =
      let pkt : List ℕ = first ∷ more in
      elim (Result-cases (from_u8 (first / 2 ^ 3))) [
        | inr (e, h) ↦ inl (ap (λ o. handle_packet env addr transport pkt o self) h)
        | inl (op, h) ↦
            let step : receive_over env addr transport pkt self
                ≡ handle_packet env addr transport pkt (ok op) self =
              ap (λ o. handle_packet env addr transport pkt o self) h in
            elim (behind_op addr transport pkt self op bytes (control op h)) [
              | inl same ↦ inl (step ∙ same)
              | inr good ↦ inr good
            ]
      ]

  -- A datagram that is not a data packet, one that is empty or has an unknown opcode included,
  -- changes nothing in the server unless it is, byte for byte, what a holder of the configured
  -- tls-crypt or tls-auth key makes of some inner packet. Without a key this says nothing.
  pub receive-IsEnveloped :
      (addr : ℕ) (pkt : List ℕ) (self : VpnServer Conn)
      → All IsByte pkt
      → IsNoData pkt
      → (receive env addr pkt self ≡ self) ⊎ IsEnveloped env.crypto self.tls_crypt self.tls_auth pkt
  unfolding receive
  receive-IsEnveloped addr pkt self bytes control =
      receive_over-IsEnveloped addr (udp addr) pkt self bytes control
