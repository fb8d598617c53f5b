-- ===== src/TlsAuth/Envelope.antt =====
-- src/tls_auth.rs: `unwrap` against `wrap` under the mirrored key.
use just_another_vpn_server.Prelude.{
  ℕ, ◌+◌, ◌≤◌, ◌≡◌, refl, sym, ap, ◌∙◌, List, ◌∷◌, ◌++◌, length, take, drop, get_or, not, ltb, ok,
  ◌>>=◌, arith, All, length-append, length-take, length-drop, take-append, drop-append,
  drop-append_past, cons_field, drop_field, le→ltb_false, ltb_false→le, bail_if-eq-ok, ok-injective,
  list_beq→eq, list_beq_self, All-take, All-drop, false, subst,
}
use just_another_vpn_server.Prelude.Bytes.{
  to_be, from_be, from_be-to_be, to_be-from_be, length-to_be, IsU32, IsByte,
}
use just_another_vpn_server.Primitives.{Primitives, IsPrimitives}
use just_another_vpn_server.TlsAuth.{TlsAuthKey, compose_hmac_input, compute_hmac, wrap, unwrap}

-- The fields of an envelope in the order of the wire.
packet : ℕ → List ℕ → List ℕ → ℕ → ℕ → List ℕ → List ℕ
packet op sid mac pid ts body = op ∷ (sid ++ (mac ++ (to_be 4 pid ++ (to_be 4 ts ++ body))))

module _ (op : ℕ) (sid mac : List ℕ) (pid ts : ℕ) (body : List ℕ) (l8 : length sid ≡ 8)
    (l32 : length mac ≡ 32) where
  packet_long : 49 ≤ length (packet op sid mac pid ts body)
  unfolding packet
  packet_long =
      let r2 : List ℕ = to_be 4 ts ++ body in
      let r1 : List ℕ = to_be 4 pid ++ r2 in
      omega (
        arith,
        length-append sid (mac ++ r1),
        length-append mac r1,
        length-append (to_be 4 pid) r2,
        length-append (to_be 4 ts) body,
        length-to_be 4 pid,
        length-to_be 4 ts,
        l8,
        l32,
      )

  packet_op : get_or (packet op sid mac pid ts body) 0 0 ≡ op
  unfolding packet
  packet_op = refl

  packet_fields :
      let pkt = packet op sid mac pid ts body in
      (take 8 (drop 1 pkt) ≡ sid)
      × (take 32 (drop 9 pkt) ≡ mac)
      × (take 4 (drop 41 pkt) ≡ to_be 4 pid)
      × (take 4 (drop 45 pkt) ≡ to_be 4 ts)
      × (drop 49 pkt ≡ body)
  unfolding packet
  packet_fields =
      let r2 : List ℕ = to_be 4 ts ++ body in
      let r1 : List ℕ = to_be 4 pid ++ r2 in
      let r0 : List ℕ = mac ++ r1 in
      let p4 : length (to_be 4 pid) ≡ 4 = length-to_be 4 pid in
      let t4 : length (to_be 4 ts) ≡ 4 = length-to_be 4 ts in
      let d41 : drop 40 (sid ++ r0) ≡ r1 =
        drop-append_past 40 8 32 sid r0 l8 refl ∙ drop-append 32 mac r1 l32 in
      let d45 : drop 44 (sid ++ r0) ≡ r2 =
        drop-append_past 44 8 36 sid r0 l8 refl
        ∙ drop-append_past 36 32 4 mac r1 l32 refl
        ∙ drop-append 4 (to_be 4 pid) r2 p4 in
      let d49 : drop 48 (sid ++ r0) ≡ body =
        drop-append_past 48 8 40 sid r0 l8 refl
        ∙ drop-append_past 40 32 8 mac r1 l32 refl
        ∙ drop-append_past 8 4 4 (to_be 4 pid) r2 p4 refl
        ∙ drop-append 4 (to_be 4 ts) body t4 in
      (
        take-append 8 sid r0 l8,
        ap (take 32) (drop-append 8 sid r0 l8) ∙ take-append 32 mac r1 l32,
        ap (take 4) d41 ∙ take-append 4 (to_be 4 pid) r2 p4,
        ap (take 4) d45 ∙ take-append 4 (to_be 4 ts) body t4,
        d49,
      )

-- A byte string that is long enough is the packet of its fields.
packet_of_bytes :
    (pkt : List ℕ)
    → 49 ≤ length pkt
    → All IsByte pkt
    → packet
        (get_or pkt 0 0)
        (take 8 (drop 1 pkt))
        (take 32 (drop 9 pkt))
        (from_be (take 4 (drop 41 pkt)))
        (from_be (take 4 (drop 45 pkt)))
        (drop 49 pkt)
      ≡ pkt
unfolding packet
packet_of_bytes pkt h bytes =
    let same : (k : ℕ)
        → k + 4 ≤ length pkt
        → to_be 4 (from_be (take 4 (drop k pkt))) ≡ take 4 (drop k pkt) =
      λ k hk.
        (to_be-from_be 4 (take 4 (drop k pkt))
          (omega (arith, length-take 4 (drop k pkt), length-drop k pkt))
          (All-take IsByte 4 (drop k pkt) (All-drop IsByte k pkt bytes))).0 in
    rw (same 41 (omega arith), same 45 (omega arith))
      (sym (
        cons_field 0 pkt (omega arith)
        ∙ ap (◌∷◌ (get_or pkt 0 0)) (
            drop_field 9 1 8 pkt refl
            ∙ ap (◌++◌ (take 8 (drop 1 pkt))) (
                drop_field 41 9 32 pkt refl
                ∙ ap (◌++◌ (take 32 (drop 9 pkt))) (
                    drop_field 45 41 4 pkt refl
                    ∙ ap (◌++◌ (take 4 (drop 41 pkt))) (drop_field 49 45 4 pkt refl))))))

-- The same for the inner packet.
inner_of_fields :
    (inner : List ℕ)
    → 9 ≤ length inner
    → inner ≡ get_or inner 0 0 ∷ (take 8 (drop 1 inner) ++ drop 9 inner)
inner_of_fields inner h =
    cons_field 0 inner (omega arith) ∙ ap (◌∷◌ (get_or inner 0 0)) (drop_field 9 1 8 inner refl)

-- The keys of the other end.
unfoldable pub mirror : TlsAuthKey → TlsAuthKey
mirror k = record { out_key = k.in_key; in_key = k.out_key }

module _ {lib : Primitives} (laws : IsPrimitives lib) where
  wrap-packet :
      (self : TlsAuthKey) (op : ℕ) (sid body : List ℕ) (pid ts : ℕ)
      → length sid ≡ 8
      → wrap lib self (op ∷ (sid ++ body)) pid ts
        ≡ ok (packet op sid (compute_hmac lib self.out_key op sid pid ts body) pid ts body)
  unfolding wrap packet
  wrap-packet self op sid body pid ts l8 =
      let long : ltb (length (op ∷ (sid ++ body))) 9 ≡ false =
        le→ltb_false _ _ (omega (arith, length-append sid body, l8)) in
      rw (long, take-append 8 sid body l8, drop-append 8 sid body l8)

  unwrap-packet :
      (self : TlsAuthKey) (op : ℕ) (sid mac body : List ℕ) (pid ts : ℕ)
      → length sid ≡ 8
      → mac ≡ compute_hmac lib self.in_key op sid pid ts body
      → IsU32 pid
      → IsU32 ts
      → unwrap lib self (packet op sid mac pid ts body) ≡ ok (op ∷ (sid ++ body), pid)
  unfolding unwrap compute_hmac
  unwrap-packet self op sid mac body pid ts l8 e hp ht =
      let l32 : length mac ≡ 32 = rw e (laws.length-hmac_sha256 _ _) in
      let (f1, f2, f3, f4, f5) = packet_fields op sid mac pid ts body l8 l32 in
      rw (
        le→ltb_false _ _ (packet_long op sid mac pid ts body l8 l32),
        packet_op op sid mac pid ts body l8 l32,
        f1,
        f2,
        f3,
        f4,
        f5,
        from_be-to_be 4 pid hp,
        from_be-to_be 4 ts ht,
        laws.verify_eq self.in_key (compose_hmac_input op sid pid ts body) mac,
        e,
        list_beq_self (lib.hmac_sha256 self.in_key (compose_hmac_input op sid pid ts body)),
      )

  -- What one end wraps the other end unwraps, with the replay id it was sent under. The
  -- inner packet has at least nine bytes, the replay id and the time stamp have 32 bits.
  pub unwrap-wrap_auth :
      (self : TlsAuthKey) (inner : List ℕ) (pid ts : ℕ)
      → 9 ≤ length inner
      → IsU32 pid
      → IsU32 ts
      → (wrap lib self inner pid ts >>= unwrap lib (mirror self)) ≡ ok (inner, pid)
  unfolding mirror
  unwrap-wrap_auth self inner pid ts h hp ht =
      let op : ℕ = get_or inner 0 0 in
      let sid : List ℕ = take 8 (drop 1 inner) in
      let body : List ℕ = drop 9 inner in
      let l8 : length sid ≡ 8 = omega (arith, length-take 8 (drop 1 inner), length-drop 1 inner) in
      let split : inner ≡ op ∷ (sid ++ body) = inner_of_fields inner h in
      subst (λ i. (wrap lib self i pid ts >>= unwrap lib (mirror self)) ≡ ok (i, pid)) (sym split)
        (rw (wrap-packet self op sid body pid ts l8)
          (unwrap-packet (mirror self) op sid _ body pid ts l8 refl hp ht))

  -- `unwrap` accepts only what the other end's `wrap` makes of the same inner packet, replay id and
  -- some time stamp. The packet is a string of bytes.
  pub wrap-unwrap_auth :
      (self : TlsAuthKey) (pkt inner : List ℕ) (pid : ℕ)
      → All IsByte pkt
      → unwrap lib self pkt ≡ ok (inner, pid)
      → IsU32 pid × ((ts : ℕ) × IsU32 ts × (wrap lib (mirror self) inner pid ts ≡ ok pkt))
  unfolding unwrap mirror compute_hmac
  wrap-unwrap_auth self pkt inner pid bytes h =
      let sid : List ℕ = take 8 (drop 1 pkt) in
      let recv : List ℕ = take 32 (drop 9 pkt) in
      let p : ℕ = from_be (take 4 (drop 41 pkt)) in
      let ts : ℕ = from_be (take 4 (drop 45 pkt)) in
      let body : List ℕ = drop 49 pkt in
      let input : List ℕ = compose_hmac_input (get_or pkt 0 0) sid p ts body in
      let (short, h1) = bail_if-eq-ok (ltb (length pkt) 49) _ _ h in
      let (sound, h2) = bail_if-eq-ok (not (lib.verify self.in_key input recv)) _ _ h1 in
      let long : 49 ≤ length pkt = ltb_false→le _ _ short in
      let good : lib.hmac_sha256 self.in_key input ≡ recv =
        list_beq→eq _ _ (ground (arith, laws.verify_eq self.in_key input recv)) in
      let l8 : length sid ≡ 8 = omega (arith, length-take 8 (drop 1 pkt), length-drop 1 pkt) in
      let small : (k : ℕ) → k + 4 ≤ length pkt → IsU32 (from_be (take 4 (drop k pkt))) = λ k hk.
        (to_be-from_be 4 (take 4 (drop k pkt))
          (omega (arith, length-take 4 (drop k pkt), length-drop k pkt))
          (All-take IsByte 4 (drop k pkt) (All-drop IsByte k pkt bytes))).1 in
      subst
        (λ (r : List ℕ × ℕ).
          IsU32 r.1 × ((t : ℕ) × IsU32 t × (wrap lib (mirror self) r.0 r.1 t ≡ ok pkt)))
        (ok-injective h2)
        (
          small 41 (omega arith),
          (
            ts,
            small 45 (omega arith),
            wrap-packet (mirror self) (get_or pkt 0 0) sid body p ts l8
                ∙ rw good (ap ok (packet_of_bytes pkt long bytes)),
          ),
        )
