-- ===== src/TlsCrypt/Envelope.antt =====
-- src/tls_crypt.rs: `unwrap` against `wrap` under the mirrored keys.
use just_another_vpn_server.Prelude.{
  ℕ, ◌≤◌, ◌≡◌, refl, sym, ap, ◌∙◌, subst, false, List, ◌∷◌, ◌++◌, length, take, drop, get_or, not,
  ltb, ok, ◌>>=◌, arith, All, length-append, length-take, length-drop, take-append, drop-append,
  drop-append_past, cons_field, drop_field, le→ltb_false, ltb_false→le, bail_if-eq-ok, ok-injective,
  list_beq→eq, list_beq_self, All-take, All-drop, take-append-drop,
}
use just_another_vpn_server.Prelude.Bytes.{
  to_be, from_be, from_be-to_be, to_be-from_be, length-to_be, IsU32, IsByte,
}
use just_another_vpn_server.Primitives.{Primitives, IsPrimitives}
use just_another_vpn_server.TlsCrypt.{TlsCryptKey, wrap, unwrap}

-- The header of an envelope in the order of the wire.
header : ℕ → List ℕ → ℕ → ℕ → List ℕ
header op sid pid ts = op ∷ (sid ++ (to_be 4 pid ++ to_be 4 ts))

module _ (op : ℕ) (sid : List ℕ) (pid ts : ℕ) (l8 : length sid ≡ 8) where
  length-header : length (header op sid pid ts) ≡ 17
  unfolding header
  length-header = omega (
    arith,
    length-append sid (to_be 4 pid ++ to_be 4 ts),
    length-append (to_be 4 pid) (to_be 4 ts),
    length-to_be 4 pid,
    length-to_be 4 ts,
    l8,
  )

  header_fields :
      (get_or (header op sid pid ts) 0 0 ≡ op)
      × (take 8 (drop 1 (header op sid pid ts)) ≡ sid)
      × (take 4 (drop 9 (header op sid pid ts)) ≡ to_be 4 pid)
  unfolding header
  header_fields =
      let r : List ℕ = to_be 4 pid ++ to_be 4 ts in
      (
        refl,
        take-append 8 sid r l8,
        ap (take 4) (drop-append 8 sid r l8)
            ∙ take-append 4 (to_be 4 pid) (to_be 4 ts) (length-to_be 4 pid),
      )

-- Any 17 bytes are a header.
header_of_bytes :
    (h : List ℕ)
    → length h ≡ 17
    → All IsByte h
    → (header (get_or h 0 0) (take 8 (drop 1 h)) (from_be (take 4 (drop 9 h))) (from_be (drop 13 h))
        ≡ h)
      × IsU32 (from_be (take 4 (drop 9 h)))
      × IsU32 (from_be (drop 13 h))
unfolding header
header_of_bytes h len bytes =
    let (same9, small9) =
      to_be-from_be 4 (take 4 (drop 9 h)) (omega (arith, length-take 4 (drop 9 h), length-drop 9 h))
        (All-take IsByte 4 (drop 9 h) (All-drop IsByte 9 h bytes)) in
    let (same13, small13) =
      to_be-from_be 4 (drop 13 h) (omega (arith, length-drop 13 h)) (All-drop IsByte 13 h bytes) in
    (
      rw (same9, same13)
          (sym (
            cons_field 0 h (omega arith)
            ∙ ap (◌∷◌ (get_or h 0 0)) (
                drop_field 9 1 8 h refl
                ∙ ap (◌++◌ (take 8 (drop 1 h))) (drop_field 13 9 4 h refl)))),
      small9,
      small13,
    )

-- The keys of the other end.
unfoldable pub mirror : TlsCryptKey → TlsCryptKey
mirror k = record {
  enc_cipher_key = k.dec_cipher_key;
  enc_hmac_key = k.dec_hmac_key;
  dec_cipher_key = k.enc_cipher_key;
  dec_hmac_key = k.enc_hmac_key;
}

inner_of_fields :
    (inner : List ℕ)
    → 9 ≤ length inner
    → inner ≡ get_or inner 0 0 ∷ (take 8 (drop 1 inner) ++ drop 9 inner)
inner_of_fields inner h =
    cons_field 0 inner (omega arith) ∙ ap (◌∷◌ (get_or inner 0 0)) (drop_field 9 1 8 inner refl)

module _ {lib : Primitives} (laws : IsPrimitives lib) where
  -- What `wrap` sends for a header and a body.
  sealed : TlsCryptKey → List ℕ → List ℕ → List ℕ
  sealed self hd body =
      let tag = lib.hmac_sha256 self.enc_hmac_key (hd ++ body) in
      hd ++ (tag ++ lib.aes_ctr self.enc_cipher_key (take 16 tag) body)

  wrap-sealed :
      (self : TlsCryptKey) (op : ℕ) (sid body : List ℕ) (pid ts : ℕ)
      → length sid ≡ 8
      → wrap lib self (op ∷ (sid ++ body)) pid ts ≡ ok (sealed self (header op sid pid ts) body)
  unfolding wrap sealed header
  wrap-sealed self op sid body pid ts l8 =
      let long : ltb (length (op ∷ (sid ++ body))) 9 ≡ false =
        le→ltb_false _ _ (omega (arith, length-append sid body, l8)) in
      rw (long, take-append 8 sid body l8, drop-append 8 sid body l8)

  unwrap-sealed :
      (self : TlsCryptKey) (op : ℕ) (sid body : List ℕ) (pid ts : ℕ)
      → length sid ≡ 8
      → IsU32 pid
      → unwrap lib (mirror self) (sealed self (header op sid pid ts) body)
        ≡ ok (op ∷ (sid ++ body), pid)
  unfolding unwrap sealed mirror
  unwrap-sealed self op sid body pid ts l8 hp =
      let hd : List ℕ = header op sid pid ts in
      let l17 : length hd ≡ 17 = length-header op sid pid ts l8 in
      let tag : List ℕ = lib.hmac_sha256 self.enc_hmac_key (hd ++ body) in
      let l32 : length tag ≡ 32 = laws.length-hmac_sha256 self.enc_hmac_key (hd ++ body) in
      let ct : List ℕ = lib.aes_ctr self.enc_cipher_key (take 16 tag) body in
      let (f1, f2, f3) = header_fields op sid pid ts l8 in
      let long : ltb (length (hd ++ (tag ++ ct))) 49 ≡ false =
        le→ltb_false _ _
          (omega (arith, length-append hd (tag ++ ct), length-append tag ct, l17, l32)) in
      let d17 : drop 17 (hd ++ (tag ++ ct)) ≡ tag ++ ct = drop-append 17 hd (tag ++ ct) l17 in
      let d49 : drop 49 (hd ++ (tag ++ ct)) ≡ ct =
        drop-append_past 49 17 32 hd (tag ++ ct) l17 refl ∙ drop-append 32 tag ct l32 in
      rw (
        long,
        take-append 17 hd (tag ++ ct) l17,
        d17,
        d49,
        take-append 32 tag ct l32,
        f1,
        f2,
        f3,
        from_be-to_be 4 pid hp,
        laws.aes_ctr_twice self.enc_cipher_key (take 16 tag) body,
        laws.verify_eq self.enc_hmac_key (hd ++ body) tag,
        list_beq_self tag,
      )

  -- What one end wraps the other end unwraps, with the packet id it was sent under. The
  -- inner packet has at least nine bytes and the packet id has 32 bits.
  pub unwrap-wrap_crypt :
      (self : TlsCryptKey) (inner : List ℕ) (pid ts : ℕ)
      → 9 ≤ length inner
      → IsU32 pid
      → (wrap lib self inner pid ts >>= unwrap lib (mirror self)) ≡ ok (inner, pid)
  unwrap-wrap_crypt self inner pid ts h hp =
      let op : ℕ = get_or inner 0 0 in
      let sid : List ℕ = take 8 (drop 1 inner) in
      let body : List ℕ = drop 9 inner in
      let l8 : length sid ≡ 8 = omega (arith, length-take 8 (drop 1 inner), length-drop 1 inner) in
      let split : inner ≡ op ∷ (sid ++ body) = inner_of_fields inner h in
      subst (λ i. (wrap lib self i pid ts >>= unwrap lib (mirror self)) ≡ ok (i, pid)) (sym split)
        (rw (wrap-sealed self op sid body pid ts l8) (unwrap-sealed self op sid body pid ts l8 hp))

  -- `unwrap` accepts only what the other end's `wrap` makes of the same inner packet, packet id and
  -- some time stamp. The packet is a string of bytes.
  pub wrap-unwrap_crypt :
      (self : TlsCryptKey) (pkt inner : List ℕ) (pid : ℕ)
      → All IsByte pkt
      → unwrap lib self pkt ≡ ok (inner, pid)
      → IsU32 pid × ((ts : ℕ) × IsU32 ts × (wrap lib (mirror self) inner pid ts ≡ ok pkt))
  unfolding unwrap mirror sealed
  wrap-unwrap_crypt self pkt inner pid bytes h =
      let hd : List ℕ = take 17 pkt in
      let tag : List ℕ = take 32 (drop 17 pkt) in
      let ct : List ℕ = drop 49 pkt in
      let plain : List ℕ = lib.aes_ctr self.dec_cipher_key (take 16 tag) ct in
      let (short, h1) = bail_if-eq-ok (ltb (length pkt) 49) _ _ h in
      let (sound, h2) =
        bail_if-eq-ok (not (lib.verify self.dec_hmac_key (hd ++ plain) tag)) _ _ h1 in
      let long : 49 ≤ length pkt = ltb_false→le _ _ short in
      let l17 : length hd ≡ 17 = omega (arith, length-take 17 pkt) in
      let good : lib.hmac_sha256 self.dec_hmac_key (hd ++ plain) ≡ tag =
        list_beq→eq _ _ (ground (arith, laws.verify_eq self.dec_hmac_key (hd ++ plain) tag)) in
      let l8 : length (take 8 (drop 1 hd)) ≡ 8 =
        omega (arith, length-take 8 (drop 1 hd), length-drop 1 hd) in
      let (same, small, small13) = header_of_bytes hd l17 (All-take IsByte 17 pkt bytes) in
      let whole : hd ++ (tag ++ ct) ≡ pkt =
        sym (sym (take-append-drop 17 pkt) ∙ ap (◌++◌ hd) (drop_field 49 17 32 pkt refl)) in
      subst
        (λ (r : List ℕ × ℕ).
          IsU32 r.1 × ((t : ℕ) × IsU32 t × (wrap lib (mirror self) r.0 r.1 t ≡ ok pkt)))
        (ok-injective h2)
        (
          small,
          (
            from_be (drop 13 hd),
            small13,
            wrap-sealed (mirror self) (get_or hd 0 0) (take 8 (drop 1 hd)) plain
                  (from_be (take 4 (drop 9 hd))) (from_be (drop 13 hd)) l8
                ∙ rw (same, good, laws.aes_ctr_twice self.dec_cipher_key (take 16 tag) ct)
                    (ap ok whole),
          ),
        )
