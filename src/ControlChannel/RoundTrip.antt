-- ===== src/ControlChannel/RoundTrip.antt =====
-- src/control_channel.rs: a client's key-method-2 message, laid out as OpenVPN's `ssl.c` does, and
-- `try_parse`.
use just_another_vpn_server.Prelude.{
  ℕ, ◌+◌, ◌<◌, ◌≡◌, refl, sym, ap, ◌∙◌, List, [], ◌∷◌, ◌++◌, some, length, take, drop, ok, arith,
  length-append, take-append, drop-append, drop-append_past, le→ltb_false, take_all, get_or,
}
use mathlib.Core.List.{append_assoc}
use just_another_vpn_server.Primitives.{Primitives}
use just_another_vpn_server.ControlChannel.{
  read_lp_string, parse_strings, try_parse, ready, ClientKeyMethod2, key_method_2,
}
use just_another_vpn_server.ControlChannel.Strings.{
  slice-append, lp_bytes, length-lp_bytes, read_lp_string-lp_bytes,
}

-- What a client may send: the randoms have their sizes, and a string is text of less than 65535
-- bytes, which the lossy decoding leaves as it is.
pub record IsMessage (lib : Primitives) (km : ClientKeyMethod2) : Type 0 where
  pub pre_master_size : length km.pre_master ≡ 48
  pub random1_size : length km.random1 ≡ 32
  pub random2_size : length km.random2 ≡ 32
  pub options_text : (length km.options < 65535) × (lib.from_utf8_lossy km.options ≡ km.options)
  pub username_text : (length km.username < 65535) × (lib.from_utf8_lossy km.username ≡ km.username)
  pub password_text : (length km.password < 65535) × (lib.from_utf8_lossy km.password ≡ km.password)
  pub peer_info_text :
      (length km.peer_info < 65535) × (lib.from_utf8_lossy km.peer_info ≡ km.peer_info)

unfoldable pub fixed_part : ClientKeyMethod2 → List ℕ
fixed_part km = 0 ∷ 0 ∷ 0 ∷ 0 ∷ key_method_2 ∷ (km.pre_master ++ (km.random1 ++ km.random2))

unfoldable pub string_part : ClientKeyMethod2 → List ℕ → List ℕ
string_part km rest =
    lp_bytes km.options
    ++ (lp_bytes km.username ++ (lp_bytes km.password ++ (lp_bytes km.peer_info ++ rest)))

-- The message with `rest` behind it.
unfoldable pub client_message : ClientKeyMethod2 → List ℕ → List ℕ
client_message km rest = fixed_part km ++ string_part km rest

-- The size of the message.
abbrev pub message_size : ClientKeyMethod2 → ℕ
message_size km =
    129 + length km.options + length km.username + length km.password + length km.peer_info

module _ (lib : Primitives) where
  read_at :
      (buf front s rest : List ℕ) (off end : ℕ)
      → buf ≡ front ++ (lp_bytes s ++ rest)
      → length front ≡ off
      → end ≡ off + length s + 3
      → (length s < 65535) × (lib.from_utf8_lossy s ≡ s)
      → (read_lp_string lib buf off ≡ some (s, end)) × (length (front ++ lp_bytes s) ≡ end)
  read_at buf front s rest off end e l size text =
      let same : length front + 2 + (length s + 1) ≡ end = omega arith in
      (
        rw (e, ← l) (read_lp_string-lp_bytes lib front s rest text.0 text.1 ∙ rw same refl),
        omega (arith, length-append front (lp_bytes s), length-lp_bytes s),
      )

  -- The four strings behind a front of 117 bytes.
  strings :
      (front : List ℕ) (km : ClientKeyMethod2) (rest : List ℕ)
      → length front ≡ 117
      → IsMessage lib km
      → parse_strings lib (front ++ string_part km rest) km.pre_master km.random1 km.random2
        ≡ ok (ready km (message_size km))
  unfolding parse_strings string_part
  strings front km rest l v =
      let o : List ℕ = lp_bytes km.options in
      let u : List ℕ = lp_bytes km.username in
      let p : List ℕ = lp_bytes km.password in
      let r3 : List ℕ = lp_bytes km.peer_info ++ rest in
      let r2 : List ℕ = p ++ r3 in
      let r1 : List ℕ = u ++ r2 in
      let buf : List ℕ = front ++ (o ++ r1) in
      let e1 : buf ≡ (front ++ o) ++ r1 = sym (append_assoc front o r1) in
      let e2 : buf ≡ ((front ++ o) ++ u) ++ r2 = e1 ∙ sym (append_assoc (front ++ o) u r2) in
      let e3 : buf ≡ (((front ++ o) ++ u) ++ p) ++ r3 =
        e2 ∙ sym (append_assoc ((front ++ o) ++ u) p r3) in
      let n1 : ℕ = 117 + length km.options + 3 in
      let n2 : ℕ = n1 + length km.username + 3 in
      let n3 : ℕ = n2 + length km.password + 3 in
      let (a, la) = read_at buf front km.options r1 117 n1 refl l refl v.options_text in
      let (b, lb) = read_at buf (front ++ o) km.username r2 n1 n2 e1 la refl v.username_text in
      let (c, lc) =
        read_at buf ((front ++ o) ++ u) km.password r3 n2 n3 e2 lb refl v.password_text in
      let (d, ld) =
        read_at buf (((front ++ o) ++ u) ++ p) km.peer_info rest n3 (message_size km) e3 lc
          (omega arith) v.peer_info_text in
      rw (a, b, c, d) refl

  length-fixed_part : (km : ClientKeyMethod2) → IsMessage lib km → length (fixed_part km) ≡ 117
  unfolding fixed_part
  length-fixed_part km v = omega (
    arith,
    length-append km.pre_master (km.random1 ++ km.random2),
    length-append km.random1 km.random2,
    v.pre_master_size,
    v.random1_size,
    v.random2_size,
  )

  fixed_fields :
      (km : ClientKeyMethod2)
      → IsMessage lib km
      → (take 48 (drop 5 (fixed_part km)) ≡ km.pre_master)
        × (take 32 (drop 53 (fixed_part km)) ≡ km.random1)
        × (take 32 (drop 85 (fixed_part km)) ≡ km.random2)
  unfolding fixed_part
  fixed_fields km v =
      let pre : List ℕ = km.pre_master in
      let r : List ℕ = km.random1 ++ km.random2 in
      (
        take-append 48 pre r v.pre_master_size,
        ap (take 32) (drop-append 48 pre r v.pre_master_size)
            ∙ take-append 32 km.random1 km.random2 v.random1_size,
        ap (take 32) (
              drop-append_past 80 48 32 pre r v.pre_master_size refl
              ∙ drop-append 32 km.random1 km.random2 v.random1_size)
            ∙ take_all 32 km.random2 (omega (arith, v.random2_size)),
      )

  fixed_head :
      (km : ClientKeyMethod2) (t : List ℕ)
      → (take 4 (fixed_part km ++ t) ≡ 0 ∷ 0 ∷ 0 ∷ 0 ∷ [])
        × (get_or (fixed_part km ++ t) 4 0 ≡ key_method_2)
  unfolding fixed_part
  fixed_head km t = (refl, refl)

  -- A message of a client is read back whole, whatever bytes follow it, and the parser consumes
  -- exactly the message.
  pub try_parse-client_message :
      (km : ClientKeyMethod2) (rest : List ℕ)
      → IsMessage lib km
      → try_parse lib (client_message km rest) ≡ ok (ready km (message_size km))
  unfolding try_parse client_message
  try_parse-client_message km rest v =
      let front : List ℕ = fixed_part km in
      let tail : List ℕ = string_part km rest in
      let l : length front ≡ 117 = length-fixed_part km v in
      let (f1, f2, f3) = fixed_fields km v in
      let (zeros, method) = fixed_head km tail in
      rw
        (
          le→ltb_false (length (front ++ tail)) 117 (omega (arith, length-append front tail)),
          zeros,
          method,
          slice-append 5 48 front tail (omega arith),
          slice-append 53 32 front tail (omega arith),
          slice-append 85 32 front tail (omega arith),
          f1,
          f2,
          f3,
        )
        (strings front km rest l v)

  -- What follows the message.
  pub drop-client_message :
      (km : ClientKeyMethod2) (rest : List ℕ)
      → IsMessage lib km
      → drop (message_size km) (client_message km rest) ≡ rest
  unfolding client_message string_part
  drop-client_message km rest v =
      let f : List ℕ = fixed_part km in
      let o : List ℕ = lp_bytes km.options in
      let u : List ℕ = lp_bytes km.username in
      let p : List ℕ = lp_bytes km.password in
      let i : List ℕ = lp_bytes km.peer_info in
      let front : List ℕ = f ++ (o ++ (u ++ (p ++ i))) in
      let split : client_message km rest ≡ front ++ rest =
        rw
          (
            append_assoc f (o ++ (u ++ (p ++ i))) rest,
            append_assoc o (u ++ (p ++ i)) rest,
            append_assoc u (p ++ i) rest,
            append_assoc p i rest,
          )
          refl in
      let size : length front ≡ message_size km = omega (
        arith,
        length-fixed_part km v,
        length-append f (o ++ (u ++ (p ++ i))),
        length-append o (u ++ (p ++ i)),
        length-append u (p ++ i),
        length-append p i,
        length-lp_bytes km.options,
        length-lp_bytes km.username,
        length-lp_bytes km.password,
        length-lp_bytes km.peer_info,
      ) in
      ap (drop (message_size km)) split ∙ drop-append (message_size km) front rest size
