-- ===== src/Server/Framing.antt =====
-- src/server.rs: what the reader of a TCP stream makes of what a writer task puts on it.
use just_another_vpn_server.Prelude.{
  ℕ, zero, suc, ◌+◌, ◌%◌, ◌^◌, ◌≤◌, ◌<◌, ◌≡◌, ◌⊎◌, refl, ap, ◌∙◌, subst, inl, inr, Bool, true,
  false, List, [], ◌∷◌, ◌++◌, take, drop, length, ltb, ◌==◌, if◌then◌else◌, is_empty, arith,
  length-append, length-drop, take-append, drop-append, le→ltb_false, lt→ltb, ltb_false→le,
  Bool-cases,
}
use native.Mathlib.Nat.{mod-eq_of_lt, le_refl}
use mathlib.Core.List.{append_assoc}
use just_another_vpn_server.Prelude.Bytes.{to_be, from_be, from_be-to_be, length-to_be}
use just_another_vpn_server.Prelude.Maps.{lookup}
use just_another_vpn_server.Session.{tcp}
use just_another_vpn_server.Server.{Env, VpnServer}
use just_another_vpn_server.Server.Dispatch.{receive_over}
use just_another_vpn_server.Server.Stream.{
  framed, write_queue, read_loop, run_tcp_stream, close_session,
}

-- The beginning of a frame that the stream breaks off in, or nothing.
abbrev pub IsCut : List ℕ → Type 0
IsCut cut = (length cut < 2) ⊎ ((2 ≤ length cut) × (length cut < 2 + from_be (take 2 cut)))

module _ {Conn : Type 0} (env : Env Conn) where
  -- The packets of a queue handled one by one, like datagrams: one that is too long was not sent, one
  -- that is empty is skipped, and nothing comes after a failed write.
  unfoldable pub handle_queue :
      (List ℕ → Bool) → ℕ → List (List ℕ) → VpnServer Conn → VpnServer Conn
  handle_queue accepts peer [] self = self
  handle_queue accepts peer (p ∷ ps) self =
      let rest = handle_queue accepts peer ps in
      if ltb 65535 (length p)
      then rest self
      else if accepts (framed p)
      then (if is_empty p then rest self else rest (receive_over env peer (tcp peer) p self))
      else self

  read_loop-cut :
      (fuel peer : ℕ) (cut : List ℕ) (self : VpnServer Conn)
      → IsCut cut
      → read_loop env fuel peer cut self ≡ self
  unfolding read_loop
  read_loop-cut zero peer cut self h = refl
  read_loop-cut (suc fuel) peer cut self (inl short) = rw (lt→ltb (length cut) 2 short) refl
  read_loop-cut (suc fuel) peer cut self (inr (long, missing)) =
      let whole : ltb (length cut) 2 ≡ false = le→ltb_false (length cut) 2 long in
      let some_left : (from_be (take 2 cut) == 0) ≡ false = ground (arith, long, missing) in
      let too_few : ltb (length (drop 2 cut)) (from_be (take 2 cut)) ≡ true =
        lt→ltb _ _ (omega (arith, length-drop 2 cut)) in
      rw (whole, some_left, too_few) refl

  -- One turn of the loop at a frame.
  read_loop-framed :
      (fuel peer c : ℕ) (p tail : List ℕ) (self : VpnServer Conn)
      → length (c ∷ p) ≤ 65535
      → read_loop env (suc fuel) peer (framed (c ∷ p) ++ tail) self
        ≡ read_loop env fuel peer tail (receive_over env peer (tcp peer) (c ∷ p) self)
  unfolding read_loop framed
  read_loop-framed fuel peer c p tail self h =
      let pkt : List ℕ = c ∷ p in
      let n : ℕ = length pkt in
      let small : n % 2 ^ 16 ≡ n = mod-eq_of_lt (omega arith) in
      let head : List ℕ = to_be 2 n in
      let two : length head ≡ 2 = length-to_be 2 n in
      let bytes : List ℕ = head ++ (pkt ++ tail) in
      let shape : (to_be 2 (n % 2 ^ 16) ++ pkt) ++ tail ≡ bytes =
        append_assoc (to_be 2 (n % 2 ^ 16)) pkt tail ∙ ap (λ k. to_be 2 k ++ (pkt ++ tail)) small in
      let size : length bytes ≡ 2 + (n + length tail) =
        omega (arith, length-append head (pkt ++ tail), length-append pkt tail, two) in
      let len : from_be (take 2 bytes) ≡ n =
        ap from_be (take-append 2 head (pkt ++ tail) two) ∙ from_be-to_be 2 n (omega arith) in
      let rest : drop 2 bytes ≡ pkt ++ tail = drop-append 2 head (pkt ++ tail) two in
      let whole : ltb (length bytes) 2 ≡ false = le→ltb_false _ _ (omega (arith, size)) in
      let some_left : (n == 0) ≡ false = ground arith in
      let enough : ltb (length (pkt ++ tail)) n ≡ false =
        le→ltb_false _ _ (omega (arith, length-append pkt tail)) in
      ap (λ b. read_loop env (suc fuel) peer b self) shape
      ∙ rw
          (
            whole,
            len,
            rest,
            some_left,
            enough,
            take-append n pkt tail refl,
            drop-append n pkt tail refl,
          )
          refl

  read_loop-framed_empty :
      (fuel peer : ℕ) (tail : List ℕ) (self : VpnServer Conn)
      → read_loop env (suc fuel) peer (framed [] ++ tail) self ≡ read_loop env fuel peer tail self
  unfolding read_loop framed to_be from_be
  read_loop-framed_empty fuel peer tail self =
      ap (λ short. if short then self else read_loop env fuel peer tail self)
        (le→ltb_false (suc (suc (length tail))) 2 (omega arith))

  length-framed : (p : List ℕ) → length (framed p) ≡ 2 + length p
  unfolding framed
  length-framed p =
      omega
        (arith, length-append (to_be 2 (length p % 2 ^ 16)) p, length-to_be 2 (length p % 2 ^ 16))

  -- Fuel that is enough for a frame and what follows it has a turn for the frame.
  fuel_left :
      (fuel : ℕ) (p tail : List ℕ)
      → length (framed p ++ tail) ≤ fuel
      → (less : ℕ) × (fuel ≡ suc less) × (length tail ≤ less)
  fuel_left zero p tail h = absurd (omega (arith, length-append (framed p) tail, length-framed p))
  fuel_left (suc less) p tail h =
      (less, refl, omega (arith, length-append (framed p) tail, length-framed p))

  -- One turn at a frame, whatever its packet, and the rest of the stream as the hypothesis has it.
  read_turn :
      (peer : ℕ) (tail : List ℕ) (rest : VpnServer Conn → VpnServer Conn) (self : VpnServer Conn)
      (p : List ℕ) (less : ℕ)
      → length p ≤ 65535
      → ((state : VpnServer Conn) → read_loop env less peer tail state ≡ rest state)
      → read_loop env (suc less) peer (framed p ++ tail) self
        ≡ (if is_empty p then rest self else rest (receive_over env peer (tcp peer) p self))
  read_turn peer tail rest self [] less h go = read_loop-framed_empty less peer tail self ∙ go self
  read_turn peer tail rest self (c ∷ p) less h go =
      read_loop-framed less peer c p tail self h
      ∙ go (receive_over env peer (tcp peer) (c ∷ p) self)

  read_loop-write_queue :
      (accepts : List ℕ → Bool) (fuel peer : ℕ) (ps : List (List ℕ)) (cut : List ℕ)
      (self : VpnServer Conn)
      → IsCut cut
      → length (write_queue accepts ps ++ cut) ≤ fuel
      → read_loop env fuel peer (write_queue accepts ps ++ cut) self
        ≡ handle_queue accepts peer ps self
  unfolding write_queue handle_queue
  read_loop-write_queue accepts fuel peer [] cut self hc h = read_loop-cut fuel peer cut self hc
  read_loop-write_queue accepts fuel peer (p ∷ ps) cut self hc h =
      elim (Bool-cases (ltb 65535 (length p))) [
        | inl long ↦
            let h' : length (write_queue accepts ps ++ cut) ≤ fuel = rw long at h in
            rw long (read_loop-write_queue accepts fuel peer ps cut self hc h')
        | inr fits ↦ elim (Bool-cases (accepts (framed p))) [
          | inr refused ↦ rw (fits, refused) (read_loop-cut fuel peer cut self hc)
          | inl taken ↦
              let rest : List ℕ = write_queue accepts ps ++ cut in
              let h' : length ((framed p ++ write_queue accepts ps) ++ cut) ≤ fuel =
                rw (fits, taken) at h in
              let assoc : (framed p ++ write_queue accepts ps) ++ cut ≡ framed p ++ rest =
                append_assoc (framed p) (write_queue accepts ps) cut in
              let (less, e, enough) =
                fuel_left fuel p rest (subst (λ b. length b ≤ fuel) assoc h') in
              rw (fits, taken, assoc, e)
                (read_turn peer rest (handle_queue accepts peer ps) self p less
                  (ltb_false→le 65535 (length p) fits)
                  (λ state. read_loop-write_queue accepts less peer ps cut state hc enough))
        ]
      ]

  -- A TCP stream is handled like datagrams. Whatever packets are put on the stream in the server's
  -- own framing, by a writer that stops at the first write that fails, and wherever in a frame the
  -- stream breaks off: the reader handles exactly the packets before that, one by one and in order,
  -- without those that are empty or longer than 65535 bytes, and then evicts the peer's session.
  pub run_tcp_stream-write_queue :
      (accepts : List ℕ → Bool) (peer : ℕ) (ps : List (List ℕ)) (cut : List ℕ)
      (self : VpnServer Conn)
      → IsCut cut
      → run_tcp_stream env peer (write_queue accepts ps ++ cut) self
        ≡ close_session peer
            (lookup (handle_queue accepts peer ps self).sessions peer)
            (handle_queue accepts peer ps self)
  unfolding run_tcp_stream
  run_tcp_stream-write_queue accepts peer ps cut self hc =
      ap (λ (s : VpnServer Conn). close_session peer (lookup s.sessions peer) s)
        (read_loop-write_queue accepts (length (write_queue accepts ps ++ cut)) peer ps cut self hc
          (le_refl (length (write_queue accepts ps ++ cut))))
