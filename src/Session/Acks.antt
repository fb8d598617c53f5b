-- ===== src/Session/Acks.antt =====
-- Acknowledgements: which sent packets they remove, and which ids are acknowledged to the peer.
use just_another_vpn_server.Prelude.{
  ℕ, ◌≡◌, refl, sym, ap, ◌∙◌, Bool, true, false, not, ◌||◌, List, [], ◌∷◌, ◌++◌, if◌then◌else◌,
  contains, retain, Bool-cases, inl, inr,
}
use mathlib.Core.List.{append_assoc, append-nil}
use just_another_vpn_server.Session.{Session, Unacked}
use just_another_vpn_server.Session.Control.{record_sent, process_acks, note_received}

abbrev unacked_by : List ℕ → Unacked → Bool
unacked_by acks u = not (contains acks u.packet_id)

retain-unacked_by : (us : List Unacked) → retain (unacked_by []) us ≡ us
retain-unacked_by [] = refl
retain-unacked_by (u ∷ us) = ap (◌∷◌ u) (retain-unacked_by us)

-- Whether one of the packets acknowledges the id.
abbrev pub is_acked : List (List ℕ) → ℕ → Bool
is_acked [] packet_id = false
is_acked (acks ∷ more) packet_id = contains acks packet_id || is_acked more packet_id

-- The entries of a queue that no packet acknowledges, in their order.
abbrev pub outstanding : List (List ℕ) → List Unacked → List Unacked
outstanding batches [] = []
outstanding batches (u ∷ us) =
    let rest = outstanding batches us in if is_acked batches u.packet_id then rest else u ∷ rest

outstanding_none : (us : List Unacked) → outstanding [] us ≡ us
outstanding_none [] = refl
outstanding_none (u ∷ us) = ap (◌∷◌ u) (outstanding_none us)

outstanding-retain :
    (acks : List ℕ) (more : List (List ℕ)) (us : List Unacked)
    → outstanding more (retain (unacked_by acks) us) ≡ outstanding (acks ∷ more) us
outstanding-retain acks more [] = refl
outstanding-retain acks more (u ∷ us) =
    let rest : outstanding more (retain (unacked_by acks) us) ≡ outstanding (acks ∷ more) us =
      outstanding-retain acks more us in
    elim (Bool-cases (contains acks u.packet_id)) [
      | inl p ↦ rw p rest
      | inr p ↦ elim (Bool-cases (is_acked more u.packet_id)) [
        | inl q ↦ rw (p, q) rest
        | inr q ↦ rw (p, q) (ap (◌∷◌ u) rest)
      ]
    ]

retain-append :
    {A : Type 0} (p : A → Bool) (us vs : List A) → retain p (us ++ vs) ≡ retain p us ++ retain p vs
retain-append p [] vs = refl
retain-append p (u ∷ us) vs = elim (Bool-cases (p u)) [
  | inl t ↦ rw t (ap (◌∷◌ u) (retain-append p us vs))
  | inr t ↦ rw t (retain-append p us vs)
]

module _ {Conn : Type 0} where
  process_acks_lem :
      (s : Session Conn) (acks : List ℕ)
      → process_acks s acks ≡ record s { unacked = retain (unacked_by acks) s.unacked }
  unfolding process_acks
  process_acks_lem s [] = ap (λ us. record s { unacked = us }) (sym (retain-unacked_by s.unacked))
  process_acks_lem s (a ∷ acks) = refl

  -- A session that receives packets with these acknowledgements.
  abbrev pub acknowledge_all : Session Conn → List (List ℕ) → Session Conn
  acknowledge_all s [] = s
  acknowledge_all s (acks ∷ more) = acknowledge_all (process_acks s acks) more

  -- Whatever acknowledgements arrive, in however many packets: exactly the entries that none of the
  -- packets acknowledges stay in the queue, in their order, and nothing else of the session changes.
  pub acknowledge_all-outstanding :
      (s : Session Conn) (batches : List (List ℕ))
      → acknowledge_all s batches ≡ record s { unacked = outstanding batches s.unacked }
  acknowledge_all-outstanding s [] =
      ap (λ us. record s { unacked = us }) (sym (outstanding_none s.unacked))
  acknowledge_all-outstanding s (acks ∷ more) =
      ap (λ t. acknowledge_all t more) (process_acks_lem s acks)
      ∙ acknowledge_all-outstanding (record s { unacked = retain (unacked_by acks) s.unacked }) more
      ∙ ap (λ us. record s { unacked = us }) (outstanding-retain acks more s.unacked)

  -- The acknowledgement of a packet that was sent removes it from the queue: nothing is left that
  -- the session would not have without it.
  pub process_acks-record_sent :
      (s : Session Conn) (packet_id : ℕ) (encoded : List ℕ) (now : ℕ) (acks : List ℕ)
      → contains acks packet_id ≡ true
      → process_acks (record_sent s packet_id encoded now) acks ≡ process_acks s acks
  unfolding record_sent
  process_acks-record_sent s packet_id encoded now acks h =
      rw
        (
          process_acks_lem s acks,
          process_acks_lem (record_sent s packet_id encoded now) acks,
          retain-append (unacked_by acks) s.unacked (
              record { packet_id = packet_id; encoded = encoded; sent_at = now; attempts = 1 }
              ∷ []),
          h,
          append-nil (retain (unacked_by acks) s.unacked),
        )
        refl

  -- A session that receives control packets with these ids, each with its time.
  abbrev pub receive_all : Session Conn → List (ℕ × ℕ) → Session Conn
  receive_all s [] = s
  receive_all s (e ∷ es) = receive_all (note_received s e.0 e.1) es

-- The ids that are not in `seen`, each where it arrives first.
abbrev pub first_arrivals : List ℕ → List (ℕ × ℕ) → List ℕ
first_arrivals seen [] = []
first_arrivals seen (e ∷ es) =
    if contains seen e.0 then first_arrivals seen es else e.0 ∷ first_arrivals (e.0 ∷ seen) es

first_arrivals_old :
    (seen : List ℕ) (e : ℕ × ℕ) (es : List (ℕ × ℕ))
    → contains seen e.0 ≡ true
    → first_arrivals seen (e ∷ es) ≡ first_arrivals seen es
first_arrivals_old seen e es h = rw h refl

first_arrivals_fresh :
    (seen : List ℕ) (e : ℕ × ℕ) (es : List (ℕ × ℕ))
    → contains seen e.0 ≡ false
    → first_arrivals seen (e ∷ es) ≡ e.0 ∷ first_arrivals (e.0 ∷ seen) es
first_arrivals_fresh seen e es h = rw h refl

module _ {Conn : Type 0} where
  note_received_old :
      (s : Session Conn) (pid now : ℕ)
      → contains s.received_pids pid ≡ true
      → note_received s pid now ≡ record s { last_seen = now }
  unfolding note_received
  note_received_old s pid now h = rw h refl

  note_received_fresh :
      (s : Session Conn) (pid now : ℕ)
      → contains s.received_pids pid ≡ false
      → note_received s pid now ≡ record s {
        received_pids = pid ∷ s.received_pids;
        pending_acks = s.pending_acks ++ pid ∷ [];
        last_seen = now;
      }
  unfolding note_received
  note_received_fresh s pid now h = rw h refl

  -- Every id that arrives is queued for acknowledgement once, at its first arrival and in that
  -- order, behind the ids already queued; an id received before is not queued again.
  pub receive_all-first_arrivals :
      (s : Session Conn) (es : List (ℕ × ℕ))
      → (receive_all s es).pending_acks ≡ s.pending_acks ++ first_arrivals s.received_pids es
  receive_all-first_arrivals s [] = sym (append-nil s.pending_acks)
  receive_all-first_arrivals s (e ∷ es) = elim (Bool-cases (contains s.received_pids e.0)) [
    | inl old ↦
        let step : first_arrivals s.received_pids (e ∷ es) ≡ first_arrivals s.received_pids es =
          first_arrivals_old s.received_pids e es old in
        ap (λ t. (receive_all t es).pending_acks) (note_received_old s e.0 e.1 old)
        ∙ receive_all-first_arrivals (record s { last_seen = e.1 }) es
        ∙ ap (◌++◌ s.pending_acks) (sym step)
    | inr fresh ↦
        let s1 : Session Conn = record s {
          received_pids = e.0 ∷ s.received_pids;
          pending_acks = s.pending_acks ++ e.0 ∷ [];
          last_seen = e.1;
        } in
        let now_seen : List ℕ = first_arrivals (e.0 ∷ s.received_pids) es in
        let step : first_arrivals s.received_pids (e ∷ es) ≡ e.0 ∷ now_seen =
          first_arrivals_fresh s.received_pids e es fresh in
        ap (λ t. (receive_all t es).pending_acks) (note_received_fresh s e.0 e.1 fresh)
        ∙ receive_all-first_arrivals s1 es
        ∙ append_assoc s.pending_acks (e.0 ∷ []) now_seen
        ∙ ap (◌++◌ s.pending_acks) (sym step)
  ]
