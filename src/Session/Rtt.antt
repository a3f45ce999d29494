-- ===== src/Session/Rtt.antt =====
-- web/src/state/rpc-session.ts: the answers to pings, and the round trips that are measured.
use whats_going_on.Prelude.{
  ℕ, ◌≤◌, ◌≡◌, refl, sym, ap, subst, ◌∙◌, inl, inr, Bool, true, false, not, ◌&&◌, Option, none,
  some, List, [], ◌∷◌, if◌then◌else◌, if_true, if_false, arith, Bool-cases,
}
use whats_going_on.Prelude.Int.{ℤ, pos, negsuc}
use whats_going_on.Cbor.Value.{
  Number, int, float, Result, ok, err, Platform, Laws, max_safe_cbor_integer,
}
use whats_going_on.Wire.Message.{Bytes, DatagramMessage, DatagramMessageKind, kind_ping, kind_pong}
use whats_going_on.Wire.Generated.{is_u53}
use whats_going_on.Wire.Codec.{encode_datagram_message, decode_datagram_message}
use whats_going_on.Cbor.Incremental.{ok-injective}
use whats_going_on.Wire.RoundTrip.{decode_datagram_message-encode_datagram_message}
use whats_going_on.Session.Datagrams.{
  Clock, at_least_one, same_number, Ping, Runtime, Effect, wrote, rtt, clear_pending_datagram_ping,
  close_datagram_runtime, next_datagram_ping_id, send_datagram_ping, answer_ping, take_pong,
  handle_incoming_datagram, Reachable,
}
use whats_going_on.Session.Pings.{same_refl, idle, clear_lem, next_id-bounds, pinged, send_lem}
use whats_going_on.Session.Life.{Reachable-IsSound}

module _ (p : Platform) (c : Clock) where
  same_number-eq : (n : ℕ) (id : Number) → same_number n id ≡ true → id ≡ int (pos n)
  same_number-eq n (int (pos m)) h =
      let same : n ≡ m = ground arith in ap (λ t. int (pos t)) (sym same)
  same_number-eq n (int (negsuc m)) h = cc
  same_number-eq n (float bits) h = cc

  at_least_one-bound : (z : ℤ) → 1 ≤ at_least_one z
  at_least_one-bound (pos n) = ground arith
  at_least_one-bound (negsuc n) = omega arith

  -- No round trip is among these effects.
  abbrev effects_of : Runtime c × List Effect → List Effect
  effects_of t = t.1

  empty-rtt :
      {a b : Runtime c} {ms : ℕ} → ◌≡◌ {A = Runtime c × List Effect} (a, []) (b, rtt ms ∷ []) → ⊥
  empty-rtt {ms = ms} h = clash (ap effects_of h)
    where
      clash : [] ≡ rtt ms ∷ [] → ⊥
      clash e = cc

  wrote-rtt :
      {a b : Runtime c} {bytes : Bytes} {ms : ℕ}
      → ◌≡◌ {A = Runtime c × List Effect} (a, wrote bytes ∷ []) (b, rtt ms ∷ [])
      → ⊥
  wrote-rtt {bytes = bytes} {ms = ms} h = clash (ap effects_of h)
    where
      clash : wrote bytes ∷ [] ≡ rtt ms ∷ [] → ⊥
      clash e = cc

  take_pong-rtt :
      (now : c.Time) (id : Number) (r r' : Runtime c) (ms : ℕ)
      → take_pong p c now id r ≡ (r', rtt ms ∷ [])
      → (ping : Ping c) × (r.pending_ping ≡ some ping)
        × (id ≡ int (pos ping.ping_id))
        × (1 ≤ ms)
        × (r' ≡ clear_pending_datagram_ping p c r)
  unfolding take_pong
  take_pong-rtt now id r r' ms h = go r.pending_ping refl h
    where
      go :
          (o : Option (Ping c))
          → r.pending_ping ≡ o
          → elim o as (λ x. Runtime c × List Effect) [
            | none ↦ (r, [])
            | some ping ↦
                if same_number ping.ping_id id
                then (
                  clear_pending_datagram_ping p c r,
                  rtt (at_least_one (c.rounded ping.started_at now)) ∷ [],
                )
                else (r, [])
          ]
            ≡ (r', rtt ms ∷ [])
          → (ping : Ping c) × (r.pending_ping ≡ some ping)
            × (id ≡ int (pos ping.ping_id))
            × (1 ≤ ms)
            × (r' ≡ clear_pending_datagram_ping p c r)
      go none e h = absurd (empty-rtt h)
      go (some ping) e h = elim (Bool-cases (same_number ping.ping_id id)) [
        | inl same ↦
            let both = sym (if_true _ _ same) ∙ h in
            let measured : rtt (at_least_one (c.rounded ping.started_at now)) ∷ [] ≡ rtt ms ∷ [] =
              ap (λ t. t.1) both in
            let number : at_least_one (c.rounded ping.started_at now) ≡ ms = cc in
            (
              ping,
              e,
              same_number-eq ping.ping_id id same,
              subst (λ t. 1 ≤ t) number (at_least_one-bound (c.rounded ping.started_at now)),
              sym (ap (λ t. t.0) both),
            )
        | inr other ↦ absurd (empty-rtt (sym (if_false _ _ other) ∙ h))
      ]

  -- A round trip is reported only for a datagram that is a pong with the id of the pending ping; it is
  -- then at least one millisecond, and the ping is pending no longer.
  pub handle_incoming_datagram-rtt :
      (fails : Bool) (now : c.Time) (bytes : Bytes) (r r' : Runtime c) (ms : ℕ)
      → Reachable p c r
      → handle_incoming_datagram p c fails now bytes r ≡ (r', rtt ms ∷ [])
      → (ping : Ping c) × (r.pending_ping ≡ some ping)
        × (decode_datagram_message p bytes
            ≡ ok (record { kind = kind_pong; ping_id = int (pos ping.ping_id) }))
        × (1 ≤ ms)
        × (r' ≡ idle p c r)
  unfolding handle_incoming_datagram
  handle_incoming_datagram-rtt fails now bytes r r' ms reached h =
      go (decode_datagram_message p bytes) refl h
    where
      Answer : Result DatagramMessage → Type 0
      Answer m =
          (ping : Ping c) × (r.pending_ping ≡ some ping)
          × (m ≡ ok (record { kind = kind_pong; ping_id = int (pos ping.ping_id) }))
          × (1 ≤ ms)
          × (r' ≡ idle p c r)

      no_rtt :
          (e : Result Bytes) (writes : Bool)
          → elim e as (λ x. Runtime c × List Effect) [
            | ok bytes ↦
                if writes then (r, wrote bytes ∷ []) else (close_datagram_runtime p c r, [])
            | err e ↦ (close_datagram_runtime p c r, [])
          ]
            ≡ (r', rtt ms ∷ [])
          → ⊥
      no_rtt (ok bytes) true h = wrote-rtt h
      no_rtt (ok bytes) false h = empty-rtt h
      no_rtt (err e) writes h = empty-rtt h

      by_kind :
          (k : DatagramMessageKind) (id : Number)
          → elim k as (λ x. Runtime c × List Effect) [
            | kind_ping ↦ answer_ping p c fails id r
            | kind_pong ↦ take_pong p c now id r
          ]
            ≡ (r', rtt ms ∷ [])
          → Answer (ok (record { kind = k; ping_id = id }))
      by_kind kind_ping id h = absurd (no_rtt _ _ (unfold answer_ping in h))
      by_kind kind_pong id h =
          let (ping, pending, same, low, cleared) = take_pong-rtt now id r r' ms h in
          (
            ping,
            pending,
            ap (λ t. ok (record { kind = kind_pong; ping_id = t })) same,
            low,
            cleared ∙ clear_lem p c r (Reachable-IsSound p c r reached).timers_Pending,
          )

      go :
          (m : Result DatagramMessage)
          → decode_datagram_message p bytes ≡ m
          → elim m as (λ x. Runtime c × List Effect) [
            | ok message ↦ elim message.kind [
              | kind_ping ↦ answer_ping p c fails message.ping_id r
              | kind_pong ↦ take_pong p c now message.ping_id r
            ]
            | err e ↦ (r, [])
          ]
            ≡ (r', rtt ms ∷ [])
          → Answer (decode_datagram_message p bytes)
      go (ok message) e h = subst Answer (sym e) (by_kind message.kind message.ping_id h)
      go (err x) e h = absurd (empty-rtt h)

  abbrev answered : Runtime c → Bool → Result Bytes → Runtime c × List Effect
  answered r held e = elim e [
    | ok bytes ↦
        if held && not false then (r, wrote bytes ∷ []) else (close_datagram_runtime p c r, [])
    | err e ↦ (close_datagram_runtime p c r, [])
  ]

  abbrev incoming : c.Time → Runtime c → Result DatagramMessage → Runtime c × List Effect
  incoming now r m = elim m [
    | ok message ↦ elim message.kind [
      | kind_ping ↦ answer_ping p c false message.ping_id r
      | kind_pong ↦ take_pong p c now message.ping_id r
    ]
    | err e ↦ (r, [])
  ]

  -- On a platform that keeps its documented laws, an open runtime, at any time of its life, answers a ping
  -- with a safe unsigned id, when the write does not fail, by one datagram, which is read as the pong
  -- with the same id, and does nothing else.
  pub handle_incoming_datagram-ping :
      Laws p
      → (now : c.Time) (bytes : Bytes) (id : Number) (r : Runtime c) → Reachable p c r
      → r.closed ≡ false
      → is_u53 id ≡ true
      → encode_datagram_message p (record { kind = kind_ping; ping_id = id }) ≡ ok bytes
      → (answer : Bytes) × (handle_incoming_datagram p c false now bytes r ≡ (r, wrote answer ∷ []))
        × (decode_datagram_message p answer ≡ ok (record { kind = kind_pong; ping_id = id }))
  unfolding handle_incoming_datagram answer_ping
  handle_incoming_datagram-ping laws now bytes id r reached opened hid sent =
      let (bytes', e', d') =
        decode_datagram_message-encode_datagram_message p laws
          (record { kind = kind_ping; ping_id = id }) hid in
      let (answer, e, d) =
        decode_datagram_message-encode_datagram_message p laws
          (record { kind = kind_pong; ping_id = id }) hid in
      let read = rw (← ok-injective (sym sent ∙ e')) at d' in
      let held : r.writer_held ≡ true =
        (Reachable-IsSound p c r reached).closed_writer ∙ ap not opened in
      (
        answer,
        ap (incoming now r) read
            ∙ (ap (answered r r.writer_held) e ∙ ap (λ b. answered r b (ok answer)) held),
        d,
      )

  abbrev runtime_of : Runtime c × List Effect → Runtime c
  runtime_of t = t.0

  is_u53-pos : (n : ℕ) → n ≤ max_safe_cbor_integer → is_u53 (int (pos n)) ≡ true
  is_u53-pos n h = ground arith

  -- On a platform that keeps its documented laws, after an open runtime, at any time of its life, has
  -- sent its ping at one time, the pong with the ping's id at another time ends the ping and
  -- reports the rounded difference of the two times, or 1 if that is less.
  pub send_datagram_ping-rtt :
      Laws p
      → (start now : c.Time) (bytes : Bytes) (r : Runtime c) → Reachable p c r
      → r.closed ≡ false
      → encode_datagram_message p
          (record { kind = kind_pong; ping_id = int (pos (next_datagram_ping_id p c r)) })
        ≡ ok bytes
      → handle_incoming_datagram p c false now bytes (send_datagram_ping p c start r).0 ≡ (
        idle p c (send_datagram_ping p c start r).0,
        rtt (at_least_one (c.rounded start now)) ∷ [],
      )
  unfolding handle_incoming_datagram take_pong
  send_datagram_ping-rtt laws start now bytes r reached opened sent =
      let h = Reachable-IsSound p c r reached in
      let id = next_datagram_ping_id p c r in
      let (bytes', e, d) =
        decode_datagram_message-encode_datagram_message p laws
          (record { kind = kind_pong; ping_id = int (pos id) })
          (is_u53-pos id (next_id-bounds p c r h.id_bound).1) in
      let read = rw (← ok-injective (sym sent ∙ e)) at d in
      let q = pinged p c start r in
      let same : (send_datagram_ping p c start r).0 ≡ q =
        ap runtime_of (send_lem p c start r h opened) in
      let measured : List Effect = rtt (at_least_one (c.rounded start now)) ∷ [] in
      subst (λ t. handle_incoming_datagram p c false now bytes t ≡ (idle p c t, measured))
        (sym same)
        (ap (incoming now q) read
          ∙ (if_true _ _ (same_refl id) ∙ ap (λ t. (t, measured)) (clear_lem p c q refl)))
