-- ===== src/Session/Life.antt =====
-- web/src/state/rpc-session.ts: the life of a datagram runtime.
use whats_going_on.Prelude.{
  ℕ, ◌≤◌, ◌≡◌, refl, sym, ap, subst, ◌∙◌, Bool, true, false, some, List, [], ◌∷◌, arith,
}
use whats_going_on.Prelude.Int.{pos}
use whats_going_on.Cbor.Value.{Number, int, Result, ok, err, Platform, Laws, max_safe_cbor_integer}
use whats_going_on.Wire.Message.{Bytes, DatagramMessage, DatagramMessageKind, kind_ping, kind_pong}
use whats_going_on.Wire.Codec.{encode_datagram_message, decode_datagram_message}
use whats_going_on.Wire.RoundTrip.{decode_datagram_message-encode_datagram_message}
use whats_going_on.Session.Datagrams.{
  Clock, contains, Runtime, Effect, wrote, close_datagram_runtime, next_datagram_ping_id,
  send_datagram_ping, ping_write_failed, answer_ping, take_pong, handle_incoming_datagram,
  start_datagram_runtime, fresh_runtime, Step, interval_tick, timer_fired, write_failed, datagram,
  reading_failed, transport_closed, Reachable, started, later, write_of,
}
use whats_going_on.Session.Pings.{
  IsSound, shut, closed-shut, close_lem, close-IsSound, next_id-bounds, send_lem, send-IsSound,
  failed-IsSound, timeout_lem, idle-IsSound, incoming-IsSound,
}

module _ (p : Platform) (c : Clock) where
  pub Step-IsSound :
      {r r' : Runtime c} {effects : List Effect}
      → Step p c r r' effects
      → IsSound p c r
      → IsSound p c r'
  Step-IsSound (interval_tick now e) h = send-IsSound p c now _ h
  Step-IsSound (timer_fired serial e) h =
      subst (IsSound p c) (sym (timeout_lem p c serial _ h e)) (idle-IsSound p c _ h)
  Step-IsSound (write_failed serial e) h = failed-IsSound p c serial _ h
  Step-IsSound (datagram fails now bytes) h = incoming-IsSound p c fails now bytes _ h
  Step-IsSound reading_failed h = close-IsSound p c _ h
  Step-IsSound transport_closed h = close-IsSound p c _ h

  fresh-IsSound : IsSound p c (fresh_runtime p c)
  fresh-IsSound = record {
    timers_Pending = refl;
    ping_IsLast = tt;
    id_bound = omega arith;
    closed_interval = refl;
    closed_writer = refl;
    closed_ping = λ e. refl;
  }

  -- At every time of a datagram runtime's life, whatever happens to it in whatever order, the only timer
  -- that is set is that of the pending ping, so none is left behind; the pending ping's id is the
  -- last id that was used, a positive safe integer; a closed runtime has no pending ping; and a runtime
  -- has its interval and its writer as long as it is not closed.
  pub Reachable-IsSound : (r : Runtime c) → Reachable p c r → IsSound p c r
  unfolding start_datagram_runtime
  Reachable-IsSound r (started now) = send-IsSound p c now _ fresh-IsSound
  Reachable-IsSound r (later before step) = Step-IsSound step (Reachable-IsSound _ before)

  -- What the operations do with a closed runtime: nothing.
  answer-shut :
      (fails : Bool) (id : Number) (r : Runtime c)
      → answer_ping p c fails id (shut p c r) ≡ (shut p c r, [])
  unfolding answer_ping close_datagram_runtime
  answer-shut fails id r =
      go (encode_datagram_message p (record { kind = kind_pong; ping_id = id }))
    where
      go :
          (e : Result Bytes)
          → elim e as (λ x. Runtime c × List Effect) [
            | ok bytes ↦ (shut p c r, [])
            | err e ↦ (shut p c r, [])
          ]
            ≡ (shut p c r, [])
      go (ok bytes) = refl
      go (err e) = refl

  incoming-shut :
      (fails : Bool) (now : c.Time) (bytes : Bytes) (r : Runtime c)
      → handle_incoming_datagram p c fails now bytes (shut p c r) ≡ (shut p c r, [])
  unfolding handle_incoming_datagram
  incoming-shut fails now bytes r = go (decode_datagram_message p bytes)
    where
      by_kind :
          (k : DatagramMessageKind) (id : Number)
          → elim k as (λ x. Runtime c × List Effect) [
            | kind_ping ↦ answer_ping p c fails id (shut p c r)
            | kind_pong ↦ take_pong p c now id (shut p c r)
          ]
            ≡ (shut p c r, [])
      by_kind kind_ping id = answer-shut fails id r
      by_kind kind_pong id = unfold take_pong in refl

      go :
          (m : Result DatagramMessage)
          → elim m as (λ x. Runtime c × List Effect) [
            | ok message ↦ elim message.kind [
              | kind_ping ↦ answer_ping p c fails message.ping_id (shut p c r)
              | kind_pong ↦ take_pong p c now message.ping_id (shut p c r)
            ]
            | err e ↦ (shut p c r, [])
          ]
            ≡ (shut p c r, [])
      go (ok message) = by_kind message.kind message.ping_id
      go (err e) = refl

  send-shut :
      (now : c.Time) (r : Runtime c) → send_datagram_ping p c now (shut p c r) ≡ (shut p c r, [])
  unfolding send_datagram_ping
  send-shut now r = refl

  failed-shut :
      (serial : ℕ) (r : Runtime c) → ping_write_failed p c serial (shut p c r) ≡ shut p c r
  unfolding ping_write_failed close_datagram_runtime
  failed-shut serial r = refl

  -- Once a datagram runtime is closed, whatever happens to it later changes nothing of it, writes nothing,
  -- reports no round trip and throws nothing.
  pub closed-Step :
      {r r' : Runtime c} {effects : List Effect}
      → Reachable p c r
      → r.closed ≡ true
      → Step p c r r' effects
      → (r' ≡ r) × (effects ≡ [])
  closed-Step {r = r} reached closed step = go step
    where
      clash : false ≡ true → ⊥
      clash e = cc

      h : IsSound p c r
      h = Reachable-IsSound r reached

      e : r ≡ shut p c r
      e = closed-shut p c r h closed

      go :
          {r' : Runtime c} {effects : List Effect}
          → Step p c r r' effects
          → (r' ≡ r) × (effects ≡ [])
      go (interval_tick now set) =
          let same : send_datagram_ping p c now r ≡ (r, []) =
            subst (λ t. send_datagram_ping p c now t ≡ (t, [])) (sym e) (send-shut now r) in
          (ap (λ t. t.0) same, ap (λ t. t.1) same)
      go (timer_fired serial set) =
          absurd (clash (sym (ap (λ t. contains serial t.timers) e) ∙ set))
      go (write_failed serial made) =
          (subst (λ t. ping_write_failed p c serial t ≡ t) (sym e) (failed-shut serial r), refl)
      go (datagram fails now bytes) =
          let same : handle_incoming_datagram p c fails now bytes r ≡ (r, []) =
            subst (λ t. handle_incoming_datagram p c fails now bytes t ≡ (t, [])) (sym e)
              (incoming-shut fails now bytes r) in
          (ap (λ t. t.0) same, ap (λ t. t.1) same)
      go reading_failed = (close_lem p c r h ∙ sym e, refl)
      go transport_closed = (close_lem p c r h ∙ sym e, refl)

  -- On a platform that keeps its documented laws, an open runtime, at any time of its life, sends its ping
  -- without an exception: it writes one datagram, which is read as a ping; the ping's id is a
  -- positive safe integer, and the pending ping is the one with this id and this start.
  pub send_datagram_ping-bounds :
      Laws p
      → (now : c.Time) (r : Runtime c) → Reachable p c r
      → r.closed ≡ false
      → (id : ℕ) × (bytes : Bytes) × (1 ≤ id)
        × (id ≤ max_safe_cbor_integer)
        × ((send_datagram_ping p c now r).1 ≡ wrote bytes ∷ [])
        × (decode_datagram_message p bytes
            ≡ ok (record { kind = kind_ping; ping_id = int (pos id) }))
        × ((send_datagram_ping p c now r).0.pending_ping
            ≡ some (record { serial = r.pings_made; ping_id = id; started_at = now }))
  send_datagram_ping-bounds laws now r reached opened =
      let h = Reachable-IsSound r reached in
      let (low, high) = next_id-bounds p c r h.id_bound in
      let id = next_datagram_ping_id p c r in
      let (bytes, e, d) =
        decode_datagram_message-encode_datagram_message p laws
          (record { kind = kind_ping; ping_id = int (pos id) }) (ground arith) in
      let sent = send_lem p c now r h opened in
      (
        id,
        bytes,
        low,
        high,
        ap (λ t. t.1) sent ∙ ap (write_of p c) e,
        d,
        ap (λ t. t.0.pending_ping) sent,
      )
