-- ===== src/Session/Pings.antt =====
-- web/src/state/rpc-session.ts: the operations of a datagram runtime keep it sound.
use whats_going_on.Prelude.{
  ℕ, suc, ◌≤◌, ◌≡◌, refl, sym, ap, subst, ◌∙◌, inl, inr, Bool, true, false, not, ◌&&◌, Option, none,
  some, List, [], ◌∷◌, ◌==◌, if◌then◌else◌, if_true, if_false, arith, Bool-cases,
}
use whats_going_on.Prelude.Int.{pos}
use whats_going_on.Cbor.Value.{Number, int, Result, ok, err, Platform, max_safe_cbor_integer}
use whats_going_on.Wire.Message.{Bytes, DatagramMessage, DatagramMessageKind, kind_ping, kind_pong}
use whats_going_on.Wire.Codec.{encode_datagram_message, decode_datagram_message}
use whats_going_on.Session.Datagrams.{
  Clock, at_least_one, same_number, contains, Ping, Runtime, Effect, wrote, rtt,
  clear_pending_datagram_ping, close_datagram_runtime, next_datagram_ping_id, send_datagram_ping,
  is_pending, ping_write_failed, ping_timeout, answer_ping, take_pong, handle_incoming_datagram,
  write_of,
}

pub same_refl : (n : ℕ) → (n == n) ≡ true
same_refl n = ground arith

module _ (p : Platform) (c : Clock) where
  -- The timers that are set are those of the pending ping, whose id is the last one and a positive safe
  -- integer; a closed runtime has none, and no interval and no writer.
  abbrev pub timers_of : Option (Ping c) → List ℕ
  timers_of none = []
  timers_of (some ping) = ping.serial ∷ []

  abbrev pub IsLast : ℕ → Option (Ping c) → Type 0
  IsLast n none = Unit
  IsLast n (some ping) = (ping.ping_id ≡ n) × (1 ≤ n)

  pub record IsSound (r : Runtime c) : Type 0 where
    pub timers_Pending : r.timers ≡ timers_of r.pending_ping
    pub ping_IsLast : IsLast r.next_ping_id r.pending_ping
    pub id_bound : r.next_ping_id ≤ max_safe_cbor_integer
    pub closed_interval : r.interval_set ≡ not r.closed
    pub closed_writer : r.writer_held ≡ not r.closed
    pub closed_ping : r.closed ≡ true → r.pending_ping ≡ none

  -- The runtime without a pending ping, and the closed one.
  abbrev pub idle : Runtime c → Runtime c
  idle r = record r { pending_ping = none; timers = [] }

  abbrev pub shut : Runtime c → Runtime c
  shut r = record r {
    closed = true;
    pending_ping = none;
    interval_set = false;
    timers = [];
    writer_held = false;
  }

  pub clear_lem :
      (r : Runtime c)
      → r.timers ≡ timers_of r.pending_ping
      → clear_pending_datagram_ping p c r ≡ idle r
  unfolding clear_pending_datagram_ping
  clear_lem r h = go r.pending_ping r.timers h
    where
      go :
          (o : Option (Ping c)) (ts : List ℕ)
          → ts ≡ timers_of o
          → clear_pending_datagram_ping p c (record r { pending_ping = o; timers = ts }) ≡ idle r
      go none ts h = rw h refl
      go (some ping) ts h = rw (h, same_refl ping.serial) refl

  -- Nothing is left to close of a closed runtime.
  pub closed-shut : (r : Runtime c) → IsSound r → r.closed ≡ true → r ≡ shut r
  closed-shut r h e =
      let none_pending = h.closed_ping e in
      let with_fields : Bool → Option (Ping c) → Bool → List ℕ → Bool → Runtime c =
        λ closed ping interval timers held. record r {
          closed = closed;
          pending_ping = ping;
          interval_set = interval;
          timers = timers;
          writer_held = held;
        } in
      let same : with_fields r.closed r.pending_ping r.interval_set r.timers r.writer_held
          ≡ shut r =
        rw (h.closed_interval, h.closed_writer, h.timers_Pending, none_pending, e) refl in
      same

  pub close_lem : (r : Runtime c) → IsSound r → close_datagram_runtime p c r ≡ shut r
  unfolding close_datagram_runtime
  close_lem r h = elim (Bool-cases r.closed) as (λ x. close_datagram_runtime p c r ≡ shut r) [
    | inl e ↦ if_true r _ e ∙ closed-shut r h e
    | inr e ↦
        if_false r _ e
        ∙ ap {A = Runtime c} (λ t. record t { writer_held = false })
            (clear_lem (record r { closed = true; interval_set = false }) h.timers_Pending)
  ]

  pub shut-IsSound : (r : Runtime c) → IsSound r → IsSound (shut r)
  shut-IsSound r h = record {
    timers_Pending = refl;
    ping_IsLast = tt;
    id_bound = h.id_bound;
    closed_interval = refl;
    closed_writer = refl;
    closed_ping = λ e. refl;
  }

  pub idle-IsSound : (r : Runtime c) → IsSound r → IsSound (idle r)
  idle-IsSound r h = record {
    timers_Pending = refl;
    ping_IsLast = tt;
    id_bound = h.id_bound;
    closed_interval = h.closed_interval;
    closed_writer = h.closed_writer;
    closed_ping = λ e. refl;
  }

  pub close-IsSound : (r : Runtime c) → IsSound r → IsSound (close_datagram_runtime p c r)
  close-IsSound r h = subst IsSound (sym (close_lem r h)) (shut-IsSound r h)

  clear-IsSound : (r : Runtime c) → IsSound r → IsSound (clear_pending_datagram_ping p c r)
  clear-IsSound r h = subst IsSound (sym (clear_lem r h.timers_Pending)) (idle-IsSound r h)

  -- The next id is a positive safe integer.
  pub next_id-bounds :
      (r : Runtime c)
      → r.next_ping_id ≤ max_safe_cbor_integer
      → (1 ≤ next_datagram_ping_id p c r) × (next_datagram_ping_id p c r ≤ max_safe_cbor_integer)
  unfolding next_datagram_ping_id
  next_id-bounds r h = (ground arith, ground arith)

  -- The runtime with a new ping.
  abbrev pub pinged : c.Time → Runtime c → Runtime c
  pinged now r = record r {
    next_ping_id = next_datagram_ping_id p c r;
    pending_ping =
        some (record {
          serial = r.pings_made;
          ping_id = next_datagram_ping_id p c r;
          started_at = now;
        });
    timers = r.pings_made ∷ [];
    pings_made = suc r.pings_made;
  }

  pub send_lem :
      (now : c.Time) (r : Runtime c)
      → IsSound r
      → r.closed ≡ false
      → send_datagram_ping p c now r ≡ (
        pinged now r,
        write_of p c (
            encode_datagram_message p
              (record { kind = kind_ping; ping_id = int (pos (next_datagram_ping_id p c r)) })),
      )
  unfolding send_datagram_ping
  send_lem now r h e =
      if_false (r, []) _ e
      ∙ ap
          (λ t. (
            record t {
              next_ping_id = next_datagram_ping_id p c t;
              pending_ping = some (record {
                serial = r.pings_made;
                ping_id = next_datagram_ping_id p c t;
                started_at = now;
              });
              timers = r.pings_made ∷ t.timers;
              pings_made = suc r.pings_made;
            },
            write_of p c (
                encode_datagram_message p
                  (record { kind = kind_ping; ping_id = int (pos (next_datagram_ping_id p c t)) })),
          ))
          (clear_lem r h.timers_Pending)

  pub send-IsSound :
      (now : c.Time) (r : Runtime c) → IsSound r → IsSound (send_datagram_ping p c now r).0
  unfolding send_datagram_ping
  send-IsSound now r h =
      elim (Bool-cases r.closed) as (λ x. IsSound (send_datagram_ping p c now r).0) [
        | inl e ↦ subst (λ (t : Runtime c × List Effect). IsSound t.0) (sym (if_true (r, []) _ e)) h
        | inr e ↦
            let (low, high) = next_id-bounds r h.id_bound in
            subst (λ (t : Runtime c × List Effect). IsSound t.0) (sym (send_lem now r h e))
              (record {
                timers_Pending = refl;
                ping_IsLast = (refl, low);
                id_bound = high;
                closed_interval = h.closed_interval;
                closed_writer = h.closed_writer;
                closed_ping = λ closed. absurd (clash (sym closed ∙ e));
              })
      ]
    where
      clash : true ≡ false → ⊥
      clash e = cc

  pub failed-IsSound :
      (serial : ℕ) (r : Runtime c) → IsSound r → IsSound (ping_write_failed p c serial r)
  unfolding ping_write_failed
  failed-IsSound serial r h =
      close-IsSound _
        (elim (Bool-cases (is_pending p c serial r))
          as (λ x.
            IsSound (if is_pending p c serial r then clear_pending_datagram_ping p c r else r)) [
              | inl e ↦ subst IsSound (sym (if_true _ _ e)) (clear-IsSound r h)
              | inr e ↦ subst IsSound (sym (if_false _ _ e)) h
            ])

  -- A timer that is set is that of the pending ping.
  pub timeout_lem :
      (serial : ℕ) (r : Runtime c)
      → IsSound r
      → contains serial r.timers ≡ true
      → ping_timeout p c serial r ≡ idle r
  unfolding ping_timeout
  timeout_lem serial r h set = go r.pending_ping r.timers h.timers_Pending set
    where
      go :
          (o : Option (Ping c)) (ts : List ℕ)
          → ts ≡ timers_of o
          → contains serial ts ≡ true
          → ping_timeout p c serial (record r { pending_ping = o; timers = ts }) ≡ idle r
      go none ts e set = absurd (clash (rw e at set))
        where
          clash : false ≡ true → ⊥
          clash e = cc
      go (some ping) ts e set =
          let found = rw e at set in
          let same : serial ≡ ping.serial = ground arith in rw (e, same, same_refl ping.serial) refl

  answer-IsSound :
      (fails : Bool) (id : Number) (r : Runtime c)
      → IsSound r
      → IsSound (answer_ping p c fails id r).0
  unfolding answer_ping
  answer-IsSound fails id r h =
      go (encode_datagram_message p (record { kind = kind_pong; ping_id = id }))
        (r.writer_held && not fails)
    where
      go :
          (e : Result Bytes) (writes : Bool)
          → IsSound
              (elim e as (λ x. Runtime c × List Effect) [
                | ok bytes ↦
                    if writes then (r, wrote bytes ∷ []) else (close_datagram_runtime p c r, [])
                | err e ↦ (close_datagram_runtime p c r, [])
              ]).0
      go (ok bytes) true = h
      go (ok bytes) false = close-IsSound r h
      go (err e) writes = close-IsSound r h

  pong-IsSound :
      (now : c.Time) (id : Number) (r : Runtime c) → IsSound r → IsSound (take_pong p c now id r).0
  unfolding take_pong
  pong-IsSound now id r h = go r.pending_ping
    where
      choose :
          (b : Bool) (effects : List Effect)
          → IsSound
              (if◌then◌else◌ {A = Runtime c × List Effect} b
                (clear_pending_datagram_ping p c r, effects)
                (r, [])).0
      choose true effects = clear-IsSound r h
      choose false effects = h

      go :
          (o : Option (Ping c))
          → IsSound
              (elim o as (λ x. Runtime c × List Effect) [
                | none ↦ (r, [])
                | some ping ↦
                    if same_number ping.ping_id id
                    then (
                      clear_pending_datagram_ping p c r,
                      rtt (at_least_one (c.rounded ping.started_at now)) ∷ [],
                    )
                    else (r, [])
              ]).0
      go none = h
      go (some ping) = choose (same_number ping.ping_id id) _

  pub incoming-IsSound :
      (fails : Bool) (now : c.Time) (bytes : Bytes) (r : Runtime c)
      → IsSound r
      → IsSound (handle_incoming_datagram p c fails now bytes r).0
  unfolding handle_incoming_datagram
  incoming-IsSound fails now bytes r h = go (decode_datagram_message p bytes)
    where
      by_kind :
          (k : DatagramMessageKind) (id : Number)
          → IsSound
              (elim k as (λ x. Runtime c × List Effect) [
                | kind_ping ↦ answer_ping p c fails id r
                | kind_pong ↦ take_pong p c now id r
              ]).0
      by_kind kind_ping id = answer-IsSound fails id r h
      by_kind kind_pong id = pong-IsSound now id r h

      go :
          (m : Result DatagramMessage)
          → IsSound
              (elim m as (λ x. Runtime c × List Effect) [
                | ok message ↦ elim message.kind [
                  | kind_ping ↦ answer_ping p c fails message.ping_id r
                  | kind_pong ↦ take_pong p c now message.ping_id r
                ]
                | err e ↦ (r, [])
              ]).0
      go (ok message) = by_kind message.kind message.ping_id
      go (err e) = h
