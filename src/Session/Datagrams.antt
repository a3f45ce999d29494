-- ===== src/Session/Datagrams.antt =====
-- web/src/state/rpc-session.ts, lines 28-45 and 615-734: pings over datagrams. A ping has a
-- serial number, which is its identity as an object; a timer is the serial number of its ping. The clock
-- is a parameter: `rounded a b` is `Math.round(b - a)`.
use whats_going_on.Prelude.{
  ℕ, suc, ◌+◌, ◌<◌, ◌≡◌, Bool, true, false, not, ◌&&◌, ◌||◌, Option, none, some, List, [], ◌∷◌, leb,
  ◌==◌, if◌then◌else◌,
}
use whats_going_on.Prelude.Int.{ℤ, pos, negsuc}
use whats_going_on.Cbor.Value.{Number, int, Error, Result, ok, err, Platform, max_safe_cbor_integer}
use whats_going_on.Wire.Message.{Bytes, kind_ping, kind_pong}
use whats_going_on.Wire.Codec.{encode_datagram_message, decode_datagram_message}

pub record Clock : Type 1 where
  pub Time : Type 0
  pub rounded : Time → Time → ℤ

-- `Math.max(1, z)`.
abbrev pub at_least_one : ℤ → ℕ
at_least_one (pos n) = if leb 1 n then n else 1
at_least_one (negsuc n) = 1

-- The test of two ids.
abbrev pub same_number : ℕ → Number → Bool
same_number n (int (pos m)) = n == m
same_number n _ = false

abbrev pub without : ℕ → List ℕ → List ℕ
without n [] = []
without n (m ∷ ms) = let rest = without n ms in if n == m then rest else m ∷ rest

abbrev pub contains : ℕ → List ℕ → Bool
contains n [] = false
contains n (m ∷ ms) = (n == m) || contains n ms

module _ (c : Clock) where
  -- `DatagramPing`.
  pub record Ping : Type 0 where
    pub serial : ℕ
    pub ping_id : ℕ
    pub started_at : c.Time

  -- `DatagramRuntime`, with the timers that are set, the number of the pings made so far, and whether
  -- the writer's lock is held.
  pub record Runtime : Type 0 where
    pub closed : Bool
    pub next_ping_id : ℕ
    pub pending_ping : Option Ping
    pub interval_set : Bool
    pub timers : List ℕ
    pub pings_made : ℕ
    pub writer_held : Bool

-- What an operation does besides: a write, a call of `onRtt`, an exception that leaves it.
pub data Effect : Type 0 where
  wrote : Bytes → Effect
  rtt : ℕ → Effect
  threw : Error → Effect

module _ (p : Platform) (c : Clock) where
  unfoldable pub clear_pending_datagram_ping : Runtime c → Runtime c
  clear_pending_datagram_ping r = elim r.pending_ping [
    | none ↦ r
    | some ping ↦ record r { timers = without ping.serial r.timers; pending_ping = none }
  ]

  unfoldable pub close_datagram_runtime : Runtime c → Runtime c
  unfolding clear_pending_datagram_ping
  close_datagram_runtime r =
      if r.closed
      then r
      else record (clear_pending_datagram_ping (record r { closed = true; interval_set = false })) {
        writer_held = false;
      }

  unfoldable pub next_datagram_ping_id : Runtime c → ℕ
  next_datagram_ping_id r =
      if leb max_safe_cbor_integer r.next_ping_id then 1 else r.next_ping_id + 1

  abbrev pub write_of : Result Bytes → List Effect
  write_of (ok bytes) = wrote bytes ∷ []
  write_of (err e) = threw e ∷ []

  -- `sendDatagramPing` up to the write; what comes of a failed write is `ping_write_failed`.
  unfoldable pub send_datagram_ping : c.Time → Runtime c → Runtime c × List Effect
  unfolding clear_pending_datagram_ping next_datagram_ping_id encode_datagram_message
  send_datagram_ping now r =
      if r.closed
      then (r, [])
      else let cleared = clear_pending_datagram_ping r in
        let ping_id = next_datagram_ping_id cleared in
        (
          record cleared {
            next_ping_id = ping_id;
            pending_ping =
                some (record { serial = r.pings_made; ping_id = ping_id; started_at = now });
            timers = r.pings_made ∷ cleared.timers;
            pings_made = suc r.pings_made;
          },
          write_of (
              encode_datagram_message p (record { kind = kind_ping; ping_id = int (pos ping_id) })),
        )

  -- `runtime.pendingPing === pending`.
  abbrev pub is_pending : ℕ → Runtime c → Bool
  is_pending serial r = elim r.pending_ping [ none ↦ false | some ping ↦ ping.serial == serial ]

  unfoldable pub ping_write_failed : ℕ → Runtime c → Runtime c
  unfolding clear_pending_datagram_ping close_datagram_runtime
  ping_write_failed serial r =
      close_datagram_runtime (if is_pending serial r then clear_pending_datagram_ping r else r)

  -- A timer goes off.
  unfoldable pub ping_timeout : ℕ → Runtime c → Runtime c
  ping_timeout serial r =
      let fired = record r { timers = without serial r.timers } in
      if is_pending serial r then record fired { pending_ping = none } else fired

  -- The answer to a ping; a released writer rejects, as one may that is held (`fails`).
  unfoldable pub answer_ping : Bool → Number → Runtime c → Runtime c × List Effect
  unfolding close_datagram_runtime encode_datagram_message
  answer_ping fails id r =
      elim (encode_datagram_message p (record { kind = kind_pong; ping_id = id })) [
        | ok bytes ↦
            if r.writer_held && not fails
            then (r, wrote bytes ∷ [])
            else (close_datagram_runtime r, [])
        | err e ↦ (close_datagram_runtime r, [])
      ]

  unfoldable pub take_pong : c.Time → Number → Runtime c → Runtime c × List Effect
  unfolding clear_pending_datagram_ping
  take_pong now id r = elim r.pending_ping [
    | none ↦ (r, [])
    | some ping ↦
        if same_number ping.ping_id id
        then (
          clear_pending_datagram_ping r,
          rtt (at_least_one (c.rounded ping.started_at now)) ∷ [],
        )
        else (r, [])
  ]

  unfoldable pub handle_incoming_datagram :
      Bool → c.Time → Bytes → Runtime c → Runtime c × List Effect
  unfolding decode_datagram_message answer_ping take_pong
  handle_incoming_datagram fails now bytes r = elim (decode_datagram_message p bytes) [
    | ok message ↦ elim message.kind [
      | kind_ping ↦ answer_ping fails message.ping_id r
      | kind_pong ↦ take_pong now message.ping_id r
    ]
    | err e ↦ (r, [])
  ]

  -- `startDatagramRuntime`'s object, before its first ping.
  abbrev pub fresh_runtime : Runtime c
  fresh_runtime = record {
    closed = false;
    next_ping_id = 0;
    pending_ping = none;
    interval_set = true;
    timers = [];
    pings_made = 0;
    writer_held = true;
  }

  unfoldable pub start_datagram_runtime : c.Time → Runtime c × List Effect
  unfolding send_datagram_ping
  start_datagram_runtime now = send_datagram_ping now fresh_runtime

  -- What happens to a runtime once it is started, with its effects. A read that was waiting when the
  -- runtime was closed may still be handled.
  pub data Step : Runtime c → Runtime c → List Effect → Type 0 where
    interval_tick :
        {r : Runtime c} (now : c.Time)
        → r.interval_set ≡ true
        → Step r (send_datagram_ping now r).0 (send_datagram_ping now r).1
    timer_fired :
        {r : Runtime c} (serial : ℕ)
        → contains serial r.timers ≡ true
        → Step r (ping_timeout serial r) []
    write_failed :
        {r : Runtime c} (serial : ℕ)
        → serial < r.pings_made
        → Step r (ping_write_failed serial r) []
    datagram :
        {r : Runtime c} (fails : Bool) (now : c.Time) (bytes : Bytes)
        → Step r
            (handle_incoming_datagram fails now bytes r).0
            (handle_incoming_datagram fails now bytes r).1
    reading_failed : {r : Runtime c} → Step r (close_datagram_runtime r) []
    transport_closed : {r : Runtime c} → Step r (close_datagram_runtime r) []

  pub data Reachable : Runtime c → Type 0 where
    started : (now : c.Time) → Reachable (start_datagram_runtime now).0
    later :
        {r r' : Runtime c} {effects : List Effect} → Reachable r → Step r r' effects → Reachable r'
