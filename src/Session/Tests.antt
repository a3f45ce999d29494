-- ===== src/Session/Tests.antt =====
-- The theorems on the RPC session at concrete inputs.
use whats_going_on.Prelude.{ℕ, ◌-◌, ◌≤◌, ◌≡◌, refl, false, some, List, [], ◌∷◌}
use whats_going_on.Prelude.Int.{pos}
use whats_going_on.Cbor.Value.{int, ok, max_safe_cbor_integer}
use whats_going_on.Cbor.Sample.{platform, platform-Laws}
use whats_going_on.Wire.Message.{kind_ping, kind_pong}
use whats_going_on.Wire.Codec.{encode_datagram_message, decode_datagram_message}
use whats_going_on.Session.Datagrams.{
  Clock, at_least_one, Ping, Runtime, wrote, rtt, close_datagram_runtime, next_datagram_ping_id,
  send_datagram_ping, handle_incoming_datagram, start_datagram_runtime, datagram, transport_closed,
  Reachable, started, later,
}
use whats_going_on.Session.Pings.{IsSound, idle}
use whats_going_on.Session.Life.{Reachable-IsSound, closed-Step, send_datagram_ping-bounds}
use whats_going_on.Session.Rtt.{
  handle_incoming_datagram-rtt, handle_incoming_datagram-ping, send_datagram_ping-rtt,
}

-- A clock in milliseconds.
abbrev clock : Clock
clock = record { Time = ℕ; rounded = λ a b. pos (b - a) }

-- A runtime after its first ping, and the same closed.
abbrev young : Runtime clock
young = (start_datagram_runtime platform clock 100).0

young-Reachable : Reachable platform clock young
young-Reachable = started 100

abbrev ended : Runtime clock
ended = close_datagram_runtime platform clock young

-- Two datagrams: the pong and the ping with id 1.
abbrev pong_bytes : List ℕ
pong_bytes = 0x82 ∷ 2 ∷ 0xa1 ∷ 1 ∷ 1 ∷ []

abbrev ping_bytes : List ℕ
ping_bytes = 0x82 ∷ 1 ∷ 0xa1 ∷ 1 ∷ 1 ∷ []

Reachable-IsSound_example : IsSound platform clock young
Reachable-IsSound_example = Reachable-IsSound platform clock young young-Reachable

closed-Step_example :
    ((handle_incoming_datagram platform clock false 150 pong_bytes ended).0 ≡ ended)
    × ((handle_incoming_datagram platform clock false 150 pong_bytes ended).1 ≡ [])
unfolding close_datagram_runtime start_datagram_runtime
closed-Step_example =
    closed-Step platform clock (later young-Reachable transport_closed) refl
      (datagram false 150 pong_bytes)

send_datagram_ping-bounds_example :
    (id : ℕ) × (bytes : List ℕ) × (1 ≤ id)
    × (id ≤ max_safe_cbor_integer)
    × ((send_datagram_ping platform clock 200 young).1 ≡ wrote bytes ∷ [])
    × (decode_datagram_message platform bytes
        ≡ ok (record { kind = kind_ping; ping_id = int (pos id) }))
    × ((send_datagram_ping platform clock 200 young).0.pending_ping
        ≡ some (record { serial = young.pings_made; ping_id = id; started_at = 200 }))
unfolding start_datagram_runtime
send_datagram_ping-bounds_example =
    send_datagram_ping-bounds platform clock platform-Laws 200 young young-Reachable refl

handle_incoming_datagram-rtt_example :
    (ping : Ping clock) × (young.pending_ping ≡ some ping)
    × (decode_datagram_message platform pong_bytes
        ≡ ok (record { kind = kind_pong; ping_id = int (pos ping.ping_id) }))
    × (1 ≤ 50)
    × (idle platform clock young ≡ idle platform clock young)
unfolding handle_incoming_datagram start_datagram_runtime
handle_incoming_datagram-rtt_example =
    handle_incoming_datagram-rtt platform clock false 150 pong_bytes young
      (idle platform clock young) 50 young-Reachable refl

handle_incoming_datagram-ping_example :
    (answer : List ℕ) × (handle_incoming_datagram platform clock false 150 ping_bytes young
      ≡ (young, wrote answer ∷ []))
    × (decode_datagram_message platform answer
        ≡ ok (record { kind = kind_pong; ping_id = int (pos 1) }))
unfolding start_datagram_runtime encode_datagram_message
handle_incoming_datagram-ping_example =
    handle_incoming_datagram-ping platform clock platform-Laws 150 ping_bytes (int (pos 1)) young
      young-Reachable refl refl refl

send_datagram_ping-rtt_example :
    handle_incoming_datagram platform clock false 250
      (0x82 ∷ 2 ∷ 0xa1 ∷ 1 ∷ 2 ∷ [])
      (send_datagram_ping platform clock 200 young).0
    ≡ (
      idle platform clock (send_datagram_ping platform clock 200 young).0,
      rtt (at_least_one (clock.rounded 200 250)) ∷ [],
    )
unfolding start_datagram_runtime encode_datagram_message next_datagram_ping_id
send_datagram_ping-rtt_example =
    send_datagram_ping-rtt platform clock platform-Laws 200 250 (0x82 ∷ 2 ∷ 0xa1 ∷ 1 ∷ 2 ∷ []) young
      young-Reachable refl refl
