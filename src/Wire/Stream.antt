-- ===== src/Wire/Stream.antt =====
-- web/src/protocol/wire.ts: messages taken from the front of a stream's buffer.
use mathlib.Core.List.{append_assoc}
use native.Mathlib.Nat.{add-zero}
use whats_going_on.Prelude.{
  ℕ, zero, suc, ◌+◌, ◌-◌, ◌≤◌, ◌<◌, ◌≡◌, refl, ap, ◌∙◌, true, List, [], ◌∷◌, ◌++◌, map, length,
  length-append, All, arith,
}
use whats_going_on.Prelude.Int.{pos}
use whats_going_on.Cbor.Value.{int, Value, num, object, ok, Platform, Laws, IsByte}
use whats_going_on.Cbor.Decode.{decode}
use whats_going_on.Cbor.Canonical.{canonical}
use whats_going_on.Cbor.RoundTrip.{encode-Reads}
use whats_going_on.Cbor.Encode.{encode_cbor}
use whats_going_on.Cbor.Sequence.{PrefixItem, prefix_item, prefix_loop, decode_cbor_sequence_prefix}
use whats_going_on.Cbor.Incremental.{end_of, prefix_enough}
use whats_going_on.Cbor.Resume.{shifted, prefix_loop_shift}
use whats_going_on.Wire.Message.{GeneratedReqRes}
use whats_going_on.Wire.Codec.{
  from_generated_req_res_message, encode_pair, decode_pair, decode_pairs, is_even, values_of,
  read_bytes_of, encode_req_res_message, encode_req_res_message_sequence,
  decode_req_res_message_sequence_prefix,
}
use whats_going_on.Wire.Fields.{Sendable}
use whats_going_on.Wire.Valued.{message-Valued}
use whats_going_on.Wire.RoundTrip.{to_generated-from_generated}

read_bytes_of-end_of :
    (items : List PrefixItem) → is_even items ≡ true → read_bytes_of items ≡ end_of 0 items
read_bytes_of-end_of [] h = refl
read_bytes_of-end_of (a ∷ []) h = cc
read_bytes_of-end_of (a ∷ b ∷ []) h = refl
read_bytes_of-end_of (a ∷ b ∷ c ∷ []) h = cc
read_bytes_of-end_of (a ∷ b ∷ c ∷ d ∷ items) h = read_bytes_of-end_of (c ∷ d ∷ items) h

module _ (p : Platform) where
  -- The loop finds the items in the bytes, wherever it starts to count.
  abbrev Finds : List ℕ → (ℕ → List PrefixItem) → Type 0
  Finds bs items = (offset f : ℕ) → length bs < f → prefix_loop p f offset bs ≡ ok (items offset)

  tail-Finds :
      (tail : List ℕ)
      → All IsByte tail
      → decode_cbor_sequence_prefix p tail ≡ ok []
      → Finds tail (λ offset. [])
  unfolding decode_cbor_sequence_prefix
  tail-Finds tail h none_whole offset f short =
      let moved = rw add-zero at (prefix_loop_shift p f offset 0 tail) in
      moved
      ∙ ap (shifted offset) (
          prefix_enough p (suc (length tail)) f 0 tail h (omega arith) (omega (arith, short))
          ∙ none_whole)

  -- One more item in front.
  abbrev in_front : Value → ℕ → (ℕ → List PrefixItem) → ℕ → List PrefixItem
  in_front v n items offset = record { value = v; end_offset = offset + n } ∷ items (offset + n)

  cons-Finds :
      (bs rest : List ℕ) (v : Value) (items : ℕ → List PrefixItem)
      → ((f : ℕ) (ys : List ℕ) → length bs ≤ f → decode p f (bs ++ ys) ≡ ok (v, ys))
      → Finds rest items
      → Finds (bs ++ rest) (in_front v (length bs) items)
  unfolding prefix_loop prefix_item decode
  cons-Finds [] rest v items reads more offset f h = cc (reads 0 [] (omega arith))
  cons-Finds (b ∷ bs) rest v items reads more offset zero h = absurd (omega (arith, h))
  cons-Finds (b ∷ bs) rest v items reads more offset (suc f) h =
      let size : suc (length (bs ++ rest)) - length rest ≡ suc (length bs) =
        omega (arith, length-append bs rest) in
      rw
        (
          reads (suc f) rest (omega (arith, h, length-append bs rest)),
          size,
          more (offset + suc (length bs)) f (omega (arith, h, length-append bs rest)),
        )
        refl

  module _ (laws : Laws p) (tail : List ℕ) (tail_finds : Finds tail (λ offset. [])) where
    -- What is found in the encodings of some messages, with `tail` behind them.
    record Streamed (gs : List GeneratedReqRes) : Type 0 where
      sent : List ℕ
      items : ℕ → List PrefixItem
      encodes : encode_req_res_message_sequence p (map from_generated_req_res_message gs) ≡ ok sent
      finds : Finds (sent ++ tail) items
      even : (offset : ℕ) → is_even (items offset) ≡ true
      ends : (offset : ℕ) → end_of offset (items offset) ≡ offset + length sent
      decodes :
          (offset : ℕ)
          → decode_pairs (values_of (items offset)) ≡ ok (map from_generated_req_res_message gs)

    messages-Streamed : (gs : List GeneratedReqRes) → All (Sendable p) gs → Streamed gs
    unfolding encode_req_res_message_sequence encode_req_res_message encode_pair encode_cbor
        decode_pairs decode_pair canonical
    messages-Streamed [] h = record {
      sent = [];
      items = λ offset. [];
      encodes = refl;
      finds = tail_finds;
      even = λ offset. refl;
      ends = λ offset. omega arith;
      decodes = λ offset. refl;
    }
    messages-Streamed (g ∷ gs) h =
        let later = messages-Streamed gs h.1 in
        let valued = message-Valued p g h.0 in
        let (bs, e, reads) = encode-Reads p laws (num (int (pos valued.id))) valued.id_Encodable in
        let (cs, e', reads') = encode-Reads p laws (object valued.fields) valued.fields_Encodable in
        let second = in_front (canonical (object valued.fields)) (length cs) later.items in
        record {
          sent = (bs ++ cs) ++ later.sent;
          items = in_front (num (int (pos valued.id))) (length bs) second;
          encodes = rw (to_generated-from_generated g, valued.encodes, e, e', later.encodes) refl;
          finds =
              rw (append_assoc (bs ++ cs) later.sent tail, append_assoc bs cs (later.sent ++ tail))
                (cons-Finds bs (cs ++ (later.sent ++ tail)) _ second reads
                  (cons-Finds cs (later.sent ++ tail) _ later.items reads' later.finds));
          even = λ offset. later.even _;
          ends = λ offset. omega (
            arith,
            later.ends ((offset + length bs) + length cs),
            length-append (bs ++ cs) later.sent,
            length-append bs cs,
          );
          decodes =
              λ offset. rw (valued.decodes, later.decodes ((offset + length bs) + length cs)) refl;
        }

  -- On a platform that keeps its documented laws, when a buffer holds the encodings of messages that
  -- may be sent, and behind them bytes that hold no whole item, `decodeReqResMessageSequencePrefix`
  -- returns these messages, and `readBytes` is the number of the bytes in front of the others.
  pub decode_req_res_message_sequence_prefix-append :
      Laws p
      → (tail : List ℕ) → All IsByte tail
      → decode_cbor_sequence_prefix p tail ≡ ok []
      → (gs : List GeneratedReqRes) → All (Sendable p) gs
      → (bs : List ℕ) × (encode_req_res_message_sequence p (map from_generated_req_res_message gs)
          ≡ ok bs)
        × (decode_req_res_message_sequence_prefix p (bs ++ tail)
            ≡ ok (map from_generated_req_res_message gs, length bs))
  unfolding decode_req_res_message_sequence_prefix decode_cbor_sequence_prefix
  decode_req_res_message_sequence_prefix-append laws tail ht none_whole gs h =
      let m = messages-Streamed laws tail (tail-Finds tail ht none_whole) gs h in
      let read : read_bytes_of (m.items 0) ≡ length m.sent =
        read_bytes_of-end_of (m.items 0) (m.even 0) ∙ (m.ends 0 ∙ omega arith) in
      (
        m.sent,
        m.encodes,
        rw (m.finds 0 (suc (length (m.sent ++ tail))) (omega arith), m.decodes 0, read) refl,
      )
