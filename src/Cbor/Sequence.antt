-- ===== src/Cbor/Sequence.antt =====
-- web/src/protocol/cbor.ts: `decodeCborSequence` and `decodeCborSequencePrefix`.
use whats_going_on.Prelude.{
  ℕ, zero, suc, ◌+◌, ◌-◌, Bool, true, false, List, [], ◌∷◌, length, if◌then◌else◌,
}
use whats_going_on.Cbor.Value.{
  Value, Error, Result, ok, err, ◌>>=◌, Platform, unexpected_end, out_of_fuel,
}
use whats_going_on.Cbor.Decode.{decode}

-- The loop of `decodeCborSequence`; fuel above the bytes left is enough for it and for `decode`.
unfoldable pub sequence_loop : Platform → ℕ → List ℕ → Result (List Value)
unfolding decode
sequence_loop p zero bs = err out_of_fuel
sequence_loop p (suc f) [] = ok []
sequence_loop p (suc f) (b ∷ bs) = do
  (value, rest) ← decode p (suc f) (b ∷ bs)
  values ← sequence_loop p f rest
  ok (value ∷ values)

unfoldable pub decode_cbor_sequence : Platform → List ℕ → Result (List Value)
unfolding sequence_loop
decode_cbor_sequence p bs = sequence_loop p (suc (length bs)) bs

-- `CborSequencePrefixItem`.
pub record PrefixItem : Type 0 where
  pub value : Value
  pub end_offset : ℕ

-- The test of the `catch`.
abbrev pub is_unexpected_end : Error → Bool
is_unexpected_end unexpected_end = true
is_unexpected_end _ = false

-- The body of the loop of `decodeCborSequencePrefix` on what `decode` returned or threw, with the
-- rest of the loop, `state.offset` and the number of bytes from there on.
unfoldable pub prefix_item :
    (ℕ → List ℕ → Result (List PrefixItem))
    → ℕ
    → ℕ
    → Result (Value × List ℕ)
    → Result (List PrefixItem)
prefix_item loop offset len (ok (value, rest)) =
    let end_offset = offset + (len - length rest) in
    loop end_offset rest >>= λ items. ok (record { value = value; end_offset = end_offset } ∷ items)
prefix_item loop offset len (err e) = if is_unexpected_end e then ok [] else err e

unfoldable pub prefix_loop : Platform → ℕ → ℕ → List ℕ → Result (List PrefixItem)
unfolding decode prefix_item
prefix_loop p zero offset bs = err out_of_fuel
prefix_loop p (suc f) offset [] = ok []
prefix_loop p (suc f) offset (b ∷ bs) =
    prefix_item (prefix_loop p f) offset (length (b ∷ bs)) (decode p (suc f) (b ∷ bs))

unfoldable pub decode_cbor_sequence_prefix : Platform → List ℕ → Result (List PrefixItem)
unfolding prefix_loop
decode_cbor_sequence_prefix p bs = prefix_loop p (suc (length bs)) 0 bs
