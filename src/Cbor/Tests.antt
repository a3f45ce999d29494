-- ===== src/Cbor/Tests.antt =====
-- Runs of the codec, and its theorems, on concrete inputs.
use whats_going_on.Prelude.{ℕ, ◌≡◌, ◌⊎◌, refl, true, List, [], ◌∷◌, ◌++◌, drop, All, arith}
use whats_going_on.Prelude.Int.{pos, negsuc}
use whats_going_on.Cbor.Value.{
  Value, int, float, null, bool, num, f64, text, array, object, nil, cons, end, entry, ok, err,
  unexpected_end,
}
use whats_going_on.Cbor.Encode.{encode_cbor}
use whats_going_on.Cbor.Decode.{decode, decode_cbor}
use whats_going_on.Cbor.Canonical.{canonical, Encodable}
use whats_going_on.Cbor.Sequence.{PrefixItem, decode_cbor_sequence, decode_cbor_sequence_prefix}
use whats_going_on.Cbor.Profile.{Profile, EnsuresValue}
use whats_going_on.Cbor.Follows.{extend}
use whats_going_on.Cbor.Incremental.{prepend, end_of}
use whats_going_on.Cbor.RoundTrip.{decode_cbor-encode_cbor}
use whats_going_on.Cbor.Resume.{shifted, decode_cbor_sequence_prefix-append}
use whats_going_on.Cbor.Totality.{decode_cbor-Profile, decode_cbor_sequence-Profile}
use whats_going_on.Cbor.Streaming.{decode-append}
use whats_going_on.Cbor.Sample.{platform, platform-Laws}

abbrev sample : Value
sample = array (
    cons (num (int (pos 1000))) (
      cons (num (int (negsuc 500))) (
        cons (object (entry (pos 7) null (entry (pos 2) (bool true) end)))
          (cons (text (0x41 ∷ [])) (cons (f64 (float 0x3ff8_0000_0000_0000)) nil)))))

abbrev sample_bytes : List ℕ
sample_bytes =
    0x85 ∷ 0x19 ∷ 0x03 ∷ 0xe8 ∷ 0x39 ∷ 0x01 ∷ 0xf4 ∷ 0xa2 ∷ 2 ∷ 0xf5 ∷ 7 ∷ 0xf6 ∷ 0x62 ∷ 0 ∷ 0x41
    ∷ 0xfb ∷ 0x3f ∷ 0xf8 ∷ 0 ∷ 0 ∷ 0 ∷ 0 ∷ 0 ∷ 0 ∷ []

sample-encoded : encode_cbor platform sample ≡ ok sample_bytes
unfolding encode_cbor
sample-encoded = refl

cut-rejected : decode_cbor platform (0x82 ∷ 0x19 ∷ 0x03 ∷ []) ≡ err unexpected_end
unfolding decode_cbor
cut-rejected = refl

sample-Encodable : Encodable platform sample
unfolding Encodable
sample-Encodable = (
  omega arith,
  (
    refl,
    (
      refl,
      (
        (omega arith, (refl, refl, tt, (refl, refl, tt, tt))),
        ((refl, omega arith), ((refl, refl), tt)),
      ),
    ),
  ),
)

decode_cbor-encode_cbor_example :
    (bs : List ℕ) × (encode_cbor platform sample ≡ ok bs)
    × (decode_cbor platform bs ≡ ok (canonical sample))
decode_cbor-encode_cbor_example =
    decode_cbor-encode_cbor platform platform-Laws sample sample-Encodable

-- A whole item, and one that is cut behind its initial byte.
abbrev first_bytes : List ℕ
first_bytes = 5 ∷ 0x19 ∷ []

abbrev later_bytes : List ℕ
later_bytes = 3 ∷ 0xe8 ∷ 0xf6 ∷ []

abbrev first_items : List PrefixItem
first_items = record { value = num (int (pos 5)); end_offset = 1 } ∷ []

decode_cbor_sequence_prefix-append_example :
    decode_cbor_sequence_prefix platform (first_bytes ++ later_bytes)
    ≡ prepend first_items (
        shifted (end_of 0 first_items) (
          decode_cbor_sequence_prefix platform
            (drop (end_of 0 first_items) first_bytes ++ later_bytes)))
unfolding decode_cbor_sequence_prefix
decode_cbor_sequence_prefix-append_example =
    decode_cbor_sequence_prefix-append platform first_bytes later_bytes first_items
      (omega arith, (omega arith, tt)) (omega arith, (omega arith, (omega arith, tt))) refl

decode_cbor-Profile_example : EnsuresValue Profile (decode_cbor platform first_bytes)
decode_cbor-Profile_example =
    decode_cbor-Profile platform first_bytes (omega arith, (omega arith, tt))

decode_cbor_sequence-Profile_example :
    EnsuresValue (All Profile) (decode_cbor_sequence platform first_bytes)
decode_cbor_sequence-Profile_example =
    decode_cbor_sequence-Profile platform first_bytes (omega arith, (omega arith, tt))

decode-append_example :
    (decode platform 3 (0x19 ∷ 3 ∷ []) ≡ err unexpected_end)
    ⊎ (decode platform 3 ((0x19 ∷ 3 ∷ []) ++ (0xe8 ∷ []))
        ≡ extend (0xe8 ∷ []) (decode platform 3 (0x19 ∷ 3 ∷ [])))
decode-append_example = decode-append platform 3 (0x19 ∷ 3 ∷ []) (0xe8 ∷ [])
