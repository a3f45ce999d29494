-- ===== src/Cbor/Decode.antt =====
-- web/src/protocol/cbor.ts: `decodeCbor` and its readers. A reader takes the bytes from
-- `state.offset` on, and returns its value with the bytes that are left.
use whats_going_on.Prelude.{
  ℕ, zero, suc, ◌+◌, ◌*◌, ◌/◌, ◌%◌, Bool, true, false, ◌||◌, none, some, List, [], ◌∷◌, length,
  take, drop, ltb, leb, ◌==◌, if◌then◌else◌,
}
use whats_going_on.Prelude.Int.{ℤ, pos, negsuc, ◌==ℤ◌}
use whats_going_on.Cbor.Value.{
  Number, int, Value, null, bool, num, f64, text, bytes, array, object, Items, nil, cons, Entries,
  end, entry, Result, ok, err, ◌>>=◌, max_safe_cbor_integer, max_safe_negative_argument,
  max_safe_u64_high, two_32, is_finite, Platform, unexpected_end, trailing_bytes,
  outside_safe_range, expected_finite_f64, expected_map_key, duplicate_map_key, unsupported_value,
  unsupported_length, invalid_utf8, invalid_array_length, out_of_fuel,
}
use whats_going_on.Cbor.Encode.{is_key}

abbrev pub Reader : Type 0 → Type 0
Reader A = List ℕ → Result (A × List ℕ)

unfoldable pub read : Reader ℕ
read [] = err unexpected_end
read (b ∷ rest) = ok (b, rest)

unfoldable pub read_bytes : ℕ → Reader (List ℕ)
read_bytes len bs =
    if ltb (length bs) len then err unexpected_end else ok (take len bs, drop len bs)

-- The loop of `readFixedUint` from the value read so far.
unfoldable pub fixed_uint_loop : ℕ → ℕ → Reader ℕ
unfolding read
fixed_uint_loop zero value bs = ok (value, bs)
fixed_uint_loop (suc len) value bs = do
  (b, rest) ← read bs
  fixed_uint_loop len (value * 256 + b) rest

unfoldable pub read_fixed_uint : ℕ → Reader ℕ
unfolding fixed_uint_loop
read_fixed_uint len = fixed_uint_loop len 0

unfoldable pub safe_unsigned : ℕ → Result ℕ
safe_unsigned value = if ltb max_safe_cbor_integer value then err outside_safe_range else ok value

unfoldable pub read_u64_as_u53 : Reader ℕ
unfolding read_fixed_uint safe_unsigned
read_u64_as_u53 bs = do
  (high, bs₁) ← read_fixed_uint 4 bs
  (low, bs₂) ← read_fixed_uint 4 bs₁
  if ltb max_safe_u64_high high
      then err outside_safe_range
      else (do value ← safe_unsigned (high * two_32 + low); ok (value, bs₂))

unfoldable pub read_arg : ℕ → Reader ℕ
unfolding read read_fixed_uint read_u64_as_u53
read_arg additional bs =
    if ltb additional 24
    then ok (additional, bs)
    else if additional == 24
    then read bs
    else if additional == 25
    then read_fixed_uint 2 bs
    else if additional == 26
    then read_fixed_uint 4 bs
    else if additional == 27
    then read_u64_as_u53 bs
    else err unsupported_length

unfoldable pub read_negative_arg : ℕ → Reader ℕ
unfolding read_arg
read_negative_arg additional bs = do
  (value, rest) ← read_arg additional bs
  if ltb max_safe_negative_argument value then err outside_safe_range else ok (value, rest)

-- `cborF64`.
unfoldable pub cbor_f64 : Number → Result Value
cbor_f64 x = if is_finite x then ok (f64 x) else err expected_finite_f64

-- `Map.has`, and `Map.set`, which keeps the place of a key that is there.
abbrev pub has : Entries → ℤ → Bool
has end k = false
has (entry j v es) k = (j ==ℤ k) || has es k

abbrev pub set : Entries → ℤ → Value → Entries
set end k v = entry k v end
set (entry j w es) k v = if j ==ℤ k then entry j v es else entry j w (set es k v)

-- The test on a decoded key.
unfoldable pub map_key : Value → Result ℤ
map_key (num (int z)) = if is_key z then ok z else err expected_map_key
map_key _ = err expected_map_key

-- `Array.from({ length: len }, () => decode(bytes, state))` and the loop over a map's entries, over
-- the `decode` of the items.
unfoldable pub decode_items : Reader Value → ℕ → Reader Items
decode_items dec zero bs = ok (nil, bs)
decode_items dec (suc n) bs = do
  (v, rest) ← dec bs
  (vs, rest') ← decode_items dec n rest
  ok (cons v vs, rest')

unfoldable pub decode_entries : Reader Value → ℕ → Entries → Reader Entries
unfolding map_key
decode_entries dec zero map bs = ok (map, bs)
decode_entries dec (suc n) map bs = do
  (k, bs₁) ← dec bs
  key ← map_key k
  if has map key
      then err duplicate_map_key
      else (do (v, bs₂) ← dec bs₁; decode_entries dec n (set map key v) bs₂)

unfoldable pub decode_text : Platform → List ℕ → Result Value
decode_text p payload = elim (p.decode_utf8 payload) [
  | none ↦ err invalid_utf8
  | some s ↦ ok (text s)
]

unfoldable pub decode_float64 : Platform → Reader Value
unfolding read_bytes cbor_f64
decode_float64 p bs = do
  (payload, rest) ← read_bytes 8 bs
  v ← cbor_f64 (p.get_float64 payload)
  ok (v, rest)

unfoldable pub decode_simple : Platform → ℕ → Reader Value
unfolding decode_float64
decode_simple p additional bs =
    if additional == 20
    then ok (bool false, bs)
    else if additional == 21
    then ok (bool true, bs)
    else if additional == 22
    then ok (null, bs)
    else if additional == 27
    then decode_float64 p bs
    else err unsupported_value

-- The branches of `decode` by major type, over the `decode` of the items. The largest length of an
-- array is 2^32 - 1.
unfoldable pub decode_body : Platform → Reader Value → ℕ → ℕ → Reader Value
unfolding read_arg read_negative_arg read_bytes decode_text decode_items decode_entries
    decode_simple
decode_body p dec major additional bs =
    if major == 0
    then (do (value, rest) ← read_arg additional bs; ok (num (int (pos value)), rest))
    else if major == 1
    then (do (value, rest) ← read_negative_arg additional bs; ok (num (int (negsuc value)), rest))
    else if major == 2
    then (do
      (len, bs₁) ← read_arg additional bs
      (payload, rest) ← read_bytes len bs₁
      ok (bytes payload, rest))
    else if major == 3
    then (do
      (len, bs₁) ← read_arg additional bs
      (payload, rest) ← read_bytes len bs₁
      v ← decode_text p payload
      ok (v, rest))
    else if major == 4
    then (do
      (len, bs₁) ← read_arg additional bs
      if leb two_32 len
          then err invalid_array_length
          else (do (vs, rest) ← decode_items dec len bs₁; ok (array vs, rest)))
    else if major == 5
    then (do
      (len, bs₁) ← read_arg additional bs
      (es, rest) ← decode_entries dec len end bs₁
      ok (object es, rest))
    else if major == 7
    then decode_simple p additional bs
    else err unsupported_value

-- `decode`. Fuel bounds how deep arrays and maps are nested, each of which takes a byte at least.
unfoldable pub decode : Platform → ℕ → Reader Value
unfolding read decode_body
decode p zero bs = err out_of_fuel
decode p (suc f) bs = do
  (initial, rest) ← read bs
  decode_body p (decode p f) (initial / 32) (initial % 32) rest

-- `decodeCbor`.
unfoldable pub decode_cbor : Platform → List ℕ → Result Value
unfolding decode
decode_cbor p bs = do
  (value, rest) ← decode p (suc (length bs)) bs
  if length rest == 0 then ok value else err trailing_bytes
