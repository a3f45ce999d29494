-- ===== src/Cbor/Value.antt =====
-- web/src/protocol/cbor.ts, lines 1-19: the values, the errors that the codec throws, and the
-- parts of the JavaScript platform that it calls.
use Prim.Native.Nat.{ℕ, ◌/◌, ◌%◌, ◌^◌, ◌<◌}
use whats_going_on.Prelude.{
  ◌≡◌, Bool, true, not, ◌&&◌, List, [], ◌∷◌, Option, some, All, length, ltb, leb, ◌==◌,
  if◌then◌else◌,
}
use whats_going_on.Prelude.Int.{ℤ, pos, negsuc}

-- A JavaScript number: one whose value is an integer (-0 is read as 0), or any other, named by its
-- IEEE 754 bit pattern.
pub data Number : Type 0 where
  int : ℤ → Number
  float : ℕ → Number

-- `CborValue`. A byte is a number below 256, a text the list of its UTF-16 code units, and a `Map`
-- the list of its entries in insertion order. `Items` and `Entries` are the lists of an array and
-- of a map; the keys are integers.
mutual
  pub data Value : Type 0 where
    null : Value
    bool : Bool → Value
    num : Number → Value
    f64 : Number → Value
    text : List ℕ → Value
    bytes : List ℕ → Value
    array : Items → Value
    object : Entries → Value

  pub data Items : Type 0 where
    nil : Items
    cons : Value → Items → Items

  pub data Entries : Type 0 where
    end : Entries
    entry : ℤ → Value → Entries → Entries

-- The `Error`s that the codec throws, the `TypeError` of a fatal `TextDecoder`, and the
-- `RangeError` of `Array.from` on a length that no array has; then those of the messages in
-- wire.ts and generated/wire.ts. `out_of_fuel` is the model's own.
pub data Error : Type 0 where
  unexpected_end trailing_bytes outside_safe_range non_finite_number expected_finite_f64 : Error
  expected_map_key duplicate_map_key expected_unsigned : Error
  unsupported_value unsupported_length : Error
  invalid_utf8 invalid_array_length : Error
  missing_field expected_map expected_union expected_integer expected_text expected_bytes : Error
  expected_u53 unknown_variant expected_message_pair expected_message_pairs : Error
  out_of_fuel : Error

pub data Result {ℓ} (A : Type ℓ) : Type ℓ where
  ok : A → Result A
  err : Error → Result A

infixl 5 ◌>>=◌
abbrev pub ◌>>=◌ {ℓ κ} : {A : Type ℓ} {B : Type κ} → Result A → (A → Result B) → Result B
ok a >>= f = f a
err e >>= f = err e

-- `Number.MAX_SAFE_INTEGER` and the other bounds.
abbrev pub max_safe_cbor_integer : ℕ
max_safe_cbor_integer = 0x1f_ffff_ffff_ffff

abbrev pub max_safe_negative_argument : ℕ
max_safe_negative_argument = 0x1f_ffff_ffff_fffe

abbrev pub two_32 : ℕ
two_32 = 0x1_0000_0000

abbrev pub max_safe_u64_high : ℕ
max_safe_u64_high = 0x1f_ffff

-- `Number.isSafeInteger` of an integer.
abbrev pub is_safe_integer : ℤ → Bool
is_safe_integer (pos n) = leb n max_safe_cbor_integer
is_safe_integer (negsuc n) = ltb n max_safe_cbor_integer

-- `Number.isFinite`: the exponent field is not all ones.
abbrev pub is_finite : Number → Bool
is_finite (int z) = true
is_finite (float bits) = not ((bits / 2 ^ 52) % 2 ^ 11 == 0x7ff)

-- What the codec calls of the platform: `DataView`'s big-endian `setFloat64` and `getFloat64`, and
-- `TextEncoder` and a fatal `TextDecoder` (`none` is its `TypeError`). `is_double` tells the
-- numbers that exist.
pub record Platform : Type 0 where
  pub is_double : Number → Bool
  pub set_float64 : Number → List ℕ
  pub get_float64 : List ℕ → Number
  pub encode_utf8 : List ℕ → List ℕ
  pub decode_utf8 : List ℕ → Option (List ℕ)

-- `String.prototype.isWellFormed`: every surrogate stands in a pair.
abbrev pub is_high : ℕ → Bool
is_high u = leb 0xd800 u && ltb u 0xdc00

abbrev pub is_low : ℕ → Bool
is_low u = leb 0xdc00 u && ltb u 0xe000

abbrev pub is_well_formed : List ℕ → Bool
is_well_formed [] = true
is_well_formed (u ∷ []) = ltb u 0x1_0000 && not (is_high u) && not (is_low u)
is_well_formed (u ∷ v ∷ rest) =
    if is_high u
    then is_low v && is_well_formed rest
    else ltb u 0x1_0000 && not (is_low u) && is_well_formed (v ∷ rest)

-- A `TextDecoder` drops one leading byte order mark.
abbrev pub strip_bom : List ℕ → List ℕ
strip_bom [] = []
strip_bom (u ∷ rest) = if u == 0xfeff then rest else u ∷ rest

abbrev pub IsByte : ℕ → Type 0
IsByte b = b < 256

-- The documented behaviour of the platform that the codec relies on.
pub record Laws (p : Platform) : Type 0 where
  pub length-set_float64 : (x : Number) → length (p.set_float64 x) ≡ 8
  pub set_float64-IsByte : (x : Number) → p.is_double x ≡ true → All IsByte (p.set_float64 x)
  pub get-set_float64 : (x : Number) → p.is_double x ≡ true → p.get_float64 (p.set_float64 x) ≡ x
  pub encode_utf8-IsByte : (s : List ℕ) → is_well_formed s ≡ true → All IsByte (p.encode_utf8 s)
  pub decode-encode_utf8 :
      (s : List ℕ) → is_well_formed s ≡ true → p.decode_utf8 (p.encode_utf8 s) ≡ some (strip_bom s)
