-- ===== src/Cbor/Canonical.antt =====
-- web/src/protocol/cbor.ts: what comes back of a value that was written and read, and the values
-- for which it does.
use whats_going_on.Prelude.{◌≤◌, ◌<◌, ◌≡◌, true, false, List, [], ◌∷◌, length, All}
use whats_going_on.Prelude.Int.{ℤ}
use whats_going_on.Cbor.Value.{
  Number, int, float, Value, null, bool, num, f64, text, bytes, array, object, Items, nil, cons,
  Entries, end, entry, Platform, IsByte, is_safe_integer, is_finite, is_well_formed, strip_bom,
  max_safe_cbor_integer, two_32,
}
use whats_going_on.Cbor.Encode.{length_items, length_entries, is_key, sort_by_key}
use whats_going_on.Cbor.Decode.{has}

abbrev pub of_list : List (ℤ × Value) → Entries
of_list [] = end
of_list ((k, v) ∷ rest) = entry k v (of_list rest)

-- A number that is no integer comes back wrapped as `CborF64`, a text without a leading byte order
-- mark, and a map with its entries in the order of their keys.
unfoldable mutual
  pub canonical : Value → Value
  canonical null = null
  canonical (bool b) = bool b
  canonical (num (int z)) = num (int z)
  canonical (num (float bits)) = f64 (float bits)
  canonical (f64 x) = f64 x
  canonical (text s) = text (strip_bom s)
  canonical (bytes bs) = bytes bs
  canonical (array vs) = array (canonical_items vs)
  canonical (object es) = object (of_list (sort_by_key (canonical_entries es)))

  pub canonical_items : Items → Items
  canonical_items nil = nil
  canonical_items (cons v vs) = cons (canonical v) (canonical_items vs)

  pub canonical_entries : Entries → List (ℤ × Value)
  canonical_entries end = []
  canonical_entries (entry k v es) = (k, canonical v) ∷ canonical_entries es

-- A double that is finite.
abbrev pub IsFiniteDouble : Platform → Number → Type 0
IsFiniteDouble p x = (is_finite x ≡ true) × (p.is_double x ≡ true)

-- The values that the profile admits: safe integers, finite floats, well-formed text, bytes, lengths
-- that JavaScript has, and maps with distinct safe unsigned keys.
unfoldable mutual
  pub Encodable : Platform → Value → Type 0
  Encodable p null = Unit
  Encodable p (bool b) = Unit
  Encodable p (num (int z)) = is_safe_integer z ≡ true
  Encodable p (num (float bits)) = IsFiniteDouble p (float bits)
  Encodable p (f64 x) = IsFiniteDouble p x
  Encodable p (text s) =
      (is_well_formed s ≡ true) × (length (p.encode_utf8 s) ≤ max_safe_cbor_integer)
  Encodable p (bytes bs) = All IsByte bs × (length bs ≤ max_safe_cbor_integer)
  Encodable p (array vs) = (length_items vs < two_32) × EncodableItems p vs
  Encodable p (object es) = (length_entries es ≤ max_safe_cbor_integer) × EncodableEntries p es

  pub EncodableItems : Platform → Items → Type 0
  EncodableItems p nil = Unit
  EncodableItems p (cons v vs) = Encodable p v × EncodableItems p vs

  pub EncodableEntries : Platform → Entries → Type 0
  EncodableEntries p end = Unit
  EncodableEntries p (entry k v es) =
      (is_key k ≡ true) × (has es k ≡ false) × Encodable p v × EncodableEntries p es
