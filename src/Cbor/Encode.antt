-- ===== src/Cbor/Encode.antt =====
-- web/src/protocol/cbor.ts: `encodeCbor`. The chunks that a call pushes are its result; a thrown
-- error discards them.
use whats_going_on.Prelude.{
  ℕ, zero, suc, ◌+◌, ◌*◌, ◌/◌, ◌%◌, Bool, false, List, [], ◌∷◌, ◌++◌, length, ltb, leb,
  if◌then◌else◌,
}
use whats_going_on.Prelude.Int.{ℤ, pos, negsuc, ltbℤ}
use whats_going_on.Cbor.Value.{
  Number, int, float, Value, null, bool, num, f64, text, bytes, array, object, Items, nil, cons,
  Entries, end, entry, Result, ok, err, ◌>>=◌, max_safe_cbor_integer, is_safe_integer, is_finite,
  Platform, expected_unsigned, outside_safe_range, non_finite_number, expected_map_key,
}

-- `be`: the loop fills the array from its last place.
unfoldable pub be : ℕ → ℕ → List ℕ
be value zero = []
be value (suc len) = be (value / 256) len ++ (value % 256) ∷ []

-- `encodeTypeValue`. `prefix | value` is `prefix + value`: the prefix has no bit below 32.
unfoldable pub encode_type_value : ℕ → ℕ → Result (List ℕ)
unfolding be
encode_type_value major value =
    let prefix = major * 32 in
    if ltb max_safe_cbor_integer value
    then err expected_unsigned
    else if ltb value 24
    then ok ((prefix + value) ∷ [])
    else if leb value 0xff
    then ok ((prefix + 24) ∷ value ∷ [])
    else if leb value 0xffff
    then ok ((prefix + 25) ∷ (value / 256) ∷ (value % 256) ∷ [])
    else if leb value 0xffff_ffff
    then ok ((prefix + 26) ∷ be value 4)
    else ok ((prefix + 27) ∷ be value 8)

module _ (p : Platform) where
  unfoldable pub encode_float64 : Number → List ℕ
  encode_float64 x = 0xfb ∷ p.set_float64 x

-- The branch of `encode` on a number. `-1 - value` of -(n + 1) is n.
unfoldable pub encode_integer : ℤ → Result (List ℕ)
unfolding encode_type_value
encode_integer (pos n) = encode_type_value 0 n
encode_integer (negsuc n) = encode_type_value 1 n

unfoldable pub encode_number : Platform → Number → Result (List ℕ)
unfolding encode_integer encode_float64
encode_number p (int z) = if is_safe_integer z then encode_integer z else err outside_safe_range
encode_number p (float bits) =
    if is_finite (float bits) then ok (encode_float64 p (float bits)) else err non_finite_number

abbrev pub length_items : Items → ℕ
length_items nil = 0
length_items (cons v vs) = suc (length_items vs)

abbrev pub length_entries : Entries → ℕ
length_entries end = 0
length_entries (entry k v es) = suc (length_entries es)

-- The map keys: `!Number.isSafeInteger(key) || key < 0`.
abbrev pub is_key : ℤ → Bool
is_key (pos n) = is_safe_integer (pos n)
is_key (negsuc n) = false

-- `sort(([a], [b]) => a - b)`, which is stable.
module _ {ℓ} {A : Type ℓ} where
  abbrev pub insert_by_key : ℤ → A → List (ℤ × A) → List (ℤ × A)
  insert_by_key k a [] = (k, a) ∷ []
  insert_by_key k a ((j, b) ∷ rest) =
      if ltbℤ j k then (j, b) ∷ insert_by_key k a rest else (k, a) ∷ (j, b) ∷ rest

  abbrev pub sort_by_key : List (ℤ × A) → List (ℤ × A)
  sort_by_key [] = []
  sort_by_key ((k, a) ∷ rest) = insert_by_key k a (sort_by_key rest)

-- The loop over the sorted entries; each item comes with its own encoding, read in its turn.
unfoldable pub write_entries : List (ℤ × Result (List ℕ)) → Result (List ℕ)
unfolding encode_integer
write_entries [] = ok []
write_entries ((key, item) ∷ rest) =
    if is_key key
    then (do k ← encode_integer key; v ← item; vs ← write_entries rest; ok (k ++ (v ++ vs)))
    else err expected_map_key

-- `encode`.
unfoldable mutual
  unfolding encode_number encode_float64 encode_type_value write_entries

  pub encode : Platform → Value → Result (List ℕ)
  encode p null = ok (0xf6 ∷ [])
  encode p (bool b) = ok ((if b then 0xf5 else 0xf4) ∷ [])
  encode p (num n) = encode_number p n
  encode p (f64 n) = ok (encode_float64 p n)
  encode p (text s) = do
    let payload = p.encode_utf8 s
    head ← encode_type_value 3 (length payload)
    ok (head ++ payload)
  encode p (bytes bs) = do head ← encode_type_value 2 (length bs); ok (head ++ bs)
  encode p (array vs) = do
    head ← encode_type_value 4 (length_items vs)
    body ← encode_items p vs
    ok (head ++ body)
  encode p (object es) = do
    head ← encode_type_value 5 (length_entries es)
    body ← write_entries (sort_by_key (encode_entries p es))
    ok (head ++ body)

  pub encode_items : Platform → Items → Result (List ℕ)
  encode_items p nil = ok []
  encode_items p (cons v vs) = do x ← encode p v; xs ← encode_items p vs; ok (x ++ xs)

  pub encode_entries : Platform → Entries → List (ℤ × Result (List ℕ))
  encode_entries p end = []
  encode_entries p (entry k v es) = (k, encode p v) ∷ encode_entries p es

-- `encodeCbor`.
unfoldable pub encode_cbor : Platform → Value → Result (List ℕ)
unfolding encode
encode_cbor p value = encode p value
