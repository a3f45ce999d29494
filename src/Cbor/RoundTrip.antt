-- ===== src/Cbor/RoundTrip.antt =====
-- web/src/protocol/cbor.ts: `encodeCbor` and `decodeCbor` against one another.
use whats_going_on.Prelude.{ℕ, suc, ◌≡◌, refl, List, [], append-nil, arith, length}
use whats_going_on.Prelude.Int.{ℤ}
use whats_going_on.Cbor.Value.{
  int, float, Value, null, bool, num, f64, text, bytes, array, object, Items, nil, cons, Entries,
  end, entry, ok, Platform, Laws,
}
use whats_going_on.Cbor.Encode.{encode, encode_number, encode_items, encode_entries, encode_cbor}
use whats_going_on.Cbor.Decode.{has, decode, decode_cbor}
use whats_going_on.Cbor.Canonical.{
  canonical, canonical_items, canonical_entries, Encodable, EncodableItems, EncodableEntries,
}
use whats_going_on.Cbor.Sorting.{has_key, Distinct, Matched}
use whats_going_on.Cbor.Reads.{
  Reads, null-Reads, bool-Reads, integer-Reads, bytes-Reads, text-Reads, float-Reads,
}
use whats_going_on.Cbor.Containers.{
  ReadsItems, ReadsEntry, nil-ReadsItems, cons-ReadsItems, array-Reads, object-Reads,
}

has_key-canonical : (es : Entries) (k : ℤ) → has_key k (canonical_entries es) ≡ has es k
unfolding canonical
has_key-canonical end k = refl
has_key-canonical (entry j v es) k = ground (arith, has_key-canonical es k)

canonical-Distinct :
    (p : Platform) (es : Entries) → EncodableEntries p es → Distinct (canonical_entries es)
unfolding canonical Encodable
canonical-Distinct p end h = tt
canonical-Distinct p (entry k v es) h =
    (rw (has_key-canonical es k) h.1, canonical-Distinct p es h.3)

mutual
  unfolding encode_number encode encode_items encode_entries canonical canonical_items
      canonical_entries Encodable EncodableItems EncodableEntries

  value-Reads :
      (p : Platform) (laws : Laws p) (v : Value)
      → Encodable p v
      → Reads p (encode p v) (canonical v)
  value-Reads p laws null h = null-Reads p
  value-Reads p laws (bool b) h = bool-Reads p b
  value-Reads p laws (num (int z)) h = rw h (integer-Reads p z h)
  value-Reads p laws (num (float b)) h = rw h.0 (float-Reads p laws (float b) h)
  value-Reads p laws (f64 x) h = float-Reads p laws x h
  value-Reads p laws (text s) h = text-Reads p laws s h.0 h.1
  value-Reads p laws (bytes bs) h = bytes-Reads p bs h.1
  value-Reads p laws (array vs) h =
      array-Reads p vs (canonical_items vs) h.0 (items-Reads p laws vs h.1)
  value-Reads p laws (object es) h =
      object-Reads p es (canonical_entries es) h.0 (canonical-Distinct p es h.1)
        (entries-Reads p laws es h.1)

  items-Reads :
      (p : Platform) (laws : Laws p) (vs : Items)
      → EncodableItems p vs
      → ReadsItems p vs (canonical_items vs)
  items-Reads p laws nil h = nil-ReadsItems p
  items-Reads p laws (cons v vs) h =
      cons-ReadsItems p v (canonical v) vs (canonical_items vs) (value-Reads p laws v h.0)
        (items-Reads p laws vs h.1)

  entries-Reads :
      (p : Platform) (laws : Laws p) (es : Entries)
      → EncodableEntries p es
      → Matched (ReadsEntry p) (encode_entries p es) (canonical_entries es)
  entries-Reads p laws end h = tt
  entries-Reads p laws (entry k v es) h =
      (refl, (h.0, value-Reads p laws v h.2), entries-Reads p laws es h.3)

-- Every admitted value is encoded, and from its encoding, whatever follows, `decode` reads its
-- canonical form and stops at the encoding's end.
pub encode-Reads :
    (p : Platform) → Laws p → (v : Value) → Encodable p v → Reads p (encode p v) (canonical v)
encode-Reads p laws v h = value-Reads p laws v h

-- On a platform that keeps its documented laws, every admitted value is encoded, and what it is
-- encoded to is decoded to its canonical form.
pub decode_cbor-encode_cbor :
    (p : Platform)
    → Laws p
    → (v : Value) → Encodable p v
    → (bs : List ℕ) × (encode_cbor p v ≡ ok bs) × (decode_cbor p bs ≡ ok (canonical v))
unfolding encode_cbor decode_cbor
decode_cbor-encode_cbor p laws v h =
    let (bs, e, reads) = encode-Reads p laws v h in
    let whole : decode p (suc (length bs)) bs ≡ ok (canonical v, []) =
      rw append-nil at (reads (suc (length bs)) [] (omega arith)) in
    (bs, e, rw whole)
