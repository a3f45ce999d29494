-- ===== src/Cbor/Containers.antt =====
-- web/src/protocol/cbor.ts: arrays and maps that `decode` reads back, given that it reads
-- back what they hold.
use whats_going_on.Prelude.{
  ℕ, suc, ◌≤◌, ◌<◌, ◌≡◌, refl, sym, ap, ◌∙◌, true, false, ◌||◌, List, [], ◌∷◌, ◌++◌, append_assoc,
  arith, length, length-append, leb,
}
use whats_going_on.Prelude.Int.{ℤ, pos, negsuc, ◌==ℤ◌, ==ℤ_iff}
use whats_going_on.Cbor.Value.{
  int, Value, num, array, object, Items, nil, cons, Entries, end, entry, Result, ok, Platform,
  two_32, max_safe_cbor_integer,
}
use whats_going_on.Cbor.Encode.{
  encode, encode_integer, encode_items, encode_entries, write_entries, is_key, sort_by_key,
  length_items, length_entries,
}
use whats_going_on.Cbor.Decode.{
  has, set, map_key, decode, decode_items, decode_entries, decode_body,
}
use whats_going_on.Cbor.Canonical.{of_list}
use whats_going_on.Cbor.Sorting.{
  has_key, Distinct, sort-Distinct, length-sort, Matched, sort-Matched,
}
use whats_going_on.Cbor.Head.{head}
use whats_going_on.Cbor.Reads.{Reads, Reads-intro, integer-Reads}

-- The same of the items of an array.
abbrev pub ReadsItems : Platform → Items → Items → Type 0
ReadsItems p vs ws =
    (bs : List ℕ) × (encode_items p vs ≡ ok bs)
    × ((f : ℕ) (rest : List ℕ)
        → length bs ≤ f
        → decode_items (decode p f) (length_items vs) (bs ++ rest) ≡ ok (ws, rest))

pub nil-ReadsItems : (p : Platform) → ReadsItems p nil nil
unfolding encode_items decode_items
nil-ReadsItems p = ([], refl, λ f rest h. refl)

pub cons-ReadsItems :
    (p : Platform) (v w : Value) (vs ws : Items)
    → Reads p (encode p v) w
    → ReadsItems p vs ws
    → ReadsItems p (cons v vs) (cons w ws)
unfolding encode_items decode_items
cons-ReadsItems p v w vs ws (x, ex, rx) (xs, exs, rxs) = (
  x ++ xs,
  rw (ex, exs),
  λ f rest h. rw (
    append_assoc x xs rest,
    rx f (xs ++ rest) (omega (arith, length-append x xs)),
    rxs f rest (omega (arith, length-append x xs)),
  ),
)

pub array-Reads :
    (p : Platform) (vs ws : Items)
    → length_items vs < two_32
    → ReadsItems p vs ws
    → Reads p (encode p (array vs)) (array ws)
unfolding encode decode_body
array-Reads p vs ws h (xs, exs, rxs) =
    let (initial, tail, e, major, reads) = head 4 (length_items vs) (omega arith) in
    Reads-intro p initial (tail ++ xs) _ (rw (e, exs)) (λ f rest k. rw (
      major,
      append_assoc tail xs rest,
      reads (xs ++ rest),
      le→leb (length_items vs) h,
      rxs f rest (omega (arith, length-append tail xs)),
    ))
  where
    le→leb : (n : ℕ) → n < two_32 → leb two_32 n ≡ false
    le→leb n k = ground arith

-- What `decode_entries` builds: each entry set in its turn.
abbrev set_all : Entries → List (ℤ × Value) → Entries
set_all map [] = map
set_all map ((k, v) ∷ rest) = set_all (set map k v) rest

-- No key of the list is in the map.
abbrev Unseen : Entries → List (ℤ × Value) → Type 0
Unseen map [] = Unit
Unseen map ((k, v) ∷ rest) = (has map k ≡ false) × Unseen map rest

pub has-set : (map : Entries) (j k : ℤ) (v : Value) → has (set map k v) j ≡ ((k ==ℤ j) || has map j)
has-set end j k v = refl
has-set (entry i w map) j k v = ground (arith, has-set map j k v, ==ℤ_iff i k)

set-Unseen :
    (map : Entries) (k : ℤ) (v : Value) (xs : List (ℤ × Value))
    → has_key k xs ≡ false
    → Unseen map xs
    → Unseen (set map k v) xs
set-Unseen map k v [] h u = tt
set-Unseen map k v ((j, w) ∷ xs) h u = (
  ground (arith, has-set map j k v, ==ℤ_iff j k, ==ℤ_iff k j),
  set-Unseen map k v xs (ground arith) u.1,
)

abbrev pub ReadsEntry : Platform → ℤ → Result (List ℕ) → Value → Type 0
ReadsEntry p k r v = (is_key k ≡ true) × Reads p r v

key-Reads : (p : Platform) (k : ℤ) → is_key k ≡ true → Reads p (encode_integer k) (num (int k))
key-Reads p (pos n) h = integer-Reads p (pos n) h
key-Reads p (negsuc n) h = cc

abbrev ReadsEntries : Platform → List (ℤ × Result (List ℕ)) → List (ℤ × Value) → Type 0
ReadsEntries p xs ys =
    (bs : List ℕ) × (write_entries xs ≡ ok bs)
    × ((f : ℕ) (map : Entries) (rest : List ℕ)
        → length bs ≤ f
        → Distinct ys
        → Unseen map ys
        → decode_entries (decode p f) (length ys) map (bs ++ rest) ≡ ok (set_all map ys, rest))

Matched-ReadsEntries :
    (p : Platform) (xs : List (ℤ × Result (List ℕ))) (ys : List (ℤ × Value))
    → Matched (ReadsEntry p) xs ys
    → ReadsEntries p xs ys
unfolding write_entries decode_entries map_key
Matched-ReadsEntries p [] [] m = ([], refl, λ f map rest h d u. refl)
Matched-ReadsEntries p ((j, r) ∷ xs) ((k, v) ∷ ys) (e, (ok_key, (x, ex, rx)), m) =
    let (key, ekey, rkey) = key-Reads p j ok_key in
    let (bs, ebs, rbs) = Matched-ReadsEntries p xs ys m in
    (
      key ++ (x ++ bs),
      rw (ok_key, ekey, ex, ebs),
      λ f map rest h d u.
          rw
            (
              append_assoc key (x ++ bs) rest,
              append_assoc x bs rest,
              rkey f (x ++ (bs ++ rest)) (omega (arith, length-append key (x ++ bs))),
              map_key,
              ok_key,
              e,
              u.0,
              rx f (bs ++ rest) (omega (arith, length-append key (x ++ bs), length-append x bs)),
            )
            (rbs f (set map k v) rest
              (omega (arith, length-append key (x ++ bs), length-append x bs)) d.1
              (set-Unseen map k v ys d.0 u.1)),
    )
Matched-ReadsEntries p [] (y ∷ ys) m = absurd m
Matched-ReadsEntries p (x ∷ xs) [] m = absurd m

-- Entries with new keys are set behind those that are there.
abbrev append_entries : Entries → Entries → Entries
append_entries end fs = fs
append_entries (entry k v es) fs = entry k v (append_entries es fs)

append_entries-end : (es : Entries) → append_entries es end ≡ es
append_entries-end end = refl
append_entries-end (entry k v es) = ap (entry k v) (append_entries-end es)

set-append :
    (map : Entries) (k : ℤ) (v : Value) (es : Entries)
    → has map k ≡ false
    → append_entries (set map k v) es ≡ append_entries map (entry k v es)
set-append end k v es h = refl
set-append (entry j w map) k v es h = ground (arith, set-append map k v es)

set_all-append :
    (map : Entries) (ys : List (ℤ × Value))
    → Distinct ys
    → Unseen map ys
    → set_all map ys ≡ append_entries map (of_list ys)
set_all-append map [] d u = sym (append_entries-end map)
set_all-append map ((k, v) ∷ ys) d u =
    set_all-append (set map k v) ys d.1 (set-Unseen map k v ys d.0 u.1)
    ∙ set-append map k v (of_list ys) u.0

end-Unseen : (ys : List (ℤ × Value)) → Unseen end ys
end-Unseen [] = tt
end-Unseen ((k, v) ∷ ys) = (refl, end-Unseen ys)

length-encode_entries :
    (p : Platform) (es : Entries) → length (encode_entries p es) ≡ length_entries es
unfolding encode_entries
length-encode_entries p end = refl
length-encode_entries p (entry k v es) = ap suc (length-encode_entries p es)

length-Matched :
    (p : Platform) (xs : List (ℤ × Result (List ℕ))) (ys : List (ℤ × Value))
    → Matched (ReadsEntry p) xs ys
    → length xs ≡ length ys
length-Matched p [] [] m = refl
length-Matched p (x ∷ xs) (y ∷ ys) m = ap suc (length-Matched p xs ys m.2)
length-Matched p [] (y ∷ ys) m = absurd m
length-Matched p (x ∷ xs) [] m = absurd m

pub object-Reads :
    (p : Platform) (es : Entries) (ys : List (ℤ × Value))
    → length_entries es ≤ max_safe_cbor_integer
    → Distinct ys
    → Matched (ReadsEntry p) (encode_entries p es) ys
    → Reads p (encode p (object es)) (object (of_list (sort_by_key ys)))
unfolding encode decode_body
object-Reads p es ys h d m =
    let sorted = sort-Matched (ReadsEntry p) (encode_entries p es) ys m in
    let (xs, exs, rxs) = Matched-ReadsEntries p _ _ sorted in
    let (initial, tail, e, major, reads) = head 5 (length_entries es) h in
    let size : length_entries es ≡ length (sort_by_key ys) =
      sym (length-encode_entries p es) ∙ (length-Matched p _ _ m ∙ sym (length-sort ys)) in
    let built = set_all-append end (sort_by_key ys) (sort-Distinct ys d) (end-Unseen _) in
    Reads-intro p initial (tail ++ xs) _ (rw (e, exs)) (λ f rest k. rw (
      major,
      append_assoc tail xs rest,
      reads (xs ++ rest),
      size,
      rxs f end rest (omega (arith, length-append tail xs)) (sort-Distinct ys d) (end-Unseen _),
      built,
    ))
