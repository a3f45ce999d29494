-- ===== src/Cbor/Reads.antt =====
-- web/src/protocol/cbor.ts: encodings that `decode` reads back whatever follows them, for each
-- kind of value.
use mathlib.Core.List.{append_assoc}
use whats_going_on.Prelude.{
  ℕ, zero, suc, ◌/◌, ◌%◌, ◌≤◌, ◌≡◌, refl, subst, Bool, true, false, List, [], ◌∷◌, ◌++◌, arith,
  length, take-append_length, drop-append_length, length-append, le→ltb,
}
use whats_going_on.Prelude.Int.{ℤ, pos, negsuc}
use whats_going_on.Cbor.Value.{
  Number, int, Value, null, bool, num, f64, text, bytes, Result, ok, Platform, Laws,
  is_safe_integer, is_well_formed, strip_bom, max_safe_cbor_integer, max_safe_negative_argument,
}
use whats_going_on.Cbor.Encode.{encode_integer, encode_float64, encode}
use whats_going_on.Cbor.Decode.{
  read_bytes, read_negative_arg, decode_body, decode, decode_float64, decode_text, cbor_f64,
}
use whats_going_on.Cbor.Canonical.{IsFiniteDouble}
use whats_going_on.Cbor.Head.{head}

-- `r` is an encoding from which `decode` reads `v`, with any bytes behind it, on fuel for its length.
abbrev pub Reads : Platform → Result (List ℕ) → Value → Type 0
Reads p r v =
    (bs : List ℕ) × (r ≡ ok bs)
    × ((f : ℕ) (rest : List ℕ) → length bs ≤ f → decode p f (bs ++ rest) ≡ ok (v, rest))

-- One unit of fuel pays for the initial byte.
abbrev pub After : Platform → ℕ → List ℕ → Value → Type 0
After p initial tail v =
    (f : ℕ) (rest : List ℕ)
    → length tail ≤ f
    → decode_body p (decode p f) (initial / 32) (initial % 32) (tail ++ rest) ≡ ok (v, rest)

pub Reads-intro :
    (p : Platform) {r : Result (List ℕ)} (initial : ℕ) (tail : List ℕ) (v : Value)
    → r ≡ ok (initial ∷ tail)
    → After p initial tail v
    → Reads p r v
unfolding decode
Reads-intro p initial tail v e after = (initial ∷ tail, e, go)
  where
    go :
        (f : ℕ) (rest : List ℕ)
        → suc (length tail) ≤ f
        → decode p f (initial ∷ tail ++ rest) ≡ ok (v, rest)
    go zero rest h = absurd (omega arith)
    go (suc f) rest h = after f rest (omega arith)

pub read_bytes-append : (xs rest : List ℕ) → read_bytes (length xs) (xs ++ rest) ≡ ok (xs, rest)
unfolding read_bytes
read_bytes-append xs rest = rw (
  le→ltb (length (xs ++ rest)) (length xs) (omega (arith, length-append xs rest)),
  take-append_length xs rest,
  drop-append_length xs rest,
)

pub read_bytes_of_length :
    (n : ℕ) (xs rest : List ℕ) → length xs ≡ n → read_bytes n (xs ++ rest) ≡ ok (xs, rest)
read_bytes_of_length n xs rest e =
    subst (λ k. read_bytes k (xs ++ rest) ≡ ok (xs, rest)) e (read_bytes-append xs rest)

module _ (p : Platform) where
  pub null-Reads : Reads p (encode p null) null
  unfolding encode decode_body
  null-Reads = Reads-intro p 0xf6 [] null refl (λ f rest h. refl)

  pub bool-Reads : (b : Bool) → Reads p (encode p (bool b)) (bool b)
  unfolding encode decode_body
  bool-Reads true = Reads-intro p 0xf5 [] (bool true) refl (λ f rest h. refl)
  bool-Reads false = Reads-intro p 0xf4 [] (bool false) refl (λ f rest h. refl)

  pub integer-Reads : (z : ℤ) → is_safe_integer z ≡ true → Reads p (encode_integer z) (num (int z))
  unfolding encode_integer decode_body
  integer-Reads (pos n) h =
      let (initial, tail, e, major, reads) = head 0 n (ground arith) in
      Reads-intro p initial tail _ e (λ f rest k. rw (major, reads rest))
  integer-Reads (negsuc n) h =
      let (initial, tail, e, major, reads) = head 1 n (ground arith) in
      Reads-intro p initial tail _ e (λ f rest k.
        rw (
          major,
          read_negative_arg,
          reads rest,
          le→ltb max_safe_negative_argument n (ground arith),
        ))

  pub bytes-Reads :
      (bs : List ℕ) → length bs ≤ max_safe_cbor_integer → Reads p (encode p (bytes bs)) (bytes bs)
  unfolding encode decode_body
  bytes-Reads bs h =
      let (initial, tail, e, major, reads) = head 2 (length bs) h in
      Reads-intro p initial (tail ++ bs) _ (rw e) (λ f rest k.
        rw (major, append_assoc tail bs rest, reads (bs ++ rest), read_bytes-append bs rest))

module _ (p : Platform) (laws : Laws p) where
  pub text-Reads :
      (s : List ℕ)
      → is_well_formed s ≡ true
      → length (p.encode_utf8 s) ≤ max_safe_cbor_integer
      → Reads p (encode p (text s)) (text (strip_bom s))
  unfolding encode decode_body decode_text
  text-Reads s wf h =
      let payload = p.encode_utf8 s in
      let (initial, tail, e, major, reads) = head 3 (length payload) h in
      Reads-intro p initial (tail ++ payload) _ (rw e) (λ f rest k. rw (
        major,
        append_assoc tail payload rest,
        reads (payload ++ rest),
        read_bytes-append payload rest,
        decode_text,
        laws.decode-encode_utf8 s wf,
      ))

  decode_float64-set_float64 :
      (x : Number) (rest : List ℕ)
      → IsFiniteDouble p x
      → decode_float64 p (p.set_float64 x ++ rest) ≡ ok (f64 x, rest)
  unfolding decode_float64
  decode_float64-set_float64 x rest h = rw (
    read_bytes_of_length 8 (p.set_float64 x) rest (laws.length-set_float64 x),
    laws.get-set_float64 x h.1,
    cbor_f64,
    h.0,
  )

  pub float-Reads : (x : Number) → IsFiniteDouble p x → Reads p (ok (encode_float64 p x)) (f64 x)
  unfolding encode_float64 decode_body
  float-Reads x h =
      Reads-intro p 0xfb (p.set_float64 x) _ refl (λ f rest k. decode_float64-set_float64 x rest h)
