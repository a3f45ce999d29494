-- ===== src/Cbor/Ensures.antt =====
-- web/src/protocol/cbor.ts: what the readers return, that they read on, and that the fuel lasts.
use whats_going_on.Prelude.{
  ℕ, zero, suc, ◌/◌, ◌%◌, ◌≡◌, refl, inl, inr, true, false, List, [], ◌∷◌, none, some, arith, leb,
  ◌==◌, Bool-cases,
}
use whats_going_on.Prelude.Int.{ℤ, pos, negsuc, ◌==ℤ◌, ==ℤ_iff}
use whats_going_on.Cbor.Value.{
  Number, int, float, Value, null, bool, num, text, bytes, array, object, Items, nil, cons, Entries,
  end, entry, Result, ok, err, Platform, is_finite, two_32, duplicate_map_key, unsupported_value,
  invalid_array_length, invalid_utf8,
}
use whats_going_on.Cbor.Encode.{length_items, is_key}
use whats_going_on.Cbor.Decode.{
  Reader, read_bytes, read_arg, read_negative_arg, cbor_f64, has, set, map_key, decode_items,
  decode_entries, decode_text, decode_float64, decode_simple, decode_body, decode,
}
use whats_going_on.Cbor.Containers.{has-set}
use whats_going_on.Cbor.Arguments.{
  IsSafe, IsPayload, IsNegative, read_bytes-Ensures, read_arg-Ensures, read_negative_arg-Ensures,
}
use whats_going_on.Cbor.Profile.{
  Profile, ProfileItems, ProfileEntries, Ensures, EnsuresAt, EnsuresValue, Ensures-bind,
  Ensures-result, Ensures-ok, Ensures-err, Ensures-if, Ensures-mono,
}

abbrev IsItems : ℕ → Items → Type 0
IsItems n vs = (length_items vs ≡ n) × ProfileItems vs

decode_items-Ensures :
    (f : ℕ) (dec : Reader Value) (n : ℕ)
    → Ensures f Profile 1 dec
    → Ensures f (IsItems n) 0 (decode_items dec n)
unfolding decode_items Profile
decode_items-Ensures f dec zero h = Ensures-ok f (IsItems zero) nil (refl, tt)
decode_items-Ensures f dec (suc n) h =
    Ensures-bind f 0 Profile (IsItems (suc n)) dec _
      (Ensures-mono f 1 Profile Profile dec (λ v p. p) h)
      λ v pv.
        Ensures-bind f 0 (IsItems n) (IsItems (suc n)) (decode_items dec n) _
          (decode_items-Ensures f dec n h)
          λ vs pvs. Ensures-ok f (IsItems (suc n)) (cons v vs) (ground arith, (pv, pvs.1))

set-ProfileEntries :
    (es : Entries) (k : ℤ) (v : Value)
    → is_key k ≡ true
    → has es k ≡ false
    → Profile v
    → ProfileEntries es
    → ProfileEntries (set es k v)
unfolding Profile
set-ProfileEntries end k v hk fresh pv pe = (hk, refl, pv, tt)
set-ProfileEntries (entry j w es) k v hk fresh pv pe = elim (Bool-cases (j ==ℤ k)) [
  | inl e ↦ cc (fresh)
  | inr e ↦ rw e (
    pe.0,
    ground (arith, has-set es j k v, ==ℤ_iff j k, ==ℤ_iff k j),
    pe.2,
    set-ProfileEntries es k v hk (ground arith) pv pe.3,
  )
]

map_key-Ensures : (v : Value) → EnsuresValue (λ k. is_key k ≡ true) (map_key v)
unfolding map_key
map_key-Ensures (num (int z)) = elim (Bool-cases (is_key z)) [ inl h ↦ rw h h | inr h ↦ rw h (cc) ]
map_key-Ensures (num (float b)) = λ e. cc
map_key-Ensures _ = λ e. cc

decode_entries-Ensures :
    (f : ℕ) (dec : Reader Value) (n : ℕ) (map : Entries)
    → Ensures f Profile 1 dec
    → ProfileEntries map
    → Ensures f ProfileEntries 0 (decode_entries dec n map)
unfolding decode_entries
decode_entries-Ensures f dec zero map h pm = Ensures-ok f ProfileEntries map pm
decode_entries-Ensures f dec (suc n) map h pm =
    Ensures-bind f 0 Profile ProfileEntries dec _ weak λ k _.
      Ensures-result f (λ key. is_key key ≡ true) ProfileEntries (map_key k) _ (map_key-Ensures k)
        λ key hk.
          Ensures-if f 0 ProfileEntries (has map key) _ _
            (λ _. Ensures-err f 0 ProfileEntries duplicate_map_key (λ e. cc))
            (λ fresh. Ensures-bind f 0 Profile ProfileEntries dec _ weak λ v pv.
              decode_entries-Ensures f dec n (set map key v) h
                (set-ProfileEntries map key v hk fresh pv pm))
  where
    weak : Ensures f Profile 0 dec
    weak = Ensures-mono f 1 Profile Profile dec (λ v p. p) h

cbor_f64-Ensures : (x : Number) → EnsuresValue Profile (cbor_f64 x)
unfolding cbor_f64 Profile
cbor_f64-Ensures x = elim (Bool-cases (is_finite x)) [ inl h ↦ rw h h | inr h ↦ rw h (cc) ]

decode_text-Ensures :
    (p : Platform) (payload : List ℕ) → EnsuresValue Profile (decode_text p payload)
unfolding decode_text Profile
decode_text-Ensures p payload =
    elim (p.decode_utf8 payload)
      as (λ o. EnsuresValue Profile (elim o [ none ↦ err invalid_utf8 | some s ↦ ok (text s) ])) [
        | none ↦ λ e. cc
        | some s ↦ tt
      ]

decode_simple-Ensures :
    (n : ℕ) (p : Platform) (additional : ℕ) → Ensures n Profile 0 (decode_simple p additional)
unfolding decode_simple decode_float64 Profile
decode_simple-Ensures n p additional =
    Ensures-if n 0 Profile (additional == 20) _ _ (λ _. Ensures-ok n Profile (bool false) tt)
      (λ _.
        Ensures-if n 0 Profile (additional == 21) _ _ (λ _. Ensures-ok n Profile (bool true) tt)
          (λ _.
            Ensures-if n 0 Profile (additional == 22) _ _ (λ _. Ensures-ok n Profile null tt)
              (λ _.
                Ensures-if n 0 Profile (additional == 27) _ _
                  (λ _.
                    Ensures-bind n 0 (IsPayload 8) Profile (read_bytes 8) _ (read_bytes-Ensures n 8)
                      λ payload _.
                        Ensures-result n Profile Profile (cbor_f64 (p.get_float64 payload)) _
                          (cbor_f64-Ensures (p.get_float64 payload))
                          (λ v pv. Ensures-ok n Profile v pv))
                  (λ _. Ensures-err n 0 Profile unsupported_value (λ e. cc)))))

decode_body-Ensures :
    (n : ℕ) (p : Platform) (dec : Reader Value) (major additional : ℕ)
    → Ensures n Profile 1 dec
    → Ensures n Profile 0 (decode_body p dec major additional)
unfolding decode_body Profile
decode_body-Ensures n p dec major additional h =
    Ensures-if n 0 Profile (major == 0) _ _
      (λ _.
        Ensures-bind n 0 IsSafe Profile arg _ at_arg
          λ v safe. Ensures-ok n Profile (num (int (pos v))) (ground arith))
      λ _.
        Ensures-if n 0 Profile (major == 1) _ _
          (λ _.
            Ensures-bind n 0 IsNegative Profile (read_negative_arg additional) _
              (read_negative_arg-Ensures n additional)
              λ v safe. Ensures-ok n Profile (num (int (negsuc v))) (ground arith))
          λ _.
            Ensures-if n 0 Profile (major == 2) _ _
              (λ _. Ensures-bind n 0 IsSafe Profile arg _ at_arg λ len safe.
                Ensures-bind n 0 (IsPayload len) Profile (read_bytes len) _
                  (read_bytes-Ensures n len)
                  λ bs payload. Ensures-ok n Profile (bytes bs) (payload.0, omega arith))
              λ _.
                Ensures-if n 0 Profile (major == 3) _ _
                  (λ _. Ensures-bind n 0 IsSafe Profile arg _ at_arg λ len safe.
                    Ensures-bind n 0 (IsPayload len) Profile (read_bytes len) _
                      (read_bytes-Ensures n len)
                      λ bs payload.
                        Ensures-result n Profile Profile (decode_text p bs) _
                          (decode_text-Ensures p bs) (λ v pv. Ensures-ok n Profile v pv))
                  λ _.
                    Ensures-if n 0 Profile (major == 4) _ _
                      (λ _. Ensures-bind n 0 IsSafe Profile arg _ at_arg λ len safe.
                        Ensures-if n 0 Profile (leb two_32 len) _ _
                          (λ _. Ensures-err n 0 Profile invalid_array_length (λ e. cc))
                          (λ small.
                            Ensures-bind n 0 (IsItems len) Profile (decode_items dec len) _
                              (decode_items-Ensures n dec len h)
                              λ vs pvs. Ensures-ok n Profile (array vs) (ground arith, pvs.1)))
                      λ _.
                        Ensures-if n 0 Profile (major == 5) _ _
                          (λ _. Ensures-bind n 0 IsSafe Profile arg _ at_arg λ len safe.
                            Ensures-bind n 0 ProfileEntries Profile (decode_entries dec len end) _
                              (decode_entries-Ensures n dec len end h tt)
                              λ es pes. Ensures-ok n Profile (object es) pes)
                          λ _.
                            Ensures-if n 0 Profile (major == 7) _ _
                              (λ _. decode_simple-Ensures n p additional)
                              (λ _. Ensures-err n 0 Profile unsupported_value (λ e. cc))
  where
    arg : Reader ℕ
    arg = read_arg additional

    at_arg : Ensures n IsSafe 0 arg
    at_arg = read_arg-Ensures n additional

-- On fuel for its input, `decode` returns a value of the profile and takes a byte at least, or fails
-- with an error of the program.
pub decode-Ensures : (p : Platform) (f : ℕ) → Ensures f Profile 1 (decode p f)
unfolding decode
decode-Ensures p zero bs hb short = elim short [ ]
decode-Ensures p (suc f) [] hb short = λ e. cc
decode-Ensures p (suc f) (b ∷ rest) hb short =
    one_more b rest (decode_body p (decode p f) (b / 32) (b % 32) rest) (
      decode_body-Ensures f p (decode p f) (b / 32) (b % 32) (decode-Ensures p f) rest hb.1
        (omega arith))
  where
    one_more :
        (b : ℕ) (rest : List ℕ) (r : Result (Value × List ℕ))
        → EnsuresAt Profile 0 rest r
        → EnsuresAt Profile 1 (b ∷ rest) r
    one_more b rest (ok (v, left)) (pv, hb', le, (front, e)) =
        (pv, hb', omega arith, (b ∷ front, rw e))
    one_more b rest (err e) ne = ne
