-- ===== src/Cbor/Streaming.antt =====
-- web/src/protocol/cbor.ts: `decode` on the first bytes of an input, and on more fuel.
use whats_going_on.Prelude.{
  ℕ, zero, suc, ◌/◌, ◌%◌, ◌≤◌, ◌≡◌, refl, ap, ◌⊎◌, inl, inr, true, false, List, [], ◌++◌,
  append-nil, arith, leb, ◌==◌,
}
use whats_going_on.Prelude.Int.{pos, negsuc}
use whats_going_on.Cbor.Value.{
  Value, null, bool, num, bytes, array, object, int, Entries, end, nil, cons, Error, Result, ok,
  err, ◌>>=◌, Platform, unexpected_end, duplicate_map_key, unsupported_value, invalid_array_length,
  out_of_fuel, two_32,
}
use whats_going_on.Cbor.Decode.{
  Reader, read, read_bytes, read_arg, read_negative_arg, cbor_f64, has, set, map_key, decode_items,
  decode_entries, decode_text, decode_float64, decode_simple, decode_body, decode,
}
use whats_going_on.Cbor.Follows.{
  extend, Follows, Edge, Follows-bind, Follows-ok, Follows-err, Follows-if, Follows-result,
  read-Follows, read_bytes-Follows, read_arg-Follows, read_negative_arg-Follows,
}

module _ (bad : Error) (ys : List ℕ) (dec dec' : Reader Value) (h : Follows bad ys dec dec') where
  decode_items-Follows : (n : ℕ) → Follows bad ys (decode_items dec n) (decode_items dec' n)
  unfolding decode_items
  decode_items-Follows zero = Follows-ok bad ys nil
  decode_items-Follows (suc n) = Follows-bind bad ys dec dec' _ _ h λ v.
      Follows-bind bad ys (decode_items dec n) (decode_items dec' n) _ _ (decode_items-Follows n)
        λ vs. Follows-ok bad ys (cons v vs)

  decode_entries-Follows :
      (n : ℕ) (map : Entries)
      → Follows bad ys (decode_entries dec n map) (decode_entries dec' n map)
  unfolding decode_entries
  decode_entries-Follows zero map = Follows-ok bad ys map
  decode_entries-Follows (suc n) map = Follows-bind bad ys dec dec' _ _ h λ k.
      Follows-result bad ys (map_key k) _ _ λ key.
        Follows-if bad ys (has map key) _ _ _ _ (Follows-err bad ys duplicate_map_key)
          (Follows-bind bad ys dec dec' _ _ h λ v. decode_entries-Follows n (set map key v))

module _ (bad : Error) (ys : List ℕ) (edge : Edge bad ys) where
  decode_float64-Follows : (p : Platform) → Follows bad ys (decode_float64 p) (decode_float64 p)
  unfolding decode_float64
  decode_float64-Follows p =
      Follows-bind bad ys (read_bytes 8) _ _ _ (read_bytes-Follows bad ys edge 8)
        λ payload. Follows-result bad ys (cbor_f64 (p.get_float64 payload)) _ _ (Follows-ok bad ys)

  decode_simple-Follows :
      (p : Platform) (additional : ℕ)
      → Follows bad ys (decode_simple p additional) (decode_simple p additional)
  unfolding decode_simple
  decode_simple-Follows p additional =
      Follows-if bad ys (additional == 20) _ _ _ _ (Follows-ok bad ys (bool false)) (
        Follows-if bad ys (additional == 21) _ _ _ _ (Follows-ok bad ys (bool true)) (
          Follows-if bad ys (additional == 22) _ _ _ _ (Follows-ok bad ys null) (
            Follows-if bad ys (additional == 27) _ _ _ _ (decode_float64-Follows p)
              (Follows-err bad ys unsupported_value))))

  payload-Follows :
      (additional : ℕ) (f : List ℕ → Reader Value)
      → ((payload : List ℕ) → Follows bad ys (f payload) (f payload))
      → Follows bad ys
          (λ bs. read_arg additional bs >>= λ (len, bs₁).
            read_bytes len bs₁ >>= λ (payload, rest). f payload rest)
          (λ bs. read_arg additional bs >>= λ (len, bs₁).
            read_bytes len bs₁ >>= λ (payload, rest). f payload rest)
  payload-Follows additional f hf =
      Follows-bind bad ys (read_arg additional) _ _ _ (read_arg-Follows bad ys edge additional)
        λ len. Follows-bind bad ys (read_bytes len) _ f f (read_bytes-Follows bad ys edge len) hf

  decode_body-Follows :
      (p : Platform) (dec dec' : Reader Value) (major additional : ℕ)
      → Follows bad ys dec dec'
      → Follows bad ys (decode_body p dec major additional) (decode_body p dec' major additional)
  unfolding decode_body
  decode_body-Follows p dec dec' major additional h =
      Follows-if bad ys (major == 0) _ _ _ _
        (at_arg _ _ λ value. Follows-ok bad ys (num (int (pos value))))
        (Follows-if bad ys (major == 1) _ _ _ _
          (Follows-bind bad ys (read_negative_arg additional) _ _ _
            (read_negative_arg-Follows bad ys edge additional)
            λ value. Follows-ok bad ys (num (int (negsuc value))))
          (Follows-if bad ys (major == 2) _ _ _ _
            (payload-Follows additional (λ payload rest. ok (bytes payload, rest))
              λ payload. Follows-ok bad ys (bytes payload))
            (Follows-if bad ys (major == 3) _ _ _ _
              (payload-Follows additional
                (λ payload rest. decode_text p payload >>= λ v. ok (v, rest))
                λ payload. Follows-result bad ys (decode_text p payload) _ _ (Follows-ok bad ys))
              (Follows-if bad ys (major == 4) _ _ _ _
                (at_arg _ _ λ len.
                  Follows-if bad ys (leb two_32 len) _ _ _ _
                    (Follows-err bad ys invalid_array_length)
                    (Follows-bind bad ys (decode_items dec len) (decode_items dec' len) _ _
                      (decode_items-Follows bad ys dec dec' h len)
                      λ vs. Follows-ok bad ys (array vs)))
                (Follows-if bad ys (major == 5) _ _ _ _
                  (at_arg _ _ λ len.
                    Follows-bind bad ys (decode_entries dec len end) (decode_entries dec' len end) _
                      _ (decode_entries-Follows bad ys dec dec' h len end)
                      λ es. Follows-ok bad ys (object es))
                  (Follows-if bad ys (major == 7) _ _ _ _ (decode_simple-Follows p additional)
                    (Follows-err bad ys unsupported_value)))))))
    where
      at_arg :
          (f f' : ℕ → Reader Value)
          → ((len : ℕ) → Follows bad ys (f len) (f' len))
          → Follows bad ys
              (λ bs. read_arg additional bs >>= λ (len, rest). f len rest)
              (λ bs. read_arg additional bs >>= λ (len, rest). f' len rest)
      at_arg f f' =
          Follows-bind bad ys (read_arg additional) (read_arg additional) f f'
            (read_arg-Follows bad ys edge additional)

  decode_step-Follows :
      (p : Platform) (f g : ℕ)
      → Follows bad ys (decode p f) (decode p g)
      → Follows bad ys (decode p (suc f)) (decode p (suc g))
  unfolding decode
  decode_step-Follows p f g h =
      Follows-bind bad ys read read _ _ (read-Follows bad ys edge)
        λ initial. decode_body-Follows p (decode p f) (decode p g) (initial / 32) (initial % 32) h

-- `decode` reports an unexpected end of its input, or its result does not depend on what follows.
pub decode-append :
    (p : Platform) (f : ℕ) (xs ys : List ℕ)
    → (decode p f xs ≡ err unexpected_end) ⊎ (decode p f (xs ++ ys) ≡ extend ys (decode p f xs))
decode-append p f xs ys = (go f).at xs
  where
    start : Follows unexpected_end ys (decode p zero) (decode p zero)
    start = record { at = λ xs. inr (unfold decode in refl) }

    go : (f : ℕ) → Follows unexpected_end ys (decode p f) (decode p f)
    go zero = start
    go (suc f) = decode_step-Follows unexpected_end ys (inl refl) p f f (go f)

more_fuel-Follows :
    (p : Platform) (f g : ℕ) → f ≤ g → Follows out_of_fuel [] (decode p f) (decode p g)
unfolding decode
more_fuel-Follows p zero g h = record { at = λ xs. inl refl }
more_fuel-Follows p (suc f) zero h = absurd (omega arith)
more_fuel-Follows p (suc f) (suc g) h =
    decode_step-Follows out_of_fuel [] (inr refl) p f g (more_fuel-Follows p f g (omega arith))

extend-nil : {A : Type 0} (r : Result (A × List ℕ)) → extend [] r ≡ r
extend-nil (ok (a, rest)) = ap (λ t. ok (a, t)) (append-nil rest)
extend-nil (err e) = refl

-- Fuel that was enough is enough with more of it.
pub decode_more_fuel :
    (p : Platform) (f g : ℕ) (xs : List ℕ)
    → f ≤ g
    → (decode p f xs ≡ err out_of_fuel) ⊎ (decode p g xs ≡ decode p f xs)
decode_more_fuel p f g xs h = elim ((more_fuel-Follows p f g h).at xs) [
  | inl e ↦ inl e
  | inr e ↦ inr (rw (append-nil, extend-nil) at e)
]
