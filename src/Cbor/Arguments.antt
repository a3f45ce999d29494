-- ===== src/Cbor/Arguments.antt =====
-- web/src/protocol/cbor.ts: what the readers of lengths, arguments and byte strings return.
use native.Mathlib.Nat.{pow-suc, mul-le-mul_right}
use whats_going_on.Prelude.{
  refl, ℕ, zero, suc, ◌+◌, ◌*◌, ◌^◌, ◌≤◌, ◌<◌, inl, inr, List, [], ◌∷◌, arith, length, length-drop,
  sym, take-append-drop, take, drop, All, ltb, ◌==◌, Bool-cases,
}
use whats_going_on.Cbor.Value.{
  IsByte, max_safe_cbor_integer, max_safe_negative_argument, max_safe_u64_high, two_32,
  outside_safe_range, unsupported_length,
}
use whats_going_on.Cbor.Decode.{
  read, read_bytes, fixed_uint_loop, read_fixed_uint, safe_unsigned, read_u64_as_u53, read_arg,
  read_negative_arg,
}
use whats_going_on.Cbor.Profile.{
  Ensures, EnsuresValue, Ensures-bind, Ensures-result, Ensures-ok, Ensures-err, Ensures-if,
  Ensures-mono,
}

abbrev pub IsSafe : ℕ → Type 0
IsSafe n = n ≤ max_safe_cbor_integer

read-Ensures : (n : ℕ) → Ensures n IsByte 1 read
unfolding read
read-Ensures n [] hb short = cc
read-Ensures n (b ∷ rest) hb short = (hb.0, hb.1, omega arith, (b ∷ [], refl))

take-IsByte : (n : ℕ) (xs : List ℕ) → All IsByte xs → All IsByte (take n xs)
take-IsByte zero xs h = tt
take-IsByte (suc n) [] h = tt
take-IsByte (suc n) (x ∷ xs) h = (h.0, take-IsByte n xs h.1)

drop-IsByte : (n : ℕ) (xs : List ℕ) → All IsByte xs → All IsByte (drop n xs)
drop-IsByte zero xs h = h
drop-IsByte (suc n) [] h = tt
drop-IsByte (suc n) (x ∷ xs) h = drop-IsByte n xs h.1

length-take-le : (n : ℕ) (xs : List ℕ) → length (take n xs) ≤ n
length-take-le zero xs = omega arith
length-take-le (suc n) [] = omega arith
length-take-le (suc n) (x ∷ xs) = omega (arith, length-take-le n xs)

abbrev pub IsPayload : ℕ → List ℕ → Type 0
IsPayload len bs = All IsByte bs × (length bs ≤ len)

pub read_bytes-Ensures : (n len : ℕ) → Ensures n (IsPayload len) 0 (read_bytes len)
unfolding read_bytes
read_bytes-Ensures n len bs hb short = elim (Bool-cases (ltb (length bs) len)) [
  | inl few ↦ rw few (cc)
  | inr enough ↦ rw enough (
    (take-IsByte len bs hb, length-take-le len bs),
    drop-IsByte len bs hb,
    omega (arith, length-drop len bs),
    (take len bs, sym (take-append-drop len bs)),
  )
]

-- One more digit in base 256.
digit_bound :
    (value b t v : ℕ) → b < 256 → v < (value * 256 + b + 1) * t → v < (value + 1) * (t * 256)
digit_bound value b t v h k =
    let le : value * 256 + b + 1 ≤ (value + 1) * 256 = omega arith in
    omega (arith, mul-le-mul_right t le)

fixed_uint_loop-Ensures :
    (n len value : ℕ) → Ensures n (λ v. v < (value + 1) * 256 ^ len) 0 (fixed_uint_loop len value)
unfolding fixed_uint_loop
fixed_uint_loop-Ensures n zero value =
    Ensures-ok n (λ v. v < (value + 1) * 256 ^ 0) value (omega arith)
fixed_uint_loop-Ensures n (suc len) value =
    Ensures-mono n 1 P P _ (λ v h. h)
      (Ensures-bind n 1 IsByte P read (λ b. fixed_uint_loop len (value * 256 + b)) (read-Ensures n)
        λ b byte.
          Ensures-mono n 0 (λ v. v < (value * 256 + b + 1) * 256 ^ len) P _
            (λ v h. rw (pow-suc 256 len) (digit_bound value b (256 ^ len) v byte h))
            (fixed_uint_loop-Ensures n len (value * 256 + b)))
  where
    P : ℕ → Type 0
    P v = v < (value + 1) * 256 ^ suc len

read_fixed_uint-Ensures : (n len : ℕ) → Ensures n (λ v. v < 256 ^ len) 0 (read_fixed_uint len)
unfolding read_fixed_uint
read_fixed_uint-Ensures n len =
    Ensures-mono n 0 (λ v. v < (0 + 1) * 256 ^ len) (λ v. v < 256 ^ len) _ (λ v h. omega arith)
      (fixed_uint_loop-Ensures n len 0)

safe_unsigned-Ensures : (value : ℕ) → EnsuresValue IsSafe (safe_unsigned value)
unfolding safe_unsigned
safe_unsigned-Ensures value = elim (Bool-cases (ltb max_safe_cbor_integer value)) [
  | inl h ↦ rw h (cc)
  | inr h ↦ rw h (ground arith)
]

abbrev IsUint : ℕ → ℕ → Type 0
IsUint len v = v < 256 ^ len

read_u64_as_u53-Ensures : (n : ℕ) → Ensures n IsSafe 0 read_u64_as_u53
unfolding read_u64_as_u53
read_u64_as_u53-Ensures n =
    Ensures-bind n 0 (IsUint 4) IsSafe (read_fixed_uint 4) _ (read_fixed_uint-Ensures n 4) λ high _.
      Ensures-bind n 0 (IsUint 4) IsSafe (read_fixed_uint 4) _ (read_fixed_uint-Ensures n 4)
        λ low _.
          Ensures-if n 0 IsSafe (ltb max_safe_u64_high high) _ _
            (λ _. Ensures-err n 0 IsSafe outside_safe_range (λ e. cc))
            (λ _.
              Ensures-result n IsSafe IsSafe (safe_unsigned (high * two_32 + low)) _
                (safe_unsigned-Ensures (high * two_32 + low))
                (λ value h. Ensures-ok n IsSafe value h))

pub read_arg-Ensures : (n additional : ℕ) → Ensures n IsSafe 0 (read_arg additional)
unfolding read_arg
read_arg-Ensures n additional =
    Ensures-if n 0 IsSafe (ltb additional 24) _ _
      (λ h. Ensures-ok n IsSafe additional (ground arith))
      (λ _.
        Ensures-if n 0 IsSafe (additional == 24) _ _
          (λ _. Ensures-mono n 1 IsByte IsSafe _ (λ v h. omega arith) (read-Ensures n))
          (λ _.
            Ensures-if n 0 IsSafe (additional == 25) _ _
              (λ _.
                Ensures-mono n 0 (IsUint 2) IsSafe _ (λ v h. omega arith)
                  (read_fixed_uint-Ensures n 2))
              (λ _.
                Ensures-if n 0 IsSafe (additional == 26) _ _
                  (λ _.
                    Ensures-mono n 0 (IsUint 4) IsSafe _ (λ v h. omega arith)
                      (read_fixed_uint-Ensures n 4))
                  (λ _.
                    Ensures-if n 0 IsSafe (additional == 27) _ _ (λ _. read_u64_as_u53-Ensures n)
                      (λ _. Ensures-err n 0 IsSafe unsupported_length (λ e. cc))))))

abbrev pub IsNegative : ℕ → Type 0
IsNegative n = n ≤ max_safe_negative_argument

pub read_negative_arg-Ensures :
    (n additional : ℕ) → Ensures n IsNegative 0 (read_negative_arg additional)
unfolding read_negative_arg
read_negative_arg-Ensures n additional =
    Ensures-bind n 0 IsSafe IsNegative (read_arg additional) _ (read_arg-Ensures n additional)
      λ value _.
        Ensures-if n 0 IsNegative (ltb max_safe_negative_argument value) _ _
          (λ _. Ensures-err n 0 IsNegative outside_safe_range (λ e. cc))
          (λ h. Ensures-ok n IsNegative value (ground arith))
