-- ===== src/Cbor/Head.antt =====
-- web/src/protocol/cbor.ts: the initial byte and the argument after it, `encodeTypeValue` against
-- `readArg`.
use whats_going_on.Prelude.{
  ℕ, zero, suc, ◌+◌, ◌*◌, ◌/◌, ◌%◌, ◌^◌, ◌≤◌, ◌<◌, ◌≡◌, refl, ap, inl, inr, List, [], ◌∷◌, ◌++◌,
  append_assoc, arith, length, length-append, All, All-append, ltb, leb, Bool-cases, tests, ltb→lt,
}
use whats_going_on.Cbor.Value.{ok, IsByte, max_safe_cbor_integer}
use whats_going_on.Cbor.Encode.{be, encode_type_value}
use whats_going_on.Cbor.Decode.{read_fixed_uint, read_u64_as_u53, read_arg}

pub length-be : (value len : ℕ) → length (be value len) ≡ len
unfolding be
length-be value zero = refl
length-be value (suc len) =
    omega (
      arith,
      length-append (be (value / 256) len) ((value % 256) ∷ []),
      length-be (value / 256) len,
    )

pub be-IsByte : (value len : ℕ) → All IsByte (be value len)
unfolding be
be-IsByte value zero = tt
be-IsByte value (suc len) =
    All-append IsByte (be (value / 256) len) _ (be-IsByte (value / 256) len) (omega arith)

-- Two and four bytes read back what `be` wrote.
read_fixed_uint-be_two :
    (value : ℕ) (rest : List ℕ)
    → value < 2 ^ 16
    → read_fixed_uint 2 ((value / 256) ∷ (value % 256) ∷ rest) ≡ ok (value, rest)
unfolding read_fixed_uint
read_fixed_uint-be_two value rest h = ap (λ n. ok (n, rest)) (omega arith)

read_fixed_uint-be_four :
    (value : ℕ) (rest : List ℕ)
    → value < 2 ^ 32
    → read_fixed_uint 4 (be value 4 ++ rest) ≡ ok (value, rest)
unfolding read_fixed_uint be
read_fixed_uint-be_four value rest h = ap (λ n. ok (n, rest)) (omega arith)

be_eight : (value : ℕ) → be value 8 ≡ be (value / 2 ^ 32) 4 ++ be (value % 2 ^ 32) 4
unfolding be
be_eight value = ground arith

read_u64_as_u53-be :
    (value : ℕ) (rest : List ℕ)
    → value ≤ max_safe_cbor_integer
    → read_u64_as_u53 (be value 8 ++ rest) ≡ ok (value, rest)
unfolding read_u64_as_u53
read_u64_as_u53-be value rest h =
    rw
      (
        be_eight value,
        append_assoc,
        read_fixed_uint-be_four (value / 2 ^ 32) (be (value % 2 ^ 32) 4 ++ rest) (omega arith),
        read_fixed_uint-be_four (value % 2 ^ 32) rest (omega arith),
      )
      (ground arith)

-- What `encodeTypeValue` writes: a byte that holds the major type, and what `readArg` reads back.
abbrev pub Head : ℕ → ℕ → Type 0
Head major value =
    (initial : ℕ) × (tail : List ℕ) × (encode_type_value major value ≡ ok (initial ∷ tail))
    × (initial / 32 ≡ major)
    × ((rest : List ℕ) → read_arg (initial % 32) (tail ++ rest) ≡ ok (value, rest))

pub head : (major value : ℕ) → value ≤ max_safe_cbor_integer → Head major value
unfolding encode_type_value read_arg
head major value h = elim (Bool-cases (ltb value 24)) [
  | inl a ↦ (
    major * 32 + value,
    [],
    ground arith,
    ground arith,
    λ rest.
        let e : (major * 32 + value) % 32 ≡ value = omega (tests, ltb→lt value 24 a) in
        rw e (ground arith),
  )
  | inr a ↦ elim (Bool-cases (leb value 0xff)) [
    | inl b ↦ (major * 32 + 24, value ∷ [], ground arith, omega arith, λ rest. ground arith)
    | inr b ↦ elim (Bool-cases (leb value 0xffff)) [
      | inl c ↦ (
        major * 32 + 25,
        (value / 256) ∷ (value % 256) ∷ [],
        ground arith,
        omega arith,
        λ rest.
            let e : (major * 32 + 25) % 32 ≡ 25 = omega arith in
            rw e (read_fixed_uint-be_two value rest (ground arith)),
      )
      | inr c ↦ elim (Bool-cases (leb value 0xffff_ffff)) [
        | inl d ↦ (
          major * 32 + 26,
          be value 4,
          ground arith,
          omega arith,
          λ rest.
              let e : (major * 32 + 26) % 32 ≡ 26 = omega arith in
              rw e (read_fixed_uint-be_four value rest (ground arith)),
        )
        | inr d ↦ (
          major * 32 + 27,
          be value 8,
          ground arith,
          omega arith,
          λ rest.
              let e : (major * 32 + 27) % 32 ≡ 27 = omega arith in
              rw e (read_u64_as_u53-be value rest h),
        )
      ]
    ]
  ]
]
