-- ===== src/Cbor/Sample.antt =====
-- A platform that keeps the documented laws, for runs of the codec: two bytes to a code unit in place
-- of UTF-8, and the doubles whose low 48 bits are 0.
use Prim.Native.Nat.{◌/◌, ◌%◌}
use whats_going_on.Prelude.{
  ℕ, ◌*◌, ◌+◌, ◌<◌, ◌≡◌, refl, ap, Bool, true, false, ◌&&◌, some, List, [], ◌∷◌, All, arith, ltb,
  ◌==◌, Bool-cases, inl, inr,
}
use whats_going_on.Prelude.Int.{pos}
use whats_going_on.Cbor.Value.{
  Number, int, float, Platform, Laws, IsByte, is_well_formed, is_high, strip_bom,
}

abbrev units : List ℕ → List ℕ
units (a ∷ b ∷ rest) = (a * 256 + b) ∷ units rest
units _ = []

abbrev two_bytes : List ℕ → List ℕ
two_bytes [] = []
two_bytes (u ∷ rest) = (u / 256 % 256) ∷ (u % 256) ∷ two_bytes rest

abbrev short_double : Number → Bool
short_double (float bits) =
    (bits % 0x1_0000_0000_0000 == 0) && ltb (bits / 0x1_0000_0000_0000) 0x1_0000
short_double (int z) = false

abbrev bits_of : Number → ℕ
bits_of (float bits) = bits
bits_of (int z) = 0

abbrev high_bytes : ℕ → List ℕ
high_bytes n = (n / 256 % 256) ∷ (n % 256) ∷ 0 ∷ 0 ∷ 0 ∷ 0 ∷ 0 ∷ 0 ∷ []

abbrev of_high_bytes : List ℕ → Number
of_high_bytes (a ∷ b ∷ rest) = float ((a * 256 + b) * 0x1_0000_0000_0000)
of_high_bytes _ = int (pos 0)

abbrev pub platform : Platform
platform = record {
  is_double = short_double;
  set_float64 = λ x. high_bytes (bits_of x / 0x1_0000_0000_0000);
  get_float64 = of_high_bytes;
  encode_utf8 = two_bytes;
  decode_utf8 = λ bs. some (strip_bom (units bs));
}

two_bytes-IsByte : (s : List ℕ) → All IsByte (two_bytes s)
two_bytes-IsByte [] = tt
two_bytes-IsByte (u ∷ s) = (omega arith, (omega arith, two_bytes-IsByte s))

well_formed-units : (s : List ℕ) → is_well_formed s ≡ true → All (λ u. u < 0x1_0000) s
well_formed-units [] h = tt
well_formed-units (u ∷ []) h = (ground arith, tt)
well_formed-units (u ∷ v ∷ s) h = elim (Bool-cases (is_high u)) [
  | inl e ↦ (ground arith, (ground arith, well_formed-units s (ground arith)))
  | inr e ↦ (ground arith, well_formed-units (v ∷ s) (ground arith))
]

units-two_bytes : (s : List ℕ) → All (λ u. u < 0x1_0000) s → units (two_bytes s) ≡ s
units-two_bytes [] h = refl
units-two_bytes (u ∷ s) h =
    let same : u / 256 % 256 * 256 + u % 256 ≡ u = omega (arith, h.0) in
    rw (same, units-two_bytes s h.1)

get-set :
    (x : Number)
    → short_double x ≡ true
    → of_high_bytes (high_bytes (bits_of x / 0x1_0000_0000_0000)) ≡ x
get-set (int z) h = cc
get-set (float bits) h =
    let whole : bits % 0x1_0000_0000_0000 ≡ 0 = ground arith in
    let small : bits / 0x1_0000_0000_0000 < 0x1_0000 = ground arith in
    ap float (omega (arith, whole, small))

pub platform-Laws : Laws platform
platform-Laws = record {
  length-set_float64 = λ x. refl;
  set_float64-IsByte = λ x h. (
    omega arith,
    (
      omega arith,
      (omega arith, (omega arith, (omega arith, (omega arith, (omega arith, (omega arith, tt)))))),
    ),
  );
  get-set_float64 = get-set;
  encode_utf8-IsByte = λ s h. two_bytes-IsByte s;
  decode-encode_utf8 =
      λ s h. ap (λ t. some (strip_bom t)) (units-two_bytes s (well_formed-units s h));
}
