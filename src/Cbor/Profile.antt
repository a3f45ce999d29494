-- ===== src/Cbor/Profile.antt =====
-- protocol/standards/wgo-cbor.md: the values that a decoder may return, and a postcondition for the
-- readers of web/src/protocol/cbor.ts.
use whats_going_on.Prelude.{
  ℕ, ◌+◌, ◌≤◌, ◌<◌, ◌≡◌, refl, ◌≢◌, Bool, true, false, List, [], ◌++◌, append_assoc, arith, length,
  All, if◌then◌else◌,
}
use whats_going_on.Cbor.Value.{
  int, float, Value, null, bool, num, f64, text, bytes, array, object, Items, nil, cons, Entries,
  end, entry, Error, Result, ok, err, ◌>>=◌, IsByte, is_safe_integer, is_finite,
  max_safe_cbor_integer, two_32, out_of_fuel,
}
use whats_going_on.Cbor.Encode.{length_items, is_key}
use whats_going_on.Cbor.Decode.{Reader, has}

-- Integers are safe, floats are finite and wrapped, arrays have a length that JavaScript has, and the
-- keys of a map are distinct safe unsigned integers.
unfoldable mutual
  pub Profile : Value → Type 0
  Profile null = Unit
  Profile (bool b) = Unit
  Profile (num (int z)) = is_safe_integer z ≡ true
  Profile (num (float bits)) = ⊥
  Profile (f64 x) = is_finite x ≡ true
  Profile (text s) = Unit
  Profile (bytes bs) = All IsByte bs × (length bs ≤ max_safe_cbor_integer)
  Profile (array vs) = (length_items vs < two_32) × ProfileItems vs
  Profile (object es) = ProfileEntries es

  pub ProfileItems : Items → Type 0
  ProfileItems nil = Unit
  ProfileItems (cons v vs) = Profile v × ProfileItems vs

  pub ProfileEntries : Entries → Type 0
  ProfileEntries end = Unit
  ProfileEntries (entry k v es) =
      (is_key k ≡ true) × (has es k ≡ false) × Profile v × ProfileEntries es

-- The bytes that are left are the end of the input.
abbrev pub Suffix : List ℕ → List ℕ → Type 0
Suffix rest bs = (front : List ℕ) × (bs ≡ front ++ rest)

-- A reader's result on `bs`: a value with `P`, at least `k` bytes read, and bytes left; or an error
-- of the program.
abbrev pub EnsuresAt : {A : Type 0} → (A → Type 0) → ℕ → List ℕ → Result (A × List ℕ) → Type 0
EnsuresAt P k bs (ok (a, rest)) =
    P a × All IsByte rest × (length rest + k ≤ length bs) × Suffix rest bs
EnsuresAt P k bs (err e) = e ≢ out_of_fuel

-- So it is on every input of fewer than `n` bytes.
abbrev pub Ensures : {A : Type 0} → ℕ → (A → Type 0) → ℕ → Reader A → Type 0
Ensures n P k r = (bs : List ℕ) → All IsByte bs → length bs < n → EnsuresAt P k bs (r bs)

-- A result that reads nothing.
abbrev pub EnsuresValue : {A : Type 0} → (A → Type 0) → Result A → Type 0
EnsuresValue P (ok a) = P a
EnsuresValue P (err e) = e ≢ out_of_fuel

module _ {A B : Type 0} where
  pub Ensures-bind :
      (n k : ℕ) (P : A → Type 0) (Q : B → Type 0) (m : Reader A) (f : A → Reader B)
      → Ensures n P k m
      → ((a : A) → P a → Ensures n Q 0 (f a))
      → Ensures n Q k (λ bs. m bs >>= λ (a, rest). f a rest)
  Ensures-bind n k P Q m f hm hf bs hb short = go (m bs) (hm bs hb short)
    where
      weaken :
          (rest : List ℕ) (r : Result (B × List ℕ))
          → length rest + k ≤ length bs
          → Suffix rest bs
          → EnsuresAt Q 0 rest r
          → EnsuresAt Q k bs r
      weaken rest (ok (b, left)) h (front, e) (q, hb', le, (front', e')) =
          (q, hb', omega arith, (front ++ front', rw (e, e', append_assoc)))
      weaken rest (err e) h s ne = ne

      go :
          (r : Result (A × List ℕ))
          → EnsuresAt P k bs r
          → EnsuresAt Q k bs (r >>= λ (a, rest). f a rest)
      go (ok (a, rest)) (p, hb', le, s) =
          weaken rest (f a rest) le s (hf a p rest hb' (omega arith))
      go (err e) ne = ne

  pub Ensures-result :
      (n : ℕ) (P : B → Type 0) (Q : A → Type 0) (m : Result B) (f : B → Reader A)
      → EnsuresValue P m
      → ((b : B) → P b → Ensures n Q 0 (f b))
      → Ensures n Q 0 (λ bs. m >>= λ b. f b bs)
  Ensures-result n P Q (ok b) f hm hf bs hb short = hf b hm bs hb short
  Ensures-result n P Q (err e) f hm hf bs hb short = hm

module _ {A : Type 0} where
  pub Ensures-ok : (n : ℕ) (P : A → Type 0) (a : A) → P a → Ensures n P 0 (λ bs. ok (a, bs))
  Ensures-ok n P a p bs hb short = (p, hb, omega arith, ([], refl))

  pub Ensures-err :
      (n k : ℕ) (P : A → Type 0) (e : Error) → e ≢ out_of_fuel → Ensures n P k (λ bs. err e)
  Ensures-err n k P e ne bs hb short = ne

  pub Ensures-if :
      (n k : ℕ) (P : A → Type 0) (b : Bool) (r s : Reader A)
      → (b ≡ true → Ensures n P k r)
      → (b ≡ false → Ensures n P k s)
      → Ensures n P k (λ bs. if b then r bs else s bs)
  Ensures-if n k P true r s hr hs = hr refl
  Ensures-if n k P false r s hr hs = hs refl

  -- A reader that reads more does what one that reads less must, and so with its values.
  pub Ensures-mono :
      (n k : ℕ) (P Q : A → Type 0) (r : Reader A)
      → ((a : A) → P a → Q a)
      → Ensures n P k r
      → Ensures n Q 0 r
  Ensures-mono n k P Q r imp h bs hb short = go (r bs) (h bs hb short)
    where
      go : (x : Result (A × List ℕ)) → EnsuresAt P k bs x → EnsuresAt Q 0 bs x
      go (ok (a, rest)) (p, hb', le, s) = (imp a p, hb', omega arith, s)
      go (err e) ne = ne
