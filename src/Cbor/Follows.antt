-- ===== src/Cbor/Follows.antt =====
-- web/src/protocol/cbor.ts: what the readers make of the first bytes of an input, before the rest
-- has arrived, and of more fuel.
use whats_going_on.Prelude.{
  ℕ, zero, suc, ◌+◌, ◌*◌, ◌≤◌, ◌≡◌, refl, ◌⊎◌, inl, inr, Bool, true, false, List, [], ◌∷◌, ◌++◌,
  append-nil, arith, length, take, drop, length-append, ltb, ◌==◌, le→ltb, if◌then◌else◌,
  Bool-cases,
}
use whats_going_on.Cbor.Value.{
  Error, Result, ok, err, ◌>>=◌, unexpected_end, outside_safe_range, unsupported_length,
  max_safe_u64_high, max_safe_negative_argument, two_32,
}
use whats_going_on.Cbor.Decode.{
  Reader, read, read_bytes, fixed_uint_loop, read_fixed_uint, safe_unsigned, read_u64_as_u53,
  read_arg, read_negative_arg,
}

-- A result, with more bytes behind those that are left.
abbrev pub extend {ℓ} : {A : Type ℓ} → List ℕ → Result (A × List ℕ) → Result (A × List ℕ)
extend ys (ok (a, rest)) = ok (a, rest ++ ys)
extend ys (err e) = err e

-- `r` fails with `bad` on `xs`, or `s` does with `ys` behind them what `r` does.
abbrev pub FollowsAt : {A : Type 0} → Error → List ℕ → Reader A → Reader A → List ℕ → Type 0
FollowsAt bad ys r s xs = (r xs ≡ err bad) ⊎ (s (xs ++ ys) ≡ extend ys (r xs))

pub record Follows {A : Type 0} (bad : Error) (ys : List ℕ) (r s : Reader A) : Type 0 where
  pub at : (xs : List ℕ) → FollowsAt bad ys r s xs

module _ (bad : Error) (ys : List ℕ) where
  module _ {A B : Type 0} where
    pub Follows-bind :
        (m m' : Reader A) (f f' : A → Reader B)
        → Follows bad ys m m'
        → ((a : A) → Follows bad ys (f a) (f' a))
        → Follows bad ys
            (λ bs. m bs >>= λ (a, rest). f a rest)
            (λ bs. m' bs >>= λ (a, rest). f' a rest)
    Follows-bind m m' f f' hm hf = record { at = λ xs. go xs (m xs) refl (hm.at xs) }
      where
        go :
            (xs : List ℕ) (r : Result (A × List ℕ))
            → m xs ≡ r
            → FollowsAt bad ys m m' xs
            → FollowsAt bad ys
                (λ bs. m bs >>= λ (a, rest). f a rest)
                (λ bs. m' bs >>= λ (a, rest). f' a rest)
                xs
        go xs r e (inl short) = inl (rw short)
        go xs (ok (a, rest)) e (inr same) = elim ((hf a).at rest) [
          | inl short ↦ inl (rw e short)
          | inr grow ↦ inr (rw (same, e) grow)
        ]
        go xs (err x) e (inr same) = inr (rw (same, e))

  module _ {A : Type 0} where
    pub Follows-ok : (a : A) → Follows bad ys (λ bs. ok (a, bs)) (λ bs. ok (a, bs))
    Follows-ok a = record { at = λ xs. inr refl }

    pub Follows-err : (e : Error) → Follows {A = A} bad ys (λ bs. err e) (λ bs. err e)
    Follows-err e = record { at = λ xs. inr refl }

    pub Follows-if :
        (b : Bool) (r r' s s' : Reader A)
        → Follows bad ys r r'
        → Follows bad ys s s'
        → Follows bad ys (λ bs. if b then r bs else s bs) (λ bs. if b then r' bs else s' bs)
    Follows-if true r r' s s' hr hs = hr
    Follows-if false r r' s s' hr hs = hs

    pub Follows-result {ℓ} :
        {B : Type ℓ} (m : Result B) (f f' : B → Reader A)
        → ((b : B) → Follows bad ys (f b) (f' b))
        → Follows bad ys (λ bs. m >>= λ b. f b bs) (λ bs. m >>= λ b. f' b bs)
    Follows-result (ok b) f f' h = h b
    Follows-result (err e) f f' h = record { at = λ xs. inr refl }

take-append : (n : ℕ) (xs ys : List ℕ) → n ≤ length xs → take n (xs ++ ys) ≡ take n xs
take-append zero xs ys h = refl
take-append (suc n) [] ys h = absurd (omega arith)
take-append (suc n) (x ∷ xs) ys h = rw (take-append n xs ys (omega arith))

drop-append : (n : ℕ) (xs ys : List ℕ) → n ≤ length xs → drop n (xs ++ ys) ≡ drop n xs ++ ys
drop-append zero xs ys h = refl
drop-append (suc n) [] ys h = absurd (omega arith)
drop-append (suc n) (x ∷ xs) ys h = drop-append n xs ys (omega arith)

-- An end of input is `bad`, or nothing follows.
abbrev pub Edge : Error → List ℕ → Type 0
Edge bad ys = (bad ≡ unexpected_end) ⊎ (ys ≡ [])

same_input :
    {A : Type 0} (r : Reader A) (bad : Error) (ys xs : List ℕ)
    → r xs ≡ err unexpected_end
    → Edge bad ys
    → FollowsAt bad ys r r xs
same_input r bad ys xs h (inl e) = inl (rw (e, h))
same_input r bad ys xs h (inr e) = inr (rw (e, append-nil, h))

module _ (bad : Error) (ys : List ℕ) (edge : Edge bad ys) where
  pub read-Follows : Follows bad ys read read
  unfolding read
  read-Follows = record { at = go }
    where
      go : (xs : List ℕ) → FollowsAt bad ys read read xs
      go [] = same_input read bad ys [] refl edge
      go (x ∷ xs) = inr refl

  pub read_bytes-Follows : (n : ℕ) → Follows bad ys (read_bytes n) (read_bytes n)
  unfolding read_bytes
  read_bytes-Follows n = record {
    at = λ xs. elim (Bool-cases (ltb (length xs) n)) [
      | inl short ↦ same_input (read_bytes n) bad ys xs (rw short) edge
      | inr long ↦ inr (
          rw (
            long,
            le→ltb (length (xs ++ ys)) n (ground (arith, length-append xs ys)),
            take-append n xs ys (ground arith),
            drop-append n xs ys (ground arith),
          ))
    ];
  }

  fixed_uint_loop-Follows :
      (len value : ℕ) → Follows bad ys (fixed_uint_loop len value) (fixed_uint_loop len value)
  unfolding fixed_uint_loop
  fixed_uint_loop-Follows zero value = Follows-ok bad ys value
  fixed_uint_loop-Follows (suc len) value =
      Follows-bind bad ys read read _ _ read-Follows
        (λ b. fixed_uint_loop-Follows len (value * 256 + b))

  read_fixed_uint-Follows : (len : ℕ) → Follows bad ys (read_fixed_uint len) (read_fixed_uint len)
  unfolding read_fixed_uint
  read_fixed_uint-Follows len = fixed_uint_loop-Follows len 0

  read_u64_as_u53-Follows : Follows bad ys read_u64_as_u53 read_u64_as_u53
  unfolding read_u64_as_u53
  read_u64_as_u53-Follows =
      Follows-bind bad ys (read_fixed_uint 4) _ _ _ (read_fixed_uint-Follows 4) λ high.
        Follows-bind bad ys (read_fixed_uint 4) _ _ _ (read_fixed_uint-Follows 4) λ low.
          Follows-if bad ys (ltb max_safe_u64_high high) _ _ _ _
            (Follows-err bad ys outside_safe_range)
            (Follows-result bad ys (safe_unsigned (high * two_32 + low)) _ _ (Follows-ok bad ys))

  pub read_arg-Follows :
      (additional : ℕ) → Follows bad ys (read_arg additional) (read_arg additional)
  unfolding read_arg
  read_arg-Follows additional =
      Follows-if bad ys (ltb additional 24) _ _ _ _ (Follows-ok bad ys additional) (
        Follows-if bad ys (additional == 24) _ _ _ _ read-Follows (
          Follows-if bad ys (additional == 25) _ _ _ _ (read_fixed_uint-Follows 2) (
            Follows-if bad ys (additional == 26) _ _ _ _ (read_fixed_uint-Follows 4) (
              Follows-if bad ys (additional == 27) _ _ _ _ read_u64_as_u53-Follows
                (Follows-err bad ys unsupported_length)))))

  pub read_negative_arg-Follows :
      (additional : ℕ)
      → Follows bad ys (read_negative_arg additional) (read_negative_arg additional)
  unfolding read_negative_arg
  read_negative_arg-Follows additional =
      Follows-bind bad ys (read_arg additional) _ _ _ (read_arg-Follows additional) λ value.
        Follows-if bad ys (ltb max_safe_negative_argument value) _ _ _ _
          (Follows-err bad ys outside_safe_range) (Follows-ok bad ys value)
