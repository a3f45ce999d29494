-- ===== src/Cbor/Incremental.antt =====
-- web/src/protocol/cbor.ts: `decodeCborSequencePrefix` on a buffer that grows.
use whats_going_on.Prelude.{
  ℕ, zero, suc, ◌+◌, ◌-◌, ◌≤◌, ◌<◌, ◌≡◌, refl, sym, ap, subst, ◌∙◌, ◌≢◌, inl, inr, List, [], ◌∷◌,
  ◌++◌, append_assoc, arith, length, length-append, All, All-append, Bool-cases,
}
use whats_going_on.Cbor.Value.{Value, Error, Result, ok, err, ◌>>=◌, Platform, IsByte, out_of_fuel}
use whats_going_on.Cbor.Decode.{decode}
use whats_going_on.Cbor.Sequence.{PrefixItem, is_unexpected_end, prefix_item, prefix_loop}
use whats_going_on.Cbor.Profile.{Profile, EnsuresAt, Suffix}
use whats_going_on.Cbor.Ensures.{decode-Ensures}
use whats_going_on.Cbor.Follows.{extend}
use whats_going_on.Cbor.Streaming.{decode-append, decode_more_fuel}

pub decode-ne-out_of_fuel :
    (p : Platform) (f : ℕ) (bs : List ℕ)
    → All IsByte bs
    → length bs < f
    → decode p f bs ≢ err out_of_fuel
decode-ne-out_of_fuel p f bs hb short e =
    subst (EnsuresAt Profile 1 bs) e (decode-Ensures p f bs hb short) refl

pub decode_enough :
    (p : Platform) (f g : ℕ) (bs : List ℕ)
    → All IsByte bs
    → length bs < f
    → f ≤ g
    → decode p g bs ≡ decode p f bs
decode_enough p f g bs hb short le = elim (decode_more_fuel p f g bs le) [
  | inl e ↦ absurd (decode-ne-out_of_fuel p f bs hb short e)
  | inr e ↦ e
]

pub prefix_enough :
    (p : Platform) (f g offset : ℕ) (bs : List ℕ)
    → All IsByte bs
    → length bs < f
    → f ≤ g
    → prefix_loop p g offset bs ≡ prefix_loop p f offset bs
unfolding prefix_loop
prefix_enough p zero g offset bs hb short le = elim short [ ]
prefix_enough p (suc f) zero offset bs hb short le = absurd (omega arith)
prefix_enough p (suc f) (suc g) offset [] hb short le = refl
prefix_enough p (suc f) (suc g) offset (b ∷ bs) hb short le =
    rw (decode_enough p (suc f) (suc g) (b ∷ bs) hb short le) (
      go (decode p (suc f) (b ∷ bs)) (decode-Ensures p (suc f) (b ∷ bs) hb short)
        (λ e rest. prefix_enough p f g e rest))
  where
    go :
        (r : Result (Value × List ℕ))
        → EnsuresAt Profile 1 (b ∷ bs) r
        → ((e : ℕ) (rest : List ℕ)
            → All IsByte rest
            → length rest < f
            → f ≤ g
            → prefix_loop p g e rest ≡ prefix_loop p f e rest)
        → prefix_item (prefix_loop p g) offset (length (b ∷ bs)) r
          ≡ prefix_item (prefix_loop p f) offset (length (b ∷ bs)) r
    go (ok (v, rest)) (pv, hb', less, s) ih =
        rw (ih (offset + (length (b ∷ bs) - length rest)) rest hb' (omega arith) (omega arith))
    go (err e) ne ih = refl

-- Items found before those of a later part.
abbrev pub prepend : List PrefixItem → Result (List PrefixItem) → Result (List PrefixItem)
prepend items r = r >>= λ later. ok (items ++ later)

prepend-nil : (r : Result (List PrefixItem)) → prepend [] r ≡ r
prepend-nil (ok items) = refl
prepend-nil (err e) = refl

prepend-cons :
    (i : PrefixItem) (items : List PrefixItem) (r : Result (List PrefixItem))
    → (prepend items r >>= λ later. ok (i ∷ later)) ≡ prepend (i ∷ items) r
prepend-cons i items (ok later) = refl
prepend-cons i items (err e) = refl

-- The offset behind the last item.
abbrev pub end_of : ℕ → List PrefixItem → ℕ
end_of offset [] = offset
end_of offset (i ∷ items) = end_of i.end_offset items

-- The items of `xs` are found first when `ys` follows, and the loop goes on behind the last of them.
abbrev pub Split : Platform → ℕ → ℕ → List ℕ → List ℕ → List PrefixItem → Type 0
Split p g offset xs ys items =
    (left : List ℕ) × Suffix left xs
    × (end_of offset items + length left ≡ offset + length xs)
    × (prefix_loop p g offset (xs ++ ys)
        ≡ prepend items (prefix_loop p g (end_of offset items) (left ++ ys)))

pub suffix-IsByte : (left xs : List ℕ) → Suffix left xs → All IsByte xs → All IsByte left
suffix-IsByte left xs (front, e) h = go front (subst (All IsByte) e h)
  where
    go : (front : List ℕ) → All IsByte (front ++ left) → All IsByte left
    go [] h = h
    go (b ∷ front) h = go front h.1

nothing_read : (p : Platform) (g offset : ℕ) (xs ys : List ℕ) → Split p g offset xs ys []
nothing_read p g offset xs ys = (xs, ([], refl), refl, sym (prepend-nil _))

pub bind-eq-ok :
    {A B : Type 0} (r : Result A) (f : A → Result B) {b : B}
    → (r >>= f) ≡ ok b
    → (a : A) × (r ≡ ok a) × (f a ≡ ok b)
bind-eq-ok (ok a) f h = (a, refl, h)
bind-eq-ok (err e) f h = cc

pub ok-injective : {A : Type 0} {a b : A} → ok a ≡ ok b → a ≡ b
ok-injective h = cc

-- What `decode` returns on `xs` it returns on `xs ++ ys` too, on any more fuel.
decode_grow :
    (p : Platform) (f g : ℕ) (xs ys : List ℕ) {v : Value} {rest : List ℕ}
    → f ≤ g
    → decode p f xs ≡ ok (v, rest)
    → decode p g (xs ++ ys) ≡ ok (v, rest ++ ys)
decode_grow p f g xs ys le d = elim (decode-append p f xs ys) [
  | inl short ↦ cc
  | inr same ↦ elim (decode_more_fuel p f g (xs ++ ys) le) [
    | inl out ↦ absurd (clash (sym out ∙ (same ∙ ap (extend ys) d)))
    | inr more ↦ more ∙ (same ∙ ap (extend ys) d)
  ]
]
  where
    clash : {A : Type 0} {a : A} → err out_of_fuel ≡ ok a → ⊥
    clash e = cc

-- One round of the loop, with what is known of the later ones.
item-Split :
    (p : Platform) (f g offset b : ℕ) (bs ys : List ℕ) (items : List PrefixItem)
    (r : Result (Value × List ℕ))
    → All IsByte (b ∷ bs)
    → All IsByte ys
    → f ≤ g
    → length (b ∷ bs ++ ys) < suc g
    → decode p (suc f) (b ∷ bs) ≡ r
    → EnsuresAt Profile 1 (b ∷ bs) r
    → prefix_item (prefix_loop p f) offset (length (b ∷ bs)) r ≡ ok items
    → ((e : ℕ) (rest : List ℕ) (later : List PrefixItem)
        → All IsByte rest
        → length rest ≤ length bs
        → prefix_loop p f e rest ≡ ok later
        → Split p g e rest ys later)
    → Split p (suc g) offset (b ∷ bs) ys items
unfolding prefix_loop
item-Split p f g offset b bs ys items (ok (v, rest)) hx hy le long d (pv, hb', less, (front, ef)) e
      ih =
    let (later, found, built) = bind-eq-ok (prefix_loop p f behind rest) _ e in
    let (left, (front', el), len, eq) = ih behind rest later hb' (omega arith) found in
    let suffix : Suffix left (b ∷ bs) =
      (front ++ front', ef ∙ (ap (λ t. front ++ t) el ∙ sym (append_assoc front front' left))) in
    let enough =
      prefix_enough p g (suc g) (end_of behind later) (left ++ ys)
        (All-append IsByte left ys (suffix-IsByte left (b ∷ bs) suffix hx) hy)
        (omega (
          arith,
          length-append left ys,
          length-append bs ys,
          ap length el,
          length-append front' left,
        ))
        (omega arith) in
    subst (Split p (suc g) offset (b ∷ bs) ys) (ok-injective built) (
      left,
      suffix,
      omega (arith, len),
      rw (decode_grow p (suc f) (suc g) (b ∷ bs) ys (omega arith) d)
          (rw (shifted, eq, enough) (prepend-cons item later _)),
    )
  where
    behind : ℕ
    behind = offset + (length (b ∷ bs) - length rest)

    item : PrefixItem
    item = record { value = v; end_offset = behind }

    shifted : offset + (length (b ∷ bs ++ ys) - length (rest ++ ys)) ≡ behind
    shifted = omega (arith, length-append bs ys, length-append rest ys)
item-Split p f g offset b bs ys items (err x) hx hy le long d ne e ih =
    elim (Bool-cases (is_unexpected_end x)) [
      | inl t ↦
          subst (Split p (suc g) offset (b ∷ bs) ys) (ok-injective (rw t at e))
            (nothing_read p (suc g) offset (b ∷ bs) ys)
      | inr t ↦ absurd (clash (rw t at e))
    ]
  where
    clash : {A : Type 0} {a : A} {y : Error} → err y ≡ ok a → ⊥
    clash h = cc

pub prefix-Split :
    (p : Platform) (f g offset : ℕ) (xs ys : List ℕ) (items : List PrefixItem)
    → All IsByte xs
    → All IsByte ys
    → length xs < f
    → f ≤ g
    → length (xs ++ ys) < g
    → prefix_loop p f offset xs ≡ ok items
    → Split p g offset xs ys items
unfolding prefix_loop
prefix-Split p zero g offset xs ys items hx hy short le long e = elim short [ ]
prefix-Split p (suc f) zero offset xs ys items hx hy short le long e = absurd (omega arith)
prefix-Split p (suc f) (suc g) offset [] ys items hx hy short le long e =
    subst (Split p (suc g) offset [] ys) (ok-injective e) (nothing_read p (suc g) offset [] ys)
prefix-Split p (suc f) (suc g) offset (b ∷ bs) ys items hx hy short le long e =
    item-Split p f g offset b bs ys items (decode p (suc f) (b ∷ bs)) hx hy (omega arith) long refl
      (decode-Ensures p (suc f) (b ∷ bs) hx short) e
      (λ offset' rest later hr h found.
        prefix-Split p f g offset' rest ys later hr hy (omega arith) (omega arith)
          (omega (arith, length-append rest ys, length-append bs ys)) found)
