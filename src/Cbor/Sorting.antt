-- ===== src/Cbor/Sorting.antt =====
-- web/src/protocol/cbor.ts: the sort of a map's entries before they are written.
use whats_going_on.Prelude.{
  suc, ◌≡◌, refl, ◌∙◌, subst, Bool, false, ◌||◌, List, [], ◌∷◌, arith, length, Bool-cases, inl, inr,
}
use whats_going_on.Prelude.Int.{ℤ, ◌==ℤ◌, ==ℤ_iff, ltbℤ}
use whats_going_on.Cbor.Encode.{insert_by_key, sort_by_key}

module _ {ℓ} {A : Type ℓ} where
  abbrev pub has_key : ℤ → List (ℤ × A) → Bool
  has_key k [] = false
  has_key k ((j, a) ∷ rest) = (j ==ℤ k) || has_key k rest

  -- No key comes twice.
  abbrev pub Distinct : List (ℤ × A) → Type 0
  Distinct [] = Unit
  Distinct ((k, a) ∷ rest) = (has_key k rest ≡ false) × Distinct rest

  has_key-insert :
      (j k : ℤ) (a : A) (xs : List (ℤ × A))
      → has_key j (insert_by_key k a xs) ≡ ((k ==ℤ j) || has_key j xs)
  has_key-insert j k a [] = refl
  has_key-insert j k a ((i, b) ∷ xs) = ground (arith, has_key-insert j k a xs)

  has_key-sort : (j : ℤ) (xs : List (ℤ × A)) → has_key j (sort_by_key xs) ≡ has_key j xs
  has_key-sort j [] = refl
  has_key-sort j ((k, a) ∷ xs) =
      ground (arith, has_key-insert j k a (sort_by_key xs), has_key-sort j xs)

  insert-Distinct :
      (k : ℤ) (a : A) (xs : List (ℤ × A))
      → has_key k xs ≡ false
      → Distinct xs
      → Distinct (insert_by_key k a xs)
  insert-Distinct k a [] h d = (refl, tt)
  insert-Distinct k a ((j, b) ∷ xs) h d =
      ground (arith, insert-Distinct k a xs, has_key-insert j k a xs, ==ℤ_iff j k, ==ℤ_iff k j)

  pub sort-Distinct : (xs : List (ℤ × A)) → Distinct xs → Distinct (sort_by_key xs)
  sort-Distinct [] d = tt
  sort-Distinct ((k, a) ∷ xs) d =
      insert-Distinct k a (sort_by_key xs) (has_key-sort k xs ∙ d.0) (sort-Distinct xs d.1)

  length-insert :
      (k : ℤ) (a : A) (xs : List (ℤ × A)) → length (insert_by_key k a xs) ≡ suc (length xs)
  length-insert k a [] = refl
  length-insert k a ((j, b) ∷ xs) = ground (arith, length-insert k a xs)

  pub length-sort : (xs : List (ℤ × A)) → length (sort_by_key xs) ≡ length xs
  length-sort [] = refl
  length-sort ((k, a) ∷ xs) = ground (arith, length-insert k a (sort_by_key xs), length-sort xs)

-- Two lists of entries with the same keys, whose items are related.
module _ {ℓ κ} {A : Type ℓ} {B : Type κ} (R : ℤ → A → B → Type 0) where
  abbrev pub Matched : List (ℤ × A) → List (ℤ × B) → Type 0
  Matched [] [] = Unit
  Matched ((j, a) ∷ xs) ((k, b) ∷ ys) = (j ≡ k) × R j a b × Matched xs ys
  Matched _ _ = ⊥

  insert-Matched :
      (k : ℤ) (a : A) (b : B) (xs : List (ℤ × A)) (ys : List (ℤ × B))
      → R k a b
      → Matched xs ys
      → Matched (insert_by_key k a xs) (insert_by_key k b ys)
  insert-Matched k a b [] [] r m = (refl, r, tt)
  insert-Matched k a b ((i, x) ∷ xs) ((j, y) ∷ ys) r m = elim (Bool-cases (ltbℤ i k)) [
    | inl e ↦ rw (e, rw m.0 at e) (m.0, m.1, insert-Matched k a b xs ys r m.2)
    | inr e ↦ rw (e, rw m.0 at e) (refl, r, m)
  ]
  insert-Matched k a b [] (y ∷ ys) r m = absurd m
  insert-Matched k a b (x ∷ xs) [] r m = absurd m

  pub sort-Matched :
      (xs : List (ℤ × A)) (ys : List (ℤ × B))
      → Matched xs ys
      → Matched (sort_by_key xs) (sort_by_key ys)
  sort-Matched [] [] m = tt
  sort-Matched ((j, a) ∷ xs) ((k, b) ∷ ys) m =
      subst (λ i. Matched (sort_by_key ((j, a) ∷ xs)) (insert_by_key i b (sort_by_key ys))) m.0
        (insert-Matched j a b (sort_by_key xs) (sort_by_key ys) m.1 (sort-Matched xs ys m.2))
  sort-Matched [] (y ∷ ys) m = absurd m
  sort-Matched (x ∷ xs) [] m = absurd m
