-- ===== src/Explorer/View.antt =====
-- web/src/state/explorer.ts: the rows of a table as a map from keys to entries.
use whats_going_on.Prelude.{
  ◌≡◌, refl, ap, ◌∙◌, inl, inr, Bool, true, false, ◌||◌, Option, none, some, List, [], ◌∷◌, ◌++◌,
  if◌then◌else◌, if_false, arith, Bool-cases,
}
use whats_going_on.Wire.Message.{Text}
use whats_going_on.Explorer.Model.{same_text, FsEntry}
use whats_going_on.Explorer.Rows.{has_text, keys_of, keep}

pub same_text-eq : (s t : Text) → same_text s t ≡ true → s ≡ t
same_text-eq [] [] h = refl
same_text-eq [] (v ∷ vs) h = cc
same_text-eq (u ∷ us) [] h = cc
same_text-eq (u ∷ us) (v ∷ vs) h =
    let head : u ≡ v = ground arith in
    let tail : us ≡ vs = same_text-eq us vs (ground arith) in rw (head, tail) refl

pub same_text_refl : (s : Text) → same_text s s ≡ true
same_text_refl [] = refl
same_text_refl (u ∷ us) = let rest = same_text_refl us in ground arith

pub same_text_comm : (s t : Text) → same_text s t ≡ same_text t s
same_text_comm [] [] = refl
same_text_comm [] (v ∷ vs) = refl
same_text_comm (u ∷ us) [] = refl
same_text_comm (u ∷ us) (v ∷ vs) = let rest = same_text_comm us vs in ground arith

-- The entry with a key: the first one.
abbrev pub lookup : (FsEntry → Text) → Text → List FsEntry → Option FsEntry
lookup key k [] = none
lookup key k (e ∷ es) = let rest = lookup key k es in if same_text (key e) k then some e else rest

-- No two entries have one key.
abbrev pub Distinct : (FsEntry → Text) → List FsEntry → Type 0
Distinct key [] = Unit
Distinct key (e ∷ es) = (has_text (key e) (keys_of key es) ≡ false) × Distinct key es

abbrev pub or_entry : Option FsEntry → Option FsEntry → Option FsEntry
or_entry (some e) o = some e
or_entry none o = o

module _ (key : FsEntry → Text) where
  pub lookup-append :
      (k : Text) (xs ys : List FsEntry)
      → lookup key k (xs ++ ys) ≡ or_entry (lookup key k xs) (lookup key k ys)
  lookup-append k [] ys = refl
  lookup-append k (x ∷ xs) ys =
      let rest = lookup-append k xs ys in
      elim (Bool-cases (same_text (key x) k)) [ inl e ↦ rw e refl | inr e ↦ rw e rest ]

  pub has_text-append :
      (t : Text) (xs ys : List FsEntry)
      → has_text t (keys_of key (xs ++ ys))
        ≡ (has_text t (keys_of key xs) || has_text t (keys_of key ys))
  has_text-append t [] ys = refl
  has_text-append t (x ∷ xs) ys = let rest = has_text-append t xs ys in ground arith

  pub lookup-absent :
      (k : Text) (xs : List FsEntry) → has_text k (keys_of key xs) ≡ false → lookup key k xs ≡ none
  lookup-absent k [] h = refl
  lookup-absent k (x ∷ xs) h =
      let rest = lookup-absent k xs (ground arith) in
      let other : same_text (key x) k ≡ false = ground arith in rw other rest

  pub lookup-present :
      (k : Text) (xs : List FsEntry)
      → has_text k (keys_of key xs) ≡ true
      → (e : FsEntry) × (lookup key k xs ≡ some e)
  lookup-present k [] h = cc
  lookup-present k (x ∷ xs) h = elim (Bool-cases (same_text (key x) k)) [
    | inl e ↦ (x, rw e refl)
    | inr e ↦ let (y, found) = lookup-present k xs (ground arith) in (y, rw e found)
  ]

  -- A filter that goes by the keys.
  pub lookup-keep :
      (q : Text → Bool) (k : Text) (xs : List FsEntry)
      → lookup key k (keep (λ e. q (key e)) xs) ≡ (if q k then lookup key k xs else none)
  lookup-keep q k [] = elim (Bool-cases (q k)) [ inl e ↦ rw e refl | inr e ↦ rw e refl ]
  lookup-keep q k (x ∷ xs) =
      let rest = lookup-keep q k xs in
      elim (Bool-cases (same_text (key x) k)) [
        | inl e ↦
            let at : q (key x) ≡ q k = ap q (same_text-eq (key x) k e) in
            elim (Bool-cases (q k)) [
              | inl kept ↦ rw (at, kept, e) refl
              | inr gone ↦ rw (at, gone) (rest ∙ if_false _ none gone)
            ]
        | inr e ↦ elim (Bool-cases (q (key x))) [
          | inl kept ↦ rw (kept, e) rest
          | inr gone ↦ rw (gone, e) rest
        ]
      ]

  pub has_text-keep :
      (q : Text → Bool) (t : Text) (xs : List FsEntry)
      → has_text t (keys_of key xs) ≡ false
      → has_text t (keys_of key (keep (λ e. q (key e)) xs)) ≡ false
  has_text-keep q t [] h = refl
  has_text-keep q t (x ∷ xs) h =
      let rest = has_text-keep q t xs (ground arith) in
      let other : same_text (key x) t ≡ false = ground arith in
      elim (Bool-cases (q (key x))) [ inl e ↦ rw (e, other) rest | inr e ↦ rw e rest ]

  pub keep-Distinct :
      (q : Text → Bool) (xs : List FsEntry)
      → Distinct key xs
      → Distinct key (keep (λ e. q (key e)) xs)
  keep-Distinct q [] h = tt
  keep-Distinct q (x ∷ xs) h =
      let rest = keep-Distinct q xs h.1 in
      elim (Bool-cases (q (key x))) [
        | inl e ↦ rw e (has_text-keep q (key x) xs h.0, rest)
        | inr e ↦ rw e rest
      ]

  -- Rows that are put behind others whose keys they do not have.
  pub append-Distinct :
      (q : Text → Bool) (xs ys : List FsEntry)
      → Distinct key xs
      → Distinct key ys
      → ((t : Text) → q t ≡ true → has_text t (keys_of key ys) ≡ false)
      → Distinct key (keep (λ e. q (key e)) xs ++ ys)
  append-Distinct q [] ys hx hy apart = hy
  append-Distinct q (x ∷ xs) ys hx hy apart =
      let rest = append-Distinct q xs ys hx.1 hy apart in
      elim (Bool-cases (q (key x))) [
        | inl e ↦ rw e (
          (has_text-append (key x) (keep (λ e. q (key e)) xs) ys
              ∙ rw (has_text-keep q (key x) xs hx.0) (apart (key x) e)),
          rest,
        )
        | inr e ↦ rw e rest
      ]
