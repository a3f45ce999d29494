-- ===== src/Explorer/Roots.antt =====
-- web/src/state/explorer.ts: the root that `pathRoot` finds.
use whats_going_on.Prelude.{
  ℕ, ◌≡◌, refl, sym, ap, subst, ◌∙◌, ◌⊎◌, inl, inr, true, false, not, ◌&&◌, Option, none, some, [],
  ◌∷◌, ◌++◌, append_assoc, append-nil, drop, ◌==◌, if◌then◌else◌, arith, Bool-cases, Option-cases,
}
use whats_going_on.Wire.Message.{Text}
use whats_going_on.Explorer.Paths.{
  backslash, slash, is_separator, is_letter, is_empty, strip_separators, ends_with, drive_match,
  to_backslash, share_match, unc_match, plain_root, path_root,
}

pub some-eq : {A : Type 0} {a b : A} → some a ≡ some b → a ≡ b
some-eq h = cc

pub none-some : {A : Type 0} {a : A} → none ≡ some a → ⊥
none-some h = cc

pub clash : true ≡ false → ⊥
clash h = cc

-- A separator at the end is dropped.
pub strip-separator :
    (us : Text) (u : ℕ)
    → is_separator u ≡ true
    → strip_separators (us ++ (u ∷ [])) ≡ strip_separators us
unfolding strip_separators
strip-separator [] u h = rw h refl
strip-separator (v ∷ us) u h = rw (strip-separator us u h) refl

ends_with-append : (c : ℕ) (us : Text) → ends_with c (us ++ (c ∷ [])) ≡ true
ends_with-append c [] = ground arith
ends_with-append c (u ∷ []) = ground arith
ends_with-append c (u ∷ v ∷ us) = ends_with-append c (v ∷ us)

-- The root is a front of the path, or the path with a backslash behind it.
abbrev pub Rooted : Text → Text → Type 0
Rooted path root = ((more : Text) × (path ≡ root ++ more)) ⊎ (root ≡ path ++ (backslash ∷ []))

drive-Rooted :
    (path root : Text) → drive_match path ≡ some root → (more : Text) × (path ≡ root ++ more)
unfolding drive_match
drive-Rooted [] root h = cc
drive-Rooted (a ∷ []) root h = cc
drive-Rooted (a ∷ b ∷ []) root h = cc
drive-Rooted (a ∷ b ∷ c ∷ rest) root h =
    elim (Bool-cases (is_letter a && (b == 58) && is_separator c)) [
      | inl e ↦ (rest, ap (λ t. t ++ rest) (some-eq (rw e at h)))
      | inr e ↦ absurd (none-some (rw e at h))
    ]

to_backslash-append : (us : Text) → us ≡ (to_backslash us).0 ++ (to_backslash us).1
to_backslash-append [] = refl
to_backslash-append (u ∷ us) = elim (Bool-cases (u == backslash)) [
  | inl e ↦ rw e refl
  | inr e ↦ rw e (ap (λ t. u ∷ t) (to_backslash-append us))
]

-- What stands behind the part without a backslash starts with one.
to_backslash-rest :
    (us : Text)
    → ((to_backslash us).1 ≡ []) ⊎ ((more : Text) × ((to_backslash us).1 ≡ backslash ∷ more))
to_backslash-rest [] = inl refl
to_backslash-rest (u ∷ us) = elim (Bool-cases (u == backslash)) [
  | inl e ↦ let same : u ≡ backslash = ground arith in inr (us, rw e (ap (λ t. t ∷ us) same))
  | inr e ↦ rw e (to_backslash-rest us)
]

-- What the share's pattern matches is all, or a front with a backslash at its end.
abbrev Matched : Text → Text → Type 0
Matched path front =
    (front ≡ path) ⊎ ((more : Text) × (path ≡ front ++ more) × (ends_with backslash front ≡ true))

share-Matched : (us share : Text) → share_match us ≡ some share → Matched us share
share-Matched us share h = elim (Bool-cases (is_empty (to_backslash us).0)) [
  | inl e ↦ absurd (none-some (rw e at h))
  | inr e ↦ elim (to_backslash-rest us) [
    | inl whole ↦
        let same = some-eq (rw (e, whole) at h) in
        inl (
          sym same
          ∙ sym (
              to_backslash-append us
              ∙ (ap (λ t. (to_backslash us).0 ++ t) whole ∙ append-nil (to_backslash us).0)))
    | inr (more, behind) ↦
        let same = some-eq (rw (e, behind) at h) in
        inr (
          more,
          to_backslash-append us
              ∙ (ap (λ t. (to_backslash us).0 ++ t) behind
                  ∙ (sym (append_assoc (to_backslash us).0 (backslash ∷ []) more)
                      ∙ ap (λ t. t ++ more) same)),
          ap (ends_with backslash) (sym same) ∙ ends_with-append backslash (to_backslash us).0,
        )
  ]
]

ends_with-behind : (c : ℕ) (us vs : Text) → ends_with c vs ≡ true → ends_with c (us ++ vs) ≡ true
ends_with-behind c [] vs h = h
ends_with-behind c (u ∷ []) [] h = cc
ends_with-behind c (u ∷ []) (v ∷ vs) h = h
ends_with-behind c (u ∷ w ∷ us) vs h = ends_with-behind c (w ∷ us) vs h

unc_front :
    (a b : ℕ) (us server more share : Text)
    → us ≡ server ++ (backslash ∷ more)
    → Matched more share
    → Matched (a ∷ b ∷ us) (a ∷ b ∷ (server ++ (backslash ∷ share)))
unc_front a b us server more share all (inl same) =
    inl (ap (λ t. a ∷ b ∷ t) (ap (λ t. server ++ (backslash ∷ t)) same ∙ sym all))
unc_front a b us server more share all (inr (rest, eq, ends)) = inr (
  rest,
  ap (λ t. a ∷ b ∷ t)
      (all
        ∙ (ap (λ t. server ++ (backslash ∷ t)) eq
            ∙ sym (append_assoc server (backslash ∷ share) rest))),
  ends_with-behind backslash (a ∷ b ∷ server) (backslash ∷ share)
      (ends_with-behind backslash (backslash ∷ []) share ends),
)

unc-Matched : (path front : Text) → unc_match path ≡ some front → Matched path front
unfolding unc_match
unc-Matched [] front h = absurd (none-some h)
unc-Matched (a ∷ []) front h = absurd (none-some h)
unc-Matched (a ∷ b ∷ us) front h =
    let server = (to_backslash us).0 in
    let test =
      (a == 92) && (b == 92) && not (is_empty server) && not (is_empty (to_backslash us).1) in
    elim (Bool-cases test) [
      | inr e ↦ absurd (none-some (rw e at h))
      | inl e ↦ elim (to_backslash-rest us) [
        | inl whole ↦ let empty = ap is_empty whole in absurd (ground arith)
        | inr (more, behind) ↦
            let matching = ap (λ t. share_match (drop 1 t)) behind in
            let all : us ≡ server ++ (backslash ∷ more) =
              to_backslash-append us ∙ ap (λ t. server ++ t) behind in
            elim (Option-cases (share_match more)) [
              | inl out ↦ absurd (none-some (rw (e, matching ∙ out) at h))
              | inr (share, found) ↦
                  let same = some-eq (rw (e, matching ∙ found) at h) in
                  subst (Matched (a ∷ b ∷ us)) same
                    (unc_front a b us server more share all (share-Matched more share found))
            ]
      ]
    ]

Matched-Rooted :
    (path front : Text)
    → Matched path front
    → Rooted path (if ends_with backslash front then front else front ++ (backslash ∷ []))
Matched-Rooted path front (inl same) = elim (Bool-cases (ends_with backslash front)) [
  | inl e ↦ inl ([], rw e (sym same ∙ sym (append-nil front)))
  | inr e ↦ inr (rw (e, same) refl)
]
Matched-Rooted path front (inr (more, eq, ends)) = inl (more, rw ends eq)

plain-Rooted : (path : Text) → Rooted path (plain_root path).0
unfolding plain_root
plain-Rooted [] = inl ([], refl)
plain-Rooted (u ∷ us) = elim (Bool-cases (u == slash)) [
  | inl e ↦ let same : u ≡ slash = ground arith in inl (us, rw e (ap (λ t. t ∷ us) same))
  | inr e ↦ inl ([], rw e (sym (append-nil (u ∷ us))))
]

pub path_root-Rooted : (path : Text) → Rooted path (path_root path).0
unfolding path_root
path_root-Rooted path =
    go (drive_match path) (unc_match path) (drive-Rooted path) (unc-Matched path)
  where
    go :
        (drive unc : Option Text)
        → ((front : Text) → drive ≡ some front → (more : Text) × (path ≡ front ++ more))
        → ((front : Text) → unc ≡ some front → Matched path front)
        → Rooted path
            (elim drive as (λ x. Text × ℕ) [
              | some root ↦ (root, if ends_with slash root then slash else backslash)
              | none ↦ elim unc [
                | some share ↦ (
                  if ends_with backslash share then share else share ++ (backslash ∷ []),
                  backslash,
                )
                | none ↦ plain_root path
              ]
            ]).0
    go (some front) unc d u = inl (d front refl)
    go none (some front) d u = Matched-Rooted path front (u front refl)
    go none none d u = plain-Rooted path

-- A separator is its last code unit.
abbrev pub EndsSeparated : Text → Type 0
EndsSeparated root = (front : Text) × (u : ℕ) × (root ≡ front ++ (u ∷ [])) × (is_separator u ≡ true)

ends_with-EndsSeparated : (us : Text) → ends_with backslash us ≡ true → EndsSeparated us
ends_with-EndsSeparated [] h = cc
ends_with-EndsSeparated (u ∷ []) h = ([], u, refl, rw h refl)
ends_with-EndsSeparated (u ∷ v ∷ us) h =
    let (front, w, eq, sep) = ends_with-EndsSeparated (v ∷ us) h in
    (u ∷ front, w, ap (λ t. u ∷ t) eq, sep)

drive-EndsSeparated : (path root : Text) → drive_match path ≡ some root → EndsSeparated root
unfolding drive_match
drive-EndsSeparated [] root h = cc
drive-EndsSeparated (a ∷ []) root h = cc
drive-EndsSeparated (a ∷ b ∷ []) root h = cc
drive-EndsSeparated (a ∷ b ∷ c ∷ rest) root h =
    elim (Bool-cases (is_letter a && (b == 58) && is_separator c)) [
      | inl e ↦ (a ∷ b ∷ [], c, sym (some-eq (rw e at h)), ground arith)
      | inr e ↦ absurd (none-some (rw e at h))
    ]

share-EndsSeparated :
    (front : Text)
    → EndsSeparated (if ends_with backslash front then front else front ++ (backslash ∷ []))
share-EndsSeparated front = elim (Bool-cases (ends_with backslash front)) [
  | inl e ↦ rw e (ends_with-EndsSeparated front e)
  | inr e ↦ rw e (front, backslash, refl, refl)
]

plain-EndsSeparated :
    (path : Text) → ((plain_root path).0 ≡ path) ⊎ EndsSeparated (plain_root path).0
unfolding plain_root
plain-EndsSeparated [] = inl refl
plain-EndsSeparated (u ∷ us) = elim (Bool-cases (u == slash)) [
  | inl e ↦ inr (rw e ([], slash, refl, refl))
  | inr e ↦ inl (rw e refl)
]

-- The root is the path itself, or a separator stands at its end.
pub path_root-EndsSeparated :
    (path : Text) → ((path_root path).0 ≡ path) ⊎ EndsSeparated (path_root path).0
unfolding path_root
path_root-EndsSeparated path = go (drive_match path) (unc_match path) (drive-EndsSeparated path)
  where
    go :
        (drive unc : Option Text)
        → ((root : Text) → drive ≡ some root → EndsSeparated root)
        → (λ (r : Text). (r ≡ path) ⊎ EndsSeparated r)
            (elim drive as (λ x. Text × ℕ) [
              | some root ↦ (root, if ends_with slash root then slash else backslash)
              | none ↦ elim unc [
                | some share ↦ (
                  if ends_with backslash share then share else share ++ (backslash ∷ []),
                  backslash,
                )
                | none ↦ plain_root path
              ]
            ]).0
    go (some root) unc d = inr (d root refl)
    go none (some front) d = inr (share-EndsSeparated front)
    go none none d = plain-EndsSeparated path
