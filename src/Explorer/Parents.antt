-- ===== src/Explorer/Parents.antt =====
-- web/src/state/explorer.ts: `parentPath` takes a level off a path.
use whats_going_on.Prelude.{
  ℕ, suc, ◌+◌, ◌≤◌, ◌<◌, ◌≡◌, refl, sym, ap, ◌∙◌, ◌⊎◌, inl, inr, true, false, ◌&&◌, Option, none,
  some, [], ◌∷◌, ◌++◌, length, take, ltb, if◌then◌else◌, arith, Bool-cases,
}
use whats_going_on.Wire.Message.{Text}
use whats_going_on.Explorer.Model.{same_text}
use whats_going_on.Explorer.Paths.{
  is_separator, is_empty, strip_separators, last_separator, path_root, non_empty, parent_path,
}
use whats_going_on.Explorer.View.{same_text_refl}
use whats_going_on.Explorer.Roots.{
  some-eq, none-some, clash, strip-separator, Rooted, EndsSeparated, path_root-Rooted,
  path_root-EndsSeparated,
}

-- The separators of a path, and those of them that names stand behind.
abbrev pub separators : Text → ℕ
separators [] = 0
separators (u ∷ us) = let rest = separators us in if is_separator u then suc rest else rest

abbrev pub levels : Text → ℕ
levels path = separators (strip_separators path)

separators-append : (us vs : Text) → separators (us ++ vs) ≡ separators us + separators vs
separators-append [] vs = omega arith
separators-append (u ∷ us) vs = let rest = separators-append us vs in ground arith

strip-separators_le : (us : Text) → separators (strip_separators us) ≤ separators us
unfolding strip_separators
strip-separators_le [] = omega arith
strip-separators_le (u ∷ us) =
    let rest = strip-separators_le us in
    elim (Bool-cases (is_separator u && is_empty (strip_separators us))) [
      | inl e ↦ rw e (omega arith)
      | inr e ↦ rw e (ground arith)
    ]

-- What is dropped at the end does not reach beyond a name.
strip-behind_none :
    (us vs : Text)
    → is_empty (strip_separators vs) ≡ true
    → strip_separators (us ++ vs) ≡ strip_separators us
unfolding strip_separators
strip-behind_none [] vs h = go (strip_separators vs) h
  where
    go : (t : Text) → is_empty t ≡ true → t ≡ []
    go [] h = refl
    go (v ∷ t) h = cc
strip-behind_none (u ∷ us) vs h = rw (strip-behind_none us vs h) refl

strip-behind_name :
    (us vs : Text)
    → is_empty (strip_separators vs) ≡ false
    → strip_separators (us ++ vs) ≡ us ++ strip_separators vs
unfolding strip_separators
strip-behind_name [] vs h = refl
strip-behind_name (u ∷ us) vs h =
    let rest = strip-behind_name us vs h in
    let more : is_empty (us ++ strip_separators vs) ≡ false = go us in
    rw (rest, more) (ground arith)
  where
    go : (us : Text) → is_empty (us ++ strip_separators vs) ≡ false
    go [] = h
    go (u ∷ us) = refl

same-clash : (s t : Text) → s ≡ t → same_text s t ≡ false → ⊥
same-clash s t e h = clash (sym (same_text_refl t) ∙ (ap (λ r. same_text r t) (sym e) ∙ h))

-- The root of a path that is below its root has fewer levels.
root-levels :
    (path root : Text)
    → Rooted path root
    → (root ≡ path) ⊎ EndsSeparated root
    → same_text (strip_separators path) (strip_separators root) ≡ false
    → levels root < levels path
root-levels path root rooted (inl same) e =
    absurd (same-clash _ _ (ap strip_separators (sym same)) e)
root-levels path root (inr longer) (inr (front, u, eq, sep)) e =
    absurd (same-clash _ _ (sym (ap strip_separators longer ∙ strip-separator path 92 refl)) e)
root-levels path root (inl (more, all)) (inr (front, u, eq, sep)) e =
    elim (Bool-cases (is_empty (strip_separators more))) [
      | inl h ↦ absurd (same-clash _ _ (ap strip_separators all ∙ strip-behind_none root more h) e)
      | inr h ↦
          let whole = ap separators (ap strip_separators all ∙ strip-behind_name root more h) in
          let split = separators-append root (strip_separators more) in
          let parts = ap separators eq ∙ separators-append front (u ∷ []) in
          let one : separators (u ∷ []) ≡ 1 = ground arith in
          let bare = ap separators (ap strip_separators eq ∙ strip-separator front u sep) in
          let less = strip-separators_le front in omega arith
    ]

-- In front of the last separator there is one separator less.
take-separators :
    (us : Text) (index : ℕ)
    → last_separator us ≡ some index
    → separators (take index us) < separators us
unfolding last_separator
take-separators [] index h = cc
take-separators (u ∷ us) index h = go (last_separator us) (λ i e. take-separators us i e) h
  where
    go :
        (o : Option ℕ)
        → ((i : ℕ) → o ≡ some i → separators (take i us) < separators us)
        → elim o as (λ x. Option ℕ) [
          | some index ↦ some (suc index)
          | none ↦ if is_separator u then some 0 else none
        ]
          ≡ some index
        → separators (take index (u ∷ us)) < separators (u ∷ us)
    go (some i) ih h =
        let same : suc i ≡ index = some-eq h in let less = ih i refl in rw (← same) (ground arith)
    go none ih h = elim (Bool-cases (is_separator u)) [
      | inl e ↦ let same : 0 ≡ index = some-eq (rw e at h) in rw (← same) (ground arith)
      | inr e ↦ absurd (none-some (rw e at h))
    ]

non_empty-eq : (us parent : Text) → non_empty us ≡ some parent → us ≡ parent
non_empty-eq [] parent h = absurd (none-some h)
non_empty-eq (u ∷ us) parent h = some-eq h

-- What is cut off in front of the last separator, or the root.
cut-levels :
    (path root parent : Text) (o : Option ℕ)
    → ((i : ℕ) → o ≡ some i → separators (take i (strip_separators path)) < levels path)
    → levels root < levels path
    → elim o as (λ x. Option Text) [
      | none ↦ none
      | some index ↦
          if ltb index (length root)
          then some root
          else non_empty (take index (strip_separators path))
    ]
      ≡ some parent
    → levels parent < levels path
cut-levels path root parent none fewer less h = absurd (none-some h)
cut-levels path root parent (some index) fewer less h =
    elim (Bool-cases (ltb index (length root))) [
      | inl e ↦ let same = ap levels (some-eq (rw e at h)) in omega (arith, same, less)
      | inr e ↦
          let same = ap separators (non_empty-eq _ parent (rw e at h)) in
          omega (arith, same, fewer index refl, strip-separators_le parent)
    ]

-- The parent of a path, if it has one, has fewer levels.
pub parent_path-levels :
    (path parent : Text) → parent_path path ≡ some parent → levels parent < levels path
unfolding parent_path
parent_path-levels path parent h =
    let root = (path_root path).0 in
    let trimmed = strip_separators path in
    elim (Bool-cases (same_text trimmed (strip_separators root))) [
      | inl e ↦ absurd (none-some (rw e at h))
      | inr e ↦
          cut-levels path root parent (last_separator trimmed) (take-separators trimmed)
            (root-levels path root (path_root-Rooted path) (path_root-EndsSeparated path) e)
            (rw e at h)
    ]
