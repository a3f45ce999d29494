-- ===== src/Explorer/Paths.antt =====
-- web/src/state/explorer.ts, lines 706-750: paths.
use whats_going_on.Prelude.{
  ℕ, suc, Bool, true, false, not, ◌&&◌, ◌||◌, Option, none, some, List, [], ◌∷◌, ◌++◌, length, take,
  drop, ltb, leb, ◌==◌, if◌then◌else◌,
}
use whats_going_on.Wire.Message.{Text}
use whats_going_on.Explorer.Model.{same_text}

-- The code units of `\`, `/` and `:`.
abbrev pub backslash : ℕ
backslash = 92

abbrev pub slash : ℕ
slash = 47

abbrev pub colon : ℕ
colon = 58

abbrev pub is_separator : ℕ → Bool
is_separator u = (u == backslash) || (u == slash)

-- `[A-Za-z]`.
abbrev pub is_letter : ℕ → Bool
is_letter u = (leb 65 u && leb u 90) || (leb 97 u && leb u 122)

abbrev pub is_empty : Text → Bool
is_empty [] = true
is_empty (u ∷ us) = false

-- `replace(/[\\/]+$/g, "")`.
unfoldable pub strip_separators : Text → Text
strip_separators [] = []
strip_separators (u ∷ us) =
    let rest = strip_separators us in if is_separator u && is_empty rest then [] else u ∷ rest

-- `Math.max(lastIndexOf("\\"), lastIndexOf("/"))`, with `none` for -1.
unfoldable pub last_separator : Text → Option ℕ
last_separator [] = none
last_separator (u ∷ us) = elim (last_separator us) [
  | some index ↦ some (suc index)
  | none ↦ if is_separator u then some 0 else none
]

abbrev pub ends_with : ℕ → Text → Bool
ends_with c [] = false
ends_with c (u ∷ []) = u == c
ends_with c (u ∷ v ∷ us) = ends_with c (v ∷ us)

abbrev pub includes : ℕ → Text → Bool
includes c [] = false
includes c (u ∷ us) = (u == c) || includes c us

-- `/^[A-Za-z]:[\\/]/`.
unfoldable pub drive_match : Text → Option Text
drive_match (a ∷ b ∷ c ∷ rest) =
    if is_letter a && (b == colon) && is_separator c then some (a ∷ b ∷ c ∷ []) else none
drive_match _ = none

-- The code units in front of the first backslash, and the others.
abbrev pub to_backslash : Text → Text × Text
to_backslash [] = ([], [])
to_backslash (u ∷ us) =
    let later = to_backslash us in if u == backslash then ([], u ∷ us) else (u ∷ later.0, later.1)

-- `[^\\]+\\?`, what it matches.
abbrev pub share_match : Text → Option Text
share_match us =
    let (share, rest) = to_backslash us in
    if is_empty share
    then none
    else some (if is_empty rest then share else share ++ (backslash ∷ []))

-- `/^\\\\[^\\]+\\[^\\]+\\?/`.
unfoldable pub unc_match : Text → Option Text
unc_match (a ∷ b ∷ us) =
    let (server, rest) = to_backslash us in
    if (a == backslash) && (b == backslash) && not (is_empty server) && not (is_empty rest)
    then elim (share_match (drop 1 rest)) [
      | none ↦ none
      | some share ↦ some (a ∷ b ∷ (server ++ (backslash ∷ share)))
    ]
    else none
unc_match _ = none

-- The root of a path that is neither.
unfoldable pub plain_root : Text → Text × ℕ
plain_root [] = ([], backslash)
plain_root (u ∷ us) =
    if u == slash
    then (slash ∷ [], slash)
    else (u ∷ us, if includes slash (u ∷ us) then slash else backslash)

-- `pathRoot`: the root and the separator.
unfoldable pub path_root : Text → Text × ℕ
unfolding drive_match unc_match plain_root
path_root path = elim (drive_match path) [
  | some root ↦ (root, if ends_with slash root then slash else backslash)
  | none ↦ elim (unc_match path) [
    | some share ↦
        (if ends_with backslash share then share else share ++ (backslash ∷ []), backslash)
    | none ↦ plain_root path
  ]
]

-- `text || undefined`.
abbrev pub non_empty : Text → Option Text
non_empty [] = none
non_empty (u ∷ us) = some (u ∷ us)

unfoldable pub parent_path : Text → Option Text
unfolding path_root strip_separators last_separator
parent_path path =
    let root = (path_root path).0 in
    let trimmed = strip_separators path in
    if same_text trimmed (strip_separators root) then none else elim (last_separator trimmed) [
      | none ↦ none
      | some index ↦ if ltb index (length root) then some root else non_empty (take index trimmed)
    ]

-- `split(/[\\/]+/).filter(Boolean)`, behind the start of a part.
unfoldable pub parts : Text → Text → List Text
parts part [] = if is_empty part then [] else part ∷ []
parts part (u ∷ us) =
    let begun = parts [] us in
    let longer = parts (part ++ (u ∷ [])) us in
    if is_separator u then (if is_empty part then begun else part ∷ begun) else longer

pub record Crumb : Type 0 where
  pub label : Text
  pub crumb_path : Option Text

-- "Root".
abbrev pub root_label : Text
root_label = 82 ∷ 111 ∷ 111 ∷ 116 ∷ []

-- The loop over the parts, from its `cursor`.
unfoldable pub crumbs_from : ℕ → Text → List Text → List Crumb
crumbs_from separator cursor [] = []
crumbs_from separator cursor (part ∷ more) =
    let next =
      if ends_with separator cursor then cursor ++ part else cursor ++ (separator ∷ part) in
    record { label = part; crumb_path = some next } ∷ crumbs_from separator next more

unfoldable pub path_crumbs : Option Text → List Crumb
unfolding path_root strip_separators parts crumbs_from
path_crumbs none = record { label = root_label; crumb_path = none } ∷ []
path_crumbs (some []) = record { label = root_label; crumb_path = none } ∷ []
path_crumbs (some (u ∷ us)) =
    let (root, separator) = path_root (u ∷ us) in
    record { label = root_label; crumb_path = none }
    ∷ record { label = root; crumb_path = some root }
    ∷ crumbs_from separator root (parts [] (strip_separators (drop (length root) (u ∷ us))))
