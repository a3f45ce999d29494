-- ===== src/Explorer/Back.antt =====
-- web/src/state/explorer.ts: the way back through the history, and the way up.
use whats_going_on.Prelude.{
  ℕ, zero, suc, ◌-◌, ◌≤◌, ◌<◌, ◌≡◌, refl, sym, ap, ◌∙◌, ◌⊎◌, inl, inr, Bool, true, false, Option,
  none, some, List, [], ◌∷◌, ◌++◌, length, if◌then◌else◌, arith, Bool-cases, Option-cases,
}
use whats_going_on.Wire.Message.{Text}
use whats_going_on.Explorer.Model.{same_optional_text, FsEntry}
use whats_going_on.Explorer.Paths.{parent_path}
use whats_going_on.Explorer.Parents.{levels, parent_path-levels}
use whats_going_on.Explorer.Navigation.{
  trash_location_path, ExplorerLocation, root, trash, directory, file, Navigation,
  location_from_path, navigate_to, navigate_trash, navigate, split_last, go_back, go_up, open_entry,
  open_file, is_directory,
}

split_last-append :
    (ls : List ExplorerLocation) (l : ExplorerLocation) → split_last (ls ++ (l ∷ [])) ≡ some (ls, l)
split_last-append [] l = refl
split_last-append (m ∷ ls) l = rw (split_last-append ls l) refl

-- The ways to another location that the user has.
pub data Move : Type 0 where
  to_path : Option Text → Move
  to_trash up : Move
  to_entry : FsEntry → Move
  to_file : FsEntry → Move

abbrev pub move : Move → Navigation → Navigation
move (to_path path) n = navigate path n
move to_trash n = navigate_trash n
move up n = go_up n
move (to_entry entry) n = open_entry entry n
move (to_file entry) n = open_file entry n

abbrev pub moves : List Move → Navigation → Navigation
moves [] n = n
moves (m ∷ ms) n = moves ms (move m n)

abbrev pub backs : ℕ → Navigation → Navigation
backs zero n = n
backs (suc k) n = go_back (backs k n)

-- The history and the location are the same; the selection may differ.
abbrev pub SamePlace : Navigation → Navigation → Type 0
SamePlace n m = (n.history ≡ m.history) × (n.location ≡ m.location)

-- A move stays, or puts the location it leaves on the history.
abbrev Moved : Navigation → Navigation → Type 0
Moved n n' = SamePlace n' n ⊎ (n'.history ≡ n.history ++ (n.location ∷ []))

navigate-Moved : (path : Option Text) (n : Navigation) → Moved n (navigate path n)
unfolding navigate navigate_trash navigate_to
navigate-Moved path n =
    elim (Bool-cases (same_optional_text path (some trash_location_path)))
      as (λ x. Moved n (navigate path n)) [ inl e ↦ inr (rw e refl) | inr e ↦ inr (rw e refl) ]

move-Moved : (m : Move) (n : Navigation) → Moved n (move m n)
unfolding navigate_trash navigate_to go_up open_entry open_file
move-Moved (to_path path) n = navigate-Moved path n
move-Moved to_trash n = inr refl
move-Moved up n = go n.location
  where
    go :
        (l : ExplorerLocation)
        → Moved n (elim l [
          | root ↦ n
          | trash ↦ n
          | file directory_path entry ↦ navigate directory_path n
          | directory path ↦ navigate (parent_path path) n
        ])
    go root = inl (refl, refl)
    go trash = inl (refl, refl)
    go (file directory_path entry) = navigate-Moved directory_path n
    go (directory path) = navigate-Moved (parent_path path) n
move-Moved (to_entry entry) n = go (is_directory entry.kind)
  where
    go :
        (b : Bool)
        → Moved n (
            if b
            then navigate (some entry.path) n
            else record n { selected_path = some entry.path })
    go true = navigate-Moved (some entry.path) n
    go false = inl (refl, refl)
move-Moved (to_file entry) n = inr refl

go_back-Moved :
    (n n' : Navigation) → n'.history ≡ n.history ++ (n.location ∷ []) → SamePlace (go_back n') n
unfolding go_back
go_back-Moved n n' h =
    let last : split_last n'.history ≡ some (n.history, n.location) =
      ap split_last h ∙ split_last-append n.history n.location in
    (rw (go_back, last) refl, rw (go_back, last) refl)

go_back-SamePlace : (n m : Navigation) → SamePlace n m → SamePlace (go_back n) (go_back m)
unfolding go_back
go_back-SamePlace n m h = elim (Option-cases (split_last n.history)) [
  | inl e ↦
      let e' = ap split_last (sym h.0) ∙ e in (rw (go_back, e, e') h.0, rw (go_back, e, e') h.1)
  | inr (last, e) ↦
      let e' = ap split_last (sym h.0) ∙ e in (rw (go_back, e, e') refl, rw (go_back, e, e') refl)
]

SamePlace-trans : (a b c : Navigation) → SamePlace a b → SamePlace b c → SamePlace a c
SamePlace-trans a b c h k = (h.0 ∙ k.0, h.1 ∙ k.1)

-- After any moves, each to a path, to the trash, up, to an entry or to a file, some number of `goBack`s,
-- at most the number of the moves, restores the location and the history from before them.
pub backs-moves :
    (ms : List Move) (n : Navigation)
    → (k : ℕ) × (k ≤ length ms) × SamePlace (backs k (moves ms n)) n
backs-moves [] n = (0, omega arith, (refl, refl))
backs-moves (m ∷ ms) n =
    let (k, few, back) = backs-moves ms (move m n) in
    elim (move-Moved m n) [
      | inl stays ↦ (
        k,
        omega (arith, few),
        SamePlace-trans (backs k (moves ms (move m n))) (move m n) n back stays,
      )
      | inr left ↦ (
        suc k,
        omega (arith, few),
        SamePlace-trans (go_back (backs k (moves ms (move m n)))) (go_back (move m n)) n
            (go_back-SamePlace (backs k (moves ms (move m n))) (move m n) back)
            (go_back-Moved n (move m n) left),
      )
    ]

-- The levels of a location: those of the directory's path and the top, and one more for a file.
abbrev pub depth : ExplorerLocation → ℕ
depth root = 0
depth trash = 0
depth (directory path) = suc (levels path)
depth (file none entry) = 1
depth (file (some path) entry) = suc (suc (levels path))

abbrev pub ups : ℕ → Navigation → Navigation
ups zero n = n
ups (suc k) n = ups k (go_up n)

abbrev pub AtTop : ExplorerLocation → Type 0
AtTop l = (l ≡ root) ⊎ (l ≡ trash)

navigate-depth :
    (path : Option Text) (n : Navigation) (k : ℕ)
    → ((p : Text) → path ≡ some p → levels p < k)
    → depth (navigate path n).location ≤ k
unfolding navigate navigate_trash navigate_to location_from_path
navigate-depth path n k short =
    elim (Bool-cases (same_optional_text path (some trash_location_path)))
      as (λ x. depth (navigate path n).location ≤ k) [
        | inl e ↦ rw (navigate, e) (omega arith)
        | inr e ↦ rw (navigate, e) (go path short)
      ]
  where
    go :
        (path : Option Text)
        → ((p : Text) → path ≡ some p → levels p < k)
        → depth (location_from_path path) ≤ k
    go none short = omega arith
    go (some []) short = omega arith
    go (some (u ∷ us)) short = omega (arith, short (u ∷ us) refl)

go_up-depth : (n : Navigation) → depth (go_up n).location ≤ depth n.location - 1
unfolding go_up
go_up-depth n = go n.location refl
  where
    some-eq : {a b : Text} → some a ≡ some b → a ≡ b
    some-eq h = cc

    none-some : {a : Text} → none ≡ some a → ⊥
    none-some h = cc

    go :
        (l : ExplorerLocation)
        → n.location ≡ l
        → depth
            (elim l as (λ x. Navigation) [
              | root ↦ n
              | trash ↦ n
              | file directory_path entry ↦ navigate directory_path n
              | directory path ↦ navigate (parent_path path) n
            ]).location
          ≤ depth l - 1
    go root e = rw e (omega arith)
    go trash e = rw e (omega arith)
    go (file none entry) e = navigate-depth none n 0 (λ p h. absurd (none-some h))
    go (file (some path) entry) e = omega (
      arith,
      navigate-depth (some path) n (suc (levels path))
          (λ p h. omega (arith, ap levels (some-eq h))),
    )
    go (directory path) e = omega (
      arith,
      navigate-depth (parent_path path) n (levels path) (λ p h. parent_path-levels path p h),
    )

depth-top : (l : ExplorerLocation) → depth l ≤ 0 → AtTop l
depth-top root h = inl refl
depth-top trash h = inr refl
depth-top (directory path) h = absurd (omega (arith, h))
depth-top (file none entry) h = absurd (omega (arith, h))
depth-top (file (some path) entry) h = absurd (omega (arith, h))

-- From a directory, one more `goUp` than separators stand in its path, and from a file, two more than
-- stand in its directory's path, or one where it has none, lead to the root or to the trash, as
-- all further ones do; separators at the end of a path do not count. From the root and from the trash
-- none is needed.
pub ups-AtTop : (k : ℕ) (n : Navigation) → depth n.location ≤ k → AtTop (ups k n).location
ups-AtTop zero n h = depth-top n.location h
ups-AtTop (suc k) n h = ups-AtTop k (go_up n) (omega (arith, h, go_up-depth n))
