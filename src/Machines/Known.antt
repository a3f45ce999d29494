-- ===== src/Machines/Known.antt =====
-- web/src/state/machine-store.ts: the selected machine is a known one, and credentials reach the machine
-- they are for.
use whats_going_on.Prelude.{
  ◌≡◌, refl, sym, ap, ◌∙◌, ◌⊎◌, inl, inr, ℕ, suc, ◌≤◌, Bool, true, false, not, ◌&&◌, ◌||◌, Option,
  none, some, List, [], ◌∷◌, ◌++◌, map, if◌then◌else◌, arith, Bool-cases, Option-cases,
}
use whats_going_on.Wire.Message.{Text}
use whats_going_on.Explorer.Model.{same_text, same_optional_text}
use whats_going_on.Explorer.View.{same_text-eq, same_text_refl, same_text_comm}
use whats_going_on.Machines.Store.{
  Machine, Credentials, Machines, get_machine, selected, select_machine, add_machine,
  update_machine, set_machine_credentials, clear_machine_credentials, set_machine_credential_expiry,
  without_id, first_id, delete_selected_machine, load_selected_machine_id,
}

-- Whether a machine with this id is known, and how many there are.
abbrev pub has_id : Text → List Machine → Bool
has_id id [] = false
has_id id (m ∷ ms) = same_text m.id id || has_id id ms

abbrev pub count_id : Text → List Machine → ℕ
count_id id [] = 0
count_id id (m ∷ ms) = let rest = count_id id ms in if same_text m.id id then suc rest else rest

abbrev pub IsKnown : List Machine → Option Text → Type 0
IsKnown ms none = Unit
IsKnown ms (some id) = has_id id ms ≡ true

-- No id is there twice that was not there as often among other machines.
abbrev pub Few : List Machine → List Machine → Type 0
Few loaded ms = (id : Text) → (count_id id ms ≤ 1) ⊎ (count_id id ms ≤ count_id id loaded)

pub record IsSound (loaded : List Machine) (s : Machines) : Type 0 where
  pub few : Few loaded s.machines
  pub known : IsKnown s.machines s.selected_id

-- What happens to the machines: a machine with a new id is added; a known machine or none is selected; a
-- machine is changed, but not its id; the selected one is deleted.
pub data Change : Type 0 where
  adds : Machine → Change
  selects : Option Text → Change
  updates : Text → (Machine → Machine) → Change
  credits : Text → Credentials → Change
  clears : Text → Change
  expires : Text → ℕ → Change
  deletes : Change

abbrev pub change : Change → Machines → Machines
change (adds m) s = add_machine m s
change (selects id) s = select_machine id s
change (updates id f) s = update_machine id f s
change (credits id c) s = set_machine_credentials id c s
change (clears id) s = clear_machine_credentials id s
change (expires id n) s = set_machine_credential_expiry id n s
change deletes s = (delete_selected_machine s).0

abbrev pub Allowed : Change → Machines → Type 0
Allowed (adds m) s = has_id m.id s.machines ≡ false
Allowed (selects id) s = IsKnown s.machines id
Allowed (updates id f) s = (m : Machine) → (f m).id ≡ m.id
Allowed (credits id c) s = Unit
Allowed (clears id) s = Unit
Allowed (expires id n) s = Unit
Allowed deletes s = Unit

has_id-append :
    (id : Text) (ms : List Machine) (m : Machine)
    → has_id id (ms ++ (m ∷ [])) ≡ (has_id id ms || same_text m.id id)
has_id-append id [] m = ground arith
has_id-append id (n ∷ ms) m = let rest = has_id-append id ms m in ground arith

count-append :
    (id : Text) (ms : List Machine) (m : Machine)
    → count_id id (ms ++ (m ∷ []))
      ≡ (if same_text m.id id then suc (count_id id ms) else count_id id ms)
count-append id [] m = refl
count-append id (n ∷ ms) m = let rest = count-append id ms m in ground arith

count-absent : (id : Text) (ms : List Machine) → has_id id ms ≡ false → count_id id ms ≡ 0
count-absent id [] h = refl
count-absent id (m ∷ ms) h = let rest = count-absent id ms (ground arith) in ground arith

append-Few :
    (loaded ms : List Machine) (m : Machine)
    → Few loaded ms
    → has_id m.id ms ≡ false
    → Few loaded (ms ++ (m ∷ []))
append-Few loaded ms m few new id = elim (Bool-cases (same_text m.id id)) [
  | inl e ↦
      let absent =
        count-absent id ms (ap (λ t. has_id t ms) (sym (same_text-eq m.id id e)) ∙ new) in
      inl (rw (count-append id ms m, e, absent) (omega arith))
  | inr e ↦ rw (count-append id ms m, e) (few id)
]

module _ (id : Text) (f : Machine → Machine) (keeps : (m : Machine) → (f m).id ≡ m.id) where
  abbrev updated : Machine → Machine
  updated m = if same_text m.id id then f m else m

  updated-id : (m : Machine) → (updated m).id ≡ m.id
  updated-id m = elim (Bool-cases (same_text m.id id)) [
    | inl e ↦ rw e (keeps m)
    | inr e ↦ rw e refl
  ]

  has_id-update : (k : Text) (ms : List Machine) → has_id k (map updated ms) ≡ has_id k ms
  has_id-update k [] = refl
  has_id-update k (m ∷ ms) = rw (updated-id m, has_id-update k ms) refl

  count-update : (k : Text) (ms : List Machine) → count_id k (map updated ms) ≡ count_id k ms
  count-update k [] = refl
  count-update k (m ∷ ms) = rw (updated-id m, count-update k ms) refl

  update-IsKnown : (ms : List Machine) (o : Option Text) → IsKnown ms o → IsKnown (map updated ms) o
  update-IsKnown ms none h = tt
  update-IsKnown ms (some k) h = has_id-update k ms ∙ h

  update-IsSound :
      (loaded : List Machine) (s : Machines)
      → IsSound loaded s
      → IsSound loaded (update_machine id f s)
  unfolding update_machine
  update-IsSound loaded s h = record {
    few = λ k. rw (count-update k s.machines) (h.few k);
    known = update-IsKnown s.machines s.selected_id h.known;
  }

has_id-without :
    (k id : Text) (ms : List Machine)
    → has_id k (without_id id ms) ≡ (has_id k ms && not (same_text id k))
has_id-without k id [] = refl
has_id-without k id (m ∷ ms) =
    let rest = has_id-without k id ms in
    elim (Bool-cases (same_text m.id id)) [
      | inl e ↦ let same : m.id ≡ id = same_text-eq m.id id e in rw (e, same) (ground arith)
      | inr e ↦ elim (Bool-cases (same_text m.id k)) [
        | inl h ↦
            let apart : same_text id k ≡ false =
              ap (same_text id) (sym (same_text-eq m.id k h)) ∙ (same_text_comm id m.id ∙ e) in
            rw (e, h, apart) refl
        | inr h ↦ rw (e, h) rest
      ]
    ]

count-without : (k id : Text) (ms : List Machine) → count_id k (without_id id ms) ≤ count_id k ms
count-without k id [] = omega arith
count-without k id (m ∷ ms) = let rest = count-without k id ms in ground arith

without-Few :
    (loaded : List Machine) (id : Text) (ms : List Machine)
    → Few loaded ms
    → Few loaded (without_id id ms)
without-Few loaded id ms few k =
    let fewer = count-without k id ms in
    elim (few k) [ inl h ↦ inl (omega (arith, h, fewer)) | inr h ↦ inr (omega (arith, h, fewer)) ]

first-IsKnown : (ms : List Machine) → IsKnown ms (first_id ms)
first-IsKnown [] = tt
first-IsKnown (m ∷ ms) = rw (same_text_refl m.id) refl

without-IsKnown :
    (id : Text) (ms : List Machine) (o : Option Text)
    → IsKnown ms o
    → same_optional_text o (some id) ≡ false
    → IsKnown (without_id id ms) o
without-IsKnown id ms none h e = tt
without-IsKnown id ms (some k) h e = has_id-without k id ms ∙ rw (h, same_text_comm id k, e) refl

delete-IsSound :
    (loaded : List Machine) (s : Machines)
    → IsSound loaded s
    → IsSound loaded (delete_selected_machine s).0
unfolding delete_selected_machine
delete-IsSound loaded s h = go (selected s)
  where
    go :
        (o : Option Machine)
        → IsSound loaded
            (elim o as (λ x. Machines × Option Machine) [
              | none ↦ (s, none)
              | some m ↦
                  let remaining = without_id m.id s.machines in
                  (
                    record {
                      machines = remaining;
                      selected_id =
                          if same_optional_text s.selected_id (some m.id)
                          then first_id remaining
                          else s.selected_id;
                    },
                    some m,
                  )
            ]).0
    go none = h
    go (some m) = record {
      few = without-Few loaded m.id s.machines h.few;
      known = elim (Bool-cases (same_optional_text s.selected_id (some m.id))) [
        | inl e ↦ rw e (first-IsKnown (without_id m.id s.machines))
        | inr e ↦ rw e (without-IsKnown m.id s.machines s.selected_id h.known e)
      ];
    }

change-IsSound :
    (loaded : List Machine) (c : Change) (s : Machines)
    → Allowed c s
    → IsSound loaded s
    → IsSound loaded (change c s)
unfolding add_machine select_machine set_machine_credentials clear_machine_credentials
    set_machine_credential_expiry
change-IsSound loaded (adds m) s a h = record {
  few = append-Few loaded s.machines m h.few a;
  known =
      has_id-append m.id s.machines m ∙ rw (same_text_refl m.id) (or_true (has_id m.id s.machines));
}
  where
    or_true : (b : Bool) → (b || true) ≡ true
    or_true b = ground arith
change-IsSound loaded (selects id) s a h = record { few = h.few; known = a }
change-IsSound loaded (updates id f) s a h = update-IsSound id f a loaded s h
change-IsSound loaded (credits id c) s a h = update-IsSound id _ (λ m. refl) loaded s h
change-IsSound loaded (clears id) s a h = update-IsSound id _ (λ m. refl) loaded s h
change-IsSound loaded (expires id n) s a h = update-IsSound id _ (λ m. refl) loaded s h
change-IsSound loaded deletes s a h = delete-IsSound loaded s h

get-has_id :
    (ms : List Machine) (id : Text) (m : Machine)
    → get_machine ms (some id) ≡ some m
    → has_id id ms ≡ true
unfolding get_machine
get-has_id [] id m h = cc
get-has_id (n ∷ ms) id m h = elim (Bool-cases (same_text n.id id)) [
  | inl e ↦ rw e refl
  | inr e ↦ rw e (get-has_id ms id m (rw e at h))
]

-- What is selected at the start is one of the loaded machines.
load-IsKnown :
    (stored : Option Text) (loaded : List Machine)
    → IsKnown loaded (load_selected_machine_id stored loaded)
unfolding load_selected_machine_id
load-IsKnown none loaded = first-IsKnown loaded
load-IsKnown (some []) loaded = first-IsKnown loaded
load-IsKnown (some (u ∷ us)) loaded = elim (Option-cases (get_machine loaded (some (u ∷ us)))) [
  | inl e ↦ rw e (first-IsKnown loaded)
  | inr (m, e) ↦ rw e (get-has_id loaded (u ∷ us) m e)
]

-- `initialMachines` and `initialSelectedId`, from the machines that are loaded and the id that is stored.
abbrev pub initial : List Machine → Option Text → Machines
initial loaded stored = record {
  machines = loaded;
  selected_id = load_selected_machine_id stored loaded;
}

pub data Reachable (loaded : List Machine) (stored : Option Text) : Machines → Type 0 where
  starts : Reachable loaded stored (initial loaded stored)
  changes :
      {s : Machines}
      → Reachable loaded stored s
      → (c : Change) → Allowed c s
      → Reachable loaded stored (change c s)

-- From whatever machines are loaded and whatever id is stored as the selected one, and after any changes,
-- the selected machine is one of the machines, or none is selected; and no id stands more than once
-- among the machines, unless it stood as often among those that were loaded. The changes are those
-- of the store: a machine with an id that is not there is added, one of the machines or none is
-- selected, a machine is changed but not its id, its credentials are set, cleared or given an expiry, or
-- the selected machine is deleted.
pub Reachable-Known :
    (loaded : List Machine) (stored : Option Text) (s : Machines)
    → Reachable loaded stored s
    → IsSound loaded s
Reachable-Known loaded stored s starts = record {
  few = λ k. inr (omega arith);
  known = load-IsKnown stored loaded;
}
Reachable-Known loaded stored s (changes {s = before} r c a) =
    change-IsSound loaded c before a (Reachable-Known loaded stored before r)

-- What the machine with one id becomes when the machine with an id is updated.
pub get-update :
    (id k : Text) (f : Machine → Machine)
    → ((m : Machine) → (f m).id ≡ m.id)
    → (ms : List Machine)
    → get_machine (map (λ m. if same_text m.id id then f m else m) ms) (some k)
      ≡ elim (get_machine ms (some k)) [
        | none ↦ none
        | some m ↦ some (if same_text m.id id then f m else m)
      ]
unfolding get_machine
get-update id k f keeps [] = refl
get-update id k f keeps (m ∷ ms) = elim (Bool-cases (same_text m.id k)) [
  | inl e ↦ rw (updated-id id f keeps m, e) refl
  | inr e ↦ rw (updated-id id f keeps m, e) (get-update id k f keeps ms)
]
