-- ===== src/Machines/Credited.antt =====
-- web/src/state/machine-store.ts: the credentials of one machine.
use whats_going_on.Prelude.{
  ◌≡◌, refl, sym, ap, ◌∙◌, inl, inr, Bool, true, false, ◌&&◌, none, some, List, [], ◌∷◌, Bool-cases,
  Option-cases,
}
use whats_going_on.Wire.Message.{Text}
use whats_going_on.Explorer.Model.{same_text}
use whats_going_on.Explorer.View.{same_text-eq}
use whats_going_on.Machines.Store.{
  Machine, Credentials, Machines, get_machine, is_truthy, is_paired, find_machine, update_machine,
  set_machine_credentials, clear_machine_credentials,
}
use whats_going_on.Machines.Known.{get-update}

get-id :
    (ms : List Machine) (k : Text) (m : Machine)
    → get_machine ms (some k) ≡ some m
    → same_text m.id k ≡ true
unfolding get_machine
get-id [] k m h = cc
get-id (n ∷ ms) k m h = elim (Bool-cases (same_text n.id k)) [
  | inl e ↦ let same : some n ≡ some m = rw e at h in ap (λ t. same_text t k) (sym (id-eq same)) ∙ e
  | inr e ↦ get-id ms k m (rw e at h)
]
  where
    id-eq : {a b : Machine} → some a ≡ some b → a.id ≡ b.id
    id-eq {a = a} {b = b} h = let same : a ≡ b = cc in ap (λ t. t.id) same

module _ (id : Text) (f : Machine → Machine) (keeps : (m : Machine) → (f m).id ≡ m.id)
    (s : Machines) where
  find-update :
      (m : Machine)
      → find_machine (some id) s ≡ some m
      → find_machine (some id) (update_machine id f s) ≡ some (f m)
  unfolding find_machine update_machine
  find-update m h = get-update id id f keeps s.machines ∙ rw (h, get-id s.machines id m h) refl

  find-other :
      (k : Text)
      → same_text k id ≡ false
      → find_machine (some k) (update_machine id f s) ≡ find_machine (some k) s
  unfolding find_machine update_machine
  find-other k other =
      get-update id k f keeps s.machines ∙ elim (Option-cases (get_machine s.machines (some k))) [
        | inl e ↦ rw e refl
        | inr (m, e) ↦
            let apart : same_text m.id id ≡ false =
              ap (λ t. same_text t id) (same_text-eq m.id k (get-id s.machines k m e)) ∙ other in
            rw (e, apart) refl
      ]

-- After the credentials of a known machine are set, it has them and is paired when neither id nor
-- secret is empty; and a machine with another id is what it was.
pub set_machine_credentials-IsPaired :
    (id k : Text) (c : Credentials) (s : Machines) (m : Machine)
    → find_machine (some id) s ≡ some m
    → same_text k id ≡ false
    → (is_paired (find_machine (some id) (set_machine_credentials id c s))
        ≡ (is_truthy (some c.new_client_id) && is_truthy (some c.new_client_secret)))
      × (find_machine (some k) (set_machine_credentials id c s) ≡ find_machine (some k) s)
unfolding set_machine_credentials is_paired
set_machine_credentials-IsPaired id k c s m h other =
    (ap is_paired (find-update id _ (λ m. refl) s m h), find-other id _ (λ m. refl) s k other)

-- After the credentials of a machine are cleared it is not paired, and a machine with another id is what
-- it was.
pub clear_machine_credentials-IsPaired :
    (id k : Text) (s : Machines)
    → same_text k id ≡ false
    → (is_paired (find_machine (some id) (clear_machine_credentials id s)) ≡ false)
      × (find_machine (some k) (clear_machine_credentials id s) ≡ find_machine (some k) s)
unfolding clear_machine_credentials is_paired find_machine update_machine
clear_machine_credentials-IsPaired id k s other = (
  (elim (Option-cases (get_machine s.machines (some id))) [
    | inl e ↦
        let gone : find_machine (some id) (clear_machine_credentials id s) ≡ none =
          get-update id id (λ m. record m { client_secret = none }) (λ m. refl) s.machines
          ∙ rw e refl in
        ap is_paired gone
    | inr (m, e) ↦
        ap is_paired (find-update id _ (λ m. refl) s m e) ∙ and_false (is_truthy m.client_id)
  ]),
  find-other id _ (λ m. refl) s k other,
)
  where
    and_false : (b : Bool) → (b && false) ≡ false
    and_false true = refl
    and_false false = refl
