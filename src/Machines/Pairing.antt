-- ===== src/Machines/Pairing.antt =====
-- web/src/state/machine-modal.ts: requests for a pairing code, and pairings.
use whats_going_on.Prelude.{
  ◌≡◌, refl, sym, ap, ◌∙◌, inl, inr, ℕ, suc, ◌≤◌, Bool, true, false, ◌||◌, List, [], ◌∷◌, length,
  ◌==◌, if◌then◌else◌, arith, Bool-cases, All,
}
use whats_going_on.Wire.Message.{Text}
use whats_going_on.Machines.Store.{Machine}
use whats_going_on.Machines.Modal.{
  Request, Modal, reset_pairing_code, cancel_pairing_request, request_pairing_code, request_done,
  without_request, settled,
}

abbrev pub has_serial : ℕ → List Request → Bool
has_serial n [] = false
has_serial n (r ∷ rs) = (r.serial == n) || has_serial n rs

-- While the dialog shows that a code is requested, the current request is under way; every request that is
-- under way has a serial number up to the current one; and at most one pairing is under way, as
-- long as the dialog shows it.
pub record SoundParts (is_requesting : Bool) (current : ℕ) (requests : List Request)
    (is_pairing : Bool) (pairings : List Text) : Type 0 where
  pub requesting : is_requesting ≡ true → has_serial current requests ≡ true
  pub bounded : All (λ (r : Request). r.serial ≤ current) requests
  pub one_pairing : length pairings ≡ (if is_pairing then 1 else 0)

abbrev pub IsSound : Modal → Type 0
IsSound s =
    SoundParts s.is_requesting_pairing_code s.pairing_request_serial s.requests s.is_pairing
      s.pairings

-- The parts of the state that soundness is about.
pub record Kept (s s' : Modal) : Type 0 where
  pub same_requesting : s'.is_requesting_pairing_code ≡ s.is_requesting_pairing_code
  pub same_serial : s'.pairing_request_serial ≡ s.pairing_request_serial
  pub same_requests : s'.requests ≡ s.requests
  pub same_is_pairing : s'.is_pairing ≡ s.is_pairing
  pub same_pairings : s'.pairings ≡ s.pairings

pub Kept-IsSound : {s s' : Modal} → Kept s s' → IsSound s → IsSound s'
Kept-IsSound {s = s} {s' = s'} k h = record {
  requesting = λ e. rw (k.same_serial, k.same_requests) (h.requesting (sym k.same_requesting ∙ e));
  bounded = rw (k.same_serial, k.same_requests) h.bounded;
  one_pairing = rw (k.same_pairings, k.same_is_pairing) h.one_pairing;
}

raised :
    (n m : ℕ) (rs : List Request)
    → n ≤ m
    → All (λ (r : Request). r.serial ≤ n) rs
    → All (λ (r : Request). r.serial ≤ m) rs
raised n m [] le h = tt
raised n m (r ∷ rs) le h = (omega (arith, h.0), raised n m rs le h.1)

pub cancel-IsSound : (s : Modal) → IsSound s → IsSound (cancel_pairing_request s)
unfolding cancel_pairing_request
cancel-IsSound s h = record {
  requesting = λ e. absurd (clash e);
  bounded = raised _ _ s.requests (omega arith) h.bounded;
  one_pairing = h.one_pairing;
}
  where
    clash : false ≡ true → ⊥
    clash e = cc

pub request-IsSound :
    (confirmation : Text) (m : Machine) (s : Modal)
    → IsSound s
    → IsSound (request_pairing_code confirmation m s)
unfolding request_pairing_code reset_pairing_code
request-IsSound confirmation m s h = record {
  requesting = λ e. same (suc s.pairing_request_serial) _;
  bounded = (omega arith, raised _ _ s.requests (omega arith) h.bounded);
  one_pairing = h.one_pairing;
}
  where
    same : (n : ℕ) (b : Bool) → ((n == n) || b) ≡ true
    same n b = ground arith

without-bounded :
    (n k : ℕ) (rs : List Request)
    → All (λ (r : Request). r.serial ≤ k) rs
    → All (λ (r : Request). r.serial ≤ k) (without_request n rs)
without-bounded n k [] h = tt
without-bounded n k (r ∷ rs) h =
    let rest = without-bounded n k rs h.1 in
    elim (Bool-cases (r.serial == n)) [ inl e ↦ rw e rest | inr e ↦ rw e (h.0, rest) ]

without-has :
    (n k : ℕ) (rs : List Request)
    → (n == k) ≡ false
    → has_serial k rs ≡ true
    → has_serial k (without_request n rs) ≡ true
without-has n k [] other h = h
without-has n k (r ∷ rs) other h = elim (Bool-cases (r.serial == n)) [
  | inl e ↦
      let apart : (r.serial == k) ≡ false = ground arith in
      rw e (without-has n k rs other (rw apart at h))
  | inr e ↦ elim (Bool-cases (r.serial == k)) [
    | inl e' ↦ rw (e, e') refl
    | inr e' ↦ rw (e, e') (without-has n k rs other (rw e' at h))
  ]
]

-- Settling a request, with changes of other parts of the state.
pub done-IsSound :
    (r : Request) (s s' : Modal) → Kept (settled r s) s' → IsSound s → IsSound (request_done r s')
unfolding request_done
done-IsSound r s s' k h = elim (Bool-cases (r.serial == s'.pairing_request_serial)) [
  | inl e ↦ rw e (record {
    requesting = λ f. absurd (clash f);
    bounded =
        rw (k.same_serial, k.same_requests)
          (without-bounded r.serial s.pairing_request_serial s.requests h.bounded);
    one_pairing = rw (k.same_pairings, k.same_is_pairing) h.one_pairing;
  })
  | inr e ↦ rw e (record {
    requesting = λ f.
        rw (k.same_serial, k.same_requests)
          (without-has r.serial s.pairing_request_serial s.requests
            (sym (ap (λ n. r.serial == n) k.same_serial) ∙ e)
            (h.requesting (sym k.same_requesting ∙ f)));
    bounded =
        rw (k.same_serial, k.same_requests)
          (without-bounded r.serial s.pairing_request_serial s.requests h.bounded);
    one_pairing = rw (k.same_pairings, k.same_is_pairing) h.one_pairing;
  })
]
  where
    clash : false ≡ true → ⊥
    clash e = cc
