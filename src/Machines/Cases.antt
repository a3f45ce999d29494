-- ===== src/Machines/Cases.antt =====
-- web/src/state/machine-modal.ts: cases on what a handler finds.
use whats_going_on.Prelude.{
  ◌≡◌, refl, Bool, true, false, Option, none, some, List, [], ◌∷◌, if◌then◌else◌,
}
use whats_going_on.Wire.Message.{Text}
use whats_going_on.Machines.Url.{Attempt, gives, fails}
use whats_going_on.Machines.Modal.{Modal}

module _ (P : Modal → Type 0) where
  -- What holds in every branch of a case holds of the case.
  pub by_option :
      {A : Type 0} (o : Option A) (s : Modal) (f : A → Modal)
      → P s
      → ((a : A) → P (f a))
      → P (elim o as (λ x. Modal) [ none ↦ s | some a ↦ f a ])
  by_option none s f h k = h
  by_option (some a) s f h k = k a

  pub by_list :
      {A : Type 0} (l : List A) (s : Modal) (f : A → List A → Modal)
      → P s
      → ((a : A) (rest : List A) → P (f a rest))
      → P (elim l as (λ x. Modal) [ [] ↦ s | a ∷ rest ↦ f a rest ])
  by_list [] s f h k = h
  by_list (a ∷ rest) s f h k = k a rest

  pub by_attempt :
      (a : Attempt Text) (f g : Text → Modal)
      → ((t : Text) → P (f t))
      → ((t : Text) → P (g t))
      → P (elim a as (λ x. Modal) [ fails t ↦ f t | gives t ↦ g t ])
  by_attempt (fails t) f g h k = h t
  by_attempt (gives t) f g h k = k t

  pub by_test : (b : Bool) (s t : Modal) → P s → (b ≡ false → P t) → P (if b then s else t)
  by_test true s t h k = h
  by_test false s t h k = k refl
