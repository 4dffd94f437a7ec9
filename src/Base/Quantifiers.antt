-- ===== src/Base/Quantifiers.antt =====
-- Every element, and some element, of a list, as types that compute on the list.
use mathlib.Core.Path.{◌≡◌, refl}
use mathlib.Core.Logic.{◌⊎◌, inl, inr, ◌↔◌}
use mathlib.Core.Bool.{Bool, true, false}
use mathlib.Core.List.{List, [], ◌∷◌, ◌++◌, map}
use native.Mathlib.Omega.{arith}
use planetmint.Base.Tests.{Bool-cases}
use planetmint.Base.Lists.{any, all, keep}

module _ {A : Type 0} where
  abbrev pub All : (A → Type 0) → List A → Type 0
  All P [] = Unit
  All P (x ∷ xs) = P x × All P xs

  abbrev pub Any : (A → Type 0) → List A → Type 0
  Any P [] = ⊥
  Any P (x ∷ xs) = P x ⊎ Any P xs

  pub All-weaken : (P Q : A → Type 0) (xs : List A) → ((x : A) → P x → Q x) → All P xs → All Q xs
  All-weaken P Q [] f h = tt
  All-weaken P Q (x ∷ xs) f h = (f x h.0, All-weaken P Q xs f h.1)

  pub any-false_iff : (p : A → Bool) (xs : List A) → (any p xs ≡ false) ↔ All (λ x. p x ≡ false) xs
  any-false_iff p [] = (λ h. tt, λ h. refl)
  any-false_iff p (x ∷ xs) =
      (λ h. ground (arith, (any-false_iff p xs).0), λ h. ground (arith, (any-false_iff p xs).1 h.1))

  pub any-true_iff : (p : A → Bool) (xs : List A) → (any p xs ≡ true) ↔ Any (λ x. p x ≡ true) xs
  any-true_iff p [] = (λ h. ground arith, λ h. absurd h)
  any-true_iff p (x ∷ xs) = (
    λ h. elim (Bool-cases (p x)) [
      | inl e ↦ inl e
      | inr e ↦ inr ((any-true_iff p xs).0 (ground arith))
    ],
    λ h. elim h [ inl e ↦ ground arith | inr e ↦ ground (arith, (any-true_iff p xs).1 e) ],
  )

  pub all-true_iff : (p : A → Bool) (xs : List A) → (all p xs ≡ true) ↔ All (λ x. p x ≡ true) xs
  all-true_iff p [] = (λ h. tt, λ h. refl)
  all-true_iff p (x ∷ xs) =
      (λ h. ground (arith, (all-true_iff p xs).0), λ h. ground (arith, (all-true_iff p xs).1 h.1))

  pub Any-append_iff : (P : A → Type 0) (xs ys : List A) → Any P (xs ++ ys) ↔ (Any P xs ⊎ Any P ys)
  Any-append_iff P [] ys = (λ h. inr h, λ h. elim h [ inl e ↦ absurd e | inr e ↦ e ])
  Any-append_iff P (x ∷ xs) ys = (
    λ h. elim h [
      | inl e ↦ inl (inl e)
      | inr e ↦ elim ((Any-append_iff P xs ys).0 e) [ inl r ↦ inl (inr r) | inr r ↦ inr r ]
    ],
    λ h. elim h [
      | inl e ↦ elim e [ inl r ↦ inl r | inr r ↦ inr ((Any-append_iff P xs ys).1 (inl r)) ]
      | inr e ↦ inr ((Any-append_iff P xs ys).1 (inr e))
    ],
  )

pub any-map :
    {A B : Type 0} (p : B → Bool) (f : A → B) (xs : List A)
    → any p (map f xs) ≡ any (λ x. p (f x)) xs
any-map p f [] = refl
any-map p f (x ∷ xs) = rw (any-map p f xs) refl

pub keep-cong :
    {A : Type 0} (p q : A → Bool) (xs : List A) → All (λ x. p x ≡ q x) xs → keep p xs ≡ keep q xs
keep-cong p q [] h = refl
keep-cong p q (x ∷ xs) h = rw (h.0, keep-cong p q xs h.1) refl

pub keep-ext :
    {A : Type 0} (p q : A → Bool) (xs : List A) → ((x : A) → p x ≡ q x) → keep p xs ≡ keep q xs
keep-ext p q [] h = refl
keep-ext p q (x ∷ xs) h = rw (h x, keep-ext p q xs h) refl
