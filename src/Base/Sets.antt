-- ===== src/Base/Sets.antt =====
-- `set(xs)` of a list of values of type `Optional[str]`.
use planetmint.Base.Tests.{opt_eq, opt_eq_iff, if◌then◌else◌, Bool-cases}
use planetmint.Base.Lists.{length, any}
use planetmint.Base.Quantifiers.{All, any-false_iff, All-weaken}
use Prim.Native.Nat.{◌≤◌}
use Prim.Native.String.{String}
use mathlib.Core.Path.{◌≡◌, refl}
use mathlib.Core.Logic.{◌≢◌, ◌↔◌, inl, inr}
use mathlib.Core.Bool.{false}
use mathlib.Core.List.{List, [], ◌∷◌}
use mathlib.Core.Option.{Option}
use native.Mathlib.Omega.{arith}

unfoldable pub to_set : List (Option String) → List (Option String)
to_set [] = []
to_set (x ∷ xs) = let rest = to_set xs in if any (opt_eq x) rest then rest else x ∷ rest

abbrev pub Distinct : List (Option String) → Type 0
Distinct [] = Unit
Distinct (x ∷ xs) = All (λ y. x ≢ y) xs × Distinct xs

length-to_set_le : (xs : List (Option String)) → length (to_set xs) ≤ length xs
unfolding to_set
length-to_set_le [] = omega arith
length-to_set_le (x ∷ xs) = ground (arith, length-to_set_le xs)

any-to_set :
    (x : Option String) (xs : List (Option String)) → any (opt_eq x) (to_set xs) ≡ any (opt_eq x) xs
unfolding to_set
any-to_set x [] = refl
any-to_set x (y ∷ ys) = ground (arith, any-to_set x ys, (opt_eq_iff x y).0)

absent_iff :
    (x : Option String) (xs : List (Option String))
    → (any (opt_eq x) xs ≡ false) ↔ All (λ y. x ≢ y) xs
absent_iff x xs = (
  λ h.
      All-weaken _ _ xs (λ y e same. cc (e, (opt_eq_iff x y).1 same))
        ((any-false_iff (opt_eq x) xs).0 h),
  λ h. (any-false_iff (opt_eq x) xs).1 (All-weaken _ _ xs (λ y ne. unequal x y ne) h),
)
  where
    unequal : (x y : Option String) → x ≢ y → opt_eq x y ≡ false
    unequal x y ne = elim (Bool-cases (opt_eq x y)) [
      | inl e ↦ absurd (ne ((opt_eq_iff x y).0 e))
      | inr e ↦ e
    ]

pub length-to_set_iff-Distinct :
    (xs : List (Option String)) → (length (to_set xs) ≡ length xs) ↔ Distinct xs
unfolding to_set
length-to_set_iff-Distinct [] = (λ h. tt, λ h. refl)
length-to_set_iff-Distinct (x ∷ xs) = (
  λ h.
      let new : any (opt_eq x) xs ≡ false = ground (arith, any-to_set x xs, length-to_set_le xs) in
      let same : length (to_set xs) ≡ length xs = ground (arith, any-to_set x xs) in
      ((absent_iff x xs).0 new, (length-to_set_iff-Distinct xs).0 same),
  λ h.
      ground
        (arith, any-to_set x xs, (absent_iff x xs).1 h.0, (length-to_set_iff-Distinct xs).1 h.1),
)

to_set-ne-nil : (x : Option String) (xs : List (Option String)) → to_set (x ∷ xs) ≢ []
unfolding to_set
to_set-ne-nil x [] h = cc
to_set-ne-nil x (y ∷ ys) h = elim (Bool-cases (any (opt_eq x) (to_set (y ∷ ys)))) [
  | inl e ↦ to_set-ne-nil y ys (rw e at h)
  | inr e ↦ cc (rw e at h)
]

pub All-equal→to_set :
    (a x : Option String) (xs : List (Option String))
    → All (λ y. y ≡ a) (x ∷ xs)
    → to_set (x ∷ xs) ≡ a ∷ []
unfolding to_set
All-equal→to_set a x [] h = cc
All-equal→to_set a x (y ∷ ys) h =
    rw (All-equal→to_set a y ys h.1) (rw ((opt_eq_iff x a).1 h.0) refl)

pub to_set→All-equal :
    (a : Option String) (xs : List (Option String)) → to_set xs ≡ a ∷ [] → All (λ y. y ≡ a) xs
unfolding to_set
to_set→All-equal a [] h = tt
to_set→All-equal a (x ∷ []) h = (cc, tt)
to_set→All-equal a (x ∷ y ∷ ys) h = elim (Bool-cases (any (opt_eq x) (to_set (y ∷ ys)))) [
  | inl e ↦
      let one : to_set (y ∷ ys) ≡ a ∷ [] = rw e at h in
      ((opt_eq_iff x a).0 (ground (arith, e, one)), to_set→All-equal a (y ∷ ys) one)
  | inr e ↦ absurd (to_set-ne-nil y ys (cc (rw e at h)))
]
