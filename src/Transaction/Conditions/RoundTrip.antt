-- ===== src/Transaction/Conditions/RoundTrip.antt =====
-- A fulfillment that is built from its details has these details.
use planetmint.Base.{ℕ, ◌+◌, ◌≡◌, refl, ap, subst, List, arith, eqb, if◌then◌else◌}
use planetmint.Errors.{Result, ok, err, >>=-eq-ok, threshold_too_deep, ok-injective}
use planetmint.Transaction.Conditions.{
  Details, Subconditions, Shape, Shapes, ed25519, threshold, unsupported, nil, cons,
  ConditionLibrary, to_details, to_details_all, from_details, add_all, fulfillment_to_details,
  fulfillment_from_details,
}

unfoldable pub snoc : Shapes → Shape → Shapes
snoc nil s = cons s nil
snoc (cons t r) s = cons t (snoc r s)

snoc_details : Subconditions → Details → Subconditions
snoc_details nil s = cons s nil
snoc_details (cons t r) s = cons t (snoc_details r s)

append_details : Subconditions → Subconditions → Subconditions
append_details nil r = r
append_details (cons d s) r = cons d (append_details s r)

module _ {F : Type 0} (lib : ConditionLibrary F) where
  -- How cryptoconditions builds a fulfillment.
  pub record BuildLaws : Type 0 where
    pub shape_ed25519 : (k : List ℕ) → lib.shape (lib.ed25519_sha256 k) ≡ ed25519 k
    pub shape_threshold : (n : ℕ) → lib.shape (lib.threshold_sha256 n) ≡ threshold n nil
    pub shape_add :
        (f g : F) (n : ℕ) (subs : Shapes)
        → lib.shape f ≡ threshold n subs
        → lib.shape (lib.add_subfulfillment f g) ≡ threshold n (snoc subs (lib.shape g))

  -- Encoding the decoded key gives the key back, at every leaf.
  abbrev mutual
    pub IsCanonical : Details → Type 0
    IsCanonical (ed25519 key) = (k : List ℕ) → lib.b58decode key ≡ ok k → lib.b58encode k ≡ key
    IsCanonical (threshold n subs) = IsCanonicalAll subs
    IsCanonical (unsupported t) = Unit

    pub IsCanonicalAll : Subconditions → Type 0
    IsCanonicalAll nil = Unit
    IsCanonicalAll (cons d rest) = IsCanonical d × IsCanonicalAll rest

  to_details_all-snoc :
      (subs : Shapes) (s : Shape) (ds : Subconditions) (d : Details)
      → to_details_all lib subs ≡ ok ds
      → to_details lib s ≡ ok d
      → to_details_all lib (snoc subs s) ≡ ok (snoc_details ds d)
  unfolding to_details snoc snoc_details
  to_details_all-snoc nil s ds d h e = ground arith
  to_details_all-snoc (cons t r) s ds d h e =
      let (a, p, q) = >>=-eq-ok (to_details lib t) _ h in
      let (b, p', q') = >>=-eq-ok (to_details_all lib r) _ q in
      rw p (
        rw (to_details_all-snoc r s b d p' e) (
          subst (λ x. ok (cons a (snoc_details b d)) ≡ ok (snoc_details x d)) (ok-injective q')
            refl))

  append_details-snoc :
      (xs : Subconditions) (d : Details) (rest : Subconditions)
      → append_details (snoc_details xs d) rest ≡ append_details xs (cons d rest)
  unfolding append_details snoc_details
  append_details-snoc nil d rest = refl
  append_details-snoc (cons x xs) d rest = rw (append_details-snoc xs d rest)

  append_details-nil : (xs : Subconditions) → append_details xs nil ≡ xs
  unfolding append_details
  append_details-nil nil = refl
  append_details-nil (cons x xs) = rw (append_details-nil xs)

  below_limit :
      (depth : ℕ) (r : Result F) (f : F)
      → (if eqb depth 100 then err threshold_too_deep else r) ≡ ok f
      → r ≡ ok f
  below_limit depth r f h = ground arith

  module _ (laws : BuildLaws) where
    mutual
      unfolding from_details to_details append_details

      rebuild :
          (d : Details) (depth : ℕ) (f : F)
          → IsCanonical d
          → from_details lib d depth ≡ ok f
          → to_details lib (lib.shape f) ≡ ok d
      rebuild (ed25519 key) depth f c h =
          let (k, p, q) = >>=-eq-ok (lib.b58decode key) _ (below_limit depth _ f h) in
          rw (← ok-injective q) (rw (laws.shape_ed25519 k) (ap (λ x. ok (ed25519 x)) (c k p)))
      rebuild (threshold n subs) depth f c h =
          rebuild_all subs (lib.threshold_sha256 n) (depth + 1) f n nil nil c
            (laws.shape_threshold n) refl (below_limit depth _ f h)
      rebuild (unsupported t) depth f c h = ground arith

      rebuild_all :
          (subs : Subconditions) (built : F) (depth : ℕ) (f : F) (n : ℕ) (pre : Shapes)
          (done : Subconditions)
          → IsCanonicalAll subs
          → lib.shape built ≡ threshold n pre
          → to_details_all lib pre ≡ ok done
          → add_all lib subs built depth ≡ ok f
          → to_details lib (lib.shape f) ≡ ok (threshold n (append_details done subs))
      rebuild_all nil built depth f n pre done c shaped e h =
          rw (← ok-injective h) (rw shaped (rw e (rw append_details-nil)))
      rebuild_all (cons d rest) built depth f n pre done c shaped e h =
          let (g, p, q) = >>=-eq-ok (from_details lib d depth) _ h in
          rw (← append_details-snoc done d rest) (
            rebuild_all rest (lib.add_subfulfillment built g) depth f n (snoc pre (lib.shape g))
              (snoc_details done d) c.1 (laws.shape_add built g n pre shaped)
              (to_details_all-snoc pre (lib.shape g) done d e (rebuild d depth g c.0 p)) q)

    -- Whatever details _fulfillment_from_details accepts, with keys in canonical base58, are the
    -- details that _fulfillment_to_details gives back of the fulfillment built from them.
    pub to_details-from_details :
        (d : Details) (f : F)
        → IsCanonical d
        → fulfillment_from_details lib d ≡ ok f
        → fulfillment_to_details lib f ≡ ok d
    unfolding fulfillment_from_details fulfillment_to_details
    to_details-from_details d f c h = rebuild d 0 f c h
