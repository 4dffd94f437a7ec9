-- ===== src/Tests/Details.antt =====
-- A condition of two keys under a threshold.
use planetmint.Base.{◌≡◌, ◌↔◌, refl, true, [], ◌∷◌}
use planetmint.Errors.{ok, ok-injective}
use planetmint.Transaction.Conditions.{
  Details, Shape, ed25519, threshold, cons, nil, fulfillment_from_details, fulfillment_to_details,
  condition_details_has_owner,
}
use planetmint.Transaction.Conditions.Owner.{IsLeafKey, leaf_keys, has_owner_iff-IsLeafKey}
use planetmint.Transaction.Conditions.RoundTrip.{
  snoc, BuildLaws, IsCanonical, to_details-from_details,
}
use planetmint.Tests.Toy.{library}

abbrev both : Details
both = threshold 2 (cons (ed25519 "alice") (cons (ed25519 "bob") nil))

abbrev both_shape : Shape
both_shape = threshold 2 (cons (ed25519 (0 ∷ [])) (cons (ed25519 (1 ∷ [])) nil))

pub laws : BuildLaws library
laws = record {
  shape_ed25519 = λ k. refl;
  shape_threshold = λ n. refl;
  shape_add = λ f g n subs e. rw e;
}

pub canonical : IsCanonical library both
canonical = (λ k e. rw (← ok-injective e) refl, (λ k e. rw (← ok-injective e) refl, tt))

builds : fulfillment_from_details library both ≡ ok both_shape
unfolding fulfillment_from_details snoc
builds = refl

to_details-from_details_example : fulfillment_to_details library both_shape ≡ ok both
to_details-from_details_example =
    to_details-from_details library laws both both_shape canonical builds

has_owner_iff-IsLeafKey_example :
    (condition_details_has_owner both "bob" ≡ true) ↔ IsLeafKey "bob" (leaf_keys both)
has_owner_iff-IsLeafKey_example = has_owner_iff-IsLeafKey both "bob"
