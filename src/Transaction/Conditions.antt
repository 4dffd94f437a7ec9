-- ===== src/Transaction/Conditions.antt =====
-- The `details` of a condition and what is read out of them: `_fulfillment_to_details` and
-- `_fulfillment_from_details` of planetmint/transactions/common/utils.py, and
-- `condition_details_has_owner` of planetmint/utils.py. The proofs are in the modules below.
pub mod Owner
pub mod RoundTrip
use planetmint.Base.{ℕ, ◌+◌, String, Bool, true, false, List, [], ◌∷◌, ◌==◌, eqb, if◌then◌else◌}
use planetmint.Errors.{
  Result, ok, err, ◌>>=◌, threshold_too_deep, unsupported_type_error, attribute_error,
}

-- `{'type': …, 'public_key': …}`, `{'type': …, 'threshold': …, 'subconditions': …}`, or a
-- dictionary of another type.
mutual
  pub data Details : Type 0 where
    ed25519 : String → Details
    threshold : ℕ → Subconditions → Details
    unsupported : String → Details

  pub data Subconditions : Type 0 where
    nil : Subconditions
    cons : Details → Subconditions → Subconditions

-- What the code reads of a fulfillment object, by `type_name`, `public_key`, `threshold` and the
-- bodies of `subconditions`.
mutual
  pub data Shape : Type 0 where
    ed25519 : List ℕ → Shape
    threshold : ℕ → Shapes → Shape
    other : String → Shape
    -- an object with no `type_name`, such as a text
    plain : Shape

  pub data Shapes : Type 0 where
    nil : Shapes
    cons : Shape → Shapes → Shapes

-- `base58`, and the constructors of cryptoconditions with `add_subfulfillment`
pub record ConditionLibrary (F : Type 0) : Type 0 where
  pub b58encode : List ℕ → String
  pub b58decode : String → Result (List ℕ)
  pub ed25519_sha256 : List ℕ → F
  pub threshold_sha256 : ℕ → F
  pub add_subfulfillment : F → F → F
  pub shape : F → Shape

module _ {F : Type 0} (lib : ConditionLibrary F) where
  mutual
    to_details : Shape → Result Details
    to_details (ed25519 key) = ok (ed25519 (lib.b58encode key))
    to_details (threshold n subs) = do
      subconditions ← to_details_all subs
      ok (threshold n subconditions)
    to_details (other type_name) = err unsupported_type_error
    to_details plain = err attribute_error

    to_details_all : Shapes → Result Subconditions
    to_details_all nil = ok nil
    to_details_all (cons s subs) = do d ← to_details s; rest ← to_details_all subs; ok (cons d rest)

  unfoldable pub fulfillment_to_details : F → Result Details
  unfolding to_details
  fulfillment_to_details f = to_details (lib.shape f)

  unfoldable mutual
    pub from_details : Details → ℕ → Result F
    from_details (ed25519 public_key) depth =
        if eqb depth 100
        then err threshold_too_deep
        else do key ← lib.b58decode public_key; ok (lib.ed25519_sha256 key)
    from_details (threshold n subconditions) depth =
        let built = add_all subconditions (lib.threshold_sha256 n) (depth + 1) in
        if eqb depth 100 then err threshold_too_deep else built
    from_details (unsupported type_name) depth =
        if eqb depth 100 then err threshold_too_deep else err unsupported_type_error

    -- the loop over the subconditions, with the threshold condition built so far
    pub add_all : Subconditions → F → ℕ → Result F
    add_all nil built depth = ok built
    add_all (cons d rest) built depth = do
      f ← from_details d depth
      add_all rest (lib.add_subfulfillment built f) depth

  unfoldable pub fulfillment_from_details : Details → Result F
  unfolding from_details
  fulfillment_from_details d = from_details d 0

-- The list case of the source is the second function of the block.
mutual
  pub condition_details_has_owner : Details → String → Bool
  condition_details_has_owner (threshold n subconditions) owner =
      if any_has_owner subconditions owner then true else false
  condition_details_has_owner (ed25519 public_key) owner = owner == public_key
  condition_details_has_owner (unsupported type_name) owner = false

  any_has_owner : Subconditions → String → Bool
  any_has_owner nil owner = false
  any_has_owner (cons d rest) owner =
      if condition_details_has_owner d owner then true else any_has_owner rest owner
