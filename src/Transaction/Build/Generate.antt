-- ===== src/Transaction/Build/Generate.antt =====
-- The condition of a generated output, and which outputs can be generated.
use planetmint.Base.{
  ℕ, ◌≤◌, ◌≡◌, ◌≢◌, refl, ap, sym, subst, ◌∙◌, ◌↔◌, String, List, [], ◌∷◌, length, ltb, All, arith,
  false,
}
use planetmint.Errors.{
  Result, ok, err, ◌>>=◌, >>=-eq-ok, >>-ok_iff, raise_if, raise_if-eq-ok, ok-injective,
  amount_error,
}
use planetmint.Transaction.Model.{Input, Output}
use planetmint.Transaction.Conditions.{
  Details, Subconditions, ed25519, threshold, nil, cons, from_details, fulfillment_from_details,
  fulfillment_to_details, add_all,
}
use planetmint.Transaction.Conditions.Owner.{leaf_keys, leaf_keys_all}
use planetmint.Transaction.Conditions.RoundTrip.{BuildLaws, IsCanonical, to_details-from_details}
use planetmint.Transaction.Serialize.{Fulfillments, make_output, max_amount}
use planetmint.Transaction.Build.{
  gen_condition, gen_conditions, fulfillment_of, generate_output, generate_outputs,
  validate_transfer,
}

abbrev leaves : List String → Subconditions
leaves [] = nil
leaves (k ∷ ks) = cons (ed25519 k) (leaves ks)

-- The one key, or all the keys of several.
abbrev pub details_of : List String → Details
details_of (k ∷ []) = ed25519 k
details_of ks = threshold (length ks) (leaves ks)

leaf_keys-leaves : (ks : List String) → leaf_keys_all (leaves ks) ≡ ks
unfolding leaf_keys
leaf_keys-leaves [] = refl
leaf_keys-leaves (k ∷ ks) = ap (λ l. k ∷ l) (leaf_keys-leaves ks)

leaf_keys-details_of : (ks : List String) → leaf_keys (details_of ks) ≡ ks
unfolding leaf_keys
leaf_keys-details_of [] = refl
leaf_keys-details_of (k ∷ []) = refl
leaf_keys-details_of (k ∷ l ∷ ks) = leaf_keys-leaves (k ∷ l ∷ ks)

at_least : (a b : ℕ) → ltb a b ≡ false → b ≤ a
at_least a b h = ground arith

ltb-false : (a b : ℕ) → b ≤ a → ltb a b ≡ false
ltb-false a b h = ground arith

module _ {F : Type 0} (lib : Fulfillments F) where
  first_key :
      (r : Result (List ℕ)) (ks : List String) (built : F)
      → ((next : F) → gen_conditions lib ks next ≡ add_all lib.library (leaves ks) next 1)
      → (r >>= (λ key. ok (lib.add_subfulfillment built (lib.ed25519_sha256 key))) >>= λ next.
          gen_conditions lib ks next)
        ≡ (r >>= (λ key. ok (lib.ed25519_sha256 key)) >>= λ f.
            add_all lib.library (leaves ks) (lib.add_subfulfillment built f) 1)
  first_key (err e) ks built rest = refl
  first_key (ok key) ks built rest = rest (lib.add_subfulfillment built (lib.ed25519_sha256 key))

  gen_conditions-add_all :
      (ks : List String) (built : F)
      → gen_conditions lib ks built ≡ add_all lib.library (leaves ks) built 1
  unfolding gen_conditions from_details
  gen_conditions-add_all [] built = refl
  gen_conditions-add_all (k ∷ ks) built =
      first_key (lib.b58decode k) ks built (λ next. gen_conditions-add_all ks next)

  fulfillment_of-from_details :
      (ks : List String)
      → ks ≢ []
      → fulfillment_of lib ks ≡ fulfillment_from_details lib.library (details_of ks)
  unfolding fulfillment_from_details
  fulfillment_of-from_details [] h = absurd (h refl)
  fulfillment_of-from_details (k ∷ []) h = refl
  fulfillment_of-from_details (k ∷ l ∷ ks) h =
      gen_conditions-add_all (k ∷ l ∷ ks) (lib.threshold_sha256 (length (k ∷ l ∷ ks)))

  -- base58 decodes the key.
  abbrev pub IsDecodable : String → Type 0
  IsDecodable k = (key : List ℕ) × (lib.b58decode k ≡ ok key)

  gen_conditions-returns :
      (ks : List String) (built : F)
      → All IsDecodable ks
      → (f : F) × (gen_conditions lib ks built ≡ ok f)
  unfolding gen_conditions
  gen_conditions-returns [] built h = (built, refl)
  gen_conditions-returns (k ∷ ks) built h =
      let rest =
        gen_conditions-returns ks (lib.add_subfulfillment built (lib.ed25519_sha256 h.0.0)) h.1 in
      (rest.0, rw h.0.1 rest.1)

  gen_conditions-IsDecodable :
      (ks : List String) (built : F) {f : F}
      → gen_conditions lib ks built ≡ ok f
      → All IsDecodable ks
  unfolding gen_conditions
  gen_conditions-IsDecodable [] built h = tt
  gen_conditions-IsDecodable (k ∷ ks) built h =
      let one = >>=-eq-ok (gen_condition lib built k) _ h in
      let key = >>=-eq-ok (lib.b58decode k) _ one.1 in
      ((key.0, key.1), gen_conditions-IsDecodable ks one.0 one.2)

  fulfillment_of-returns :
      (ks : List String) → ks ≢ [] → All IsDecodable ks → (f : F) × (fulfillment_of lib ks ≡ ok f)
  fulfillment_of-returns [] h d = absurd (h refl)
  fulfillment_of-returns (k ∷ []) h d = (lib.ed25519_sha256 d.0.0, rw d.0.1 refl)
  fulfillment_of-returns (k ∷ l ∷ ks) h d =
      gen_conditions-returns (k ∷ l ∷ ks) (lib.threshold_sha256 (length (k ∷ l ∷ ks))) d

  fulfillment_of-IsDecodable :
      (ks : List String) {f : F} → fulfillment_of lib ks ≡ ok f → (ks ≢ []) × All IsDecodable ks
  fulfillment_of-IsDecodable [] h = cc
  fulfillment_of-IsDecodable (k ∷ []) h =
      let key = >>=-eq-ok (lib.b58decode k) _ h in (λ e. cc, ((key.0, key.1), tt))
  fulfillment_of-IsDecodable (k ∷ l ∷ ks) h = (
    λ e. cc,
    gen_conditions-IsDecodable (k ∷ l ∷ ks) (lib.threshold_sha256 (length (k ∷ l ∷ ks))) h,
  )

  make_output-bounds :
      (f : F) (ks : List String) (n : ℕ) {o : Output F}
      → make_output lib f ks n ≡ ok o
      → (1 ≤ n)
        × (n ≤ max_amount lib)
        × (o ≡ record { fulfillment = f; public_keys = ks; amount = n })
  unfolding make_output
  make_output-bounds f ks n h =
      let low = (>>-ok_iff (raise_if (ltb n 1) amount_error) _).0 h in
      let high = (>>-ok_iff (raise_if (ltb (max_amount lib) n) amount_error) _).0 low.1 in
      (
        at_least n 1 (raise_if-eq-ok (ltb n 1) amount_error low.0),
        at_least (max_amount lib) n (raise_if-eq-ok (ltb (max_amount lib) n) amount_error high.0),
        sym (ok-injective high.1),
      )

  -- Output.generate returns exactly if the amount is from 1 to the limit of nine times ten to the
  -- 18, there is a public key, and base58 decodes every key.
  pub generate_output-ok_iff :
      (ks : List String) (n : ℕ)
      → ((o : Output F) × (generate_output lib ks n ≡ ok o))
        ↔ ((1 ≤ n) × (n ≤ max_amount lib) × (ks ≢ []) × All IsDecodable ks)
  unfolding generate_output
  generate_output-ok_iff ks n = (
    λ h.
        let steps = (>>-ok_iff (raise_if (ltb n 1) amount_error) _).0 h.1 in
        let built = >>=-eq-ok (fulfillment_of lib ks) _ steps.1 in
        let bounds = make_output-bounds built.0 ks n built.2 in
        let keys = fulfillment_of-IsDecodable ks built.1 in (bounds.0, bounds.1, keys.0, keys.1),
    λ h.
        let built = fulfillment_of-returns ks h.2 h.3 in
        (
          record { fulfillment = built.0; public_keys = ks; amount = n },
          rw (ltb-false n 1 h.0, built.1, ltb-false (max_amount lib) n h.1) refl,
        ),
  )

  generate_output-fields :
      (ks : List String) (n : ℕ) {o : Output F}
      → generate_output lib ks n ≡ ok o
      → (o.public_keys ≡ ks) × (o.amount ≡ n)
  unfolding generate_output
  generate_output-fields ks n {o} h =
      let steps = (>>-ok_iff (raise_if (ltb n 1) amount_error) _).0 h in
      let built = >>=-eq-ok (fulfillment_of lib ks) _ steps.1 in
      let made = (make_output-bounds built.0 ks n built.2).2 in
      (ap (λ (x : Output F). x.public_keys) made, ap (λ (x : Output F). x.amount) made)

  -- A transfer to one recipient keeps the inputs and has one output.
  pub validate_transfer-single :
      (inputs : List (Input F)) (ks : List String) (n : ℕ)
      {parts : List (Input F) × List (Output F)}
      → validate_transfer lib inputs ((ks, n) ∷ []) ≡ ok parts
      → (parts.0 ≡ inputs)
        × ((o : Output F) × (parts.1 ≡ o ∷ []) × (o.public_keys ≡ ks) × (o.amount ≡ n))
  unfolding validate_transfer generate_outputs
  validate_transfer-single inputs ks n h =
      let a = (>>-ok_iff _ _).0 h in
      let os = >>=-eq-ok (generate_outputs lib ((ks, n) ∷ [])) _ a.1 in
      let o = >>=-eq-ok (generate_output lib ks n) _ os.1 in
      let fields = generate_output-fields ks n o.1 in
      let made = ok-injective os.2 in
      (
        sym (ap (λ (p : List (Input F) × List (Output F)). p.0) made),
        (
          o.0,
          sym (ap (λ (p : List (Input F) × List (Output F)). p.1) made) ∙ sym (ok-injective o.2),
          fields.0,
          fields.1,
        ),
      )

  -- If cryptoconditions builds conditions as documented and the keys are canonical base58, an
  -- output that Output.generate returns has the amount and the public keys that were given, and the
  -- details of its condition are the one key, or a threshold of all the keys, whose leaves are the
  -- keys in order.
  pub generate_output-details :
      (ks : List String) (n : ℕ) {o : Output F}
      → BuildLaws lib.library
      → IsCanonical lib.library (details_of ks)
      → generate_output lib ks n ≡ ok o
      → (fulfillment_to_details lib.library o.fulfillment ≡ ok (details_of ks))
        × (leaf_keys (details_of ks) ≡ ks)
        × (o.public_keys ≡ ks)
        × (o.amount ≡ n)
  unfolding generate_output
  generate_output-details ks n {o} laws canonical h =
      let steps = (>>-ok_iff (raise_if (ltb n 1) amount_error) _).0 h in
      let built = >>=-eq-ok (fulfillment_of lib ks) _ steps.1 in
      let made = (make_output-bounds built.0 ks n built.2).2 in
      let keys = (fulfillment_of-IsDecodable ks built.1).0 in
      (
        subst (λ x. fulfillment_to_details lib.library x.fulfillment ≡ ok (details_of ks))
            (sym made)
            (to_details-from_details lib.library laws (details_of ks) built.0 canonical
              (sym (fulfillment_of-from_details ks keys) ∙ built.1)),
        leaf_keys-details_of ks,
        ap (λ x. x.public_keys) made,
        ap (λ x. x.amount) made,
      )
