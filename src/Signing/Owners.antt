-- ===== src/Signing/Owners.antt =====
-- The owners of the inputs, which signing leaves alone.
use planetmint.Base.{◌≡◌, sym, ap, ◌∙◌, String, List, [], ◌∷◌}
use planetmint.Base.Dict.{Dict, lookup}
use planetmint.Errors.{ok, >>=-eq-ok, ok-injective, or_raise, keypair_mismatch}
use planetmint.Transaction.Conditions.{Shape, ed25519, threshold, other, plain}
use planetmint.Transaction.Model.{Input, Transaction}
use planetmint.Transaction.Serialize.{to_dict}
use planetmint.Validation.{Crypto}
use planetmint.Signing.{
  Signer, first, digest, sign_simple, sign_threshold, sign_as, sign_owners, sign_input, sign_inputs,
  key_pairs, once, sign,
}

-- who the inputs belong to
abbrev pub all_owners : {F : Type 0} → List (Input F) → List (List String)
all_owners [] = []
all_owners (i ∷ is) = i.owners_before ∷ all_owners is

module _ {F : Type 0} (crypto : Crypto F) (signer : Signer F) where
  simple_keeps :
      (i : Input F) (message : String) (pairs : Dict String) {j : Input F}
      → sign_simple crypto signer i message pairs ≡ ok j
      → j.owners_before ≡ i.owners_before
  unfolding sign_simple
  simple_keeps i message pairs h =
      let owner = >>=-eq-ok (first i.owners_before) _ h in
      let held = >>=-eq-ok (or_raise (lookup owner.0 pairs) keypair_mismatch) _ owner.2 in
      let key = >>=-eq-ok (crypto.b58decode held.0) _ held.2 in
      let made =
        >>=-eq-ok (signer.sign i.fulfillment (digest crypto signer message i) key.0) _ key.2 in
      ap (λ (x : Input F). x.owners_before) (sym (ok-injective made.2))

  threshold_keeps :
      (i : Input F) (message : String) (pairs : Dict String) {j : Input F}
      → sign_threshold crypto signer i message pairs ≡ ok j
      → j.owners_before ≡ i.owners_before
  unfolding sign_threshold
  threshold_keeps i message pairs h =
      let made =
        >>=-eq-ok
          (sign_owners crypto signer (once i.owners_before) i.fulfillment
            (digest crypto signer message i) pairs)
          _ h in
      ap (λ (x : Input F). x.owners_before) (sym (ok-injective made.2))

  class_keeps :
      (s : Shape) (i : Input F) (message : String) (pairs : Dict String) {j : Input F}
      → sign_as crypto signer s i message pairs ≡ ok j
      → j.owners_before ≡ i.owners_before
  class_keeps (ed25519 k) i message pairs h = simple_keeps i message pairs h
  class_keeps (threshold n subs) i message pairs h = threshold_keeps i message pairs h
  class_keeps (other t) i message pairs h = cc
  class_keeps plain i message pairs h = cc

  inputs_keep :
      (is : List (Input F)) (message : String) (pairs : Dict String) {js : List (Input F)}
      → sign_inputs crypto signer is message pairs ≡ ok js
      → all_owners js ≡ all_owners is
  unfolding sign_inputs sign_input
  inputs_keep [] message pairs h = ap all_owners (sym (ok-injective h))
  inputs_keep (i ∷ is) message pairs h =
      let one = >>=-eq-ok (sign_input crypto signer i message pairs) _ h in
      let more = >>=-eq-ok (sign_inputs crypto signer is message pairs) _ one.2 in
      ap all_owners (sym (ok-injective more.2))
      ∙ ap (λ o. o ∷ all_owners more.0)
          (class_keeps (crypto.shape i.fulfillment) i message pairs one.1)
      ∙ ap (λ os. i.owners_before ∷ os) (inputs_keep is message pairs more.1)

  pub sign-all_owners :
      (private_keys : List String) (tx : Transaction F) {signed : Transaction F}
      → sign crypto signer private_keys tx ≡ ok signed
      → all_owners signed.inputs ≡ all_owners tx.inputs
  unfolding sign
  sign-all_owners private_keys tx h =
      let pairs = >>=-eq-ok (key_pairs crypto signer private_keys) _ h in
      let d = >>=-eq-ok (to_dict crypto.fulfillments tx) _ pairs.2 in
      let js = >>=-eq-ok (sign_inputs crypto signer tx.inputs _ pairs.0) _ d.2 in
      let e = >>=-eq-ok (to_dict crypto.fulfillments (record tx { inputs = js.0 })) _ js.2 in
      ap (λ (t : Transaction F). all_owners t.inputs) (sym (ok-injective e.2))
      ∙ inputs_keep tx.inputs _ pairs.0 js.1
