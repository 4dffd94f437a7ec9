-- ===== src/Signing/Accepted.antt =====
-- The transaction that `sign` returns, and `inputs_valid`.
use planetmint.Base.{
  ◌≡◌, refl, sym, ap, subst, ◌∙◌, String, true, false, Option, none, some, List, [], ◌∷◌, map,
}
use planetmint.Errors.{ok, >>=-eq-ok, ok-injective}
use planetmint.Transaction.Link.{TransactionLink}
use planetmint.Transaction.Model.{
  is_create, Input, Output, InputDict, OutputDict, FulfillmentDict, Transaction, TransactionDict,
}
use planetmint.Transaction.Serialize.{
  to_dict, remove_signatures, remove_signature, inputs_to_dict, outputs_to_dict, input_to_dict,
  link_dict, or_details,
}
use planetmint.Validation.{Crypto, inputs_valid, dict_of}
use planetmint.Validation.Signatures.{AllFulfilled, message_of, inputs_valid_iff-AllFulfilled}
use planetmint.Signing.{Signer, key_pairs, sign_inputs, sign}
use planetmint.Signing.Signed.{
  SignLaws, AllSignable, AllSame, SameInput, IsKeyed, add_key_pairs-IsKeyed, all_signed,
}

module _ {F : Type 0} (crypto : Crypto F) (signer : Signer F) where
  -- Without its fulfillment the dict of an input is the same before and after.
  input-signature :
      (i j : Input F) {d e : InputDict}
      → SameInput crypto signer i j
      → input_to_dict crypto.fulfillments i ≡ ok d
      → input_to_dict crypto.fulfillments j ≡ ok e
      → remove_signature crypto.fulfillments d ≡ remove_signature crypto.fulfillments e
  unfolding input_to_dict remove_signature SameInput
  input-signature i j same p q =
      let a =
        >>=-eq-ok
          (or_details crypto.fulfillments (crypto.serialize_uri i.fulfillment) i.fulfillment) _ p in
      let b =
        >>=-eq-ok
          (or_details crypto.fulfillments (crypto.serialize_uri j.fulfillment) j.fulfillment) _ q in
      let bare = λ (owners : List String) (l : Option TransactionLink) (f : FulfillmentDict).
        remove_signature crypto.fulfillments (record {
          owners_before = owners;
          fulfills = link_dict crypto.fulfillments l;
          fulfillment = f;
        }) in
      ap (remove_signature crypto.fulfillments) (sym (ok-injective a.2))
      ∙ ap (λ owners. bare owners i.fulfills a.0) (sym same.0)
      ∙ ap (λ l. bare j.owners_before l b.0) (sym same.1)
      ∙ ap (remove_signature crypto.fulfillments) (ok-injective b.2)

  inputs-signature :
      (is js : List (Input F)) {ds es : List InputDict}
      → AllSame crypto signer is js
      → inputs_to_dict crypto.fulfillments is ≡ ok ds
      → inputs_to_dict crypto.fulfillments js ≡ ok es
      → map (remove_signature crypto.fulfillments) ds
        ≡ map (remove_signature crypto.fulfillments) es
  unfolding inputs_to_dict
  inputs-signature [] [] same p q =
      ap (map (remove_signature crypto.fulfillments)) (sym (ok-injective p) ∙ ok-injective q)
  inputs-signature [] (j ∷ js) same p q = absurd same
  inputs-signature (i ∷ is) [] same p q = absurd same
  inputs-signature (i ∷ is) (j ∷ js) same p q =
      let a = >>=-eq-ok (input_to_dict crypto.fulfillments i) _ p in
      let as' = >>=-eq-ok (inputs_to_dict crypto.fulfillments is) _ a.2 in
      let b = >>=-eq-ok (input_to_dict crypto.fulfillments j) _ q in
      let bs = >>=-eq-ok (inputs_to_dict crypto.fulfillments js) _ b.2 in
      let one = input-signature i j same.0 a.1 b.1 in
      let rest = inputs-signature is js same.1 as'.1 bs.1 in
      rw (← ok-injective as'.2, ← ok-injective bs.2, one, rest) refl

  -- the text that is signed is the text of the transaction that comes out
  same_message :
      (tx : Transaction F) (js : List (Input F)) (id : Option String) {d e : TransactionDict}
      → tx.id ≡ none
      → AllSame crypto signer tx.inputs js
      → to_dict crypto.fulfillments tx ≡ ok d
      → to_dict crypto.fulfillments (record tx { inputs = js; id = id }) ≡ ok e
      → crypto.dumps (remove_signatures crypto.fulfillments d) ≡ message_of crypto e
  unfolding to_dict remove_signatures
  same_message tx js id {d} {e} fresh same p q =
      let a = >>=-eq-ok (inputs_to_dict crypto.fulfillments tx.inputs) _ p in
      let a' = >>=-eq-ok (outputs_to_dict crypto.fulfillments tx.outputs) _ a.2 in
      let b = >>=-eq-ok (inputs_to_dict crypto.fulfillments js) _ q in
      let b' = >>=-eq-ok (outputs_to_dict crypto.fulfillments tx.outputs) _ b.2 in
      let inputs = inputs-signature tx.inputs js same a.1 b.1 in
      let outputs = ok-injective (sym a'.1 ∙ b'.1) in
      let text = λ (is : List InputDict) (os : List OutputDict) (k : Option String).
        crypto.dumps (record {
          inputs = is;
          outputs = os;
          operation = tx.operation;
          metadata = tx.metadata;
          asset = tx.asset;
          version = tx.version;
          id = k;
        }) in
      let bare = map (remove_signature crypto.fulfillments) in
      ap (λ x. crypto.dumps (remove_signatures crypto.fulfillments x)) (sym (ok-injective a'.2))
      ∙ ap (λ l. text l a'.0 tx.id) inputs
      ∙ ap (λ l. text (bare b.0) l tx.id) outputs
      ∙ ap (text (bare b.0) b'.0) fresh
      ∙ ap (message_of crypto) (ok-injective b'.2)

  renamed :
      (tx : Transaction F) (id : Option String) {d : TransactionDict}
      → to_dict crypto.fulfillments tx ≡ ok d
      → to_dict crypto.fulfillments (record tx { id = id }) ≡ ok (record d { id = id })
  unfolding to_dict
  renamed tx id h =
      let a = >>=-eq-ok (inputs_to_dict crypto.fulfillments tx.inputs) _ h in
      let b = >>=-eq-ok (outputs_to_dict crypto.fulfillments tx.outputs) _ a.2 in
      let named = λ (x : TransactionDict). ok (record x { id = id }) in
      rw (a.1, b.1) (ap named (ok-injective b.2))

  start_IsKeyed : IsKeyed crypto signer []
  unfolding IsKeyed
  start_IsKeyed p q h = cc

  -- If a transaction of an operation that spends outputs has no id and no dict yet, each of its
  -- inputs has an Ed25519 fulfillment of its first owner with the condition of the output that it
  -- spends, and cryptoconditions keeps its promises of a signed fulfillment, then whatever sign
  -- returns with the private keys has inputs that inputs_valid accepts for these outputs.
  pub sign-inputs_valid :
      (private_keys : List String) (tx : Transaction F) (outputs : List (Output F))
      {signed : Transaction F}
      → SignLaws crypto signer
      → is_create tx.operation ≡ false
      → tx.id ≡ none
      → tx.tx_dict ≡ none
      → AllSignable crypto signer tx.inputs outputs
      → sign crypto signer private_keys tx ≡ ok signed
      → inputs_valid crypto signed outputs ≡ ok true
  unfolding sign
  sign-inputs_valid private_keys tx outputs {signed} laws c fresh plain s h =
      let pairs = >>=-eq-ok (key_pairs crypto signer private_keys) _ h in
      let d = >>=-eq-ok (to_dict crypto.fulfillments tx) _ pairs.2 in
      let text = crypto.dumps (remove_signatures crypto.fulfillments d.0) in
      let js = >>=-eq-ok (sign_inputs crypto signer tx.inputs text pairs.0) _ d.2 in
      let keyed = add_key_pairs-IsKeyed crypto signer private_keys [] start_IsKeyed pairs.1 in
      let done = all_signed crypto signer laws tx.inputs outputs text pairs.0 keyed s js.1 in
      let e = >>=-eq-ok (to_dict crypto.fulfillments (record tx { inputs = js.0 })) _ js.2 in
      let id = some (crypto.hexdigest (crypto.dumps e.0 ∷ [])) in
      let out = record tx { inputs = js.0; id = id } in
      let named = renamed (record tx { inputs = js.0 }) id e.1 in
      let message = same_message tx js.0 id fresh done.0 d.1 named in
      subst (λ x. inputs_valid crypto x outputs ≡ ok true) (ok-injective e.2)
        ((inputs_valid_iff-AllFulfilled crypto out outputs c).1 (
          record e.0 { id = id },
          subst (λ o. dict_of crypto out o ≡ ok (record e.0 { id = id })) (sym plain) named,
          subst (λ t. AllFulfilled crypto t js.0 outputs) message done.1,
        ))
