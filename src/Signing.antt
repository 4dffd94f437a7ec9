-- ===== src/Signing.antt =====
-- `sign` of planetmint/transactions/common/transaction.py, with what it calls: the signing of each
-- input by the private keys, and the hash that becomes the id. The proof is in the modules below.
pub mod Signed
pub mod Owners
pub mod Accepted
use planetmint.Base.{
  ℕ, String, Bool, true, false, Option, none, some, List, [], ◌∷◌, ◌==◌, any, if◌then◌else◌,
}
use planetmint.Base.Dict.{Dict, lookup, insert}
use planetmint.Errors.{
  Result, ok, err, ◌>>=◌, ◌>>◌, raise_if, or_raise, keypair_mismatch, value_error, index_error,
}
use planetmint.Transaction.Conditions.{Shape, ed25519, threshold, other, plain}
use planetmint.Transaction.Model.{Input, Transaction, TransactionDict}
use planetmint.Transaction.Serialize.{to_dict, remove_signatures}
use planetmint.Validation.{Crypto, signed_pieces}

-- What the code takes from cryptoconditions to sign. A fulfillment is given and returned, where the
-- source signs a copy in place; of a threshold, all parts with the verifying key are signed.
pub record Signer (F : Type 0) : Type 0 where
  -- `PrivateKey(…).get_verifying_key().encode().decode()`
  pub gen_public_key : String → Result String
  pub sign : F → String → List ℕ → Result F
  -- `get_subcondition_from_vk` finds something
  pub has_subcondition : F → List ℕ → Bool
  pub sign_subconditions : F → List ℕ → String → List ℕ → Result F

-- `l[0]`
abbrev first {ℓ} : {A : Type ℓ} → List A → Result A
first [] = err index_error
first (a ∷ as') = ok a

-- the elements of `set(owners_before)`, each once
abbrev once : List String → List String
once [] = []
once (t ∷ ts) = let rest = once ts in if any (λ s. s == t) ts then rest else t ∷ rest

module _ {F : Type 0} (crypto : Crypto F) (signer : Signer F) where
  -- a later private key for the same public key takes the place of an earlier one
  pub add_key_pairs : List String → Dict String → Result (Dict String)
  add_key_pairs [] pairs = ok pairs
  add_key_pairs (private_key ∷ private_keys) pairs = do
    public_key ← signer.gen_public_key private_key
    add_key_pairs private_keys (insert public_key private_key pairs)

  -- the dict `key_pairs`
  pub key_pairs : List String → Result (Dict String)
  unfolding add_key_pairs
  key_pairs private_keys = add_key_pairs private_keys []

  abbrev digest : String → Input F → String
  digest message i = crypto.sha3_256 (signed_pieces crypto message i.fulfills)

  -- `_sign_simple_signature_fulfillment`
  pub sign_simple : Input F → String → Dict String → Result (Input F)
  sign_simple i message pairs = do
    public_key ← first i.owners_before
    private_key ← or_raise (lookup public_key pairs) keypair_mismatch
    key ← crypto.b58decode private_key
    f ← signer.sign i.fulfillment (digest message i) key
    ok (record i { fulfillment = f })

  -- the loop over the owners
  sign_owners : List String → F → String → Dict String → Result F
  sign_owners [] f message pairs = ok f
  sign_owners (owner ∷ owners) f message pairs = do
    vk ← crypto.b58decode owner
    raise_if (if signer.has_subcondition f vk then false else true) keypair_mismatch
    private_key ← or_raise (lookup owner pairs) keypair_mismatch
    key ← crypto.b58decode private_key
    g ← signer.sign_subconditions f vk message key
    sign_owners owners g message pairs

  -- `_sign_threshold_signature_fulfillment`
  pub sign_threshold : Input F → String → Dict String → Result (Input F)
  unfolding sign_owners
  sign_threshold i message pairs = do
    f ← sign_owners (once i.owners_before) i.fulfillment (digest message i) pairs
    ok (record i { fulfillment = f })

  -- `_sign_input`: the class of the fulfillment decides
  abbrev sign_as : Shape → Input F → String → Dict String → Result (Input F)
  sign_as (ed25519 k) i message pairs = sign_simple i message pairs
  sign_as (threshold n subs) i message pairs = sign_threshold i message pairs
  sign_as _ i message pairs = err value_error

  pub sign_input : Input F → String → Dict String → Result (Input F)
  unfolding sign_simple sign_threshold
  sign_input i message pairs = sign_as (crypto.shape i.fulfillment) i message pairs

  pub sign_inputs : List (Input F) → String → Dict String → Result (List (Input F))
  unfolding sign_input
  sign_inputs [] message pairs = ok []
  sign_inputs (i ∷ is) message pairs = do
    j ← sign_input i message pairs
    js ← sign_inputs is message pairs
    ok (j ∷ js)

  -- `_hash`
  pub hash : Transaction F → Result (Transaction F)
  hash tx = do
    d ← to_dict crypto.fulfillments tx
    ok (record tx { id = some (crypto.hexdigest (crypto.dumps d ∷ [])) })

  unfoldable pub sign : List String → Transaction F → Result (Transaction F)
  unfolding key_pairs sign_inputs hash
  sign private_keys tx = do
    pairs ← key_pairs private_keys
    d ← to_dict crypto.fulfillments tx
    inputs ← sign_inputs tx.inputs (crypto.dumps (remove_signatures crypto.fulfillments d)) pairs
    hash (record tx { inputs = inputs })
