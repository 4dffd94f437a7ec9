-- ===== src/Transaction/Build.antt =====
-- How clients build transactions: `Output.generate` and `Input.generate` of output.py and input.py,
-- `to_inputs`, `add_input` and `add_output` of transaction.py in planetmint/transactions/common, and
-- `Create` and `Transfer` of planetmint/transactions/types/assets. The public keys of an output are
-- a flat list of texts.
pub mod Generate
use planetmint.Base.{
  ℕ, zero, suc, ◌+◌, String, Bool, true, false, Option, none, some, List, [], ◌∷◌, ◌++◌, length,
  ltb, get_elem?, not, if◌then◌else◌,
}
use planetmint.Json.{Json, object}
use planetmint.Json
use planetmint.Errors.{
  Result, ok, err, ◌>>=◌, ◌>>◌, raise_if, or_raise, amount_error, value_error, type_error,
  index_error,
}
use planetmint.Transaction.Link.{TransactionLink}
use planetmint.Transaction.Conditions.{ConditionLibrary}
use planetmint.Transaction.Model.{
  Input, Output, Transaction, Operation, create, transfer, Asset, payload, reference,
}
use planetmint.Transaction.Serialize.{Fulfillments, make_output, make_transaction, metadata_fits}

-- `Transaction.VERSION`
abbrev pub version : String
version = "2.0"

abbrev is_empty {ℓ} : {A : Type ℓ} → List A → Bool
is_empty [] = true
is_empty (a ∷ as') = false

module _ {F : Type 0} (lib : Fulfillments F) where
  -- `_gen_condition` of a key
  abbrev pub gen_condition : F → String → Result F
  gen_condition initial public_key = do
    key ← lib.b58decode public_key
    ok (lib.add_subfulfillment initial (lib.ed25519_sha256 key))

  -- `reduce(cls._gen_condition, public_keys, initial)`
  pub gen_conditions : List String → F → Result F
  gen_conditions [] initial = ok initial
  gen_conditions (k ∷ ks) initial = do next ← gen_condition initial k; gen_conditions ks next

  abbrev pub fulfillment_of : List String → Result F
  fulfillment_of [] = err value_error
  fulfillment_of (k ∷ []) = do key ← lib.b58decode k; ok (lib.ed25519_sha256 key)
  fulfillment_of (k ∷ l ∷ ks) =
      gen_conditions (k ∷ l ∷ ks) (lib.threshold_sha256 (length (k ∷ l ∷ ks)))

  -- `Output.generate`
  unfoldable pub generate_output : List String → ℕ → Result (Output F)
  unfolding gen_conditions make_output
  generate_output public_keys amount = do
    raise_if (ltb amount 1) amount_error
    f ← fulfillment_of public_keys
    make_output lib f public_keys amount

  -- `Input.generate`
  pub generate_input : List String → Result (Input F)
  unfolding generate_output
  generate_input public_keys = do
    output ← generate_output public_keys 1
    ok (record { fulfillment = output.fulfillment; owners_before = public_keys; fulfills = none })

  pub generate_outputs : List (List String × ℕ) → Result (List (Output F))
  unfolding generate_output
  generate_outputs [] = ok []
  generate_outputs ((pub_keys, amount) ∷ recipients) = do
    output ← generate_output pub_keys amount
    outputs ← generate_outputs recipients
    ok (output ∷ outputs)

  pub validate_create :
      List String
      → List (List String × ℕ)
      → Option Json
      → Option Json
      → Result (List (Input F) × List (Output F))
  unfolding generate_outputs generate_input metadata_fits
  validate_create tx_signers recipients asset metadata = do
    raise_if (is_empty tx_signers) value_error
    raise_if (is_empty recipients) value_error
    raise_if (not (metadata_fits lib asset)) type_error
    raise_if (not (metadata_fits lib metadata)) type_error
    outputs ← generate_outputs recipients
    input ← generate_input tx_signers
    ok (input ∷ [], outputs)

  abbrev json_of : Option Json → Json
  json_of none = Json.null
  json_of (some j) = j

  -- `Create.generate`
  unfoldable pub generate_create :
      List String → List (List String × ℕ) → Option Json → Option Json → Result (Transaction F)
  unfolding validate_create make_transaction
  generate_create tx_signers recipients metadata asset = do
    parts ← validate_create tx_signers recipients asset metadata
    make_transaction lib create (payload (json_of asset)) parts.0 parts.1 metadata version none none

  unfoldable pub validate_transfer :
      List (Input F) → List (List String × ℕ) → Result (List (Input F) × List (Output F))
  unfolding generate_outputs
  validate_transfer inputs recipients = do
    raise_if (is_empty inputs) value_error
    raise_if (is_empty recipients) value_error
    outputs ← generate_outputs recipients
    ok (inputs, outputs)

  -- `Transfer.generate`
  unfoldable pub generate_transfer :
      List (Input F) → List (List String × ℕ) → String → Option Json → Result (Transaction F)
  unfolding validate_transfer make_transaction
  generate_transfer inputs recipients asset_id metadata = do
    parts ← validate_transfer inputs recipients
    make_transaction lib transfer (reference asset_id) parts.0 parts.1 metadata version none none

  -- `range(n)`, from `i` on
  abbrev range_from : ℕ → ℕ → List ℕ
  range_from i zero = []
  range_from i (suc n) = i ∷ range_from (suc i) n

  abbrev input_at : Transaction F → ℕ → Result (Input F)
  input_at tx idx = do
    output ← or_raise (get_elem? tx.outputs idx) index_error
    ok (record {
      fulfillment = output.fulfillment;
      owners_before = output.public_keys;
      fulfills = some (record { txid = tx.id; output = some idx });
    })

  abbrev inputs_at : Transaction F → List ℕ → Result (List (Input F))
  inputs_at tx [] = ok []
  inputs_at tx (idx ∷ indices) = do
    input ← input_at tx idx
    inputs ← inputs_at tx indices
    ok (input ∷ inputs)

  abbrev indices_of : Transaction F → List ℕ → List ℕ
  indices_of tx [] = range_from 0 (length tx.outputs)
  indices_of tx (i ∷ is) = i ∷ is

  unfoldable pub to_inputs : Transaction F → List ℕ → Result (List (Input F))
  to_inputs tx indices = inputs_at tx (indices_of tx indices)

  pub add_input : Input F → Transaction F → Transaction F
  add_input input tx = record tx { inputs = tx.inputs ++ (input ∷ []) }

  pub add_output : Output F → Transaction F → Transaction F
  add_output output tx = record tx { outputs = tx.outputs ++ (output ∷ []) }
