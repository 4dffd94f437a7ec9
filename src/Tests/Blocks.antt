-- ===== src/Tests/Blocks.antt =====
-- A block of two transfers, the second of which spends an output of the first.
use planetmint.Base.{ℕ, String, ◌≡◌, ◌↔◌, refl, true, none, some, List, [], ◌∷◌}
use planetmint.Errors.{ok}
use planetmint.Transaction.Conditions.{Details, Shape, ed25519}
use planetmint.Transaction.Model
use planetmint.Transaction.Model.{
  OutputDict, Input, Output, TransactionDict, Transaction, transfer, reference,
}
use planetmint.Base.Decimal.{decimal}
use planetmint.Base.Sets.{to_set}
use planetmint.Transaction.Link
use planetmint.Transaction.Link.{from_dict-to_dict, is_truthy, points_to, concatenated, to_uri}
use planetmint.Transaction.Conditions.{fulfillment_from_details}
use planetmint.Transaction.Serialize.{from_dict, remove_signatures}
use planetmint.Validation.{validate_transfer_inputs, inputs_valid, get_spent}
use planetmint.Validation.Signatures.{AllFulfilled, message_of, inputs_valid_iff-AllFulfilled}
use planetmint.Node.Unspent.{IsUnclaimed, get_spent-none_iff-IsUnclaimed}
use planetmint.Tests.Stored.{laws}
use planetmint.Validation.Transfer.{IsValidTransfer, validate_transfer_inputs_iff-IsValidTransfer}
use planetmint.Backend.Query
use planetmint.Node.{load, planet}
use planetmint.Election.{validate}
use planetmint.App.{App, ok_code, code_type_error, begin_block, deliver_tx}
use planetmint.App.Deliver.{
  deliver_all, Delivery, IsBuilding, deliver_tx-Delivery, deliveries-IsBuilding,
}
use planetmint.App.DoubleSpend.{SpendsFresh, deliveries-SpendsFresh}
use planetmint.Tests.Toy.{crypto, arithmetic, mongo, store, created, app}

abbrev pub pay : String → String → OutputDict
pay owner amount = record {
  public_keys = owner ∷ [];
  details = some (Details.ed25519 owner);
  uri = owner;
  amount = amount;
}

abbrev pub spend : String → ℕ → String → String → List OutputDict → TransactionDict
spend txid output owner id outputs = record {
  inputs =
      record {
        owners_before = owner ∷ [];
        fulfills = some (record { transaction_id = some txid; output_index = some output });
        fulfillment = Model.uri owner;
      }
      ∷ [];
  outputs = outputs;
  operation = transfer;
  metadata = none;
  asset = reference "share";
  version = id;
  id = some id;
}

abbrev pub first_dict : TransactionDict
first_dict = spend "share" 0 "alice" "first" (pay "bob" "1" ∷ pay "alice" "2" ∷ [])

abbrev second_dict : TransactionDict
second_dict = spend "first" 0 "bob" "second" (pay "alice" "1" ∷ [])

abbrev pub input_of : String → ℕ → String → ℕ → List (Input Shape)
input_of txid output owner key =
    record {
      fulfillment = ed25519 (key ∷ []);
      owners_before = owner ∷ [];
      fulfills = some (record { txid = some txid; output = some output });
    }
    ∷ []

abbrev pub output_of : String → ℕ → ℕ → Output Shape
output_of owner key amount = record {
  fulfillment = ed25519 (key ∷ []);
  public_keys = owner ∷ [];
  amount = amount;
}

abbrev pub loaded : TransactionDict → List (Input Shape) → List (Output Shape) → Transaction Shape
loaded d inputs outputs = record {
  operation = d.operation;
  asset = d.asset;
  inputs = inputs;
  outputs = outputs;
  metadata = d.metadata;
  version = d.version;
  id = d.id;
  tx_dict = some d;
}

abbrev pub first_tx : Transaction Shape
first_tx =
    loaded first_dict (input_of "share" 0 "alice" 0)
      (output_of "bob" 1 1 ∷ output_of "alice" 0 2 ∷ [])

abbrev second_tx : Transaction Shape
second_tx = loaded second_dict (input_of "first" 0 "bob" 1) (output_of "alice" 0 1 ∷ [])

abbrev after_first : App Shape mongo
after_first = record app { block_txn_ids = "first" ∷ []; block_transactions = first_tx ∷ [] }

abbrev after_second : App Shape mongo
after_second = record app {
  block_txn_ids = "first" ∷ "second" ∷ [];
  block_transactions = first_tx ∷ second_tx ∷ [];
}

starts : begin_block crypto arithmetic mongo app ≡ ok app
unfolding begin_block
starts = refl

delivers_first : deliver_tx crypto arithmetic mongo app first_dict ≡ ok (after_first, ok_code)
unfolding deliver_tx load from_dict fulfillment_from_details remove_signatures validate
    validate_transfer_inputs planet Query.get_transaction Query.get_spent Query.get_asset
    Query.get_metadata Query.get_assets is_truthy Link.from_dict points_to concatenated to_uri
    decimal to_set
delivers_first = refl

delivers_second :
    deliver_tx crypto arithmetic mongo after_first second_dict ≡ ok (after_second, ok_code)
unfolding deliver_tx load from_dict fulfillment_from_details remove_signatures validate
    validate_transfer_inputs planet Query.get_transaction Query.get_spent Query.get_asset
    Query.get_metadata Query.get_assets is_truthy Link.from_dict points_to concatenated to_uri
    decimal to_set
delivers_second = refl

-- spending the same output once more is refused
refuses_double_spend :
    deliver_tx crypto arithmetic mongo after_second second_dict ≡ ok (after_second, code_type_error)
unfolding deliver_tx load from_dict fulfillment_from_details remove_signatures validate
    validate_transfer_inputs planet Query.get_transaction Query.get_spent Query.get_asset
    Query.get_metadata Query.get_assets is_truthy Link.from_dict points_to concatenated to_uri
    decimal to_set
refuses_double_spend = refl

delivers_both :
    deliver_all crypto arithmetic mongo app (first_dict ∷ second_dict ∷ []) ≡ ok after_second
unfolding deliver_all
delivers_both = rw (delivers_first, delivers_second) refl

deliver_tx-Delivery_example : Delivery crypto arithmetic mongo app after_first ok_code
deliver_tx-Delivery_example =
    deliver_tx-Delivery crypto arithmetic mongo app after_first first_dict ok_code delivers_first

deliveries-IsBuilding_example : IsBuilding crypto arithmetic mongo store after_second
deliveries-IsBuilding_example =
    deliveries-IsBuilding crypto arithmetic mongo app app after_second
      (first_dict ∷ second_dict ∷ []) starts delivers_both

deliveries-SpendsFresh_example : SpendsFresh crypto arithmetic mongo store (first_tx ∷ []) second_tx
deliveries-SpendsFresh_example =
    deliveries-SpendsFresh crypto arithmetic mongo app app after_second
      (first_dict ∷ second_dict ∷ []) (first_tx ∷ []) [] second_tx starts delivers_both refl refl

validate_transfer_inputs_iff-IsValidTransfer_example :
    (validate_transfer_inputs crypto (planet crypto mongo store) (first_tx ∷ []) second_tx ≡ ok tt)
    ↔ IsValidTransfer crypto (planet crypto mongo store) (first_tx ∷ []) second_tx
validate_transfer_inputs_iff-IsValidTransfer_example =
    validate_transfer_inputs_iff-IsValidTransfer crypto (planet crypto mongo store) (first_tx ∷ [])
      second_tx refl

get_spent-none_iff-IsUnclaimed_example :
    (get_spent crypto (planet crypto mongo store) (some "first") (some 0) (first_tx ∷ []) ≡ ok none)
    ↔ IsUnclaimed (created ∷ []) (first_tx ∷ []) "first" 0
get_spent-none_iff-IsUnclaimed_example =
    get_spent-none_iff-IsUnclaimed "first" 0 crypto mongo laws store (first_tx ∷ [])

inputs_valid_iff-AllFulfilled_example :
    (inputs_valid crypto second_tx (output_of "bob" 1 1 ∷ []) ≡ ok true) ↔ (
      (d : TransactionDict) × (ok second_dict ≡ ok d)
      × AllFulfilled crypto (message_of crypto d) second_tx.inputs (output_of "bob" 1 1 ∷ []))
inputs_valid_iff-AllFulfilled_example =
    inputs_valid_iff-AllFulfilled crypto second_tx (output_of "bob" 1 1 ∷ []) refl
