-- ===== src/Transaction/Serialize.antt =====
-- `to_dict` and `from_dict` of input.py, output.py and transaction.py.
use planetmint.Base.{ℕ, String, Option, none, some, List, [], ◌∷◌, map, Bool, true, false, not, ltb}
use planetmint.Json.{Json, object}
use planetmint.Base.Decimal.{decimal}
use planetmint.Errors.{
  Result, ok, err, ◌>>=◌, ◌>>◌, raise_if, or_raise, type_error, attribute_error, asn1_encode_error,
  asn1_decode_error, invalid_signature, amount_error,
}
use planetmint.Transaction.Link
use planetmint.Transaction.Link.{TransactionLink, LinkDict}
use planetmint.Transaction.Conditions.{
  Details, ConditionLibrary, fulfillment_to_details, fulfillment_from_details,
}
use planetmint.Transaction.Model.{
  Input, Output, InputDict, OutputDict, FulfillmentDict, null, uri, details, Transaction,
  TransactionDict, Operation, transfer, vote, Asset, reference,
}

-- What the code takes from `cryptoconditions.Fulfillment`, and `int` of a text.
pub record Fulfillments (F : Type 0) : Type 0 where
  pub library : ConditionLibrary F
  pub open library use *
  pub serialize_uri : F → Result String
  pub from_uri : String → Result F
  pub condition_uri : F → Result String
  -- the object None
  pub missing : F
  -- a text as the attribute's value, and the text that is there
  pub of_text : String → F
  pub text : F → String
  pub parse_int : String → Option ℕ

module _ {F : Type 0} (lib : Fulfillments F) where
  -- the `except` clause of `Input.to_dict`
  abbrev pub or_details : Result String → F → Result FulfillmentDict
  or_details (ok u) f = ok (uri u)
  or_details (err type_error) f = do d ← fulfillment_to_details lib.library f; ok (details d)
  or_details (err attribute_error) f = do d ← fulfillment_to_details lib.library f; ok (details d)
  or_details (err asn1_encode_error) f = do d ← fulfillment_to_details lib.library f; ok (details d)
  or_details (err asn1_decode_error) f = do d ← fulfillment_to_details lib.library f; ok (details d)
  or_details (err e) f = err e

  -- None has no `to_dict`
  abbrev pub link_dict : Option TransactionLink → Option LinkDict
  link_dict none = none
  link_dict (some l) = Link.to_dict l

  unfoldable pub input_to_dict : Input F → Result InputDict
  input_to_dict i = do
    f ← or_details (lib.serialize_uri i.fulfillment) i.fulfillment
    ok (record {
      owners_before = i.owners_before;
      fulfills = link_dict i.fulfills;
      fulfillment = f;
    })

  -- the `except` clauses of `Input.from_dict`
  abbrev parsed : Result F → Result F
  parsed (err asn1_decode_error) = err invalid_signature
  parsed r = r

  -- `from_uri` of a dictionary raises a `TypeError`
  abbrev load_fulfillment : FulfillmentDict → Result F
  load_fulfillment null = ok lib.missing
  load_fulfillment (uri u) = parsed (lib.from_uri u)
  load_fulfillment (details d) = fulfillment_from_details lib.library d

  pub input_from_dict : InputDict → Result (Input F)
  unfolding Link.from_dict
  input_from_dict d = do
    f ← load_fulfillment d.fulfillment
    ok (record {
      fulfillment = f;
      owners_before = d.owners_before;
      fulfills = some (Link.from_dict d.fulfills);
    })

  -- a condition without `details` is a text, which stands for its own URI
  abbrev output_details : Result Details → Result (Option Details)
  output_details (ok d) = ok (some d)
  output_details (err attribute_error) = ok none
  output_details (err e) = err e

  abbrev output_uri : F → Result String → Result String
  output_uri f (err attribute_error) = ok (lib.text f)
  output_uri f r = r

  pub output_to_dict : Output F → Result OutputDict
  output_to_dict o = do
    d ← output_details (fulfillment_to_details lib.library o.fulfillment)
    u ← output_uri o.fulfillment (lib.condition_uri o.fulfillment)
    ok (record { public_keys = o.public_keys; details = d; uri = u; amount = decimal o.amount })

  abbrev pub max_amount : ℕ
  max_amount = 9_000_000_000_000_000_000

  -- `Output.__init__`
  unfoldable pub make_output : F → List String → ℕ → Result (Output F)
  make_output f public_keys amount = do
    raise_if (ltb amount 1) amount_error
    raise_if (ltb max_amount amount) amount_error
    ok (record { fulfillment = f; public_keys = public_keys; amount = amount })

  abbrev load_condition : Option Details → String → Result F
  load_condition none u = ok (lib.of_text u)
  load_condition (some d) u = fulfillment_from_details lib.library d

  pub output_from_dict : OutputDict → Result (Output F)
  unfolding make_output
  output_from_dict d = do
    f ← load_condition d.details d.uri
    amount ← or_raise (lib.parse_int d.amount) amount_error
    make_output f d.public_keys amount

  unfoldable pub inputs_to_dict : List (Input F) → Result (List InputDict)
  unfolding input_to_dict
  inputs_to_dict [] = ok []
  inputs_to_dict (i ∷ is) = do d ← input_to_dict i; ds ← inputs_to_dict is; ok (d ∷ ds)

  pub outputs_to_dict : List (Output F) → Result (List OutputDict)
  unfolding output_to_dict
  outputs_to_dict [] = ok []
  outputs_to_dict (o ∷ os) = do d ← output_to_dict o; ds ← outputs_to_dict os; ok (d ∷ ds)

  inputs_from_dict : List InputDict → Result (List (Input F))
  unfolding input_from_dict
  inputs_from_dict [] = ok []
  inputs_from_dict (d ∷ ds) = do i ← input_from_dict d; is ← inputs_from_dict ds; ok (i ∷ is)

  outputs_from_dict : List OutputDict → Result (List (Output F))
  unfolding output_from_dict
  outputs_from_dict [] = ok []
  outputs_from_dict (d ∷ ds) = do o ← output_from_dict d; os ← outputs_from_dict ds; ok (o ∷ os)

  -- `Transaction.to_dict`
  unfoldable pub to_dict : Transaction F → Result TransactionDict
  unfolding inputs_to_dict outputs_to_dict
  to_dict tx = do
    inputs ← inputs_to_dict tx.inputs
    outputs ← outputs_to_dict tx.outputs
    ok (record {
      inputs = inputs;
      outputs = outputs;
      operation = tx.operation;
      metadata = tx.metadata;
      asset = tx.asset;
      version = tx.version;
      id = tx.id;
    })

  -- what the constructor asks of the asset: None or a dict with `data` for the CREATE of the class,
  -- a dict with `id` for its TRANSFER
  asset_fits : Operation → Asset → Bool
  asset_fits transfer (reference i) = true
  asset_fits transfer _ = false
  asset_fits vote (reference i) = true
  asset_fits vote _ = false
  asset_fits _ (reference i) = false
  asset_fits _ _ = true

  -- None or a dict
  unfoldable pub metadata_fits : Option Json → Bool
  metadata_fits none = true
  metadata_fits (some (object fields)) = true
  metadata_fits (some _) = false

  -- `Transaction.__init__`, of the class that is registered for the operation
  unfoldable pub make_transaction :
      Operation
      → Asset
      → List (Input F)
      → List (Output F)
      → Option Json
      → String
      → Option String
      → Option TransactionDict
      → Result (Transaction F)
  unfolding asset_fits metadata_fits
  make_transaction operation asset inputs outputs metadata version hash_id tx_dict = do
    raise_if (not (asset_fits operation asset)) type_error
    raise_if (not (metadata_fits metadata)) type_error
    ok (record {
      operation = operation;
      asset = asset;
      inputs = inputs;
      outputs = outputs;
      metadata = metadata;
      version = version;
      id = hash_id;
      tx_dict = tx_dict;
    })

  -- `Transaction.from_dict` with `skip_schema_validation`
  unfoldable pub from_dict : TransactionDict → Result (Transaction F)
  unfolding inputs_from_dict outputs_from_dict make_transaction
  from_dict d = do
    inputs ← inputs_from_dict d.inputs
    outputs ← outputs_from_dict d.outputs
    make_transaction d.operation d.asset inputs outputs d.metadata d.version d.id (some d)

  unfoldable pub remove_signature : InputDict → InputDict
  remove_signature i = record i { fulfillment = null }

  -- `_remove_signatures`
  unfoldable pub remove_signatures : TransactionDict → TransactionDict
  unfolding remove_signature
  remove_signatures d = record d { inputs = map remove_signature d.inputs }
