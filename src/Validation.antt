-- ===== src/Validation.antt =====
-- The validation of spends: `get_spent` of planetmint/lib.py, and `inputs_valid`, `get_asset_id` and
-- `validate_transfer_inputs` of planetmint/transactions/common/transaction.py.
pub mod Spent
pub mod Resolve
pub mod Assets
pub mod Transfer
pub mod Signatures
use planetmint.Base.{
  ℕ, String, Option, none, some, is_some, List, [], ◌∷◌, ◌++◌, map, Bool, true, false, not, ◌&&◌,
  ◌==◌, eqb, ltb, opt_eq, length, sum, get_elem?, keep, ◌+◌, if◌then◌else◌,
}
use planetmint.Base.Sets.{to_set}
use planetmint.Errors.{
  Error, Result, ok, err, ◌>>=◌, ◌>>◌, raise_if, or_raise, type_error, value_error, attribute_error,
  key_error, index_error, parsing_error, asn1_decode_error, asn1_encode_error,
  critical_double_spend, double_spend, input_does_not_exist, asset_id_mismatch, amount_error,
  invalid_signature,
}
use planetmint.Transaction.Link
use planetmint.Transaction.Link.{TransactionLink}
use planetmint.Transaction.Model.{
  Operation, is_create, Asset, absent, payload, reference, Input, Output, Transaction,
  TransactionDict,
}
use planetmint.Transaction.Serialize.{Fulfillments, to_dict, remove_signatures}

-- TypeError, ValueError, ParsingError, ASN1DecodeError, ASN1EncodeError
unfoldable pub is_unparsable : Error → Bool
is_unparsable type_error = true
is_unparsable value_error = true
is_unparsable parsing_error = true
is_unparsable asn1_decode_error = true
is_unparsable asn1_encode_error = true
is_unparsable _ = false

-- What the code takes from cryptoconditions, hashlib and rapidjson.
pub record Crypto (F : Type 0) : Type 0 where
  pub fulfillments : Fulfillments F
  pub open fulfillments use *
  -- the validation of a fulfillment against the digest of a message
  pub validate : F → String → Bool
  -- the digest of the texts that are fed to one hash object
  pub sha3_256 : List String → String
  pub dumps : TransactionDict → String
  pub hexdigest : List String → String
  -- the schema of the transaction's class; rapidjson and jsonschema refuse the same, so the cause of a
  -- SchemaValidationError is jsonschema's, which has a `message`
  pub validate_schema : TransactionDict → Result (Unit {0})

-- What validation reads of the node: `get_transaction` and `is_committed` of planetmint/lib.py, the
-- query `get_spent` of the backend, and `Transaction.from_db`.
pub record Planet (F : Type 0) : Type 0 where
  pub get_transaction : Option String → Result (Option (Transaction F))
  pub is_committed : Option String → Bool
  pub spent : Option String → Option ℕ → List TransactionDict
  pub from_db : TransactionDict → Result (Transaction F)

module _ {F : Type 0} (crypto : Crypto F) where
  -- the `except` clause of `_input_valid`: the fulfillment cannot be parsed
  abbrev caught : Result F → Result (Option F)
  caught (ok f) = ok (some f)
  caught (err e) = if is_unparsable e then ok none else err e

  abbrev pub signed_pieces : String → Option TransactionLink → List String
  signed_pieces message none = message ∷ []
  signed_pieces message (some l) =
      if Link.is_truthy l then message ∷ Link.concatenated l ∷ [] else message ∷ []

  abbrev output_valid : Operation → F → String → Result Bool
  output_valid operation f output_condition_uri =
      if is_create operation
      then ok true
      else do u ← crypto.condition_uri f; ok (output_condition_uri == u)

  abbrev checked : Operation → Input F → String → String → Option F → Result Bool
  checked operation i message output_condition_uri none = ok false
  checked operation i message output_condition_uri (some parsed) = do
    matches ← output_valid operation i.fulfillment output_condition_uri
    ok (matches && crypto.validate parsed (crypto.sha3_256 (signed_pieces message i.fulfills)))

  -- `_input_valid`
  pub input_valid : Operation → Input F → String → String → Result Bool
  input_valid operation i message output_condition_uri = do
    parsed ← caught (do u ← crypto.serialize_uri i.fulfillment; crypto.from_uri u)
    checked operation i message output_condition_uri parsed

  -- `all(…)` stops at the first input that is not valid
  all_valid : Operation → String → List (Input F) → List String → Result Bool
  unfolding input_valid
  all_valid operation message (i ∷ is) (u ∷ us) = do
    v ← input_valid operation i message u
    if v then all_valid operation message is us else ok false
  all_valid operation message is us = ok true

  condition_uris : List (Output F) → Result (List String)
  condition_uris [] = ok []
  condition_uris (o ∷ os) = do
    u ← crypto.condition_uri o.fulfillment
    us ← condition_uris os
    ok (u ∷ us)

  abbrev pub dict_of : Transaction F → Option TransactionDict → Result TransactionDict
  dict_of tx (some d) = ok d
  dict_of tx none = to_dict crypto.fulfillments tx

  -- `_inputs_valid`
  pub inputs_match : Transaction F → List String → Result Bool
  unfolding all_valid
  inputs_match tx output_condition_uris = do
    raise_if (not (eqb (length tx.inputs) (length output_condition_uris))) value_error
    d ← dict_of tx tx.tx_dict
    let message = crypto.dumps (record (remove_signatures crypto.fulfillments d) { id = none })
    all_valid tx.operation message tx.inputs output_condition_uris

  pub inputs_valid : Transaction F → List (Output F) → Result Bool
  unfolding condition_uris inputs_match
  inputs_valid tx outputs =
      if is_create tx.operation
      then inputs_match tx (map (λ i. "dummyvalue") tx.inputs)
      else do us ← condition_uris outputs; inputs_match tx us

  -- `ctxn_input.fulfills and …txid == txid and …output == output`
  abbrev pub spends : Option String → Option ℕ → Input F → Bool
  spends txid output i = elim i.fulfills [
    | none ↦ false
    | some l ↦ Link.is_truthy l && Link.points_to txid output l
  ]

  -- a transaction stands in the list once for each of its inputs that spends the output
  pub current_spends : Option String → Option ℕ → List (Transaction F) → List (Transaction F)
  current_spends txid output [] = []
  current_spends txid output (ctxn ∷ rest) =
      map (λ i. ctxn) (keep (spends txid output) ctxn.inputs) ++ current_spends txid output rest

  abbrev spender :
      Planet F → List TransactionDict → List (Transaction F) → Result (Option (Transaction F))
  spender planet (d ∷ ds) current = do tx ← planet.from_db d; ok (some tx)
  spender planet [] (tx ∷ txs) = ok (some tx)
  spender planet [] [] = ok none

  -- `Planetmint.get_spent`
  pub get_spent :
      Planet F → Option String → Option ℕ → List (Transaction F) → Result (Option (Transaction F))
  unfolding current_spends
  get_spent planet txid output current = do
    let stored = planet.spent txid output
    let pending = current_spends txid output current
    raise_if (ltb 1 (length stored)) critical_double_spend
    raise_if (ltb 1 (length stored + length pending)) double_spend
    spender planet stored pending

  -- the last transaction of the block with this id
  abbrev pub find_current :
      Option String → List (Transaction F) → Option (Transaction F) → Option (Transaction F)
  find_current txid [] found = found
  find_current txid (ctxn ∷ rest) found =
      find_current txid rest (if opt_eq ctxn.id txid then some ctxn else found)

  abbrev pub or_current :
      Option String → List (Transaction F) → Option (Transaction F) → Option (Transaction F)
  or_current txid current none = find_current txid current none
  or_current txid current (some tx) = some tx

  abbrev index_output : List (Output F) → Option ℕ → Result (Output F)
  index_output outputs none = err type_error
  index_output outputs (some n) = or_raise (get_elem? outputs n) index_error

  -- the body of the loop over the inputs
  resolve : Planet F → List (Transaction F) → Input F → Result (Transaction F × Output F)
  unfolding get_spent
  resolve planet current i = do
    l ← or_raise i.fulfills attribute_error
    stored ← planet.get_transaction l.txid
    input_tx ← or_raise (or_current l.txid current stored) input_does_not_exist
    spent ← get_spent planet l.txid l.output current
    raise_if (is_some spent) double_spend
    output ← index_output input_tx.outputs l.output
    ok (input_tx, output)

  pub resolve_all :
      Planet F → List (Transaction F) → List (Input F) → Result (List (Transaction F × Output F))
  unfolding resolve
  resolve_all planet current [] = ok []
  resolve_all planet current (i ∷ is) = do
    r ← resolve planet current i
    rs ← resolve_all planet current is
    ok (r ∷ rs)

  pub links : List (Input F) → Result (List (Option String))
  links [] = ok []
  links (i ∷ is) = do
    l ← or_raise i.fulfills attribute_error
    ls ← links is
    ok (Link.to_uri "" l ∷ ls)

  -- `tx.asset['id']`
  abbrev pub referenced : Asset → Result (Option String)
  referenced absent = err type_error
  referenced (payload j) = err key_error
  referenced (reference i) = ok (some i)

  pub asset_ids : List (Transaction F) → Result (List (Option String))
  asset_ids [] = ok []
  asset_ids (tx ∷ txs) = do
    i ← (if is_create tx.operation then ok tx.id else referenced tx.asset)
    is ← asset_ids txs
    ok (i ∷ is)

  abbrev pop : List (Option String) → Result (Option String)
  pop [] = err key_error
  pop (i ∷ is) = ok i

  pub get_asset_id : List (Transaction F) → Result (Option String)
  unfolding asset_ids
  get_asset_id transactions = do
    ids ← asset_ids transactions
    raise_if (ltb 1 (length (to_set ids))) asset_id_mismatch
    pop (to_set ids)

  abbrev pub amounts : List (Output F) → ℕ
  amounts outputs = sum (map (λ o. o.amount) outputs)

  abbrev pub transactions_of : List (Transaction F × Output F) → List (Transaction F)
  transactions_of rs = map (λ r. r.0) rs

  abbrev pub outputs_of : List (Transaction F × Output F) → List (Output F)
  outputs_of rs = map (λ r. r.1) rs

  unfoldable pub validate_transfer_inputs :
      Planet F → List (Transaction F) → Transaction F → Result (Unit {0})
  unfolding resolve_all links get_asset_id inputs_valid
  validate_transfer_inputs planet current tx = do
    inputs ← resolve_all planet current tx.inputs
    uris ← links tx.inputs
    raise_if (not (eqb (length uris) (length (to_set uris)))) double_spend
    asset_id ← get_asset_id (transactions_of inputs)
    own ← referenced tx.asset
    raise_if (not (opt_eq asset_id own)) asset_id_mismatch
    raise_if (not (eqb (amounts tx.outputs) (amounts (outputs_of inputs)))) amount_error
    valid ← inputs_valid tx (outputs_of inputs)
    raise_if (not valid) invalid_signature
