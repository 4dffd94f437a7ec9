-- ===== src/Web.antt =====
-- The views of planetmint/web/views. Of an error only the status is kept, and a parameter that its
-- parser refuses is answered 400 by the framework. The instances of the pool are alike, so a view is
-- a function of the connection of its node.
pub mod Parameters
pub mod Posted
pub mod Sends
use planetmint.Base.{
  ℕ, String, Bool, true, false, Option, none, some, List, [], ◌∷◌, ◌==◌, eqb, if◌then◌else◌,
}
use planetmint.Errors.{Error, Result, ok, err, ◌>>=◌, is_validation_error, attribute_error}
use planetmint.Transaction.Link.{TransactionLink}
use planetmint.Transaction.Model.{Operation, create, transfer, Transaction, TransactionDict}
use planetmint.Transaction.Serialize.{to_dict}
use planetmint.Validation.{Crypto}
use planetmint.Backend.Mongo.{Mongo}
use planetmint.Backend.Query
use planetmint.Backend.Documents.{BlockDocument, Validator, Connection}
use planetmint.Node.{load, get_transaction}
use planetmint.Node.Reads.{
  BlockView, get_block, get_block_containing_tx, get_outputs_filtered, get_transactions_filtered,
}
use planetmint.Election.{Arithmetic, validate, node_validators}
use planetmint.Broadcast.{
  Payload, RpcResponse, broadcast_tx_async, broadcast_tx_sync, broadcast_tx_commit,
  write_transaction,
}

pub data Response (A : Type 0) : Type 0 where
  -- `make_error`
  failure : ℕ → Response A
  success : ℕ → A → Response A

-- `valid_operation` of parameters.py, on the text in capitals
pub valid_operation : String → Option Operation
valid_operation op =
    if op == "CREATE" then some create else if op == "TRANSFER" then some transfer else none

unfoldable pub valid_mode : String → Option String
valid_mode mode =
    if mode == "async"
    then some broadcast_tx_async
    else if mode == "sync"
    then some broadcast_tx_sync
    else if mode == "commit"
    then some broadcast_tx_commit
    else none

-- the argument `mode`, which may be missing
abbrev pub mode_of : Option String → Option String
mode_of none = some broadcast_tx_async
mode_of (some m) = valid_mode m

module _ {F : Type 0} (crypto : Crypto F) (a : Arithmetic) (mongo : Mongo) where
  abbrev found_or_404 : {A : Type 0} → Option A → Response A
  found_or_404 none = failure 404
  found_or_404 (some x) = success 200 x

  abbrev dict_or_404 : Option (Transaction F) → Result (Response TransactionDict)
  dict_or_404 none = ok (failure 404)
  dict_or_404 (some tx) = do d ← to_dict crypto.fulfillments tx; ok (success 200 d)

  -- `TransactionApi.get`
  pub get_transaction_view : String → Connection mongo → Result (Response TransactionDict)
  get_transaction_view tx_id conn = do
    tx ← get_transaction crypto mongo (some tx_id) conn
    dict_or_404 tx

  listed : List (Option (Transaction F)) → Result (List TransactionDict)
  listed [] = ok []
  listed (none ∷ txs) = err attribute_error
  listed (some tx ∷ txs) = do d ← to_dict crypto.fulfillments tx; ds ← listed txs; ok (d ∷ ds)

  abbrev if_parsed : {A B : Type 0} → Option A → (A → Result (Response B)) → Result (Response B)
  if_parsed none view = ok (failure 400)
  if_parsed (some x) view = view x

  abbrev operation_of : Option String → Option (Option Operation)
  operation_of none = some none
  operation_of (some op) = elim (valid_operation op) [ none ↦ none | some o ↦ some (some o) ]

  -- `TransactionListApi.get`, with the parsed `asset_id` and `last_tx`
  pub list_transactions :
      Option String
      → String
      → Option Bool
      → Connection mongo
      → Result (Response (List TransactionDict))
  unfolding listed valid_operation
  list_transactions operation asset_id last_tx conn = if_parsed (operation_of operation) (λ o. (do
    txs ← get_transactions_filtered crypto mongo asset_id o last_tx conn
    ds ← listed txs
    ok (success 200 ds)))

  -- `OutputListApi.get`
  pub list_outputs :
      String → Option Bool → Connection mongo → Result (Response (List TransactionLink))
  list_outputs public_key spent conn = do
    outputs ← get_outputs_filtered crypto mongo public_key spent conn
    ok (success 200 outputs)

  -- `LatestBlock.get`, `BlockApi.get` and `BlockListApi.get`
  pub latest_block_view : Connection mongo → Response BlockDocument
  latest_block_view conn = found_or_404 (Query.get_latest_block mongo conn)

  pub block_at_view : ℕ → Connection mongo → Result (Response BlockView)
  block_at_view block_id conn = do
    block ← get_block crypto mongo block_id conn
    ok (found_or_404 block)

  pub list_blocks : String → Connection mongo → Response (List ℕ)
  list_blocks transaction_id conn =
      success 200 (get_block_containing_tx crypto mongo transaction_id conn)

  -- `ValidatorsApi.get`
  pub validators_view : Connection mongo → Response (List Validator)
  validators_view conn = success 200 (node_validators crypto a mongo none conn)

  module _ (encode_transaction : TransactionDict → String)
      (tendermint : Payload → Result RpcResponse) where
    -- the answer, and the requests that were sent to Tendermint
    abbrev pub Posted : Type 0
    Posted = Result (Response TransactionDict) × List Payload

    abbrev pub refused_or_raised : Error → Posted
    refused_or_raised e = (if is_validation_error e then ok (failure 400) else err e, [])

    abbrev status_response : TransactionDict → ℕ × String → Response TransactionDict
    status_response d (status, message) = if eqb status 202 then success 202 d else failure status

    abbrev pub written : TransactionDict → Result (ℕ × String) × List Payload → Posted
    written d (err e, sent) = (err e, sent)
    written d (ok status, sent) = (ok (status_response d status), sent)

    abbrev pub if_valid : TransactionDict → String → Transaction F → Result (Unit {0}) → Posted
    if_valid d mode tx (err e) = refused_or_raised e
    if_valid d mode tx (ok t) =
        written d (write_transaction crypto encode_transaction tendermint tx mode)

    abbrev pub if_loaded :
        Connection mongo → TransactionDict → String → Result (Transaction F) → Posted
    if_loaded conn d mode (err e) = refused_or_raised e
    if_loaded conn d mode (ok tx) = if_valid d mode tx (validate crypto a mongo conn [] tx)

    abbrev pub if_mode : Connection mongo → TransactionDict → Option String → Posted
    if_mode conn d none = (ok (failure 400), [])
    if_mode conn d (some mode) = if_loaded conn d mode (load crypto d)

    -- `TransactionListApi.post`
    unfoldable pub post : Connection mongo → Option String → TransactionDict → Posted
    unfolding is_validation_error valid_mode write_transaction
    post conn mode d = if_mode conn d (mode_of mode)
