-- ===== src/Node/Reads.antt =====
-- What the web server reads of the node: `get_outputs_filtered`, `get_transactions_filtered`,
-- `get_block` and `get_block_containing_tx` of planetmint/lib.py, with `from_db` of a list.
use planetmint.Base.{
  ℕ, String, Bool, Option, none, some, opt_eq, List, [], ◌∷◌, map, ltb, if◌then◌else◌,
}
use planetmint.Errors.{Result, ok, ◌>>=◌}
use planetmint.Transaction.Link.{TransactionLink}
use planetmint.Transaction.Model.{Operation, Transaction, TransactionDict}
use planetmint.Transaction.Serialize.{to_dict}
use planetmint.Validation.{Crypto}
use planetmint.Backend.Mongo.{Mongo}
use planetmint.Backend.Query
use planetmint.Backend.Documents.{AssetDocument, MetadataDocument, BlockDocument, Connection}
use planetmint.FastQuery.{get_outputs_by_public_key, filter_spent_outputs, filter_unspent_outputs}
use planetmint.Node.{load, get_transaction}

-- `tx_map[tx['id']] = tx`
abbrev put_in : TransactionDict → List TransactionDict → List TransactionDict
put_in d [] = d ∷ []
put_in d (e ∷ es) = if opt_eq e.id d.id then d ∷ es else e ∷ put_in d es

abbrev mapped : List TransactionDict → List TransactionDict → List TransactionDict
mapped [] tx_map = tx_map
mapped (d ∷ ds) tx_map = mapped ds (put_in (record d { metadata = none }) tx_map)

abbrev with_assets : List AssetDocument → List TransactionDict → List TransactionDict
with_assets [] tx_map = tx_map
with_assets (a ∷ as') tx_map = with_assets as' (
    map (λ (d : TransactionDict). if opt_eq d.id a.id then record d { asset = a.asset } else d)
      tx_map)

abbrev with_metadatas : List MetadataDocument → List TransactionDict → List TransactionDict
with_metadatas [] tx_map = tx_map
with_metadatas (m ∷ ms) tx_map = with_metadatas ms (
    map
      (λ (d : TransactionDict). if opt_eq d.id m.id then record d { metadata = m.metadata } else d)
      tx_map)

-- `height` and the dicts of the transactions
pub record BlockView : Type 0 where
  pub height : ℕ
  pub transactions : List TransactionDict

module _ {F : Type 0} (crypto : Crypto F) (mongo : Mongo) where
  load_each : List TransactionDict → Result (List (Transaction F))
  load_each [] = ok []
  load_each (d ∷ ds) = do tx ← load crypto d; txs ← load_each ds; ok (tx ∷ txs)

  -- `Transaction.from_db` of a list
  pub from_db_list : List TransactionDict → Connection mongo → Result (List (Transaction F))
  unfolding load_each
  from_db_list ds conn =
      let tx_map = mapped ds [] in
      let with_asset =
        with_assets (Query.get_assets mongo (map (λ (d : TransactionDict). d.id) ds) conn) tx_map in
      load_each (
        with_metadatas (Query.get_metadata mongo (map (λ (d : TransactionDict). d.id) tx_map) conn)
          with_asset)

  pub to_dicts : List (Transaction F) → Result (List TransactionDict)
  to_dicts [] = ok []
  to_dicts (tx ∷ txs) = do d ← to_dict crypto.fulfillments tx; ds ← to_dicts txs; ok (d ∷ ds)

  -- `spent` of None gives all outputs
  unfoldable pub get_outputs_filtered :
      String → Option Bool → Connection mongo → Result (List TransactionLink)
  get_outputs_filtered owner spent conn = do
    outputs ← get_outputs_by_public_key mongo owner conn
    elim spent [
      | none ↦ ok outputs
      | some b ↦
          if b
          then filter_unspent_outputs mongo outputs conn
          else filter_spent_outputs mongo outputs conn
    ]

  read_all : List (Option String) → Connection mongo → Result (List (Option (Transaction F)))
  read_all [] conn = ok []
  read_all (i ∷ is) conn = do
    tx ← get_transaction crypto mongo i conn
    txs ← read_all is conn
    ok (tx ∷ txs)

  pub get_transactions_filtered :
      String
      → Option Operation
      → Option Bool
      → Connection mongo
      → Result (List (Option (Transaction F)))
  unfolding read_all
  get_transactions_filtered asset_id operation last_tx conn =
      read_all (Query.get_txids_filtered mongo asset_id operation last_tx conn) conn

  abbrev latest_height : Option BlockDocument → ℕ
  latest_height none = 0
  latest_height (some b) = b.height

  abbrev block_view : ℕ → Option BlockDocument → Connection mongo → Result (Option BlockView)
  block_view block_id none conn = ok (
      if ltb (latest_height (Query.get_latest_block mongo conn)) block_id
      then none
      else some (record { height = block_id; transactions = [] }))
  block_view block_id (some b) conn = do
    let stored = Query.get_transactions mongo (map (λ i. some i) b.transactions) conn
    txs ← from_db_list stored conn
    ds ← to_dicts txs
    ok (some (record { height = block_id; transactions = ds }))

  unfoldable pub get_block : ℕ → Connection mongo → Result (Option BlockView)
  unfolding from_db_list to_dicts
  get_block block_id conn = block_view block_id (Query.get_block mongo block_id conn) conn

  pub get_block_containing_tx : String → Connection mongo → List ℕ
  get_block_containing_tx txid conn =
      map (λ (b : BlockDocument). b.height) (Query.get_block_with_transaction mongo txid conn)
