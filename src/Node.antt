-- ===== src/Node.antt =====
-- `Planetmint` of planetmint/lib.py, over the queries of the backend.
pub mod Stored
pub mod Unspent
pub mod Reads
use planetmint.Base.{
  ℕ, ◌+◌, String, Option, none, some, is_some, opt_eq, List, [], ◌∷◌, ◌++◌, map, Bool, true, false,
  not, if◌then◌else◌,
}
use planetmint.Errors.{
  Result, ok, err, ◌>>=◌, ◌>>◌, raise_if, invalid_hash, type_error, index_error,
}
use planetmint.Transaction.Link
use planetmint.Transaction.Link.{LinkDict}
use planetmint.Transaction.Model.{
  Operation, is_create, Asset, absent, payload, reference, Input, Output, Transaction,
  TransactionDict,
}
use planetmint.Transaction.Serialize.{to_dict, from_dict}
use planetmint.Validation.{Crypto, Planet, referenced}
use planetmint.Backend.Mongo.{Mongo}
use planetmint.Backend.Query
use planetmint.Backend.Documents.{AssetDocument, MetadataDocument, UnspentOutput, Connection}

module _ {F : Type 0} (crypto : Crypto F) where
  -- `Transaction.validate_id`: the id is the hash of the body without it
  pub validate_id : TransactionDict → Result (Unit {0})
  validate_id d =
      raise_if
        (not (opt_eq d.id (some (crypto.hexdigest (crypto.dumps (record d { id = none }) ∷ [])))))
        invalid_hash

  -- `models.Transaction.from_dict`
  unfoldable pub load : TransactionDict → Result (Transaction F)
  unfolding validate_id
  load d = do validate_id d; crypto.validate_schema d; from_dict crypto.fulfillments d

  abbrev pub dict_of : Transaction F → Option TransactionDict → Result TransactionDict
  dict_of tx (some d) = ok d
  dict_of tx none = to_dict crypto.fulfillments tx

  -- What one transaction adds to the three collections.
  pub record Rows : Type 0 where
    pub transactions : List TransactionDict
    pub assets : List AssetDocument
    pub metadatas : List MetadataDocument

  -- an item cannot be set in an asset that is None
  abbrev asset_rows : TransactionDict → Asset → Result (List AssetDocument)
  asset_rows d absent = err type_error
  asset_rows d a = ok (record { id = d.id; asset = a } ∷ [])

  abbrev without_asset : TransactionDict → TransactionDict
  without_asset d = if is_create d.operation then record d { asset = absent } else d

  rows_of : Transaction F → Result Rows
  rows_of t = do
    d ← dict_of t t.tx_dict
    assets ← (if is_create d.operation then asset_rows d d.asset else ok [])
    ok (record {
      transactions = record (without_asset d) { metadata = none } ∷ [];
      assets = assets;
      metadatas = record { id = d.id; metadata = d.metadata } ∷ [];
    })

  all_rows : List (Transaction F) → Result Rows
  unfolding rows_of
  all_rows [] = ok (record { transactions = []; assets = []; metadatas = [] })
  all_rows (t ∷ ts) = do
    r ← rows_of t
    rs ← all_rows ts
    ok (record {
      transactions = r.transactions ++ rs.transactions;
      assets = r.assets ++ rs.assets;
      metadatas = r.metadatas ++ rs.metadatas;
    })

  module _ (mongo : Mongo) where
    abbrev store_assets_if_any : List AssetDocument → Connection mongo → Result (Connection mongo)
    store_assets_if_any [] conn = ok conn
    store_assets_if_any (a ∷ as') conn = Query.store_assets mongo (a ∷ as') conn

    unfoldable pub store_bulk_transactions :
        List (Transaction F) → Connection mongo → Result (Connection mongo)
    unfolding all_rows
    store_bulk_transactions transactions conn = do
      rows ← all_rows transactions
      conn1 ← Query.store_metadatas mongo rows.metadatas conn
      conn2 ← store_assets_if_any rows.assets conn1
      Query.store_transactions mongo rows.transactions conn2

    abbrev link_dicts : List (Input F) → List LinkDict
    link_dicts [] = []
    link_dicts (i ∷ is) =
        let rest = link_dicts is in
        elim i.fulfills [
          | none ↦ rest
          | some l ↦ elim (Link.to_dict l) [
            | none ↦ rest
            | some d ↦ if Link.is_truthy l then d ∷ rest else rest
          ]
        ]

    -- `enumerate(self.outputs)`
    unspent_from : Option String → Option String → ℕ → List (Output F) → Result (List UnspentOutput)
    unspent_from id asset_id n [] = ok []
    unspent_from id asset_id n (o ∷ os) = do
      u ← crypto.condition_uri o.fulfillment
      rest ← unspent_from id asset_id (n + 1) os
      ok (
          record {
            transaction_id = id;
            output_index = n;
            amount = o.amount;
            asset_id = asset_id;
            condition_uri = u;
          }
          ∷ rest)

    pub unspent_outputs : Transaction F → Result (List UnspentOutput)
    unfolding unspent_from
    unspent_outputs tx = do
      asset_id ← (if is_create tx.operation then ok tx.id else referenced crypto tx.asset)
      unspent_from tx.id asset_id 0 tx.outputs

    pub update_utxoset : Transaction F → Connection mongo → Result (Connection mongo)
    unfolding unspent_outputs
    update_utxoset tx conn = do
      let conn1 = Query.delete_unspent_outputs mongo (link_dicts tx.inputs) conn
      new ← unspent_outputs tx
      Query.store_unspent_outputs mongo new conn1

    pub is_committed : Option String → Connection mongo → Bool
    is_committed i conn = is_some (Query.get_transaction mongo i conn)

    abbrev with_asset : Option AssetDocument → TransactionDict → TransactionDict
    with_asset none d = d
    with_asset (some a) d = record d { asset = a.asset }

    -- a cursor is truthy, so `metadata[0]` raises where there is none
    abbrev with_metadata : List MetadataDocument → TransactionDict → Result TransactionDict
    with_metadata [] d = err index_error
    with_metadata (m ∷ ms) d = ok (record d { metadata = m.metadata })

    abbrev reload :
        Option String → Connection mongo → Option TransactionDict → Result (Option (Transaction F))
    reload i conn none = ok none
    reload i conn (some d) = do
      let d1 = with_asset (Query.get_asset mongo i conn) d
      d2 ← with_metadata (Query.get_metadata mongo (i ∷ []) conn) d1
      tx ← load d2
      ok (some tx)

    unfoldable pub get_transaction :
        Option String → Connection mongo → Result (Option (Transaction F))
    unfolding load
    get_transaction i conn = reload i conn (Query.get_transaction mongo i conn)

    -- the loops of `Transaction.from_db`, for one transaction: the last document wins
    abbrev last_asset : List AssetDocument → TransactionDict → TransactionDict
    last_asset [] d = d
    last_asset (a ∷ as') d = last_asset as' (record d { asset = a.asset })

    abbrev last_metadata : List MetadataDocument → TransactionDict → TransactionDict
    last_metadata [] d = d
    last_metadata (m ∷ ms) d = last_metadata ms (record d { metadata = m.metadata })

    pub from_db : Connection mongo → TransactionDict → Result (Transaction F)
    unfolding load
    from_db conn d =
        let d1 =
          last_asset (Query.get_assets mongo (d.id ∷ []) conn) (record d { metadata = none }) in
        load (last_metadata (Query.get_metadata mongo (d.id ∷ []) conn) d1)

    -- What validation reads of the node.
    unfoldable pub planet : Connection mongo → Planet F
    unfolding get_transaction is_committed from_db
    planet conn = record {
      get_transaction = λ i. get_transaction i conn;
      is_committed = λ i. is_committed i conn;
      spent = λ txid output. Query.get_spent mongo txid output conn;
      from_db = from_db conn;
    }
