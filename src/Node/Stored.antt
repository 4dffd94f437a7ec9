-- ===== src/Node/Stored.antt =====
-- What is read back of the transactions that were stored.
use planetmint.Base.{
  String, ◌≡◌, refl, sym, ap, subst, ◌∙◌, Option, none, some, [], ◌∷◌, ◌++◌, Bool, true, false,
  keep, keep-append, opt_eq, opt_eq_iff,
}
use planetmint.Errors.{ok, err, ◌>>=◌, >>=-eq-ok, ok-injective}
use planetmint.Json.{Json}
use planetmint.Transaction.Model.{Transaction, TransactionDict, Asset, payload, absent, is_create}
use planetmint.Validation.{Crypto}
use planetmint.Backend.Mongo.{Mongo, MongoLaws, contents}
use planetmint.Backend.Query
use planetmint.Backend.Query.{or_duplicate}
use planetmint.Backend.Documents.{Connection, AssetDocument, MetadataDocument}
use planetmint.Node.{
  get_transaction, load, store_bulk_transactions, all_rows, rows_of, asset_rows,
  store_assets_if_any,
}

-- the collection that an insertion without a duplicate leaves
or_duplicate-ok :
    (mongo : Mongo) {C A : Type 0} (r : C × Bool) (build : C → A) (result : A)
    → elim (or_duplicate mongo r) [ ok c ↦ ok (build c) | err e ↦ err e ] ≡ ok result
    → (r.1 ≡ false) × (build r.0 ≡ result)
or_duplicate-ok mongo (c, true) build result h = cc
or_duplicate-ok mongo (c, false) build result h = (refl, ok-injective h)

module _ (mongo : Mongo) (laws : MongoLaws mongo) where
  -- the one match of a document that is new
  find-insert_many :
      (D : Type 0) (p : D → Bool) (new : D) (c : mongo.Collection D)
      → (mongo.insert_many D (new ∷ []) c).1 ≡ false
      → mongo.find D p c ≡ []
      → p new ≡ true
      → mongo.find D p (mongo.insert_many D (new ∷ []) c).0 ≡ new ∷ []
  find-insert_many D p new c kept fresh matches =
      laws.find_law D p _
      ∙ ap (keep p) (laws.insert_many_law D (new ∷ []) c kept)
      ∙ keep-append p (contents mongo D c) (new ∷ [])
      ∙ ap (λ xs. xs ++ keep p (new ∷ [])) (sym (laws.find_law D p c) ∙ fresh)
      ∙ rw matches refl

module _ {F : Type 0} (crypto : Crypto F) (mongo : Mongo) where
  pub get_transaction-none :
      (i : Option String) (conn : Connection mongo)
      → Query.get_transaction mongo i conn ≡ none
      → get_transaction crypto mongo i conn ≡ ok none
  unfolding get_transaction
  get_transaction-none i conn e = rw (e, get_transaction)

  -- No document of the three collections has the id.
  pub record IsFresh (conn : Connection mongo) (i : Option String) : Type 0 where
    pub no_transaction : mongo.find TransactionDict (λ d. opt_eq d.id i) conn.transactions ≡ []
    pub no_asset : mongo.find AssetDocument (λ d. opt_eq d.id i) conn.assets ≡ []
    pub no_metadata : Query.get_metadata mongo (i ∷ []) conn ≡ []

  asset_rows-payload :
      (d : TransactionDict) (x : Asset) (j : Json)
      → x ≡ payload j
      → asset_rows crypto d x ≡ ok (record { id = d.id; asset = x } ∷ [])
  asset_rows-payload d x j e = rw e refl

  rows-create :
      (t : Transaction F) (d : TransactionDict) (j : Json)
      → t.tx_dict ≡ some d
      → is_create d.operation ≡ true
      → d.asset ≡ payload j
      → all_rows crypto (t ∷ [])
        ≡ ok (record {
          transactions = record d { asset = absent; metadata = none } ∷ [];
          assets = record { id = d.id; asset = d.asset } ∷ [];
          metadatas = record { id = d.id; metadata = d.metadata } ∷ [];
        })
  unfolding all_rows rows_of
  rows-create t d j e c a = rw (e, c, asset_rows-payload d d.asset j a) refl

  -- the documents of a dict
  abbrev transaction_row : TransactionDict → TransactionDict
  transaction_row d = record d { asset = absent; metadata = none }

  abbrev asset_row : TransactionDict → AssetDocument
  asset_row d = record { id = d.id; asset = d.asset }

  abbrev metadata_row : TransactionDict → MetadataDocument
  metadata_row d = record { id = d.id; metadata = d.metadata }

  reloads :
      (conn : Connection mongo) (d : TransactionDict)
      → Query.get_transaction mongo d.id conn ≡ some (transaction_row d)
      → Query.get_asset mongo d.id conn ≡ some (asset_row d)
      → Query.get_metadata mongo (d.id ∷ []) conn ≡ metadata_row d ∷ []
      → get_transaction crypto mongo d.id conn ≡ (do tx ← load crypto d; ok (some tx))
  unfolding get_transaction
  reloads conn d t a m = rw (t, a, m) refl

  -- the connection after the three insertions
  abbrev stored : Connection mongo → TransactionDict → Connection mongo
  stored conn d = record conn {
    metadata = (mongo.insert_many MetadataDocument (metadata_row d ∷ []) conn.metadata).0;
    assets = (mongo.insert_many AssetDocument (asset_row d ∷ []) conn.assets).0;
    transactions = (mongo.insert_many TransactionDict (transaction_row d ∷ []) conn.transactions).0;
  }

  abbrev store_assets_of : Connection mongo → TransactionDict → Connection mongo
  store_assets_of conn d = record conn {
    assets = (mongo.insert_many AssetDocument (asset_row d ∷ []) conn.assets).0;
  }

  abbrev store_transactions_of : Connection mongo → TransactionDict → Connection mongo
  store_transactions_of conn d = record conn {
    transactions = (mongo.insert_many TransactionDict (transaction_row d ∷ []) conn.transactions).0;
  }

  abbrev Kept : Connection mongo → TransactionDict → Type 0
  Kept conn d =
      ((mongo.insert_many MetadataDocument (metadata_row d ∷ []) conn.metadata).1 ≡ false)
      × ((mongo.insert_many AssetDocument (asset_row d ∷ []) conn.assets).1 ≡ false)
      × ((mongo.insert_many TransactionDict (transaction_row d ∷ []) conn.transactions).1 ≡ false)

  -- the second and the third insertion leave what the earlier ones wrote
  third :
      (conn c2 conn' : Connection mongo) (d : TransactionDict)
      → record conn {
        metadata = (mongo.insert_many MetadataDocument (metadata_row d ∷ []) conn.metadata).0;
        assets = (mongo.insert_many AssetDocument (asset_row d ∷ []) conn.assets).0;
      }
        ≡ c2
      → ((mongo.insert_many TransactionDict (transaction_row d ∷ []) c2.transactions).1 ≡ false)
        × (store_transactions_of c2 d ≡ conn')
      → ((mongo.insert_many TransactionDict (transaction_row d ∷ []) conn.transactions).1 ≡ false)
        × (stored conn d ≡ conn')
  third conn c2 conn' d e =
      subst
        (λ c.
          ((mongo.insert_many TransactionDict (transaction_row d ∷ []) c.transactions).1 ≡ false)
            × (store_transactions_of c d ≡ conn')
          → ((mongo.insert_many TransactionDict (transaction_row d ∷ []) conn.transactions).1
              ≡ false)
            × (stored conn d ≡ conn'))
        e (λ h. h)

  second :
      (conn c1 c2 : Connection mongo) (d : TransactionDict)
      → record conn {
        metadata = (mongo.insert_many MetadataDocument (metadata_row d ∷ []) conn.metadata).0;
      }
        ≡ c1
      → ((mongo.insert_many AssetDocument (asset_row d ∷ []) c1.assets).1 ≡ false)
        × (store_assets_of c1 d ≡ c2)
      → ((mongo.insert_many AssetDocument (asset_row d ∷ []) conn.assets).1 ≡ false)
        × (record conn {
          metadata = (mongo.insert_many MetadataDocument (metadata_row d ∷ []) conn.metadata).0;
          assets = (mongo.insert_many AssetDocument (asset_row d ∷ []) conn.assets).0;
        }
            ≡ c2)
  second conn c1 c2 d e =
      subst
        (λ c.
          ((mongo.insert_many AssetDocument (asset_row d ∷ []) c.assets).1 ≡ false)
            × (store_assets_of c d ≡ c2)
          → ((mongo.insert_many AssetDocument (asset_row d ∷ []) conn.assets).1 ≡ false)
            × (record conn {
              metadata = (mongo.insert_many MetadataDocument (metadata_row d ∷ []) conn.metadata).0;
              assets = (mongo.insert_many AssetDocument (asset_row d ∷ []) conn.assets).0;
            }
                ≡ c2))
        e (λ h. h)

  stores :
      (conn conn' : Connection mongo) (t : Transaction F) (d : TransactionDict) (j : Json)
      → t.tx_dict ≡ some d
      → is_create d.operation ≡ true
      → d.asset ≡ payload j
      → store_bulk_transactions crypto mongo (t ∷ []) conn ≡ ok conn'
      → Kept conn d × (stored conn d ≡ conn')
  unfolding store_bulk_transactions Query.store_metadatas Query.store_assets
      Query.store_transactions
  stores conn conn' t d j e c a h =
      let (rows, p, q) = >>=-eq-ok (all_rows crypto (t ∷ [])) _ h in
      let same = ok-injective (sym p ∙ rows-create t d j e c a) in
      let (c1, p1, q1) = >>=-eq-ok (Query.store_metadatas mongo (metadata_row d ∷ []) conn) _ (
        subst
          (λ r.
            (do
              conn1 ← Query.store_metadatas mongo r.metadatas conn
              conn2 ← store_assets_if_any crypto mongo r.assets conn1
              Query.store_transactions mongo r.transactions conn2)
            ≡ ok conn')
          same q) in
      let (kept1, e1) = or_duplicate-ok mongo _ (λ c. record conn { metadata = c }) c1 p1 in
      let (c2, p2, q2) = >>=-eq-ok (Query.store_assets mongo (asset_row d ∷ []) c1) _ q1 in
      let (kept2, e2) =
        second conn c1 c2 d e1 (or_duplicate-ok mongo _ (λ c. record c1 { assets = c }) c2 p2) in
      let (kept3, e3) =
        third conn c2 conn' d e2
          (or_duplicate-ok mongo _ (λ c. record c2 { transactions = c }) conn' q2) in
      ((kept1, kept2, kept3), e3)

  -- If a CREATE or an election that carries its dict, with data in its asset and an id that no
  -- document has, is stored without an exception, what get_transaction reads back is what loading
  -- its dict gives, under the laws of the collections.
  pub store_bulk_transactions-get_transaction :
      (laws : MongoLaws mongo) (conn conn' : Connection mongo) (t : Transaction F)
      (d : TransactionDict) (j : Json)
      → t.tx_dict ≡ some d
      → is_create d.operation ≡ true
      → d.asset ≡ payload j
      → IsFresh conn d.id
      → store_bulk_transactions crypto mongo (t ∷ []) conn ≡ ok conn'
      → get_transaction crypto mongo d.id conn' ≡ (do tx ← load crypto d; ok (some tx))
  unfolding Query.get_transaction Query.get_asset Query.get_metadata
  store_bulk_transactions-get_transaction laws conn conn' t d j e c a fresh h =
      let (kept, same) = stores conn conn' t d j e c a h in
      let own : opt_eq d.id d.id ≡ true = (opt_eq_iff d.id d.id).1 refl in
      subst (λ k. get_transaction crypto mongo d.id k ≡ (do tx ← load crypto d; ok (some tx))) same
        (reloads (stored conn d) d
          (rw (find-insert_many mongo laws _ _ _ _ kept.2 fresh.no_transaction own) refl)
          (rw (find-insert_many mongo laws _ _ _ _ kept.1 fresh.no_asset own) refl)
          (find-insert_many mongo laws _ _ _ _ kept.0 fresh.no_metadata (rw own refl)))
