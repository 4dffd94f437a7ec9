-- ===== src/Backend/Query.antt =====
-- planetmint/backend/localmongodb/query.py, function by function. `store_asset`, which nothing calls,
-- and `text_search` are not here.
use planetmint.Base.{
  ℕ, String, Option, none, some, Bool, true, false, ◌&&◌, ◌||◌, map, ◌==◌, eqb, leb, opt_eq, any,
  List, [], ◌∷◌,
}
use planetmint.Errors.{Result, ok, err, operation_error}
use planetmint.Transaction.Link
use planetmint.Transaction.Link.{LinkDict}
use planetmint.Transaction.Model.{
  Operation, create, transfer, absent, payload, reference, InputDict, OutputDict, TransactionDict,
}
use planetmint.Backend.Mongo.{Mongo}
use planetmint.Backend.Documents.{
  AssetDocument, MetadataDocument, BlockDocument, ValidatorSet, ElectionDocument, PreCommitState,
  AbciChain, UnspentOutput, Connection,
}

-- `{'$in': ids}`
abbrev pub one_of : List (Option String) → Option String → Bool
one_of ids i = any (opt_eq i) ids

abbrev pub mentions : List String → String → Bool
mentions ids i = any (λ j. i == j) ids

-- an element of `inputs` with this `fulfills`
abbrev pub input_spends : Option String → Option ℕ → InputDict → Bool
input_spends txid output i = elim i.fulfills [
  | none ↦ false
  | some l ↦ Link.points_to txid output (Link.from_dict (some l))
]

abbrev first {ℓ} : {A : Type ℓ} → List A → Option A
first [] = none
first (x ∷ xs) = some x

abbrev pub asset_is : String → TransactionDict → Bool
asset_is i d = elim d.asset [ absent ↦ false | payload j ↦ false | reference j ↦ i == j ]

abbrev is_plain_create : Operation → Bool
is_plain_create create = true
is_plain_create _ = false

abbrev is_plain_transfer : Operation → Bool
is_plain_transfer transfer = true
is_plain_transfer _ = false

module _ (mongo : Mongo) where
  -- `insert_many`, whose BulkWriteError of a duplicate `run` turns into an OperationError
  abbrev pub or_duplicate {ℓ} : {C : Type ℓ} → C × Bool → Result C
  or_duplicate (c, true) = err operation_error
  or_duplicate (c, false) = ok c

  unfoldable pub store_transactions :
      List TransactionDict → Connection mongo → Result (Connection mongo)
  store_transactions ds conn =
      elim (or_duplicate (mongo.insert_many TransactionDict ds conn.transactions)) [
        | ok c ↦ ok (record conn { transactions = c })
        | err e ↦ err e
      ]

  unfoldable pub get_transaction : Option String → Connection mongo → Option TransactionDict
  get_transaction i conn = first (mongo.find TransactionDict (λ d. opt_eq d.id i) conn.transactions)

  unfoldable pub get_transactions : List (Option String) → Connection mongo → List TransactionDict
  get_transactions ids conn = mongo.find TransactionDict (λ d. one_of ids d.id) conn.transactions

  unfoldable pub store_metadatas :
      List MetadataDocument → Connection mongo → Result (Connection mongo)
  store_metadatas ds conn =
      elim (or_duplicate (mongo.insert_many MetadataDocument ds conn.metadata)) [
        | ok c ↦ ok (record conn { metadata = c })
        | err e ↦ err e
      ]

  unfoldable pub get_metadata : List (Option String) → Connection mongo → List MetadataDocument
  get_metadata ids conn = mongo.find MetadataDocument (λ d. one_of ids d.id) conn.metadata

  unfoldable pub store_assets : List AssetDocument → Connection mongo → Result (Connection mongo)
  store_assets ds conn = elim (or_duplicate (mongo.insert_many AssetDocument ds conn.assets)) [
    | ok c ↦ ok (record conn { assets = c })
    | err e ↦ err e
  ]

  unfoldable pub get_asset : Option String → Connection mongo → Option AssetDocument
  get_asset i conn = first (mongo.find AssetDocument (λ d. opt_eq d.id i) conn.assets)

  unfoldable pub get_assets : List (Option String) → Connection mongo → List AssetDocument
  get_assets ids conn = mongo.find AssetDocument (λ d. one_of ids d.id) conn.assets

  unfoldable pub get_spent : Option String → Option ℕ → Connection mongo → List TransactionDict
  get_spent txid output conn =
      mongo.find TransactionDict (λ d. any (input_spends txid output) d.inputs) conn.transactions

  unfoldable pub get_latest_block : Connection mongo → Option BlockDocument
  get_latest_block conn = mongo.find_latest BlockDocument (λ b. true) (λ b. b.height) conn.blocks

  -- a block of a height that is there is dropped
  unfoldable pub store_block : BlockDocument → Connection mongo → Connection mongo
  store_block b conn = record conn {
    blocks = (mongo.insert_many BlockDocument (b ∷ []) conn.blocks).0;
  }

  unfoldable pub get_block : ℕ → Connection mongo → Option BlockDocument
  get_block block_id conn =
      first (mongo.find BlockDocument (λ b. eqb b.height block_id) conn.blocks)

  unfoldable pub get_block_with_transaction : String → Connection mongo → List BlockDocument
  get_block_with_transaction txid conn =
      mongo.find BlockDocument (λ b. mentions b.transactions txid) conn.blocks

  -- `match[operation]`, for an asset
  abbrev matches_asset : Option Operation → String → TransactionDict → Bool
  matches_asset (some create) asset_id d =
      is_plain_create d.operation && opt_eq d.id (some asset_id)
  matches_asset (some transfer) asset_id d = is_plain_transfer d.operation && asset_is asset_id d
  matches_asset none asset_id d = asset_is asset_id d || opt_eq d.id (some asset_id)
  matches_asset _ asset_id d = false

  abbrev last_of : List TransactionDict → List TransactionDict
  last_of [] = []
  last_of (d ∷ []) = d ∷ []
  last_of (d ∷ e ∷ ds) = last_of (e ∷ ds)

  -- `sort([('$natural', DESCENDING)]).limit(1)`
  abbrev if_last : Option Bool → List TransactionDict → List TransactionDict
  if_last (some true) ds = last_of ds
  if_last _ ds = ds

  unfoldable pub get_txids_filtered :
      String → Option Operation → Option Bool → Connection mongo → List (Option String)
  get_txids_filtered asset_id operation last_tx conn =
      map (λ (d : TransactionDict). d.id)
        (if_last last_tx
          (mongo.find TransactionDict (matches_asset operation asset_id) conn.transactions))

  unfoldable pub get_owned_ids : String → Connection mongo → List TransactionDict
  get_owned_ids owner conn =
      mongo.find TransactionDict
        (λ d. any (λ (o : OutputDict). mentions o.public_keys owner) d.outputs) conn.transactions

  -- the id and the index are looked up in two separate lists
  unfoldable pub get_spending_transactions : List LinkDict → Connection mongo → List TransactionDict
  get_spending_transactions inputs conn =
      mongo.find TransactionDict
        (λ d.
          any
            (λ (i : InputDict). elim i.fulfills [
              | none ↦ false
              | some l ↦
                  any (λ (k : LinkDict). opt_eq k.transaction_id l.transaction_id) inputs
                  && any (λ (k : LinkDict). Link.opt_eqb k.output_index l.output_index) inputs
            ])
            d.inputs)
        conn.transactions

  unfoldable pub delete_transactions : List (Option String) → Connection mongo → Connection mongo
  delete_transactions ids conn = record conn {
    assets = mongo.delete_many AssetDocument (λ d. one_of ids d.id) conn.assets;
    metadata = mongo.delete_many MetadataDocument (λ d. one_of ids d.id) conn.metadata;
    transactions = mongo.delete_many TransactionDict (λ d. one_of ids d.id) conn.transactions;
  }

  -- the handler is for a DuplicateKeyError, which `insert_many` does not raise
  unfoldable pub store_unspent_outputs :
      List UnspentOutput → Connection mongo → Result (Connection mongo)
  store_unspent_outputs [] conn = ok conn
  store_unspent_outputs (u ∷ us) conn =
      elim (or_duplicate (mongo.insert_many UnspentOutput (u ∷ us) conn.utxos)) [
        | ok c ↦ ok (record conn { utxos = c })
        | err e ↦ err e
      ]

  abbrev pub is_output : LinkDict → UnspentOutput → Bool
  is_output l u =
      opt_eq u.transaction_id l.transaction_id && Link.opt_eqb (some u.output_index) l.output_index

  unfoldable pub delete_unspent_outputs : List LinkDict → Connection mongo → Connection mongo
  delete_unspent_outputs [] conn = conn
  delete_unspent_outputs (l ∷ ls) conn = record conn {
    utxos = mongo.delete_many UnspentOutput (λ u. any (λ k. is_output k u) (l ∷ ls)) conn.utxos;
  }

  unfoldable pub get_unspent_outputs : Connection mongo → List UnspentOutput
  get_unspent_outputs conn = mongo.find UnspentOutput (λ u. true) conn.utxos

  unfoldable pub store_pre_commit_state : PreCommitState → Connection mongo → Connection mongo
  store_pre_commit_state state conn = record conn {
    pre_commit = mongo.replace_one PreCommitState (λ s. true) state conn.pre_commit;
  }

  unfoldable pub get_pre_commit_state : Connection mongo → Option PreCommitState
  get_pre_commit_state conn = first (mongo.find PreCommitState (λ s. true) conn.pre_commit)

  unfoldable pub store_validator_set : ValidatorSet → Connection mongo → Connection mongo
  store_validator_set v conn = record conn {
    validators = mongo.replace_one ValidatorSet (λ w. eqb w.height v.height) v conn.validators;
  }

  unfoldable pub delete_validator_set : ℕ → Connection mongo → Connection mongo
  delete_validator_set height conn = record conn {
    validators = mongo.delete_many ValidatorSet (λ w. eqb w.height height) conn.validators;
  }

  unfoldable pub store_election : String → ℕ → Bool → Connection mongo → Connection mongo
  store_election election_id height is_concluded conn = record conn {
    elections =
        mongo.replace_one ElectionDocument
          (λ e. e.election_id == election_id && eqb e.height height)
          (record { election_id = election_id; height = height; is_concluded = is_concluded })
          conn.elections;
  }

  unfoldable pub store_elections :
      List ElectionDocument → Connection mongo → Result (Connection mongo)
  store_elections es conn =
      elim (or_duplicate (mongo.insert_many ElectionDocument es conn.elections)) [
        | ok c ↦ ok (record conn { elections = c })
        | err e ↦ err e
      ]

  unfoldable pub delete_elections : ℕ → Connection mongo → Connection mongo
  delete_elections height conn = record conn {
    elections = mongo.delete_many ElectionDocument (λ e. eqb e.height height) conn.elections;
  }

  abbrev up_to : Option ℕ → ValidatorSet → Bool
  up_to none v = true
  up_to (some h) v = leb v.height h

  unfoldable pub get_validator_set : Option ℕ → Connection mongo → Option ValidatorSet
  get_validator_set height conn =
      mongo.find_latest ValidatorSet (up_to height) (λ v. v.height) conn.validators

  unfoldable pub get_election : String → Connection mongo → Option ElectionDocument
  get_election election_id conn =
      mongo.find_latest ElectionDocument (λ e. e.election_id == election_id) (λ e. e.height)
        conn.elections

  -- `{'outputs.public_keys': [public_key]}` asks for an output with exactly this list
  abbrev exactly : String → List String → Bool
  exactly public_key (k ∷ []) = k == public_key
  exactly public_key _ = false

  unfoldable pub get_asset_tokens_for_public_key :
      String → String → Connection mongo → List TransactionDict
  get_asset_tokens_for_public_key asset_id public_key conn =
      mongo.find TransactionDict
        (λ d.
          any (λ (o : OutputDict). exactly public_key o.public_keys) d.outputs
          && asset_is asset_id d)
        conn.transactions

  unfoldable pub store_abci_chain : ℕ → String → Bool → Connection mongo → Connection mongo
  store_abci_chain height chain_id is_synced conn = record conn {
    abci_chains =
        mongo.replace_one AbciChain (λ c. eqb c.height height)
          (record { height = height; chain_id = chain_id; is_synced = is_synced }) conn.abci_chains;
  }

  unfoldable pub delete_abci_chain : ℕ → Connection mongo → Connection mongo
  delete_abci_chain height conn = record conn {
    abci_chains = mongo.delete_many AbciChain (λ c. eqb c.height height) conn.abci_chains;
  }

  unfoldable pub get_latest_abci_chain : Connection mongo → Option AbciChain
  get_latest_abci_chain conn =
      mongo.find_latest AbciChain (λ c. true) (λ c. c.height) conn.abci_chains
