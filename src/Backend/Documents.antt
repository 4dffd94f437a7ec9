-- ===== src/Backend/Documents.antt =====
-- The documents of the collections, and the connection to them.
use planetmint.Base.{ℕ, String, Bool, Option, List}
use planetmint.Json.{Json}
use planetmint.Transaction.Model.{Asset, TransactionDict}
use planetmint.Backend.Mongo.{Mongo}

-- The asset and the metadata of a transaction are kept in collections of their own.
pub record AssetDocument : Type 0 where
  pub id : Option String
  pub asset : Asset

pub record MetadataDocument : Type 0 where
  pub id : Option String
  pub metadata : Option Json

pub record BlockDocument : Type 0 where
  pub app_hash : String
  pub height : ℕ
  pub transactions : List String

-- `{'public_key': {'type': …, 'value': …}, 'voting_power': …}`
pub record Validator : Type 0 where
  pub key_type : String
  pub public_key : String
  pub voting_power : ℕ

pub record ValidatorSet : Type 0 where
  pub height : ℕ
  pub validators : List Validator

pub record ElectionDocument : Type 0 where
  pub election_id : String
  pub height : ℕ
  pub is_concluded : Bool

pub record PreCommitState : Type 0 where
  pub height : ℕ
  pub transactions : List String

pub record AbciChain : Type 0 where
  pub height : ℕ
  pub chain_id : String
  pub is_synced : Bool

pub record UnspentOutput : Type 0 where
  pub transaction_id : Option String
  pub output_index : ℕ
  pub amount : ℕ
  pub asset_id : Option String
  pub condition_uri : String

pub record Connection (mongo : Mongo) : Type 0 where
  pub transactions : mongo.Collection TransactionDict
  pub assets : mongo.Collection AssetDocument
  pub metadata : mongo.Collection MetadataDocument
  pub blocks : mongo.Collection BlockDocument
  pub utxos : mongo.Collection UnspentOutput
  pub pre_commit : mongo.Collection PreCommitState
  pub elections : mongo.Collection ElectionDocument
  pub validators : mongo.Collection ValidatorSet
  pub abci_chains : mongo.Collection AbciChain
