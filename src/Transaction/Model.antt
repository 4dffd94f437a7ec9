-- ===== src/Transaction/Model.antt =====
-- The objects of transaction.py, input.py and output.py, the dictionaries that stand for them, and
-- what the code takes from cryptoconditions, hashlib and rapidjson.
use planetmint.Base.{ℕ, String, Bool, true, false, Option, List}
use planetmint.Json.{Json}
use planetmint.Transaction.Link.{TransactionLink, LinkDict}
use planetmint.Transaction.Conditions.{Details}

-- The operations that planetmint/__init__.py registers a class for.
pub data Operation : Type 0 where
  create transfer validator_election chain_migration_election vote : Operation

-- `operation == cls.CREATE`: an election class sets CREATE to its own operation
abbrev pub is_create : Operation → Bool
is_create create = true
is_create validator_election = true
is_create chain_migration_election = true
is_create _ = false

-- None, `{'data': …}` or `{'id': …}`
pub data Asset : Type 0 where
  absent : Asset
  payload : Json → Asset
  reference : String → Asset

-- `fulfillment : F` is whatever the attribute holds: an object of cryptoconditions, a URI or None.
pub record Input (F : Type 0) : Type 0 where
  pub fulfillment : F
  pub owners_before : List String
  pub fulfills : Option TransactionLink

pub record Output (F : Type 0) : Type 0 where
  pub fulfillment : F
  pub public_keys : List String
  pub amount : ℕ

pub data FulfillmentDict : Type 0 where
  null : FulfillmentDict
  uri : String → FulfillmentDict
  details : Details → FulfillmentDict

pub record InputDict : Type 0 where
  pub owners_before : List String
  pub fulfills : Option LinkDict
  pub fulfillment : FulfillmentDict

-- the `uri` and, where there are any, the `details` of the condition
pub record OutputDict : Type 0 where
  pub public_keys : List String
  pub details : Option Details
  pub uri : String
  pub amount : String

pub record TransactionDict : Type 0 where
  pub inputs : List InputDict
  pub outputs : List OutputDict
  pub operation : Operation
  pub metadata : Option Json
  pub asset : Asset
  pub version : String
  pub id : Option String

pub record Transaction (F : Type 0) : Type 0 where
  pub operation : Operation
  pub asset : Asset
  pub inputs : List (Input F)
  pub outputs : List (Output F)
  pub metadata : Option Json
  pub version : String
  pub id : Option String
  pub tx_dict : Option TransactionDict
