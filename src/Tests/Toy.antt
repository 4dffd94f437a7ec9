-- ===== src/Tests/Toy.antt =====
-- Concrete instances of the parameters: two keys, lists for the collections, exact arithmetic.
use planetmint.Base.{
  ℕ, ◌*◌, String, Option, none, some, List, [], ◌∷◌, ◌++◌, true, false, not, ◌==◌, keep, eqb, sum,
  ltb, leb, if◌then◌else◌,
}
use planetmint.Errors.{Result, ok, err, ◌>>=◌, value_error, type_error, attribute_error}
use planetmint.Json.{null}
use planetmint.Transaction.Conditions.{
  Details, Shape, ed25519, threshold, other, plain, nil, ConditionLibrary,
}
use planetmint.Transaction.Conditions.RoundTrip.{snoc}
use planetmint.Transaction.Model.{TransactionDict, absent, payload, create}
use planetmint.Transaction.Model
use planetmint.Validation.{Crypto}
use planetmint.Backend.Mongo.{Mongo, upsert, latest}
use planetmint.Backend.Documents.{Connection}
use planetmint.Election.{Arithmetic}
use planetmint.App.{App}

abbrev key_name : List ℕ → String
key_name ks = if eqb (sum ks) 0 then "alice" else "bob"

abbrev pub key_of : String → Result (List ℕ)
key_of name =
    if name == "alice" then ok (0 ∷ []) else if name == "bob" then ok (1 ∷ []) else err value_error

abbrev add_shape : Shape → Shape → Shape
add_shape (threshold n subs) s = threshold n (snoc subs s)
add_shape t s = t

abbrev pub library : ConditionLibrary Shape
library = record {
  b58encode = key_name;
  b58decode = key_of;
  ed25519_sha256 = ed25519;
  threshold_sha256 = λ n. threshold n nil;
  add_subfulfillment = add_shape;
  shape = λ s. s;
}

abbrev uri_of : Shape → Result String
uri_of (ed25519 key) = ok (key_name key)
uri_of plain = err attribute_error
uri_of _ = err type_error

abbrev from_uri : String → Result Shape
from_uri name = do ks ← key_of name; ok (ed25519 ks)

abbrev number : String → Option ℕ
number t =
    if t == "1" then some 1 else if t == "2" then some 2 else if t == "3" then some 3 else none

abbrev shape_text : Shape → String
shape_text (other t) = t
shape_text _ = ""

abbrev first_text : List String → String
first_text [] = ""
first_text (t ∷ ts) = t

-- The version stands for the whole body, whose hash is the body itself.
abbrev pub crypto : Crypto Shape
crypto = record {
  fulfillments = record {
    library = library;
    serialize_uri = uri_of;
    from_uri = from_uri;
    condition_uri = uri_of;
    missing = plain;
    of_text = other;
    text = shape_text;
    parse_int = number;
  };
  validate = λ f message. true;
  sha3_256 = first_text;
  dumps = λ d. d.version;
  hexdigest = first_text;
  validate_schema = λ d. ok tt;
}

abbrev pub arithmetic : Arithmetic
arithmetic = record {
  lt_two_thirds = λ v t. ltb (3 * v) (2 * t);
  ge_two_thirds = λ v t. leb (2 * t) (3 * v);
  ge_third = λ v t. leb t (3 * v);
  public_key_from_base64 = λ k. k;
  to_public_key = λ k. k;
  recode = λ type key. ok key;
  fromhex = λ key. ok key;
  parse_int = number;
  migrated_chain_id = λ id height. id;
}

abbrev pub mongo : Mongo
mongo = record {
  Collection = λ D. List D;
  find = λ D p c. keep p c;
  find_latest = λ D p key c. latest key (keep p c);
  insert_many = λ D ds c. (c ++ ds, false);
  replace_one = λ D p d c. upsert p d c;
  delete_many = λ D p c. keep (λ d. not (p d)) c;
}

-- the documents of a CREATE of three shares, which alice owns
abbrev pub created : TransactionDict
created = record {
  inputs =
      record { owners_before = "alice" ∷ []; fulfills = none; fulfillment = Model.uri "alice" }
      ∷ [];
  outputs =
      record {
        public_keys = "alice" ∷ [];
        details = some (Details.ed25519 "alice");
        uri = "alice";
        amount = "3";
      }
      ∷ [];
  operation = create;
  metadata = none;
  asset = absent;
  version = "share";
  id = some "share";
}

abbrev pub store : Connection mongo
store = record {
  transactions = created ∷ [];
  assets = record { id = some "share"; asset = payload null } ∷ [];
  metadata = record { id = some "share"; metadata = none } ∷ [];
  blocks = record { app_hash = ""; height = 1; transactions = "share" ∷ [] } ∷ [];
  utxos = [];
  pre_commit = [];
  elections = [];
  validators = [];
  abci_chains = [];
}

abbrev pub app : App Shape mongo
app = record {
  conn = store;
  block_txn_ids = [];
  block_txn_hash = "";
  block_transactions = [];
  new_height = none;
  chain = none;
}
