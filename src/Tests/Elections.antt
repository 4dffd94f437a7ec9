-- ===== src/Tests/Elections.antt =====
-- Elections, and the recovery after a crash.
use planetmint.Base.{
  ℕ, ◌+◌, ◌<◌, ◌≤◌, ◌*◌, String, ◌≡◌, ◌≢◌, ◌↔◌, refl, none, some, [], ◌∷◌, arith, true, false,
}
use planetmint.Errors.{ok, err, attribute_error}
use planetmint.Json.{null}
use planetmint.Transaction.Link
use planetmint.Transaction.Conditions.{Details, Shape, ed25519, fulfillment_from_details}
use planetmint.Transaction.Model.{
  TransactionDict, Transaction, Operation, Asset, vote, validator_election, create, payload,
  reference,
}
use planetmint.Transaction.Serialize.{from_dict}
use planetmint.Backend.Query
use planetmint.Backend.Documents.{Connection, PreCommitState, BlockDocument, ValidatorSet}
use planetmint.Validation.{amounts}
use planetmint.Election.{count_votes}
use planetmint.Node.{get_transaction}
use planetmint.Election.Process
use planetmint.Election.Process.{
  election_has_concluded, has_validator_set_changed, get_commited_votes, process_block,
  has_concluded,
}
use planetmint.Election.Process.Unstored.{NoneStored}
use planetmint.Election.Process.Votes.{
  IsExact, current_votes, election_has_concluded_iff, election_concludes_once,
  plain_vote-process_block,
}
use planetmint.App
use planetmint.App.Recovery.{IsUndone, rollback_before_commit, replay_does_not_conclude}
use planetmint.Tests.Stored.{laws}
use planetmint.Tests.Toy.{crypto, arithmetic, mongo, store, created}

exact : IsExact arithmetic 100
exact = record { lt_law = λ v t h. refl; ge_law = λ v t h. refl }

-- a transaction with one output, for one key
abbrev single : Operation → Asset → String → String → ℕ → Transaction Shape
single operation asset id key amount = record {
  operation = operation;
  asset = asset;
  inputs = [];
  outputs = record { fulfillment = ed25519 (0 ∷ []); public_keys = key ∷ []; amount = amount } ∷ [];
  metadata = none;
  version = id;
  id = some id;
  tx_dict = none;
}

abbrev election : Transaction Shape
election = single validator_election (payload null) "election" "alice" 3

-- two of the three votes
abbrev yes : Transaction Shape
yes = single vote (reference "election") "yes" "election" 2

abbrev yes_dict : TransactionDict
yes_dict = record created {
  outputs =
      record {
        public_keys = "election" ∷ [];
        details = some (Details.ed25519 "alice");
        uri = "alice";
        amount = "2";
      }
      ∷ [];
  operation = vote;
  asset = reference "election";
  version = "yes";
  id = some "yes";
}

abbrev later : Connection mongo
later = record store { transactions = created ∷ yes_dict ∷ [] }

unchanged : has_validator_set_changed crypto arithmetic mongo store "election" ≡ ok false
unfolding has_validator_set_changed Query.get_latest_block Query.get_validator_set
    Query.get_election
unchanged = refl

none_committed : get_commited_votes crypto arithmetic mongo store "election" ≡ ok 0
unfolding get_commited_votes Query.get_asset_tokens_for_public_key count_votes
none_committed = refl

two_committed : get_commited_votes crypto arithmetic mongo later "election" ≡ ok 2
unfolding get_commited_votes Query.get_asset_tokens_for_public_key count_votes
two_committed = refl

concludes : election_has_concluded crypto arithmetic mongo store election (yes ∷ []) ≡ ok true
unfolding election_has_concluded Query.get_latest_block Query.get_validator_set Query.get_election
    Query.get_asset_tokens_for_public_key count_votes
concludes = refl

election_has_concluded_iff_example :
    (election_has_concluded crypto arithmetic mongo store election (yes ∷ []) ≡ ok true) ↔ (
      (3 * 0 < 2 * amounts crypto election.outputs)
      × (2 * amounts crypto election.outputs
          ≤ 3 * (0 + current_votes crypto arithmetic mongo "election" (yes ∷ []))))
election_has_concluded_iff_example =
    election_has_concluded_iff crypto arithmetic mongo 100 store election (yes ∷ []) "election" 0
      exact (omega arith) refl unchanged none_committed

two_current : 0 + current_votes crypto arithmetic mongo "election" (yes ∷ []) ≤ 2
unfolding count_votes
two_current = omega arith

election_concludes_once_example :
    election_has_concluded crypto arithmetic mongo later election (yes ∷ []) ≢ ok true
election_concludes_once_example =
    election_concludes_once crypto arithmetic mongo 100 store later election (yes ∷ []) (yes ∷ [])
      "election" 0 2 exact (omega arith) refl none_committed two_committed two_current concludes

-- a vote for the CREATE that is stored
abbrev stray : Transaction Shape
stray = single vote (reference "share") "stray" "share" 1

abbrev share : Transaction Shape
share = record {
  operation = create;
  asset = payload null;
  inputs =
      record {
        fulfillment = ed25519 (0 ∷ []);
        owners_before = "alice" ∷ [];
        fulfills = some (record { txid = none; output = none });
      }
      ∷ [];
  outputs = record { fulfillment = ed25519 (0 ∷ []); public_keys = "alice" ∷ []; amount = 3 } ∷ [];
  metadata = none;
  version = "share";
  id = some "share";
  tx_dict = some (record created { asset = payload null });
}

share_stored : get_transaction crypto mongo (some "share") store ≡ ok (some share)
unfolding get_transaction from_dict fulfillment_from_details Link.from_dict Query.get_transaction
    Query.get_asset Query.get_metadata
share_stored = refl

plain_vote-process_block_example :
    process_block crypto arithmetic mongo store 2 (stray ∷ []) ≡ err attribute_error
plain_vote-process_block_example =
    plain_vote-process_block crypto arithmetic mongo store 2 stray share "share" refl refl
      share_stored refl

-- the validator election of block 2 was approved, and the block was not committed
abbrev crashed : Connection mongo
crashed = record store {
  pre_commit = record { height = 2; transactions = "yes" ∷ [] } ∷ [];
  validators = record { height = 3; validators = [] } ∷ [];
}

abbrev state : PreCommitState
state = record { height = 2; transactions = "yes" ∷ [] }

abbrev block : BlockDocument
block = record { app_hash = ""; height = 1; transactions = "share" ∷ [] }

abbrev change : ValidatorSet
change = record { height = 3; validators = [] }

has_state : Query.get_pre_commit_state mongo crashed ≡ some state
unfolding Query.get_pre_commit_state
has_state = refl

has_block : Query.get_latest_block mongo crashed ≡ some block
unfolding Query.get_latest_block
has_block = refl

has_change : Query.get_validator_set mongo none crashed ≡ some change
unfolding Query.get_validator_set
has_change = refl

not_stored : NoneStored crypto arithmetic mongo crashed ("yes" ∷ [])
unfolding Query.get_transaction
not_stored = (refl, tt)

abbrev recovered : Connection mongo
recovered =
    Query.delete_transactions mongo (some "yes" ∷ []) (Query.delete_elections mongo 2 crashed)

rollback_before_commit_example :
    (conn : Connection mongo) × (App.rollback crypto arithmetic mongo crashed ≡ ok conn)
    × IsUndone crypto arithmetic mongo state crashed conn
rollback_before_commit_example =
    rollback_before_commit crypto arithmetic mongo laws crashed state block has_state has_block
      (omega arith) not_stored

recovers : App.rollback crypto arithmetic mongo crashed ≡ ok recovered
unfolding App.rollback Process.rollback Query.get_pre_commit_state Query.get_latest_block
    Query.get_transaction Query.delete_elections get_transaction
recovers = refl

replay_does_not_conclude_example :
    has_concluded crypto arithmetic mongo recovered election (yes ∷ []) ≡ ok false
replay_does_not_conclude_example =
    replay_does_not_conclude crypto arithmetic mongo crashed recovered state block change election
      (yes ∷ []) has_state has_block (omega arith) not_stored has_change refl recovers refl
