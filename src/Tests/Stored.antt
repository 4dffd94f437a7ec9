-- ===== src/Tests/Stored.antt =====
-- A CREATE that is stored and read back, and the outputs that are spent.
use planetmint.Base.{◌≡◌, refl, sym, ap, none, some, List, [], ◌∷◌, ◌++◌, true, not, keep}
use planetmint.Errors.{ok, ◌>>=◌}
use planetmint.Json.{null}
use planetmint.Transaction.Conditions.{Shape}
use planetmint.Transaction.Model.{TransactionDict, Transaction, payload}
use planetmint.Backend.Mongo.{MongoLaws}
use planetmint.Backend.Query
use planetmint.Backend.Documents.{Connection}
use planetmint.Node.{load, get_transaction, store_bulk_transactions}
use planetmint.Node.Stored.{IsFresh, store_bulk_transactions-get_transaction}
use planetmint.FastQuery.{link_dicts, filter_spent_outputs, filter_unspent_outputs}
use planetmint.FastQuery.Spent.{is_spent, filters_by-is_spent}
use planetmint.Transaction.Link
use planetmint.Transaction.Link.{TransactionLink}
use planetmint.Transaction.Model
use planetmint.Tests.Toy.{crypto, mongo, created, store}

keep-true : {A : Type 0} (xs : List A) → keep (λ x. true) xs ≡ xs
keep-true [] = refl
keep-true (x ∷ xs) = rw (keep-true xs) refl

pub laws : MongoLaws mongo
laws = record {
  find_law = λ D p c. ap (keep p) (sym (keep-true c));
  find_latest_law = λ D p key c. refl;
  insert_many_law = λ D ds c h. rw (keep-true (c ++ ds), keep-true c) refl;
  replace_one_law = λ D p new c. rw (keep-true c, keep-true) refl;
  delete_many_law = λ D p c. rw (keep-true c, keep-true) refl;
}

abbrev other_dict : TransactionDict
other_dict = record created { asset = payload null; version = "other"; id = some "other" }

abbrev other_tx : Transaction Shape
other_tx = record {
  operation = other_dict.operation;
  asset = other_dict.asset;
  inputs = [];
  outputs = [];
  metadata = other_dict.metadata;
  version = "other";
  id = some "other";
  tx_dict = some other_dict;
}

abbrev with_other : Connection mongo
with_other = record store {
  transactions = created ∷ record created { version = "other"; id = some "other" } ∷ [];
  assets =
      record { id = some "share"; asset = payload null }
      ∷ record { id = some "other"; asset = payload null }
      ∷ [];
  metadata =
      record { id = some "share"; metadata = none }
      ∷ record { id = some "other"; metadata = none }
      ∷ [];
}

fresh : IsFresh crypto mongo store (some "other")
unfolding Query.get_metadata
fresh = record { no_transaction = refl; no_asset = refl; no_metadata = refl }

stores_other : store_bulk_transactions crypto mongo (other_tx ∷ []) store ≡ ok with_other
unfolding store_bulk_transactions Query.store_metadatas Query.store_assets Query.store_transactions
stores_other = refl

store_bulk_transactions-get_transaction_example :
    get_transaction crypto mongo (some "other") with_other
    ≡ (do tx ← load crypto other_dict; ok (some tx))
store_bulk_transactions-get_transaction_example =
    store_bulk_transactions-get_transaction crypto mongo laws store with_other other_tx other_dict
      null refl refl refl fresh stores_other

-- the first of two outputs is spent
abbrev spending : Connection mongo
spending = record store {
  transactions =
      created
      ∷ record created {
        inputs =
            record {
              owners_before = "alice" ∷ [];
              fulfills = some (record { transaction_id = some "share"; output_index = some 0 });
              fulfillment = Model.uri "alice";
            }
            ∷ [];
      }
      ∷ [];
}

abbrev first_output : TransactionLink
first_output = record { txid = some "share"; output = some 0 }

abbrev second_output : TransactionLink
second_output = record { txid = some "share"; output = some 1 }

real_links :
    link_dicts (first_output ∷ second_output ∷ [])
    ≡ ok (
        record { transaction_id = some "share"; output_index = some 0 }
        ∷ record { transaction_id = some "share"; output_index = some 1 }
        ∷ [])
unfolding Link.to_dict
real_links = refl

filters_second :
    filter_spent_outputs mongo (first_output ∷ second_output ∷ []) spending
    ≡ ok (second_output ∷ [])
unfolding filter_spent_outputs Query.get_spending_transactions Link.to_dict Link.from_dict
    Link.points_to
filters_second = refl

filters_by-is_spent_example :
    (filter_spent_outputs mongo (first_output ∷ second_output ∷ []) spending
      ≡ ok (keep (λ o. not (is_spent mongo spending o)) (first_output ∷ second_output ∷ [])))
    × (filter_unspent_outputs mongo (first_output ∷ second_output ∷ []) spending
        ≡ ok (keep (is_spent mongo spending) (first_output ∷ second_output ∷ [])))
filters_by-is_spent_example =
    filters_by-is_spent mongo laws (first_output ∷ second_output ∷ [])
      (record { transaction_id = some "share"; output_index = some 0 }
        ∷ record { transaction_id = some "share"; output_index = some 1 }
        ∷ [])
      spending real_links
