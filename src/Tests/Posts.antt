-- ===== src/Tests/Posts.antt =====
-- A transfer that is posted, with Tendermint's answers, the parameters of a request, and the clients of
-- a websocket.
use planetmint.Base.{ℕ, String, true, ◌≡◌, ◌↔◌, refl, none, some, List, [], ◌∷◌, map, zero, suc}
use planetmint.Base.Decimal.{decimal}
use planetmint.Base.Dict.{lookup}
use planetmint.Base.Sets.{to_set}
use planetmint.Errors.{Result, ok}
use planetmint.Transaction.Link
use planetmint.Transaction.Link.{is_truthy, points_to, concatenated, to_uri}
use planetmint.Transaction.Conditions.{Shape, fulfillment_from_details}
use planetmint.Transaction.Serialize.{from_dict, remove_signatures}
use planetmint.Validation.{validate_transfer_inputs}
use planetmint.Backend.Query
use planetmint.Node.{load, planet}
use planetmint.Election.{validate}
use planetmint.Broadcast.{RpcResponse, Payload, process_post_response, broadcast_tx_commit}
use planetmint.Web.{success, mode_of, post}
use planetmint.Web.Posted.{IsTaken, post-accepted_iff}
use planetmint.Web.Sends.{Sends, post-Sends}
use planetmint.Web.Parameters.{valid_txid, lower_of, is_hex, Spells, newline, valid_txid_iff}
use planetmint.App.{BlockEvent}
use planetmint.Dispatcher.{
  transaction_message, Dispatcher, tx, Happening, turned, joins, leaves, got, event, poison_pill,
  publish,
}
use planetmint.Tests.Toy.{crypto, arithmetic, mongo, store}
use planetmint.Tests.Blocks.{first_dict, first_tx}

abbrev result_of : ℕ → ℕ → RpcResponse
result_of checked delivered = record {
  error = none;
  result =
      some (record {
        code = none;
        check_tx = some (some checked);
        deliver_tx = some (some delivered);
      });
}

-- Tendermint takes every transaction.
abbrev takes_all : Payload → Result RpcResponse
takes_all p = ok (result_of 0 0)

not_delivered :
    process_post_response (result_of 0 1) broadcast_tx_commit
    ≡ ok (500, "Transaction validation failed")
unfolding process_post_response
not_delivered = refl

in_cache :
    process_post_response
      (record {
        error = some (record { message = none; details = some "err: Tx already exists in cache" });
        result = none;
      })
      broadcast_tx_commit
    ≡ ok (400, "Internal Error - err: Tx already exists in cache")
unfolding process_post_response
in_cache = refl

posted :
    post crypto arithmetic mongo (λ d. d.version) takes_all store (some "commit") first_dict ≡ (
      ok (success 202 first_dict),
      record { method = broadcast_tx_commit; tx = first_dict.version } ∷ [],
    )
unfolding post load from_dict fulfillment_from_details remove_signatures validate
    validate_transfer_inputs planet Query.get_transaction Query.get_spent Query.get_asset
    Query.get_metadata Query.get_assets is_truthy Link.from_dict points_to concatenated to_uri
    decimal to_set
posted = refl

post-accepted_iff_example :
    ((post crypto arithmetic mongo (λ d. d.version) takes_all store (some "commit") first_dict).0
      ≡ ok (success 202 first_dict))
    ↔ ((mode : String) × (mode_of (some "commit") ≡ some mode)
        × IsTaken crypto arithmetic mongo (λ d. d.version) takes_all store mode first_dict)
post-accepted_iff_example =
    post-accepted_iff crypto arithmetic mongo (λ d. d.version) takes_all store first_dict
      (some "commit")

post-Sends_example :
    Sends crypto arithmetic mongo
      (λ d. d.version)
      takes_all
      store
      first_dict
      none
      (post crypto arithmetic mongo (λ d. d.version) takes_all store none first_dict).1
post-Sends_example =
    post-Sends crypto arithmetic mongo (λ d. d.version) takes_all store first_dict none

abbrev repeated : ℕ → List ℕ → List ℕ
repeated zero rest = rest
repeated (suc n) rest = b'A' ∷ repeated n rest

-- sixty-four times the digit A
abbrev digits : List ℕ
digits = repeated 64 []

valid_txid-newline :
    valid_txid (repeated 64 (newline ∷ [])) ≡ some (map lower_of (repeated 64 (newline ∷ [])))
unfolding valid_txid
valid_txid-newline = refl

valid_txid_iff_example :
    (valid_txid digits ≡ some (map lower_of digits))
    ↔ (Spells is_hex 64 digits × (map lower_of digits ≡ map lower_of digits))
valid_txid_iff_example = valid_txid_iff digits (map lower_of digits)

abbrev clients : Dispatcher
clients = record { type = tx; subscribers = ("one", []) ∷ ("two", []) ∷ [] }

abbrev block : BlockEvent Shape
block = record { height = some 5; hash = "hash"; transactions = first_tx ∷ [] }

abbrev happenings : List (Happening Shape)
happenings =
    turned (joins "three")
    ∷ got (event (record { type = 1; payload = block })) none
    ∷ turned (leaves "one")
    ∷ got poison_pill none
    ∷ []

sends_to_two :
    lookup "two" (publish happenings clients).0.subscribers
    ≡ some (transaction_message (some 5) (some "share") (some "first") ∷ [])
unfolding publish
sends_to_two = refl

-- a client goes while the first one is sent the message: the loop ends, and the second gets nothing
abbrev cut_short : List (Happening Shape)
cut_short =
    got (event (record { type = 1; payload = block }))
      (some (record { message = 0; client = 0; turn = leaves "one" }))
    ∷ []

breaks_off :
    publish cut_short clients ≡ (record { type = tx; subscribers = ("two", []) ∷ [] }, true)
unfolding publish
breaks_off = refl
