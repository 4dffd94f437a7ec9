-- ===== src/Tests/Approvals.antt =====
-- A vote for an election that the store holds.
use planetmint.Base.{◌≡◌, refl, some, none, [], ◌∷◌}
use planetmint.Errors.{Result, ok}
use planetmint.Broadcast.{Payload, RpcResponse, broadcast_tx_commit, write_transaction}
use planetmint.Commands.{KeyPair, run_election_approve}
use planetmint.Commands.Approved.{Casts, run_election_approve-Casts}
use planetmint.Base.Decimal.{decimal}
use planetmint.Base.Sets.{to_set}
use planetmint.Transaction.Link
use planetmint.Transaction.Link.{is_truthy, points_to, concatenated, to_uri}
use planetmint.Transaction.Conditions.{fulfillment_from_details, fulfillment_to_details}
use planetmint.Transaction.Serialize.{from_dict, remove_signatures, make_transaction, to_dict}
use planetmint.Transaction.Build.{to_inputs, validate_transfer}
use planetmint.Validation.{validate_transfer_inputs}
use planetmint.Signing.{sign}
use planetmint.Backend.Query
use planetmint.Node.{load, planet, get_transaction}
use planetmint.Election.{Arithmetic, validate_as}
use planetmint.Tests.Toy.{crypto, arithmetic, mongo, store}
use planetmint.Tests.Signatures.{signer}

abbrev alice : KeyPair
alice = record { private_key = "alice"; public_key = "alice" }

abbrev takes_all : Payload → Result RpcResponse
takes_all p = ok (record {
  error = none;
  result = some (record { code = none; check_tx = none; deliver_tx = none });
})

-- the key of the election is bob's
abbrev named : Arithmetic
named = record arithmetic { to_public_key = λ i. "bob" }

approves :
    run_election_approve crypto signer named mongo
      (λ d. d.version)
      takes_all
      store
      (ok alice)
      "share"
    ≡ (ok (some (some "2.0")), record { method = broadcast_tx_commit; tx = "2.0" } ∷ [])
unfolding run_election_approve write_transaction get_transaction load from_dict
    fulfillment_from_details remove_signatures validate_as validate_transfer_inputs planet
    Query.get_transaction Query.get_spent Query.get_asset Query.get_metadata Query.get_assets
    is_truthy Link.from_dict points_to concatenated to_uri decimal to_set to_inputs
    validate_transfer make_transaction sign fulfillment_to_details to_dict
approves = refl

run_election_approve-Casts_example :
    Casts crypto signer named mongo
      (λ d. d.version)
      takes_all
      store
      alice
      "share"
      (run_election_approve crypto signer named mongo
        (λ d. d.version)
        takes_all
        store
        (ok alice)
        "share").1
run_election_approve-Casts_example =
    run_election_approve-Casts crypto signer named mongo (λ d. d.version) takes_all store alice
      "share"
