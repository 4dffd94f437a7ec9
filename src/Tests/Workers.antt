-- ===== src/Tests/Workers.antt =====
-- Two workers: transfers of one asset that they validate apart, and a block that they share.
use planetmint.Base.{
  ℕ, String, ◌≡◌, refl, inl, true, Option, none, some, List, [], ◌∷◌, ◌==◌, if◌then◌else◌, length,
  arith,
}
use planetmint.Errors.{Result, ok}
use planetmint.Transaction.Conditions.{Shape, fulfillment_from_details}
use planetmint.Transaction.Model.{TransactionDict, Transaction}
use planetmint.Base.Decimal.{decimal}
use planetmint.Base.Sets.{to_set}
use planetmint.Transaction.Link
use planetmint.Transaction.Link.{is_truthy, points_to, concatenated, to_uri}
use planetmint.Transaction.Serialize.{from_dict, remove_signatures}
use planetmint.Validation.{validate_transfer_inputs}
use planetmint.Backend.Query
use planetmint.Node.{load, planet}
use planetmint.Election.{validate}
use planetmint.Parallel.{
  ParallelValidator, ValidationWorker, Answer, put, reset, Event, delivered, round_of, start, run,
  result, worker_validate, worker_of,
}
use planetmint.Parallel.Agreement.{IsAtRest}
use planetmint.Parallel.Results.{IsFresh, interleavings_agree}
use planetmint.Parallel.Answered.{block_answered}
use planetmint.Parallel.Apart.{apart-accepted}
use planetmint.Parallel.Application.{is_valid_at}
use planetmint.Tests.Toy.{crypto, arithmetic, mongo, store}
use planetmint.Tests.Blocks.{spend, pay, loaded, input_of, output_of, first_dict, first_tx}

abbrev parse_hex : Option String → Result ℕ
parse_hex none = ok 0
parse_hex (some id) = if id == "first" then ok 0 else ok 1

abbrev is_valid : TransactionDict → List (Transaction Shape) → Result (Option (Transaction Shape))
is_valid = is_valid_at crypto arithmetic mongo parse_hex store

-- It spends what the first one spends.
abbrev rival_dict : TransactionDict
rival_dict = spend "share" 0 "alice" "rival" (pay "bob" "3" ∷ [])

abbrev rival_tx : Transaction Shape
rival_tx = loaded rival_dict (input_of "share" 0 "alice" 0) (output_of "bob" 1 3 ∷ [])

first_accepted :
    worker_validate is_valid first_dict [] ≡ ok (some first_tx, (some "share", first_tx ∷ []) ∷ [])
unfolding worker_validate is_valid_at load from_dict fulfillment_from_details remove_signatures
    validate validate_transfer_inputs planet Query.get_transaction Query.get_spent Query.get_asset
    Query.get_metadata Query.get_assets is_truthy Link.from_dict points_to concatenated to_uri
    decimal to_set
first_accepted = refl

rival_accepted :
    worker_validate is_valid rival_dict [] ≡ ok (some rival_tx, (some "share", rival_tx ∷ []) ∷ [])
unfolding worker_validate is_valid_at load from_dict fulfillment_from_details remove_signatures
    validate validate_transfer_inputs planet Query.get_transaction Query.get_spent Query.get_asset
    Query.get_metadata Query.get_assets is_truthy Link.from_dict points_to concatenated to_uri
    decimal to_set
rival_accepted = refl

-- the same worker refuses the rival
rival_refused :
    worker_validate is_valid rival_dict ((some "share", first_tx ∷ []) ∷ [])
    ≡ ok (none, (some "share", first_tx ∷ []) ∷ [])
unfolding worker_validate is_valid_at load from_dict fulfillment_from_details remove_signatures
    validate validate_transfer_inputs planet Query.get_transaction Query.get_spent Query.get_asset
    Query.get_metadata Query.get_assets is_truthy Link.from_dict points_to concatenated to_uri
    decimal to_set
rival_refused = refl

abbrev worker : Option String → List (Transaction Shape) → ValidationWorker Shape
worker key txs = record {
  in_queue = [];
  validated_transactions = (key, txs) ∷ [];
  is_running = true;
}

-- after the rounds, the answers came in this order
abbrev served : List (Answer Shape) → ParallelValidator Shape
served answers = record {
  transaction_index = 2;
  workers = worker (some "share") (first_tx ∷ []) ∷ worker (some "share") (rival_tx ∷ []) ∷ [];
  results_queue = answers;
}

abbrev in_order : ParallelValidator Shape
in_order = served ((0, some first_tx) ∷ (1, some rival_tx) ∷ [])

abbrev overtaken : ParallelValidator Shape
overtaken = served ((1, some rival_tx) ∷ (0, some first_tx) ∷ [])

abbrev steps : List Event
steps = delivered first_dict ∷ round_of 0 ∷ delivered rival_dict ∷ round_of 1 ∷ []

abbrev late_steps : List Event
late_steps = delivered first_dict ∷ delivered rival_dict ∷ round_of 1 ∷ round_of 1 ∷ round_of 0 ∷ []

runs_in_order : run is_valid parse_hex steps (start 2) ≡ ok in_order
unfolding run start worker_validate is_valid_at load from_dict fulfillment_from_details
    remove_signatures validate validate_transfer_inputs planet Query.get_transaction Query.get_spent
    Query.get_asset Query.get_metadata Query.get_assets is_truthy Link.from_dict points_to
    concatenated to_uri decimal to_set
runs_in_order = refl

runs_overtaken : run is_valid parse_hex late_steps (start 2) ≡ ok overtaken
unfolding run start worker_validate is_valid_at load from_dict fulfillment_from_details
    remove_signatures validate validate_transfer_inputs planet Query.get_transaction Query.get_spent
    Query.get_asset Query.get_metadata Query.get_assets is_truthy Link.from_dict points_to
    concatenated to_uri decimal to_set
runs_overtaken = refl

-- the validator for the next block
abbrev next : ParallelValidator Shape
next = record {
  transaction_index = 0;
  workers =
      put reset (worker (some "share") (first_tx ∷ []))
      ∷ put reset (worker (some "share") (rival_tx ∷ []))
      ∷ [];
  results_queue = [];
}

abbrev both : List (Option (Transaction Shape))
both = some first_tx ∷ some rival_tx ∷ []

result-in_order : result in_order ≡ ok (both, next)
unfolding result
result-in_order = refl

result-overtaken : result overtaken ≡ ok (both, next)
unfolding result
result-overtaken = refl

at_rest : IsAtRest overtaken
at_rest = (inl refl, (inl refl, tt))

fresh : IsFresh (start {F = Shape} 2)
unfolding start
fresh = (refl, refl, (tt, (tt, tt)))

interleavings_agree_example : both ≡ both
interleavings_agree_example =
    interleavings_agree is_valid parse_hex (start 2) steps late_steps fresh runs_in_order
      runs_overtaken refl (inl refl, (inl refl, tt)) at_rest result-in_order result-overtaken

block_answered_example :
    (b : List (Option (Transaction Shape))) × (after : ParallelValidator Shape) × (result overtaken
      ≡ ok (b, after))
    × (length b ≡ 2)
    × IsFresh after
block_answered_example =
    block_answered is_valid parse_hex (start 2) late_steps fresh runs_overtaken at_rest
      (refl, (refl, tt))

to_first : worker_of is_valid parse_hex first_dict 2 ≡ ok 0
unfolding worker_of
to_first = refl

to_second : worker_of is_valid parse_hex rival_dict 2 ≡ ok 1
unfolding worker_of
to_second = refl

apart-accepted_example : both ≡ some first_tx ∷ some rival_tx ∷ []
apart-accepted_example =
    apart-accepted is_valid parse_hex 2 first_dict rival_dict 0 1 (some first_tx) (some rival_tx)
      late_steps to_first to_second (λ e. omega (arith, e)) first_accepted rival_accepted
      runs_overtaken refl at_rest result-overtaken
