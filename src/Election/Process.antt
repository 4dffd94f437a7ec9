-- ===== src/Election/Process.antt =====
-- How elections conclude: `has_concluded`, `on_approval`, `process_block` and `rollback`.
pub mod Unstored
pub mod Votes
use planetmint.Base.{
  ℕ, ◌+◌, String, Option, none, some, opt_eq, List, [], ◌∷◌, ◌++◌, map, Bool, true, false, not,
  ◌&&◌, ◌||◌, ◌==◌, eqb, ltb, keep, sum, if◌then◌else◌,
}
use planetmint.Base.Dict
use planetmint.Base.Dict.{Dict}
use planetmint.Errors.{
  Result, ok, err, ◌>>=◌, ◌>>◌, raise_if, or_raise, type_error, key_error, attribute_error,
}
use planetmint.Transaction.Model.{
  Operation, create, transfer, validator_election, chain_migration_election, vote, Asset, absent,
  payload, reference, Transaction,
}
use planetmint.Validation.{Crypto, amounts, referenced}
use planetmint.Backend.Mongo.{Mongo}
use planetmint.Backend.Query
use planetmint.Backend.Documents.{
  Validator, ValidatorSet, ElectionDocument, AbciChain, BlockDocument, Connection,
}
use planetmint.Node.{get_transaction}
use planetmint.Election.{
  Arithmetic, ValidatorUpdate, asset_data, get_item, as_int, as_text, count_votes, object_view,
  dict_views, node_validators, is_vote,
}

-- `isinstance(tx, Election)`
abbrev pub is_election : Operation → Bool
is_election validator_election = true
is_election chain_migration_election = true
is_election _ = false

module _ {F : Type 0} (crypto : Crypto F) (a : Arithmetic) (mongo : Mongo) where
  -- the `id` that is converted and looked up is not None
  abbrev text_id : Option String → Result String
  text_id i = or_raise i type_error

  pub get_validator_change : Connection mongo → Option ValidatorSet
  get_validator_change conn = elim (Query.get_latest_block mongo conn) [
    | none ↦ none
    | some b ↦ Query.get_validator_set mongo (some b.height) conn
  ]

  -- `latest_change_height > election['height']`
  abbrev changed_since : Connection mongo → String → Option ValidatorSet → Result Bool
  changed_since conn id none = ok false
  changed_since conn id (some change) = do
    election ← or_raise (Query.get_election mongo id conn) type_error
    ok (ltb election.height change.height)

  unfoldable pub has_validator_set_changed : Connection mongo → String → Result Bool
  unfolding get_validator_change
  has_validator_set_changed conn id = changed_since conn id (get_validator_change conn)

  unfoldable pub get_commited_votes : Connection mongo → String → Result ℕ
  get_commited_votes conn id = do
    let election_pk = a.to_public_key id
    views ← dict_views a (Query.get_asset_tokens_for_public_key mongo id election_pk conn)
    ok (count_votes election_pk views)

  pub get_status : Connection mongo → String → Result String
  unfolding has_validator_set_changed
  get_status conn id =
      let open_status : Result String = (do
        changed ← has_validator_set_changed conn id
        ok (if changed then "inconclusive" else "ongoing")) in
      elim (Query.get_election mongo id conn) [
        | none ↦ open_status
        | some e ↦ if e.is_concluded then ok "concluded" else open_status
      ]

  -- the votes that are committed are too few, and with those of the block there are enough
  abbrev pub crosses : ℕ → ℕ → ℕ → Bool
  crosses committed current total =
      a.lt_two_thirds committed total && a.ge_two_thirds (committed + current) total

  pub tally_votes : Connection mongo → Transaction F → List (Transaction F) → String → Result Bool
  unfolding get_commited_votes
  tally_votes conn tx current_votes id = do
    committed ← get_commited_votes conn id
    let current = count_votes (a.to_public_key id) (map object_view current_votes)
    ok (crosses committed current (amounts crypto tx.outputs))

  abbrev pub unless : Bool → Result Bool → Result Bool
  unless true counted = ok false
  unless false counted = counted

  -- `Election.has_concluded`
  unfoldable pub election_has_concluded :
      Connection mongo → Transaction F → List (Transaction F) → Result Bool
  unfolding has_validator_set_changed tally_votes
  election_has_concluded conn tx current_votes = do
    id ← text_id tx.id
    changed ← has_validator_set_changed conn id
    unless changed (tally_votes conn tx current_votes id)

  -- a change of the validators is assigned to the height after the next
  abbrev change_pending : Connection mongo → Option BlockDocument → Result Bool
  change_pending conn none = ok false
  change_pending conn (some b) = do
    change ← or_raise (Query.get_validator_set mongo none conn) type_error
    ok (eqb change.height (b.height + 2))

  abbrev pub migrating : Option AbciChain → Bool
  migrating none = false
  migrating (some c) = not c.is_synced

  -- `has_concluded` of the class; the other classes have no such method
  pub has_concluded_as :
      Operation → Connection mongo → Transaction F → List (Transaction F) → Result Bool
  unfolding election_has_concluded
  has_concluded_as validator_election conn tx votes = do
    pending ← change_pending conn (Query.get_latest_block mongo conn)
    unless pending (election_has_concluded conn tx votes)
  has_concluded_as chain_migration_election conn tx votes =
      unless (migrating (Query.get_latest_abci_chain mongo conn))
        (election_has_concluded conn tx votes)
  has_concluded_as _ conn tx votes = err attribute_error

  pub has_concluded : Connection mongo → Transaction F → List (Transaction F) → Result Bool
  unfolding has_concluded_as
  has_concluded conn tx votes = has_concluded_as tx.operation conn tx votes

  -- the asset of a validator election: the type and the value of the key, and the power
  abbrev election_data : Transaction F → Result (String × String × ℕ)
  election_data tx = do
    d ← asset_data tx.asset
    pk ← get_item "public_key" d
    ty ← get_item "type" pk
    key_type ← as_text ty
    va ← get_item "value" pk
    value ← as_text va
    po ← get_item "power" d
    power ← as_int po
    ok (key_type, value, power)

  abbrev by_key : List Validator → Dict Validator → Dict Validator
  by_key [] d = d
  by_key (v ∷ vs) d = by_key vs (Dict.insert v.public_key v d)

  -- `new_validator_set`, with the one update that `on_approval` passes
  pub new_validator_set : List Validator → String → String → ℕ → Result (List Validator)
  new_validator_set validators key_type value power = do
    public_key64 ← a.recode key_type value
    ok (
        Dict.values (
          Dict.insert public_key64
            (record {
              key_type = "ed25519-base64";
              public_key = public_key64;
              voting_power = power;
            })
            (by_key validators [])))

  -- `ValidatorElection.on_approval`
  pub approve_validator :
      Connection mongo → ℕ → Transaction F → Result (Connection mongo × Option ValidatorUpdate)
  unfolding new_validator_set
  approve_validator conn new_height tx = do
    e ← election_data tx
    updated ← new_validator_set (node_validators crypto a mongo (some new_height) conn) e.0 e.1 e.2
    -- `encode_validator`, after the set is stored
    ed25519 ← a.fromhex e.1
    let positive = keep (λ (v : Validator). ltb 0 v.voting_power) updated
    ok (
      Query.store_validator_set mongo (record { height = new_height + 1; validators = positive })
          conn,
      some (record { public_key = ed25519; power = e.2 }),
    )

  -- `Planetmint.migrate_abci_chain`
  pub migrate_abci_chain : Connection mongo → Result (Connection mongo)
  migrate_abci_chain conn = elim (Query.get_latest_abci_chain mongo conn) [
    | none ↦ ok conn
    | some chain ↦ elim (Query.get_latest_block mongo conn) [
      | none ↦ err type_error
      | some b ↦ ok (
          Query.store_abci_chain mongo (b.height + 1) (a.migrated_chain_id chain.chain_id b.height)
            false conn)
    ]
  ]

  pub on_approval :
      Connection mongo → ℕ → Transaction F → Result (Connection mongo × Option ValidatorUpdate)
  unfolding approve_validator migrate_abci_chain
  on_approval conn new_height tx = elim tx.operation [
    | validator_election ↦ approve_validator conn new_height tx
    | chain_migration_election ↦ (do conn' ← migrate_abci_chain conn; ok (conn', none))
    | _ ↦ err attribute_error
  ]

  abbrev initiated_by : ℕ → Transaction F → Result (List ElectionDocument)
  initiated_by height tx = do
    id ← text_id tx.id
    ok (record { election_id = id; height = height; is_concluded = false } ∷ [])

  pub get_initiated_elections : ℕ → List (Transaction F) → Result (List ElectionDocument)
  get_initiated_elections height [] = ok []
  get_initiated_elections height (tx ∷ txs) = do
    own ← (if is_election tx.operation then initiated_by height tx else ok [])
    rest ← get_initiated_elections height txs
    ok (own ++ rest)

  -- one more vote for an election, in the ordered dict of votes
  abbrev add_vote :
      String → Transaction F → Dict (List (Transaction F)) → Dict (List (Transaction F))
  add_vote id tx elections =
      Dict.insert id
        (elim (Dict.lookup id elections) [ none ↦ tx ∷ [] | some txs ↦ txs ++ tx ∷ [] ]) elections

  pub votes_from :
      List (Transaction F) → Dict (List (Transaction F)) → Result (Dict (List (Transaction F)))
  votes_from [] elections = ok elections
  votes_from (tx ∷ txs) elections = do
    next ←
        (if is_vote tx.operation
          then (do i ← referenced crypto tx.asset; id ← text_id i; ok (add_vote id tx elections))
          else ok elections)
    votes_from txs next

  pub get_votes : List (Transaction F) → Result (Dict (List (Transaction F)))
  unfolding votes_from
  get_votes txns = votes_from txns []

  abbrev conclude :
      Connection mongo
      → ℕ
      → Transaction F
      → Bool
      → Option ValidatorUpdate
      → Result (Connection mongo × Option ValidatorUpdate)
  conclude conn new_height election false update = ok (conn, update)
  conclude conn new_height election true update = do
    approved ← on_approval conn new_height election
    id ← text_id election.id
    ok (Query.store_election mongo id new_height true approved.0, approved.1)

  -- the body of the loop: `validator_update` is what the last approval returned
  pub process_election :
      Connection mongo
      → ℕ
      → String
      → List (Transaction F)
      → Option ValidatorUpdate
      → Result (Connection mongo × Option ValidatorUpdate)
  unfolding on_approval has_concluded
  process_election conn new_height election_id votes update = do
    found ← get_transaction crypto mongo (some election_id) conn
    elim found [
      | none ↦ ok (conn, update)
      | some election ↦ (do
        concluded ← has_concluded conn election votes
        conclude conn new_height election concluded update)
    ]

  pub process_elections :
      Connection mongo
      → ℕ
      → Dict (List (Transaction F))
      → Option ValidatorUpdate
      → Result (Connection mongo × Option ValidatorUpdate)
  unfolding process_election
  process_elections conn new_height [] update = ok (conn, update)
  process_elections conn new_height ((id, votes) ∷ rest) update = do
    next ← process_election conn new_height id votes update
    process_elections next.0 new_height rest next.1

  abbrev store_initiated : List ElectionDocument → Connection mongo → Result (Connection mongo)
  store_initiated [] conn = ok conn
  store_initiated (e ∷ es) conn = Query.store_elections mongo (e ∷ es) conn

  pub process_block :
      Connection mongo → ℕ → List (Transaction F) → Result (Connection mongo × List ValidatorUpdate)
  unfolding get_initiated_elections get_votes process_elections
  process_block conn new_height txns = do
    initiated ← get_initiated_elections new_height txns
    conn1 ← store_initiated initiated conn
    elections ← get_votes txns
    done ← process_elections conn1 new_height elections none
    ok (done.0, elim done.1 [ none ↦ [] | some u ↦ u ∷ [] ])

  abbrev on_rollback : Connection mongo → ℕ → Transaction F → Result (Connection mongo)
  on_rollback conn new_height tx = elim tx.operation [
    | validator_election ↦ ok (Query.delete_validator_set mongo (new_height + 1) conn)
    | chain_migration_election ↦ ok (Query.delete_abci_chain mongo new_height conn)
    | _ ↦ err attribute_error
  ]

  roll_back_elections :
      Connection mongo → ℕ → Dict (List (Transaction F)) → Result (Connection mongo)
  roll_back_elections conn new_height [] = ok conn
  roll_back_elections conn new_height ((id, votes) ∷ rest) = do
    found ← get_transaction crypto mongo (some id) conn
    election ← or_raise found attribute_error
    conn' ← on_rollback conn new_height election
    roll_back_elections conn' new_height rest

  -- `_get_votes` skips what `get_transaction` did not find
  abbrev pub load_all : Connection mongo → List String → Result (List (Transaction F))
  load_all conn [] = ok []
  load_all conn (i ∷ is) = do
    found ← get_transaction crypto mongo (some i) conn
    rest ← load_all conn is
    ok (elim found [ none ↦ rest | some tx ↦ tx ∷ rest ])

  -- `Election.rollback`
  unfoldable pub rollback : Connection mongo → ℕ → List String → Result (Connection mongo)
  unfolding get_votes roll_back_elections
  rollback conn new_height txn_ids = do
    let conn1 = Query.delete_elections mongo new_height conn
    txns ← load_all conn1 txn_ids
    elections ← get_votes txns
    roll_back_elections conn1 new_height elections
