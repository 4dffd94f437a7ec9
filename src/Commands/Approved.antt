-- ===== src/Commands/Approved.antt =====
-- What `run_election_approve` sends.
use planetmint.Base.{
  ℕ, String, Option, none, some, List, [], ◌∷◌, ◌≡◌, refl, ap, subst, ◌∙◌, Any, any, ◌==◌, ◌⊎◌, inl,
  inr, Bool-cases, arith,
}
use planetmint.Errors.{Result, ok, err, >>=-eq-ok, or_raise, or_raise-eq-ok, attribute_error}
use planetmint.Transaction.Model.{vote, Output, Transaction, TransactionDict}
use planetmint.Validation.{Crypto}
use planetmint.Signing.{Signer}
use planetmint.Backend.Mongo.{Mongo}
use planetmint.Backend.Documents.{Connection}
use planetmint.Node.{get_transaction, dict_of}
use planetmint.Election.{Arithmetic, validate_as}
use planetmint.Broadcast.{
  Payload, RpcResponse, broadcast_tx_commit, write_transaction, post_transaction, payload_of,
  post_body,
}
use planetmint.Commands.Votes.{IsVote, owner_iff, cast_vote-IsVote}
use planetmint.Commands.{
  KeyPair, voting_powers, cast_vote, approval_of, prepare_approval, reported, submit,
  run_election_approve,
}

module _ {F : Type 0} (crypto : Crypto F) (signer : Signer F) (a : Arithmetic) (mongo : Mongo) where
  -- The first of the outputs that has the key among its owners is of this amount.
  abbrev pub FirstOwned : String → List (Output F) → ℕ → Type 0
  FirstOwned key [] power = ⊥
  FirstOwned key (o ∷ os) power =
      (Any (λ k. key ≡ k) o.public_keys × (o.amount ≡ power))
      ⊎ (¬ Any (λ k. key ≡ k) o.public_keys × FirstOwned key os power)

  voting_powers-FirstOwned :
      (key : String) (outputs : List (Output F)) (power : ℕ) (powers : List ℕ)
      → voting_powers crypto signer a mongo key outputs ≡ power ∷ powers
      → FirstOwned key outputs power
  voting_powers-FirstOwned key [] power powers h = cc
  voting_powers-FirstOwned key (o ∷ os) power powers h =
      elim (Bool-cases (any (λ k. key == k) o.public_keys)) [
        | inl e ↦ inl ((owner_iff key o.public_keys).0 e, ground arith)
        | inr e ↦ inr (
          λ own. absurd (ground (arith, (owner_iff key o.public_keys).1 own)),
          voting_powers-FirstOwned key os power powers (ground arith),
        )
      ]

module _ {F : Type 0} (crypto : Crypto F) (signer : Signer F) (a : Arithmetic) (mongo : Mongo)
    (encode_transaction : TransactionDict → String) (tendermint : Payload → Result RpcResponse)
    (conn : Connection mongo) (key : KeyPair) (election_id : String) where
  -- The vote of the key on the transaction with the id: it is stored, the power is the amount of its
  -- first output for the key, and the vote is valid against the store.
  pub record Ballot (approval : Transaction F) : Type 0 where
    pub election : Transaction F
    pub stored : get_transaction crypto mongo (some election_id) conn ≡ ok (some election)
    pub id : String
    pub has_id : election.id ≡ some id
    pub power : ℕ
    pub eligible : FirstOwned crypto signer a mongo key.public_key election.outputs power
    pub votes : IsVote crypto signer key.public_key id (a.to_public_key id) power approval
    pub valid : validate_as crypto a mongo vote conn [] approval ≡ ok tt

  -- Nothing is sent, or the one request with such a vote.
  abbrev pub Casts : List Payload → Type 0
  Casts [] = Unit
  Casts (p ∷ ps) =
      (approval : Transaction F) × (body : TransactionDict) × Ballot approval
      × (dict_of crypto approval approval.tx_dict ≡ ok body)
      × (p ≡ payload_of crypto encode_transaction tendermint broadcast_tx_commit body)
      × (ps ≡ [])

  approval_of-Ballot :
      (election : Transaction F) (powers : List ℕ) {approval : Transaction F}
      → get_transaction crypto mongo (some election_id) conn ≡ ok (some election)
      → voting_powers crypto signer a mongo key.public_key election.outputs ≡ powers
      → approval_of crypto signer a mongo conn key election powers ≡ ok (some approval)
      → Ballot approval
  approval_of-Ballot election [] stored eligible h = cc
  approval_of-Ballot election (power ∷ powers) {approval} stored eligible h =
      let made = >>=-eq-ok (cast_vote crypto signer a mongo conn key election power) _ h in
      let final : made.0 ≡ approval = cc (made.2) in
      let v = cast_vote-IsVote crypto signer a mongo conn key election power made.1 in
      subst Ballot final (record {
        election = election;
        stored = stored;
        id = v.0;
        has_id = v.1;
        power = power;
        eligible =
            voting_powers-FirstOwned crypto signer a mongo key.public_key election.outputs power
              powers eligible;
        votes = v.2;
        valid = v.3;
      })

  prepared-Ballot :
      {approval : Transaction F}
      → prepare_approval crypto signer a mongo conn (ok key) election_id ≡ ok (some approval)
      → Ballot approval
  unfolding prepare_approval
  prepared-Ballot h =
      let found = >>=-eq-ok (get_transaction crypto mongo (some election_id) conn) _ h in
      let tx = >>=-eq-ok (or_raise found.0 attribute_error) _ found.2 in
      let is_there : found.0 ≡ some tx.0 = or_raise-eq-ok found.0 attribute_error tx.1 in
      approval_of-Ballot tx.0 _ (found.1 ∙ ap ok is_there) refl tx.2

  body-Casts :
      (approval : Transaction F) (b : Result TransactionDict)
      → Ballot approval
      → dict_of crypto approval approval.tx_dict ≡ b
      → Casts (post_body crypto encode_transaction tendermint broadcast_tx_commit b).1
  body-Casts approval (err e) ballot has = tt
  body-Casts approval (ok body) ballot has = (approval, body, ballot, has, refl, refl)

  reported-Casts :
      (tx : Transaction F) (r : Result (ℕ × String) × List Payload)
      → Casts r.1
      → Casts (reported crypto signer a mongo encode_transaction tendermint tx r).1
  reported-Casts tx (err e, sent) h = h
  reported-Casts tx (ok status, sent) h = h

  submit-Casts :
      (r : Result (Option (Transaction F)))
      → ((approval : Transaction F) → r ≡ ok (some approval) → Ballot approval)
      → Casts (submit crypto signer a mongo encode_transaction tendermint r).1
  unfolding write_transaction post_transaction
  submit-Casts (err e) h = tt
  submit-Casts (ok none) h = tt
  submit-Casts (ok (some approval)) h =
      reported-Casts approval
        (write_transaction crypto encode_transaction tendermint approval broadcast_tx_commit)
        (body-Casts approval (dict_of crypto approval approval.tx_dict) (h approval refl) refl)

  -- run_election_approve with a key sends nothing to Tendermint, or just one request, and then the
  -- transaction with the given id is stored and the key is among the owners of an output of it, and
  -- the request has a vote for the id of this transaction that is valid against the store, all of
  -- whose inputs have the key among their owners, and whose one output gives the amount of the
  -- first output with the key among its owners to the public key that is made of the id.
  pub run_election_approve-Casts :
      Casts
        (run_election_approve crypto signer a mongo encode_transaction tendermint conn
          (ok key)
          election_id).1
  unfolding run_election_approve
  run_election_approve-Casts =
      submit-Casts (prepare_approval crypto signer a mongo conn (ok key) election_id)
        (λ approval e. prepared-Ballot e)
