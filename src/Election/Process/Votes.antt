-- ===== src/Election/Process/Votes.antt =====
-- When the votes conclude an election, and a vote for what is no election.
use planetmint.Base.{
  ℕ, ◌+◌, ◌*◌, ◌<◌, ◌≤◌, String, ◌≡◌, ◌≢◌, ◌↔◌, refl, sym, ap, ◌∙◌, Option, none, some, List, [],
  ◌∷◌, map, Bool, true, false, arith, ltb, leb,
}
use planetmint.Errors.{
  Result, ok, err, or_raise, attribute_error, type_error, ok-injective, >>=-eq-ok,
}
use planetmint.Transaction.Model.{
  Transaction, Operation, create, transfer, vote, validator_election, chain_migration_election,
}
use planetmint.Validation.{Crypto, amounts, referenced}
use planetmint.Backend.Mongo.{Mongo}
use planetmint.Backend.Documents.{Connection}
use planetmint.Node.{get_transaction}
use planetmint.Election.{Arithmetic, ValidatorUpdate, count_votes, object_view}
use planetmint.Election.Process.{
  is_election, crosses, unless, has_validator_set_changed, get_commited_votes,
  election_has_concluded, has_concluded, has_concluded_as, process_election,
  get_initiated_elections, get_votes, process_block, process_elections, votes_from, tally_votes,
}

-- Below the bound the floating-point tests are the exact ones.
pub record IsExact (a : Arithmetic) (bound : ℕ) : Type 0 where
  pub lt_law : (v t : ℕ) → t < bound → a.lt_two_thirds v t ≡ ltb (3 * v) (2 * t)
  pub ge_law : (v t : ℕ) → t < bound → a.ge_two_thirds v t ≡ leb (2 * t) (3 * v)

module _ {F : Type 0} (crypto : Crypto F) (a : Arithmetic) (mongo : Mongo) where
  -- the votes of a block for the election
  abbrev pub current_votes : String → List (Transaction F) → ℕ
  current_votes id votes = count_votes (a.to_public_key id) (map object_view votes)

  crosses_iff :
      (bound committed current total : ℕ)
      → IsExact a bound
      → total < bound
      → (crosses crypto a mongo committed current total ≡ true)
        ↔ ((3 * committed < 2 * total) × (2 * total ≤ 3 * (committed + current)))
  crosses_iff bound c n t e h =
      rw (e.lt_law c t h, e.ge_law (c + n) t h)
        (λ p. (ground arith, ground arith), λ p. ground arith)

  counts_clash : (c n t d : ℕ) → 3 * c < 2 * t → 2 * t ≤ 3 * (c + n) → 3 * d < 2 * t → c + n ≤ d → ⊥
  counts_clash c n t d p q r s = omega arith

  election-run :
      (conn : Connection mongo) (tx : Transaction F) (votes : List (Transaction F)) (id : String)
      (committed : ℕ)
      → tx.id ≡ some id
      → has_validator_set_changed crypto a mongo conn id ≡ ok false
      → get_commited_votes crypto a mongo conn id ≡ ok committed
      → election_has_concluded crypto a mongo conn tx votes
        ≡ ok (crosses crypto a mongo committed (current_votes id votes) (amounts crypto tx.outputs))
  unfolding election_has_concluded tally_votes
  election-run conn tx votes id committed i unchanged counted = rw (i, unchanged, counted) refl

  -- Below the bound of exact comparison and as long as the validators have not changed,
  -- has_concluded of the base class concludes an election exactly if the votes committed are less
  -- than two thirds of all votes and together with those of the block reach two thirds.
  pub election_has_concluded_iff :
      (bound : ℕ) (conn : Connection mongo) (tx : Transaction F) (votes : List (Transaction F))
      (id : String) (committed : ℕ)
      → IsExact a bound
      → amounts crypto tx.outputs < bound
      → tx.id ≡ some id
      → has_validator_set_changed crypto a mongo conn id ≡ ok false
      → get_commited_votes crypto a mongo conn id ≡ ok committed
      → (election_has_concluded crypto a mongo conn tx votes ≡ ok true) ↔ (
          (3 * committed < 2 * amounts crypto tx.outputs)
          × (2 * amounts crypto tx.outputs ≤ 3 * (committed + current_votes id votes)))
  election_has_concluded_iff bound conn tx votes id committed e h i unchanged counted =
      let run = election-run conn tx votes id committed i unchanged counted in
      let tested =
        crosses_iff bound committed (current_votes id votes) (amounts crypto tx.outputs) e h in
      (λ p. tested.0 (ok-injective (sym run ∙ p)), λ p. run ∙ ap ok (tested.1 p))

  unless-true :
      (b : Bool) (counted : Result Bool)
      → unless crypto a mongo b counted ≡ ok true
      → counted ≡ ok true
  unless-true true counted p = cc
  unless-true false counted p = p

  concluded-crosses :
      (conn : Connection mongo) (tx : Transaction F) (votes : List (Transaction F)) (id : String)
      (committed : ℕ)
      → tx.id ≡ some id
      → get_commited_votes crypto a mongo conn id ≡ ok committed
      → election_has_concluded crypto a mongo conn tx votes ≡ ok true
      → crosses crypto a mongo committed (current_votes id votes) (amounts crypto tx.outputs) ≡ true
  unfolding election_has_concluded tally_votes
  concluded-crosses conn tx votes id n i counted p =
      let s1 = >>=-eq-ok (or_raise tx.id type_error) _ p in
      let s2 = >>=-eq-ok (has_validator_set_changed crypto a mongo conn s1.0) _ s1.2 in
      let s3 = unless-true s2.0 _ s2.2 in
      let s4 = >>=-eq-ok (get_commited_votes crypto a mongo conn s1.0) _ s3 in
      let same : s1.0 ≡ id = ok-injective (sym s1.1 ∙ ap (λ o. or_raise o type_error) i) in
      let count : s4.0 ≡ n =
        ok-injective (sym s4.1 ∙ ap (get_commited_votes crypto a mongo conn) same ∙ counted) in
      let test = ok-injective s4.2 in rw (sym count, sym same) test

  -- Below the bound of exact comparison, an election that a block concludes is not concluded again:
  -- once the votes of that block are among the committed ones, the test of the base class does not
  -- succeed in any later state for any later votes.
  pub election_concludes_once :
      (bound : ℕ) (conn later : Connection mongo) (tx : Transaction F)
      (votes votes' : List (Transaction F)) (id : String) (committed committed' : ℕ)
      → IsExact a bound
      → amounts crypto tx.outputs < bound
      → tx.id ≡ some id
      → get_commited_votes crypto a mongo conn id ≡ ok committed
      → get_commited_votes crypto a mongo later id ≡ ok committed'
      → committed + current_votes id votes ≤ committed'
      → election_has_concluded crypto a mongo conn tx votes ≡ ok true
      → election_has_concluded crypto a mongo later tx votes' ≢ ok true
  election_concludes_once bound conn later tx votes votes' id n m e h i counted counted' le p q =
      let total = amounts crypto tx.outputs in
      let first =
        (crosses_iff bound n (current_votes id votes) total e h).0
          (concluded-crosses conn tx votes id n i counted p) in
      let again =
        (crosses_iff bound m (current_votes id votes') total e h).0
          (concluded-crosses later tx votes' id m i counted' q) in
      counts_clash n (current_votes id votes) total m first.0 first.1 again.0 le

  not_election-has_concluded_as :
      (o : Operation) (conn : Connection mongo) (tx : Transaction F) (votes : List (Transaction F))
      → is_election o ≡ false
      → has_concluded_as crypto a mongo o conn tx votes ≡ err attribute_error
  unfolding has_concluded_as
  not_election-has_concluded_as create conn tx votes p = refl
  not_election-has_concluded_as transfer conn tx votes p = refl
  not_election-has_concluded_as vote conn tx votes p = refl
  not_election-has_concluded_as validator_election conn tx votes p = cc
  not_election-has_concluded_as chain_migration_election conn tx votes p = cc

  plain-process_election :
      (conn : Connection mongo) (height : ℕ) (tx : Transaction F) (id : String)
      (update : Option ValidatorUpdate)
      → get_transaction crypto mongo (some id) conn ≡ ok (some tx)
      → is_election tx.operation ≡ false
      → (votes : List (Transaction F))
      → process_election crypto a mongo conn height id votes update ≡ err attribute_error
  unfolding process_election has_concluded
  plain-process_election conn height tx id update g plain votes =
      rw (g, not_election-has_concluded_as tx.operation conn tx votes plain) refl

  -- If a block has just one vote, for a stored transaction that is no election, process_block
  -- raises AttributeError.
  pub plain_vote-process_block :
      (conn : Connection mongo) (height : ℕ) (v tx : Transaction F) (id : String)
      → v.operation ≡ vote
      → referenced crypto v.asset ≡ ok (some id)
      → get_transaction crypto mongo (some id) conn ≡ ok (some tx)
      → is_election tx.operation ≡ false
      → process_block crypto a mongo conn height (v ∷ []) ≡ err attribute_error
  unfolding process_block get_initiated_elections get_votes process_elections votes_from
  plain_vote-process_block conn height v tx id o r g plain =
      rw (o, r, plain-process_election conn height tx id none g plain) refl
