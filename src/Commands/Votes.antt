-- ===== src/Commands/Votes.antt =====
-- The vote that `run_election_approve` casts.
use planetmint.Base.{
  ℕ, String, none, some, true, List, [], ◌∷◌, not, ◌≡◌, refl, sym, ap, subst, ◌∙◌, Any, All, any,
  ◌==◌, ◌↔◌, inl, inr, Bool-cases, eq_iff, arith,
}
use planetmint.Errors.{
  ok, >>=-eq-ok, >>-ok_iff, ok-injective, or_raise, or_raise-eq-ok, raise_if, type_error,
}
use planetmint.Transaction.Model.{vote, reference, Input, Output, Transaction}
use planetmint.Transaction.Serialize.{make_transaction, metadata_fits, to_dict}
use planetmint.Transaction.Build.{validate_transfer, to_inputs, version}
use planetmint.Transaction.Build.Generate.{validate_transfer-single}
use planetmint.Validation.{Crypto}
use planetmint.Signing.Owners.{all_owners, sign-all_owners}
use planetmint.Signing.{Signer, sign, key_pairs, sign_inputs}
use planetmint.Backend.Mongo.{Mongo}
use planetmint.Backend.Documents.{Connection}
use planetmint.Election.{Arithmetic, validate_as}
use planetmint.Commands.{KeyPair, generate_vote, owned_by, cast_vote}

pub owner_iff :
    (key : String) (keys : List String)
    → (any (λ k. key == k) keys ≡ true) ↔ Any (λ k. key ≡ k) keys
owner_iff key [] = (λ h. ground arith, λ h. absurd h)
owner_iff key (k ∷ ks) = (
  λ h. elim (Bool-cases (key == k)) [
    | inl e ↦ inl ((eq_iff key k).0 e)
    | inr e ↦ inr ((owner_iff key ks).0 (ground arith))
  ],
  λ h. elim h [
    | inl e ↦ rw ((eq_iff key k).1 e) refl
    | inr e ↦ ground (arith, (owner_iff key ks).1 e)
  ],
)

-- What of a transaction the signatures leave alone.
abbrev Same : {F : Type 0} → Transaction F → Transaction F → Type 0
Same t u = (t.operation ≡ u.operation) × (t.asset ≡ u.asset) × (t.outputs ≡ u.outputs)

module _ {F : Type 0} (crypto : Crypto F) (signer : Signer F) where
  sign-Same :
      (private_keys : List String) (tx : Transaction F) {signed : Transaction F}
      → sign crypto signer private_keys tx ≡ ok signed
      → Same signed tx
  unfolding sign
  sign-Same private_keys tx h =
      let pairs = >>=-eq-ok (key_pairs crypto signer private_keys) _ h in
      let d = >>=-eq-ok (to_dict crypto.fulfillments tx) _ pairs.2 in
      let js = >>=-eq-ok (sign_inputs crypto signer tx.inputs _ pairs.0) _ d.2 in
      let e = >>=-eq-ok (to_dict crypto.fulfillments (record tx { inputs = js.0 })) _ js.2 in
      let made = sym (ok-injective e.2) in
      (
        ap (λ (t : Transaction F). t.operation) made,
        ap (λ (t : Transaction F). t.asset) made,
        ap (λ (t : Transaction F). t.outputs) made,
      )

  -- A vote of this power for the election, whose inputs all belong to the voter.
  pub record IsVote (voter election_id key : String) (power : ℕ) (tx : Transaction F) : Type 0 where
    pub own : All (λ owners. Any (λ k. voter ≡ k) owners) (all_owners tx.inputs)
    pub is_vote : tx.operation ≡ vote
    pub about : tx.asset ≡ reference election_id
    pub output : Output F
    pub single : tx.outputs ≡ output ∷ []
    pub owner : output.public_keys ≡ key ∷ []
    pub weight : output.amount ≡ power

module _ {F : Type 0} (crypto : Crypto F) (signer : Signer F) (a : Arithmetic) (mongo : Mongo) where
  -- what the constructor of a vote makes
  abbrev vote_of : List (Input F) → List (Output F) → String → Transaction F
  vote_of inputs outputs election_id = record {
    operation = vote;
    asset = reference election_id;
    inputs = inputs;
    outputs = outputs;
    metadata = none;
    version = version;
    id = none;
    tx_dict = none;
  }

  made_of :
      (inputs : List (Input F)) (outputs : List (Output F)) {election_id : String}
      {tx : Transaction F}
      → make_transaction crypto.fulfillments vote
          (reference election_id)
          inputs
          outputs
          none
          version
          none
          none
        ≡ ok tx
      → vote_of inputs outputs election_id ≡ tx
  unfolding make_transaction
  made_of inputs outputs {election_id} h =
      ok-injective
        ((>>-ok_iff (raise_if (not (metadata_fits crypto.fulfillments none)) type_error)
            (ok (vote_of inputs outputs election_id))).0
          h).1

  owned_by-all_owners :
      (voter : String) (inputs : List (Input F))
      → All
          (λ owners. Any (λ k. voter ≡ k) owners)
          (all_owners (owned_by crypto signer a mongo voter inputs))
  owned_by-all_owners voter [] = tt
  owned_by-all_owners voter (i ∷ is) = elim (Bool-cases (any (λ k. voter == k) i.owners_before)) [
    | inl e ↦ rw e ((owner_iff voter i.owners_before).0 e, owned_by-all_owners voter is)
    | inr e ↦ rw e (owned_by-all_owners voter is)
  ]

  generate_vote-IsVote :
      (inputs : List (Input F)) (voter key : String) (power : ℕ) (election_id : String)
      {tx : Transaction F}
      → All (λ owners. Any (λ k. voter ≡ k) owners) (all_owners inputs)
      → generate_vote crypto signer a mongo inputs ((key ∷ [], power) ∷ []) election_id ≡ ok tx
      → IsVote crypto signer voter election_id key power tx
  unfolding generate_vote
  generate_vote-IsVote inputs voter key power election_id own h =
      let parts =
        >>=-eq-ok (validate_transfer crypto.fulfillments inputs ((key ∷ [], power) ∷ [])) _ h in
      let sides = validate_transfer-single crypto.fulfillments inputs (key ∷ []) power parts.1 in
      let outputs = sides.1 in
      let built =
        >>=-eq-ok
          (make_transaction crypto.fulfillments vote (reference election_id) parts.0.0 parts.0.1
            none version none none)
          _ parts.2 in
      let d = >>=-eq-ok (to_dict crypto.fulfillments built.0) _ built.2 in
      let made = made_of parts.0.0 parts.0.1 built.1 ∙ ok-injective ((>>-ok_iff _ _).0 d.2).1 in
      record {
        own =
            subst (λ is. All (λ owners. Any (λ k. voter ≡ k) owners) (all_owners is))
              (sym sides.0 ∙ ap (λ (t : Transaction F). t.inputs) made) own;
        is_vote = ap (λ (t : Transaction F). t.operation) (sym made);
        about = ap (λ (t : Transaction F). t.asset) (sym made);
        output = outputs.0;
        single = ap (λ (t : Transaction F). t.outputs) (sym made) ∙ outputs.1;
        owner = outputs.2;
        weight = outputs.3;
      }

  pub cast_vote-IsVote :
      (conn : Connection mongo) (key : KeyPair) (tx : Transaction F) (power : ℕ)
      {approval : Transaction F}
      → cast_vote crypto signer a mongo conn key tx power ≡ ok approval
      → (id : String) × (tx.id ≡ some id)
        × IsVote crypto signer key.public_key id (a.to_public_key id) power approval
        × (validate_as crypto a mongo vote conn [] approval ≡ ok tt)
  unfolding cast_vote
  cast_vote-IsVote conn key tx power {approval} h =
      let inputs = >>=-eq-ok (to_inputs crypto.fulfillments tx []) _ h in
      let id = >>=-eq-ok (or_raise tx.id type_error) _ inputs.2 in
      let draft =
        >>=-eq-ok
          (generate_vote crypto signer a mongo
            (owned_by crypto signer a mongo key.public_key inputs.0)
            ((a.to_public_key id.0 ∷ [], power) ∷ []) id.0)
          _ id.2 in
      let signed = >>=-eq-ok (sign crypto signer (key.private_key ∷ []) draft.0) _ draft.2 in
      let checked = (>>-ok_iff (validate_as crypto a mongo vote conn [] signed.0) _).0 signed.2 in
      let voter = key.public_key in
      let v =
        generate_vote-IsVote _ voter _ power id.0 (owned_by-all_owners voter inputs.0) draft.1 in
      let same = sign-Same crypto signer (key.private_key ∷ []) draft.0 signed.1 in
      let final : signed.0 ≡ approval = ok-injective checked.1 in
      (
        id.0,
        or_raise-eq-ok tx.id type_error id.1,
        subst (λ t. IsVote crypto signer voter id.0 (a.to_public_key id.0) power t) final
            (record {
              own =
                  subst (All (λ owners. Any (λ k. voter ≡ k) owners))
                    (sym (sign-all_owners crypto signer (key.private_key ∷ []) draft.0 signed.1))
                    v.own;
              is_vote = same.0 ∙ v.is_vote;
              about = same.1 ∙ v.about;
              output = v.output;
              single = same.2 ∙ v.single;
              owner = v.owner;
              weight = v.weight;
            }),
        subst (λ t. validate_as crypto a mongo vote conn [] t ≡ ok tt) final checked.0,
      )
