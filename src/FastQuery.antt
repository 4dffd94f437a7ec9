-- ===== src/FastQuery.antt =====
-- planetmint/fastquery.py: the outputs of a public key, and which of them are spent.
pub mod Spent
use planetmint.Base.{
  ℕ, ◌+◌, String, Option, none, some, List, [], ◌∷◌, ◌++◌, map, Bool, true, false, not, any, keep,
  if◌then◌else◌,
}
use planetmint.Errors.{Result, ok, err, ◌>>=◌, or_raise, type_error, key_error}
use planetmint.Transaction.Link
use planetmint.Transaction.Link.{TransactionLink, LinkDict, points_to}
use planetmint.Transaction.Conditions.{condition_details_has_owner}
use planetmint.Transaction.Model.{OutputDict, InputDict, TransactionDict}
use planetmint.Backend.Mongo.{Mongo}
use planetmint.Backend.Query
use planetmint.Backend.Documents.{Connection}

-- `enumerate(tx['outputs'])`; a condition without details raises a `KeyError`
owned_from : Option String → String → ℕ → List OutputDict → Result (List TransactionLink)
owned_from txid public_key n [] = ok []
owned_from txid public_key n (o ∷ os) = do
  d ← or_raise o.details key_error
  rest ← owned_from txid public_key (n + 1) os
  ok (
      if condition_details_has_owner d public_key
      then record { txid = txid; output = some n } ∷ rest
      else rest)

owned_outputs : String → List TransactionDict → Result (List TransactionLink)
unfolding owned_from
owned_outputs public_key [] = ok []
owned_outputs public_key (tx ∷ txs) = do
  own ← owned_from tx.id public_key 0 tx.outputs
  rest ← owned_outputs public_key txs
  ok (own ++ rest)

-- `[o.to_dict() for o in outputs]`; the query raises a `TypeError` on None
abbrev pub link_dicts : List TransactionLink → Result (List LinkDict)
link_dicts [] = ok []
link_dicts (o ∷ os) = do d ← or_raise (Link.to_dict o) type_error; ds ← link_dicts os; ok (d ∷ ds)

-- the links of the inputs of the transactions
abbrev pub spent_links : List TransactionDict → List TransactionLink
spent_links [] = []
spent_links (tx ∷ txs) =
    map (λ (i : InputDict). Link.from_dict i.fulfills) tx.inputs ++ spent_links txs

-- `ff in spends`
abbrev pub is_in : List TransactionLink → TransactionLink → Bool
is_in spends ff = any (points_to ff.txid ff.output) spends

module _ (mongo : Mongo) where
  pub get_outputs_by_public_key : String → Connection mongo → Result (List TransactionLink)
  unfolding owned_outputs
  get_outputs_by_public_key public_key conn =
      owned_outputs public_key (Query.get_owned_ids mongo public_key conn)

  unfoldable pub filter_spent_outputs :
      List TransactionLink → Connection mongo → Result (List TransactionLink)
  filter_spent_outputs outputs conn = do
    links ← link_dicts outputs
    let spends = spent_links (Query.get_spending_transactions mongo links conn)
    ok (keep (λ ff. not (is_in spends ff)) outputs)

  pub filter_unspent_outputs :
      List TransactionLink → Connection mongo → Result (List TransactionLink)
  filter_unspent_outputs outputs conn = do
    links ← link_dicts outputs
    let spends = spent_links (Query.get_spending_transactions mongo links conn)
    ok (keep (λ ff. is_in spends ff) outputs)
