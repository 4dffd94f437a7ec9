-- ===== src/Node/Unspent.antt =====
-- `get_spent` of planetmint/lib.py over the collections, against all that is stored and pending.
use planetmint.Base.{
  ℕ, String, ◌≡◌, ◌≢◌, refl, sym, ap, subst, ◌∙◌, ◌↔◌, Option, none, some, List, [], true, false,
  ◌&&◌, any, any-false_iff, and_true, keep, All, All-weaken, false_iff,
}
use planetmint.Errors.{ok}
use planetmint.Transaction.Link
use planetmint.Transaction.Link.{TransactionLink, LinkDict, points_to, points_to_iff, is_truthy}
use planetmint.Transaction.Model.{Input, InputDict, Transaction, TransactionDict}
use planetmint.Validation.{Crypto, spends, get_spent}
use planetmint.Validation.Spent.{keep_nil_iff, get_spent-none_iff-IsUnspent}
use planetmint.Backend.Mongo.{Mongo, MongoLaws, contents}
use planetmint.Backend.Query
use planetmint.Backend.Query.{input_spends}
use planetmint.Backend.Documents.{Connection}
use planetmint.Node.{planet}

-- the two forms of the reference to an output
abbrev pub link_to : String → ℕ → TransactionLink
link_to txid output = record { txid = some txid; output = some output }

abbrev pub link_dict_to : String → ℕ → LinkDict
link_dict_to txid output = record { transaction_id = some txid; output_index = some output }

dict_iff :
    (t : String) (n : ℕ) (f : Option LinkDict)
    → (elim f [ none ↦ false | some l ↦ points_to (some t) (some n) (Link.from_dict (some l)) ]
        ≡ true)
      ↔ (f ≡ some (link_dict_to t n))
unfolding Link.from_dict
dict_iff t n none = (λ h. cc, λ h. cc)
dict_iff t n (some l) = (
  λ h.
      let same = (points_to_iff t n (Link.from_dict (some l))).0 h in
      ap
        (λ (k : TransactionLink).
          some (record { transaction_id = k.txid; output_index = k.output }))
        same,
  λ h. (points_to_iff t n (Link.from_dict (some l))).1 (ap Link.from_dict h),
)

some-injective :
    {l k : TransactionLink} → ◌≡◌ {A = Option TransactionLink} (some l) (some k) → l ≡ k
some-injective h = cc

link_iff :
    (t : String) (n : ℕ) (f : Option TransactionLink)
    → (elim f [ none ↦ false | some l ↦ is_truthy l && points_to (some t) (some n) l ] ≡ true)
      ↔ (f ≡ some (link_to t n))
unfolding is_truthy
link_iff t n none = (λ h. cc, λ h. cc)
link_iff t n (some l) = (
  λ h. ap some ((points_to_iff t n l).0 (and_true _ _ h).1),
  λ h.
      subst (λ k. is_truthy k && points_to (some t) (some n) k ≡ true) (sym (some-injective h))
        ((points_to_iff t n (link_to t n)).1 refl),
)

-- Nothing that an input of the documents or of the current transactions spends is the output.
pub record IsUnclaimed {F : Type 0} (documents : List TransactionDict)
    (current : List (Transaction F)) (txid : String) (output : ℕ) : Type 0 where
  pub stored :
      All
        (λ d. All (λ (i : InputDict). i.fulfills ≢ some (link_dict_to txid output)) d.inputs)
        documents
  pub pending :
      All (λ t. All (λ (i : Input F). i.fulfills ≢ some (link_to txid output)) t.inputs) current

module _ (t : String) (n : ℕ) where
  none_stored_iff :
      (ds : List TransactionDict)
      → (keep (λ d. any (input_spends (some t) (some n)) d.inputs) ds ≡ [])
        ↔ All (λ d. All (λ (i : InputDict). i.fulfills ≢ some (link_dict_to t n)) d.inputs) ds
  none_stored_iff ds = (
    λ h.
        All-weaken _ _ ds
          (λ (d : TransactionDict) e.
            All-weaken _ _ d.inputs (λ (i : InputDict). (false_iff _ (dict_iff t n i.fulfills)).0)
              ((any-false_iff (input_spends (some t) (some n)) d.inputs).0 e))
          ((keep_nil_iff (λ d. any (input_spends (some t) (some n)) d.inputs) ds).0 h),
    λ h. (keep_nil_iff (λ d. any (input_spends (some t) (some n)) d.inputs) ds).1 (
        All-weaken _ _ ds
          (λ (d : TransactionDict) e. (any-false_iff (input_spends (some t) (some n)) d.inputs).1 (
            All-weaken _ _ d.inputs (λ (i : InputDict). (false_iff _ (dict_iff t n i.fulfills)).1)
              e))
          h),
  )

  module _ {F : Type 0} (crypto : Crypto F) where
    none_pending_iff :
        (ts : List (Transaction F))
        → All (λ x. All (λ i. spends crypto (some t) (some n) i ≡ false) x.inputs) ts
          ↔ All (λ x. All (λ (i : Input F). i.fulfills ≢ some (link_to t n)) x.inputs) ts
    none_pending_iff ts = (
      All-weaken _ _ ts (λ (x : Transaction F).
          All-weaken _ _ x.inputs (λ (i : Input F). (false_iff _ (link_iff t n i.fulfills)).0)),
      All-weaken _ _ ts (λ (x : Transaction F).
          All-weaken _ _ x.inputs (λ (i : Input F). (false_iff _ (link_iff t n i.fulfills)).1)),
    )

    module _ (mongo : Mongo) (laws : MongoLaws mongo) where
      found-keep :
          (conn : Connection mongo)
          → Query.get_spent mongo (some t) (some n) conn
            ≡ keep
                (λ d. any (input_spends (some t) (some n)) d.inputs)
                (contents mongo TransactionDict conn.transactions)
      unfolding Query.get_spent
      found-keep conn = laws.find_law TransactionDict _ conn.transactions

      planet-spent :
          (conn : Connection mongo)
          → (planet crypto mongo conn).spent (some t) (some n)
            ≡ Query.get_spent mongo (some t) (some n) conn
      unfolding planet
      planet-spent conn = refl

      -- Under the laws of the collections, get_spent of the node answers None for an output of a
      -- transaction exactly if no input of a stored transaction and no input of a current
      -- transaction fulfills this very output.
      pub get_spent-none_iff-IsUnclaimed :
          (conn : Connection mongo) (current : List (Transaction F))
          → (get_spent crypto (planet crypto mongo conn) (some t) (some n) current ≡ ok none)
            ↔ IsUnclaimed (contents mongo TransactionDict conn.transactions) current t n
      get_spent-none_iff-IsUnclaimed conn current =
          let documents = contents mongo TransactionDict conn.transactions in
          let found = planet-spent conn ∙ found-keep conn in
          let both =
            get_spent-none_iff-IsUnspent crypto (planet crypto mongo conn) (some t) (some n)
              current in
          (
            λ h.
                let free = both.0 h in
                record {
                  stored = (none_stored_iff documents).0 (sym found ∙ free.stored);
                  pending = (none_pending_iff current).0 free.pending;
                },
            λ h. both.1 (record {
              stored = found ∙ (none_stored_iff documents).1 h.stored;
              pending = (none_pending_iff current).1 h.pending;
            }),
          )
