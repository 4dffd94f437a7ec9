-- ===== src/FastQuery/Spent.antt =====
-- The filters of FastQuery against all stored transactions.
use planetmint.Base.{
  ℕ, String, ◌≡◌, refl, ◌≢◌, All, All-weaken, sym, ap, subst, ◌∙◌, inl, inr, Option, none, some,
  List, [], ◌∷◌, ◌++◌, map, Bool, true, false, not, ◌&&◌, any, keep, and_true, any-map, keep-cong,
  arith, opt_eq, opt_eq_iff, if◌then◌else◌, Bool-cases,
}
use planetmint.Errors.{ok, or_raise, type_error, or_raise-eq-ok, >>=-eq-ok, ok-injective}
use planetmint.Transaction.Link
use planetmint.Transaction.Link.{TransactionLink, LinkDict, points_to}
use planetmint.Transaction.Model.{InputDict, TransactionDict}
use planetmint.Backend.Mongo.{Mongo, MongoLaws, contents}
use planetmint.Backend.Query
use planetmint.Backend.Documents.{Connection}
use planetmint.FastQuery.{
  link_dicts, spent_links, is_in, filter_spent_outputs, filter_unspent_outputs,
}

-- the condition of the query on a document
abbrev matches_link : List LinkDict → Option LinkDict → Bool
matches_link links f = elim f [
  | none ↦ false
  | some l ↦
      any (λ (k : LinkDict). opt_eq k.transaction_id l.transaction_id) links
      && any (λ (k : LinkDict). Link.opt_eqb k.output_index l.output_index) links
]

abbrev points_at : TransactionLink → InputDict → Bool
points_at o i = points_to o.txid o.output (Link.from_dict i.fulfills)

-- the dict of the output is among the links
abbrev is_link : TransactionLink → LinkDict → Bool
is_link o k = opt_eq k.transaction_id o.txid && Link.opt_eqb k.output_index o.output

abbrev IsListed : List LinkDict → TransactionLink → Type 0
IsListed links o = (Link.to_dict o ≢ none) × (any (is_link o) links ≡ true)

any-append :
    {A : Type 0} (p : A → Bool) (xs ys : List A)
    → any p (xs ++ ys) ≡ (if any p xs then true else any p ys)
any-append p [] ys = refl
any-append p (x ∷ xs) ys = ground (arith, any-append p xs ys)

in_append :
    (o : TransactionLink) (xs ys : List TransactionLink)
    → is_in (xs ++ ys) o ≡ (if is_in xs o then true else is_in ys o)
in_append o xs ys = any-append (points_to o.txid o.output) xs ys

abbrev links_of : TransactionDict → List TransactionLink
links_of tx = map (λ (i : InputDict). Link.from_dict i.fulfills) tx.inputs

in_links :
    (o : TransactionLink) (tx : TransactionDict)
    → is_in (links_of tx) o ≡ any (points_at o) tx.inputs
in_links o tx =
    any-map (points_to o.txid o.output) (λ (i : InputDict). Link.from_dict i.fulfills) tx.inputs

not_pointing : (b c : Bool) → (b ≡ true → c ≡ true) → c ≡ false → b ≡ false
not_pointing b c h e = ground arith

-- a transaction with no input that points to the output can be left out
drop_others :
    (o : TransactionLink) (q : TransactionDict → Bool) (txs : List TransactionDict)
    → ((tx : TransactionDict) → any (points_at o) tx.inputs ≡ true → q tx ≡ true)
    → is_in (spent_links (keep q txs)) o ≡ is_in (spent_links txs) o
drop_others o q [] h = refl
drop_others o q (tx ∷ txs) h = elim (Bool-cases (q tx)) [
  | inl e ↦ rw e (
      in_append o (links_of tx) (spent_links (keep q txs))
      ∙ ap (λ b. if is_in (links_of tx) o then true else b) (drop_others o q txs h)
      ∙ sym (in_append o (links_of tx) (spent_links txs)))
  | inr e ↦ rw e (
      drop_others o q txs h
      ∙ sym (
          in_append o (links_of tx) (spent_links txs)
          ∙ ap (λ b. if b then true else is_in (spent_links txs) o)
              (in_links o tx ∙ not_pointing _ _ (h tx) e)))
]

any-weaken :
    {A : Type 0} (p q : A → Bool) (xs : List A)
    → ((x : A) → p x ≡ true → q x ≡ true)
    → any p xs ≡ true
    → any q xs ≡ true
any-weaken p q [] f h = h
any-weaken p q (x ∷ xs) f h = elim (Bool-cases (p x)) [
  | inl e ↦ rw (f x e) refl
  | inr e ↦ elim (Bool-cases (q x)) [
    | inl d ↦ rw d refl
    | inr d ↦ rw d (any-weaken p q xs f (subst (λ b. (if b then true else any p xs) ≡ true) e h))
  ]
]

empty-to_dict :
    (t : Option String) (n : Option ℕ)
    → opt_eq none t && Link.opt_eqb none n ≡ true
    → Link.to_dict (record { txid = t; output = n }) ≡ none
unfolding Link.to_dict
empty-to_dict none none h = refl
empty-to_dict none (some n) h = cc
empty-to_dict (some t) n h = cc

-- an input that points to a listed output is what the query looks for
listed-matches :
    (links : List LinkDict) (o : TransactionLink) (f : Option LinkDict)
    → IsListed links o
    → points_to o.txid o.output (Link.from_dict f) ≡ true
    → matches_link links f ≡ true
unfolding Link.from_dict points_to
listed-matches links o none listed p = absurd (listed.0 (empty-to_dict o.txid o.output p))
listed-matches links o (some l) listed p =
    let both = and_true _ _ p in
    let tid = (opt_eq_iff l.transaction_id o.txid).0 both.0 in
    let out = Link.opt_eqb-eq l.output_index o.output both.1 in
    rw
      (
        tid,
        out,
        any-weaken (is_link o) (λ (k : LinkDict). opt_eq k.transaction_id o.txid) links
            (λ k h. (and_true _ _ h).0) listed.1,
        any-weaken (is_link o) (λ (k : LinkDict). Link.opt_eqb k.output_index o.output) links
            (λ k h. (and_true _ _ h).1) listed.1,
      )
      refl

own_link : (o : TransactionLink) (d : LinkDict) → Link.to_dict o ≡ some d → is_link o d ≡ true
unfolding Link.from_dict
own_link o d e =
    let same : Link.from_dict (some d) ≡ o = ap Link.from_dict (sym e) ∙ Link.from_dict-to_dict o in
    rw
      (
        (opt_eq_iff d.transaction_id o.txid).1 (ap (λ l. l.txid) same),
        ap (λ n. Link.opt_eqb n o.output) (ap (λ (l : TransactionLink). l.output) same),
        Link.opt_eqb_refl o.output,
      )
      refl

some_ne : {o : Option LinkDict} (d : LinkDict) → o ≡ some d → o ≢ none
some_ne d e n = absurd (subst (λ x. elim x [ none ↦ ⊥ | some y ↦ Unit ]) (sym e ∙ n) tt)

link_dicts-IsListed :
    (outputs : List TransactionLink) (links : List LinkDict)
    → link_dicts outputs ≡ ok links
    → All (IsListed links) outputs
link_dicts-IsListed [] links h = tt
link_dicts-IsListed (o ∷ os) links h =
    let (d, p, q) = >>=-eq-ok (or_raise (Link.to_dict o) type_error) _ h in
    let (ds, p', q') = >>=-eq-ok (link_dicts os) _ q in
    let found = or_raise-eq-ok (Link.to_dict o) type_error p in
    subst (λ l. All (IsListed l) (o ∷ os)) (ok-injective q')
      (
        (some_ne d found, rw (own_link o d found) refl),
        All-weaken (IsListed ds) (IsListed (d ∷ ds)) os
            (λ x listed. (listed.0, rw listed.1 (either (is_link x d))))
            (link_dicts-IsListed os ds p'),
      )
  where
    either : (b : Bool) → (if b then true else true) ≡ true
    either b = ground arith

module _ (mongo : Mongo) where
  -- an input of a stored transaction points to the output
  abbrev pub is_spent : Connection mongo → TransactionLink → Bool
  is_spent conn o = is_in (spent_links (contents mongo TransactionDict conn.transactions)) o

  found-is_spent :
      (laws : MongoLaws mongo) (links : List LinkDict) (conn : Connection mongo)
      (o : TransactionLink)
      → IsListed links o
      → is_in (spent_links (Query.get_spending_transactions mongo links conn)) o ≡ is_spent conn o
  unfolding Query.get_spending_transactions
  found-is_spent laws links conn o listed =
      ap (λ txs. is_in (spent_links txs) o) (laws.find_law TransactionDict _ conn.transactions)
      ∙ drop_others o (λ tx. any (λ (i : InputDict). matches_link links i.fulfills) tx.inputs)
          (contents mongo TransactionDict conn.transactions)
          (λ tx.
            any-weaken (points_at o) (λ (i : InputDict). matches_link links i.fulfills) tx.inputs
              (λ i. listed-matches links o i.fulfills listed))

  -- Given outputs none of which is the empty link, filter_spent_outputs keeps in order the outputs
  -- that no input of any stored transaction points to, and filter_unspent_outputs the others, under
  -- the laws of the collections.
  pub filters_by-is_spent :
      (laws : MongoLaws mongo) (outputs : List TransactionLink) (links : List LinkDict)
      (conn : Connection mongo)
      → link_dicts outputs ≡ ok links
      → (filter_spent_outputs mongo outputs conn ≡ ok (keep (λ o. not (is_spent conn o)) outputs))
        × (filter_unspent_outputs mongo outputs conn ≡ ok (keep (is_spent conn) outputs))
  unfolding filter_spent_outputs filter_unspent_outputs
  filters_by-is_spent laws outputs links conn h =
      let listed = link_dicts-IsListed outputs links h in
      (
        rw h (
            ap ok (
              keep-cong _ _ outputs (
                All-weaken (IsListed links) _ outputs
                  (λ o l. ap not (found-is_spent laws links conn o l)) listed))),
        rw h (
            ap ok (
              keep-cong _ _ outputs (
                All-weaken (IsListed links) _ outputs (λ o l. found-is_spent laws links conn o l)
                  listed))),
      )
