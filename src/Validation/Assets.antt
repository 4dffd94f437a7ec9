-- ===== src/Validation/Assets.antt =====
-- `get_asset_id`, and the links of the inputs.
use planetmint.Base.{
  String, ◌≡◌, refl, ap, subst, ◌∙◌, ◌↔◌, Option, List, [], ◌∷◌, arith, All, length, ltb, map, sym,
  if◌then◌else◌,
}
use planetmint.Base.Sets.{to_set, to_set→All-equal, All-equal→to_set}
use planetmint.Errors.{ok, ◌>>◌, raise_if, asset_id_mismatch, >>=-eq-ok, ok-injective}
use planetmint.Transaction.Model.{Transaction, is_create}
use planetmint.Validation.{Crypto, pop, referenced, asset_ids, get_asset_id}

module _ {F : Type 0} (crypto : Crypto F) where
  -- The asset that a transaction is about: its own id if it creates the asset, and the id that it
  -- refers to otherwise.
  abbrev pub IsAbout : Option String → Transaction F → Type 0
  IsAbout a tx = (if is_create tx.operation then ok tx.id else referenced crypto tx.asset) ≡ ok a

  -- At least one transaction, and all of them about the asset.
  abbrev pub ShareAsset : Option String → List (Transaction F) → Type 0
  ShareAsset a [] = ⊥
  ShareAsset a (tx ∷ txs) = All (IsAbout a) (tx ∷ txs)

  pub asset_ids→All :
      (a : Option String) (txs : List (Transaction F)) (ids : List (Option String))
      → asset_ids crypto txs ≡ ok ids
      → All (λ i. i ≡ a) ids
      → All (IsAbout a) txs
  unfolding asset_ids
  asset_ids→All a [] ids h e = tt
  asset_ids→All a (tx ∷ txs) ids h e =
      let (i, p, q) =
        >>=-eq-ok (if is_create tx.operation then ok tx.id else referenced crypto tx.asset) _ h in
      let (is, p', q') = >>=-eq-ok (asset_ids crypto txs) _ q in
      let e' : All (λ j. j ≡ a) (i ∷ is) = subst (All (λ j. j ≡ a)) (sym (ok-injective q')) e in
      (p ∙ ap ok e'.0, asset_ids→All a txs is p' e'.1)

  -- the ids of transactions that are all about one asset
  abbrev copies : Option String → List (Transaction F) → List (Option String)
  copies a txs = map (λ tx. a) txs

  All→asset_ids :
      (a : Option String) (txs : List (Transaction F))
      → All (IsAbout a) txs
      → asset_ids crypto txs ≡ ok (copies a txs)
  unfolding asset_ids
  All→asset_ids a [] h = refl
  All→asset_ids a (tx ∷ txs) h = rw (h.0, All→asset_ids a txs h.1)

  All-copies : (a : Option String) (txs : List (Transaction F)) → All (λ i. i ≡ a) (copies a txs)
  All-copies a [] = tt
  All-copies a (tx ∷ txs) = (refl, All-copies a txs)

  single :
      (xs : List (Option String)) (a : Option String)
      → (raise_if (ltb 1 (length xs)) asset_id_mismatch >> pop crypto xs) ≡ ok a
      → xs ≡ a ∷ []
  single [] a h = cc
  single (x ∷ []) a h = cc
  single (x ∷ y ∷ ys) a h = ground arith

  -- get_asset_id returns an asset id exactly if there is a transaction and all the transactions are
  -- about this asset.
  pub get_asset_id_iff-ShareAsset :
      (a : Option String) (txs : List (Transaction F))
      → (get_asset_id crypto txs ≡ ok a) ↔ ShareAsset a txs
  unfolding get_asset_id to_set
  get_asset_id_iff-ShareAsset a [] = (λ h. absurd (empty (single (to_set []) a h)), λ h. absurd h)
    where
      empty : to_set [] ≡ a ∷ [] → ⊥
      empty e = cc
  get_asset_id_iff-ShareAsset a (tx ∷ txs) = (
    λ h.
        let (ids, p, q) = >>=-eq-ok (asset_ids crypto (tx ∷ txs)) _ h in
        asset_ids→All a (tx ∷ txs) ids p (to_set→All-equal a ids (single (to_set ids) a q)),
    λ h.
        rw (All→asset_ids a (tx ∷ txs) h)
          (rw (All-equal→to_set a a (copies a txs) (All-copies a (tx ∷ txs)))),
  )
