-- ===== src/Validation/Spent.antt =====
-- `get_spent`: when an output counts as spent.
use planetmint.Base.{
  ℕ, String, ◌≡◌, refl, ◌↔◌, Option, none, List, [], ◌∷◌, ◌++◌, map, Bool, false, arith, keep,
  length, ltb, ◌+◌, All,
}
use planetmint.Errors.{ok, ◌>>◌, raise_if, critical_double_spend, double_spend}
use planetmint.Transaction.Model.{Transaction, TransactionDict}
use planetmint.Validation.{Crypto, Planet, spends, spender, current_spends, get_spent}

pub keep_nil_iff :
    {A : Type 0} (p : A → Bool) (xs : List A) → (keep p xs ≡ []) ↔ All (λ x. p x ≡ false) xs
keep_nil_iff p [] = (λ h. tt, λ h. refl)
keep_nil_iff p (x ∷ xs) =
    (λ h. ground (arith, (keep_nil_iff p xs).0), λ h. ground (arith, (keep_nil_iff p xs).1 h.1))

module _ {F : Type 0} (crypto : Crypto F) where
  -- Nothing in the store and no input of the current transactions spends the output.
  pub record IsUnspent (planet : Planet F) (current : List (Transaction F)) (txid : Option String)
      (output : Option ℕ) : Type 0 where
    pub stored : planet.spent txid output ≡ []
    pub pending : All (λ ctxn. All (λ i. spends crypto txid output i ≡ false) ctxn.inputs) current

  map_nil : {A B : Type 0} (f : A → B) (xs : List A) → map f xs ≡ [] → xs ≡ []
  map_nil f [] h = refl
  map_nil f (x ∷ xs) h = cc

  append_nil : {A : Type 0} (xs ys : List A) → xs ++ ys ≡ [] → (xs ≡ []) × (ys ≡ [])
  append_nil [] ys h = (refl, h)
  append_nil (x ∷ xs) ys h = cc

  pub current_spends_nil_iff :
      (txid : Option String) (output : Option ℕ) (current : List (Transaction F))
      → (current_spends crypto txid output current ≡ [])
        ↔ All (λ ctxn. All (λ i. spends crypto txid output i ≡ false) ctxn.inputs) current
  unfolding current_spends
  current_spends_nil_iff txid output [] = (λ h. tt, λ h. refl)
  current_spends_nil_iff txid output (t ∷ ts) = (
    λ h.
        let (p, q) = append_nil (map (λ i. t) (keep (spends crypto txid output) t.inputs)) _ h in
        (
          (keep_nil_iff (spends crypto txid output) t.inputs).0 (map_nil _ _ p),
          (current_spends_nil_iff txid output ts).0 q,
        ),
    λ h.
        rw ((keep_nil_iff (spends crypto txid output) t.inputs).1 h.0)
          ((current_spends_nil_iff txid output ts).1 h.1),
  )

  both_nil :
      (planet : Planet F) (ds : List TransactionDict) (ts : List (Transaction F))
      → (raise_if (ltb 1 (length ds)) critical_double_spend
          >> (raise_if (ltb 1 (length ds + length ts)) double_spend >> spender crypto planet ds ts))
        ≡ ok none
      → (ds ≡ []) × (ts ≡ [])
  both_nil planet [] [] h = (refl, refl)
  both_nil planet [] (t ∷ ts) h = ground arith
  both_nil planet (d ∷ ds) ts h = ground arith

  -- get_spent answers None exactly if no stored transaction and no input of the current
  -- transactions spends the output.
  pub get_spent-none_iff-IsUnspent :
      (planet : Planet F) (txid : Option String) (output : Option ℕ)
      (current : List (Transaction F))
      → (get_spent crypto planet txid output current ≡ ok none)
        ↔ IsUnspent planet current txid output
  unfolding get_spent
  get_spent-none_iff-IsUnspent planet txid output current = (
    λ h.
        let (p, q) =
          both_nil planet (planet.spent txid output) (current_spends crypto txid output current)
            h in
        record { stored = p; pending = (current_spends_nil_iff txid output current).0 q },
    λ h. rw (h.stored, (current_spends_nil_iff txid output current).1 h.pending) refl,
  )
