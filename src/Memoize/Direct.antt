-- ===== src/Memoize/Direct.antt =====
-- Calls through the cache against calls of the function itself.
use planetmint.Base.{
  ℕ, zero, suc, subst, ◌≡◌, refl, sym, ◌∙◌, Bool, true, some, List, [], ◌∷◌, map, All, All-weaken,
  arith, Option-cases, Bool-cases, inl, inr, if◌then◌else◌,
}
use planetmint.Errors.{Result, ok, err, ◌>>◌}
use planetmint.Memoize.{
  find, without, first, maxsize, remembered, cached, keyed, memoized, has_id, hash_dict, same_id,
  memoize_from_dict, memoize_to_dict,
}
use planetmint.Transaction.Model.{Transaction, TransactionDict}

module _ {K V : Type 0} (equal : K → K → Bool) (func : K → Result V) where
  -- a later call that equals an earlier one is answered by the function in the same way
  abbrev pub Agree : List K → Type 0
  Agree [] = Unit
  Agree (k ∷ ks) = All (λ l. equal l k ≡ true → func l ≡ func k) ks × Agree ks

  -- what the entry holds is what the function returns, also for the calls to come that equal it
  abbrev Serves : List K → K × V → Type 0
  Serves ks (l, v) = (func l ≡ ok v) × All (λ k. equal k l ≡ true → func k ≡ func l) ks

  find-Serves :
      (ks : List K) (k : K) (cache : List (K × V)) (e : K × V)
      → All (Serves ks) cache
      → find equal k cache ≡ some e
      → (equal k e.0 ≡ true) × Serves ks e
  unfolding find
  find-Serves ks k [] e h found = cc
  find-Serves ks k ((l, v) ∷ rest) e h found = elim (Bool-cases (equal k l)) [
    | inl t ↦
        let same : (l, v) ≡ e = ground arith in
        subst (λ (x : K × V). (equal k x.0 ≡ true) × Serves ks x) same (t, h.0)
    | inr t ↦ find-Serves ks k rest e h.1 (ground arith)
  ]

  without-All :
      (P : K × V → Type 0) (k : K) (cache : List (K × V))
      → All P cache
      → All P (without equal k cache)
  unfolding without
  without-All P k [] h = tt
  without-All P k ((l, v) ∷ rest) h = elim (Bool-cases (equal k l)) [
    | inl e ↦ rw e h.1
    | inr e ↦ rw e (h.0, without-All P k rest h.1)
  ]

  first-All :
      (P : K × V → Type 0) (n : ℕ) (cache : List (K × V))
      → All P cache
      → All P (first equal n cache)
  unfolding first
  first-All P zero cache h = tt
  first-All P (suc n) [] h = tt
  first-All P (suc n) (e ∷ cache) h = (h.0, first-All P n cache h.1)

  -- the calls to come, one by one
  Serves-next :
      (k : K) (ks : List K) (cache : List (K × V))
      → All (Serves (k ∷ ks)) cache
      → All (Serves ks) cache
  Serves-next k ks cache h =
      All-weaken (Serves (k ∷ ks)) (Serves ks) cache (λ (l, v) s. (s.0, s.1.1)) h

  remembered-Serves :
      (k : K) (ks : List K) (cache : List (K × V)) (r : Result V)
      → func k ≡ r
      → Agree (k ∷ ks)
      → All (Serves (k ∷ ks)) cache
      → ((remembered equal k r cache).0 ≡ func k) × All (Serves ks) (remembered equal k r cache).1
  remembered-Serves k ks cache (err e) q agree h = (sym q, Serves-next k ks cache h)
  remembered-Serves k ks cache (ok v) q agree h = (
    sym q,
    first-All (Serves ks) maxsize ((k, v) ∷ cache) ((q, agree.0), Serves-next k ks cache h),
  )

  -- A call through the cache answers as the function, and what the cache holds then is served on.
  cached-Serves :
      (k : K) (ks : List K) (cache : List (K × V))
      → Agree (k ∷ ks)
      → All (Serves (k ∷ ks)) cache
      → ((cached equal func k cache).0 ≡ func k) × All (Serves ks) (cached equal func k cache).1
  unfolding cached
  cached-Serves k ks cache agree h = elim (Option-cases (find equal k cache)) [
    | inl missed ↦ rw missed (remembered-Serves k ks cache (func k) refl agree h)
    | inr (e, hit) ↦
        let (t, s) = find-Serves (k ∷ ks) k cache e h hit in
        rw hit (
          sym (s.1.0 t ∙ s.0),
          ((s.0, s.1.1), without-All (Serves ks) k cache (Serves-next k ks cache h)),
        )
  ]

-- the calls one after the other, from a cache
unfoldable pub answers :
    {K V : Type 0}
    → (K → List (K × V) → Result V × List (K × V))
    → List K
    → List (K × V)
    → List (Result V)
answers call [] cache = []
answers call (k ∷ ks) cache = let (answer, later) = call k cache in answer ∷ answers call ks later

-- the call without a cache, which has the hash taken all the same
abbrev pub direct :
    {K V : Type 0} → (K → Bool) → (K → Result (Unit {0})) → (K → Result V) → K → Result V
direct has_id hash func k = if has_id k then hash k >> func k else func k

module _ {K V : Type 0} (equal : K → K → Bool) (has_id : K → Bool) (hash : K → Result (Unit {0}))
    (func : K → Result V) where
  keyed-Serves :
      (k : K) (ks : List K) (cache : List (K × V)) (hashed : Result (Unit {0}))
      → Agree equal func (k ∷ ks)
      → All (Serves equal func (k ∷ ks)) cache
      → ((keyed equal hashed func k cache).0 ≡ (hashed >> func k))
        × All (Serves equal func ks) (keyed equal hashed func k cache).1
  keyed-Serves k ks cache (err e) agree h = (refl, Serves-next equal func k ks cache h)
  keyed-Serves k ks cache (ok t) agree h = cached-Serves equal func k ks cache agree h

  memoized-Serves :
      (k : K) (ks : List K) (cache : List (K × V))
      → Agree equal func (k ∷ ks)
      → All (Serves equal func (k ∷ ks)) cache
      → ((memoized equal has_id hash func k cache).0 ≡ direct has_id hash func k)
        × All (Serves equal func ks) (memoized equal has_id hash func k cache).1
  unfolding memoized
  memoized-Serves k ks cache agree h = elim (Bool-cases (has_id k)) [
    | inl t ↦ rw t (keyed-Serves k ks cache (hash k) agree h)
    | inr t ↦ rw t (refl, Serves-next equal func k ks cache h)
  ]

  pub answers-direct :
      (ks : List K) (cache : List (K × V))
      → Agree equal func ks
      → All (Serves equal func ks) cache
      → answers (memoized equal has_id hash func) ks cache ≡ map (direct has_id hash func) ks
  unfolding answers
  answers-direct [] cache agree h = refl
  answers-direct (k ∷ ks) cache agree h =
      let (same, served) = memoized-Serves k ks cache agree h in
      rw (same, answers-direct ks (memoized equal has_id hash func k cache).1 agree.1 served) refl

direct-unhashed :
    {K V : Type 0} (has_id : K → Bool) (func : K → Result V) (ks : List K)
    → map (direct has_id (λ k. ok tt) func) ks ≡ map func ks
direct-unhashed has_id func [] = refl
direct-unhashed has_id func (k ∷ ks) = elim (Bool-cases (has_id k)) [
  | inl e ↦ rw (e, direct-unhashed has_id func ks) refl
  | inr e ↦ rw (e, direct-unhashed has_id func ks) refl
]

module _ {F A : Type 0} where
  -- If each later call that Python takes for equal to an earlier one is answered by the function in
  -- the same way, then the calls of the memoized from_dict, from an empty cache, return and raise
  -- what the function does, except that an id that is not empty and not hexadecimal raises
  -- ValueError before the function is called.
  pub memoize_from_dict-direct :
      (equal : A × TransactionDict → A × TransactionDict → Bool)
      (func : A × TransactionDict → Result (Transaction F)) (calls : List (A × TransactionDict))
      → Agree equal func calls
      → answers (memoize_from_dict equal func) calls []
        ≡ map (direct (λ k. has_id k.1.id) (λ k. hash_dict k.1.id) func) calls
  unfolding memoize_from_dict
  memoize_from_dict-direct equal func calls agree =
      answers-direct equal (λ k. has_id k.1.id) (λ k. hash_dict k.1.id) func calls [] agree tt

  -- If transactions with the same id have the same dict, then the calls of the memoized to_dict, from an
  -- empty cache, are those of the function.
  memoize_to_dict-direct :
      (func : Transaction F → Result A) (txs : List (Transaction F))
      → Agree same_id func txs
      → answers (memoize_to_dict func) txs [] ≡ map func txs
  unfolding memoize_to_dict
  memoize_to_dict-direct func txs agree =
      answers-direct same_id (λ t. has_id t.id) (λ t. ok tt) func txs [] agree tt
      ∙ direct-unhashed (λ t. has_id t.id) func txs
