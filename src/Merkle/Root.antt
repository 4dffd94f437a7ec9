-- ===== src/Merkle/Root.antt =====
-- The root of a list of hashes, over the levels of the tree.
use planetmint.Base.{
  ℕ, zero, suc, ◌*◌, ◌%◌, ◌^◌, ◌≤◌, ◌≡◌, ◌≢◌, refl, sym, ap, ◌∙◌, ◌⊎◌, inl, inr, String, Option,
  some, List, [], ◌∷◌, length, arith, Bool-cases, ◌==◌, eq_iff,
}
use planetmint.Merkle.{Hashing, parent, merkleroot, append_last}
use planetmint.Merkle.Levels.{level, length-level, parent_hashes-padded, level-append_last}

cons-injective : {a b : String} {xs ys : List String} → (a ∷ xs) ≡ (b ∷ ys) → (a ≡ b) × (xs ≡ ys)
cons-injective h = (cc, cc)

some-injective : {a b : String} → ◌≡◌ {A = Option String} (some a) (some b) → a ≡ b
some-injective h = cc

module _ (hashing : Hashing) where
  merkleroot-level :
      (fuel : ℕ) (h k : String) (hashes : List String)
      → merkleroot hashing (suc fuel) (h ∷ k ∷ hashes)
        ≡ merkleroot hashing fuel (level hashing (h ∷ k ∷ hashes))
  unfolding merkleroot
  merkleroot-level fuel h k hashes =
      ap (merkleroot hashing fuel) (parent_hashes-padded hashing (h ∷ k ∷ hashes))

  halved :
      (k : ℕ) (hashes : List String)
      → length hashes ≤ 2 ^ suc k
      → length (level hashing hashes) ≤ 2 ^ k
  halved k hashes few =
      let double : 2 ^ suc k ≡ 2 * 2 ^ k = omega arith in
      omega (arith, double, length-level hashing hashes)

  -- The recursion of merkleroot ends: for at most 2 ^ k hashes, k + 1 calls return a root.
  pub merkleroot-returns :
      (k : ℕ) (hashes : List String)
      → length hashes ≤ 2 ^ k
      → (root : String) × (merkleroot hashing (suc k) hashes ≡ some root)
  unfolding merkleroot
  merkleroot-returns k [] few = (_, refl)
  merkleroot-returns k (h ∷ []) few = (_, refl)
  merkleroot-returns zero (h ∷ i ∷ hashes) few = absurd (omega arith)
  merkleroot-returns (suc k) (h ∷ i ∷ hashes) few =
      let above =
        merkleroot-returns k (level hashing (h ∷ i ∷ hashes)) (halved k (h ∷ i ∷ hashes) few) in
      (above.0, merkleroot-level (suc k) h i hashes ∙ above.1)

  -- Two different pairs of hashes with the same parent, at the same place of one level of the two
  -- trees; a last hash without a neighbour is a pair with itself.
  pub data LevelClash : List String → List String → Type 0 where
    here :
        {a b c d : String} {xs ys : List String}
        → parent hashing a b ≡ parent hashing c d
        → (a ≢ c) ⊎ (b ≢ d)
        → LevelClash (a ∷ b ∷ xs) (c ∷ d ∷ ys)
    alone :
        {a c : String}
        → parent hashing a a ≡ parent hashing c c
        → a ≢ c
        → LevelClash (a ∷ []) (c ∷ [])
    there :
        {a b c d : String} {xs ys : List String}
        → LevelClash xs ys
        → LevelClash (a ∷ b ∷ xs) (c ∷ d ∷ ys)

  -- Such pairs on a level of the trees over the two lists that merkleroot computes.
  pub data Clash : List String → List String → Type 0 where
    at_level :
        {a b c d : String} {xs ys : List String}
        → LevelClash (a ∷ b ∷ xs) (c ∷ d ∷ ys)
        → Clash (a ∷ b ∷ xs) (c ∷ d ∷ ys)
    above :
        {a b c d : String} {xs ys : List String}
        → Clash (level hashing (a ∷ b ∷ xs)) (level hashing (c ∷ d ∷ ys))
        → Clash (a ∷ b ∷ xs) (c ∷ d ∷ ys)

  same_text : (a c : String) → (a ≡ c) ⊎ (a ≢ c)
  same_text a c = elim (Bool-cases (a == c)) [
    | inl left ↦ inl ((eq_iff a c).0 left)
    | inr left ↦ inr (λ e. absurd (ground (arith, eq_iff a c)))
  ]

  level-binding :
      (xs ys : List String)
      → length xs ≡ length ys
      → level hashing xs ≡ level hashing ys
      → (xs ≡ ys) ⊎ LevelClash xs ys
  level-binding [] [] n same = inl refl
  level-binding (a ∷ []) (c ∷ []) n same = elim (same_text a c) [
    | inl e ↦ inl (ap (λ x. x ∷ []) e)
    | inr e ↦ inr (alone (cons-injective same).0 e)
  ]
  level-binding (a ∷ b ∷ xs) (c ∷ d ∷ ys) n same = elim (same_text a c) [
    | inl e ↦ elim (same_text b d) [
      | inl f ↦ elim (level-binding xs ys (omega arith) (cons-injective same).1) [
        | inl rest ↦ inl (cc (e, f, rest))
        | inr found ↦ inr (there found)
      ]
      | inr f ↦ inr (here (cons-injective same).0 (inr f))
    ]
    | inr e ↦ inr (here (cons-injective same).0 (inl e))
  ]
  level-binding [] (c ∷ ys) n same = absurd (omega arith)
  level-binding (a ∷ []) [] n same = absurd (omega arith)
  level-binding (a ∷ []) (c ∷ d ∷ ys) n same = absurd (omega arith)
  level-binding (a ∷ b ∷ xs) [] n same = absurd (omega arith)
  level-binding (a ∷ b ∷ xs) (c ∷ []) n same = absurd (omega arith)

  length-level_same :
      (xs ys : List String)
      → length xs ≡ length ys
      → length (level hashing xs) ≡ length (level hashing ys)
  length-level_same [] [] n = refl
  length-level_same (a ∷ []) (c ∷ []) n = refl
  length-level_same (a ∷ b ∷ xs) (c ∷ d ∷ ys) n = ap suc (length-level_same xs ys (omega arith))
  length-level_same [] (c ∷ ys) n = absurd (omega arith)
  length-level_same (a ∷ []) [] n = absurd (omega arith)
  length-level_same (a ∷ []) (c ∷ d ∷ ys) n = absurd (omega arith)
  length-level_same (a ∷ b ∷ xs) [] n = absurd (omega arith)
  length-level_same (a ∷ b ∷ xs) (c ∷ []) n = absurd (omega arith)

  -- If hexlify is injective, two lists of hashes of the same length that have the same root are
  -- equal, or on some level of the two trees that merkleroot computes over them there are, at the
  -- same place, two different pairs of hashes with the same parent.
  pub merkleroot-binding :
      (fuel : ℕ) (xs ys : List String) {root : String}
      → ((a b : String) → hashing.hexlify a ≡ hashing.hexlify b → a ≡ b)
      → length xs ≡ length ys
      → merkleroot hashing fuel xs ≡ some root
      → merkleroot hashing fuel ys ≡ some root
      → (xs ≡ ys) ⊎ Clash xs ys
  unfolding merkleroot
  merkleroot-binding zero xs ys hex n p q = cc
  merkleroot-binding (suc fuel) [] [] hex n p q = inl refl
  merkleroot-binding (suc fuel) (a ∷ []) (c ∷ []) hex n p q =
      inl (ap (λ x. x ∷ []) (hex a c (some-injective (p ∙ sym q))))
  merkleroot-binding (suc fuel) (a ∷ b ∷ xs) (c ∷ d ∷ ys) hex n p q =
      elim (merkleroot-binding fuel (level hashing (a ∷ b ∷ xs)) (level hashing (c ∷ d ∷ ys)) hex
        (length-level_same (a ∷ b ∷ xs) (c ∷ d ∷ ys) n) (sym (merkleroot-level fuel a b xs) ∙ p)
        (sym (merkleroot-level fuel c d ys) ∙ q)) [
          | inl same ↦ elim (level-binding (a ∷ b ∷ xs) (c ∷ d ∷ ys) n same) [
            | inl equal ↦ inl equal
            | inr found ↦ inr (at_level found)
          ]
          | inr found ↦ inr (above found)
        ]
  merkleroot-binding (suc fuel) [] (c ∷ ys) hex n p q = absurd (omega arith)
  merkleroot-binding (suc fuel) (a ∷ []) [] hex n p q = absurd (omega arith)
  merkleroot-binding (suc fuel) (a ∷ []) (c ∷ d ∷ ys) hex n p q = absurd (omega arith)
  merkleroot-binding (suc fuel) (a ∷ b ∷ xs) [] hex n p q = absurd (omega arith)
  merkleroot-binding (suc fuel) (a ∷ b ∷ xs) (c ∷ []) hex n p q = absurd (omega arith)

  -- An odd number of at least three hashes, and the same hashes with the last one twice, have the
  -- same root.
  pub merkleroot-append_last :
      (fuel : ℕ) (a b c : String) (rest : List String)
      → length (c ∷ rest) % 2 ≡ 1
      → merkleroot hashing (suc fuel) (append_last (a ∷ b ∷ c ∷ rest))
        ≡ merkleroot hashing (suc fuel) (a ∷ b ∷ c ∷ rest)
  merkleroot-append_last fuel a b c rest odd =
      merkleroot-level fuel a b (append_last (c ∷ rest))
      ∙ ap (merkleroot hashing fuel) (level-append_last hashing (a ∷ b ∷ c ∷ rest) (omega arith))
      ∙ sym (merkleroot-level fuel a b (c ∷ rest))
