-- ===== src/Merkle/Levels.antt =====
-- One level of the tree: what padding and pairing do together.
use planetmint.Base.{
  ◌+◌, ◌*◌, ◌%◌, ◌≤◌, ◌≡◌, refl, ap, inl, inr, String, List, [], ◌∷◌, length, eqb, eqb_iff, arith,
  Bool-cases,
}
use planetmint.Merkle.{Hashing, parent, parent_hashes, append_last, padded}

module _ (hashing : Hashing) where
  -- Neighbours are hashed together, and a last one without a neighbour with itself.
  abbrev pub level : List String → List String
  level [] = []
  level (a ∷ []) = parent hashing a a ∷ []
  level (a ∷ b ∷ rest) = parent hashing a b ∷ level rest

  even-level :
      (hashes : List String) → length hashes % 2 ≡ 0 → parent_hashes hashing hashes ≡ level hashes
  even-level [] h = refl
  even-level (a ∷ []) h = absurd (omega arith)
  even-level (a ∷ b ∷ rest) h = ap (λ l. parent hashing a b ∷ l) (even-level rest (omega arith))

  odd-level :
      (hashes : List String)
      → length hashes % 2 ≡ 1
      → parent_hashes hashing (append_last hashes) ≡ level hashes
  odd-level [] h = absurd (omega arith)
  odd-level (a ∷ []) h = refl
  odd-level (a ∷ b ∷ []) h = absurd (omega arith)
  odd-level (a ∷ b ∷ c ∷ rest) h =
      ap (λ l. parent hashing a b ∷ l) (odd-level (c ∷ rest) (omega arith))

  pub parent_hashes-padded :
      (hashes : List String) → parent_hashes hashing (padded hashes) ≡ level hashes
  parent_hashes-padded hashes = elim (Bool-cases (eqb (length hashes % 2) 1)) [
    | inl odd ↦ rw (odd, odd-level hashes ((eqb_iff (length hashes % 2) 1).0 odd)) refl
    | inr even ↦ rw (even, even-level hashes (ground (arith, eqb_iff (length hashes % 2) 1))) refl
  ]

  pub length-level : (hashes : List String) → 2 * length (level hashes) ≤ length hashes + 1
  length-level [] = omega arith
  length-level (a ∷ []) = omega arith
  length-level (a ∷ b ∷ rest) = omega (arith, length-level rest)

  -- The last of an odd number of hashes may stand twice without a trace.
  pub level-append_last :
      (hashes : List String) → length hashes % 2 ≡ 1 → level (append_last hashes) ≡ level hashes
  level-append_last [] h = refl
  level-append_last (a ∷ []) h = refl
  level-append_last (a ∷ b ∷ []) h = absurd (omega arith)
  level-append_last (a ∷ b ∷ c ∷ rest) h =
      ap (λ l. parent hashing a b ∷ l) (level-append_last (c ∷ rest) (omega arith))
