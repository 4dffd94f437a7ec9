-- ===== src/Tests/Roots.antt =====
-- Merkle roots of concrete lists.
use Prim.Native.String
use planetmint.Base.{◌≡◌, refl, ◌⊎◌, String, some, List, [], ◌∷◌, arith}
use planetmint.Merkle.{Hashing, merkleroot}
use planetmint.Merkle.Root.{merkleroot-returns, merkleroot-binding, merkleroot-append_last, Clash}

-- a hash that shows what it is the hash of
abbrev hashing : Hashing
hashing = record {
  sha3_256 = λ t. String.◌++◌ "(" (String.◌++◌ t ")");
  hexlify = λ t. t;
  sorted = λ hashes. hashes;
}

abbrev leaves : List String
leaves = "a" ∷ "b" ∷ "c" ∷ []

root_of_three : merkleroot hashing 3 leaves ≡ some "((ab)(cc))"
unfolding merkleroot
root_of_three = refl

root_of_none : merkleroot hashing 1 [] ≡ some "()"
unfolding merkleroot
root_of_none = refl

merkleroot-returns_example : (root : String) × (merkleroot hashing 3 leaves ≡ some root)
merkleroot-returns_example = merkleroot-returns hashing 2 leaves (omega arith)

-- a hash that is the same for every text
abbrev blind : Hashing
blind = record { sha3_256 = λ t. "#"; hexlify = λ t. t; sorted = λ hashes. hashes }

abbrev a_and : String → List String
a_and t = "a" ∷ t ∷ []

merkleroot-binding_example : (a_and "b" ≡ a_and "c") ⊎ Clash blind (a_and "b") (a_and "c")
unfolding merkleroot
merkleroot-binding_example =
    merkleroot-binding blind 2 (a_and "b") (a_and "c") {root = "#"} (λ a b e. e) refl refl refl

merkleroot-append_last_example :
    merkleroot hashing 3 ("a" ∷ "b" ∷ "c" ∷ "c" ∷ []) ≡ merkleroot hashing 3 leaves
merkleroot-append_last_example = merkleroot-append_last hashing 2 "a" "b" "c" [] refl
