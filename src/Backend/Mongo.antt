-- ===== src/Backend/Mongo.antt =====
-- MongoDB as planetmint/backend/localmongodb uses it: collections of documents, reached through
-- pymongo. The operations are parameters; `MongoLaws` states what the program relies on.
use planetmint.Base.{
  ℕ, ◌≡◌, Bool, true, false, not, Option, none, some, List, [], ◌∷◌, ◌++◌, keep, ltb, if◌then◌else◌,
}

pub record Mongo : Type 1 where
  pub Collection : Type 0 → Type 0
  -- the documents that match, in natural order
  pub find : (D : Type 0) → (D → Bool) → Collection D → List D
  -- the first match, sorted by the key, descending
  pub find_latest : (D : Type 0) → (D → Bool) → (D → ℕ) → Collection D → Option D
  -- with whether a unique index refused a document
  pub insert_many : (D : Type 0) → List D → Collection D → Collection D × Bool
  -- `replace_one(…, upsert=True)`
  pub replace_one : (D : Type 0) → (D → Bool) → D → Collection D → Collection D
  pub delete_many : (D : Type 0) → (D → Bool) → Collection D → Collection D

module _ {D : Type 0} where
  -- the first document that matches gives way; where none does, the new one is added
  abbrev pub upsert : (D → Bool) → D → List D → List D
  upsert p new [] = new ∷ []
  upsert p new (d ∷ ds) = if p d then new ∷ ds else d ∷ upsert p new ds

  abbrev later : (D → ℕ) → D → Option D → D
  later key d none = d
  later key d (some e) = if ltb (key d) (key e) then e else d

  -- the document with the greatest key, the first of them in natural order
  abbrev pub latest : (D → ℕ) → List D → Option D
  latest key [] = none
  latest key (d ∷ ds) = some (later key d (latest key ds))

-- all documents of a collection
abbrev pub contents : (mongo : Mongo) (D : Type 0) → mongo.Collection D → List D
contents mongo D c = mongo.find D (λ d. true) c

pub record MongoLaws (mongo : Mongo) : Type 1 where
  pub find_law :
      (D : Type 0) (p : D → Bool) (c : mongo.Collection D)
      → mongo.find D p c ≡ keep p (contents mongo D c)
  pub find_latest_law :
      (D : Type 0) (p : D → Bool) (key : D → ℕ) (c : mongo.Collection D)
      → mongo.find_latest D p key c ≡ latest key (mongo.find D p c)
  pub insert_many_law :
      (D : Type 0) (ds : List D) (c : mongo.Collection D)
      → (mongo.insert_many D ds c).1 ≡ false
      → contents mongo D (mongo.insert_many D ds c).0 ≡ contents mongo D c ++ ds
  pub replace_one_law :
      (D : Type 0) (p : D → Bool) (new : D) (c : mongo.Collection D)
      → contents mongo D (mongo.replace_one D p new c) ≡ upsert p new (contents mongo D c)
  pub delete_many_law :
      (D : Type 0) (p : D → Bool) (c : mongo.Collection D)
      → contents mongo D (mongo.delete_many D p c) ≡ keep (λ d. not (p d)) (contents mongo D c)
