-- ===== src/Config/Overlay.antt =====
-- `update`, read leaf by leaf.
use planetmint.Base.{
  ◌≡◌, refl, sym, ap, subst, ◌∙◌, inl, inr, String, Option, none, some, List, [], ◌∷◌, ◌==◌, eq_iff,
  if◌then◌else◌, if_taken, if_refused, Bool-cases, arith,
}
use planetmint.Errors.{ok, >>=-eq-ok, ok-injective}
use planetmint.Json.{Json, null, bool, int, number, str, array, object, Fields, end, field}
use planetmint.Schema.{get}
use planetmint.Config.{set, set_item, get_or_empty, update, value_for}

-- The value at the end of the path, if it is no dict.
abbrev pub leaf_at : List String → Json → Option Json
leaf_at [] (object fields) = none
leaf_at [] v = some v
leaf_at (k ∷ path) (object fields) = elim (get k fields) [ none ↦ none | some v ↦ leaf_at path v ]
leaf_at (k ∷ path) v = none

-- the dict under the key, or an empty one
abbrev child : String → Json → Json
child k (object fields) = elim (get k fields) [ none ↦ object end | some v ↦ v ]
child k v = object end

abbrev pick : Option Json → Option Json → (Fields → Option Json) → List String → Option Json
pick none old below path = old
pick (some (object fields)) old below path = below fields
pick (some v) old below path = leaf_at path v

-- What is at the path in the first, overlaid with the second: a leaf of the second hides what the
-- first has there and below; where the second has nothing, the first is seen.
abbrev pub overlaid : List String → Json → Fields → Option Json
overlaid [] d u = leaf_at [] d
overlaid (k ∷ path) d u =
    pick (get k u) (leaf_at (k ∷ path) d) (λ fields. overlaid path (child k d) fields) path

-- No dict has a key twice.
abbrev mutual
  pub IsProper : Fields → Type 0
  IsProper end = Unit
  IsProper (field k v rest) = (get k rest ≡ none) × IsProperValue v × IsProper rest

  pub IsProperValue : Json → Type 0
  IsProperValue (object fields) = IsProper fields
  IsProperValue v = Unit

pub get-set :
    (k j : String) (v : Json) (fields : Fields)
    → get j (set k v fields) ≡ (if k == j then some v else get j fields)
get-set k j v end = refl
get-set k j v (field i w rest) =
    ground (arith, eq_iff k j, eq_iff i k, eq_iff i j, get-set k j v rest)

-- An item was set, so it was in a dict.
pub set_item-object :
    (k : String) (r d : Json) {next : Json}
    → set_item k r d ≡ ok next
    → (fields : Fields) × (d ≡ object fields) × (next ≡ object (set k r fields))
set_item-object k r (object fields) h = (fields, refl, sym (ok-injective h))
set_item-object k r null h = cc
set_item-object k r (bool b) h = cc
set_item-object k r (int n) h = cc
set_item-object k r (number n) h = cc
set_item-object k r (str t) h = cc
set_item-object k r (array items) h = cc

get_or_empty-child :
    (k : String) (d : Json) {below : Json} → get_or_empty k d ≡ ok below → below ≡ child k d
get_or_empty-child k (object fields) h = sym (ok-injective h)
get_or_empty-child k null h = cc
get_or_empty-child k (bool b) h = cc
get_or_empty-child k (int n) h = cc
get_or_empty-child k (number n) h = cc
get_or_empty-child k (str t) h = cc
get_or_empty-child k (array items) h = cc

-- the overlay below one key, by what the key has in each
abbrev seen : Option Json → Option Json → List String → Option Json
seen upper lower q =
    pick upper (elim lower [ none ↦ none | some v ↦ leaf_at q v ])
      (λ fields. overlaid q (elim lower [ none ↦ object end | some v ↦ v ]) fields) q

-- What one round sets is what the overlay shows under the key.
step :
    (k j : String) (q : List String) (v r : Json) (rest fields : Fields)
    → get k rest ≡ none
    → leaf_at q r ≡ seen (some v) (get k fields) q
    → seen (get j rest) (get j (set k r fields)) q
      ≡ seen (if k == j then some v else get j rest) (get j fields) q
step k j q v r rest fields fresh shown = elim (Bool-cases (k == j)) [
  | inl same ↦
      let e = (eq_iff k j).0 same in
      ap (λ o. seen (get j rest) o q)
        (get-set k j r fields ∙ if_taken (k == j) (some r) (get j fields) same)
      ∙ ap (λ o. seen o (some r) q) (subst (λ i. get i rest ≡ none) e fresh)
      ∙ subst (λ i. leaf_at q r ≡ seen (some v) (get i fields) q) e shown
      ∙ ap (λ o. seen o (get j fields) q) (sym (if_taken (k == j) (some v) (get j rest) same))
  | inr other ↦
      ap (λ o. seen (get j rest) o q)
        (get-set k j r fields ∙ if_refused (k == j) (some r) (get j fields) other)
      ∙ ap (λ o. seen o (get j fields) q) (sym (if_refused (k == j) (some v) (get j rest) other))
]

object_leaf : (d : Json) (fields : Fields) → d ≡ object fields → leaf_at [] d ≡ none
object_leaf d fields e = ap (leaf_at []) e

overlaid-end : (path : List String) (d : Json) → overlaid path d end ≡ leaf_at path d
overlaid-end [] d = refl
overlaid-end (k ∷ path) d = refl

one_round :
    (path : List String) (k : String) (v r d next : Json) (rest fields : Fields)
    → d ≡ object fields
    → next ≡ object (set k r fields)
    → get k rest ≡ none
    → ((q : List String) → leaf_at q r ≡ seen (some v) (get k fields) q)
    → overlaid path next rest ≡ overlaid path d (field k v rest)
one_round [] k v r d next rest fields e e' fresh shown =
    object_leaf next (set k r fields) e' ∙ sym (object_leaf d fields e)
one_round (j ∷ q) k v r d next rest fields e e' fresh shown =
    ap (λ x. overlaid (j ∷ q) x rest) e'
    ∙ step k j q v r rest fields fresh (shown q)
    ∙ sym (ap (λ x. overlaid (j ∷ q) x (field k v rest)) e)

mutual
  unfolding update

  overlaid-update :
      (u : Fields) (d : Json) (path : List String) {next : Json}
      → IsProper u
      → update d u ≡ ok next
      → leaf_at path next ≡ overlaid path d u
  overlaid-update end d path proper h =
      ap (leaf_at path) (sym (ok-injective h)) ∙ sym (overlaid-end path d)
  overlaid-update (field k v rest) d path {next} proper h =
      let below = >>=-eq-ok (value_for d k v) _ h in
      let one = >>=-eq-ok (set_item k below.0 d) _ below.2 in
      let before = set_item-object k below.0 d one.1 in
      let after = overlaid-update rest one.0 path proper.2 one.2 in
      after
      ∙ one_round path k v below.0 d one.0 rest before.0 before.1 before.2 proper.0
          (λ q. value_for-overlaid v d k q before.0 before.1 proper.1 below.1)

  value_for-overlaid :
      (v d : Json) (k : String) (q : List String) {r : Json} (fields : Fields)
      → d ≡ object fields
      → IsProperValue v
      → value_for d k v ≡ ok r
      → leaf_at q r ≡ seen (some v) (get k fields) q
  value_for-overlaid (object inner) d k q fields e proper h =
      let below = >>=-eq-ok (get_or_empty k d) _ h in
      overlaid-update inner below.0 q proper below.2
      ∙ ap (λ x. overlaid q x inner) (get_or_empty-child k d below.1 ∙ ap (child k) e)
  value_for-overlaid null d k q fields e proper h = ap (leaf_at q) (sym (ok-injective h))
  value_for-overlaid (bool b) d k q fields e proper h = ap (leaf_at q) (sym (ok-injective h))
  value_for-overlaid (int n) d k q fields e proper h = ap (leaf_at q) (sym (ok-injective h))
  value_for-overlaid (number n) d k q fields e proper h = ap (leaf_at q) (sym (ok-injective h))
  value_for-overlaid (str t) d k q fields e proper h = ap (leaf_at q) (sym (ok-injective h))
  value_for-overlaid (array items) d k q fields e proper h = ap (leaf_at q) (sym (ok-injective h))

-- If the second dict has no key twice and update returns, then at every path the result has the
-- leaf that the overlay of the first dict by the second has there.
pub update-overlaid :
    (u : Fields) (d : Json) (path : List String) {next : Json}
    → IsProper u
    → update d u ≡ ok next
    → leaf_at path next ≡ overlaid path d u
update-overlaid u d path proper h = overlaid-update u d path proper h
