-- ===== src/Config/Sources.antt =====
-- The environment against the configuration, and `autoconfigure` called again.
use planetmint.Base.{
  ◌≡◌, refl, sym, ap, subst, ◌∙◌, inl, inr, String, Bool, true, false, Option, none, some, List, [],
  ◌∷◌, ◌++◌, append_assoc, append-nil, ◌==◌, eq_iff, if_taken, if_refused, not, ◌&&◌, Bool-cases,
}
use planetmint.Errors.{Result, ok, >>=-eq-ok, ok-injective}
use planetmint.Json.{Json, null, bool, int, number, str, array, object, Fields, end, field}
use planetmint.Schema.{get}
use planetmint.Config.{
  Builtins, Module, set_item, map_leafs, map_leaf, env_config, load_from_env, or_environ, var_name,
  configured, is_configured, truthy, autoconfigure, update_config, update_types, update, as_fields,
  updated_from,
}
use planetmint.Config.Overlay.{leaf_at, get-set, set_item-object}

some-injective : {A : Type 0} {a b : A} → ◌≡◌ {A = Option A} (some a) (some b) → a ≡ b
some-injective h = cc

get-map_leafs :
    (f : Json → List String → Result Json) (pre : List String) (k : String) (c : Fields)
    {out : Fields} {val : Json}
    → map_leafs f pre c ≡ ok out
    → get k c ≡ some val
    → (m : Json) × (map_leaf f (pre ++ (k ∷ [])) val ≡ ok m) × (get k out ≡ some m)
unfolding map_leafs
get-map_leafs f pre k end h g = cc
get-map_leafs f pre k (field j v rest) {val = val} h g =
    let one = >>=-eq-ok (map_leaf f (pre ++ (j ∷ [])) v) _ h in
    let more = >>=-eq-ok (map_leafs f pre rest) _ one.2 in
    elim (Bool-cases (j == k)) [
      | inl same ↦
          let e = (eq_iff j k).0 same in
          let is_val = some-injective (sym (if_taken (j == k) (some v) (get k rest) same) ∙ g) in
          (
            one.0,
            subst (λ i. map_leaf f (pre ++ (i ∷ [])) val ≡ ok one.0) e
                (subst (λ x. map_leaf f (pre ++ (j ∷ [])) x ≡ ok one.0) is_val one.1),
            subst (λ x. get k x ≡ some one.0) (ok-injective more.2)
                (if_taken (j == k) (some one.0) (get k more.0) same),
          )
      | inr other ↦
          let found =
            get-map_leafs f pre k rest more.1
              (sym (if_refused (j == k) (some v) (get k rest) other) ∙ g) in
          (
            found.0,
            found.1,
            subst (λ x. get k x ≡ some found.0) (ok-injective more.2)
                (if_refused (j == k) (some one.0) (get k more.0) other ∙ found.2),
          )
    ]

or_environ-leaf :
    (o : Option String) (v : Json) {x : Json}
    → leaf_at [] v ≡ some x
    → leaf_at [] (or_environ o v) ≡ some (or_environ o x)
or_environ-leaf none v e = e
or_environ-leaf (some text) v e = refl

-- A leaf of the environment is what the variable says.
module _ (builtins : Builtins) (environ : String → Option String) where
  abbrev pub from_env : List String → Json → Json
  from_env path v = or_environ (environ (var_name builtins path)) v

  abbrev load : Json → List String → Result Json
  load = load_from_env builtins environ

  inner_leafs :
      (pre : List String) (inner : Fields) {m : Json}
      → map_leaf load pre (object inner) ≡ ok m
      → (out : Fields) × (map_leafs load pre inner ≡ ok out) × (object out ≡ m)
  unfolding map_leafs
  inner_leafs pre inner h =
      let one = >>=-eq-ok (map_leafs load pre inner) _ h in (one.0, one.1, ok-injective one.2)

  loaded_leaf :
      (v : Json) (path : List String) {m x : Json}
      → leaf_at [] v ≡ some x
      → load v path ≡ ok m
      → leaf_at [] m ≡ some (from_env path x)
  loaded_leaf v path {m} {x} e h =
      subst (λ w. leaf_at [] w ≡ some (from_env path x)) (ok-injective h)
        (or_environ-leaf (environ (var_name builtins path)) v e)

  load-from_env-leaf :
      (v : Json) (path : List String) {m x : Json}
      → leaf_at [] v ≡ some x
      → map_leaf load path v ≡ ok m
      → leaf_at [] m ≡ some (from_env path x)
  unfolding map_leafs
  load-from_env-leaf (object fields) path e h = cc
  load-from_env-leaf null path e h = loaded_leaf null path e h
  load-from_env-leaf (bool b) path e h = loaded_leaf (bool b) path e h
  load-from_env-leaf (int n) path e h = loaded_leaf (int n) path e h
  load-from_env-leaf (number n) path e h = loaded_leaf (number n) path e h
  load-from_env-leaf (str t) path e h = loaded_leaf (str t) path e h
  load-from_env-leaf (array items) path e h = loaded_leaf (array items) path e h

  -- what holds below every value of a mapping holds at a key of it
  below_key :
      (path : List String) (k : String) (pre : List String) (c : Fields) (o : Option Json)
      {out : Fields} {x : Json}
      → ((val m : Json)
          → map_leaf load (pre ++ (k ∷ [])) val ≡ ok m
          → leaf_at path val ≡ some x
          → leaf_at path m ≡ some (from_env ((pre ++ (k ∷ [])) ++ path) x))
      → get k c ≡ o
      → map_leafs load pre c ≡ ok out
      → elim o [ none ↦ none | some v ↦ leaf_at path v ] ≡ some x
      → leaf_at (k ∷ path) (object out) ≡ some (from_env (pre ++ (k ∷ path)) x)
  below_key path k pre c none ih g h e = cc
  below_key path k pre c (some val) {x = x} ih g h e =
      let found = get-map_leafs load pre k c h g in
      ap (λ o. elim o [ none ↦ none | some v ↦ leaf_at path v ]) found.2
      ∙ ih val found.0 found.1 e
      ∙ ap (λ p. some (from_env p x)) (append_assoc pre (k ∷ []) path)

  map_leaf-env :
      (path pre : List String) (val : Json) {m x : Json}
      → map_leaf load pre val ≡ ok m
      → leaf_at path val ≡ some x
      → leaf_at path m ≡ some (from_env (pre ++ path) x)
  map_leaf-env [] pre val {x = x} h e =
      load-from_env-leaf val pre e h ∙ ap (λ p. some (from_env p x)) (sym (append-nil pre))
  map_leaf-env (j ∷ q) pre (object inner) {x = x} h e =
      let one = inner_leafs pre inner h in
      ap (leaf_at (j ∷ q)) (sym one.2)
      ∙ below_key q j pre inner (get j inner) (λ val m. map_leaf-env q (pre ++ (j ∷ [])) val) refl
          one.1 e
  map_leaf-env (j ∷ q) pre null h e = cc
  map_leaf-env (j ∷ q) pre (bool b) h e = cc
  map_leaf-env (j ∷ q) pre (int n) h e = cc
  map_leaf-env (j ∷ q) pre (number n) h e = cc
  map_leaf-env (j ∷ q) pre (str t) h e = cc
  map_leaf-env (j ∷ q) pre (array items) h e = cc

  -- If env_config returns and the configuration has a leaf at a path, then the result has there the
  -- value of the environment variable named after the path, or the same leaf if there is no such
  -- variable.
  pub env_config-leaf :
      (path : List String) (k : String) (config : Fields) {out : Fields} {x : Json}
      → env_config builtins environ config ≡ ok out
      → leaf_at (k ∷ path) (object config) ≡ some x
      → leaf_at (k ∷ path) (object out) ≡ some (from_env (k ∷ path) x)
  unfolding env_config
  env_config-leaf path k config h e =
      below_key path k [] config (get k config) (λ val m. map_leaf-env path (k ∷ []) val) refl h e

-- Once set, the configuration is left alone.
module _ (builtins : Builtins) where
  marked-is_configured :
      (merged : Json) {c : Json}
      → set_item "CONFIGURED" (bool true) merged ≡ ok c
      → is_configured builtins c ≡ true
  marked-is_configured merged h =
      let fields = set_item-object "CONFIGURED" (bool true) merged h in
      ap (is_configured builtins) fields.2
      ∙ ap (λ o. elim o [ none ↦ false | some v ↦ truthy builtins v ])
          (get-set "CONFIGURED" "CONFIGURED" (bool true) fields.0)

  update_config-marks :
      (config : Fields) (m : Module) {after : Module}
      → update_config builtins config m ≡ ok after
      → is_configured builtins after.config ≡ true
  unfolding update_config
  update_config-marks config m h =
      let reference = >>=-eq-ok (as_fields builtins m.config) _ h in
      let typed = >>=-eq-ok (update_types builtins config reference.0) _ reference.2 in
      let merged = >>=-eq-ok (update m.config typed.0) _ typed.2 in
      let marked = >>=-eq-ok (set_item "CONFIGURED" (bool true) merged.0) _ merged.2 in
      subst (λ x. is_configured builtins x.config ≡ true) (ok-injective marked.2)
        (marked-is_configured merged.0 marked.1)

  configured-marks :
      (file : Result (Option Fields)) (environ : String → Option String) (config : Fields)
      (m : Module) {after : Module}
      → configured builtins file environ config m ≡ ok after
      → is_configured builtins after.config ≡ true
  unfolding configured
  configured-marks file environ config m h =
      let contents = >>=-eq-ok file _ h in
      let new = >>=-eq-ok (updated_from builtins m.config contents.0) _ contents.2 in
      let fields = >>=-eq-ok (as_fields builtins new.0) _ new.2 in
      let env = >>=-eq-ok (env_config builtins environ fields.0) _ fields.2 in
      let merged = >>=-eq-ok (update (object env.0) config) _ env.2 in
      let final = >>=-eq-ok (as_fields builtins merged.0) _ merged.2 in
      update_config-marks final.0 (record m { config = object m.defaults }) final.2

  and_right : (a b : Bool) → a && b ≡ true → b ≡ true
  and_right true b h = h
  and_right false b h = cc

  autoconfigure-marks :
      (file : Result (Option Fields)) (environ : String → Option String) (config : Fields)
      (force : Bool) (m : Module) {after : Module}
      → autoconfigure builtins file environ config force m ≡ ok after
      → is_configured builtins after.config ≡ true
  unfolding autoconfigure
  autoconfigure-marks file environ config force m h =
      let skips = not force && is_configured builtins m.config in
      elim (Bool-cases skips) [
        | inl skipped ↦
            subst (λ x. is_configured builtins x.config ≡ true)
              (ok-injective (
                sym (if_taken skips (ok m) (configured builtins file environ config m) skipped)
                ∙ h))
              (and_right (not force) (is_configured builtins m.config) skipped)
        | inr runs ↦
            configured-marks file environ config m
              (sym (if_refused skips (ok m) (configured builtins file environ config m) runs) ∙ h)
      ]

  -- After autoconfigure has returned the configuration counts as configured, and a later
  -- autoconfigure without force changes nothing, whatever the file, the environment and the
  -- argument are then.
  pub autoconfigure-once :
      (file file' : Result (Option Fields)) (environ environ' : String → Option String)
      (config config' : Fields) (force : Bool) (m : Module) {after : Module}
      → autoconfigure builtins file environ config force m ≡ ok after
      → (is_configured builtins after.config ≡ true)
        × (autoconfigure builtins file' environ' config' false after ≡ ok after)
  unfolding autoconfigure
  autoconfigure-once file file' environ environ' config config' force m {after} h =
      let marked = autoconfigure-marks file environ config force m h in
      (
        marked,
        if_taken (is_configured builtins after.config) (ok after)
            (configured builtins file' environ' config' after) marked,
      )
