-- ===== src/Connection/Queries.antt =====
-- A query that is recorded on a lazy object, and what running it does.
use planetmint.Base.{◌≡◌, refl, sym, ap, ◌∙◌, ℕ, String, some, List, [], ◌∷◌, ◌++◌, append_assoc}
use planetmint.Connection.{
  Outcome, value, raised, auto_reconnect, Driver, name, called, Connection, Lazy, get_attribute,
  call_with, get_item, ◌followed_by◌, replay, run_lazy, run, answer, play, emptied, retried,
}

module _ (driver : Driver) where
  open driver use {World, Object, Args}

  -- One link of an expression such as `client["bigchain"]["assets"].find(…)`.
  pub data Link : Type 0 where
    attribute : String → Link
    calling : Args → Link
    item : String → Link

  -- the expression, on an object of pymongo
  abbrev perform_link : Link → Object → World → Outcome Object × World
  perform_link (attribute n) o w = driver.get_attribute o n w
  perform_link (calling args) o w = driver.call o args w
  perform_link (item k) o w = driver.get_item o k w

  unfoldable pub perform : List Link → Object → World → Outcome Object × World
  perform [] o w = (value o, w)
  perform (l ∷ ls) o w = ◌followed_by◌ driver (perform_link l o w) (λ o' w'. perform ls o' w')

  -- the expression, on a lazy object
  abbrev record_link : Link → Lazy driver → Lazy driver
  record_link (attribute n) stack = get_attribute driver n stack
  record_link (calling args) stack = call_with driver args stack
  record_link (item k) stack = get_item driver k stack

  unfoldable pub record_all : List Link → Lazy driver → Lazy driver
  record_all [] stack = stack
  record_all (l ∷ ls) stack = record_all ls (record_link l stack)

  -- An item is looked up by calling the attribute `__getitem__`.
  abbrev pub GetsItems : Type 0
  GetsItems =
      (o : Object) (k : String) (w : World)
      → driver.get_item o k w
        ≡ ◌followed_by◌ driver (driver.get_attribute o "__getitem__" w)
            (λ method w'. driver.call method (driver.key_args k) w')

  followed_by_assoc :
      (r : Outcome Object × World) (f g : Object → World → Outcome Object × World)
      → ◌followed_by◌ driver (◌followed_by◌ driver r f) g
        ≡ ◌followed_by◌ driver r (λ o w. ◌followed_by◌ driver (f o w) g)
  followed_by_assoc (value o, w) f g = refl
  followed_by_assoc (raised e, w) f g = refl

  followed_by-cong :
      (r : Outcome Object × World) (f g : Object → World → Outcome Object × World)
      → ((o : Object) (w : World) → f o w ≡ g o w)
      → ◌followed_by◌ driver r f ≡ ◌followed_by◌ driver r g
  followed_by-cong (value o, w) f g same = same o w
  followed_by-cong (raised e, w) f g same = refl

  followed_by-value :
      (r : Outcome Object × World) → ◌followed_by◌ driver r (λ o w. (value o, w)) ≡ r
  followed_by-value (value o, w) = refl
  followed_by-value (raised e, w) = refl

  replay-append :
      (xs ys : Lazy driver) (o : Object) (w : World)
      → replay driver (xs ++ ys) o w
        ≡ ◌followed_by◌ driver (replay driver xs o w) (λ o' w'. replay driver ys o' w')
  unfolding replay
  replay-append [] ys o w = refl
  replay-append (x ∷ xs) ys o w =
      followed_by-cong (play driver x o w) _ _ (λ o' w'. replay-append xs ys o' w')
      ∙ sym (followed_by_assoc (play driver x o w) _ _)

  replay-record_link :
      GetsItems
      → (l : Link) (stack : Lazy driver) (o : Object) (w : World)
      → replay driver (record_link l stack) o w
        ≡ ◌followed_by◌ driver (replay driver stack o w) (λ o' w'. perform_link l o' w')
  unfolding replay
  replay-record_link g (attribute n) stack o w =
      replay-append stack (name n ∷ []) o w
      ∙ followed_by-cong (replay driver stack o w) _ _
          (λ o' w'. followed_by-value (play driver (name n) o' w'))
  replay-record_link g (calling args) stack o w =
      replay-append stack (called args ∷ []) o w
      ∙ followed_by-cong (replay driver stack o w) _ _
          (λ o' w'. followed_by-value (play driver (called args) o' w'))
  replay-record_link g (item k) stack o w =
      let both = name "__getitem__" ∷ called (driver.key_args k) ∷ [] in
      ap (λ stack'. replay driver stack' o w)
        (append_assoc stack (name "__getitem__" ∷ []) (called (driver.key_args k) ∷ []))
      ∙ replay-append stack both o w
      ∙ followed_by-cong (replay driver stack o w) _ _ (λ o' w'. looked_up o' w')
    where
      looked_up :
          (o' : Object) (w' : World)
          → replay driver (name "__getitem__" ∷ called (driver.key_args k) ∷ []) o' w'
            ≡ driver.get_item o' k w'
      looked_up o' w' =
          followed_by-cong (driver.get_attribute o' "__getitem__" w') _ _
            (λ method w''. followed_by-value (driver.call method (driver.key_args k) w''))
          ∙ sym (g o' k w')

  replay-record_all :
      GetsItems
      → (ls : List Link) (stack : Lazy driver) (o : Object) (w : World)
      → replay driver (record_all ls stack) o w
        ≡ ◌followed_by◌ driver (replay driver stack o w) (λ o' w'. perform ls o' w')
  unfolding record_all perform
  replay-record_all g [] stack o w = sym (followed_by-value (replay driver stack o w))
  replay-record_all g (l ∷ ls) stack o w =
      replay-record_all g ls (record_link l stack) o w
      ∙ ap (λ r. ◌followed_by◌ driver r (λ o' w'. perform ls o' w'))
          (replay-record_link g l stack o w)
      ∙ followed_by_assoc (replay driver stack o w) _ _

  -- Once more, where the connection was lost.
  abbrev pub again : List Link → Object → Outcome Object × World → Outcome Object × World
  again ls client (raised auto_reconnect, w) = perform ls client w
  again ls client (raised e, w) = (raised e, w)
  again ls client (value o, w) = (value o, w)

  retried-perform :
      GetsItems
      → (ls : List Link) (client : Object) (r : Outcome Object × World)
      → retried driver client (emptied driver (record_all ls []) r)
        ≡ emptied driver (record_all ls []) (again ls client r)
  unfolding run_lazy replay
  retried-perform g ls client (raised auto_reconnect, w) =
      ap (emptied driver (record_all ls [])) (replay-record_all g ls [] client w)
  retried-perform g ls client (raised _, w) = refl
  retried-perform g ls client (value o, w) = refl

  -- If the connection is open and an item is looked up by calling __getitem__, then run of the
  -- query that a chain of attributes, calls and items records on a lazy object does what the chain
  -- does on the client, from the start once more if that loses the connection; the query is empty
  -- if this gives a value, and the exceptions of pymongo are those that run_error names.
  pub run-perform :
      GetsItems
      → (rounds : ℕ) (ls : List Link) (c : Connection driver) (client : Object)
      → c.conn_ ≡ some client
      → run driver rounds (record_all ls []) c
        ≡ some (
            answer driver c client
              (emptied driver (record_all ls []) (again ls client (perform ls client c.world))))
  unfolding run run_lazy replay
  run-perform g rounds ls c client connected = rw connected (
      ap (λ r. some (answer driver c client r))
        (ap (λ r. retried driver client (emptied driver (record_all ls []) r))
            (replay-record_all g ls [] client c.world)
          ∙ retried-perform g ls client (perform ls client c.world)))
