-- ===== src/Connection.antt =====
-- planetmint/backend/connection.py and planetmint/backend/localmongodb/connection.py: how the node
-- connects to its database and runs a query. pymongo, with all that happens outside of the process, is
-- the record `Driver`.
pub mod Attempts
pub mod Queries
use planetmint.Base.{
  ℕ, zero, suc, ◌+◌, Bool, true, false, String, Option, none, some, is_some, List, [], ◌∷◌, ◌==◌,
  ◌≡◌, eqb, ◌++◌, ◌&&◌, if◌then◌else◌,
}
use mathlib.Core.Option
use planetmint.Errors.{
  Error, Result, ok, err, ◌>>=◌, or_raise, connection_error, duplicate_key_error, operation_error,
  configuration_error, pymongo_error, attribute_error,
}

-- The exceptions of pymongo that the handlers tell apart. A lost connection is a failed connection,
-- and a duplicate key a failed operation.
pub data MongoError : Type 0 where
  auto_reconnect connection_failure duplicate_key operation_failure : MongoError
  invalid_configuration other_error : MongoError

pub data Outcome (A : Type 0) : Type 0 where
  value : A → Outcome A
  raised : MongoError → Outcome A

-- The arguments of the constructor, with the defaults filled in. None for `max_tries` and the
-- timeout stands for the configured value.
pub record Settings : Type 0 where
  pub host : String
  pub port : ℕ
  pub dbname : String
  pub connection_timeout : ℕ
  pub max_tries : ℕ
  pub replicaset : Option String
  pub ssl : Bool
  pub login : Option String
  pub password : Option String
  pub ca_cert : Option String
  pub certfile : Option String
  pub keyfile : Option String
  pub keyfile_passphrase : Option String
  pub crlfile : Option String

-- pymongo: `World` is what the calls act on, `Object` what they hand out.
pub record Driver : Type 1 where
  pub World : Type 0
  pub Object : Type 0
  pub Args : Type 0
  pub key_args : String → Args
  pub get_attribute : Object → String → World → Outcome Object × World
  pub call : Object → Args → World → Outcome Object × World
  pub get_item : Object → String → World → Outcome Object × World
  -- `MongoClient`, without and with certificates
  pub mongo_client : Settings → World → Outcome Object × World
  pub mongo_client_tls : Settings → World → Outcome Object × World
  -- `client[dbname].authenticate(login, password)`, and with the mechanism MONGODB-X509
  pub authenticate : Object → String → String → String → World → Outcome Object × World
  pub authenticate_x509 : Object → String → String → World → Outcome Object × World

-- `Lazy` of planetmint/utils.py: the attributes and calls that it has recorded
pub data Item (driver : Driver) : Type 0 where
  name : String → Item driver
  called : driver.Args → Item driver

-- `LocalMongoDBConnection`, with the world that it lives in.
pub record Connection (driver : Driver) : Type 0 where
  pub settings : Settings
  pub conn_ : Option driver.Object
  pub world : driver.World

module _ (driver : Driver) where
  open driver use {World, Object, Args}

  abbrev pub Lazy : Type 0
  Lazy = List (Item driver)

  -- `__getattr__`, `__call__` and `__getitem__` of a lazy object; the name is neither `run` nor
  -- `stack`, which are the object's own
  abbrev pub get_attribute : String → Lazy → Lazy
  get_attribute n stack = stack ++ (name n ∷ [])

  abbrev pub call_with : Args → Lazy → Lazy
  call_with args stack = stack ++ (called args ∷ [])

  abbrev pub get_item : String → Lazy → Lazy
  get_item k stack = (stack ++ (name "__getitem__" ∷ [])) ++ (called (driver.key_args k) ∷ [])

  -- what follows a call of pymongo
  infixl 10 ◌followed_by◌
  abbrev pub ◌followed_by◌ :
      {A B : Type 0} → Outcome A × World → (A → World → Outcome B × World) → Outcome B × World
  (raised e, w) followed_by next = (raised e, w)
  (value a, w) followed_by next = next a w

  abbrev pub play : Item driver → Object → World → Outcome Object × World
  play (name n) last w = driver.get_attribute last n w
  play (called args) last w = driver.call last args w

  -- the loop of `Lazy.run`
  unfoldable pub replay : Lazy → Object → World → Outcome Object × World
  replay [] last w = (value last, w)
  replay (item ∷ rest) last w = play item last w followed_by λ next w'. replay rest next w'

  -- an exception leaves the stack as it is
  abbrev pub emptied : Lazy → Outcome Object × World → Outcome Object × Lazy × World
  emptied stack (raised e, w) = (raised e, stack, w)
  emptied stack (value o, w) = (value o, [], w)

  pub run_lazy : Lazy → Object → World → Outcome Object × Lazy × World
  unfolding replay
  run_lazy stack instance_ w = emptied stack (replay stack instance_ w)

  -- `_connect`: whether the certificates are all there decides how it connects
  abbrev uses_tls : Settings → Bool
  uses_tls s = is_some s.ca_cert && (is_some s.certfile && (is_some s.keyfile && is_some s.crlfile))

  abbrev log_in : Settings → Option String → Option String → Object → World → Outcome Object × World
  log_in s (some login) (some password) client w =
      driver.authenticate client s.dbname login password w followed_by λ done w'. (value client, w')
  log_in s _ _ client w = (value client, w)

  abbrev log_in_x509 : Settings → Option String → Object → World → Outcome Object × World
  log_in_x509 s (some login) client w =
      driver.authenticate_x509 client s.dbname login w followed_by λ done w'. (value client, w')
  log_in_x509 s none client w = (value client, w)

  abbrev open_client : Settings → World → Outcome Object × World
  open_client s w =
      if uses_tls s
      then driver.mongo_client_tls s w followed_by log_in_x509 s s.login
      else driver.mongo_client s w followed_by log_in s s.login s.password

  abbrev connect_error : MongoError → Error
  connect_error auto_reconnect = connection_error
  connect_error connection_failure = connection_error
  connect_error duplicate_key = connection_error
  connect_error operation_failure = connection_error
  connect_error invalid_configuration = configuration_error
  connect_error other_error = pymongo_error

  abbrev connect_result : Outcome Object × World → Result Object × World
  connect_result (value client, w) = (ok client, w)
  connect_result (raised e, w) = (err (connect_error e), w)

  unfoldable pub connect_once : Settings → World → Result Object × World
  connect_once s w = connect_result (open_client s w)

  -- One round of the loop of `connect`, the attempt with this number: only a failed connection goes
  -- on to the next round, if it was not the last attempt.
  abbrev pub attempted :
      ℕ
      → ℕ
      → (World → Option (Result (Option Object) × World))
      → Result Object × World
      → Option (Result (Option Object) × World)
  attempted max_tries n next (err connection_error, w) =
      let later = next w in if eqb n max_tries then some (err connection_error, w) else later
  attempted max_tries n next (err e, w) = some (err e, w)
  attempted max_tries n next (ok client, w) = some (ok (some client), w)

  -- the loop over so many rounds, with what comes after them
  unfoldable pub attempts :
      (World → Option (Result (Option Object) × World))
      → Settings
      → ℕ
      → ℕ
      → World
      → Option (Result (Option Object) × World)
  attempts after s zero n w = after w
  attempts after s (suc rounds) n w =
      attempted s.max_tries (n + 1) (λ w'. attempts after s rounds (n + 1) w') (connect_once s w)

  -- `Connection.connect`, with what it leaves in `_conn`. Zero tries are as many as it takes: none
  -- means that it is still trying after so many rounds.
  unfoldable pub connect :
      ℕ → Settings → Option Object → World → Option (Result (Option Object) × World)
  unfolding attempts
  connect rounds s conn_ w =
      if eqb s.max_tries 0
      then attempts (λ w'. none) s rounds 0 w
      else attempts (λ w'. some (ok conn_, w')) s s.max_tries 0 w

  abbrev run_error : MongoError → Error
  run_error auto_reconnect = connection_error
  run_error connection_failure = pymongo_error
  run_error duplicate_key = duplicate_key_error
  run_error operation_failure = operation_error
  run_error invalid_configuration = pymongo_error
  run_error other_error = pymongo_error

  -- a lost connection: the query is run once more, with the stack that it still has
  abbrev pub retried : Object → Outcome Object × Lazy × World → Outcome Object × Lazy × World
  retried client (raised auto_reconnect, stack, w) = run_lazy stack client w
  retried client (raised e, stack, w) = (raised e, stack, w)
  retried client (value o, stack, w) = (value o, stack, w)

  abbrev pub or_backend_error : Outcome Object → Result Object
  or_backend_error (value o) = ok o
  or_backend_error (raised e) = err (run_error e)

  abbrev pub answer :
      Connection driver
      → Object
      → Outcome Object × Lazy × World
      → Result Object × Lazy × Connection driver
  answer c client (outcome, stack, w) =
      (or_backend_error outcome, stack, record c { conn_ = some client; world = w })

  -- what `connect` has left; a client of None has no attributes
  abbrev on_client :
      Connection driver
      → Lazy
      → (Object → World → Result Object × Lazy × Connection driver)
      → Result (Option Object) × World
      → Result Object × Lazy × Connection driver
  on_client c stack next (err e, w) = (err e, stack, record c { world = w })
  on_client c stack next (ok none, w) = (err attribute_error, stack, record c { world = w })
  on_client c stack next (ok (some client), w) = next client w

  -- the property `conn`
  abbrev with_conn :
      ℕ
      → Connection driver
      → Lazy
      → (Object → World → Result Object × Lazy × Connection driver)
      → Option Object
      → Option (Result Object × Lazy × Connection driver)
  with_conn rounds c stack next (some client) = some (next client c.world)
  with_conn rounds c stack next none =
      Option.map (on_client c stack next) (connect rounds c.settings none c.world)

  -- `LocalMongoDBConnection.run`, with the query and the connection that it leaves
  unfoldable pub run :
      ℕ → Lazy → Connection driver → Option (Result Object × Lazy × Connection driver)
  unfolding run_lazy connect
  run rounds stack c =
      with_conn rounds c stack
        (λ client w. answer c client (retried client (run_lazy stack client w))) c.conn_
