-- ===== src/Tests/Connections.antt =====
-- A toy of pymongo: an object is the text of the expression that made it, and the world counts the
-- failures that are still to come.
use Prim.Native.String.{String, ◌++◌}
use planetmint.Base.{ℕ, zero, suc, ◌≡◌, refl, arith, false, Option, none, some, List, [], ◌∷◌}
use planetmint.Errors.{Result, ok, err, connection_error}
use planetmint.Connection.{
  MongoError, auto_reconnect, connection_failure, Outcome, value, raised, Settings, Driver,
  Connection, connect, run, connect_once,
}
use planetmint.Connection.Attempts.{Ends, connect-Ends}
use planetmint.Connection.Queries.{Link, attribute, calling, item, record_all, perform, run-perform}

abbrev failing : MongoError → String → ℕ → Outcome String × ℕ
failing e o zero = (value o, zero)
failing e o (suc w) = (raised e, w)

abbrev toy_driver : Driver
toy_driver = record {
  World = ℕ;
  Object = String;
  Args = String;
  key_args = λ k. k;
  get_attribute = λ o n w. (value (o ++ n), w);
  call = λ o args w. failing auto_reconnect (o ++ args) w;
  get_item = λ o k w. failing auto_reconnect ((o ++ "__getitem__") ++ k) w;
  mongo_client = λ s w. failing connection_failure "client" w;
  mongo_client_tls = λ s w. failing connection_failure "client" w;
  authenticate = λ client dbname login password w. (value client, w);
  authenticate_x509 = λ client dbname login w. (value client, w);
}

abbrev settings : Settings
settings = record {
  host = "localhost";
  port = 27017;
  dbname = "bigchain";
  connection_timeout = 5000;
  max_tries = 3;
  replicaset = none;
  ssl = false;
  login = none;
  password = none;
  ca_cert = none;
  certfile = none;
  keyfile = none;
  keyfile_passphrase = none;
  crlfile = none;
}

third_attempt : connect toy_driver 0 settings none 2 ≡ some (ok (some "client"), 0)
unfolding connect connect_once
third_attempt = refl

gives_up : connect toy_driver 0 settings none 5 ≡ some (err connection_error, 2)
unfolding connect connect_once
gives_up = refl

-- with no limit it goes on
abbrev patient : Settings
patient = record settings { max_tries = 0 }

sixth_attempt : connect toy_driver 9 patient none 5 ≡ some (ok (some "client"), 0)
unfolding connect connect_once
sixth_attempt = refl

connect-Ends_example :
    (r : Result (Option String) × ℕ) × (connect toy_driver 0 settings none 5 ≡ some r)
    × Ends toy_driver settings 5 r
connect-Ends_example = connect-Ends toy_driver settings 0 none 5 (omega arith)

abbrev opened : ℕ → Connection toy_driver
opened w = record { settings = settings; conn_ = some "client"; world = w }

-- `conn.collection('assets').find_one(…)`
abbrev query : List (Link toy_driver)
query = item "bigchain" ∷ item "assets" ∷ attribute ".find_one" ∷ calling "()" ∷ []

run-lost_once :
    run toy_driver 0 (record_all toy_driver query []) (opened 1)
    ≡ some (ok "client__getitem__bigchain__getitem__assets.find_one()", [], opened 0)
unfolding run record_all
run-lost_once = refl

run-perform_example :
    run toy_driver 0 (record_all toy_driver query []) (opened 2)
    ≡ some (err connection_error, record_all toy_driver query [], opened 0)
unfolding perform
run-perform_example = run-perform toy_driver (λ o k w. refl) 0 query (opened 2) "client" refl
