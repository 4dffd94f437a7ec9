-- ===== src/Events.antt =====
-- planetmint/events.py: the exchange that hands the events of the publisher to the subscribers. The
-- queues of multiprocessing are lists. The proof is in the module below.
pub mod Delivered
use Prim.Native.Nat.{bit_and}
use planetmint.Base.{
  ℕ, Bool, true, false, not, Option, none, some, List, [], ◌∷◌, ◌++◌, map, eqb, if◌then◌else◌,
}

-- `EventTypes`: ALL is `~0`, which has every bit
pub data EventTypes : Type 0 where
  every : EventTypes
  types : ℕ → EventTypes

pub record Event (D : Type 0) : Type 0 where
  pub type : ℕ
  pub payload : D

-- what the publisher puts in its queue
pub data Published (D : Type 0) : Type 0 where
  event : Event D → Published D
  poison_pill : Published D

-- one key of the dict `queues`, with the queues of its subscribers
abbrev pub Subscribed : Type 0 → Type 0
Subscribed D = EventTypes × List (List (Event D))

pub record Exchange (D : Type 0) : Type 0 where
  pub publisher_queue : List (Published D)
  -- whether the token of `run` is in `started_queue`
  pub is_started : Bool
  pub queues : List (Subscribed D)

abbrev same_types : EventTypes → EventTypes → Bool
same_types every every = true
same_types (types m) (types n) = eqb m n
same_types _ _ = false

-- `event.type & event_types`
abbrev pub matches : ℕ → EventTypes → Bool
matches t every = not (eqb t 0)
matches t (types m) = not (eqb (bit_and t m) 0)

module _ {D : Type 0} where
  -- `self.queues[event_types].append(queue)`
  abbrev add_queue : EventTypes → List (Subscribed D) → List (Subscribed D)
  add_queue wanted [] = (wanted, [] ∷ []) ∷ []
  add_queue wanted ((t, queues) ∷ rest) =
      if same_types t wanted
      then (t, queues ++ ([] ∷ [])) ∷ rest
      else (t, queues) ∷ add_queue wanted rest

  -- `get_subscriber_queue`; false is the RuntimeError, for which the token of `run` is taken off the
  -- queue, so that the next call succeeds
  unfoldable pub get_subscriber_queue : Option EventTypes → Exchange D → Bool × Exchange D
  get_subscriber_queue wanted exchange =
      if exchange.is_started then (false, record exchange { is_started = false }) else (
        true,
        record exchange {
          queues = add_queue (elim wanted [ none ↦ every | some t ↦ t ]) exchange.queues;
        },
      )

  -- a key of the loop of `dispatch`
  abbrev pub dispatch_to : Event D → Subscribed D → Subscribed D
  dispatch_to e (wanted, queues) =
      if matches e.type wanted
      then (wanted, map (λ queue. queue ++ (e ∷ [])) queues)
      else (wanted, queues)

  pub dispatch : Event D → List (Subscribed D) → List (Subscribed D)
  dispatch e queues = map (dispatch_to e) queues

  -- the loop of `run`, on what the publisher put and puts in its queue; with no pill the exchange waits
  pub dispatch_all :
      List (Published D) → List (Subscribed D) → Option (List (Subscribed D) × List (Published D))
  unfolding dispatch
  dispatch_all [] queues = none
  dispatch_all (poison_pill ∷ rest) queues = some (queues, rest)
  dispatch_all (event e ∷ rest) queues = dispatch_all rest (dispatch e queues)

  abbrev pub returned : Option (List (Subscribed D) × List (Published D)) → Option (Exchange D)
  returned none = none
  returned (some (queues, rest)) =
      some (record { publisher_queue = rest; is_started = true; queues = queues })

  unfoldable pub run : Exchange D → Option (Exchange D)
  unfolding dispatch_all
  run exchange = returned (dispatch_all exchange.publisher_queue exchange.queues)
