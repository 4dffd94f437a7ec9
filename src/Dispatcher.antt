-- ===== src/Dispatcher.antt =====
-- planetmint/web/websocket_dispatcher.py: the events of the node, sent to the clients. A websocket is
-- the list of the messages that it was sent. Other tasks take their turns between two events, and
-- where a message is awaited to be sent: there, at most one client comes or goes for each event.
pub mod Loops
pub mod Sent
use planetmint.Base.{
  ℕ, zero, suc, Bool, true, false, not, ◌&&◌, String, Option, none, some, List, [], ◌∷◌, ◌++◌, map,
  eqb, ltb, length, if◌then◌else◌,
}
use planetmint.Base.Dict.{Dict, insert, erase, contains}
use planetmint.Errors.{Result, ok, err, key_error}
use planetmint.Transaction.Model.{Asset, absent, payload, reference, Transaction}
use planetmint.Events.{Event}
use planetmint.App.{BlockEvent}

-- what `json.dumps` is given, and a text that an event source sends as it is
pub data SocketMessage : Type 0 where
  transaction_message : Option ℕ → Option String → Option String → SocketMessage
  block_message : Option ℕ → String → List (Option String) → SocketMessage
  text : String → SocketMessage

-- the argument `type`
pub data Kind : Type 0 where
  tx blk other : Kind

pub record Dispatcher : Type 0 where
  pub type : Kind
  pub subscribers : Dict (List SocketMessage)

-- what the event source holds
pub data Source (F : Type 0) : Type 0 where
  poison_pill : Source F
  str : String → Source F
  event : Event (BlockEvent F) → Source F

abbrev pub block_valid : ℕ
block_valid = 1

pub subscribe : String → Dispatcher → Dispatcher
subscribe uuid d = record d { subscribers = insert uuid [] d.subscribers }

pub unsubscribe : String → Dispatcher → Result Dispatcher
unsubscribe uuid d =
    if contains uuid d.subscribers
    then ok (record d { subscribers = erase uuid d.subscribers })
    else err key_error

abbrev ids_of : {F : Type 0} → List (Transaction F) → List (Option String)
ids_of [] = []
ids_of (t ∷ ts) = t.id ∷ ids_of ts

pub simplified_block : {F : Type 0} → BlockEvent F → SocketMessage
simplified_block b = block_message b.height b.hash (ids_of b.transactions)

-- `tx.asset.get('id', tx.id)` of an asset that is there, and else `tx.id`
abbrev pub asset_id_of : {F : Type 0} → Transaction F → Asset → Option String
asset_id_of t absent = t.id
asset_id_of t (payload j) = t.id
asset_id_of t (reference i) = some i

pub eventify_from : {F : Type 0} → Option ℕ → List (Transaction F) → List SocketMessage
eventify_from height [] = []
eventify_from height (t ∷ ts) =
    transaction_message height (asset_id_of t t.asset) t.id ∷ eventify_from height ts

pub eventify_block : {F : Type 0} → BlockEvent F → List SocketMessage
unfolding eventify_from
eventify_block b = eventify_from b.height b.transactions

-- the loop over the subscribers, for one text
abbrev pub send_str : SocketMessage → Dict (List SocketMessage) → Dict (List SocketMessage)
send_str m [] = []
send_str m ((uuid, sent) ∷ rest) = (uuid, sent ++ (m ∷ [])) ∷ send_str m rest

pub send_all : List SocketMessage → Dict (List SocketMessage) → Dict (List SocketMessage)
send_all [] subscribers = subscribers
send_all (m ∷ ms) subscribers = send_all ms (send_str m subscribers)

-- What other tasks do: a client comes, with an id that is new, or goes.
pub data Turn : Type 0 where
  joins leaves : String → Turn

-- The turn that another task takes while a message of an event, and of it the one for a client, both
-- by their numbers, is being sent.
pub record Interruption : Type 0 where
  pub message : ℕ
  pub client : ℕ
  pub turn : Turn

-- What happens at the dispatcher: another task has a turn, or `publish` gets an event.
pub data Happening (F : Type 0) : Type 0 where
  turned : Turn → Happening F
  got : Source F → Option Interruption → Happening F

-- an exception of `unsubscribe` ends the handler of the client
abbrev pub or_same : Dispatcher → Result Dispatcher → Dispatcher
or_same d (err e) = d
or_same d (ok d') = d'

abbrev pub take_turn : Turn → Dispatcher → Dispatcher
take_turn (joins uuid) d = subscribe uuid d
take_turn (leaves uuid) d = or_same d (unsubscribe uuid d)

-- whether it changes the size of the dict
abbrev pub resizes : Turn → Dispatcher → Bool
resizes (joins uuid) d = not (contains uuid d.subscribers)
resizes (leaves uuid) d = contains uuid d.subscribers

-- the loop over the subscribers, up to the one with this number
abbrev pub send_first : ℕ → SocketMessage → Dict (List SocketMessage) → Dict (List SocketMessage)
send_first n m [] = []
send_first zero m ((uuid, sent) ∷ rest) = (uuid, sent ++ (m ∷ [])) ∷ rest
send_first (suc n) m ((uuid, sent) ∷ rest) = (uuid, sent ++ (m ∷ [])) ∷ send_first n m rest

-- The loops of `publish` with such a turn, which changes the dict that the inner loop goes over: with
-- true, its next step raises a RuntimeError.
pub send_until : ℕ → Interruption → List SocketMessage → Dispatcher → Dispatcher × Bool
unfolding send_all subscribe unsubscribe
send_until k i [] d = (d, false)
send_until zero i (m ∷ ms) d =
    if ltb i.client (length d.subscribers) && resizes i.turn d
    then (take_turn i.turn (record d { subscribers = send_first i.client m d.subscribers }), true)
    else (record d { subscribers = send_all (m ∷ ms) d.subscribers }, false)
send_until (suc k) i (m ∷ ms) d =
    send_until k i ms (record d { subscribers = send_str m d.subscribers })

abbrev pub send_buffer : Option Interruption → List SocketMessage → Dispatcher → Dispatcher × Bool
send_buffer none ms d = (record d { subscribers = send_all ms d.subscribers }, false)
send_buffer (some i) ms d = send_until i.message i ms d

-- a RuntimeError ends `publish`
abbrev pub or_raised : Dispatcher × Bool → (Dispatcher → Dispatcher × Bool) → Dispatcher × Bool
or_raised (d, true) next = (d, true)
or_raised (d, false) next = next d

abbrev pub after_buffer :
    Option Interruption
    → Dispatcher
    → Option (List SocketMessage)
    → (Dispatcher → Dispatcher × Bool)
    → Dispatcher × Bool
after_buffer i d none next = (d, false)
after_buffer i d (some ms) next = or_raised (send_buffer i ms d) next

module _ {F : Type 0} where
  -- `str_buffer`; none where `publish` returns
  abbrev buffered : Kind → BlockEvent F → Option (List SocketMessage)
  buffered tx b = some (eventify_block b)
  buffered blk b = some (simplified_block b ∷ [])
  buffered other b = none

  pub str_buffer : Kind → Source F → Option (List SocketMessage)
  unfolding eventify_block simplified_block
  str_buffer k poison_pill = none
  str_buffer k (str s) = some (text s ∷ [])
  str_buffer k (event e) = if eqb e.type block_valid then buffered k e.payload else some []

  -- The dispatcher after the loop of `publish`, or when all is sent and it waits for the next event,
  -- and whether a RuntimeError has ended the loop.
  unfoldable pub publish : List (Happening F) → Dispatcher → Dispatcher × Bool
  unfolding str_buffer send_until
  publish [] d = (d, false)
  publish (turned t ∷ hs) d = publish hs (take_turn t d)
  publish (got e i ∷ hs) d = after_buffer i d (str_buffer d.type e) (λ d'. publish hs d')
