-- ===== src/Dispatcher/Sent.antt =====
-- What a client is sent.
use planetmint.Base.{String, none, some, List, [], ◌∷◌, ◌++◌, map, eqb, if◌then◌else◌}
use planetmint.Transaction.Model.{Transaction}
use planetmint.App.{BlockEvent}
use planetmint.Dispatcher.{
  SocketMessage, transaction_message, block_message, text, Kind, tx, blk, other, Dispatcher, Source,
  poison_pill, str, event, block_valid, asset_id_of, Happening, turned, got,
}
use planetmint.Dispatcher.Loops.{Others}

module _ {F : Type 0} where
  -- The news of a block, for a client of each kind.
  abbrev pub block_news : Kind → BlockEvent F → List SocketMessage
  block_news tx b =
      map (λ t. transaction_message b.height (asset_id_of t t.asset) t.id) b.transactions
  block_news blk b = block_message b.height b.hash (map (λ t. t.id) b.transactions) ∷ []
  block_news other b = []

  abbrev pub news : Kind → Source F → List SocketMessage
  news k poison_pill = []
  news k (str s) = text s ∷ []
  news k (event e) = if eqb e.type block_valid then block_news k e.payload else []

  -- All the news, as far as the poison pill.
  abbrev pub all_news : Kind → List (Happening F) → List SocketMessage
  all_news k [] = []
  all_news k (turned t ∷ hs) = all_news k hs
  all_news k (got poison_pill i ∷ hs) = []
  all_news k (got (str s) i ∷ hs) = news k (str s) ++ all_news k hs
  all_news k (got (event e) i ∷ hs) = news k (event e) ++ all_news k hs

  -- This client neither comes nor goes.
  abbrev pub Stays : String → List (Happening F) → Type 0
  Stays uuid [] = Unit
  Stays uuid (turned t ∷ hs) = Others uuid t × Stays uuid hs
  Stays uuid (got e none ∷ hs) = Stays uuid hs
  Stays uuid (got e (some i) ∷ hs) = Others uuid i.turn × Stays uuid hs

  -- Another task has a turn while a message is being sent.
  abbrev pub IsInterrupted : List (Happening F) → Type 0
  IsInterrupted [] = ⊥
  IsInterrupted (turned t ∷ hs) = IsInterrupted hs
  IsInterrupted (got e none ∷ hs) = IsInterrupted hs
  IsInterrupted (got e (some i) ∷ hs) = Unit
