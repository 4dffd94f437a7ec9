-- ===== src/Tests/Exchanges.antt =====
-- An exchange with two subscribers.
use planetmint.Base.{ℕ, ◌≡◌, refl, false, true, some, List, [], ◌∷◌}
use planetmint.Events.{
  Event, every, types, Published, event, poison_pill, Subscribed, run, get_subscriber_queue,
}
use planetmint.Events.Delivered.{run-delivered}

abbrev numbered : ℕ → ℕ → Event ℕ
numbered t n = record { type = t; payload = n }

-- one for every event, and one for those of a block that is not valid
abbrev queues : List (Subscribed ℕ)
queues = (every, [] ∷ []) ∷ (types 2, [] ∷ []) ∷ []

abbrev events : List (Event ℕ)
events = numbered 1 7 ∷ numbered 2 8 ∷ []

abbrev late : List (Published ℕ)
late = event (numbered 1 9) ∷ []

abbrev filled : List (Subscribed ℕ)
filled = (every, events ∷ []) ∷ (types 2, (numbered 2 8 ∷ []) ∷ []) ∷ []

subscribes :
    get_subscriber_queue
      (some (types 2))
      (record { publisher_queue = []; is_started = false; queues = (every, [] ∷ []) ∷ [] })
    ≡ (true, record { publisher_queue = []; is_started = false; queues = queues })
unfolding get_subscriber_queue
subscribes = refl

run-delivered_example :
    run (record {
      publisher_queue = event (numbered 1 7) ∷ event (numbered 2 8) ∷ poison_pill ∷ late;
      is_started = false;
      queues = queues;
    })
    ≡ some (record { publisher_queue = late; is_started = true; queues = filled })
run-delivered_example = run-delivered events late false queues
