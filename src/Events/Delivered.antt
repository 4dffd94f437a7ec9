-- ===== src/Events/Delivered.antt =====
-- What each subscriber finds in its queue when the exchange returns.
use planetmint.Base.{
  ◌≡◌, refl, sym, ap, ◌∙◌, inl, inr, Bool, true, some, List, [], ◌∷◌, ◌++◌, map, append_assoc,
  append-nil, keep, Bool-cases,
}
use planetmint.Events.{
  EventTypes, Event, Published, event, poison_pill, Subscribed, matches, dispatch_to, dispatch,
  dispatch_all, returned, run,
}

module _ {D : Type 0} where
  -- The subscriber wants these of the events.
  abbrev pub wanted_of : EventTypes → List (Event D) → List (Event D)
  wanted_of t es = keep (λ e. matches e.type t) es

  abbrev pub delivered : List (Event D) → Subscribed D → Subscribed D
  delivered es (t, queues) = (t, map (λ queue. queue ++ wanted_of t es) queues)

  appended :
      (e : Event D) (es : List (Event D)) (queues : List (List (Event D)))
      → map (λ q. q ++ es) (map (λ q. q ++ (e ∷ [])) queues) ≡ map (λ q. q ++ (e ∷ es)) queues
  appended e es [] = refl
  appended e es (q ∷ queues) = cc (append_assoc q (e ∷ []) es, appended e es queues)

  delivered_one :
      (e : Event D) (es : List (Event D)) (s : Subscribed D)
      → delivered es (dispatch_to e s) ≡ delivered (e ∷ es) s
  delivered_one e es (t, queues) = elim (Bool-cases (matches e.type t)) [
    | inl wants ↦ rw wants (ap (λ l. (t, l)) (appended e (wanted_of t es) queues))
    | inr ignores ↦ rw ignores refl
  ]

  delivered_all :
      (e : Event D) (es : List (Event D)) (queues : List (Subscribed D))
      → map (delivered es) (dispatch e queues) ≡ map (delivered (e ∷ es)) queues
  unfolding dispatch
  delivered_all e es [] = refl
  delivered_all e es (s ∷ queues) = cc (delivered_one e es s, delivered_all e es queues)

  nothing_more : (queues : List (List (Event D))) → map (λ q. q ++ []) queues ≡ queues
  nothing_more [] = refl
  nothing_more (q ∷ queues) = cc (append-nil q, nothing_more queues)

  delivered_none : (queues : List (Subscribed D)) → map (delivered []) queues ≡ queues
  delivered_none [] = refl
  delivered_none ((t, qs) ∷ queues) =
      cc (ap {B = Subscribed D} (λ l. (t, l)) (nothing_more qs), delivered_none queues)

  dispatch_all-delivered :
      (es : List (Event D)) (rest : List (Published D)) (queues : List (Subscribed D))
      → dispatch_all (map event es ++ (poison_pill ∷ rest)) queues
        ≡ some (map (delivered es) queues, rest)
  unfolding dispatch_all
  dispatch_all-delivered [] rest queues = ap (λ l. some (l, rest)) (sym (delivered_none queues))
  dispatch_all-delivered (e ∷ es) rest queues =
      dispatch_all-delivered es rest (dispatch e queues)
      ∙ ap (λ l. some (l, rest)) (delivered_all e es queues)

  -- If the publisher queue holds events, then the poison pill, and then anything, run of the
  -- exchange returns with the rest of the publisher queue, and each subscriber queue has got, in
  -- order, those of the events before the pill whose type shares a bit with the types that it was
  -- made for.
  pub run-delivered :
      (es : List (Event D)) (rest : List (Published D)) (started : Bool)
      (queues : List (Subscribed D))
      → run (record {
        publisher_queue = map event es ++ (poison_pill ∷ rest);
        is_started = started;
        queues = queues;
      })
        ≡ some (record {
          publisher_queue = rest;
          is_started = true;
          queues = map (delivered es) queues;
        })
  unfolding run
  run-delivered es rest started queues = ap returned (dispatch_all-delivered es rest queues)
