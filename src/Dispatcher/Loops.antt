-- ===== src/Dispatcher/Loops.antt =====
-- What the loops of `publish` send to one client, with the turns of other tasks.
use planetmint.Base.{
  ℕ, String, some, zero, suc, subst, Bool, true, false, ◌&&◌, ltb, length, ◌⊎◌, List, [], ◌∷◌, ◌++◌,
  ◌≡◌, ◌≢◌, refl, sym, ap, ◌∙◌, append_assoc, append-nil, arith, eq_iff, Bool-cases, inl, inr, ◌==◌,
}
use planetmint.Base.Dict.{Dict, lookup, erase, contains, lookup-insert}
use planetmint.Dispatcher.{
  SocketMessage, Dispatcher, subscribe, unsubscribe, send_str, send_all, or_same, Turn, joins,
  leaves, Interruption, take_turn, resizes, send_first, send_until, or_raised,
}

pub lookup-send_str :
    (uuid : String) (m : SocketMessage) (d : Dict (List SocketMessage)) {sent : List SocketMessage}
    → lookup uuid d ≡ some sent
    → lookup uuid (send_str m d) ≡ some (sent ++ (m ∷ []))
lookup-send_str uuid m [] h = cc
lookup-send_str uuid m ((u, l) ∷ d) {sent} h = elim (Bool-cases (u == uuid)) [
  | inl e ↦ ground arith
  | inr e ↦
      let rest : lookup uuid (send_str m d) ≡ some (sent ++ (m ∷ [])) =
        lookup-send_str uuid m d (rw e at h) in
      rw e rest
]

pub lookup-send_all :
    (uuid : String) (ms : List SocketMessage) (d : Dict (List SocketMessage))
    (sent : List SocketMessage)
    → lookup uuid d ≡ some sent
    → lookup uuid (send_all ms d) ≡ some (sent ++ ms)
unfolding send_all
lookup-send_all uuid [] d sent h = h ∙ ap some (sym (append-nil sent))
lookup-send_all uuid (m ∷ ms) d sent h =
    lookup-send_all uuid ms (send_str m d) (sent ++ (m ∷ [])) (lookup-send_str uuid m d h)
    ∙ ap some (append_assoc sent (m ∷ []) ms)

pub lookup-erase :
    (u uuid : String) (d : Dict (List SocketMessage))
    → u ≢ uuid
    → lookup uuid (erase u d) ≡ lookup uuid d
lookup-erase u uuid [] ne = refl
lookup-erase u uuid ((k, l) ∷ d) ne =
    ground (arith, eq_iff k u, eq_iff k uuid, lookup-erase u uuid d ne)

pub lookup-subscribe :
    (u uuid : String) (d : Dispatcher)
    → u ≢ uuid
    → lookup uuid (subscribe u d).subscribers ≡ lookup uuid d.subscribers
unfolding subscribe
lookup-subscribe u uuid d ne = ground (arith, lookup-insert u uuid [] d.subscribers, eq_iff u uuid)

pub type-unsubscribe : (u : String) (d : Dispatcher) → (or_same d (unsubscribe u d)).type ≡ d.type
unfolding unsubscribe
type-unsubscribe u d = elim (Bool-cases (contains u d.subscribers)) [
  | inl e ↦ rw e refl
  | inr e ↦ rw e refl
]

pub type-subscribe : (u : String) (d : Dispatcher) → (subscribe u d).type ≡ d.type
unfolding subscribe
type-subscribe u d = refl

pub lookup-unsubscribe :
    (u uuid : String) (d : Dispatcher)
    → u ≢ uuid
    → lookup uuid (or_same d (unsubscribe u d)).subscribers ≡ lookup uuid d.subscribers
unfolding unsubscribe
lookup-unsubscribe u uuid d ne = elim (Bool-cases (contains u d.subscribers)) [
  | inl e ↦ rw e (lookup-erase u uuid d.subscribers ne)
  | inr e ↦ rw e refl
]

-- a turn of another client
abbrev pub Others : String → Turn → Type 0
Others uuid (joins u) = u ≢ uuid
Others uuid (leaves u) = u ≢ uuid

pub lookup-take_turn :
    (t : Turn) (uuid : String) (d : Dispatcher)
    → Others uuid t
    → lookup uuid (take_turn t d).subscribers ≡ lookup uuid d.subscribers
lookup-take_turn (joins u) uuid d ne = lookup-subscribe u uuid d ne
lookup-take_turn (leaves u) uuid d ne = lookup-unsubscribe u uuid d ne

pub type-take_turn : (t : Turn) (d : Dispatcher) → (take_turn t d).type ≡ d.type
type-take_turn (joins u) d = type-subscribe u d
type-take_turn (leaves u) d = type-unsubscribe u d

pub lookup-send_first :
    (n : ℕ) (uuid : String) (m : SocketMessage) (d : Dict (List SocketMessage))
    {sent : List SocketMessage}
    → lookup uuid d ≡ some sent
    → (lookup uuid (send_first n m d) ≡ some (sent ++ (m ∷ [])))
      ⊎ (lookup uuid (send_first n m d) ≡ some sent)
lookup-send_first n uuid m [] h = cc
lookup-send_first zero uuid m ((u, l) ∷ d) h = elim (Bool-cases (u == uuid)) [
  | inl e ↦ inl (ground arith)
  | inr e ↦ inr (ground arith)
]
lookup-send_first (suc n) uuid m ((u, l) ∷ d) {sent} h = elim (Bool-cases (u == uuid)) [
  | inl e ↦ inl (ground arith)
  | inr e ↦ elim (lookup-send_first n uuid m d {sent = sent} (rw e at h)) [
    | inl p ↦ inl (rw e p)
    | inr p ↦ inr (rw e p)
  ]
]

-- Of all the messages the client has been sent the first ones, in order, after those of before; and
-- all of them, if no RuntimeError has ended `publish`.
pub record IsDelivered (r : Dispatcher × Bool) (uuid : String) (sent all : List SocketMessage)
    : Type 0 where
  pub delivered : List SocketMessage
  pub found : lookup uuid r.0.subscribers ≡ some (sent ++ delivered)
  pub rest : List SocketMessage
  pub in_order : delivered ++ rest ≡ all
  pub complete : (r.1 ≡ true) ⊎ (rest ≡ [])

pub all-IsDelivered :
    (d : Dispatcher) (uuid : String) (sent ms : List SocketMessage)
    → lookup uuid d.subscribers ≡ some (sent ++ ms)
    → IsDelivered (d, false) uuid sent ms
all-IsDelivered d uuid sent ms h = record {
  delivered = ms;
  found = h;
  rest = [];
  in_order = append-nil ms;
  complete = inr refl;
}

pub nothing_more :
    (d : Dispatcher) (uuid : String) (sent : List SocketMessage)
    → lookup uuid d.subscribers ≡ some sent
    → IsDelivered (d, false) uuid sent []
nothing_more d uuid sent h = all-IsDelivered d uuid sent [] (h ∙ ap some (sym (append-nil sent)))

-- what came before counts as sent
pub sooner :
    (r : Dispatcher × Bool) (uuid : String) (sent first more : List SocketMessage)
    → IsDelivered r uuid (sent ++ first) more
    → IsDelivered r uuid sent (first ++ more)
sooner r uuid sent first more h = record {
  delivered = first ++ h.delivered;
  found = h.found ∙ ap some (append_assoc sent first h.delivered);
  rest = h.rest;
  in_order = append_assoc first h.delivered h.rest ∙ ap (λ l. first ++ l) h.in_order;
  complete = h.complete;
}

pub broken_off :
    (d : Dispatcher) (uuid : String) (sent : List SocketMessage) (m : SocketMessage)
    (ms : List SocketMessage)
    → (lookup uuid d.subscribers ≡ some (sent ++ (m ∷ [])))
      ⊎ (lookup uuid d.subscribers ≡ some sent)
    → IsDelivered (d, true) uuid sent (m ∷ ms)
broken_off d uuid sent m ms (inl e) = record {
  delivered = m ∷ [];
  found = e;
  rest = ms;
  in_order = refl;
  complete = inl refl;
}
broken_off d uuid sent m ms (inr e) = record {
  delivered = [];
  found = e ∙ ap some (sym (append-nil sent));
  rest = m ∷ ms;
  in_order = refl;
  complete = inl refl;
}

pub send_until-IsDelivered :
    (k : ℕ) (i : Interruption) (ms : List SocketMessage) (d : Dispatcher) (uuid : String)
    (sent : List SocketMessage)
    → Others uuid i.turn
    → lookup uuid d.subscribers ≡ some sent
    → IsDelivered (send_until k i ms d) uuid sent ms
unfolding send_until
send_until-IsDelivered k i [] d uuid sent ne h = nothing_more d uuid sent h
send_until-IsDelivered zero i (m ∷ ms) d uuid sent ne h =
    elim (Bool-cases (ltb i.client (length d.subscribers) && resizes i.turn d)) [
      | inl e ↦ rw e (
          broken_off _ uuid sent m ms (
            subst (λ l. (l ≡ some (sent ++ (m ∷ []))) ⊎ (l ≡ some sent))
              (sym (
                lookup-take_turn i.turn uuid
                  (record d { subscribers = send_first i.client m d.subscribers }) ne))
              (lookup-send_first i.client uuid m d.subscribers h)))
      | inr e ↦ rw e (
          all-IsDelivered _ uuid sent (m ∷ ms) (lookup-send_all uuid (m ∷ ms) d.subscribers sent h))
    ]
send_until-IsDelivered (suc k) i (m ∷ ms) d uuid sent ne h = sooner _ uuid sent (m ∷ []) ms (
    send_until-IsDelivered k i ms _ uuid (sent ++ (m ∷ [])) ne
      (lookup-send_str uuid m d.subscribers h))

pub type-send_until :
    (k : ℕ) (i : Interruption) (ms : List SocketMessage) (d : Dispatcher)
    → (send_until k i ms d).0.type ≡ d.type
unfolding send_until
type-send_until k i [] d = refl
type-send_until zero i (m ∷ ms) d =
    elim (Bool-cases (ltb i.client (length d.subscribers) && resizes i.turn d)) [
      | inl e ↦ rw e (type-take_turn i.turn _)
      | inr e ↦ rw e refl
    ]
type-send_until (suc k) i (m ∷ ms) d = type-send_until k i ms _

none_left : {rest : List SocketMessage} → (false ≡ true) ⊎ (rest ≡ []) → rest ≡ []
none_left (inl e) = cc
none_left (inr e) = e

pub or_raised-IsDelivered :
    (r : Dispatcher × Bool) (next : Dispatcher → Dispatcher × Bool) (uuid : String)
    (sent ms more : List SocketMessage)
    → IsDelivered r uuid sent ms
    → (lookup uuid r.0.subscribers ≡ some (sent ++ ms)
        → IsDelivered (next r.0) uuid (sent ++ ms) more)
    → IsDelivered (or_raised r next) uuid sent (ms ++ more)
or_raised-IsDelivered (d, true) next uuid sent ms more h next_sent = record {
  delivered = h.delivered;
  found = h.found;
  rest = h.rest ++ more;
  in_order = sym (append_assoc h.delivered h.rest more) ∙ ap (λ l. l ++ more) h.in_order;
  complete = inl refl;
}
or_raised-IsDelivered (d, false) next uuid sent ms more h next_sent =
    let all : h.delivered ≡ ms =
      sym (append-nil h.delivered)
      ∙ ap (λ l. h.delivered ++ l) (sym (none_left h.complete))
      ∙ h.in_order in
    sooner _ uuid sent ms more (next_sent (h.found ∙ ap (λ l. some (sent ++ l)) all))
