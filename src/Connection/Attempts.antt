-- ===== src/Connection/Attempts.antt =====
-- How the attempts to connect end.
use planetmint.Base.{
  ℕ, zero, suc, ◌+◌, ◌<◌, ◌≡◌, ◌≢◌, refl, sym, ap, arith, false, Option, some, eqb, subst, ◌∙◌,
}
use native.Mathlib.Decide.{dec_lt}
use native.Mathlib.Numerals.{add-one}
use planetmint.Errors.{Error, Result, ok, err, connection_error}
use planetmint.Connection.{Settings, Driver, connect_once, attempted, attempts, connect}

module _ (driver : Driver) (s : Settings) where
  open driver use {World, Object}

  -- So many attempts in a row fail to connect, between these two worlds.
  pub data Fails : ℕ → World → World → Type 0 where
    untried : {w : World} → Fails 0 w w
    failed :
        {n : ℕ} {w w' w'' : World}
        → Fails n w w'
        → connect_once driver s w' ≡ (err connection_error, w'')
        → Fails (suc n) w w''

  -- How `connect` may end that is allowed so many attempts.
  pub data Ends (w : World) : Result (Option Object) × World → Type 0 where
    -- an attempt before the last succeeds, after failed ones
    connected :
        {n : ℕ} {w' w'' : World} {client : Object} {r : Result (Option Object) × World}
        → Fails n w w'
        → n < s.max_tries
        → connect_once driver s w' ≡ (ok client, w'')
        → r ≡ (ok (some client), w'')
        → Ends w r
    -- an attempt raises something else
    refused :
        {n : ℕ} {w' w'' : World} {e : Error} {r : Result (Option Object) × World}
        → Fails n w w'
        → n < s.max_tries
        → connect_once driver s w' ≡ (err e, w'')
        → e ≢ connection_error
        → r ≡ (err e, w'')
        → Ends w r
    given_up :
        {w' : World} {r : Result (Option Object) × World}
        → Fails s.max_tries w w'
        → r ≡ (err connection_error, w')
        → Ends w r

  Error-discrete : Discrete Error
  Error-discrete = hlevel

  attempted-refused :
      (n : ℕ) (next : World → Option (Result (Option Object) × World)) (e : Error) (w : World)
      → e ≢ connection_error
      → attempted driver s.max_tries n next (err e, w) ≡ some (err e, w)
  attempted-refused n next connection_error w ne = absurd (ne refl)
  attempted-refused n next _ w ne = refl

  -- one round: it ends the loop, or the next rounds do
  attempted-Ends :
      (rounds n : ℕ) (w w' : World) (next : World → Option (Result (Option Object) × World))
      (x : Result Object × World)
      → connect_once driver s w' ≡ x
      → suc rounds + n ≡ s.max_tries
      → Fails n w w'
      → ((v : World)
          → Fails (suc n) w v
          → 0 < rounds
          → (r : Result (Option Object) × World) × (next v ≡ some r) × Ends w r)
      → (r : Result (Option Object) × World) × (attempted driver s.max_tries (n + 1) next x
          ≡ some r)
        × Ends w r
  attempted-Ends rounds n w w' next (ok client, v) e sum f ih =
      (_, refl, connected f (omega arith) e refl)
  attempted-Ends rounds n w w' next (err raised, v) e sum f ih =
      elim (Error-discrete raised connection_error) [
        | no other ↦
            (_, attempted-refused (n + 1) next raised v other, refused f (omega arith) e other refl)
        | yes same ↦ failed_round (e ∙ ap (λ x. (err x, v)) same) (sym same)
      ]
    where
      failed_round :
          connect_once driver s w' ≡ (err connection_error, v)
          → connection_error ≡ raised
          → (r : Result (Option Object) × World) × (attempted driver s.max_tries
                (n + 1)
                next
                (err raised, v)
              ≡ some r)
            × Ends w r
      failed_round fails same = rw (← same) (elim (dec_lt 0 rounds) [
        | yes more ↦ let (r, goes_on, ends) = ih v (failed f fails) more in (r, ground arith, ends)
        | no last ↦ (
          _,
          ground arith,
          given_up (subst (λ k. Fails k w v) (omega arith) (failed f fails)) refl,
        )
      ])

  attempts-Ends :
      (after : World → Option (Result (Option Object) × World)) (rounds n : ℕ) (w w' : World)
      → rounds + n ≡ s.max_tries
      → Fails n w w'
      → 0 < rounds
      → (r : Result (Option Object) × World) × (attempts driver after s rounds n w' ≡ some r)
        × Ends w r
  unfolding attempts
  attempts-Ends after zero n w w' sum f some_left = absurd (omega arith)
  attempts-Ends after (suc rounds) n w w' sum f some_left =
      attempted-Ends rounds n w w' _ (connect_once driver s w') refl sum f
        (λ v fv more. rw (add-one n) (attempts-Ends after rounds (suc n) w v (omega arith) fv more))

  -- If max_tries is not zero, connect ends: with the client of an attempt that comes after failed
  -- ones only and is one of the first max_tries, with what such an attempt raises that is no
  -- ConnectionError, or, if all of the max_tries attempts fail, with ConnectionError.
  pub connect-Ends :
      (rounds : ℕ) (conn_ : Option Object) (w : World)
      → 0 < s.max_tries
      → (r : Result (Option Object) × World) × (connect driver rounds s conn_ w ≡ some r) × Ends w r
  unfolding connect
  connect-Ends rounds conn_ w some_tries =
      rw (nonzero) (attempts-Ends _ s.max_tries 0 w w (omega arith) untried some_tries)
    where
      nonzero : eqb s.max_tries 0 ≡ false
      nonzero = ground arith
