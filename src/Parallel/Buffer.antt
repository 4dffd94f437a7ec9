-- ===== src/Parallel/Buffer.antt =====
-- The buffer that `result` fills, place by place.
use planetmint.Base.{
  ℕ, zero, suc, ◌≤◌, ◌<◌, ◌≡◌, refl, sym, ap, ◌∙◌, ◌⊎◌, inl, inr, ◌↔◌, false, Option, some, List,
  [], ◌∷◌, length, get_elem?, eqb, eqb_iff, ltb, if◌then◌else◌, All, Bool-cases, arith,
}
use planetmint.Errors.{ok, >>=-eq-ok, ok-injective}
use planetmint.Transaction.Model.{Transaction}
use planetmint.Parallel.{Answer, set_elem, collect}
use planetmint.Parallel.Schedule.{In}
use planetmint.Parallel.Indices.{count, total}

-- counts the answers of one index
abbrev pub is_index : ℕ → ℕ → ℕ
is_index i j = if eqb j i then 1 else 0

pub is_index_self : (i : ℕ) → is_index i i ≡ 1
is_index_self i = ground arith

pub total-is_index : (i n : ℕ) → total (is_index i) n ≡ (if ltb i n then 1 else 0)
total-is_index i zero = ground arith
total-is_index i (suc n) = ground (arith, total-is_index i n)

pub total-one : (n : ℕ) → total (λ i. 1) n ≡ n
total-one zero = refl
total-one (suc n) = omega (arith, total-one n)

length-set_elem :
    {A : Type 0} (i : ℕ) (a : A) (xs : List A) {ys : List A}
    → set_elem i a xs ≡ ok ys
    → length ys ≡ length xs
length-set_elem i a [] h = cc
length-set_elem zero a (x ∷ xs) h = rw (← ok-injective h) refl
length-set_elem (suc i) a (x ∷ xs) h =
    let inside = >>=-eq-ok (set_elem i a xs) (λ rest. ok (x ∷ rest)) h in
    rw (← ok-injective inside.2) (ap suc (length-set_elem i a xs inside.1))

eqb-suc : (i j : ℕ) → eqb i j ≡ eqb (suc i) (suc j)
eqb-suc i j = ground arith

eqb-zero-suc : (j : ℕ) → eqb 0 (suc j) ≡ false
eqb-zero-suc j = ground arith

eqb-suc-zero : (j : ℕ) → eqb (suc j) 0 ≡ false
eqb-suc-zero j = ground arith

get-set_elem :
    {A : Type 0} (i : ℕ) (a : A) (xs : List A) (j : ℕ) {ys : List A}
    → set_elem i a xs ≡ ok ys
    → get_elem? ys j ≡ (if eqb i j then some a else get_elem? xs j)
get-set_elem i a [] j h = cc
get-set_elem zero a (x ∷ xs) zero h = rw (← ok-injective h) refl
get-set_elem zero a (x ∷ xs) (suc j) h = rw (← ok-injective h, eqb-zero-suc j) refl
get-set_elem (suc i) a (x ∷ xs) zero h =
    let inside = >>=-eq-ok (set_elem i a xs) (λ rest. ok (x ∷ rest)) h in
    rw (← ok-injective inside.2, eqb-suc-zero i) refl
get-set_elem (suc i) a (x ∷ xs) (suc j) h =
    let inside = >>=-eq-ok (set_elem i a xs) (λ rest. ok (x ∷ rest)) h in
    rw (← ok-injective inside.2, ← eqb-suc i j) (get-set_elem i a xs j inside.1)

set_elem-ok :
    {A : Type 0} (i : ℕ) (a : A) (xs : List A)
    → i < length xs
    → (ys : List A) × (set_elem i a xs ≡ ok ys)
set_elem-ok i a [] h = absurd (omega arith)
set_elem-ok zero a (x ∷ xs) h = (_, refl)
set_elem-ok (suc i) a (x ∷ xs) h =
    let inside = set_elem-ok i a xs (omega arith) in (x ∷ inside.0, rw inside.1 refl)

-- Two lists with the same elements are the same.
pub get_elem?-ext :
    {A : Type 0} (xs ys : List A)
    → length xs ≡ length ys
    → ((i : ℕ) → get_elem? xs i ≡ get_elem? ys i)
    → xs ≡ ys
get_elem?-ext [] [] n h = refl
get_elem?-ext [] (y ∷ ys) n h = absurd (omega arith)
get_elem?-ext (x ∷ xs) [] n h = absurd (omega arith)
get_elem?-ext (x ∷ xs) (y ∷ ys) n h =
    let same = get_elem?-ext xs ys (omega arith) (λ i. h (suc i)) in cc (h 0, same)

module _ {F : Type 0} where
  -- the last answer for the index
  abbrev pub last_answer :
      ℕ → List (Answer F) → Option (Option (Transaction F)) → Option (Option (Transaction F))
  last_answer j [] found = found
  last_answer j ((i, t) ∷ answers) found = last_answer j answers (if eqb i j then some t else found)

  pub collect-get :
      (n j : ℕ) (answers : List (Answer F)) (buffer : List (Option (Transaction F)))
      {written : List (Option (Transaction F))} {rest : List (Answer F)}
      → length answers ≤ n
      → collect n answers buffer ≡ ok (written, rest)
      → get_elem? written j ≡ last_answer j answers (get_elem? buffer j)
  collect-get zero j [] buffer few h = cc
  collect-get zero j (a ∷ answers) buffer few h = absurd (omega arith)
  collect-get (suc n) j [] buffer few h = cc
  collect-get (suc n) j ((i, t) ∷ answers) buffer few h =
      let one = >>=-eq-ok (set_elem i t buffer) _ h in
      collect-get n j answers one.0 (omega arith) one.2
      ∙ ap (last_answer j answers) (get-set_elem i t buffer j one.1)

  pub length-collect :
      (n : ℕ) (answers : List (Answer F)) (buffer : List (Option (Transaction F)))
      {written : List (Option (Transaction F))} {rest : List (Answer F)}
      → collect n answers buffer ≡ ok (written, rest)
      → length written ≡ length buffer
  length-collect zero answers buffer h = ap (λ r. length r.0) (sym (ok-injective h))
  length-collect (suc n) [] buffer h = cc
  length-collect (suc n) ((i, t) ∷ answers) buffer h =
      let one = >>=-eq-ok (set_elem i t buffer) _ h in
      length-collect n answers one.0 one.2 ∙ length-set_elem i t buffer one.1

  pub collect-returns :
      (n : ℕ) (answers : List (Answer F)) (buffer : List (Option (Transaction F)))
      → n ≤ length answers
      → All (λ a. a.0 < length buffer) answers
      → (got : List (Option (Transaction F)) × List (Answer F)) × (collect n answers buffer
          ≡ ok got)
  collect-returns zero answers buffer enough h = (_, refl)
  collect-returns (suc n) [] buffer enough h = absurd (omega arith)
  collect-returns (suc n) ((i, t) ∷ answers) buffer enough h =
      let one = set_elem-ok i t buffer h.0 in
      let rest =
        collect-returns n answers one.0 (omega arith) (rw (length-set_elem i t buffer one.1) h.1) in
      (rest.0, rw one.1 rest.1)

  pair-injective :
      {j k : ℕ} {s t : Option (Transaction F)} → ◌≡◌ {A = Answer F} (j, s) (k, t) → s ≡ t
  pair-injective e = ap (λ a. a.1) e

  is_index_of :
      {j : ℕ} {t : Option (Transaction F)} {a : Answer F} → a ≡ (j, t) → is_index j a.0 ≡ 1
  is_index_of {j} {t} {a} e = ap (λ b. is_index j b.0) e ∙ is_index_self j

  pub In-count :
      (j : ℕ) (t : Option (Transaction F)) (answers : List (Answer F))
      → In (j, t) answers
      → 1 ≤ count (is_index j) answers
  In-count j t [] h = absurd h
  In-count j t (a ∷ answers) h = elim h [
    | inl e ↦ rw (e, is_index_self j) (omega arith)
    | inr e ↦ omega (arith, In-count j t answers e)
  ]

  -- At most one answer for the index: it is found, or there is none.
  pub last_answer-cases :
      (j : ℕ) (answers : List (Answer F)) (found : Option (Option (Transaction F)))
      → count (is_index j) answers ≤ 1
      → ((count (is_index j) answers ≡ 0) × (last_answer j answers found ≡ found))
        ⊎ ((t : Option (Transaction F)) × In (j, t) answers
            × (last_answer j answers found ≡ some t))
  last_answer-cases j [] found h = inl (refl, refl)
  last_answer-cases j ((i, t) ∷ answers) found h = elim (Bool-cases (eqb i j)) [
    | inl same ↦
        let e = (eqb_iff i j).0 same in
        elim (last_answer-cases j answers (some t) (omega arith)) [
          | inl r ↦ inr (t, inl (ap (λ k. (k, t)) e), rw same r.1)
          | inr r ↦ inr (r.0, inr r.1, rw same r.2)
        ]
    | inr other ↦ elim (last_answer-cases j answers found (omega arith)) [
      | inl r ↦ inl (rw other (omega (arith, r.0)), rw other r.1)
      | inr r ↦ inr (r.0, inr r.1, rw other r.2)
    ]
  ]

  -- Two answers for an index that is answered once are one.
  pub In-unique :
      (j : ℕ) (s t : Option (Transaction F)) (answers : List (Answer F))
      → count (is_index j) answers ≤ 1
      → In (j, s) answers
      → In (j, t) answers
      → s ≡ t
  In-unique j s t [] h p q = absurd p
  In-unique j s t (a ∷ answers) h p q = elim p [
    | inl e ↦ elim q [
      | inl r ↦ pair-injective (sym e ∙ r)
      | inr r ↦ absurd (omega (arith, is_index_of e, In-count j t answers r))
    ]
    | inr e ↦ elim q [
      | inl r ↦ absurd (omega (arith, is_index_of r, In-count j s answers e))
      | inr r ↦ In-unique j s t answers (omega arith) e r
    ]
  ]

  pub last_answer-same :
      (j : ℕ) (as' bs : List (Answer F)) (found : Option (Option (Transaction F)))
      → count (is_index j) as' ≤ 1
      → count (is_index j) bs ≤ 1
      → ((t : Option (Transaction F)) → In (j, t) as' ↔ In (j, t) bs)
      → last_answer j as' found ≡ last_answer j bs found
  last_answer-same j as' bs found h k same = elim (last_answer-cases j as' found h) [
    | inl p ↦ elim (last_answer-cases j bs found k) [
      | inl q ↦ p.1 ∙ sym q.1
      | inr q ↦ absurd (omega (arith, p.0, In-count j q.0 as' ((same q.0).1 q.1)))
    ]
    | inr p ↦ elim (last_answer-cases j bs found k) [
      | inl q ↦ absurd (omega (arith, q.0, In-count j p.0 bs ((same p.0).0 p.1)))
      | inr q ↦ p.2 ∙ ap some (In-unique j p.0 q.0 bs k ((same p.0).0 p.1) q.1) ∙ sym q.2
    ]
  ]
