-- ===== src/Web/Parameters.antt =====
-- planetmint/web/views/parameters.py, on texts as lists of code points. `lower` changes ASCII
-- letters; a `ValueError` is none.
use planetmint.Base.{
  ℕ, zero, suc, ◌+◌, ◌≡◌, refl, ap, sym, ◌∙◌, ◌↔◌, ◌⊎◌, inl, inr, Bool, true, false, not, ◌&&◌,
  ◌||◌, Option, none, some, List, [], ◌∷◌, ◌++◌, map, leb, eqb, if◌then◌else◌, length, All, arith,
  Bool-cases,
}

abbrev pub between : ℕ → ℕ → ℕ → Bool
between low high c = leb low c && leb c high

-- `[a-fA-F0-9]`
abbrev pub is_hex : ℕ → Bool
is_hex c = between b'a' b'f' c || (between b'A' b'F' c || between b'0' b'9' c)

-- `[1-9a-zA-Z]`
abbrev pub is_alphanumeric : ℕ → Bool
is_alphanumeric c = between b'1' b'9' c || (between b'a' b'z' c || between b'A' b'Z' c)

-- `[Il0O]`
abbrev is_ambiguous : ℕ → Bool
is_ambiguous c = eqb c b'I' || (eqb c b'l' || (eqb c b'0' || eqb c b'O'))

abbrev pub newline : ℕ
newline = 10

-- `$` is the end, also before a newline that ends the text
abbrev pub at_end : List ℕ → Bool
at_end [] = true
at_end (c ∷ []) = eqb c newline
at_end (c ∷ d ∷ cs) = false

-- `^[…]{n}$`
unfoldable pub matches_class : (ℕ → Bool) → ℕ → List ℕ → Bool
matches_class class zero cs = at_end cs
matches_class class (suc n) [] = false
matches_class class (suc n) (c ∷ cs) =
    let rest = matches_class class n cs in if class c then rest else false

-- `.*[Il0O]`, where `.` is anything but a newline
abbrev has_ambiguous : List ℕ → Bool
has_ambiguous [] = false
has_ambiguous (c ∷ cs) =
    let rest = has_ambiguous cs in
    if is_ambiguous c then true else if eqb c newline then false else rest

abbrev pub lower_of : ℕ → ℕ
lower_of c = if between b'A' b'Z' c then c + 32 else c

unfoldable pub valid_txid : List ℕ → Option (List ℕ)
unfolding matches_class
valid_txid txid = if matches_class is_hex 64 txid then some (map lower_of txid) else none

abbrev pub same_text : List ℕ → List ℕ → Bool
same_text [] [] = true
same_text (c ∷ cs) (d ∷ ds) = let rest = same_text cs ds in if eqb c d then rest else false
same_text _ _ = false

unfoldable pub valid_bool : List ℕ → Option Bool
valid_bool val =
    if same_text (map lower_of val) (b't' ∷ b'r' ∷ b'u' ∷ b'e' ∷ [])
    then some true
    else if same_text (map lower_of val) (b'f' ∷ b'a' ∷ b'l' ∷ b's' ∷ b'e' ∷ [])
    then some false
    else none

unfoldable pub valid_ed25519 : List ℕ → Option (List ℕ)
unfolding matches_class
valid_ed25519 key =
    if (matches_class is_alphanumeric 43 key || matches_class is_alphanumeric 44 key)
      && not (has_ambiguous key)
    then some key
    else none

-- This many characters of a class, and perhaps a newline.
abbrev pub Spells : (ℕ → Bool) → ℕ → List ℕ → Type 0
Spells class n cs =
    (digits : List ℕ) × (length digits ≡ n)
    × All (λ c. class c ≡ true) digits
    × ((cs ≡ digits) ⊎ (cs ≡ digits ++ (newline ∷ [])))

at_end-true : (cs : List ℕ) → at_end cs ≡ true → (cs ≡ []) ⊎ (cs ≡ newline ∷ [])
at_end-true [] h = inl refl
at_end-true (c ∷ []) h = inr (ground arith)
at_end-true (c ∷ d ∷ cs) h = cc

matches_class-Spells :
    (class : ℕ → Bool) (n : ℕ) (cs : List ℕ) → matches_class class n cs ≡ true → Spells class n cs
unfolding matches_class
matches_class-Spells class zero cs h = elim (at_end-true cs h) [
  | inl e ↦ ([], refl, tt, inl e)
  | inr e ↦ ([], refl, tt, inr e)
]
matches_class-Spells class (suc n) [] h = cc
matches_class-Spells class (suc n) (c ∷ cs) h = elim (Bool-cases (class c)) [
  | inl e ↦
      let (digits, long, all_in, ends) = matches_class-Spells class n cs (rw e at h) in
      (
        c ∷ digits,
        ap suc long,
        (e, all_in),
        elim ends [ inl r ↦ inl (ap (λ l. c ∷ l) r) | inr r ↦ inr (ap (λ l. c ∷ l) r) ],
      )
  | inr e ↦ cc (rw e at h)
]

Spells-matches_class :
    (class : ℕ → Bool) (n : ℕ) (digits : List ℕ)
    → length digits ≡ n
    → All (λ c. class c ≡ true) digits
    → (matches_class class n digits ≡ true)
      × (matches_class class n (digits ++ (newline ∷ [])) ≡ true)
unfolding matches_class
Spells-matches_class class zero [] long h = (refl, refl)
Spells-matches_class class zero (d ∷ ds) long h = absurd (omega arith)
Spells-matches_class class (suc n) [] long h = absurd (omega arith)
Spells-matches_class class (suc n) (d ∷ ds) long h =
    let both = Spells-matches_class class n ds (omega arith) h.1 in (rw h.0 both.0, rw h.0 both.1)

Spells-accepted :
    (class : ℕ → Bool) (n : ℕ) (cs : List ℕ) → Spells class n cs → matches_class class n cs ≡ true
Spells-accepted class n cs (digits, long, all_in, ends) =
    let both = Spells-matches_class class n digits long all_in in
    elim ends [
      | inl e ↦ ap (matches_class class n) e ∙ both.0
      | inr e ↦ ap (matches_class class n) e ∙ both.1
    ]

-- valid_txid takes exactly the texts of sixty-four hexadecimal digits, with or without a newline at
-- the end, and returns them with the letters made small.
pub valid_txid_iff :
    (txid result : List ℕ)
    → (valid_txid txid ≡ some result) ↔ (Spells is_hex 64 txid × (result ≡ map lower_of txid))
unfolding valid_txid
valid_txid_iff txid result = (
  λ h. elim (Bool-cases (matches_class is_hex 64 txid)) [
    | inl e ↦ (matches_class-Spells is_hex 64 txid e, ground arith)
    | inr e ↦ cc (rw e at h)
  ],
  λ h. rw (Spells-accepted is_hex 64 txid h.0) (ap some (sym h.1)),
)
