-- ===== src/Base/Decimal.antt =====
-- `str(n)` of a natural number.
use Prim.Native.Nat.{ℕ, zero, suc, ◌<◌, ◌/◌, ◌%◌}
use Prim.Native.String.{String, ◌++◌}
use mathlib.Core.Logic.{dite}
use mathlib.Core.WellFounded.{Acc, WellFounded}
use native.Mathlib.Decide.{dec_lt}
use native.Mathlib.Omega.{arith}
use planetmint.Base.Tests.{eqb, if◌then◌else◌}

below : (k n : ℕ) → n < k → Acc ◌<◌ n
below zero n h = elim h [ ]
below (suc k) n h = Acc.intro n (λ m hm. below k m (omega arith))

unfoldable pub lt_wf : WellFounded ◌<◌
unfolding below
lt_wf = record { apply = λ n. below (suc n) n (omega arith) }

digit : ℕ → String
digit d =
    if eqb d 0
    then "0"
    else if eqb d 1
    then "1"
    else if eqb d 2
    then "2"
    else if eqb d 3
    then "3"
    else if eqb d 4
    then "4"
    else if eqb d 5
    then "5"
    else if eqb d 6
    then "6"
    else if eqb d 7
    then "7"
    else if eqb d 8
    then "8"
    else "9"

tenth_lt : (n : ℕ) → 9 < n → n / 10 < n
tenth_lt n h = omega arith

emit : (n : ℕ) → Acc ◌<◌ n → String → String
emit n (Acc.intro _ smaller) rest =
    dite (dec_lt 9 n)
      (λ h. emit (n / 10) (smaller (n / 10) (tenth_lt n h)) (digit (n % 10) ++ rest))
      (λ _. digit n ++ rest)

unfoldable pub decimal : ℕ → String
unfolding emit digit lt_wf dec_lt tenth_lt
decimal n = emit n (lt_wf.apply n) ""
