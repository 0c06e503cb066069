-- ===== src/Prelude/Texts.antt =====
-- Text as the program prints it: decimal numbers, concatenation and strings.Join.
use Prim.Native.Nat.{ℕ, zero, suc, ◌/◌, ◌%◌}
use Prim.Native.String.{String, ◌++◌}
use mathlib.Core.Path.{◌≡◌, refl}
use mathlib.Core.List.{List, [], ◌∷◌}
use cluster_agent.Prelude.Tests.{◌==◌, if◌then◌else◌}

unfoldable pub digit : ℕ → String
digit d =
    if d == 0
    then "0"
    else if d == 1
    then "1"
    else if d == 2
    then "2"
    else if d == 3
    then "3"
    else if d == 4
    then "4"
    else if d == 5
    then "5"
    else if d == 6
    then "6"
    else if d == 7
    then "7"
    else if d == 8
    then "8"
    else "9"

-- The digits of `n` before `out`. The fuel `suc n` of `itoa` exceeds the number of digits.
itoa_from : ℕ → ℕ → String → String
itoa_from zero n out = out
itoa_from (suc f) n out =
    let s = digit (n % 10) ++ out in
    let rest = itoa_from f (n / 10) s in if n / 10 == 0 then s else rest

-- strconv.Itoa on a number that is not negative.
unfoldable pub itoa : ℕ → String
unfolding itoa_from digit
itoa n = itoa_from (suc n) n ""

itoa_8080 : itoa 8080 ≡ "8080"
unfolding itoa
itoa_8080 = refl

-- fmt.Sprintf, as the list of the pieces that it puts together.
unfoldable pub concat : List String → String
concat [] = ""
concat (s ∷ ss) = s ++ concat ss

unfoldable pub join : List String → String → String
join [] sep = ""
join (s ∷ []) sep = s
join (s ∷ t ∷ ss) sep = s ++ (sep ++ join (t ∷ ss) sep)

join_two : join ("a" ∷ "b" ∷ []) ", " ≡ "a, b"
unfolding join
join_two = refl
