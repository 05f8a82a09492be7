-- ===== src/Base/Text.antt =====
-- Texts: code points, and the decimal text of a number as a template literal prints it.
use Prim.Native.Nat.{ℕ, zero, suc, ◌/◌, ◌%◌}
use Prim.Native.Char.{code}
use Prim.Native.String.{String, ◌++◌}
use mathlib.Core.Path.{◌≡◌, refl}
use mathlib.Core.List.{List, [], ◌∷◌}
use package.pipee.Base.Tests.{if◌then◌else◌, ltb, ◌==◌}

infixr 66 ◌<>◌
abbrev pub ◌<>◌ : String → String → String
s <> t = s ++ t

abbrev pub codes : String → List ℕ
codes String.[] = []
codes (String.◌∷◌ c s) = code c ∷ codes s

abbrev digit_text : ℕ → String
digit_text d =
    if d == 0
    then "0"
    else if d == 1
    then "1"
    else if d == 2
    then "2"
    else if d == 3
    then "3"
    else if d == 4
    then "4"
    else if d == 5
    then "5"
    else if d == 6
    then "6"
    else if d == 7
    then "7"
    else if d == 8
    then "8"
    else "9"

-- On fuel above the number itself, which has no more digits than that.
show_from : ℕ → ℕ → String
show_from zero n = ""
show_from (suc fuel) n =
    let rest = show_from fuel (n / 10) in
    if ltb n 10 then digit_text n else rest <> digit_text (n % 10)

-- `String(n)` of a non-negative integer.
unfoldable pub show : ℕ → String
unfolding show_from
show n = show_from (suc n) n

show_test : show 1070 ≡ "1070"
unfolding show
show_test = refl
