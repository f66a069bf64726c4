-- ===== src/Prelude/Text.antt =====
-- Numbers as text, and the search for a text inside another.
use Prim.Native.Nat.{ℕ, zero, suc, ◌/◌, ◌%◌}
use Prim.Native.Char.{Char, char}
use Prim.Native.String.{String}
use mathlib.Core.Bool.{Bool, ◌||◌}
use text.Mathlib.Text.{starts_with}
use gslb.Prelude.Tests.{◌==◌, if◌then◌else◌}

abbrev pub digit : ℕ → Char
digit d =
    if d == 0
    then char 48 tt
    else if d == 1
    then char 49 tt
    else if d == 2
    then char 50 tt
    else if d == 3
    then char 51 tt
    else if d == 4
    then char 52 tt
    else if d == 5
    then char 53 tt
    else if d == 6
    then char 54 tt
    else if d == 7
    then char 55 tt
    else if d == 8
    then char 56 tt
    else char 57 tt

unfoldable pub decimal_from : ℕ → ℕ → String → String
decimal_from zero n acc = acc
decimal_from (suc f) n acc =
    let rest = decimal_from f (n / 10) (String.◌∷◌ (digit (n % 10)) acc) in
    if n / 10 == 0 then String.◌∷◌ (digit (n % 10)) acc else rest

-- `%d` of an `int` that is not negative: twenty rounds are enough for every one.
unfoldable pub decimal : ℕ → String
unfolding decimal_from
decimal n = decimal_from 20 n ""

-- `s` contains `t`: at some place, `t` is a prefix of what is left.
unfoldable pub contains : String → String → Bool
contains String.[] t = starts_with String.[] t
contains (String.◌∷◌ c s) t = starts_with (String.◌∷◌ c s) t || contains s t
