-- ===== src/Common/Text.antt =====
-- Numbers as text, and text as numbers.
use Prim.Native.Nat.{ℕ, zero, suc, ◌+◌, ◌-◌, ◌*◌, ◌/◌, ◌%◌}
use Prim.Native.Char.{code}
use Prim.Native.String.{String, ◌++◌}
use mathlib.Core.Bool.{Bool, ◌&&◌, ◌||◌}
use mathlib.Core.List.{List, [], ◌∷◌}
use mathlib.Core.Option.{Option, none, some}
use netgraphz2_gpl.Common.Lists.{get_elem?}
use netgraphz2_gpl.Common.Tests.{ltb, leb, ◌==◌, if◌then◌else◌}

-- The code points of a text. `String` has its own `[]` and `∷`.
abbrev pub codes : String → List ℕ
codes String.[] = []
codes (String.◌∷◌ c s) = code c ∷ codes s

abbrev digits : List String
digits = "0" ∷ "1" ∷ "2" ∷ "3" ∷ "4" ∷ "5" ∷ "6" ∷ "7" ∷ "8" ∷ "9" ∷ []

-- The digit `n`, which is below 10.
unfoldable pub digit : ℕ → String
digit n = elim (get_elem? digits n) [ some d ↦ d | none ↦ "" ]

-- With fuel `n` the digits of `n` are all written.
unfoldable pub decimal_fuel : ℕ → ℕ → String
unfolding digit
decimal_fuel zero n = digit n
decimal_fuel (suc fuel) n =
    let more = decimal_fuel fuel (n / 10) ++ digit (n % 10) in if ltb n 10 then digit n else more

-- `n.toString()`.
unfoldable pub decimal : ℕ → String
unfolding decimal_fuel
decimal n = decimal_fuel n n

abbrev pub is_digit : ℕ → Bool
is_digit c = leb b'0' c && leb c b'9'

-- The digits at the head of a text, after those that were read.
unfoldable pub parse_digits : Option ℕ → List ℕ → Option ℕ
parse_digits read [] = read
parse_digits read (c ∷ cs) =
    let seen : ℕ = elim read [ none ↦ 0 | some n ↦ n ] in
    let more = parse_digits (some (seen * 10 + (c - b'0'))) cs in if is_digit c then more else read

unfoldable pub skip_space : List ℕ → List ℕ
skip_space [] = []
skip_space (c ∷ cs) =
    let more = skip_space cs in if c == 32 || (leb 9 c && leb c 13) then more else c ∷ cs

unfoldable pub skip_sign : List ℕ → List ℕ
skip_sign [] = []
skip_sign (c ∷ cs) = if c == b'+' then cs else c ∷ cs

-- `parseInt(text)` of the text's code points, for a number that is not negative and not written with
-- `0x`; `none` is `NaN`.
unfoldable pub parse_int_codes : List ℕ → Option ℕ
unfolding parse_digits skip_space skip_sign
parse_int_codes cs = parse_digits none (skip_sign (skip_space cs))

unfoldable pub parse_int : String → Option ℕ
unfolding parse_int_codes
parse_int s = parse_int_codes (codes s)
