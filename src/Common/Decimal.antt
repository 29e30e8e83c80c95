-- ===== src/Common/Decimal.antt =====
-- A number read back from its decimal print.
use Prim.Native.Nat.{ℕ, zero, suc, ◌+◌, ◌*◌, ◌/◌, ◌%◌, ◌≤◌, ◌<◌}
use Prim.Native.Char.{code}
use Prim.Native.String.{String}
use Prim.Native.String
use Prim.Native.String.append
use mathlib.Core.Path.{◌≡◌, refl, sym, ap, ◌∙◌}
use mathlib.Core.List.{List, [], ◌∷◌, ◌++◌, append_assoc, append-nil}
use mathlib.Core.Option.{Option, none, some}
use mathlib.Core.Bool.{true, false}
use mathlib.Core.Logic.{inl, inr}
use native.Mathlib.Omega.{arith}
use netgraphz2_gpl.Common.Lists.{All, All-append}
use netgraphz2_gpl.Common.Tests.{Bool-cases, ltb}
use netgraphz2_gpl.Common.Text.{
  codes, decimal, decimal_fuel, digit, is_digit, parse_digits, parse_int_codes, skip_sign,
  skip_space,
}

pub codes-append : (a b : String) → codes (String.◌++◌ a b) ≡ codes a ++ codes b
codes-append String.[] b = λ i. codes (append.nil b i)
codes-append (String.◌∷◌ c a) b =
    (λ i. codes (append.cons c a b i)) ∙ ap (◌∷◌ (code c)) (codes-append a b)

codes-digit : (n : ℕ) → n < 10 → codes (digit n) ≡ (b'0' + n) ∷ []
unfolding digit
codes-digit zero h = refl
codes-digit (suc zero) h = refl
codes-digit (suc (suc zero)) h = refl
codes-digit (suc (suc (suc zero))) h = refl
codes-digit (suc (suc (suc (suc zero)))) h = refl
codes-digit (suc (suc (suc (suc (suc zero))))) h = refl
codes-digit (suc (suc (suc (suc (suc (suc zero)))))) h = refl
codes-digit (suc (suc (suc (suc (suc (suc (suc zero))))))) h = refl
codes-digit (suc (suc (suc (suc (suc (suc (suc (suc zero)))))))) h = refl
codes-digit (suc (suc (suc (suc (suc (suc (suc (suc (suc zero))))))))) h = refl
codes-digit (suc (suc (suc (suc (suc (suc (suc (suc (suc (suc n)))))))))) h = absurd (omega arith)

-- One more digit is read as the last one.
parse_digits_last :
    (read : Option ℕ) (n d : ℕ) (rest : List ℕ)
    → d < 10
    → elim read [ none ↦ 0 | some m ↦ m ] * 10 + d ≡ n
    → parse_digits read ((b'0' + d) ∷ rest) ≡ parse_digits (some n) rest
unfolding parse_digits
parse_digits_last none n d rest lt e = ground arith
parse_digits_last (some m) n d rest lt e = ground arith

decimal_fuel_long :
    (fuel n : ℕ)
    → ltb n 10 ≡ false
    → codes (decimal_fuel (suc fuel) n) ≡ codes (decimal_fuel fuel (n / 10)) ++ (b'0' + n % 10) ∷ []
unfolding decimal_fuel
decimal_fuel_long fuel n h = rw h (
    codes-append (decimal_fuel fuel (n / 10)) (digit (n % 10))
    ∙ ap (◌++◌ (codes (decimal_fuel fuel (n / 10)))) (codes-digit (n % 10) (omega arith)))

decimal_fuel_short : (fuel n : ℕ) → ltb n 10 ≡ true → codes (decimal_fuel fuel n) ≡ (b'0' + n) ∷ []
unfolding decimal_fuel
decimal_fuel_short zero n h = codes-digit n (ground arith)
decimal_fuel_short (suc fuel) n h = rw h (codes-digit n (ground arith))

parse_digits-decimal_fuel :
    (fuel n : ℕ) (rest : List ℕ)
    → n ≤ fuel
    → parse_digits none (codes (decimal_fuel fuel n) ++ rest) ≡ parse_digits (some n) rest
parse_digits-decimal_fuel zero n rest h =
    rw (decimal_fuel_short zero n (ground arith))
      (parse_digits_last none n n rest (omega arith) (omega arith))
parse_digits-decimal_fuel (suc fuel) n rest h = elim (Bool-cases (ltb n 10)) [
  | inl short ↦
      rw (decimal_fuel_short (suc fuel) n short)
        (parse_digits_last none n n rest (ground arith) (omega arith))
  | inr long ↦
      rw (decimal_fuel_long fuel n long, append_assoc)
        (parse_digits-decimal_fuel fuel (n / 10) ((b'0' + n % 10) ∷ rest) (ground arith)
          ∙ parse_digits_last (some (n / 10)) n (n % 10) rest (omega arith) (omega arith))
]

abbrev pub IsDigit : ℕ → Type 0
IsDigit c = is_digit c ≡ true

decimal_fuel-IsDigit : (fuel n : ℕ) → n ≤ fuel → All IsDigit (codes (decimal_fuel fuel n))
decimal_fuel-IsDigit zero n h = rw (decimal_fuel_short zero n (ground arith)) (ground arith, tt)
decimal_fuel-IsDigit (suc fuel) n h = elim (Bool-cases (ltb n 10)) [
  | inl short ↦ rw (decimal_fuel_short (suc fuel) n short) (ground arith, tt)
  | inr long ↦ rw (decimal_fuel_long fuel n long) (
      All-append IsDigit (codes (decimal_fuel fuel (n / 10))) ((b'0' + n % 10) ∷ [])
        (decimal_fuel-IsDigit fuel (n / 10) (ground arith)) (ground arith, tt))
]

-- The print of a number is made of digits, one at least, and is read as the number.
pub decimal-IsDigit : (n : ℕ) → All IsDigit (codes (decimal n))
unfolding decimal
decimal-IsDigit n = decimal_fuel-IsDigit n n (omega arith)

pub parse_digits-decimal : (n : ℕ) → parse_digits none (codes (decimal n)) ≡ some n
unfolding decimal parse_digits
parse_digits-decimal n =
    ap (parse_digits none) (sym (append-nil (codes (decimal_fuel n n))))
    ∙ parse_digits-decimal_fuel n n [] (omega arith)

-- `parseInt` skips nothing before digits.
pub parse_int_codes-IsDigit :
    (cs : List ℕ) → All IsDigit cs → parse_int_codes cs ≡ parse_digits none cs
unfolding parse_int_codes skip_sign skip_space
parse_int_codes-IsDigit [] h = refl
parse_int_codes-IsDigit (c ∷ cs) h = ground arith
