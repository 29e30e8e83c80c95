-- ===== src/Numbers.antt =====
-- What the browser's code does with a `number` that need not be a whole number, as a parameter.
use Prim.Native.Nat.{ℕ}
use Prim.Native.String.{String}
use mathlib.Core.Bool.{Bool}

-- `number`, as IEEE 754 defines it, with the functions of `Math`.
pub record Numbers (W : Type 0) : Type 0 where
  pub of_ℕ : ℕ → W
  pub minus_one : W
  pub add : W → W → W
  pub sub : W → W → W
  pub mul : W → W → W
  pub div : W → W → W
  pub min : W → W → W
  pub max : W → W → W
  pub round : W → W
  pub floor : W → W
  pub log10 : W → W
  pub pow : W → W → W
  pub eq : W → W → Bool
  pub lt : W → W → Bool
  pub le : W → W → Bool
  pub to_text : W → String
  -- `toFixed`.
  pub to_fixed : ℕ → W → String
