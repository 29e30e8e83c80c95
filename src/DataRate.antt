-- ===== src/DataRate.antt =====
-- Data rates as text (web-phalcon/public/js/netgraphz/tools.js).
use netgraphz2_gpl.Numbers.{Numbers}
use netgraphz2_gpl.Common.{ℕ, ◌+◌, if◌then◌else◌, ltb, length, Option, none, some}
use Prim.Native.String.{String, ◌++◌}
use mathlib.Core.List.{List, [], ◌∷◌}
use mathlib.Core.Bool.{Bool}

abbrev prefixes : List String
prefixes = "" ∷ "k" ∷ "M" ∷ "G" ∷ "T" ∷ "P" ∷ "E" ∷ "Z" ∷ "Y" ∷ []

module _ {W : Type 0} (num : Numbers W) where
  open num use {of_ℕ, mul, div, floor, log10, pow, eq, lt, le, to_text, to_fixed}

  -- `prefixes[ index ]` from the position `i` on.
  prefix_at : W → ℕ → List String → String
  prefix_at index i [] = "undefined"
  prefix_at index i (p ∷ ps) = if eq index (of_ℕ i) then p else prefix_at index (i + 1) ps

  -- The two tests that keep the index in the list.
  index_in_range : W → W
  index_in_range index =
      if lt index (of_ℕ 0)
      then of_ℕ 0
      else if le (of_ℕ (length prefixes)) index
      then of_ℕ 8
      else index

  -- `dataRateBpsFormat`; `decimal_places` is `none` if it is no number.
  unfoldable pub data_rate_bps_format : W → Option ℕ → Bool → String
  unfolding prefix_at index_in_range
  data_rate_bps_format value decimal_places prefix_only =
      let index = index_in_range (floor (div (floor (log10 value)) (of_ℕ 3))) in
      let scaled = div value (pow (of_ℕ 10) (mul index (of_ℕ 3))) in
      let num_part : String = elim decimal_places [
        | none ↦ to_text scaled
        | some places ↦ if ltb 0 places then to_fixed places scaled else to_text scaled
      ] in
      num_part ++ " " ++ prefix_at index 0 prefixes ++ (if prefix_only then "" else "bps")
