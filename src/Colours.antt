-- ===== src/Colours.antt =====
-- The colours of the edges (web-phalcon/public/js/netgraphz/{tools,renderer}.js).
use netgraphz2_gpl.Numbers.{Numbers}
use netgraphz2_gpl.Common.{ℕ, if◌then◌else◌, ◌==◌, not}
use Prim.Native.String.{String, ◌++◌}
use mathlib.Core.List.{List, [], ◌∷◌}
use mathlib.Core.Bool.{Bool, ◌&&◌, ◌||◌}

module _ {W : Type 0} (num : Numbers W) where
  open num use {of_ℕ, minus_one, add, sub, mul, div, min, max, round, floor, log10, eq, to_text}

  -- `Math.max(0, Math.min(top, x))`.
  in_range : ℕ → W → W
  in_range top x = max (of_ℕ 0) (min (of_ℕ top) x)

  -- `Math.round(x * 255)`.
  channel : W → W
  channel x = round (mul x (of_ℕ 255))

  -- The `switch` on the sector `i` of the colour's circle.
  sector : W → W → W → W → W → W × W × W
  sector i v p q t =
      if eq i (of_ℕ 0)
      then (v, t, p)
      else if eq i (of_ℕ 1)
      then (q, v, p)
      else if eq i (of_ℕ 2)
      then (p, v, t)
      else if eq i (of_ℕ 3)
      then (p, q, v)
      else if eq i (of_ℕ 4)
      then (t, p, v)
      else (v, p, q)

  -- `hsvToRgb`.
  unfoldable pub hsv_to_rgb : W → W → W → W × W × W
  unfolding in_range channel sector
  hsv_to_rgb h0 s0 v0 =
      let s = div (in_range 100 s0) (of_ℕ 100) in
      let v = div (in_range 100 v0) (of_ℕ 100) in
      let h = div (in_range 360 h0) (of_ℕ 60) in
      let i = floor h in
      let f = sub h i in
      let one = of_ℕ 1 in
      let (r, g, b) =
        sector i v (mul v (sub one s)) (mul v (sub one (mul s f)))
          (mul v (sub one (mul s (sub one f)))) in
      if eq s (of_ℕ 0) then (channel v, channel v, channel v) else (channel r, channel g, channel b)

  rgb_text : W × W × W → String
  rgb_text (r, g, b) = "rgb(" ++ to_text r ++ "," ++ to_text g ++ "," ++ to_text b ++ ")"

  edge_colours : String → String → String → List (String × String)
  edge_colours line source target =
      ("line-color", line) ∷ ("source-arrow-color", source) ∷ ("target-arrow-color", target) ∷ []

  -- `Math.round(100 * (1 - load))`, a hue from red to green.
  hue : W → W
  hue load = round (mul (of_ℕ 100) (sub (of_ℕ 1) load))

  load_colour : W → String
  unfolding hue
  load_colour load = rgb_text (hsv_to_rgb (hue load) (of_ℕ 100) (of_ℕ 85))

  -- `get_edge_color_class`, with its argument `duplex` given.
  unfoldable pub get_edge_color_class : W → W → ℕ → Bool → List (String × String)
  unfolding load_colour edge_colours rgb_text
  get_edge_color_class rx_rate tx_rate capacity duplex =
      let full = of_ℕ capacity in
      let rx_load = min (of_ℕ 1) (div rx_rate full) in
      let tx_load = min (of_ℕ 1) (div tx_rate full) in
      let load = if not duplex then div (add rx_rate tx_rate) full else max rx_load tx_load in
      if capacity == 0 || (eq tx_rate minus_one && eq rx_rate minus_one)
      then edge_colours "#C0C0C0" "#C0C0C0" "#C0C0C0"
      else edge_colours (load_colour load) (load_colour rx_load) (load_colour tx_load)

  -- `Math.round(Math.log10(capacity)) + 'px'`.
  unfoldable pub width_text : ℕ → String
  width_text capacity = to_text (round (log10 (of_ℕ capacity))) ++ "px"
