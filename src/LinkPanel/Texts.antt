-- ===== src/LinkPanel/Texts.antt =====
-- The blocks and texts that `setContent` fills in (web-phalcon/public/js/netgraphz/ui.link_panel.js).
-- `properties` gives all properties of a link, of which Model has those that the panel reads.
use netgraphz2_gpl.PropText.Defs.{Fields, structure}
use netgraphz2_gpl.PropText.Links.{
  PanelLink, all_appended, append_links, exception_thrown, still_running,
}
use netgraphz2_gpl.Common.{
  Bool, Option, String, [], false, if◌then◌else◌, is_some, ltb, none, not, some, true, ℕ, ◌&&◌,
  ◌||◌, ◌∷◌, str_eq, List, length,
}
use netgraphz2_gpl.Common.Text.{decimal}
use netgraphz2_gpl.DataRate.{data_rate_bps_format}
use netgraphz2_gpl.Model.{Link, MetricValue, Node}
use netgraphz2_gpl.Numbers.{Numbers}
use netgraphz2_gpl.Store.Defs.{Store, get_metric_values}

-- A block with two texts, and one with a single text. Hidden blocks keep their texts.
pub record Pair : Type 0 where
  pub visible : Bool
  pub left : String
  pub right : String

pub record Single : Type 0 where
  pub visible : Bool
  pub text : String

-- `link_load_block`, `link_capacity_block`, the names, the port blocks, whether `links_block` is
-- visible, and what the container of the links holds.
pub record LinkTexts : Type 0 where
  pub load : Pair
  pub capacity : Pair
  pub src_name : String
  pub dst_name : String
  pub src_port : Single
  pub dst_port : Single
  pub links : Bool
  pub container : List (List ℕ)

-- How a call of `setContent` ends.
pub data Ending : Type 0 where
  completed exception_ends unending : Ending

abbrev hide_pair : Pair → Pair
hide_pair b = record b { visible = false }

abbrev hide_single : Single → Single
hide_single b = record b { visible = false }

-- The five calls of `hide`.
unfoldable pub hide_blocks : LinkTexts → LinkTexts
hide_blocks t = record t {
  load = hide_pair t.load;
  capacity = hide_pair t.capacity;
  src_port = hide_single t.src_port;
  dst_port = hide_single t.dst_port;
  links = false;
}

-- `getMetricValues(name)[0]`; there are no values under no name.
abbrev pub first_value : Option String → Store → Option MetricValue
first_value none s = none
first_value (some name) s = elim (get_metric_values name s) [ [] ↦ none | v ∷ vs ↦ some v ]

-- `x == ""`.
abbrev is_empty : Option String → Bool
is_empty none = false
is_empty (some t) = str_eq t ""

-- The test for the rates: one is a text, and one is not empty.
abbrev pub has_rates : Link → Bool
has_rates l =
    (is_some l.rx_octets || is_some l.tx_octets)
    && (not (is_empty l.rx_octets) || not (is_empty l.tx_octets))

-- A text that jQuery's `text` is called with; with `undefined` it changes nothing.
abbrev pub set_text : Option String → String → String
set_text none old = old
set_text (some new) old = new

unfoldable pub fill_port : Option ℕ → Single → Single
fill_port none b = b
fill_port (some port) b = if ltb 0 port then record { visible = true; text = decimal port } else b

module _ {W : Type 0} (num : Numbers W) (s : Store) (fuel : ℕ) (properties : Link → Fields)
    (cfg_links : List PanelLink) where
  abbrev pub load_text : Option MetricValue → String
  load_text none = "unknown"
  load_text (some v) =
      data_rate_bps_format num (num.mul (num.of_ℕ v.value) (num.of_ℕ 8)) (some 2) false

  unfoldable pub fill_load : Link → Pair → Pair
  fill_load l b =
      let rx = first_value l.rx_octets s in
      let tx = first_value l.tx_octets s in
      if has_rates l
      then record {
        visible = b.visible || is_some rx || is_some tx;
        left = load_text rx;
        right = load_text tx;
      }
      else b

  abbrev pub capacity_text : ℕ → String
  capacity_text speed =
      data_rate_bps_format num (num.mul (num.of_ℕ speed) (num.of_ℕ 1000000)) none false

  abbrev pub duplex_text : Option Bool → String
  duplex_text none = "Yes"
  duplex_text (some true) = "Yes"
  duplex_text (some false) = "No"

  unfoldable pub fill_capacity : Link → Pair → Pair
  fill_capacity l b = elim l.link_speed [
    | none ↦ b
    | some speed ↦
        if ltb 0 speed
        then record { visible = true; left = capacity_text speed; right = duplex_text l.duplex }
        else b
  ]

  -- What follows the names.
  unfoldable pub fill_ports : Link → LinkTexts → LinkTexts
  unfolding fill_port
  fill_ports l t = record t {
    src_port = fill_port (l.src).port_id t.src_port;
    dst_port = fill_port (l.dst).port_id t.dst_port;
    links = ltb 0 (length cfg_links);
  }

  -- The loop over `cfg.links`, which adds to the container.
  unfoldable pub fill_links : Link → LinkTexts → LinkTexts × Ending
  unfolding append_links
  fill_links l t = elim (append_links fuel (structure (properties l)) cfg_links t.container) [
    | all_appended c ↦ (record t { container = c }, completed)
    | exception_thrown c ↦ (record t { container = c }, exception_ends)
    | still_running c ↦ (record t { container = c }, unending)
  ]

  -- From the names on; it throws at an end with no node.
  unfoldable pub fill_names : Link → Option Node → Option Node → LinkTexts → LinkTexts × Ending
  unfolding fill_ports fill_links
  fill_names l none b t = (t, exception_ends)
  fill_names l (some a) none t =
      (record t { src_name = set_text a.name t.src_name }, exception_ends)
  fill_names l (some a) (some b) t = fill_links l (
      fill_ports l
        (record t { src_name = set_text a.name t.src_name; dst_name = set_text b.name t.dst_name }))

  -- `setContent` of a link.
  unfoldable pub fill_content : Link → LinkTexts → LinkTexts × Ending
  unfolding hide_blocks fill_load fill_capacity fill_names
  fill_content l t =
      let hidden = hide_blocks t in
      fill_names l (l.src).node (l.dst).node (record hidden {
        load = fill_load l hidden.load;
        capacity = fill_capacity l hidden.capacity;
      })
