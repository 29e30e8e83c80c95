-- ===== src/LinkPanel/View.antt =====
-- What can be read in the link panel (web-phalcon/public/js/netgraphz/ui.link_panel.js).
use netgraphz2_gpl.DataRate.{data_rate_bps_format}
use netgraphz2_gpl.PropText.Defs.{Fields}
use netgraphz2_gpl.PropText.Panel.{LinkTemplate, link_of, IsFitLink, panel_links_lem, separated}
use mathlib.Core.Path.{ap₂}
use netgraphz2_gpl.Common.{
  Bool, Bool-cases, Option, Option-cases, String, false, if◌then◌else◌, inl, inr, is_some, ltb,
  none, refl, some, ℕ, ◌&&◌, ◌||◌, ◌≡◌, true, ◌∙◌, ap, List, map, str_eq, suc, zero, All, arith,
  length, length-map, not, ◌++◌,
}
use netgraphz2_gpl.Common.Text.{decimal}
use netgraphz2_gpl.LinkPanel.Texts.{
  LinkTexts, Pair, Single, duplex_text, fill_capacity, fill_load, fill_port, first_value, has_rates,
  load_text, fill_content, fill_names, fill_ports, hide_blocks, set_text, completed, fill_links,
}
use netgraphz2_gpl.Model.{Link, Node, MetricValue}
use netgraphz2_gpl.Numbers.{Numbers}
use netgraphz2_gpl.Store.Defs.{Store}

-- The texts of the blocks that are visible.
abbrev pub read_pair : Pair → Option (String × String)
read_pair b = if b.visible then some (b.left, b.right) else none

abbrev pub read_single : Single → Option String
read_single b = if b.visible then some b.text else none

pub record LinkView : Type 0 where
  pub load : Option (String × String)
  pub capacity : Option (String × String)
  pub names : String × String
  pub src_port : Option String
  pub dst_port : Option String
  pub links : Bool

abbrev pub read_texts : LinkTexts → LinkView
read_texts t = record {
  load = read_pair t.load;
  capacity = read_pair t.capacity;
  names = (t.src_name, t.dst_name);
  src_port = read_single t.src_port;
  dst_port = read_single t.dst_port;
  links = t.links;
}

abbrev pub port_view : Option ℕ → Option String
port_view none = none
port_view (some port) = if ltb 0 port then some (decimal port) else none

fill_port-hidden :
    (o : Option ℕ) (text : String)
    → read_single (fill_port o (record { visible = false; text = text })) ≡ port_view o
unfolding fill_port
fill_port-hidden none text = refl
fill_port-hidden (some port) text = elim (Bool-cases (ltb 0 port)) [
  | inl e ↦ rw e refl
  | inr e ↦ rw e refl
]

-- Both metrics are named by the empty text.
abbrev pub no_names : Option String → Option String → Bool
no_names (some rx) (some tx) = str_eq rx "" && str_eq tx ""
no_names none tx = false
no_names rx none = false

abbrev pub yes_no : Option Bool → String
yes_no none = "Yes"
yes_no (some true) = "Yes"
yes_no (some false) = "No"

module _ {W : Type 0} (num : Numbers W) where
  -- Octets, as a rate in bits with two decimals.
  abbrev pub rate_text : MetricValue → String
  rate_text v = data_rate_bps_format num (num.mul (num.of_ℕ v.value) (num.of_ℕ 8)) (some 2) false

  abbrev pub rates_view : Option MetricValue → Option MetricValue → Option (String × String)
  rates_view none none = none
  rates_view (some rx) none = some (rate_text rx, "unknown")
  rates_view none (some tx) = some ("unknown", rate_text tx)
  rates_view (some rx) (some tx) = some (rate_text rx, rate_text tx)

  -- Megabits, as a rate.
  abbrev pub speed_view : Option ℕ → Option Bool → Option (String × String)
  speed_view none duplex = none
  speed_view (some zero) duplex = none
  speed_view (some (suc n)) duplex = some (
    data_rate_bps_format num (num.mul (num.of_ℕ (suc n)) (num.of_ℕ 1000000)) none false,
    yes_no duplex,
  )

  -- The two rates, if one is known; a metric has the first of its values.
  abbrev pub load_view : Store → Link → Option (String × String)
  load_view s l =
      if no_names l.rx_octets l.tx_octets
      then none
      else rates_view (first_value l.rx_octets s) (first_value l.tx_octets s)

  -- What is to be read of a link between nodes of the names.
  abbrev pub link_view : Store → Link → String → String → Bool → LinkView
  link_view s l src dst links = record {
    load = load_view s l;
    capacity = speed_view l.link_speed l.duplex;
    names = (src, dst);
    src_port = port_view (l.src).port_id;
    dst_port = port_view (l.dst).port_id;
    links = links;
  }

ltb-suc : (n : ℕ) → ltb 0 (suc n) ≡ true
ltb-suc n = ground arith

one_name : {A : Type 0} (p : Bool) (x : Option A) → (if not p || true then x else none) ≡ x
one_name true x = refl
one_name false x = refl

two_names :
    {A : Type 0} (p q : Bool) (x : Option A)
    → (if not p || not q then x else none) ≡ (if p && q then none else x)
two_names true true x = refl
two_names true false x = refl
two_names false q x = refl

module _ {W : Type 0} (num : Numbers W) (s : Store) (fuel : ℕ) (properties : Link → Fields)
    (ls : List LinkTemplate) where
  duplex_text-yes_no :
      (o : Option Bool) → duplex_text num s fuel properties (map link_of ls) o ≡ yes_no o
  duplex_text-yes_no none = refl
  duplex_text-yes_no (some true) = refl
  duplex_text-yes_no (some false) = refl

  -- A block that is hidden first, with the two rates.
  read-rates :
      (b : Pair) (has : Bool) (rx tx : Option MetricValue)
      → b.visible ≡ false
      → read_pair (
          if has
          then record {
            visible = b.visible || is_some rx || is_some tx;
            left = load_text num s fuel properties (map link_of ls) rx;
            right = load_text num s fuel properties (map link_of ls) tx;
          }
          else b)
        ≡ (if has then rates_view num rx tx else none)
  read-rates b false rx tx h = rw h refl
  read-rates b true none none h = rw h refl
  read-rates b true (some rx) none h = rw h refl
  read-rates b true none (some tx) h = rw h refl
  read-rates b true (some rx) (some tx) h = rw h refl

  rates-load_view :
      (l : Link) (rx tx : Option String)
      → l.rx_octets ≡ rx
      → l.tx_octets ≡ tx
      → (if has_rates l
          then rates_view num (first_value l.rx_octets s) (first_value l.tx_octets s)
          else none)
        ≡ load_view num s l
  rates-load_view l none none ex ey = rw (ex, ey) refl
  rates-load_view l none (some tx) ex ey = rw (ex, ey) refl
  rates-load_view l (some rx) none ex ey = rw (ex, ey) (one_name (str_eq rx "") _)
  rates-load_view l (some rx) (some tx) ex ey =
      rw (ex, ey) (two_names (str_eq rx "") (str_eq tx "") _)

  fill_load-hidden :
      (l : Link) (b : Pair)
      → b.visible ≡ false
      → read_pair (fill_load num s fuel properties (map link_of ls) l b) ≡ load_view num s l
  unfolding fill_load
  fill_load-hidden l b h =
      read-rates b (has_rates l) (first_value l.rx_octets s) (first_value l.tx_octets s) h
      ∙ rates-load_view l l.rx_octets l.tx_octets refl refl

  fill_capacity-hidden :
      (l : Link) (b : Pair)
      → b.visible ≡ false
      → read_pair (fill_capacity num s fuel properties (map link_of ls) l b)
        ≡ speed_view num l.link_speed l.duplex
  unfolding fill_capacity
  fill_capacity-hidden l b h = elim (Option-cases l.link_speed) [
    | inl e ↦ rw (e, h) refl
    | inr (zero, e) ↦ rw (e, h) refl
    | inr (suc n, e) ↦
        rw (e, ltb-suc n)
          (ap
            (λ d. some (
              data_rate_bps_format num (num.mul (num.of_ℕ (suc n)) (num.of_ℕ 1000000)) none false,
              d,
            ))
            (duplex_text-yes_no l.duplex))
  ]

  fill_links-separated :
      (l : Link) (t : LinkTexts)
      → All (IsFitLink fuel (properties l)) ls
      → fill_links num s fuel properties (map link_of ls) l t
        ≡ (record t { container = t.container ++ separated ls }, completed)
  unfolding fill_links
  fill_links-separated l t fit =
      rw (fill_links, panel_links_lem fuel (properties l) ls t.container fit) refl

  -- Between two nodes with names, and where the texts of the links of the settings are templates that
  -- fit the link: `setContent` ends with no exception. Of the load, the capacity and the ports exactly
  -- what is known is visible, whatever was before: each rate that is known in bits, the other as
  -- "unknown"; a speed above 0 with "No" if the link is not duplex and else "Yes"; a port above 0. The
  -- names are those of the nodes, the block of the links is visible if there are links in the
  -- settings, and their elements are added behind what the container held.
  pub fill_content_lem :
      (l : Link) (a b : Node) (src dst : String) (t : LinkTexts)
      → (l.src).node ≡ some a
      → (l.dst).node ≡ some b
      → a.name ≡ some src
      → b.name ≡ some dst
      → All (IsFitLink fuel (properties l)) ls
      → let (after, ending) = fill_content num s fuel properties (map link_of ls) l t in
        (read_texts after ≡ link_view num s l src dst (ltb 0 (length ls)))
        × (after.container ≡ t.container ++ separated ls)
        × (ending ≡ completed)
  unfolding fill_content fill_names fill_ports hide_blocks
  fill_content_lem l a b src dst t ea eb na nb fit =
      let hidden = hide_blocks t in
      let filled : LinkTexts = record hidden {
        load = fill_load num s fuel properties (map link_of ls) l hidden.load;
        capacity = fill_capacity num s fuel properties (map link_of ls) l hidden.capacity;
      } in
      let named : LinkTexts = fill_ports num s fuel properties (map link_of ls) l (record filled {
        src_name = set_text a.name t.src_name;
        dst_name = set_text b.name t.dst_name;
      }) in
      let ends : fill_content num s fuel properties (map link_of ls) l t
          ≡ (record named { container = t.container ++ separated ls }, completed) =
        ap₂ (λ x y. fill_names num s fuel properties (map link_of ls) l x y filled) ea eb
        ∙ fill_links-separated l named fit in
      (
        ap (λ r. read_texts r.0) ends ∙ (λ i. record {
          load = fill_load-hidden l hidden.load refl i;
          capacity = fill_capacity-hidden l hidden.capacity refl i;
          names = (set_text (na i) t.src_name, set_text (nb i) t.dst_name);
          src_port = fill_port-hidden (l.src).port_id (t.src_port).text i;
          dst_port = fill_port-hidden (l.dst).port_id (t.dst_port).text i;
          links = ltb 0 (length-map link_of ls i);
        }),
        ap (λ r. r.0.container) ends,
        ap (λ r. r.1) ends,
      )
