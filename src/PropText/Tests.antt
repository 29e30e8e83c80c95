-- ===== src/PropText/Tests.antt =====
-- The links of the settings (web-phalcon/public/js/netgraphz/settings.js) for a node, and a value
-- that holds its own tag.
use netgraphz2_gpl.Common.{String, [], arith, false, map, none, refl, some, true, ◌∷◌, ◌≡◌}
use netgraphz2_gpl.Common.Text.{codes}
use netgraphz2_gpl.PropText.Defs.{
  Fields, after_name, closed_groups, dot_groups, expand, field, field_of, find_tag, format_loop,
  format_prop_str, formatted, in_groups, no_fields, plain, prop_of, replace_from, running,
  strip_prefix, structure, tag_end, tag_length, tag_names, tag_text, to_text, word_length,
}
use netgraphz2_gpl.PropText.Links.{all_appended, append_links}
use netgraphz2_gpl.PropText.Panel.{
  IsFitLink, LinkTemplate, Template, anchor, link_of, panel_links_lem, separated,
}

abbrev text_field : String → String → Fields → Fields
text_field name value rest = field (codes name) (plain (codes value)) rest

abbrev pub switch_fields : Fields
switch_fields = text_field "icinga_name" "sw1" (text_field "ip" "10.0.0.1" no_fields)

abbrev literal_template : String → Template
literal_template t = record { parts = []; end = codes t }

abbrev ip_template : String → Template
ip_template before = record {
  parts =
      record { literal = codes before; first = b'i'; others = codes "p"; value = codes "10.0.0.1" }
      ∷ [];
  end = [];
}

abbrev pub icinga_link : LinkTemplate
icinga_link = record {
  url = record {
    parts =
        record {
          literal = codes "/cgi-bin/icinga2-classicui/extinfo.cgi?type=1&host=";
          first = b'i';
          others = codes "cinga_name";
          value = codes "sw1";
        }
        ∷ [];
    end = [];
  };
  title = literal_template "Icinga";
  is_popup = false;
  popup_size = none;
  popup_name = none;
  new_tab = true;
}

abbrev pub ping_link : LinkTemplate
ping_link = record {
  url = ip_template "/cgi-bin/ping?address=";
  title = literal_template "ping";
  is_popup = true;
  popup_size = some (codes "300", codes "400");
  popup_name = some (ip_template "fping ");
  new_tab = false;
}

pub icinga_link-IsFitLink : IsFitLink 2 switch_fields icinga_link
unfolding field_of
icinga_link-IsFitLink = ground arith

pub ping_link-IsFitLink : IsFitLink 2 switch_fields ping_link
unfolding field_of
ping_link-IsFitLink = ground arith

panel_links_lem_example :
    append_links 2 (structure switch_fields) (map link_of (icinga_link ∷ ping_link ∷ [])) []
    ≡ all_appended (separated (icinga_link ∷ ping_link ∷ []))
panel_links_lem_example =
    panel_links_lem 2 switch_fields (icinga_link ∷ ping_link ∷ []) []
      (icinga_link-IsFitLink, (ping_link-IsFitLink, tt))

ping_anchor :
    anchor ping_link
    ≡ codes
        "<a href='/cgi-bin/ping?address=10.0.0.1' title='ping' data-popup='true' data-popup-width='300' data-popup-height='400' data-popup-name='fping 10.0.0.1' >ping</a>"
ping_anchor = refl

-- The second tag is passed over, since the first value is shorter than its tag.
short_value :
    format_prop_str 9 (codes "{ip}{ip}") (structure (text_field "ip" "x" no_fields))
    ≡ formatted (codes "x{ip}")
unfolding format_prop_str format_loop find_tag tag_length word_length tag_end closed_groups
    dot_groups in_groups tag_text tag_names after_name prop_of field_of to_text replace_from
    strip_prefix expand
short_value = refl

-- A value that holds its own tag behind as many characters.
endless_value :
    format_prop_str 9 (codes "{ip}") (structure (text_field "ip" "1234{ip}" no_fields)) ≡ running
unfolding format_prop_str format_loop find_tag tag_length word_length tag_end closed_groups
    dot_groups in_groups tag_text tag_names after_name prop_of field_of to_text replace_from
    strip_prefix expand
endless_value = refl
