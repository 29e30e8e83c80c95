-- ===== src/PropText/Defs.antt =====
-- `format_prop_str` and `make_link` (web-phalcon/public/js/netgraphz/graph_utils.js). A text is the
-- list of its characters, none of which takes two code units.
use netgraphz2_gpl.Common.{
  ◌>>=◌, Bool, List, Option, [], drop, false, get_elem?, if◌then◌else◌, leb, length, none, some,
  suc, take, true, zero, ℕ, ◌&&◌, ◌++◌, ◌+◌, ◌==◌, ◌||◌, ◌∷◌,
}
use netgraphz2_gpl.Common.Text.{codes}

mutual
  -- A value of JavaScript: `plain` is a text, a number or a Boolean, by what its `toString` gives.
  pub data PropValue : Type 0 where
    undefined_prop : PropValue
    null_prop : PropValue
    plain : List ℕ → PropValue
    structure : Fields → PropValue

  -- The object's own properties; what it inherits is left out.
  pub data Fields : Type 0 where
    no_fields : Fields
    field : List ℕ → PropValue → Fields → Fields

unfoldable pub strip_prefix : List ℕ → List ℕ → Option (List ℕ)
strip_prefix [] str = some str
strip_prefix (p ∷ pat) [] = none
strip_prefix (p ∷ pat) (c ∷ str) = let rest = strip_prefix pat str in if p == c then rest else none

abbrev pub same_codes : List ℕ → List ℕ → Bool
same_codes [] [] = true
same_codes [] (d ∷ ds) = false
same_codes (c ∷ cs) [] = false
same_codes (c ∷ cs) (d ∷ ds) = c == d && same_codes cs ds

unfoldable pub field_of : List ℕ → Fields → PropValue
field_of key no_fields = undefined_prop
field_of key (field name x rest) = if same_codes name key then x else field_of key rest

-- `\w`.
abbrev pub is_word : ℕ → Bool
is_word c =
    (leb b'0' c && leb c b'9')
    || (leb b'A' c && leb c b'Z')
    || (leb b'a' c && leb c b'z')
    || c == 95

-- How many characters `\w*` takes.
unfoldable pub word_length : List ℕ → ℕ
word_length [] = 0
word_length (c ∷ cs) = let more = word_length cs in if is_word c then 1 + more else 0

abbrev pub starts_word : List ℕ → Bool
starts_word [] = false
starts_word (c ∷ cs) = is_word c

-- How many characters `\w*(?:\.\w+)*` takes.
unfoldable pub in_groups : List ℕ → ℕ
in_groups [] = 0
in_groups (c ∷ cs) =
    let more = in_groups cs in
    if is_word c then 1 + more else if c == b'.' && starts_word cs then 1 + more else 0

-- How many characters `(?:\.\w+)*` takes.
unfoldable pub dot_groups : List ℕ → ℕ
unfolding in_groups
dot_groups [] = 0
dot_groups (c ∷ cs) = if c == b'.' then in_groups (c ∷ cs) else 0

abbrev pub is_char : ℕ → Option ℕ → Bool
is_char c none = false
is_char c (some d) = c == d

-- `(?:\.\w+)*\}`; a smaller number of groups is followed by a point.
unfoldable pub closed_groups : List ℕ → Option ℕ
unfolding dot_groups
closed_groups cs = let n = dot_groups cs in if is_char b'}' (get_elem? cs n) then some n else none

-- `[^\\]?(?:\.\w+)*\}`: the character is taken if this can match then.
unfoldable pub tag_end : List ℕ → Option ℕ
unfolding closed_groups
tag_end [] = none
tag_end (c ∷ cs) = elim (if c == 92 then none else closed_groups cs) [
  | some n ↦ some (1 + n)
  | none ↦ closed_groups (c ∷ cs)
]

-- The length of `\w+[^\\]?(?:\.\w+)*` before a `}`; fewer characters of `\w+` match nothing else.
unfoldable pub tag_length : List ℕ → Option ℕ
unfolding word_length tag_end
tag_length cs =
    let w = word_length cs in
    if w == 0 then none else elim (tag_end (drop w cs)) [ none ↦ none | some n ↦ some (w + n) ]

-- The next tag of a text: the characters before it and what its braces hold. What stands before a
-- `{` makes no difference: `[^\\]?` may match nothing.
unfoldable pub find_tag : List ℕ → Option (ℕ × List ℕ)
unfolding tag_length
find_tag [] = none
find_tag (c ∷ cs) =
    let later = find_tag cs in
    elim (if c == b'{' then tag_length cs else none) [
      | some n ↦ some (0, take n cs)
      | none ↦ elim later [ none ↦ none | some t ↦ some (1 + t.0, t.1) ]
    ]

-- What `[^\\]?(?:\.(\w+))*` leaves of the rest of a tag.
unfoldable pub after_name : List ℕ → List ℕ
unfolding dot_groups
after_name [] = []
after_name (c ∷ cs) = if c == 92 then c ∷ cs else drop (dot_groups cs) cs

-- The names that the loop over the tag takes; the length of the tag is enough fuel, since each name
-- has a character.
unfoldable pub tag_names : ℕ → List ℕ → List (List ℕ)
unfolding word_length after_name
tag_names zero tag = []
tag_names (suc fuel) [] = []
tag_names (suc fuel) (c ∷ cs) =
    let w = word_length (c ∷ cs) in
    let next = tag_names fuel (after_name (drop w (c ∷ cs))) in
    let skipped = tag_names fuel cs in if w == 0 then skipped else take w (c ∷ cs) ∷ next

-- The property that the names lead to; `none` if reading one of `null` throws.
unfoldable pub prop_of : List (List ℕ) → PropValue → Option PropValue
unfolding field_of
prop_of [] x = some x
prop_of (name ∷ names) undefined_prop = some undefined_prop
prop_of (name ∷ names) null_prop = none
prop_of (name ∷ names) (plain v) = some (plain v)
prop_of (name ∷ names) (structure fs) = prop_of names (field_of name fs)

-- `prop_val.toString()`; `none` if it throws.
unfoldable pub to_text : PropValue → Option (List ℕ)
to_text undefined_prop = none
to_text null_prop = none
to_text (plain v) = some v
to_text (structure fs) = some (codes "[object Object]")

-- What `replace` puts for a found text, with `$$`, `$&`, and a dollar before a backquote or a quote.
unfoldable pub expand : List ℕ → List ℕ → List ℕ → List ℕ → List ℕ
expand found before after [] = []
expand found before after (c ∷ []) = c ∷ []
expand found before after (c ∷ d ∷ v) =
    let rest = expand found before after v in
    let next = expand found before after (d ∷ v) in
    if c == b'$'
    then if d == b'$'
      then c ∷ rest
      else if d == b'&'
      then found ++ rest
      else if d == 96
      then before ++ rest
      else if d == 39
      then after ++ rest
      else c ∷ next
    else c ∷ next

-- `str.replace(found, v)`, which replaces the first occurrence.
unfoldable pub replace_from : List ℕ → List ℕ → List ℕ → List ℕ → List ℕ
unfolding strip_prefix expand
replace_from found v before [] = []
replace_from found v before (c ∷ str) =
    let later = c ∷ replace_from found v (before ++ c ∷ []) str in
    elim (strip_prefix found (c ∷ str)) [
      | some after ↦ expand found before after v ++ after
      | none ↦ later
    ]

-- What has become of a call.
pub data Formatting : Type 0 where
  running thrown : Formatting
  formatted : List ℕ → Formatting

abbrev pub braced : List ℕ → List ℕ
braced tag = b'{' ∷ tag ++ b'}' ∷ []

-- The text that a tag stands for; `none` if an exception is thrown.
unfoldable pub tag_text : PropValue → List ℕ → Option (List ℕ)
unfolding tag_names prop_of to_text
tag_text obj tag = prop_of (tag_names (length tag) tag) obj >>= λ x. to_text x

-- The outer loop, with the `lastIndex` of its expression.
unfoldable pub format_loop : ℕ → PropValue → ℕ → List ℕ → Formatting
unfolding find_tag tag_text replace_from
format_loop zero obj last_index str = running
format_loop (suc fuel) obj last_index str = elim (find_tag (drop last_index str)) [
  | none ↦ formatted str
  | some t ↦ elim (tag_text obj t.1) [
    | none ↦ thrown
    | some v ↦
        format_loop fuel obj (last_index + t.0 + length t.1 + 2)
          (replace_from (braced t.1) v [] str)
  ]
]

-- `typeof obj !== "object"`.
abbrev pub is_structure : PropValue → Bool
is_structure undefined_prop = false
is_structure null_prop = true
is_structure (plain v) = false
is_structure (structure fs) = true

-- `format_prop_str`, with fuel for the loop.
unfoldable pub format_prop_str : ℕ → List ℕ → PropValue → Formatting
unfolding format_loop
format_prop_str fuel str obj =
    let looped = format_loop fuel obj 0 str in if is_structure obj then looped else formatted str
