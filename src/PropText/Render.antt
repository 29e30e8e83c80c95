-- ===== src/PropText/Render.antt =====
-- A text whose tags are names of properties, formatted
-- (web-phalcon/public/js/netgraphz/graph_utils.js).
use netgraphz2_gpl.Common.{
  All, List, [], ap, arith, drop, false, length, length-drop, none, refl, some, suc, sym, zero, ℕ,
  ◌++◌, ◌+◌, ◌==◌, ◌∙◌, ◌∷◌, ◌≡◌, ◌≤◌, All-append, length-append, ◌<◌,
}
use netgraphz2_gpl.PropText.Defs.{
  Fields, braced, closed_groups, expand, field_of, find_tag, format_loop, plain, prop_of,
  replace_from, strip_prefix, structure, tag_text, to_text, format_prop_str, formatted,
}
use netgraphz2_gpl.PropText.Words.{
  IsLiteral, IsWord, NoTag, closed_groups-open, find_tag-name, tag_names-name, tagged,
  find_tag-none,
}
use mathlib.Core.List.{append_assoc, append-nil}

-- A tag that is a name, the literal characters before it, and the value of the property.
pub record Part : Type 0 where
  pub literal : List ℕ
  pub first : ℕ
  pub others : List ℕ
  pub value : List ℕ

abbrev pub template_text : List Part → List ℕ → List ℕ
template_text [] end = end
template_text (p ∷ ps) end = p.literal ++ tagged (p.first ∷ p.others) (template_text ps end)

-- The text with the values in place of the tags.
abbrev pub filled : List Part → List ℕ → List ℕ
filled [] end = end
filled (p ∷ ps) end = p.literal ++ (p.value ++ filled ps end)

-- Neither an opening brace nor a dollar.
abbrev pub IsPlain : ℕ → Type 0
IsPlain c = ((c == b'{') ≡ false) × ((c == b'$') ≡ false)

abbrev pub IsPart : Fields → Part → Type 0
IsPart fs p =
    All IsLiteral p.literal
    × All IsWord (p.first ∷ p.others)
    × (field_of (p.first ∷ p.others) fs ≡ plain p.value)
    × All IsPlain p.value

-- A value with the literal text up to the next tag is not shorter than the value's own tag.
abbrev pub Fits : List Part → Type 0
Fits [] = Unit
Fits (p ∷ []) = Unit
Fits (p ∷ q ∷ ps) =
    (length (p.first ∷ p.others) + 2 ≤ length p.value + length q.literal) × Fits (q ∷ ps)

-- The first tag is not passed over yet.
abbrev pub IsAhead : ℕ → ℕ → List Part → Type 0
IsAhead i n [] = Unit
IsAhead i n (p ∷ ps) = i ≤ n + length p.literal

expand-plain : (found before after v : List ℕ) → All IsPlain v → expand found before after v ≡ v
unfolding expand
expand-plain found before after [] h = refl
expand-plain found before after (c ∷ []) h = refl
expand-plain found before after (c ∷ d ∷ v) h =
    ground (arith, expand-plain found before after (d ∷ v) h.1)

strip_prefix-append : (pat rest : List ℕ) → strip_prefix pat (pat ++ rest) ≡ some rest
unfolding strip_prefix
strip_prefix-append [] rest = refl
strip_prefix-append (p ∷ pat) rest = ground (arith, strip_prefix-append pat rest)

strip_prefix-NoTag :
    (c : ℕ) (tag str : List ℕ) → NoTag c → strip_prefix (braced tag) (c ∷ str) ≡ none
unfolding strip_prefix
strip_prefix-NoTag c tag str h = ground arith

braced-append : (tag rest : List ℕ) → braced tag ++ rest ≡ tagged tag rest
braced-append tag rest = ap (◌∷◌ b'{') (append_assoc tag (b'}' ∷ []) rest)

replace_from-tagged :
    (tag v before cs rest : List ℕ)
    → All NoTag cs
    → All IsPlain v
    → replace_from (braced tag) v before (cs ++ tagged tag rest) ≡ cs ++ (v ++ rest)
unfolding replace_from
replace_from-tagged tag v before [] rest h p =
    let found : strip_prefix (braced tag) (tagged tag rest) ≡ some rest =
      ap (strip_prefix (braced tag)) (sym (braced-append tag rest))
      ∙ strip_prefix-append (braced tag) rest in
    rw (replace_from, found) (ap (λ w. w ++ rest) (expand-plain (braced tag) before rest v p))
replace_from-tagged tag v before (c ∷ cs) rest h p =
    rw (replace_from, strip_prefix-NoTag c tag (cs ++ tagged tag rest) h.0)
      (ap (◌∷◌ c) (replace_from-tagged tag v (before ++ c ∷ []) cs rest h.1 p))

tag_text-name :
    (fs : Fields) (c : ℕ) (name v : List ℕ)
    → All IsWord (c ∷ name)
    → field_of (c ∷ name) fs ≡ plain v
    → tag_text (structure fs) (c ∷ name) ≡ some v
unfolding tag_text prop_of to_text
tag_text-name fs c name v w e = rw (tag_text, tag_names-name c name w, prop_of, e) refl

All-drop {ℓ κ} : {A : Type ℓ} (P : A → Type κ) (n : ℕ) (xs : List A) → All P xs → All P (drop n xs)
All-drop P zero xs h = h
All-drop P (suc n) [] h = h
All-drop P (suc n) (x ∷ xs) h = All-drop P n xs h.1

drop-append_le {ℓ} :
    {A : Type ℓ} (n : ℕ) (xs ys : List A) → n ≤ length xs → drop n (xs ++ ys) ≡ drop n xs ++ ys
drop-append_le zero xs ys h = refl
drop-append_le (suc n) [] ys h = absurd (omega arith)
drop-append_le (suc n) (x ∷ xs) ys h = drop-append_le n xs ys (omega arith)

literal-NoTag : (cs : List ℕ) → All IsLiteral cs → All NoTag cs
literal-NoTag [] h = tt
literal-NoTag (c ∷ cs) h = (h.0.0, literal-NoTag cs h.1)

plain-NoTag : (cs : List ℕ) → All IsPlain cs → All NoTag cs
plain-NoTag [] h = tt
plain-NoTag (c ∷ cs) h = (h.0.0, plain-NoTag cs h.1)

-- Behind a tag no brace closes before the next one opens.
closed_groups-template :
    (fs : Fields) (ps : List Part) (end : List ℕ)
    → All (IsPart fs) ps
    → All IsLiteral end
    → closed_groups (template_text ps end) ≡ none
closed_groups-template fs [] end h e =
    ap closed_groups (sym (append-nil end)) ∙ closed_groups-open end [] e tt
closed_groups-template fs (p ∷ ps) end h e = closed_groups-open p.literal _ h.0.0 refl

-- One round of the loop.
format_loop-tagged :
    (fuel i : ℕ) (fs : Fields) (cs rest : List ℕ) (c : ℕ) (name v : List ℕ)
    → All NoTag cs
    → i ≤ length cs
    → All IsWord (c ∷ name)
    → closed_groups rest ≡ none
    → field_of (c ∷ name) fs ≡ plain v
    → All IsPlain v
    → format_loop (suc fuel) (structure fs) i (cs ++ tagged (c ∷ name) rest)
      ≡ format_loop fuel (structure fs) (length cs + length (c ∷ name) + 2) (cs ++ (v ++ rest))
unfolding format_loop
format_loop-tagged fuel i fs cs rest c name v h l w o e p =
    let found : find_tag (drop i (cs ++ tagged (c ∷ name) rest))
        ≡ some (length (drop i cs), c ∷ name) =
      ap find_tag (drop-append_le i cs (tagged (c ∷ name) rest) l)
      ∙ find_tag-name (drop i cs) c name rest (All-drop NoTag i cs h) w o in
    let at : i + length (drop i cs) ≡ length cs = omega (arith, length-drop i cs, l) in
    rw (format_loop, found, tag_text-name fs c name v w e)
      (rw (at, replace_from-tagged (c ∷ name) v [] cs rest h p) refl)

IsAhead-start : (ps : List Part) → IsAhead 0 0 ps
IsAhead-start [] = tt
IsAhead-start (p ∷ ps) = omega arith

Fits-rest : (p : Part) (ps : List Part) → Fits (p ∷ ps) → Fits ps
Fits-rest p [] f = tt
Fits-rest p (q ∷ ps) f = f.1

IsAhead-next :
    (cs : List ℕ) (p : Part) (ps : List Part)
    → Fits (p ∷ ps)
    → IsAhead (length cs + length (p.first ∷ p.others) + 2) (length (cs ++ p.value)) ps
IsAhead-next cs p [] f = tt
IsAhead-next cs p (q ∷ ps) f = omega (arith, length-append cs p.value, f.0)

format_loop-template :
    (fuel i : ℕ) (fs : Fields) (before : List ℕ) (ps : List Part) (end : List ℕ)
    → All NoTag before
    → IsAhead i (length before) ps
    → All (IsPart fs) ps
    → All IsLiteral end
    → Fits ps
    → length ps < fuel
    → format_loop fuel (structure fs) i (before ++ template_text ps end)
      ≡ formatted (before ++ filled ps end)
unfolding format_loop
format_loop-template zero i fs before ps end h a parts e f l = absurd (omega arith)
format_loop-template (suc fuel) i fs before [] end h a parts e f l =
    rw
      (
        format_loop,
        find_tag-none (drop i (before ++ end)) (
            All-drop NoTag i (before ++ end) (All-append NoTag before end h (literal-NoTag end e))),
      )
      refl
format_loop-template (suc fuel) i fs before (p ∷ ps) end h a parts e f l =
    let (literal, name, stored, value) = parts.0 in
    let cs = before ++ p.literal in
    let no_tag = All-append NoTag before p.literal h (literal-NoTag p.literal literal) in
    let rest = template_text ps end in
    let last_index = length cs + length (p.first ∷ p.others) + 2 in
    ap (format_loop (suc fuel) (structure fs) i)
      (sym (append_assoc before p.literal (tagged (p.first ∷ p.others) rest)))
    ∙ format_loop-tagged fuel i fs cs rest p.first p.others p.value no_tag
        (omega (arith, length-append before p.literal, a)) name
        (closed_groups-template fs ps end parts.1 e) stored value
    ∙ ap (format_loop fuel (structure fs) last_index) (sym (append_assoc cs p.value rest))
    ∙ format_loop-template fuel last_index fs (cs ++ p.value) ps end
        (All-append NoTag cs p.value no_tag (plain-NoTag p.value value)) (IsAhead-next cs p ps f)
        parts.1 e (Fits-rest p ps f) (omega (arith, l))
    ∙ ap formatted (
        append_assoc cs p.value (filled ps end)
        ∙ append_assoc before p.literal (p.value ++ filled ps end))

-- Where the tags of a text are names, and no brace is between them: if each property is there as a
-- text with neither an opening brace nor a dollar, and each value with the literal text up to the
-- next tag is not shorter than its tag, the loop ends when it has as much fuel as there are tags
-- and one more, and gives the text with the values in place of the tags.
pub format_prop_str_lem :
    (fuel : ℕ) (fs : Fields) (ps : List Part) (end : List ℕ)
    → All (IsPart fs) ps
    → All IsLiteral end
    → Fits ps
    → length ps < fuel
    → format_prop_str fuel (template_text ps end) (structure fs) ≡ formatted (filled ps end)
unfolding format_prop_str
format_prop_str_lem fuel fs ps end parts e f l =
    format_loop-template fuel 0 fs [] ps end tt (IsAhead-start ps) parts e f l
