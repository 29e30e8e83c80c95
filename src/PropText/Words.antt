-- ===== src/PropText/Words.antt =====
-- The tags that are plain names, and where they are found
-- (web-phalcon/public/js/netgraphz/graph_utils.js).
use mathlib.Core.List.{append-nil}
use netgraphz2_gpl.Common.{
  All, List, [], ap, arith, drop, drop-eq-nil, false, get_elem?, length, none, refl, some, suc,
  take, take_all, true, zero, ℕ, ◌++◌, ◌==◌, ◌∷◌, ◌≡◌,
}
use netgraphz2_gpl.PropText.Defs.{
  after_name, closed_groups, dot_groups, find_tag, in_groups, is_char, is_word, tag_end, tag_length,
  tag_names, word_length, starts_word,
}

-- A character that is no brace.
abbrev pub IsLiteral : ℕ → Type 0
IsLiteral c = ((c == b'{') ≡ false) × ((c == b'}') ≡ false)

abbrev pub IsWord : ℕ → Type 0
IsWord c = is_word c ≡ true

abbrev pub NoTag : ℕ → Type 0
NoTag c = (c == b'{') ≡ false

-- The end, or a brace that opens.
abbrev pub IsNext : List ℕ → Type 0
IsNext [] = Unit
IsNext (c ∷ cs) = c ≡ b'{'

-- A tag, and what stands behind it.
abbrev pub tagged : List ℕ → List ℕ → List ℕ
tagged name rest = b'{' ∷ (name ++ (b'}' ∷ rest))

-- No brace closes where the groups end, when only literal characters come before the next tag.
in_groups-open :
    (lit next : List ℕ)
    → All IsLiteral lit
    → IsNext next
    → is_char b'}' (get_elem? (lit ++ next) (in_groups (lit ++ next))) ≡ false
unfolding in_groups
in_groups-open [] [] a n = refl
in_groups-open [] (c ∷ next) a n = ground arith
in_groups-open (c ∷ lit) next a n = ground (arith, in_groups-open lit next a.1 n)

pub closed_groups-open :
    (lit next : List ℕ) → All IsLiteral lit → IsNext next → closed_groups (lit ++ next) ≡ none
unfolding closed_groups dot_groups
closed_groups-open [] [] a n = refl
closed_groups-open [] (c ∷ next) a n = ground (arith, dot_groups)
closed_groups-open (c ∷ lit) next a n =
    ground (arith, dot_groups, in_groups-open (c ∷ lit) next a n)

word_length-stop :
    (name rest : List ℕ)
    → All IsWord name
    → starts_word rest ≡ false
    → word_length (name ++ rest) ≡ length name
unfolding word_length
word_length-stop [] [] h e = refl
word_length-stop [] (c ∷ rest) h e = ground arith
word_length-stop (c ∷ name) rest h e = ground (arith, word_length-stop name rest h.1 e)

drop-append {ℓ} : {A : Type ℓ} (xs ys : List A) → drop (length xs) (xs ++ ys) ≡ ys
drop-append [] ys = refl
drop-append (x ∷ xs) ys = drop-append xs ys

take-append {ℓ} : {A : Type ℓ} (xs ys : List A) → take (length xs) (xs ++ ys) ≡ xs
take-append [] ys = refl
take-append (x ∷ xs) ys = ap (◌∷◌ x) (take-append xs ys)

tag_end-open : (rest : List ℕ) → closed_groups rest ≡ none → tag_end (b'}' ∷ rest) ≡ some 0
unfolding tag_end closed_groups dot_groups
tag_end-open rest e = rw (e, tag_end) refl

tag_length-name :
    (c : ℕ) (name rest : List ℕ)
    → All IsWord (c ∷ name)
    → closed_groups rest ≡ none
    → tag_length ((c ∷ name) ++ (b'}' ∷ rest)) ≡ some (length (c ∷ name))
unfolding tag_length
tag_length-name c name rest w e = ground (
  arith,
  tag_length,
  word_length-stop (c ∷ name) (b'}' ∷ rest) w refl,
  drop-append (c ∷ name) (b'}' ∷ rest),
  tag_end-open rest e,
)

pub find_tag-none : (cs : List ℕ) → All NoTag cs → find_tag cs ≡ none
unfolding find_tag
find_tag-none [] h = refl
find_tag-none (c ∷ cs) h = ground (arith, find_tag-none cs h.1)

-- The first tag is found behind what has none.
pub find_tag-name :
    (cs : List ℕ) (c : ℕ) (name rest : List ℕ)
    → All NoTag cs
    → All IsWord (c ∷ name)
    → closed_groups rest ≡ none
    → find_tag (cs ++ tagged (c ∷ name) rest) ≡ some (length cs, c ∷ name)
unfolding find_tag
find_tag-name [] c name rest h w e =
    rw (find_tag, tag_length-name c name rest w e)
      (ap (λ t. some (0, t)) (take-append (c ∷ name) (b'}' ∷ rest)))
find_tag-name (d ∷ cs) c name rest h w e = ground (arith, find_tag-name cs c name rest h.1 w e)

tag_names-nil : (fuel : ℕ) → tag_names fuel [] ≡ []
unfolding tag_names
tag_names-nil zero = refl
tag_names-nil (suc fuel) = refl

after_name-nil : after_name [] ≡ []
unfolding after_name
after_name-nil = refl

-- The one name of a tag that is a name.
pub tag_names-name :
    (c : ℕ) (name : List ℕ)
    → All IsWord (c ∷ name)
    → tag_names (length (c ∷ name)) (c ∷ name) ≡ (c ∷ name) ∷ []
unfolding tag_names
tag_names-name c name w = ground (
  arith,
  tag_names,
  word_length-stop (c ∷ name) [] w refl,
  append-nil (c ∷ name),
  drop-eq-nil (length (c ∷ name)) (c ∷ name) (omega arith),
  after_name-nil,
  tag_names-nil (length name),
  take_all (length (c ∷ name)) (c ∷ name) (omega arith),
)
