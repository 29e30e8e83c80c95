-- ===== src/Authenticator/Admission.antt =====
-- Who gets through (notifications/authenticator.js).
use netgraphz2_gpl.Authenticator.Defs.{
  Libraries, Token, basic_parts, bearer_loop, split, valid_for_url, AuthValue, authenticate_basic,
  authenticate_bearer, authenticate_request, by_scheme, next, to_head,
}
use Prim.Native.Char.{code}
use Prim.Native.String.{◌++◌ as join}
use mathlib.Core.Path.{subst}
use netgraphz2_gpl.Common.{
  List, Bool, Option, String, [], ap, arith, false, if_cases, if◌then◌else◌, length, ltb, none,
  refl, some, str_eq, take, true, ◌==◌, ◌||◌, ◌∷◌, ◌≡◌, Option-cases, eq_iff, inl, inr, ◌↔◌, ◌∙◌,
  ◌⊎◌, List-cases,
}

-- A colon stands in the text.
unfoldable pub has_colon : String → Bool
has_colon String.[] = false
has_colon (String.◌∷◌ c s) = code c == b':' || has_colon s

split-cons : (s : String) → (x : String) × (xs : List String) × (split s ≡ x ∷ xs)
unfolding split
split-cons String.[] = ("", [], refl)
split-cons (String.◌∷◌ c s) =
    let (x, xs, e) = split-cons s in
    if_cases (λ (l : List String). (x : String) × (xs : List String) × (l ≡ x ∷ xs))
      (code c == b':') (λ _. ("", split s, refl))
      (λ _. (join (String.◌∷◌ c "") x, xs, ap (to_head (String.◌∷◌ c "")) e))

-- More than one part comes of a text exactly if it has a colon.
split_parts : (s : String) → ltb 1 (length (split s)) ≡ has_colon s
unfolding split has_colon
split_parts String.[] = ground arith
split_parts (String.◌∷◌ c s) = let (x, xs, e) = split-cons s in ground (arith, split_parts s)

basic_parts_lem :
    (lib : Libraries) (xs : List String) (path : String) (tokens : List Token)
    → basic_parts lib (take 2 xs) path tokens ≡ ltb 1 (length xs)
unfolding basic_parts
basic_parts_lem lib [] path tokens = ground arith
basic_parts_lem lib (x ∷ []) path tokens = ground arith
basic_parts_lem lib (x ∷ y ∷ xs) path tokens = ground arith

module _ (lib : Libraries) (path : String) where
  -- One of the URLs is the start of the path.
  unfoldable pub covers : List String → Bool
  covers [] = false
  covers (u ∷ us) = lib.starts_with path u || covers us

  valid_for_url_from :
      (b : Bool) (urls : List String) → valid_for_url lib b path urls ≡ (b || covers urls)
  unfolding valid_for_url covers
  valid_for_url_from b [] = ground arith
  valid_for_url_from b (u ∷ us) =
      ground (arith, valid_for_url_from true us, valid_for_url_from b us)

  -- Whether the token covers the path, where there is one.
  abbrev pub or_later : Bool → Option Token → Bool
  or_later auth none = auth
  or_later auth (some t) = covers t.url

  -- The last token with the bearer.
  unfoldable pub last_bearer : String → List Token → Option Token
  last_bearer bearer [] = none
  last_bearer bearer (t ∷ ts) = elim (last_bearer bearer ts) [
    | some u ↦ some u
    | none ↦ if str_eq t.bearer bearer then some t else none
  ]

  bearer_loop_from :
      (auth : Bool) (bearer : String) (ts : List Token)
      → bearer_loop lib auth bearer path ts ≡ or_later auth (last_bearer bearer ts)
  unfolding bearer_loop last_bearer
  bearer_loop_from auth bearer [] = refl
  bearer_loop_from auth bearer (t ∷ ts) = ground (
    arith,
    bearer_loop_from auth bearer ts,
    bearer_loop_from (valid_for_url lib false path t.url) bearer ts,
    valid_for_url_from false t.url,
  )

  -- With a Bearer token a request gets through exactly if, of the tokens on file with this bearer,
  -- the last one has a URL that is the start of the path; with Basic credentials it gets through
  -- exactly if they have a colon, whatever user, password and URLs are on file.
  pub credentials_lem :
      (decoded : String) (tokens : List Token)
      → (authenticate_bearer lib decoded path tokens ≡ or_later false (last_bearer decoded tokens))
        × (authenticate_basic lib decoded path tokens ≡ has_colon decoded)
  unfolding authenticate_bearer authenticate_basic
  credentials_lem decoded tokens = (
    bearer_loop_from false decoded tokens,
    basic_parts_lem lib (split decoded) path tokens ∙ split_parts decoded,
  )

  -- What the first value of the header must be for the request to get through.
  abbrev pub Accepted : AuthValue → List Token → Type 0
  Accepted v tokens =
      (d : String) × (lib.decode v.token ≡ some d)
      × (((v.scheme ≡ "Basic") × (has_colon d ≡ true))
          ⊎ ((v.scheme ≡ "Bearer") × (or_later false (last_bearer d tokens) ≡ true)))

  by_scheme_lem :
      (v : AuthValue) (tokens : List Token)
      → (by_scheme lib v path tokens ≡ next) ↔ Accepted v tokens
  unfolding by_scheme
  by_scheme_lem v tokens = elim (Option-cases (lib.decode v.token)) [
    | inl e ↦ (λ h. ground (arith, eq_iff v.scheme "Basic"), λ (d, e', _). cc)
    | inr (d, e) ↦ (
      λ h. (
        d,
        e,
        ground (arith, eq_iff v.scheme "Basic", eq_iff v.scheme "Bearer", credentials_lem d tokens),
      ),
      λ (d', e', r). ground (
        arith,
        eq_iff v.scheme "Basic",
        eq_iff v.scheme "Bearer",
        eq_iff "Basic" "Bearer",
        credentials_lem d' tokens,
      ),
    )
  ]

  -- A request reaches the API exactly if authentication is switched off, or its header is there, is
  -- parsed and the first value in it is accepted: Basic with a colon in the decoded token, or
  -- Bearer where a token with this bearer is on file and the last such token has a URL that is the
  -- start of the path.
  pub authenticate_request_lem :
      (auth_enabled : Bool) (header : Option String) (tokens : List Token)
      → (authenticate_request lib auth_enabled header path tokens ≡ next) ↔ (
          (auth_enabled ≡ false)
          ⊎ ((h : String) × (v : AuthValue) × (vs : List AuthValue) × (header ≡ some h)
              × (lib.parse h ≡ some (v ∷ vs))
              × Accepted v tokens))
  unfolding authenticate_request
  authenticate_request_lem false header tokens = (λ _. inl refl, λ _. refl)
  authenticate_request_lem true none tokens =
      (λ h. cc, λ r. elim r [ inl e ↦ cc | inr (h, v, vs, e, _, _) ↦ cc ])
  authenticate_request_lem true (some h) tokens = elim (Option-cases (lib.parse h)) [
    | inl e ↦
        (λ r. ground arith, λ r. elim r [ inl q ↦ cc | inr (h', v, vs, q, p, _) ↦ ground arith ])
    | inr (vals, e) ↦ elim (List-cases vals) [
      | inl q ↦ (λ r. ground arith, λ r. elim r [ inl p ↦ cc | inr (h', v, vs, p, p', _) ↦ cc ])
      | inr (v, vs, q) ↦
          let p : lib.parse h ≡ some (v ∷ vs) = cc (e, q) in
          (
            λ r. inr (h, v, vs, refl, p, (by_scheme_lem v tokens).0 (ground arith)),
            λ r. elim r [
              | inl p ↦ cc
              | inr (h', v', vs', p', p'', a) ↦
                  let same : v' ≡ v = cc (p', p'', p) in
                  let accepted : by_scheme lib v path tokens ≡ next =
                    (by_scheme_lem v tokens).1 (subst (λ w. Accepted w tokens) same a) in
                  ground arith
            ],
          )
    ]
  ]
