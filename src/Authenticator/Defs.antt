-- ===== src/Authenticator/Defs.antt =====
-- The check of a request's credentials (notifications/authenticator.js). The header's parser, the
-- Base64 decoder and the test of a prefix are libraries.
use Prim.Native.Char.{code}
use Prim.Native.String.{◌++◌ as join}
use netgraphz2_gpl.Common.{
  List, Bool, Option, String, [], false, if◌then◌else◌, none, not, some, str_eq, take, true, ◌&&◌,
  ◌==◌, ◌∷◌,
}

-- An entry of `token_storage.getValid()`.
pub record Token : Type 0 where
  pub username : String
  pub password : String
  pub bearer : String
  pub url : List String

-- An entry of `values` in a parsed header; a scheme may have no token.
pub record AuthValue : Type 0 where
  pub scheme : String
  pub token : Option String

-- `auth-header`, `Buffer(token, 'base64').toString()` and `string`. `none` is an exception.
pub record Libraries : Type 0 where
  pub parse : String → Option (List AuthValue)
  pub decode : Option String → Option String
  pub starts_with : String → String → Bool

pub data Reply : Type 0 where
  next required failed throws : Reply

abbrev pub to_head : String → List String → List String
to_head c [] = c ∷ []
to_head c (x ∷ xs) = join c x ∷ xs

-- `split(':')`.
unfoldable pub split : String → List String
split String.[] = "" ∷ []
split (String.◌∷◌ c s) =
    if code c == b':' then "" ∷ split s else to_head (String.◌∷◌ c "") (split s)

module _ (lib : Libraries) where
  -- The loop of `valid_for_url`: it goes on after a hit.
  unfoldable pub valid_for_url : Bool → String → List String → Bool
  valid_for_url valid path [] = valid
  valid_for_url valid path (e ∷ es) =
      valid_for_url (if lib.starts_with path e then true else valid) path es

  -- The loop of `authenticate_basic`: every hit sets `auth` anew.
  unfoldable pub basic_loop : Bool → String → String → String → List Token → Bool
  unfolding valid_for_url
  basic_loop auth username password path [] = auth
  basic_loop auth username password path (e ∷ es) =
      basic_loop
        (if str_eq e.username username && str_eq e.password password
          then valid_for_url false path e.url
          else auth)
        username password path es

  -- The end of `authenticate_basic`: `return true` stands before `return auth`.
  unfoldable pub basic_parts : List String → String → List Token → Bool
  unfolding basic_loop
  basic_parts (username ∷ password ∷ parts) path tokens =
      let auth = basic_loop false username password path tokens in true
  basic_parts _ path tokens = false

  -- `authenticate_basic` on the decoded token.
  unfoldable pub authenticate_basic : String → String → List Token → Bool
  unfolding basic_parts split
  authenticate_basic decoded path tokens = basic_parts (take 2 (split decoded)) path tokens

  -- The loop of `authenticate_bearer`: every hit sets `auth` anew.
  unfoldable pub bearer_loop : Bool → String → String → List Token → Bool
  unfolding valid_for_url
  bearer_loop auth bearer path [] = auth
  bearer_loop auth bearer path (e ∷ es) =
      bearer_loop (if str_eq e.bearer bearer then valid_for_url false path e.url else auth) bearer
        path es

  -- `authenticate_bearer` on the decoded token.
  unfoldable pub authenticate_bearer : String → String → List Token → Bool
  unfolding bearer_loop
  authenticate_bearer decoded path tokens = bearer_loop false decoded path tokens

  abbrev pub reply : Bool → Reply
  reply true = next
  reply false = failed

  -- The `switch` on the scheme, once the token is decoded.
  unfoldable pub by_scheme : AuthValue → String → List Token → Reply
  unfolding authenticate_basic authenticate_bearer
  by_scheme v path tokens =
      if str_eq v.scheme "Basic"
      then elim (lib.decode v.token) [
        | none ↦ throws
        | some decoded ↦ reply (authenticate_basic decoded path tokens)
      ]
      else if str_eq v.scheme "Bearer"
      then elim (lib.decode v.token) [
        | none ↦ throws
        | some decoded ↦ reply (authenticate_bearer decoded path tokens)
      ]
      else required

  -- `authenticate_request`: the test of `lenght` never holds, so that with no value the code reads
  -- a field of `undefined`.
  unfoldable pub authenticate_request : Bool → Option String → String → List Token → Reply
  unfolding by_scheme
  authenticate_request auth_enabled header path tokens =
      if not auth_enabled then next else elim header [
        | none ↦ required
        | some h ↦ elim (lib.parse h) [
          | none ↦ throws
          | some values ↦ elim values [ [] ↦ throws | v ∷ vs ↦ by_scheme v path tokens ]
        ]
      ]
