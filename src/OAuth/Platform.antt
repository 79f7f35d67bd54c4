-- ===== src/OAuth/Platform.antt =====
-- What the OAuth server takes from the platform (SHA-256, `btoa`, `new URL`), the helpers over it,
-- the requests as far as the handlers read them, and the responses.
use benis_phone.Common.{
  ℕ, String, Option, none, some, List, [], ◌∷◌, ◌++◌, map, ◌==◌, if◌then◌else◌,
}
use benis_phone.Common.Text.{Text, codes, hex, ◌=ₜ◌, trim, split_first, split, join}

pub record Url : Type 0 where
  pub protocol : Text
  pub hostname : Text
  pub username : Text
  pub password : Text
  pub hash : Text

-- `sha256` is the digest of the UTF-8 encoding; `parse_url` is `none` where `new URL` throws.
pub record Platform : Type 0 where
  pub sha256 : Text → List ℕ
  pub btoa : List ℕ → Text
  pub parse_url : Text → Option Url

-- `.replace(/=+$/g, "")`
unfoldable pub strip_padding : Text → Text
strip_padding [] = []
strip_padding (c ∷ s) = elim (strip_padding s) [
  | [] ↦ if c == b'=' then [] else c ∷ []
  | d ∷ t ↦ c ∷ d ∷ t
]

-- `.replace(/\+/g, "-").replace(/\//g, "_")`
unfoldable pub url_char : ℕ → ℕ
url_char c = if c == b'+' then b'-' else if c == b'/' then b'_' else c

module _ (p : Platform) where
  -- `sha256Hex` of ui/worker/lib/hash.ts.
  unfoldable pub sha256_hex : Text → Text
  sha256_hex s = hex (p.sha256 s)

  unfoldable pub base64url : List ℕ → Text
  unfolding strip_padding url_char
  base64url bytes = strip_padding (map url_char (p.btoa bytes))

  unfoldable pub pkce_challenge : Text → Text
  pkce_challenge verifier = base64url (p.sha256 verifier)

  -- `randomToken` on the 32 random bytes that it draws.
  unfoldable pub random_token : String → List ℕ → Text
  random_token prefix bytes = codes prefix ++ (b'_' ∷ base64url bytes)

-- The fields of a form or a query, in order; `get` gives the first of a name.
abbrev pub Fields : Type 0
Fields = List (Text × Text)

unfoldable pub get : Text → Fields → Option Text
get name [] = none
get name ((k, v) ∷ fields) = if k =ₜ name then some v else get name fields

abbrev pub or_empty : Option Text → Text
or_empty none = []
or_empty (some s) = s

-- `String(form.get(name) ?? "")`
unfoldable pub form_field : String → Fields → Text
unfolding codes get
form_field name form = or_empty (get (codes name) form)

-- `cookieValue`: the value behind the first `=` of the first part with that key.
unfoldable pub cookie_in : Text → List Text → Option Text
unfolding split trim join
cookie_in name [] = none
cookie_in name (part ∷ parts) =
    let (key, rest) = split_first b'=' (trim part) in
    if key =ₜ name then some (join (b'=' ∷ []) rest) else cookie_in name parts

unfoldable pub cookie_value : Option Text → Text → Option Text
unfolding cookie_in split
cookie_value header name = cookie_in name (split b';' (or_empty header))

pub data Response : Type 0 where
  -- `oauthError`: the error's name and the status.
  oauth_error : String → ℕ → Response
  bad_request : String → Response
  unauthorized method_not_allowed : Response
  not_found : String → Response
  -- An exception that no handler catches, as a conflict of primary keys.
  failed : Response
  metadata : String → Text → Response
  registered : Text → Text → List Text → Response
  -- The authorization page, with the request's id and the token of its cookie.
  page : Text → Text → Text → Text → Text → Response
  redirect : Text → Fields → Response
  tokens_issued : Text → Text → Text → Response
  revoked : ℕ → Response
  done : Response
