-- ===== src/OAuth/Clients.antt =====
-- `registerClient`, `validRedirectURI` and `normalizeScope` of ui/worker/lib/oauth.ts.
use benis_phone.Common.{
  ℕ, ◌-◌, Bool, true, false, not, ◌&&◌, ◌||◌, Option, none, some, List, [], ◌∷◌, leb, is_some,
  if◌then◌else◌, length, take,
}
use benis_phone.Common.Table.{first?, count}
use benis_phone.Common.Text.{distinct_from, Text, codes, ◌=ₜ◌, trim, words, join, has_text}
use benis_phone.OAuth.Store.{Client, Store}
use benis_phone.OAuth.Platform.{Platform, random_token, Response, oauth_error, failed, registered}

abbrev pub is_empty : Text → Bool
is_empty [] = true
is_empty (_ ∷ _) = false

-- `SCOPES`
unfoldable pub scopes : List Text
unfolding codes
scopes =
    codes "config:read" ∷ codes "config:write" ∷ codes "status:read" ∷ codes "history:read" ∷ []

unfoldable pub default_scope : Text
unfolding join
default_scope = join (b' ' ∷ []) scopes

unfoldable pub all_known : List Text → Bool
unfolding has_text
all_known [] = true
all_known (x ∷ xs) = has_text scopes x && all_known xs

unfoldable pub normalize_scope : Option Text → Option Text
normalize_scope none = some default_scope
normalize_scope (some []) = some default_scope
normalize_scope (some (c ∷ s)) =
    let requested = distinct_from [] (words (c ∷ s)) in
    if not (all_known requested)
    then none
    else elim requested [ [] ↦ some default_scope | x ∷ xs ↦ some (join (b' ' ∷ []) (x ∷ xs)) ]

module _ (p : Platform) where
  unfoldable pub valid_redirect_uri : Text → Bool
  unfolding codes
  valid_redirect_uri value = elim (p.parse_url value) [
    | none ↦ false
    | some url ↦
        if not (is_empty url.hash) || not (is_empty url.username) || not (is_empty url.password)
        then false
        else if url.protocol =ₜ codes "https:"
        then true
        else if not (url.protocol =ₜ codes "http:")
        then false
        else (url.hostname =ₜ codes "127.0.0.1")
          || (url.hostname =ₜ codes "[::1]")
          || (url.hostname =ₜ codes "localhost")
  ]

  -- `value.every(…)`; `none` is an item that is no string.
  unfoldable pub all_valid_uris : List (Option Text) → Bool
  all_valid_uris [] = true
  all_valid_uris (none ∷ _) = false
  all_valid_uris (some value ∷ rest) = valid_redirect_uri value && all_valid_uris rest

-- A field of the request's JSON object.
pub data Field : Type 0 where
  absent other : Field
  text : Text → Field

-- The parsed body. An array, a number or a text reads as an object with no fields; the JSON `null`
-- makes the handler throw.
pub data Body : Type 0 where
  invalid_json null_json : Body
  -- `redirect_uris` (`none` if it is no array), `token_endpoint_auth_method` and `client_name`.
  object : Option (List (Option Text)) → Field → Field → Body

abbrev pub hour_ms : ℕ
hour_ms = 3600000

abbrev pub max_clients_per_hour : ℕ
max_clients_per_hour = 100

unfoldable pub uris_of : List (Option Text) → List Text
uris_of [] = []
uris_of (none ∷ rest) = uris_of rest
uris_of (some uri ∷ rest) = uri ∷ uris_of rest

unfoldable pub public_client : Field → Bool
unfolding codes ◌=ₜ◌
public_client absent = true
public_client other = false
public_client (text t) = t =ₜ codes "none"

unfoldable pub client_name_of : Field → Text
unfolding codes trim
client_name_of (text name) = elim (trim name) [ [] ↦ codes "MCP client" | c ∷ s ↦ take 128 (c ∷ s) ]
client_name_of _ = codes "MCP client"

-- The primary key of `oauth_clients`; `none` where the insertion throws.
unfoldable pub insert_client : Client → List Client → Option (List Client)
insert_client c cs =
    if is_some (first? (λ (d : Client). d.client_id =ₜ c.client_id) cs) then none else some (c ∷ cs)

-- `created_at >= now - hour` for a clock beyond the first hour.
abbrev recent_since : ℕ → Client → Bool
recent_since now c = leb (now - hour_ms) c.created_at

module _ (p : Platform) where
  -- The limit and the insertion, on the checked addresses and the random bytes of the new id.
  unfoldable pub add_client : List Text → Field → List ℕ → ℕ → Store → Response × Store
  add_client uris name bytes now s =
      if leb max_clients_per_hour (count (recent_since now) s.clients)
      then (oauth_error "temporarily_unavailable" 429, s)
      else elim (insert_client
          (record {
            client_id = random_token p "mcp_client" bytes;
            client_name = client_name_of name;
            redirect_uris = uris;
            created_at = now;
          })
          s.clients) [
            | none ↦ (failed, s)
            | some cs ↦ (
              registered (random_token p "mcp_client" bytes) (client_name_of name) uris,
              record s { clients = cs },
            )
          ]

  unfoldable pub register_client : Body → List ℕ → ℕ → Store → Response × Store
  register_client invalid_json bytes now s = (oauth_error "invalid_client_metadata" 400, s)
  register_client null_json bytes now s = (failed, s)
  register_client (object none method name) bytes now s =
      (oauth_error "invalid_redirect_uri" 400, s)
  register_client (object (some uris) method name) bytes now s =
      if not (leb 1 (length uris)) || not (leb (length uris) 10) || not (all_valid_uris p uris)
      then (oauth_error "invalid_redirect_uri" 400, s)
      else if not (public_client method)
      then (oauth_error "invalid_client_metadata" 400, s)
      else add_client (uris_of uris) name bytes now s
