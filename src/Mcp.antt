-- ===== src/Mcp.antt =====
-- `handleMCP` of ui/worker/handlers/mcp.ts: the tools of an agent, over the tables of the OAuth
-- server and of the configurations. The protocol is a library's; `is_uuid` is its check of a UUID.
mod Tests
pub mod Sound
use benis_phone.Common.{
  ℕ, ◌+◌, String, Bool, true, false, not, ◌&&◌, ◌||◌, ◌⊎◌, inl, inr, Option, none, some, List, [],
  ◌∷◌, ◌++◌, map, if◌then◌else◌, leb, ltb, all, is_some,
}
use benis_phone.Common.Text.{Text, codes, ◌=ₜ◌, has_text, matches, is_digit}
use benis_phone.OAuth.Store.{Store}
use benis_phone.OAuth.Platform.{Platform as OAuthPlatform}
use benis_phone.OAuth.Bearer.{Actor, authenticate_oauth_bearer}
use benis_phone.Config.Patch.{Op, Operation, unknown}
use benis_phone.Config.Store.{
  ConfigRow, ConfigActor, mcp, ConfigChange, Db, is_config_name, get_config,
}
use benis_phone.Config.Changes.{
  Platform, ChangeError, not_found, Preview, Applied, validate_config_patch, apply_config_patch,
  get_config_change,
}
use benis_phone.Config.Routes.{list_configs, list_config_changes}

-- A call of a tool with its arguments; the length of a patch as JSON text stands in front of it.
pub data Tool : Type 0 where
  lists : Tool
  gets status : Text → Tool
  validates applies : Text → Text → ℕ → List Operation → Tool
  lists_history : Text → Option ℕ → Tool
  gets_change : Text → Text → Tool

pub data Answer : Type 0 where
  -- The request without a valid token, and arguments that the schema of the tool refuses.
  unauthorized invalid_input : Answer
  missing_scope : Text → Answer
  refused : ChangeError → Answer
  configs : List ConfigRow → Answer
  config : ConfigRow → Answer
  previewed : Preview → Answer
  applied : Applied → Answer
  -- What the broker answers.
  forwarded : Answer
  changes : List ConfigChange → Answer
  change : ConfigChange → Answer

-- The scope that a tool asks for.
unfoldable pub scope_of : Tool → Text
unfolding codes
scope_of lists = codes "config:read"
scope_of (gets name) = codes "config:read"
scope_of (status name) = codes "status:read"
scope_of (validates name base bytes patch) = codes "config:write"
scope_of (applies name base bytes patch) = codes "config:write"
scope_of (lists_history name limit) = codes "history:read"
scope_of (gets_change name id) = codes "history:read"

-- `HASH_RE`
unfoldable pub is_hash_text : Text → Bool
unfolding matches
is_hash_text = matches (λ c. is_digit c || (leb b'a' c && leb c b'f')) 64 64

abbrev is_patch_op : Op → Bool
is_patch_op unknown = false
is_patch_op _ = true

-- `patchSchema`
unfoldable pub is_patch : List Operation → Bool
is_patch = all (λ (o : Operation). is_patch_op o.op)

abbrev is_limit : Option ℕ → Bool
is_limit none = true
is_limit (some n) = leb 1 n && leb n 100

abbrev limit_of : Option ℕ → ℕ
limit_of none = 50
limit_of (some n) = n

-- `${actor.clientName} (${actor.accessIdentity})`
unfoldable pub actor_of : Actor → ConfigActor
unfolding codes
actor_of a = record {
  kind = mcp;
  id = a.grant_id;
  label = a.client_name ++ codes " (" ++ a.access_identity ++ codes ")";
}

abbrev answer_preview : ChangeError ⊎ Preview → Answer
answer_preview (inl e) = refused e
answer_preview (inr v) = previewed v

abbrev answer_applied : ChangeError ⊎ Applied → Answer
answer_applied (inl e) = refused e
answer_applied (inr a) = applied a

abbrev found_config : Option ConfigRow → Answer → Answer
found_config none answer = refused not_found
found_config (some row) answer = answer

module _ (p : Platform) (is_uuid : Text → Bool) where
  unfoldable pub input_ok : Tool → Bool
  unfolding is_config_name is_hash_text is_patch
  input_ok lists = true
  input_ok (gets name) = is_config_name name
  input_ok (status name) = is_config_name name
  input_ok (validates name base bytes patch) =
      is_config_name name && is_hash_text base && is_patch patch
  input_ok (applies name base bytes patch) =
      is_config_name name && is_hash_text base && is_patch patch
  input_ok (lists_history name limit) = is_config_name name && is_limit limit
  input_ok (gets_change name id) = is_config_name name && is_uuid id

  -- The operation of a tool.
  unfoldable pub operate : Tool → Actor → Text → ℕ → Db → Answer × Db
  unfolding list_configs get_config validate_config_patch apply_config_patch list_config_changes
      get_config_change actor_of
  operate lists a id now db = (configs (list_configs db), db)
  operate (gets name) a id now db = elim (get_config name db) [
    | none ↦ (refused not_found, db)
    | some row ↦ (config row, db)
  ]
  operate (status name) a id now db = (found_config (get_config name db) forwarded, db)
  operate (validates name base bytes patch) a id now db =
      (answer_preview (validate_config_patch p name base bytes patch db), db)
  operate (applies name base bytes patch) a id now db =
      let (result, db') = apply_config_patch p name base bytes patch (actor_of a) id now db in
      (answer_applied result, db')
  operate (lists_history name limit) a id now db =
      (changes (list_config_changes name (limit_of limit) db), db)
  operate (gets_change name id) a _ now db = elim (get_config_change name id db) [
    | none ↦ (refused not_found, db)
    | some c ↦ (change c, db)
  ]

  unfoldable pub run_tool : Tool → Actor → Text → ℕ → Db → Answer × Db
  unfolding scope_of operate has_text
  run_tool t a id now db =
      if has_text a.scopes (scope_of t)
      then operate t a id now db
      else (missing_scope (scope_of t), db)

  -- A request with its `Authorization` header, a new change id and the clock.
  unfoldable pub handle_mcp :
      OAuthPlatform → Option Text → Tool → Text → ℕ → Store × Db → Answer × Store × Db
  unfolding authenticate_oauth_bearer input_ok run_tool
  handle_mcp q header t id now (s, db) =
      let (actor, s') = authenticate_oauth_bearer q header now s in
      elim actor [
        | none ↦ (unauthorized, s', db)
        | some a ↦
            if input_ok t
            then (let (answer, db') = run_tool t a id now db in (answer, s', db'))
            else (invalid_input, s', db)
      ]
