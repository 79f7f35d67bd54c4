-- ===== src/Config/Routes.antt =====
-- The routes of `handleApi` in ui/worker/handlers/configs.ts, with the two lists that it answers
-- with: `listConfigs` of ui/worker/lib/db.ts and `listConfigChanges` of config-changes.ts. Rows of
-- one time stand in any order in the answer of the database; here the later row stands first.
pub mod Frames
use benis_phone.Common.{
  ℕ, zero, suc, ◌-◌, ◌+◌, String, Bool, true, false, not, ◌&&◌, ◌||◌, Option, none, some, List, [],
  ◌∷◌, map, if◌then◌else◌, is_some, length, ◌==◌, leb, ltb, all, take, drop,
}
use benis_phone.Common.Table.{filter}
use benis_phone.Common.Text.{Text, codes, ◌=ₜ◌, is_hex_dash, is_upper}
use benis_phone.Config.Json.{Json}
use benis_phone.Config.Store.{ConfigRow, ConfigChange, Db, is_config_name, get_config}
use benis_phone.Config.Changes.{Platform, get_config_change}
use benis_phone.Config.Save.{
  Reason, method_not_allowed, invalid_name, Reply, configs, history, forwarded, not_found, failed,
  bad_request, put_one,
}
use benis_phone.Config.Api.{
  delete_one, duplicate, get_credentials, patch_credentials, rollback, get_registration,
  rotate_registration, get_one,
}

module _ {ℓ} {A : Type ℓ} (time : A → ℕ) where
  unfoldable pub insert_newest : A → List A → List A
  insert_newest x [] = x ∷ []
  insert_newest x (y ∷ ys) =
      let rest = insert_newest x ys in if leb (time y) (time x) then x ∷ y ∷ ys else y ∷ rest

  -- `ORDER BY … DESC`
  unfoldable pub newest_first : List A → List A
  unfolding insert_newest
  newest_first [] = []
  newest_first (x ∷ xs) = insert_newest x (newest_first xs)

unfoldable pub list_configs : Db → List ConfigRow
unfolding newest_first
list_configs db = newest_first (λ (r : ConfigRow). r.updated_at) db.configs

-- `Math.max(1, Math.min(100, limit))` for a whole number.
unfoldable pub safe_limit : ℕ → ℕ
safe_limit limit = if ltb 100 limit then 100 else if limit == 0 then 1 else limit

unfoldable pub list_config_changes : Text → ℕ → Db → List ConfigChange
unfolding newest_first safe_limit
list_config_changes name limit db = take (safe_limit limit) (
    newest_first (λ (c : ConfigChange). c.created_at)
      (filter (λ (c : ConfigChange). c.config_name =ₜ name) db.changes))

-- A request: the path behind `/api/configs`, the body as JSON, `accessIdentity`, and what the
-- platform gives while it is handled.
pub record Request : Type 0 where
  pub method : Text
  pub rest : Text
  pub upgrade : Option Text
  pub body : Option Json
  pub identity : Text
  pub now : ℕ
  pub new_id : Text
  pub ivs : List (List ℕ)
  pub patch_bytes : ℕ

abbrev pub is_method : String → Request → Bool
is_method m r = r.method =ₜ codes m

-- `/^\/([^/]+)(\/.*)?$/`: the first segment and what stands behind it.
unfoldable pub until_slash : Text → Text × Text
until_slash [] = ([], [])
until_slash (c ∷ s) =
    let (segment, sub) = until_slash s in if c == b'/' then ([], c ∷ s) else (c ∷ segment, sub)

abbrev pub named_segment : Text → Text → Option (Text × Text)
named_segment [] sub = none
named_segment (c ∷ s) sub = some (c ∷ s, sub)

unfoldable pub first_segment : Text → Option (Text × Text)
unfolding until_slash
first_segment [] = none
first_segment (c ∷ s) =
    if c == b'/' then (let (segment, sub) = until_slash s in named_segment segment sub) else none

abbrev pub lower_case : ℕ → ℕ
lower_case c = if is_upper c then c + 32 else c

-- The rest of a text that begins with the given one up to case.
unfoldable pub strip_prefix_case : Text → Text → Option Text
strip_prefix_case [] s = some s
strip_prefix_case (c ∷ p) [] = none
strip_prefix_case (c ∷ p) (d ∷ s) =
    if lower_case c == lower_case d then strip_prefix_case p s else none

-- `/^\/history\/([0-9a-f-]{36})(\/rollback)?$/i`: the id, and what follows it.
unfoldable pub history_path : Text → Option (Text × Text)
unfolding strip_prefix_case codes
history_path sub = elim (strip_prefix_case (codes "/history/") sub) [
  | none ↦ none
  | some s ↦
      let id = take 36 s in
      let tail = drop 36 s in
      if not (length id == 36) || not (all is_hex_dash id) then none else elim tail [
        | [] ↦ some (id, [])
        | c ∷ t ↦ elim (strip_prefix_case (codes "/rollback") (c ∷ t)) [
          | some [] ↦ some (id, c ∷ t)
          | _ ↦ none
        ]
      ]
]

abbrev pub first_iv : List (List ℕ) → List ℕ
first_iv [] = []
first_iv (iv ∷ ivs) = iv

abbrev pub refuse : Reply × Db → Bool → Db → Reply × Db
refuse answer true db = answer
refuse answer false db = (bad_request method_not_allowed, db)

module _ (p : Platform) (decode : Text → Option Text) where
  -- The requests under `/history`.
  unfoldable pub handle_history : Request → Text → Text → Text → Db → Reply × Db
  unfolding codes get_config_change rollback
  handle_history r name id action db =
      if action =ₜ codes "/rollback"
      then refuse (rollback p r.body name id r.identity r.patch_bytes r.new_id r.now db)
          (is_method "POST" r) db
      else refuse
          (elim (get_config_change name id db) [
            | none ↦ (not_found, db)
            | some c ↦ (history (c.change_id ∷ []), db)
          ])
          (is_method "GET" r) db

  -- The requests on a configuration and nothing behind it.
  unfoldable pub handle_config : Request → Text → Db → Reply × Db
  unfolding codes put_one delete_one get_one
  handle_config r name db =
      if is_method "GET" r
      then (get_one p name db, db)
      else if is_method "PUT" r
      then put_one p r.body name r.now r.new_id r.ivs db
      else if is_method "DELETE" r
      then delete_one name db
      else (bad_request method_not_allowed, db)

  -- A path behind a configuration's name that is not one of the fixed ones.
  unfoldable pub handle_other : Request → Text → Text → Db → Reply × Db
  unfolding history_path handle_history handle_config
  handle_other r name sub db = elim (history_path sub) [
    | some (id, action) ↦ handle_history r name id action db
    | none ↦ if not (sub =ₜ []) then (not_found, db) else handle_config r name db
  ]

  abbrev pub is_websocket : Option Text → Bool
  is_websocket none = false
  is_websocket (some u) = u =ₜ codes "websocket"

  -- From `/credentials` on.
  unfoldable pub handle_fixed : Request → Text → Text → Db → Reply × Db
  unfolding codes handle_other get_credentials patch_credentials get_registration
      rotate_registration list_config_changes get_config
  handle_fixed r name sub db =
      if sub =ₜ codes "/credentials"
      then (if is_method "GET" r
          then (get_credentials p name db, db)
          else refuse (patch_credentials p r.body name r.now (first_iv r.ivs) db)
              (is_method "PATCH" r) db)
      else if sub =ₜ codes "/registration"
      then refuse (get_registration p name db, db) (is_method "GET" r) db
      else if sub =ₜ codes "/registration/rotate"
      then refuse (rotate_registration p name r.now r.new_id db) (is_method "POST" r) db
      else if sub =ₜ codes "/history"
      then refuse
          (
            (if is_some (get_config name db)
                then history
                    (map (λ (c : ConfigChange). c.change_id) (list_config_changes name 50 db))
                else not_found),
            db,
          )
          (is_method "GET" r) db
      else handle_other r name sub db

  unfoldable pub handle_sub : Request → Text → Text → Db → Reply × Db
  unfolding codes handle_fixed duplicate
  handle_sub r name sub db =
      if sub =ₜ codes "/duplicate"
      then refuse (duplicate p r.body name r.now r.new_id r.ivs db) (is_method "POST" r) db
      else if (sub =ₜ codes "/sip-status") && is_method "GET" r
      then (forwarded, db)
      else if (sub =ₜ codes "/sip-status/ws") && is_websocket r.upgrade
      then (forwarded, db)
      else handle_fixed r name sub db

  -- `decode` is `decodeURIComponent`, `none` where it throws.
  unfoldable pub handle_api : Request → Db → Reply × Db
  unfolding codes first_segment handle_sub list_configs is_config_name
  handle_api r db =
      if (r.rest =ₜ []) || (r.rest =ₜ codes "/")
      then refuse (configs (map (λ (c : ConfigRow). (c.name, c.hash)) (list_configs db)), db)
          (is_method "GET" r) db
      else elim (first_segment r.rest) [
        | none ↦ (not_found, db)
        | some (segment, sub) ↦ elim (decode segment) [
          | none ↦ (failed, db)
          | some name ↦
              if is_config_name name
              then handle_sub r name sub db
              else (bad_request invalid_name, db)
        ]
      ]
