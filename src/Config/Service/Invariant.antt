-- ===== src/Config/Service/Invariant.antt =====
-- Any run of requests leaves the tables consistent.
use benis_phone.Common.{
  ◌≡◌, sym, Bool, true, false, ◌&&◌, ◌⊎◌, Option, none, some, List, [], ◌∷◌, inl, inr, arith,
  Option-cases, Bool-cases, if◌then◌else◌, is_some, map, subst,
}
use benis_phone.Common.Text.{Text, codes, ◌=ₜ◌}
use benis_phone.Config.Store.{ConfigChange, Db, get_config}
use benis_phone.Config.Changes.{Platform, apply_config_patch}
use benis_phone.Config.Save.{Reply, history, not_found, forwarded, put_one}
use benis_phone.Config.Api.{
  rollback, get_credentials, get_registration, duplicate, patch_credentials, rotate_registration,
  delete_one,
}
use benis_phone.Config.Routes.{
  Request, first_segment, history_path, handle_history, handle_config, handle_other, handle_fixed,
  handle_sub, handle_api, is_method, refuse, first_iv, is_websocket, list_config_changes,
}
use benis_phone.Config.Service.{Event, requests, patches, handle, run}
use benis_phone.Config.Service.Consistent.{IsConsistent}
use benis_phone.Config.Service.Saves.{put_one-IsConsistent}
use benis_phone.Config.Service.Requests.{
  delete_one-IsConsistent, duplicate-IsConsistent, patch_credentials-IsConsistent,
  rotate_registration-IsConsistent,
}
use benis_phone.Config.Service.Changes.{change_config-IsConsistent, rollback-IsConsistent}

module _ (p : Platform) where
  module _ (decode : Text → Option Text) (r : Request) (db : Db) (k : IsConsistent p db) where
    -- What the tables are after each route.
    handle_history-outcomes :
        (name id action : Text)
        → ((handle_history p decode r name id action db).1 ≡ db)
          ⊎ ((handle_history p decode r name id action db).1
              ≡ (rollback p r.body name id r.identity r.patch_bytes r.new_id r.now db).1)
    unfolding handle_history
    handle_history-outcomes name id action = ground arith

    handle_config-outcomes :
        (name : Text)
        → ((handle_config p decode r name db).1 ≡ db)
          ⊎ ((handle_config p decode r name db).1
              ≡ (put_one p r.body name r.now r.new_id r.ivs db).1)
          ⊎ ((handle_config p decode r name db).1 ≡ (delete_one name db).1)
    unfolding handle_config
    handle_config-outcomes name = ground arith

    by : {db' db'' : Db} → db' ≡ db'' → IsConsistent p db'' → IsConsistent p db'
    by e h = subst (IsConsistent p) (sym e) h

    handle_history-IsConsistent :
        (name id action : Text) → IsConsistent p (handle_history p decode r name id action db).1
    handle_history-IsConsistent name id action = elim (handle_history-outcomes name id action) [
      | inl e ↦ by e k
      | inr e ↦
          by e (rollback-IsConsistent p r.body name id r.identity r.patch_bytes r.new_id r.now db k)
    ]

    handle_config-IsConsistent : (name : Text) → IsConsistent p (handle_config p decode r name db).1
    handle_config-IsConsistent name = elim (handle_config-outcomes name) [
      | inl e ↦ by e k
      | inr (inl e) ↦ by e (put_one-IsConsistent p r.body name r.now r.new_id r.ivs db k)
      | inr (inr e) ↦ by e (delete_one-IsConsistent p name db k)
    ]

    handle_other-IsConsistent :
        (name sub : Text) → IsConsistent p (handle_other p decode r name sub db).1
    unfolding handle_other
    handle_other-IsConsistent name sub = elim (Option-cases (history_path sub)) [
      | inr ((id, action), e) ↦ rw (handle_other, e) (handle_history-IsConsistent name id action)
      | inl n ↦ elim (Bool-cases (sub =ₜ [])) [
        | inl t ↦ rw (handle_other, n, t) (handle_config-IsConsistent name)
        | inr f ↦ rw (handle_other, n, f) k
      ]
    ]

    either :
        (b : Bool) (x y : Reply × Db)
        → IsConsistent p x.1
        → IsConsistent p y.1
        → IsConsistent p (if b then x else y).1
    either true x y f g = f
    either false x y f g = g

    refused :
        (answer : Reply × Db) (b : Bool)
        → IsConsistent p answer.1
        → IsConsistent p (refuse answer b db).1
    refused answer true f = f
    refused answer false f = k

    handle_fixed-IsConsistent :
        (name sub : Text) → IsConsistent p (handle_fixed p decode r name sub db).1
    unfolding handle_fixed
    handle_fixed-IsConsistent name sub =
        let get = is_method "GET" r in
        let patched = patch_credentials p r.body name r.now (first_iv r.ivs) db in
        let credentials_route = refuse patched (is_method "PATCH" r) db in
        let read : Reply × Db = (get_credentials p name db, db) in
        let rotated = rotate_registration p name r.now r.new_id db in
        let rotate_route = refuse rotated (is_method "POST" r) db in
        let registration : Reply × Db = (get_registration p name db, db) in
        let registration_route = refuse registration get db in
        let changes = map (λ (c : ConfigChange). c.change_id) (list_config_changes name 50 db) in
        let listed : Reply × Db =
          ((if is_some (get_config name db) then history changes else not_found), db) in
        let history_route = refuse listed get db in
        let other = handle_other p decode r name sub db in
        let is_history = sub =ₜ codes "/history" in
        let is_rotate = sub =ₜ codes "/registration/rotate" in
        let rest2 = if is_history then history_route else other in
        let rest1 = if is_rotate then rotate_route else rest2 in
        let rest = if sub =ₜ codes "/registration" then registration_route else rest1 in
        let own : Reply × Db = if get then read else credentials_route in
        either (sub =ₜ codes "/credentials") own rest
          (either get read credentials_route k (
            refused patched (is_method "PATCH" r)
              (patch_credentials-IsConsistent p r.body name r.now (first_iv r.ivs) db k)))
          (either (sub =ₜ codes "/registration") registration_route rest1
            (refused registration get k)
            (either is_rotate rotate_route rest2
              (refused rotated (is_method "POST" r)
                (rotate_registration-IsConsistent p name r.now r.new_id db k))
              (either is_history history_route other (refused listed get k)
                (handle_other-IsConsistent name sub))))

    handle_sub-IsConsistent :
        (name sub : Text) → IsConsistent p (handle_sub p decode r name sub db).1
    unfolding handle_sub
    handle_sub-IsConsistent name sub =
        let copied = duplicate p r.body name r.now r.new_id r.ivs db in
        let copy_route = refuse copied (is_method "POST" r) db in
        let broker : Reply × Db = (forwarded, db) in
        let is_status = (sub =ₜ codes "/sip-status") && is_method "GET" r in
        let is_socket = (sub =ₜ codes "/sip-status/ws") && is_websocket p decode r.upgrade in
        let rest2 = handle_fixed p decode r name sub db in
        let rest1 = if is_socket then broker else rest2 in
        let rest = if is_status then broker else rest1 in
        either (sub =ₜ codes "/duplicate") copy_route rest
          (refused copied (is_method "POST" r)
            (duplicate-IsConsistent p r.body name r.now r.new_id r.ivs db k))
          (either is_status broker rest1 k
            (either is_socket broker rest2 k (handle_fixed-IsConsistent name sub)))

    handle_api-outcomes :
        (name segment sub : Text)
        → first_segment r.rest ≡ some (segment, sub)
        → decode segment ≡ some name
        → ((handle_api p decode r db).1 ≡ db)
          ⊎ ((handle_api p decode r db).1 ≡ (handle_sub p decode r name sub db).1)
    unfolding handle_api
    handle_api-outcomes name segment sub e d = rw (handle_api, e, d) (ground arith)

    handle_api-unnamed :
        (first_segment r.rest ≡ none)
          ⊎ ((segment sub : Text) × (first_segment r.rest ≡ some (segment, sub))
              × (decode segment ≡ none))
        → (handle_api p decode r db).1 ≡ db
    unfolding handle_api
    handle_api-unnamed (inl n) = rw (handle_api, n) (ground arith)
    handle_api-unnamed (inr (segment, sub, e, n)) = rw (handle_api, e, n) (ground arith)

    handle_api-IsConsistent : IsConsistent p (handle_api p decode r db).1
    handle_api-IsConsistent = elim (Option-cases (first_segment r.rest)) [
      | inl n ↦ by (handle_api-unnamed (inl n)) k
      | inr ((segment, sub), e) ↦ elim (Option-cases (decode segment)) [
        | inl n ↦ by (handle_api-unnamed (inr (segment, sub, e, n))) k
        | inr (name, d) ↦ elim (handle_api-outcomes name segment sub e d) [
          | inl same ↦ by same k
          | inr same ↦ by same (handle_sub-IsConsistent name sub)
        ]
      ]
    ]

  -- Whatever requests are made, consistent tables stay consistent: names are unique, the last
  -- change of every configuration is in the log, and every configuration's TOML is its document
  -- printed, its hash is that of its TOML and its secret revision, and its document has no error
  -- but that it may be a draft without connections.
  pub run-IsConsistent :
      (decode : Text → Option Text) (es : List Event) (db : Db)
      → IsConsistent p db
      → IsConsistent p (run p decode es db)
  unfolding run handle apply_config_patch
  run-IsConsistent decode [] db k = k
  run-IsConsistent decode (requests r ∷ es) db k =
      run-IsConsistent decode es (handle_api p decode r db).1
        (handle_api-IsConsistent decode r db k)
  run-IsConsistent decode (patches name base bytes patch actor id now ∷ es) db k =
      run-IsConsistent decode es (apply_config_patch p name base bytes patch actor id now db).1
        (change_config-IsConsistent p name base bytes patch actor none id now db k)
