-- ===== src/Mcp/Sound.antt =====
-- Only an agent with the scope to write changes a configuration.
use benis_phone.Common.{
  ℕ, ◌≡◌, refl, ap, Bool, true, Option, none, List, ◌⊎◌, inl, inr, arith, Option-cases, Bool-cases,
  Sum-cases,
}
use benis_phone.Common.Table.{first?}
use benis_phone.Common.Text.{Text, codes, has_text}
use benis_phone.OAuth.Store.{Store}
use benis_phone.OAuth.Platform.{Platform as OAuthPlatform}
use benis_phone.OAuth.Bearer.{Actor, authenticate_oauth_bearer}
use benis_phone.OAuth.Bearer.Sound.{IsAuthentic, authenticate_oauth_bearer-IsAuthentic}
use benis_phone.Config.Patch.{Operation}
use benis_phone.Config.Store.{Db, has_change_id}
use benis_phone.Config.Changes.{Platform, apply_config_patch, change_config}
use benis_phone.Config.Changes.Sound.{IsApplied, change_config-IsApplied, change_config-refused}
use benis_phone.Mcp.{
  Tool, lists, gets, status, validates, applies, lists_history, gets_change, scope_of, actor_of,
  input_ok, operate, run_tool, handle_mcp,
}

module _ (p : Platform) (is_uuid : Text → Bool) where
  -- A call that changed the tables: of `apply_config_patch`, by this agent.
  pub record IsWrite (t : Tool) (a : Actor) (id : Text) (now : ℕ) (db db' : Db) : Type 0 where
    pub name : Text
    pub base : Text
    pub bytes : ℕ
    pub patch : List Operation
    pub called : t ≡ applies name base bytes patch
    pub done : IsApplied p name base bytes patch (actor_of a) none id now db db'

  pair-eta {ℓ κ} : {A : Type ℓ} {B : Type κ} (x : A × B) {a : A} → x.0 ≡ a → x ≡ (a, x.1)
  pair-eta x h = ap (λ a. (a, x.1)) h

  apply-IsWrite :
      (name base : Text) (bytes : ℕ) (patch : List Operation) (a : Actor) (id : Text) (now : ℕ)
      (db : Db)
      → first? (has_change_id id) db.changes ≡ none
      → (db ≡ (apply_config_patch p name base bytes patch (actor_of a) id now db).1)
        ⊎ IsWrite
            (applies name base bytes patch)
            a
            id
            now
            db
            (apply_config_patch p name base bytes patch (actor_of a) id now db).1
  unfolding apply_config_patch
  apply-IsWrite name base bytes patch a id now db fresh =
      let out = change_config p name base bytes patch (actor_of a) none id now db in
      elim (Sum-cases out.0) [
        | inl (e, q) ↦ inl (
            change_config-refused p name base bytes patch (actor_of a) none id now db
              (pair-eta out q))
        | inr (r, q) ↦ inr (record {
          name = name;
          base = base;
          bytes = bytes;
          patch = patch;
          called = refl;
          done =
              change_config-IsApplied p name base bytes patch (actor_of a) none id now db fresh
                (pair-eta out q);
        })
      ]

  operate-IsWrite :
      (t : Tool) (a : Actor) (id : Text) (now : ℕ) (db : Db)
      → first? (has_change_id id) db.changes ≡ none
      → (db ≡ (operate p is_uuid t a id now db).1)
        ⊎ IsWrite t a id now db (operate p is_uuid t a id now db).1
  unfolding operate
  operate-IsWrite lists a id now db fresh = inl refl
  operate-IsWrite (gets name) a id now db fresh = inl (ground arith)
  operate-IsWrite (status name) a id now db fresh = inl refl
  operate-IsWrite (validates name base bytes patch) a id now db fresh = inl refl
  operate-IsWrite (applies name base bytes patch) a id now db fresh =
      apply-IsWrite name base bytes patch a id now db fresh
  operate-IsWrite (lists_history name limit) a id now db fresh = inl refl
  operate-IsWrite (gets_change name c) a id now db fresh = inl (ground arith)

  -- Under a change id that is not in the log, a request to the agents' endpoint leaves the
  -- configurations as they are or is a write: its bearer token is a live access token in
  -- the table, of a live grant, the grant's scopes have `config:write`, the tool is `apply_config_patch`, and the patch
  -- was applied to the document at its base hash and logged under the id of that grant.
  pub handle_mcp-IsWrite :
      (q : OAuthPlatform) (header : Option Text) (t : Tool) (id : Text) (now : ℕ) (s : Store)
      (db : Db)
      → first? (has_change_id id) db.changes ≡ none
      → (db ≡ (handle_mcp p is_uuid q header t id now (s, db)).2)
        ⊎ ((a : Actor) × IsAuthentic q header now s a
            × (has_text a.scopes (codes "config:write") ≡ true)
            × IsWrite t a id now db (handle_mcp p is_uuid q header t id now (s, db)).2)
  unfolding handle_mcp run_tool
  handle_mcp-IsWrite q header t id now s db fresh =
      elim (Option-cases (authenticate_oauth_bearer q header now s).0) [
        | inl n ↦ inl (rw (handle_mcp, n) refl)
        | inr (a, e) ↦ elim (Bool-cases (input_ok p is_uuid t)) [
          | inr bad ↦ inl (rw (handle_mcp, e, bad) refl)
          | inl good ↦ elim (Bool-cases (has_text a.scopes (scope_of t))) [
            | inr f ↦ inl (rw (handle_mcp, e, good) (rw (run_tool, f) refl))
            | inl k ↦ elim (operate-IsWrite t a id now db fresh) [
              | inl same ↦ inl (rw (handle_mcp, e, good) (rw (run_tool, k) same))
              | inr w ↦
                  let scope : has_text a.scopes (codes "config:write") ≡ true =
                    rw (w.called, scope_of) at k in
                  inr (
                    a,
                    authenticate_oauth_bearer-IsAuthentic q header now s a e,
                    scope,
                    rw (handle_mcp, e, good) (rw (run_tool, k) w),
                  )
            ]
          ]
        ]
      ]
