-- ===== src/Config/Service/Changes.antt =====
-- Patches and rollbacks leave the tables consistent.
use benis_phone.Common.{
  ℕ, ◌≡◌, refl, sym, ap, ◌∙◌, true, Option, none, some, List, [], ◌∷◌, inl, inr, arith,
  Option-cases, Bool-cases, Sum-cases, subst, and-true, some-inj,
}
use benis_phone.Common.Table.{first?, delete}
use benis_phone.Common.Text.{Text, =ₜ_iff}
use benis_phone.Config.Json.{Json}
use benis_phone.Config.Patch.{Operation}
use benis_phone.Config.Document.{field, text_of}
use benis_phone.Config.Store.{
  ConfigRow, ConfigActor, ConfigChange, Db, named, has_change_id, insert_change, is_committed,
}
use benis_phone.Config.Changes.{
  Platform, PreparedChange, changed, at_hash, config_hash, prepared, change_row, get_config_change,
  change_config, rollback_config_change, restore, prepare_patch, commit_prepared, commit_batch,
}
use benis_phone.Config.Changes.Batch.{
  is_logged, written, written-configs, written-changes, logged_as, =ₜ-refl,
}
use benis_phone.Config.Changes.Prepared.{IsPrepared, prepare_patch-IsPrepared}
use benis_phone.Config.Save.{tolerated}
use benis_phone.Config.Api.{rollback, is_null, human_actor}
use benis_phone.Config.Service.Rows.{UniqueNames-update, is_logged-cons}
use benis_phone.Config.Service.Consistent.{IsFaithful, IsConsistent, All-update_where, All-map}

-- An insertion that goes through adds the change and nothing else.
insert_change-some :
    (c : ConfigChange) (db : Db) {db' : Db}
    → insert_change c db ≡ some db'
    → record db { changes = c ∷ db.changes } ≡ db'
unfolding insert_change
insert_change-some c db {db'} h = elim (Option-cases (first? (is_committed c) db.configs)) [
  | inl n ↦ absurd (let h' : none ≡ some db' = rw (insert_change, n) at h in ground arith)
  | inr (r, e) ↦ elim (Option-cases (first? (has_change_id c.change_id) db.changes)) [
    | inl n ↦ some-inj (rw (insert_change, e, n) at h)
    | inr (d, k) ↦ absurd (let h' : none ≡ some db' = rw (insert_change, e, k) at h in ground arith)
  ]
]

module _ (p : Platform) where
  changed-IsFaithful :
      (name base : Text) (patch : List Operation) (bytes : ℕ) (db : Db) (c : PreparedChange)
      (id : Text) (now : ℕ) (r : ConfigRow)
      → IsPrepared p name base patch bytes db c
      → IsFaithful p (changed c id now r)
  unfolding prepared tolerated delete
  changed-IsFaithful name base patch bytes db c id now r k = record {
    rendered = ap (λ d. d.toml) k.made;
    hashed =
        ap (λ d. d.hash) k.made ∙ ap (λ d. config_hash p d.toml d.secret_revision) (sym k.made);
    served = record { errors = []; validated = k.validated; draft = refl };
  }

  on_top :
      (name base : Text) (c : PreparedChange) (actor : ConfigActor) (source : Option Text)
      (id : Text) (now : ℕ) (cs : List ConfigChange) (r : ConfigRow)
      → at_hash name base r ≡ true
      → is_logged (change_row name base c actor source id now ∷ cs) r.name (some id) ≡ true
  unfolding first? change_row
  on_top name base c actor source id now cs r t =
      let same = (=ₜ_iff r.name name).0 (and-true (named name r) _ t).0 in
      rw (same, =ₜ-refl id, =ₜ-refl name) refl

  -- Inserting the change behind the update keeps the tables consistent.
  written-IsConsistent :
      (name base : Text) (c : PreparedChange) (actor : ConfigActor) (source : Option Text)
      (id : Text) (now : ℕ) (db : Db)
      → ((r : ConfigRow) → IsFaithful p (changed c id now r))
      → IsConsistent p db
      → IsConsistent p (record (written name base c actor source id now db) {
        changes =
            logged_as name base c actor source id now db
            ∷ (written name base c actor source id now db).changes;
      })
  written-IsConsistent name base c actor source id now db f k = record {
    rows = rw (written-configs name base c actor source id now db) (
        All-update_where (IsFaithful p) (at_hash name base) (changed c id now) db.configs
          (λ r t h. f r) k.rows);
    audited = record {
      names = rw (written-configs name base c actor source id now db) (
          UniqueNames-update (at_hash name base) (changed c id now) db.configs (λ r. refl)
            k.audited.names);
      logged =
          rw
            (
              written-configs name base c actor source id now db,
              written-changes name base c actor source id now db,
            )
            (All-update_where
              (λ (r : ConfigRow). is_logged (new ∷ db.changes) r.name r.last_change_id ≡ true)
              (at_hash name base) (changed c id now) db.configs
              (λ r t h. on_top name base c actor source id now db.changes r t)
              (All-map _ _ db.configs
                (λ (r : ConfigRow) h. is_logged-cons new db.changes r.name r.last_change_id h)
                k.audited.logged));
    };
  }
    where
      new : ConfigChange
      new = change_row name base c actor source id now

  pub change_config-IsConsistent :
      (name base : Text) (bytes : ℕ) (patch : List Operation) (actor : ConfigActor)
      (source : Option Text) (id : Text) (now : ℕ) (db : Db)
      → IsConsistent p db
      → IsConsistent p (change_config p name base bytes patch actor source id now db).1
  unfolding change_config commit_prepared commit_batch
  change_config-IsConsistent name base bytes patch actor source id now db k =
      elim (Sum-cases (prepare_patch p name base bytes patch db)) [
        | inl (e, q) ↦ rw (change_config, q) k
        | inr (c, q) ↦ elim (Option-cases (commit_batch name base c actor source id now db)) [
          | inl n ↦ rw (change_config, q, commit_prepared, n) k
          | inr (db', d) ↦
              let same =
                insert_change-some (logged_as name base c actor source id now db)
                  (written name base c actor source id now db) d in
              let sound = prepare_patch-IsPrepared p name base bytes patch db q in
              rw (change_config, q, commit_prepared, d)
                (subst (IsConsistent p) same (
                  written-IsConsistent name base c actor source id now db
                    (λ r. changed-IsFaithful name base patch bytes db c id now r sound) k))
        ]
      ]

  rollback_config_change-IsConsistent :
      (name base source_id : Text) (bytes : ℕ) (actor : ConfigActor) (id : Text) (now : ℕ) (db : Db)
      → IsConsistent p db
      → IsConsistent p (rollback_config_change p name base source_id bytes actor id now db).1
  unfolding rollback_config_change
  rollback_config_change-IsConsistent name base source_id bytes actor id now db k =
      elim (Option-cases (get_config_change name source_id db)) [
        | inl n ↦ rw (rollback_config_change, n) k
        | inr (c, e) ↦
            rw (rollback_config_change, e)
              (change_config-IsConsistent name base bytes (restore c.before_doc) actor
                (some source_id) id now db k)
      ]

  pub rollback-IsConsistent :
      (body : Option Json) (name source_id identity : Text) (bytes : ℕ) (id : Text) (now : ℕ)
      (db : Db)
      → IsConsistent p db
      → IsConsistent p (rollback p body name source_id identity bytes id now db).1
  unfolding rollback
  rollback-IsConsistent none name source_id identity bytes id now db k = k
  rollback-IsConsistent (some body) name source_id identity bytes id now db k =
      elim (Bool-cases (is_null body)) [
        | inl t ↦ rw (rollback, t) k
        | inr f ↦ elim (Option-cases (text_of (field "expected_hash" body))) [
          | inl n ↦ rw (rollback, f, n) k
          | inr (hash, e) ↦
              rw (rollback, f, e)
                (rollback_config_change-IsConsistent name hash source_id bytes
                  (human_actor p identity) id now db k)
        ]
      ]
