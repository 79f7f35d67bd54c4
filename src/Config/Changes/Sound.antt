-- ===== src/Config/Changes/Sound.antt =====
-- What a patch or a rollback has done to the tables when it is answered with success.
use benis_phone.Common.{
  ℕ, ◌≡◌, refl, ap, sym, ◌∙◌, true, false, inl, inr, Option, none, some, List, [], ◌∷◌, arith,
  Option-cases, Bool-cases, Sum-cases, if◌then◌else◌, subst, any, some-inj,
}
use benis_phone.Common.Table.{first?, filter, first?-update, first?-test}
use benis_phone.Common.Text.{Text, ◌=ₜ◌, =ₜ_iff}
use benis_phone.Config.Patch.{Operation}
use benis_phone.Config.Sip.{Connection}
use benis_phone.Config.Sip.Sound.{IsSound, validate_sip_definition-IsSound}
use benis_phone.Config.Document.{definition_of, document_ids, connection_ids, has_id}
use benis_phone.Config.Secrets.{filter_sip_secrets, stale_sip_secrets}
use benis_phone.Config.Secrets.Stale.{list_sip_secrets-delete_stale, list_sip_secrets_of_other}
use benis_phone.Config.Store.{
  SipSecretRow, ConfigActor, Db, named, get_config, list_sip_secrets, has_change_id,
}
use benis_phone.Config.Changes.{
  Platform, ChangeError, PreparedChange, Applied, missing_passwords, has_secret, is_of, ids_of,
  changed, at_hash, prepared, change_row, update_at_hash, prepare_patch, commit_batch,
  commit_prepared, change_config, delete_sip_secrets,
}
use benis_phone.Config.Changes.Prepared.{IsPrepared, prepare_patch-IsPrepared, not_inr}
use benis_phone.Config.Changes.Batch.{
  written, written-configs, written-changes, logged_as, delete_sip_secrets-bundles,
  commit_batch-current,
}
use benis_phone.Config.Changes.Register.{other-at_hash}

-- A connection's secret stays when those of other connections go.
any-filter :
    (ids : List (Option Text)) (t : Text) (rows : List SipSecretRow)
    → has_id ids t ≡ true
    → any (is_of (some t)) rows ≡ true
    → any (is_of (some t)) (filter_sip_secrets rows ids) ≡ true
unfolding filter_sip_secrets filter
any-filter ids t [] h k = k
any-filter ids t (s ∷ rows) h k = elim (Bool-cases (s.connection_id =ₜ t)) [
  | inl e ↦
      let kept : has_id ids s.connection_id ≡ true = rw ((=ₜ_iff s.connection_id t).0 e) h in
      rw (kept, e) refl
  | inr e ↦
      let rest = any-filter ids t rows h (rw e at k) in
      elim (Bool-cases (has_id ids s.connection_id)) [
        | inl kept ↦ rw (kept, e) rest
        | inr gone ↦ rw gone rest
      ]
]

any-none : (rows : List SipSecretRow) → any (is_of none) rows ≡ false
any-none [] = refl
any-none (s ∷ rows) = any-none rows

any-filter? :
    (ids : List (Option Text)) (o : Option Text) (rows : List SipSecretRow)
    → ((t : Text) → o ≡ some t → has_id ids t ≡ true)
    → any (is_of o) rows ≡ true
    → any (is_of o) (filter_sip_secrets rows ids) ≡ true
any-filter? ids none rows f h = absurd (let h' = rw (any-none rows) at h in ground arith)
any-filter? ids (some t) rows f h = any-filter ids t rows (f t refl) h

has_id-head :
    (o : Option Text) (t : Text) (ids : List (Option Text)) → o ≡ some t → has_id (o ∷ ids) t ≡ true
unfolding has_id
has_id-head none t ids e = absurd (ground arith)
has_id-head (some s) t ids e = rw (some-inj e, (=ₜ_iff t t).1 refl) refl

has_id-tail :
    (o : Option Text) (t : Text) (ids : List (Option Text))
    → has_id ids t ≡ true
    → has_id (o ∷ ids) t ≡ true
unfolding has_id
has_id-tail none t ids h = h
has_id-tail (some s) t ids h = ground arith

missing_passwords-filter :
    (ids : List (Option Text)) (rows : List SipSecretRow) (cs : List Connection)
    → ((t : Text) → has_id (connection_ids cs) t ≡ true → has_id ids t ≡ true)
    → missing_passwords rows cs ≡ []
    → missing_passwords (filter_sip_secrets rows ids) cs ≡ []
unfolding missing_passwords connection_ids has_id
missing_passwords-filter ids rows [] f h = refl
missing_passwords-filter ids rows (c ∷ cs) f h = elim (Bool-cases (has_secret rows c)) [
  | inr k ↦ absurd (let h' = rw (missing_passwords, k) at h in ground arith)
  | inl k ↦
      let kept : has_secret (filter_sip_secrets rows ids) c ≡ true =
        any-filter? ids c.id rows (λ t e. f t (has_id-head c.id t (connection_ids cs) e)) k in
      rw kept (
        missing_passwords-filter ids rows cs (λ t m. f t (has_id-tail c.id t _ m))
          (rw (missing_passwords, k) at h))
]

module _ (p : Platform) where
  pub record IsApplied (name base : Text) (bytes : ℕ) (patch : List Operation) (actor : ConfigActor)
      (source : Option Text) (id : Text) (now : ℕ) (db db' : Db) : Type 0 where
    pub change : PreparedChange
    pub checked : IsPrepared p name base patch bytes db change
    pub served : IsSound p.url_host (definition_of change.doc)
    pub current : get_config name db' ≡ some (changed change id now change.row)
    pub others : (n : Text) → (name =ₜ n) ≡ false → get_config n db' ≡ get_config n db
    pub logged : db'.changes ≡ change_row name base change actor source id now ∷ db.changes
    pub secrets :
        list_sip_secrets name db'
        ≡ filter_sip_secrets (list_sip_secrets name db) (document_ids change.doc)
    pub other_secrets :
        (n : Text) → (name =ₜ n) ≡ false → list_sip_secrets n db' ≡ list_sip_secrets n db
    pub bundles : db'.bundles ≡ db.bundles
    pub passwords :
        missing_passwords (list_sip_secrets name db') (definition_of change.doc).connection ≡ []

  -- The change behind a success.
  change_config-ok :
      (name base : Text) (bytes : ℕ) (patch : List Operation) (actor : ConfigActor)
      (source : Option Text) (id : Text) (now : ℕ) (db : Db) {a : Applied} {db' : Db}
      → first? (has_change_id id) db.changes ≡ none
      → change_config p name base bytes patch actor source id now db ≡ (inr a, db')
      → (c : PreparedChange) × IsPrepared p name base patch bytes db c
        × (record (written name base c actor source id now db) {
          changes =
              logged_as name base c actor source id now db
              ∷ (written name base c actor source id now db).changes;
        }
            ≡ db')
  unfolding change_config commit_prepared
  change_config-ok name base bytes patch actor source id now db {a} {db'} fresh h =
      elim (Sum-cases (prepare_patch p name base bytes patch db)) [
        | inl (e, q) ↦ absurd (not_inr (ap (λ x. x.0) (rw (change_config, q) at h)))
        | inr (c, q) ↦
            let r = prepare_patch-IsPrepared p name base bytes patch db q in
            let done =
              commit_batch-current name base c actor source id now db fresh r.current r.unchanged in
            (c, r, ap (λ x. x.1) (rw (change_config, q, commit_prepared, done) at h))
      ]

  secrets-written :
      (name base : Text) (bytes : ℕ) (patch : List Operation) (actor : ConfigActor)
      (source : Option Text) (id : Text) (now : ℕ) (db : Db) (c : PreparedChange)
      → IsPrepared p name base patch bytes db c
      → list_sip_secrets name (written name base c actor source id now db)
        ≡ filter_sip_secrets (list_sip_secrets name db) (document_ids c.doc)
  unfolding prepared update_at_hash list_sip_secrets
  secrets-written name base bytes patch actor source id now db c r =
      let removed : c.removed_secret_ids
          ≡ ids_of (stale_sip_secrets (list_sip_secrets name db) (document_ids c.doc)) =
        ap (λ d. d.removed_secret_ids) r.made in
      ap
        (λ ids.
          list_sip_secrets name
            (delete_sip_secrets name ids (update_at_hash name base c id now db)))
        removed
      ∙ list_sip_secrets-delete_stale name (document_ids c.doc)
          (update_at_hash name base c id now db)

  configs-written :
      (name base n : Text) (actor : ConfigActor) (source : Option Text) (id : Text) (now : ℕ)
      (db : Db) (c : PreparedChange)
      → get_config n (written name base c actor source id now db) ≡ elim (get_config n db) [
        | none ↦ none
        | some x ↦ some (if at_hash name base x then changed c id now x else x)
      ]
  unfolding get_config
  configs-written name base n actor source id now db c =
      ap (first? (named n)) (written-configs name base c actor source id now db)
      ∙ first?-update (named n) (at_hash name base) (changed c id now) db.configs (λ x. refl)

  pub current-written :
      (name base : Text) (bytes : ℕ) (patch : List Operation) (actor : ConfigActor)
      (source : Option Text) (id : Text) (now : ℕ) (db : Db) (c : PreparedChange)
      → IsPrepared p name base patch bytes db c
      → get_config name (written name base c actor source id now db) ≡ some (changed c id now c.row)
  unfolding get_config
  current-written name base bytes patch actor source id now db c r =
      let hit : at_hash name base c.row ≡ true =
        rw (first?-test (named name) db.configs r.current) r.unchanged in
      configs-written name base name actor source id now db c ∙ rw (r.current, hit) refl

  others-written :
      (name base n : Text) (actor : ConfigActor) (source : Option Text) (id : Text) (now : ℕ)
      (db : Db) (c : PreparedChange)
      → (name =ₜ n) ≡ false
      → get_config n (written name base c actor source id now db) ≡ get_config n db
  unfolding get_config
  others-written name base n actor source id now db c f =
      configs-written name base n actor source id now db c ∙ elim (Option-cases (get_config n db)) [
        | inl e ↦ rw e refl
        | inr (x, e) ↦
            rw (e, other-at_hash name base n x f (first?-test (named n) db.configs e)) refl
      ]

  IsApplied-written :
      (name base : Text) (bytes : ℕ) (patch : List Operation) (actor : ConfigActor)
      (source : Option Text) (id : Text) (now : ℕ) (db : Db) (c : PreparedChange)
      → IsPrepared p name base patch bytes db c
      → IsApplied name base bytes patch actor source id now db
          (record (written name base c actor source id now db) {
            changes =
                logged_as name base c actor source id now db
                ∷ (written name base c actor source id now db).changes;
          })
  unfolding get_config list_sip_secrets update_at_hash
  IsApplied-written name base bytes patch actor source id now db c r = record {
    change = c;
    checked = r;
    served = validate_sip_definition-IsSound p.url_host (definition_of c.doc) r.validated;
    current = current-written name base bytes patch actor source id now db c r;
    others = λ n f. others-written name base n actor source id now db c f;
    logged =
        ap (λ cs. change_row name base c actor source id now ∷ cs)
          (written-changes name base c actor source id now db);
    secrets = secrets-written name base bytes patch actor source id now db c r;
    other_secrets = λ n f.
        list_sip_secrets_of_other name n c.removed_secret_ids (update_at_hash name base c id now db)
          f;
    bundles =
        delete_sip_secrets-bundles name c.removed_secret_ids (update_at_hash name base c id now db);
    passwords =
        ap (λ rows. missing_passwords rows (definition_of c.doc).connection)
          (secrets-written name base bytes patch actor source id now db c r)
        ∙ missing_passwords-filter (document_ids c.doc) (list_sip_secrets name db)
            (definition_of c.doc).connection (λ t h. h) r.passwords;
  }

  -- A patch or a rollback that is answered with success under a change id that was not in the log
  -- was a change of the document at the given hash. The configuration now is that document as the
  -- schema gives it, printed and hashed; it is sound; its secrets are those it had for the
  -- connections of the document, every connection has one, the change is on top of the log, which is otherwise as it
  -- was, and the rows and secrets of other configurations and all bundles of credentials are as they
  -- were.
  pub change_config-IsApplied :
      (name base : Text) (bytes : ℕ) (patch : List Operation) (actor : ConfigActor)
      (source : Option Text) (id : Text) (now : ℕ) (db : Db) {a : Applied} {db' : Db}
      → first? (has_change_id id) db.changes ≡ none
      → change_config p name base bytes patch actor source id now db ≡ (inr a, db')
      → IsApplied name base bytes patch actor source id now db db'
  change_config-IsApplied name base bytes patch actor source id now db {a} {db'} fresh h =
      let (c, r, same) = change_config-ok name base bytes patch actor source id now db fresh h in
      subst (IsApplied name base bytes patch actor source id now db) same
        (IsApplied-written name base bytes patch actor source id now db c r)

  -- A refused change leaves the tables as they are.
  pub change_config-refused :
      (name base : Text) (bytes : ℕ) (patch : List Operation) (actor : ConfigActor)
      (source : Option Text) (id : Text) (now : ℕ) (db : Db) {e : ChangeError} {db' : Db}
      → change_config p name base bytes patch actor source id now db ≡ (inl e, db')
      → db ≡ db'
  unfolding change_config commit_prepared
  change_config-refused name base bytes patch actor source id now db {e} {db'} h =
      elim (Sum-cases (prepare_patch p name base bytes patch db)) [
        | inl (e', q) ↦ ap (λ x. x.1) (rw (change_config, q) at h)
        | inr (c, q) ↦ elim (Option-cases (commit_batch name base c actor source id now db)) [
          | inl n ↦ ap (λ x. x.1) (rw (change_config, q, commit_prepared, n) at h)
          | inr (db'', d) ↦
              absurd
                (not_inr (sym (ap (λ x. x.0) (rw (change_config, q, commit_prepared, d) at h))))
        ]
      ]
