-- ===== src/Config/Changes/Batch.antt =====
-- The batch of `commitPrepared`: when it goes through, and what it writes.
use benis_phone.Common.{
  ℕ, ◌≡◌, refl, sym, ◌∙◌, Bool, true, false, ◌&&◌, inl, inr, Option, none, some, List, [], ◌∷◌,
  arith, Bool-cases, and-true, All, is_some,
}
use benis_phone.Common.Table.{
  first?, update, first?-none_mono, update-first?-none, first?-update_hit,
}
use benis_phone.Common.Text.{Text, ◌=ₜ◌, =ₜ_iff}
use benis_phone.Config.Store.{
  ConfigRow, ConfigActor, ConfigChange, Db, named, get_config, insert_change, has_change_id,
  is_committed, is_id, delete_sip_secret,
}
use benis_phone.Config.Changes.{
  PreparedChange, changed, at_hash, update_at_hash, delete_sip_secrets, change_row, commit_batch,
}

abbrev pub UniqueNames : List ConfigRow → Type 0
UniqueNames [] = Unit
UniqueNames (r ∷ rs) = (first? (named r.name) rs ≡ none) × UniqueNames rs

-- The last change of a configuration is in the log.
abbrev pub is_change_of : Text → Text → ConfigChange → Bool
is_change_of id name c = has_change_id id c && (c.config_name =ₜ name)

abbrev pub is_logged : List ConfigChange → Text → Option Text → Bool
is_logged cs name none = true
is_logged cs name (some id) = is_some (first? (is_change_of id name) cs)

pub record IsAudited (db : Db) : Type 0 where
  pub names : UniqueNames db.configs
  pub logged :
      All (λ (r : ConfigRow). is_logged db.changes r.name r.last_change_id ≡ true) db.configs

pub delete_sip_secrets-frame :
    (name : Text) (ids : List Text) (db : Db)
    → ((delete_sip_secrets name ids db).configs ≡ db.configs)
      × ((delete_sip_secrets name ids db).changes ≡ db.changes)
unfolding delete_sip_secrets delete_sip_secret
delete_sip_secrets-frame name [] db = (refl, refl)
delete_sip_secrets-frame name (id ∷ ids) db =
    delete_sip_secrets-frame name ids (delete_sip_secret name id db)

pub delete_sip_secrets-bundles :
    (name : Text) (ids : List Text) (db : Db)
    → (delete_sip_secrets name ids db).bundles ≡ db.bundles
unfolding delete_sip_secrets delete_sip_secret
delete_sip_secrets-bundles name [] db = refl
delete_sip_secrets-bundles name (id ∷ ids) db =
    delete_sip_secrets-bundles name ids (delete_sip_secret name id db)

named_trans :
    (name : Text) (x z : ConfigRow)
    → named name x ≡ true
    → named name z ≡ true
    → named x.name z ≡ true
named_trans name x z h k =
    (=ₜ_iff z.name x.name).1 ((=ₜ_iff z.name name).0 k ∙ sym ((=ₜ_iff x.name name).0 h))

and-false : (b : Bool) → (b && false) ≡ false
and-false true = refl
and-false false = refl

pub at_hash-none :
    (name hash : Text) (rs : List ConfigRow) {r : ConfigRow}
    → UniqueNames rs
    → first? (named name) rs ≡ some r
    → (r.hash =ₜ hash) ≡ false
    → first? (at_hash name hash) rs ≡ none
unfolding first?
at_hash-none name hash [] u e h = refl
at_hash-none name hash (x ∷ rs) {r} (fresh, u) e h = elim (Bool-cases (named name x)) [
  | inl t ↦
      let same : x ≡ r = ground arith in
      let here : at_hash name hash x ≡ false = rw (same, h) (and-false (named name r)) in
      let behind =
        first?-none_mono (named x.name) (at_hash name hash) rs
          (λ z k. named_trans name x z t (and-true (named name z) _ k).0) fresh in
      ground arith
  | inr n ↦ let behind = at_hash-none name hash rs {r = r} u (rw n at e) h in ground arith
]

pub at_hash-some :
    (name hash : Text) (rs : List ConfigRow) {r : ConfigRow}
    → first? (named name) rs ≡ some r
    → (r.hash =ₜ hash) ≡ true
    → first? (at_hash name hash) rs ≡ some r
unfolding first?
at_hash-some name hash [] e h = absurd (ground arith)
at_hash-some name hash (x ∷ rs) {r} e h = elim (Bool-cases (named name x)) [
  | inl t ↦ ground arith
  | inr n ↦ let behind = at_hash-some name hash rs {r = r} (rw n at e) h in ground arith
]

-- A fresh id is no row's last change.
is_id-fresh :
    (id name : Text) (cs : List ConfigChange) (last : Option Text)
    → first? (has_change_id id) cs ≡ none
    → is_logged cs name last ≡ true
    → is_id id last ≡ false
is_id-fresh id name cs none fresh l = refl
is_id-fresh id name cs (some t) fresh l = elim (Bool-cases (t =ₜ id)) [
  | inl same ↦
      let l' : is_some (first? (is_change_of id name) cs) ≡ true = rw ((=ₜ_iff t id).0 same) at l in
      let gone =
        first?-none_mono (has_change_id id) (is_change_of id name) cs
          (λ c k. (and-true (has_change_id id c) _ k).0) fresh in
      absurd (let l'' = rw gone at l' in ground arith)
  | inr other ↦ other
]

is_committed-none :
    (c : ConfigChange) (cs : List ConfigChange) (rs : List ConfigRow)
    → first? (has_change_id c.change_id) cs ≡ none
    → All (λ (r : ConfigRow). is_logged cs r.name r.last_change_id ≡ true) rs
    → first? (is_committed c) rs ≡ none
unfolding first?
is_committed-none c cs [] fresh k = refl
is_committed-none c cs (x ∷ rs) fresh (l, k) =
    let other = is_id-fresh c.change_id x.name cs x.last_change_id fresh l in
    ground (arith, is_committed-none c cs rs fresh k)

pub insert_change-ok :
    (c : ConfigChange) (db : Db)
    → is_some (first? (is_committed c) db.configs) ≡ true
    → first? (has_change_id c.change_id) db.changes ≡ none
    → insert_change c db ≡ some (record db { changes = c ∷ db.changes })
unfolding insert_change
insert_change-ok c db h k = ground arith

insert_change-refused :
    (c : ConfigChange) (db : Db)
    → first? (is_committed c) db.configs ≡ none
    → insert_change c db ≡ none
unfolding insert_change
insert_change-refused c db h = rw h refl

pub =ₜ-refl : (t : Text) → (t =ₜ t) ≡ true
=ₜ-refl t = (=ₜ_iff t t).1 refl

-- The tables behind the statements in front of the insertion.
module _ (name base : Text) (c : PreparedChange) (actor : ConfigActor) (source : Option Text)
    (id : Text) (now : ℕ) (db : Db) where
  abbrev pub written : Db
  written = delete_sip_secrets name c.removed_secret_ids (update_at_hash name base c id now db)

  abbrev pub logged_as : ConfigChange
  logged_as = change_row name base c actor source id now

  pub written-configs : written.configs ≡ update (at_hash name base) (changed c id now) db.configs
  unfolding update_at_hash
  written-configs =
      (delete_sip_secrets-frame name c.removed_secret_ids (update_at_hash name base c id now db)).0

  pub written-changes : written.changes ≡ db.changes
  unfolding update_at_hash
  written-changes =
      (delete_sip_secrets-frame name c.removed_secret_ids (update_at_hash name base c id now db)).1

  module _ (fresh : first? (has_change_id id) db.changes ≡ none) where
    pub hits :
        (x : ConfigRow)
        → at_hash name base x ≡ true
        → is_committed logged_as (changed c id now x) ≡ true
    unfolding change_row
    hits x k = rw ((and-true (named name x) _ k).0, =ₜ-refl c.hash, =ₜ-refl id) refl

    fresh_still : first? (has_change_id id) written.changes ≡ none
    fresh_still = rw written-changes fresh

    pub commit_batch-current :
        {r : ConfigRow}
        → get_config name db ≡ some r
        → (r.hash =ₜ base) ≡ true
        → commit_batch name base c actor source id now db
          ≡ some (record written { changes = logged_as ∷ written.changes })
    unfolding commit_batch get_config change_row
    commit_batch-current {r} e h =
        insert_change-ok logged_as written
          (rw written-configs (
            first?-update_hit (is_committed logged_as) (at_hash name base) (changed c id now)
              db.configs hits (at_hash-some name base db.configs {r = r} e h)))
          fresh_still

    pub commit_batch-stale :
        IsAudited db
        → first? (at_hash name base) db.configs ≡ none
        → commit_batch name base c actor source id now db ≡ none
    unfolding commit_batch change_row
    commit_batch-stale a e = insert_change-refused logged_as written (
        rw (written-configs, update-first?-none (at_hash name base) (changed c id now) db.configs e)
          (is_committed-none logged_as db.changes db.configs fresh a.logged))
