-- ===== src/Config/Changes/Register.antt =====
-- What the hash of a configuration is for: a commit is a compare-and-swap of one register.
use benis_phone.Common.{
  ℕ, ◌≡◌, refl, ap, sym, ◌∙◌, Bool, true, false, ◌⊎◌, inl, inr, Option, none, some, List, arith,
  Option-cases, Bool-cases, if◌then◌else◌, and-true,
}
use benis_phone.Common.Table.{first?, update, first?-none_mono, first?-update, first?-test}
use benis_phone.Common.Text.{Text, ◌=ₜ◌, =ₜ_iff}
use benis_phone.Config.Json.{Json}
use benis_phone.Config.Store.{ConfigRow, ConfigActor, Db, named, get_config, has_change_id}
use benis_phone.Config.Changes.{PreparedChange, changed, at_hash, commit_prepared}
use benis_phone.Config.Changes.Batch.{
  UniqueNames, IsAudited, at_hash-none, written-configs, commit_batch-current, commit_batch-stale,
}

-- The specification: a register for each name, with a document and the hash that stands for it.
abbrev pub Register : Type 0
Register = Text → Option (Json × Text)

abbrev pub holds_hash : Text → Option (Json × Text) → Bool
holds_hash hash none = false
holds_hash hash (some (doc, h)) = h =ₜ hash

abbrev pub compare_and_swap : Text → Text → Json × Text → Register → Bool × Register
compare_and_swap name hash new r =
    if holds_hash hash (r name)
    then (true, λ n. if name =ₜ n then some new else r n)
    else (false, r)

abbrev pub entry : Option ConfigRow → Option (Json × Text)
entry none = none
entry (some r) = some (r.doc, r.hash)

abbrev pub register : Db → Register
register db n = entry (get_config n db)

pub other-at_hash :
    (name base n : Text) (x : ConfigRow)
    → (name =ₜ n) ≡ false
    → named n x ≡ true
    → at_hash name base x ≡ false
other-at_hash name base n x f t = ground (arith, =ₜ_iff x.name n, =ₜ_iff x.name name, =ₜ_iff name n)

-- The register behind the update.
register-changed :
    (name base n : Text) (c : PreparedChange) (id : Text) (now : ℕ) (rs : List ConfigRow)
    → {r : ConfigRow} → first? (named name) rs ≡ some r
    → (r.hash =ₜ base) ≡ true
    → entry (first? (named n) (update (at_hash name base) (changed c id now) rs))
      ≡ (if name =ₜ n then some (c.doc, c.hash) else entry (first? (named n) rs))
register-changed name base n c id now rs {r} e h =
    rw (first?-update (named n) (at_hash name base) (changed c id now) rs (λ x. refl))
      (elim (Bool-cases (name =ₜ n)) [
        | inl t ↦
            let here : at_hash name base r ≡ true = rw (first?-test (named name) rs e) h in
            rw (t, sym ((=ₜ_iff name n).0 t)) (rw (e, here) refl)
        | inr f ↦ rw f (elim (Option-cases (first? (named n) rs)) [
          | inl none_there ↦ rw none_there refl
          | inr (x, there) ↦
              rw (there, other-at_hash name base n x f (first?-test (named n) rs there)) refl
        ])
      ])

abbrev pub is_ok {ℓ κ} : {A : Type ℓ} {B : Type κ} → A ⊎ B → Bool
is_ok (inl a) = false
is_ok (inr b) = true

get_config-hash :
    (name base : Text) (db : Db)
    → holds_hash base (register db name) ≡ true
    → (r : ConfigRow) × (get_config name db ≡ some r) × ((r.hash =ₜ base) ≡ true)
get_config-hash name base db h = elim (Option-cases (get_config name db)) [
  | inl n ↦ absurd (let h' = rw n at h in ground arith)
  | inr (r, e) ↦ (r, e, rw e at h)
]

at_hash-stale :
    (name base : Text) (db : Db)
    → UniqueNames db.configs
    → holds_hash base (register db name) ≡ false
    → first? (at_hash name base) db.configs ≡ none
unfolding get_config
at_hash-stale name base db u h = elim (Option-cases (get_config name db)) [
  | inl n ↦
      first?-none_mono (named name) (at_hash name base) db.configs
        (λ x k. (and-true (named name x) _ k).0) n
  | inr (r, e) ↦ at_hash-none name base db.configs {r = r} u e (rw e at h)
]

-- Where the names are unique, the last change of every configuration is logged and the id of the
-- new change is not: whatever was prepared and whatever happened to the tables since, committing it
-- succeeds exactly when a compare-and-swap on the register of the configuration's document and hash
-- does, and leaves the registers of all configurations as the compare-and-swap leaves them.
pub commit_prepared-compare_and_swap :
    (name base : Text) (c : PreparedChange) (actor : ConfigActor) (source : Option Text) (id : Text)
    (now : ℕ) (db : Db)
    → IsAudited db
    → first? (has_change_id id) db.changes ≡ none
    → (is_ok (commit_prepared name base c actor source id now db).0
        ≡ (compare_and_swap name base (c.doc, c.hash) (register db)).0)
      × ((n : Text)
          → register (commit_prepared name base c actor source id now db).1 n
            ≡ (compare_and_swap name base (c.doc, c.hash) (register db)).1 n)
unfolding get_config commit_prepared
commit_prepared-compare_and_swap name base c actor source id now db a fresh =
    elim (Bool-cases (holds_hash base (register db name))) [
      | inl t ↦
          let (r, e, h) = get_config-hash name base db t in
          let done = commit_batch-current name base c actor source id now db fresh e h in
          rw (t, commit_prepared, done)
            (
              refl,
              λ n.
                  ap (λ rs. entry (first? (named n) rs))
                    (written-configs name base c actor source id now db)
                  ∙ register-changed name base n c id now db.configs e h,
            )
      | inr f ↦
          let refused =
            commit_batch-stale name base c actor source id now db fresh a
              (at_hash-stale name base db a.names f) in
          rw (f, commit_prepared, refused) (refl, λ n. refl)
    ]
