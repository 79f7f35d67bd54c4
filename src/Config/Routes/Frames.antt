-- ===== src/Config/Routes/Frames.antt =====
-- What requests leave alone.
use benis_phone.Common.{◌≡◌, refl, sym, true, false, Option, arith, Option-cases, inl, inr, subst}
use benis_phone.Common.Text.{Text, codes, ◌=ₜ◌, =ₜ_iff}
use benis_phone.Config.Store.{Db}
use benis_phone.Config.Changes.{Platform, get_config_change}
use benis_phone.Config.Routes.{
  Request, is_method, first_segment, history_path, handle_history, handle_config, handle_other,
  handle_fixed, handle_sub, handle_api,
}

other_methods :
    (r : Request)
    → is_method "GET" r ≡ true
    → (is_method "POST" r ≡ false) × (is_method "PATCH" r ≡ false)
unfolding codes ◌=ₜ◌
other_methods r h =
    let get : codes "GET" ≡ r.method = sym ((=ₜ_iff r.method (codes "GET")).0 h) in
    subst (λ m. ((m =ₜ codes "POST") ≡ false) × ((m =ₜ codes "PATCH") ≡ false)) get (refl, refl)

module _ (p : Platform) (decode : Text → Option Text) (r : Request)
    (get : is_method "GET" r ≡ true) where
  handle_history-reads :
      (name id action : Text) (db : Db) → (handle_history p decode r name id action db).1 ≡ db
  unfolding handle_history
  handle_history-reads name id action db =
      let (post, patch) = other_methods r get in
      elim (Option-cases (get_config_change name id db)) [
        | inl n ↦ rw (handle_history, n) (ground arith)
        | inr (c, e) ↦ rw (handle_history, e) (ground arith)
      ]

  handle_config-reads : (name : Text) (db : Db) → (handle_config p decode r name db).1 ≡ db
  unfolding handle_config
  handle_config-reads name db = rw get refl

  handle_other-reads : (name sub : Text) (db : Db) → (handle_other p decode r name sub db).1 ≡ db
  unfolding handle_other
  handle_other-reads name sub db = elim (Option-cases (history_path sub)) [
    | inl n ↦ rw (handle_other, n) (ground (arith, handle_config-reads name db))
    | inr ((id, action), e) ↦ rw (handle_other, e) (handle_history-reads name id action db)
  ]

  handle_fixed-reads : (name sub : Text) (db : Db) → (handle_fixed p decode r name sub db).1 ≡ db
  unfolding handle_fixed
  handle_fixed-reads name sub db =
      let (post, patch) = other_methods r get in ground (arith, handle_other-reads name sub db)

  handle_sub-reads : (name sub : Text) (db : Db) → (handle_sub p decode r name sub db).1 ≡ db
  unfolding handle_sub
  handle_sub-reads name sub db =
      let (post, patch) = other_methods r get in ground (arith, handle_fixed-reads name sub db)

  -- A request with the method GET to `handleApi`, the handler of /api/configs, leaves the
  -- configurations, their secrets and bundles of credentials and the log of changes as they are,
  -- whatever its path below and its body.
  pub handle_api-reads : (db : Db) → (handle_api p decode r db).1 ≡ db
  unfolding handle_api
  handle_api-reads db = elim (Option-cases (first_segment r.rest)) [
    | inl n ↦ rw (handle_api, n) (ground arith)
    | inr ((segment, sub), e) ↦ elim (Option-cases (decode segment)) [
      | inl n ↦ rw (handle_api, e, n) (ground arith)
      | inr (name, d) ↦ rw (handle_api, e, d) (ground (arith, handle_sub-reads name sub db))
    ]
  ]
