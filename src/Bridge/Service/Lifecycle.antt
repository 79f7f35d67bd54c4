-- ===== src/Bridge/Service/Lifecycle.antt =====
-- The states of an enrollment: pending, and then approved, denied or expired for good.
use benis_phone.Common.{
  ℕ, ◌<◌, String, ◌≡◌, refl, sym, ap, Bool, true, false, ◌&&◌, Option, none, some, List, [], ◌∷◌,
  arith, leb, ◌=ₛ◌, Bool-cases, Option-cases, Sum-cases, inl, inr, ◌⊎◌, eq_iff,
}
use benis_phone.Common.Text.{◌=ₜ◌, =ₜ_iff}
use benis_phone.Common.Table.{first?, count, update, update-first?-none, first?-none_mono, Unique}
use benis_phone.Bridge.Store.{Status, pending, Enrollment, Config, Store}
use benis_phone.Bridge.Crypto.{Platform}
use benis_phone.Bridge.Auth.{check_request, authenticate_bridge}
use benis_phone.Bridge.Enroll.{
  EnrollmentBody, is_pending, active_key, pending_in, of_key, newest, expire_where,
  insert_enrollment, verify_body, create_enrollment, enroll_key, enroll, enrollment_status,
}
use benis_phone.Bridge.Registrations.{
  Confirmation, invalid_json, null_json, confirm, was_approved, set_status, insert_bridge,
  new_bridge, approve_batch, confirm_approval, decide_found, decide, expire_all, revoke_bridge,
  touch_bridge,
}
use benis_phone.Bridge.Service.{
  Event, signed, enrolls, polls, decides, lists, revokes, touches, handle,
}
use benis_phone.Bridge.Service.Valid.{IsValid, insert_enrollment-eq-some}

-- A row stays as it is, or it was pending and is settled; what identifies it does not change.
abbrev pub Moves : Enrollment → Enrollment → Type 0
Moves e e' =
    (e' ≡ e)
    ⊎ ((is_pending e.status ≡ true)
        × (is_pending e'.status ≡ false)
        × (e'.request_id ≡ e.request_id)
        × (e'.config_name ≡ e.config_name)
        × (e'.public_key ≡ e.public_key)
        × (e'.fingerprint ≡ e.fingerprint))

abbrev pub Kept : List Enrollment → List Enrollment → Type 0
Kept [] [] = Unit
Kept [] (_ ∷ _) = ⊥
Kept (_ ∷ _) [] = ⊥
Kept (e ∷ es) (e' ∷ es') = Moves e e' × Kept es es'

-- Every old row moves, and at most one new row is added, which is pending.
abbrev pub Evolves : List Enrollment → List Enrollment → Type 0
Evolves es es' =
    Kept es es'
    ⊎ ((e : Enrollment) × (rest : List Enrollment) × (es' ≡ e ∷ rest)
        × (e.status ≡ pending)
        × Kept es rest)

Kept-refl : (es : List Enrollment) → Kept es es
Kept-refl [] = tt
Kept-refl (e ∷ es) = (inl refl, Kept-refl es)

update-Kept :
    (p : Enrollment → Bool) (f : Enrollment → Enrollment) (es : List Enrollment)
    → ((e : Enrollment) → p e ≡ true → Moves e (f e))
    → Kept es (update p f es)
unfolding update
update-Kept p f [] move = tt
update-Kept p f (e ∷ es) move = elim (Bool-cases (p e)) [
  | inl t ↦ rw t (move e t, update-Kept p f es move)
  | inr n ↦ rw n (inl refl, update-Kept p f es move)
]

expire_where-Kept :
    (p : Enrollment → Bool) (now : ℕ) (es : List Enrollment) → Kept es (expire_where p now es)
unfolding expire_where
expire_where-Kept p now es =
    update-Kept _ _ es (λ e h. inr (ground arith, refl, refl, refl, refl, refl))

set_status-Kept :
    (r : String) (f : Enrollment → Enrollment) (es : List Enrollment)
    → ((e : Enrollment) → is_pending e.status ≡ true → Moves e (f e))
    → Kept es (set_status r true f es)
unfolding set_status
set_status-Kept r f es move = update-Kept _ f es (λ e h. move e (ground arith))

-- Where the key is unique and its row is pending, an update by the key alone moves it too.
set_status_all-Kept :
    (r : String) (f : Enrollment → Enrollment) (es : List Enrollment) {e : Enrollment}
    → Unique (λ d. d.request_id) es
    → first? (λ d. d.request_id =ₛ r) es ≡ some e
    → is_pending e.status ≡ true
    → ((d : Enrollment) → is_pending d.status ≡ true → Moves d (f d))
    → Kept es (set_status r false f es)
unfolding set_status update first?
set_status_all-Kept r f [] u h o move = tt
set_status_all-Kept r f (d ∷ ds) {e} (fresh, u) h o move = elim (Bool-cases (d.request_id =ₛ r)) [
  | inr other ↦ rw other (inl refl, set_status_all-Kept r f ds {e = e} u (rw other at h) o move)
  | inl here ↦
      let at_r : d.request_id ≡ r = (eq_iff _ _).0 here in
      let alone : first? (λ (y : Enrollment). y.request_id =ₛ r) ds ≡ none = rw at_r at fresh in
      let rest : update (λ (y : Enrollment). (y.request_id =ₛ r) && true) f ds ≡ ds =
        update-first?-none _ f ds
          (first?-none_mono (λ y. y.request_id =ₛ r) _ ds (λ y t. ground arith) alone) in
      rw (here, rest) (move d (ground arith), Kept-refl ds)
]

create_enrollment-Evolves :
    (p : Platform) (base : List Enrollment) (e : Enrollment) (s : Store)
    → e.status ≡ pending
    → Kept base s.enrollments
    → Evolves base (create_enrollment p e s).1.enrollments
unfolding create_enrollment
create_enrollment-Evolves p base e s new k =
    elim (Option-cases (insert_enrollment e s.enrollments)) [
      | inl n ↦ rw (n, create_enrollment) (inl k)
      | inr (es, h) ↦
          let (same, _, _) = insert_enrollment-eq-some e s.enrollments h in
          rw (h, create_enrollment) (inr (e, s.enrollments, sym same, new, k))
    ]

enroll_key-Evolves :
    (p : Platform) (base : List Enrollment) (body : EnrollmentBody) (key : List ℕ) (c : Config)
    (now : ℕ) (s : Store)
    → Kept base s.enrollments
    → Evolves base (enroll_key p body key c now s).1.enrollments
unfolding enroll_key
enroll_key-Evolves p base body key c now s k =
    elim (Option-cases (first? (active_key c.name body.public_key) s.bridges)) [
      | inr (b, e) ↦ rw (e, enroll_key) (inl k)
      | inl n ↦ elim (Option-cases (newest (of_key c.name body.public_key) s.enrollments)) [
        | inr (old, e) ↦ rw (n, e, enroll_key) (inl k)
        | inl m ↦ elim (Bool-cases (leb 5 (count (pending_in c.name) s.enrollments))) [
          | inl full ↦ rw (n, m, full, enroll_key) (inl k)
          | inr room ↦ rw (n, m, room, enroll_key) (create_enrollment-Evolves p base _ s refl k)
        ]
      ]
    ]

enroll-Evolves :
    (p : Platform) (body : Option EnrollmentBody) (now : ℕ) (s : Store)
    → Evolves s.enrollments (enroll p body now s).1.enrollments
unfolding enroll
enroll-Evolves p none now s = inl (Kept-refl s.enrollments)
enroll-Evolves p (some body) now s = elim (Sum-cases (verify_body p body now)) [
  | inr (refused, e) ↦ rw (e, enroll) (inl (Kept-refl s.enrollments))
  | inl (key, e) ↦
      elim (Option-cases
        (first? (λ (c : Config). c.registration_id =ₛ body.registration_id) s.configs)) [
          | inl n ↦ rw (e, n, enroll) (inl (Kept-refl s.enrollments))
          | inr (c, f) ↦
              rw (e, f, enroll)
                (enroll_key-Evolves p s.enrollments body key c now _
                  (expire_where-Kept _ now s.enrollments))
        ]
]

approve_batch-Kept :
    (e : Enrollment) (r id : String) (now : ℕ) (s : Store)
    → Kept s.enrollments (approve_batch e r id now s).1.enrollments
unfolding approve_batch
approve_batch-Kept e r id now s =
    elim (Option-cases (insert_bridge (new_bridge e id now) s.bridges)) [
      | inl n ↦ rw (n, approve_batch) (Kept-refl s.enrollments)
      | inr (bs, h) ↦
          rw (h, approve_batch)
            (set_status-Kept r _ s.enrollments (λ d k. inr (k, refl, refl, refl, refl, refl)))
    ]

confirm_approval-Kept :
    (e : Enrollment) (r : String) (b : Confirmation) (id : String) (now : ℕ) (s : Store)
    → Kept s.enrollments (confirm_approval e r b id now s).1.enrollments
unfolding confirm_approval
confirm_approval-Kept e r invalid_json id now s = Kept-refl s.enrollments
confirm_approval-Kept e r null_json id now s = Kept-refl s.enrollments
confirm_approval-Kept e r (confirm none) id now s = Kept-refl s.enrollments
confirm_approval-Kept e r (confirm (some f)) id now s = elim (Bool-cases (f =ₜ e.fingerprint)) [
  | inl t ↦ rw t (approve_batch-Kept e r id now s)
  | inr n ↦ rw n (Kept-refl s.enrollments)
]

decide_found-Kept :
    (e : Enrollment) (r : String) (a : Bool) (b : Confirmation) (id : String) (now : ℕ) (s : Store)
    → Unique (λ d. d.request_id) s.enrollments
    → first? (λ (d : Enrollment). d.request_id =ₛ r) s.enrollments ≡ some e
    → Kept s.enrollments (decide_found e r a b id now s).1.enrollments
unfolding decide_found
decide_found-Kept e r a b id now s u h = elim (Bool-cases (is_pending e.status)) [
  | inr settled ↦ rw settled (Kept-refl s.enrollments)
  | inl o ↦ elim (Bool-cases (leb e.expires_at now)) [
    | inl late ↦
        rw (o, late)
          (set_status_all-Kept r _ s.enrollments {e = e} u h o
            (λ d k. inr (k, refl, refl, refl, refl, refl)))
    | inr soon ↦ approval a o soon
  ]
]
  where
    approval :
        (a : Bool)
        → is_pending e.status ≡ true
        → leb e.expires_at now ≡ false
        → Kept s.enrollments (decide_found e r a b id now s).1.enrollments
    approval false o n =
        rw (o, n) (set_status-Kept r _ s.enrollments (λ d k. inr (k, refl, refl, refl, refl, refl)))
    approval true o n = rw (o, n) (confirm_approval-Kept e r b id now s)

approve_batch-eq-was_approved :
    (e : Enrollment) (r id : String) (now : ℕ) (s : Store) {id' : String}
    → (approve_batch e r id now s).0 ≡ was_approved id'
    → (id' ≡ id) × ((approve_batch e r id now s).1.bridges ≡ new_bridge e id now ∷ s.bridges)
unfolding approve_batch insert_bridge
approve_batch-eq-was_approved e r id now s h = ground arith

confirm_approval-was_approved :
    (e : Enrollment) (r : String) (b : Confirmation) (id : String) (now : ℕ) (s : Store)
    {id' : String}
    → (confirm_approval e r b id now s).0 ≡ was_approved id'
    → (b ≡ confirm (some e.fingerprint))
      × (id' ≡ id)
      × ((confirm_approval e r b id now s).1.bridges ≡ new_bridge e id now ∷ s.bridges)
unfolding confirm_approval
confirm_approval-was_approved e r invalid_json id now s h = absurd (cc)
confirm_approval-was_approved e r null_json id now s h = absurd (cc)
confirm_approval-was_approved e r (confirm none) id now s h = absurd (cc)
confirm_approval-was_approved e r (confirm (some f)) id now s h =
    elim (Bool-cases (f =ₜ e.fingerprint)) [
      | inl t ↦
          let (same, added) = approve_batch-eq-was_approved e r id now s (rw t at h) in
          (ap (λ g. confirm (some g)) ((=ₜ_iff f e.fingerprint).0 t), same, rw t added)
      | inr n ↦ absurd (ground arith)
    ]

is_pending-eq : (st : Status) → is_pending st ≡ true → st ≡ pending
is_pending-eq pending h = refl
is_pending-eq _ h = absurd (cc)

-- The parts of a successful approval of the row `e`.
decide_found-was_approved :
    (e : Enrollment) (r : String) (a : Bool) (b : Confirmation) (id : String) (now : ℕ) (s : Store)
    {id' : String}
    → (decide_found e r a b id now s).0 ≡ was_approved id'
    → (a ≡ true)
      × (e.status ≡ pending)
      × (now < e.expires_at)
      × (b ≡ confirm (some e.fingerprint))
      × (id' ≡ id)
      × ((decide_found e r a b id now s).1.bridges ≡ new_bridge e id now ∷ s.bridges)
unfolding decide_found
decide_found-was_approved e r false b id now s h = absurd (ground arith)
decide_found-was_approved e r true b id now s {id' = id'} h =
    let o : is_pending e.status ≡ true = ground arith in
    let soon : leb e.expires_at now ≡ false = ground arith in
    let (match, same, added) =
      confirm_approval-was_approved e r b id now s {id' = id'} (rw (o, soon) at h) in
    (refl, is_pending-eq e.status o, ground arith, match, same, rw (o, soon) added)

-- An enrollment is approved only while it is pending and not overdue, and only when the operator
-- repeats its fingerprint; what is added is one bridge with the enrollment's key and
-- configuration, under the new id.
pub decide-was_approved :
    (r : String) (a : Bool) (b : Confirmation) (id : String) (now : ℕ) (s : Store) (id' : String)
    → (decide r a b id now s).0 ≡ was_approved id'
    → (e : Enrollment) × (first? (λ (d : Enrollment). d.request_id =ₛ r) s.enrollments ≡ some e)
      × (a ≡ true)
      × (e.status ≡ pending)
      × (now < e.expires_at)
      × (b ≡ confirm (some e.fingerprint))
      × (id' ≡ id)
      × ((decide r a b id now s).1.bridges ≡ new_bridge e id now ∷ s.bridges)
unfolding decide
decide-was_approved r a b id now s id' h =
    elim (Option-cases (first? (λ (d : Enrollment). d.request_id =ₛ r) s.enrollments)) [
      | inl n ↦ absurd (ground arith)
      | inr (e, found) ↦
          let (x, y, z, u, v, w) =
            decide_found-was_approved e r a b id now s {id' = id'} (rw (found, decide) at h) in
          (e, found, x, y, z, u, v, rw (found, decide) w)
    ]

-- Where the tables are valid, every request leaves each enrollment as it is or settles it, with the
-- same id, configuration, key and fingerprint, if it was pending; at most one row is added, in
-- front and pending.
pub handle-Evolves :
    (p : Platform) (e : Event) (s : Store)
    → IsValid s
    → Evolves s.enrollments (handle p e s).enrollments
unfolding handle enrollment_status expire_all revoke_bridge touch_bridge decide
handle-Evolves p (signed req now) s v = elim (Option-cases (check_request p req now s.bridges)) [
  | inl n ↦ unfold authenticate_bridge in rw (n, handle, authenticate_bridge) (inl (Kept-refl _))
  | inr (row, e) ↦
      unfold authenticate_bridge in rw (e, handle, authenticate_bridge) (inl (Kept-refl _))
]
handle-Evolves p (enrolls body now) s v = enroll-Evolves p body now s
handle-Evolves p (polls id now) s v = inl (expire_where-Kept _ now s.enrollments)
handle-Evolves p (decides r a b i now) s v =
    elim (Option-cases (first? (λ (e : Enrollment). e.request_id =ₛ r) s.enrollments)) [
      | inl n ↦ rw (n, handle, decide) (inl (Kept-refl _))
      | inr (e, h) ↦
          rw (h, handle, decide)
            (inl (decide_found-Kept e r a b i now s v.enrollments.unique_requests h))
    ]
handle-Evolves p (lists now) s v = inl (expire_where-Kept _ now s.enrollments)
handle-Evolves p (revokes id now) s v = inl (Kept-refl s.enrollments)
handle-Evolves p (touches id now) s v = inl (Kept-refl s.enrollments)
