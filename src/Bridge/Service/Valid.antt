-- ===== src/Bridge/Service/Valid.antt =====
-- What holds of the tables after every request: keys are unique, at most five rows of a
-- configuration are pending, and a key has one active bridge in a configuration.
use benis_phone.Common.{
  ℕ, ◌≤◌, ◌<◌, String, ◌≡◌, refl, subst, is_some-false, Bool, true, false, Option, none, some, List,
  [], ◌∷◌, arith, leb, ◌=ₛ◌, Bool-cases, Option-cases, Sum-cases, inl, inr, eq_iff,
}
use benis_phone.Common.Table.{
  first?, update, count, count-update-le, count-first?-none, Unique, Unique-update,
}
use benis_phone.Common.Text.{◌=ₜ◌}
use benis_phone.Bridge.Store.{Enrollment, Bridge, Config, Store}
use benis_phone.Bridge.Crypto.{Platform}
use benis_phone.Bridge.Auth.{check_request, authenticate_bridge}
use benis_phone.Bridge.Enroll.{
  EnrollmentBody, is_pending, pending_in, active_key, expire_where, insert_enrollment, verify_body,
  create_enrollment, enroll_key, enroll, enrollment_status,
}
use benis_phone.Bridge.Registrations.{
  Confirmation, set_status, insert_bridge, new_bridge, invalid_json, null_json, confirm,
  approve_batch, confirm_approval, decide_found, decide, expire_all, revoke_bridge, touch_bridge,
}
use benis_phone.Bridge.Service.{
  Event, signed, enrolls, polls, decides, lists, revokes, touches, handle, run,
}

pub record AreEnrollments (es : List Enrollment) : Type 0 where
  pub unique_requests : Unique (λ e. e.request_id) es
  pub limited : (config : String) → count (pending_in config) es ≤ 5

pub record AreBridges (bs : List Bridge) : Type 0 where
  pub unique_bridges : Unique (λ b. b.bridge_id) bs
  pub one_active : (config key : String) → count (active_key config key) bs ≤ 1

pub record IsValid (s : Store) : Type 0 where
  pub enrollments : AreEnrollments s.enrollments
  pub bridges : AreBridges s.bridges

-- An update that makes no row pending and leaves the keys alone.
update-AreEnrollments :
    (p : Enrollment → Bool) (f : Enrollment → Enrollment) (es : List Enrollment)
    → ((e : Enrollment) → (f e).request_id ≡ e.request_id)
    → ((e : Enrollment) → is_pending (f e).status ≡ false)
    → AreEnrollments es
    → AreEnrollments (update p f es)
update-AreEnrollments p f es same settled v = record {
  unique_requests = Unique-update (λ e. e.request_id) p f es same v.unique_requests;
  limited = λ config. omega (
    arith,
    v.limited config,
    count-update-le (pending_in config) p f es (λ e h. absurd (ground (arith, settled e, h))),
  );
}

expire_where-AreEnrollments :
    (p : Enrollment → Bool) (now : ℕ) (es : List Enrollment)
    → AreEnrollments es
    → AreEnrollments (expire_where p now es)
unfolding expire_where
expire_where-AreEnrollments p now es v = update-AreEnrollments _ _ es (λ e. refl) (λ e. refl) v

pub insert_enrollment-eq-some :
    (e : Enrollment) (es : List Enrollment) {es' : List Enrollment}
    → insert_enrollment e es ≡ some es'
    → (e ∷ es ≡ es')
      × (first? (λ d. d.request_id =ₛ e.request_id) es ≡ none)
      × (count (pending_in e.config_name) es < 5)
unfolding insert_enrollment
insert_enrollment-eq-some e es h = (ground arith, is_some-false _ (ground arith), ground arith)

count-pending-cons :
    (e : Enrollment) (es : List Enrollment) (config : String)
    → count (pending_in e.config_name) es < 5
    → count (pending_in config) es ≤ 5
    → count (pending_in config) (e ∷ es) ≤ 5
unfolding count
count-pending-cons e es config less most = elim (Bool-cases (e.config_name =ₛ config)) [
  | inl same ↦
      let here : e.config_name ≡ config = (eq_iff _ _).0 same in
      let room : count (pending_in config) es < 5 = rw here at less in ground arith
  | inr other ↦ ground arith
]

insert_enrollment-AreEnrollments :
    (e : Enrollment) (es : List Enrollment) {es' : List Enrollment}
    → insert_enrollment e es ≡ some es'
    → AreEnrollments es
    → AreEnrollments es'
insert_enrollment-AreEnrollments e es h v =
    let (same, fresh, room) = insert_enrollment-eq-some e es h in
    subst AreEnrollments same (record {
      unique_requests = (fresh, v.unique_requests);
      limited = λ config. count-pending-cons e es config room (v.limited config);
    })

update-AreBridges :
    (p : Bridge → Bool) (f : Bridge → Bridge) (bs : List Bridge)
    → ((b : Bridge) → (f b).bridge_id ≡ b.bridge_id)
    → ((config key : String) (b : Bridge)
        → active_key config key (f b) ≡ true
        → active_key config key b ≡ true)
    → AreBridges bs
    → AreBridges (update p f bs)
update-AreBridges p f bs same keep v = record {
  unique_bridges = Unique-update (λ b. b.bridge_id) p f bs same v.unique_bridges;
  one_active = λ config key. omega (
    arith,
    v.one_active config key,
    count-update-le (active_key config key) p f bs (keep config key),
  );
}

pub insert_bridge-eq-some :
    (b : Bridge) (bs : List Bridge) {bs' : List Bridge}
    → insert_bridge b bs ≡ some bs'
    → (b ∷ bs ≡ bs')
      × (first? (λ c. c.bridge_id =ₛ b.bridge_id) bs ≡ none)
      × (first? (active_key b.config_name b.public_key) bs ≡ none)
unfolding insert_bridge
insert_bridge-eq-some b bs h =
    (ground arith, is_some-false _ (ground arith), is_some-false _ (ground arith))

count-active-cons :
    (b : Bridge) (bs : List Bridge) (config key : String)
    → first? (active_key b.config_name b.public_key) bs ≡ none
    → count (active_key config key) bs ≤ 1
    → count (active_key config key) (b ∷ bs) ≤ 1
unfolding count
count-active-cons b bs config key free most = elim (Bool-cases (active_key config key b)) [
  | inr other ↦ rw other (omega arith)
  | inl same ↦
      let here : b.config_name ≡ config = ground (arith, eq_iff b.config_name config) in
      let there : b.public_key ≡ key = ground (arith, eq_iff b.public_key key) in
      let vacant : first? (active_key config key) bs ≡ none = rw (here, there) at free in
      rw same (omega (arith, count-first?-none (active_key config key) bs vacant))
]

insert_bridge-AreBridges :
    (b : Bridge) (bs : List Bridge) {bs' : List Bridge}
    → insert_bridge b bs ≡ some bs'
    → AreBridges bs
    → AreBridges bs'
insert_bridge-AreBridges b bs h v =
    let (same, fresh, none_active) = insert_bridge-eq-some b bs h in
    subst AreBridges same (record {
      unique_bridges = (fresh, v.unique_bridges);
      one_active =
          λ config key. count-active-cons b bs config key none_active (v.one_active config key);
    })

create_enrollment-IsValid :
    (p : Platform) (e : Enrollment) (s : Store) → IsValid s → IsValid (create_enrollment p e s).1
unfolding create_enrollment
create_enrollment-IsValid p e s v = elim (Option-cases (insert_enrollment e s.enrollments)) [
  | inl n ↦ rw (n, create_enrollment) v
  | inr (es, h) ↦
      rw (h, create_enrollment)
        (record {
          enrollments = insert_enrollment-AreEnrollments e s.enrollments h v.enrollments;
          bridges = v.bridges;
        })
]

enroll_key-IsValid :
    (p : Platform) (body : EnrollmentBody) (key : List ℕ) (c : Config) (now : ℕ) (s : Store)
    → IsValid s
    → IsValid (enroll_key p body key c now s).1
unfolding enroll_key
enroll_key-IsValid p body key c now s v = grind (arith, create_enrollment-IsValid)

enroll-IsValid :
    (p : Platform) (body : Option EnrollmentBody) (now : ℕ) (s : Store)
    → IsValid s
    → IsValid (enroll p body now s).1
unfolding enroll
enroll-IsValid p none now s v = v
enroll-IsValid p (some body) now s v = elim (Sum-cases (verify_body p body now)) [
  | inr (refused, e) ↦ rw (e, enroll) v
  | inl (key, e) ↦
      elim (Option-cases
        (first? (λ (c : Config). c.registration_id =ₛ body.registration_id) s.configs)) [
          | inl n ↦ rw (e, n, enroll) v
          | inr (c, f) ↦
              rw (e, f, enroll)
                (enroll_key-IsValid p body key c now _ (record {
                  enrollments = expire_where-AreEnrollments _ now s.enrollments v.enrollments;
                  bridges = v.bridges;
                }))
        ]
]

approve_batch-IsValid :
    (e : Enrollment) (r id : String) (now : ℕ) (s : Store)
    → IsValid s
    → IsValid (approve_batch e r id now s).1
unfolding approve_batch set_status
approve_batch-IsValid e r id now s v =
    elim (Option-cases (insert_bridge (new_bridge e id now) s.bridges)) [
      | inl n ↦ rw (n, approve_batch) v
      | inr (bs, h) ↦
          rw (h, approve_batch)
            (record {
              enrollments =
                  update-AreEnrollments _ _ s.enrollments (λ d. refl) (λ d. refl) v.enrollments;
              bridges = insert_bridge-AreBridges _ s.bridges h v.bridges;
            })
    ]

confirm_approval-IsValid :
    (e : Enrollment) (r : String) (b : Confirmation) (id : String) (now : ℕ) (s : Store)
    → IsValid s
    → IsValid (confirm_approval e r b id now s).1
unfolding confirm_approval
confirm_approval-IsValid e r invalid_json id now s v = v
confirm_approval-IsValid e r null_json id now s v = v
confirm_approval-IsValid e r (confirm none) id now s v = v
confirm_approval-IsValid e r (confirm (some f)) id now s v =
    elim (Bool-cases (f =ₜ e.fingerprint)) [
      | inl t ↦ rw t (approve_batch-IsValid e r id now s v)
      | inr n ↦ rw n v
    ]

set_status-IsValid :
    (r : String) (only : Bool) (f : Enrollment → Enrollment) (s : Store)
    → ((e : Enrollment) → (f e).request_id ≡ e.request_id)
    → ((e : Enrollment) → is_pending (f e).status ≡ false)
    → IsValid s
    → IsValid (record s { enrollments = set_status r only f s.enrollments })
unfolding set_status
set_status-IsValid r only f s same settled v = record {
  enrollments = update-AreEnrollments _ f s.enrollments same settled v.enrollments;
  bridges = v.bridges;
}

decide_found-IsValid :
    (e : Enrollment) (r : String) (a : Bool) (b : Confirmation) (id : String) (now : ℕ) (s : Store)
    → IsValid s
    → IsValid (decide_found e r a b id now s).1
unfolding decide_found
decide_found-IsValid e r a b id now s v = elim (Bool-cases (is_pending e.status)) [
  | inr settled ↦ rw settled v
  | inl open_row ↦ elim (Bool-cases (leb e.expires_at now)) [
    | inl late ↦ rw (open_row, late) (set_status-IsValid r false _ s (λ d. refl) (λ d. refl) v)
    | inr soon ↦ approval a open_row soon
  ]
]
  where
    approval :
        (a : Bool)
        → is_pending e.status ≡ true
        → leb e.expires_at now ≡ false
        → IsValid (decide_found e r a b id now s).1
    approval false o n = rw (o, n) (set_status-IsValid r true _ s (λ d. refl) (λ d. refl) v)
    approval true o n = rw (o, n) (confirm_approval-IsValid e r b id now s v)

-- Every request keeps the tables valid.
pub handle-IsValid : (p : Platform) (e : Event) (s : Store) → IsValid s → IsValid (handle p e s)
unfolding handle enrollment_status expire_all revoke_bridge touch_bridge authenticate_bridge decide
handle-IsValid p (signed req now) s v = elim (Option-cases (check_request p req now s.bridges)) [
  | inl n ↦ rw (n, handle, authenticate_bridge) v
  | inr (row, e) ↦
      rw (e, handle, authenticate_bridge)
        (record { enrollments = v.enrollments; bridges = v.bridges })
]
handle-IsValid p (enrolls body now) s v = enroll-IsValid p body now s v
handle-IsValid p (polls id now) s v = record {
  enrollments = expire_where-AreEnrollments _ now s.enrollments v.enrollments;
  bridges = v.bridges;
}
handle-IsValid p (decides r a b i now) s v =
    elim (Option-cases (first? (λ (e : Enrollment). e.request_id =ₛ r) s.enrollments)) [
      | inl n ↦ rw (n, handle, decide) v
      | inr (e, h) ↦ rw (h, handle, decide) (decide_found-IsValid e r a b i now s v)
    ]
handle-IsValid p (lists now) s v = record {
  enrollments = expire_where-AreEnrollments _ now s.enrollments v.enrollments;
  bridges = v.bridges;
}
handle-IsValid p (revokes id now) s v = record {
  enrollments = v.enrollments;
  bridges =
      update-AreBridges _ _ s.bridges (λ b. refl) (λ c k b h. absurd (ground arith)) v.bridges;
}
handle-IsValid p (touches id now) s v = record {
  enrollments = v.enrollments;
  bridges = update-AreBridges _ _ s.bridges (λ b. refl) (λ c k b h. h) v.bridges;
}

-- Over any run of requests valid tables stay valid: request ids and bridge ids are unique, every
-- configuration has at most five pending enrollments, and a public key has at most one active
-- bridge in a configuration.
pub run-IsValid : (p : Platform) (es : List Event) (s : Store) → IsValid s → IsValid (run p es s)
unfolding run
run-IsValid p [] s v = v
run-IsValid p (e ∷ es) s v = run-IsValid p es (handle p e s) (handle-IsValid p e s v)
