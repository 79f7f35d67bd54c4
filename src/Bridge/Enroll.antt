-- ===== src/Bridge/Enroll.antt =====
-- `enroll` and `enrollmentStatus` of ui/worker/handlers/bridge.ts, with the constraints that
-- ui/worker/migrations/0003_bridge_enrollment.sql puts on the inserted row.
use benis_phone.Common.{
  ℕ, ◌+◌, ◌/◌, String, Bool, true, false, not, ◌&&◌, ◌||◌, Option, none, some, List, [], zero, suc,
  ◌⊎◌, inl, inr, ◌∷◌, leb, ltb, ◌==◌, ◌=ₛ◌, is_none, is_some, if◌then◌else◌, length,
}
use benis_phone.Common.Table.{first?, update, count}
use benis_phone.Common.Text.{Text, codes, matches, is_digit, to_number}
use benis_phone.Bridge.Store.{Status, pending, approved, expired, Enrollment, Bridge, Config, Store}
use benis_phone.Bridge.Crypto.{
  Platform, base64_to_bytes, fingerprint_for_public_key, enrollment_canonical_body,
}
use benis_phone.Bridge.Auth.{clock_ok}

-- What `req.json()` gives; `none` stands for a value that is no string.
pub record EnrollmentBody : Type 0 where
  pub registration_id : String
  pub request_id : String
  pub public_key : String
  pub hostname : Option String
  pub platform : Option String
  pub version : Option String
  pub timestamp : String
  pub signature : String

pub record EnrollmentState : Type 0 where
  pub request_id : String
  pub status : Status
  pub expires_at : Option ℕ
  pub bridge_id : Option String

pub data Response : Type 0 where
  bad_request : String → Response
  unauthorized limit_reached failed : Response
  not_found : String → Response
  enrollment : ℕ → EnrollmentState → Response

abbrev pub enrollment_ttl_ms : ℕ
enrollment_ttl_ms = 86400000

abbrev pub max_pending_per_config : ℕ
max_pending_per_config = 5

abbrev pub is_pending : Status → Bool
is_pending pending = true
is_pending _ = false

abbrev pub is_approved : Status → Bool
is_approved approved = true
is_approved _ = false

abbrev hex_i : ℕ → Bool
hex_i c = is_digit c || (leb b'a' c && leb c b'f') || (leb b'A' c && leb c b'F')

abbrev times : ℕ → (ℕ → Bool) → List (ℕ → Bool) → List (ℕ → Bool)
times zero p rest = rest
times (suc n) p rest = p ∷ times n p rest

-- `UUID_RE`, one test for each place.
abbrev uuid_shape : List (ℕ → Bool)
uuid_shape = times 8 hex_i (
    (λ c. c == b'-')
    ∷ times 4 hex_i (
        (λ c. c == b'-')
        ∷ (λ c. leb b'1' c && leb c b'5')
        ∷ times 3 hex_i (
            (λ c. c == b'-')
            ∷ (λ c. c == b'8' || c == b'9' || c == b'a' || c == b'b' || c == b'A' || c == b'B')
            ∷ times 3 hex_i ((λ c. c == b'-') ∷ times 12 hex_i []))))

unfoldable pub has_shape : List (ℕ → Bool) → Text → Bool
has_shape [] [] = true
has_shape [] (_ ∷ _) = false
has_shape (p ∷ ps) [] = false
has_shape (p ∷ ps) (c ∷ s) = p c && has_shape ps s

unfoldable pub is_uuid : String → Bool
unfolding has_shape codes
is_uuid s = has_shape uuid_shape (codes s)

sized : ℕ → Option String → Bool
unfolding codes
sized most none = false
sized most (some s) = leb 1 (length (codes s)) && leb (length (codes s)) most

unfoldable pub metadata_ok : EnrollmentBody → Bool
unfolding sized codes matches
metadata_ok body =
    sized 255 body.hostname
    && sized 128 body.platform
    && sized 128 body.version
    && matches is_digit 1 16 (codes body.timestamp)

abbrev text_of : Option String → String
text_of none = ""
text_of (some s) = s

unfoldable pub expire_where : (Enrollment → Bool) → ℕ → List Enrollment → List Enrollment
expire_where p now =
    update (λ e. p e && is_pending e.status && leb e.expires_at now)
      (λ e. record e { status = expired })

-- `ORDER BY created_at DESC LIMIT 1`
unfoldable pub newest : (Enrollment → Bool) → List Enrollment → Option Enrollment
newest p [] = none
newest p (e ∷ es) =
    let rest = newest p es in
    if p e
    then elim rest [
      | none ↦ some e
      | some d ↦ if ltb e.created_at d.created_at then some d else some e
    ]
    else rest

abbrev pub of_key : String → String → Enrollment → Bool
of_key config key e = (e.config_name =ₛ config) && (e.public_key =ₛ key)

abbrev pub pending_in : String → Enrollment → Bool
pending_in config e = (e.config_name =ₛ config) && is_pending e.status

abbrev pub active_key : String → String → Bridge → Bool
active_key config key b = (b.config_name =ₛ config) && (b.public_key =ₛ key) && is_none b.revoked_at

-- `INSERT INTO bridge_enrollments` of a pending row: the primary key, the unique index on pending
-- keys and the trigger on five pending rows; `none` where it throws.
unfoldable pub insert_enrollment : Enrollment → List Enrollment → Option (List Enrollment)
insert_enrollment e es =
    if is_some (first? (λ d. d.request_id =ₛ e.request_id) es)
      || is_some (first? (λ d. of_key e.config_name e.public_key d && is_pending d.status) es)
      || leb max_pending_per_config (count (pending_in e.config_name) es)
    then none
    else some (e ∷ es)

unfoldable pub enrollment_response : Enrollment → EnrollmentState
enrollment_response row = record {
  request_id = row.request_id;
  status = row.status;
  expires_at = some row.expires_at;
  bridge_id = if is_approved row.status then row.bridge_id else none;
}

-- What `enroll` sends back when the row is new.
abbrev pub fresh_enrollment : EnrollmentBody → Config → ℕ → Text → Enrollment
fresh_enrollment body config now fingerprint = record {
  request_id = body.request_id;
  config_name = config.name;
  public_key = body.public_key;
  fingerprint = fingerprint;
  hostname = text_of body.hostname;
  platform = text_of body.platform;
  version = text_of body.version;
  created_at = now;
  expires_at = now + enrollment_ttl_ms;
  status = pending;
  decided_at = none;
  bridge_id = none;
}

module _ (p : Platform) where
  -- The two `try` blocks on the signature: the decoded key, or the response that refuses it.
  unfoldable pub verified_key : EnrollmentBody → List ℕ ⊎ Response
  verified_key body = elim (base64_to_bytes p body.public_key) [
    | none ↦ inr (bad_request "invalid public key or signature encoding")
    | some key ↦ elim (base64_to_bytes p body.signature) [
      | none ↦ inr (bad_request "invalid public key or signature encoding")
      | some signature ↦
          if not (length key == 32) || not (length signature == 64)
          then inr (bad_request "invalid Ed25519 public key or signature")
          else if not (p.imports key)
          then inr unauthorized
          else elim (p.verify key signature (
              enrollment_canonical_body body.request_id body.registration_id body.public_key
                (text_of body.hostname) (text_of body.platform) (text_of body.version)
                body.timestamp)) [
                  | none ↦ inr unauthorized
                  | some false ↦ inr unauthorized
                  | some true ↦ inl key
                ]
    ]
  ]

  -- The guards of `enroll` before it reads the database.
  unfoldable pub verify_body : EnrollmentBody → ℕ → List ℕ ⊎ Response
  verify_body body now =
      if not (is_uuid body.registration_id)
      then inr (bad_request "invalid registration_id")
      else if not (is_uuid body.request_id)
      then inr (bad_request "invalid request_id")
      else if not (metadata_ok body)
      then inr (bad_request "invalid enrollment metadata")
      else if not (clock_ok (now / 1000) (to_number (codes body.timestamp)))
      then inr unauthorized
      else verified_key body

  -- The insertion, and the `catch` that looks again when it throws.
  unfoldable pub create_enrollment : Enrollment → Store → Response × Store
  create_enrollment e s = elim (insert_enrollment e s.enrollments) [
    | some es ↦ (enrollment 202 (enrollment_response e), record s { enrollments = es })
    | none ↦ (
      elim (newest (of_key e.config_name e.public_key) s.enrollments) [
        | some raced ↦ enrollment 200 (enrollment_response raced)
        | none ↦
            if leb max_pending_per_config (count (pending_in e.config_name) s.enrollments)
            then limit_reached
            else failed
      ],
      s,
    )
  ]

  -- `enroll` for a known configuration, once its overdue rows are expired.
  unfoldable pub enroll_key : EnrollmentBody → List ℕ → Config → ℕ → Store → Response × Store
  enroll_key body key config now s =
      elim (first? (active_key config.name body.public_key) s.bridges) [
        | some active ↦ (
          enrollment 200 (record {
            request_id = body.request_id;
            status = approved;
            expires_at = none;
            bridge_id = some active.bridge_id;
          }),
          s,
        )
        | none ↦ elim (newest (of_key config.name body.public_key) s.enrollments) [
          | some existing ↦ (enrollment 200 (enrollment_response existing), s)
          | none ↦
              if leb max_pending_per_config (count (pending_in config.name) s.enrollments)
              then (limit_reached, s)
              else create_enrollment
                  (fresh_enrollment body config now (fingerprint_for_public_key p key)) s
        ]
      ]

  -- `none` is a body that is no JSON; `now` is in milliseconds.
  unfoldable pub enroll : Option EnrollmentBody → ℕ → Store → Response × Store
  enroll none now s = (bad_request "invalid json", s)
  enroll (some body) now s = elim (verify_body body now) [
    | inr refused ↦ (refused, s)
    | inl key ↦
        elim (first? (λ (c : Config). c.registration_id =ₛ body.registration_id) s.configs) [
          | none ↦ (not_found "registration id not found", s)
          | some config ↦ enroll_key body key config now (record s {
            enrollments = expire_where (λ e. e.config_name =ₛ config.name) now s.enrollments;
          })
        ]
  ]

unfoldable pub enrollment_status : String → ℕ → Store → Response × Store
enrollment_status request_id now s =
    let es = expire_where (λ e. e.request_id =ₛ request_id) now s.enrollments in
    (
      elim (first? (λ (e : Enrollment). e.request_id =ₛ request_id) es) [
        | none ↦ not_found "not found"
        | some row ↦ enrollment 200 (enrollment_response row)
      ],
      record s { enrollments = es },
    )
