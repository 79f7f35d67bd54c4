-- ===== src/Bridge/Registrations.antt =====
-- `decide`, `list` and `revokeBridge` of ui/worker/handlers/registrations.ts, and the update of
-- `last_seen` in `runtimeSocket` of ui/worker/handlers/bridge.ts.
use benis_phone.Common.{
  ℕ, ◌+◌, String, Bool, true, false, not, ◌&&◌, ◌||◌, Option, none, some, List, ◌∷◌, leb, ◌==◌,
  ◌=ₛ◌, is_none, is_some, if◌then◌else◌,
}
use benis_phone.Common.Table.{first?, update, count}
use benis_phone.Common.Text.{Text, ◌=ₜ◌}
use benis_phone.Bridge.Store.{Status, approved, denied, expired, Enrollment, Bridge, Store}
use benis_phone.Bridge.Enroll.{is_pending, active_key, expire_where}

-- The body of an approval: no JSON, the JSON `null`, or an object with its fingerprint.
pub data Confirmation : Type 0 where
  invalid_json null_json : Confirmation
  confirm : Option Text → Confirmation

pub data Decision : Type 0 where
  not_found has_expired invalid_body mismatch failed : Decision
  already : Status → Decision
  was_denied : Decision
  was_approved : String → Decision

-- `UPDATE bridge_enrollments SET … WHERE request_id = ?`, of pending rows only if `only_pending`.
unfoldable pub set_status :
    String → Bool → (Enrollment → Enrollment) → List Enrollment → List Enrollment
set_status request_id only_pending f =
    update (λ e. (e.request_id =ₛ request_id) && (not only_pending || is_pending e.status)) f

-- `INSERT INTO bridges`: the primary key and the unique index on active keys.
unfoldable pub insert_bridge : Bridge → List Bridge → Option (List Bridge)
insert_bridge b bs =
    if is_some (first? (λ (c : Bridge). c.bridge_id =ₛ b.bridge_id) bs)
      || is_some (first? (active_key b.config_name b.public_key) bs)
    then none
    else some (b ∷ bs)

abbrev pub new_bridge : Enrollment → String → ℕ → Bridge
new_bridge e id now = record {
  bridge_id = id;
  config_name = e.config_name;
  public_key = e.public_key;
  fingerprint = e.fingerprint;
  approved_at = now;
  last_seen = none;
  revoked_at = none;
}

-- The batch of an approval: both statements, or neither.
unfoldable pub approve_batch : Enrollment → String → String → ℕ → Store → Decision × Store
approve_batch e request_id id now s = elim (insert_bridge (new_bridge e id now) s.bridges) [
  | none ↦ (failed, s)
  | some bs ↦ (
    was_approved id,
    record s {
      bridges = bs;
      enrollments =
          set_status request_id true
            (λ d. record d { status = approved; decided_at = some now; bridge_id = some id })
            s.enrollments;
    },
  )
]

unfoldable pub confirm_approval :
    Enrollment → String → Confirmation → String → ℕ → Store → Decision × Store
confirm_approval e request_id invalid_json id now s = (invalid_body, s)
confirm_approval e request_id null_json id now s = (failed, s)
confirm_approval e request_id (confirm none) id now s = (mismatch, s)
confirm_approval e request_id (confirm (some fingerprint)) id now s =
    if fingerprint =ₜ e.fingerprint then approve_batch e request_id id now s else (mismatch, s)

-- `decide` on a row that was found; `id` is the new random UUID.
unfoldable pub decide_found :
    Enrollment → String → Bool → Confirmation → String → ℕ → Store → Decision × Store
decide_found e request_id approve body id now s =
    if is_pending e.status && leb e.expires_at now
    then (
      has_expired,
      record s {
        enrollments =
            set_status request_id false (λ d. record d { status = expired }) s.enrollments;
      },
    )
    else if not (is_pending e.status)
    then (already e.status, s)
    else if not approve
    then (
      was_denied,
      record s {
        enrollments =
            set_status request_id true (λ d. record d { status = denied; decided_at = some now })
              s.enrollments;
      },
    )
    else confirm_approval e request_id body id now s

unfoldable pub decide : String → Bool → Confirmation → String → ℕ → Store → Decision × Store
decide request_id approve body id now s =
    elim (first? (λ (e : Enrollment). e.request_id =ₛ request_id) s.enrollments) [
      | none ↦ (not_found, s)
      | some e ↦ decide_found e request_id approve body id now s
    ]

-- The statement with which `list` begins.
unfoldable pub expire_all : ℕ → Store → Store
expire_all now s = record s { enrollments = expire_where (λ _. true) now s.enrollments }

-- The flag `online` that `list` adds to a bridge.
unfoldable pub is_online : ℕ → Bridge → Bool
is_online now b =
    is_none b.revoked_at && elim b.last_seen [ none ↦ false | some t ↦ leb now (t + 90000) ]

-- The result says whether the row changed; if so the broker is told to close the sockets.
unfoldable pub revoke_bridge : String → ℕ → Store → Bool × Store
revoke_bridge bridge_id now s =
    let active = λ (b : Bridge). (b.bridge_id =ₛ bridge_id) && is_none b.revoked_at in
    (
      count active s.bridges == 1,
      record s { bridges = update active (λ b. record b { revoked_at = some now }) s.bridges },
    )

unfoldable pub touch_bridge : String → ℕ → Store → Store
touch_bridge bridge_id now s = record s {
  bridges =
      update (λ (b : Bridge). b.bridge_id =ₛ bridge_id) (λ b. record b { last_seen = some now })
        s.bridges;
}
