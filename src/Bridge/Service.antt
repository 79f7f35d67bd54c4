-- ===== src/Bridge/Service.antt =====
-- The requests that change the tables of the bridges, as the steps of one service.
pub mod Lifecycle
pub mod Revocation
pub mod Valid
pub mod Replay
use benis_phone.Common.{ℕ, String, Bool, Option, List, [], ◌∷◌}
use benis_phone.Bridge.Store.{Store}
use benis_phone.Bridge.Crypto.{Platform}
use benis_phone.Bridge.Auth.{SignedRequest, authenticate_bridge}
use benis_phone.Bridge.Enroll.{EnrollmentBody, enroll, enrollment_status}
use benis_phone.Bridge.Registrations.{Confirmation, decide, expire_all, revoke_bridge, touch_bridge}

-- A request signed by a bridge carries the clock in seconds, the others in milliseconds.
pub data Event : Type 0 where
  signed : SignedRequest → ℕ → Event
  enrolls : Option EnrollmentBody → ℕ → Event
  polls : String → ℕ → Event
  decides : String → Bool → Confirmation → String → ℕ → Event
  lists : ℕ → Event
  revokes touches : String → ℕ → Event

module _ (p : Platform) where
  unfoldable pub handle : Event → Store → Store
  handle (signed req now) s = (authenticate_bridge p req now s).1
  handle (enrolls body now) s = (enroll p body now s).1
  handle (polls id now) s = (enrollment_status id now s).1
  handle (decides request_id approve body id now) s = (decide request_id approve body id now s).1
  handle (lists now) s = expire_all now s
  handle (revokes id now) s = (revoke_bridge id now s).1
  handle (touches id now) s = touch_bridge id now s

  unfoldable pub run : List Event → Store → Store
  run [] s = s
  run (e ∷ es) s = run es (handle e s)
