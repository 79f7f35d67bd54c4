-- ===== src/OAuth/Service.antt =====
-- The requests that change the tables of the OAuth server, as the steps of one service, and the
-- routes of `handleOAuth` in ui/worker/lib/oauth.ts.
pub mod Revocation
pub mod Rotation
pub mod Frames
pub mod Codes
use benis_phone.Common.{ℕ, Bool, Option, List, [], ◌∷◌}
use benis_phone.Common.Text.{Text}
use benis_phone.OAuth.Store.{Store}
use benis_phone.OAuth.Platform.{Platform, Fields}
use benis_phone.OAuth.Clients.{Body, register_client}
use benis_phone.OAuth.Authorize.{DecisionForm, authorization_page, decide_authorization}
use benis_phone.OAuth.Tokens.{exchange_token, revoke_token}
use benis_phone.OAuth.Bearer.{authenticate_oauth_bearer, revoke_agent}

-- Each with its random values, and the clock in milliseconds last.
pub data Event : Type 0 where
  registers : Body → List ℕ → ℕ → Event
  opens : Fields → Text → Text → List ℕ → ℕ → Event
  decides : DecisionForm → Text → List ℕ → ℕ → Event
  exchanges : Fields → List ℕ → List ℕ → ℕ → Event
  revokes : Fields → ℕ → Event
  calls : Option Text → ℕ → Event
  revokes_agent : Text → ℕ → Event

module _ (p : Platform) where
  unfoldable pub handle : Event → Store → Store
  handle (registers body bytes now) s = (register_client p body bytes now s).1
  handle (opens query origin id bytes now) s = (authorization_page p query origin id bytes now s).1
  handle (decides d grant_id bytes now) s = (decide_authorization p d grant_id bytes now s).1
  handle (exchanges form bytes bytes' now) s = (exchange_token p form bytes bytes' now s).1
  handle (revokes form now) s = (revoke_token p form now s).1
  handle (calls header now) s = (authenticate_oauth_bearer p header now s).1
  handle (revokes_agent id now) s = (revoke_agent id now s).1

  unfoldable pub run : List Event → Store → Store
  run [] s = s
  run (e ∷ es) s = run es (handle e s)
