-- ===== src/Config/Service.antt =====
-- The requests that change the tables of the configurations, as the steps of one service: those to
-- `handleApi` and the patches of agents.
mod Tests
pub mod Changes
pub mod Invariant
mod Requests
mod Saves
mod Rows
pub mod Consistent
use benis_phone.Common.{ℕ, Option, List, [], ◌∷◌}
use benis_phone.Common.Text.{Text}
use benis_phone.Config.Patch.{Operation}
use benis_phone.Config.Store.{ConfigActor, Db}
use benis_phone.Config.Changes.{Platform, apply_config_patch}
use benis_phone.Config.Routes.{Request, handle_api}

pub data Event : Type 0 where
  requests : Request → Event
  patches : Text → Text → ℕ → List Operation → ConfigActor → Text → ℕ → Event

module _ (p : Platform) (decode : Text → Option Text) where
  unfoldable pub handle : Event → Db → Db
  unfolding handle_api apply_config_patch
  handle (requests r) db = (handle_api p decode r db).1
  handle (patches name base bytes patch actor id now) db =
      (apply_config_patch p name base bytes patch actor id now db).1

  unfoldable pub run : List Event → Db → Db
  unfolding handle
  run [] db = db
  run (e ∷ es) db = run es (handle e db)
