-- ===== src/Broker/Tests.antt =====
-- Runs of the broker on concrete messages.
use benis_phone.Common.{◌≡◌, refl, String, true, Option, none, some, List, [], ◌∷◌, All}
use benis_phone.Common.Text.{Text, codes}
use benis_phone.Broker.{revoke, runtime, editor, Attachment, Message, object, Broker}
use benis_phone.Broker.Service.{closes, Event, fetches, frames, subscribe, run, snapshot}
use benis_phone.Broker.Revocation.{open_sockets, revoke-closed}
use benis_phone.Broker.Bounded.{AreBounded, run-AreBounded}
use benis_phone.Broker.Fresh.{IsFreshInstance, snapshot-IsFresh}

abbrev bridge : Text
bridge = codes "0f0f0f0f-0000-4000-8000-000000000001"

abbrev status_of : String → Message
status_of state = record {
  type = some (codes "sip-status");
  instance_id = some bridge;
  connection_id = some (codes "c1");
  state = some (codes state);
  code = none;
  message = some (codes "ok");
  local_port = none;
}

abbrev sender : Option Attachment
sender = some (record { role = runtime; name = codes "main"; bridge_id = some bridge })

abbrev empty : Broker
empty = record { sockets = []; connections = []; instances = []; bridges = [] }

abbrev events : List Event
events =
    fetches 1 (subscribe runtime (codes "main") true (some bridge)) 1000
    ∷ fetches 2 (subscribe editor (codes "main") true none) 1500
    ∷ frames sender (object (status_of "registering")) 2000 2000
    ∷ frames sender (object (status_of "registered")) 3000 3000
    ∷ []

run-AreBounded_example : AreBounded (run events empty)
run-AreBounded_example = run-AreBounded events empty tt

snapshot-IsFresh_example :
    All (IsFreshInstance 4000) (snapshot (codes "main") 4000 (run events empty)).0
snapshot-IsFresh_example = snapshot-IsFresh (codes "main") 4000 (run events empty)

abbrev later_events : List Event
later_events =
    frames sender (object (status_of "registered")) 3000 3000
    ∷ fetches 3 (subscribe editor (codes "main") true none) 3500
    ∷ closes 2
    ∷ []

revoke-closed_example :
    open_sockets bridge (run later_events (revoke bridge (run events empty)).1) ≡ 0
revoke-closed_example =
    revoke-closed bridge (run events empty) later_events (refl, (refl, (refl, tt)))
