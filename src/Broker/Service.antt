-- ===== src/Broker/Service.antt =====
-- `fetch`, the snapshots and the sockets of ui/worker/durable/configBroker.ts, and all that reaches the
-- broker as the events of one service.
use benis_phone.Common.{
  ℕ, ◌+◌, Bool, true, false, not, ◌&&◌, Option, none, some, List, [], ◌∷◌, ◌++◌, leb, ◌==◌,
  if◌then◌else◌, length,
}
use benis_phone.Common.Table.{update}
use benis_phone.Common.Text.{Text, codes, matches, is_hex_dash}
use benis_phone.Broker.Storage.{entries, expire}
use benis_phone.Broker.{
  Role, Attachment, Socket, StoredStatusEvent, ConnectionStatus, InstanceStatus, Broker,
  retention_ms, instance_prefix, connection_prefix, kept_events, Sent, is_editor, notify, revoke,
  Frame, is_blank, web_socket_message,
}

-- The addresses of `fetch`, with the parameters that each reads; an absent one is "".
pub data Request : Type 0 where
  subscribe : Role → Text → Bool → Option Text → Request
  status : Text → Request
  notifies : Text → Text → Request
  revokes : Text → Request
  other : Request

pub record Instance : Type 0 where
  pub instance_id : Text
  pub last_seen : ℕ
  pub connections : List ConnectionStatus

pub data Response : Type 0 where
  bad_request upgrade_required not_found : Response
  snapshot_of : List Instance → Response
  switched : Option (List Instance) → Response
  fanout closed : ℕ → Response

unfoldable pub live_instance : ℕ → InstanceStatus → Bool
live_instance now i = leb now (i.last_seen + retention_ms)

abbrev pub has_events : List StoredStatusEvent → Bool
has_events [] = false
has_events (_ ∷ _) = true

-- `events.length !== 0` behind the filter.
unfoldable pub live_connection : ℕ → ConnectionStatus → Bool
live_connection now c = has_events (kept_events now c.events)

unfoldable pub last_or : StoredStatusEvent → List StoredStatusEvent → StoredStatusEvent
last_or e [] = e
last_or e (f ∷ fs) = last_or f fs

-- What a status is reported as: its retained events, the last of them current.
unfoldable pub trimmed : ℕ → ConnectionStatus → ConnectionStatus
trimmed now c =
    let events = kept_events now c.events in
    record { current = last_or c.current events; events = events }

unfoldable pub trim_all : ℕ → List (Text × ConnectionStatus) → List ConnectionStatus
trim_all now [] = []
trim_all now ((k, c) ∷ kcs) = trimmed now c ∷ trim_all now kcs

-- The instances with the connections whose key names them.
unfoldable pub instances_of :
    Text → ℕ → List (Text × ConnectionStatus) → List (Text × InstanceStatus) → List Instance
instances_of name now kcs [] = []
instances_of name now kcs ((k, i) ∷ kis) =
    record {
      instance_id = i.instance_id;
      last_seen = i.last_seen;
      connections =
          trim_all now (entries (connection_prefix name ++ i.instance_id ++ codes ":") kcs);
    }
    ∷ instances_of name now kcs kis

-- `snapshot`: the report, and the storage without the entries that are out of date.
unfoldable pub snapshot : Text → ℕ → Broker → List Instance × Broker
snapshot name now b =
    let is = expire (instance_prefix name) (live_instance now) b.instances in
    let cs = expire (connection_prefix name) (live_connection now) b.connections in
    (
      instances_of name now (entries (connection_prefix name) cs)
          (entries (instance_prefix name) is),
      record b { instances = is; connections = cs },
    )

abbrev switch : List Instance × Broker → Response × Broker
switch (report, b) = (switched (some report), b)

-- `/subscribe` of a bridge and `/status/subscribe` of an editor; `id` is the new socket.
unfoldable pub open_socket : ℕ → Role → Text → Option Text → ℕ → Broker → Response × Broker
open_socket id role name bridge_id now b =
    let b' = record b {
      sockets =
          b.sockets
          ++ (record {
            id = id;
            attachment = some (record { role = role; name = name; bridge_id = bridge_id });
            connected = true;
          }
              ∷ []);
    } in
    if is_editor role then switch (snapshot name now b') else (switched none, b')

abbrev pub is_bridge_id : Option Text → Bool
is_bridge_id none = false
is_bridge_id (some t) = matches is_hex_dash 36 36 t

unfoldable pub fetch : ℕ → Request → ℕ → Broker → Response × Broker × List (ℕ × Sent)
fetch id (subscribe role name upgrade bridge_id) now b =
    if is_blank name
    then (bad_request, b, [])
    else if not upgrade
    then (upgrade_required, b, [])
    else if not (is_editor role) && not (is_bridge_id bridge_id)
    then (bad_request, b, [])
    else let (response, b') = open_socket id role name bridge_id now b in (response, b', [])
fetch id (status name) now b =
    if is_blank name
    then (bad_request, b, [])
    else let (report, b') = snapshot name now b in (snapshot_of report, b', [])
fetch id (notifies name hash) now b = (fanout (length (notify name hash b)), b, notify name hash b)
fetch id (revokes bridge_id) now b = let (n, b') = revoke bridge_id b in (closed n, b', [])
fetch id other now b = (not_found, b, [])

-- What reaches the broker: a request, a frame of the socket with an attachment, a socket that
-- closes (`webSocketClose`, `webSocketError`) or whose peer is gone.
pub data Event : Type 0 where
  fetches : ℕ → Request → ℕ → Event
  frames : Option Attachment → Frame → ℕ → ℕ → Event
  closes : ℕ → Event

unfoldable pub handle : Event → Broker → Broker
handle (fetches id req now) b = (fetch id req now b).1
handle (frames att frame now later) b = (web_socket_message att frame now later b).0
handle (closes id) b = record b {
  sockets = update (λ (s : Socket). s.id == id) (λ s. record s { connected = false }) b.sockets;
}

unfoldable pub run : List Event → Broker → Broker
run [] b = b
run (e ∷ es) b = run es (handle e b)
