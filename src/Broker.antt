-- ===== src/Broker.antt =====
-- `ConfigBroker` of ui/worker/durable/configBroker.ts: its sockets, the status that the bridges
-- report and the messages it sends. Times are milliseconds; `toISOString` and `Date.parse` undo each
-- other. The storage lists its entries by key, and the model in the order of their first insertion.
pub mod Storage
pub mod Service
pub mod Bounded
pub mod Fresh
pub mod Revocation
mod Tests
use benis_phone.Common.{
  ℕ, ◌+◌, ◌-◌, ◌≡◌, refl, String, Bool, true, false, not, ◌&&◌, ◌||◌, Option, none, some, List, [],
  ◌∷◌, ◌++◌, leb, ◌==◌, is_none, is_some, if◌then◌else◌, length, take, drop, map,
}
use benis_phone.Common.Table.{update, count}
use benis_phone.Common.Text.{Text, codes, ◌=ₜ◌, strip_prefix, matches, is_hex_dash}
use benis_phone.Bridge.Store.{Bridge}
use benis_phone.Broker.Storage.{get, put, entries, expire}

pub data Role : Type 0 where
  runtime editor : Role

pub record Attachment : Type 0 where
  pub role : Role
  pub name : Text
  pub bridge_id : Option Text

-- `connected` says whether `send` and `close` succeed; they throw otherwise.
pub record Socket : Type 0 where
  pub id : ℕ
  pub attachment : Option Attachment
  pub connected : Bool

pub record StoredStatusEvent : Type 0 where
  pub connection_id : Text
  pub state : Text
  pub code : Option Text
  pub message : Option Text
  pub local_port : Option Text
  pub at : ℕ

pub record ConnectionStatus : Type 0 where
  pub current : StoredStatusEvent
  pub events : List StoredStatusEvent

pub record InstanceStatus : Type 0 where
  pub instance_id : Text
  pub last_seen : ℕ

-- `bridges` is the table of the database in which `last_seen` is kept.
pub record Broker : Type 0 where
  pub sockets : List Socket
  pub connections : List (Text × ConnectionStatus)
  pub instances : List (Text × InstanceStatus)
  pub bridges : List Bridge

abbrev pub retention_ms : ℕ
retention_ms = 604800000

abbrev pub max_events : ℕ
max_events = 50

unfoldable pub instance_prefix : Text → Text
instance_prefix name = codes "instance:" ++ name ++ codes ":"

unfoldable pub instance_key : Text → Text → Text
instance_key name id = instance_prefix name ++ id

unfoldable pub connection_prefix : Text → Text
connection_prefix name = codes "connection:" ++ name ++ codes ":"

unfoldable pub connection_key : Text → Text → Text → Text
connection_key name id connection = connection_prefix name ++ id ++ codes ":" ++ connection

-- `at >= now - RETENTION_MS`
unfoldable pub is_retained : ℕ → StoredStatusEvent → Bool
is_retained now e = leb now (e.at + retention_ms)

unfoldable pub retained : ℕ → List StoredStatusEvent → List StoredStatusEvent
retained now [] = []
retained now (e ∷ es) = let rest = retained now es in if is_retained now e then e ∷ rest else rest

-- `.filter(…).slice(-MAX_EVENTS)`
unfoldable pub kept_events : ℕ → List StoredStatusEvent → List StoredStatusEvent
kept_events now es = drop (length (retained now es) - max_events) (retained now es)

pub data Sent : Type 0 where
  config_updated : Text → Text → Sent
  heartbeat : Text → ℕ → Sent
  sip_status : Text → ℕ → StoredStatusEvent → Sent

-- What the sockets get that pass a test and are connected.
unfoldable pub deliver : (Socket → Bool) → Sent → List Socket → List (ℕ × Sent)
deliver p m [] = []
deliver p m (s ∷ ss) =
    let rest = deliver p m ss in if p s && s.connected then (s.id, m) ∷ rest else rest

abbrev pub is_editor : Role → Bool
is_editor editor = true
is_editor runtime = false

abbrev pub is_named : Text → Socket → Bool
is_named name s = elim s.attachment [ none ↦ false | some att ↦ att.name =ₜ name ]

abbrev pub is_editor_of : Text → Socket → Bool
is_editor_of name s = elim s.attachment [
  | none ↦ false
  | some att ↦ is_editor att.role && (att.name =ₜ name)
]

abbrev pub is_id : Option Text → Text → Bool
is_id none id = false
is_id (some t) id = t =ₜ id

abbrev pub is_runtime_of : Text → Socket → Bool
is_runtime_of id s = elim s.attachment [
  | none ↦ false
  | some att ↦ not (is_editor att.role) && is_id att.bridge_id id
]

-- `/notify`
unfoldable pub notify : Text → Text → Broker → List (ℕ × Sent)
notify name hash b = deliver (is_named name) (config_updated name hash) b.sockets

-- `/revoke`: the number of sockets that it closes, and the broker.
unfoldable pub revoke : Text → Broker → ℕ × Broker
revoke id b =
    let live = λ (s : Socket). is_runtime_of id s && s.connected in
    (
      count live b.sockets,
      record b { sockets = update live (λ s. record s { connected = false }) b.sockets },
    )

-- The fields of a message: `none` where a field is no text, or no number for `local_port`.
pub record Message : Type 0 where
  pub type : Option Text
  pub instance_id : Option Text
  pub connection_id : Option Text
  pub state : Option Text
  pub code : Option Text
  pub message : Option Text
  pub local_port : Option Text

-- A frame that holds bytes, is no JSON, is the JSON `null` (the handler throws), or an object.
pub data Frame : Type 0 where
  bytes invalid_json null_json : Frame
  object : Message → Frame

abbrev pub or_empty : Option Text → Text
or_empty none = []
or_empty (some s) = s

abbrev pub slice : ℕ → Option Text → Option Text
slice n none = none
slice n (some s) = some (take n s)

abbrev pub is_blank : Text → Bool
is_blank [] = true
is_blank (_ ∷ _) = false

unfoldable pub event_of : Message → ℕ → StoredStatusEvent
event_of msg now = record {
  connection_id = or_empty (slice 128 msg.connection_id);
  state = or_empty (slice 32 msg.state);
  code = slice 64 msg.code;
  message = slice 500 msg.message;
  local_port = msg.local_port;
  at = now;
}

abbrev pub events_of : Option ConnectionStatus → List StoredStatusEvent
events_of none = []
events_of (some s) = s.events

-- `touchInstance`
unfoldable pub touch_instance : Text → Text → ℕ → Broker → Broker × List (ℕ × Sent)
touch_instance name id now b = (
  record b {
    bridges =
        update (λ (r : Bridge). (codes r.bridge_id =ₜ id) && is_none r.revoked_at)
          (λ r. record r { last_seen = some now }) b.bridges;
    instances =
        put (instance_key name id) (record { instance_id = id; last_seen = now }) b.instances;
  },
  deliver (is_editor_of name) (heartbeat id now) b.sockets,
)

-- A status that a bridge reports: `now` stamps the event, `later` is the clock behind the read.
unfoldable pub store_status :
    Text → Text → StoredStatusEvent → ℕ → ℕ → Broker → Broker × List (ℕ × Sent)
store_status name id e now later b =
    let key = connection_key name id e.connection_id in
    (
      record b {
        connections =
            put key
              (record {
                current = e;
                events = kept_events later (events_of (get key b.connections) ++ (e ∷ []));
              })
              b.connections;
        instances =
            put (instance_key name id) (record { instance_id = id; last_seen = now }) b.instances;
      },
      deliver (is_editor_of name) (sip_status id now e) b.sockets,
    )

-- `webSocketMessage` of a bridge, on the parsed object.
unfoldable pub handle_object : Text → Text → Message → ℕ → ℕ → Broker → Broker × List (ℕ × Sent)
handle_object name id msg now later b =
    if is_id msg.type (codes "runtime-hello") || is_id msg.type (codes "heartbeat")
    then touch_instance name id now b
    else if not (is_id msg.type (codes "sip-status")) || not (is_id msg.instance_id id)
    then (b, [])
    else if is_blank (event_of msg now).connection_id || is_blank (event_of msg now).state
    then (b, [])
    else store_status name id (event_of msg now) now later b

unfoldable pub handle_frame : Attachment → Frame → ℕ → ℕ → Broker → Broker × List (ℕ × Sent)
handle_frame att (object msg) now later b =
    if is_editor att.role then (b, []) else elim att.bridge_id [
      | none ↦ (b, [])
      | some id ↦ if is_blank id then (b, []) else handle_object att.name id msg now later b
    ]
handle_frame att bytes now later b = (b, [])
handle_frame att invalid_json now later b = (b, [])
handle_frame att null_json now later b = (b, [])

unfoldable pub web_socket_message :
    Option Attachment → Frame → ℕ → ℕ → Broker → Broker × List (ℕ × Sent)
web_socket_message none frame now later b = (b, [])
web_socket_message (some att) frame now later b = handle_frame att frame now later b
