-- ===== src/Broker/Bounded.antt =====
-- What the broker stores and reports is bounded in size and age.
use benis_phone.Common.{
  ℕ, ◌-◌, ◌≤◌, ◌≡◌, zero, suc, true, not, ◌&&◌, ◌||◌, Option, none, some, List, [], ◌∷◌, ◌++◌,
  arith, length, take, drop, All, All-append, Bool-cases, Option-cases, inl, inr,
}
use benis_phone.Common.Text.{Text, codes}
use benis_phone.Broker.Storage.{get, Stored, Stored-get, Stored-put, Stored-expire}
use benis_phone.Broker.{
  Role, runtime, editor, StoredStatusEvent, ConnectionStatus, Broker, Message, Attachment, Frame,
  is_retained, retained, kept_events, event_of, store_status, touch_instance, handle_object,
  handle_frame, web_socket_message, events_of, is_blank, is_id, is_editor, slice, or_empty,
  connection_key, connection_prefix, object, bytes, invalid_json, null_json, revoke,
}
use benis_phone.Broker.Service.{
  is_bridge_id, Request, snapshot, open_socket, fetch, Event, fetches, frames, closes, handle, run,
  live_connection, subscribe, status, notifies, revokes, other,
}

abbrev Fits : ℕ → Option Text → Type 0
Fits n none = Unit
Fits n (some s) = length s ≤ n

pub record IsSmall (e : StoredStatusEvent) : Type 0 where
  pub id_fits : length e.connection_id ≤ 128
  pub state_fits : length e.state ≤ 32
  pub code_fits : Fits 64 e.code
  pub message_fits : Fits 500 e.message

pub record IsBounded (c : ConnectionStatus) : Type 0 where
  pub few : length c.events ≤ 50
  pub small : All IsSmall c.events
  pub current_small : IsSmall c.current

length-take : (n : ℕ) (s : Text) → length (take n s) ≤ n
length-take zero s = omega arith
length-take (suc n) [] = omega arith
length-take (suc n) (c ∷ s) = omega (arith, length-take n s)

length-drop {ℓ} : {A : Type ℓ} (n : ℕ) (xs : List A) → length (drop n xs) ≤ length xs - n
length-drop zero xs = omega arith
length-drop (suc n) [] = omega arith
length-drop (suc n) (x ∷ xs) = omega (arith, length-drop n xs)

pub All-drop {ℓ κ} :
    {A : Type ℓ} (P : A → Type κ) (n : ℕ) (xs : List A) → All P xs → All P (drop n xs)
All-drop P zero xs h = h
All-drop P (suc n) [] h = tt
All-drop P (suc n) (x ∷ xs) (p, h) = All-drop P n xs h

All-retained {κ} :
    (P : StoredStatusEvent → Type κ) (now : ℕ) (es : List StoredStatusEvent)
    → All P es
    → All P (retained now es)
unfolding retained
All-retained P now [] h = tt
All-retained P now (e ∷ es) (p, h) = elim (Bool-cases (is_retained now e)) [
  | inl t ↦ rw t (p, All-retained P now es h)
  | inr f ↦ rw f (All-retained P now es h)
]

pub retained-is_retained :
    (now : ℕ) (es : List StoredStatusEvent) → All (λ e. is_retained now e ≡ true) (retained now es)
unfolding retained
retained-is_retained now [] = tt
retained-is_retained now (e ∷ es) = elim (Bool-cases (is_retained now e)) [
  | inl t ↦ rw t (t, retained-is_retained now es)
  | inr f ↦ rw f (retained-is_retained now es)
]

pub length-kept_events : (now : ℕ) (es : List StoredStatusEvent) → length (kept_events now es) ≤ 50
unfolding kept_events
length-kept_events now es =
    omega (arith, length-drop (length (retained now es) - 50) (retained now es))

slice-Fits : (n : ℕ) (o : Option Text) → Fits n (slice n o)
slice-Fits n none = tt
slice-Fits n (some s) = length-take n s

or_empty-slice : (n : ℕ) (o : Option Text) → length (or_empty (slice n o)) ≤ n
or_empty-slice n none = omega arith
or_empty-slice n (some s) = length-take n s

event_of-IsSmall : (msg : Message) (now : ℕ) → IsSmall (event_of msg now)
unfolding event_of
event_of-IsSmall msg now = record {
  id_fits = or_empty-slice 128 msg.connection_id;
  state_fits = or_empty-slice 32 msg.state;
  code_fits = slice-Fits 64 msg.code;
  message_fits = slice-Fits 500 msg.message;
}

kept_events-IsSmall :
    (now : ℕ) (es : List StoredStatusEvent) → All IsSmall es → All IsSmall (kept_events now es)
unfolding kept_events
kept_events-IsSmall now es h = All-drop IsSmall _ (retained now es) (All-retained IsSmall now es h)

abbrev pub AreBounded : Broker → Type 0
AreBounded b = Stored IsBounded b.connections

events_of-IsSmall :
    (key : Text) (b : Broker) → AreBounded b → All IsSmall (events_of (get key b.connections))
events_of-IsSmall key b h = elim (Option-cases (get key b.connections)) [
  | inl n ↦ rw n tt
  | inr (c, e) ↦ rw e (Stored-get IsBounded key b.connections h e).small
]

store_status-AreBounded :
    (name id : Text) (e : StoredStatusEvent) (now later : ℕ) (b : Broker)
    → IsSmall e
    → AreBounded b
    → AreBounded (store_status name id e now later b).0
unfolding store_status
store_status-AreBounded name id e now later b small h =
    let old = events_of (get (connection_key name id e.connection_id) b.connections) in
    Stored-put IsBounded _ _ b.connections
      (record {
        few = length-kept_events later (old ++ (e ∷ []));
        small =
            kept_events-IsSmall later (old ++ (e ∷ []))
              (All-append IsSmall old (e ∷ []) (events_of-IsSmall _ b h) (small, tt));
        current_small = small;
      })
      h

handle_object-AreBounded :
    (name id : Text) (msg : Message) (now later : ℕ) (b : Broker)
    → AreBounded b
    → AreBounded (handle_object name id msg now later b).0
unfolding handle_object touch_instance
handle_object-AreBounded name id msg now later b h =
    elim (Bool-cases
      (is_id msg.type (codes "runtime-hello") || is_id msg.type (codes "heartbeat"))) [
        | inl t ↦ rw (t, handle_object) h
        | inr f ↦
            elim (Bool-cases
              (not (is_id msg.type (codes "sip-status")) || not (is_id msg.instance_id id))) [
                | inl t ↦ rw (f, t, handle_object) h
                | inr g ↦
                    elim (Bool-cases (
                      is_blank (event_of msg now).connection_id
                      || is_blank (event_of msg now).state)) [
                        | inl t ↦ rw (f, g, t, handle_object) h
                        | inr k ↦
                            rw (f, g, k, handle_object)
                              (store_status-AreBounded name id (event_of msg now) now later b
                                (event_of-IsSmall msg now) h)
                      ]
              ]
      ]

handle_frame-AreBounded :
    (att : Attachment) (frame : Frame) (now later : ℕ) (b : Broker)
    → AreBounded b
    → AreBounded (handle_frame att frame now later b).0
unfolding handle_frame
handle_frame-AreBounded att bytes now later b h = h
handle_frame-AreBounded att invalid_json now later b h = h
handle_frame-AreBounded att null_json now later b h = h
handle_frame-AreBounded att (object msg) now later b h = elim (Bool-cases (is_editor att.role)) [
  | inl t ↦ rw (t, handle_frame) h
  | inr f ↦ elim (Option-cases att.bridge_id) [
    | inl n ↦ rw (f, n, handle_frame) h
    | inr (id, e) ↦ elim (Bool-cases (is_blank id)) [
      | inl t ↦ rw (f, e, t, handle_frame) h
      | inr g ↦ rw (f, e, g, handle_frame) (handle_object-AreBounded att.name id msg now later b h)
    ]
  ]
]

snapshot-AreBounded :
    (name : Text) (now : ℕ) (b : Broker) → AreBounded b → AreBounded (snapshot name now b).1
unfolding snapshot
snapshot-AreBounded name now b h =
    Stored-expire IsBounded (connection_prefix name) (live_connection now) b.connections h

open_socket-AreBounded :
    (id : ℕ) (role : Role) (name : Text) (bridge_id : Option Text) (now : ℕ) (b : Broker)
    → AreBounded b
    → AreBounded (open_socket id role name bridge_id now b).1
unfolding open_socket
open_socket-AreBounded id runtime name bridge_id now b h = h
open_socket-AreBounded id editor name bridge_id now b h = snapshot-AreBounded name now _ h

fetch-AreBounded :
    (id : ℕ) (req : Request) (now : ℕ) (b : Broker)
    → AreBounded b
    → AreBounded (fetch id req now b).1
unfolding fetch revoke
fetch-AreBounded id (subscribe role name upgrade bridge_id) now b h =
    elim (Bool-cases (is_blank name)) [
      | inl t ↦ rw (t, fetch) h
      | inr f ↦ elim (Bool-cases upgrade) [
        | inr g ↦ rw (f, g, fetch) h
        | inl u ↦ elim (Bool-cases (not (is_editor role) && not (is_bridge_id bridge_id))) [
          | inl t ↦ rw (f, u, t, fetch) h
          | inr g ↦ rw (f, u, g, fetch) (open_socket-AreBounded id role name bridge_id now b h)
        ]
      ]
    ]
fetch-AreBounded id (status name) now b h = elim (Bool-cases (is_blank name)) [
  | inl t ↦ rw (t, fetch) h
  | inr f ↦ rw (f, fetch) (snapshot-AreBounded name now b h)
]
fetch-AreBounded id (notifies name hash) now b h = h
fetch-AreBounded id (revokes bridge_id) now b h = h
fetch-AreBounded id other now b h = h

web_socket_message-AreBounded :
    (att : Option Attachment) (frame : Frame) (now later : ℕ) (b : Broker)
    → AreBounded b
    → AreBounded (web_socket_message att frame now later b).0
unfolding web_socket_message
web_socket_message-AreBounded none frame now later b h = h
web_socket_message-AreBounded (some att) frame now later b h =
    handle_frame-AreBounded att frame now later b h

-- Over any run of requests and messages, if every stored status has at most fifty events, all
-- within the limits on the lengths of their texts, then so has every status that is stored after it.
pub run-AreBounded : (es : List Event) (b : Broker) → AreBounded b → AreBounded (run es b)
unfolding run handle
run-AreBounded [] b h = h
run-AreBounded (fetches id req now ∷ es) b h = run-AreBounded es _ (fetch-AreBounded id req now b h)
run-AreBounded (frames att frame now later ∷ es) b h =
    run-AreBounded es _ (web_socket_message-AreBounded att frame now later b h)
run-AreBounded (closes id ∷ es) b h = run-AreBounded es _ h
