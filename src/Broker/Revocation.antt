-- ===== src/Broker/Revocation.antt =====
-- A revocation closes the sockets of a bridge.
use benis_phone.Common.{
  All, ℕ, ◌≡◌, refl, Bool, true, false, not, ◌&&◌, Option, none, some, List, [], ◌∷◌, ◌++◌, arith,
  ◌==◌, Bool-cases, Option-cases, inl, inr,
}
use benis_phone.Common.Table.{update, count}
use benis_phone.Common.Text.{Text}
use benis_phone.Broker.{
  Role, runtime, editor, Attachment, Socket, Broker, is_runtime_of, is_editor, is_id, revoke,
  is_blank, web_socket_message, handle_frame, handle_object, touch_instance, store_status, Frame,
  Message, object, bytes, invalid_json, null_json,
}
use benis_phone.Broker.Service.{
  Request, subscribe, status, notifies, revokes, other, Event, fetches, frames, closes, handle, run,
  fetch, open_socket, snapshot, is_bridge_id,
}

abbrev pub open_of : Text → Socket → Bool
open_of id s = is_runtime_of id s && s.connected

-- The number of open sockets of a bridge.
abbrev pub open_sockets : Text → Broker → ℕ
open_sockets id b = count (open_of id) b.sockets

and_false : (b : Bool) → (b && false) ≡ false
and_false true = refl
and_false false = refl

disconnected-open_of :
    (id : Text) (s : Socket) → open_of id (record s { connected = false }) ≡ false
disconnected-open_of id s = and_false (is_runtime_of id s)

revoke-none :
    (id : Text) (ss : List Socket)
    → count (open_of id) (update (open_of id) (λ s. record s { connected = false }) ss) ≡ 0
unfolding count update
revoke-none id [] = refl
revoke-none id (s ∷ ss) = elim (Bool-cases (open_of id s)) [
  | inl t ↦ rw t (rw (disconnected-open_of id s) (omega (arith, revoke-none id ss)))
  | inr f ↦ rw f (rw f (omega (arith, revoke-none id ss)))
]

-- Closing other sockets opens none.
update-none :
    (id : Text) (q : Socket → Bool) (ss : List Socket)
    → count (open_of id) ss ≡ 0
    → count (open_of id) (update q (λ s. record s { connected = false }) ss) ≡ 0
unfolding count update
update-none id q [] h = refl
update-none id q (s ∷ ss) h = elim (Bool-cases (open_of id s)) [
  | inl t ↦ absurd (ground arith)
  | inr f ↦
      let rest = update-none id q ss (ground arith) in
      elim (Bool-cases (q s)) [
        | inl t ↦ rw t (rw (disconnected-open_of id s) (omega (arith, rest)))
        | inr g ↦ rw g (rw f (omega (arith, rest)))
      ]
]

append-none :
    (id : Text) (ss : List Socket) (s : Socket)
    → open_of id s ≡ false
    → count (open_of id) ss ≡ 0
    → count (open_of id) (ss ++ (s ∷ [])) ≡ 0
unfolding count
append-none id [] s f h = rw f refl
append-none id (t ∷ ss) s f h = ground (arith, append-none id ss s f)

-- The event opens a socket of that bridge.
abbrev pub opens : Text → Event → Bool
opens id (fetches _ (subscribe runtime _ _ bridge_id) _) = is_id bridge_id id
opens id _ = false

handle_object-sockets :
    (name id : Text) (msg : Message) (now later : ℕ) (b : Broker)
    → (handle_object name id msg now later b).0.sockets ≡ b.sockets
unfolding handle_object touch_instance store_status
handle_object-sockets name id msg now later b = ground arith

web_socket_message-sockets :
    (att : Option Attachment) (frame : Frame) (now later : ℕ) (b : Broker)
    → (web_socket_message att frame now later b).0.sockets ≡ b.sockets
unfolding web_socket_message handle_frame
web_socket_message-sockets none frame now later b = refl
web_socket_message-sockets (some att) bytes now later b = refl
web_socket_message-sockets (some att) invalid_json now later b = refl
web_socket_message-sockets (some att) null_json now later b = refl
web_socket_message-sockets (some att) (object msg) now later b =
    elim (Bool-cases (is_editor att.role)) [
      | inl t ↦ rw (t, web_socket_message, handle_frame) refl
      | inr f ↦ elim (Option-cases att.bridge_id) [
        | inl n ↦ rw (f, n, web_socket_message, handle_frame) refl
        | inr (id, e) ↦ elim (Bool-cases (is_blank id)) [
          | inl t ↦ rw (f, e, t, web_socket_message, handle_frame) refl
          | inr g ↦
              rw (f, e, g, web_socket_message, handle_frame)
                (handle_object-sockets att.name id msg now later b)
        ]
      ]
    ]

open_socket-none :
    (id : Text) (n : ℕ) (role : Role) (name : Text) (bridge_id : Option Text) (now : ℕ) (b : Broker)
    → opens id (fetches n (subscribe role name true bridge_id) now) ≡ false
    → open_sockets id b ≡ 0
    → open_sockets id (open_socket n role name bridge_id now b).1 ≡ 0
unfolding open_socket snapshot
open_socket-none id n runtime name bridge_id now b f h =
    append-none id b.sockets _ (ground (arith, f)) h
open_socket-none id n editor name bridge_id now b f h = append-none id b.sockets _ refl h

fetch-none :
    (id : Text) (n : ℕ) (req : Request) (now : ℕ) (b : Broker)
    → opens id (fetches n req now) ≡ false
    → open_sockets id b ≡ 0
    → open_sockets id (fetch n req now b).1 ≡ 0
unfolding fetch revoke snapshot
fetch-none id n (subscribe role name upgrade bridge_id) now b o h =
    elim (Bool-cases (is_blank name)) [
      | inl t ↦ rw (t, fetch) h
      | inr f ↦ elim (Bool-cases upgrade) [
        | inr g ↦ rw (f, g, fetch) h
        | inl u ↦ elim (Bool-cases (not (is_editor role) && not (is_bridge_id bridge_id))) [
          | inl t ↦ rw (f, u, t, fetch) h
          | inr g ↦
              rw (f, u, g, fetch) (open_socket-none id n role name bridge_id now b (same role o) h)
        ]
      ]
    ]
  where
    same :
        (role : Role)
        → opens id (fetches n (subscribe role name upgrade bridge_id) now) ≡ false
        → opens id (fetches n (subscribe role name true bridge_id) now) ≡ false
    same runtime o = o
    same editor o = o
fetch-none id n (status name) now b o h = elim (Bool-cases (is_blank name)) [
  | inl t ↦ rw (t, fetch) h
  | inr f ↦ rw (f, fetch) h
]
fetch-none id n (notifies name hash) now b o h = h
fetch-none id n (revokes bridge_id) now b o h =
    update-none id (λ s. is_runtime_of bridge_id s && s.connected) b.sockets h
fetch-none id n other now b o h = h

run-none :
    (id : Text) (es : List Event) (b : Broker)
    → All (λ e. opens id e ≡ false) es
    → open_sockets id b ≡ 0
    → open_sockets id (run es b) ≡ 0
unfolding run handle
run-none id [] b a h = h
run-none id (fetches n req now ∷ es) b (o, a) h = run-none id es _ a (fetch-none id n req now b o h)
run-none id (frames att frame now later ∷ es) b (o, a) h =
    run-none id es _ a (rw (web_socket_message-sockets att frame now later b) h)
run-none id (closes n ∷ es) b (o, a) h =
    run-none id es _ a (update-none id (λ s. s.id == n) b.sockets h)

-- After a revocation a bridge has no open socket, and none until it subscribes again, whatever other
-- requests and messages come in between.
pub revoke-closed :
    (id : Text) (b : Broker) (es : List Event)
    → All (λ e. opens id e ≡ false) es
    → open_sockets id (run es (revoke id b).1) ≡ 0
unfolding revoke
revoke-closed id b es a = run-none id es _ a (revoke-none id b.sockets)
