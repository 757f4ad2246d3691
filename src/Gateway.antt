-- ===== src/Gateway.antt =====
-- control_plane/delegates/management/commands/restart_gateway.py: the websocket handlers, cut at
-- their awaits, and the table CONNECTED that they share with `send_restart` and `disconnect`.
pub mod Table
pub mod Control
pub mod Steps
pub mod Certified
pub mod Race
mod Tests
use delegate_implementation.Base.{
  ℕ, Text, codes, text_eq, is_empty, lookup, List, [], ◌∷◌, ◌++◌, Option, none, some, Bool, true,
  false, not, ◌||◌, ◌==◌, if◌then◌else◌,
}
use delegate_implementation.Platform.{Platform, Fields}
use delegate_implementation.Transfer.Receiver.{is_type, same_text}
use delegate_implementation.Models.{Db, Delegate}
use delegate_implementation.Models.Tables.{find_delegate, add_audit}
use delegate_implementation.Dispatcher.Requests.{event_of, is_active}

-- A websocket, and the common name of the certificate of its peer.
pub record Socket : Type 0 where
  pub id : ℕ
  pub cn : Option Text

-- Where a handler stands: at the head of its loop, before or after the query in the other thread,
-- or at its end.
pub data Phase : Type 0 where
  reading ended : Phase
  querying : Text → Phase
  resuming : Text → Option Delegate → Phase

pub record Handler : Type 0 where
  pub socket : Socket
  pub delegate_id : Option Text
  pub phase : Phase

pub data Frame : Type 0 where
  restart : Frame
  close : ℕ → Frame

-- CONNECTED, the tables, and what was sent on which socket.
pub record Gateway : Type 0 where
  pub connected : List (Text × Socket)
  pub db : Db
  pub sent : List (ℕ × Frame)

unfoldable pub find_socket : Text → List (Text × Socket) → Option Socket
find_socket id [] = none
find_socket id ((k, s) ∷ rest) = if text_eq k id then some s else find_socket id rest

unfoldable pub drop_socket : Text → List (Text × Socket) → List (Text × Socket)
drop_socket id [] = []
drop_socket id ((k, s) ∷ rest) =
    let others = drop_socket id rest in if text_eq k id then others else (k, s) ∷ others

-- `CONNECTED[delegate_id] = websocket`; a key that is there keeps its place.
unfoldable pub set_socket : Text → Socket → List (Text × Socket) → List (Text × Socket)
set_socket id socket [] = (id, socket) ∷ []
set_socket id socket ((k, s) ∷ rest) =
    let others = set_socket id socket rest in
    if text_eq k id then (k, socket) ∷ rest else (k, s) ∷ others

abbrev pub send : ℕ → Frame → Gateway → Gateway
send id frame g = record g { sent = g.sent ++ (id, frame) ∷ [] }

-- `CONNECTED.get(delegate_id) is websocket`
unfoldable pub is_connected : Text → Socket → Gateway → Bool
is_connected id socket g = elim (find_socket id g.connected) [
  | none ↦ false
  | some s ↦ s.id == socket.id
]

-- The `finally` of the handler.
unfoldable pub leave : Handler → Gateway → Handler × Gateway
leave h g = elim h.delegate_id [
  | none ↦ (record h { phase = ended }, g)
  | some id ↦ (
    record h { phase = ended },
    if is_empty id
        then g
        else if is_connected id h.socket g
        then record g { connected = drop_socket id g.connected }
        else g,
  )
]

-- The HELLO up to its query.
unfoldable pub hello : Fields → Handler → Gateway → Handler × Gateway
hello fields h g = elim h.socket.cn [
  | none ↦ leave h (send h.socket.id (close 4001) g)
  | some cn ↦
      if is_empty cn || not (same_text (lookup "delegate_id" fields) (some cn))
      then leave h (send h.socket.id (close 4001) g)
      else (record h { phase = querying cn }, g)
]

-- One message; `none` where `json.loads` raises.
unfoldable pub receive : Option Fields → Handler → Gateway → Handler × Gateway
receive none h g = leave h g
receive (some fields) h g = if is_type fields (codes "HELLO") then hello fields h g else (h, g)

-- From the end of the query on.
unfoldable pub resume : Text → Option Delegate → Handler → Gateway → Handler × Gateway
resume id none h g = leave h (send h.socket.id (close 4003) g)
resume id (some d) h g = (
  record h { delegate_id = some id; phase = reading },
  record g { connected = set_socket id h.socket g.connected },
)

unfoldable pub disconnect : Text → Gateway → Bool × Gateway
disconnect id g = elim (find_socket id g.connected) [
  | none ↦ (false, g)
  | some s ↦ (true, send s.id (close 4003) (record g { connected = drop_socket id g.connected }))
]

module _ (p : Platform) where
  unfoldable pub lookup_active_delegate : Text → Db → Option Delegate
  lookup_active_delegate id db = elim (p.to_uuid id) [
    | none ↦ none
    | some uuid ↦ elim (find_delegate uuid db.delegates) [
      | none ↦ none
      | some d ↦ if is_active d.status then some d else none
    ]
  ]

  -- `db` is the state of the tables when the query runs, after the message was sent.
  unfoldable pub send_restart : Text → Gateway → Bool × Gateway
  send_restart id g = elim (find_socket id g.connected) [
    | none ↦ (false, g)
    | some s ↦ elim (lookup_active_delegate id g.db) [
      | none ↦ (true, send s.id restart g)
      | some d ↦ (
        true,
        send s.id restart (record g {
          db = add_audit (event_of "DELEGATE_RESTART_SENT" d.tenant_id d.id [] []) g.db;
        }),
      )
    ]
  ]
