-- ===== src/Gateway/Steps.antt =====
-- The interleavings of the gateway's handlers, and what holds in all of them.
use delegate_implementation.Base.{Text, List, [], ◌∷◌, ◌++◌, Option, none, ◌≡◌}
use delegate_implementation.Platform.{Platform, Fields}
use delegate_implementation.Models.{Db, Delegate}
use delegate_implementation.Gateway.{
  Socket, reading, querying, resuming, Handler, Gateway, leave, receive, resume, disconnect,
  lookup_active_delegate, send_restart,
}

pub record State : Type 0 where
  pub handlers : List Handler
  pub gateway : Gateway

-- The state where one handler of several has moved.
abbrev pub moved : List Handler → List Handler → Handler × Gateway → State
moved before after (h, g) = record { handlers = before ++ h ∷ after; gateway = g }

-- One step of one handler, or of an operator, or of the rest of the control plane on the tables.
pub data Step (p : Platform) : State → State → Type 0 where
  opened :
      (s : State) (socket : Socket)
      → Step p s (record s {
        handlers =
            s.handlers ++ record { socket = socket; delegate_id = none; phase = reading } ∷ [];
      })
  got_message :
      (before after : List Handler) (h : Handler) (g : Gateway) (message : Option Fields)
      → h.phase ≡ reading
      → Step p (moved before after (h, g)) (moved before after (receive message h g))
  queried :
      (before after : List Handler) (h : Handler) (g : Gateway) (id : Text)
      → h.phase ≡ querying id
      → Step p (moved before after (h, g)) (
          moved before after
            (record h { phase = resuming id (lookup_active_delegate p id g.db) }, g))
  resumed :
      (before after : List Handler) (h : Handler) (g : Gateway) (id : Text)
      (found : Option Delegate)
      → h.phase ≡ resuming id found
      → Step p (moved before after (h, g)) (moved before after (resume id found h g))
  -- the connection is closed
  left :
      (before after : List Handler) (h : Handler) (g : Gateway)
      → h.phase ≡ reading
      → Step p (moved before after (h, g)) (moved before after (leave h g))
  restarts :
      (s : State) (id : Text) → Step p s (record s { gateway = (send_restart p id s.gateway).1 })
  disconnects :
      (s : State) (id : Text) → Step p s (record s { gateway = (disconnect id s.gateway).1 })
  changes : (s : State) (db : Db) → Step p s (record s { gateway = record s.gateway { db = db } })

pub data Steps (p : Platform) : State → State → Type 0 where
  done : (s : State) → Steps p s s
  more : (s t u : State) → Step p s t → Steps p t u → Steps p s u

-- The gateway before any connection, on some tables.
abbrev pub at_start : Db → State
at_start db = record { handlers = []; gateway = record { connected = []; db = db; sent = [] } }
