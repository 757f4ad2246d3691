-- ===== src/System/Restart.antt =====
-- A restart from the operator's request through the gateway to the agent's containers.
use delegate_implementation.Base.{
  Text, codes, text_eq_refl, is_empty, lookup, List, [], ◌∷◌, ◌++◌, map, All, Option, none, some,
  true, false, if◌then◌else◌, append-nil, ◌≡◌, ◌∙◌, ap, refl, arith,
}
use delegate_implementation.Platform.{Platform, Fields}
use delegate_implementation.Models.{Delegate}
use delegate_implementation.Transfer.Receiver.{is_type, same_text}
use delegate_implementation.Gateway.{
  Socket, reading, querying, Handler, Gateway, Frame, restart, close, find_socket, set_socket,
  hello, receive, resume, lookup_active_delegate, send_restart,
}
use delegate_implementation.Gateway.Table.{find_socket-set_socket}
use delegate_implementation.Gateway.Control.{Answer, sent, after_prefix, restart_path, do_post}
use delegate_implementation.Agent
use delegate_implementation.Agent.{
  Container, Action, Incoming, connected, hello_fields, restart_all, restart_delegate, on_message,
  on_messages, session,
}

-- The JSON of a frame that the gateway sends.
abbrev pub fields_of : Frame → Option Fields
fields_of restart = some (("type", codes "RESTART") ∷ [])
fields_of (close code) = none

pub do_post-restart :
    (p : Platform) (id : Text) (g : Gateway)
    → do_post p (restart_path ++ id) g ≡ (
      record {
        status = if (send_restart p id g).0 then 200 else 404;
        content = sent (send_restart p id g).0;
      },
      (send_restart p id g).1,
    )
unfolding do_post after_prefix
do_post-restart p id g = refl

-- All containers that can be restarted are.
restart_all-names :
    (cs : List Container)
    → All (λ c. c.restarts ≡ true) cs
    → restart_all cs ≡ (map (λ c. Agent.restart c.name) cs, none)
unfolding restart_all
restart_all-names [] all = refl
restart_all-names (c ∷ cs) (ok, all) = rw (ok, restart_all-names cs all) refl

module _ (p : Platform) (id : Text) (d : Delegate) (socket : Socket) (g : Gateway) where
  abbrev start : Handler
  start = record { socket = socket; delegate_id = none; phase = reading }

  -- The handler and the gateway after the agent's HELLO, and after the query that it waits for.
  abbrev pub asked : Handler × Gateway
  asked = receive (some (hello_fields id)) start g

  abbrev pub accepted : Handler × Gateway
  accepted = resume id (lookup_active_delegate p id asked.1.db) asked.0 asked.1

  asked_lem :
      socket.cn ≡ some id → is_empty id ≡ false → asked ≡ (record start { phase = querying id }, g)
  unfolding receive hello is_type same_text lookup
  asked_lem own filled =
      let is_hello = text_eq_refl (codes "HELLO") in ground (arith, text_eq_refl id)

  accepted_lem :
      socket.cn ≡ some id
      → is_empty id ≡ false
      → lookup_active_delegate p id g.db ≡ some d
      → accepted.1 ≡ record g { connected = set_socket id socket g.connected }
  unfolding resume
  accepted_lem own filled active = rw (asked_lem own filled) (rw active refl)

  sent_lem :
      (g' : Gateway)
      → find_socket id g'.connected ≡ some socket
      → lookup_active_delegate p id g'.db ≡ some d
      → ((send_restart p id g').0 ≡ true)
        × ((send_restart p id g').1.sent ≡ g'.sent ++ (socket.id, restart) ∷ [])
  unfolding send_restart
  sent_lem g' there active = ground arith

  session_lem :
      (c : Container) (cs : List Container)
      → All (λ c. c.restarts ≡ true) (c ∷ cs)
      → session id
          (connected (record { fields = fields_of restart; containers = c ∷ cs } ∷ []) true)
        ≡ Agent.hello (hello_fields id) ∷ map (λ c. Agent.restart c.name) (c ∷ cs)
  unfolding session on_messages on_message restart_delegate is_type same_text lookup
  session_lem c cs all =
      rw (restart_all-names (c ∷ cs) all, text_eq_refl (codes "RESTART")) (rw append-nil refl)

  -- An agent whose certificate is that of an active delegate is restarted through the gateway: its
  -- HELLO waits for the query of its id, and after it an operator's POST to /restart/ answers 200 and
  -- sends one frame on the agent's socket, on which the agent restarts all containers of the
  -- delegate, if there are some and Docker can restart them.
  pub do_post-session :
      (c : Container) (cs : List Container)
      → socket.cn ≡ some id
      → is_empty id ≡ false
      → lookup_active_delegate p id g.db ≡ some d
      → All (λ c. c.restarts ≡ true) (c ∷ cs)
      → let (answer, g') = do_post p (restart_path ++ id) accepted.1 in
        (asked.0.phase ≡ querying id)
        × (answer ≡ record { status = 200; content = sent true })
        × ((frame : Frame) × (g'.sent ≡ g.sent ++ (socket.id, frame) ∷ [])
            × (session id
                  (connected (record { fields = fields_of frame; containers = c ∷ cs } ∷ []) true)
                ≡ Agent.hello (hello_fields id) ∷ map (λ c. Agent.restart c.name) (c ∷ cs)))
  do_post-session c cs own filled active all =
      let there = find_socket-set_socket id id socket g.connected ∙ rw (text_eq_refl id) refl in
      let g' : Gateway = record g { connected = set_socket id socket g.connected } in
      let (done, frames) = sent_lem g' there active in
      let e =
        ap (do_post p (restart_path ++ id)) (accepted_lem own filled active)
        ∙ do_post-restart p id g' in
      (
        ap (λ (r : Handler × Gateway). r.0.phase) (asked_lem own filled),
        ap (λ (r : Answer × Gateway). r.0) e ∙ rw done refl,
        (restart, ap (λ (r : Answer × Gateway). r.1.sent) e ∙ frames, session_lem c cs all),
      )
