-- ===== src/Agent.antt =====
-- agent_manager/agent_manager.py: what the agent does in the sessions with the restart gateway. What
-- each attempt to connect brings, and the containers that Docker lists, are the input.
mod Tests
use delegate_implementation.Base.{
  Text, codes, List, [], ◌∷◌, ◌++◌, map, Option, none, some, Bool, true, false, if◌then◌else◌,
  Error, value_error, runtime_error, connection_error,
}
use delegate_implementation.Platform.{Fields}
use delegate_implementation.Transfer.Receiver.{is_type}

-- A container of the delegate's compose service, and whether its restart succeeds.
pub record Container : Type 0 where
  pub name : Text
  pub restarts : Bool

-- What the agent does: its HELLO, the restart of a container, and the wait after an exception.
pub data Action : Type 0 where
  hello : Fields → Action
  restart : Text → Action
  wait : Error → Action

-- A frame of the gateway, `none` where it is no JSON object, and the containers at that time.
pub record Incoming : Type 0 where
  pub fields : Option Fields
  pub containers : List Container

-- One turn of the loop: the connection fails, or it brings messages and then ends, cleanly or by an
-- exception.
pub data Session : Type 0 where
  unreachable : Session
  connected : List Incoming → Bool → Session

-- The restarts in order, and the exception that stops them.
unfoldable pub restart_all : List Container → List Action × Option Error
restart_all [] = ([], none)
restart_all (c ∷ cs) =
    let (actions, failed) = restart_all cs in
    if c.restarts
    then (restart c.name ∷ actions, failed)
    else (restart c.name ∷ [], some runtime_error)

unfoldable pub restart_delegate : List Container → List Action × Option Error
unfolding restart_all
restart_delegate [] = ([], some runtime_error)
restart_delegate (c ∷ cs) = restart_all (c ∷ cs)

unfoldable pub on_message : Incoming → List Action × Option Error
unfolding restart_delegate
on_message m = elim m.fields [
  | none ↦ ([], some value_error)
  | some fields ↦
      if is_type fields (codes "RESTART") then restart_delegate m.containers else ([], none)
]

-- The `async for` over the messages.
unfoldable pub on_messages : List Incoming → Bool → List Action
on_messages [] clean = if clean then [] else wait connection_error ∷ []
on_messages (m ∷ ms) clean =
    let rest = on_messages ms clean in
    let (actions, failed) = on_message m in
    actions ++ elim failed [ none ↦ rest | some e ↦ wait e ∷ [] ]

abbrev pub hello_fields : Text → Fields
hello_fields delegate_id = ("type", codes "HELLO") ∷ ("delegate_id", delegate_id) ∷ []

unfoldable pub session : Text → Session → List Action
session delegate_id unreachable = wait connection_error ∷ []
session delegate_id (connected messages clean) =
    hello (hello_fields delegate_id) ∷ on_messages messages clean

-- `run`, with the delegate id of identity.json.
unfoldable pub run : Text → List Session → List Action
run delegate_id [] = []
run delegate_id (s ∷ sessions) = session delegate_id s ++ run delegate_id sessions
