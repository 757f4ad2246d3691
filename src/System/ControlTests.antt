-- ===== src/System/ControlTests.antt =====
-- A delegate that is connected, restarted and revoked.
use delegate_implementation.Base.{
  Text, codes, text_eq, List, [], ◌∷◌, ◌++◌, map, none, some, true, if◌then◌else◌, ◌≡◌, refl,
}
use delegate_implementation.Models.{revoked}
use delegate_implementation.Models.Tables.{find_delegate}
use delegate_implementation.Gateway.{
  Socket, querying, Gateway, Frame, find_socket, lookup_active_delegate,
}
use delegate_implementation.Gateway.Control.{restart_path, sent, do_post}
use delegate_implementation.Agent
use delegate_implementation.Agent.{Container, connected, hello_fields, session}
use delegate_implementation.Views.State.{ControlPlane, revocation}
use delegate_implementation.System.Revocation.{revoke_everywhere, revoke_everywhere-do_post}
use delegate_implementation.System.Restart.{fields_of, asked, accepted, do_post-session}
use delegate_implementation.Samples.{platform, delegate, db}
use delegate_implementation.Samples.Server.{acl_server, rules_in}

abbrev socket : Socket
socket = record { id = 1; cn = some (codes "d") }

abbrev gateway : List (Text × Socket) → Gateway
gateway table = record { connected = table; db = db; sent = [] }

abbrev before : ControlPlane (List (Text × List Text))
before = record { db = db; acl = (codes "d", []) ∷ (codes "z", []) ∷ [] }

revoke_everywhere-do_post_example :
    let (response, cp', g') =
      revoke_everywhere platform acl_server
        (codes "d")
        true
        before
        (gateway ((codes "d", socket) ∷ [])) in
    (response ≡ revocation true true)
    × (find_delegate (codes "d") cp'.db.delegates ≡ some (record delegate { status = revoked }))
    × (acl_server.rules_of cp'.acl (codes "d") ≡ none)
    × (find_socket (codes "d") g'.connected ≡ none)
    × (find_socket (codes "z") g'.connected ≡ (
        if text_eq (codes "d") (codes "z")
        then none
        else find_socket (codes "z") ((codes "d", socket) ∷ [])))
unfolding find_delegate find_socket rules_in text_eq
revoke_everywhere-do_post_example =
    revoke_everywhere-do_post platform acl_server (codes "d") (codes "z") before
      (gateway ((codes "d", socket) ∷ [])) delegate refl

abbrev container : Container
container = record { name = codes "worker"; restarts = true }

do_post-session_example :
    let (handler, g₁) = accepted platform (codes "d") delegate socket (gateway []) in
    let (answer, g') = do_post platform (restart_path ++ codes "d") g₁ in
    ((asked platform (codes "d") delegate socket (gateway [])).0.phase ≡ querying (codes "d"))
    × (answer ≡ record { status = 200; content = sent true })
    × ((frame : Frame) × (g'.sent ≡ [] ++ (1, frame) ∷ [])
        × (session (codes "d") (
              connected
                (record { fields = fields_of frame; containers = container ∷ [] } ∷ [])
                true)
            ≡ Agent.hello (hello_fields (codes "d"))
              ∷ map (λ c. Agent.restart c.name) (container ∷ [])))
unfolding lookup_active_delegate find_delegate text_eq
do_post-session_example =
    do_post-session platform (codes "d") delegate socket (gateway []) container [] refl refl refl
      (refl, tt)
