-- ===== src/System/Revocation.antt =====
-- A revocation through all that it reaches: the tables, Redis and the restart gateway.
use delegate_implementation.Base.{
  Text, text_eq, text_eq_iff, text_eq_refl, ◌++◌, Option, none, some, Bool, true, false, ◌==◌,
  if◌then◌else◌, ◌≡◌, ◌∙◌, ap, refl, arith,
}
use delegate_implementation.Platform.{Platform}
use delegate_implementation.Models.{Delegate, revoked}
use delegate_implementation.Models.Tables.{find_delegate}
use delegate_implementation.Acl
use delegate_implementation.Acl.{AclServer}
use delegate_implementation.Gateway.{Gateway, find_socket, disconnect}
use delegate_implementation.Gateway.Table.{find_socket-drop_socket}
use delegate_implementation.Gateway.Control.{
  Answer, Content, connected, sent, disconnected, empty, after_prefix, disconnect_path, do_post,
}
use delegate_implementation.Views.State.{ControlPlane, Response, revocation}
use delegate_implementation.Views.Revocation.{
  revoke_delegate, revoke_delegate-revokes, find_delegate-id,
}

-- What `urlopen` and `json.loads(...).get("disconnected", False)` make of the answer: an error status
-- raises, and so does a body that is no JSON.
unfoldable pub disconnected_of : Answer → Option Bool
disconnected_of answer = if answer.status == 200 then read answer.content else none
  where
    read : Content → Option Bool
    read (disconnected closed) = some closed
    read (sent done) = some false
    read (connected ids) = some false
    read empty = none

pub do_post-disconnect :
    (p : Platform) (id : Text) (g : Gateway)
    → do_post p (disconnect_path ++ id) g
      ≡ (record { status = 200; content = disconnected (disconnect id g).0 }, (disconnect id g).1)
unfolding do_post after_prefix
do_post-disconnect p id g = refl

abbrev is_there : {A : Type 0} → Option A → Bool
is_there none = false
is_there (some a) = true

disconnect-answer :
    (id : Text) (g : Gateway) → (disconnect id g).0 ≡ is_there (find_socket id g.connected)
unfolding disconnect
disconnect-answer id g = ground arith

find_socket-disconnect :
    (id other : Text) (g : Gateway)
    → find_socket other (disconnect id g).1.connected
      ≡ (if text_eq id other then none else find_socket other g.connected)
unfolding disconnect
find_socket-disconnect id other g =
    ground (arith, text_eq_iff id other, find_socket-drop_socket id other g.connected)

module _ (p : Platform) (server : AclServer) where
  -- `revoke_delegate`, whose request is answered by the gateway.
  unfoldable pub revoke_everywhere :
      Text
      → Bool
      → ControlPlane server.State
      → Gateway
      → Response × ControlPlane server.State × Gateway
  revoke_everywhere id redis_up cp g =
      let (answer, g') = do_post p (disconnect_path ++ id) g in
      let (response, cp') = revoke_delegate server id redis_up (disconnected_of answer) cp in
      (response, cp', g')

  revoke_everywhere-disconnect :
      (id : Text) (redis_up : Bool) (cp : ControlPlane server.State) (g : Gateway)
      → revoke_everywhere id redis_up cp g ≡ (
          let (response, cp') = revoke_delegate server id redis_up (some (disconnect id g).0) cp in
          (response, cp', (disconnect id g).1))
  unfolding revoke_everywhere disconnected_of
  revoke_everywhere-disconnect id redis_up cp g =
      ap
        (λ (r : Answer × Gateway).
          let (response, cp') = revoke_delegate server id redis_up (disconnected_of r.0) cp in
          (response, cp', r.1))
        (do_post-disconnect p id g)

  revocation_answer :
      (id : Text) (cp : ControlPlane server.State) (d : Delegate) (closed : Bool)
      → find_delegate id cp.db.delegates ≡ some d
      → d.id ≡ id
      → (revoke_delegate server id true (some closed) cp).0
        ≡ revocation (is_there (server.rules_of cp.acl id)) closed
  unfolding revoke_delegate Acl.revoke_delegate
  revocation_answer id cp d closed found own = ground arith

  -- Revoking a delegate that exists, with Redis and the gateway reachable, marks its row as revoked,
  -- removes its Redis user and its entry in CONNECTED, and answers whether there was a user and
  -- whether there was a connection; the connections of other ids stay.
  pub revoke_everywhere-do_post :
      (id other : Text) (cp : ControlPlane server.State) (g : Gateway) (d : Delegate)
      → find_delegate id cp.db.delegates ≡ some d
      → let (response, cp', g') = revoke_everywhere id true cp g in
        (response
          ≡ revocation
              (is_there (server.rules_of cp.acl id))
              (is_there (find_socket id g.connected)))
        × (find_delegate id cp'.db.delegates ≡ some (record d { status = revoked }))
        × (server.rules_of cp'.acl id ≡ none)
        × (find_socket id g'.connected ≡ none)
        × (find_socket other g'.connected
            ≡ (if text_eq id other then none else find_socket other g.connected))
  revoke_everywhere-do_post id other cp g d found =
      let closed = (disconnect id g).0 in
      let (marked, users) = revoke_delegate-revokes server id id true (some closed) cp d found in
      rw (revoke_everywhere-disconnect id true cp g) (
        revocation_answer id cp d closed found (find_delegate-id id cp.db.delegates d found)
            ∙ ap (revocation (is_there (server.rules_of cp.acl id))) (disconnect-answer id g),
        marked,
        users ∙ rw (text_eq_refl id) refl,
        find_socket-disconnect id id g ∙ rw (text_eq_refl id) refl,
        find_socket-disconnect id other g,
      )
