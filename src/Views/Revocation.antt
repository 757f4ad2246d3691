-- ===== src/Views/Revocation.antt =====
-- control_plane/delegates/views.py: `revoke_delegate`. Whether Redis answers, and what the restart
-- gateway answers (`none` where the request fails), are arguments.
use delegate_implementation.Base.{
  Text, text_eq, text_eq_iff, List, [], ◌∷◌, Option, none, some, Option-cases, Bool, false, ltb,
  if◌then◌else◌, ◌≡◌, ◌≢◌, inl, inr, refl, sym, ap, ◌∙◌, arith, connection_error,
}
use delegate_implementation.Platform.{Platform, Fields}
use delegate_implementation.Models.{lit, bool, exception, Delegate, revoked}
use delegate_implementation.Models.Tables.{find_delegate, update_delegates, add_audit}
use delegate_implementation.Acl
use delegate_implementation.Acl.{AclServer}
use delegate_implementation.Workspace.{Os}
use delegate_implementation.Dispatcher.Requests.{event_of, field_or, handle_data_request}
use delegate_implementation.Dispatcher.World.{World}
use delegate_implementation.Dispatcher.Authorization.{
  IsAuthorized, OnlyAudits, handle_data_request-guarded,
}
use delegate_implementation.Views.State.{ControlPlane, Response, refused, revocation, audited}

module _ (server : AclServer) where
  -- The first `try`: the Redis user.
  unfoldable pub revoke_acl :
      Delegate → Bool → ControlPlane server.State → Bool × ControlPlane server.State
  revoke_acl d redis_up cp =
      if redis_up
      then (let (deleted, acl') = Acl.revoke_delegate server d.id cp.acl in
          let removed = ltb 0 deleted in
          (
            removed,
            audited
                (event_of "REDIS_ACL_REVOKED" d.tenant_id d.id []
                  (lit "user_deleted=" ∷ bool removed ∷ lit " (open connections terminated)" ∷ []))
                (record cp { acl = acl' }),
          ))
      else (
        false,
        audited
            (event_of "REDIS_ACL_REVOKE_FAILED" d.tenant_id d.id []
              (exception connection_error ∷ []))
            cp,
      )

  -- The second `try`: the gateway.
  unfoldable pub disconnect_gateway :
      Delegate → Option Bool → ControlPlane server.State → Bool × ControlPlane server.State
  disconnect_gateway d (some disconnected) cp = (disconnected, cp)
  disconnect_gateway d none cp = (
    false,
    audited
        (event_of "GATEWAY_DISCONNECT_FAILED" d.tenant_id d.id [] (exception connection_error ∷ []))
        cp,
  )

  unfoldable pub revoke_delegate :
      Text → Bool → Option Bool → ControlPlane server.State → Response × ControlPlane server.State
  unfolding revoke_acl disconnect_gateway
  revoke_delegate delegate_id redis_up gateway cp =
      elim (find_delegate delegate_id cp.db.delegates) [
        | none ↦ (refused 404 (lit "not found" ∷ []), cp)
        | some d ↦
            let rows =
              update_delegates d.id (λ row. record row { status = revoked }) cp.db.delegates in
            let cp₁ =
              audited (event_of "DELEGATE_REVOKED" d.tenant_id d.id [] [])
                (record cp { db = record cp.db { delegates = rows } }) in
            let (removed, cp₂) = revoke_acl d redis_up cp₁ in
            let (disconnected, cp₃) = disconnect_gateway d gateway cp₂ in
            (revocation removed disconnected, cp₃)
      ]

pub find_delegate-id :
    (id : Text) (rows : List Delegate) (d : Delegate) → find_delegate id rows ≡ some d → d.id ≡ id
unfolding find_delegate
find_delegate-id id [] d h = absurd (ground arith)
find_delegate-id id (r ∷ rows) d h = ground (arith, text_eq_iff r.id id, find_delegate-id id rows d)

find_delegate-update_delegates :
    (key id : Text) (f : Delegate → Delegate) (rows : List Delegate)
    → ((row : Delegate) → (f row).id ≡ row.id)
    → find_delegate id (update_delegates key f rows) ≡ elim (find_delegate id rows) [
      | none ↦ none
      | some row ↦ some (if text_eq id key then f row else row)
    ]
unfolding find_delegate update_delegates
find_delegate-update_delegates key id f [] keeps = refl
find_delegate-update_delegates key id f (row ∷ rows) keeps = ground (
  arith,
  keeps row,
  text_eq_iff row.id key,
  text_eq_iff row.id id,
  text_eq_iff id key,
  find_delegate-update_delegates key id f rows keeps,
)

-- Revoking a delegate that exists marks its row as revoked whatever Redis and the gateway do, and
-- the Redis user is gone if Redis answers; other users stay.
pub revoke_delegate-revokes :
    (server : AclServer) (delegate_id other : Text) (redis_up : Bool) (gateway : Option Bool)
    (cp : ControlPlane server.State) (d : Delegate)
    → find_delegate delegate_id cp.db.delegates ≡ some d
    → let (r, cp') = revoke_delegate server delegate_id redis_up gateway cp in
      (find_delegate delegate_id cp'.db.delegates ≡ some (record d { status = revoked }))
      × (server.rules_of cp'.acl other ≡ (
          if redis_up
          then if text_eq delegate_id other then none else server.rules_of cp.acl other
          else server.rules_of cp.acl other))
unfolding revoke_delegate add_audit Acl.revoke_delegate
revoke_delegate-revokes server delegate_id other redis_up gateway cp d found = ground (
  arith,
  text_eq_iff delegate_id d.id,
  find_delegate-id delegate_id cp.db.delegates d,
  find_delegate-update_delegates d.id delegate_id (λ row. record row { status = revoked })
      cp.db.delegates (λ row. refl),
  server.rules_of-deluser d.id other cp.acl,
)

missing-not_found :
    (server : AclServer) (uuid : Text) (redis_up : Bool) (gateway : Option Bool)
    (cp : ControlPlane server.State) (d : Delegate)
    → find_delegate uuid cp.db.delegates ≡ none
    → find_delegate uuid (revoke_delegate server uuid redis_up gateway cp).1.db.delegates ≢ some d
unfolding revoke_delegate
missing-not_found server uuid redis_up gateway cp d missing h = ground arith

not_authorized :
    (p : Platform) (server : AclServer) (uuid : Text) (redis_up : Bool) (gateway : Option Bool)
    (cp : ControlPlane server.State) (w : World) (execution_id : Text) (fields : Fields)
    → p.to_uuid (field_or "delegate_id" fields []) ≡ some uuid
    → w.db.delegates ≡ (revoke_delegate server uuid redis_up gateway cp).1.db.delegates
    → ¬ IsAuthorized p w execution_id fields
not_authorized p server uuid redis_up gateway cp w execution_id fields named after a =
    let asks = a.asks in
    let live = a.is_active in
    let known : find_delegate uuid w.db.delegates ≡ some a.delegate = ground arith in
    let known' : find_delegate uuid (revoke_delegate server uuid redis_up gateway cp).1.db.delegates
        ≡ some a.delegate =
      ap (λ (rows : List Delegate). find_delegate uuid rows) (sym after) ∙ known in
    elim (Option-cases (find_delegate uuid cp.db.delegates)) [
      | inl unknown ↦ missing-not_found server uuid redis_up gateway cp a.delegate unknown known'
      | inr (d, found) ↦
          let e = (revoke_delegate-revokes server uuid uuid redis_up gateway cp d found).0 in
          absurd (ground arith)
    ]

-- From then on the dispatcher serves no request in the delegate's name: on a world whose delegates
-- are those that a revocation of the id has left, whatever Redis and the gateway have answered, and
-- whose other tables, files and streams are any, the handler of a DATA_REQUEST that names the id
-- sends nothing and changes no stream, file or row but the audit events, whatever else the request
-- says and whatever execution it asks for.
pub revoke_delegate-handle_data_request :
    (p : Platform) (server : AclServer) (os : Os) (uuid : Text) (redis_up : Bool)
    (gateway : Option Bool) (cp : ControlPlane server.State)
    (fixtures_dir execution_id events_key : Text) (fields : Fields) (fresh : Text) (w : World)
    → p.to_uuid (field_or "delegate_id" fields []) ≡ some uuid
    → w.db.delegates ≡ (revoke_delegate server uuid redis_up gateway cp).1.db.delegates
    → OnlyAudits w (handle_data_request p os fixtures_dir execution_id events_key fields fresh w).1
revoke_delegate-handle_data_request p server os uuid redis_up gateway cp fixtures_dir execution_id
      events_key fields fresh w named after =
    elim (handle_data_request-guarded p os fixtures_dir execution_id events_key fields fresh w) [
      | inl served ↦ absurd (
          not_authorized p server uuid redis_up gateway cp w execution_id fields named after served)
      | inr audits ↦ audits
    ]
