-- ===== src/Dispatcher/Main.antt =====
-- control_plane/delegates/management/commands/stream_dispatcher.py: `_reconcile_acls`,
-- `_reconcile_acls_when_back` and the endless loop of `Command.handle`. Whether Redis answers, what
-- it delivers, and what the rest of the control plane does meanwhile, are the input.
use delegate_implementation.Base.{
  Text, List, [], ◌∷◌, map, keep, Option, none, some, Bool, if◌then◌else◌, Error, ok, raise,
}
use delegate_implementation.Platform.{Platform, Fields}
use delegate_implementation.Models.{Db, Delegate}
use delegate_implementation.Acl.{AclServer, reconcile}
use delegate_implementation.Dispatcher.World.{World}
use delegate_implementation.Dispatcher.Requests.{is_active}
use delegate_implementation.Dispatcher.Announcements.{Thread, MainLoop, handle_announcements}

-- `Delegate.objects.filter(status=STATUS_ACTIVE).values_list("id", flat=True)`
unfoldable pub active_ids : List Delegate → List Text
active_ids rows = map (λ d. d.id) (keep (λ d. is_active d.status) rows)

-- One attempt to reconcile: whether Redis answers, and the passwords that would be drawn.
pub record Attempt : Type 0 where
  pub redis_up : Bool
  pub password : Text → Text

module _ (server : AclServer) where
  unfoldable pub reconcile_acls : (Text → Text) → Db → server.State → server.State
  unfolding active_ids
  reconcile_acls password db acl = reconcile server password (active_ids db.delegates) acl

  -- `_reconcile_acls_when_back(retry_forever=True)`; `none` while it still waits.
  unfoldable pub reconcile_until : List Attempt → Db → server.State → Option server.State
  unfolding reconcile_acls
  reconcile_until [] db acl = none
  reconcile_until (a ∷ attempts) db acl =
      let rest = reconcile_until attempts db acl in
      if a.redis_up then some (reconcile_acls a.password db acl) else rest

  -- `_reconcile_acls_when_back()`
  unfoldable pub reconcile_once : Attempt → Db → server.State → server.State
  unfolding reconcile_acls
  reconcile_once a db acl = if a.redis_up then reconcile_acls a.password db acl else acl

  -- What the loop acts on.
  pub record Main : Type 0 where
    pub world : World
    pub acl : server.State
    pub loop : MainLoop

  -- One turn of the loop: the connection is lost, and then Redis may be back; or a reply. Between two
  -- turns the tables and the users may have changed.
  pub data Turn : Type 0 where
    lost : Attempt → Turn
    replied : (Thread → Bool) → List (Text × Fields) → Turn
    changed : World → server.State → Turn

  module _ (p : Platform) where
    -- The loop; with the exception that ends it, if one does.
    unfoldable pub run_turns : List Turn → Main → Option Error × Main
    unfolding reconcile_once
    run_turns [] s = (none, s)
    run_turns (lost a ∷ turns) s =
        run_turns turns (record s { acl = reconcile_once a s.world.db s.acl })
    run_turns (changed w acl ∷ turns) s = run_turns turns (record s { world = w; acl = acl })
    run_turns (replied alive messages ∷ turns) s =
        let (r, w) = handle_announcements p alive messages s.loop s.world in
        elim r [
          | raise e ↦ (some e, record s { world = w })
          | ok loop ↦ run_turns turns (record s { world = w; loop = loop })
        ]
