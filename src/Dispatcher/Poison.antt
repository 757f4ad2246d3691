-- ===== src/Dispatcher/Poison.antt =====
-- An announcement whose execution id is no UUID, on the global stream that the main loop reads.
use delegate_implementation.Base.{
  Text, codes, is_empty, lookup, List, [], ◌∷◌, ◌++◌, none, some, Bool, true, false, ◌≡◌, inl, inr,
  arith, raise, validation_error,
}
use delegate_implementation.Platform.{Platform, Fields}
use delegate_implementation.Transfer.Receiver.{is_type}
use delegate_implementation.Acl.{AclServer}
use delegate_implementation.Dispatcher.World.{World}
use delegate_implementation.Dispatcher.Announcements.{
  Thread, MainLoop, announce, handle_announcement, handle_announcements,
}
use delegate_implementation.Dispatcher.Main.{
  Main, Turn, lost, replied, changed, reconcile_once, run_turns,
}
use delegate_implementation.Dispatcher.Known.{
  IsKnown, IsKnown-is_watched, handle_announcement-GoesOn, handle_announcements-GoesOn,
}

module _ (p : Platform) where
  module _ (alive : Thread → Bool) where
    module _ (msg_id id : Text) (fields : Fields)
        (started : is_type fields (codes "EXECUTION_STARTED") ≡ true)
        (named : lookup "execution_id" fields ≡ some id) (filled : is_empty id ≡ false)
        (bad : p.to_uuid id ≡ none) where
      handle_announcement-raises :
          (s : MainLoop) (w : World)
          → IsKnown p s.watched
          → (handle_announcement p alive msg_id fields s w).0 ≡ raise validation_error
      unfolding handle_announcement announce
      handle_announcement-raises s w known =
          let new = IsKnown-is_watched p alive id s.watched bad known in ground arith

      handle_announcements-raises :
          (before after : List (Text × Fields)) (s : MainLoop) (w : World)
          → IsKnown p s.watched
          → (handle_announcements p alive (before ++ (msg_id, fields) ∷ after) s w).0
            ≡ raise validation_error
      unfolding handle_announcements
      handle_announcements-raises [] after s w known =
          ground (arith, handle_announcement-raises s w known)
      handle_announcements-raises ((first_id, first) ∷ before) after s w known =
          let (r, w') = handle_announcement p alive first_id first s w in
          elim (handle_announcement-GoesOn p alive first_id first s w known) [
            | inl raised ↦ ground arith
            | inr (s', went, known') ↦
                ground (arith, handle_announcements-raises before after s' w' known')
          ]

  module _ (server : AclServer) (alive : Thread → Bool) (before after : List (Text × Fields))
      (msg_id id : Text) (fields : Fields) (later : List (Turn server))
      (started : is_type fields (codes "EXECUTION_STARTED") ≡ true)
      (named : lookup "execution_id" fields ≡ some id) (filled : is_empty id ≡ false)
      (bad : p.to_uuid id ≡ none) where
    abbrev poisoned : Turn server
    poisoned = replied alive (before ++ (msg_id, fields) ∷ after)

    run_turns-raises :
        (earlier : List (Turn server)) (s : Main server)
        → IsKnown p s.loop.watched
        → (run_turns server p (earlier ++ poisoned ∷ later) s).0 ≡ some validation_error
    unfolding run_turns
    run_turns-raises [] s known =
        let raised =
          handle_announcements-raises alive msg_id id fields started named filled bad before after
            s.loop s.world known in
        ground arith
    run_turns-raises (lost a ∷ turns) s known =
        run_turns-raises turns (record s { acl = reconcile_once server a s.world.db s.acl }) known
    run_turns-raises (changed w acl ∷ turns) s known =
        run_turns-raises turns (record s { world = w; acl = acl }) known
    run_turns-raises (replied alive₁ messages ∷ turns) s known =
        let (r, w) = handle_announcements p alive₁ messages s.loop s.world in
        elim (handle_announcements-GoesOn p alive₁ messages s.loop s.world known) [
          | inl raised ↦ ground arith
          | inr (loop, went, known') ↦
              ground (arith, run_turns-raises turns (record s { world = w; loop = loop }) known')
        ]

-- One announcement whose execution id is not empty and no UUID ends the dispatcher's main loop
-- with ValidationError. From the start of the process, where nothing is watched, this holds whatever
-- the tables and the Redis users are, and whatever comes earlier, in the same reply or later: lost
-- connections, replies with any announcements and any threads alive, changes of the tables and of the
-- users.
pub run_turns-poisoned :
    (p : Platform) (server : AclServer) (earlier later : List (Turn server)) (alive : Thread → Bool)
    (before after : List (Text × Fields)) (msg_id id : Text) (fields : Fields) (s : Main server)
    → s.loop.watched ≡ []
    → is_type fields (codes "EXECUTION_STARTED") ≡ true
    → lookup "execution_id" fields ≡ some id
    → is_empty id ≡ false
    → p.to_uuid id ≡ none
    → (run_turns server p
        (earlier ++ replied alive (before ++ (msg_id, fields) ∷ after) ∷ later)
        s).0
      ≡ some validation_error
run_turns-poisoned p server earlier later alive before after msg_id id fields s new started named
      filled bad =
    run_turns-raises p server alive before after msg_id id fields later started named filled bad
      earlier s (rw new tt)
