-- ===== src/Dispatcher/Announcements.antt =====
-- control_plane/delegates/management/commands/stream_dispatcher.py: `Command.handle`, the loop over
-- the announcements of the global stream. Which threads are alive is an input.
use delegate_implementation.Base.{
  Text, codes, text_eq, is_empty, lookup, List, [], ◌∷◌, ◌++◌, Option, none, some, Bool, false, not,
  ◌&&◌, keep, if◌then◌else◌,
}
use delegate_implementation.Platform.{Platform, Fields}
use delegate_implementation.Streams.{StreamKeys, stream_keys}
use delegate_implementation.Transfer.Receiver.{is_type, same_text}
use delegate_implementation.Models.{lit, options, Execution}
use delegate_implementation.Dispatcher.World.{M, ◌>>=◌, ◌>>◌, pure, audit, get_execution}
use delegate_implementation.Dispatcher.Requests.{event_of}

-- A watcher thread: the arguments that it was started with.
pub record Thread : Type 0 where
  pub execution_id : Text
  pub keys : StreamKeys

-- The variables of the loop. `started` lists every thread that was ever started.
pub record MainLoop : Type 0 where
  pub watched : List (Text × Thread)
  pub started : List Thread
  pub last_id : Text

-- `_announced_keys(fields)`
unfoldable pub announced_keys : Fields → List (Option Text)
announced_keys fields =
    lookup "events_stream" fields
    ∷ lookup "log_stream" fields
    ∷ lookup "status_stream" fields
    ∷ lookup "output_stream" fields
    ∷ []

-- `_announced_keys(fields) == keys`
unfoldable pub announces : Fields → StreamKeys → Bool
unfolding same_text
announces fields keys =
    same_text (lookup "events_stream" fields) (some keys.events)
    && (same_text (lookup "log_stream" fields) (some keys.log)
        && (same_text (lookup "status_stream" fields) (some keys.status)
            && same_text (lookup "output_stream" fields) (some keys.output)))

-- `existing is not None and existing.is_alive()`
unfoldable pub is_watched : (Thread → Bool) → Text → List (Text × Thread) → Bool
is_watched alive id [] = false
is_watched alive id ((k, t) ∷ rest) = if text_eq k id then alive t else is_watched alive id rest

-- `watched[execution_id] = t`
unfoldable pub set_watched : Text → Thread → List (Text × Thread) → List (Text × Thread)
set_watched id t [] = (id, t) ∷ []
set_watched id t ((k, old) ∷ rest) =
    if text_eq k id then (k, t) ∷ rest else (k, old) ∷ set_watched id t rest

-- `{k: v for k, v in watched.items() if v.is_alive()}`
unfoldable pub drop_dead : (Thread → Bool) → List (Text × Thread) → List (Text × Thread)
drop_dead alive = keep (λ e. alive e.1)

module _ (p : Platform) (alive : Thread → Bool) where
  -- The execution is there and has a delegate: its streams are derived from the row, a deviating
  -- announcement is audited, and a watcher is started.
  unfoldable pub attach : Text → Fields → Execution → Text → MainLoop → M MainLoop
  unfolding announces announced_keys
  attach execution_id fields execution delegate_id s =
      let keys = stream_keys execution_id delegate_id in
      let t : Thread = record { execution_id = execution_id; keys = keys } in
      let s' = record s {
        watched = set_watched execution_id t s.watched;
        started = s.started ++ t ∷ [];
      } in
      if announces fields keys
      then pure s'
      else (audit (
            event_of "ANNOUNCEMENT_STREAM_MISMATCH" execution.tenant_id delegate_id execution_id
              (lit "announced=" ∷ options (announced_keys fields) ∷ []))
          >> pure s')

  -- The row, after the query.
  unfoldable pub attach_found : Text → Fields → Option Execution → MainLoop → M MainLoop
  attach_found execution_id fields none s = pure s
  attach_found execution_id fields (some execution) s = elim execution.delegate_id [
    | none ↦ pure s
    | some delegate_id ↦ attach execution_id fields execution delegate_id s
  ]

  unfoldable pub announce : Text → Fields → MainLoop → M MainLoop
  announce execution_id fields s =
      if is_watched alive execution_id s.watched
      then pure s
      else (get_execution p execution_id >>= λ found. attach_found execution_id fields found s)

  -- One message of the global stream.
  unfoldable pub handle_announcement : Text → Fields → MainLoop → M MainLoop
  handle_announcement msg_id fields s =
      let s' = record s { last_id = msg_id } in
      if not (is_type fields (codes "EXECUTION_STARTED"))
      then pure s'
      else elim (lookup "execution_id" fields) [
        | none ↦ pure s'
        | some execution_id ↦
            if is_empty execution_id then pure s' else announce execution_id fields s'
      ]

  unfoldable pub handle_announcements : List (Text × Fields) → MainLoop → M MainLoop
  handle_announcements [] s = pure (record s { watched = drop_dead alive s.watched })
  handle_announcements ((msg_id, fields) ∷ rest) s =
      handle_announcement msg_id fields s >>= handle_announcements rest
