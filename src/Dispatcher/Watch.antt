-- ===== src/Dispatcher/Watch.antt =====
-- control_plane/delegates/management/commands/stream_dispatcher.py: `watch_execution`, one watcher.
-- The clock at the head of each round, and what XREAD does in it, are the input.
use delegate_implementation.Base.{
  ℕ, ◌+◌, Text, codes, text_eq, List, [], ◌∷◌, ◌++◌, Option, none, some, ◌&&◌, if◌then◌else◌, leb,
  ok,
}
use delegate_implementation.Platform.{Platform, Fields}
use delegate_implementation.Workspace.{Os}
use delegate_implementation.Streams.{StreamKeys}
use delegate_implementation.Transfer.Receiver.{is_type}
use delegate_implementation.Models.{lit, num, texts, Execution, is_terminal}
use delegate_implementation.Dispatcher.World.{M, ◌>>=◌, ◌>>◌, pure, audit, get_execution}
use delegate_implementation.Dispatcher.Requests.{
  event_of, handle_data_request, handle_log, handle_status,
}
use delegate_implementation.Dispatcher.Output.{OutputState, handle_output_message}

-- One message of a reply; `fresh` is the UUID that is drawn if a transfer is sent for it.
pub record Message : Type 0 where
  pub stream_key : Text
  pub id : Text
  pub fields : Fields
  pub fresh : Text

-- What XREAD does: the connection is lost, or a reply (an empty one after the block time).
pub data Reply : Type 0 where
  connection_lost : Reply
  reply : List Message → Reply

pub record Round : Type 0 where
  pub now : ℕ
  pub answer : Reply

-- The watcher's own variables. A cursor is the last id read of a stream.
pub record Watcher : Type 0 where
  pub last_ids : List (Text × Text)
  pub log_seq : ℕ
  pub output_state : Option OutputState

abbrev pub values : StreamKeys → List Text
values keys = keys.events ∷ keys.log ∷ keys.status ∷ keys.output ∷ []

unfoldable pub set_cursor : Text → Text → List (Text × Text) → List (Text × Text)
set_cursor key id [] = (key, id) ∷ []
set_cursor key id ((k, old) ∷ rest) =
    if text_eq k key then (k, id) ∷ rest else (k, old) ∷ set_cursor key id rest

unfoldable pub first_watcher : StreamKeys → Watcher
first_watcher keys = record {
  last_ids =
      (keys.events, codes "0")
      ∷ (keys.log, codes "0")
      ∷ (keys.status, codes "0")
      ∷ (keys.output, codes "0")
      ∷ [];
  log_seq = 0;
  output_state = none;
}

-- How a watcher stands after some rounds: in its loop, or it has returned.
pub data Watching : Type 0 where
  running : Watcher → Watching
  returned : Watching

-- What the head of the loop finds in the table.
pub data Head : Type 0 where
  gone terminal live : Head

module _ (execution_id : Text) where
  unfoldable pub cleanup_execution_streams : StreamKeys → M (Unit {0})
  cleanup_execution_streams keys = do
    λ w. (ok tt, record w { deleted = w.deleted ++ values keys ∷ [] })
    audit
        (event_of "STREAMS_CLEANED" [] [] execution_id (lit "deleted " ∷ texts (values keys) ∷ []))

module _ (p : Platform) (os : Os) (fixtures_dir media_root execution_id : Text)
    (keys : StreamKeys) where
  -- The branches on stream and type.
  unfoldable pub dispatch : Message → Watcher → M Watcher
  dispatch m s =
      if text_eq m.stream_key keys.events && is_type m.fields (codes "DATA_REQUEST")
      then (handle_data_request p os fixtures_dir execution_id keys.events m.fields m.fresh
          >> pure s)
      else if text_eq m.stream_key keys.log && is_type m.fields (codes "LOG")
      then (handle_log p execution_id m.fields (s.log_seq + 1)
          >> pure (record s { log_seq = s.log_seq + 1 }))
      else if text_eq m.stream_key keys.status && is_type m.fields (codes "STATUS")
      then (handle_status p execution_id m.fields >> pure s)
      else if text_eq m.stream_key keys.output
      then (handle_output_message p os media_root execution_id m.fields s.output_state
          >>= λ output_state. pure (record s { output_state = output_state }))
      else pure s

  unfoldable pub handle_messages : List Message → Watcher → M Watcher
  handle_messages [] s = pure s
  handle_messages (m ∷ ms) s = do
    s' ← dispatch m (record s { last_ids = set_cursor m.stream_key m.id s.last_ids })
    handle_messages ms s'

  unfoldable pub after_read : Reply → Watcher → M Watcher
  after_read connection_lost s = pure s
  after_read (reply messages) s = handle_messages messages s

  abbrev head_of : Option Execution → Head
  head_of none = gone
  head_of (some execution) = if is_terminal execution.status then terminal else live

  unfoldable pub round_body : Reply → Watcher → Option Execution → M Watching
  round_body answer s found = elim (head_of found) [
    | gone ↦ pure returned
    | terminal ↦ do cleanup_execution_streams execution_id keys; pure returned
    | live ↦ do s' ← after_read answer s; pure (running s')
  ]

  -- The body of the loop, for a round that starts before the deadline.
  unfoldable pub watch_round : Reply → Watcher → M Watching
  unfolding round_body
  watch_round answer s = do found ← get_execution p execution_id; round_body answer s found

  unfoldable pub give_up : ℕ → M Watching
  give_up max_lifetime_seconds = do
    audit (
        event_of "DISPATCHER_WATCH_TIMED_OUT" [] [] execution_id
          (lit "no terminal status reached within " ∷ num max_lifetime_seconds ∷ lit "s" ∷ []))
    cleanup_execution_streams execution_id keys
    pure returned

  unfoldable pub watch_loop : ℕ → ℕ → List Round → Watcher → M Watching
  watch_loop max_lifetime_seconds deadline [] s = pure (running s)
  watch_loop max_lifetime_seconds deadline (r ∷ rounds) s =
      if leb deadline r.now then give_up max_lifetime_seconds else do
        stand ← watch_round r.answer s
        elim stand [
          | running s' ↦ watch_loop max_lifetime_seconds deadline rounds s'
          | returned ↦ pure returned
        ]

  -- `watch_execution`, started when the clock reads `start`.
  unfoldable pub watch_execution : ℕ → ℕ → List Round → M Watching
  watch_execution max_lifetime_seconds start rounds =
      watch_loop max_lifetime_seconds (start + max_lifetime_seconds) rounds (first_watcher keys)
