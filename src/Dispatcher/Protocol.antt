-- ===== src/Dispatcher/Protocol.antt =====
-- The two receivers of the protocol: `_handle_output_message` of the dispatcher against
-- `ChunkReceiver` of the worker's side.
use delegate_implementation.Base.{
  Text, [], ◌∷◌, Option, none, some, true, length, ◌≡◌, arith, Result, ok, raise,
}
use delegate_implementation.Platform.{Platform, Bytes, Fields}
use delegate_implementation.Workspace.{Os}
use delegate_implementation.Transfer.Receiver.{
  Rx, initial, Reaction, next, failed, received, same_size, on_start, on_chunk, on_end, belongs,
  receive_message,
}
use delegate_implementation.Models
use delegate_implementation.Models.{lit, val, num, succeeded, Execution}
use delegate_implementation.Dispatcher.World.{
  World, M, ◌>>◌, pure, throw, audit, write_file, update_execution,
}
use delegate_implementation.Dispatcher.Requests.{event_of}
use delegate_implementation.Dispatcher.Output.{
  OutputState, is_valid_output, is_for, output_start, output_chunk, output_path, output_end,
  handle_output_message,
}

-- The receiver's variables that stand for the dispatcher's `state`, and back.
abbrev pub rx_of : Option OutputState → Rx
rx_of none = initial
rx_of (some st) = record {
  transfer_id = some st.transfer_id;
  total_size = some st.total_size;
  checksum_expected = some st.checksum;
  started = true;
  buf = st.buf;
  seen_seq = st.seen_seq;
}

abbrev pub state_of : Rx → Option OutputState
state_of rx = elim rx.transfer_id [
  | none ↦ none
  | some transfer_id ↦ elim rx.total_size [
    | none ↦ none
    | some total_size ↦ elim rx.checksum_expected [
      | none ↦ none
      | some checksum ↦ some (record {
        transfer_id = transfer_id;
        total_size = total_size;
        checksum = checksum;
        buf = rx.buf;
        seen_seq = rx.seen_seq;
      })
    ]
  ]
]

module _ (p : Platform) (os : Os) (media_root execution_id : Text) where
  -- The output is stored: the file, the row and the audit event.
  abbrev pub accept : Bytes → Text → M (Option OutputState)
  accept content checksum =
      let out_path = output_path p os media_root execution_id in
      do
        write_file out_path content
        update_execution p execution_id (λ row. record row {
          status = succeeded;
          output_path = out_path;
          output_checksum = checksum;
        })
        audit (
            event_of "OUTPUT_RECEIVED" [] [] execution_id
              (lit "path=" ∷ val out_path ∷ lit " size=" ∷ num (length content) ∷ []))
        pure none

  abbrev pub reject : M (Option OutputState)
  reject = do
    update_execution p execution_id (λ row. record row { status = Models.failed })
    audit (
        event_of "OUTPUT_VALIDATION_FAILED" [] [] execution_id
          (lit "size or checksum mismatch on output transfer" ∷ []))
    pure none

  -- What the dispatcher makes of a reaction of the receiver.
  abbrev pub finish : Option OutputState → Result Reaction → M (Option OutputState)
  finish state (raise e) = throw e
  finish state (ok (next rx progress)) = pure (state_of rx)
  finish state (ok (failed why)) = reject
  finish none (ok (received content transfer_id)) = pure none
  finish (some st) (ok (received content transfer_id)) = accept content st.checksum

  -- The dispatcher handles an output message exactly as the worker's receiver does: it keeps the
  -- same variables, raises the same exceptions, accepts what the receiver returns and rejects what
  -- the receiver fails on.
  pub handle_output_message-receive_message :
      (fields : Fields) (state : Option OutputState) (w : World)
      → handle_output_message p os media_root execution_id fields state w
        ≡ finish state (receive_message p (rx_of state) fields) w
  unfolding handle_output_message output_start output_chunk output_end receive_message on_start
      on_chunk on_end belongs is_for is_valid_output same_size
  handle_output_message-receive_message fields none w = ground arith
  handle_output_message-receive_message fields (some st) w = ground arith
