-- ===== src/Dispatcher/Lifecycle.antt =====
-- What a watcher may do to the execution that it watches: an abstract machine on the rows of the
-- executions and the stored files.
pub mod Handlers
pub mod Loop
use delegate_implementation.Base.{
  ℕ, ◌+◌, Text, codes, text_eq_iff, List, [], ◌∷◌, ◌++◌, Option, none, some, Option-cases,
  Bool-cases, Bool, true, false, ◌&&◌, if◌then◌else◌, leb, Result, ok, raise, ◌≡◌, ◌≢◌, ◌⊎◌, inl,
  inr, ap, arith,
}
use delegate_implementation.Platform.{Platform, Bytes, Fields}
use delegate_implementation.Streams.{StreamKeys}
use delegate_implementation.Workspace.{Os}
use delegate_implementation.Transfer.Sender.{sha256_bytes}
use delegate_implementation.Transfer.Receiver.{is_type}
use delegate_implementation.Models.{
  Execution, ExecutionStatus, is_terminal, queued, transferring, succeeded, failed,
}
use delegate_implementation.Models.Tables.{
  find_execution, update_executions, on_executions, add_audit, add_log,
}
use delegate_implementation.Dispatcher.World.{World, M, ◌>>=◌, ◌>>◌, pure, get_execution}
use delegate_implementation.Dispatcher.Requests.{
  field_or, status_mapping, requested_zip, handle_data_request, handle_log, handle_status,
}
use delegate_implementation.Dispatcher.Output.{
  OutputState, is_valid_output, is_for, output_start, output_chunk, output_path, output_end,
  handle_output_message,
}
use delegate_implementation.Dispatcher.Authorization.{
  handle_data_request-guarded, handle_data_request-answers, handle_data_request-not_found,
}
use delegate_implementation.Dispatcher.Success.{status_mapping-ne-succeeded, dispatch-world}
use delegate_implementation.Dispatcher.Watch.{
  Message, Watcher, Watching, running, returned, Head, gone, terminal, live, Reply, connection_lost,
  reply, Round, set_cursor, cleanup_execution_streams, first_watcher, dispatch, handle_messages,
  after_read, round_body, watch_round, give_up, watch_loop, watch_execution,
}

-- The part of the world that the machine is about.
pub record Ledger : Type 0 where
  pub rows : List Execution
  pub files : List (Text × Bytes)

abbrev pub ledger : World → Ledger
ledger w = record { rows = w.db.executions; files = w.files }

-- One step for the execution with a UUID, whose output goes to a path: nothing; a new transfer of
-- the workspace; a status that a worker reports, or FAILED for a bad output; an output that is
-- stored, with its checksum.
pub data Move (p : Platform) (path uuid : Text) (l l' : Ledger) : Type 0 where
  stay : l'.rows ≡ l.rows → l'.files ≡ l.files → Move p path uuid l l'
  send :
      (row : Execution) (transfer_id : Text)
      → find_execution uuid l.rows ≡ some row
      → l'.rows
        ≡ update_executions uuid
            (λ e. record e {
              status = transferring;
              transfer_id = transfer_id;
              transfer_attempts = row.transfer_attempts + 1;
            })
            l.rows
      → l'.files ≡ l.files
      → Move p path uuid l l'
  report :
      (status : ExecutionStatus)
      → status ≢ queued
      → status ≢ succeeded
      → l'.rows ≡ update_executions uuid (λ e. record e { status = status }) l.rows
      → l'.files ≡ l.files
      → Move p path uuid l l'
  store :
      (content : Bytes)
      → l'.rows
        ≡ update_executions uuid
            (λ e. record e {
              status = succeeded;
              output_path = path;
              output_checksum = sha256_bytes p content;
            })
            l.rows
      → l'.files ≡ l.files ++ (path, content) ∷ []
      → Move p path uuid l l'

-- A run of the machine.
pub data Moves (p : Platform) (path uuid : Text) : Ledger → Ledger → Type 0 where
  done : (l : Ledger) → Moves p path uuid l l
  more : (l m n : Ledger) → Move p path uuid l m → Moves p path uuid m n → Moves p path uuid l n
