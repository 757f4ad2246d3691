-- ===== src/Worker.antt =====
-- worker/worker_app/tasks.py: what the worker publishes. The f-strings of its log lines are lists
-- of pieces; the replies of Redis to every attempt are an input.
pub mod Directories
pub mod Retries
pub mod Stub
pub mod Tasks
pub mod Execution
pub mod Leftovers
pub mod Raised
pub mod Recovery
mod Tests
use delegate_implementation.Base.{
  ℕ, zero, suc, ◌+◌, Text, codes, is_empty, insert, List, [], ◌∷◌, ◌++◌, Option, none, some, Bool,
  true, false, length, Error, if◌then◌else◌,
}
use delegate_implementation.Platform.{Platform, Bytes, Fields}
use delegate_implementation.Streams.{StreamKeys}
use delegate_implementation.Models.{lit, val, num, Detail}
use delegate_implementation.Dispatcher.Requests.{str_option}
use delegate_implementation.Transfer.Receiver.{Failure, timeout, size_mismatch, checksum_mismatch}
use delegate_implementation.Transfer.Loop.{
  Poll, waiting, completed, transfer_failed, raised, receive_once,
}

-- What a message says besides `base_fields`.
pub data Body : Type 0 where
  log : Detail → Body
  status : Text → Body
  data_request : Text → Body
  execution_started : Text → StreamKeys → Body
  -- the fields of a message of `ChunkSender`
  transfer : Fields → Body

-- One `r.xadd(stream_key, {**base_fields, ...})`.
pub record Publish : Type 0 where
  pub stream_key : Text
  pub base_fields : Fields
  pub body : Body

unfoldable pub publish_log : Text → Fields → Detail → Publish
publish_log log_key base_fields message = record {
  stream_key = log_key;
  base_fields = base_fields;
  body = log message;
}

unfoldable pub publish_status : Text → Fields → Text → Publish
publish_status status_key base_fields s = record {
  stream_key = status_key;
  base_fields = base_fields;
  body = status s;
}

-- The fields of a DATA_REQUEST.
unfoldable pub request_fields : Fields → Text → Fields
request_fields base_fields requested_file =
    insert "requested_file" requested_file (insert "type" (codes "DATA_REQUEST") base_fields)

-- What one call of `receive_once` meets: the clock when it starts, and its polls.
pub record Attempt : Type 0 where
  pub start : ℕ
  pub polls : List Poll

-- How `_receive_workspace` ends: `True` with the content extracted, `False`, an exception of a
-- message or of `extract_zip_bytes`; `pending` where the input ends before.
pub data Reception : Type 0 where
  extracted : Bytes → Reception
  gave_up bad_zip pending : Reception
  crashed : Error → Reception

pub record Run : Type 0 where
  pub sent : List Publish
  pub reception : Reception

abbrev pub after : List Publish → Run → Run
after sent run = record run { sent = sent ++ run.sent }

abbrev pub ends : List Publish → Reception → Run
ends sent reception = record { sent = sent; reception = reception }

-- `str(exc)` of a `TransferFailed`; the sizes of a mismatch are left out.
abbrev pub failure_text : Failure → Detail
failure_text timeout = lit "timeout waiting for transfer progress" ∷ []
failure_text size_mismatch = lit "size mismatch" ∷ []
failure_text checksum_mismatch = lit "checksum mismatch" ∷ []

module _ (p : Platform) (wait_timeout max_retries : ℕ) (is_zip : Bytes → Bool) (keys : StreamKeys)
    (base_fields : Fields) (requested_file : Text) where
  -- The two messages that an attempt begins with.
  unfoldable pub request : ℕ → List Publish
  request attempt =
      record {
        stream_key = keys.events;
        base_fields = base_fields;
        body = data_request requested_file;
      }
      ∷ publish_log keys.log base_fields (
          lit "DATA_REQUEST sent (attempt "
          ∷ num attempt
          ∷ lit "/"
          ∷ num max_retries
          ∷ lit ")"
          ∷ [])
      ∷ []

  abbrev pub retry_line : ℕ → Failure → Publish
  retry_line attempt why = publish_log keys.log base_fields (
      lit "transfer attempt " ∷ num attempt ∷ lit " failed: " ∷ failure_text why
      ++ lit "; retrying from scratch" ∷ [])

  abbrev pub extracted_line : Bytes → Option Text → Publish
  extracted_line content transfer_id = publish_log keys.log base_fields (
      lit "workspace transfer "
      ∷ val (str_option transfer_id)
      ∷ lit " validated and extracted ("
      ∷ num (length content)
      ∷ lit " bytes)"
      ∷ [])

  -- The loop from `attempt` on, with `left` attempts left.
  unfoldable pub receive_from : ℕ → ℕ → Text → List Attempt → Run
  receive_from zero attempt last_id attempts = ends [] gave_up
  receive_from (suc left) attempt last_id [] = ends (request attempt) pending
  receive_from (suc left) attempt last_id (a ∷ attempts) =
      elim (receive_once p wait_timeout last_id a.start a.polls) [
        | waiting s ↦ ends (request attempt) pending
        | completed content last_id' transfer_id ↦
            if is_zip content
            then ends (request attempt ++ extracted_line content transfer_id ∷ [])
                (extracted content)
            else ends (request attempt) bad_zip
        | transfer_failed why last_id' ↦ after (request attempt ++ retry_line attempt why ∷ []) (
            receive_from left (attempt + 1) (if is_empty last_id' then last_id else last_id')
              attempts)
        | raised error ↦ ends (request attempt) (crashed error)
      ]

  unfoldable pub receive_workspace : List Attempt → Run
  receive_workspace = receive_from max_retries 1 (codes "0")
