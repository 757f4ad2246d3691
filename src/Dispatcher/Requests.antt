-- ===== src/Dispatcher/Requests.antt =====
-- control_plane/delegates/management/commands/stream_dispatcher.py: the handlers of DATA_REQUEST,
-- LOG and STATUS messages. The lines that they print are left out.
use delegate_implementation.Base.{
  ℕ, ◌+◌, Text, codes, text_eq, lookup, insert, is_empty, [], ◌∷◌, Option, none, some, Bool, String,
  true, false, not, ◌&&◌, ◌||◌, if◌then◌else◌, Error, value_error,
}
use delegate_implementation.Platform.{Platform, Bytes, Fields}
use delegate_implementation.Workspace.{Os, zip_directory_to_bytes, zip_single_file_to_bytes}
use delegate_implementation.Transfer.Sender.{chunk_size, send_bytes}
use delegate_implementation.Models.{
  lit, val, repr, num, Detail, Delegate, DelegateStatus, active, revoked, Execution,
  ExecutionStatus, transferring, running, transfer_failed, failed, AuditEvent,
}
use delegate_implementation.Models.Tables.{add_log, update_executions, on_executions}
use delegate_implementation.Dispatcher.World.{
  M, ◌>>=◌, ◌>>◌, pure, throw, modify_db, audit, publish, get_execution, get_delegate,
  update_execution,
}

-- `fields.get(key, default)`
abbrev pub field_or : String → Fields → Text → Text
field_or key fields default = elim (lookup key fields) [ none ↦ default | some t ↦ t ]

unfoldable pub status_mapping : Text → Option ExecutionStatus
unfolding text_eq
status_mapping status =
    if text_eq status (codes "TRANSFERRING_INPUT")
    then some transferring
    else if text_eq status (codes "EXECUTING")
    then some running
    else if text_eq status (codes "TRANSFER_FAILED")
    then some transfer_failed
    else if text_eq status (codes "TASK_FAILED")
    then some failed
    else none

abbrev pub is_active : DelegateStatus → Bool
is_active active = true
is_active revoked = false

-- `str(execution.delegate_id)`
abbrev pub str_option : Option Text → Text
str_option none = codes "None"
str_option (some t) = t

-- The condition `authorized`, on the values that it tests.
unfoldable pub is_authorized : Option Delegate → Execution → Text → Text → Bool
is_authorized none execution tenant_id delegate_id = false
is_authorized (some delegate) execution tenant_id delegate_id =
    is_active delegate.status
    && (text_eq delegate.tenant_id tenant_id
        && (text_eq execution.tenant_id tenant_id
            && text_eq (str_option execution.delegate_id) delegate_id))

abbrev pub event_of : String → Text → Text → Text → Detail → AuditEvent
event_of event_type tenant_id delegate_id execution_id detail = record {
  event_type = event_type;
  tenant_id = tenant_id;
  delegate_id = delegate_id;
  execution_id = execution_id;
  detail = detail;
}

module _ (p : Platform) (os : Os) (fixtures_dir : Text) where
  -- `requested_file in ("*", "", None)`, and which archive answers it; `none` where the file is
  -- not found.
  unfoldable pub requested_zip : Text → Text → Option Bytes
  requested_zip fixture_dir requested_file =
      if text_eq requested_file (codes "*") || is_empty requested_file
      then some (zip_directory_to_bytes os fixture_dir)
      else zip_single_file_to_bytes os fixture_dir requested_file

  -- The part of `_handle_data_request` after the archive is made: the transfer, the row with
  -- `execution.save(update_fields=...)`, the audit.
  unfoldable pub send_workspace :
      Text → Text → Text → Text → Text → Execution → Bytes → M (Unit {0})
  send_workspace execution_id events_key tenant_id delegate_id fresh execution zip_bytes =
      let sent =
        send_bytes p chunk_size events_key zip_bytes
          (insert "tenant_id" tenant_id (insert "execution_id" execution_id [])) fresh in
      do
        publish sent.commands
        elim sent.outcome [
          | none ↦ throw value_error
          | some (transfer_id, _, total_size) ↦ do
            modify_db (
                on_executions (
                  update_executions execution.execution_id (λ row. record row {
                    status = transferring;
                    transfer_id = transfer_id;
                    transfer_attempts = execution.transfer_attempts + 1;
                  })))
            audit (
                event_of "WORKSPACE_TRANSFER_SENT" tenant_id delegate_id execution_id
                  (lit "transfer_id=" ∷ val transfer_id ∷ lit " size=" ∷ num total_size ∷ []))
        ]

  -- `fresh` is the `uuid.uuid4()` that the sender would draw.
  unfoldable pub handle_data_request : Text → Text → Fields → Text → M (Unit {0})
  unfolding requested_zip send_workspace
  handle_data_request execution_id events_key fields fresh =
      let tenant_id = field_or "tenant_id" fields [] in
      let delegate_id = field_or "delegate_id" fields [] in
      let requested_file = field_or "requested_file" fields (codes "*") in
      do
        found ← get_execution p execution_id
        elim found [
          | none ↦ pure tt
          | some execution ↦ do
            delegate ← get_delegate p delegate_id
            if not (is_authorized delegate execution tenant_id delegate_id)
                then audit (
                    event_of "DATA_REQUEST_REJECTED" tenant_id delegate_id execution_id
                      (lit "tenant/delegate ownership check failed" ∷ []))
                else elim (requested_zip (os.join fixtures_dir execution.workspace_fixture)
                    requested_file) [
                      | none ↦ audit (
                          event_of "DATA_REQUEST_FILE_NOT_FOUND" tenant_id delegate_id execution_id
                            (lit "requested_file="
                              ∷ repr requested_file
                              ∷ lit " not found in "
                              ∷ val execution.workspace_fixture
                              ∷ []))
                      | some zip_bytes ↦
                          send_workspace execution_id events_key tenant_id delegate_id fresh
                            execution zip_bytes
                    ]
        ]

module _ (p : Platform) where
  -- The foreign key is a UUID too.
  unfoldable pub handle_log : Text → Fields → ℕ → M (Unit {0})
  handle_log execution_id fields seq w = elim (p.to_uuid execution_id) [
    | none ↦ throw Error.validation_error w
    | some uuid ↦
        modify_db
          (add_log (record { execution_id = uuid; seq = seq; line = field_or "message" fields [] }))
          w
  ]

  unfoldable pub handle_status : Text → Fields → M (Unit {0})
  unfolding status_mapping
  handle_status execution_id fields =
      let status = field_or "status" fields [] in
      do
        audit (
            event_of "WORKER_STATUS" (field_or "tenant_id" fields [])
              (field_or "delegate_id" fields []) execution_id (val status ∷ []))
        elim (status_mapping status) [
          | none ↦ pure tt
          | some new_status ↦
              update_execution p execution_id (λ row. record row { status = new_status })
        ]
