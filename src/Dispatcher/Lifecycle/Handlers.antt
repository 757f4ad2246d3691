-- ===== src/Dispatcher/Lifecycle/Handlers.antt =====
-- Each message that a watcher handles is one step of the machine.
use delegate_implementation.Base.{
  ℕ, ◌+◌, Text, codes, text_eq_iff, List, [], ◌∷◌, Option, none, some, Option-cases, Bool-cases,
  true, ◌&&◌, ◌≡◌, ◌≢◌, ◌⊎◌, inl, inr, ap, arith,
}
use delegate_implementation.Platform.{Platform, Fields}
use delegate_implementation.Streams.{StreamKeys}
use delegate_implementation.Workspace.{Os}
use delegate_implementation.Transfer.Sender.{sha256_bytes}
use delegate_implementation.Transfer.Receiver.{is_type}
use delegate_implementation.Models.{Execution, queued, failed}
use delegate_implementation.Models.Tables.{find_execution, on_executions, add_audit, add_log}
use delegate_implementation.Dispatcher.World.{World}
use delegate_implementation.Dispatcher.Requests.{
  field_or, status_mapping, requested_zip, handle_data_request, handle_log, handle_status,
}
use delegate_implementation.Dispatcher.Output.{
  OutputState, is_valid_output, is_for, output_start, output_chunk, output_path, output_end,
  handle_output_message,
}
use delegate_implementation.Dispatcher.Authorization.{
  handle_data_request-guarded, handle_data_request-answers, handle_data_request-not_found,
}
use delegate_implementation.Dispatcher.Success.{status_mapping-ne-succeeded, dispatch-world}
use delegate_implementation.Dispatcher.Watch.{Message, Watcher, dispatch}
use delegate_implementation.Dispatcher.Lifecycle.{ledger, Move, stay, send, report, store}

find_execution-key :
    (id : Text) (rows : List Execution) (e : Execution)
    → find_execution id rows ≡ some e
    → e.execution_id ≡ id
unfolding find_execution
find_execution-key id [] e h = absurd (ground arith)
find_execution-key id (r ∷ rows) e h =
    ground (arith, text_eq_iff r.execution_id id, find_execution-key id rows e)

status_mapping-ne-queued : (t : Text) → status_mapping t ≢ some queued
unfolding status_mapping
status_mapping-ne-queued t h = ground arith

module _ (p : Platform) (os : Os) (fixtures_dir media_root execution_id uuid : Text)
    (known : p.to_uuid execution_id ≡ some uuid) where
  abbrev path : Text
  path = output_path p os media_root execution_id

  handle_status-Move :
      (fields : Fields) (w : World)
      → Move p path uuid (ledger w) (ledger (handle_status p execution_id fields w).1)
  unfolding handle_status add_audit on_executions
  handle_status-Move fields w = elim (Option-cases (status_mapping (field_or "status" fields []))) [
    | inl other ↦ stay (ground arith) (ground arith)
    | inr (status, mapped) ↦
        report status (λ e. status_mapping-ne-queued (field_or "status" fields []) (cc))
          (λ e. status_mapping-ne-succeeded (field_or "status" fields []) (cc)) (ground arith)
          (ground arith)
  ]

  handle_log-Move :
      (fields : Fields) (seq : ℕ) (w : World)
      → Move p path uuid (ledger w) (ledger (handle_log p execution_id fields seq w).1)
  unfolding handle_log add_log
  handle_log-Move fields seq w = stay (ground arith) (ground arith)

  handle_data_request-files :
      (events_key fresh : Text) (fields : Fields) (w : World)
      → (handle_data_request p os fixtures_dir execution_id events_key fields fresh w).1.files
        ≡ w.files
  unfolding handle_data_request add_audit on_executions
  handle_data_request-files events_key fresh fields w = ground arith

  handle_data_request-Move :
      (events_key fresh : Text) (fields : Fields) (w : World)
      → Move p path uuid
          (ledger w)
          (ledger (handle_data_request p os fixtures_dir execution_id events_key fields fresh w).1)
  handle_data_request-Move events_key fresh fields w =
      elim (handle_data_request-guarded p os fixtures_dir execution_id events_key fields fresh w) [
        | inr nothing ↦ stay nothing.executions nothing.files
        | inl a ↦
            let there : find_execution uuid w.db.executions ≡ some a.execution =
              ground (arith, a.asked) in
            elim (Option-cases (
              requested_zip p os fixtures_dir (os.join fixtures_dir a.execution.workspace_fixture)
                (field_or "requested_file" fields (codes "*")))) [
                  | inl missing ↦
                      let nothing =
                        handle_data_request-not_found p os fixtures_dir execution_id events_key
                          fields fresh w a missing in
                      stay nothing.executions nothing.files
                  | inr (z, made) ↦
                      let answered =
                        handle_data_request-answers p os fixtures_dir execution_id events_key fields
                          fresh w a z made in
                      send a.execution fresh there
                        (rw (← find_execution-key uuid w.db.executions a.execution there)
                          answered.2)
                        (handle_data_request-files events_key fresh fields w)
                ]
      ]

  valid-checksum :
      (st : OutputState) → is_valid_output p st ≡ true → st.checksum ≡ sha256_bytes p st.buf
  unfolding is_valid_output
  valid-checksum st h = ground (arith, text_eq_iff (sha256_bytes p st.buf) st.checksum)

  output_end-Move :
      (st : OutputState) (w : World)
      → Move p path uuid (ledger w) (ledger (output_end p os media_root execution_id st w).1)
  unfolding output_end add_audit on_executions
  output_end-Move st w = elim (Bool-cases (is_valid_output p st)) [
    | inl valid ↦ store st.buf (rw (← valid-checksum st valid) (ground arith)) (ground arith)
    | inr invalid ↦
        report failed (λ e. absurd (ground arith)) (λ e. absurd (ground arith)) (ground arith)
          (ground arith)
  ]

  -- Only the end of a transfer in progress does anything to the world.
  handle_output_message-world :
      (fields : Fields) (state : Option OutputState) (w : World)
      → let w' = (handle_output_message p os media_root execution_id fields state w).1 in
        (w' ≡ w) ⊎ ((st : OutputState) × (w' ≡ (output_end p os media_root execution_id st w).1))
  unfolding handle_output_message output_start output_chunk
  handle_output_message-world fields none w = inl (ground arith)
  handle_output_message-world fields (some st) w =
      elim (Bool-cases (is_type fields (codes "DATA_START"))) [
        | inl start ↦ inl (ground arith)
        | inr other ↦ elim (Bool-cases (is_type fields (codes "DATA_CHUNK") && is_for st fields)) [
          | inl chunk ↦ inl (ground arith)
          | inr no_chunk ↦
              elim (Bool-cases (is_type fields (codes "DATA_END") && is_for st fields)) [
                | inl end ↦ inr (st, ground arith)
                | inr nothing ↦ inl (ground arith)
              ]
        ]
      ]

  same-Move : (w w' : World) → w' ≡ w → Move p path uuid (ledger w) (ledger w')
  same-Move w w' e = stay (ap (λ (v : World). v.db.executions) e) (ap (λ (v : World). v.files) e)

  handle_output_message-Move :
      (fields : Fields) (state : Option OutputState) (w : World)
      → Move p path uuid
          (ledger w)
          (ledger (handle_output_message p os media_root execution_id fields state w).1)
  handle_output_message-Move fields state w = elim (handle_output_message-world fields state w) [
    | inl same ↦ same-Move w _ same
    | inr (st, ended) ↦ rw ended (output_end-Move st w)
  ]

  module _ (keys : StreamKeys) where
    -- Each message is one step, also where its handler raises.
    pub dispatch-Move :
        (m : Message) (s : Watcher) (w : World)
        → Move p path uuid
            (ledger w)
            (ledger (dispatch p os fixtures_dir media_root execution_id keys m s w).1)
    dispatch-Move m s w =
        elim (dispatch-world p os fixtures_dir media_root execution_id keys m s w) [
          | inl e ↦ rw e (handle_data_request-Move keys.events m.fresh m.fields w)
          | inr (inl e) ↦ rw e (handle_log-Move m.fields (s.log_seq + 1) w)
          | inr (inr (inl e)) ↦ rw e (handle_status-Move m.fields w)
          | inr (inr (inr (inl (there, e)))) ↦
              rw e (handle_output_message-Move m.fields s.output_state w)
          | inr (inr (inr (inr e))) ↦ same-Move w _ e
        ]
