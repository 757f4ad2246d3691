-- ===== src/Dispatcher/Success.antt =====
-- What can make an execution SUCCEEDED: only an output transfer that the dispatcher has validated.
use delegate_implementation.Base.{
  lookup, length, pos, int_eq_iff, ℕ, ◌+◌, Text, codes, text_eq_iff, List, [], Option, none, some,
  Option-cases, Bool-cases, true, false, ◌&&◌, ◌≡◌, ◌≢◌, ◌⊎◌, inl, inr, refl, arith,
}
use delegate_implementation.Platform.{Platform, Fields}
use delegate_implementation.Streams.{StreamKeys}
use delegate_implementation.Workspace.{Os}
use delegate_implementation.Transfer.Sender.{sha256_bytes}
use delegate_implementation.Transfer.Receiver.{is_type}
use delegate_implementation.Transfer.Soundness.{same_text-some}
use delegate_implementation.Models.{Execution, succeeded, failed, transferring}
use delegate_implementation.Models.Tables.{
  find_execution, update_executions, on_executions, add_audit, add_log,
  find_execution-update_executions,
}
use delegate_implementation.Dispatcher.World.{World}
use delegate_implementation.Dispatcher.Requests.{
  field_or, status_mapping, requested_zip, handle_data_request, handle_log, handle_status,
}
use delegate_implementation.Dispatcher.Output.{
  OutputState, is_valid_output, is_for, output_start, output_chunk, output_end,
  handle_output_message,
}
use delegate_implementation.Dispatcher.Authorization.{
  handle_data_request-guarded, handle_data_request-answers, handle_data_request-not_found,
}
use delegate_implementation.Dispatcher.Watch.{Message, Watcher, dispatch}

-- The row of an execution says SUCCEEDED.
abbrev pub HasSucceeded : Text → List Execution → Type 0
HasSucceeded id rows = (e : Execution) × (find_execution id rows ≡ some e) × (e.status ≡ succeeded)

-- No execution has become SUCCEEDED.
abbrev pub NoNewSuccess : List Execution → List Execution → Type 0
NoNewSuccess before after = (id : Text) → HasSucceeded id after → HasSucceeded id before

same-NoNewSuccess : {before after : List Execution} → after ≡ before → NoNewSuccess before after
same-NoNewSuccess e id h = rw (← e) h

update-NoNewSuccess :
    (key : Text) (f : Execution → Execution) (rows : List Execution) {after : List Execution}
    → after ≡ update_executions key f rows
    → ((e : Execution) → (f e).execution_id ≡ e.execution_id)
    → ((e : Execution) → (f e).status ≢ succeeded)
    → NoNewSuccess rows after
update-NoNewSuccess key f rows change keeps never id (e', found, won) =
    elim (Option-cases (find_execution id rows)) [
      | inl missing ↦ absurd (ground (arith, find_execution-update_executions key id f rows keeps))
      | inr (e, there) ↦
          (e, there, ground (arith, never e, find_execution-update_executions key id f rows keeps))
    ]

-- What a status message can say is never SUCCEEDED.
pub status_mapping-ne-succeeded : (t : Text) → status_mapping t ≢ some succeeded
unfolding status_mapping
status_mapping-ne-succeeded t h = ground arith

-- The end of an output transfer that the dispatcher has checked: the message is a DATA_END for the
-- transfer in progress, and the bytes received have the announced length and checksum.
pub record IsValidEnd (p : Platform) (fields : Fields) (state : Option OutputState) : Type 0 where
  pub st : OutputState
  pub in_progress : state ≡ some st
  pub is_end : lookup "type" fields ≡ some (codes "DATA_END")
  pub for_transfer : lookup "transfer_id" fields ≡ some st.transfer_id
  pub size : st.total_size ≡ pos (length st.buf)
  pub checksum : st.checksum ≡ sha256_bytes p st.buf

pub IsValidEnd-of_tests :
    (p : Platform) (fields : Fields) (st : OutputState)
    → (is_type fields (codes "DATA_END") && is_for st fields) ≡ true
    → is_valid_output p st ≡ true
    → IsValidEnd p fields (some st)
unfolding is_type is_for is_valid_output
IsValidEnd-of_tests p fields st here valid = record {
  st = st;
  in_progress = refl;
  is_end = same_text-some (codes "DATA_END") (lookup "type" fields) (ground arith);
  for_transfer = same_text-some st.transfer_id (lookup "transfer_id" fields) (ground arith);
  size = ground (arith, int_eq_iff (pos (length st.buf)) st.total_size);
  checksum = ground (arith, text_eq_iff (sha256_bytes p st.buf) st.checksum);
}

module _ (p : Platform) (execution_id : Text) (fields : Fields) (w : World) where
  pub handle_status-NoNewSuccess :
      NoNewSuccess w.db.executions (handle_status p execution_id fields w).1.db.executions
  unfolding handle_status add_audit on_executions
  handle_status-NoNewSuccess = elim (Option-cases (status_mapping (field_or "status" fields []))) [
    | inl other ↦ rw other (same-NoNewSuccess refl)
    | inr (new_status, mapped) ↦ elim (Option-cases (p.to_uuid execution_id)) [
      | inl bad ↦ same-NoNewSuccess (ground arith)
      | inr (uuid, good) ↦
          update-NoNewSuccess uuid (λ row. record row { status = new_status }) w.db.executions
            (ground arith) (λ e. refl)
            (λ e h. status_mapping-ne-succeeded (field_or "status" fields []) (cc))
    ]
  ]

  handle_log-NoNewSuccess :
      (seq : ℕ)
      → NoNewSuccess w.db.executions (handle_log p execution_id fields seq w).1.db.executions
  unfolding handle_log add_log
  handle_log-NoNewSuccess seq = same-NoNewSuccess (ground arith)

  handle_data_request-NoNewSuccess :
      (os : Os) (fixtures_dir events_key fresh : Text)
      → NoNewSuccess w.db.executions
          (handle_data_request p os fixtures_dir execution_id events_key fields fresh
            w).1.db.executions
  handle_data_request-NoNewSuccess os fixtures_dir events_key fresh =
      elim (handle_data_request-guarded p os fixtures_dir execution_id events_key fields fresh w) [
        | inr nothing ↦ same-NoNewSuccess nothing.executions
        | inl a ↦
            elim (Option-cases (
              requested_zip p os fixtures_dir (os.join fixtures_dir a.execution.workspace_fixture)
                (field_or "requested_file" fields (codes "*")))) [
                  | inl missing ↦
                      same-NoNewSuccess
                        (handle_data_request-not_found p os fixtures_dir execution_id events_key
                          fields fresh w a missing).executions
                  | inr (z, made) ↦
                      update-NoNewSuccess a.execution.execution_id
                        (λ row. record row {
                          status = transferring;
                          transfer_id = fresh;
                          transfer_attempts = a.execution.transfer_attempts + 1;
                        })
                        w.db.executions
                        (handle_data_request-answers p os fixtures_dir execution_id events_key
                          fields fresh w a z made).2
                        (λ e. refl) (λ e h. absurd (ground arith))
                ]
      ]

  output_end-NoNewSuccess :
      (os : Os) (media_root : Text) (st : OutputState)
      → is_valid_output p st ≡ false
      → NoNewSuccess w.db.executions (output_end p os media_root execution_id st w).1.db.executions
  unfolding output_end add_audit on_executions
  output_end-NoNewSuccess os media_root st invalid = elim (Option-cases (p.to_uuid execution_id)) [
    | inl bad ↦ same-NoNewSuccess (ground arith)
    | inr (uuid, good) ↦
        update-NoNewSuccess uuid (λ row. record row { status = failed }) w.db.executions
          (ground arith) (λ e. refl) (λ e h. absurd (ground arith))
  ]

  -- Only the end of a transfer writes a row.
  pub handle_output_message-rows :
      (os : Os) (media_root : Text) (st : OutputState)
      → (is_type fields (codes "DATA_END") && is_for st fields) ≡ false
      → (handle_output_message p os media_root execution_id fields (some st) w).1.db.executions
        ≡ w.db.executions
  unfolding handle_output_message output_start output_chunk
  handle_output_message-rows os media_root st other = ground arith

  pub handle_output_message-end :
      (os : Os) (media_root : Text) (st : OutputState)
      → ((handle_output_message p os media_root execution_id fields (some st) w).1.db.executions
          ≡ w.db.executions)
        ⊎ ((handle_output_message p os media_root execution_id fields (some st) w).1.db.executions
            ≡ (output_end p os media_root execution_id st w).1.db.executions)
  unfolding handle_output_message output_start output_chunk
  handle_output_message-end os media_root st = ground arith

  handle_output_message-NoNewSuccess :
      (os : Os) (media_root : Text) (state : Option OutputState)
      → NoNewSuccess w.db.executions
          (handle_output_message p os media_root execution_id fields state w).1.db.executions
        ⊎ IsValidEnd p fields state
  unfolding handle_output_message output_start
  handle_output_message-NoNewSuccess os media_root none = inl (same-NoNewSuccess (ground arith))
  handle_output_message-NoNewSuccess os media_root (some st) =
      elim (Bool-cases (is_type fields (codes "DATA_END") && is_for st fields)) [
        | inr other ↦ inl (same-NoNewSuccess (handle_output_message-rows os media_root st other))
        | inl end ↦ elim (Bool-cases (is_valid_output p st)) [
          | inl valid ↦ inr (IsValidEnd-of_tests p fields st end valid)
          | inr invalid ↦ elim (handle_output_message-end os media_root st) [
            | inl same ↦ inl (same-NoNewSuccess same)
            | inr ended ↦
                inl (λ id h. output_end-NoNewSuccess os media_root st invalid id (rw (← ended) h))
          ]
        ]
      ]

module _ (p : Platform) (os : Os) (fixtures_dir media_root execution_id : Text) (keys : StreamKeys)
    (m : Message) (s : Watcher) (w : World) where
  -- A message goes to one handler, or to none.
  pub dispatch-world :
      let w' = (dispatch p os fixtures_dir media_root execution_id keys m s w).1 in
      (w' ≡ (handle_data_request p os fixtures_dir execution_id keys.events m.fields m.fresh w).1)
      ⊎ ((w' ≡ (handle_log p execution_id m.fields (s.log_seq + 1) w).1)
          ⊎ ((w' ≡ (handle_status p execution_id m.fields w).1)
              ⊎ (((m.stream_key ≡ keys.output)
                    × (w'
                        ≡ (handle_output_message p os media_root execution_id m.fields
                            s.output_state w).1))
                  ⊎ (w' ≡ w))))
  unfolding dispatch
  dispatch-world = ground (arith, text_eq_iff m.stream_key keys.output)

  -- A message makes an execution SUCCEEDED only if it stands on the output stream and is the valid
  -- end of the output transfer in progress. No log, status or data request does, nor any message
  -- that makes its handler raise.
  pub dispatch-NoNewSuccess :
      NoNewSuccess w.db.executions
        (dispatch p os fixtures_dir media_root execution_id keys m s w).1.db.executions
      ⊎ ((m.stream_key ≡ keys.output) × IsValidEnd p m.fields s.output_state)
  dispatch-NoNewSuccess = elim dispatch-world [
    | inl e ↦ inl (
        rw e (
          handle_data_request-NoNewSuccess p execution_id m.fields w os fixtures_dir keys.events
            m.fresh))
    | inr (inl e) ↦ inl (rw e (handle_log-NoNewSuccess p execution_id m.fields w (s.log_seq + 1)))
    | inr (inr (inl e)) ↦ inl (rw e (handle_status-NoNewSuccess p execution_id m.fields w))
    | inr (inr (inr (inl (there, e)))) ↦
        elim (handle_output_message-NoNewSuccess p execution_id m.fields w os media_root
          s.output_state) [ inl never ↦ inl (rw e never) | inr end ↦ inr (there, end) ]
    | inr (inr (inr (inr e))) ↦ inl (rw e (same-NoNewSuccess refl))
  ]
