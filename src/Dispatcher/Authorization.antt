-- ===== src/Dispatcher/Authorization.antt =====
-- Who gets a workspace: the ownership check of `_handle_data_request`.
use delegate_implementation.Base.{
  Text, ◌+◌, insert, ok, length, codes, text_eq_iff, [], ◌∷◌, ◌++◌, Option, none, some,
  Option-cases, Bool-cases, ◌≡◌, ◌⊎◌, inl, inr, arith,
}
use delegate_implementation.Platform.{Platform, Bytes, Fields}
use delegate_implementation.Workspace.{Os}
use delegate_implementation.Transfer.Sender.{chunk_size, send_bytes}
use delegate_implementation.Models.{lit, val, num, Delegate, active, Execution, transferring}
use delegate_implementation.Models.Tables.{
  find_delegate, find_execution, update_executions, on_executions, add_audit,
}
use delegate_implementation.Dispatcher.World.{World}
use delegate_implementation.Dispatcher.Requests.{
  field_or, str_option, is_authorized, event_of, requested_zip, handle_data_request,
}

-- The row that a UUID text finds.
abbrev pub execution_at : Platform → Text → World → Option Execution
execution_at p id w = elim (p.to_uuid id) [
  | none ↦ none
  | some uuid ↦ find_execution uuid w.db.executions
]

abbrev pub delegate_at : Platform → Text → World → Option Delegate
delegate_at p id w = elim (p.to_uuid id) [
  | none ↦ none
  | some uuid ↦ find_delegate uuid w.db.delegates
]

-- The request comes from an active delegate of the tenant that it names, and asks for an execution
-- of that tenant that is assigned to this delegate.
pub record IsAuthorized (p : Platform) (w : World) (execution_id : Text) (fields : Fields)
    : Type 0 where
  pub execution : Execution
  pub delegate : Delegate
  pub asked : execution_at p execution_id w ≡ some execution
  pub asks : delegate_at p (field_or "delegate_id" fields []) w ≡ some delegate
  pub is_active : delegate.status ≡ active
  pub delegate_tenant : delegate.tenant_id ≡ field_or "tenant_id" fields []
  pub execution_tenant : execution.tenant_id ≡ field_or "tenant_id" fields []
  pub assigned : str_option execution.delegate_id ≡ field_or "delegate_id" fields []

-- Nothing but audit events was added.
pub record OnlyAudits (w w' : World) : Type 0 where
  pub sent : w'.sent ≡ w.sent
  pub deleted : w'.deleted ≡ w.deleted
  pub files : w'.files ≡ w.files
  pub tokens : w'.db.tokens ≡ w.db.tokens
  pub delegates : w'.db.delegates ≡ w.db.delegates
  pub executions : w'.db.executions ≡ w.db.executions
  pub logs : w'.db.logs ≡ w.db.logs

module _ (p : Platform) (os : Os) (fixtures_dir execution_id events_key : Text) (fields : Fields)
    (fresh : Text) (w : World) where
  -- A request is answered only if it is authorized. Otherwise, whether it is refused, ignored or
  -- raises, no stream, file or row but the audit events changes.
  pub handle_data_request-guarded :
      IsAuthorized p w execution_id fields
      ⊎ OnlyAudits w
          (handle_data_request p os fixtures_dir execution_id events_key fields fresh w).1
  unfolding handle_data_request is_authorized add_audit
  handle_data_request-guarded = elim (Option-cases (execution_at p execution_id w)) [
    | inl missing ↦ inr (ground arith)
    | inr (execution, asked) ↦
        elim (Option-cases (delegate_at p (field_or "delegate_id" fields []) w)) [
          | inl unknown ↦ inr (ground arith)
          | inr (delegate, asks) ↦
              elim (Bool-cases (
                is_authorized (some delegate) execution (field_or "tenant_id" fields [])
                  (field_or "delegate_id" fields []))) [
                    | inl pass ↦ inl (record {
                      execution = execution;
                      delegate = delegate;
                      asked = asked;
                      asks = asks;
                      is_active = ground arith;
                      delegate_tenant =
                          ground (
                            arith,
                            text_eq_iff delegate.tenant_id (field_or "tenant_id" fields []),
                          );
                      execution_tenant =
                          ground (
                            arith,
                            text_eq_iff execution.tenant_id (field_or "tenant_id" fields []),
                          );
                      assigned = ground (
                        arith,
                        text_eq_iff (str_option execution.delegate_id)
                            (field_or "delegate_id" fields []),
                      );
                    })
                    | inr refused ↦ inr (ground arith)
                  ]
        ]
  ]

  -- The request is authorized and its archive can be made: exactly the messages of one transfer of
  -- that archive are published on the events stream, the execution is TRANSFERRING under the new
  -- transfer id with one attempt more, and one audit event says so.
  pub handle_data_request-answers :
      (a : IsAuthorized p w execution_id fields) (z : Bytes)
      → requested_zip p os fixtures_dir
          (os.join fixtures_dir a.execution.workspace_fixture)
          (field_or "requested_file" fields (codes "*"))
        ≡ some z
      → let (r, w') =
          handle_data_request p os fixtures_dir execution_id events_key fields fresh w in
        (r ≡ ok tt)
        × (w'.sent
            ≡ w.sent
              ++ (send_bytes p chunk_size events_key z
                  (insert "tenant_id"
                    (field_or "tenant_id" fields [])
                    (insert "execution_id" execution_id []))
                  fresh).commands)
        × (w'.db.executions
            ≡ update_executions a.execution.execution_id
                (λ row. record row {
                  status = transferring;
                  transfer_id = fresh;
                  transfer_attempts = a.execution.transfer_attempts + 1;
                })
                w.db.executions)
        × (w'.db.audits
            ≡ w.db.audits
              ++ event_of "WORKSPACE_TRANSFER_SENT"
                  (field_or "tenant_id" fields [])
                  (field_or "delegate_id" fields [])
                  execution_id
                  (lit "transfer_id=" ∷ val fresh ∷ lit " size=" ∷ num (length z) ∷ [])
                ∷ [])
  unfolding handle_data_request is_authorized add_audit send_bytes on_executions
  handle_data_request-answers a z made =
      let known = a.asked in
      let asks = a.asks in
      let t1 =
        (text_eq_iff a.delegate.tenant_id (field_or "tenant_id" fields [])).1 a.delegate_tenant in
      let t2 =
        (text_eq_iff a.execution.tenant_id (field_or "tenant_id" fields [])).1 a.execution_tenant in
      let t3 =
        (text_eq_iff (str_option a.execution.delegate_id) (field_or "delegate_id" fields [])).1
          a.assigned in
      let t4 = a.is_active in ground arith

  -- The request is authorized and its file is not there: nothing is sent, and no row but an audit
  -- event is added.
  pub handle_data_request-not_found :
      (a : IsAuthorized p w execution_id fields)
      → requested_zip p os fixtures_dir
          (os.join fixtures_dir a.execution.workspace_fixture)
          (field_or "requested_file" fields (codes "*"))
        ≡ none
      → OnlyAudits w
          (handle_data_request p os fixtures_dir execution_id events_key fields fresh w).1
  unfolding handle_data_request is_authorized add_audit
  handle_data_request-not_found a missing =
      let known = a.asked in
      let asks = a.asks in
      let t1 =
        (text_eq_iff a.delegate.tenant_id (field_or "tenant_id" fields [])).1 a.delegate_tenant in
      let t2 =
        (text_eq_iff a.execution.tenant_id (field_or "tenant_id" fields [])).1 a.execution_tenant in
      let t3 =
        (text_eq_iff (str_option a.execution.delegate_id) (field_or "delegate_id" fields [])).1
          a.assigned in
      let t4 = a.is_active in ground arith
