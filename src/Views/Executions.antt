-- ===== src/Views/Executions.antt =====
-- control_plane/delegates/views.py: `create_execution`, `execution_status` and `list_audit_events`.
-- control_plane/delegates/celery_client.py: `send_execute_task`; a task is a command to the broker.
use delegate_implementation.Base.{
  Text, codes, text_eq, text_eq_iff, List, [], ◌∷◌, ◌++◌, map, keep, Option, none, some,
  Option-cases, not, leb, take, if◌then◌else◌, ◌≡◌, inl, inr, arith, validation_error,
}
use delegate_implementation.Platform.{Platform, Fields}
use delegate_implementation.Streams.{delegate_prefix}
use delegate_implementation.Workspace.{Os}
use delegate_implementation.Models.{
  lit, val, texts, Db, Delegate, active, Execution, ExecutionLog, AuditEvent, queued,
}
use delegate_implementation.Models.Tables.{find_delegate, find_execution, add_audit}
use delegate_implementation.Dispatcher.Requests.{event_of, field_or, is_active}
use delegate_implementation.Views.State.{
  Response, refused, created, execution_state, audit_events, crashed, required, missing_fields,
}

-- One `send_task`: the key prefix of the broker connection, the queue and the arguments.
pub record Task : Type 0 where
  pub prefix : Text
  pub queue : Text
  pub execution_id : Text
  pub file_name : Text

unfoldable pub send_execute_task : Text → Text → Text → Text → Task
send_execute_task execution_id delegate_id queue file_name = record {
  prefix = delegate_prefix delegate_id;
  queue = queue;
  execution_id = execution_id;
  file_name = file_name;
}

-- The tables and the tasks that were sent.
pub record Api : Type 0 where
  pub db : Db
  pub tasks : List Task

-- The row that `Execution.objects.create(...)` adds.
unfoldable pub new_execution : Text → Text → Text → Text → Execution
new_execution fresh tenant_id delegate_id fixture = record {
  execution_id = fresh;
  tenant_id = tenant_id;
  delegate_id = some delegate_id;
  workspace_fixture = fixture;
  status = queued;
  transfer_id = [];
  transfer_attempts = 0;
  output_path = [];
  output_checksum = [];
}

module _ (p : Platform) (os : Os) (fixtures_dir : Text) where
  -- The tests on the delegate's row and the fixture.
  unfoldable pub create_for : Fields → Text → Text → Delegate → Text → Api → Response × Api
  create_for body tenant_id fixture delegate fresh api =
      if not (text_eq delegate.tenant_id tenant_id)
      then (refused 403 (lit "delegate does not belong to tenant" ∷ []), api)
      else if not (is_active delegate.status)
      then (refused 403 (lit "delegate is not active" ∷ []), api)
      else if not (os.isdir (os.join fixtures_dir fixture))
      then (
        refused 400 (lit "workspace fixture not found: " ∷ val (os.join fixtures_dir fixture) ∷ []),
        api,
      )
      else (let file_name = field_or "file_name" body (codes "*") in
          let execution = new_execution fresh tenant_id delegate.id fixture in
          let db' = record api.db { executions = api.db.executions ++ execution ∷ [] } in
          (
            created fresh execution,
            record {
              db =
                  add_audit
                    (event_of "EXECUTION_CREATED" tenant_id delegate.id fresh
                      (lit "file_name=" ∷ val file_name ∷ []))
                    db';
              tasks =
                  api.tasks ++ send_execute_task fresh delegate.id delegate.queue file_name ∷ [];
            },
          ))

  -- The query of the delegate, on the text of the body.
  unfoldable pub create_fields : Fields → Text → Text → Text → Text → Api → Response × Api
  create_fields body tenant_id delegate_id fixture fresh api = elim (p.to_uuid delegate_id) [
    | none ↦ (crashed validation_error, api)
    | some uuid ↦ elim (find_delegate uuid api.db.delegates) [
      | none ↦ (refused 404 (lit "unknown delegate_id" ∷ []), api)
      | some delegate ↦ create_for body tenant_id fixture delegate fresh api
    ]
  ]

  -- `fresh` is the `uuid.uuid4()` of the new row.
  unfoldable pub create_execution : Option Fields → Text → Api → Response × Api
  create_execution none fresh api = (refused 400 (lit "invalid JSON" ∷ []), api)
  create_execution (some body) fresh api =
      let missing : Response × Api = (
        refused 400 (
            lit "missing fields: "
            ∷ texts (missing_fields ("tenant_id" ∷ "delegate_id" ∷ "workspace_fixture" ∷ []) body)
            ∷ []),
        api,
      ) in
      elim (required "tenant_id" body) [
        | none ↦ missing
        | some tenant_id ↦ elim (required "delegate_id" body) [
          | none ↦ missing
          | some delegate_id ↦ elim (required "workspace_fixture" body) [
            | none ↦ missing
            | some fixture ↦ create_fields body tenant_id delegate_id fixture fresh api
          ]
        ]
      ]

-- A line before those of its number or a higher one.
unfoldable pub insert_line : ExecutionLog → List ExecutionLog → List ExecutionLog
insert_line l [] = l ∷ []
insert_line l (m ∷ rest) =
    let later = insert_line l rest in if leb l.seq m.seq then l ∷ m ∷ rest else m ∷ later

-- `ordering = ["seq"]`; lines of one number, whose order the database leaves open, stay in theirs.
unfoldable pub by_seq : List ExecutionLog → List ExecutionLog
unfolding insert_line
by_seq [] = []
by_seq (l ∷ logs) = insert_line l (by_seq logs)

-- `execution.logs.values_list("line")`
unfoldable pub lines_of : Text → List ExecutionLog → List Text
unfolding by_seq
lines_of id logs = map (λ l. l.line) (by_seq (keep (λ l. text_eq l.execution_id id) logs))

-- The path converter of the URL has made the id a UUID.
unfoldable pub execution_status : Text → Db → Response
execution_status id db = elim (find_execution id db.executions) [
  | none ↦ refused 404 (lit "not found" ∷ [])
  | some execution ↦ execution_state execution (lines_of execution.execution_id db.logs)
]

-- `AuditEvent.objects.all()`, the newest first; the rows of the table are in the order of creation.
unfoldable pub newest : List AuditEvent → List AuditEvent
newest [] = []
newest (event ∷ events) = newest events ++ event ∷ []

unfoldable pub list_audit_events : Db → Response
unfolding newest
list_audit_events db = audit_events (take 200 (newest db.audits))

module _ (p : Platform) (os : Os) (fixtures_dir : Text) (body : Fields) (fresh : Text)
    (api api' : Api) (id : Text) (execution : Execution) where
  -- What an execution that was created rests on, and what was done for it.
  pub record Creation : Type 0 where
    pub uuid : Text
    pub delegate : Delegate
    pub named : p.to_uuid (field_or "delegate_id" body []) ≡ some uuid
    pub found : find_delegate uuid api.db.delegates ≡ some delegate
    pub is_active : delegate.status ≡ active
    pub of_tenant : delegate.tenant_id ≡ field_or "tenant_id" body []
    pub tenant : execution.tenant_id ≡ delegate.tenant_id
    pub assigned : execution.delegate_id ≡ some delegate.id
    pub minted : id ≡ fresh
    pub has_id : execution.execution_id ≡ fresh
    pub fixture : execution.workspace_fixture ≡ field_or "workspace_fixture" body []
    pub delegates : api'.db.delegates ≡ api.db.delegates
    pub row : api'.db.executions ≡ api.db.executions ++ execution ∷ []
    pub task :
        api'.tasks
        ≡ api.tasks
          ++ send_execute_task fresh delegate.id delegate.queue
              (field_or "file_name" body (codes "*"))
            ∷ []

  -- An execution is created only for an active delegate of the tenant that is named; it is added
  -- to the table, assigned to that delegate, and one task is sent, under the key prefix of that
  -- delegate and on its queue.
  pub create_execution-created :
      create_execution p os fixtures_dir (some body) fresh api ≡ (created id execution, api')
      → Creation
  unfolding create_execution create_fields create_for new_execution add_audit
  create_execution-created h = elim (Option-cases (p.to_uuid (field_or "delegate_id" body []))) [
    | inl bad ↦ absurd (ground arith)
    | inr (uuid, named) ↦ elim (Option-cases (find_delegate uuid api.db.delegates)) [
      | inl unknown ↦ absurd (ground arith)
      | inr (d, found) ↦ record {
        uuid = uuid;
        delegate = d;
        named = named;
        found = found;
        is_active = ground arith;
        of_tenant = ground (arith, text_eq_iff d.tenant_id (field_or "tenant_id" body []));
        tenant = ground (arith, text_eq_iff d.tenant_id (field_or "tenant_id" body []));
        assigned = ground arith;
        minted = ground arith;
        has_id = ground arith;
        fixture = ground arith;
        delegates = ground arith;
        row = ground arith;
        task = ground arith;
      }
    ]
  ]
