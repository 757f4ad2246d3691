-- ===== src/System/Created.antt =====
-- From the request for an execution to the workspace of the worker that runs it.
use delegate_implementation.Base.{
  ℕ, suc, Text, codes, text_eq_iff, is_empty, List, [], ◌∷◌, ◌++◌, map, drop, length, none, some,
  Bool, false, ◌≡◌, ◌≢◌, ◌∙◌, sym, ap, arith,
}
use delegate_implementation.Platform.{Platform, Fields}
use delegate_implementation.Archive.{Tree}
use delegate_implementation.Workspace.{Os}
use delegate_implementation.Streams.{delegate_prefix}
use delegate_implementation.Models.{Execution}
use delegate_implementation.Models.Tables.{find_delegate, find_execution}
use delegate_implementation.Transfer.Loop.{Entry, Loop, waiting, handle_entries, at_call}
use delegate_implementation.Transfer.RoundTrip.{contents}
use delegate_implementation.Transfer.Batches.{all_entries, Timely}
use delegate_implementation.Dispatcher.World.{World}
use delegate_implementation.Dispatcher.Authorization.{execution_at, delegate_at}
use delegate_implementation.Dispatcher.Requests.{field_or}
use delegate_implementation.Dispatcher.Watch.{Message, Watcher, dispatch}
use delegate_implementation.Views.State.{created}
use delegate_implementation.Views.Revocation.{find_delegate-id}
use delegate_implementation.Views.Executions.{
  Api, Task, send_execute_task, create_execution, Creation, create_execution-created,
}
use delegate_implementation.Worker.{Attempt}
use delegate_implementation.Worker.Directories.{tree_at}
use delegate_implementation.Worker.Tasks.{
  Identity, Worker, find_prepared, execution_argument, file_argument, prepare_execution,
}
use delegate_implementation.Worker.Leftovers.{mirror}
use delegate_implementation.System.Input.{keys, asked, IsOwner}
use delegate_implementation.System.Files.{SameFiles, IsArchivable, prepare_for-dispatch}

find_execution-append :
    (id : Text) (rows : List Execution) (e : Execution)
    → find_execution id rows ≡ none
    → e.execution_id ≡ id
    → find_execution id (rows ++ e ∷ []) ≡ some e
unfolding find_execution
find_execution-append id [] e h same = ground (arith, text_eq_iff e.execution_id id)
find_execution-append id (r ∷ rows) e h same =
    ground (arith, find_execution-append id rows e, text_eq_iff r.execution_id id)

-- The tables of the dispatcher are those that the request has left, and the worker is the delegate
-- that the request named. A UUID is printed as itself, and the new one is not in the table.
pub record IsFor (p : Platform) (body : Fields) (fresh : Text) (api api' : Api)
    (identity : Identity) (w : World) : Type 0 where
  pub tables : w.db ≡ api'.db
  pub new : find_execution fresh api.db.executions ≡ none
  pub is_uuid : p.to_uuid fresh ≡ some fresh
  pub filled : is_empty fresh ≡ false
  pub tenant : identity.tenant_id ≡ field_or "tenant_id" body []
  pub named : p.to_uuid (field_or "delegate_id" body []) ≡ some identity.delegate_id
  pub prints : p.to_uuid identity.delegate_id ≡ some identity.delegate_id

module _ (p : Platform) (os : Os) (fixtures_dir media_root : Text) (body : Fields) (fresh : Text)
    (api api' : Api) (execution : Execution) (identity : Identity) (file : Text) (w : World)
    (done : create_execution p os fixtures_dir (some body) fresh api
      ≡ (created fresh execution, api'))
    (for_it : IsFor p body fresh api api' identity w) where
  abbrev creation : Creation p os fixtures_dir body fresh api api' fresh execution
  creation = create_execution-created p os fixtures_dir body fresh api api' fresh execution done

  same_uuid : creation.uuid ≡ identity.delegate_id
  same_uuid = let found = creation.named in let named = for_it.named in ground arith

  same_delegate : creation.delegate.id ≡ identity.delegate_id
  same_delegate =
      find_delegate-id creation.uuid api.db.delegates creation.delegate creation.found ∙ same_uuid

  IsOwner-create_execution : IsOwner p os fixtures_dir media_root identity fresh file w
  IsOwner-create_execution = record {
    execution = execution;
    delegate = creation.delegate;
    has_execution =
        rw (execution_at, for_it.is_uuid, for_it.tables, creation.row)
          (find_execution-append fresh api.db.executions execution for_it.new creation.has_id);
    has_delegate =
        rw (delegate_at, for_it.prints, for_it.tables, creation.delegates)
          (ap (λ (u : Text). find_delegate u api.db.delegates) (sym same_uuid) ∙ creation.found);
    is_active = creation.is_active;
    delegate_tenant = creation.of_tenant ∙ sym for_it.tenant;
    execution_tenant = creation.tenant ∙ (creation.of_tenant ∙ sym for_it.tenant);
    assigned = creation.assigned ∙ ap some same_delegate;
  }

-- A worker prepares the workspace of an execution that was created for its delegate, with the task
-- that the request has sent: this is the last task, it is under the key prefix of the delegate, and
-- the worker that is given its arguments has then, in a directory that is prepared for it, the same
-- files at the same paths as the directory that the request named, and no others. The request named
-- no single file; the tables of the dispatcher are those that the request has left; the names of
-- that directory are names and `ZipFile.write` accepts it; the watcher handles the request of the
-- worker; what the replies to the first attempt hold are entries that do not end the call, the
-- messages that the watcher has then published, and any others, each poll in time; the copy for
-- inspection is elsewhere.
pub prepare_execution-create_execution :
    (p : Platform) (os : Os) (fixtures_dir media_root : Text) (body : Fields) (fresh : Text)
    (api api' : Api) (execution : Execution) (identity : Identity)
    (temp_workspace_dir task_id workspace_dir : Text) (can_copy : Bool) (m : Message) (s : Watcher)
    (w : World) (worker : Worker) (wait_timeout left : ℕ) (attempt : Attempt)
    (attempts : List Attempt) (before es rest : List Entry) {loop : Loop}
    → create_execution p os fixtures_dir (some body) fresh api ≡ (created fresh execution, api')
    → IsFor p body fresh api api' identity w
    → field_or "file_name" body (codes "*") ≡ codes "*"
    → let ks = keys p os fixtures_dir media_root identity fresh (codes "*") in
      let source = os.tree (os.join fixtures_dir (field_or "workspace_fixture" body [])) in
      let w' = (dispatch p os fixtures_dir media_root fresh ks m s w).1 in
      IsArchivable p os identity source
      → m.stream_key ≡ ks.events
      → m.fields ≡ asked p os fixtures_dir media_root identity fresh (codes "*")
      → all_entries attempt.polls ≡ before ++ (es ++ rest)
      → contents es ≡ map (λ c. c.1) (drop (length w.sent) w'.sent)
      → handle_entries p wait_timeout before (at_call p wait_timeout (codes "0") attempt.start)
        ≡ waiting loop
      → Timely p wait_timeout attempt.polls (at_call p wait_timeout (codes "0") attempt.start)
      → mirror p os identity temp_workspace_dir fresh ≢ workspace_dir
      → (task : Task) × (api'.tasks ≡ api.tasks ++ task ∷ [])
        × (task.prefix ≡ delegate_prefix identity.delegate_id)
        × (let worker' =
              prepare_execution p os identity temp_workspace_dir wait_timeout
                (suc left)
                (task.execution_id ∷ task.file_name ∷ [])
                []
                task_id
                workspace_dir
                can_copy
                (attempt ∷ attempts)
                worker in
            (find_prepared task_id worker'.prepared ≡ some workspace_dir)
            × ((t : Tree) × (tree_at workspace_dir worker'.dirs ≡ some t) × SameFiles t source))
unfolding send_execute_task prepare_execution execution_argument file_argument
    IsOwner-create_execution
prepare_execution-create_execution p os fixtures_dir media_root body fresh api api' execution
      identity temp_workspace_dir task_id workspace_dir can_copy m s w worker wait_timeout left
      attempt attempts before es rest {loop} done for_it whole archivable there h split sent quiet
      timely apart =
    let made =
      create_execution-created p os fixtures_dir body fresh api api' fresh execution done in
    let owner =
      IsOwner-create_execution p os fixtures_dir media_root body fresh api api' execution identity
        (codes "*") w done for_it in
    let same =
      same_delegate p os fixtures_dir media_root body fresh api api' execution identity (codes "*")
        w done for_it in
    (
      send_execute_task fresh made.delegate.id made.delegate.queue
          (field_or "file_name" body (codes "*")),
      made.task,
      ap delegate_prefix same,
      rw (whole, for_it.filled, sym made.fixture)
          (prepare_for-dispatch p os fixtures_dir media_root identity fresh temp_workspace_dir
            task_id workspace_dir can_copy m s w worker wait_timeout left attempt attempts before es
            rest {loop = loop} owner (rw made.fixture archivable) there h split sent quiet timely
            apart),
    )
