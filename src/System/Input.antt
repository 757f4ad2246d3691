-- ===== src/System/Input.antt =====
-- From the worker's DATA_REQUEST through the dispatcher back to the worker's workspace.
use delegate_implementation.Base.{
  ℕ, suc, Text, codes, text_eq_refl, List, [], ◌∷◌, ◌++◌, map, drop, length, drop-append, insert,
  lookup, some, Bool, true, ◌≡◌, ◌∙◌, refl, ap, arith,
}
use delegate_implementation.Platform.{Platform, Bytes, Fields}
use delegate_implementation.Workspace.{Os}
use delegate_implementation.Streams.{StreamKeys, stream_keys}
use delegate_implementation.Models.{Execution, Delegate, active}
use delegate_implementation.Transfer.Sender.{Xadd, chunk_size, send_bytes}
use delegate_implementation.Transfer.Receiver.{is_type, same_text}
use delegate_implementation.Transfer.Loop.{Entry, Loop, waiting, handle_entries, at_call}
use delegate_implementation.Transfer.RoundTrip.{contents}
use delegate_implementation.Transfer.Batches.{all_entries, Timely, receive_once-send_bytes}
use delegate_implementation.Dispatcher.World.{World}
use delegate_implementation.Dispatcher.Requests.{requested_zip, handle_data_request}
use delegate_implementation.Dispatcher.Authorization.{
  execution_at, delegate_at, IsAuthorized, handle_data_request-answers,
}
use delegate_implementation.Dispatcher.Watch.{Message, Watcher, dispatch}
use delegate_implementation.Worker.{
  Attempt, extracted, request_fields, receive_from, receive_workspace,
}
use delegate_implementation.Worker.Tasks.{Identity, base_of}

module _ (p : Platform) (os : Os) (fixtures_dir media_root : Text) (identity : Identity)
    (execution_id requested_file : Text) where
  abbrev pub keys : StreamKeys
  keys = stream_keys execution_id identity.delegate_id

  abbrev pub asked : Fields
  asked = request_fields (base_of identity execution_id) requested_file

  -- The execution is the worker's: of its tenant, assigned to its delegate, which is active.
  pub record IsOwner (w : World) : Type 0 where
    pub execution : Execution
    pub delegate : Delegate
    pub has_execution : execution_at p execution_id w ≡ some execution
    pub has_delegate : delegate_at p identity.delegate_id w ≡ some delegate
    pub is_active : delegate.status ≡ active
    pub delegate_tenant : delegate.tenant_id ≡ identity.tenant_id
    pub execution_tenant : execution.tenant_id ≡ identity.tenant_id
    pub assigned : execution.delegate_id ≡ some identity.delegate_id

  IsOwner-IsAuthorized : (w : World) → IsOwner w → IsAuthorized p w execution_id asked
  unfolding request_fields base_of insert lookup
  IsOwner-IsAuthorized w o = record {
    execution = o.execution;
    delegate = o.delegate;
    asked = o.has_execution;
    asks = o.has_delegate;
    is_active = o.is_active;
    delegate_tenant = o.delegate_tenant;
    execution_tenant = o.execution_tenant;
    assigned = rw o.assigned refl;
  }

  -- The watcher hands the worker's request to the handler.
  dispatch-request :
      (m : Message) (s : Watcher) (w : World)
      → m.stream_key ≡ keys.events
      → m.fields ≡ asked
      → (dispatch p os fixtures_dir media_root execution_id keys m s w).1
        ≡ (handle_data_request p os fixtures_dir execution_id keys.events asked m.fresh w).1
  unfolding dispatch request_fields base_of insert lookup is_type same_text
  dispatch-request m s w there h =
      rw (there, h, text_eq_refl keys.events, text_eq_refl (codes "DATA_REQUEST")) (ground arith)

  answer_of :
      (w : World) (archive : Bytes) (fresh : Text) (o : IsOwner w)
      → requested_zip p os fixtures_dir
          (os.join fixtures_dir o.execution.workspace_fixture)
          requested_file
        ≡ some archive
      → let w' = (handle_data_request p os fixtures_dir execution_id keys.events asked fresh w).1 in
        w'.sent
        ≡ w.sent
          ++ (send_bytes p chunk_size keys.events archive
              (insert "tenant_id" identity.tenant_id (insert "execution_id" execution_id []))
              fresh).commands
  unfolding request_fields base_of insert lookup IsOwner-IsAuthorized
  answer_of w archive fresh o made =
      (handle_data_request-answers p os fixtures_dir execution_id keys.events asked fresh w
        (IsOwner-IsAuthorized w o) archive made).1

  -- The worker's first attempt brings it the workspace. The watcher of the execution handles the
  -- request of the worker that owns it, and the archive for the file can be made; what the replies
  -- hold are entries that do not end the call, the messages that the watcher has then published,
  -- and any others, each poll in time. Then the worker extracts exactly that archive.
  pub receive_workspace-dispatch :
      (m : Message) (s : Watcher) (w : World) (archive : Bytes) (wait_timeout left : ℕ)
      (is_zip : Bytes → Bool) (attempt : Attempt) (attempts : List Attempt)
      (before es rest : List Entry) {loop : Loop} (o : IsOwner w)
      → m.stream_key ≡ keys.events
      → m.fields ≡ asked
      → requested_zip p os fixtures_dir
          (os.join fixtures_dir o.execution.workspace_fixture)
          requested_file
        ≡ some archive
      → is_zip archive ≡ true
      → let w' = (dispatch p os fixtures_dir media_root execution_id keys m s w).1 in
        all_entries attempt.polls ≡ before ++ (es ++ rest)
        → contents es ≡ map (λ c. c.1) (drop (length w.sent) w'.sent)
        → handle_entries p wait_timeout before (at_call p wait_timeout (codes "0") attempt.start)
          ≡ waiting loop
        → Timely p wait_timeout attempt.polls (at_call p wait_timeout (codes "0") attempt.start)
        → (receive_workspace p wait_timeout
            (suc left)
            is_zip
            keys
            (base_of identity execution_id)
            requested_file
            (attempt ∷ attempts)).reception
          ≡ extracted archive
  unfolding receive_workspace receive_from
  receive_workspace-dispatch m s w archive wait_timeout left is_zip attempt attempts before es rest
        {loop} o there h made zip split sent quiet timely =
      let published = answer_of w archive m.fresh o made in
      let cmds =
        (send_bytes p chunk_size keys.events archive
          (insert "tenant_id" identity.tenant_id (insert "execution_id" execution_id []))
          m.fresh).commands in
      let grown : drop (length w.sent)
            (dispatch p os fixtures_dir media_root execution_id keys m s w).1.sent
          ≡ cmds =
        ap (λ (v : World). drop (length w.sent) v.sent) (dispatch-request m s w there h)
        ∙ (ap (drop (length w.sent)) published ∙ drop-append w.sent cmds) in
      let done =
        receive_once-send_bytes p wait_timeout chunk_size keys.events archive
          (insert "tenant_id" identity.tenant_id (insert "execution_id" execution_id [])) m.fresh
          (codes "0") attempt.start before es rest attempt.polls {s = loop} (omega arith) split
          (sent ∙ ap (map (λ (c : Xadd). c.1)) grown) quiet timely in
      ground arith
