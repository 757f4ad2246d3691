-- ===== src/Worker/Tasks.antt =====
-- worker/worker_app/tasks.py: `_mirror_to_temp_workspace`, `_prepare_execution`, `_send_output` and
-- `execute_task`. The names of new directories and whether a copy can be written are inputs, and the
-- text of an exception is left out of its log line. A copy that fails leaves nothing.
use delegate_implementation.Base.{
  ℕ, Text, codes, text_eq, is_empty, lookup, List, [], ◌∷◌, ◌++◌, map, Option, none, some, Bool,
  true, false, length, if◌then◌else◌,
}
use delegate_implementation.Platform.{Platform, Bytes, Fields}
use delegate_implementation.Archive.{Tree, empty_dir, is_there, zip_tree, extract_zip_bytes}
use delegate_implementation.Workspace.{Os}
use delegate_implementation.Streams.{StreamKeys, stream_keys, global_execution_events_stream}
use delegate_implementation.Models.{lit, val, num, Detail}
use delegate_implementation.Dispatcher.Requests.{field_or}
use delegate_implementation.Transfer.Sender.{Xadd, chunk_size, send_bytes}
use delegate_implementation.Worker.{
  Publish, execution_started, transfer, Attempt, extracted, gave_up, bad_zip, pending, crashed,
  Reception, publish_log, publish_status, receive_workspace,
}
use delegate_implementation.Worker.Directories.{
  Directories, tree_at, rmtree, set_tree, tree_or_empty,
}
use delegate_implementation.Worker.Stub.{Job, run_stub_task}

-- `identity.json`
pub record Identity : Type 0 where
  pub tenant_id : Text
  pub delegate_id : Text

-- `_prepared_workspaces`, the directories, and what was published.
pub record Worker : Type 0 where
  pub prepared : List (Text × Text)
  pub dirs : Directories
  pub sent : List Publish

-- `_prepared_workspaces.get(task_id)`
unfoldable pub find_prepared : Text → List (Text × Text) → Option Text
find_prepared id [] = none
find_prepared id ((k, dir) ∷ rest) = if text_eq k id then some dir else find_prepared id rest

-- The table without the key, as `pop` leaves it.
unfoldable pub drop_prepared : Text → List (Text × Text) → List (Text × Text)
drop_prepared id [] = []
drop_prepared id ((k, dir) ∷ rest) =
    let others = drop_prepared id rest in if text_eq k id then others else (k, dir) ∷ others

-- `_prepared_workspaces[task_id] = workspace_dir`
unfoldable pub set_prepared : Text → Text → List (Text × Text) → List (Text × Text)
unfolding drop_prepared
set_prepared id dir table = (id, dir) ∷ drop_prepared id table

abbrev pub publish : List Publish → Worker → Worker
publish messages w = record w { sent = w.sent ++ messages }

-- `base_fields`
unfoldable pub base_of : Identity → Text → Fields
base_of identity execution_id =
    ("execution_id", execution_id)
    ∷ ("tenant_id", identity.tenant_id)
    ∷ ("delegate_id", identity.delegate_id)
    ∷ []

-- `args[0] if args else kwargs.get("execution_id")`
unfoldable pub execution_argument : List Text → Fields → Option Text
execution_argument [] kwargs = lookup "execution_id" kwargs
execution_argument (id ∷ rest) kwargs = some id

-- `args[1] if len(args) > 1 else kwargs.get("file_name", "*")`
unfoldable pub file_argument : List Text → Fields → Text
file_argument [] kwargs = field_or "file_name" kwargs (codes "*")
file_argument (id ∷ []) kwargs = field_or "file_name" kwargs (codes "*")
file_argument (id ∷ file ∷ rest) kwargs = file

abbrev pub transfer_of : Xadd → Publish
transfer_of (key, fields) = record { stream_key = key; base_fields = []; body = transfer fields }

module _ (p : Platform) (os : Os) (identity : Identity) where
  unfoldable pub send_output : StreamKeys → Fields → Text → Tree → List Publish
  send_output keys base_fields transfer_id output =
      let archive = zip_tree os.zipfile output in
      map transfer_of (send_bytes p chunk_size keys.output archive base_fields transfer_id).commands
      ++ publish_log keys.log base_fields (
          lit "output transfer "
          ∷ val transfer_id
          ∷ lit " sent ("
          ∷ num (length archive)
          ∷ lit " bytes)"
          ∷ [])
        ∷ []

  -- What the task publishes around the lines of `run_stub_task`, which returns or raises.
  unfoldable pub report :
      StreamKeys → Fields → Text → List Detail → Tree → Bool → Worker → Bool × Worker
  unfolding send_output
  report keys base_fields transfer_id lines output true w = (
    true,
    publish
        (publish_status keys.status base_fields (codes "EXECUTING")
          ∷ (map (publish_log keys.log base_fields) lines
              ++ (send_output keys base_fields transfer_id output
                  ++ publish_status keys.status base_fields (codes "TASK_SUCCEEDED") ∷ [])))
        w,
  )
  report keys base_fields transfer_id lines output false w = (
    false,
    publish
        (publish_status keys.status base_fields (codes "EXECUTING")
          ∷ (map (publish_log keys.log base_fields) lines
              ++ publish_log keys.log base_fields (lit "task failed with exception: " ∷ [])
                ∷ publish_status keys.status base_fields (codes "TASK_FAILED")
                ∷ []))
        w,
  )

  -- The `finally` of the task.
  unfoldable pub clean_up : Text → Text → Bool × Worker → Bool × Worker
  clean_up workspace_dir output_dir (returns, w) =
      (returns, record w { dirs = rmtree output_dir (rmtree workspace_dir w.dirs) })

  -- The body of the task, with its workspace. `false` where it raises.
  unfoldable pub run_task : Text → Text → Job → Worker → Bool × Worker
  unfolding report clean_up tree_or_empty
  run_task workspace_dir execution_id job w =
      let ran =
        run_stub_task job workspace_dir job.output_dir (set_tree job.output_dir empty_dir w.dirs) in
      clean_up workspace_dir job.output_dir (
        report (stream_keys execution_id identity.delegate_id) (base_of identity execution_id)
          job.transfer_id ran.lines (tree_or_empty job.output_dir ran.dirs) ran.returns
          (record w { dirs = ran.dirs }))

  unfoldable pub execute_task : Text → Text → Job → Worker → Bool × Worker
  execute_task task_id execution_id job w = elim (find_prepared task_id w.prepared) [
    | none ↦ (true, w)
    | some workspace_dir ↦
        run_task workspace_dir execution_id job
          (record w { prepared = drop_prepared task_id w.prepared })
  ]

  -- `extract_zip_bytes` raises nothing on an empty directory.
  unfoldable pub is_extractable : Bytes → Bool
  is_extractable archive = is_there (extract_zip_bytes os.zipfile archive empty_dir)

  -- `extract_zip_bytes(data, workspace_dir)`
  unfoldable pub extract_into : Text → Bytes → Directories → Directories
  extract_into workspace_dir archive ds =
      elim (extract_zip_bytes os.zipfile archive (tree_or_empty workspace_dir ds)) [
        | none ↦ ds
        | some t ↦ set_tree workspace_dir t ds
      ]

  module _ (temp_workspace_dir : Text) where
    -- Where the copy of a workspace is kept.
    abbrev pub mirror_dir : Text → Text
    mirror_dir execution_id = os.join temp_workspace_dir execution_id

    -- Its log line, and the directories.
    unfoldable pub mirror_to_temp_workspace :
        Text → Text → Bool → Directories → Detail × Directories
    mirror_to_temp_workspace execution_id workspace_dir can_copy ds =
        let dest = mirror_dir execution_id in
        let cleared = rmtree dest ds in
        elim (if can_copy then tree_at workspace_dir cleared else none) [
          | none ↦ (lit "could not mirror workspace to " ∷ val dest ∷ lit ": " ∷ [], cleared)
          | some workspace ↦ (
            lit "mirrored workspace to "
                ∷ val (os.abspath dest)
                ∷ lit " for inspection (not cleaned up automatically)"
                ∷ [],
            set_tree dest workspace cleared,
          )
        ]

    -- What is published and stored when `_receive_workspace` has ended.
    unfoldable pub after_reception :
        Text → Text → Text → Bool → StreamKeys → Fields → Reception → Worker → Worker
    unfolding extract_into mirror_to_temp_workspace
    after_reception execution_id task_id workspace_dir can_copy keys base_fields (extracted content)
          w =
        let (line, ds) =
          mirror_to_temp_workspace execution_id workspace_dir can_copy
            (extract_into workspace_dir content w.dirs) in
        publish (publish_log keys.log base_fields line ∷ [])
          (record w { prepared = set_prepared task_id workspace_dir w.prepared; dirs = ds })
    after_reception execution_id task_id workspace_dir can_copy keys base_fields gave_up w =
        publish
          (publish_status keys.status base_fields (codes "TRANSFER_FAILED")
            ∷ publish_log keys.log base_fields
                (lit "workspace transfer failed after max retries; giving up" ∷ [])
            ∷ [])
          (record w { dirs = rmtree workspace_dir w.dirs })
    after_reception execution_id task_id workspace_dir can_copy keys base_fields bad_zip w = w
    after_reception execution_id task_id workspace_dir can_copy keys base_fields pending w = w
    after_reception execution_id task_id workspace_dir can_copy keys base_fields (crashed e) w = w

    module _ (wait_timeout max_retries : ℕ) where
      -- From the announcement on.
      unfoldable pub prepare_for : Text → Text → Text → Text → Bool → List Attempt → Worker → Worker
      unfolding is_extractable
      prepare_for execution_id requested_file task_id workspace_dir can_copy attempts w =
          let keys = stream_keys execution_id identity.delegate_id in
          let base_fields = base_of identity execution_id in
          let announcement : Publish = record {
            stream_key = global_execution_events_stream;
            base_fields = [];
            body = execution_started execution_id keys;
          } in
          let run =
            receive_workspace p wait_timeout max_retries is_extractable keys base_fields
              requested_file attempts in
          after_reception execution_id task_id workspace_dir can_copy keys base_fields run.reception
            (publish
              (announcement
                ∷ publish_status keys.status base_fields (codes "TRANSFERRING_INPUT")
                ∷ run.sent)
              (record w { dirs = set_tree workspace_dir empty_dir w.dirs }))

      unfoldable pub prepare_execution :
          List Text → Fields → Text → Text → Bool → List Attempt → Worker → Worker
      prepare_execution args kwargs task_id workspace_dir can_copy attempts w =
          elim (execution_argument args kwargs) [
            | none ↦ w
            | some execution_id ↦
                if is_empty execution_id
                then w
                else prepare_for execution_id (file_argument args kwargs) task_id workspace_dir
                    can_copy attempts w
          ]
