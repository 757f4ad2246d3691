-- ===== src/Worker/Raised.antt =====
-- What is left where `_prepare_execution` raises.
use delegate_implementation.Base.{
  ℕ, zero, suc, ◌+◌, Text, codes, is_empty, List, [], ◌∷◌, length, drop, drop-append, none, some,
  Bool, true, if◌then◌else◌, Error, ◌≡◌, ◌⊎◌, inl, inr, ◌∙◌, ap, refl, arith,
}
use delegate_implementation.Platform.{Platform, Bytes, Fields}
use delegate_implementation.Workspace.{Os}
use delegate_implementation.Archive.{empty_dir}
use delegate_implementation.Streams.{StreamKeys, stream_keys}
use delegate_implementation.Transfer.Loop.{receive_once, Outcome-cases}
use delegate_implementation.Worker.{
  log, status, data_request, execution_started, transfer, Publish, Attempt, Run, bad_zip, crashed,
  Reception, request, receive_from, receive_workspace, publish_log, publish_status,
}
use delegate_implementation.Worker.Directories.{tree_at, tree_at_same}
use delegate_implementation.Worker.Stub.{Job}
use delegate_implementation.Worker.Tasks.{
  Identity, Worker, is_extractable, base_of, find_prepared, execute_task, after_reception,
  prepare_for,
}

-- The statuses that are published, in order.
unfoldable pub statuses : List Publish → List Text
statuses [] = []
statuses (m ∷ ms) = elim m.body [
  | log d ↦ statuses ms
  | status s ↦ s ∷ statuses ms
  | data_request f ↦ statuses ms
  | execution_started id keys ↦ statuses ms
  | transfer fields ↦ statuses ms
]

module _ (p : Platform) (wait_timeout max_retries : ℕ) (is_zip : Bytes → Bool) (keys : StreamKeys)
    (base_fields : Fields) (requested_file : Text) where
  statuses-receive_from :
      (left attempt : ℕ) (last_id : Text) (attempts : List Attempt)
      → statuses
          (receive_from p wait_timeout max_retries is_zip keys base_fields requested_file left
            attempt last_id attempts).sent
        ≡ []
  unfolding receive_from statuses request publish_log
  statuses-receive_from zero attempt last_id attempts = refl
  statuses-receive_from (suc left) attempt last_id [] = refl
  statuses-receive_from (suc left) attempt last_id (a ∷ attempts) =
      elim (Outcome-cases (receive_once p wait_timeout last_id a.start a.polls)) [
        | inl (s, stops) ↦ ground arith
        | inr (inl (content, id, t, arrives)) ↦ ground arith
        | inr (inr (inl (why, id, fails))) ↦
            let last = if is_empty id then last_id else id in
            let rest = statuses-receive_from left (attempt + 1) last attempts in ground arith
        | inr (inr (inr (e, raises))) ↦ ground arith
      ]

  statuses-receive_workspace :
      (attempts : List Attempt)
      → statuses
          (receive_workspace p wait_timeout max_retries is_zip keys base_fields requested_file
            attempts).sent
        ≡ []
  unfolding receive_workspace
  statuses-receive_workspace attempts = statuses-receive_from max_retries 1 (codes "0") attempts

module _ (p : Platform) (os : Os) (identity : Identity) (temp_workspace_dir : Text)
    (wait_timeout max_retries : ℕ) (execution_id requested_file task_id workspace_dir : Text)
    (can_copy : Bool) (attempts : List Attempt) where
  abbrev run : Run
  run =
      receive_workspace p wait_timeout max_retries (is_extractable p os identity)
        (stream_keys execution_id identity.delegate_id) (base_of identity execution_id)
        requested_file attempts

  abbrev Raised : Reception → Type 0
  Raised r = (r ≡ bad_zip) ⊎ ((e : Error) × (r ≡ crashed e))

  abbrev prepared_by : Worker → Worker
  prepared_by =
      prepare_for p os identity temp_workspace_dir wait_timeout max_retries execution_id
        requested_file task_id workspace_dir can_copy attempts

  Raised-prepare_for :
      (w : Worker)
      → Raised run.reception
      → (statuses (drop (length w.sent) (prepared_by w).sent)
          ≡ codes "TRANSFERRING_INPUT" ∷ statuses run.sent)
        × ((prepared_by w).prepared ≡ w.prepared)
        × (tree_at workspace_dir (prepared_by w).dirs ≡ some empty_dir)
  unfolding prepare_for after_reception statuses publish_status
  Raised-prepare_for w (inl h) =
      rw (prepare_for, h) (rw (drop-append) refl, refl, tree_at_same workspace_dir empty_dir w.dirs)
  Raised-prepare_for w (inr (e, h)) =
      rw (prepare_for, h) (rw (drop-append) refl, refl, tree_at_same workspace_dir empty_dir w.dirs)

  -- Where the archive cannot be extracted or a message of the transfer raises, the body of the task
  -- returns as if it had succeeded, the only status that was published is TRANSFERRING_INPUT, and
  -- the directory for the workspace is still there. The task was not prepared before.
  pub execute_task-prepare_for-Raised :
      (job : Job) (w : Worker)
      → Raised run.reception
      → find_prepared task_id w.prepared ≡ none
      → let (returns, w') = execute_task p os identity task_id execution_id job (prepared_by w) in
        (returns ≡ true)
        × (statuses (drop (length w.sent) w'.sent) ≡ codes "TRANSFERRING_INPUT" ∷ [])
        × (tree_at workspace_dir w'.dirs ≡ some empty_dir)
  unfolding execute_task
  execute_task-prepare_for-Raised job w h new =
      let (told, same, there) = Raised-prepare_for w h in
      let silent =
        statuses-receive_workspace p wait_timeout max_retries (is_extractable p os identity)
          (stream_keys execution_id identity.delegate_id) (base_of identity execution_id)
          requested_file attempts in
      let skipped : execute_task p os identity task_id execution_id job (prepared_by w)
          ≡ (true, prepared_by w) =
        ground arith in
      rw skipped (refl, told ∙ ap (◌∷◌ (codes "TRANSFERRING_INPUT")) silent, there)
