-- ===== src/Worker/Execution.antt =====
-- When the body of a task runs.
use delegate_implementation.Base.{
  ℕ, Text, is_empty, List, none, Option-cases, Bool, true, Bool-cases, Any, ◌≡◌, ◌⊎◌, inl, inr,
  refl, arith,
}
use delegate_implementation.Platform.{Platform, Bytes, Fields}
use delegate_implementation.Streams.{StreamKeys, stream_keys}
use delegate_implementation.Worker.{
  Attempt, Reception, extracted, gave_up, bad_zip, pending, crashed, receive_workspace,
}
use delegate_implementation.Worker.Retries.{Completes, receive_workspace-extracted}
use delegate_implementation.Workspace.{Os}
use delegate_implementation.Worker.Stub.{Job}
use delegate_implementation.Worker.Tasks.{
  Identity, Worker, is_extractable, base_of, find_prepared, execution_argument, file_argument,
  after_reception, prepare_for, prepare_execution, execute_task,
}

Reception-cases :
    (r : Reception)
    → ((content : Bytes) × (r ≡ extracted content))
      ⊎ ((p : Platform) (os : Os) (identity : Identity)
            (temp execution_id task_id workspace_dir : Text) (can_copy : Bool) (keys : StreamKeys)
            (base_fields : Fields) (w : Worker)
          → (after_reception p os identity temp execution_id task_id workspace_dir can_copy keys
              base_fields r w).prepared
            ≡ w.prepared)
unfolding after_reception
Reception-cases (extracted content) = inl (content, refl)
Reception-cases gave_up = inr (λ p os i temp e t d c k b w. refl)
Reception-cases bad_zip = inr (λ p os i temp e t d c k b w. refl)
Reception-cases pending = inr (λ p os i temp e t d c k b w. refl)
Reception-cases (crashed e) = inr (λ p os i temp e t d c k b w. refl)

module _ (p : Platform) (os : Os) (identity : Identity) (temp_workspace_dir : Text)
    (wait_timeout max_retries : ℕ) where
  abbrev Arrived : List Attempt → Type 0
  Arrived attempts =
      (content : Bytes) × Any (Completes p wait_timeout (is_extractable p os identity) content)
        attempts

  prepared-prepare_for :
      (execution_id file task_id dir : Text) (can_copy : Bool) (attempts : List Attempt)
      (w : Worker)
      → Arrived attempts
        ⊎ ((prepare_for p os identity temp_workspace_dir wait_timeout max_retries execution_id file
              task_id dir can_copy attempts w).prepared
            ≡ w.prepared)
  unfolding prepare_for
  prepared-prepare_for execution_id file task_id dir can_copy attempts w =
      let keys = stream_keys execution_id identity.delegate_id in
      let base_fields = base_of identity execution_id in
      let run =
        receive_workspace p wait_timeout max_retries (is_extractable p os identity) keys base_fields
          file attempts in
      elim (Reception-cases run.reception) [
        | inl (content, h) ↦ inl (
          content,
          receive_workspace-extracted p wait_timeout max_retries (is_extractable p os identity) keys
              base_fields file attempts content h,
        )
        | inr keeps ↦ inr (
            keeps p os identity temp_workspace_dir execution_id task_id dir can_copy keys
              base_fields _)
      ]

  prepared-prepare_execution :
      (args : List Text) (kwargs : Fields) (task_id dir : Text) (can_copy : Bool)
      (attempts : List Attempt) (w : Worker)
      → Arrived attempts
        ⊎ ((prepare_execution p os identity temp_workspace_dir wait_timeout max_retries args kwargs
              task_id dir can_copy attempts w).prepared
            ≡ w.prepared)
  unfolding prepare_execution
  prepared-prepare_execution args kwargs task_id dir can_copy attempts w =
      elim (Option-cases (execution_argument args kwargs)) [
        | inl missing ↦ inr (ground arith)
        | inr (id, given) ↦ elim (Bool-cases (is_empty id)) [
          | inl empty ↦ inr (ground arith)
          | inr filled ↦
              let step =
                prepared-prepare_for id (file_argument args kwargs) task_id dir can_copy attempts
                  w in
              elim step [ inl arrived ↦ inl arrived | inr same ↦ inr (ground arith) ]
        ]
      ]

  -- For a task whose id holds no workspace yet, either one of the attempts to receive its
  -- workspace has completed with a ZIP, or the body of the task publishes and changes nothing.
  pub execute_task-prepare_execution :
      (args : List Text) (kwargs : Fields) (task_id dir : Text) (can_copy : Bool)
      (attempts : List Attempt) (w : Worker) (execution_id : Text) (job : Job)
      → find_prepared task_id w.prepared ≡ none
      → let w' =
          prepare_execution p os identity temp_workspace_dir wait_timeout max_retries args kwargs
            task_id dir can_copy attempts w in
        ((content : Bytes) × Any
            (Completes p wait_timeout (is_extractable p os identity) content)
            attempts)
        ⊎ (execute_task p os identity task_id execution_id job w' ≡ (true, w'))
  unfolding execute_task
  execute_task-prepare_execution args kwargs task_id dir can_copy attempts w execution_id job new =
      elim (prepared-prepare_execution args kwargs task_id dir can_copy attempts w) [
        | inl arrived ↦ inl arrived
        | inr same ↦ inr (ground arith)
      ]
