-- ===== src/Worker/Leftovers.antt =====
-- Which directories a task leaves behind.
use delegate_implementation.Base.{
  ℕ, Text, text_eq, text_eq_iff, text_eq-false, List, [], ◌∷◌, none, some, Option-cases, Bool, true,
  false, Bool-cases, if◌then◌else◌, ◌||◌, ◌≡◌, ◌≢◌, ◌⊎◌, inl, inr, ◌∙◌, sym, ap, refl, arith,
}
use delegate_implementation.Platform.{Platform, Bytes, Fields}
use delegate_implementation.Models.{Detail}
use delegate_implementation.Archive.{Tree, empty_dir, extract_zip_bytes}
use delegate_implementation.Workspace.{Os}
use delegate_implementation.Streams.{StreamKeys, stream_keys}
use delegate_implementation.Worker.{Attempt, Reception, extracted, gave_up, receive_workspace}
use delegate_implementation.Worker.Directories.{
  Directories, tree_at, rmtree, set_tree, makedirs, tree_or_empty, tree_at-rmtree, tree_at-set_tree,
}
use delegate_implementation.Worker.Stub.{Job, run_stub_task}
use delegate_implementation.Worker.Tasks.{
  Identity, Worker, is_extractable, base_of, find_prepared, drop_prepared, set_prepared, report,
  clean_up, run_task, execute_task, extract_into, mirror_dir, mirror_to_temp_workspace,
  after_reception, prepare_for,
}

tree_at-makedirs :
    (path other : Text) (ds : Directories)
    → text_eq path other ≡ false
    → tree_at other (makedirs path ds) ≡ tree_at other ds
unfolding makedirs
tree_at-makedirs path other ds h = ground (arith, tree_at-set_tree path other empty_dir ds)

tree_at-run_stub_task :
    (job : Job) (workspace_dir output_dir path : Text) (ds : Directories)
    → text_eq output_dir path ≡ false
    → tree_at path (run_stub_task job workspace_dir output_dir ds).dirs ≡ tree_at path ds
unfolding run_stub_task
tree_at-run_stub_task job workspace_dir output_dir path ds h =
    let made = tree_at-makedirs output_dir path ds h in
    elim (Option-cases (tree_at workspace_dir (makedirs output_dir ds))) [
      | inl e ↦ rw (run_stub_task, e) made
      | inr (t, e) ↦
          rw (run_stub_task, e)
            (elim (Bool-cases job.can_write) [
              | inl can ↦
                  rw can (tree_at-set_tree output_dir path _ (makedirs output_dir ds) ∙ rw h made)
              | inr cannot ↦ rw cannot made
            ])
    ]

module _ (p : Platform) (os : Os) (identity : Identity) where
  dirs-report :
      (keys : StreamKeys) (base : Fields) (transfer_id : Text) (lines : List Detail) (output : Tree)
      (returns : Bool) (w : Worker)
      → (report p os identity keys base transfer_id lines output returns w).1.dirs ≡ w.dirs
  unfolding report
  dirs-report keys base transfer_id lines output true w = refl
  dirs-report keys base transfer_id lines output false w = refl

  prepared-report :
      (keys : StreamKeys) (base : Fields) (transfer_id : Text) (lines : List Detail) (output : Tree)
      (returns : Bool) (w : Worker)
      → (report p os identity keys base transfer_id lines output returns w).1.prepared ≡ w.prepared
  unfolding report
  prepared-report keys base transfer_id lines output true w = refl
  prepared-report keys base transfer_id lines output false w = refl

  tree_at-run_task :
      (workspace_dir execution_id path : Text) (job : Job) (w : Worker)
      → tree_at path (run_task p os identity workspace_dir execution_id job w).1.dirs ≡ (
          if text_eq workspace_dir path || text_eq job.output_dir path
          then none
          else tree_at path w.dirs)
  unfolding run_task clean_up
  tree_at-run_task workspace_dir execution_id path job w =
      let made = set_tree job.output_dir empty_dir w.dirs in
      let ran = run_stub_task job workspace_dir job.output_dir made in
      rw dirs-report (
        tree_at-rmtree job.output_dir path (rmtree workspace_dir ran.dirs)
        ∙ rw (tree_at-rmtree workspace_dir path ran.dirs)
            (elim (Bool-cases (text_eq job.output_dir path)) [
              | inl same ↦ ground arith
              | inr other ↦
                  let a = tree_at-run_stub_task job workspace_dir job.output_dir path made other in
                  let b = tree_at-set_tree job.output_dir path empty_dir w.dirs in ground arith
            ]))

  find_prepared-drop_prepared :
      (task_id : Text) (table : List (Text × Text))
      → find_prepared task_id (drop_prepared task_id table) ≡ none
  unfolding find_prepared drop_prepared
  find_prepared-drop_prepared task_id [] = refl
  find_prepared-drop_prepared task_id ((k, d) ∷ table) =
      ground (arith, find_prepared-drop_prepared task_id table)

  -- Once the body of a task has run in its workspace, whether it returned or raised, neither the
  -- workspace nor its output directory is there, and every other directory is as it was; the
  -- workspace is no longer prepared.
  pub tree_at-execute_task :
      (task_id execution_id workspace_dir path : Text) (job : Job) (w : Worker)
      → find_prepared task_id w.prepared ≡ some workspace_dir
      → let w' = (execute_task p os identity task_id execution_id job w).1 in
        (tree_at path w'.dirs ≡ (
          if text_eq workspace_dir path || text_eq job.output_dir path
          then none
          else tree_at path w.dirs))
        × (find_prepared task_id w'.prepared ≡ none)
  unfolding execute_task run_task clean_up
  tree_at-execute_task task_id execution_id workspace_dir path job w h =
      rw (execute_task, h)
        (
          tree_at-run_task workspace_dir execution_id path job
              (record w { prepared = drop_prepared task_id w.prepared }),
          rw prepared-report (find_prepared-drop_prepared task_id w.prepared),
        )

  module _ (temp_workspace_dir : Text) where
    abbrev pub mirror : Text → Text
    mirror = mirror_dir p os identity temp_workspace_dir

    pub tree_at-mirror :
        (execution_id workspace_dir path : Text) (can_copy : Bool) (ds : Directories)
        → text_eq (mirror execution_id) path ≡ false
        → tree_at path
            (mirror_to_temp_workspace p os identity temp_workspace_dir execution_id workspace_dir
              can_copy ds).1
          ≡ tree_at path ds
    unfolding mirror_to_temp_workspace
    tree_at-mirror execution_id workspace_dir path can_copy ds h =
        let cleared = rmtree (mirror execution_id) ds in
        let same = tree_at-rmtree (mirror execution_id) path ds in
        elim (Option-cases (if can_copy then tree_at workspace_dir cleared else none)) [
          | inl e ↦ rw (mirror_to_temp_workspace, e) (ground arith)
          | inr (t, e) ↦
              let put = tree_at-set_tree (mirror execution_id) path t cleared in
              rw (mirror_to_temp_workspace, e) (ground arith)
        ]

    tree_at-extract_into :
        (workspace_dir path : Text) (content : Bytes) (ds : Directories)
        → text_eq workspace_dir path ≡ false
        → tree_at path (extract_into p os identity workspace_dir content ds) ≡ tree_at path ds
    unfolding extract_into
    tree_at-extract_into workspace_dir path content ds h =
        elim (Option-cases
          (extract_zip_bytes os.zipfile content (tree_or_empty workspace_dir ds))) [
            | inl e ↦ rw (extract_into, e) refl
            | inr (t, e) ↦
                rw (extract_into, e) (tree_at-set_tree workspace_dir path t ds ∙ rw h refl)
          ]

    pub find_prepared-set_prepared :
        (task_id workspace_dir : Text) (table : List (Text × Text))
        → find_prepared task_id (set_prepared task_id workspace_dir table) ≡ some workspace_dir
    unfolding find_prepared set_prepared
    find_prepared-set_prepared task_id workspace_dir table =
        ground (arith, text_eq_iff task_id task_id)

    module _ (wait_timeout max_retries : ℕ)
        (execution_id requested_file task_id workspace_dir : Text) (can_copy : Bool)
        (attempts : List Attempt) where
      abbrev reception_of : Reception
      reception_of =
          (receive_workspace p wait_timeout max_retries (is_extractable p os identity)
            (stream_keys execution_id identity.delegate_id) (base_of identity execution_id)
            requested_file attempts).reception

      abbrev prepared_by : Worker → Worker
      prepared_by =
          prepare_for p os identity temp_workspace_dir wait_timeout max_retries execution_id
            requested_file task_id workspace_dir can_copy attempts

      -- A reception that gave up leaves no workspace, and nothing is prepared.
      prepare_for-gave_up :
          (path : Text) (w : Worker)
          → reception_of ≡ gave_up
          → (tree_at path (prepared_by w).dirs
              ≡ (if text_eq workspace_dir path then none else tree_at path w.dirs))
            × ((prepared_by w).prepared ≡ w.prepared)
      unfolding prepare_for after_reception
      prepare_for-gave_up path w h =
          let made = tree_at-set_tree workspace_dir path empty_dir w.dirs in
          let gone = tree_at-rmtree workspace_dir path (set_tree workspace_dir empty_dir w.dirs) in
          rw (prepare_for, h) (ground arith, refl)

      -- A reception that ends with an archive prepares the workspace, and touches no directory
      -- besides it and the copy.
      prepare_for-extracted :
          (path : Text) (w : Worker) {content : Bytes}
          → reception_of ≡ extracted content
          → (find_prepared task_id (prepared_by w).prepared ≡ some workspace_dir)
            × ((text_eq (mirror execution_id) path ≡ false)
                → (text_eq workspace_dir path ≡ false)
                → tree_at path (prepared_by w).dirs ≡ tree_at path w.dirs)
      unfolding prepare_for after_reception
      prepare_for-extracted path w {content} h =
          let made = set_tree workspace_dir empty_dir w.dirs in
          rw (prepare_for, h)
            (
              find_prepared-set_prepared task_id workspace_dir w.prepared,
              λ a b.
                  tree_at-mirror execution_id workspace_dir path can_copy
                    (extract_into p os identity workspace_dir content made) a
                  ∙ (tree_at-extract_into workspace_dir path content made b
                      ∙ (tree_at-set_tree workspace_dir path empty_dir w.dirs ∙ rw b refl)),
            )

      -- A task whose reception ended, with an archive or by giving up, leaves no directory behind
      -- when its body has run, whether that returned or raised: at every path but that of the copy
      -- for inspection there is what there was before. The task was not prepared before, and
      -- `mkdtemp` gave names that were not in use.
      pub tree_at-execute_task-prepare_for :
          (path : Text) (job : Job) (w : Worker)
          → (reception_of ≡ gave_up) ⊎ ((content : Bytes) × (reception_of ≡ extracted content))
          → find_prepared task_id w.prepared ≡ none
          → tree_at workspace_dir w.dirs ≡ none
          → tree_at job.output_dir w.dirs ≡ none
          → path ≢ mirror execution_id
          → tree_at path
              (execute_task p os identity task_id execution_id job (prepared_by w)).1.dirs
            ≡ tree_at path w.dirs
      unfolding execute_task
      tree_at-execute_task-prepare_for path job w (inl h) new fresh unused other =
          let (gone, same) = prepare_for-gave_up path w h in
          let skipped : execute_task p os identity task_id execution_id job (prepared_by w)
              ≡ (true, prepared_by w) =
            ground arith in
          ap (λ (r : Bool × Worker). tree_at path r.1.dirs) skipped
          ∙ ground (arith, text_eq_iff workspace_dir path)
      tree_at-execute_task-prepare_for path job w (inr (content, h)) new fresh unused other =
          let (there, same) = prepare_for-extracted path w h in
          let (after, none_left) =
            tree_at-execute_task task_id execution_id workspace_dir path job (prepared_by w)
              there in
          let apart = text_eq-false (mirror execution_id) path (λ e. other (sym e)) in
          elim (Bool-cases (text_eq workspace_dir path)) [
            | inl e ↦ ground (arith, text_eq_iff workspace_dir path)
            | inr d ↦ let kept = same apart d in ground (arith, text_eq_iff job.output_dir path)
          ]
