-- ===== src/System/Files.antt =====
-- The files of a workspace, from the control plane's directory to the worker's.
use delegate_implementation.Base.{
  ℕ, suc, Text, codes, text_eq, text_eq_refl, text_eq-false, List, ◌∷◌, ◌++◌, map, drop, length,
  some, Bool, true, ◌≡◌, ◌≢◌, ◌∙◌, refl,
}
use delegate_implementation.Platform.{Platform}
use delegate_implementation.Archive.{Parts, Tree, empty_dir, find, members, entry_of, zip_tree}
use delegate_implementation.Archive.Extraction.{IsTree}
use delegate_implementation.Archive.RoundTrip.{extract_zip_bytes-zip_tree}
use delegate_implementation.Workspace.{Os, zip_directory_to_bytes}
use delegate_implementation.Transfer.Loop.{Entry, Loop, waiting, handle_entries, at_call}
use delegate_implementation.Transfer.RoundTrip.{contents}
use delegate_implementation.Transfer.Batches.{all_entries, Timely}
use delegate_implementation.Dispatcher.World.{World}
use delegate_implementation.Dispatcher.Requests.{requested_zip}
use delegate_implementation.Dispatcher.Watch.{Message, Watcher, dispatch}
use delegate_implementation.Worker.{Attempt, extracted, receive_workspace}
use delegate_implementation.Worker.Directories.{
  Directories, tree_at, set_tree, tree_or_empty, tree_at-set_tree,
}
use delegate_implementation.Worker.Tasks.{
  Identity, Worker, is_extractable, extract_into, base_of, find_prepared, after_reception,
  prepare_for,
}
use delegate_implementation.Worker.Leftovers.{mirror, tree_at-mirror, find_prepared-set_prepared}
use delegate_implementation.System.Input.{keys, asked, IsOwner, receive_workspace-dispatch}

-- The same files at the same paths, and no others.
abbrev pub SameFiles : Tree → Tree → Type 0
SameFiles t u = (path : Parts) → find path t ≡ find path u

module _ (p : Platform) (os : Os) (identity : Identity) (workspace : Tree) where
  -- What a directory is, and that `ZipFile.write` takes its files.
  abbrev pub IsArchivable : Type 0
  IsArchivable = IsTree workspace × (os.zipfile.accepts (map entry_of (members workspace)) ≡ true)

  is_extractable-zip_tree :
      IsArchivable → is_extractable p os identity (zip_tree os.zipfile workspace) ≡ true
  unfolding is_extractable
  is_extractable-zip_tree h =
      let (t, made, same) = extract_zip_bytes-zip_tree os.zipfile workspace h.0 h.1 in rw made refl

  tree_at-extract_into :
      (workspace_dir : Text) (ds : Directories)
      → IsArchivable
      → (t : Tree) × (tree_at workspace_dir (
            extract_into p os identity workspace_dir
              (zip_tree os.zipfile workspace)
              (set_tree workspace_dir empty_dir ds))
          ≡ some t)
        × SameFiles t workspace
  unfolding extract_into tree_or_empty
  tree_at-extract_into workspace_dir ds h =
      let (t, made, same) = extract_zip_bytes-zip_tree os.zipfile workspace h.0 h.1 in
      let new = tree_at-set_tree workspace_dir workspace_dir empty_dir ds in
      let after =
        tree_at-set_tree workspace_dir workspace_dir t (set_tree workspace_dir empty_dir ds) in
      (
        t,
        rw (extract_into, tree_or_empty, new, text_eq_refl workspace_dir, made)
            (after ∙ rw (text_eq_refl workspace_dir) refl),
        same,
      )

  module _ (temp_workspace_dir : Text) (wait_timeout max_retries : ℕ)
      (execution_id requested_file task_id workspace_dir : Text) (can_copy : Bool)
      (attempts : List Attempt) where
    prepare_for-zip_tree :
        (w : Worker)
        → IsArchivable
        → mirror p os identity temp_workspace_dir execution_id ≢ workspace_dir
        → (receive_workspace p wait_timeout max_retries
            (is_extractable p os identity)
            (keys p os (codes "") (codes "") identity execution_id requested_file)
            (base_of identity execution_id)
            requested_file
            attempts).reception
          ≡ extracted (zip_tree os.zipfile workspace)
        → let w' =
            prepare_for p os identity temp_workspace_dir wait_timeout max_retries execution_id
              requested_file task_id workspace_dir can_copy attempts w in
          (find_prepared task_id w'.prepared ≡ some workspace_dir)
          × ((t : Tree) × (tree_at workspace_dir w'.dirs ≡ some t) × SameFiles t workspace)
    unfolding prepare_for after_reception
    prepare_for-zip_tree w h apart received =
        let made = set_tree workspace_dir empty_dir w.dirs in
        let (t, there, same) = tree_at-extract_into workspace_dir w.dirs h in
        rw (prepare_for, received)
          (
            find_prepared-set_prepared p os identity temp_workspace_dir task_id workspace_dir
                w.prepared,
            (
              t,
              tree_at-mirror p os identity temp_workspace_dir execution_id workspace_dir
                    workspace_dir can_copy
                    (extract_into p os identity workspace_dir (zip_tree os.zipfile workspace) made)
                    (text_eq-false (mirror p os identity temp_workspace_dir execution_id)
                      workspace_dir apart)
                  ∙ there,
              same,
            ),
          )

-- The worker that owns an execution prepares its workspace from the directory of the control plane.
-- It asks for the whole workspace, whose names are names and which `ZipFile.write` accepts; the
-- watcher handles the request; what the replies to the first attempt hold are entries that do not
-- end the call, the messages that the watcher has then published, and any others, each poll in
-- time; the copy for inspection is elsewhere. Then the workspace is prepared, and its directory has
-- the same files at the same paths as the directory of the control plane, and no others.
pub prepare_for-dispatch :
    (p : Platform) (os : Os) (fixtures_dir media_root : Text) (identity : Identity)
    (execution_id temp_workspace_dir task_id workspace_dir : Text) (can_copy : Bool) (m : Message)
    (s : Watcher) (w : World) (worker : Worker) (wait_timeout left : ℕ) (attempt : Attempt)
    (attempts : List Attempt) (before es rest : List Entry) {loop : Loop}
    (o : IsOwner p os fixtures_dir media_root identity execution_id (codes "*") w)
    → let ks = keys p os fixtures_dir media_root identity execution_id (codes "*") in
      let source = os.tree (os.join fixtures_dir o.execution.workspace_fixture) in
      let w' = (dispatch p os fixtures_dir media_root execution_id ks m s w).1 in
      IsArchivable p os identity source
      → m.stream_key ≡ ks.events
      → m.fields ≡ asked p os fixtures_dir media_root identity execution_id (codes "*")
      → all_entries attempt.polls ≡ before ++ (es ++ rest)
      → contents es ≡ map (λ c. c.1) (drop (length w.sent) w'.sent)
      → handle_entries p wait_timeout before (at_call p wait_timeout (codes "0") attempt.start)
        ≡ waiting loop
      → Timely p wait_timeout attempt.polls (at_call p wait_timeout (codes "0") attempt.start)
      → mirror p os identity temp_workspace_dir execution_id ≢ workspace_dir
      → let done =
          prepare_for p os identity temp_workspace_dir wait_timeout
            (suc left)
            execution_id
            (codes "*")
            task_id
            workspace_dir
            can_copy
            (attempt ∷ attempts)
            worker in
        (find_prepared task_id done.prepared ≡ some workspace_dir)
        × ((t : Tree) × (tree_at workspace_dir done.dirs ≡ some t) × SameFiles t source)
unfolding requested_zip zip_directory_to_bytes text_eq
prepare_for-dispatch p os fixtures_dir media_root identity execution_id temp_workspace_dir task_id
      workspace_dir can_copy m s w worker wait_timeout left attempt attempts before es rest {loop} o
      archivable there h split sent quiet timely apart =
    let source = os.tree (os.join fixtures_dir o.execution.workspace_fixture) in
    prepare_for-zip_tree p os identity source temp_workspace_dir wait_timeout (suc left)
      execution_id (codes "*") task_id workspace_dir can_copy (attempt ∷ attempts) worker archivable
      apart
      (receive_workspace-dispatch p os fixtures_dir media_root identity execution_id (codes "*") m s
        w (zip_tree os.zipfile source) wait_timeout left (is_extractable p os identity) attempt
        attempts before es rest {loop = loop} o there h refl
        (is_extractable-zip_tree p os identity source archivable) split sent quiet timely)
