-- ===== src/System/Output.antt =====
-- From the worker's task through its output stream to the control plane's tables.
use delegate_implementation.Base.{
  Text, codes, text_eq, text_eq_refl, text_eq-false, List, [], ◌∷◌, ◌++◌, map, drop, length,
  drop-append, append-nil, All, some, Bool, true, false, if◌then◌else◌, ◌≡◌, ◌≢◌, ◌∙◌, sym, refl,
  ap, arith,
}
use delegate_implementation.Platform.{Platform, Fields}
use delegate_implementation.Archive.{Tree, node, no_dirs, empty_dir, set_content, zip_tree}
use delegate_implementation.Workspace.{Os}
use delegate_implementation.Streams.{StreamKeys, stream_keys}
use delegate_implementation.Streams.Isolation.{log, status, output, stream_keys-distinct}
use delegate_implementation.Models.{Detail, succeeded}
use delegate_implementation.Models.Tables.{update_executions}
use delegate_implementation.Transfer.Sender.{
  Xadd, chunk_size, sha256_bytes, send_bytes, on_stream, transfer_messages,
}
use delegate_implementation.Dispatcher.World.{World}
use delegate_implementation.Dispatcher.Output.{output_path}
use delegate_implementation.Dispatcher.Watch.{Message, Watcher, handle_messages}
use delegate_implementation.Dispatcher.Delivery.{bodies, handle_messages-send_bytes}
use delegate_implementation.Worker.{Body, Publish, transfer, publish_log, publish_status}
use delegate_implementation.Worker.Directories.{
  Directories, tree_at, set_tree, tree_or_empty, sorted, listdir, write_file, tree_at-set_tree,
  tree_at_same, makedirs_there, tree_or_empty_there,
}
use delegate_implementation.Worker.Stub.{Job, result_text, run_stub_task}
use delegate_implementation.Worker.Tasks.{
  Identity, Worker, base_of, transfer_of, send_output, report, clean_up, run_task,
}

-- What stands on one stream, in order.
unfoldable pub bodies_on : Text → List Publish → List Body
bodies_on key [] = []
bodies_on key (m ∷ ms) =
    let rest = bodies_on key ms in if text_eq m.stream_key key then m.body ∷ rest else rest

bodies_on-append :
    (key : Text) (xs ys : List Publish)
    → bodies_on key (xs ++ ys) ≡ bodies_on key xs ++ bodies_on key ys
unfolding bodies_on
bodies_on-append key [] ys = refl
bodies_on-append key (m ∷ xs) ys = ground (arith, bodies_on-append key xs ys)

module _ (p : Platform) (os : Os) (identity : Identity) (execution_id : Text) where
  abbrev pub keys : StreamKeys
  keys = stream_keys execution_id identity.delegate_id

  log-output : text_eq keys.log keys.output ≡ false
  log-output = text_eq-false keys.log keys.output (λ e.
      absurd (ground (arith, stream_keys-distinct execution_id identity.delegate_id log output e)))

  status-output : text_eq keys.status keys.output ≡ false
  status-output = text_eq-false keys.status keys.output (λ e.
      absurd
        (ground (arith, stream_keys-distinct execution_id identity.delegate_id status output e)))

  logs_elsewhere :
      (base : Fields) (lines : List Detail)
      → bodies_on keys.output (map (publish_log keys.log base) lines) ≡ []
  unfolding bodies_on publish_log
  logs_elsewhere base [] = refl
  logs_elsewhere base (l ∷ lines) = rw log-output (logs_elsewhere base lines)

  transfer_there :
      (fs : List Fields)
      → bodies_on keys.output (map transfer_of (on_stream p keys.output fs))
        ≡ map transfer (map (λ (c : Xadd). c.1) (on_stream p keys.output fs))
  unfolding bodies_on on_stream
  transfer_there [] = refl
  transfer_there (f ∷ fs) =
      rw (text_eq_refl keys.output) (ap (◌∷◌ (transfer f)) (transfer_there fs))

  -- The commands of the transfer, the log line and the status.
  output_there :
      (transfer_id : Text) (base : Fields) (result : Tree)
      → bodies_on keys.output (
          send_output p os identity keys base transfer_id result
          ++ publish_status keys.status base (codes "TASK_SUCCEEDED") ∷ [])
        ≡ map transfer (
            map
              (λ (c : Xadd). c.1)
              (send_bytes p chunk_size keys.output
                (zip_tree os.zipfile result)
                base
                transfer_id).commands)
  unfolding send_output send_bytes bodies_on publish_log publish_status
  output_there transfer_id base result =
      rw (bodies_on-append, bodies_on-append, log-output, status-output, append-nil, append-nil)
        (transfer_there
          (transfer_messages p chunk_size (zip_tree os.zipfile result) base transfer_id))

  -- `result.txt` and nothing else
  abbrev pub result_of : Job → Tree → Tree
  result_of job workspace =
      node ((codes "result.txt", job.text_bytes (result_text (sorted (listdir workspace)))) ∷ [])
        no_dirs

  stub_returns :
      (job : Job) (workspace_dir : Text) (workspace : Tree) (ds : Directories)
      → workspace_dir ≢ job.output_dir
      → tree_at workspace_dir ds ≡ some workspace
      → job.can_write ≡ true
      → let ran =
          run_stub_task job workspace_dir job.output_dir (set_tree job.output_dir empty_dir ds) in
        (ran.returns ≡ true) × (tree_or_empty job.output_dir ran.dirs ≡ result_of job workspace)
  unfolding run_stub_task write_file set_content
  stub_returns job workspace_dir workspace ds apart there can =
      let made = set_tree job.output_dir empty_dir ds in
      let differ = text_eq-false job.output_dir workspace_dir (λ e. apart (sym e)) in
      let here = tree_at-set_tree job.output_dir workspace_dir empty_dir ds in
      let new = tree_at_same job.output_dir empty_dir ds in
      let read : tree_at workspace_dir made ≡ some workspace = ground arith in
      rw (run_stub_task, makedirs_there job.output_dir made new, read, can)
        (
          refl,
          rw (makedirs_there job.output_dir made new) (
              tree_or_empty_there job.output_dir
                (set_tree job.output_dir
                  (write_file (codes "result.txt")
                    (job.text_bytes (result_text (sorted (listdir workspace))))
                    (tree_or_empty job.output_dir made))
                  made)
                (tree_at_same job.output_dir _ made)
              ∙ rw (tree_or_empty_there job.output_dir made new) refl),
        )

  -- A task that returns publishes on its output stream exactly one transfer of its output.
  bodies_on-report :
      (transfer_id : Text) (w : Worker) (lines : List Detail) (result : Tree)
      → bodies_on keys.output (
          drop
            (length w.sent)
            (report p os identity keys
              (base_of identity execution_id)
              transfer_id
              lines
              result
              true
              w).1.sent)
        ≡ map transfer (
            map
              (λ c. c.1)
              (send_bytes p chunk_size keys.output
                (zip_tree os.zipfile result)
                (base_of identity execution_id)
                transfer_id).commands)
  unfolding report send_output bodies_on publish_log publish_status
  bodies_on-report transfer_id w lines result =
      let base = base_of identity execution_id in
      rw (drop-append, status-output)
        (bodies_on-append keys.output (map (publish_log keys.log base) lines) _
          ∙ rw (logs_elsewhere base lines) (output_there transfer_id base result))

  map-transfer-injective : (xs ys : List Fields) → map transfer xs ≡ map transfer ys → xs ≡ ys
  map-transfer-injective [] [] h = refl
  map-transfer-injective [] (y ∷ ys) h = absurd (ground arith)
  map-transfer-injective (x ∷ xs) [] h = absurd (ground arith)
  map-transfer-injective (x ∷ xs) (y ∷ ys) h =
      let e : x ≡ y = cc in
      let rest : map transfer xs ≡ map transfer ys = cc in
      rw e (ap (◌∷◌ y) (map-transfer-injective xs ys rest))

  -- What a task whose workspace is there and that can write its result publishes on its output
  -- stream, read in order by the watcher of the execution, makes the control plane store exactly
  -- the archive of `result.txt`, which reports the sorted names of the workspace, and set the row
  -- to SUCCEEDED, with the path of the file and the checksum of the archive.
  pub handle_messages-run_task :
      (fixtures_dir media_root workspace_dir : Text) (job : Job) (worker : Worker)
      (workspace : Tree) (ms : List Message) (s : Watcher) (w : World) {uuid : Text}
      → p.to_uuid execution_id ≡ some uuid
      → tree_at workspace_dir worker.dirs ≡ some workspace
      → workspace_dir ≢ job.output_dir
      → job.can_write ≡ true
      → All (λ m. m.stream_key ≡ keys.output) ms
      → bodies_on keys.output (
          drop
            (length worker.sent)
            (run_task p os identity workspace_dir execution_id job worker).1.sent)
        ≡ map transfer (bodies ms)
      → let w' = (handle_messages p os fixtures_dir media_root execution_id keys ms s w).1 in
        let archive = zip_tree os.zipfile (result_of job workspace) in
        (w'.files ≡ w.files ++ (output_path p os media_root execution_id, archive) ∷ [])
        × (w'.db.executions
            ≡ update_executions uuid
                (λ row. record row {
                  status = succeeded;
                  output_path = output_path p os media_root execution_id;
                  output_checksum = sha256_bytes p archive;
                })
                w.db.executions)
  unfolding run_task clean_up
  handle_messages-run_task fixtures_dir media_root workspace_dir job worker workspace ms s w {uuid}
        id read apart can there sent =
      let base = base_of identity execution_id in
      let ran =
        run_stub_task job workspace_dir job.output_dir
          (set_tree job.output_dir empty_dir worker.dirs) in
      let (returns, made) = stub_returns job workspace_dir workspace worker.dirs apart read can in
      let archive = zip_tree os.zipfile (result_of job workspace) in
      let same =
        map-transfer-injective (bodies ms)
          (map (λ (c : Xadd). c.1)
            (send_bytes p chunk_size keys.output archive base job.transfer_id).commands)
          (sym sent
            ∙ (ap
                  (λ (r : Bool × Tree). bodies_on keys.output (
                    drop (length worker.sent)
                      (report p os identity keys base job.transfer_id ran.lines r.1 r.0
                        (record worker { dirs = ran.dirs })).1.sent))
                  (λ i. (returns i, made i))
                ∙ bodies_on-report job.transfer_id (record worker { dirs = ran.dirs }) ran.lines
                    (result_of job workspace))) in
      let stored =
        handle_messages-send_bytes p os fixtures_dir media_root execution_id execution_id
          identity.delegate_id chunk_size archive base job.transfer_id {uuid = uuid} id ms s w
          (omega arith) there same in
      (stored.1, stored.2)
