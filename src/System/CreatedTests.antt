-- ===== src/System/CreatedTests.antt =====
-- A request for an execution, and the worker that runs it.
use delegate_implementation.Base.{
  join_by, ◌≡◌, refl, Text, codes, List, [], ◌∷◌, ◌++◌, some, true, arith, insert, lookup, text_eq,
  int_eq,
}
use delegate_implementation.Platform.{Bytes, Fields}
use delegate_implementation.Streams.{StreamKeys, delegate_prefix, stream_keys}
use delegate_implementation.Workspace.{zip_directory_to_bytes, zip_single_file_to_bytes}
use delegate_implementation.Models.{Execution}
use delegate_implementation.Dispatcher.World.{World}
use delegate_implementation.Views.State.{created}
use delegate_implementation.Views.Executions.{
  Api, Task, new_execution, create_for, create_fields, create_execution,
}
use delegate_implementation.System.Created.{IsFor, prepare_execution-create_execution}
use delegate_implementation.Models.Tables.{
  find_delegate, find_execution, update_executions, add_audit, on_executions,
}
use delegate_implementation.Transfer.Sender.{
  chunk_size, range_from, sha256_bytes, start_fields, chunk_fields, end_fields, send_chunks,
  transfer_messages, on_stream, send_bytes,
}
use delegate_implementation.Transfer.Receiver.{
  initial, is_type, same_text, same_size, seen, on_start, on_chunk, on_end, belongs,
  receive_message,
}
use delegate_implementation.Transfer.Loop.{Entry, apply_reaction, handle_entry, handle_entries}
use delegate_implementation.Dispatcher.Requests.{
  is_authorized, requested_zip, send_workspace, handle_data_request,
}
use delegate_implementation.Dispatcher.Watch.{Message, first_watcher, dispatch}
use delegate_implementation.Worker.{Attempt, request_fields, publish_log, publish_status}
use delegate_implementation.Worker.Tasks.{
  Identity, Worker, base_of, find_prepared, prepare_execution, clean_up, send_output, report,
  run_task,
}
use delegate_implementation.Worker.Stub.{run_stub_task}
use delegate_implementation.Worker.Directories.{
  tree_at, set_tree, makedirs, tree_or_empty, rmtree, write_file,
}
use delegate_implementation.Archive.{Tree, set_content, members, zip_tree, content_in, dir_in}
use delegate_implementation.Archive.Names.{is_name}
use delegate_implementation.Archive.Extraction.{IsTree}
use delegate_implementation.System.Files.{SameFiles}
use delegate_implementation.Samples.Bundle.{tree, zipfile}
use delegate_implementation.System.Input.{asked}
use delegate_implementation.System.Output.{bodies_on}
use delegate_implementation.Samples.{platform, os, db, world}

program : Unit {0}
unfolding tree_at set_tree makedirs tree_or_empty rmtree write_file set_content clean_up is_name
    content_in dir_in find_prepared delegate_prefix stream_keys members join_by zip_tree
    zip_directory_to_bytes zip_single_file_to_bytes range_from sha256_bytes start_fields
    chunk_fields end_fields send_chunks transfer_messages on_stream send_bytes is_type same_text
    same_size seen on_start on_chunk on_end belongs receive_message apply_reaction handle_entry
    handle_entries find_delegate find_execution update_executions add_audit on_executions
    is_authorized requested_zip send_workspace handle_data_request first_watcher dispatch
    request_fields base_of run_stub_task send_output report run_task publish_log publish_status
    bodies_on insert lookup text_eq int_eq
program = tt

abbrev identity : Identity
identity = record { tenant_id = codes "t"; delegate_id = codes "d" }

abbrev body : Fields
body =
    ("tenant_id", codes "t")
    ∷ ("delegate_id", codes "d")
    ∷ ("workspace_fixture", codes "sample")
    ∷ []

abbrev api : Api
api = record { db = db; tasks = [] }

abbrev fresh : Text
fresh = codes "g"

abbrev row : Execution
row = new_execution fresh (codes "t") (codes "d") (codes "sample")

abbrev api' : Api
api' = (create_execution platform os (codes "/f") (some body) fresh api).1

creates :
    create_execution platform os (codes "/f") (some body) fresh api ≡ (created fresh row, api')
unfolding program create_execution create_fields create_for new_execution
creates = refl

abbrev tables : World
tables = record world { db = api'.db }

is_for : IsFor platform body fresh api api' identity tables
unfolding program
is_for = record {
  tables = refl;
  new = refl;
  is_uuid = refl;
  filled = refl;
  tenant = refl;
  named = refl;
  prints = refl;
}

abbrev keys : StreamKeys
keys = stream_keys fresh (codes "d")

abbrev request : Message
request = record {
  stream_key = keys.events;
  id = codes "1";
  fields = asked platform os (codes "/f") (codes "/m") identity fresh (codes "*");
  fresh = codes "x";
}

abbrev base : Fields
base = insert "tenant_id" (codes "t") (insert "execution_id" fresh [])

abbrev entry : Text → Fields → Entry
entry id fields = record { id = id; fields = fields; at = 3 }

abbrev whole : Bytes
whole = zip_tree zipfile tree

abbrev own : Entry
own = entry (codes "1") request.fields

abbrev answer : List Entry
answer =
    entry (codes "2") (start_fields platform chunk_size whole base (codes "x"))
    ∷ entry (codes "3") (chunk_fields platform whole 0 base (codes "x"))
    ∷ entry (codes "4") (end_fields platform 1 base (codes "x"))
    ∷ []

abbrev attempt : Attempt
attempt = record { start = 0; polls = record { now = 1; entries = own ∷ answer } ∷ [] }

tree-IsTree : IsTree tree
unfolding program
tree-IsTree = ((refl, refl, refl, tt), (refl, refl, ((refl, refl, refl, tt), tt), tt))

abbrev worker : Worker
worker = record { prepared = []; dirs = []; sent = [] }

prepare_execution-create_execution_example :
    (task : Task) × (api'.tasks ≡ api.tasks ++ task ∷ [])
    × (task.prefix ≡ delegate_prefix (codes "d"))
    × (let worker' =
          prepare_execution platform os identity
            (codes "/temp/")
            15
            5
            (task.execution_id ∷ task.file_name ∷ [])
            []
            (codes "k")
            (codes "/tmp/w")
            true
            (attempt ∷ [])
            worker in
        (find_prepared (codes "k") worker'.prepared ≡ some (codes "/tmp/w"))
        × ((t : Tree) × (tree_at (codes "/tmp/w") worker'.dirs ≡ some t) × SameFiles t tree))
unfolding program create_execution create_fields create_for new_execution
prepare_execution-create_execution_example =
    prepare_execution-create_execution platform os (codes "/f") (codes "/m") body fresh api api' row
      identity (codes "/temp/") (codes "k") (codes "/tmp/w") true request (first_watcher keys)
      tables worker 15 4 attempt [] (own ∷ []) answer []
      {loop = record { rx = initial; last_id = codes "1"; deadline = 15 }} creates is_for refl
      (tree-IsTree, refl) refl refl refl refl refl (omega arith, tt) (λ e. absurd (ground arith))
