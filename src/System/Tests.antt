-- ===== src/System/Tests.antt =====
-- The output of one execution, from the worker to the dispatcher.
use delegate_implementation.Base.{
  join_by, ◌≡◌, refl, Text, codes, List, [], ◌∷◌, ◌++◌, true, arith, insert, lookup, text_eq,
  int_eq,
}
use delegate_implementation.Platform.{Bytes, Fields}
use delegate_implementation.Streams.{StreamKeys, delegate_prefix, stream_keys}
use delegate_implementation.Workspace.{zip_directory_to_bytes, zip_single_file_to_bytes}
use delegate_implementation.Models.{succeeded}
use delegate_implementation.Models.Tables.{
  find_delegate, find_execution, update_executions, add_audit, on_executions,
}
use delegate_implementation.Transfer.Sender.{
  chunk_size, range_from, sha256_bytes, start_fields, chunk_fields, end_fields, send_chunks,
  transfer_messages, on_stream, send_bytes,
}
use delegate_implementation.Transfer.Receiver.{
  is_type, same_text, same_size, seen, on_start, on_chunk, on_end, belongs, receive_message,
}
use delegate_implementation.Transfer.Loop.{apply_reaction, handle_entry, handle_entries}
use delegate_implementation.Dispatcher.Requests.{
  is_authorized, requested_zip, send_workspace, handle_data_request,
}
use delegate_implementation.Dispatcher.Output.{output_path}
use delegate_implementation.Dispatcher.Watch.{
  Message, Watcher, first_watcher, dispatch, handle_messages,
}
use delegate_implementation.Worker.{request_fields, publish_log, publish_status}
use delegate_implementation.Worker.Tasks.{
  Identity, Worker, base_of, find_prepared, clean_up, send_output, report, run_task,
}
use delegate_implementation.Worker.Stub.{Job, run_stub_task}
use delegate_implementation.Worker.Directories.{
  tree_at, set_tree, makedirs, tree_or_empty, rmtree, write_file,
}
use delegate_implementation.Archive.{set_content, members, zip_tree, content_in, dir_in}
use delegate_implementation.Archive.Names.{is_name}
use delegate_implementation.Samples.Bundle.{bundle, tree}
use delegate_implementation.System.Output.{bodies_on, handle_messages-run_task}
use delegate_implementation.Samples.{platform, os, execution, world}

program : Unit {0}
unfolding tree_at set_tree makedirs tree_or_empty rmtree write_file set_content clean_up is_name
    content_in dir_in find_prepared delegate_prefix stream_keys members join_by zip_tree
    zip_directory_to_bytes zip_single_file_to_bytes range_from sha256_bytes start_fields
    chunk_fields end_fields send_chunks transfer_messages on_stream send_bytes is_type same_text
    same_size seen on_start on_chunk on_end belongs receive_message apply_reaction handle_entry
    handle_entries find_delegate find_execution update_executions add_audit on_executions
    is_authorized requested_zip send_workspace handle_data_request first_watcher dispatch
    request_fields base_of run_stub_task send_output report run_task publish_log publish_status
    bodies_on insert lookup text_eq int_eq
program = tt

abbrev identity : Identity
identity = record { tenant_id = codes "t"; delegate_id = codes "d" }

abbrev keys : StreamKeys
keys = stream_keys (codes "e") (codes "d")

abbrev watcher : Watcher
watcher = first_watcher keys

abbrev job : Job
job = record {
  output_dir = codes "/tmp/o";
  can_write = true;
  text_bytes = λ text. 7 ∷ 8 ∷ [];
  transfer_id = codes "y";
}

abbrev busy : Worker
busy = record { prepared = []; dirs = (codes "/tmp/w", tree) ∷ []; sent = [] }

abbrev message : Text → Fields → Message
message id fields = record { stream_key = keys.output; id = id; fields = fields; fresh = [] }

abbrev result : Bytes
result = bundle ((codes "result.txt", 7 ∷ 8 ∷ []) ∷ [])

abbrev output : List Message
output =
    message (codes "1")
      (start_fields platform chunk_size result (base_of identity (codes "e")) (codes "y"))
    ∷ message (codes "2")
        (chunk_fields platform result 0 (base_of identity (codes "e")) (codes "y"))
    ∷ message (codes "3") (end_fields platform 1 (base_of identity (codes "e")) (codes "y"))
    ∷ []

handle_messages-run_task_example :
    let w' =
      (handle_messages platform os
        (codes "/f")
        (codes "/m")
        (codes "e")
        keys
        output
        watcher
        world).1 in
    (w'.files ≡ [] ++ (output_path platform os (codes "/m") (codes "e"), result) ∷ [])
    × (w'.db.executions
        ≡ update_executions
            (codes "e")
            (λ row. record row {
              status = succeeded;
              output_path = output_path platform os (codes "/m") (codes "e");
              output_checksum = sha256_bytes platform result;
            })
            (execution ∷ []))
unfolding program
handle_messages-run_task_example =
    handle_messages-run_task platform os identity (codes "e") (codes "/f") (codes "/m")
      (codes "/tmp/w") job busy tree output watcher world {uuid = codes "e"} refl refl
      (λ e. absurd (ground arith)) refl (refl, (refl, (refl, tt))) refl
