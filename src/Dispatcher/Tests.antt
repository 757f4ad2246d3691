-- ===== src/Dispatcher/Tests.antt =====
-- The dispatcher run on one execution of one delegate, and its theorems at such inputs.
use delegate_implementation.Base.{
  join_by, ◌≡◌, ◌↔◌, ◌⊎◌, refl, pos, Text, codes, List, [], ◌∷◌, ◌++◌, none, some, true, ok, arith,
  insert, lookup, text_eq, int_eq,
}
use delegate_implementation.Platform.{Fields}
use delegate_implementation.Streams.{StreamKeys, delegate_prefix, stream_keys}
use delegate_implementation.Archive.{Parts, members, zip_tree}
use delegate_implementation.Workspace.{
  zip_directory_to_bytes, zip_single_file_to_bytes, zip_single_file_to_bytes-confined,
}
use delegate_implementation.Transfer.Sender.{
  range_from, sha256_bytes, start_fields, chunk_fields, end_fields, send_chunks, transfer_messages,
  on_stream, send_bytes,
}
use delegate_implementation.Transfer.Receiver.{
  is_type, same_text, same_size, seen, on_start, on_chunk, on_end, belongs, receive_message,
}
use delegate_implementation.Models.{succeeded, is_terminal}
use delegate_implementation.Models.Tables.{
  find_delegate, find_execution, update_executions, add_audit, add_log, on_executions,
}
use delegate_implementation.Dispatcher.Requests.{
  status_mapping, is_authorized, requested_zip, send_workspace, handle_data_request, handle_log,
  handle_status,
}
use delegate_implementation.Dispatcher.Authorization.{
  IsAuthorized, OnlyAudits, handle_data_request-guarded,
}
use delegate_implementation.Dispatcher.Output.{
  OutputState, is_valid_output, is_for, output_start, output_chunk, output_path, output_end,
  handle_output_message,
}
use delegate_implementation.Dispatcher.Protocol.{
  rx_of, finish, handle_output_message-receive_message,
}
use delegate_implementation.Dispatcher.Watch.{
  Message, Watcher, set_cursor, first_watcher, dispatch, handle_messages,
}
use delegate_implementation.Dispatcher.Success.{NoNewSuccess, IsValidEnd, dispatch-NoNewSuccess}
use delegate_implementation.Dispatcher.Delivery.{cursors, handle_messages-send_bytes}
use delegate_implementation.Dispatcher.Announcements.{
  MainLoop, announced_keys, announces, is_watched, set_watched, attach, attach_found, announce,
  handle_announcement,
}
use delegate_implementation.Dispatcher.Discovery.{
  StartsAssigned, handle_announcement-StartsAssigned,
}
use delegate_implementation.Samples.Bundle.{single}
use delegate_implementation.Samples.{platform, os, execution, delegate, world}

program : Unit {0}
unfolding delegate_prefix stream_keys members join_by zip_tree zip_directory_to_bytes
    zip_single_file_to_bytes range_from sha256_bytes start_fields chunk_fields end_fields
    send_chunks transfer_messages on_stream send_bytes is_type same_text same_size seen on_start
    on_chunk on_end belongs receive_message find_delegate find_execution update_executions add_audit
    add_log on_executions status_mapping is_authorized requested_zip send_workspace
    handle_data_request handle_log handle_status is_valid_output is_for output_start output_chunk
    output_path output_end handle_output_message set_cursor first_watcher dispatch handle_messages
    insert lookup text_eq int_eq is_terminal announced_keys announces is_watched set_watched attach
    attach_found announce handle_announcement
program = tt

abbrev keys : StreamKeys
keys = stream_keys (codes "e") (codes "d")

abbrev asked : Fields
asked =
    ("tenant_id", codes "t") ∷ ("delegate_id", codes "d") ∷ ("requested_file", codes "a.txt") ∷ []

authorized : IsAuthorized platform world (codes "e") asked
unfolding program
authorized = record {
  execution = execution;
  delegate = delegate;
  asked = refl;
  asks = refl;
  is_active = refl;
  delegate_tenant = refl;
  execution_tenant = refl;
  assigned = refl;
}

handle_data_request-guarded_example :
    IsAuthorized platform world (codes "e") asked
    ⊎ OnlyAudits world
        (handle_data_request platform os
          (codes "/fixtures")
          (codes "e")
          (codes "k")
          asked
          (codes "x")
          world).1
handle_data_request-guarded_example =
    handle_data_request-guarded platform os (codes "/fixtures") (codes "e") (codes "k") asked
      (codes "x") world

zip_single_file_to_bytes-confined_example :
    (zip_single_file_to_bytes os (codes "/w") (codes "a.txt") ≡ some single) ↔ (
      ((rest : Parts) × ((codes "root" ∷ []) ++ rest ≡ codes "root" ∷ []))
      × (true ≡ true)
      × (single ≡ single))
zip_single_file_to_bytes-confined_example =
    zip_single_file_to_bytes-confined os (codes "/w") (codes "a.txt") single

abbrev in_progress : OutputState
in_progress = record {
  transfer_id = codes "x";
  total_size = pos 3;
  checksum = codes "sha256:" ++ 7 ∷ 8 ∷ 9 ∷ [];
  buf = 7 ∷ 8 ∷ 9 ∷ [];
  seen_seq = [];
}

abbrev last_message : Fields
last_message = end_fields platform 2 [] (codes "x")

handle_output_message-receive_message_example :
    handle_output_message platform os (codes "/m") (codes "e") last_message (some in_progress) world
    ≡ finish platform os
        (codes "/m")
        (codes "e")
        (some in_progress)
        (receive_message platform (rx_of (some in_progress)) last_message)
        world
handle_output_message-receive_message_example =
    handle_output_message-receive_message platform os (codes "/m") (codes "e") last_message
      (some in_progress) world

abbrev message : Text → Fields → Message
message id fields = record { stream_key = keys.output; id = id; fields = fields; fresh = [] }

abbrev watcher : Watcher
watcher = first_watcher keys

dispatch-NoNewSuccess_example :
    NoNewSuccess
      (execution ∷ [])
      (dispatch platform os
        (codes "/f")
        (codes "/m")
        (codes "e")
        keys
        (message (codes "1") last_message)
        watcher
        world).1.db.executions
    ⊎ ((keys.output ≡ keys.output) × IsValidEnd platform last_message watcher.output_state)
dispatch-NoNewSuccess_example =
    dispatch-NoNewSuccess platform os (codes "/f") (codes "/m") (codes "e") keys
      (message (codes "1") last_message) watcher world

abbrev output_messages : List Message
output_messages =
    message (codes "1") (start_fields platform 2 (7 ∷ 8 ∷ 9 ∷ []) [] (codes "x"))
    ∷ message (codes "2") (chunk_fields platform (7 ∷ 8 ∷ []) 0 [] (codes "x"))
    ∷ message (codes "3") (chunk_fields platform (9 ∷ []) 1 [] (codes "x"))
    ∷ message (codes "4") (end_fields platform 2 [] (codes "x"))
    ∷ []

handle_messages-send_bytes_example :
    let (r, w') =
      handle_messages platform os
        (codes "/f")
        (codes "/m")
        (codes "e")
        keys
        output_messages
        watcher
        world in
    (r
      ≡ ok (record watcher {
        output_state = none;
        last_ids = cursors output_messages watcher.last_ids;
      }))
    × (w'.files ≡ [] ++ (output_path platform os (codes "/m") (codes "e"), 7 ∷ 8 ∷ 9 ∷ []) ∷ [])
    × (w'.db.executions
        ≡ update_executions
            (codes "e")
            (λ row. record row {
              status = succeeded;
              output_path = output_path platform os (codes "/m") (codes "e");
              output_checksum = sha256_bytes platform (7 ∷ 8 ∷ 9 ∷ []);
            })
            (execution ∷ []))
unfolding start_fields chunk_fields end_fields send_bytes transfer_messages on_stream send_chunks
    range_from
handle_messages-send_bytes_example =
    handle_messages-send_bytes platform os (codes "/f") (codes "/m") (codes "e") (codes "e")
      (codes "d") 2 (7 ∷ 8 ∷ 9 ∷ []) [] (codes "x") {uuid = codes "e"} refl output_messages watcher
      world (omega arith) (refl, (refl, (refl, (refl, tt)))) refl

abbrev idle : MainLoop
idle = record { watched = []; started = []; last_id = codes "0" }

-- It names the streams of another delegate.
abbrev announcement : Fields
announcement =
    ("type", codes "EXECUTION_STARTED")
    ∷ ("execution_id", codes "e")
    ∷ ("events_stream", codes "z")
    ∷ []

abbrev announced : MainLoop
announced = record {
  watched = (codes "e", record { execution_id = codes "e"; keys = keys }) ∷ [];
  started = record { execution_id = codes "e"; keys = keys } ∷ [];
  last_id = codes "5";
}

handle_announcement-StartsAssigned_example :
    let w' = (handle_announcement platform (λ t. true) (codes "5") announcement idle world).1 in
    StartsAssigned platform world idle announced × OnlyAudits world w'
unfolding program
handle_announcement-StartsAssigned_example =
    handle_announcement-StartsAssigned platform (λ t. true) announcement (codes "5") idle announced
      world (handle_announcement platform (λ t. true) (codes "5") announcement idle world).1 refl
