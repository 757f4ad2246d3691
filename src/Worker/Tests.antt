-- ===== src/Worker/Tests.antt =====
-- The worker run on an attempt that times out and one that brings the workspace.
use delegate_implementation.Base.{
  ◌++◌, split_on, ◌≡◌, ◌≤◌, refl, Text, codes, List, [], ◌∷◌, some, true, false, drop, inl, inr,
  arith, insert, lookup, text_eq, int_eq,
}
use delegate_implementation.Platform.{Fields}
use delegate_implementation.Streams.{StreamKeys, stream_keys, delegate_prefix}
use delegate_implementation.Transfer.Sender.{
  range_from, sha256_bytes, start_fields, chunk_fields, end_fields, send_chunks, transfer_messages,
}
use delegate_implementation.Transfer.Receiver.{
  is_type, same_text, same_size, seen, on_start, on_chunk, on_end, belongs, receive_message,
}
use delegate_implementation.Transfer.Loop.{
  Entry, apply_reaction, handle_entry, handle_entries, poll_loop, receive_once,
}
use delegate_implementation.Worker.{Attempt, request, receive_from, receive_workspace, publish_log}
use delegate_implementation.Worker.Retries.{requests, requests-receive_workspace}
use delegate_implementation.Worker.Tasks.{
  Identity, Worker, is_extractable, base_of, find_prepared, prepare_for, prepare_execution,
  execute_task,
}
use delegate_implementation.Worker.Stub.{Job}
use delegate_implementation.Worker.Directories.{tree_at}
use delegate_implementation.Transfer.Receiver.{timeout}
use delegate_implementation.Worker.{extracted}
use delegate_implementation.Worker.Recovery.{Fails, no_more, one_more, receive_workspace-Fails}
use delegate_implementation.Worker.Raised.{statuses, execute_task-prepare_for-Raised}
use delegate_implementation.Worker.Leftovers.{tree_at-execute_task-prepare_for}
use delegate_implementation.Archive.{
  empty_dir, is_kept, is_dir_name, set_content, put, extract_member, extract_all, extract_zip_bytes,
  content_in, dir_in,
}
use delegate_implementation.Samples.Bundle.{single}
use delegate_implementation.Samples.{platform, os}

program : Unit {0}
unfolding range_from sha256_bytes start_fields chunk_fields end_fields send_chunks transfer_messages
    is_type same_text same_size seen on_start on_chunk on_end belongs receive_message apply_reaction
    handle_entry handle_entries poll_loop receive_once insert lookup text_eq int_eq request
    receive_from receive_workspace publish_log requests stream_keys delegate_prefix is_extractable
    is_kept is_dir_name split_on set_content put extract_member extract_all extract_zip_bytes
    find_prepared tree_at content_in dir_in base_of
program = tt

abbrev keys : StreamKeys
keys = stream_keys (codes "e") (codes "d")

abbrev base : Fields
base = ("tenant_id", codes "t") ∷ []

abbrev entry : Text → Fields → Entry
entry id fields = record { id = id; fields = fields; at = 30 }

abbrev late : Attempt
late = record { start = 0; polls = record { now = 15; entries = [] } ∷ [] }

abbrev good : Attempt
good = record {
  start = 20;
  polls =
      record {
        now = 21;
        entries =
            entry (codes "2") (start_fields platform 2 (7 ∷ []) base (codes "x"))
            ∷ entry (codes "3") (chunk_fields platform (7 ∷ []) 0 base (codes "x"))
            ∷ entry (codes "4") (end_fields platform 1 base (codes "x"))
            ∷ [];
      }
      ∷ [];
}

requests-receive_workspace_example :
    requests
      (receive_workspace platform 15 5 (λ z. true) keys base (codes "*") (late ∷ good ∷ [])).sent
    ≤ 5
requests-receive_workspace_example =
    requests-receive_workspace platform 15 5 (λ z. true) keys base (codes "*") (late ∷ good ∷ [])

abbrev identity : Identity
identity = record { tenant_id = codes "t"; delegate_id = codes "d" }

abbrev worker : Worker
worker = record { prepared = []; dirs = []; sent = [] }

abbrev job : Job
job = record {
  output_dir = codes "/tmp/o";
  can_write = false;
  text_bytes = λ text. 9 ∷ [];
  transfer_id = codes "y";
}

abbrev prepared : List Attempt → Worker
prepared attempts =
    prepare_execution platform os identity (codes "/temp/") 15 2 (codes "e" ∷ []) [] (codes "k")
      (codes "/tmp/w") true attempts worker

-- The workspace arrives at the second attempt, and the body of the task raises.
abbrev brings : Attempt
brings = record {
  start = 20;
  polls =
      record {
        now = 21;
        entries =
            entry (codes "2") (start_fields platform 64 single base (codes "x"))
            ∷ entry (codes "3") (chunk_fields platform single 0 base (codes "x"))
            ∷ entry (codes "4") (end_fields platform 1 base (codes "x"))
            ∷ [];
      }
      ∷ [];
}

tree_at-execute_task-prepare_for_example :
    tree_at
      (codes "/tmp/o")
      (execute_task platform os identity (codes "k") (codes "e") job (
        prepare_for platform os identity
          (codes "/temp/")
          15
          2
          (codes "e")
          (codes "*")
          (codes "k")
          (codes "/tmp/w")
          true
          (late ∷ brings ∷ [])
          worker)).1.dirs
    ≡ tree_at (codes "/tmp/o") []
unfolding program
tree_at-execute_task-prepare_for_example =
    tree_at-execute_task-prepare_for platform os identity (codes "/temp/") 15 2 (codes "e")
      (codes "*") (codes "k") (codes "/tmp/w") true (late ∷ brings ∷ []) (codes "/tmp/o") job worker
      (inr (single, refl)) refl refl refl (λ e. absurd (ground arith))

-- What arrives is no archive.
abbrev broken : Attempt
broken = record {
  start = 20;
  polls =
      record {
        now = 21;
        entries =
            entry (codes "2") (start_fields platform 64 (7 ∷ []) base (codes "x"))
            ∷ entry (codes "3") (chunk_fields platform (7 ∷ []) 0 base (codes "x"))
            ∷ entry (codes "4") (end_fields platform 1 base (codes "x"))
            ∷ [];
      }
      ∷ [];
}

execute_task-prepare_for-Raised_example :
    let (returns, w') = execute_task platform os identity (codes "k") (codes "e") job (
      prepare_for platform os identity
        (codes "/temp/")
        15
        2
        (codes "e")
        (codes "*")
        (codes "k")
        (codes "/tmp/w")
        true
        (broken ∷ [])
        worker) in
    (returns ≡ true)
    × (statuses (drop 0 w'.sent) ≡ codes "TRANSFERRING_INPUT" ∷ [])
    × (tree_at (codes "/tmp/w") w'.dirs ≡ some empty_dir)
unfolding program
execute_task-prepare_for-Raised_example =
    execute_task-prepare_for-Raised platform os identity (codes "/temp/") 15 2 (codes "e")
      (codes "*") (codes "k") (codes "/tmp/w") true (broken ∷ []) job worker (inl refl) refl

-- After a timeout, a second attempt.
late-Fails : Fails platform 15 (codes "0") (late ∷ []) (codes "0")
unfolding program
late-Fails = one_more (codes "0") (codes "0") (codes "0") timeout late [] refl (no_more (codes "0"))

receive_workspace-Fails_example :
    let run =
      receive_workspace platform 15 5
        (λ z. true)
        keys
        base
        (codes "*")
        ((late ∷ []) ++ good ∷ []) in
    (run.reception ≡ extracted (7 ∷ [])) × (requests run.sent ≡ 2)
unfolding program
receive_workspace-Fails_example =
    receive_workspace-Fails platform 15 5 (λ z. true) keys base (codes "*") (codes "0") (codes "4")
      (late ∷ []) [] good (7 ∷ []) (some (codes "x")) late-Fails refl refl (omega arith)
