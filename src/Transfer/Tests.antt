-- ===== src/Transfer/Tests.antt =====
-- The transfer protocol run on a small content, and its theorems at that input.
use delegate_implementation.Base.{
  ◌≡◌, refl, Text, codes, List, [], ◌∷◌, some, Any, arith, insert, lookup, text_eq, int_eq, map,
}
use delegate_implementation.Platform.{Bytes, Fields}
use delegate_implementation.Transfer.Sender.{
  range_from, sha256_bytes, start_fields, chunk_fields, end_fields, send_chunks, transfer_messages,
  on_stream, send_bytes,
}
use delegate_implementation.Transfer.Receiver.{
  initial, is_type, same_text, same_size, seen, on_start, on_chunk, on_end, belongs,
  receive_message,
}
use delegate_implementation.Transfer.Loop.{
  Entry, Poll, completed, apply_reaction, handle_entry, handle_entries, poll_loop, receive_once,
}
use delegate_implementation.Transfer.Batches.{all_entries, receive_once-send_bytes}
use delegate_implementation.Transfer.Soundness.{Announces, receive_once-Announces}
use delegate_implementation.Samples.{platform}

program : Unit {0}
unfolding range_from sha256_bytes start_fields chunk_fields end_fields send_chunks transfer_messages
    on_stream send_bytes is_type same_text same_size seen on_start on_chunk on_end belongs
    receive_message apply_reaction handle_entry handle_entries poll_loop receive_once insert lookup
    text_eq int_eq
program = tt

abbrev payload : Bytes
payload = 7 ∷ 8 ∷ 9 ∷ []

abbrev base : Fields
base = ("tenant_id", codes "t") ∷ []

abbrev entry : Text → Fields → Entry
entry id fields = record { id = id; fields = fields; at = 3 }

-- A request of the worker's own, then the four messages of a transfer in chunks of two bytes.
abbrev request : Entry
request = entry (codes "1") (("type", codes "DATA_REQUEST") ∷ [])

abbrev transfer : List Entry
transfer =
    entry (codes "2") (start_fields platform 2 payload base (codes "x"))
    ∷ entry (codes "3") (chunk_fields platform (7 ∷ 8 ∷ []) 0 base (codes "x"))
    ∷ entry (codes "4") (chunk_fields platform (9 ∷ []) 1 base (codes "x"))
    ∷ entry (codes "5") (end_fields platform 2 base (codes "x"))
    ∷ []

abbrev polls : List Poll
polls =
    record { now = 1; entries = request ∷ [] }
    ∷ record { now = 2; entries = [] }
    ∷ record { now = 3; entries = transfer }
    ∷ []

receive_polls :
    receive_once platform 15 (codes "0") 0 polls ≡ completed payload (codes "5") (some (codes "x"))
unfolding program
receive_polls = refl

receive_once-send_bytes_example :
    receive_once platform 15 (codes "0") 0 polls ≡ completed payload (codes "5") (some (codes "x"))
unfolding program
receive_once-send_bytes_example =
    receive_once-send_bytes platform 15 2 (codes "k") payload base (codes "x") (codes "0") 0
      (request ∷ []) transfer [] polls
      {s = record { rx = initial; last_id = codes "1"; deadline = 15 }} (omega arith) refl refl refl
      (omega arith, (omega arith, (omega arith, tt)))

receive_once-Announces_example :
    Any (λ e. Announces platform payload (some (codes "x")) e.fields) (all_entries polls)
unfolding program
receive_once-Announces_example =
    receive_once-Announces platform 15 payload (some (codes "x")) (codes "0") (codes "5") 0 polls
      refl

-- An empty payload is announced and ended, and no DATA_CHUNK is published.
empty_payload :
    map (λ c. lookup "type" c.1) (send_bytes platform 2 (codes "k") [] base (codes "x")).commands
    ≡ some (codes "DATA_START") ∷ some (codes "DATA_END") ∷ []
unfolding program
empty_payload = refl
