-- ===== src/Dispatcher/WatcherTests.antt =====
-- A watcher that reads a status and an output, and cleans up in its second round.
use delegate_implementation.Base.{
  Text, codes, List, [], ◌∷◌, ok, raise, Error, ◌≡◌, ◌⊎◌, inl, inr, refl, arith,
}
use delegate_implementation.Platform.{Fields}
use delegate_implementation.Streams.{StreamKeys, delegate_prefix, stream_keys}
use delegate_implementation.Transfer.Sender.{start_fields, chunk_fields, end_fields, sha256_bytes}
use delegate_implementation.Models.Tables.{find_execution}
use delegate_implementation.Dispatcher.World.{World}
use delegate_implementation.Dispatcher.Output.{output_path}
use delegate_implementation.Dispatcher.Watch.{
  Message, returned, connection_lost, reply, Round, watch_execution,
}
use delegate_implementation.Dispatcher.Lifecycle.{Moves, ledger}
use delegate_implementation.Dispatcher.Lifecycle.Loop.{watch_execution-Moves}
use delegate_implementation.Dispatcher.Stored.{
  IsStored, Keeps, watch_execution-IsStored, watch_execution-Keeps,
}
use delegate_implementation.Dispatcher.Cleanup.{
  Ending, IsPast, watch_execution-Ending, watch_execution-IsPast,
}
use delegate_implementation.Samples.{platform, os, world}

program : Unit {0}
unfolding delegate_prefix stream_keys start_fields chunk_fields end_fields sha256_bytes
    find_execution
program = tt

abbrev keys : StreamKeys
keys = stream_keys (codes "e") (codes "d")

abbrev on_output : Text → Fields → Message
on_output id fields = record { stream_key = keys.output; id = id; fields = fields; fresh = [] }

abbrev rounds : List Round
rounds =
    record { now = 1; answer = connection_lost }
    ∷ record {
      now = 2;
      answer = reply (
          record {
            stream_key = keys.status;
            id = codes "1";
            fields = ("type", codes "STATUS") ∷ ("status", codes "EXECUTING") ∷ [];
            fresh = [];
          }
          ∷ on_output (codes "1") (start_fields platform 2 (7 ∷ 8 ∷ []) [] (codes "x"))
          ∷ on_output (codes "2") (chunk_fields platform (7 ∷ 8 ∷ []) 0 [] (codes "x"))
          ∷ on_output (codes "3") (end_fields platform 1 [] (codes "x"))
          ∷ []);
    }
    ∷ record { now = 700; answer = reply [] }
    ∷ []

abbrev after : World
after =
    (watch_execution platform os (codes "/f") (codes "/m") (codes "e") keys 600 0 rounds world).1

watch_execution-Moves_example :
    Moves platform
      (output_path platform os (codes "/m") (codes "e"))
      (codes "e")
      (ledger world)
      (ledger after)
unfolding program
watch_execution-Moves_example =
    watch_execution-Moves platform os (codes "/f") (codes "/m") (codes "e") (codes "e") refl keys
      600 0 rounds world

watch_execution-IsStored_example : IsStored platform (codes "e") (ledger after)
unfolding program
watch_execution-IsStored_example =
    watch_execution-IsStored platform os (codes "/f") (codes "/m") (codes "e") keys 600 0 rounds
      world {uuid = codes "e"} refl (λ e found won. absurd (ground arith))

watch_execution-Keeps_example : Keeps (codes "e") (ledger world) (ledger after)
unfolding program
watch_execution-Keeps_example =
    watch_execution-Keeps platform os (codes "/f") (codes "/m") (codes "e") keys 600 0 rounds world
      {uuid = codes "e"} refl

watch_execution-Ending_example :
    let (r, w') =
      watch_execution platform os (codes "/f") (codes "/m") (codes "e") keys 600 0 rounds world in
    Ending platform (codes "e") keys (IsPast 600 rounds) world r w'
watch_execution-Ending_example =
    watch_execution-Ending platform os (codes "/f") (codes "/m") (codes "e") keys 600 0 rounds world

watch_execution-IsPast_example :
    let r =
      (watch_execution platform os
        (codes "/f")
        (codes "/m")
        (codes "e")
        keys
        600
        0
        rounds
        world).0 in
    (r ≡ ok returned) ⊎ ((e : Error) × (r ≡ raise e))
watch_execution-IsPast_example =
    watch_execution-IsPast platform os (codes "/f") (codes "/m") (codes "e") keys 600 0 rounds world
      (inr (inr (inl (omega arith))))
