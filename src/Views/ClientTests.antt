-- ===== src/Views/ClientTests.antt =====
-- Tasks for two delegates, one of them twice.
use delegate_implementation.Base.{◌≡◌, codes, List, [], ◌∷◌, arith}
use delegate_implementation.Views.Clients.{
  find_client, Send, send_all, tasks_of, AreKept, send_all-AreKept,
}

abbrev send : Send
send = record {
  execution_id = codes "e";
  delegate_id = codes "d";
  queue = codes "default";
  file_name = codes "*";
}

abbrev sends : List Send
sends = send ∷ record send { delegate_id = codes "c" } ∷ send ∷ []

none_kept : AreKept (codes "rediss://r") [] []
unfolding AreKept find_client
none_kept = λ id c h. absurd (ground arith)

send_all-AreKept_example :
    ((send_all (codes "rediss://r") [] sends []).0 ≡ tasks_of (codes "rediss://r") [] sends)
    × AreKept (codes "rediss://r") [] (send_all (codes "rediss://r") [] sends []).1
send_all-AreKept_example = send_all-AreKept (codes "rediss://r") [] sends [] none_kept
