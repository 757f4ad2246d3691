-- ===== src/Streams/Tests.antt =====
-- Stream names at concrete ids.
use delegate_implementation.Base.{codes, IsPrefix, ◌≡◌, ◌↔◌, refl, arith}
use delegate_implementation.Streams.{delegate_prefix, stream_keys}
use delegate_implementation.Streams.Isolation.{log, status, key_of, stream_keys-isolated}

log_key : key_of (stream_keys (codes "e") (codes "d")) log ≡ codes "delegate:d:execution:e:log"
unfolding stream_keys delegate_prefix
log_key = refl

stream_keys-isolated_example :
    IsPrefix (delegate_prefix (codes "c")) (key_of (stream_keys (codes "e") (codes "d")) status)
    ↔ (codes "c" ≡ codes "d")
stream_keys-isolated_example =
    stream_keys-isolated (codes "e") (codes "d") (codes "c") status (omega arith) (omega arith)
