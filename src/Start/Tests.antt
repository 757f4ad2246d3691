-- ===== src/Start/Tests.antt =====
-- The certificates of a worker and of a process without TLS.
use delegate_implementation.Base.{codes, lookup, insert, [], ◌++◌, some, none, ◌≡◌, refl}
use delegate_implementation.Gateway.Control.{after_prefix}
use delegate_implementation.Start.{tls_paths, get_redis, set_default, worker_environment}

plain : get_redis (codes "redis://r") [] ≡ record { url = codes "redis://r"; tls = none }
unfolding get_redis tls_paths after_prefix
plain = refl

worker :
    (get_redis (codes "rediss://r") (worker_environment (λ name. codes "/c/" ++ name) [])).tls
    ≡ some (record {
      ca = codes "/c/ca.crt";
      cert = codes "/c/delegate.crt";
      key = codes "/c/delegate.key";
    })
unfolding get_redis tls_paths after_prefix worker_environment set_default lookup insert
worker = refl
