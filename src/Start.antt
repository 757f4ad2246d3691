-- ===== src/Start.antt =====
-- The start of a worker: worker/entrypoint.py, worker/worker_app/__init__.py and celery_app.py, and
-- shared/delegate_protocol/redis_client.py, which chooses the certificate of a Redis connection.
mod Tests
use delegate_implementation.Base.{
  ℕ, Text, codes, lookup, insert, is_empty, List, [], ◌∷◌, ◌++◌, Option, none, some, Bool, true,
  false, ◌==◌, if◌then◌else◌, String, Result, ok, raise, Error, value_error, os_error,
}
use delegate_implementation.Platform.{Platform, Fields}
use delegate_implementation.Streams.{delegate_prefix}
use delegate_implementation.Files.{Directory, read}
use delegate_implementation.Gateway.Control.{after_prefix}
use delegate_implementation.Views.State.{required}
use delegate_implementation.Dispatcher.Requests.{field_or}
use delegate_implementation.Enrolment.{
  Identity, Api, Encoding, Probe, Outcome, registered, failed, pending, identity_path, Settings,
  register,
}

pub record Tls : Type 0 where
  pub ca : Text
  pub cert : Text
  pub key : Text

-- `_tls_paths`; the environment is a dict of texts.
unfoldable pub tls_paths : Fields → Option Tls
tls_paths env = elim (required "REDIS_TLS_CA" env) [
  | none ↦ none
  | some ca ↦ elim (required "REDIS_TLS_CERT" env) [
    | none ↦ none
    | some cert ↦ elim (required "REDIS_TLS_KEY" env) [
      | none ↦ none
      | some key ↦ some (record { ca = ca; cert = cert; key = key })
    ]
  ]
]

-- The arguments of `Redis.from_url`; with `tls`, the server's certificate and name are checked.
pub record Connection : Type 0 where
  pub url : Text
  pub tls : Option Tls

unfoldable pub get_redis : Text → Fields → Connection
unfolding tls_paths
get_redis url env = elim (after_prefix (codes "rediss://") url) [
  | none ↦ record { url = url; tls = none }
  | some rest ↦ record { url = url; tls = tls_paths env }
]

-- `os.environ.setdefault(key, value)`
unfoldable pub set_default : String → Text → Fields → Fields
set_default key value env = elim (lookup key env) [ none ↦ insert key value env | some _ ↦ env ]

-- worker_app/__init__.py; `path` joins a name to CERT_DIR.
unfoldable pub worker_environment : (Text → Text) → Fields → Fields
unfolding set_default
worker_environment path env = set_default "REDIS_TLS_KEY" (path (codes "delegate.key")) (
    set_default "REDIS_TLS_CERT" (path (codes "delegate.crt"))
      (set_default "REDIS_TLS_CA" (path (codes "ca.crt")) env))

-- The Celery app as it is started: the key prefix of its broker connection, with its certificate,
-- the queue it reads and the name of its host.
pub record App : Type 0 where
  pub prefix : Text
  pub tls : Option Tls
  pub default_queue : Text
  pub queue : Text
  pub hostname : Text

-- How the start ends; `waiting` where the input does.
pub data Start : Type 0 where
  started : App → Start
  stopped : Error → Start
  waiting : Start

module _ (p : Platform) (encoding : Encoding) (api : Api) where
  -- The identity that celery_app.py reads from CERT_DIR.
  unfoldable pub load_identity : Directory → Result Identity
  load_identity dir = elim (read identity_path dir) [
    | raise e ↦ raise e
    | ok text ↦ elim (encoding.load text) [ none ↦ raise value_error | some identity ↦ ok identity ]
  ]

  -- `app.worker_main`, on the environment that worker_app/__init__.py has left.
  unfoldable pub worker_app : Fields → Identity → Identity → App
  worker_app env identity stored = record {
    prefix = delegate_prefix stored.delegate_id;
    tls = tls_paths env;
    default_queue = field_or "DELEGATE_QUEUE" env (codes "default");
    queue = identity.queue;
    hostname = identity.name ++ codes "@%h";
  }

  -- `main`, with the settings that it reads from the environment.
  unfoldable pub main :
      (Text → Text)
      → Fields
      → Settings
      → ℕ
      → List Probe
      → Directory
      → api.State
      → Start × Directory × api.State
  unfolding worker_environment worker_app
  main path env s start probes dir remote =
      let (outcome, dir', remote') = register p encoding api s start probes dir remote in
      elim outcome [
        | failed e ↦ (stopped e, dir', remote')
        | pending ↦ (waiting, dir', remote')
        | registered identity ↦ elim (load_identity dir') [
          | raise e ↦ (stopped e, dir', remote')
          | ok stored ↦
              (started (worker_app (worker_environment path env) identity stored), dir', remote')
        ]
      ]
