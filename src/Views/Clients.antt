-- ===== src/Views/Clients.antt =====
-- control_plane/delegates/celery_client.py: the broker clients of the delegates, made once and kept.
use delegate_implementation.Base.{
  Text, codes, text_eq, text_eq_iff, List, [], ◌∷◌, ◌++◌, Option, none, some, Option-cases,
  if◌then◌else◌, ◌≡◌, inl, inr, refl, arith,
}
use delegate_implementation.Platform.{Fields}
use delegate_implementation.Streams.{delegate_prefix}
use delegate_implementation.Start.{Tls, tls_paths}
use delegate_implementation.Views.Executions.{Task, send_execute_task}

-- A Celery app: its name, the broker, the global key prefix, and the certificate of its connection.
pub record Client : Type 0 where
  pub name : Text
  pub broker : Text
  pub prefix : Text
  pub tls : Option Tls

-- `_clients`
abbrev pub Clients : Type 0
Clients = List (Text × Client)

-- `_clients.get(delegate_id)`
unfoldable pub find_client : Text → Clients → Option Client
find_client id [] = none
find_client id ((k, c) ∷ cs) = if text_eq k id then some c else find_client id cs

-- What one call is given.
pub record Send : Type 0 where
  pub execution_id : Text
  pub delegate_id : Text
  pub queue : Text
  pub file_name : Text

module _ (redis_url : Text) (env : Fields) where
  unfoldable pub new_client : Text → Client
  new_client delegate_id = record {
    name = codes "control_plane_client_" ++ delegate_id;
    broker = redis_url;
    prefix = delegate_prefix delegate_id;
    tls = tls_paths env;
  }

  -- `_client_for`, which holds the lock
  unfoldable pub client_for : Text → Clients → Client × Clients
  unfolding find_client
  client_for delegate_id cs = elim (find_client delegate_id cs) [
    | some c ↦ (c, cs)
    | none ↦ (let c = new_client delegate_id in (c, (delegate_id, c) ∷ cs))
  ]

  -- `send_execute_task` through the client of the delegate
  unfoldable pub send_through : Text → Text → Text → Text → Clients → Task × Clients
  send_through execution_id delegate_id queue file_name cs =
      let (c, cs') = client_for delegate_id cs in
      (
        record {
          prefix = c.prefix;
          queue = queue;
          execution_id = execution_id;
          file_name = file_name;
        },
        cs',
      )

  -- A sequence of calls, from the clients that are there.
  unfoldable pub send_all : List Send → Clients → List Task × Clients
  unfolding send_through
  send_all [] cs = ([], cs)
  send_all (s ∷ ss) cs =
      let (task, cs₁) = send_through s.execution_id s.delegate_id s.queue s.file_name cs in
      let (tasks, cs₂) = send_all ss cs₁ in (task ∷ tasks, cs₂)

  -- The tasks of the calls, each to a new client.
  abbrev pub tasks_of : List Send → List Task
  tasks_of [] = []
  tasks_of (s ∷ ss) =
      send_execute_task s.execution_id s.delegate_id s.queue s.file_name ∷ tasks_of ss

  -- Every client is kept under the delegate it was made for.
  unfoldable pub AreKept : Clients → Type 0
  AreKept cs = (id : Text) (c : Client) → find_client id cs ≡ some c → c ≡ new_client id

  client_for-AreKept :
      (id : Text) (cs : Clients)
      → AreKept cs
      → let (c, cs') = client_for id cs in (c ≡ new_client id) × AreKept cs'
  unfolding client_for AreKept find_client
  client_for-AreKept id cs kept = elim (Option-cases (find_client id cs)) [
    | inl e ↦
        rw (client_for, e)
          (
            refl,
            λ j c h. elim (Option-cases (find_client j cs)) [
              | inl f ↦ ground (arith, text_eq_iff id j)
              | inr (d, f) ↦ let same = kept j d f in ground (arith, text_eq_iff id j)
            ],
          )
    | inr (c, e) ↦ rw (client_for, e) (kept id c e, kept)
  ]

  -- Whatever calls are made, one after the other, the clients that are kept change nothing: the
  -- tasks are those of a new client for each call, under the key prefix of the delegate of the call,
  -- and every client is still kept under its delegate.
  pub send_all-AreKept :
      (ss : List Send) (cs : Clients)
      → AreKept cs
      → let (tasks, cs') = send_all ss cs in (tasks ≡ tasks_of ss) × AreKept cs'
  unfolding send_all send_through send_execute_task new_client
  send_all-AreKept [] cs kept = (refl, kept)
  send_all-AreKept (s ∷ ss) cs kept =
      let (made, kept') = client_for-AreKept s.delegate_id cs kept in
      let (rest, kept_on) = send_all-AreKept ss (client_for s.delegate_id cs).1 kept' in
      (rw (made, rest) refl, kept_on)
