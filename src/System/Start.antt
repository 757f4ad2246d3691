-- ===== src/System/Start.antt =====
-- From the first start of a worker to the tasks that the control plane sends to it.
use delegate_implementation.Base.{
  ℕ, ◌+◌, ◌<◌, Text, List, [], ◌∷◌, ◌++◌, some, true, false, ◌≡◌, ◌∙◌, ap, sym, refl, arith,
}
use delegate_implementation.Platform.{Platform, Fields}
use delegate_implementation.Files.{Directory, exists}
use delegate_implementation.Streams.{delegate_prefix}
use delegate_implementation.Models.{Delegate, active}
use delegate_implementation.Acl.{AclServer}
use delegate_implementation.Ca.{Crypto}
use delegate_implementation.Views.State.{ControlPlane}
use delegate_implementation.Views.Registration.{Draws}
use delegate_implementation.Views.Executions.{send_execute_task}
use delegate_implementation.Enrolment.{
  Identity, Api, Encoding, Probe, registered, identity_path, Settings, register,
}
use delegate_implementation.Enrolment.Served.{served, IsReady, register-IsEnrolled}
use delegate_implementation.Start.{
  App, started, load_identity, worker_environment, worker_app, main,
}

module _ (p : Platform) (server : AclServer) (crypto : Crypto) (validity_days ttl now : ℕ)
    (fresh : Text) (draws : Draws) (encoding : Encoding) (s : Settings)
    (cp : ControlPlane server.State) where
  abbrev api : Api
  api = served p server crypto validity_days ttl now fresh draws

  -- The control plane has the worker's delegate, and every task that it sends for the delegate lies
  -- under the key prefix and on the queue that the worker reads.
  pub record Reads (app : App) (cp' : ControlPlane server.State) : Type 0 where
    pub delegate : Delegate
    pub added : cp'.db.delegates ≡ cp.db.delegates ++ delegate ∷ []
    pub is_active : delegate.status ≡ active
    pub prefix :
        (execution_id file_name : Text)
        → (send_execute_task execution_id delegate.id delegate.queue file_name).prefix ≡ app.prefix
    pub queue :
        (execution_id file_name : Text)
        → (send_execute_task execution_id delegate.id delegate.queue file_name).queue ≡ app.queue

  main-started :
      (path : Text → Text) (env : Fields) (start : ℕ) (probes : List Probe) (dir dir' : Directory)
      (cp' : ControlPlane server.State) (identity : Identity)
      → register p encoding api s start probes dir cp ≡ (registered identity, dir', cp')
      → dir' identity_path ≡ some (encoding.dump identity)
      → (app : App) × (main p encoding api path env s start probes dir cp
          ≡ (started app, dir', cp'))
        × (app.prefix ≡ delegate_prefix identity.delegate_id)
        × (app.queue ≡ identity.queue)
  unfolding main load_identity worker_app
  main-started path env start probes dir dir' cp' identity h stored = (
    worker_app p encoding api (worker_environment path env) identity identity,
    ground (arith, h, stored, encoding.load-dump identity),
    refl,
    refl,
  )

  -- A worker that starts for the first time, as in `register-IsEnrolled`, runs an app that the control
  -- plane's tasks reach: the control plane has one delegate more, active, and every task that it sends
  -- for this delegate lies under the key prefix and on the queue that the app reads.
  pub main-Reads :
      (path : Text → Text) (env : Fields) (start : ℕ) (probe : Probe) (probes : List Probe)
      (dir : Directory)
      → IsReady p server crypto validity_days ttl now fresh draws encoding s cp
      → exists identity_path dir ≡ false
      → probe.now < start + 60
      → probe.answers ≡ true
      → (app : App) × (dir' : Directory) × (cp' : ControlPlane server.State) × (main p encoding api
            path env s start
            (probe ∷ probes)
            dir
            cp
          ≡ (started app, dir', cp'))
        × Reads app cp'
  unfolding send_execute_task
  main-Reads path env start probe probes dir ready new early answers =
      let (identity, dir', cp', h, e) =
        register-IsEnrolled p server crypto validity_days ttl now fresh draws encoding s cp start
          probe probes dir ready new early answers in
      let (app, runs, prefix, queue) =
        main-started path env start (probe ∷ probes) dir dir' cp' identity h e.stored in
      (
        app,
        dir',
        cp',
        runs,
        record {
          delegate = e.delegate;
          added = e.added;
          is_active = e.is_active;
          prefix = λ execution_id file_name. ap delegate_prefix (e.id ∙ sym e.same_id) ∙ sym prefix;
          queue = λ execution_id file_name. e.queue ∙ (sym e.same_queue ∙ sym queue);
        },
      )
