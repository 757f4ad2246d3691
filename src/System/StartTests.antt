-- ===== src/System/StartTests.antt =====
-- The first start of a worker, with a control plane that has no delegate.
use delegate_implementation.Base.{Text, codes, List, [], ◌∷◌, ◌++◌, none, true, ◌≡◌, refl, arith}
use delegate_implementation.Files.{Directory}
use delegate_implementation.Models.Tables.{find_token}
use delegate_implementation.Views.State.{ControlPlane}
use delegate_implementation.Views.Registration.{Draws}
use delegate_implementation.Enrolment.{Settings}
use delegate_implementation.Enrolment.Served.{served, IsReady}
use delegate_implementation.Start.{App, started, main}
use delegate_implementation.System.Start.{Reads, main-Reads}
use delegate_implementation.Samples.{platform, db}
use delegate_implementation.Samples.Json.{encoding}
use delegate_implementation.Samples.Server.{acl_server, crypto}

abbrev settings : Settings
settings = record {
  tenant_id = codes "t";
  name = codes "vm";
  queue = codes "default";
  concurrency = 2;
  key = 7 ∷ [];
}

abbrev empty : ControlPlane (List (Text × List Text))
empty = record { db = record db { delegates = [] }; acl = [] }

abbrev draws : Draws
draws = record {
  now = 41;
  delegate_id = codes "d2";
  serial = 31;
  password = codes "pw";
  redis_up = true;
}

abbrev no_files : Directory
no_files = λ name. none

abbrev path : Text → Text
path = λ name. codes "/app/certs/" ++ name

is_ready : IsReady platform acl_server crypto 90 300 40 (codes "k") draws encoding settings empty
unfolding find_token
is_ready = record {
  tenant = refl;
  name = refl;
  token = refl;
  new = refl;
  in_time = omega arith;
  redis = refl;
  csr_text = refl;
  csr = _;
  parsed = refl;
  signed = refl;
}

main-Reads_example :
    (app : App) × (dir' : Directory) × (cp' : ControlPlane (List (Text × List Text))) × (main
        platform encoding
        (served platform acl_server crypto 90 300 40 (codes "k") draws)
        path
        []
        settings
        10
        (record { now = 12; answers = true } ∷ [])
        no_files
        empty
      ≡ (started app, dir', cp'))
    × Reads platform acl_server crypto 90 300 40 (codes "k") draws encoding settings empty app cp'
main-Reads_example =
    main-Reads platform acl_server crypto 90 300 40 (codes "k") draws encoding settings empty path
      [] 10 (record { now = 12; answers = true }) [] no_files is_ready refl (omega arith) refl
