-- ===== src/Enrolment/Tests.antt =====
-- A worker that registers with a control plane without delegates, and starts again.
use delegate_implementation.Base.{
  Text, codes, text_eq, lookup, List, [], ◌∷◌, none, true, arith, ◌≡◌, refl, ◌+◌, ◌*◌,
}
use delegate_implementation.Files.{Directory}
use delegate_implementation.Models.Tables.{find_token, update_tokens, add_audit}
use delegate_implementation.Ca.{sign_csr, leaf_certificate}
use delegate_implementation.Views.State.{ControlPlane, missing_fields}
use delegate_implementation.Views.Registration.{
  Draws, issue_registration_token, register_delegate, register_fields, token_problem,
  register_with_token, create_delegate, concurrency_of, new_delegate,
}
use delegate_implementation.Enrolment.{
  Api, Identity, Probe, Outcome, registered, Settings, register, reuse, register_fresh,
  register_body, store, wait_for_control_plane, wait_until,
}
use delegate_implementation.Enrolment.Once.{register-again}
use delegate_implementation.Enrolment.Served.{
  served, token_of, registered_of, IsReady, IsEnrolled, register-IsEnrolled,
}
use delegate_implementation.Samples.{platform, db}
use delegate_implementation.Samples.Json.{encoding}
use delegate_implementation.Samples.Pem.{head_of, tail_of}
use delegate_implementation.Samples.Server.{acl_server, crypto}

abbrev settings : Settings
settings = record {
  tenant_id = codes "t";
  name = codes "vm";
  queue = codes "default";
  concurrency = 2;
  key = 7 ∷ [];
}

abbrev empty : ControlPlane (List (Text × List Text))
empty = record { db = record db { delegates = [] }; acl = [] }

abbrev draws : Draws
draws = record {
  now = 41;
  delegate_id = codes "d2";
  serial = 31;
  password = codes "pw";
  redis_up = true;
}

abbrev no_files : Directory
no_files = λ name. none

abbrev probe : Probe
probe = record { now = 12; answers = true }

is_ready : IsReady platform acl_server crypto 90 300 40 (codes "k") draws encoding settings empty
unfolding find_token
is_ready = record {
  tenant = refl;
  name = refl;
  token = refl;
  new = refl;
  in_time = omega arith;
  redis = refl;
  csr_text = refl;
  csr = _;
  parsed = refl;
  signed = refl;
}

abbrev api : Api
api = served platform acl_server crypto 90 300 40 (codes "k") draws

register-IsEnrolled_example :
    (identity : Identity) × (dir' : Directory) × (cp' : ControlPlane (List (Text × List Text)))
    × (register platform encoding api settings 10 (probe ∷ []) no_files empty
        ≡ (registered identity, dir', cp'))
    × IsEnrolled platform acl_server crypto 90 300 40
        (codes "k")
        draws
        encoding
        settings
        empty
        identity
        dir'
        cp'
register-IsEnrolled_example =
    register-IsEnrolled platform acl_server crypto 90 300 40 (codes "k") draws encoding settings
      empty 10 probe [] no_files is_ready refl (omega arith) refl

abbrev identity : Identity
identity = record {
  delegate_id = codes "d2";
  tenant_id = codes "t";
  name = codes "vm";
  queue = codes "default";
  cert_expires_at = 41 + 90 * 86400;
}

program : Unit {0}
unfolding register reuse register_fresh register_body store wait_for_control_plane wait_until
    token_of registered_of text_eq lookup find_token update_tokens add_audit missing_fields
    issue_registration_token register_delegate register_fields token_problem register_with_token
    create_delegate concurrency_of new_delegate sign_csr leaf_certificate head_of tail_of
program = tt

abbrev enrolled : Outcome × Directory × ControlPlane (List (Text × List Text))
enrolled = register platform encoding api settings 10 (probe ∷ []) no_files empty

enrols : enrolled ≡ (registered identity, enrolled.1, enrolled.2)
unfolding program
enrols = refl

abbrev other : Settings
other = record settings { name = codes "vm2"; key = 8 ∷ [] }

register-again_example :
    register platform encoding api other 90 [] enrolled.1 empty
    ≡ (registered identity, enrolled.1, empty)
register-again_example =
    register-again platform encoding api settings other 10 90 (probe ∷ []) [] no_files enrolled.1
      empty enrolled.2 empty identity enrols
