-- ===== src/Views/Tests.antt =====
-- The views run on one tenant with one token, and their theorems at such requests.
use delegate_implementation.Base.{
  ◌+◌, ◌++◌, pos, ◌*◌, ◌≡◌, ◌≢◌, refl, Text, codes, text_eq, List, [], ◌∷◌, none, some, true,
  lookup,
}
use delegate_implementation.Platform.{Fields}
use delegate_implementation.Models.{lit, RegistrationToken, Execution}
use delegate_implementation.Models.Tables.{
  find_token, update_tokens, find_delegate, find_execution, update_delegates, add_audit,
}
use delegate_implementation.Acl.{provision_delegate}
use delegate_implementation.Acl
use delegate_implementation.Ca.{sign_csr, leaf_certificate}
use delegate_implementation.Dispatcher.World.{World}
use delegate_implementation.Dispatcher.Authorization.{OnlyAudits}
use delegate_implementation.Dispatcher.Requests.{handle_data_request}
use delegate_implementation.Views.State.{ControlPlane, refused, registered, missing_fields}
use delegate_implementation.Views.Registration.{
  Draws, token_problem, concurrency_of, new_delegate, create_delegate, register_with_token,
  register_fields, register_delegate,
}
use delegate_implementation.Views.Registration.Tokens.{
  Registration, register_delegate-registered, register_delegate-single_use,
  register_delegate-refused,
}
use delegate_implementation.Views.Registration.Race.{
  Request, Two, Turns, asks, answered, IsGood, delegate_of, both-registered,
}
use delegate_implementation.Views.Revocation.{
  revoke_acl, disconnect_gateway, revoke_delegate, revoke_delegate-handle_data_request,
}
use delegate_implementation.Views.Executions.{
  Api, send_execute_task, new_execution, create_for, create_fields, create_execution,
}
use delegate_implementation.Samples.{platform, os, db, world}
use delegate_implementation.Samples.Server.{acl_server, crypto, rules_in, without}

program : Unit {0}
unfolding text_eq lookup find_token update_tokens find_delegate find_execution update_delegates
    add_audit provision_delegate sign_csr leaf_certificate missing_fields token_problem
    concurrency_of new_delegate create_delegate register_with_token register_fields
    register_delegate revoke_acl disconnect_gateway revoke_delegate Acl.revoke_delegate
    send_execute_task new_execution create_for create_fields create_execution rules_in without
program = tt

abbrev token : RegistrationToken
token = record { token = codes "k"; tenant_id = codes "t"; expires_at = 50; used_at = none }

abbrev before : ControlPlane (List (Text × List Text))
before = record { db = record db { tokens = token ∷ [] }; acl = [] }

abbrev request : Fields
request =
    ("token", codes "k")
    ∷ ("tenant_id", codes "t")
    ∷ ("name", codes "vm2")
    ∷ ("csr_pem", codes "c")
    ∷ []

abbrev draws : Draws
draws = record {
  now = 40;
  delegate_id = codes "d2";
  serial = 31;
  password = codes "pw";
  redis_up = true;
}

abbrev after : ControlPlane (List (Text × List Text))
after = (register_delegate platform acl_server crypto 90 (some request) draws before).1

registers :
    register_delegate platform acl_server crypto 90 (some request) draws before
    ≡ (registered (codes "d2") (codes "c") (codes "ca") (40 + 90 * 86400), after)
unfolding program
registers = refl

register_delegate-registered_example :
    Registration platform acl_server crypto 90 request draws before after (codes "d2")
register_delegate-registered_example =
    register_delegate-registered platform acl_server crypto 90 request draws before after
      (codes "d2") (codes "c") (codes "ca") (40 + 90 * 86400) registers

register_delegate-single_use_example :
    register_delegate platform acl_server crypto 90 (some request) draws after
    ≢ (registered (codes "d2") (codes "c") (codes "ca") 60, before)
register_delegate-single_use_example =
    register_delegate-single_use platform acl_server crypto 90 request request draws draws before
      after before (codes "d2") (codes "c") (codes "ca") (codes "d2") (codes "c") (codes "ca")
      (40 + 90 * 86400) 60 registers refl

abbrev late : Draws
late = record draws { now = 60 }

abbrev rejected : ControlPlane (List (Text × List Text))
rejected = (register_delegate platform acl_server crypto 90 (some request) late before).1

rejects :
    register_delegate platform acl_server crypto 90 (some request) late before
    ≡ (refused 403 (lit "registration token expired" ∷ []), rejected)
unfolding program
rejects = refl

register_delegate-refused_example :
    (rejected.acl ≡ before.acl)
    × (rejected.db.tokens ≡ before.db.tokens)
    × (rejected.db.delegates ≡ before.db.delegates)
    × (rejected.db.executions ≡ before.db.executions)
    × (rejected.db.logs ≡ before.db.logs)
register_delegate-refused_example =
    register_delegate-refused platform acl_server crypto 90 (some request) late before rejected 403
      (lit "registration token expired" ∷ []) rejects

abbrev asked : Fields
asked = ("tenant_id", codes "t") ∷ ("delegate_id", codes "d") ∷ []

abbrev world_after : World
world_after = record world { db = (revoke_delegate acl_server (codes "d") true none before).1.db }

revoke_delegate-handle_data_request_example :
    OnlyAudits world_after
      (handle_data_request platform os
        (codes "f")
        (codes "e")
        (codes "k")
        asked
        (codes "r")
        world_after).1
unfolding program
revoke_delegate-handle_data_request_example =
    revoke_delegate-handle_data_request platform acl_server os (codes "d") true none before
      (codes "f") (codes "e") (codes "k") asked (codes "r") world_after refl refl

abbrev order : Fields
order =
    ("tenant_id", codes "t")
    ∷ ("delegate_id", codes "d")
    ∷ ("workspace_fixture", codes "sample")
    ∷ []

abbrev api : Api
api = record { db = db; tasks = [] }

abbrev added : Execution
added = new_execution (codes "n") (codes "t") (codes "d") (codes "sample")

abbrev api_after : Api
api_after = (create_execution platform os (codes "/f") (some order) (codes "n") api).1

-- Two registrations with one token, at once.
abbrev asking : Text → Request
asking id = record {
  body = request;
  token = codes "k";
  tenant_id = codes "t";
  name = codes "vm2";
  csr_pem = codes "c";
  draws = record draws { delegate_id = id };
}

good : (id : Text) → IsGood platform acl_server crypto 90 (asking id)
unfolding program
good id = record {
  cert_pem = codes "c";
  serial = 31 ∷ [];
  expires = 40 + 90 * 86400;
  concurrency = pos 1;
  signs = refl;
  redis_up = refl;
  number = refl;
}

both-registered_example :
    (t : Two platform acl_server crypto 90) × Turns platform acl_server crypto 90
      (asking (codes "d2"))
      (asking (codes "d3"))
      (record { first = asks; second = asks; tables = before })
      t
    × (t.first ≡ answered (registered (codes "d2") (codes "c") (codes "ca") (40 + 90 * 86400)))
    × (t.second ≡ answered (registered (codes "d3") (codes "c") (codes "ca") (40 + 90 * 86400)))
    × (t.tables.db.delegates
        ≡ (before.db.delegates
            ++ delegate_of platform acl_server crypto 90 (asking (codes "d2")) (good (codes "d2"))
              ∷ [])
          ++ delegate_of platform acl_server crypto 90 (asking (codes "d3")) (good (codes "d3"))
            ∷ [])
unfolding program good
both-registered_example =
    both-registered platform acl_server crypto 90 (asking (codes "d2")) (asking (codes "d3")) before
      token (good (codes "d2")) (good (codes "d3")) refl refl refl refl
