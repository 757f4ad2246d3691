-- ===== src/System/OrphanTests.antt =====
-- A registration with a good token, whose concurrency is no number.
use delegate_implementation.Base.{
  codes, text_eq, lookup, [], ◌∷◌, none, some, true, refl, value_error,
}
use delegate_implementation.Platform.{Fields}
use delegate_implementation.Models.{RegistrationToken}
use delegate_implementation.Models.Tables.{find_token}
use delegate_implementation.Acl.{is_delegate_user, matches, provision_delegate}
use delegate_implementation.Ca.{sign_csr, leaf_certificate}
use delegate_implementation.Dispatcher.Main.{active_ids}
use delegate_implementation.Views.State.{ControlPlane}
use delegate_implementation.Views.Registration.{
  Draws, token_problem, concurrency_of, create_delegate, register_with_token, register_fields,
  register_delegate,
}
use delegate_implementation.System.Access.{IsSynced}
use delegate_implementation.System.Orphan.{Orphan, register_delegate-crashes}
use delegate_implementation.Samples.{platform, db}
use delegate_implementation.Samples.Server.{Users, acl_server, crypto}

program : Unit {0}
unfolding text_eq lookup find_token is_delegate_user matches provision_delegate sign_csr
    leaf_certificate active_ids token_problem concurrency_of create_delegate register_with_token
    register_fields register_delegate
program = tt

abbrev token : RegistrationToken
token = record { token = codes "k"; tenant_id = codes "t"; expires_at = 50; used_at = none }

abbrev before : ControlPlane Users
before = record { db = record db { tokens = token ∷ [] }; acl = [] }

-- The toy platform reads no number from a text of two characters.
abbrev request : Fields
request =
    ("token", codes "k")
    ∷ ("tenant_id", codes "t")
    ∷ ("name", codes "vm2")
    ∷ ("csr_pem", codes "c")
    ∷ ("concurrency", codes "xx")
    ∷ []

abbrev draws : Draws
draws = record {
  now = 40;
  delegate_id = codes "00000000-0000-0000-0000-000000000000";
  serial = 31;
  password = codes "pw";
  redis_up = true;
}

abbrev after : ControlPlane Users
after = (register_delegate platform acl_server crypto 90 (some request) draws before).1

register_delegate-crashes_example :
    Orphan platform acl_server crypto 90 request draws before after value_error
    × ¬ IsSynced acl_server after
unfolding program
register_delegate-crashes_example =
    register_delegate-crashes platform acl_server crypto 90 request draws before after value_error
      refl refl refl
