-- ===== src/System/AccessTests.antt =====
-- The dispatcher starts when Redis answers; then the delegate is revoked.
use delegate_implementation.Base.{codes, text_eq, [], ◌∷◌, none, true, false, ◌≡◌, refl}
use delegate_implementation.Acl.{
  is_delegate_user, matches, reconcile, delete_all, set_all, stale_users, rules,
}
use delegate_implementation.Dispatcher.Main.{
  active_ids, Attempt, reconcile_acls, reconcile_until, reconcile_once, Main, lost, replied,
  run_turns,
}
use delegate_implementation.Dispatcher.Announcements.{
  handle_announcement, handle_announcements, drop_dead,
}
use delegate_implementation.Transfer.Receiver.{is_type}
use delegate_implementation.Views.State.{ControlPlane}
use delegate_implementation.Views.Revocation.{revoke_delegate}
use delegate_implementation.System.Access.{IsSynced, done, more, revokes, reconcile_until-IsSynced}
use delegate_implementation.Samples.{platform, db, world}
use delegate_implementation.Samples.Server.{Users, acl_server, crypto, without}

program : Unit {0}
unfolding active_ids reconcile_acls reconcile_until reconcile_once reconcile delete_all set_all
    stale_users rules is_delegate_user matches without text_eq handle_announcement
    handle_announcements drop_dead is_type run_turns
program = tt

abbrev down : Attempt
down = record { redis_up = false; password = λ id. codes "p" }

abbrev up : Attempt
up = record { redis_up = true; password = λ id. codes "q" }

-- The user of a delegate that is no longer there.
abbrev stale : Users
stale = (codes "00000000-0000-0000-0000-000000000000", []) ∷ (codes "cp-admin", []) ∷ []

abbrev users : Users
users = (codes "d", rules (codes "q") (codes "d")) ∷ (codes "cp-admin", []) ∷ []

abbrev started : ControlPlane Users
started = record { db = db; acl = users }

abbrev after : ControlPlane Users
after = (revoke_delegate acl_server (codes "d") true none started).1

reconcile_until-IsSynced_example : IsSynced acl_server after
unfolding program
reconcile_until-IsSynced_example =
    reconcile_until-IsSynced platform acl_server crypto 90 (down ∷ up ∷ []) db stale users after
      refl (more started after after (revokes (codes "d") none started) (done after))

abbrev idle : Main acl_server
idle = record {
  world = world;
  acl = stale;
  loop = record { watched = []; started = []; last_id = codes "0" };
}

-- The loop goes on while Redis is away, and reconciles when it is back.
run_turns_example :
    run_turns acl_server platform (lost down ∷ lost up ∷ replied (λ t. true) [] ∷ []) idle
    ≡ (none, record idle { acl = users })
unfolding program
run_turns_example = refl
