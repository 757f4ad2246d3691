-- ===== src/Dispatcher/PoisonTests.antt =====
-- The main loop is given an announcement of an execution that is there, then loses the connection,
-- and then reads an announcement that is no UUID between two others.
use delegate_implementation.Base.{
  Text, codes, text_eq, lookup, [], ◌∷◌, Option, none, some, true, ◌≡◌, refl, validation_error,
}
use delegate_implementation.Platform.{Platform, Fields}
use delegate_implementation.Transfer.Receiver.{is_type, same_text}
use delegate_implementation.Dispatcher.Main.{Attempt, Main, lost, replied, run_turns}
use delegate_implementation.Dispatcher.Poison.{run_turns-poisoned}
use delegate_implementation.Samples.{platform, world}
use delegate_implementation.Samples.Server.{acl_server}

program : Unit {0}
unfolding text_eq lookup same_text is_type
program = tt

-- A text of one character is a UUID.
abbrev short_uuid : Text → Option Text
short_uuid [] = none
short_uuid (c ∷ []) = some (c ∷ [])
short_uuid (c ∷ d ∷ cs) = none

abbrev short : Platform
short = record platform { to_uuid = short_uuid }

abbrev announcement : Text → Fields
announcement id = ("type", codes "EXECUTION_STARTED") ∷ ("execution_id", id) ∷ []

abbrev idle : Main acl_server
idle = record {
  world = world;
  acl = [];
  loop = record { watched = []; started = []; last_id = codes "0" };
}

abbrev attempt : Attempt
attempt = record { redis_up = true; password = λ id. codes "q" }

run_turns-poisoned_example :
    (run_turns acl_server short
      (replied (λ t. true) ((codes "5", announcement (codes "e")) ∷ [])
        ∷ lost attempt
        ∷ replied
            (λ t. true)
            ((codes "6", announcement (codes "e"))
              ∷ (codes "7", announcement (codes "xx"))
              ∷ (codes "8", announcement (codes "f"))
              ∷ [])
        ∷ lost attempt
        ∷ [])
      idle).0
    ≡ some validation_error
unfolding program
run_turns-poisoned_example =
    run_turns-poisoned short acl_server
      (replied (λ t. true) ((codes "5", announcement (codes "e")) ∷ []) ∷ lost attempt ∷ [])
      (lost attempt ∷ []) (λ t. true) ((codes "6", announcement (codes "e")) ∷ [])
      ((codes "8", announcement (codes "f")) ∷ []) (codes "7") (codes "xx")
      (announcement (codes "xx")) idle refl refl refl refl refl
