-- ===== src/Agent/Tests.antt =====
-- An agent whose delegate runs in two containers, the second of which cannot be restarted.
use delegate_implementation.Base.{
  codes, List, [], ◌∷◌, some, true, false, text_eq, lookup, runtime_error, ◌≡◌, refl,
}
use delegate_implementation.Transfer.Receiver.{is_type}
use delegate_implementation.Agent.{
  Container, hello, restart, wait, connected, hello_fields, restart_all, restart_delegate,
  on_message, on_messages, session, run,
}

abbrev containers : List Container
containers =
    record { name = codes "a"; restarts = true }
    ∷ record { name = codes "b"; restarts = false }
    ∷ []

run_example :
    run (codes "d") (
      connected
        (record { fields = some (("type", codes "RESTART") ∷ []); containers = containers } ∷ [])
        true
      ∷ connected [] true
      ∷ [])
    ≡ hello (hello_fields (codes "d"))
      ∷ restart (codes "a")
      ∷ restart (codes "b")
      ∷ wait runtime_error
      ∷ hello (hello_fields (codes "d"))
      ∷ []
unfolding run session on_messages on_message restart_delegate restart_all is_type lookup text_eq
run_example = refl
