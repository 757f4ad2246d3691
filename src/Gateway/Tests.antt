-- ===== src/Gateway/Tests.antt =====
-- The gateway run on one connection that says HELLO, and on a revocation in between.
use delegate_implementation.Base.{
  true, false, ◌≡◌, refl, codes, text_eq, lookup, [], ◌∷◌, none, some,
}
use delegate_implementation.Platform.{Fields}
use delegate_implementation.Models.{Db, revoked}
use delegate_implementation.Models.Tables.{find_delegate}
use delegate_implementation.Transfer.Receiver.{is_type, same_text}
use delegate_implementation.Gateway.{
  Socket, Handler, Gateway, reading, querying, resuming, find_socket, drop_socket, hello, receive,
  resume, set_socket, lookup_active_delegate, disconnect, send_restart,
}
use delegate_implementation.Gateway.Steps.{
  State, Step, moved, opened, got_message, queried, resumed, Steps, done, more, at_start,
}
use delegate_implementation.Gateway.Race.{revoked-connected}
use delegate_implementation.Samples.{platform, delegate, db}

program : Unit {0}
unfolding text_eq lookup is_type same_text find_delegate find_socket drop_socket hello receive
    resume set_socket lookup_active_delegate
program = tt

abbrev socket : Socket
socket = record { id = 1; cn = some (codes "d") }

abbrev handler : Handler
handler = record { socket = socket; delegate_id = none; phase = reading }

abbrev empty : Gateway
empty = record { connected = []; db = db; sent = [] }

abbrev greeting : Fields
greeting = ("type", codes "HELLO") ∷ ("delegate_id", codes "d") ∷ []

abbrev asking : Handler
asking = record handler { phase = querying (codes "d") }

abbrev answered : Handler
answered = record handler { phase = resuming (codes "d") (some delegate) }

abbrev connects :
    Steps platform (at_start db) (moved [] [] (resume (codes "d") (some delegate) answered empty))
unfolding program
connects = more (at_start db) (moved [] [] (handler, empty)) _ (opened (at_start db) socket) (
    more (moved [] [] (handler, empty)) (moved [] [] (asking, empty)) _
      (got_message [] [] handler empty (some greeting) refl)
      (more (moved [] [] (asking, empty)) (moved [] [] (answered, empty)) _
        (queried [] [] asking empty (codes "d") refl)
        (more (moved [] [] (answered, empty)) _ _
          (resumed [] [] answered empty (codes "d") (some delegate) refl) (done _))))

abbrev db_after : Db
db_after = record db { delegates = record delegate { status = revoked } ∷ [] }

revoked-connected_example :
    (s : State) × (t : State) × Steps platform (moved [] [] (asking, empty)) s
    × (s.gateway.db ≡ db_after)
    × (lookup_active_delegate platform (codes "d") s.gateway.db ≡ none)
    × ((disconnect (codes "d") s.gateway).0 ≡ false)
    × Step platform (record s { gateway = (disconnect (codes "d") s.gateway).1 }) t
    × (t.gateway.db ≡ db_after)
    × (find_socket (codes "d") t.gateway.connected ≡ some socket)
    × ((send_restart platform (codes "d") t.gateway).0 ≡ true)
unfolding program
revoked-connected_example =
    revoked-connected platform [] [] asking empty (codes "d") delegate db_after refl refl refl refl
