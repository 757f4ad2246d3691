-- ===== src/Gateway/Table.antt =====
-- CONNECTED as a dict.
use delegate_implementation.Base.{
  Text, text_eq, text_eq_iff, List, [], ◌∷◌, none, some, if◌then◌else◌, ◌≡◌, arith,
}
use delegate_implementation.Gateway.{Socket, find_socket, drop_socket, set_socket}

pub find_socket-drop_socket :
    (id v : Text) (table : List (Text × Socket))
    → find_socket v (drop_socket id table) ≡ (if text_eq id v then none else find_socket v table)
unfolding find_socket drop_socket
find_socket-drop_socket id v [] = ground arith
find_socket-drop_socket id v ((k, s) ∷ rest) =
    ground (
      arith,
      text_eq_iff k id,
      text_eq_iff k v,
      text_eq_iff id v,
      find_socket-drop_socket id v rest,
    )

pub find_socket-set_socket :
    (id v : Text) (socket : Socket) (table : List (Text × Socket))
    → find_socket v (set_socket id socket table)
      ≡ (if text_eq id v then some socket else find_socket v table)
unfolding find_socket set_socket
find_socket-set_socket id v socket [] = ground (arith, text_eq_iff id v)
find_socket-set_socket id v socket ((k, s) ∷ rest) = ground (
  arith,
  text_eq_iff k id,
  text_eq_iff k v,
  text_eq_iff id v,
  find_socket-set_socket id v socket rest,
)
