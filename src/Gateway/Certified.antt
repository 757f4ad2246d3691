-- ===== src/Gateway/Certified.antt =====
-- What holds of the table CONNECTED in every interleaving.
use delegate_implementation.Base.{Text, List, [], ◌∷◌, Option, some, ◌≡◌}
use delegate_implementation.Platform.{Platform}
use delegate_implementation.Models.{Delegate}
use delegate_implementation.Gateway.{Socket, querying, resuming, Handler, Gateway, find_socket}
use delegate_implementation.Gateway.Steps.{State, Steps}

-- A handler that asks for an id, or has asked for it, has a certificate for it.
abbrev Asks : Handler → Type 0
Asks h = (id : Text) → (h.phase ≡ querying id) → h.socket.cn ≡ some id

abbrev Resumes : Handler → Type 0
Resumes h =
    (id : Text) (found : Option Delegate) → (h.phase ≡ resuming id found) → h.socket.cn ≡ some id

abbrev AllAsk : List Handler → Type 0
AllAsk [] = Unit
AllAsk (h ∷ hs) = (Asks h × Resumes h) × AllAsk hs

-- Every id of CONNECTED is the common name of the certificate of its socket.
abbrev pub IsCertified : Gateway → Type 0
IsCertified g = (id : Text) (s : Socket) → find_socket id g.connected ≡ some s → s.cn ≡ some id

abbrev pub IsInvariant : State → Type 0
IsInvariant s = AllAsk s.handlers × IsCertified s.gateway
