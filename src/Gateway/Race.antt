-- ===== src/Gateway/Race.antt =====
-- A revocation in the middle of a HELLO.
use delegate_implementation.Base.{
  Text, text_eq_iff, List, none, some, true, false, ◌≡◌, refl, arith,
}
use delegate_implementation.Platform.{Platform}
use delegate_implementation.Models.{Db, Delegate}
use delegate_implementation.Gateway.{
  querying, resuming, Handler, Gateway, find_socket, resume, disconnect, lookup_active_delegate,
  send_restart,
}
use delegate_implementation.Gateway.Table.{find_socket-set_socket}
use delegate_implementation.Gateway.Steps.{
  State, moved, queried, resumed, changes, Step, Steps, done, more,
}

-- A connection whose HELLO was answered by the query before a revocation is registered after it.
-- From a state where the id is not connected and a handler, among any others, is about to query the
-- id, whose row is active, a state is reached whose tables are those of the revocation, by which
-- the delegate is not active, and where the disconnect of the revocation finds no connection and
-- answers false. One step after this disconnect the same tables hold, the id is connected with the
-- socket of that handler, and a restart that is sent to the id finds it.
pub revoked-connected :
    (p : Platform) (before after : List Handler) (h : Handler) (g : Gateway) (id : Text)
    (d : Delegate) (db : Db)
    → h.phase ≡ querying id
    → lookup_active_delegate p id g.db ≡ some d
    → find_socket id g.connected ≡ none
    → lookup_active_delegate p id db ≡ none
    → (s : State) × (t : State) × Steps p (moved before after (h, g)) s
      × (s.gateway.db ≡ db)
      × (lookup_active_delegate p id s.gateway.db ≡ none)
      × ((disconnect id s.gateway).0 ≡ false)
      × Step p (record s { gateway = (disconnect id s.gateway).1 }) t
      × (t.gateway.db ≡ db)
      × (find_socket id t.gateway.connected ≡ some h.socket)
      × ((send_restart p id t.gateway).0 ≡ true)
unfolding resume disconnect send_restart
revoked-connected p before after h g id d db asks found absent gone =
    let row = lookup_active_delegate p id g.db in
    let h₁ = record h { phase = resuming id row } in
    let g₁ = record g { db = db } in
    let g₂ = (disconnect id g₁).1 in
    let connects = resume id row h₁ g₂ in
    let there : find_socket id connects.1.connected ≡ some h.socket =
      ground (arith, text_eq_iff id id, find_socket-set_socket id id h.socket g.connected) in
    (
      moved before after (h₁, g₁),
      moved before after connects,
      more (moved before after (h, g)) (moved before after (h₁, g)) _
          (queried before after h g id asks)
          (more _ _ _ (changes (moved before after (h₁, g)) db) (done _)),
      refl,
      gone,
      ground arith,
      resumed before after h₁ g₂ id row refl,
      ground arith,
      there,
      ground arith,
    )
