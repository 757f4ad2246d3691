-- ===== src/Dispatcher/Cleanup.antt =====
-- How a watcher ends, and that it deletes the streams of its execution once.
use delegate_implementation.Base.{
  ℕ, ◌+◌, ◌≤◌, leb, Text, List, [], ◌∷◌, ◌++◌, Option, none, some, Option-cases, Bool-cases, true,
  false, Result, ok, raise, Error, Result-cases, ◌≡◌, ◌⊎◌, inl, inr, refl, ap, ◌∙◌, arith,
}
use delegate_implementation.Platform.{Platform, Fields}
use delegate_implementation.Streams.{StreamKeys}
use delegate_implementation.Workspace.{Os}
use delegate_implementation.Models.{Execution, is_terminal}
use delegate_implementation.Models.Tables.{find_execution, add_audit, add_log, on_executions}
use delegate_implementation.Dispatcher.World.{World, M}
use delegate_implementation.Dispatcher.Requests.{handle_data_request, handle_log, handle_status}
use delegate_implementation.Dispatcher.Output.{
  OutputState, output_start, output_chunk, output_end, handle_output_message,
}
use delegate_implementation.Dispatcher.Authorization.{execution_at}
use delegate_implementation.Dispatcher.Success.{dispatch-world}
use delegate_implementation.Dispatcher.Watch.{
  values, Message, Watcher, Watching, running, returned, Reply, connection_lost, reply, Round,
  set_cursor, first_watcher, cleanup_execution_streams, dispatch, handle_messages, after_read,
  round_body, watch_round, give_up, watch_loop, watch_execution,
}

-- The streams are the same.
abbrev Spares : World → World → Type 0
Spares w w' = w'.deleted ≡ w.deleted

-- The four streams of the execution are deleted, in one call.
abbrev Deletes : StreamKeys → World → World → Type 0
Deletes keys w w' = w'.deleted ≡ w.deleted ++ values keys ∷ []

-- Some round starts at the deadline or later.
abbrev pub IsPast : ℕ → List Round → Type 0
IsPast deadline [] = ⊥
IsPast deadline (r ∷ rounds) = (deadline ≤ r.now) ⊎ IsPast deadline rounds

-- How a watcher stands after some rounds. It is in its loop, was ended by an exception, or has
-- returned: because its row is gone, because its row is terminal, or because it is past its deadline.
pub data Ending (p : Platform) (execution_id : Text) (keys : StreamKeys) (late : Type 0) (w : World)
    (r : Result Watching) (w' : World) : Type 0 where
  unfinished :
      (s : Watcher) → r ≡ ok (running s) → Spares w w' → Ending p execution_id keys late w r w'
  crashed : (e : Error) → r ≡ raise e → Spares w w' → Ending p execution_id keys late w r w'
  vanished :
      r ≡ ok returned
      → execution_at p execution_id w' ≡ none
      → Spares w w'
      → Ending p execution_id keys late w r w'
  finished :
      (row : Execution)
      → r ≡ ok returned
      → execution_at p execution_id w' ≡ some row
      → is_terminal row.status ≡ true
      → Deletes keys w w'
      → Ending p execution_id keys late w r w'
  timed_out : late → r ≡ ok returned → Deletes keys w w' → Ending p execution_id keys late w r w'

module _ (p : Platform) (os : Os) (fixtures_dir media_root execution_id : Text)
    (keys : StreamKeys) where
  handle_data_request-Spares :
      (events_key fresh : Text) (fields : Fields) (w : World)
      → Spares w (handle_data_request p os fixtures_dir execution_id events_key fields fresh w).1
  unfolding handle_data_request add_audit on_executions
  handle_data_request-Spares events_key fresh fields w = ground arith

  handle_status-Spares :
      (fields : Fields) (w : World) → Spares w (handle_status p execution_id fields w).1
  unfolding handle_status add_audit on_executions
  handle_status-Spares fields w = ground arith

  handle_log-Spares :
      (fields : Fields) (seq : ℕ) (w : World) → Spares w (handle_log p execution_id fields seq w).1
  unfolding handle_log add_log
  handle_log-Spares fields seq w = ground arith

  output_end-Spares :
      (st : OutputState) (w : World) → Spares w (output_end p os media_root execution_id st w).1
  unfolding output_end add_audit on_executions
  output_end-Spares st w = ground arith

  handle_output_message-Spares :
      (fields : Fields) (state : Option OutputState) (w : World)
      → Spares w (handle_output_message p os media_root execution_id fields state w).1
  unfolding handle_output_message output_start output_chunk
  handle_output_message-Spares fields none w = ground arith
  handle_output_message-Spares fields (some st) w = ground (arith, output_end-Spares st w)

  dispatch-Spares :
      (m : Message) (s : Watcher) (w : World)
      → Spares w (dispatch p os fixtures_dir media_root execution_id keys m s w).1
  dispatch-Spares m s w =
      elim (dispatch-world p os fixtures_dir media_root execution_id keys m s w) [
        | inl e ↦ rw e (handle_data_request-Spares keys.events m.fresh m.fields w)
        | inr (inl e) ↦ rw e (handle_log-Spares m.fields (s.log_seq + 1) w)
        | inr (inr (inl e)) ↦ rw e (handle_status-Spares m.fields w)
        | inr (inr (inr (inl (there, e)))) ↦
            rw e (handle_output_message-Spares m.fields s.output_state w)
        | inr (inr (inr (inr e))) ↦ ap (λ (v : World). v.deleted) e
      ]

  handle_messages-Spares :
      (ms : List Message) (s : Watcher) (w : World)
      → Spares w (handle_messages p os fixtures_dir media_root execution_id keys ms s w).1
  unfolding handle_messages
  handle_messages-Spares [] s w = refl
  handle_messages-Spares (m ∷ ms) s w =
      let s' = record s { last_ids = set_cursor m.stream_key m.id s.last_ids } in
      go (dispatch p os fixtures_dir media_root execution_id keys m s' w) (dispatch-Spares m s' w)
        (handle_messages-Spares ms)
    where
      go :
          (r : Result Watcher × World)
          → Spares w r.1
          → ((s : Watcher) (v : World)
              → Spares v (handle_messages p os fixtures_dir media_root execution_id keys ms s v).1)
          → Spares w
              (elim r.0 as (λ _. Result Watcher × World) [
                | ok s'' ↦ handle_messages p os fixtures_dir media_root execution_id keys ms s'' r.1
                | raise e ↦ (raise e, r.1)
              ]).1
      go (ok s'', w') spared rest = rest s'' w' ∙ spared
      go (raise e, w') spared rest = spared

  after_read-Spares :
      (answer : Reply) (s : Watcher) (w : World)
      → Spares w (after_read p os fixtures_dir media_root execution_id keys answer s w).1
  unfolding after_read
  after_read-Spares connection_lost s w = refl
  after_read-Spares (reply messages) s w = handle_messages-Spares messages s w

  -- One round.
  round-Ending :
      (answer : Reply) (s : Watcher) (w : World)
      → let (r, w') = watch_round p os fixtures_dir media_root execution_id keys answer s w in
        Ending p execution_id keys ⊥ w r w'
  unfolding watch_round round_body cleanup_execution_streams add_audit
  round-Ending answer s w = elim (Option-cases (p.to_uuid execution_id)) [
    | inl bad ↦ crashed Error.validation_error (ground arith) (ground arith)
    | inr (uuid, good) ↦ elim (Option-cases (find_execution uuid w.db.executions)) [
      | inl missing ↦ vanished (ground arith) (ground arith) (ground arith)
      | inr (row, there) ↦ elim (Bool-cases (is_terminal row.status)) [
        | inl over ↦ finished row (ground arith) (ground arith) over (ground arith)
        | inr live ↦
            let spared = after_read-Spares answer s w in
            elim (Result-cases
              (after_read p os fixtures_dir media_root execution_id keys answer s w).0) [
                | inl (e, failed) ↦ crashed e (ground arith) (ground (arith, spared))
                | inr (s', read) ↦ unfinished s' (ground arith) (ground (arith, spared))
              ]
      ]
    ]
  ]

  module _ (seconds deadline : ℕ) where
    abbrev loop : List Round → Watcher → M Watching
    loop = watch_loop p os fixtures_dir media_root execution_id keys seconds deadline

    -- The loop after one round before the deadline.
    module _ (r : Round) (rounds : List Round) (s : Watcher) (w : World)
        (early : leb deadline r.now ≡ false) where
      abbrev round : Result Watching × World
      round = watch_round p os fixtures_dir media_root execution_id keys r.answer s w

      loop-running :
          (s' : Watcher)
          → round.0 ≡ ok (running s')
          → loop (r ∷ rounds) s w ≡ loop rounds s' round.1
      unfolding watch_loop
      loop-running s' h = rw early (ground arith)

      loop-returned : round.0 ≡ ok returned → loop (r ∷ rounds) s w ≡ (ok returned, round.1)
      unfolding watch_loop
      loop-returned h = rw early (ground arith)

      loop-crashed : (e : Error) → round.0 ≡ raise e → loop (r ∷ rounds) s w ≡ (raise e, round.1)
      unfolding watch_loop
      loop-crashed e h = rw early (ground arith)

    -- An ending from where a first part has left the streams alone.
    Ending-after :
        {early late : Type 0} (w v : World) (r : Result Watching) (w' : World)
        → Spares w v
        → (early → late)
        → Ending p execution_id keys early v r w'
        → Ending p execution_id keys late w r w'
    Ending-after w v r w' spared later (unfinished s h k) = unfinished s h (k ∙ spared)
    Ending-after w v r w' spared later (crashed e h k) = crashed e h (k ∙ spared)
    Ending-after w v r w' spared later (vanished h gone k) = vanished h gone (k ∙ spared)
    Ending-after w v r w' spared later (finished row h there over k) =
        finished row h there over (rw (← spared) k)
    Ending-after w v r w' spared later (timed_out past h k) =
        timed_out (later past) h (rw (← spared) k)

    loop-Ending :
        (rounds : List Round) (s : Watcher) (w : World)
        → Ending p execution_id keys
            (IsPast deadline rounds)
            w
            (loop rounds s w).0
            (loop rounds s w).1
    unfolding watch_loop give_up cleanup_execution_streams add_audit
    loop-Ending [] s w = unfinished s refl refl
    loop-Ending (r ∷ rounds) s w = elim (Bool-cases (leb deadline r.now)) [
      | inl late ↦ timed_out (inl (ground arith)) (ground arith) (ground arith)
      | inr early ↦ elim (round-Ending r.answer s w) [
        | unfinished s' h k ↦ rw (loop-running r rounds s w early s' h) (
            Ending-after w (round r rounds s w early).1 _ _ k inr
              (loop-Ending rounds s' (round r rounds s w early).1))
        | crashed e h k ↦ rw (loop-crashed r rounds s w early e h) (crashed e refl k)
        | vanished h gone k ↦ rw (loop-returned r rounds s w early h) (vanished refl gone k)
        | finished row h there over k ↦
            rw (loop-returned r rounds s w early h) (finished row refl there over k)
        | timed_out past h k ↦ absurd past
      ]
    ]

    -- Past the deadline a loop is over.
    loop-IsPast :
        (rounds : List Round) (s : Watcher) (w : World)
        → IsPast deadline rounds
        → ((loop rounds s w).0 ≡ ok returned) ⊎ ((e : Error) × ((loop rounds s w).0 ≡ raise e))
    unfolding watch_loop give_up cleanup_execution_streams add_audit
    loop-IsPast [] s w past = absurd past
    loop-IsPast (r ∷ rounds) s w past = elim (Bool-cases (leb deadline r.now)) [
      | inl late ↦ inl (ground arith)
      | inr early ↦ elim (round-Ending r.answer s w) [
        | unfinished s' h k ↦
            rw (loop-running r rounds s w early s' h)
              (loop-IsPast rounds s' (round r rounds s w early).1 (later early past))
        | crashed e h k ↦ rw (loop-crashed r rounds s w early e h) (inr (e, refl))
        | vanished h gone k ↦ rw (loop-returned r rounds s w early h) (inl refl)
        | finished row h there over k ↦ rw (loop-returned r rounds s w early h) (inl refl)
        | timed_out never h k ↦ absurd never
      ]
    ]
      where
        later : leb deadline r.now ≡ false → IsPast deadline (r ∷ rounds) → IsPast deadline rounds
        later early (inl late) = absurd (ground arith)
        later early (inr rest) = rest

  -- The streams of an execution are deleted by the watcher that returns, in one call, and only then:
  -- because the row has a terminal status, or because a round started at the deadline or later. A
  -- watcher in its loop, one that raises, and one that finds no row have deleted nothing.
  pub watch_execution-Ending :
      (seconds start : ℕ) (rounds : List Round) (w : World)
      → let (r, w') =
          watch_execution p os fixtures_dir media_root execution_id keys seconds start rounds w in
        Ending p execution_id keys (IsPast (start + seconds) rounds) w r w'
  unfolding watch_execution
  watch_execution-Ending seconds start rounds w =
      loop-Ending seconds (start + seconds) rounds (first_watcher keys) w

  -- A watcher ends: once a round starts `max_lifetime_seconds` after the first or later, it has
  -- returned or was ended by an exception, whatever the streams and the tables hold.
  pub watch_execution-IsPast :
      (seconds start : ℕ) (rounds : List Round) (w : World)
      → IsPast (start + seconds) rounds
      → let r =
          (watch_execution p os fixtures_dir media_root execution_id keys seconds start rounds
            w).0 in
        (r ≡ ok returned) ⊎ ((e : Error) × (r ≡ raise e))
  unfolding watch_execution
  watch_execution-IsPast seconds start rounds w =
      loop-IsPast seconds (start + seconds) rounds (first_watcher keys) w
