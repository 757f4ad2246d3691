-- ===== src/Dispatcher/Lifecycle/Loop.antt =====
-- `watch_execution` is a run of the machine.
use delegate_implementation.Base.{
  ℕ, ◌+◌, Text, List, [], ◌∷◌, Option, none, some, Bool, true, false, if◌then◌else◌, leb, Result,
  ok, raise, ◌≡◌, arith,
}
use delegate_implementation.Platform.{Platform}
use delegate_implementation.Streams.{StreamKeys}
use delegate_implementation.Workspace.{Os}
use delegate_implementation.Models.{Execution, is_terminal}
use delegate_implementation.Models.Tables.{add_audit}
use delegate_implementation.Dispatcher.World.{World, M, ◌>>=◌, ◌>>◌, pure, get_execution}
use delegate_implementation.Dispatcher.Output.{output_path}
use delegate_implementation.Dispatcher.Watch.{
  Message, Watcher, Watching, running, returned, Head, gone, terminal, live, Reply, connection_lost,
  reply, Round, set_cursor, cleanup_execution_streams, first_watcher, dispatch, handle_messages,
  after_read, round_body, watch_round, give_up, watch_loop, watch_execution,
}
use delegate_implementation.Dispatcher.Lifecycle.{Ledger, ledger, Move, Moves, done, more}
use delegate_implementation.Dispatcher.Lifecycle.Handlers.{dispatch-Move}

module _ (p : Platform) (os : Os) (fixtures_dir media_root execution_id uuid : Text)
    (known : p.to_uuid execution_id ≡ some uuid) where
  abbrev path : Text
  path = output_path p os media_root execution_id

  module _ (keys : StreamKeys) where
    -- A computation whose effect on rows and files is a run of the machine, wherever it starts.
    abbrev Runs : {A : Type 0} → M A → Type 0
    Runs m = (w : World) → Moves p path uuid (ledger w) (ledger (m w).1)

    pure-Runs : {A : Type 0} (a : A) → Runs (pure a)
    pure-Runs a w = done (ledger w)

    Moves-trans :
        {l m n : Ledger} → Moves p path uuid l m → Moves p path uuid m n → Moves p path uuid l n
    Moves-trans (done l) rest = rest
    Moves-trans {n = k} (more l m n first run) rest = more l m k first (Moves-trans run rest)

    >>=-Runs :
        {A B : Type 0} (m : M A) (f : A → M B) → Runs m → ((a : A) → Runs (f a)) → Runs (m >>= f)
    >>=-Runs {A} {B} m f first rest w = go (m w) (first w)
      where
        go :
            (r : Result A × World)
            → Moves p path uuid (ledger w) (ledger r.1)
            → Moves p path uuid (ledger w) (
                ledger
                  (elim r.0 as (λ _. Result B × World) [
                    | ok a ↦ f a r.1
                    | raise e ↦ (raise e, r.1)
                  ]).1)
        go (ok a, w') run = Moves-trans run (rest a w')
        go (raise e, w') run = run

    Move-Runs :
        {A : Type 0} (m : M A)
        → ((w : World) → Move p path uuid (ledger w) (ledger (m w).1))
        → Runs m
    Move-Runs m step w = more (ledger w) (ledger (m w).1) (ledger (m w).1) (step w) (done _)

    handle_messages-Runs :
        (ms : List Message) (s : Watcher)
        → Runs (handle_messages p os fixtures_dir media_root execution_id keys ms s)
    unfolding handle_messages
    handle_messages-Runs [] s = pure-Runs s
    handle_messages-Runs (m ∷ ms) s =
        let s' = record s { last_ids = set_cursor m.stream_key m.id s.last_ids } in
        >>=-Runs (dispatch p os fixtures_dir media_root execution_id keys m s')
          (handle_messages p os fixtures_dir media_root execution_id keys ms)
          (Move-Runs (dispatch p os fixtures_dir media_root execution_id keys m s')
            (dispatch-Move p os fixtures_dir media_root execution_id uuid known keys m s'))
          (handle_messages-Runs ms)

    cleanup-Runs : Runs (cleanup_execution_streams execution_id keys)
    unfolding cleanup_execution_streams add_audit
    cleanup-Runs w = done (ledger w)

    after_read-Runs :
        (answer : Reply) (s : Watcher)
        → Runs (after_read p os fixtures_dir media_root execution_id keys answer s)
    unfolding after_read
    after_read-Runs connection_lost s = pure-Runs s
    after_read-Runs (reply messages) s = handle_messages-Runs messages s

    head-Runs :
        (answer : Reply) (s : Watcher) (head : Head)
        → Runs (elim head as (λ _. M Watching) [
          | gone ↦ pure returned
          | terminal ↦ cleanup_execution_streams execution_id keys >> pure returned
          | live ↦ after_read p os fixtures_dir media_root execution_id keys answer s >>= λ s'.
              pure (running s')
        ])
    head-Runs answer s gone = pure-Runs returned
    head-Runs answer s terminal =
        >>=-Runs (cleanup_execution_streams execution_id keys) (λ _. pure returned) cleanup-Runs
          (λ _. pure-Runs returned)
    head-Runs answer s live =
        >>=-Runs (after_read p os fixtures_dir media_root execution_id keys answer s)
          (λ s'. pure (running s')) (after_read-Runs answer s) (λ s'. pure-Runs (running s'))

    round_body-Runs :
        (answer : Reply) (s : Watcher) (found : Option Execution)
        → Runs (round_body p os fixtures_dir media_root execution_id keys answer s found)
    unfolding round_body
    round_body-Runs answer s none = head-Runs answer s gone
    round_body-Runs answer s (some execution) =
        head-Runs answer s (if is_terminal execution.status then terminal else live)

    get_execution-Runs : Runs (get_execution p execution_id)
    get_execution-Runs w =
        let same : (get_execution p execution_id w).1 ≡ w = ground (arith, known) in
        rw same (done (ledger w))

    give_up-Runs :
        (seconds : ℕ) → Runs (give_up p os fixtures_dir media_root execution_id keys seconds)
    unfolding give_up cleanup_execution_streams add_audit
    give_up-Runs seconds w = done (ledger w)

    watch_round-Runs :
        (answer : Reply) (s : Watcher)
        → Runs (watch_round p os fixtures_dir media_root execution_id keys answer s)
    unfolding watch_round
    watch_round-Runs answer s =
        >>=-Runs (get_execution p execution_id)
          (round_body p os fixtures_dir media_root execution_id keys answer s) get_execution-Runs
          (round_body-Runs answer s)

    if-Runs : {A : Type 0} (b : Bool) (m n : M A) → Runs m → Runs n → Runs (if b then m else n)
    if-Runs true m n h k = h
    if-Runs false m n h k = k

    -- What follows a round in the loop.
    abbrev next_round : ℕ → ℕ → List Round → Watching → M Watching
    next_round seconds deadline rounds stand = elim stand as (λ _. M Watching) [
      | running s' ↦
          watch_loop p os fixtures_dir media_root execution_id keys seconds deadline rounds s'
      | returned ↦ pure returned
    ]

    next_round-Runs :
        (seconds deadline : ℕ) (rounds : List Round)
        → ((s : Watcher)
            → Runs (
                watch_loop p os fixtures_dir media_root execution_id keys seconds deadline rounds
                  s))
        → (stand : Watching) → Runs (next_round seconds deadline rounds stand)
    next_round-Runs seconds deadline rounds rest (running s') = rest s'
    next_round-Runs seconds deadline rounds rest returned = pure-Runs returned

    watch_loop-Runs :
        (seconds deadline : ℕ) (rounds : List Round) (s : Watcher)
        → Runs (watch_loop p os fixtures_dir media_root execution_id keys seconds deadline rounds s)
    unfolding watch_loop
    watch_loop-Runs seconds deadline [] s = pure-Runs (running s)
    watch_loop-Runs seconds deadline (r ∷ rounds) s =
        let attempt = watch_round p os fixtures_dir media_root execution_id keys r.answer s in
        let next = next_round seconds deadline rounds in
        if-Runs (leb deadline r.now)
          (give_up p os fixtures_dir media_root execution_id keys seconds) (attempt >>= next)
          (give_up-Runs seconds)
          (>>=-Runs attempt next (watch_round-Runs r.answer s)
            (next_round-Runs seconds deadline rounds (watch_loop-Runs seconds deadline rounds)))

  -- A watcher on an execution whose id is a UUID refines the machine: whatever it reads, and
  -- wherever it stops or raises, what it does to the rows of the executions and to the stored files
  -- is a run of moves for that one execution: to TRANSFERRING with one attempt more, to a status
  -- that a worker may report (never QUEUED or SUCCEEDED), or to SUCCEEDED together with the file
  -- and its checksum.
  pub watch_execution-Moves :
      (keys : StreamKeys) (seconds start : ℕ) (rounds : List Round) (w : World)
      → Moves p path uuid (ledger w) (
          ledger
            (watch_execution p os fixtures_dir media_root execution_id keys seconds start rounds
              w).1)
  unfolding watch_execution
  watch_execution-Moves keys seconds start rounds w =
      watch_loop-Runs keys seconds (start + seconds) rounds (first_watcher keys) w
