-- ===== src/Worker/Recovery.antt =====
-- The recreate-from-start recovery of `_receive_workspace`.
use delegate_implementation.Base.{
  ℕ, zero, suc, ◌+◌, ◌<◌, Text, codes, is_empty, List, [], ◌∷◌, ◌++◌, length, Option, Bool, true,
  if◌then◌else◌, ◌≡◌, refl, arith,
}
use delegate_implementation.Platform.{Platform, Bytes, Fields}
use delegate_implementation.Streams.{StreamKeys}
use delegate_implementation.Transfer.Receiver.{Failure}
use delegate_implementation.Transfer.Loop.{completed, transfer_failed, receive_once}
use delegate_implementation.Worker.{
  Attempt, extracted, gave_up, Run, request, receive_from, receive_workspace, publish_log,
}
use delegate_implementation.Worker.Retries.{requests}

module _ (p : Platform) (wait_timeout : ℕ) where
  -- `exc.last_id or last_id`
  abbrev next_id : Text → Text → Text
  next_id last_id id = if is_empty id then last_id else id

  -- Attempts that all fail, from one last id to another.
  pub data Fails : Text → List Attempt → Text → Type 0 where
    no_more : (id : Text) → Fails id [] id
    one_more :
        (last_id id end : Text) (why : Failure) (a : Attempt) (attempts : List Attempt)
        → receive_once p wait_timeout last_id a.start a.polls ≡ transfer_failed why id
        → Fails (next_id last_id id) attempts end
        → Fails last_id (a ∷ attempts) end

module _ (p : Platform) (wait_timeout max_retries : ℕ) (is_zip : Bytes → Bool) (keys : StreamKeys)
    (base_fields : Fields) (requested_file : Text) where
  abbrev from : ℕ → ℕ → Text → List Attempt → Run
  from = receive_from p wait_timeout max_retries is_zip keys base_fields requested_file

  Fails-extracted :
      (left attempt : ℕ) (last_id end id : Text) (failing rest : List Attempt) (good : Attempt)
      (content : Bytes) (transfer_id : Option Text)
      → Fails p wait_timeout last_id failing end
      → receive_once p wait_timeout end good.start good.polls ≡ completed content id transfer_id
      → is_zip content ≡ true
      → length failing < left
      → ((from left attempt last_id (failing ++ good ∷ rest)).reception ≡ extracted content)
        × (requests (from left attempt last_id (failing ++ good ∷ rest)).sent
            ≡ suc (length failing))
  unfolding receive_from requests request publish_log
  Fails-extracted zero attempt last_id end id failing rest good content t fails arrives zip short =
      absurd (omega arith)
  Fails-extracted (suc left) attempt last_id end id [] rest good content t (no_more id₀) arrives zip
        short =
      (ground arith, ground arith)
  Fails-extracted (suc left) attempt last_id end id (a ∷ failing) rest good content t
        (one_more l i e why a' later h fails) arrives zip short =
      let (done, count) =
        Fails-extracted left (attempt + 1) (next_id p wait_timeout last_id i) end id failing rest
          good content t fails arrives zip (omega arith) in
      (ground arith, ground arith)

  Fails-gave_up :
      (left attempt : ℕ) (last_id end : Text) (failing rest : List Attempt)
      → Fails p wait_timeout last_id failing end
      → length failing ≡ left
      → (from left attempt last_id (failing ++ rest)).reception ≡ gave_up
  unfolding receive_from
  Fails-gave_up zero attempt last_id end [] rest fails all = refl
  Fails-gave_up zero attempt last_id end (a ∷ failing) rest fails all = absurd (omega arith)
  Fails-gave_up (suc left) attempt last_id end [] rest fails all = absurd (omega arith)
  Fails-gave_up (suc left) attempt last_id end (a ∷ failing) rest
        (one_more l i e why a' later h fails) all =
      let given =
        Fails-gave_up left (attempt + 1) (next_id p wait_timeout last_id i) end failing rest fails
          (omega arith) in
      ground arith

  -- The worker recovers from failed transfers. Where fewer than `max_retries` attempts fail, each
  -- reading on from where the one before it stopped, and the next one returns a content that is a
  -- ZIP, this is what is extracted, after one request for each failure and one more.
  pub receive_workspace-Fails :
      (end id : Text) (failing rest : List Attempt) (good : Attempt) (content : Bytes)
      (transfer_id : Option Text)
      → Fails p wait_timeout (codes "0") failing end
      → receive_once p wait_timeout end good.start good.polls ≡ completed content id transfer_id
      → is_zip content ≡ true
      → length failing < max_retries
      → let run =
          receive_workspace p wait_timeout max_retries is_zip keys base_fields requested_file
            (failing ++ good ∷ rest) in
        (run.reception ≡ extracted content) × (requests run.sent ≡ suc (length failing))
  unfolding receive_workspace
  receive_workspace-Fails end id failing rest good content t fails arrives zip short =
      Fails-extracted max_retries 1 (codes "0") end id failing rest good content t fails arrives zip
        short

  -- Where `max_retries` attempts fail, the worker gives up, whatever a further one would bring.
  pub gave_up-Fails :
      (end : Text) (failing rest : List Attempt)
      → Fails p wait_timeout (codes "0") failing end
      → length failing ≡ max_retries
      → (receive_workspace p wait_timeout max_retries is_zip keys base_fields requested_file
          (failing ++ rest)).reception
        ≡ gave_up
  unfolding receive_workspace
  gave_up-Fails end failing rest fails all =
      Fails-gave_up max_retries 1 (codes "0") end failing rest fails all
