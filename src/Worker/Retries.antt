-- ===== src/Worker/Retries.antt =====
-- What the retries of the worker can do.
use delegate_implementation.Base.{
  Any, ℕ, zero, suc, ◌+◌, ◌≤◌, Text, codes, is_empty, List, [], ◌∷◌, Option, Bool, true,
  if◌then◌else◌, ◌≡◌, inl, inr, refl, arith,
}
use delegate_implementation.Platform.{Platform, Bytes, Fields}
use delegate_implementation.Streams.{StreamKeys}
use delegate_implementation.Transfer.Loop.{completed, receive_once, Outcome-cases}
use delegate_implementation.Worker.{
  log, status, data_request, execution_started, transfer, Publish, Attempt, extracted, gave_up, Run,
  request, receive_from, receive_workspace, publish_log,
}

-- How many DATA_REQUEST messages there are.
unfoldable pub requests : List Publish → ℕ
requests [] = 0
requests (m ∷ ms) = elim m.body [
  | log d ↦ requests ms
  | status s ↦ requests ms
  | data_request f ↦ suc (requests ms)
  | execution_started id keys ↦ requests ms
  | transfer fields ↦ requests ms
]

module _ (p : Platform) (wait_timeout : ℕ) (is_zip : Bytes → Bool) where
  -- `receive_once`, called with the replies of the attempt, returns the content, which is a ZIP.
  pub record Completes (content : Bytes) (attempt : Attempt) : Type 0 where
    pub last_id : Text
    pub end_id : Text
    pub transfer_id : Option Text
    pub completes :
        receive_once p wait_timeout last_id attempt.start attempt.polls
        ≡ completed content end_id transfer_id
    pub zip : is_zip content ≡ true

module _ (p : Platform) (wait_timeout max_retries : ℕ) (is_zip : Bytes → Bool) (keys : StreamKeys)
    (base_fields : Fields) (requested_file : Text) where
  abbrev from : ℕ → ℕ → Text → List Attempt → Run
  from = receive_from p wait_timeout max_retries is_zip keys base_fields requested_file

  requests-receive_from :
      (left attempt : ℕ) (last_id : Text) (attempts : List Attempt)
      → requests (from left attempt last_id attempts).sent ≤ left
  unfolding receive_from requests request publish_log
  requests-receive_from zero attempt last_id attempts = omega arith
  requests-receive_from (suc left) attempt last_id [] = omega arith
  requests-receive_from (suc left) attempt last_id (a ∷ attempts) =
      elim (Outcome-cases (receive_once p wait_timeout last_id a.start a.polls)) [
        | inl (s, stops) ↦ ground arith
        | inr (inl (content, id, t, arrives)) ↦ ground arith
        | inr (inr (inl (why, id, fails))) ↦
            let last = if is_empty id then last_id else id in
            let rest = requests-receive_from left (attempt + 1) last attempts in ground arith
        | inr (inr (inr (e, raises))) ↦ ground arith
      ]

  gave_up-requests :
      (left attempt : ℕ) (last_id : Text) (attempts : List Attempt)
      → (from left attempt last_id attempts).reception ≡ gave_up
      → requests (from left attempt last_id attempts).sent ≡ left
  unfolding receive_from requests request publish_log
  gave_up-requests zero attempt last_id attempts h = refl
  gave_up-requests (suc left) attempt last_id [] h = absurd (ground arith)
  gave_up-requests (suc left) attempt last_id (a ∷ attempts) h =
      elim (Outcome-cases (receive_once p wait_timeout last_id a.start a.polls)) [
        | inl (s, stops) ↦ absurd (ground arith)
        | inr (inl (content, id, t, arrives)) ↦ absurd (ground arith)
        | inr (inr (inl (why, id, fails))) ↦
            let last = if is_empty id then last_id else id in
            let rest = gave_up-requests left (attempt + 1) last attempts (ground arith) in
            ground arith
        | inr (inr (inr (e, raises))) ↦ absurd (ground arith)
      ]

  extracted-Any :
      (left attempt : ℕ) (last_id : Text) (attempts : List Attempt) (content : Bytes)
      → (from left attempt last_id attempts).reception ≡ extracted content
      → Any (Completes p wait_timeout is_zip content) attempts
  unfolding receive_from
  extracted-Any zero attempt last_id attempts content h = absurd (ground arith)
  extracted-Any (suc left) attempt last_id [] content h = absurd (ground arith)
  extracted-Any (suc left) attempt last_id (a ∷ attempts) content h =
      elim (Outcome-cases (receive_once p wait_timeout last_id a.start a.polls)) [
        | inl (s, stops) ↦ absurd (ground arith)
        | inr (inl (content', id, t, arrives)) ↦ inl (record {
          last_id = last_id;
          end_id = id;
          transfer_id = t;
          completes = ground arith;
          zip = ground arith;
        })
        | inr (inr (inl (why, id, fails))) ↦
            let last = if is_empty id then last_id else id in
            inr (extracted-Any left (attempt + 1) last attempts content (ground arith))
        | inr (inr (inr (e, raises))) ↦ absurd (ground arith)
      ]

  -- A worker asks for the workspace at most `max_retries` times, whatever the stream brings.
  pub requests-receive_workspace :
      (attempts : List Attempt)
      → requests
          (receive_workspace p wait_timeout max_retries is_zip keys base_fields requested_file
            attempts).sent
        ≤ max_retries
  unfolding receive_workspace
  requests-receive_workspace attempts = requests-receive_from max_retries 1 (codes "0") attempts

  -- It gives up only after exactly `max_retries` requests.
  pub receive_workspace-gave_up :
      (attempts : List Attempt)
      → (receive_workspace p wait_timeout max_retries is_zip keys base_fields requested_file
          attempts).reception
        ≡ gave_up
      → requests
          (receive_workspace p wait_timeout max_retries is_zip keys base_fields requested_file
            attempts).sent
        ≡ max_retries
  unfolding receive_workspace
  receive_workspace-gave_up attempts = gave_up-requests max_retries 1 (codes "0") attempts

  -- It extracts a content only where `receive_once`, called with the replies of one of the
  -- attempts, has returned that content, and the content is a ZIP.
  pub receive_workspace-extracted :
      (attempts : List Attempt) (content : Bytes)
      → (receive_workspace p wait_timeout max_retries is_zip keys base_fields requested_file
          attempts).reception
        ≡ extracted content
      → Any (Completes p wait_timeout is_zip content) attempts
  unfolding receive_workspace
  receive_workspace-extracted attempts content =
      extracted-Any max_retries 1 (codes "0") attempts content
