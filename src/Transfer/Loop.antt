-- ===== src/Transfer/Loop.antt =====
-- shared/delegate_protocol/chunked_transfer.py: the polling loop of `ChunkReceiver.receive_once`.
-- Every reading of the clock is an input: `now` of a poll is the one at the head of the loop, `at`
-- of an entry the one that moves the deadline. A run ends in `waiting` where the input does.
use delegate_implementation.Base.{
  ℕ, ◌+◌, Text, List, [], ◌∷◌, Option, leb, if◌then◌else◌, Error, Result, ok, raise, ◌≡◌, ◌⊎◌, inl,
  inr, refl,
}
use delegate_implementation.Platform.{Platform, Bytes, Fields}
use delegate_implementation.Transfer.Receiver.{
  Rx, initial, Failure, timeout, Reaction, next, failed, received, receive_message,
}

-- One entry of a reply: its stream id, its fields, and the clock while it is handled.
pub record Entry : Type 0 where
  pub id : Text
  pub fields : Fields
  pub at : ℕ

pub record Poll : Type 0 where
  pub now : ℕ
  pub entries : List Entry

pub record Loop : Type 0 where
  pub rx : Rx
  pub last_id : Text
  pub deadline : ℕ

-- How a call ends. `transfer_failed` carries the last id, as the exception does.
pub data Outcome : Type 0 where
  waiting : Loop → Outcome
  completed : Bytes → Text → Option Text → Outcome
  transfer_failed : Failure → Text → Outcome
  raised : Error → Outcome

-- Goes on with `k` where the call has not ended.
abbrev pub and_then : Outcome → (Loop → Outcome) → Outcome
and_then (waiting s) k = k s
and_then (completed content last_id transfer_id) k = completed content last_id transfer_id
and_then (transfer_failed why last_id) k = transfer_failed why last_id
and_then (raised error) k = raised error

module _ (p : Platform) (wait_timeout : ℕ) where
  -- What a reaction does to the loop's variables: it goes on, or the call ends.
  unfoldable pub apply_reaction : Loop → Entry → Result Reaction → Outcome
  apply_reaction s e (ok (next rx progress)) = waiting (record {
    rx = rx;
    last_id = e.id;
    deadline = if progress then e.at + wait_timeout else s.deadline;
  })
  apply_reaction s e (ok (failed why)) = transfer_failed why e.id
  apply_reaction s e (ok (received content transfer_id)) = completed content e.id transfer_id
  apply_reaction s e (raise error) = raised error

  unfoldable pub handle_entry : Loop → Entry → Outcome
  unfolding apply_reaction
  handle_entry s e = apply_reaction s e (receive_message p s.rx e.fields)

  unfoldable pub handle_entries : List Entry → Loop → Outcome
  handle_entries [] s = waiting s
  handle_entries (e ∷ es) s = and_then (handle_entry s e) (handle_entries es)

  unfoldable pub poll_loop : List Poll → Loop → Outcome
  poll_loop [] s = waiting s
  poll_loop (poll ∷ polls) s =
      if leb s.deadline poll.now
      then transfer_failed timeout s.last_id
      else and_then (handle_entries poll.entries s) (poll_loop polls)

  -- The variables at the head of the loop when the call begins.
  abbrev pub at_call : Text → ℕ → Loop
  at_call last_id start = record {
    rx = initial;
    last_id = last_id;
    deadline = start + wait_timeout;
  }

  -- `receive_once(last_id)`, called when the clock reads `start`.
  unfoldable pub receive_once : Text → ℕ → List Poll → Outcome
  receive_once last_id start polls = poll_loop polls (at_call last_id start)

pub Outcome-cases :
    (o : Outcome)
    → ((s : Loop) × (o ≡ waiting s))
      ⊎ ((content : Bytes) × (id : Text) × (transfer_id : Option Text) × (o
            ≡ completed content id transfer_id))
      ⊎ ((why : Failure) × (id : Text) × (o ≡ transfer_failed why id))
      ⊎ ((error : Error) × (o ≡ raised error))
Outcome-cases (waiting s) = inl (s, refl)
Outcome-cases (completed content id transfer_id) = inr (inl (content, id, transfer_id, refl))
Outcome-cases (transfer_failed why id) = inr (inr (inl (why, id, refl)))
Outcome-cases (raised error) = inr (inr (inr (error, refl)))
