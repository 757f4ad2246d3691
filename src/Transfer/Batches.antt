-- ===== src/Transfer/Batches.antt =====
-- The polling loop: the replies of XREAD may cut the entries anywhere, silence ends in a timeout.
use mathlib.Core.Path.{fun_ext}
use delegate_implementation.Base.{
  ℕ, ◌+◌, ◌≤◌, ◌<◌, Text, List, [], ◌∷◌, ◌++◌, map, some, leb, Bool-cases, inl, inr, All, false,
  ◌≡◌, refl, ap, ◌∙◌, arith,
}
use delegate_implementation.Platform.{Platform, Bytes, Fields}
use delegate_implementation.Transfer.Sender.{on_stream, transfer_messages, send_bytes}
use delegate_implementation.Transfer.Receiver.{timeout}
use delegate_implementation.Transfer.Loop.{
  Entry, Poll, Loop, Outcome, waiting, completed, transfer_failed, raised, handle_entry,
  handle_entries, and_then, poll_loop, at_call, receive_once,
}
use delegate_implementation.Transfer.RoundTrip.{contents, last_of, handle_entries-transfer}

-- All entries of the replies, in order.
abbrev pub all_entries : List Poll → List Entry
all_entries [] = []
all_entries (poll ∷ polls) = poll.entries ++ all_entries polls

on_stream-messages :
    (p : Platform) (key : Text) (ms : List Fields) → map (λ c. c.1) (on_stream p key ms) ≡ ms
unfolding on_stream
on_stream-messages p key [] = refl
on_stream-messages p key (m ∷ ms) = ap (◌∷◌ m) (on_stream-messages p key ms)

-- What a call of the sender publishes, without the stream's name.
pub send_bytes-messages :
    (p : Platform) (size : ℕ) (key : Text) (content : Bytes) (base : Fields) (tid : Text)
    → 0 < size
    → map (λ c. c.1) (send_bytes p size key content base tid).commands
      ≡ transfer_messages p size content base tid
unfolding send_bytes
send_bytes-messages p size key content base tid h =
    ground (arith, on_stream-messages p key (transfer_messages p size content base tid))

and_then_assoc :
    (o : Outcome) (f g : Loop → Outcome)
    → and_then (and_then o f) g ≡ and_then o (λ s. and_then (f s) g)
and_then_assoc (waiting s) f g = refl
and_then_assoc (completed c l t) f g = refl
and_then_assoc (transfer_failed why l) f g = refl
and_then_assoc (raised e) f g = refl

-- What is asked of the loop's state if the call has not ended.
abbrev pub Pending : Outcome → (Loop → Type 0) → Type 0
Pending (waiting s) P = P s
Pending _ P = Unit

module _ (p : Platform) (wait_timeout : ℕ) where
  pub handle_entries-append :
      (xs ys : List Entry) (s : Loop)
      → handle_entries p wait_timeout (xs ++ ys) s
        ≡ and_then (handle_entries p wait_timeout xs s) (handle_entries p wait_timeout ys)
  unfolding handle_entries
  handle_entries-append [] ys s = refl
  handle_entries-append (e ∷ xs) ys s =
      rw and_then_assoc
        (ap (and_then (handle_entry p wait_timeout s e)) (fun_ext (handle_entries-append xs ys)))

  -- Each poll starts before the deadline that the replies before it have set.
  abbrev pub Timely : List Poll → Loop → Type 0
  Timely [] s = Unit
  Timely (poll ∷ polls) s =
      (poll.now < s.deadline)
      × Pending (handle_entries p wait_timeout poll.entries s) (Timely polls)

  and_then_pending :
      (polls : List Poll) (o : Outcome)
      → ((s : Loop)
          → Timely polls s
          → poll_loop p wait_timeout polls s ≡ handle_entries p wait_timeout (all_entries polls) s)
      → Pending o (Timely polls)
      → and_then o (poll_loop p wait_timeout polls)
        ≡ and_then o (handle_entries p wait_timeout (all_entries polls))
  and_then_pending polls (waiting s) h t = h s t
  and_then_pending polls (completed c l i) h t = refl
  and_then_pending polls (transfer_failed why l) h t = refl
  and_then_pending polls (raised e) h t = refl

  -- As long as the polls are timely, the batches do not matter.
  pub poll_loop-batches :
      (polls : List Poll) (s : Loop)
      → Timely polls s
      → poll_loop p wait_timeout polls s ≡ handle_entries p wait_timeout (all_entries polls) s
  unfolding poll_loop
  poll_loop-batches [] s t = unfold handle_entries in refl
  poll_loop-batches (poll ∷ polls) s t =
      let early : leb s.deadline poll.now ≡ false = ground arith in
      rw (early, handle_entries-append)
        (and_then_pending polls (handle_entries p wait_timeout poll.entries s)
          (poll_loop-batches polls) t.1)

  -- What the sender publishes, the receiver returns. The replies hold, in order, entries that do
  -- not end the call (requests, the remains of a failed transfer), the entries of one call of
  -- `send_bytes`, and any others; each poll starts in time.
  pub receive_once-send_bytes :
      (size : ℕ) (key : Text) (content : Bytes) (base : Fields) (tid last_id : Text) (start : ℕ)
      (before es after : List Entry) (polls : List Poll) {s : Loop}
      → 0 < size
      → all_entries polls ≡ before ++ (es ++ after)
      → contents es ≡ map (λ c. c.1) (send_bytes p size key content base tid).commands
      → handle_entries p wait_timeout before (at_call p wait_timeout last_id start) ≡ waiting s
      → Timely polls (at_call p wait_timeout last_id start)
      → receive_once p wait_timeout last_id start polls
        ≡ completed content (last_of s.last_id es) (some tid)
  unfolding receive_once
  receive_once-send_bytes size key content base tid last_id start before es after polls {s} pos_size
        split sent quiet timely =
      rw (
        poll_loop-batches polls _ timely,
        split,
        handle_entries-append,
        quiet,
        handle_entries-append,
        handle_entries-transfer p wait_timeout size content base tid s es pos_size
            (sent ∙ send_bytes-messages p size key content base tid pos_size),
      )

  -- Replies without entries keep nothing alive: at the first poll that starts at the deadline or
  -- later the call raises a timeout that carries the id it was called with.
  pub receive_once-timeout :
      (last_id : Text) (start : ℕ) (silent : List Poll) (late : Poll) (rest : List Poll)
      → All (λ poll. poll.entries ≡ []) silent
      → start + wait_timeout ≤ late.now
      → receive_once p wait_timeout last_id start (silent ++ late ∷ rest)
        ≡ transfer_failed timeout last_id
  unfolding receive_once poll_loop handle_entries
  receive_once-timeout last_id start [] late rest quiet h = ground arith
  receive_once-timeout last_id start (poll ∷ silent) late rest quiet h =
      elim (Bool-cases (leb (start + wait_timeout) poll.now)) [
        | inl over ↦ rw over
        | inr on ↦ rw (on, quiet.0) (receive_once-timeout last_id start silent late rest quiet.1 h)
      ]
