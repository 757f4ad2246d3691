-- ===== src/Transfer/Soundness.antt =====
-- What the receiver returns is what some DATA_START announced: nothing unchecked is handed on.
use mathlib.Core.Bool.{false≢true}
use delegate_implementation.Base.{
  ℕ, ◌+◌, ℤ, pos, int_eq_iff, Text, codes, text_eq_iff, List, [], ◌∷◌, Option, none, some,
  Option-cases, Bool-cases, if◌then◌else◌, Result, lookup, length, Any, inl, inr, ◌⊎◌, Bool, true,
  leb, ◌≡◌, refl, arith, ok, raise,
}
use delegate_implementation.Platform.{Platform, Bytes, Fields}
use delegate_implementation.Transfer.Sender.{sha256_bytes}
use delegate_implementation.Transfer.Receiver.{
  Rx, Reaction, next, failed, received, is_type, same_text, same_size, on_start, on_chunk, on_end,
  receive_message, belongs,
}
use delegate_implementation.Transfer.Batches.{all_entries, handle_entries-append}
use delegate_implementation.Transfer.Loop.{
  Entry, Poll, Loop, Outcome, waiting, completed, transfer_failed, raised, handle_entry,
  handle_entries, and_then, apply_reaction, poll_loop, at_call, receive_once,
}

pub same_size_eq : (n : ℕ) (o : Option ℤ) → same_size n o ≡ true → o ≡ some (pos n)
unfolding same_size
same_size_eq n none h = cc
same_size_eq n (some z) h = ground (arith, int_eq_iff (pos n) z)

pub same_text_eq : (t : Text) (o : Option Text) → same_text (some t) o ≡ true → o ≡ some t
unfolding same_text
same_text_eq t none h = cc
same_text_eq t (some u) h = ground (arith, text_eq_iff t u)

pub same_text-some : (t : Text) (o : Option Text) → same_text o (some t) ≡ true → o ≡ some t
unfolding same_text
same_text-some t none h = cc
same_text-some t (some u) h = ground (arith, text_eq_iff u t)

module _ (p : Platform) (content : Bytes) (tid : Option Text) where
  -- The message announces a transfer with the size and the checksum of the content.
  pub record Announces (fields : Fields) : Type 0 where
    pub kind : lookup "type" fields ≡ some (codes "DATA_START")
    pub named : lookup "transfer_id" fields ≡ tid
    pub checksum : lookup "checksum" fields ≡ some (sha256_bytes p content)
    pub size_text : Text
    pub sized : lookup "total_size" fields ≡ some size_text
    pub size : p.int_str size_text ≡ some (pos (length content))

  -- The receiver's variables hold such an announcement.
  record IsAnnounced (rx : Rx) : Type 0 where
    started : rx.started ≡ true
    named : rx.transfer_id ≡ tid
    checksum : rx.checksum_expected ≡ some (sha256_bytes p content)
    size : rx.total_size ≡ some (pos (length content))

  received-IsAnnounced :
      (rx : Rx) (fields : Fields)
      → receive_message p rx fields ≡ ok (received content tid)
      → IsAnnounced rx
  unfolding receive_message on_start on_chunk on_end belongs
  received-IsAnnounced rx fields h = ground (
    arith,
    same_size_eq (length rx.buf) rx.total_size,
    same_text_eq (sha256_bytes p rx.buf) rx.checksum_expected,
  )

  on_start-Announces :
      (rx : Rx) (progress : Bool) (fields : Fields)
      → is_type fields (codes "DATA_START") ≡ true
      → on_start p fields ≡ ok (next rx progress)
      → IsAnnounced rx
      → Announces fields
  unfolding on_start is_type
  on_start-Announces rx progress fields kind h a =
      elim (Option-cases (lookup "total_size" fields)) [
        | inl missing ↦ absurd (ground arith)
        | inr (t, sized) ↦ record {
          kind = same_text-some (codes "DATA_START") (lookup "type" fields) kind;
          named = ground arith;
          checksum = ground arith;
          size_text = t;
          sized = sized;
          size = ground arith;
        }
      ]

  -- Any other message leaves the announced values alone.
  on_chunk-IsAnnounced :
      (rx rx' : Rx) (progress : Bool) (fields : Fields)
      → on_chunk p rx fields ≡ ok (next rx' progress)
      → IsAnnounced rx'
      → IsAnnounced rx
  unfolding on_chunk
  on_chunk-IsAnnounced rx rx' progress fields h a = ground arith

  next-IsAnnounced :
      (rx rx' : Rx) (progress : Bool) (fields : Fields)
      → receive_message p rx fields ≡ ok (next rx' progress)
      → IsAnnounced rx'
      → IsAnnounced rx ⊎ Announces fields
  unfolding receive_message on_end
  next-IsAnnounced rx rx' progress fields h a =
      elim (Bool-cases (is_type fields (codes "DATA_START"))) [
        | inl start ↦ inr (on_start-Announces rx' progress fields start (rw start at h) a)
        | inr other ↦ inl (ground (arith, on_chunk-IsAnnounced rx rx' progress fields))
      ]

  apply_reaction-completed :
      (wait_timeout : ℕ) (s : Loop) (e : Entry) (r : Result Reaction) (k : Loop → Outcome)
      (last : Text)
      → and_then (apply_reaction p wait_timeout s e r) k ≡ completed content last tid
      → (r ≡ ok (received content tid))
        ⊎ ((s' : Loop) × (progress : Bool) × (r ≡ ok (next s'.rx progress))
            × (k s' ≡ completed content last tid))
  unfolding apply_reaction
  apply_reaction-completed wait_timeout s e (ok (next rx progress)) k last h = inr (
    record {
      rx = rx;
      last_id = e.id;
      deadline = if progress then e.at + wait_timeout else s.deadline;
    },
    progress,
    refl,
    h,
  )
  apply_reaction-completed wait_timeout s e (ok (failed why)) k last h = absurd (ground arith)
  apply_reaction-completed wait_timeout s e (ok (received c t)) k last h = inl (ground arith)
  apply_reaction-completed wait_timeout s e (raise error) k last h = absurd (ground arith)

  handle_entries-Announces :
      (wait_timeout : ℕ) (es : List Entry) (s : Loop) (last : Text)
      → handle_entries p wait_timeout es s ≡ completed content last tid
      → IsAnnounced s.rx ⊎ Any (λ e. Announces e.fields) es
  unfolding handle_entries handle_entry
  handle_entries-Announces wait_timeout [] s last h = absurd (ground arith)
  handle_entries-Announces wait_timeout (e ∷ es) s last h =
      elim (apply_reaction-completed wait_timeout s e (receive_message p s.rx e.fields)
        (handle_entries p wait_timeout es) last h) [
          | inl done ↦ inl (received-IsAnnounced s.rx e.fields done)
          | inr (s', progress, step, rest) ↦
              elim (handle_entries-Announces wait_timeout es s' last rest) [
                | inl held ↦ elim (next-IsAnnounced s.rx s'.rx progress e.fields step held) [
                  | inl before ↦ inl before
                  | inr here ↦ inr (inl here)
                ]
                | inr later ↦ inr (inr later)
              ]
        ]

and_then_completed :
    (o : Outcome) (f g : Loop → Outcome) (content : Bytes) (last : Text) (tid : Option Text)
    → ((s : Loop) → f s ≡ completed content last tid → g s ≡ completed content last tid)
    → and_then o f ≡ completed content last tid
    → and_then o g ≡ completed content last tid
and_then_completed (waiting s) f g content last tid keep h = keep s h
and_then_completed (completed c l t) f g content last tid keep h = h
and_then_completed (transfer_failed why l) f g content last tid keep h = h
and_then_completed (raised e) f g content last tid keep h = h

module _ (p : Platform) (wait_timeout : ℕ) (content : Bytes) (tid : Option Text) where
  -- A call that returns has met no timeout, so it is one pass over the entries.
  poll_loop-completed :
      (polls : List Poll) (s : Loop) (last : Text)
      → poll_loop p wait_timeout polls s ≡ completed content last tid
      → handle_entries p wait_timeout (all_entries polls) s ≡ completed content last tid
  unfolding poll_loop
  poll_loop-completed [] s last h = absurd (ground arith)
  poll_loop-completed (poll ∷ polls) s last h = elim (Bool-cases (leb s.deadline poll.now)) [
    | inl late ↦ absurd (ground arith)
    | inr early ↦
        let h' = rw early at h in
        rw handle_entries-append (
          and_then_completed (handle_entries p wait_timeout poll.entries s)
            (poll_loop p wait_timeout polls) (handle_entries p wait_timeout (all_entries polls))
            content last tid (λ s'. poll_loop-completed polls s' last) h')
  ]

  -- If a call returns a content, then among the entries that it was given one is a DATA_START of
  -- that transfer which announced exactly the length and the SHA-256 checksum of that content.
  pub receive_once-Announces :
      (last_id last : Text) (start : ℕ) (polls : List Poll)
      → receive_once p wait_timeout last_id start polls ≡ completed content last tid
      → Any (λ e. Announces p content tid e.fields) (all_entries polls)
  unfolding receive_once
  receive_once-Announces last_id last start polls h =
      elim (handle_entries-Announces p content tid wait_timeout (all_entries polls)
        (at_call p wait_timeout last_id start) last
        (poll_loop-completed polls (at_call p wait_timeout last_id start) last h)) [
          | inl before ↦ absurd (false≢true before.started)
          | inr announced ↦ announced
        ]
